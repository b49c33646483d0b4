-- ===== src/Verify/Tarball.antt =====
-- `gpgv_tarball` and `verify_tarball` of src/verify.rs. What gpg, gpgv and the decompressor do is an
-- argument; the lines written to the log are left out.
pub mod Trusted
use kernel_pop.Prelude.{
  ℕ, Bool, true, false, not, Option, none, some, [], ◌∷◌, ◌&&◌, ◌==◌, if◌then◌else◌, List, any,
  find, drop, or_default, Result, ok, err, context, guard, ◌>>=◌, ◌>>◌,
}
use kernel_pop.Text.{Text, codes, lines, starts_with, ends_with, split_char, text_eq}
use kernel_pop.Verify.Status.{
  GpgvVerdict, good, missing_key, bad, Reason, damaged_tarball, parse_gpgv_status,
}
use kernel_pop.Verify.Address.{
  uid_address, is_release_signer, signer_addresses, is_signer_address, signer_uid_from_packets,
  Signer,
}

-- how the decompressor ended
pub data Exit : Type 0 where
  success : Exit
  exited signalled : ℕ → Exit

abbrev pub sigpipe : ℕ
sigpipe = 13

abbrev pub died_of_sigpipe : Exit → Bool
died_of_sigpipe success = false
died_of_sigpipe (exited n) = false
died_of_sigpipe (signalled n) = n == sigpipe

abbrev pub is_good : GpgvVerdict → Bool
is_good (good f) = true
is_good (missing_key k) = false
is_good (bad r) = false

-- the verdict, with the decompressor's end
unfoldable pub tarball_verdict : Exit → GpgvVerdict → GpgvVerdict
tarball_verdict success v = v
tarball_verdict (exited n) v = bad damaged_tarball
tarball_verdict (signalled n) v = if n == sigpipe && not (is_good v) then v else bad damaged_tarball

pub data VerifyError : Type 0 where
  no_home no_keys no_export no_pipeline : VerifyError
  not_a_release_signer : Signer → VerifyError
  unknown_key : Text → VerifyError
  check_failed : Reason → VerifyError

abbrev pub first_of : List Text → Option Text
first_of [] = none
first_of (f ∷ fs) = some f

-- the tenth field of the first "uid:" line of `gpg --with-colons --list-keys`
unfoldable pub uid_in : Text → Option Text
unfolding starts_with lines split_char
uid_in listing = elim (find (starts_with (codes "uid:")) (lines listing)) [
  | none ↦ none
  | some l ↦ first_of (drop 9 (split_char b':' l))
]

abbrev pub is_empty : List ℕ → Bool
is_empty [] = true
is_empty (b ∷ bs) = false

-- The programs: `Home` is the state of the private gpg home.
pub record Programs (Home : Type 0) : Type 0 where
  pub to_uppercase : Text → Text
  -- `GnupgHome::new` and the directory of the keyring
  pub new_home : Option Home
  -- `gpg --locate-keys`: the home with the keys that were fetched
  pub locate_keys : List Text → Home → Option Home
  -- `gpg --list-packets` on the signature
  pub list_packets : Home → Option Text
  -- `gpg --export`: whether it succeeded, and its output
  pub gpg_export : Home → Option (Bool × List ℕ)
  -- whether the keyring could be written
  pub can_write : List ℕ → Bool
  -- the decompressor piped into gpgv with this keyring: its end, and gpgv's status lines
  pub run_gpgv : List ℕ → Option (Exit × Text)
  -- `gpg --list-keys` of a fingerprint
  pub list_keys : Home → Text → Option Text

module _ {Home : Type 0} (p : Programs Home) where
  unfoldable pub signer_uid : Home → Option Text
  signer_uid home = elim (p.list_packets home) [ none ↦ none | some t ↦ signer_uid_from_packets t ]

  unfoldable pub uid_of : Home → Text → Option Text
  uid_of home fpr = elim (p.list_keys home fpr) [ none ↦ none | some t ↦ uid_in t ]

  unfoldable pub export : Home → Result VerifyError (List ℕ)
  export home = do
    (succeeded, ring) ← context no_export (p.gpg_export home)
    guard (succeeded && not (is_empty ring)) no_export
    guard (p.can_write ring) no_export
    ok ring

  -- the address that the signature names, where its key is not fetched anyway
  unfoldable pub other_address : Home → Option Text
  other_address home = elim (signer_uid home) [
    | none ↦ none
    | some uid ↦ elim (uid_address uid) [
      | none ↦ none
      | some addr ↦
          if ends_with (codes "@kernel.org") addr && not (is_signer_address addr)
          then some addr
          else none
    ]
  ]

  unfoldable pub fetch_other : Home → Result VerifyError Home
  fetch_other home = elim (other_address home) [
    | none ↦ ok home
    | some addr ↦ context no_keys (p.locate_keys (addr ∷ []) home)
  ]

  unfoldable pub gpgv_tarball : List ℕ → Result VerifyError GpgvVerdict
  gpgv_tarball ring = do
    (dec, status) ← context no_pipeline (p.run_gpgv ring)
    ok (tarball_verdict dec (parse_gpgv_status p.to_uppercase status))

  unfoldable pub accept : Home → GpgvVerdict → Result VerifyError Signer
  accept home (good fpr) =
      let signer : Signer = record {
        uid = or_default (codes "unknown user ID") (uid_of home fpr);
        fingerprint = fpr;
      } in
      if is_release_signer signer.uid then ok signer else err (not_a_release_signer signer)
  accept home (missing_key k) = err (unknown_key k)
  accept home (bad r) = err (check_failed r)

  unfoldable pub verify_tarball : Result VerifyError Signer
  verify_tarball = do
    home ← context no_home p.new_home
    fetched ← context no_keys (p.locate_keys signer_addresses home)
    keys ← fetch_other fetched
    ring ← export keys
    v ← gpgv_tarball ring
    accept keys v
