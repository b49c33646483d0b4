-- ===== src/Verify/Tests.antt =====
-- The functions of src/verify.rs on concrete inputs, and the theorems at some of them.
use kernel_pop.Prelude.{ℕ, true, false, some, [], ◌∷◌, List, ok, ◌≡◌, ◌⊎◌, refl, any, map_option}
use kernel_pop.Text.{Text, codes, lines, split_whitespace, text_eq}
use kernel_pop.Verify.Status.{good, missing_key, parse_gpgv_status, status_line}
use kernel_pop.Verify.Status.Good.{
  has_keyword, is_goodsig, is_failure, last_fingerprint, parse_gpgv_status-good,
}
use kernel_pop.Verify.Address.{
  signer_addresses, uid_address, is_release_signer, Signer, grouped_fingerprint,
  signer_uid_from_packets,
}
use kernel_pop.Verify.Tarball.{
  success, Programs, verify_tarball, export, fetch_other, other_address, signer_uid, uid_of, uid_in,
  gpgv_tarball, accept, tarball_verdict,
}
use kernel_pop.Verify.Tarball.Trusted.{verify_tarball-trusted}

abbrev fpr : Text
fpr = codes "647F"

abbrev report : Text
report =
    codes
      "[GNUPG:] NEWSIG\n[GNUPG:] GOODSIG 38DB Greg <gregkh@kernel.org>\n[GNUPG:] VALIDSIG 111 1 647F\n"

good_report : parse_gpgv_status (λ t. t) report ≡ good fpr
unfolding parse_gpgv_status status_line split_whitespace lines
good_report = refl

missing_report :
    parse_gpgv_status (λ t. t) (codes "[GNUPG:] ERRSIG 38DB 1\n[GNUPG:] NO_PUBKEY 38DB\n")
    ≡ missing_key (codes "38DB")
unfolding parse_gpgv_status status_line split_whitespace lines
missing_report = refl

parse_gpgv_status-good_example :
    (any (has_keyword is_goodsig) (lines report) ≡ true)
    × (any (has_keyword is_failure) (lines report) ≡ false)
    × (map_option (λ t. t) (last_fingerprint (lines report)) ≡ some fpr)
parse_gpgv_status-good_example = (parse_gpgv_status-good (λ t. t) report fpr).0 good_report

abbrev greg : Text
greg = codes "Greg Kroah-Hartman <GregKH@kernel.org>"

greg_address : uid_address greg ≡ some (codes "gregkh@kernel.org")
unfolding uid_address
greg_address = refl

other_signer : is_release_signer (codes "Greg <gregkh@kernel.org.evil.test>") ≡ false
unfolding is_release_signer uid_address text_eq
other_signer = refl

named_in_packets :
    signer_uid_from_packets (codes "\thashed subpkt 28 (signer's user ID: Sasha <s@kernel.org>)\n")
    ≡ some (codes "Sasha <s@kernel.org>")
unfolding signer_uid_from_packets
named_in_packets = refl

grouped :
    grouped_fingerprint (record { uid = []; fingerprint = codes "647F28654" }) ≡ codes "647F 2865 4"
unfolding grouped_fingerprint
grouped = refl

abbrev programs : Programs (Unit {0})
programs = record {
  to_uppercase = λ t. t;
  new_home = some tt;
  locate_keys = λ addresses home. some home;
  list_packets = λ home. some [];
  gpg_export = λ home. some (true, 153 ∷ 1 ∷ []);
  can_write = λ ring. true;
  run_gpgv = λ ring. some (success, report);
  list_keys = λ home f. some (codes "tru::1\npub:-:\nuid:-::::1::AB::Greg <gregkh@kernel.org>:\n");
}

abbrev signer : Signer
signer = record { uid = codes "Greg <gregkh@kernel.org>"; fingerprint = fpr }

verified : verify_tarball programs ≡ ok signer
unfolding verify_tarball export fetch_other other_address signer_uid signer_uid_from_packets uid_of
    uid_in gpgv_tarball accept tarball_verdict is_release_signer uid_address text_eq
    parse_gpgv_status status_line split_whitespace lines
verified = refl

verify_tarball-trusted_example :
    (empty fetched home : Unit {0}) × (ring : List ℕ) × (status listing : Text) × (is_release_signer
        signer.uid
      ≡ true)
    × (programs.new_home ≡ some empty)
    × (programs.locate_keys signer_addresses empty ≡ some fetched)
    × ((home ≡ fetched) ⊎ ((addr : Text) × (programs.locate_keys (addr ∷ []) fetched ≡ some home)))
    × (programs.list_keys home signer.fingerprint ≡ some listing)
    × (uid_in listing ≡ some signer.uid)
    × (programs.gpg_export home ≡ some (true, ring))
    × (programs.can_write ring ≡ true)
    × (programs.run_gpgv ring ≡ some (success, status))
    × (parse_gpgv_status programs.to_uppercase status ≡ good signer.fingerprint)
verify_tarball-trusted_example = verify_tarball-trusted programs verified
