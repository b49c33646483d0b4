-- ===== src/Releases/Signature/Named.antt =====
-- What `fetch_signature` of src/kernelorg.rs returns.
use kernel_pop.Prelude.{
  ℕ, Bool, true, false, not, all, ◌==◌, List, [], ◌∷◌, ◌++◌, Result, ok, err, ◌≡◌, refl, sym, ap,
  arith, All, All-append, All-map, All-all, if_either,
}
use mathlib.Core.List.{cons-ne-nil}
use kernel_pop.Text.{Text, codes, contains_char, decimal, decimal-All}
use kernel_pop.Source.Version.{SourceVersion, release_name}
use kernel_pop.Source.Makefile.{version_char}
use kernel_pop.Download.{
  World, Remote, Store, FilesError, is_unusual, download_files, fetch_all, fetch_one, finish,
  finish_if, no_directory, no_client, unusual_name, no_mode, not_moved, part_of, add_path,
}
use kernel_pop.Download.Attempts.{Ended}
use kernel_pop.Releases.Signature.{
  Fetched, fetched, not_fetched, panicked, signature_file, signature_remote, first_path,
  fetch_signature,
}

abbrev NoSlash : Text → Type 0
NoSlash = All (λ c. (c == b'/') ≡ false)

contains-NoSlash : (t : Text) → NoSlash t → contains_char b'/' t ≡ false
contains-NoSlash [] h = refl
contains-NoSlash (c ∷ t) (other, h) = rw (other, contains-NoSlash t h) refl

decimal-NoSlash : (n : ℕ) → NoSlash (decimal n)
decimal-NoSlash n = All-map _ _ (decimal n) (λ c h. ground arith) (decimal-All n)

extra-NoSlash : (t : Text) → all version_char t ≡ true → NoSlash t
extra-NoSlash t h = All-map _ _ t (λ c k. ground arith) (All-all version_char t h)

dot_decimal-NoSlash : (n : ℕ) → NoSlash (b'.' ∷ decimal n)
dot_decimal-NoSlash n = (refl, decimal-NoSlash n)

join-NoSlash : (s t : Text) → NoSlash s → NoSlash t → NoSlash (s ++ t)
join-NoSlash s t = All-append _ s t

release_name-NoSlash :
    (v : SourceVersion) → all version_char v.extraversion ≡ true → NoSlash (release_name v)
unfolding release_name
release_name-NoSlash v h =
    let extra = extra-NoSlash v.extraversion h in
    let short =
      join-NoSlash (decimal v.version) (b'.' ∷ decimal v.patchlevel) (decimal-NoSlash v.version)
        (dot_decimal-NoSlash v.patchlevel) in
    let long =
      join-NoSlash (decimal v.version ++ (b'.' ∷ decimal v.patchlevel)) (b'.' ∷ decimal v.sublevel)
        short (dot_decimal-NoSlash v.sublevel) in
    if_either (v.sublevel == 0) NoSlash (join-NoSlash _ v.extraversion short extra)
      (join-NoSlash _ v.extraversion long extra)

signature_file-usual :
    (v : SourceVersion)
    → all version_char v.extraversion ≡ true
    → is_unusual (signature_file v) ≡ false
unfolding is_unusual signature_file
signature_file-usual v h =
    let tail =
      join-NoSlash (release_name v) (codes ".tar.sign") (release_name-NoSlash v h)
        (refl, (refl, (refl, (refl, (refl, (refl, (refl, (refl, (refl, tt))))))))) in
    rw (contains-NoSlash (release_name v ++ codes ".tar.sign") tail) refl

-- a file name that `download_files` refuses
abbrev pub is_refusal : FilesError → Bool
is_refusal (unusual_name n) = true
is_refusal no_directory = false
is_refusal no_client = false
is_refusal (not_moved n) = false
is_refusal (no_mode n) = false
is_refusal (FilesError.not_fetched n e) = false

-- a success with that value, or an error other than a refused name
abbrev IsUsual : {A : Type 0} → A → Result FilesError A → Type 0
IsUsual a (ok b) = b ≡ a
IsUsual a (err e) = is_refusal e ≡ false

abbrev head_or : Text → List Text → Text
head_or d [] = d
head_or d (p ∷ ps) = p

abbrev Outcome : Type 0
Outcome = Result FilesError (Unit {0}) × Store

finish-IsUsual : (w : World) (name : Text) (store : Store) → IsUsual tt (finish w name store).0
unfolding finish
finish-IsUsual w name store =
    if_either (not (w.can_set_mode (part_of name))) (λ (r : Outcome). IsUsual tt r.0) refl
      (if_either (not (w.can_rename name)) (λ (r : Outcome). IsUsual tt r.0) refl refl)

finish_if-IsUsual :
    (w : World) (name : Text) (ended : Ended) (store : Store)
    → IsUsual tt (finish_if w name ended store).0
finish_if-IsUsual w name Ended.complete store = finish-IsUsual w name store
finish_if-IsUsual w name Ended.cancelled store = refl
finish_if-IsUsual w name Ended.not_flushed store = refl
finish_if-IsUsual w name (Ended.gave_up x) store = refl

fetch_one-IsUsual :
    (w : World) (f : Remote) (store : Store)
    → is_unusual f.filename ≡ false
    → IsUsual tt (fetch_one w f store).0
unfolding fetch_one
fetch_one-IsUsual w f store usual = rw usual (finish_if-IsUsual w f.filename _ _)

fetch_all-IsUsual :
    (w : World) (f : Remote) (store : Store)
    → is_unusual f.filename ≡ false
    → IsUsual (f.filename ∷ []) (fetch_all w (f ∷ []) store).0
unfolding fetch_all
fetch_all-IsUsual w f store usual = of (fetch_one w f store) (fetch_one-IsUsual w f store usual)
  where
    of :
        (r : Outcome)
        → IsUsual tt r.0
        → IsUsual
            (f.filename ∷ [])
            (elim r.0 as (λ x. Result FilesError (List Text) × Store) [
              | ok done ↦ add_path f.filename (ok [], r.1)
              | err e ↦ (err e, r.1)
            ]).0
    of (ok done, after) h = refl
    of (err e, after) h = h

-- the path of the signature, or an error that is no refusal of its name
abbrev pub IsNamed : SourceVersion → Fetched → Type 0
IsNamed v (fetched path) = path ≡ signature_file v
IsNamed v (not_fetched e) = is_refusal e ≡ false
IsNamed v panicked = ⊥

first_path-IsNamed :
    (v : SourceVersion) (r : Result FilesError (List Text))
    → IsUsual (signature_file v ∷ []) r
    → IsNamed v (first_path r)
first_path-IsNamed v (ok []) h = absurd (cons-ne-nil _ _ (sym h))
first_path-IsNamed v (ok (p ∷ ps)) h = ap (λ l. head_or p l) h
first_path-IsNamed v (err e) h = h

-- For a version whose extra part has only the characters of a kernel version, as in every Makefile that
-- is accepted, fetching the signature does not panic, is not refused for its file name, and on success
-- gives the path of the file that is named after the version.
pub fetch_signature-IsNamed :
    (w : World) (v : SourceVersion) (store : Store)
    → all version_char v.extraversion ≡ true
    → IsNamed v (fetch_signature w v store).0
unfolding fetch_signature download_files signature_remote
fetch_signature-IsNamed w v store plain =
    let f = signature_remote v in
    first_path-IsNamed v (download_files w (f ∷ []) store).0 (
      if_either (not w.can_make_dir)
        (λ (r : Result FilesError (List Text) × Store). IsUsual (signature_file v ∷ []) r.0) refl
        (if_either (not w.can_make_client)
          (λ (r : Result FilesError (List Text) × Store). IsUsual (signature_file v ∷ []) r.0) refl
          (fetch_all-IsUsual w f store (signature_file-usual v plain))))
