-- ===== src/Download/Complete.antt =====
-- What `download_files` of src/download.rs leaves on the disk.
use kernel_pop.Prelude.{
  ℕ, ◌<◌, Bool, true, false, not, Option, some, [], ◌∷◌, if◌then◌else◌, List, Result, ok, err, ◌≡◌,
  refl, ◌∙◌, sym, ◌⊎◌, inl, inr, Bool-cases, Elem,
}
use mathlib.Core.Path.{subst}
use kernel_pop.Text.{Text, text_eq, text_eq_sound, text_eq_refl}
use kernel_pop.Download.Attempts.{Ended, download_one}
use kernel_pop.Download.Attempts.Complete.{IsWhole, download_one-complete}
use kernel_pop.Download.{
  Store, put, Remote, part_of, is_unusual, FilesError, no_directory, no_client, unusual_name,
  not_moved, no_mode, World, finish, finish_if, fetch_one, add_path, fetch_all, download_files,
}

-- the bytes at a path were sent whole by the server of a file, in one of three attempts
pub record IsFetched (w : World) (f : Remote) (file : Option (List ℕ)) : Type 0 where
  pub bytes : List ℕ
  pub try : ℕ
  pub early : try < 3
  pub there : file ≡ some bytes
  pub sent : IsWhole (w.attempts f.url try) bytes

-- what may have become of a path: nothing, or it is that of a partial file, or it is that of a file
-- that was fetched whole
abbrev pub IsTraced : World → List Remote → Store → Store → Text → Type 0
IsTraced w files store after q =
    (after q ≡ store q)
    ⊎ ((f : Remote) × Elem f files × (q ≡ part_of f.filename))
    ⊎ ((f : Remote) × Elem f files × (q ≡ f.filename) × IsFetched w f (after q))

choose {ℓ κ} :
    {A : Type ℓ} {B : Type κ} (P : B → Type 0) (b : Bool) (x y : A × B)
    → P x.1
    → P y.1
    → P (if b then x else y).1
choose P true x y px py = px
choose P false x y px py = py

add_path-store :
    (name : Text) (p : Result FilesError (List Text) × Store) → (add_path name p).1 ≡ p.1
add_path-store name (ok names, store) = refl
add_path-store name (err e, store) = refl

put-same : (name : Text) (file : Option (List ℕ)) (store : Store) → put name file store name ≡ file
put-same name file store = rw (text_eq_refl name)

module _ (w : World) where
  put-traced :
      (f : Remote) (fs : List Remote) (file : Option (List ℕ)) (store : Store) (q : Text)
      → (put (part_of f.filename) file store q ≡ store q) ⊎ (q ≡ part_of f.filename)
  put-traced f fs file store q = elim (Bool-cases (text_eq q (part_of f.filename))) [
    | inl h ↦ inr (text_eq_sound q (part_of f.filename) h)
    | inr h ↦ inl (rw (h))
  ]

  before :
      (f : Remote) (fs : List Remote) (part : Option (List ℕ)) (store : Store) (q : Text)
      → IsTraced w (f ∷ fs) store (put (part_of f.filename) part store) q
  before f fs part store q = elim (put-traced f fs part store q) [
    | inl same ↦ inl same
    | inr part ↦ inr (inl (f, inl refl, part))
  ]

  finish-traced :
      (f : Remote) (fs : List Remote) (store next : Store) (file : List ℕ) (try : ℕ) (q : Text)
      → try < 3
      → next (part_of f.filename) ≡ some file
      → IsWhole (w.attempts f.url try) file
      → ((next q ≡ store q) ⊎ (q ≡ part_of f.filename))
      → IsTraced w (f ∷ fs) store (finish w f.filename next).1 q
  unfolding finish
  finish-traced f fs store next file try q early there sent before =
      let P : Store → Type 0 = λ after. IsTraced w (f ∷ fs) store after q in
      let kept : P next = elim before [
        | inl same ↦ inl same
        | inr part ↦ inr (inl (f, inl refl, part))
      ] in
      choose P (not (w.can_set_mode (part_of f.filename))) (err (no_mode f.filename), next) _ kept
        (choose P (not (w.can_rename f.filename)) (err (not_moved f.filename), next) (ok tt, _) kept
          (elim (Bool-cases (text_eq q f.filename)) [
            | inl name ↦ inr (
                inr (
                  f,
                  inl refl,
                  text_eq_sound q f.filename name,
                  record {
                    bytes = file;
                    try = try;
                    early = early;
                    there = rw (name) there;
                    sent = sent;
                  },
                ))
            | inr other ↦ elim (Bool-cases (text_eq q (part_of f.filename))) [
              | inl part ↦ inr (inl (f, inl refl, text_eq_sound q (part_of f.filename) part))
              | inr neither ↦ elim before [
                | inl same ↦ inl (rw (other, neither) same)
                | inr part ↦ inr (inl (f, inl refl, part))
              ]
            ]
          ]))

  finish_if-traced :
      (f : Remote) (fs : List Remote) (store : Store) (q : Text) (d : Ended × Option (List ℕ))
      → download_one (w.attempts f.url) (store (part_of f.filename)) ≡ d
      → IsTraced w
          (f ∷ fs)
          store
          (finish_if w f.filename d.0 (put (part_of f.filename) d.1 store)).1
          q
  finish_if-traced f fs store q (Ended.complete, part) e =
      let (j, file, early, now, whole) =
        download_one-complete (w.attempts f.url) (store (part_of f.filename)) e in
      finish-traced f fs store (put (part_of f.filename) part store) file j q early
        (put-same (part_of f.filename) part store ∙ now) whole (put-traced f fs part store q)
  finish_if-traced f fs store q (Ended.cancelled, part) e = before f fs part store q
  finish_if-traced f fs store q (Ended.not_flushed, part) e = before f fs part store q
  finish_if-traced f fs store q (Ended.gave_up x, part) e = before f fs part store q

  fetch_one-traced :
      (f : Remote) (fs : List Remote) (store : Store) (q : Text)
      → IsTraced w (f ∷ fs) store (fetch_one w f store).1 q
  unfolding fetch_one
  fetch_one-traced f fs store q =
      let d = download_one (w.attempts f.url) (store (part_of f.filename)) in
      choose (λ after. IsTraced w (f ∷ fs) store after q) (is_unusual f.filename)
        (err (unusual_name f.filename), store)
        (finish_if w f.filename d.0 (put (part_of f.filename) d.1 store)) (inl refl)
        (finish_if-traced f fs store q d refl)

  both-traced :
      (f : Remote) (fs : List Remote) (store next after : Store) (q : Text)
      → IsTraced w (f ∷ fs) store next q
      → IsTraced w fs next after q
      → IsTraced w (f ∷ fs) store after q
  both-traced f fs store next after q one rest = elim rest [
    | inl same ↦ elim one [
      | inl same' ↦ inl (same ∙ same')
      | inr (inl part) ↦ inr (inl part)
      | inr (inr (g, at, name, fetched)) ↦
          inr (inr (g, at, name, subst (IsFetched w g) (sym same) fetched))
    ]
    | inr (inl (g, at, part)) ↦ inr (inl (g, inr at, part))
    | inr (inr (g, at, name, fetched)) ↦ inr (inr (g, inr at, name, fetched))
  ]

  rest-traced :
      (f : Remote) (fs : List Remote) (store next : Store) (q : Text)
      (r : Result FilesError (Unit {0}))
      → IsTraced w (f ∷ fs) store next q
      → IsTraced w fs next (fetch_all w fs next).1 q
      → IsTraced w
          (f ∷ fs)
          store
          (elim r as (λ _. Result FilesError (List Text) × Store) [
            | ok done ↦ add_path f.filename (fetch_all w fs next)
            | err e ↦ (err e, next)
          ]).1
          q
  rest-traced f fs store next q (ok done) one rest =
      subst (λ after. IsTraced w (f ∷ fs) store after q)
        (sym (add_path-store f.filename (fetch_all w fs next)))
        (both-traced f fs store next (fetch_all w fs next).1 q one rest)
  rest-traced f fs store next q (err e) one rest = one

  fetch_all-traced :
      (files : List Remote) (store : Store) (q : Text)
      → IsTraced w files store (fetch_all w files store).1 q
  unfolding fetch_all
  fetch_all-traced [] store q = inl refl
  fetch_all-traced (f ∷ fs) store q =
      let (fetched, next) = fetch_one w f store in
      rest-traced f fs store next q fetched (fetch_one-traced f fs store q)
        (fetch_all-traced fs next q)

  -- However a set of downloads ends, every path holds what it held before, or is that of a partial
  -- file, or holds under its own name a file that the server sent whole in one of three attempts.
  pub download_files-traced :
      (files : List Remote) (store : Store) (q : Text)
      → IsTraced w files store (download_files w files store).1 q
  unfolding download_files
  download_files-traced files store q =
      let P : Store → Type 0 = λ after. IsTraced w files store after q in
      choose P (not w.can_make_dir) (err no_directory, store) _ (inl refl)
        (choose P (not w.can_make_client) (err no_client, store) (fetch_all w files store)
          (inl refl) (fetch_all-traced files store q))
