-- ===== src/Download.antt =====
-- src/download.rs: files are fetched as ".part" and renamed once they are complete. What the server,
-- the disk and the user do is an argument; the progress events and the waits are left out.
pub mod Attempts
pub mod Complete
mod Tests
use kernel_pop.Prelude.{
  ℕ, ◌+◌, ◌%◌, ◌^◌, Bool, true, false, not, Option, none, some, [], ◌∷◌, ◌++◌, ◌&&◌, ◌||◌, ◌==◌,
  if◌then◌else◌, List, Result, ok, err,
}
use kernel_pop.Text.{Text, codes, text_eq, contains_char, starts_with}
use kernel_pop.Download.Attempts.{Attempt, LastError, Ended, download_one}

-- a path of the directory, and the file there
abbrev pub Store : Type 0
Store = Text → Option (List ℕ)

abbrev pub put : Text → Option (List ℕ) → Store → Store
put name file store q = if text_eq q name then file else store q

pub record Remote : Type 0 where
  pub url : Text
  pub filename : Text

abbrev pub part_of : Text → Text
part_of name = name ++ codes ".part"

unfoldable pub is_unusual : Text → Bool
unfolding starts_with text_eq
is_unusual name = contains_char b'/' name || (starts_with (codes ".") name || text_eq name [])

-- why a set of files was not fetched
pub data FilesError : Type 0 where
  no_directory no_client : FilesError
  unusual_name not_moved no_mode : Text → FilesError
  not_fetched : Text → Ended → FilesError

-- the server, the disk and the cancel flag, as the downloads meet them
pub record World : Type 0 where
  pub can_make_dir : Bool
  pub can_make_client : Bool
  pub attempts : Text → ℕ → Attempt
  pub can_set_mode : Text → Bool
  pub can_rename : Text → Bool

-- the paths of what was fetched, in order
abbrev pub add_path :
    Text → Result FilesError (List Text) × Store → Result FilesError (List Text) × Store
add_path name (ok names, store) = (ok (name ∷ names), store)
add_path name (err e, store) = (err e, store)

module _ (w : World) where
  -- behind a download that ended well: the mode, and the rename
  unfoldable pub finish : Text → Store → Result FilesError (Unit {0}) × Store
  unfolding text_eq
  finish name store =
      if not (w.can_set_mode (part_of name))
      then (err (no_mode name), store)
      else if not (w.can_rename name)
      then (err (not_moved name), store)
      else (ok tt, put name (store (part_of name)) (put (part_of name) none store))

  abbrev pub finish_if : Text → Ended → Store → Result FilesError (Unit {0}) × Store
  finish_if name Ended.complete store = finish name store
  finish_if name Ended.cancelled store = (err (not_fetched name Ended.cancelled), store)
  finish_if name Ended.not_flushed store = (err (not_fetched name Ended.not_flushed), store)
  finish_if name (Ended.gave_up e) store = (err (not_fetched name (Ended.gave_up e)), store)

  unfoldable pub fetch_one : Remote → Store → Result FilesError (Unit {0}) × Store
  fetch_one f store =
      if is_unusual f.filename
      then (err (unusual_name f.filename), store)
      else let (ended, part) = download_one (w.attempts f.url) (store (part_of f.filename)) in
        finish_if f.filename ended (put (part_of f.filename) part store)

  unfoldable pub fetch_all : List Remote → Store → Result FilesError (List Text) × Store
  fetch_all [] store = (ok [], store)
  fetch_all (f ∷ fs) store =
      let (fetched, next) = fetch_one f store in
      elim fetched [ ok done ↦ add_path f.filename (fetch_all fs next) | err e ↦ (err e, next) ]

  unfoldable pub download_files : List Remote → Store → Result FilesError (List Text) × Store
  download_files files store =
      if not w.can_make_dir
      then (err no_directory, store)
      else if not w.can_make_client
      then (err no_client, store)
      else fetch_all files store
