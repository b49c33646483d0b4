-- ===== src/Releases/Signature.antt =====
-- `fetch_signature` of src/kernelorg.rs over `download_files` of src/download.rs.
pub mod Named
mod Tests
use kernel_pop.Prelude.{Option, none, some, List, [], ◌∷◌, ◌++◌, Result, ok, err}
use kernel_pop.Text.{Text, codes}
use kernel_pop.Source.Version.{SourceVersion, release_name}
use kernel_pop.Releases.{signature_url}
use kernel_pop.Download.{World, Remote, Store, FilesError, download_files}

-- `paths.remove(0)` panics on an empty list
pub data Fetched : Type 0 where
  fetched : Text → Fetched
  not_fetched : FilesError → Fetched
  panicked : Fetched

unfoldable pub signature_file : SourceVersion → Text
unfolding release_name
signature_file v = codes "linux-" ++ (release_name v ++ codes ".tar.sign")

unfoldable pub signature_remote : SourceVersion → Remote
unfolding signature_file signature_url release_name
signature_remote v = record {
  url = signature_url (release_name v) v.version;
  filename = signature_file v;
}

abbrev pub first_path : Result FilesError (List Text) → Fetched
first_path (err e) = not_fetched e
first_path (ok []) = panicked
first_path (ok (p ∷ ps)) = fetched p

unfoldable pub fetch_signature : World → SourceVersion → Store → Fetched × Store
unfolding download_files signature_remote
fetch_signature w v store =
    let (paths, after) = download_files w (signature_remote v ∷ []) store in
    (first_path paths, after)
