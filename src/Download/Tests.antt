-- ===== src/Download/Tests.antt =====
-- A download from src/download.rs that succeeds at the second attempt, and the theorems at it.
use kernel_pop.Prelude.{
  ℕ, ◌<◌, true, false, none, some, [], ◌∷◌, List, err, ◌≡◌, refl, if◌then◌else◌, ◌==◌,
}
use kernel_pop.Text.{codes, text_eq, starts_with}
use kernel_pop.Download.Attempts.{
  Arrival, received, broken, response, Attempt, Ended, download_one, tries, attempt_step,
  answer_step, read_stream, check_length,
}
use kernel_pop.Download.Attempts.Complete.{IsWhole, download_one-complete}
use kernel_pop.Download.{
  Store, Remote, World, unusual_name, is_unusual, download_files, fetch_all, fetch_one, finish,
}
use kernel_pop.Download.Complete.{IsTraced, download_files-traced}

abbrev chunk : List ℕ → Arrival
chunk bytes = record { cancelled = false; event = received bytes }

abbrev break_off : Arrival
break_off = record { cancelled = false; event = broken }

abbrev reply : List Arrival → Attempt
reply chunks = record {
  cancelled = false;
  answer = response (record {
    total = some 3;
    can_create = true;
    arrivals = chunks;
    can_flush = true;
    can_remove = true;
  });
}

-- the first stream breaks, the second is whole
abbrev server : ℕ → Attempt
server i =
    if i == 0
    then reply (chunk (1 ∷ []) ∷ break_off ∷ [])
    else reply (chunk (1 ∷ 2 ∷ []) ∷ chunk (3 ∷ []) ∷ [])

second_time : download_one server none ≡ (Ended.complete, some (1 ∷ 2 ∷ 3 ∷ []))
unfolding download_one tries attempt_step answer_step read_stream check_length
second_time = refl

download_one-complete_example :
    (j : ℕ) × (file : List ℕ) × (j < 3)
    × (some (1 ∷ 2 ∷ 3 ∷ []) ≡ some file)
    × IsWhole (server j) file
download_one-complete_example = download_one-complete server none second_time

abbrev world : World
world = record {
  can_make_dir = true;
  can_make_client = true;
  attempts = λ url. server;
  can_set_mode = λ path. true;
  can_rename = λ name. true;
}

abbrev files : List Remote
files =
    record { url = codes "https://x"; filename = codes "a" }
    ∷ record { url = codes "https://y"; filename = codes "../b" }
    ∷ []

abbrev empty : Store
empty q = none

stopped_at_name : (download_files world files empty).0 ≡ err (unusual_name (codes "../b"))
unfolding download_files fetch_all fetch_one finish is_unusual download_one tries attempt_step
    answer_step read_stream check_length text_eq starts_with
stopped_at_name = refl

download_files-traced_example :
    IsTraced world files empty (download_files world files empty).1 (codes "a")
download_files-traced_example = download_files-traced world files empty (codes "a")
