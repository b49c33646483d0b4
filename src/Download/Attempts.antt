-- ===== src/Download/Attempts.antt =====
-- `download_one` of src/download.rs: at most three attempts at one file.
pub mod Complete
use kernel_pop.Prelude.{
  ℕ, zero, suc, ◌+◌, ◌%◌, ◌^◌, Bool, true, false, not, Option, none, some, [], ◌∷◌, ◌++◌, ◌==◌,
  if◌then◌else◌, List, length,
}

abbrev pub max_retries : ℕ
max_retries = 3

-- What the stream yields next, and what the write of it does: all of it is written, or a part of it,
-- or the stream breaks.
pub data Event : Type 0 where
  received : List ℕ → Event
  write_failed : List ℕ → Event
  broken : Event

-- with the cancel flag at that moment
pub record Arrival : Type 0 where
  pub cancelled : Bool
  pub event : Event

pub record Response : Type 0 where
  pub total : Option ℕ
  pub can_create : Bool
  pub arrivals : List Arrival
  pub can_flush : Bool
  pub can_remove : Bool

pub data Answer : Type 0 where
  no_answer http_error : Answer
  response : Response → Answer

pub record Attempt : Type 0 where
  pub cancelled : Bool
  pub answer : Answer

pub data LastError : Type 0 where
  unknown no_answer http_error not_created write_failed broken : LastError
  incomplete : ℕ → ℕ → LastError

-- how the whole download ended
pub data Ended : Type 0 where
  complete cancelled not_flushed : Ended
  gave_up : LastError → Ended

-- how one stream ended, with the bytes counted
pub data StreamEnd : Type 0 where
  done : ℕ → StreamEnd
  cancelled : StreamEnd
  failed : LastError → StreamEnd

-- the loop over the chunks: its end, and the file
unfoldable pub read_stream : List Arrival → List ℕ → ℕ → StreamEnd × List ℕ
read_stream [] file downloaded = (StreamEnd.done downloaded, file)
read_stream (a ∷ as_) file downloaded =
    let more : List ℕ → StreamEnd × List ℕ =
      λ bytes. read_stream as_ (file ++ bytes) ((downloaded + length bytes) % 2 ^ 64) in
    if a.cancelled then (StreamEnd.cancelled, file) else elim a.event [
      | received bytes ↦ more bytes
      | write_failed bytes ↦ (StreamEnd.failed LastError.write_failed, file ++ bytes)
      | broken ↦ (StreamEnd.failed LastError.broken, file)
    ]

-- the file at the path after `let _ = remove_file(dest)`
abbrev pub removed : Bool → List ℕ → Option (List ℕ)
removed can_remove file = if can_remove then none else some file

-- against the advertised length
unfoldable pub check_length : Option ℕ → ℕ → Option LastError
check_length none downloaded = none
check_length (some expected) downloaded =
    if downloaded == expected then none else some (incomplete downloaded expected)

-- One attempt ends the download, or leaves an error and goes on to the next.
pub data Step : Type 0 where
  ended : Ended → Step
  again : LastError → Step

abbrev pub after_check : Response → List ℕ → Option LastError → Step × Option (List ℕ)
after_check r file (some e) = (again e, removed r.can_remove file)
after_check r file none = (ended (if r.can_flush then complete else not_flushed), some file)

abbrev pub after_stream : Response → StreamEnd × List ℕ → Step × Option (List ℕ)
after_stream r (StreamEnd.done downloaded, file) =
    after_check r file (check_length r.total downloaded)
after_stream r (StreamEnd.cancelled, file) = (ended Ended.cancelled, removed r.can_remove file)
after_stream r (StreamEnd.failed e, file) = (again e, removed r.can_remove file)

unfoldable pub answer_step : Answer → Option (List ℕ) → Step × Option (List ℕ)
answer_step Answer.no_answer part = (again LastError.no_answer, part)
answer_step Answer.http_error part = (again LastError.http_error, part)
answer_step (response r) part =
    if r.can_create then after_stream r (read_stream r.arrivals [] 0) else (again not_created, part)

unfoldable pub attempt_step : Attempt → Option (List ℕ) → Step × Option (List ℕ)
attempt_step a part =
    if a.cancelled then (ended Ended.cancelled, part) else answer_step a.answer part

module _ (attempts : ℕ → Attempt) where
  -- `left` attempts are left, and `i` were made
  unfoldable pub tries : ℕ → ℕ → LastError → Option (List ℕ) → Ended × Option (List ℕ)
  tries zero i last_err part = (gave_up last_err, part)
  tries (suc left) i last_err part =
      let (step, now) = attempt_step (attempts i) part in
      elim step [ ended e ↦ (e, now) | again e ↦ tries left (i + 1) e now ]

  unfoldable pub download_one : Option (List ℕ) → Ended × Option (List ℕ)
  download_one part = tries max_retries 0 LastError.unknown part
