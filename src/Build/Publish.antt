-- ===== src/Build/Publish.antt =====
-- `publish` of src/build.rs: the set is filled in a directory next to the final one and swapped in.
-- What the file system does is an argument. What is left of the first directory after an error is left
-- out: its caller removes it.
pub mod Swap
pub mod Content
use kernel_pop.Prelude.{
  ℕ, Bool, true, false, Option, none, some, [], ◌∷◌, ◌++◌, List, Result, ok, err, guard, ◌>>=◌,
  ◌>>◌, is_some, if◌then◌else◌,
}
use kernel_pop.Text.{Text, codes}
use kernel_pop.Build.Manifest.{Manifest, insert, manifest_text}

abbrev pub manifest_name : Text
manifest_name = codes "SHA256SUMS"

abbrev pub build_info : Text
build_info = codes "build-info.txt"

-- the files of a directory, the newest first
abbrev pub Dir : Type 0
Dir = List (Text × List ℕ)

pub data PublishError : Type 0 where
  no_directory : PublishError
  not_moved no_mode not_hashed not_written : Text → PublishError
  old_in_the_way not_moved_aside not_moved_in : PublishError

-- which operations of the file system succeed
pub record Io : Type 0 where
  pub sha256 : List ℕ → Text
  -- an earlier temporary directory is removed, and a new one made with its mode
  pub can_make_dir : Bool
  pub can_move : Text → Bool
  pub can_set_mode : Text → Bool
  pub can_hash : Text → Bool
  pub can_write : Text → Bool
  pub can_remove_old : Bool
  pub can_move_aside : Bool
  pub can_move_in : Bool
  pub can_move_back : Bool
  pub can_remove_aside : Bool

-- the final directory, and the one that an earlier set is moved aside to
pub record Places : Type 0 where
  pub out : Option Dir
  pub old : Option Dir

-- what a set holds besides its packages
pub record Papers : Type 0 where
  pub krel : Text
  pub config : List ℕ
  pub info : List ℕ
  pub log : List ℕ

module _ (io : Io) where
  unfoldable pub place : Dir → Dir → Manifest → Result PublishError (Dir × Manifest)
  place [] dir manifest = ok (dir, manifest)
  place ((name, bytes) ∷ keep) dir manifest = do
    guard (io.can_move name) (not_moved name)
    guard (io.can_set_mode name) (no_mode name)
    guard (io.can_hash name) (not_hashed name)
    place keep ((name, bytes) ∷ dir) (insert name (io.sha256 bytes) manifest)

  abbrev pub config_name : Text → Text
  config_name krel = codes "config-" ++ krel

  unfoldable pub fill : Dir → Papers → Result PublishError Dir
  fill keep p = do
    guard io.can_make_dir no_directory
    (dir, manifest) ← place keep [] []
    guard (io.can_write (config_name p.krel)) (not_written (config_name p.krel))
    guard (io.can_write build_info) (not_written build_info)
    guard (io.can_write manifest_name) (not_written manifest_name)
    guard (io.can_write (codes "build.log")) (not_written (codes "build.log"))
    guard (io.can_set_mode (config_name p.krel)) (no_mode (config_name p.krel))
    guard (io.can_set_mode build_info) (no_mode build_info)
    guard (io.can_set_mode manifest_name) (no_mode manifest_name)
    guard (io.can_set_mode (codes "build.log")) (no_mode (codes "build.log"))
    ok (
        (codes "build.log", p.log)
        ∷ (manifest_name, manifest_text manifest)
        ∷ (build_info, p.info)
        ∷ (config_name p.krel, p.config)
        ∷ dir)

  -- the rename into place, with the earlier set moved aside or not there
  unfoldable pub move_in : Bool → Dir → Places → Result PublishError (Unit {0}) × Places
  move_in had_old dir p =
      if io.can_move_in
      then (
        ok tt,
        record {
          out = some dir;
          old = if had_old then (if io.can_remove_aside then none else p.old) else p.old;
        },
      )
      else (
        err not_moved_in,
        if had_old then (if io.can_move_back then record { out = p.old; old = none } else p) else p,
      )

  unfoldable pub move_aside : Dir → Places → Result PublishError (Unit {0}) × Places
  unfolding move_in
  move_aside dir p =
      if is_some p.out
      then (if io.can_move_aside
          then move_in true dir (record { out = none; old = p.out })
          else (err not_moved_aside, p))
      else move_in false dir p

  unfoldable pub swap : Dir → Places → Result PublishError (Unit {0}) × Places
  unfolding move_aside
  swap dir p =
      if is_some p.old
      then (if io.can_remove_old
          then move_aside dir (record p { old = none })
          else (err old_in_the_way, p))
      else move_aside dir p

  unfoldable pub publish : Dir → Papers → Places → Result PublishError (Unit {0}) × Places
  publish keep papers p = elim (fill keep papers) [ err e ↦ (err e, p) | ok dir ↦ swap dir p ]
