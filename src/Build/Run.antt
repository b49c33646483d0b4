-- ===== src/Build/Run.antt =====
-- `run_build` and `build` of src/build.rs around the run of make: the progress that its lines give,
-- the packages that are picked, and what is cleaned up. What make and dpkg-deb leave in the build root
-- is an argument.
pub mod Progress
pub mod Picked
pub mod Cleaned
use kernel_pop.Prelude.{
  ℕ, zero, suc, ◌+◌, ◌*◌, ◌/◌, Bool, true, false, not, ◌&&◌, ◌||◌, if◌then◌else◌, Option, none,
  some, List, [], ◌∷◌, ◌++◌, Result, ok, err, ◌>>=◌, ◌>>◌, guard, context, ltb, leb, any, keep,
  is_some,
}
use mathlib.Core.List.{map}
use kernel_pop.Text.{Text, codes, text_eq, ends_with}
use kernel_pop.Build.Texts.{is_object_line, is_packaging_line}

pub data Stage : Type 0 where
  extract configure build pack : Stage

unfoldable pub stage_label : Stage → Text
stage_label extract = codes "Extracting"
stage_label configure = codes "Configuring"
stage_label build = codes "Building"
stage_label pack = codes "Packaging"

-- `progress done total` is the share of the objects
pub data BuildEvent : Type 0 where
  stage : Stage → BuildEvent
  line : Text → BuildEvent
  progress : ℕ → ℕ → BuildEvent

-- the atomics that `on_line` shares with the function around it
pub record Seen : Type 0 where
  pub packaging : Bool
  pub compiled : ℕ
  pub percent : ℕ

abbrev pub nothing_seen : Seen
nothing_seen = record { packaging = false; compiled = 0; percent = 0 }

abbrev pub min : ℕ → ℕ → ℕ
min a b = if leb a b then a else b

abbrev pub announce : Bool → Seen → Seen × List BuildEvent
announce true s = (record s { packaging = true }, stage pack ∷ [])
announce false s = (s, [])

unfoldable pub see_packaging : Text → Seen → Seen × List BuildEvent
unfolding is_packaging_line
see_packaging l s = announce (not s.packaging && is_packaging_line l) s

unfoldable pub see_object : ℕ → Seen → Seen × List BuildEvent
see_object total s =
    let done = min (s.compiled + 1) total in
    let pct = done * 100 / total in
    let counted = record s { compiled = s.compiled + 1 } in
    if ltb s.percent pct
    then (record counted { percent = pct }, progress done total ∷ [])
    else (counted, [])

-- the object count is known, or not
unfoldable pub on_line : Option ℕ → Text → Seen → Seen × List BuildEvent
unfolding see_packaging see_object is_object_line
on_line objects l s =
    let (p, started) = see_packaging l s in
    elim objects [
      | none ↦ (p, started)
      | some total ↦
          if is_object_line l
          then (let (q, counted) = see_object total p in (q, started ++ counted))
          else (p, started)
    ]

unfoldable pub on_lines : Option ℕ → List Text → Seen → Seen × List BuildEvent
unfolding on_line
on_lines objects [] s = (s, [])
on_lines objects (l ∷ ls) s =
    let (p, events) = on_line objects l s in
    let (q, later) = on_lines objects ls p in (q, events ++ later)

-- the stages and the progress of a run of make that succeeds with these lines
unfoldable pub events_of : Option ℕ → List Text → List BuildEvent
unfolding on_lines
events_of objects ls =
    let (s, events) = on_lines objects ls nothing_seen in
    stage build
    ∷ (elim objects [ none ↦ [] | some total ↦ progress 0 total ∷ [] ]
        ++ (events ++ (if s.packaging then [] else stage pack ∷ [])))

-- an entry of the build root: its name, whether its extension is "deb", whether it is a file, whether
-- it can be removed, and its Package field, where dpkg-deb reads it
pub record RootEntry : Type 0 where
  pub name : Text
  pub is_deb : Bool
  pub is_file : Bool
  pub can_remove : Bool
  pub package_field : Option Text

pub data PickError : Type 0 where
  not_a_package : Text → PickError
  no_image : Text → PickError

abbrev pub image_name : Text → Text
image_name krel = codes "linux-image-" ++ krel

abbrev pub headers_name : Text → Text
headers_name krel = codes "linux-headers-" ++ krel

-- the packages that are kept, each with its Package field
unfoldable pub pick : Text → List RootEntry → Result PickError (List (Text × Text))
unfolding text_eq
pick krel [] = ok []
pick krel (e ∷ es) = if not e.is_deb then pick krel es else do
  pkg ← context (not_a_package e.name) e.package_field
  rest ← pick krel es
  ok (
      if text_eq pkg (image_name krel) || text_eq pkg (headers_name krel)
      then (e.name, pkg) ∷ rest
      else rest)

unfoldable pub pick_packages : Text → List RootEntry → Result PickError (List (Text × Text))
unfolding pick text_eq
pick_packages krel es = do
  kept ← pick krel es
  guard (any (λ (n, pkg). text_eq pkg (image_name krel)) kept) (no_image (image_name krel))
  ok kept

-- what dpkg-buildpackage writes next to the tree
unfoldable pub is_output : Text → Bool
unfolding ends_with
is_output name =
    ends_with (codes ".deb") name
    || (ends_with (codes ".buildinfo") name || ends_with (codes ".changes") name)

unfoldable pub remove_package_outputs : List RootEntry → List RootEntry
unfolding is_output
remove_package_outputs es = keep (λ e. not (is_output e.name && (e.is_file && e.can_remove))) es

-- the build root: whether the tree is there, and the other entries
pub record Root : Type 0 where
  pub has_tree : Bool
  pub entries : List RootEntry

-- how `run_build` ended
pub data BuildEnd : Type 0 where
  built cancelled : BuildEnd
  failed : Text → BuildEnd

-- what `build` removes behind it; `can_clear` says whether the tree can be removed
unfoldable pub clean_up : Bool → BuildEnd → Root → Root
unfolding remove_package_outputs
clean_up can_clear built r = r
clean_up can_clear cancelled r = record {
  has_tree = r.has_tree && not can_clear;
  entries = remove_package_outputs r.entries;
}
clean_up can_clear (failed why) r = record r { entries = remove_package_outputs r.entries }
