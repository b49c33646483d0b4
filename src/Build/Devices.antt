-- ===== src/Build/Devices.antt =====
-- The drivers of the devices that are there, in src/build.rs: `collect_modaliases` and
-- `present_device_modules`. What /sys holds, and what the shell prints, is an argument; /sys may be
-- any graph of directories, and the fuel is the limit of the depth.
pub mod Files
pub mod Collected
mod Tests
use Prim.Native.Nat.{Ordering}
use kernel_pop.Prelude.{
  ℕ, zero, suc, ◌+◌, Bool, true, false, not, Option, none, some, List, [], ◌∷◌, ◌++◌, if◌then◌else◌,
  ltb, rev, keep,
}
use mathlib.Core.List.{map}
use kernel_pop.Text.{Text, codes, text_eq, trim, lines}
use kernel_pop.System.Versions.{lex}
use kernel_pop.Source.Tarball.{FilePath}
use kernel_pop.Build.Texts.{shell_quote, normalize_module}

-- `BTreeSet<String>`: its elements in their order
unfoldable pub add : Text → List Text → List Text
unfolding lex
add t [] = t ∷ []
add t (u ∷ us) = elim (lex t u) [
  | Ordering.lt ↦ t ∷ u ∷ us
  | Ordering.eq ↦ u ∷ us
  | Ordering.gt ↦ u ∷ add t us
]

pub data FileKind : Type 0 where
  symlink directory file : FileKind

-- an entry of a directory, and its kind, where that can be read
pub record DirEntry : Type 0 where
  pub name : Text
  pub kind : Option FileKind

pub record Sys : Type 0 where
  pub read_dir : FilePath → Option (List DirEntry)
  pub read : FilePath → Option Text

abbrev pub join_name : FilePath → Text → FilePath
join_name dir name = dir ++ name ∷ []

abbrev pub add_some : Text → List Text → List Text
add_some alias out = if text_eq alias [] then out else add alias out

-- a file that is not a directory or a link
unfoldable pub see_file : Sys → FilePath → Text → List Text → List Text
unfolding text_eq trim add
see_file sys dir name out =
    if text_eq name (codes "modalias")
    then (elim (sys.read (join_name dir name)) [ none ↦ out | some a ↦ add_some (trim a) out ])
    else out

-- one entry; `enter` is the call for a directory
unfoldable pub see_entry :
    (FilePath → List Text → Option (List Text))
    → Sys
    → FilePath
    → DirEntry
    → List Text
    → Option (List Text)
unfolding see_file
see_entry enter sys dir e out = elim e.kind [
  | none ↦ some out
  | some symlink ↦ some out
  | some directory ↦ enter (join_name dir e.name) out
  | some file ↦ some (see_file sys dir e.name out)
]

unfoldable pub see_entries :
    (FilePath → List Text → Option (List Text))
    → Sys
    → FilePath
    → List DirEntry
    → List Text
    → Option (List Text)
unfolding see_entry
see_entries enter sys dir [] out = some out
see_entries enter sys dir (e ∷ es) out = elim (see_entry enter sys dir e out) [
  | none ↦ none
  | some next ↦ see_entries enter sys dir es next
]

-- `none` means that the fuel ran out
unfoldable pub collect_modaliases : ℕ → Sys → FilePath → List Text → ℕ → Option (List Text)
unfolding see_entries
collect_modaliases zero sys dir out depth = none
collect_modaliases (suc fuel) sys dir out depth =
    if ltb 24 depth then some out else elim (sys.read_dir dir) [
      | none ↦ some out
      | some es ↦ see_entries (λ d o. collect_modaliases fuel sys d o (depth + 1)) sys dir es out
    ]

abbrev pub sys_devices : FilePath
sys_devices = codes "sys" ∷ codes "devices" ∷ []

-- `chunks(64)`; `room` is what is left of a chunk, which stands in reverse
unfoldable pub chunks_onto : ℕ → List Text → List Text → List (List Text)
chunks_onto room [] [] = []
chunks_onto room (c ∷ cur) [] = rev (c ∷ cur) ∷ []
chunks_onto zero cur (t ∷ ts) = rev cur ∷ chunks_onto 63 (t ∷ []) ts
chunks_onto (suc room) cur (t ∷ ts) = chunks_onto room (t ∷ cur) ts

-- one call of modprobe for each alias
unfoldable pub script : List Text → Text
unfolding shell_quote
script [] = []
script (a ∷ rest) =
    codes "modprobe -R " ++ (shell_quote a ++ (codes " 2>/dev/null;" ++ script rest))

unfoldable pub add_lines : List Text → List Text → List Text
unfolding text_eq trim normalize_module add
add_lines [] mods = mods
add_lines (l ∷ ls) mods =
    add_lines ls (if text_eq (trim l) [] then mods else add (normalize_module l) mods)

-- `sh` is what the shell prints for a script, where it runs
unfoldable pub resolve : (Text → Option Text) → List (List Text) → List Text → List Text
unfolding script add_lines lines
resolve sh [] mods = mods
resolve sh (chunk ∷ chunks) mods = elim (sh (script chunk)) [
  | none ↦ resolve sh chunks mods
  | some out ↦ resolve sh chunks (add_lines (lines out) mods)
]

unfoldable pub present_device_modules : (Text → Option Text) → Sys → Option (List Text)
unfolding collect_modaliases chunks_onto resolve
present_device_modules sh sys = elim (collect_modaliases 26 sys sys_devices [] 0) [
  | none ↦ none
  | some aliases ↦ some (resolve sh (chunks_onto 64 [] aliases) [])
]
