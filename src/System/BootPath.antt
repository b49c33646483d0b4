-- ===== src/System/BootPath.antt =====
-- What starts the machine and its kernels, in src/system.rs: `parse_boot_path`, `detect_bootloader`,
-- `sdboot_entry_matches` and `boot_entry`. Rust's lower-casing of a `str` and what is read from the
-- disk are arguments.
use kernel_pop.Prelude.{
  ℕ, suc, zero, ◌-◌, Bool, false, not, Option, none, some, [], ◌∷◌, ◌&&◌, ◌||◌, ◌==◌, if◌then◌else◌,
  List, find, find_map, ltb, leb, any, all, or_default, map_option,
}
use mathlib.Core.List.{map}
use kernel_pop.Text.{
  Text, codes, lines, strip_prefix, strip_suffix, trim, text_eq, contains, split_char, ascii_lower,
  ends_with, is_digit,
}
use kernel_pop.System.Prune.{BootEntry}
use kernel_pop.System.Health.{Links, EfiDir, kernelstub_entry, grub_cfg_mentions}

pub data BootPath : Type 0 where
  shim direct_systemd_boot unknown : BootPath
  other : Text → BootPath

-- how many bytes a code point takes
abbrev pub utf8_len : ℕ → ℕ
utf8_len c = if ltb c 0x80 then 1 else if ltb c 0x800 then 2 else if ltb c 0x10000 then 3 else 4

-- a text cut behind so many bytes, where that is between two characters
unfoldable pub byte_split : ℕ → Text → Option (Text × Text)
byte_split zero t = some ([], t)
byte_split (suc n) [] = none
byte_split (suc n) (c ∷ t) =
    let rest = byte_split (suc n - utf8_len c) t in
    if leb (utf8_len c) (suc n) then map_option (λ (a, b). (c ∷ a, b)) rest else none

abbrev pub eq_ignore_ascii_case : Text → Text → Bool
eq_ignore_ascii_case s t = text_eq (map ascii_lower s) (map ascii_lower t)

-- a line "Boot" with those four digits
unfoldable pub is_entry_of : Text → Text → Bool
unfolding strip_prefix byte_split text_eq
is_entry_of current l = elim (strip_prefix (codes "Boot") l) [
  | none ↦ false
  | some rest ↦ elim (byte_split 4 rest) [
    | none ↦ false
    | some (number, r) ↦ eq_ignore_ascii_case number current
  ]
]

abbrev pub skip_marks : Text → Text
skip_marks [] = []
skip_marks (c ∷ t) = let rest = skip_marks t in if c == b'*' || c == b' ' then rest else c ∷ t

abbrev pub head_part : List Text → Text
head_part [] = []
head_part (p ∷ ps) = p

-- the name in an entry's line
unfoldable pub entry_name : Text → Text
unfolding byte_split split_char trim
entry_name entry = elim (byte_split 8 entry) [
  | none ↦ []
  | some (number, rest) ↦ trim (head_part (split_char 9 (skip_marks rest)))
]

module _ (to_lowercase : Text → Text) where
  unfoldable pub classify_entry : Text → BootPath
  unfolding contains entry_name text_eq
  classify_entry entry =
      let lc = to_lowercase entry in
      let name = entry_name entry in
      if contains (codes "\\shimx64.efi") lc
      then shim
      else if contains (codes "\\efi\\boot\\bootx64.efi") lc
      then unknown
      else if contains (codes "\\systemd-bootx64.efi") lc
          || contains (codes "linux boot manager") lc
      then direct_systemd_boot
      else other (if text_eq name [] then codes "its boot loader" else name)

  unfoldable pub parse_boot_path : Text → BootPath
  unfolding classify_entry is_entry_of find_map lines strip_prefix trim
  parse_boot_path out = elim (find_map (strip_prefix (codes "BootCurrent:")) (lines out)) [
    | none ↦ unknown
    | some current ↦ elim (find (is_entry_of (trim current)) (lines out)) [
      | none ↦ unknown
      | some entry ↦ classify_entry entry
    ]
  ]

pub data Bootloader : Type 0 where
  grub kernelstub unknown : Bootloader
  systemd_boot : Text → Bootloader

-- What is found of boot loaders; `esp` is what bootctl prints, where it runs and succeeds.
pub record Found : Type 0 where
  pub kernelstub_configured : Bool
  pub kernelstub_command : Bool
  pub is_efi : Bool
  pub esp : Option Text
  pub loader_conf : Text → Bool
  pub update_grub : Bool

abbrev pub grub_or_unknown : Found → Bootloader
grub_or_unknown f = if f.update_grub then Bootloader.grub else Bootloader.unknown

unfoldable pub detect_bootloader : Found → Bootloader
unfolding trim text_eq
detect_bootloader f =
    if f.kernelstub_configured || f.kernelstub_command
    then Bootloader.kernelstub
    else if f.is_efi
    then (elim f.esp [
      | none ↦ grub_or_unknown f
      | some printed ↦
          if not (text_eq (trim printed) []) && f.loader_conf (trim printed)
          then systemd_boot (trim printed)
          else grub_or_unknown f
    ])
    else grub_or_unknown f

abbrev pub skip_returns : Text → Text
skip_returns [] = []
skip_returns (c ∷ t) = elim (skip_returns t) [
  | [] ↦ if c == 13 then [] else c ∷ []
  | d ∷ r ↦ c ∷ d ∷ r
]

abbrev pub starts_blank : Text → Bool
starts_blank [] = false
starts_blank (c ∷ t) = c == b' ' || c == 9

-- a "version" line of the entry
unfoldable pub version_line : Text → Text → Bool
unfolding strip_prefix trim text_eq
version_line version l = elim (strip_prefix (codes "version") (skip_returns l)) [
  | none ↦ false
  | some rest ↦ starts_blank rest && text_eq (trim rest) version
]

-- the text before the last "+", and the text behind it
unfoldable pub cut_at_plus : Text → Option (Text × Text)
cut_at_plus [] = none
cut_at_plus (c ∷ t) = elim (cut_at_plus t) [
  | some (a, b) ↦ some (c ∷ a, b)
  | none ↦ if c == b'+' then some ([], t) else none
]

-- without the boot counter
unfoldable pub without_tries : Text → Text
unfolding cut_at_plus
without_tries stem = elim (cut_at_plus stem) [
  | none ↦ stem
  | some (name, tries) ↦ if all (λ c. is_digit c || c == b'-') tries then name else stem
]

unfoldable pub sdboot_entry_matches : Text → Option Text → Text → Bool
unfolding version_line without_tries strip_suffix ends_with lines
sdboot_entry_matches name content version =
    any (version_line version) (lines (or_default [] content))
    || (elim (strip_suffix (codes ".conf") name) [
      | none ↦ false
      | some stem ↦ elim (strip_suffix version (without_tries stem)) [
        | none ↦ false
        | some head ↦ ends_with (codes "-") head
      ]
    ])

-- the entries of the ESP: each name with the content, where it can be read; `denied` is a directory
-- that may not be read
pub data EntriesDir : Type 0 where
  entries : List (Text × Option Text) → EntriesDir
  denied not_there : EntriesDir

abbrev pub present : Bool → BootEntry
present there = if there then BootEntry.present else BootEntry.missing

-- What `boot_entry` reads, each where it looks for it.
pub record BootFiles : Type 0 where
  pub root_links : Links
  pub boot_links : Links
  pub efi_dirs : List EfiDir
  pub grub_cfg : Option Text
  pub loader_entries : Text → EntriesDir

unfoldable pub boot_entry : Text → BootFiles → Bootloader → BootEntry
unfolding sdboot_entry_matches kernelstub_entry grub_cfg_mentions
boot_entry version files Bootloader.unknown = BootEntry.present
boot_entry version files Bootloader.kernelstub =
    kernelstub_entry version files.root_links files.boot_links files.efi_dirs
boot_entry version files Bootloader.grub = present (grub_cfg_mentions files.grub_cfg version)
boot_entry version files (systemd_boot esp) = elim (files.loader_entries esp) [
  | entries es ↦ present (any (λ (n, content). sdboot_entry_matches n content version) es)
  | denied ↦ BootEntry.present
  | not_there ↦ BootEntry.missing
]
