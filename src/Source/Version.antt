-- ===== src/Source/Version.antt =====
-- `Compression` and `SourceVersion` of src/source.rs.
use kernel_pop.Prelude.{ℕ, Option, none, some, [], ◌∷◌, ◌++◌, ◌||◌, ◌==◌, if◌then◌else◌, List}
use mathlib.Core.List.{map}
use kernel_pop.Text.{Text, codes, starts_with, decimal}

pub data Compression : Type 0 where
  xz gzip : Compression

unfoldable pub from_magic : List ℕ → Option Compression
unfolding starts_with
from_magic head =
    if starts_with (0xFD ∷ b'7' ∷ b'z' ∷ b'X' ∷ b'Z' ∷ 0x00 ∷ []) head
    then some xz
    else if starts_with (0x1F ∷ 0x8B ∷ []) head
    then some gzip
    else none

pub record SourceVersion : Type 0 where
  pub version : ℕ
  pub patchlevel : ℕ
  pub sublevel : ℕ
  pub extraversion : Text

unfoldable pub kernelversion : SourceVersion → Text
unfolding decimal
kernelversion v =
    decimal v.version
    ++ (b'.' ∷ decimal v.patchlevel)
    ++ (b'.' ∷ decimal v.sublevel)
    ++ v.extraversion

unfoldable pub release_name : SourceVersion → Text
unfolding decimal
release_name v =
    if v.sublevel == 0
    then decimal v.version ++ (b'.' ∷ decimal v.patchlevel) ++ v.extraversion
    else decimal v.version
      ++ (b'.' ∷ decimal v.patchlevel)
      ++ (b'.' ∷ decimal v.sublevel)
      ++ v.extraversion

-- a pre-release sorts before its release in Debian's order
abbrev pub tilde : ℕ → ℕ
tilde c = if c == b'-' || c == b'_' then b'~' else c

unfoldable pub deb_version : SourceVersion → Text
unfolding kernelversion
deb_version v = map tilde (kernelversion v) ++ codes "-1"
