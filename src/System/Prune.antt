-- ===== src/System/Prune.antt =====
-- `prune_candidates` and the order of `get_installed_kernels` in src/system.rs.
pub mod Newest
pub mod Safety
use Prim.Native.Nat.{max}
use kernel_pop.Prelude.{
  ℕ, ◌+◌, suc, Bool, true, false, not, Option, none, some, [], ◌∷◌, ◌&&◌, ◌||◌, ◌++◌, ◌==◌,
  if◌then◌else◌, List, drop, keep,
}
use mathlib.Core.List.{map}
use kernel_pop.Text.{Text}
use kernel_pop.System.Versions.{version_key}
use kernel_pop.System.Versions.Order.{lex_ge}

-- a kernel's place in the boot menu
pub data BootEntry : Type 0 where
  present missing not_kept : BootEntry

pub data KernelSignature : Type 0 where
  kernel_pop_key distro unsigned : KernelSignature

pub record InstalledKernel : Type 0 where
  pub version : Text
  pub has_initrd : Bool
  pub has_modules : Bool
  pub boot_entry : BootEntry
  pub running : Bool
  pub signed : Option KernelSignature

-- Rust's sorts are stable: an element goes before the first one that comes strictly after it.
module _ {ℓ} {A : Type ℓ} (before_eq : A → A → Bool) where
  unfoldable pub insert : A → List A → List A
  insert x [] = x ∷ []
  insert x (y ∷ ys) = let rest = y ∷ insert x ys in if before_eq x y then x ∷ y ∷ ys else rest

  unfoldable pub sort : List A → List A
  unfolding insert
  sort [] = []
  sort (x ∷ xs) = insert x (sort xs)

-- newest first
abbrev pub newer_first : InstalledKernel → InstalledKernel → Bool
newer_first a b = lex_ge (version_key a.version) (version_key b.version)

unfoldable pub prune_candidates : List InstalledKernel → ℕ → List Text
prune_candidates kernels keep_newest =
    map (λ k. k.version)
      (keep (λ k. not k.running) (drop (max keep_newest 1) (sort newer_first kernels)))

-- the running kernel before all others, then newest first
abbrev pub listed_first : InstalledKernel → InstalledKernel → Bool
listed_first a b =
    if a.running
    then (if b.running then newer_first a b else true)
    else (if b.running then false else newer_first a b)

unfoldable pub sort_listed : List InstalledKernel → List InstalledKernel
unfolding sort
sort_listed = sort listed_first
