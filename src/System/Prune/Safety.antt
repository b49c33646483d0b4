-- ===== src/System/Prune/Safety.antt =====
-- The results of `prune_candidates` in src/system.rs.
use Prim.Native.Nat.{max}
use kernel_pop.Prelude.{
  ℕ, ◌+◌, ◌-◌, ◌≤◌, ◌<◌, false, not, [], ◌∷◌, List, drop, keep, ◌≡◌, refl, arith, All, length,
  length-drop, length-keep-count, count-drop, count, Elem, Elem-keep, Elem-drop, Elem-All,
}
use mathlib.Core.List.{map}
use kernel_pop.Text.{Text}
use kernel_pop.System.Versions.{version_key}
use kernel_pop.System.Versions.Order.{lex_ge_trans, lex_ge_total, lex_ge_refl}
use kernel_pop.System.Prune.{InstalledKernel, sort, newer_first, prune_candidates}
use kernel_pop.System.Prune.Newest.{
  Sorted-sort, Elem-sort, count-sort, length-sort, Sorted, lt-count-drop,
}

-- `v` is an installed kernel that does not run, and more than `n` installed kernels are at least as
-- new as it (itself among them)
pub record IsOld (kernels : List InstalledKernel) (n : ℕ) (v : Text) : Type 0 where
  pub kernel : InstalledKernel
  pub named : kernel.version ≡ v
  pub installed : Elem kernel kernels
  pub idle : kernel.running ≡ false
  pub passed : n < count (λ k. newer_first k kernel) kernels

All-versions :
    (P : Text → Type 0) (ks : List InstalledKernel)
    → All (λ k. P k.version) ks
    → All P (map (λ k. k.version) ks)
All-versions P [] h = tt
All-versions P (k ∷ ks) (p, h) = (p, All-versions P ks h)

Sorted-newest : (kernels : List InstalledKernel) → Sorted newer_first (sort newer_first kernels)
Sorted-newest =
    Sorted-sort newer_first (λ a b. lex_ge_total (version_key a.version) (version_key b.version))
      (λ a b c.
        lex_ge_trans (version_key a.version) (version_key b.version) (version_key c.version))

-- Every version that may be pruned belongs to an installed kernel that is not running, and at least
-- `keep_newest` other installed kernels, and always at least one, are as new as it or newer.
pub prune_candidates-IsOld :
    (kernels : List InstalledKernel) (keep_newest : ℕ)
    → All (IsOld kernels (max keep_newest 1)) (prune_candidates kernels keep_newest)
unfolding prune_candidates
prune_candidates-IsOld kernels keep_newest =
    let n = max keep_newest 1 in
    let sorted = sort newer_first kernels in
    All-versions (IsOld kernels n) (keep (λ k. not k.running) (drop n sorted)) (
      Elem-All _ (keep (λ k. not k.running) (drop n sorted)) λ k e.
        let (m, idle) = Elem-keep (λ j. not j.running) k (drop n sorted) e in
        record {
          kernel = k;
          named = refl;
          installed = Elem-sort newer_first k kernels (Elem-drop n k sorted m);
          idle = ground arith;
          passed = omega (
            arith,
            count-sort newer_first (λ j. newer_first j k) kernels,
            lt-count-drop newer_first (λ j. lex_ge_refl (version_key j.version)) n sorted k
                (Sorted-newest kernels) m,
          );
        })

length-versions : (ks : List InstalledKernel) → length (map (λ k. k.version) ks) ≡ length ks
length-versions [] = refl
length-versions (k ∷ ks) = omega (arith, length-versions ks)

-- Pruning leaves at least `keep_newest` kernels, and one at the least; the others are all offered,
-- but for those that run.
pub length-prune_candidates :
    (kernels : List InstalledKernel) (keep_newest : ℕ)
    → (length (prune_candidates kernels keep_newest) ≤ length kernels - max keep_newest 1)
      × (length kernels - max keep_newest 1
          ≤ length (prune_candidates kernels keep_newest) + count (λ k. k.running) kernels)
unfolding prune_candidates
length-prune_candidates kernels keep_newest =
    let n = max keep_newest 1 in
    let sorted = sort newer_first kernels in
    omega (
      arith,
      length-versions (keep (λ k. not k.running) (drop n sorted)),
      length-keep-count (λ k. k.running) (drop n sorted),
      length-drop n sorted,
      length-sort newer_first kernels,
      count-drop (λ k. k.running) n sorted,
      count-sort newer_first (λ k. k.running) kernels,
    )
