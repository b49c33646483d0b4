-- ===== src/System/Signing/Marker.antt =====
-- `marker_matches` of src/system.rs, on the markers that the privileged script writes.
use kernel_pop.Prelude.{ℕ, [], ◌∷◌, ◌&&◌, ◌++◌, ◌==◌, ◌≡◌, ◌≢◌, ◌≤◌, refl, arith, ◌∙◌, ap, ◌+◌}
use kernel_pop.Text.{
  Text, decimal, decimal_int, ℤ, pos, negsuc, ℤ_eq, u64_max, NoSpace, IsI64, parse-decimal,
  parse_i64-decimal_int, split_whitespace, split_whitespace-next, decimal-NoSpace, decimal-ne-nil,
}
use kernel_pop.System.Signing.{marker_matches}

-- what `stat -c '%s %Y'` prints
abbrev pub marker : ℕ → ℤ → Text
marker size mtime = decimal size ++ 32 ∷ (decimal_int mtime ++ 10 ∷ [])

decimal_int-NoSpace : (m : ℤ) → NoSpace (decimal_int m)
unfolding decimal_int
decimal_int-NoSpace (pos n) = decimal-NoSpace n
decimal_int-NoSpace (negsuc n) = (refl, decimal-NoSpace (n + 1))

decimal_int-ne-nil : (m : ℤ) → decimal_int m ≢ []
unfolding decimal_int
decimal_int-ne-nil (pos n) = decimal-ne-nil n
decimal_int-ne-nil (negsuc n) = ground arith

marker-words :
    (size : ℕ) (m : ℤ) → split_whitespace (marker size m) ≡ decimal size ∷ decimal_int m ∷ []
unfolding split_whitespace
marker-words size m =
    split_whitespace-next (decimal size) _ 32 (decimal-ne-nil size) (decimal-NoSpace size) refl
    ∙ ap (λ ws. decimal size ∷ ws)
        (split_whitespace-next (decimal_int m) [] 10 (decimal_int-ne-nil m) (decimal_int-NoSpace m)
          refl)

-- A marker written for one size and time matches an image if and only if that image has the same
-- size and the same time.
pub marker_matches-marker :
    (size size' : ℕ) (m m' : ℤ)
    → size ≤ u64_max
    → IsI64 m
    → marker_matches (marker size m) size' m' ≡ (size == size' && ℤ_eq m m')
unfolding marker_matches
marker_matches-marker size size' m m' fits in_range =
    rw (marker-words size m, parse-decimal u64_max size fits, parse_i64-decimal_int m in_range)
