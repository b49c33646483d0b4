-- ===== src/System/Versions/Relation.antt =====
-- `compare_to_running` of src/system.rs, from both sides.
use kernel_pop.Prelude.{ℕ, ◌≡◌, refl, arith, [], ◌∷◌, List}
use kernel_pop.Text.{Text}
use kernel_pop.System.Versions.{
  relate, pad, VersionRelation, newer, same, older, unknown, compare_to_running, dotted,
}
use kernel_pop.System.Versions.Order.{lex-flip}

abbrev pub opposite : VersionRelation → VersionRelation
opposite newer = older
opposite same = same
opposite older = newer
opposite unknown = unknown

relate-opposite : (rv cv : List ℕ) → relate cv rv ≡ opposite (relate rv cv)
unfolding relate
relate-opposite [] [] = refl
relate-opposite [] (c ∷ cv) = refl
relate-opposite (r ∷ rv) [] = refl
relate-opposite (r ∷ rv) (c ∷ cv) = rw (lex-flip (pad (c ∷ cv)) (pad (r ∷ rv))) (ground arith)

-- Seen from the other version, newer is older, and the same stays the same.
pub compare_to_running-opposite :
    (a b : Text) → compare_to_running b a ≡ opposite (compare_to_running a b)
unfolding compare_to_running
compare_to_running-opposite a b = relate-opposite (dotted a) (dotted b)
