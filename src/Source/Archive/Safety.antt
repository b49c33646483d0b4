-- ===== src/Source/Archive/Safety.antt =====
-- The listings that `check_single_top_dir` of src/source.rs accepts.
use kernel_pop.Prelude.{
  false, not, some, [], ◌∷◌, ◌&&◌, ◌++◌, List, ok, ◌≡◌, ◌≢◌, ◌⊎◌, inl, inr, arith, All, Bool-cases,
  append-nil, sym, ◌∙◌, ap, All-map, any-none, >>=-eq-ok,
}
use mathlib.Core.Bool.{true≢false}
use kernel_pop.Text.{
  Text, codes, text_eq, split_char, starts_with, lines, text_eq_sound, text_eq_refl,
  starts_with-append,
}
use kernel_pop.Source.Archive.{check_member, check_members, member_name, check_single_top_dir}

abbrev pub IsInside : Text → Text → Type 0
IsInside top name =
    ((name ≡ top) ⊎ ((r : Text) × (name ≡ (top ++ codes "/") ++ r)))
    × All (λ c. c ≢ codes "..") (split_char b'/' name)

-- the first test of `check_member`, read backwards
inside :
    (top name : Text)
    → (not (text_eq name top)
        && (not (text_eq name (top ++ codes "/")) && not (starts_with (top ++ codes "/") name)))
      ≡ false
    → (name ≡ top) ⊎ ((r : Text) × (name ≡ (top ++ codes "/") ++ r))
inside top name h = elim (Bool-cases (text_eq name top)) [
  | inl e ↦ inl (text_eq_sound name top e)
  | inr n ↦ elim (Bool-cases (text_eq name (top ++ codes "/"))) [
    | inl e ↦ inr ([], text_eq_sound name _ e ∙ sym (append-nil _))
    | inr m ↦ inr (starts_with-append (top ++ codes "/") name (ground arith))
  ]
]

text_ne : (t u : Text) → text_eq t u ≡ false → t ≢ u
text_ne t u h e = true≢false (sym (text_eq_refl t) ∙ ap (text_eq t) e ∙ h)

check_member-IsInside : (top name : Text) → check_member top name ≡ ok tt → IsInside top name
unfolding check_member
check_member-IsInside top name h = (
  inside top name (ground arith),
  All-map _ _ (split_char b'/' name) (λ c. text_ne c (codes ".."))
      (any-none (λ c. text_eq c (codes "..")) (split_char b'/' name) (ground arith)),
)

check_members-IsInside :
    (top : Text) (ls : List Text)
    → check_members top ls ≡ ok tt
    → All (λ line. IsInside top (member_name line)) ls
unfolding check_members
check_members-IsInside top [] h = tt
check_members-IsInside top (l ∷ ls) h =
    let (u, one, rest) =
      >>=-eq-ok (check_member top (member_name l)) (λ _. check_members top ls) h in
    (check_member-IsInside top (member_name l) one, check_members-IsInside top ls rest)

-- A listing that is accepted names only members inside the top-level directory, and none of their
-- path components is "..".
pub check_single_top_dir-IsInside :
    (top listing : Text)
    → check_single_top_dir top (some listing) ≡ ok tt
    → All (λ line. IsInside top (member_name line)) (lines listing)
unfolding check_single_top_dir
check_single_top_dir-IsInside top listing h = check_members-IsInside top (lines listing) h
