-- ===== src/Verify/Address.antt =====
-- User IDs and their addresses in src/verify.rs.
pub mod Signers
use kernel_pop.Prelude.{
  ℕ, suc, ◌+◌, ◌-◌, Bool, true, false, not, Option, none, some, [], ◌∷◌, ◌++◌, ◌&&◌, ◌||◌, ◌==◌,
  if◌then◌else◌, List, ltb, any, take, drop, map_option, is_some,
}
use mathlib.Core.List.{map}
use kernel_pop.Text.{
  Text, codes, split_once, trim, text_eq, contains_char, is_whitespace, ascii_lower, join,
}

-- `rfind`: the index of the last place of a character
unfoldable pub rfind : ℕ → Text → Option ℕ
rfind c [] = none
rfind c (d ∷ t) = elim (rfind c t) [
  | some i ↦ some (suc i)
  | none ↦ if d == c then some 0 else none
]

-- the text between the brackets, or all of it without the white space around it
unfoldable pub inner_of : Option ℕ → Option ℕ → Text → Text
unfolding trim
inner_of (some a) (some b) uid = if ltb a b then take (b - (a + 1)) (drop (a + 1) uid) else trim uid
inner_of (some a) none uid = trim uid
inner_of none b uid = trim uid

unfoldable pub uid_address : Text → Option Text
unfolding inner_of rfind
uid_address uid =
    let inner = inner_of (rfind b'<' uid) (rfind b'>' uid) uid in
    if contains_char b'@' inner && not (any is_whitespace inner)
    then some (map ascii_lower inner)
    else none

abbrev pub signer_addresses : List Text
signer_addresses = codes "torvalds@kernel.org" ∷ codes "gregkh@kernel.org" ∷ []

abbrev pub is_signer_address : Text → Bool
is_signer_address a = any (text_eq a) signer_addresses

unfoldable pub is_release_signer : Text → Bool
is_release_signer uid = elim (uid_address uid) [ none ↦ false | some a ↦ is_signer_address a ]

unfoldable pub signer_uid_from_packets : Text → Option Text
unfolding split_once trim
signer_uid_from_packets packets = elim (split_once (codes "signer's user ID: ") packets) [
  | none ↦ none
  | some (_, rest) ↦ elim (split_once (codes ")") rest) [
    | none ↦ none
    | some (uid, _) ↦ some (trim uid)
  ]
]

pub record Signer : Type 0 where
  pub uid : Text
  pub fingerprint : Text

-- `chunks(4)`
unfoldable pub chunks_of_four : Text → List Text
chunks_of_four [] = []
chunks_of_four (a ∷ []) = (a ∷ []) ∷ []
chunks_of_four (a ∷ b ∷ []) = (a ∷ b ∷ []) ∷ []
chunks_of_four (a ∷ b ∷ c ∷ []) = (a ∷ b ∷ c ∷ []) ∷ []
chunks_of_four (a ∷ b ∷ c ∷ d ∷ t) = (a ∷ b ∷ c ∷ d ∷ []) ∷ chunks_of_four t

unfoldable pub grouped_fingerprint : Signer → Text
unfolding chunks_of_four join
grouped_fingerprint s = join (codes " ") (chunks_of_four s.fingerprint)
