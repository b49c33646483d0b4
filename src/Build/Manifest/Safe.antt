-- ===== src/Build/Manifest/Safe.antt =====
-- The manifests that `parse_manifest` of src/build.rs accepts.
use Prim.Native.Nat.{Ordering}
use kernel_pop.Prelude.{
  ℕ, true, [], ◌∷◌, ◌==◌, List, length, all, ok, context, ◌≡◌, ◌≢◌, refl, arith, sym, ◌∙◌, All,
  All-map, >>=-eq-ok, &&_both,
}
use mathlib.Core.List.{map, cons-ne-nil}
use mathlib.Core.Path.{ap₂, subst}
use kernel_pop.Text.{Text, codes, is_hexdigit, ascii_lower, split_once}
use kernel_pop.System.Versions.{lex}
use kernel_pop.System.Versions.Order.{lex-flip, lex_lt_trans}
use kernel_pop.Build.Manifest.{
  Manifest, insert, is_hash, is_deb_name, parse_entry, parse_entries, parse_manifest, non_empty,
  bad_line,
}
use kernel_pop.Build.Manifest.RoundTrip.{Rises}

abbrev pub IsSafe : Text × Text → Type 0
IsSafe (name, hash) =
    (is_deb_name name ≡ true) × (is_hash hash ≡ true) × (map ascii_lower hash ≡ hash)

pub data LexCases (xs ys : List ℕ) : Type 0 where
  less : lex xs ys ≡ Ordering.lt → LexCases xs ys
  equal : lex xs ys ≡ Ordering.eq → LexCases xs ys
  greater : lex xs ys ≡ Ordering.gt → LexCases xs ys

pub lex-cases : (xs ys : List ℕ) → LexCases xs ys
lex-cases xs ys = split (lex xs ys) refl
  where
    split : (o : Ordering) → lex xs ys ≡ o → LexCases xs ys
    split Ordering.lt e = less e
    split Ordering.eq e = equal e
    split Ordering.gt e = greater e

-- what holds of every entry, and of an entry under any key that it replaces, holds after an insertion
pub All-insert :
    (P : Text × Text → Type 0) (name hash : Text) (m : Manifest)
    → ((n h : Text) → P (n, h) → P (n, hash))
    → P (name, hash)
    → All P m
    → All P (insert name hash m)
unfolding insert
All-insert P name hash [] same p h = (p, tt)
All-insert P name hash ((n, x) ∷ m) same p (q, h) = elim (lex-cases name n) [
  | less e ↦ rw (e, All) (p, (q, h))
  | equal e ↦ rw (e, All) (same n x q, h)
  | greater e ↦ rw (e, All) (q, All-insert P name hash m same p h)
]

pub Rises-insert : (name hash : Text) (m : Manifest) → Rises m → Rises (insert name hash m)
unfolding insert
Rises-insert name hash [] r = (tt, tt)
Rises-insert name hash ((n, x) ∷ m) (h, r) = elim (lex-cases name n) [
  | less e ↦ rw (e, Rises) ((e, All-map _ _ m (λ k. lex_lt_trans name n k.0 e) h), (h, r))
  | equal e ↦ rw (e, Rises) (h, r)
  | greater e ↦
      rw (e, Rises)
        (
          All-insert (λ k. lex n k.0 ≡ Ordering.lt) name hash m (λ k y l. l)
              (ground (arith, lex-flip name n)) h,
          Rises-insert name hash m r,
        )
]

lower_hex :
    (c : ℕ)
    → is_hexdigit c ≡ true
    → (is_hexdigit (ascii_lower c) ≡ true) × (ascii_lower (ascii_lower c) ≡ ascii_lower c)
lower_hex c h = ground arith

length-lower : (t : Text) → length (map ascii_lower t) ≡ length t
length-lower [] = refl
length-lower (c ∷ t) = omega (arith, length-lower t)

lower_hash :
    (t : Text)
    → all is_hexdigit t ≡ true
    → (all is_hexdigit (map ascii_lower t) ≡ true)
      × (map ascii_lower (map ascii_lower t) ≡ map ascii_lower t)
lower_hash [] h = (refl, refl)
lower_hash (c ∷ t) h =
    let (a, b) = &&_both (is_hexdigit c) (all is_hexdigit t) h in
    let (hex, idem) = lower_hex c a in
    let (rest, rest_idem) = lower_hash t b in (rw (hex, rest), ap₂ ◌∷◌ idem rest_idem)

IsSafe-lower :
    (name hash : Text)
    → is_deb_name name ≡ true
    → is_hash hash ≡ true
    → IsSafe (name, map ascii_lower hash)
IsSafe-lower name hash n h =
    let (size, digits) = &&_both (length hash == 64) (all is_hexdigit hash) h in
    let (hex, idem) = lower_hash hash digits in (n, rw (length-lower hash, size, hex), idem)

parse_entry-IsSafe : (line : Text) {e : Text × Text} → parse_entry line ≡ ok e → IsSafe e
unfolding parse_entry
parse_entry-IsSafe line {e} h =
    let (p, cut, k) = >>=-eq-ok (context (bad_line line) (split_once (codes "  ") line)) _ h in
    let hash_ok : is_hash p.0 ≡ true = ground arith in
    let name_ok : is_deb_name p.1 ≡ true = ground arith in
    let same : e ≡ (p.1, map ascii_lower p.0) = ground arith in
    subst IsSafe (sym same) (IsSafe-lower p.1 p.0 name_ok hash_ok)

parse_entries-IsSafe :
    (acc : Manifest) (ls : List Text) {m : Manifest}
    → All IsSafe acc
    → Rises acc
    → parse_entries acc ls ≡ ok m
    → All IsSafe m × Rises m
unfolding parse_entries
parse_entries-IsSafe acc [] {m} s r h =
    let same : acc ≡ m = ground arith in (subst (All IsSafe) same s, subst Rises same r)
parse_entries-IsSafe acc (l ∷ ls) {m} s r h =
    let (e, parsed, rest) =
      >>=-eq-ok (parse_entry l) (λ (n, x). parse_entries (insert n x acc) ls) h in
    let safe = parse_entry-IsSafe l parsed in
    parse_entries-IsSafe (insert e.0 e.1 acc) ls {m = m}
      (All-insert IsSafe e.0 e.1 acc (λ n x q. (q.0, safe.1, safe.2)) safe s)
      (Rises-insert e.0 e.1 acc r) rest

non_empty-eq : (acc : Manifest) {m : Manifest} → non_empty acc ≡ ok m → (acc ≡ m) × (m ≢ [])
non_empty-eq [] h = cc
non_empty-eq (e ∷ acc) {m} h =
    let same : e ∷ acc ≡ m = ground arith in (same, λ nil. cons-ne-nil e acc (same ∙ nil))

-- An accepted manifest names at least one package. Its names rise, so none occurs twice; each is a
-- ".deb" name with no "/" that does not begin with ".", and each hash is 64 lower-case hex digits.
pub parse_manifest-IsSafe :
    (text : Text) {m : Manifest} → parse_manifest text ≡ ok m → (m ≢ []) × All IsSafe m × Rises m
unfolding parse_manifest
parse_manifest-IsSafe text {m} h =
    let (acc, parsed, k) = >>=-eq-ok (parse_entries [] _) non_empty h in
    let (same, ne) = non_empty-eq acc k in
    let (safe, rises) = parse_entries-IsSafe [] _ {m = acc} tt tt parsed in
    (ne, subst (All IsSafe) same safe, subst Rises same rises)
