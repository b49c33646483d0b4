-- ===== src/Build/Manifest/RoundTrip.antt =====
-- `parse_manifest` of src/build.rs on what `manifest_text` writes.
use Prim.Native.Nat.{Ordering}
use kernel_pop.Prelude.{
  ℕ, Bool, true, false, not, some, [], ◌∷◌, ◌++◌, List, keep, ok, ◌≡◌, ◌≢◌, refl, arith, sym, ap,
  ◌∙◌, All, All-all, All-map, All-append, append_assoc, append-nil,
}
use mathlib.Core.List.{map}
use mathlib.Core.Bool.{true≢false, false≢true}
use kernel_pop.Text.{
  Text, codes, is_hexdigit, ascii_lower, split_once, lines, trim, text_eq, Lacks, lines-append,
  strip_prefix, is_whitespace, text_eq-nil, trim-ne-nil,
}
use kernel_pop.System.Versions.{lex}
use kernel_pop.System.Versions.Order.{lex-flip}
use kernel_pop.Build.Manifest.{
  Manifest, insert, is_hash, is_deb_name, parse_entry, parse_entries, parse_manifest, manifest_text,
}

-- an entry that the build can write: a lower-case hash and a plain file name on one line
abbrev pub IsEntry : Text × Text → Type 0
IsEntry (name, hash) =
    (is_hash hash ≡ true)
    × (map ascii_lower hash ≡ hash)
    × (is_deb_name name ≡ true)
    × Lacks 10 name
    × Lacks 13 name

-- the keys rise, as in a `BTreeMap`
abbrev pub Rises : Manifest → Type 0
Rises [] = Unit
Rises ((n, h) ∷ m) = All (λ e. lex n e.0 ≡ Ordering.lt) m × Rises m

insert-last :
    (name hash : Text) (m : Manifest)
    → All (λ e. lex e.0 name ≡ Ordering.lt) m
    → insert name hash m ≡ m ++ (name, hash) ∷ []
unfolding insert
insert-last name hash [] h = refl
insert-last name hash ((n, x) ∷ m) (below, h) =
    ground (arith, lex-flip n name, insert-last name hash m h)

split_spaces : (a b : Text) → Lacks 32 a → split_once (codes "  ") (a ++ 32 ∷ 32 ∷ b) ≡ some (a, b)
unfolding split_once strip_prefix
split_spaces [] b h = ground arith
split_spaces (c ∷ a) b h = ground (arith, split_spaces a b)

abbrev entry_line : Text × Text → Text
entry_line (name, hash) = hash ++ (32 ∷ 32 ∷ name)

hex_facts :
    (c : ℕ) → is_hexdigit c ≡ true → (c ≢ 32) × (c ≢ 10) × (c ≢ 13) × (is_whitespace c ≡ false)
hex_facts c h = (ground arith, ground arith, ground arith, ground arith)

hash_chars : (hash : Text) → is_hash hash ≡ true → All (λ c. is_hexdigit c ≡ true) hash
hash_chars hash h = All-all is_hexdigit hash (ground arith)

parse_entry-line : (e : Text × Text) → IsEntry e → parse_entry (entry_line e) ≡ ok e
unfolding parse_entry
parse_entry-line (name, hash) (is_h, low, is_n, _, _) = rw (
  split_spaces hash name (All-map _ _ hash (λ c h. (hex_facts c h).0) (hash_chars hash is_h)),
  is_h,
  is_n,
  low,
)

abbrev not_blank : Text → Bool
not_blank l = not (text_eq (trim l) [])

not_blank-line : (e : Text × Text) → IsEntry e → not_blank (entry_line e) ≡ true
not_blank-line (name, []) h = absurd (false≢true h.0)
not_blank-line (name, c ∷ hash) (is_h, _, _, _, _) =
    rw (text_eq-nil _ (trim-ne-nil c (hash ++ (32 ∷ 32 ∷ name)) (ground arith)))

line-Lacks :
    (b : ℕ) (e : Text × Text)
    → is_hexdigit b ≡ false
    → b ≢ 32
    → IsEntry e
    → Lacks b e.0
    → Lacks b (entry_line e)
line-Lacks b (name, hash) no_hex no_space (is_h, _, _, _, _) lacks =
    All-append _ hash (32 ∷ 32 ∷ name)
      (All-map _ _ hash (λ c h e. true≢false (sym h ∙ ap is_hexdigit e ∙ no_hex))
        (hash_chars hash is_h))
      ((λ e. no_space (sym e)), ((λ e. no_space (sym e)), lacks))

lines-manifest_text :
    (m : Manifest) → All IsEntry m → keep not_blank (lines (manifest_text m)) ≡ map entry_line m
unfolding manifest_text lines
lines-manifest_text [] h = refl
lines-manifest_text ((name, hash) ∷ m) (e, h) =
    let l = entry_line (name, hash) in
    rw
      (
        lines-append l (manifest_text m) (line-Lacks 10 (name, hash) refl (omega arith) e e.3)
            (line-Lacks 13 (name, hash) refl (omega arith) e e.4),
        not_blank-line (name, hash) e,
      )
      (ap (λ ls. l ∷ ls) (lines-manifest_text m h))

All-middle {ℓ κ} :
    {A : Type ℓ} (P : A → Type κ) (xs : List A) (x : A) (ys : List A) → All P (xs ++ x ∷ ys) → P x
All-middle P [] x ys (h, _) = h
All-middle P (y ∷ xs) x ys (_, h) = All-middle P xs x ys h

below :
    (acc : Manifest) (e : Text × Text) (m : Manifest)
    → Rises (acc ++ e ∷ m)
    → All (λ a. lex a.0 e.0 ≡ Ordering.lt) acc
below [] e m h = tt
below ((n, x) ∷ acc) e m (first, h) = (All-middle _ acc e m first, below acc e m h)

parse_entries-lines :
    (acc m : Manifest)
    → All IsEntry m
    → Rises (acc ++ m)
    → parse_entries acc (map entry_line m) ≡ ok (acc ++ m)
unfolding parse_entries
parse_entries-lines acc [] h r = rw append-nil
parse_entries-lines acc ((name, hash) ∷ m) (e, h) r =
    rw (parse_entry-line (name, hash) e, insert-last name hash acc (below acc (name, hash) m r))
      (parse_entries-lines (acc ++ (name, hash) ∷ []) m h (rw append_assoc r)
        ∙ ap ok (append_assoc acc ((name, hash) ∷ []) m))

-- A manifest with at least one entry, in the order of its keys, is read back from what was written,
-- if every hash is 64 lower-case hex digits and every name a plain ".deb" name on one line.
pub parse_manifest-manifest_text :
    (m : Manifest) → m ≢ [] → All IsEntry m → Rises m → parse_manifest (manifest_text m) ≡ ok m
unfolding parse_manifest
parse_manifest-manifest_text [] ne h r = absurd (ne refl)
parse_manifest-manifest_text (e ∷ m) ne h r =
    rw (lines-manifest_text (e ∷ m) h, parse_entries-lines [] (e ∷ m) h r)
