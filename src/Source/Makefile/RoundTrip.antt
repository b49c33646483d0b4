-- ===== src/Source/Makefile/RoundTrip.antt =====
-- `parse_makefile` of src/source.rs on a Makefile as the kernel tree writes it.
use kernel_pop.Prelude.{
  ℕ, ◌≡◌, ◌≢◌, ◌≤◌, Bool, not, Option, none, some, [], ◌∷◌, ◌++◌, ◌&&◌, if◌then◌else◌, List, ok,
  all, All, All-all, All-append, All-map, find_map, or_option, arith, true, refl, ap, sym, ◌∙◌,
  false,
}
use kernel_pop.Text.{
  Text, codes, contains_char, text_eq, trim, u32_max, decimal, Lacks, NoSpace, split_once-Lacks,
  lines-append, split_once-append, trim_space, parse-decimal, decimal-NoSpace, is_whitespace,
}
use mathlib.Core.Bool.{true≢false}
use kernel_pop.Source.Version.{SourceVersion}
use kernel_pop.Source.Makefile.{field_of, field, number, parse_makefile, version_char}

-- "NAME = value"
abbrev pub assignment : Text → Text → Text
assignment name value = (name ++ 32 ∷ []) ++ b'=' ∷ (32 ∷ value)

-- what the names of the fields have in common
abbrev IsFieldName : Text → Type 0
IsFieldName m =
    Lacks b'=' (m ++ 32 ∷ [])
    × Lacks 10 (m ++ 32 ∷ [])
    × Lacks 13 (m ++ 32 ∷ [])
    × ((not (contains_char b':' (m ++ 32 ∷ [])) && not (contains_char b'?' (m ++ 32 ∷ []))) ≡ true)
    × (trim (m ++ 32 ∷ []) ≡ m)

field_of-assignment :
    (name m value : Text)
    → IsFieldName m
    → NoSpace value
    → field_of name (assignment m value) ≡ (if text_eq m name then some value else none)
unfolding field_of
field_of-assignment name m value (lacks, _, _, plain, trimmed) space =
    rw (split_once-append b'=' (m ++ 32 ∷ []) (32 ∷ value) lacks, field_of)
      (rw (trimmed, plain, trim_space value space) (ground arith))

NoSpace-Lacks : (b : ℕ) (t : Text) → is_whitespace b ≡ true → NoSpace t → Lacks b t
NoSpace-Lacks b t h = All-map _ _ t (λ c k e. true≢false (sym h ∙ ap is_whitespace (sym e) ∙ k))

Lacks-assignment :
    (b : ℕ) (m value : Text)
    → is_whitespace b ≡ true
    → b ≢ 32
    → Lacks b (m ++ 32 ∷ [])
    → NoSpace value
    → Lacks b (assignment m value)
Lacks-assignment b m value h ne lacks space = All-append _ (m ++ 32 ∷ []) _ lacks (
  (λ e. true≢false (sym h ∙ ap is_whitespace (sym e))),
  ((λ e. ne (sym e)), NoSpace-Lacks b value h space),
)

field-line :
    (name l rest : Text)
    → Lacks 10 l
    → Lacks 13 l
    → field name (l ++ 10 ∷ rest) ≡ or_option (field_of name l) (field name rest)
unfolding field
field-line name l rest h k = rw (lines-append l rest h k, find_map) (ground arith)

or_option-if {ℓ} :
    {A : Type ℓ} (b : Bool) (a : A) (o : Option A)
    → or_option (if b then some a else none) o ≡ (if b then some a else o)
or_option-if true a o = refl
or_option-if false a o = refl

field-assignment :
    (name m value rest : Text)
    → IsFieldName m
    → NoSpace value
    → field name (assignment m value ++ 10 ∷ rest)
      ≡ (if text_eq m name then some value else field name rest)
field-assignment name m value rest n space =
    field-line name (assignment m value) rest
      (Lacks-assignment 10 m value refl (omega arith) n.1 space)
      (Lacks-assignment 13 m value refl (omega arith) n.2 space)
    ∙ ap (λ o. or_option o (field name rest)) (field_of-assignment name m value n space)
    ∙ or_option-if (text_eq m name) value (field name rest)

-- The lines before the version: comments and blank lines, with no "=" in them.
abbrev pub IsComment : Text → Type 0
IsComment l = Lacks 10 l × Lacks 13 l × Lacks b'=' l

abbrev pub unlines : List Text → Text → Text
unlines [] rest = rest
unlines (l ∷ ls) rest = l ++ 10 ∷ unlines ls rest

field-unlines :
    (name : Text) (ls : List Text) (rest : Text)
    → All IsComment ls
    → field name (unlines ls rest) ≡ field name rest
unfolding field_of field
field-unlines name [] rest h = refl
field-unlines name (l ∷ ls) rest ((a, b, c), h) =
    field-line name l (unlines ls rest) a b
    ∙ rw (split_once-Lacks b'=' l c, field_of) (field-unlines name ls rest h)

abbrev pub declare : List (Text × Text) → Text → Text
declare [] rest = rest
declare ((m, value) ∷ ds) rest = assignment m value ++ 10 ∷ declare ds rest

lookup : Text → List (Text × Text) → Option Text
lookup name [] = none
lookup name ((m, value) ∷ ds) = if text_eq m name then some value else lookup name ds

-- the first declaration of a name counts
field-declare :
    (name : Text) (ds : List (Text × Text)) (rest : Text)
    → All (λ d. IsFieldName d.0 × NoSpace d.1) ds
    → field name (declare ds rest) ≡ or_option (lookup name ds) (field name rest)
unfolding lookup
field-declare name [] rest h = refl
field-declare name ((m, value) ∷ ds) rest ((n, space), h) =
    field-assignment name m value (declare ds rest) n space
    ∙ rw (field-declare name ds rest h) (ground arith)

abbrev pub version_lines : SourceVersion → List (Text × Text)
version_lines v =
    (codes "VERSION", decimal v.version)
    ∷ (codes "PATCHLEVEL", decimal v.patchlevel)
    ∷ (codes "SUBLEVEL", decimal v.sublevel)
    ∷ (codes "EXTRAVERSION", v.extraversion)
    ∷ []

-- The top of a kernel Makefile that declares `v`, behind comment lines and before anything else.
abbrev pub makefile : List Text → SourceVersion → Text → Text
makefile ls v rest = unlines ls (declare (version_lines v) rest)

pub record IsDeclarable (v : SourceVersion) : Type 0 where
  pub version_fits : v.version ≤ u32_max
  pub patchlevel_fits : v.patchlevel ≤ u32_max
  pub sublevel_fits : v.sublevel ≤ u32_max
  pub extra_chars : all version_char v.extraversion ≡ true

version_char-space : (c : ℕ) → version_char c ≡ true → is_whitespace c ≡ false
version_char-space c h = ground arith

module _ (ls : List Text) (v : SourceVersion) (rest : Text) (comments : All IsComment ls)
    (d : IsDeclarable v) where
  declared : All (λ e. IsFieldName e.0 × NoSpace e.1) (version_lines v)
  unfolding trim
  declared = (
    (((omega arith, omega arith, omega arith, refl, refl)), decimal-NoSpace v.version),
    (
      (((omega arith, omega arith, omega arith, refl, refl)), decimal-NoSpace v.patchlevel),
      (
        (((omega arith, omega arith, omega arith, refl, refl)), decimal-NoSpace v.sublevel),
        (
          (
            ((omega arith, omega arith, omega arith, refl, refl)),
            All-map _ _ v.extraversion version_char-space
                (All-all version_char v.extraversion d.extra_chars),
          ),
          tt,
        ),
      ),
    ),
  )

  field-makefile :
      (name : Text)
      → field name (makefile ls v rest)
        ≡ or_option (lookup name (version_lines v)) (field name rest)
  field-makefile name =
      field-unlines name ls _ comments ∙ field-declare name (version_lines v) rest declared

  number-makefile :
      (name : Text) (n : ℕ)
      → lookup name (version_lines v) ≡ some (decimal n)
      → n ≤ u32_max
      → number name (makefile ls v rest) ≡ ok n
  unfolding number
  number-makefile name n e fits = rw (field-makefile name, e) (rw (parse-decimal u32_max n fits))

-- Behind comment lines, the four version lines of a Makefile give exactly the version that they
-- declare, whatever stands below them, if the numbers fit in 32 bits and EXTRAVERSION has only
-- characters that a version can use.
pub parse_makefile-makefile :
    (ls : List Text) (v : SourceVersion) (rest : Text)
    → All IsComment ls
    → IsDeclarable v
    → parse_makefile (makefile ls v rest) ≡ ok v
unfolding parse_makefile lookup text_eq
parse_makefile-makefile ls v rest comments d = rw (
  number-makefile ls v rest comments d (codes "VERSION") v.version refl d.version_fits,
  number-makefile ls v rest comments d (codes "PATCHLEVEL") v.patchlevel refl d.patchlevel_fits,
  number-makefile ls v rest comments d (codes "SUBLEVEL") v.sublevel refl d.sublevel_fits,
  field-makefile ls v rest comments d (codes "EXTRAVERSION"),
  d.extra_chars,
)
