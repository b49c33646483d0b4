-- ===== src/Prelude/Results.antt =====
-- `Result<T, E>` of the Rust code, and its `?`.
use mathlib.Core.Path.{◌≡◌, refl}
use mathlib.Core.Bool.{Bool, true, false}
use mathlib.Core.Option.{Option, none, some}
use kernel_pop.Prelude.Tests.{if◌then◌else◌}

pub data Result {ℓ κ} (E : Type ℓ) (A : Type κ) : Type (ℓ ⊔ κ) where
  ok : A → Result E A
  err : E → Result E A

infixl 5 ◌>>=◌ ◌>>◌
-- `r?`, with what the function does behind it
abbrev pub ◌>>=◌ {ℓ κ μ} :
    {E : Type ℓ} {A : Type κ} {B : Type μ} (r : Result E A) (rest : A → Result E B) → Result E B
err reason >>= rest = err reason
ok value >>= rest = rest value

-- `option.context(e)`
abbrev pub context {ℓ κ} : {E : Type ℓ} {A : Type κ} → E → Option A → Result E A
context reason (some value) = ok value
context reason none = err reason

-- A success comes from two successes.
pub >>=-eq-ok {ℓ κ μ} :
    {E : Type ℓ} {A : Type κ} {B : Type μ} (r : Result E A) (rest : A → Result E B) {value : B}
    → (r >>= rest) ≡ ok value
    → (first : A) × (r ≡ ok first) × (rest first ≡ ok value)
>>=-eq-ok (err reason) rest came = cc
>>=-eq-ok (ok first) rest came = (first, refl, came)

abbrev pub ◌>>◌ {ℓ κ} :
    {E : Type ℓ} {B : Type κ} (check : Result E (Unit {0})) (next : Result E B) → Result E B
check >> next = check >>= λ _. next

-- `if !test { bail!(reason) }`
abbrev pub guard {ℓ} : {E : Type ℓ} (test : Bool) (reason : E) → Result E (Unit {0})
guard test reason = elim test [ true ↦ ok tt | false ↦ err reason ]

-- A result behind a test means that the test is passed.
pub guard_passed {ℓ κ} :
    {E : Type ℓ} {B : Type κ} (test : Bool) (reason : E) {next : Result E B} {value : B}
    → (guard test reason >> next) ≡ ok value
    → (test ≡ true) × (next ≡ ok value)
guard_passed true reason came = (refl, came)
guard_passed false reason came = cc

pub ok_injective {ℓ κ} :
    {E : Type ℓ} {A : Type κ} {a b : A} {r : Result E A} → r ≡ ok a → r ≡ ok b → a ≡ b
ok_injective h k = cc

pub context-some {ℓ κ} :
    {E : Type ℓ} {A : Type κ} (reason : E) {a : A} (o : Option A)
    → context reason o ≡ ok a
    → o ≡ some a
context-some reason none h = cc
context-some reason (some b) h = cc

-- `if !test { return Err(e) }` with a state: a success comes from behind the test.
pub if_succeeds {ℓ κ μ} :
    {E : Type ℓ} {A : Type κ} {D : Type μ} (test : Bool) (next : Result E A × D) (e : E) (d : D)
    {a : A}
    → (if test then next else (err e, d)).0 ≡ ok a
    → (next.0 ≡ ok a) × ((if test then next else (err e, d)) ≡ next)
if_succeeds true next e d h = (h, refl)
if_succeeds false next e d h = cc
