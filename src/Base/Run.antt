-- ===== src/Base/Run.antt =====
-- What a run of the code ends in: a value, a panic (a failed assert, an index out of range, an
-- `unwrap` of nothing, a division by zero), or, for the loops, the end of the fuel.
use Prim.Native.Nat.{ℕ, ◌/◌}
use mathlib.Core.Path.{◌≡◌, refl}
use mathlib.Core.Bool.{Bool, true, false}
use mathlib.Core.Option.{Option, none, some}
use fat32_rs.Base.Tests.{◌==◌, if◌then◌else◌}

pub data Outcome {ℓ} (A : Type ℓ) : Type ℓ where
  done : A → Outcome A
  panic : Outcome A
  out_of_fuel : Outcome A

infixl 5 ◌>>=◌ ◌>>◌
abbrev pub ◌>>=◌ {ℓ κ} : {A : Type ℓ} {B : Type κ} → Outcome A → (A → Outcome B) → Outcome B
done a >>= f = f a
panic >>= f = panic
out_of_fuel >>= f = out_of_fuel

abbrev pub ◌>>◌ {ℓ} : {B : Type ℓ} → Outcome (Unit {0}) → Outcome B → Outcome B
m >> k = m >>= λ _. k

-- `assert!(b)`
abbrev pub guard : Bool → Outcome (Unit {0})
guard true = done tt
guard false = panic

-- `o.unwrap()`
abbrev pub unwrap {ℓ} : {A : Type ℓ} → Option A → Outcome A
unwrap none = panic
unwrap (some a) = done a

-- `a / b`, which panics at zero
abbrev pub div : ℕ → ℕ → Outcome ℕ
div a b = if b == 0 then panic else done (a / b)

-- What a run returns, if it returns, has a property.
abbrev pub Ends {ℓ κ} : {A : Type ℓ} → (A → Type κ) → Outcome A → Type κ
Ends P (done a) = P a
Ends P panic = Unit
Ends P out_of_fuel = Unit

pub Ends->>= {ℓ κ μ} :
    {A : Type ℓ} {B : Type κ} (P : B → Type μ) (m : Outcome A) (f : A → Outcome B)
    → ((a : A) → Ends P (f a))
    → Ends P (m >>= f)
Ends->>= P (done a) f h = h a
Ends->>= P panic f h = tt
Ends->>= P out_of_fuel f h = tt

-- The property of the first run passes to what follows it.
pub Ends-then {ℓ κ μ ν} :
    {A : Type ℓ} {B : Type κ} (Q : A → Type ν) (P : B → Type μ) (m : Outcome A) (f : A → Outcome B)
    → Ends Q m
    → ((a : A) → Q a → Ends P (f a))
    → Ends P (m >>= f)
Ends-then Q P (done a) f q h = h a q
Ends-then Q P panic f q h = tt
Ends-then Q P out_of_fuel f q h = tt

pub Ends-map {ℓ κ μ} :
    {A : Type ℓ} (Q : A → Type κ) (P : A → Type μ) (m : Outcome A)
    → ((a : A) → Q a → P a)
    → Ends Q m
    → Ends P m
Ends-map Q P (done a) h q = h a q
Ends-map Q P panic h q = tt
Ends-map Q P out_of_fuel h q = tt

-- Inversion of a bind that returned.
pub >>=-eq-done {ℓ κ} :
    {A : Type ℓ} {B : Type κ} (m : Outcome A) (f : A → Outcome B) {b : B}
    → (m >>= f) ≡ done b
    → (a : A) × (m ≡ done a) × (f a ≡ done b)
>>=-eq-done (done a) f h = (a, refl, h)
>>=-eq-done panic f h = cc
>>=-eq-done out_of_fuel f h = cc

-- `Result`
pub data Result {ℓ κ} (A : Type ℓ) (E : Type κ) : Type (ℓ ⊔ κ) where
  ok : A → Result A E
  err : E → Result A E
