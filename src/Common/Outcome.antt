-- ===== src/Common/Outcome.antt =====
-- Rust's `Result<A, E>`, its `?` as bind, `ok_or`, and the checked operations of a w-bit integer.
use Prim.Native.Nat.{ℕ, ◌+◌, ◌-◌, ◌*◌, ◌^◌}
use mathlib.Core.Path.{◌≡◌, refl}
use mathlib.Core.Option.{Option, none, some}
use rs_platform.Common.Tests.{ltb, if◌then◌else◌}

pub data Result (E A : Type 0) : Type 0 where
  err : E → Result E A
  ok : A → Result E A

-- `Option::ok_or`
abbrev pub ok_or : {E A : Type 0} → Option A → E → Result E A
ok_or (some value) reason = ok value
ok_or none reason = err reason

-- `Option::unwrap_or`
abbrev pub get_or_else {ℓ} : {A : Type ℓ} → Option A → A → A
get_or_else (some value) default = value
get_or_else none default = default

-- The operator `?`, with the rest of the function as its continuation.
infixl 5 ◌>>=◌
abbrev pub ◌>>=◌ : {E A B : Type 0} → Result E A → (A → Result E B) → Result E B
err reason >>= rest = err reason
ok value >>= rest = rest value

-- Inversion of a successful bind, for proofs in which the parts stay shut.
pub >>=-eq-ok :
    {E A B : Type 0} (first : Result E A) (rest : A → Result E B) {result : B}
    → (first >>= rest) ≡ ok result
    → (value : A) × (first ≡ ok value) × (rest value ≡ ok result)
>>=-eq-ok (err reason) rest returns = cc
>>=-eq-ok (ok value) rest returns = (value, refl, returns)

pub ok_inj : {E A : Type 0} {a b : A} → ◌≡◌ {A = Result E A} (ok a) (ok b) → a ≡ b
ok_inj h = cc

-- `checked_add`, `checked_sub` and `checked_mul` of an unsigned integer below `bound`.
abbrev pub checked_add : ℕ → ℕ → ℕ → Option ℕ
checked_add bound a b = if ltb (a + b) bound then some (a + b) else none

abbrev pub checked_sub : ℕ → ℕ → Option ℕ
checked_sub a b = if ltb a b then none else some (a - b)

abbrev pub checked_mul : ℕ → ℕ → ℕ → Option ℕ
checked_mul bound a b = if ltb (a * b) bound then some (a * b) else none

-- The moduli of the integer types.
abbrev pub u16_mod : ℕ
u16_mod = 2 ^ 16

abbrev pub u32_mod : ℕ
u32_mod = 2 ^ 32

abbrev pub u64_mod : ℕ
u64_mod = 2 ^ 64

pub >>=_assoc :
    {E A B C : Type 0} (m : Result E A) (f : A → Result E B) (g : B → Result E C)
    → ((m >>= f) >>= g) ≡ (m >>= λ a. f a >>= g)
>>=_assoc (err reason) f g = refl
>>=_assoc (ok value) f g = refl

pub >>=-ok : {E A : Type 0} (m : Result E A) → (m >>= λ a. ok a) ≡ m
>>=-ok (err reason) = refl
>>=-ok (ok value) = refl

pub >>=-pointwise :
    {E A B : Type 0} (r : Result E A) {f g : A → Result E B}
    → ((a : A) → f a ≡ g a)
    → (r >>= f) ≡ (r >>= g)
>>=-pointwise (ok a) h = h a
>>=-pointwise (err e) h = refl
