-- ===== src/Pools/Fractions.antt =====
-- Exact fractions in the place of the decimals of the pools and of the payouts
-- (dash-abci/src/execution/fee_pools).
use rs_platform.Common.{
  ℕ, ◌+◌, ◌-◌, ◌*◌, ◌/◌, ◌≤◌, ◌<◌, ◌≡◌, refl, Bool, Option, some, none, ltb, ◌==◌, if◌then◌else◌,
  u16_mod, u64_mod, arith,
}
use rs_platform.Common.Int.{ℤ, pos_part}
use native.Mathlib.Nat.{
  mul-one, one-mul, div-one, le-div_iff_mul-le, div-lt_iff_lt-mul, mul-div-le, lt-mul-div-succ,
  mul-pos, add-mul-div_right, mul-lt-mul_of_pos_right, add-mul, mul_assoc, mul_comm,
  mul-le-mul_left, mul-div-mul_right, mul-le-mul_right,
}
use rs_platform.Pools.{Decimal}
use rs_platform.Payouts.{Amounts}

-- Fractions of a numerator and a denominator, which meet the laws of `Decimal`.
pub data Fraction : Type 0 where
  fraction : ℕ → ℕ → Fraction

abbrev minus_of : Fraction → Fraction → Fraction
minus_of (fraction n k) (fraction m l) = fraction (n * l - m * k) (k * l)

abbrev times_of : Fraction → Fraction → Fraction
times_of (fraction n k) (fraction m l) = fraction (n * m) (k * l)

abbrev over_of : Fraction → Fraction → Fraction
over_of (fraction n k) (fraction m l) = fraction (n * l) (k * m)

abbrev floor_of : Fraction → Fraction
floor_of (fraction n k) = fraction (n / k) 1

abbrev is_greater_of : Fraction → Fraction → Bool
is_greater_of (fraction n k) (fraction m l) = ltb (m * k) (n * l)

abbrev is_equal_of : Fraction → Fraction → Bool
is_equal_of (fraction n k) (fraction m l) = n * l == m * k

abbrev bounded : ℕ → Fraction → Option ℕ
bounded bound (fraction n k) = if ltb (n / k) bound then some (n / k) else none

abbrev whole_number : ℕ → Option Fraction
whole_number n = if ltb n u64_mod then some (fraction n 1) else none

pub whole_number_lem : (n : ℕ) → n < u64_mod → whole_number n ≡ some (fraction n 1)
whole_number_lem n h = ground arith

abbrev pub fractions : Decimal
fractions = record {
  Number = Fraction;
  from = λ n. fraction n 1;
  from_u64 = whole_number;
  ratio = λ m. fraction m 100000;
  minus = minus_of;
  times = times_of;
  over = over_of;
  floor = floor_of;
  is_greater = is_greater_of;
  is_equal = is_equal_of;
  to_u16 = bounded u16_mod;
  to_u64 = bounded u64_mod;
  from_u64-from = whole_number_lem;
  floor_quotient =
      λ a b c h k l. rw (mul-one a, mul-one b, mul-one (a - b), mul-one 1, one-mul c) refl;
  floor_share = λ n m c h k l. rw (mul-one (n * m), mul-one 100000, one-mul 100000) refl;
  is_greater-from = λ a b. rw (mul-one a, mul-one b) refl;
  is_equal-from = λ a b. rw (mul-one a, mul-one b) refl;
  to_u16-from = λ n. rw (div-one n) refl;
  to_u64-from = λ n. rw (div-one n) refl;
}

abbrev plus_of : Fraction → Fraction → Fraction
plus_of (fraction n k) (fraction m l) = fraction (n * l + m * k) (k * l)

abbrev IsPositive : Fraction → Type 0
IsPositive (fraction n k) = 0 < k

abbrev whole_of : Fraction → ℕ
whole_of (fraction n k) = n / k

-- A negative number, which no law reads, is 0.
abbrev from_int : ℤ → Fraction
from_int i = fraction (pos_part i) 1

-- Taking whole denominators off a numerator.
sub-mul-div_lem : (n m k : ℕ) → 0 < k → m ≤ n / k → (n - m * k) / k ≡ n / k - m
sub-mul-div_lem n m k h l =
    let below : m * k ≤ n = (le-div_iff_mul-le h).0 l in
    let back : n - m * k + m * k ≡ n = omega arith in
    let shifted = rw back at (add-mul-div_right (n - m * k) m h) in omega arith

part_lem : (n k p : ℕ) → 0 < k → p ≤ 10000 → n * p / (k * 10000) ≤ n / k
part_lem n k p h l =
    let scaled : n * p ≤ n * 10000 = mul-le-mul_left n l in
    let room : 0 < k * 10000 = omega arith in
    let below : n * p / (k * 10000) * (k * 10000) ≤ n * 10000 =
      omega (arith, mul-div-le (n * p) (k * 10000), mul_comm (k * 10000) (n * p / (k * 10000))) in
    let some_room : 0 < 10000 = omega arith in
    rw (mul-div-mul_right n k some_room) at ((le-div_iff_mul-le room).1 below)

scaled_low : (q n k l : ℕ) → q * k ≤ n → q * (k * l) ≤ n * l
scaled_low q n k l h = rw (← mul_assoc q k l) (mul-le-mul_right l h)

scaled_high : (q n k l : ℕ) → n < q * k → 0 < l → n * l < q * (k * l)
scaled_high q n k l h i = rw (← mul_assoc q k l) (mul-lt-mul_of_pos_right h i)

below_div : (n k : ℕ) → n / k * k ≤ n
below_div n k = rw (mul_comm (n / k) k) (mul-div-le n k)

above_div : (n k : ℕ) → 0 < k → n < (n / k + 1) * k
above_div n k h = rw (mul_comm (n / k + 1) k) (lt-mul-div-succ n h)

plus_lem :
    (n k m l : ℕ)
    → 0 < k
    → 0 < l
    → (n / k + m / l ≤ (n * l + m * k) / (k * l)) × ((n * l + m * k) / (k * l) ≤ n / k + m / l + 1)
plus_lem n k m l h i =
    let room : 0 < k * l = mul-pos h i in
    let first = scaled_low (n / k) n k l (below_div n k) in
    let second = rw (mul_comm l k) at (scaled_low (m / l) m l k (below_div m l)) in
    let third = scaled_high (n / k + 1) n k l (above_div n k h) i in
    let fourth = rw (mul_comm l k) at (scaled_high (m / l + 1) m l k (above_div m l i) h) in
    let low : (n / k + m / l) * (k * l) ≤ n * l + m * k =
      rw (add-mul (n / k) (m / l) (k * l)) (omega arith) in
    let high : n * l + m * k < (n / k + 1 + (m / l + 1)) * (k * l) =
      rw (add-mul (n / k + 1) (m / l + 1) (k * l)) (omega arith) in
    let smaller = (div-lt_iff_lt-mul room).1 high in ((le-div_iff_mul-le room).1 low, omega arith)

pub reward_lem :
    (total count blocks : ℕ)
    → 0 < blocks
    → (0 < 1 * blocks)
      × (total * count / blocks ≤ total * count * 1 / (1 * blocks))
      × (total * count * 1 / (1 * blocks) ≤ total * count / blocks + 1)
reward_lem total count blocks h =
    rw (mul-one (total * count), one-mul blocks) (omega arith, omega arith, omega arith)

pub floor_whole_lem : (x : Fraction) → floor_of x ≡ fraction (whole_of x) 1
floor_whole_lem (fraction n k) = refl

pub minus_whole_lem :
    (x : Fraction) (n : ℕ)
    → IsPositive x
    → n ≤ whole_of x
    → IsPositive (minus_of x (fraction n 1))
      × (whole_of (minus_of x (fraction n 1)) ≡ whole_of x - n)
minus_whole_lem (fraction n k) m h l = rw (mul-one n, mul-one k) (h, sub-mul-div_lem n m k h l)

pub part_whole_lem :
    (x : Fraction) (p : ℕ)
    → IsPositive x
    → p ≤ 10000
    → IsPositive (times_of x (fraction (p * 1) 10000))
      × (whole_of (times_of x (fraction (p * 1) 10000)) ≤ whole_of x)
part_whole_lem (fraction n k) p h l = rw (mul-one p) (omega arith, part_lem n k p h l)

pub plus_whole_lem :
    (x y : Fraction)
    → IsPositive x
    → IsPositive y
    → IsPositive (plus_of x y)
      × (whole_of x + whole_of y ≤ whole_of (plus_of x y))
      × (whole_of (plus_of x y) ≤ whole_of x + whole_of y + 1)
plus_whole_lem (fraction n k) (fraction m l) h i =
    let (low, high) = plus_lem n k m l h i in (mul-pos h i, low, high)

pub from_lem : (n : ℕ) → n < u64_mod → (0 < 1) × (n / 1 ≡ n)
from_lem n h = (omega arith, div-one n)

-- The laws of `Amounts`, one by one.
abbrev pub amounts : Amounts fractions
amounts = record {
  from_i64 = from_int;
  plus = plus_of;
  IsAmount = IsPositive;
  whole = whole_of;
  from-IsAmount = from_lem;
  reward-IsAmount = λ total count blocks h k. reward_lem total count blocks k;
  floor_whole = λ x h. floor_whole_lem x;
  minus_whole = minus_whole_lem;
  part_whole = part_whole_lem;
  plus_whole = λ x y h k l. plus_whole_lem x y h k;
}
