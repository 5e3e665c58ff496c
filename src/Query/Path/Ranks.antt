-- ===== src/Query/Path/Ranks.antt =====
-- Four byte strings compare like four numbers, so that arithmetic decides a question on their
-- order.
use rs_platform.Common.{
  ℕ, ◌+◌, ◌≤◌, ◌<◌, ◌≡◌, ◌∙◌, sym, ap, lt→ltb, bytes_eq→eq, Bool, true, false, inl, inr, Bytes,
  bytes_eq, bytes_eq_iff, ltb, ◌==◌, Bool-cases, arith,
}
use rs_platform.Common.Int.{bytes_lt, bytes_lt_irrefl, bytes_lt_trans, bytes_lt_total}

abbrev one_if : Bool → ℕ
one_if true = 1
one_if false = 0

below_mono : (x y z : Bytes) → bytes_lt x y ≡ true → one_if (bytes_lt z x) ≤ one_if (bytes_lt z y)
below_mono x y z h = ground (arith, bytes_lt_trans z x y)

below_strict : (x y : Bytes) → bytes_lt x y ≡ true → one_if (bytes_lt x x) < one_if (bytes_lt x y)
below_strict x y h = ground (arith, bytes_lt_irrefl x)

module _ (a b c d : Bytes) where
  -- How many of the four lie below a byte string.
  pub rank : Bytes → ℕ
  rank x =
      one_if (bytes_lt a x) + one_if (bytes_lt b x) + one_if (bytes_lt c x) + one_if (bytes_lt d x)

  abbrev IsMono : Bytes → Bytes → Type 0
  IsMono x y = bytes_lt x y ≡ true → rank x < rank y

  IsMono-first : (y : Bytes) → IsMono a y
  unfolding rank
  IsMono-first y h =
      omega (arith, below_strict a y h, below_mono a y b h, below_mono a y c h, below_mono a y d h)

  IsMono-second : (y : Bytes) → IsMono b y
  unfolding rank
  IsMono-second y h =
      omega (arith, below_strict b y h, below_mono b y a h, below_mono b y c h, below_mono b y d h)

  IsMono-third : (y : Bytes) → IsMono c y
  unfolding rank
  IsMono-third y h =
      omega (arith, below_strict c y h, below_mono c y a h, below_mono c y b h, below_mono c y d h)

  IsMono-fourth : (y : Bytes) → IsMono d y
  unfolding rank
  IsMono-fourth y h =
      omega (arith, below_strict d y h, below_mono d y a h, below_mono d y b h, below_mono d y c h)

  -- Two byte strings compare like their ranks, in either order and for equality.
  abbrev pub Compares : Bytes → Bytes → Type 0
  Compares x y =
      (bytes_lt x y ≡ ltb (rank x) (rank y))
      × (bytes_lt y x ≡ ltb (rank y) (rank x))
      × (bytes_eq x y ≡ (rank x == rank y))
      × (bytes_eq y x ≡ (rank x == rank y))

  IsMono-Compares : (x y : Bytes) → IsMono x y → IsMono y x → Compares x y
  IsMono-Compares x y h k = elim (Bool-cases (bytes_lt x y)) [
    | inl below ↦
        let lt = h below in
        (
          below ∙ sym (lt→ltb (rank x) (rank y) lt),
          ground (arith, k, lt),
          ground (arith, lt, bytes_eq→eq x y, ap rank {x = x} {y = y}),
          ground (arith, lt, bytes_eq→eq y x, ap rank {x = y} {y = x}),
        )
    | inr above ↦ elim (Bool-cases (bytes_lt y x)) [
      | inl below ↦
          let lt = k below in
          (
            ground (arith, lt),
            below ∙ sym (lt→ltb (rank y) (rank x) lt),
            ground (arith, lt, bytes_eq→eq x y, ap rank {x = x} {y = y}),
            ground (arith, lt, bytes_eq→eq y x, ap rank {x = y} {y = x}),
          )
      | inr equal_keys ↦
          let e = bytes_lt_total x y above equal_keys in
          let same = ap rank e in
          (
            above ∙ ground (arith, same),
            equal_keys ∙ ground (arith, same),
            (bytes_eq_iff x y).1 e ∙ ground (arith, same),
            (bytes_eq_iff y x).1 (sym e) ∙ ground (arith, same),
          )
    ]
  ]

  pub first_second : Compares a b
  first_second = IsMono-Compares a b (IsMono-first b) (IsMono-second a)

  pub first_third : Compares a c
  first_third = IsMono-Compares a c (IsMono-first c) (IsMono-third a)

  pub first_fourth : Compares a d
  first_fourth = IsMono-Compares a d (IsMono-first d) (IsMono-fourth a)

  pub second_third : Compares b c
  second_third = IsMono-Compares b c (IsMono-second c) (IsMono-third b)

  pub second_fourth : Compares b d
  second_fourth = IsMono-Compares b d (IsMono-second d) (IsMono-fourth b)

  pub third_fourth : Compares c d
  third_fourth = IsMono-Compares c d (IsMono-third d) (IsMono-fourth c)

  -- All that the four have to do with each other.
  pub all_compare :
      Compares a b × Compares a c × Compares a d × Compares b c × Compares b d × Compares c d
  all_compare = (first_second, first_third, first_fourth, second_third, second_fourth, third_fourth)
