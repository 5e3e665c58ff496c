-- ===== src/Query/Index/Least.antt =====
-- Which index `index_for_types` of dpp/src/data_contract/extra/document_type.rs chooses.
use rs_platform.Common.{
  ℕ, ◌-◌, ◌≤◌, ◌≡◌, ◌⊎◌, refl, sym, ap, ◌∙◌, subst, Option, none, some, inl, inr, List, [], ◌∷◌,
  Bytes, ltb, ◌==◌, ==→eq, All, u16_mod, arith, Bool-cases, Option-cases,
}
use rs_platform.Query.Index.{Index, matches, better, least_of, choose, index_for_types}

-- The difference of a choice, of at most 16 bits where there is none.
abbrev pub limit : Option (Index × ℕ) → ℕ
limit none = u16_mod - 1
limit (some choice) = choice.1

-- A difference is not below a bound, if there is one.
abbrev pub IsNoLess : ℕ → Option ℕ → Type 0
IsNoLess bound none = Unit
IsNoLess bound (some difference) = bound ≤ difference

module _ (names : List Bytes) (in_field : Option Bytes) (order : List Bytes) where
  -- A choice is one of the indices with its difference.
  abbrev pub IsFrom : Option (Index × ℕ) → List Index → Type 0
  IsFrom none indices = ⊥
  IsFrom (some choice) [] = ⊥
  IsFrom (some choice) (index ∷ indices) =
      ((choice.0 ≡ index) × (matches index names in_field order ≡ some choice.1))
      ⊎ IsFrom (some choice) indices

  abbrev pub HasNoLess : ℕ → Index → Type 0
  HasNoLess bound index = IsNoLess bound (matches index names in_field order)

  none_below_zero : (indices : List Index) → All (HasNoLess 0) indices
  none_below_zero [] = tt
  none_below_zero (index ∷ indices) =
      elim (matches index names in_field order)
        as (λ found. IsNoLess 0 found × All (HasNoLess 0) indices) [
          | none ↦ (tt, none_below_zero indices)
          | some difference ↦ (omega arith, none_below_zero indices)
        ]

  abbrev IsLeast : List Index → Option (Index × ℕ) → Option (Index × ℕ) → Type 0
  IsLeast indices best result =
      All (HasNoLess (limit result)) indices
      × (limit result ≤ limit best)
      × ((result ≡ best) ⊎ IsFrom result indices)

  IsFrom-later :
      (result : Option (Index × ℕ)) (index : Index) (indices : List Index)
      → IsFrom result indices
      → IsFrom result (index ∷ indices)
  IsFrom-later none index indices h = h
  IsFrom-later (some choice) index indices h = inr h

  IsLeast-skip :
      (index : Index) (indices : List Index) (best result : Option (Index × ℕ))
      → matches index names in_field order ≡ none
      → IsLeast indices best result
      → IsLeast (index ∷ indices) best result
  IsLeast-skip index indices best result e (all, le, inl same) =
      ((subst (IsNoLess (limit result)) (sym e) tt, all), le, inl same)
  IsLeast-skip index indices best result e (all, le, inr from) = (
    (subst (IsNoLess (limit result)) (sym e) tt, all),
    le,
    inr (IsFrom-later result index indices from),
  )

  IsLeast-stop :
      (index : Index) (indices : List Index) (best : Option (Index × ℕ))
      → matches index names in_field order ≡ some 0
      → IsLeast (index ∷ indices) best (some (index, 0))
  IsLeast-stop index indices best e =
      (none_below_zero (index ∷ indices), omega arith, inr (inl (refl, e)))

  IsLeast-better :
      (index : Index) (indices : List Index) (best result : Option (Index × ℕ)) (difference : ℕ)
      → matches index names in_field order ≡ some difference
      → IsLeast indices (better index difference best (limit best)) result
      → IsLeast (index ∷ indices) best result
  IsLeast-better index indices best result difference e (all, le, chosen) =
      elim (Bool-cases (ltb difference (limit best))) [
        | inl less ↦
            let now : better index difference best (limit best) ≡ some (index, difference) =
              rw less refl in
            let below : limit result ≤ difference = omega (arith, le, ap limit now) in
            (
              (subst (IsNoLess (limit result)) (sym e) below, all),
              ground (arith, below),
              elim chosen [
                | inl same ↦
                    inr (subst (λ r. IsFrom r (index ∷ indices)) (sym (same ∙ now)) (inl (refl, e)))
                | inr from ↦ inr (IsFrom-later result index indices from)
              ],
            )
        | inr not_less ↦
            let now : better index difference best (limit best) ≡ best = rw not_less refl in
            let below : limit result ≤ limit best = omega (arith, le, ap limit now) in
            (
              (subst (IsNoLess (limit result)) (sym e) (ground (arith, below)), all),
              below,
              elim chosen [
                | inl same ↦ inl (same ∙ now)
                | inr from ↦ inr (IsFrom-later result index indices from)
              ],
            )
      ]

  limit-better :
      (index : Index) (difference : ℕ) (best : Option (Index × ℕ))
      → limit (better index difference best (limit best)) ≡ least_of difference (limit best)
  limit-better index difference best = elim (Bool-cases (ltb difference (limit best))) [
    | inl less ↦ rw less refl
    | inr not_less ↦ rw not_less refl
  ]

  choose_lem :
      (indices : List Index) (best : Option (Index × ℕ))
      → IsLeast indices best (choose names in_field order indices best (limit best))
  unfolding choose
  choose_lem [] best = (tt, omega arith, inl refl)
  choose_lem (index ∷ indices) best = elim (Option-cases (matches index names in_field order)) [
    | inl e ↦
        let skipped : choose names in_field order (index ∷ indices) best (limit best)
            ≡ choose names in_field order indices best (limit best) =
          rw e refl in
        subst (IsLeast (index ∷ indices) best) (sym skipped)
          (IsLeast-skip index indices best _ e (choose_lem indices best))
    | inr (difference, e) ↦ elim (Bool-cases (difference == 0)) [
      | inl zero_left ↦
          let stopped : choose names in_field order (index ∷ indices) best (limit best)
              ≡ some (index, 0) =
            rw (e, zero_left) refl in
          subst (IsLeast (index ∷ indices) best) (sym stopped)
            (IsLeast-stop index indices best (e ∙ ap (λ n. some n) (==→eq difference 0 zero_left)))
      | inr some_left ↦
          let next = better index difference best (limit best) in
          let continued : choose names in_field order (index ∷ indices) best (limit best)
              ≡ choose names in_field order indices next (limit next) =
            rw (e, some_left, limit-better index difference best) refl in
          subst (IsLeast (index ∷ indices) best) (sym continued)
            (IsLeast-better index indices best _ difference e (choose_lem indices next))
    ]
  ]

  -- No index has a difference below that of the chosen one, which is one of the indices and matches
  -- with its difference; where none is chosen, none has a difference below the largest of 16 bits.
  pub index_for_types-least :
      (indices : List Index)
      → All (HasNoLess (limit (index_for_types names in_field order indices))) indices
        × ((index_for_types names in_field order indices ≡ none)
            ⊎ IsFrom (index_for_types names in_field order indices) indices)
  unfolding index_for_types
  index_for_types-least indices = let (all, le, chosen) = choose_lem indices none in (all, chosen)
