-- ===== src/Query/Index.antt =====
-- The choice of an index: `Index::matches` of dpp/src/data_contract/extra/index.rs and
-- `index_for_types` of dpp/src/data_contract/extra/document_type.rs, which drive/src/query/mod.rs
-- calls. An index is the list of its properties' names.
use rs_platform.Common.{
  ℕ, zero, suc, ◌+◌, ◌-◌, ◌%◌, ◌^◌, ◌≤◌, ◌<◌, ◌≡◌, ◌⊎◌, refl, Bool, true, false, not, ◌&&◌, ◌||◌,
  Option, none, some, inl, inr, List, [], ◌∷◌, ◌++◌, Bytes, bytes_eq, ltb, ◌==◌, if◌then◌else◌,
  length, All, u16_mod, u64_mod, arith, Bool-cases,
}
pub mod Least

abbrev pub Index : Type 0
Index = List Bytes

abbrev pub backwards : List Bytes → List Bytes
backwards [] = []
backwards (x ∷ xs) = backwards xs ++ (x ∷ [])

-- `zip` and `all`, up to the end of the shorter list.
abbrev pub all_same : List Bytes → List Bytes → Bool
all_same [] ys = true
all_same (x ∷ xs) [] = true
all_same (x ∷ xs) (y ∷ ys) = bytes_eq x y && all_same xs ys

-- The loop that takes the last property off until the order matches; both lists run backwards.
unfoldable pub reduce : ℕ → List Bytes → List Bytes → Option (List Bytes)
reduce zero reduced order = some reduced
reduce (suc n) [] order =
    if ltb 0 (length order) then none else (if all_same [] order then some [] else none)
reduce (suc n) (last ∷ elements) order =
    let rest = reduce n elements order in
    if ltb (length (last ∷ elements)) (length order)
    then none
    else if all_same (last ∷ elements) order
    then some (last ∷ elements)
    else rest

abbrev pub contains_name : Bytes → List Bytes → Bool
contains_name name [] = false
contains_name name (x ∷ xs) = bytes_eq x name || contains_name name xs

-- The field of an `in` is the last or the one before, of the names backwards.
abbrev pub in_field_fits : Option Bytes → List Bytes → Bool
in_field_fits in_field [] = false
in_field_fits none (last ∷ before) = true
in_field_fits (some field) (last ∷ []) = bytes_eq last field
in_field_fits (some field) (last ∷ previous ∷ before) =
    bytes_eq last field || bytes_eq previous field

-- The loop over the searched names, which counts the properties that are left, and may wrap around.
abbrev pub count_left : List Bytes → List Bytes → ℕ → Option ℕ
count_left [] reduced d = some (d % u16_mod)
count_left (name ∷ names) reduced d =
    let rest = count_left names reduced ((d + u64_mod - 1) % u64_mod) in
    if contains_name name reduced then rest else none

abbrev pub matches_reduced : Index → List Bytes → Option Bytes → Option (List Bytes) → Option ℕ
matches_reduced index names in_field none = none
matches_reduced index names in_field (some reduced) =
    if in_field_fits in_field (backwards index)
    then count_left names reduced (length index)
    else none

abbrev pub no_names : List Bytes → Bool
no_names [] = true
no_names (name ∷ names) = false

unfoldable pub matches : Index → List Bytes → Option Bytes → List Bytes → Option ℕ
unfolding reduce
matches index names in_field order = matches_reduced index names in_field (
    if no_names order
    then some (backwards index)
    else reduce (length index) (backwards index) (backwards order))

-- The next best index, if this one is better.
abbrev pub better : Index → ℕ → Option (Index × ℕ) → ℕ → Option (Index × ℕ)
better index difference best best_difference =
    if ltb difference best_difference then some (index, difference) else best

abbrev pub least_of : ℕ → ℕ → ℕ
least_of difference best_difference =
    if ltb difference best_difference then difference else best_difference

-- What follows an index: with no match the search goes on, and it ends where nothing is left.
abbrev pub choose_next :
    Option ℕ → Index → Option (Index × ℕ) → (ℕ → Option (Index × ℕ)) → Option (Index × ℕ)
choose_next none index skipped continued = skipped
choose_next (some difference) index skipped continued =
    if difference == 0 then some (index, 0) else continued difference

module _ (names : List Bytes) (in_field : Option Bytes) (order : List Bytes) where
  -- The loop over the indices, with the best one and its difference so far.
  unfoldable pub choose : List Index → Option (Index × ℕ) → ℕ → Option (Index × ℕ)
  choose [] best best_difference = best
  choose (index ∷ indices) best best_difference =
      choose_next (matches index names in_field order) index (choose indices best best_difference)
        λ difference.
          choose indices (better index difference best best_difference)
            (least_of difference best_difference)

  unfoldable pub index_for_types : List Index → Option (Index × ℕ)
  unfolding choose
  index_for_types indices = choose indices none (u16_mod - 1)
