-- ===== src/Query/Tests.antt =====
-- Runs of the query conditions, and the theorems about them at concrete inputs.
use rs_platform.Common.{
  All, ◌⊎◌, ℕ, ◌≡◌, refl, true, false, ◌&&◌, none, some, List, [], ◌∷◌, Bytes, ok, err,
}
use rs_platform.Common.Int.{pos, codes, bytes_lt}
use rs_platform.Query.{
  WhereOperator, equal, greater_than, less_than_or_equals, between_exclude_left, in_op, integer,
  text, array, nil, cons, WhereClause, ValueOps, from_components, is_identifier, less_than,
  starts_with, in_values, invalid_in_clause,
}
use rs_platform.Query.Group.{
  collect_equal, single_in, range_clause, group_two, join_bounds, lower_bound_clause,
  upper_bound_clause, between_operator, group_clauses, with_operator, is_groupable,
  is_non_groupable,
}
use rs_platform.Query.Group.Meaning.{StandsFor, group_clauses-StandsFor}
use rs_platform.Query.Path.{
  range, greater_than_items, between_exclude_right_items, next_prefix, to_path_query,
}
use rs_platform.Query.Index.{Index, reduce, matches, index_for_types}
use rs_platform.Query.Index.Least.{limit, IsFrom, HasNoLess, index_for_types-least}
use rs_platform.Query.Path.Exact.{selected, from_start, greater_than_items_exact}

abbrev ops : ValueOps
ops = record { value_eq = λ a b. true; float_le = λ a b. true; float_lt = λ a b. true }

abbrev clause : Bytes → WhereOperator → ℕ → WhereClause
clause f o n = record { field = f; operator = o; value = integer (pos n) }

abbrev a : Bytes
a = codes "a"

abbrev b : Bytes
b = codes "b"

abbrev clauses : List WhereClause
clauses = clause a less_than_or_equals 9 ∷ clause b equal 4 ∷ clause a greater_than 3 ∷ []

abbrev joined : WhereClause
joined = record {
  field = a;
  operator = between_exclude_left;
  value = array (cons (integer (pos 3)) (cons (integer (pos 9)) nil));
}

run_group : group_clauses ops clauses ≡ ok (clause b equal 4 ∷ [], some joined, none)
unfolding group_clauses is_identifier collect_equal single_in range_clause group_two join_bounds
    between_operator lower_bound_clause upper_bound_clause less_than
run_group = refl

run_components :
    from_components (text a ∷ text (codes "<=") ∷ integer (pos 9) ∷ [])
    ≡ ok (clause a less_than_or_equals 9)
unfolding from_components
run_components = refl

group_clauses-StandsFor_example :
    StandsFor
      (λ x y. true)
      (λ x y. false)
      (with_operator is_groupable clauses)
      (with_operator is_non_groupable clauses)
      (some joined)
group_clauses-StandsFor_example =
    group_clauses-StandsFor (λ x y. true) (λ x y. false) ops clauses (clause b equal 4 ∷ [])
      (some joined) none run_group

greater_than_items_exact_example :
    selected (greater_than_items a (some (b, true)) true) b
    ≡ (bytes_lt a b && from_start (some (b, true)) true b)
greater_than_items_exact_example = greater_than_items_exact a b (some (b, true)) true

run_starts_with :
    to_path_query ops (λ f x. ok (codes "ab")) (clause a starts_with 0) none true
    ≡ ok (range (codes "ab") (codes "ac") ∷ [])
unfolding to_path_query between_exclude_right_items next_prefix
run_starts_with = refl

run_in_values_empty :
    in_values ops (record { field = a; operator = in_op; value = array nil })
    ≡ err invalid_in_clause
unfolding in_values
run_in_values_empty = refl

-- An index that does not have the field of the order, with nothing searched.
order_not_in_index : matches (a ∷ []) [] none (b ∷ []) ≡ some 1
unfolding matches reduce
order_not_in_index = refl

abbrev some_indices : List Index
some_indices = (a ∷ b ∷ []) ∷ (a ∷ []) ∷ []

index_for_types-least_example :
    All
      (HasNoLess (a ∷ []) none [] (limit (index_for_types (a ∷ []) none [] some_indices)))
      some_indices
    × ((index_for_types (a ∷ []) none [] some_indices ≡ none)
        ⊎ IsFrom (a ∷ []) none [] (index_for_types (a ∷ []) none [] some_indices) some_indices)
index_for_types-least_example = index_for_types-least (a ∷ []) none [] some_indices
