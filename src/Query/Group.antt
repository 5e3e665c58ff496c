-- ===== src/Query/Group.antt =====
-- `WhereClause::group_clauses` of drive/src/query/conditions.rs: the conditions of a query, sorted
-- into equalities, one range and one `in`.
use rs_platform.Common.{
  ℕ, Bool, true, false, not, ◌&&◌, ◌||◌, Option, none, some, List, [], ◌∷◌, Bytes, bytes_eq,
  if◌then◌else◌, Result, ok, err, ◌>>=◌, ok_or,
}
use rs_platform.Query.{
  WhereOperator, equal, greater_than, greater_than_or_equals, less_than_op, less_than_or_equals,
  between, between_exclude_bounds, between_exclude_left, between_exclude_right, in_op, starts_with,
  QueryResult, QueryError, range_clauses_not_groupable, invalid_where_clause_components,
  multiple_range_clauses, duplicate_non_groupable_clause_same_field, multiple_in_clauses,
  starts_with_illegal_string, Value, text, array, nil, cons, WhereClause, is_identifier, ValueOps,
  less_than,
}
pub mod Meaning
pub mod Fields

abbrev pub has_field : List Bytes → Bytes → Bool
has_field [] f = false
has_field (g ∷ gs) f = bytes_eq g f || has_field gs f

abbrev pub is_equal : WhereOperator → Bool
is_equal equal = true
is_equal _ = false

abbrev pub is_in : WhereOperator → Bool
is_in in_op = true
is_in _ = false

-- `GreaterThan | GreaterThanOrEquals`
abbrev pub is_lower : WhereOperator → Bool
is_lower greater_than = true
is_lower greater_than_or_equals = true
is_lower _ = false

-- `LessThan | LessThanOrEquals`
abbrev pub is_upper : WhereOperator → Bool
is_upper less_than_op = true
is_upper less_than_or_equals = true
is_upper _ = false

abbrev pub is_groupable : WhereOperator → Bool
is_groupable equal = false
is_groupable in_op = false
is_groupable greater_than = true
is_groupable greater_than_or_equals = true
is_groupable less_than_op = true
is_groupable less_than_or_equals = true
is_groupable _ = false

abbrev pub is_non_groupable : WhereOperator → Bool
is_non_groupable starts_with = true
is_non_groupable between = true
is_non_groupable between_exclude_bounds = true
is_non_groupable between_exclude_right = true
is_non_groupable between_exclude_left = true
is_non_groupable _ = false

-- The clauses whose operator passes a test.
abbrev pub with_operator : (WhereOperator → Bool) → List WhereClause → List WhereClause
with_operator p [] = []
with_operator p (c ∷ cs) = if p c.operator then c ∷ with_operator p cs else with_operator p cs

-- Those of them that are not on `$id`.
abbrev pub not_on_id : List WhereClause → List WhereClause
not_on_id [] = []
not_on_id (c ∷ cs) = if is_identifier c then not_on_id cs else c ∷ not_on_id cs

-- The equalities as the map that they are collected into, with the fields that are known then.
unfoldable pub collect_equal :
    List WhereClause → List Bytes → QueryResult (List WhereClause × List Bytes)
collect_equal [] known = ok ([], known)
collect_equal (c ∷ cs) known =
    if has_field known c.field
    then err duplicate_non_groupable_clause_same_field
    else do rest ← collect_equal cs (c.field ∷ known); ok (c ∷ rest.0, rest.1)

-- The `in` clause, with the fields that are known then.
unfoldable pub single_in :
    List WhereClause → List Bytes → QueryResult (Option WhereClause × List Bytes)
single_in [] known = ok (none, known)
single_in (c ∷ []) known =
    if has_field known c.field
    then err duplicate_non_groupable_clause_same_field
    else ok (some c, c.field ∷ known)
single_in (c ∷ d ∷ cs) known = err multiple_in_clauses

at_most_one : List WhereClause → QueryResult (Option WhereClause)
at_most_one [] = ok none
at_most_one (c ∷ []) = ok (some c)
at_most_one (c ∷ d ∷ cs) = err multiple_range_clauses

unfoldable pub lower_bound_clause : List WhereClause → QueryResult (Option WhereClause)
unfolding at_most_one
lower_bound_clause cs = at_most_one (with_operator is_lower cs)

unfoldable pub upper_bound_clause : List WhereClause → QueryResult (Option WhereClause)
unfolding at_most_one
upper_bound_clause cs = at_most_one (with_operator is_upper cs)

unfoldable pub between_operator : WhereOperator → WhereOperator → Option WhereOperator
between_operator greater_than_or_equals less_than_or_equals = some between
between_operator greater_than_or_equals less_than_op = some between_exclude_right
between_operator greater_than less_than_or_equals = some between_exclude_left
between_operator greater_than less_than_op = some between_exclude_bounds
between_operator _ _ = none

abbrev pub is_exclude_bounds : WhereOperator → Bool
is_exclude_bounds between_exclude_bounds = true
is_exclude_bounds _ = false

-- `StartsWith` against an empty text.
abbrev pub is_empty_prefix : WhereOperator → Value → Bool
is_empty_prefix starts_with (text []) = true
is_empty_prefix _ _ = false

module _ (v : ValueOps) where
  -- A lower and an upper bound, once they are found.
  unfoldable pub join_bounds : Bytes → WhereClause → WhereClause → QueryResult (Option WhereClause)
  unfolding between_operator
  join_bounds field lower upper = do
    operator ← ok_or (between_operator lower.operator upper.operator) range_clauses_not_groupable
    crossed ← less_than v upper lower (is_exclude_bounds operator)
    let joined : WhereClause = record {
      field = field;
      operator = operator;
      value = array (cons lower.value (cons upper.value nil));
    }
    (if crossed then err multiple_range_clauses else ok (some joined))

  unfoldable pub group_two :
      WhereClause → WhereClause → List Bytes → QueryResult (Option WhereClause)
  unfolding lower_bound_clause upper_bound_clause join_bounds
  group_two a b known =
      if has_field known a.field
      then err invalid_where_clause_components
      else if not (bytes_eq b.field a.field)
      then err multiple_range_clauses
      else do
        found_lower ← lower_bound_clause (a ∷ b ∷ [])
        lower ← ok_or found_lower range_clauses_not_groupable
        found_upper ← upper_bound_clause (a ∷ b ∷ [])
        upper ← ok_or found_upper range_clauses_not_groupable
        join_bounds a.field lower upper

  unfoldable pub range_clause :
      List WhereClause → List WhereClause → List Bytes → QueryResult (Option WhereClause)
  unfolding group_two
  range_clause [] [] known = ok none
  range_clause (c ∷ []) [] known =
      if has_field known c.field then err invalid_where_clause_components else ok (some c)
  range_clause (a ∷ b ∷ []) [] known = group_two a b known
  range_clause (a ∷ b ∷ c ∷ cs) [] known = err multiple_range_clauses
  range_clause [] (c ∷ []) known =
      if is_empty_prefix c.operator c.value
      then err starts_with_illegal_string
      else if has_field known c.field
      then err duplicate_non_groupable_clause_same_field
      else ok (some c)
  range_clause [] (c ∷ d ∷ cs) known = err multiple_range_clauses
  range_clause (g ∷ gs) (n ∷ ns) known = err range_clauses_not_groupable

  -- The equalities, the range and the `in` clause.
  unfoldable pub group_clauses :
      List WhereClause → QueryResult (List WhereClause × Option WhereClause × Option WhereClause)
  group_clauses cs = do
    equalities ← collect_equal (not_on_id (with_operator is_equal cs)) []
    found_in ← single_in (not_on_id (with_operator is_in cs)) equalities.1
    range ←
        range_clause (with_operator is_groupable cs) (with_operator is_non_groupable cs) found_in.1
    ok (equalities.0, range, found_in.0)
