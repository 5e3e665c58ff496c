-- ===== src/Query/Path.antt =====
-- `WhereClause::to_path_query` of drive/src/query/conditions.rs: the key ranges that a condition
-- selects, from a start document on, in either direction. The source asks the document type for
-- the keys of values; that function is a parameter, and so is the start document's key.
use rs_platform.Common.{
  ℕ, zero, suc, ◌+◌, ◌%◌, Bool, true, false, not, ◌&&◌, ◌||◌, Option, none, some, List, [], ◌∷◌,
  ◌++◌, Bytes, bytes_eq, ltb, if◌then◌else◌, length, Result, ok, err, ◌>>=◌, ok_or, ◌==◌,
}
use rs_platform.Common.Int.{bytes_lt, bytes_le}
use rs_platform.Query.{
  WhereOperator, equal, greater_than, greater_than_or_equals, less_than_op, less_than_or_equals,
  between, between_exclude_bounds, between_exclude_left, between_exclude_right, in_op, starts_with,
  QueryResult, invalid_between_clause, invalid_starts_with_clause, Value, array, elements,
  WhereClause, ValueOps, in_values,
}
mod Ranks
pub mod Exact
pub mod Empty

-- The items of a GroveDB query, named after the methods that insert them.
pub data QueryItem : Type 0 where
  key : Bytes → QueryItem
  range range_inclusive range_after_to range_after_to_inclusive : Bytes → Bytes → QueryItem
  range_from range_after range_to range_to_inclusive : Bytes → QueryItem

-- The start document's key for the field, and whether it is included itself.
abbrev pub Start : Type 0
Start = Option (Bytes × Bool)

-- A single key: it stays if the start document does not lie behind it.
unfoldable pub equal_items : Bytes → Start → Bool → List QueryItem
equal_items k none left_to_right = key k ∷ []
equal_items k (some (s, included)) left_to_right =
    if (left_to_right && bytes_lt s k)
      || (not left_to_right && bytes_lt k s)
      || (included && bytes_eq s k)
    then key k ∷ []
    else []

unfoldable pub in_items : List Bytes → Start → Bool → List QueryItem
unfolding equal_items
in_items [] start left_to_right = []
in_items (k ∷ ks) start left_to_right =
    equal_items k start left_to_right ++ in_items ks start left_to_right

unfoldable pub greater_than_items : Bytes → Start → Bool → List QueryItem
greater_than_items k none left_to_right = range_after k ∷ []
greater_than_items k (some (s, included)) true =
    if bytes_le s k
    then range_after k ∷ []
    else if included
    then range_from s ∷ []
    else range_after s ∷ []
greater_than_items k (some (s, included)) false =
    if bytes_lt k s
    then (if included then range_after_to_inclusive k s ∷ [] else range_after_to k s ∷ [])
    else []

unfoldable pub greater_than_or_equals_items : Bytes → Start → Bool → List QueryItem
greater_than_or_equals_items k none left_to_right = range_from k ∷ []
greater_than_or_equals_items k (some (s, included)) true =
    if bytes_lt s k || (included && bytes_eq s k)
    then range_from k ∷ []
    else if included
    then range_from s ∷ []
    else range_after s ∷ []
greater_than_or_equals_items k (some (s, included)) false =
    if bytes_lt k s
    then (if included then range_inclusive k s ∷ [] else range k s ∷ [])
    else if included && bytes_eq s k
    then key k ∷ []
    else []

unfoldable pub less_than_items : Bytes → Start → Bool → List QueryItem
less_than_items k none left_to_right = range_to k ∷ []
less_than_items k (some (s, included)) true =
    if bytes_lt s k then (if included then range k s ∷ [] else range_after_to k s ∷ []) else []
less_than_items k (some (s, included)) false =
    if bytes_lt k s
    then range_to k ∷ []
    else if included
    then range_to_inclusive s ∷ []
    else range_to s ∷ []

unfoldable pub less_than_or_equals_items : Bytes → Start → Bool → List QueryItem
less_than_or_equals_items k none left_to_right = range_to_inclusive k ∷ []
less_than_or_equals_items k (some (s, included)) true =
    if included && bytes_eq s k
    then key k ∷ []
    else if bytes_lt s k
    then (if included then range_inclusive k s ∷ [] else range_after_to_inclusive k s ∷ [])
    else []
less_than_or_equals_items k (some (s, included)) false =
    if bytes_lt k s || (included && bytes_eq s k)
    then range_to_inclusive k ∷ []
    else if included
    then range_to_inclusive s ∷ []
    else range_to s ∷ []

unfoldable pub between_items : Bytes → Bytes → Start → Bool → List QueryItem
between_items l r none left_to_right = range_inclusive l r ∷ []
between_items l r (some (s, included)) true =
    if bytes_lt s l || (included && bytes_eq s l)
    then range_inclusive l r ∷ []
    else if bytes_eq s l
    then range_after_to_inclusive l r ∷ []
    else if bytes_lt l s && bytes_lt s r
    then (if included then range_inclusive s r ∷ [] else range_after_to_inclusive s r ∷ [])
    else if bytes_eq s r && included
    then key r ∷ []
    else []
between_items l r (some (s, included)) false =
    if bytes_lt r s || (included && bytes_eq s r)
    then range_inclusive l r ∷ []
    else if bytes_eq s r
    then range l r ∷ []
    else if bytes_lt l s && bytes_lt s r
    then (if included then range_inclusive l s ∷ [] else range l s ∷ [])
    else if bytes_eq s l && included
    then key l ∷ []
    else []

unfoldable pub between_exclude_bounds_items : Bytes → Bytes → Start → Bool → List QueryItem
between_exclude_bounds_items l r none left_to_right = range_after_to l r ∷ []
between_exclude_bounds_items l r (some (s, included)) true =
    if bytes_le s l
    then range_after_to l r ∷ []
    else if bytes_lt l s && bytes_lt s r
    then (if included then range s r ∷ [] else range_after_to s r ∷ [])
    else []
between_exclude_bounds_items l r (some (s, included)) false =
    if bytes_lt r s
    then range_inclusive l r ∷ []
    else if bytes_eq s r
    then range l r ∷ []
    else if bytes_lt l s && bytes_lt s r
    then (if included then range_after_to_inclusive l s ∷ [] else range_after_to l s ∷ [])
    else []

unfoldable pub between_exclude_left_items : Bytes → Bytes → Start → Bool → List QueryItem
between_exclude_left_items l r none left_to_right = range_after_to_inclusive l r ∷ []
between_exclude_left_items l r (some (s, included)) true =
    if bytes_le s l
    then range_after_to_inclusive l r ∷ []
    else if bytes_lt l s && bytes_lt s r
    then (if included then range_inclusive s r ∷ [] else range_after_to_inclusive s r ∷ [])
    else if bytes_eq s r && included
    then key r ∷ []
    else []
between_exclude_left_items l r (some (s, included)) false =
    if bytes_lt r s || (included && bytes_eq s r)
    then range_after_to_inclusive l r ∷ []
    else if bytes_lt l s && bytes_lt s r
    then (if included then range_inclusive l s ∷ [] else range l s ∷ [])
    else []

-- The code of `BetweenExcludeRight`, and of `StartsWith` once it has its two keys.
unfoldable pub between_exclude_right_items : Bytes → Bytes → Start → Bool → List QueryItem
between_exclude_right_items l r none left_to_right = range l r ∷ []
between_exclude_right_items l r (some (s, included)) true =
    if bytes_lt s l || (included && bytes_eq s l)
    then range l r ∷ []
    else if bytes_eq s l
    then range_after_to l r ∷ []
    else if bytes_lt l s && bytes_lt s r
    then (if included then range s r ∷ [] else range_after_to s r ∷ [])
    else []
between_exclude_right_items l r (some (s, included)) false =
    if bytes_le r s
    then range l r ∷ []
    else if bytes_lt l s && bytes_lt s r
    then (if included then range_inclusive l s ∷ [] else range l s ∷ [])
    else if bytes_eq s l && included
    then key l ∷ []
    else []

-- The prefix with one added to its last byte, a `u8` that wraps in a release build.
unfoldable pub next_prefix : Bytes → Option Bytes
next_prefix [] = none
next_prefix (x ∷ []) = some ((x + 1) % 256 ∷ [])
next_prefix (x ∷ y ∷ ys) = elim (next_prefix (y ∷ ys)) [ none ↦ none | some zs ↦ some (x ∷ zs) ]

module _ (v : ValueOps) (serialize_value_for_key : Bytes → Value → QueryResult Bytes) where
  serialize_all : Bytes → List Value → QueryResult (List Bytes)
  serialize_all field [] = ok []
  serialize_all field (x ∷ xs) = do
    k ← serialize_value_for_key field x
    ks ← serialize_all field xs
    ok (k ∷ ks)

  split_values : Bytes → List Value → QueryResult (Bytes × Bytes)
  split_values field (l ∷ r ∷ []) = do
    left ← serialize_value_for_key field l
    right ← serialize_value_for_key field r
    ok (left, right)
  split_values field _ = err invalid_between_clause

  unfoldable pub split_value_for_between : Bytes → Value → QueryResult (Bytes × Bytes)
  unfolding split_values
  split_value_for_between field (array vs) = split_values field (elements vs)
  split_value_for_between field _ = err invalid_between_clause

  -- The match on the operator.
  operator_items : WhereOperator → WhereClause → Start → Bool → QueryResult (List QueryItem)
  operator_items equal c start left_to_right = do
    k ← serialize_value_for_key c.field c.value
    ok (equal_items k start left_to_right)
  operator_items in_op c start left_to_right = do
    vs ← in_values v c
    ks ← serialize_all c.field vs
    ok (in_items ks start left_to_right)
  operator_items greater_than c start left_to_right = do
    k ← serialize_value_for_key c.field c.value
    ok (greater_than_items k start left_to_right)
  operator_items greater_than_or_equals c start left_to_right = do
    k ← serialize_value_for_key c.field c.value
    ok (greater_than_or_equals_items k start left_to_right)
  operator_items less_than_op c start left_to_right = do
    k ← serialize_value_for_key c.field c.value
    ok (less_than_items k start left_to_right)
  operator_items less_than_or_equals c start left_to_right = do
    k ← serialize_value_for_key c.field c.value
    ok (less_than_or_equals_items k start left_to_right)
  operator_items between c start left_to_right = do
    ks ← split_value_for_between c.field c.value
    ok (between_items ks.0 ks.1 start left_to_right)
  operator_items between_exclude_bounds c start left_to_right = do
    ks ← split_value_for_between c.field c.value
    ok (between_exclude_bounds_items ks.0 ks.1 start left_to_right)
  operator_items between_exclude_left c start left_to_right = do
    ks ← split_value_for_between c.field c.value
    ok (between_exclude_left_items ks.0 ks.1 start left_to_right)
  operator_items between_exclude_right c start left_to_right = do
    ks ← split_value_for_between c.field c.value
    ok (between_exclude_right_items ks.0 ks.1 start left_to_right)
  operator_items starts_with c start left_to_right = do
    l ← serialize_value_for_key c.field c.value
    r ← ok_or (next_prefix l) invalid_starts_with_clause
    ok (between_exclude_right_items l r start left_to_right)

  unfoldable pub to_path_query : WhereClause → Start → Bool → QueryResult (List QueryItem)
  unfolding operator_items serialize_all split_value_for_between
  to_path_query c start left_to_right = operator_items c.operator c start left_to_right
