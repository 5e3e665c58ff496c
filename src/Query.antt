-- ===== src/Query.antt =====
-- drive/src/query/conditions.rs: the conditions of a query on documents. A text is its bytes.
-- An error is the source's `QueryError` variant without its message.
pub mod Group
pub mod Index
pub mod Path
mod Tests
use Prim.Native.String.{String}
use rs_platform.Common.{
  ℕ, zero, suc, Bool, true, false, not, ◌&&◌, ◌||◌, Option, none, some, List, [], ◌∷◌, Bytes,
  bytes_eq, ltb, leb, ◌==◌, if◌then◌else◌, length, Result, ok, err, ◌>>=◌, ok_or,
}
use rs_platform.Common.Int.{ℤ, ltb_ℤ, leb_ℤ, codes, bytes_lt, bytes_le}

pub data WhereOperator : Type 0 where
  equal greater_than greater_than_or_equals less_than_op less_than_or_equals : WhereOperator
  between between_exclude_bounds between_exclude_left between_exclude_right : WhereOperator
  in_op starts_with : WhereOperator

pub data QueryError : Type 0 where
  invalid_where_clause_order : QueryError
  invalid_in_clause : QueryError
  range_clauses_not_groupable : QueryError
  invalid_where_clause_components : QueryError
  multiple_range_clauses : QueryError
  duplicate_non_groupable_clause_same_field : QueryError
  multiple_in_clauses : QueryError
  starts_with_illegal_string : QueryError
  invalid_between_clause : QueryError
  invalid_starts_with_clause : QueryError

abbrev pub QueryResult : Type 0 → Type 0
QueryResult A = Result QueryError A

-- `ciborium::value::Value`, as far as the conditions tell values apart; a float is its 64 bits.
mutual
  pub data Value : Type 0 where
    integer : ℤ → Value
    bytes : Bytes → Value
    float : ℕ → Value
    text : Bytes → Value
    array : Values → Value
    other : ℕ → Value

  pub data Values : Type 0 where
    nil : Values
    cons : Value → Values → Values

abbrev pub elements : Values → List Value
elements nil = []
elements (cons v vs) = v ∷ elements vs

unfoldable pub allows_flip : WhereOperator → Bool
allows_flip equal = true
allows_flip greater_than = true
allows_flip greater_than_or_equals = true
allows_flip less_than_op = true
allows_flip less_than_or_equals = true
allows_flip _ = false

unfoldable pub flip : WhereOperator → QueryResult WhereOperator
flip equal = ok equal
flip greater_than = ok less_than_op
flip greater_than_or_equals = ok less_than_or_equals
flip less_than_op = ok greater_than
flip less_than_or_equals = ok greater_than_or_equals
flip _ = err invalid_where_clause_order

unfoldable pub is_range : WhereOperator → Bool
is_range equal = false
is_range _ = true

-- Whether a text is one of some literals.
abbrev pub one_of : Bytes → List String → Bool
one_of s [] = false
one_of s (l ∷ ls) = bytes_eq s (codes l) || one_of s ls

unfoldable pub from_string : Bytes → Option WhereOperator
from_string s =
    if one_of s ("=" ∷ "==" ∷ [])
    then some equal
    else if one_of s (">" ∷ [])
    then some greater_than
    else if one_of s (">=" ∷ [])
    then some greater_than_or_equals
    else if one_of s ("<" ∷ [])
    then some less_than_op
    else if one_of s ("<=" ∷ [])
    then some less_than_or_equals
    else if one_of s ("Between" ∷ "between" ∷ [])
    then some between
    else if one_of s (
        "BetweenExcludeBounds" ∷ "betweenExcludeBounds" ∷ "betweenexcludebounds"
        ∷ "between_exclude_bounds" ∷ [])
    then some between_exclude_bounds
    else if one_of s (
        "BetweenExcludeLeft" ∷ "betweenExcludeLeft" ∷ "betweenexcludeleft" ∷ "between_exclude_left"
        ∷ [])
    then some between_exclude_left
    else if one_of s (
        "BetweenExcludeRight" ∷ "betweenExcludeRight" ∷ "betweenexcluderight"
        ∷ "between_exclude_right" ∷ [])
    then some between_exclude_right
    else if one_of s ("In" ∷ "in" ∷ [])
    then some in_op
    else if one_of s ("StartsWith" ∷ "startsWith" ∷ "startswith" ∷ "starts_with" ∷ [])
    then some starts_with
    else none

pub record WhereClause : Type 0 where
  pub field : Bytes
  pub operator : WhereOperator
  pub value : Value

unfoldable pub is_identifier : WhereClause → Bool
is_identifier c = bytes_eq c.field (codes "$id")

-- `Value::as_text`
abbrev pub as_text : Value → Option Bytes
as_text (text t) = some t
as_text _ = none

unfoldable pub from_components : List Value → QueryResult WhereClause
unfolding from_string
from_components (field_value ∷ operator_value ∷ value ∷ []) = do
  field ← ok_or (as_text field_value) invalid_where_clause_components
  operator_string ← ok_or (as_text operator_value) invalid_where_clause_components
  operator ← ok_or (from_string operator_string) invalid_where_clause_components
  ok (record { field = field; operator = operator; value = value })
from_components _ = err invalid_where_clause_components

-- The equality that `Value` derives, and the comparisons of floats.
pub record ValueOps : Type 0 where
  pub value_eq : Value → Value → Bool
  pub float_le : ℕ → ℕ → Bool
  pub float_lt : ℕ → ℕ → Bool

module _ (v : ValueOps) where
  open v use {value_eq, float_le, float_lt}

  unfoldable pub contains : List Value → Value → Bool
  contains [] x = false
  contains (y ∷ ys) x = value_eq y x || contains ys x

  -- Some value stands again behind itself.
  unfoldable pub has_duplicates : List Value → Bool
  unfolding contains
  has_duplicates [] = false
  has_duplicates (x ∷ xs) = contains xs x || has_duplicates xs

  unfoldable pub check_in_values : List Value → QueryResult (List Value)
  unfolding has_duplicates
  check_in_values vs =
      if length vs == 0
      then err invalid_in_clause
      else if ltb 100 (length vs)
      then err invalid_in_clause
      else if has_duplicates vs
      then err invalid_in_clause
      else ok vs

  unfoldable pub in_values_of : Value → QueryResult (List Value)
  unfolding check_in_values
  in_values_of (array vs) = check_in_values (elements vs)
  in_values_of _ = err invalid_in_clause

  unfoldable pub in_values : WhereClause → QueryResult (List Value)
  unfolding in_values_of
  in_values c = in_values_of c.value

  unfoldable pub less_than_value : Value → Value → Bool → QueryResult Bool
  less_than_value (integer x) (integer y) allow_eq = ok (if allow_eq then leb_ℤ x y else ltb_ℤ x y)
  less_than_value (bytes x) (bytes y) allow_eq =
      ok (if allow_eq then bytes_le x y else bytes_lt x y)
  less_than_value (float x) (float y) allow_eq =
      ok (if allow_eq then float_le x y else float_lt x y)
  less_than_value (text x) (text y) allow_eq = ok (if allow_eq then bytes_le x y else bytes_lt x y)
  less_than_value _ _ allow_eq = err range_clauses_not_groupable

  unfoldable pub less_than : WhereClause → WhereClause → Bool → QueryResult Bool
  unfolding less_than_value
  less_than c d allow_eq = less_than_value c.value d.value allow_eq
