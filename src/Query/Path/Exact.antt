-- ===== src/Query/Path/Exact.antt =====
-- Which keys the ranges of drive/src/query/conditions.rs select for `=`, `>`, `>=`, `Between` and
-- `BetweenExcludeRight`; the other ranges are in Query/Path/Empty.antt.
use rs_platform.Common.{
  ◌≡◌, Bool, true, false, ◌&&◌, ◌||◌, none, some, List, [], ◌∷◌, Bytes, bytes_eq, arith,
}
use rs_platform.Common.Int.{bytes_lt, bytes_le}
use rs_platform.Query.Path.{
  QueryItem, key, range, range_inclusive, range_after_to, range_after_to_inclusive, range_from,
  range_after, range_to, range_to_inclusive, Start, equal_items, greater_than_items,
  greater_than_or_equals_items, between_items, between_exclude_right_items,
}
use rs_platform.Query.Path.Ranks.{all_compare}

-- The keys of a query item, as GroveDB documents the methods of `Query`.
abbrev pub selects : QueryItem → Bytes → Bool
selects (key k) x = bytes_eq x k
selects (range l r) x = bytes_le l x && bytes_lt x r
selects (range_inclusive l r) x = bytes_le l x && bytes_le x r
selects (range_after_to l r) x = bytes_lt l x && bytes_lt x r
selects (range_after_to_inclusive l r) x = bytes_lt l x && bytes_le x r
selects (range_from l) x = bytes_le l x
selects (range_after l) x = bytes_lt l x
selects (range_to r) x = bytes_lt x r
selects (range_to_inclusive r) x = bytes_le x r

abbrev pub selected : List QueryItem → Bytes → Bool
selected [] x = false
selected (i ∷ is) x = selects i x || selected is x

-- A key that the query may return, given where it starts and which way it goes.
abbrev pub from_start : Start → Bool → Bytes → Bool
from_start none left_to_right x = true
from_start (some (s, included)) true x = bytes_lt s x || (included && bytes_eq s x)
from_start (some (s, included)) false x = bytes_lt x s || (included && bytes_eq s x)

-- The range of an equality condition selects a key exactly when the key is that of the condition
-- and not before the start document in the direction of the query, for every start and both
-- directions.
equal_items_exact :
    (k x : Bytes) (start : Start) (left_to_right : Bool)
    → selected (equal_items k start left_to_right) x
      ≡ (bytes_eq x k && from_start start left_to_right x)
unfolding equal_items
equal_items_exact k x none true = ground arith
equal_items_exact k x none false = ground arith
equal_items_exact k x (some (s, true)) true = ground (arith, all_compare x k s s)
equal_items_exact k x (some (s, false)) true = ground (arith, all_compare x k s s)
equal_items_exact k x (some (s, true)) false = ground (arith, all_compare x k s s)
equal_items_exact k x (some (s, false)) false = ground (arith, all_compare x k s s)

-- The range of a condition > selects exactly the keys above the bound that are not before the
-- start document in the direction of the query, for every start and both directions.
pub greater_than_items_exact :
    (k x : Bytes) (start : Start) (left_to_right : Bool)
    → selected (greater_than_items k start left_to_right) x
      ≡ (bytes_lt k x && from_start start left_to_right x)
unfolding greater_than_items
greater_than_items_exact k x none true = ground arith
greater_than_items_exact k x none false = ground arith
greater_than_items_exact k x (some (s, true)) true = ground (arith, all_compare x k s s)
greater_than_items_exact k x (some (s, false)) true = ground (arith, all_compare x k s s)
greater_than_items_exact k x (some (s, true)) false = ground (arith, all_compare x k s s)
greater_than_items_exact k x (some (s, false)) false = ground (arith, all_compare x k s s)

-- The range of a condition >= selects exactly the keys from the bound on that are not before the
-- start document in the direction of the query, for every start and both directions.
greater_than_or_equals_items_exact :
    (k x : Bytes) (start : Start) (left_to_right : Bool)
    → selected (greater_than_or_equals_items k start left_to_right) x
      ≡ (bytes_le k x && from_start start left_to_right x)
unfolding greater_than_or_equals_items
greater_than_or_equals_items_exact k x none true = ground arith
greater_than_or_equals_items_exact k x none false = ground arith
greater_than_or_equals_items_exact k x (some (s, true)) true = ground (arith, all_compare x k s s)
greater_than_or_equals_items_exact k x (some (s, false)) true = ground (arith, all_compare x k s s)
greater_than_or_equals_items_exact k x (some (s, true)) false = ground (arith, all_compare x k s s)
greater_than_or_equals_items_exact k x (some (s, false)) false = ground (arith, all_compare x k s s)

-- The range of a condition Between selects exactly the keys from the left bound to the right one,
-- both included, that are not before the start document in the direction of the query.
between_items_exact :
    (l r x : Bytes) (start : Start) (left_to_right : Bool)
    → selected (between_items l r start left_to_right) x
      ≡ ((bytes_le l x && bytes_le x r) && from_start start left_to_right x)
unfolding between_items
between_items_exact l r x none true = ground arith
between_items_exact l r x none false = ground arith
between_items_exact l r x (some (s, true)) true = ground (arith, all_compare x l r s)
between_items_exact l r x (some (s, false)) true = ground (arith, all_compare x l r s)
between_items_exact l r x (some (s, true)) false = ground (arith, all_compare x l r s)
between_items_exact l r x (some (s, false)) false = ground (arith, all_compare x l r s)

-- The range of a condition BetweenExcludeRight selects exactly the keys from the left bound on and
-- below the right one that are not before the start document in the direction of the query.
between_exclude_right_items_exact :
    (l r x : Bytes) (start : Start) (left_to_right : Bool)
    → selected (between_exclude_right_items l r start left_to_right) x
      ≡ ((bytes_le l x && bytes_lt x r) && from_start start left_to_right x)
unfolding between_exclude_right_items
between_exclude_right_items_exact l r x none true = ground arith
between_exclude_right_items_exact l r x none false = ground arith
between_exclude_right_items_exact l r x (some (s, true)) true = ground (arith, all_compare x l r s)
between_exclude_right_items_exact l r x (some (s, false)) true = ground (arith, all_compare x l r s)
between_exclude_right_items_exact l r x (some (s, true)) false = ground (arith, all_compare x l r s)
between_exclude_right_items_exact l r x (some (s, false)) false =
    ground (arith, all_compare x l r s)
