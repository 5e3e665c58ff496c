-- ===== src/Query/Path/Empty.antt =====
-- Where the ranges of drive/src/query/conditions.rs select other keys than the condition asks for.
use rs_platform.Common.{◌≡◌, Bool, true, false, ◌&&◌, none, some, Bytes, bytes_eq_refl, arith}
use rs_platform.Common.Int.{bytes_lt, bytes_le}
use rs_platform.Query.Path.{
  Start, less_than_items, less_than_or_equals_items, between_exclude_bounds_items,
  between_exclude_left_items,
}
use rs_platform.Query.Path.Ranks.{all_compare, first_second, first_third, second_third}
use rs_platform.Query.Path.Exact.{selected, from_start}

-- `<=` backwards, and both orders without a start document, select exactly the keys that meet the
-- condition and lie on the right side of the start document.
upper_bound_exact :
    (k x : Bytes) (start : Start)
    → (selected (less_than_or_equals_items k start false) x
        ≡ (bytes_le x k && from_start start false x))
      × ((d : Bool) → selected (less_than_or_equals_items k none d) x ≡ bytes_le x k)
      × ((d : Bool) → selected (less_than_items k none d) x ≡ bytes_lt x k)
unfolding less_than_or_equals_items less_than_items
upper_bound_exact k x none = (ground arith, λ d. ground arith, λ d. ground arith)
upper_bound_exact k x (some (s, true)) =
    (ground (arith, all_compare x k s s), λ d. ground arith, λ d. ground arith)
upper_bound_exact k x (some (s, false)) =
    (ground (arith, all_compare x k s s), λ d. ground arith, λ d. ground arith)

-- From any start document on, in ascending order, `<` selects no key at all, and `<=` none but the
-- key of an included start document that has the bound itself: the ends of the range are swapped.
ascending_upper_bound_empty :
    (k s x : Bytes) (included : Bool)
    → (selected (less_than_items k (some (s, included)) true) x ≡ false)
      × (bytes_lt s k ≡ true
          → selected (less_than_or_equals_items k (some (s, included)) true) x ≡ false)
unfolding less_than_items less_than_or_equals_items
ascending_upper_bound_empty k s x true =
    (ground (arith, all_compare x k s s), λ h. ground (arith, all_compare x k s s))
ascending_upper_bound_empty k s x false =
    (ground (arith, all_compare x k s s), λ h. ground (arith, all_compare x k s s))

-- In descending order the excluded left bound is selected: by `BetweenExcludeBounds` from a start
-- document behind the right bound, with the excluded right bound, and by `BetweenExcludeLeft` from
-- a start document between the bounds.
descending_excluded_bound_selected :
    (l r s : Bytes) (included : Bool)
    → bytes_lt l r ≡ true
    → (bytes_lt r s ≡ true
        → (selected (between_exclude_bounds_items l r (some (s, included)) false) l ≡ true)
          × (selected (between_exclude_bounds_items l r (some (s, included)) false) r ≡ true))
      × (bytes_lt l s ≡ true
          → bytes_lt s r ≡ true
          → selected (between_exclude_left_items l r (some (s, included)) false) l ≡ true)
unfolding between_exclude_bounds_items between_exclude_left_items
descending_excluded_bound_selected l r s included h = (
  λ k. (
    ground (
      arith,
      h,
      k,
      first_second l r s s,
      first_third l r s s,
      second_third l r s s,
      bytes_eq_refl l,
    ),
    ground (
      arith,
      h,
      k,
      first_second l r s s,
      first_third l r s s,
      second_third l r s s,
      bytes_eq_refl r,
    ),
  ),
  λ k m. ground (
    arith,
    h,
    k,
    m,
    first_second l r s s,
    first_third l r s s,
    second_third l r s s,
    bytes_eq_refl l,
  ),
)
