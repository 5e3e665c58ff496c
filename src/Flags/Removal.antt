-- ===== src/Flags/Removal.antt =====
-- `split_storage_removed_bytes` of drive/src/drive/flags.rs: which epochs removed bytes are
-- charged to.
use rs_platform.Common.{
  ℕ, zero, suc, ◌+◌, ◌-◌, ◌≤◌, ◌<◌, ◌≡◌, ◌≢◌, ◌↔◌, ◌⊎◌, inl, inr, refl, true, false, Option, none,
  some, List, [], ◌∷◌, Bytes, get_or_else, ltb, ◌==◌, if◌then◌else◌, arith, Result, ok, All,
  Option-cases,
}
use rs_platform.Common.SortedMap.{SortedMap, get, insert, IsSorted, Above, get-insert, get-Above}
use rs_platform.Flags.{
  StorageFlags, single_epoch, multi_epoch, single_epoch_owned, multi_epoch_owned, EpochMap,
  FlagsResult, StorageRemovedBytes, no_storage_removal, basic_storage_removal,
  sectioned_storage_removal, default_owner,
}
pub mod Total

-- The nested functions `single_storage_removal` and `sectioned_storage_removal`.
unfoldable pub single_removal : ℕ → ℕ → Option Bytes → StorageRemovedBytes
single_removal removed base owner =
    let sections = if ltb 0 removed then insert base removed [] else [] in
    sectioned_storage_removal ((get_or_else owner default_owner, sections) ∷ [])

-- The `while bytes_left > 0` loop. The iterator is reversed and read from its back, so it goes
-- through the map in ascending order. Where an epoch holds enough, `bytes_left` is set to 0 first,
-- and that 0 is what the section gets.
unfoldable pub take_sections : ℕ → EpochMap → SortedMap ℕ → ℕ × SortedMap ℕ
take_sections left [] sections = (left, sections)
take_sections left ((epoch, bytes) ∷ m) sections =
    let rest = take_sections (left - bytes) m (insert epoch bytes sections) in
    if ltb 0 left
    then (if ltb bytes left then rest else (0, insert epoch 0 sections))
    else (left, sections)

unfoldable pub sectioned_removal : ℕ → ℕ → EpochMap → Option Bytes → StorageRemovedBytes
sectioned_removal removed base m owner =
    let (left, sections) = take_sections removed m [] in
    let all = if ltb 0 left then insert base left sections else sections in
    sectioned_storage_removal ((get_or_else owner default_owner, all) ∷ [])

-- The removals of the key and of the value.
unfoldable pub split_storage_removed_bytes :
    StorageFlags → ℕ → ℕ → FlagsResult (StorageRemovedBytes × StorageRemovedBytes)
split_storage_removed_bytes (single_epoch base) key value =
    ok (single_removal key base none, single_removal value base none)
split_storage_removed_bytes (single_epoch_owned base owner) key value =
    ok (single_removal key base (some owner), single_removal value base (some owner))
split_storage_removed_bytes (multi_epoch base m) key value =
    ok (sectioned_removal key base m none, sectioned_removal value base m none)
split_storage_removed_bytes (multi_epoch_owned base m owner) key value =
    ok (sectioned_removal key base m (some owner), sectioned_removal value base m (some owner))
