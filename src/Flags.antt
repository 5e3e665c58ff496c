-- ===== src/Flags.antt =====
-- drive/src/drive/flags.rs: the storage flags of an element, and the operations that merge them.
-- An error is the source's `StorageFlagsError` variant without its message. `u32` sums wrap, as
-- they do in a release build.
pub mod Codec
pub mod Removal
pub mod Merge
pub mod Owners
pub mod Subtract
pub mod Tests
use rs_platform.Common.{
  ℕ, ◌+◌, ◌%◌, ◌&&◌, not, Bool, true, false, Option, none, some, List, [], ◌∷◌, Bytes, bytes_eq,
  ltb, if◌then◌else◌, Result, ok, err, ◌>>=◌, ok_or, get_or_else, checked_sub, length, replicate,
  u32_mod, u16_mod,
}
use rs_platform.Common.SortedMap.{SortedMap, get, insert, remove}
use Prim.Native.Nat.{compare, Ordering}

-- `BTreeMap<EpochIndex, BytesAddedInEpoch>`
abbrev pub EpochMap : Type 0
EpochMap = SortedMap ℕ

pub data StorageFlags : Type 0 where
  single_epoch : ℕ → StorageFlags
  multi_epoch : ℕ → EpochMap → StorageFlags
  single_epoch_owned : ℕ → Bytes → StorageFlags
  multi_epoch_owned : ℕ → EpochMap → Bytes → StorageFlags

-- `fuel_exhausted` is the model's own.
pub data FlagsError : Type 0 where
  different_owners : FlagsError
  different_base_epoch : FlagsError
  removing_at_epoch_with_no_storage : FlagsError
  flags_overflow : FlagsError
  wrong_size : FlagsError
  unknown_flags_type : FlagsError
  fuel_exhausted : FlagsError

abbrev pub FlagsResult : Type 0 → Type 0
FlagsResult A = Result FlagsError A

unfoldable pub new_single_epoch : ℕ → Option Bytes → StorageFlags
new_single_epoch epoch none = single_epoch epoch
new_single_epoch epoch (some owner) = single_epoch_owned epoch owner

unfoldable pub base_epoch : StorageFlags → ℕ
base_epoch (single_epoch base) = base
base_epoch (multi_epoch base _) = base
base_epoch (single_epoch_owned base _) = base
base_epoch (multi_epoch_owned base _ _) = base

unfoldable pub owner_id : StorageFlags → Option Bytes
owner_id (single_epoch _) = none
owner_id (multi_epoch _ _) = none
owner_id (single_epoch_owned _ owner) = some owner
owner_id (multi_epoch_owned _ _ owner) = some owner

unfoldable pub epoch_index_map : StorageFlags → Option EpochMap
epoch_index_map (single_epoch _) = none
epoch_index_map (multi_epoch _ m) = some m
epoch_index_map (single_epoch_owned _ _) = none
epoch_index_map (multi_epoch_owned _ m _) = some m

pub combine_owners : Option Bytes → Option Bytes → FlagsResult (Option Bytes)
combine_owners (some ours) (some theirs) =
    if bytes_eq ours theirs then ok (some ours) else err different_owners
combine_owners (some ours) none = ok (some ours)
combine_owners none theirs = ok theirs

pub combine_owner_id : StorageFlags → StorageFlags → FlagsResult (Option Bytes)
combine_owner_id ours theirs = combine_owners (owner_id ours) (owner_id theirs)

-- The `remove`, then `insert` of the old value plus the new one, or of the new one alone.
pub add_bytes : ℕ → ℕ → EpochMap → EpochMap
add_bytes epoch bytes m =
    let rest = remove epoch m in
    elim (get epoch m) [
      | none ↦ insert epoch bytes rest
      | some original ↦ insert epoch ((original + bytes) % u32_mod) rest
    ]

-- The `for_each` over the other map's entries, in ascending order.
pub add_all : EpochMap → EpochMap → EpochMap
add_all combined [] = combined
add_all combined ((epoch, bytes) ∷ m) = add_all (add_bytes epoch bytes combined) m

pub combine_maps : Option EpochMap → Option EpochMap → Option EpochMap
combine_maps (some ours) (some theirs) = some (add_all ours theirs)
combine_maps (some ours) none = some ours
combine_maps none theirs = theirs

pub combine_non_base_epoch_bytes : StorageFlags → StorageFlags → Option EpochMap
combine_non_base_epoch_bytes ours theirs =
    combine_maps (epoch_index_map ours) (epoch_index_map theirs)

-- The match on the owner and the map that ends `combine_same_base_epoch`.
pub rebuild : ℕ → Option Bytes → Option EpochMap → StorageFlags
rebuild base none none = single_epoch base
rebuild base (some owner) none = single_epoch_owned base owner
rebuild base none (some m) = multi_epoch base m
rebuild base (some owner) (some m) = multi_epoch_owned base m owner

pub combine_same_base_epoch : StorageFlags → StorageFlags → FlagsResult StorageFlags
combine_same_base_epoch ours theirs = do
  owner ← combine_owner_id ours theirs
  ok (rebuild (base_epoch ours) owner (combine_non_base_epoch_bytes ours theirs))

pub combine_with_higher_base_epoch : StorageFlags → StorageFlags → ℕ → FlagsResult StorageFlags
combine_with_higher_base_epoch ours theirs added = do
  owner ← combine_owner_id ours theirs
  let other = get_or_else (combine_non_base_epoch_bytes ours theirs) []
  ok (rebuild (base_epoch ours) owner (some (add_bytes (base_epoch theirs) added other)))

-- `costs::StorageRemovedBytes`, as far as this program takes it apart. The inner `IntMap` is
-- iterated in the order of its keys here; its own order is not fixed.
pub data StorageRemovedBytes : Type 0 where
  no_storage_removal : StorageRemovedBytes
  basic_storage_removal : ℕ → StorageRemovedBytes
  sectioned_storage_removal : List (Bytes × SortedMap ℕ) → StorageRemovedBytes

unfoldable pub lookup_owner : Bytes → List (Bytes × SortedMap ℕ) → Option (SortedMap ℕ)
lookup_owner k [] = none
lookup_owner k ((j, s) ∷ m) = if bytes_eq k j then some s else lookup_owner k m

-- The `try_for_each` over the removed sections: the value at each epoch goes down in place.
pub remove_sections : EpochMap → SortedMap ℕ → FlagsResult EpochMap
remove_sections m [] = ok m
remove_sections m ((epoch, removed) ∷ sections) = do
  bytes ← ok_or (get (epoch % u16_mod) m) removing_at_epoch_with_no_storage
  left ← ok_or (checked_sub bytes removed) flags_overflow
  remove_sections (insert (epoch % u16_mod) left m) sections

abbrev pub default_owner : Bytes
default_owner = replicate 32 0

pub subtract_removed : Option Bytes → EpochMap → StorageRemovedBytes → FlagsResult EpochMap
subtract_removed owner m no_storage_removal = ok m
subtract_removed owner m (basic_storage_removal _) = ok m
subtract_removed owner m (sectioned_storage_removal by_identifier) =
    if ltb 1 (length by_identifier) then err different_owners else do
      sections ←
          ok_or (lookup_owner (get_or_else owner default_owner) by_identifier) different_owners
      remove_sections m sections

pub combine_with_higher_base_epoch_remove_bytes :
    StorageFlags → StorageFlags → StorageRemovedBytes → FlagsResult StorageFlags
combine_with_higher_base_epoch_remove_bytes ours theirs removed = do
  owner ← combine_owner_id ours theirs
  let other = get_or_else (combine_non_base_epoch_bytes ours theirs) []
  left ← subtract_removed owner other removed
  ok (rebuild (base_epoch ours) owner (some left))

unfoldable pub combine_added_bytes : StorageFlags → StorageFlags → ℕ → FlagsResult StorageFlags
combine_added_bytes ours theirs added = elim (compare (base_epoch ours) (base_epoch theirs)) [
  | Ordering.eq ↦ combine_same_base_epoch ours theirs
  | Ordering.lt ↦ combine_with_higher_base_epoch ours theirs added
  | Ordering.gt ↦ err different_base_epoch
]

unfoldable pub combine_removed_bytes :
    StorageFlags → StorageFlags → StorageRemovedBytes → FlagsResult StorageFlags
combine_removed_bytes ours theirs removed = elim (compare (base_epoch ours) (base_epoch theirs)) [
  | Ordering.eq ↦ combine_same_base_epoch ours theirs
  | Ordering.lt ↦ combine_with_higher_base_epoch_remove_bytes ours theirs removed
  | Ordering.gt ↦ err different_base_epoch
]

unfoldable pub optional_combine_added_bytes :
    Option StorageFlags → StorageFlags → ℕ → FlagsResult StorageFlags
optional_combine_added_bytes none theirs added = ok theirs
optional_combine_added_bytes (some ours) theirs added = combine_added_bytes ours theirs added

unfoldable pub optional_combine_removed_bytes :
    Option StorageFlags → StorageFlags → StorageRemovedBytes → FlagsResult StorageFlags
optional_combine_removed_bytes none theirs removed = ok theirs
optional_combine_removed_bytes (some ours) theirs removed =
    combine_removed_bytes ours theirs removed
