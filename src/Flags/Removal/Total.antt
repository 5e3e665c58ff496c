-- ===== src/Flags/Removal/Total.antt =====
-- How many of the removed bytes the sections of drive/src/drive/flags.rs account for.
use rs_platform.Common.{
  ℕ, suc, ◌+◌, ◌-◌, ◌≤◌, ◌<◌, ◌≡◌, ◌↔◌, ◌⊎◌, inl, inr, refl, Option, none, some, List, [], ◌∷◌,
  Bytes, ltb, ltb→lt, ltb_false→le, if_elim, if◌then◌else◌, arith, All, ok,
}
use rs_platform.Common.SortedMap.{SortedMap, get, insert, IsSorted, Above, get-insert}
use rs_platform.Flags.{
  StorageFlags, single_epoch, multi_epoch, single_epoch_owned, multi_epoch_owned, base_epoch,
  epoch_index_map, EpochMap, StorageRemovedBytes, no_storage_removal, basic_storage_removal,
  sectioned_storage_removal,
}
use rs_platform.Flags.Removal.{
  take_sections, sectioned_removal, single_removal, split_storage_removed_bytes,
}
use rs_platform.Flags.Merge.{map_of}

-- The bytes of a map, over all its epochs.
abbrev pub sum_bytes : SortedMap ℕ → ℕ
sum_bytes [] = 0
sum_bytes ((_, b) ∷ m) = b + sum_bytes m

abbrev pub sum_owners : List (Bytes × SortedMap ℕ) → ℕ
sum_owners [] = 0
sum_owners ((_, s) ∷ m) = sum_bytes s + sum_owners m

-- The bytes that a removal accounts for.
abbrev pub total_bytes : StorageRemovedBytes → ℕ
total_bytes no_storage_removal = 0
total_bytes (basic_storage_removal n) = n
total_bytes (sectioned_storage_removal by_identifier) = sum_owners by_identifier

sum_bytes-insert :
    (k v : ℕ) (m : SortedMap ℕ) → get k m ≡ none → sum_bytes (insert k v m) ≡ v + sum_bytes m
unfolding get insert
sum_bytes-insert k v [] h = omega arith
sum_bytes-insert k v ((j, w) ∷ m) h = ground (arith, sum_bytes-insert k v m)

-- No key of the second map stands in the first.
abbrev Apart : SortedMap ℕ → SortedMap ℕ → Type 0
Apart sections = All (λ e. get e.0 sections ≡ none)

Apart-insert :
    (k v : ℕ) (sections m : SortedMap ℕ) (lo : ℕ)
    → k < lo
    → Above lo m
    → Apart sections m
    → Apart (insert k v sections) m
Apart-insert k v sections [] lo h a p = tt
Apart-insert k v sections ((j, w) ∷ m) lo h a p =
    (ground (arith, get-insert k j v sections), Apart-insert k v sections m lo h a.1 p.1)

-- What the loop leaves, and what it has put into the sections.
abbrev Taken : ℕ → ℕ → EpochMap → SortedMap ℕ → ℕ × SortedMap ℕ → Type 0
Taken base left m sections (left', sections') =
    (get base sections' ≡ none)
    × ((left ≡ 0) ⊎ (sum_bytes m < left) → sum_bytes sections' + left' ≡ sum_bytes sections + left)
    × (0 < left
        → left ≤ sum_bytes m
        → (left' ≡ 0) × (sum_bytes sections' < sum_bytes sections + left))

take_sections-Taken :
    (base left : ℕ) (m : EpochMap) (sections : SortedMap ℕ)
    → get base sections ≡ none
    → Above (suc base) m
    → IsSorted m
    → Apart sections m
    → Taken base left m sections (take_sections left m sections)
unfolding take_sections
take_sections-Taken base left [] sections g a s p = (g, λ _. refl, λ h k. absurd (omega arith))
take_sections-Taken base left ((e, b) ∷ m) sections g a s p =
    let P = Taken base left ((e, b) ∷ m) sections in
    if_elim P (ltb 0 left)
      (λ some_left.
        if_elim P (ltb b left)
          (λ more.
            let (g', exact, short) =
              take_sections-Taken base (left - b) m (insert e b sections)
                (ground (arith, get-insert e base b sections)) a.1 s.1
                (Apart-insert e b sections m (suc e) (omega arith) s.0 p.1) in
            let below = ltb→lt b left more in
            let sum = sum_bytes-insert e b sections p.0 in
            (
              g',
              λ h. omega (arith, exact (inr (omega arith))),
              λ h k. (
                (short (omega arith) (omega arith)).0,
                omega (arith, (short (omega arith) (omega arith)).1),
              ),
            ))
          (λ enough. (
            ground (arith, get-insert e base 0 sections),
            λ h. absurd (omega (arith, ltb→lt 0 left some_left, ltb_false→le b left enough)),
            λ h k. (refl, omega (arith, sum_bytes-insert e 0 sections p.0)),
          )))
      (λ done. (g, λ h. refl, λ h k. absurd (omega (arith, ltb_false→le 0 left done))))

-- What the sections must account for, and when they do.
abbrev pub AccountsFor : ℕ → EpochMap → StorageRemovedBytes → Type 0
AccountsFor removed m r = (total_bytes r ≡ removed) ↔ ((removed ≡ 0) ⊎ (sum_bytes m < removed))

Apart-empty : (m : EpochMap) → Apart [] m
unfolding get
Apart-empty [] = tt
Apart-empty (x ∷ xs) = (refl, Apart-empty xs)

-- What is left is charged to the base epoch.
charge_base :
    (left base : ℕ) (sections : SortedMap ℕ)
    → get base sections ≡ none
    → sum_bytes (if ltb 0 left then insert base left sections else sections)
      ≡ sum_bytes sections + left
charge_base left base sections g = ground (arith, sum_bytes-insert base left sections g)

zero_or_below : (n m : ℕ) → ((n ≡ 0) ⊎ (m < n)) ⊎ ((0 < n) × (n ≤ m))
zero_or_below n m = grind arith

sectioned_removal-AccountsFor :
    (removed base : ℕ) (m : EpochMap) (owner : Option Bytes)
    → Above (suc base) m
    → IsSorted m
    → AccountsFor removed m (sectioned_removal removed base m owner)
unfolding sectioned_removal
sectioned_removal-AccountsFor removed base m owner a s =
    let (left, sections) = take_sections removed m [] in
    let (g, exact, short) =
      take_sections-Taken base removed m [] (unfold get in refl) a s (Apart-empty m) in
    let sum = charge_base left base sections g in
    (
      λ e. elim (zero_or_below removed (sum_bytes m)) [
        | inl h ↦ h
        | inr h ↦ absurd (omega (arith, sum, e, short h.0 h.1))
      ],
      λ h. omega (arith, sum, exact h),
    )

single_removal-AccountsFor :
    (removed base : ℕ) (owner : Option Bytes)
    → AccountsFor removed [] (single_removal removed base owner)
unfolding single_removal insert
single_removal-AccountsFor removed base owner = ground arith

-- The removals of the key and of the value, for flags of every kind: each accounts for all its
-- bytes exactly when there are none, or when they outnumber what the epochs after the base epoch
-- hold together. Where later epochs hold enough, bytes are lost.
pub split_storage_removed_bytes-AccountsFor :
    (flags : StorageFlags) (key value : ℕ)
    → Above (suc (base_epoch flags)) (map_of flags)
    → IsSorted (map_of flags)
    → (ks vs : StorageRemovedBytes) × (split_storage_removed_bytes flags key value ≡ ok (ks, vs))
      × AccountsFor key (map_of flags) ks
      × AccountsFor value (map_of flags) vs
unfolding split_storage_removed_bytes base_epoch epoch_index_map
split_storage_removed_bytes-AccountsFor (single_epoch base) key value a s = (
  _,
  _,
  refl,
  single_removal-AccountsFor key base none,
  single_removal-AccountsFor value base none,
)
split_storage_removed_bytes-AccountsFor (single_epoch_owned base owner) key value a s = (
  _,
  _,
  refl,
  single_removal-AccountsFor key base (some owner),
  single_removal-AccountsFor value base (some owner),
)
split_storage_removed_bytes-AccountsFor (multi_epoch base m) key value a s = (
  _,
  _,
  refl,
  sectioned_removal-AccountsFor key base m none a s,
  sectioned_removal-AccountsFor value base m none a s,
)
split_storage_removed_bytes-AccountsFor (multi_epoch_owned base m owner) key value a s = (
  _,
  _,
  refl,
  sectioned_removal-AccountsFor key base m (some owner) a s,
  sectioned_removal-AccountsFor value base m (some owner) a s,
)
