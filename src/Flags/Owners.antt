-- ===== src/Flags/Owners.antt =====
-- Which merges of drive/src/drive/flags.rs succeed, and the owner of what they return.
use rs_platform.Common.{
  ℕ, ◌≤◌, ◌<◌, ◌≡◌, ◌⊎◌, inl, inr, refl, [], Option, none, some, Bytes, bytes_eq_refl, bytes_eq→eq,
  ok, err, get_or_else, arith,
}
use rs_platform.Flags.{
  StorageFlags, different_owners, different_base_epoch, base_epoch, owner_id, combine_owners,
  combine_owner_id, combine_non_base_epoch_bytes, rebuild, add_bytes, combine_same_base_epoch,
  combine_with_higher_base_epoch, combine_added_bytes,
}
use rs_platform.Flags.Merge.{owner_id-rebuild}

-- Two owners can be merged unless both are there and differ.
abbrev pub OwnersAgree : Option Bytes → Option Bytes → Type 0
OwnersAgree (some x) (some y) = x ≡ y
OwnersAgree _ _ = Unit

-- The owner of the merged flags: the first flags', or the second's where the first have none.
abbrev pub either_owner : Option Bytes → Option Bytes → Option Bytes
either_owner (some x) _ = some x
either_owner none y = y

combine_owners-agree :
    (o p : Option Bytes) → OwnersAgree o p → combine_owners o p ≡ ok (either_owner o p)
unfolding combine_owners
combine_owners-agree (some x) (some y) h = rw (← h) (rw (bytes_eq_refl x))
combine_owners-agree (some x) none h = refl
combine_owners-agree none p h = refl

combine_owners-differ :
    (o p : Option Bytes) → ¬ (OwnersAgree o p) → combine_owners o p ≡ err different_owners
unfolding combine_owners
combine_owners-differ (some x) (some y) h = ground (arith, bytes_eq→eq x y)
combine_owners-differ (some x) none h = absurd (h tt)
combine_owners-differ none p h = absurd (h tt)

split_le : (m n : ℕ) → m ≤ n → (m ≡ n) ⊎ (m < n)
split_le m n h = omega arith

module _ (a b : StorageFlags) (added : ℕ) (h : base_epoch a ≤ base_epoch b) where
  owners_differ :
      ¬ (OwnersAgree (owner_id a) (owner_id b))
      → combine_added_bytes a b added ≡ err different_owners
  unfolding combine_added_bytes combine_same_base_epoch combine_with_higher_base_epoch
      combine_owner_id
  owners_differ d = ground (arith, combine_owners-differ (owner_id a) (owner_id b) d)

  owners_agree :
      OwnersAgree (owner_id a) (owner_id b)
      → (c : StorageFlags) × (combine_added_bytes a b added ≡ ok c)
        × (owner_id c ≡ either_owner (owner_id a) (owner_id b))
  unfolding combine_added_bytes combine_same_base_epoch combine_with_higher_base_epoch
      combine_owner_id
  owners_agree d =
      let o = either_owner (owner_id a) (owner_id b) in
      let m = combine_non_base_epoch_bytes a b in
      let m' = add_bytes (base_epoch b) added (get_or_else m []) in
      elim (split_le (base_epoch a) (base_epoch b) h) [
        | inl q ↦ (
          rebuild (base_epoch a) o m,
          ground (arith, combine_owners-agree (owner_id a) (owner_id b) d),
          owner_id-rebuild (base_epoch a) o m,
        )
        | inr q ↦ (
          rebuild (base_epoch a) o (some m'),
          ground (arith, combine_owners-agree (owner_id a) (owner_id b) d),
          owner_id-rebuild (base_epoch a) o (some m'),
        )
      ]

older_refused :
    (a b : StorageFlags) (added : ℕ)
    → base_epoch b < base_epoch a
    → combine_added_bytes a b added ≡ err different_base_epoch
unfolding combine_added_bytes
older_refused a b added h = ground arith

-- Whether a merge of added bytes succeeds, and with which owner, on every branch: newer flags are
-- not merged with flags of an older base epoch; owners that differ are refused; any other merge
-- succeeds, with the owner that one of the two has.
combine_added_bytes-cases :
    (a b : StorageFlags) (added : ℕ)
    → (base_epoch b < base_epoch a → combine_added_bytes a b added ≡ err different_base_epoch)
      × (base_epoch a ≤ base_epoch b
          → ¬ (OwnersAgree (owner_id a) (owner_id b))
          → combine_added_bytes a b added ≡ err different_owners)
      × (base_epoch a ≤ base_epoch b
          → OwnersAgree (owner_id a) (owner_id b)
          → (c : StorageFlags) × (combine_added_bytes a b added ≡ ok c)
            × (owner_id c ≡ either_owner (owner_id a) (owner_id b)))
combine_added_bytes-cases a b added =
    (older_refused a b added, owners_differ a b added, owners_agree a b added)
