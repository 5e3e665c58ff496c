-- ===== src/Blocks/Liveness.antt =====
-- How many blocks an epoch's payouts take
-- (dash-abci/src/execution/fee_pools/fee_distribution.rs).
use rs_platform.Common.{
  Bool, true, false, ◌&&◌, ◌||◌, ◌++◌, bytes_eq, bytes_eq_refl, sym, Option, ℕ, zero, suc, ◌+◌, ◌*◌,
  ◌≤◌, ◌<◌, ◌≡◌, refl, ap, ◌∙◌, List, [], ◌∷◌, map, Bytes, ltb, if◌then◌else◌, ok, >>=-eq-ok,
  length, take, All, u64_mod, arith,
}
use rs_platform.Flags.{StorageFlags}
use rs_platform.Pools.{
  Decimal, PoolResult, Element, item, Epoch, new_epoch, u64_to_be_bytes, credits_of,
}
use rs_platform.Pools.Epochs.{u64_from_be_bytes-u64_to_be_bytes}
use rs_platform.Payouts.{
  write, insert_empty_tree, delete, delete_tree, insert_identity_tree, insert_identity, BatchOp,
  Identity, RewardShare, Amounts, pay_proposers,
}
use rs_platform.Blocks.{
  Grove, get_proposers_vec_path, add_mark_as_paid_operations, add_delete_proposers_operations,
}
use rs_platform.Blocks.Reads.{
  block_counts_of, get_epoch_proposers, get_epoch_total_credits_for_distribution,
}
use rs_platform.Blocks.Unpaid.{
  UnpaidEpoch, block_count, add_epoch_pool_to_proposers_payout_operations, mark_if_paid,
  proposers_limit,
}

abbrev pub stored : Bytes × ℕ → Bytes × Element
stored proposer = (proposer.0, item (u64_to_be_bytes proposer.1))

abbrev pub CountFits : Bytes × ℕ → Type 0
CountFits proposer = proposer.1 < u64_mod

-- The proposers of an epoch that GroveDB holds, in the order of their hashes.
abbrev pub Holds : Grove → Epoch → List (Bytes × ℕ) → Type 0
Holds g epoch proposers =
    All CountFits proposers
    × ((limit : ℕ)
        → g.query_all (get_proposers_vec_path epoch) limit ≡ ok (map stored (take limit proposers)))

block_counts_of-stored :
    (limit : ℕ) (proposers : List (Bytes × ℕ))
    → All CountFits proposers
    → block_counts_of (map stored (take limit proposers)) ≡ ok (take limit proposers)
unfolding block_counts_of credits_of
block_counts_of-stored zero proposers h = refl
block_counts_of-stored (suc n) [] h = refl
block_counts_of-stored (suc n) (proposer ∷ proposers) h =
    rw (u64_from_be_bytes-u64_to_be_bytes proposer.1 h.0, block_counts_of-stored n proposers h.1)
      refl

pub length-take :
    {A : Type 0} (n : ℕ) (xs : List A)
    → length (take n xs) ≡ (if ltb n (length xs) then n else length xs)
length-take zero [] = refl
length-take zero (x ∷ xs) = ground arith
length-take (suc n) [] = ground arith
length-take (suc n) (x ∷ xs) = ground (arith, length-take n xs)

-- Whether two paths are equal, and whether operations delete a key of a tree.
abbrev pub paths_eq : List Bytes → List Bytes → Bool
paths_eq [] [] = true
paths_eq (x ∷ xs) (y ∷ ys) = bytes_eq x y && paths_eq xs ys
paths_eq _ _ = false

abbrev pub deletes : List Bytes → Bytes → List BatchOp → Bool
deletes path key [] = false
deletes path key (delete at k ∷ ops) = (paths_eq at path && bytes_eq k key) || deletes path key ops
deletes path key (_ ∷ ops) = deletes path key ops

-- The proposers that are left in the tree at a path when the operations of a batch are applied.
abbrev pub remaining : List Bytes → List BatchOp → List (Bytes × ℕ) → List (Bytes × ℕ)
remaining path ops [] = []
remaining path ops (proposer ∷ proposers) =
    let rest = remaining path ops proposers in
    if deletes path proposer.0 ops then rest else proposer ∷ rest

paths_eq_refl : (path : List Bytes) → paths_eq path path ≡ true
paths_eq_refl [] = refl
paths_eq_refl (x ∷ path) = rw (bytes_eq_refl x) (paths_eq_refl path)

-- The hashes of proposers are among those that operations delete.
abbrev AreDeleted : List Bytes → List BatchOp → List (Bytes × ℕ) → Type 0
AreDeleted path ops proposers =
    All (λ (proposer : Bytes × ℕ). deletes path proposer.0 ops ≡ true) proposers

deletes-later :
    (path : List Bytes) (key : Bytes) (xs ys : List BatchOp)
    → deletes path key ys ≡ true
    → deletes path key (xs ++ ys) ≡ true
deletes-later path key [] ys h = h
deletes-later path key (delete at k ∷ xs) ys h = ground (arith, deletes-later path key xs ys h)
deletes-later path key (write op ∷ xs) ys h = deletes-later path key xs ys h
deletes-later path key (insert_empty_tree at k ∷ xs) ys h = deletes-later path key xs ys h
deletes-later path key (delete_tree at k ∷ xs) ys h = deletes-later path key xs ys h
deletes-later path key (insert_identity_tree id flags ∷ xs) ys h = deletes-later path key xs ys h
deletes-later path key (insert_identity id bytes flags ∷ xs) ys h = deletes-later path key xs ys h

AreDeleted-later :
    (path : List Bytes) (xs ys : List BatchOp) (proposers : List (Bytes × ℕ))
    → AreDeleted path ys proposers
    → AreDeleted path (xs ++ ys) proposers
AreDeleted-later path xs ys [] h = tt
AreDeleted-later path xs ys (proposer ∷ proposers) h =
    (deletes-later path proposer.0 xs ys h.0, AreDeleted-later path xs ys proposers h.1)

-- The operations that delete proposers delete each of them.
add_delete_proposers_operations-AreDeleted :
    (epoch : Epoch) (proposers : List (Bytes × ℕ))
    → AreDeleted
        (get_proposers_vec_path epoch)
        (add_delete_proposers_operations epoch
          (map (λ (proposer : Bytes × ℕ). proposer.0) proposers))
        proposers
unfolding add_delete_proposers_operations
add_delete_proposers_operations-AreDeleted epoch [] = tt
add_delete_proposers_operations-AreDeleted epoch (proposer ∷ proposers) =
    let path = get_proposers_vec_path epoch in
    (
      rw (paths_eq_refl path, bytes_eq_refl proposer.0) refl,
      AreDeleted-later path (delete path proposer.0 ∷ [])
          (add_delete_proposers_operations epoch (map (λ (paid : Bytes × ℕ). paid.0) proposers))
          proposers (add_delete_proposers_operations-AreDeleted epoch proposers),
    )

payout-AreDeleted :
    (epoch at : Epoch) (proposers found : List (Bytes × ℕ)) (paid ops : List BatchOp)
    → epoch ≡ at
    → proposers ≡ found
    → paid ++ add_delete_proposers_operations at (map (λ (proposer : Bytes × ℕ). proposer.0) found)
      ≡ ops
    → AreDeleted (get_proposers_vec_path epoch) ops proposers
payout-AreDeleted epoch at proposers found paid ops e p q =
    let deletions =
      add_delete_proposers_operations at (map (λ (proposer : Bytes × ℕ). proposer.0) found) in
    rw (e, p, ← q)
      (AreDeleted-later (get_proposers_vec_path at) paid deletions found
        (add_delete_proposers_operations-AreDeleted at found))

remaining-le :
    (path : List Bytes) (ops : List BatchOp) (proposers : List (Bytes × ℕ))
    → length (remaining path ops proposers) ≤ length proposers
remaining-le path ops [] = omega arith
remaining-le path ops (proposer ∷ proposers) = ground (arith, remaining-le path ops proposers)

-- Where the first proposers are deleted, only others are left.
remaining-deleted :
    (path : List Bytes) (ops : List BatchOp) (n : ℕ) (proposers : List (Bytes × ℕ))
    → AreDeleted path ops (take n proposers)
    → length (remaining path ops proposers) + length (take n proposers) ≤ length proposers
remaining-deleted path ops zero proposers h = omega (arith, remaining-le path ops proposers)
remaining-deleted path ops (suc n) [] h = omega arith
remaining-deleted path ops (suc n) (proposer ∷ proposers) h =
    rw h.0 (omega (arith, remaining-deleted path ops n proposers h.1))

pub get_epoch_proposers_lem :
    (g : Grove) (epoch : Epoch) (limit : ℕ) (proposers : List (Bytes × ℕ))
    → Holds g epoch proposers
    → get_epoch_proposers g epoch limit ≡ ok (take limit proposers)
unfolding get_epoch_proposers
get_epoch_proposers_lem g epoch limit proposers (fits, held) =
    rw (held limit) (block_counts_of-stored limit proposers fits)

module _ (d : Decimal) (a : Amounts d)
    (fetch_identity : Bytes → PoolResult (Identity × Option StorageFlags))
    (to_buffer : Identity → PoolResult Bytes)
    (get_shares : Bytes → PoolResult (List RewardShare)) where
  -- A block that pays from an epoch and does not mark it as paid: the proposers that the epoch has
  -- before it, and those that the operations of the payout leave.
  pub data PayoutRound (s t : List (Bytes × ℕ)) : Type 0 where
    pays :
        (g : Grove) (unpaid : UnpaidEpoch) (epoch : Epoch) (current limit count : ℕ)
        (ops : List BatchOp)
        → limit ≡ proposers_limit current unpaid.epoch_index
        → new_epoch unpaid.epoch_index ≡ ok epoch
        → Holds g epoch s
        → 50 ≤ limit
        → add_epoch_pool_to_proposers_payout_operations d a fetch_identity to_buffer get_shares g
            unpaid limit
          ≡ ok (ops, count)
        → mark_if_paid unpaid count limit ≡ ok []
        → t ≡ remaining (get_proposers_vec_path epoch) ops s
        → PayoutRound s t

  -- Blocks in a row none of which marks the epoch as paid.
  pub data UnpaidRounds (s : List (Bytes × ℕ)) : ℕ → List (Bytes × ℕ) → Type 0 where
    none_yet : UnpaidRounds s 0 s
    one_more :
        {n : ℕ} {t u : List (Bytes × ℕ)}
        → UnpaidRounds s n t
        → PayoutRound t u
        → UnpaidRounds s (suc n) u

  -- The number of proposers that a payout pays, all of which its operations delete.
  payout_lem :
      (g : Grove) (unpaid : UnpaidEpoch) (epoch : Epoch) (limit count : ℕ) (ops : List BatchOp)
      (proposers : List (Bytes × ℕ))
      → new_epoch unpaid.epoch_index ≡ ok epoch
      → Holds g epoch proposers
      → add_epoch_pool_to_proposers_payout_operations d a fetch_identity to_buffer get_shares g
          unpaid limit
        ≡ ok (ops, count)
      → (count ≡ length (take limit proposers))
        × AreDeleted (get_proposers_vec_path epoch) ops (take limit proposers)
  unfolding add_epoch_pool_to_proposers_payout_operations
  payout_lem g unpaid epoch limit count ops proposers e held h =
      let (at, p, rest) = >>=-eq-ok (new_epoch unpaid.epoch_index) _ h in
      let (fees, q, rest2) = >>=-eq-ok (get_epoch_total_credits_for_distribution g at) _ rest in
      let (blocks, r, rest3) = >>=-eq-ok (block_count unpaid) _ rest2 in
      let (found, f, rest4) = >>=-eq-ok (get_epoch_proposers g at limit) _ rest3 in
      let (paid, o, same) =
        >>=-eq-ok
          (pay_proposers d a fetch_identity to_buffer get_shares found (d.from fees) (d.from blocks)
            (d.from 0))
          _ rest4 in
      let one_epoch : epoch ≡ at = ground (arith, e, p) in
      let taken : take limit proposers ≡ found =
        ground (arith, f, rw one_epoch at (get_epoch_proposers_lem g epoch limit proposers held)) in
      let counted : count ≡ length found = ground (arith, same) in
      let made : paid
            ++ add_delete_proposers_operations at (map (λ (proposer : Bytes × ℕ). proposer.0) found)
          ≡ ops =
        ground (arith, same) in
      (
        counted ∙ ap length (sym taken),
        payout-AreDeleted epoch at (take limit proposers) found paid ops one_epoch taken made,
      )

  -- A round pays 50 proposers at least.
  PayoutRound-unpaid : {s t : List (Bytes × ℕ)} → PayoutRound s t → length t + 50 ≤ length s
  unfolding mark_if_paid add_mark_as_paid_operations
  PayoutRound-unpaid {s} (pays g unpaid epoch current limit count ops c e held many h p q) =
      let (counted, deleted) = payout_lem g unpaid epoch limit count ops s e held h in
      let left = remaining-deleted (get_proposers_vec_path epoch) ops limit s deleted in
      let full : limit ≤ count = ground arith in
      omega (arith, left, counted, full, many, ap length q)

  -- Blocks that pay from an epoch without marking it as paid, each with a limit of 50 proposers at
  -- least and from the proposers that the operations of the one before leave, leave 50 proposers
  -- fewer each, so that there are at most a fiftieth as many such blocks as there were proposers.
  pub UnpaidRounds-bound :
      {s : List (Bytes × ℕ)} {n : ℕ} {t : List (Bytes × ℕ)}
      → UnpaidRounds s n t
      → n * 50 + length t ≤ length s
  UnpaidRounds-bound none_yet = omega arith
  UnpaidRounds-bound (one_more {n} rounds round) =
      omega (arith, UnpaidRounds-bound rounds, PayoutRound-unpaid round)
