-- ===== src/Blocks/Trees.antt =====
-- The trees of epochs among the operations of the blocks
-- (dash-abci/src/execution/fee_pools/process_block_fees.rs).
use rs_platform.Common.{
  ℕ, zero, suc, ◌+◌, ◌-◌, ◌%◌, ◌≤◌, ◌≡◌, refl, ap, ◌∙◌, List, [], ◌∷◌, ◌++◌, map, Bytes, Option, ok,
  >>=-eq-ok, ok_inj, sym, u16_mod, arith, append-nil, Bool-cases, inl, inr, ◌==◌,
}
use rs_platform.Pools.{
  Decimal, GroveOp, perpetual_storage_epochs, epoch_storage_offset, Epoch, new_epoch,
  genesis_epoch_index, get_aggregate_storage_fees_from_distribution_pool,
}
use rs_platform.Pools.Storage.{distribute_storage_fees}
use rs_platform.Pools.Epochs.{key_of, new_epoch_lem}
use rs_platform.Pools.EpochInfo.{EpochInfo}
use rs_platform.Payouts.{
  BatchOp, write, insert_empty_tree, delete, delete_tree, insert_identity_tree, insert_identity,
}
use rs_platform.Blocks.{
  Grove, add_init_empty_without_storage_operations, add_init_current_operations,
}
use rs_platform.Blocks.Process.{
  BlockInfo, last_initiated_epoch_index, init_thousandth_epochs, distribute_unless_genesis,
  add_process_epoch_change_operations, default_original_fee_multiplier,
}

-- The epochs' trees among what a batch inserts.
abbrev pub epoch_trees : List BatchOp → List Bytes
epoch_trees [] = []
epoch_trees (insert_empty_tree [] key ∷ ops) = key ∷ epoch_trees ops
epoch_trees (insert_empty_tree (x ∷ path) key ∷ ops) = epoch_trees ops
epoch_trees (write op ∷ ops) = epoch_trees ops
epoch_trees (delete path key ∷ ops) = epoch_trees ops
epoch_trees (delete_tree path key ∷ ops) = epoch_trees ops
epoch_trees (insert_identity_tree id flags ∷ ops) = epoch_trees ops
epoch_trees (insert_identity id bytes flags ∷ ops) = epoch_trees ops

unfoldable pub keys_from : ℕ → ℕ → List Bytes
keys_from zero i = []
keys_from (suc n) i = key_of i ∷ keys_from n (suc i)

pub keys_from-append : (m n i : ℕ) → keys_from (m + n) i ≡ keys_from m i ++ keys_from n (i + m)
unfolding keys_from
keys_from-append zero n i =
    let none_later : i + 0 ≡ i = omega arith in
    let none_more : 0 + n ≡ n = omega arith in rw (none_more, none_later) refl
keys_from-append (suc m) n i =
    let one_more : suc m + n ≡ suc (m + n) = omega arith in
    let one_later : i + suc m ≡ suc i + m = omega arith in
    rw (one_more, one_later, keys_from-append m n (suc i)) refl

pub epoch_trees-append :
    (xs ys : List BatchOp) → epoch_trees (xs ++ ys) ≡ epoch_trees xs ++ epoch_trees ys
epoch_trees-append [] ys = refl
epoch_trees-append (insert_empty_tree [] key ∷ xs) ys =
    ap (λ keys. key ∷ keys) (epoch_trees-append xs ys)
epoch_trees-append (insert_empty_tree (x ∷ path) key ∷ xs) ys = epoch_trees-append xs ys
epoch_trees-append (write op ∷ xs) ys = epoch_trees-append xs ys
epoch_trees-append (delete path key ∷ xs) ys = epoch_trees-append xs ys
epoch_trees-append (delete_tree path key ∷ xs) ys = epoch_trees-append xs ys
epoch_trees-append (insert_identity_tree id flags ∷ xs) ys = epoch_trees-append xs ys
epoch_trees-append (insert_identity id bytes flags ∷ xs) ys = epoch_trees-append xs ys

init_thousandth_epochs_lem :
    (n i : ℕ)
    → i + n + perpetual_storage_epochs + epoch_storage_offset ≤ u16_mod
    → (ops : List BatchOp) × (init_thousandth_epochs n i ≡ ok ops)
      × (epoch_trees ops ≡ keys_from n (i + perpetual_storage_epochs))
unfolding init_thousandth_epochs add_init_empty_without_storage_operations keys_from
init_thousandth_epochs_lem zero i h = ([], refl, refl)
init_thousandth_epochs_lem (suc n) i h =
    let no_wrap : (i + perpetual_storage_epochs) % u16_mod ≡ i + perpetual_storage_epochs =
      omega arith in
    let later : suc i + perpetual_storage_epochs ≡ suc (i + perpetual_storage_epochs) =
      omega arith in
    with_more no_wrap later (init_thousandth_epochs_lem n (suc i) (omega arith))
  where
    with_more :
        (i + perpetual_storage_epochs) % u16_mod ≡ i + perpetual_storage_epochs
        → suc i + perpetual_storage_epochs ≡ suc (i + perpetual_storage_epochs)
        → ((more : List BatchOp) × (init_thousandth_epochs n (suc i) ≡ ok more)
            × (epoch_trees more ≡ keys_from n (suc i + perpetual_storage_epochs)))
        → (ops : List BatchOp) × (init_thousandth_epochs (suc n) i ≡ ok ops)
          × (epoch_trees ops ≡ keys_from (suc n) (i + perpetual_storage_epochs))
    with_more no_wrap later (more, e, trees) = (
      insert_empty_tree [] (key_of (i + perpetual_storage_epochs)) ∷ more,
      rw (no_wrap, new_epoch_lem (i + perpetual_storage_epochs) (omega arith), e) refl,
      rw (trees, later) refl,
    )

epoch_trees-write : (ops : List GroveOp) → epoch_trees (map write ops) ≡ []
epoch_trees-write [] = refl
epoch_trees-write (op ∷ ops) = epoch_trees-write ops

module _ (d : Decimal) (g : Grove) where
  distribute_unless_genesis-trees :
      (epoch : Epoch) (done : List BatchOp × Option ℕ)
      → distribute_unless_genesis d g epoch ≡ ok done
      → epoch_trees done.0 ≡ []
  unfolding distribute_unless_genesis
  distribute_unless_genesis-trees epoch done h =
      elim (Bool-cases (epoch.index == genesis_epoch_index)) [
        | inl first ↦
            let same = rw first at h in
            let nothing : done.0 ≡ [] = ground (arith, same) in ap epoch_trees nothing
        | inr later ↦
            let distributed = rw later at h in
            let (credits, a, rest) =
              >>=-eq-ok (get_aggregate_storage_fees_from_distribution_pool g.get) _ distributed in
            let (written, b, same) =
              >>=-eq-ok (distribute_storage_fees d g.get credits epoch.index) _ rest in
            let writes : map write written.0 ≡ done.0 = ground (arith, same) in
            ap epoch_trees (sym writes) ∙ epoch_trees-write written.0
      ]

  inits_lem :
      (info : EpochInfo) (first n : ℕ) (inits : List BatchOp)
      → last_initiated_epoch_index info.previous_epoch_index ≡ first
      → info.current_epoch_index + 1 - first ≡ n
      → first + n + perpetual_storage_epochs + epoch_storage_offset ≤ u16_mod
      → init_thousandth_epochs
          (info.current_epoch_index + 1 - last_initiated_epoch_index info.previous_epoch_index)
          (last_initiated_epoch_index info.previous_epoch_index)
        ≡ ok inits
      → epoch_trees inits ≡ keys_from n (first + perpetual_storage_epochs)
  inits_lem info first n inits p q small h =
      let (ops, made, trees) = init_thousandth_epochs_lem n first small in
      let looped = rw (p, q) at h in
      let same : ops ≡ inits = ok_inj (sym made ∙ looped) in ap epoch_trees (sym same) ∙ trees

  -- A change of epoch creates the trees of the thousandth successors of the epochs that its loop
  -- goes through.
  pub add_process_epoch_change_operations-trees :
      (block : BlockInfo) (info : EpochInfo) (done : List BatchOp × Option ℕ) (first n : ℕ)
      → last_initiated_epoch_index info.previous_epoch_index ≡ first
      → info.current_epoch_index + 1 - first ≡ n
      → first + n + perpetual_storage_epochs + epoch_storage_offset ≤ u16_mod
      → add_process_epoch_change_operations d g block info ≡ ok done
      → epoch_trees done.0 ≡ keys_from n (first + perpetual_storage_epochs)
  unfolding add_process_epoch_change_operations add_init_current_operations
  add_process_epoch_change_operations-trees block info done first n p q small h =
      let (inits, a, rest) =
        >>=-eq-ok
          (init_thousandth_epochs
            (info.current_epoch_index + 1 - last_initiated_epoch_index info.previous_epoch_index)
            (last_initiated_epoch_index info.previous_epoch_index))
          _ h in
      let (current, b, rest2) = >>=-eq-ok (new_epoch info.current_epoch_index) _ rest in
      let (distributed, c, same) = >>=-eq-ok (distribute_unless_genesis d g current) _ rest2 in
      let start =
        add_init_current_operations current default_original_fee_multiplier block.block_height
          block.block_time_ms in
      let made : inits ++ (start ++ distributed.0) ≡ done.0 = ground (arith, same) in
      ap epoch_trees (sym made)
      ∙ epoch_trees-append inits (start ++ distributed.0)
      ∙ rw (distribute_unless_genesis-trees current distributed c)
          (append-nil (epoch_trees inits) ∙ inits_lem info first n inits p q small a)
