-- ===== src/Blocks/Chain.antt =====
-- Chains of blocks: which epochs the changes of epoch create ahead
-- (dash-abci/src/execution/fee_pools/process_block_fees.rs with epoch.rs).
use rs_platform.Common.{
  ℕ, suc, ◌+◌, ◌-◌, ◌%◌, ◌≤◌, ◌<◌, ◌≡◌, refl, sym, ap, subst, ◌∙◌, true, false, none, some, Option,
  List, [], ◌++◌, ok, ltb, u16_mod, u64_mod, arith, inl, inr, Bool-cases,
}
use rs_platform.Pools.{Decimal, perpetual_storage_epochs, epoch_storage_offset}
use rs_platform.Pools.EpochInfo.{EpochInfo, epoch_at, calculate, default_epoch_info}
use rs_platform.Pools.EpochInfo.Blocks.{info_at, calculate-epoch_at}
use rs_platform.Payouts.{BatchOp}
use rs_platform.Blocks.{Grove}
use rs_platform.Blocks.Process.{BlockInfo, epoch_change_operations}
use rs_platform.Blocks.Trees.{
  epoch_trees, keys_from, keys_from-append, epoch_trees-append,
  add_process_epoch_change_operations-trees,
}

-- The chain so far: the last block's time, its epoch, and the operations of all changes of epoch.
pub record Chain : Type 0 where
  pub time : ℕ
  pub current : ℕ
  pub created : List BatchOp

module _ (d : Decimal) (genesis_time : ℕ) where
  -- A further block, not before the last one.
  pub data BlockStep (s : Chain) (t : Chain) : Type 0 where
    block :
        (g : Grove) (fresh : BlockInfo) (info : EpochInfo) (more : List BatchOp) (left : Option ℕ)
        → s.time ≤ t.time
        → t.time < u64_mod
        → epoch_at genesis_time t.time + 1 + perpetual_storage_epochs + epoch_storage_offset
          ≤ u16_mod
        → calculate d genesis_time t.time (some s.time) ≡ ok info
        → epoch_change_operations d g info.is_epoch_change fresh info ≡ ok (more, left)
        → t.current ≡ info.current_epoch_index
        → t.created ≡ s.created ++ more
        → BlockStep s t

  pub data Reaches (s : Chain) : Chain → Type 0 where
    here : Reaches s s
    next : {t u : Chain} → Reaches s t → BlockStep t u → Reaches s u

  -- The genesis block.
  pub record IsGenesis (s : Chain) : Type 0 where
    pub at_genesis : s.time ≡ genesis_time
    pub first_epoch : s.current ≡ 0
    pub storage : Grove
    pub block_info : BlockInfo
    pub left : Option ℕ
    pub first_created :
        epoch_change_operations d storage true block_info default_epoch_info ≡ ok (s.created, left)

  pub record IsCreatedAhead (s : Chain) : Type 0 where
    pub since : genesis_time ≤ s.time
    pub index : s.current ≡ epoch_at genesis_time s.time
    pub trees : epoch_trees s.created ≡ keys_from (suc s.current) perpetual_storage_epochs

  change-info_at :
      (g : Grove) (fresh : BlockInfo) (i j : ℕ)
      → j ≤ i
      → i + 1 + perpetual_storage_epochs + epoch_storage_offset ≤ u16_mod
      → (info : EpochInfo) (more : List BatchOp) (left : Option ℕ) → info_at i j ≡ ok info
      → epoch_change_operations d g info.is_epoch_change fresh info ≡ ok (more, left)
      → (epoch_trees more ≡ keys_from (i - j) (suc j + perpetual_storage_epochs))
        × (info.current_epoch_index ≡ i)
  unfolding keys_from
  change-info_at g fresh i j h k info more left e made = elim (Bool-cases (ltb j i)) [
    | inl later ↦
        let changed : EpochInfo = record {
          current_epoch_index = i;
          previous_epoch_index = some j;
          is_epoch_change = true;
        } in
        let same : info ≡ changed = ground arith in
        let first : (j + 1) % u16_mod ≡ suc j = ground arith in
        let count : i + 1 - suc j ≡ i - j = ground arith in
        let made_so : epoch_change_operations d g true fresh changed ≡ ok (more, left) =
          subst
            (λ (x : EpochInfo).
              epoch_change_operations d g x.is_epoch_change fresh x ≡ ok (more, left))
            same made in
        (
          add_process_epoch_change_operations-trees d g fresh changed (more, left) (suc j) (i - j)
              first count (ground arith) made_so,
          ap (λ (x : EpochInfo). x.current_epoch_index) same,
        )
    | inr still ↦
        let unchanged : EpochInfo = record {
          current_epoch_index = i;
          previous_epoch_index = none;
          is_epoch_change = false;
        } in
        let same : info ≡ unchanged = ground arith in
        let none_left : i - j ≡ 0 = ground arith in
        let made_so : epoch_change_operations d g false fresh unchanged ≡ ok (more, left) =
          subst
            (λ (x : EpochInfo).
              epoch_change_operations d g x.is_epoch_change fresh x ≡ ok (more, left))
            same made in
        let nothing : more ≡ [] = ground arith in
        (rw (nothing, none_left) refl, ap (λ (x : EpochInfo). x.current_epoch_index) same)
  ]

  BlockStep-IsCreatedAhead : {s t : Chain} → BlockStep s t → IsCreatedAhead s → IsCreatedAhead t
  BlockStep-IsCreatedAhead {s} {t}
        (block g fresh info more left later small room computes creates index adds) v =
      let i = epoch_at genesis_time t.time in
      let j = epoch_at genesis_time s.time in
      let grows : j ≤ i = omega (arith, v.since) in
      let reported =
        sym (calculate-epoch_at d genesis_time t.time s.time v.since later small) ∙ computes in
      let (trees, current) =
        change-info_at g fresh i j grows room info more left reported creates in
      let count : suc t.current ≡ suc s.current + (i - j) = omega (arith, v.index) in
      let start : perpetual_storage_epochs + suc s.current ≡ suc j + perpetual_storage_epochs =
        omega (arith, v.index) in
      record {
        since = omega (arith, v.since);
        index = index ∙ current;
        trees =
            ap epoch_trees adds
            ∙ epoch_trees-append s.created more
            ∙ rw
                (
                  v.trees,
                  trees,
                  count,
                  keys_from-append (suc s.current) (i - j) perpetual_storage_epochs,
                  start,
                )
                refl;
      }

  Reaches-IsCreatedAhead : {s t : Chain} → IsCreatedAhead s → Reaches s t → IsCreatedAhead t
  Reaches-IsCreatedAhead v here = v
  Reaches-IsCreatedAhead v (next r step) =
      BlockStep-IsCreatedAhead step (Reaches-IsCreatedAhead v r)

  IsGenesis-IsCreatedAhead : {s : Chain} → IsGenesis s → IsCreatedAhead s
  IsGenesis-IsCreatedAhead {s} v =
      let first_trees : epoch_trees s.created ≡ keys_from 1 perpetual_storage_epochs =
        add_process_epoch_change_operations-trees d v.storage v.block_info default_epoch_info
          (s.created, v.left) 0 1 refl refl (omega arith) v.first_created in
      record {
        since = omega (arith, v.at_genesis);
        index = ground (arith, v);
        trees =
            first_trees ∙ ap (λ n. keys_from (suc n) perpetual_storage_epochs) (sym v.first_epoch);
      }

  -- The changes of epoch of a chain of blocks have created the trees of the thousandth successors of
  -- all epochs up to the last block's.
  pub Reaches-created :
      {s t : Chain}
      → IsGenesis s
      → Reaches s t
      → (t.current ≡ epoch_at genesis_time t.time)
        × (epoch_trees t.created ≡ keys_from (suc t.current) perpetual_storage_epochs)
  Reaches-created v r =
      let ahead = Reaches-IsCreatedAhead (IsGenesis-IsCreatedAhead v) r in
      (ahead.index, ahead.trees)
