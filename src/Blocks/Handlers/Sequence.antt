-- ===== src/Blocks/Handlers/Sequence.antt =====
-- The handlers of dash-abci/src/abci/handlers.rs one after the other.
use rs_platform.Common.{
  Option, ℕ, ◌≡◌, ◌≢◌, refl, ap, ◌∙◌, false, none, some, List, Bytes, ◌==◌, Result, ok, err, ◌>>=◌,
  >>=-eq-ok, ◌%◌, u32_mod, arith,
}
use rs_platform.Flags.{StorageFlags}
use rs_platform.Pools.{
  Decimal, GroveError, path_not_found, path_key_not_found, path_parent_layer_not_found,
  other_grove_error, PoolResult, corrupted_code, item, other_element, Element, u64_from_be_bytes,
  pools_path,
}
use rs_platform.Pools.EpochInfo.{calculate}
use rs_platform.Pools.BlockFees.{FeesAggregate}
use rs_platform.Payouts.{BatchOp, Identity, RewardShare, Amounts}
use rs_platform.Blocks.{Grove}
use rs_platform.Blocks.Reads.{genesis_time_of, fetch_genesis_time, key_genesis_time}
use rs_platform.Blocks.Process.{process_block_fees}
use rs_platform.Blocks.Handlers.{
  BlockBeginRequest, BlockBeginResponse, Platform, from_block_begin_request,
  from_process_block_fees_result, get_genesis_time, set_genesis_time, block_begin, block_end,
}

genesis_time_of-ne-none : (found : Result GroveError Element) → genesis_time_of found ≢ ok none
unfolding genesis_time_of
genesis_time_of-ne-none (err path_not_found) h = cc
genesis_time_of-ne-none (err path_key_not_found) h = cc
genesis_time_of-ne-none (err path_parent_layer_not_found) h = cc
genesis_time_of-ne-none (err other_grove_error) h = cc
genesis_time_of-ne-none (ok (item bytes)) h =
    let (time, read, same) = >>=-eq-ok (u64_from_be_bytes bytes) _ h in cc
genesis_time_of-ne-none (ok other_element) h = cc

-- The stored genesis time is never reported as missing, whatever GroveDB answers: a missing item is
-- an error too.
fetch_genesis_time-ne-none : (g : Grove) → fetch_genesis_time g ≢ ok none
unfolding fetch_genesis_time
fetch_genesis_time-ne-none g = genesis_time_of-ne-none (g.get pools_path key_genesis_time)

set_genesis_time-first :
    (g : Grove) (platform : Platform) (request : BlockBeginRequest)
    (set : Platform × ℕ × List BatchOp)
    → request.block_height ≡ 1
    → set_genesis_time g platform request ≡ ok set
    → set.0.genesis_time_ms ≡ some request.block_time_ms
unfolding set_genesis_time
set_genesis_time-first g platform request set e h = ground arith

set_genesis_time-cached :
    (g : Grove) (platform : Platform) (request : BlockBeginRequest)
    (set : Platform × ℕ × List BatchOp) (time : ℕ)
    → (request.block_height == 1) ≡ false
    → platform.genesis_time_ms ≡ some time
    → set_genesis_time g platform request ≡ ok set
    → (set.0 ≡ platform) × (set.1 ≡ time)
unfolding set_genesis_time get_genesis_time
set_genesis_time-cached g platform request set time e c h =
    let found = rw (e, c) at h in (ground arith, ground arith)

module _ (d : Decimal) (prepare_withdrawals : ℕ → Bytes → PoolResult (List Bytes)) where
  block_begin_lem :
      (g : Grove) (platform later : Platform) (request : BlockBeginRequest)
      (response : BlockBeginResponse) (ops : List BatchOp)
      → block_begin g d prepare_withdrawals platform request ≡ ok (later, response, ops)
      → (set : Platform × ℕ × List BatchOp) × (set_genesis_time g platform request ≡ ok set)
        × (calculate d set.1 request.block_time_ms request.previous_block_time_ms
            ≡ ok response.epoch_info)
        × (later ≡ record set.0 {
          block_execution_context = some (record {
            block_info = from_block_begin_request request;
            epoch_info = response.epoch_info;
          });
        })
  unfolding block_begin from_block_begin_request
  block_begin_lem g platform later request response ops h =
      let (set, p, rest) = >>=-eq-ok (set_genesis_time g platform request) _ h in
      let (info, q, rest2) =
        >>=-eq-ok (calculate d set.1 request.block_time_ms request.previous_block_time_ms) _ rest in
      let (withdrawals, r, same) =
        >>=-eq-ok
          (prepare_withdrawals (request.block_height % u32_mod) request.validator_set_quorum_hash) _
          rest2 in
      (set, p, ground (arith, q, same), ground (arith, same))

  -- Blocks that begin one after the other, none at height 1, each on what the last one left and on
  -- any storage.
  pub data LaterBlocks (s : Platform) : Platform → Type 0 where
    none_yet : LaterBlocks s s
    begins :
        {t u : Platform} (g : Grove) (request : BlockBeginRequest) (response : BlockBeginResponse)
        (ops : List BatchOp)
        → LaterBlocks s t
        → (request.block_height == 1) ≡ false
        → block_begin g d prepare_withdrawals t request ≡ ok (u, response, ops)
        → LaterBlocks s u

  later_block_lem :
      (g : Grove) (platform later : Platform) (request : BlockBeginRequest)
      (response : BlockBeginResponse) (ops : List BatchOp) (time : ℕ)
      → platform.genesis_time_ms ≡ some time
      → (request.block_height == 1) ≡ false
      → block_begin g d prepare_withdrawals platform request ≡ ok (later, response, ops)
      → (later.genesis_time_ms ≡ some time)
        × (calculate d time request.block_time_ms request.previous_block_time_ms
            ≡ ok response.epoch_info)
  later_block_lem g platform later request response ops time cached f p =
      let (set, r, info, same) = block_begin_lem g platform later request response ops p in
      let (kept, read) = set_genesis_time-cached g platform request set time f cached r in
      (
        ap (λ (s : Platform). s.genesis_time_ms) same
            ∙ ap (λ (s : Platform). s.genesis_time_ms) kept
            ∙ cached,
        rw (← read) info,
      )

  LaterBlocks-cached :
      {s t : Platform} (time : ℕ)
      → s.genesis_time_ms ≡ some time
      → LaterBlocks s t
      → t.genesis_time_ms ≡ some time
  LaterBlocks-cached time cached none_yet = cached
  LaterBlocks-cached {t = u} time cached (begins {t} g request response ops before f p) =
      (later_block_lem g t u request response ops time (LaterBlocks-cached time cached before) f
        p).0

  -- After a block has begun at height 1, whatever was cached before it, every later block that
  -- begins, after any number of blocks, counts its epochs from the time of the block at height 1,
  -- whatever is stored.
  pub block_begin-genesis_time :
      (g h : Grove) (platform first before after : Platform) (genesis request : BlockBeginRequest)
      (response answer : BlockBeginResponse) (ops more : List BatchOp)
      → genesis.block_height ≡ 1
      → block_begin g d prepare_withdrawals platform genesis ≡ ok (first, response, ops)
      → LaterBlocks first before
      → (request.block_height == 1) ≡ false
      → block_begin h d prepare_withdrawals before request ≡ ok (after, answer, more)
      → calculate d genesis.block_time_ms request.block_time_ms request.previous_block_time_ms
        ≡ ok answer.epoch_info
  block_begin-genesis_time g h platform first before after genesis request response answer ops more
        e p blocks f q =
      let (set, r, info, same) = block_begin_lem g platform first genesis response ops p in
      let cached : first.genesis_time_ms ≡ some genesis.block_time_ms =
        ap (λ (kept : Platform). kept.genesis_time_ms) same
        ∙ set_genesis_time-first g platform genesis set e r in
      (later_block_lem h before after request answer more genesis.block_time_ms
        (LaterBlocks-cached genesis.block_time_ms cached blocks) f q).1

  -- The end of a block processes its fees as those of the block that began last, with the epoch
  -- info that was reported for it, whatever GroveDB holds by then.
  block_end-block_begin :
      (a : Amounts d) (fetch_identity : Bytes → PoolResult (Identity × Option StorageFlags))
      (to_buffer : Identity → PoolResult Bytes) (get_shares : Bytes → PoolResult (List RewardShare))
      (g h : Grove) (platform later : Platform) (request : BlockBeginRequest)
      (response : BlockBeginResponse) (ops : List BatchOp) (fees : FeesAggregate)
      → block_begin g d prepare_withdrawals platform request ≡ ok (later, response, ops)
      → block_end h d a fetch_identity to_buffer get_shares later fees ≡ (
          process_block_fees d a fetch_identity to_buffer get_shares h
            (from_block_begin_request request)
            response.epoch_info
            fees
          >>= λ done. ok (from_process_block_fees_result done.1, done.0))
  unfolding block_end
  block_end-block_begin a fetch_identity to_buffer get_shares g h platform later request response
        ops fees p =
      let (set, r, info, same) = block_begin_lem g platform later request response ops p in
      rw same refl

-- The end of a block that has not begun is an error.
pub block_end-not_begun :
    (d : Decimal) (a : Amounts d)
    (fetch_identity : Bytes → PoolResult (Identity × Option StorageFlags))
    (to_buffer : Identity → PoolResult Bytes) (get_shares : Bytes → PoolResult (List RewardShare))
    (g : Grove) (platform : Platform) (fees : FeesAggregate)
    → platform.block_execution_context ≡ none
    → block_end g d a fetch_identity to_buffer get_shares platform fees ≡ err corrupted_code
unfolding block_end
block_end-not_begun d a fetch_identity to_buffer get_shares g platform fees e = rw e refl
