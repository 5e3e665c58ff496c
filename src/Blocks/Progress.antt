-- ===== src/Blocks/Progress.antt =====
-- Which epoch is paid next (`find_oldest_epoch_needing_payment` of
-- dash-abci/src/execution/fee_pools/fee_distribution.rs).
use rs_platform.Common.{
  ℕ, ◌-◌, ◌≤◌, ◌<◌, ◌≡◌, refl, ◌∙◌, ◌⊎◌, inl, inr, true, Option, none, some, [], ◌∷◌, Bytes, ◌==◌,
  ==→eq, Result, ok, err, >>=-eq-ok, All, arith, Bool-cases,
}
use rs_platform.Common.Int.{bytes_lt, bytes_le}
use rs_platform.Pools.{
  GroveError, Element, genesis_epoch_index, new_epoch, encode_epoch_index_key,
  decode_epoch_index_key, credits_of,
}
use rs_platform.Blocks.{Grove}
use rs_platform.Blocks.Reads.{
  start_of, get_first_epoch_start_block_height_between_epochs, get_unpaid_epoch_index,
  get_epoch_start_block_height,
}
use rs_platform.Blocks.Unpaid.{
  UnpaidEpoch, current_start_height, or_cached, next_unpaid, find_oldest_epoch_needing_payment,
}

decode_between :
    (from to index : ℕ) (from_key to_key key : Bytes)
    → encode_epoch_index_key from ≡ ok from_key
    → encode_epoch_index_key to ≡ ok to_key
    → bytes_lt from_key key ≡ true
    → bytes_le key to_key ≡ true
    → All (λ b. b < 256) key
    → decode_epoch_index_key key ≡ ok index
    → (from < index) × (index ≤ to)
unfolding encode_epoch_index_key decode_epoch_index_key bytes_lt
decode_between from to index from_key to_key [] e f h k l m = cc
decode_between from to index from_key to_key (x ∷ []) e f h k l m = cc
decode_between from to index from_key to_key (x ∷ y ∷ []) e f h k l m = ground arith
decode_between from to index from_key to_key (x ∷ y ∷ z ∷ r) e f h k l m = cc

module _ (g : Grove) where
  open g use {query_first_start, query_first_start-within}

  start_of-within :
      (from to : ℕ) (from_key to_key : Bytes) (found : Result GroveError (Option (Bytes × Element)))
      (index height : ℕ)
      → encode_epoch_index_key from ≡ ok from_key
      → encode_epoch_index_key to ≡ ok to_key
      → query_first_start from_key to_key ≡ found
      → start_of found ≡ ok (some (index, height))
      → (from < index) × (index ≤ to)
  start_of-within from to fk tk (err e) index height p q r h = cc
  start_of-within from to fk tk (ok none) index height p q r h = cc
  start_of-within from to fk tk (ok (some (key, element))) index height p q r h =
      let (v, counted, rest) = >>=-eq-ok (credits_of (ok element)) _ h in
      let (i, decoded, same) = >>=-eq-ok (decode_epoch_index_key key) _ rest in
      let (low, high, bytes) = query_first_start-within fk tk key element r in
      decode_between from to index fk tk key p q low high bytes (decoded ∙ ground arith)

  first_start-within :
      (from to index height : ℕ)
      → get_first_epoch_start_block_height_between_epochs g from to ≡ ok (some (index, height))
      → (from < index) × (index ≤ to)
  unfolding get_first_epoch_start_block_height_between_epochs
  first_start-within from to index height h =
      let (from_key, p, rest) = >>=-eq-ok (encode_epoch_index_key from) _ h in
      let (to_key, q, found) = >>=-eq-ok (encode_epoch_index_key to) _ rest in
      start_of-within from to from_key to_key (query_first_start from_key to_key) index height p q
        refl found

  or_cached-within :
      (unpaid current : ℕ) (cached : Option ℕ) (found : Option (ℕ × ℕ)) (next : ℕ × ℕ)
      → unpaid < current
      → get_first_epoch_start_block_height_between_epochs g unpaid current ≡ ok found
      → or_cached g current cached found ≡ ok next
      → (unpaid < next.0) × (next.0 ≤ current)
  or_cached-within unpaid current cached (some start) next h p e =
      ground (arith, first_start-within unpaid current start.0 start.1 p)
  or_cached-within unpaid current (some height) none next h p e = ground arith
  or_cached-within unpaid current none none next h p e = cc

  next_unpaid-within :
      (unpaid current : ℕ) (cached : Option ℕ) (next : ℕ × ℕ)
      → unpaid < current
      → next_unpaid g unpaid current cached ≡ ok next
      → (unpaid < next.0) × (next.0 ≤ current)
  unfolding next_unpaid
  next_unpaid-within unpaid current cached next h e = elim (Bool-cases (unpaid == current - 1)) [
    | inl last ↦
        let (height, p, q) = >>=-eq-ok (current_start_height g current cached) _ (rw last at e) in
        ground arith
    | inr earlier ↦
        let (found, p, q) =
          >>=-eq-ok (get_first_epoch_start_block_height_between_epochs g unpaid current) _
            (rw earlier at e) in
        or_cached-within unpaid current cached found next h p q
  ]

  -- While the unpaid index is not past the current one, an epoch is found only if it is before the
  -- current one; it is the unpaid one, and the next unpaid index lies after it and not after the
  -- current one. Nothing is found only in the genesis epoch or when no epoch before is unpaid.
  pub find_oldest_epoch_needing_payment-within :
      (unpaid current : ℕ) (cached : Option ℕ) (found : Option UnpaidEpoch)
      → get_unpaid_epoch_index g ≡ ok unpaid
      → unpaid ≤ current
      → find_oldest_epoch_needing_payment g current cached ≡ ok found
      → ((found ≡ none) × ((current ≡ genesis_epoch_index) ⊎ (unpaid ≡ current)))
        ⊎ ((u : UnpaidEpoch) × (found ≡ some u)
            × (u.epoch_index ≡ unpaid)
            × (unpaid < u.next_unpaid_epoch_index)
            × (u.next_unpaid_epoch_index ≤ current))
  unfolding find_oldest_epoch_needing_payment
  find_oldest_epoch_needing_payment-within unpaid current cached found r h e =
      elim (Bool-cases (current == genesis_epoch_index)) [
        | inl genesis ↦ inl (ground arith, inl (==→eq current 0 genesis))
        | inr later ↦ elim (Bool-cases (unpaid == current)) [
          | inl paid ↦
              let nothing = rw (later, r, paid) at e in inl (cc, inr (==→eq unpaid current paid))
          | inr before ↦
              let chosen = rw (later, r, before) at e in
              let (epoch, p, rest) = >>=-eq-ok (new_epoch unpaid) _ chosen in
              let (start, q, rest2) = >>=-eq-ok (get_epoch_start_block_height g epoch) _ rest in
              let (next, n, same) = >>=-eq-ok (next_unpaid g unpaid current cached) _ rest2 in
              let (low, high) = next_unpaid-within unpaid current cached next (ground arith) n in
              inr (
                record {
                  epoch_index = unpaid;
                  start_block_height = start;
                  end_block_height = next.1;
                  next_unpaid_epoch_index = next.0;
                },
                cc,
                refl,
                low,
                high,
              )
        ]
      ]
