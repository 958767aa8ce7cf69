-- ===== src/Tests/HeldPool.antt =====
-- crates/eez-composer/src/held_pool.rs at concrete histories.
use eez_rollup.Base.{
  ℕ, ◌+◌, ◌*◌, ◌≤◌, ◌<◌, ◌≡◌, ◌↔◌, refl, List, [], ◌∷◌, length, All, true, some, arith,
}
use eez_rollup.Base.Results.{ok}
use eez_rollup.HeldPool.{
  inbound, outbound, HeldTx, PoolState, contains, has_key, remove_hash, insert_hash, queued_nonces,
  in_flight_nonces, highest, reserved_nonces, next_expected_nonce, queued_match, set_match,
  replace_queued, append_next, push_contiguous, in_flight_match, min_replacement_fee, evicted_by,
  evict_chain_at_or_above, pop_n, push_front_batch, empty_pool, reserve_all, mark_in_flight,
  insert_key, remove_hash,
}
use eez_rollup.HeldPool.Consistent.{IsConsistent}
use eez_rollup.HeldPool.Consistent.Drain.{pop_n-IsConsistent}
use eez_rollup.HeldPool.History.{Call, pushes, run, step, run-IsConsistent}
use eez_rollup.HeldPool.Admission.{push_contiguous_accepts_iff, push_contiguous_replaces, slots}
use eez_rollup.HeldPool.Recovery.{push_front_batch-pop_n, reservation}
use eez_rollup.HeldPool.Eviction.{evict_chain_below, evict_chain_others}

abbrev tx_of : ℕ → ℕ → ℕ → HeldTx
tx_of hash n fee = record {
  raw_tx = [];
  hash = hash;
  attempts = 0;
  sender = 0xa1;
  nonce = n;
  direction = outbound;
  max_fee_per_gas = fee;
  priority_fee_per_gas = fee;
}

-- Two transactions of one chain; the on-chain nonce is 5.
abbrev two_pushes : List Call
two_pushes = pushes (tx_of 1 5 100) 5 ∷ pushes (tx_of 2 6 100) 5 ∷ []

abbrev two_queued : PoolState
two_queued = record {
  txs = tx_of 1 5 100 ∷ tx_of 2 6 100 ∷ [];
  by_hash = 2 ∷ 1 ∷ [];
  in_flight = [];
}

two_pushes-run : run empty_pool two_pushes ≡ two_queued
unfolding run step push_contiguous append_next insert_hash contains has_key queued_match
    in_flight_match next_expected_nonce highest queued_nonces in_flight_nonces
two_pushes-run = refl

run-IsConsistent_example : IsConsistent (run empty_pool two_pushes)
run-IsConsistent_example = run-IsConsistent two_pushes

two_queued-IsConsistent : IsConsistent two_queued
two_queued-IsConsistent = rw⁻¹ two_pushes-run (run-IsConsistent two_pushes)

abbrev three_queued : PoolState
three_queued = record {
  txs = tx_of 1 5 100 ∷ tx_of 2 6 100 ∷ tx_of 3 7 100 ∷ [];
  by_hash = 3 ∷ 2 ∷ 1 ∷ [];
  in_flight = [];
}

third_accepted : push_contiguous two_queued (tx_of 3 7 100) 5 ≡ ok three_queued
unfolding push_contiguous append_next insert_hash contains has_key queued_match in_flight_match
    next_expected_nonce highest queued_nonces in_flight_nonces
third_accepted = refl

push_contiguous_accepts_iff_example :
    ((s' : PoolState) × (push_contiguous two_queued (tx_of 3 7 100) 5 ≡ ok s'))
    ↔ (next_expected_nonce two_queued 0xa1 outbound 5 ≡ some 7)
unfolding contains has_key queued_match
push_contiguous_accepts_iff_example =
    push_contiguous_accepts_iff two_queued (tx_of 3 7 100) 5 refl refl refl

-- The second one is replaced at a fee of 110.
abbrev replaced_pool : PoolState
replaced_pool = record {
  txs = tx_of 1 5 100 ∷ tx_of 4 6 110 ∷ [];
  by_hash = 4 ∷ 1 ∷ [];
  in_flight = [];
}

second_replaced : push_contiguous two_queued (tx_of 4 6 110) 5 ≡ ok replaced_pool
unfolding push_contiguous replace_queued insert_hash remove_hash contains has_key queued_match
    set_match min_replacement_fee
second_replaced = refl

push_contiguous_replaces_example :
    (slots replaced_pool.txs ≡ slots two_queued.txs)
    × (replaced_pool.in_flight ≡ two_queued.in_flight)
    × (100 < 110)
    × (11 * 100 ≤ 10 * 110 + 9)
    × (100 < 110)
    × (11 * 100 ≤ 10 * 110 + 9)
unfolding contains has_key queued_match
push_contiguous_replaces_example =
    push_contiguous_replaces two_queued replaced_pool (tx_of 4 6 110) (tx_of 2 6 100) 5
      second_replaced refl refl refl (omega arith) (omega arith)

-- The first transaction is reserved already.
abbrev one_reserved : PoolState
one_reserved = record {
  txs = tx_of 2 6 100 ∷ [];
  by_hash = 2 ∷ [];
  in_flight = (1, record { sender = 0xa1; direction = outbound; nonce = 5 }) ∷ [];
}

pops-one_reserved : (pop_n two_queued 1).0 ≡ one_reserved
unfolding pop_n reserve_all mark_in_flight insert_key has_key remove_hash
pops-one_reserved = refl

one_reserved-IsConsistent : IsConsistent one_reserved
one_reserved-IsConsistent =
    rw⁻¹ pops-one_reserved (pop_n-IsConsistent two_queued 1 two_queued-IsConsistent)

push_front_batch-pop_n_example :
    ((push_front_batch (pop_n one_reserved 1).0 (pop_n one_reserved 1).1).txs ≡ one_reserved.txs)
    × (contains 1 (push_front_batch (pop_n one_reserved 1).0 (pop_n one_reserved 1).1).by_hash
        ≡ contains 1 one_reserved.by_hash)
    × (reservation 1 (push_front_batch (pop_n one_reserved 1).0 (pop_n one_reserved 1).1).in_flight
        ≡ reservation 1 one_reserved.in_flight)
unfolding queued_match
push_front_batch-pop_n_example =
    push_front_batch-pop_n one_reserved 1 1 one_reserved-IsConsistent (refl, tt)

evict_chain_below_example :
    All
      (λ k. k < 6)
      (reserved_nonces (evict_chain_at_or_above two_queued 0xa1 outbound 6).0 0xa1 outbound)
    × All
        (λ tx. evicted_by 0xa1 outbound 6 tx ≡ true)
        (evict_chain_at_or_above two_queued 0xa1 outbound 6).1
    × (length (evict_chain_at_or_above two_queued 0xa1 outbound 6).0.txs
          + length (evict_chain_at_or_above two_queued 0xa1 outbound 6).1
        ≡ length two_queued.txs)
evict_chain_below_example = evict_chain_below two_queued 0xa1 outbound 6

evict_chain_others_example :
    (reserved_nonces (evict_chain_at_or_above two_queued 0xa1 inbound 6).0 0xa1 outbound
      ≡ reserved_nonces two_queued 0xa1 outbound)
    × (next_expected_nonce (evict_chain_at_or_above two_queued 0xa1 inbound 6).0 0xa1 outbound 5
        ≡ next_expected_nonce two_queued 0xa1 outbound 5)
evict_chain_others_example = evict_chain_others two_queued 0xa1 0xa1 inbound outbound 6 5 refl
