-- ===== src/HeldPool/Push.antt =====
-- `push_contiguous` of crates/eez-composer/src/held_pool.rs.
use eez_rollup.Base.{
  ℕ, List, [], ◌∷◌, ◌++◌, Bool, false, not, ltb, ◌==◌, ◌&&◌, ◌||◌, if◌then◌else◌, Option, none,
  some,
}
use eez_rollup.Base.Results.{Result, ok, err}
use eez_rollup.HeldPool.State.{
  HeldTx, AdmissionError, u64_max, min_replacement_fee, InFlight, PoolState, contains, remove_hash,
  insert_hash, has_key, on_chain_of, next_expected_nonce, nonce, underpriced_replacement,
}

-- The first queued transaction at the nonce of `tx` in its chain, and its replacement in place.
abbrev pub same_slot : HeldTx → HeldTx → Bool
same_slot tx queued =
    on_chain_of queued.sender queued.direction tx.sender tx.direction && queued.nonce == tx.nonce

unfoldable pub queued_match : HeldTx → List HeldTx → Option HeldTx
queued_match tx [] = none
queued_match tx (q ∷ qs) = let rest = queued_match tx qs in if same_slot tx q then some q else rest

unfoldable pub set_match : HeldTx → List HeldTx → List HeldTx
set_match tx [] = []
set_match tx (q ∷ qs) = let rest = set_match tx qs in if same_slot tx q then tx ∷ qs else q ∷ rest

-- `state.in_flight.values().any(..)`
unfoldable pub in_flight_match : HeldTx → InFlight → Bool
in_flight_match tx [] = false
in_flight_match tx ((k, r) ∷ m) =
    (on_chain_of r.sender r.direction tx.sender tx.direction && r.nonce == tx.nonce)
    || in_flight_match tx m

abbrev pub or_u64_max : Option ℕ → ℕ
or_u64_max none = u64_max
or_u64_max (some n) = n

abbrev pub Admission : Type 0
Admission = Result AdmissionError PoolState

-- A queued match: both fees must be bumped.
unfoldable pub replace_queued : PoolState → HeldTx → HeldTx → Admission
replace_queued s tx queued =
    let required_max_fee = min_replacement_fee queued.max_fee_per_gas in
    let required_priority_fee = min_replacement_fee queued.priority_fee_per_gas in
    if ltb tx.max_fee_per_gas required_max_fee || ltb tx.priority_fee_per_gas required_priority_fee
    then err (
        underpriced_replacement tx.max_fee_per_gas required_max_fee tx.priority_fee_per_gas
          required_priority_fee)
    else ok (record s {
      txs = set_match tx s.txs;
      by_hash = insert_hash tx.hash (remove_hash queued.hash s.by_hash);
    })

-- No queued match: the nonce must be the next one of the chain.
unfoldable pub append_next : PoolState → HeldTx → ℕ → Admission
append_next s tx on_chain =
    let expected = next_expected_nonce s tx.sender tx.direction on_chain in
    if in_flight_match tx s.in_flight
    then err (nonce (or_u64_max expected) on_chain)
    else elim expected [
      | none ↦ err (nonce u64_max on_chain)
      | some n ↦
          if not (tx.nonce == n)
          then err (nonce n on_chain)
          else ok (record s { txs = s.txs ++ (tx ∷ []); by_hash = insert_hash tx.hash s.by_hash })
    ]

unfoldable pub push_contiguous : PoolState → HeldTx → ℕ → Admission
push_contiguous s tx on_chain =
    if contains tx.hash s.by_hash || has_key tx.hash s.in_flight
    then ok s
    else if ltb tx.nonce on_chain
    then err (nonce (or_u64_max (next_expected_nonce s tx.sender tx.direction on_chain)) on_chain)
    else elim (queued_match tx s.txs) [
      | some queued ↦ replace_queued s tx queued
      | none ↦ append_next s tx on_chain
    ]
