-- ===== src/HeldPool/Drain.antt =====
-- Recovery, eviction and draining in crates/eez-composer/src/held_pool.rs.
use eez_rollup.Base.{
  ℕ, ◌-◌, ◌^◌, min, List, [], ◌∷◌, Bool, not, ltb, leb, ◌==◌, ◌&&◌, if◌then◌else◌, length, take,
  drop, Option, none, some,
}
use eez_rollup.HeldPool.State.{
  Direction, HeldTx, InFlight, PoolState, remove_hash, on_chain_of, release_in_flight,
  mark_in_flight, push_front_recovered,
}
use eez_rollup.HeldPool.Push.{same_slot}

-- `replacement_roots`: for a chain the lowest nonce in conflict, with the replacement's hash.
pub record Root : Type 0 where
  pub sender : ℕ
  pub direction : Direction
  pub conflict_nonce : ℕ
  pub replacement_hash : ℕ

unfoldable pub root_of : HeldTx → List Root → Option Root
root_of tx [] = none
root_of tx (r ∷ rs) =
    let rest = root_of tx rs in
    if on_chain_of r.sender r.direction tx.sender tx.direction then some r else rest

-- `.entry(..).and_modify(..).or_insert(..)`
unfoldable pub add_root : HeldTx → ℕ → List Root → List Root
add_root tx hash [] =
    record {
      sender = tx.sender;
      direction = tx.direction;
      conflict_nonce = tx.nonce;
      replacement_hash = hash;
    }
    ∷ []
add_root tx hash (r ∷ rs) =
    let rest = add_root tx hash rs in
    if on_chain_of r.sender r.direction tx.sender tx.direction
    then (if ltb tx.nonce r.conflict_nonce
        then record r { conflict_nonce = tx.nonce; replacement_hash = hash } ∷ rs
        else r ∷ rs)
    else r ∷ rest

-- A queued transaction in the same slot with another hash.
unfoldable pub replacement_of : HeldTx → List HeldTx → Option HeldTx
replacement_of tx [] = none
replacement_of tx (q ∷ qs) =
    let rest = replacement_of tx qs in
    if same_slot tx q && not (q.hash == tx.hash) then some q else rest

unfoldable pub replacement_roots : List HeldTx → List HeldTx → List Root → List Root
replacement_roots queue [] roots = roots
replacement_roots queue (tx ∷ recovered) roots =
    replacement_roots queue recovered
      (elim (replacement_of tx queue) [ some q ↦ add_root tx q.hash roots | none ↦ roots ])

unfoldable pub recover : List Root → PoolState → HeldTx → PoolState
recover roots s tx = elim (root_of tx roots) [
  | some r ↦
      if leb r.conflict_nonce tx.nonce then release_in_flight s tx else push_front_recovered s tx
  | none ↦ push_front_recovered s tx
]

-- `for tx in recovered.into_iter().rev()`: the later ones first.
unfoldable pub recover_all : List Root → List HeldTx → PoolState → PoolState
recover_all roots [] s = s
recover_all roots (tx ∷ recovered) s = recover roots (recover_all roots recovered s) tx

unfoldable pub push_front_batch : PoolState → List HeldTx → PoolState
push_front_batch s recovered = recover_all (replacement_roots s.txs recovered []) recovered s

unfoldable pub release_in_flight_batch : PoolState → List HeldTx → PoolState
release_in_flight_batch s [] = s
release_in_flight_batch s (tx ∷ txs) = release_in_flight_batch (release_in_flight s tx) txs

abbrev pub evicted_by : ℕ → Direction → ℕ → HeldTx → Bool
evicted_by sender direction n tx =
    on_chain_of tx.sender tx.direction sender direction && leb n tx.nonce

unfoldable pub evicted_txs : ℕ → Direction → ℕ → List HeldTx → List HeldTx
evicted_txs sender direction n [] = []
evicted_txs sender direction n (tx ∷ txs) =
    let rest = evicted_txs sender direction n txs in
    if evicted_by sender direction n tx then tx ∷ rest else rest

unfoldable pub kept_txs : ℕ → Direction → ℕ → List HeldTx → List HeldTx
kept_txs sender direction n [] = []
kept_txs sender direction n (tx ∷ txs) =
    let rest = kept_txs sender direction n txs in
    if evicted_by sender direction n tx then rest else tx ∷ rest

unfoldable pub remove_hashes : List HeldTx → List ℕ → List ℕ
remove_hashes [] hashes = hashes
remove_hashes (tx ∷ txs) hashes = remove_hashes txs (remove_hash tx.hash hashes)

unfoldable pub retain_below : ℕ → Direction → ℕ → InFlight → InFlight
retain_below sender direction n [] = []
retain_below sender direction n ((k, r) ∷ m) =
    let rest = retain_below sender direction n m in
    if on_chain_of r.sender r.direction sender direction && leb n r.nonce
    then rest
    else (k, r) ∷ rest

unfoldable pub evict_chain_at_or_above : PoolState → ℕ → Direction → ℕ → PoolState × List HeldTx
evict_chain_at_or_above s sender direction n =
    let evicted = evicted_txs sender direction n s.txs in
    (
      record {
        txs = kept_txs sender direction n s.txs;
        by_hash = remove_hashes evicted s.by_hash;
        in_flight = retain_below sender direction n s.in_flight;
      },
      evicted,
    )

-- `for tx in &drained { by_hash.remove(&tx.hash); mark_in_flight(tx); }`
unfoldable pub reserve_all : List HeldTx → PoolState → PoolState
reserve_all [] s = s
reserve_all (tx ∷ txs) s =
    reserve_all txs (mark_in_flight (record s { by_hash = remove_hash tx.hash s.by_hash }) tx)

unfoldable pub pop_n : PoolState → ℕ → PoolState × List HeldTx
pop_n s limit =
    let count = min limit (length s.txs) in
    let drained = take count s.txs in
    (reserve_all drained (record s { txs = drop count s.txs }), drained)

-- `pop_n(usize::MAX)`; a queue is no longer than that.
unfoldable pub pop_all : PoolState → PoolState × List HeldTx
pop_all s = pop_n s (2 ^ 64 - 1)

abbrev pub empty_pool : PoolState
empty_pool = record { txs = []; by_hash = []; in_flight = [] }

unfoldable pub len : PoolState → ℕ
len s = length s.txs
