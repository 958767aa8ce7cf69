-- ===== src/HeldPool/History.antt =====
-- Histories of calls on one pool.
use eez_rollup.Base.{ℕ, List, [], ◌∷◌, ◌≡◌, refl}
use eez_rollup.Base.Results.{Result, ok, err}
use eez_rollup.HeldPool.{
  Direction, HeldTx, PoolState, AdmissionError, push_contiguous, push_front_batch,
  release_in_flight_batch, evict_chain_at_or_above, pop_n, empty_pool,
}
use eez_rollup.HeldPool.Consistent.{IsConsistent, empty_pool-IsConsistent}
use eez_rollup.HeldPool.Consistent.Push.{push_contiguous-IsConsistent}
use eez_rollup.HeldPool.Consistent.Drain.{
  pop_n-IsConsistent, push_front_batch-IsConsistent, release_in_flight_batch-IsConsistent,
  evict-IsConsistent,
}

-- A call of a public method that changes the pool.
pub data Call : Type 0 where
  pushes : HeldTx → ℕ → Call
  recovers : List HeldTx → Call
  releases : List HeldTx → Call
  evicts : ℕ → Direction → ℕ → Call
  pops : ℕ → Call

-- A refused admission leaves the pool as it was.
abbrev pub admitted_or : PoolState → Result AdmissionError PoolState → PoolState
admitted_or s (ok s') = s'
admitted_or s (err e) = s

unfoldable pub step : PoolState → Call → PoolState
step s (pushes tx on_chain) = admitted_or s (push_contiguous s tx on_chain)
step s (recovers txs) = push_front_batch s txs
step s (releases txs) = release_in_flight_batch s txs
step s (evicts sender d n) = (evict_chain_at_or_above s sender d n).0
step s (pops n) = (pop_n s n).0

unfoldable pub run : PoolState → List Call → PoolState
run s [] = s
run s (c ∷ cs) = run (step s c) cs

admitted_or-IsConsistent :
    (s : PoolState) (r : Result AdmissionError PoolState)
    → IsConsistent s
    → ((s' : PoolState) → r ≡ ok s' → IsConsistent s')
    → IsConsistent (admitted_or s r)
admitted_or-IsConsistent s (ok s') v h = h s' refl
admitted_or-IsConsistent s (err e) v h = v

step-IsConsistent : (s : PoolState) (c : Call) → IsConsistent s → IsConsistent (step s c)
unfolding step
step-IsConsistent s (pushes tx on_chain) v =
    admitted_or-IsConsistent s (push_contiguous s tx on_chain) v
      λ s' e. push_contiguous-IsConsistent s s' tx on_chain v e
step-IsConsistent s (recovers txs) v = push_front_batch-IsConsistent s txs v
step-IsConsistent s (releases txs) v = release_in_flight_batch-IsConsistent s txs v
step-IsConsistent s (evicts sender d n) v = evict-IsConsistent s sender d n v
step-IsConsistent s (pops n) v = pop_n-IsConsistent s n v

run_keeps : (s : PoolState) (cs : List Call) → IsConsistent s → IsConsistent (run s cs)
unfolding run
run_keeps s [] v = v
run_keeps s (c ∷ cs) v = run_keeps (step s c) cs (step-IsConsistent s c v)

-- After any history of calls on an empty pool, the hash set holds the hashes of the queue and no
-- other, no hash is queued twice, and no queued hash is in flight.
pub run-IsConsistent : (cs : List Call) → IsConsistent (run empty_pool cs)
run-IsConsistent cs = run_keeps empty_pool cs empty_pool-IsConsistent
