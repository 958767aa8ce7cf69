-- ===== src/HeldPool/Consistent/Drain.antt =====
-- The invariant through draining, recovery, settlement and eviction.
use eez_rollup.Base.{
  ℕ, min, ◌≡◌, refl, inl, inr, List, [], ◌∷◌, ◌++◌, false, not, ◌&&◌, leb, take, drop, length,
  take-append-drop, arith, Bool-cases, Option-cases,
}
use eez_rollup.HeldPool.{
  Direction, HeldTx, InFlight, PoolState, contains, remove_hash, has_key, release_in_flight,
  mark_in_flight, recover, recover_all, push_front_batch, release_in_flight_batch, evicted_txs,
  kept_txs, remove_hashes, retain_below, evict_chain_at_or_above, reserve_all, pop_n, Root, root_of,
  evicted_by,
}
use eez_rollup.HeldPool.Sets.{contains-remove_hash, has_key-insert_key, Distinct, hashes}
use eez_rollup.HeldPool.Consistent.{
  Drained, IsConsistent, contains_eq, release_in_flight-IsConsistent,
  push_front_recovered-IsConsistent,
}

reserve_one :
    (s : PoolState) (tx : HeldTx) (ds : List HeldTx)
    → Drained (tx ∷ ds) s
    → Drained ds (mark_in_flight (record s { by_hash = remove_hash tx.hash s.by_hash }) tx)
unfolding mark_in_flight contains
reserve_one s tx ds v = record {
  same_set = λ h. ground (
    arith,
    v.same_set h,
    contains-remove_hash h tx.hash s.by_hash,
    contains_eq h tx.hash (hashes (ds ++ s.txs)),
    v.distinct.0,
  );
  distinct = v.distinct.1;
  disjoint = λ h. ground (
    arith,
    v.disjoint h,
    v.distinct.0,
    contains_eq h tx.hash (hashes (ds ++ s.txs)),
    has_key-insert_key h tx.hash
        (record { sender = tx.sender; direction = tx.direction; nonce = tx.nonce }) s.in_flight,
  );
}

reserve_all-IsConsistent :
    (ds : List HeldTx) (s : PoolState) → Drained ds s → IsConsistent (reserve_all ds s)
unfolding reserve_all
reserve_all-IsConsistent [] s v = v
reserve_all-IsConsistent (tx ∷ ds) s v = reserve_all-IsConsistent ds _ (reserve_one s tx ds v)

pub pop_n-IsConsistent : (s : PoolState) (n : ℕ) → IsConsistent s → IsConsistent (pop_n s n).0
unfolding pop_n
pop_n-IsConsistent s n v =
    let count = min n (length s.txs) in
    let whole = take-append-drop count s.txs in
    reserve_all-IsConsistent (take count s.txs) (record s { txs = drop count s.txs })
      (record {
        same_set = λ h. rw whole (v.same_set h);
        distinct = rw whole v.distinct;
        disjoint = λ h. rw whole (v.disjoint h);
      })

recover-IsConsistent :
    (roots : List Root) (s : PoolState) (tx : HeldTx)
    → IsConsistent s
    → IsConsistent (recover roots s tx)
unfolding recover
recover-IsConsistent roots s tx v = elim (Option-cases (root_of tx roots)) [
  | inl none_there ↦ rw (none_there, recover) (push_front_recovered-IsConsistent s tx v)
  | inr (r, e) ↦ elim (Bool-cases (leb r.conflict_nonce tx.nonce)) [
    | inl late ↦ rw (e, recover, late) (release_in_flight-IsConsistent s tx v)
    | inr early ↦ rw (e, recover, early) (push_front_recovered-IsConsistent s tx v)
  ]
]

pub recover_all-IsConsistent :
    (roots : List Root) (recovered : List HeldTx) (s : PoolState)
    → IsConsistent s
    → IsConsistent (recover_all roots recovered s)
unfolding recover_all
recover_all-IsConsistent roots [] s v = v
recover_all-IsConsistent roots (tx ∷ recovered) s v =
    recover-IsConsistent roots _ tx (recover_all-IsConsistent roots recovered s v)

pub push_front_batch-IsConsistent :
    (s : PoolState) (recovered : List HeldTx)
    → IsConsistent s
    → IsConsistent (push_front_batch s recovered)
unfolding push_front_batch
push_front_batch-IsConsistent s recovered v = recover_all-IsConsistent _ recovered s v

pub release_in_flight_batch-IsConsistent :
    (s : PoolState) (txs : List HeldTx)
    → IsConsistent s
    → IsConsistent (release_in_flight_batch s txs)
unfolding release_in_flight_batch
release_in_flight_batch-IsConsistent s [] v = v
release_in_flight_batch-IsConsistent s (tx ∷ txs) v =
    release_in_flight_batch-IsConsistent (release_in_flight s tx) txs
      (release_in_flight-IsConsistent s tx v)

contains-remove_hashes :
    (h : ℕ) (txs : List HeldTx) (set : List ℕ)
    → contains h (remove_hashes txs set) ≡ (contains h set && not (contains h (hashes txs)))
unfolding remove_hashes contains
contains-remove_hashes h [] set = ground arith
contains-remove_hashes h (tx ∷ txs) set = ground (
  arith,
  contains-remove_hashes h txs (remove_hash tx.hash set),
  contains-remove_hash h tx.hash set,
)

-- What is kept is what was queued and is not evicted.
contains-kept_txs :
    (sender : ℕ) (d : Direction) (n h : ℕ) (txs : List HeldTx)
    → Distinct (hashes txs)
    → (contains h (hashes (kept_txs sender d n txs))
        ≡ (contains h (hashes txs) && not (contains h (hashes (evicted_txs sender d n txs)))))
      × (contains h (hashes txs) ≡ false → contains h (hashes (evicted_txs sender d n txs)) ≡ false)
unfolding kept_txs evicted_txs contains
contains-kept_txs sender d n h [] v = (refl, λ _. refl)
contains-kept_txs sender d n h (tx ∷ txs) v =
    let (kept, none_new) = contains-kept_txs sender d n h txs v.1 in
    (
      ground (arith, kept, none_new, contains_eq h tx.hash (hashes txs)),
      λ e. ground (arith, none_new),
    )

kept_txs-Distinct :
    (sender : ℕ) (d : Direction) (n : ℕ) (txs : List HeldTx)
    → Distinct (hashes txs)
    → Distinct (hashes (kept_txs sender d n txs))
unfolding kept_txs
kept_txs-Distinct sender d n [] v = tt
kept_txs-Distinct sender d n (tx ∷ txs) v =
    let rest = kept_txs-Distinct sender d n txs v.1 in
    elim (Bool-cases (evicted_by sender d n tx)) [
      | inl out ↦ rw (out, kept_txs) rest
      | inr stays ↦
          rw (stays, kept_txs) (ground (arith, contains-kept_txs sender d n tx.hash txs v.1), rest)
    ]

has_key-retain_below :
    (sender : ℕ) (d : Direction) (n h : ℕ) (m : InFlight)
    → has_key h m ≡ false
    → has_key h (retain_below sender d n m) ≡ false
unfolding has_key retain_below
has_key-retain_below sender d n h [] e = refl
has_key-retain_below sender d n h ((k, r) ∷ m) e =
    ground (arith, has_key-retain_below sender d n h m)

pub evict-IsConsistent :
    (s : PoolState) (sender : ℕ) (d : Direction) (n : ℕ)
    → IsConsistent s
    → IsConsistent (evict_chain_at_or_above s sender d n).0
unfolding evict_chain_at_or_above
evict-IsConsistent s sender d n v = record {
  same_set = λ h. ground (
    arith,
    v.same_set h,
    contains-remove_hashes h (evicted_txs sender d n s.txs) s.by_hash,
    contains-kept_txs sender d n h s.txs v.distinct,
  );
  distinct = kept_txs-Distinct sender d n s.txs v.distinct;
  disjoint = λ h. ground (
    arith,
    v.disjoint h,
    has_key-retain_below sender d n h s.in_flight,
    contains-kept_txs sender d n h s.txs v.distinct,
  );
}
