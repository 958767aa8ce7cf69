-- ===== src/HeldPool/Recovery.antt =====
-- Transactions that are drained and recovered with no other call between.
use eez_rollup.Base.{
  ℕ, min, ◌≡◌, refl, sym, ◌∙◌, ap, List, [], ◌∷◌, ◌++◌, false, ◌||◌, ◌==◌, if◌then◌else◌,
  Bool-cases, inl, inr, Option, none, some, length, take, drop, take-append-drop, arith,
}
use eez_rollup.HeldPool.{
  HeldTx, PoolState, InFlight, Reservation, contains, has_key, remove_hash, remove_key, insert_key,
  queued_match, replacement_of, replacement_roots, root_of, recover, recover_all, release_in_flight,
  mark_in_flight, push_front_recovered, push_front_batch, reserve_all, pop_n,
}
use eez_rollup.HeldPool.Sets.{Distinct, hashes}
use eez_rollup.HeldPool.Consistent.{IsConsistent}
use eez_rollup.HeldPool.Consistent.Drain.{
  push_front_batch-IsConsistent, pop_n-IsConsistent, recover_all-IsConsistent,
}

-- No two queued transactions have one sender, direction and nonce.
abbrev pub SlotsDistinct : List HeldTx → Type 0
SlotsDistinct [] = Unit {0}
SlotsDistinct (tx ∷ txs) = (queued_match tx txs ≡ none) × SlotsDistinct txs

no_replacement :
    (tx : HeldTx) (ds qs : List HeldTx)
    → queued_match tx (ds ++ qs) ≡ none
    → replacement_of tx qs ≡ none
unfolding queued_match replacement_of
no_replacement tx (x ∷ ds) qs e = no_replacement tx ds qs (ground arith)
no_replacement tx [] [] e = refl
no_replacement tx [] (q ∷ qs) e = ground (arith, no_replacement tx [] qs)

no_roots : (ds qs : List HeldTx) → SlotsDistinct (ds ++ qs) → replacement_roots qs ds [] ≡ []
unfolding replacement_roots
no_roots [] qs v = refl
no_roots (tx ∷ ds) qs v = rw (no_replacement tx ds qs v.0) (no_roots ds qs v.1)

-- `HashMap::get`.
abbrev pub reservation : ℕ → InFlight → Option Reservation
reservation h [] = none
reservation h ((k, r) ∷ m) = let rest = reservation h m in if k == h then some r else rest

reservation-remove_key :
    (h k : ℕ) (m : InFlight)
    → reservation h (remove_key k m) ≡ (if k == h then none else reservation h m)
unfolding remove_key
reservation-remove_key h k [] = ground arith
reservation-remove_key h k ((j, r) ∷ m) = ground (arith, reservation-remove_key h k m)

reservation-insert_key :
    (h k : ℕ) (r : Reservation) (m : InFlight)
    → (k == h) ≡ false
    → reservation h (insert_key k r m) ≡ reservation h m
unfolding insert_key
reservation-insert_key h k r m other = ground arith

unreserved : (h : ℕ) (m : InFlight) → has_key h m ≡ false → reservation h m ≡ none
unfolding has_key
unreserved h [] e = refl
unreserved h ((k, r) ∷ m) e = ground (arith, unreserved h m)

contains-hashes_append :
    (h : ℕ) (ds qs : List HeldTx)
    → contains h (hashes (ds ++ qs)) ≡ (contains h (hashes ds) || contains h (hashes qs))
unfolding contains
contains-hashes_append h [] qs = refl
contains-hashes_append h (d ∷ ds) qs = ground (arith, contains-hashes_append h ds qs)

recovered_txs :
    (s : PoolState) (ds : List HeldTx)
    → IsConsistent s
    → Distinct (hashes (ds ++ s.txs))
    → (recover_all [] ds s).txs ≡ ds ++ s.txs
unfolding recover_all recover push_front_recovered release_in_flight root_of
recovered_txs s [] v d = refl
recovered_txs s (tx ∷ ds) v d =
    let rest = recovered_txs s ds v d.1 in
    let fresh : contains tx.hash (recover_all [] ds s).by_hash ≡ false =
      rw ((recover_all-IsConsistent [] ds s v).same_set tx.hash, rest) d.0 in
    rw fresh (ap (◌∷◌ tx) rest)

recovered_in_flight :
    (s : PoolState) (ds : List HeldTx) (h : ℕ)
    → reservation h (recover_all [] ds s).in_flight
      ≡ (if contains h (hashes ds) then none else reservation h s.in_flight)
unfolding recover_all recover push_front_recovered release_in_flight root_of contains
recovered_in_flight s [] h = refl
recovered_in_flight s (tx ∷ ds) h = ground (
  arith,
  recovered_in_flight s ds h,
  reservation-remove_key h tx.hash (recover_all [] ds s).in_flight,
)

reserved_txs : (ds : List HeldTx) (s : PoolState) → (reserve_all ds s).txs ≡ s.txs
unfolding reserve_all mark_in_flight
reserved_txs [] s = refl
reserved_txs (tx ∷ ds) s =
    reserved_txs ds (mark_in_flight (record s { by_hash = remove_hash tx.hash s.by_hash }) tx)

reserved_in_flight :
    (ds : List HeldTx) (s : PoolState) (h : ℕ)
    → contains h (hashes ds) ≡ false
    → reservation h (reserve_all ds s).in_flight ≡ reservation h s.in_flight
unfolding reserve_all mark_in_flight contains
reserved_in_flight [] s h e = refl
reserved_in_flight (tx ∷ ds) s h e =
    let marked = mark_in_flight (record s { by_hash = remove_hash tx.hash s.by_hash }) tx in
    let value : Reservation = record {
      sender = tx.sender;
      direction = tx.direction;
      nonce = tx.nonce;
    } in
    let other : (tx.hash == h) ≡ false = ground arith in
    let rest : contains h (hashes ds) ≡ false = ground arith in
    reserved_in_flight ds marked h rest ∙ reservation-insert_key h tx.hash value s.in_flight other

-- The reservations after the recovery of a front part whose hashes were not reserved.
recovered_reservations :
    (s : PoolState) (ds qs : List HeldTx) (h : ℕ)
    → IsConsistent s
    → s.txs ≡ ds ++ qs
    → reservation h (recover_all [] ds (reserve_all ds (record s { txs = qs }))).in_flight
      ≡ reservation h s.in_flight
recovered_reservations s ds qs h v cut =
    let s' = reserve_all ds (record s { txs = qs }) in
    elim (Bool-cases (contains h (hashes ds))) [
      | inl drained ↦
          let absent : has_key h s.in_flight ≡ false = ground (
            arith,
            v.disjoint h,
            ap (λ (txs : List HeldTx). contains h (hashes txs)) cut,
            contains-hashes_append h ds qs,
          ) in
          recovered_in_flight s' ds h ∙ rw drained (sym (unreserved h s.in_flight absent))
      | inr other ↦
          recovered_in_flight s' ds h
          ∙ rw other (reserved_in_flight ds (record s { txs = qs }) h other)
    ]

-- For a queue that is cut in two and whose front part is reserved.
recovered_cut :
    (s : PoolState) (ds qs : List HeldTx) (h : ℕ)
    → IsConsistent s
    → SlotsDistinct s.txs
    → s.txs ≡ ds ++ qs
    → IsConsistent (reserve_all ds (record s { txs = qs }))
    → let t = push_front_batch (reserve_all ds (record s { txs = qs })) ds in
      (t.txs ≡ s.txs) × (reservation h t.in_flight ≡ reservation h s.in_flight)
unfolding push_front_batch
recovered_cut s ds qs h v slots cut v' =
    let s' = reserve_all ds (record s { txs = qs }) in
    let left = reserved_txs ds (record s { txs = qs }) in
    let whole : ds ++ s'.txs ≡ s.txs = rw (left, cut) refl in
    let roots : replacement_roots s'.txs ds [] ≡ [] = no_roots ds s'.txs (rw whole slots) in
    (
      rw roots (recovered_txs s' ds v' (rw whole v.distinct) ∙ whole),
      rw roots (recovered_reservations s ds qs h v cut),
    )

-- In a pool whose parts agree and whose queued transactions have different slots: after a drain
-- of up to `n` transactions and their recovery, with no other call between, the queue is as it
-- was, in its order, a hash is in the hash set exactly when it was, and each hash has the
-- reservation that it had, with its sender, direction and nonce, or none as before.
pub push_front_batch-pop_n :
    (s : PoolState) (n h : ℕ)
    → IsConsistent s
    → SlotsDistinct s.txs
    → ((push_front_batch (pop_n s n).0 (pop_n s n).1).txs ≡ s.txs)
      × (contains h (push_front_batch (pop_n s n).0 (pop_n s n).1).by_hash ≡ contains h s.by_hash)
      × (reservation h (push_front_batch (pop_n s n).0 (pop_n s n).1).in_flight
          ≡ reservation h s.in_flight)
unfolding pop_n
push_front_batch-pop_n s n h v slots =
    let count = min n (length s.txs) in
    let v' = pop_n-IsConsistent s n v in
    let (queue, keys) =
      recovered_cut s (take count s.txs) (drop count s.txs) h v slots
        (sym (take-append-drop count s.txs)) v' in
    let again = push_front_batch-IsConsistent (pop_n s n).0 (pop_n s n).1 v' in
    (
      queue,
      again.same_set h
          ∙ ap (λ (txs : List HeldTx). contains h (hashes txs)) queue
          ∙ sym (v.same_set h),
      keys,
    )
