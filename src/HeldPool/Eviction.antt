-- ===== src/HeldPool/Eviction.antt =====
-- The chains of the pool after an eviction.
use eez_rollup.Base.{
  ℕ, ◌+◌, ◌≤◌, ◌<◌, ◌≡◌, refl, inl, inr, ap, ap₂, List, [], ◌∷◌, ◌++◌, Bool, true, false, ◌&&◌, leb,
  Option, some, none, if◌then◌else◌, All, All-append, length, arith, Bool-cases,
}
use eez_rollup.HeldPool.{
  Direction, HeldTx, InFlight, PoolState, on_chain_of, queued_nonces, in_flight_nonces, highest,
  reserved_nonces, next_expected_nonce, checked_next, evicted_by, evicted_txs, kept_txs,
  retain_below, evict_chain_at_or_above,
}
use eez_rollup.HeldPool.Admission.{dir_eq_sym, dir_eq→eq}

on_chain_of_sym : (s t : ℕ) (d e : Direction) → on_chain_of s d t e ≡ on_chain_of t e s d
on_chain_of_sym s t d e = ground (arith, dir_eq_sym d e)

nonce_kept :
    (here : Bool) (n m : ℕ) (ks : List ℕ)
    → All (λ k. k < n) ks
    → (here && leb n m) ≡ false
    → All (λ k. k < n) (if here then m ∷ ks else ks)
nonce_kept true n m ks below e = (ground arith, below)
nonce_kept false n m ks below e = below

kept_below :
    (sender : ℕ) (d : Direction) (n : ℕ) (txs : List HeldTx)
    → All (λ m. m < n) (queued_nonces sender d (kept_txs sender d n txs))
unfolding queued_nonces kept_txs
kept_below sender d n [] = tt
kept_below sender d n (tx ∷ txs) =
    let rest = kept_below sender d n txs in
    elim (Bool-cases (evicted_by sender d n tx)) [
      | inl out ↦ rw (out, kept_txs) rest
      | inr stays ↦
          rw (stays, kept_txs)
            (nonce_kept (on_chain_of sender d tx.sender tx.direction) n tx.nonce _ rest
              (ground (arith, on_chain_of_sym tx.sender sender tx.direction d)))
    ]

retained_below :
    (sender : ℕ) (d : Direction) (n : ℕ) (m : InFlight)
    → All (λ k. k < n) (in_flight_nonces sender d (retain_below sender d n m))
unfolding in_flight_nonces retain_below
retained_below sender d n [] = tt
retained_below sender d n ((k, r) ∷ m) =
    let rest = retained_below sender d n m in
    elim (Bool-cases (on_chain_of r.sender r.direction sender d && leb n r.nonce)) [
      | inl out ↦ rw (out, retain_below) rest
      | inr stays ↦
          rw (stays, retain_below)
            (nonce_kept (on_chain_of sender d r.sender r.direction) n r.nonce _ rest
              (ground (arith, on_chain_of_sym r.sender sender r.direction d)))
    ]

-- Of another chain every nonce stays.
kept_others :
    (sender other : ℕ) (d d' : Direction) (n : ℕ) (txs : List HeldTx)
    → on_chain_of other d' sender d ≡ false
    → queued_nonces other d' (kept_txs sender d n txs) ≡ queued_nonces other d' txs
unfolding queued_nonces kept_txs
kept_others sender other d d' n [] e = refl
kept_others sender other d d' n (tx ∷ txs) e = ground (
  arith,
  kept_others sender other d d' n txs,
  dir_eq→eq tx.direction d,
  dir_eq→eq d' tx.direction,
)

retained_others :
    (sender other : ℕ) (d d' : Direction) (n : ℕ) (m : InFlight)
    → on_chain_of other d' sender d ≡ false
    → in_flight_nonces other d' (retain_below sender d n m) ≡ in_flight_nonces other d' m
unfolding in_flight_nonces retain_below
retained_others sender other d d' n [] e = refl
retained_others sender other d d' n ((k, r) ∷ m) e = ground (
  arith,
  retained_others sender other d d' n m,
  dir_eq→eq r.direction d,
  dir_eq→eq d' r.direction,
)

taken_above :
    (sender : ℕ) (d : Direction) (n : ℕ) (txs : List HeldTx)
    → All (λ tx. evicted_by sender d n tx ≡ true) (evicted_txs sender d n txs)
unfolding evicted_txs
taken_above sender d n [] = tt
taken_above sender d n (tx ∷ txs) =
    let rest = taken_above sender d n txs in
    elim (Bool-cases (evicted_by sender d n tx)) [
      | inl out ↦ rw (out, evicted_txs) (out, rest)
      | inr stays ↦ rw (stays, evicted_txs) rest
    ]

kept_and_taken :
    (sender : ℕ) (d : Direction) (n : ℕ) (txs : List HeldTx)
    → length (kept_txs sender d n txs) + length (evicted_txs sender d n txs) ≡ length txs
unfolding kept_txs evicted_txs
kept_and_taken sender d n [] = refl
kept_and_taken sender d n (tx ∷ txs) = ground (arith, kept_and_taken sender d n txs)

highest_below :
    (on_chain n m : ℕ) (ns : List ℕ) → All (λ k. k < n) ns → highest on_chain ns ≡ some m → m < n
unfolding highest
highest_below on_chain n m [] below e = cc
highest_below on_chain n m (k ∷ ns) below e = ground (arith, highest_below on_chain n m ns below.1)

next_bound :
    (h : Option ℕ) (on_chain n m : ℕ)
    → ((k : ℕ) → h ≡ some k → k < n)
    → on_chain ≤ n
    → (elim h [ some k ↦ checked_next k | none ↦ some on_chain ]) ≡ some m
    → m ≤ n
next_bound none on_chain n m b le e = ground arith
next_bound (some k) on_chain n m b le e = ground (arith, b k refl)

-- After an eviction at or above `n` in a chain: every reservation left in the chain is under `n`,
-- every transaction returned is one of the chain at or above `n`, and the queue's length is that of what
-- is kept and what is returned.
pub evict_chain_below :
    (s : PoolState) (sender : ℕ) (d : Direction) (n : ℕ)
    → All (λ k. k < n) (reserved_nonces (evict_chain_at_or_above s sender d n).0 sender d)
      × All (λ tx. evicted_by sender d n tx ≡ true) (evict_chain_at_or_above s sender d n).1
      × (length (evict_chain_at_or_above s sender d n).0.txs
            + length (evict_chain_at_or_above s sender d n).1
          ≡ length s.txs)
unfolding evict_chain_at_or_above
evict_chain_below s sender d n = (
  All-append (λ k. k < n) (queued_nonces sender d (kept_txs sender d n s.txs))
      (in_flight_nonces sender d (retain_below sender d n s.in_flight))
      (kept_below sender d n s.txs) (retained_below sender d n s.in_flight),
  taken_above sender d n s.txs,
  kept_and_taken sender d n s.txs,
)

-- An eviction in one chain leaves every reservation of another chain, and so the nonce that the
-- other chain expects.
pub evict_chain_others :
    (s : PoolState) (sender other : ℕ) (d d' : Direction) (n on_chain : ℕ)
    → on_chain_of other d' sender d ≡ false
    → (reserved_nonces (evict_chain_at_or_above s sender d n).0 other d'
        ≡ reserved_nonces s other d')
      × (next_expected_nonce (evict_chain_at_or_above s sender d n).0 other d' on_chain
          ≡ next_expected_nonce s other d' on_chain)
unfolding evict_chain_at_or_above next_expected_nonce
evict_chain_others s sender other d d' n on_chain e =
    let same =
      ap₂ ◌++◌ (kept_others sender other d d' n s.txs e)
        (retained_others sender other d d' n s.in_flight e) in
    (
      same,
      ap (λ ns. elim (highest on_chain ns) [ some k ↦ checked_next k | none ↦ some on_chain ]) same,
    )

-- After an eviction at or above `n` the chain expects a nonce of at most `n`, if its on-chain nonce
-- is not beyond `n`.
pub evict_chain_expects :
    (s : PoolState) (sender : ℕ) (d : Direction) (n on_chain m : ℕ)
    → on_chain ≤ n
    → next_expected_nonce (evict_chain_at_or_above s sender d n).0 sender d on_chain ≡ some m
    → m ≤ n
unfolding next_expected_nonce
evict_chain_expects s sender d n on_chain m le e =
    next_bound
      (highest on_chain (reserved_nonces (evict_chain_at_or_above s sender d n).0 sender d))
      on_chain n m (λ k h. highest_below on_chain n k _ (evict_chain_below s sender d n).0 h) le e
