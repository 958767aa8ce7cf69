-- ===== src/HeldPool/Consistent.antt =====
-- The invariant of the pool: the hash set is that of the queue, no hash is queued twice, and none
-- is both queued and in flight.
pub mod Push
pub mod Drain
use eez_rollup.Base.{
  ℕ, zero, suc, ◌+◌, min, ◌≡◌, refl, sym, ap, ◌∙◌, ◌⊎◌, inl, inr, List, [], ◌∷◌, ◌++◌, map, Bool,
  true, false, not, ◌==◌, ◌&&◌, ◌||◌, ltb, leb, if◌then◌else◌, Option, some, none, take, drop,
  length, take-append-drop, arith, Bool-cases, Option-cases,
}
use eez_rollup.Base.Results.{Result, ok, err}
use eez_rollup.HeldPool.{
  next_expected_nonce, in_flight_match, Direction, HeldTx, InFlight, Reservation, PoolState,
  contains, remove_hash, insert_hash, has_key, remove_key, insert_key, release_in_flight,
  mark_in_flight, push_front_recovered, queued_match, set_match, replace_queued, append_next,
  push_contiguous, recover, recover_all, push_front_batch, release_in_flight_batch, evicted_txs,
  kept_txs, remove_hashes, retain_below, evict_chain_at_or_above, reserve_all, pop_n, empty_pool,
  Root, same_slot, root_of, evicted_by,
}
use eez_rollup.HeldPool.Sets.{
  contains-remove_hash, contains-insert_hash, has_key-remove_key, has_key-insert_key,
  contains-append, Distinct, hashes,
}

-- As the pool is while `ds` have left the queue and are not yet reserved.
pub record Drained (ds : List HeldTx) (s : PoolState) : Type 0 where
  pub same_set : (h : ℕ) → contains h s.by_hash ≡ contains h (hashes (ds ++ s.txs))
  pub distinct : Distinct (hashes (ds ++ s.txs))
  pub disjoint : (h : ℕ) → (contains h (hashes (ds ++ s.txs)) && has_key h s.in_flight) ≡ false

abbrev pub IsConsistent : PoolState → Type 0
IsConsistent s = Drained [] s

pub empty_pool-IsConsistent : IsConsistent empty_pool
unfolding contains has_key
empty_pool-IsConsistent = record { same_set = λ h. refl; distinct = tt; disjoint = λ h. refl }

pub release_in_flight-IsConsistent :
    (s : PoolState) (tx : HeldTx) → IsConsistent s → IsConsistent (release_in_flight s tx)
unfolding release_in_flight
release_in_flight-IsConsistent s tx v = record {
  same_set = v.same_set;
  distinct = v.distinct;
  disjoint = λ h. ground (arith, v.disjoint h, has_key-remove_key h tx.hash s.in_flight);
}

pub contains-cons : (h x : ℕ) (xs : List ℕ) → contains h (x ∷ xs) ≡ (x == h || contains h xs)
unfolding contains
contains-cons h x xs = refl

pub contains_eq : (h k : ℕ) (xs : List ℕ) → h ≡ k → contains h xs ≡ contains k xs
contains_eq h k xs e = ap (λ (t : ℕ). contains t xs) e

pub has_key_eq : (h k : ℕ) (m : InFlight) → h ≡ k → has_key h m ≡ has_key k m
has_key_eq h k m e = ap (λ (t : ℕ). has_key t m) e

-- A hash that is not queued joins the queue, at either end, when no reservation is left for it.
front-IsConsistent :
    (s : PoolState) (tx : HeldTx)
    → IsConsistent s
    → contains tx.hash s.by_hash ≡ false
    → has_key tx.hash s.in_flight ≡ false
    → IsConsistent (record s { txs = tx ∷ s.txs; by_hash = tx.hash ∷ s.by_hash })
front-IsConsistent s tx v fresh free = record {
  same_set = λ h. ground (
    arith,
    v.same_set h,
    contains-cons h tx.hash s.by_hash,
    contains-cons h tx.hash (hashes s.txs),
  );
  distinct = (sym (v.same_set tx.hash) ∙ fresh, v.distinct);
  disjoint = λ h. ground (
    arith,
    v.disjoint h,
    contains-cons h tx.hash (hashes s.txs),
    has_key_eq h tx.hash s.in_flight,
  );
}

pub push_front_recovered-IsConsistent :
    (s : PoolState) (tx : HeldTx) → IsConsistent s → IsConsistent (push_front_recovered s tx)
unfolding push_front_recovered
push_front_recovered-IsConsistent s tx v =
    let released = release_in_flight-IsConsistent s tx v in
    elim (Bool-cases (contains tx.hash s.by_hash)) [
      | inl queued ↦ rw queued released
      | inr fresh ↦ rw fresh (
          front-IsConsistent (release_in_flight s tx) tx released fresh
            (ground (arith, has_key-remove_key tx.hash tx.hash s.in_flight)))
    ]
