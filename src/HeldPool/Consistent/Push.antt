-- ===== src/HeldPool/Consistent/Push.antt =====
-- The invariant through admission.
use eez_rollup.Base.{
  ℕ, ◌≤◌, ◌≡◌, refl, sym, ◌∙◌, inl, inr, List, [], ◌∷◌, ◌++◌, true, false, not, ◌==◌, ◌&&◌, ◌||◌,
  some, none, arith, Bool-cases, Option-cases,
}
use eez_rollup.Base.Results.{ok}
use eez_rollup.HeldPool.{
  next_expected_nonce, in_flight_match, HeldTx, PoolState, contains, remove_hash, insert_hash,
  has_key, queued_match, set_match, replace_queued, append_next, push_contiguous, same_slot,
}
use eez_rollup.HeldPool.Sets.{contains-remove_hash, contains-insert_hash, Distinct, hashes}
use eez_rollup.HeldPool.Consistent.{IsConsistent, contains_eq, has_key_eq}

contains-hashes_snoc :
    (h : ℕ) (xs : List HeldTx) (tx : HeldTx)
    → contains h (hashes (xs ++ (tx ∷ []))) ≡ (contains h (hashes xs) || tx.hash == h)
unfolding contains
contains-hashes_snoc h [] tx = ground arith
contains-hashes_snoc h (x ∷ xs) tx = ground (arith, contains-hashes_snoc h xs tx)

snoc-Distinct :
    (xs : List HeldTx) (tx : HeldTx)
    → Distinct (hashes xs)
    → contains tx.hash (hashes xs) ≡ false
    → Distinct (hashes (xs ++ (tx ∷ [])))
unfolding contains
snoc-Distinct [] tx d h = (refl, tt)
snoc-Distinct (x ∷ xs) tx d h =
    (ground (arith, contains-hashes_snoc x.hash xs tx), snoc-Distinct xs tx d.1 (ground arith))

back-IsConsistent :
    (s : PoolState) (tx : HeldTx)
    → IsConsistent s
    → contains tx.hash s.by_hash ≡ false
    → has_key tx.hash s.in_flight ≡ false
    → IsConsistent (record s { txs = s.txs ++ (tx ∷ []); by_hash = insert_hash tx.hash s.by_hash })
back-IsConsistent s tx v fresh free = record {
  same_set = λ h. ground (
    arith,
    v.same_set h,
    contains-insert_hash h tx.hash s.by_hash,
    contains-hashes_snoc h s.txs tx,
  );
  distinct = snoc-Distinct s.txs tx v.distinct (sym (v.same_set tx.hash) ∙ fresh);
  disjoint = λ h.
      ground
        (arith, v.disjoint h, contains-hashes_snoc h s.txs tx, has_key_eq h tx.hash s.in_flight);
}

-- What an accepted append has done, and the nonce that it was given.
pub append_next-eq-ok :
    (s s' : PoolState) (tx : HeldTx) (on_chain : ℕ)
    → append_next s tx on_chain ≡ ok s'
    → (s' ≡ record s { txs = s.txs ++ (tx ∷ []); by_hash = insert_hash tx.hash s.by_hash })
      × (next_expected_nonce s tx.sender tx.direction on_chain ≡ some tx.nonce)
      × (in_flight_match tx s.in_flight ≡ false)
unfolding append_next
append_next-eq-ok s s' tx on_chain e = ground arith

queued_match-contains :
    (tx q : HeldTx) (xs : List HeldTx)
    → queued_match tx xs ≡ some q
    → contains q.hash (hashes xs) ≡ true
unfolding contains queued_match
queued_match-contains tx q [] e = cc
queued_match-contains tx q (x ∷ xs) e = ground (arith, queued_match-contains tx q xs)

-- A replacement in place: what the queue holds then.
contains-set_match :
    (h : ℕ) (tx q : HeldTx) (xs : List HeldTx)
    → queued_match tx xs ≡ some q
    → Distinct (hashes xs)
    → contains h (hashes (set_match tx xs))
      ≡ (tx.hash == h || (contains h (hashes xs) && not (q.hash == h)))
unfolding contains queued_match set_match
contains-set_match h tx q [] e d = cc
contains-set_match h tx q (x ∷ xs) e d = ground (
  arith,
  contains-set_match h tx q xs,
  contains_eq h x.hash (hashes xs),
  queued_match-contains tx q xs,
  contains_eq x.hash q.hash (hashes xs),
)

set_match-Distinct :
    (tx q : HeldTx) (xs : List HeldTx)
    → queued_match tx xs ≡ some q
    → Distinct (hashes xs)
    → contains tx.hash (hashes xs) ≡ false
    → Distinct (hashes (set_match tx xs))
unfolding contains queued_match set_match
set_match-Distinct tx q [] e d h = cc
set_match-Distinct tx q (x ∷ xs) e d h = elim (Bool-cases (same_slot tx x)) [
  | inl hit ↦ rw (hit, set_match) (ground arith, d.1)
  | inr miss ↦
      let more : queued_match tx xs ≡ some q = ground arith in
      rw (miss, set_match)
        (
          ground (arith, contains-set_match x.hash tx q xs),
          set_match-Distinct tx q xs more d.1 (ground arith),
        )
]

replace_queued-IsConsistent :
    (s s' : PoolState) (tx q : HeldTx)
    → IsConsistent s
    → contains tx.hash s.by_hash ≡ false
    → has_key tx.hash s.in_flight ≡ false
    → queued_match tx s.txs ≡ some q
    → replace_queued s tx q ≡ ok s'
    → IsConsistent s'
unfolding replace_queued
replace_queued-IsConsistent s s' tx q v fresh free m e =
    let same : s' ≡ record s {
      txs = set_match tx s.txs;
      by_hash = insert_hash tx.hash (remove_hash q.hash s.by_hash);
    } =
      ground arith in
    rw same (record {
      same_set = λ h. ground (
        arith,
        v.same_set h,
        contains-insert_hash h tx.hash (remove_hash q.hash s.by_hash),
        contains-remove_hash h q.hash s.by_hash,
        contains-set_match h tx q s.txs m v.distinct,
      );
      distinct = set_match-Distinct tx q s.txs m v.distinct (sym (v.same_set tx.hash) ∙ fresh);
      disjoint = λ h. ground (
        arith,
        v.disjoint h,
        contains-set_match h tx q s.txs m v.distinct,
        has_key_eq h tx.hash s.in_flight,
      );
    })

-- The three ways in which `push_contiguous` accepts a transaction.
pub data Admitted (s : PoolState) (tx : HeldTx) (on_chain : ℕ) (s' : PoolState) : Type 0 where
  duplicate :
      (contains tx.hash s.by_hash || has_key tx.hash s.in_flight) ≡ true
      → s' ≡ s
      → Admitted s tx on_chain s'
  replaced :
      (q : HeldTx)
      → contains tx.hash s.by_hash ≡ false
      → has_key tx.hash s.in_flight ≡ false
      → on_chain ≤ tx.nonce
      → queued_match tx s.txs ≡ some q
      → replace_queued s tx q ≡ ok s'
      → Admitted s tx on_chain s'
  appended :
      contains tx.hash s.by_hash ≡ false
      → has_key tx.hash s.in_flight ≡ false
      → on_chain ≤ tx.nonce
      → queued_match tx s.txs ≡ none
      → append_next s tx on_chain ≡ ok s'
      → Admitted s tx on_chain s'

pub push_contiguous-Admitted :
    (s s' : PoolState) (tx : HeldTx) (on_chain : ℕ)
    → push_contiguous s tx on_chain ≡ ok s'
    → Admitted s tx on_chain s'
unfolding push_contiguous
push_contiguous-Admitted s s' tx on_chain e =
    elim (Bool-cases (contains tx.hash s.by_hash || has_key tx.hash s.in_flight)) [
      | inl known ↦ duplicate known (ground arith)
      | inr fresh ↦ elim (Option-cases (queued_match tx s.txs)) [
        | inl free ↦ appended (ground arith) (ground arith) (ground arith) free (ground arith)
        | inr (q, m) ↦ replaced q (ground arith) (ground arith) (ground arith) m (ground arith)
      ]
    ]

pub push_contiguous-IsConsistent :
    (s s' : PoolState) (tx : HeldTx) (on_chain : ℕ)
    → IsConsistent s
    → push_contiguous s tx on_chain ≡ ok s'
    → IsConsistent s'
push_contiguous-IsConsistent s s' tx on_chain v e =
    by_case (push_contiguous-Admitted s s' tx on_chain e)
  where
    by_case : Admitted s tx on_chain s' → IsConsistent s'
    by_case (duplicate known same) = rw same v
    by_case (replaced q fresh free le m e') =
        replace_queued-IsConsistent s s' tx q v fresh free m e'
    by_case (appended fresh free le m e') =
        rw ((append_next-eq-ok s s' tx on_chain e').0) (back-IsConsistent s tx v fresh free)
