-- ===== src/HeldPool/Admission.antt =====
-- When a transaction is accepted, and what admission makes of the pool.
use eez_rollup.Base.{
  ℕ, ◌+◌, ◌*◌, ◌≤◌, ◌<◌, max, ◌≡◌, ◌↔◌, map, refl, ap, inl, inr, List, [], ◌∷◌, ◌++◌, true, false,
  Option, some, none, arith, Option-cases,
}
use eez_rollup.Base.Results.{ok}
use eez_rollup.HeldPool.{
  Direction, dir_eq, HeldTx, InFlight, PoolState, contains, has_key, queued_nonces,
  in_flight_nonces, highest, checked_next, next_expected_nonce, queued_match, set_match,
  replace_queued, append_next, push_contiguous, min_replacement_fee, u128_max, on_chain_of,
  in_flight_match, insert_hash, remove_hash,
}
use eez_rollup.HeldPool.Consistent.Push.{append_next-eq-ok}

-- `highest` over a list, and over a list with one more nonce at its end.
pub highest-append :
    (on_chain : ℕ) (xs ys : List ℕ)
    → highest on_chain (xs ++ ys) ≡ (elim (highest on_chain xs) [
      | none ↦ highest on_chain ys
      | some m ↦ elim (highest on_chain ys) [ none ↦ some m | some n ↦ some (max m n) ]
    ])
unfolding highest
highest-append on_chain [] ys = refl
highest-append on_chain (x ∷ xs) ys = ground (arith, highest-append on_chain xs ys)

queued_nonces_snoc :
    (s : ℕ) (d : Direction) (txs : List HeldTx) (tx : HeldTx)
    → on_chain_of s d tx.sender tx.direction ≡ true
    → queued_nonces s d (txs ++ (tx ∷ [])) ≡ queued_nonces s d txs ++ (tx.nonce ∷ [])
unfolding queued_nonces
queued_nonces_snoc s d [] tx e = ground arith
queued_nonces_snoc s d (x ∷ txs) tx e = ground (arith, queued_nonces_snoc s d txs tx)

dir_eq_refl : (d : Direction) → dir_eq d d ≡ true
dir_eq_refl Direction.inbound = refl
dir_eq_refl Direction.outbound = refl

min_replacement_fee_bounds : (fee : ℕ) → fee < u128_max → (fee < min_replacement_fee fee)
unfolding min_replacement_fee
min_replacement_fee_bounds fee h = omega arith

pub dir_eq→eq : (d e : Direction) → dir_eq d e ≡ true → d ≡ e
dir_eq→eq Direction.inbound Direction.inbound h = refl
dir_eq→eq Direction.inbound Direction.outbound h = cc
dir_eq→eq Direction.outbound Direction.inbound h = cc
dir_eq→eq Direction.outbound Direction.outbound h = refl

-- One more reservation at the end of the queue, and the nonce that is expected then.
next_after_append :
    (on_chain n : ℕ) (queued flying : List ℕ)
    → (elim (highest on_chain (queued ++ flying)) [
      | some m ↦ checked_next m
      | none ↦ some on_chain
    ])
      ≡ some n
    → on_chain ≤ n
    → (elim (highest on_chain ((queued ++ (n ∷ [])) ++ flying)) [
      | some m ↦ checked_next m
      | none ↦ some on_chain
    ])
      ≡ checked_next n
unfolding highest
next_after_append on_chain n queued flying e le = ground (
  arith,
  highest-append on_chain queued flying,
  highest-append on_chain (queued ++ (n ∷ [])) flying,
  highest-append on_chain queued (n ∷ []),
)

push_appends :
    (s s' : PoolState) (tx : HeldTx) (on_chain : ℕ)
    → push_contiguous s tx on_chain ≡ ok s'
    → contains tx.hash s.by_hash ≡ false
    → has_key tx.hash s.in_flight ≡ false
    → queued_match tx s.txs ≡ none
    → (on_chain ≤ tx.nonce) × (append_next s tx on_chain ≡ ok s')
unfolding push_contiguous
push_appends s s' tx on_chain e fresh free slot = ground arith

-- An admitted transaction whose hash is neither queued nor in flight, at a nonce that is not
-- queued, had the nonce that its chain expected, goes to the end of the queue, and moves the
-- expected nonce on by one.
pub push_contiguous_advances :
    (s s' : PoolState) (tx : HeldTx) (on_chain : ℕ)
    → push_contiguous s tx on_chain ≡ ok s'
    → contains tx.hash s.by_hash ≡ false
    → has_key tx.hash s.in_flight ≡ false
    → queued_match tx s.txs ≡ none
    → (next_expected_nonce s tx.sender tx.direction on_chain ≡ some tx.nonce)
      × (next_expected_nonce s' tx.sender tx.direction on_chain ≡ checked_next tx.nonce)
      × (s'.txs ≡ s.txs ++ (tx ∷ []))
unfolding next_expected_nonce
push_contiguous_advances s s' tx on_chain e fresh free slot =
    let (le, e') = push_appends s s' tx on_chain e fresh free slot in
    let (same, expected, clear) = append_next-eq-ok s s' tx on_chain e' in
    let next =
      next_after_append on_chain tx.nonce (queued_nonces tx.sender tx.direction s.txs)
        (in_flight_nonces tx.sender tx.direction s.in_flight) expected le in
    let own : on_chain_of tx.sender tx.direction tx.sender tx.direction ≡ true =
      ground (arith, dir_eq_refl tx.direction) in
    (
      expected,
      rw same (ground (arith, next, queued_nonces_snoc tx.sender tx.direction s.txs tx own)),
      ap (λ (t : PoolState). t.txs) same,
    )

-- One past the highest reservation, or 0.
abbrev pub above : Option ℕ → ℕ
above none = 0
above (some n) = n + 1

pub dir_eq_sym : (d e : Direction) → dir_eq d e ≡ dir_eq e d
dir_eq_sym Direction.inbound Direction.inbound = refl
dir_eq_sym Direction.inbound Direction.outbound = refl
dir_eq_sym Direction.outbound Direction.inbound = refl
dir_eq_sym Direction.outbound Direction.outbound = refl

-- A nonce in flight is counted by `highest`.
in_flight_match_below :
    (tx : HeldTx) (on_chain : ℕ) (m : InFlight)
    → in_flight_match tx m ≡ true
    → on_chain ≤ tx.nonce
    → tx.nonce < above (highest on_chain (in_flight_nonces tx.sender tx.direction m))
unfolding in_flight_match in_flight_nonces highest
in_flight_match_below tx on_chain [] e le = cc
in_flight_match_below tx on_chain ((h, r) ∷ m) e le =
    ground (arith, in_flight_match_below tx on_chain m, dir_eq_sym r.direction tx.direction)

pub highest_bound :
    (on_chain : ℕ) (ns : List ℕ) (m : ℕ) → highest on_chain ns ≡ some m → on_chain ≤ m
unfolding highest
highest_bound on_chain [] m e = cc
highest_bound on_chain (n ∷ ns) m e = elim (Option-cases (highest on_chain ns)) [
  | inl none_above ↦ ground arith
  | inr (k, h) ↦ ground (arith, highest_bound on_chain ns k h)
]

pub expected_bound :
    (h : Option ℕ) (on_chain n : ℕ)
    → ((m : ℕ) → h ≡ some m → on_chain ≤ m)
    → (elim h [ some m ↦ checked_next m | none ↦ some on_chain ]) ≡ some n
    → (on_chain ≤ n) × (above h ≤ n)
expected_bound none on_chain n b e = ground arith
expected_bound (some m) on_chain n b e = ground (arith, b m refl)

-- No reservation stands at the nonce that the chain expects.
expected_not_in_flight :
    (s : PoolState) (tx : HeldTx) (on_chain : ℕ)
    → next_expected_nonce s tx.sender tx.direction on_chain ≡ some tx.nonce
    → (in_flight_match tx s.in_flight ≡ false) × (on_chain ≤ tx.nonce)
unfolding next_expected_nonce
expected_not_in_flight s tx on_chain e =
    let flying = in_flight_nonces tx.sender tx.direction s.in_flight in
    let queued = queued_nonces tx.sender tx.direction s.txs in
    let (le, bound) =
      expected_bound (highest on_chain (queued ++ flying)) on_chain tx.nonce
        (highest_bound on_chain (queued ++ flying)) e in
    (
      ground (
        arith,
        bound,
        highest-append on_chain queued flying,
        in_flight_match_below tx on_chain s.in_flight,
      ),
      le,
    )

-- A transaction whose hash is neither queued nor in flight, at a nonce that is not queued, is
-- accepted exactly when it has the nonce that its chain expects.
pub push_contiguous_accepts_iff :
    (s : PoolState) (tx : HeldTx) (on_chain : ℕ)
    → contains tx.hash s.by_hash ≡ false
    → has_key tx.hash s.in_flight ≡ false
    → queued_match tx s.txs ≡ none
    → ((s' : PoolState) × (push_contiguous s tx on_chain ≡ ok s'))
      ↔ (next_expected_nonce s tx.sender tx.direction on_chain ≡ some tx.nonce)
push_contiguous_accepts_iff s tx on_chain fresh free slot = (
  λ (s', e). (push_contiguous_advances s s' tx on_chain e fresh free slot).0,
  λ e.
      let (clear, le) = expected_not_in_flight s tx on_chain e in
      (
        record s { txs = s.txs ++ (tx ∷ []); by_hash = insert_hash tx.hash s.by_hash },
        unfold push_contiguous append_next in ground arith,
      ),
)

-- A replacement: same slots in the same order, and both fees bumped by a tenth and by one at least.
abbrev pub Slot : Type 0
Slot = ℕ × Direction × ℕ

abbrev pub slots : List HeldTx → List Slot
slots = map (λ tx. (tx.sender, tx.direction, tx.nonce))

slots-set_match : (tx : HeldTx) (txs : List HeldTx) → slots (set_match tx txs) ≡ slots txs
unfolding set_match
slots-set_match tx [] = refl
slots-set_match tx (q ∷ txs) = ground (
  arith,
  slots-set_match tx txs,
  dir_eq→eq tx.direction q.direction,
  dir_eq_sym q.direction tx.direction,
)

bumped :
    (old new : ℕ)
    → 11 * old ≤ u128_max
    → min_replacement_fee old ≤ new
    → (old < new) × (11 * old ≤ 10 * new + 9)
unfolding min_replacement_fee
bumped old new h le = ground arith

replaced_eq :
    (s s' : PoolState) (tx q : HeldTx) (on_chain : ℕ)
    → push_contiguous s tx on_chain ≡ ok s'
    → contains tx.hash s.by_hash ≡ false
    → has_key tx.hash s.in_flight ≡ false
    → queued_match tx s.txs ≡ some q
    → (s' ≡ record s {
      txs = set_match tx s.txs;
      by_hash = insert_hash tx.hash (remove_hash q.hash s.by_hash);
    })
      × (min_replacement_fee q.max_fee_per_gas ≤ tx.max_fee_per_gas)
      × (min_replacement_fee q.priority_fee_per_gas ≤ tx.priority_fee_per_gas)
unfolding push_contiguous replace_queued
replaced_eq s s' tx q on_chain e fresh free m = ground arith

-- An admitted transaction whose hash is neither queued nor in flight, at a nonce that is queued,
-- keeps the slots of the queue and their order and every reservation, and both its fees are
-- above the queued ones and, up to the rounding of the division, by a tenth. Eleven times each
-- queued fee fits in 128 bits.
pub push_contiguous_replaces :
    (s s' : PoolState) (tx q : HeldTx) (on_chain : ℕ)
    → push_contiguous s tx on_chain ≡ ok s'
    → contains tx.hash s.by_hash ≡ false
    → has_key tx.hash s.in_flight ≡ false
    → queued_match tx s.txs ≡ some q
    → 11 * q.max_fee_per_gas ≤ u128_max
    → 11 * q.priority_fee_per_gas ≤ u128_max
    → (slots s'.txs ≡ slots s.txs)
      × (s'.in_flight ≡ s.in_flight)
      × (q.max_fee_per_gas < tx.max_fee_per_gas)
      × (11 * q.max_fee_per_gas ≤ 10 * tx.max_fee_per_gas + 9)
      × (q.priority_fee_per_gas < tx.priority_fee_per_gas)
      × (11 * q.priority_fee_per_gas ≤ 10 * tx.priority_fee_per_gas + 9)
push_contiguous_replaces s s' tx q on_chain e fresh free m cap tip =
    let (same, max_fee, tip_fee) = replaced_eq s s' tx q on_chain e fresh free m in
    let (max_more, max_tenth) = bumped q.max_fee_per_gas tx.max_fee_per_gas cap max_fee in
    let (tip_more, tip_tenth) = bumped q.priority_fee_per_gas tx.priority_fee_per_gas tip tip_fee in
    (rw same (slots-set_match tx s.txs), rw same refl, max_more, max_tenth, tip_more, tip_tenth)
