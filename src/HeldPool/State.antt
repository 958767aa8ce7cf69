-- ===== src/HeldPool/State.antt =====
-- The state of crates/eez-composer/src/held_pool.rs, its sets, and the nonce that a chain expects.
use eez_rollup.Base.{
  ℕ, ◌+◌, ◌-◌, ◌*◌, ◌/◌, ◌^◌, min, max, List, [], ◌∷◌, ◌++◌, Bool, true, false, ltb, ◌==◌, ◌&&◌,
  ◌||◌, if◌then◌else◌, Option, none, some,
}

pub data Direction : Type 0 where
  inbound outbound : Direction

abbrev pub dir_eq : Direction → Direction → Bool
dir_eq inbound inbound = true
dir_eq outbound outbound = true
dir_eq _ _ = false

pub record HeldTx : Type 0 where
  pub raw_tx : List ℕ
  pub hash : ℕ
  pub attempts : ℕ
  pub sender : ℕ
  pub nonce : ℕ
  pub direction : Direction
  pub max_fee_per_gas : ℕ
  pub priority_fee_per_gas : ℕ

abbrev pub replacement_tx_cost_percent : ℕ
replacement_tx_cost_percent = 10

pub data AdmissionError : Type 0 where
  -- expected, on_chain
  nonce : ℕ → ℕ → AdmissionError
  -- offered and required fee cap, offered and required priority fee
  underpriced_replacement : ℕ → ℕ → ℕ → ℕ → AdmissionError

abbrev pub u64_max : ℕ
u64_max = 2 ^ 64 - 1

abbrev pub u128_max : ℕ
u128_max = 2 ^ 128 - 1

-- `saturating_mul` and `saturating_add` on u128 stop at the largest value.
unfoldable pub min_replacement_fee : ℕ → ℕ
min_replacement_fee replaced =
    let required_increase = max (min (replaced * replacement_tx_cost_percent) u128_max / 100) 1 in
    min (replaced + required_increase) u128_max

-- The value of a reservation.
pub record Reservation : Type 0 where
  pub sender : ℕ
  pub direction : Direction
  pub nonce : ℕ

abbrev pub InFlight : Type 0
InFlight = List (ℕ × Reservation)

-- The queue, oldest first, the hash set and the hash map of reservations.
pub record PoolState : Type 0 where
  pub txs : List HeldTx
  pub by_hash : List ℕ
  pub in_flight : InFlight

-- `HashSet::contains`, `remove`, and `insert` of a hash that may be there.
unfoldable pub contains : ℕ → List ℕ → Bool
contains h [] = false
contains h (x ∷ xs) = x == h || contains h xs

unfoldable pub remove_hash : ℕ → List ℕ → List ℕ
remove_hash h [] = []
remove_hash h (x ∷ xs) = let rest = remove_hash h xs in if x == h then rest else x ∷ rest

unfoldable pub insert_hash : ℕ → List ℕ → List ℕ
insert_hash h xs = if contains h xs then xs else h ∷ xs

-- `HashMap::contains_key`, `remove` and `entry(..).or_insert(..)`.
unfoldable pub has_key : ℕ → InFlight → Bool
has_key h [] = false
has_key h ((k, r) ∷ m) = k == h || has_key h m

unfoldable pub remove_key : ℕ → InFlight → InFlight
remove_key h [] = []
remove_key h ((k, r) ∷ m) = let rest = remove_key h m in if k == h then rest else (k, r) ∷ rest

unfoldable pub insert_key : ℕ → Reservation → InFlight → InFlight
insert_key h r m = if has_key h m then m else (h, r) ∷ m

abbrev pub on_chain_of : ℕ → Direction → ℕ → Direction → Bool
on_chain_of s d sender direction = s == sender && dir_eq d direction

-- The nonces of one chain that are queued or in flight.
unfoldable pub queued_nonces : ℕ → Direction → List HeldTx → List ℕ
queued_nonces s d [] = []
queued_nonces s d (tx ∷ txs) =
    let rest = queued_nonces s d txs in
    if on_chain_of s d tx.sender tx.direction then tx.nonce ∷ rest else rest

unfoldable pub in_flight_nonces : ℕ → Direction → InFlight → List ℕ
in_flight_nonces s d [] = []
in_flight_nonces s d ((k, r) ∷ m) =
    let rest = in_flight_nonces s d m in
    if on_chain_of s d r.sender r.direction then r.nonce ∷ rest else rest

-- `.filter(|nonce| *nonce >= on_chain).max()`
unfoldable pub highest : ℕ → List ℕ → Option ℕ
highest on_chain [] = none
highest on_chain (n ∷ ns) =
    let rest = highest on_chain ns in
    if ltb n on_chain then rest else elim rest [ none ↦ some n | some m ↦ some (max n m) ]

abbrev pub reserved_nonces : PoolState → ℕ → Direction → List ℕ
reserved_nonces s sender direction =
    queued_nonces sender direction s.txs ++ in_flight_nonces sender direction s.in_flight

-- `nonce.checked_add(1)`
abbrev pub checked_next : ℕ → Option ℕ
checked_next n = if n == u64_max then none else some (n + 1)

unfoldable pub next_expected_nonce : PoolState → ℕ → Direction → ℕ → Option ℕ
next_expected_nonce s sender direction on_chain =
    elim (highest on_chain (reserved_nonces s sender direction)) [
      | some n ↦ checked_next n
      | none ↦ some on_chain
    ]

unfoldable pub release_in_flight : PoolState → HeldTx → PoolState
release_in_flight s tx = record s { in_flight = remove_key tx.hash s.in_flight }

unfoldable pub mark_in_flight : PoolState → HeldTx → PoolState
mark_in_flight s tx = record s {
  in_flight =
      insert_key tx.hash (record { sender = tx.sender; direction = tx.direction; nonce = tx.nonce })
        s.in_flight;
}

unfoldable pub push_front_recovered : PoolState → HeldTx → PoolState
unfolding release_in_flight
push_front_recovered s tx =
    let s' = release_in_flight s tx in
    if contains tx.hash s'.by_hash
    then s'
    else record s' { txs = tx ∷ s'.txs; by_hash = tx.hash ∷ s'.by_hash }
