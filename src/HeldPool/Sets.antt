-- ===== src/HeldPool/Sets.antt =====
-- The laws of the pool's hash set and reservation map, one for each operation, in `if` form.
use eez_rollup.Base.{
  ℕ, ◌≡◌, refl, ap, List, [], ◌∷◌, ◌++◌, map, false, not, ◌==◌, ◌&&◌, ◌||◌, arith,
}
use eez_rollup.HeldPool.{
  HeldTx, InFlight, Reservation, contains, remove_hash, insert_hash, has_key, remove_key,
  insert_key,
}

pub contains-remove_hash :
    (h k : ℕ) (xs : List ℕ) → contains h (remove_hash k xs) ≡ (not (k == h) && contains h xs)
unfolding contains remove_hash
contains-remove_hash h k [] = ground arith
contains-remove_hash h k (x ∷ xs) = ground (arith, contains-remove_hash h k xs)

pub contains-insert_hash :
    (h k : ℕ) (xs : List ℕ) → contains h (insert_hash k xs) ≡ (k == h || contains h xs)
unfolding contains insert_hash
contains-insert_hash h k xs = ground (arith, contains_same h k xs)
  where
    contains_same : (h k : ℕ) (xs : List ℕ) → h ≡ k → contains h xs ≡ contains k xs
    contains_same h k xs e = ap (λ (t : ℕ). contains t xs) e

pub has_key-remove_key :
    (h k : ℕ) (m : InFlight) → has_key h (remove_key k m) ≡ (not (k == h) && has_key h m)
unfolding has_key remove_key
has_key-remove_key h k [] = ground arith
has_key-remove_key h k ((j, r) ∷ m) = ground (arith, has_key-remove_key h k m)

pub has_key-insert_key :
    (h k : ℕ) (r : Reservation) (m : InFlight)
    → has_key h (insert_key k r m) ≡ (k == h || has_key h m)
unfolding has_key insert_key
has_key-insert_key h k r m = ground (arith, has_key_same h k m)
  where
    has_key_same : (h k : ℕ) (m : InFlight) → h ≡ k → has_key h m ≡ has_key k m
    has_key_same h k m e = ap (λ (t : ℕ). has_key t m) e

pub contains-append :
    (h : ℕ) (xs ys : List ℕ) → contains h (xs ++ ys) ≡ (contains h xs || contains h ys)
unfolding contains
contains-append h [] ys = refl
contains-append h (x ∷ xs) ys = ground (arith, contains-append h xs ys)

-- No hash stands twice.
abbrev pub Distinct : List ℕ → Type 0
Distinct [] = Unit {0}
Distinct (x ∷ xs) = (contains x xs ≡ false) × Distinct xs

abbrev pub hashes : List HeldTx → List ℕ
hashes = map (λ tx. tx.hash)

pub ruleset set_laws = (
  contains-remove_hash, contains-insert_hash, has_key-remove_key, has_key-insert_key,
  contains-append,
)
