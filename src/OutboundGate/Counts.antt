-- ===== src/OutboundGate/Counts.antt =====
-- The counts of the events, as a multiset.
use eez_rollup.Base.{
  ℕ, ◌+◌, ◌≡◌, refl, sym, ap, ◌∙◌, List, [], ◌∷◌, map, true, false, ltb, ◌==◌, if◌then◌else◌,
  Bool-cases, All, Option, none, some, arith, inl, inr,
}
use eez_rollup.Base.Results.{ok, err, ok-injective}
use eez_rollup.OutboundGate.{
  OutboundCallObservation, Counts, add_one, kept_before, take_one, collect, event_call_gas,
  supported_call_gas,
}

-- How often a hash stands in a list, and in the counts.
abbrev pub count : ℕ → List ℕ → ℕ
count h [] = 0
count h (x ∷ xs) = (if x == h then 1 else 0) + count h xs

abbrev pub count_in : ℕ → Counts → ℕ
count_in h [] = 0
count_in h ((k, n) ∷ m) = if k == h then n else count_in h m

count_in-add_one :
    (h x : ℕ) (m : Counts) → count_in h (add_one x m) ≡ (if x == h then 1 else 0) + count_in h m
unfolding add_one
count_in-add_one h x [] = ground arith
count_in-add_one h x ((k, n) ∷ m) = ground (arith, count_in-add_one h x m)

-- Taking one of `x` succeeds exactly when there is one, and takes one.
unfoldable pub TakesOne : ℕ → Counts → Option Counts → Type 0
TakesOne x m none = count_in x m ≡ 0
TakesOne x m (some m') = (h : ℕ) → count_in h m ≡ (if x == h then 1 else 0) + count_in h m'

kept_before-TakesOne :
    (x k n : ℕ) (m : Counts) (o : Option Counts)
    → (k == x) ≡ false
    → TakesOne x m o
    → TakesOne x ((k, n) ∷ m) (kept_before (k, n) o)
unfolding TakesOne
kept_before-TakesOne x k n m none other t = ground arith
kept_before-TakesOne x k n m (some m') other t =
    λ h. let one : count_in h m ≡ (if x == h then 1 else 0) + count_in h m' = t h in ground arith

pub take_one-TakesOne : (x : ℕ) (m : Counts) → TakesOne x m (take_one x m)
unfolding take_one TakesOne
take_one-TakesOne x [] = refl
take_one-TakesOne x ((k, n) ∷ m) = elim (Bool-cases (k == x)) [
  | inl same ↦ elim (Bool-cases (ltb 0 n)) [
    | inl more ↦ rw (same, more) (λ h. ground arith)
    | inr empty ↦ rw (same, empty) (ground arith)
  ]
  | inr other ↦ rw other (kept_before-TakesOne x k n m (take_one x m) other (take_one-TakesOne x m))
]

-- What the collected counts hold, if no event used gas.
abbrev pub IsGasless : OutboundCallObservation → Type 0
IsGasless o = o.call_gas ≡ supported_call_gas

abbrev pub hashes_of : List OutboundCallObservation → List ℕ
hashes_of observed = map (λ o. o.call_hash) observed

pub record Collected (m : Counts) (observed : List OutboundCallObservation) (m' : Counts)
    : Type 0 where
  pub gasless : All IsGasless observed
  pub counted : (h : ℕ) → count_in h m' ≡ count h (hashes_of observed) + count_in h m

pub collect-Collected :
    (m : Counts) (observed : List OutboundCallObservation) (m' : Counts)
    → collect m observed ≡ ok m'
    → Collected m observed m'
unfolding collect
collect-Collected m [] m' e = record {
  gasless = tt;
  counted = λ h. ap (count_in h) (sym (ok-injective e)) ∙ omega arith;
}
collect-Collected m (o ∷ observed) m' e = elim (Bool-cases (o.call_gas == supported_call_gas)) [
  | inl free ↦
      let c = collect-Collected (add_one o.call_hash m) observed m' (rw (free, collect) at e) in
      record {
        gasless = (ground arith, c.gasless);
        counted = λ h. omega (arith, c.counted h, count_in-add_one h o.call_hash m);
      }
  | inr paid ↦ let refused : err (event_call_gas o.call_gas) ≡ ok m' = rw (paid, collect) at e in cc
]

pub collect_of :
    (m : Counts) (observed : List OutboundCallObservation)
    → All IsGasless observed
    → (m' : Counts) × (collect m observed ≡ ok m')
unfolding collect
collect_of m [] h = (m, refl)
collect_of m (o ∷ observed) h =
    let (m', e) = collect_of (add_one o.call_hash m) observed h.1 in
    let free : (o.call_gas == supported_call_gas) ≡ true = ground (arith, h.0) in
    (m', rw (free, collect) e)
