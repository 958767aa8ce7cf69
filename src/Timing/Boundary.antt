-- ===== src/Timing/Boundary.antt =====
-- Where a bounded settlement chunk ends.
use native.Mathlib.Nat.{mul-le-mul_left, mul_comm, add-mul}
use eez_rollup.Base.{
  ℕ, zero, suc, ◌+◌, ◌-◌, ◌*◌, ◌≤◌, ◌<◌, min, ◌≡◌, ◌↔◌, ◌⊎◌, inl, inr, refl, some, arith,
}
use eez_rollup.Timing.{RollupTiming, u64_max, k, historical_chunk_boundary, div_ceil}
use eez_rollup.Timing.DivCeil.{div_ceil_bounds}

next_multiple : (a b k : ℕ) → a < b → a * k + k ≤ b * k
next_multiple a b k h =
    let le : k * (a + 1) ≤ k * b = mul-le-mul_left {m = a + 1} k (omega arith) in
    omega (arith, mul_comm k b, mul_comm k (a + 1), add-mul a 1 k)

-- A window of length `k` holds one multiple of `k` at most.
one_multiple : (a b o k : ℕ) → o ≤ a * k → a * k < o + k → o ≤ b * k → b * k < o + k → a * k ≡ b * k
one_multiple a b o k h1 h2 h3 h4 = elim (trichotomy a b) [
  | inl less ↦ omega (arith, next_multiple a b k less)
  | inr (inl same) ↦ rw same refl
  | inr (inr more) ↦ omega (arith, next_multiple b a k more)
]
  where
    trichotomy : (a b : ℕ) → (a < b) ⊎ ((a ≡ b) ⊎ (b < a))
    trichotomy a b = ground arith

small_multiple : (n k : ℕ) → n * k < k → n * k ≡ 0
small_multiple zero k h = omega arith
small_multiple (suc n) k h = absurd (omega (arith, next_multiple 0 (suc n) k (omega arith)))

-- For a positive K and a u64 height of the slot: the terminal of a chunk from `cursor` with
-- `cap` blocks at most is `b` exactly when the slot's own height is beyond the cap, and `b` is
-- the largest height within the cap that is whole K's before it, and beyond the cursor.
pub historical_chunk_boundary_iff :
    (t : RollupTiming) (cursor sync cap b : ℕ)
    → 0 < k t
    → sync ≤ u64_max
    → (historical_chunk_boundary t cursor sync cap ≡ some b) ↔ (
        (cursor < b)
        × (b ≤ cursor + cap)
        × (cursor + cap < sync)
        × (cursor + cap < b + k t)
        × ((j : ℕ) × (b + j * k t ≡ sync)))
unfolding historical_chunk_boundary
historical_chunk_boundary_iff t cursor sync cap b hk wide =
    let over = sync - min (cursor + cap) u64_max in
    let n = div_ceil over (k t) in
    let (lower, upper) = div_ceil_bounds over (k t) hk in
    (
      λ e.
          let far : cursor + cap < sync = ground (arith, lower, upper, small_multiple n (k t)) in
          (
            ground (arith, lower, upper),
            ground (arith, lower, upper),
            far,
            ground (arith, lower, upper),
            (n, ground (arith, lower, upper)),
          ),
      λ (after, within, far, last, (j, whole)).
          let same : j * k t ≡ n * k t =
            one_multiple j n over (k t) (omega arith) (omega arith) lower upper in
          ground (arith, same),
    )
