-- ===== src/Timing/DivCeil.antt =====
-- The bounds of `div_ceil`.
use native.Mathlib.Nat.{div-add-mod', mod-lt, add-mul}
use eez_rollup.Base.{ℕ, ◌+◌, ◌*◌, ◌/◌, ◌%◌, ◌≤◌, ◌<◌, ltb, arith, Bool-cases, inl, inr}
use eez_rollup.Timing.{div_ceil}

pub div_ceil_bounds : (a k : ℕ) → 0 < k → (a ≤ div_ceil a k * k) × (div_ceil a k * k < a + k)
unfolding div_ceil
div_ceil_bounds a k h = elim (Bool-cases (ltb 0 (a % k))) [
  | inl above ↦ rw above (
    ground (arith, add-mul (a / k) 1 k, div-add-mod' a k, mod-lt a h),
    ground (arith, add-mul (a / k) 1 k, div-add-mod' a k, mod-lt a h),
  )
  | inr exact ↦ rw exact (ground (arith, div-add-mod' a k), ground (arith, div-add-mod' a k))
]
