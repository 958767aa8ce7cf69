-- ===== src/Timing/Trigger.antt =====
-- What one trigger of crates/eez-driver/src/timing.rs may answer.
use native.Mathlib.Nat.{add-mul}
use eez_rollup.Base.{
  ℕ, zero, suc, ◌+◌, ◌-◌, ◌*◌, ◌≤◌, ◌<◌, min, ◌≡◌, ◌⊎◌, refl, inl, inr, leb, ◌||◌, arith,
  Bool-cases,
}
use eez_rollup.Base.Results.{ok}
use eez_rollup.Timing.{
  RollupTiming, SlotComposition, idle, catchup, slot, u32_max, u64_max, k, validate, future_count,
  over_catch, per_trigger_composition, div_ceil,
}
use eez_rollup.Timing.DivCeil.{div_ceil_bounds}
use eez_rollup.Timing.Layout.{validate-layout}

-- What a trigger at `head` may answer for the slot of `k` blocks, `region` of them Future, that ends
-- at `sync`, with a budget of `most` blocks.
abbrev pub Reaches : ℕ → ℕ → ℕ → ℕ → ℕ → SlotComposition → Type 0
Reaches k region head sync most idle = sync ≤ head
Reaches k region head sync most (slot live future) =
    (head + live + future + 1 ≡ sync)
    × (live + future + 1 ≤ k)
    × (future ≡ min region (sync - (head + 1)))
Reaches k region head sync most (catchup live) =
    (steps : ℕ) × (head + live + 1 + steps * k ≡ sync)
    × (live + 1 ≤ most)
    × (k < live + 1 + steps * k)
    × ((steps ≡ 0) ⊎ (most < live + 1 + k))

-- A multiple that covers nothing with less than one `k` to spare is none.
no_steps : (steps k : ℕ) → steps * k < k → steps ≡ 0
no_steps zero k h = refl
no_steps (suc n) k h = absurd (omega (arith, add-mul n 1 k, h))

over_catch-Reaches :
    (k region head sync most : ℕ)
    → 0 < k
    → k ≤ most
    → sync ≤ u64_max
    → head + k < sync
    → Reaches k region head sync most (over_catch k head sync most)
unfolding over_catch
over_catch-Reaches k region head sync most hk budget fits far =
    let steps = div_ceil (sync - head - most) k in
    let (lower, upper) = div_ceil_bounds (sync - head - most) k hk in
    let snap = min (steps * k) u64_max in
    elim (Bool-cases (leb sync snap || leb (sync - snap) head)) [
      | inl stuck ↦ absurd (ground (arith, lower, upper))
      | inr moves ↦ rw moves (
        steps,
        ground (arith, lower, upper),
        ground (arith, lower, upper),
        ground (arith, lower, upper),
        elim (Bool-cases (leb (sync - head) most)) [
          | inl covered ↦ inl (no_steps steps k (ground (arith, lower, upper)))
          | inr bounded ↦ inr (ground (arith, lower, upper))
        ],
      )
    ]

-- On a validated timing of u32 times, with a budget of K blocks at least, for a target that is a
-- u64 and beyond the Future region: a trigger is idle only at or past the target; otherwise it
-- produces the blocks up to the target, at most K of them, of which the last before Sync are Future
-- blocks, as many as the Future region has or as are missing; or more than K are missing and it
-- produces no more than the budget, up to a height that is whole K's before the target, where that
-- height is the target or K blocks more would be beyond the budget.
pub per_trigger_composition-Reaches :
    (t : RollupTiming) (head sync most : ℕ)
    → t.l1_block_time_ms ≤ u32_max
    → validate t ≡ ok tt
    → k t ≤ most
    → future_count t < sync
    → sync ≤ u64_max
    → Reaches (k t) (future_count t) head sync most (per_trigger_composition t head sync most)
unfolding per_trigger_composition
per_trigger_composition-Reaches t head sync most fits e budget beyond wide =
    let (live, is_live, sum, one, covers, tight) = validate-layout t fits e in
    elim (Bool-cases (leb sync head)) [
      | inl past ↦ rw past (ground arith)
      | inr before ↦ elim (Bool-cases (leb (sync - (future_count t + 1)) head)) [
        | inl inside ↦ rw (before, inside) (ground arith, ground arith, ground arith)
        | inr under ↦
            elim (Bool-cases
              (leb (sync - (future_count t + 1) - head) (k t - (future_count t + 1)))) [
                | inl near ↦ rw (before, under, near) (ground arith, ground arith, ground arith)
                | inr far ↦
                    rw (before, under, far)
                      (over_catch-Reaches (k t) (future_count t) head sync most (ground arith)
                        budget wide (ground arith))
              ]
      ]
    ]
