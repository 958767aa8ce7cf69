-- ===== src/Timing.antt =====
-- crates/eez-driver/src/timing.rs: the block layout of a sync slot, from four times in milliseconds.
-- A `Duration` is its number of milliseconds; a fault keeps the numbers that its message prints.
pub mod DivCeil
pub mod Layout
pub mod Trigger
pub mod Boundary
use eez_rollup.Base.{
  ℕ, zero, ◌+◌, ◌-◌, ◌*◌, ◌/◌, ◌%◌, ◌^◌, ◌≤◌, ◌<◌, min, Bool, true, false, not, ltb, leb, ◌==◌,
  ◌&&◌, ◌||◌, if◌then◌else◌, Option, some, none,
}
use eez_rollup.Base.Results.{Result, ok, err}

abbrev pub max_blocks_per_catchup : ℕ
max_blocks_per_catchup = 300

abbrev pub max_blocks_per_batch : ℕ
max_blocks_per_batch = max_blocks_per_catchup

-- Four `u32` fields.
pub record RollupTiming : Type 0 where
  pub l1_block_time_ms : ℕ
  pub l2_block_time_ms : ℕ
  pub proof_time_ms : ℕ
  pub submission_slack_ms : ℕ

abbrev pub u32_max : ℕ
u32_max = 2 ^ 32 - 1

abbrev pub u64_max : ℕ
u64_max = 2 ^ 64 - 1

-- `saturating_add` and `saturating_mul`, up to the largest value of the type.
abbrev pub saturating_add : ℕ → ℕ → ℕ → ℕ
saturating_add top a b = min (a + b) top

abbrev pub saturating_mul : ℕ → ℕ → ℕ → ℕ
saturating_mul top a b = min (a * b) top

-- `-` and `+` on unsigned integers where the source has no check: `none` is the overflow.
abbrev pub checked_sub : ℕ → ℕ → Option ℕ
checked_sub a b = if ltb a b then none else some (a - b)

-- `u64::div_ceil`
unfoldable pub div_ceil : ℕ → ℕ → ℕ
div_ceil a b = if ltb 0 (a % b) then a / b + 1 else a / b

pub data TimingConfig : Type 0 where
  zero_field : TimingConfig
  sub_second_l2 : ℕ → TimingConfig
  fractional_k : ℕ → ℕ → TimingConfig
  small_k : ℕ → TimingConfig
  beyond_l1 : ℕ → ℕ → ℕ → TimingConfig
  beyond_future : ℕ → ℕ → ℕ → ℕ → ℕ → TimingConfig

-- A zero divisor is refused by `validate` before its use there; elsewhere the timing is validated.
unfoldable pub k : RollupTiming → ℕ
k t = t.l1_block_time_ms / t.l2_block_time_ms

unfoldable pub budget_ms : RollupTiming → ℕ
budget_ms t = saturating_add u32_max t.proof_time_ms t.submission_slack_ms

unfoldable pub validate : RollupTiming → Result TimingConfig (Unit {0})
validate t =
    if t.l1_block_time_ms == 0 || t.l2_block_time_ms == 0 || t.proof_time_ms == 0
    then err zero_field
    else if not (t.l2_block_time_ms % 1000 == 0)
    then err (sub_second_l2 t.l2_block_time_ms)
    else if not (t.l1_block_time_ms % t.l2_block_time_ms == 0)
    then err (fractional_k t.l1_block_time_ms t.l2_block_time_ms)
    else if ltb (k t) 2
    then err (small_k (k t))
    else if leb t.l1_block_time_ms (budget_ms t)
    then err (beyond_l1 t.proof_time_ms t.submission_slack_ms t.l1_block_time_ms)
    else let max_budget = (k t - 1) * t.l2_block_time_ms in
      if ltb max_budget (budget_ms t)
      then err (
          beyond_future t.proof_time_ms t.submission_slack_ms (k t - 1) t.l2_block_time_ms
            max_budget)
      else ok tt

unfoldable pub future_count : RollupTiming → ℕ
future_count t =
    let blocks =
      (saturating_add u32_max (budget_ms t) t.l2_block_time_ms - 1) / t.l2_block_time_ms in
    blocks - 1

unfoldable pub live_count : RollupTiming → Option ℕ
live_count t = elim (checked_sub (k t) (future_count t)) [
  | none ↦ none
  | some rest ↦ checked_sub rest 1
]

unfoldable pub proof_window_open : RollupTiming → ℕ
proof_window_open t =
    let reserved_ms = saturating_mul u32_max (future_count t + 1) t.l2_block_time_ms in
    t.l1_block_time_ms - reserved_ms

unfoldable pub submission_deadline : RollupTiming → Option ℕ
submission_deadline t = checked_sub t.l1_block_time_ms t.submission_slack_ms

pub data SlotComposition : Type 0 where
  idle : SlotComposition
  catchup : ℕ → SlotComposition
  -- Live blocks, Future blocks; one Sync block follows.
  slot : ℕ → ℕ → SlotComposition

-- The terminal is stepped back from the target by whole K's until it is within the budget.
unfoldable pub over_catch : ℕ → ℕ → ℕ → ℕ → SlotComposition
over_catch k head_block sync_slot_block max_catchup_blocks =
    let gap = sync_slot_block - head_block in
    let steps_back = div_ceil (gap - max_catchup_blocks) k in
    let snap = saturating_mul u64_max steps_back k in
    if leb sync_slot_block snap || leb (sync_slot_block - snap) head_block
    then idle
    else catchup (sync_slot_block - snap - head_block - 1)

unfoldable pub per_trigger_composition : RollupTiming → ℕ → ℕ → ℕ → SlotComposition
per_trigger_composition t head_block sync_slot_block max_catchup_blocks =
    let future = future_count t in
    let live_region_end = sync_slot_block - (future + 1) in
    let live_to_produce = live_region_end - head_block in
    if leb sync_slot_block head_block
    then idle
    else if leb live_region_end head_block
    then slot 0 (future - (head_block - live_region_end))
    else if leb live_to_produce (k t - (future + 1))
    then slot live_to_produce future
    else over_catch (k t) head_block sync_slot_block max_catchup_blocks

unfoldable pub historical_chunk_boundary : RollupTiming → ℕ → ℕ → ℕ → Option ℕ
historical_chunk_boundary t cursor sync_height cap =
    let over = sync_height - saturating_add u64_max cursor cap in
    elim (checked_sub sync_height (saturating_mul u64_max (div_ceil over (k t)) (k t))) [
      | none ↦ none
      | some boundary ↦
          if ltb cursor boundary && ltb boundary sync_height then some boundary else none
    ]
