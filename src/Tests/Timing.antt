-- ===== src/Tests/Timing.antt =====
-- crates/eez-driver/src/timing.rs at the mainnet timing of its module comment.
use eez_rollup.Base.{ℕ, ◌+◌, ◌*◌, ◌%◌, ◌/◌, ◌≤◌, ◌<◌, ◌≡◌, ◌↔◌, refl, some, arith}
use eez_rollup.Base.Results.{ok}
use eez_rollup.Timing.{
  RollupTiming, validate, k, budget_ms, future_count, live_count, proof_window_open,
  submission_deadline, per_trigger_composition, historical_chunk_boundary, slot, catchup,
  over_catch, div_ceil,
}
use eez_rollup.Timing.Layout.{validate-layout, proof_window_fits}
use eez_rollup.Timing.Trigger.{Reaches, per_trigger_composition-Reaches}
use eez_rollup.Timing.Boundary.{historical_chunk_boundary_iff}

abbrev mainnet : RollupTiming
mainnet = record {
  l1_block_time_ms = 12000;
  l2_block_time_ms = 2000;
  proof_time_ms = 4000;
  submission_slack_ms = 1500;
}

mainnet_valid : validate mainnet ≡ ok tt
unfolding validate k budget_ms
mainnet_valid = refl

mainnet_layout :
    (k mainnet ≡ 6)
    × (future_count mainnet ≡ 2)
    × (live_count mainnet ≡ some 3)
    × (proof_window_open mainnet ≡ 6000)
unfolding k future_count live_count proof_window_open budget_ms
mainnet_layout = (refl, refl, refl, refl)

first_slot : per_trigger_composition mainnet 12 18 300 ≡ slot 3 2
unfolding per_trigger_composition k future_count budget_ms over_catch div_ceil
first_slot = refl

far_behind : per_trigger_composition mainnet 0 618 300 ≡ catchup 299
unfolding per_trigger_composition k future_count budget_ms over_catch div_ceil
far_behind = refl

validate-layout_example :
    (live : ℕ) × (live_count mainnet ≡ some live)
    × (live + future_count mainnet + 1 ≡ k mainnet)
    × (1 ≤ live)
    × (4000 + 1500 ≤ (future_count mainnet + 1) * 2000)
    × ((future_count mainnet + 1) * 2000 < 4000 + 1500 + 2000)
validate-layout_example = validate-layout mainnet (omega arith) mainnet_valid

proof_window_fits_example :
    (deadline : ℕ) × (submission_deadline mainnet ≡ some deadline)
    × (proof_window_open mainnet + 4000 ≤ deadline)
    × (deadline + 1500 ≡ 12000)
    × (live_count mainnet ≡ some (proof_window_open mainnet / 2000))
    × (proof_window_open mainnet % 1000 ≡ 0)
proof_window_fits_example = proof_window_fits mainnet (omega arith) mainnet_valid

per_trigger_composition-Reaches_example :
    Reaches (k mainnet) (future_count mainnet) 0 618 300 (per_trigger_composition mainnet 0 618 300)
unfolding k future_count budget_ms
per_trigger_composition-Reaches_example =
    per_trigger_composition-Reaches mainnet 0 618 300 (omega arith) mainnet_valid (omega arith)
      (omega arith) (omega arith)

historical_chunk_boundary_iff_example : (historical_chunk_boundary mainnet 0 618 300 ≡ some 300) ↔ (
    (0 < 300)
    × (300 ≤ 0 + 300)
    × (0 + 300 < 618)
    × (0 + 300 < 300 + k mainnet)
    × ((j : ℕ) × (300 + j * k mainnet ≡ 618)))
unfolding k
historical_chunk_boundary_iff_example =
    historical_chunk_boundary_iff mainnet 0 618 300 300 (omega arith) (omega arith)
