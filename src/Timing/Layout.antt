-- ===== src/Timing/Layout.antt =====
-- The layout that a validated timing gives one sync slot.
use native.Mathlib.Nat.{
  div-add-mod', lt-div-mul-add, div-mul-le_self, le-div_iff_mul-le, div-lt_iff_lt-mul,
  mul-div_cancel, mul-mod_left,
}
use eez_rollup.Base.{
  ℕ, zero, suc, ◌+◌, ◌-◌, ◌*◌, ◌/◌, ◌%◌, ◌≤◌, ◌<◌, min, ◌≡◌, refl, sym, ap, ◌∙◌, some, arith,
}
use eez_rollup.Base.Results.{ok}
use eez_rollup.Timing.{
  RollupTiming, u32_max, k, budget_ms, validate, future_count, live_count, proof_window_open,
  submission_deadline,
}

-- A successful validation, in plain arithmetic.
pub record Valid (t : RollupTiming) : Type 0 where
  pub l1_positive : 0 < t.l1_block_time_ms
  pub l2_positive : 0 < t.l2_block_time_ms
  pub proof_positive : 0 < t.proof_time_ms
  pub whole_seconds : t.l2_block_time_ms % 1000 ≡ 0
  pub whole_k : t.l1_block_time_ms ≡ k t * t.l2_block_time_ms
  pub k_bound : 2 ≤ k t
  pub budget : t.proof_time_ms + t.submission_slack_ms ≤ (k t - 1) * t.l2_block_time_ms

plain_budget :
    (p s l m : ℕ) → min (p + s) u32_max < l → l ≤ u32_max → min (p + s) u32_max ≤ m → p + s ≤ m
plain_budget p s l m lt fits le = omega arith

pub validate-Valid :
    (t : RollupTiming) → t.l1_block_time_ms ≤ u32_max → validate t ≡ ok tt → Valid t
unfolding validate k budget_ms
validate-Valid t fits e = record {
  l1_positive = ground arith;
  l2_positive = ground arith;
  proof_positive = ground arith;
  whole_seconds = ground arith;
  whole_k =
      let h : t.l1_block_time_ms % t.l2_block_time_ms ≡ 0 = ground arith in
      omega (arith, div-add-mod' t.l1_block_time_ms t.l2_block_time_ms);
  k_bound = ground arith;
  budget =
      plain_budget t.proof_time_ms t.submission_slack_ms t.l1_block_time_ms _ (ground arith) fits
        (ground arith);
}

-- How many blocks the budget takes up, rounded up.
ceiling :
    (b l n : ℕ)
    → 0 < l
    → 0 < b
    → b ≤ n * l
    → ((b + l - 1) / l ≤ n)
      × (1 ≤ (b + l - 1) / l)
      × (b ≤ (b + l - 1) / l * l)
      × ((b + l - 1) / l * l < b + l)
ceiling b l n hl hb le =
    let q = (b + l - 1) / l in
    let lower : q * l ≤ b + l - 1 = div-mul-le_self (b + l - 1) l in
    let upper : b + l - 1 < q * l + l = lt-div-mul-add hl in
    let below : q < n + 1 = (div-lt_iff_lt-mul hl).1 (omega arith) in
    let one_there : 1 ≤ q = (le-div_iff_mul-le hl).1 (omega arith) in
    (omega arith, one_there, omega arith, omega arith)

pred_mul : (n l : ℕ) → 1 ≤ n → (n - 1) * l + l ≡ n * l
pred_mul zero l h = absurd (omega arith)
pred_mul (suc n) l h = grind arith

-- The saturating sums of `future_count` do not saturate.
future_eq :
    (t : RollupTiming)
    → t.l1_block_time_ms ≤ u32_max
    → Valid t
    → future_count t
      ≡ (t.proof_time_ms + t.submission_slack_ms + t.l2_block_time_ms - 1) / t.l2_block_time_ms - 1
unfolding future_count budget_ms
future_eq t fits v =
    let total = pred_mul (k t) t.l2_block_time_ms (omega (arith, v.k_bound)) in
    let plain : min (min (t.proof_time_ms + t.submission_slack_ms) u32_max + t.l2_block_time_ms)
          u32_max
        ≡ t.proof_time_ms + t.submission_slack_ms + t.l2_block_time_ms =
      omega (arith, v.budget, v.whole_k) in
    rw plain refl

-- Of a validated timing of u32 times the K blocks of a slot are its Live blocks, at least one,
-- its Future blocks and the Sync block; the Future blocks and the Sync block last as long as
-- proof and submission need, and less than one block longer; `live_count` does not overflow.
pub validate-layout :
    (t : RollupTiming)
    → t.l1_block_time_ms ≤ u32_max
    → validate t ≡ ok tt
    → (live : ℕ) × (live_count t ≡ some live)
      × (live + future_count t + 1 ≡ k t)
      × (1 ≤ live)
      × (t.proof_time_ms + t.submission_slack_ms ≤ (future_count t + 1) * t.l2_block_time_ms)
      × ((future_count t + 1) * t.l2_block_time_ms
          < t.proof_time_ms + t.submission_slack_ms + t.l2_block_time_ms)
unfolding live_count
validate-layout t fits e =
    let v = validate-Valid t fits e in
    let b = t.proof_time_ms + t.submission_slack_ms in
    let q = (b + t.l2_block_time_ms - 1) / t.l2_block_time_ms in
    let (at_most, one, covers, tight) =
      ceiling b t.l2_block_time_ms (k t - 1) v.l2_positive (omega (arith, v.proof_positive))
        v.budget in
    let blocks : future_count t + 1 ≡ q = omega (arith, future_eq t fits v) in
    (
      k t - q,
      ground (arith, blocks, at_most, v.k_bound),
      omega (arith, blocks, at_most, v.k_bound),
      omega (arith, at_most, v.k_bound),
      rw blocks covers,
      rw blocks tight,
    )

window_eq :
    (t : RollupTiming) (live : ℕ)
    → t.l1_block_time_ms ≤ u32_max
    → Valid t
    → live + future_count t + 1 ≡ k t
    → (proof_window_open t ≡ live * t.l2_block_time_ms)
      × (live * t.l2_block_time_ms + (future_count t + 1) * t.l2_block_time_ms ≡ t.l1_block_time_ms)
unfolding proof_window_open
window_eq t live fits v sum =
    let split : live * t.l2_block_time_ms + (future_count t + 1) * t.l2_block_time_ms
        ≡ k t * t.l2_block_time_ms =
      split_mul live (future_count t) (k t) t.l2_block_time_ms sum in
    (omega (arith, split, v.whole_k), omega (arith, split, v.whole_k))
  where
    split_mul : (a b c l : ℕ) → a + b + 1 ≡ c → a * l + (b + 1) * l ≡ c * l
    split_mul a b c l h = rw (sym h) (grind arith)

whole_mul : (a l : ℕ) → l % 1000 ≡ 0 → a * l % 1000 ≡ 0
whole_mul a l h =
    let same : l ≡ l / 1000 * 1000 = omega arith in
    let shift : a * l ≡ a * (l / 1000) * 1000 = ap (λ (x : ℕ). a * x) same ∙ grind arith in
    rw shift (mul-mod_left (a * (l / 1000)) 1000)

-- Of a validated timing of u32 times the trigger opens on a whole second, when exactly the Live
-- blocks are done; the proof ends by the deadline of the bundle, which is the submission slack
-- before the end of the L1 block, and no subtraction overflows.
pub proof_window_fits :
    (t : RollupTiming)
    → t.l1_block_time_ms ≤ u32_max
    → validate t ≡ ok tt
    → (deadline : ℕ) × (submission_deadline t ≡ some deadline)
      × (proof_window_open t + t.proof_time_ms ≤ deadline)
      × (deadline + t.submission_slack_ms ≡ t.l1_block_time_ms)
      × (live_count t ≡ some (proof_window_open t / t.l2_block_time_ms))
      × (proof_window_open t % 1000 ≡ 0)
unfolding submission_deadline proof_window_open
proof_window_fits t fits e =
    let v = validate-Valid t fits e in
    let (live, is_live, sum, one, covers, tight) = validate-layout t fits e in
    let (opens, whole) = window_eq t live fits v sum in
    (
      t.l1_block_time_ms - t.submission_slack_ms,
      ground (arith, whole, covers),
      omega (arith, whole, covers, opens),
      omega (arith, whole, covers),
      rw (opens, mul-div_cancel live v.l2_positive) is_live,
      rw opens (whole_mul live t.l2_block_time_ms v.whole_seconds),
    )
