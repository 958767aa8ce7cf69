-- ===== src/Codec/Total.antt =====
-- Whether the loops of the decoders may run out of fuel.
pub mod Readers
use eez_rollup.Base.{
  ℕ, zero, suc, ◌^◌, not, ◌&&◌, ◌+◌, ◌-◌, ◌≤◌, ◌<◌, ◌≡◌, ◌≢◌, refl, String, List, [], ◌∷◌, ◌++◌,
  replicate, Bool, true, false, ltb, leb, ◌==◌, Option, some, none, if◌then◌else◌, length, arith,
  Bool-cases, inl, inr,
}
use eez_rollup.Codec.Types.{
  CodecError, CodecResult, DecodedSpan, max_extra_data, implausible_count, run_coverage,
  non_maximal_run, extra_data_too_long, empty_transaction, tx_byte_mismatch, empty_span,
  trailing_bytes, non_empty_transaction_data, ok, err, stuck, Bytes,
}
use eez_rollup.Codec.Cursor.{Cursor, Reader, byte, remaining, reject, pure}
use eez_rollup.Codec.Varint.{uvarint32, varint}
use eez_rollup.Codec.Decode.{
  decode_counts, decode_runs, decode_runs_loop, beneficiary_value, extra_data_value, decode_lengths,
  decode_transactions, decode_body, decode, value_of_read, is_previous,
}
use eez_rollup.Codec.Container.{
  Action, is_nil, reversed, foreign_target, take_bytes, expect_message, validate_target_rollup,
  take_u64, return_success, decode_action, decode_actions, decode_stream, decode_container, lift,
}
use eez_rollup.Codec.Total.Readers.{
  Safe, Consumes, consumes_if, consumes_after, Safe-bind, Safe-reject, Safe-pure, Safe-fail,
  Safe-if, Safe-remaining, Safe-weaken, Safe-take, Safe-byte, Safe-check_plausible, Safe-uvarint32,
  Safe-varint,
}

Safe-decode_counts : (rounds total : ℕ) → Safe 0 (decode_counts rounds total)
unfolding decode_counts
Safe-decode_counts zero total = Safe-pure _
Safe-decode_counts (suc rounds) total = Safe-bind (Safe-uvarint32 _) λ count.
    Safe-bind Safe-remaining λ left.
      Safe-reject 0 (leb (2 ^ 64) (total + count))
        (implausible_count "pure_transaction_counts" count left)
        λ _. Safe-bind (Safe-decode_counts rounds (total + count)) λ r. Safe-pure (count ∷ r.0, r.1)

-- A run covers a block at least, so the fuel lasts.
Safe-decode_runs_loop :
    (fuel missing : ℕ) (what : String) (value_of : Reader Bytes) (previous : Option Bytes)
    → missing ≤ fuel
    → Safe 0 value_of
    → Safe 0 (decode_runs_loop fuel missing what value_of previous)
unfolding decode_runs_loop
Safe-decode_runs_loop zero missing what value_of previous h s =
    Safe-if 0 (missing == 0) (λ _. Safe-pure []) (λ more. absurd (ground arith))
Safe-decode_runs_loop (suc fuel) missing what value_of previous h s =
    Safe-if 0 (missing == 0) (λ _. Safe-pure [])
      λ more. Safe-bind (Safe-uvarint32 what) λ run_length.
        Safe-reject 0 (run_length == 0) (run_coverage what) λ positive. Safe-bind s λ value.
          Safe-reject 0 (is_previous previous value) (non_maximal_run what) λ _.
            Safe-reject 0 (ltb missing run_length) (run_coverage what) λ _.
              Safe-bind
                (Safe-decode_runs_loop fuel (missing - run_length) what value_of (some value)
                  (ground arith) s)
                λ rest. Safe-pure (replicate run_length value ++ rest)

Safe-extra_data_value : Safe 0 extra_data_value
unfolding extra_data_value
Safe-extra_data_value = Safe-weaken 1 0 (omega arith) (
    Safe-bind (Safe-byte _)
      λ len. Safe-reject 0 (ltb max_extra_data len) (extra_data_too_long len) λ _. Safe-take _ len)

Safe-decode_lengths : (rounds i total : ℕ) → Safe 0 (decode_lengths rounds i total)
unfolding decode_lengths
Safe-decode_lengths zero i total = Safe-pure _
Safe-decode_lengths (suc rounds) i total = Safe-bind (Safe-uvarint32 _) λ len.
    Safe-reject 0 (len == 0) (empty_transaction i) λ _. Safe-bind Safe-remaining λ left.
      Safe-reject 0 (leb (2 ^ 64) (total + len)) (tx_byte_mismatch (2 ^ 64 - 1) left) λ _.
        Safe-bind (Safe-decode_lengths rounds (i + 1) (total + len)) λ r. Safe-pure (len ∷ r.0, r.1)

Safe-decode_transactions : (lens : List ℕ) → Safe 0 (decode_transactions lens)
unfolding decode_transactions
Safe-decode_transactions [] = Safe-pure _
Safe-decode_transactions (len ∷ lens) =
    Safe-bind (Safe-take _ len)
      λ tx. Safe-bind (Safe-decode_transactions lens) λ txs. Safe-pure (tx ∷ txs)

Safe-decode_body : Safe 0 decode_body
unfolding decode_body decode_runs beneficiary_value
Safe-decode_body = Safe-bind (Safe-uvarint32 _) λ n. Safe-reject 0 (n == 0) empty_span λ _.
    Safe-bind (Safe-check_plausible _ n 1) λ _. Safe-bind (Safe-decode_counts n 0) λ r.
      Safe-bind (Safe-decode_runs_loop n n _ _ none (omega arith) (Safe-take _ 20)) λ beneficiaries.
        Safe-bind (Safe-decode_runs_loop n n _ _ none (omega arith) Safe-extra_data_value) λ extra.
          Safe-bind (Safe-check_plausible _ r.1 2) λ _.
            Safe-bind (Safe-decode_lengths r.1 0 0) λ lens. Safe-bind Safe-remaining λ left.
              Safe-reject 0 (not (lens.1 == left)) (tx_byte_mismatch lens.1 left) λ _.
                Safe-bind (Safe-decode_transactions lens.0) λ txs.
                  Safe-bind Safe-remaining λ trailing.
                    Safe-reject 0 (not (trailing == 0)) (trailing_bytes trailing) λ _.
                      Safe-pure (record {
                        block_tx_counts = r.0;
                        beneficiaries = beneficiaries;
                        extra_data = extra;
                        transactions = txs;
                      })

value_of_read-ne-stuck :
    {A : Type 0} (n len : ℕ) (r : CodecResult (A × Cursor))
    → Consumes n len r
    → value_of_read r ≢ stuck
value_of_read-ne-stuck n len (ok (a, cur)) h e = cc
value_of_read-ne-stuck n len (err x) h e = cc
value_of_read-ne-stuck n len stuck h e = h

-- `decode` returns on every payload, well formed or not.
pub decode-ne-stuck : (payload : Bytes) → decode payload ≢ stuck
unfolding decode
decode-ne-stuck [] = λ e. cc
decode-ne-stuck (version ∷ body) =
    ground (
      arith,
      value_of_read-ne-stuck 0 (length body) (decode_body body) (Safe-decode_body.runs body),
    )

Safe-take_u64 : (what : String) → Safe 0 (take_u64 what)
unfolding take_u64
Safe-take_u64 what = Safe-bind (Safe-take what 8) λ bytes. Safe-pure _

Safe-take_bytes : (what : String) → Safe 0 (take_bytes what)
unfolding take_bytes
Safe-take_bytes what = Safe-bind (Safe-varint what) λ len. Safe-take what len

Safe-reject_last : (n : ℕ) (b : Bool) (e : CodecError) → Safe 0 (reject b e)
Safe-reject_last n true e = Safe-fail 0 e
Safe-reject_last n false e = Safe-pure tt

Safe-expect_message : (m : ℕ) → Safe 1 (expect_message m)
unfolding expect_message
Safe-expect_message m = Safe-bind (Safe-byte _) λ b. Safe-reject_last 0 _ _

Safe-return_success : (m : ℕ) → Safe 0 (return_success m)
unfolding return_success
Safe-return_success m =
    Safe-if 0 (m == 6) (λ _. Safe-pure true)
      λ _. Safe-if 0 (m == 7) (λ _. Safe-pure false) (λ _. Safe-fail 0 _)

-- A bracket takes a byte at least.
Safe-decode_action : (rollup_id : ℕ) → Safe 1 (decode_action rollup_id)
unfolding decode_action validate_target_rollup
Safe-decode_action rollup_id = Safe-bind (Safe-expect_message 3) λ _.
    Safe-bind (Safe-take_u64 _) λ source. Safe-bind (Safe-take_bytes _) λ tx_data.
      Safe-reject 0 (not (is_nil tx_data)) non_empty_transaction_data λ _.
        Safe-bind (Safe-weaken 1 0 (omega arith) (Safe-expect_message 4)) λ _.
          Safe-bind (Safe-take_u64 _) λ target. Safe-bind (Safe-reject_last 0 _ _) λ _.
            Safe-bind (Safe-take _ 20) λ from. Safe-bind (Safe-take _ 20) λ to.
              Safe-bind (Safe-take _ 32) λ value. Safe-bind (Safe-take_u64 _) λ gas.
                Safe-bind (Safe-take_bytes _) λ input.
                  Safe-bind (Safe-weaken 1 0 (omega arith) (Safe-byte _)) λ message.
                    Safe-bind (Safe-return_success message) λ success.
                      Safe-bind (Safe-take_bytes _) λ return_data.
                        Safe-bind (Safe-weaken 1 0 (omega arith) (Safe-expect_message 10)) λ _.
                          Safe-pure (record {
                            source_rollup_id = source;
                            target_rollup_id = target;
                            source_address = from;
                            target_address = to;
                            value = reversed value;
                            gas = gas;
                            input = input;
                            success = success;
                            return_data = return_data;
                          })

after_actions :
    (a : Action) (r : CodecResult (List Action × Cursor)) (len len' : ℕ)
    → 1 + len' ≤ len
    → Consumes 0 len' r
    → Consumes 0 len
        (elim r [ ok (as', cur') ↦ ok (a ∷ as', cur') | err e ↦ err e | stuck ↦ stuck ])
after_actions a (ok (as', cur')) len len' h c = omega arith
after_actions a (err e) len len' h c = tt
after_actions a stuck len len' h c = c

-- The rest of a round, given the bytes that its bracket has left.
after_action :
    (fuel rollup_id len : ℕ) (r : CodecResult (Action × Cursor))
    → len ≤ suc fuel
    → ((cur : Cursor)
        → length cur ≤ fuel
        → Consumes 0 (length cur) (decode_actions fuel rollup_id cur))
    → Consumes 1 len r
    → Consumes 0 len (elim r [
      | ok (a, cur) ↦ elim (decode_actions fuel rollup_id cur) [
        | ok (as', cur') ↦ ok (a ∷ as', cur')
        | err e ↦ err e
        | stuck ↦ stuck
      ]
      | err e ↦ err e
      | stuck ↦ stuck
    ])
after_action fuel rollup_id len (ok (a, cur)) h more c =
    after_actions a (decode_actions fuel rollup_id cur) len (length cur) (omega arith)
      (more cur (omega arith))
after_action fuel rollup_id len (err e) h more c = tt
after_action fuel rollup_id len stuck h more c = c

-- With as much fuel as bytes the loop over the brackets does not run out of it.
decode_actions_consumes :
    (fuel rollup_id : ℕ) (cur : Cursor)
    → length cur ≤ fuel
    → Consumes 0 (length cur) (decode_actions fuel rollup_id cur)
unfolding decode_actions
decode_actions_consumes zero rollup_id cur h =
    consumes_if 0 (length cur) (length cur == 0) _ _ (λ _. omega arith) (λ e. ground arith)
decode_actions_consumes (suc fuel) rollup_id cur h =
    consumes_if 0 (length cur) (length cur == 0) _ _ (λ _. omega arith)
      λ _.
        after_action fuel rollup_id (length cur) (decode_action rollup_id cur) h
          (λ cur' h'. decode_actions_consumes fuel rollup_id cur' h')
          ((Safe-decode_action rollup_id).runs cur)

Safe-lift-decode : (payload : Bytes) → Safe 0 (lift (decode payload))
Safe-lift-decode payload = lifted (decode payload) (decode-ne-stuck payload)
  where
    lifted : (r : CodecResult DecodedSpan) → r ≢ stuck → Safe 0 (lift r)
    lifted (ok a) h = Safe-pure a
    lifted (err e) h = Safe-fail 0 e
    lifted stuck h = absurd (h refl)

Safe-decode_stream : Safe 0 decode_stream
unfolding decode_stream
Safe-decode_stream = Safe-weaken 1 0 (omega arith) (
    Safe-bind (Safe-expect_message 2) λ _. Safe-bind (Safe-take_u64 _) λ rollup_id.
      Safe-bind (Safe-take_bytes _) λ operations. Safe-bind (Safe-lift-decode operations) λ span.
        record {
          runs = λ cur.
              consumes_after 0 0 (length cur)
                (λ actions. pure (record { rollup_id = rollup_id; span = span; actions = actions }))
                (decode_actions (length cur) rollup_id cur)
                (decode_actions_consumes (length cur) rollup_id cur (omega arith))
                (λ actions. Safe-pure _);
        })

-- `decode_container` returns on every payload, well formed or not.
pub decode_container-ne-stuck : (payload : Bytes) → decode_container payload ≢ stuck
unfolding decode_container
decode_container-ne-stuck [] = λ e. cc
decode_container-ne-stuck (version ∷ body) = ground (
  arith,
  value_of_read-ne-stuck 0 (length body) (decode_stream body) (Safe-decode_stream.runs body),
)
