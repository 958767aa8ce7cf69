-- ===== src/Codec/Decode.antt =====
-- `decode` and `decode_runs` of crates/eez-payload-codec/src/lib.rs, over a reader of the body.
use eez_rollup.Base.{
  ℕ, zero, suc, ◌+◌, ◌-◌, ◌^◌, String, List, [], ◌∷◌, ◌++◌, Bool, false, not, ltb, leb, ◌==◌,
  if◌then◌else◌, bytes_eq, replicate, Option, none, some,
}
use eez_rollup.Codec.Types.{
  CodecResult, ok, err, stuck, Bytes, DecodedSpan, empty, unsupported_version, empty_span,
  extra_data_too_long, payload_version_v0, max_extra_data, implausible_count, run_coverage,
  non_maximal_run, empty_transaction, tx_byte_mismatch, trailing_bytes,
}
use eez_rollup.Codec.Cursor.{
  Cursor, Reader, ◌>>=◌, ◌>>◌, pure, reject, remaining, take_bytes_exact, byte, check_plausible,
}
use eez_rollup.Codec.Varint.{uvarint32}

-- `for _ in 0..block_count`: the rounds left and `total_txs`; the counts and the final total.
unfoldable pub decode_counts : ℕ → ℕ → Reader (List ℕ × ℕ)
decode_counts zero total_txs = pure ([], total_txs)
decode_counts (suc rounds) total_txs = do
  count ← uvarint32 "pure_transaction_counts"
  left ← remaining
  reject (leb (2 ^ 64) (total_txs + count)) (implausible_count "pure_transaction_counts" count left)
  (counts, total) ← decode_counts rounds (total_txs + count)
  pure (count ∷ counts, total)

-- `previous.as_ref() == Some(&value)`
abbrev pub is_previous : Option Bytes → Bytes → Bool
is_previous none value = false
is_previous (some p) value = bytes_eq p value

-- The `while` loop on fuel, with the values that are still to come and the last run's value.
-- It returns what the source appends to `out`.
unfoldable pub decode_runs_loop : ℕ → ℕ → String → Reader Bytes → Option Bytes → Reader (List Bytes)
decode_runs_loop zero missing what value_of previous =
    if missing == 0 then pure [] else (λ cur. stuck)
decode_runs_loop (suc fuel) missing what value_of previous =
    let round : Reader (List Bytes) = (do
      run_length ← uvarint32 what
      reject (run_length == 0) (run_coverage what)
      value ← value_of
      reject (is_previous previous value) (non_maximal_run what)
      reject (ltb missing run_length) (run_coverage what)
      rest ← decode_runs_loop fuel (missing - run_length) what value_of (some value)
      pure (replicate run_length value ++ rest)) in
    if missing == 0 then pure [] else round

-- A round adds a value at least, so `block_count` rounds are enough.
unfoldable pub decode_runs : ℕ → String → Reader Bytes → Reader (List Bytes)
decode_runs block_count what value_of = decode_runs_loop block_count block_count what value_of none

unfoldable pub beneficiary_value : Reader Bytes
beneficiary_value = take_bytes_exact "beneficiary" 20

unfoldable pub extra_data_value : Reader Bytes
extra_data_value = do
  len ← byte "extra_data_length"
  reject (ltb max_extra_data len) (extra_data_too_long len)
  take_bytes_exact "extra_data" len

-- `for i in 0..total_txs`: the rounds left, `i` and `total_bytes`; the lengths and the final total.
unfoldable pub decode_lengths : ℕ → ℕ → ℕ → Reader (List ℕ × ℕ)
decode_lengths zero i total_bytes = pure ([], total_bytes)
decode_lengths (suc rounds) i total_bytes = do
  len ← uvarint32 "pure_transaction_lengths"
  reject (len == 0) (empty_transaction i)
  left ← remaining
  reject (leb (2 ^ 64) (total_bytes + len)) (tx_byte_mismatch (2 ^ 64 - 1) left)
  (lengths, total) ← decode_lengths rounds (i + 1) (total_bytes + len)
  pure (len ∷ lengths, total)

unfoldable pub decode_transactions : List ℕ → Reader (List Bytes)
decode_transactions [] = pure []
decode_transactions (len ∷ lengths) = do
  tx ← take_bytes_exact "pure_transaction_bytes" len
  txs ← decode_transactions lengths
  pure (tx ∷ txs)

-- The part of `decode` behind the version byte.
unfoldable pub decode_body : Reader DecodedSpan
decode_body = do
  block_count ← uvarint32 "block_count"
  reject (block_count == 0) empty_span
  check_plausible "block_count" block_count 1
  (counts, total_txs) ← decode_counts block_count 0
  beneficiaries ← decode_runs block_count "beneficiary" beneficiary_value
  extra_data ← decode_runs block_count "extra_data" extra_data_value
  check_plausible "pure_transaction_counts" total_txs 2
  (lengths, total_bytes) ← decode_lengths total_txs 0 0
  left ← remaining
  reject (not (total_bytes == left)) (tx_byte_mismatch total_bytes left)
  transactions ← decode_transactions lengths
  trailing ← remaining
  reject (not (trailing == 0)) (trailing_bytes trailing)
  pure (record {
    block_tx_counts = counts;
    beneficiaries = beneficiaries;
    extra_data = extra_data;
    transactions = transactions;
  })

-- A result without the reader's state.
abbrev pub value_of_read : {A : Type 0} → CodecResult (A × Cursor) → CodecResult A
value_of_read (ok (a, cur)) = ok a
value_of_read (err e) = err e
value_of_read stuck = stuck

unfoldable pub decode : Bytes → CodecResult DecodedSpan
decode [] = err empty
decode (version ∷ body) =
    if not (version == payload_version_v0)
    then err (unsupported_version version)
    else value_of_read (decode_body body)
