-- ===== src/Codec/Encode.antt =====
-- `encode` and `runs` of crates/eez-payload-codec/src/lib.rs. A writer returns the bytes that the
-- source appends to `out`.
use eez_rollup.Base.{
  ◌≡◌, refl, ℕ, ◌+◌, List, [], ◌∷◌, ◌++◌, Bool, true, false, ltb, if◌then◌else◌, length, bytes_eq,
  flatten,
}
use eez_rollup.Codec.Types.{
  CodecResult, ok, err, stuck, Bytes, SpanBlock, empty_span, extra_data_too_long,
  payload_version_v0, max_extra_data,
}
use eez_rollup.Codec.Varint.{put_uvarint32, count_u32}

infixl 5 ◌>>=◌
abbrev pub ◌>>=◌ : {A B : Type 0} → CodecResult A → (A → CodecResult B) → CodecResult B
written >>= next = elim written [ stuck ↦ stuck | err e ↦ err e | ok value ↦ next value ]

-- A successful chain takes the value of its first step.
pub >>=-eq-ok :
    {Value Next : Type 0} (written : CodecResult Value) (next : Value → CodecResult Next)
    {last : Next}
    → (written >>= next) ≡ ok last
    → (value : Value) × (written ≡ ok value) × (next value ≡ ok last)
>>=-eq-ok stuck next chain = cc
>>=-eq-ok (err e) next chain = cc
>>=-eq-ok (ok value) next chain = (value, refl, chain)

-- The open run, whose length is `run_length` and whose first block is `first`, and the blocks to
-- come; `out` holds the runs that are closed.
unfoldable pub runs_loop :
    (SpanBlock → Bytes) → ℕ → SpanBlock → List SpanBlock → List (ℕ × SpanBlock)
runs_loop of run_length first [] = (run_length, first) ∷ []
runs_loop of run_length first (block ∷ blocks) = elim (bytes_eq (of first) (of block)) [
  | true ↦ runs_loop of (run_length + 1) first blocks
  | false ↦ (run_length, first) ∷ runs_loop of 1 block blocks
]

-- Maximal runs by the key `of`, as (run_length, first block).
unfoldable pub runs : List SpanBlock → (SpanBlock → Bytes) → List (ℕ × SpanBlock)
runs [] of = []
runs (block ∷ blocks) of = runs_loop of 1 block blocks

-- The writers of the columns, one for each loop of `encode`.
unfoldable pub put_tx_counts : List SpanBlock → CodecResult Bytes
put_tx_counts [] = ok []
put_tx_counts (block ∷ blocks) = do
  count ← count_u32 "pure_transaction_counts" (length block.transactions)
  rest ← put_tx_counts blocks
  ok (put_uvarint32 count ++ rest)

unfoldable pub put_beneficiary_runs : List (ℕ × SpanBlock) → CodecResult Bytes
put_beneficiary_runs [] = ok []
put_beneficiary_runs ((run_length, block) ∷ rs) = do
  rest ← put_beneficiary_runs rs
  ok (put_uvarint32 run_length ++ (block.beneficiary ++ rest))

-- `u8::try_from` fails above 255, and is reported as length 255.
unfoldable pub extra_data_len : Bytes → CodecResult ℕ
extra_data_len extra =
    if ltb 255 (length extra)
    then err (extra_data_too_long 255)
    else if ltb max_extra_data (length extra)
    then err (extra_data_too_long (length extra))
    else ok (length extra)

unfoldable pub put_extra_data_runs : List (ℕ × SpanBlock) → CodecResult Bytes
put_extra_data_runs [] = ok []
put_extra_data_runs ((run_length, block) ∷ rs) = do
  len ← extra_data_len block.extra_data
  rest ← put_extra_data_runs rs
  ok (put_uvarint32 run_length ++ (len ∷ block.extra_data ++ rest))

unfoldable pub put_tx_lengths : List Bytes → CodecResult Bytes
put_tx_lengths [] = ok []
put_tx_lengths (tx ∷ txs) = do
  len ← count_u32 "pure_transaction_lengths" (length tx)
  rest ← put_tx_lengths txs
  ok (put_uvarint32 len ++ rest)

-- `blocks.iter().flat_map(|b| &b.transactions)`
abbrev pub all_transactions : List SpanBlock → List Bytes
all_transactions [] = []
all_transactions (block ∷ blocks) = block.transactions ++ all_transactions blocks

abbrev is_empty : List SpanBlock → Bool
is_empty [] = true
is_empty (block ∷ blocks) = false

unfoldable pub encode : List SpanBlock → CodecResult Bytes
encode blocks = if is_empty blocks then err empty_span else do
  block_count ← count_u32 "block_count" (length blocks)
  counts ← put_tx_counts blocks
  beneficiaries ← put_beneficiary_runs (runs blocks (λ b. b.beneficiary))
  extras ← put_extra_data_runs (runs blocks (λ b. b.extra_data))
  lengths ← put_tx_lengths (all_transactions blocks)
  ok (
      payload_version_v0
      ∷ (put_uvarint32 block_count
          ++ (counts
              ++ (beneficiaries ++ (extras ++ (lengths ++ flatten (all_transactions blocks)))))))
