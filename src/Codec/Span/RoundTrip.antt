-- ===== src/Codec/Span/RoundTrip.antt =====
-- `decode` on a span that `encode` wrote.
use eez_rollup.Base.{
  ℕ, ◌*◌, ◌/◌, ◌≤◌, ◌≡◌, ap, refl, String, List, [], ◌∷◌, ◌++◌, length, map, All, All-append,
  flatten, append-nil, length-append, arith,
}
use eez_rollup.Codec.Types.{ok, Bytes, SpanBlock, DecodedSpan, IsU32, IsU64}
use eez_rollup.Codec.Cursor.{check_plausible}
use eez_rollup.Codec.Varint.{put_uvarint32, count_u32}
use eez_rollup.Codec.Varint.RoundTrip.{uvarint32-put_uvarint32, length-put_uvarint32}
use eez_rollup.Codec.Encode.{
  >>=-eq-ok, runs, put_tx_counts, put_beneficiary_runs, put_extra_data_runs, put_tx_lengths,
  all_transactions, encode,
}
use eez_rollup.Codec.Decode.{decode_body, decode}
use eez_rollup.Codec.Span.Columns.{
  sum, tx_counts, lengths, NonEmpty, count_u32-eq-ok, put_tx_counts-eq-ok, put_tx_lengths-eq-ok,
  decode_counts-put_tx_counts, decode_lengths-put_tx_lengths, decode_transactions-flatten,
}
use eez_rollup.Codec.Span.Runs.{
  IsAddress, decode_runs-put_beneficiary_runs, decode_runs-put_extra_data_runs,
}

-- The span that a list of blocks stands for, column by column.
abbrev pub columns : List SpanBlock → DecodedSpan
columns blocks = record {
  block_tx_counts = tx_counts blocks;
  beneficiaries = map (λ b. b.beneficiary) blocks;
  extra_data = map (λ b. b.extra_data) blocks;
  transactions = all_transactions blocks;
}

-- What the types of the source and its network give: an address has 20 bytes, a transaction one.
abbrev pub WellFormed : SpanBlock → Type 0
WellFormed b = IsAddress b.beneficiary × All NonEmpty b.transactions

all_transactions-NonEmpty :
    (blocks : List SpanBlock) → All WellFormed blocks → All NonEmpty (all_transactions blocks)
all_transactions-NonEmpty [] h = tt
all_transactions-NonEmpty (b ∷ blocks) h =
    All-append NonEmpty b.transactions (all_transactions blocks) h.0.1
      (all_transactions-NonEmpty blocks h.1)

WellFormed-addresses :
    (blocks : List SpanBlock) → All WellFormed blocks → All (λ b. IsAddress b.beneficiary) blocks
WellFormed-addresses [] h = tt
WellFormed-addresses (b ∷ blocks) h = (h.0.0, WellFormed-addresses blocks h.1)

length-all_transactions :
    (blocks : List SpanBlock) → length (all_transactions blocks) ≡ sum (tx_counts blocks)
length-all_transactions [] = refl
length-all_transactions (b ∷ blocks) =
    omega (
      arith,
      length-append b.transactions (all_transactions blocks),
      length-all_transactions blocks,
    )

length-flatten : (txs : List Bytes) → length (flatten txs) ≡ sum (lengths txs)
length-flatten [] = refl
length-flatten (tx ∷ txs) = omega (arith, length-append tx (flatten txs), length-flatten txs)

length-le-sum : (txs : List Bytes) → All NonEmpty txs → length txs ≤ sum (lengths txs)
length-le-sum [] h = omega arith
length-le-sum (tx ∷ txs) h = omega (arith, length-le-sum txs h.1, h.0)

-- A count column has a byte at least for each block, and its counts are u32.
put_tx_counts_bounds :
    (blocks : List SpanBlock) (column : Bytes)
    → put_tx_counts blocks ≡ ok column
    → (length blocks ≤ length column) × (sum (tx_counts blocks) ≤ length blocks * 4294967295)
unfolding put_tx_counts
put_tx_counts_bounds [] column e = omega arith
put_tx_counts_bounds (b ∷ blocks) column e =
    let (tail, et, fits, ec) = put_tx_counts-eq-ok b blocks column e in
    let (long, small) = put_tx_counts_bounds blocks tail et in
    omega (
      arith,
      ap (λ (t : Bytes). length t) ec,
      length-append (put_uvarint32 (length b.transactions)) tail,
      length-put_uvarint32 (length b.transactions) fits,
    )

put_tx_lengths_bounds :
    (txs : List Bytes) (column : Bytes)
    → put_tx_lengths txs ≡ ok column
    → length txs ≤ length column
unfolding put_tx_lengths
put_tx_lengths_bounds [] column e = omega arith
put_tx_lengths_bounds (tx ∷ txs) column e =
    let (tail, et, fits, ec) = put_tx_lengths-eq-ok tx txs column e in
    let long = put_tx_lengths_bounds txs tail et in
    omega (
      arith,
      ap (λ (t : Bytes). length t) ec,
      length-append (put_uvarint32 (length tx)) tail,
      length-put_uvarint32 (length tx) fits,
    )

plausible :
    (what : String) (value per_element : ℕ) (cur : Bytes)
    → value ≤ length cur / per_element
    → check_plausible what value per_element cur ≡ ok (tt, cur)
unfolding check_plausible
plausible what value per_element cur h = ground arith

-- The columns as they stand behind the version byte.
module _ (b : SpanBlock) (bs : List SpanBlock) (counts beneficiaries extras lens : Bytes) where
  abbrev txs : List Bytes
  txs = all_transactions (b ∷ bs)

  decode_body-columns :
      IsU32 (length (b ∷ bs))
      → put_tx_counts (b ∷ bs) ≡ ok counts
      → put_beneficiary_runs (runs (b ∷ bs) (λ b. b.beneficiary)) ≡ ok beneficiaries
      → put_extra_data_runs (runs (b ∷ bs) (λ b. b.extra_data)) ≡ ok extras
      → put_tx_lengths txs ≡ ok lens
      → All WellFormed (b ∷ bs)
      → IsU64 (length (flatten txs))
      → decode_body (
          put_uvarint32 (length (b ∷ bs))
          ++ (counts ++ (beneficiaries ++ (extras ++ (lens ++ flatten txs)))))
        ≡ ok (columns (b ∷ bs), [])
  unfolding decode_body
  decode_body-columns fits ec eb ee el wf small =
      let n = length (b ∷ bs) in
      let (long, few) = put_tx_counts_bounds (b ∷ bs) counts ec in
      let ne = all_transactions-NonEmpty (b ∷ bs) wf in
      let after_extras = lens ++ flatten txs in
      let after_beneficiaries = extras ++ after_extras in
      let after_counts = beneficiaries ++ after_beneficiaries in
      let total = sum (tx_counts (b ∷ bs)) in
      let many : length txs ≡ total = length-all_transactions (b ∷ bs) in
      let bytes : length (flatten txs) ≡ sum (lengths txs) = length-flatten txs in
      ground (
        arith,
        uvarint32-put_uvarint32 "block_count" n (counts ++ after_counts) fits,
        plausible "block_count" n 1 (counts ++ after_counts)
            (omega (arith, long, length-append counts after_counts)),
        decode_counts-put_tx_counts (b ∷ bs) 0 counts after_counts ec (omega (arith, few)),
        decode_runs-put_beneficiary_runs b bs beneficiaries after_beneficiaries eb fits
            (WellFormed-addresses (b ∷ bs) wf),
        decode_runs-put_extra_data_runs b bs extras after_extras ee fits,
        plausible "pure_transaction_counts" total 2 after_extras (
            omega (
              arith,
              many,
              bytes,
              length-append lens (flatten txs),
              put_tx_lengths_bounds txs lens el,
              length-le-sum txs ne,
            )),
        decode_lengths-put_tx_lengths txs 0 0 lens (flatten txs) ne el (omega (arith, bytes)),
        many,
        bytes,
        decode_transactions-flatten txs [],
        append-nil (flatten txs),
      )

-- What a successful `encode` has written.
record Written (b : SpanBlock) (bs : List SpanBlock) (payload : Bytes) : Type 0 where
  counts : Bytes
  beneficiaries : Bytes
  extras : Bytes
  lens : Bytes
  fits : IsU32 (length (b ∷ bs))
  counts_ok : put_tx_counts (b ∷ bs) ≡ ok counts
  beneficiaries_ok : put_beneficiary_runs (runs (b ∷ bs) (λ b. b.beneficiary)) ≡ ok beneficiaries
  extras_ok : put_extra_data_runs (runs (b ∷ bs) (λ b. b.extra_data)) ≡ ok extras
  lens_ok : put_tx_lengths (all_transactions (b ∷ bs)) ≡ ok lens
  is_written :
      payload
      ≡ 0
        ∷ (put_uvarint32 (length (b ∷ bs))
            ++ (counts
                ++ (beneficiaries ++ (extras ++ (lens ++ flatten (all_transactions (b ∷ bs)))))))

encode-Written :
    (b : SpanBlock) (bs : List SpanBlock) (payload : Bytes)
    → encode (b ∷ bs) ≡ ok payload
    → Written b bs payload
unfolding encode
encode-Written b bs payload e =
    let (n, en, e1) = >>=-eq-ok (count_u32 "block_count" (length (b ∷ bs))) _ e in
    let (counts, ec, e2) = >>=-eq-ok (put_tx_counts (b ∷ bs)) _ e1 in
    let (beneficiaries, eb, e3) =
      >>=-eq-ok (put_beneficiary_runs (runs (b ∷ bs) (λ b. b.beneficiary))) _ e2 in
    let (extras, ee, e4) =
      >>=-eq-ok (put_extra_data_runs (runs (b ∷ bs) (λ b. b.extra_data))) _ e3 in
    let (lens, el, e5) = >>=-eq-ok (put_tx_lengths (all_transactions (b ∷ bs))) _ e4 in
    let (fits, same) = count_u32-eq-ok "block_count" (length (b ∷ bs)) n en in
    record {
      counts = counts;
      beneficiaries = beneficiaries;
      extras = extras;
      lens = lens;
      fits = fits;
      counts_ok = ec;
      beneficiaries_ok = eb;
      extras_ok = ee;
      lens_ok = el;
      is_written = cc;
    }

-- Whatever `encode` accepts, `decode` reads back as the columns of the same blocks, if every
-- address has 20 bytes, no transaction is empty and the transactions have less than 2^64 bytes.
pub decode-encode :
    (blocks : List SpanBlock) (payload : Bytes)
    → encode blocks ≡ ok payload
    → All WellFormed blocks
    → IsU64 (length (flatten (all_transactions blocks)))
    → decode payload ≡ ok (columns blocks)
unfolding decode
decode-encode [] payload e wf small = unfold encode in cc
decode-encode (b ∷ bs) payload e wf small =
    let w = encode-Written b bs payload e in
    let body =
      decode_body-columns b bs w.counts w.beneficiaries w.extras w.lens w.fits w.counts_ok
        w.beneficiaries_ok w.extras_ok w.lens_ok wf small in
    rw w.is_written (ground (arith, body))
