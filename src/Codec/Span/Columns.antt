-- ===== src/Codec/Span/Columns.antt =====
-- The decoder of each column on what the writer of that column wrote.
use eez_rollup.Base.{
  ℕ, suc, ◌+◌, ◌^◌, ◌<◌, ◌≡◌, refl, String, List, [], ◌∷◌, ◌++◌, length, map, All, flatten,
  append_assoc, arith,
}
use eez_rollup.Codec.Types.{ok, Bytes, SpanBlock, IsU32}
use eez_rollup.Codec.Cursor.{take_bytes_exact-append}
use eez_rollup.Codec.Varint.{put_uvarint32, count_u32}
use eez_rollup.Codec.Varint.RoundTrip.{uvarint32-put_uvarint32}
use eez_rollup.Codec.Encode.{>>=-eq-ok, put_tx_counts, put_tx_lengths}
use eez_rollup.Codec.Decode.{decode_counts, decode_lengths, decode_transactions}

abbrev pub sum : List ℕ → ℕ
sum [] = 0
sum (n ∷ ns) = n + sum ns

abbrev pub tx_counts : List SpanBlock → List ℕ
tx_counts = map (λ b. length b.transactions)

pub count_u32-eq-ok : (what : String) (n m : ℕ) → count_u32 what n ≡ ok m → IsU32 n × (m ≡ n)
unfolding count_u32
count_u32-eq-ok what n m e = ground arith

decode_counts_step :
    (n rounds total : ℕ) (more rest : Bytes) (counts : List ℕ) (t : ℕ)
    → IsU32 n
    → total + n < 2 ^ 64
    → decode_counts rounds (total + n) more ≡ ok ((counts, t), rest)
    → decode_counts (suc rounds) total (put_uvarint32 n ++ more) ≡ ok ((n ∷ counts, t), rest)
unfolding decode_counts
decode_counts_step n rounds total more rest counts t hn ht e =
    ground (arith, uvarint32-put_uvarint32 "pure_transaction_counts" n more)

pub regroup_bytes :
    (column xs ys rest : Bytes) → column ≡ xs ++ ys → column ++ rest ≡ xs ++ (ys ++ rest)
regroup_bytes column xs ys rest e = rw e (append_assoc xs ys rest)

pub put_tx_counts-eq-ok :
    (b : SpanBlock) (blocks : List SpanBlock) (column : Bytes)
    → put_tx_counts (b ∷ blocks) ≡ ok column
    → (rest : Bytes) × (put_tx_counts blocks ≡ ok rest)
      × IsU32 (length b.transactions)
      × (column ≡ put_uvarint32 (length b.transactions) ++ rest)
unfolding put_tx_counts
put_tx_counts-eq-ok b blocks column e =
    let (n, en, e') = >>=-eq-ok (count_u32 "pure_transaction_counts" (length b.transactions)) _ e in
    let (rest, er, e'') = >>=-eq-ok (put_tx_counts blocks) _ e' in
    let (fits, same) = count_u32-eq-ok "pure_transaction_counts" (length b.transactions) n en in
    (rest, er, fits, cc)

-- The count column, whatever follows it.
pub decode_counts-put_tx_counts :
    (blocks : List SpanBlock) (total : ℕ) (column rest : Bytes)
    → put_tx_counts blocks ≡ ok column
    → total + sum (tx_counts blocks) < 2 ^ 64
    → decode_counts (length blocks) total (column ++ rest)
      ≡ ok ((tx_counts blocks, total + sum (tx_counts blocks)), rest)
unfolding decode_counts put_tx_counts
decode_counts-put_tx_counts [] total column rest e h = ground arith
decode_counts-put_tx_counts (b ∷ blocks) total column rest e h =
    let (tail, et, fits, ec) = put_tx_counts-eq-ok b blocks column e in
    let n = length b.transactions in
    let ih = decode_counts-put_tx_counts blocks (total + n) tail rest et (omega arith) in
    let joined : column ++ rest ≡ put_uvarint32 n ++ (tail ++ rest) =
      regroup_bytes column (put_uvarint32 n) tail rest ec in
    let regroup : total + n + sum (tx_counts blocks) ≡ total + sum (tx_counts (b ∷ blocks)) =
      omega arith in
    rw (joined, ← regroup)
      (decode_counts_step n (length blocks) total (tail ++ rest) rest _ _ fits (omega arith) ih)

decode_lengths_step :
    (n rounds i total : ℕ) (more rest : Bytes) (lengths : List ℕ) (t : ℕ)
    → IsU32 n
    → 0 < n
    → total + n < 2 ^ 64
    → decode_lengths rounds (i + 1) (total + n) more ≡ ok ((lengths, t), rest)
    → decode_lengths (suc rounds) i total (put_uvarint32 n ++ more) ≡ ok ((n ∷ lengths, t), rest)
unfolding decode_lengths
decode_lengths_step n rounds i total more rest lengths t hn hp ht e =
    ground (arith, uvarint32-put_uvarint32 "pure_transaction_lengths" n more)

pub put_tx_lengths-eq-ok :
    (tx : Bytes) (txs : List Bytes) (column : Bytes)
    → put_tx_lengths (tx ∷ txs) ≡ ok column
    → (rest : Bytes) × (put_tx_lengths txs ≡ ok rest)
      × IsU32 (length tx)
      × (column ≡ put_uvarint32 (length tx) ++ rest)
unfolding put_tx_lengths
put_tx_lengths-eq-ok tx txs column e =
    let (n, en, e') = >>=-eq-ok (count_u32 "pure_transaction_lengths" (length tx)) _ e in
    let (rest, er, e'') = >>=-eq-ok (put_tx_lengths txs) _ e' in
    let (fits, same) = count_u32-eq-ok "pure_transaction_lengths" (length tx) n en in
    (rest, er, fits, cc)

abbrev pub lengths : List Bytes → List ℕ
lengths = map (λ tx. length tx)

abbrev pub NonEmpty : Bytes → Type 0
NonEmpty tx = 0 < length tx

-- The length column, whatever follows it.
pub decode_lengths-put_tx_lengths :
    (txs : List Bytes) (i total : ℕ) (column rest : Bytes)
    → All NonEmpty txs
    → put_tx_lengths txs ≡ ok column
    → total + sum (lengths txs) < 2 ^ 64
    → decode_lengths (length txs) i total (column ++ rest)
      ≡ ok ((lengths txs, total + sum (lengths txs)), rest)
unfolding decode_lengths put_tx_lengths
decode_lengths-put_tx_lengths [] i total column rest ne e h = ground arith
decode_lengths-put_tx_lengths (tx ∷ txs) i total column rest ne e h =
    let (tail, et, fits, ec) = put_tx_lengths-eq-ok tx txs column e in
    let n = length tx in
    let ih =
      decode_lengths-put_tx_lengths txs (i + 1) (total + n) tail rest ne.1 et (omega arith) in
    let joined : column ++ rest ≡ put_uvarint32 n ++ (tail ++ rest) =
      regroup_bytes column (put_uvarint32 n) tail rest ec in
    let regroup : total + n + sum (lengths txs) ≡ total + sum (lengths (tx ∷ txs)) = omega arith in
    rw (joined, ← regroup)
      (decode_lengths_step n (length txs) i total (tail ++ rest) rest _ _ fits ne.0 (omega arith)
        ih)

-- The transactions themselves.
pub decode_transactions-flatten :
    (txs : List Bytes) (rest : Bytes)
    → decode_transactions (lengths txs) (flatten txs ++ rest) ≡ ok (txs, rest)
unfolding decode_transactions
decode_transactions-flatten [] rest = refl
decode_transactions-flatten (tx ∷ txs) rest =
    let joined : flatten (tx ∷ txs) ++ rest ≡ tx ++ (flatten txs ++ rest) =
      append_assoc tx (flatten txs) rest in
    rw joined (
      ground (
        arith,
        take_bytes_exact-append "pure_transaction_bytes" tx (flatten txs ++ rest),
        decode_transactions-flatten txs rest,
      ))
