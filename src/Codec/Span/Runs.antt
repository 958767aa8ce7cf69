-- ===== src/Codec/Span/Runs.antt =====
-- `decode_runs` on the run columns that `encode` writes.
use eez_rollup.Base.{
  ℕ, zero, suc, ◌+◌, ◌-◌, ◌^◌, ◌<◌, ◌≤◌, ◌≡◌, ◌∙◌, ap, refl, String, List, [], ◌∷◌, ◌++◌, true,
  false, length, map, All, append_assoc, replicate, arith, bytes_eq, bytes_eq→eq, Bool-cases, inl,
  inr, Option, none, some,
}
use eez_rollup.Codec.Types.{ok, Bytes, SpanBlock, IsU32, max_extra_data}
use eez_rollup.Codec.Cursor.{Reader, take_bytes_exact-append, byte}
use eez_rollup.Codec.Varint.{put_uvarint32}
use eez_rollup.Codec.Varint.RoundTrip.{uvarint32-put_uvarint32}
use eez_rollup.Codec.Encode.{
  >>=-eq-ok, runs, runs_loop, put_beneficiary_runs, extra_data_len, put_extra_data_runs,
}
use eez_rollup.Codec.Decode.{
  decode_runs, decode_runs_loop, is_previous, beneficiary_value, extra_data_value,
}

-- One round of the loop, on a run as it was written.
run_step :
    (what : String) (value_of : Reader Bytes) (fuel missing n : ℕ) (value enc more rest : Bytes)
    (previous : Option Bytes) (values : List Bytes)
    → IsU32 n
    → 0 < n
    → n ≤ missing
    → is_previous previous value ≡ false
    → value_of (enc ++ more) ≡ ok (value, more)
    → decode_runs_loop fuel (missing - n) what value_of (some value) more ≡ ok (values, rest)
    → decode_runs_loop (suc fuel) missing what value_of previous (put_uvarint32 n ++ (enc ++ more))
      ≡ ok (replicate n value ++ values, rest)
unfolding decode_runs_loop
run_step what value_of fuel missing n value enc more rest previous values hn hp le fresh ev e =
    ground (arith, uvarint32-put_uvarint32 what n (enc ++ more))

loop_done :
    (what : String) (value_of : Reader Bytes) (fuel missing : ℕ) (previous : Option Bytes)
    (rest : Bytes)
    → missing ≡ 0
    → decode_runs_loop fuel missing what value_of previous rest ≡ ok ([], rest)
unfolding decode_runs_loop
loop_done what value_of zero missing previous rest h = ground arith
loop_done what value_of (suc fuel) missing previous rest h = ground arith

replicate_next :
    (n : ℕ) (x y : Bytes) (ys : List Bytes)
    → x ≡ y
    → replicate (n + 1) x ++ ys ≡ replicate n x ++ (y ∷ ys)
replicate_next zero x y ys e = rw e
replicate_next (suc n) x y ys e =
    let next : suc n + 1 ≡ suc (n + 1) = omega arith in
    rw next (ap (◌∷◌ x) (replicate_next n x y ys e))

runs_loop_same :
    (of : SpanBlock → Bytes) (n : ℕ) (first b : SpanBlock) (blocks : List SpanBlock)
    → bytes_eq (of first) (of b) ≡ true
    → runs_loop of n first (b ∷ blocks) ≡ runs_loop of (n + 1) first blocks
unfolding runs_loop
runs_loop_same of n first b blocks e = rw (e, runs_loop)

runs_loop_new :
    (of : SpanBlock → Bytes) (n : ℕ) (first b : SpanBlock) (blocks : List SpanBlock)
    → bytes_eq (of first) (of b) ≡ false
    → runs_loop of n first (b ∷ blocks) ≡ (n, first) ∷ runs_loop of 1 b blocks
unfolding runs_loop
runs_loop_new of n first b blocks e = rw (e, runs_loop)

-- The column that these runs are written as, where `enc` writes a value.
pub run_bytes : (SpanBlock → Bytes) → (Bytes → Bytes) → List (ℕ × SpanBlock) → Bytes
run_bytes of enc [] = []
run_bytes of enc ((n, b) ∷ rs) = put_uvarint32 n ++ (enc (of b) ++ run_bytes of enc rs)

abbrev pub ValidRuns : (SpanBlock → Bytes) → (Bytes → Type 0) → List (ℕ × SpanBlock) → Type 0
ValidRuns of Valid = All (λ r. Valid (of r.1))

-- A column of runs: `of` picks the value, `enc` writes it and `value_of` reads it.
module _ (what : String) (of : SpanBlock → Bytes) (enc : Bytes → Bytes) (value_of : Reader Bytes)
    (Valid : Bytes → Type 0)
    (reads : (v more : Bytes) → Valid v → value_of (enc v ++ more) ≡ ok (v, more)) where
  one_run :
      (n fuel : ℕ) (b : SpanBlock) (rs : List (ℕ × SpanBlock)) (previous : Option Bytes)
      (missing : ℕ) (rest : Bytes) (values : List Bytes)
      → 0 < n
      → n ≤ missing
      → missing < 2 ^ 32
      → missing ≤ fuel
      → is_previous previous (of b) ≡ false
      → Valid (of b)
      → ((f : ℕ)
          → missing - n ≤ f
          → decode_runs_loop f
              (missing - n)
              what
              value_of
              (some (of b))
              (run_bytes of enc rs ++ rest)
            ≡ ok (values, rest))
      → decode_runs_loop fuel missing what value_of previous
          (run_bytes of enc ((n, b) ∷ rs) ++ rest)
        ≡ ok (replicate n (of b) ++ values, rest)
  unfolding run_bytes
  one_run n zero b rs previous missing rest values hn le lt hf fresh valid more =
      absurd (omega arith)
  one_run n (suc fuel) b rs previous missing rest values hn le lt hf fresh valid more =
      let bytes = run_bytes of enc rs in
      let split : run_bytes of enc ((n, b) ∷ rs) ++ rest
          ≡ put_uvarint32 n ++ (enc (of b) ++ (bytes ++ rest)) =
        append_assoc (put_uvarint32 n) (enc (of b) ++ bytes) rest
        ∙ ap (◌++◌ (put_uvarint32 n)) (append_assoc (enc (of b)) bytes rest) in
      rw split (
        run_step what value_of fuel missing n (of b) (enc (of b)) (bytes ++ rest) rest previous
          values (omega arith) hn le fresh (reads (of b) (bytes ++ rest) valid)
          (more fuel (omega arith)))

  pub decode_runs_loop-runs_loop :
      (blocks : List SpanBlock) (n fuel : ℕ) (first : SpanBlock) (previous : Option Bytes)
      (rest : Bytes)
      → 0 < n
      → n + length blocks < 2 ^ 32
      → n + length blocks ≤ fuel
      → is_previous previous (of first) ≡ false
      → ValidRuns of Valid (runs_loop of n first blocks)
      → decode_runs_loop fuel
          (n + length blocks)
          what
          value_of
          previous
          (run_bytes of enc (runs_loop of n first blocks) ++ rest)
        ≡ ok (replicate n (of first) ++ map of blocks, rest)
  unfolding runs_loop
  decode_runs_loop-runs_loop [] n fuel first previous rest hn lt hf fresh valid =
      one_run n fuel first [] previous (n + 0) rest [] hn (omega arith) lt hf fresh valid.0
        (λ f hf'.
          unfold run_bytes in
          loop_done what value_of f (n + 0 - n) (some (of first)) rest (omega arith))
  decode_runs_loop-runs_loop (b ∷ blocks) n fuel first previous rest hn lt hf fresh valid =
      elim (Bool-cases (bytes_eq (of first) (of b))) [
        | inl same ↦
            let e = runs_loop_same of n first b blocks same in
            let longer : n + suc (length blocks) ≡ n + 1 + length blocks = omega arith in
            rw
              (
                e,
                longer,
                ← replicate_next n (of first) (of b) (map of blocks) (bytes_eq→eq _ _ same),
              )
              (decode_runs_loop-runs_loop blocks (n + 1) fuel first previous rest (omega arith)
                (omega arith) (omega arith) fresh (rw e at valid))
        | inr new ↦
            let e = runs_loop_new of n first b blocks new in
            let valid' : ValidRuns of Valid ((n, first) ∷ runs_loop of 1 b blocks) =
              rw e at valid in
            let left : n + suc (length blocks) - n ≡ 1 + length blocks = omega arith in
            rw e (
              one_run n fuel first (runs_loop of 1 b blocks) previous (n + suc (length blocks)) rest
                (of b ∷ map of blocks) hn (omega arith) lt hf fresh valid'.0
                (λ f hf'. rw left (
                  decode_runs_loop-runs_loop blocks 1 f b (some (of first)) rest (omega arith)
                    (omega arith) (omega arith) new valid'.1)))
      ]

ValidRuns-runs_loop :
    (of : SpanBlock → Bytes) (Valid : Bytes → Type 0) (n : ℕ) (first : SpanBlock)
    (blocks : List SpanBlock)
    → Valid (of first)
    → All (λ b. Valid (of b)) blocks
    → ValidRuns of Valid (runs_loop of n first blocks)
unfolding runs_loop
ValidRuns-runs_loop of Valid n first [] h hs = (h, tt)
ValidRuns-runs_loop of Valid n first (b ∷ blocks) h hs =
    elim (bytes_eq (of first) (of b))
      as (λ t. ValidRuns of Valid (elim t [
        | true ↦ runs_loop of (n + 1) first blocks
        | false ↦ (n, first) ∷ runs_loop of 1 b blocks
      ])) [
        | true ↦ ValidRuns-runs_loop of Valid (n + 1) first blocks h hs.1
        | false ↦ (h, ValidRuns-runs_loop of Valid 1 b blocks hs.0 hs.1)
      ]

abbrev pub IsAddress : Bytes → Type 0
IsAddress v = length v ≡ 20

reads_beneficiary : (v more : Bytes) → IsAddress v → beneficiary_value (v ++ more) ≡ ok (v, more)
unfolding beneficiary_value
reads_beneficiary v more h = rw (← h) (take_bytes_exact-append "beneficiary" v more)

put_beneficiary_runs-run_bytes :
    (rs : List (ℕ × SpanBlock))
    → put_beneficiary_runs rs ≡ ok (run_bytes (λ b. b.beneficiary) (λ v. v) rs)
unfolding put_beneficiary_runs run_bytes
put_beneficiary_runs-run_bytes [] = refl
put_beneficiary_runs-run_bytes ((n, b) ∷ rs) = rw (put_beneficiary_runs-run_bytes rs)

-- The beneficiary column, whatever follows it.
pub decode_runs-put_beneficiary_runs :
    (b : SpanBlock) (blocks : List SpanBlock) (column rest : Bytes)
    → put_beneficiary_runs (runs (b ∷ blocks) (λ b. b.beneficiary)) ≡ ok column
    → length (b ∷ blocks) < 2 ^ 32
    → All (λ b. IsAddress b.beneficiary) (b ∷ blocks)
    → decode_runs (length (b ∷ blocks)) "beneficiary" beneficiary_value (column ++ rest)
      ≡ ok (map (λ b. b.beneficiary) (b ∷ blocks), rest)
unfolding decode_runs runs
decode_runs-put_beneficiary_runs b blocks column rest e lt h =
    let rs = runs_loop (λ b. b.beneficiary) 1 b blocks in
    let same : column ≡ run_bytes (λ b. b.beneficiary) (λ v. v) rs =
      cc (put_beneficiary_runs-run_bytes rs) in
    let one_more : suc (length blocks) ≡ 1 + length blocks = omega arith in
    rw (same, one_more)
      (decode_runs_loop-runs_loop "beneficiary" (λ b. b.beneficiary) (λ v. v) beneficiary_value
        IsAddress reads_beneficiary blocks 1 (1 + length blocks) b none rest (omega arith)
        (omega arith) (omega arith) refl (ValidRuns-runs_loop _ IsAddress 1 b blocks h.0 h.1))

abbrev FitsExtraData : Bytes → Type 0
FitsExtraData v = length v ≤ max_extra_data

reads_extra_data :
    (v more : Bytes) → FitsExtraData v → extra_data_value ((length v ∷ v) ++ more) ≡ ok (v, more)
unfolding extra_data_value byte
reads_extra_data v more h = ground (arith, take_bytes_exact-append "extra_data" v more)

put_extra_data_runs-run_bytes :
    (rs : List (ℕ × SpanBlock)) (column : Bytes)
    → put_extra_data_runs rs ≡ ok column
    → (column ≡ run_bytes (λ b. b.extra_data) (λ v. length v ∷ v) rs)
      × ValidRuns (λ b. b.extra_data) FitsExtraData rs
unfolding put_extra_data_runs run_bytes extra_data_len
put_extra_data_runs-run_bytes [] column e = (cc, tt)
put_extra_data_runs-run_bytes ((n, b) ∷ rs) column e =
    let (len, el, e') = >>=-eq-ok (extra_data_len b.extra_data) _ e in
    let (tail, et, e'') = >>=-eq-ok (put_extra_data_runs rs) _ e' in
    let (ec, valid) = put_extra_data_runs-run_bytes rs tail et in
    (ground arith, (ground arith, valid))

-- The extra data column, whatever follows it.
pub decode_runs-put_extra_data_runs :
    (b : SpanBlock) (blocks : List SpanBlock) (column rest : Bytes)
    → put_extra_data_runs (runs (b ∷ blocks) (λ b. b.extra_data)) ≡ ok column
    → length (b ∷ blocks) < 2 ^ 32
    → decode_runs (length (b ∷ blocks)) "extra_data" extra_data_value (column ++ rest)
      ≡ ok (map (λ b. b.extra_data) (b ∷ blocks), rest)
unfolding decode_runs runs
decode_runs-put_extra_data_runs b blocks column rest e lt =
    let rs = runs_loop (λ b. b.extra_data) 1 b blocks in
    let (same, valid) = put_extra_data_runs-run_bytes rs column e in
    let one_more : suc (length blocks) ≡ 1 + length blocks = omega arith in
    rw (same, one_more)
      (decode_runs_loop-runs_loop "extra_data" (λ b. b.extra_data) (λ v. length v ∷ v)
        extra_data_value FitsExtraData reads_extra_data blocks 1 (1 + length blocks) b none rest
        (omega arith) (omega arith) (omega arith) refl valid)
