-- ===== src/Codec/Varint.antt =====
-- The variable-length integers: `put_uvarint32` and `Cursor::uvarint32` of src/lib.rs, `put_varint`
-- and `varint` of src/container.rs. A writer returns the bytes that the source pushes to `out`.
pub mod RoundTrip
pub mod Canonical
use mathlib.Core.Logic.{dite}
use mathlib.Core.WellFounded.{Acc}
use native.Mathlib.Decide.{dec_le}
use eez_rollup.Base.{
  ℕ, zero, suc, ◌+◌, ◌*◌, ◌/◌, ◌%◌, ◌^◌, ◌≤◌, ◌<◌, bit_and, bit_or, String, List, [], ◌∷◌, ◌&&◌,
  ltb, ◌==◌, if◌then◌else◌, arith, length,
}
use eez_rollup.Base.Order.{lt_wf}
use eez_rollup.Codec.Types.{
  CodecResult, ok, err, Bytes, non_canonical_varint, value_too_large, max_uvarint32_bytes,
}
use eez_rollup.Codec.Cursor.{Cursor, Reader, ◌>>=◌, ◌>>◌, pure, fail, byte}

pub shift_shrinks : (v : ℕ) → 0x80 ≤ v → v / 128 < v
shift_shrinks v h = omega arith

-- `while value >= 0x80 { out.push((value as u8) | 0x80); value >>= 7; } out.push(value as u8);`
unfoldable pub put_loop : (value : ℕ) → Acc ◌<◌ value → Bytes
put_loop value (Acc.intro _ smaller) =
    dite (dec_le 0x80 value)
      (λ more.
        bit_or (value % 256) 0x80
        ∷ put_loop (value / 128) (smaller (value / 128) (shift_shrinks value more)))
      (λ _. (value % 256) ∷ [])

unfoldable pub put_uvarint32 : ℕ → Bytes
put_uvarint32 value = put_loop value (lt_wf.apply value)

unfoldable pub put_varint : ℕ → Bytes
put_varint value = put_loop value (lt_wf.apply value)

-- `x << n` on a u64.
abbrev pub shl64 : ℕ → ℕ → ℕ
shl64 x n = x * 2 ^ n % 2 ^ 64

-- `u32::try_from(value)`, with `NonCanonicalVarint` for its failure.
abbrev pub to_u32 : String → ℕ → Reader ℕ
to_u32 what value = if ltb value (2 ^ 32) then pure value else fail (non_canonical_varint what)

-- The rounds that the loop `for i in 0..MAX_UVARINT32_BYTES` has left, then `i` and `value`.
unfoldable pub uvarint32_loop : String → ℕ → ℕ → ℕ → Reader ℕ
uvarint32_loop what zero i value = fail (non_canonical_varint what)
uvarint32_loop what (suc rounds) i value = do
  b ← byte what
  let group = bit_and b 0x7f
  let value' = bit_or value (shl64 group (7 * i))
  let rest = uvarint32_loop what rounds (i + 1) value'
  if i == 4 && ltb 0x0f group
      then fail (non_canonical_varint what)
      else if bit_and b 0x80 == 0
      then if ltb 0 i && group == 0 then fail (non_canonical_varint what) else to_u32 what value'
      else rest

unfoldable pub uvarint32 : String → Reader ℕ
uvarint32 what = uvarint32_loop what max_uvarint32_bytes 0 0

-- As above, without the test for a padded encoding.
unfoldable pub varint_loop : String → ℕ → ℕ → ℕ → Reader ℕ
varint_loop what zero i value = fail (non_canonical_varint what)
varint_loop what (suc rounds) i value = do
  b ← byte what
  let group = bit_and b 0x7f
  let value' = bit_or value (shl64 group (7 * i))
  let rest = varint_loop what rounds (i + 1) value'
  if i == 4 && ltb 0x0f group
      then fail (non_canonical_varint what)
      else if bit_and b 0x80 == 0
      then to_u32 what value'
      else rest

unfoldable pub varint : String → Reader ℕ
varint what = varint_loop what max_uvarint32_bytes 0 0

-- `u32::try_from(value)` of a count on encode.
unfoldable pub count_u32 : String → ℕ → CodecResult ℕ
count_u32 what value = if ltb value (2 ^ 32) then ok value else err (value_too_large what value)
