-- ===== src/Codec/Varint/RoundTrip.antt =====
-- The readers of variable-length integers on what the writers wrote.
use mathlib.Core.WellFounded.{Acc}
use native.Mathlib.Nat.{pow-suc, div-add-mod}
use native.Mathlib.Numerals.{towards_suc}
use eez_rollup.Base.{
  ℕ, zero, suc, ◌+◌, ◌*◌, ◌/◌, ◌%◌, ◌^◌, ◌≤◌, ◌<◌, ◌≡◌, ◌⊎◌, ap, bit_and, bit_or, String, [], ◌∷◌,
  ◌++◌, leb, length, if◌then◌else◌, arith,
}
use eez_rollup.Base.Bits.{low_bits, top_bit, set_top_bit, bit_or_fields}
use eez_rollup.Codec.Types.{ok, Bytes, IsU32}
use eez_rollup.Codec.Varint.{
  put_loop, put_uvarint32, uvarint32_loop, uvarint32, shl64, varint_loop, varint, put_varint,
}
use eez_rollup.Codec.Cursor.{byte}

-- The groups of seven bits of `v`, lowest first, for `v` below 128 ^ (k + 1).
unfoldable pub groups : ℕ → ℕ → Bytes
groups zero v = v ∷ []
groups (suc k) v =
    let rest = groups k (v / 128) in if leb 0x80 v then (v % 128 + 128) ∷ rest else v ∷ []

inner_group : (v : ℕ) → bit_or (v % 256) 0x80 ≡ v % 128 + 128
inner_group v = omega (arith, set_top_bit (v % 256) (omega arith))

put_loop-groups : (k v : ℕ) (w : Acc ◌<◌ v) → v < 128 ^ suc k → put_loop v w ≡ groups k v
unfolding put_loop groups
put_loop-groups zero v (Acc.intro _ smaller) h = ground arith
put_loop-groups (suc k) v (Acc.intro _ smaller) h = grind (
  arith,
  inner_group v,
  pow-suc 128 (suc k),
  λ (w : Acc ◌<◌ (v / 128)). put_loop-groups k (v / 128) w (omega (arith, pow-suc 128 (suc k))),
)

pub put_uvarint32-groups : (v : ℕ) → IsU32 v → put_uvarint32 v ≡ groups 4 v
unfolding put_uvarint32
put_uvarint32-groups v h = put_loop-groups 4 v _ (omega arith)

-- One more group shifts by seven more bits.
pub pow_seven : (i : ℕ) → 2 ^ (7 * (i + 1)) ≡ 128 * 2 ^ (7 * i)
pow_seven i = let e : 7 * (i + 1) ≡ 7 * i + 7 = omega arith in rw e (simp towards_suc (omega arith))

pub four_shift : (i : ℕ) → i ≡ 4 → 2 ^ (7 * i) ≡ 2 ^ 28
four_shift i e = rw e

-- What one round adds to the value: the group's bits lie above those that are there.
pub or_group :
    (i value g : ℕ)
    → value < 2 ^ (7 * i)
    → g * 2 ^ (7 * i) < 2 ^ 64
    → bit_or value (shl64 g (7 * i)) ≡ value + g * 2 ^ (7 * i)
or_group i value g h fits =
    let same : shl64 g (7 * i) ≡ g * 2 ^ (7 * i) = omega arith in
    rw same (bit_or_fields (7 * i) value g h)

last_byte :
    (what : String) (k i v value : ℕ) (rest : Bytes)
    → k + i ≡ 4
    → v < 128
    → (i ≡ 0) ⊎ (0 < v)
    → value < 2 ^ (7 * i)
    → IsU32 (value + v * 2 ^ (7 * i))
    → uvarint32_loop what (suc k) i value (v ∷ rest) ≡ ok (value + v * 2 ^ (7 * i), rest)
unfolding uvarint32_loop byte
last_byte what k i v value rest hk hv nz hval fits =
    ground (arith, low_bits v, top_bit v, or_group i value v, four_shift i)

inner_byte :
    (what : String) (k i g value : ℕ) (rest : Bytes)
    → i < 4
    → g < 128
    → value < 2 ^ (7 * i)
    → IsU32 (value + g * 2 ^ (7 * i))
    → uvarint32_loop what (suc k) i value ((g + 128) ∷ rest)
      ≡ uvarint32_loop what k (i + 1) (value + g * 2 ^ (7 * i)) rest
unfolding uvarint32_loop byte
inner_byte what k i g value rest hi hg hval fits =
    ground (arith, low_bits (g + 128), top_bit (g + 128), or_group i value g)

-- The lowest group of `v` and the rest, both in place.
split_group : (v i : ℕ) → v * 2 ^ (7 * i) ≡ v % 128 * 2 ^ (7 * i) + v / 128 * 2 ^ (7 * (i + 1))
split_group v i = omega (
  arith,
  ap (λ (t : ℕ). t * 2 ^ (7 * i)) (div-add-mod v 128),
  ap (λ (t : ℕ). v / 128 * t) (pow_seven i),
)

-- The partial value stays under the next group.
pub grows :
    (i value g : ℕ) → value < 2 ^ (7 * i) → g < 128 → value + g * 2 ^ (7 * i) < 2 ^ (7 * (i + 1))
grows i value g h hg =
    let room : (g + 1) * 2 ^ (7 * i) ≤ 128 * 2 ^ (7 * i) = grind arith in
    omega (arith, pow_seven i, room)

uvarint32_loop-groups :
    (what : String) (k i v value : ℕ) (rest : Bytes)
    → k + i ≡ 4
    → v < 128 ^ suc k
    → (i ≡ 0) ⊎ (0 < v)
    → value < 2 ^ (7 * i)
    → IsU32 (value + v * 2 ^ (7 * i))
    → uvarint32_loop what (suc k) i value (groups k v ++ rest) ≡ ok (value + v * 2 ^ (7 * i), rest)
unfolding groups
uvarint32_loop-groups what zero i v value rest hk hv nz hval fits =
    last_byte what 0 i v value rest hk hv nz hval fits
uvarint32_loop-groups what (suc k) i v value rest hk hv nz hval fits = ground (
  arith,
  last_byte what (suc k) i v value rest,
  split_group v i,
  grows i value (v % 128),
  pow-suc 128 (suc k),
  inner_byte what (suc k) i (v % 128) value (groups k (v / 128) ++ rest),
  uvarint32_loop-groups what k (i + 1) (v / 128) (value + v % 128 * 2 ^ (7 * i)) rest,
)

uvarint32-groups :
    (what : String) (v : ℕ) (rest : Bytes)
    → IsU32 v
    → uvarint32 what (groups 4 v ++ rest) ≡ ok (v, rest)
unfolding uvarint32
uvarint32-groups what v rest h = ground (arith, uvarint32_loop-groups what 4 0 v 0 rest)

-- `uvarint32` reads back every u32 that `put_uvarint32` wrote, and leaves what follows it.
pub uvarint32-put_uvarint32 :
    (what : String) (v : ℕ) (rest : Bytes)
    → IsU32 v
    → uvarint32 what (put_uvarint32 v ++ rest) ≡ ok (v, rest)
uvarint32-put_uvarint32 what v rest h =
    rw (put_uvarint32-groups v h) (uvarint32-groups what v rest h)

varint_loop_accepts :
    (what : String) (k i value : ℕ) (src : Bytes) (r : ℕ × Bytes)
    → uvarint32_loop what k i value src ≡ ok r
    → varint_loop what k i value src ≡ ok r
unfolding uvarint32_loop varint_loop byte
varint_loop_accepts what zero i value src r e = cc
varint_loop_accepts what (suc k) i value [] r e = cc
varint_loop_accepts what (suc k) i value (b ∷ src) r e = ground (
  arith,
  varint_loop_accepts what k (i + 1) (bit_or value (shl64 (bit_and b 0x7f) (7 * i))) src r,
)

-- What `uvarint32` accepts, the lenient `varint` accepts with the same result.
pub varint_accepts :
    (what : String) (src : Bytes) (r : ℕ × Bytes)
    → uvarint32 what src ≡ ok r
    → varint what src ≡ ok r
unfolding uvarint32 varint
varint_accepts what src r e = varint_loop_accepts what 5 0 0 src r e

-- So a length prefix of the stream is read back, too.
pub varint-put_varint :
    (what : String) (v : ℕ) (rest : Bytes)
    → IsU32 v
    → varint what (put_varint v ++ rest) ≡ ok (v, rest)
unfolding put_varint
varint-put_varint what v rest h =
    varint_accepts what _ (v, rest) (unfold put_uvarint32 in uvarint32-put_uvarint32 what v rest h)

groups_bounds : (k v : ℕ) → (1 ≤ length (groups k v)) × (length (groups k v) ≤ k + 1)
unfolding groups
groups_bounds zero v = omega arith
groups_bounds (suc k) v = ground (arith, groups_bounds k (v / 128))

-- An encoding has one to five bytes.
pub length-put_uvarint32 :
    (v : ℕ) → IsU32 v → (1 ≤ length (put_uvarint32 v)) × (length (put_uvarint32 v) ≤ 5)
length-put_uvarint32 v h = rw (put_uvarint32-groups v h) (groups_bounds 4 v)
