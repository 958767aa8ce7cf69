-- ===== src/Codec/Varint/Canonical.antt =====
-- Which bytes `uvarint32` and `varint` accept.
use native.Mathlib.Decide.{dec_lt}
use native.Mathlib.Nat.{pow-suc}
use eez_rollup.Base.{
  ℕ, zero, suc, ◌+◌, ◌-◌, ◌*◌, ◌/◌, ◌^◌, ◌≤◌, ◌<◌, ◌≡◌, ◌≢◌, ◌⊎◌, ◌∙◌, sym, refl, ap, inr, String,
  [], ◌∷◌, ◌++◌, arith, All,
}
use eez_rollup.Base.Bits.{low_bits, top_bit}
use eez_rollup.Codec.Types.{ok, Bytes, IsU32}
use eez_rollup.Codec.Varint.{put_uvarint32, uvarint32_loop, uvarint32}
use eez_rollup.Codec.Cursor.{byte}
use eez_rollup.Codec.Varint.RoundTrip.{groups, put_uvarint32-groups, pow_seven, or_group, grows}

abbrev pub IsByte : ℕ → Type 0
IsByte b = b < 256

-- What a successful run of the loop has read.
abbrev Reads : ℕ → ℕ → ℕ → Bytes → ℕ → Bytes → Type 0
Reads k i value src r rest =
    (v : ℕ) × (src ≡ groups k v ++ rest)
    × (r ≡ value + v * 2 ^ (7 * i))
    × (v < 128 ^ suc k)
    × ((i ≡ 0) ⊎ (0 < v))

-- A group shifted by at most four places stays within 35 bits.
small_group : (i g : ℕ) → i ≤ 4 → g < 128 → g * 2 ^ (7 * i) < 2 ^ 35
small_group zero g h hg = omega arith
small_group (suc zero) g h hg = omega arith
small_group (suc (suc zero)) g h hg = omega arith
small_group (suc (suc (suc zero))) g h hg = omega arith
small_group (suc (suc (suc (suc zero)))) g h hg = omega arith
small_group (suc (suc (suc (suc (suc i))))) g h hg = absurd (omega arith)

-- A last byte: the loop stops, and the byte was neither padding nor too large.
reads_last :
    (what : String) (k i value b : ℕ) (cur : Bytes) (r : ℕ) (rest : Bytes)
    → k + i ≡ 4
    → value < 2 ^ (7 * i)
    → b < 128
    → uvarint32_loop what (suc k) i value (b ∷ cur) ≡ ok (r, rest)
    → (r ≡ value + b * 2 ^ (7 * i)) × (cur ≡ rest) × ((i ≡ 0) ⊎ (0 < b)) × IsU32 r
unfolding uvarint32_loop byte
reads_last what k i value b cur r rest hk hval hb e =
    ground (arith, low_bits b, top_bit b, or_group i value b, small_group i b)

-- Any other byte: the loop goes on with the byte's seven bits added.
reads_inner :
    (what : String) (k i value b : ℕ) (cur : Bytes) (r : ℕ) (rest : Bytes)
    → k + i ≡ 4
    → value < 2 ^ (7 * i)
    → 128 ≤ b
    → b < 256
    → uvarint32_loop what (suc k) i value (b ∷ cur) ≡ ok (r, rest)
    → uvarint32_loop what k (i + 1) (value + (b - 128) * 2 ^ (7 * i)) cur ≡ ok (r, rest)
unfolding uvarint32_loop byte
reads_inner what k i value b cur r rest hk hval lo hi e =
    ground (arith, low_bits b, top_bit b, or_group i value (b - 128), small_group i (b - 128))

-- The last round cannot go on.
no_sixth :
    (what : String) (i value : ℕ) (cur : Bytes) (r : ℕ) (rest : Bytes)
    → uvarint32_loop what 0 i value cur ≢ ok (r, rest)
unfolding uvarint32_loop
no_sixth what i value cur r rest e = cc

-- Nor does a round begin without a byte.
no_end :
    (what : String) (k i value : ℕ) (r : ℕ) (rest : Bytes)
    → uvarint32_loop what (suc k) i value [] ≢ ok (r, rest)
unfolding uvarint32_loop byte
no_end what k i value r rest e = cc

groups_last : (k b : ℕ) (rest : Bytes) → b < 128 → b ∷ rest ≡ groups k b ++ rest
unfolding groups
groups_last zero b rest h = refl
groups_last (suc k) b rest h = ground arith

one_group : (k b : ℕ) → b < 128 → b < 128 ^ suc k
one_group zero b h = omega arith
one_group (suc k) b h = omega (arith, one_group k b h, pow-suc 128 (suc k))

-- A byte with its top bit set, and what the rounds behind it have read.
Reads-more :
    (k i value b r : ℕ) (cur rest : Bytes)
    → 128 ≤ b
    → b < 256
    → Reads k (i + 1) (value + (b - 128) * 2 ^ (7 * i)) cur r rest
    → Reads (suc k) i value (b ∷ cur) r rest
unfolding groups
Reads-more k i value b r cur rest lo hi (v, e, er, hv, nz) =
    (b - 128 + 128 * v, whole, placed, omega (arith, pow-suc 128 (suc k)), inr (omega arith))
  where
    back : (b - 128 + 128 * v) / 128 ≡ v
    back = omega arith

    whole : b ∷ cur ≡ groups (suc k) (b - 128 + 128 * v) ++ rest
    whole = ground (arith, ap (groups k) back)

    placed : r ≡ value + (b - 128 + 128 * v) * 2 ^ (7 * i)
    placed = omega (arith, ap (λ (t : ℕ). v * t) (pow_seven i))

Reads-one :
    (what : String) (k i value b : ℕ) (cur : Bytes) (r : ℕ) (rest : Bytes)
    → k + i ≡ 4
    → value < 2 ^ (7 * i)
    → b < 128
    → uvarint32_loop what (suc k) i value (b ∷ cur) ≡ ok (r, rest)
    → Reads k i value (b ∷ cur) r rest × IsU32 r
Reads-one what k i value b cur r rest hk hval last e =
    let (er, ec, nz, fits) = reads_last what k i value b cur r rest hk hval last e in
    ((b, rw ec (groups_last k b rest last), er, one_group k b last, nz), fits)

uvarint32_loop-Reads :
    (what : String) (k i value : ℕ) (src : Bytes) (r : ℕ) (rest : Bytes)
    → k + i ≡ 4
    → value < 2 ^ (7 * i)
    → All IsByte src
    → uvarint32_loop what (suc k) i value src ≡ ok (r, rest)
    → Reads k i value src r rest × IsU32 r
uvarint32_loop-Reads what k i value [] r rest hk hval hb e = absurd (no_end what k i value r rest e)
uvarint32_loop-Reads what zero i value (b ∷ cur) r rest hk hval hb e = elim (dec_lt b 128) [
  | yes last ↦ Reads-one what 0 i value b cur r rest hk hval last e
  | no more ↦ absurd (
      no_sixth what (i + 1) _ cur r rest
        (reads_inner what 0 i value b cur r rest hk hval (omega arith) hb.0 e))
]
uvarint32_loop-Reads what (suc k) i value (b ∷ cur) r rest hk hval hb e = elim (dec_lt b 128) [
  | yes last ↦ Reads-one what (suc k) i value b cur r rest hk hval last e
  | no more ↦
      let (read, fits) =
        uvarint32_loop-Reads what k (i + 1) (value + (b - 128) * 2 ^ (7 * i)) cur r rest
          (omega arith) (grows i value (b - 128) hval (omega arith)) hb.1
          (reads_inner what (suc k) i value b cur r rest hk hval (omega arith) hb.0 e) in
      (Reads-more k i value b r cur rest (omega arith) hb.0 read, fits)
]

-- What `uvarint32` reads from a list of bytes is a u32, and what it consumed is the encoding
-- that `put_uvarint32` writes for it.
pub uvarint32_canonical :
    (what : String) (src : Bytes) (v : ℕ) (rest : Bytes)
    → All IsByte src
    → uvarint32 what src ≡ ok (v, rest)
    → IsU32 v × (src ≡ put_uvarint32 v ++ rest)
unfolding uvarint32
uvarint32_canonical what src v rest hb e =
    let ((w, es, ev, _, _), fits) =
      uvarint32_loop-Reads what 4 0 0 src v rest refl (omega arith) hb e in
    let same : v ≡ w = omega arith in
    (fits, rw (put_uvarint32-groups v fits) (es ∙ ap (λ t. groups 4 t ++ rest) (sym same)))
