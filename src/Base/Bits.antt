-- ===== src/Base/Bits.antt =====
-- The masks and shifts of the codecs as arithmetic: tables over one byte, and the union of two
-- bit fields that do not overlap.
use Prim.Native.Nat.{
  ℕ, zero, suc, ◌+◌, ◌*◌, ◌/◌, ◌%◌, ◌^◌, ◌≤◌, ◌<◌, max, bit_and, bit_or, digits, bit_or-bitwise,
}
use mathlib.Core.Path.{◌≡◌, refl, ap}
use mathlib.Core.Bool.{Bool, true, ◌&&◌}
use native.Mathlib.Nat.{pow-suc}
use native.Mathlib.Omega.{arith}
use eez_rollup.Base.Tests.{◌==◌, ==_iff}

-- A test of every number under a bound, by evaluation.
holds_under : (ℕ → Bool) → ℕ → Bool
holds_under test zero = true
holds_under test (suc bound) = holds_under test bound && test bound

table_entry :
    (test : ℕ → Bool) (bound byte : ℕ)
    → byte < bound
    → holds_under test bound ≡ true
    → test byte ≡ true
unfolding holds_under
table_entry test zero byte under all = absurd (omega arith)
table_entry test (suc bound) byte under all = ground (arith, table_entry test bound byte)

low_table : holds_under (λ b. bit_and b 0x7f == b % 128) 256 ≡ true
unfolding holds_under
low_table = refl

top_table : holds_under (λ b. bit_and b 0x80 == b / 128 * 128) 256 ≡ true
unfolding holds_under
top_table = refl

set_table : holds_under (λ b. bit_or b 0x80 == b % 128 + 128) 256 ≡ true
unfolding holds_under
set_table = refl

-- `byte & 0x7f`
pub low_bits : (b : ℕ) → b < 256 → bit_and b 0x7f ≡ b % 128
low_bits b h = (==_iff _ _).0 (table_entry _ 256 b h low_table)

-- `byte & 0x80`
pub top_bit : (b : ℕ) → b < 256 → bit_and b 0x80 ≡ b / 128 * 128
top_bit b h = (==_iff _ _).0 (table_entry _ 256 b h top_table)

-- `byte | 0x80`
pub set_top_bit : (b : ℕ) → b < 256 → bit_or b 0x80 ≡ b % 128 + 128
set_top_bit b h = (==_iff _ _).0 (table_entry _ 256 b h set_table)

-- The digits of a union, `depth` of them looked at.
abbrev union_to : ℕ → ℕ → ℕ → ℕ
union_to high low depth = digits (λ rest. rest) max depth low high

-- A depth of at least the first number is enough.
deep_enough : (high d e low : ℕ) → low ≤ e → low ≤ d → union_to high low d ≡ union_to high low e
deep_enough high (suc d) (suc e) (suc low) he hd =
    let halves = deep_enough (high / 2) d e (suc low / 2) (omega arith) (omega arith) in
    omega (arith, halves)
deep_enough high (suc d) (suc e) zero he hd = refl
deep_enough high (suc d) zero (suc low) he hd = absurd (omega arith)
deep_enough high (suc d) zero zero he hd = refl
deep_enough high zero (suc e) (suc low) he hd = absurd (omega arith)
deep_enough high zero (suc e) zero he hd = refl
deep_enough high zero zero low he hd = refl

pub zero-bit_or : (high : ℕ) → bit_or 0 high ≡ high
zero-bit_or high = bit_or-bitwise 0 high

-- The lowest digit of a union, and the rest.
bit_or_halves :
    (low high : ℕ) → max (low % 2) (high % 2) + 2 * bit_or (low / 2) (high / 2) ≡ bit_or low high
bit_or_halves zero high = omega (arith, zero-bit_or (high / 2), zero-bit_or high)
bit_or_halves (suc low) high =
    let depth =
      deep_enough (high / 2) low (suc low / 2) (suc low / 2) (omega arith) (omega arith) in
    omega (arith, depth, bit_or-bitwise (suc low / 2) (high / 2), bit_or-bitwise (suc low) high)

half_double : (n : ℕ) → n * 2 / 2 ≡ n
half_double n = omega arith

-- `low | (high << k)` where `low` stays under the shifted field.
pub bit_or_fields : (k low high : ℕ) → low < 2 ^ k → bit_or low (high * 2 ^ k) ≡ low + high * 2 ^ k
bit_or_fields zero low high fits = ground (arith, zero-bit_or high)
bit_or_fields (suc k) low high fits =
    let double : high * 2 ^ suc k ≡ high * 2 ^ k * 2 = rw pow-suc (omega arith) in
    let small : low / 2 < 2 ^ k = omega (arith, pow-suc 2 k) in
    rw double (
      omega (
        arith,
        bit_or_halves low (high * 2 ^ k * 2),
        ap (bit_or (low / 2)) (half_double (high * 2 ^ k)),
        bit_or_fields k (low / 2) high small,
      ))
