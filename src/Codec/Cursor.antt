-- ===== src/Codec/Cursor.antt =====
-- `Cursor` of crates/eez-payload-codec/src/lib.rs. The reader's state is what is left of the body,
-- `body[at..]`: no method looks at the part that has been read.
use eez_rollup.Base.{
  ℕ, ◌/◌, ◌≡◌, Bool, true, false, String, [], ◌∷◌, ◌++◌, length, take, drop, take-append,
  drop-append, length-append, ltb, if◌then◌else◌, arith,
}
use eez_rollup.Codec.Types.{
  CodecError, CodecResult, ok, err, stuck, Bytes, truncated, implausible_count,
}

abbrev pub Cursor : Type 0
Cursor = Bytes

-- A method that reads through `&mut self` and may fail.
abbrev pub Reader : Type 0 → Type 0
Reader A = Cursor → CodecResult (A × Cursor)

infixl 5 ◌>>=◌ ◌>>◌
abbrev pub ◌>>=◌ : {A B : Type 0} → Reader A → (A → Reader B) → Reader B
◌>>=◌ m f cur = elim (m cur) [ ok (a, cur') ↦ f a cur' | err e ↦ err e | stuck ↦ stuck ]

abbrev pub ◌>>◌ : {B : Type 0} → Reader (Unit {0}) → Reader B → Reader B
m >> k = m >>= λ _. k

abbrev pub pure : {A : Type 0} → A → Reader A
pure a cur = ok (a, cur)

abbrev pub fail : {A : Type 0} → CodecError → Reader A
fail e cur = err e

-- `if test { return Err(e); }`
abbrev pub reject : Bool → CodecError → Reader (Unit {0})
reject true e cur = err e
reject false e cur = ok (tt, cur)

abbrev pub remaining : Reader ℕ
remaining cur = ok (length cur, cur)

-- `get(at..at + len)`: out of range when fewer bytes are left.
unfoldable pub take_bytes_exact : String → ℕ → Reader Bytes
take_bytes_exact what len cur =
    if ltb (length cur) len then err (truncated what) else ok (take len cur, drop len cur)

unfoldable pub byte : String → Reader ℕ
byte what [] = err (truncated what)
byte what (b ∷ cur) = ok (b, cur)

unfoldable pub check_plausible : String → ℕ → ℕ → Reader (Unit {0})
check_plausible what value per_element cur =
    if ltb (length cur / per_element) value
    then err (implausible_count what value (length cur))
    else ok (tt, cur)

-- A read of exactly the bytes that were written, and its failure on fewer.
pub take_bytes_exact-append :
    (what : String) (xs rest : Bytes)
    → take_bytes_exact what (length xs) (xs ++ rest) ≡ ok (xs, rest)
unfolding take_bytes_exact
take_bytes_exact-append what xs rest =
    ground (arith, length-append xs rest, take-append xs rest, drop-append xs rest)
