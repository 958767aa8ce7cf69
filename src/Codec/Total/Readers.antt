-- ===== src/Codec/Total/Readers.antt =====
-- A reader that always returns, and that takes at least `n` bytes where it succeeds.
use eez_rollup.Base.{
  ℕ, zero, suc, ◌+◌, ◌/◌, ◌^◌, ◌≤◌, ◌≡◌, refl, String, [], ◌∷◌, Bool, true, false, ltb, ◌==◌, ◌&&◌,
  bit_and, if◌then◌else◌, length, length-drop, arith,
}
use eez_rollup.Codec.Types.{CodecError, CodecResult, ok, err, stuck}
use eez_rollup.Codec.Cursor.{
  Cursor, Reader, ◌>>=◌, ◌>>◌, pure, fail, reject, remaining, take_bytes_exact, byte,
  check_plausible,
}
use eez_rollup.Codec.Varint.{to_u32, uvarint32_loop, uvarint32, varint_loop, varint}

abbrev pub Consumes : {A : Type 0} → ℕ → ℕ → CodecResult (A × Cursor) → Type 0
Consumes n len (ok (a, cur)) = n + length cur ≤ len
Consumes n len (err e) = Unit {0}
Consumes n len stuck = ⊥

pub record Safe {A : Type 0} (n : ℕ) (m : Reader A) : Type 0 where
  pub runs : (cur : Cursor) → Consumes n (length cur) (m cur)

consumes_more :
    {A : Type 0} (n k len len' : ℕ) (r : CodecResult (A × Cursor))
    → n + len' ≤ len
    → Consumes k len' r
    → Consumes (n + k) len r
consumes_more n k len len' (ok (a, cur)) h c = omega arith
consumes_more n k len len' (err e) h c = tt
consumes_more n k len len' stuck h c = c

module _ {A B : Type 0} where
  pub consumes_after :
      (n k len : ℕ) (f : A → Reader B) (r : CodecResult (A × Cursor))
      → Consumes n len r
      → ((a : A) → Safe k (f a))
      → Consumes (n + k) len (elim r [ ok (a, cur') ↦ f a cur' | err e ↦ err e | stuck ↦ stuck ])
  consumes_after n k len f (ok (a, cur)) h rest =
      consumes_more n k len (length cur) (f a cur) h ((rest a).runs cur)
  consumes_after n k len f (err e) h rest = tt
  consumes_after n k len f stuck h rest = h

  pub Safe-then :
      {n k : ℕ} {m : Reader A} {f : A → Reader B}
      → Safe n m
      → ((a : A) → Safe k (f a))
      → Safe (n + k) (m >>= f)
  Safe-then {n} {k} {m} {f} s t = record {
    runs = λ cur. consumes_after n k (length cur) f (m cur) (s.runs cur) t;
  }

consumes_less :
    {A : Type 0} (n k len : ℕ) (r : CodecResult (A × Cursor))
    → k ≤ n
    → Consumes n len r
    → Consumes k len r
consumes_less n k len (ok (a, cur)) h c = omega arith
consumes_less n k len (err e) h c = tt
consumes_less n k len stuck h c = c

module _ {A : Type 0} where
  pub Safe-weaken : (n k : ℕ) {m : Reader A} → k ≤ n → Safe n m → Safe k m
  Safe-weaken n k {m} h s = record {
    runs = λ cur. consumes_less n k (length cur) (m cur) h (s.runs cur);
  }

  pub Safe-pure : (a : A) → Safe 0 (pure a)
  Safe-pure a = record { runs = λ cur. omega arith }

  pub Safe-fail : (n : ℕ) (e : CodecError) → Safe n (fail {A = A} e)
  Safe-fail n e = record { runs = λ cur. tt }

  pub consumes_if :
      (n len : ℕ) (b : Bool) (r r' : CodecResult (A × Cursor))
      → (b ≡ true → Consumes n len r)
      → (b ≡ false → Consumes n len r')
      → Consumes n len (if b then r else r')
  consumes_if n len true r r' h h' = h refl
  consumes_if n len false r r' h h' = h' refl

  reader_if :
      (b : Bool) (m m' : Reader A) (cur : Cursor)
      → (if b then m else m') cur ≡ (if b then m cur else m' cur)
  reader_if true m m' cur = refl
  reader_if false m m' cur = refl

  pub Safe-if :
      (n : ℕ) (b : Bool) {m m' : Reader A}
      → (b ≡ true → Safe n m)
      → (b ≡ false → Safe n m')
      → Safe n (if b then m else m')
  Safe-if n true s t = s refl
  Safe-if n false s t = t refl

  pub Safe-reject :
      (n : ℕ) (b : Bool) (e : CodecError) {m : Reader A}
      → (b ≡ false → Safe n m)
      → Safe n (reject b e >> m)
  Safe-reject n true e s = record { runs = λ cur. tt }
  Safe-reject n false e s = record { runs = λ cur. (s refl).runs cur }

module _ {A B : Type 0} where
  -- A chain of readers is safe, and takes what its first step takes.
  pub Safe-bind :
      {n : ℕ} {m : Reader A} {f : A → Reader B}
      → Safe n m
      → ((a : A) → Safe 0 (f a))
      → Safe n (m >>= f)
  Safe-bind {n} s t = Safe-weaken (n + 0) n (omega arith) (Safe-then s t)

pub Safe-remaining : Safe 0 remaining
Safe-remaining = record { runs = λ cur. omega arith }

byte_consumes : (what : String) (cur : Cursor) → Consumes 1 (length cur) (byte what cur)
unfolding byte
byte_consumes what [] = tt
byte_consumes what (b ∷ cur) = omega arith

take_bytes_consumes :
    (what : String) (n : ℕ) (cur : Cursor) → Consumes 0 (length cur) (take_bytes_exact what n cur)
unfolding take_bytes_exact
take_bytes_consumes what n cur =
    consumes_if 0 (length cur) (ltb (length cur) n) _ _ (λ _. tt)
      (λ _. omega (arith, length-drop n cur))

check_plausible_consumes :
    (what : String) (v k : ℕ) (cur : Cursor)
    → Consumes 0 (length cur) (check_plausible what v k cur)
unfolding check_plausible
check_plausible_consumes what v k cur =
    consumes_if 0 (length cur) (ltb (length cur / k) v) _ _ (λ _. tt) (λ _. omega arith)

pub Safe-byte : (what : String) → Safe 1 (byte what)
Safe-byte what = record { runs = byte_consumes what }

pub Safe-take : (what : String) (n : ℕ) → Safe 0 (take_bytes_exact what n)
Safe-take what n = record { runs = take_bytes_consumes what n }

pub Safe-check_plausible : (what : String) (v k : ℕ) → Safe 0 (check_plausible what v k)
Safe-check_plausible what v k = record { runs = check_plausible_consumes what v k }

Safe-to_u32 : (what : String) (v : ℕ) → Safe 0 (to_u32 what v)
Safe-to_u32 what v = Safe-if 0 (ltb v (2 ^ 32)) (λ _. Safe-pure v) (λ _. Safe-fail 0 _)

Safe-uvarint32_loop :
    (what : String) (rounds i value : ℕ) → Safe 0 (uvarint32_loop what rounds i value)
unfolding uvarint32_loop
Safe-uvarint32_loop what zero i value = Safe-fail 0 _
Safe-uvarint32_loop what (suc rounds) i value = Safe-weaken 1 0 (omega arith) (
    Safe-bind (Safe-byte what) λ b.
      Safe-if 0 (i == 4 && ltb 0x0f (bit_and b 0x7f)) (λ _. Safe-fail 0 _)
        λ _.
          Safe-if 0 (bit_and b 0x80 == 0)
            (λ _.
              Safe-if 0 (ltb 0 i && bit_and b 0x7f == 0) (λ _. Safe-fail 0 _)
                (λ _. Safe-to_u32 what _))
            (λ _. Safe-uvarint32_loop what rounds (i + 1) _))

pub Safe-uvarint32 : (what : String) → Safe 0 (uvarint32 what)
unfolding uvarint32
Safe-uvarint32 what = Safe-uvarint32_loop what 5 0 0

Safe-varint_loop : (what : String) (rounds i value : ℕ) → Safe 0 (varint_loop what rounds i value)
unfolding varint_loop
Safe-varint_loop what zero i value = Safe-fail 0 _
Safe-varint_loop what (suc rounds) i value = Safe-weaken 1 0 (omega arith) (
    Safe-bind (Safe-byte what) λ b.
      Safe-if 0 (i == 4 && ltb 0x0f (bit_and b 0x7f)) (λ _. Safe-fail 0 _)
        λ _.
          Safe-if 0 (bit_and b 0x80 == 0) (λ _. Safe-to_u32 what _)
            (λ _. Safe-varint_loop what rounds (i + 1) _))

pub Safe-varint : (what : String) → Safe 0 (varint what)
unfolding varint
Safe-varint what = Safe-varint_loop what 5 0 0
