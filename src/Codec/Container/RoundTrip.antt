-- ===== src/Codec/Container/RoundTrip.antt =====
-- What `decode_container` makes of a stream that `encode_container` wrote.
use mathlib.Core.List.{reverse-reverse, reverse-cons}
use native.Mathlib.Nat.{pow-suc}
use eez_rollup.Base.{
  ℕ, zero, suc, ◌+◌, ◌/◌, ◌^◌, ◌<◌, ◌≤◌, ◌≡◌, ◌∙◌, ap, refl, String, List, [], ◌∷◌, ◌++◌, false,
  length, reverse, All, flatten, append_assoc, length-append, arith,
}
use eez_rollup.Codec.Types.{CodecResult, ok, Bytes, SpanBlock, IsU32, IsU64}
use eez_rollup.Codec.Cursor.{take_bytes_exact, take_bytes_exact-append, byte}
use eez_rollup.Codec.Varint.{put_varint}
use eez_rollup.Codec.Varint.RoundTrip.{varint-put_varint}
use eez_rollup.Codec.Encode.{>>=-eq-ok, encode, all_transactions}
use eez_rollup.Codec.Span.RoundTrip.{columns, WellFormed, decode-encode}
use eez_rollup.Codec.Container.{
  Action, to_le_bytes, from_le_bytes, reversed, put_bytes, take_bytes, expect_message,
  foreign_target, validate_targets, validate_target_rollup, return_message, put_action, put_actions,
  encode_container, take_u64, return_success, decode_action, decode_actions, decode_stream,
  decode_container,
}

from_le_bytes-to_le_bytes : (n v : ℕ) → v < 256 ^ n → from_le_bytes (to_le_bytes n v) ≡ v
unfolding from_le_bytes to_le_bytes
from_le_bytes-to_le_bytes zero v h = omega arith
from_le_bytes-to_le_bytes (suc n) v h =
    omega (arith, from_le_bytes-to_le_bytes n (v / 256) (omega (arith, pow-suc 256 n)))

length-to_le_bytes : (n v : ℕ) → length (to_le_bytes n v) ≡ n
unfolding to_le_bytes
length-to_le_bytes zero v = refl
length-to_le_bytes (suc n) v = ap suc (length-to_le_bytes n (v / 256))

take_u64-to_le_bytes :
    (what : String) (v : ℕ) (rest : Bytes)
    → IsU64 v
    → take_u64 what (to_le_bytes 8 v ++ rest) ≡ ok (v, rest)
unfolding take_u64
take_u64-to_le_bytes what v rest h =
    let read : take_bytes_exact what 8 (to_le_bytes 8 v ++ rest) ≡ ok (to_le_bytes 8 v, rest) =
      rw (length-to_le_bytes 8 v) at (take_bytes_exact-append what (to_le_bytes 8 v) rest) in
    ground (arith, read, from_le_bytes-to_le_bytes 8 v (omega arith))

put_bytes-eq-ok :
    (value field : Bytes)
    → put_bytes value ≡ ok field
    → IsU32 (length value) × (field ≡ put_varint (length value) ++ value)
unfolding put_bytes
put_bytes-eq-ok value field e = ground arith

take_bytes-put_bytes :
    (what : String) (value field rest : Bytes)
    → put_bytes value ≡ ok field
    → take_bytes what (field ++ rest) ≡ ok (value, rest)
unfolding take_bytes
take_bytes-put_bytes what value field rest e =
    let (fits, ef) = put_bytes-eq-ok value field e in
    let joined : field ++ rest ≡ put_varint (length value) ++ (value ++ rest) =
      rw ef (append_assoc (put_varint (length value)) value rest) in
    rw joined (
      ground (
        arith,
        varint-put_varint what (length value) (value ++ rest) fits,
        take_bytes_exact-append what value rest,
      ))

expect_message_same : (m : ℕ) (rest : Bytes) → expect_message m (m ∷ rest) ≡ ok (tt, rest)
unfolding expect_message byte
expect_message_same m rest = ground arith

exactly :
    (what : String) (n : ℕ) (v rest : Bytes)
    → length v ≡ n
    → take_bytes_exact what n (v ++ rest) ≡ ok (v, rest)
exactly what n v rest e = rw (← e) (take_bytes_exact-append what v rest)

length-reversed : (v : Bytes) → length (reversed v) ≡ length v
unfolding reversed
length-reversed [] = refl
length-reversed (b ∷ v) =
    let ih : length (reverse v) ≡ length v = length-reversed v in
    omega (
      arith,
      ap (λ (t : Bytes). length t) (reverse-cons b v),
      length-append (reverse v) (b ∷ []),
      ih,
    )

-- What the types of the source give: u64 fields, 20-byte addresses and a 32-byte value.
pub record IsAction (a : Action) : Type 0 where
  pub source_u64 : IsU64 a.source_rollup_id
  pub target_u64 : IsU64 a.target_rollup_id
  pub source_len : length a.source_address ≡ 20
  pub target_len : length a.target_address ≡ 20
  pub value_len : length a.value ≡ 32
  pub gas_u64 : IsU64 a.gas

module _ (rollup_id : ℕ) (a : Action) (rest : Bytes) where
  bracket : Bytes → Bytes → Bytes → Bytes
  bracket tx_data input return_data =
      3
      ∷ (to_le_bytes 8 a.source_rollup_id
          ++ (tx_data
              ++ (4
                  ∷ (to_le_bytes 8 a.target_rollup_id
                      ++ (a.source_address
                          ++ (a.target_address
                              ++ (reversed a.value
                                  ++ (to_le_bytes 8 a.gas
                                      ++ (input
                                          ++ (return_message a.success
                                              ∷ (return_data ++ (10 ∷ rest))))))))))))

  decode_action-bracket :
      (tx_data input return_data : Bytes)
      → IsAction a
      → foreign_target rollup_id a.target_rollup_id ≡ false
      → put_bytes [] ≡ ok tx_data
      → put_bytes a.input ≡ ok input
      → put_bytes a.return_data ≡ ok return_data
      → decode_action rollup_id (bracket tx_data input return_data) ≡ ok (a, rest)
  unfolding decode_action bracket validate_target_rollup return_success return_message byte reversed
  decode_action-bracket tx_data input return_data v near et ei er =
      let s10 : Bytes = 10 ∷ rest in
      let s9 : Bytes = return_message a.success ∷ (return_data ++ s10) in
      let s8 = to_le_bytes 8 a.gas ++ (input ++ s9) in
      let s7 = reversed a.value ++ s8 in
      let s6 = a.target_address ++ s7 in
      let s5 = a.source_address ++ s6 in
      let s4 : Bytes = 4 ∷ (to_le_bytes 8 a.target_rollup_id ++ s5) in
      let s3 = tx_data ++ s4 in
      ground (
        arith,
        expect_message_same 3 (to_le_bytes 8 a.source_rollup_id ++ s3),
        take_u64-to_le_bytes "initiate chain_id" a.source_rollup_id s3 v.source_u64,
        take_bytes-put_bytes "tx_data" [] tx_data s4 et,
        expect_message_same 4 (to_le_bytes 8 a.target_rollup_id ++ s5),
        take_u64-to_le_bytes "to_chain" a.target_rollup_id s5 v.target_u64,
        exactly "from_address" 20 a.source_address s6 v.source_len,
        exactly "to_address" 20 a.target_address s7 v.target_len,
        exactly "value" 32 (reversed a.value) s8 (length-reversed a.value ∙ v.value_len),
        take_u64-to_le_bytes "gas" a.gas (input ++ s9) v.gas_u64,
        take_bytes-put_bytes "data" a.input input s9 ei,
        take_bytes-put_bytes "return_data" a.return_data return_data s10 er,
        expect_message_same 10 rest,
        reverse-reverse a.value,
      )

bracket_append :
    (rollup_id : ℕ) (a : Action) (rest tx_data input return_data : Bytes)
    → bracket rollup_id a [] tx_data input return_data ++ rest
      ≡ bracket rollup_id a rest tx_data input return_data
unfolding bracket
bracket_append rollup_id a rest tx_data input return_data = simp append_assoc

put_action-bracket :
    (rollup_id : ℕ) (a : Action) (tx_data input return_data bytes : Bytes)
    → ◌≡◌ {A = CodecResult Bytes} (ok (bracket rollup_id a [] tx_data input return_data)) (ok bytes)
    → bytes ≡ bracket rollup_id a [] tx_data input return_data
put_action-bracket rollup_id a tx_data input return_data bytes e = cc

-- What a successful `put_action` has written is read back, whatever follows it.
decode_action-put_action :
    (rollup_id : ℕ) (a : Action) (bytes rest : Bytes)
    → put_action a ≡ ok bytes
    → IsAction a
    → foreign_target rollup_id a.target_rollup_id ≡ false
    → decode_action rollup_id (bytes ++ rest) ≡ ok (a, rest)
unfolding put_action bracket
decode_action-put_action rollup_id a bytes rest e v near =
    let (tx_data, et, e1) = >>=-eq-ok (put_bytes []) _ e in
    let (input, ei, e2) = >>=-eq-ok (put_bytes a.input) _ e1 in
    let (return_data, er, e3) = >>=-eq-ok (put_bytes a.return_data) _ e2 in
    let same = put_action-bracket rollup_id a tx_data input return_data bytes e3 in
    rw (same, bracket_append rollup_id a rest tx_data input return_data)
      (decode_action-bracket rollup_id a rest tx_data input return_data v near et ei er)

-- The fuel of the reader's loop is the number of bytes, and a bracket has some.
decode_actions_step :
    (fuel rollup_id : ℕ) (cur more rest : Bytes) (a : Action) (actions : List Action)
    → 0 < length cur
    → decode_action rollup_id cur ≡ ok (a, more)
    → decode_actions fuel rollup_id more ≡ ok (actions, rest)
    → decode_actions (suc fuel) rollup_id cur ≡ ok (a ∷ actions, rest)
unfolding decode_actions
decode_actions_step fuel rollup_id cur more rest a actions h e er = ground arith

put_action_bytes : (a : Action) (bytes : Bytes) → put_action a ≡ ok bytes → 0 < length bytes
unfolding put_action
put_action_bytes a bytes e =
    let (tx_data, et, e1) = >>=-eq-ok (put_bytes []) _ e in
    let (input, ei, e2) = >>=-eq-ok (put_bytes a.input) _ e1 in
    let (return_data, er, e3) = >>=-eq-ok (put_bytes a.return_data) _ e2 in ground arith

validate_targets-cons :
    (rollup_id : ℕ) (a : Action) (actions : List Action)
    → validate_targets rollup_id (a ∷ actions) ≡ ok tt
    → (foreign_target rollup_id a.target_rollup_id ≡ false)
      × (validate_targets rollup_id actions ≡ ok tt)
unfolding validate_targets
validate_targets-cons rollup_id a actions e = ground arith

decode_actions-nil : (fuel rollup_id : ℕ) → decode_actions fuel rollup_id [] ≡ ok ([], [])
unfolding decode_actions
decode_actions-nil zero rollup_id = refl
decode_actions-nil (suc fuel) rollup_id = refl

put_actions-cons :
    (a : Action) (actions : List Action) (bytes : Bytes)
    → put_actions (a ∷ actions) ≡ ok bytes
    → (first : Bytes) × (rest : Bytes) × (put_action a ≡ ok first)
      × (put_actions actions ≡ ok rest)
      × (bytes ≡ first ++ rest)
unfolding put_actions
put_actions-cons a actions bytes e =
    let (first, ef, e1) = >>=-eq-ok (put_action a) _ e in
    let (rest, er, e2) = >>=-eq-ok (put_actions actions) _ e1 in (first, rest, ef, er, cc)

decode_actions-put_actions :
    (rollup_id : ℕ) (actions : List Action) (bytes : Bytes) (fuel : ℕ)
    → put_actions actions ≡ ok bytes
    → All IsAction actions
    → validate_targets rollup_id actions ≡ ok tt
    → length bytes ≤ fuel
    → decode_actions fuel rollup_id bytes ≡ ok (actions, [])
decode_actions-put_actions rollup_id [] bytes fuel e v t hf =
    let none_left : bytes ≡ [] = unfold put_actions in cc in
    rw none_left (decode_actions-nil fuel rollup_id)
decode_actions-put_actions rollup_id (a ∷ actions) bytes zero e v t hf =
    let (first, rest, ef, er, eb) = put_actions-cons a actions bytes e in
    absurd (
      omega (
        arith,
        ap (λ (x : Bytes). length x) eb,
        length-append first rest,
        put_action_bytes a first ef,
      ))
decode_actions-put_actions rollup_id (a ∷ actions) bytes (suc fuel) e v t hf =
    let (first, rest, ef, er, eb) = put_actions-cons a actions bytes e in
    let (near, t') = validate_targets-cons rollup_id a actions t in
    let long = put_action_bytes a first ef in
    let count : length bytes ≡ length first + length rest =
      ap (λ (x : Bytes). length x) eb ∙ length-append first rest in
    decode_actions_step fuel rollup_id bytes rest [] a actions (omega (arith, long, count))
      (rw eb (decode_action-put_action rollup_id a first rest ef v.0 near))
      (decode_actions-put_actions rollup_id actions rest fuel er v.1 t'
        (omega (arith, long, count)))

-- Whatever `encode_container` accepts, `decode_container` reads back: the rollup, the columns of the
-- blocks and the actions in order. The fields have the widths of their types, no transaction is
-- empty and the transactions have less than 2^64 bytes.
pub decode_container-encode_container :
    (rollup_id : ℕ) (blocks : List SpanBlock) (actions : List Action) (payload : Bytes)
    → encode_container rollup_id blocks actions ≡ ok payload
    → IsU64 rollup_id
    → All WellFormed blocks
    → All IsAction actions
    → IsU64 (length (flatten (all_transactions blocks)))
    → decode_container payload
      ≡ ok (record { rollup_id = rollup_id; span = columns blocks; actions = actions })
unfolding encode_container decode_container decode_stream
decode_container-encode_container rollup_id blocks actions payload e h wf v small =
    let (operations, eo, e1) = >>=-eq-ok (encode blocks) _ e in
    let (u, et, e2) = >>=-eq-ok (validate_targets rollup_id actions) _ e1 in
    let (span, es, e3) = >>=-eq-ok (put_bytes operations) _ e2 in
    let (brackets, eb, e4) = >>=-eq-ok (put_actions actions) _ e3 in
    let stream : Bytes = to_le_bytes 8 rollup_id ++ (span ++ brackets) in
    ground (
      arith,
      expect_message_same 2 stream,
      take_u64-to_le_bytes "chain_id" rollup_id (span ++ brackets) h,
      take_bytes-put_bytes "operations" operations span brackets es,
      decode-encode blocks operations eo wf small,
      decode_actions-put_actions rollup_id actions brackets (length brackets) eb v et (omega arith),
    )
