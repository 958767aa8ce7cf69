-- ===== src/Codec/Container.antt =====
-- crates/eez-payload-codec/src/container.rs: the message stream that carries a span and its actions.
pub mod RoundTrip
use eez_rollup.Base.{
  ℕ, zero, suc, ◌+◌, ◌*◌, ◌/◌, ◌%◌, ◌^◌, ◌<◌, String, List, [], ◌∷◌, ◌++◌, Bool, true, false, not,
  ltb, ◌==◌, ◌&&◌, if◌then◌else◌, length, reverse,
}
use eez_rollup.Codec.Types.{
  CodecError, CodecResult, ok, err, stuck, Bytes, SpanBlock, DecodedSpan, empty,
  unsupported_version, unexpected_message, unknown_message, non_empty_transaction_data,
  invalid_target_rollup, value_too_large,
}
use eez_rollup.Codec.Cursor.{
  Cursor, Reader, ◌>>=◌, ◌>>◌, pure, fail, reject, remaining, take_bytes_exact, byte,
}
use eez_rollup.Codec.Varint.{put_varint, varint}
use eez_rollup.Codec.Encode.{encode, ◌>>=◌ as then_write}
use eez_rollup.Codec.Decode.{decode, value_of_read}

abbrev pub stream_version : ℕ
stream_version = 0x00

abbrev pub msg_chain_operation : ℕ
msg_chain_operation = 2

abbrev pub msg_initiate : ℕ
msg_initiate = 3

abbrev pub msg_call : ℕ
msg_call = 4

abbrev pub msg_return_success : ℕ
msg_return_success = 6

abbrev pub msg_return_fail : ℕ
msg_return_fail = 7

abbrev pub msg_finish : ℕ
msg_finish = 10

abbrev pub value_bytes : ℕ
value_bytes = 32

pub record Action : Type 0 where
  pub source_rollup_id : ℕ
  pub target_rollup_id : ℕ
  pub source_address : Bytes
  pub target_address : Bytes
  pub value : Bytes
  pub gas : ℕ
  pub input : Bytes
  pub success : Bool
  pub return_data : Bytes

pub record DecodedContainer : Type 0 where
  pub rollup_id : ℕ
  pub span : DecodedSpan
  pub actions : List Action

-- `u64::to_le_bytes`, for `n` bytes, and `u64::from_le_bytes`.
unfoldable pub to_le_bytes : ℕ → ℕ → Bytes
to_le_bytes zero v = []
to_le_bytes (suc n) v = (v % 256) ∷ to_le_bytes n (v / 256)

unfoldable pub from_le_bytes : Bytes → ℕ
from_le_bytes [] = 0
from_le_bytes (b ∷ bs) = b + 256 * from_le_bytes bs

unfoldable pub reversed : Bytes → Bytes
reversed value = reverse value

unfoldable pub put_bytes : Bytes → CodecResult Bytes
put_bytes value =
    if ltb (length value) (2 ^ 32)
    then ok (put_varint (length value) ++ value)
    else err (value_too_large "bytes length" (length value))

unfoldable pub take_bytes : String → Reader Bytes
take_bytes what = do len ← varint what; take_bytes_exact what len

unfoldable pub expect_message : ℕ → Reader (Unit {0})
expect_message expected = do
  b ← byte "message type"
  reject (not (b == expected)) (unexpected_message expected)

abbrev pub foreign_target : ℕ → ℕ → Bool
foreign_target rollup_id target_rollup_id =
    not (target_rollup_id == 0) && not (target_rollup_id == rollup_id)

-- `validate_target_rollup` of a writer, over all actions, and of a reader.
unfoldable pub validate_targets : ℕ → List Action → CodecResult (Unit {0})
validate_targets rollup_id [] = ok tt
validate_targets rollup_id (action ∷ actions) =
    let rest = validate_targets rollup_id actions in
    if foreign_target rollup_id action.target_rollup_id
    then err (invalid_target_rollup rollup_id action.target_rollup_id)
    else rest

unfoldable pub validate_target_rollup : ℕ → ℕ → Reader (Unit {0})
validate_target_rollup rollup_id target_rollup_id =
    reject (foreign_target rollup_id target_rollup_id)
      (invalid_target_rollup rollup_id target_rollup_id)

unfoldable pub return_message : Bool → ℕ
return_message success = if success then msg_return_success else msg_return_fail

-- One turn of the writer's loop over the actions.
unfoldable pub put_action : Action → CodecResult Bytes
put_action action = then_write (put_bytes []) λ tx_data.
    then_write (put_bytes action.input) λ input.
      then_write (put_bytes action.return_data) λ return_data. ok (
        msg_initiate
        ∷ (to_le_bytes 8 action.source_rollup_id
            ++ (tx_data
                ++ (msg_call
                    ∷ (to_le_bytes 8 action.target_rollup_id
                        ++ (action.source_address
                            ++ (action.target_address
                                ++ (reversed action.value
                                    ++ (to_le_bytes 8 action.gas
                                        ++ (input
                                            ++ (return_message action.success
                                                ∷ (return_data ++ (msg_finish ∷ [])))))))))))))

unfoldable pub put_actions : List Action → CodecResult Bytes
put_actions [] = ok []
put_actions (action ∷ actions) =
    then_write (put_action action)
      λ first. then_write (put_actions actions) λ rest. ok (first ++ rest)

unfoldable pub encode_container : ℕ → List SpanBlock → List Action → CodecResult Bytes
encode_container rollup_id blocks actions = then_write (encode blocks) λ operations.
    then_write (validate_targets rollup_id actions) λ _. then_write (put_bytes operations) λ span.
      then_write (put_actions actions) λ brackets.
        ok (stream_version ∷ msg_chain_operation ∷ (to_le_bytes 8 rollup_id ++ (span ++ brackets)))

unfoldable pub take_u64 : String → Reader ℕ
take_u64 what = do bytes ← take_bytes_exact what 8; pure (from_le_bytes bytes)

unfoldable pub return_success : ℕ → Reader Bool
return_success message =
    if message == msg_return_success
    then pure true
    else if message == msg_return_fail
    then pure false
    else fail (unknown_message message)

abbrev pub is_nil : Bytes → Bool
is_nil [] = true
is_nil (b ∷ bs) = false

unfoldable pub decode_action : ℕ → Reader Action
decode_action rollup_id = do
  expect_message msg_initiate
  source_rollup_id ← take_u64 "initiate chain_id"
  tx_data ← take_bytes "tx_data"
  reject (not (is_nil tx_data)) non_empty_transaction_data
  expect_message msg_call
  target_rollup_id ← take_u64 "to_chain"
  validate_target_rollup rollup_id target_rollup_id
  source_address ← take_bytes_exact "from_address" 20
  target_address ← take_bytes_exact "to_address" 20
  wire_value ← take_bytes_exact "value" value_bytes
  gas ← take_u64 "gas"
  input ← take_bytes "data"
  message ← byte "return message"
  success ← return_success message
  return_data ← take_bytes "return_data"
  expect_message msg_finish
  pure (record {
    source_rollup_id = source_rollup_id;
    target_rollup_id = target_rollup_id;
    source_address = source_address;
    target_address = target_address;
    value = reversed wire_value;
    gas = gas;
    input = input;
    success = success;
    return_data = return_data;
  })

-- `while cur.remaining() != 0`, on fuel.
unfoldable pub decode_actions : ℕ → ℕ → Reader (List Action)
decode_actions zero rollup_id = λ cur. if length cur == 0 then ok ([], cur) else stuck
decode_actions (suc fuel) rollup_id =
    let round : Reader (List Action) = (do
      action ← decode_action rollup_id
      actions ← decode_actions fuel rollup_id
      pure (action ∷ actions)) in
    (λ cur. if length cur == 0 then ok ([], cur) else round cur)

-- `crate::decode` of a field that has been read.
abbrev pub lift : {A : Type 0} → CodecResult A → Reader A
lift (ok a) cur = ok (a, cur)
lift (err e) cur = err e
lift stuck cur = stuck

-- The part of `decode_container` behind the version byte. A round takes a byte at least.
unfoldable pub decode_stream : Reader DecodedContainer
decode_stream = do
  expect_message msg_chain_operation
  rollup_id ← take_u64 "chain_id"
  operations ← take_bytes "operations"
  span ← lift (decode operations)
  left ← remaining
  actions ← decode_actions left rollup_id
  pure (record { rollup_id = rollup_id; span = span; actions = actions })

unfoldable pub decode_container : Bytes → CodecResult DecodedContainer
decode_container [] = err empty
decode_container (version ∷ body) =
    if not (version == stream_version)
    then err (unsupported_version version)
    else value_of_read (decode_stream body)
