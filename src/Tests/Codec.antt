-- ===== src/Tests/Codec.antt =====
-- crates/eez-payload-codec at concrete inputs.
use native.Mathlib.Decide.{dec_le}
use eez_rollup.Base.{◌≡◌, ◌≢◌, refl, [], ◌∷◌, ◌++◌, List, replicate, true, bytes_eq, All, arith}
use eez_rollup.Base.Order.{lt_wf}
use eez_rollup.Codec.Types.{Bytes, SpanBlock, ok, err, stuck, IsU32, non_canonical_varint}
use eez_rollup.Codec.Cursor.{byte}
use eez_rollup.Codec.Varint.{
  put_loop, put_uvarint32, put_varint, count_u32, uvarint32, uvarint32_loop, varint, varint_loop,
}
use eez_rollup.Codec.Varint.Canonical.{uvarint32_canonical}
use eez_rollup.Codec.Encode.{
  encode, runs, runs_loop, put_tx_counts, put_beneficiary_runs, extra_data_len, put_extra_data_runs,
  put_tx_lengths,
}
use eez_rollup.Codec.Decode.{decode}
use eez_rollup.Codec.Span.RoundTrip.{columns, WellFormed, decode-encode}
use eez_rollup.Codec.Container.{
  Action, to_le_bytes, reversed, put_bytes, return_message, put_action, put_actions,
  validate_targets, encode_container, decode_container,
}
use eez_rollup.Codec.Container.RoundTrip.{IsAction, decode_container-encode_container}
use eez_rollup.Codec.Total.{decode-ne-stuck, decode_container-ne-stuck}

abbrev first_block : SpanBlock
first_block = record {
  beneficiary = replicate 20 0x11;
  extra_data = [];
  transactions = (0x02 ∷ 0xf8 ∷ 0x6c ∷ []) ∷ [];
}

abbrev second_block : SpanBlock
second_block = record { beneficiary = replicate 20 0x11; extra_data = 0x65 ∷ []; transactions = [] }

abbrev two_blocks : List SpanBlock
two_blocks = first_block ∷ second_block ∷ []

abbrev span_bytes : Bytes
span_bytes =
    0x00
    ∷ 0x02
    ∷ 0x01
    ∷ 0x00
    ∷ 0x02
    ∷ (replicate 20 0x11 ++ (0x01 ∷ 0x00 ∷ 0x01 ∷ 0x01 ∷ 0x65 ∷ 0x03 ∷ 0x02 ∷ 0xf8 ∷ 0x6c ∷ []))

encode-two_blocks : encode two_blocks ≡ ok span_bytes
unfolding encode runs runs_loop put_tx_counts put_beneficiary_runs extra_data_len
    put_extra_data_runs put_tx_lengths put_uvarint32 put_loop lt_wf dec_le count_u32 bytes_eq
encode-two_blocks = refl

two_blocks-WellFormed : All WellFormed two_blocks
two_blocks-WellFormed = omega arith

decode-encode_example : decode span_bytes ≡ ok (columns two_blocks)
decode-encode_example =
    decode-encode two_blocks span_bytes encode-two_blocks two_blocks-WellFormed (omega arith)

abbrev bridge_call : Action
bridge_call = record {
  source_rollup_id = 0;
  target_rollup_id = 1;
  source_address = replicate 20 0xaa;
  target_address = replicate 20 0xbb;
  value = replicate 31 0 ++ (0x2a ∷ []);
  gas = 21_000;
  input = 0x51 ∷ 0xdd ∷ [];
  success = true;
  return_data = 0x01 ∷ [];
}

bridge_call-IsAction : IsAction bridge_call
bridge_call-IsAction = omega arith

abbrev stream_bytes : Bytes
stream_bytes =
    0x00 ∷ 0x02 ∷ 0x01 ∷ replicate 7 0
    ++ (0x22
        ∷ (span_bytes
            ++ (0x03 ∷ replicate 8 0
                ++ (0x00 ∷ 0x04 ∷ 0x01 ∷ replicate 7 0
                    ++ (replicate 20 0xaa
                        ++ (replicate 20 0xbb
                            ++ (0x2a ∷ replicate 31 0
                                ++ (0x08 ∷ 0x52 ∷ replicate 6 0
                                    ++ (0x02 ∷ 0x51 ∷ 0xdd ∷ 0x06 ∷ 0x01 ∷ 0x01 ∷ 0x0a ∷ [])))))))))

encode_stream : encode_container 1 two_blocks (bridge_call ∷ []) ≡ ok stream_bytes
unfolding encode_container validate_targets put_bytes put_varint put_actions put_action to_le_bytes
    reversed return_message put_loop lt_wf dec_le
encode_stream = rw (encode-two_blocks) (refl)

decode_container-encode_container_example :
    decode_container stream_bytes
    ≡ ok (record { rollup_id = 1; span = columns two_blocks; actions = bridge_call ∷ [] })
decode_container-encode_container_example =
    decode_container-encode_container 1 two_blocks (bridge_call ∷ []) stream_bytes encode_stream
      (omega arith) two_blocks-WellFormed (bridge_call-IsAction, tt) (omega arith)

uvarint32_canonical_example : IsU32 300 × ((0xac ∷ 0x02 ∷ 7 ∷ []) ≡ put_uvarint32 300 ++ (7 ∷ []))
unfolding uvarint32 uvarint32_loop byte
uvarint32_canonical_example =
    uvarint32_canonical "block_count" (0xac ∷ 0x02 ∷ 7 ∷ []) 300 (7 ∷ []) (omega arith) refl

-- A padded encoding of 1: `uvarint32` refuses it, `varint` takes it.
uvarint32_padded :
    uvarint32 "block_count" (0x81 ∷ 0x00 ∷ []) ≡ err (non_canonical_varint "block_count")
unfolding uvarint32 uvarint32_loop byte
uvarint32_padded = refl

varint_padded : varint "data" (0x81 ∷ 0x00 ∷ []) ≡ ok (1, [])
unfolding varint varint_loop byte
varint_padded = refl

decode-ne-stuck_example : decode (0 ∷ 1 ∷ 0 ∷ 0 ∷ []) ≢ stuck
decode-ne-stuck_example = decode-ne-stuck (0 ∷ 1 ∷ 0 ∷ 0 ∷ [])

decode_container-ne-stuck_example : decode_container (0 ∷ 2 ∷ 1 ∷ []) ≢ stuck
decode_container-ne-stuck_example = decode_container-ne-stuck (0 ∷ 2 ∷ 1 ∷ [])
