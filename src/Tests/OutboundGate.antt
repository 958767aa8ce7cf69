-- ===== src/Tests/OutboundGate.antt =====
-- crates/eez-protocol/src/outbound_gate.rs: two equal withdrawals need two events. The hash function
-- of the tests is the length of the data.
use eez_rollup.Base.{ℕ, ◌≡◌, ◌↔◌, refl, List, [], ◌∷◌, length}
use eez_rollup.Base.Results.{ok, err}
use eez_rollup.OutboundGate.{
  OutboundCallObservation, EncodedCall, no_matching_event, add_one, take_one, collect, entry_call,
  cross_chain_call_hash, l2_outbound_call_hash, expected_hash, consume_all,
  verify_outbound_authorized,
}
use eez_rollup.OutboundGate.Authorized.{IsAuthorized, verify_outbound_authorized_iff}
use eez_rollup.Tests.Settlement.{outbound_entry}

abbrev encode_data : EncodedCall → List ℕ
encode_data (static, source, source_rollup, target, target_rollup, value, gas, data_bytes) =
    value ∷ data_bytes

abbrev event : OutboundCallObservation
event = record { call_hash = 1; call_gas = 0 }

passes :
    verify_outbound_authorized length encode_data
      (outbound_entry ∷ outbound_entry ∷ [])
      (event ∷ event ∷ [])
      7
    ≡ ok tt
unfolding verify_outbound_authorized collect consume_all entry_call expected_hash
    l2_outbound_call_hash cross_chain_call_hash take_one add_one
passes = refl

one_event_short :
    verify_outbound_authorized length encode_data
      (outbound_entry ∷ outbound_entry ∷ [])
      (event ∷ [])
      7
    ≡ err (no_matching_event 1 1)
unfolding verify_outbound_authorized collect consume_all entry_call expected_hash
    l2_outbound_call_hash cross_chain_call_hash take_one add_one
one_event_short = refl

verify_outbound_authorized_iff_example :
    (verify_outbound_authorized length encode_data (outbound_entry ∷ []) (event ∷ []) 7 ≡ ok tt)
    ↔ IsAuthorized length encode_data 7 (outbound_entry ∷ []) (event ∷ [])
verify_outbound_authorized_iff_example =
    verify_outbound_authorized_iff length encode_data 7 (outbound_entry ∷ []) (event ∷ [])
