-- ===== src/OutboundGate.antt =====
-- crates/eez-protocol/src/outbound_gate.rs, with the call hash of crates/eez-protocol/src/action.rs:
-- an outbound entry needs an event of its own on L2. `keccak` and the ABI encoding of the call are
-- parameters. The hash map is an association list, and an error keeps what its text tells.
pub mod Counts
pub mod Shape
pub mod Authorized
use eez_rollup.Base.{
  ℕ, ◌+◌, ◌-◌, List, [], ◌∷◌, Bool, true, false, not, ltb, ◌==◌, ◌&&◌, ◌||◌, if◌then◌else◌, Option,
  none, some,
}
use eez_rollup.Base.Results.{Result, ok, err, ◌>>=◌}
use eez_rollup.Settlement.{L2ToL1Call, ExpectedL1ToL2Call, ExecutionEntry}

abbrev pub mainnet_rollup_id : ℕ
mainnet_rollup_id = 0

abbrev pub supported_call_gas : ℕ
supported_call_gas = 0

pub data CallMode : Type 0 where
  mutable static : CallMode

abbrev pub from_is_static : Bool → CallMode
from_is_static true = static
from_is_static false = mutable

abbrev pub is_static_mode : CallMode → Bool
is_static_mode static = true
is_static_mode mutable = false

pub record CallHashInput : Type 0 where
  pub call_mode : CallMode
  pub source_address : ℕ
  pub source_rollup_id : ℕ
  pub target_address : ℕ
  pub target_rollup_id : ℕ
  pub value : ℕ
  pub calldata : List ℕ

pub record OutboundCallObservation : Type 0 where
  pub call_hash : ℕ
  pub call_gas : ℕ

-- The index of the entry comes first.
pub data GateError : Type 0 where
  event_call_gas : ℕ → GateError
  not_outbound not_one_call unsupported_shape unsupported_semantics : ℕ → GateError
  foreign_source : ℕ → ℕ → GateError
  no_matching_event : ℕ → ℕ → GateError

-- The parameters of the encoding, in their order.
abbrev pub EncodedCall : Type 0
EncodedCall = Bool × ℕ × ℕ × ℕ × ℕ × ℕ × ℕ × List ℕ

abbrev pub Counts : Type 0
Counts = List (ℕ × ℕ)

-- `*available.entry(hash).or_insert(0) += 1`
unfoldable pub add_one : ℕ → Counts → Counts
add_one h [] = (h, 1) ∷ []
add_one h ((k, n) ∷ m) = let rest = add_one h m in if k == h then (k, n + 1) ∷ m else (k, n) ∷ rest

abbrev pub kept_before : ℕ × ℕ → Option Counts → Option Counts
kept_before p none = none
kept_before p (some m) = some (p ∷ m)

-- `Some(n) if *n > 0 => *n -= 1`
unfoldable pub take_one : ℕ → Counts → Option Counts
take_one h [] = none
take_one h ((k, n) ∷ m) =
    let rest = take_one h m in
    let own = if ltb 0 n then some ((k, n - 1) ∷ m) else none in
    if k == h then own else kept_before (k, n) rest

unfoldable pub collect : Counts → List OutboundCallObservation → Result GateError Counts
collect available [] = ok available
collect available (o ∷ observed) =
    let rest = collect (add_one o.call_hash available) observed in
    if o.call_gas == supported_call_gas then rest else err (event_call_gas o.call_gas)

abbrev pub must : Bool → GateError → Result GateError (Unit {0})
must true e = ok tt
must false e = err e

abbrev pub sole_call : ℕ → List L2ToL1Call → Result GateError L2ToL1Call
sole_call i (c ∷ []) = ok c
sole_call i _ = err (not_one_call i)

abbrev pub no_expected_calls : List ExpectedL1ToL2Call → Bool
no_expected_calls [] = true
no_expected_calls (c ∷ cs) = false

-- The call of an entry with the supported shape.
unfoldable pub entry_call : ℕ → ℕ → ExecutionEntry → Result GateError L2ToL1Call
entry_call l2_rollup_id i e = must (e.proxy_entry_hash == 0) (not_outbound i) >>= λ outbound.
    sole_call i e.l2_to_l1_calls >>= λ call.
    must (e.success && no_expected_calls e.expected_l1_to_l2_calls) (unsupported_shape i)
    >>= λ shaped.
        must (not call.is_static && (call.revert_next_n_calls == 0 && call.gas == 0))
          (unsupported_semantics i)
        >>= λ plain.
            must (call.source_rollup_id == l2_rollup_id) (foreign_source i call.source_rollup_id)
            >>= λ own. ok call

abbrev pub consumed : ℕ → ℕ → Option Counts → Result GateError Counts
consumed i hash none = err (no_matching_event i hash)
consumed i hash (some m) = ok m

module _ (keccak : List ℕ → ℕ) (abi_encode_params : EncodedCall → List ℕ) where
  unfoldable pub cross_chain_call_hash : CallHashInput → ℕ → ℕ
  cross_chain_call_hash input call_gas = keccak (
      abi_encode_params (
        is_static_mode input.call_mode,
        input.source_address,
        input.source_rollup_id,
        input.target_address,
        input.target_rollup_id,
        input.value,
        call_gas,
        input.calldata,
      ))

  unfoldable pub l2_outbound_call_hash : CallHashInput → ℕ → ℕ
  l2_outbound_call_hash input call_gas = cross_chain_call_hash input call_gas

  unfoldable pub expected_hash : ℕ → L2ToL1Call → ℕ
  expected_hash l2_rollup_id call =
      l2_outbound_call_hash
        (record {
          call_mode = from_is_static call.is_static;
          source_address = call.source_address;
          source_rollup_id = l2_rollup_id;
          target_address = call.target_address;
          target_rollup_id = mainnet_rollup_id;
          value = call.value;
          calldata = call.calldata;
        })
        supported_call_gas

  unfoldable pub consume_all : ℕ → ℕ → List ExecutionEntry → Counts → Result GateError (Unit {0})
  consume_all l2_rollup_id i [] available = ok tt
  consume_all l2_rollup_id i (e ∷ entries) available = entry_call l2_rollup_id i e >>= λ call.
      consumed i (expected_hash l2_rollup_id call)
        (take_one (expected_hash l2_rollup_id call) available)
      >>= λ left. consume_all l2_rollup_id (i + 1) entries left

  unfoldable pub verify_outbound_authorized :
      List ExecutionEntry → List OutboundCallObservation → ℕ → Result GateError (Unit {0})
  verify_outbound_authorized outbound_entries observed_calls l2_rollup_id =
      collect [] observed_calls >>= λ available.
      consume_all l2_rollup_id 0 outbound_entries available
