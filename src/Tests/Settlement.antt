-- ===== src/Tests/Settlement.antt =====
-- crates/eez-proof-signer/src/settlement: an anchor and one outbound entry, settled by a block whose
-- pair is a system transaction and a user transaction. The hash function of the tests is the length.
use eez_rollup.Base.{ℕ, ◌≡◌, ◌≢◌, ◌↔◌, refl, List, [], ◌∷◌, true, false, length}
use eez_rollup.Base.Results.{ok, err}
use eez_rollup.Settlement.{
  RollupUpdate, L2ToL1Call, ExecutionEntry, VerifiedChain, verified, sole_update, link_trailing,
  verify_state_update_chain, pre_execution, transaction, StateCheckpoint, BoundEffect,
  outbound_effect, pair_end_positions, pair_ends_from, be_bytes, seed_for_l1,
  classify_claimed_entry, claim_effects, bind_effect, bind_loop, bind_effects_to_execution,
  index_panic, chain_break,
}
use eez_rollup.Settlement.Continuity.{IsChain, verify_state_update_chain_iff}
use eez_rollup.Settlement.Settled.{IsSettled, bind_effects-IsSettled}
use eez_rollup.Settlement.InRange.{bind_effects-ne-index_panic}

abbrev update_from : ℕ → ℕ → RollupUpdate
update_from current new = record {
  rollup_id = 7;
  ether_delta = 0;
  current_root = current;
  new_root = new;
}

abbrev withdrawal : L2ToL1Call
withdrawal = record {
  revert_next_n_calls = 0;
  is_static = false;
  gas = 0;
  source_address = 1;
  source_rollup_id = 7;
  target_address = 2;
  value = 3;
  calldata = [];
}

abbrev anchor_entry : ExecutionEntry
anchor_entry = record {
  rollup_updates = update_from 100 200 ∷ [];
  proxy_entry_hash = 0;
  l2_to_l1_calls = [];
  expected_l1_to_l2_calls = [];
  rolling_hash = 64;
  destination_rollup_id = 7;
  success = true;
  return_data = [];
}

abbrev pub outbound_entry : ExecutionEntry
outbound_entry = record {
  rollup_updates = update_from 200 300 ∷ [];
  proxy_entry_hash = 0;
  l2_to_l1_calls = withdrawal ∷ [];
  expected_l1_to_l2_calls = [];
  rolling_hash = 0;
  destination_rollup_id = 7;
  success = true;
  return_data = [];
}

abbrev entries : List ExecutionEntry
entries = anchor_entry ∷ outbound_entry ∷ []

abbrev chain_of_two : VerifiedChain
chain_of_two = record {
  expected_rollup = 7;
  leading = verified anchor_entry (update_from 100 200);
  trailing = verified outbound_entry (update_from 200 300) ∷ [];
}

accepts_two : verify_state_update_chain entries 7 100 300 ≡ ok chain_of_two
unfolding verify_state_update_chain sole_update link_trailing
accepts_two = refl

breaks :
    verify_state_update_chain (anchor_entry ∷ anchor_entry ∷ []) 7 100 200
    ≡ err (chain_break 1 200 100)
unfolding verify_state_update_chain sole_update link_trailing
breaks = refl

pair_cases :
    pair_end_positions (true ∷ false ∷ true ∷ true ∷ false ∷ false ∷ true ∷ [])
    ≡ 1 ∷ 2 ∷ 4 ∷ 5 ∷ 6 ∷ []
unfolding pair_end_positions pair_ends_from
pair_cases = refl

abbrev checkpoints : List StateCheckpoint
checkpoints =
    record { at = pre_execution; state_root = 0; block_hash = 200 }
    ∷ record { at = transaction 1; state_root = 0; block_hash = 300 }
    ∷ []

abbrev bound_withdrawal : BoundEffect
bound_withdrawal = record {
  entry_index = 1;
  transaction_index = 1;
  kind = outbound_effect;
  claimed_entry = outbound_entry;
  claimed_state_update = update_from 200 300;
}

binds_two :
    bind_effects_to_execution length chain_of_two checkpoints (true ∷ false ∷ [])
    ≡ ok (bound_withdrawal ∷ [])
unfolding bind_effects_to_execution classify_claimed_entry claim_effects bind_effect bind_loop
    pair_end_positions pair_ends_from seed_for_l1 be_bytes
binds_two = refl

verify_state_update_chain_iff_example :
    (verify_state_update_chain entries 7 100 300 ≡ ok chain_of_two)
    ↔ IsChain entries 7 100 300 chain_of_two
verify_state_update_chain_iff_example = verify_state_update_chain_iff entries 7 100 300 chain_of_two

bind_effects-IsSettled_example : IsSettled chain_of_two 300 checkpoints (true ∷ false ∷ [])
bind_effects-IsSettled_example =
    bind_effects-IsSettled length entries 7 100 300 chain_of_two checkpoints (true ∷ false ∷ [])
      (bound_withdrawal ∷ []) accepts_two binds_two

bind_effects-ne-index_panic_example :
    bind_effects_to_execution length chain_of_two [] (true ∷ false ∷ []) ≢ err index_panic
bind_effects-ne-index_panic_example =
    bind_effects-ne-index_panic length chain_of_two [] (true ∷ false ∷ [])
