-- ===== src/Settlement/Effects.antt =====
-- crates/eez-proof-signer/src/settlement/effect_binding.rs, with the transaction pairs of
-- crates/eez-protocol/src/settlement.rs and the L1 seed of crates/eez-protocol/src/rolling_hash.rs:
-- each effect of a verified chain is bound to a transaction boundary of the settling block and to the
-- candidate block that the backend sealed there. Where the source indexes a slice the model has
-- `index_panic`.
use eez_rollup.Base.{
  ℕ, zero, suc, ◌+◌, ◌/◌, ◌%◌, ◌^◌, List, [], ◌∷◌, ◌++◌, Bool, true, false, not, ◌==◌, ◌&&◌, ◌||◌,
  if◌then◌else◌, length, get_elem?, Option, none, some,
}
use eez_rollup.Base.Results.{Result, ok, err, ◌>>=◌}
use eez_rollup.Settlement.Entries.{RollupUpdate, L2ToL1Call, ExecutionEntry}
use eez_rollup.Settlement.StateChain.{VerifiedEntry, VerifiedChain}

pub data ClaimedEntryShape : Type 0 where
  anchor outbound inbound invalid : ClaimedEntryShape

pub data EffectKind : Type 0 where
  outbound_effect inbound_effect : EffectKind

pub data CheckpointAt : Type 0 where
  pre_execution : CheckpointAt
  transaction : ℕ → CheckpointAt

pub record StateCheckpoint : Type 0 where
  pub at : CheckpointAt
  pub state_root : ℕ
  pub block_hash : ℕ

pub record BoundEffect : Type 0 where
  pub entry_index : ℕ
  pub transaction_index : ℕ
  pub kind : EffectKind
  pub claimed_entry : ExecutionEntry
  pub claimed_state_update : RollupUpdate

pub data EffectPrefixError : Type 0 where
  leading_entry_not_anchor : ClaimedEntryShape → EffectPrefixError
  later_anchor invalid_entry : ℕ → EffectPrefixError
  -- claimed, observed
  effect_count_mismatch : ℕ → ℕ → EffectPrefixError
  -- empty prefix hash, claimed anchor root
  anchor_root_mismatch : ℕ → ℕ → EffectPrefixError
  anchor_checkpoint_position_mismatch : CheckpointAt → EffectPrefixError
  -- expected, actual
  transaction_state_checkpoint_count_mismatch : ℕ → ℕ → EffectPrefixError
  -- checkpoint index, expected, actual
  transaction_state_checkpoint_index_mismatch : ℕ → ℕ → CheckpointAt → EffectPrefixError
  -- entry index, transaction index, claimed, observed
  effect_kind_mismatch : ℕ → ℕ → EffectKind → EffectKind → EffectPrefixError
  -- entry index, transaction index, recomputed, claimed
  effect_candidate_mismatch : ℕ → ℕ → ℕ → ℕ → EffectPrefixError
  non_zero_anchor_ether_delta : ℕ → EffectPrefixError
  index_panic : EffectPrefixError

abbrev pub BindResult : Type 0 → Type 0
BindResult A = Result EffectPrefixError A

abbrev pub ensure : Bool → EffectPrefixError → BindResult (Unit {0})
ensure true e = ok tt
ensure false e = err e

abbrev pub is_empty {ℓ} : {A : Type ℓ} → List A → Bool
is_empty [] = true
is_empty (x ∷ xs) = false

unfoldable pub be_bytes : ℕ → ℕ → List ℕ
be_bytes zero n = []
be_bytes (suc width) n = ((n / 256 ^ width) % 256) ∷ be_bytes width n

abbrev pub next_is_system : List Bool → Bool
next_is_system [] = true
next_is_system (b ∷ bs) = b

-- The positions from `i` on that end a pair.
unfoldable pub pair_ends_from : ℕ → List Bool → List ℕ
pair_ends_from i [] = []
pair_ends_from i (s ∷ flags) =
    let rest = pair_ends_from (i + 1) flags in
    if not s || next_is_system flags then i ∷ rest else rest

unfoldable pub pair_end_positions : List Bool → List ℕ
pair_end_positions flags = pair_ends_from 0 flags

abbrev pub is_plain_call : L2ToL1Call → Bool
is_plain_call c = c.revert_next_n_calls == 0 && not c.is_static && c.gas == 0

abbrev pub outbound_shape : List L2ToL1Call → ClaimedEntryShape
outbound_shape (c ∷ []) = if is_plain_call c then outbound else invalid
outbound_shape _ = invalid

abbrev pub is_outbound : EffectKind → Bool
is_outbound outbound_effect = true
is_outbound inbound_effect = false

abbrev pub same_kind : EffectKind → EffectKind → Bool
same_kind a b = if is_outbound a then is_outbound b else not (is_outbound b)

abbrev pub is_at : CheckpointAt → ℕ → Bool
is_at pre_execution n = false
is_at (transaction m) n = m == n

abbrev pub is_pre_execution : CheckpointAt → Bool
is_pre_execution pre_execution = true
is_pre_execution (transaction m) = false

-- A claim: its entry index, its kind, and the entry.
abbrev pub Claim : Type 0
Claim = ℕ × EffectKind × VerifiedEntry

abbrev pub observed_kind : Bool → EffectKind
observed_kind true = inbound_effect
observed_kind false = outbound_effect

abbrev pub indexed : {A : Type 0} → Option A → BindResult A
indexed none = err index_panic
indexed (some a) = ok a

-- One round of the last loop.
unfoldable pub bind_effect : List Bool → ℕ → Claim → ℕ → StateCheckpoint → BindResult BoundEffect
bind_effect flags effect_index (entry_index, kind, v) position checkpoint =
    indexed (get_elem? flags position) >>= λ is_system.
    ensure (same_kind kind (observed_kind is_system))
      (effect_kind_mismatch entry_index position kind (observed_kind is_system))
    >>= λ same.
        ensure (is_at checkpoint.at position)
          (transaction_state_checkpoint_index_mismatch effect_index position checkpoint.at)
        >>= λ placed.
            ensure (v.claimed_update.new_root == checkpoint.block_hash) (
              effect_candidate_mismatch entry_index position checkpoint.block_hash
                v.claimed_update.new_root)
            >>= λ sealed. ok (record {
              entry_index = entry_index;
              transaction_index = position;
              kind = kind;
              claimed_entry = v.claimed_entry;
              claimed_state_update = v.claimed_update;
            })

unfoldable pub bind_loop :
    List Bool → ℕ → List Claim → List ℕ → List StateCheckpoint → BindResult (List BoundEffect)
bind_loop flags i [] positions checkpoints = ok []
bind_loop flags i (c ∷ claims) [] checkpoints = err index_panic
bind_loop flags i (c ∷ claims) (p ∷ positions) [] = err index_panic
bind_loop flags i (c ∷ claims) (p ∷ positions) (k ∷ checkpoints) =
    bind_effect flags i c p k >>= λ bound.
    bind_loop flags (i + 1) claims positions checkpoints >>= λ rest. ok (bound ∷ rest)

-- The leading checkpoint and the others, when there are as many of these as positions.
abbrev pub split_checkpoints :
    ℕ → List StateCheckpoint → BindResult (StateCheckpoint × List StateCheckpoint)
split_checkpoints observed [] = err (transaction_state_checkpoint_count_mismatch (observed + 1) 0)
split_checkpoints observed (k ∷ ks) =
    if length ks == observed
    then ok (k, ks)
    else err (transaction_state_checkpoint_count_mismatch (observed + 1) (length (k ∷ ks)))

abbrev pub claim_of : ClaimedEntryShape → ℕ → VerifiedEntry → BindResult Claim
claim_of anchor index v = err (later_anchor index)
claim_of invalid index v = err (invalid_entry index)
claim_of outbound index v = ok (index, outbound_effect, v)
claim_of inbound index v = ok (index, inbound_effect, v)

abbrev pub is_anchor_shape : ClaimedEntryShape → Bool
is_anchor_shape anchor = true
is_anchor_shape _ = false

module _ (keccak : List ℕ → ℕ) where
  -- The seed of an entry with one update and no proxy entry hash.
  unfoldable pub seed_for_l1 : ℕ → ℕ → ℕ
  seed_for_l1 rollup_id current_root =
      let states_hash =
        keccak (be_bytes 32 0 ++ be_bytes 8 rollup_id ++ be_bytes 32 current_root) in
      keccak (be_bytes 32 states_hash ++ be_bytes 32 0)

  unfoldable pub classify_claimed_entry : VerifiedEntry → ℕ → ClaimedEntryShape
  classify_claimed_entry v settled_rollup =
      let e = v.claimed_entry in
      let u = v.claimed_update in
      let is_anchor =
        e.destination_rollup_id == settled_rollup
        && is_empty e.return_data
        && e.rolling_hash == seed_for_l1 u.rollup_id u.current_root in
      if not e.success || not (is_empty e.expected_l1_to_l2_calls)
      then invalid
      else if not (e.proxy_entry_hash == 0)
      then if is_empty e.l2_to_l1_calls then inbound else invalid
      else if not (is_empty e.l2_to_l1_calls)
      then outbound_shape e.l2_to_l1_calls
      else if is_anchor
      then anchor
      else invalid

  unfoldable pub claim_effects : ℕ → ℕ → List VerifiedEntry → BindResult (List Claim)
  claim_effects settled_rollup index [] = ok []
  claim_effects settled_rollup index (v ∷ vs) =
      claim_of (classify_claimed_entry v settled_rollup) index v >>= λ c.
      claim_effects settled_rollup (index + 1) vs >>= λ rest. ok (c ∷ rest)

  unfoldable pub bind_effects_to_execution :
      VerifiedChain → List StateCheckpoint → List Bool → BindResult (List BoundEffect)
  bind_effects_to_execution chain checkpoints flags =
      let shape = classify_claimed_entry chain.leading chain.expected_rollup in
      let update = chain.leading.claimed_update in
      let positions = pair_end_positions flags in
      ensure (is_anchor_shape shape) (leading_entry_not_anchor shape) >>= λ leads.
      claim_effects chain.expected_rollup 1 chain.trailing >>= λ claims.
      ensure (length claims == length positions)
        (effect_count_mismatch (length claims) (length positions))
      >>= λ counted.
          ensure (update.ether_delta == 0) (non_zero_anchor_ether_delta update.ether_delta)
          >>= λ valueless. split_checkpoints (length positions) checkpoints >>= λ split.
              ensure (is_pre_execution split.0.at) (anchor_checkpoint_position_mismatch split.0.at)
              >>= λ placed.
                  ensure (update.new_root == split.0.block_hash)
                    (anchor_root_mismatch split.0.block_hash update.new_root)
                  >>= λ sealed. bind_loop flags 0 claims positions split.1
