-- ===== src/Settlement/InRange.antt =====
-- The indices at which the binding reads a slice.
use eez_rollup.Base.{
  ℕ, zero, suc, ◌+◌, ◌≤◌, ◌<◌, ◌≡◌, ◌≢◌, refl, List, [], ◌∷◌, Bool, true, false, not, ◌==◌, ◌||◌,
  Bool-cases, All, length, get_elem?, some, arith, inl, inr,
}
use eez_rollup.Base.Results.{err, >>=-ne-err}
use eez_rollup.Settlement.{
  VerifiedEntry, VerifiedChain, ClaimedEntryShape, anchor, outbound, inbound, invalid,
  StateCheckpoint, EffectPrefixError, ensure, pair_ends_from, pair_end_positions, next_is_system,
  Claim, indexed, bind_effect, bind_loop, split_checkpoints, classify_claimed_entry, claim_of,
  claim_effects, is_anchor_shape, bind_effects_to_execution, index_panic, leading_entry_not_anchor,
  same_kind, observed_kind, is_at, is_pre_execution,
}
use eez_rollup.Settlement.Bound.{split-eq-ok, ensure-eq-ok}

pair_ends-bounded :
    (i n : ℕ) (flags : List Bool) → i + length flags ≤ n → All (λ p. p < n) (pair_ends_from i flags)
unfolding pair_ends_from
pair_ends-bounded i n [] h = tt
pair_ends-bounded i n (s ∷ flags) h =
    let rest = pair_ends-bounded (i + 1) n flags (omega arith) in
    elim (Bool-cases (not s || next_is_system flags)) [
      | inl ends ↦ rw ends (omega arith, rest)
      | inr pairs ↦ rw pairs rest
    ]

get_elem?-some :
    (flags : List Bool) (p : ℕ) → p < length flags → (s : Bool) × (get_elem? flags p ≡ some s)
get_elem?-some [] p h = absurd (omega arith)
get_elem?-some (s ∷ flags) zero h = (s, refl)
get_elem?-some (s ∷ flags) (suc p) h = get_elem?-some flags p (omega arith)

ensure-ne : (b : Bool) (e : EffectPrefixError) → e ≢ index_panic → ensure b e ≢ err index_panic
ensure-ne true e h = λ p. cc
ensure-ne false e h = λ p. h cc

indexed-ne :
    (flags : List Bool) (p : ℕ) → p < length flags → indexed (get_elem? flags p) ≢ err index_panic
indexed-ne flags p h = let (s, e) = get_elem?-some flags p h in rw e (λ p. cc)

bind_effect-ne :
    (flags : List Bool) (i : ℕ) (c : Claim) (p : ℕ) (k : StateCheckpoint)
    → p < length flags
    → bind_effect flags i c p k ≢ err index_panic
unfolding bind_effect
bind_effect-ne flags i c p k h =
    >>=-ne-err (indexed (get_elem? flags p)) _ index_panic (indexed-ne flags p h) λ s read.
      >>=-ne-err (ensure (same_kind c.1 (observed_kind s)) _) _ index_panic
        (ensure-ne _ _ (λ e. cc))
        λ d same.
          >>=-ne-err (ensure (is_at k.at p) _) _ index_panic (ensure-ne _ _ (λ e. cc)) λ d placed.
            >>=-ne-err (ensure (c.2.claimed_update.new_root == k.block_hash) _) _ index_panic
              (ensure-ne _ _ (λ e. cc)) λ d sealed e. cc

bind_loop-ne :
    (flags : List Bool) (i : ℕ) (cs : List Claim) (ps : List ℕ) (ks : List StateCheckpoint)
    → length cs ≡ length ps
    → length ks ≡ length ps
    → All (λ p. p < length flags) ps
    → bind_loop flags i cs ps ks ≢ err index_panic
unfolding bind_loop
bind_loop-ne flags i [] ps ks n m h = λ e. cc
bind_loop-ne flags i (c ∷ cs) [] ks n m h = absurd (omega (arith, n))
bind_loop-ne flags i (c ∷ cs) (p ∷ ps) [] n m h = absurd (omega (arith, m))
bind_loop-ne flags i (c ∷ cs) (p ∷ ps) (k ∷ ks) n m h =
    >>=-ne-err (bind_effect flags i c p k) _ index_panic (bind_effect-ne flags i c p k h.0)
      λ b bound.
        >>=-ne-err (bind_loop flags (i + 1) cs ps ks) _ index_panic
          (bind_loop-ne flags (i + 1) cs ps ks (omega (arith, n)) (omega (arith, m)) h.1)
          λ rest bound_rest e. cc

claim_of-ne :
    (s : ClaimedEntryShape) (index : ℕ) (v : VerifiedEntry) → claim_of s index v ≢ err index_panic
claim_of-ne anchor index v = λ e. cc
claim_of-ne invalid index v = λ e. cc
claim_of-ne outbound index v = λ e. cc
claim_of-ne inbound index v = λ e. cc

split-ne : (n : ℕ) (ks : List StateCheckpoint) → split_checkpoints n ks ≢ err index_panic
split-ne n [] = λ e. cc
split-ne n (k ∷ ks) = elim (Bool-cases (length ks == n)) [
  | inl same ↦ rw (same, split_checkpoints) (λ e. cc)
  | inr other ↦ rw (other, split_checkpoints) (λ e. cc)
]

module _ (keccak : List ℕ → ℕ) where
  claim_effects-ne :
      (rollup index : ℕ) (vs : List VerifiedEntry)
      → claim_effects keccak rollup index vs ≢ err index_panic
  unfolding claim_effects
  claim_effects-ne rollup index [] = λ e. cc
  claim_effects-ne rollup index (v ∷ vs) =
      >>=-ne-err (claim_of (classify_claimed_entry keccak v rollup) index v) _ index_panic
        (claim_of-ne (classify_claimed_entry keccak v rollup) index v)
        λ c claimed.
          >>=-ne-err (claim_effects keccak rollup (index + 1) vs) _ index_panic
            (claim_effects-ne rollup (index + 1) vs) λ rest claimed_rest e. cc

  -- Whatever chain, checkpoints and settling block it is given, the binding of effects answers or
  -- refuses; it never indexes a slice out of range.
  pub bind_effects-ne-index_panic :
      (chain : VerifiedChain) (checkpoints : List StateCheckpoint) (flags : List Bool)
      → bind_effects_to_execution keccak chain checkpoints flags ≢ err index_panic
  unfolding bind_effects_to_execution pair_end_positions
  bind_effects-ne-index_panic chain checkpoints flags =
      let u = chain.leading.claimed_update in
      let ps = pair_end_positions flags in
      let shape = classify_claimed_entry keccak chain.leading chain.expected_rollup in
      let leading_ne =
        ensure-ne (is_anchor_shape shape) (leading_entry_not_anchor shape) (λ e. cc) in
      >>=-ne-err (ensure (is_anchor_shape shape) _) _ index_panic leading_ne λ d₁ leads.
        >>=-ne-err (claim_effects keccak chain.expected_rollup 1 chain.trailing) _ index_panic
          (claim_effects-ne chain.expected_rollup 1 chain.trailing)
          λ cs claimed.
            >>=-ne-err (ensure (length cs == length ps) _) _ index_panic (ensure-ne _ _ (λ e. cc))
              λ d₂ counted.
                >>=-ne-err (ensure (u.ether_delta == 0) _) _ index_panic (ensure-ne _ _ (λ e. cc))
                  λ d₃ valueless.
                    >>=-ne-err (split_checkpoints (length ps) checkpoints) _ index_panic
                      (split-ne (length ps) checkpoints)
                      λ s split.
                        >>=-ne-err (ensure (is_pre_execution s.0.at) _) _ index_panic
                          (ensure-ne _ _ (λ e. cc))
                          λ d₄ placed.
                            >>=-ne-err (ensure (u.new_root == s.0.block_hash) _) _ index_panic
                              (ensure-ne _ _ (λ e. cc))
                              λ d₅ sealed.
                                bind_loop-ne flags 0 cs ps s.1
                                  (ground (arith, ensure-eq-ok _ _ d₂ counted))
                                  (split-eq-ok (length ps) checkpoints s split).1
                                  (pair_ends-bounded 0 (length flags) flags (omega arith))
