-- ===== src/Settlement/Bound.antt =====
-- What a binding is of, and the indices that it reads.
use eez_rollup.Base.{
  ℕ, ◌+◌, ◌≡◌, refl, sym, subst, ap, ap₂, ◌∙◌, List, [], ◌∷◌, map, Bool, true, false, not, ◌==◌,
  Bool-cases, length, get_elem?, Option, none, some, arith, inl, inr,
}
use eez_rollup.Base.Results.{ok, err, >>=-eq-ok, ok-injective}
use eez_rollup.Settlement.{
  VerifiedEntry, VerifiedChain, ClaimedEntryShape, anchor, outbound, inbound, invalid, EffectKind,
  outbound_effect, inbound_effect, CheckpointAt, pre_execution, transaction, StateCheckpoint,
  BoundEffect, EffectPrefixError, ensure, pair_end_positions, is_outbound, same_kind, is_at,
  is_pre_execution, Claim, observed_kind, indexed, bind_effect, bind_loop, split_checkpoints,
  classify_claimed_entry, claim_of, claim_effects, is_anchor_shape, bind_effects_to_execution,
}

-- A bound effect agrees with its claim, its position and its checkpoint.
pub record IsBound (flags : List Bool) (c : Claim) (position : ℕ) (k : StateCheckpoint)
    (b : BoundEffect) : Type 0 where
  pub entry_index : b.entry_index ≡ c.0
  pub transaction_index : b.transaction_index ≡ position
  pub kind : b.kind ≡ c.1
  pub observed : get_elem? flags position ≡ some (not (is_outbound c.1))
  pub entry : b.claimed_entry ≡ c.2.claimed_entry
  pub update : b.claimed_state_update ≡ c.2.claimed_update
  pub placed : k.at ≡ transaction position
  pub sealed : b.claimed_state_update.new_root ≡ k.block_hash

abbrev pub AllBound :
    List Bool → List Claim → List ℕ → List StateCheckpoint → List BoundEffect → Type 0
AllBound flags [] positions ks [] = Unit {0}
AllBound flags (c ∷ cs) (p ∷ ps) (k ∷ ks) (b ∷ bs) =
    IsBound flags c p k b × AllBound flags cs ps ks bs
AllBound flags _ _ _ _ = ⊥

pub ensure-eq-ok :
    (b : Bool) (e : EffectPrefixError) (done : Unit {0}) → ensure b e ≡ ok done → b ≡ true
ensure-eq-ok true e done h = refl
ensure-eq-ok false e done h = cc

indexed-eq-ok : {A : Type 0} (o : Option A) (a : A) → indexed o ≡ ok a → o ≡ some a
indexed-eq-ok none a h = cc
indexed-eq-ok (some x) a h = ap some (ok-injective h)

observed_kind_is :
    (kind : EffectKind) (is_system : Bool)
    → same_kind kind (observed_kind is_system) ≡ true
    → is_system ≡ not (is_outbound kind)
observed_kind_is outbound_effect true h = cc
observed_kind_is outbound_effect false h = refl
observed_kind_is inbound_effect true h = refl
observed_kind_is inbound_effect false h = cc

is_at→eq : (a : CheckpointAt) (n : ℕ) → is_at a n ≡ true → a ≡ transaction n
is_at→eq pre_execution n h = cc
is_at→eq (transaction m) n h = let same : m ≡ n = ground arith in ap transaction same

bind_effect-IsBound :
    (flags : List Bool) (i : ℕ) (c : Claim) (p : ℕ) (k : StateCheckpoint) (b : BoundEffect)
    → bind_effect flags i c p k ≡ ok b
    → IsBound flags c p k b
unfolding bind_effect
bind_effect-IsBound flags i c p k b e =
    let (s, read, e₁) = >>=-eq-ok (indexed (get_elem? flags p)) _ e in
    let (d₁, same, e₂) = >>=-eq-ok (ensure (same_kind c.1 (observed_kind s)) _) _ e₁ in
    let (d₂, placed, e₃) = >>=-eq-ok (ensure (is_at k.at p) _) _ e₂ in
    let (d₃, sealed, e₄) =
      >>=-eq-ok (ensure (c.2.claimed_update.new_root == k.block_hash) _) _ e₃ in
    let seen = observed_kind_is c.1 s (ensure-eq-ok _ _ d₁ same) in
    subst (IsBound flags c p k) (ok-injective e₄) (record {
      entry_index = refl;
      transaction_index = refl;
      kind = refl;
      observed = indexed-eq-ok (get_elem? flags p) s read ∙ ap some seen;
      entry = refl;
      update = refl;
      placed = is_at→eq k.at p (ensure-eq-ok _ _ d₂ placed);
      sealed = ground (arith, ensure-eq-ok _ _ d₃ sealed);
    })

bind_loop-AllBound :
    (flags : List Bool) (i : ℕ) (cs : List Claim) (ps : List ℕ) (ks : List StateCheckpoint)
    (bs : List BoundEffect)
    → bind_loop flags i cs ps ks ≡ ok bs
    → AllBound flags cs ps ks bs
unfolding bind_loop
bind_loop-AllBound flags i [] ps ks bs e = subst (AllBound flags [] ps ks) (ok-injective e) tt
bind_loop-AllBound flags i (c ∷ cs) [] ks bs e = cc
bind_loop-AllBound flags i (c ∷ cs) (p ∷ ps) [] bs e = cc
bind_loop-AllBound flags i (c ∷ cs) (p ∷ ps) (k ∷ ks) bs e =
    let (b, bound, e₁) = >>=-eq-ok (bind_effect flags i c p k) _ e in
    let (rest, bound_rest, e₂) = >>=-eq-ok (bind_loop flags (i + 1) cs ps ks) _ e₁ in
    subst (AllBound flags (c ∷ cs) (p ∷ ps) (k ∷ ks)) (ok-injective e₂) (
      bind_effect-IsBound flags i c p k b bound,
      bind_loop-AllBound flags (i + 1) cs ps ks rest bound_rest,
    )

abbrev pub root_of : VerifiedEntry → ℕ
root_of v = v.claimed_update.new_root

abbrev pub hash_of : StateCheckpoint → ℕ
hash_of k = k.block_hash

abbrev pub place_of : StateCheckpoint → CheckpointAt
place_of k = k.at

pub AllBound-roots :
    (flags : List Bool) (cs : List Claim) (ps : List ℕ) (ks : List StateCheckpoint)
    (bs : List BoundEffect)
    → AllBound flags cs ps ks bs
    → length ks ≡ length cs
    → map (λ c. root_of c.2) cs ≡ map hash_of ks
AllBound-roots flags [] ps [] bs a n = refl
AllBound-roots flags [] ps (k ∷ ks) bs a n = absurd (omega (arith, n))
AllBound-roots flags (c ∷ cs) [] ks bs a n = absurd a
AllBound-roots flags (c ∷ cs) (p ∷ ps) [] bs a n = absurd a
AllBound-roots flags (c ∷ cs) (p ∷ ps) (k ∷ ks) [] a n = absurd a
AllBound-roots flags (c ∷ cs) (p ∷ ps) (k ∷ ks) (b ∷ bs) a n =
    ap₂ ◌∷◌ (ap (λ u. u.new_root) (sym a.0.update) ∙ a.0.sealed)
      (AllBound-roots flags cs ps ks bs a.1 (omega (arith, n)))

pub AllBound-places :
    (flags : List Bool) (cs : List Claim) (ps : List ℕ) (ks : List StateCheckpoint)
    (bs : List BoundEffect)
    → AllBound flags cs ps ks bs
    → length ks ≡ length cs
    → length cs ≡ length ps
    → map place_of ks ≡ map transaction ps
AllBound-places flags [] [] [] bs a n m = refl
AllBound-places flags [] (p ∷ ps) ks bs a n m = absurd (omega (arith, m))
AllBound-places flags [] [] (k ∷ ks) bs a n m = absurd (omega (arith, n))
AllBound-places flags (c ∷ cs) [] ks bs a n m = absurd a
AllBound-places flags (c ∷ cs) (p ∷ ps) [] bs a n m = absurd a
AllBound-places flags (c ∷ cs) (p ∷ ps) (k ∷ ks) [] a n m = absurd a
AllBound-places flags (c ∷ cs) (p ∷ ps) (k ∷ ks) (b ∷ bs) a n m =
    ap₂ ◌∷◌ a.0.placed (AllBound-places flags cs ps ks bs a.1 (omega (arith, n)) (omega (arith, m)))

pub split-eq-ok :
    (n : ℕ) (ks : List StateCheckpoint) (s : StateCheckpoint × List StateCheckpoint)
    → split_checkpoints n ks ≡ ok s
    → (ks ≡ s.0 ∷ s.1) × (length s.1 ≡ n)
split-eq-ok n [] s e = cc
split-eq-ok n (k ∷ ks) s e = elim (Bool-cases (length ks == n)) [
  | inl same ↦
      let is_s : (k, ks) ≡ s = ok-injective (rw (same, split_checkpoints) at e) in
      subst (λ t. ((k ∷ ks) ≡ t.0 ∷ t.1) × (length t.1 ≡ n)) is_s (refl, ground arith)
  | inr other ↦ let refused : err _ ≡ ok s = rw (other, split_checkpoints) at e in cc
]

is_pre→eq : (a : CheckpointAt) → is_pre_execution a ≡ true → a ≡ pre_execution
is_pre→eq pre_execution h = refl
is_pre→eq (transaction m) h = cc

is_anchor→eq : (s : ClaimedEntryShape) → is_anchor_shape s ≡ true → s ≡ anchor
is_anchor→eq anchor h = refl
is_anchor→eq outbound h = cc
is_anchor→eq inbound h = cc
is_anchor→eq invalid h = cc

claim_of-entry :
    (s : ClaimedEntryShape) (index : ℕ) (v : VerifiedEntry) (c : Claim)
    → claim_of s index v ≡ ok c
    → c.2 ≡ v
claim_of-entry anchor index v c e = cc
claim_of-entry invalid index v c e = cc
claim_of-entry outbound index v c e = ap (λ c. c.2) (sym (ok-injective e))
claim_of-entry inbound index v c e = ap (λ c. c.2) (sym (ok-injective e))

module _ (keccak : List ℕ → ℕ) where
  claim_effects-entries :
      (rollup index : ℕ) (vs : List VerifiedEntry) (cs : List Claim)
      → claim_effects keccak rollup index vs ≡ ok cs
      → map (λ c. c.2) cs ≡ vs
  unfolding claim_effects
  claim_effects-entries rollup index [] cs e = ap (map (λ c. c.2)) (sym (ok-injective e))
  claim_effects-entries rollup index (v ∷ vs) cs e =
      let (c, claimed, e₁) =
        >>=-eq-ok (claim_of (classify_claimed_entry keccak v rollup) index v) _ e in
      let (rest, claimed_rest, e₂) = >>=-eq-ok (claim_effects keccak rollup (index + 1) vs) _ e₁ in
      ap (map (λ c. c.2)) (sym (ok-injective e₂))
      ∙ ap₂ ◌∷◌ (claim_of-entry (classify_claimed_entry keccak v rollup) index v c claimed)
          (claim_effects-entries rollup (index + 1) vs rest claimed_rest)

  -- What a binding shows.
  pub record IsBinding (chain : VerifiedChain) (checkpoints : List StateCheckpoint)
      (flags : List Bool) (bs : List BoundEffect) : Type 0 where
    pub leads : classify_claimed_entry keccak chain.leading chain.expected_rollup ≡ anchor
    pub valueless : chain.leading.claimed_update.ether_delta ≡ 0
    pub claims : List Claim
    pub claimed : map (λ c. c.2) claims ≡ chain.trailing
    pub first : StateCheckpoint
    pub rest : List StateCheckpoint
    pub split : checkpoints ≡ first ∷ rest
    pub opens : first.at ≡ pre_execution
    pub sealed : root_of chain.leading ≡ first.block_hash
    pub bound : AllBound flags claims (pair_end_positions flags) rest bs
    pub as_many_checkpoints : length rest ≡ length claims
    pub as_many_positions : length claims ≡ length (pair_end_positions flags)

  pub bind-IsBinding :
      (chain : VerifiedChain) (checkpoints : List StateCheckpoint) (flags : List Bool)
      (bs : List BoundEffect)
      → bind_effects_to_execution keccak chain checkpoints flags ≡ ok bs
      → IsBinding chain checkpoints flags bs
  unfolding bind_effects_to_execution
  bind-IsBinding chain checkpoints flags bs e =
      let ps = pair_end_positions flags in
      let u = chain.leading.claimed_update in
      let (d₁, leads, e₁) = >>=-eq-ok (ensure (is_anchor_shape _) _) _ e in
      let (cs, claimed, e₂) =
        >>=-eq-ok (claim_effects keccak chain.expected_rollup 1 chain.trailing) _ e₁ in
      let (d₂, counted, e₃) = >>=-eq-ok (ensure (length cs == length ps) _) _ e₂ in
      let (d₃, valueless, e₄) = >>=-eq-ok (ensure (u.ether_delta == 0) _) _ e₃ in
      let (s, split, e₅) = >>=-eq-ok (split_checkpoints (length ps) checkpoints) _ e₄ in
      let (d₄, placed, e₆) = >>=-eq-ok (ensure (is_pre_execution s.0.at) _) _ e₅ in
      let (d₅, sealed, e₇) = >>=-eq-ok (ensure (u.new_root == s.0.block_hash) _) _ e₆ in
      let is_split = split-eq-ok (length ps) checkpoints s split in
      let as_many : length cs ≡ length ps = ground (arith, ensure-eq-ok _ _ d₂ counted) in
      record {
        leads = is_anchor→eq _ (ensure-eq-ok _ _ d₁ leads);
        valueless = ground (arith, ensure-eq-ok _ _ d₃ valueless);
        claims = cs;
        claimed = claim_effects-entries chain.expected_rollup 1 chain.trailing cs claimed;
        first = s.0;
        rest = s.1;
        split = is_split.0;
        opens = is_pre→eq s.0.at (ensure-eq-ok _ _ d₄ placed);
        sealed = ground (arith, ensure-eq-ok _ _ d₅ sealed);
        bound = bind_loop-AllBound flags 0 cs ps s.1 bs e₇;
        as_many_checkpoints = is_split.1 ∙ sym as_many;
        as_many_positions = as_many;
      }
