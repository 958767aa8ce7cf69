-- ===== src/Settlement/Settled.antt =====
-- The batches that pass both gates, and the blocks that the backend sealed.
use eez_rollup.Base.{ℕ, ◌≡◌, refl, sym, ap, ap₂, ◌∙◌, List, [], ◌∷◌, map, Bool, last, some}
use eez_rollup.Base.Results.{ok}
use eez_rollup.Settlement.{
  ExecutionEntry, VerifiedEntry, VerifiedChain, pre_execution, transaction, StateCheckpoint,
  BoundEffect, pair_end_positions, Claim, verify_state_update_chain, bind_effects_to_execution,
}
use eez_rollup.Settlement.Continuity.{Continuous, verify-IsChain}
use eez_rollup.Settlement.Bound.{
  root_of, hash_of, place_of, AllBound-roots, AllBound-places, bind-IsBinding,
}

last-Continuous :
    (from to : ℕ) (v : VerifiedEntry) (vs : List VerifiedEntry)
    → Continuous from (v ∷ vs) to
    → last (map root_of (v ∷ vs)) ≡ some to
last-Continuous from to v [] h = ap some h.1
last-Continuous from to v (w ∷ vs) h = last-Continuous (root_of v) to w vs h.1

map-map-claims : (cs : List Claim) → map root_of (map (λ c. c.2) cs) ≡ map (λ c. root_of c.2) cs
map-map-claims [] = refl
map-map-claims (c ∷ cs) = ap (◌∷◌ (root_of c.2)) (map-map-claims cs)

pub record IsSettled (c : VerifiedChain) (post : ℕ) (checkpoints : List StateCheckpoint)
    (flags : List Bool) : Type 0 where
  pub roots : map root_of (c.leading ∷ c.trailing) ≡ map hash_of checkpoints
  pub closes : last (map hash_of checkpoints) ≡ some post
  pub places : map place_of checkpoints ≡ pre_execution ∷ map transaction (pair_end_positions flags)

-- When a batch passes the continuity gate and its effects are bound, the new roots of its entries
-- are the hashes of the checkpoints' blocks in order, the last of these is the block that the
-- validated window closes with, and the checkpoints stand before the first transaction and then at
-- the end of each transaction pair of the settling block.
pub bind_effects-IsSettled :
    (keccak : List ℕ → ℕ) (entries : List ExecutionEntry) (rollup pre post : ℕ) (c : VerifiedChain)
    (checkpoints : List StateCheckpoint) (flags : List Bool) (bs : List BoundEffect)
    → verify_state_update_chain entries rollup pre post ≡ ok c
    → bind_effects_to_execution keccak c checkpoints flags ≡ ok bs
    → IsSettled c post checkpoints flags
bind_effects-IsSettled keccak entries rollup pre post c checkpoints flags bs chained bound =
    let h = verify-IsChain entries rollup pre post c chained in
    let b = bind-IsBinding keccak c checkpoints flags bs bound in
    let ps = pair_end_positions flags in
    let trailing_roots : map root_of c.trailing ≡ map hash_of b.rest =
      ap (map root_of) (sym b.claimed)
      ∙ map-map-claims b.claims
      ∙ AllBound-roots flags b.claims ps b.rest bs b.bound b.as_many_checkpoints in
    let all_roots : map root_of (c.leading ∷ c.trailing) ≡ map hash_of checkpoints =
      ap₂ ◌∷◌ b.sealed trailing_roots ∙ ap (map hash_of) (sym b.split) in
    record {
      roots = all_roots;
      closes = ap last (sym all_roots) ∙ last-Continuous pre post c.leading c.trailing h.continuous;
      places =
          ap (map place_of) b.split
          ∙ ap₂ ◌∷◌ b.opens (
              AllBound-places flags b.claims ps b.rest bs b.bound b.as_many_checkpoints
                b.as_many_positions);
    }
