-- ===== src/Settlement/Continuity.antt =====
-- The accepted batches and the continuous ones.
use eez_rollup.Base.{
  ℕ, ◌+◌, ◌≡◌, ◌↔◌, refl, sym, subst, ap, ◌∙◌, List, [], ◌∷◌, map, Bool, true, false, ◌==◌, All,
  arith,
}
use eez_rollup.Base.Results.{ok, >>=-eq-ok, >>=-ok, ok-injective}
use eez_rollup.Settlement.{
  RollupUpdate, ExecutionEntry, RollupUpdateChainError, VerifiedEntry, VerifiedChain, require,
  sole_update, verified, link_trailing, verify_state_update_chain, rollup_mismatch, chain_break,
  expected_rollup_mismatch, initial_block_mismatch, final_mismatch,
}

-- The update is the only one of its entry, and for the rollup.
abbrev pub IsSole : ℕ → VerifiedEntry → Type 0
IsSole rollup v =
    (v.claimed_entry.rollup_updates ≡ v.claimed_update ∷ []) × (v.claimed_update.rollup_id ≡ rollup)

-- Each update starts from the root that the one before it leaves.
abbrev pub Continuous : ℕ → List VerifiedEntry → ℕ → Type 0
Continuous from [] to = from ≡ to
Continuous from (v ∷ vs) to =
    (v.claimed_update.current_root ≡ from) × Continuous v.claimed_update.new_root vs to

pub record IsChain (entries : List ExecutionEntry) (rollup pre post : ℕ) (c : VerifiedChain)
    : Type 0 where
  pub same_rollup : c.expected_rollup ≡ rollup
  pub same_entries : entries ≡ map (λ v. v.claimed_entry) (c.leading ∷ c.trailing)
  pub sole : All (IsSole rollup) (c.leading ∷ c.trailing)
  pub continuous : Continuous pre (c.leading ∷ c.trailing) post

sole_update-eq-ok :
    (us : List RollupUpdate) (index : ℕ) (u : RollupUpdate)
    → sole_update us index ≡ ok u
    → us ≡ u ∷ []
unfolding sole_update
sole_update-eq-ok [] index u e = cc
sole_update-eq-ok (v ∷ []) index u e = ap (λ x. x ∷ []) (ok-injective e)
sole_update-eq-ok (v ∷ w ∷ us) index u e = cc

require-eq-ok :
    (b : Bool) (e : RollupUpdateChainError) (done : Unit {0}) → require b e ≡ ok done → b ≡ true
require-eq-ok true e done h = refl
require-eq-ok false e done h = cc

==→eq : (a b : ℕ) → (a == b) ≡ true → a ≡ b
==→eq a b h = ground arith

record Linked (rollup previous : ℕ) (es : List ExecutionEntry) (vs : List VerifiedEntry) (last : ℕ)
    : Type 0 where
  same_entries : es ≡ map (λ v. v.claimed_entry) vs
  sole : All (IsSole rollup) vs
  continuous : Continuous previous vs last

link_trailing-Linked :
    (rollup index previous : ℕ) (es : List ExecutionEntry) (vs : List VerifiedEntry) (last : ℕ)
    → link_trailing rollup index previous es ≡ ok (vs, last)
    → Linked rollup previous es vs last
unfolding link_trailing
link_trailing-Linked rollup index previous [] vs last e =
    let same : ([], previous) ≡ (vs, last) = ok-injective e in
    subst (λ r. Linked rollup previous [] r.0 r.1) same
      (record { same_entries = refl; sole = tt; continuous = refl })
link_trailing-Linked rollup index previous (x ∷ es) vs last e =
    let (u, is_sole, e₁) = >>=-eq-ok (sole_update x.rollup_updates index) _ e in
    let (d₁, same_rollup, e₂) =
      >>=-eq-ok (require (u.rollup_id == rollup) (rollup_mismatch index rollup u.rollup_id)) _ e₁ in
    let (d₂, linked, e₃) =
      >>=-eq-ok (require (u.current_root == previous) (chain_break index previous u.current_root)) _
        e₂ in
    let (rest, linked_rest, e₄) = >>=-eq-ok (link_trailing rollup (index + 1) u.new_root es) _ e₃ in
    let ih = link_trailing-Linked rollup (index + 1) u.new_root es rest.0 rest.1 linked_rest in
    let same : (verified x u ∷ rest.0, rest.1) ≡ (vs, last) = ok-injective e₄ in
    subst (λ r. Linked rollup previous (x ∷ es) r.0 r.1) same
      (record {
        same_entries = ap (◌∷◌ x) ih.same_entries;
        sole = (
          (
            sole_update-eq-ok x.rollup_updates index u is_sole,
            ==→eq u.rollup_id rollup (require-eq-ok _ _ d₁ same_rollup),
          ),
          ih.sole,
        );
        continuous = (==→eq u.current_root previous (require-eq-ok _ _ d₂ linked), ih.continuous);
      })

require-true : (b : Bool) (e : RollupUpdateChainError) → b ≡ true → require b e ≡ ok tt
require-true b e h = rw h refl

sole_update_of :
    (us : List RollupUpdate) (index : ℕ) (u : RollupUpdate)
    → us ≡ u ∷ []
    → sole_update us index ≡ ok u
unfolding sole_update
sole_update_of us index u e = rw e refl

eq→== : (a b : ℕ) → a ≡ b → (a == b) ≡ true
eq→== a b h = ground arith

link_trailing_of :
    (rollup index previous : ℕ) (vs : List VerifiedEntry) (last : ℕ)
    → All (IsSole rollup) vs
    → Continuous previous vs last
    → link_trailing rollup index previous (map (λ v. v.claimed_entry) vs) ≡ ok (vs, last)
unfolding link_trailing
link_trailing_of rollup index previous [] last sole continuous = ap (λ n. ok ([], n)) continuous
link_trailing_of rollup index previous (v ∷ vs) last sole continuous =
    let u = v.claimed_update in
    >>=-ok (sole_update v.claimed_entry.rollup_updates index) _ u
      (sole_update_of v.claimed_entry.rollup_updates index u sole.0.0)
    ∙ >>=-ok (require (u.rollup_id == rollup) (rollup_mismatch index rollup u.rollup_id)) _ tt
        (require-true _ _ (eq→== u.rollup_id rollup sole.0.1))
    ∙ >>=-ok (require (u.current_root == previous) (chain_break index previous u.current_root)) _ tt
        (require-true _ _ (eq→== u.current_root previous continuous.0))
    ∙ >>=-ok (link_trailing rollup (index + 1) u.new_root (map (λ v. v.claimed_entry) vs)) _
        (vs, last) (link_trailing_of rollup (index + 1) u.new_root vs last sole.1 continuous.1)

pub verify-IsChain :
    (entries : List ExecutionEntry) (rollup pre post : ℕ) (c : VerifiedChain)
    → verify_state_update_chain entries rollup pre post ≡ ok c
    → IsChain entries rollup pre post c
unfolding verify_state_update_chain
verify-IsChain [] rollup pre post c e = cc
verify-IsChain (x ∷ es) rollup pre post c e =
    let (u, is_sole, e₁) = >>=-eq-ok (sole_update x.rollup_updates 0) _ e in
    let (d₁, same_rollup, e₂) =
      >>=-eq-ok (require (u.rollup_id == rollup) (expected_rollup_mismatch rollup u.rollup_id)) _
        e₁ in
    let (d₂, opens, e₃) =
      >>=-eq-ok (require (u.current_root == pre) (initial_block_mismatch pre u.current_root)) _
        e₂ in
    let (rest, linked_rest, e₄) = >>=-eq-ok (link_trailing u.rollup_id 1 u.new_root es) _ e₃ in
    let (d₃, closes, e₅) = >>=-eq-ok (require (rest.1 == post) (final_mismatch post rest.1)) _ e₄ in
    let l = link_trailing-Linked u.rollup_id 1 u.new_root es rest.0 rest.1 linked_rest in
    let is_rollup : u.rollup_id ≡ rollup =
      ==→eq u.rollup_id rollup (require-eq-ok _ _ d₁ same_rollup) in
    let is_post : rest.1 ≡ post = ==→eq rest.1 post (require-eq-ok _ _ d₃ closes) in
    subst (IsChain (x ∷ es) rollup pre post) (ok-injective e₅) (record {
      same_rollup = refl;
      same_entries = ap (◌∷◌ x) l.same_entries;
      sole = (
        (sole_update-eq-ok x.rollup_updates 0 u is_sole, is_rollup),
        subst (λ r. All (IsSole r) rest.0) is_rollup l.sole,
      );
      continuous = (
        ==→eq u.current_root pre (require-eq-ok _ _ d₂ opens),
        subst (Continuous u.new_root rest.0) is_post l.continuous,
      );
    })

IsChain-verify :
    (entries : List ExecutionEntry) (rollup pre post : ℕ) (c : VerifiedChain)
    → IsChain entries rollup pre post c
    → verify_state_update_chain entries rollup pre post ≡ ok c
unfolding verify_state_update_chain
IsChain-verify entries rollup pre post c h =
    let v = c.leading in
    let u = v.claimed_update in
    let es = map (λ w. w.claimed_entry) c.trailing in
    let whole : record { expected_rollup = rollup; leading = v; trailing = c.trailing } ≡ c =
      rw (sym h.same_rollup) refl in
    rw h.same_entries (
      >>=-ok (sole_update v.claimed_entry.rollup_updates 0) _ u
        (sole_update_of v.claimed_entry.rollup_updates 0 u h.sole.0.0)
      ∙ >>=-ok (require (u.rollup_id == rollup) (expected_rollup_mismatch rollup u.rollup_id)) _ tt
          (require-true _ _ (eq→== u.rollup_id rollup h.sole.0.1))
      ∙ >>=-ok (require (u.current_root == pre) (initial_block_mismatch pre u.current_root)) _ tt
          (require-true _ _ (eq→== u.current_root pre h.continuous.0))
      ∙ >>=-ok (link_trailing u.rollup_id 1 u.new_root es) _ (c.trailing, post)
          (rw h.sole.0.1
            (link_trailing_of rollup 1 u.new_root c.trailing post h.sole.1 h.continuous.1))
      ∙ >>=-ok (require (post == post) (final_mismatch post post)) _ tt
          (require-true _ _ (eq→== post post refl))
      ∙ ap ok whole)

-- A batch is accepted, with the chain `c`, exactly when it is not empty, `c` holds its entries in
-- order with the only update of each, every update is for the expected rollup, and the updates lead
-- from the root that the validated window opens with to the one that it closes with.
pub verify_state_update_chain_iff :
    (entries : List ExecutionEntry) (rollup pre post : ℕ) (c : VerifiedChain)
    → (verify_state_update_chain entries rollup pre post ≡ ok c) ↔ IsChain entries rollup pre post c
verify_state_update_chain_iff entries rollup pre post c =
    (verify-IsChain entries rollup pre post c, IsChain-verify entries rollup pre post c)
