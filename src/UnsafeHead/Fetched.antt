-- ===== src/UnsafeHead/Fetched.antt =====
-- The answers of `fetch_missing`, whatever the source does.
use eez_rollup.Base.{
  ℕ, zero, suc, ◌+◌, ◌-◌, ◌≤◌, ◌<◌, ◌≡◌, ◌≢◌, refl, sym, subst, ap, ◌∙◌, List, [], ◌∷◌, ◌++◌,
  reverse, reverse-append, ltb, leb, ◌==◌, Bool-cases, Option-cases, All, length, length-append,
  min, Option, none, some, inl, inr, arith,
}
use eez_rollup.Base.Results.{ok, err, >>=-eq-ok, >>=-ne-err, ok-injective}
use eez_rollup.UnsafeHead.{
  unverifiable_depth, bad_ancestor, out_of_fuel, NumHash, Block, Header, Missing, View, ahead,
  BlockSource, max_ancestry_walk, next_block, fetch_loop, fetch_missing, seal, in_hand, u64_max,
  first_served,
}

-- Oldest first, every block's parent is the one before it, from the hash `from` to the hash `to`.
abbrev pub Leads : ℕ → List Block → ℕ → Type 0
Leads from [] to = from ≡ to
Leads from (b ∷ bs) to = (b.parent_hash ≡ from) × Leads b.hash bs to

module _ (view : View) (source : BlockSource) where
  abbrev pub Unknown : Block → Type 0
  Unknown b = view.header b.hash ≡ ok none

  pub record IsMissing (target : ℕ) (m : Missing) : Type 0 where
    pub header : Header
    pub fork_known : view.header m.fork_point.hash ≡ ok (some header)
    pub fork_sealed : m.fork_point ≡ seal header m.fork_point.hash
    pub linked : Leads m.fork_point.hash m.blocks target
    pub unknown : All Unknown m.blocks
    pub bounded : length m.blocks ≤ max_ancestry_walk

  reverse-snoc : (bs : List Block) (b : Block) → reverse (bs ++ (b ∷ [])) ≡ b ∷ reverse bs
  reverse-snoc bs b = reverse-append bs (b ∷ [])

  length-snoc : (bs : List Block) (b : Block) → length (bs ++ (b ∷ [])) ≡ length bs + 1
  length-snoc bs b = omega (arith, length-append bs (b ∷ []))

  -- What the loop has fetched: newest first.
  record Fetched (target hash : ℕ) (blocks : List Block) : Type 0 where
    linked : Leads hash (reverse blocks) target
    unknown : All Unknown (reverse blocks)
    size : length (reverse blocks) ≡ length blocks
    bounded : length blocks ≤ max_ancestry_walk

  Fetched-step :
      (target hash : ℕ) (blocks : List Block) (b : Block)
      → Fetched target hash blocks
      → view.header hash ≡ ok none
      → length blocks < max_ancestry_walk
      → b.hash ≡ hash
      → Fetched target b.parent_hash (blocks ++ (b ∷ []))
  Fetched-step target hash blocks b f unknown room same = record {
    linked =
        rw (reverse-snoc blocks b)
          (refl, subst (λ h. Leads h (reverse blocks) target) (sym same) f.linked);
    unknown = rw (reverse-snoc blocks b) (rw same unknown, f.unknown);
    size = rw (reverse-snoc blocks b) (omega (arith, length-snoc blocks b, f.size));
    bounded = omega (arith, length-snoc blocks b);
  }

  abbrev seal_all : Header → ℕ → List Block → Missing
  seal_all h hash blocks = record { fork_point = seal h hash; blocks = reverse blocks }

  fetch_loop-IsMissing :
      (best fuel : ℕ) (blocks batch : List Block) (number target hash : ℕ) (m : Missing)
      → Fetched target hash blocks
      → fetch_loop view source best fuel blocks batch number hash ≡ ok m
      → IsMissing target m
  unfolding fetch_loop
  fetch_loop-IsMissing best zero blocks batch number target hash m f e = cc
  fetch_loop-IsMissing best (suc fuel) blocks batch number target hash m f e =
      let (known, read, e₁) = >>=-eq-ok (view.header hash) _ e in
      elim (Option-cases known) [
        | inr (h, is_known) ↦
            let same : seal_all h hash blocks ≡ m = ok-injective (rw is_known at e₁) in
            subst (IsMissing target) same (record {
              header = h;
              fork_known = read ∙ ap ok is_known;
              fork_sealed = refl;
              linked = f.linked;
              unknown = f.unknown;
              bounded = omega (arith, f.size, f.bounded);
            })
        | inl unknown ↦ elim (Bool-cases (leb max_ancestry_walk (length blocks))) [
          | inl full ↦
              let refused : err (unverifiable_depth (length blocks)) ≡ ok m =
                rw (unknown, full) at e₁ in
              cc
          | inr room ↦
              let (got, served, e₂) =
                >>=-eq-ok (next_block source best batch (length blocks) number hash) _
                  (rw (unknown, room) at e₁) in
              elim (Bool-cases (got.0.hash == hash)) [
                | inr other ↦
                    let refused : err (bad_ancestor hash got.0.hash) ≡ ok m = rw other at e₂ in cc
                | inl same ↦
                    fetch_loop-IsMissing best fuel (blocks ++ (got.0 ∷ [])) got.1 (got.0.number - 1)
                      target got.0.parent_hash m
                      (Fetched-step target hash blocks got.0 f (read ∙ ap ok unknown) (ground arith)
                        (ground arith))
                      (rw same at e₂)
              ]
        ]
      ]

  Fetched-start : (target : ℕ) → Fetched target target []
  Fetched-start target = record { linked = refl; unknown = tt; size = refl; bounded = omega arith }

  -- What `fetch_missing` returns are blocks that are not known locally, at most as many as the walk
  -- allows, each the parent of the next, from a locally known fork point to the target.
  pub fetch_missing-IsMissing :
      (target : NumHash) (target_block : Option Block) (m : Missing)
      → fetch_missing view source target target_block ≡ ok m
      → IsMissing target.hash m
  unfolding fetch_missing
  fetch_missing-IsMissing target target_block m e =
      let (best, read, e₁) = >>=-eq-ok view.best_block_number _ e in
      let too_far = ltb (min (best + max_ancestry_walk) u64_max) target.number in
      elim (Bool-cases too_far) [
        | inl far ↦ let refused : err (ahead target.number best) ≡ ok m = rw far at e₁ in cc
        | inr near ↦
            fetch_loop-IsMissing best (suc max_ancestry_walk) [] (in_hand target_block)
              target.number target.hash target.hash m (Fetched-start target.hash) (rw near at e₁)
      ]

  module _ (reads : (hash : ℕ) → view.header hash ≢ err out_of_fuel)
      (serves : (depth hash count : ℕ) → source depth hash count ≢ err out_of_fuel) where
    first_served-ne : (hash : ℕ) (bs : List Block) → first_served hash bs ≢ err out_of_fuel
    first_served-ne hash [] = λ h. cc
    first_served-ne hash (b ∷ bs) = λ h. cc

    next_block-ne :
        (best : ℕ) (batch : List Block) (depth number hash : ℕ)
        → next_block source best batch depth number hash ≢ err out_of_fuel
    unfolding next_block
    next_block-ne best [] depth number hash =
        >>=-ne-err (source depth hash _) _ out_of_fuel (serves depth hash _)
          λ bs e. first_served-ne hash bs
    next_block-ne best (b ∷ batch) depth number hash = λ h. cc

    fetch_loop-ne :
        (best fuel : ℕ) (blocks batch : List Block) (number hash : ℕ)
        → max_ancestry_walk < fuel + length blocks
        → length blocks ≤ max_ancestry_walk
        → fetch_loop view source best fuel blocks batch number hash ≢ err out_of_fuel
    unfolding fetch_loop
    fetch_loop-ne best zero blocks batch number hash enough within = absurd (omega arith)
    fetch_loop-ne best (suc fuel) blocks batch number hash enough within =
        >>=-ne-err (view.header hash) _ out_of_fuel (reads hash) λ known read.
          elim (Option-cases known) [
            | inr (h, is_known) ↦ rw is_known (λ e. cc)
            | inl unknown ↦ elim (Bool-cases (leb max_ancestry_walk (length blocks))) [
              | inl full ↦ rw (unknown, full) (λ e. cc)
              | inr room ↦
                  rw (unknown, room)
                    (>>=-ne-err (next_block source best batch (length blocks) number hash) _
                      out_of_fuel (next_block-ne best batch (length blocks) number hash)
                      λ got served. elim (Bool-cases (got.0.hash == hash)) [
                        | inr other ↦ rw other (λ e. cc)
                        | inl same ↦ rw same (
                            fetch_loop-ne best fuel (blocks ++ (got.0 ∷ [])) got.1
                              (got.0.number - 1) got.0.parent_hash
                              (omega (arith, length-snoc blocks got.0))
                              (ground (arith, length-snoc blocks got.0)))
                      ])
            ]
          ]

    -- If neither the local reader nor the source answers with the model's own error, then neither
    -- does `fetch_missing`: its walk of at most so many blocks always ends by itself.
    pub fetch_missing-ne-out_of_fuel :
        (target : NumHash) (target_block : Option Block)
        → view.best_block_number ≢ err out_of_fuel
        → fetch_missing view source target target_block ≢ err out_of_fuel
    unfolding fetch_missing
    fetch_missing-ne-out_of_fuel target target_block reads_best =
        >>=-ne-err view.best_block_number _ out_of_fuel reads_best λ best read.
          elim (Bool-cases (ltb (min (best + max_ancestry_walk) u64_max) target.number)) [
            | inl far ↦ rw far (λ e. cc)
            | inr near ↦ rw near (
                fetch_loop-ne best (suc max_ancestry_walk) [] (in_hand target_block) target.number
                  target.hash (omega arith) (omega arith))
          ]
