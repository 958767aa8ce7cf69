-- ===== src/UnsafeHead/Served.antt =====
-- The answer of `fetch_missing` where a source serves the chain of the target.
use eez_rollup.Base.{
  ℕ, zero, suc, ◌+◌, ◌-◌, ◌≤◌, ◌<◌, ◌≡◌, refl, sym, ap, ◌∙◌, List, [], ◌∷◌, ◌++◌, reverse,
  append-nil, append_assoc, true, false, ltb, leb, ◌==◌, length, length-append, min, max, Option,
  none, some, arith,
}
use eez_rollup.Base.Results.{ok, >>=-ok}
use eez_rollup.UnsafeHead.{
  NumHash, Block, Header, View, BlockSource, max_ancestry_walk, fetch_batch, next_block, fetch_loop,
  fetch_missing, seal, in_hand, u64_max,
}

module _ (view : View) (source : BlockSource) where
  -- Newest first: the unknown blocks from the hash `from` back to the hash `fork`.
  abbrev pub Ancestry : ℕ → List Block → ℕ → Type 0
  Ancestry from [] fork = from ≡ fork
  Ancestry from (b ∷ bs) fork =
      (b.hash ≡ from) × (view.header b.hash ≡ ok none) × Ancestry b.parent_hash bs fork

  -- Asked for one block or more back from a block of the ancestry, the source answers with one
  -- block at least of the chain `bs ++ older` that goes on below the ancestry.
  abbrev pub Serves : List Block → List Block → Type 0
  Serves [] older = Unit {0}
  Serves (b ∷ bs) older =
      ((depth count : ℕ)
        → 0 < count
        → (batch : List Block) × (rest : List Block) × (source depth b.hash count ≡ ok (b ∷ batch))
          × (batch ++ rest ≡ bs ++ older))
      × Serves bs older

  next_block-Serves :
      (best depth number hash : ℕ) (batch rest : List Block) (b : Block) (bs older : List Block)
      → b.hash ≡ hash
      → batch ++ rest ≡ b ∷ (bs ++ older)
      → Serves (b ∷ bs) older
      → (batch' : List Block) × (rest' : List Block) × (next_block source best batch depth number
            hash
          ≡ ok (b, batch'))
        × (batch' ++ rest' ≡ bs ++ older)
  unfolding next_block
  next_block-Serves best depth number hash [] rest b bs older same split s =
      let (batch', rest', answer, split') =
        s.0 depth (min (max (number - best) 1) fetch_batch) (ground arith) in
      (batch', rest', rw (sym same) (rw answer refl), split')
  next_block-Serves best depth number hash (c ∷ batch) rest b bs older same split s =
      let is_b : c ≡ b = cc in
      let split' : batch ++ rest ≡ bs ++ older = cc in (batch, rest, rw is_b refl, split')

  fetch_loop-Serves :
      (best fuel : ℕ) (blocks batch rest : List Block) (number hash fork : ℕ) (h : Header)
      (bs older : List Block)
      → view.header fork ≡ ok (some h)
      → Ancestry hash bs fork
      → batch ++ rest ≡ bs ++ older
      → Serves bs older
      → length blocks + length bs ≤ max_ancestry_walk
      → length bs < fuel
      → fetch_loop view source best fuel blocks batch number hash
        ≡ ok (record { fork_point = seal h fork; blocks = reverse (blocks ++ bs) })
  unfolding fetch_loop
  fetch_loop-Serves best zero blocks batch rest number hash fork h bs older known a split s room
        fuel =
      absurd (omega arith)
  fetch_loop-Serves best (suc fuel) blocks batch rest number hash fork h [] older known a split s
        room more =
      let here : view.header hash ≡ ok (some h) = rw a known in
      rw (here, append-nil blocks)
        (ap (λ x. ok (record { fork_point = seal h x; blocks = reverse blocks })) a)
  fetch_loop-Serves best (suc fuel) blocks batch rest number hash fork h (b ∷ bs) older known a
        split s room more =
      let (batch', rest', served, split') =
        next_block-Serves best (length blocks) number hash batch rest b bs older a.0 split s in
      let within : leb max_ancestry_walk (length blocks) ≡ false = ground arith in
      let same : (b.hash == hash) ≡ true = ground arith in
      let unknown : view.header hash ≡ ok none = rw (sym a.0) a.1 in
      >>=-ok (view.header hash) _ none unknown
      ∙ rw within (
          >>=-ok (next_block source best batch (length blocks) number hash) _ (b, batch') served
          ∙ rw same (
              fetch_loop-Serves best fuel (blocks ++ (b ∷ [])) batch' rest' (b.number - 1)
                b.parent_hash fork h bs older known a.2 split' s.1
                (omega (arith, length-append blocks (b ∷ []))) (omega arith)
              ∙ ap (λ l. ok (record { fork_point = seal h fork; blocks = reverse l }))
                  (append_assoc blocks (b ∷ []) bs)))

  -- For a target that is close enough to the local head, whose unknown ancestry (the target, unless
  -- it is known, and what is before it) goes back to a locally known fork point and is within the
  -- walk: if the source, asked for one block or more back from a block of that ancestry, answers with
  -- one block at least of the target's chain, which may run past the fork point, and the block in
  -- hand, if any, is the first of that chain, then `fetch_missing` returns the fork point and exactly
  -- the unknown ancestry, oldest first.
  pub fetch_missing-returns :
      (target : NumHash) (target_block : Option Block) (bs older rest : List Block) (fork best : ℕ)
      (h : Header)
      → view.best_block_number ≡ ok best
      → target.number ≤ min (best + max_ancestry_walk) u64_max
      → view.header fork ≡ ok (some h)
      → Ancestry target.hash bs fork
      → in_hand target_block ++ rest ≡ bs ++ older
      → Serves bs older
      → length bs ≤ max_ancestry_walk
      → fetch_missing view source target target_block
        ≡ ok (record { fork_point = seal h fork; blocks = reverse bs })
  unfolding fetch_missing
  fetch_missing-returns target target_block bs older rest fork best h is_best near known a split s
        room =
      let close : ltb (min (best + max_ancestry_walk) u64_max) target.number ≡ false =
        ground arith in
      >>=-ok view.best_block_number _ best is_best
      ∙ rw close (
          fetch_loop-Serves best (suc max_ancestry_walk) [] (in_hand target_block) rest
            target.number target.hash fork h bs older known a split s (omega arith) (omega arith))
