-- ===== src/Tests/UnsafeHead.antt =====
-- crates/eez-follower/src/unsafe_head.rs: a follower at block 100 and a signed head at block 102.
use eez_rollup.Base.{
  ℕ, zero, suc, ◌<◌, ◌≡◌, ◌++◌, refl, List, [], ◌∷◌, true, ◌==◌, if◌then◌else◌, reverse, none, some,
  arith,
}
use eez_rollup.Base.Results.{ok}
use eez_rollup.L1Head.{empty_head, last_indexed_l2}
use eez_rollup.HeadTracker.{VerifiedHead}
use eez_rollup.UnsafeHead.{
  conflicts, NumHash, Block, Missing, View, BlockSource, Attempt, next_block, fetch_loop,
  fetch_missing, safe_walk, check_extends_safe, held, adopt, attempt, follow_best, import, seal,
  commit_derived, linked_run,
}
use eez_rollup.UnsafeHead.Served.{Serves, fetch_missing-returns}
use eez_rollup.UnsafeHead.Safe.{Verdict, check_extends_safe-Verdict}
use eez_rollup.UnsafeHead.Adopted.{FirstAdopted, follow_best-FirstAdopted}

-- The block at `n` has the hash `n` and its parent the hash `n - 1`.
abbrev block_at : ℕ → ℕ → Block
block_at n parent = record { number = n; hash = n; parent_hash = parent }

abbrev at_100 : View
at_100 = record {
  header =
      λ hash. ok (if hash == 100 then some (record { number = 100; parent_hash = 99 }) else none);
  safe_block = ok (some (record { number = 100; hash = 100 }));
  sealed_hash = λ n. ok (if n == 100 then some 100 else none);
  best_block_number = ok 100;
  l1_head = empty_head;
}

abbrev two_blocks : BlockSource
two_blocks depth hash count = ok (block_at 102 101 ∷ block_at 101 100 ∷ [])

abbrev head_102 : NumHash
head_102 = record { number = 102; hash = 102 }

abbrev missing_two : Missing
missing_two = record {
  fork_point = block_at 100 99;
  blocks = block_at 101 100 ∷ block_at 102 101 ∷ [];
}

fetches : fetch_missing at_100 two_blocks head_102 none ≡ ok missing_two
unfolding fetch_missing fetch_loop next_block
fetches = refl

cut_headers :
    linked_run 3 102 (block_at 102 101 ∷ block_at 101 100 ∷ block_at 7 6 ∷ [])
    ≡ block_at 102 101 ∷ block_at 101 100 ∷ []
unfolding linked_run
cut_headers = refl

imports :
    import 100 missing_two
    ≡ (commit_derived (block_at 101 100) ∷ commit_derived (block_at 102 101) ∷ [], true)
unfolding import
imports = refl

-- A peer whose chain goes on below the fork point: up to `count` headers, newest first, cut to the
-- run that links back.
abbrev peer_chain : ℕ → List Block
peer_chain hash =
    if hash == 102
    then block_at 102 101 ∷ block_at 101 100 ∷ block_at 100 99 ∷ []
    else block_at 101 100 ∷ block_at 100 99 ∷ []

abbrev peer : BlockSource
peer depth hash count = ok (linked_run count hash (peer_chain hash))

-- It answers with no more than it is asked for.
one_served : peer 0 102 1 ≡ ok (block_at 102 101 ∷ [])
unfolding linked_run
one_served = refl

peer-Serves : Serves at_100 peer (block_at 102 101 ∷ block_at 101 100 ∷ []) (block_at 100 99 ∷ [])
unfolding linked_run
peer-Serves = (from_102, (from_101, tt))
  where
    from_101 :
        (depth count : ℕ)
        → 0 < count
        → (batch : List Block) × (rest : List Block) × (peer depth 101 count
            ≡ ok (block_at 101 100 ∷ batch))
          × (batch ++ rest ≡ block_at 100 99 ∷ [])
    from_101 depth zero some_asked = absurd (omega (arith, some_asked))
    from_101 depth (suc zero) some_asked = ([], block_at 100 99 ∷ [], refl, refl)
    from_101 depth (suc (suc zero)) some_asked = (block_at 100 99 ∷ [], [], refl, refl)
    from_101 depth (suc (suc (suc n))) some_asked = (block_at 100 99 ∷ [], [], refl, refl)

    from_102 :
        (depth count : ℕ)
        → 0 < count
        → (batch : List Block) × (rest : List Block) × (peer depth 102 count
            ≡ ok (block_at 102 101 ∷ batch))
          × (batch ++ rest ≡ block_at 101 100 ∷ block_at 100 99 ∷ [])
    from_102 depth zero some_asked = absurd (omega (arith, some_asked))
    from_102 depth (suc zero) some_asked = ([], block_at 101 100 ∷ block_at 100 99 ∷ [], refl, refl)
    from_102 depth (suc (suc zero)) some_asked =
        (block_at 101 100 ∷ [], block_at 100 99 ∷ [], refl, refl)
    from_102 depth (suc (suc (suc zero))) some_asked =
        (block_at 101 100 ∷ block_at 100 99 ∷ [], [], refl, refl)
    from_102 depth (suc (suc (suc (suc n)))) some_asked =
        (block_at 101 100 ∷ block_at 100 99 ∷ [], [], refl, refl)

fetch_missing-returns_example :
    fetch_missing at_100 peer head_102 none
    ≡ ok (record {
      fork_point = seal (record { number = 100; parent_hash = 99 }) 100;
      blocks = reverse (block_at 102 101 ∷ block_at 101 100 ∷ []);
    })
fetch_missing-returns_example =
    fetch_missing-returns at_100 peer head_102 none (block_at 102 101 ∷ block_at 101 100 ∷ [])
      (block_at 100 99 ∷ []) (block_at 102 101 ∷ block_at 101 100 ∷ block_at 100 99 ∷ []) 100 100
      (record { number = 100; parent_hash = 99 }) refl (omega arith) refl
      (refl, refl, (refl, refl, refl)) refl peer-Serves (omega arith)

fork_below_safe : check_extends_safe at_100 (record { number = 99; hash = 98 }) 97 ≡ ok conflicts
unfolding check_extends_safe safe_walk
fork_below_safe = refl

check_extends_safe-Verdict_example : Verdict at_100 (record { number = 99; hash = 98 }) 97 conflicts
check_extends_safe-Verdict_example =
    check_extends_safe-Verdict at_100 (record { number = 99; hash = 98 }) 97 conflicts
      fork_below_safe

abbrev claims_102 : VerifiedHead Block
claims_102 = record {
  claim = record {
    rollup_id = 1;
    number = 102;
    block_hash = 102;
    parent_hash = 101;
    epoch_ms = 0;
    counter = 1;
  };
  signer = 1;
  block = some (block_at 102 101);
}

abbrev tries_102 : Attempt
tries_102 = record {
  head = claims_102;
  before = at_100;
  fetching = at_100;
  source = λ depth hash count. ok (block_at 101 100 ∷ []);
  locked = at_100;
}

adopts_102 : follow_best (tries_102 ∷ []) ≡ ok (some missing_two)
unfolding follow_best attempt adopt held check_extends_safe safe_walk fetch_missing fetch_loop
    next_block last_indexed_l2
adopts_102 = refl

follow_best-FirstAdopted_example : FirstAdopted (tries_102 ∷ []) missing_two
follow_best-FirstAdopted_example = follow_best-FirstAdopted (tries_102 ∷ []) missing_two adopts_102
