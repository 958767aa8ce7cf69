-- ===== src/Tests/L1Head.antt =====
-- crates/eez-l1/src/l1_canonical_head.rs on a seeded index of two posts.
use eez_rollup.Base.{ℕ, ◌≡◌, ◌↔◌, refl, [], ◌∷◌, false, none, some, arith}
use eez_rollup.Base.Results.{ok, err}
use eez_rollup.L1Head.{
  PostId, BatchRecord, L1CanonicalHead, at_or_before, push_in_order, empty_head, seed, seeded,
  append, append_many, is_processed, retreated, retreat_on_l1_reorg, highest_l2_at_or_below_l1,
}
use eez_rollup.L1Head.Reachable.{Reachable, starts, seeds, appends, IsSound, Reachable-IsSound}
use eez_rollup.L1Head.Reorg.{Retreated, retreat-Retreated, retreat-err_iff}
use eez_rollup.L1Head.Replay.{retreat-append_many}
use eez_rollup.L1Head.Processed.{passed_by, is_processed-append_many}

abbrev post_at : ℕ → ℕ → PostId
post_at l1_block log_index = record {
  l1_block = l1_block;
  l1_block_hash = l1_block;
  log_index = log_index;
}

abbrev batch_at : ℕ → ℕ → ℕ → BatchRecord
batch_at l1_block log_index l2 = record {
  post = post_at l1_block log_index;
  tx_hash = l2;
  last_l2_block = l2;
}

abbrev two_posts : L1CanonicalHead
two_posts = append (seeded (batch_at 10 0 5)) (batch_at 12 3 9)

two_posts-Reachable : Reachable two_posts
unfolding seed
two_posts-Reachable =
    appends (seeded (batch_at 10 0 5)) (batch_at 12 3 9)
      (seeds empty_head (seeded (batch_at 10 0 5)) (batch_at 10 0 5) starts refl) (omega arith)

finalized_12 : highest_l2_at_or_below_l1 two_posts 11 ≡ some 5
unfolding highest_l2_at_or_below_l1 append push_in_order at_or_before
finalized_12 = refl

same_height_new_fork :
    at_or_before (post_at 12 3) (record (post_at 12 3) { l1_block_hash = 99 }) ≡ false
unfolding at_or_before
same_height_new_fork = refl

abbrev back_to_11 : L1CanonicalHead
back_to_11 = seeded (batch_at 10 0 5)

retreats_to_11 : retreat_on_l1_reorg two_posts 11 ≡ ok (back_to_11, (5, 5, 1))
unfolding retreat_on_l1_reorg retreated append push_in_order at_or_before
retreats_to_11 = refl

Reachable-IsSound_example : IsSound two_posts
Reachable-IsSound_example = Reachable-IsSound two_posts two_posts-Reachable

retreat-Retreated_example : Retreated two_posts back_to_11 11 (5, 5, 1)
retreat-Retreated_example =
    retreat-Retreated two_posts back_to_11 11 (5, 5, 1) two_posts-Reachable retreats_to_11

two_posts-seeded : two_posts.floor ≡ some (post_at 10 0)
unfolding append push_in_order at_or_before
two_posts-seeded = refl

retreat-err_iff_example :
    (retreat_on_l1_reorg two_posts 9 ≡ err (post_at 10 0))
    ↔ (highest_l2_at_or_below_l1 two_posts 9 ≡ none)
retreat-err_iff_example =
    retreat-err_iff two_posts 9 (post_at 10 0) two_posts-Reachable two_posts-seeded

retreat-append_many_example :
    (told : ℕ × ℕ × ℕ) × (retreat_on_l1_reorg
        (append_many back_to_11 (batch_at 12 3 9 ∷ batch_at 13 0 11 ∷ []))
        11
      ≡ ok (back_to_11, told))
unfolding seed
retreat-append_many_example =
    retreat-append_many back_to_11 (batch_at 12 3 9 ∷ batch_at 13 0 11 ∷ []) 11
      (seeds empty_head back_to_11 (batch_at 10 0 5) starts refl) (omega arith, tt)
      (omega arith, (omega arith, tt))

is_processed-append_many_example :
    is_processed (append_many empty_head (batch_at 12 3 9 ∷ batch_at 10 0 5 ∷ [])) (post_at 12 1)
    ≡ passed_by (post_at 12 1) (batch_at 12 3 9 ∷ batch_at 10 0 5 ∷ [])
is_processed-append_many_example =
    is_processed-append_many (λ n. n) (batch_at 12 3 9 ∷ batch_at 10 0 5 ∷ []) (post_at 12 1) refl
      (refl, (refl, tt))
