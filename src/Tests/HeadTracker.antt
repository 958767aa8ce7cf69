-- ===== src/Tests/HeadTracker.antt =====
-- crates/eez-seq-sig/src/tracker.rs on one tracked source.
use eez_rollup.Base.{ℕ, ◌≤◌, ◌≡◌, refl, [], ◌∷◌, length, none, arith}
use eez_rollup.HeadTracker.{VerifiedHead, Latest, source_of, equivocation, lookup, follow, observe}
use eez_rollup.HeadTracker.Bounded.{Observed, observe_bounded, observe-Observed}

abbrev head_of : ℕ → ℕ → VerifiedHead ℕ
head_of counter hash = record {
  claim = record {
    rollup_id = 1;
    number = counter;
    block_hash = hash;
    parent_hash = 0;
    epoch_ms = 1000;
    counter = counter;
  };
  signer = 0xa1;
  block = none;
}

abbrev one_source : Latest ℕ
one_source = (source_of (head_of 4 0xaa), head_of 4 0xaa) ∷ []

equivocated : observe one_source (head_of 4 0xbb) 1000 ≡ (one_source, equivocation 0xaa)
unfolding observe lookup follow
equivocated = refl

observe_bounded_example : length (observe one_source (head_of 5 0xbb) 1000).0 ≤ 8
observe_bounded_example = observe_bounded one_source (head_of 5 0xbb) 1000 (omega arith)

observe-Observed_example :
    Observed one_source (head_of 4 0xbb) (observe one_source (head_of 4 0xbb) 1000)
observe-Observed_example = observe-Observed one_source (head_of 4 0xbb) 1000
