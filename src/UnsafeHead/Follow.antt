-- ===== src/UnsafeHead/Follow.antt =====
-- crates/eez-follower/src/unsafe_head.rs: the choice of the candidate that is adopted, and what the
-- engine is asked to import. An `Attempt` is a candidate with what the local reader and the source
-- show while it is tried: before the fetch, in it, and under the reconcile lock after it. The memory
-- of rejections decides only what is logged, and is left out.
use eez_rollup.Base.{ℕ, List, [], ◌∷◌, map, Bool, true, false, ltb, ◌==◌, Option, none, some}
use eez_rollup.Base.Results.{Result, ok, err, ◌>>=◌}
use eez_rollup.L1Head.{last_indexed_l2}
use eez_rollup.HeadTracker.{VerifiedHead}
use eez_rollup.UnsafeHead.Types.{
  FollowerError, SafeCompat, extends, conflicts, unverifiable, NumHash, Block, Missing, View,
  BlockSource,
}
use eez_rollup.UnsafeHead.Walk.{fetch_missing, check_extends_safe}

pub record Attempt : Type 0 where
  pub head : VerifiedHead Block
  pub before : View
  pub fetching : View
  pub source : BlockSource
  pub locked : View

abbrev pub number_or_zero : Option NumHash → ℕ
number_or_zero none = 0
number_or_zero (some s) = s.number

unfoldable pub held : View → Result FollowerError Bool
held view =
    view.safe_block >>= λ safe. ok (ltb (number_or_zero safe) (last_indexed_l2 view.l1_head))

abbrev pub at : VerifiedHead Block → NumHash
at head = record { number = head.claim.number; hash = head.claim.block_hash }

abbrev pub num_hash : Block → NumHash
num_hash b = record { number = b.number; hash = b.hash }

-- What the verdict under the lock leads to.
abbrev pub on_verdict :
    Result FollowerError (Option Missing)
    → Missing
    → SafeCompat
    → Result FollowerError (Option Missing)
on_verdict rest missing extends = ok (some missing)
on_verdict rest missing conflicts = rest
on_verdict rest missing unverifiable = ok none

-- Under the lock; `rest` is what the lower candidates give.
unfoldable pub adopt :
    Attempt
    → Result FollowerError (Option Missing)
    → Missing
    → Result FollowerError (Option Missing)
adopt a rest missing = held a.locked >>= λ is_held. elim is_held [
  | true ↦ ok none
  | false ↦
      check_extends_safe a.locked (num_hash missing.fork_point) missing.fork_point.parent_hash
      >>= on_verdict rest missing
]

unfoldable pub attempt :
    Attempt → Result FollowerError (Option Missing) → Result FollowerError (Option Missing)
attempt a rest = held a.before >>= λ is_held. elim is_held [
  | true ↦ ok none
  | false ↦ elim (fetch_missing a.fetching a.source (at a.head) a.head.block) [
    | err e ↦ ok none
    | ok missing ↦ adopt a rest missing
  ]
]

-- The claim alone can prove a conflict.
abbrev pub on_claim :
    Attempt
    → Result FollowerError (Option Missing)
    → SafeCompat
    → Result FollowerError (Option Missing)
on_claim a rest conflicts = rest
on_claim a rest extends = attempt a rest
on_claim a rest unverifiable = attempt a rest

unfoldable pub follow_best : List Attempt → Result FollowerError (Option Missing)
follow_best [] = ok none
follow_best (a ∷ attempts) =
    let rest = follow_best attempts in
    check_extends_safe a.before (at a.head) a.head.claim.parent_hash >>= on_claim a rest

-- What the engine is asked to do.
pub data Command : Type 0 where
  reorg_to commit_derived : Block → Command

abbrev pub import_fork : ℕ → Block → List Command × Bool
import_fork last_hash fork_point = elim (fork_point.hash == last_hash) [
  | true ↦ ([], false)
  | false ↦ (reorg_to fork_point ∷ [], true)
]

-- The commands, and whether the head moves.
unfoldable pub import : ℕ → Missing → List Command × Bool
import last_hash missing = elim missing.blocks [
  | [] ↦ import_fork last_hash missing.fork_point
  | b ∷ bs ↦ (map commit_derived (b ∷ bs), true)
]
