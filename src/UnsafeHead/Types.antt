-- ===== src/UnsafeHead/Types.antt =====
-- crates/eez-follower/src/unsafe_head.rs: the errors, the verdict, and what the parameters answer.
use eez_rollup.Base.{ℕ, List, Option, String}
use eez_rollup.Base.Results.{Result}
use eez_rollup.L1Head.{L1CanonicalHead}

abbrev pub max_ancestry_walk : ℕ
max_ancestry_walk = 1024

abbrev pub max_logged_rejections : ℕ
max_logged_rejections = 256

abbrev pub fetch_batch : ℕ
fetch_batch = 64

-- `out_of_fuel` is the end of the model's fuel.
pub data FollowerError : Type 0 where
  peer provider driver : String → FollowerError
  not_served : ℕ → FollowerError
  unverifiable_depth : ℕ → FollowerError
  ahead : ℕ → ℕ → FollowerError
  bad_ancestor : ℕ → ℕ → FollowerError
  out_of_fuel : FollowerError

pub data SafeCompat : Type 0 where
  extends conflicts unverifiable : SafeCompat

pub record NumHash : Type 0 where
  pub number : ℕ
  pub hash : ℕ

-- A sealed header, or a sealed block.
pub record Block : Type 0 where
  pub number : ℕ
  pub hash : ℕ
  pub parent_hash : ℕ

-- An unsealed header.
pub record Header : Type 0 where
  pub number : ℕ
  pub parent_hash : ℕ

pub record Missing : Type 0 where
  pub fork_point : Block
  pub blocks : List Block

pub record View : Type 0 where
  -- `header`, by hash
  pub header : ℕ → Result FollowerError (Option Header)
  -- `safe_block_num_hash`
  pub safe_block : Result FollowerError (Option NumHash)
  -- the hash of `sealed_header`, by number
  pub sealed_hash : ℕ → Result FollowerError (Option ℕ)
  pub best_block_number : Result FollowerError ℕ
  pub l1_head : L1CanonicalHead

-- `BlockSource::blocks_back`, with the number of blocks fetched before the request.
abbrev pub BlockSource : Type 0
BlockSource = ℕ → ℕ → ℕ → Result FollowerError (List Block)
