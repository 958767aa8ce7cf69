-- ===== src/HeadTracker.antt =====
-- crates/eez-seq-sig/src/tracker.rs, with the claims of src/head.rs and the verified heads of
-- src/envelope.rs: the latest head of each signer process. A hash and an address are numbers, and the
-- sealed block that a head may carry is of a type that the tracker never looks into.
pub mod Bounded
use eez_rollup.Base.{
  ℕ, ◌+◌, ◌-◌, ◌^◌, min, List, [], ◌∷◌, Bool, true, false, ltb, ◌==◌, ◌&&◌, ◌||◌, if◌then◌else◌,
  length, Option, none, some,
}

abbrev pub max_future_ms : ℕ
max_future_ms = 10000

abbrev pub max_sources : ℕ
max_sources = 8

abbrev pub u64_limit : ℕ
u64_limit = 2 ^ 64 - 1

pub record HeadClaim : Type 0 where
  pub rollup_id : ℕ
  pub number : ℕ
  pub block_hash : ℕ
  pub parent_hash : ℕ
  pub epoch_ms : ℕ
  pub counter : ℕ

pub record Source : Type 0 where
  pub signer : ℕ
  pub epoch_ms : ℕ

pub record VerifiedHead (Block : Type 0) : Type 0 where
  pub claim : HeadClaim
  pub signer : ℕ
  pub block : Option Block

pub data Observation : Type 0 where
  new duplicate stale future : Observation
  equivocation : ℕ → Observation

abbrev pub same_source : Source → Source → Bool
same_source a b = a.signer == b.signer && a.epoch_ms == b.epoch_ms

-- The order of `(epoch_ms, signer)`.
abbrev pub earlier : Source → Source → Bool
earlier a b = ltb a.epoch_ms b.epoch_ms || (a.epoch_ms == b.epoch_ms && ltb a.signer b.signer)

-- The hash map of the tracker.
abbrev pub Latest : Type 0 → Type 0
Latest Block = List (Source × VerifiedHead Block)

abbrev pub source_of : {Block : Type 0} → VerifiedHead Block → Source
source_of head = record { signer = head.signer; epoch_ms = head.claim.epoch_ms }

unfoldable pub lookup : {Block : Type 0} → Source → Latest Block → Option (VerifiedHead Block)
lookup s [] = none
lookup s ((k, h) ∷ m) = let rest = lookup s m in if same_source k s then some h else rest

unfoldable pub insert : {Block : Type 0} → Source → VerifiedHead Block → Latest Block → Latest Block
insert s head [] = (s, head) ∷ []
insert s head ((k, h) ∷ m) =
    let rest = insert s head m in if same_source k s then (k, head) ∷ m else (k, h) ∷ rest

unfoldable pub remove : {Block : Type 0} → Source → Latest Block → Latest Block
remove s [] = []
remove s ((k, h) ∷ m) = let rest = remove s m in if same_source k s then rest else (k, h) ∷ rest

-- `.keys().min_by_key(..)`
unfoldable pub oldest_from : {Block : Type 0} → Source → Latest Block → Source
oldest_from s [] = s
oldest_from s ((k, h) ∷ m) = oldest_from (if earlier k s then k else s) m

-- The map is not empty where the source takes its oldest key.
abbrev pub oldest_key : {Block : Type 0} → Source → Latest Block → Source
oldest_key s [] = s
oldest_key s ((k, h) ∷ m) = oldest_from k m

-- A source that is not tracked: the oldest one is evicted past the bound.
unfoldable pub track :
    {Block : Type 0} → Latest Block → VerifiedHead Block → Latest Block × Observation
track m head =
    let m' = insert (source_of head) head m in
    let oldest = oldest_key (source_of head) m' in
    if ltb max_sources (length m')
    then (remove oldest m', if same_source oldest (source_of head) then stale else new)
    else (m', new)

-- A source whose latest head is `cur`.
unfoldable pub follow :
    {Block : Type 0}
    → Latest Block
    → VerifiedHead Block
    → VerifiedHead Block
    → Latest Block × Observation
follow m head cur =
    if ltb head.claim.counter cur.claim.counter
    then (m, stale)
    else if head.claim.counter == cur.claim.counter
    then (
      m,
      if head.claim.block_hash == cur.claim.block_hash
          then duplicate
          else equivocation cur.claim.block_hash,
    )
    else (insert (source_of head) head m, new)

unfoldable pub observe :
    {Block : Type 0} → Latest Block → VerifiedHead Block → ℕ → Latest Block × Observation
observe m head now_ms =
    if ltb (min (now_ms + max_future_ms) u64_limit) head.claim.epoch_ms
    then (m, future)
    else elim (lookup (source_of head) m) [ some cur ↦ follow m head cur | none ↦ track m head ]
