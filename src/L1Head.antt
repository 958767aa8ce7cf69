-- ===== src/L1Head.antt =====
-- crates/eez-l1/src/l1_canonical_head.rs, with `PostId` of crates/eez-l1/src/scan/types.rs: the head
-- of the rollup that L1 has confirmed, and the index of the winning posts. A hash is a number. The
-- atomics and the mutexes are the fields of one record, since every method takes them in turn and
-- holds the index throughout; the panic of `seed` is `none`.

pub mod Ordered
pub mod Reachable
pub mod Reorg
pub mod Replay
pub mod Processed
use eez_rollup.Base.{
  ℕ, ◌-◌, min, max, List, [], ◌∷◌, ◌++◌, reverse, Bool, true, false, ltb, leb, ◌==◌, ◌&&◌, ◌||◌,
  if◌then◌else◌, length, Option, none, some, last, filter,
}
use eez_rollup.Base.Results.{Result, ok, err}

pub record PostId : Type 0 where
  pub l1_block : ℕ
  pub l1_block_hash : ℕ
  pub log_index : ℕ

pub record BatchRecord : Type 0 where
  pub post : PostId
  pub tx_hash : ℕ
  pub last_l2_block : ℕ

pub record L1CanonicalHead : Type 0 where
  pub cursor : ℕ
  pub finalized_l2 : ℕ
  pub batches : List BatchRecord
  pub floor : Option PostId

-- The order of the pairs `(l1_block, log_index)`.
abbrev pub position_leb : PostId → PostId → Bool
position_leb a b =
    ltb a.l1_block b.l1_block || (a.l1_block == b.l1_block && leb a.log_index b.log_index)

unfoldable pub at_or_before : PostId → PostId → Bool
at_or_before id tail =
    position_leb id tail
    && (ltb id.l1_block tail.l1_block || id.l1_block_hash == tail.l1_block_hash)

abbrev pub empty_head : L1CanonicalHead
empty_head = record { cursor = 0; finalized_l2 = 0; batches = []; floor = none }

abbrev pub seeded : BatchRecord → L1CanonicalHead
seeded r = record {
  cursor = r.last_l2_block;
  finalized_l2 = r.last_l2_block;
  batches = r ∷ [];
  floor = some r.post;
}

abbrev pub seed_empty : List BatchRecord → BatchRecord → Option L1CanonicalHead
seed_empty [] r = some (seeded r)
seed_empty (b ∷ bs) r = none

unfoldable pub seed : L1CanonicalHead → BatchRecord → Option L1CanonicalHead
seed s r = seed_empty s.batches r

abbrev pub last_l2_of : List BatchRecord → ℕ
last_l2_of batches = elim (last batches) [ none ↦ 0 | some b ↦ b.last_l2_block ]

unfoldable pub last_indexed_l2 : L1CanonicalHead → ℕ
last_indexed_l2 s = last_l2_of s.batches

unfoldable pub last_indexed : L1CanonicalHead → Option BatchRecord
last_indexed s = last s.batches

abbrev pub behind_tail : PostId → List BatchRecord → Bool
behind_tail id batches = elim (last batches) [
  | none ↦ false
  | some tail ↦ at_or_before id tail.post
]

unfoldable pub is_processed : L1CanonicalHead → PostId → Bool
is_processed s id = behind_tail id s.batches

-- The index after the call, and whether the record was pushed.
unfoldable pub push_in_order : List BatchRecord → BatchRecord → List BatchRecord × Bool
push_in_order batches r =
    if behind_tail r.post batches then (batches, false) else (batches ++ (r ∷ []), true)

abbrev pub raised_to : ℕ → ℕ → ℕ
raised_to cursor l2 = if ltb cursor l2 then l2 else cursor

unfoldable pub append : L1CanonicalHead → BatchRecord → L1CanonicalHead
append s r =
    let (batches, pushed) = push_in_order s.batches r in
    elim pushed [
      | false ↦ s
      | true ↦ record s { batches = batches; cursor = raised_to s.cursor r.last_l2_block }
    ]

unfoldable pub append_loop : List BatchRecord → ℕ → List BatchRecord → List BatchRecord × ℕ
append_loop batches max_l2 [] = (batches, max_l2)
append_loop batches max_l2 (r ∷ rs) =
    let (batches', pushed) = push_in_order batches r in
    append_loop batches' (if pushed then max max_l2 r.last_l2_block else max_l2) rs

unfoldable pub append_many : L1CanonicalHead → List BatchRecord → L1CanonicalHead
append_many s rs =
    let (batches, max_l2) = append_loop s.batches s.cursor rs in
    record s { batches = batches; cursor = max_l2 }

abbrev pub at_or_below : ℕ → BatchRecord → Bool
at_or_below bound b = leb b.post.l1_block bound

abbrev pub below_floor : Option PostId → ℕ → Option PostId
below_floor none ancestor = none
below_floor (some floor) ancestor = if ltb ancestor floor.l1_block then some floor else none

-- The head after the call, with the new cursor, the new finalized block and the number of dropped
-- records.
unfoldable pub retreated : L1CanonicalHead → ℕ → L1CanonicalHead × (ℕ × ℕ × ℕ)
retreated s ancestor =
    let batches = filter (at_or_below ancestor) s.batches in
    let new_cursor = last_l2_of batches in
    let new_finalized = min s.finalized_l2 new_cursor in
    (
      record s { batches = batches; cursor = new_cursor; finalized_l2 = new_finalized },
      (new_cursor, new_finalized, length s.batches - length batches),
    )

unfoldable pub retreat_on_l1_reorg :
    L1CanonicalHead → ℕ → Result PostId (L1CanonicalHead × (ℕ × ℕ × ℕ))
retreat_on_l1_reorg s ancestor = elim (below_floor s.floor ancestor) [
  | some floor ↦ err floor
  | none ↦ ok (retreated s ancestor)
]

abbrev pub find_l2 : ℕ → List BatchRecord → Option ℕ
find_l2 bound [] = none
find_l2 bound (b ∷ bs) =
    let rest = find_l2 bound bs in if at_or_below bound b then some b.last_l2_block else rest

unfoldable pub highest_l2_at_or_below_l1 : L1CanonicalHead → ℕ → Option ℕ
highest_l2_at_or_below_l1 s bound = find_l2 bound (reverse s.batches)

unfoldable pub set_finalized_l2 : L1CanonicalHead → ℕ → L1CanonicalHead
set_finalized_l2 s l2_block = record s { finalized_l2 = l2_block }
