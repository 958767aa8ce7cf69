-- ===== src/UnsafeHead/Walk.antt =====
-- crates/eez-follower/src/unsafe_head.rs: the two walks over ancestors, `fetch_missing` and
-- `check_extends_safe`, and the linked run that a peer's headers are cut to.
use eez_rollup.Base.{
  ℕ, zero, suc, ◌+◌, ◌-◌, min, max, List, [], ◌∷◌, ◌++◌, reverse, Bool, true, false, ltb, leb, ◌==◌,
  if◌then◌else◌, length, Option, none, some,
}
use eez_rollup.Base.Results.{Result, ok, err, ◌>>=◌}
use eez_rollup.UnsafeHead.Types.{
  FollowerError, SafeCompat, extends, conflicts, unverifiable, not_served, unverifiable_depth,
  ahead, bad_ancestor, out_of_fuel, NumHash, Block, Header, Missing, View, BlockSource,
  max_ancestry_walk, fetch_batch,
}

-- The run of headers that links back from `expected`, of at most `count`.
unfoldable pub linked_run : ℕ → ℕ → List Block → List Block
linked_run zero expected headers = []
linked_run (suc count) expected [] = []
linked_run (suc count) expected (h ∷ hs) =
    let rest = linked_run count h.parent_hash hs in if h.hash == expected then h ∷ rest else []

abbrev pub first_served : ℕ → List Block → Result FollowerError (Block × List Block)
first_served hash [] = err (not_served hash)
first_served hash (b ∷ bs) = ok (b, bs)

-- The next block of the batch, or the first of a new one.
unfoldable pub next_block :
    BlockSource → ℕ → List Block → ℕ → ℕ → ℕ → Result FollowerError (Block × List Block)
next_block source best (b ∷ batch) depth number hash = ok (b, batch)
next_block source best [] depth number hash =
    source depth hash (min (max (number - best) 1) fetch_batch) >>= first_served hash

abbrev pub seal : Header → ℕ → Block
seal h hash = record { number = h.number; hash = hash; parent_hash = h.parent_hash }

-- The loop; `blocks` is newest first.
unfoldable pub fetch_loop :
    View → BlockSource → ℕ → ℕ → List Block → List Block → ℕ → ℕ → Result FollowerError Missing
fetch_loop view source best zero blocks batch number hash = err out_of_fuel
fetch_loop view source best (suc fuel) blocks batch number hash = view.header hash >>= λ known.
    elim known [
      | some h ↦ ok (record { fork_point = seal h hash; blocks = reverse blocks })
      | none ↦ elim (leb max_ancestry_walk (length blocks)) [
        | true ↦ err (unverifiable_depth (length blocks))
        | false ↦ next_block source best batch (length blocks) number hash >>= λ got.
            elim (got.0.hash == hash) [
              | false ↦ err (bad_ancestor hash got.0.hash)
              | true ↦
                  fetch_loop view source best fuel (blocks ++ (got.0 ∷ [])) got.1 (got.0.number - 1)
                    got.0.parent_hash
            ]
      ]
    ]

abbrev pub in_hand : Option Block → List Block
in_hand none = []
in_hand (some b) = b ∷ []

abbrev pub u64_max : ℕ
u64_max = 18446744073709551615

unfoldable pub fetch_missing :
    View → BlockSource → NumHash → Option Block → Result FollowerError Missing
fetch_missing view source target target_block = view.best_block_number >>= λ best.
    elim (ltb (min (best + max_ancestry_walk) u64_max) target.number) [
      | true ↦ err (ahead target.number best)
      | false ↦
          fetch_loop view source best (suc max_ancestry_walk) [] (in_hand target_block)
            target.number target.hash
    ]

-- The walk down `gap` blocks, from the hash `cursor_hash` to the safe height.
unfoldable pub safe_walk : View → ℕ → ℕ → ℕ → ℕ → Result FollowerError SafeCompat
safe_walk view safe_hash zero reads cursor_hash =
    ok (if cursor_hash == safe_hash then extends else conflicts)
safe_walk view safe_hash (suc gap) reads cursor_hash = elim (leb max_ancestry_walk reads) [
  | true ↦ ok unverifiable
  | false ↦ view.header cursor_hash >>= λ known. elim known [
    | none ↦ ok unverifiable
    | some parent ↦ safe_walk view safe_hash gap (reads + 1) parent.parent_hash
  ]
]

abbrev pub is_hash : ℕ → Option ℕ → Bool
is_hash hash none = false
is_hash hash (some h) = h == hash

abbrev pub above_safe : View → NumHash → NumHash → ℕ → Result FollowerError SafeCompat
above_safe view safe candidate parent_hash = view.sealed_hash candidate.number >>= λ canonical.
    elim (is_hash candidate.hash canonical) [
      | true ↦ ok extends
      | false ↦ safe_walk view safe.hash (candidate.number - 1 - safe.number) 0 parent_hash
    ]

abbrev pub against_safe : View → NumHash → NumHash → ℕ → Result FollowerError SafeCompat
against_safe view safe candidate parent_hash =
    if candidate.number == safe.number
    then ok (if candidate.hash == safe.hash then extends else conflicts)
    else if ltb candidate.number safe.number
    then ok conflicts
    else above_safe view safe candidate parent_hash

unfoldable pub check_extends_safe : View → NumHash → ℕ → Result FollowerError SafeCompat
check_extends_safe view candidate parent_hash = view.safe_block >>= λ found. elim found [
  | none ↦ ok extends
  | some safe ↦ against_safe view safe candidate parent_hash
]
