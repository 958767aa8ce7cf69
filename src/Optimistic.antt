-- ===== src/Optimistic.antt =====
-- crates/eez-composer/src/optimistic.rs: the ledger of the batches whose Sync block is on L2 before
-- their L1 bundle has settled. The map, which is ordered by height, is a list of pairs in ascending
-- order of height; a parent header is of a type that the ledger never looks into. The mutex is held
-- by every method for its whole body. A cursor is below the largest `u64`, so that `cursor + 1` does
-- not overflow.
pub mod Sorted
pub mod History
pub mod Verdicts
pub mod Gate
pub mod Recovery
pub mod Rollback
use eez_rollup.Base.{
  ℕ, List, [], ◌∷◌, ◌++◌, Bool, true, false, not, ltb, leb, ◌==◌, ◌&&◌, ◌||◌, if◌then◌else◌, Option,
  none, some,
}
use eez_rollup.HeldPool.{HeldTx}

pub data Resolution : Type 0 where
  pending settled failed settled_partial : Resolution

abbrev pub is_pending : Resolution → Bool
is_pending pending = true
is_pending _ = false

abbrev pub is_settled : Resolution → Bool
is_settled settled = true
is_settled _ = false

abbrev pub is_failed : Resolution → Bool
is_failed failed = true
is_failed _ = false

abbrev pub is_settled_partial : Resolution → Bool
is_settled_partial settled_partial = true
is_settled_partial _ = false

pub record InFlight (Header : Type 0) : Type 0 where
  pub txs : List HeldTx
  pub post_batch_hash : ℕ
  pub parent : Header
  pub resolution : Resolution
  pub cursor_confirmed : Bool
  pub slot_skipped : Bool

pub record FailedBatch (Header : Type 0) : Type 0 where
  pub sync_height : ℕ
  pub post_batch_hash : ℕ
  pub parent : Header
  pub txs : List HeldTx
  pub slot_skipped : Bool

abbrev pub Ledger : Type 0 → Type 0
Ledger Header = List (ℕ × InFlight Header)

module _ {Header : Type 0} where
  unfoldable pub lookup : ℕ → Ledger Header → Option (InFlight Header)
  lookup k [] = none
  lookup k ((h, e) ∷ l) = let rest = lookup k l in if k == h then some e else rest

  unfoldable pub insert : ℕ → InFlight Header → Ledger Header → Ledger Header
  insert k v [] = (k, v) ∷ []
  insert k v ((h, e) ∷ l) =
      let rest = insert k v l in
      if ltb k h then (k, v) ∷ (h, e) ∷ l else if k == h then (k, v) ∷ l else (h, e) ∷ rest

  unfoldable pub remove : ℕ → Ledger Header → Ledger Header
  remove k [] = []
  remove k ((h, e) ∷ l) = let rest = remove k l in if k == h then l else (h, e) ∷ rest

  -- `get_mut` and what is done to the entry.
  unfoldable pub update : ℕ → (InFlight Header → InFlight Header) → Ledger Header → Ledger Header
  update k f [] = []
  update k f ((h, e) ∷ l) =
      let rest = update k f l in if k == h then (h, f e) ∷ l else (h, e) ∷ rest

  -- The first pair that passes the test.
  unfoldable pub find : (ℕ → InFlight Header → Bool) → Ledger Header → Option (ℕ × InFlight Header)
  find p [] = none
  find p ((h, e) ∷ l) = let rest = find p l in if p h e then some (h, e) else rest

  unfoldable pub heights_where : (ℕ → InFlight Header → Bool) → Ledger Header → List ℕ
  heights_where p [] = []
  heights_where p ((h, e) ∷ l) = let rest = heights_where p l in if p h e then h ∷ rest else rest

  abbrev pub taken_with :
      ℕ → Option (InFlight Header) → List (ℕ × InFlight Header) → List (ℕ × InFlight Header)
  taken_with h none taken = taken
  taken_with h (some e) taken = (h, e) ∷ taken

  -- Removes the entries at the heights in turn; the ledger that is left, and the entries.
  unfoldable pub take_heights : List ℕ → Ledger Header → Ledger Header × List (ℕ × InFlight Header)
  take_heights [] l = (l, [])
  take_heights (h ∷ hs) l =
      let after = take_heights hs (remove h l) in (after.0, taken_with h (lookup h l) after.1)

  abbrev pub txs_of : List (ℕ × InFlight Header) → List HeldTx
  txs_of [] = []
  txs_of ((h, e) ∷ l) = e.txs ++ txs_of l

  unfoldable pub begin : Ledger Header → ℕ → ℕ → Header → List HeldTx → Ledger Header
  begin l sync_height post_batch_hash parent txs =
      insert sync_height
        (record {
          txs = txs;
          post_batch_hash = post_batch_hash;
          parent = parent;
          resolution = pending;
          cursor_confirmed = false;
          slot_skipped = false;
        })
        l

  unfoldable pub blocking_height : Ledger Header → ℕ → Option ℕ
  blocking_height l cursor = elim (find (λ h e. ltb cursor h) l) [ none ↦ none | some p ↦ some p.0 ]

  abbrev pub downgrade : InFlight Header → InFlight Header
  downgrade e =
      if is_pending e.resolution || is_failed e.resolution
      then record e { resolution = settled_partial }
      else e

  abbrev pub newly_confirmed : InFlight Header → Bool
  newly_confirmed e = is_settled e.resolution && not e.cursor_confirmed

  -- One round of the loop: the entry after it, and the transactions that it releases.
  unfoldable pub resolve_entry : InFlight Header → InFlight Header × List HeldTx
  resolve_entry e =
      let e' = downgrade e in
      if newly_confirmed e' then (record e' { cursor_confirmed = true }, e'.txs) else (e', [])

  unfoldable pub resolve_below_cursor : Ledger Header → ℕ → Ledger Header × List HeldTx
  resolve_below_cursor [] cursor = ([], [])
  resolve_below_cursor ((h, e) ∷ l) cursor =
      let (l', released) = resolve_below_cursor l cursor in
      let (e', own) = resolve_entry e in
      if leb h cursor then ((h, e') ∷ l', own ++ released) else ((h, e) ∷ l', released)

  abbrev pub settle_partially : ℕ → InFlight Header → InFlight Header
  settle_partially post_batch_hash e =
      if e.post_batch_hash == post_batch_hash && is_pending e.resolution
      then record e { resolution = settled_partial }
      else e

  unfoldable pub mark_settled_partial : Ledger Header → ℕ → ℕ → Ledger Header
  mark_settled_partial l sync_height post_batch_hash =
      update sync_height (settle_partially post_batch_hash) l

  unfoldable pub partial_to_dispose : Ledger Header → ℕ → Option (FailedBatch Header)
  partial_to_dispose l cursor =
      elim (find (λ h e. leb h cursor && is_settled_partial e.resolution) l) [
        | none ↦ none
        | some (h, e) ↦ some (record {
          sync_height = h;
          post_batch_hash = e.post_batch_hash;
          parent = e.parent;
          txs = e.txs;
          slot_skipped = false;
        })
      ]

  abbrev pub claimed : List HeldTx → InFlight Header → InFlight Header
  claimed spent e = record e { txs = spent; resolution = settled; cursor_confirmed = true }

  unfoldable pub claim_partial : Ledger Header → ℕ → ℕ → List HeldTx → Ledger Header × Bool
  claim_partial l sync_height post_batch_hash spent = elim (lookup sync_height l) [
    | none ↦ (l, false)
    | some e ↦
        if e.post_batch_hash == post_batch_hash
        then (update sync_height (claimed spent) l, true)
        else (l, false)
  ]

  abbrev pub settle : ℕ → InFlight Header → InFlight Header
  settle post_batch_hash e =
      if e.post_batch_hash == post_batch_hash then record e { resolution = settled } else e

  unfoldable pub mark_settled : Ledger Header → ℕ → ℕ → Ledger Header
  mark_settled l sync_height post_batch_hash = update sync_height (settle post_batch_hash) l

  abbrev pub fail : ℕ → Bool → InFlight Header → InFlight Header
  fail post_batch_hash slot_skipped e =
      if e.post_batch_hash == post_batch_hash && is_pending e.resolution
      then record e { resolution = failed; slot_skipped = slot_skipped }
      else e

  unfoldable pub mark_failed : Ledger Header → ℕ → ℕ → Bool → Ledger Header
  mark_failed l sync_height post_batch_hash slot_skipped =
      update sync_height (fail post_batch_hash slot_skipped) l

  abbrev pub failed_above : ℕ → ℕ → InFlight Header → Bool
  failed_above cursor h e = ltb cursor h && is_failed e.resolution

  abbrev pub failed_batch : ℕ → InFlight Header → FailedBatch Header
  failed_batch h e = record {
    sync_height = h;
    post_batch_hash = e.post_batch_hash;
    parent = e.parent;
    txs = e.txs;
    slot_skipped = e.slot_skipped;
  }

  unfoldable pub take_failed_for_recovery :
      Ledger Header → ℕ → Ledger Header × Option (FailedBatch Header)
  take_failed_for_recovery l cursor = elim (find (failed_above cursor) l) [
    | none ↦ (l, none)
    | some p ↦ elim (lookup p.0 l) [
      | none ↦ (l, none)
      | some e ↦ (remove p.0 l, some (failed_batch p.0 e))
    ]
  ]

  unfoldable pub reinsert_failed : Ledger Header → FailedBatch Header → Ledger Header
  reinsert_failed l batch =
      insert batch.sync_height
        (record {
          txs = batch.txs;
          post_batch_hash = batch.post_batch_hash;
          parent = batch.parent;
          resolution = failed;
          cursor_confirmed = false;
          slot_skipped = batch.slot_skipped;
        })
        l

  abbrev pub rolls_out : ℕ → ℕ → InFlight Header → Bool
  rolls_out cursor h e =
      ltb cursor h && (is_settled e.resolution || is_settled_partial e.resolution)

  unfoldable pub take_rolled_out : Ledger Header → ℕ → Ledger Header × List HeldTx
  take_rolled_out l new_l2_cursor =
      let (l', taken) = take_heights (heights_where (rolls_out new_l2_cursor) l) l in
      (l', txs_of taken)

  abbrev pub is_final : ℕ → ℕ → InFlight Header → Bool
  is_final finalized_l2 h e = leb h finalized_l2 && is_settled e.resolution

  abbrev pub audits_of : List (ℕ × InFlight Header) → List (ℕ × ℕ × List HeldTx)
  audits_of [] = []
  audits_of ((h, e) ∷ l) = (h, e.post_batch_hash, e.txs) ∷ audits_of l

  unfoldable pub take_finalized : Ledger Header → ℕ → Ledger Header × List (ℕ × ℕ × List HeldTx)
  take_finalized l finalized_l2 =
      let (l', taken) = take_heights (heights_where (is_final finalized_l2) l) l in
      (l', audits_of taken)
