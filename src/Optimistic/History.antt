-- ===== src/Optimistic/History.antt =====
-- Histories of calls on one ledger.
use eez_rollup.Base.{
  ℕ, ◌≡◌, refl, ap, List, [], ◌∷◌, Bool, true, not, ltb, leb, ◌==◌, ◌||◌, Bool-cases, Option-cases,
  All, inl, inr, arith,
}
use eez_rollup.HeldPool.{HeldTx}
use eez_rollup.Optimistic.{
  InFlight, Ledger, FailedBatch, is_settled, lookup, insert, remove, update, find, begin,
  resolve_entry, resolve_below_cursor, mark_settled_partial, settle_partially, claim_partial,
  claimed, mark_settled, settle, mark_failed, fail, take_failed_for_recovery, failed_above,
  reinsert_failed, take_rolled_out, rolls_out, take_finalized, is_final, take_heights,
  heights_where,
}
use eez_rollup.Optimistic.Sorted.{
  IsSorted, heights, insert-IsSorted, remove-IsSorted, heights-update, without, without-IsSorted,
  take_heights_lem,
}

pub data Call (Header : Type 0) : Type 0 where
  begins : ℕ → ℕ → Header → List HeldTx → Call Header
  resolves : ℕ → Call Header
  settles_partially : ℕ → ℕ → Call Header
  claims : ℕ → ℕ → List HeldTx → Call Header
  settles : ℕ → ℕ → Call Header
  fails : ℕ → ℕ → Bool → Call Header
  takes_failed : ℕ → Call Header
  reinserts : FailedBatch Header → Call Header
  takes_rolled_out : ℕ → Call Header
  takes_finalized : ℕ → Call Header

module _ {Header : Type 0} where
  unfoldable pub step : Ledger Header → Call Header → Ledger Header
  step l (begins h hash parent txs) = begin l h hash parent txs
  step l (resolves cursor) = (resolve_below_cursor l cursor).0
  step l (settles_partially h hash) = mark_settled_partial l h hash
  step l (claims h hash spent) = (claim_partial l h hash spent).0
  step l (settles h hash) = mark_settled l h hash
  step l (fails h hash skipped) = mark_failed l h hash skipped
  step l (takes_failed cursor) = (take_failed_for_recovery l cursor).0
  step l (reinserts batch) = reinsert_failed l batch
  step l (takes_rolled_out cursor) = (take_rolled_out l cursor).0
  step l (takes_finalized n) = (take_finalized l n).0

  unfoldable pub run : Ledger Header → List (Call Header) → Ledger Header
  run l [] = l
  run l (c ∷ cs) = run (step l c) cs

  -- An entry that the cursor has confirmed is settled.
  abbrev pub Coherent : InFlight Header → Type 0
  Coherent e = (not e.cursor_confirmed || is_settled e.resolution) ≡ true

  abbrev pub AllCoherent : Ledger Header → Type 0
  AllCoherent l = All (λ p. Coherent p.1) l

  insert-AllCoherent :
      (k : ℕ) (v : InFlight Header) (l : Ledger Header)
      → Coherent v
      → AllCoherent l
      → AllCoherent (insert k v l)
  unfolding insert
  insert-AllCoherent k v [] hv h = (hv, tt)
  insert-AllCoherent k v ((x, e) ∷ l) hv h = elim (Bool-cases (ltb k x)) [
    | inl first ↦ rw first (hv, h)
    | inr later ↦ elim (Bool-cases (k == x)) [
      | inl same ↦ rw (later, same) (hv, h.1)
      | inr other ↦ rw (later, other) (h.0, insert-AllCoherent k v l hv h.1)
    ]
  ]

  remove-AllCoherent : (k : ℕ) (l : Ledger Header) → AllCoherent l → AllCoherent (remove k l)
  unfolding remove
  remove-AllCoherent k [] h = tt
  remove-AllCoherent k ((x, e) ∷ l) h = elim (Bool-cases (k == x)) [
    | inl same ↦ rw same h.1
    | inr other ↦ rw other (h.0, remove-AllCoherent k l h.1)
  ]

  update-AllCoherent :
      (k : ℕ) (f : InFlight Header → InFlight Header) (l : Ledger Header)
      → ((e : InFlight Header) → Coherent e → Coherent (f e))
      → AllCoherent l
      → AllCoherent (update k f l)
  unfolding update
  update-AllCoherent k f [] hf h = tt
  update-AllCoherent k f ((x, e) ∷ l) hf h = elim (Bool-cases (k == x)) [
    | inl same ↦ rw same (hf e h.0, h.1)
    | inr other ↦ rw other (h.0, update-AllCoherent k f l hf h.1)
  ]

  without-AllCoherent :
      (p : ℕ → InFlight Header → Bool) (l : Ledger Header)
      → AllCoherent l
      → AllCoherent (without p l)
  without-AllCoherent p [] h = tt
  without-AllCoherent p ((x, e) ∷ l) h = elim (Bool-cases (p x e)) [
    | inl passes ↦ rw (passes, without) (without-AllCoherent p l h.1)
    | inr stays ↦ rw (stays, without) (h.0, without-AllCoherent p l h.1)
  ]

  settle_partially-Coherent :
      (hash : ℕ) (e : InFlight Header) → Coherent e → Coherent (settle_partially hash e)
  settle_partially-Coherent hash e h = ground arith

  settle-Coherent : (hash : ℕ) (e : InFlight Header) → Coherent e → Coherent (settle hash e)
  settle-Coherent hash e h = ground arith

  fail-Coherent :
      (hash : ℕ) (skipped : Bool) (e : InFlight Header)
      → Coherent e
      → Coherent (fail hash skipped e)
  fail-Coherent hash skipped e h = ground arith

  resolve_entry-Coherent : (e : InFlight Header) → Coherent e → Coherent (resolve_entry e).0
  unfolding resolve_entry
  resolve_entry-Coherent e h = ground arith

  -- The heights ascend, and every confirmed entry is settled.
  pub record IsSound (l : Ledger Header) : Type 0 where
    pub sorted : IsSorted l
    pub coherent : AllCoherent l

  pub heights-resolve :
      (l : Ledger Header) (cursor : ℕ) → heights (resolve_below_cursor l cursor).0 ≡ heights l
  unfolding resolve_below_cursor
  heights-resolve [] cursor = refl
  heights-resolve ((h, e) ∷ l) cursor = elim (Bool-cases (leb h cursor)) [
    | inl covered ↦ rw covered (ap (◌∷◌ h) (heights-resolve l cursor))
    | inr later ↦ rw later (ap (◌∷◌ h) (heights-resolve l cursor))
  ]

  resolve-AllCoherent :
      (l : Ledger Header) (cursor : ℕ)
      → AllCoherent l
      → AllCoherent (resolve_below_cursor l cursor).0
  unfolding resolve_below_cursor
  resolve-AllCoherent [] cursor h = tt
  resolve-AllCoherent ((x, e) ∷ l) cursor h = elim (Bool-cases (leb x cursor)) [
    | inl covered ↦ rw covered (resolve_entry-Coherent e h.0, resolve-AllCoherent l cursor h.1)
    | inr later ↦ rw later (h.0, resolve-AllCoherent l cursor h.1)
  ]

  update-IsSound :
      (k : ℕ) (f : InFlight Header → InFlight Header) (l : Ledger Header)
      → ((e : InFlight Header) → Coherent e → Coherent (f e))
      → IsSound l
      → IsSound (update k f l)
  update-IsSound k f l hf v = record {
    sorted = rw (heights-update k f l) v.sorted;
    coherent = update-AllCoherent k f l hf v.coherent;
  }

  insert-IsSound :
      (k : ℕ) (v : InFlight Header) (l : Ledger Header)
      → Coherent v
      → IsSound l
      → IsSound (insert k v l)
  insert-IsSound k e l he v = record {
    sorted = insert-IsSorted k e l v.sorted;
    coherent = insert-AllCoherent k e l he v.coherent;
  }

  without-IsSound :
      (p : ℕ → InFlight Header → Bool) (l : Ledger Header)
      → IsSound l
      → IsSound (take_heights (heights_where p l) l).0
  without-IsSound p l v = rw (take_heights_lem p l v.sorted) (record {
    sorted = without-IsSorted p l v.sorted;
    coherent = without-AllCoherent p l v.coherent;
  })

  claim_partial-IsSound :
      (l : Ledger Header) (h hash : ℕ) (spent : List HeldTx)
      → IsSound l
      → IsSound (claim_partial l h hash spent).0
  unfolding claim_partial
  claim_partial-IsSound l h hash spent v = elim (Option-cases (lookup h l)) [
    | inl gone ↦ rw (gone, claim_partial) v
    | inr (e, there) ↦ elim (Bool-cases (e.post_batch_hash == hash)) [
      | inl same ↦
          rw (there, same, claim_partial) (update-IsSound h (claimed spent) l (λ e' he. refl) v)
      | inr stale ↦ rw (there, stale, claim_partial) v
    ]
  ]

  take_failed-IsSound :
      (l : Ledger Header) (cursor : ℕ) → IsSound l → IsSound (take_failed_for_recovery l cursor).0
  unfolding take_failed_for_recovery
  take_failed-IsSound l cursor v = elim (Option-cases (find (failed_above cursor) l)) [
    | inl nothing ↦ rw (nothing, take_failed_for_recovery) v
    | inr (p, found) ↦ elim (Option-cases (lookup p.0 l)) [
      | inl gone ↦ rw (found, gone, take_failed_for_recovery) v
      | inr (e, there) ↦
          rw (found, there, take_failed_for_recovery)
            (record {
              sorted = remove-IsSorted p.0 l v.sorted;
              coherent = remove-AllCoherent p.0 l v.coherent;
            })
    ]
  ]

  step-IsSound : (l : Ledger Header) (c : Call Header) → IsSound l → IsSound (step l c)
  unfolding step begin reinsert_failed mark_settled_partial mark_settled mark_failed take_rolled_out
      take_finalized
  step-IsSound l (begins h hash parent txs) v = insert-IsSound h _ l refl v
  step-IsSound l (resolves cursor) v = record {
    sorted = rw (heights-resolve l cursor) v.sorted;
    coherent = resolve-AllCoherent l cursor v.coherent;
  }
  step-IsSound l (settles_partially h hash) v =
      update-IsSound h (settle_partially hash) l (settle_partially-Coherent hash) v
  step-IsSound l (claims h hash spent) v = claim_partial-IsSound l h hash spent v
  step-IsSound l (settles h hash) v = update-IsSound h (settle hash) l (settle-Coherent hash) v
  step-IsSound l (fails h hash skipped) v =
      update-IsSound h (fail hash skipped) l (fail-Coherent hash skipped) v
  step-IsSound l (takes_failed cursor) v = take_failed-IsSound l cursor v
  step-IsSound l (reinserts batch) v = insert-IsSound batch.sync_height _ l refl v
  step-IsSound l (takes_rolled_out cursor) v = without-IsSound (rolls_out cursor) l v
  step-IsSound l (takes_finalized n) v = without-IsSound (is_final n) l v

  run_keeps : (l : Ledger Header) (cs : List (Call Header)) → IsSound l → IsSound (run l cs)
  unfolding run
  run_keeps l [] v = v
  run_keeps l (c ∷ cs) v = run_keeps (step l c) cs (step-IsSound l c v)

  -- After any history of calls on an empty ledger, no height stands twice, the heights ascend, and
  -- every entry that the cursor has confirmed is settled.
  pub run-IsSound : (cs : List (Call Header)) → IsSound (run [] cs)
  run-IsSound cs = run_keeps [] cs (record { sorted = tt; coherent = tt })
