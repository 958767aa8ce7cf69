-- ===== src/Optimistic/Recovery.antt =====
-- What leaves the ledger: for recovery, on a rollback, and at finality.
use eez_rollup.Base.{
  ℕ, ◌<◌, ◌≡◌, refl, sym, subst, ap, ◌∙◌, [], ◌∷◌, Bool, true, false, ◌==◌, Bool-cases,
  Option-cases, none, some, inl, inr, arith,
}
use mathlib.Core.Option.{some-injective}
use eez_rollup.Optimistic.{
  InFlight, FailedBatch, Ledger, failed, is_failed, lookup, insert, remove, find, failed_above,
  failed_batch, take_failed_for_recovery, reinsert_failed, rolls_out, take_rolled_out, is_final,
  take_finalized, txs_of, audits_of,
}
use eez_rollup.Optimistic.Sorted.{IsSorted, AllBelow, heights, without, those, take_heights_lem}
use eez_rollup.Optimistic.History.{Coherent, AllCoherent, IsSound}

module _ {Header : Type 0} where
  insert_below :
      (k : ℕ) (v : InFlight Header) (l : Ledger Header)
      → AllBelow k (heights l)
      → insert k v l ≡ (k, v) ∷ l
  unfolding insert
  insert_below k v [] below = refl
  insert_below k v ((x, e) ∷ l) below = let le : k < x = below.0 in ground arith

  lookup_above :
      (h k : ℕ) (e : InFlight Header) (l : Ledger Header)
      → AllBelow h (heights l)
      → lookup k l ≡ some e
      → h < k
  unfolding lookup
  lookup_above h k e [] below found = cc
  lookup_above h k e ((x, v) ∷ l) below found = elim (Bool-cases (k == x)) [
    | inl here ↦ let le : h < x = below.0 in ground arith
    | inr further ↦
        let found' : lookup k l ≡ some e = ground arith in lookup_above h k e l below.1 found'
  ]

  insert_past :
      (k x : ℕ) (v e : InFlight Header) (l : Ledger Header)
      → x < k
      → insert k v ((x, e) ∷ l) ≡ (x, e) ∷ insert k v l
  unfolding insert
  insert_past k x v e l le = ground arith

  insert-remove :
      (k : ℕ) (e : InFlight Header) (l : Ledger Header)
      → IsSorted l
      → lookup k l ≡ some e
      → insert k e (remove k l) ≡ l
  unfolding lookup remove
  insert-remove k e [] sorted found = cc
  insert-remove k e ((x, v) ∷ l) sorted found = elim (Bool-cases (k == x)) [
    | inl here ↦
        let same : k ≡ x = ground arith in
        let is_e : v ≡ e = ground arith in rw (here, same, insert_below x e l sorted.0, is_e) refl
    | inr further ↦
        let found' : lookup k l ≡ some e = ground arith in
        rw further (
          insert_past k x e v (remove k l) (lookup_above x k e l sorted.0 found')
          ∙ ap (◌∷◌ (x, v)) (insert-remove k e l sorted.1 found'))
  ]

  find-passes :
      (p : ℕ → InFlight Header → Bool) (l : Ledger Header) (h : ℕ) (e : InFlight Header)
      → IsSorted l
      → find p l ≡ some (h, e)
      → (lookup h l ≡ some e) × (p h e ≡ true)
  unfolding find lookup
  find-passes p [] h e sorted found = cc
  find-passes p ((x, v) ∷ l) h e sorted found = elim (Bool-cases (p x v)) [
    | inl passes ↦
        let same : some (x, v) ≡ some (h, e) = rw (passes, find) at found in
        let is_h : x ≡ h = cc in
        let is_e : v ≡ e = cc in (rw (is_h, is_e) (ground arith), rw (is_h, is_e) at passes)
    | inr skipped ↦
        let found' : find p l ≡ some (h, e) = rw (skipped, find) at found in
        let rest = find-passes p l h e sorted.1 found' in
        let le : x < h = lookup_above x h e l sorted.0 rest.0 in (ground (arith, rest.0), rest.1)
  ]

  lookup-Coherent :
      (l : Ledger Header) (h : ℕ) (e : InFlight Header)
      → AllCoherent l
      → lookup h l ≡ some e
      → Coherent e
  unfolding lookup
  lookup-Coherent [] h e all found = cc
  lookup-Coherent ((x, v) ∷ l) h e all found = elim (Bool-cases (h == x)) [
    | inl here ↦ let is_e : v ≡ e = ground arith in subst Coherent is_e all.0
    | inr further ↦
        let found' : lookup h l ≡ some e = ground arith in lookup-Coherent l h e all.1 found'
  ]

  unconfirmed_failed :
      (e : InFlight Header)
      → Coherent e
      → is_failed e.resolution ≡ true
      → e.cursor_confirmed ≡ false
  unconfirmed_failed e coherent h = ground arith

  taken :
      (l : Ledger Header) (cursor h : ℕ) (e : InFlight Header)
      → find (failed_above cursor) l ≡ some (h, e)
      → lookup h l ≡ some e
      → take_failed_for_recovery l cursor ≡ (remove h l, some (failed_batch h e))
  unfolding take_failed_for_recovery
  taken l cursor h e found there = rw (found, there, take_failed_for_recovery) refl

  nothing_taken :
      (l : Ledger Header) (cursor : ℕ)
      → find (failed_above cursor) l ≡ none
      → take_failed_for_recovery l cursor ≡ (l, none)
  unfolding take_failed_for_recovery
  nothing_taken l cursor nothing = rw (nothing, take_failed_for_recovery) refl

  reinsert_taken :
      (l : Ledger Header) (h : ℕ) (e : InFlight Header)
      → IsSound l
      → lookup h l ≡ some e
      → is_failed e.resolution ≡ true
      → reinsert_failed (remove h l) (failed_batch h e) ≡ l
  unfolding reinsert_failed
  reinsert_taken l h e v there is_fail =
      let confirmed = unconfirmed_failed e (lookup-Coherent l h e v.coherent there) is_fail in
      let res : e.resolution ≡ failed = ground arith in
      rw (sym confirmed, sym res) (insert-remove h e l v.sorted there)

  -- Putting back the batch that was taken from a sound ledger for recovery gives the ledger back,
  -- so that the gate is held as before and the next slot takes the same batch.
  pub reinsert_failed-take_failed :
      (l l' : Ledger Header) (cursor : ℕ) (batch : FailedBatch Header)
      → IsSound l
      → take_failed_for_recovery l cursor ≡ (l', some batch)
      → reinsert_failed l' batch ≡ l
  reinsert_failed-take_failed l l' cursor batch v e =
      elim (Option-cases (find (failed_above cursor) l)) [
        | inl nothing ↦
            let same : none ≡ some batch =
              ap (λ p. p.1) (sym (nothing_taken l cursor nothing) ∙ e) in
            cc
        | inr ((h, entry), found) ↦
            let (there, passes) = find-passes (failed_above cursor) l h entry v.sorted found in
            let same : (remove h l, some (failed_batch h entry)) ≡ (l', some batch) =
              sym (taken l cursor h entry found there) ∙ e in
            let is_l' : remove h l ≡ l' = ap (λ p. p.0) same in
            let some_batch : some (failed_batch h entry) ≡ some batch = ap (λ p. p.1) same in
            let is_batch : failed_batch h entry ≡ batch = some-injective _ _ some_batch in
            rw (sym is_l', sym is_batch) (reinsert_taken l h entry v there (ground arith))
      ]

  pub take_rolled_out_lem :
      (l : Ledger Header) (cursor : ℕ)
      → IsSorted l
      → take_rolled_out l cursor
        ≡ (without (rolls_out cursor) l, txs_of (those (rolls_out cursor) l))
  unfolding take_rolled_out
  take_rolled_out_lem l cursor sorted =
      ap (λ r. (r.0, txs_of r.1)) (take_heights_lem (rolls_out cursor) l sorted)

  -- On a sorted ledger finality hands out for the audit, in order of height, exactly the settled
  -- entries at or below the finalized block, and leaves the other entries as they were.
  pub take_finalized_lem :
      (l : Ledger Header) (finalized_l2 : ℕ)
      → IsSorted l
      → take_finalized l finalized_l2
        ≡ (without (is_final finalized_l2) l, audits_of (those (is_final finalized_l2) l))
  unfolding take_finalized
  take_finalized_lem l finalized_l2 sorted =
      ap (λ r. (r.0, audits_of r.1)) (take_heights_lem (is_final finalized_l2) l sorted)
