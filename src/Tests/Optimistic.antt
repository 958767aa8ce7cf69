-- ===== src/Tests/Optimistic.antt =====
-- crates/eez-composer/src/optimistic.rs on a ledger of two batches.
use eez_rollup.Base.{ℕ, ◌+◌, ◌≡◌, ◌↔◌, refl, List, [], ◌∷◌, true, false, All, none, some, arith}
use eez_rollup.HeldPool.{HeldTx, inbound}
use eez_rollup.Optimistic.{
  InFlight, FailedBatch, Ledger, settled, failed, lookup, find, remove, blocking_height,
  resolve_below_cursor, resolve_entry, mark_settled, mark_failed, mark_settled_partial,
  claim_partial, failed_batch, take_failed_for_recovery, reinsert_failed, take_rolled_out,
}
use eez_rollup.Optimistic.Sorted.{IsSorted}
use eez_rollup.Optimistic.History.{Call, begins, settles, resolves, run, IsSound, run-IsSound}
use eez_rollup.Optimistic.Verdicts.{stale_verdict, count, unconfirmed, released, released_once}
use eez_rollup.Optimistic.Gate.{Resolved, open_gate-Resolved}
use eez_rollup.Optimistic.Recovery.{reinsert_failed-take_failed}
use eez_rollup.Optimistic.Rollback.{Rolled, take_rolled_out_iff}

abbrev tx_of : ℕ → HeldTx
tx_of hash = record {
  raw_tx = [];
  hash = hash;
  attempts = 0;
  sender = 1;
  nonce = hash;
  direction = inbound;
  max_fee_per_gas = 0;
  priority_fee_per_gas = 0;
}

abbrev entry_of : ℕ → InFlight ℕ
entry_of hash = record {
  txs = tx_of hash ∷ [];
  post_batch_hash = hash;
  parent = 0;
  resolution = settled;
  cursor_confirmed = false;
  slot_skipped = false;
}

abbrev failed_left : Ledger ℕ
failed_left = (9, record (entry_of 90) { resolution = failed; slot_skipped = true }) ∷ []

abbrev settled_and_failed : Ledger ℕ
settled_and_failed = (7, entry_of 70) ∷ failed_left

settled_and_failed-IsSorted : IsSorted settled_and_failed
settled_and_failed-IsSorted = ((omega arith, tt), (tt, tt))

settled_and_failed-IsSound : IsSound settled_and_failed
settled_and_failed-IsSound = record {
  sorted = settled_and_failed-IsSorted;
  coherent = (refl, (refl, tt));
}

blocked_at_7 : blocking_height settled_and_failed 6 ≡ some 7
unfolding blocking_height find
blocked_at_7 = refl

open_at_9 : blocking_height (resolve_below_cursor settled_and_failed 9).0 9 ≡ none
unfolding blocking_height find resolve_below_cursor resolve_entry
open_at_9 = refl

abbrev calls : List (Call ℕ)
calls = begins 9 90 0 [] ∷ begins 7 70 0 (tx_of 70 ∷ []) ∷ settles 7 70 ∷ resolves 8 ∷ []

run-IsSound_example : IsSound (run [] calls)
run-IsSound_example = run-IsSound calls

seven : lookup 7 settled_and_failed ≡ some (entry_of 70)
unfolding lookup
seven = refl

stale_verdict_example :
    (mark_settled settled_and_failed 7 71 ≡ settled_and_failed)
    × (mark_failed settled_and_failed 7 71 true ≡ settled_and_failed)
    × (mark_settled_partial settled_and_failed 7 71 ≡ settled_and_failed)
    × (claim_partial settled_and_failed 7 71 [] ≡ (settled_and_failed, false))
stale_verdict_example =
    stale_verdict settled_and_failed 7 71 true [] (entry_of 70) seven (λ same. omega (arith, same))

released_once_example :
    count (λ tx. true) (released settled_and_failed (resolves 8 ∷ settles 9 90 ∷ resolves 9 ∷ []))
      + count
          (λ tx. true)
          (unconfirmed (run settled_and_failed (resolves 8 ∷ settles 9 90 ∷ resolves 9 ∷ [])))
    ≡ count (λ tx. true) (unconfirmed settled_and_failed)
released_once_example =
    released_once (λ tx. true) settled_and_failed (resolves 8 ∷ settles 9 90 ∷ resolves 9 ∷ [])
      (tt, (tt, (tt, tt)))

open_gate-Resolved_example : All (λ p. Resolved p.1) (resolve_below_cursor settled_and_failed 9).0
open_gate-Resolved_example =
    open_gate-Resolved settled_and_failed 9 settled_and_failed-IsSorted open_at_9

abbrev failed_at_9 : FailedBatch ℕ
failed_at_9 = failed_batch 9 (record (entry_of 90) { resolution = failed; slot_skipped = true })

takes_9 : take_failed_for_recovery settled_and_failed 8 ≡ ((7, entry_of 70) ∷ [], some failed_at_9)
unfolding take_failed_for_recovery find lookup remove
takes_9 = refl

reinsert_failed-take_failed_example :
    reinsert_failed ((7, entry_of 70) ∷ []) failed_at_9 ≡ settled_and_failed
reinsert_failed-take_failed_example =
    reinsert_failed-take_failed settled_and_failed ((7, entry_of 70) ∷ []) 8 failed_at_9
      settled_and_failed-IsSound takes_9

take_rolled_out_iff_example :
    (take_rolled_out settled_and_failed 6 ≡ (failed_left, tx_of 70 ∷ []))
    ↔ Rolled 6 settled_and_failed failed_left (tx_of 70 ∷ [])
take_rolled_out_iff_example =
    take_rolled_out_iff settled_and_failed failed_left 6 (tx_of 70 ∷ []) settled_and_failed-IsSorted
