-- ===== src/Tests/Scan.antt =====
-- crates/eez-l1/src/scan/model.rs: a post, a skipped entry, and an entry that consumed slot 3.
use eez_rollup.Base.{◌≡◌, ◌↔◌, refl, List, [], ◌∷◌, some}
use eez_rollup.Base.Results.{ok, err}
use eez_rollup.Scan.{
  Consumed, Event, posted_event, consumed_event, root_event, executed_event, skipped_event, Kind,
  posted, skipped, record_of, wrong_slot, root_order, parse_tx, parse_from, parse_log, push_root,
  close,
}
use eez_rollup.Scan.Grammar.{placed}
use eez_rollup.Scan.Sound.{Outside, parse_tx_iff}

abbrev slot_3 : Consumed
slot_3 = record { hash = 1; queue = 7; index = 3 }

abbrev logs : List Event
logs =
    skipped_event 0
    ∷ posted_event 5 (7 ∷ [])
    ∷ consumed_event slot_3
    ∷ root_event 7 70
    ∷ root_event 9 90
    ∷ executed_event 3 8
    ∷ []

abbrev kinds : List Kind
kinds =
    skipped 0
    ∷ posted 5 (7 ∷ [])
    ∷ record_of
        (record { consumed = some slot_3; roots = (7, 70) ∷ (9, 90) ∷ []; rolling_hash = 8 })
    ∷ []

parses : parse_tx logs ≡ ok (placed 0 kinds)
unfolding parse_tx parse_from parse_log push_root close
parses = refl

leading_run_slot : parse_tx (root_event 7 70 ∷ executed_event 3 8 ∷ []) ≡ err (wrong_slot 1 3 0)
unfolding parse_tx parse_from parse_log push_root close
leading_run_slot = refl

roots_fall : parse_tx (root_event 9 90 ∷ root_event 7 70 ∷ []) ≡ err (root_order 1 7 9)
unfolding parse_tx parse_from parse_log push_root close
roots_fall = refl

parse_tx_iff_example : (parse_tx logs ≡ ok (placed 0 kinds)) ↔ Outside 0 logs (placed 0 kinds)
parse_tx_iff_example = parse_tx_iff logs (placed 0 kinds)
