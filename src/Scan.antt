-- ===== src/Scan.antt =====
-- crates/eez-l1/src/scan/model.rs: the parser of one transaction's EEZ logs. The logs are their
-- events, and a log's place among them is its position; an error keeps the position of the log and
-- not its text. A hash is a number.
pub mod Grammar
pub mod Sound
use eez_rollup.Base.{
  ℕ, ◌+◌, List, [], ◌∷◌, ◌++◌, Bool, true, false, not, ltb, ◌==◌, last, Option, none, some,
}
use eez_rollup.Base.Results.{Result, ok, err, ◌>>=◌}

pub record Consumed : Type 0 where
  pub hash : ℕ
  pub queue : ℕ
  pub index : ℕ

pub data Event : Type 0 where
  posted_event : ℕ → List ℕ → Event
  consumed_event : Consumed → Event
  root_event : ℕ → ℕ → Event
  executed_event : ℕ → ℕ → Event
  skipped_event : ℕ → Event

abbrev pub Roots : Type 0
Roots = List (ℕ × ℕ)

pub record Record : Type 0 where
  pub consumed : Option Consumed
  pub roots : Roots
  pub rolling_hash : ℕ

pub data Kind : Type 0 where
  posted : ℕ → List ℕ → Kind
  skipped : ℕ → Kind
  record_of : Record → Kind

pub record Item : Type 0 where
  pub first : ℕ
  pub last_log : ℕ
  pub kind : Kind

-- Each with the position of the log.
pub data DecodeError : Type 0 where
  root_order : ℕ → ℕ → ℕ → DecodeError
  no_update : ℕ → DecodeError
  wrong_slot : ℕ → ℕ → ℕ → DecodeError
  no_entry_open inside_open_entry never_closes : ℕ → DecodeError

-- The entry being read: its first log, its consumption if any, its roots so far.
pub record Opened : Type 0 where
  pub first : ℕ
  pub consumed : Option Consumed
  pub roots : Roots

abbrev pub after_of : Roots → ℕ
after_of roots = elim (last roots) [ none ↦ 0 | some r ↦ r.0 ]

abbrev pub slot_of : Option Consumed → ℕ
slot_of none = 0
slot_of (some c) = c.index

abbrev pub opened_or_new : ℕ → Option Opened → Opened
opened_or_new position none = record { first = position; consumed = none; roots = [] }
opened_or_new position (some o) = o

abbrev pub State : Type 0
State = Option Item × Option Opened

unfoldable pub push_root : ℕ → Opened → ℕ → ℕ → Result DecodeError State
push_root position o rollup root = elim (ltb (after_of o.roots) rollup) [
  | false ↦ err (root_order position rollup (after_of o.roots))
  | true ↦ ok (none, some (record o { roots = o.roots ++ ((rollup, root) ∷ []) }))
]

abbrev pub has_roots : Roots → Bool
has_roots [] = false
has_roots (r ∷ rs) = true

abbrev pub closed : ℕ → Opened → ℕ → Item
closed position o rolling_hash = record {
  first = o.first;
  last_log = position;
  kind = record_of (record { consumed = o.consumed; roots = o.roots; rolling_hash = rolling_hash });
}

unfoldable pub close : ℕ → Opened → ℕ → ℕ → Result DecodeError State
close position o index rolling_hash = elim (has_roots o.roots) [
  | false ↦ err (no_update position)
  | true ↦ elim (index == slot_of o.consumed) [
    | false ↦ err (wrong_slot position index (slot_of o.consumed))
    | true ↦ ok (some (closed position o rolling_hash), none)
  ]
]

abbrev pub single : ℕ → Kind → Item
single position kind = record { first = position; last_log = position; kind = kind }

-- One log: the item that it closes, and the entry that is open after it.
unfoldable pub parse_log : ℕ → Event → Option Opened → Result DecodeError State
parse_log position (root_event rollup root) o =
    push_root position (opened_or_new position o) rollup root
parse_log position (consumed_event c) none =
    ok (none, some (record { first = position; consumed = some c; roots = [] }))
parse_log position (consumed_event c) (some o) = err (inside_open_entry position)
parse_log position (executed_event index rolling_hash) none = err (no_entry_open position)
parse_log position (executed_event index rolling_hash) (some o) =
    close position o index rolling_hash
parse_log position (posted_event spi ids) none = ok (some (single position (posted spi ids)), none)
parse_log position (posted_event spi ids) (some o) = err (inside_open_entry position)
parse_log position (skipped_event index) none = ok (some (single position (skipped index)), none)
parse_log position (skipped_event index) (some o) = err (inside_open_entry position)

abbrev pub prepend : Option Item → List Item → List Item
prepend none items = items
prepend (some i) items = i ∷ items

unfoldable pub parse_from : ℕ → Option Opened → List Event → Result DecodeError (List Item)
parse_from position none [] = ok []
parse_from position (some o) [] = err (never_closes o.first)
parse_from position o (e ∷ events) = parse_log position e o >>= λ s.
    parse_from (position + 1) s.1 events >>= λ rest. ok (prepend s.0 rest)

unfoldable pub parse_tx : List Event → Result DecodeError (List Item)
parse_tx events = parse_from 0 none events
