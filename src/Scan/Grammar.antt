-- ===== src/Scan/Grammar.antt =====
-- The grammar of the logs, and the parser on what it writes.
use eez_rollup.Base.{
  lt→ltb, append-nil, ℕ, suc, ap₂, ◌+◌, ◌-◌, ◌<◌, ◌≡◌, refl, ap, ◌∙◌, List, [], ◌∷◌, ◌++◌, map,
  append_assoc, true, ltb, ◌==◌, All, length, length-append, length-map, last-snoc, Option, none,
  some, arith,
}
use eez_rollup.Base.Results.{ok, >>=-ok}
use eez_rollup.Scan.{
  Consumed, Event, posted_event, consumed_event, root_event, executed_event, skipped_event, Roots,
  Record, Kind, posted, skipped, record_of, Item, Opened, after_of, slot_of, push_root, close,
  closed, has_roots, single, parse_log, prepend, parse_from, parse_tx, State,
}

abbrev pub root_log : ℕ × ℕ → Event
root_log r = root_event r.0 r.1

abbrev pub consumption : Option Consumed → List Event
consumption none = []
consumption (some c) = consumed_event c ∷ []

-- `Posted | Skipped | Consumed? Root+ Executed`
abbrev pub logs_of : Kind → List Event
logs_of (posted spi ids) = posted_event spi ids ∷ []
logs_of (skipped index) = skipped_event index ∷ []
logs_of (record_of r) =
    consumption r.consumed
    ++ (map root_log r.roots ++ (executed_event (slot_of r.consumed) r.rolling_hash ∷ []))

abbrev pub all_logs : List Kind → List Event
all_logs [] = []
all_logs (k ∷ ks) = logs_of k ++ all_logs ks

-- The rollups of the roots ascend strictly from above `after`.
abbrev pub Ascends : ℕ → Roots → Type 0
Ascends after [] = Unit {0}
Ascends after (r ∷ rs) = (after < r.0) × Ascends r.0 rs

abbrev pub IsWritten : Kind → Type 0
IsWritten (posted spi ids) = Unit {0}
IsWritten (skipped index) = Unit {0}
IsWritten (record_of r) = (has_roots r.roots ≡ true) × Ascends 0 r.roots

-- The items of the kinds, from a position on.
abbrev pub placed : ℕ → List Kind → List Item
placed position [] = []
placed position (k ∷ ks) =
    record { first = position; last_log = position + length (logs_of k) - 1; kind = k }
    ∷ placed (position + length (logs_of k)) ks

pub after_of-snoc : (rs : Roots) (r : ℕ × ℕ) → after_of (rs ++ (r ∷ [])) ≡ r.0
after_of-snoc rs r = rw (last-snoc rs r, after_of) refl

has_roots-snoc : (rs : Roots) (r : ℕ × ℕ) → has_roots (rs ++ (r ∷ [])) ≡ true
has_roots-snoc [] r = refl
has_roots-snoc (x ∷ rs) r = refl

parse_from-cons :
    (position : ℕ) (o : Option Opened) (e : Event) (events : List Event) (s : State)
    (items : List Item)
    → parse_log position e o ≡ ok s
    → parse_from (position + 1) s.1 events ≡ ok items
    → parse_from position o (e ∷ events) ≡ ok (prepend s.0 items)
unfolding parse_from
parse_from-cons position none e events s items first rest =
    >>=-ok (parse_log position e none) _ s first
    ∙ >>=-ok (parse_from (position + 1) s.1 events) _ items rest
parse_from-cons position (some o) e events s items first rest =
    >>=-ok (parse_log position e (some o)) _ s first
    ∙ >>=-ok (parse_from (position + 1) s.1 events) _ items rest

push_root-ok :
    (position : ℕ) (o : Opened) (r : ℕ × ℕ)
    → after_of o.roots < r.0
    → push_root position o r.0 r.1 ≡ ok (none, some (record o { roots = o.roots ++ (r ∷ []) }))
unfolding push_root
push_root-ok position o r h =
    let later : ltb (after_of o.roots) r.0 ≡ true = lt→ltb (after_of o.roots) r.0 h in
    rw (later, push_root) refl

close-ok :
    (position : ℕ) (o : Opened) (rolling_hash : ℕ)
    → has_roots o.roots ≡ true
    → close position o (slot_of o.consumed) rolling_hash
      ≡ ok (some (closed position o rolling_hash), none)
unfolding close
close-ok position o rolling_hash h =
    let same : (slot_of o.consumed == slot_of o.consumed) ≡ true = ground arith in
    rw (h, same, close) refl

-- An open entry is read to its end.
parse_from-opened :
    (position : ℕ) (o : Opened) (rs : Roots) (rolling_hash : ℕ) (events : List Event)
    (items : List Item)
    → Ascends (after_of o.roots) rs
    → has_roots (o.roots ++ rs) ≡ true
    → parse_from (position + length rs + 1) none events ≡ ok items
    → parse_from position
        (some o)
        (map root_log rs ++ (executed_event (slot_of o.consumed) rolling_hash ∷ events))
      ≡ ok (closed (position + length rs) (record o { roots = o.roots ++ rs }) rolling_hash ∷ items)
unfolding parse_log
parse_from-opened position o [] rolling_hash events items up some_root rest =
    let here : position + 0 ≡ position = omega arith in
    let whole : has_roots o.roots ≡ true = rw (append-nil o.roots) at some_root in
    rw (here, append-nil o.roots)
      (parse_from-cons position (some o) (executed_event (slot_of o.consumed) rolling_hash) events
        (some (closed position o rolling_hash), none) items (close-ok position o rolling_hash whole)
        (rw here at rest))
parse_from-opened position o (r ∷ rs) rolling_hash events items up some_root rest =
    let o' = record o { roots = o.roots ++ (r ∷ []) } in
    let all_roots : o'.roots ++ rs ≡ o.roots ++ (r ∷ rs) = append_assoc o.roots (r ∷ []) rs in
    let onward : position + 1 + length rs ≡ position + suc (length rs) = omega arith in
    let further =
      parse_from-opened (position + 1) o' rs rolling_hash events items
        (rw (after_of-snoc o.roots r) up.1) (rw all_roots some_root) (rw onward rest) in
    parse_from-cons position (some o) (root_log r) _ (none, some o') _
      (push_root-ok position o r up.0)
      (further
        ∙ ap₂ (λ n roots. ok (closed n (record o { roots = roots }) rolling_hash ∷ items)) onward
            all_roots)

-- The length of a record's logs.
pub length-logs_of :
    (r : Record)
    → length (logs_of (record_of r)) ≡ length (consumption r.consumed) + length r.roots + 1
length-logs_of r = omega (
  arith,
  length-append (consumption r.consumed)
      (map root_log r.roots ++ (executed_event (slot_of r.consumed) r.rolling_hash ∷ [])),
  length-append (map root_log r.roots) (executed_event (slot_of r.consumed) r.rolling_hash ∷ []),
  length-map r.roots root_log,
)

pub record_logs :
    (r : Record) (events : List Event)
    → logs_of (record_of r) ++ events
      ≡ consumption r.consumed
        ++ (map root_log r.roots ++ (executed_event (slot_of r.consumed) r.rolling_hash ∷ events))
record_logs r events =
    append_assoc (consumption r.consumed) _ events
    ∙ ap (◌++◌ (consumption r.consumed)) (append_assoc (map root_log r.roots) _ events)

abbrev pub new_entry : ℕ → Option Consumed → Opened
new_entry position c = record { first = position; consumed = c; roots = [] }

-- An entry is opened by its consumption, or by its first root.
parse_from-consumption :
    (position : ℕ) (c : Option Consumed) (rs : Roots) (events : List Event)
    → has_roots rs ≡ true
    → (items : List Item)
    → parse_from
        (position + length (consumption c))
        (some (new_entry position c))
        (map root_log rs ++ events)
      ≡ ok items
    → parse_from position none (consumption c ++ (map root_log rs ++ events)) ≡ ok items
unfolding parse_from parse_log
parse_from-consumption position (some c) rs events h items e =
    parse_from-cons position none (consumed_event c) (map root_log rs ++ events)
      (none, some (new_entry position (some c))) items refl e
parse_from-consumption position none [] events h items e = cc
parse_from-consumption position none (r ∷ rs) events h items e =
    let here : position + 0 ≡ position = omega arith in rw here at e

parse_from-record :
    (position : ℕ) (r : Record) (events : List Event) (items : List Item)
    → IsWritten (record_of r)
    → parse_from (position + length (logs_of (record_of r))) none events ≡ ok items
    → parse_from position none (logs_of (record_of r) ++ events)
      ≡ ok (
          record {
            first = position;
            last_log = position + length (logs_of (record_of r)) - 1;
            kind = record_of r;
          }
          ∷ items)
parse_from-record position r events items written rest =
    let n = length (consumption r.consumed) in
    let o = new_entry position r.consumed in
    let ends : position + n + length r.roots ≡ position + length (logs_of (record_of r)) - 1 =
      omega (arith, length-logs_of r) in
    let after : position + length (logs_of (record_of r)) ≡ position + n + length r.roots + 1 =
      omega (arith, length-logs_of r) in
    let opened =
      parse_from-opened (position + n) o r.roots r.rolling_hash events items written.1 written.0
        (rw after at rest) in
    rw (record_logs r events) (
      parse_from-consumption position r.consumed r.roots _ written.0 _ (
        opened
        ∙ ap (λ m. ok (closed m (record o { roots = r.roots }) r.rolling_hash ∷ items)) ends))

parse_from-single :
    (position : ℕ) (k : Kind) (e : Event) (events : List Event) (items : List Item)
    → parse_log position e none ≡ ok (some (single position k), none)
    → parse_from (position + 1) none events ≡ ok items
    → parse_from position none (e ∷ events)
      ≡ ok (record { first = position; last_log = position + 1 - 1; kind = k } ∷ items)
parse_from-single position k e events items one rest =
    let back : position + 1 - 1 ≡ position = omega arith in
    rw back (parse_from-cons position none e events (some (single position k), none) items one rest)

parse_from-placed :
    (position : ℕ) (ks : List Kind)
    → All IsWritten ks
    → parse_from position none (all_logs ks) ≡ ok (placed position ks)
unfolding parse_log parse_from
parse_from-placed position [] h = refl
parse_from-placed position (posted spi ids ∷ ks) h =
    parse_from-single position (posted spi ids) (posted_event spi ids) (all_logs ks)
      (placed (position + 1) ks) refl (parse_from-placed (position + 1) ks h.1)
parse_from-placed position (skipped index ∷ ks) h =
    parse_from-single position (skipped index) (skipped_event index) (all_logs ks)
      (placed (position + 1) ks) refl (parse_from-placed (position + 1) ks h.1)
parse_from-placed position (record_of r ∷ ks) h =
    let next = position + length (logs_of (record_of r)) in
    parse_from-record position r (all_logs ks) (placed next ks) h.0 (parse_from-placed next ks h.1)

-- Whatever posts, skips and entries whose roots are present and ascend: from their logs, one after
-- the other, the parser reads them back, each with the positions of its first and last log.
pub parse_tx-all_logs :
    (ks : List Kind) → All IsWritten ks → parse_tx (all_logs ks) ≡ ok (placed 0 ks)
unfolding parse_tx
parse_tx-all_logs ks h = parse_from-placed 0 ks h
