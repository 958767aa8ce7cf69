-- ===== src/Scan/Sound.antt =====
-- The logs that the parser accepts, and the grammar.
use eez_rollup.Base.{
  ℕ, ◌+◌, ◌-◌, ◌<◌, ◌≡◌, ◌↔◌, refl, sym, subst, ap, ap₂, ◌∙◌, append-nil, List, [], ◌∷◌, ◌++◌, map,
  append_assoc, true, ltb, ltb→lt, ◌==◌, Bool-cases, All, length, Option, none, some, arith, inl,
  inr,
}
use eez_rollup.Base.Results.{ok, err, >>=-eq-ok, ok-injective}
use eez_rollup.Scan.{
  Consumed, Event, posted_event, consumed_event, root_event, executed_event, skipped_event, Roots,
  Record, Kind, posted, skipped, record_of, Item, Opened, after_of, slot_of, opened_or_new,
  push_root, close, closed, has_roots, single, parse_log, prepend, parse_from, parse_tx, State,
  root_order, no_update, wrong_slot,
}
use eez_rollup.Scan.Grammar.{
  root_log, consumption, logs_of, all_logs, Ascends, IsWritten, placed, after_of-snoc,
  length-logs_of, record_logs, new_entry, parse_tx-all_logs,
}

-- What is read outside an entry, and inside one.
pub record Outside (position : ℕ) (events : List Event) (items : List Item) : Type 0 where
  pub kinds : List Kind
  pub logs : events ≡ all_logs kinds
  pub written : All IsWritten kinds
  pub items_are : items ≡ placed position kinds

record Inside (position : ℕ) (o : Opened) (events : List Event) (items : List Item) : Type 0 where
  roots : Roots
  rolling_hash : ℕ
  kinds : List Kind
  logs :
      events
      ≡ map root_log roots ++ (executed_event (slot_of o.consumed) rolling_hash ∷ all_logs kinds)
  ascend : Ascends (after_of o.roots) roots
  some_root : has_roots (o.roots ++ roots) ≡ true
  written : All IsWritten kinds
  items_are :
      items
      ≡ closed (position + length roots) (record o { roots = o.roots ++ roots }) rolling_hash
        ∷ placed (position + length roots + 1) kinds

abbrev Read : ℕ → Option Opened → List Event → List Item → Type 0
Read position none events items = Outside position events items
Read position (some o) events items = Inside position o events items

Inside-Outside :
    (position : ℕ) (c : Option Consumed) (events : List Event) (items : List Item)
    → Inside (position + length (consumption c)) (new_entry position c) events items
    → Outside position (consumption c ++ events) items
Inside-Outside position c events items i =
    let r : Record = record { consumed = c; roots = i.roots; rolling_hash = i.rolling_hash } in
    let ends : position + length (consumption c) + length i.roots
        ≡ position + length (logs_of (record_of r)) - 1 =
      omega (arith, length-logs_of r) in
    let after : position + length (consumption c) + length i.roots + 1
        ≡ position + length (logs_of (record_of r)) =
      omega (arith, length-logs_of r) in
    record {
      kinds = record_of r ∷ i.kinds;
      logs = ap (◌++◌ (consumption c)) i.logs ∙ sym (record_logs r (all_logs i.kinds));
      written = ((i.some_root, i.ascend), i.written);
      items_are =
          i.items_are
          ∙ ap₂
              (λ n m.
                closed n (record { first = position; consumed = c; roots = i.roots }) i.rolling_hash
                ∷ placed m i.kinds)
              ends after;
    }

push_root-eq-ok :
    (position : ℕ) (o : Opened) (r : ℕ × ℕ) (s : State)
    → push_root position o r.0 r.1 ≡ ok s
    → (after_of o.roots < r.0) × ((none, some (record o { roots = o.roots ++ (r ∷ []) })) ≡ s)
unfolding push_root
push_root-eq-ok position o r s e = elim (Bool-cases (ltb (after_of o.roots) r.0)) [
  | inl later ↦ (ltb→lt (after_of o.roots) r.0 later, ok-injective (rw (later, push_root) at e))
  | inr early ↦
      let refused : err (root_order position r.0 (after_of o.roots)) ≡ ok s =
        rw (early, push_root) at e in
      cc
]

Inside-root :
    (position : ℕ) (o : Opened) (r : ℕ × ℕ) (events : List Event) (items : List Item)
    → after_of o.roots < r.0
    → Inside (position + 1) (record o { roots = o.roots ++ (r ∷ []) }) events items
    → Inside position o (root_log r ∷ events) items
Inside-root position o r events items later i =
    let onward : position + 1 + length i.roots ≡ position + length (r ∷ i.roots) = omega arith in
    let all_roots = append_assoc o.roots (r ∷ []) i.roots in
    record {
      roots = r ∷ i.roots;
      rolling_hash = i.rolling_hash;
      kinds = i.kinds;
      logs = ap (◌∷◌ (root_log r)) i.logs;
      ascend = (later, rw (after_of-snoc o.roots r) at i.ascend);
      some_root = rw all_roots at i.some_root;
      written = i.written;
      items_are =
          i.items_are
          ∙ ap₂
              (λ n roots.
                closed n (record o { roots = roots }) i.rolling_hash ∷ placed (n + 1) i.kinds)
              onward all_roots;
    }

close-eq-ok :
    (position : ℕ) (o : Opened) (index rolling_hash : ℕ) (s : State)
    → close position o index rolling_hash ≡ ok s
    → (has_roots o.roots ≡ true)
      × (index ≡ slot_of o.consumed)
      × ((some (closed position o rolling_hash), none) ≡ s)
unfolding close
close-eq-ok position o index rolling_hash s e = elim (Bool-cases (has_roots o.roots)) [
  | inr empty ↦ let refused : err (no_update position) ≡ ok s = rw (empty, close) at e in cc
  | inl some_root ↦ elim (Bool-cases (index == slot_of o.consumed)) [
    | inr other ↦
        let refused : err (wrong_slot position index (slot_of o.consumed)) ≡ ok s =
          rw (some_root, other, close) at e in
        cc
    | inl same ↦ (some_root, ground arith, ok-injective (rw (some_root, same, close) at e))
  ]
]

Outside-close :
    (position : ℕ) (o : Opened) (index rolling_hash : ℕ) (events : List Event) (items : List Item)
    → has_roots o.roots ≡ true
    → index ≡ slot_of o.consumed
    → Outside (position + 1) events items
    → Inside position o
        (executed_event index rolling_hash ∷ events)
        (closed position o rolling_hash ∷ items)
Outside-close position o index rolling_hash events items some_root same i =
    let here : position + 0 ≡ position = omega arith in
    record {
      roots = [];
      rolling_hash = rolling_hash;
      kinds = i.kinds;
      logs = ap₂ (λ n l. executed_event n rolling_hash ∷ l) same i.logs;
      ascend = tt;
      some_root = rw (append-nil o.roots) some_root;
      written = i.written;
      items_are =
          rw (here, append-nil o.roots) (ap (◌∷◌ (closed position o rolling_hash)) i.items_are);
    }

Outside-single :
    (position : ℕ) (k : Kind) (e : Event) (events : List Event) (items : List Item)
    → logs_of k ≡ e ∷ []
    → IsWritten k
    → Outside (position + 1) events items
    → Outside position (e ∷ events) (single position k ∷ items)
Outside-single position k e events items one written i =
    let back : position + length (logs_of k) - 1 ≡ position = rw one (omega arith) in
    let onward : position + length (logs_of k) ≡ position + 1 = rw one (omega arith) in
    record {
      kinds = k ∷ i.kinds;
      logs = rw one (ap (◌∷◌ e) i.logs);
      written = (written, i.written);
      items_are = rw (back, onward) (ap (◌∷◌ (single position k)) i.items_are);
    }

parse_from-split :
    (position : ℕ) (o : Option Opened) (e : Event) (events : List Event) (items : List Item)
    → parse_from position o (e ∷ events) ≡ ok items
    → (s : State) × (rest : List Item) × (parse_log position e o ≡ ok s)
      × (parse_from (position + 1) s.1 events ≡ ok rest)
      × (prepend s.0 rest ≡ items)
unfolding parse_from
parse_from-split position none e events items h =
    let (s, first, h₁) = >>=-eq-ok (parse_log position e none) _ h in
    let (rest, further, h₂) = >>=-eq-ok (parse_from (position + 1) s.1 events) _ h₁ in
    (s, rest, first, further, ok-injective h₂)
parse_from-split position (some o) e events items h =
    let (s, first, h₁) = >>=-eq-ok (parse_log position e (some o)) _ h in
    let (rest, further, h₂) = >>=-eq-ok (parse_from (position + 1) s.1 events) _ h₁ in
    (s, rest, first, further, ok-injective h₂)

-- One log, read before what is read after it.
parse_log-Read :
    (position : ℕ) (o : Option Opened) (e : Event) (events : List Event) (s : State)
    (rest : List Item)
    → parse_log position e o ≡ ok s
    → Read (position + 1) s.1 events rest
    → Read position o (e ∷ events) (prepend s.0 rest)
unfolding parse_log
parse_log-Read position none (root_event rollup root) events s rest h i =
    let o = opened_or_new position none in
    let (later, same) = push_root-eq-ok position o (rollup, root) s h in
    let i' = subst (λ t. Read (position + 1) t.1 events rest) (sym same) i in
    let here : position ≡ position + 0 = omega arith in
    subst (λ t. Read position none (root_event rollup root ∷ events) (prepend t.0 rest)) same
      (Inside-Outside position none (root_event rollup root ∷ events) rest (
        subst (λ n. Inside n o (root_event rollup root ∷ events) rest) here
          (Inside-root position o (rollup, root) events rest later i')))
parse_log-Read position (some o) (root_event rollup root) events s rest h i =
    let (later, same) = push_root-eq-ok position o (rollup, root) s h in
    let i' = subst (λ t. Read (position + 1) t.1 events rest) (sym same) i in
    subst (λ t. Read position (some o) (root_event rollup root ∷ events) (prepend t.0 rest)) same
      (Inside-root position o (rollup, root) events rest later i')
parse_log-Read position none (consumed_event c) events s rest h i =
    let same = ok-injective h in
    let i' = subst (λ t. Read (position + 1) t.1 events rest) (sym same) i in
    subst (λ t. Read position none (consumed_event c ∷ events) (prepend t.0 rest)) same
      (Inside-Outside position (some c) events rest i')
parse_log-Read position (some o) (consumed_event c) events s rest h i = cc
parse_log-Read position none (executed_event index rolling_hash) events s rest h i = cc
parse_log-Read position (some o) (executed_event index rolling_hash) events s rest h i =
    let (some_root, slot, same) = close-eq-ok position o index rolling_hash s h in
    let i' = subst (λ t. Read (position + 1) t.1 events rest) (sym same) i in
    subst
      (λ t. Read position (some o) (executed_event index rolling_hash ∷ events) (prepend t.0 rest))
      same (Outside-close position o index rolling_hash events rest some_root slot i')
parse_log-Read position none (posted_event spi ids) events s rest h i =
    let same = ok-injective h in
    let i' = subst (λ t. Read (position + 1) t.1 events rest) (sym same) i in
    subst (λ t. Read position none (posted_event spi ids ∷ events) (prepend t.0 rest)) same
      (Outside-single position (posted spi ids) (posted_event spi ids) events rest refl tt i')
parse_log-Read position (some o) (posted_event spi ids) events s rest h i = cc
parse_log-Read position none (skipped_event index) events s rest h i =
    let same = ok-injective h in
    let i' = subst (λ t. Read (position + 1) t.1 events rest) (sym same) i in
    subst (λ t. Read position none (skipped_event index ∷ events) (prepend t.0 rest)) same
      (Outside-single position (skipped index) (skipped_event index) events rest refl tt i')
parse_log-Read position (some o) (skipped_event index) events s rest h i = cc

parse_from-Read :
    (position : ℕ) (o : Option Opened) (events : List Event) (items : List Item)
    → parse_from position o events ≡ ok items
    → Read position o events items
unfolding parse_from
parse_from-Read position none [] items h = record {
  kinds = [];
  logs = refl;
  written = tt;
  items_are = sym (ok-injective h);
}
parse_from-Read position (some o) [] items h = cc
parse_from-Read position o (e ∷ events) items h =
    let (s, rest, first, further, same) = parse_from-split position o e events items h in
    subst (Read position o (e ∷ events)) same (
      parse_log-Read position o e events s rest first
        (parse_from-Read (position + 1) s.1 events rest further))

-- The logs of a transaction parse into some items exactly when they are, one after the other, the
-- logs of posts, skips and entries whose roots are present and ascend, and the items are these with
-- the positions of their first and last logs.
pub parse_tx_iff :
    (events : List Event) (items : List Item)
    → (parse_tx events ≡ ok items) ↔ Outside 0 events items
unfolding parse_tx
parse_tx_iff events items = (
  parse_from-Read 0 none events items,
  λ i. rw (i.logs, i.items_are) (parse_tx-all_logs i.kinds i.written),
)
