-- ===== src/Optimistic/Gate.antt =====
-- The gate on emission.
use eez_rollup.Base.{
  ℕ, ◌≤◌, ◌<◌, ◌≡◌, ◌⊎◌, subst, ◌∙◌, [], ◌∷◌, true, ltb, leb, ◌||◌, Bool-cases, All, Option, none,
  some, inl, inr, if◌then◌else◌, arith,
}
use eez_rollup.Optimistic.{
  InFlight, Ledger, is_settled, is_settled_partial, lookup, find, blocking_height, resolve_entry,
  resolve_below_cursor,
}
use eez_rollup.Optimistic.Sorted.{IsSorted, AllBelow, heights}
use eez_rollup.Optimistic.History.{heights-resolve}

module _ {Header : Type 0} where
  -- The gate is open when all heights are covered, else it is held by the lowest that is not.
  abbrev pub Gate : Ledger Header → ℕ → Option ℕ → Type 0
  Gate l cursor none = All (λ p. p.0 ≤ cursor) l
  Gate l cursor (some k) =
      (cursor < k)
      × ((e : InFlight Header) × (lookup k l ≡ some e))
      × All (λ p. (p.0 ≤ cursor) ⊎ (k ≤ p.0)) l

  later_heights :
      (cursor k : ℕ) (l : Ledger Header)
      → AllBelow k (heights l)
      → All (λ p. (p.0 ≤ cursor) ⊎ (k ≤ p.0)) l
  later_heights cursor k [] below = tt
  later_heights cursor k ((h, e) ∷ l) below = (inr (omega arith), later_heights cursor k l below.1)

  blocking_height-cons :
      (h : ℕ) (e : InFlight Header) (l : Ledger Header) (cursor : ℕ)
      → blocking_height ((h, e) ∷ l) cursor
        ≡ (if ltb cursor h then some h else blocking_height l cursor)
  unfolding blocking_height find
  blocking_height-cons h e l cursor = ground arith

  lookup_here : (h : ℕ) (e : InFlight Header) (l : Ledger Header) → lookup h ((h, e) ∷ l) ≡ some e
  unfolding lookup
  lookup_here h e l = ground arith

  lookup_past :
      (h k : ℕ) (e : InFlight Header) (l : Ledger Header)
      → h < k
      → lookup k ((h, e) ∷ l) ≡ lookup k l
  unfolding lookup
  lookup_past h k e l le = ground arith

  Gate-cons :
      (h : ℕ) (e : InFlight Header) (l : Ledger Header) (cursor : ℕ) (o : Option ℕ)
      → h ≤ cursor
      → Gate l cursor o
      → Gate ((h, e) ∷ l) cursor o
  Gate-cons h e l cursor none le g = (le, g)
  Gate-cons h e l cursor (some k) le (above, (e', found), lowest) =
      (above, (e', lookup_past h k e l (omega arith) ∙ found), (inl le, lowest))

  -- The gate of a sorted ledger: it is open exactly when the cursor covers every entry, and
  -- otherwise tells the height of the lowest entry above the cursor.
  pub blocking_height-Gate :
      (l : Ledger Header) (cursor : ℕ) → IsSorted l → Gate l cursor (blocking_height l cursor)
  unfolding blocking_height find
  blocking_height-Gate [] cursor sorted = tt
  blocking_height-Gate ((h, e) ∷ l) cursor sorted = elim (Bool-cases (ltb cursor h)) [
    | inl above ↦
        let le : cursor < h = ground arith in
        rw (blocking_height-cons h e l cursor, above)
          (le, (e, lookup_here h e l), (inr (omega arith), later_heights cursor h l sorted.0))
    | inr covered ↦
        rw (blocking_height-cons h e l cursor, covered)
          (Gate-cons h e l cursor (blocking_height l cursor) (ground arith)
            (blocking_height-Gate l cursor sorted.1))
  ]

  abbrev pub Resolved : InFlight Header → Type 0
  Resolved e = (is_settled e.resolution || is_settled_partial e.resolution) ≡ true

  resolve_entry-Resolved : (e : InFlight Header) → Resolved (resolve_entry e).0
  unfolding resolve_entry
  resolve_entry-Resolved e = ground arith

  covered-Resolved :
      (l : Ledger Header) (cursor : ℕ)
      → All (λ p. p.0 ≤ cursor) (resolve_below_cursor l cursor).0
      → All (λ p. Resolved p.1) (resolve_below_cursor l cursor).0
  unfolding resolve_below_cursor
  covered-Resolved [] cursor h = tt
  covered-Resolved ((x, e) ∷ l) cursor h = elim (Bool-cases (leb x cursor)) [
    | inl covered ↦
        rw covered (resolve_entry-Resolved e, covered-Resolved l cursor (rw covered at h).1)
    | inr later ↦ let le : x ≤ cursor = (rw later at h).0 in absurd (ground arith)
  ]

  -- After the cursor has resolved a sorted ledger, an open gate means that no entry of it awaits an
  -- outcome: each is settled or partly settled.
  pub open_gate-Resolved :
      (l : Ledger Header) (cursor : ℕ)
      → IsSorted l
      → blocking_height (resolve_below_cursor l cursor).0 cursor ≡ none
      → All (λ p. Resolved p.1) (resolve_below_cursor l cursor).0
  open_gate-Resolved l cursor sorted is_open =
      let l' = (resolve_below_cursor l cursor).0 in
      let sorted' : IsSorted l' = rw (heights-resolve l cursor) sorted in
      let g : Gate l' cursor (blocking_height l' cursor) = blocking_height-Gate l' cursor sorted' in
      covered-Resolved l cursor (subst (Gate l' cursor) is_open g)
