-- ===== src/L1Head/Reorg.antt =====
-- What a reorg of L1 leaves of the index.
use eez_rollup.Base.{
  reverse-cons, ℕ, ◌-◌, ◌<◌, ◌≡◌, ◌↔◌, refl, sym, subst, ap, min, ◌∙◌, List, [], ◌∷◌, ◌++◌, reverse,
  leb, Bool-cases, Option-cases, All, Option, none, some, inl, inr, last, filter, length,
  length-append, arith,
}
use eez_rollup.Base.Results.{ok, err}
use eez_rollup.L1Head.{
  PostId, BatchRecord, L1CanonicalHead, at_or_below, retreated, retreat_on_l1_reorg, below_floor,
  last_l2_of, find_l2, highest_l2_at_or_below_l1,
}
use eez_rollup.L1Head.Ordered.{IsOrdered, IsOrdered-Cut, Within, Above, all_above, filter_above}
use eez_rollup.L1Head.Reachable.{Reachable, IsSound, FloorFirst, Reachable-IsSound}

abbrev pub or_else : Option ℕ → Option ℕ → Option ℕ
or_else none o = o
or_else (some n) o = some n

find_l2_append :
    (bound : ℕ) (xs ys : List BatchRecord)
    → find_l2 bound (xs ++ ys) ≡ or_else (find_l2 bound xs) (find_l2 bound ys)
find_l2_append bound [] ys = refl
find_l2_append bound (x ∷ xs) ys = ground (arith, find_l2_append bound xs ys)

abbrev pub or_zero : Option ℕ → ℕ
or_zero none = 0
or_zero (some n) = n

abbrev pub l2_of : Option BatchRecord → Option ℕ
l2_of none = none
l2_of (some b) = some b.last_l2_block

last-some : (x : BatchRecord) (xs : List BatchRecord) → (b : BatchRecord) × (last (x ∷ xs) ≡ some b)
last-some x [] = (x, refl)
last-some x (y ∷ xs) = last-some y xs

last_cons :
    (x : BatchRecord) (xs : List BatchRecord)
    → l2_of (last (x ∷ xs)) ≡ or_else (l2_of (last xs)) (some x.last_l2_block)
last_cons x [] = refl
last_cons x (y ∷ xs) = let (b, e) = last-some y xs in rw (e, last, l2_of) refl

or_else-none : (o : Option ℕ) → or_else o none ≡ o
or_else-none none = refl
or_else-none (some n) = refl

find_l2-reverse :
    (bound : ℕ) (bs : List BatchRecord)
    → find_l2 bound (reverse bs) ≡ l2_of (last (filter (at_or_below bound) bs))
find_l2-reverse bound [] = refl
find_l2-reverse bound (x ∷ xs) =
    rw (reverse-cons x xs, find_l2_append bound (reverse xs) (x ∷ []), find_l2-reverse bound xs)
      (elim (Bool-cases (leb x.post.l1_block bound)) [
        | inl low ↦ rw (low, find_l2, filter) (sym (last_cons x (filter (at_or_below bound) xs)))
        | inr high ↦ rw (high, find_l2, filter) (or_else-none _)
      ])

-- What a retreat to `ancestor` makes of a head, and what it tells.
pub record Retreated (s s' : L1CanonicalHead) (ancestor : ℕ) (told : ℕ × ℕ × ℕ) : Type 0 where
  pub dropped : List BatchRecord
  pub whole : s.batches ≡ s'.batches ++ dropped
  pub within : All (Within ancestor) s'.batches
  pub above : All (Above ancestor) dropped
  pub told_is : told ≡ (s'.cursor, s'.finalized_l2, length dropped)
  pub new_cursor : s'.cursor ≡ or_zero (highest_l2_at_or_below_l1 s ancestor)
  pub new_finalized : s'.finalized_l2 ≡ min s.finalized_l2 s'.cursor
  pub same_floor : s'.floor ≡ s.floor

or_zero-l2_of : (bs : List BatchRecord) → last_l2_of bs ≡ or_zero (l2_of (last bs))
or_zero-l2_of [] = refl
or_zero-l2_of (x ∷ []) = refl
or_zero-l2_of (x ∷ y ∷ xs) = or_zero-l2_of (y ∷ xs)

dropped_count :
    (bs kept dropped : List BatchRecord)
    → bs ≡ kept ++ dropped
    → length bs - length kept ≡ length dropped
dropped_count bs kept dropped e = rw e (omega (arith, length-append kept dropped))

retreated-Retreated :
    (s : L1CanonicalHead) (ancestor : ℕ)
    → IsSound s
    → Retreated s (retreated s ancestor).0 ancestor (retreated s ancestor).1
unfolding retreated highest_l2_at_or_below_l1
retreated-Retreated s ancestor v =
    let c = IsOrdered-Cut ancestor s.batches v.ordered in
    record {
      dropped = c.dropped;
      whole = rw c.filtered c.whole;
      within = rw c.filtered c.within;
      above = c.above;
      told_is =
          rw
            (dropped_count s.batches (filter (at_or_below ancestor) s.batches) c.dropped
              (rw c.filtered c.whole))
            refl;
      new_cursor =
          or_zero-l2_of (filter (at_or_below ancestor) s.batches)
          ∙ ap or_zero (sym (find_l2-reverse ancestor s.batches));
      new_finalized = refl;
      same_floor = refl;
    }

-- When a retreat of a reachable head succeeds, the records that it keeps are those at or below the
-- ancestor; they come first in the index, the answer counts the others and tells the new cursor and
-- finalized block, and the new cursor is the highest L2 block that the index had at or below the
-- ancestor.
pub retreat-Retreated :
    (s s' : L1CanonicalHead) (ancestor : ℕ) (told : ℕ × ℕ × ℕ)
    → Reachable s
    → retreat_on_l1_reorg s ancestor ≡ ok (s', told)
    → Retreated s s' ancestor told
unfolding retreat_on_l1_reorg
retreat-Retreated s s' ancestor told reached e =
    elim (Option-cases (below_floor s.floor ancestor)) [
      | inl low ↦
          let same : retreated s ancestor ≡ (s', told) = cc in
          subst (λ p. Retreated s p.0 ancestor p.1) same
            (retreated-Retreated s ancestor (Reachable-IsSound s reached))
      | inr (f, high) ↦ cc
    ]

-- What the first record of an ordered index tells of a bound: below it there is no post.
seeded_query :
    (floor : PostId) (bs : List BatchRecord) (ancestor : ℕ)
    → IsOrdered bs
    → FloorFirst (some floor) bs
    → (l2_of (last (filter (at_or_below ancestor) bs)) ≡ none) ↔ (ancestor < floor.l1_block)
seeded_query floor [] ancestor ordered first = absurd first
seeded_query floor (b ∷ bs) ancestor ordered first =
    let same : b.post.l1_block ≡ floor.l1_block = ap (λ p. p.l1_block) first in
    elim (Bool-cases (leb b.post.l1_block ancestor)) [
      | inl low ↦
          let (r, is_last) = last-some b (filter (at_or_below ancestor) bs) in
          let reached : ancestor < floor.l1_block → ⊥ = λ below. ground (arith, same) in
          rw (low, filter) (rw (is_last, l2_of) ((λ nothing. cc), λ below. absurd (reached below)))
      | inr high ↦
          let above = all_above ancestor b bs ordered (ground arith) in
          let below : ancestor < floor.l1_block = ground (arith, same) in
          rw (filter_above ancestor (b ∷ bs) above) ((λ nothing. below), λ under. refl)
    ]

refused :
    (s : L1CanonicalHead) (ancestor : ℕ) (floor : PostId)
    → s.floor ≡ some floor
    → (retreat_on_l1_reorg s ancestor ≡ err floor) ↔ (ancestor < floor.l1_block)
unfolding retreat_on_l1_reorg
refused s ancestor floor is_seeded = rw (is_seeded, below_floor) (ground arith)

-- A reachable head that was seeded refuses a retreat, with the post of its seed, exactly when the
-- index has no post at or below the ancestor, so that no confirmed L2 block would be left.
pub retreat-err_iff :
    (s : L1CanonicalHead) (ancestor : ℕ) (floor : PostId)
    → Reachable s
    → s.floor ≡ some floor
    → (retreat_on_l1_reorg s ancestor ≡ err floor) ↔ (highest_l2_at_or_below_l1 s ancestor ≡ none)
unfolding highest_l2_at_or_below_l1
retreat-err_iff s ancestor floor reached is_seeded =
    let v = Reachable-IsSound s reached in
    let first : FloorFirst (some floor) s.batches =
      subst (λ f. FloorFirst f s.batches) is_seeded v.seeded in
    let (empty, below) = seeded_query floor s.batches ancestor v.ordered first in
    let (low, refuses) = refused s ancestor floor is_seeded in
    let reads = find_l2-reverse ancestor s.batches in
    ((λ e. reads ∙ below (low e)), λ nothing. refuses (empty (sym reads ∙ nothing)))
