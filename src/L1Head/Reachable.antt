-- ===== src/L1Head/Reachable.antt =====
-- The heads that the calls of the methods reach, and their invariant.
use eez_rollup.Base.{
  ℕ, ◌≤◌, ◌≡◌, refl, sym, subst, ◌∙◌, List, [], ◌∷◌, ◌++◌, true, false, leb, Bool-cases,
  Option-cases, Option, none, some, inl, inr, filter, Chain, LastTo, Chain-snoc, Chain-prefix,
  arith,
}
use eez_rollup.Base.Results.{ok}
use eez_rollup.L1Head.{
  PostId, BatchRecord, L1CanonicalHead, at_or_below, behind_tail, push_in_order, empty_head, seed,
  seeded, seed_empty, append, raised_to, retreated, retreat_on_l1_reorg, below_floor,
  set_finalized_l2, last_l2_of,
}
use eez_rollup.L1Head.Ordered.{Before, IsOrdered, Rises, LastTo-push, IsOrdered-Cut}

-- What the callers keep to: a new batch ends at or after the cursor, and the finalized block does
-- not pass the cursor.
pub data Reachable : L1CanonicalHead → Type 0 where
  starts : Reachable empty_head
  seeds :
      (s s' : L1CanonicalHead) (r : BatchRecord) → Reachable s → seed s r ≡ some s' → Reachable s'
  appends :
      (s : L1CanonicalHead) (r : BatchRecord)
      → Reachable s
      → s.cursor ≤ r.last_l2_block
      → Reachable (append s r)
  retreats :
      (s : L1CanonicalHead) (ancestor : ℕ) {after : L1CanonicalHead × (ℕ × ℕ × ℕ)}
      → Reachable s
      → retreat_on_l1_reorg s ancestor ≡ ok after
      → Reachable after.0
  finalizes :
      (s : L1CanonicalHead) (n : ℕ) → Reachable s → n ≤ s.cursor → Reachable (set_finalized_l2 s n)

-- The floor is the post of the first record.
abbrev pub FloorFirst : Option PostId → List BatchRecord → Type 0
FloorFirst none bs = Unit {0}
FloorFirst (some floor) [] = ⊥
FloorFirst (some floor) (b ∷ bs) = b.post ≡ floor

pub record IsSound (s : L1CanonicalHead) : Type 0 where
  pub ordered : IsOrdered s.batches
  pub rising : Chain Rises s.batches
  pub confirmed : s.cursor ≡ last_l2_of s.batches
  pub bounded : s.finalized_l2 ≤ s.cursor
  pub seeded : FloorFirst s.floor s.batches

last_l2_of-snoc :
    (bs : List BatchRecord) (r : BatchRecord) → last_l2_of (bs ++ (r ∷ [])) ≡ r.last_l2_block
last_l2_of-snoc [] r = refl
last_l2_of-snoc (x ∷ []) r = refl
last_l2_of-snoc (x ∷ y ∷ bs) r = last_l2_of-snoc (y ∷ bs) r

LastTo-Rises :
    (bs : List BatchRecord) (r : BatchRecord) → last_l2_of bs ≤ r.last_l2_block → LastTo Rises bs r
LastTo-Rises [] r h = tt
LastTo-Rises (x ∷ []) r h = h
LastTo-Rises (x ∷ y ∷ xs) r h = LastTo-Rises (y ∷ xs) r h

FloorFirst-snoc :
    (f : Option PostId) (bs : List BatchRecord) (r : BatchRecord)
    → FloorFirst f bs
    → FloorFirst f (bs ++ (r ∷ []))
FloorFirst-snoc none bs r h = tt
FloorFirst-snoc (some floor) [] r h = absurd h
FloorFirst-snoc (some floor) (b ∷ bs) r h = h

raised_to-ge : (cursor l2 : ℕ) → cursor ≤ l2 → raised_to cursor l2 ≡ l2
raised_to-ge cursor l2 h = ground arith

seeded-IsSound : (r : BatchRecord) → IsSound (seeded r)
seeded-IsSound r = record {
  ordered = tt;
  rising = tt;
  confirmed = refl;
  bounded = omega arith;
  seeded = refl;
}

seed_empty-IsSound :
    (bs : List BatchRecord) (s' : L1CanonicalHead) (r : BatchRecord)
    → seed_empty bs r ≡ some s'
    → IsSound s'
seed_empty-IsSound (b ∷ bs) s' r e = cc
seed_empty-IsSound [] s' r e =
    let same : seeded r ≡ s' = cc in subst IsSound same (seeded-IsSound r)

pub append_pushed :
    (s : L1CanonicalHead) (r : BatchRecord)
    → behind_tail r.post s.batches ≡ false
    → append s r
      ≡ record s { batches = s.batches ++ (r ∷ []); cursor = raised_to s.cursor r.last_l2_block }
unfolding append push_in_order
append_pushed s r ahead = ground arith

pub append_ignored :
    (s : L1CanonicalHead) (r : BatchRecord) → behind_tail r.post s.batches ≡ true → append s r ≡ s
unfolding append push_in_order
append_ignored s r behind = ground arith

append-IsSound :
    (s : L1CanonicalHead) (r : BatchRecord)
    → IsSound s
    → s.cursor ≤ r.last_l2_block
    → IsSound (append s r)
append-IsSound s r v h = elim (Bool-cases (behind_tail r.post s.batches)) [
  | inl behind ↦ rw (append_ignored s r behind) v
  | inr ahead ↦ rw (append_pushed s r ahead) (record {
    ordered = Chain-snoc Before s.batches r v.ordered (LastTo-push s.batches r ahead);
    rising =
        Chain-snoc Rises s.batches r v.rising
          (LastTo-Rises s.batches r (omega (arith, v.confirmed)));
    confirmed = raised_to-ge s.cursor r.last_l2_block h ∙ sym (last_l2_of-snoc s.batches r);
    bounded = ground (arith, v.bounded);
    seeded = FloorFirst-snoc s.floor s.batches r v.seeded;
  })
]

below_floor-none : (f : PostId) (a : ℕ) → below_floor (some f) a ≡ none → f.l1_block ≤ a
below_floor-none f a h = ground arith

FloorFirst-filter :
    (f : Option PostId) (bs : List BatchRecord) (a : ℕ)
    → below_floor f a ≡ none
    → FloorFirst f bs
    → FloorFirst f (filter (at_or_below a) bs)
FloorFirst-filter none bs a h first = tt
FloorFirst-filter (some floor) [] a h first = first
FloorFirst-filter (some floor) (b ∷ bs) a h first = elim (Bool-cases (leb b.post.l1_block a)) [
  | inl low ↦ rw (low, filter) first
  | inr high ↦ absurd (grind arith)
]

retreated-IsSound :
    (s : L1CanonicalHead) (a : ℕ)
    → below_floor s.floor a ≡ none
    → IsSound s
    → IsSound (retreated s a).0
unfolding retreated
retreated-IsSound s a h v =
    let c = IsOrdered-Cut a s.batches v.ordered in
    record {
      ordered = rw c.filtered (Chain-prefix Before c.kept c.dropped (rw c.whole at v.ordered));
      rising = rw c.filtered (Chain-prefix Rises c.kept c.dropped (rw c.whole at v.rising));
      confirmed = refl;
      bounded = omega arith;
      seeded = FloorFirst-filter s.floor s.batches a h v.seeded;
    }

retreats-IsSound :
    (s : L1CanonicalHead) (a : ℕ) {after : L1CanonicalHead × (ℕ × ℕ × ℕ)}
    → IsSound s
    → retreat_on_l1_reorg s a ≡ ok after
    → IsSound after.0
unfolding retreat_on_l1_reorg
retreats-IsSound s a {after} v e = elim (Option-cases (below_floor s.floor a)) [
  | inl low ↦
      let same : retreated s a ≡ after = cc in
      subst (λ p. IsSound p.0) same (retreated-IsSound s a low v)
  | inr (f, high) ↦ cc
]

-- Every reachable head is sound: the index is in L1 order, its L2 blocks do not fall, the cursor is
-- the L2 block of the last record or 0, the finalized block is at most the cursor, and a seeded
-- index still begins with the seed's post.
pub Reachable-IsSound : (s : L1CanonicalHead) → Reachable s → IsSound s
unfolding set_finalized_l2 seed
Reachable-IsSound _ starts = record {
  ordered = tt;
  rising = tt;
  confirmed = refl;
  bounded = omega arith;
  seeded = tt;
}
Reachable-IsSound _ (seeds s s' r h e) = seed_empty-IsSound s.batches s' r e
Reachable-IsSound _ (appends s r h up) = append-IsSound s r (Reachable-IsSound s h) up
Reachable-IsSound _ (retreats s a h e) = retreats-IsSound s a (Reachable-IsSound s h) e
Reachable-IsSound _ (finalizes s n h le) =
    let v = Reachable-IsSound s h in
    record {
      ordered = v.ordered;
      rising = v.rising;
      confirmed = v.confirmed;
      bounded = le;
      seeded = v.seeded;
    }
