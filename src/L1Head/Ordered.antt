-- ===== src/L1Head/Ordered.antt =====
-- The order of the indexed posts.
use eez_rollup.Base.{
  ℕ, ◌≤◌, ◌<◌, ◌≡◌, refl, List, [], ◌∷◌, ◌++◌, true, false, leb, Bool-cases, All, inl, inr, filter,
  Chain, LastTo, Chain-snoc, Chain-tail, arith, ap,
}
use eez_rollup.L1Head.{BatchRecord, at_or_before, at_or_below, behind_tail, push_in_order}

-- The later post is not at or before the earlier one.
abbrev pub Before : BatchRecord → BatchRecord → Type 0
Before a b = at_or_before b.post a.post ≡ false

abbrev pub IsOrdered : List BatchRecord → Type 0
IsOrdered = Chain Before

abbrev pub Rises : BatchRecord → BatchRecord → Type 0
Rises a b = a.last_l2_block ≤ b.last_l2_block

abbrev pub Within : ℕ → BatchRecord → Type 0
Within bound b = b.post.l1_block ≤ bound

abbrev pub Above : ℕ → BatchRecord → Type 0
Above bound b = bound < b.post.l1_block

pub Before-l1_block : (a b : BatchRecord) → Before a b → a.post.l1_block ≤ b.post.l1_block
unfolding at_or_before
Before-l1_block a b h = ground arith

pub LastTo-push :
    (bs : List BatchRecord) (r : BatchRecord) → behind_tail r.post bs ≡ false → LastTo Before bs r
LastTo-push [] r h = tt
LastTo-push (x ∷ []) r h = h
LastTo-push (x ∷ y ∷ xs) r h = LastTo-push (y ∷ xs) r h

pub push_in_order-IsOrdered :
    (bs : List BatchRecord) (r : BatchRecord) → IsOrdered bs → IsOrdered (push_in_order bs r).0
unfolding push_in_order
push_in_order-IsOrdered bs r h = elim (Bool-cases (behind_tail r.post bs)) [
  | inl behind ↦ rw behind h
  | inr ahead ↦ rw ahead (Chain-snoc Before bs r h (LastTo-push bs r ahead))
]

pub all_above :
    (bound : ℕ) (x : BatchRecord) (xs : List BatchRecord)
    → IsOrdered (x ∷ xs)
    → bound < x.post.l1_block
    → All (Above bound) (x ∷ xs)
all_above bound x [] h above = (above, tt)
all_above bound x (y ∷ xs) h above =
    (above, all_above bound y xs h.1 (omega (arith, Before-l1_block x y h.0)))

pub filter_above :
    (bound : ℕ) (bs : List BatchRecord) → All (Above bound) bs → filter (at_or_below bound) bs ≡ []
filter_above bound [] h = refl
filter_above bound (x ∷ xs) h = let rest = filter_above bound xs h.1 in ground arith

-- A bound cuts the index into the records at or below it, which come first, and those above it.
pub record Cut (bound : ℕ) (bs : List BatchRecord) : Type 0 where
  pub kept : List BatchRecord
  pub dropped : List BatchRecord
  pub whole : bs ≡ kept ++ dropped
  pub filtered : filter (at_or_below bound) bs ≡ kept
  pub within : All (Within bound) kept
  pub above : All (Above bound) dropped

Cut-cons :
    (bound : ℕ) (x : BatchRecord) (xs : List BatchRecord)
    → leb x.post.l1_block bound ≡ true
    → Cut bound xs
    → Cut bound (x ∷ xs)
Cut-cons bound x xs low c = record {
  kept = x ∷ c.kept;
  dropped = c.dropped;
  whole = ap (◌∷◌ x) c.whole;
  filtered = rw (low, filter) (ap (◌∷◌ x) c.filtered);
  within = (ground arith, c.within);
  above = c.above;
}

pub IsOrdered-Cut : (bound : ℕ) (bs : List BatchRecord) → IsOrdered bs → Cut bound bs
IsOrdered-Cut bound [] h = record {
  kept = [];
  dropped = [];
  whole = refl;
  filtered = refl;
  within = tt;
  above = tt;
}
IsOrdered-Cut bound (x ∷ xs) h = elim (Bool-cases (leb x.post.l1_block bound)) [
  | inl low ↦ Cut-cons bound x xs low (IsOrdered-Cut bound xs (Chain-tail Before x xs h))
  | inr high ↦
      let above = all_above bound x xs h (ground arith) in
      record {
        kept = [];
        dropped = x ∷ xs;
        whole = refl;
        filtered = filter_above bound (x ∷ xs) above;
        within = tt;
        above = above;
      }
]
