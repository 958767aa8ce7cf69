-- ===== src/L1Head/Replay.antt =====
-- Replays of posts: `append_many` against `append`, and a reorg that undoes a replay.
use eez_rollup.Base.{
  ℕ, ◌≤◌, ◌≡◌, refl, sym, ap, ap₂, ◌∙◌, List, [], ◌∷◌, ◌++◌, Bool, true, false, Bool-cases, All,
  All-append, Option, none, some, inl, inr, filter, max, min, append-nil, append_assoc, arith,
}
use eez_rollup.Base.Results.{ok}
use eez_rollup.L1Head.{
  PostId, BatchRecord, L1CanonicalHead, behind_tail, push_in_order, append, append_loop,
  append_many, raised_to, at_or_below, retreated, retreat_on_l1_reorg, below_floor,
}
use eez_rollup.L1Head.Ordered.{Within, Above, filter_above}
use eez_rollup.L1Head.Reachable.{
  Reachable, IsSound, FloorFirst, append_pushed, append_ignored, Reachable-IsSound,
}

abbrev pub append_each : L1CanonicalHead → List BatchRecord → L1CanonicalHead
append_each s [] = s
append_each s (r ∷ rs) = append_each (append s r) rs

raised_to-max : (cursor l2 : ℕ) → raised_to cursor l2 ≡ max cursor l2
raised_to-max cursor l2 = ground arith

append_loop_pushed :
    (bs : List BatchRecord) (n : ℕ) (r : BatchRecord) (rs : List BatchRecord)
    → behind_tail r.post bs ≡ false
    → append_loop bs n (r ∷ rs) ≡ append_loop (bs ++ (r ∷ [])) (max n r.last_l2_block) rs
unfolding append_loop push_in_order
append_loop_pushed bs n r rs ahead = ground arith

append_loop_ignored :
    (bs : List BatchRecord) (n : ℕ) (r : BatchRecord) (rs : List BatchRecord)
    → behind_tail r.post bs ≡ true
    → append_loop bs n (r ∷ rs) ≡ append_loop bs n rs
unfolding append_loop push_in_order
append_loop_ignored bs n r rs behind = ground arith

append_many-cons :
    (s : L1CanonicalHead) (r : BatchRecord) (rs : List BatchRecord)
    → append_many s (r ∷ rs) ≡ append_many (append s r) rs
unfolding append_many
append_many-cons s r rs = elim (Bool-cases (behind_tail r.post s.batches)) [
  | inl behind ↦
      rw (append_loop_ignored s.batches s.cursor r rs behind, append_ignored s r behind) refl
  | inr ahead ↦
      rw
        (
          append_loop_pushed s.batches s.cursor r rs ahead,
          append_pushed s r ahead,
          raised_to-max s.cursor r.last_l2_block,
        )
        refl
]

append_many-nil : (s : L1CanonicalHead) → append_many s [] ≡ s
unfolding append_many append_loop
append_many-nil s = refl

-- Appending a list of records under one lock is appending them one by one.
pub append_many_lem :
    (s : L1CanonicalHead) (rs : List BatchRecord) → append_many s rs ≡ append_each s rs
append_many_lem s [] = append_many-nil s
append_many_lem s (r ∷ rs) = append_many-cons s r rs ∙ append_many_lem (append s r) rs

-- Undoing a replay.
filter_append :
    (p : BatchRecord → Bool) (xs ys : List BatchRecord)
    → filter p (xs ++ ys) ≡ filter p xs ++ filter p ys
filter_append p [] ys = refl
filter_append p (x ∷ xs) ys = elim (Bool-cases (p x)) [
  | inl in_ ↦ rw (in_, filter) (ap (◌∷◌ x) (filter_append p xs ys))
  | inr out ↦ rw (out, filter) (filter_append p xs ys)
]

filter-Within :
    (bound : ℕ) (bs : List BatchRecord) → All (Within bound) bs → filter (at_or_below bound) bs ≡ bs
filter-Within bound [] h = refl
filter-Within bound (x ∷ xs) h = let rest = filter-Within bound xs h.1 in ground arith

-- What a replay of records above `bound` leaves unchanged.
record Extends (bound : ℕ) (s s' : L1CanonicalHead) : Type 0 where
  added : List BatchRecord
  batches : s'.batches ≡ s.batches ++ added
  above : All (Above bound) added
  same_finalized : s'.finalized_l2 ≡ s.finalized_l2
  same_floor : s'.floor ≡ s.floor

append-Extends :
    (bound : ℕ) (s : L1CanonicalHead) (r : BatchRecord)
    → Above bound r
    → Extends bound s (append s r)
append-Extends bound s r h = elim (Bool-cases (behind_tail r.post s.batches)) [
  | inl behind ↦ rw (append_ignored s r behind) (record {
    added = [];
    batches = sym (append-nil s.batches);
    above = tt;
    same_finalized = refl;
    same_floor = refl;
  })
  | inr ahead ↦ rw (append_pushed s r ahead) (record {
    added = r ∷ [];
    batches = refl;
    above = (h, tt);
    same_finalized = refl;
    same_floor = refl;
  })
]

append_each-Extends :
    (bound : ℕ) (s : L1CanonicalHead) (rs : List BatchRecord)
    → All (Above bound) rs
    → Extends bound s (append_each s rs)
append_each-Extends bound s [] h = record {
  added = [];
  batches = sym (append-nil s.batches);
  above = tt;
  same_finalized = refl;
  same_floor = refl;
}
append_each-Extends bound s (r ∷ rs) h =
    let first = append-Extends bound s r h.0 in
    let rest = append_each-Extends bound (append s r) rs h.1 in
    record {
      added = first.added ++ rest.added;
      batches =
          rest.batches
          ∙ ap (λ l. l ++ rest.added) first.batches
          ∙ append_assoc s.batches first.added rest.added;
      above = All-append (Above bound) first.added rest.added first.above rest.above;
      same_finalized = rest.same_finalized ∙ first.same_finalized;
      same_floor = rest.same_floor ∙ first.same_floor;
    }

Extends-retreated :
    (bound : ℕ) (s s' : L1CanonicalHead)
    → IsSound s
    → All (Within bound) s.batches
    → Extends bound s s'
    → (retreated s' bound).0 ≡ s
unfolding retreated
Extends-retreated bound s s' v within e =
    let kept : filter (at_or_below bound) s'.batches ≡ s.batches = rw e.batches (
      filter_append (at_or_below bound) s.batches e.added
      ∙ ap₂ ◌++◌ (filter-Within bound s.batches within) (filter_above bound e.added e.above)
      ∙ append-nil s.batches) in
    let least : min s.finalized_l2 s.cursor ≡ s.finalized_l2 = omega (arith, v.bounded) in
    rw (kept, sym v.confirmed, e.same_floor, e.same_finalized, least) refl

floor-Within :
    (bound : ℕ) (f : Option PostId) (bs : List BatchRecord)
    → FloorFirst f bs
    → All (Within bound) bs
    → below_floor f bound ≡ none
floor-Within bound none bs first h = refl
floor-Within bound (some f) [] first h = absurd first
floor-Within bound (some f) (b ∷ bs) first h =
    let low : f.l1_block ≤ bound = rw (sym first) h.0 in ground arith

unrefused :
    (s : L1CanonicalHead) (ancestor : ℕ)
    → below_floor s.floor ancestor ≡ none
    → retreat_on_l1_reorg s ancestor ≡ ok (retreated s ancestor)
unfolding retreat_on_l1_reorg
unrefused s ancestor low = ground arith

-- From a reachable head whose posts are all at or below an L1 block, replaying posts above that
-- block and then retreating to it gives the head back.
pub retreat-append_many :
    (s : L1CanonicalHead) (rs : List BatchRecord) (ancestor : ℕ)
    → Reachable s
    → All (Within ancestor) s.batches
    → All (Above ancestor) rs
    → (told : ℕ × ℕ × ℕ) × (retreat_on_l1_reorg (append_many s rs) ancestor ≡ ok (s, told))
retreat-append_many s rs ancestor reached within above =
    let v = Reachable-IsSound s reached in
    let s' = append_each s rs in
    let e = append_each-Extends ancestor s rs above in
    let low = floor-Within ancestor s.floor s.batches v.seeded within in
    let low' : below_floor s'.floor ancestor ≡ none = rw e.same_floor low in
    (
      (retreated s' ancestor).1,
      rw (append_many_lem s rs) (
          unrefused s' ancestor low'
          ∙ ap (λ t. ok (t, (retreated s' ancestor).1))
              (Extends-retreated ancestor s s' v within e)),
    )
