-- ===== src/Optimistic/Sorted.antt =====
-- The ledger as a map: its heights ascend, and what the operations of the map do to them.
use eez_rollup.Base.{
  ℕ, ◌<◌, ◌≡◌, refl, ap, ◌∙◌, List, [], ◌∷◌, Bool, ltb, ◌==◌, Bool-cases, All, some, inl, inr,
  if◌then◌else◌, arith,
}
use eez_rollup.Optimistic.{
  InFlight, Ledger, lookup, insert, remove, update, heights_where, take_heights,
}

abbrev pub Ascends : List ℕ → Type 0
Ascends [] = Unit {0}
Ascends (h ∷ hs) = All (λ k. h < k) hs × Ascends hs

abbrev pub AllBelow : ℕ → List ℕ → Type 0
AllBelow h hs = All (λ k. h < k) hs

AllBelow-trans : (h k : ℕ) (hs : List ℕ) → h < k → AllBelow k hs → AllBelow h hs
AllBelow-trans h k [] le below = tt
AllBelow-trans h k (x ∷ hs) le below = (omega (arith, below.0), AllBelow-trans h k hs le below.1)

module _ {Header : Type 0} where
  abbrev pub heights : Ledger Header → List ℕ
  heights [] = []
  heights ((h, e) ∷ l) = h ∷ heights l

  abbrev pub IsSorted : Ledger Header → Type 0
  IsSorted l = Ascends (heights l)

  insert-AllBelow :
      (h k : ℕ) (v : InFlight Header) (l : Ledger Header)
      → h < k
      → AllBelow h (heights l)
      → AllBelow h (heights (insert k v l))
  unfolding insert
  insert-AllBelow h k v [] le below = (le, tt)
  insert-AllBelow h k v ((x, e) ∷ l) le below = elim (Bool-cases (ltb k x)) [
    | inl first ↦ rw (first) (le, below)
    | inr later ↦ elim (Bool-cases (k == x)) [
      | inl same ↦ rw (later, same) (le, below.1)
      | inr other ↦ rw (later, other) (below.0, insert-AllBelow h k v l le below.1)
    ]
  ]

  pub insert-IsSorted :
      (k : ℕ) (v : InFlight Header) (l : Ledger Header) → IsSorted l → IsSorted (insert k v l)
  unfolding insert
  insert-IsSorted k v [] h = (tt, tt)
  insert-IsSorted k v ((x, e) ∷ l) h = elim (Bool-cases (ltb k x)) [
    | inl first ↦
        let le : k < x = ground arith in rw first ((le, AllBelow-trans k x (heights l) le h.0), h)
    | inr later ↦ elim (Bool-cases (k == x)) [
      | inl same ↦ let e : k ≡ x = ground arith in rw (later, same) (rw e h.0, h.1)
      | inr other ↦
          let le : x < k = ground arith in
          rw (later, other) (insert-AllBelow x k v l le h.0, insert-IsSorted k v l h.1)
    ]
  ]

  remove-AllBelow :
      (h k : ℕ) (l : Ledger Header) → AllBelow h (heights l) → AllBelow h (heights (remove k l))
  unfolding remove
  remove-AllBelow h k [] below = tt
  remove-AllBelow h k ((x, e) ∷ l) below = elim (Bool-cases (k == x)) [
    | inl same ↦ rw same below.1
    | inr other ↦ rw other (below.0, remove-AllBelow h k l below.1)
  ]

  pub remove-IsSorted : (k : ℕ) (l : Ledger Header) → IsSorted l → IsSorted (remove k l)
  unfolding remove
  remove-IsSorted k [] h = tt
  remove-IsSorted k ((x, e) ∷ l) h = elim (Bool-cases (k == x)) [
    | inl same ↦ rw same h.1
    | inr other ↦ rw other (remove-AllBelow x k l h.0, remove-IsSorted k l h.1)
  ]

  pub heights-update :
      (k : ℕ) (f : InFlight Header → InFlight Header) (l : Ledger Header)
      → heights (update k f l) ≡ heights l
  unfolding update
  heights-update k f [] = refl
  heights-update k f ((x, e) ∷ l) = elim (Bool-cases (k == x)) [
    | inl same ↦ rw same refl
    | inr other ↦ rw other (ap (◌∷◌ x) (heights-update k f l))
  ]

  -- What the taking of the entries that pass a test leaves and takes.
  abbrev pub without : (ℕ → InFlight Header → Bool) → Ledger Header → Ledger Header
  without p [] = []
  without p ((h, e) ∷ l) = let rest = without p l in if p h e then rest else (h, e) ∷ rest

  abbrev pub those : (ℕ → InFlight Header → Bool) → Ledger Header → Ledger Header
  those p [] = []
  those p ((h, e) ∷ l) = let rest = those p l in if p h e then (h, e) ∷ rest else rest

  without-AllBelow :
      (p : ℕ → InFlight Header → Bool) (h : ℕ) (l : Ledger Header)
      → AllBelow h (heights l)
      → AllBelow h (heights (without p l))
  without-AllBelow p h [] below = tt
  without-AllBelow p h ((x, e) ∷ l) below = elim (Bool-cases (p x e)) [
    | inl passes ↦ rw (passes, without) (without-AllBelow p h l below.1)
    | inr fails ↦ rw (fails, without) (below.0, without-AllBelow p h l below.1)
  ]

  pub without-IsSorted :
      (p : ℕ → InFlight Header → Bool) (l : Ledger Header) → IsSorted l → IsSorted (without p l)
  without-IsSorted p [] h = tt
  without-IsSorted p ((x, e) ∷ l) h = elim (Bool-cases (p x e)) [
    | inl passes ↦ rw (passes, without) (without-IsSorted p l h.1)
    | inr fails ↦ rw (fails, without) (without-AllBelow p x l h.0, without-IsSorted p l h.1)
  ]

  heights_where-AllBelow :
      (p : ℕ → InFlight Header → Bool) (h : ℕ) (l : Ledger Header)
      → AllBelow h (heights l)
      → AllBelow h (heights_where p l)
  unfolding heights_where
  heights_where-AllBelow p h [] below = tt
  heights_where-AllBelow p h ((x, e) ∷ l) below = elim (Bool-cases (p x e)) [
    | inl passes ↦ rw passes (below.0, heights_where-AllBelow p h l below.1)
    | inr fails ↦ rw fails (heights_where-AllBelow p h l below.1)
  ]

  remove_head : (h : ℕ) (e : InFlight Header) (l : Ledger Header) → remove h ((h, e) ∷ l) ≡ l
  unfolding remove
  remove_head h e l = ground arith

  lookup_head : (h : ℕ) (e : InFlight Header) (l : Ledger Header) → lookup h ((h, e) ∷ l) ≡ some e
  unfolding lookup
  lookup_head h e l = ground arith

  remove_below :
      (h k : ℕ) (e : InFlight Header) (l : Ledger Header)
      → h < k
      → remove k ((h, e) ∷ l) ≡ (h, e) ∷ remove k l
  unfolding remove
  remove_below h k e l le = ground arith

  lookup_below :
      (h k : ℕ) (e : InFlight Header) (l : Ledger Header)
      → h < k
      → lookup k ((h, e) ∷ l) ≡ lookup k l
  unfolding lookup
  lookup_below h k e l le = ground arith

  take_heights_below :
      (h : ℕ) (e : InFlight Header) (hs : List ℕ) (l : Ledger Header)
      → AllBelow h hs
      → take_heights hs ((h, e) ∷ l) ≡ ((h, e) ∷ (take_heights hs l).0, (take_heights hs l).1)
  unfolding take_heights
  take_heights_below h e [] l below = refl
  take_heights_below h e (k ∷ hs) l below =
      rw
        (
          remove_below h k e l below.0,
          lookup_below h k e l below.0,
          take_heights_below h e hs (remove k l) below.1,
        )
        refl

  pub take_heights_lem :
      (p : ℕ → InFlight Header → Bool) (l : Ledger Header)
      → IsSorted l
      → take_heights (heights_where p l) l ≡ (without p l, those p l)
  unfolding take_heights heights_where
  take_heights_lem p [] h = refl
  take_heights_lem p ((x, e) ∷ l) h = elim (Bool-cases (p x e)) [
    | inl passes ↦
        rw (passes, without, those, remove_head x e l, lookup_head x e l, take_heights_lem p l h.1)
          refl
    | inr fails ↦
        rw (fails, without, those)
          (take_heights_below x e (heights_where p l) l (heights_where-AllBelow p x l h.0)
            ∙ ap (λ r. ((x, e) ∷ r.0, r.1)) (take_heights_lem p l h.1))
  ]
