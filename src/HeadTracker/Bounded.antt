-- ===== src/HeadTracker/Bounded.antt =====
-- What one observation does to the tracked heads.
use eez_rollup.Base.{
  ℕ, ◌+◌, ◌≤◌, min, ◌≡◌, ◌≢◌, ◌⊎◌, ◌∙◌, refl, [], ◌∷◌, Bool, true, false, ltb, ◌==◌, if◌then◌else◌,
  length, Option, none, some, arith, inl, inr, Bool-cases, Option-cases,
}
use eez_rollup.HeadTracker.{
  Source, VerifiedHead, Observation, new, stale, future, duplicate, equivocation, same_source,
  earlier, Latest, source_of, lookup, insert, remove, oldest_from, track, follow, observe,
  max_sources, max_future_ms, u64_limit, oldest_key,
}

same_source→eq : (a b : Source) → same_source a b ≡ true → a ≡ b
same_source→eq a b e = ground arith

same_source_refl : (a : Source) → same_source a a ≡ true
same_source_refl a = ground arith

module _ {Block : Type 0} where
  abbrev pub is_some : Option (VerifiedHead Block) → Bool
  is_some none = false
  is_some (some h) = true

  lookup-insert :
      (s : Source) (h : VerifiedHead Block) (m : Latest Block) → lookup s (insert s h m) ≡ some h
  unfolding lookup insert
  lookup-insert s h [] = ground (arith, same_source_refl s)
  lookup-insert s h ((k, g) ∷ m) = ground (arith, lookup-insert s h m)

  lookup-remove :
      (s o : Source) (m : Latest Block)
      → same_source o s ≡ false
      → lookup s (remove o m) ≡ lookup s m
  unfolding lookup remove
  lookup-remove s o [] e = refl
  lookup-remove s o ((k, g) ∷ m) e =
      ground
        (arith, lookup-remove s o m, same_source→eq k s, same_source→eq k o, same_source_refl s)

  remove-insert :
      (s : Source) (h : VerifiedHead Block) (m : Latest Block)
      → lookup s m ≡ none
      → remove s (insert s h m) ≡ m
  unfolding lookup insert remove
  remove-insert s h [] e = ground (arith, same_source_refl s)
  remove-insert s h ((k, g) ∷ m) e = ground (arith, remove-insert s h m)

  length-insert :
      (s : Source) (h : VerifiedHead Block) (m : Latest Block)
      → length (insert s h m) ≡ (if is_some (lookup s m) then length m else length m + 1)
  unfolding lookup insert
  length-insert s h [] = refl
  length-insert s h ((k, g) ∷ m) = ground (arith, length-insert s h m)

  length-remove :
      (s : Source) (m : Latest Block)
      → length (remove s m) + (if is_some (lookup s m) then 1 else 0) ≤ length m
  unfolding lookup remove
  length-remove s [] = omega arith
  length-remove s ((k, g) ∷ m) = ground (arith, length-remove s m)

  lookup_head :
      (o k : Source) (g : VerifiedHead Block) (m : Latest Block)
      → o ≡ k
      → is_some (lookup o ((k, g) ∷ m)) ≡ true
  unfolding lookup
  lookup_head o k g m e = rw e (ground (arith, same_source_refl k))

  lookup_rest :
      (o k : Source) (g : VerifiedHead Block) (m : Latest Block)
      → is_some (lookup o m) ≡ true
      → is_some (lookup o ((k, g) ∷ m)) ≡ true
  unfolding lookup
  lookup_rest o k g m e = ground arith

  -- The oldest key is the one it starts from or one of the map.
  oldest_in :
      (s : Source) (m : Latest Block)
      → (oldest_from s m ≡ s) ⊎ (is_some (lookup (oldest_from s m) m) ≡ true)
  unfolding oldest_from
  oldest_in s [] = inl refl
  oldest_in s ((k, g) ∷ m) = pick (earlier k s) (λ t. oldest_in t m)
    where
      pick :
          (b : Bool)
          → ((t : Source) → (oldest_from t m ≡ t) ⊎ (is_some (lookup (oldest_from t m) m) ≡ true))
          → let o = oldest_from (if b then k else s) m in
            (o ≡ s) ⊎ (is_some (lookup o ((k, g) ∷ m)) ≡ true)
      pick true found = elim (found k) [
        | inl own ↦ inr (lookup_head (oldest_from k m) k g m own)
        | inr further ↦ inr (lookup_rest (oldest_from k m) k g m further)
      ]
      pick false found = elim (found s) [
        | inl own ↦ inl own
        | inr further ↦ inr (lookup_rest (oldest_from s m) k g m further)
      ]

  oldest_tracked :
      (k : Source) (g : VerifiedHead Block) (m : Latest Block)
      → is_some (lookup (oldest_from k m) ((k, g) ∷ m)) ≡ true
  oldest_tracked k g m = elim (oldest_in k m) [
    | inl own ↦ lookup_head (oldest_from k m) k g m own
    | inr further ↦ lookup_rest (oldest_from k m) k g m further
  ]

  evicted_bounded :
      (s : Source) (n : ℕ) (m : Latest Block)
      → length m ≤ n + 1
      → length (remove (oldest_key s m) m) ≤ n
  unfolding remove
  evicted_bounded s n [] h = omega arith
  evicted_bounded s n ((k, g) ∷ m) h =
      ground (arith, oldest_tracked k g m, length-remove (oldest_from k m) ((k, g) ∷ m))

  track_bounded :
      (m : Latest Block) (head : VerifiedHead Block)
      → length m ≤ max_sources
      → length (track m head).0 ≤ max_sources
  unfolding track
  track_bounded m head h =
      let m' = insert (source_of head) head m in
      let grown : length m' ≤ max_sources + 1 =
        ground (arith, length-insert (source_of head) head m) in
      elim (Bool-cases (ltb max_sources (length m'))) [
        | inl over ↦ rw over (evicted_bounded (source_of head) max_sources m' grown)
        | inr within ↦ rw within (ground arith)
      ]

  follow_bounded :
      (m : Latest Block) (head cur : VerifiedHead Block)
      → lookup (source_of head) m ≡ some cur
      → length m ≤ max_sources
      → length (follow m head cur).0 ≤ max_sources
  unfolding follow
  follow_bounded m head cur e h = ground (arith, length-insert (source_of head) head m)

  -- If no more than the allowed number of sources is tracked before an observation, then no more
  -- is tracked after it.
  pub observe_bounded :
      (m : Latest Block) (head : VerifiedHead Block) (now_ms : ℕ)
      → length m ≤ max_sources
      → length (observe m head now_ms).0 ≤ max_sources
  unfolding observe
  observe_bounded m head now_ms h =
      elim (Bool-cases (ltb (min (now_ms + max_future_ms) u64_limit) head.claim.epoch_ms)) [
        | inl ahead ↦ rw ahead h
        | inr due ↦ elim (Option-cases (lookup (source_of head) m)) [
          | inl fresh ↦ rw (due, fresh) (track_bounded m head h)
          | inr (cur, known) ↦ rw (due, known) (follow_bounded m head cur known h)
        ]
      ]

  -- What an observation says of the head and the map.
  abbrev pub Observed : Latest Block → VerifiedHead Block → Latest Block × Observation → Type 0
  Observed m head (m', new) = lookup (source_of head) m' ≡ some head
  Observed m head (m', duplicate) = m' ≡ m
  Observed m head (m', stale) = m' ≡ m
  Observed m head (m', future) = m' ≡ m
  Observed m head (m', equivocation kept) =
      (m' ≡ m)
      × ((cur : VerifiedHead Block) × (lookup (source_of head) m ≡ some cur)
          × (cur.claim.counter ≡ head.claim.counter)
          × (cur.claim.block_hash ≡ kept)
          × (head.claim.block_hash ≢ kept))

  track-Observed :
      (m : Latest Block) (head : VerifiedHead Block)
      → lookup (source_of head) m ≡ none
      → Observed m head (track m head)
  unfolding track
  track-Observed m head fresh =
      let s = source_of head in
      let m' = insert s head m in
      let stored = lookup-insert s head m in
      elim (Bool-cases (ltb max_sources (length m'))) [
        | inr within ↦ rw within stored
        | inl over ↦ elim (Bool-cases (same_source (oldest_key s m') s)) [
          | inl own ↦
              rw (over, own)
                (rw (same_source→eq (oldest_key s m') s own) (remove-insert s head m fresh))
          | inr another ↦ rw (over, another) (lookup-remove s (oldest_key s m') m' another ∙ stored)
        ]
      ]

  follow-Observed :
      (m : Latest Block) (head cur : VerifiedHead Block)
      → lookup (source_of head) m ≡ some cur
      → Observed m head (follow m head cur)
  unfolding follow
  follow-Observed m head cur known = elim (Bool-cases (ltb head.claim.counter cur.claim.counter)) [
    | inl behind ↦ rw behind refl
    | inr onward ↦ elim (Bool-cases (head.claim.counter == cur.claim.counter)) [
      | inr ahead ↦ rw (onward, ahead) (lookup-insert (source_of head) head m)
      | inl level ↦ elim (Bool-cases (head.claim.block_hash == cur.claim.block_hash)) [
        | inl same ↦ rw (onward, level, same) refl
        | inr other ↦
            rw (onward, level, other) (refl, (cur, known, ground arith, refl, ground arith))
      ]
    ]
  ]

  -- A head observed as new is stored for its source; any other answer leaves the tracked heads
  -- as they were, and an equivocation is told only of a tracked head with the same source and
  -- counter and another hash, the one that is told.
  pub observe-Observed :
      (m : Latest Block) (head : VerifiedHead Block) (now_ms : ℕ)
      → Observed m head (observe m head now_ms)
  unfolding observe
  observe-Observed m head now_ms =
      elim (Bool-cases (ltb (min (now_ms + max_future_ms) u64_limit) head.claim.epoch_ms)) [
        | inl ahead ↦ rw ahead refl
        | inr due ↦ elim (Option-cases (lookup (source_of head) m)) [
          | inl fresh ↦ rw (due, fresh) (track-Observed m head fresh)
          | inr (cur, known) ↦ rw (due, known) (follow-Observed m head cur known)
        ]
      ]
