-- ===== src/UnsafeHead/Safe.antt =====
-- The verdicts of `check_extends_safe`, and the ancestry of a candidate.
use eez_rollup.Base.{
  ℕ, zero, suc, ◌+◌, ◌-◌, ◌≤◌, ◌<◌, ◌≡◌, ◌≢◌, ◌⊎◌, refl, sym, subst, ap, ◌∙◌, true, ltb, leb, ◌==◌,
  Bool-cases, Option-cases, Option, none, some, inl, inr, arith,
}
use eez_rollup.Base.Results.{ok, >>=-eq-ok, ok-injective}
use eez_rollup.UnsafeHead.{
  SafeCompat, extends, conflicts, unverifiable, NumHash, Header, View, max_ancestry_walk, safe_walk,
  is_hash, above_safe, against_safe, check_extends_safe,
}

-- `n` steps from a block to its parent, by local headers.
abbrev pub Steps : View → ℕ → ℕ → ℕ → Type 0
Steps view zero from to = from ≡ to
Steps view (suc n) from to =
    (h : Header) × (view.header from ≡ ok (some h)) × Steps view n h.parent_hash to

-- What the walk tells.
abbrev pub Walked : View → ℕ → ℕ → ℕ → SafeCompat → Type 0
Walked view safe_hash gap from extends = Steps view gap from safe_hash
Walked view safe_hash gap from conflicts =
    (other : ℕ) × Steps view gap from other × (other ≢ safe_hash)
Walked view safe_hash gap from unverifiable = Unit {0}

Walked-step :
    (view : View) (safe_hash gap from : ℕ) (h : Header) (v : SafeCompat)
    → view.header from ≡ ok (some h)
    → Walked view safe_hash gap h.parent_hash v
    → Walked view safe_hash (suc gap) from v
Walked-step view safe_hash gap from h extends known w = (h, known, w)
Walked-step view safe_hash gap from h conflicts known (other, steps, apart) =
    (other, (h, known, steps), apart)
Walked-step view safe_hash gap from h unverifiable known w = tt

safe_walk-Walked :
    (view : View) (safe_hash gap reads from : ℕ) (v : SafeCompat)
    → safe_walk view safe_hash gap reads from ≡ ok v
    → Walked view safe_hash gap from v
unfolding safe_walk
safe_walk-Walked view safe_hash zero reads from v e = elim (Bool-cases (from == safe_hash)) [
  | inl same ↦
      let is_v : extends ≡ v = ok-injective (rw (same, safe_walk) at e) in
      subst (Walked view safe_hash zero from) is_v (ground arith)
  | inr other ↦
      let is_v : conflicts ≡ v = ok-injective (rw (other, safe_walk) at e) in
      subst (Walked view safe_hash zero from) is_v (from, refl, ground arith)
]
safe_walk-Walked view safe_hash (suc gap) reads from v e =
    elim (Bool-cases (leb max_ancestry_walk reads)) [
      | inl far ↦
          let is_v : unverifiable ≡ v = ok-injective (rw (far, safe_walk) at e) in
          subst (Walked view safe_hash (suc gap) from) is_v tt
      | inr near ↦
          let (known, read, e₁) = >>=-eq-ok (view.header from) _ (rw (near, safe_walk) at e) in
          elim (Option-cases known) [
            | inl unknown ↦
                let is_v : unverifiable ≡ v = ok-injective (rw unknown at e₁) in
                subst (Walked view safe_hash (suc gap) from) is_v tt
            | inr (h, is_known) ↦ Walked-step view safe_hash gap from h v (read ∙ ap ok is_known) (
                safe_walk-Walked view safe_hash gap (reads + 1) h.parent_hash v (rw is_known at e₁))
          ]
    ]

-- What a verdict tells of a candidate above the safe block `s`: it is the local canonical block of
-- its height, or the walk from its parent ended so.
abbrev pub Above : View → NumHash → NumHash → ℕ → SafeCompat → Type 0
Above view s candidate parent_hash v =
    ((v ≡ extends) × (view.sealed_hash candidate.number ≡ ok (some candidate.hash)))
    ⊎ Walked view s.hash (candidate.number - 1 - s.number) parent_hash v

-- What a verdict tells of a candidate, against the safe block `s`.
abbrev pub Against : View → NumHash → NumHash → ℕ → SafeCompat → Type 0
Against view s candidate parent_hash v =
    ((candidate ≡ s) × (v ≡ extends))
    ⊎ (((candidate.number ≤ s.number) × (candidate ≢ s) × (v ≡ conflicts))
        ⊎ ((s.number < candidate.number) × Above view s candidate parent_hash v))

abbrev pub Verdict : View → NumHash → ℕ → SafeCompat → Type 0
Verdict view candidate parent_hash v =
    ((view.safe_block ≡ ok none) × (v ≡ extends))
    ⊎ ((s : NumHash) × (view.safe_block ≡ ok (some s)) × Against view s candidate parent_hash v)

is_hash→eq : (hash : ℕ) (o : Option ℕ) → is_hash hash o ≡ true → o ≡ some hash
is_hash→eq hash none h = cc
is_hash→eq hash (some x) h = ground arith

above_safe-Above :
    (view : View) (s candidate : NumHash) (parent_hash : ℕ) (v : SafeCompat)
    → above_safe view s candidate parent_hash ≡ ok v
    → Above view s candidate parent_hash v
above_safe-Above view s candidate parent_hash v e =
    let (canonical, read, e₁) = >>=-eq-ok (view.sealed_hash candidate.number) _ e in
    elim (Bool-cases (is_hash candidate.hash canonical)) [
      | inl same ↦
          let is_v : extends ≡ v = ok-injective (rw same at e₁) in
          inl (sym is_v, read ∙ ap ok (is_hash→eq candidate.hash canonical same))
      | inr other ↦ inr (
          safe_walk-Walked view s.hash (candidate.number - 1 - s.number) 0 parent_hash v
            (rw other at e₁))
    ]

against_safe-Against :
    (view : View) (s candidate : NumHash) (parent_hash : ℕ) (v : SafeCompat)
    → against_safe view s candidate parent_hash ≡ ok v
    → Against view s candidate parent_hash v
against_safe-Against view s candidate parent_hash v e =
    elim (Bool-cases (candidate.number == s.number)) [
      | inl level ↦ elim (Bool-cases (candidate.hash == s.hash)) [
        | inl same ↦
            let is_v : extends ≡ v = ok-injective (rw (level, same, against_safe) at e) in
            inl (ground arith, sym is_v)
        | inr other ↦
            let is_v : conflicts ≡ v = ok-injective (rw (level, other, against_safe) at e) in
            let apart : candidate ≢ s = λ eq. absurd (ground (arith, ap (λ n. n.hash) eq)) in
            inr (inl (ground arith, apart, sym is_v))
      ]
      | inr apart_by ↦ elim (Bool-cases (ltb candidate.number s.number)) [
        | inl below ↦
            let is_v : conflicts ≡ v = ok-injective (rw (apart_by, below, against_safe) at e) in
            let apart : candidate ≢ s = λ eq. absurd (ground (arith, ap (λ n. n.number) eq)) in
            inr (inl (ground arith, apart, sym is_v))
        | inr above ↦ inr (
            inr (
              ground arith,
              above_safe-Above view s candidate parent_hash v
                  (rw (apart_by, above, against_safe) at e),
            ))
      ]
    ]

-- A verdict on a candidate tells the truth: without a safe block all extend; at or below the safe
-- height only the safe block itself extends and the rest conflict; above it, what extends is the
-- local canonical block of its height or has the safe block among its local ancestors at the safe
-- height, and what conflicts has another block there.
pub check_extends_safe-Verdict :
    (view : View) (candidate : NumHash) (parent_hash : ℕ) (v : SafeCompat)
    → check_extends_safe view candidate parent_hash ≡ ok v
    → Verdict view candidate parent_hash v
unfolding check_extends_safe
check_extends_safe-Verdict view candidate parent_hash v e =
    let (found, read, e₁) = >>=-eq-ok view.safe_block _ e in
    elim (Option-cases found) [
      | inl nothing ↦
          let is_v : extends ≡ v = ok-injective (rw nothing at e₁) in
          inl (read ∙ ap ok nothing, sym is_v)
      | inr (s, is_s) ↦ inr (
        s,
        read ∙ ap ok is_s,
        against_safe-Against view s candidate parent_hash v (rw is_s at e₁),
      )
    ]
