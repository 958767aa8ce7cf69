-- ===== src/UnsafeHead/Adopted.antt =====
-- What `follow_best` adopts.
use eez_rollup.Base.{
  ◌≤◌, ◌≡◌, subst, ap, ◌∙◌, List, [], ◌∷◌, false, Bool-cases, Option, none, some, inl, inr, ◌⊎◌,
  arith,
}
use mathlib.Core.Option.{some-injective}
use eez_rollup.Base.Results.{Result, ok, Result-cases, >>=-eq-ok, ok-injective}
use eez_rollup.L1Head.{last_indexed_l2}
use eez_rollup.UnsafeHead.{
  FollowerError, SafeCompat, extends, conflicts, unverifiable, NumHash, Missing, View, Attempt,
  check_extends_safe, fetch_missing, held, at, num_hash, on_verdict, on_claim, adopt, attempt,
  follow_best, number_or_zero,
}
use eez_rollup.UnsafeHead.Fetched.{IsMissing, fetch_missing-IsMissing}
use eez_rollup.UnsafeHead.Safe.{Verdict, check_extends_safe-Verdict}

-- The L1 index is not ahead of the safe block.
abbrev pub NotHeld : View → Type 0
NotHeld view =
    (safe : Option NumHash) × (view.safe_block ≡ ok safe)
    × (last_indexed_l2 view.l1_head ≤ number_or_zero safe)

-- The candidate `a` is adopted with `m`.
pub record Adopted (a : Attempt) (m : Missing) : Type 0 where
  pub missing : IsMissing a.fetching a.source a.head.claim.block_hash m
  pub not_held : NotHeld a.locked
  pub extends_safe : Verdict a.locked (num_hash m.fork_point) m.fork_point.parent_hash extends

-- The candidate is refused for a conflict with the safe block, its own or its fork point's.
abbrev pub Refused : Attempt → Type 0
Refused a =
    Verdict a.before (at a.head) a.head.claim.parent_hash conflicts
    ⊎ ((m : Missing) × IsMissing a.fetching a.source a.head.claim.block_hash m
        × Verdict a.locked (num_hash m.fork_point) m.fork_point.parent_hash conflicts)

-- `m` is adopted for a candidate, and every candidate before it is refused.
pub data FirstAdopted : List Attempt → Missing → Type 0 where
  here :
      (a : Attempt) (attempts : List Attempt) (m : Missing)
      → Adopted a m
      → FirstAdopted (a ∷ attempts) m
  later :
      (a : Attempt) (attempts : List Attempt) (m : Missing)
      → Refused a
      → FirstAdopted attempts m
      → FirstAdopted (a ∷ attempts) m

held-NotHeld : (view : View) → held view ≡ ok false → NotHeld view
unfolding held
held-NotHeld view e =
    let (safe, read, e₁) = >>=-eq-ok view.safe_block _ e in
    (safe, read, ground (arith, ok-injective e₁))

abbrev Outcome : Attempt → Result FollowerError (Option Missing) → Missing → Type 0
Outcome a rest m = Adopted a m ⊎ (Refused a × (rest ≡ ok (some m)))

on_verdict-Outcome :
    (a : Attempt) (rest : Result FollowerError (Option Missing)) (fetched m : Missing)
    (v : SafeCompat)
    → IsMissing a.fetching a.source a.head.claim.block_hash fetched
    → NotHeld a.locked
    → Verdict a.locked (num_hash fetched.fork_point) fetched.fork_point.parent_hash v
    → on_verdict rest fetched v ≡ ok (some m)
    → Outcome a rest m
on_verdict-Outcome a rest fetched m extends is_missing free told e =
    let same : fetched ≡ m = some-injective _ _ (ok-injective e) in
    subst (λ n. Adopted a n ⊎ (Refused a × (rest ≡ ok (some n)))) same
      (inl (record { missing = is_missing; not_held = free; extends_safe = told }))
on_verdict-Outcome a rest fetched m conflicts is_missing free told e =
    inr (inr (fetched, is_missing, told), e)
on_verdict-Outcome a rest fetched m unverifiable is_missing free told e =
    let idle : none ≡ some m = ok-injective e in cc

adopt-Outcome :
    (a : Attempt) (rest : Result FollowerError (Option Missing)) (fetched m : Missing)
    → IsMissing a.fetching a.source a.head.claim.block_hash fetched
    → adopt a rest fetched ≡ ok (some m)
    → Outcome a rest m
unfolding adopt
adopt-Outcome a rest fetched m is_missing e =
    let (is_held, read, e₁) = >>=-eq-ok (held a.locked) _ e in
    elim (Bool-cases is_held) [
      | inl yes_held ↦ let idle : none ≡ some m = ok-injective (rw yes_held at e₁) in cc
      | inr free ↦
          let (verdict, checked, e₂) =
            >>=-eq-ok
              (check_extends_safe a.locked (num_hash fetched.fork_point)
                fetched.fork_point.parent_hash)
              _ (rw free at e₁) in
          let told =
            check_extends_safe-Verdict a.locked (num_hash fetched.fork_point)
              fetched.fork_point.parent_hash verdict checked in
          on_verdict-Outcome a rest fetched m verdict is_missing
            (held-NotHeld a.locked (read ∙ ap ok free)) told e₂
    ]

attempt-Outcome :
    (a : Attempt) (rest : Result FollowerError (Option Missing)) (m : Missing)
    → attempt a rest ≡ ok (some m)
    → Outcome a rest m
unfolding attempt
attempt-Outcome a rest m e =
    let (is_held, read, e₁) = >>=-eq-ok (held a.before) _ e in
    elim (Bool-cases is_held) [
      | inl yes_held ↦ let idle : none ≡ some m = ok-injective (rw yes_held at e₁) in cc
      | inr free ↦
          elim (Result-cases (fetch_missing a.fetching a.source (at a.head) a.head.block)) [
            | inr (error, failed) ↦
                let idle : none ≡ some m = ok-injective (rw (free, failed) at e₁) in cc
            | inl (fetched, served) ↦
                adopt-Outcome a rest fetched m
                  (fetch_missing-IsMissing a.fetching a.source (at a.head) a.head.block fetched
                    served)
                  (rw (free, served) at e₁)
          ]
    ]

on_claim-Outcome :
    (a : Attempt) (rest : Result FollowerError (Option Missing)) (m : Missing) (v : SafeCompat)
    → Verdict a.before (at a.head) a.head.claim.parent_hash v
    → on_claim a rest v ≡ ok (some m)
    → Outcome a rest m
on_claim-Outcome a rest m extends told e = attempt-Outcome a rest m e
on_claim-Outcome a rest m unverifiable told e = attempt-Outcome a rest m e
on_claim-Outcome a rest m conflicts told e = inr (inl told, e)

-- What is adopted was fetched for a candidate whose claim it leads to, on a fork point that extends
-- the safe block, with the L1 index not ahead of that block; and every candidate that comes first
-- is refused for a proven conflict with the safe block.
pub follow_best-FirstAdopted :
    (attempts : List Attempt) (m : Missing)
    → follow_best attempts ≡ ok (some m)
    → FirstAdopted attempts m
unfolding follow_best
follow_best-FirstAdopted [] m e = let idle : none ≡ some m = ok-injective e in cc
follow_best-FirstAdopted (a ∷ attempts) m e =
    let (v, checked, e₁) =
      >>=-eq-ok (check_extends_safe a.before (at a.head) a.head.claim.parent_hash) _ e in
    let told = check_extends_safe-Verdict a.before (at a.head) a.head.claim.parent_hash v checked in
    elim (on_claim-Outcome a (follow_best attempts) m v told e₁) [
      | inl adopted ↦ here a attempts m adopted
      | inr (refused, e₂) ↦ later a attempts m refused (follow_best-FirstAdopted attempts m e₂)
    ]
