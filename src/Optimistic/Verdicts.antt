-- ===== src/Optimistic/Verdicts.antt =====
-- The verdicts of the observers and of the cursor.
use eez_rollup.Base.{
  ℕ, ◌+◌, ◌≡◌, ◌≢◌, refl, ap, List, [], ◌∷◌, ◌++◌, Bool, false, leb, ◌==◌, Bool-cases, All, some,
  inl, inr, if◌then◌else◌, arith,
}
use eez_rollup.HeldPool.{HeldTx}
use eez_rollup.Optimistic.{
  InFlight, Ledger, lookup, update, resolve_entry, resolve_below_cursor, mark_settled_partial,
  settle_partially, claim_partial, mark_settled, settle, mark_failed, fail,
}
use eez_rollup.Optimistic.History.{
  Call, begins, resolves, settles_partially, claims, settles, fails, takes_failed, reinserts,
  takes_rolled_out, takes_finalized, step, run,
}

abbrev pub count : (HeldTx → Bool) → List HeldTx → ℕ
count p [] = 0
count p (x ∷ xs) = (if p x then 1 else 0) + count p xs

count_append :
    (p : HeldTx → Bool) (xs ys : List HeldTx) → count p (xs ++ ys) ≡ count p xs + count p ys
count_append p [] ys = omega arith
count_append p (x ∷ xs) ys = omega (arith, count_append p xs ys)

module _ {Header : Type 0} where
  update_fixed :
      (k : ℕ) (f : InFlight Header → InFlight Header) (l : Ledger Header) (e : InFlight Header)
      → lookup k l ≡ some e
      → f e ≡ e
      → update k f l ≡ l
  unfolding lookup update
  update_fixed k f [] e found same = refl
  update_fixed k f ((x, v) ∷ l) e found same = elim (Bool-cases (k == x)) [
    | inl here ↦ let is_e : v ≡ e = ground arith in rw (here, is_e, same) refl
    | inr further ↦
        let found' : lookup k l ≡ some e = ground arith in
        rw further (ap (◌∷◌ (x, v)) (update_fixed k f l e found' same))
  ]

  -- What a verdict that names another bundle than the one of the entry at its height does: nothing,
  -- and a claim is refused.
  pub stale_verdict :
      (l : Ledger Header) (h hash : ℕ) (skipped : Bool) (spent : List HeldTx) (e : InFlight Header)
      → lookup h l ≡ some e
      → e.post_batch_hash ≢ hash
      → (mark_settled l h hash ≡ l)
        × (mark_failed l h hash skipped ≡ l)
        × (mark_settled_partial l h hash ≡ l)
        × (claim_partial l h hash spent ≡ (l, false))
  unfolding mark_settled mark_failed mark_settled_partial claim_partial
  stale_verdict l h hash skipped spent e found other =
      let differs : (e.post_batch_hash == hash) ≡ false = ground arith in
      (
        update_fixed h (settle hash) l e found (ground arith),
        update_fixed h (fail hash skipped) l e found (ground arith),
        update_fixed h (settle_partially hash) l e found (ground arith),
        rw (found, differs, claim_partial) refl,
      )

  -- The calls that only tell what became of a bundle.
  abbrev pub IsVerdict : Call Header → Type 0
  IsVerdict (resolves cursor) = Unit {0}
  IsVerdict (settles_partially h hash) = Unit {0}
  IsVerdict (settles h hash) = Unit {0}
  IsVerdict (fails h hash skipped) = Unit {0}
  IsVerdict _ = ⊥

  -- The transactions that the cursor has not released yet.
  abbrev pub own_unconfirmed : InFlight Header → List HeldTx
  own_unconfirmed e = if e.cursor_confirmed then [] else e.txs

  abbrev pub unconfirmed : Ledger Header → List HeldTx
  unconfirmed [] = []
  unconfirmed ((h, e) ∷ l) = own_unconfirmed e ++ unconfirmed l

  -- What the calls release to the pool.
  abbrev pub released_by : Ledger Header → Call Header → List HeldTx
  released_by l (resolves cursor) = (resolve_below_cursor l cursor).1
  released_by l _ = []

  abbrev pub released : Ledger Header → List (Call Header) → List HeldTx
  released l [] = []
  released l (c ∷ cs) = released_by l c ++ released (step l c) cs

  unconfirmed-update :
      (k : ℕ) (f : InFlight Header → InFlight Header) (l : Ledger Header)
      → ((e : InFlight Header) → own_unconfirmed (f e) ≡ own_unconfirmed e)
      → unconfirmed (update k f l) ≡ unconfirmed l
  unfolding update
  unconfirmed-update k f [] keeps = refl
  unconfirmed-update k f ((x, e) ∷ l) keeps = elim (Bool-cases (k == x)) [
    | inl here ↦ rw here (ap (λ xs. xs ++ unconfirmed l) (keeps e))
    | inr further ↦ rw further (ap (◌++◌ (own_unconfirmed e)) (unconfirmed-update k f l keeps))
  ]

  settle-own :
      (hash : ℕ) (e : InFlight Header) → own_unconfirmed (settle hash e) ≡ own_unconfirmed e
  settle-own hash e = ground arith

  settle_partially-own :
      (hash : ℕ) (e : InFlight Header)
      → own_unconfirmed (settle_partially hash e) ≡ own_unconfirmed e
  settle_partially-own hash e = ground arith

  fail-own :
      (hash : ℕ) (skipped : Bool) (e : InFlight Header)
      → own_unconfirmed (fail hash skipped e) ≡ own_unconfirmed e
  fail-own hash skipped e = ground arith

  resolve_entry-released :
      (p : HeldTx → Bool) (e : InFlight Header)
      → count p (resolve_entry e).1 + count p (own_unconfirmed (resolve_entry e).0)
        ≡ count p (own_unconfirmed e)
  unfolding resolve_entry
  resolve_entry-released p e = ground arith

  resolve-released :
      (p : HeldTx → Bool) (l : Ledger Header) (cursor : ℕ)
      → count p (resolve_below_cursor l cursor).1
          + count p (unconfirmed (resolve_below_cursor l cursor).0)
        ≡ count p (unconfirmed l)
  unfolding resolve_below_cursor
  resolve-released p [] cursor = refl
  resolve-released p ((h, e) ∷ l) cursor =
      let rest = resolve_below_cursor l cursor in
      let e' = resolve_entry e in
      let ih = resolve-released p l cursor in
      elim (Bool-cases (leb h cursor)) [
        | inl covered ↦ rw covered (
            omega (
              arith,
              ih,
              resolve_entry-released p e,
              count_append p e'.1 rest.1,
              count_append p (own_unconfirmed e'.0) (unconfirmed rest.0),
              count_append p (own_unconfirmed e) (unconfirmed l),
            ))
        | inr later ↦ rw later (
            omega (
              arith,
              ih,
              count_append p (own_unconfirmed e) (unconfirmed rest.0),
              count_append p (own_unconfirmed e) (unconfirmed l),
            ))
      ]

  step-released :
      (p : HeldTx → Bool) (l : Ledger Header) (c : Call Header)
      → IsVerdict c
      → count p (released_by l c) + count p (unconfirmed (step l c)) ≡ count p (unconfirmed l)
  unfolding step mark_settled mark_settled_partial mark_failed
  step-released p l (resolves cursor) v = resolve-released p l cursor
  step-released p l (settles_partially h hash) v = omega (
    arith,
    ap (count p) (unconfirmed-update h (settle_partially hash) l (settle_partially-own hash)),
  )
  step-released p l (settles h hash) v =
      omega (arith, ap (count p) (unconfirmed-update h (settle hash) l (settle-own hash)))
  step-released p l (fails h hash skipped) v =
      omega
        (arith, ap (count p) (unconfirmed-update h (fail hash skipped) l (fail-own hash skipped)))
  step-released p l (begins h hash parent txs) v = absurd v
  step-released p l (claims h hash spent) v = absurd v
  step-released p l (takes_failed cursor) v = absurd v
  step-released p l (reinserts batch) v = absurd v
  step-released p l (takes_rolled_out cursor) v = absurd v
  step-released p l (takes_finalized n) v = absurd v

  -- Over any verdicts of observers and cursors, in any order, the released transactions and those
  -- still unconfirmed are together the transactions that were unconfirmed at first, each as often:
  -- none is released twice and none is lost. (Counted by any test on transactions.)
  pub released_once :
      (p : HeldTx → Bool) (l : Ledger Header) (cs : List (Call Header))
      → All IsVerdict cs
      → count p (released l cs) + count p (unconfirmed (run l cs)) ≡ count p (unconfirmed l)
  unfolding run
  released_once p l [] v = omega arith
  released_once p l (c ∷ cs) v = omega (
    arith,
    step-released p l c v.0,
    released_once p (step l c) cs v.1,
    count_append p (released_by l c) (released (step l c) cs),
  )
