-- ===== src/Optimistic/Rollback.antt =====
-- What a rollback of the L2 cursor takes out of the ledger, described without its tests.
use eez_rollup.Base.{
  ℕ, ◌≤◌, ◌<◌, ◌≡◌, ◌↔◌, ◌⊎◌, refl, sym, subst, ap, ◌∙◌, List, [], ◌∷◌, ◌++◌, true, false,
  Bool-cases, inl, inr, arith,
}
use eez_rollup.HeldPool.{HeldTx}
use eez_rollup.Optimistic.{
  Resolution, pending, settled, failed, settled_partial, InFlight, Ledger, rolls_out,
  take_rolled_out, txs_of,
}
use eez_rollup.Optimistic.Sorted.{IsSorted, without, those}
use eez_rollup.Optimistic.Recovery.{take_rolled_out_lem}

-- A bundle that has landed on L1, whole or in part.
abbrev pub Landed : Resolution → Type 0
Landed pending = ⊥
Landed settled = Unit {0}
Landed failed = ⊥
Landed settled_partial = Unit {0}

module _ {Header : Type 0} where
  -- `Rolled cursor l l' txs`: going up the ledger `l`, each entry above the cursor whose bundle has
  -- landed gives its transactions to `txs`, and every other entry goes to `l'` as it is.
  pub data Rolled (cursor : ℕ) : Ledger Header → Ledger Header → List HeldTx → Type 0 where
    done : Rolled cursor [] [] []
    leaves :
        (h : ℕ) (e : InFlight Header) {l l' : Ledger Header} {txs : List HeldTx}
        → cursor < h
        → Landed e.resolution
        → Rolled cursor l l' txs
        → Rolled cursor ((h, e) ∷ l) l' (e.txs ++ txs)
    stays :
        (h : ℕ) (e : InFlight Header) {l l' : Ledger Header} {txs : List HeldTx}
        → (h ≤ cursor) ⊎ (¬ Landed e.resolution)
        → Rolled cursor l l' txs
        → Rolled cursor ((h, e) ∷ l) ((h, e) ∷ l') txs

  rolls_out-Landed :
      (cursor h : ℕ) (r : Resolution) (e : InFlight Header)
      → e.resolution ≡ r
      → rolls_out cursor h e ≡ true
      → (cursor < h) × Landed r
  rolls_out-Landed cursor h pending e is_r out = ground arith
  rolls_out-Landed cursor h settled e is_r out = (ground arith, tt)
  rolls_out-Landed cursor h failed e is_r out = ground arith
  rolls_out-Landed cursor h settled_partial e is_r out = (ground arith, tt)

  stays_in :
      (cursor h : ℕ) (r : Resolution) (e : InFlight Header)
      → e.resolution ≡ r
      → rolls_out cursor h e ≡ false
      → (h ≤ cursor) ⊎ (¬ Landed r)
  stays_in cursor h pending e is_r out = inr (λ x. x)
  stays_in cursor h settled e is_r out = inl (ground arith)
  stays_in cursor h failed e is_r out = inr (λ x. x)
  stays_in cursor h settled_partial e is_r out = inl (ground arith)

  without-Rolled :
      (cursor : ℕ) (l : Ledger Header)
      → Rolled cursor l (without (rolls_out cursor) l) (txs_of (those (rolls_out cursor) l))
  without-Rolled cursor [] = done
  without-Rolled cursor ((h, e) ∷ l) = elim (Bool-cases (rolls_out cursor h e)) [
    | inl out ↦
        let (above, landed) = rolls_out-Landed cursor h e.resolution e refl out in
        rw (out, without, those, txs_of) (leaves h e above landed (without-Rolled cursor l))
    | inr kept ↦
        rw (kept, without, those)
          (stays h e (stays_in cursor h e.resolution e refl kept) (without-Rolled cursor l))
  ]

  Landed-rolls_out :
      (cursor h : ℕ) (r : Resolution) (e : InFlight Header)
      → e.resolution ≡ r
      → cursor < h
      → Landed r
      → rolls_out cursor h e ≡ true
  Landed-rolls_out cursor h pending e is_r above landed = absurd landed
  Landed-rolls_out cursor h settled e is_r above landed = ground arith
  Landed-rolls_out cursor h failed e is_r above landed = absurd landed
  Landed-rolls_out cursor h settled_partial e is_r above landed = ground arith

  kept_unless :
      (cursor h : ℕ) (e : InFlight Header)
      → (h ≤ cursor) ⊎ (¬ Landed e.resolution)
      → rolls_out cursor h e ≡ false
  kept_unless cursor h e why = elim (Bool-cases (rolls_out cursor h e)) [
    | inl out ↦
        let (above, landed) = rolls_out-Landed cursor h e.resolution e refl out in
        elim why [ inl low ↦ absurd (omega arith) | inr unlanded ↦ absurd (unlanded landed) ]
    | inr kept ↦ kept
  ]

  Rolled-without :
      {cursor : ℕ} {l l' : Ledger Header} {txs : List HeldTx}
      → Rolled cursor l l' txs
      → ◌≡◌ {A = Ledger Header × List HeldTx}
          (without (rolls_out cursor) l, txs_of (those (rolls_out cursor) l))
          (l', txs)
  Rolled-without done = refl
  Rolled-without {cursor} (leaves h e above landed r) =
      rw (Landed-rolls_out cursor h e.resolution e refl above landed, without, those, txs_of)
        (ap (λ p. (p.0, e.txs ++ p.1)) (Rolled-without r))
  Rolled-without {cursor} (stays h e why r) =
      rw (kept_unless cursor h e why, without, those)
        (ap (λ p. ((h, e) ∷ p.0, p.1)) (Rolled-without r))

  -- On a sorted ledger a rollback to a cursor leaves `l'` and hands out `txs` exactly when, going up
  -- the ledger, each entry above the cursor whose bundle has settled, whole or in part, gives its
  -- transactions to `txs` in their order, and every other entry stays in `l'` as it was.
  pub take_rolled_out_iff :
      (l l' : Ledger Header) (cursor : ℕ) (txs : List HeldTx)
      → IsSorted l
      → (take_rolled_out l cursor ≡ (l', txs)) ↔ Rolled cursor l l' txs
  take_rolled_out_iff l l' cursor txs sorted =
      let lem = take_rolled_out_lem l cursor sorted in
      (
        (λ e. subst (λ p. Rolled cursor l p.0 p.1) (sym lem ∙ e) (without-Rolled cursor l)),
        (λ r. lem ∙ Rolled-without r),
      )
