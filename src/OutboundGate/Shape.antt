-- ===== src/OutboundGate/Shape.antt =====
-- The entries whose shape the gate supports.
use eez_rollup.Base.{
  ℕ, ◌≡◌, refl, subst, ap, ◌∙◌, List, [], ◌∷◌, Bool, true, false, not, ◌==◌, ◌&&◌, arith,
}
use eez_rollup.Base.Results.{ok, >>=-eq-ok, >>=-ok, ok-injective}
use eez_rollup.Settlement.{L2ToL1Call, ExpectedL1ToL2Call, ExecutionEntry}
use eez_rollup.OutboundGate.{
  GateError, must, sole_call, no_expected_calls, entry_call, not_outbound, unsupported_shape,
  unsupported_semantics, foreign_source,
}

-- The entry settles `call`, in the supported shape, for this rollup.
pub record Settles (l2_rollup_id : ℕ) (e : ExecutionEntry) (call : L2ToL1Call) : Type 0 where
  pub no_proxy : e.proxy_entry_hash ≡ 0
  pub sole : e.l2_to_l1_calls ≡ call ∷ []
  pub success : e.success ≡ true
  pub flat : e.expected_l1_to_l2_calls ≡ []
  pub not_static : call.is_static ≡ false
  pub no_revert : call.revert_next_n_calls ≡ 0
  pub no_gas : call.gas ≡ 0
  pub own_source : call.source_rollup_id ≡ l2_rollup_id

must-eq-ok : (b : Bool) (e : GateError) (done : Unit {0}) → must b e ≡ ok done → b ≡ true
must-eq-ok true e done h = refl
must-eq-ok false e done h = cc

must-true : (b : Bool) (e : GateError) → b ≡ true → must b e ≡ ok tt
must-true b e h = rw h refl

sole_call-eq-ok :
    (i : ℕ) (cs : List L2ToL1Call) (c : L2ToL1Call) → sole_call i cs ≡ ok c → cs ≡ c ∷ []
sole_call-eq-ok i [] c e = cc
sole_call-eq-ok i (x ∷ []) c e = ap (λ y. y ∷ []) (ok-injective e)
sole_call-eq-ok i (x ∷ y ∷ cs) c e = cc

no_expected→nil : (cs : List ExpectedL1ToL2Call) → no_expected_calls cs ≡ true → cs ≡ []
no_expected→nil [] h = refl
no_expected→nil (c ∷ cs) h = cc

and→both : (a b : Bool) → (a && b) ≡ true → (a ≡ true) × (b ≡ true)
and→both true true h = (refl, refl)
and→both true false h = cc
and→both false b h = cc

not→false : (b : Bool) → not b ≡ true → b ≡ false
not→false true h = cc
not→false false h = refl

pub entry_call-Settles :
    (l2 i : ℕ) (e : ExecutionEntry) (call : L2ToL1Call)
    → entry_call l2 i e ≡ ok call
    → Settles l2 e call
unfolding entry_call
entry_call-Settles l2 i e call h =
    let (d₁, outbound, h₁) = >>=-eq-ok (must (e.proxy_entry_hash == 0) (not_outbound i)) _ h in
    let (c, one, h₂) = >>=-eq-ok (sole_call i e.l2_to_l1_calls) _ h₁ in
    let (d₂, shaped, h₃) =
      >>=-eq-ok
        (must (e.success && no_expected_calls e.expected_l1_to_l2_calls) (unsupported_shape i)) _
        h₂ in
    let (d₃, plain, h₄) =
      >>=-eq-ok
        (must (not c.is_static && (c.revert_next_n_calls == 0 && c.gas == 0))
          (unsupported_semantics i))
        _ h₃ in
    let (d₄, own, h₅) =
      >>=-eq-ok (must (c.source_rollup_id == l2) (foreign_source i c.source_rollup_id)) _ h₄ in
    let (success, flat) =
      and→both e.success (no_expected_calls e.expected_l1_to_l2_calls)
        (must-eq-ok _ (unsupported_shape i) d₂ shaped) in
    let (static, rest) =
      and→both (not c.is_static) (c.revert_next_n_calls == 0 && c.gas == 0)
        (must-eq-ok _ (unsupported_semantics i) d₃ plain) in
    let (revert, gas) = and→both (c.revert_next_n_calls == 0) (c.gas == 0) rest in
    subst (Settles l2 e) (ok-injective h₅) (record {
      no_proxy = ground (arith, must-eq-ok (e.proxy_entry_hash == 0) (not_outbound i) d₁ outbound);
      sole = sole_call-eq-ok i e.l2_to_l1_calls c one;
      success = success;
      flat = no_expected→nil e.expected_l1_to_l2_calls flat;
      not_static = not→false c.is_static static;
      no_revert = ground (arith, revert);
      no_gas = ground (arith, gas);
      own_source = ground (
        arith,
        must-eq-ok (c.source_rollup_id == l2) (foreign_source i c.source_rollup_id) d₄ own,
      );
    })

pub Settles-entry_call :
    (l2 i : ℕ) (e : ExecutionEntry) (call : L2ToL1Call)
    → Settles l2 e call
    → entry_call l2 i e ≡ ok call
unfolding entry_call
Settles-entry_call l2 i e call s =
    >>=-ok (must (e.proxy_entry_hash == 0) (not_outbound i)) _ tt
      (must-true _ _ (ground (arith, s.no_proxy)))
    ∙ >>=-ok (sole_call i e.l2_to_l1_calls) _ call (rw s.sole refl)
    ∙ >>=-ok (must (e.success && no_expected_calls e.expected_l1_to_l2_calls) (unsupported_shape i))
        _ tt (must-true _ _ (rw (s.success, s.flat) refl))
    ∙ >>=-ok
        (must (not call.is_static && (call.revert_next_n_calls == 0 && call.gas == 0))
          (unsupported_semantics i))
        _ tt (must-true _ _ (rw (s.not_static, s.no_revert, s.no_gas) refl))
    ∙ >>=-ok (must (call.source_rollup_id == l2) (foreign_source i call.source_rollup_id)) _ tt
        (must-true _ _ (ground (arith, s.own_source)))
