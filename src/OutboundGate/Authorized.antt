-- ===== src/OutboundGate/Authorized.antt =====
-- The gate and the inclusion of one multiset in another.
use eez_rollup.Base.{
  ℕ, ◌+◌, ◌≤◌, ◌≡◌, ◌↔◌, refl, ap, ◌∙◌, List, [], ◌∷◌, map, ◌==◌, if◌then◌else◌, All, Option, none,
  some, arith,
}
use eez_rollup.Base.Results.{ok, >>=-eq-ok, >>=-ok, ok-injective}
use eez_rollup.Settlement.{L2ToL1Call, ExecutionEntry}
use eez_rollup.OutboundGate.{
  OutboundCallObservation, EncodedCall, Counts, take_one, collect, entry_call, expected_hash,
  consumed, consume_all, verify_outbound_authorized,
}
use eez_rollup.OutboundGate.Counts.{
  count, count_in, TakesOne, take_one-TakesOne, IsGasless, hashes_of, collect-Collected, collect_of,
}
use eez_rollup.OutboundGate.Shape.{Settles, entry_call-Settles, Settles-entry_call}

-- The entries settle the calls, one each.
abbrev pub AllSettle : ℕ → List ExecutionEntry → List L2ToL1Call → Type 0
AllSettle l2 [] [] = Unit {0}
AllSettle l2 (e ∷ es) (c ∷ cs) = Settles l2 e c × AllSettle l2 es cs
AllSettle l2 _ _ = ⊥

consumed-eq-ok :
    (i hash : ℕ) (o : Option Counts) (m : Counts) → consumed i hash o ≡ ok m → o ≡ some m
consumed-eq-ok i hash none m e = cc
consumed-eq-ok i hash (some m') m e = ap some (ok-injective e)

take_one_left :
    (x : ℕ) (m m' : Counts)
    → take_one x m ≡ some m'
    → (h : ℕ) → count_in h m ≡ (if x == h then 1 else 0) + count_in h m'
unfolding TakesOne
take_one_left x m m' e = let t : TakesOne x m (take_one x m) = take_one-TakesOne x m in rw e at t

take_one-some : (x : ℕ) (m : Counts) → 1 ≤ count_in x m → (m' : Counts) × (take_one x m ≡ some m')
unfolding TakesOne
take_one-some x m h = found (take_one x m) (take_one-TakesOne x m)
  where
    found : (o : Option Counts) → TakesOne x m o → (m' : Counts) × (o ≡ some m')
    found none t = absurd (omega (arith, t, h))
    found (some m') t = (m', refl)

module _ (keccak : List ℕ → ℕ) (abi_encode_params : EncodedCall → List ℕ) (l2 : ℕ) where
  abbrev pub keys : List L2ToL1Call → List ℕ
  keys calls = map (expected_hash keccak abi_encode_params l2) calls

  -- The entries settle calls that the observed events cover, each event for one call at most.
  pub record IsAuthorized (entries : List ExecutionEntry) (observed : List OutboundCallObservation)
      : Type 0 where
    pub calls : List L2ToL1Call
    pub settle : AllSettle l2 entries calls
    pub gasless : All IsGasless observed
    pub covered : (h : ℕ) → count h (keys calls) ≤ count h (hashes_of observed)

  abbrev Covered : List ExecutionEntry → Counts → Type 0
  Covered es m =
      (calls : List L2ToL1Call) × AllSettle l2 es calls
      × ((h : ℕ) → count h (keys calls) ≤ count_in h m)

  consume_all-Covered :
      (i : ℕ) (es : List ExecutionEntry) (m : Counts)
      → consume_all keccak abi_encode_params l2 i es m ≡ ok tt
      → Covered es m
  unfolding consume_all
  consume_all-Covered i [] m e = ([], tt, λ h. omega arith)
  consume_all-Covered i (x ∷ es) m e =
      let (c, settles, e₁) = >>=-eq-ok (entry_call l2 i x) _ e in
      let key = expected_hash keccak abi_encode_params l2 c in
      let (m', taken, e₂) = >>=-eq-ok (consumed i key (take_one key m)) _ e₁ in
      let (cs, settle, covered) = consume_all-Covered (i + 1) es m' e₂ in
      let left = take_one_left key m m' (consumed-eq-ok i key (take_one key m) m' taken) in
      (c ∷ cs, (entry_call-Settles l2 i x c settles, settle), λ h. omega (arith, covered h, left h))

  Covered-consume_all :
      (i : ℕ) (es : List ExecutionEntry) (m : Counts) (calls : List L2ToL1Call)
      → AllSettle l2 es calls
      → ((h : ℕ) → count h (keys calls) ≤ count_in h m)
      → consume_all keccak abi_encode_params l2 i es m ≡ ok tt
  unfolding consume_all
  Covered-consume_all i [] m calls settle covered = refl
  Covered-consume_all i (x ∷ es) m [] settle covered = absurd settle
  Covered-consume_all i (x ∷ es) m (c ∷ cs) settle covered =
      let key = expected_hash keccak abi_encode_params l2 c in
      let here : 1 ≤ count_in key m = ground (arith, covered key) in
      let (m', taken) = take_one-some key m here in
      let left = take_one_left key m m' taken in
      >>=-ok (entry_call l2 i x) _ c (Settles-entry_call l2 i x c settle.0)
      ∙ >>=-ok (consumed i key (take_one key m)) _ m' (rw taken refl)
      ∙ Covered-consume_all (i + 1) es m' cs settle.1 (λ h. omega (arith, covered h, left h))

  -- The gate lets the entries pass exactly when each settles one call in the supported shape for
  -- this rollup, no event used gas, and every call hash stands at most as often among the calls as
  -- among the events: the multiset of the calls is included in that of the events.
  pub verify_outbound_authorized_iff :
      (entries : List ExecutionEntry) (observed : List OutboundCallObservation)
      → (verify_outbound_authorized keccak abi_encode_params entries observed l2 ≡ ok tt)
        ↔ IsAuthorized entries observed
  unfolding verify_outbound_authorized
  verify_outbound_authorized_iff entries observed = (
    (λ e.
        let (m, collected, e₁) = >>=-eq-ok (collect [] observed) _ e in
        let c = collect-Collected [] observed m collected in
        let (calls, settle, covered) = consume_all-Covered 0 entries m e₁ in
        record {
          calls = calls;
          settle = settle;
          gasless = c.gasless;
          covered = λ h. omega (arith, covered h, c.counted h);
        }),
    λ a.
        let (m, collected) = collect_of [] observed a.gasless in
        let c = collect-Collected [] observed m collected in
        >>=-ok (collect [] observed) _ m collected
        ∙ Covered-consume_all 0 entries m a.calls a.settle
            (λ h. omega (arith, a.covered h, c.counted h)),
  )
