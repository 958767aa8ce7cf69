-- ===== src/ProofPlan/Invariants.antt =====
-- The check and the plans that the on-chain structure check is built for.
use eez_rollup.Base.{
  ℕ, zero, suc, ◌+◌, ◌<◌, ◌≡◌, ◌↔◌, refl, ap, ◌∙◌, List, [], ◌∷◌, map, Bool, true, false, not, leb,
  ◌==◌, length, get_elem?, drop, All, some, arith,
}
use eez_rollup.Base.Results.{ok, err, ◌>>◌}
use eez_rollup.ProofPlan.{
  RollupProofAssignment, ProofPlan, ProofPlanInvariantError, Check, fail_if, is_empty,
  check_windows, check_rollup_order, check_bounds, check_row, check_rows, first_is_zero,
  check_invariants, proof_system_index_out_of_bounds, rollup_assignments_not_sorted,
  empty_proof_system_index, empty_proof_systems, empty_rollup_assignments, proof_systems_not_sorted,
  proof_system_index_not_sorted, vk_matrix_outer_length, vk_matrix_row_length, custom_data_length,
}

-- Strictly increasing, from above `p`.
abbrev pub Above : ℕ → List ℕ → Type 0
Above p [] = Unit {0}
Above p (x ∷ xs) = (p < x) × Above x xs

abbrev pub Increasing : List ℕ → Type 0
Increasing [] = Unit {0}
Increasing (x ∷ xs) = Above x xs

abbrev pub RowFits : ℕ → RollupProofAssignment → List (List ℕ) → Type 0
RowFits ps_len a row =
    (0 < length a.proof_system_indexes)
    × (Increasing a.proof_system_indexes
        × (All (λ idx. idx < ps_len) a.proof_system_indexes
            × (length row ≡ length a.proof_system_indexes)))

-- One row of keys for each assignment.
abbrev pub RowsFit : ℕ → List RollupProofAssignment → List (List (List ℕ)) → Type 0
RowsFit ps_len [] [] = Unit {0}
RowsFit ps_len (a ∷ others) (row ∷ rows) = RowFits ps_len a row × RowsFit ps_len others rows
RowsFit ps_len _ _ = ⊥

pub record IsWellFormed (plan : ProofPlan) : Type 0 where
  pub some_systems : 0 < length plan.proof_systems
  pub some_rollups : 0 < length plan.rollup_assignments
  pub systems : Above 0 plan.proof_systems
  pub rollups : Above 0 (map (λ a. a.rollup_id) plan.rollup_assignments)
  pub custom : length plan.custom_data ≡ length plan.rollup_assignments
  pub rows : RowsFit (length plan.proof_systems) plan.rollup_assignments plan.vk_matrix

-- A sequence of checks passes exactly when each passes.
>>_iff : (m k : Check) → ((m >> k) ≡ ok tt) ↔ ((m ≡ ok tt) × (k ≡ ok tt))
>>_iff (ok u) k = (λ e. (refl, e), λ p. p.1)
>>_iff (err f) k = (λ e. cc, λ p. cc)

fail_if_iff : (c : Bool) (f : ProofPlanInvariantError) → (fail_if c f ≡ ok tt) ↔ (c ≡ false)
fail_if_iff true f = (λ e. cc, λ e. cc)
fail_if_iff false f = (λ e. refl, λ e. refl)

check_windows_iff :
    (i : ℕ) (xs : List ℕ) (refuse : ℕ → ProofPlanInvariantError)
    → (check_windows i xs refuse ≡ ok tt) ↔ Increasing xs
unfolding check_windows
check_windows_iff i [] refuse = (λ e. tt, λ v. refl)
check_windows_iff i (x ∷ []) refuse = (λ e. tt, λ v. refl)
check_windows_iff i (x ∷ y ∷ zs) refuse =
    let (to, from) = check_windows_iff (i + 1) (y ∷ zs) refuse in
    let (split, join) =
      >>_iff (fail_if (leb y x) (refuse i)) (check_windows (i + 1) (y ∷ zs) refuse) in
    (
      λ e. (ground (arith, (fail_if_iff (leb y x) (refuse i)).0 (split e).0), to (split e).1),
      λ v. join ((fail_if_iff (leb y x) (refuse i)).1 (ground arith), from v.1),
    )

check_bounds_iff :
    (r j ps_len : ℕ) (xs : List ℕ)
    → (check_bounds r j ps_len xs ≡ ok tt) ↔ All (λ idx. idx < ps_len) xs
unfolding check_bounds
check_bounds_iff r j ps_len [] = (λ e. tt, λ v. refl)
check_bounds_iff r j ps_len (x ∷ xs) =
    let (to, from) = check_bounds_iff r (j + 1) ps_len xs in
    let refused = proof_system_index_out_of_bounds r j x ps_len in
    let (split, join) =
      >>_iff (fail_if (leb ps_len x) refused) (check_bounds r (j + 1) ps_len xs) in
    (
      λ e. (ground (arith, (fail_if_iff (leb ps_len x) refused).0 (split e).0), to (split e).1),
      λ v. join ((fail_if_iff (leb ps_len x) refused).1 (ground arith), from v.1),
    )

later_rollups_iff :
    (i prev : ℕ) (xs : List RollupProofAssignment)
    → (check_rollup_order i prev false xs ≡ ok tt) ↔ Above prev (map (λ a. a.rollup_id) xs)
unfolding check_rollup_order
later_rollups_iff i prev [] = (λ e. tt, λ v. refl)
later_rollups_iff i prev (x ∷ xs) =
    let (to, from) = later_rollups_iff (i + 1) x.rollup_id xs in
    let (split, join) =
      >>_iff (fail_if (leb x.rollup_id prev) (rollup_assignments_not_sorted i))
        (check_rollup_order (i + 1) x.rollup_id false xs) in
    let (test, pass) = fail_if_iff (leb x.rollup_id prev) (rollup_assignments_not_sorted i) in
    (
      λ e. (ground (arith, test (split e).0), to (split e).1),
      λ v. join (pass (ground arith), from v.1),
    )

rollups_iff :
    (xs : List RollupProofAssignment)
    → (check_rollup_order 0 0 true xs ≡ ok tt) ↔ Above 0 (map (λ a. a.rollup_id) xs)
unfolding check_rollup_order
rollups_iff [] = (λ e. tt, λ v. refl)
rollups_iff (x ∷ xs) =
    let (to, from) = later_rollups_iff 1 x.rollup_id xs in
    let (split, join) =
      >>_iff (fail_if (x.rollup_id == 0) (rollup_assignments_not_sorted 0))
        (check_rollup_order 1 x.rollup_id false xs) in
    let (test, pass) = fail_if_iff (x.rollup_id == 0) (rollup_assignments_not_sorted 0) in
    (
      λ e. (ground (arith, test (split e).0), to (split e).1),
      λ v. join (pass (ground arith), from v.1),
    )

systems_iff : (xs : List ℕ) → ((first_is_zero xs ≡ false) × Increasing xs) ↔ Above 0 xs
systems_iff [] = (λ p. tt, λ v. (refl, tt))
systems_iff (x ∷ xs) = (λ p. (ground arith, p.1), λ v. (ground arith, v.1))

not_empty_iff {ℓ} : {A : Type ℓ} (xs : List A) → (is_empty xs ≡ false) ↔ (0 < length xs)
not_empty_iff [] = ground arith
not_empty_iff (x ∷ xs) = ground arith

then_iff {ℓ κ} :
    {P : Type ℓ} {Q : Type κ} {m k : Check}
    → (m ≡ ok tt) ↔ P
    → (k ≡ ok tt) ↔ Q
    → ((m >> k) ≡ ok tt) ↔ (P × Q)
then_iff {m = m} {k = k} p q =
    let (split, join) = >>_iff m k in
    (λ e. (p.0 (split e).0, q.0 (split e).1), λ v. join (p.1 v.0, q.1 v.1))

unless_iff {ℓ} :
    {P : Type ℓ} (c : Bool) (f : ProofPlanInvariantError)
    → (c ≡ false) ↔ P
    → (fail_if c f ≡ ok tt) ↔ P
unless_iff c f p = let (test, pass) = fail_if_iff c f in (λ e. p.0 (test e), λ v. pass (p.1 v))

same_length_iff : (a b : ℕ) → (not (a == b) ≡ false) ↔ (b ≡ a)
same_length_iff a b = (λ e. ground arith, λ e. ground arith)

check_row_iff :
    (r ps_len : ℕ) (a : RollupProofAssignment) (row : List (List ℕ))
    → (check_row r ps_len a (some row) ≡ ok tt) ↔ RowFits ps_len a row
unfolding check_row
check_row_iff r ps_len a row =
    let indexes = a.proof_system_indexes in
    then_iff (unless_iff (is_empty indexes) (empty_proof_system_index r) (not_empty_iff indexes)) (
      then_iff (check_windows_iff 1 indexes (proof_system_index_not_sorted r)) (
        then_iff (check_bounds_iff r 0 ps_len indexes) (
          unless_iff (not (length indexes == length row))
            (vk_matrix_row_length r (length indexes) (length row))
            (same_length_iff (length indexes) (length row)))))

drop_cons {ℓ} :
    {A : Type ℓ} (r : ℕ) (xs : List A) (x : A) (ys : List A)
    → drop r xs ≡ x ∷ ys
    → (get_elem? xs r ≡ some x) × (drop (r + 1) xs ≡ ys)
drop_cons zero [] x ys e = cc
drop_cons zero (z ∷ zs) x ys e = ground arith
drop_cons (suc r) [] x ys e = cc
drop_cons (suc r) (z ∷ zs) x ys e =
    let (here, rest) = drop_cons r zs x ys e in
    (here, ap (λ n. drop n (z ∷ zs)) (succ_shift r) ∙ rest)
  where
    succ_shift : (r : ℕ) → suc r + 1 ≡ suc (r + 1)
    succ_shift r = omega arith

check_rows_iff :
    (r ps_len : ℕ) (keys rows : List (List (List ℕ))) (xs : List RollupProofAssignment)
    → drop r keys ≡ rows
    → length rows ≡ length xs
    → (check_rows r ps_len keys xs ≡ ok tt) ↔ RowsFit ps_len xs rows
unfolding check_rows
check_rows_iff r ps_len keys [] [] at same = (λ e. tt, λ v. refl)
check_rows_iff r ps_len keys (row ∷ rows) [] at same = absurd (omega arith)
check_rows_iff r ps_len keys [] (a ∷ xs) at same = absurd (omega arith)
check_rows_iff r ps_len keys (row ∷ rows) (a ∷ xs) at same =
    let (here, rest) = drop_cons r keys row rows at in
    rw here (
      then_iff (check_row_iff r ps_len a row)
        (check_rows_iff (r + 1) ps_len keys rows xs rest (omega arith)))

RowsFit-length :
    (ps_len : ℕ) (xs : List RollupProofAssignment) (rows : List (List (List ℕ)))
    → RowsFit ps_len xs rows
    → length rows ≡ length xs
RowsFit-length ps_len [] [] v = refl
RowsFit-length ps_len [] (row ∷ rows) v = absurd v
RowsFit-length ps_len (a ∷ xs) [] v = absurd v
RowsFit-length ps_len (a ∷ xs) (row ∷ rows) v = ap suc (RowsFit-length ps_len xs rows v.1)

swapped_length_iff : (a b : ℕ) → (not (a == b) ≡ false) ↔ (a ≡ b)
swapped_length_iff a b = (λ e. ground arith, λ e. ground arith)

then_rows_iff :
    (ps_len : ℕ) (keys : List (List (List ℕ))) (xs : List RollupProofAssignment)
    → ((fail_if (not (length keys == length xs)) (vk_matrix_outer_length (length xs) (length keys))
          >> check_rows 0 ps_len keys xs)
        ≡ ok tt)
      ↔ RowsFit ps_len xs keys
then_rows_iff ps_len keys xs =
    let refused = vk_matrix_outer_length (length xs) (length keys) in
    let (split, join) =
      >>_iff (fail_if (not (length keys == length xs)) refused) (check_rows 0 ps_len keys xs) in
    let (test, pass) =
      unless_iff (not (length keys == length xs)) refused
        (swapped_length_iff (length keys) (length xs)) in
    (
      λ e. (check_rows_iff 0 ps_len keys keys xs refl (test (split e).0)).0 (split e).1,
      λ v.
          let same = RowsFit-length ps_len xs keys v in
          join (pass same, (check_rows_iff 0 ps_len keys keys xs refl same).1 v),
    )

-- A plan passes exactly when it has proof systems and rollups, both strictly increasing from above 0, one
-- row of custom data and of keys for each rollup, and each rollup's indexes are there, strictly
-- increasing, within the proof systems, and as many as its keys.
pub check_invariants_iff : (plan : ProofPlan) → (check_invariants plan ≡ ok tt) ↔ IsWellFormed plan
unfolding check_invariants
check_invariants_iff plan =
    let systems = plan.proof_systems in
    let rollups = plan.rollup_assignments in
    let keys = plan.vk_matrix in
    let counts = length rollups in
    let (to, from) =
      then_iff (unless_iff (is_empty systems) empty_proof_systems (not_empty_iff systems)) (
        then_iff (unless_iff (is_empty rollups) empty_rollup_assignments (not_empty_iff rollups)) (
          then_iff (fail_if_iff (first_is_zero systems) (proof_systems_not_sorted 0)) (
            then_iff (check_windows_iff 1 systems proof_systems_not_sorted) (
              then_iff (rollups_iff rollups) (
                then_iff
                  (unless_iff (not (length plan.custom_data == counts))
                    (custom_data_length counts (length plan.custom_data))
                    (swapped_length_iff (length plan.custom_data) counts))
                  (then_rows_iff (length systems) keys rollups)))))) in
    (
      λ e.
          let (a, (b, (c, (d, (f, (g, h)))))) = to e in
          record {
            some_systems = a;
            some_rollups = b;
            systems = (systems_iff systems).0 (c, d);
            rollups = f;
            custom = g;
            rows = h;
          },
      λ v.
          let (c, d) = (systems_iff systems).1 v.systems in
          from (v.some_systems, (v.some_rollups, (c, (d, (v.rollups, (v.custom, v.rows)))))),
    )
