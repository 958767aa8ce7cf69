-- ===== src/ProofPlan.antt =====
-- crates/eez-protocol/src/proof_plan.rs: the shape check of a batch's proof plan. An address is the
-- number of its bytes, big-endian, so the order of the two is the same. `usize` has 64 bits.
pub mod Invariants
use eez_rollup.Base.{
  ℕ, zero, ◌+◌, List, [], ◌∷◌, Bool, true, false, not, leb, ◌==◌, ◌&&◌, if◌then◌else◌, length,
  get_elem?, Option, none, some,
}
use eez_rollup.Base.Results.{Result, ok, err, ◌>>◌}

pub record RollupProofAssignment : Type 0 where
  pub rollup_id : ℕ
  pub proof_system_indexes : List ℕ

pub record ProofPlan : Type 0 where
  pub proof_systems : List ℕ
  pub rollup_assignments : List RollupProofAssignment
  pub custom_data : List (List ℕ)
  pub vk_matrix : List (List (List ℕ))

abbrev pub rollup_count : ProofPlan → ℕ
rollup_count plan = length plan.rollup_assignments

abbrev pub proof_system_count : ProofPlan → ℕ
proof_system_count plan = length plan.proof_systems

-- `index_panic` is the panic of `self.vk_matrix[r]` out of range.
pub data ProofPlanInvariantError : Type 0 where
  empty_proof_systems : ProofPlanInvariantError
  empty_rollup_assignments : ProofPlanInvariantError
  proof_systems_not_sorted : ℕ → ProofPlanInvariantError
  rollup_assignments_not_sorted : ℕ → ProofPlanInvariantError
  empty_proof_system_index : ℕ → ProofPlanInvariantError
  proof_system_index_not_sorted : ℕ → ℕ → ProofPlanInvariantError
  proof_system_index_out_of_bounds : ℕ → ℕ → ℕ → ℕ → ProofPlanInvariantError
  vk_matrix_outer_length : ℕ → ℕ → ProofPlanInvariantError
  vk_matrix_row_length : ℕ → ℕ → ℕ → ProofPlanInvariantError
  custom_data_length : ℕ → ℕ → ProofPlanInvariantError
  index_panic : ProofPlanInvariantError

abbrev pub Check : Type 0
Check = Result ProofPlanInvariantError (Unit {0})

abbrev pub fail_if : Bool → ProofPlanInvariantError → Check
fail_if c e = if c then err e else ok tt

abbrev pub is_empty {ℓ} : {A : Type ℓ} → List A → Bool
is_empty [] = true
is_empty (x ∷ xs) = false

-- `for (i, pair) in xs.windows(2).enumerate()`, with `i + 1` in place of `i`.
unfoldable pub check_windows : ℕ → List ℕ → (ℕ → ProofPlanInvariantError) → Check
check_windows i [] refuse = ok tt
check_windows i (x ∷ []) refuse = ok tt
check_windows i (x ∷ y ∷ zs) refuse =
    let rest = check_windows (i + 1) (y ∷ zs) refuse in fail_if (leb y x) (refuse i) >> rest

-- The loop over the assignments, with its `prev_rid` and `first`.
unfoldable pub check_rollup_order : ℕ → ℕ → Bool → List RollupProofAssignment → Check
check_rollup_order i prev_rid first [] = ok tt
check_rollup_order i prev_rid first (a ∷ others) =
    let rest = check_rollup_order (i + 1) a.rollup_id false others in
    fail_if (not first && leb a.rollup_id prev_rid) (rollup_assignments_not_sorted i)
    >> (fail_if (first && a.rollup_id == 0) (rollup_assignments_not_sorted 0) >> rest)

unfoldable pub check_bounds : ℕ → ℕ → ℕ → List ℕ → Check
check_bounds r j ps_len [] = ok tt
check_bounds r j ps_len (idx ∷ rest) =
    let more = check_bounds r (j + 1) ps_len rest in
    fail_if (leb ps_len idx) (proof_system_index_out_of_bounds r j idx ps_len) >> more

unfoldable pub check_row : ℕ → ℕ → RollupProofAssignment → Option (List (List ℕ)) → Check
check_row r ps_len a row =
    fail_if (is_empty a.proof_system_indexes) (empty_proof_system_index r)
    >> (check_windows 1 a.proof_system_indexes (proof_system_index_not_sorted r)
        >> (check_bounds r 0 ps_len a.proof_system_indexes >> elim row [
          | none ↦ err index_panic
          | some keys ↦
              fail_if (not (length a.proof_system_indexes == length keys))
                (vk_matrix_row_length r (length a.proof_system_indexes) (length keys))
        ]))

unfoldable pub check_rows : ℕ → ℕ → List (List (List ℕ)) → List RollupProofAssignment → Check
check_rows r ps_len vk_matrix [] = ok tt
check_rows r ps_len vk_matrix (a ∷ others) =
    let rest = check_rows (r + 1) ps_len vk_matrix others in
    check_row r ps_len a (get_elem? vk_matrix r) >> rest

-- `self.proof_systems[0] == Address::ZERO`; an empty list was refused before.
abbrev pub first_is_zero : List ℕ → Bool
first_is_zero [] = false
first_is_zero (x ∷ xs) = x == 0

unfoldable pub check_invariants : ProofPlan → Check
check_invariants plan =
    let rows = length plan.rollup_assignments in
    fail_if (is_empty plan.proof_systems) empty_proof_systems
    >> (fail_if (is_empty plan.rollup_assignments) empty_rollup_assignments
        >> (fail_if (first_is_zero plan.proof_systems) (proof_systems_not_sorted 0)
            >> (check_windows 1 plan.proof_systems proof_systems_not_sorted
                >> (check_rollup_order 0 0 true plan.rollup_assignments
                    >> (fail_if (not (length plan.custom_data == rows))
                          (custom_data_length rows (length plan.custom_data))
                        >> (fail_if (not (length plan.vk_matrix == rows))
                              (vk_matrix_outer_length rows (length plan.vk_matrix))
                            >> check_rows 0 (length plan.proof_systems) plan.vk_matrix
                                plan.rollup_assignments))))))
