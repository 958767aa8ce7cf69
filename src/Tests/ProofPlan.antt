-- ===== src/Tests/ProofPlan.antt =====
-- crates/eez-protocol/src/proof_plan.rs on a plan of two proof systems and two rollups.
use eez_rollup.Base.{◌≡◌, ◌↔◌, refl, [], ◌∷◌, replicate}
use eez_rollup.Base.Results.{ok, err}
use eez_rollup.ProofPlan.{
  ProofPlan, check_invariants, check_windows, check_rollup_order, check_rows, check_row,
  check_bounds, proof_systems_not_sorted,
}
use eez_rollup.ProofPlan.Invariants.{IsWellFormed, check_invariants_iff}

abbrev two_rollups : ProofPlan
two_rollups = record {
  proof_systems = 0xaa ∷ 0xbb ∷ [];
  rollup_assignments =
      record { rollup_id = 1; proof_system_indexes = 0 ∷ 1 ∷ [] }
      ∷ record { rollup_id = 4; proof_system_indexes = 1 ∷ [] }
      ∷ [];
  custom_data = [] ∷ [] ∷ [];
  vk_matrix = (replicate 32 1 ∷ replicate 32 2 ∷ []) ∷ (replicate 32 3 ∷ []) ∷ [];
}

two_rollups_pass : check_invariants two_rollups ≡ ok tt
unfolding check_invariants check_windows check_rollup_order check_rows check_row check_bounds
two_rollups_pass = refl

unsorted_fail :
    check_invariants (record two_rollups { proof_systems = 0xbb ∷ 0xaa ∷ [] })
    ≡ err (proof_systems_not_sorted 1)
unfolding check_invariants check_windows check_rollup_order check_rows check_row check_bounds
unsorted_fail = refl

check_invariants_iff_example : (check_invariants two_rollups ≡ ok tt) ↔ IsWellFormed two_rollups
check_invariants_iff_example = check_invariants_iff two_rollups
