-- ===== src/Security/Tests.antt =====
-- The admission theorems at a Memory that searches the mesh and sets a variable.
use memory_ai.Prelude.{◌≡◌, refl, String, Bool, true, false, [], ◌∷◌, All, ok, err, failure, ◌⊎◌}
use memory_ai.Model.{Memory}
use memory_ai.Samples.{op, blank}
use memory_ai.Security.{
  required_capability, has_capability, check_primitive_capability, is_remote_denied, validate_op,
  validate_program, validate_declared, is_empty, validate_memory_capabilities,
}
use memory_ai.Security.Admission.{validated-never_denied, remote_validated-confined}

abbrev searcher : Memory
searcher = record (blank "searcher") {
  capabilities = "mesh.read" ∷ [];
  program = op "mesh_shared_search" "tag" "out" "" ∷ op "set" "a" "b" "" ∷ [];
}

abbrev trusting : Memory → Bool
trusting _ = true

searcher_passes : validate_memory_capabilities trusting searcher true ≡ ok tt
unfolding validate_memory_capabilities validate_program validate_op validate_declared has_capability
    is_remote_denied required_capability
searcher_passes = refl

validated-never_denied_example :
    All (λ o. check_primitive_capability searcher o.code ≡ ok tt) searcher.program
validated-never_denied_example = validated-never_denied trusting searcher true searcher_passes

remote_validated-confined_example :
    ((code : String)
      → is_remote_denied (required_capability code) ≡ true
      → check_primitive_capability searcher code ≡ err (failure "capability denied"))
    × All (λ o. is_remote_denied (required_capability o.code) ≡ false) searcher.program
    × ((is_empty searcher.program ≡ true) × (is_empty searcher.trigger ≡ true)
        ⊎ (trusting searcher ≡ true))
remote_validated-confined_example = remote_validated-confined trusting searcher searcher_passes

raw_denied :
    check_primitive_capability searcher "physical_exchange" ≡ err (failure "capability denied")
unfolding check_primitive_capability has_capability required_capability
raw_denied = refl
