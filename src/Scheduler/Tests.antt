-- ===== src/Scheduler/Tests.antt =====
-- A canonical execution that fails.
use memory_ai.Prelude.{[], ◌∷◌, ◌≡◌, refl, true, failure}
use memory_ai.Prelude.Table.{get}
use memory_ai.Samples.{op, body, empty_frame}
use memory_ai.Machine.{State, fail}
use memory_ai.Scheduler.{
  Restores, marked, canonical, canonical-Restores, has_side_effect, speculative_forbidden_primitive,
  speculative_additional_forbidden_primitive,
}

abbrev start : State
start = record {
  frame = empty_frame;
  fabric = record {
    root = "Memory.mem";
    bodies = ("Memory.mem", body) ∷ [];
    write_space = "Memory.mem";
  };
  removed = [];
}

canonical-Restores_example :
    Restores
      (get start.frame.vars "__txn_canonical")
      (fail (failure "denied") (marked start))
      (canonical (λ id s. fail (failure "denied") s) "note" start)
canonical-Restores_example = canonical-Restores (λ id s. fail (failure "denied") s) "note" start

creation_has_side_effect :
    has_side_effect (op "set" "a" "b" "" ∷ op "memory_new" "id" "" "" ∷ []) ≡ true
unfolding has_side_effect speculative_forbidden_primitive speculative_additional_forbidden_primitive
creation_has_side_effect = refl
