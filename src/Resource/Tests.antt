-- ===== src/Resource/Tests.antt =====
-- A run of three operations under a budget of one write and one event.
use memory_ai.Prelude.{◌≡◌, refl, String, List, [], ◌∷◌, ◌↔◌, ok, err}
use memory_ai.Prelude.Int.{pos}
use memory_ai.Model.{ResourceBudget}
use memory_ai.Samples.{no_budget, empty_frame}
use memory_ai.Resource.{
  over_budget, primitive_may_memory_write, primitive_may_emit_event, reserve_in,
  reserve_primitive_resource_budget, enter_frame_resource_scope,
}
use memory_ai.Resource.Reservation.{reserve_all, count, Fits, reserve_all-ok_iff}

abbrev tight : ResourceBudget
tight = record no_budget { max_memory_writes = pos 1; max_events = pos 1 }

abbrev codes : List String
codes = "memory_new" ∷ "set" ∷ "emit_event" ∷ []

reserve_all-ok_iff_example :
    ((reserve_all (enter_frame_resource_scope empty_frame tight).0 codes).0 ≡ ok tt) ↔ (
      Fits (count primitive_may_memory_write codes) (pos 1)
      × Fits (count primitive_may_emit_event codes) (pos 1))
reserve_all-ok_iff_example = reserve_all-ok_iff empty_frame tight codes

second_write_refused :
    (reserve_all (enter_frame_resource_scope empty_frame tight).0 ("memory_new" ∷ codes)).0
    ≡ err over_budget
unfolding reserve_all enter_frame_resource_scope reserve_primitive_resource_budget reserve_in
    primitive_may_memory_write primitive_may_emit_event
second_write_refused = refl
