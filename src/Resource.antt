-- ===== src/Resource.antt =====
-- Kernel/src/resource_runtime.go: budgets of one execution. Telemetry (clock, allocation counters)
-- enters as samples; the clock is monotonic, in microseconds. Frames are never nil here.
pub mod Reservation
mod Tests
use memory_ai.Prelude.{
  ℕ, ◌+◌, ◌-◌, String, Bool, true, false, ◌&&◌, ◌||◌, not, List, [], ◌∷◌, Option, none, some, ◌==◌,
  leb, ltb, if◌then◌else◌, contains, Error, Result, ok, err, failure, ◌>>=◌, ◌>>◌, reject_if,
}
use memory_ai.Prelude.Int.{ℤ, pos, exceeds, is_positive}
use memory_ai.Model.{ResourceBudget, FrameResourceScope, Frame}

pub record ResourceSample : Type 0 where
  pub at_us : ℕ
  pub total_alloc : ℕ
  pub heap_alloc : ℕ

-- The growth of a counter, 0 where it fell.
growth : ℕ → ℕ → ℕ
growth before after = if leb before after then after - before else 0

-- The limit of one dimension.
abbrev pub over_budget : Error
over_budget = failure "physical resource budget exceeded"

unfoldable pub check_resource_budget :
    ResourceBudget → ResourceSample → ResourceSample → ℕ → Result (Unit {0})
unfolding growth
check_resource_budget b start now ops = do
  reject_if (exceeds ops b.max_ops) over_budget
  reject_if (exceeds (now.at_us - start.at_us) b.max_cpu_us) over_budget
  if is_positive b.max_alloc_bytes || is_positive b.max_heap_growth_bytes
      then (do
        reject_if (exceeds (growth start.total_alloc now.total_alloc) b.max_alloc_bytes) over_budget
        reject_if (exceeds (growth start.heap_alloc now.heap_alloc) b.max_heap_growth_bytes)
            over_budget)
      else ok tt

-- The frame with a fresh scope, and the function that restores the scope from before.
unfoldable pub enter_frame_resource_scope : Frame → ResourceBudget → Frame × (Frame → Frame)
enter_frame_resource_scope f b =
    let scope : FrameResourceScope = record {
      max_memory_writes = b.max_memory_writes;
      max_events = b.max_events;
      memory_writes = 0;
      events = 0;
    } in
    (record f { resource_scope = some scope }, λ g. record g { resource_scope = f.resource_scope })

abbrev write_ops : List String
write_ops =
    "state_list_append" ∷ "state_list_unique_append" ∷ "state_num_add" ∷ "state_set"
    ∷ "program_import" ∷ "program_set_field" ∷ "program_set_var_ref" ∷ "program_delete"
    ∷ "program_insert_from" ∷ "program_replace_from" ∷ "memory_new" ∷ "memory_copy"
    ∷ "memory_history_append" ∷ "memory_tag_add" ∷ "memory_tag_remove" ∷ "memory_delete"
    ∷ "memory_import_json" ∷ []

unfoldable pub primitive_may_memory_write : String → Bool
unfolding contains
primitive_may_memory_write code = contains write_ops code

unfoldable pub primitive_may_emit_event : String → Bool
primitive_may_emit_event code = code == "emit_event"

reserve_write : FrameResourceScope → String → Result (Unit {0}) × FrameResourceScope
reserve_write scope code =
    let next = scope.memory_writes + 1 in
    if primitive_may_memory_write code
    then if exceeds next scope.max_memory_writes
      then (err over_budget, scope)
      else (ok tt, record scope { memory_writes = next })
    else (ok tt, scope)

reserve_event : FrameResourceScope → String → Result (Unit {0}) × FrameResourceScope
reserve_event scope code =
    let next = scope.events + 1 in
    if primitive_may_emit_event code
    then if exceeds next scope.max_events
      then (err over_budget, scope)
      else (ok tt, record scope { events = next })
    else (ok tt, scope)

after_write :
    Result (Unit {0}) × FrameResourceScope → String → Result (Unit {0}) × FrameResourceScope
after_write (ok _, scope) code = reserve_event scope code
after_write (err e, scope) code = (err e, scope)

unfoldable pub reserve_in : FrameResourceScope → String → Result (Unit {0}) × FrameResourceScope
unfolding reserve_write reserve_event after_write
reserve_in scope code = after_write (reserve_write scope code) code

-- The counters advance in the scope that the frame points to.
unfoldable pub reserve_primitive_resource_budget : Frame → String → Result (Unit {0}) × Frame
reserve_primitive_resource_budget f code = elim f.resource_scope [
  | none ↦ (ok tt, f)
  | some scope ↦
      let (r, scope') = reserve_in scope code in (r, record f { resource_scope = some scope' })
]

unfoldable pub check_resource_budget_before_primitive :
    ResourceBudget
    → ResourceSample
    → ResourceSample
    → ℕ
    → Frame
    → String
    → Result (Unit {0}) × Frame
check_resource_budget_before_primitive b start now ops_executed f code =
    if exceeds (ops_executed + 1) b.max_ops
    then (err over_budget, f)
    else if exceeds (now.at_us - start.at_us) b.max_cpu_us
    then (err over_budget, f)
    else reserve_primitive_resource_budget f code
