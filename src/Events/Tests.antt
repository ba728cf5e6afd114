-- ===== src/Events/Tests.antt =====
-- Concrete events.
use memory_ai.Prelude.{
  contains, List, String, ◌≡◌, refl, true, false, [], ◌∷◌, some, Result, ok, failure,
}
use memory_ai.Prelude.Int.{pos}
use memory_ai.Prelude.Table.{get}
use memory_ai.Prelude.Text.{trim_space, trim_left, trim_right, is_blank}
use memory_ai.Prelude.Find.{atoi}
use memory_ai.Model.{Memory}
use memory_ai.Samples.{op, blank, body, empty_frame}
use memory_ai.Frames.{Ceilings}
use memory_ai.Machine.{State, Action, fail, text_at}
use memory_ai.Events.{
  PhysicalEvent, memory_matches_physical_event, triggers_hold, trigger_holds, has_prefix,
  after_prefix, is_meta, has_parent, enqueue_event,
}
use memory_ai.Events.{all_updates, branch_updates, independent_event_frame_vars_candidate}
use memory_ai.Frames.{
  frame_vars_merge_candidate, ensure_frame_vars_within_physical_limit, ensure_frame_values,
  ensure_frame_value_bytes, add_vars, merge_vars,
}
use memory_ai.Prelude.Table.{Table, put, remove}
use memory_ai.Model.{Frame}
use memory_ai.Events.Merge.{
  all_distinct, distinct, last_change, or_else, independent_event_frame_vars_candidate-merges,
}
use memory_ai.Events.Metadata.{Leaves, unaliased, enqueue_event-restores}

abbrev ceilings : Ceilings
ceilings = record {
  value_max_bytes = 64;
  var_max_items = 16;
  var_max_bytes = 512;
  list_max_items = 8;
  output_max_items = 8;
  output_max_bytes = 256;
  event_var_max_items = 8;
  event_var_max_bytes = 256;
  program_max_ops = 8;
  program_max_bytes = 400;
  program_size = λ p. some 100;
}

abbrev ping : PhysicalEvent
ping = record {
  id = "event-1";
  name = "ping";
  subject = "note";
  vars = ("text", "hi") ∷ [];
  depth = pos 0;
}

abbrev handler : Memory
handler = record (blank "handler") {
  program = op "emit" "{{text}}" "" "" ∷ [];
  trigger = "event:ping" ∷ " subject_tag:memory" ∷ [];
}

handler_matches : memory_matches_physical_event handler ping ("memory" ∷ []) ≡ true
unfolding memory_matches_physical_event triggers_hold trigger_holds has_prefix after_prefix
    trim_space trim_left trim_right is_blank contains
handler_matches = refl

handler_waits : memory_matches_physical_event handler ping ("topic" ∷ []) ≡ false
unfolding memory_matches_physical_event triggers_hold trigger_holds has_prefix after_prefix
    trim_space trim_left trim_right is_blank contains
handler_waits = refl

-- A Frame within another event.
abbrev nested : State
nested = record {
  frame = record empty_frame {
    vars =
        ("__event", "pong")
        ∷ ("__event_id", "event-0")
        ∷ ("__event.text", "ho")
        ∷ ("__event_depth", "64")
        ∷ [];
  };
  fabric = record {
    root = "Memory.mem";
    bodies = ("Memory.mem", body) ∷ [];
    write_space = "Memory.mem";
  };
  removed = [];
}

abbrev no_features : String → State → Result (List String)
no_features feature s = ok ("note" ∷ [])

abbrev denied : String → Action (Unit {0})
denied id = fail (failure "denied")

within : has_parent ceilings no_features atoi denied nested.frame.vars ≡ true
unfolding has_parent text_at get
within = refl

event_meta : is_meta "__event" ≡ true
unfolding is_meta has_prefix
event_meta = refl

event_unaliased : unaliased "__event" nested.frame.vars ≡ true
unfolding unaliased has_prefix after_prefix
event_unaliased = refl

enqueue_event-restores_example :
    Leaves "__event" nested (enqueue_event ceilings no_features atoi denied ping nested)
enqueue_event-restores_example =
    enqueue_event-restores ceilings no_features atoi denied ping "__event" nested within event_meta
      event_unaliased

-- Two branches of an empty Frame.
abbrev left : Frame
left = record empty_frame { vars = ("a", "1") ∷ ("b", "2") ∷ [] }

abbrev right : Frame
right = record empty_frame { vars = ("b", "3") ∷ [] }

branches_distinct : all_distinct (left ∷ right ∷ []) ≡ true
unfolding all_distinct distinct get
branches_distinct = refl

abbrev merged_vars : Table String
merged_vars = ("a", "1") ∷ ("b", "3") ∷ []

merged :
    independent_event_frame_vars_candidate ceilings empty_frame empty_frame (left ∷ right ∷ [])
    ≡ ok merged_vars
unfolding independent_event_frame_vars_candidate frame_vars_merge_candidate
    ensure_frame_vars_within_physical_limit ensure_frame_values ensure_frame_value_bytes add_vars
    all_updates branch_updates merge_vars get put remove
merged = refl

independent_event_frame_vars_candidate-merges_example :
    get merged_vars "b" ≡ or_else (last_change [] (left ∷ right ∷ []) "b") (get [] "b")
independent_event_frame_vars_candidate-merges_example =
    independent_event_frame_vars_candidate-merges ceilings empty_frame empty_frame
      (left ∷ right ∷ []) merged_vars "b" branches_distinct merged
