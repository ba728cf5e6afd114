-- ===== src/Machine/Tests.antt =====
-- Concrete runs of the machine on a core body that mounts an empty storage body.
use memory_ai.Prelude.{
  inl, suc, ℕ, String, ◌≡◌, ◌≢◌, refl, true, false, [], ◌∷◌, none, some, ◌==◌, eq_iff, arith, ok,
  err, eof, ◌&&◌,
}
use memory_ai.Prelude.Int.{pos}
use memory_ai.Prelude.Table.{get, put, flag}
use memory_ai.Model.{Op, Memory}
use memory_ai.Samples.{op, blank, body, empty_frame, no_budget}
use memory_ai.Engine.{Engine, Store}
use memory_ai.Engine.View.{view}
use memory_ai.Fabric.{Limits}
use memory_ai.Fabric.Resolve.{shows}
use memory_ai.Fabric.Writes.{IsUnique}
use memory_ai.Frames.{Ceilings}
use memory_ai.Resource.{
  ResourceSample, check_resource_budget, check_resource_budget_before_primitive,
  reserve_primitive_resource_budget,
}
use memory_ai.Machine.{State, Host, done, out_of_fuel, ◌>>=◌, ◌>>◌, continue, lift, pure}
use memory_ai.Machine.Targets.{Target, change_in, removed_at}
use memory_ai.Machine.Programs.{fragment_count}
use memory_ai.Machine.Run.{
  run, run_from, run_op, exec_primitive, primitives, labels_from, current, current_memory, cached,
  reserve,
}
use memory_ai.Machine.Sound.Calls.{is_call}
use memory_ai.Machine.Sound.Execution.{IsSafe, has_no_call, run-IsSafe, run_from-terminates}
use memory_ai.Machine.Exact.{fragment_count-exact, change_in-exact}
use memory_ai.Machine.Jumps.{JumpsTo, IsLabelAt, jump-lands}
use memory_ai.Machine.Texts.{variable_cases, number_cases, jump_to}
use memory_ai.Machine.Reads.{read_cases}
use memory_ai.Security.{check_primitive_capability, required_capability}

abbrev ceilings : Ceilings
ceilings = record {
  value_max_bytes = 64;
  var_max_items = 8;
  var_max_bytes = 256;
  list_max_items = 8;
  output_max_items = 8;
  output_max_bytes = 256;
  event_var_max_items = 8;
  event_var_max_bytes = 256;
  program_max_ops = 8;
  program_max_bytes = 400;
  program_size = λ p. some 100;
}

abbrev limits : Limits
limits = record {
  shard_max = 4;
  record_max_bytes = 1000;
  encoded_size = λ m. some 10;
  copy = λ m. m;
}

-- Numbers are not needed here.
abbrev host : Host
host = record {
  ceilings = ceilings;
  limits = limits;
  add = λ a b. a;
  sub = λ a b. a;
  mul = λ a b. a;
  div = λ a b. a;
  is_zero = λ a. a == "0";
  is_less = λ a b. false;
  is_at_most = λ a b. true;
  sprint = λ v. "";
  parse_texts = λ s. none;
  rune_count = λ s. 0;
  query_escape = λ s. s;
  sha256_hex = λ s. s;
  parse_program = λ s. some [];
  print_program = λ p. "";
  print_args = λ a. "";
  equal_fold = λ a b. a == b;
  remote_fetch = λ id. err eof;
  shared_fetch = λ id. none;
  remote_tags = λ tag. [];
  shared_tags = λ tag. [];
}

abbrev still : ℕ → ResourceSample
still n = record { at_us = 0; total_alloc = 0; heap_alloc = 0 }

-- A Memory that notes its own id in its state and then jumps for ever.
abbrev busy : Memory
busy = record (blank "busy") {
  capabilities = "memory.write" ∷ [];
  capability_sig = "signed";
  budget = record no_budget { max_ops = pos 6 };
  program =
      op "label" "top" "" ""
      ∷ op "self" "me" "" ""
      ∷ op "state_set" "{{me}}" "last" "{{me}}"
      ∷ op "jump" "top" "" ""
      ∷ [];
}

abbrev empty_store : Store
empty_store = record {
  get_id = λ id. err eof;
  tag_ids = λ tag. err eof;
  all_ids = ok [];
  memory_count = 0;
}

abbrev start : State
start = record {
  frame = empty_frame;
  fabric = record {
    root = "Memory.mem";
    bodies =
        ("Memory.mem", record body { store = empty_store; cache = ("busy", busy) ∷ [] })
        ∷ (
          "Memory.a.mem",
          record body { body_path = "Memory.a.mem"; role = "storage"; store = empty_store },
        )
        ∷ [];
    write_space = "Memory.mem";
  };
  removed = [];
}

start-IsUnique : IsUnique start.fabric.bodies
unfolding get view
start-IsUnique = record {
  once = λ p q id m n h k. ground (
    arith,
    eq_iff "Memory.mem" p,
    eq_iff "Memory.a.mem" p,
    eq_iff "Memory.mem" q,
    eq_iff "Memory.a.mem" q,
  );
}

run-IsSafe_example : IsSafe ceilings start (run host still 8 2 "busy" start)
run-IsSafe_example = run-IsSafe host still 8 2 "busy" start refl start-IsUnique

abbrev busy_target : Target
busy_target = record { body = "Memory.mem"; key = "busy"; memory = busy }

busy-has_no_call : has_no_call busy.program ≡ true
unfolding has_no_call is_call
busy-has_no_call = refl

run_from-terminates_example :
    run_from still
      (exec_primitive host (run host still 8 1))
      busy_target
      (labels_from 0 busy.program [])
      8
      0
      0
      start
    ≢ out_of_fuel
run_from-terminates_example =
    run_from-terminates host still busy_target (labels_from 0 busy.program []) 5 8 1 start
      start-IsUnique refl busy-has_no_call (omega arith)

fragment_count-exact_example :
    fragment_count 5 2 (pos 9223372036854775807) ≡ (9223372036854775807, true)
fragment_count-exact_example =
    fragment_count-exact 5 2 (pos 9223372036854775807) (omega arith) (omega arith)

abbrev jump_top : Op
jump_top = op "jump" "top" "" ""

jumped :
    run_op still
      (exec_primitive host (run host still 8 1))
      busy_target
      (labels_from 0 busy.program [])
      3
      jump_top
      start
    ≡ done (some 0) start
unfolding run_op ◌>>=◌ ◌>>◌ continue lift pure current current_memory cached removed_at get put
    labels_from reserve check_resource_budget_before_primitive reserve_primitive_resource_budget
    check_resource_budget check_primitive_capability exec_primitive primitives variable_cases
    read_cases number_cases jump_to required_capability
jumped = refl

jumps : JumpsTo jump_top "top"
unfolding JumpsTo
jumps = inl (refl, refl)

jump-lands_example :
    IsLabelAt busy.program "top" 0
    × (run_from still
          (exec_primitive host (run host still 8 1))
          busy_target
          (labels_from 0 busy.program [])
          5
          3
          3
          start
        ≡ run_from still
            (exec_primitive host (run host still 8 1))
            busy_target
            (labels_from 0 busy.program [])
            4
            0
            4
            start)
jump-lands_example =
    jump-lands host (run host still 8 1) still busy_target jump_top "top" 4 3 3 0 start start refl
      jumps jumped

busy_shown : shows start.fabric.bodies "Memory.mem" "busy" ≡ some busy
unfolding get view
busy_shown = refl

root_there :
    get start.fabric.bodies "Memory.mem"
    ≡ some (record body { store = empty_store; cache = ("busy", busy) ∷ [] })
unfolding get
root_there = refl

change_in-exact_example :
    (u : State) × (change_in "Memory.mem" busy_target (blank "busy") start ≡ done tt u)
    × (shows u.fabric.bodies "Memory.mem" "busy"
        ≡ some
            (record (blank "busy") { capability_sig = ""; revision = suc (blank "busy").revision }))
    × ((p id : String)
        → ("Memory.mem" == p && "busy" == id) ≡ false
        → shows u.fabric.bodies p id ≡ shows start.fabric.bodies p id)
    × ((e : Engine)
        → get u.fabric.bodies "Memory.mem" ≡ some e
        → (e.dirty ≡ true) × (flag e.dirty_ids "busy" ≡ true))
change_in-exact_example =
    change_in-exact "Memory.mem" busy_target (blank "busy") start _ busy_shown root_there
