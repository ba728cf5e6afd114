-- ===== src/Samples.antt =====
-- Small concrete values for the tests and the witnesses.
use memory_ai.Prelude.{String, false, [], ◌∷◌, none, ◌==◌, if◌then◌else◌, ok, err, eof}
use memory_ai.Prelude.Int.{pos}
use memory_ai.Model.{Op, ResourceBudget, Memory, Frame}
use memory_ai.Engine.{Store, Engine}

abbrev pub op : String → String → String → String → Op
op code a b c = record { code = code; a = a; b = b; c = c; args = [] }

abbrev pub no_budget : ResourceBudget
no_budget = record {
  max_ops = pos 0;
  max_memory_writes = pos 0;
  max_events = pos 0;
  max_cpu_us = pos 0;
  max_alloc_bytes = pos 0;
  max_heap_growth_bytes = pos 0;
}

abbrev pub blank : String → Memory
blank id = record {
  id = id;
  layer = "emergent";
  generation = pos 0;
  parents = [];
  tags = [];
  content = "";
  executable = false;
  input_pattern = [];
  output_effect = [];
  success_history = [];
  failure_history = [];
  mutation_variants = [];
  trigger = [];
  capabilities = [];
  capability_sig = "";
  budget = no_budget;
  revision = 1;
  program = [];
  state = [];
  runtime_exec_count = 0;
  created_unix = pos 0;
}

abbrev pub empty_frame : Frame
empty_frame = record { vars = []; lists = []; output = []; resource_scope = none }

-- A body with one stored record.
abbrev pub note : Memory
note = record (blank "note") { tags = "memory" ∷ [] }

abbrev pub one_store : Store
one_store = record {
  get_id = λ id. if "note" == id then ok note else err eof;
  tag_ids = λ tag. if "memory" == tag then ok ("note" ∷ []) else err eof;
  all_ids = ok ("note" ∷ []);
  memory_count = 1;
}

abbrev pub body : Engine
body = record {
  body_path = "Memory.mem";
  role = "core";
  store = one_store;
  cache = [];
  new_ids = [];
  dirty_ids = [];
  deleted_ids = [];
  dirty = false;
  tag_added = [];
  tag_removed = [];
  page_ins = 0;
}
