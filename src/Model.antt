-- ===== src/Model.antt =====
-- Kernel/src/kernel.go: the records that the whole kernel shares. A Memory is the unit of storage
-- and of execution; a Frame is the working state of one execution.
-- Byte counts, revisions and counters are natural numbers: the model leaves out the wrap-around of
-- uint64 and int64 counters after 2 ^ 63 steps.
use memory_ai.Prelude.{ℕ, String, Bool, List, Option}
use memory_ai.Prelude.Int.{ℤ}
use memory_ai.Prelude.Table.{Table}

-- A value of `map[string]any` after decoding JSON, or as the kernel writes it. A number is the bit
-- pattern of its float64. `strings` is the kernel's own `[]string`.
mutual
  pub data Value : Type 0 where
    null : Value
    boolean : Bool → Value
    number : ℕ → Value
    text : String → Value
    strings : List String → Value
    items : Values → Value
    object : Fields → Value

  pub data Values : Type 0 where
    nil : Values
    cons : Value → Values → Values

  pub data Fields : Type 0 where
    end : Fields
    field : String → Value → Fields → Fields

pub record Op : Type 0 where
  pub code : String
  pub a : String
  pub b : String
  pub c : String
  pub args : Table String

-- A limit that is not positive does not apply.
pub record ResourceBudget : Type 0 where
  pub max_ops : ℤ
  pub max_memory_writes : ℤ
  pub max_events : ℤ
  pub max_cpu_us : ℤ
  pub max_alloc_bytes : ℤ
  pub max_heap_growth_bytes : ℤ

pub record Memory : Type 0 where
  pub id : String
  pub layer : String
  pub generation : ℤ
  pub parents : List String
  pub tags : List String
  pub content : String
  pub executable : Bool
  pub input_pattern : Table Value
  pub output_effect : Table Value
  pub success_history : List String
  pub failure_history : List String
  pub mutation_variants : List String
  pub trigger : List String
  pub capabilities : List String
  pub capability_sig : String
  pub budget : ResourceBudget
  pub revision : ℕ
  pub program : List Op
  pub state : Table Value
  pub runtime_exec_count : ℕ
  pub created_unix : ℤ

-- The counters of the frame that is running (resource_runtime.go).
pub record FrameResourceScope : Type 0 where
  pub max_memory_writes : ℤ
  pub max_events : ℤ
  pub memory_writes : ℕ
  pub events : ℕ

pub record Frame : Type 0 where
  pub vars : Table String
  pub lists : Table (List String)
  pub output : List String
  pub resource_scope : Option FrameResourceScope
