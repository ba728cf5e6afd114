-- ===== src/Machine.antt =====
-- Kernel/src/kernel.go, Engine.run and execPrimitive: the machine that executes the Program of a Memory
-- on a Frame, over the bodies of the local Fabric. The engine is the Fabric's root, on the canonical
-- path.
-- An Action is one run of Go code: it changes the Frame and the Fabric, and returns, fails or panics; or
-- the model stops, at an operation beyond it or without fuel. A failing Action keeps what it has changed,
-- as the source does.
pub mod Texts
pub mod Targets
pub mod States
pub mod Reads
pub mod Records
pub mod Programs
pub mod Run
pub mod Logic
pub mod Steps
pub mod Writes
pub mod Sound
pub mod Exact
pub mod Jumps
mod Tests
use memory_ai.Prelude.{
  ℕ, String, Bool, true, false, List, [], ◌∷◌, Option, none, some, Error, Result, ok, err, ◌==◌,
  if◌then◌else◌,
}
use memory_ai.Prelude.Table.{Table, get, put}
use memory_ai.Model.{Op, Memory, Value, Frame}
use memory_ai.Resource.{ResourceSample}
use memory_ai.Frames.{
  Ceilings, expand_frame_value_bounded, set_frame_var_bounded,
  ensure_frame_var_write_within_physical_limit,
}
use memory_ai.Fabric.{LocalFabric, Limits}

-- `removed` holds, by body and id, the last value of each record that an operation deleted: a pointer to
-- it still shows that value.
pub record State : Type 0 where
  pub frame : Frame
  pub fabric : LocalFabric
  pub removed : Table (Table Memory)

pub data Outcome (A : Type 0) : Type 0 where
  done : A → State → Outcome A
  failed : Error → State → Outcome A
  panicked : State → Outcome A
  beyond : State → Outcome A
  out_of_fuel : Outcome A

abbrev pub Action : Type 0 → Type 0
Action A = State → Outcome A

-- What follows a call, once its outcome is known.
unfoldable pub continue : {A B : Type 0} → Outcome A → (A → Action B) → Outcome B
continue (done a s) k = k a s
continue (failed e s) k = failed e s
continue (panicked s) k = panicked s
continue (beyond s) k = beyond s
continue out_of_fuel k = out_of_fuel

infixl 5 ◌>>=◌ ◌>>◌
unfoldable pub ◌>>=◌ : {A B : Type 0} → Action A → (A → Action B) → Action B
(m >>= k) s = continue (m s) k

unfoldable pub ◌>>◌ : {A B : Type 0} → Action A → Action B → Action B
(m >> k) s = continue (m s) (λ _. k)

unfoldable pub pure : {A : Type 0} → A → Action A
pure a s = done a s

unfoldable pub fail : {A : Type 0} → Error → Action A
fail e s = failed e s

unfoldable pub panic : {A : Type 0} → Action A
panic s = panicked s

-- An operation whose case of the switch is not modelled.
unfoldable pub leave_model : {A : Type 0} → Action A
leave_model s = beyond s

-- A call that changes nothing.
unfoldable pub lift : {A : Type 0} → Result A → Action A
lift (ok a) s = done a s
lift (err e) s = failed e s

-- A value that is read from the state.
unfoldable pub reads : {A : Type 0} → (State → A) → Action A
reads f s = done (f s) s

-- What the machine takes from outside: the ceilings, which the environment sets; Go's float64, printing
-- and parsing, on texts; hashes and escapes; the encoding of Programs as JSON;
-- and what remote stores and the mesh answer.
pub record Host : Type 0 where
  pub ceilings : Ceilings
  pub limits : Limits
  pub add : String → String → String
  pub sub : String → String → String
  pub mul : String → String → String
  pub div : String → String → String
  pub is_zero : String → Bool
  pub is_less : String → String → Bool
  pub is_at_most : String → String → Bool
  pub sprint : Value → String
  pub parse_texts : String → Option (List String)
  pub rune_count : String → ℕ
  pub query_escape : String → String
  pub sha256_hex : String → String
  pub parse_program : String → Option (List Op)
  pub print_program : List Op → String
  pub print_args : Table String → String
  pub equal_fold : String → String → Bool
  pub remote_fetch : String → Result Memory
  pub shared_fetch : String → Option Memory
  pub remote_tags : String → List String
  pub shared_tags : String → List String

-- A missing key reads as the empty text.
unfoldable pub text_at : Table String → String → String
text_at m k = elim (get m k) [ none ↦ "" | some t ↦ t ]

unfoldable pub list_at : Table (List String) → String → List String
list_at m k = elim (get m k) [ none ↦ [] | some l ↦ l ]

-- op.Args[k]
unfoldable pub arg : Op → String → String
arg op k = text_at op.args k

-- f.Vars[key] and f.Lists[key]
unfoldable pub get_var : String → Action String
get_var key s = done (text_at s.frame.vars key) s

unfoldable pub get_list : String → Action (List String)
get_list key s = done (list_at s.frame.lists key) s

-- f.Lists[key] = value
unfoldable pub set_list : String → List String → Action (Unit {0})
set_list key value s =
    done tt (record s { frame = record s.frame { lists = put s.frame.lists key value } })

unfoldable pub set_output : List String → Action (Unit {0})
set_output lines s = done tt (record s { frame = record s.frame { output = lines } })

-- What a primitive says of the program counter: -1, for the next operation, or a position.
abbrev pub Next : Type 0
Next = Option ℕ

abbrev pub bit : Bool → String
bit b = if b then "1" else "0"

module _ (h : Host) where
  -- x and setv of execPrimitive
  unfoldable pub x : String → Action String
  x s st = lift (expand_frame_value_bounded h.ceilings s st.frame.vars) st

  unfoldable pub set_var : String → String → Action (Unit {0})
  set_var key value st = elim (set_frame_var_bounded h.ceilings st.frame key value) [
    | err e ↦ failed e st
    | ok f ↦ done tt (record st { frame = f })
  ]

  -- if k := op.Args[name]; k != "" { setv(k, value) }
  unfoldable pub set_out : Op → String → String → Action (Unit {0})
  set_out op name value = if arg op name == "" then pure tt else set_var (arg op name) value

  -- ensureFrameVarWriteWithinPhysicalLimit on the Frame that runs, where op.Args[name] names a variable
  unfoldable pub check_out : Op → String → String → Action (Unit {0})
  check_out op name value st =
      if arg op name == ""
      then done tt st
      else lift
          (ensure_frame_var_write_within_physical_limit h.ceilings st.frame (arg op name) value) st

  unfoldable pub truth : String → Bool
  truth s = elim (s == "1") [
    | true ↦ true
    | false ↦ elim (h.equal_fold s "true") [ true ↦ true | false ↦ h.equal_fold s "yes" ]
  ]
