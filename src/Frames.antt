-- ===== src/Frames.antt =====
-- Kernel/src/physical_limits_runtime.go and the template expansion of kernel.go: the ceilings on what
-- one execution may hold in its Frame, and on Programs and events.
-- The ceilings themselves are read from the environment by bounded_physical_env; the rest takes them
-- as a record. Sums of lengths do not reach 2 ^ 63. A loop over a map goes through its entries.
pub mod Bounds
pub mod Expansion
mod Tests
use Prim.Native.String as Str
use Prim.Native.String.{len}
use memory_ai.Prelude.{
  ℕ, zero, suc, ◌+◌, ◌-◌, ◌*◌, ◌/◌, ◌^◌, String, Bool, true, false, ◌&&◌, ◌||◌, not, List, [], ◌∷◌,
  ◌++◌, Option, none, some, ◌==◌, leb, ltb, nat_eq, if◌then◌else◌, length, Result, ok, err, failure,
  reject_if, ◌>>=◌, ◌>>◌,
}
use memory_ai.Prelude.Find.{replace_all, count_text, split_csv, atoi}
use memory_ai.Prelude.Int.{ℤ, pos, negsuc}
use memory_ai.Prelude.Table.{Table, get, put, has, remove}
use memory_ai.Prelude.Text.{trim_space}
use memory_ai.Model.{Op, Memory, Value, Frame}

-- boundedPhysicalCountEnv and boundedPhysicalByteEnv, on the variable's value; `""` where it is unset. A
-- number beyond int64 is an error.
unfoldable pub bounded_physical_env : String → ℕ → ℕ → ℕ
bounded_physical_env raw fallback hard_max =
    if trim_space raw == "" then fallback else elim (atoi (trim_space raw)) [
      | negsuc _ ↦ fallback
      | pos value ↦
          if nat_eq value 0 || leb (2 ^ 63) value
          then fallback
          else if ltb hard_max value
          then hard_max
          else value
    ]

-- The ceilings in force, and the size of a Program in JSON, none where the encoding
-- fails.
pub record Ceilings : Type 0 where
  pub value_max_bytes : ℕ
  pub var_max_items : ℕ
  pub var_max_bytes : ℕ
  pub list_max_items : ℕ
  pub output_max_items : ℕ
  pub output_max_bytes : ℕ
  pub event_var_max_items : ℕ
  pub event_var_max_bytes : ℕ
  pub program_max_ops : ℕ
  pub program_max_bytes : ℕ
  pub program_size : List Op → Option ℕ

-- strings.HasPrefix(key, "__")
unfoldable pub is_internal : String → Bool
is_internal key = Str.slice key 0 2 == "__"

-- The bytes of a map of texts, as a loop adds them up to a total: none where it passes a ceiling.
unfoldable pub add_vars : ℕ → ℕ → Table String → Option ℕ
add_vars max total [] = some total
add_vars max total ((key, value) ∷ rest) =
    let next = total + (len key + len value) in
    elim (ltb max next) [ true ↦ none | false ↦ add_vars max next rest ]

-- The same over a list of texts.
unfoldable pub add_texts : ℕ → ℕ → List String → Option ℕ
add_texts max total [] = some total
add_texts max total (t ∷ ts) = elim (ltb max (total + len t)) [
  | true ↦ none
  | false ↦ add_texts max (total + len t) ts
]

module _ (c : Ceilings) where
  unfoldable pub ensure_frame_value_bytes : ℕ → Result (Unit {0})
  ensure_frame_value_bytes count =
      reject_if (ltb c.value_max_bytes count) (failure "exceeds physical Frame-value byte ceiling")

  unfoldable pub ensure_frame_values : Table String → Result (Unit {0})
  ensure_frame_values [] = ok tt
  ensure_frame_values ((key, value) ∷ rest) =
      ensure_frame_value_bytes (len value) >>= λ _. ensure_frame_values rest

  -- The loop tests each value and adds it up: which of the two it misses first changes only the message.
  unfoldable pub ensure_frame_vars_within_physical_limit : Table String → Result (Unit {0})
  ensure_frame_vars_within_physical_limit vars = do
    reject_if (ltb c.var_max_items (length vars))
        (failure "exceeds physical Frame-variable cardinality")
    ensure_frame_values vars
    elim (add_vars c.var_max_bytes 0 vars) [
      | none ↦ err (failure "exceeds physical Frame-variable byte ceiling")
      | some _ ↦ ok tt
    ]

  unfoldable pub ensure_frame_var_write_within_physical_limit :
      Frame → String → String → Result (Unit {0})
  ensure_frame_var_write_within_physical_limit f key value = do
    ensure_frame_value_bytes (len value)
    reject_if (not (has f.vars key) && ltb c.var_max_items (length f.vars + 1))
        (failure "exceeds physical Frame-variable cardinality")
    elim (add_vars c.var_max_bytes (len key + len value) (remove f.vars key)) [
      | none ↦ err (failure "exceeds physical Frame-variable byte ceiling")
      | some total ↦
          reject_if (ltb c.var_max_bytes total)
            (failure "exceeds physical Frame-variable byte ceiling")
    ]

  unfoldable pub set_frame_var_bounded : Frame → String → String → Result Frame
  set_frame_var_bounded f key value =
      elim (ensure_frame_var_write_within_physical_limit f key value) [
        | err x ↦ err x
        | ok _ ↦ ok (record f { vars = put f.vars key value })
      ]

  -- for key, value := range updates { candidate[key] = value }
  unfoldable pub merge_vars : Table String → Table String → Table String
  merge_vars base [] = base
  merge_vars base ((key, value) ∷ updates) = merge_vars (put base key value) updates

  unfoldable pub frame_vars_merge_candidate : Table String → Table String → Result (Table String)
  frame_vars_merge_candidate base updates =
      elim (ensure_frame_vars_within_physical_limit (merge_vars base updates)) [
        | err x ↦ err x
        | ok _ ↦ ok (merge_vars base updates)
      ]

  unfoldable pub ensure_frame_list_items : ℕ → Result (Unit {0})
  ensure_frame_list_items count =
      reject_if (ltb c.list_max_items count) (failure "exceeds physical Frame-list cardinality")

  unfoldable pub ensure_frame_join_bytes : List String → Result (Unit {0})
  ensure_frame_join_bytes parts = elim (add_texts c.value_max_bytes 0 parts) [
    | none ↦ err (failure "exceeds physical Frame-value byte ceiling")
    | some _ ↦ ok tt
  ]

  unfoldable pub ensure_frame_output_append : List String → String → Result (Unit {0})
  ensure_frame_output_append output value = do
    ensure_frame_value_bytes (len value)
    reject_if (ltb c.output_max_items (length output + 1))
        (failure "exceeds physical Frame-output cardinality")
    elim (add_texts c.output_max_bytes (len value) output) [
      | none ↦ err (failure "exceeds physical Frame-output byte ceiling")
      | some _ ↦ ok tt
    ]

  unfoldable pub ensure_physical_event_vars : Table String → Result (Unit {0})
  ensure_physical_event_vars vars = do
    reject_if (ltb c.event_var_max_items (length vars))
        (failure "exceeds physical event-variable cardinality")
    elim (add_vars c.event_var_max_bytes 0 vars) [
      | none ↦ err (failure "exceeds physical event-variable byte ceiling")
      | some _ ↦ ok tt
    ]

  unfoldable pub split_csv_physical_bounded : String → ℕ → Result (List String)
  split_csv_physical_bounded raw max_items =
      if ltb max_items 1
      then err (failure "physical item ceiling invalid")
      else if ltb max_items (length (split_csv raw))
      then err (failure "exceeds physical item cardinality")
      else ok (split_csv raw)

  unfoldable pub ensure_program_op_count : ℕ → Result (Unit {0})
  ensure_program_op_count count =
      reject_if (ltb c.program_max_ops count) (failure "exceeds physical Program cardinality")

  -- The texts of a Program: those of each operation, then its arguments.
  unfoldable pub arg_texts : Table String → List String
  arg_texts [] = []
  arg_texts ((key, value) ∷ rest) = key ∷ value ∷ arg_texts rest

  unfoldable pub program_texts : List Op → List String
  program_texts [] = []
  program_texts (op ∷ ops) = (op.code ∷ op.a ∷ op.b ∷ op.c ∷ arg_texts op.args) ++ program_texts ops

  unfoldable pub ensure_program_within_physical_limits : List Op → Result (Unit {0})
  ensure_program_within_physical_limits program = do
    ensure_program_op_count (length program)
    elim (add_texts c.program_max_bytes 2 (program_texts program)) [
      | none ↦ err (failure "exceeds physical Program byte ceiling")
      | some _ ↦ elim (c.program_size program) [
        | none ↦ err (failure "Program encode")
        | some n ↦
            reject_if (ltb c.program_max_bytes n) (failure "exceeds physical Program byte ceiling")
      ]
    ]

  unfoldable pub replace_all_frame_value_bounded : String → String → String → Result String
  replace_all_frame_value_bounded s old replacement =
      let n = count_text s old in
      let kept_bytes = len s - n * len old in
      if old == ""
      then ok s
      else if nat_eq n 0
      then ok s
      else if ltb c.value_max_bytes kept_bytes
          || ltb ((c.value_max_bytes - kept_bytes) / n) (len replacement)
      then err (failure "template expansion exceeds physical Frame-value byte ceiling")
      else ok (replace_all s old replacement)

  -- One pass over the variables.
  unfoldable pub expand_pass : Table String → String → Result String
  expand_pass [] s = ok s
  expand_pass ((key, value) ∷ vars) s = elim (ltb c.value_max_bytes (len key + 4)) [
    | true ↦ expand_pass vars s
    | false ↦
        replace_all_frame_value_bounded s (Str.◌++◌ "{{" (Str.◌++◌ key "}}")) value
        >>= expand_pass vars
  ]

  -- At most n more passes, until one changes nothing.
  unfoldable pub expand_passes : ℕ → Table String → String → Result String
  expand_passes zero vars s = ok s
  expand_passes (suc n) vars s = elim (expand_pass vars s) [
    | err x ↦ err x
    | ok t ↦ elim (t == s) [ true ↦ ok t | false ↦ expand_passes n vars t ]
  ]

  unfoldable pub expand_frame_value_bounded : String → Table String → Result String
  expand_frame_value_bounded s vars =
      if ltb c.value_max_bytes (len s)
      then err (failure "template input exceeds physical Frame-value byte ceiling")
      else expand_passes 6 vars s
