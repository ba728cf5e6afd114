-- ===== src/Machine/Programs.antt =====
-- Kernel/src/kernel.go, execPrimitive: the primitives on the Program of a Memory.
-- Indices are Go's int, 64 bits wide: a sum that reaches 2 ^ 63 is negative there, and slicing by it
-- panics.
use Prim.Native.String as Str
use Prim.Native.String.{len}
use memory_ai.Prelude.{
  ℕ, suc, zero, ◌+◌, ◌-◌, ◌^◌, String, Bool, true, false, ◌||◌, ◌&&◌, not, List, [], ◌∷◌, ◌++◌,
  Option, none, some, Result, ok, err, ◌==◌, leb, ltb, if◌then◌else◌, length, take, drop, get_elem?,
  failure, reject_if,
}
use memory_ai.Prelude.Find.{itoa, atoi}
use memory_ai.Prelude.Int.{ℤ, pos, negsuc}
use memory_ai.Prelude.Table.{Table}
use memory_ai.Model.{Op}
use memory_ai.Frames.{
  ensure_frame_value_bytes, ensure_program_op_count, ensure_program_within_physical_limits,
}
use memory_ai.Machine.{
  Action, Next, Host, ◌>>=◌, ◌>>◌, pure, lift, reads, panic, get_var, arg, x, set_var, set_out,
}
use memory_ai.Machine.Targets.{Target, resolve_executable, change, store_at, touch, dirty_in}

abbrev pub int_limit : ℕ
int_limit = 2 ^ 63

-- An index of a Program: `idx < 0 || idx >= len(target.Program)` is an error.
unfoldable pub program_index : List Op → ℤ → Result ℕ
program_index program (negsuc _) = err (failure "program index out of range")
program_index program (pos i) =
    if ltb i (length program) then ok i else err (failure "program index out of range")

-- A position between operations, the end included.
unfoldable pub program_position : List Op → ℤ → Result ℕ
program_position program (negsuc _) = err (failure "program splice index out of range")
program_position program (pos i) =
    if leb i (length program) then ok i else err (failure "program splice index out of range")

unfoldable pub with_field : String → String → Op → Option Op
with_field field v op =
    if field == "a"
    then some (record op { a = v })
    else if field == "b"
    then some (record op { b = v })
    else if field == "c"
    then some (record op { c = v })
    else none

-- candidate[idx].Field = v
unfoldable pub update_at : List Op → ℕ → (Op → Option Op) → Result (List Op)
update_at [] i f = err (failure "program index out of range")
update_at (op ∷ ops) zero f = elim (f op) [
  | none ↦ err (failure "unknown program field")
  | some op' ↦ ok (op' ∷ ops)
]
update_at (op ∷ ops) (suc i) f = elim (update_at ops i f) [
  | err e ↦ err e
  | ok ops' ↦ ok (op ∷ ops')
]

-- The operations that a splice takes, and whether start+count has wrapped around.
unfoldable pub fragment_count : ℕ → ℕ → ℤ → ℕ × Bool
fragment_count size start (negsuc _) = (size - start, false)
fragment_count size start (pos zero) = (size - start, false)
fragment_count size start (pos (suc k)) =
    let count = if ltb (suc k) int_limit then suc k else int_limit - 1 in
    if leb int_limit (start + count)
    then (count, true)
    else if ltb size (start + count)
    then (size - start, false)
    else (count, false)

-- if deleteCount < 0 { deleteCount = 0 }
unfoldable pub delete_count_of : ℤ → ℕ
delete_count_of (negsuc _) = 0
delete_count_of (pos n) = if ltb n int_limit then n else int_limit - 1

module _ (h : Host) where
  -- The answer of a Program's test on newLen, which is negative once it has wrapped around.
  unfoldable pub check_new_len : ℕ → ℕ → Result (Unit {0})
  check_new_len added removed =
      if ltb added removed
      then ok tt
      else if leb int_limit (added - removed)
      then ok tt
      else ensure_program_op_count h.ceilings (added - removed)

  -- target.Program = candidate, within the limits
  unfoldable pub write_program : Target → List Op → Action Next
  write_program t program = do
    lift (ensure_program_within_physical_limits h.ceilings program)
    change t (record t.memory { program = program })
    pure none

  unfoldable pub program_export : Op → Action Next
  program_export op = do
    a ← x h op.a
    t ← resolve_executable a
    lift (ensure_program_within_physical_limits h.ceilings t.memory.program)
    lift (ensure_frame_value_bytes h.ceilings (len (h.print_program t.memory.program)))
    set_var h op.b (h.print_program t.memory.program)
    pure none

  -- The engine that executes, not the owner, is marked dirty.
  unfoldable pub program_import : Op → Action Next
  program_import op = do
    a ← x h op.a
    t ← resolve_executable a
    raw ← get_var op.b
    lift (
        reject_if (ltb h.ceilings.program_max_bytes (len raw))
          (failure "program_import exceeds physical Program byte ceiling"))
    program ← lift (elim (h.parse_program raw) [ none ↦ err (failure "JSON") | some p ↦ ok p ])
    lift (ensure_program_within_physical_limits h.ceilings program)
    root ← reads (λ s. s.fabric.root)
    store_at t (touch (record t.memory { program = program }))
    dirty_in root t.memory.id
    pure none

  unfoldable pub op_at : List Op → ℤ → Result Op
  op_at program i = elim (program_index program i) [
    | err e ↦ err e
    | ok n ↦ elim (get_elem? program n) [
      | none ↦ err (failure "program index out of range")
      | some q ↦ ok q
    ]
  ]

  unfoldable pub program_op_get : Op → Action Next
  program_op_get op = do
    a ← x h op.a
    t ← resolve_executable a
    i ← x h op.b
    q ← lift (op_at t.memory.program (atoi i))
    set_out h op "code_out" q.code
    set_out h op "a_out" q.a
    set_out h op "b_out" q.b
    set_out h op "c_out" q.c
    set_out h op "args_out" (h.print_args q.args)
    pure none

  unfoldable pub with_any_field : String → String → Op → Option Op
  with_any_field field v op =
      if field == "code" then some (record op { code = v }) else with_field field v op

  unfoldable pub program_set_field : Op → Action Next
  program_set_field op = do
    a ← x h op.a
    t ← resolve_executable a
    i ← x h op.b
    idx ← lift (program_index t.memory.program (atoi i))
    v ← x h op.c
    candidate ← lift (update_at t.memory.program idx (with_any_field (arg op "field") v))
    write_program t candidate

  unfoldable pub program_set_var_ref : Op → Action Next
  program_set_var_ref op = do
    a ← x h op.a
    t ← resolve_executable a
    i ← x h op.b
    idx ← lift (program_index t.memory.program (atoi i))
    v ← x h op.c
    candidate ← lift (
        update_at t.memory.program idx
          (with_field (arg op "field") (Str.◌++◌ "{{" (Str.◌++◌ v "}}"))))
    write_program t candidate

  unfoldable pub program_len : Op → Action Next
  program_len op = do
    a ← x h op.a
    t ← resolve_executable a
    set_var h op.b (itoa (length t.memory.program))
    pure none

  unfoldable pub program_delete : Op → Action Next
  program_delete op = do
    a ← x h op.a
    t ← resolve_executable a
    i ← x h op.b
    idx ← lift (program_index t.memory.program (atoi i))
    change t
        (record t.memory { program = take idx t.memory.program ++ drop (suc idx) t.memory.program })
    pure none

  -- What a splice puts in place: newLen is tested before the slices, which panic where an index has
  -- wrapped around.
  unfoldable pub splice : Target → ℕ → ℕ → List Op → ℕ → ℕ × Bool → Action Next
  splice t i removed source start (count, wrapped) = do
    lift (check_new_len (length t.memory.program + count) removed)
    if wrapped || leb int_limit (i + removed)
        then panic
        else write_program t (
            take i t.memory.program
            ++ (take count (drop start source) ++ drop (i + removed) t.memory.program))

  unfoldable pub program_insert_from : Op → Action Next
  program_insert_from op = do
    a ← x h op.a
    t ← resolve_executable a
    c ← x h op.c
    source ← resolve_executable c
    b ← x h op.b
    start_text ← x h (arg op "start")
    count_text ← x h (arg op "count")
    i ← lift (program_position t.memory.program (atoi b))
    start ← lift (program_position source.memory.program (atoi start_text))
    splice t i 0 source.memory.program start
        (fragment_count (length source.memory.program) start (atoi count_text))

  unfoldable pub program_replace_from : Op → Action Next
  program_replace_from op = do
    a ← x h op.a
    t ← resolve_executable a
    c ← x h op.c
    source ← resolve_executable c
    b ← x h op.b
    delete_text ← x h (arg op "delete_count")
    start_text ← x h (arg op "start")
    count_text ← x h (arg op "count")
    i ← lift (program_position t.memory.program (atoi b))
    lift (
        reject_if
          (not (leb int_limit (i + delete_count_of (atoi delete_text)))
            && ltb (length t.memory.program) (i + delete_count_of (atoi delete_text)))
          (failure "program replace index out of range"))
    start ← lift (program_position source.memory.program (atoi start_text))
    splice t i (delete_count_of (atoi delete_text)) source.memory.program start
        (fragment_count (length source.memory.program) start (atoi count_text))

  unfoldable pub program_cases : Op → Table (Action Next)
  program_cases op =
      ("program_export", program_export op)
      ∷ ("program_import", program_import op)
      ∷ ("program_op_get", program_op_get op)
      ∷ ("program_set_field", program_set_field op)
      ∷ ("program_set_var_ref", program_set_var_ref op)
      ∷ ("program_len", program_len op)
      ∷ ("program_delete", program_delete op)
      ∷ ("program_insert_from", program_insert_from op)
      ∷ ("program_replace_from", program_replace_from op)
      ∷ []
