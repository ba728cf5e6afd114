-- ===== src/Machine/Reads.antt =====
-- Kernel/src/kernel.go: how a primitive reads a Memory, wherever it is (resolveID, listTag, resolve), and the
-- primitives that only read.
-- What the remote stores and the mesh answer are functions of the Host.
use Prim.Native.String as Str
use memory_ai.Prelude.{
  suc, String, Bool, true, false, List, [], ◌∷◌, ◌++◌, Option, none, some, Result, ok, err, eof,
  unavailable, side_effect, failure, ◌==◌, if◌then◌else◌, contains, length,
}
use memory_ai.Prelude.Find.{itoa, atoi}
use memory_ai.Prelude.Int.{ℤ, pos, negsuc}
use memory_ai.Prelude.Table.{Table, get, has, keys}
use memory_ai.Prelude.Text.{sort_strings}
use memory_ai.Model.{Op, Memory, Value}
use memory_ai.Engine.{Fabric, list_tag_local}
use memory_ai.Fabric.{LocalFabric, spaces}
use memory_ai.Machine.{
  Outcome, done, failed, panicked, beyond, out_of_fuel, Action, Next, Host, ◌>>=◌, ◌>>◌, pure, fail,
  lift, reads, set_list, arg, bit, x, set_var,
}
use memory_ai.Machine.Targets.{look_up}
use memory_ai.Machine.Texts.{item_at}
use memory_ai.Machine.States.{state_list}

-- The ids that were not seen yet, at the end of the ones that were.
unfoldable pub add_unseen : List String → List String → List String
add_unseen out [] = out
add_unseen out (id ∷ ids) = add_unseen (if contains out id then out else out ++ id ∷ []) ids

unfoldable pub list_tag_spaces : Fabric → String → List String → List String → Result (List String)
list_tag_spaces bodies tag [] out = ok out
list_tag_spaces bodies tag (p ∷ ps) out = elim (get bodies p) [
  | none ↦ list_tag_spaces bodies tag ps out
  | some e ↦ elim (list_tag_local e tag) [
    | err x ↦ err x
    | ok ids ↦ list_tag_spaces bodies tag ps (add_unseen out ids)
  ]
]

-- The outcome of a call whose error is looked at.
unfoldable pub attempt_outcome : {A : Type 0} → Outcome A → Outcome (Result A)
attempt_outcome (done a s) = done (ok a) s
attempt_outcome (failed e s) = done (err e) s
attempt_outcome (panicked s) = panicked s
attempt_outcome (beyond s) = beyond s
attempt_outcome out_of_fuel = out_of_fuel

unfoldable pub attempt : {A : Type 0} → Action A → Action (Result A)
attempt m s = attempt_outcome (m s)

-- strings.Join(parts, ",")
unfoldable pub join : List String → String
join [] = ""
join (s ∷ []) = s
join (s ∷ t ∷ rest) = Str.◌++◌ s (Str.◌++◌ "," (join (t ∷ rest)))

-- strconv.Itoa
unfoldable pub print_int : ℤ → String
print_int (pos n) = itoa n
print_int (negsuc n) = Str.◌++◌ "-" (itoa (suc n))

unfoldable pub field_string : Memory → String → String
field_string m k =
    if k == "id"
    then m.id
    else if k == "layer"
    then m.layer
    else if k == "generation"
    then print_int m.generation
    else if k == "runtime_exec_count"
    then itoa m.runtime_exec_count
    else if k == "content"
    then m.content
    else if k == "parents"
    then join m.parents
    else if k == "tags"
    then join m.tags
    else ""

module _ (h : Host) where
  -- The mesh's answer is looked at only where there is one.
  unfoldable pub from_mesh : String → Action Memory
  from_mesh id = elim (h.shared_fetch id) [ none ↦ fail eof | some m ↦ pure m ]

  unfoldable pub from_network : String → Result Memory → Action Memory
  from_network id (ok m) = pure m
  from_network id (err eof) = from_mesh id
  from_network id (err unavailable) = fail unavailable
  from_network id (err (side_effect e)) = fail (side_effect e)
  from_network id (err (failure e)) = fail (failure e)

  unfoldable pub from_fabric : String → Result (String × Memory) → Action Memory
  from_fabric id (ok (p, m)) = pure m
  from_fabric id (err eof) = from_network id (h.remote_fetch id)
  from_fabric id (err unavailable) = fail unavailable
  from_fabric id (err (side_effect e)) = fail (side_effect e)
  from_fabric id (err (failure e)) = fail (failure e)

  unfoldable pub resolve_id : String → Action Memory
  resolve_id id = look_up id >>= from_fabric id

  unfoldable pub list_tag : String → LocalFabric → Result (List String)
  list_tag tag f = elim (list_tag_spaces f.bodies tag (f.root ∷ spaces f) []) [
    | err x ↦ err x
    | ok out ↦
        ok (sort_strings (add_unseen (add_unseen out (h.remote_tags tag)) (h.shared_tags tag)))
  ]

  -- A Memory that is found by its tag has to be the only one.
  unfoldable pub only_id : List String → Result String
  only_id [] = err (failure "memory not found")
  only_id (id ∷ []) = ok id
  only_id (_ ∷ _ ∷ _) = err (failure "ambiguous Memory tag")

  unfoldable pub read_or : Action Memory → Result Memory → Action Memory
  read_or other (ok m) = pure m
  read_or other (err eof) = other
  read_or other (err unavailable) = fail unavailable
  read_or other (err (side_effect e)) = fail (side_effect e)
  read_or other (err (failure e)) = fail (failure e)

  unfoldable pub resolve_by_tag : String → Action Memory
  resolve_by_tag tag = do
    listed ← reads (λ s. list_tag tag s.fabric)
    ids ← lift listed
    id ← lift (only_id ids)
    r ← attempt (resolve_id id)
    read_or (fail (failure "memory not found")) r

  unfoldable pub resolve : String → Action Memory
  resolve id_or_tag = attempt (resolve_id id_or_tag) >>= read_or (resolve_by_tag id_or_tag)

  -- target := self; if op.A != "" { target, err = e.resolve(x(op.A)) }
  unfoldable pub self_or : Memory → Op → Action Memory
  self_or self op = if op.a == "" then pure self else (x h op.a >>= resolve)

  -- A missing value and nil print as the empty text.
  unfoldable pub print_state : Option Value → String
  print_state none = ""
  print_state (some Value.null) = ""
  print_state (some (Value.boolean b)) = h.sprint (Value.boolean b)
  print_state (some (Value.number n)) = h.sprint (Value.number n)
  print_state (some (Value.text t)) = h.sprint (Value.text t)
  print_state (some (Value.strings l)) = h.sprint (Value.strings l)
  print_state (some (Value.items vs)) = h.sprint (Value.items vs)
  print_state (some (Value.object fs)) = h.sprint (Value.object fs)

  unfoldable pub state_get : Memory → Op → Action Next
  state_get self op = do
    m ← self_or self op
    key ← x h op.b
    set_var h op.c (print_state (get m.state key))
    pure none

  unfoldable pub state_keys : Memory → Op → Action Next
  state_keys self op = do
    m ← self_or self op
    set_list op.b (sort_strings (keys m.state))
    pure none

  unfoldable pub state_has : Memory → Op → Action Next
  state_has self op = do
    m ← self_or self op
    key ← x h op.b
    set_var h op.c (bit (has m.state key))
    pure none

  -- A Memory and a list of its state.
  unfoldable pub state_list_of : Op → Action (List String)
  state_list_of op = do
    a ← x h op.a
    m ← resolve a
    key ← x h op.b
    pure (state_list h (get m.state key))

  unfoldable pub state_list_len : Op → Action Next
  state_list_len op = do l ← state_list_of op; set_var h op.c (itoa (length l)); pure none

  unfoldable pub state_list_get : Op → Action Next
  state_list_get op = do
    a ← x h op.a
    m ← resolve a
    i ← x h (arg op "index")
    key ← x h op.b
    set_var h op.c (item_at (state_list h (get m.state key)) (atoi i))
    pure none

  unfoldable pub state_list_contains : Op → Action Next
  state_list_contains op = do
    a ← x h op.a
    m ← resolve a
    want ← x h op.c
    key ← x h op.b
    set_var h (if arg op "out" == "" then op.c else arg op "out")
        (bit (contains (state_list h (get m.state key)) want))
    pure none

  unfoldable pub field_get : Op → Action Next
  field_get op = do
    a ← x h op.a
    m ← resolve a
    k ← x h op.b
    set_var h op.c (field_string m k)
    pure none

  unfoldable pub is_found : Result Memory → Bool
  is_found (ok _) = true
  is_found (err _) = false

  unfoldable pub memory_exists : Op → Action Next
  memory_exists op = do
    a ← x h op.a
    r ← attempt (resolve a)
    set_var h op.b (bit (is_found r))
    pure none

  unfoldable pub read_cases : Memory → Op → Table (Action Next)
  read_cases self op =
      ("state_get", state_get self op)
      ∷ ("state_keys", state_keys self op)
      ∷ ("state_has", state_has self op)
      ∷ ("state_list_len", state_list_len op)
      ∷ ("state_list_get", state_list_get op)
      ∷ ("state_list_contains", state_list_contains op)
      ∷ ("field_get", field_get op)
      ∷ ("memory_exists", memory_exists op)
      ∷ []
