-- ===== src/Machine/Targets.antt =====
-- Kernel/src/kernel.go and fabric_write_runtime.go: how a primitive finds the Memory that it changes, and
-- what every change does to it and to the body that owns it.
-- The source holds a pointer into a body's cache; a Target names the body and the key there, and holds
-- the record as it was found.
use memory_ai.Prelude.{
  suc, String, true, false, ◌&&◌, List, [], ◌∷◌, Option, none, some, Error, Result, ok, err, eof,
  unavailable, side_effect, failure, ◌==◌, if◌then◌else◌,
}
use memory_ai.Prelude.Table.{Table, get, put, keys}
use memory_ai.Prelude.Text.{trim_space, sort_strings}
use memory_ai.Model.{Memory}
use memory_ai.Engine.{Engine, Fabric, on_body, list_tag_local}
use memory_ai.Fabric.{LocalFabric, local_fabric_engines, resolve_local_fabric_memory}
use memory_ai.Machine.{State, done, Action, ◌>>=◌, ◌>>◌, pure, fail, reads}
use memory_ai.Security.{is_empty}

unfoldable pub removed_at : State → String → String → Option Memory
removed_at s p key = elim (get s.removed p) [ none ↦ none | some table ↦ get table key ]

-- Only the pointers that are held still show a record that is deleted.
unfoldable pub note_removed : String → String → Memory → State → State
note_removed p key m s = record s {
  removed = put s.removed p (put (elim (get s.removed p) [ none ↦ [] | some table ↦ table ]) key m);
}

pub record Target : Type 0 where
  pub body : String
  pub key : String
  pub memory : Memory

unfoldable pub look_up : String → Action (Result (String × Memory))
look_up id s =
    let (r, f) = resolve_local_fabric_memory id s.fabric in done r (record s { fabric = f })

-- The ids of one body, against the body that each was seen in before.
unfoldable pub see_ids : String → List String → Table String → Result (Table String)
see_ids p [] seen = ok seen
see_ids p (id ∷ ids) seen = elim (get seen id) [
  | none ↦ see_ids p ids (put seen id p)
  | some q ↦ elim (p == q) [
    | true ↦ see_ids p ids (put seen id p)
    | false ↦ err (failure "duplicate local Fabric Memory id while listing tag")
  ]
]

unfoldable pub list_tag_across_engines :
    String → Fabric → List String → Table String → Result (Table String)
list_tag_across_engines tag bodies [] seen = ok seen
list_tag_across_engines tag bodies (p ∷ ps) seen = elim (get bodies p) [
  | none ↦ list_tag_across_engines tag bodies ps seen
  | some e ↦ elim (list_tag_local e tag) [
    | err x ↦ err x
    | ok ids ↦ elim (see_ids p ids seen) [
      | err x ↦ err x
      | ok seen' ↦ list_tag_across_engines tag bodies ps seen'
    ]
  ]
]

unfoldable pub list_tag_fabric_owned : String → LocalFabric → Result (List String)
list_tag_fabric_owned tag f =
    elim (list_tag_across_engines tag f.bodies (local_fabric_engines f) []) [
      | err x ↦ err x
      | ok seen ↦ ok (sort_strings (keys seen))
    ]

-- The Target of a look-up that found a Memory.
abbrev pub target_at : String → String × Memory → Target
target_at id (p, m) = record { body = p; key = trim_space id; memory = m }

abbrev pub not_found : Error
not_found = failure "mutable memory not found in mounted Memory Fabric"

-- The answer of a look-up: a Target, another way to look, or an error.
unfoldable pub found_or : String → Action Target → Result (String × Memory) → Action Target
found_or id other (ok r) = pure (target_at id r)
found_or id other (err eof) = other
found_or id other (err unavailable) = fail unavailable
found_or id other (err (side_effect e)) = fail (side_effect e)
found_or id other (err (failure e)) = fail (failure e)

unfoldable pub resolve_only : Result (List String) → Action Target
resolve_only (err e) = fail e
resolve_only (ok []) = fail not_found
resolve_only (ok (id ∷ [])) = look_up id >>= found_or id (fail not_found)
resolve_only (ok (_ ∷ _ ∷ _)) = fail (failure "ambiguous mutable Memory tag")

unfoldable pub resolve_mutable : String → Action Target
resolve_mutable id_or_tag =
    look_up id_or_tag
    >>= found_or id_or_tag (reads (λ s. list_tag_fabric_owned id_or_tag s.fabric) >>= resolve_only)

unfoldable pub resolve_executable : String → Action Target
resolve_executable id_or_tag = do
  t ← resolve_mutable id_or_tag
  if is_empty t.memory.program && is_empty t.memory.trigger
      then fail (failure "memory is not executable")
      else pure t

unfoldable pub owner_of : String → Action (Option String)
owner_of id = look_up id >>= λ r. pure (elim r [ ok (p, m) ↦ some p | err _ ↦ none ])

-- owner := e.ownerOf(target.ID), which every change of a state needs.
unfoldable pub need_owner : Target → Action String
need_owner t = do
  o ← owner_of t.memory.id
  elim o [ none ↦ fail (failure "mutable owner unavailable") | some p ↦ pure p ]

unfoldable pub on_fabric : (Fabric → Fabric) → Action (Unit {0})
on_fabric change s =
    done tt (record s { fabric = record s.fabric { bodies = change s.fabric.bodies } })

unfoldable pub set_dirty : String → Engine → Engine
set_dirty id e = record e { dirty = true; dirty_ids = put e.dirty_ids id true }

-- owner.dirty = true; owner.dirtyIDs[target.ID] = true
unfoldable pub dirty_in : String → String → Action (Unit {0})
dirty_in owner id = on_fabric (on_body owner (set_dirty id))

-- e.markDirty
unfoldable pub mark_dirty : String → Action (Unit {0})
mark_dirty id = do o ← owner_of id; elim o [ none ↦ pure tt | some p ↦ dirty_in p id ]

-- target.CapabilitySig = ""; target.Revision++
unfoldable pub touch : Memory → Memory
touch m = record m { capability_sig = ""; revision = suc m.revision }

-- The target's new value, through the pointer.
unfoldable pub store_at : Target → Memory → Action (Unit {0})
store_at t m = on_fabric (on_body t.body (λ e. record e { cache = put e.cache t.key m }))

-- A change and its bookkeeping in the owner.
unfoldable pub change_in : String → Target → Memory → Action (Unit {0})
change_in owner t m = store_at t (touch m) >> dirty_in owner t.memory.id

-- The same by markDirty.
unfoldable pub change : Target → Memory → Action (Unit {0})
change t m = store_at t (touch m) >> mark_dirty t.memory.id
