-- ===== src/Fabric.antt =====
-- Kernel/src/fabric_write_runtime.go, shard_runtime.go, scale_runtime.go: the local Fabric, a root
-- body and the bodies mounted in it, which together hold each id at most once.
-- A body is named by its path, the root's included; e.spaces holds the others. The operations start
-- at the root that fabricRootFor finds, under automaticShardMu.
pub mod Resolve
pub mod Writes
pub mod Outcome
pub mod Creation
mod Tests
use memory_ai.Prelude.{
  ℕ, ◌+◌, ◌-◌, String, Bool, true, false, ◌&&◌, not, List, [], ◌∷◌, Option, none, some, ◌==◌, ltb,
  leb, if◌then◌else◌, contains, is_ok, Error, Result, ok, err, eof, failure, reject_if, is_some,
  suc,
}
use memory_ai.Prelude.Table.{Table, get, put, flag, keys, remove}
use memory_ai.Prelude.Text.{trim_space, sort_strings}
use memory_ai.Model.{Memory}
use memory_ai.Engine.{
  Engine, Fabric, resolve_id_local, list_tag_local, add_runtime_memory,
  upsert_explicit_memory_on_owner, delete_locked,
}

pub record LocalFabric : Type 0 where
  pub root : String
  pub bodies : Fabric
  pub write_space : String

unfoldable pub without : String → List String → List String
without p [] = []
without p (q ∷ qs) = let rest = without p qs in if p == q then rest else q ∷ rest

-- The paths that e.spaces holds, in order.
abbrev pub spaces : LocalFabric → List String
spaces f = sort_strings (without f.root (keys f.bodies))

unfoldable pub local_fabric_engines : LocalFabric → List String
local_fabric_engines f = f.root ∷ spaces f

-- One candidate of resolveLocalFabricMemory: its answer against what was found before it.
unfoldable pub next_found :
    String → Option (String × Memory) → Result Memory → Result (Option (String × Memory))
next_found p found (err eof) = ok found
next_found p found (err x) = err x
next_found p none (ok m) = ok (some (p, m))
next_found p (some (owner, _)) (ok m) =
    if owner == p then ok (some (p, m)) else err (failure "duplicate local Fabric Memory id")

unfoldable pub resolve_each :
    String
    → List String
    → Option (String × Memory)
    → Fabric
    → Result (Option (String × Memory)) × Fabric
resolve_each id [] found bodies = (ok found, bodies)
resolve_each id (p ∷ ps) found bodies = elim (get bodies p) [
  | none ↦ resolve_each id ps found bodies
  | some e ↦
      let (r, e') = resolve_id_local e id in
      elim (next_found p found r) [
        | err x ↦ (err x, put bodies p e')
        | ok found' ↦ resolve_each id ps found' (put bodies p e')
      ]
]

unfoldable pub owner_or_eof : Result (Option (String × Memory)) → Result (String × Memory)
owner_or_eof (err x) = err x
owner_or_eof (ok none) = err eof
owner_or_eof (ok (some r)) = ok r

unfoldable pub resolve_local_fabric_memory :
    String → LocalFabric → Result (String × Memory) × LocalFabric
resolve_local_fabric_memory id f =
    let key = trim_space id in
    if key == ""
    then (err eof, f)
    else (let (r, bodies) = resolve_each key (local_fabric_engines f) none f.bodies in
        (owner_or_eof r, record f { bodies = bodies }))

-- How many ids of a list pass a test.
unfoldable pub count_ids : (String → Bool) → List String → ℕ
count_ids p [] = 0
count_ids p (x ∷ xs) = let rest = count_ids p xs in if p x then suc rest else rest

unfoldable pub local_memory_count_fast : Engine → ℕ
local_memory_count_fast e =
    let new_count = count_ids (λ id. not (flag e.deleted_ids id)) (keys e.new_ids) in
    let deleted_persisted =
      count_ids (λ id. flag e.deleted_ids id && is_ok (e.store.get_id id)) (keys e.deleted_ids) in
    e.store.memory_count + new_count - deleted_persisted

-- A Fabric with a write to the body at a path, which the caller has found there.
abbrev pub at_owner :
    String → (Engine → Result (Unit {0}) × Engine) → LocalFabric → Result (Unit {0}) × LocalFabric
at_owner p write f = elim (get f.bodies p) [
  | none ↦ (err (failure "physical body unavailable"), f)
  | some e ↦ let (r, e') = write e in (r, record f { bodies = put f.bodies p e' })
]

-- The role of a body.
abbrev pub role_at : LocalFabric → String → String
role_at f p = elim (get f.bodies p) [ none ↦ "" | some e ↦ e.role ]

-- owner != root && owner.manifest.Role != "storage"
abbrev pub is_foreign : LocalFabric → String → Bool
is_foreign f owner = not (owner == f.root) && not (role_at f owner == "storage")

unfoldable pub delete_resolved :
    String → Result (String × Memory) → LocalFabric → Result (Unit {0}) × LocalFabric
delete_resolved id (err x) f = (err x, f)
delete_resolved id (ok (owner, m)) f =
    if is_foreign f owner
    then (err (failure "Memory is owned by non-writable local body"), f)
    else at_owner owner (λ e. (ok tt, delete_locked id m e)) f

unfoldable pub delete_explicit_memory_bounded :
    String → LocalFabric → Result (Unit {0}) × LocalFabric
delete_explicit_memory_bounded id f =
    let (r, f') = resolve_local_fabric_memory id f in delete_resolved id r f'

-- What the kernel takes from outside: memoryShardMax and memoryRecordMaxBytes read the environment, encoding/json
-- gives the encoded size, none where it fails, and the round trip of copyMemory.
pub record Limits : Type 0 where
  pub shard_max : ℕ
  pub record_max_bytes : ℕ
  pub encoded_size : Memory → Option ℕ
  pub copy : Memory → Memory

module _ (limits : Limits) where
  open limits use {shard_max, record_max_bytes, encoded_size, copy}

  unfoldable pub shard_has_capacity : Engine → ℕ → Bool
  shard_has_capacity e additional = leb (local_memory_count_fast e + additional) shard_max

  -- sp != nil && sp.manifest.Role == "storage" && shardHasCapacity(sp, 1)
  abbrev pub takes : LocalFabric → String → Bool
  takes f p = elim (get f.bodies p) [
    | none ↦ false
    | some e ↦ e.role == "storage" && shard_has_capacity e 1
  ]

  unfoldable pub first_taking : LocalFabric → List String → Option String
  first_taking f [] = none
  first_taking f (p ∷ ps) = let rest = first_taking f ps in if takes f p then some p else rest

  abbrev pub root_takes : LocalFabric → Bool
  root_takes f = elim (get f.bodies f.root) [ none ↦ false | some e ↦ shard_has_capacity e 1 ]

  unfoldable pub mounted_writable_shard : LocalFabric → Option String × LocalFabric
  mounted_writable_shard f =
      if not (f.write_space == f.root) && takes f f.write_space
      then (some f.write_space, f)
      else if root_takes f
      then (some f.root, f)
      else elim (first_taking f (spaces f)) [
        | none ↦ (none, f)
        | some p ↦ (some p, record f { write_space = p })
      ]

  unfoldable pub ensure_memory_record_within_physical_limit : Memory → Result (Unit {0})
  ensure_memory_record_within_physical_limit m = elim (encoded_size m) [
    | none ↦ err (failure "Memory encode")
    | some n ↦ reject_if (ltb record_max_bytes n) (failure "Memory exceeds record byte ceiling")
  ]

  -- addRuntimeMemory, its checks included.
  unfoldable pub add_runtime_memory_checked : Memory → Engine → Result (Unit {0}) × Engine
  add_runtime_memory_checked m e =
      if trim_space m.id == ""
      then (err (failure "runtime Memory insert requires engine and id"), e)
      else elim (ensure_memory_record_within_physical_limit m) [
        | err x ↦ (err x, e)
        | ok _ ↦ (ok tt, add_runtime_memory m e)
      ]

  unfoldable pub place_runtime_memory_locked :
      Memory → LocalFabric → Result (Unit {0}) × LocalFabric
  place_runtime_memory_locked m f =
      if trim_space m.id == ""
      then (err (failure "runtime Memory placement requires engine and id"), f)
      else elim (ensure_memory_record_within_physical_limit m) [
        | err x ↦ (err x, f)
        | ok _ ↦
            let (target, f') = mounted_writable_shard f in
            elim target [
              | none ↦ (err (failure "Memory Fabric capacity exhausted"), f')
              | some p ↦ at_owner p (add_runtime_memory_checked m) f'
            ]
      ]

  -- The creation of a record that no body holds, by the role of the root.
  unfoldable pub create_explicit : Memory → LocalFabric → Result (Unit {0}) × LocalFabric
  create_explicit q f =
      if role_at f f.root == "core"
      then place_runtime_memory_locked q f
      else if role_at f f.root == "storage"
      then if root_takes f
        then at_owner f.root (add_runtime_memory_checked q) f
        else (err (failure "storage body full"), f)
      else (err (failure "explicit Memory creation requires core or storage body"), f)

  unfoldable pub upsert_resolved :
      Memory → Result (String × Memory) → LocalFabric → Result (Unit {0}) × LocalFabric
  upsert_resolved q (ok (owner, _)) f =
      if is_foreign f owner
      then (err (failure "Memory is owned by non-writable local body"), f)
      else at_owner owner (upsert_explicit_memory_on_owner q) f
  upsert_resolved q (err eof) f = create_explicit q f
  upsert_resolved q (err x) f = (err x, f)

  unfoldable pub upsert_explicit_memory_bounded :
      Memory → LocalFabric → Result (Unit {0}) × LocalFabric
  upsert_explicit_memory_bounded m f =
      if trim_space m.id == ""
      then (err (failure "explicit Memory upsert requires engine and id"), f)
      else elim (ensure_memory_record_within_physical_limit m) [
        | err x ↦ (err x, f)
        | ok _ ↦
            let (r, f') = resolve_local_fabric_memory (copy m).id f in upsert_resolved (copy m) r f'
      ]
