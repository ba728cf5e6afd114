-- ===== src/Structures.antt =====
-- Kernel/src/structure_runtime.go: Memories that enter and leave the Fabric as JSON. An import is
-- local only, and replaces a record by a higher revision of it.
-- A parsed Memory whose state is nil has the empty state already. Several results of the source (an
-- id, a status and an error) are one record.
pub mod Import
mod Tests
use memory_ai.Prelude.{
  ℕ, String, Bool, true, false, List, [], ◌∷◌, Option, none, some, ◌==◌, leb, ltb, if◌then◌else◌,
  Error, Result, ok, err, eof, failure,
}
use memory_ai.Prelude.Text.{trim_space, sort_strings}
use memory_ai.Model.{Memory}
use memory_ai.Security.{validate_memory_capabilities}
use memory_ai.Fabric.{
  LocalFabric, Limits, resolve_local_fabric_memory, upsert_explicit_memory_bounded,
  delete_explicit_memory_bounded,
}

-- encoding/json and crypto/sha256 as this file uses them, the length of a text in bytes, and
-- verifyCapabilitySignature.
pub record Json : Type 0 where
  pub unmarshal : String → Option Memory
  pub byte_length : String → ℕ
  pub hash : Memory → String
  pub verify : Memory → Bool

pub record Imported : Type 0 where
  pub id : String
  pub status : String
  pub problem : Option Error

unfoldable pub explicit_delete_memory : String → LocalFabric → Result (Unit {0}) × LocalFabric
explicit_delete_memory id f = delete_explicit_memory_bounded (trim_space id) f

-- The loop of deleteStructures over the ordered ids.
unfoldable pub delete_each : List String → LocalFabric → Result (Unit {0}) × LocalFabric
delete_each [] f = (ok tt, f)
delete_each (id ∷ ids) f =
    let (r, f') = explicit_delete_memory (trim_space id) f in
    elim r [ err x ↦ (err x, f') | ok _ ↦ delete_each ids f' ]

unfoldable pub delete_structures : List String → LocalFabric → Result (Unit {0}) × LocalFabric
delete_structures ids f = delete_each (sort_strings ids) f

module _ (json : Json) (limits : Limits) where
  unfoldable pub memory_json_digest : Memory → String
  memory_json_digest m =
      json.hash (record (limits.copy m) { runtime_exec_count = 0; capability_sig = "" })

  -- The upsert that ends an import.
  unfoldable pub store_imported : Memory → LocalFabric → Imported × LocalFabric
  store_imported m f =
      let (r, f') = upsert_explicit_memory_bounded limits m f in
      elim r [
        | err x ↦ (record { id = m.id; status = "error"; problem = some x }, f')
        | ok _ ↦ (record { id = m.id; status = "imported"; problem = none }, f')
      ]

  -- The import of a valid Memory against what the Fabric holds.
  unfoldable pub import_against :
      Memory → Result (String × Memory) → LocalFabric → Imported × LocalFabric
  import_against m (ok (_, current)) f =
      if memory_json_digest current == memory_json_digest m
      then (record { id = m.id; status = "unchanged"; problem = none }, f)
      else if leb m.revision current.revision
      then (
        record {
          id = m.id;
          status = "stale";
          problem = some (failure "import revision must advance existing Memory");
        },
        f,
      )
      else store_imported m f
  import_against m (err eof) f = store_imported m f
  import_against m (err x) f = (record { id = m.id; status = "error"; problem = some x }, f)

  unfoldable pub import_parsed : Memory → LocalFabric → Imported × LocalFabric
  import_parsed m f =
      if m.id == ""
      then (
        record {
          id = "";
          status = "invalid";
          problem = some (failure "imported Memory id required");
        },
        f,
      )
      else elim (validate_memory_capabilities json.verify m false) [
        | err x ↦ (record { id = m.id; status = "denied"; problem = some x }, f)
        | ok _ ↦ let (r, f') = resolve_local_fabric_memory m.id f in import_against m r f'
      ]

  unfoldable pub import_memory_json : String → Bool → LocalFabric → Imported × LocalFabric
  import_memory_json raw remote f =
      if remote
      then (
        record {
          id = "";
          status = "denied";
          problem = some (failure "remote Memory import disabled");
        },
        f,
      )
      else if ltb limits.record_max_bytes (json.byte_length raw)
      then (
        record {
          id = "";
          status = "invalid";
          problem = some (failure "memory_import_json exceeds record byte ceiling");
        },
        f,
      )
      else elim (json.unmarshal raw) [
        | none ↦
            (record { id = ""; status = "invalid"; problem = some (failure "invalid JSON") }, f)
        | some m ↦ import_parsed (record m { id = trim_space m.id }) f
      ]
