-- ===== src/Structures/Tests.antt =====
-- A second revision of the stored record is imported.
use memory_ai.Prelude.{String, ◌≡◌, refl, true, false, [], ◌∷◌, some, ltb}
use memory_ai.Prelude.Table.{get, put, remove}
use memory_ai.Prelude.Text.{trim_space, sort_strings, insert_sorted}
use memory_ai.Model.{Memory}
use memory_ai.Samples.{note, body}
use memory_ai.Security.{validate_memory_capabilities, validate_program}
use memory_ai.Engine.{
  resolve_id_local, resolve_live, install_page, upsert_explicit_memory_on_owner, upsert_answer,
}
use memory_ai.Fabric.{
  LocalFabric, Limits, resolve_local_fabric_memory, resolve_each, next_found, owner_or_eof,
  local_fabric_engines, without, upsert_explicit_memory_bounded, upsert_resolved,
  ensure_memory_record_within_physical_limit,
}
use memory_ai.Fabric.Resolve.{shows}
use memory_ai.Structures.{
  Json, memory_json_digest, store_imported, import_against, import_parsed, import_memory_json,
}
use memory_ai.Structures.Import.{import_memory_json-advances}

abbrev second_revision : Memory
second_revision = record note { revision = 2; content = "second" }

abbrev json : Json
json = record {
  unmarshal = λ raw. some second_revision;
  byte_length = λ raw. 10;
  hash = λ m. m.content;
  verify = λ m. true;
}

abbrev limits : Limits
limits = record {
  shard_max = 4;
  record_max_bytes = 100;
  encoded_size = λ m. some 10;
  copy = λ m. m;
}

abbrev local : LocalFabric
local = record { root = "Memory.mem"; bodies = ("Memory.mem", body) ∷ []; write_space = "" }

imports : (import_memory_json json limits "{}" false local).0.status ≡ "imported"
unfolding import_memory_json import_parsed import_against store_imported memory_json_digest
    validate_memory_capabilities validate_program resolve_local_fabric_memory resolve_each
    next_found owner_or_eof local_fabric_engines without sort_strings insert_sorted resolve_id_local
    resolve_live install_page get put remove trim_space upsert_explicit_memory_bounded
    upsert_resolved ensure_memory_record_within_physical_limit upsert_explicit_memory_on_owner
    upsert_answer
imports = refl

trimmed : trim_space "note" ≡ "note"
unfolding trim_space
trimmed = refl

import_memory_json-advances_example :
    (false ≡ false)
    × ((o : String) (old : Memory)
        → shows local.bodies o "note" ≡ some old
        → ltb old.revision 2 ≡ true)
import_memory_json-advances_example =
    import_memory_json-advances json limits "{}" false local second_revision refl trimmed imports
