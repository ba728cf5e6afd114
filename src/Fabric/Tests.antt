-- ===== src/Fabric/Tests.antt =====
-- A core body and an empty storage body.
use memory_ai.Prelude.{
  String, ◌≡◌, ◌≢◌, ◌⊎◌, refl, false, [], ◌∷◌, none, some, ◌==◌, eq_iff, arith, ok, err, eof, Error,
}
use memory_ai.Prelude.Table.{get}
use memory_ai.Prelude.Text.{trim_space, trim_left, trim_right, is_blank}
use memory_ai.Model.{Memory}
use memory_ai.Samples.{note, blank, body}
use memory_ai.Engine.{Engine, Store}
use memory_ai.Engine.View.{view}
use memory_ai.Prelude.Table.{put, remove}
use memory_ai.Prelude.Text.{sort_strings, insert_sorted}
use memory_ai.Engine.{
  resolve_id_local, resolve_live, install_page, delete_locked, remove_tags, tag_delta_remove_locked,
  add_runtime_memory, add_tags,
}
use memory_ai.Fabric.{
  delete_resolved, resolve_each, next_found, owner_or_eof, local_fabric_engines, without,
  upsert_resolved, create_explicit, place_runtime_memory_locked, mounted_writable_shard,
  shard_has_capacity, local_memory_count_fast, count_ids,
  ensure_memory_record_within_physical_limit, add_runtime_memory_checked, LocalFabric, Limits,
  resolve_local_fabric_memory, upsert_explicit_memory_bounded, delete_explicit_memory_bounded,
}
use memory_ai.Fabric.Resolve.{shows, resolve_local_fabric_memory_unique}
use memory_ai.Fabric.Writes.{IsUnique, upsert_explicit_memory_bounded-IsUnique}
use memory_ai.Fabric.Outcome.{buried, delete_explicit_memory_bounded-gone}
use memory_ai.Fabric.Creation.{IsShown, upsert_explicit_memory_bounded-IsShown}

abbrev empty_store : Store
empty_store = record {
  get_id = λ id. err eof;
  tag_ids = λ tag. err eof;
  all_ids = ok [];
  memory_count = 0;
}

abbrev shard : Engine
shard = record body { body_path = "Memory.a.mem"; role = "storage"; store = empty_store }

abbrev local : LocalFabric
local = record {
  root = "Memory.mem";
  bodies = ("Memory.mem", body) ∷ ("Memory.a.mem", shard) ∷ [];
  write_space = "Memory.a.mem";
}

abbrev limits : Limits
limits = record {
  shard_max = 4;
  record_max_bytes = 100;
  encoded_size = λ m. some 10;
  copy = λ m. m;
}

local-IsUnique : IsUnique local.bodies
unfolding get view
local-IsUnique = record {
  once = λ p q id m n h k. ground (
    arith,
    eq_iff "Memory.mem" p,
    eq_iff "Memory.a.mem" p,
    eq_iff "Memory.mem" q,
    eq_iff "Memory.a.mem" q,
  );
}

resolve_local_fabric_memory_unique_example :
    ((o : String) (m : Memory)
      → (resolve_local_fabric_memory " note" local).0 ≡ ok (o, m)
      → (shows local.bodies o (trim_space " note") ≡ some m)
        × ((q : String) → q ≢ o → shows local.bodies q (trim_space " note") ≡ none))
    × ((resolve_local_fabric_memory " note" local).0 ≡ err eof
        → (trim_space " note" ≡ "")
          ⊎ ((q : String) → shows local.bodies q (trim_space " note") ≡ none))
    × ((q j : String)
        → shows (resolve_local_fabric_memory " note" local).1.bodies q j ≡ shows local.bodies q j)
resolve_local_fabric_memory_unique_example = resolve_local_fabric_memory_unique " note" local

trimmed : (trim_space "note") ≡ "note"
unfolding trim_space trim_left trim_right is_blank
trimmed = refl

upsert_explicit_memory_bounded-IsUnique_example :
    IsUnique (upsert_explicit_memory_bounded limits note local).1.bodies
upsert_explicit_memory_bounded-IsUnique_example =
    upsert_explicit_memory_bounded-IsUnique limits note local refl trimmed local-IsUnique

delete_explicit_memory_bounded-gone_example :
    ((delete_explicit_memory_bounded "note" local).0 ≡ ok tt
      → (q : String) → shows (delete_explicit_memory_bounded "note" local).1.bodies q "note" ≡ none)
    × ((q j : String)
        → ("note" == j) ≡ false
        → shows (delete_explicit_memory_bounded "note" local).1.bodies q j ≡ shows local.bodies q j)
    × ((x : Error)
        → (delete_explicit_memory_bounded "note" local).0 ≡ err x
        → (q j : String)
        → shows (delete_explicit_memory_bounded "note" local).1.bodies q j ≡ shows local.bodies q j)
delete_explicit_memory_bounded-gone_example =
    delete_explicit_memory_bounded-gone "note" local trimmed

abbrev topic : Memory
topic = blank "topic"

upsert_explicit_memory_bounded-IsShown_example :
    (((p : String) → buried local.bodies p "topic" ≡ false)
      → (upsert_explicit_memory_bounded limits topic local).0 ≡ ok tt
      → IsShown (upsert_explicit_memory_bounded limits topic local).1.bodies topic)
    × ((p j : String)
        → ("topic" == j) ≡ false
        → shows (upsert_explicit_memory_bounded limits topic local).1.bodies p j
          ≡ shows local.bodies p j)
upsert_explicit_memory_bounded-IsShown_example =
    upsert_explicit_memory_bounded-IsShown limits topic local

-- A deletion by an id with a blank before it reports success and leaves the record.
untrimmed_deletion :
    ((delete_explicit_memory_bounded " note" local).0 ≡ ok tt)
    × (shows (delete_explicit_memory_bounded " note" local).1.bodies "Memory.mem" "note"
        ≡ some note)
unfolding delete_explicit_memory_bounded delete_resolved resolve_local_fabric_memory resolve_each
    next_found owner_or_eof local_fabric_engines resolve_id_local resolve_live install_page
    delete_locked remove_tags tag_delta_remove_locked view get put remove trim_space without
    sort_strings insert_sorted
untrimmed_deletion = (refl, refl)

placed_in_shard :
    shows (upsert_explicit_memory_bounded limits topic local).1.bodies "Memory.a.mem" "topic"
    ≡ some topic
unfolding upsert_explicit_memory_bounded upsert_resolved create_explicit place_runtime_memory_locked
    mounted_writable_shard shard_has_capacity local_memory_count_fast count_ids
    ensure_memory_record_within_physical_limit add_runtime_memory_checked add_runtime_memory
    add_tags resolve_local_fabric_memory resolve_each next_found owner_or_eof local_fabric_engines
    resolve_id_local resolve_live install_page view get put remove trim_space without sort_strings
    insert_sorted
placed_in_shard = refl
