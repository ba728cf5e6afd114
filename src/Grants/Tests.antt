-- ===== src/Grants/Tests.antt =====
-- A grant that a node accepts, and the same grant again.
use memory_ai.Prelude.{ℕ, String, ◌≡◌, ◌≢◌, refl, true, [], ◌∷◌, contains, ok, List}
use memory_ai.Prelude.Table.{Table, get}
use memory_ai.Prelude.Text.{trim_space}
use memory_ai.Grants.{
  MeshGrant, Keys, check_grant, mesh_grant_has_side_effect, record_grant, consume_mesh_grant,
}
use memory_ai.Grants.Replay.{start, accepted_once}

abbrev keys : Keys
keys = record { is_public_key = λ s. true; verify = λ g. true; byte_length = λ s. 16 }

abbrev grant : MeshGrant
grant = record {
  version = 2;
  operation = "shared_fetch";
  memory_id = "m";
  origin_node = "a";
  origin_public_key = "k";
  target_node = "b";
  expires_unix = 130;
  nonce = "n";
  signature = "s";
}

abbrev operations : List String
operations = "shared_fetch" ∷ []

abbrev after : Table ℕ
after = (consume_mesh_grant keys grant operations "m" "b" 100 (ok tt) []).1

accepted : (consume_mesh_grant keys grant operations "m" "b" 100 (ok tt) []).0 ≡ ok tt
unfolding consume_mesh_grant check_grant record_grant mesh_grant_has_side_effect contains trim_space
    get
accepted = refl

accepted_once_example :
    (consume_mesh_grant keys grant operations "m" "b" 100 (ok tt) after).0 ≢ ok tt
accepted_once_example =
    accepted_once keys grant operations operations "m" "m" "b" "b" 100 100 (ok tt) (ok tt) [] after
      accepted (start 100 after)
