-- ===== src/Grants.antt =====
-- Kernel/src/mesh_grant_runtime.go: a node consumes a grant of the sovereign before it serves a
-- remote request. The signature (ed25519 over JSON, keys from the environment) is a parameter. The
-- clock in seconds is an argument, a natural number as the expiry is, and so is what persisting the
-- receipt of a grant returned.
pub mod Replay
mod Tests
use memory_ai.Prelude.{
  ℕ, ◌+◌, String, Bool, true, false, ◌&&◌, ◌||◌, not, List, [], ◌∷◌, Option, none, some, ◌==◌, leb,
  ltb, nat_eq, if◌then◌else◌, contains, Result, ok, err, failure, reject_if, ◌>>=◌, ◌>>◌, Error,
}
use memory_ai.Prelude.Table.{Table, get, put, remove, has}
use memory_ai.Prelude.Text.{trim_space}

pub record MeshGrant : Type 0 where
  pub version : ℕ
  pub operation : String
  pub memory_id : String
  pub origin_node : String
  pub origin_public_key : String
  pub target_node : String
  pub expires_unix : ℕ
  pub nonce : String
  pub signature : String

-- decodeEd25519Public succeeds; verifyMeshGrantWithKey succeeds under the sovereign's key; the
-- length of a text in bytes.
pub record Keys : Type 0 where
  pub is_public_key : String → Bool
  pub verify : MeshGrant → Bool
  pub byte_length : String → ℕ

unfoldable pub mesh_grant_has_side_effect : String → Bool
mesh_grant_has_side_effect operation =
    trim_space operation == "shared_execute" || trim_space operation == "route_execute"

-- consumedMeshGrantNonces.Range: expired nonces are forgotten.
unfoldable pub forget_expired : ℕ → Table ℕ → Table ℕ
forget_expired now [] = []
forget_expired now ((nonce, expires) ∷ rest) =
    let rest' = forget_expired now rest in
    if leb expires now then rest' else (nonce, expires) ∷ rest'

module _ (keys : Keys) where
  open keys use {is_public_key, verify, byte_length}

  unfoldable pub check_grant : MeshGrant → List String → String → String → ℕ → Result (Unit {0})
  check_grant g allowed memory_id target now = do
    reject_if (not (nat_eq g.version 2)) (failure "unsupported mesh grant version")
    reject_if (not (contains allowed g.operation)) (failure "mesh grant operation not allowed")
    reject_if (not (g.memory_id == trim_space memory_id)) (failure "mesh grant MemoryID mismatch")
    reject_if (trim_space g.origin_node == "" || trim_space g.origin_public_key == "")
        (failure "mesh grant origin identity missing")
    reject_if (not (is_public_key g.origin_public_key))
        (failure "mesh grant origin public key invalid")
    reject_if (not (g.target_node == trim_space target)) (failure "mesh grant target-node mismatch")
    reject_if (leb g.expires_unix now) (failure "mesh grant expired")
    reject_if (ltb (now + 120) g.expires_unix)
        (failure "mesh grant expiry exceeds physical authorization window")
    reject_if (ltb (byte_length g.nonce) 16) (failure "mesh grant nonce invalid")
    reject_if (not (verify g)) (failure "sovereign grant signature denied")

  -- What follows LoadOrStore of a new nonce; `persisted` is what persistConsumedMeshGrant returned.
  unfoldable pub record_grant :
      MeshGrant → ℕ → Result (Unit {0}) → Table ℕ → Result (Unit {0}) × Table ℕ
  record_grant g now persisted consumed =
      let stored = put consumed g.nonce g.expires_unix in
      if mesh_grant_has_side_effect g.operation
      then elim persisted [
        | err x ↦ (err x, remove stored g.nonce)
        | ok _ ↦ (ok tt, forget_expired now stored)
      ]
      else (ok tt, forget_expired now stored)

  unfoldable pub consume_mesh_grant :
      MeshGrant
      → List String
      → String
      → String
      → ℕ
      → Result (Unit {0})
      → Table ℕ
      → Result (Unit {0}) × Table ℕ
  consume_mesh_grant g allowed memory_id target now persisted consumed =
      elim (check_grant g allowed memory_id target now) [
        | err x ↦ (err x, consumed)
        | ok _ ↦
            if has consumed g.nonce
            then (err (failure "mesh grant replay rejected"), consumed)
            else record_grant g now persisted consumed
      ]
