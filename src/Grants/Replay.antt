-- ===== src/Grants/Replay.antt =====
-- Kernel/src/mesh_grant_runtime.go: a grant is accepted once.
use memory_ai.Prelude.{
  ℕ, String, ◌≡◌, ◌≢◌, Bool, true, false, List, [], ◌∷◌, none, some, leb, ◌||◌, eq_iff, arith,
  Bool-cases, Option-cases, Result-cases, inl, inr, Result, ok,
}
use memory_ai.Prelude.Table.{Table, get, put, get-put, get-remove}
use memory_ai.Grants.{
  MeshGrant, Keys, forget_expired, check_grant, record_grant, consume_mesh_grant,
}

-- The nonce is remembered with its expiry, or it has expired.
abbrev pub is_spent : String → ℕ → ℕ → Table ℕ → Bool
is_spent nonce expires now consumed =
    leb expires now || (elim (get consumed nonce) [ none ↦ false | some e ↦ leb expires e ])

is_spent-forget_expired :
    (nonce : String) (expires now : ℕ) (t : Table ℕ)
    → is_spent nonce expires now t ≡ true
    → is_spent nonce expires now (forget_expired now t) ≡ true
unfolding forget_expired get
is_spent-forget_expired nonce expires now [] h = h
is_spent-forget_expired nonce expires now ((k, e) ∷ t) h =
    ground
      (arith, is_spent-forget_expired nonce expires now t, eq_iff k nonce, Bool-cases (leb e now))

module _ (keys : Keys) where
  -- A history of consumptions, of any grants, at times that do not go back.
  pub data History : ℕ → Table ℕ → ℕ → Table ℕ → Type 0 where
    start : (now : ℕ) (t : Table ℕ) → History now t now t
    consume :
        {begun now later : ℕ} {t t' : Table ℕ} (g : MeshGrant) (allowed : List String)
        (memory_id target : String) (persisted : Result (Unit {0}))
        → leb now later ≡ true
        → History begun t now t'
        → History begun t later
            (consume_mesh_grant keys g allowed memory_id target later persisted t').1

  consume-is_spent :
      (nonce : String) (expires now later : ℕ) (t : Table ℕ) (g : MeshGrant) (allowed : List String)
      (memory_id target : String) (persisted : Result (Unit {0}))
      → leb now later ≡ true
      → is_spent nonce expires now t ≡ true
      → is_spent nonce expires later
          (consume_mesh_grant keys g allowed memory_id target later persisted t).1
        ≡ true
  unfolding consume_mesh_grant record_grant
  consume-is_spent nonce expires now later t g allowed memory_id target persisted up h =
      elim (Result-cases (check_grant keys g allowed memory_id target later)) [
        | inr (x, refused) ↦ ground arith
        | inl (u, checked) ↦ ground (
          arith,
          get-put t g.nonce nonce g.expires_unix,
          get-remove (put t g.nonce g.expires_unix) g.nonce nonce,
          eq_iff g.nonce nonce,
          is_spent-forget_expired nonce expires later (put t g.nonce g.expires_unix),
          Result-cases persisted,
        )
      ]

  History-is_spent :
      {begun now : ℕ} {t t' : Table ℕ} (nonce : String) (expires : ℕ)
      → History begun t now t'
      → is_spent nonce expires begun t ≡ true
      → is_spent nonce expires now t' ≡ true
  History-is_spent nonce expires (start now t) h = h
  History-is_spent nonce expires
        (consume {now = now} {later = later} {t' = t'} g allowed memory_id target persisted up past)
        h =
      consume-is_spent nonce expires now later t' g allowed memory_id target persisted up
        (History-is_spent nonce expires past h)

  accepted-is_spent :
      (g : MeshGrant) (allowed : List String) (memory_id target : String) (now : ℕ)
      (persisted : Result (Unit {0})) (t : Table ℕ)
      → (consume_mesh_grant keys g allowed memory_id target now persisted t).0 ≡ ok tt
      → is_spent g.nonce g.expires_unix now
          (consume_mesh_grant keys g allowed memory_id target now persisted t).1
        ≡ true
  unfolding consume_mesh_grant record_grant
  accepted-is_spent g allowed memory_id target now persisted t h =
      elim (Result-cases (check_grant keys g allowed memory_id target now)) [
        | inr (x, refused) ↦ ground arith
        | inl (u, checked) ↦ ground (
          arith,
          get-put t g.nonce g.nonce g.expires_unix,
          eq_iff g.nonce g.nonce,
          is_spent-forget_expired g.nonce g.expires_unix now (put t g.nonce g.expires_unix),
          Result-cases persisted,
        )
      ]

  -- A check that succeeds has found the grant unexpired.
  check_grant-unexpired :
      (g : MeshGrant) (allowed : List String) (memory_id target : String) (now : ℕ)
      → check_grant keys g allowed memory_id target now ≡ ok tt
      → leb g.expires_unix now ≡ false
  unfolding check_grant
  check_grant-unexpired g allowed memory_id target now h = ground arith

  spent-refused :
      (g : MeshGrant) (allowed : List String) (memory_id target : String) (now : ℕ)
      (persisted : Result (Unit {0})) (t : Table ℕ)
      → is_spent g.nonce g.expires_unix now t ≡ true
      → (consume_mesh_grant keys g allowed memory_id target now persisted t).0 ≢ ok tt
  unfolding consume_mesh_grant
  spent-refused g allowed memory_id target now persisted t spent h =
      elim (Result-cases (check_grant keys g allowed memory_id target now)) [
        | inr (x, refused) ↦ ground arith
        | inl (u, checked) ↦ ground (
          arith,
          check_grant-unexpired g allowed memory_id target now,
          Option-cases (get t g.nonce),
        )
      ]

  -- No replay: once a running node has accepted a grant, it accepts it never again, for any request, after
  -- any history of other consumptions at times that do not go back: the nonce is remembered until
  -- the grant has expired.
  pub accepted_once :
      (g : MeshGrant) (allowed allowed' : List String)
      (memory_id memory_id' target target' : String) (now later : ℕ)
      (persisted persisted' : Result (Unit {0})) (t t' : Table ℕ)
      → (consume_mesh_grant keys g allowed memory_id target now persisted t).0 ≡ ok tt
      → History now (consume_mesh_grant keys g allowed memory_id target now persisted t).1 later t'
      → (consume_mesh_grant keys g allowed' memory_id' target' later persisted' t').0 ≢ ok tt
  accepted_once g allowed allowed' memory_id memory_id' target target' now later persisted
        persisted' t t' h past =
      spent-refused g allowed' memory_id' target' later persisted' t' (
        History-is_spent g.nonce g.expires_unix past
          (accepted-is_spent g allowed memory_id target now persisted t h))
