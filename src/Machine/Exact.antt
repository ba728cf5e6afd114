-- ===== src/Machine/Exact.antt =====
-- Kernel/src/kernel.go: what a change through a target does, and what a splice takes.
use memory_ai.Machine.Writes.{replaced, stored-OnlyAt}
use memory_ai.Prelude.{
  ◌-◌, leb, ◌∙◌, eq_refl, ℕ, zero, suc, ◌≤◌, ◌<◌, String, ◌≡◌, refl, true, false, not, ◌&&◌, some,
  ◌==◌, arith, if◌then◌else◌, Option-cases, inl, inr,
}
use memory_ai.Prelude.Int.{ℤ, pos, negsuc}
use memory_ai.Prelude.Table.{get, flag, get-put}
use memory_ai.Model.{Memory}
use memory_ai.Engine.{Engine, Fabric, on_body}
use memory_ai.Engine.View.{view}
use memory_ai.Fabric.Resolve.{shows}
use memory_ai.Machine.{State, done, continue, ◌>>◌}
use memory_ai.Machine.Targets.{Target, on_fabric, set_dirty, dirty_in, touch, store_at, change_in}
use memory_ai.Machine.Logic.{shows-on_body, view-store, shows-dirty}
use memory_ai.Machine.Programs.{fragment_count}

-- What a splice takes of a source, and when start+count wraps around, for a start within the source: a
-- count that is not positive takes all that is behind `start`; a positive one, cut to the largest
-- int64, takes the smaller of itself and what is behind `start`, unless `start` is positive and the
-- count is 2 ^ 63 - start or more.
pub fragment_count-exact :
    (size start : ℕ) (count : ℤ)
    → start ≤ size
    → size < 9223372036854775808
    → fragment_count size start count ≡ (elim count [
      | negsuc _ ↦ (size - start, false)
      | pos n ↦
          if leb n 0
          then (size - start, false)
          else (if not (leb start 0) && leb (9223372036854775808 - start) n
              then (if leb n 9223372036854775807 then n else 9223372036854775807, true)
              else (if leb n (size - start) then n else size - start, false))
    ])
unfolding fragment_count
fragment_count-exact size start (negsuc n) below small = refl
fragment_count-exact size start (pos zero) below small = refl
fragment_count-exact size start (pos (suc k)) below small = ground arith

-- A target that is shown shows what is written through it.
replaced-shown :
    (t : Target) (m : Memory) (bodies : Fabric)
    → shows bodies t.body t.key ≡ some t.memory
    → shows (on_body t.body (replaced t m) bodies) t.body t.key ≡ some m
unfolding view
replaced-shown t m bodies shown = elim (Option-cases (get bodies t.body)) [
  | inl away ↦ ground arith
  | inr (e, there) ↦ ground (
    arith,
    shows-on_body t.body t.body t.key (replaced t m) bodies,
    view-store e t.key t.key m,
    eq_refl t.body,
    eq_refl t.key,
  )
]

-- A change through a target, bookkeeping included, where the target is shown and the owner is a body: the
-- target's body shows the new
-- record there, one revision later and without a capability signature; every other record of every
-- body shows as it did; and the owner is dirty, with the record's id.
pub change_in-exact :
    (owner : String) (t : Target) (m : Memory) (s : State) (o : Engine)
    → shows s.fabric.bodies t.body t.key ≡ some t.memory
    → get s.fabric.bodies owner ≡ some o
    → (u : State) × (change_in owner t m s ≡ done tt u)
      × (shows u.fabric.bodies t.body t.key
          ≡ some (record m { capability_sig = ""; revision = suc m.revision }))
      × ((p id : String)
          → (t.body == p && t.key == id) ≡ false
          → shows u.fabric.bodies p id ≡ shows s.fabric.bodies p id)
      × ((e : Engine)
          → get u.fabric.bodies owner ≡ some e
          → (e.dirty ≡ true) × (flag e.dirty_ids t.memory.id ≡ true))
unfolding touch set_dirty change_in store_at dirty_in on_fabric ◌>>◌ continue
change_in-exact owner t m s o shown there =
    let written = on_body t.body (replaced t (touch m)) s.fabric.bodies in
    let same = shows-dirty owner t.memory.id written in
    (
      _,
      refl,
      same t.body t.key ∙ replaced-shown t (touch m) s.fabric.bodies shown,
      λ p id other. same p id ∙ stored-OnlyAt t (touch m) s.fabric.bodies p id other,
      λ e now. elim (Option-cases (get written owner)) [
        | inl gone ↦ ground (arith, get-put s.fabric.bodies t.body owner)
        | inr (k, here) ↦ ground (
          arith,
          eq_refl owner,
          eq_refl t.memory.id,
          get-put written owner owner (set_dirty t.memory.id k),
          get-put k.dirty_ids t.memory.id t.memory.id true,
        )
      ],
    )
