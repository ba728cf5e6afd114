-- ===== src/Machine/Sound/Reads.antt =====
-- Kernel/src/kernel.go: reading a Memory, and the primitives that only read, keep a machine sound.
use memory_ai.Prelude.{
  String, [], none, some, Result, ok, err, eof, unavailable, side_effect, failure,
}
use memory_ai.Model.{Op, Memory}
use memory_ai.Machine.{
  Outcome, done, failed, panicked, beyond, out_of_fuel, Action, Host, pure, fail,
}
use memory_ai.Machine.Logic.{Origin, After, Ends, step, pure-Runs, fail-Runs, lift-Runs, reads-Runs}
use memory_ai.Machine.Steps.{look_up-Keeps}
use memory_ai.Machine.Sound.Texts.{AllFine, frame_rules}
use memory_ai.Machine.Reads.{
  attempt_outcome, attempt, from_mesh, from_network, from_fabric, resolve_id, read_or,
  resolve_by_tag, resolve, self_or, state_get, state_keys, state_has, state_list_of, state_list_len,
  state_list_get, state_list_contains, field_get, memory_exists, read_cases,
}

module _ (h : Host) (before : Origin) where
  abbrev Calm : {A : Type 0} → Action A → Type 0
  Calm m = Ends h.ceilings before [] m

  attempt-Ends : {A : Type 0} (m : Action A) → Calm m → Calm (attempt m)
  unfolding attempt attempt_outcome
  attempt-Ends {A} m r = record { run = λ s w. tried (m s) (r.run s w) }
    where
      tried :
          (o : Outcome A)
          → After h.ceilings before (λ _. []) o
          → After h.ceilings before (λ _. []) (attempt_outcome o)
      tried (done a s) w = w
      tried (failed e s) w = w
      tried (panicked s) w = w
      tried (beyond s) w = w
      tried out_of_fuel w = w

  from_mesh-Ends : (id : String) → Calm (from_mesh h id)
  unfolding from_mesh
  from_mesh-Ends id =
      elim (h.shared_fetch id)
        as (λ o.
          Ends {A = Memory} h.ceilings before [] (elim o [ none ↦ fail eof | some m ↦ pure m ])) [
            | none ↦ fail-Runs eof
            | some m ↦ pure-Runs m
          ]

  from_network-Ends : (id : String) (r : Result Memory) → Calm (from_network h id r)
  unfolding from_network
  from_network-Ends id (ok m) = pure-Runs m
  from_network-Ends id (err eof) = from_mesh-Ends id
  from_network-Ends id (err unavailable) = fail-Runs _
  from_network-Ends id (err (side_effect e)) = fail-Runs _
  from_network-Ends id (err (failure e)) = fail-Runs _

  from_fabric-Ends : (id : String) (r : Result (String × Memory)) → Calm (from_fabric h id r)
  unfolding from_fabric
  from_fabric-Ends id (ok (p, m)) = pure-Runs m
  from_fabric-Ends id (err eof) = from_network-Ends id (h.remote_fetch id)
  from_fabric-Ends id (err unavailable) = fail-Runs _
  from_fabric-Ends id (err (side_effect e)) = fail-Runs _
  from_fabric-Ends id (err (failure e)) = fail-Runs _

  resolve_id-Ends : (id : String) → Calm (resolve_id h id)
  unfolding resolve_id
  resolve_id-Ends id = step (look_up-Keeps id) (from_fabric-Ends id)

  read_or-Ends : (other : Action Memory) (r : Result Memory) → Calm other → Calm (read_or h other r)
  unfolding read_or
  read_or-Ends other (ok m) more = pure-Runs m
  read_or-Ends other (err eof) more = more
  read_or-Ends other (err unavailable) more = fail-Runs _
  read_or-Ends other (err (side_effect e)) more = fail-Runs _
  read_or-Ends other (err (failure e)) more = fail-Runs _

  resolve_by_tag-Ends : (tag : String) → Calm (resolve_by_tag h tag)
  unfolding resolve_by_tag
  resolve_by_tag-Ends tag = step (reads-Runs _) (λ listed. step (lift-Runs listed) (λ ids.
      step (lift-Runs _)
        (λ id. step (attempt-Ends _ (resolve_id-Ends id)) (λ r. read_or-Ends _ r (fail-Runs _)))))

  resolve-Ends : (id_or_tag : String) → Calm (resolve h id_or_tag)
  unfolding resolve
  resolve-Ends id_or_tag =
      step (attempt-Ends _ (resolve_id-Ends id_or_tag))
        (λ r. read_or-Ends _ r (resolve_by_tag-Ends id_or_tag))

  self_or-Ends : (self : Memory) (op : Op) → Calm (self_or h self op)
  unfolding self_or
  self_or-Ends self op = search (frame_rules, resolve-Ends)

  state_list_of-Ends : (op : Op) → Calm (state_list_of h op)
  unfolding state_list_of
  state_list_of-Ends op = search (frame_rules, resolve-Ends)

  pub read_cases-AllFine : (self : Memory) (op : Op) → AllFine h before (read_cases h self op)
  unfolding read_cases state_get state_keys state_has state_list_len state_list_get
      state_list_contains field_get memory_exists
  read_cases-AllFine self op =
      search (frame_rules, self_or-Ends, state_list_of-Ends, resolve-Ends, attempt-Ends) depth 16
