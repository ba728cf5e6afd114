-- ===== src/Machine/Sound/Records.antt =====
-- Kernel/src/kernel.go: the primitives on the history and the tags of a Memory, and the deletion, keep a
-- machine sound.
use mathlib.Core.Path.{subst}
use memory_ai.Prelude.{
  true, false, String, ◌≡◌, List, [], ◌∷◌, Option, none, some, eq_iff, arith, Result-cases,
  Option-cases, inl, inr,
}
use memory_ai.Prelude.Table.{put, get, get-put}
use memory_ai.Model.{Op}
use memory_ai.Engine.{
  Engine, resolve_id_local, delete_locked, tag_delta_add_locked, tag_delta_remove_locked,
}
use memory_ai.Engine.View.{view, resolve_id_local-view}
use memory_ai.Engine.Effects.{view-delete_locked}
use memory_ai.Machine.{Host, pure, done}
use memory_ai.Prelude.Text.{trim_space}
use memory_ai.Machine.Targets.{note_removed, Target}
use memory_ai.Machine.Logic.{
  Origin, After, Ends, step, step_seq, part, part_seq, lift-Runs, if-Runs,
}
use memory_ai.Machine.Steps.{x-Runs, check_out-Runs, owner_of-Runs}
use memory_ai.Machine.Writes.{less, change_in-Runs, pure-Ends, unseen-Runs}
use memory_ai.Machine.Sound.Texts.{AllFine, Fine}
use memory_ai.Machine.Sound.States.{write_rules}
use memory_ai.Machine.Records.{
  delete_at, check_record_bytes, append_history, memory_history_append, add_tag, memory_tag_add,
  memory_tag_remove, memory_delete, record_cases,
}

view-delta_add :
    (id tag : String) (e : Engine) (j : String) → view (tag_delta_add_locked id tag e) j ≡ view e j
unfolding tag_delta_add_locked view
view-delta_add id tag e j = ground arith

view-delta_remove :
    (id tag : String) (e : Engine) (j : String)
    → view (tag_delta_remove_locked id tag e) j ≡ view e j
unfolding tag_delta_remove_locked view
view-delta_remove id tag e j = ground arith

module _ (h : Host) (before : Origin) where
  append_history-Ends :
      (ts : List Target) (owner : String) (t : Target) (field value : String)
      (current : List String)
      → Ends h.ceilings before (t ∷ ts) (append_history h owner t field value current)
  unfolding append_history
  append_history-Ends ts owner t field value current = search write_rules

  memory_history_append-Fine : (op : Op) → Fine h before (memory_history_append h op)
  unfolding memory_history_append check_record_bytes
  memory_history_append-Fine op = search (write_rules, append_history-Ends) depth 15

  add_tag-Ends :
      (ts : List Target) (owner : String) (t : Target) (tag : String)
      → Ends h.ceilings before (t ∷ ts) (add_tag h owner t tag)
  unfolding add_tag
  add_tag-Ends ts owner t tag = if-Runs _ (pure-Ends tt) (
      step_seq (lift-Runs _) (
        part_seq (change_in-Runs owner t _) (
          unseen-Runs owner (tag_delta_add_locked t.memory.id tag)
            (view-delta_add t.memory.id tag))))

  memory_tag_add-Fine : (op : Op) → Fine h before (memory_tag_add h op)
  unfolding memory_tag_add check_record_bytes
  memory_tag_add-Fine op = search (write_rules, add_tag-Ends) depth 15

  memory_tag_remove-Fine : (op : Op) → Fine h before (memory_tag_remove h op)
  unfolding memory_tag_remove
  memory_tag_remove-Fine op = search (write_rules, unseen-Runs, view-delta_remove) depth 15

  delete_at-Fine : (p id : String) → Ends h.ceilings before [] (delete_at p id)
  unfolding delete_at note_removed
  delete_at-Fine p id = record {
    run = λ s w. elim (Option-cases (get s.fabric.bodies p)) [
      | inl away ↦
          subst (After h.ceilings before (λ _. [])) {x = done false s} {y = delete_at p id s}
            (ground arith) w
      | inr (e, there) ↦
          let e' = (resolve_id_local e id).1 in
          elim (Result-cases (resolve_id_local e id).0) [
            | inl (m, found) ↦
                let t = note_removed p (trim_space id) m (record s {
                  fabric = record s.fabric {
                    bodies = put s.fabric.bodies p (delete_locked id m e');
                  };
                }) in
                subst (After h.ceilings before (λ _. [])) {x = done true t} {y = delete_at p id s}
                  (ground arith)
                  (less s t w w.fits (λ q j n shown. ground (
                    arith,
                    get-put s.fabric.bodies p q (delete_locked id m e'),
                    eq_iff p q,
                    (resolve_id_local-view e id).1 j,
                    view-delete_locked e' m j id,
                  )))
            | inr (x, missing) ↦
                let t = record s {
                  fabric = record s.fabric { bodies = put s.fabric.bodies p e' };
                } in
                subst (After h.ceilings before (λ _. [])) {x = done false t} {y = delete_at p id s}
                  (ground arith)
                  (less s t w w.fits (λ q j n shown. ground (
                    arith,
                    get-put s.fabric.bodies p q e',
                    eq_iff p q,
                    (resolve_id_local-view e id).1 j,
                  )))
          ]
    ];
  }

  memory_delete-Fine : (op : Op) → Fine h before (memory_delete h op)
  unfolding memory_delete
  memory_delete-Fine op = step (x-Runs h op.a) (λ id.
      step_seq (check_out-Runs h op "ok_out" "1") (
        step (owner_of-Runs id)
          (λ owner. part (deleting owner id) (λ deleted. search write_rules))))
    where
      deleting :
          (o : Option String) (id : String)
          → Ends h.ceilings before [] (elim o [ none ↦ pure false | some p ↦ delete_at p id ])
      deleting none id = pure-Ends false
      deleting (some p) id = delete_at-Fine p id

  pub record_cases-AllFine : (op : Op) → AllFine h before (record_cases h op)
  unfolding record_cases
  record_cases-AllFine op =
      search (
        memory_history_append-Fine, memory_tag_add-Fine, memory_tag_remove-Fine, memory_delete-Fine,
      )
