-- ===== src/Speculative/Execs.antt =====
-- Kernel/src/speculative_fabric_commit.go: the plans that only advance execution counters.
use mathlib.Core.Path.{subst}
use mathlib.Core.Bool.{false≢true, not}
use memory_ai.Prelude.{
  ℕ, String, ◌≡◌, refl, sym, ap, ◌∙◌, Bool, true, false, ◌&&◌, List, [], ◌∷◌, Option, some, ◌==◌,
  eq_iff, arith, All, contains, if◌then◌else◌, Option-cases, Bool-cases, inl, inr,
}
use memory_ai.Prelude.Table.{Table, get, has}
use memory_ai.Model.{Memory}
use memory_ai.Speculative.{
  Codec, Fabric, TransactionDiff, ExecPlan, or_zero, on_body, plan_each, answered, is_counted,
  physical_owner_memory_locked, plan_count, plan_exec, validate_count, apply_exec,
  apply_exec_plan_locked,
}
use memory_ai.Speculative.Applied.{
  CodecLaws, observe, bump, observe-apply_exec_plan, observe-physical,
}
use memory_ai.Speculative.Commit.{seen, seen-on_body, has-on_body}
use memory_ai.Speculative.Plans.{>>=-some, >>=-cons, owned}

-- No key twice.
abbrev pub distinct : List String → Bool
distinct [] = true
distinct (x ∷ xs) = not (contains xs x) && distinct xs

abbrev pub ids : List ExecPlan → List String
ids [] = []
ids (p ∷ ps) = p.id ∷ ids ps

-- The record that a plan has read is still the one that is shown.
pub record Still (c : Codec) (fabric : Fabric) (p : ExecPlan) : Type 0 where
  pub current : Memory
  pub present : has fabric p.owner ≡ true
  pub read : p.current ≡ some current
  pub unchanged : seen c fabric p.owner p.id ≡ observe c (some current)

-- The plans of a list, one after another, on one observation.
unfoldable pub exec_at : List ExecPlan → String → String → Option (String × ℕ) → Option (String × ℕ)
exec_at [] o j now = now
exec_at (p ∷ ps) o j now =
    exec_at ps o j (if p.owner == o && p.id == j then bump p.delta now else now)

module _ {c : Codec} (laws : CodecLaws c) where
  seen-one :
      (p : ExecPlan) (fabric : Fabric) (o j : String)
      → Still c fabric p
      → seen c (on_body p.owner (apply_exec_plan_locked c p) fabric) o j ≡ (
          if p.owner == o && p.id == j then bump p.delta (seen c fabric o j) else seen c fabric o j)
  seen-one p fabric o j s = elim (Option-cases (get fabric p.owner)) [
    | inl out ↦ absurd (false≢true (ground (arith, s.present)))
    | inr (e, there) ↦ ground (
      arith,
      seen-on_body c (apply_exec_plan_locked c p) fabric p.owner o j e there,
      observe-apply_exec_plan laws p e j s.current s.read (ground (arith, s.unchanged)),
      eq_iff p.owner o,
      eq_iff p.id j,
    )
  ]

  Still-other :
      (p : ExecPlan) (fabric : Fabric) (q : ExecPlan)
      → Still c fabric p
      → (q.id == p.id) ≡ false
      → Still c fabric q
      → Still c (on_body p.owner (apply_exec_plan_locked c p) fabric) q
  Still-other p fabric q s ne t = record {
    current = t.current;
    present = has-on_body (apply_exec_plan_locked c p) fabric p.owner q.owner ∙ t.present;
    read = t.read;
    unchanged =
        ground (
          arith,
          seen-one p fabric q.owner q.id s,
          t.unchanged,
          eq_iff p.id q.id,
          eq_iff q.id p.id,
        );
  }

  Still-others :
      (p : ExecPlan) (fabric : Fabric) (qs : List ExecPlan)
      → Still c fabric p
      → contains (ids qs) p.id ≡ false
      → All (Still c fabric) qs
      → All (Still c (on_body p.owner (apply_exec_plan_locked c p) fabric)) qs
  unfolding contains
  Still-others p fabric [] s ne ts = tt
  Still-others p fabric (q ∷ qs) s ne ts =
      (Still-other p fabric q s (ground arith) ts.0, Still-others p fabric qs s (ground arith) ts.1)

  pub seen-apply_exec :
      (ps : List ExecPlan) (fabric : Fabric) (o j : String)
      → distinct (ids ps) ≡ true
      → All (Still c fabric) ps
      → seen c (apply_exec c ps fabric) o j ≡ exec_at ps o j (seen c fabric o j)
  unfolding apply_exec exec_at
  seen-apply_exec [] fabric o j d ss = refl
  seen-apply_exec (p ∷ ps) fabric o j d ss =
      seen-apply_exec ps (on_body p.owner (apply_exec_plan_locked c p) fabric) o j (ground arith)
        (Still-others p fabric ps ss.0 (ground arith) ss.1)
      ∙ ap (exec_at ps o j) (seen-one p fabric o j ss.0)

module _ (base : Table Memory) (owners : Table String) (d : TransactionDiff) where
  plan_count-parts :
      (id : String) (p : ExecPlan)
      → plan_count base owners d id ≡ some p
      → (get owners id ≡ some p.owner) × (p.id ≡ id) × (p.delta ≡ or_zero (get d.exec_delta id))
  unfolding plan_count
  plan_count-parts id p h = ground arith

  -- What the counting plans do, by the ids that are planned.
  pub record Counted (xs : List String) (ps : List ExecPlan) : Type 0 where
    pub planned_ids : (k : String) → contains (ids ps) k ≡ (contains xs k && is_counted d k)
    pub once : distinct xs ≡ true → distinct (ids ps) ≡ true
    pub effect :
        (o j : String) (now : Option (String × ℕ))
        → distinct xs ≡ true
        → exec_at ps o j now ≡ (
            if (contains xs j && is_counted d j) && owned owners j o
            then bump (or_zero (get d.exec_delta j)) now
            else now)

  Counted-skip :
      (x : String) (xs : List String) (ps : List ExecPlan)
      → is_counted d x ≡ false
      → Counted xs ps
      → Counted (x ∷ xs) ps
  unfolding contains
  Counted-skip x xs ps out k = record {
    planned_ids = λ j. ground (arith, k.planned_ids j, eq_iff x j);
    once = λ h. ground (arith, k.once);
    effect = λ o j now h. ground (arith, k.effect o j now, eq_iff x j);
  }

  Counted-take :
      (x : String) (xs : List String) (p : ExecPlan) (ps : List ExecPlan)
      → is_counted d x ≡ true
      → plan_count base owners d x ≡ some p
      → Counted xs ps
      → Counted (x ∷ xs) (p ∷ ps)
  unfolding contains exec_at
  Counted-take x xs p ps counted plan k =
      let (owner, same, delta) = plan_count-parts x p plan in
      record {
        planned_ids = λ j. ground (arith, k.planned_ids j, eq_iff x j, eq_iff p.id j);
        once = λ h. ground (arith, k.once, k.planned_ids p.id, eq_iff p.id x);
        effect = λ o j now h. ground (
          arith,
          k.effect o j (if p.owner == o && p.id == j then bump p.delta now else now),
          eq_iff x j,
          eq_iff p.id j,
        );
      }

  pub plan_exec-Counted :
      (xs : List String) (ps : List ExecPlan) → plan_exec base owners d xs ≡ some ps → Counted xs ps
  unfolding plan_exec
  plan_exec-Counted [] [] h = record {
    planned_ids = λ k. unfold contains in refl;
    once = λ _. refl;
    effect = λ o j now _. unfold exec_at contains in refl;
  }
  plan_exec-Counted [] (p ∷ ps) h = cc
  plan_exec-Counted (x ∷ xs) ps h = elim (Bool-cases (is_counted d x)) [
    | inr out ↦ Counted-skip x xs ps out (plan_exec-Counted xs ps (ground arith))
    | inl counted ↦
        let (p, rest, ep, er, e) =
          >>=-cons (plan_count base owners d x) (plan_exec base owners d xs) (ground arith) in
        subst (Counted (x ∷ xs)) (sym e)
          (Counted-take x xs p rest counted ep (plan_exec-Counted xs rest er))
  ]

module _ {c : Codec} (laws : CodecLaws c) (fabric : Fabric) where
  validate_count-Still :
      (p v : ExecPlan)
      → validate_count c fabric p ≡ some v
      → Still c fabric v × (v.owner ≡ p.owner) × (v.id ≡ p.id) × (v.delta ≡ p.delta)
  unfolding validate_count
  validate_count-Still p v h =
      let (e, there, h₁) = >>=-some (get fabric p.owner) _ h in
      let (m, read, h₂) = >>=-some (answered (physical_owner_memory_locked c e p.id)) _ h₁ in
      let same = observe-physical laws e p.id m read in
      (
        record {
          current = m;
          present = ground arith;
          read = ground arith;
          unchanged = ground arith;
        },
        ground arith,
        ground arith,
        ground arith,
      )

  exec_at-cons :
      (p v : ExecPlan) (ps vs : List ExecPlan) (o j : String) (now : Option (String × ℕ))
      → v.owner ≡ p.owner
      → v.id ≡ p.id
      → v.delta ≡ p.delta
      → ((now : Option (String × ℕ)) → exec_at vs o j now ≡ exec_at ps o j now)
      → exec_at (v ∷ vs) o j now ≡ exec_at (p ∷ ps) o j now
  unfolding exec_at
  exec_at-cons p v ps vs o j now eo ei en same =
      same (if v.owner == o && v.id == j then bump v.delta now else now)
      ∙ ap (exec_at ps o j) (ground arith)

  pub validate-Still :
      (ps vs : List ExecPlan)
      → plan_each (validate_count c fabric) ps ≡ some vs
      → All (Still c fabric) vs
        × (ids vs ≡ ids ps)
        × ((o j : String) (now : Option (String × ℕ)) → exec_at vs o j now ≡ exec_at ps o j now)
  unfolding plan_each
  validate-Still [] [] h = (tt, refl, λ o j now. refl)
  validate-Still [] (v ∷ vs) h = cc
  validate-Still (p ∷ ps) ws h =
      let (v, vs, ev, evs, e) =
        >>=-cons (validate_count c fabric p) (plan_each (validate_count c fabric) ps) h in
      let (still, o, i, n) = validate_count-Still p v ev in
      let (all, same, effect) = validate-Still ps vs evs in
      subst
        (λ (l : List ExecPlan).
          All (Still c fabric) l
          × (ids l ≡ p.id ∷ ids ps)
          × ((o j : String) (now : Option (String × ℕ))
              → exec_at l o j now ≡ exec_at (p ∷ ps) o j now))
        (sym e)
        (
          (still, all),
          cc (i, same),
          λ o' j now. exec_at-cons p v ps vs o' j now o i n (effect o' j),
        )

-- Plans whose ids another step leaves alone stay read.
pub Still-moved :
    (c : Codec) (before after : Fabric) (ps : List ExecPlan)
    → ((q : String) → has after q ≡ has before q)
    → ((o k : String) → contains (ids ps) k ≡ true → seen c after o k ≡ seen c before o k)
    → All (Still c before) ps
    → All (Still c after) ps
unfolding contains
Still-moved c before after [] same keep ss = tt
Still-moved c before after (p ∷ ps) same keep ss = (
  record {
    current = ss.0.current;
    present = same p.owner ∙ ss.0.present;
    read = ss.0.read;
    unchanged = keep p.owner p.id (ground (arith, eq_iff p.id p.id)) ∙ ss.0.unchanged;
  },
  Still-moved c before after ps same (λ o k h. keep o k (ground arith)) ss.1,
)
