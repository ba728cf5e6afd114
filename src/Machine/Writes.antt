-- ===== src/Machine/Writes.antt =====
-- Kernel/src/kernel.go: a write through a target keeps a machine sound, and so does what drops targets.
use mathlib.Core.Path.{subst}
use memory_ai.Prelude.{
  sym, not, String, ◌≡◌, ◌⊎◌, refl, true, ◌&&◌, List, [], ◌∷◌, some, ◌==◌, eq_iff, arith,
  Option-cases, Bool-cases, inl, inr,
}
use memory_ai.Prelude.Table.{get, put, flag}
use memory_ai.Model.{Memory}
use memory_ai.Engine.{Engine, Fabric, on_body}
use memory_ai.Engine.View.{view}
use memory_ai.Fabric.Resolve.{shows}
use memory_ai.Fabric.Writes.{OnlyAt, IsUnique-OnlyAt}
use memory_ai.Frames.{Ceilings}
use memory_ai.Frames.Bounds.{vars_fit}
use memory_ai.Machine.{◌>>=◌, State, Action, pure}
use memory_ai.Machine.Targets.{
  Target, resolve_mutable, resolve_executable, on_fabric, touch, store_at, change_in, change,
}
use memory_ai.Machine.Logic.{
  Origin, end, View, IsEarned, IsSound, Keeps, Ends, alike, bind, seq, pure-Runs, shows-on_body,
  view-store,
}
use memory_ai.Machine.Steps.{
  resolve_mutable-Runs, resolve_executable-Runs, dirty_in-Runs, mark_dirty-Runs,
}

abbrev pub replaced : Target → Memory → Engine → Engine
replaced t m e = record e { cache = put e.cache t.key m }

shows-replaced :
    (t : Target) (m : Memory) (bodies : Fabric) (p id : String) (n : Memory)
    → shows (on_body t.body (replaced t m) bodies) p id ≡ some n
    → ((n ≡ m) × (t.body ≡ p) × (t.key ≡ id)) ⊎ (shows bodies p id ≡ some n)
shows-replaced t m bodies p id n h = elim (Option-cases (get bodies t.body)) [
  | inl away ↦
      inr (ground (arith, shows-on_body t.body p id (replaced t m) bodies, eq_iff t.body p))
  | inr (e, there) ↦
      elim (Bool-cases (t.body == p && (t.key == id && not (flag e.deleted_ids id)))) [
        | inl at ↦ inl (
          ground (arith, shows-on_body t.body p id (replaced t m) bodies, view-store e t.key id m),
          (eq_iff t.body p).0 (ground arith),
          (eq_iff t.key id).0 (ground arith),
        )
        | inr off ↦ inr (
            ground (
              arith,
              shows-on_body t.body p id (replaced t m) bodies,
              view-store e t.key id m,
              eq_iff t.body p,
            ))
      ]
]

-- A write through a target: only its key in its body may show something else.
stored-IsEarned :
    (before : View) (t : Target) (m : Memory) (bodies : Fabric) (p id : String) (n : Memory)
    → ((p id : String) (m : Memory) → shows bodies p id ≡ some m → IsEarned before p id m)
    → IsEarned before t.body t.key m
    → shows (on_body t.body (replaced t m) bodies) p id ≡ some n
    → IsEarned before p id n
stored-IsEarned before t m bodies p id n earned written h =
    elim (shows-replaced t m bodies p id n h) [
      | inl (new, at, under) ↦
          subst (λ k. IsEarned before p id k) (sym new)
            (subst (λ q. IsEarned before q id m) at
              (subst (λ j. IsEarned before t.body j m) under written))
      | inr old ↦ earned p id n old
    ]

pub stored-OnlyAt :
    (t : Target) (m : Memory) (bodies : Fabric)
    → OnlyAt t.body t.key bodies (on_body t.body (replaced t m) bodies)
stored-OnlyAt t m bodies q j h = elim (Option-cases (get bodies t.body)) [
  | inl away ↦ ground (arith, shows-on_body t.body q j (replaced t m) bodies, eq_iff t.body q)
  | inr (e, there) ↦ ground (
    arith,
    shows-on_body t.body q j (replaced t m) bodies,
    view-store e t.key j m,
    eq_iff t.body q,
  )
]

module _ {c : Ceilings} {before : Origin} {ts : List Target} where
  pub store_at-Runs :
      (t : Target) (m : Memory)
      → ((s : State) → IsSound c before (t ∷ ts) s → IsEarned before.shown t.body t.key m)
      → Ends c before (t ∷ ts) (store_at t m)
  unfolding store_at on_fabric
  store_at-Runs t m written = record {
    run = λ s w. record {
      fits = w.fits;
      once = IsUnique-OnlyAt t.body t.key (stored-OnlyAt t m s.fabric.bodies) w.alone.0.0 w.once;
      earned = λ p id n h.
          stored-IsEarned before.shown t m s.fabric.bodies p id n w.earned (written s w) h;
      alone = tt;
    };
  }

  -- A record that has been touched is unsigned.
  pub store_touched-Runs : (t : Target) (m : Memory) → Ends c before (t ∷ ts) (store_at t (touch m))
  unfolding touch
  store_touched-Runs t m = store_at-Runs t _ (λ s w. inl refl)

  pub change_in-Runs :
      (owner : String) (t : Target) (m : Memory) → Ends c before (t ∷ ts) (change_in owner t m)
  unfolding change_in
  change_in-Runs owner t m = seq (store_touched-Runs t m) (dirty_in-Runs owner t.memory.id)

  pub change-Runs : (t : Target) (m : Memory) → Ends c before (t ∷ ts) (change t m)
  unfolding change
  change-Runs t m = seq (store_touched-Runs t m) (mark_dirty-Runs t.memory.id)

  pub pure-Ends : {A : Type 0} (a : A) → Ends c before ts (pure a)
  pure-Ends a = end (pure-Runs a)

  pub resolving :
      {A : Type 0} {k : Target → Action A} (id : String)
      → ((t : Target) → Ends c before (t ∷ ts) (k t))
      → Ends c before ts (resolve_mutable id >>= k)
  resolving id rest = bind (resolve_mutable-Runs id) rest

  pub resolving_executable :
      {A : Type 0} {k : Target → Action A} (id : String)
      → ((t : Target) → Ends c before (t ∷ ts) (k t))
      → Ends c before ts (resolve_executable id >>= k)
  resolving_executable id rest = bind (resolve_executable-Runs id) rest

  -- A change of a body that shows the same afterwards.
  pub unseen-Runs :
      (p : String) (f : Engine → Engine)
      → ((e : Engine) (j : String) → view (f e) j ≡ view e j)
      → Keeps c before ts (on_fabric (on_body p f))
  unfolding on_fabric
  unseen-Runs p f same = record {
    run = λ s w. alike c before ts s _ w w.fits (λ q j.
        elim (Option-cases (get s.fabric.bodies p)) [
          | inl away ↦ ground (arith, shows-on_body p q j f s.fabric.bodies, eq_iff p q)
          | inr (e, there) ↦
              ground (arith, shows-on_body p q j f s.fabric.bodies, eq_iff p q, same e j)
        ]);
  }

  -- The target at hand last may be left out.
  pub behind :
      {A : Type 0} {m : Action A} {u : Target} → Ends c before ts m → Ends c before (u ∷ ts) m
  behind r = record {
    run = λ s w.
        r.run s (record { fits = w.fits; once = w.once; earned = w.earned; alone = w.alone.1 });
  }

  -- A change after which the bodies show nothing new.
  pub less :
      (s t : State)
      → IsSound c before ts s
      → (before.framed ≡ true → vars_fit c t.frame.vars ≡ true)
      → ((q j : String) (m : Memory)
          → shows t.fabric.bodies q j ≡ some m
          → shows s.fabric.bodies q j ≡ some m)
      → IsSound c before [] t
  less s t w fits fewer_shown = record {
    fits = fits;
    once = record {
      once = λ p q id m n h k. w.once.once p q id m n (fewer_shown p id m h) (fewer_shown q id n k);
    };
    earned = λ p id m h. w.earned p id m (fewer_shown p id m h);
    alone = tt;
  }
