-- ===== src/Machine/Jumps.antt =====
-- Kernel/src/kernel.go: where the jumps of a Program lead the loop of Engine.run.
use mathlib.Core.Path.{subst}
use memory_ai.Prelude.{
  ap, ℕ, suc, ◌+◌, String, ◌≡◌, ◌⊎◌, refl, ◌&&◌, List, [], ◌∷◌, some, ◌==◌, eq_iff, arith,
  if◌then◌else◌, get_elem?, Option-cases, Bool-cases, inl, inr,
}
use memory_ai.Prelude.Table.{Table, get, put, get-put, get-empty}
use memory_ai.Model.{Op, Memory}
use memory_ai.Machine.{
  State, Outcome, done, failed, panicked, beyond, out_of_fuel, Action, Next, Host, continue, ◌>>=◌,
  ◌>>◌, pure, fail, lift, x, truth,
}
use memory_ai.Resource.{ResourceSample}
use memory_ai.Machine.Targets.{Target}
use memory_ai.Machine.Texts.{jump_to, jump_if, variable_cases, number_cases}
use memory_ai.Machine.Reads.{read_cases}
use memory_ai.Machine.Run.{
  labels_from, primitives, exec_primitive, current, reserve, run_op, next_pc, run_from,
}

labels_from-lands :
    (i : ℕ) (ops : List Op) (labels : Table ℕ) (name : String) (p : ℕ)
    → get (labels_from i ops labels) name ≡ some p
    → (get labels name ≡ some p)
      ⊎ ((k : ℕ) × (op : Op) × (p ≡ i + k)
          × (get_elem? ops k ≡ some op)
          × (op.code ≡ "label")
          × (op.a ≡ name))
unfolding labels_from
labels_from-lands i [] labels name p h = inl h
labels_from-lands i (o ∷ ops) labels name p h =
    elim (labels_from-lands (suc i) ops (if o.code == "label" then put labels o.a i else labels)
      name p h) [
        | inr (k, op, at, there, is_label, named) ↦
            inr (suc k, op, omega (arith, at), there, is_label, named)
        | inl before ↦ elim (Bool-cases (o.code == "label" && o.a == name)) [
          | inr other ↦ inl (ground (arith, get-put labels o.a name i))
          | inl this ↦ inr (
            0,
            o,
            ground (arith, get-put labels o.a name i),
            refl,
            (eq_iff o.code "label").0 (ground arith),
            (eq_iff o.a name).0 (ground arith),
          )
        ]
      ]

labels-land :
    (program : List Op) (name : String) (p : ℕ)
    → get (labels_from 0 program []) name ≡ some p
    → (op : Op) × (get_elem? program p ≡ some op) × (op.code ≡ "label") × (op.a ≡ name)
labels-land program name p h = elim (labels_from-lands 0 program [] name p h) [
  | inl none_before ↦ absurd (ground (arith, get-empty {V = ℕ} name))
  | inr (k, op, at, there, is_label, named) ↦
      (op, subst (λ q. get_elem? program q ≡ some op) (omega (arith, at)) there, is_label, named)
]

jump_to-lands :
    (program : List Op) (name : String) (p : ℕ) (s u : State)
    → jump_to (labels_from 0 program []) name s ≡ done (some p) u
    → (op : Op) × (get_elem? program p ≡ some op) × (op.code ≡ "label") × (op.a ≡ name)
unfolding jump_to fail pure
jump_to-lands program name p s u h = elim (Option-cases (get (labels_from 0 program []) name)) [
  | inl missing ↦ absurd (ground arith)
  | inr (q, there) ↦ labels-land program name p (ground arith)
]

bind-done :
    {A B : Type 0} (m : Action A) (k : A → Action B) (b : B) (s u : State)
    → (m >>= k) s ≡ done b u
    → (a : A) × (v : State) × (m s ≡ done a v) × (k a v ≡ done b u)
unfolding ◌>>=◌ continue
bind-done {A} m k b s u h = from (m s) h
  where
    from :
        (o : Outcome A)
        → continue o k ≡ done b u
        → (a : A) × (v : State) × (o ≡ done a v) × (k a v ≡ done b u)
    from (done a v) e = (a, v, refl, e)
    from (failed x v) e = absurd (ground arith)
    from (panicked v) e = absurd (ground arith)
    from (beyond v) e = absurd (ground arith)
    from out_of_fuel e = absurd (ground arith)

-- m >> k is m >>= λ _. k
seq-done :
    {A B : Type 0} (m : Action A) (k : Action B) (b : B) (s u : State)
    → (m >> k) s ≡ done b u
    → (a : A) × (v : State) × (m s ≡ done a v) × (k v ≡ done b u)
unfolding ◌>>◌ ◌>>=◌
seq-done m k b s u h = bind-done m (λ _. k) b s u h

-- An operation that jumps to a name.
unfoldable pub JumpsTo : Op → String → Type 0
JumpsTo op name = ((op.code ≡ "jump") × (op.a ≡ name)) ⊎ ((op.code ≡ "jump_if") × (op.b ≡ name))

-- The operation is a label of the Program with a name.
pub IsLabelAt : List Op → String → ℕ → Type 0
IsLabelAt program name p =
    (op : Op) × (get_elem? program p ≡ some op) × (op.code ≡ "label") × (op.a ≡ name)

module _ (h : Host) (enter : String → Action (Unit {0})) where
  abbrev with_code : Op → String → Op
  with_code op code = record { code = code; a = op.a; b = op.b; c = op.c; args = op.args }

  exec-jump :
      (self : Memory) (labels : Table ℕ) (a b c : String) (args : Table String)
      → exec_primitive h enter self labels
          (record { code = "jump"; a = a; b = b; c = c; args = args })
        ≡ jump_to labels a
  unfolding exec_primitive primitives variable_cases read_cases number_cases get
  exec-jump self labels a b c args = refl

  exec-jump_if :
      (self : Memory) (labels : Table ℕ) (a b c : String) (args : Table String)
      → exec_primitive h enter self labels
          (record { code = "jump_if"; a = a; b = b; c = c; args = args })
        ≡ jump_if h labels (record { code = "jump_if"; a = a; b = b; c = c; args = args })
  unfolding exec_primitive primitives variable_cases read_cases number_cases get
  exec-jump_if self labels a b c args = refl

  jump_if-lands :
      (program : List Op) (op : Op) (p : ℕ) (s u : State)
      → jump_if h (labels_from 0 program []) op s ≡ done (some p) u
      → IsLabelAt program op.b p
  unfolding jump_if pure IsLabelAt
  jump_if-lands program op p s u e =
      let (v, w, expanded, rest) = bind-done (x h op.a) _ (some p) s u e in
      elim (Bool-cases (truth h v)) [
        | inl taken ↦ jump_to-lands program op.b p w u (ground arith)
        | inr passed ↦ absurd (ground arith)
      ]

  exec-lands :
      (program : List Op) (self : Memory) (op : Op) (name : String) (p : ℕ) (s u : State)
      → JumpsTo op name
      → exec_primitive h enter self (labels_from 0 program []) op s ≡ done (some p) u
      → IsLabelAt program name p
  unfolding JumpsTo IsLabelAt
  exec-lands program self op name p s u (inl (code, named)) e =
      let labels = labels_from 0 program [] in
      subst (λ n. IsLabelAt program n p) named
        (jump_to-lands program op.a p s u (
          subst (λ f. f s ≡ done (some p) u) (exec-jump self labels op.a op.b op.c op.args)
            (subst (λ o. exec_primitive h enter self labels o s ≡ done (some p) u)
              (ap (with_code op) code) e)))
  exec-lands program self op name p s u (inr (code, named)) e =
      let labels = labels_from 0 program [] in
      subst (λ n. IsLabelAt program n p) named
        (jump_if-lands program (with_code op "jump_if") p s u (
          subst (λ f. f s ≡ done (some p) u) (exec-jump_if self labels op.a op.b op.c op.args)
            (subst (λ o. exec_primitive h enter self labels o s ≡ done (some p) u)
              (ap (with_code op) code) e)))

module _ (sample : ℕ → ResourceSample) (exec : Memory → Table ℕ → Op → Action Next)
    (t : Target) where
  -- An operation that was executed.
  run_op-done :
      (labels : Table ℕ) (ops : ℕ) (op : Op) (next : Next) (s u : State)
      → run_op sample exec t labels ops op s ≡ done next u
      → (self : Memory) × (v w : State) × (exec self labels op v ≡ done next w)
  unfolding run_op pure
  run_op-done labels ops op next s u e =
      let (self, s1, e1, r1) = bind-done (current t) _ next s u e in
      let (_, s2, e2, r2) = seq-done (lift _) _ next s1 u r1 in
      let (_, s3, e3, r3) = seq-done (reserve _ _ _ _ _) _ next s2 u r2 in
      let (n, s4, e4, r4) = bind-done (exec self labels op) _ next s3 u r3 in
      let (_, s5, e5, r5) = seq-done (lift _) _ next s4 u r4 in (self, s3, s4, ground arith)

  run_from-next :
      (labels : Table ℕ) (steps pc ops : ℕ) (op : Op) (next : Next) (s u : State)
      → get_elem? t.memory.program pc ≡ some op
      → run_op sample exec t labels ops op s ≡ done next u
      → run_from sample exec t labels (suc steps) pc ops s
        ≡ run_from sample exec t labels steps (next_pc pc next) (suc ops) u
  unfolding run_from ◌>>=◌ continue
  run_from-next labels steps pc ops op next s u there e = ground arith

-- A jump of a Program, conditional or not, that names a label and is taken leads the loop to an operation
-- `label` of that name: where the jump was executed and gave a position, the run goes on exactly from
-- that position, one step shorter, in the state that the jump left.
pub jump-lands :
    (h : Host) (enter : String → Action (Unit {0})) (sample : ℕ → ResourceSample) (t : Target)
    (op : Op) (name : String) (steps pc ops p : ℕ) (s u : State)
    → get_elem? t.memory.program pc ≡ some op
    → JumpsTo op name
    → run_op sample (exec_primitive h enter) t (labels_from 0 t.memory.program []) ops op s
      ≡ done (some p) u
    → IsLabelAt t.memory.program name p
      × (run_from sample
            (exec_primitive h enter)
            t
            (labels_from 0 t.memory.program [])
            (suc steps)
            pc
            ops
            s
          ≡ run_from sample
              (exec_primitive h enter)
              t
              (labels_from 0 t.memory.program [])
              steps
              p
              (suc ops)
              u)
unfolding next_pc
jump-lands h enter sample t op name steps pc ops p s u there jumps e =
    let labels = labels_from 0 t.memory.program [] in
    let (self, v, w, executed) =
      run_op-done sample (exec_primitive h enter) t labels ops op (some p) s u e in
    (
      exec-lands h enter t.memory.program self op name p v w jumps executed,
      run_from-next sample (exec_primitive h enter) t labels steps pc ops op (some p) s u there e,
    )
