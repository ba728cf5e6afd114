-- ===== src/Resource/Reservation.antt =====
-- Kernel/src/resource_runtime.go: what the reservations of one scope add up to.
use mathlib.Core.Bool.{false≢true}
use native.Mathlib.Nat.{add-zero, zero-add}
use memory_ai.Prelude.{
  sym, ap, ◌∙◌, Error, ℕ, ◌+◌, suc, zero, String, ◌≡◌, refl, ◌↔◌, Bool, true, false, List, [], ◌∷◌,
  some, arith, ◌==◌, eq_iff, if◌then◌else◌, Bool-cases, inl, inr, Result, ok, err, Result-cases,
}
use memory_ai.Prelude.Int.{ℤ, pos, negsuc, exceeds}
use memory_ai.Model.{ResourceBudget, FrameResourceScope, Frame}
use memory_ai.Resource.{
  primitive_may_memory_write as may_write, primitive_may_emit_event as may_emit, reserve_in,
  reserve_primitive_resource_budget, enter_frame_resource_scope,
}

-- The reservations that a run makes for the operations that it executes, one after another.
unfoldable pub reserve_all : Frame → List String → Result (Unit {0}) × Frame
reserve_all f [] = (ok tt, f)
reserve_all f (code ∷ codes) =
    let (r, f') = reserve_primitive_resource_budget f code in
    let rest = reserve_all f' codes in elim r [ ok _ ↦ rest | err e ↦ (err e, f') ]

-- How many operations of a list pass a test.
unfoldable pub count : (String → Bool) → List String → ℕ
count p [] = 0
count p (x ∷ xs) = let rest = count p xs in if p x then suc rest else rest

-- A counter respects a limit; a limit that is not positive does not apply.
abbrev pub Fits : ℕ → ℤ → Type 0
Fits n limit = exceeds n limit ≡ false

Fits-first : (limit : ℤ) (m n : ℕ) → Fits (m + n) limit → Fits m limit
Fits-first (pos zero) m n h = refl
Fits-first (pos (suc k)) m n h = ground arith
Fits-first (negsuc k) m n h = refl

-- Both counters respect their limits.
pub record Within (s : FrameResourceScope) : Type 0 where
  pub writes_fit : Fits s.memory_writes s.max_memory_writes
  pub events_fit : Fits s.events s.max_events

-- An operation that writes a Memory emits no event.
write-no_event : (code : String) → may_write code ≡ true → may_emit code ≡ false
unfolding may_emit
write-no_event code h = elim (Bool-cases (code == "emit_event")) [
  | inl e ↦ absurd (false≢true (unfold may_write in (ap may_write (sym ((eq_iff _ _).0 e)) ∙ h)))
  | inr e ↦ e
]

abbrev tick : Bool → ℕ → ℕ
tick b n = if b then n + 1 else n

module _ (s : FrameResourceScope) (code : String) where
  reserve_in-ok :
      Within s
      → Fits (tick (may_write code) s.memory_writes) s.max_memory_writes
      → Fits (tick (may_emit code) s.events) s.max_events
      → (reserve_in s code).0 ≡ ok tt
  unfolding reserve_in
  reserve_in-ok w f g = ground arith

  reserve_in-Fits :
      Within s
      → (reserve_in s code).0 ≡ ok tt
      → ((reserve_in s code).1 ≡ record s {
        memory_writes = tick (may_write code) s.memory_writes;
        events = tick (may_emit code) s.events;
      })
        × Within (reserve_in s code).1
  unfolding reserve_in
  reserve_in-Fits w h = (ground arith, ground arith)

  -- A refused operation leaves the counters as they were.
  pub reserve_in-refused : {e : Error} → (reserve_in s code).0 ≡ err e → (reserve_in s code).1 ≡ s
  unfolding reserve_in
  reserve_in-refused h = ground (arith, write-no_event code)

-- A frame whose scope is `s`.
abbrev with_scope : Frame → FrameResourceScope → Frame
with_scope f s = record f { resource_scope = some s }

count-cons :
    (p : String → Bool) (code : String) (codes : List String) (n : ℕ)
    → tick (p code) n + count p codes ≡ n + count p (code ∷ codes)
unfolding count
count-cons p code codes n = ground arith

reserve_all-Fits :
    (f : Frame) (s : FrameResourceScope) (codes : List String)
    → Within s
    → (reserve_all (with_scope f s) codes).0 ≡ ok tt
    → Fits (s.memory_writes + count may_write codes) s.max_memory_writes
      × Fits (s.events + count may_emit codes) s.max_events
unfolding reserve_all reserve_primitive_resource_budget
reserve_all-Fits f s [] w h = unfold count in rw add-zero (rw add-zero (w.writes_fit, w.events_fit))
reserve_all-Fits f s (code ∷ codes) w h = elim (Result-cases (reserve_in s code).0) [
  | inl (_, e) ↦
      let (same, w') = reserve_in-Fits s code w e in
      rw (← count-cons _ code codes _, ← count-cons _ code codes _)
        (rw same at (reserve_all-Fits f (reserve_in s code).1 codes w' (ground arith)))
  | inr (_, e) ↦ ground arith
]

reserve_all-ok :
    (f : Frame) (s : FrameResourceScope) (codes : List String)
    → Within s
    → Fits (s.memory_writes + count may_write codes) s.max_memory_writes
    → Fits (s.events + count may_emit codes) s.max_events
    → (reserve_all (with_scope f s) codes).0 ≡ ok tt
unfolding reserve_all reserve_primitive_resource_budget
reserve_all-ok f s [] w p q = refl
reserve_all-ok f s (code ∷ codes) w p q =
    let p' = rw (← count-cons may_write code codes s.memory_writes) at p in
    let q' = rw (← count-cons may_emit code codes s.events) at q in
    let now =
      reserve_in-ok s code w (Fits-first s.max_memory_writes _ (count may_write codes) p')
        (Fits-first s.max_events _ (count may_emit codes) q') in
    let (same, w') = reserve_in-Fits s code w now in
    let rest : (reserve_all (with_scope f (reserve_in s code).1) codes).0 ≡ ok tt =
      reserve_all-ok f (reserve_in s code).1 codes w' (rw same p') (rw same q') in
    ground arith

Fits-zero : (limit : ℤ) → Fits 0 limit
Fits-zero (pos zero) = refl
Fits-zero (pos (suc k)) = ground arith
Fits-zero (negsuc k) = refl

-- In the scope that a run enters under budget b, the reservations of a sequence of operations all
-- succeed exactly when the operations of the sequence that may write a Memory are no more than the
-- budget's max_memory_writes, and the event emissions no more than its max_events, each as far as
-- that limit is positive.
pub reserve_all-ok_iff :
    (f : Frame) (b : ResourceBudget) (codes : List String)
    → ((reserve_all (enter_frame_resource_scope f b).0 codes).0 ≡ ok tt) ↔ (
        Fits (count may_write codes) b.max_memory_writes × Fits (count may_emit codes) b.max_events)
unfolding enter_frame_resource_scope
reserve_all-ok_iff f b codes =
    let s : FrameResourceScope = record {
      max_memory_writes = b.max_memory_writes;
      max_events = b.max_events;
      memory_writes = 0;
      events = 0;
    } in
    let w : Within s = record {
      writes_fit = Fits-zero b.max_memory_writes;
      events_fit = Fits-zero b.max_events;
    } in
    (
      λ h. let fits = reserve_all-Fits f s codes w h in simp zero-add at fits,
      λ h. reserve_all-ok f s codes w (rw zero-add h.0) (rw zero-add h.1),
    )
