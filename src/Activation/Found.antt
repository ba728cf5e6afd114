-- ===== src/Activation/Found.antt =====
-- Kernel/src/activation_runtime.go: the features of a Memory, one by one.
use mathlib.Core.Path.{subst}
use Prim.Native.String as Str
use memory_ai.Prelude.{
  some, Option-cases, ℕ, String, ◌≡◌, ◌↔◌, ◌⊎◌, sym, true, false, List, [], ◌∷◌, ◌++◌, map, ◌==◌,
  eq_iff, eq_refl, arith, contains, Bool-cases, inl, inr,
}
use memory_ai.Prelude.Table.{Table, get}
use memory_ai.Prelude.Text.{trim_space}
use memory_ai.Model.{Value}
use memory_ai.Activation.Features.{exact_index_value, key_features}

-- A list of texts has, trimmed, a text.
unfoldable pub Trims : List String → String → Type 0
Trims xs f = contains (map trim_space xs) f ≡ true

is_trimmed : (x f : String) → (trim_space x == f) ≡ true → f ≡ trim_space x
is_trimmed x f h = sym ((eq_iff (trim_space x) f).0 h)

pub Trims-head : (x f : String) (xs : List String) → f ≡ trim_space x → Trims (x ∷ xs) f
unfolding Trims contains
Trims-head x f xs e = ground (arith, eq_iff (trim_space x) f)

pub Trims-tail : (x f : String) (xs : List String) → Trims xs f → Trims (x ∷ xs) f
unfolding Trims contains
Trims-tail x f xs h = ground arith

pub Trims-cons :
    (x f : String) (xs : List String) → Trims (x ∷ xs) f → (f ≡ trim_space x) ⊎ Trims xs f
unfolding Trims contains
Trims-cons x f xs h = elim (Bool-cases (trim_space x == f)) [
  | inl this ↦ inl (is_trimmed x f this)
  | inr other ↦ inr (ground arith)
]

pub Trims-append : (xs ys : List String) (f : String) → Trims (xs ++ ys) f → Trims xs f ⊎ Trims ys f
unfolding Trims contains
Trims-append [] ys f h = inr h
Trims-append (x ∷ xs) ys f h = elim (Bool-cases (trim_space x == f)) [
  | inl this ↦ inl (ground arith)
  | inr other ↦ elim (Trims-append xs ys f (ground arith)) [
    | inl left ↦ inl (ground arith)
    | inr right ↦ inr right
  ]
]

pub Trims-left : (xs ys : List String) (f : String) → Trims xs f → Trims (xs ++ ys) f
unfolding Trims contains
Trims-left [] ys f h = ground arith
Trims-left (x ∷ xs) ys f h = elim (Bool-cases (trim_space x == f)) [
  | inl this ↦ ground arith
  | inr other ↦ let rest = Trims-left xs ys f (ground arith) in ground arith
]

pub Trims-right : (xs ys : List String) (f : String) → Trims ys f → Trims (xs ++ ys) f
unfolding Trims contains
Trims-right [] ys f h = h
Trims-right (x ∷ xs) ys f h = let rest = Trims-right xs ys f h in ground arith

-- A text with a prefix, for a text of a list.
abbrev pub Prefixed : String → List String → String → Type 0
Prefixed prefix ts f = (t : String) × (contains ts t ≡ true) × (f ≡ trim_space (Str.◌++◌ prefix t))

pub Prefixed-Trims :
    (prefix : String) (ts : List String) (f : String)
    → Trims (map (Str.◌++◌ prefix) ts) f ↔ Prefixed prefix ts f
unfolding Trims contains
Prefixed-Trims prefix [] f = (λ h. absurd (ground arith), λ (t, h, e). absurd (ground arith))
Prefixed-Trims prefix (t ∷ ts) f = (
  λ h. elim (Bool-cases (trim_space (Str.◌++◌ prefix t) == f)) [
    | inl this ↦ (t, ground (arith, eq_refl t), is_trimmed (Str.◌++◌ prefix t) f this)
    | inr other ↦
        let (u, there, e) = (Prefixed-Trims prefix ts f).0 (ground arith) in (u, ground arith, e)
  ],
  λ (u, there, e). elim (Bool-cases (t == u)) [
    | inl this ↦
        Trims-head (Str.◌++◌ prefix t) f (map (Str.◌++◌ prefix) ts)
          (subst (λ v. f ≡ trim_space (Str.◌++◌ prefix v)) (sym ((eq_iff t u).0 this)) e)
    | inr other ↦ let rest = (Prefixed-Trims prefix ts f).1 (u, ground arith, e) in ground arith
  ],
)

module _ (print_number : ℕ → String) where
  -- A scalar of the state, as a text.
  unfoldable pub ShowsAs : Value → String → Type 0
  ShowsAs Value.null t = ⊥
  ShowsAs (Value.boolean true) t = t ≡ "true"
  ShowsAs (Value.boolean false) t = t ≡ "false"
  ShowsAs (Value.number n) t = t ≡ print_number n
  ShowsAs (Value.text s) t = t ≡ s
  ShowsAs (Value.strings l) t = ⊥
  ShowsAs (Value.items l) t = ⊥
  ShowsAs (Value.object o) t = ⊥

  -- What a key of the state is found under.
  abbrev pub KeyFeature : Table Value → String → String → Type 0
  KeyFeature state k f =
      (f ≡ trim_space (Str.◌++◌ "state-key:" k))
      ⊎ ((v : Value) × (t : String) × (get state k ≡ some v)
          × ShowsAs v t
          × (f ≡ trim_space (Str.◌++◌ "state-kv:" (Str.◌++◌ k (Str.◌++◌ "=" t)))))

  module _ (bytes : String → List ℕ) where
    exact-ShowsAs :
        (v : Value) (t : String) → (exact_index_value print_number bytes v ≡ some t) ↔ ShowsAs v t
    unfolding exact_index_value ShowsAs
    exact-ShowsAs Value.null t = (λ h. absurd (ground arith), λ h. absurd h)
    exact-ShowsAs (Value.boolean true) t = (λ h. ground arith, λ h. ground arith)
    exact-ShowsAs (Value.boolean false) t = (λ h. ground arith, λ h. ground arith)
    exact-ShowsAs (Value.number n) t = (λ h. ground arith, λ h. ground arith)
    exact-ShowsAs (Value.text s) t = (λ h. ground arith, λ h. ground arith)
    exact-ShowsAs (Value.strings l) t = (λ h. absurd (ground arith), λ h. absurd h)
    exact-ShowsAs (Value.items l) t = (λ h. absurd (ground arith), λ h. absurd h)
    exact-ShowsAs (Value.object o) t = (λ h. absurd (ground arith), λ h. absurd h)

    pub key-Trims :
        (state : Table Value) (k f : String)
        → Trims (key_features print_number bytes state k) f ↔ KeyFeature state k f
    unfolding key_features Trims contains
    key-Trims state k f =
        let key = Str.◌++◌ "state-key:" k in
        elim (Option-cases (get state k)) [
          | inl out ↦ (
            λ h. inl (ground (arith, eq_iff (trim_space key) f)),
            λ q. elim q [
              | inl e ↦ ground (arith, eq_iff (trim_space key) f)
              | inr (v, t, there, shown, e) ↦ absurd (ground arith)
            ],
          )
          | inr (v, there) ↦ elim (Option-cases (exact_index_value print_number bytes v)) [
            | inl none_exact ↦ (
              λ h. inl (ground (arith, eq_iff (trim_space key) f)),
              λ q. elim q [
                | inl e ↦ ground (arith, eq_iff (trim_space key) f)
                | inr (w, t, held, shown, e) ↦
                    let scalar = (exact-ShowsAs w t).1 shown in absurd (ground arith)
              ],
            )
            | inr (t, exact) ↦
                let pair = trim_space (Str.◌++◌ "state-kv:" (Str.◌++◌ k (Str.◌++◌ "=" t))) in
                (
                  λ h. elim (Bool-cases (trim_space key == f)) [
                    | inl this ↦ inl (is_trimmed key f this)
                    | inr other ↦
                        inr
                          (v, t, there, (exact-ShowsAs v t).0 exact, ground (arith, eq_iff pair f))
                  ],
                  λ q. elim q [
                    | inl e ↦ ground (arith, eq_iff (trim_space key) f)
                    | inr (w, u, held, shown, e) ↦
                        let scalar = (exact-ShowsAs w u).1 shown in
                        let same =
                          trim_space (Str.◌++◌ "state-kv:" (Str.◌++◌ k (Str.◌++◌ "=" u))) in
                        ground (arith, eq_iff pair f)
                  ],
                )
          ]
        ]
