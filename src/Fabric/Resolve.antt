-- ===== src/Fabric/Resolve.antt =====
-- Kernel/src/fabric_write_runtime.go: what resolveLocalFabricMemory finds.
use memory_ai.Prelude.{
  String, ◌≡◌, ◌≢◌, ◌⊎◌, refl, ap, ◌∙◌, true, ◌||◌, ◌&&◌, List, [], ◌∷◌, Option, none, some, ◌==◌,
  eq_iff, arith, contains, Option-cases, Result-cases, Bool-cases, inl, inr, Result, ok, err, eof,
  unavailable, side_effect, failure, not,
}
use memory_ai.Prelude.Table.{get, put, keys, has, get-put, contains-keys}
use memory_ai.Prelude.Text.{trim_space, contains-sort_strings}
use memory_ai.Model.{Memory}
use memory_ai.Engine.{Engine, Fabric, resolve_id_local}
use memory_ai.Engine.View.{view, resolve_id_local-view}
use memory_ai.Fabric.{
  LocalFabric, without, local_fabric_engines, next_found, resolve_each, owner_or_eof,
  resolve_local_fabric_memory,
}

-- What the body at a path shows under an id.
abbrev pub shows : Fabric → String → String → Option Memory
shows bodies p id = elim (get bodies p) [ none ↦ none | some e ↦ view e id ]

shows-put_resolved :
    (bodies : Fabric) (p q id j : String) (e : Engine)
    → get bodies p ≡ some e
    → shows (put bodies p (resolve_id_local e id).1) q j ≡ shows bodies q j
shows-put_resolved bodies p q id j e h = ground (
  arith,
  get-put bodies p q (resolve_id_local e id).1,
  eq_iff p q,
  (resolve_id_local-view e id).1 j,
)

pub resolve_each-shows :
    (id : String) (ps : List String) (found : Option (String × Memory)) (bodies : Fabric)
    (q j : String)
    → shows (resolve_each id ps found bodies).1 q j ≡ shows bodies q j
unfolding resolve_each
resolve_each-shows id [] found bodies q j = refl
resolve_each-shows id (p ∷ ps) found bodies q j = elim (Option-cases (get bodies p)) [
  | inl out ↦ ground (arith, resolve_each-shows id ps found bodies q j)
  | inr (e, there) ↦ elim (Result-cases (next_found p found (resolve_id_local e id).0)) [
    | inl (found', n) ↦ ground (
      arith,
      shows-put_resolved bodies p q id j e there,
      resolve_each-shows id ps found' (put bodies p (resolve_id_local e id).1) q j,
    )
    | inr (x, n) ↦ ground (arith, shows-put_resolved bodies p q id j e there)
  ]
]

-- The result of a loop over ps that started with `found`, where s is what the bodies show.
abbrev Told :
    (String → Option Memory)
    → List String
    → Option (String × Memory)
    → Option (String × Memory)
    → Type 0
Told s ps found none = (found ≡ none) × ((q : String) → contains ps q ≡ true → s q ≡ none)
Told s ps found (some (o, m)) =
    ((found ≡ some (o, m)) ⊎ (s o ≡ some m))
    × ((q : String) → contains ps q ≡ true → q ≢ o → s q ≡ none)
    × ((q : String) (n : Memory) → found ≡ some (q, n) → q ≡ o)

-- One candidate: the loop keeps what it has and the body shows nothing, or the body shows what the
-- loop has now, and what it had before, if anything, is of this body.
abbrev Took :
    (String → Option Memory) → String → Option (String × Memory) → Option (String × Memory) → Type 0
Took s p found found' =
    ((found' ≡ found) × (s p ≡ none))
    ⊎ ((m : Memory) × (s p ≡ some m)
        × (found' ≡ some (p, m))
        × ((q : String) (n : Memory) → found ≡ some (q, n) → q ≡ p))

next_found-Took :
    (s : String → Option Memory) (p : String) (found found' : Option (String × Memory))
    (r : Result Memory)
    → ((m : Memory) → (r ≡ ok m → s p ≡ some m) × (s p ≡ some m → r ≡ ok m))
    → next_found p found r ≡ ok found'
    → Took s p found found'
unfolding next_found
next_found-Took s p found found' (err eof) v n = elim (Option-cases (s p)) [
  | inl none_here ↦ inl (ground arith, none_here)
  | inr (m, here) ↦ ground (arith, (v m).1 here)
]
next_found-Took s p found found' (err unavailable) v n = ground arith
next_found-Took s p found found' (err (side_effect _)) v n = ground arith
next_found-Took s p found found' (err (failure _)) v n = ground arith
next_found-Took s p none found' (ok m) v n =
    inr (m, (v m).0 refl, ground arith, λ q k h. ground arith)
next_found-Took s p (some (owner, k)) found' (ok m) v n = elim (Bool-cases (owner == p)) [
  | inl here ↦ inr (m, (v m).0 refl, ground arith, λ q k' h. ground (arith, eq_iff owner p))
  | inr away ↦ ground arith
]

Told-cons :
    (s : String → Option Memory) (p : String) (ps : List String)
    (found found' out : Option (String × Memory))
    → Took s p found found'
    → Told s ps found' out
    → Told s (p ∷ ps) found out
unfolding contains
Told-cons s p ps found found' none (inl (same, here)) (a, b) =
    (ground arith, λ q h. ground (arith, b q, eq_iff p q))
Told-cons s p ps found found' none (inr (m, here, now, before)) (a, b) = ground arith
Told-cons s p ps found found' (some (o, m)) (inl (same, here)) (a, b, c) =
    (ground arith, λ q h ne. ground (arith, b q, eq_iff p q), λ q k h. ground (arith, c q k))
Told-cons s p ps found found' (some (o, m)) (inr (k, here, now, before)) (a, b, c) = (
  inr (elim a [ inl e ↦ ground (arith, here, now, e, ap s (c p k now)) | inr e ↦ e ]),
  λ q h ne. ground (arith, b q, eq_iff p q, c p k now),
  λ q n h. before q n h ∙ c p k now,
)

resolve_each-Told :
    (at : Fabric) (id : String) (ps : List String) (found out : Option (String × Memory))
    (bodies : Fabric)
    → ((q : String) → shows bodies q id ≡ shows at q id)
    → (resolve_each id ps found bodies).0 ≡ ok out
    → Told (λ q. shows at q id) ps found out
unfolding resolve_each contains
resolve_each-Told at id [] found none bodies same h = (ground arith, λ q k. ground arith)
resolve_each-Told at id [] found (some (o, m)) bodies same h =
    (inl (ground arith), λ q k. ground arith, λ q n k. ground arith)
resolve_each-Told at id (p ∷ ps) found out bodies same h = elim (Option-cases (get bodies p)) [
  | inl away ↦
      Told-cons (λ q. shows at q id) p ps found found out (inl (refl, ground (arith, same p)))
        (resolve_each-Told at id ps found out bodies same (ground arith))
  | inr (e, there) ↦ elim (Result-cases (next_found p found (resolve_id_local e id).0)) [
    | inl (found', n) ↦
        Told-cons (λ q. shows at q id) p ps found found' out
          (next_found-Took (λ q. shows at q id) p found found' (resolve_id_local e id).0
            (λ m. (
              λ r. ground (arith, same p, ((resolve_id_local-view e id).0 m).0 r),
              λ r. ((resolve_id_local-view e id).0 m).1 (ground (arith, same p)),
            ))
            n)
          (resolve_each-Told at id ps found' out (put bodies p (resolve_id_local e id).1)
            (λ q. shows-put_resolved bodies p q id id e there ∙ same q) (ground arith))
    | inr (x, n) ↦ ground arith
  ]
]

next_found-never_eof :
    (p : String) (found : Option (String × Memory)) (r : Result Memory)
    → next_found p found r ≢ err eof
unfolding next_found
next_found-never_eof p found (err eof) h = ground arith
next_found-never_eof p found (err unavailable) h = ground arith
next_found-never_eof p found (err (side_effect _)) h = ground arith
next_found-never_eof p found (err (failure _)) h = ground arith
next_found-never_eof p none (ok m) h = ground arith
next_found-never_eof p (some (owner, k)) (ok m) h = ground arith

resolve_each-never_eof :
    (id : String) (ps : List String) (found : Option (String × Memory)) (bodies : Fabric)
    → (resolve_each id ps found bodies).0 ≢ err eof
unfolding resolve_each
resolve_each-never_eof id [] found bodies h = ground arith
resolve_each-never_eof id (p ∷ ps) found bodies h = elim (Option-cases (get bodies p)) [
  | inl away ↦ resolve_each-never_eof id ps found bodies (ground arith)
  | inr (e, there) ↦ elim (Result-cases (next_found p found (resolve_id_local e id).0)) [
    | inl (found', n) ↦
        resolve_each-never_eof id ps found' (put bodies p (resolve_id_local e id).1) (ground arith)
    | inr (x, n) ↦ next_found-never_eof p found (resolve_id_local e id).0 (ground arith)
  ]
]

contains-without :
    (p : String) (qs : List String) (q : String)
    → contains (without p qs) q ≡ (contains qs q && not (p == q))
unfolding without contains
contains-without p [] q = refl
contains-without p (x ∷ xs) q =
    ground (arith, contains-without p xs q, eq_iff p x, eq_iff x q, eq_iff p q)

-- Every mounted body and the root is asked.
contains-engines :
    (f : LocalFabric) (q : String)
    → contains (local_fabric_engines f) q ≡ (f.root == q || has f.bodies q)
unfolding local_fabric_engines contains
contains-engines f q = ground (
  arith,
  contains-sort_strings (without f.root (keys f.bodies)) q,
  contains-without f.root (keys f.bodies) q,
  contains-keys f.bodies q,
)

owner_or_eof-ok :
    (r : Result (Option (String × Memory))) {x : String × Memory}
    → owner_or_eof r ≡ ok x
    → r ≡ ok (some x)
unfolding owner_or_eof
owner_or_eof-ok (err x) h = ground arith
owner_or_eof-ok (ok none) h = ground arith
owner_or_eof-ok (ok (some x)) h = ground arith

owner_or_eof-eof :
    (r : Result (Option (String × Memory))) → r ≢ err eof → owner_or_eof r ≡ err eof → r ≡ ok none
unfolding owner_or_eof
owner_or_eof-eof (err x) never h = absurd (never (ground arith))
owner_or_eof-eof (ok none) never h = refl
owner_or_eof-eof (ok (some x)) never h = ground arith

asked :
    (f : LocalFabric) (id q : String)
    → (contains (local_fabric_engines f) q ≡ true → shows f.bodies q id ≡ none)
    → shows f.bodies q id ≡ none
asked f id q k = elim (Option-cases (get f.bodies q)) [
  | inl away ↦ ground arith
  | inr (e, there) ↦ k (ground (arith, contains-engines f q))
]

-- A lookup in the Fabric succeeds with a body and the record that it shows under the trimmed id, and
-- then no other body shows that id; it reports io.EOF only for a blank id or one that no body shows;
-- and it leaves what every body shows under every id.
pub resolve_local_fabric_memory_unique :
    (id : String) (f : LocalFabric)
    → ((o : String) (m : Memory)
        → (resolve_local_fabric_memory id f).0 ≡ ok (o, m)
        → (shows f.bodies o (trim_space id) ≡ some m)
          × ((q : String) → q ≢ o → shows f.bodies q (trim_space id) ≡ none))
      × ((resolve_local_fabric_memory id f).0 ≡ err eof
          → (trim_space id ≡ "") ⊎ ((q : String) → shows f.bodies q (trim_space id) ≡ none))
      × ((q j : String)
          → shows (resolve_local_fabric_memory id f).1.bodies q j ≡ shows f.bodies q j)
unfolding resolve_local_fabric_memory owner_or_eof
resolve_local_fabric_memory_unique id f = (
  λ o m h.
      (let t = told (some (o, m)) (owner_or_eof-ok loop.0 (ground arith)) in
        (found t.0, λ q ne. asked f key q (λ k. t.1 q k ne))),
  λ h. elim (Bool-cases (key == "")) [
    | inl blank ↦ inl ((eq_iff key "").0 blank)
    | inr some_key ↦
        let t = told none (
          owner_or_eof-eof loop.0
            (resolve_each-never_eof key (local_fabric_engines f) none f.bodies) (ground arith)) in
        inr (λ q. asked f key q (λ k. t.1 q k))
  ],
  λ q j. ground (arith, resolve_each-shows key (local_fabric_engines f) none f.bodies q j),
)
  where
    key : String
    key = trim_space id

    loop : Result (Option (String × Memory)) × Fabric
    loop = resolve_each key (local_fabric_engines f) none f.bodies

    told :
        (out : Option (String × Memory))
        → loop.0 ≡ ok out
        → Told (λ q. shows f.bodies q key) (local_fabric_engines f) none out
    told out h =
        resolve_each-Told f.bodies key (local_fabric_engines f) none out f.bodies (λ q. refl) h

    found :
        {o : String} {m : Memory}
        → (◌≡◌ {A = Option (String × Memory)} none (some (o, m))) ⊎ (shows f.bodies o key ≡ some m)
        → shows f.bodies o key ≡ some m
    found (inl e) = ground arith
    found (inr e) = e
