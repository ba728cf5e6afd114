-- ===== src/Structures/Import.antt =====
-- Kernel/src/structure_runtime.go: an import only ever advances the revision of a record.
use mathlib.Core.Bool.{false≢true}
use memory_ai.Prelude.{
  String, ◌≡◌, ◌≢◌, ◌⊎◌, refl, sym, ap, ◌∙◌, Bool, true, false, some, ◌==◌, eq_iff, arith, leb, ltb,
  Bool-cases, Result-cases, inl, inr, Result, ok, err, eof, unavailable, side_effect, failure,
}
use memory_ai.Prelude.Text.{trim_space}
use memory_ai.Model.{Memory}
use memory_ai.Security.{validate_memory_capabilities}
use memory_ai.Fabric.{LocalFabric, Limits, resolve_local_fabric_memory}
use memory_ai.Fabric.Resolve.{shows, resolve_local_fabric_memory_unique}
use memory_ai.Structures.{
  Json, memory_json_digest, import_against, import_parsed, import_memory_json,
}

-- Two texts that the test tells apart.
apart : {s t : String} → (s == t) ≡ false → s ≢ t
apart {s} {t} h e = false≢true (sym h ∙ (eq_iff s t).1 e)

module _ (json : Json) (limits : Limits) where
  import_against-advances :
      (m : Memory) (r : Result (String × Memory)) (f : LocalFabric)
      → (import_against json limits m r f).0.status ≡ "imported"
      → ((o : String) (current : Memory)
          → r ≡ ok (o, current)
          → ltb current.revision m.revision ≡ true)
        × ((r ≡ err eof) ⊎ ((o : String) × (current : Memory) × (r ≡ ok (o, current))))
  unfolding import_against
  import_against-advances m (ok (o, current)) f h =
      elim (Bool-cases
        (memory_json_digest json limits current == memory_json_digest json limits m)) [
          | inl same ↦ absurd (apart {s = "unchanged"} {t = "imported"} refl (ground arith))
          | inr other ↦ elim (Bool-cases (leb m.revision current.revision)) [
            | inl old ↦ absurd (apart {s = "stale"} {t = "imported"} refl (ground arith))
            | inr new ↦ (λ p c e. ground arith, inr (o, current, refl))
          ]
        ]
  import_against-advances m (err eof) f h = (λ o c e. ground arith, inl refl)
  import_against-advances m (err unavailable) f h =
      absurd (apart {s = "error"} {t = "imported"} refl h)
  import_against-advances m (err (side_effect _)) f h =
      absurd (apart {s = "error"} {t = "imported"} refl h)
  import_against-advances m (err (failure _)) f h =
      absurd (apart {s = "error"} {t = "imported"} refl h)

  import_parsed-advances :
      (m : Memory) (f : LocalFabric)
      → trim_space m.id ≡ m.id
      → (import_parsed json limits m f).0.status ≡ "imported"
      → (o : String) (old : Memory) → shows f.bodies o m.id ≡ some old
      → ltb old.revision m.revision ≡ true
  unfolding import_parsed
  import_parsed-advances m f trimmed h o old shown =
      let r = resolve_local_fabric_memory m.id f in
      let (found, absent, _) = resolve_local_fabric_memory_unique m.id f in
      elim (Bool-cases (m.id == "")) [
        | inl blank ↦ absurd (apart {s = "invalid"} {t = "imported"} refl (ground arith))
        | inr some_id ↦ elim (Result-cases (validate_memory_capabilities json.verify m false)) [
          | inr (x, denied) ↦ absurd (apart {s = "denied"} {t = "imported"} refl (ground arith))
          | inl (u, valid) ↦
              let (newer, answer) = import_against-advances m r.0 r.1 (ground arith) in
              elim answer [
                | inl missing ↦ elim (absent missing) [
                  | inl blank ↦ absurd (apart some_id (sym trimmed ∙ blank))
                  | inr none_shows ↦ ground (arith, none_shows o, trimmed)
                ]
                | inr (p, current, at) ↦
                    let (here, away) = found p current at in
                    elim (Bool-cases (o == p)) [
                      | inl same ↦ ground (arith, newer p current at, eq_iff o p, here, trimmed)
                      | inr other ↦ ground (arith, away o (apart other), trimmed)
                    ]
              ]
        ]
      ]

  -- An import that reports "imported" is a local one, and wherever the Fabric held a record of that
  -- id, the imported one has a higher revision. The id has no blanks around it.
  pub import_memory_json-advances :
      (raw : String) (remote : Bool) (f : LocalFabric) (m : Memory)
      → json.unmarshal raw ≡ some m
      → trim_space m.id ≡ m.id
      → (import_memory_json json limits raw remote f).0.status ≡ "imported"
      → (remote ≡ false)
        × ((o : String) (old : Memory)
            → shows f.bodies o m.id ≡ some old
            → ltb old.revision m.revision ≡ true)
  unfolding import_memory_json
  import_memory_json-advances raw remote f m parsed trimmed h = elim (Bool-cases remote) [
    | inl away ↦ absurd (apart {s = "denied"} {t = "imported"} refl (ground arith))
    | inr here ↦ elim (Bool-cases (ltb limits.record_max_bytes (json.byte_length raw))) [
      | inl large ↦ absurd (apart {s = "invalid"} {t = "imported"} refl (ground arith))
      | inr fits ↦ (
        here,
        λ o old shown.
            let q = record m { id = trim_space m.id } in
            import_parsed-advances q f (ap trim_space trimmed) (ground arith) o old
              (ap (shows f.bodies o) trimmed ∙ shown),
      )
    ]
  ]
