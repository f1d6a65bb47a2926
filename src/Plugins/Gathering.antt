-- ===== src/Plugins/Gathering.antt =====
-- internal/plugins/plugins.go: which metrics a flush of the plugins gathers.
use circonus_agent.Prelude.{
  ◌≡◌, ◌⊎◌, inl, inr, Bool, true, false, some, List, [], ◌∷◌, arith, Bool-cases, Option-cases,
}
use circonus_agent.Prelude.Bytes.{Bytes}
use circonus_agent.Prelude.Strconv.{lookup}
use circonus_agent.Prelude.Maps.{
  Holds, lookup-assign_all, is_known, assign_all-keeps, assign_all-Holds,
}
use circonus_agent.Plugins.Output.{Lib, Metric, Metrics}
use circonus_agent.Plugins.Run.{drain}
use circonus_agent.Plugins.Manager.{takes_part, Entry, Manager, flushed, flush_entries, flush}

module _ (lib : Lib) where
  -- Some plugin that takes part in a flush has given out a metric with that name and value.
  abbrev pub Given : Bytes → Bytes → Metric lib.Float lib.Json → List (Bytes × Entry lib) → Type 0
  Given name n v [] = ⊥
  Given name n v ((id, e) ∷ es) =
      ((takes_part name id ≡ true) × Holds n v (drain lib e.plugin).0) ⊎ Given name n v es

  flushed_from :
      (name id n : Bytes) (e : Entry lib) (m : Metrics lib) (v : Metric lib.Float lib.Json)
      → lookup n (flushed lib (takes_part name id) e m).0 ≡ some v
      → ((takes_part name id ≡ true) × Holds n v (drain lib e.plugin).0) ⊎ (lookup n m ≡ some v)
  flushed_from name id n e m v h = elim (Bool-cases (takes_part name id)) [
    | inl taking ↦ elim (lookup-assign_all n v (drain lib e.plugin).0 m (rw taking at h)) [
      | inl own ↦ inl (taking, own)
      | inr before ↦ inr before
    ]
    | inr leaving ↦ inr (rw leaving at h)
  ]

  flush_entries_from :
      (name n : Bytes) (es : List (Bytes × Entry lib)) (m : Metrics lib)
      (v : Metric lib.Float lib.Json)
      → lookup n (flush_entries lib name es m).0 ≡ some v
      → Given name n v es ⊎ (lookup n m ≡ some v)
  unfolding flush_entries
  flush_entries_from name n [] m v h = inr h
  flush_entries_from name n ((id, e) ∷ es) m v h = elim (flush_entries_from name n es _ v h) [
    | inl later ↦ inl (inr later)
    | inr here ↦ elim (flushed_from name id n e m v here) [
      | inl own ↦ inl (inl own)
      | inr before ↦ inr before
    ]
  ]

  flushed_keeps :
      (b : Bool) (n : Bytes) (e : Entry lib) (m : Metrics lib)
      → is_known (lookup n m) ≡ true
      → is_known (lookup n (flushed lib b e m).0) ≡ true
  flushed_keeps false n e m h = h
  flushed_keeps true n e m h = assign_all-keeps n (drain lib e.plugin).0 m h

  flush_entries_keeps :
      (name n : Bytes) (es : List (Bytes × Entry lib)) (m : Metrics lib)
      → is_known (lookup n m) ≡ true
      → is_known (lookup n (flush_entries lib name es m).0) ≡ true
  unfolding flush_entries
  flush_entries_keeps name n [] m h = h
  flush_entries_keeps name n ((id, e) ∷ es) m h =
      flush_entries_keeps name n es _ (flushed_keeps (takes_part name id) n e m h)

  flush_entries_gathers :
      (name n : Bytes) (es : List (Bytes × Entry lib)) (m : Metrics lib)
      (v : Metric lib.Float lib.Json)
      → Given name n v es
      → is_known (lookup n (flush_entries lib name es m).0) ≡ true
  unfolding flush_entries
  flush_entries_gathers name n [] m v h = absurd h
  flush_entries_gathers name n ((id, e) ∷ es) m v (inl (taking, own)) =
      flush_entries_keeps name n es _
        (rw taking (assign_all-Holds n v (drain lib e.plugin).0 m own))
  flush_entries_gathers name n ((id, e) ∷ es) m v (inr later) =
      flush_entries_gathers name n es _ v later

  -- A metric that one of the plugins that take part in a flush gives out is among those gathered, with a
  -- value that one of them gives out for its name.
  pub flush_gathers :
      (m : Manager lib) (name n : Bytes) (v : Metric lib.Float lib.Json)
      → Given name n v m.active
      → (w : Metric lib.Float lib.Json) × (lookup n (flush lib m name).0 ≡ some w)
        × Given name n w m.active
  unfolding flush
  flush_gathers m name n v given =
      elim (Option-cases (lookup n (flush_entries lib name m.active []).0)) [
        | inl nothing ↦ absurd (ground (arith, flush_entries_gathers name n m.active [] v given))
        | inr (w, found) ↦ elim (flush_entries_from name n m.active [] w found) [
          | inl from ↦ (w, found, from)
          | inr before ↦ absurd (unfold lookup in ground arith)
        ]
      ]
