-- ===== src/Plugins/Selection.antt =====
-- Which plugins a run and a flush touch.
use circonus_agent.Prelude.{
  ◌≡◌, refl, sym, ap, ◌∙◌, ◌≢◌, ◌⊎◌, inl, inr, Bool, true, false, not, ◌&&◌, Option, none, some,
  List, [], ◌∷◌, arith, if◌then◌else◌, Bool-cases, Option-cases,
}
use circonus_agent.Prelude.Bytes.{Bytes, is_empty, equal, equal_exact, equal_refl}
use circonus_agent.Prelude.Strconv.{lookup}
use circonus_agent.Prelude.Maps.{map_some, is_known}
use circonus_agent.Plugins.Output.{Lib, Metrics}
use circonus_agent.Plugins.Run.{Execution, drain, exec}
use circonus_agent.Plugins.Manager.{
  is_meant, takes_part, RunError, Entry, Manager, any_meant, with_plugin, flushed, flush_entries,
  flush, after_exec, run_entries, no_plugins, run, invalid_plugin,
}
use circonus_agent.Plugins.Meaning.{
  Means, is_meant-Means, Means-is_meant, Means-takes_part, not_Means-takes_part, Means-cases,
}

module _ (lib : Lib) where
  -- A plugin after a run, and after a flush, by the name that these are given.
  abbrev pub ran : Bytes → (Bytes → Execution) → Bytes → Entry lib → Entry lib
  ran name world id e =
      if takes_part name id
      then with_plugin lib e (after_exec lib e.plugin (exec lib e.plugin (world id)))
      else e

  abbrev pub left : Bytes → Bytes → Entry lib → Entry lib
  left name id e = (flushed lib (takes_part name id) e []).1

  -- A plugin that has been run once: what its command then does is handed to one call of `exec`.
  abbrev pub run_once : (Bytes → Execution) → Bytes → Entry lib → Entry lib
  run_once world id e = with_plugin lib e (after_exec lib e.plugin (exec lib e.plugin (world id)))

  -- A plugin whose metrics have been taken.
  abbrev pub taken : Entry lib → Entry lib
  taken e = with_plugin lib e (drain lib e.plugin).1

  lookup-run_entries :
      (name id : Bytes) (world : Bytes → Execution) (es : List (Bytes × Entry lib))
      → lookup id (run_entries lib name world es) ≡ map_some (ran name world id) (lookup id es)
  unfolding run_entries lookup
  lookup-run_entries name id world [] = refl
  lookup-run_entries name id world ((j, e) ∷ es) = elim (Bool-cases (equal j id)) [
    | inl same ↦ rw same (ap some (ap (λ k. ran name world k e) ((equal_exact j id).0 same)))
    | inr differs ↦ rw differs (lookup-run_entries name id world es)
  ]

  unmeant :
      (name id : Bytes) (e : Entry lib) (es : List (Bytes × Entry lib))
      → any_meant lib name es ≡ false
      → lookup id es ≡ some e
      → is_meant name id ≡ false
  unfolding any_meant lookup
  unmeant name id e [] n h = absurd (ground arith)
  unmeant name id e ((j, e') ∷ es) n h = elim (Bool-cases (equal j id)) [
    | inl same ↦ rw (sym ((equal_exact j id).0 same)) (ground arith)
    | inr differs ↦ unmeant name id e es (ground arith) (ground arith)
  ]

  flushed_metrics :
      (b : Bool) (e : Entry lib) (m : Metrics lib) → (flushed lib b e m).1 ≡ (flushed lib b e []).1
  flushed_metrics false e m = refl
  flushed_metrics true e m = refl

  lookup-flush_entries :
      (name id : Bytes) (es : List (Bytes × Entry lib)) (m : Metrics lib)
      → lookup id (flush_entries lib name es m).1 ≡ map_some (left name id) (lookup id es)
  unfolding flush_entries lookup
  lookup-flush_entries name id [] m = refl
  lookup-flush_entries name id ((j, e) ∷ es) m = elim (Bool-cases (equal j id)) [
    | inl same ↦ rw same (
        ap some (
          flushed_metrics (takes_part name j) e m
          ∙ ap (λ k. left name k e) ((equal_exact j id).0 same)))
    | inr differs ↦ rw differs (lookup-flush_entries name id es _)
  ]

  idle :
      (name id : Bytes) (world : Bytes → Execution) (e : Entry lib)
      → is_empty name ≡ false
      → is_meant name id ≡ false
      → ran name world id e ≡ e
  unfolding takes_part
  idle name id world e given n = rw (given, n) refl

  none_active :
      (name id : Bytes) (world : Bytes → Execution) (es : List (Bytes × Entry lib))
      → no_plugins lib es ≡ true
      → lookup id es ≡ map_some (ran name world id) (lookup id es)
  unfolding lookup
  none_active name id world [] h = refl
  none_active name id world (e ∷ es) h = absurd (ground arith)

  nobody_takes_part :
      (name id : Bytes) (world : Bytes → Execution) (es : List (Bytes × Entry lib))
      → is_empty name ≡ false
      → any_meant lib name es ≡ false
      → lookup id es ≡ map_some (ran name world id) (lookup id es)
  nobody_takes_part name id world es given unknown = elim (Option-cases (lookup id es)) [
    | inl absent ↦ rw absent refl
    | inr (e, found) ↦
        rw found (ap some (sym (idle name id world e given (unmeant name id e es unknown found))))
  ]

  pub lookup-run :
      (m : Manager lib) (name id : Bytes) (world : Bytes → Execution)
      → lookup id (run lib m name world).1.active
        ≡ map_some (ran name world id) (lookup id m.active)
  unfolding run
  lookup-run m name id world = elim (Bool-cases (no_plugins lib m.active)) [
    | inl empty ↦ rw empty (none_active name id world m.active empty)
    | inr some_active ↦
        elim (Bool-cases (not (is_empty name) && not (any_meant lib name m.active))) [
          | inl unknown ↦
              rw (some_active, unknown)
                (nobody_takes_part name id world m.active (ground arith) (ground arith))
          | inr known ↦ rw (some_active, known) (lookup-run_entries name id world m.active)
        ]
  ]

  pub ran_meant :
      (name id : Bytes) (world : Bytes → Execution) (e : Entry lib)
      → Means name id
      → ran name world id e ≡ run_once world id e
  ran_meant name id world e means = rw (Means-takes_part name id means) refl

  pub ran_other :
      (name id : Bytes) (world : Bytes → Execution) (e : Entry lib)
      → (Means name id → ⊥)
      → ran name world id e ≡ e
  ran_other name id world e other = rw (not_Means-takes_part name id other) refl

  pub left_meant : (name id : Bytes) (e : Entry lib) → Means name id → left name id e ≡ taken e
  left_meant name id e means = ap (λ b. (flushed lib b e []).1) (Means-takes_part name id means)

  pub left_other : (name id : Bytes) (e : Entry lib) → (Means name id → ⊥) → left name id e ≡ e
  left_other name id e other = ap (λ b. (flushed lib b e []).1) (not_Means-takes_part name id other)

  -- Some plugin that is known is meant.
  abbrev pub SomeMeant : Bytes → List (Bytes × Entry lib) → Type 0
  SomeMeant name es = (j : Bytes) × Means name j × (is_known (lookup j es) ≡ true)

  any_meant-SomeMeant :
      (name : Bytes) (es : List (Bytes × Entry lib))
      → any_meant lib name es ≡ true
      → SomeMeant name es
  unfolding any_meant lookup
  any_meant-SomeMeant name [] h = absurd (ground arith)
  any_meant-SomeMeant name ((j, e) ∷ es) h = elim (Bool-cases (is_meant name j)) [
    | inl meant ↦ (j, is_meant-Means name j meant, rw (equal_refl j) refl)
    | inr other ↦
        let (k, means, known) = any_meant-SomeMeant name es (ground arith) in
        (k, means, later j k e es known)
  ]
    where
      later :
          (j k : Bytes) (e : Entry lib) (es : List (Bytes × Entry lib))
          → is_known (lookup k es) ≡ true
          → is_known (lookup k ((j, e) ∷ es)) ≡ true
      later j k e es h = elim (Bool-cases (equal j k)) [
        | inl same ↦ rw same refl
        | inr differs ↦ rw differs h
      ]

  none_meant :
      (name j : Bytes) (es : List (Bytes × Entry lib))
      → is_empty name ≡ false
      → any_meant lib name es ≡ false
      → Means name j
      → lookup j es ≡ none
  none_meant name j es given unknown means = elim (Option-cases (lookup j es)) [
    | inl absent ↦ absent
    | inr (e, found) ↦
        absurd
          (ground (arith, unmeant name j e es unknown found, Means-is_meant name j given means))
  ]

  pub SomeMeant-any_meant :
      (name : Bytes) (es : List (Bytes × Entry lib))
      → name ≢ []
      → SomeMeant name es
      → any_meant lib name es ≡ true
  SomeMeant-any_meant [] es given h = absurd (given refl)
  SomeMeant-any_meant (c ∷ name) es given (j, means, known) =
      elim (Bool-cases (any_meant lib (c ∷ name) es)) [
        | inl found ↦ found
        | inr unknown ↦ absurd (ground (arith, none_meant (c ∷ name) j es refl unknown means))
      ]

  -- What a run returns: no error where there are no plugins or the name means one of them; the name where
  -- there are plugins and it means none of them.
  abbrev pub Returns : Bytes → List (Bytes × Entry lib) → Option RunError → Type 0
  Returns name es none = (es ≡ []) ⊎ SomeMeant name es
  Returns name es (some (invalid_plugin n)) =
      (n ≡ name) × (es ≢ []) × ((j : Bytes) → Means name j → lookup j es ≡ none)

  all_meant :
      (name : Bytes) (es : List (Bytes × Entry lib))
      → no_plugins lib es ≡ false
      → is_empty name ≡ true
      → SomeMeant name es
  unfolding lookup
  all_meant name [] h e = absurd (ground arith)
  all_meant [] ((j, e) ∷ es) h k = (j, inl refl, rw (equal_refl j) refl)
  all_meant (c ∷ name) ((j, e) ∷ es) h k = absurd (ground arith)

  no_plugins-empty : (es : List (Bytes × Entry lib)) → no_plugins lib es ≡ true → es ≡ []
  no_plugins-empty [] h = refl
  no_plugins-empty (e ∷ es) h = absurd (ground arith)

  run-Returns :
      (m : Manager lib) (name : Bytes) (world : Bytes → Execution)
      → Returns name m.active (run lib m name world).0
  unfolding run
  run-Returns m name world = elim (Bool-cases (no_plugins lib m.active)) [
    | inl empty ↦ rw empty (inl (no_plugins-empty m.active empty))
    | inr some_active ↦ elim (Bool-cases (is_empty name)) [
      | inl all ↦ rw (some_active, all) (inr (all_meant name m.active some_active all))
      | inr given ↦ elim (Bool-cases (any_meant lib name m.active)) [
        | inl known ↦ rw (some_active, given, known) (inr (any_meant-SomeMeant name m.active known))
        | inr unknown ↦
            rw (some_active, given, unknown)
              (
                refl,
                (λ e. absurd (ground arith)),
                (λ j means. none_meant name j m.active given unknown means),
              )
      ]
    ]
  ]

  -- A plugin before and after a run: it has been run once if it is meant, and is as it was if it is not.
  abbrev pub RunsMeant :
      Bytes → (Bytes → Execution) → Bytes → Option (Entry lib) → Option (Entry lib) → Type 0
  RunsMeant name world id before after =
      (Means name id × (after ≡ map_some (run_once world id) before))
      ⊎ ((Means name id → ⊥) × (after ≡ before))

  ran-RunsMeant :
      (name id : Bytes) (world : Bytes → Execution) (o : Option (Entry lib))
      → RunsMeant name world id o (map_some (ran name world id) o)
  ran-RunsMeant name id world o = elim (Means-cases name id) [
    | inl means ↦ inl (means, meant o means)
    | inr other ↦ inr (other, unmeant_same o other)
  ]
    where
      meant :
          (o : Option (Entry lib))
          → Means name id
          → map_some (ran name world id) o ≡ map_some (run_once world id) o
      meant none means = refl
      meant (some e) means = ap some (ran_meant name id world e means)

      unmeant_same :
          (o : Option (Entry lib)) → (Means name id → ⊥) → map_some (ran name world id) o ≡ o
      unmeant_same none other = refl
      unmeant_same (some e) other = ap some (ran_other name id world e other)

  -- A run given a name, which means all plugins if it is empty, and else the plugin of that name and its
  -- instances (the name, a backtick, the instance): it hands each plugin meant to one call of `exec` and
  -- leaves every other as it is; and it fails exactly where there are plugins but none of them is meant,
  -- with the name as an invalid one.
  pub run_exact :
      (m : Manager lib) (name id : Bytes) (world : Bytes → Execution)
      → RunsMeant name world id (lookup id m.active) (lookup id (run lib m name world).1.active)
        × Returns name m.active (run lib m name world).0
  run_exact m name id world = (
    rw (lookup-run m name id world) (ran-RunsMeant name id world (lookup id m.active)),
    run-Returns m name world,
  )

  pub lookup-flush :
      (m : Manager lib) (name id : Bytes)
      → lookup id (flush lib m name).1.active ≡ map_some (left name id) (lookup id m.active)
  unfolding flush
  lookup-flush m name id = lookup-flush_entries name id m.active []
