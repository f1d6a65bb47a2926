-- ===== src/Builtins.antt =====
-- internal/builtins/builtins.go: the manager of the builtin collectors.
use circonus_agent.Prelude.{Bool, true, false, not, ◌&&◌, ◌||◌, List, [], ◌∷◌, if◌then◌else◌}
use circonus_agent.Prelude.Bytes.{Bytes, is_empty, equal}
use circonus_agent.Prelude.Strconv.{lookup}
use circonus_agent.Prelude.Maps.{assign_all, is_known}
use circonus_agent.Plugins.Output.{Lib, Metrics}

-- The interface `collector.Collector`: the state of a collector, what it meets when it collects (its
-- files, the time, cancellation), and its two operations. An error of `Collect` is only logged.
pub record CollectorOps (lib : Lib) : Type 1 where
  pub Collector : Type 0
  pub World : Type 0
  pub collect : World → Collector → Collector
  pub flush : Collector → Metrics lib × Collector

module _ (lib : Lib) (ops : CollectorOps lib) where
  open ops use {Collector, World, collect, flush}

  pub record Builtins : Type 0 where
    pub collectors : List (Bytes × Collector)
    pub running : Bool

  abbrev pub no_collectors : List (Bytes × Collector) → Bool
  no_collectors [] = true
  no_collectors (c ∷ cs) = false

  -- Which collectors run: all, or the one with the id.
  abbrev pub is_run : Bytes → Bytes → Bool
  is_run id own = is_empty id || equal own id

  -- The goroutines of `Run`; collectors share nothing.
  unfoldable pub collect_all :
      Bytes → (Bytes → World) → List (Bytes × Collector) → List (Bytes × Collector)
  unfolding equal
  collect_all id world [] = []
  collect_all id world ((own, c) ∷ cs) =
      let rest = collect_all id world cs in
      (own, (if is_run id own then collect (world own) c else c)) ∷ rest

  unfoldable pub run_builtins : Builtins → Bytes → (Bytes → World) → Builtins
  unfolding collect_all
  run_builtins b id world =
      if no_collectors b.collectors
      then b
      else if b.running
      then b
      else record b { collectors = collect_all id world b.collectors; running = false }

  unfoldable pub is_builtin : Builtins → Bytes → Bool
  unfolding lookup
  is_builtin b id = not (is_empty id) && is_known (lookup id b.collectors)

  -- The loop of `Flush`, which does not look at its id: the metrics gathered, and the collectors
  -- afterwards.
  unfoldable pub flush_all :
      List (Bytes × Collector) → Metrics lib → Metrics lib × List (Bytes × Collector)
  unfolding assign_all
  flush_all [] metrics = (metrics, [])
  flush_all ((own, c) ∷ cs) metrics =
      let rest = flush_all cs (assign_all (flush c).0 metrics) in
      (rest.0, (own, (flush c).1) ∷ rest.1)

  unfoldable pub flush_builtins : Builtins → Bytes → Metrics lib × Builtins
  unfolding flush_all
  flush_builtins b id = let f = flush_all b.collectors [] in (f.0, record b { collectors = f.1 })
