-- ===== src/Server/Collect.antt =====
-- internal/server/handlers.go: how the metrics of all sources are collected.
use circonus_agent.Prelude.{
  ℕ, Bool, not, ◌&&◌, Option, none, some, List, [], ◌∷◌, ◌++◌, if◌then◌else◌,
}
use circonus_agent.Prelude.Int.{pos}
use circonus_agent.Prelude.Bytes.{Bytes, codes, is_empty}
use circonus_agent.Prelude.Strconv.{assign}
use circonus_agent.Prelude.Maps.{assign_all}
use circonus_agent.Plugins.Output.{Lib, Metrics, of_kind, named, int64, text}
use circonus_agent.Plugins.Run.{Execution}
use circonus_agent.Plugins.Manager.{Manager, flush, run}
use circonus_agent.Builtins.{CollectorOps, Builtins, run_builtins, flush_builtins}
use circonus_agent.Receiver.Parse.{Call}

-- The sources of metrics.
pub data Conduit : Type 0 where
  builtins plugins receiver statsd prometheus : Conduit

abbrev pub all_conduits : List Conduit
all_conduits = builtins ∷ plugins ∷ receiver ∷ statsd ∷ prometheus ∷ []

-- The configuration that the handlers read.
pub record Config : Type 0 where
  pub multi_agent : Bool
  pub disable_gzip : Bool
  pub cluster : Bool
  pub check_target : Bytes
  pub base_tags : List Bytes
  pub version : Bytes

-- The level of the log.
pub data LogLevel : Type 0 where
  debug info warn error : LogLevel

-- The texts of a check's ids.
pub record CheckMeta : Type 0 where
  pub bundle_id : Bytes
  pub check_id : Bytes

module _ (lib : Lib) (ops : CollectorOps lib) (RFloat : Type 0) where
  open ops use {World}

  -- The server's parts: the plugins, the builtins, what has been recorded by the write receiver with
  -- its base tags, the metrics last given out (with the time in milliseconds), the check, and the level of
  -- the log.
  pub record Server : Type 0 where
    pub plugin_manager : Manager lib
    pub builtin_manager : Builtins lib ops
    pub received : List (Call RFloat)
    pub receiver_base : Option (List Bytes)
    pub last_metrics : Option (Metrics lib)
    pub last_time : ℕ
    pub check_meta : Option CheckMeta
    pub log_level : LogLevel

  -- What one request meets: what commands and collectors do, what the libraries have gathered for statsd
  -- (if that is on) and prometheus, what the library makes of the calls that it got, the statistics of
  -- the agent itself for given tags, the duration and the time in milliseconds, and the order in which
  -- the goroutines hand their metrics on.
  pub record Surroundings : Type 0 where
    pub executions : Bytes → Execution
    pub worlds : Bytes → World
    pub statsd_metrics : Option (Metrics lib)
    pub prom_metrics : Metrics lib
    pub flush_calls : List (Call RFloat) → Metrics lib × List (Call RFloat)
    pub agent_stats : List Bytes → Metrics lib
    pub duration : ℕ
    pub now : ℕ
    pub arrival : List (Metrics lib) → List (Metrics lib)

  abbrev pub or_none : Option (Metrics lib) → Metrics lib
  or_none none = []
  or_none (some m) = m

  -- The goroutine of a conduit: its metrics, and the parts afterwards.
  unfoldable pub conduit_metrics : Surroundings → Bytes → Conduit → Server → Metrics lib × Server
  unfolding run_builtins flush_builtins run flush
  conduit_metrics x id builtins s =
      let f = flush_builtins lib ops (run_builtins lib ops s.builtin_manager id x.worlds) id in
      (f.0, record s { builtin_manager = f.1 })
  conduit_metrics x id plugins s =
      let f = flush lib (run lib s.plugin_manager id x.executions).1 id in
      (f.0, record s { plugin_manager = f.1 })
  conduit_metrics x id receiver s =
      let f = x.flush_calls s.received in (f.0, record s { received = f.1 })
  conduit_metrics x id statsd s = (or_none x.statsd_metrics, s)
  conduit_metrics x id prometheus s = (x.prom_metrics, s)

  -- Conduits without metrics hand nothing on.
  abbrev pub handed_on : Metrics lib → List (Metrics lib) → List (Metrics lib)
  handed_on [] rest = rest
  handed_on (m ∷ ms) rest = (m ∷ ms) ∷ rest

  unfoldable pub conduits_metrics :
      Surroundings → Bytes → List Conduit → Server → List (Metrics lib) × Server
  unfolding conduit_metrics
  conduits_metrics x id [] s = ([], s)
  conduits_metrics x id (c ∷ cs) s =
      let own = conduit_metrics x id c s in
      let rest = conduits_metrics x id cs own.1 in (handed_on own.0 rest.0, rest.1)

  -- The loop over the channel.
  unfoldable pub merge_all : List (Metrics lib) → Metrics lib → Metrics lib
  unfolding assign_all
  merge_all [] metrics = metrics
  merge_all (m ∷ ms) metrics = merge_all ms (assign_all m metrics)

  abbrev pub agent_tags : Config → List Bytes
  agent_tags cfg =
      cfg.base_tags
      ++ (codes "collector:agent"
          ∷ codes "__rollup:false"
          ∷ (if cfg.cluster && not (is_empty cfg.check_target)
              then (codes "node:" ++ cfg.check_target) ∷ []
              else []))

  abbrev pub with_agent_metrics : Config → Surroundings → Metrics lib → Metrics lib
  with_agent_metrics cfg x metrics = assign_all (x.agent_stats (agent_tags cfg)) (
      assign
        (named lib (codes "agent_collect_duration")
          (agent_tags cfg ++ (codes "units:milliseconds" ∷ [])))
        (of_kind lib (codes "L") (int64 (pos x.duration)))
        (assign (named lib (codes "agent_version") (agent_tags cfg))
          (of_kind lib (codes "s") (text (codes "circonus-agent_" ++ cfg.version))) metrics))

  -- The loop over the channel, and the agent's own metrics where no conduits are named.
  unfoldable pub finished :
      Config → Surroundings → List Conduit → List (Metrics lib) × Server → Metrics lib × Server
  unfolding merge_all assign_all assign
  finished cfg x [] f = (with_agent_metrics cfg x (merge_all (x.arrival f.0) []), f.1)
  finished cfg x (c ∷ cs) f = (merge_all (x.arrival f.0) [], f.1)

  abbrev pub asked : List Conduit → List Conduit
  asked [] = all_conduits
  asked (c ∷ cs) = c ∷ cs

  -- `GetMetrics`; no conduits stand for all.
  unfoldable pub get_metrics :
      Config → Surroundings → List Conduit → Bytes → Server → Metrics lib × Server
  unfolding finished conduits_metrics
  get_metrics cfg x cs id s = finished cfg x cs (conduits_metrics x id (asked cs) s)
