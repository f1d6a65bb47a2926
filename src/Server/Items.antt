-- ===== src/Server/Items.antt =====
-- internal/server/handlers.go: a request for the metrics of one plugin, from the path to the commands.
use circonus_agent.Prelude.{
  ◌≡◌, refl, ap, ◌∙◌, ◌≢◌, ◌⊎◌, inl, inr, Bool, true, false, not, ◌&&◌, Option, none, some, [], ◌∷◌,
  arith, Bool-cases,
}
use circonus_agent.Prelude.Bytes.{Bytes, codes, is_empty, equal, equal_exact}
use circonus_agent.Prelude.Strconv.{lookup}
use circonus_agent.Prelude.Maps.{map_some, is_known}
use circonus_agent.Plugins.Output.{Lib, named}
use circonus_agent.Plugins.Manager.{Entry, Manager, is_valid_plugin, flush, run}
use circonus_agent.Plugins.Meaning.{Means, Means-cases}
use circonus_agent.Plugins.Selection.{
  ran, left, run_once, taken, lookup-run, ran_meant, ran_other, left_meant, left_other, SomeMeant,
  SomeMeant-any_meant, lookup-flush,
}
use circonus_agent.Builtins.{CollectorOps, is_builtin}
use circonus_agent.Receiver.Samples
use circonus_agent.Server.Paths.{target_of, run_items}
use circonus_agent.Server.Collect.{
  Config, Server, Surroundings, conduit_metrics, conduits_metrics, finished, get_metrics, plugins,
}
use circonus_agent.Server.Export.{Printer}
use circonus_agent.Server.Handlers.{
  Response, run_id, Request, Encoders, known_item, conduits_of, given_out, run_handler, handle,
  router,
}
use circonus_agent.Server.Refusals.{metrics_status}

module _ (lib : Lib) (ops : CollectorOps lib) (rlib : Samples.Lib) (out : Printer lib) where
  -- A plugin before and after its metrics have been asked for by a name: it has been run once and then
  -- drained if it is meant, and is as it was if it is not.
  abbrev pub ServesMeant :
      Bytes
      → Surroundings lib ops rlib.Float
      → Bytes
      → Option (Entry lib)
      → Option (Entry lib)
      → Type 0
  ServesMeant id x j before after =
      (Means id j × (after ≡ map_some (λ e. taken lib (run_once lib x.executions j e)) before))
      ⊎ ((Means id j → ⊥) × (after ≡ before))

  -- What has become of the server's parts, and of each plugin, when the metrics of one have been asked for.
  abbrev pub Served :
      Bytes
      → Bytes
      → Surroundings lib ops rlib.Float
      → Server lib ops rlib.Float
      → Response × Server lib ops rlib.Float
      → Type 0
  Served id j x s r =
      (r.0.status ≡ 200)
      × ServesMeant id x j (lookup j s.plugin_manager.active) (lookup j r.1.plugin_manager.active)
      × (r.1.builtin_manager ≡ s.builtin_manager)
      × (r.1.received ≡ s.received)

  -- The name is none of those under which other sources are asked for.
  abbrev pub IsPluginName : Bytes → Server lib ops rlib.Float → Type 0
  IsPluginName id s =
      (id ≢ codes "prometheus")
      × (id ≢ codes "prom")
      × (id ≢ codes "receiver")
      × (id ≢ codes "write")
      × (id ≢ codes "statsd")
      × (is_builtin lib ops s.builtin_manager id ≡ false)

  -- The plugin of that name, or an instance of it, is known.
  abbrev pub IsKnown : Bytes → Server lib ops rlib.Float → Type 0
  IsKnown id s = (id ≢ []) × SomeMeant lib id s.plugin_manager.active

  ran_and_left :
      (id j : Bytes) (x : Surroundings lib ops rlib.Float) (o : Option (Entry lib))
      → ServesMeant id x j o (map_some (left lib id j) (map_some (ran lib id x.executions j) o))
  ran_and_left id j x o = elim (Means-cases id j) [
    | inl means ↦ inl (means, meant o means)
    | inr other ↦ inr (other, unmeant_same o other)
  ]
    where
      meant :
          (o : Option (Entry lib))
          → Means id j
          → map_some (left lib id j) (map_some (ran lib id x.executions j) o)
            ≡ map_some (λ e. taken lib (run_once lib x.executions j e)) o
      meant none means = refl
      meant (some e) means = ap some (
          ap (left lib id j) (ran_meant lib id j x.executions e means)
          ∙ left_meant lib id j (run_once lib x.executions j e) means)

      unmeant_same :
          (o : Option (Entry lib))
          → (Means id j → ⊥)
          → map_some (left lib id j) (map_some (ran lib id x.executions j) o) ≡ o
      unmeant_same none other = refl
      unmeant_same (some e) other = ap some (
          ap (left lib id j) (ran_other lib id j x.executions e other)
          ∙ left_other lib id j e other)

  ran_and_flushed :
      (id j : Bytes) (x : Surroundings lib ops rlib.Float) (m : Manager lib)
      → ServesMeant id x j
          (lookup j m.active)
          (lookup j (flush lib (run lib m id x.executions).1 id).1.active)
  ran_and_flushed id j x m =
      rw (lookup-flush lib (run lib m id x.executions).1 id j, lookup-run lib m id j x.executions)
        (ran_and_left id j x (lookup j m.active))

  get_metrics-plugins :
      (cfg : Config) (enc : Encoders lib ops rlib out) (x : Surroundings lib ops rlib.Float)
      (accepted id j : Bytes) (s : Server lib ops rlib.Float)
      → Served id j x s (
          given_out lib ops rlib out cfg enc x accepted
            (get_metrics lib ops rlib.Float cfg x (plugins ∷ []) id s))
  unfolding get_metrics finished conduits_metrics conduit_metrics
  get_metrics-plugins cfg enc x accepted id j s = (
    metrics_status lib ops rlib out cfg enc accepted _,
    ran_and_flushed id j x s.plugin_manager,
    refl,
    refl,
  )

  equal_differs : (a b : Bytes) → a ≢ b → equal a b ≡ false
  equal_differs a b n = elim (Bool-cases (equal a b)) [
    | inl same ↦ absurd (n ((equal_exact a b).0 same))
    | inr differs ↦ differs
  ]

  is_empty_differs : (a : Bytes) → a ≢ [] → is_empty a ≡ false
  is_empty_differs [] n = absurd (n refl)
  is_empty_differs (c ∷ a) n = refl

  conduits_of-plugins :
      (s : Server lib ops rlib.Float) (id : Bytes)
      → id ≢ []
      → IsPluginName id s
      → conduits_of lib ops rlib out s id ≡ plugins ∷ []
  unfolding conduits_of is_builtin
  conduits_of-plugins s id given h =
      let no_builtin : is_known (lookup id s.builtin_manager.collectors) ≡ false =
        rw (is_empty_differs id given) at h.5 in
      rw
        (
          is_empty_differs id given,
          equal_differs id (codes "prometheus") h.0,
          equal_differs id (codes "prom") h.1,
          equal_differs id (codes "receiver") h.2,
          equal_differs id (codes "write") h.3,
          equal_differs id (codes "statsd") h.4,
          no_builtin,
        )
        refl

  IsKnown-known_item :
      (s : Server lib ops rlib.Float) (id : Bytes)
      → IsKnown id s
      → known_item lib ops rlib out s id ≡ true
  unfolding is_valid_plugin
  IsKnown-known_item s id (given, some_meant) =
      rw
        (
          is_empty_differs id given,
          SomeMeant-any_meant lib id s.plugin_manager.active given some_meant,
        )
        (ground arith)

  -- Every command that the plugins run ends.
  abbrev pub AllEnd : Surroundings lib ops rlib.Float → Type 0
  AllEnd x = (j : Bytes) → ((x.executions j).output_ends && (x.executions j).exits) ≡ true

  -- A request to run one plugin (the agent is not in multi-agent mode; every command that the plugins run
  -- ends, as the run waits for it; the path names a plugin that is
  -- known, or one of which an instance is; the name is that of no builtin, nor `prometheus`, `prom`,
  -- `receiver`, `write` or `statsd`, which are asked for instead) is answered with 200; the plugins of that name and its instances, and no others, have been run once and then
  -- drained, and the builtins and the metrics received are as they were.
  pub router-runs_item :
      (cfg : Config) (enc : Encoders lib ops rlib out) (x : Surroundings lib ops rlib.Float)
      (r : Request lib ops rlib out) (s : Server lib ops rlib.Float) (j : Bytes)
      → target_of r.method r.path ≡ run_items
      → cfg.multi_agent ≡ false
      → AllEnd x
      → IsKnown (run_id r.path) s
      → IsPluginName (run_id r.path) s
      → Served (run_id r.path) j x s (router lib ops rlib out cfg enc x r s)
  unfolding router handle run_handler
  router-runs_item cfg enc x r s j path single ends known named =
      rw
        (
          path,
          single,
          IsKnown-known_item s (run_id r.path) known,
          conduits_of-plugins s (run_id r.path) known.0 named,
          Bool-and_false (not (is_empty (run_id r.path))),
        )
        (get_metrics-plugins cfg enc x r.accept_encoding (run_id r.path) j s)
    where
      Bool-and_false : (b : Bool) → b && false ≡ false
      Bool-and_false false = refl
      Bool-and_false true = refl
