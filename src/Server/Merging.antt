-- ===== src/Server/Merging.antt =====
-- The order in which the sources' metrics arrive.
use circonus_agent.Server.Collect.{
  Conduit, Config, Server, Surroundings, conduit_metrics, conduits_metrics, merge_all, agent_tags,
  with_agent_metrics, finished, asked, get_metrics, builtins, plugins, receiver, statsd, prometheus,
}
use circonus_agent.Prelude.{
  ◌≡◌, refl, sym, ap, ◌∙◌, ◌⊎◌, inl, inr, true, some, List, [], ◌∷◌, ◌++◌, arith, Option-cases,
}
use circonus_agent.Prelude.Int.{pos}
use circonus_agent.Prelude.Bytes.{Bytes, codes}
use circonus_agent.Prelude.Strconv.{lookup, assign, lookup-assign}
use circonus_agent.Prelude.Maps.{
  assign_all, Holds, lookup-assign_all, is_known, assign_all-keeps, assign_all-Holds,
}
use circonus_agent.Plugins.Output.{Lib, Metric, Metrics, of_kind, named, int64, text}
use circonus_agent.Builtins.{CollectorOps}

module _ (lib : Lib) where
  -- Some of the maps has an entry.
  abbrev pub Held : Bytes → Metric lib.Float lib.Json → List (Metrics lib) → Type 0
  Held n v [] = ⊥
  Held n v (m ∷ ms) = Holds n v m ⊎ Held n v ms

module _ (lib : Lib) (ops : CollectorOps lib) (RFloat : Type 0) where
  lookup-merge_all :
      (n : Bytes) (v : Metric lib.Float lib.Json) (ms : List (Metrics lib)) (into : Metrics lib)
      → lookup n (merge_all lib ops RFloat ms into) ≡ some v
      → Held lib n v ms ⊎ (lookup n into ≡ some v)
  unfolding merge_all
  lookup-merge_all n v [] into h = inr h
  lookup-merge_all n v (m ∷ ms) into h = elim (lookup-merge_all n v ms (assign_all m into) h) [
    | inl later ↦ inl (inr later)
    | inr here ↦ elim (lookup-assign_all n v m into here) [
      | inl own ↦ inl (inl own)
      | inr before ↦ inr before
    ]
  ]

  merge_all-keeps :
      (n : Bytes) (ms : List (Metrics lib)) (into : Metrics lib)
      → is_known (lookup n into) ≡ true
      → is_known (lookup n (merge_all lib ops RFloat ms into)) ≡ true
  unfolding merge_all
  merge_all-keeps n [] into h = h
  merge_all-keeps n (m ∷ ms) into h =
      merge_all-keeps n ms (assign_all m into) (assign_all-keeps n m into h)

  merge_all-Held :
      (n : Bytes) (v : Metric lib.Float lib.Json) (ms : List (Metrics lib)) (into : Metrics lib)
      → Held lib n v ms
      → is_known (lookup n (merge_all lib ops RFloat ms into)) ≡ true
  unfolding merge_all
  merge_all-Held n v [] into h = absurd h
  merge_all-Held n v (m ∷ ms) into (inl own) =
      merge_all-keeps n ms (assign_all m into) (assign_all-Holds n v m into own)
  merge_all-Held n v (m ∷ ms) into (inr later) = merge_all-Held n v ms (assign_all m into) later

  merged-Held :
      (n : Bytes) (v : Metric lib.Float lib.Json) (ms : List (Metrics lib))
      → lookup n (merge_all lib ops RFloat ms []) ≡ some v
      → Held lib n v ms
  merged-Held n v ms h = elim (lookup-merge_all n v ms [] h) [
    | inl held ↦ held
    | inr before ↦ absurd (unfold lookup in ground arith)
  ]

  -- One value for a name makes the order of the maps irrelevant to it.
  merge_order :
      (n : Bytes) (ms ns : List (Metrics lib))
      → ((v : Metric lib.Float lib.Json) → Held lib n v ms → Held lib n v ns)
      → ((v : Metric lib.Float lib.Json) → Held lib n v ns → Held lib n v ms)
      → ((v w : Metric lib.Float lib.Json) → Held lib n v ms → Held lib n w ms → v ≡ w)
      → lookup n (merge_all lib ops RFloat ms []) ≡ lookup n (merge_all lib ops RFloat ns [])
  merge_order n ms ns there back one =
      elim (Option-cases (lookup n (merge_all lib ops RFloat ms []))) [
        | inl none_left ↦ elim (Option-cases (lookup n (merge_all lib ops RFloat ns []))) [
          | inl none_right ↦ none_left ∙ sym none_right
          | inr (w, right) ↦
              absurd (ground (arith, merge_all-Held n w ms [] (back w (merged-Held n w ns right))))
        ]
        | inr (v, at_left) ↦ elim (Option-cases (lookup n (merge_all lib ops RFloat ns []))) [
          | inl none_right ↦
              absurd
                (ground (arith, merge_all-Held n v ns [] (there v (merged-Held n v ms at_left))))
          | inr (w, right) ↦
              at_left
              ∙ ap some (one v w (merged-Held n v ms at_left) (back w (merged-Held n w ns right)))
              ∙ sym right
        ]
      ]

  abbrev pub reordered :
      Surroundings lib ops RFloat
      → (List (Metrics lib) → List (Metrics lib))
      → Surroundings lib ops RFloat
  reordered x arrange = record x { arrival = arrange }

  -- The metrics that the conduits which are meant hand on.
  abbrev pub gathered :
      Surroundings lib ops RFloat
      → Bytes
      → List Conduit
      → Server lib ops RFloat
      → List (Metrics lib)
  gathered x id cs s = (conduits_metrics lib ops RFloat x id (asked lib ops RFloat cs) s).0

  conduit_metrics-reordered :
      (x : Surroundings lib ops RFloat) (arrange : List (Metrics lib) → List (Metrics lib))
      (id : Bytes) (c : Conduit) (s : Server lib ops RFloat)
      → conduit_metrics lib ops RFloat (reordered x arrange) id c s
        ≡ conduit_metrics lib ops RFloat x id c s
  unfolding conduit_metrics
  conduit_metrics-reordered x arrange id builtins s = refl
  conduit_metrics-reordered x arrange id plugins s = refl
  conduit_metrics-reordered x arrange id receiver s = refl
  conduit_metrics-reordered x arrange id statsd s = refl
  conduit_metrics-reordered x arrange id prometheus s = refl

  conduits_metrics-reordered :
      (x : Surroundings lib ops RFloat) (arrange : List (Metrics lib) → List (Metrics lib))
      (id : Bytes) (cs : List Conduit) (s : Server lib ops RFloat)
      → conduits_metrics lib ops RFloat (reordered x arrange) id cs s
        ≡ conduits_metrics lib ops RFloat x id cs s
  unfolding conduits_metrics
  conduits_metrics-reordered x arrange id [] s = refl
  conduits_metrics-reordered x arrange id (c ∷ cs) s =
      rw (conduit_metrics-reordered x arrange id c s) (
        rw (conduits_metrics-reordered x arrange id cs (conduit_metrics lib ops RFloat x id c s).1)
          refl)

  lookup-assign_same :
      (n k : Bytes) (v : Metric lib.Float lib.Json) (a b : Metrics lib)
      → lookup n a ≡ lookup n b
      → lookup n (assign k v a) ≡ lookup n (assign k v b)
  lookup-assign_same n k v a b h = rw (lookup-assign k n v a, lookup-assign k n v b, h) refl

  lookup-assign_all_same :
      (n : Bytes) (m a b : Metrics lib)
      → lookup n a ≡ lookup n b
      → lookup n (assign_all m a) ≡ lookup n (assign_all m b)
  unfolding assign_all
  lookup-assign_all_same n [] a b h = h
  lookup-assign_all_same n ((k, v) ∷ m) a b h =
      lookup-assign_all_same n m (assign k v a) (assign k v b) (lookup-assign_same n k v a b h)

  with_agent_metrics_same :
      (cfg : Config) (x : Surroundings lib ops RFloat)
      (arrange : List (Metrics lib) → List (Metrics lib)) (n : Bytes) (a b : Metrics lib)
      → lookup n a ≡ lookup n b
      → lookup n (with_agent_metrics lib ops RFloat cfg x a)
        ≡ lookup n (with_agent_metrics lib ops RFloat cfg (reordered x arrange) b)
  with_agent_metrics_same cfg x arrange n a b h =
      let version : Metric lib.Float lib.Json =
        of_kind lib (codes "s") (text (codes "circonus-agent_" ++ cfg.version)) in
      let version_name : Bytes =
        named lib (codes "agent_version") (agent_tags lib ops RFloat cfg) in
      lookup-assign_all_same n (x.agent_stats (agent_tags lib ops RFloat cfg)) _ _ (
        lookup-assign_same n
          (named lib (codes "agent_collect_duration")
            (agent_tags lib ops RFloat cfg ++ (codes "units:milliseconds" ∷ [])))
          (of_kind lib (codes "L") (int64 (pos x.duration))) (assign version_name version a)
          (assign version_name version b) (lookup-assign_same n version_name version a b h))

  finished_order :
      (cfg : Config) (x : Surroundings lib ops RFloat)
      (arrange : List (Metrics lib) → List (Metrics lib)) (cs : List Conduit) (n : Bytes)
      (f : List (Metrics lib) × Server lib ops RFloat)
      → ((v : Metric lib.Float lib.Json)
          → Held lib n v (x.arrival f.0)
          → Held lib n v (arrange f.0))
      → ((v : Metric lib.Float lib.Json)
          → Held lib n v (arrange f.0)
          → Held lib n v (x.arrival f.0))
      → ((v w : Metric lib.Float lib.Json)
          → Held lib n v (x.arrival f.0)
          → Held lib n w (x.arrival f.0)
          → v ≡ w)
      → (lookup n (finished lib ops RFloat cfg x cs f).0
          ≡ lookup n (finished lib ops RFloat cfg (reordered x arrange) cs f).0)
        × ((finished lib ops RFloat cfg x cs f).1
            ≡ (finished lib ops RFloat cfg (reordered x arrange) cs f).1)
  unfolding finished
  finished_order cfg x arrange [] n f there back one = (
    with_agent_metrics_same cfg x arrange n (merge_all lib ops RFloat (x.arrival f.0) [])
        (merge_all lib ops RFloat (arrange f.0) [])
        (merge_order n (x.arrival f.0) (arrange f.0) there back one),
    refl,
  )
  finished_order cfg x arrange (c ∷ cs) n f there back one =
      (merge_order n (x.arrival f.0) (arrange f.0) there back one, refl)

  -- The order in which the goroutines of the sources hand their metrics on makes no difference to the
  -- metric of a name, if the two orders hand on the same values for it and there is only one value; and
  -- it makes no difference to the server afterwards.
  pub get_metrics_order :
      (cfg : Config) (x : Surroundings lib ops RFloat)
      (arrange : List (Metrics lib) → List (Metrics lib)) (cs : List Conduit) (id n : Bytes)
      (s : Server lib ops RFloat)
      → ((v : Metric lib.Float lib.Json)
          → Held lib n v (x.arrival (gathered x id cs s))
          → Held lib n v (arrange (gathered x id cs s)))
      → ((v : Metric lib.Float lib.Json)
          → Held lib n v (arrange (gathered x id cs s))
          → Held lib n v (x.arrival (gathered x id cs s)))
      → ((v w : Metric lib.Float lib.Json)
          → Held lib n v (x.arrival (gathered x id cs s))
          → Held lib n w (x.arrival (gathered x id cs s))
          → v ≡ w)
      → (lookup n (get_metrics lib ops RFloat cfg x cs id s).0
          ≡ lookup n (get_metrics lib ops RFloat cfg (reordered x arrange) cs id s).0)
        × ((get_metrics lib ops RFloat cfg x cs id s).1
            ≡ (get_metrics lib ops RFloat cfg (reordered x arrange) cs id s).1)
  unfolding get_metrics
  get_metrics_order cfg x arrange cs id n s there back one =
      rw (conduits_metrics-reordered x arrange id (asked lib ops RFloat cs) s) (
        finished_order cfg x arrange cs n
          (conduits_metrics lib ops RFloat x id (asked lib ops RFloat cs) s) there back one)
