-- ===== src/Tests/ServerTests.antt =====
-- The server at concrete requests.
use circonus_agent.Prelude.{
  ℕ, ◌^◌, ◌≡◌, refl, sym, ◌∙◌, ◌≢◌, inl, inr, false, none, List, [], ◌∷◌, ◌++◌, arith,
}
use circonus_agent.Prelude.Bytes.{Bytes, codes, equal, equal_exact}
use circonus_agent.Prelude.Strconv.{lookup}
use circonus_agent.Plugins.Output.{Metric, Metrics}
use circonus_agent.Builtins.{is_builtin}
use circonus_agent.Server.Paths.{target_of}
use circonus_agent.Server.Collect.{
  Conduit, Server, Surroundings, conduits_metrics, get_metrics, statsd, prometheus,
}
use circonus_agent.Server.Export.{metric_line, metric_line_unsigned}
use circonus_agent.Server.Handlers.{Response, run_id, router}
use circonus_agent.Server.Refusals.{router_refuses}
use circonus_agent.Server.Merging.{Held, reordered, get_metrics_order}
use circonus_agent.Server.Items.{Served, router-runs_item}
use circonus_agent.Tests.Samples.{
  plain_lib, number, numbered, counting, receiver_lib, plain_printer, plain_config, plain_server,
  surroundings, plain_encoders, request_of,
}

abbrev in_order : List (Metrics plain_lib) → List (Metrics plain_lib)
in_order ms = ms

abbrev from_statsd : Surroundings plain_lib counting ℕ
from_statsd = surroundings (numbered (codes "s") 1) in_order

abbrev answered : Bytes → Bytes → Response × Server plain_lib counting ℕ
answered method path =
    router plain_lib counting receiver_lib plain_printer plain_config plain_encoders from_statsd
      (request_of method path) plain_server

health_path : (answered (codes "GET") (codes "/health")).0.body ≡ codes "Alive\n"
unfolding router
health_path = refl

unknown_item : (answered (codes "GET") (codes "/run/c")).0.status ≡ 404
unfolding router
unknown_item = refl

router_refuses_example : (answered (codes "DELETE") (codes "/")).1 ≡ plain_server
unfolding router
router_refuses_example =
    router_refuses plain_lib counting receiver_lib plain_printer plain_config plain_encoders
      from_statsd (request_of (codes "DELETE") (codes "/")) plain_server (omega arith)

texts_differ : (a b : Bytes) → equal a b ≡ false → a ≢ b
texts_differ a b h e = absurd (ground (arith, (equal_exact a b).1 e))

router-runs_item_example :
    Served plain_lib counting receiver_lib plain_printer
      (codes "a")
      (codes "a`x")
      from_statsd
      plain_server
      (answered (codes "GET") (codes "/run/a"))
unfolding target_of run_id equal lookup is_builtin
router-runs_item_example =
    router-runs_item plain_lib counting receiver_lib plain_printer plain_config plain_encoders
      from_statsd (request_of (codes "GET") (codes "/run/a")) plain_server (codes "a`x") refl refl
      (λ k. refl)
      (texts_differ (codes "a") [] refl, (codes "a`x", inr (inr (codes "x", refl)), refl))
      (
        texts_differ (codes "a") (codes "prometheus") refl,
        texts_differ (codes "a") (codes "prom") refl,
        texts_differ (codes "a") (codes "receiver") refl,
        texts_differ (codes "a") (codes "write") refl,
        texts_differ (codes "a") (codes "statsd") refl,
        refl,
      )

metric_line_unsigned_example :
    metric_line plain_lib plain_printer (codes "n") 5 (number (2 ^ 63)) ≡ none
metric_line_unsigned_example =
    metric_line_unsigned plain_lib plain_printer (codes "n") 5 (2 ^ 63) (omega arith)

abbrev turned : List (Metrics plain_lib) → List (Metrics plain_lib)
turned [] = []
turned (m ∷ ms) = turned ms ++ (m ∷ [])

abbrev both_sources : List Conduit
both_sources = statsd ∷ prometheus ∷ []

abbrev first_order : List (Metrics plain_lib)
first_order = numbered (codes "s") 1 ∷ numbered (codes "q") 3 ∷ []

names_differ : codes "q" ≡ codes "s" → ⊥
names_differ e = absurd (ground (arith, (equal_exact (codes "q") (codes "s")).1 e))

turned_forth :
    (v : Metric ℕ (Unit {0}))
    → Held plain_lib (codes "s") v first_order
    → Held plain_lib (codes "s") v (turned first_order)
turned_forth v (inl own) = inr (inl own)
turned_forth v (inr (inl other)) = inl other
turned_forth v (inr (inr never)) = absurd never

turned_back :
    (v : Metric ℕ (Unit {0}))
    → Held plain_lib (codes "s") v (turned first_order)
    → Held plain_lib (codes "s") v first_order
turned_back v (inl other) = inr (inl other)
turned_back v (inr (inl own)) = inl own
turned_back v (inr (inr never)) = absurd never

only_one : (v : Metric ℕ (Unit {0})) → Held plain_lib (codes "s") v first_order → number 1 ≡ v
only_one v (inl (inl (_, e))) = e
only_one v (inl (inr never)) = absurd never
only_one v (inr (inl (inl (p, _)))) = absurd (names_differ p)
only_one v (inr (inl (inr never))) = absurd never
only_one v (inr (inr never)) = absurd never

get_metrics_order_example :
    (lookup
        (codes "s")
        (get_metrics plain_lib counting ℕ plain_config from_statsd both_sources [] plain_server).0
      ≡ lookup
          (codes "s")
          (get_metrics plain_lib counting ℕ plain_config
            (reordered plain_lib counting ℕ from_statsd turned)
            both_sources
            []
            plain_server).0)
    × ((get_metrics plain_lib counting ℕ plain_config from_statsd both_sources [] plain_server).1
        ≡ (get_metrics plain_lib counting ℕ plain_config
            (reordered plain_lib counting ℕ from_statsd turned)
            both_sources
            []
            plain_server).1)
unfolding conduits_metrics
get_metrics_order_example =
    get_metrics_order plain_lib counting ℕ plain_config from_statsd turned both_sources []
      (codes "s") plain_server (λ v h. turned_forth v h) (λ v h. turned_back v h)
      (λ v w h k. sym (only_one v h) ∙ only_one w k)
