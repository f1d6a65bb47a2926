-- ===== src/Tests/StatsdTests.antt =====
-- The statsd listener at concrete inputs.
use circonus_agent.Prelude.{ℕ, ◌≡◌, refl, true, false, none, some, List, [], ◌∷◌, ◌==◌}
use circonus_agent.Prelude.Bytes.{codes, equal, contains, has_byte}
use circonus_agent.Prelude.Strconv.{parse_uint}
use circonus_agent.Prelude.Int.{pos}
use circonus_agent.Tags.Encoding.{has_tag}
use circonus_agent.Statsd.Tagging.{carries, parse_metric-carries}
use circonus_agent.Statsd.Format.{Groups, match_metric}
use circonus_agent.Statsd.Written.{show_metric, match_metric-show_metric}
use circonus_agent.Statsd.Metrics.{
  Lib, Server, statsd_type, parse_metric, count_in_zero, recorded, panics,
}
use circonus_agent.Statsd.Gauges.{survives, parse_metric-survives, parse_metric_gauge_panics}
use circonus_agent.Tags.{Tag, is_valid, from_list}
use circonus_agent.Statsd.Destination.{get_metric_destination, host, group}
use circonus_agent.Statsd.Connections.{Tracked, Event, connects, ends}

to_group :
    get_metric_destination (codes "host.") (codes "group.") (codes "group.x") ≡ (group, codes "x")
unfolding get_metric_destination
to_group = refl

abbrev one_client : Tracked
one_client = (codes "a", tt) ∷ []

abbrev comings : List Event
comings = connects (codes "b") ∷ ends (codes "a") ∷ connects (codes "c") ∷ []

abbrev counter : Groups
counter = record {
  name = codes "a b";
  value = codes "5";
  kind = codes "c";
  sample = codes "0.1";
  tags = codes "x:y";
}

abbrev whole_gauge : Groups
whole_gauge = record counter { kind = codes "g"; sample = [] }

-- Whole numbers for floats.
abbrev whole_lib : Lib
whole_lib = record {
  Float = ℕ;
  parse_float = parse_uint;
  one = 1;
  is_zero = λ x. x == 0;
  scaled_count = λ v rate. pos v;
  inverse = λ rate. pos rate;
}

abbrev host_server : Server
host_server = record {
  host_prefix = [];
  group_prefix = [];
  base_tags = [];
  has_host = true;
  has_group = false;
  histogram_gauges = true;
}

written : show_metric counter ≡ codes "a b:5|c|@0.1|#x:y"
written = refl

two_types : match_metric (codes "a:5|c|g") ≡ none
unfolding match_metric
two_types = refl

counted :
    parse_metric whole_lib host_server (codes "a  b:5|c")
    ≡ recorded host (codes "a_b") (statsd_type (codes "count") ∷ []) (count_in_zero (pos 5) ∷ [])
unfolding parse_metric
counted = refl

match_metric-show_metric_example : match_metric (show_metric counter) ≡ some counter
unfolding has_byte is_valid
match_metric-show_metric_example =
    match_metric-show_metric counter ((refl, refl), (refl, refl), (refl, refl), refl, refl)

parse_metric-survives_example :
    survives whole_lib
      (parse_metric whole_lib (record host_server { histogram_gauges = false }) (codes "a:5|g"))
    ≡ true
parse_metric-survives_example =
    parse_metric-survives whole_lib (record host_server { histogram_gauges = false })
      (codes "a:5|g") refl

parse_metric_gauge_panics_example :
    parse_metric whole_lib host_server (show_metric whole_gauge) ≡ panics
unfolding has_byte is_valid contains parse_uint get_metric_destination
parse_metric_gauge_panics_example =
    parse_metric_gauge_panics whole_lib host_server whole_gauge 5
      ((refl, refl), (refl, refl), (refl, refl), refl, refl) refl refl refl refl refl refl refl

abbrev source_tag : Tag
source_tag = record { category = codes "source"; value = codes "circonus-agent" }

abbrev tagging_server : Server
tagging_server = record host_server { base_tags = codes "source:circonus-agent" ∷ [] }

parse_metric-carries_example :
    carries whole_lib source_tag (parse_metric whole_lib tagging_server (codes "a:5|c")) ≡ true
unfolding has_tag from_list equal
parse_metric-carries_example =
    parse_metric-carries whole_lib source_tag tagging_server (codes "a:5|c") refl
