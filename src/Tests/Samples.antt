-- ===== src/Tests/Samples.antt =====
-- Libraries, plugins, collectors and a server to run the code on.
use circonus_agent.Prelude.{ℕ, ◌+◌, ◌%◌, ◌^◌, true, false, Option, none, some, List, [], ◌∷◌, ◌++◌}
use circonus_agent.Prelude.Int.{pos}
use circonus_agent.Prelude.Bytes.{Bytes, codes}
use circonus_agent.Prelude.Strconv.{parse_uint}
use circonus_agent.Plugins.Output.{Lib, Metric, Metrics, of_kind, uint64}
use circonus_agent.Plugins.Run.{Execution, Plugin}
use circonus_agent.Plugins.Manager.{Entry, Manager}
use circonus_agent.Plugins.Names.{FileInfo, Files, regular}
use circonus_agent.Builtins.{CollectorOps}
use circonus_agent.Receiver.Samples
use circonus_agent.Server.Collect.{Config, Server, Surroundings, info}
use circonus_agent.Server.Export.{Printer}
use circonus_agent.Server.Handlers.{Request, Encoders}

abbrev same_text : Bytes → Bytes
same_text s = s

-- Whole numbers for floats, and no JSON.
abbrev pub plain_lib : Lib
plain_lib = record {
  Float = ℕ;
  Json = Unit {0};
  to_lower = same_text;
  remove_spaces = same_text;
  trim_space = same_text;
  parse_float = parse_uint 64;
  decode = λ _. none;
}

abbrev pub number : ℕ → Metric ℕ (Unit {0})
number n = of_kind plain_lib (codes "L") (uint64 n)

abbrev pub numbered : Bytes → ℕ → Metrics plain_lib
numbered name n = (name, number n) ∷ []

abbrev pub plugin_with : Bytes → Option (Metrics plain_lib) → Plugin plain_lib
plugin_with id metrics = record {
  id = id;
  instance_id = [];
  base_tags = [];
  last_error = none;
  curr_start = 0;
  last_start = 0;
  last_end = 0;
  metrics = metrics;
  prev_metrics = none;
  last_run_duration = 0;
  run_ttl = 0;
  running = false;
}

abbrev pub entry_of : Bytes → Entry plain_lib
entry_of id = record {
  plugin = plugin_with id none;
  command = codes "/p/" ++ id;
  name = id;
  run_dir = codes "/p";
  instance_args = [];
}

-- An instance of one plugin, and another plugin.
abbrev pub two_plugins : Manager plain_lib
two_plugins = record {
  active = (codes "a`x", entry_of (codes "a")) ∷ (codes "b", entry_of (codes "b")) ∷ [];
  plug_list = [];
  plugin_dir = codes "/p";
}

abbrev pub puts_out : List Bytes → Execution
puts_out ls = record {
  started = 5;
  ended = 9;
  has_pipe = true;
  starts = true;
  lines = ls;
  output_ends = true;
  exits = true;
  scan_fails = false;
  exit_fails = false;
}

abbrev pub one_file : FileInfo
one_file = record { name = codes "b.sh"; is_dir = false; kind = regular; perm = 493 }

-- A directory with a program, and one that is called as an internal server.
abbrev pub plain_files : Files
plain_files = record {
  entries = some (one_file ∷ record one_file { name = codes "write.sh" } ∷ []);
  config_of = λ _. none;
  stat = λ _. some one_file;
  ttl_units = codes "ms|s|m|h";
  parse_duration = λ _. none;
  windows = false;
  base_tags = [];
  to_lower = same_text;
  join_path = λ d n. d ++ (codes "/" ++ n);
}

-- A collector that counts how often it has collected.
abbrev pub counting : CollectorOps plain_lib
counting = record {
  Collector = ℕ;
  World = Unit {0};
  collect = λ _ n. n + 1;
  flush = λ n. (numbered (codes "cpu") n, n);
}

abbrev pub receiver_lib : Samples.Lib
receiver_lib = record {
  Float = ℕ;
  Rest = Unit {0};
  to_lower = same_text;
  remove_spaces = same_text;
  parse_float = parse_uint 64;
  to_int32 = λ x. pos (x % 2 ^ 31);
  to_uint32 = λ x. x % 2 ^ 32;
  to_int64 = λ x. pos (x % 2 ^ 63);
  to_uint64 = λ x. x % 2 ^ 64;
  print = λ _. [];
  dec_strings = λ _. none;
}

abbrev pub plain_printer : Printer plain_lib
plain_printer = record { print_float = λ _. []; print_fixed = λ _. []; print_json = λ _. [] }

abbrev pub plain_config : Config
plain_config = record {
  multi_agent = false;
  disable_gzip = true;
  cluster = false;
  check_target = [];
  base_tags = [];
  version = codes "1";
}

abbrev pub plain_server : Server plain_lib counting ℕ
plain_server = record {
  plugin_manager = two_plugins;
  builtin_manager = record { collectors = (codes "cpu", 0) ∷ []; running = false };
  received = [];
  receiver_base = none;
  last_metrics = none;
  last_time = 0;
  check_meta = none;
  log_level = info;
}

-- What metrics statsd and prometheus have, and the order in which metrics arrive.
abbrev pub surroundings :
    Metrics plain_lib
    → (List (Metrics plain_lib) → List (Metrics plain_lib))
    → Surroundings plain_lib counting ℕ
surroundings others arrange = record {
  executions = λ _. puts_out [];
  worlds = λ _. tt;
  statsd_metrics = some others;
  prom_metrics = numbered (codes "q") 3;
  flush_calls = λ calls. ([], []);
  agent_stats = λ _. [];
  duration = 1;
  now = 2;
  arrival = arrange;
}

abbrev pub plain_encoders : Encoders plain_lib counting receiver_lib plain_printer
plain_encoders = record {
  encode_metrics = λ m. some (codes "{m}");
  encode_inventory = λ _. codes "[]";
  gzip = λ _. none;
  stats = codes "{}";
}

abbrev pub request_of : Bytes → Bytes → Request plain_lib counting receiver_lib plain_printer
request_of method path = record {
  method = method;
  path = path;
  accept_encoding = [];
  query = [];
  metrics = none;
  is_prom = false;
}
