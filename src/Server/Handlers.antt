-- ===== src/Server/Handlers.antt =====
-- internal/server/handlers.go and routes.go: the answers to requests.
use circonus_agent.Prelude.{
  ℕ, Bool, true, false, not, ◌&&◌, ◌||◌, Option, none, some, List, [], ◌∷◌, ◌++◌, if◌then◌else◌,
  length,
}
use circonus_agent.Prelude.Bytes.{Bytes, codes, is_empty, equal, has_prefix, contains}
use circonus_agent.Plugins.Output.{Lib, Metrics}
use circonus_agent.Plugins.Names.{remove_all_from}
use circonus_agent.Plugins.Manager.{is_internal, is_valid_plugin, PluginInfo, inventory}
use circonus_agent.Builtins.{CollectorOps, is_builtin}
use circonus_agent.Receiver.Samples
use circonus_agent.Receiver.Parse.{JsonMetric, Parsed, parse, recorded, no_metrics, no_json}
use circonus_agent.Server.Paths.{
  is_write_path, Target, target_of, health, run_items, inventory_list, app_stats, prom_output,
  options, write_metrics, prom_metrics, unknown_path, wrong_method,
}
use circonus_agent.Server.Collect.{
  Conduit, Config, LogLevel, CheckMeta, Server, Surroundings, get_metrics, builtins, plugins,
  receiver, statsd, prometheus, debug, info, warn, error,
}
use circonus_agent.Server.Export.{Printer, metric_lines}

-- An answer; the texts of error pages are left out.
pub record Response : Type 0 where
  pub status : ℕ
  pub content_type : Bytes
  pub gzipped : Bool
  pub content_length : Option ℕ
  pub check : Option CheckMeta
  pub body : Bytes

abbrev pub answer : ℕ → Bytes → Response
answer status body = record {
  status = status;
  content_type = [];
  gzipped = false;
  content_length = none;
  check = none;
  body = body;
}

abbrev pub not_found : Response
not_found = answer 404 []

-- The answer to a request for options, while it is written: the first status counts, and a text that is
-- written before any is sent with 200.
pub record Written : Type 0 where
  pub sent : Option ℕ
  pub text : Bytes

abbrev pub or_status : Option ℕ → ℕ → Option ℕ
or_status none status = some status
or_status (some sent) status = some sent

abbrev pub write_header : ℕ → Written → Written
write_header status w = record w { sent = or_status w.sent status }

abbrev pub write_text : Bytes → Written → Written
write_text t w = record { sent = or_status w.sent 200; text = w.text ++ t }

abbrev pub sent_status : Option ℕ → ℕ
sent_status none = 200
sent_status (some status) = status

abbrev pub level_set : LogLevel → Bytes → Written → Written × LogLevel
level_set level name w = (write_text (codes "log level set to " ++ name) w, level)

-- A value of `log_level`, in lower case and as it came.
unfoldable pub set_level : Bytes → Bytes → Written → LogLevel → Written × LogLevel
unfolding equal
set_level lowered name w level =
    if equal lowered (codes "debug")
    then level_set debug (codes "debug") w
    else if equal lowered (codes "info")
    then level_set info (codes "info") w
    else if equal lowered (codes "warn")
    then level_set warn (codes "warn") w
    else if equal lowered (codes "error")
    then level_set error (codes "error") w
    else (write_text (codes "unknown log level " ++ name) (write_header 400 w), level)

abbrev pub first_level : (Bytes → Bytes) → List Bytes → Written → LogLevel → Written × LogLevel
first_level to_lower [] w level = (w, level)
first_level to_lower (v ∷ vs) w level = set_level (to_lower v) v w level

abbrev pub set_option :
    (Bytes → Bytes) → Bytes → List Bytes → Written → LogLevel → Written × LogLevel
set_option to_lower k vs w level =
    if equal (to_lower k) (codes "log_level")
    then first_level to_lower vs w level
    else (write_text (codes "unknown option " ++ k) (write_header 400 w), level)

unfoldable pub set_options :
    (Bytes → Bytes) → List (Bytes × List Bytes) → Written → LogLevel → Written × LogLevel
unfolding equal set_level
set_options to_lower [] w level = (w, level)
set_options to_lower ((k, vs) ∷ query) w level =
    set_options to_lower query (set_option to_lower k vs w level).0
      (set_option to_lower k vs w level).1

-- `strings.Contains(accepted, "*") || strings.Contains(accepted, "gzip")`.
abbrev pub accepts_gzip : Bytes → Bool
accepts_gzip accepted = contains accepted (codes "*") || contains accepted (codes "gzip")

-- The id of `/run/id`, which is empty in the other paths.
unfoldable pub run_id : Bytes → Bytes
unfolding has_prefix remove_all_from
run_id path = if has_prefix path (codes "/run/") then remove_all_from 0 (codes "/run/") path else []

module _ (lib : Lib) (ops : CollectorOps lib) (rlib : Samples.Lib) (out : Printer lib) where
  pub record Request : Type 0 where
    pub method : Bytes
    pub path : Bytes
    pub accept_encoding : Bytes
    pub query : List (Bytes × List Bytes)
    -- What the decoder of JSON makes of the body, and whether it can be parsed as prometheus metrics.
    pub metrics : Option (List (JsonMetric rlib.Float rlib.Rest))
    pub is_prom : Bool

  -- The encoders of the libraries: metrics and the inventory as JSON, compression, the statistics of
  -- `expvar`.
  pub record Encoders : Type 0 where
    pub encode_metrics : Metrics lib → Option Bytes
    pub encode_inventory : List (PluginInfo lib) → Bytes
    pub gzip : Bytes → Option Bytes
    pub stats : Bytes

  abbrev pub or_braces : Option Bytes → Bytes
  or_braces none = codes "{}"
  or_braces (some s) = s

  abbrev pub metrics_answer : Bool → Bytes → Response
  metrics_answer gzipped body = record {
    status = 200;
    content_type = codes "application/json";
    gzipped = gzipped;
    content_length = some (length body);
    check = none;
    body = body;
  }

  abbrev pub compressed : Option Bytes → Response
  compressed none = metrics_answer false (codes "{}")
  compressed (some z) = metrics_answer true z

  unfoldable pub encode_response : Config → Encoders → Bytes → Metrics lib → Response
  unfolding contains
  encode_response cfg enc accepted m =
      if not cfg.disable_gzip && accepts_gzip accepted
      then compressed (enc.gzip (or_braces (enc.encode_metrics m)))
      else metrics_answer false (or_braces (enc.encode_metrics m))

  abbrev pub known_item : Server lib ops rlib.Float → Bytes → Bool
  known_item s id =
      is_internal id
      || is_builtin lib ops s.builtin_manager id
      || is_valid_plugin lib s.plugin_manager id

  unfoldable pub conduits_of : Server lib ops rlib.Float → Bytes → List Conduit
  unfolding equal is_builtin
  conduits_of s id =
      if is_empty id
      then []
      else if equal id (codes "prometheus") || equal id (codes "prom")
      then prometheus ∷ []
      else if equal id (codes "receiver") || equal id (codes "write")
      then receiver ∷ []
      else if equal id (codes "statsd")
      then statsd ∷ []
      else if is_builtin lib ops s.builtin_manager id
      then builtins ∷ []
      else plugins ∷ []

  abbrev pub given_out :
      Config
      → Encoders
      → Surroundings lib ops rlib.Float
      → Bytes
      → Metrics lib × Server lib ops rlib.Float
      → Response × Server lib ops rlib.Float
  given_out cfg enc x accepted (m, s) =
      (encode_response cfg enc accepted m, record s { last_metrics = some m; last_time = x.now })

  -- `run`.
  unfoldable pub run_handler :
      Config
      → Encoders
      → Surroundings lib ops rlib.Float
      → Request
      → Server lib ops rlib.Float
      → Response × Server lib ops rlib.Float
  unfolding encode_response run_id conduits_of get_metrics is_internal is_builtin is_valid_plugin
  run_handler cfg enc x r s =
      if not (is_empty (run_id r.path)) && not (known_item s (run_id r.path))
      then (not_found, s)
      else given_out cfg enc x r.accept_encoding
          (get_metrics lib ops rlib.Float cfg x (conduits_of s (run_id r.path)) (run_id r.path) s)

  abbrev pub no_content : Option CheckMeta → Response
  no_content meta = record (answer 204 []) { check = meta }

  abbrev pub after_write :
      Server lib ops rlib.Float
      → Parsed rlib × Option (List Bytes)
      → Response × Server lib ops rlib.Float
  after_write s (recorded calls, base) =
      (no_content s.check_meta, record s { received = s.received ++ calls; receiver_base = base })
  after_write s (no_metrics, base) = (answer 400 [], record s { receiver_base = base })
  after_write s (no_json, base) = (answer 400 [], record s { receiver_base = base })

  -- `write`. (The metrics library can be set up.)
  unfoldable pub write_handler :
      Config → Request → Server lib ops rlib.Float → Response × Server lib ops rlib.Float
  unfolding remove_all_from parse
  write_handler cfg r s =
      if is_empty (remove_all_from 0 (codes "/write/") r.path)
      then (not_found, s)
      else after_write s (
          parse rlib true cfg.base_tags s.receiver_base (remove_all_from 0 (codes "/write/") r.path)
            r.metrics)

  unfoldable pub prom_receiver : Request → Server lib ops rlib.Float → Response
  prom_receiver r s = if r.is_prom then no_content s.check_meta else answer 400 []

  unfoldable pub all_lines : List Bytes → Bytes
  all_lines [] = []
  all_lines (l ∷ ls) = l ++ all_lines ls

  abbrev pub prom_answer : ℕ → Option (Metrics lib) → Response
  prom_answer now none = answer 204 []
  prom_answer now (some []) = answer 204 []
  prom_answer now (some (m ∷ ms)) =
      record (answer 200 (all_lines (metric_lines lib out now (m ∷ ms)))) {
        content_type = codes "text/plain";
      }

  abbrev pub options_answer :
      Server lib ops rlib.Float → Written × LogLevel → Response × Server lib ops rlib.Float
  options_answer s (w, level) = (answer (sent_status w.sent) w.text, record s { log_level = level })

  -- The handler for what a request asks for.
  unfoldable pub handle :
      Config
      → Encoders
      → Surroundings lib ops rlib.Float
      → Request
      → Server lib ops rlib.Float
      → Target
      → Response × Server lib ops rlib.Float
  unfolding run_handler write_handler prom_receiver metric_lines all_lines inventory set_options
  handle cfg enc x r s health = (answer 200 (codes "Alive\n"), s)
  handle cfg enc x r s run_items =
      if cfg.multi_agent then (answer 403 [], s) else run_handler cfg enc x r s
  handle cfg enc x r s inventory_list = (
    record (answer 200 (enc.encode_inventory (inventory lib s.plugin_manager.active))) {
      content_type = codes "application/json";
    },
    s,
  )
  handle cfg enc x r s app_stats = (answer 200 enc.stats, s)
  handle cfg enc x r s prom_output = (prom_answer s.last_time s.last_metrics, s)
  handle cfg enc x r s options =
      options_answer s
        (set_options lib.to_lower r.query (record { sent = none; text = [] }) s.log_level)
  handle cfg enc x r s write_metrics = write_handler cfg r s
  handle cfg enc x r s prom_metrics = (prom_receiver r s, s)
  handle cfg enc x r s unknown_path = (not_found, s)
  handle cfg enc x r s wrong_method = (answer 405 [], s)

  unfoldable pub router :
      Config
      → Encoders
      → Surroundings lib ops rlib.Float
      → Request
      → Server lib ops rlib.Float
      → Response × Server lib ops rlib.Float
  unfolding handle target_of
  router cfg enc x r s = handle cfg enc x r s (target_of r.method r.path)

  -- The handler of the unix sockets, which take metrics only.
  unfoldable pub socket_handler :
      Config → Request → Server lib ops rlib.Float → Response × Server lib ops rlib.Float
  unfolding is_write_path equal write_handler
  socket_handler cfg r s =
      if not (is_write_path r.path)
      then (not_found, s)
      else if not (equal r.method (codes "PUT")) && not (equal r.method (codes "POST"))
      then (answer 405 [], s)
      else write_handler cfg r s
