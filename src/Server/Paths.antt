-- ===== src/Server/Paths.antt =====
-- internal/server/server.go: the paths of the server.
use circonus_agent.Prelude.{
  ℕ, Bool, true, not, ◌&&◌, ◌||◌, [], ◌∷◌, ◌++◌, leb, ◌==◌, if◌then◌else◌, drop,
}
use circonus_agent.Prelude.Bytes.{Bytes, codes, is_empty, equal, has_prefix}

abbrev pub is_name_byte : ℕ → Bool
is_name_byte c =
    (leb b'a' c && leb c b'z')
    || (leb b'A' c && leb c b'Z')
    || (leb b'0' c && leb c b'9')
    || c == b'_'
    || c == b'-'

abbrev pub all_name_bytes : Bytes → Bool
all_name_bytes [] = true
all_name_bytes (c ∷ s) = is_name_byte c && all_name_bytes s

-- `^/(run(/[a-zA-Z0-9_-]*)?)?$`
unfoldable pub is_plugin_path : Bytes → Bool
unfolding equal has_prefix
is_plugin_path p =
    equal p (codes "/")
    || equal p (codes "/run")
    || (has_prefix p (codes "/run/") && all_name_bytes (drop 5 p))

-- `^/write/[a-zA-Z0-9_-]+$`
unfoldable pub is_write_path : Bytes → Bool
unfolding has_prefix
is_write_path p =
    has_prefix p (codes "/write/") && (not (is_empty (drop 7 p)) && all_name_bytes (drop 7 p))

-- `^/name/?$`
unfoldable pub is_path_of : Bytes → Bytes → Bool
unfolding equal
is_path_of name p = equal p name || equal p (name ++ codes "/")

-- What a request asks for, by its method and path.
pub data Target : Type 0 where
  health run_items inventory_list app_stats prom_output options : Target
  write_metrics prom_metrics : Target
  unknown_path wrong_method : Target

abbrev pub get_target : Bytes → Target
get_target p =
    if equal p (codes "/health") || equal p (codes "/health/")
    then health
    else if is_plugin_path p
    then run_items
    else if is_path_of (codes "/inventory") p
    then inventory_list
    else if is_path_of (codes "/stats") p
    then app_stats
    else if is_path_of (codes "/prom") p
    then prom_output
    else if has_prefix p (codes "/options")
    then options
    else unknown_path

abbrev pub put_target : Bytes → Target
put_target p =
    if is_write_path p
    then write_metrics
    else if is_path_of (codes "/prom") p
    then prom_metrics
    else unknown_path

-- The two switches of `router`.
unfoldable pub target_of : Bytes → Bytes → Target
unfolding equal has_prefix is_plugin_path is_write_path is_path_of
target_of method p =
    if equal method (codes "GET")
    then get_target p
    else if equal method (codes "POST") || equal method (codes "PUT")
    then put_target p
    else wrong_method
