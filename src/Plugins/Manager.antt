-- ===== src/Plugins/Manager.antt =====
-- internal/plugins/plugins.go: the manager of the plugins.
use circonus_agent.Prelude.{
  ℕ, Bool, true, false, not, ◌&&◌, ◌||◌, Option, none, some, List, [], ◌∷◌, ◌++◌, if◌then◌else◌,
}
use circonus_agent.Prelude.Bytes.{Bytes, codes, is_empty, equal, has_prefix}
use circonus_agent.Prelude.Maps.{assign_all}
use circonus_agent.Plugins.Output.{Lib, Metrics}
use circonus_agent.Plugins.Run.{
  ExecError, Execution, Plugin, drain, Executed, exec, executed, goes_on, exec_panics,
}

abbrev pub name_separator : Bytes
name_separator = codes "`"

-- The names of the internal servers.
abbrev pub reserved_names : List Bytes
reserved_names = codes "prom" ∷ codes "write" ∷ codes "statsd" ∷ []

abbrev pub is_one_of : Bytes → List Bytes → Bool
is_one_of name [] = false
is_one_of name (k ∷ ks) = equal k name || is_one_of name ks

unfoldable pub is_internal : Bytes → Bool
unfolding equal
is_internal name = not (is_empty name) && is_one_of name reserved_names

-- Whether a plugin, or an instance of it, is meant by a name.
unfoldable pub is_meant : Bytes → Bytes → Bool
unfolding equal has_prefix
is_meant name id = equal id name || has_prefix id (name ++ name_separator)

-- Whether a plugin takes part in a flush or a run: all do where no name is given.
unfoldable pub takes_part : Bytes → Bytes → Bool
unfolding is_meant
takes_part name id = is_empty name || is_meant name id

-- What `os.Stat` and `os.Open` say of the plugin directory.
pub data DirStatus : Type 0 where
  usable missing stat_failed not_directory not_readable : DirStatus

pub data RunError : Type 0 where
  invalid_plugin : Bytes → RunError

module _ (lib : Lib) where
  -- A plugin that is known to the manager: its state, and what starts its command.
  pub record Entry : Type 0 where
    pub plugin : Plugin lib
    pub command : Bytes
    pub name : Bytes
    pub run_dir : Bytes
    pub instance_args : List Bytes

  -- `active` is a map, in the order in which a loop over it goes.
  pub record Manager : Type 0 where
    pub active : List (Bytes × Entry)
    pub plug_list : List Bytes
    pub plugin_dir : Bytes

  pub data Created : Type 0 where
    created : Manager → Created
    dir_and_list invalid_dir : Created

  abbrev pub manager_in : Bytes → Created
  manager_in dir = created (record { active = []; plug_list = []; plugin_dir = dir })

  abbrev pub in_directory : Bytes → DirStatus → Created
  in_directory dir usable = manager_in dir
  in_directory dir missing = manager_in []
  in_directory dir stat_failed = invalid_dir
  in_directory dir not_directory = invalid_dir
  in_directory dir not_readable = invalid_dir

  abbrev pub in_absolute : (Bytes → DirStatus) → Option Bytes → Created
  in_absolute status none = invalid_dir
  in_absolute status (some dir) = in_directory dir (status dir)

  abbrev pub with_directory :
      (Bytes → Option Bytes) → (Bytes → DirStatus) → Bytes → List Bytes → Created
  with_directory absolute status [] list = manager_in []
  with_directory absolute status (c ∷ dir) [] = in_absolute status (absolute (c ∷ dir))
  with_directory absolute status (c ∷ dir) (l ∷ list) = dir_and_list

  -- `New`, over `filepath.Abs`, the state of directories, the default path and the two options.
  unfoldable pub create_plugins :
      (Bytes → Option Bytes) → (Bytes → DirStatus) → Bytes → Bytes → List Bytes → Created
  create_plugins absolute status default_dir [] [] = with_directory absolute status default_dir []
  create_plugins absolute status default_dir dir list = with_directory absolute status dir list

  -- `IsValid`.
  unfoldable pub any_meant : Bytes → List (Bytes × Entry) → Bool
  unfolding is_meant
  any_meant name [] = false
  any_meant name ((id, e) ∷ es) = is_meant name id || any_meant name es

  unfoldable pub is_valid_plugin : Manager → Bytes → Bool
  unfolding any_meant
  is_valid_plugin m name = not (is_empty name) && any_meant name m.active

  abbrev pub with_plugin : Entry → Plugin lib → Entry
  with_plugin e p = record e { plugin = p }

  abbrev pub flushed : Bool → Entry → Metrics lib → Metrics lib × Entry
  flushed false e metrics = (metrics, e)
  flushed true e metrics =
      (assign_all (drain lib e.plugin).0 metrics, with_plugin e (drain lib e.plugin).1)

  -- The loop of `Flush`: the metrics gathered, and the plugins afterwards.
  unfoldable pub flush_entries :
      Bytes → List (Bytes × Entry) → Metrics lib → Metrics lib × List (Bytes × Entry)
  unfolding takes_part drain assign_all
  flush_entries name [] metrics = (metrics, [])
  flush_entries name ((id, e) ∷ es) metrics =
      let own = flushed (takes_part name id) e metrics in
      let rest = flush_entries name es own.0 in (rest.0, (id, own.1) ∷ rest.1)

  unfoldable pub flush : Manager → Bytes → Metrics lib × Manager
  unfolding flush_entries
  flush m name = let f = flush_entries name m.active [] in (f.0, record m { active = f.1 })

  -- What a run of a plugin leaves, or what there is of the plugin while its command goes on. (Its panic is
  -- out of the question by `exec-IsExclusive`.)
  abbrev pub after_exec : Plugin lib → Executed lib → Plugin lib
  after_exec p (executed q e) = q
  after_exec p (goes_on q) = q
  after_exec p exec_panics = p

  -- The goroutines of a run: each plugin that takes part is run once, with what its command does then.
  -- They share nothing, so any order of them gives the same. Where every command ends, the plugins are those
  -- at the end of the run; where one goes on, the run waits for it, and they are those meanwhile.
  unfoldable pub run_entries :
      Bytes → (Bytes → Execution) → List (Bytes × Entry) → List (Bytes × Entry)
  unfolding takes_part exec
  run_entries name world [] = []
  run_entries name world ((id, e) ∷ es) =
      let rest = run_entries name world es in
      (
        id,
        (if takes_part name id
            then with_plugin e (after_exec e.plugin (exec lib e.plugin (world id)))
            else e),
      )
      ∷ rest

  abbrev pub ids_of : List (Bytes × Entry) → List Bytes
  ids_of [] = []
  ids_of ((id, e) ∷ es) = id ∷ ids_of es

  abbrev pub listed_plugins : Manager → Manager
  listed_plugins m = record m {
    plug_list = elim m.plug_list [ [] ↦ ids_of m.active | l ∷ ls ↦ l ∷ ls ];
  }

  abbrev pub no_plugins : List (Bytes × Entry) → Bool
  no_plugins [] = true
  no_plugins (e ∷ es) = false

  unfoldable pub run : Manager → Bytes → (Bytes → Execution) → Option RunError × Manager
  unfolding any_meant run_entries
  run m name world =
      if no_plugins m.active
      then (none, m)
      else if not (is_empty name) && not (any_meant name m.active)
      then (some (invalid_plugin name), listed_plugins m)
      else (none, record (listed_plugins m) { active = run_entries name world m.active })

  -- What `Inventory` says of a plugin, without the format of times.
  pub record PluginInfo : Type 0 where
    pub id : Bytes
    pub name : Bytes
    pub instance_name : Bytes
    pub command : Bytes
    pub args : List Bytes
    pub last_run_start : ℕ
    pub last_run_end : ℕ
    pub last_run_duration : ℕ
    pub last_error : Option ExecError

  unfoldable pub inventory : List (Bytes × Entry) → List PluginInfo
  inventory [] = []
  inventory ((id, e) ∷ es) =
      record {
        id = id;
        name = e.plugin.id;
        instance_name = e.plugin.instance_id;
        command = e.command;
        args = e.instance_args;
        last_run_start = e.plugin.last_start;
        last_run_end = e.plugin.last_end;
        last_run_duration = e.plugin.last_run_duration;
        last_error = e.plugin.last_error;
      }
      ∷ inventory es
