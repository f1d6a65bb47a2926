-- ===== src/Plugins/Scanning.antt =====
-- internal/plugins/scan.go: the scan of the plugin directory, and the list of plugins.
use circonus_agent.Prelude.{
  ℕ, Bool, false, not, ◌||◌, Option, none, some, List, [], ◌∷◌, ◌++◌, if◌then◌else◌,
}
use circonus_agent.Prelude.Bytes.{Bytes, is_empty}
use circonus_agent.Prelude.Strconv.{lookup, assign}
use circonus_agent.Plugins.Output.{Lib}
use circonus_agent.Plugins.Run.{Execution, Plugin}
use circonus_agent.Plugins.Manager.{name_separator, Entry, Manager, run_entries}
use circonus_agent.Plugins.Names.{
  FileInfo, Files, file_base, run_ttl_of, may_execute, command_of, passed_over, split_path,
}

module _ (lib : Lib) where
  abbrev pub fresh_plugin : Files → Bytes → Bytes → Plugin lib
  fresh_plugin f base instance_name = record {
    id = base;
    instance_id = instance_name;
    base_tags = f.base_tags;
    last_error = none;
    curr_start = 0;
    last_start = 0;
    last_end = 0;
    metrics = none;
    prev_metrics = none;
    last_run_duration = 0;
    run_ttl = run_ttl_of f base;
    running = false;
  }

  abbrev pub fresh_entry : Files → Bytes → Bytes → Bytes → Bytes → List Bytes → Entry lib
  fresh_entry f dir base name instance_name args = record {
    plugin = fresh_plugin f base instance_name;
    command = [];
    name = name;
    run_dir = dir;
    instance_args = args;
  }

  -- `p.active[name]`, made if it is not there, with its command set. Of a plugin that is there already,
  -- only the command changes.
  abbrev pub activate_found :
      Bytes
      → Entry lib
      → Bytes
      → Option (Entry lib)
      → List (Bytes × Entry lib)
      → List (Bytes × Entry lib)
  activate_found name fresh command none active =
      assign name (record fresh { command = command }) active
  activate_found name fresh command (some e) active =
      assign name (record e { command = command }) active

  unfoldable pub activate :
      Bytes → Entry lib → Bytes → List (Bytes × Entry lib) → List (Bytes × Entry lib)
  unfolding lookup assign
  activate name fresh command active = activate_found name fresh command (lookup name active) active

  unfoldable pub activate_instances :
      Files
      → Bytes
      → Bytes
      → Bytes
      → List (Bytes × List Bytes)
      → List (Bytes × Entry lib)
      → List (Bytes × Entry lib)
  unfolding activate
  activate_instances f dir base command [] active = active
  activate_instances f dir base command ((inst, args) ∷ cfg) active =
      activate_instances f dir base command cfg (
        activate (base ++ (name_separator ++ inst))
          (fresh_entry f dir base (base ++ (name_separator ++ inst)) inst args) command active)

  abbrev pub activate_configured :
      Files
      → Bytes
      → Bytes
      → Bytes
      → Option (List (Bytes × List Bytes))
      → List (Bytes × Entry lib)
      → List (Bytes × Entry lib)
  activate_configured f dir base command none active =
      activate base (fresh_entry f dir base base [] []) command active
  activate_configured f dir base command (some cfg) active =
      activate_instances f dir base command cfg active

  abbrev pub activate_command :
      Files
      → Bytes
      → (Bytes → Bool)
      → Bytes
      → ℕ
      → Option Bytes
      → List (Bytes × Entry lib)
      → List (Bytes × Entry lib)
  activate_command f dir is_builtin base perm none active = active
  activate_command f dir is_builtin base perm (some command) active =
      if not (may_execute f perm)
      then active
      else if is_builtin base
      then active
      else activate_configured f dir base command (f.config_of base) active

  unfoldable pub scan_file :
      Files
      → Bytes
      → (Bytes → Bool)
      → FileInfo
      → List (Bytes × Entry lib)
      → List (Bytes × Entry lib)
  unfolding passed_over file_base activate activate_instances run_ttl_of
  scan_file f dir is_builtin fi active =
      if fi.is_dir || passed_over f fi.name
      then active
      else activate_command f dir is_builtin (file_base fi.name) fi.perm
          (command_of (f.join_path dir fi.name) fi.kind) active

  unfoldable pub scan_files :
      Files
      → Bytes
      → (Bytes → Bool)
      → List FileInfo
      → List (Bytes × Entry lib)
      → List (Bytes × Entry lib)
  unfolding scan_file
  scan_files f dir is_builtin [] active = active
  scan_files f dir is_builtin (fi ∷ fis) active =
      scan_files f dir is_builtin fis (scan_file f dir is_builtin fi active)

  abbrev pub verify_command :
      Files → Bytes → Bytes → ℕ → Option Bytes → List (Bytes × Entry lib) → List (Bytes × Entry lib)
  verify_command f dir base perm none active = active
  verify_command f dir base perm (some command) active =
      if not (may_execute f perm)
      then active
      else activate base (fresh_entry f dir base base [] []) command active

  -- A file of the list. A directory is no regular file, and so passed over as well.
  abbrev pub verify_found :
      Files
      → Bytes
      → Bytes
      → Bytes
      → Option FileInfo
      → List (Bytes × Entry lib)
      → List (Bytes × Entry lib)
  verify_found f spec dir name none active = active
  verify_found f spec dir name (some fi) active =
      verify_command f dir (file_base name) fi.perm (command_of spec fi.kind) active

  unfoldable pub verify_files :
      Files → List Bytes → List (Bytes × Entry lib) → List (Bytes × Entry lib)
  unfolding split_path file_base activate run_ttl_of
  verify_files f [] active = active
  verify_files f (spec ∷ specs) active =
      verify_files f specs
        (verify_found f spec (split_path spec).0 (split_path spec).1 (f.stat spec) active)

  pub data Scanned : Type 0 where
    scanned : Manager lib → Scanned
    scan_error : Scanned

  -- The first run does not wait for the plugins; each is run once.
  abbrev pub first_run : Manager lib → (Bytes → Execution) → List (Bytes × Entry lib) → Scanned
  first_run m world active = scanned (record m { active = run_entries lib [] world active })

  abbrev pub scan_entries :
      Files → (Bytes → Bool) → Manager lib → (Bytes → Execution) → Option (List FileInfo) → Scanned
  scan_entries f is_builtin m world none = scan_error
  scan_entries f is_builtin m world (some fis) =
      first_run m world (scan_files f m.plugin_dir is_builtin fis m.active)

  -- `Scan`, with the list of plugins of the configuration.
  unfoldable pub scan_plugins :
      Files → (Bytes → Bool) → List Bytes → Manager lib → (Bytes → Execution) → Scanned
  unfolding scan_files verify_files run_entries
  scan_plugins f is_builtin list m world =
      if is_empty m.plugin_dir
      then first_run m world (verify_files f list m.active)
      else scan_entries f is_builtin m world f.entries
