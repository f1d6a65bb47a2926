-- ===== src/Procfs/Causes.antt =====
-- internal/builtins/collector/linux/procfs: what a collection leaves, and what it returns for which cause.
use circonus_agent.Prelude.{ℕ, ◌-◌, ◌<◌, ◌≡◌, ◌⊎◌, true, false, Option, none, some, List, []}
use circonus_agent.Prelude.Bytes.{Bytes}
use circonus_agent.Plugins.Output.{Lib}
use circonus_agent.Procfs.Common.{
  CollectError, Common, ttl_not_expired, already_running, read_error, cancelled, parse_error,
}
use circonus_agent.Procfs.Load.{FileWorld}
use circonus_agent.Procfs.Reading.{IsDone, HasBadNumber}

module _ (lib : Lib) where
  -- A collection that has ended at a time: the collector is free again.
  abbrev pub Ended : ℕ → Option CollectError → Common lib → Type 0
  Ended now e c = (c.running ≡ false) × (c.last_end ≡ now) × (c.last_error ≡ e)

  -- What is left of the collector that was begun, by the error returned: a cancelled collection of the
  -- load ends without its status set, and one whose numbers cannot be read is recorded as a success.
  abbrev pub LoadLeft : FileWorld → Common lib → Common lib → Option CollectError → Type 0
  LoadLeft w c after none = Ended w.ended none after
  LoadLeft w c after (some ttl_not_expired) = after ≡ c
  LoadLeft w c after (some already_running) = after ≡ c
  LoadLeft w c after (some read_error) =
      Ended w.ended (some read_error) after × (after.last_metrics ≡ some [])
  LoadLeft w c after (some cancelled) = after ≡ record c { running = true; last_start = w.started }
  LoadLeft w c after (some (parse_error key)) = Ended w.ended none after

  -- A refused collection leaves everything; one of the memory that has begun always ends, with its error
  -- kept.
  abbrev pub VmLeft : FileWorld → Common lib → Common lib → Option CollectError → Type 0
  VmLeft w c after none = Ended w.ended none after
  VmLeft w c after (some ttl_not_expired) = after ≡ c
  VmLeft w c after (some already_running) = after ≡ c
  VmLeft w c after (some e) = Ended w.ended (some e) after × (after.last_metrics ≡ some [])

  -- A file that can be read has a bad number behind a key.
  abbrev pub FileHasBadNumber : Bytes → Option (List Bytes) → Type 0
  FileHasBadNumber key none = ⊥
  FileHasBadNumber key (some ls) = HasBadNumber key ls

  -- A file that can be read.
  abbrev pub IsReadable : Option (List Bytes) → Type 0
  IsReadable o = (ls : List Bytes) × (o ≡ some ls)

  -- Why a collection of the load returns what it returns.
  abbrev pub LoadCause : FileWorld → Common lib → Option CollectError → Type 0
  LoadCause w c none = IsReadable w.first_file × IsReadable w.second_file
  LoadCause w c (some ttl_not_expired) = (0 < c.run_ttl) × (w.started - c.last_end < c.run_ttl)
  LoadCause w c (some already_running) = c.running ≡ true
  LoadCause w c (some read_error) = (w.first_file ≡ none) ⊎ (w.second_file ≡ none)
  LoadCause w c (some cancelled) = IsDone w.is_done
  LoadCause w c (some (parse_error key)) = FileHasBadNumber key w.second_file

  -- A collection of the memory does not return an error for a number, since it passes over lines whose
  -- number cannot be read.
  abbrev pub VmCause : FileWorld → Common lib → Option CollectError → Type 0
  VmCause w c (some (parse_error key)) = ⊥
  VmCause w c e = LoadCause w c e
