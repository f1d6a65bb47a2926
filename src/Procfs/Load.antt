-- ===== src/Procfs/Load.antt =====
-- internal/builtins/collector/linux/procfs/load.go: the load, and the numbers of processes.
use circonus_agent.Prelude.{ℕ, ◌+◌, Bool, Option, none, some, List, [], ◌∷◌, if◌then◌else◌, length}
use circonus_agent.Prelude.Int.{ℤ, pos}
use circonus_agent.Prelude.Bytes.{Bytes, codes, equal}
use circonus_agent.Prelude.Strconv.{parse_int}
use circonus_agent.Plugins.Output.{Lib, Metrics, int64, float64}
use circonus_agent.Procfs.Common.{
  CollectError, fields, Common, begin_collect, set_status, add_metric, added, units, read_error,
  cancelled, parse_error,
}

-- What a collection meets: its times, the lines of the files (if they can be read), and whether the
-- context is done where that is asked for the n-th time.
pub record FileWorld : Type 0 where
  pub started : ℕ
  pub ended : ℕ
  pub first_file : Option (List Bytes)
  pub second_file : Option (List Bytes)
  pub is_done : ℕ → Bool

-- The counters of `stat`.
pub record Counters : Type 0 where
  pub processes : ℤ
  pub running : ℤ
  pub blocked : ℤ
  pub switches : ℤ

-- A line of `stat`, or a loop over its lines. Too few fields are an index out of range.
pub data Counted : Type 0 where
  counted : Counters → Counted
  bad_number : Bytes → Counted
  stopped : Counted
  out_of_range : Counted

abbrev pub number_of : Bytes → Option ℤ → (ℤ → Counters) → Counted
number_of key none set = bad_number key
number_of key (some v) set = counted (set v)

abbrev pub first_number : Bytes → List Bytes → (ℤ → Counters) → Counted
first_number key [] set = out_of_range
first_number key (v ∷ vs) set = number_of key (parse_int 64 v) set

-- The fields of a line.
unfoldable pub count_fields : List Bytes → Counters → Counted
unfolding equal parse_int
count_fields [] n = out_of_range
count_fields (key ∷ vs) n =
    if equal key (codes "processes")
    then first_number key vs (λ v. record n { processes = v })
    else if equal key (codes "procs_running")
    then first_number key vs (λ v. record n { running = v })
    else if equal key (codes "procs_blocked")
    then first_number key vs (λ v. record n { blocked = v })
    else if equal key (codes "ctxt")
    then first_number key vs (λ v. record n { switches = v })
    else counted n

abbrev pub then_count : Counted → (Counters → Counted) → Counted
then_count (counted n) next = next n
then_count (bad_number key) next = bad_number key
then_count stopped next = stopped
then_count out_of_range next = out_of_range

-- The loop over the lines; the k-th question is asked next.
unfoldable pub count_lines : (ℕ → Bool) → ℕ → List Bytes → Counters → Counted
unfolding count_fields fields
count_lines is_done k [] n = counted n
count_lines is_done k (l ∷ ls) n =
    if is_done k
    then stopped
    else then_count (count_fields (fields l) n) (count_lines is_done (k + 1) ls)

abbrev pub no_counters : Counters
no_counters = record { processes = pos 0; running = pos 0; blocked = pos 0; switches = pos 0 }

module _ (lib : Lib) where
  -- What a collection comes to: the state after it, with an error that it returns, or an index that is out
  -- of range.
  pub data Collected : Type 0 where
    collected : Common lib → Option CollectError → Collected
    collect_panics : Collected

  abbrev pub added_load : Common lib → Bytes → lib.Float → Metrics lib → Metrics lib
  added_load c name v metrics =
      added lib c name (codes "n") (float64 v) (units (codes "processes") ∷ []) metrics

  abbrev pub third_load : Common lib → Option lib.Float → Metrics lib → Metrics lib
  third_load c none metrics = metrics
  third_load c (some v) metrics = added_load c (codes "load_15min") v metrics

  abbrev pub second_load : Common lib → Option lib.Float → Bytes → Metrics lib → Metrics lib
  second_load c none t metrics = metrics
  second_load c (some v) t metrics =
      third_load c (lib.parse_float t) (added_load c (codes "load_5min") v metrics)

  abbrev pub first_load : Common lib → Option lib.Float → Bytes → Bytes → Metrics lib → Metrics lib
  first_load c none s t metrics = metrics
  first_load c (some v) s t metrics =
      second_load c (lib.parse_float s) t (added_load c (codes "load_1min") v metrics)

  -- A line of `loadavg`: the loads up to the first that is no number.
  unfoldable pub load_fields : Common lib → List Bytes → Metrics lib → Metrics lib
  unfolding add_metric
  load_fields c [] metrics = metrics
  load_fields c (r ∷ []) metrics = metrics
  load_fields c (r ∷ s ∷ []) metrics = metrics
  load_fields c (r ∷ s ∷ t ∷ more) metrics = first_load c (lib.parse_float r) s t metrics

  -- `none` where the context is done.
  unfoldable pub load_lines :
      (ℕ → Bool) → ℕ → Common lib → List Bytes → Metrics lib → Option (Metrics lib)
  unfolding load_fields fields
  load_lines is_done k c [] metrics = some metrics
  load_lines is_done k c (l ∷ ls) metrics =
      let rest = load_lines is_done (k + 1) c ls (load_fields c (fields l) metrics) in
      if is_done k then none else rest

  abbrev pub added_count : Common lib → Bytes → ℤ → Bytes → Metrics lib → Metrics lib
  added_count c name v unit metrics =
      added lib c name (codes "l") (int64 v) (units unit ∷ []) metrics

  abbrev pub with_counters : Common lib → Counters → Metrics lib → Metrics lib
  with_counters c n metrics = added_count c (codes "ctxt") n.switches (codes "switches") (
      added_count c (codes "blocked") n.blocked (codes "processes") (
        added_count c (codes "running") n.running (codes "processes")
          (added_count c (codes "total") n.processes (codes "processes") metrics)))

  -- The end of the second part. A context that is done is returned at once; and for a number that cannot
  -- be read, the status is set with the error of reading the file, which is nil.
  abbrev pub after_count : ℕ → Common lib → Metrics lib → Counted → Collected
  after_count ended c metrics (counted n) =
      collected (set_status lib ended (with_counters c n metrics) none c) none
  after_count ended c metrics (bad_number key) =
      collected (set_status lib ended metrics none c) (some (parse_error key))
  after_count ended c metrics stopped = collected c (some cancelled)
  after_count ended c metrics out_of_range = collect_panics

  abbrev pub count_part :
      FileWorld → ℕ → Common lib → Option (List Bytes) → Option (Metrics lib) → Collected
  count_part w k c file none = collected c (some cancelled)
  count_part w k c none (some metrics) =
      collected (set_status lib w.ended metrics (some read_error) c) (some read_error)
  count_part w k c (some ls) (some metrics) =
      after_count w.ended c metrics (count_lines w.is_done k ls no_counters)

  abbrev pub load_part : FileWorld → Common lib → Option (List Bytes) → Collected
  load_part w c none = collected (set_status lib w.ended [] (some read_error) c) (some read_error)
  load_part w c (some ls) =
      count_part w (length ls) c w.second_file (load_lines w.is_done 0 c ls [])

  abbrev pub once_begun :
      (FileWorld → Common lib → Collected)
      → FileWorld
      → Option CollectError × Common lib
      → Collected
  once_begun go w (some e, c) = collected c (some e)
  once_begun go w (none, c) = go w c

  abbrev pub load_of : FileWorld → Common lib → Collected
  load_of w c = load_part w c w.first_file

  -- `Load.Collect`.
  unfoldable pub collect_load : FileWorld → Common lib → Collected
  unfolding begin_collect set_status load_lines count_lines add_metric
  collect_load w c = once_begun load_of w (begin_collect lib w.started c)
