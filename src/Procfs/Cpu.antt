-- ===== src/Procfs/Cpu.antt =====
-- internal/builtins/collector/linux/procfs/cpu.go: the use of the processors.
use circonus_agent.Prelude.{
  ℕ, ◌+◌, Bool, not, ◌&&◌, ◌||◌, Option, none, some, List, [], ◌∷◌, if◌then◌else◌, drop,
}
use circonus_agent.Prelude.Int.{ℤ, pos}
use circonus_agent.Prelude.Bytes.{Bytes, codes, equal, has_prefix}
use circonus_agent.Prelude.Strconv.{parse_int, lookup, assign}
use circonus_agent.Tags.{Tag}
use circonus_agent.Plugins.Output.{Lib, Metrics, int64, float64}
use circonus_agent.Procfs.Common.{
  CollectError, fields, Common, begin_collect, set_status, add_metric, added, units, read_error,
  cancelled, parse_error,
}
use circonus_agent.Procfs.Load.{FileWorld}
use circonus_agent.Procfs.Vm.{Arith}

-- Sums and differences of floats.
pub record Sums (lib : Lib) : Type 0 where
  pub plus : lib.Float → lib.Float → lib.Float
  pub minus : lib.Float → lib.Float → lib.Float

-- `strings.Replace(s, "cpu", "", 1)`.
unfoldable pub without_cpu : Bytes → Bytes
unfolding has_prefix
without_cpu [] = []
without_cpu (c ∷ s) =
    let rest = without_cpu s in
    if has_prefix (c ∷ s) (codes "cpu") then drop 3 (c ∷ s) else c ∷ rest

module _ (lib : Lib) (fl : Arith lib) (sums : Sums lib) where
  open lib use {Float, parse_float}
  open fl use {of_uint, divide, hundredfold, zero_float}
  open sums use {plus, minus}

  pub record LastValues : Type 0 where
    pub all : Float
    pub busy : Float

  pub record Cpu : Type 0 where
    pub common : Common lib
    pub last_values : List (Bytes × LastValues)
    pub num_cpu : ℕ
    pub clock_norm : Float
    pub report_all : Bool

  -- The times of a line, with what is busy of them.
  pub record CpuTimes : Type 0 where
    pub user : Float
    pub nice : Float
    pub system : Float
    pub idle : Float
    pub wait_io : Float
    pub irq : Float
    pub soft_irq : Float
    pub steal : Float
    pub guest : Float
    pub guest_nice : Float
    pub busy_time : Float

  -- What is read of a line: too few fields are an index out of range.
  pub data TimesRead : Type 0 where
    times_read : CpuTimes → TimesRead
    unreadable no_field : TimesRead

  abbrev pub read_float : Option Float → (Float → TimesRead) → TimesRead
  read_float none next = unreadable
  read_float (some x) next = next x

  abbrev pub next_float : List Bytes → (Float → List Bytes → TimesRead) → TimesRead
  next_float [] next = no_field
  next_float (f ∷ fs) next = read_float (parse_float f) (λ x. next x fs)

  -- A field that later kernels have, added to what is busy.
  abbrev pub optional_float :
      Float → List Bytes → (Float → Float → List Bytes → TimesRead) → TimesRead
  optional_float busy [] next = next zero_float busy []
  optional_float busy (f ∷ fs) next = read_float (parse_float f) (λ x. next x (plus busy x) fs)

  abbrev pub required_busy : Float → Float → Float → Float → Float → Float → Float
  required_busy user nice sys wait irq soft =
      plus (plus (plus (plus (plus (plus zero_float user) nice) sys) wait) irq) soft

  -- The fields behind the name of a processor.
  unfoldable pub read_times : List Bytes → TimesRead
  read_times fs = next_float fs (λ user fs1. next_float fs1 (λ nice fs2. next_float fs2 (λ sys fs3.
      next_float fs3 (λ idle fs4. next_float fs4 (λ wait fs5. next_float fs5 (λ irq fs6.
        next_float fs6 (λ soft fs7.
          optional_float (required_busy user nice sys wait irq soft) fs7 (λ steal busy8 fs8.
            optional_float busy8 fs8 (λ guest busy9 fs9.
              optional_float busy9 fs9 (λ guest_nice busy fs10. times_read (record {
                user = user;
                nice = nice;
                system = sys;
                idle = idle;
                wait_io = wait;
                irq = irq;
                soft_irq = soft;
                steal = steal;
                guest = guest;
                guest_nice = guest_nice;
                busy_time = busy;
              })))))))))))

  -- How much was used, in percent: since the last time, or at all.
  abbrev pub used : Option LastValues → LastValues → Float
  used none v = hundredfold (divide v.busy v.all)
  used (some last) v = hundredfold (divide (minus v.busy last.busy) (minus v.all last.all))

  abbrev pub values_of : CpuTimes → LastValues
  values_of t = record { all = plus t.busy_time t.idle; busy = t.busy_time }

  abbrev pub cpu_tags : Bytes → Bytes → List Tag
  cpu_tags [] unit = units unit ∷ []
  cpu_tags (c ∷ id) unit = record { category = codes "cpu"; value = c ∷ id } ∷ units unit ∷ []

  abbrev pub added_time : Cpu → Bytes → Float → Bytes → Float → Metrics lib → Metrics lib
  added_time c id num name v metrics =
      added lib c.common name (codes "n") (float64 (divide (divide v num) c.clock_norm))
        (cpu_tags id (codes "centiseconds")) metrics

  abbrev pub with_times : Cpu → Bytes → Float → CpuTimes → Float → Metrics lib → Metrics lib
  with_times c id num t rate metrics =
      added lib c.common (codes "cpu_used") (codes "n") (float64 rate)
        (cpu_tags id (codes "percent"))
        (added_time c id num (codes "cpu_guest_nice") t.guest_nice (
          added_time c id num (codes "cpu_guest") t.guest (
            added_time c id num (codes "cpu_steal") t.steal (
              added_time c id num (codes "cpu_soft_irq") t.soft_irq (
                added_time c id num (codes "cpu_irq") t.irq (
                  added_time c id num (codes "cpu_iowait") t.wait_io (
                    added_time c id num (codes "cpu_nice") t.nice (
                      added_time c id num (codes "cpu_idle") t.idle (
                        added_time c id num (codes "cpu_system") t.system
                          (added_time c id num (codes "cpu_user") t.user metrics))))))))))

  -- The name `cpu` stands for all processors together.
  abbrev pub is_total : Bytes → Bool
  is_total key = equal key (codes "cpu")

  abbrev pub id_of : Bytes → Bytes
  id_of key = if is_total key then [] else without_cpu key

  abbrev pub number_for : Cpu → Bytes → ℕ
  number_for c key = if is_total key then c.num_cpu else 1

  -- A line or a loop over lines: what has been gathered, an error, a context that is done, or an index out of
  -- range.
  pub data CpuStep : Type 0 where
    cpu_step : Cpu → Metrics lib → CpuStep
    cpu_error : Cpu → Bytes → CpuStep
    cpu_stopped : Cpu → CpuStep
    cpu_panics : CpuStep

  abbrev pub remembered : Cpu → Bytes → LastValues → Cpu
  remembered c key v = record c { last_values = assign key v c.last_values }

  abbrev pub after_read : Cpu → Bytes → Metrics lib → TimesRead → CpuStep
  after_read c key metrics (times_read t) = cpu_step (remembered c key (values_of t)) (
      with_times c (id_of key) (of_uint (number_for c key)) t
        (used (lookup key c.last_values) (values_of t)) metrics)
  after_read c key metrics unreadable = cpu_error c key
  after_read c key metrics no_field = cpu_panics

  -- The metrics that do not belong to a processor.
  abbrev pub process_name : Bytes → Option Bytes
  process_name key =
      if equal key (codes "processes")
      then some (codes "processes")
      else if equal key (codes "procs_running")
      then some (codes "procs_runnable")
      else if equal key (codes "procs_blocked")
      then some (codes "procs_blocked")
      else none

  abbrev pub added_process : Cpu → Bytes → Option ℤ → Metrics lib → Metrics lib
  added_process c name none metrics = metrics
  added_process c name (some v) metrics = added lib c.common name (codes "I") (int64 v) [] metrics

  abbrev pub then_processor : Cpu → Bytes → List Bytes → Metrics lib → CpuStep
  then_processor c key fs metrics =
      if not (has_prefix key c.common.id) || (not (equal key c.common.id) && not c.report_all)
      then cpu_step c metrics
      else after_read c key metrics (read_times fs)

  abbrev pub process_line : Cpu → Bytes → Bytes → List Bytes → Metrics lib → CpuStep
  process_line c key name [] metrics = cpu_panics
  process_line c key name (v ∷ fs) metrics =
      then_processor c key (v ∷ fs) (added_process c name (parse_int 64 v) metrics)

  abbrev pub keyed_line : Cpu → Bytes → List Bytes → Metrics lib → Option Bytes → CpuStep
  keyed_line c key fs metrics none = then_processor c key fs metrics
  keyed_line c key fs metrics (some name) = process_line c key name fs metrics

  unfoldable pub cpu_fields : Cpu → List Bytes → Metrics lib → CpuStep
  unfolding equal has_prefix parse_int read_times without_cpu add_metric assign lookup
  cpu_fields c [] metrics = cpu_panics
  cpu_fields c (key ∷ fs) metrics = keyed_line c key fs metrics (process_name key)

  abbrev pub then_cpu : CpuStep → (Cpu → Metrics lib → CpuStep) → CpuStep
  then_cpu (cpu_step c metrics) next = next c metrics
  then_cpu (cpu_error c key) next = cpu_error c key
  then_cpu (cpu_stopped c) next = cpu_stopped c
  then_cpu cpu_panics next = cpu_panics

  unfoldable pub cpu_lines : (ℕ → Bool) → ℕ → List Bytes → Cpu → Metrics lib → CpuStep
  unfolding cpu_fields fields
  cpu_lines is_done k [] c metrics = cpu_step c metrics
  cpu_lines is_done k (l ∷ ls) c metrics =
      if is_done k
      then cpu_stopped c
      else then_cpu (cpu_fields c (fields l) metrics) (cpu_lines is_done (k + 1) ls)

  pub data CpuCollected : Type 0 where
    cpu_collected : Cpu → Option CollectError → CpuCollected
    cpu_collect_panics : CpuCollected

  abbrev pub with_status : ℕ → Metrics lib → Option CollectError → Cpu → Cpu
  with_status now metrics e c = record c { common = set_status lib now metrics e c.common }

  abbrev pub after_lines : ℕ → CpuStep → CpuCollected
  after_lines now (cpu_step c metrics) = cpu_collected (with_status now metrics none c) none
  after_lines now (cpu_error c key) =
      cpu_collected (with_status now [] (some (parse_error key)) c) (some (parse_error key))
  after_lines now (cpu_stopped c) = cpu_collected c (some cancelled)
  after_lines now cpu_panics = cpu_collect_panics

  abbrev pub cpu_part : FileWorld → Cpu → Option (List Bytes) → CpuCollected
  cpu_part w c none = cpu_collected (with_status w.ended [] (some read_error) c) (some read_error)
  cpu_part w c (some ls) = after_lines w.ended (
      cpu_lines w.is_done 0 ls c
        (added lib c.common (codes "num_cpu") (codes "I") (int64 (pos c.num_cpu)) [] []))

  abbrev pub cpu_begun : FileWorld → Cpu → Option CollectError × Common lib → CpuCollected
  cpu_begun w c (some e, common) = cpu_collected c (some e)
  cpu_begun w c (none, common) = cpu_part w (record c { common = common }) w.first_file

  -- `CPU.Collect`.
  unfoldable pub collect_cpu : FileWorld → Cpu → CpuCollected
  unfolding begin_collect set_status cpu_lines add_metric
  collect_cpu w c = cpu_begun w c (begin_collect lib w.started c.common)
