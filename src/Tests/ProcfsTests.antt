-- ===== src/Tests/ProcfsTests.antt =====
-- The collectors of linux at concrete files.
use circonus_agent.Prelude.{
  ℕ, ◌+◌, ◌-◌, ◌*◌, ◌≡◌, refl, Bool, true, false, ◌&&◌, none, some, List, [], ◌∷◌, arith, ltb, leb,
  if◌then◌else◌,
}
use circonus_agent.Prelude.Bytes.{Bytes, codes}
use circonus_agent.Prelude.Decimal.{show_nat}
use circonus_agent.Plugins.Output.{Lib}
use circonus_agent.Procfs.Common.{
  fields, Common, new_common, already_running, cancelled, parse_error,
}
use circonus_agent.Procfs.Load.{
  FileWorld, count_lines, no_counters, Collected, collect_load, out_of_range, collected,
  collect_panics,
}
use circonus_agent.Procfs.Memory.{MemCounts, no_memory}
use circonus_agent.Procfs.Vm.{Arith, memory_lines, collect_vm}
use circonus_agent.Procfs.Cpu.{
  Sums, without_cpu, LastValues, Cpu, CpuCollected, collect_cpu, cpu_collected, cpu_collect_panics,
}
use circonus_agent.Procfs.Balance.{counted_lines, Measures, meminfo_exact}
use circonus_agent.Procfs.Causes.{LoadLeft, LoadCause}
use circonus_agent.Procfs.Status.{
  VmResult, collect_load_status, collect_load_stuck, Returned, collect_vm_status, no_collect,
  then_collect,
}
use circonus_agent.Tests.Samples.{plain_lib}

abbrev fresh : Common plain_lib
fresh = new_common plain_lib (codes "load") []

abbrev with_files : List Bytes → List Bytes → (ℕ → Bool) → FileWorld
with_files first second is_done = record {
  started = 5;
  ended = 9;
  first_file = some first;
  second_file = some second;
  is_done = is_done;
}

-- The context is done once the first file has been read.
abbrev cut_short : FileWorld
cut_short = with_files (codes "1 2 3 1/9 7" ∷ []) (codes "ctxt 4" ∷ []) (λ k. ltb 0 k)

abbrev whole : FileWorld
whole = with_files (codes "1 2 3 1/9 7" ∷ []) (codes "cpu 1" ∷ codes "ctxt 4" ∷ []) (λ k. false)

abbrev misread : FileWorld
misread = with_files (codes "1 2 3" ∷ []) (codes "ctxt four" ∷ []) (λ k. false)

words : fields (codes " MemFree:\t 12 kB ") ≡ codes "MemFree:" ∷ codes "12" ∷ codes "kB" ∷ []
unfolding fields
words = refl

blank_line : count_lines (λ k. false) 0 ([] ∷ []) no_counters ≡ out_of_range
unfolding count_lines
blank_line = refl

abbrev begun_load : Common plain_lib
begun_load = record fresh { running = true; last_start = 5 }

collect_load_stuck_example :
    (begun_load ≡ begun_load) × (begun_load.running ≡ true) × (begun_load.last_metrics ≡ none)
unfolding new_common collect_load
collect_load_stuck_example =
    collect_load_stuck plain_lib cut_short fresh begun_load begun_load refl
      (then_collect whole (some already_running) refl no_collect)

abbrev left_by : Collected plain_lib → Common plain_lib
left_by (collected c e) = c
left_by collect_panics = fresh

abbrev misread_load : Common plain_lib
misread_load = left_by (collect_load plain_lib misread fresh)

collect_load_status_example :
    LoadLeft plain_lib misread fresh misread_load (some (parse_error (codes "ctxt")))
    × LoadCause plain_lib misread fresh (some (parse_error (codes "ctxt")))
unfolding new_common collect_load
collect_load_status_example =
    collect_load_status plain_lib misread fresh misread_load (some (parse_error (codes "ctxt")))
      refl

abbrev whole_numbers : Arith plain_lib
whole_numbers = record {
  of_uint = λ n. n;
  divide = λ a b. 0;
  hundredfold = λ a. a * 100;
  zero_float = 0;
}

abbrev meminfo : List Bytes
meminfo =
    codes "MemTotal: 100 kb"
    ∷ codes "MemFree: 30 kb"
    ∷ codes "Cached: 20 kb"
    ∷ codes "SwapTotal: 9 kb"
    ∷ codes "SwapFree: 5"
    ∷ []

abbrev memory_world : FileWorld
memory_world = with_files meminfo (codes "pgfault 7" ∷ []) (λ k. false)

abbrev vm_left : Common plain_lib
vm_left = left_by (collect_vm plain_lib whole_numbers cut_short fresh)

cancelled_memory :
    (vm_left.running ≡ false) × (vm_left.last_end ≡ 9) × (vm_left.last_error ≡ some cancelled)
unfolding new_common collect_vm
cancelled_memory = (refl, refl, refl)

collect_vm_status_example :
    Returned plain_lib whole_numbers
      (VmResult plain_lib memory_world fresh)
      (collect_vm plain_lib whole_numbers memory_world fresh)
collect_vm_status_example = collect_vm_status plain_lib whole_numbers memory_world fresh

-- `strings.ToLower` on letters of one byte.
abbrev lower_case : Bytes → Bytes
lower_case [] = []
lower_case (c ∷ s) = (if leb 65 c && leb c 90 then c + 32 else c) ∷ lower_case s

abbrev lower_lib : Lib
lower_lib = record plain_lib { to_lower = lower_case }

abbrev lower_numbers : Arith lower_lib
lower_numbers = record {
  of_uint = λ n. n;
  divide = λ a b. 0;
  hundredfold = λ a. a * 100;
  zero_float = 0;
}

abbrev kernel_lines : List Bytes
kernel_lines =
    codes "MemTotal:       100 kB"
    ∷ codes "MemFree:         30 kB"
    ∷ codes "MemAvailable:    60 kB"
    ∷ codes "Buffers:          5 kB"
    ∷ codes "Cached:          20 kB"
    ∷ codes "SwapTotal:        9 kB"
    ∷ codes "SwapFree:         5 kB"
    ∷ codes "Shmem:            3 kB"
    ∷ codes "SReclaimable:     8 kB"
    ∷ []

abbrev kernel_counts : MemCounts
kernel_counts = record {
  total = 100;
  free = 30;
  cached = 20;
  buffers = 5;
  reclaimable = 8;
  shared = 3;
  swap_total = 9;
  swap_free = 5;
}

meminfo_exact_example : Measures lower_lib lower_numbers kernel_counts (
    memory_lines lower_lib lower_numbers
      (λ k. false)
      0
      (new_common lower_lib (codes "vm") [])
      kernel_lines
      (no_memory, []))
unfolding counted_lines show_nat
meminfo_exact_example =
    meminfo_exact lower_lib lower_numbers (λ k. false) (new_common lower_lib (codes "vm") [])
      kernel_lines kernel_counts (λ k. refl) refl refl
      (
        omega arith,
        omega arith,
        omega arith,
        omega arith,
        omega arith,
        omega arith,
        omega arith,
        omega arith,
      )
      (omega arith, omega arith, omega arith)

abbrev whole_sums : Sums plain_lib
whole_sums = record { plus = λ a b. a + b; minus = λ a b. a - b }

abbrev one_cpu : Cpu plain_lib whole_numbers whole_sums
one_cpu = record {
  common = new_common plain_lib (codes "cpu") [];
  last_values = [];
  num_cpu = 2;
  clock_norm = 1;
  report_all = false;
}

abbrev stat_lines : List Bytes
stat_lines = codes "cpu 10 1 9 80 0 0 0" ∷ codes "cpu0 1 1 1 1 1 1 1" ∷ codes "procs_running 3" ∷ []

abbrev last_of :
    CpuCollected plain_lib whole_numbers whole_sums
    → List (Bytes × LastValues plain_lib whole_numbers whole_sums)
last_of (cpu_collected c e) = c.last_values
last_of cpu_collect_panics = []

-- Only the line of all processors counts, and its values are kept for the next time.
total_remembered :
    last_of (
      collect_cpu plain_lib whole_numbers whole_sums
        (with_files stat_lines [] (λ k. false))
        one_cpu)
    ≡ (codes "cpu", record { all = 100; busy = 20 }) ∷ []
unfolding new_common collect_cpu
total_remembered = refl

cpu_name : without_cpu (codes "cpu12") ≡ codes "12"
unfolding without_cpu
cpu_name = refl
