-- ===== src/Procfs/Vm.antt =====
-- internal/builtins/collector/linux/procfs/vm.go: the collection of the memory's metrics.
use circonus_agent.Prelude.{
  ℕ, ◌+◌, Bool, Option, none, some, List, [], ◌∷◌, ltb, if◌then◌else◌, length,
}
use circonus_agent.Prelude.Bytes.{Bytes, codes, equal}
use circonus_agent.Prelude.Strconv.{parse_uint, lookup}
use circonus_agent.Plugins.Output.{Lib, Metrics, uint64, float64}
use circonus_agent.Procfs.Common.{
  CollectError, fields, Common, begin_collect, set_status, add_metric, added, units, read_error,
  cancelled,
}
use circonus_agent.Procfs.Load.{FileWorld, Collected, once_begun, collected, collect_panics}
use circonus_agent.Procfs.Memory.{
  LinesRead, at_index, then_read, subtract_word, MemCounts, no_memory, mem_used, mem_free_total,
  swap_used, direct_names, count_memory, without_colons, scaled, PageCounts, no_pages, page_lines,
  lines_read, lines_stopped, lines_panic,
}

-- Floats of 64 bits: `float64(n)`, the quotient, `x * 100`, and `0.0`.
pub record Arith (lib : Lib) : Type 0 where
  pub of_uint : ℕ → lib.Float
  pub divide : lib.Float → lib.Float → lib.Float
  pub hundredfold : lib.Float → lib.Float
  pub zero_float : lib.Float

module _ (lib : Lib) (fl : Arith lib) where
  open fl use {of_uint, divide, hundredfold, zero_float}

  abbrev pub percent_of : ℕ → ℕ → lib.Float
  percent_of part whole = hundredfold (divide (of_uint part) (of_uint whole))

  abbrev pub swap_percent : ℕ → ℕ → lib.Float
  swap_percent part whole = if ltb 0 whole then percent_of part whole else zero_float

  abbrev pub added_bytes : Common lib → Bytes → ℕ → Metrics lib → Metrics lib
  added_bytes c name v metrics =
      added lib c name (codes "L") (uint64 v) (units (codes "bytes") ∷ []) metrics

  abbrev pub added_percent : Common lib → Bytes → lib.Float → Metrics lib → Metrics lib
  added_percent c name v metrics =
      added lib c name (codes "n") (float64 v) (units (codes "percent") ∷ []) metrics

  abbrev pub found_direct : Common lib → ℕ → Option (Bytes × Bytes) → Metrics lib → Metrics lib
  found_direct c v none metrics = metrics
  found_direct c v (some (name, unit)) metrics =
      added lib c name (codes "L") (uint64 v) (units unit ∷ []) metrics

  abbrev pub with_value :
      Common lib → Bytes → Bytes → Option ℕ → MemCounts × Metrics lib → MemCounts × Metrics lib
  with_value c name unit none st = st
  with_value c name unit (some v) st =
      let x = scaled (equal (lib.to_lower unit) (codes "kb")) v in
      (count_memory name x st.0, found_direct c x (lookup name direct_names) st.1)

  -- A line of `meminfo`: its first two fields, and the third as the unit where there is one.
  unfoldable pub memory_fields :
      Common lib → List Bytes → MemCounts × Metrics lib → LinesRead (MemCounts × Metrics lib)
  unfolding equal without_colons parse_uint count_memory lookup add_metric
  memory_fields c fs st =
      if ltb (length fs) 2
      then lines_read st
      else at_index fs 0 (λ key. at_index fs 1 (λ v.
        if ltb 2 (length fs)
        then at_index fs 2
            (λ unit. lines_read (with_value c (without_colons key) unit (parse_uint 64 v) st))
        else lines_read (with_value c (without_colons key) [] (parse_uint 64 v) st)))

  -- The loop over the lines.
  unfoldable pub memory_lines :
      (ℕ → Bool)
      → ℕ
      → Common lib
      → List Bytes
      → MemCounts × Metrics lib
      → LinesRead (MemCounts × Metrics lib)
  unfolding memory_fields fields
  memory_lines is_done k c [] st = lines_read st
  memory_lines is_done k c (l ∷ ls) st =
      if is_done k
      then lines_stopped
      else then_read (memory_fields c (fields l) st) (memory_lines is_done (k + 1) c ls)

  abbrev pub with_swap : Common lib → MemCounts → Metrics lib → Metrics lib
  with_swap c m metrics =
      added_percent c (codes "swap_used") (hundredfold (swap_percent (swap_used m) m.swap_total)) (
        added_bytes c (codes "swap_used") (swap_used m) (
          added_percent c (codes "swap_free") (swap_percent m.swap_free m.swap_total) (
            added_bytes c (codes "swap_free") (subtract_word m.swap_total (swap_used m))
              (added_bytes c (codes "swap_total") m.swap_total metrics))))

  -- The metrics after the loop.
  unfoldable pub with_memory : Common lib → MemCounts → Metrics lib → Metrics lib
  unfolding add_metric mem_used mem_free_total swap_used subtract_word
  with_memory c m metrics = with_swap c m (
      added_bytes c (codes "slab_reclaimable") m.reclaimable (
        added_bytes c (codes "shared") m.shared (
          added_bytes c (codes "cached") m.cached (
            added_bytes c (codes "buffers") m.buffers (
              added_bytes c (codes "memory_used") (mem_used m) (
                added_percent c (codes "memory_used") (percent_of (mem_used m) m.total) (
                  added_percent c (codes "memory_free") (percent_of (mem_free_total m) m.total) (
                    added_bytes c (codes "memory_free") (mem_free_total m)
                      (added_bytes c (codes "memory_total") m.total metrics)))))))))

  abbrev pub added_pages : Common lib → Bytes → ℕ → Bytes → Metrics lib → Metrics lib
  added_pages c name v unit metrics =
      added lib c name (codes "L") (uint64 v) (units unit ∷ []) metrics

  unfoldable pub with_pages : Common lib → PageCounts → Metrics lib → Metrics lib
  unfolding add_metric subtract_word
  with_pages c n metrics = added_pages c (codes "pg_scan") n.scans (codes "scans") (
      added_pages c (codes "pg_swap") n.swaps (codes "swaps") (
        added_pages c (codes "pg_fault__minor") (subtract_word n.faults n.major_faults)
          (codes "faults")
          (added_pages c (codes "pg_fault_major") n.major_faults (codes "faults")
            (added_pages c (codes "pg_fault") n.faults (codes "faults") metrics))))

  -- An error of either part sets the status.
  abbrev pub vm_failed : FileWorld → Common lib → CollectError → Collected lib
  vm_failed w c e = collected (set_status lib w.ended [] (some e) c) (some e)

  abbrev pub after_pages :
      FileWorld → Common lib → Metrics lib → LinesRead PageCounts → Collected lib
  after_pages w c metrics lines_panic = collect_panics
  after_pages w c metrics lines_stopped = vm_failed w c cancelled
  after_pages w c metrics (lines_read n) =
      collected (set_status lib w.ended (with_pages c n metrics) none c) none

  abbrev pub pages_part :
      FileWorld → ℕ → Common lib → Option (List Bytes) → Metrics lib → Collected lib
  pages_part w k c none metrics = vm_failed w c read_error
  pages_part w k c (some ls) metrics = after_pages w c metrics (page_lines w.is_done k ls no_pages)

  abbrev pub after_memory :
      FileWorld → ℕ → Common lib → LinesRead (MemCounts × Metrics lib) → Collected lib
  after_memory w k c lines_panic = collect_panics
  after_memory w k c lines_stopped = vm_failed w c cancelled
  after_memory w k c (lines_read (m, metrics)) =
      pages_part w k c w.second_file (with_memory c m metrics)

  abbrev pub memory_part : FileWorld → Common lib → Option (List Bytes) → Collected lib
  memory_part w c none = vm_failed w c read_error
  memory_part w c (some ls) =
      after_memory w (length ls) c (memory_lines w.is_done 0 c ls (no_memory, []))

  abbrev pub vm_of : FileWorld → Common lib → Collected lib
  vm_of w c = memory_part w c w.first_file

  -- `VM.Collect`.
  unfoldable pub collect_vm : FileWorld → Common lib → Collected lib
  unfolding begin_collect set_status memory_lines with_memory page_lines with_pages
  collect_vm w c = once_begun lib vm_of w (begin_collect lib w.started c)
