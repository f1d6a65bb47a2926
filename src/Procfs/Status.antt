-- ===== src/Procfs/Status.antt =====
-- What a collection leaves of a collector's status.
use mathlib.Core.Path.{subst}
use circonus_agent.Prelude.{
  ℕ, ◌-◌, ◌≡◌, refl, sym, ◌∙◌, ◌⊎◌, inl, inr, true, ◌&&◌, Option, none, some, List, [], arith, ltb,
  Bool-cases, length,
}
use circonus_agent.Prelude.Bytes.{Bytes}
use circonus_agent.Plugins.Output.{Lib, Metrics}
use circonus_agent.Procfs.Common.{
  CollectError, Common, begin_collect, set_status, ttl_not_expired, already_running, cancelled,
}
use circonus_agent.Procfs.Load.{
  FileWorld, Counted, no_counters, Collected, after_count, count_part, load_part, collect_load,
  counted, bad_number, stopped, out_of_range, collected, collect_panics,
}
use circonus_agent.Procfs.Memory.{
  LinesRead, MemCounts, no_memory, PageCounts, no_pages, lines_read, lines_stopped, lines_panic,
}
use circonus_agent.Procfs.Vm.{Arith, after_pages, pages_part, after_memory, memory_part, collect_vm}
use circonus_agent.Procfs.Reading.{
  IsDone, ReadsOn, CountedOn, count_lines-CountedOn, page_lines-ReadsOn, memory_lines-ReadsOn,
  load_lines-stop,
}
use circonus_agent.Procfs.Causes.{
  LoadLeft, VmLeft, FileHasBadNumber, IsReadable, LoadCause, VmCause,
}

module _ (lib : Lib) where
  abbrev LoadResult : FileWorld → Common lib → Common lib → Option CollectError → Type 0
  LoadResult w c after e = LoadLeft lib w c after e × LoadCause lib w c e

  abbrev pub VmResult : FileWorld → Common lib → Common lib → Option CollectError → Type 0
  VmResult w c after e = VmLeft lib w c after e × VmCause lib w c e

  abbrev Leaves : (Common lib → Option CollectError → Type 0) → Collected lib → Type 0
  Leaves P (collected c e) = P c e
  Leaves P collect_panics = Unit {0}

  abbrev begun_at : FileWorld → Common lib → Common lib
  begun_at w c = record c { running = true; last_start = w.started }

  abbrev BeginCases : FileWorld → Common lib → Type 0
  BeginCases w c =
      (begin_collect lib w.started c ≡ (none, begun_at w c))
      ⊎ (((begin_collect lib w.started c ≡ (some ttl_not_expired, c))
            × LoadCause lib w c (some ttl_not_expired))
          ⊎ ((begin_collect lib w.started c ≡ (some already_running, c)) × (c.running ≡ true)))

  begin_cases : (w : FileWorld) (c : Common lib) → BeginCases w c
  unfolding begin_collect
  begin_cases w c = elim (Bool-cases (ltb 0 c.run_ttl && ltb (w.started - c.last_end) c.run_ttl)) [
    | inl early ↦ inr (inl (rw early refl, (ground arith, ground arith)))
    | inr due ↦ elim (Bool-cases c.running) [
      | inl busy ↦ inr (inr (rw (due, busy) refl, busy))
      | inr free ↦ inl (rw (due, free) refl)
    ]
  ]

  after_count-LoadResult :
      (w : FileWorld) (c : Common lib) (metrics : Metrics lib) (ls : List Bytes) (r : Counted)
      → IsReadable lib w.first_file
      → w.second_file ≡ some ls
      → CountedOn w.is_done ls r
      → Leaves (LoadResult w c) (after_count lib w.ended (begun_at w c) metrics r)
  unfolding set_status
  after_count-LoadResult w c metrics ls (counted n) first file on =
      ((refl, refl, refl), (first, (ls, file)))
  after_count-LoadResult w c metrics ls (bad_number key) first file on =
      ((refl, refl, refl), subst (FileHasBadNumber lib key) (sym file) on)
  after_count-LoadResult w c metrics ls stopped first file on = (refl, on)
  after_count-LoadResult w c metrics ls out_of_range first file on = tt

  count_part-LoadResult :
      (w : FileWorld) (k : ℕ) (c : Common lib) (file : Option (List Bytes))
      (o : Option (Metrics lib))
      → IsReadable lib w.first_file
      → w.second_file ≡ file
      → (o ≡ none → IsDone w.is_done)
      → Leaves (LoadResult w c) (count_part lib w k (begun_at w c) file o)
  unfolding set_status
  count_part-LoadResult w k c file none first e stop = (refl, stop refl)
  count_part-LoadResult w k c none (some metrics) first e stop = (((refl, refl, refl), refl), inr e)
  count_part-LoadResult w k c (some ls) (some metrics) first e stop =
      after_count-LoadResult w c metrics ls _ first e
        (count_lines-CountedOn w.is_done k ls no_counters)

  load_part-LoadResult :
      (w : FileWorld) (c : Common lib) (file : Option (List Bytes))
      → w.first_file ≡ file
      → Leaves (LoadResult w c) (load_part lib w (begun_at w c) file)
  unfolding set_status
  load_part-LoadResult w c none e = (((refl, refl, refl), refl), inl e)
  load_part-LoadResult w c (some ls) e =
      count_part-LoadResult w (length ls) c w.second_file _ (ls, e) refl
        (load_lines-stop lib w.is_done 0 (begun_at w c) ls [])

  collect_load-Leaves :
      (w : FileWorld) (c : Common lib) → Leaves (LoadResult w c) (collect_load lib w c)
  unfolding collect_load
  collect_load-Leaves w c = elim (begin_cases w c) [
    | inl fresh ↦ rw fresh (load_part-LoadResult w c w.first_file refl)
    | inr (inl early) ↦ rw early.0 (refl, early.1)
    | inr (inr busy) ↦ rw busy.0 (refl, busy.1)
  ]

  -- A collection of the load that does not panic, by what it returns, with the cause. Refused, as its time to
  -- live is not over or it is running, the collector is left as it was. With no error, both files could be
  -- read, and it has ended. Where one cannot be read, it has ended with this error and no metrics. Cancelled
  -- by the context, it stays running. With an error for a number, `stat` has a line with this key and a
  -- number that cannot be read, and the collection is recorded as a success. (There is no such error for
  -- `loadavg`, whose numbers are passed over from the first that cannot be read.)
  pub collect_load_status :
      (w : FileWorld) (c after : Common lib) (e : Option CollectError)
      → collect_load lib w c ≡ collected after e
      → LoadLeft lib w c after e × LoadCause lib w c e
  collect_load_status w c after e h = rw h at (collect_load-Leaves w c)

  -- The state after collections one after the other, of which none panics.
  pub data Collects : Common lib → Common lib → Type 0 where
    no_collect : {c : Common lib} → Collects c c
    then_collect :
        {c mid end : Common lib} (w : FileWorld) (e : Option CollectError)
        → collect_load lib w c ≡ collected mid e
        → Collects mid end
        → Collects c end

  -- While a collector is running, no collection changes it or succeeds.
  collect_load_busy :
      (w : FileWorld) (c after : Common lib) (e : Option CollectError)
      → c.running ≡ true
      → collect_load lib w c ≡ collected after e
      → after ≡ c
  unfolding collect_load begin_collect
  collect_load_busy w c after e busy h =
      elim (Bool-cases (ltb 0 c.run_ttl && ltb (w.started - c.last_end) c.run_ttl)) [
        | inl early ↦ ground (arith, rw early at h)
        | inr due ↦ ground (arith, rw (due, busy) at h)
      ]

  busy_forever : {c end : Common lib} → c.running ≡ true → Collects c end → end ≡ c
  busy_forever busy no_collect = refl
  busy_forever busy (then_collect w e h rest) =
      let same = collect_load_busy w _ _ e busy h in busy_forever (rw same busy) rest ∙ same

  -- After a collection of the load that was cancelled, no later collection changes the collector again: it
  -- stays running with the metrics it had, whatever the files say and however much time goes by.
  pub collect_load_stuck :
      (w : FileWorld) (c after end : Common lib)
      → collect_load lib w c ≡ collected after (some cancelled)
      → Collects after end
      → (end ≡ after) × (end.running ≡ true) × (end.last_metrics ≡ c.last_metrics)
  collect_load_stuck w c after end h later =
      let left = (collect_load_status w c after (some cancelled) h).0 in
      let same = busy_forever (rw left refl) later in
      (same, rw (same, left) refl, rw (same, left) refl)

module _ (lib : Lib) (fl : Arith lib) where
  -- A collection that has returned, without a panic.
  abbrev pub Returned : (Common lib → Option CollectError → Type 0) → Collected lib → Type 0
  Returned P (collected after e) = P after e
  Returned P collect_panics = ⊥

  after_pages-VmResult :
      (w : FileWorld) (c : Common lib) (metrics : Metrics lib) (o : LinesRead PageCounts)
      → IsReadable lib w.first_file
      → IsReadable lib w.second_file
      → ReadsOn w.is_done o
      → Returned (VmResult lib w c) (after_pages lib fl w (begun_at lib w c) metrics o)
  unfolding set_status
  after_pages-VmResult w c metrics lines_panic first second on = on
  after_pages-VmResult w c metrics lines_stopped first second on = (((refl, refl, refl), refl), on)
  after_pages-VmResult w c metrics (lines_read n) first second on =
      ((refl, refl, refl), (first, second))

  pages_part-VmResult :
      (w : FileWorld) (k : ℕ) (c : Common lib) (file : Option (List Bytes)) (metrics : Metrics lib)
      → IsReadable lib w.first_file
      → w.second_file ≡ file
      → Returned (VmResult lib w c) (pages_part lib fl w k (begun_at lib w c) file metrics)
  unfolding set_status
  pages_part-VmResult w k c none metrics first e = (((refl, refl, refl), refl), inr e)
  pages_part-VmResult w k c (some ls) metrics first e =
      after_pages-VmResult w c metrics _ first (ls, e) (page_lines-ReadsOn w.is_done k ls no_pages)

  after_memory-VmResult :
      (w : FileWorld) (k : ℕ) (c : Common lib) (o : LinesRead (MemCounts × Metrics lib))
      → IsReadable lib w.first_file
      → ReadsOn w.is_done o
      → Returned (VmResult lib w c) (after_memory lib fl w k (begun_at lib w c) o)
  unfolding set_status
  after_memory-VmResult w k c lines_panic first on = on
  after_memory-VmResult w k c lines_stopped first on = (((refl, refl, refl), refl), on)
  after_memory-VmResult w k c (lines_read (m, metrics)) first on =
      pages_part-VmResult w k c w.second_file _ first refl

  memory_part-VmResult :
      (w : FileWorld) (c : Common lib) (file : Option (List Bytes))
      → w.first_file ≡ file
      → Returned (VmResult lib w c) (memory_part lib fl w (begun_at lib w c) file)
  unfolding set_status
  memory_part-VmResult w c none e = (((refl, refl, refl), refl), inl e)
  memory_part-VmResult w c (some ls) e =
      after_memory-VmResult w (length ls) c _ (ls, e)
        (memory_lines-ReadsOn lib fl w.is_done 0 (begun_at lib w c) ls (no_memory, []))

  -- A collection of the memory returns, and no index is out of range on the way, whatever the files say. The
  -- collector is left as it was if the collection is refused, as its time to live is not over or it is
  -- running; every other has ended: with no error where both files could be read, and otherwise, where one
  -- cannot be read or the context is done, with this error kept and no metrics.
  pub collect_vm_status :
      (w : FileWorld) (c : Common lib) → Returned (VmResult lib w c) (collect_vm lib fl w c)
  unfolding collect_vm
  collect_vm_status w c = elim (begin_cases lib w c) [
    | inl fresh ↦ rw fresh (memory_part-VmResult w c w.first_file refl)
    | inr (inl early) ↦ rw early.0 (refl, early.1)
    | inr (inr busy) ↦ rw busy.0 (refl, busy.1)
  ]
