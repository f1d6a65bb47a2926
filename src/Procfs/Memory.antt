-- ===== src/Procfs/Memory.antt =====
-- internal/builtins/collector/linux/procfs/vm.go: the memory and its pages.
use circonus_agent.Prelude.{
  ℕ, zero, suc, ◌+◌, ◌-◌, ◌*◌, ◌%◌, ◌^◌, Bool, true, false, not, Option, none, some, List, [], ◌∷◌,
  ◌==◌, if◌then◌else◌, length,
}
use circonus_agent.Prelude.Bytes.{Bytes, codes, equal, has_prefix}
use circonus_agent.Prelude.Strconv.{parse_uint}
use circonus_agent.Procfs.Common.{fields}

-- A line, or a loop over lines: what has been read, the end of the context, or an index that is out of
-- range.
pub data LinesRead (A : Type 0) : Type 0 where
  lines_read : A → LinesRead A
  lines_stopped : LinesRead A
  lines_panic : LinesRead A

module _ {A : Type 0} where
  -- `fields[i]`.
  abbrev pub at_index : List Bytes → ℕ → (Bytes → LinesRead A) → LinesRead A
  at_index [] i next = lines_panic
  at_index (f ∷ fs) zero next = next f
  at_index (f ∷ fs) (suc i) next = at_index fs i next

  abbrev pub then_read : LinesRead A → (A → LinesRead A) → LinesRead A
  then_read (lines_read x) next = next x
  then_read lines_stopped next = lines_stopped
  then_read lines_panic next = lines_panic

-- Arithmetic on 64 bits.
abbrev pub word : ℕ
word = 2 ^ 64

unfoldable pub add_word : ℕ → ℕ → ℕ
add_word a b = (a + b) % word

unfoldable pub subtract_word : ℕ → ℕ → ℕ
subtract_word a b = (a + (word - b)) % word

-- The variables of `parseMemstats`.
pub record MemCounts : Type 0 where
  pub total : ℕ
  pub free : ℕ
  pub cached : ℕ
  pub buffers : ℕ
  pub reclaimable : ℕ
  pub shared : ℕ
  pub swap_total : ℕ
  pub swap_free : ℕ

abbrev pub no_memory : MemCounts
no_memory = record {
  total = 0;
  free = 0;
  cached = 0;
  buffers = 0;
  reclaimable = 0;
  shared = 0;
  swap_total = 0;
  swap_free = 0;
}

unfoldable pub ht_cached : MemCounts → ℕ
unfolding add_word subtract_word
ht_cached m = add_word m.cached (subtract_word m.reclaimable m.shared)

-- `htUsedTotal` and `htFreeTotal`.
unfoldable pub mem_used : MemCounts → ℕ
unfolding subtract_word add_word ht_cached
mem_used m = subtract_word (subtract_word m.total m.free) (add_word m.buffers (ht_cached m))

unfoldable pub mem_free_total : MemCounts → ℕ
unfolding add_word ht_cached
mem_free_total m = add_word (add_word m.free m.buffers) (ht_cached m)

unfoldable pub swap_used : MemCounts → ℕ
unfolding subtract_word
swap_used m = subtract_word m.swap_total m.swap_free

-- The lines that are given out as they are: the name of the metric, and its unit.
abbrev pub direct_names : List (Bytes × (Bytes × Bytes))
direct_names =
    (codes "MemAvailable", (codes "memory_available", codes "bytes"))
    ∷ (codes "Active", (codes "active", codes "bytes"))
    ∷ (codes "Inactive", (codes "inactive", codes "bytes"))
    ∷ (codes "Active(file)", (codes "active_file", codes "bytes"))
    ∷ (codes "Inactive(file)", (codes "inactive_file", codes "bytes"))
    ∷ (codes "Writeback", (codes "writeback", codes "bytes"))
    ∷ (codes "WritebackTmp", (codes "writeback_tmp", codes "bytes"))
    ∷ (codes "Dirty", (codes "dirty", codes "bytes"))
    ∷ (codes "Slab", (codes "slab", codes "bytes"))
    ∷ (codes "PageTables", (codes "page_tables", codes "bytes"))
    ∷ (codes "SwapCached", (codes "swap_cached", codes "bytes"))
    ∷ (codes "CommitLimit", (codes "commit_limit", codes "bytes"))
    ∷ (codes "Committed_AS", (codes "committed_as", codes "bytes"))
    ∷ (codes "HighTotal", (codes "high_total", codes "bytes"))
    ∷ (codes "HighFree", (codes "high_free", codes "bytes"))
    ∷ (codes "LowTotal", (codes "low_total", codes "bytes"))
    ∷ (codes "LowFree", (codes "low_free", codes "bytes"))
    ∷ (codes "Mapped", (codes "mapped", codes "bytes"))
    ∷ (codes "VmallocTotal", (codes "vm_alloc_total", codes "bytes"))
    ∷ (codes "VmallocUsed", (codes "vm_alloc_used", codes "bytes"))
    ∷ (codes "VmallocChunk", (codes "vm_alloc_chunk", codes "bytes"))
    ∷ (codes "HugePages_Total", (codes "huge_pages_total", codes "hugepages"))
    ∷ (codes "HugePages_Free", (codes "huge_pages_free", codes "hugepages"))
    ∷ (codes "Hugepagesize", (codes "huge_page_size", codes "bytes"))
    ∷ []

-- The counts, with the value of a line.
unfoldable pub count_memory : Bytes → ℕ → MemCounts → MemCounts
unfolding equal
count_memory name v m =
    if equal name (codes "MemTotal")
    then record m { total = v }
    else if equal name (codes "MemFree")
    then record m { free = v }
    else if equal name (codes "Buffers")
    then record m { buffers = v }
    else if equal name (codes "Cached")
    then record m { cached = v }
    else if equal name (codes "Shmem")
    then record m { shared = v }
    else if equal name (codes "SReclaimable")
    then record m { reclaimable = v }
    else if equal name (codes "SwapTotal")
    then record m { swap_total = v }
    else if equal name (codes "SwapFree")
    then record m { swap_free = v }
    else m

unfoldable pub without_colons : Bytes → Bytes
without_colons [] = []
without_colons (c ∷ s) = let rest = without_colons s in if c == b':' then rest else c ∷ rest

abbrev pub scaled : Bool → ℕ → ℕ
scaled true v = v * 1024 % word
scaled false v = v

-- The variables of `parseVMstats`.
pub record PageCounts : Type 0 where
  pub faults : ℕ
  pub major_faults : ℕ
  pub scans : ℕ
  pub swaps : ℕ

abbrev pub no_pages : PageCounts
no_pages = record { faults = 0; major_faults = 0; scans = 0; swaps = 0 }

abbrev pub pages_with : Option ℕ → (ℕ → PageCounts) → PageCounts → PageCounts
pages_with none set n = n
pages_with (some v) set n = set v

abbrev pub page_field : List Bytes → (ℕ → PageCounts) → PageCounts → LinesRead PageCounts
page_field fs set n = at_index fs 1 (λ v. lines_read (pages_with (parse_uint 64 v) set n))

-- A line of `vmstat`.
unfoldable pub count_pages : List Bytes → PageCounts → LinesRead PageCounts
unfolding equal has_prefix parse_uint add_word
count_pages fs n =
    if not (length fs == 2)
    then lines_read n
    else at_index fs 0 (λ key.
      if equal key (codes "pgfault")
      then page_field fs (λ x. record n { faults = x }) n
      else if equal key (codes "pgmajfault")
      then page_field fs (λ x. record n { major_faults = x }) n
      else if has_prefix key (codes "pswp")
      then page_field fs (λ x. record n { swaps = x }) n
      else if has_prefix key (codes "pgscan")
      then page_field fs (λ x. record n { scans = add_word n.scans x }) n
      else lines_read n)

-- The loop over the lines of `vmstat`.
unfoldable pub page_lines : (ℕ → Bool) → ℕ → List Bytes → PageCounts → LinesRead PageCounts
unfolding count_pages fields
page_lines is_done k [] n = lines_read n
page_lines is_done k (l ∷ ls) n =
    if is_done k
    then lines_stopped
    else then_read (count_pages (fields l) n) (page_lines is_done (k + 1) ls)
