-- ===== src/Procfs/Balance.antt =====
-- internal/builtins/collector/linux/procfs/vm.go: the numbers of bytes that are given out for memory and swap.
use circonus_agent.Prelude.{
  ℕ, ◌+◌, ◌-◌, ◌*◌, ◌%◌, ◌≤◌, ◌<◌, ◌≡◌, refl, sym, ap, ◌∙◌, inl, inr, Bool, false, ◌||◌, Option,
  none, some, List, [], ◌∷◌, arith, if◌then◌else◌, Bool-cases,
}
use circonus_agent.Prelude.Bytes.{Bytes, codes, equal}
use circonus_agent.Prelude.Strconv.{parse_uint}
use circonus_agent.Prelude.Decimal.{show_nat, parse_uint-show_nat}
use circonus_agent.Plugins.Output.{Lib, Metrics}
use circonus_agent.Procfs.Common.{fields, Common}
use circonus_agent.Procfs.Memory.{
  LinesRead, word, add_word, subtract_word, MemCounts, no_memory, ht_cached, mem_used,
  mem_free_total, swap_used, count_memory, without_colons, scaled, lines_read, lines_stopped,
  lines_panic,
}
use circonus_agent.Procfs.Vm.{Arith, with_value, memory_fields, memory_lines}
use circonus_agent.Procfs.Reading.{memory_fields-two, memory_fields-more}

-- The numbers fit in 64 bits.
abbrev AreWords : MemCounts → Type 0
AreWords m =
    (m.total < word)
    × (m.free < word)
    × (m.cached < word)
    × (m.buffers < word)
    × (m.reclaimable < word)
    × (m.shared < word)
    × (m.swap_total < word)
    × (m.swap_free < word)

-- The memory that can be used: what is free, buffered, or cached and not shared.
abbrev pub usable_of : MemCounts → ℕ
usable_of m = m.free + m.buffers + (m.cached + m.reclaimable - m.shared)

-- The shared memory is part of the cached and reclaimable; no more can be used than there is; and no more
-- swap is free than there is.
abbrev pub Adds : MemCounts → Type 0
Adds m =
    (m.shared ≤ m.cached + m.reclaimable) × (usable_of m ≤ m.total) × (m.swap_free ≤ m.swap_total)

-- Then none of the sums wraps around.
mem_used_exact :
    (m : MemCounts)
    → AreWords m
    → Adds m
    → (mem_free_total m ≡ usable_of m)
      × (mem_used m ≡ m.total - usable_of m)
      × (swap_used m ≡ m.swap_total - m.swap_free)
unfolding mem_used mem_free_total ht_cached add_word subtract_word swap_used
mem_used_exact m h adds = (
  omega (arith, h.0, h.1, h.2, h.3, h.4, h.5, adds.0, adds.1),
  omega (arith, h.0, h.1, h.2, h.3, h.4, h.5, adds.0, adds.1),
  omega (arith, h.6, h.7, adds.2),
)

-- The names of the lines that are counted.
abbrev pub counted_names : List Bytes
counted_names =
    codes "MemTotal"
    ∷ codes "MemFree"
    ∷ codes "Buffers"
    ∷ codes "Cached"
    ∷ codes "Shmem"
    ∷ codes "SReclaimable"
    ∷ codes "SwapTotal"
    ∷ codes "SwapFree"
    ∷ []

abbrev named_in : Bytes → List Bytes → Bool
named_in name [] = false
named_in name (k ∷ ks) = equal name k || named_in name ks

abbrev pub is_counted : List Bytes → Bool
is_counted [] = false
is_counted (key ∷ more) = named_in (without_colons key) counted_names

-- The fields of the lines of a file that are counted.
unfoldable pub counted_lines : List Bytes → List (List Bytes)
unfolding fields without_colons equal
counted_lines [] = []
counted_lines (l ∷ ls) =
    let rest = counted_lines ls in if is_counted (fields l) then fields l ∷ rest else rest

abbrev kilobytes : Bytes → ℕ → List Bytes
kilobytes key n = key ∷ show_nat n ∷ codes "kB" ∷ []

-- The counted lines of a file that gives numbers of kilobytes, in the order of the kernel.
abbrev pub lines_of : MemCounts → List (List Bytes)
lines_of m =
    kilobytes (codes "MemTotal:") m.total
    ∷ kilobytes (codes "MemFree:") m.free
    ∷ kilobytes (codes "Buffers:") m.buffers
    ∷ kilobytes (codes "Cached:") m.cached
    ∷ kilobytes (codes "SwapTotal:") m.swap_total
    ∷ kilobytes (codes "SwapFree:") m.swap_free
    ∷ kilobytes (codes "Shmem:") m.shared
    ∷ kilobytes (codes "SReclaimable:") m.reclaimable
    ∷ []

-- Numbers of kilobytes as numbers of bytes.
abbrev pub bytes_of : MemCounts → MemCounts
bytes_of m = record {
  total = m.total * 1024;
  free = m.free * 1024;
  cached = m.cached * 1024;
  buffers = m.buffers * 1024;
  reclaimable = m.reclaimable * 1024;
  shared = m.shared * 1024;
  swap_total = m.swap_total * 1024;
  swap_free = m.swap_free * 1024;
}

count_memory_other :
    (name : Bytes) (v : ℕ) (m : MemCounts)
    → named_in name counted_names ≡ false
    → count_memory name v m ≡ m
unfolding count_memory
count_memory_other name v m h = ground arith

small_word : (n : ℕ) → n < word → n % word ≡ n
small_word n h = omega (arith, h)

module _ (lib : Lib) (fl : Arith lib) where
  -- What the value of a line makes of the counts.
  abbrev value_counts : Bytes → Bytes → Option ℕ → MemCounts → MemCounts
  value_counts name unit none m = m
  value_counts name unit (some v) m =
      count_memory name (scaled (equal (lib.to_lower unit) (codes "kb")) v) m

  abbrev line_counts : List Bytes → MemCounts → MemCounts
  line_counts [] m = m
  line_counts (key ∷ []) m = m
  line_counts (key ∷ v ∷ []) m = value_counts (without_colons key) [] (parse_uint 64 v) m
  line_counts (key ∷ v ∷ unit ∷ more) m = value_counts (without_colons key) unit (parse_uint 64 v) m

  counts_from : List (List Bytes) → MemCounts → MemCounts
  counts_from [] m = m
  counts_from (fs ∷ fss) m = counts_from fss (line_counts fs m)

  with_value-counts :
      (c : Common lib) (name unit : Bytes) (o : Option ℕ) (st : MemCounts × Metrics lib)
      → (with_value lib fl c name unit o st).0 ≡ value_counts name unit o st.0
  with_value-counts c name unit none st = refl
  with_value-counts c name unit (some v) st = refl

  -- A line read, and what it makes of the counts.
  memory_fields-counts :
      (c : Common lib) (fs : List Bytes) (st : MemCounts × Metrics lib)
      → (end : MemCounts × Metrics lib) × (memory_fields lib fl c fs st ≡ lines_read end)
        × (end.0 ≡ line_counts fs st.0)
  memory_fields-counts c [] st = (st, unfold memory_fields in refl, refl)
  memory_fields-counts c (key ∷ []) st = (st, unfold memory_fields in refl, refl)
  memory_fields-counts c (key ∷ v ∷ []) st = (
    with_value lib fl c (without_colons key) [] (parse_uint 64 v) st,
    memory_fields-two lib fl c key v st,
    with_value-counts c (without_colons key) [] (parse_uint 64 v) st,
  )
  memory_fields-counts c (key ∷ v ∷ unit ∷ more) st = (
    with_value lib fl c (without_colons key) unit (parse_uint 64 v) st,
    memory_fields-more lib fl c key v unit more st,
    with_value-counts c (without_colons key) unit (parse_uint 64 v) st,
  )

  value_counts_other :
      (name unit : Bytes) (o : Option ℕ) (m : MemCounts)
      → named_in name counted_names ≡ false
      → value_counts name unit o m ≡ m
  value_counts_other name unit none m h = refl
  value_counts_other name unit (some v) m h = count_memory_other name _ m h

  line_counts_other :
      (fs : List Bytes) (m : MemCounts) → is_counted fs ≡ false → line_counts fs m ≡ m
  line_counts_other [] m h = refl
  line_counts_other (key ∷ []) m h = refl
  line_counts_other (key ∷ v ∷ []) m h = value_counts_other (without_colons key) [] _ m h
  line_counts_other (key ∷ v ∷ unit ∷ more) m h = value_counts_other (without_colons key) unit _ m h

  counts_from-counted :
      (l : Bytes) (ls : List Bytes) (m : MemCounts)
      → counts_from (counted_lines (l ∷ ls)) m
        ≡ counts_from (counted_lines ls) (line_counts (fields l) m)
  unfolding counted_lines counts_from
  counts_from-counted l ls m = elim (Bool-cases (is_counted (fields l))) [
    | inl taken ↦ rw taken refl
    | inr passed ↦ rw (passed, line_counts_other (fields l) m passed) refl
  ]

  -- Only the lines that are counted make the counts.
  memory_lines-counts :
      (is_done : ℕ → Bool) (k : ℕ) (c : Common lib) (ls : List Bytes) (st : MemCounts × Metrics lib)
      → ((j : ℕ) → is_done j ≡ false)
      → (end : MemCounts × Metrics lib) × (memory_lines lib fl is_done k c ls st ≡ lines_read end)
        × (end.0 ≡ counts_from (counted_lines ls) st.0)
  unfolding memory_lines
  memory_lines-counts is_done k c [] st never = (st, refl, unfold counted_lines counts_from in refl)
  memory_lines-counts is_done k c (l ∷ ls) st never =
      let (mid, e, counts) = memory_fields-counts c (fields l) st in
      let (end, f, rest) = memory_lines-counts is_done (k + 1) c ls mid never in
      (
        end,
        rw (never k, e) f,
        rest ∙ ap (counts_from (counted_lines ls)) counts ∙ sym (counts_from-counted l ls st.0),
      )

  parsed_number : (n : ℕ) → n * 1024 < word → parse_uint 64 (show_nat n) ≡ some n
  parsed_number n small = parse_uint-show_nat 64 n ∙ ground arith

  counts_from-lines_of :
      (m : MemCounts)
      → lib.to_lower (codes "kB") ≡ codes "kb"
      → AreWords (bytes_of m)
      → counts_from (lines_of m) no_memory ≡ bytes_of m
  unfolding counts_from count_memory without_colons equal
  counts_from-lines_of m lower h =
      rw
        (
          parsed_number m.total h.0,
          parsed_number m.free h.1,
          parsed_number m.cached h.2,
          parsed_number m.buffers h.3,
          parsed_number m.reclaimable h.4,
          parsed_number m.shared h.5,
          parsed_number m.swap_total h.6,
          parsed_number m.swap_free h.7,
          lower,
          small_word (m.total * 1024) h.0,
          small_word (m.free * 1024) h.1,
          small_word (m.cached * 1024) h.2,
          small_word (m.buffers * 1024) h.3,
          small_word (m.reclaimable * 1024) h.4,
          small_word (m.shared * 1024) h.5,
          small_word (m.swap_total * 1024) h.6,
          small_word (m.swap_free * 1024) h.7,
        )
        refl

  -- What the loop has read, by the numbers of kilobytes in the file: the memory used and free (`htUsedTotal`
  -- and `htFreeTotal`) and the swap used, in bytes.
  abbrev pub Measures : MemCounts → LinesRead (MemCounts × Metrics lib) → Type 0
  Measures m (lines_read (n, metrics)) =
      (n.total ≡ m.total * 1024)
      × (mem_free_total n ≡ usable_of m * 1024)
      × (mem_used n ≡ (m.total - usable_of m) * 1024)
      × (swap_used n ≡ (m.swap_total - m.swap_free) * 1024)
  Measures m lines_stopped = ⊥
  Measures m lines_panic = ⊥

  bytes_of-Adds : (m : MemCounts) → Adds m → Adds (bytes_of m)
  bytes_of-Adds m adds =
      (omega (arith, adds.0), omega (arith, adds.0, adds.1), omega (arith, adds.2))

  read-Measures :
      (m : MemCounts) (end : MemCounts × Metrics lib)
      → AreWords (bytes_of m)
      → Adds m
      → end.0 ≡ bytes_of m
      → Measures m (lines_read end)
  read-Measures m (n, metrics) h adds e =
      let exact = mem_used_exact (bytes_of m) h (bytes_of-Adds m adds) in
      rw e (
        refl,
        exact.0 ∙ omega (arith, adds.0),
        exact.1 ∙ omega (arith, adds.0, adds.1),
        exact.2 ∙ omega (arith, adds.2),
      )

  -- Where the eight lines of `meminfo` that are counted are there once each, in the order of the kernel, with
  -- numbers of kilobytes, and whatever other lines there are between them, the memory used and free and the
  -- swap used come to the bytes that these numbers say: free is what is free, buffered, or cached or
  -- reclaimable and not shared, and used is the rest. This is for numbers that fit in 64 bits as bytes and
  -- that do not contradict each other (no more shared than cached or reclaimable, no more free than there
  -- is), a context that is not done, and a `strings.ToLower` that writes `kB` as `kb`.
  pub meminfo_exact :
      (is_done : ℕ → Bool) (c : Common lib) (ls : List Bytes) (m : MemCounts)
      → ((k : ℕ) → is_done k ≡ false)
      → lib.to_lower (codes "kB") ≡ codes "kb"
      → counted_lines ls ≡ lines_of m
      → AreWords (bytes_of m)
      → Adds m
      → Measures m (memory_lines lib fl is_done 0 c ls (no_memory, []))
  meminfo_exact is_done c ls m never lower file h adds =
      let (end, e, counts) = memory_lines-counts is_done 0 c ls (no_memory, []) never in
      rw e (read-Measures m end h adds (rw file at counts ∙ counts_from-lines_of m lower h))
