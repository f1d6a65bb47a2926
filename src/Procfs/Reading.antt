-- ===== src/Procfs/Reading.antt =====
-- internal/builtins/collector/linux/procfs/vm.go, load.go: how the loops over the lines of files end.
use circonus_agent.Prelude.{
  ℕ, ◌+◌, ◌≡◌, refl, ◌≢◌, ◌⊎◌, inl, inr, Bool, true, false, none, List, [], ◌∷◌, arith, ltb,
  if◌then◌else◌, Bool-cases, Option-cases, length,
}
use circonus_agent.Prelude.Bytes.{Bytes, codes, equal, has_prefix}
use circonus_agent.Prelude.Strconv.{parse_uint, parse_int}
use circonus_agent.Plugins.Output.{Lib, Metrics}
use circonus_agent.Procfs.Common.{fields, Common}
use circonus_agent.Procfs.Load.{
  Counters, Counted, count_fields, then_count, count_lines, load_lines, counted, bad_number,
  stopped, out_of_range,
}
use circonus_agent.Procfs.Memory.{
  LinesRead, MemCounts, without_colons, PageCounts, count_pages, page_lines, lines_read,
  lines_stopped, lines_panic,
}
use circonus_agent.Procfs.Vm.{Arith, with_value, memory_fields, memory_lines}

-- The context is done at some question.
abbrev pub IsDone : (ℕ → Bool) → Type 0
IsDone is_done = (k : ℕ) × (is_done k ≡ true)

-- A loop reads on to its end, or stops as the context is done; no index is out of range.
abbrev pub ReadsOn : {A : Type 0} → (ℕ → Bool) → LinesRead A → Type 0
ReadsOn is_done (lines_read x) = Unit {0}
ReadsOn is_done lines_stopped = IsDone is_done
ReadsOn is_done lines_panic = ⊥

-- Some line has a key, and a number behind it that cannot be read.
abbrev pub HasBadNumber : Bytes → List Bytes → Type 0
HasBadNumber key [] = ⊥
HasBadNumber key (l ∷ ls) =
    ((v : Bytes) × (more : List Bytes) × (fields l ≡ key ∷ v ∷ more) × (parse_int 64 v ≡ none))
    ⊎ HasBadNumber key ls

-- What the end of the loop over the lines of `stat` tells of these and of the context.
abbrev pub CountedOn : (ℕ → Bool) → List Bytes → Counted → Type 0
CountedOn is_done ls (counted n) = Unit {0}
CountedOn is_done ls (bad_number key) = HasBadNumber key ls
CountedOn is_done ls stopped = IsDone is_done
CountedOn is_done ls out_of_range = Unit {0}

bad_fields :
    (fs : List Bytes) (n : Counters) (key : Bytes)
    → count_fields fs n ≡ bad_number key
    → (v : Bytes) × (more : List Bytes) × (fs ≡ key ∷ v ∷ more) × (parse_int 64 v ≡ none)
unfolding count_fields
bad_fields [] n key h = absurd (ground arith)
bad_fields (k ∷ []) n key h = absurd (ground arith)
bad_fields (k ∷ v ∷ more) n key h = elim (Option-cases (parse_int 64 v)) [
  | inl bad ↦ (v, more, ground arith, bad)
  | inr (z, good) ↦ absurd (ground arith)
]

no_stop_fields : (fs : List Bytes) (n : Counters) → count_fields fs n ≢ stopped
unfolding count_fields
no_stop_fields [] n h = absurd (ground arith)
no_stop_fields (k ∷ []) n h = absurd (ground arith)
no_stop_fields (k ∷ v ∷ more) n h = absurd (ground arith)

pub count_lines-CountedOn :
    (is_done : ℕ → Bool) (k : ℕ) (ls : List Bytes) (n : Counters)
    → CountedOn is_done ls (count_lines is_done k ls n)
unfolding count_lines
count_lines-CountedOn is_done k [] n = tt
count_lines-CountedOn is_done k (l ∷ ls) n = elim (Bool-cases (is_done k)) [
  | inl over ↦ rw over (k, over)
  | inr going ↦ rw going (
      next (count_fields (fields l) n) (bad_fields (fields l) n) (no_stop_fields (fields l) n)
        (λ m. count_lines-CountedOn is_done (k + 1) ls m))
]
  where
    later : (r : Counted) → CountedOn is_done ls r → CountedOn is_done (l ∷ ls) r
    later (counted m) h = tt
    later (bad_number key) h = inr h
    later stopped h = h
    later out_of_range h = tt

    next :
        (r : Counted)
        → ((key : Bytes)
            → r ≡ bad_number key
            → (v : Bytes) × (more : List Bytes) × (fields l ≡ key ∷ v ∷ more)
              × (parse_int 64 v ≡ none))
        → r ≢ stopped
        → ((m : Counters) → CountedOn is_done ls (count_lines is_done (k + 1) ls m))
        → CountedOn is_done (l ∷ ls) (then_count r (count_lines is_done (k + 1) ls))
    next (counted m) bad stop rest = later (count_lines is_done (k + 1) ls m) (rest m)
    next (bad_number key) bad stop rest = inl (bad key refl)
    next stopped bad stop rest = absurd (stop refl)
    next out_of_range bad stop rest = tt

abbrev IsRead : {A : Type 0} → LinesRead A → Type 0
IsRead {A} r = (x : A) × (r ≡ lines_read x)

if-IsRead :
    {A : Type 0} (b : Bool) {x y : LinesRead A} → IsRead x → IsRead y → IsRead (if b then x else y)
if-IsRead true h k = h
if-IsRead false h k = k

pub count_pages-read :
    (fs : List Bytes) (n : PageCounts) → (m : PageCounts) × (count_pages fs n ≡ lines_read m)
unfolding count_pages
count_pages-read [] n = (n, ground arith)
count_pages-read (key ∷ []) n = (n, ground arith)
count_pages-read (key ∷ v ∷ []) n =
    if-IsRead (equal key (codes "pgfault")) (_, refl)
      (if-IsRead (equal key (codes "pgmajfault")) (_, refl)
        (if-IsRead (has_prefix key (codes "pswp")) (_, refl)
          (if-IsRead (has_prefix key (codes "pgscan")) (_, refl) (n, refl))))
count_pages-read (key ∷ v ∷ u ∷ more) n = (n, ground arith)

pub page_lines-ReadsOn :
    (is_done : ℕ → Bool) (k : ℕ) (ls : List Bytes) (n : PageCounts)
    → ReadsOn is_done (page_lines is_done k ls n)
unfolding page_lines
page_lines-ReadsOn is_done k [] n = tt
page_lines-ReadsOn is_done k (l ∷ ls) n = elim (Bool-cases (is_done k)) [
  | inl over ↦ rw over (k, over)
  | inr going ↦
      let (m, e) = count_pages-read (fields l) n in
      rw (going, e) (page_lines-ReadsOn is_done (k + 1) ls m)
]

module _ (lib : Lib) (fl : Arith lib) where
  pub memory_fields-two :
      (c : Common lib) (key v : Bytes) (st : MemCounts × Metrics lib)
      → memory_fields lib fl c (key ∷ v ∷ []) st
        ≡ lines_read (with_value lib fl c (without_colons key) [] (parse_uint 64 v) st)
  unfolding memory_fields
  memory_fields-two c key v st = refl

  pub memory_fields-more :
      (c : Common lib) (key v unit : Bytes) (more : List Bytes) (st : MemCounts × Metrics lib)
      → memory_fields lib fl c (key ∷ v ∷ unit ∷ more) st
        ≡ lines_read (with_value lib fl c (without_colons key) unit (parse_uint 64 v) st)
  unfolding memory_fields
  memory_fields-more c key v unit more st = rw (long, longer) refl
    where
      long : ltb (length (key ∷ v ∷ unit ∷ more)) 2 ≡ false
      long = ground arith

      longer : ltb 2 (length (key ∷ v ∷ unit ∷ more)) ≡ true
      longer = ground arith

  memory_fields-read :
      (c : Common lib) (fs : List Bytes) (st : MemCounts × Metrics lib)
      → (end : MemCounts × Metrics lib) × (memory_fields lib fl c fs st ≡ lines_read end)
  unfolding memory_fields
  memory_fields-read c [] st = (st, refl)
  memory_fields-read c (key ∷ []) st = (st, refl)
  memory_fields-read c (key ∷ v ∷ []) st = (_, memory_fields-two c key v st)
  memory_fields-read c (key ∷ v ∷ unit ∷ more) st = (_, memory_fields-more c key v unit more st)

  pub memory_lines-ReadsOn :
      (is_done : ℕ → Bool) (k : ℕ) (c : Common lib) (ls : List Bytes) (st : MemCounts × Metrics lib)
      → ReadsOn is_done (memory_lines lib fl is_done k c ls st)
  unfolding memory_lines
  memory_lines-ReadsOn is_done k c [] st = tt
  memory_lines-ReadsOn is_done k c (l ∷ ls) st = elim (Bool-cases (is_done k)) [
    | inl over ↦ rw over (k, over)
    | inr going ↦
        let (m, e) = memory_fields-read c (fields l) st in
        rw (going, e) (memory_lines-ReadsOn is_done (k + 1) c ls m)
  ]

module _ (lib : Lib) where
  pub load_lines-stop :
      (is_done : ℕ → Bool) (k : ℕ) (c : Common lib) (ls : List Bytes) (m : Metrics lib)
      → load_lines lib is_done k c ls m ≡ none
      → IsDone is_done
  unfolding load_lines
  load_lines-stop is_done k c [] m h = absurd (ground arith)
  load_lines-stop is_done k c (l ∷ ls) m h = elim (Bool-cases (is_done k)) [
    | inl over ↦ (k, over)
    | inr going ↦ load_lines-stop is_done (k + 1) c ls _ (rw going at h)
  ]
