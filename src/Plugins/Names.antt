-- ===== src/Plugins/Names.antt =====
-- internal/plugins/scan.go: what the scans read, and the names of files.
use circonus_agent.Prelude.{
  ℕ, zero, suc, ◌-◌, ◌/◌, ◌%◌, Bool, true, false, not, ◌&&◌, ◌||◌, Option, none, some, List, [],
  ◌∷◌, ◌++◌, ◌==◌, if◌then◌else◌, length, drop,
}
use circonus_agent.Prelude.Bytes.{Bytes, codes, is_empty, equal, has_prefix, has_byte}
use circonus_agent.Plugins.Manager.{reserved_names, is_one_of}

-- `mode.IsRegular()`, `mode&os.ModeSymlink != 0` with what the link is resolved to, if it can be, or
-- another kind of file.
pub data FileKind : Type 0 where
  regular : FileKind
  symlink : Option Bytes → FileKind
  other_kind : FileKind

-- An entry of the directory, or what `os.Stat` says of a file.
pub record FileInfo : Type 0 where
  pub name : Bytes
  pub is_dir : Bool
  pub kind : FileKind
  pub perm : ℕ

-- What the scan reads of the system and of the configuration: the directory's entries (if it can be
-- read), the configuration file for a name (`none` where there is nothing that can be used), `os.Stat` of
-- a path, the units of a time to live, `time.ParseDuration` (in nanoseconds, 0 if it is negative, which a
-- run treats alike), whether it is Windows, the base tags, `strings.ToLower` and `filepath.Join`.
pub record Files : Type 0 where
  pub entries : Option (List FileInfo)
  pub config_of : Bytes → Option (List (Bytes × List Bytes))
  pub stat : Bytes → Option FileInfo
  pub ttl_units : Bytes
  pub parse_duration : Bytes → Option ℕ
  pub windows : Bool
  pub base_tags : List Bytes
  pub to_lower : Bytes → Bytes
  pub join_path : Bytes → Bytes → Bytes

-- `filepath.Ext`: from the last dot of the last element on.
abbrev pub ext_onto : ℕ → Bytes → Option Bytes → Option Bytes
ext_onto c s (some e) = some e
ext_onto c s none = if c == b'.' then some (c ∷ s) else none

abbrev or_nothing : Option Bytes → Bytes
or_nothing none = []
or_nothing (some s) = s

unfoldable pub last_dot : Bytes → Option Bytes
last_dot [] = none
last_dot (c ∷ s) = ext_onto c s (last_dot s)

unfoldable pub ext : Bytes → Bytes
unfolding last_dot
ext name = or_nothing (last_dot name)

-- `strings.ReplaceAll(s, old, "")`; the first argument is how many bytes belong to the last occurrence
-- still.
unfoldable pub remove_all_from : ℕ → Bytes → Bytes → Bytes
unfolding has_prefix
remove_all_from skip old [] = []
remove_all_from (suc skip) old (c ∷ s) = remove_all_from skip old s
remove_all_from zero old (c ∷ s) =
    let keeping = c ∷ remove_all_from zero old s in
    let removing = remove_all_from (length old - 1) old s in
    if has_prefix (c ∷ s) old then removing else keeping

-- The name of a file without its extension, as the code takes it.
unfoldable pub file_base : Bytes → Bytes
unfolding ext remove_all_from
file_base name = if is_empty (ext name) then name else remove_all_from 0 (ext name) name

-- The group of the regular expression `_ttl(.+)$`, in which a dot is any byte but a line feed.
unfoldable pub ttl_group : Bytes → Option Bytes
unfolding has_prefix has_byte
ttl_group [] = none
ttl_group (c ∷ s) =
    let later = ttl_group s in
    let rest = drop 4 (c ∷ s) in
    if has_prefix (c ∷ s) (codes "_ttl") && (not (is_empty rest) && not (has_byte 10 rest))
    then some rest
    else later

-- `(ms|s|m|h)$`.
abbrev pub has_unit : Bytes → Bool
has_unit [] = false
has_unit (c ∷ []) = c == b's' || c == b'm' || c == b'h'
has_unit (c ∷ d ∷ s) = has_unit (d ∷ s)

abbrev or_zero : Option ℕ → ℕ
or_zero none = 0
or_zero (some n) = n

abbrev ttl_of_group : Files → Option Bytes → ℕ
ttl_of_group f none = 0
ttl_of_group f (some ttl) =
    or_zero (f.parse_duration (if has_unit ttl then ttl else ttl ++ f.ttl_units))

unfoldable pub run_ttl_of : Files → Bytes → ℕ
unfolding ttl_group
run_ttl_of f base = ttl_of_group f (ttl_group base)

-- `perm & 0111 == 73`: all three bits of execution.
abbrev pub all_execute : ℕ → Bool
all_execute perm = perm / 64 % 2 == 1 && perm / 8 % 2 == 1 && perm % 2 == 1

abbrev pub may_execute : Files → ℕ → Bool
may_execute f perm = f.windows || all_execute perm

-- The command of a file; `none` where it is passed over.
abbrev pub command_of : Bytes → FileKind → Option Bytes
command_of path regular = some path
command_of path (symlink target) = target
command_of path other_kind = none

-- The names that the scan of the directory passes over.
unfoldable pub passed_over : Files → Bytes → Bool
unfolding equal ext file_base
passed_over f name =
    equal (f.to_lower name) (codes "readme.md")
    || is_empty (file_base name)
    || is_empty (ext name)
    || equal (ext name) (codes ".conf")
    || equal (ext name) (codes ".json")
    || is_one_of (file_base name) reserved_names

abbrev pub onto_path : ℕ → Bytes × Bytes → Bool → Bytes × Bytes
onto_path c (dir, name) true = (c ∷ dir, name)
onto_path c (dir, name) false = (dir, c ∷ name)

-- `filepath.Split`: the directory up to the last slash, and the rest.
unfoldable pub split_path : Bytes → Bytes × Bytes
unfolding has_byte
split_path [] = ([], [])
split_path (c ∷ s) = onto_path c (split_path s) (has_byte b'/' (c ∷ s))
