-- ===== src/Plugins/Reserved.antt =====
-- The names under which the scan of the directory makes plugins active.
use circonus_agent.Prelude.{
  ℕ, ◌≡◌, refl, sym, ◌∙◌, inl, inr, Bool, true, false, not, ◌&&◌, ◌||◌, Option, none, some, List,
  [], ◌∷◌, ◌++◌, arith, Bool-cases, Option-cases,
}
use circonus_agent.Prelude.Bytes.{Bytes, equal, equal_exact, equal_refl, has_byte}
use circonus_agent.Prelude.Strconv.{lookup, assign, lookup-assign}
use circonus_agent.Plugins.Output.{Lib}
use circonus_agent.Plugins.Manager.{name_separator, reserved_names, is_one_of, is_internal, Entry}
use circonus_agent.Plugins.Names.{
  FileInfo, Files, file_base, may_execute, command_of, passed_over, split_path, regular,
}
use circonus_agent.Plugins.Scanning.{
  fresh_entry, activate, activate_instances, activate_configured, activate_command, scan_file,
  scan_files, verify_files,
}

-- A name that is no internal server's, and no builtin collector's unless it is an instance's.
abbrev pub allowed : (Bytes → Bool) → Bytes → Bool
allowed is_builtin id = not (is_internal id) && (not (is_builtin id) || has_byte b'`' id)

-- Whether some text of a list has the byte.
abbrev any_has : ℕ → List Bytes → Bool
any_has b [] = false
any_has b (k ∷ ks) = has_byte b k || any_has b ks

has_byte_middle : (b : ℕ) (s t : Bytes) → has_byte b (s ++ (b ∷ t)) ≡ true
unfolding has_byte
has_byte_middle b [] t = ground arith
has_byte_middle b (c ∷ s) t = ground (arith, has_byte_middle b s t)

one_of-has_byte :
    (b : ℕ) (id : Bytes) (names : List Bytes)
    → any_has b names ≡ false
    → is_one_of id names ≡ true
    → has_byte b id ≡ false
one_of-has_byte b id [] p h = absurd (ground arith)
one_of-has_byte b id (k ∷ ks) p h = elim (Bool-cases (equal k id)) [
  | inl same ↦ rw (sym ((equal_exact k id).0 same)) (ground arith)
  | inr differs ↦ one_of-has_byte b id ks (ground arith) (ground arith)
]

no_separator : any_has b'`' reserved_names ≡ false
unfolding has_byte
no_separator = refl

separator-is_internal : (id : Bytes) → has_byte b'`' id ≡ true → is_internal id ≡ false
unfolding is_internal
separator-is_internal id h = ground (arith, one_of-has_byte b'`' id reserved_names no_separator)

instance-allowed :
    (is_builtin : Bytes → Bool) (base inst : Bytes)
    → allowed is_builtin (base ++ (name_separator ++ inst)) ≡ true
instance-allowed is_builtin base inst = ground (
  arith,
  has_byte_middle b'`' base inst,
  separator-is_internal (base ++ (name_separator ++ inst)),
)

base-allowed :
    (f : Files) (is_builtin : Bytes → Bool) (name : Bytes)
    → passed_over f name ≡ false
    → is_builtin (file_base name) ≡ false
    → allowed is_builtin (file_base name) ≡ true
unfolding passed_over is_internal
base-allowed f is_builtin name p b = ground arith

module _ (lib : Lib) where
  abbrev pub AllAllowed : (Bytes → Bool) → List (Bytes × Entry lib) → Type 0
  AllAllowed is_builtin [] = Unit {0}
  AllAllowed is_builtin ((id, e) ∷ es) = (allowed is_builtin id ≡ true) × AllAllowed is_builtin es

  assign-AllAllowed :
      (is_builtin : Bytes → Bool) (name : Bytes) (e : Entry lib) (es : List (Bytes × Entry lib))
      → allowed is_builtin name ≡ true
      → AllAllowed is_builtin es
      → AllAllowed is_builtin (assign name e es)
  unfolding assign
  assign-AllAllowed is_builtin name e [] a h = (a, tt)
  assign-AllAllowed is_builtin name e ((id, e') ∷ es) a (own, h) =
      elim (Bool-cases (equal id name)) [
        | inl same ↦ rw same (own, h)
        | inr differs ↦ rw differs (own, assign-AllAllowed is_builtin name e es a h)
      ]

  activate-AllAllowed :
      (is_builtin : Bytes → Bool) (name : Bytes) (fresh : Entry lib) (command : Bytes)
      (es : List (Bytes × Entry lib))
      → allowed is_builtin name ≡ true
      → AllAllowed is_builtin es
      → AllAllowed is_builtin (activate lib name fresh command es)
  unfolding activate
  activate-AllAllowed is_builtin name fresh command es a h = elim (Option-cases (lookup name es)) [
    | inl new ↦ rw new (assign-AllAllowed is_builtin name _ es a h)
    | inr (e, known) ↦ rw known (assign-AllAllowed is_builtin name _ es a h)
  ]

  activate_instances-AllAllowed :
      (f : Files) (is_builtin : Bytes → Bool) (dir base command : Bytes)
      (cfg : List (Bytes × List Bytes)) (es : List (Bytes × Entry lib))
      → AllAllowed is_builtin es
      → AllAllowed is_builtin (activate_instances lib f dir base command cfg es)
  unfolding activate_instances
  activate_instances-AllAllowed f is_builtin dir base command [] es h = h
  activate_instances-AllAllowed f is_builtin dir base command ((inst, args) ∷ cfg) es h =
      activate_instances-AllAllowed f is_builtin dir base command cfg _ (
        activate-AllAllowed is_builtin (base ++ (name_separator ++ inst))
          (fresh_entry lib f dir base (base ++ (name_separator ++ inst)) inst args) command es
          (instance-allowed is_builtin base inst) h)

  scan_file-AllAllowed :
      (f : Files) (dir : Bytes) (is_builtin : Bytes → Bool) (fi : FileInfo)
      (es : List (Bytes × Entry lib))
      → AllAllowed is_builtin es
      → AllAllowed is_builtin (scan_file lib f dir is_builtin fi es)
  unfolding scan_file
  scan_file-AllAllowed f dir is_builtin fi es h =
      elim (Bool-cases (fi.is_dir || passed_over f fi.name)) [
        | inl passed ↦ rw passed h
        | inr taken ↦
            rw taken (commanded (command_of (f.join_path dir fi.name) fi.kind) (ground arith))
      ]
    where
      configured :
          (command : Bytes) (cfg : Option (List (Bytes × List Bytes)))
          → passed_over f fi.name ≡ false
          → is_builtin (file_base fi.name) ≡ false
          → AllAllowed is_builtin (activate_configured lib f dir (file_base fi.name) command cfg es)
      configured command none p b =
          activate-AllAllowed is_builtin (file_base fi.name)
            (fresh_entry lib f dir (file_base fi.name) (file_base fi.name) [] []) command es
            (base-allowed f is_builtin fi.name p b) h
      configured command (some cfg) p b =
          activate_instances-AllAllowed f is_builtin dir (file_base fi.name) command cfg es h

      commanded :
          (command : Option Bytes)
          → passed_over f fi.name ≡ false
          → AllAllowed is_builtin
              (activate_command lib f dir is_builtin (file_base fi.name) fi.perm command es)
      commanded none p = h
      commanded (some command) p = elim (Bool-cases (may_execute f fi.perm)) [
        | inr no_bit ↦ rw no_bit h
        | inl bits ↦ elim (Bool-cases (is_builtin (file_base fi.name))) [
          | inl builtin ↦ rw (bits, builtin) h
          | inr plain ↦
              rw (bits, plain) (configured command (f.config_of (file_base fi.name)) p plain)
        ]
      ]

  -- After a scan of the plugin directory no plugin is active under the name of an internal server, and
  -- none under a builtin collector's but instances, if it was so before.
  pub scan_files-AllAllowed :
      (f : Files) (dir : Bytes) (is_builtin : Bytes → Bool) (fis : List FileInfo)
      (es : List (Bytes × Entry lib))
      → AllAllowed is_builtin es
      → AllAllowed is_builtin (scan_files lib f dir is_builtin fis es)
  unfolding scan_files
  scan_files-AllAllowed f dir is_builtin [] es h = h
  scan_files-AllAllowed f dir is_builtin (fi ∷ fis) es h =
      scan_files-AllAllowed f dir is_builtin fis _ (scan_file-AllAllowed f dir is_builtin fi es h)

  activate-lookup :
      (name : Bytes) (fresh : Entry lib) (command : Bytes) (es : List (Bytes × Entry lib))
      → (e : Entry lib) × (lookup name (activate lib name fresh command es) ≡ some e)
        × (e.command ≡ command)
  unfolding activate
  activate-lookup name fresh command es = elim (Option-cases (lookup name es)) [
    | inl new ↦ (
      record fresh { command = command },
      rw (new, activate) (lookup-assign name name _ es ∙ (rw (equal_refl name) refl)),
      refl,
    )
    | inr (e, known) ↦ (
      record e { command = command },
      rw (known, activate) (lookup-assign name name _ es ∙ (rw (equal_refl name) refl)),
      refl,
    )
  ]

  -- The list of plugins has no such check: a file of the list that may be executed is active under its
  -- base name, also where that is an internal server's.
  pub verify_files_active :
      (f : Files) (spec : Bytes) (fi : FileInfo) (es : List (Bytes × Entry lib))
      → f.stat spec ≡ some fi
      → fi.kind ≡ regular
      → may_execute f fi.perm ≡ true
      → (e : Entry lib) × (lookup
            (file_base (split_path spec).1)
            (verify_files lib f (spec ∷ []) es)
          ≡ some e)
        × (e.command ≡ spec)
  unfolding verify_files activate
  verify_files_active f spec fi es found kind bits =
      let base = file_base (split_path spec).1 in
      let fresh = fresh_entry lib f (split_path spec).0 base base [] [] in
      let (e, at, is) = activate-lookup base fresh spec es in (e, rw (found, kind, bits) at, is)
