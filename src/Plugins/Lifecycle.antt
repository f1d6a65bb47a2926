-- ===== src/Plugins/Lifecycle.antt =====
-- Runs of a plugin, and the metrics drained from it.
use mathlib.Core.Path.{subst}
use circonus_agent.Prelude.{
  ℕ, ◌-◌, ◌<◌, ◌≡◌, refl, sym, ◌⊎◌, inl, inr, Bool, true, false, ◌&&◌, Option, none, some, List, [],
  ◌∷◌, ◌++◌, arith, ltb, ◌==◌, Bool-cases,
}
use circonus_agent.Prelude.Bytes.{Bytes, is_empty, join}
use circonus_agent.Plugins.Output.{Lib, Metrics}
use circonus_agent.Plugins.Run.{
  ExecError, Execution, Plugin, drain, Parsed, decoded, parse_plugin_output, reset_status,
  after_parse, scan, Executed, finish, begun, exec, ttl_not_expired, stdout_pipe, cmd_start, parsed,
  panics, executed, goes_on, exec_panics,
}

-- No line is blank.
abbrev NoBlank : List Bytes → Type 0
NoBlank [] = Unit {0}
NoBlank (l ∷ ls) = (is_empty l ≡ false) × NoBlank ls

NoBlank-append :
    (ls : List Bytes) (c : ℕ) (line : Bytes) → NoBlank ls → NoBlank (ls ++ ((c ∷ line) ∷ []))
NoBlank-append [] c line h = (refl, tt)
NoBlank-append (l ∷ ls) c line (e, h) = (e, NoBlank-append ls c line h)

module _ (lib : Lib) where
  -- What parsing leaves alone.
  abbrev Parses : Plugin lib → Parsed lib → Type 0
  Parses p (parsed q e) = q.running ≡ p.running
  Parses p panics = ⊥

  parse_plugin_output-Parses :
      (p : Plugin lib) (lines : List Bytes)
      → NoBlank lines
      → Parses p (parse_plugin_output lib p lines)
  unfolding parse_plugin_output
  parse_plugin_output-Parses p [] h = refl
  parse_plugin_output-Parses p ([] ∷ lines) h = absurd (ground (arith, h.0))
  parse_plugin_output-Parses p ((c ∷ line) ∷ lines) h = elim (Bool-cases (c == b'{')) [
    | inr tabs ↦ rw tabs refl
    | inl brace ↦ rw brace (go (lib.decode (join (10 ∷ []) ((c ∷ line) ∷ lines))))
  ]
    where
      go : (o : Option (List (Bytes × Bytes × List Bytes × lib.Json))) → Parses p (decoded lib p o)
      go none = refl
      go (some jm) = refl

  abbrev Scans : Bool → Option (Plugin lib) → Type 0
  Scans running none = ⊥
  Scans running (some q) = q.running ≡ running

  after_parse-some :
      (p : Plugin lib) (d : Parsed lib)
      → Parses p d
      → (q : Plugin lib) × (after_parse lib d ≡ some q) × (q.running ≡ p.running)
  after_parse-some p (parsed q e) h = (q, refl, h)
  after_parse-some p panics h = absurd h

  parsed-Scans :
      (p : Plugin lib) (buffer : List Bytes)
      → NoBlank buffer
      → Scans p.running (after_parse lib (parse_plugin_output lib p buffer))
  parsed-Scans p buffer h =
      let (q, e, r) = after_parse-some p _ (parse_plugin_output-Parses p buffer h) in rw e r

  scan-Scans :
      (ends : Bool) (p : Plugin lib) (buffer lines : List Bytes)
      → NoBlank buffer
      → Scans p.running (scan lib ends p buffer lines)
  unfolding scan
  scan-Scans true p buffer [] h = parsed-Scans p buffer h
  scan-Scans false p buffer [] h = refl
  scan-Scans ends p buffer ([] ∷ lines) h =
      let (q, e, r) = after_parse-some p _ (parse_plugin_output-Parses p buffer h) in
      rw (e, scan)
        (subst (λ b. Scans b (scan lib ends q [] lines)) r (scan-Scans ends q [] lines tt))
  scan-Scans ends p buffer ((c ∷ line) ∷ lines) h =
      scan-Scans ends p (buffer ++ ((c ∷ line) ∷ [])) lines (NoBlank-append buffer c line h)

  -- The time to live of a plugin is not over.
  abbrev pub IsEarly : Plugin lib → Execution → Type 0
  IsEarly p x = (0 < p.run_ttl) × (x.started - p.last_end < p.run_ttl)

  -- What a call of `exec` leaves. One that has returned has not touched the plugin, if it came too early or
  -- the plugin is running, or else it has run it: the plugin is free again, and holds the error returned and
  -- the time of the end. Only a command that does not end goes on, with a plugin that was idle and due and
  -- is now marked as running.
  abbrev pub IsExclusive : Plugin lib → Execution → Executed lib → Type 0
  IsExclusive p x (executed q e) =
      ((q ≡ p) × ((IsEarly p x × (e ≡ some ttl_not_expired)) ⊎ ((p.running ≡ true) × (e ≡ none))))
      ⊎ ((p.running ≡ false)
          × (IsEarly p x → ⊥)
          × (q.running ≡ false)
          × (q.last_error ≡ e)
          × (q.last_end ≡ x.ended))
  IsExclusive p x (goes_on q) =
      (p.running ≡ false)
      × (IsEarly p x → ⊥)
      × (q.running ≡ true)
      × ((x.output_ends && x.exits) ≡ false)
  IsExclusive p x exec_panics = ⊥

  -- A run that is made.
  finish-IsExclusive :
      (p : Plugin lib) (x : Execution) (o : Option (Plugin lib))
      → p.running ≡ false
      → (IsEarly p x → ⊥)
      → Scans true o
      → IsExclusive p x (finish lib x o)
  finish-IsExclusive p x none idle due h = absurd h
  finish-IsExclusive p x (some q) idle due h = elim (Bool-cases (x.output_ends && x.exits)) [
    | inl over ↦ rw over (inr (idle, due, refl, refl, refl))
    | inr on ↦ rw on (idle, due, h, on)
  ]

  by_result :
      (p : Plugin lib) (x : Execution) (r : Executed lib)
      → exec lib p x ≡ r
      → IsExclusive p x r
      → IsExclusive p x (exec lib p x)
  by_result p x r e h = subst (IsExclusive p x) (sym e) h

  made-IsExclusive :
      (p : Plugin lib) (x : Execution)
      → p.running ≡ false
      → (ltb 0 p.run_ttl && ltb (x.started - p.last_end) p.run_ttl) ≡ false
      → (IsEarly p x → ⊥)
      → IsExclusive p x (exec lib p x)
  unfolding exec
  made-IsExclusive p x idle due late = elim (Bool-cases x.has_pipe) [
    | inr no_pipe ↦
        by_result p x
          (executed (reset_status lib (begun lib p x) x.ended (some stdout_pipe))
            (some stdout_pipe))
          (rw (due, idle, no_pipe)) (inr (idle, late, refl, refl, refl))
    | inl pipe ↦ elim (Bool-cases x.starts) [
      | inr no_start ↦
          by_result p x
            (executed (reset_status lib (begun lib p x) x.ended (some cmd_start)) (some cmd_start))
            (rw (due, idle, pipe, no_start)) (inr (idle, late, refl, refl, refl))
      | inl start ↦
          by_result p x (finish lib x (scan lib x.output_ends (begun lib p x) [] x.lines))
            (rw (due, idle, pipe, start))
            (finish-IsExclusive p x (scan lib x.output_ends (begun lib p x) [] x.lines) idle late
              (scan-Scans x.output_ends (begun lib p x) [] x.lines tt))
    ]
  ]

  -- A call of `exec` does not panic, whatever the output is. A plugin that is running, or whose time to
  -- live is not over, is left as it is; every other is run. Where that run returns, also where the command
  -- could not be started, the plugin is free for the next one, with the error returned and the time of the
  -- end. It does not return only where the output does not end or the command does not exit; the plugin is
  -- then marked as running.
  pub exec-IsExclusive : (p : Plugin lib) (x : Execution) → IsExclusive p x (exec lib p x)
  unfolding exec
  exec-IsExclusive p x =
      elim (Bool-cases (ltb 0 p.run_ttl && ltb (x.started - p.last_end) p.run_ttl)) [
        | inl early ↦
            by_result p x (executed p (some ttl_not_expired)) (rw early)
              (inl (refl, inl ((ground arith, ground arith), refl)))
        | inr due ↦ elim (Bool-cases p.running) [
          | inl busy ↦
              by_result p x (executed p none) (rw (due, busy)) (inl (refl, inr (busy, refl)))
          | inr idle ↦ made-IsExclusive p x idle due (λ early. ground (arith, early.0, early.1))
        ]
      ]

  next_scan :
      (ends : Bool) (o : Option (Plugin lib)) (lines : List Bytes) (q : Plugin lib)
      → (elim o [ none ↦ none | some r ↦ scan lib ends r [] lines ]) ≡ some q
      → (r : Plugin lib) × (scan lib ends r [] lines ≡ some q)
  next_scan ends none lines q h = absurd (ground arith)
  next_scan ends (some r) lines q h = (r, h)

  scan_blank_end :
      (p q : Plugin lib) (buffer lines : List Bytes)
      → scan lib true p buffer (lines ++ ([] ∷ [])) ≡ some q
      → q.metrics ≡ some []
  unfolding scan
  scan_blank_end p q buffer [] h =
      let (r, k) = next_scan true (after_parse lib (parse_plugin_output lib p buffer)) [] q h in
      ground arith
  scan_blank_end p q buffer ([] ∷ lines) h =
      let (r, k) =
        next_scan true (after_parse lib (parse_plugin_output lib p buffer)) (lines ++ ([] ∷ [])) q
          h in
      scan_blank_end r q [] lines k
  scan_blank_end p q buffer ((c ∷ line) ∷ lines) h =
      scan_blank_end p q (buffer ++ ((c ∷ line) ∷ [])) lines h

  finish_blank_end :
      (p q : Plugin lib) (x : Execution) (e : Option ExecError) (o : Option (Plugin lib))
      → ((r : Plugin lib) → o ≡ some r → r.metrics ≡ some [])
      → finish lib x o ≡ executed q e
      → q.metrics ≡ some []
  finish_blank_end p q x e none k h = absurd (ground arith)
  finish_blank_end p q x e (some r) k h = elim (Bool-cases (x.output_ends && x.exits)) [
    | inl over ↦ ground (arith, k r refl)
    | inr on ↦ absurd (ground arith)
  ]

  -- The bug: where a command runs and the last line of its output is blank, the plugin holds no metrics
  -- at the end of the run, whatever was put out before that line.
  pub exec_blank_end :
      (p q : Plugin lib) (x : Execution) (e : Option ExecError) (lines : List Bytes)
      → p.running ≡ false
      → p.run_ttl ≡ 0
      → x.has_pipe ≡ true
      → x.starts ≡ true
      → x.output_ends ≡ true
      → x.lines ≡ lines ++ ([] ∷ [])
      → exec lib p x ≡ executed q e
      → q.metrics ≡ some []
  unfolding exec
  exec_blank_end p q x e lines idle ttl pipe start over l h =
      finish_blank_end p q x e (scan lib x.output_ends (begun lib p x) [] x.lines)
        (λ r k. scan_blank_end (begun lib p x) r [] lines (rw (over, l) at k)) (ground arith)

  -- A plugin that holds metrics gives these out, and what has been drained once is drained again by the
  -- next call.
  pub drain_again :
      (p : Plugin lib)
      → ((drain lib (drain lib p).1).0 ≡ (drain lib p).0)
        × ((m : Metrics lib) → p.metrics ≡ some m → (drain lib p).0 ≡ m)
  unfolding drain
  drain_again p = (ground arith, λ m e. ground arith)
