-- ===== src/Reverse/Connection/Outcomes.antt =====
-- How `Start` returns.
use circonus_agent.Prelude.Int.{count_ge, ne_minus_one}
use circonus_agent.Prelude.{
  ◌+◌, ◌%◌, ◌≤◌, ◌<◌, ◌≡◌, refl, ◌≢◌, ◌⊎◌, inl, inr, Bool, true, false, ◌&&◌, Option, none, some,
  List, [], ◌∷◌, arith, ltb, ◌==◌, if◌then◌else◌, Bool-cases, length,
}
use circonus_agent.Reverse.Frame.{Reader}
use circonus_agent.Reverse.Send.{Writer, Sent, send_metric_data}
use circonus_agent.Reverse.Command.{Connection, Command, read_command, process_command}
use circonus_agent.Reverse.Command.Exchange.{process_command-read_command_not_fatal}
use circonus_agent.Reverse.Connection.{
  config_retry_limit, DialOutcome, Dial, ConnectError, Connected, after_dial, delayed, connect,
  OpError, refresh_error, Next, after_send, handle_result, Round, serve_round, serve, Session,
  after_serving, start, dialled, timed_out, refused, intro_failed, max_attempts, check_refresh,
  dial_timeout, dial_failed, intro_write, conn_error, go_on, reconnect, finished, failed, running,
  returned,
}
use circonus_agent.Reverse.Connection.Serving.{serve_cons}
use circonus_agent.Reverse.Connection.Lifetime.{start_cases}

after_send_error :
    (o : Option Sent) (cmd : Command) (c : Connection) {x : OpError}
    → (after_send o cmd c).next ≡ failed x
    → x ≡ refresh_error
after_send_error none cmd c h = ground arith
after_send_error (some s) cmd c h = ground arith

handle_result_error :
    (done : Bool) (w : Writer) (c : Connection) (cmd : Command) {x : OpError}
    → cmd.fatal ≡ false
    → (handle_result done w c cmd).next ≡ failed x
    → x ≡ refresh_error
unfolding handle_result
handle_result_error done w c cmd z h =
    ground (arith, after_send_error (send_metric_data w cmd.channel_id cmd.metrics) cmd c)

serve_error :
    (xs : List Round) (c : Connection) (r : Reader) (x : OpError)
    → (serve xs c r).0 ≡ failed x
    → x ≡ refresh_error
unfolding serve
serve_error [] c r = λ x h. absurd (ground arith)
serve_error (y ∷ ys) c r =
    let p = read_command y.now c r in
    let h = serve_round y p in
    serve_cons (λ q. (x : OpError) → q.0 ≡ failed x → x ≡ refresh_error) h.next h.conn
      (serve ys h.conn p.2) (serve_error ys h.conn p.2)
      λ _ x e.
        handle_result_error y.done y.writer p.1 (process_command y.agent p.0)
          (process_command-read_command_not_fatal y.agent y.now c r) e

-- Every error that `Start` returns asks for the check to be refreshed, and none is fatal.
pub start_errors_refresh :
    (ss : List Session) (c : Connection) (x : OpError)
    → (start ss c).0 ≡ returned x
    → (x.refresh_check ≡ true) × (x.fatal ≡ false)
start_errors_refresh [] c = λ x h. absurd (unfold start in ground arith)
start_errors_refresh (s ∷ ss) c =
    start_cases
      (λ p. (x : OpError) → p.0 ≡ returned x → (x.refresh_check ≡ true) × (x.fatal ≡ false)) s ss c
      (start_errors_refresh ss _) (start_errors_refresh ss _) (λ x e. ground arith)
      (λ x e. absurd (ground arith)) ended
  where
    ended :
        (o : Next)
        → (serve s.rounds (connect s.dial c).1 s.reader).0 ≡ o
        → (x : OpError)
        → (after_serving true (running, c) (o, (serve s.rounds (connect s.dial c).1 s.reader).1)).0
          ≡ returned x
        → (x.refresh_check ≡ true) × (x.fatal ≡ false)
    ended go_on q x e = absurd (ground arith)
    ended reconnect q x e = absurd (ground arith)
    ended finished q x e = absurd (ground arith)
    ended (failed y) q x e = ground (arith, serve_error s.rounds (connect s.dial c).1 s.reader y q)

-- A session whose dial does not come through, with no cancellation in between.
abbrev pub NoAnswer : List Session → Type 0
NoAnswer [] = Unit {0}
NoAnswer (s ∷ ss) = (s.dial.outcome ≢ dialled) × (s.dial.cancelled ≡ false) × NoAnswer ss

abbrev GivesUp : Connection → Connected × Connection → Type 0
GivesUp c p =
    ((e : ConnectError) × (p.0 ≡ conn_error false e))
    ⊎ ((e : ConnectError) × (p.0 ≡ conn_error true e)
        × (p.1.conn_attempts ≡ c.conn_attempts + 1)
        × (c.conn_attempts < config_retry_limit))

after_dial_failing :
    (o : DialOutcome) (c d : Connection)
    → o ≢ dialled
    → d.conn_attempts ≡ c.conn_attempts + 1
    → c.conn_attempts < config_retry_limit
    → GivesUp c (after_dial o d)
after_dial_failing dialled c d n a l = absurd (n refl)
after_dial_failing (timed_out true) c d n a l = inr (dial_timeout, refl, a, l)
after_dial_failing (timed_out false) c d n a l = inl (dial_timeout, refl)
after_dial_failing refused c d n a l = inr (dial_failed, refl, a, l)
after_dial_failing intro_failed c d n a l = inr (intro_write, refl, a, l)

connect_failing :
    (d : Dial) (c : Connection)
    → d.outcome ≢ dialled
    → d.cancelled ≡ false
    → c.conn_attempts ≤ config_retry_limit
    → GivesUp c (connect d c)
unfolding connect
connect_failing d c n k l = elim (Bool-cases (ltb 0 c.conn_attempts)) [
  | inr first ↦ rw first (after_dial_failing d.outcome c _ n refl (ground arith))
  | inl again ↦
      elim (Bool-cases
        (ne_minus_one c.max_conn_retry && count_ge c.conn_attempts c.max_conn_retry)) [
          | inl most ↦ rw (again, most) (inl (max_attempts, refl))
          | inr more ↦ elim (Bool-cases (c.conn_attempts % config_retry_limit == 0)) [
            | inl third ↦ rw (again, more, k, third) (inl (check_refresh, refl))
            | inr below ↦
                rw (again, more, k, below)
                  (after_dial_failing d.outcome c
                    (record (delayed d c) { conn_attempts = c.conn_attempts + 1 }) n refl
                    (ground arith))
          ]
        ]
]

start_failed :
    (s : Session) (ss : List Session) (c : Connection) (e : ConnectError) (b : Bool)
    → (connect s.dial c).0 ≡ conn_error b e
    → start (s ∷ ss) c ≡ (
        if b then start ss (connect s.dial c).1 else (returned refresh_error, (connect s.dial c).1))
unfolding start
start_failed s ss c e b h = rw (h, start)

-- If no dial comes through, `Start` returns after four calls of `connect` at the latest, also where the
-- configured number of retries is larger, or unlimited.
pub start_gives_up :
    (ss : List Session) (c : Connection)
    → NoAnswer ss
    → c.conn_attempts ≤ config_retry_limit
    → config_retry_limit < length ss + c.conn_attempts
    → (start ss c).0 ≡ returned refresh_error
start_gives_up [] c n l h = absurd (omega arith)
start_gives_up (s ∷ ss) c n l h = elim (connect_failing s.dial c n.0 n.1 l) [
  | inl (e, f) ↦ rw (start_failed s ss c e false f)
  | inr (e, f, a, k) ↦
      rw (start_failed s ss c e true f)
        (start_gives_up ss (connect s.dial c).1 n.2 (omega arith) (omega arith))
]
