-- ===== src/Reverse/Connection.antt =====
-- internal/reverse/connection/connection.go: connecting to the broker and serving its commands.
pub mod Backoff
pub mod Serving
pub mod Lifetime
pub mod Outcomes
use circonus_agent.Prelude.{
  ℕ, ◌+◌, ◌-◌, ◌*◌, ◌%◌, Bool, true, false, not, ◌&&◌, Option, none, some, List, [], ◌∷◌, ltb, ◌==◌,
  if◌then◌else◌,
}
use circonus_agent.Prelude.Int.{ℤ, count_ge, ne_minus_one}
use circonus_agent.Prelude.Bytes.{Bytes, is_empty}
use circonus_agent.Reverse.Frame.{Reader, err, read}
use circonus_agent.Reverse.Send.{Writer, Sent, send_metric_data}
use circonus_agent.Reverse.Command.{
  Connection, Command, read_command, Agent, has_error, process_command, new, active, idle,
}

abbrev pub second : ℕ
second = 1_000_000_000

abbrev pub max_delay : ℕ
max_delay = 10 * second

abbrev pub min_delay_step : ℕ
min_delay_step = 1

abbrev pub max_delay_step : ℕ
max_delay_step = 7

abbrev pub config_retry_limit : ℕ
config_retry_limit = 3

abbrev pub new_connection : ℤ → Connection
new_connection max_conn_retry = record {
  last_request_time = none;
  state = new;
  delay = 1 * second;
  comm_timeouts = 0;
  conn_attempts = 0;
  max_conn_retry = max_conn_retry;
}

pub data Created : Type 0 where
  created : Connection → Created
  no_agent_address no_config : Created

-- `New`; the flag says whether there is a configuration.
unfoldable pub create : Bytes → Bool → ℤ → Created
create agent_address has_config max_conn_retry =
    if is_empty agent_address
    then no_agent_address
    else if not has_config
    then no_config
    else created (new_connection max_conn_retry)

-- `rand.Intn(n)` is some number below `n`: every one, as `random` varies.
abbrev pub intn : ℕ → ℕ → ℕ
intn n random = random % n

abbrev drifted : ℕ → ℕ → ℕ
drifted random delay =
    if ltb delay max_delay
    then delay + (intn (max_delay_step - min_delay_step) random + min_delay_step) * second
    else delay

unfoldable pub get_next_delay : ℕ → ℕ → ℕ
get_next_delay random curr_delay =
    if curr_delay == max_delay
    then min_delay_step * second
    else if ltb max_delay (drifted random curr_delay)
    then max_delay
    else drifted random curr_delay

unfoldable pub reset_connection_attempts : Connection → Connection
reset_connection_attempts c =
    if ltb 0 c.conn_attempts then record c { delay = 1 * second; conn_attempts = 0 } else c

-- How dialling the broker goes: `refused` and `timed_out` (with its `Temporary()`) in the dial,
-- `intro_failed` in writing the introduction.
pub data DialOutcome : Type 0 where
  dialled : DialOutcome
  timed_out : Bool → DialOutcome
  refused : DialOutcome
  intro_failed : DialOutcome

-- What one call of `connect` meets: whether the context is done behind the delay, the random number,
-- and the dial.
pub record Dial : Type 0 where
  pub cancelled : Bool
  pub random : ℕ
  pub outcome : DialOutcome

pub data ConnectError : Type 0 where
  max_attempts check_refresh dial_timeout dial_failed intro_write : ConnectError

-- `interrupted` is the source's `nil, nil`; the flag of an error is `retry`.
pub data Connected : Type 0 where
  connected : Connected
  interrupted : Connected
  conn_error : Bool → ConnectError → Connected

abbrev pub after_dial : DialOutcome → Connection → Connected × Connection
after_dial (timed_out temporary) c = (conn_error temporary dial_timeout, c)
after_dial refused c = (conn_error true dial_failed, c)
after_dial intro_failed c = (conn_error true intro_write, c)
after_dial dialled c = (connected, record c { state = idle; comm_timeouts = 0 })

abbrev pub dial_broker : Dial → Connection → Connected × Connection
dial_broker d c = after_dial d.outcome (record c { conn_attempts = c.conn_attempts + 1 })

abbrev pub delayed : Dial → Connection → Connection
delayed d c = record c { delay = get_next_delay d.random c.delay }

unfoldable pub connect : Dial → Connection → Connected × Connection
connect d c =
    if ltb 0 c.conn_attempts
    then if ne_minus_one c.max_conn_retry && count_ge c.conn_attempts c.max_conn_retry
      then (conn_error false max_attempts, c)
      else if d.cancelled
      then (interrupted, c)
      else if c.conn_attempts % config_retry_limit == 0
      then (conn_error false check_refresh, delayed d c)
      else dial_broker d (delayed d c)
    else dial_broker d c

pub record OpError : Type 0 where
  pub fatal : Bool
  pub refresh_check : Bool

abbrev pub refresh_error : OpError
refresh_error = record { fatal = false; refresh_check = true }

-- How the loop over the results goes on from one of them.
pub data Next : Type 0 where
  go_on reconnect finished : Next
  failed : OpError → Next

pub record Handled : Type 0 where
  pub next : Next
  pub conn : Connection
  pub frames : List Bytes

abbrev quiet : Next → Connection → Handled
quiet n c = record { next = n; conn = c; frames = [] }

abbrev active_at : ℕ → Connection → Connection
active_at start c = record c { state = active; last_request_time = some start }

abbrev pub after_send : Option Sent → Command → Connection → Handled
after_send none cmd c = quiet (failed (refresh_error)) c
after_send (some s) cmd c =
    if s.failed
    then record { next = failed (refresh_error); conn = c; frames = s.frames }
    else record {
      next = go_on;
      conn = reset_connection_attempts (active_at cmd.start c);
      frames = s.frames;
    }

-- The body of the loop over `commandProcessor`: whether the context is done, the connection's writes,
-- and the result that came.
unfoldable pub handle_result : Bool → Writer → Connection → Command → Handled
unfolding reset_connection_attempts
handle_result done w c result =
    if done
    then quiet finished c
    else if result.ignore
    then quiet go_on c
    else if has_error result.err
    then if result.reset
      then quiet reconnect c
      else if result.fatal
      then quiet (failed (record { fatal = true; refresh_check = false })) c
      else quiet go_on c
    else after_send (send_metric_data w result.channel_id result.metrics) result c

-- One command on its way through the two goroutines and the loop.
pub record Round : Type 0 where
  pub now : ℕ
  pub agent : Agent
  pub done : Bool
  pub writer : Writer

abbrev pub serve_round : Round → Command × Connection × Reader → Handled
serve_round x (cmd, c, r) = handle_result x.done x.writer c (process_command x.agent cmd)

-- The loop itself, for the rounds that the schedule gives it. The goroutines read ahead of it; they
-- change only `comm_timeouts`, which the loop does not touch.
unfoldable pub serve : List Round → Connection → Reader → Next × Connection
serve [] c r = (go_on, c)
serve (x ∷ xs) c r =
    let read = read_command x.now c r in
    let h = serve_round x read in
    let rest = serve xs h.conn read.2 in
    elim h.next [
      | go_on ↦ rest
      | reconnect ↦ (reconnect, h.conn)
      | finished ↦ (finished, h.conn)
      | failed e ↦ (failed e, h.conn)
    ]

-- One round of the loop of `Start`.
pub record Session : Type 0 where
  pub dial : Dial
  pub done_connecting : Bool
  pub reader : Reader
  pub rounds : List Round
  pub done_serving : Bool

-- `running`: the schedule is at its end before `Start` returns.
pub data Outcome : Type 0 where
  running returned_nil : Outcome
  returned : OpError → Outcome

abbrev pub after_serving : Bool → Outcome × Connection → Next × Connection → Outcome × Connection
after_serving done again (go_on, c) = (running, c)
after_serving done again (reconnect, c) = if done then (returned_nil, c) else again
after_serving done again (finished, c) = (returned_nil, c)
after_serving done again (failed e, c) = (returned e, c)

-- `Start`, over the rounds of its loop that the schedule gives it.
unfoldable pub start : List Session → Connection → Outcome × Connection
start [] c = (running, c)
start (s ∷ ss) c =
    let p = connect s.dial c in
    let served = serve s.rounds p.1 s.reader in
    let retried = start ss p.1 in
    let again = start ss served.1 in
    elim p.0 [
      | conn_error retry e ↦ if retry then retried else (returned refresh_error, p.1)
      | interrupted ↦ (returned_nil, p.1)
      | connected ↦
          if s.done_connecting
          then (returned_nil, p.1)
          else after_serving s.done_serving again served
    ]
