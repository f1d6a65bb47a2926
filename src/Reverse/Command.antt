-- ===== src/Reverse/Command.antt =====
-- internal/reverse/connection/command_reader.go and command_processor.go, with the types of
-- connection.go that they share: commands from the broker, and what is made of them.
pub mod Timeouts
pub mod Exchange
use circonus_agent.Prelude.{
  ℕ, ◌+◌, Bool, true, false, not, Option, none, some, List, [], ◌∷◌, ltb, leb, if◌then◌else◌,
}
use circonus_agent.Prelude.Int.{ℤ}
use circonus_agent.Prelude.Bytes.{Bytes, codes, equal, is_empty}
use circonus_agent.Reverse.Frame.{
  NoitFrame, ReadError, Reader, Result, read_frame_from_broker, net_op, net, ok,
}

pub data ConnState : Type 0 where
  new active idle failing : ConnState

-- Times and durations are in nanoseconds. The address, the logger and the broker's configuration of
-- the source's struct are not state, and enter where they are used.
pub record Connection : Type 0 where
  pub last_request_time : Option ℕ
  pub state : ConnState
  pub delay : ℕ
  pub comm_timeouts : ℕ
  pub conn_attempts : ℕ
  pub max_conn_retry : ℤ

abbrev pub max_comm_timeouts : ℕ
max_comm_timeouts = 6

pub data FetchError : Type 0 where
  connecting writing reading : FetchError

pub data CommandError : Type 0 where
  reading_command : ReadError → CommandError
  reading_payload : ReadError → CommandError
  expected_command expected_request received_reset unused_command empty_request : CommandError
  fetching : FetchError → CommandError

-- `start` is 0 where the source has the zero time.
pub record Command : Type 0 where
  pub start : ℕ
  pub metrics : Option Bytes
  pub err : Option CommandError
  pub name : Bytes
  pub request : Bytes
  pub channel_id : ℕ
  pub ignore : Bool
  pub fatal : Bool
  pub reset : Bool

abbrev pub zero_command : Command
zero_command = record {
  start = 0;
  metrics = none;
  err = none;
  name = [];
  request = [];
  channel_id = 0;
  ignore = false;
  fatal = false;
  reset = false;
}

abbrev pub command_connect : Bytes
command_connect = codes "CONNECT"

abbrev pub command_reset : Bytes
command_reset = codes "RESET"

-- `errors.As(err, &ne)` with `ne.Timeout()`.
abbrev pub is_timeout : ReadError → Bool
is_timeout (net (net_op timeout)) = timeout
is_timeout _ = false

abbrev pub failed_command : CommandError → Bool → Bool → Command
failed_command e reset ignore = record zero_command { err = some e; reset = reset; ignore = ignore }

-- What `readCommand` does when either of its reads fails: the first timeouts in a row are ignored.
unfoldable pub comm_failed :
    Connection → (ReadError → CommandError) → ReadError → Reader → Command × Connection × Reader
comm_failed c wrap e r =
    if is_timeout e
    then (
      failed_command (wrap e) (ltb max_comm_timeouts (c.comm_timeouts + 1))
          (leb (c.comm_timeouts + 1) max_comm_timeouts),
      record c { comm_timeouts = c.comm_timeouts + 1 },
      r,
    )
    else (failed_command (wrap e) true false, c, r)

abbrev pub reset_timeouts : Connection → Connection
reset_timeouts c = record c { comm_timeouts = 0 }

-- Behind the request that has to follow a connect command.
unfoldable pub with_request :
    Connection → Command → Result NoitFrame × Reader → Command × Connection × Reader
unfolding comm_failed
with_request c cmd (Result.err e, r) = comm_failed c reading_payload e r
with_request c cmd (Result.ok f, r) =
    if f.header.is_command
    then (record cmd { err = some expected_request }, reset_timeouts c, r)
    else (record cmd { request = f.payload }, reset_timeouts c, r)

unfoldable pub with_command : ℕ → Connection → NoitFrame → Reader → Command × Connection × Reader
unfolding with_request
with_command now c f r =
    let cmd : Command = record zero_command {
      channel_id = f.header.channel_id;
      name = f.payload;
    } in
    if not f.header.is_command
    then (record zero_command { err = some expected_command }, c, r)
    else if equal f.payload command_connect
    then with_request c (record cmd { start = now }) (read_frame_from_broker r)
    else (cmd, c, r)

abbrev pub with_frame : ℕ → Connection → Result NoitFrame × Reader → Command × Connection × Reader
with_frame now c (Result.err e, r) = comm_failed c reading_command e r
with_frame now c (Result.ok f, r) = with_command now (reset_timeouts c) f r

-- `now` is what `time.Now()` gives.
unfoldable pub read_command : ℕ → Connection → Reader → Command × Connection × Reader
unfolding with_command with_request comm_failed
read_command now c r = with_frame now c (read_frame_from_broker r)

-- The goroutine of `newCommandReader`, over the commands that it hands on until it is cancelled, with
-- the time at which each is read.
unfoldable pub command_reader : List ℕ → Connection → Reader → List Command × Connection × Reader
command_reader [] c r = ([], c, r)
command_reader (now ∷ times) c r =
    let (cmd, c', r') = read_command now c r in
    let (cmds, c'', r'') = command_reader times c' r' in (cmd ∷ cmds, c'', r'')

-- The local agent, as `fetchMetricData` meets it: whether it can be dialled, whether it takes the
-- request, and what can be read from it.
pub record Agent : Type 0 where
  pub dials : Bool
  pub takes : Bool
  pub reply : Bytes → Option Bytes

pub data Fetched : Type 0 where
  fetched : Bytes → Fetched
  fetch_failed : FetchError → Fetched

abbrev pub read_all : Option Bytes → Fetched
read_all none = fetch_failed reading
read_all (some answer) = fetched answer

unfoldable pub fetch_metric_data : Agent → Bytes → Fetched
fetch_metric_data agent request =
    if not agent.dials
    then fetch_failed connecting
    else if not agent.takes
    then fetch_failed writing
    else read_all (agent.reply request)

abbrev pub with_metrics : Command → Fetched → Command
with_metrics cmd (fetched answer) = record cmd { metrics = some answer }
with_metrics cmd (fetch_failed e) = record cmd { err = some (fetching e) }

abbrev pub has_error : Option CommandError → Bool
has_error none = false
has_error (some _) = true

unfoldable pub process_command : Agent → Command → Command
unfolding fetch_metric_data
process_command agent cmd =
    if has_error cmd.err
    then cmd
    else if equal cmd.name command_reset
    then record cmd { err = some received_reset; ignore = false; reset = true }
    else if not (equal cmd.name command_connect)
    then record cmd { ignore = true; err = some unused_command }
    else if is_empty cmd.request
    then record cmd { err = some empty_request }
    else with_metrics cmd (fetch_metric_data agent cmd.request)
