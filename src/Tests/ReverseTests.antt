-- ===== src/Tests/ReverseTests.antt =====
-- The reverse connection at concrete inputs.
use circonus_agent.Prelude.{
  ℕ, ◌+◌, ◌-◌, ◌^◌, ◌≤◌, ◌<◌, min, ◌≡◌, refl, ◌≢◌, inl, inr, true, false, none, some, List, [], ◌∷◌,
  ◌++◌, arith, if◌then◌else◌, length, replicate, length-replicate,
}
use circonus_agent.Prelude.Int.{pos}
use circonus_agent.Prelude.Bytes.{Bytes, codes, equal}
use circonus_agent.Reverse.Frame.{
  NoitFrame, max_payload_len, build_frame, Reader, Result, read_frame_from_broker, net_op, net,
  invalid_read,
}
use circonus_agent.Reverse.Frame.RoundTrip.{read_frame_from_broker-build_frame}
use circonus_agent.Reverse.Frame.Bounds.{read_frame_from_broker_bounds}
use circonus_agent.Reverse.Send.{Sent, send_metric_data}
use circonus_agent.Reverse.Send.Loop.{reassemble, AllFit}
use circonus_agent.Reverse.Send.Delivery.{
  send_metric_data_total, send_metric_data_whole, send_metric_data_loses,
}
use circonus_agent.Reverse.Command.{
  Connection, Command, zero_command, command_connect, read_command, command_reader, Agent,
  process_command, reading_command,
}
use circonus_agent.Reverse.Command.Exchange.{read_command-request, process_command_sound}
use circonus_agent.Reverse.Command.Timeouts.{silence, AllIgnored, command_reader_silent_broker}
use circonus_agent.Reverse.Connection.{
  new_connection, create, get_next_delay, connect, refresh_error, Session, start, refused, returned,
}
use circonus_agent.Reverse.Connection.Backoff.{IsPaced}
use circonus_agent.Reverse.Connection.Lifetime.{start-IsPaced}
use circonus_agent.Reverse.Connection.Outcomes.{start_errors_refresh, start_gives_up}
use circonus_agent.Reverse.Owner.{
  Reply, HostOf, read_reply, has_config, find_primary_broker_instance, no_response, found, owner,
}
use circonus_agent.Reverse.Owner.Agreement.{find_primary_broker_instance_agreed}
use circonus_agent.Reverse.Supervisor.{Reverse, Lap, supervise_round}
use circonus_agent.Reverse.Supervisor.Refresh.{supervise_round_refreshes}

connect_frame :
    build_frame 0x8123 true (codes "CONNECT") ≡ 0x81 ∷ 0x23 ∷ 0 ∷ 0 ∷ 0 ∷ 7 ∷ codes "CONNECT"
unfolding build_frame
connect_frame = refl

data_frame : build_frame 0x8123 false (codes "{}") ≡ 0x01 ∷ 0x23 ∷ 0 ∷ 0 ∷ 0 ∷ 2 ∷ codes "{}"
unfolding build_frame
data_frame = refl

short_header :
    (read_frame_from_broker ((0 ∷ 1 ∷ 2 ∷ [], none) ∷ [])).0 ≡ Result.err (invalid_read 6 3)
unfolding read_frame_from_broker
short_header = refl

abbrev first_conn : Connection
first_conn = new_connection (pos 10)

abbrev get_line : Bytes
get_line = codes "GET /"

read_frame_from_broker-build_frame_example :
    read_frame_from_broker ((build_frame 7 false (1 ∷ 2 ∷ []) ++ (9 ∷ []), none) ∷ []) ≡ (
      Result.ok (record {
        header = record { channel_id = 7; is_command = false; payload_len = 2 };
        payload = 1 ∷ 2 ∷ [];
      }),
      (9 ∷ [], none) ∷ [],
    )
read_frame_from_broker-build_frame_example =
    read_frame_from_broker-build_frame 7 false (1 ∷ 2 ∷ []) (9 ∷ []) [] (omega arith)

abbrev two_byte_reader : Reader
two_byte_reader = (0x81 ∷ 0x23 ∷ 0 ∷ 0 ∷ 0 ∷ 2 ∷ 4 ∷ 5 ∷ [], none) ∷ []

abbrev two_byte_frame : NoitFrame
two_byte_frame = record {
  header = record { channel_id = 0x123; is_command = true; payload_len = 2 };
  payload = 4 ∷ 5 ∷ [];
}

read_frame_from_broker_bounds_example :
    (two_byte_frame.header.channel_id < 2 ^ 15)
    × (length two_byte_frame.payload ≡ two_byte_frame.header.payload_len)
    × (two_byte_frame.header.payload_len ≤ max_payload_len)
unfolding read_frame_from_broker
read_frame_from_broker_bounds_example =
    read_frame_from_broker_bounds two_byte_reader {f = two_byte_frame} refl

send_metric_data_total_example :
    (s : Sent) × (send_metric_data (false ∷ []) 7 (some (1 ∷ 2 ∷ [])) ≡ some s) × AllFit s.frames
send_metric_data_total_example = send_metric_data_total (false ∷ []) 7 (some (1 ∷ 2 ∷ []))

send_metric_data_whole_example :
    send_metric_data [] 7 none
    ≡ some (record { frames = build_frame 7 false (codes "{}") ∷ []; failed = false; writer = [] })
send_metric_data_whole_example = send_metric_data_whole 7 none (omega arith) (omega arith)

read_command-request_example :
    read_command 5 first_conn
      ((build_frame 3 true command_connect ++ build_frame 3 false get_line, none) ∷ [])
    ≡ (
      record zero_command { start = 5; name = command_connect; request = get_line; channel_id = 3 },
      first_conn,
      [],
    )
read_command-request_example = read_command-request 5 3 3 get_line first_conn [] (omega arith)

abbrev local_agent : Agent
local_agent = record { dials = true; takes = true; reply = λ _. some (codes "{}") }

-- One byte more than a frame holds.
large : Bytes
large = replicate 65530 0

length-large : length large ≡ 65530
unfolding large
length-large = length-replicate {A = ℕ} 65530 0

large_sent : Sent
large_sent = (send_metric_data_total [] 7 (some large)).0

send_metric_data_loses_example :
    (large_sent.failed ≡ false)
    × (length (reassemble large_sent.frames) + min 6 (length large - max_payload_len)
        ≤ length large)
unfolding large_sent
send_metric_data_loses_example =
    send_metric_data_loses 7 large large_sent (omega (arith, length-large))
      (send_metric_data_total [] 7 (some large)).1

abbrev connect_command : Command
connect_command = record zero_command { name = command_connect; request = get_line; channel_id = 3 }

process_command_sound_example :
    (connect_command.name ≡ command_connect)
    × (connect_command.request ≢ [])
    × (local_agent.reply connect_command.request ≢ none)
    × ((process_command local_agent connect_command).metrics
        ≡ local_agent.reply connect_command.request)
unfolding process_command equal
process_command_sound_example = process_command_sound local_agent connect_command refl

abbrev six_times : List ℕ
six_times = 1 ∷ 2 ∷ 3 ∷ 4 ∷ 5 ∷ 6 ∷ []

command_reader_silent_broker_example :
    let (cmds, c', r') = command_reader six_times first_conn (silence 6 ++ (silence 1 ++ [])) in
    let cmd = (read_command 7 c' r').0 in
    AllIgnored cmds
    × (cmd.err ≡ some (reading_command (net (net_op true))))
    × (cmd.reset ≡ true)
    × (cmd.ignore ≡ false)
command_reader_silent_broker_example =
    command_reader_silent_broker six_times 7 first_conn [] refl refl

abbrev refusing : Session
refusing = record {
  dial = record { cancelled = false; random = 3; outcome = refused };
  done_connecting = false;
  reader = [];
  rounds = [];
  done_serving = false;
}

abbrev four_refusals : List Session
four_refusals = refusing ∷ refusing ∷ refusing ∷ refusing ∷ []

start-IsPaced_example : IsPaced (start four_refusals first_conn).1
start-IsPaced_example =
    start-IsPaced four_refusals first_conn (record {
      at_least = omega arith;
      at_most = omega arith;
      few = omega arith;
      fresh = λ _. refl;
    })

start_gives_up_example : (start four_refusals first_conn).0 ≡ returned refresh_error
start_gives_up_example =
    start_gives_up four_refusals first_conn
      (λ e. cc, refl, (λ e. cc, refl, (λ e. cc, refl, (λ e. cc, refl, tt)))) (omega arith)
      (omega arith)

start_errors_refresh_example : (refresh_error.refresh_check ≡ true) × (refresh_error.fatal ≡ false)
start_errors_refresh_example =
    start_errors_refresh four_refusals first_conn refresh_error start_gives_up_example

abbrev name_a : Bytes
name_a = codes "a"

abbrev name_b : Bytes
name_b = codes "b"

-- `a` points at `b`, which does not answer in time.
abbrev points_at_b : Bytes → Reply
points_at_b n = if equal n name_a then found (codes "b:43191") else no_response true

abbrev takes_b : HostOf
takes_b location = some name_b

find_primary_broker_instance_agreed_example :
    find_primary_broker_instance takes_b points_at_b (name_a ∷ name_b ∷ []) ≡ owner name_b
unfolding read_reply has_config equal
find_primary_broker_instance_agreed_example =
    find_primary_broker_instance_agreed takes_b points_at_b name_b name_a name_b [] refl refl
      (inr refl, (inl refl, tt)) (inl refl)

abbrev before_refresh : Reverse
before_refresh = record {
  agent_address = codes "127.0.0.1:2609";
  enabled = true;
  configs = some (name_a ∷ []);
  refresh_check = true;
  cancelled = false;
}

abbrev after_refresh : Reverse
after_refresh = record before_refresh { configs = some (name_b ∷ []) }

abbrev refusing_lap : Lap
refusing_lap = record {
  done = false;
  refreshed = true;
  new_configs = some (name_b ∷ []);
  ask = points_at_b;
  sessions = four_refusals;
}

supervise_round_refreshes_example :
    (after_refresh.cancelled ≡ false)
    × (refusing_lap.done ≡ false)
    × (after_refresh.configs ≢ none)
    × (before_refresh.refresh_check ≡ true
        → (refusing_lap.refreshed ≡ true) × (after_refresh.configs ≡ refusing_lap.new_configs))
    × (before_refresh.refresh_check ≡ false → after_refresh.configs ≡ before_refresh.configs)
unfolding supervise_round find_primary_broker_instance has_config equal create start connect
    get_next_delay
supervise_round_refreshes_example =
    supervise_round_refreshes takes_b (pos 10) refusing_lap before_refresh after_refresh refl
