-- ===== src/Reverse/Command/Exchange.antt =====
-- A request of the broker, from its frames to the metrics.
use mathlib.Core.List.{append-nil}
use circonus_agent.Prelude.{
  ℕ, ◌%◌, ◌^◌, ◌≤◌, ◌≡◌, refl, ◌∙◌, ◌≢◌, Bool, true, false, none, [], ◌∷◌, ◌++◌, arith, length,
}
use circonus_agent.Prelude.Bytes.{Bytes, equal_exact, equal_refl}
use circonus_agent.Reverse.Frame.{
  NoitFrame, max_payload_len, build_frame, Reader, Result, read_frame_from_broker,
}
use circonus_agent.Reverse.Frame.RoundTrip.{
  header_of, left_over, read_frame_from_broker-build_frame,
}
use circonus_agent.Reverse.Command.{
  Connection, Command, zero_command, command_connect, comm_failed, reset_timeouts, with_request,
  with_command, with_frame, read_command, Agent, process_command,
}

read_alone :
    (channel_id : ℕ) (is_command : Bool) (payload : Bytes) (r : Reader)
    → length payload ≤ max_payload_len
    → read_frame_from_broker (left_over (build_frame channel_id is_command payload) none r) ≡ (
      Result.ok (record { header = header_of channel_id is_command payload; payload = payload }),
      r,
    )
unfolding build_frame
read_alone channel_id is_command payload r h =
    rw append-nil at (read_frame_from_broker-build_frame channel_id is_command payload [] r h)

-- A connect command and the request behind it, in one delivery, are read as one command.
pub read_command-request :
    (now channel_id request_channel : ℕ) (request : Bytes) (c : Connection) (r : Reader)
    → length request ≤ max_payload_len
    → read_command now c (
        (
          build_frame channel_id true command_connect ++ build_frame request_channel false request,
          none,
        )
        ∷ r)
      ≡ (
        record zero_command {
          start = now;
          name = command_connect;
          request = request;
          channel_id = channel_id % 2 ^ 15;
        },
        reset_timeouts c,
        r,
      )
unfolding read_command with_command with_request
read_command-request now channel_id request_channel request c r h = ground (
  arith,
  read_frame_from_broker-build_frame channel_id true command_connect
      (build_frame request_channel false request) r (omega arith),
  read_alone request_channel false request r h,
  equal_refl command_connect,
)

-- A command that `processCommand` gives back without an error is a connect command with a request that
-- is not empty, and its metrics are what the local agent answered.
pub process_command_sound :
    (agent : Agent) (cmd : Command)
    → (process_command agent cmd).err ≡ none
    → (cmd.name ≡ command_connect)
      × (cmd.request ≢ [])
      × (agent.reply cmd.request ≢ none)
      × ((process_command agent cmd).metrics ≡ agent.reply cmd.request)
unfolding process_command
process_command_sound agent cmd h = ground (arith, equal_exact cmd.name command_connect)

process_command_fatal :
    (agent : Agent) (cmd : Command) → (process_command agent cmd).fatal ≡ cmd.fatal
unfolding process_command
process_command_fatal agent cmd = ground arith

with_request_fatal :
    (c : Connection) (cmd : Command) (p : Result NoitFrame × Reader)
    → cmd.fatal ≡ false
    → (with_request c cmd p).0.fatal ≡ false
unfolding with_request
with_request_fatal c cmd (Result.ok f, r) z = ground arith
with_request_fatal c cmd (Result.err e, r) z = ground arith

with_frame_fatal :
    (now : ℕ) (c : Connection) (p : Result NoitFrame × Reader)
    → (with_frame now c p).0.fatal ≡ false
unfolding with_command comm_failed
with_frame_fatal now c (Result.err e, r) = ground arith
with_frame_fatal now c (Result.ok f, r) = ground (
  arith,
  with_request_fatal (reset_timeouts c)
      (record zero_command { start = now; channel_id = f.header.channel_id; name = f.payload })
      (read_frame_from_broker r) refl,
)

-- No command that is read and processed carries the fatal flag, so `Start` never takes its branch for
-- fatal errors.
pub process_command-read_command_not_fatal :
    (agent : Agent) (now : ℕ) (c : Connection) (r : Reader)
    → (process_command agent (read_command now c r).0).fatal ≡ false
unfolding read_command
process_command-read_command_not_fatal agent now c r =
    process_command_fatal agent _ ∙ with_frame_fatal now c (read_frame_from_broker r)
