-- ===== src/Reverse/Connection/Serving.antt =====
-- The loop of `Start`: what holds through all its rounds.
use circonus_agent.Prelude.{ℕ, ◌≡◌, ◌≢◌, Bool, Option, none, some, List, [], ◌∷◌, arith}
use circonus_agent.Reverse.Frame.{NoitFrame, ReadError, Reader, Result, read_frame_from_broker}
use circonus_agent.Reverse.Send.{Writer, Sent, send_metric_data}
use circonus_agent.Reverse.Command.{
  Connection, CommandError, Command, zero_command, comm_failed, reset_timeouts, with_request,
  with_command, with_frame, read_command, process_command, reading_command, reading_payload,
}
use circonus_agent.Reverse.Connection.{
  reset_connection_attempts, Next, after_send, handle_result, Round, serve_round, serve, go_on,
  reconnect, finished, failed,
}
use circonus_agent.Reverse.Connection.Backoff.{IsPaced}

-- Reading a command changes the count of timeouts alone.
abbrev SameBut : Connection → Connection → Type 0
SameBut c d = d ≡ record c { comm_timeouts = d.comm_timeouts }

comm_failed-SameBut :
    (c : Connection) (wrap : ReadError → CommandError) (e : ReadError) (r : Reader)
    → SameBut c (comm_failed c wrap e r).1
unfolding comm_failed
comm_failed-SameBut c wrap e r = ground arith

with_request-SameBut :
    (c : Connection) (cmd : Command) (p : Result NoitFrame × Reader)
    → SameBut c (with_request c cmd p).1
unfolding with_request
with_request-SameBut c cmd (Result.ok f, r) = ground arith
with_request-SameBut c cmd (Result.err e, r) = comm_failed-SameBut c reading_payload e r

with_frame-SameBut :
    (now : ℕ) (c : Connection) (p : Result NoitFrame × Reader) → SameBut c (with_frame now c p).1
unfolding with_command
with_frame-SameBut now c (Result.err e, r) = comm_failed-SameBut c reading_command e r
with_frame-SameBut now c (Result.ok f, r) = ground (
  arith,
  with_request-SameBut (reset_timeouts c)
      (record zero_command { start = now; channel_id = f.header.channel_id; name = f.payload })
      (read_frame_from_broker r),
)

read_command-SameBut : (now : ℕ) (c : Connection) (r : Reader) → SameBut c (read_command now c r).1
unfolding read_command
read_command-SameBut now c r = with_frame-SameBut now c (read_frame_from_broker r)

SameBut-IsPaced : (c d : Connection) → SameBut c d → IsPaced c → IsPaced d
SameBut-IsPaced c d e v =
    rw e (record { at_least = v.at_least; at_most = v.at_most; few = v.few; fresh = v.fresh })

after_send-IsPaced :
    (o : Option Sent) (cmd : Command) (c : Connection)
    → IsPaced c
    → IsPaced (after_send o cmd c).conn
unfolding reset_connection_attempts
after_send-IsPaced none cmd c v = v
after_send-IsPaced (some s) cmd c v = ground arith

handle_result-IsPaced :
    (done : Bool) (w : Writer) (c : Connection) (cmd : Command)
    → IsPaced c
    → IsPaced (handle_result done w c cmd).conn
unfolding handle_result
handle_result-IsPaced done w c cmd v =
    ground (arith, after_send-IsPaced (send_metric_data w cmd.channel_id cmd.metrics) cmd c v)

-- The loop goes on after this round, or ends with the connection that the round left.
pub serve_cons :
    (P : Next × Connection → Type 0) (n : Next) (c : Connection) (rest : Next × Connection)
    → P rest
    → (n ≢ go_on → P (n, c))
    → P (elim n [ go_on ↦ rest | other ↦ (other, c) ])
serve_cons P go_on c rest p h = p
serve_cons P reconnect c rest p h = h (λ e. cc)
serve_cons P finished c rest p h = h (λ e. cc)
serve_cons P (failed x) c rest p h = h (λ e. cc)

pub serve-IsPaced :
    (xs : List Round) (c : Connection) (r : Reader) → IsPaced c → IsPaced (serve xs c r).1
unfolding serve
serve-IsPaced [] c r v = v
serve-IsPaced (x ∷ xs) c r v =
    let p = read_command x.now c r in
    let kept = SameBut-IsPaced c p.1 (read_command-SameBut x.now c r) v in
    let done = handle_result-IsPaced x.done x.writer p.1 (process_command x.agent p.0) kept in
    serve_cons (λ q. IsPaced q.1) (serve_round x p).next (serve_round x p).conn
      (serve xs (serve_round x p).conn p.2) (serve-IsPaced xs _ p.2 done) (λ _. done)
