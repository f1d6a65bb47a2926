-- ===== src/Reverse/Command/Timeouts.antt =====
-- Timeouts of the broker in a row, counted by `readCommand`.
use circonus_agent.Prelude.{
  ℕ, ◌+◌, ◌≤◌, ◌≡◌, refl, true, false, some, List, [], ◌∷◌, ◌++◌, arith, ltb, leb, length,
  replicate,
}
use circonus_agent.Reverse.Frame.{NoitFrame, Reader, Result, read_frame_from_broker, net_op, net}
use circonus_agent.Reverse.Command.{
  Connection, max_comm_timeouts, Command, zero_command, failed_command, reset_timeouts,
  with_request, with_command, with_frame, read_command, command_reader, reading_command,
}

-- Each read runs into its deadline.
abbrev pub silence : ℕ → Reader
silence n = replicate n ([], some (net_op true))

read_command-silence :
    (now : ℕ) (c : Connection) (r : Reader)
    → read_command now c (([], some (net_op true)) ∷ r) ≡ (
      failed_command
          (reading_command (net (net_op true)))
          (ltb max_comm_timeouts (c.comm_timeouts + 1))
          (leb (c.comm_timeouts + 1) max_comm_timeouts),
      record c { comm_timeouts = c.comm_timeouts + 1 },
      r,
    )
unfolding read_command read_frame_from_broker
read_command-silence now c r = refl

abbrev pub AllIgnored : List Command → Type 0
AllIgnored [] = Unit {0}
AllIgnored (cmd ∷ cmds) = (cmd.ignore ≡ true) × AllIgnored cmds

-- The reads of a silent broker, as far as the limit.
command_reader-silence :
    (times : List ℕ) (c : Connection) (r : Reader)
    → c.comm_timeouts + length times ≤ max_comm_timeouts
    → AllIgnored (command_reader times c (silence (length times) ++ r)).0
      × ((command_reader times c (silence (length times) ++ r)).1.comm_timeouts
          ≡ c.comm_timeouts + length times)
      × ((command_reader times c (silence (length times) ++ r)).2 ≡ r)
unfolding command_reader
command_reader-silence [] c r h = (tt, omega arith, refl)
command_reader-silence (now ∷ times) c r h =
    let ih =
      command_reader-silence times (record c { comm_timeouts = c.comm_timeouts + 1 }) r
        (omega arith) in
    rw (read_command-silence now c (silence (length times) ++ r))
      ((ground arith, ih.0), omega (arith, ih.1), ih.2)

last_timeout :
    (now : ℕ) (c : Connection) (r r' : Reader)
    → c.comm_timeouts ≡ max_comm_timeouts
    → r' ≡ silence 1 ++ r
    → ((read_command now c r').0.err ≡ some (reading_command (net (net_op true))))
      × ((read_command now c r').0.reset ≡ true)
      × ((read_command now c r').0.ignore ≡ false)
last_timeout now c r r' l e =
    rw (e, read_command-silence now c r) (refl, ground arith, ground arith)

-- From a connection that has seen no timeout, the first `MaxCommTimeouts` timeouts in a row are
-- passed over, and the next one asks for a reset and is not passed over.
pub command_reader_silent_broker :
    (times : List ℕ) (now : ℕ) (c : Connection) (r : Reader)
    → c.comm_timeouts ≡ 0
    → length times ≡ max_comm_timeouts
    → let (cmds, c', r') = command_reader times c (silence (length times) ++ (silence 1 ++ r)) in
      let cmd = (read_command now c' r').0 in
      AllIgnored cmds
      × (cmd.err ≡ some (reading_command (net (net_op true))))
      × (cmd.reset ≡ true)
      × (cmd.ignore ≡ false)
command_reader_silent_broker times now c r z l =
    let before = command_reader-silence times c (silence 1 ++ r) (omega arith) in
    let final =
      last_timeout now (command_reader times c (silence (length times) ++ (silence 1 ++ r))).1 r _
        (omega (arith, before.1)) before.2 in
    (before.0, final.0, final.1, final.2)

with_request_timeouts :
    (c : Connection) (cmd : Command) (p : Result NoitFrame × Reader)
    → c.comm_timeouts ≡ 0
    → (with_request c cmd p).1.comm_timeouts ≤ 1
unfolding with_request
with_request_timeouts c cmd (Result.ok f, r) z = ground arith
with_request_timeouts c cmd (Result.err e, r) z = ground arith

with_frame_timeouts :
    (now : ℕ) (c : Connection) (p : Result NoitFrame × Reader) (f : NoitFrame)
    → p.0 ≡ Result.ok f
    → (with_frame now c p).1.comm_timeouts ≤ 1
unfolding with_command
with_frame_timeouts now c (Result.err e, r) f h = absurd (ground arith)
with_frame_timeouts now c (Result.ok g, r) f h = ground (
  arith,
  with_request_timeouts (reset_timeouts c)
      (record zero_command { start = now; channel_id = g.header.channel_id; name = g.payload })
      (read_frame_from_broker r) refl,
)

-- A frame that arrives starts the count anew: one timeout at most, that of the request behind it.
pub read_command_counts_anew :
    (now : ℕ) (c : Connection) (r : Reader) (f : NoitFrame)
    → (read_frame_from_broker r).0 ≡ Result.ok f
    → (read_command now c r).1.comm_timeouts ≤ 1
unfolding read_command
read_command_counts_anew now c r f h = with_frame_timeouts now c (read_frame_from_broker r) f h
