-- ===== src/Reverse/Send.antt =====
-- internal/reverse/connection/metrics.go: the metrics are sent to the broker in frames.
pub mod Loop
pub mod Delivery
use circonus_agent.Prelude.{
  ℕ, zero, suc, ◌+◌, min, Bool, true, false, Option, none, some, List, [], ◌∷◌, ltb, if◌then◌else◌,
  length, take, drop,
}
use circonus_agent.Prelude.Bytes.{Bytes, codes}
use circonus_agent.Reverse.Frame.{max_payload_len, build_frame}

-- The outcome of each `Write` to come: whether it takes the whole frame, or fails. Past the end every
-- write succeeds. (An `io.Writer` that takes less than it was given returns an error.)
abbrev pub Writer : Type 0
Writer = List Bool

-- The frames that the connection took, and whether a write failed behind them.
pub record Sent : Type 0 where
  pub frames : List Bytes
  pub failed : Bool
  pub writer : Writer

abbrev pub nothing_more : Bool → Writer → Sent
nothing_more failed w = record { frames = []; failed = failed; writer = w }

abbrev pub after_frame : Bytes → Option Sent → Option Sent
after_frame frame none = none
after_frame frame (some s) = some (record s { frames = frame ∷ s.frames })

-- `buff`: the next part of the data, `math.Min` of what is left and `MaxPayloadLen` bytes long.
abbrev pub chunk_at : Bytes → ℕ → Bytes
chunk_at payload offset =
    take (min (length (drop offset payload)) max_payload_len) (drop offset payload)

-- `offset += sent`, where `sent` is what `Write` returns for the whole frame, its header included.
abbrev pub next_offset : Bytes → ℕ → ℕ
next_offset frame offset = offset + length frame

abbrev pub write : Writer → Bool × Writer
write [] = (true, [])
write (b ∷ w) = (b, w)

-- The loop of `sendMetricData`. `none`: the fuel ran out.
unfoldable pub send_loop : ℕ → Writer → ℕ → Bytes → ℕ → Option Sent
send_loop zero w channel_id payload offset =
    if ltb offset (length payload) then none else some (nothing_more false w)
send_loop (suc f) w channel_id payload offset =
    let frame = build_frame channel_id false (chunk_at payload offset) in
    let rest = send_loop f (write w).1 channel_id payload (next_offset frame offset) in
    let result =
      if (write w).0 then after_frame frame rest else some (nothing_more true (write w).1) in
    if ltb offset (length payload) then result else some (nothing_more false w)

-- A nil pointer stands for an empty JSON object.
abbrev pub payload_of : Option Bytes → Bytes
payload_of none = codes "{}"
payload_of (some payload) = payload

-- Each round moves the offset on, so as many rounds as there are bytes are enough. `MaxRequests` is
-- -1, so the connection is not reset at the end.
unfoldable pub send_metric_data : Writer → ℕ → Option Bytes → Option Sent
unfolding send_loop
send_metric_data w channel_id metrics =
    send_loop (length (payload_of metrics)) w channel_id (payload_of metrics) 0
