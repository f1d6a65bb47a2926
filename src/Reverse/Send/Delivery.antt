-- ===== src/Reverse/Send/Delivery.antt =====
-- What the broker gets of the data that `sendMetricData` is given.
use circonus_agent.Prelude.{
  ℕ, ◌+◌, ◌-◌, ◌≤◌, ◌<◌, min, ◌≡◌, false, Option, some, [], ◌∷◌, arith, length,
}
use circonus_agent.Prelude.Bytes.{Bytes}
use circonus_agent.Reverse.Frame.{max_payload_len, build_frame}
use circonus_agent.Reverse.Send.{Writer, Sent, payload_of, send_metric_data}
use circonus_agent.Reverse.Send.Loop.{
  reassemble, send_loop_total, AllFit, send_loop-Fits, Carries, send_loop_first-Carries,
  send_loop_one,
}

-- `sendMetricData` comes to an end on every connection and all data, and every frame that it wrote,
-- also before a failed write, has 1 to `MaxPayloadLen` bytes behind its header.
pub send_metric_data_total :
    (w : Writer) (channel_id : ℕ) (metrics : Option Bytes)
    → (s : Sent) × (send_metric_data w channel_id metrics ≡ some s) × AllFit s.frames
unfolding send_metric_data
send_metric_data_total w channel_id metrics =
    let payload = payload_of metrics in
    let (s, e) = send_loop_total (length payload) w channel_id payload 0 (omega arith) in
    (s, e, rw e at (send_loop-Fits (length payload) w channel_id payload 0))

-- On a connection that takes every write, data of 1 to `MaxPayloadLen` bytes goes out as one frame
-- that holds all of it.
pub send_metric_data_whole :
    (channel_id : ℕ) (metrics : Option Bytes)
    → 0 < length (payload_of metrics)
    → length (payload_of metrics) ≤ max_payload_len
    → send_metric_data [] channel_id metrics
      ≡ some (record {
        frames = build_frame channel_id false (payload_of metrics) ∷ [];
        failed = false;
        writer = [];
      })
unfolding send_metric_data
send_metric_data_whole channel_id metrics pos fits =
    send_loop_one (length (payload_of metrics)) channel_id (payload_of metrics) pos pos fits

Carries-some :
    (n : ℕ) (s : Sent)
    → Carries n (some s)
    → (s.failed ≡ false) × (length (reassemble s.frames) ≤ n)
Carries-some n s h = h

-- The bug: on a connection that takes every write, of data of more than `MaxPayloadLen` bytes at
-- least six are never sent (or, where less than six are over, all of those), and no error is reported.
pub send_metric_data_loses :
    (channel_id : ℕ) (payload : Bytes) (s : Sent)
    → max_payload_len < length payload
    → send_metric_data [] channel_id (some payload) ≡ some s
    → (s.failed ≡ false)
      × (length (reassemble s.frames) + min 6 (length payload - max_payload_len) ≤ length payload)
unfolding send_metric_data
send_metric_data_loses channel_id payload s h e =
    let carried = send_loop_first-Carries (length payload) channel_id payload (omega arith) h in
    let (f, l) = Carries-some _ s (rw e at carried) in (f, omega arith)
