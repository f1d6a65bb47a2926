-- ===== src/Reverse/Send/Loop.antt =====
-- The loop of `sendMetricData`, round by round.
use circonus_agent.Prelude.{
  ℕ, zero, suc, ◌+◌, ◌-◌, ◌≤◌, ◌<◌, min, ◌≡◌, refl, inl, inr, true, false, Option, none, some, List,
  [], ◌∷◌, ◌++◌, arith, ltb, ltb→lt, lt→ltb, Bool-cases, length, drop, length-append, length-take,
  length-drop, take-all,
}
use circonus_agent.Prelude.Bytes.{Bytes}
use circonus_agent.Reverse.Frame.{max_payload_len, build_frame}
use circonus_agent.Reverse.Frame.RoundTrip.{length-build_frame}
use circonus_agent.Reverse.Send.{
  Writer, Sent, nothing_more, after_frame, chunk_at, next_offset, write, send_loop,
}

-- The payloads of the frames, put together.
pub reassemble : List Bytes → Bytes
reassemble [] = []
reassemble (f ∷ fs) = drop 6 f ++ reassemble fs

length-chunk_at :
    (payload : Bytes) (offset : ℕ)
    → length (chunk_at payload offset) ≡ min (length payload - offset) max_payload_len
length-chunk_at payload offset = omega (
  arith,
  length-take (min (length (drop offset payload)) max_payload_len) (drop offset payload),
  length-drop offset payload,
)

abbrev frame_at : ℕ → Bytes → ℕ → Bytes
frame_at channel_id payload offset = build_frame channel_id false (chunk_at payload offset)

length-frame_at :
    (channel_id : ℕ) (payload : Bytes) (offset : ℕ)
    → length (frame_at channel_id payload offset)
      ≡ min (length payload - offset) max_payload_len + 6
length-frame_at channel_id payload offset = omega (
  arith,
  length-build_frame channel_id false (chunk_at payload offset),
  length-chunk_at payload offset,
)

after_frame-some :
    (frame : Bytes) (o : Option Sent)
    → (s : Sent) × (o ≡ some s)
    → (s : Sent) × (after_frame frame o ≡ some s)
after_frame-some frame o (s, e) = (record s { frames = frame ∷ s.frames }, rw e)

-- The loop ends within its fuel.
pub send_loop_total :
    (f : ℕ) (w : Writer) (channel_id : ℕ) (payload : Bytes) (offset : ℕ)
    → length payload ≤ f + offset
    → (s : Sent) × (send_loop f w channel_id payload offset ≡ some s)
unfolding send_loop
send_loop_total zero w channel_id payload offset h = (nothing_more false w, ground arith)
send_loop_total (suc f) w channel_id payload offset h =
    elim (Bool-cases (ltb offset (length payload))) [
      | inr done ↦ (nothing_more false w, rw done)
      | inl more ↦ elim (Bool-cases (write w).0) [
        | inr broken ↦ (nothing_more true (write w).1, rw (more, broken))
        | inl sent ↦
            rw (more, sent)
              (after_frame-some (frame_at channel_id payload offset) _ (
                send_loop_total f (write w).1 channel_id payload
                  (next_offset (frame_at channel_id payload offset) offset)
                  (omega (arith, length-frame_at channel_id payload offset))))
      ]
    ]

-- Every frame written, also before a failure, is of a size that the broker takes, and not empty.
abbrev pub AllFit : List Bytes → Type 0
AllFit [] = Unit {0}
AllFit (f ∷ fs) = (6 < length f) × (length f ≤ max_payload_len + 6) × AllFit fs

abbrev pub Fits : Option Sent → Type 0
Fits none = Unit {0}
Fits (some s) = AllFit s.frames

after_frame-Fits :
    (frame : Bytes) (o : Option Sent)
    → 6 < length frame
    → length frame ≤ max_payload_len + 6
    → Fits o
    → Fits (after_frame frame o)
after_frame-Fits frame none l u h = tt
after_frame-Fits frame (some s) l u h = (l, u, h)

pub send_loop-Fits :
    (f : ℕ) (w : Writer) (channel_id : ℕ) (payload : Bytes) (offset : ℕ)
    → Fits (send_loop f w channel_id payload offset)
unfolding send_loop
send_loop-Fits zero w channel_id payload offset = ground arith
send_loop-Fits (suc f) w channel_id payload offset = ground (
  arith,
  λ (p : 6 < length (frame_at channel_id payload offset))
        (q : length (frame_at channel_id payload offset) ≤ max_payload_len + 6).
      after_frame-Fits (frame_at channel_id payload offset)
        (send_loop f (write w).1 channel_id payload
          (next_offset (frame_at channel_id payload offset) offset))
        p q
        (send_loop-Fits f (write w).1 channel_id payload
          (next_offset (frame_at channel_id payload offset) offset)),
  length-frame_at channel_id payload offset,
)

-- No write failed, and at most `n` bytes of data arrive.
abbrev pub Carries : ℕ → Option Sent → Type 0
Carries n none = Unit {0}
Carries n (some s) = (s.failed ≡ false) × (length (reassemble s.frames) ≤ n)

after_frame-Carries :
    (frame : Bytes) (o : Option Sent) (k n : ℕ)
    → length (drop 6 frame) + k ≤ n
    → Carries k o
    → Carries n (after_frame frame o)
unfolding reassemble
after_frame-Carries frame none k n l h = tt
after_frame-Carries frame (some s) k n l h =
    (h.0, omega (arith, length-append (drop 6 frame) (reassemble s.frames)))

length-drop-frame_at :
    (channel_id : ℕ) (payload : Bytes) (offset : ℕ)
    → length (drop 6 (frame_at channel_id payload offset))
      ≡ min (length payload - offset) max_payload_len
length-drop-frame_at channel_id payload offset = omega (
  arith,
  length-drop 6 (frame_at channel_id payload offset),
  length-frame_at channel_id payload offset,
)

send_loop-Carries :
    (f channel_id : ℕ) (payload : Bytes) (offset : ℕ)
    → Carries (length payload - offset) (send_loop f [] channel_id payload offset)
unfolding send_loop reassemble
send_loop-Carries zero channel_id payload offset = elim (Bool-cases (ltb offset (length payload))) [
  | inl more ↦ rw more tt
  | inr done ↦ rw done (refl, omega arith)
]
send_loop-Carries (suc f) channel_id payload offset =
    elim (Bool-cases (ltb offset (length payload))) [
      | inr done ↦ rw done (refl, omega arith)
      | inl more ↦ rw more (
          after_frame-Carries (frame_at channel_id payload offset) _ _ _
            (omega (
              arith,
              length-drop-frame_at channel_id payload offset,
              length-frame_at channel_id payload offset,
              ltb→lt offset (length payload) more,
            ))
            (send_loop-Carries f channel_id payload
              (next_offset (frame_at channel_id payload offset) offset)))
    ]

pub send_loop_first-Carries :
    (f channel_id : ℕ) (payload : Bytes)
    → 0 < f
    → max_payload_len < length payload
    → Carries
        (length payload - min 6 (length payload - max_payload_len))
        (send_loop f [] channel_id payload 0)
unfolding send_loop
send_loop_first-Carries zero channel_id payload z h = absurd (omega arith)
send_loop_first-Carries (suc f) channel_id payload _ h =
    rw (lt→ltb 0 (length payload) (omega arith)) (
      after_frame-Carries (frame_at channel_id payload 0) _ _ _
        (omega
          (arith, length-drop-frame_at channel_id payload 0, length-frame_at channel_id payload 0))
        (send_loop-Carries f channel_id payload (next_offset (frame_at channel_id payload 0) 0)))

-- Data that fits in one frame goes out whole.
pub send_loop_one :
    (f channel_id : ℕ) (payload : Bytes)
    → 0 < f
    → 0 < length payload
    → length payload ≤ max_payload_len
    → send_loop f [] channel_id payload 0
      ≡ some (record {
        frames = build_frame channel_id false payload ∷ [];
        failed = false;
        writer = [];
      })
unfolding send_loop
send_loop_one zero channel_id payload z pos fits = absurd (omega arith)
send_loop_one (suc zero) channel_id payload _ pos fits = ground (
  arith,
  take-all (min (length payload) max_payload_len) payload,
  length-build_frame channel_id false payload,
)
send_loop_one (suc (suc f)) channel_id payload _ pos fits = ground (
  arith,
  take-all (min (length payload) max_payload_len) payload,
  length-build_frame channel_id false payload,
)
