-- ===== src/Reverse/Frame/Bounds.antt =====
-- What is known of a frame that `readFrameFromBroker` accepts, whatever the peer sends.
use circonus_agent.Prelude.{
  ℕ, ◌^◌, ◌≤◌, ◌<◌, ◌≡◌, refl, inl, inr, Option, none, some, [], ◌∷◌, arith, ltb, Bool-cases,
  length,
}
use circonus_agent.Prelude.Bytes.{Bytes}
use circonus_agent.Reverse.Frame.{
  NoitHeader, NoitFrame, max_payload_len, NetError, Reader, err, read, Result, sized, read_bytes,
  parse_header, map_ok, read_frame_header, read_frame_payload, framed, read_after_header,
  read_frame_from_broker, ok,
}

length-sized :
    (size : ℕ) (bs : Bytes) (e : Option NetError) {out : Bytes}
    → sized size bs e ≡ ok out
    → length out ≡ size
length-sized size bs none h = ground arith
length-sized size [] (some e) h = absurd (ground arith)
length-sized size (b ∷ bs) (some e) h = ground arith

length-read_bytes :
    (r : Reader) (size : ℕ) {out : Bytes} → (read_bytes r size).0 ≡ ok out → length out ≡ size
unfolding read_bytes
length-read_bytes r size h = ground (arith, length-sized size (read r size).bytes (read r size).err)

parse_header_channel : (bs : Bytes) → (parse_header bs).channel_id < 2 ^ 15
unfolding parse_header
parse_header_channel (a ∷ b ∷ c ∷ d ∷ e ∷ f ∷ _) = omega arith
parse_header_channel _ = omega arith

abbrev Accepted : NoitFrame → Type 0
Accepted f =
    (f.header.channel_id < 2 ^ 15)
    × (length f.payload ≡ f.header.payload_len)
    × (f.header.payload_len ≤ max_payload_len)

map_ok-Accepted :
    (hdr : NoitHeader) (p : Result Bytes × Reader) {f : NoitFrame}
    → hdr.channel_id < 2 ^ 15
    → hdr.payload_len ≤ max_payload_len
    → ((out : Bytes) → p.0 ≡ ok out → length out ≡ hdr.payload_len)
    → (map_ok (framed hdr) p).0 ≡ ok f
    → Accepted f
map_ok-Accepted hdr (ok out, r) c l k h = ground (arith, k out)
map_ok-Accepted hdr (err e, r) c l k h = absurd (ground arith)

read_after_header-Accepted :
    (p : Result NoitHeader × Reader) {f : NoitFrame}
    → ((hdr : NoitHeader) → p.0 ≡ ok hdr → hdr.channel_id < 2 ^ 15)
    → (read_after_header p).0 ≡ ok f
    → Accepted f
unfolding read_frame_payload
read_after_header-Accepted (err e, r) c h = absurd (ground arith)
read_after_header-Accepted (ok hdr, r) c h =
    elim (Bool-cases (ltb max_payload_len hdr.payload_len)) [
      | inl over ↦ absurd (ground arith)
      | inr fits ↦
          map_ok-Accepted hdr (read_frame_payload r hdr.payload_len) (c hdr refl) (ground arith)
            (λ out. length-read_bytes r hdr.payload_len) (rw fits at h)
    ]

map_ok_channel :
    (p : Result Bytes × Reader) (hdr : NoitHeader)
    → (map_ok parse_header p).0 ≡ ok hdr
    → hdr.channel_id < 2 ^ 15
map_ok_channel (ok bs, r) hdr h = ground (arith, parse_header_channel bs)
map_ok_channel (err e, r) hdr h = absurd (ground arith)

-- A frame that is accepted has a channel below 2 ^ 15, and its payload is exactly as long as its
-- header says, at most `MaxPayloadLen`.
pub read_frame_from_broker_bounds :
    (r : Reader) {f : NoitFrame}
    → (read_frame_from_broker r).0 ≡ ok f
    → (f.header.channel_id < 2 ^ 15)
      × (length f.payload ≡ f.header.payload_len)
      × (f.header.payload_len ≤ max_payload_len)
unfolding read_frame_from_broker read_frame_header
read_frame_from_broker_bounds r =
    read_after_header-Accepted (read_frame_header r) (map_ok_channel (read_bytes r 6))
