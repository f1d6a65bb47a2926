-- ===== src/Reverse/Frame/RoundTrip.antt =====
-- What is written by `buildFrame` is what `readFrameFromBroker` reads.
use mathlib.Core.List.{append-nil}
use circonus_agent.Prelude.{
  ℕ, ◌+◌, ◌%◌, ◌^◌, ◌≤◌, ◌<◌, ◌≡◌, refl, Bool, true, false, Option, none, [], ◌∷◌, ◌++◌, arith,
  ◌==◌, if◌then◌else◌, length, take, drop, length-append, take-length-append, drop-length-append,
}
use circonus_agent.Prelude.Bytes.{Bytes}
use circonus_agent.Reverse.Frame.{
  NoitHeader, max_payload_len, build_frame, NetError, Reader, read_bytes, parse_header,
  read_frame_header, read_frame_payload, read_frame_from_broker, ok,
}

pub length-build_frame :
    (channel_id : ℕ) (is_command : Bool) (payload : Bytes)
    → length (build_frame channel_id is_command payload) ≡ length payload + 6
unfolding build_frame
length-build_frame channel_id is_command payload = omega arith

pub drop-build_frame :
    (channel_id : ℕ) (is_command : Bool) (payload : Bytes)
    → drop 6 (build_frame channel_id is_command payload) ≡ payload
unfolding build_frame
drop-build_frame channel_id is_command payload = refl

-- The header that stands in a frame.
abbrev pub header_of : ℕ → Bool → Bytes → NoitHeader
header_of channel_id is_command payload = record {
  channel_id = channel_id % 2 ^ 15;
  is_command = is_command;
  payload_len = length payload;
}

header_of_lem :
    (channel_id : ℕ) (is_command : Bool) (payload : Bytes)
    → length payload < 2 ^ 32
    → parse_header (take 6 (build_frame channel_id is_command payload))
      ≡ header_of channel_id is_command payload
unfolding build_frame parse_header
header_of_lem channel_id true payload h = ground arith
header_of_lem channel_id false payload h = ground arith

-- One delivery that holds at least `size` bytes gives them.
abbrev pub left_over : Bytes → Option NetError → Reader → Reader
left_over [] e r = r
left_over bs e r = (bs, e) ∷ r

read_bytes_within :
    (xs ys : Bytes) (r : Reader)
    → read_bytes ((xs ++ ys, none) ∷ r) (length xs)
      ≡ (ok xs, if length xs == 0 then (xs ++ ys, none) ∷ r else left_over ys none r)
unfolding read_bytes
read_bytes_within [] ys r = refl
read_bytes_within (x ∷ xs) [] r = simp (append-nil) (ground arith)
read_bytes_within (x ∷ xs) (y ∷ ys) r = ground (
  arith,
  length-append xs (y ∷ ys),
  take-length-append xs (y ∷ ys),
  drop-length-append xs (y ∷ ys),
)

split_frame :
    (channel_id : ℕ) (is_command : Bool) (payload ys : Bytes)
    → build_frame channel_id is_command payload ++ ys
      ≡ take 6 (build_frame channel_id is_command payload) ++ (payload ++ ys)
unfolding build_frame
split_frame channel_id is_command payload ys = refl

length_header :
    (channel_id : ℕ) (is_command : Bool) (payload : Bytes)
    → length (take 6 (build_frame channel_id is_command payload)) ≡ 6
unfolding build_frame
length_header channel_id is_command payload = omega arith

read_header_within :
    (channel_id : ℕ) (is_command : Bool) (payload ys : Bytes) (r : Reader)
    → length payload < 2 ^ 32
    → read_frame_header ((build_frame channel_id is_command payload ++ ys, none) ∷ r)
      ≡ (ok (header_of channel_id is_command payload), left_over (payload ++ ys) none r)
unfolding read_frame_header
read_header_within channel_id is_command payload ys r h =
    rw (split_frame channel_id is_command payload ys) (
      ground (
        arith,
        read_bytes_within (take 6 (build_frame channel_id is_command payload)) (payload ++ ys) r,
        header_of_lem channel_id is_command payload h,
        length_header channel_id is_command payload,
      ))

read_payload_within :
    (payload ys : Bytes) (r : Reader)
    → read_frame_payload (left_over (payload ++ ys) none r) (length payload)
      ≡ (ok payload, left_over ys none r)
unfolding read_frame_payload
read_payload_within [] ys r = refl
read_payload_within (x ∷ xs) ys r = ground (arith, read_bytes_within (x ∷ xs) ys r)

-- A frame that `buildFrame` makes of at most `MaxPayloadLen` bytes is read back whole, with what came
-- in the same delivery left for the next read: the payload and the command flag as they were given,
-- the channel without its highest bit.
pub read_frame_from_broker-build_frame :
    (channel_id : ℕ) (is_command : Bool) (payload ys : Bytes) (r : Reader)
    → length payload ≤ max_payload_len
    → read_frame_from_broker ((build_frame channel_id is_command payload ++ ys, none) ∷ r) ≡ (
      ok (record {
        header = record {
          channel_id = channel_id % 2 ^ 15;
          is_command = is_command;
          payload_len = length payload;
        };
        payload = payload;
      }),
      left_over ys none r,
    )
unfolding read_frame_from_broker
read_frame_from_broker-build_frame channel_id is_command payload ys r h =
    ground (
      arith,
      read_header_within channel_id is_command payload ys r,
      read_payload_within payload ys r,
    )
