-- ===== src/Reverse/Frame.antt =====
-- internal/reverse/connection/frame.go: frames of the broker's protocol.
pub mod RoundTrip
pub mod Bounds
use circonus_agent.Prelude.{
  ℕ, ◌+◌, ◌*◌, ◌/◌, ◌%◌, ◌^◌, Bool, true, false, Option, none, some, List, [], ◌∷◌, ◌++◌, ltb, ◌==◌,
  if◌then◌else◌, length, take, drop,
}
use circonus_agent.Prelude.Bytes.{Bytes}

pub record NoitHeader : Type 0 where
  pub channel_id : ℕ
  pub is_command : Bool
  pub payload_len : ℕ

pub record NoitFrame : Type 0 where
  pub header : NoitHeader
  pub payload : Bytes

abbrev pub max_payload_len : ℕ
max_payload_len = 65529

-- `binary.BigEndian.PutUint16` and `PutUint32`, of a number that fits.
abbrev pub put_uint16 : ℕ → Bytes
put_uint16 n = (n / 2 ^ 8) ∷ (n % 2 ^ 8) ∷ []

abbrev pub put_uint32 : ℕ → Bytes
put_uint32 n = (n / 2 ^ 24) ∷ (n / 2 ^ 16 % 2 ^ 8) ∷ (n / 2 ^ 8 % 2 ^ 8) ∷ (n % 2 ^ 8) ∷ []

abbrev cmd_flag : Bool → ℕ
cmd_flag true = 0x8000
cmd_flag false = 0

-- `channelID & 0x7fff | cmdFlag` is the sum, since no bit is set in both. `uint32(len(payload))`
-- wraps.
unfoldable pub build_frame : ℕ → Bool → Bytes → Bytes
build_frame channel_id is_command payload =
    put_uint16 (channel_id % 2 ^ 15 + cmd_flag is_command)
    ++ (put_uint32 (length payload % 2 ^ 32) ++ payload)

-- What a read can fail with. `net_op` is a `*net.OpError`, with its `Timeout()`.
pub data NetError : Type 0 where
  net_op : Bool → NetError
  eof : NetError

pub data ReadError : Type 0 where
  net : NetError → ReadError
  invalid_read : ℕ → ℕ → ReadError
  oversized : ℕ → ReadError

-- What the connection has to offer, one entry for each `Read` that drains it: the bytes that have
-- arrived, and the error that comes with them, if any. Past the last entry there is the end of file.
abbrev pub Reader : Type 0
Reader = List (Bytes × Option NetError)

pub record Read : Type 0 where
  pub bytes : Bytes
  pub err : Option NetError
  pub rest : Reader

-- `Read` through `io.LimitReader(r, size)` into a buffer of `size` bytes: never more than `size`, and
-- bytes that do not fit wait for the next call.
unfoldable pub read : Reader → ℕ → Read
read [] size = record { bytes = []; err = some eof; rest = [] }
read ((bs, e) ∷ r) size =
    if ltb size (length bs)
    then record { bytes = take size bs; err = none; rest = (drop size bs, e) ∷ r }
    else record { bytes = bs; err = e; rest = r }

pub data Result {ℓ} (A : Type ℓ) : Type ℓ where
  ok : A → Result A
  err : ReadError → Result A

-- The checks of `readBytes` behind its `Read`: an error counts only where nothing was read.
abbrev pub sized : ℕ → Bytes → Option NetError → Result Bytes
sized size bs none = if length bs == size then ok bs else err (invalid_read size (length bs))
sized size [] (some e) = err (net e)
sized size (b ∷ bs) (some e) =
    if length (b ∷ bs) == size then ok (b ∷ bs) else err (invalid_read size (length (b ∷ bs)))

unfoldable pub read_bytes : Reader → ℕ → Result Bytes × Reader
unfolding read
read_bytes r size =
    if size == 0
    then (ok [], r)
    else (sized size (read r size).bytes (read r size).err, (read r size).rest)

abbrev pub get_uint16 : ℕ → ℕ → ℕ
get_uint16 a b = a * 2 ^ 8 + b

abbrev pub get_uint32 : ℕ → ℕ → ℕ → ℕ → ℕ
get_uint32 a b c d = a * 2 ^ 24 + b * 2 ^ 16 + c * 2 ^ 8 + d

-- The six bytes of a header. A shorter slice does not come out of `readBytes`; Go would panic on it.
unfoldable pub parse_header : Bytes → NoitHeader
parse_header (a ∷ b ∷ c ∷ d ∷ e ∷ f ∷ _) = record {
  channel_id = get_uint16 a b % 2 ^ 15;
  is_command = ltb 0 (get_uint16 a b / 2 ^ 15 % 2);
  payload_len = get_uint32 c d e f;
}
parse_header _ = record { channel_id = 0; is_command = false; payload_len = 0 }

abbrev pub map_ok {ℓ κ} :
    {A : Type ℓ} {B : Type κ} → (A → B) → Result A × Reader → Result B × Reader
map_ok f (ok a, r) = (ok (f a), r)
map_ok f (err e, r) = (err e, r)

unfoldable pub read_frame_header : Reader → Result NoitHeader × Reader
unfolding read_bytes parse_header
read_frame_header r = map_ok parse_header (read_bytes r 6)

unfoldable pub read_frame_payload : Reader → ℕ → Result Bytes × Reader
unfolding read_bytes
read_frame_payload r size = read_bytes r size

abbrev pub framed : NoitHeader → Bytes → NoitFrame
framed hdr payload = record { header = hdr; payload = payload }

-- The part of `readFrameFromBroker` behind the header.
abbrev pub read_after_header : Result NoitHeader × Reader → Result NoitFrame × Reader
read_after_header (err e, r) = (err e, r)
read_after_header (ok hdr, r) =
    if ltb max_payload_len hdr.payload_len
    then (err (oversized hdr.payload_len), r)
    else map_ok (framed hdr) (read_frame_payload r hdr.payload_len)

-- The deadlines set on the connection show only as the timeouts that a read fails with.
unfoldable pub read_frame_from_broker : Reader → Result NoitFrame × Reader
unfolding read_frame_header read_frame_payload
read_frame_from_broker r = read_after_header (read_frame_header r)
