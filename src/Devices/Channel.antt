-- ===== src/Devices/Channel.antt =====
-- DeviceChannel (devices.h, devices.cpp): messages over the buffer.
pub mod Fields
pub mod Header
pub mod Total
pub mod Loopback
pub mod Received
pub mod Fixed
use trezor_plugin.Prelude.{
  ℕ, zero, suc, ◌+◌, ◌-◌, ◌*◌, ◌/◌, ◌%◌, ◌^◌, Bool, true, false, Option, none, some, List, [], ◌∷◌,
  ◌++◌, Bytes, codes, length, ltb, ◌==◌, if◌then◌else◌,
}
use trezor_plugin.Exceptions.{
  Outcome, ok, throw, fault, blocked, out_of_fuel, read_error, open_error,
}
use trezor_plugin.Libraries.Protobuf.{Protobuf}
use trezor_plugin.Messages.Names.{type_of_message, decode}
use trezor_plugin.Devices.State.{Wire, Io, Action, pure, raise, after, ◌>>=◌, ◌>>◌, buffer_size}
use trezor_plugin.Devices.Buffer.{read, write}
use trezor_plugin.Devices.Buffer.Stream.{stream}

-- The byte order of the host, which htons, htonl and their inverses depend on.
pub data Endian : Type 0 where
  little big : Endian

-- htons, and ntohs, on a uint16_t.
unfoldable pub swap16 : Endian → ℕ → ℕ
swap16 big n = n
swap16 little n = n % 256 * 256 + n / 256

-- htonl, and ntohl, on a uint32_t.
unfoldable pub swap32 : Endian → ℕ → ℕ
swap32 big n = n
swap32 little n =
    n % 256 * 2 ^ 24 + n / 2 ^ 8 % 256 * 2 ^ 16 + n / 2 ^ 16 % 256 * 2 ^ 8 + n / 2 ^ 24

-- The eight bytes that DeviceChannel::write puts before a message.
unfoldable pub header : Endian → ℕ → ℕ → Bytes
unfolding swap16 swap32
header e type msgsize =
    let type' = swap16 e type in
    let length' = swap32 e (msgsize % 2 ^ 32) in
    b'#'
    ∷ b'#'
    ∷ (type' % 256)
    ∷ (type' / 2 ^ 8 % 256)
    ∷ (length' % 256)
    ∷ (length' / 2 ^ 8 % 256)
    ∷ (length' / 2 ^ 16 % 256)
    ∷ (length' / 2 ^ 24 % 256)
    ∷ []

abbrev pub byte_at : ℕ → Bytes → ℕ
byte_at i [] = 0
byte_at zero (x ∷ xs) = x
byte_at (suc i) (x ∷ xs) = byte_at i xs

-- The two fields of the six bytes behind the magic characters. The shifted bytes share no bit, so
-- `|` is written `+`.
unfoldable pub fields : Endian → Bytes → ℕ × ℕ
unfolding swap16 swap32
fields e h = (
  swap16 e (byte_at 0 h + byte_at 1 h * 2 ^ 8),
  swap32 e (byte_at 2 h + byte_at 3 h * 2 ^ 8 + byte_at 4 h * 2 ^ 16 + byte_at 5 h * 2 ^ 24),
)

-- A result of the message functions, in the device layer.
abbrev pub lift : {A : Type 0} → Outcome A → Action A
lift r io = (r, io)

module _ (utf8 : Bytes → Bytes) (e : Endian) (timeout : Bool) where
  -- `while (header[0] != '#')`, from the first read of a byte on.
  unfoldable pub align : ℕ → Action (Unit {0})
  align zero = raise out_of_fuel
  align (suc fuel) = read utf8 1 timeout >>= λ h.
      let again = align fuel in if byte_at 0 h == b'#' then pure tt else again

  -- What follows the second magic character, if `h` is that.
  unfoldable pub header_fields : Bytes → Action (ℕ × ℕ)
  header_fields h =
      let rest : Action (ℕ × ℕ) = (do six ← read utf8 6 timeout; pure (fields e six)) in
      if byte_at 0 h == b'#'
      then rest
      else raise (throw (read_error (codes "Failed to read header")))

  -- Every round takes a byte of the stream, so one more than its length is fuel enough.
  unfoldable pub read_header : Action (ℕ × ℕ)
  unfolding align header_fields
  read_header io =
      (do align (suc (length (stream io))); h ← read utf8 1 timeout; header_fields h) io

  module _ (pb : Protobuf) (pool : pb.Pool) where
    -- What follows the header.
    unfoldable pub read_body : ℕ × ℕ → Action (pb.Message)
    unfolding decode
    read_body (type, size) =
        let rest : Action (pb.Message) = (do
          body ← read utf8 size timeout
          lift (decode pb pool type body)) in
        if ltb buffer_size size then raise (throw (read_error (codes "Invalid data"))) else rest

    -- DeviceChannel::read
    unfoldable pub read_message : Action (pb.Message)
    unfolding read_header read_body
    read_message = do f ← read_header; read_body f

-- The whole of what DeviceChannel::write hands to the buffer.
unfoldable pub frame : Endian → ℕ → ℕ → Bytes → Bytes
unfolding header
frame e type msgsize bytes = header e type msgsize ++ (if msgsize == 0 then [] else bytes)

-- DeviceChannel::write
unfoldable pub write_message :
    (utf8 : Bytes → Bytes) (e : Endian) (pb : Protobuf) → pb.Pool → pb.Message → Action (Unit {0})
unfolding frame type_of_message
write_message utf8 e pb pool m = do
  type ← lift (type_of_message pb pool m)
  let msgsize = pb.byte_size m
  write utf8 (frame e type msgsize (pb.serialize m msgsize))

-- DeviceChannel::open: both feature reports are sent, whatever comes of them.
unfoldable pub open_channel : Bytes → Wire → Outcome (Unit {0}) × Wire
open_channel path w =
    let w' = record w { opened = w.opened ++ (path ∷ []) } in
    let w'' = record w' {
      handles = w.handles + 1;
      features = w.features ++ ((0x41 ∷ 0x01 ∷ []) ∷ (0x43 ∷ 0x03 ∷ []) ∷ []);
    } in
    if w.locked
    then (blocked, w)
    else if w.open_result (length w.opened)
    then (ok tt, w'')
    else (throw open_error, w')

-- DeviceChannel::close
unfoldable pub close_channel : Wire → Outcome (Unit {0}) × Wire
close_channel w = if w.locked then (blocked, w) else (ok tt, record w { handles = w.handles - 1 })
