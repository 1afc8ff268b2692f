-- ===== src/Devices/Buffer.antt =====
-- HIDBuffer::read and HIDBuffer::write (devices.cpp).
pub mod Array
pub mod Stream
pub mod Read
pub mod Answer
pub mod Overflow
pub mod Write
pub mod Quiet
use trezor_plugin.Prelude.{
  ℕ, zero, suc, ◌+◌, ◌-◌, min, Bool, not, Option, none, some, List, [], ◌∷◌, ◌++◌, Bytes, codes,
  length, take, drop, replicate, ltb, if◌then◌else◌,
}
use trezor_plugin.Prelude.Int.{to_size}
use trezor_plugin.Exceptions.{Outcome, ok, throw, fault, blocked, out_of_fuel}
use trezor_plugin.Exceptions.{read_error, write_error, read_timeout, thread_interrupted}
use trezor_plugin.Devices.State.{
  HidRead, received, nothing, failed, ReadStep, Wire, HidBuffer, buffer_size, update, store_byte,
  Progress, Action, after,
}

-- The loop that appends a chunk's payload. `none`: it wrote past the end of the array.
unfoldable pub buffer_bytes : Bytes → HidBuffer → Option HidBuffer
buffer_bytes [] b = some b
buffer_bytes (x ∷ xs) b =
    let rest = buffer_bytes xs (store_byte x b) in
    if ltb b.buffer_length buffer_size then rest else none

-- `chlen = min(res, chunk[0] + 1)`; the payload is what stands at 1 to chlen - 1.
abbrev pub payload : ℕ → Bytes → Bytes
payload first others = take (min (length others + 1) (first + 1) - 1) others

abbrev pub error_text : (Bytes → Bytes) → Bytes → Option Bytes → Bytes
error_text utf8 default none = default
error_text utf8 default (some wide) = utf8 wide

-- One turn of the loop's body: the buffer to go on with, or how the call ends.
pub data Turn : Type 0 where
  more : HidBuffer → Turn
  stop : Outcome (Unit {0}) → Turn

abbrev pub turn_received : Bytes → HidBuffer → Turn
turn_received bytes b = elim (buffer_bytes bytes b) [ none ↦ stop fault | some b' ↦ more b' ]

-- `res == 0`: with a timeout the clock is looked at, then the thread's interruption point.
abbrev pub turn_nothing : ℕ → Bool → ReadStep → HidBuffer → Turn
turn_nothing start timeout s b =
    if not timeout
    then more b
    else if ltb b.seconds (s.now - start)
    then stop (throw read_timeout)
    else if s.interrupted
    then stop (throw thread_interrupted)
    else more b

unfoldable pub turn : (Bytes → Bytes) → ℕ → Bool → ReadStep → HidRead → HidBuffer → Turn
turn utf8 start timeout s (received first others) b = turn_received (payload first others) b
turn utf8 start timeout s nothing b = turn_nothing start timeout s b
turn utf8 start timeout s (failed err) b =
    stop (throw (read_error (error_text utf8 (codes "Unknown read error") err)))

module _ (utf8 : Bytes → Bytes) (locked : Bool) (start wanted : ℕ) (timeout : Bool) where
  -- `while (_buffer_length < length)` of HIDBuffer::read. With no further answer it waits.
  unfoldable pub fill : List ReadStep → ℕ → HidBuffer → Outcome (Unit {0}) × Progress
  fill [] now b = (
    if ltb b.buffer_length wanted then blocked else ok tt,
    record { buffer = b; reads = []; now = now },
  )
  fill (s ∷ rest) now b =
      let here : Progress = record { buffer = b; reads = s ∷ rest; now = now } in
      let round : Outcome (Unit {0}) × Progress = elim (turn utf8 start timeout s s.answer b) [
        | more b' ↦ fill rest s.now b'
        | stop r ↦ (r, record { buffer = b; reads = rest; now = s.now })
      ] in
      if ltb b.buffer_length wanted
      then (if locked then (blocked, here) else round)
      else (ok tt, here)

-- `bytes[i] = _buffer[i]`, for `n` places from `i` on.
unfoldable pub copy_out : (ℕ → ℕ) → ℕ → ℕ → Bytes
copy_out cells i zero = []
copy_out cells i (suc n) = cells i ∷ copy_out cells (i + 1) n

-- `for (; i < _buffer_length; i++) _buffer[i - length] = _buffer[i]`, with `n` rounds left.
unfoldable pub shift : ℕ → ℕ → ℕ → (ℕ → ℕ) → ℕ → ℕ
shift wanted zero i cells = cells
shift wanted (suc n) i cells = shift wanted n (i + 1) (update cells (i - wanted) (cells i))

-- What is read from the filled buffer, and the buffer without it.
unfoldable pub take_front : ℕ → HidBuffer → Bytes × HidBuffer
unfolding copy_out shift
take_front wanted b =
    let left = b.buffer_length - wanted in
    (
      copy_out b.cells 0 wanted,
      record b { cells = shift wanted left wanted b.cells; buffer_length = left },
    )

abbrev pub run_front : ℕ → (Unit {0}) → Action Bytes
run_front wanted _ io =
    let (bytes, b) = take_front wanted io.buffer in (ok bytes, record io { buffer = b })

-- HIDBuffer::read: the bytes that it stores through its pointer are its result.
unfoldable pub read : (Bytes → Bytes) → ℕ → Bool → Action Bytes
read utf8 wanted timeout io =
    let w = io.wire in
    let (r, p) = fill utf8 w.locked w.now wanted timeout w.reads w.now io.buffer in
    after (run_front wanted) r
      (record { buffer = p.buffer; wire = record w { reads = p.reads; now = p.now } })

-- A report: its number of bytes, 63 always, the bytes, and zeros.
unfoldable pub chunk : Bytes → Bytes
chunk bytes = 63 ∷ (take 63 bytes ++ replicate (63 - min 63 (length bytes)) 0)

-- The loop of HIDBuffer::write over what is left; `res < sizeof(chunk)` compares as size_t.
unfoldable pub write_loop : (Bytes → Bytes) → ℕ → Bytes → Wire → Outcome (Unit {0}) × Wire
write_loop utf8 fuel [] w = (ok tt, w)
write_loop utf8 zero (x ∷ xs) w = (out_of_fuel, w)
write_loop utf8 (suc fuel) (x ∷ xs) w =
    let result = w.write_result (length w.sent) in
    let w' = record w { sent = w.sent ++ (chunk (x ∷ xs) ∷ []) } in
    let next = write_loop utf8 fuel (drop 63 (x ∷ xs)) w' in
    if w.locked
    then (blocked, w)
    else if ltb (to_size result) 64
    then (throw (write_error (error_text utf8 (codes "Unknown read error") w.last_error)), w')
    else next

-- HIDBuffer::write. A round sends 63 bytes or the rest, so the length is fuel enough.
unfoldable pub write : (Bytes → Bytes) → Bytes → Action (Unit {0})
write utf8 bytes io =
    let (r, w) = write_loop utf8 (length bytes) bytes io.wire in (r, record io { wire = w })
