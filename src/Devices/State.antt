-- ===== src/Devices/State.antt =====
-- The state that HIDBuffer (devices.h) and DeviceChannel work on, and what hidapi and the clock
-- answer them.
use trezor_plugin.Prelude.{ℕ, ◌+◌, Bool, Option, List, Bytes, ◌==◌, if◌then◌else◌}
use trezor_plugin.Prelude.Int.{ℤ}
use trezor_plugin.Exceptions.{Outcome, ok, throw, fault, blocked, out_of_fuel}

-- What one call of hid_read_timeout gives: a report (its first byte, and the others), no report
-- within the 10 ms, or an error with the wide text of hid_error, if any.
pub data HidRead : Type 0 where
  received : ℕ → Bytes → HidRead
  nothing : HidRead
  failed : Option Bytes → HidRead

-- One round of waiting: the answer, time(0) after it, and whether the thread was interrupted.
pub record ReadStep : Type 0 where
  pub answer : HidRead
  pub now : ℕ
  pub interrupted : Bool

-- The device behind its handle, as hidapi shows it: the answers to come, the results of the calls
-- of hid_write by their number, and the reports that were handed to hid_write. `locked` is set
-- when `hidapi_mutex` was left locked for good.
pub record Wire : Type 0 where
  pub locked : Bool
  pub now : ℕ
  pub reads : List ReadStep
  pub write_result : ℕ → ℤ
  pub last_error : Option Bytes
  pub sent : List Bytes
  -- hid_open_path: the paths that it was called with, whether the call of a number succeeds, how
  -- many handles are open, and the feature reports that were sent
  pub opened : List Bytes
  pub open_result : ℕ → Bool
  pub handles : ℕ
  pub features : List Bytes

-- The array is a function; a write at 2048 or beyond is undefined behaviour, see `store_byte`.
pub record HidBuffer : Type 0 where
  pub cells : ℕ → ℕ
  pub buffer_length : ℕ
  pub seconds : ℕ

abbrev pub buffer_size : ℕ
buffer_size = 2048

-- The constructor, with its default argument.
abbrev pub new_buffer : HidBuffer
new_buffer = record { cells = λ _. 0; buffer_length = 0; seconds = 15 }

abbrev pub update : (ℕ → ℕ) → ℕ → ℕ → ℕ → ℕ
update f p v q = if p == q then v else f q

-- `_buffer[_buffer_length] = x; _buffer_length++`
abbrev pub store_byte : ℕ → HidBuffer → HidBuffer
store_byte x b = record b {
  cells = update b.cells b.buffer_length x;
  buffer_length = b.buffer_length + 1;
}

-- How far the loop that fills the buffer has come.
pub record Progress : Type 0 where
  pub buffer : HidBuffer
  pub reads : List ReadStep
  pub now : ℕ

-- What the device layer works on.
pub record Io : Type 0 where
  pub buffer : HidBuffer
  pub wire : Wire

-- A call: it returns or ends otherwise, and what was done stays done.
abbrev pub Action : Type 0 → Type 0
Action A = Io → Outcome A × Io

abbrev pub pure : {A : Type 0} → A → Action A
pure a io = (ok a, io)

abbrev pub raise : {A : Type 0} → Outcome A → Action A
raise r io = (r, io)

-- What follows an outcome; only a normal return goes on.
abbrev pub after : {A B : Type 0} → (A → Action B) → Outcome A → Action B
after f (ok a) io = f a io
after f (throw e) io = (throw e, io)
after f fault io = (fault, io)
after f blocked io = (blocked, io)
after f out_of_fuel io = (out_of_fuel, io)

infixl 5 ◌>>=◌ ◌>>◌
abbrev pub ◌>>=◌ : {A B : Type 0} → Action A → (A → Action B) → Action B
◌>>=◌ m f io = let (r, io') = m io in after f r io'

abbrev pub ◌>>◌ : {A B : Type 0} → Action A → Action B → Action B
m >> k = m >>= λ _. k
