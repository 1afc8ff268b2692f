-- ===== src/Devices/Buffer/Overflow.antt =====
-- HIDBuffer::read (devices.cpp) beyond the safe length.
use trezor_plugin.Prelude.{
  ◌∙◌, refl, ℕ, zero, suc, ◌+◌, ◌*◌, ◌≤◌, ◌<◌, ◌≡◌, ap, Bool, false, List, [], ◌∷◌, Bytes,
  replicate, arith, All,
}
use trezor_plugin.Exceptions.{Outcome, ok, throw, fault, blocked, out_of_fuel}
use trezor_plugin.Devices.State.{
  received, ReadStep, HidBuffer, buffer_size, Wire, Io, new_buffer, Action, after,
}
use trezor_plugin.Devices.Buffer.{turn_received, turn, fill, run_front, read}
use trezor_plugin.Devices.Buffer.Array.{
  buffer_bytes_fits, buffer_bytes_overflow, buffer_bytes-contents,
}
use trezor_plugin.Devices.Buffer.Stream.{IsHidRead, fill_more, fill_stop}
use trezor_plugin.Devices.Buffer.Read.{safe_length}

-- A report of `n` payload bytes.
abbrev pub report_with : ℕ → ReadStep
report_with n = record { answer = received n (replicate n 0); now = 0; interrupted = false }

-- 33 bytes and then 32 times 63, which leaves room for 62 bytes before the last report.
abbrev pub crowding : List ReadStep
crowding = report_with 33 ∷ replicate 32 (report_with 63)

crowding-IsHidRead : All (λ s. IsHidRead s.answer) crowding
crowding-IsHidRead = omega arith

module _ (utf8 : Bytes → Bytes) (locked : Bool) (start wanted : ℕ) (timeout : Bool) where
  fill_full :
      (n now : ℕ) (b : HidBuffer)
      → locked ≡ false
      → safe_length < wanted
      → b.buffer_length + 63 * n ≡ safe_length
      → (fill utf8 locked start wanted timeout (replicate (suc n) (report_with 63)) now b).0 ≡ fault
  unfolding turn
  fill_full zero now b hl hw size =
      fill_stop utf8 locked start wanted timeout (report_with 63) [] now b fault hl (omega arith)
        (rw (buffer_bytes_overflow (replicate 63 0) b (omega arith) (omega arith), turn_received))
  fill_full (suc n) now b hl hw size =
      let (b', e) = buffer_bytes_fits (replicate 63 0) b (omega arith) in
      let (_, grown, _) = buffer_bytes-contents (replicate 63 0) b e in
      let next =
        fill_more utf8 locked start wanted timeout (report_with 63)
          (replicate (suc n) (report_with 63)) now b b' hl (omega arith) (rw (e, turn_received)) in
      ap (λ t. t.0) next ∙ fill_full n 0 b' hl hw (omega arith)

  fill-crowding :
      (now : ℕ)
      → locked ≡ false
      → safe_length < wanted
      → (fill utf8 locked start wanted timeout crowding now new_buffer).0 ≡ fault
  unfolding turn
  fill-crowding now hl hw =
      let (b', e) = buffer_bytes_fits (replicate 33 0) new_buffer (omega arith) in
      let (_, grown, _) = buffer_bytes-contents (replicate 33 0) new_buffer e in
      let next =
        fill_more utf8 locked start wanted timeout (report_with 33) (replicate 32 (report_with 63))
          now new_buffer b' hl (omega arith) (rw (e, turn_received)) in
      ap (λ t. t.0) next ∙ fill_full 31 0 b' hl hw (omega arith)

-- What follows a fault is a fault.
after_fault :
    {A B : Type 0} (f : A → Action B) (r : Outcome A) (io : Io)
    → r ≡ fault
    → (after f r io).0 ≡ fault
after_fault f (ok a) io e = cc
after_fault f (throw x) io e = cc
after_fault f fault io e = refl
after_fault f blocked io e = cc
after_fault f out_of_fuel io e = cc

-- Every wanted length from 1987 to 2048, which DeviceChannel::read lets through, has a device with
-- reports of at most 64 bytes that makes HIDBuffer::read, on a new buffer and with the mutex
-- free, write past its array.
pub read_overflows :
    (utf8 : Bytes → Bytes) (wanted : ℕ) (timeout : Bool) (w : Wire)
    → safe_length < wanted
    → wanted ≤ buffer_size
    → w.locked ≡ false
    → (steps : List ReadStep) × All (λ s. IsHidRead s.answer) steps
      × ((read utf8 wanted timeout
            (record { buffer = new_buffer; wire = record w { reads = steps } })).0
          ≡ fault)
unfolding read
read_overflows utf8 wanted timeout w lo hi free = (
  crowding,
  crowding-IsHidRead,
  after_fault (run_front wanted) _ _
      (fill-crowding utf8 w.locked w.now wanted timeout w.now free lo),
)
