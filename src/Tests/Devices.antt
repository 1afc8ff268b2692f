-- ===== src/Tests/Devices.antt =====
-- The buffer at work.
use trezor_plugin.Prelude.{◌≤◌, ◌≡◌, ◌≢◌, refl, true, List, [], ◌∷◌, Bytes, All, arith}
use trezor_plugin.Prelude.Int.{pos, negsuc}
use trezor_plugin.Prelude.{false, map, ◌++◌, replicate, if◌then◌else◌, ltb}
use trezor_plugin.Exceptions.{blocked, read_timeout, ok, throw, fault}
use trezor_plugin.Devices.State.{Io, new_buffer, buffer_size, ReadStep}
use trezor_plugin.Devices.Buffer.{read, write, fill, turn, buffer_bytes, take_front, copy_out}
use trezor_plugin.Devices.Buffer.Stream.{IsHidRead}
use trezor_plugin.Devices.Buffer.Read.{Reads, read-Reads, read_in_bounds}
use trezor_plugin.Devices.Buffer.Answer.{Answers, IsReady, read-Answers}
use trezor_plugin.Devices.Buffer.Overflow.{read_overflows}
use trezor_plugin.Devices.Buffer.Write.{Sends, write-Sends, write_negative}
use trezor_plugin.Devices.Buffer.Write.Short.{reports_of, refused, write_short}
use trezor_plugin.Devices.Buffer.Quiet.{quiet, waiting, read_times_out, read_deaf}
use trezor_plugin.Tests.{io_with, three_bytes, wire_with}

abbrev same_text : Bytes → Bytes
same_text s = s

read-Reads_example : Reads 2 three_bytes (read same_text 2 true three_bytes)
read-Reads_example = read-Reads same_text 2 true three_bytes

-- The read of two of the three bytes.
read_test : (read same_text 2 true three_bytes).0 ≡ ok (1 ∷ 2 ∷ [])
unfolding read fill turn buffer_bytes take_front
read_test = refl

three_bytes-IsHidRead : All (λ s. IsHidRead s.answer) three_bytes.wire.reads
three_bytes-IsHidRead = (tt, (omega arith, tt))

read_in_bounds_example :
    ((read same_text 2 true three_bytes).0 ≢ fault)
    × ((read same_text 2 true three_bytes).1.buffer.buffer_length ≤ buffer_size)
read_in_bounds_example =
    read_in_bounds same_text 2 true three_bytes (omega arith) three_bytes-IsHidRead (omega arith)

three_bytes-IsReady : IsReady 100 three_bytes
three_bytes-IsReady = record {
  free = refl;
  begun = omega arith;
  prompt = ((omega arith, omega arith, refl), ((omega arith, omega arith), tt));
}

read-Answers_example : Answers 100 2 three_bytes (read same_text 2 true three_bytes)
unfolding copy_out
read-Answers_example =
    read-Answers same_text 100 2 true three_bytes three_bytes-IsReady (omega arith) (omega arith)

read_overflows_example :
    (steps : List ReadStep) × All (λ s. IsHidRead s.answer) steps
    × ((read same_text 2000 true
          (record { buffer = new_buffer; wire = record (wire_with []) { reads = steps } })).0
        ≡ fault)
read_overflows_example =
    read_overflows same_text 2000 true (wire_with []) (omega arith) (omega arith) refl

write-Sends_example :
    ((write same_text (7 ∷ 8 ∷ []) three_bytes).0 ≡ ok tt)
    × Sends (7 ∷ 8 ∷ []) three_bytes.wire (write same_text (7 ∷ 8 ∷ []) three_bytes).1.wire
    × ((write same_text (7 ∷ 8 ∷ []) three_bytes).1.buffer ≡ three_bytes.buffer)
write-Sends_example = write-Sends same_text (7 ∷ 8 ∷ []) three_bytes refl (λ k. omega arith)

-- A device that takes ten bytes of a report, and one whose writes fail.
abbrev slow : Io
slow = record three_bytes { wire = record (wire_with []) { write_result = λ k. pos 10 } }

abbrev unplugged : Io
unplugged = record three_bytes { wire = record (wire_with []) { write_result = λ k. negsuc 0 } }

-- A device that takes one report, and ten bytes of the next.
abbrev stalling : Io
stalling = record (io_with []) {
  wire = record ((io_with []).wire) { write_result = λ k. if ltb k 1 then pos 64 else pos 10 };
}

write_short_example : write same_text (replicate 100 7) stalling ≡ (
  refused same_text stalling.wire,
  record stalling { wire = record (stalling.wire) { sent = reports_of 2 (replicate 100 7) } },
)
write_short_example =
    write_short same_text 1 (replicate 100 7) stalling 10 (omega arith) refl (λ j h. ground arith)
      refl (omega arith)

write_negative_example : (write same_text (7 ∷ 8 ∷ []) unplugged).0 ≡ ok tt
write_negative_example =
    write_negative same_text (7 ∷ 8 ∷ []) unplugged refl (λ k. (0, omega arith, refl))

-- Rounds at 101 and 110, and one at 116, which is later than 15 seconds after 100.
read_times_out_example :
    read same_text 2 true (record (io_with []) {
      wire = record ((io_with []).wire) {
        reads = map waiting (101 ∷ 110 ∷ []) ++ (quiet (116, false) ∷ []);
      };
    })
    ≡ (
      throw read_timeout,
      record (io_with []) { wire = record ((io_with []).wire) { reads = []; now = 116 } },
    )
read_times_out_example =
    read_times_out same_text 2 (101 ∷ 110 ∷ []) 116 false [] (io_with []) refl (omega arith)
      (omega arith, (omega arith, tt)) (omega arith)

read_deaf_example :
    (read same_text 2 false (record (io_with []) {
      wire = record ((io_with []).wire) { reads = map quiet ((101, true) ∷ (900, true) ∷ []) };
    })).0
    ≡ blocked
read_deaf_example =
    read_deaf same_text 2 ((101, true) ∷ (900, true) ∷ []) (io_with []) refl (omega arith)
