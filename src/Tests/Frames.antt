-- ===== src/Tests/Frames.antt =====
-- The channel at work.
use trezor_plugin.Prelude.{
  ℕ, ◌<◌, ◌≡◌, refl, true, List, [], ◌∷◌, ◌++◌, Bytes, codes, replicate, map, arith,
}
use trezor_plugin.Prelude.Tests.{bytes_eq}
use trezor_plugin.Exceptions.{ok, throw, read_error}
use trezor_plugin.Messages.Names.{
  type_of_message, message_type, message_name, message_descriptor, create_message, decode,
}
use trezor_plugin.Devices.State.{Io}
use trezor_plugin.Devices.Buffer.Stream.{stream}
use trezor_plugin.Devices.Buffer.{copy_out}
use trezor_plugin.Devices.Buffer.Answer.{IsReady}
use trezor_plugin.Devices.Channel.{
  little, big, swap16, swap32, header, frame, read_message, write_message,
}
use trezor_plugin.Devices.Channel.Header.{Takes, read_message-frame, read_message_too_long}
use trezor_plugin.Devices.Channel.Total.{Ends, read_message-Ends}
use trezor_plugin.Devices.Channel.Loopback.{delivered, write_message-read_message}
use trezor_plugin.Tests.{notes, hello, arriving, io_with}

abbrev same_text : Bytes → Bytes
same_text s = s

-- A stray byte, and the frame of a message of type 1.
abbrev framed : Io
framed = io_with (arriving (7 ∷ b'#' ∷ b'#' ∷ 0 ∷ 1 ∷ 0 ∷ 0 ∷ 0 ∷ 2 ∷ 10 ∷ 11 ∷ []) ∷ [])

framed-IsReady : IsReady 100 framed
framed-IsReady = record {
  free = refl;
  begun = omega arith;
  prompt = ((omega arith, omega arith), tt);
}

read_message-frame_example :
    Takes 100 [] (codes "Ping", 10 ∷ 11 ∷ []) (read_message same_text little true notes 0 framed)
unfolding copy_out frame header swap16 swap32 decode message_name create_message message_descriptor
read_message-frame_example =
    read_message-frame same_text 100 true notes 0 little 1 (10 ∷ 11 ∷ []) (7 ∷ []) []
      (codes "Ping", 10 ∷ 11 ∷ []) framed framed-IsReady (omega arith) (omega arith)
      ((λ e. omega arith), tt) refl refl

-- A header that announces 3000 bytes.
abbrev oversized : Io
oversized = io_with (arriving (b'#' ∷ b'#' ∷ 0 ∷ 1 ∷ 0 ∷ 0 ∷ 11 ∷ 184 ∷ 9 ∷ []) ∷ [])

oversized-IsReady : IsReady 100 oversized
oversized-IsReady = record {
  free = refl;
  begun = omega arith;
  prompt = ((omega arith, omega arith), tt);
}

read_message_too_long_example :
    ((read_message same_text little true notes 0 oversized).0
      ≡ throw (read_error (codes "Invalid data")))
    × (stream (read_message same_text little true notes 0 oversized).1 ≡ 9 ∷ [])
unfolding copy_out header swap16 swap32
read_message_too_long_example =
    read_message_too_long same_text 100 true notes 0 little 1 3000 [] (9 ∷ []) oversized
      oversized-IsReady (omega arith) (omega arith) (omega arith) tt refl

read_message-Ends_example : Ends (read_message same_text big true notes 0 framed)
read_message-Ends_example = read_message-Ends same_text big true notes 0 framed refl

write_message-read_message_example :
    ((write_message same_text little notes 0 hello (io_with [])).0 ≡ ok tt)
    × ((reports : List Bytes) × (left : ℕ) × ((write_message same_text little notes 0 hello
            (io_with [])).1.wire.sent
          ≡ (io_with []).wire.sent ++ reports)
        × (left < 63)
        × Takes 100 (replicate left 0) hello (
            read_message same_text little true notes 0 (record (io_with []) {
              wire = record ((io_with []).wire) { reads = map (delivered 100) reports };
            })))
unfolding bytes_eq type_of_message message_type decode message_name create_message
    message_descriptor copy_out
write_message-read_message_example =
    write_message-read_message same_text little notes 0 hello hello 1 100 true (io_with [])
      (io_with []) refl (omega arith) refl (omega arith) refl refl (λ k. omega arith) refl refl refl
