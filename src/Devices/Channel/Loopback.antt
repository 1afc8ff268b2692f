-- ===== src/Devices/Channel/Loopback.antt =====
-- DeviceChannel::write and DeviceChannel::read, one behind the other (devices.cpp).
use trezor_plugin.Prelude.{
  ℕ, ◌≤◌, ◌<◌, ◌^◌, ◌≡◌, refl, ap, sym, ◌∙◌, Bool, false, List, [], ◌∷◌, ◌++◌, Bytes, map, length,
  replicate, arith, All,
}
use trezor_plugin.Exceptions.{ok}
use trezor_plugin.Libraries.Protobuf.{Protobuf}
use trezor_plugin.Messages.Names.{type_of_message, decode}
use trezor_plugin.Devices.State.{received, ReadStep, Io}
use trezor_plugin.Devices.Buffer.{payload}
use trezor_plugin.Devices.Buffer.Array.{contents}
use trezor_plugin.Devices.Buffer.Stream.{flow}
use trezor_plugin.Devices.Buffer.Read.{safe_length}
use trezor_plugin.Devices.Buffer.Answer.{IsPrompt}
use trezor_plugin.Devices.Buffer.Write.{payloads, IsReport, IsAccepting, Sends, write-Sends}
use trezor_plugin.Devices.Channel.{Endian, frame, read_message, write_message}
use trezor_plugin.Devices.Channel.Header.{Takes, read_message-frame}

-- A report as the other side's hid_read_timeout gives it.
abbrev pub delivered : ℕ → Bytes → ReadStep
delivered now [] = record { answer = received 0 []; now = now; interrupted = false }
delivered now (first ∷ others) = record {
  answer = received first others;
  now = now;
  interrupted = false;
}

flow-delivered : (now : ℕ) (rs : List Bytes) → flow (map (delivered now) rs) ≡ payloads rs
flow-delivered now [] = refl
flow-delivered now ([] ∷ rs) = flow-delivered now rs
flow-delivered now ((x ∷ xs) ∷ rs) = ap (λ t. payload x xs ++ t) (flow-delivered now rs)

-- Whole reports, delivered at once, are prompt.
IsPrompt-delivered :
    (now seconds : ℕ) (rs : List Bytes)
    → All IsReport rs
    → All (IsPrompt now seconds) (map (delivered now) rs)
IsPrompt-delivered now seconds [] h = tt
IsPrompt-delivered now seconds (r ∷ rs) ((others, e, len), h) =
    (rw e (omega arith, omega arith), IsPrompt-delivered now seconds rs h)

begun_at : {a b : ℕ} → b ≡ a → a ≤ b
begun_at e = omega arith

module _ (utf8 : Bytes → Bytes) (e : Endian) (pb : Protobuf) (pool : pb.Pool) where
  -- DeviceChannel::write of a message with a known type, when the mutex is free and hid_write's
  -- results pass the code's test: it returns, its reports carry the frame, and the buffer stays.
  pub write_message-Sends :
      (m : pb.Message) (type : ℕ) (io : Io)
      → type_of_message pb pool m ≡ ok type
      → io.wire.locked ≡ false
      → IsAccepting io.wire
      → ((write_message utf8 e pb pool m io).0 ≡ ok tt)
        × Sends
            (frame e type (pb.byte_size m) (pb.serialize m (pb.byte_size m)))
            io.wire
            (write_message utf8 e pb pool m io).1.wire
        × ((write_message utf8 e pb pool m io).1.buffer ≡ io.buffer)
  unfolding write_message
  write_message-Sends m type io t free acc =
      let (done, s, kept) =
        write-Sends utf8 (frame e type (pb.byte_size m) (pb.serialize m (pb.byte_size m))) io free
          acc in
      rw t (done, s, kept)

  -- Of the reports that DeviceChannel::write hands over for a message, delivered in order to a side
  -- with an empty buffer, DeviceChannel::read makes the message that the sender's type and bytes
  -- decode to. It leaves only the zeros that filled the last report, fewer than 63. The message's
  -- type is known and has 16 bits, it serializes to ByteSize() bytes, at most 1986, hid_write's
  -- results pass the code's test, and the mutex is free on both sides.
  pub write_message-read_message :
      (m m' : pb.Message) (type now : ℕ) (timeout : Bool) (io there : Io)
      → type_of_message pb pool m ≡ ok type
      → type < 2 ^ 16
      → length (pb.serialize m (pb.byte_size m)) ≡ pb.byte_size m
      → pb.byte_size m ≤ safe_length
      → decode pb pool type (pb.serialize m (pb.byte_size m)) ≡ ok m'
      → io.wire.locked ≡ false
      → IsAccepting io.wire
      → there.wire.locked ≡ false
      → contents there.buffer ≡ []
      → there.wire.now ≡ now
      → ((write_message utf8 e pb pool m io).0 ≡ ok tt)
        × ((reports : List Bytes) × (left : ℕ) × ((write_message utf8 e pb pool m io).1.wire.sent
              ≡ io.wire.sent ++ reports)
            × (left < 63)
            × Takes now (replicate left 0) m' (
                read_message utf8 e timeout pb pool (record there {
                  wire = record (there.wire) { reads = map (delivered now) reports };
                })))
  write_message-read_message m m' type now timeout io there t ht len small d free acc free' empty
        clock =
      let bytes = pb.serialize m (pb.byte_size m) in
      let (done, s, _) = write_message-Sends m type io t free acc in
      let sized : frame e type (pb.byte_size m) bytes ≡ frame e type (length bytes) bytes =
        ap (λ n. frame e type n bytes) (sym len) in
      let here : contents there.buffer ++ flow (map (delivered now) s.reports)
          ≡ frame e type (length bytes) bytes ++ replicate s.padding 0 =
        ap (λ c. c ++ flow (map (delivered now) s.reports)) empty
        ∙ flow-delivered now s.reports
        ∙ s.carries
        ∙ ap (λ c. c ++ replicate s.padding 0) sized in
      (
        done,
        (
          s.reports,
          s.padding,
          ap (λ w. w.sent) s.appended,
          s.short,
          read_message-frame utf8 now timeout pb pool e type bytes [] (replicate s.padding 0) m' _
              (record {
                free = free';
                begun = begun_at clock;
                prompt = IsPrompt-delivered now there.buffer.seconds s.reports s.shape;
              })
              ht (rw len small) tt here d,
        ),
      )
