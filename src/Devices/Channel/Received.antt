-- ===== src/Devices/Channel/Received.antt =====
-- What receiving leaves alone (HIDBuffer::read and DeviceChannel::read, devices.cpp).
use trezor_plugin.Prelude.{
  ℕ, zero, suc, ◌≡◌, refl, ap, ◌∙◌, Bool, true, false, Bytes, length, ltb, ◌==◌, if◌then◌else◌,
}
use trezor_plugin.Exceptions.{Outcome, ok, throw, fault, blocked, out_of_fuel}
use trezor_plugin.Libraries.Protobuf.{Protobuf}
use trezor_plugin.Devices.State.{Io, Wire, Action, after, ◌>>=◌, buffer_size}
use trezor_plugin.Devices.Buffer.{fill, run_front, read}
use trezor_plugin.Devices.Buffer.Stream.{stream}
use trezor_plugin.Devices.Channel.{
  Endian, align, byte_at, header_fields, read_header, read_body, read_message,
}

-- Of the wire, only the reports to come and the clock are others.
abbrev pub IsReceived : Wire → Wire → Type 0
IsReceived w w' = w' ≡ record w { reads = w'.reads; now = w'.now }

-- An action that only receives.
abbrev pub Receives : {A : Type 0} → Action A → Type 0
Receives m = (io : Io) → IsReceived io.wire (m io).1.wire

IsReceived-trans : (u v w : Wire) → IsReceived u v → IsReceived v w → IsReceived u w
IsReceived-trans u v w h k = k ∙ ap renewed h
  where
    renewed : Wire → Wire
    renewed t = record t { reads = w.reads; now = w.now }

Receives-after :
    {A B : Type 0} (k : A → Action B)
    → ((a : A) → Receives (k a))
    → (r : Outcome A) → Receives (after k r)
Receives-after k h (ok a) io = h a io
Receives-after k h (throw x) io = refl
Receives-after k h fault io = refl
Receives-after k h blocked io = refl
Receives-after k h out_of_fuel io = refl

Receives-bind :
    {A B : Type 0} (m : Action A) (k : A → Action B)
    → Receives m
    → ((a : A) → Receives (k a))
    → Receives (m >>= k)
Receives-bind m k g h io =
    IsReceived-trans io.wire (m io).1.wire ((m >>= k) io).1.wire (g io)
      (Receives-after k h (m io).0 (m io).1)

Receives-if :
    {A : Type 0} (c : Bool) (m k : Action A)
    → Receives m
    → Receives k
    → Receives (if c then m else k)
Receives-if true m k g h = g
Receives-if false m k g h = h

module _ (utf8 : Bytes → Bytes) where
  Receives-read : (wanted : ℕ) (timeout : Bool) → Receives (read utf8 wanted timeout)
  unfolding read
  Receives-read wanted timeout io =
      let w = io.wire in
      let (r, p) = fill utf8 w.locked w.now wanted timeout w.reads w.now io.buffer in
      Receives-after (run_front wanted) (λ u io'. refl) r
        (record { buffer = p.buffer; wire = record w { reads = p.reads; now = p.now } })

  Receives-align : (e : Endian) (timeout : Bool) (fuel : ℕ) → Receives (align utf8 e timeout fuel)
  unfolding align
  Receives-align e timeout zero io = refl
  Receives-align e timeout (suc fuel) io =
      Receives-bind (read utf8 1 timeout) _ (Receives-read 1 timeout)
        (λ h.
          Receives-if (byte_at 0 h == b'#') _ (align utf8 e timeout fuel) (λ io'. refl)
            (Receives-align e timeout fuel))
        io

  Receives-header_fields :
      (e : Endian) (timeout : Bool) (h : Bytes) → Receives (header_fields utf8 e timeout h)
  unfolding header_fields
  Receives-header_fields e timeout h =
      Receives-if (byte_at 0 h == b'#') _ _
        (Receives-bind (read utf8 6 timeout) _ (Receives-read 6 timeout) (λ six io. refl))
        (λ io. refl)

  Receives-read_header : (e : Endian) (timeout : Bool) → Receives (read_header utf8 e timeout)
  unfolding read_header
  Receives-read_header e timeout io =
      Receives-bind (align utf8 e timeout (suc (length (stream io))))
        (λ _. read utf8 1 timeout >>= header_fields utf8 e timeout)
        (Receives-align e timeout (suc (length (stream io))))
        (λ _.
          Receives-bind (read utf8 1 timeout) (header_fields utf8 e timeout)
            (Receives-read 1 timeout) (Receives-header_fields e timeout))
        io

  module _ (e : Endian) (pb : Protobuf) (pool : pb.Pool) where
    Receives-read_body :
        (timeout : Bool) (f : ℕ × ℕ) → Receives (read_body utf8 e timeout pb pool f)
    unfolding read_body
    Receives-read_body timeout (type, size) =
        Receives-if (ltb buffer_size size) _ _ (λ io. refl)
          (Receives-bind (read utf8 size timeout) _ (Receives-read size timeout) (λ body io. refl))

    pub Receives-read_message : (timeout : Bool) → Receives (read_message utf8 e timeout pb pool)
    unfolding read_message
    Receives-read_message timeout =
        Receives-bind (read_header utf8 e timeout) (read_body utf8 e timeout pb pool)
          (Receives-read_header e timeout) (Receives-read_body timeout)
