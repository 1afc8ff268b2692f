-- ===== src/Devices/Channel/Fixed.antt =====
-- What sending and receiving leave alone (HIDBuffer and DeviceChannel, devices.cpp).
use trezor_plugin.Prelude.{
  ℕ, zero, suc, ◌≡◌, refl, ap, ◌∙◌, Bool, true, false, Bool-cases, inl, inr, [], ◌∷◌, Bytes, length,
  if◌then◌else◌, if_true, if_false, ◌++◌, ltb, drop,
}
use trezor_plugin.Prelude.Int.{to_size}
use trezor_plugin.Exceptions.{Outcome, ok, throw, fault, blocked, out_of_fuel}
use trezor_plugin.Libraries.Protobuf.{Protobuf}
use trezor_plugin.Messages.Names.{type_of_message}
use trezor_plugin.Devices.State.{Io, Wire, Action, after}
use trezor_plugin.Devices.Buffer.{chunk, write_loop, write}
use trezor_plugin.Devices.Channel.Received.{Receives-read_message}
use trezor_plugin.Devices.Channel.{Endian, read_message, write_message, frame}

-- What of the wire only opening and closing change: the handles, and the mutex.
abbrev pub fixed : Wire → ℕ × Bool
fixed w = (w.handles, w.locked)

module _ (utf8 : Bytes → Bytes) where
  fixed-write_loop :
      (fuel : ℕ) (bytes : Bytes) (w : Wire) → fixed (write_loop utf8 fuel bytes w).1 ≡ fixed w
  unfolding write_loop
  fixed-write_loop zero [] w = refl
  fixed-write_loop (suc fuel) [] w = refl
  fixed-write_loop zero (x ∷ xs) w = refl
  fixed-write_loop (suc fuel) (x ∷ xs) w = elim (Bool-cases w.locked) [
    | inl held ↦ ap (λ (r : Outcome (Unit {0}) × Wire). fixed r.1) (if_true _ _ _ held)
    | inr free ↦
        ap (λ (r : Outcome (Unit {0}) × Wire). fixed r.1) (if_false _ _ _ free)
        ∙ either (ltb (to_size (w.write_result (length w.sent))) 64)
            (_, record w { sent = w.sent ++ (chunk (x ∷ xs) ∷ []) }) _ refl
            (fixed-write_loop fuel (drop 63 (x ∷ xs))
              (record w { sent = w.sent ++ (chunk (x ∷ xs) ∷ []) }))
  ]
    where
      either :
          (c : Bool) (r s : Outcome (Unit {0}) × Wire)
          → fixed r.1 ≡ fixed w
          → fixed s.1 ≡ fixed w
          → fixed (if c then r else s).1 ≡ fixed w
      either true r s h k = h
      either false r s h k = k

  fixed-after :
      {A B : Type 0} (k : A → Action B)
      → ((a : A) (io : Io) → fixed (k a io).1.wire ≡ fixed io.wire)
      → (r : Outcome A) (io : Io) → fixed (after k r io).1.wire ≡ fixed io.wire
  fixed-after k h (ok a) io = h a io
  fixed-after k h (throw x) io = refl
  fixed-after k h fault io = refl
  fixed-after k h blocked io = refl
  fixed-after k h out_of_fuel io = refl

  module _ (e : Endian) (pb : Protobuf) (pool : pb.Pool) where
    pub fixed-read_message :
        (timeout : Bool) (io : Io)
        → fixed (read_message utf8 e timeout pb pool io).1.wire ≡ fixed io.wire
    fixed-read_message timeout io = ap fixed (Receives-read_message utf8 e pb pool timeout io)

    fixed-write : (bytes : Bytes) (io : Io) → fixed (write utf8 bytes io).1.wire ≡ fixed io.wire
    unfolding write
    fixed-write bytes io = fixed-write_loop (length bytes) bytes io.wire

    pub fixed-write_message :
        (m : pb.Message) (io : Io)
        → fixed (write_message utf8 e pb pool m io).1.wire ≡ fixed io.wire
    unfolding write_message
    fixed-write_message m io =
        fixed-after
          (λ type. write utf8 (frame e type (pb.byte_size m) (pb.serialize m (pb.byte_size m))))
          (λ type io'. fixed-write _ io') (type_of_message pb pool m) io
