-- ===== src/Devices/Channel/Total.antt =====
-- How DeviceChannel::read ends (devices.cpp).
use trezor_plugin.Prelude.{
  ℕ, zero, suc, ◌+◌, ◌<◌, ◌≡◌, ◌≢◌, refl, Bool, Bytes, length, length-append, arith, ◌==◌,
  Bool-cases, inl, inr, ltb, false, List, [], ◌∷◌, ap, ◌∙◌,
}
use trezor_plugin.Exceptions.{Outcome, ok, throw, fault, blocked, out_of_fuel}
use trezor_plugin.Libraries.Protobuf.{Protobuf}
use trezor_plugin.Messages.Laws.{decode-ne-out_of_fuel, decode-ne-blocked}
use trezor_plugin.Devices.State.{
  Io, Action, after, buffer_size, HidRead, received, nothing, failed, ReadStep, HidBuffer, Progress,
}
use trezor_plugin.Devices.Buffer.{stop, turn, fill, read, run_front}
use trezor_plugin.Devices.Buffer.Stream.{stream, Turn-cases, fill-Filled}
use trezor_plugin.Devices.Buffer.Read.{Reads, read-Reads}
use trezor_plugin.Devices.Channel.{
  Endian, byte_at, align, header_fields, read_header, read_body, read_message,
}

-- How a call ends when the mutex is free: not for want of the model's fuel, and waiting for ever only
-- when the device gave its last answer; the mutex stays free.
abbrev pub Ends : {A : Type 0} → Outcome A × Io → Type 0
Ends (r, io) = (r ≢ out_of_fuel) × (io.wire.locked ≡ false) × (r ≡ blocked → io.wire.reads ≡ [])

after-Ends :
    {A B : Type 0} (f : A → Action B) (r : Outcome A) (io : Io)
    → Ends (r, io)
    → ((a : A) → r ≡ ok a → Ends (f a io))
    → Ends (after f r io)
after-Ends f (ok a) io h k = k a refl
after-Ends f (throw e) io (_, free, _) k = ((λ x. cc), free, λ x. cc)
after-Ends f fault io (_, free, _) k = ((λ x. cc), free, λ x. cc)
after-Ends f blocked io (_, free, waits) k = ((λ x. cc), free, λ x. waits refl)
after-Ends f out_of_fuel io h k = absurd (h.0 refl)

-- A turn of the loop of HIDBuffer::read does not wait for ever.
turn-ne-blocked :
    (utf8 : Bytes → Bytes) (start : ℕ) (timeout : Bool) (s : ReadStep) (answer : HidRead)
    (b : HidBuffer)
    → turn utf8 start timeout s answer b ≢ stop blocked
unfolding turn
turn-ne-blocked utf8 start timeout s (received first others) b = ground arith
turn-ne-blocked utf8 start timeout s nothing b = ground arith
turn-ne-blocked utf8 start timeout s (failed err) b = λ x. cc

fill-waits :
    (utf8 : Bytes → Bytes) (locked : Bool) (start wanted : ℕ) (timeout : Bool)
    (steps : List ReadStep) (now : ℕ) (b : HidBuffer)
    → locked ≡ false
    → (fill utf8 locked start wanted timeout steps now b).0 ≡ blocked
    → (fill utf8 locked start wanted timeout steps now b).1.reads ≡ []
unfolding fill
fill-waits utf8 locked start wanted timeout [] now b free h = refl
fill-waits utf8 locked start wanted timeout (s ∷ rest) now b free h =
    elim (Bool-cases (ltb b.buffer_length wanted)) [
      | inl short ↦ elim (Turn-cases (turn utf8 start timeout s s.answer b)) [
        | inl (b', e) ↦
            rw (short, free, e)
              (fill-waits utf8 locked start wanted timeout rest s.now b' free
                (rw (short, free, e) at h))
        | inr (r, e) ↦
            let waits : r ≡ blocked = rw (short, free, e) at h in
            absurd (turn-ne-blocked utf8 start timeout s s.answer b (e ∙ ap stop waits))
      ]
      | inr full ↦ let clash : ok tt ≡ blocked = rw full at h in absurd cc
    ]

-- A byte read is a byte less to come.
Reads-shrinks :
    (io : Io) (r : Outcome Bytes) (io' : Io) (bytes : Bytes)
    → Reads 1 io (r, io')
    → r ≡ ok bytes
    → length (stream io') + 1 ≡ length (stream io)
Reads-shrinks io (ok bs) io' bytes (s, len) e = rw s (omega (arith, length-append bs (stream io')))
Reads-shrinks io (throw x) io' bytes h e = cc
Reads-shrinks io fault io' bytes h e = cc
Reads-shrinks io blocked io' bytes h e = cc
Reads-shrinks io out_of_fuel io' bytes h e = cc

module _ (utf8 : Bytes → Bytes) (e : Endian) (timeout : Bool) where
  read-Ends : (wanted : ℕ) (io : Io) → io.wire.locked ≡ false → Ends (read utf8 wanted timeout io)
  unfolding read
  read-Ends wanted io free =
      let w = io.wire in
      let (r, p) = fill utf8 w.locked w.now wanted timeout w.reads w.now io.buffer in
      let (_, _, fuel) = fill-Filled utf8 w.locked w.now wanted timeout w.reads w.now io.buffer in
      go r p fuel (fill-waits utf8 w.locked w.now wanted timeout w.reads w.now io.buffer free)
    where
      go :
          (r : Outcome (Unit {0})) (p : Progress)
          → r ≢ out_of_fuel
          → (r ≡ blocked → p.reads ≡ [])
          → Ends (
              after (run_front wanted) r (record {
                buffer = p.buffer;
                wire = record (io.wire) { reads = p.reads; now = p.now };
              }))
      go (ok u) p fuel waits = ((λ x. cc), free, λ x. cc)
      go (throw e) p fuel waits = ((λ x. cc), free, λ x. cc)
      go fault p fuel waits = ((λ x. cc), free, λ x. cc)
      go blocked p fuel waits = ((λ x. cc), free, λ x. waits refl)
      go out_of_fuel p fuel waits = absurd (fuel refl)

  align-Ends :
      (fuel : ℕ) (io : Io)
      → io.wire.locked ≡ false
      → length (stream io) < fuel
      → Ends (align utf8 e timeout fuel io)
  unfolding align
  align-Ends zero io free h = absurd (omega arith)
  align-Ends (suc fuel) io free h =
      let first = read-Ends 1 io free in
      after-Ends _ _ _ first λ bytes done.
        let less = Reads-shrinks io _ _ bytes (read-Reads utf8 1 timeout io) done in
        elim (Bool-cases (byte_at 0 bytes == b'#')) [
          | inl found ↦ rw found ((λ x. cc), first.1, λ x. cc)
          | inr other ↦ rw other (align-Ends fuel (read utf8 1 timeout io).1 first.1 (omega arith))
        ]

  header_fields-Ends :
      (h : Bytes) (io : Io) → io.wire.locked ≡ false → Ends (header_fields utf8 e timeout h io)
  unfolding header_fields
  header_fields-Ends h io free = elim (Bool-cases (byte_at 0 h == b'#')) [
    | inl found ↦
        let six = read-Ends 6 io free in
        rw found (after-Ends _ _ _ six (λ bytes done. ((λ x. cc), six.1, λ x. cc)))
    | inr other ↦ rw other ((λ x. cc), free, λ x. cc)
  ]

  read_header-Ends : (io : Io) → io.wire.locked ≡ false → Ends (read_header utf8 e timeout io)
  unfolding read_header
  read_header-Ends io free =
      let aligned = align-Ends (suc (length (stream io))) io free (omega arith) in
      after-Ends _ _ _ aligned λ u done.
        let second = read-Ends 1 _ aligned.1 in
        after-Ends _ _ _ second λ h done'. header_fields-Ends h _ second.1

  read_body-Ends :
      (pb : Protobuf) (pool : pb.Pool) (f : ℕ × ℕ) (io : Io)
      → io.wire.locked ≡ false
      → Ends (read_body utf8 e timeout pb pool f io)
  unfolding read_body
  read_body-Ends pb pool (type, size) io free = elim (Bool-cases (ltb buffer_size size)) [
    | inl big ↦ rw big ((λ x. cc), free, λ x. cc)
    | inr fits ↦
        let whole = read-Ends size io free in
        rw fits (
          after-Ends _ _ _ whole λ body done. (
            decode-ne-out_of_fuel pb pool type body,
            whole.1,
            λ x. absurd (decode-ne-blocked pb pool type body x),
          ))
  ]

  -- DeviceChannel::read comes to an end, or takes every answer that the device gives: for every
  -- device, buffer and clock, if the mutex is free, the call waits for ever only behind the last
  -- answer of the device, and leaves the mutex free. The fuel of the model is enough.
  pub read_message-Ends :
      (pb : Protobuf) (pool : pb.Pool) (io : Io)
      → io.wire.locked ≡ false
      → Ends (read_message utf8 e timeout pb pool io)
  unfolding read_message
  read_message-Ends pb pool io free =
      let head = read_header-Ends io free in
      after-Ends _ _ _ head λ f done. read_body-Ends pb pool f _ head.1
