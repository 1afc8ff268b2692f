-- ===== src/Devices/Buffer/Read.antt =====
-- HIDBuffer::read (devices.cpp) as a whole, and the bounds of its array.
use trezor_plugin.Prelude.{
  ℕ, ◌+◌, ◌-◌, ◌≤◌, ◌<◌, ◌≡◌, ◌≢◌, refl, ap, sym, ◌∙◌, Bool, List, [], ◌∷◌, ◌++◌, append_assoc,
  Bytes, length, ltb, arith, Bool-cases, inl, inr, ltb→lt, All, length-take, min,
}
use trezor_plugin.Exceptions.{Outcome, ok, throw, fault, blocked, out_of_fuel}
use trezor_plugin.Devices.State.{
  HidRead, received, nothing, failed, ReadStep, HidBuffer, buffer_size, Progress, Wire, Io, after,
}
use trezor_plugin.Devices.Buffer.{
  payload, more, stop, turn_received, turn, fill, take_front, run_front, read,
}
use trezor_plugin.Devices.Buffer.Array.{
  contents, buffer_bytes_fits, take_front-contents, take_front-sizes,
}
use trezor_plugin.Devices.Buffer.Stream.{
  carried, flow, stream, IsHidRead, Turn-cases, Filled, fill-Filled, Turned, turn-Turned,
  turn_nothing-cases,
}

-- What a read does to the stream, by its outcome. A fault says nothing.
abbrev pub Reads : ℕ → Io → Outcome Bytes × Io → Type 0
Reads wanted io (ok bytes, io') = (stream io ≡ bytes ++ stream io') × (length bytes ≡ wanted)
Reads wanted io (throw e, io') = stream io ≡ stream io'
Reads wanted io (fault, io') = Unit
Reads wanted io (blocked, io') = stream io ≡ stream io'
Reads wanted io (out_of_fuel, io') = ⊥

Reads-Filled :
    (wanted : ℕ) (io : Io) (r : Outcome (Unit {0})) (p : Progress) (w : Wire)
    → w.reads ≡ p.reads
    → Filled wanted (stream io) (r, p)
    → Reads wanted io (after (run_front wanted) r (record { buffer = p.buffer; wire = w }))
Reads-Filled wanted io (ok tt) p w e (kept, size, fuel) =
    let (cut, len) = take_front-contents wanted p.buffer (size refl) in
    (
      kept (λ h. cc)
          ∙ ap (λ t. t ++ flow p.reads) cut
          ∙ append_assoc _ _ (flow p.reads)
          ∙ ap
              (λ t.
                (take_front wanted p.buffer).0
                ++ (contents (take_front wanted p.buffer).1 ++ flow t))
              (sym e),
      len,
    )
Reads-Filled wanted io (throw x) p w e (kept, size, fuel) = kept (λ h. cc) ∙ rw e
Reads-Filled wanted io fault p w e (kept, size, fuel) = tt
Reads-Filled wanted io blocked p w e (kept, size, fuel) = kept (λ h. cc) ∙ rw e
Reads-Filled wanted io out_of_fuel p w e (kept, size, fuel) = fuel refl

-- HIDBuffer::read refines a queue of bytes: a normal return takes exactly `wanted` bytes off the
-- front of the stream, and every other end but a fault (timeout, interruption, error, waiting)
-- loses none. Its loop always ends.
pub read-Reads :
    (utf8 : Bytes → Bytes) (wanted : ℕ) (timeout : Bool) (io : Io)
    → Reads wanted io (read utf8 wanted timeout io)
unfolding read
read-Reads utf8 wanted timeout io =
    let w = io.wire in
    let (r, p) = fill utf8 w.locked w.now wanted timeout w.reads w.now io.buffer in
    Reads-Filled wanted io r p (record w { reads = p.reads; now = p.now }) refl
      (fill-Filled utf8 w.locked w.now wanted timeout w.reads w.now io.buffer)

pub length-carried : (a : HidRead) → IsHidRead a → length (carried a) ≤ 63
length-carried (received first others) h =
    omega (arith, length-take (min (length others + 1) (first + 1) - 1) others)
length-carried nothing h = omega arith
length-carried (failed err) h = omega arith

-- The longest read for which the array has room whatever the reports are.
abbrev pub safe_length : ℕ
safe_length = 1986

-- A turn of the loop, while the buffer is shorter than a safe length, stays in the array.
turn_in_bounds :
    (utf8 : Bytes → Bytes) (start : ℕ) (timeout : Bool) (s : ReadStep) (a : HidRead) (b : HidBuffer)
    → IsHidRead a
    → b.buffer_length < safe_length
    → turn utf8 start timeout s a b ≢ stop fault
unfolding turn
turn_in_bounds utf8 start timeout s (received first others) b h k =
    let (b', e) =
      buffer_bytes_fits (payload first others) b
        (omega (arith, length-carried (received first others) h)) in
    rw (e, turn_received) (λ x. cc)
turn_in_bounds utf8 start timeout s nothing b h k = elim (turn_nothing-cases start timeout s b) [
  | inl e ↦ rw e (λ x. cc)
  | inr (x, e) ↦ rw e (λ y. cc)
]
turn_in_bounds utf8 start timeout s (failed err) b h k = λ x. cc

-- No write past the array, the buffer's length within it, and the reports to come still reports.
abbrev InBounds : Outcome (Unit {0}) × Progress → Type 0
InBounds (r, p) =
    (r ≢ fault) × (p.buffer.buffer_length ≤ buffer_size) × All (λ s. IsHidRead s.answer) p.reads

module _ (utf8 : Bytes → Bytes) (locked : Bool) (start wanted : ℕ) (timeout : Bool) where
  fill-InBounds :
      (steps : List ReadStep) (now : ℕ) (b : HidBuffer)
      → wanted ≤ safe_length
      → All (λ s. IsHidRead s.answer) steps
      → b.buffer_length ≤ buffer_size
      → InBounds (fill utf8 locked start wanted timeout steps now b)
  unfolding fill
  fill-InBounds [] now b hw hs hb = elim (Bool-cases (ltb b.buffer_length wanted)) [
    | inl short ↦ rw short ((λ h. cc), hb, tt)
    | inr full ↦ rw full ((λ h. cc), hb, tt)
  ]
  fill-InBounds (s ∷ rest) now b hw (h, hs) hb = elim (Bool-cases (ltb b.buffer_length wanted)) [
    | inl short ↦ rw short (elim (Bool-cases locked) [
      | inl held ↦ rw held ((λ x. cc), hb, (h, hs))
      | inr free ↦ rw free (elim (Turn-cases (turn utf8 start timeout s s.answer b)) [
        | inl (b', e) ↦
            let (_, size, _) : Turned s.answer b (more b') =
              rw e at (turn-Turned utf8 start timeout s s.answer b) in
            rw e (
              fill-InBounds rest s.now b' hw hs
                (omega (arith, ltb→lt _ _ short, length-carried s.answer h)))
        | inr (r, e) ↦
            let safe =
              turn_in_bounds utf8 start timeout s s.answer b h (omega (arith, ltb→lt _ _ short)) in
            rw e ((λ x. safe (e ∙ ap stop x)), hb, hs)
      ])
    ])
    | inr full ↦ rw full ((λ x. cc), hb, (h, hs))
  ]

-- For a wanted length of at most 1986 bytes, HIDBuffer::read never writes past its array, and its
-- buffer stays within it, whatever reports of at most 64 bytes arrive, if it is within it before.
pub read_in_bounds :
    (utf8 : Bytes → Bytes) (wanted : ℕ) (timeout : Bool) (io : Io)
    → wanted ≤ safe_length
    → All (λ s. IsHidRead s.answer) io.wire.reads
    → io.buffer.buffer_length ≤ buffer_size
    → ((read utf8 wanted timeout io).0 ≢ fault)
      × ((read utf8 wanted timeout io).1.buffer.buffer_length ≤ buffer_size)
unfolding read
read_in_bounds utf8 wanted timeout io hw hs hb =
    let w = io.wire in
    let (r, p) = fill utf8 w.locked w.now wanted timeout w.reads w.now io.buffer in
    go r p (fill-InBounds utf8 w.locked w.now wanted timeout w.reads w.now io.buffer hw hs hb)
  where
    go :
        (r : Outcome (Unit {0})) (p : Progress)
        → InBounds (r, p)
        → let io' : Io = record {
          buffer = p.buffer;
          wire = record (io.wire) { reads = p.reads; now = p.now };
        } in
          ((after (run_front wanted) r io').0 ≢ fault)
          × ((after (run_front wanted) r io').1.buffer.buffer_length ≤ buffer_size)
    go (ok tt) p (safe, size, _) = ((λ x. cc), omega (arith, (take_front-sizes wanted p.buffer).0))
    go (throw e) p (safe, size, _) = ((λ x. cc), size)
    go fault p (safe, size, _) = absurd (safe refl)
    go blocked p (safe, size, _) = ((λ x. cc), size)
    go out_of_fuel p (safe, size, _) = ((λ x. cc), size)
