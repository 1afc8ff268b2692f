-- ===== src/Devices/Buffer/Answer.antt =====
-- HIDBuffer::read (devices.cpp) on a device that keeps up.
use trezor_plugin.Prelude.{
  ℕ, ◌+◌, ◌≤◌, ◌<◌, ◌≡◌, refl, ap, sym, ◌∙◌, Bool, false, List, [], ◌∷◌, ◌++◌, append_assoc, Bytes,
  length, take, drop, take-append, drop-append, ltb, arith, Bool-cases, inl, inr, ltb→lt, All,
  length-append,
}
use trezor_plugin.Exceptions.{Outcome, ok, throw, fault, blocked, out_of_fuel}
use trezor_plugin.Devices.State.{
  HidRead, received, nothing, failed, ReadStep, HidBuffer, Progress, Io, after,
}
use trezor_plugin.Devices.Buffer.{
  payload, more, turn_received, turn, fill, take_front, run_front, read,
}
use trezor_plugin.Devices.Buffer.Array.{
  contents, buffer_bytes_fits, length-copy_out, take_front-sizes,
}
use trezor_plugin.Devices.Buffer.Stream.{carried, flow, stream, Turned, turn-Turned}
use trezor_plugin.Devices.Buffer.Read.{Reads, read-Reads, length-carried, safe_length}

-- A round of waiting that does not end the call: a report of at most 64 bytes, or none while the
-- clock, read since `base`, is within the timeout and nobody interrupts.
abbrev pub PromptAnswer : ℕ → ℕ → ReadStep → HidRead → Type 0
PromptAnswer base seconds s (received first others) = (length others ≤ 63) × (base ≤ s.now)
PromptAnswer base seconds s nothing =
    (base ≤ s.now) × (s.now ≤ base + seconds) × (s.interrupted ≡ false)
PromptAnswer base seconds s (failed err) = ⊥

abbrev pub IsPrompt : ℕ → ℕ → ReadStep → Type 0
IsPrompt base seconds s = PromptAnswer base seconds s s.answer

-- The device keeps up, and nobody holds the mutex.
pub record IsReady (base : ℕ) (io : Io) : Type 0 where
  pub free : io.wire.locked ≡ false
  pub begun : base ≤ io.wire.now
  pub prompt : All (IsPrompt base io.buffer.seconds) io.wire.reads

turn_prompt :
    (utf8 : Bytes → Bytes) (base start : ℕ) (timeout : Bool) (s : ReadStep) (a : HidRead)
    (b : HidBuffer)
    → PromptAnswer base b.seconds s a
    → base ≤ start
    → b.buffer_length < safe_length
    → (base ≤ s.now) × ((b' : HidBuffer) × (turn utf8 start timeout s a b ≡ more b'))
unfolding turn
turn_prompt utf8 base start timeout s (received first others) b (h, t) hs hb =
    let (b', e) =
      buffer_bytes_fits (payload first others) b
        (omega (arith, length-carried (received first others) h)) in
    (t, (b', rw (e, turn_received)))
turn_prompt utf8 base start timeout s nothing b (t, u, v) hs hb = (t, (b, ground arith))
turn_prompt utf8 base start timeout s (failed err) b h hs hb = absurd h

module _ (utf8 : Bytes → Bytes) (locked : Bool) (base start wanted seconds : ℕ)
    (timeout : Bool) where
  fill_answers :
      (steps : List ReadStep) (now : ℕ) (b : HidBuffer)
      → locked ≡ false
      → wanted ≤ safe_length
      → base ≤ start
      → base ≤ now
      → b.seconds ≡ seconds
      → All (IsPrompt base seconds) steps
      → wanted ≤ length (contents b ++ flow steps)
      → let (r, p) = fill utf8 locked start wanted timeout steps now b in
        (r ≡ ok tt)
        × (base ≤ p.now)
        × (p.buffer.seconds ≡ seconds)
        × All (IsPrompt base seconds) p.reads
  unfolding fill
  fill_answers [] now b hl hw hs hn ht hp enough = elim (Bool-cases (ltb b.buffer_length wanted)) [
    | inl short ↦ absurd (
        omega (
          arith,
          ltb→lt _ _ short,
          length-append (contents b) [],
          length-copy_out b.cells 0 b.buffer_length,
        ))
    | inr full ↦ rw full (refl, hn, ht, tt)
  ]
  fill_answers (s ∷ rest) now b hl hw hs hn ht (h, hp) enough =
      elim (Bool-cases (ltb b.buffer_length wanted)) [
        | inl short ↦
            let prompt : PromptAnswer base b.seconds s s.answer = rw ht h in
            let (t, (b', e)) =
              turn_prompt utf8 base start timeout s s.answer b prompt hs
                (omega (arith, ltb→lt _ _ short)) in
            let (all, _, time) : Turned s.answer b (more b') =
              rw e at (turn-Turned utf8 start timeout s s.answer b) in
            let same : contents b' ++ flow rest ≡ contents b ++ (carried s.answer ++ flow rest) =
              ap (λ t. t ++ flow rest) all
              ∙ append_assoc (contents b) (carried s.answer) (flow rest) in
            rw (short, hl, e)
              (fill_answers rest s.now b' hl hw hs t (time ∙ ht) hp (rw same enough))
        | inr full ↦ rw full (refl, hn, ht, (h, hp))
      ]

-- The call returned the first bytes of the stream, and the rest is still to be read.
abbrev pub Answers : ℕ → ℕ → Io → Outcome Bytes × Io → Type 0
Answers base wanted io (r, io') =
    (r ≡ ok (take wanted (stream io))) × (stream io' ≡ drop wanted (stream io)) × IsReady base io'

-- A read of at most 1986 bytes from a device that keeps up, and that has as many bytes on their way,
-- is answered: it returns the first `wanted` bytes of the stream, and leaves the rest of it, ready
-- for the next read.
pub read-Answers :
    (utf8 : Bytes → Bytes) (base wanted : ℕ) (timeout : Bool) (io : Io)
    → IsReady base io
    → wanted ≤ safe_length
    → wanted ≤ length (stream io)
    → Answers base wanted io (read utf8 wanted timeout io)
unfolding read
read-Answers utf8 base wanted timeout io h hw enough =
    let w = io.wire in
    let (r, p) = fill utf8 w.locked w.now wanted timeout w.reads w.now io.buffer in
    let (e, t, secs, prompt) =
      fill_answers utf8 w.locked base w.now wanted io.buffer.seconds timeout w.reads w.now io.buffer
        h.free hw h.begun h.begun refl h.prompt enough in
    go r p e t secs prompt (unfold read in read-Reads utf8 wanted timeout io)
  where
    go :
        (r : Outcome (Unit {0})) (p : Progress)
        → r ≡ ok tt
        → base ≤ p.now
        → p.buffer.seconds ≡ io.buffer.seconds
        → All (IsPrompt base io.buffer.seconds) p.reads
        → let io' : Io = record {
          buffer = p.buffer;
          wire = record (io.wire) { reads = p.reads; now = p.now };
        } in
          Reads wanted io (after (run_front wanted) r io')
          → Answers base wanted io (after (run_front wanted) r io')
    go (ok u) p e t secs prompt (cut, len) =
        let bytes = (take_front wanted p.buffer).0 in
        (
          ap ok (sym (take-append wanted bytes _ len) ∙ ap (take wanted) (sym cut)),
          sym (drop-append wanted bytes _ len) ∙ ap (drop wanted) (sym cut),
          record {
            free = h.free;
            begun = t;
            prompt = rw ((take_front-sizes wanted p.buffer).1, secs) prompt;
          },
        )
    go (throw x) p e t secs prompt k = cc
    go fault p e t secs prompt k = cc
    go blocked p e t secs prompt k = cc
    go out_of_fuel p e t secs prompt k = cc
