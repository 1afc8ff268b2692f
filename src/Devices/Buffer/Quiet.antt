-- ===== src/Devices/Buffer/Quiet.antt =====
-- HIDBuffer::read (devices.cpp) on a device that says nothing.
use trezor_plugin.Prelude.{
  ℕ, ◌-◌, ◌<◌, ◌≤◌, ◌++◌, All, ◌≡◌, ap, Bool, true, false, List, [], ◌∷◌, Bytes, map, arith,
}
use trezor_plugin.Exceptions.{Outcome, throw, blocked, read_timeout}
use trezor_plugin.Devices.State.{nothing, ReadStep, HidBuffer, Progress, Io, Action, after}
use trezor_plugin.Devices.Buffer.{run_front, turn, fill, read}

-- A round without a report, at a time, with the thread interrupted or not.
abbrev pub quiet : ℕ × Bool → ReadStep
quiet (now, interrupted) = record { answer = nothing; now = now; interrupted = interrupted }

after_blocked :
    {A B : Type 0} (f : A → Action B) (r : Outcome A) (io : Io)
    → r ≡ blocked
    → (after f r io).0 ≡ blocked
after_blocked f r io e = ap (λ t. (after f t io).0) e

module _ (utf8 : Bytes → Bytes) (start wanted : ℕ) where
  fill_deaf :
      (rounds : List (ℕ × Bool)) (now : ℕ) (b : HidBuffer)
      → b.buffer_length < wanted
      → (fill utf8 false start wanted false (map quiet rounds) now b).0 ≡ blocked
  unfolding fill turn
  fill_deaf [] now b h = ground arith
  fill_deaf ((t, i) ∷ rounds) now b h = ground (arith, fill_deaf rounds t b h)

-- Without a timeout, a read of more than is buffered from a quiet device never ends, whether the thread is
-- interrupted or not: the interruption point is only reached when a timeout is set.
pub read_deaf :
    (utf8 : Bytes → Bytes) (wanted : ℕ) (rounds : List (ℕ × Bool)) (io : Io)
    → io.wire.locked ≡ false
    → io.buffer.buffer_length < wanted
    → (read utf8 wanted false
        (record io { wire = record (io.wire) { reads = map quiet rounds } })).0
      ≡ blocked
unfolding read
read_deaf utf8 wanted rounds io free short =
    after_blocked (run_front wanted) _ _
      (rw free (fill_deaf utf8 io.wire.now wanted rounds io.wire.now io.buffer short))

-- A quiet round of a thread that nobody interrupts.
abbrev pub waiting : ℕ → ReadStep
waiting now = quiet (now, false)

module _ (utf8 : Bytes → Bytes) (start wanted : ℕ) where
  fill_late :
      (early : List ℕ) (late now : ℕ) (i : Bool) (later : List ReadStep) (b : HidBuffer)
      → b.buffer_length < wanted
      → All (λ t. t - start ≤ b.seconds) early
      → b.seconds < late - start
      → fill utf8 false start wanted true (map waiting early ++ (quiet (late, i) ∷ later)) now b
        ≡ (throw read_timeout, record { buffer = b; reads = later; now = late })
  unfolding fill turn
  fill_late [] late now i later b h all t = ground arith
  fill_late (t ∷ early) late now i later b h (soon, all) l =
      ground (arith, fill_late early late t i later b h all l)

-- With a timeout, a read of more than is buffered ends with ReadTimeout when the device stays quiet:
-- at the first round that finds the clock more than the timeout behind the start of the call, if
-- nobody interrupts the thread before. The buffer stays, and so do the answers behind that round.
pub read_times_out :
    (utf8 : Bytes → Bytes) (wanted : ℕ) (early : List ℕ) (late : ℕ) (i : Bool)
    (later : List ReadStep) (io : Io)
    → io.wire.locked ≡ false
    → io.buffer.buffer_length < wanted
    → All (λ t. t - io.wire.now ≤ io.buffer.seconds) early
    → io.buffer.seconds < late - io.wire.now
    → read utf8 wanted true (record io {
      wire = record (io.wire) { reads = map waiting early ++ (quiet (late, i) ∷ later) };
    })
      ≡ (throw read_timeout, record io { wire = record (io.wire) { reads = later; now = late } })
unfolding read
read_times_out utf8 wanted early late i later io free short all over =
    let w = io.wire in
    let answers = map waiting early ++ (quiet (late, i) ∷ later) in
    let filled : fill utf8 w.locked w.now wanted true answers w.now io.buffer
        ≡ (throw read_timeout, record { buffer = io.buffer; reads = later; now = late }) =
      rw free (fill_late utf8 w.now wanted early late w.now i later io.buffer short all over) in
    ap
      (λ (t : Outcome (Unit {0}) × Progress).
        after (run_front wanted) t.0
          (record { buffer = t.1.buffer; wire = record w { reads = t.1.reads; now = t.1.now } }))
      filled
