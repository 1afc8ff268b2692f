-- ===== src/Devices/Buffer/Write/Short.antt =====
-- HIDBuffer::write (devices.cpp): a report that the device does not take whole.
use trezor_plugin.Prelude.{
  ℕ, zero, suc, ◌+◌, ◌*◌, ◌≤◌, ◌<◌, ◌≡◌, ap, ◌∙◌, false, List, [], ◌∷◌, ◌++◌, append_assoc, Bytes,
  codes, length, length-append, length-drop, drop, if_false, if_true, lt→ltb, arith,
}
use trezor_plugin.Prelude.Int.{pos, to_size}
use trezor_plugin.Exceptions.{Outcome, throw, write_error}
use trezor_plugin.Devices.State.{Wire, Io}
use trezor_plugin.Devices.Buffer.{chunk, error_text, write_loop, write}
use trezor_plugin.Devices.Buffer.Write.{sent_one, write_loop_step}

-- The first `k` reports that carry the bytes.
pub reports_of : ℕ → Bytes → List Bytes
reports_of zero bytes = []
reports_of (suc k) bytes = chunk bytes ∷ reports_of k (drop 63 bytes)

-- What the call throws for a short write.
abbrev pub refused : (Bytes → Bytes) → Wire → Outcome (Unit {0})
refused utf8 w = throw (write_error (error_text utf8 (codes "Unknown read error") w.last_error))

write_loop_short :
    (utf8 : Bytes → Bytes) (k fuel : ℕ) (bytes : Bytes) (w : Wire) (n : ℕ)
    → length bytes ≤ fuel
    → 63 * k < length bytes
    → w.locked ≡ false
    → ((j : ℕ) → j < k → 64 ≤ to_size (w.write_result (length w.sent + j)))
    → w.write_result (length w.sent + k) ≡ pos n
    → n < 64
    → write_loop utf8 fuel bytes w
      ≡ (refused utf8 w, record w { sent = w.sent ++ reports_of (suc k) bytes })
unfolding reports_of
write_loop_short utf8 k fuel [] w n hf hk free before e small = absurd (omega arith)
write_loop_short utf8 k zero (x ∷ xs) w n hf hk free before e small = absurd (omega arith)
write_loop_short utf8 zero (suc fuel) (x ∷ xs) w n hf hk free before e small =
    let start : length w.sent ≡ length w.sent + 0 = omega arith in
    let here : w.write_result (length w.sent) ≡ pos n = ap w.write_result start ∙ e in
    unfold write_loop in
    if_false w.locked _ _ free
    ∙ if_true _ _ _ (lt→ltb (to_size (w.write_result (length w.sent))) 64 (rw here (omega arith)))
write_loop_short utf8 (suc k) (suc fuel) (x ∷ xs) w n hf hk free before e small =
    let one = length-append w.sent (chunk (x ∷ xs) ∷ []) in
    let start : length w.sent ≡ length w.sent + 0 = omega arith in
    let first : 64 ≤ to_size (w.write_result (length w.sent)) = rw start (before 0 (omega arith)) in
    let next : (j : ℕ) → length (w.sent ++ (chunk (x ∷ xs) ∷ [])) + j ≡ length w.sent + suc j =
      λ j. omega (arith, one) in
    write_loop_step utf8 fuel x xs w free first
    ∙ write_loop_short utf8 k fuel (drop 63 (x ∷ xs)) (sent_one (x ∷ xs) w) n
        (omega (arith, length-drop 63 (x ∷ xs))) (omega (arith, length-drop 63 (x ∷ xs))) free
        (λ j h. rw (ap w.write_result (next j)) (before (suc j) (omega arith)))
        (ap w.write_result (next k) ∙ e) small
    ∙ ap (λ t. (refused utf8 w, record w { sent = t }))
        (append_assoc w.sent (chunk (x ∷ xs) ∷ []) (reports_of (suc k) (drop 63 (x ∷ xs))))

-- A short write ends the call: when hid_write's results for the first `k` reports of a call, which
-- has more than 63 * k bytes, pass the code's test, and that for the next one is from 0 to 63, the call throws a WriteError with
-- hidapi's text, and the device was given those k + 1 reports and none behind them, if the mutex is
-- free.
pub write_short :
    (utf8 : Bytes → Bytes) (k : ℕ) (bytes : Bytes) (io : Io) (n : ℕ)
    → 63 * k < length bytes
    → io.wire.locked ≡ false
    → ((j : ℕ) → j < k → 64 ≤ to_size (io.wire.write_result (length io.wire.sent + j)))
    → io.wire.write_result (length io.wire.sent + k) ≡ pos n
    → n < 64
    → write utf8 bytes io ≡ (
      refused utf8 io.wire,
      record io { wire = record (io.wire) { sent = io.wire.sent ++ reports_of (suc k) bytes } },
    )
unfolding write
write_short utf8 k bytes io n long free before e small =
    ap {A = Outcome (Unit {0}) × Wire} (λ t. (t.0, record io { wire = t.1 }))
      (write_loop_short utf8 k (length bytes) bytes io.wire n (omega arith) long free before e
        small)
