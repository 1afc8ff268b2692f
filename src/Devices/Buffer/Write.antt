-- ===== src/Devices/Buffer/Write.antt =====
-- HIDBuffer::write (devices.cpp): the reports that it hands to the device.
pub mod Short
use trezor_plugin.Prelude.{
  ℕ, zero, suc, ◌+◌, ◌-◌, ◌*◌, ◌^◌, ◌≤◌, ◌<◌, ◌≡◌, refl, ap, sym, ◌∙◌, false, List, [], ◌∷◌, ◌++◌,
  min, append_assoc, append-nil, Bytes, codes, length, length-append, length-take, length-drop,
  take, drop, take-append-drop, take-all, length-replicate, replicate, le→ltb, leb, if_false,
  if_true, lt→ltb, arith, All, Bool-cases, inl, inr,
}
use trezor_plugin.Prelude.Int.{pos, negsuc, to_size}
use trezor_plugin.Exceptions.{Outcome, ok, throw, write_error}
use trezor_plugin.Devices.State.{Wire, Io}
use trezor_plugin.Devices.Buffer.{payload, chunk, error_text, write_loop, write}

-- What a receiver takes out of the reports: as many bytes as the first byte of each says.
abbrev pub payloads : List Bytes → Bytes
payloads [] = []
payloads ([] ∷ rs) = payloads rs
payloads ((first ∷ others) ∷ rs) = payload first others ++ payloads rs

-- 64 bytes, of which the first is 63.
abbrev pub IsReport : Bytes → Type 0
IsReport r = (others : Bytes) × (r ≡ 63 ∷ others) × (length others ≡ 63)

-- hid_write's result passes the code's test, as `size_t`, at every call.
abbrev pub IsAccepting : Wire → Type 0
IsAccepting w = (k : ℕ) → 64 ≤ to_size (w.write_result k)

-- The rest of a report after its first byte.
abbrev filler : Bytes → Bytes
filler bytes = take 63 bytes ++ replicate (63 - min 63 (length bytes)) 0

length-filler : (bytes : Bytes) → length (filler bytes) ≡ 63
length-filler bytes = omega (
  arith,
  length-append (take 63 bytes) (replicate (63 - min 63 (length bytes)) 0),
  length-take 63 bytes,
  length-replicate {A = ℕ} (63 - min 63 (length bytes)) 0,
)

chunk-IsReport : (bytes : Bytes) → IsReport (chunk bytes)
unfolding chunk
chunk-IsReport bytes = (filler bytes, refl, length-filler bytes)

payload-chunk :
    (bytes : Bytes) (rs : List Bytes) → payloads (chunk bytes ∷ rs) ≡ filler bytes ++ payloads rs
unfolding chunk
payload-chunk bytes rs =
    let h = length-filler bytes in
    ap (λ t. t ++ payloads rs) (take-all _ (filler bytes) (omega arith))

-- What the loop did with the bytes: it appended whole reports whose payloads are the bytes, and
-- fewer than 63 zeros behind them.
pub record Sends (bytes : Bytes) (w w' : Wire) : Type 0 where
  pub reports : List Bytes
  pub padding : ℕ
  pub appended : w' ≡ record w { sent = w.sent ++ reports }
  pub carries : payloads reports ≡ bytes ++ replicate padding 0
  pub short : padding < 63
  pub shape : All IsReport reports

-- One more report in front.
Sends-step :
    (bytes : Bytes) (w w' : Wire) (next : List Bytes) (pad : ℕ)
    → w' ≡ record w { sent = (w.sent ++ (chunk bytes ∷ [])) ++ next }
    → filler bytes ++ payloads next ≡ bytes ++ replicate pad 0
    → pad < 63
    → All IsReport next
    → Sends bytes w w'
Sends-step bytes w w' next pad e c h shape = record {
  reports = chunk bytes ∷ next;
  padding = pad;
  appended = e ∙ ap (λ t. record w { sent = t }) (append_assoc w.sent (chunk bytes ∷ []) next);
  carries = payload-chunk bytes next ∙ c;
  short = h;
  shape = (chunk-IsReport bytes, shape);
}

-- A long rest fills a report whole, and a short one ends the loop.
filler_long : (bytes : Bytes) → 63 ≤ length bytes → filler bytes ≡ take 63 bytes
filler_long bytes h =
    let e : 63 - min 63 (length bytes) ≡ 0 = omega arith in
    ap (λ t. take 63 bytes ++ replicate t 0) e ∙ append-nil (take 63 bytes)

drop_short : (bytes : Bytes) → length bytes ≤ 63 → drop 63 bytes ≡ []
drop_short bytes h = empty (drop 63 bytes) (omega (arith, length-drop 63 bytes))
  where
    empty : (xs : Bytes) → length xs ≤ 0 → xs ≡ []
    empty [] h = refl
    empty (x ∷ xs) h = absurd (omega arith)

-- The loop's state after one report.
abbrev sent_one : Bytes → Wire → Wire
sent_one bytes w = record w { sent = w.sent ++ (chunk bytes ∷ []) }

sends_long :
    (bytes rest : Bytes) (pad : ℕ)
    → 63 ≤ length bytes
    → rest ≡ drop 63 bytes ++ replicate pad 0
    → filler bytes ++ rest ≡ bytes ++ replicate pad 0
sends_long bytes rest pad h e =
    ap (λ t. t ++ rest) (filler_long bytes h)
    ∙ ap (λ t. take 63 bytes ++ t) e
    ∙ sym (append_assoc (take 63 bytes) (drop 63 bytes) (replicate pad 0))
    ∙ ap (λ t. t ++ replicate pad 0) (take-append-drop 63 bytes)

module _ (utf8 : Bytes → Bytes) where
  write_loop_step :
      (fuel : ℕ) (x : ℕ) (xs : Bytes) (w : Wire)
      → w.locked ≡ false
      → 64 ≤ to_size (w.write_result (length w.sent))
      → write_loop utf8 (suc fuel) (x ∷ xs) w
        ≡ write_loop utf8 fuel (drop 63 (x ∷ xs)) (sent_one (x ∷ xs) w)
  unfolding write_loop
  write_loop_step fuel x xs w free h =
      if_false w.locked _ _ free
      ∙ if_false _ _ _ (le→ltb (to_size (w.write_result (length w.sent))) 64 h)

  write_loop_nil : (fuel : ℕ) (w : Wire) → write_loop utf8 fuel [] w ≡ (ok tt, w)
  unfolding write_loop
  write_loop_nil zero w = refl
  write_loop_nil (suc fuel) w = refl

  write_loop-Sends :
      (fuel : ℕ) (bytes : Bytes) (w : Wire)
      → length bytes ≤ fuel
      → w.locked ≡ false
      → IsAccepting w
      → ((write_loop utf8 fuel bytes w).0 ≡ ok tt) × Sends bytes w (write_loop utf8 fuel bytes w).1
  write_loop-Sends fuel [] w hf free acc = rw (write_loop_nil fuel w) (
    refl,
    record {
      reports = [];
      padding = 0;
      appended = ap (λ t. record w { sent = t }) (sym (append-nil w.sent));
      carries = refl;
      short = omega arith;
      shape = tt;
    },
  )
  write_loop-Sends zero (x ∷ xs) w hf free acc = absurd (omega arith)
  write_loop-Sends (suc fuel) (x ∷ xs) w hf free acc =
      rw (write_loop_step fuel x xs w free (acc (length w.sent)))
        (elim (Bool-cases (leb (length (x ∷ xs)) 63)) [
          | inl last ↦
              rw (drop_short (x ∷ xs) (ground arith), write_loop_nil)
                (
                  refl,
                  Sends-step (x ∷ xs) w _ [] (63 - min 63 (length (x ∷ xs)))
                      (ap (λ t. record w { sent = t }) (sym (append-nil _)))
                      (append-nil _
                        ∙ ap (λ t. t ++ replicate (63 - min 63 (length (x ∷ xs))) 0)
                            (take-all 63 (x ∷ xs) (ground arith)))
                      (omega arith) tt,
                )
          | inr long ↦
              let (done, s) =
                write_loop-Sends fuel (drop 63 (x ∷ xs)) (sent_one (x ∷ xs) w)
                  (omega (arith, length-drop 63 (x ∷ xs))) free acc in
              (
                done,
                Sends-step (x ∷ xs) w _ s.reports s.padding s.appended
                    (sends_long (x ∷ xs) (payloads s.reports) s.padding (ground arith) s.carries)
                    s.short s.shape,
              )
        ])

-- HIDBuffer::write, when the mutex is free and hid_write's results pass the code's test: it ends, and what it hands over
-- are whole reports that carry the bytes and fewer than 63 zeros behind them, in order.
pub write-Sends :
    (utf8 : Bytes → Bytes) (bytes : Bytes) (io : Io)
    → io.wire.locked ≡ false
    → IsAccepting io.wire
    → ((write utf8 bytes io).0 ≡ ok tt)
      × Sends bytes io.wire (write utf8 bytes io).1.wire
      × ((write utf8 bytes io).1.buffer ≡ io.buffer)
unfolding write
write-Sends utf8 bytes io free acc =
    let (done, s) = write_loop-Sends utf8 (length bytes) bytes io.wire (omega arith) free acc in
    (done, s, refl)

-- A hid_write that fails, with any negative int at every call, goes unnoticed: the call
-- returns, when the mutex is free.
pub write_negative :
    (utf8 : Bytes → Bytes) (bytes : Bytes) (io : Io)
    → io.wire.locked ≡ false
    → ((k : ℕ) → (m : ℕ) × (m < 2 ^ 31) × (io.wire.write_result k ≡ negsuc m))
    → (write utf8 bytes io).0 ≡ ok tt
write_negative utf8 bytes io free fails = (write-Sends utf8 bytes io free accepting).0
  where
    accepting : IsAccepting io.wire
    accepting k = let (m, small, e) = fails k in rw e (omega arith)
