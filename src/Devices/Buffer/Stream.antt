-- ===== src/Devices/Buffer/Stream.antt =====
-- The buffer and the reports to come, read as one stream of bytes: `read` takes from its front.
use trezor_plugin.Prelude.{
  ℕ, ◌+◌, ◌-◌, ◌≤◌, ◌≡◌, ◌≢◌, refl, ap, sym, ◌∙◌, Bool, true, false, List, [], ◌∷◌, ◌++◌,
  append_assoc, append-nil, Bytes, length, ltb, arith, Bool-cases, Option-cases, inl, inr, ◌⊎◌,
  if◌then◌else◌, ltb→le, lt→ltb, if_true, if_false, ◌<◌,
}
use trezor_plugin.Exceptions.{
  Exception, Outcome, ok, throw, fault, out_of_fuel, read_timeout, thread_interrupted,
}
use trezor_plugin.Devices.State.{
  HidRead, received, nothing, failed, ReadStep, HidBuffer, Progress, Io,
}
use trezor_plugin.Devices.Buffer.{
  buffer_bytes, payload, Turn, more, stop, turn_received, turn_nothing, turn, fill,
}
use trezor_plugin.Devices.Buffer.Array.{contents, buffer_bytes-contents}

abbrev pub carried : HidRead → Bytes
carried (received first others) = payload first others
carried nothing = []
carried (failed err) = []

-- The bytes that the answers to come carry.
abbrev pub flow : List ReadStep → Bytes
flow [] = []
flow (s ∷ rest) = carried s.answer ++ flow rest

abbrev pub stream : Io → Bytes
stream io = contents io.buffer ++ flow io.wire.reads

-- hid_read_timeout was asked for 64 bytes, and gives no more.
abbrev pub IsHidRead : HidRead → Type 0
IsHidRead (received first others) = length others ≤ 63
IsHidRead nothing = Unit
IsHidRead (failed err) = Unit

-- What a turn does to the contents.
abbrev pub Turned : HidRead → HidBuffer → Turn → Type 0
Turned a b (more b') =
    (contents b' ≡ contents b ++ carried a)
    × (b'.buffer_length ≡ b.buffer_length + length (carried a))
    × (b'.seconds ≡ b.seconds)
Turned a b (stop r) = (r ≢ ok tt) × (r ≢ fault → carried a ≡ []) × (r ≢ out_of_fuel)

turn_received-Turned :
    (first : ℕ) (others : Bytes) (b : HidBuffer)
    → Turned (received first others) b (turn_received (payload first others) b)
turn_received-Turned first others b = elim (Option-cases (buffer_bytes (payload first others) b)) [
  | inl e ↦ rw (e, Turned, turn_received) ((λ h. cc), (λ h. absurd (h refl)), λ h. cc)
  | inr (b', e) ↦ rw (e, Turned, turn_received) (buffer_bytes-contents (payload first others) b e)
]

pub turn_nothing-cases :
    (start : ℕ) (timeout : Bool) (s : ReadStep) (b : HidBuffer)
    → (turn_nothing start timeout s b ≡ more b)
      ⊎ ((e : Exception) × (turn_nothing start timeout s b ≡ stop (throw e)))
turn_nothing-cases start false s b = inl refl
turn_nothing-cases start true s b = elim (Bool-cases (ltb b.seconds (s.now - start))) [
  | inl late ↦ rw late (inr (read_timeout, refl))
  | inr early ↦ rw early (interrupted s.interrupted)
]
  where
    interrupted :
        (i : Bool)
        → ((if i then stop (throw thread_interrupted) else more b) ≡ more b)
          ⊎ ((e : Exception) × ((if i then stop (throw thread_interrupted) else more b)
                ≡ stop (throw e)))
    interrupted true = inr (thread_interrupted, refl)
    interrupted false = inl refl

pub turn-Turned :
    (utf8 : Bytes → Bytes) (start : ℕ) (timeout : Bool) (s : ReadStep) (a : HidRead) (b : HidBuffer)
    → Turned a b (turn utf8 start timeout s a b)
unfolding turn
turn-Turned utf8 start timeout s (received first others) b = turn_received-Turned first others b
turn-Turned utf8 start timeout s nothing b = elim (turn_nothing-cases start timeout s b) [
  | inl e ↦ rw e (sym (append-nil (contents b)), omega arith, refl)
  | inr (x, e) ↦ rw e ((λ h. cc), (λ h. refl), λ h. cc)
]
turn-Turned utf8 start timeout s (failed err) b = ((λ h. cc), (λ h. refl), λ h. cc)

pub Turn-cases :
    (t : Turn) → ((b : HidBuffer) × (t ≡ more b)) ⊎ ((r : Outcome (Unit {0})) × (t ≡ stop r))
Turn-cases (more b) = inl (b, refl)
Turn-cases (stop r) = inr (r, refl)

-- What `fill` did: nothing of the stream is lost, and a normal end has filled the buffer.
abbrev pub Filled : ℕ → Bytes → Outcome (Unit {0}) × Progress → Type 0
Filled wanted before (r, p) =
    (r ≢ fault → before ≡ contents p.buffer ++ flow p.reads)
    × (r ≡ ok tt → wanted ≤ p.buffer.buffer_length)
    × (r ≢ out_of_fuel)

module _ (utf8 : Bytes → Bytes) (locked : Bool) (start wanted : ℕ) (timeout : Bool) where
  -- One turn of the loop, by what it decides.
  pub fill_more :
      (s : ReadStep) (rest : List ReadStep) (now : ℕ) (b b' : HidBuffer)
      → locked ≡ false
      → b.buffer_length < wanted
      → turn utf8 start timeout s s.answer b ≡ more b'
      → fill utf8 locked start wanted timeout (s ∷ rest) now b
        ≡ fill utf8 locked start wanted timeout rest s.now b'
  unfolding fill
  fill_more s rest now b b' free short e =
      if_true _ _ _ (lt→ltb b.buffer_length wanted short) ∙ if_false locked _ _ free ∙ rw e

  pub fill_stop :
      (s : ReadStep) (rest : List ReadStep) (now : ℕ) (b : HidBuffer) (r : Outcome (Unit {0}))
      → locked ≡ false
      → b.buffer_length < wanted
      → turn utf8 start timeout s s.answer b ≡ stop r
      → (fill utf8 locked start wanted timeout (s ∷ rest) now b).0 ≡ r
  unfolding fill
  fill_stop s rest now b r free short e = rw (free, lt→ltb b.buffer_length wanted short, e)

  pub fill-Filled :
      (steps : List ReadStep) (now : ℕ) (b : HidBuffer)
      → Filled wanted (contents b ++ flow steps) (fill utf8 locked start wanted timeout steps now b)
  unfolding fill
  fill-Filled [] now b = elim (Bool-cases (ltb b.buffer_length wanted)) [
    | inl short ↦ rw short ((λ h. refl), (λ h. cc), λ h. cc)
    | inr full ↦ rw full ((λ h. refl), (λ h. ltb→le _ _ full), λ h. cc)
  ]
  fill-Filled (s ∷ rest) now b = elim (Bool-cases (ltb b.buffer_length wanted)) [
    | inl short ↦ rw short (elim (Bool-cases locked) [
      | inl stuck ↦ rw stuck ((λ h. refl), (λ h. cc), λ h. cc)
      | inr free ↦ rw free (elim (Turn-cases (turn utf8 start timeout s s.answer b)) [
        | inl (b', e) ↦
            let (all, _, _) : Turned s.answer b (more b') =
              rw e at (turn-Turned utf8 start timeout s s.answer b) in
            let (kept, size, fuel) = fill-Filled rest s.now b' in
            rw e (
              (λ h.
                  sym (append_assoc (contents b) (carried s.answer) (flow rest))
                  ∙ ap (λ t. t ++ flow rest) (sym all)
                  ∙ kept h),
              size,
              fuel,
            )
        | inr (r, e) ↦
            let (ends, none_carried, fuel) : Turned s.answer b (stop r) =
              rw e at (turn-Turned utf8 start timeout s s.answer b) in
            rw e (
              (λ h. ap (λ t. contents b ++ (t ++ flow rest)) (none_carried h)),
              (λ h. absurd (ends h)),
              fuel,
            )
      ])
    ])
    | inr full ↦ rw full ((λ h. refl), (λ h. ltb→le _ _ full), λ h. cc)
  ]
