-- ===== src/Plugin/Executor/Opening.antt =====
-- The channel of DeviceJobExecutor (plugin.cpp): how a job finds it, and what leaves it fit for use.
use trezor_plugin.Prelude.{
  ℕ, ◌+◌, ◌≡◌, refl, ap, sym, ◌∙◌, true, false, Bool-cases, inl, inr, some, List, [], ◌∷◌, ◌++◌,
  Bytes, length, arith, if_true, if_false,
}
use trezor_plugin.Prelude.Int.{to_size}
use trezor_plugin.Exceptions.{ok}
use trezor_plugin.Config.{value_or, path}
use trezor_plugin.Devices.State.{Wire, Io, new_buffer}
use trezor_plugin.Devices.Buffer.Stream.{stream}
use trezor_plugin.Devices.Buffer.Answer.{IsReady}
use trezor_plugin.Devices.Buffer.Write.{IsAccepting}
use trezor_plugin.Devices.Channel.{open_channel}
use trezor_plugin.Devices.Channel.Received.{IsReceived}
use trezor_plugin.Plugin.Executor.{Executor, ensure_channel}

-- What the executor's channel works on, and the executor after a call of the channel.
abbrev pub io_of : {V : Type 0} → Executor V → Io
io_of x = record { buffer = value_or new_buffer x.buffer; wire = x.wire }

abbrev pub with_io : {V : Type 0} → Executor V → Io → Executor V
with_io x io = record x { buffer = some io.buffer; wire = io.wire }

-- The device takes every report, nobody holds the mutex, and it can be opened if no channel is open.
pub record IsOpenable {V : Type 0} (x : Executor V) : Type 0 where
  pub free : x.wire.locked ≡ false
  pub accepting : IsAccepting x.wire
  pub opens : x.channel ≡ false → x.wire.open_result (length x.wire.opened) ≡ true

-- And it answers in time.
pub record IsHealthy {V : Type 0} (base : ℕ) (x : Executor V) : Type 0 where
  pub ready : IsReady base (io_of x)
  pub openable : IsOpenable x

-- Sending leaves a ready device ready.
pub IsReady-sent :
    (base : ℕ) (io io' : Io) (sent : List Bytes)
    → io'.wire ≡ record (io.wire) { sent = sent }
    → io'.buffer ≡ io.buffer
    → IsReady base io
    → IsReady base io'
IsReady-sent base io io' sent w b h = record {
  free = rw w (h.free);
  begun = rw w (h.begun);
  prompt = rw (w, b) (h.prompt);
}

pub stream-sent :
    (io io' : Io) (sent : List Bytes)
    → io'.wire ≡ record (io.wire) { sent = sent }
    → io'.buffer ≡ io.buffer
    → stream io' ≡ stream io
stream-sent io io' sent w b = rw (w, b) refl

module _ {V : Type 0} where
  abbrev with_channel : Executor V → Executor V
  with_channel x = record x {
    buffer = some (value_or new_buffer x.buffer);
    channel = true;
    wire = record (x.wire) {
      opened = x.wire.opened ++ (path (x.device) ∷ []);
      handles = x.wire.handles + 1;
      features = x.wire.features ++ ((0x41 ∷ 0x01 ∷ []) ∷ (0x43 ∷ 0x03 ∷ []) ∷ []);
    };
  }

  -- Sending and receiving leave a channel that is there.
  pub IsOpenable-after :
      (y z : Executor V) (w : Wire) (sent : List Bytes)
      → w ≡ record (y.wire) { sent = sent }
      → IsReceived w z.wire
      → z.channel ≡ true
      → IsOpenable y
      → IsOpenable z
  IsOpenable-after y z w sent e e' there h = record {
    free = ap (λ v. v.locked) e' ∙ ap (λ v. v.locked) e ∙ h.free;
    accepting = λ k. omega (
      arith,
      h.accepting k,
      ap (λ v. to_size (v.write_result k)) e',
      ap (λ v. to_size (v.write_result k)) e,
    );
    opens = λ without. let clash : true ≡ false = sym there ∙ without in absurd cc;
  }

  -- The channel is there, and nothing was sent or received for it.
  pub record Opens (x y : Executor V) : Type 0 where
    pub opened : ensure_channel x ≡ (ok tt, y)
    pub channel : y.channel ≡ true
    pub answers : y.answers ≡ x.answers
    pub sent : y.wire.sent ≡ x.wire.sent
    pub buffer : (io_of y).buffer ≡ (io_of x).buffer
    pub reads : y.wire.reads ≡ x.wire.reads
    pub clock : y.wire.now ≡ x.wire.now
    pub openable : IsOpenable y

  pub ensure_channel-Opens : (x : Executor V) → IsOpenable x → (y : Executor V) × Opens x y
  unfolding ensure_channel open_channel
  ensure_channel-Opens x h = elim (Bool-cases x.channel) [
    | inl there ↦ (
      record x { buffer = some (value_or new_buffer x.buffer) },
      record {
        opened = if_true x.channel _ _ there;
        channel = there;
        answers = refl;
        sent = refl;
        buffer = refl;
        reads = refl;
        clock = refl;
        openable = record { free = h.free; accepting = h.accepting; opens = h.opens };
      },
    )
    | inr without ↦ (
      with_channel x,
      record {
        opened = if_false x.channel _ _ without ∙ rw (h.free, h.opens without) refl;
        channel = refl;
        answers = refl;
        sent = refl;
        buffer = refl;
        reads = refl;
        clock = refl;
        openable = record { free = h.free; accepting = h.accepting; opens = λ e. cc };
      },
    )
  ]

  pub Opens-IsReady :
      (base : ℕ) (x y : Executor V) → Opens x y → IsReady base (io_of x) → IsReady base (io_of y)
  Opens-IsReady base x y o h = record {
    free = o.openable.free;
    begun = rw o.clock (h.begun);
    prompt = rw (o.reads, o.buffer) (h.prompt);
  }

  pub Opens-stream : (x y : Executor V) → Opens x y → stream (io_of y) ≡ stream (io_of x)
  Opens-stream x y o = rw (o.reads, o.buffer) refl
