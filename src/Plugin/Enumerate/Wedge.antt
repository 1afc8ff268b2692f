-- ===== src/Plugin/Enumerate/Wedge.antt =====
-- The plugin after enumerate met two devices with one serial number (plugin.cpp).
use trezor_plugin.Prelude.{ℕ, ◌≡◌, ap, ◌∙◌, true, false, List, ◌∷◌, Bytes, if_true, inl, inr}
use trezor_plugin.Exceptions.{Outcome, blocked}
use trezor_plugin.Libraries.Boost.{Boost}
use trezor_plugin.Config.{DeviceDescriptor}
use trezor_plugin.Devices.State.{Wire, Io}
use trezor_plugin.Devices.Buffer.{write_loop, write}
use trezor_plugin.Plugin.Enumerate.{HidDeviceInfo, Hidapi, enumerate}
use trezor_plugin.Plugin.Enumerate.Laws.{Distinct, candidates, enumerate_result}

-- When enumerate threw because two candidates share a serial number, every further enumeration
-- waits for ever, and so does a write of any bytes to a device under that mutex.
pub enumerate_wedges :
    (boost : Boost) (known : List DeviceDescriptor) (devices later : List HidDeviceInfo)
    (h : Hidapi) (utf8 : Bytes → Bytes) (x : ℕ) (xs : Bytes) (io : Io)
    → h.locked ≡ false
    → ¬ Distinct (candidates boost known devices)
    → io.wire.locked ≡ (enumerate boost known devices h).1.locked
    → ((enumerate boost known later (enumerate boost known devices h).1).0 ≡ blocked)
      × ((write utf8 (x ∷ xs) io).0 ≡ blocked)
unfolding enumerate write write_loop
enumerate_wedges boost known devices later h utf8 x xs io free twice mutex =
    elim (enumerate_result boost known devices h free) [
      | inl (distinct, e) ↦ absurd (twice distinct)
      | inr (_, e) ↦
          let held : (enumerate boost known devices h).1.locked ≡ true =
            ap (λ (r : Outcome (List DeviceDescriptor) × Hidapi). r.1.locked) e in
          (
            ap (λ (r : Outcome (List DeviceDescriptor) × Hidapi). r.0) (if_true _ _ _ held),
            ap (λ (r : Outcome (Unit {0}) × Wire). r.0) (if_true io.wire.locked _ _ (mutex ∙ held)),
          )
    ]
