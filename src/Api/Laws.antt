-- ===== src/Api/Laws.antt =====
-- PluginAPI::configure and PluginAPI::devices (apis.cpp).
use trezor_plugin.Prelude.{
  ℕ, ◌≤◌, ◌≡◌, refl, ap, sym, ◌∙◌, ◌⊎◌, inl, inr, Bool, true, false, Option, none, some, List,
  Bytes, length, drop, ltb, Bool-cases, if_true, if_false, ltb→le,
}
use trezor_plugin.Exceptions.{Outcome, ok, throw, fault, blocked, out_of_fuel, thread_interrupted}
use trezor_plugin.Libraries.Boost.{Boost}
use trezor_plugin.Libraries.Protobuf.{Protobuf}
use trezor_plugin.Libraries.OpenSsl.{OpenSsl}
use trezor_plugin.Utils.Codecs.{hex_decode}
use trezor_plugin.Utils.Signature.{Heap, signature_length, signature_verify}
use trezor_plugin.Config.{wire_protocol, DeviceDescriptor, Configuration}
use trezor_plugin.Messages.Names.{load_protobuf}
use trezor_plugin.Plugin.Site.{authenticate}
use trezor_plugin.Plugin.Configure.{Setup, is_expired, configure_result}
use trezor_plugin.Plugin.Enumerate.{HidDeviceInfo, Hidapi}
use trezor_plugin.Api.{
  rethrown, verified, configure_decoded, after_decoding, api_configure, list_devices, api_devices,
}

module _ (boost : Boost) (pb : Protobuf) (ssl : OpenSsl) (parse : Bytes → Configuration pb) where
  -- A text that is let in: its bytes, of which the first 64 sign the rest, and the configuration in
  -- the rest, which has not expired and lets in the page's site.
  pub record LetsIn (now : ℕ) (location : Bytes) (text : Bytes) (h : Heap) : Type 0 where
    pub bytes : Bytes
    pub decoded : hex_decode boost text ≡ ok bytes
    pub long : signature_length ≤ length bytes
    pub signed : (signature_verify ssl bytes (drop signature_length bytes) h).0 ≡ true
    pub current : is_expired boost pb now (parse (drop signature_length bytes)) ≡ false
    pub allowed : authenticate boost pb location (parse (drop signature_length bytes)) ≡ ok true

  verified-signed :
      (bytes : Bytes) (h : Heap)
      → (verified boost pb ssl parse bytes h).0 ≡ true
      → (signature_length ≤ length bytes)
        × ((signature_verify ssl bytes (drop signature_length bytes) h).0 ≡ true)
  unfolding verified
  verified-signed bytes h e = elim (Bool-cases (ltb (length bytes) signature_length)) [
    | inl short ↦
        let clash : false ≡ true = ap (λ (t : Bool × Heap). t.0) (sym (if_true _ _ _ short)) ∙ e in
        absurd cc
    | inr long ↦ (ltb→le _ _ long, ap (λ (t : Bool × Heap). t.0) (sym (if_false _ _ _ long)) ∙ e)
  ]

  -- What PluginAPI::configure comes to: the plugin has the configuration of a text that is let in,
  -- or is as it was, and the call did not return.
  abbrev pub Configured :
      ℕ → Bytes → Bytes → Heap → Setup pb → Outcome (Unit {0}) × Heap × Option (Setup pb) → Type 0
  Configured now location text h s (r, h', plugin) =
      ((l : LetsIn now location text h) × (r ≡ ok tt)
        × (plugin
            ≡ some (record {
              configuration = parse (drop signature_length l.bytes);
              pool =
                  load_protobuf pb s.pool
                    (wire_protocol pb (parse (drop signature_length l.bytes)));
            })))
      ⊎ ((plugin ≡ some s) × ¬ (r ≡ ok tt))

  configure_decoded-Configured :
      (now : ℕ) (location text bytes : Bytes) (h : Heap) (s : Setup pb)
      → hex_decode boost text ≡ ok bytes
      → Configured now location text h s
          (configure_decoded boost pb ssl parse now location bytes h (some s))
  unfolding configure_decoded
  configure_decoded-Configured now location text bytes h s d =
      elim (Bool-cases (verified boost pb ssl parse bytes h).0) [
        | inl good ↦
            let (long, signed) = verified-signed bytes h good in
            rw good
              (elim (configure_result boost pb now location (parse (drop signature_length bytes))
                s) [
                  | inl (current, allowed, e) ↦ inl (
                    record {
                      bytes = bytes;
                      decoded = d;
                      long = long;
                      signed = signed;
                      current = current;
                      allowed = allowed;
                    },
                    ap (λ (t : Outcome (Unit {0}) × Setup pb). t.0) e,
                    ap (λ (t : Outcome (Unit {0}) × Setup pb). some t.1) e,
                  )
                  | inr (_, stays, fails) ↦ inr (ap some stays, fails)
                ])
        | inr bad ↦ rw bad (inr (refl, λ e. cc))
      ]

  rethrown-fails : (r : Outcome (Unit {0})) → ¬ (r ≡ ok tt) → ¬ (rethrown boost r ≡ ok tt)
  rethrown-fails (ok tt) h e = h refl
  rethrown-fails (throw thread_interrupted) h e = cc
  rethrown-fails (throw x) h e = cc
  rethrown-fails fault h e = cc
  rethrown-fails blocked h e = cc
  rethrown-fails out_of_fuel h e = cc

  Configured-rethrown :
      (now : ℕ) (location text : Bytes) (h : Heap) (s : Setup pb) (r : Outcome (Unit {0}))
      (h' : Heap) (plugin : Option (Setup pb))
      → Configured now location text h s (r, h', plugin)
      → Configured now location text h s (rethrown boost r, h', plugin)
  Configured-rethrown now location text h s r h' plugin (inl (l, done, e)) =
      inl (l, ap (rethrown boost) done, e)
  Configured-rethrown now location text h s r h' plugin (inr (e, fails)) =
      inr (e, rethrown-fails r fails)

  after_decoding-Configured :
      (now : ℕ) (location text : Bytes) (h : Heap) (s : Setup pb) (o : Outcome Bytes)
      → hex_decode boost text ≡ o
      → Configured now location text h s
          (after_decoding boost pb ssl parse now location o h (some s))
  after_decoding-Configured now location text h s (ok bytes) d =
      configure_decoded-Configured now location text bytes h s d
  after_decoding-Configured now location text h s (throw x) d = inr (refl, λ e. cc)
  after_decoding-Configured now location text h s fault d = inr (refl, λ e. cc)
  after_decoding-Configured now location text h s blocked d = inr (refl, λ e. cc)
  after_decoding-Configured now location text h s out_of_fuel d = inr (refl, λ e. cc)

  -- PluginAPI::configure changes the plugin's configuration and descriptor pool only for a text
  -- that is let in: it decodes to bytes whose first 64 are a signature of the rest under one of the
  -- plugin's keys, and the configuration in the rest has not expired and allows the page's site.
  -- Then both are that configuration's; in every other case both stay, whatever was thrown.
  pub api_configure-Configured :
      (now : ℕ) (location text : Bytes) (h : Heap) (s : Setup pb)
      → Configured now location text h s
          (api_configure boost pb ssl parse now location text h (some s))
  unfolding api_configure
  api_configure-Configured now location text h s =
      let (r, h', plugin) =
        after_decoding boost pb ssl parse now location (hex_decode boost text) h (some s) in
      Configured-rethrown now location text h s r h' plugin
        (after_decoding-Configured now location text h s (hex_decode boost text) refl)

module _ (boost : Boost) (pb : Protobuf) where
  -- PluginAPI::devices reaches hidapi only for a page whose site the plugin's configuration lets
  -- in: otherwise it does not return, and hidapi's mutex and lists are as they were.
  api_devices_guarded :
      (location : Bytes) (plugin : Option (Setup pb)) (connected : List HidDeviceInfo) (h : Hidapi)
      → ((s : Setup pb) × (plugin ≡ some s)
          × (authenticate boost pb location s.configuration ≡ ok true))
        ⊎ (((api_devices boost pb location plugin connected h).1 ≡ h)
            × ((ds : List DeviceDescriptor)
                → ¬ ((api_devices boost pb location plugin connected h).0 ≡ ok ds)))
  unfolding api_devices
  api_devices_guarded location none connected h = inr (refl, λ ds e. cc)
  api_devices_guarded location (some s) connected h =
      by_answer (authenticate boost pb location s.configuration) refl
    where
      known : List DeviceDescriptor
      known = s.configuration.known_devices

      by_answer :
          (o : Outcome Bool)
          → authenticate boost pb location s.configuration ≡ o
          → ((s' : Setup pb) × (some s ≡ some s')
              × (authenticate boost pb location s'.configuration ≡ ok true))
            ⊎ (((list_devices boost pb known connected h o).1 ≡ h)
                × ((ds : List DeviceDescriptor)
                    → ¬ ((list_devices boost pb known connected h o).0 ≡ ok ds)))
      by_answer (ok true) e = inl (s, refl, e)
      by_answer (ok false) e = inr (refl, λ ds x. cc)
      by_answer (throw t) e = inr (refl, λ ds x. cc)
      by_answer fault e = inr (refl, λ ds x. cc)
      by_answer blocked e = inr (refl, λ ds x. cc)
      by_answer out_of_fuel e = inr (refl, λ ds x. cc)
