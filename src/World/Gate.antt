-- ===== src/World/Gate.antt =====
-- Which devices a page comes to: the signed configuration between the page and hidapi (apis.cpp,
-- plugin.cpp).
use trezor_plugin.Prelude.{
  ℕ, ◌≡◌, refl, ap, sym, ◌∙◌, ◌⊎◌, Bool, true, false, List, [], ◌∷◌, Bytes, Bool-cases, map, inl,
  inr, drop, All, All-append, arith,
}
use trezor_plugin.Exceptions.{Outcome, ok, throw, fault, blocked, out_of_fuel, thread_interrupted}
use trezor_plugin.Libraries.Boost.{Boost}
use trezor_plugin.Libraries.Protobuf.{Protobuf}
use trezor_plugin.Libraries.FireBreath.{Variants}
use trezor_plugin.Libraries.OpenSsl.{OpenSsl}
use trezor_plugin.Utils.Signature.{Heap, signature_length}
use trezor_plugin.Config.{DeviceDescriptor, Configuration, default_configuration}
use trezor_plugin.Devices.Channel.{Endian}
use trezor_plugin.Plugin.Site.{authenticate}
use trezor_plugin.Plugin.Enumerate.{HidDeviceInfo, Hidapi, enumerate}
use trezor_plugin.Plugin.Enumerate.Laws.{is_known, is_candidate, candidates, enumerate_result}
use trezor_plugin.Api.{rethrown, list_devices, api_devices}
use trezor_plugin.Api.Laws.{LetsIn, api_configure-Configured}
use trezor_plugin.World.{
  World, listed_by, start, page_configure, page_devices, page_submit, thread_turn, Reach, begun,
  configured, enumerated, submitted, turned,
}

module _ (boost : Boost) (known : List DeviceDescriptor) where
  candidates-known :
      (ds : List HidDeviceInfo) → All (λ d. is_known known d ≡ true) (candidates boost known ds)
  candidates-known [] = tt
  candidates-known (d ∷ ds) = elim (Bool-cases (is_candidate boost known d)) [
    | inl e ↦ rw e (ground arith, candidates-known ds)
    | inr e ↦ rw e (candidates-known ds)
  ]

  listed_by-enumerate_waits :
      (connected : List HidDeviceInfo) (h : Hidapi)
      → h.locked ≡ true
      → All (λ d. is_known known d ≡ true) (listed_by (enumerate boost known connected h).0)
  unfolding enumerate
  listed_by-enumerate_waits connected h held = rw held tt

  listed_by-enumerate :
      (connected : List HidDeviceInfo) (h : Hidapi)
      → All (λ d. is_known known d ≡ true) (listed_by (enumerate boost known connected h).0)
  listed_by-enumerate connected h = elim (Bool-cases h.locked) [
    | inl held ↦ listed_by-enumerate_waits connected h held
    | inr free ↦ elim (enumerate_result boost known connected h free) [
      | inl (distinct, e) ↦ rw e (candidates-known connected)
      | inr (twice, e) ↦ rw e tt
    ]
  ]

listed_by-rethrown :
    (boost : Boost) (r : Outcome (List DeviceDescriptor))
    → listed_by (rethrown boost r) ≡ listed_by r
listed_by-rethrown boost (ok ds) = refl
listed_by-rethrown boost (throw thread_interrupted) = refl
listed_by-rethrown boost (throw t) = refl
listed_by-rethrown boost fault = refl
listed_by-rethrown boost blocked = refl
listed_by-rethrown boost out_of_fuel = refl

module _ (boost : Boost) (pb : Protobuf) (ssl : OpenSsl) (parse : Bytes → Configuration pb) where
  -- A configuration that PluginAPI::configure lets in at some time, from a page at some place: signed
  -- with one of the plugin's keys, not expired then, and letting in that place.
  pub record Approved (c : Configuration pb) : Type 0 where
    pub location : Bytes
    pub now : ℕ
    pub text : Bytes
    pub heap : Heap
    pub lets_in : LetsIn boost pb ssl parse now location text heap
    pub same : c ≡ parse (drop signature_length lets_in.bytes)

  -- A device that a call of devices may hand out to a page at `location`: a configuration of that
  -- kind knows the device and lets in the location.
  pub record Permitted (location : Bytes) (d : DeviceDescriptor) : Type 0 where
    pub configuration : Configuration pb
    pub approved : Approved configuration
    pub known : is_known configuration.known_devices d ≡ true
    pub allowed : authenticate boost pb location configuration ≡ ok true

  -- The configuration of the plugin is that of its creation, or one that is let in; each device in
  -- the list of those handed out is permitted where the page was that it was handed to.
  pub record Gated {V : Type 0} (w : World pb V) : Type 0 where
    pub configuration :
        (w.setup.configuration ≡ default_configuration pb) ⊎ Approved w.setup.configuration
    pub listed : All (λ (p : Bytes × DeviceDescriptor). Permitted p.0 p.1) w.listed

  default-denies :
      (location : Bytes) → ¬ (authenticate boost pb location (default_configuration pb) ≡ ok true)
  unfolding authenticate
  default-denies location e = cc

  -- The devices that a configuration hands out.
  handed_out :
      (location : Bytes) (c : Configuration pb)
      → (c ≡ default_configuration pb) ⊎ Approved c
      → (connected : List HidDeviceInfo) (h : Hidapi) (o : Outcome Bool)
      → authenticate boost pb location c ≡ o
      → All
          (λ (p : Bytes × DeviceDescriptor). Permitted p.0 p.1)
          (map
            (λ d. (location, d))
            (listed_by (list_devices boost pb c.known_devices connected h o).0))
  handed_out location c (inl made) connected h (ok true) e =
      absurd (default-denies location (ap (authenticate boost pb location) (sym made) ∙ e))
  handed_out location c (inr a) connected h (ok true) e =
      let r = (enumerate boost c.known_devices connected h).0 in
      rw (listed_by-rethrown boost r)
        (permit (listed_by r) (listed_by-enumerate boost c.known_devices connected h))
    where
      permit :
          (ds : List DeviceDescriptor)
          → All (λ d. is_known c.known_devices d ≡ true) ds
          → All (λ (p : Bytes × DeviceDescriptor). Permitted p.0 p.1) (map (λ d. (location, d)) ds)
      permit [] h = tt
      permit (d ∷ ds) (k, ks) =
          (record { configuration = c; approved = a; known = k; allowed = e }, permit ds ks)
  handed_out location c g connected h (ok false) e = tt
  handed_out location c g connected h (throw t) e = tt
  handed_out location c g connected h fault e = tt
  handed_out location c g connected h blocked e = tt
  handed_out location c g connected h out_of_fuel e = tt

module _ (boost : Boost) (pb : Protobuf) (fb : Variants pb) (utf8 : Bytes → Bytes) (e : Endian)
    (depth : ℕ) (ssl : OpenSsl) (parse : Bytes → Configuration pb) where
  page_configure-Gated :
      (location : Bytes) (now : ℕ) (text : Bytes) (w : World pb fb.Variant)
      → Gated boost pb ssl parse w
      → Gated boost pb ssl parse
          (page_configure boost pb fb utf8 e depth ssl parse location now text w)
  unfolding page_configure
  page_configure-Gated location now text w g =
      elim (api_configure-Configured boost pb ssl parse now location text w.heap w.setup) [
        | inl (l, done, same) ↦ record {
          configuration = inr (record {
            location = location;
            now = now;
            text = text;
            heap = w.heap;
            lets_in = l;
            same = rw same refl;
          });
          listed = g.listed;
        }
        | inr (same, fails) ↦ record { configuration = rw same g.configuration; listed = g.listed }
      ]

  -- Devices are handed out only under a configuration that is signed with one of the plugin's keys.
  -- After any sequence of calls, from a page at any place at each of them, and of the threads' rounds
  -- since the plugin was created, the plugin has the empty configuration or one that is signed, and
  -- that at some time was current and let in some place; and each device that devices handed out is
  -- known to such a configuration, which also lets in the place that the page was at in that call.
  pub Reach-Gated :
      (pool : pb.Pool) (heap : Heap) {es : List (Bytes × ℕ)} {w : World pb fb.Variant}
      → Reach boost pb fb utf8 e depth ssl parse (start pb pool heap) es w
      → Gated boost pb ssl parse w
  unfolding page_devices page_submit thread_turn api_devices
  Reach-Gated pool heap begun = record { configuration = inl refl; listed = tt }
  Reach-Gated pool heap (configured {es} {w} r location now text) =
      page_configure-Gated location now text w (Reach-Gated pool heap r)
  Reach-Gated pool heap (enumerated {es} {w} r location connected) =
      let g = Reach-Gated pool heap r in
      let c = w.setup.configuration in
      record {
        configuration = g.configuration;
        listed = All-append _ w.listed _ g.listed (
            handed_out boost pb ssl parse location c g.configuration connected w.hidapi
              (authenticate boost pb location c) refl);
      }
  Reach-Gated pool heap (submitted {es} {w} r d found job) =
      let g = Reach-Gated pool heap r in
      record { configuration = g.configuration; listed = g.listed }
  Reach-Gated pool heap (turned {es} {w} r i) =
      let g = Reach-Gated pool heap r in
      record { configuration = g.configuration; listed = g.listed }
