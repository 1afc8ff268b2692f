-- ===== src/World/Reached.antt =====
-- What holds whenever the page and the threads have done their steps (apis.cpp, plugin.cpp).
use trezor_plugin.Prelude.{ℕ, zero, suc, ◌≡◌, refl, ap, Bool, List, [], ◌∷◌, Bytes, map, All}
use trezor_plugin.Libraries.Boost.{Boost}
use trezor_plugin.Libraries.Protobuf.{Protobuf}
use trezor_plugin.Libraries.FireBreath.{Variants}
use trezor_plugin.Libraries.OpenSsl.{OpenSsl}
use trezor_plugin.Utils.Signature.{Heap}
use trezor_plugin.Config.{Configuration}
use trezor_plugin.Devices.Channel.{Endian}
use trezor_plugin.World.{
  Thread, World, device, relock, turn_at, start, page_configure, page_devices, page_submit,
  thread_turn, Reach, begun, configured, enumerated, submitted, turned,
}
use trezor_plugin.World.Threads.{Served, Served-relock, turn-Turned, Served-turn}
use trezor_plugin.World.Invariant.{Sound, submit_to-Sound}

-- Steps that leave the devices in their places.
Sound-alike :
    {V : Type 0} (es : List (Bytes × ℕ)) (lk lk' : Bool) (ts ts' : List (Thread V))
    → map device ts' ≡ map device ts
    → All (Served es lk') ts'
    → Sound es lk ts
    → Sound es lk' ts'
Sound-alike es lk lk' ts ts' same served s = record {
  distinct = rw same s.distinct;
  silent = λ p q. s.silent p (rw same at q);
  served = served;
}

module _ {V : Type 0} where
  pub device-relock :
      (b : Bool) (ts : List (Thread V)) → map device (map (relock b) ts) ≡ map device ts
  device-relock b [] = refl
  device-relock b (t ∷ ts) = ap (λ ds. device t ∷ ds) (device-relock b ts)

  Served-map-relock :
      (es : List (Bytes × ℕ)) (lk b : Bool) (ts : List (Thread V))
      → All (Served es lk) ts
      → All (Served es b) (map (relock b) ts)
  Served-map-relock es lk b [] s = tt
  Served-map-relock es lk b (t ∷ ts) (s, ss) =
      (Served-relock es lk b t s, Served-map-relock es lk b ts ss)

  pub relock-Sound :
      (es : List (Bytes × ℕ)) (lk b : Bool) (ts : List (Thread V))
      → Sound es lk ts
      → Sound es b (map (relock b) ts)
  relock-Sound es lk b ts s =
      Sound-alike es lk b ts (map (relock b) ts) (device-relock b ts)
        (Served-map-relock es lk b ts s.served) s

module _ (boost : Boost) (pb : Protobuf) (fb : Variants pb) (utf8 : Bytes → Bytes) (e : Endian)
    (depth : ℕ) (pool : pb.Pool) where
  pub device-turn_at :
      (i : ℕ) (ts : List (Thread fb.Variant))
      → map device (turn_at boost pb fb utf8 e depth pool i ts) ≡ map device ts
  unfolding turn_at
  device-turn_at i [] = refl
  device-turn_at zero (t ∷ ts) =
      ap (λ d. d ∷ map device ts) (turn-Turned boost pb fb utf8 e depth pool t).same_device
  device-turn_at (suc i) (t ∷ ts) = ap (λ ds. device t ∷ ds) (device-turn_at i ts)

  Served-turn_at :
      (es : List (Bytes × ℕ)) (lk : Bool) (i : ℕ) (ts : List (Thread fb.Variant))
      → All (Served es lk) ts
      → All (Served es lk) (turn_at boost pb fb utf8 e depth pool i ts)
  unfolding turn_at
  Served-turn_at es lk i [] s = tt
  Served-turn_at es lk zero (t ∷ ts) (s, ss) =
      (Served-turn boost pb fb utf8 e depth pool es lk t s, ss)
  Served-turn_at es lk (suc i) (t ∷ ts) (s, ss) = (s, Served-turn_at es lk i ts ss)

  pub turn_at-Sound :
      (es : List (Bytes × ℕ)) (lk : Bool) (i : ℕ) (ts : List (Thread fb.Variant))
      → Sound es lk ts
      → Sound es lk (turn_at boost pb fb utf8 e depth pool i ts)
  turn_at-Sound es lk i ts s =
      Sound-alike es lk lk ts _ (device-turn_at i ts) (Served-turn_at es lk i ts s.served) s

module _ (boost : Boost) (pb : Protobuf) (fb : Variants pb) (utf8 : Bytes → Bytes) (e : Endian)
    (depth : ℕ) (ssl : OpenSsl) (parse : Bytes → Configuration pb) where
  -- Whatever the page and the threads did, in any order, since the plugin was created: no two
  -- communicators have the same path, a path without one was passed no job, and the jobs that the
  -- page passed for a device are those that its thread answered, each once, then the one in which it
  -- ended or waits, if any, then those that wait, all in the page's order. An open channel is the one
  -- handle of its thread, and each device finds hidapi's mutex as the plugin left it.
  pub Reach-Sound :
      (pool : pb.Pool) (heap : Heap) {es : List (Bytes × ℕ)} {w : World pb fb.Variant}
      → Reach boost pb fb utf8 e depth ssl parse (start pb pool heap) es w
      → Sound es w.hidapi.locked w.threads
  unfolding page_configure page_devices page_submit thread_turn
  Reach-Sound pool heap begun = record { distinct = tt; silent = λ p q. refl; served = tt }
  Reach-Sound pool heap (configured {es} {w} r location now text) = Reach-Sound pool heap r
  Reach-Sound pool heap (enumerated {es} {w} r location connected) =
      relock-Sound es w.hidapi.locked _ w.threads (Reach-Sound pool heap r)
  Reach-Sound pool heap (submitted {es} {w} r d found job) =
      submit_to-Sound d (record found { locked = w.hidapi.locked; handles = 0 }) job es w.threads
        refl (Reach-Sound pool heap r)
  Reach-Sound pool heap (turned {es} {w} r i) =
      turn_at-Sound boost pb fb utf8 e depth w.setup.pool es w.hidapi.locked i w.threads
        (Reach-Sound pool heap r)
