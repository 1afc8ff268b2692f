-- ===== src/World/Ending.antt =====
-- BitcoinTrezorPlugin::shutdown (plugin.cpp), at the end of what the page and the threads did.
use trezor_plugin.Prelude.{
  ℕ, ◌≡◌, refl, ap, sym, ◌∙◌, ◌++◌, Bool, false, none, List, [], ◌∷◌, Bytes, map, length, All,
  arith,
}
use trezor_plugin.Exceptions.{Outcome, ok, throw, fault, blocked, out_of_fuel}
use trezor_plugin.Libraries.Boost.{Boost}
use trezor_plugin.Libraries.Protobuf.{Protobuf}
use trezor_plugin.Libraries.FireBreath.{Variants}
use trezor_plugin.Libraries.OpenSsl.{OpenSsl}
use trezor_plugin.Utils.Signature.{Heap}
use trezor_plugin.Config.{Configuration, path}
use trezor_plugin.Devices.Channel.{Endian, close_channel}
use trezor_plugin.Plugin.Executor.{Executor, Job, reset_channel, callbacks}
use trezor_plugin.Plugin.Executor.Handles.{Holds}
use trezor_plugin.Plugin.Worker.{Line}
use trezor_plugin.Plugin.Lifecycle.{destroy_executor, join, shutdown}
use trezor_plugin.Plugin.Lifecycle.Shutdown.{
  destroy_executor-closes, answers-destroy_executor, answered, GivenUp, AllGivenUp, and_the_rest,
  shutdown-AllGivenUp,
}
use trezor_plugin.World.{Thread, World, device, start, Reach}
use trezor_plugin.World.Threads.{sent_to, in_hand, Served}
use trezor_plugin.World.Reached.{Reach-Sound}
use trezor_plugin.World.Progress.{all_answered}

abbrev pub lines : {V : Type 0} → List (Thread V) → List (Line V)
lines ts = map (λ t. t.line) ts

-- What is left of a device's executor `x`: no handle is open, and of the jobs that were passed for
-- the device the first ones were answered, each once and in order. The others were dropped.
pub record Ended {V : Type 0} (sent : List ℕ) (x : Executor V) : Type 0 where
  pub closed : x.wire.handles ≡ 0
  pub dropped : List ℕ
  pub order : sent ≡ answered x ++ dropped

abbrev pub AllEnded : {V : Type 0} → List (Bytes × ℕ) → List (Thread V) → List (Executor V) → Type 0
AllEnded es [] [] = Unit
AllEnded es (t ∷ ts) (x ∷ xs) = Ended (sent_to (path (device t)) es) x × AllEnded es ts xs
AllEnded es _ _ = ⊥

-- What is left of a device's executor `x` that had no job waiting: no handle is open, and all jobs
-- that were passed for the device were answered, each once and in order.
pub record Finished {V : Type 0} (sent : List ℕ) (x : Executor V) : Type 0 where
  pub closed : x.wire.handles ≡ 0
  pub all : answered x ≡ sent

abbrev pub AllFinished :
    {V : Type 0} → List (Bytes × ℕ) → List (Thread V) → List (Executor V) → Type 0
AllFinished es [] [] = Unit
AllFinished es (t ∷ ts) (x ∷ xs) = Finished (sent_to (path (device t)) es) x × AllFinished es ts xs
AllFinished es _ _ = ⊥

-- No thread has ended, or waits for ever, in a job.
abbrev pub NoneStuck : {V : Type 0} → List (Thread V) → Type 0
NoneStuck = All (λ t. t.stuck ≡ none)

module _ {V : Type 0} where
  Served-Holds :
      (es : List (Bytes × ℕ)) (lk : Bool) (ts : List (Thread V))
      → All (Served es lk) ts
      → All (λ l. Holds l.executor) (lines ts)
  Served-Holds es lk [] s = tt
  Served-Holds es lk (t ∷ ts) (s, ss) = (s.holds, Served-Holds es lk ts ss)

  GivenUp-Ended :
      (es : List (Bytes × ℕ)) (lk : Bool) (t : Thread V) (x : Executor V)
      → Served es lk t
      → t.stuck ≡ none
      → GivenUp t.line.queue t.line.executor x
      → Ended (sent_to (path (device t)) es) x
  GivenUp-Ended es lk t x s free g = record {
    closed = g.closed;
    dropped = g.dropped;
    order =
        sym s.order
        ∙ ap (λ u. answered t.line.executor ++ (in_hand u ++ map callbacks t.line.queue)) free
        ∙ g.order;
  }

module _ (boost : Boost) (pb : Protobuf) (fb : Variants pb) (utf8 : Bytes → Bytes) (e : Endian)
    (depth : ℕ) (pool : pb.Pool) where
  AllGivenUp-AllEnded :
      (es : List (Bytes × ℕ)) (lk : Bool) (ts : List (Thread fb.Variant))
      (xs : List (Executor fb.Variant))
      → All (Served es lk) ts
      → NoneStuck ts
      → AllGivenUp boost pb fb utf8 e pool depth (lines ts) xs
      → AllEnded es ts xs
  AllGivenUp-AllEnded es lk [] [] s n g = tt
  AllGivenUp-AllEnded es lk [] (x ∷ xs) s n g = g
  AllGivenUp-AllEnded es lk (t ∷ ts) [] s n g = g
  AllGivenUp-AllEnded es lk (t ∷ ts) (x ∷ xs) (s, ss) (n, ns) (g, gs) =
      (GivenUp-Ended es lk t x s n g, AllGivenUp-AllEnded es lk ts xs ss ns gs)

  destroy_executor_free :
      (x : Executor fb.Variant) → x.wire.locked ≡ false → (destroy_executor x).0 ≡ ok tt
  unfolding destroy_executor reset_channel close_channel
  destroy_executor_free x free = ground arith

  join_idle :
      (queue : List (Job fb.Variant)) (x : Executor fb.Variant) (sent : List ℕ)
      → queue ≡ []
      → Holds x
      → x.wire.locked ≡ false
      → answered x ≡ sent
      → ((join boost pb fb utf8 e pool depth queue x).0 ≡ ok tt)
        × Finished sent (join boost pb fb utf8 e pool depth queue x).1
  unfolding join
  join_idle [] x sent idle holds free all = (
    destroy_executor_free x free,
    record {
      closed = destroy_executor-closes x holds (destroy_executor_free x free);
      all = ap (map (λ a. a.0)) (answers-destroy_executor x) ∙ all;
    },
  )
  join_idle (job ∷ rest) x sent idle holds free all = absurd cc

  and_the_rest_returns :
      (es : List (Bytes × ℕ)) (t : Thread fb.Variant) (ts : List (Thread fb.Variant))
      (j : Outcome (Unit {0}) × Executor fb.Variant)
      (next : Outcome (Unit {0}) × List (Executor fb.Variant))
      → j.0 ≡ ok tt
      → Finished (sent_to (path (device t)) es) j.1
      → next.0 ≡ ok tt
      → AllFinished es ts next.1
      → ((and_the_rest boost pb fb utf8 e pool depth j next).0 ≡ ok tt)
        × AllFinished es (t ∷ ts) (and_the_rest boost pb fb utf8 e pool depth j next).1
  and_the_rest_returns es t ts (ok tt, x) next a d b ds = (b, (d, ds))
  and_the_rest_returns es t ts (throw e, x) next a d b ds = absurd cc
  and_the_rest_returns es t ts (fault, x) next a d b ds = absurd cc
  and_the_rest_returns es t ts (blocked, x) next a d b ds = absurd cc
  and_the_rest_returns es t ts (out_of_fuel, x) next a d b ds = absurd cc

  idle_returns :
      (es : List (Bytes × ℕ)) (ts : List (Thread fb.Variant))
      → All (Served es false) ts
      → NoneStuck ts
      → All (λ t. t.line.queue ≡ []) ts
      → ((shutdown boost pb fb utf8 e pool depth (lines ts)).0 ≡ ok tt)
        × AllFinished es ts (shutdown boost pb fb utf8 e pool depth (lines ts)).1
  unfolding shutdown
  idle_returns es [] s f q = (refl, tt)
  idle_returns es (t ∷ ts) (s, ss) (f, fs) (q, qs) =
      let (returns, finished) =
        join_idle t.line.queue t.line.executor (sent_to (path (device t)) es) q s.holds s.locked
          (all_answered fb.Variant es false t s f (ap length q)) in
      let (rest_returns, rest) = idle_returns es ts ss fs qs in
      and_the_rest_returns es t ts (join boost pb fb utf8 e pool depth t.line.queue t.line.executor)
        (shutdown boost pb fb utf8 e pool depth (lines ts)) returns finished rest_returns rest

module _ (boost : Boost) (pb : Protobuf) (fb : Variants pb) (utf8 : Bytes → Bytes) (e : Endian)
    (depth : ℕ) (ssl : OpenSsl) (parse : Bytes → Configuration pb) where
  -- When the plugin is shut down, after whatever the page and the threads did, and no thread is
  -- stuck in a job, and shutdown returns, then no handle is open, and of the jobs that the page
  -- passed for a device the first ones were answered, each once and in the page's order.
  pub Reach-AllEnded :
      (pool : pb.Pool) (heap : Heap) {es : List (Bytes × ℕ)} {w : World pb fb.Variant}
      → Reach boost pb fb utf8 e depth ssl parse (start pb pool heap) es w
      → NoneStuck w.threads
      → (shutdown boost pb fb utf8 e w.setup.pool depth (lines w.threads)).0 ≡ ok tt
      → AllEnded es w.threads (shutdown boost pb fb utf8 e w.setup.pool depth (lines w.threads)).1
  Reach-AllEnded pool heap {es} {w} r free done =
      let s = Reach-Sound boost pb fb utf8 e depth ssl parse pool heap r in
      AllGivenUp-AllEnded boost pb fb utf8 e depth w.setup.pool es w.hidapi.locked w.threads _
        s.served free
        (shutdown-AllGivenUp boost pb fb utf8 e w.setup.pool depth (lines w.threads)
          (Served-Holds es w.hidapi.locked w.threads s.served) done)

  -- When no job waits, no thread is stuck in a job and hidapi's mutex is free, after whatever the
  -- page and the threads did, shutdown returns, no handle is open, and all jobs that the page passed
  -- for a device were answered, each once and in the page's order.
  pub Reach-shutdown_idle :
      (pool : pb.Pool) (heap : Heap) {es : List (Bytes × ℕ)} {w : World pb fb.Variant}
      → Reach boost pb fb utf8 e depth ssl parse (start pb pool heap) es w
      → w.hidapi.locked ≡ false
      → NoneStuck w.threads
      → All (λ t. t.line.queue ≡ []) w.threads
      → ((shutdown boost pb fb utf8 e w.setup.pool depth (lines w.threads)).0 ≡ ok tt)
        × AllFinished es w.threads
            (shutdown boost pb fb utf8 e w.setup.pool depth (lines w.threads)).1
  Reach-shutdown_idle pool heap {es} {w} r free going idle =
      let s = Reach-Sound boost pb fb utf8 e depth ssl parse pool heap r in
      idle_returns boost pb fb utf8 e depth w.setup.pool es w.threads (rw free at s.served) going
        idle
