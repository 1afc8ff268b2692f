-- ===== src/World/Progress.antt =====
-- A thread that goes its rounds (plugin.cpp) comes to the end of its jobs.
use trezor_plugin.Prelude.{
  ℕ, zero, suc, ◌-◌, ◌≡◌, ◌⊎◌, Bool, refl, ap, sym, ◌∙◌, ◌++◌, append-nil, none, some, List, [],
  ◌∷◌, Bytes, map, length, get_elem?, Option-cases, inl, inr, All-get_elem?, arith,
}
use mathlib.Core.Option.{some-injective}
use trezor_plugin.Libraries.Boost.{Boost}
use trezor_plugin.Libraries.Protobuf.{Protobuf}
use trezor_plugin.Libraries.FireBreath.{Variants}
use trezor_plugin.Libraries.OpenSsl.{OpenSsl}
use trezor_plugin.Utils.Signature.{Heap}
use trezor_plugin.Config.{Configuration, path}
use trezor_plugin.Devices.Channel.{Endian}
use trezor_plugin.Plugin.Communicators.{take_job}
use trezor_plugin.Plugin.Executor.{Job, callbacks}
use trezor_plugin.Plugin.Lifecycle.Shutdown.{answered}
use trezor_plugin.Plugin.Worker.{Line, consume}
use trezor_plugin.World.{
  Thread, World, device, turn_with, turn, turn_at, start, thread_turn, Reach, turned,
}
use trezor_plugin.World.Threads.{sent_to, in_hand, Served}
use trezor_plugin.World.Reached.{Reach-Sound}

module _ (boost : Boost) (pb : Protobuf) (fb : Variants pb) (utf8 : Bytes → Bytes) (e : Endian)
    (depth : ℕ) (pool : pb.Pool) where
  abbrev turn_of : Thread fb.Variant → Thread fb.Variant
  turn_of t = turn boost pb fb utf8 e depth pool t

  unfoldable pub turns : ℕ → Thread fb.Variant → Thread fb.Variant
  turns zero t = t
  turns (suc n) t = turns n (turn_of t)

  turn-stuck : (t : Thread fb.Variant) (c : ℕ) → t.stuck ≡ some c → turn_of t ≡ t
  unfolding turn
  turn-stuck t c s = rw s refl

  turns-stuck :
      (n : ℕ) (t : Thread fb.Variant) (c : ℕ) → t.stuck ≡ some c → (turns n t).stuck ≡ some c
  unfolding turns
  turns-stuck zero t c s = s
  turns-stuck (suc n) t c s = ap (λ u. (turns n u).stuck) (turn-stuck t c s) ∙ turns-stuck n t c s

  queue-turn_with :
      (l : Line fb.Variant) (queue : List (Job fb.Variant))
      → l.queue ≡ queue
      → length (turn_with boost pb fb utf8 e depth pool l queue).line.queue ≡ length queue - 1
  unfolding consume take_job
  queue-turn_with l [] same = rw same refl
  queue-turn_with l (job ∷ rest) same = rw same (omega arith)

  queue-turn :
      (t : Thread fb.Variant)
      → t.stuck ≡ none
      → length (turn_of t).line.queue ≡ length t.line.queue - 1
  unfolding turn
  queue-turn t free = rw free (queue-turn_with t.line t.line.queue refl)

  -- Each round takes a job.
  queue-turns :
      (n : ℕ) (t : Thread fb.Variant)
      → (turns n t).stuck ≡ none
      → length (turns n t).line.queue ≡ length t.line.queue - n
  unfolding turns
  queue-turns zero t free = omega arith
  queue-turns (suc n) t free = elim (Option-cases t.stuck) [
    | inl going ↦
        let one = queue-turn t going in
        let more = queue-turns n (turn_of t) free in omega (arith, one, more)
    | inr (c, s) ↦ let held : some c ≡ none = sym (turns-stuck (suc n) t c s) ∙ free in absurd cc
  ]

  get_elem?-turn_at :
      (i : ℕ) (ts : List (Thread fb.Variant)) (t : Thread fb.Variant)
      → get_elem? ts i ≡ some t
      → get_elem? (turn_at boost pb fb utf8 e depth pool i ts) i ≡ some (turn_of t)
  unfolding turn_at
  get_elem?-turn_at i [] t h = cc
  get_elem?-turn_at zero (u ∷ ts) t h = ap (λ v. some (turn_of v)) (some-injective u t h)
  get_elem?-turn_at (suc i) (u ∷ ts) t h = get_elem?-turn_at i ts t h

-- A thread that serves `es`, with nothing in hand and nothing waiting, has answered all of them.
pub all_answered :
    (V : Type 0) (es : List (Bytes × ℕ)) (lk : Bool) (t : Thread V)
    → Served es lk t
    → t.stuck ≡ none
    → length t.line.queue ≡ 0
    → answered t.line.executor ≡ sent_to (path (device t)) es
all_answered V es lk t s free idle =
    sym (append-nil (answered t.line.executor))
    ∙ ap (λ w. answered t.line.executor ++ w)
        (sym
          (ap (λ u. in_hand u ++ map callbacks t.line.queue) free ∙ no_callbacks t.line.queue idle))
    ∙ s.order
  where
    no_callbacks : (queue : List (Job V)) → length queue ≡ 0 → map callbacks queue ≡ []
    no_callbacks [] h = refl
    no_callbacks (job ∷ queue) h = absurd (omega arith)

module _ (boost : Boost) (pb : Protobuf) (fb : Variants pb) (utf8 : Bytes → Bytes) (e : Endian)
    (depth : ℕ) (ssl : OpenSsl) (parse : Bytes → Configuration pb) where
  -- The thread of the communicator at place `i` goes `n` rounds.
  unfoldable pub thread_turns : ℕ → ℕ → World pb fb.Variant → World pb fb.Variant
  thread_turns i zero w = w
  thread_turns i (suc n) w = thread_turns i n (thread_turn boost pb fb utf8 e depth ssl parse i w)

  Reach-thread_turns :
      (w0 : World pb fb.Variant) (i n : ℕ) (es : List (Bytes × ℕ)) (w : World pb fb.Variant)
      → Reach boost pb fb utf8 e depth ssl parse w0 es w
      → Reach boost pb fb utf8 e depth ssl parse w0 es (thread_turns i n w)
  unfolding thread_turns
  Reach-thread_turns w0 i zero es w r = r
  Reach-thread_turns w0 i (suc n) es w r = Reach-thread_turns w0 i n es _ (turned r i)

  get_elem?-thread_turns :
      (i n : ℕ) (w : World pb fb.Variant) (t : Thread fb.Variant)
      → get_elem? w.threads i ≡ some t
      → get_elem? (thread_turns i n w).threads i
        ≡ some (turns boost pb fb utf8 e depth w.setup.pool n t)
  unfolding thread_turns thread_turn turns
  get_elem?-thread_turns i zero w t h = h
  get_elem?-thread_turns i (suc n) w t h =
      get_elem?-thread_turns i n (thread_turn boost pb fb utf8 e depth ssl parse i w)
        (turn boost pb fb utf8 e depth w.setup.pool t)
        (get_elem?-turn_at boost pb fb utf8 e depth w.setup.pool i w.threads t h)

  -- A thread that goes as many rounds as it has jobs waiting, after whatever the page and the
  -- threads did, has then ended or waits for ever in one of its jobs, or has answered every job that
  -- the page passed for its device, each once and in the page's order.
  pub Reach-answers :
      (pool : pb.Pool) (heap : Heap) {es : List (Bytes × ℕ)} {w : World pb fb.Variant}
      → Reach boost pb fb utf8 e depth ssl parse (start pb pool heap) es w
      → (i : ℕ) (t : Thread fb.Variant) → get_elem? w.threads i ≡ some t
      → (t' : Thread fb.Variant) × (get_elem? (thread_turns i (length t.line.queue) w).threads i
          ≡ some t')
        × (((c : ℕ) × (t'.stuck ≡ some c))
            ⊎ (answered t'.line.executor ≡ sent_to (path (device t')) es))
  Reach-answers pool heap {es} {w} r i t is_t =
      let n = length t.line.queue in
      let t' = turns boost pb fb utf8 e depth w.setup.pool n t in
      let at_i = get_elem?-thread_turns i n w t is_t in
      let w' = thread_turns i n w in
      let s =
        Reach-Sound boost pb fb utf8 e depth ssl parse pool heap
          (Reach-thread_turns _ i n es w r) in
      (
        t',
        at_i,
        elim (Option-cases t'.stuck) [
          | inl free ↦
              let drained = queue-turns boost pb fb utf8 e depth w.setup.pool n t free in
              inr (
                all_answered fb.Variant es w'.hidapi.locked t'
                  (All-get_elem? _ w'.threads i t' s.served at_i) free (drained ∙ omega arith))
          | inr (c, held) ↦ inl (c, held)
        ],
      )
