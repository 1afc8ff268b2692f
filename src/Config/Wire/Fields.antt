-- ===== src/Config/Wire/Fields.antt =====
-- Optional and repeated fields behind one another, and a whole message (config.pb.cc).
use trezor_plugin.Prelude.{
  ℕ, zero, suc, ◌+◌, ◌-◌, ◌*◌, ◌<◌, ◌≡◌, refl, ap, ◌∙◌, ◌++◌, append_assoc, append-nil, inl, Option,
  none, some, List, [], ◌∷◌, Bytes, length, length-append, arith, All,
}
use trezor_plugin.Libraries.Protobuf.{Protobuf}
use trezor_plugin.Libraries.Coded.{Coded, Decodes, total_limit}
use trezor_plugin.Config.Wire.{Ending, State, at, halted, finished, step, run, parse, if_set, each}
use trezor_plugin.Config.Wire.Machine.{
  Continues, Moves, run-add, Goes-trans, Goes-finished, Moves-none, Moves-then,
}

-- What reading a field that may be set, or the elements of a repeated one, makes of a message.
abbrev pub put_if : {A M : Type 0} → (A → M → M) → Option A → M → M
put_if put none m = m
put_if put (some a) m = put a m

abbrev pub put_each : {A M : Type 0} → (A → M → M) → List A → M → M
put_each put [] m = m
put_each put (a ∷ as') m = put_each put as' (put a m)

module _ {pb : Protobuf} (coded : Coded pb) (laws : Decodes coded) {L M : Type 0}
    (field_of : ℕ → Option L) (body : L → M → Bytes → State L M) where
  -- Bytes below the limit, with what follows them, are taken by the machine, which changes its
  -- message so.
  abbrev pub Takes : Bytes → (M → M) → Type 0
  Takes bytes f =
      (m : M) (s : Bytes) (x : State L M)
      → length (bytes ++ s) < total_limit
      → Continues coded laws field_of body m (bytes ++ s) x
      → Moves coded laws field_of body (2 * length bytes) x (f m) s

  pub Takes-if_set :
      {A : Type 0} (write : A → Bytes) (put : A → M → M) (o : Option A)
      → ((a : A) → o ≡ some a → Takes (write a) (put a))
      → Takes (if_set coded write o) (put_if put o)
  Takes-if_set write put none f m s x fits h = Moves-none coded laws field_of body m s x h
  Takes-if_set write put (some a) f m s x fits h = f a refl m s x fits h

  -- Two fields, one behind the other.
  pub Takes-both :
      (b b' : Bytes) (f f' : M → M) → Takes b f → Takes b' f' → Takes (b ++ b') (λ m. f' (f m))
  Takes-both b b' f f' t t' m s x fits h =
      let e = append_assoc b b' s in
      let lengths : length ((b ++ b') ++ s) ≡ length b + length (b' ++ s) =
        ap (λ (r : Bytes). length r) e ∙ length-append b (b' ++ s) in
      let whole = length-append b (b' ++ s) in
      let (y, (k, hk, g), c) =
        Moves-then coded laws field_of body _ _ (f m) (f' (f m)) (b' ++ s) s x
          (t m (b' ++ s) x (omega arith) (rw e at h)) (λ y. t' (f m) s y (omega arith)) in
      (y, (k, omega (arith, length-append b b'), g), c)

  pub Takes-each :
      {A : Type 0} (write : A → Bytes) (put : A → M → M) (as' : List A)
      → All (λ a. Takes (write a) (put a)) as'
      → Takes (each coded write as') (put_each put as')
  Takes-each write put [] f m s x fits h = Moves-none coded laws field_of body m s x h
  Takes-each write put (a ∷ as') (f, fs) m s x fits h =
      Takes-both (write a) (each coded write as') (put a) (put_each put as') f
        (Takes-each write put as' fs) m s x fits h

  run-halted :
      (n : ℕ) (e : Ending) (m : M) (s : Bytes)
      → run coded field_of body n (halted e m s) ≡ halted e m s
  unfolding run step
  run-halted zero e m s = refl
  run-halted (suc n) e m s = run-halted n e m s

  -- A whole message.
  pub parse-Takes :
      (bytes : Bytes) (f : M → M) (m : M)
      → field_of 0 ≡ none
      → length bytes < total_limit
      → Takes bytes f
      → parse coded field_of body m bytes ≡ halted finished (f m) []
  unfolding parse
  parse-Takes bytes f m no_field fits t =
      let e = append-nil bytes in
      let start : State L M = at none m bytes in
      let lengths = ap (λ (r : Bytes). length r) e in
      let (y, g, c) = t m [] start (omega arith) (rw e (inl refl)) in
      let (k, hk, done) =
        Goes-trans coded laws field_of body _ 1 start y (halted finished (f m) []) g
          (Goes-finished coded laws field_of body (f m) y no_field c) in
      let fuel = 2 * length bytes + 2 in
      let split : fuel ≡ k + (fuel - k) = omega arith in
      ap (λ n. run coded field_of body n start) split
      ∙ run-add coded laws field_of body k (fuel - k) start
      ∙ ap (run coded field_of body (fuel - k)) done
      ∙ run-halted (fuel - k) finished (f m) []
