-- ===== src/Config/Wire/Machine.antt =====
-- The machine of a parser on what the writers wrote (config.pb.cc).
use trezor_plugin.Prelude.{
  ℕ, zero, suc, ◌+◌, ◌*◌, ◌^◌, ◌≤◌, ◌<◌, ◌≡◌, refl, ap, sym, ◌∙◌, ◌++◌, append_assoc, ◌⊎◌, inl, inr,
  Bool, true, false, Option, if◌then◌else◌, none, some, [], Bytes, length, length-append, arith,
  if_false, ◌==◌, eq_false_of_ne, elim_some,
}
use mathlib.Core.Option.{some-injective}
use trezor_plugin.Libraries.Protobuf.{Protobuf}
use trezor_plugin.Libraries.Coded.{Coded, Decodes, total_limit, write_uint32, write_string}
use trezor_plugin.Config.Wire.{
  State, at, halted, finished, failed, expect, expect_either, expect_end, dispatch, step, run,
  read_number, read_text,
}

module _ {pb : Protobuf} (coded : Coded pb) (laws : Decodes coded) {L M : Type 0}
    (field_of : ℕ → Option L) (body : L → M → Bytes → State L M) where
  -- At most `n` steps lead from one state to the other.
  abbrev pub Goes : ℕ → State L M → State L M → Type 0
  Goes n x y = (k : ℕ) × (k ≤ n) × (run coded field_of body k x ≡ y)

  -- A parser with the message `m` and the bytes `s` to come: at the head of the loop, behind an
  -- expected tag, or, if nothing is to come, at its end.
  abbrev pub Continues : M → Bytes → State L M → Type 0
  Continues m s x =
      (x ≡ at none m s)
      ⊎ ((t : ℕ) × (l : L) × (s' : Bytes) × (coded.read_tag s ≡ (t, s'))
          × (field_of t ≡ some l)
          × (x ≡ at (some l) m s'))
      ⊎ ((s ≡ []) × (x ≡ halted finished m s))

  -- It comes to such a state, with another message and other bytes.
  abbrev pub Moves : ℕ → State L M → M → Bytes → Type 0
  Moves n x m s = (y : State L M) × Goes n x y × Continues m s y

  pub run-add :
      (j k : ℕ) (x : State L M)
      → run coded field_of body (j + k) x ≡ run coded field_of body k (run coded field_of body j x)
  unfolding run
  run-add zero k x = let e : 0 + k ≡ k = omega arith in ap (λ n. run coded field_of body n x) e
  run-add (suc j) k x =
      let e : suc j + k ≡ suc (j + k) = omega arith in
      ap (λ n. run coded field_of body n x) e ∙ run-add j k (step coded field_of body x)

  pub Goes-trans : (n n' : ℕ) (x y z : State L M) → Goes n x y → Goes n' y z → Goes (n + n') x z
  Goes-trans n n' x y z (j, hj, e) (k, hk, e') =
      (j + k, omega arith, run-add j k x ∙ ap (run coded field_of body k) e ∙ e')

  pub expect-Continues :
      (t : ℕ) (l : L) (m : M) (s : Bytes)
      → field_of t ≡ some l
      → Continues m s (expect coded t l m s)
  expect-Continues t l m s e = go (coded.expect_tag t s) refl
    where
      go :
          (o : Option Bytes)
          → coded.expect_tag t s ≡ o
          → Continues m s (elim o [ none ↦ at none m s | some s' ↦ at (some l) m s' ])
      go none h = inl refl
      go (some s') h = inr (inl (t, l, s', laws.expected t s s' h, e, refl))

  pub expect_either-Continues :
      (t : ℕ) (l : L) (t' : ℕ) (l' : L) (m : M) (s : Bytes)
      → field_of t ≡ some l
      → field_of t' ≡ some l'
      → Continues m s (expect_either coded t l t' l' m s)
  expect_either-Continues t l t' l' m s e e' = go (coded.expect_tag t s) refl
    where
      go :
          (o : Option Bytes)
          → coded.expect_tag t s ≡ o
          → Continues m s (elim o [ none ↦ expect coded t' l' m s | some s' ↦ at (some l) m s' ])
      go none h = expect-Continues t' l' m s e'
      go (some s') h = inr (inl (t, l, s', laws.expected t s s' h, e, refl))

  pub expect_end-Continues : (m : M) (s : Bytes) → Continues m s (expect_end coded m s)
  expect_end-Continues m s = go (coded.expect_at_end s) refl
    where
      go :
          (c : Bool)
          → coded.expect_at_end s ≡ c
          → Continues m s (if c then halted finished m s else at none m s)
      go true h = inr (inr (laws.at_end s h, refl))
      go false h = inl refl

  -- A tag of a known field is met, and nothing.
  Goes-tag :
      (t : ℕ) (l : L) (m : M) (s : Bytes) (x : State L M)
      → field_of t ≡ some l
      → 0 < t
      → t < 2 ^ 32
      → Continues m (coded.tag_bytes t ++ s) x
      → Goes 1 x (at (some l) m s)
  unfolding run step
  Goes-tag t l m s x e pos small (inl h) =
      let ne : (t == 0) ≡ false = eq_false_of_ne t 0 (λ z. omega arith) in
      (
        1,
        omega arith,
        ap (λ y. step coded field_of body y) h
            ∙ ap (λ r. dispatch coded field_of body r m) (laws.read_tag-tag_bytes t s pos small)
            ∙ if_false _ _ _ ne
            ∙ elim_some (field_of t) l _ _ e,
      )
  Goes-tag t l m s x e pos small (inr (inl (t', l', s', read, e', h))) =
      let same = sym read ∙ laws.read_tag-tag_bytes t s pos small in
      let tags : t' ≡ t = ap (λ (r : ℕ × Bytes). r.0) same in
      let rests : s' ≡ s = ap (λ (r : ℕ × Bytes). r.1) same in
      let labels : l' ≡ l = some-injective l' l (sym e' ∙ ap field_of tags ∙ e) in
      (0, omega arith, h ∙ ap (λ r. at (some l') m r) rests ∙ ap (λ r. at (some r) m s) labels)
  Goes-tag t l m s x e pos small (inr (inr (nil, h))) = absurd (
      omega (
        arith,
        ap (λ (r : Bytes). length r) nil,
        length-append (coded.tag_bytes t) s,
        laws.tag_long t,
      ))

  pub Goes-finished :
      (m : M) (x : State L M)
      → field_of 0 ≡ none
      → Continues m [] x
      → Goes 1 x (halted finished m [])
  unfolding run step
  Goes-finished m x no_field (inl h) = (
    1,
    omega arith,
    ap (λ y. step coded field_of body y) h
        ∙ ap (λ r. dispatch coded field_of body r m) laws.read_tag_end,
  )
  Goes-finished m x no_field (inr (inl (t, l, s', read, e, h))) =
      let tags : t ≡ 0 = ap (λ (r : ℕ × Bytes). r.0) (sym read ∙ laws.read_tag_end) in
      let clash : none ≡ some l = sym no_field ∙ ap field_of (sym tags) ∙ e in absurd cc
  Goes-finished m x no_field (inr (inr (nil, h))) = (0, omega arith, h)

  pub Moves-none : (m : M) (s : Bytes) (x : State L M) → Continues m s x → Moves 0 x m s
  unfolding run
  Moves-none m s x h = (x, (0, omega arith, refl), h)

  pub Moves-then :
      (n n' : ℕ) (m m' : M) (s s' : Bytes) (x : State L M)
      → Moves n x m s
      → ((y : State L M) → Continues m s y → Moves n' y m' s')
      → Moves (n + n') x m' s'
  Moves-then n n' m m' s s' x (y, g, c) f =
      let (z, g', c') = f y c in (z, Goes-trans n n' x y z g g', c')

  -- A label's code on the bytes behind the tag, from before the tag.
  pub Moves-label :
      (t : ℕ) (l : L) (b s : Bytes) (m m' : M) (x y : State L M)
      → field_of t ≡ some l
      → 0 < t
      → t < 2 ^ 32
      → body l m (b ++ s) ≡ y
      → Continues m' s y
      → Continues m ((coded.tag_bytes t ++ b) ++ s) x
      → Moves (2 * length (coded.tag_bytes t ++ b)) x m' s
  unfolding run step
  Moves-label t l b s m m' x y e pos small done c h =
      let h' = rw (append_assoc (coded.tag_bytes t) b s) at h in
      let (k, hk, g) =
        Goes-trans 1 1 x (at (some l) m (b ++ s)) y (Goes-tag t l m (b ++ s) x e pos small h')
          (1, omega arith, done) in
      (y, (k, omega (arith, length-append (coded.tag_bytes t) b, laws.tag_long t), g), c)

  pub Moves-number :
      (number v : ℕ) (l : L) (put : ℕ → M → M) (go : M → Bytes → State L M) (m : M) (s : Bytes)
      (x : State L M)
      → field_of (number * 8) ≡ some l
      → 0 < number
      → number < 16
      → body l ≡ read_number coded put go
      → ((m' : M) (s' : Bytes) → Continues m' s' (go m' s'))
      → v < 2 ^ 32
      → Continues m (write_uint32 coded number v ++ s) x
      → Moves (2 * length (write_uint32 coded number v)) x (put v m) s
  Moves-number number v l put go m s x e pos small is_body cont hv h =
      Moves-label (number * 8) l (coded.varint v) s m (put v m) x (go (put v m) s) e (omega arith)
        (omega arith)
        (ap (λ f. f m (coded.varint v ++ s)) is_body
          ∙ elim_some (coded.read_uint32 (coded.varint v ++ s)) (v, s) (halted failed m _)
              (λ r. go (put r.0 m) r.1) (laws.read_uint32-varint v s hv))
        (cont (put v m) s) h

  pub Moves-text :
      (number : ℕ) (b : Bytes) (l : L) (put : Bytes → M → M) (go : M → Bytes → State L M) (m : M)
      (s : Bytes) (x : State L M)
      → field_of (number * 8 + 2) ≡ some l
      → number < 16
      → body l ≡ read_text coded put go
      → ((m' : M) (s' : Bytes) → Continues m' s' (go m' s'))
      → length (write_string coded number b ++ s) < total_limit
      → Continues m (write_string coded number b ++ s) x
      → Moves (2 * length (write_string coded number b)) x (put b m) s
  Moves-text number b l put go m s x e small is_body cont fits h =
      Moves-label (number * 8 + 2) l (coded.delimited b) s m (put b m) x (go (put b m) s) e
        (omega arith) (omega arith)
        (ap (λ f. f m (coded.delimited b ++ s)) is_body
          ∙ ap
              (λ (r : Bool × Bytes × Bytes).
                if r.0 then go (put r.1 m) r.2 else halted failed (put r.1 m) r.2)
              (laws.read_string-delimited b s (
                omega (
                  arith,
                  ap (λ (r : Bytes). length r)
                      (append_assoc (coded.tag_bytes (number * 8 + 2)) (coded.delimited b) s),
                  length-append (coded.tag_bytes (number * 8 + 2)) (coded.delimited b ++ s),
                ))))
        (cont (put b m) s) h
