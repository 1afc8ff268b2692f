-- ===== src/Devices/Buffer/Array.antt =====
-- The array of HIDBuffer as a list of bytes: what its loops do to its contents.
use trezor_plugin.Prelude.{
  ℕ, zero, suc, ◌+◌, ◌-◌, ◌≤◌, ◌<◌, ◌≡◌, refl, ap, sym, ◌∙◌, none, some, [], ◌∷◌, ◌++◌,
  append_assoc, append-nil, Bytes, length, ltb, arith, Bool-cases, inl, inr,
}
use mathlib.Core.Option.{some-injective}
use trezor_plugin.Devices.State.{HidBuffer, buffer_size, update, store_byte}
use trezor_plugin.Devices.Buffer.{buffer_bytes, copy_out, shift, take_front}

-- The bytes that the buffer holds, oldest first.
abbrev pub contents : HidBuffer → Bytes
contents b = copy_out b.cells 0 b.buffer_length

pub length-copy_out : (f : ℕ → ℕ) (k n : ℕ) → length (copy_out f k n) ≡ n
unfolding copy_out
length-copy_out f k zero = refl
length-copy_out f k (suc n) = ap suc (length-copy_out f (k + 1) n)

copy_out-add :
    (f : ℕ → ℕ) (k m n : ℕ) → copy_out f k (m + n) ≡ copy_out f k m ++ copy_out f (k + m) n
unfolding copy_out
copy_out-add f k zero n = ground arith
copy_out-add f k (suc m) n =
    let e : suc m + n ≡ suc (m + n) = omega arith in
    let j : k + 1 + m ≡ k + suc m = omega arith in
    rw e (
      ap (λ t. f k ∷ t)
        (copy_out-add f (k + 1) m n ∙ ap (λ a. copy_out f (k + 1) m ++ copy_out f a n) j))

copy_out-update :
    (f : ℕ → ℕ) (p v k n : ℕ) → k + n ≤ p → copy_out (update f p v) k n ≡ copy_out f k n
unfolding copy_out
copy_out-update f p v k zero h = refl
copy_out-update f p v k (suc n) h = ground (arith, copy_out-update f p v (k + 1) n)

copy_out-update_below :
    (f : ℕ → ℕ) (p v k n : ℕ) → p < k → copy_out (update f p v) k n ≡ copy_out f k n
unfolding copy_out
copy_out-update_below f p v k zero h = refl
copy_out-update_below f p v k (suc n) h = ground (arith, copy_out-update_below f p v (k + 1) n)

contents-store_byte : (x : ℕ) (b : HidBuffer) → contents (store_byte x b) ≡ contents b ++ (x ∷ [])
unfolding copy_out
contents-store_byte x b =
    let n = b.buffer_length in
    copy_out-add _ 0 n 1
    ∙ rw (copy_out-update b.cells n x 0 n (omega arith))
        (ap (λ t. contents b ++ (t ∷ [])) (ground arith))

-- Writes behind what is copied do not change it.
shift_below :
    (wanted n i : ℕ) (cells : ℕ → ℕ) (p : ℕ) → p + wanted < i → shift wanted n i cells p ≡ cells p
unfolding shift
shift_below wanted zero i cells p h = refl
shift_below wanted (suc n) i cells p h =
    shift_below wanted n (i + 1) _ p (omega arith) ∙ ground arith

copy_out-shift :
    (wanted n i : ℕ) (cells : ℕ → ℕ)
    → wanted ≤ i
    → copy_out (shift wanted n i cells) (i - wanted) n ≡ copy_out cells i n
unfolding shift copy_out
copy_out-shift wanted zero i cells h = refl
copy_out-shift wanted (suc n) i cells h =
    let moved = update cells (i - wanted) (cells i) in
    let e : i - wanted + 1 ≡ i + 1 - wanted = omega arith in
    let first : shift wanted n (i + 1) moved (i - wanted) ≡ cells i =
      shift_below wanted n (i + 1) moved (i - wanted) (omega arith) ∙ ground arith in
    let others : copy_out (shift wanted n (i + 1) moved) (i + 1 - wanted) n
        ≡ copy_out cells (i + 1) n =
      copy_out-shift wanted n (i + 1) moved (omega arith)
      ∙ copy_out-update_below cells (i - wanted) (cells i) (i + 1) n (omega arith) in
    rw (e, first, others)

-- The append loop adds its bytes behind the contents, if it ends.
pub buffer_bytes-contents :
    (xs : Bytes) (b : HidBuffer) {b' : HidBuffer}
    → buffer_bytes xs b ≡ some b'
    → (contents b' ≡ contents b ++ xs)
      × (b'.buffer_length ≡ b.buffer_length + length xs)
      × (b'.seconds ≡ b.seconds)
unfolding buffer_bytes
buffer_bytes-contents [] b {b' = c} e =
    let same : b ≡ c = some-injective b c e in
    rw (← same) (sym (append-nil (contents b)), omega arith, refl)
buffer_bytes-contents (x ∷ xs) b {b' = c} e =
    let rest : buffer_bytes xs (store_byte x b) ≡ some c = ground arith in
    let (all, size, time) = buffer_bytes-contents xs (store_byte x b) rest in
    (
      all ∙ ap (λ t. t ++ xs) (contents-store_byte x b) ∙ append_assoc (contents b) (x ∷ []) xs,
      omega arith,
      time,
    )

-- It ends in the array's bounds, and faults beyond them.
pub buffer_bytes_fits :
    (xs : Bytes) (b : HidBuffer)
    → b.buffer_length + length xs ≤ buffer_size
    → (b' : HidBuffer) × (buffer_bytes xs b ≡ some b')
unfolding buffer_bytes
buffer_bytes_fits [] b h = (b, refl)
buffer_bytes_fits (x ∷ xs) b h =
    let (b', e) = buffer_bytes_fits xs (store_byte x b) (omega arith) in (b', ground (arith, e))

pub buffer_bytes_overflow :
    (xs : Bytes) (b : HidBuffer)
    → b.buffer_length ≤ buffer_size
    → buffer_size < b.buffer_length + length xs
    → buffer_bytes xs b ≡ none
unfolding buffer_bytes
buffer_bytes_overflow [] b h k = absurd (omega arith)
buffer_bytes_overflow (x ∷ xs) b h k = elim (Bool-cases (ltb b.buffer_length buffer_size)) [
  | inl more ↦ rw more (buffer_bytes_overflow xs (store_byte x b) (ground arith) (omega arith))
  | inr full ↦ rw full
]

-- `take_front` splits the contents: what it returns stood in front of what is left.
pub take_front-contents :
    (wanted : ℕ) (b : HidBuffer)
    → wanted ≤ b.buffer_length
    → (contents b ≡ (take_front wanted b).0 ++ contents (take_front wanted b).1)
      × (length (take_front wanted b).0 ≡ wanted)
unfolding take_front
take_front-contents wanted b h =
    let n = b.buffer_length in
    let left = n - wanted in
    let whole : wanted + left ≡ n = omega arith in
    let zero' : 0 ≡ wanted - wanted = omega arith in
    (
      ap (λ t. copy_out b.cells 0 t) (sym whole)
          ∙ copy_out-add b.cells 0 wanted left
          ∙ ap (λ t. copy_out b.cells 0 wanted ++ t)
              (ap (λ t. copy_out b.cells t left) (zero_plus wanted)
                ∙ sym (copy_out-shift wanted left wanted b.cells (omega arith))
                ∙ ap (λ t. copy_out (shift wanted left wanted b.cells) t left) (sym zero')),
      length-copy_out b.cells 0 wanted,
    )
  where
    zero_plus : (m : ℕ) → 0 + m ≡ m
    zero_plus m = omega arith

pub take_front-sizes :
    (wanted : ℕ) (b : HidBuffer)
    → ((take_front wanted b).1.buffer_length ≡ b.buffer_length - wanted)
      × ((take_front wanted b).1.seconds ≡ b.seconds)
unfolding take_front
take_front-sizes wanted b = (refl, refl)
