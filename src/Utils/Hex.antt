-- ===== src/Utils/Hex.antt =====
-- hex_encode of numbers (utils.h): what an ostringstream in std::hex prints.
use trezor_plugin.Prelude.{
  ℕ, zero, suc, ◌+◌, ◌-◌, ◌*◌, ◌/◌, ◌%◌, ◌^◌, ◌≤◌, ◌<◌, ◌≡◌, refl, ap, ◌∙◌, ◌++◌, ◌⊎◌, [], ◌∷◌,
  Bytes, ltb, if◌then◌else◌, ltb→lt, Bool-cases, inl, inr, All, All-append, arith,
}

-- '0' to '9' and 'a' to 'f'
unfoldable pub hex_digit : ℕ → ℕ
hex_digit d = if ltb d 10 then 48 + d else 87 + d

-- The digits of a number that has at most `k`, without leading zeros.
unfoldable pub hex_digits : (k : ℕ) → ℕ → Bytes
unfolding hex_digit
hex_digits zero n = []
hex_digits (suc k) n =
    let more = hex_digits k (n / 16) in (if ltb n 16 then [] else more) ++ (hex_digit (n % 16) ∷ [])

-- hex_encode of a uint32_t, which is what the plugin encodes.
unfoldable pub hex_encode_u32 : ℕ → Bytes
unfolding hex_digits
hex_encode_u32 n = hex_digits 8 n

-- The number that a text of hexadecimal digits reads as, after those read before.
unfoldable pub read_digit : ℕ → ℕ
read_digit c = if ltb c 58 then c - 48 else c - 87

unfoldable pub read_hex : (before : ℕ) → Bytes → ℕ
unfolding read_digit
read_hex before [] = before
read_hex before (c ∷ cs) = read_hex (before * 16 + read_digit c) cs

read_digit-hex_digit : (d : ℕ) → d < 16 → read_digit (hex_digit d) ≡ d
unfolding read_digit hex_digit
read_digit-hex_digit d h = ground arith

read_hex-append : (a : ℕ) (s t : Bytes) → read_hex a (s ++ t) ≡ read_hex (read_hex a s) t
unfolding read_hex
read_hex-append a [] t = refl
read_hex-append a (c ∷ s) t = read_hex-append (a * 16 + read_digit c) s t

-- A digit after the digits of the rest.
read_hex-snoc :
    (digits : Bytes) (n d : ℕ)
    → d < 16
    → read_hex 0 digits ≡ n
    → read_hex 0 (digits ++ (hex_digit d ∷ [])) ≡ n * 16 + d
unfolding read_hex
read_hex-snoc digits n d small e =
    read_hex-append 0 digits (hex_digit d ∷ [])
    ∙ ap (λ t. t * 16 + read_digit (hex_digit d)) e
    ∙ ap (λ t. n * 16 + t) (read_digit-hex_digit d small)

read_hex-hex_digits : (k n : ℕ) → n < 16 ^ k → read_hex 0 (hex_digits k n) ≡ n
unfolding hex_digits read_hex
read_hex-hex_digits zero n h = omega arith
read_hex-hex_digits (suc k) n h =
    let more = read_hex-hex_digits k (n / 16) (omega arith) in
    elim (Bool-cases (ltb n 16)) [
      | inl e ↦ rw e (read_hex-snoc [] 0 (n % 16) (omega arith) refl ∙ omega (arith, ltb→lt n 16 e))
      | inr e ↦
          rw e (
            read_hex-snoc (hex_digits k (n / 16)) (n / 16) (n % 16) (omega arith) more
            ∙ omega arith)
    ]

-- '0' to '9' and 'a' to 'f'
abbrev pub IsHexDigit : ℕ → Type 0
IsHexDigit c = ((48 ≤ c) × (c ≤ 57)) ⊎ ((97 ≤ c) × (c ≤ 102))

hex_digit-IsHexDigit : (d : ℕ) → d < 16 → IsHexDigit (hex_digit d)
unfolding hex_digit
hex_digit-IsHexDigit d h = ground arith

hex_digits-All : (k n : ℕ) → All IsHexDigit (hex_digits k n)
unfolding hex_digits
hex_digits-All zero n = tt
hex_digits-All (suc k) n =
    let digit : All IsHexDigit (hex_digit (n % 16) ∷ []) =
      (hex_digit-IsHexDigit (n % 16) (omega arith), tt) in
    elim (Bool-cases (ltb n 16)) [
      | inl e ↦ rw e digit
      | inr e ↦
          rw e (All-append IsHexDigit (hex_digits k (n / 16)) _ (hex_digits-All k (n / 16)) digit)
    ]

-- hex_encode of a number of 32 bits is made of the digits 0 to 9 and a to f, and reads back as the
-- number.
pub hex_encode_u32-reads :
    (n : ℕ) → n < 2 ^ 32 → All IsHexDigit (hex_encode_u32 n) × (read_hex 0 (hex_encode_u32 n) ≡ n)
unfolding hex_encode_u32
hex_encode_u32-reads n h = (hex_digits-All 8 n, read_hex-hex_digits 8 n h)
