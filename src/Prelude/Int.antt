-- ===== src/Prelude/Int.antt =====
-- A C int: `negsuc n` is -(n + 1).
use Prim.Native.Nat.{ℕ, ◌-◌, ◌^◌, ◌%◌}

pub data ℤ : Type 0 where
  pos : ℕ → ℤ
  negsuc : ℕ → ℤ

-- The conversion of an int to size_t (64 bits), which a comparison with a size_t makes.
abbrev pub to_size : ℤ → ℕ
to_size (pos n) = n % 2 ^ 64
to_size (negsuc n) = (2 ^ 64 - (n % 2 ^ 64) - 1) % 2 ^ 64
