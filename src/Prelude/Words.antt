-- ===== src/Prelude/Words.antt =====
-- Machine words as native numbers, with the wrap-around written out.
use Prim.Native.Nat.{ℕ, ◌+◌, ◌/◌, ◌%◌, ◌^◌}

abbrev pub u8_mod : ℕ
u8_mod = 2 ^ 8

abbrev pub u32_mod : ℕ
u32_mod = 2 ^ 32

abbrev pub u64_mod : ℕ
u64_mod = 2 ^ 64

-- `a + b` on `u64`; an `loff_t` is read as its bit pattern, and the kernel is built to wrap it.
abbrev pub add64 : ℕ → ℕ → ℕ
add64 a b = (a + b) % 2 ^ 64

-- `(u8)(x >> k)`, with `2 ^ k` given.
abbrev pub byte_at : ℕ → ℕ → ℕ
byte_at x p = x / p % 256
