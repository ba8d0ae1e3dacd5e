-- ===== src/Common/Words.antt =====
-- 32-bit arithmetic (`u32`, `uptr`, `size_t` on i386), and the alignment macros of
-- include kernel/kernel.h for an alignment that is a power of two.
use Prim.Native.Nat.{ℕ, ◌+◌, ◌-◌, ◌%◌, ◌^◌}

abbrev pub add32 : ℕ → ℕ → ℕ
add32 a b = (a + b) % 2 ^ 32

-- `-` on ℕ stops at 0, so the modulus is added first.
abbrev pub sub32 : ℕ → ℕ → ℕ
sub32 a b = (a + 2 ^ 32 - b) % 2 ^ 32

abbrev pub page_size : ℕ
page_size = 4096

-- `x & ~(a - 1)` clears the low bits of `x`.
abbrev pub align_down : ℕ → ℕ → ℕ
align_down x a = x - x % a

-- `(x + a - 1) & ~(a - 1)` in 32 bits.
abbrev pub align_up : ℕ → ℕ → ℕ
align_up x a = align_down (add32 x (a - 1)) a
