-- ===== src/Word.antt =====
-- 64-bit words: the operations of `uint64_t` that oink/src/bitset.hpp computes with, and the
-- compiler's `__builtin_ffsll` and `__builtin_clzll`.
pub mod Digits
pub mod Bits
pub mod Scan
use Prim.Native.Nat.{bit_xor}
use urss.Base.{ℕ, zero, suc, ◌-◌, ◌*◌, ◌/◌, ◌%◌, ◌^◌, Bool, ◌==◌, if◌then◌else◌}

-- the number of values of a `uint64_t`
abbrev pub word_mod : ℕ
word_mod = 2 ^ 64

-- ~x
unfoldable pub complement : ℕ → ℕ
complement x = word_mod - 1 - x

-- x << k
unfoldable pub shift_left : ℕ → ℕ → ℕ
shift_left x k = (x * 2 ^ k) % word_mod

-- Bit `i` of a word.
abbrev pub bit : ℕ → ℕ → Bool
bit w zero = w % 2 == 1
bit w (suc i) = bit (w / 2) i

-- The number of zero bits below the lowest one, in a word of the given width.
pub trailing_zeros : ℕ → ℕ → ℕ
trailing_zeros zero w = 0
trailing_zeros (suc n) w = if w % 2 == 1 then 0 else suc (trailing_zeros n (w / 2))

-- __builtin_ffsll: one more than the index of the lowest one, and 0 for 0
unfoldable pub ffsll : ℕ → ℕ
ffsll w = if w == 0 then 0 else suc (trailing_zeros 64 w)

-- The index of the highest one, in a word of the given width.
pub top_bit : ℕ → ℕ → ℕ
top_bit zero w = 0
top_bit (suc n) w = if w / 2 == 0 then 0 else suc (top_bit n (w / 2))

-- __builtin_clzll: the number of zero bits above the highest one
unfoldable pub clzll : ℕ → ℕ
clzll w = 63 - top_bit 64 w

unfoldable pub bsr : ℕ → ℕ
bsr x = bit_xor (clzll x) 63
