-- ===== src/Bitset/Valid.antt =====
-- When a `bitset` is well formed, and how its bits lie in its blocks.
use native.Mathlib.Nat.{pow-le-pow_right}
use urss.Base.{
  ℕ, ◌+◌, ◌*◌, ◌/◌, ◌%◌, ◌^◌, ◌≤◌, ◌<◌, ◌≡◌, refl, arith, Bool, false, not, List, if◌then◌else◌,
  ◌==◌, length, get_or, set, get_or-set, Bool-cases, inl, inr,
}
use urss.Word.{word_mod, complement, shift_left, bit}
use urss.Word.Bits.{bit-power, bit-invert}
use urss.Bitset.{Bitset, blocks_for, bit_mask}

-- Bit `i` of an array of blocks.
abbrev pub bit_in : List ℕ → ℕ → Bool
bit_in xs i = bit (get_or xs (i / 64) 0) (i % 64)

-- Every block is a word, there are as many in use as the size needs, and the bits of the last block
-- that lie beyond the size are zero.
pub record IsValid (b : Bitset) : Type 0 where
  pub fits : b.size + 63 < word_mod
  pub blocks : b.bitssize ≡ blocks_for b.size
  pub room : b.bitssize ≤ length b.bits
  pub alloc : b.allocsize ≡ length b.bits * 8
  pub words : (i : ℕ) → get_or b.bits i 0 < word_mod
  pub unused : (i : ℕ) → b.size ≤ i → i < b.bitssize * 64 → bit_in b.bits i ≡ false

pub bit_index-lt : (i : ℕ) → i % 64 < 64
bit_index-lt i = omega arith

-- The block of a bit below the size is in use.
pub block_index-lt : {b : Bitset} (i : ℕ) → IsValid b → i < b.size → i / 64 < b.bitssize
block_index-lt i v h = omega (arith, v.blocks, v.fits)

pub power-lt : (k : ℕ) → k < 64 → 2 ^ k < word_mod
power-lt k h =
    let below : 2 ^ k ≤ 2 ^ 63 =
      pow-le-pow_right {n = 2} (omega arith) {i = k} {j = 63} (omega arith) in
    omega (arith, below)

pub bit_mask-eq : (i : ℕ) → bit_mask i ≡ 2 ^ (i % 64)
unfolding bit_mask shift_left
bit_mask-eq i = omega (arith, power-lt (i % 64) (bit_index-lt i))

pub bit-bit_mask : (i t : ℕ) → bit (bit_mask i) t ≡ (t == i % 64)
bit-bit_mask i t = rw bit_mask-eq (bit-power (i % 64) t)

pub bit_mask-lt : (i : ℕ) → bit_mask i < word_mod
bit_mask-lt i = rw bit_mask-eq (power-lt (i % 64) (bit_index-lt i))

pub bit-complement : (w t : ℕ) → w < word_mod → t < 64 → bit (complement w) t ≡ not (bit w t)
unfolding complement
bit-complement w t h k = bit-invert 64 w t h k

pub complement-lt : (w : ℕ) → complement w < word_mod
unfolding complement
complement-lt w = omega arith

-- A bit of the array after one block is written.
pub bit_in-set :
    (xs : List ℕ) (i w k : ℕ)
    → i < length xs
    → bit_in (set xs i w) k ≡ (if k / 64 == i then bit w (k % 64) else bit_in xs k)
bit_in-set xs i w k h = elim (Bool-cases (k / 64 == i)) [
  | inl e ↦ rw (get_or-set xs i (k / 64) w 0 h) (rw e refl)
  | inr e ↦ rw (get_or-set xs i (k / 64) w 0 h) (rw e refl)
]

-- All of `IsValid` but the zero bits beyond the size.
pub record IsShaped (b : Bitset) : Type 0 where
  pub fits : b.size + 63 < word_mod
  pub blocks : b.bitssize ≡ blocks_for b.size
  pub room : b.bitssize ≤ length b.bits
  pub alloc : b.allocsize ≡ length b.bits * 8
  pub words : (i : ℕ) → get_or b.bits i 0 < word_mod

pub shape : {b : Bitset} → IsValid b → IsShaped b
shape v = record {
  fits = v.fits;
  blocks = v.blocks;
  room = v.room;
  alloc = v.alloc;
  words = v.words;
}

pub valid :
    {b : Bitset}
    → IsShaped b
    → ((i : ℕ) → b.size ≤ i → i < b.bitssize * 64 → bit_in b.bits i ≡ false)
    → IsValid b
valid s unused = record {
  fits = s.fits;
  blocks = s.blocks;
  room = s.room;
  alloc = s.alloc;
  words = s.words;
  unused = unused;
}
