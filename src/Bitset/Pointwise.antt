-- ===== src/Bitset/Pointwise.antt =====
-- Operations on all bits: what each does to a bit, and that the result is well formed.
use Prim.Native.Nat.{bit_and}
use urss.Base.{
  ℕ, ◌-◌, ◌*◌, ◌/◌, ◌%◌, ◌^◌, ◌<◌, ◌≡◌, ◌∙◌, arith, ap, Bool, true, false, not, ◌&&◌, ◌==◌, ltb,
  length, get_or, get_or-set, length-set, Bool-cases, inl, inr,
}
use urss.Word.{word_mod, complement, shift_left, bit}
use urss.Word.Bits.{bit-ones, bit-zero, bit-bit_and, bit_and-lt}
use urss.Bitset.{
  Bitset, block, all_ones, zero_unused_bits, map_blocks, test, reset_all, set_all, flip_all,
  count_extra_bits,
}
use urss.Bitset.Blocks.{length-map_blocks, get_or-map_blocks}
use urss.Bitset.Valid.{
  IsValid, IsShaped, shape, valid, bit_in, bit_index-lt, bit-complement, complement-lt, bit_in-set,
  power-lt,
}
use urss.Bitset.Points.{test-eq}

-- The mask that keeps the bits below `extra`.
pub shift_left-power : (k : ℕ) → k < 64 → shift_left 1 k ≡ 2 ^ k
unfolding shift_left
shift_left-power k h = omega (arith, power-lt k h)

-- `zero_unused_bits` keeps the bits below the size, and clears the others.
pub bit_in-zero_unused_bits :
    {b : Bitset} (k : ℕ)
    → IsShaped b
    → k < b.bitssize * 64
    → bit_in (zero_unused_bits b).bits k ≡ (bit_in b.bits k && ltb k b.size)
unfolding zero_unused_bits
bit_in-zero_unused_bits {b} k s h = elim (Bool-cases (count_extra_bits b == 0)) [
  | inl whole ↦ rw whole (ground (arith, s.blocks, s.fits))
  | inr part ↦
      let w = block b (b.bitssize - 1) in
      let mask = shift_left 1 (b.size % 64) - 1 in
      let e : mask ≡ 2 ^ (b.size % 64) - 1 =
        ap (λ t. t - 1) (shift_left-power (b.size % 64) (bit_index-lt b.size)) in
      let inside : b.bitssize - 1 < length b.bits = ground (arith, s.room, s.blocks, s.fits) in
      rw part (
        ground (
          arith,
          bit_in-set b.bits (b.bitssize - 1) (bit_and w mask) k inside,
          bit-bit_and w mask (k % 64),
          ap (λ t. bit t (k % 64)) e,
          bit-ones (b.size % 64) (k % 64),
          s.blocks,
          s.fits,
        ))
]

size-zero_unused_bits : (b : Bitset) → (zero_unused_bits b).size ≡ b.size
unfolding zero_unused_bits
size-zero_unused_bits b = ground arith

bitssize-zero_unused_bits : (b : Bitset) → (zero_unused_bits b).bitssize ≡ b.bitssize
unfolding zero_unused_bits
bitssize-zero_unused_bits b = ground arith

zero_unused_bits-IsShaped : {b : Bitset} → IsShaped b → IsShaped (zero_unused_bits b)
unfolding zero_unused_bits
zero_unused_bits-IsShaped {b} s = elim (Bool-cases (count_extra_bits b == 0)) [
  | inl whole ↦ rw whole s
  | inr part ↦
      let last = b.bitssize - 1 in
      let w = block b last in
      let mask = shift_left 1 (b.size % 64) - 1 in
      let inside : last < length b.bits = ground (arith, s.room, s.blocks, s.fits) in
      rw part (record {
        fits = s.fits;
        blocks = s.blocks;
        room = rw length-set s.room;
        alloc = rw length-set s.alloc;
        words = λ i. ground (
          arith,
          get_or-set b.bits last i (bit_and w mask) 0 inside,
          s.words i,
          bit_and-lt 64 w mask (s.words last),
        );
      })
]

pub zero_unused_bits-IsValid : {b : Bitset} → IsShaped b → IsValid (zero_unused_bits b)
zero_unused_bits-IsValid {b} s = valid (zero_unused_bits-IsShaped s) (λ i p q.
    ground
      (arith, bit_in-zero_unused_bits i s, size-zero_unused_bits b, bitssize-zero_unused_bits b))

-- A bit of the size is in a block in use.
pub used : {b : Bitset} (k : ℕ) → IsShaped b → k < b.size → k < b.bitssize * 64
used k s h = omega (arith, s.blocks, s.fits)

-- One word operation on every block in use.
module _ (f : ℕ → ℕ) (F : Bool → Bool) (fits : (x : ℕ) → f x < word_mod)
    (law : (x t : ℕ) → x < word_mod → t < 64 → bit (f x) t ≡ F (bit x t)) where
  mapped : Bitset → Bitset
  mapped b = record b { bits = map_blocks b.bitssize f b.bits }

  mapped-IsShaped : {b : Bitset} → IsShaped b → IsShaped (mapped b)
  unfolding mapped
  mapped-IsShaped {b} s = record {
    fits = s.fits;
    blocks = s.blocks;
    room = rw length-map_blocks s.room;
    alloc = rw length-map_blocks s.alloc;
    words = λ i.
        ground
          (arith, get_or-map_blocks b.bitssize f b.bits i, s.room, fits (block b i), s.words i);
  }

  bit_in-mapped :
      {b : Bitset} (k : ℕ)
      → IsShaped b
      → k < b.bitssize * 64
      → bit_in (mapped b).bits k ≡ F (bit_in b.bits k)
  unfolding mapped
  bit_in-mapped {b} k s h =
      let e : get_or (map_blocks b.bitssize f b.bits) (k / 64) 0 ≡ f (block b (k / 64)) =
        ground (arith, get_or-map_blocks b.bitssize f b.bits (k / 64), s.room) in
      rw e (law (block b (k / 64)) (k % 64) (s.words (k / 64)) (bit_index-lt k))

  test-cleared :
      {b : Bitset} (k : ℕ)
      → IsShaped b
      → k < b.size
      → test (zero_unused_bits (mapped b)) k ≡ F (test b k)
  unfolding mapped
  test-cleared {b} k s h = ground (
    arith,
    test-eq (zero_unused_bits (mapped b)) k,
    test-eq b k,
    bit_in-zero_unused_bits k (mapped-IsShaped s),
    bit_in-mapped k s,
    used k s h,
  )

all_ones-bit : (t : ℕ) → t < 64 → bit all_ones t ≡ true
all_ones-bit t h = bit-ones 64 t ∙ ground arith

-- `set()` sets every bit.
pub test-set_all : (b : Bitset) (k : ℕ) → IsValid b → k < b.size → test (set_all b) k ≡ true
unfolding set_all mapped
test-set_all b k v h =
    test-cleared (λ _. all_ones) (λ _. true) (λ x. omega arith) (λ x t p q. all_ones-bit t q) k
      (shape v) h

pub set_all-IsValid : (b : Bitset) → IsValid b → IsValid (set_all b)
unfolding set_all mapped
set_all-IsValid b v = zero_unused_bits-IsValid (
    mapped-IsShaped (λ _. all_ones) (λ _. true) (λ x. omega arith) (λ x t p q. all_ones-bit t q)
      (shape v))

-- `flip()` flips every bit.
pub test-flip_all :
    (b : Bitset) (k : ℕ) → IsValid b → k < b.size → test (flip_all b) k ≡ not (test b k)
unfolding flip_all mapped
test-flip_all b k v h = test-cleared complement not complement-lt bit-complement k (shape v) h

pub flip_all-IsValid : (b : Bitset) → IsValid b → IsValid (flip_all b)
unfolding flip_all mapped
flip_all-IsValid b v =
    zero_unused_bits-IsValid (mapped-IsShaped complement not complement-lt bit-complement (shape v))

-- `reset()` clears every bit.
pub test-reset_all : (b : Bitset) (k : ℕ) → IsValid b → k < b.size → test (reset_all b) k ≡ false
unfolding reset_all mapped
test-reset_all b k v h =
    test-eq (reset_all b) k
    ∙ bit_in-mapped (λ _. 0) (λ _. false) (λ x. omega arith) (λ x t p q. bit-zero t) k (shape v)
        (used k (shape v) h)

pub reset_all-IsValid : (b : Bitset) → IsValid b → IsValid (reset_all b)
unfolding reset_all mapped
reset_all-IsValid b v =
    let fits = λ (x : ℕ). let p : 0 < word_mod = omega arith in p in
    valid (mapped-IsShaped (λ _. 0) (λ _. false) fits (λ x t p q. bit-zero t) (shape v))
      (λ i p q. bit_in-mapped (λ _. 0) (λ _. false) fits (λ x t p q. bit-zero t) i (shape v) q)
