-- ===== src/Bitset/Points.antt =====
-- Operations on one bit: `test`, `set`, `reset` and the operators of `reference`.
use Prim.Native.Nat.{bit_and, bit_or, bit_xor}
use urss.Base.{
  ℕ, ◌*◌, ◌/◌, ◌%◌, ◌≤◌, ◌<◌, ◌≡◌, ◌≢◌, ◌∙◌, sym, arith, ap, true, false, not, ◌&&◌, ◌||◌, xor,
  if◌then◌else◌, ◌==◌, length, get_or, set, get_or-set, length-set, Bool-cases, inl, inr,
}
use urss.Word.{word_mod, complement, bit}
use urss.Word.Bits.{
  bit-bit_and, bit-bit_or, bit-bit_xor, bit_and-lt, bit_or-lt, bit_xor-lt, zero_of_bits,
  ne_zero_of_bit,
}
use urss.Bitset.{Bitset, block, bit_mask, test, set_bit, reset_bit, flip_bit}
use urss.Bitset.Valid.{
  IsValid, bit_in, bit_index-lt, block_index-lt, bit-bit_mask, bit_mask-lt, bit-complement,
  bit_in-set,
}

-- A word and a mask have a common bit exactly when the word has the bit of the mask.
bit_and-mask : (w i : ℕ) → (bit_and w (bit_mask i) == 0) ≡ not (bit w (i % 64))
bit_and-mask w i = elim (Bool-cases (bit w (i % 64))) [
  | inl here ↦
      let both : bit (bit_and w (bit_mask i)) (i % 64) ≡ true =
        ground (arith, bit-bit_and w (bit_mask i) (i % 64), bit-bit_mask i (i % 64)) in
      ground (arith, ne_zero_of_bit (bit_and w (bit_mask i)) (i % 64) both)
  | inr clear ↦
      let none : bit_and w (bit_mask i) ≡ 0 =
        zero_of_bits (bit_and w (bit_mask i))
          (λ k. ground (arith, bit-bit_and w (bit_mask i) k, bit-bit_mask i k)) in
      ground arith
]

-- `test` reads the bit of the array.
pub test-eq : (b : Bitset) (i : ℕ) → test b i ≡ bit_in b.bits i
unfolding test
test-eq b i = ground (arith, bit_and-mask (block b (i / 64)) i)

-- One block changes, to a word.
module _ (b : Bitset) (i w : ℕ) where
  update : Bitset
  update = record b { bits = set b.bits (i / 64) w }

  update-IsValid :
      IsValid b
      → i < b.size
      → w < word_mod
      → ((t : ℕ) → t < 64 → t ≢ i % 64 → bit w t ≡ bit (block b (i / 64)) t)
      → IsValid update
  unfolding update
  update-IsValid v h fits same = record {
    fits = v.fits;
    blocks = v.blocks;
    room = rw length-set v.room;
    alloc = rw length-set v.alloc;
    words = λ k. rw (get_or-set b.bits (i / 64) k w 0 inside) (words_of k);
    unused = λ k p q. rw (bit_in-set b.bits (i / 64) w k inside) (unused_of k p q);
  }
    where
      inside : i / 64 < length b.bits
      inside = omega (arith, block_index-lt i v h, v.room)

      words_of : (k : ℕ) → (if k == i / 64 then w else get_or b.bits k 0) < word_mod
      words_of k = elim (Bool-cases (k == i / 64)) [ inl e ↦ rw e fits | inr e ↦ rw e (v.words k) ]

      unused_of :
          (k : ℕ)
          → b.size ≤ k
          → k < b.bitssize * 64
          → (if k / 64 == i / 64 then bit w (k % 64) else bit_in b.bits k) ≡ false
      unused_of k p q = elim (Bool-cases (k / 64 == i / 64)) [
        | inl e ↦
            let here : k / 64 ≡ i / 64 = ground arith in
            rw e (
              same (k % 64) (bit_index-lt k) (omega arith)
              ∙ ap (λ t. bit (get_or b.bits t 0) (k % 64)) (sym here)
              ∙ v.unused k p q)
        | inr e ↦ rw e (v.unused k p q)
      ]

-- Setting a bit sets it, and leaves the others.
pub test-set_bit :
    (b : Bitset) (i j : ℕ) → IsValid b → i < b.size → test (set_bit b i) j ≡ (j == i || test b j)
unfolding set_bit
test-set_bit b i j v h = ground (
  arith,
  test-eq (set_bit b i) j,
  test-eq b j,
  block_index-lt i v h,
  bit_in-set b.bits (i / 64) (bit_or (block b (i / 64)) (bit_mask i)) j,
  bit-bit_or (block b (i / 64)) (bit_mask i) (j % 64),
  bit-bit_mask i (j % 64),
)

pub test-reset_bit :
    (b : Bitset) (i j : ℕ)
    → IsValid b
    → i < b.size
    → test (reset_bit b i) j ≡ (not (j == i) && test b j)
unfolding reset_bit
test-reset_bit b i j v h = ground (
  arith,
  test-eq (reset_bit b i) j,
  test-eq b j,
  block_index-lt i v h,
  bit_in-set b.bits (i / 64) (bit_and (block b (i / 64)) (complement (bit_mask i))) j,
  bit-bit_and (block b (i / 64)) (complement (bit_mask i)) (j % 64),
  bit-complement (bit_mask i) (j % 64) (bit_mask-lt i) (bit_index-lt j),
  bit-bit_mask i (j % 64),
)

pub test-flip_bit :
    (b : Bitset) (i j : ℕ)
    → IsValid b
    → i < b.size
    → test (flip_bit b i) j ≡ xor (j == i) (test b j)
unfolding flip_bit xor
test-flip_bit b i j v h = ground (
  arith,
  test-eq (flip_bit b i) j,
  test-eq b j,
  block_index-lt i v h,
  bit_in-set b.bits (i / 64) (bit_xor (block b (i / 64)) (bit_mask i)) j,
  bit-bit_xor (block b (i / 64)) (bit_mask i) (j % 64),
  bit-bit_mask i (j % 64),
)

pub set_bit-IsValid : (b : Bitset) (i : ℕ) → IsValid b → i < b.size → IsValid (set_bit b i)
unfolding set_bit update
set_bit-IsValid b i v h =
    update-IsValid b i (bit_or (block b (i / 64)) (bit_mask i)) v h
      (bit_or-lt 64 (block b (i / 64)) (bit_mask i) (v.words (i / 64)) (bit_mask-lt i))
      (λ t k other. ground (arith, bit-bit_or (block b (i / 64)) (bit_mask i) t, bit-bit_mask i t))

pub reset_bit-IsValid : (b : Bitset) (i : ℕ) → IsValid b → i < b.size → IsValid (reset_bit b i)
unfolding reset_bit update
reset_bit-IsValid b i v h =
    update-IsValid b i (bit_and (block b (i / 64)) (complement (bit_mask i))) v h
      (bit_and-lt 64 (block b (i / 64)) (complement (bit_mask i)) (v.words (i / 64)))
      (λ t k other. ground (
        arith,
        bit-bit_and (block b (i / 64)) (complement (bit_mask i)) t,
        bit-complement (bit_mask i) t (bit_mask-lt i) k,
        bit-bit_mask i t,
      ))

pub flip_bit-IsValid : (b : Bitset) (i : ℕ) → IsValid b → i < b.size → IsValid (flip_bit b i)
unfolding flip_bit update xor
flip_bit-IsValid b i v h =
    update-IsValid b i (bit_xor (block b (i / 64)) (bit_mask i)) v h
      (bit_xor-lt 64 (block b (i / 64)) (bit_mask i) (v.words (i / 64)) (bit_mask-lt i))
      (λ t k other. ground (arith, bit-bit_xor (block b (i / 64)) (bit_mask i) t, bit-bit_mask i t))
