-- ===== src/Bitset/Whole.antt =====
-- Questions about a whole bitset: `any`, `all`, `==` and `intersects`.
use Prim.Native.Nat.{bit_and}
use urss.Base.{
  ℕ, ◌+◌, ◌-◌, ◌*◌, ◌/◌, ◌%◌, ◌^◌, ◌≤◌, ◌<◌, ◌≡◌, ◌↔◌, ◌∙◌, sym, arith, ap, ap₂, true, false, not,
  ◌&&◌, List, ◌==◌, ==_iff, ltb, get_or, Bool-cases, inl, inr,
}
use urss.Word.{word_mod, shift_left, bit}
use urss.Word.Bits.{bit-ones, bit-zero, bit-bit_and, bit_above, bit_ext, zero_of_bits}
use urss.Bitset.{Bitset, block, all_ones, test, count_extra_bits, any, all, equals, intersects}
use urss.Bitset.Blocks.{every_block-true, every_block_of_all, every_pair-true, every_pair_of_all}
use urss.Bitset.Valid.{IsValid, bit_in, bit_index-lt, block_index-lt, power-lt}
use urss.Bitset.Points.{test-eq}
use urss.Bitset.Pointwise.{shift_left-power}

-- Bit `t` of block `i` is bit `i * 64 + t`.
bit_in-block : (xs : List ℕ) (i t : ℕ) → t < 64 → bit_in xs (i * 64 + t) ≡ bit (get_or xs i 0) t
bit_in-block xs i t h =
    let p : (i * 64 + t) / 64 ≡ i = omega arith in
    let q : (i * 64 + t) % 64 ≡ t = omega arith in ap₂ (λ a b. bit (get_or xs a 0) b) p q

-- A block in use with a property of its bits: a bit of it is below the size or zero.
block_of_bits :
    {b : Bitset} (i w : ℕ)
    → IsValid b
    → i < b.bitssize
    → w < word_mod
    → ((t : ℕ) → t < 64 → i * 64 + t < b.size → test b (i * 64 + t) ≡ bit w t)
    → ((t : ℕ) → t < 64 → b.size ≤ i * 64 + t → bit w t ≡ false)
    → block b i ≡ w
block_of_bits {b} i w v h fits inside outside = bit_ext 64 (block b i) w (v.words i) fits λ t k.
    ground (
      arith,
      bit_in-block b.bits i t k,
      test-eq b (i * 64 + t),
      inside t k,
      outside t k,
      v.unused (i * 64 + t),
    )

-- `any()` is false exactly when every bit is clear.
pub any_iff : (b : Bitset) → IsValid b → (any b ≡ false) ↔ ((i : ℕ) → i < b.size → test b i ≡ false)
unfolding any
any_iff b v = (
  λ e i h.
      let clear : block b (i / 64) ≡ 0 = (==_iff _ _).0 (
        every_block-true b.bitssize (λ w. w == 0) b.bits (ground arith) (i / 64)
          (block_index-lt i v h)) in
      test-eq b i ∙ ap (λ w. bit w (i % 64)) clear ∙ bit-zero (i % 64),
  λ all_clear. ap not (
      every_block_of_all b.bitssize (λ w. w == 0) b.bits
        λ i h. (==_iff _ _).1 (
          block_of_bits i 0 v h (omega arith) (λ t k p. all_clear (i * 64 + t) p ∙ sym (bit-zero t))
            (λ t k p. bit-zero t))),
)

full_block : (b : Bitset) (i : ℕ) → block b (i / 64) ≡ all_ones → bit_in b.bits i ≡ true
full_block b i e = ap (λ w. bit w (i % 64)) e ∙ bit-ones 64 (i % 64) ∙ ground arith

-- The word that `all` expects in the last block, when the last block is not full.
last_mask : (b : Bitset) → shift_left 1 (b.size % 64) - 1 ≡ 2 ^ (b.size % 64) - 1
last_mask b = ap (λ t. t - 1) (shift_left-power (b.size % 64) (bit_index-lt b.size))

all_sound : (b : Bitset) → IsValid b → all b ≡ true → (i : ℕ) → i < b.size → bit_in b.bits i ≡ true
unfolding all
all_sound b v h i k = elim (Bool-cases (b.size == 0)) [
  | inl empty ↦ absurd (ground arith)
  | inr some_bits ↦ elim (Bool-cases (count_extra_bits b == 0)) [
    | inl whole ↦ full_block b i (
        (==_iff _ _).0 (
          every_block-true b.bitssize (λ w. w == all_ones) b.bits (ground arith) (i / 64)
            (block_index-lt i v k)))
    | inr part ↦
        let full = every_block-true (b.bitssize - 1) (λ w. w == all_ones) b.bits (ground arith) in
        let last : block b (b.bitssize - 1) ≡ shift_left 1 (b.size % 64) - 1 = ground arith in
        elim (Bool-cases (ltb (i / 64) (b.bitssize - 1))) [
          | inl earlier ↦ full_block b i ((==_iff _ _).0 (full (i / 64) (ground arith)))
          | inr at_last ↦
              let here : i / 64 ≡ b.bitssize - 1 = ground (arith, block_index-lt i v k) in
              ap (λ t. bit (block b t) (i % 64)) here
              ∙ ap (λ w. bit w (i % 64)) (last ∙ last_mask b)
              ∙ bit-ones (b.size % 64) (i % 64)
              ∙ ground (arith, v.blocks, v.fits)
        ]
  ]
]

full_of_all :
    (b : Bitset)
    → IsValid b
    → ((i : ℕ) → i < b.size → test b i ≡ true)
    → (i : ℕ) → i * 64 + 64 ≤ b.size
    → block b i ≡ all_ones
full_of_all b v h i k =
    block_of_bits i all_ones v (omega (arith, v.blocks, v.fits)) (omega arith)
      (λ t p q. h (i * 64 + t) q ∙ sym (bit-ones 64 t ∙ ground arith))
      (λ t p q. absurd (omega arith))

all_complete : (b : Bitset) → IsValid b → ((i : ℕ) → i < b.size → test b i ≡ true) → all b ≡ true
unfolding all
all_complete b v h = elim (Bool-cases (b.size == 0)) [
  | inl empty ↦ rw empty
  | inr some_bits ↦ elim (Bool-cases (count_extra_bits b == 0)) [
    | inl whole ↦
        rw (some_bits, whole)
          (every_block_of_all b.bitssize (λ w. w == all_ones) b.bits
            λ i k. (==_iff _ _).1 (full_of_all b v h i (ground (arith, v.blocks, v.fits))))
    | inr part ↦
        let last = b.bitssize - 1 in
        let extra = b.size % 64 in
        let full =
          every_block_of_all last (λ w. w == all_ones) b.bits
            (λ i k. (==_iff _ _).1 (full_of_all b v h i (omega (arith, v.blocks, v.fits)))) in
        let e : block b last ≡ 2 ^ extra - 1 =
          block_of_bits last (2 ^ extra - 1) v (ground (arith, v.blocks, v.fits))
            (omega (arith, power-lt extra (bit_index-lt b.size)))
            (λ t p q.
              h (last * 64 + t) q ∙ sym (bit-ones extra t ∙ ground (arith, v.blocks, v.fits)))
            (λ t p q. bit-ones extra t ∙ ground (arith, v.blocks, v.fits)) in
        rw (some_bits, part) (rw full ((==_iff _ _).1 (e ∙ sym (last_mask b))))
  ]
]

-- `all()` is true exactly when every bit below the size is set.
pub all_iff : (b : Bitset) → IsValid b → (all b ≡ true) ↔ ((i : ℕ) → i < b.size → test b i ≡ true)
all_iff b v = (λ h i k. test-eq b i ∙ all_sound b v h i k, all_complete b v)

-- `==` on bitsets of one size compares the bits.
pub equals_iff :
    (b c : Bitset)
    → IsValid b
    → IsValid c
    → b.size ≡ c.size
    → (equals b c ≡ true) ↔ ((i : ℕ) → i < b.size → test b i ≡ test c i)
unfolding equals
equals_iff b c v u same = (
  λ e i h.
      let eq : block b (i / 64) ≡ block c (i / 64) = (==_iff _ _).0 (
        every_pair-true b.bitssize (λ x y. x == y) b.bits c.bits e (i / 64)
          (block_index-lt i v h)) in
      test-eq b i ∙ ap (λ w. bit w (i % 64)) eq ∙ sym (test-eq c i),
  λ agree.
      every_pair_of_all b.bitssize (λ x y. x == y) b.bits c.bits
        λ i h. (==_iff _ _).1 (
          block_of_bits i (block c i) v h (u.words i)
            (λ t k p. agree (i * 64 + t) p ∙ test-eq c (i * 64 + t) ∙ bit_in-block c.bits i t k)
            (λ t k p.
              sym (bit_in-block c.bits i t k)
              ∙ u.unused (i * 64 + t) (omega arith) (omega (arith, v.blocks, u.blocks)))),
)

-- For a second bitset that is not the smaller one, intersects is false exactly when no bit is set in
-- both.
pub intersects_iff :
    (b c : Bitset)
    → IsValid b
    → IsValid c
    → b.size ≤ c.size
    → (intersects b c ≡ false) ↔ ((i : ℕ) → i < b.size → (test b i && test c i) ≡ false)
unfolding intersects
intersects_iff b c v u larger = (
  λ e i h.
      let none : bit_and (block b (i / 64)) (block c (i / 64)) ≡ 0 = (==_iff _ _).0 (
        every_pair-true b.bitssize (λ x y. bit_and x y == 0) b.bits c.bits (ground arith) (i / 64)
          (block_index-lt i v h)) in
      ap₂ ◌&&◌ (test-eq b i) (test-eq c i)
      ∙ sym (bit-bit_and (block b (i / 64)) (block c (i / 64)) (i % 64))
      ∙ ap (λ w. bit w (i % 64)) none
      ∙ bit-zero (i % 64),
  λ apart. ap not (
      every_pair_of_all b.bitssize (λ x y. bit_and x y == 0) b.bits c.bits
        λ i h. (==_iff _ _).1 (
          zero_of_bits _ (λ t. ground (
            arith,
            bit-bit_and (block b i) (block c i) t,
            bit_in-block b.bits i t,
            bit_in-block c.bits i t,
            test-eq b (i * 64 + t),
            test-eq c (i * 64 + t),
            apart (i * 64 + t),
            v.unused (i * 64 + t),
            bit_above 64 (block b i) t (v.words i),
          )))),
)
