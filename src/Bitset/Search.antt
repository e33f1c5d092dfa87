-- ===== src/Bitset/Search.antt =====
-- The searches upwards: `find_first` and `find_next`.
use Prim.Native.Nat.{bit_and}
use native.Mathlib.Nat.{one-le-pow}
use urss.Base.{
  ℕ, ◌+◌, ◌-◌, ◌*◌, ◌/◌, ◌%◌, ◌^◌, ◌≤◌, ◌<◌, ◌≡◌, ◌≢◌, ◌⊎◌, ◌∙◌, refl, arith, ap, ap₂, true, false,
  not, ◌&&◌, List, if◌then◌else◌, ◌==◌, leb, get_or, Bool-cases, inl, inr,
}
use urss.Word.{word_mod, shift_left, bit, ffsll}
use urss.Word.Bits.{bit-ones, bit-zero, bit-bit_and, bit_and-lt, bit-invert}
use urss.Word.Scan.{ffsll_lem}
use urss.Bitset.{Bitset, block, npos, all_ones, test, skip_zero, find_from, find_first, find_next}
use urss.Bitset.Blocks.{skip_zero_lem}
use urss.Bitset.Valid.{IsValid, bit_in, bit_index-lt, block_index-lt, power-lt}
use urss.Bitset.Points.{test-eq}

-- `r` is the first set bit at or after `from`, or `npos` if there is none.
abbrev pub IsFirst : Bitset → ℕ → ℕ → Type 0
IsFirst b from r =
    ((r ≡ npos) × ((j : ℕ) → from ≤ j → j < b.size → test b j ≡ false))
    ⊎ ((from ≤ r)
        × (r < b.size)
        × (test b r ≡ true)
        × ((j : ℕ) → from ≤ j → j < r → test b j ≡ false))

-- A set bit of a block in use is below the size.
pub bit_below :
    {b : Bitset} (k : ℕ) → IsValid b → k < b.bitssize * 64 → bit_in b.bits k ≡ true → k < b.size
bit_below {b} k v h e = ground (arith, v.unused k)

pub bit_in-join : (xs : List ℕ) (i t : ℕ) → t < 64 → bit_in xs (i * 64 + t) ≡ bit (get_or xs i 0) t
bit_in-join xs i t h =
    let p : (i * 64 + t) / 64 ≡ i = omega arith in
    let q : (i * 64 + t) % 64 ≡ t = omega arith in ap₂ (λ a b. bit (get_or xs a 0) b) p q

pub clear_of_zero : (xs : List ℕ) (k : ℕ) → get_or xs (k / 64) 0 ≡ 0 → bit_in xs k ≡ false
clear_of_zero xs k e = ap (λ w. bit w (k % 64)) e ∙ bit-zero (k % 64)

-- The lowest bit of a word made of the bits of block `j` that are at or after `from`.
module _ (b : Bitset) (from j w : ℕ) (v : IsValid b) (in_use : j < b.bitssize) (nonzero : w ≢ 0)
    (fits : w < word_mod)
    (of_block : (t : ℕ) → t < 64 → bit w t ≡ (bit (block b j) t && leb from (j * 64 + t)))
    (clear : (k : ℕ) → from ≤ k → k < j * 64 → bit_in b.bits k ≡ false) where
  found-IsFirst : IsFirst b from (j * 64 + ffsll w - 1)
  found-IsFirst =
      let low = ffsll_lem w nonzero fits in
      let t = ffsll w - 1 in
      let e : j * 64 + ffsll w - 1 ≡ j * 64 + t = omega (arith, low.0) in
      let here = of_block t low.1 in
      let here_set : bit_in b.bits (j * 64 + t) ≡ true =
        ground (arith, here, low.2.is_set, bit_in-join b.bits j t low.1) in
      rw e (
        inr (
          ground (arith, here, low.2.is_set),
          bit_below (j * 64 + t) v (omega (arith, low.1)) here_set,
          test-eq b (j * 64 + t) ∙ here_set,
          λ k p q. ground (
            arith,
            test-eq b k,
            clear k,
            of_block (k - j * 64),
            low.2.below (k - j * 64),
            bit_in-join b.bits j (k - j * 64),
            low.1,
            split k,
          ),
        ))
    where
      split : (k : ℕ) → j * 64 ≤ k → j * 64 + (k - j * 64) ≡ k
      split k h = omega arith

find_from_lem :
    (b : Bitset) (i : ℕ) → IsValid b → i ≤ b.bitssize → IsFirst b (i * 64) (find_from b i)
unfolding find_from
find_from_lem b i v h =
    let j = skip_zero (b.bitssize - i) b.bits i in
    let z = skip_zero_lem (b.bitssize - i) b.bits i in
    let clear = λ (k : ℕ) (p : i * 64 ≤ k) (q : k < j * 64).
      clear_of_zero b.bits k (z.zeros (k / 64) (omega arith) (omega arith)) in
    elim (Bool-cases (j == b.bitssize)) [
      | inl stop ↦
          rw stop (inl (refl, λ k p q. test-eq b k ∙ clear k p (ground (arith, v.blocks, v.fits))))
      | inr found ↦
          let in_use : j < b.bitssize = ground (arith, z.within) in
          rw found (
            found-IsFirst b (i * 64) j (block b j) v in_use (z.stops (omega arith)) (v.words j)
              (λ t p. ground (arith, z.from)) clear)
    ]

-- `find_first` returns the first set bit.
pub find_first_lem : (b : Bitset) → IsValid b → IsFirst b 0 (find_first b)
unfolding find_first
find_first_lem b v = find_from_lem b 0 v (omega arith)

shift_left-ones : (s : ℕ) → s < 64 → shift_left all_ones s ≡ word_mod - 1 - (2 ^ s - 1)
unfolding shift_left
shift_left-ones s h = omega (arith, power-lt s h, one-le-pow s 2 (omega arith))

-- The mask ~0 << s has the bits from s on.
pub bit-shift_left-ones : (s t : ℕ) → s < 64 → t < 64 → bit (shift_left all_ones s) t ≡ leb s t
bit-shift_left-ones s t h k =
    ap (λ w. bit w t) (shift_left-ones s h)
    ∙ bit-invert 64 (2 ^ s - 1) t (omega (arith, power-lt s h)) k
    ∙ ap not (bit-ones s t)
    ∙ ground arith

-- What is first from a later point on is first from an earlier one, if all between is clear.
IsFirst-extend :
    (b : Bitset) (from later r : ℕ)
    → from ≤ later
    → ((k : ℕ) → from ≤ k → k < later → test b k ≡ false)
    → IsFirst b later r
    → IsFirst b from r
IsFirst-extend b from later r h clear (inl (e, rest)) =
    inl (e, λ k p q. ground (arith, clear k, rest k))
IsFirst-extend b from later r h clear (inr (a, c, d, rest)) =
    inr (omega arith, c, d, λ k p q. ground (arith, clear k, rest k))

-- The two ways out of `find_next`: in the block of the next position, or after it.
module _ (b : Bitset) (pos : ℕ) (v : IsValid b) (h : pos + 1 < b.size) where
  masked : ℕ
  masked = bit_and (block b ((pos + 1) / 64)) (shift_left all_ones ((pos + 1) % 64))

  bit-masked :
      (t : ℕ)
      → t < 64
      → bit masked t ≡ (bit (block b ((pos + 1) / 64)) t && leb (pos + 1) ((pos + 1) / 64 * 64 + t))
  unfolding masked
  bit-masked t k =
      bit-bit_and (block b ((pos + 1) / 64)) (shift_left all_ones ((pos + 1) % 64)) t
      ∙ ap (λ e. bit (block b ((pos + 1) / 64)) t && e)
          (bit-shift_left-ones ((pos + 1) % 64) t (bit_index-lt (pos + 1)) k ∙ ground arith)

  masked-lt : masked < word_mod
  unfolding masked
  masked-lt =
      bit_and-lt 64 (block b ((pos + 1) / 64)) (shift_left all_ones ((pos + 1) % 64))
        (v.words ((pos + 1) / 64))

  find_after : IsFirst b (pos + 1) (
      if masked == 0
      then find_from b ((pos + 1) / 64 + 1)
      else (pos + 1) / 64 * 64 + ffsll masked - 1)
  find_after = elim (Bool-cases (masked == 0)) [
    | inl none ↦
        let zero_mask : masked ≡ 0 = ground arith in
        rw none (
          IsFirst-extend b (pos + 1) (((pos + 1) / 64 + 1) * 64) (find_from b ((pos + 1) / 64 + 1))
            (omega arith)
            (λ k p q.
              let here : k / 64 ≡ (pos + 1) / 64 = omega arith in
              ground (
                arith,
                test-eq b k,
                bit-masked (k % 64) (bit_index-lt k),
                ap (λ t. bit t (k % 64)) zero_mask,
                bit-zero (k % 64),
                ap (λ t. bit (block b t) (k % 64)) here,
              ))
            (find_from_lem b ((pos + 1) / 64 + 1) v (omega (arith, block_index-lt (pos + 1) v h))))
    | inr found ↦ rw found (
        found-IsFirst b (pos + 1) ((pos + 1) / 64) masked v (block_index-lt (pos + 1) v h)
          (ground arith) masked-lt bit-masked (λ k p q. absurd (omega arith)))
  ]

-- `find_next` returns the first set bit after a position of the bitset.
pub find_next_lem :
    (b : Bitset) (pos : ℕ) → IsValid b → pos < b.size → IsFirst b (pos + 1) (find_next b pos)
unfolding find_next masked
find_next_lem b pos v h =
    let valid_pos : (pos == npos) ≡ false = ground (arith, v.fits) in
    elim (Bool-cases (leb b.size (pos + 1))) [
      | inl last ↦ rw (valid_pos, last) (inl (refl, λ k p q. absurd (ground arith)))
      | inr more ↦ rw (valid_pos, more) (find_after b pos v (ground arith))
    ]
