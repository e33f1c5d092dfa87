-- ===== src/Bitset/SearchDown.antt =====
-- The searches downwards: `find_last` and `find_prev`.
use Prim.Native.Nat.{bit_and}
use urss.Base.{
  ℕ, zero, suc, ◌+◌, ◌-◌, ◌*◌, ◌/◌, ◌%◌, ◌≤◌, ◌<◌, ◌≡◌, ◌≢◌, ◌⊎◌, ◌∙◌, refl, sym, arith, ap, true,
  false, not, ◌&&◌, if◌then◌else◌, ◌==◌, ltb, Bool-cases, inl, inr,
}
use urss.Word.{word_mod, complement, shift_left, bit, bsr}
use urss.Word.Bits.{bit-zero, bit-bit_and, bit_and-lt}
use urss.Word.Scan.{bsr_lem}
use urss.Bitset.{Bitset, block, npos, all_ones, test, find_down, find_last, find_prev}
use urss.Bitset.Valid.{IsValid, bit_in, bit_index-lt, bit-complement}
use urss.Bitset.Points.{test-eq}
use urss.Bitset.Search.{bit_below, bit_in-join, clear_of_zero, bit-shift_left-ones}

-- `r` is the last set bit below `until`, or `npos` if there is none.
abbrev pub IsLast : Bitset → ℕ → ℕ → Type 0
IsLast b until r =
    ((r ≡ npos) × ((j : ℕ) → j < until → test b j ≡ false))
    ⊎ ((r < until) × (test b r ≡ true) × ((j : ℕ) → r < j → j < until → test b j ≡ false))

-- The highest bit of a word made of the bits of block `j` that are below `until`.
module _ (b : Bitset) (until j w : ℕ) (v : IsValid b) (nonzero : w ≢ 0) (fits : w < word_mod)
    (of_block : (t : ℕ) → t < 64 → bit w t ≡ (bit (block b j) t && ltb (j * 64 + t) until))
    (clear : (k : ℕ) → suc j * 64 ≤ k → k < until → bit_in b.bits k ≡ false) where
  found-IsLast : IsLast b until (j * 64 + bsr w)
  found-IsLast =
      let high = bsr_lem w nonzero fits in
      let t = bsr w in
      let here = of_block t high.0 in
      let here_set : bit_in b.bits (j * 64 + t) ≡ true =
        ground (arith, here, high.1.is_set, bit_in-join b.bits j t high.0) in
      inr (
        ground (arith, here, high.1.is_set),
        test-eq b (j * 64 + t) ∙ here_set,
        λ k p q. ground (
          arith,
          test-eq b k,
          clear k,
          of_block (k - j * 64),
          high.1.above (k - j * 64),
          bit_in-join b.bits j (k - j * 64),
          high.0,
          split k,
        ),
      )
    where
      split : (k : ℕ) → j * 64 ≤ k → j * 64 + (k - j * 64) ≡ k
      split k h = omega arith

IsLast-extend :
    (b : Bitset) (until earlier r : ℕ)
    → earlier ≤ until
    → ((k : ℕ) → earlier ≤ k → k < until → test b k ≡ false)
    → IsLast b earlier r
    → IsLast b until r
IsLast-extend b until earlier r h clear (inl (e, rest)) =
    inl (e, λ k p. ground (arith, clear k, rest k))
IsLast-extend b until earlier r h clear (inr (a, d, rest)) =
    inr (omega arith, d, λ k p q. ground (arith, clear k, rest k))

find_down_lem : (b : Bitset) (i : ℕ) → IsValid b → IsLast b (suc i * 64) (find_down b.bits i)
unfolding find_down
find_down_lem b zero v = elim (Bool-cases (block b 0 == 0)) [
  | inl none ↦ rw none (
      inl (
        refl,
        λ k p.
            test-eq b k
            ∙ clear_of_zero b.bits k (ap (block b) {y = 0} (omega arith) ∙ ground arith),
      ))
  | inr found ↦ rw found (
      found-IsLast b 64 0 (block b 0) v (ground arith) (v.words 0) (λ t p. ground arith)
        (λ k p q. absurd (omega arith)))
]
find_down_lem b (suc i) v = elim (Bool-cases (block b (suc i) == 0)) [
  | inl none ↦
      let zero_block : block b (suc i) ≡ 0 = ground arith in
      rw none (
        IsLast-extend b (suc (suc i) * 64) (suc i * 64) (find_down b.bits i) (omega arith)
          (λ k p q.
            test-eq b k
            ∙ clear_of_zero b.bits k (ap (block b) {y = suc i} (omega arith) ∙ zero_block))
          (find_down_lem b i v))
  | inr found ↦ rw found (
      found-IsLast b (suc (suc i) * 64) (suc i) (block b (suc i)) v (ground arith) (v.words (suc i))
        (λ t p. ground arith) (λ k p q. absurd (omega arith)))
]

-- `find_last` returns the last set bit.
pub find_last_lem : (b : Bitset) → IsValid b → IsLast b b.size (find_last b)
unfolding find_last
find_last_lem b v = elim (Bool-cases (b.bitssize == 0)) [
  | inl empty ↦ rw empty (inl (refl, λ k p. absurd (ground (arith, v.blocks, v.fits))))
  | inr blocks ↦ rw blocks (restrict (ground arith) (find_down_lem b (b.bitssize - 1) v))
]
  where
    restrict : {r : ℕ} → 0 < b.bitssize → IsLast b (suc (b.bitssize - 1) * 64) r → IsLast b b.size r
    restrict in_use (inl (e, rest)) = inl (e, λ k p. rest k (omega (arith, v.blocks, v.fits)))
    restrict {r} in_use (inr (a, d, rest)) =
        let below : r < b.size = bit_below r v (omega arith) (sym (test-eq b r) ∙ d) in
        inr (below, d, λ k p q. rest k p (omega (arith, v.blocks, v.fits)))

shift_left-lt : (x k : ℕ) → shift_left x k < word_mod
unfolding shift_left
shift_left-lt x k = omega arith

module _ (b : Bitset) (pos : ℕ) (v : IsValid b) (h : 0 < pos) where
  masked : ℕ
  masked = bit_and (block b (pos / 64)) (complement (shift_left all_ones (pos % 64)))

  bit-masked :
      (t : ℕ) → t < 64 → bit masked t ≡ (bit (block b (pos / 64)) t && ltb (pos / 64 * 64 + t) pos)
  unfolding masked
  bit-masked t k =
      bit-bit_and (block b (pos / 64)) (complement (shift_left all_ones (pos % 64))) t
      ∙ ap (λ e. bit (block b (pos / 64)) t && e)
          (bit-complement (shift_left all_ones (pos % 64)) t (shift_left-lt _ _) k
            ∙ ap not (bit-shift_left-ones (pos % 64) t (bit_index-lt pos) k)
            ∙ ground arith)

  masked-lt : masked < word_mod
  unfolding masked
  masked-lt =
      bit_and-lt 64 (block b (pos / 64)) (complement (shift_left all_ones (pos % 64)))
        (v.words (pos / 64))

  clear_block : masked ≡ 0 → (k : ℕ) → pos / 64 * 64 ≤ k → k < pos → test b k ≡ false
  clear_block none k p q =
      let here : k / 64 ≡ pos / 64 = omega arith in
      ground (
        arith,
        test-eq b k,
        bit-masked (k % 64) (bit_index-lt k),
        ap (λ t. bit t (k % 64)) none,
        bit-zero (k % 64),
        ap (λ t. bit (block b t) (k % 64)) here,
      )

  find_before : IsLast b pos (
      if masked == 0
      then (if pos / 64 == 0 then npos else find_down b.bits (pos / 64 - 1))
      else pos / 64 * 64 + bsr masked)
  find_before = elim (Bool-cases (masked == 0)) [
    | inl none ↦ elim (Bool-cases (pos / 64 == 0)) [
      | inl first ↦
          rw (none, first) (inl (refl, λ k p. clear_block (ground arith) k (ground arith) p))
      | inr later ↦
          rw (none, later)
            (IsLast-extend b pos (suc (pos / 64 - 1) * 64) (find_down b.bits (pos / 64 - 1))
              (ground arith) (λ k p q. clear_block (ground arith) k (ground arith) q)
              (find_down_lem b (pos / 64 - 1) v))
    ]
    | inr found ↦ rw found (
        found-IsLast b pos (pos / 64) masked v (ground arith) masked-lt bit-masked
          (λ k p q. absurd (omega arith)))
  ]

-- `find_prev` returns the last set bit before a position of the bitset.
pub find_prev_lem :
    (b : Bitset) (pos : ℕ) → IsValid b → pos < b.size → IsLast b pos (find_prev b pos)
unfolding find_prev masked
find_prev_lem b pos v h =
    let valid_pos : (pos == npos) ≡ false = ground (arith, v.fits) in
    elim (Bool-cases (pos == 0)) [
      | inl first ↦ rw (valid_pos, first) (inl (refl, λ k p. absurd (ground arith)))
      | inr more ↦ rw (valid_pos, more) (find_before b pos v (ground arith))
    ]
