-- ===== src/Word/Scan.antt =====
-- `__builtin_ffsll` finds the lowest bit of a word, and `bsr` the highest.
use Prim.Native.Nat.{bit_xor}
use native.Mathlib.Nat.{two-pow-succ}
use urss.Base.{
  ℕ, zero, suc, ◌-◌, ◌/◌, ◌%◌, ◌^◌, ◌<◌, ◌≡◌, ◌≢◌, refl, arith, Bool, true, false, ◌==◌, Bool-cases,
  if◌then◌else◌, inl, inr,
}
use urss.Word.Bits.{bit_above}
use urss.Word.{bit, trailing_zeros, top_bit, ffsll, clzll, bsr}

-- `i` is the lowest bit of `w`.
pub record IsLowest (w i : ℕ) : Type 0 where
  pub is_set : bit w i ≡ true
  pub below : (j : ℕ) → j < i → bit w j ≡ false

-- `i` is the highest bit of `w`.
pub record IsHighest (w i : ℕ) : Type 0 where
  pub is_set : bit w i ≡ true
  pub above : (j : ℕ) → i < j → bit w j ≡ false

IsLowest-suc : (w i : ℕ) → w % 2 ≢ 1 → IsLowest (w / 2) i → IsLowest w (suc i)
IsLowest-suc w i odd h = record { is_set = h.is_set; below = below_suc }
  where
    below_suc : (j : ℕ) → j < suc i → bit w j ≡ false
    below_suc zero k = ground arith
    below_suc (suc j) k = h.below j (omega arith)

IsHighest-suc : (w i : ℕ) → IsHighest (w / 2) i → IsHighest w (suc i)
IsHighest-suc w i h = record { is_set = h.is_set; above = above_suc }
  where
    above_suc : (j : ℕ) → suc i < j → bit w j ≡ false
    above_suc zero k = absurd (omega arith)
    above_suc (suc j) k = h.above j (omega arith)

trailing_zeros_lem :
    (n w : ℕ) → w ≢ 0 → w < 2 ^ n → (trailing_zeros n w < n) × IsLowest w (trailing_zeros n w)
unfolding trailing_zeros
trailing_zeros_lem zero w h k = absurd (omega arith)
trailing_zeros_lem (suc n) w h k = elim (Bool-cases (w % 2 == 1)) [
  | inl odd ↦ rw odd (omega arith, record { is_set = odd; below = λ j p. absurd (omega arith) })
  | inr even ↦
      let low : w % 2 ≢ 1 = ground arith in
      let ih = trailing_zeros_lem n (w / 2) (omega arith) (omega (arith, two-pow-succ n)) in
      rw even (omega (arith, ih.0), IsLowest-suc w (trailing_zeros n (w / 2)) low ih.1)
]

pub top_bit_lem : (n w : ℕ) → w ≢ 0 → w < 2 ^ n → (top_bit n w < n) × IsHighest w (top_bit n w)
unfolding top_bit
top_bit_lem zero w h k = absurd (omega arith)
top_bit_lem (suc n) w h k = elim (Bool-cases (w / 2 == 0)) [
  | inl last ↦
      let small : w < 2 = ground arith in
      rw last
        (omega arith, record { is_set = ground arith; above = λ j p. bit_above 1 w j small p })
  | inr more ↦
      let high : w / 2 ≢ 0 = ground arith in
      let ih = top_bit_lem n (w / 2) high (omega (arith, two-pow-succ n)) in
      rw more (omega (arith, ih.0), IsHighest-suc w (top_bit n (w / 2)) ih.1)
]

-- `63 - t` and `t` are complements in six bits: all cases are evaluated.
mirrors : ℕ → Bool
mirrors zero = true
mirrors (suc t) = if bit_xor (63 - t) 63 == t then mirrors t else false

mirrors_word : mirrors 64 ≡ true
unfolding mirrors
mirrors_word = refl

mirror-eq : (n t : ℕ) → mirrors n ≡ true → t < n → bit_xor (63 - t) 63 ≡ t
unfolding mirrors
mirror-eq zero t e h = absurd (omega arith)
mirror-eq (suc n) t e h = elim (Bool-cases (t == n)) [
  | inl last ↦ let here : t ≡ n = ground arith in rw here (ground arith)
  | inr earlier ↦ mirror-eq n t (ground arith) (ground arith)
]

bsr-eq-top_bit : (w : ℕ) → top_bit 64 w < 64 → bsr w ≡ top_bit 64 w
unfolding bsr clzll
bsr-eq-top_bit w h = mirror-eq 64 (top_bit 64 w) mirrors_word h

-- `clzll x ^ 63` is the index of the highest bit.
pub bsr_lem : (w : ℕ) → w ≢ 0 → w < 2 ^ 64 → (bsr w < 64) × IsHighest w (bsr w)
bsr_lem w h k =
    let t = top_bit_lem 64 w h k in
    let e = bsr-eq-top_bit w t.0 in (omega (arith, t.0, e), rw e t.1)

ffsll_of_ne_zero : (w : ℕ) → w ≢ 0 → ffsll w ≡ suc (trailing_zeros 64 w)
unfolding ffsll
ffsll_of_ne_zero w h = ground arith

pub ffsll_lem :
    (w : ℕ)
    → w ≢ 0
    → w < 2 ^ 64
    → (ffsll w ≡ suc (ffsll w - 1)) × (ffsll w - 1 < 64) × IsLowest w (ffsll w - 1)
ffsll_lem w h k =
    let t = trailing_zeros_lem 64 w h k in
    let e = ffsll_of_ne_zero w h in
    let low : ffsll w - 1 ≡ trailing_zeros 64 w = omega (arith, e) in
    (omega (arith, e), omega (arith, e, t.0), rw low t.1)
