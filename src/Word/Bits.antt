-- ===== src/Word/Bits.antt =====
-- What the operations on words do to each bit, and that their results fit a word.
use Prim.Native.Nat.{bit_and, bit_or, bit_xor, differ, bit_and-bitwise}
use native.Mathlib.Nat.{two-pow-succ, one-le-pow}
use urss.Base.{
  ℕ, zero, suc, ◌-◌, ◌/◌, ◌%◌, ◌^◌, ◌≤◌, ◌<◌, ◌≡◌, ◌≢◌, refl, arith, ap, ap₂, ◌∙◌, true, false, not,
  ◌&&◌, ◌||◌, xor, ◌==◌, ltb,
}
use urss.Word.{bit}
use urss.Word.Digits.{bit_and-digit, bit_or-digit, bit_xor-digit}

-- A binary digit is a bit.
digit-cases : (x : ℕ) → x % 2 ≤ 1
digit-cases x = omega arith

pub bit-bit_and : (x y i : ℕ) → bit (bit_and x y) i ≡ (bit x i && bit y i)
bit-bit_and x y zero = ground (arith, bit_and-digit x y)
bit-bit_and x y (suc i) =
    let half : bit_and x y / 2 ≡ bit_and (x / 2) (y / 2) = omega (arith, bit_and-digit x y) in
    ap (λ t. bit t i) half ∙ bit-bit_and (x / 2) (y / 2) i

pub bit-bit_or : (x y i : ℕ) → bit (bit_or x y) i ≡ (bit x i || bit y i)
bit-bit_or x y zero = ground (arith, bit_or-digit x y)
bit-bit_or x y (suc i) =
    let half : bit_or x y / 2 ≡ bit_or (x / 2) (y / 2) = omega (arith, bit_or-digit x y) in
    ap (λ t. bit t i) half ∙ bit-bit_or (x / 2) (y / 2) i

differ-le : (a b : ℕ) → a ≤ 1 → b ≤ 1 → differ a b ≤ 1
differ-le zero b p q = q
differ-le (suc zero) zero p q = omega arith
differ-le (suc zero) (suc b) p q = omega arith
differ-le (suc (suc a)) b p q = absurd (omega arith)

differ-xor : (a b : ℕ) → a ≤ 1 → b ≤ 1 → (differ a b == 1) ≡ xor (a == 1) (b == 1)
unfolding xor
differ-xor zero zero p q = refl
differ-xor zero (suc zero) p q = refl
differ-xor (suc zero) zero p q = refl
differ-xor (suc zero) (suc zero) p q = refl
differ-xor (suc (suc a)) b p q = absurd (omega arith)
differ-xor a (suc (suc b)) p q = absurd (omega arith)

pub bit-bit_xor : (x y i : ℕ) → bit (bit_xor x y) i ≡ xor (bit x i) (bit y i)
bit-bit_xor x y zero =
    let d = differ-le (x % 2) (y % 2) (omega arith) (omega arith) in
    let low : bit_xor x y % 2 ≡ differ (x % 2) (y % 2) = omega (arith, bit_xor-digit x y, d) in
    ap (λ t. t == 1) low ∙ differ-xor (x % 2) (y % 2) (omega arith) (omega arith)
bit-bit_xor x y (suc i) =
    let d = differ-le (x % 2) (y % 2) (omega arith) (omega arith) in
    let half : bit_xor x y / 2 ≡ bit_xor (x / 2) (y / 2) = omega (arith, bit_xor-digit x y, d) in
    ap (λ t. bit t i) half ∙ bit-bit_xor (x / 2) (y / 2) i

bit_and-zero-left : (y : ℕ) → bit_and 0 y ≡ 0
bit_and-zero-left y = bit_and-bitwise 0 y

-- A result fits the width that its arguments fit.
pub bit_and-lt : (n x y : ℕ) → x < 2 ^ n → bit_and x y < 2 ^ n
bit_and-lt zero x y h = omega (arith, bit_and-zero-left y, zero_of h)
  where
    zero_of : x < 2 ^ 0 → bit_and x y ≡ bit_and 0 y
    zero_of p = ap (λ t. bit_and t y) (omega arith)
bit_and-lt (suc n) x y h =
    let p = two-pow-succ n in
    omega (arith, p, bit_and-digit x y, bit_and-lt n (x / 2) (y / 2) (omega (arith, p)))

pub bit_or-lt : (n x y : ℕ) → x < 2 ^ n → y < 2 ^ n → bit_or x y < 2 ^ n
bit_or-lt zero x y h k =
    let p : x ≡ 0 = omega arith in
    let q : y ≡ 0 = omega arith in
    let e : bit_or x y ≡ bit_or 0 0 = ap₂ bit_or p q in omega (arith, e)
bit_or-lt (suc n) x y h k =
    let p = two-pow-succ n in
    omega (
      arith,
      p,
      bit_or-digit x y,
      bit_or-lt n (x / 2) (y / 2) (omega (arith, p)) (omega (arith, p)),
    )

pub bit_xor-lt : (n x y : ℕ) → x < 2 ^ n → y < 2 ^ n → bit_xor x y < 2 ^ n
bit_xor-lt zero x y h k =
    let p : x ≡ 0 = omega arith in
    let q : y ≡ 0 = omega arith in
    let e : bit_xor x y ≡ bit_xor 0 0 = ap₂ bit_xor p q in omega (arith, e)
bit_xor-lt (suc n) x y h k =
    let p = two-pow-succ n in
    omega (
      arith,
      p,
      bit_xor-digit x y,
      differ-le (x % 2) (y % 2) (omega arith) (omega arith),
      bit_xor-lt n (x / 2) (y / 2) (omega (arith, p)) (omega (arith, p)),
    )

-- Words made of ones and zeros.
pub bit-zero : (i : ℕ) → bit 0 i ≡ false
bit-zero zero = refl
bit-zero (suc i) = bit-zero i

-- A word of width n has no bit at n or above.
pub bit_above : (n w i : ℕ) → w < 2 ^ n → n ≤ i → bit w i ≡ false
bit_above zero w i h k = ap (λ t. bit t i) {y = 0} (omega arith) ∙ bit-zero i
bit_above (suc n) w zero h k = absurd (omega arith)
bit_above (suc n) w (suc i) h k =
    bit_above n (w / 2) i (omega (arith, two-pow-succ n)) (omega arith)

-- 1 << k
pub bit-power : (k i : ℕ) → bit (2 ^ k) i ≡ (i == k)
bit-power zero zero = refl
bit-power zero (suc i) = bit-zero i ∙ ground arith
bit-power (suc k) zero = ground (arith, two-pow-succ k)
bit-power (suc k) (suc i) =
    let half : 2 ^ suc k / 2 ≡ 2 ^ k = omega (arith, two-pow-succ k) in
    ap (λ t. bit t i) half ∙ bit-power k i ∙ ground arith

-- (1 << k) - 1
pub bit-ones : (k i : ℕ) → bit (2 ^ k - 1) i ≡ ltb i k
bit-ones zero i = bit-zero i ∙ ground arith
bit-ones (suc k) zero = ground (arith, two-pow-succ k, one-le-pow k 2)
bit-ones (suc k) (suc i) =
    let half : (2 ^ suc k - 1) / 2 ≡ 2 ^ k - 1 =
      omega (arith, two-pow-succ k, one-le-pow k 2 (omega arith)) in
    ap (λ t. bit t i) half ∙ bit-ones k i ∙ ground arith

-- The complement within a width.
pub bit-invert : (n w i : ℕ) → w < 2 ^ n → i < n → bit (2 ^ n - 1 - w) i ≡ not (bit w i)
bit-invert zero w i h k = absurd (omega arith)
bit-invert (suc n) w zero h k = ground (arith, two-pow-succ n)
bit-invert (suc n) w (suc i) h k =
    let half : (2 ^ suc n - 1 - w) / 2 ≡ 2 ^ n - 1 - w / 2 = omega (arith, two-pow-succ n) in
    ap (λ t. bit t i) half ∙ bit-invert n (w / 2) i (omega (arith, two-pow-succ n)) (omega arith)

-- Two words of one width with the same bits are equal.
pub bit_ext : (n v w : ℕ) → v < 2 ^ n → w < 2 ^ n → ((i : ℕ) → i < n → bit v i ≡ bit w i) → v ≡ w
bit_ext zero v w h k e = omega arith
bit_ext (suc n) v w h k e =
    let p = two-pow-succ n in
    let halves =
      bit_ext n (v / 2) (w / 2) (omega (arith, p)) (omega (arith, p))
        (λ i hi. e (suc i) (omega arith)) in
    ground (arith, halves, e 0 (omega arith))

-- A number with no bit is zero, and one with a bit is not.
zero_fuel : (n w : ℕ) → w ≤ n → ((i : ℕ) → bit w i ≡ false) → w ≡ 0
zero_fuel zero w h e = omega arith
zero_fuel (suc n) zero h e = refl
zero_fuel (suc n) (suc w) h e =
    let half = zero_fuel n (suc w / 2) (omega arith) (λ i. e (suc i)) in ground (arith, half, e 0)

pub zero_of_bits : (w : ℕ) → ((i : ℕ) → bit w i ≡ false) → w ≡ 0
zero_of_bits w = zero_fuel w w (omega arith)

pub ne_zero_of_bit : (w i : ℕ) → bit w i ≡ true → w ≢ 0
ne_zero_of_bit w i h e = cc (ap (λ t. bit t i) e, bit-zero i)
