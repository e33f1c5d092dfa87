-- ===== src/Word/Digits.antt =====
-- The bitwise operations of the machine, one binary digit at a time.
use Prim.Native.Nat.{bit_and, bit_or, bit_xor, digits, differ}
use Prim.Native.Nat.{bit_and-bitwise, bit_or-bitwise, bit_xor-bitwise}
use urss.Base.{ℕ, zero, suc, ◌+◌, ◌*◌, ◌/◌, ◌%◌, ◌≤◌, ◌≡◌, refl, min, max, arith, ap}

-- Enough fuel is as good as any other: the result depends on the digits alone.
module _ (rest : ℕ → ℕ) (op : ℕ → ℕ → ℕ) where
  digits-eq : (m n x y : ℕ) → x ≤ m → x ≤ n → digits rest op m x y ≡ digits rest op n x y
  digits-eq zero zero x y p q = refl
  digits-eq zero (suc n) zero y p q = refl
  digits-eq (suc m) zero zero y p q = refl
  digits-eq (suc m) (suc n) zero y p q = refl
  digits-eq zero n (suc x) y p q = absurd (omega arith)
  digits-eq (suc m) zero (suc x) y p q = absurd (omega arith)
  digits-eq (suc m) (suc n) (suc x) y p q =
      ap (λ t. t * 2 + op (suc x % 2) (y % 2))
        (digits-eq m n (suc x / 2) (y / 2) (omega arith) (omega arith))

pub bit_and-digit : (x y : ℕ) → bit_and x y ≡ bit_and (x / 2) (y / 2) * 2 + min (x % 2) (y % 2)
bit_and-digit zero y = omega (arith, bit_and-bitwise 0 y, bit_and-bitwise 0 (y / 2))
bit_and-digit (suc x) y = omega (
  arith,
  bit_and-bitwise (suc x) y,
  bit_and-bitwise (suc x / 2) (y / 2),
  digits-eq (λ _. 0) min x (suc x / 2) (suc x / 2) (y / 2) (omega arith) (omega arith),
)

pub bit_or-digit : (x y : ℕ) → bit_or x y ≡ bit_or (x / 2) (y / 2) * 2 + max (x % 2) (y % 2)
bit_or-digit zero y = omega (arith, bit_or-bitwise 0 y, bit_or-bitwise 0 (y / 2))
bit_or-digit (suc x) y = omega (
  arith,
  bit_or-bitwise (suc x) y,
  bit_or-bitwise (suc x / 2) (y / 2),
  digits-eq (λ t. t) max x (suc x / 2) (suc x / 2) (y / 2) (omega arith) (omega arith),
)

pub bit_xor-digit : (x y : ℕ) → bit_xor x y ≡ bit_xor (x / 2) (y / 2) * 2 + differ (x % 2) (y % 2)
bit_xor-digit zero y = omega (arith, bit_xor-bitwise 0 y, bit_xor-bitwise 0 (y / 2), zero_case)
  where
    zero_case : y / 2 * 2 + differ 0 (y % 2) ≡ y
    zero_case = omega arith
bit_xor-digit (suc x) y = omega (
  arith,
  bit_xor-bitwise (suc x) y,
  bit_xor-bitwise (suc x / 2) (y / 2),
  digits-eq (λ t. t) differ x (suc x / 2) (suc x / 2) (y / 2) (omega arith) (omega arith),
)
