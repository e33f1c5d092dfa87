-- ===== src/Text/Numbers.antt =====
-- Decimal numbers: what `out << n` writes and `read_uint64` reads.
use urss.Base.{
  ℕ, zero, suc, ◌+◌, ◌-◌, ◌*◌, ◌/◌, ◌%◌, ◌<◌, ◌≡◌, refl, sym, subst, ap, ◌∙◌, arith, true, false,
  List, [], ◌∷◌, ◌++◌, some, ltb, Bool-cases, inl, inr,
}
use urss.Text.{
  is_white, skip_from, skip_whitespace, is_digit, read_digits, read_uint64, digits, decimal,
  uint64_mod,
}

abbrev pub AllDigits : List ℕ → Type 0
AllDigits [] = Unit
AllDigits (d ∷ ds) = (is_digit d ≡ true) × AllDigits ds

-- The number that digits add to `r`.
abbrev value : ℕ → List ℕ → ℕ
value r [] = r
value r (d ∷ ds) = value ((10 * r + (d - b'0')) % uint64_mod) ds

read_digits_lem :
    (r : ℕ) (past ds : List ℕ) (c : ℕ) (rest : List ℕ)
    → AllDigits ds
    → is_digit c ≡ false
    → (p : List ℕ) × (read_digits r past (ds ++ c ∷ rest) ≡ (value r ds, (p, c ∷ rest)))
unfolding read_digits
read_digits_lem r past [] c rest all stop = (past, rw stop refl)
read_digits_lem r past (d ∷ ds) c rest (one, all) stop =
    let (p, e) =
      read_digits_lem ((10 * r + (d - b'0')) % uint64_mod) (d ∷ past) ds c rest all stop in
    (p, rw one e)

digits-AllDigits : (fuel n : ℕ) (acc : List ℕ) → AllDigits acc → AllDigits (digits fuel n acc)
unfolding digits
digits-AllDigits zero n acc all = all
digits-AllDigits (suc fuel) n acc all =
    let one : is_digit (b'0' + n % 10) ≡ true = ground arith in
    elim (Bool-cases (ltb n 10)) [
      | inl e ↦ rw e (one, all)
      | inr e ↦ rw e (digits-AllDigits fuel (n / 10) ((b'0' + n % 10) ∷ acc) (one, all))
    ]

value-digits :
    (fuel n : ℕ) (acc : List ℕ)
    → n < fuel
    → n < uint64_mod
    → value 0 (digits fuel n acc) ≡ value n acc
unfolding digits
value-digits zero n acc h k = absurd (omega (arith, h))
value-digits (suc fuel) n acc h k = elim (Bool-cases (ltb n 10)) [
  | inl e ↦ rw e (ap (λ r. value r acc) (ground (arith, e, k)))
  | inr e ↦ rw e (
      value-digits fuel (n / 10) ((b'0' + n % 10) ∷ acc) (ground (arith, e, h)) (omega (arith, k))
      ∙ ap (λ r. value r acc) (omega (arith, k)))
]

grown : (fuel n d : ℕ) (acc : List ℕ) → (x : ℕ) × (xs : List ℕ) × (digits fuel n (d ∷ acc) ≡ x ∷ xs)
unfolding digits
grown zero n d acc = (d, acc, refl)
grown (suc fuel) n d acc = elim (Bool-cases (ltb n 10)) [
  | inl e ↦ (b'0' + n % 10, d ∷ acc, rw e refl)
  | inr e ↦ let (x, xs, p) = grown fuel (n / 10) (b'0' + n % 10) (d ∷ acc) in (x, xs, rw e p)
]

decimal_cons : (n : ℕ) → (x : ℕ) × (xs : List ℕ) × (digits (suc n) n [] ≡ x ∷ xs)
unfolding digits
decimal_cons n = elim (Bool-cases (ltb n 10)) [
  | inl e ↦ (b'0' + n % 10, [], rw e refl)
  | inr e ↦ let (x, xs, p) = grown n (n / 10) (b'0' + n % 10) [] in (x, xs, rw e p)
]

skip_digit :
    (past : List ℕ) (d : ℕ) (ds : List ℕ)
    → is_digit d ≡ true
    → skip_from past (d ∷ ds) ≡ (past, d ∷ ds)
unfolding skip_from
skip_digit past d ds h = let dark : is_white d ≡ false = ground (arith, h) in rw dark refl

-- The decimal digits of a number below 2 ^ 64, with something behind them that is not a digit, are
-- read as that number.
pub read_uint64-decimal :
    (past rest : List ℕ) (n c : ℕ)
    → n < uint64_mod
    → is_digit c ≡ false
    → (p : List ℕ) × (read_uint64
          (skip_whitespace (record { past = past; ahead = decimal n ++ c ∷ rest; failed = false }))
        ≡ (some n, record { past = p; ahead = c ∷ rest; failed = false }))
unfolding decimal read_uint64 skip_whitespace
read_uint64-decimal past rest n c small stop =
    let (x, xs, e) = decimal_cons n in
    let size : n + 1 ≡ suc n = omega arith in
    let all : AllDigits (x ∷ xs) = subst AllDigits e (digits-AllDigits (suc n) n [] tt) in
    let (p, r) = read_digits_lem 0 past (x ∷ xs) c rest all stop in
    let v : value 0 (x ∷ xs) ≡ n =
      ap (value 0) (sym e) ∙ value-digits (suc n) n [] (omega arith) small in
    (p, rw (size, e, skip_digit past x (xs ++ c ∷ rest) all.0, all.0, r, v) refl)
