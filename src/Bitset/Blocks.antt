-- ===== src/Bitset/Blocks.antt =====
-- The loops of `bitset` over its blocks, block by block.
use urss.Base.{
  ℕ, zero, suc, ◌+◌, ◌≤◌, ◌<◌, ◌≡◌, ◌≢◌, refl, arith, ap, Bool, true, List, [], ◌∷◌, if◌then◌else◌,
  ◌==◌, ltb, length, get_or, Bool-cases, inl, inr,
}
use urss.Bitset.{map_blocks, zip_blocks, every_block, every_pair, skip_zero}

pub length-map_blocks : (n : ℕ) (f : ℕ → ℕ) (xs : List ℕ) → length (map_blocks n f xs) ≡ length xs
unfolding map_blocks
length-map_blocks zero f xs = refl
length-map_blocks (suc n) f [] = refl
length-map_blocks (suc n) f (x ∷ xs) = ap suc (length-map_blocks n f xs)

pub get_or-map_blocks :
    (n : ℕ) (f : ℕ → ℕ) (xs : List ℕ) (i : ℕ)
    → n ≤ length xs
    → get_or (map_blocks n f xs) i 0 ≡ (if ltb i n then f (get_or xs i 0) else get_or xs i 0)
unfolding map_blocks
get_or-map_blocks zero f xs i h = ground arith
get_or-map_blocks (suc n) f [] i h = absurd (omega arith)
get_or-map_blocks (suc n) f (x ∷ xs) zero h = ground arith
get_or-map_blocks (suc n) f (x ∷ xs) (suc i) h = ground (arith, get_or-map_blocks n f xs i)

pub length-zip_blocks :
    (n : ℕ) (f : ℕ → ℕ → ℕ) (xs ys : List ℕ) → length (zip_blocks n f xs ys) ≡ length xs
unfolding zip_blocks
length-zip_blocks zero f xs ys = refl
length-zip_blocks (suc n) f [] ys = refl
length-zip_blocks (suc n) f (x ∷ xs) [] = ap suc (length-zip_blocks n f xs [])
length-zip_blocks (suc n) f (x ∷ xs) (y ∷ ys) = ap suc (length-zip_blocks n f xs ys)

pub get_or-zip_blocks :
    (n : ℕ) (f : ℕ → ℕ → ℕ) (xs ys : List ℕ) (i : ℕ)
    → n ≤ length xs
    → get_or (zip_blocks n f xs ys) i 0
      ≡ (if ltb i n then f (get_or xs i 0) (get_or ys i 0) else get_or xs i 0)
unfolding zip_blocks
get_or-zip_blocks zero f xs ys i h = ground arith
get_or-zip_blocks (suc n) f [] ys i h = absurd (omega arith)
get_or-zip_blocks (suc n) f (x ∷ xs) [] zero h = ground arith
get_or-zip_blocks (suc n) f (x ∷ xs) (y ∷ ys) zero h = ground arith
get_or-zip_blocks (suc n) f (x ∷ xs) [] (suc i) h = ground (arith, get_or-zip_blocks n f xs [] i)
get_or-zip_blocks (suc n) f (x ∷ xs) (y ∷ ys) (suc i) h =
    ground (arith, get_or-zip_blocks n f xs ys i)

pub every_block-true :
    (n : ℕ) (good : ℕ → Bool) (xs : List ℕ)
    → every_block n good xs ≡ true
    → (i : ℕ) → i < n
    → good (get_or xs i 0) ≡ true
unfolding every_block
every_block-true zero good xs h i k = absurd (omega arith)
every_block-true (suc n) good [] h zero k = ground arith
every_block-true (suc n) good [] h (suc i) k =
    every_block-true n good [] (ground arith) i (omega arith)
every_block-true (suc n) good (x ∷ xs) h zero k = ground arith
every_block-true (suc n) good (x ∷ xs) h (suc i) k =
    every_block-true n good xs (ground arith) i (omega arith)

pub every_block_of_all :
    (n : ℕ) (good : ℕ → Bool) (xs : List ℕ)
    → ((i : ℕ) → i < n → good (get_or xs i 0) ≡ true)
    → every_block n good xs ≡ true
unfolding every_block
every_block_of_all zero good xs h = refl
every_block_of_all (suc n) good [] h =
    ground (arith, h 0 (omega arith), every_block_of_all n good [] (λ i k. h (suc i) (omega arith)))
every_block_of_all (suc n) good (x ∷ xs) h =
    ground (arith, h 0 (omega arith), every_block_of_all n good xs (λ i k. h (suc i) (omega arith)))

pub every_pair-true :
    (n : ℕ) (good : ℕ → ℕ → Bool) (xs ys : List ℕ)
    → every_pair n good xs ys ≡ true
    → (i : ℕ) → i < n
    → good (get_or xs i 0) (get_or ys i 0) ≡ true
unfolding every_pair
every_pair-true zero good xs ys h i k = absurd (omega arith)
every_pair-true (suc n) good [] [] h zero k = ground arith
every_pair-true (suc n) good [] (y ∷ ys) h zero k = ground arith
every_pair-true (suc n) good (x ∷ xs) [] h zero k = ground arith
every_pair-true (suc n) good (x ∷ xs) (y ∷ ys) h zero k = ground arith
every_pair-true (suc n) good [] [] h (suc i) k =
    every_pair-true n good [] [] (ground arith) i (omega arith)
every_pair-true (suc n) good [] (y ∷ ys) h (suc i) k =
    every_pair-true n good [] ys (ground arith) i (omega arith)
every_pair-true (suc n) good (x ∷ xs) [] h (suc i) k =
    every_pair-true n good xs [] (ground arith) i (omega arith)
every_pair-true (suc n) good (x ∷ xs) (y ∷ ys) h (suc i) k =
    every_pair-true n good xs ys (ground arith) i (omega arith)

pub every_pair_of_all :
    (n : ℕ) (good : ℕ → ℕ → Bool) (xs ys : List ℕ)
    → ((i : ℕ) → i < n → good (get_or xs i 0) (get_or ys i 0) ≡ true)
    → every_pair n good xs ys ≡ true
unfolding every_pair
every_pair_of_all zero good xs ys h = refl
every_pair_of_all (suc n) good [] [] h =
    ground
      (arith, h 0 (omega arith), every_pair_of_all n good [] [] (λ i k. h (suc i) (omega arith)))
every_pair_of_all (suc n) good [] (y ∷ ys) h =
    ground
      (arith, h 0 (omega arith), every_pair_of_all n good [] ys (λ i k. h (suc i) (omega arith)))
every_pair_of_all (suc n) good (x ∷ xs) [] h =
    ground
      (arith, h 0 (omega arith), every_pair_of_all n good xs [] (λ i k. h (suc i) (omega arith)))
every_pair_of_all (suc n) good (x ∷ xs) (y ∷ ys) h =
    ground
      (arith, h 0 (omega arith), every_pair_of_all n good xs ys (λ i k. h (suc i) (omega arith)))

-- The scan stops at the first block that is not zero, or at the end.
pub record SkipsZero (n : ℕ) (xs : List ℕ) (i j : ℕ) : Type 0 where
  pub from : i ≤ j
  pub within : j ≤ i + n
  pub zeros : (k : ℕ) → i ≤ k → k < j → get_or xs k 0 ≡ 0
  pub stops : j < i + n → get_or xs j 0 ≢ 0

pub skip_zero_lem : (n : ℕ) (xs : List ℕ) (i : ℕ) → SkipsZero n xs i (skip_zero n xs i)
unfolding skip_zero
skip_zero_lem zero xs i = record {
  from = omega arith;
  within = omega arith;
  zeros = λ k p q. absurd (omega arith);
  stops = λ p. absurd (omega arith);
}
skip_zero_lem (suc n) xs i = elim (Bool-cases (get_or xs i 0 == 0)) [
  | inl clear ↦
      let ih = skip_zero_lem n xs (suc i) in
      rw clear (record {
        from = omega (arith, ih.from);
        within = omega (arith, ih.within);
        zeros = λ k p q. zeros_from ih (ground arith) k p q;
        stops = λ p. ih.stops (omega arith);
      })
  | inr found ↦ rw found (record {
    from = omega arith;
    within = omega arith;
    zeros = λ k p q. absurd (omega arith);
    stops = λ p. ground arith;
  })
]
  where
    zeros_from :
        SkipsZero n xs (suc i) (skip_zero n xs (suc i))
        → get_or xs i 0 ≡ 0
        → (k : ℕ) → i ≤ k
        → k < skip_zero n xs (suc i)
        → get_or xs k 0 ≡ 0
    zeros_from ih here k p q = elim (Bool-cases (k == i)) [
      | inl same ↦ let e : k ≡ i = ground arith in rw e here
      | inr other ↦ ih.zeros k (ground arith) q
    ]
