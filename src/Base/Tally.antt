-- ===== src/Base/Tally.antt =====
-- Counting in lists, and the flags that are not yet set.
use urss.Base.{
  ℕ, zero, suc, ◌+◌, ◌≤◌, ◌<◌, ◌≡◌, ◌≢◌, refl, sym, ap, ◌∙◌, arith, Bool, true, false, List, [],
  ◌∷◌, ◌++◌, if◌then◌else◌, ◌==◌, length, get_or, set, Bool-cases, inl, inr,
}

-- How many members of a list have a property.
abbrev pub tally : (ℕ → Bool) → List ℕ → ℕ
tally p [] = 0
tally p (t ∷ ts) = (if p t then 1 else 0) + tally p ts

-- How often a number stands in a list.
abbrev pub occ : ℕ → List ℕ → ℕ
occ u [] = 0
occ u (t ∷ ts) = (if t == u then 1 else 0) + occ u ts

pub tally-le : (p : ℕ → Bool) (ts : List ℕ) → tally p ts ≤ length ts
tally-le p [] = omega arith
tally-le p (t ∷ ts) = ground (arith, tally-le p ts)

pub false_of_tally :
    (p : ℕ → Bool) (ts : List ℕ) (u : ℕ) → tally p ts ≡ 0 → 0 < occ u ts → p u ≡ false
false_of_tally p [] u h k = absurd (omega arith)
false_of_tally p (t ∷ ts) u h k = elim (Bool-cases (t == u)) [
  | inl e ↦ let here : t ≡ u = ground arith in ap p (sym here) ∙ ground arith
  | inr e ↦ false_of_tally p ts u (ground arith) (ground arith)
]

pub tally_ext : (p q : ℕ → Bool) (ts : List ℕ) → ((u : ℕ) → p u ≡ q u) → tally p ts ≡ tally q ts
tally_ext p q [] h = refl
tally_ext p q (t ∷ ts) h = ground (arith, h t, tally_ext p q ts h)

-- A property that is lost by one number alone.
pub tally_drop :
    (p q : ℕ → Bool) (v : ℕ) (ts : List ℕ)
    → p v ≡ true
    → q v ≡ false
    → ((u : ℕ) → u ≢ v → p u ≡ q u)
    → tally p ts ≡ tally q ts + occ v ts
tally_drop p q v [] a b h = omega arith
tally_drop p q v (t ∷ ts) a b h =
    let ih = tally_drop p q v ts a b h in
    elim (Bool-cases (t == v)) [
      | inl e ↦ let here : t ≡ v = ground arith in ground (arith, ih, ap p here, ap q here)
      | inr e ↦ ground (arith, ih, h t (ground arith))
    ]

-- The flags that are not set.
abbrev pub unset : List Bool → ℕ
unset [] = 0
unset (b ∷ bs) = (if b then 0 else 1) + unset bs

pub unset-set :
    (bs : List Bool) (i : ℕ)
    → i < length bs
    → get_or bs i false ≡ false
    → unset (set bs i true) + 1 ≡ unset bs
unset-set [] i h e = absurd (omega arith)
unset-set (b ∷ bs) zero h e = rw e (omega arith)
unset-set (true ∷ bs) (suc i) h e = omega (arith, unset-set bs i (omega arith) e)
unset-set (false ∷ bs) (suc i) h e = omega (arith, unset-set bs i (omega arith) e)

-- No number stands in the list twice.
abbrev pub Distinct : List ℕ → Type 0
Distinct [] = Unit
Distinct (t ∷ ts) = (occ t ts ≡ 0) × Distinct ts

pub occ-append : (v : ℕ) (xs ys : List ℕ) → occ v (xs ++ ys) ≡ occ v xs + occ v ys
occ-append v [] ys = omega arith
occ-append v (x ∷ xs) ys = omega (arith, occ-append v xs ys)

-- Lists that share no number.
pub Distinct-append :
    (xs ys : List ℕ)
    → Distinct xs
    → Distinct ys
    → ((v : ℕ) → 0 < occ v xs → occ v ys ≡ 0)
    → Distinct (xs ++ ys)
Distinct-append [] ys a b c = b
Distinct-append (x ∷ xs) ys (a, d) b c = (
  omega (arith, occ-append x xs ys, a, c x (ground arith)),
  Distinct-append xs ys d b (λ v k. c v (omega (arith, k))),
)
