-- ===== src/Game/Ins/Segment.antt =====
-- Segments of an edge array: entries up to an end mark.
use urss.Base.{
  ℕ, zero, suc, ◌+◌, ◌<◌, ◌≡◌, ◌⊎◌, inl, inr, refl, ap, ◌∙◌, arith, List, [], ◌∷◌, Option, none,
  some, length, get_or, set, get_or-set, drop,
}
use urss.Game.{until_end}

-- From index `p` on stand the numbers `ts`, and then an end mark.
abbrev pub Holds : List (Option ℕ) → ℕ → List ℕ → Type 0
Holds es p [] = get_or es p none ≡ none
Holds es p (t ∷ ts) = (get_or es p none ≡ some t) × Holds es (suc p) ts

abbrev pub from_entry : Option ℕ → List ℕ → List ℕ
from_entry none rest = []
from_entry (some t) rest = t ∷ rest

until_end-drop :
    (es : List (Option ℕ)) (p : ℕ)
    → until_end (drop p es) ≡ from_entry (get_or es p none) (until_end (drop (suc p) es))
unfolding until_end
until_end-drop [] zero = refl
until_end-drop [] (suc p) = refl
until_end-drop (none ∷ es) zero = refl
until_end-drop (some t ∷ es) zero = refl
until_end-drop (e ∷ es) (suc p) = until_end-drop es p

pub until_end-Holds :
    (es : List (Option ℕ)) (p : ℕ) (ts : List ℕ) → Holds es p ts → until_end (drop p es) ≡ ts
until_end-Holds es p [] h =
    until_end-drop es p ∙ ap (λ e. from_entry e (until_end (drop (suc p) es))) h
until_end-Holds es p (t ∷ ts) (h, k) =
    until_end-drop es p
    ∙ ap (λ e. from_entry e (until_end (drop (suc p) es))) h
    ∙ ap (λ rest. t ∷ rest) (until_end-Holds es (suc p) ts k)

-- A write outside a segment leaves it.
pub Holds-set :
    (es : List (Option ℕ)) (q : ℕ) (e : Option ℕ) (p : ℕ) (ts : List ℕ)
    → q < length es
    → (q < p) ⊎ (p + length ts < q)
    → Holds es p ts
    → Holds (set es q e) p ts
Holds-set es q e p [] k away h = rw (get_or-set es q p e none k) (ground (arith, away, h))
Holds-set es q e p (t ∷ ts) k away (h, rest) = (
  rw (get_or-set es q p e none k) (ground (arith, away, h)),
  Holds-set es q e (suc p) ts k
      (elim away [ inl a ↦ inl (omega arith) | inr a ↦ inr (omega arith) ]) rest,
)

-- A write just before a segment extends it.
pub Holds-extend :
    (es : List (Option ℕ)) (v p : ℕ) (ts : List ℕ)
    → p < length es
    → Holds es (suc p) ts
    → Holds (set es p (some v)) p (v ∷ ts)
Holds-extend es v p ts k h = (
  rw (get_or-set es p p (some v) none k) (ground arith),
  Holds-set es p (some v) (suc p) ts k (inl (omega arith)) h,
)
