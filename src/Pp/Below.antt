-- ===== src/Pp/Below.antt =====
-- The tests of `PPSolver` on the region of a vertex, and the vertices below a region.
use urss.Base.{
  ℕ, zero, suc, ◌+◌, ◌<◌, ◌≤◌, ◌≡◌, refl, subst, ap, ◌∙◌, arith, Bool, true, false, not, ◌&&◌, List,
  [], ◌∷◌, Option, none, some, if◌then◌else◌, ◌==◌, ltb, length, get_or, set, length-set,
  get_or-out, get_or-set_other, Bool-cases, inl, inr,
}
use urss.Game.{vertexcount}
use urss.Oink.{is_disabled}
use urss.Base.Tally.{occ, Distinct}
use urss.Pp.{Pp, region_of, is_above, is_below, is_at, is_in, can_escape}

-- Vertices that may still enter the region.
unfoldable pub lower : ℕ → List (Option ℕ) → ℕ
lower p [] = 0
lower p (r ∷ rs) = (if is_below p r then 1 else 0) + lower p rs

pub lower-set :
    (p : ℕ) (rs : List (Option ℕ)) (v : ℕ)
    → v < length rs
    → is_below p (get_or rs v none) ≡ true
    → lower p (set rs v (some p)) + 1 ≡ lower p rs
unfolding lower
lower-set p [] v h b = absurd (omega arith)
lower-set p (r ∷ rs) zero h b =
    let e : is_below p (some p) ≡ false = ground arith in rw (b, e) (omega arith)
lower-set p (r ∷ rs) (suc v) h b = omega (arith, lower-set p rs v (omega arith) b)

pub not_escape :
    (s : Pp) (p : ℕ) (ts : List ℕ) (to : ℕ)
    → can_escape s p ts ≡ false
    → 0 < occ to ts
    → is_disabled s.oink to ≡ false
    → is_below p (region_of s to) ≡ false
unfolding can_escape
not_escape s p [] to h k d = absurd (omega arith)
not_escape s p (t ∷ ts) to h k d = elim (Bool-cases (t == to)) [
  | inl e ↦
      let here : t ≡ to = ground arith in
      subst (λ x. is_disabled s.oink x ≡ false → is_below p (region_of s x) ≡ false) here
        (λ f. ground (arith, h, f)) d
  | inr e ↦ not_escape s p ts to (ground (arith, h)) (ground (arith, k, e)) d
]

pub below_of :
    (p : ℕ) (r : Option ℕ) → is_above p r ≡ false → is_at p r ≡ false → is_below p r ≡ true
below_of p none a b = refl
below_of p (some r) a b = ground (arith, a, b)

pub at_not_below : (p : ℕ) (r : Option ℕ) → is_at p r ≡ true → is_below p r ≡ false
at_not_below p none a = absurd (ground (arith, a))
at_not_below p (some r) a = ground (arith, a)

pub above_not_below : (p : ℕ) (r : Option ℕ) → is_above p r ≡ true → is_below p r ≡ false
above_not_below p none a = absurd (ground (arith, a))
above_not_below p (some r) a = ground (arith, a)

pub at_if :
    (p : ℕ) (b : Bool) (r : Option ℕ)
    → is_at p (if b then some p else r) ≡ (if b then true else is_at p r)
at_if p true r = ground arith
at_if p false r = refl

pub below_if :
    (p : ℕ) (b : Bool) (r : Option ℕ)
    → is_below p (if b then some p else r) ≡ (if b then false else is_below p r)
below_if p true r = ground arith
below_if p false r = refl

pub in_at : (p : ℕ) (s : Pp) (v : ℕ) → is_in p s v ≡ true → is_at p (region_of s v) ≡ true
in_at p s v h = ground (arith, h)

pub in_free : (p : ℕ) (s : Pp) (v : ℕ) → is_in p s v ≡ true → is_disabled s.oink v ≡ false
in_free p s v h = ground (arith, h)

pub is_in-of :
    (p : ℕ) (s : Pp) (v : ℕ)
    → is_at p (region_of s v) ≡ true
    → is_disabled s.oink v ≡ false
    → is_in p s v ≡ true
is_in-of p s v a d = rw (a, d) refl

pub at_small :
    (p : ℕ) (s : Pp) (v : ℕ)
    → length s.region ≡ vertexcount s.oink.game
    → is_in p s v ≡ true
    → v < vertexcount s.oink.game
at_small p s v size a = elim (Bool-cases (ltb v (vertexcount s.oink.game))) [
  | inl e ↦ ground (arith, e)
  | inr e ↦
      let out : region_of s v ≡ none = get_or-out s.region v none (ground (arith, e, size)) in
      absurd (ground (arith, in_at p s v a, ap (is_at p) out))
]

-- The entry of a disabled vertex does not count.
pub clear_in :
    (p : ℕ) (s : Pp) (j : ℕ) (v : ℕ)
    → is_disabled s.oink j ≡ true
    → is_in p (record s { region = set s.region j none }) v ≡ is_in p s v
clear_in p s j v d = elim (Bool-cases (v == j)) [
  | inl e ↦
      let here : j ≡ v = ground (arith, e) in
      let f : is_disabled s.oink v ≡ true = subst (λ x. is_disabled s.oink x ≡ true) here d in
      ground (arith, f)
  | inr e ↦
      ap (λ o. is_at p o && not (is_disabled s.oink v)) (get_or-set_other s.region j v none none e)
]

lower_le : (p : ℕ) (rs : List (Option ℕ)) → lower p rs ≤ length rs
unfolding lower
lower_le p [] = omega arith
lower_le p (r ∷ rs) = elim (Bool-cases (is_below p r)) [
  | inl e ↦ rw e (omega (arith, lower_le p rs))
  | inr e ↦ rw e (omega (arith, lower_le p rs))
]

lower-clear :
    (p : ℕ) (rs : List (Option ℕ)) (v : ℕ)
    → v < length rs
    → is_below p (get_or rs v none) ≡ false
    → lower p (set rs v none) ≡ lower p rs + 1
unfolding lower
lower-clear p [] v h b = absurd (omega arith)
lower-clear p (r ∷ rs) zero h b = rw b (omega arith)
lower-clear p (r ∷ rs) (suc v) h b = omega (arith, lower-clear p rs v (omega arith) b)

-- The vertices of a list that are not below the region, and those below it.
pub length-lower :
    (p : ℕ) (xs : List ℕ) (rs : List (Option ℕ))
    → Distinct xs
    → ((v : ℕ) → 0 < occ v xs → (v < length rs) × (is_below p (get_or rs v none) ≡ false))
    → length xs + lower p rs ≤ length rs
length-lower p [] rs d h = omega (arith, lower_le p rs)
length-lower p (x ∷ xs) rs (a, d) h =
    let (small, high) = h x (ground arith) in
    let rest = length-lower p xs (set rs x none) d (λ v k.
      let (b, c) = h v (omega (arith, k)) in
      let e : (v == x) ≡ false = ground (arith, k, a, ap (λ y. occ y xs) {x = v} {y = x}) in
      (
        omega (arith, length-set rs x none, b),
        ap (is_below p) (get_or-set_other rs x v none none e) ∙ c,
      )) in
    omega (arith, rest, lower-clear p rs x small high, length-set rs x none)
