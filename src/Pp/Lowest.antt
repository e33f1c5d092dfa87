-- ===== src/Pp/Lowest.antt =====
-- The second loop of `getRegionStatus` of oink/src/pp.cpp: the lowest region to escape to.
use urss.Base.{
  some_eq, ℕ, ◌≤◌, ◌<◌, ◌≡◌, ◌⊎◌, refl, ap, ◌∙◌, arith, true, false, List, [], ◌∷◌, Option, none,
  some, ◌==◌, ltb, Bool-cases, inl, inr,
}
use urss.Oink.{is_disabled}
use urss.Solver.{ok}
use urss.Base.Tally.{occ}
use urss.Pp.{Pp, region_of, is_above, is_below}
use urss.Pp.Setup.{lower_of, lower_escape, lowest_successor}

-- What is found is not above what was found before.
abbrev pub AtMost : Option ℕ → Option ℕ → Type 0
AtMost m l = (k : ℕ) → l ≡ some k → (j : ℕ) × (m ≡ some j) × (j ≤ k)

-- The region found is not above the region of this successor.
abbrev pub Covers : Pp → Option ℕ → ℕ → Type 0
Covers s m to = (j : ℕ) × (m ≡ some j) × (is_below j (region_of s to) ≡ false)

pub AtMost-through : (m k l : Option ℕ) → AtMost m k → AtMost k l → AtMost m l
AtMost-through m k l a b i e =
    let (x, f, g) = b i e in let (y, c, d) = a x f in (y, c, omega (arith, d, g))

below_le : (j k : ℕ) (r : Option ℕ) → j ≤ k → is_below k r ≡ false → is_below j r ≡ false
below_le j k none a b = absurd (ground (arith, b))
below_le j k (some r) a b = ground (arith, a, b)

pub Covers-more : (s : Pp) (m l : Option ℕ) (to : ℕ) → AtMost m l → Covers s l to → Covers s m to
Covers-more s m l to a (k, e, b) =
    let (j, c, d) = a k e in (j, c, below_le j k (region_of s to) d b)

-- A successor that the region found belongs to.
abbrev pub Found : ℕ → Pp → List ℕ → Option ℕ → Type 0
Found p s ts m =
    (to : ℕ) × (k : ℕ) × (0 < occ to ts)
    × (is_disabled s.oink to ≡ false)
    × (m ≡ some k)
    × (region_of s to ≡ some k)
    × (p < k)

below_first : (r x k : ℕ) → ltb r x ≡ true → x ≡ k → r ≤ k
below_first r x k a e = ground (arith, a, e)

lower_of_lem :
    (r : ℕ) (l : Option ℕ)
    → AtMost (lower_of r l) l
      × ((j : ℕ) × (lower_of r l ≡ some j) × (j ≤ r))
      × ((lower_of r l ≡ l) ⊎ (lower_of r l ≡ some r))
lower_of_lem r none = (λ k e. absurd (ground (arith, e)), (r, refl, omega arith), inr refl)
lower_of_lem r (some x) = elim (Bool-cases (ltb r x)) [
  | inl a ↦
      rw a (λ k e. (r, refl, below_first r x k a (some_eq x k e)), (r, refl, omega arith), inr refl)
  | inr a ↦
      rw a (λ k e. (x, refl, omega (arith, some_eq x k e)), (x, refl, ground (arith, a)), inl refl)
]

-- What a loop over the successors `ts`, from `l`, finds.
pub record Lowest (p : ℕ) (s : Pp) (ts : List ℕ) (l m : Option ℕ) : Type 0 where
  pub at_most : AtMost m l
  pub covers :
      (to : ℕ)
      → 0 < occ to ts
      → is_disabled s.oink to ≡ false
      → is_above p (region_of s to) ≡ true
      → Covers s m to
  pub source : (m ≡ l) ⊎ Found p s ts m

only_lem : (v to : ℕ) → 0 < occ v (to ∷ []) → v ≡ to
only_lem v to k = ground (arith, k)

not_below : (j r : ℕ) → j ≤ r → is_below j (some r) ≡ false
not_below j r e = ground (arith, e)

-- One successor.
step_lem :
    (p : ℕ) (s : Pp) (to : ℕ) (l : Option ℕ)
    → is_disabled s.oink to ≡ false
    → (r : Option ℕ) → region_of s to ≡ r
    → is_below p r ≡ false
    → (m : Option ℕ) × (lower_escape p r l ≡ ok m) × Lowest p s (to ∷ []) l m
unfolding lower_escape
step_lem p s to l free none here b = absurd (ground (arith, b))
step_lem p s to l free (some r) here b = elim (Bool-cases (ltb p r)) [
  | inl a ↦
      let (c, (j, d, e), f) = lower_of_lem r l in
      (
        lower_of r l,
        rw a refl,
        record {
          at_most = c;
          covers = λ v k g i.
              let same_v : v ≡ to = only_lem v to k in
              (j, d, ap (is_below j) (ap (region_of s) same_v ∙ here) ∙ not_below j r e);
          source = elim f [
            | inl g ↦ inl g
            | inr g ↦ inr (to, r, ground arith, free, g, here, ground (arith, a))
          ];
        },
      )
  | inr a ↦
      let e : ltb r p ≡ false = b in
      (
        l,
        rw (a, e) refl,
        record {
          at_most = λ k e. (k, e, omega arith);
          covers = λ v k g i.
              let same_v : v ≡ to = only_lem v to k in
              absurd (ground (arith, i, a, ap (is_above p) (ap (region_of s) same_v ∙ here)));
          source = inl refl;
        },
      )
]

pub lowest_successor_lem :
    (p : ℕ) (s : Pp) (ts : List ℕ) (l : Option ℕ)
    → ((to : ℕ)
        → 0 < occ to ts
        → is_disabled s.oink to ≡ false
        → is_below p (region_of s to) ≡ false)
    → (m : Option ℕ) × (lowest_successor p s ts l ≡ ok m) × Lowest p s ts l m
unfolding lowest_successor
lowest_successor_lem p s [] l h = (
  l,
  refl,
  record {
    at_most = λ k e. (k, e, omega arith);
    covers = λ v k g i. absurd (omega (arith, k));
    source = inl refl;
  },
)
lowest_successor_lem p s (to ∷ ts) l h = elim (Bool-cases (is_disabled s.oink to)) [
  | inl d ↦
      let (m, a, b) = lowest_successor_lem p s ts l (λ v k. h v (omega (arith, k))) in
      (
        m,
        rw (lowest_successor, d) a,
        record {
          at_most = b.at_most;
          covers = λ v k g i.
              b.covers v (ground (arith, k, g, d, ap (is_disabled s.oink) {x = to} {y = v})) g i;
          source = elim b.source [
            | inl c ↦ inl c
            | inr (v, r, c, e, f, i, j) ↦ inr (v, r, omega (arith, c), e, f, i, j)
          ];
        },
      )
  | inr d ↦
      let (k, a, b) = step_lem p s to l d (region_of s to) refl (h to (ground arith) d) in
      let (m, c, e) = lowest_successor_lem p s ts k (λ v i. h v (omega (arith, i))) in
      (
        m,
        rw (lowest_successor, d, a) c,
        record {
          at_most = AtMost-through m k l e.at_most b.at_most;
          covers = λ v i g j. elim (Bool-cases (to == v)) [
            | inl f ↦ Covers-more s m k v e.at_most (b.covers v (ground (arith, f)) g j)
            | inr f ↦ e.covers v (ground (arith, i, f)) g j
          ];
          source = elim e.source [
            | inr (v, r, f, g, i, j, n) ↦ inr (v, r, omega (arith, f), g, i, j, n)
            | inl f ↦ elim b.source [
              | inl g ↦ inl (f ∙ g)
              | inr (v, r, g, i, j, n, q) ↦ inr (v, r, ground (arith, g), i, f ∙ j, n, q)
            ]
          ];
        },
      )
]
