-- ===== src/Game/Ins/Put.antt =====
-- One assignment of the third loop of `build_in_array`: a source is put before a block.
use urss.Base.{
  ℕ, suc, ◌+◌, ◌-◌, ◌<◌, ◌≡◌, refl, sym, subst, ap, ◌∙◌, arith, List, ◌∷◌, some, false, ltb, ◌⊎◌,
  if◌then◌else◌, ◌==◌, length, get_or, set, length-set, get_or-set, drop, Bool-cases, inl, inr,
}
use urss.Base.Tally.{occ}
use urss.Game.{InArray, until_end}
use urss.Game.Ins.Segment.{Holds, Holds-set, Holds-extend, until_end-Holds}

-- The sources found so far for a vertex.
abbrev pub sources : InArray → ℕ → List ℕ
sources a u = until_end (drop (get_or a.firstins u 0) a.edges)

-- One assignment `_inedges[--_firstins[t]] = v`.
abbrev pub put : ℕ → ℕ → InArray → InArray
put v t a = record a {
  firstins = set a.firstins t (get_or a.firstins t 0 - 1);
  edges = set a.edges (get_or a.firstins t 0 - 1) (some v);
}

-- `n` vertices, each with its block, in which `rem` sources are still to be put.
module _ (n : ℕ) (start c : ℕ → ℕ) (apart : (u w : ℕ) → u < w → start u + c u < start w) where
  pub record IsFilling (rem : ℕ → ℕ) (a : InArray) : Type 0 where
    pub size : length a.firstins ≡ n
    pub fits : (u : ℕ) → u < n → start u + c u < length a.edges
    pub pos : (u : ℕ) → u < n → get_or a.firstins u 0 ≡ start u + rem u
    pub holds : (u : ℕ) → u < n → Holds a.edges (get_or a.firstins u 0) (sources a u)
    pub len : (u : ℕ) → u < n → rem u + length (sources a u) ≡ c u

  module _ (rem rem' : ℕ → ℕ) (v t : ℕ) (a : InArray) (h : IsFilling rem a) (small : t < n)
      (one : rem t ≡ rem' t + 1) (same : (u : ℕ) → (u == t) ≡ false → rem u ≡ rem' u) where
    firstins-put :
        (u : ℕ)
        → get_or (put v t a).firstins u 0
          ≡ (if u == t then start t + rem' t else get_or a.firstins u 0)
    firstins-put u =
        get_or-set a.firstins t u (get_or a.firstins t 0 - 1) 0 (omega (arith, h.size))
        ∙ ground (arith, h.pos t small, one)

    fits_here : start t + rem' t < length a.edges
    fits_here = omega (arith, h.fits t small, h.len t small, one)

    edges-put : (put v t a).edges ≡ set a.edges (start t + rem' t) (some v)
    edges-put =
        let e : get_or a.firstins t 0 - 1 ≡ start t + rem' t = omega (arith, h.pos t small, one) in
        ap (λ i. set a.edges i (some v)) e

    holds_here : Holds (put v t a).edges (start t + rem' t) (v ∷ sources a t)
    holds_here =
        let e : get_or a.firstins t 0 ≡ suc (start t + rem' t) =
          omega (arith, h.pos t small, one) in
        subst (λ es. Holds es (start t + rem' t) (v ∷ sources a t)) (sym edges-put)
          (Holds-extend a.edges v (start t + rem' t) (sources a t) fits_here
            (subst (λ p. Holds a.edges p (sources a t)) e (h.holds t small)))

    away_from :
        (u : ℕ)
        → u < n
        → (u == t) ≡ false
        → (start t + rem' t < get_or a.firstins u 0)
          ⊎ (get_or a.firstins u 0 + length (sources a u) < start t + rem' t)
    away_from u k e = elim (Bool-cases (ltb t u)) [
      | inl i ↦ inl (omega (arith, h.pos u k, h.len t small, one, apart t u (ground (arith, i))))
      | inr i ↦ inr (omega (arith, h.pos u k, h.len u k, apart u t (ground (arith, i, e))))
    ]

    holds_other :
        (u : ℕ)
        → u < n
        → (u == t) ≡ false
        → Holds (put v t a).edges (get_or a.firstins u 0) (sources a u)
    holds_other u k e =
        subst (λ es. Holds es (get_or a.firstins u 0) (sources a u)) (sym edges-put)
          (Holds-set a.edges (start t + rem' t) (some v) (get_or a.firstins u 0) (sources a u)
            fits_here (away_from u k e) (h.holds u k))

    first_here : get_or (put v t a).firstins t 0 ≡ start t + rem' t
    first_here = ground (arith, firstins-put t)

    first_other :
        (u : ℕ) → (u == t) ≡ false → get_or (put v t a).firstins u 0 ≡ get_or a.firstins u 0
    first_other u e = firstins-put u ∙ rw e refl

    sources_here : sources (put v t a) t ≡ v ∷ sources a t
    sources_here =
        ap (λ p. until_end (drop p (put v t a).edges)) first_here
        ∙ until_end-Holds (put v t a).edges (start t + rem' t) (v ∷ sources a t) holds_here

    sources_other : (u : ℕ) → u < n → (u == t) ≡ false → sources (put v t a) u ≡ sources a u
    sources_other u k e =
        ap (λ p. until_end (drop p (put v t a).edges)) (first_other u e)
        ∙ until_end-Holds (put v t a).edges (get_or a.firstins u 0) (sources a u)
            (holds_other u k e)

    pub put-IsFilling : IsFilling rem' (put v t a)
    put-IsFilling = record {
      size = length-set a.firstins t (get_or a.firstins t 0 - 1) ∙ h.size;
      fits =
          λ u k. omega (arith, h.fits u k, length-set a.edges (get_or a.firstins t 0 - 1) (some v));
      pos = λ u k. elim (Bool-cases (u == t)) [
        | inl e ↦
            let here : t ≡ u = ground arith in
            subst (λ z. get_or (put v t a).firstins z 0 ≡ start z + rem' z) here first_here
        | inr e ↦ omega (arith, first_other u e, h.pos u k, same u e)
      ];
      holds = λ u k. elim (Bool-cases (u == t)) [
        | inl e ↦
            let here : t ≡ u = ground arith in
            subst
              (λ z.
                Holds (put v t a).edges (get_or (put v t a).firstins z 0) (sources (put v t a) z))
              here
              (subst (λ p. Holds (put v t a).edges p (sources (put v t a) t)) (sym first_here)
                (subst (Holds (put v t a).edges (start t + rem' t)) (sym sources_here) holds_here))
        | inr e ↦
            subst (λ p. Holds (put v t a).edges p (sources (put v t a) u)) (sym (first_other u e))
              (subst (Holds (put v t a).edges (get_or a.firstins u 0)) (sym (sources_other u k e))
                (holds_other u k e))
      ];
      len = λ u k. elim (Bool-cases (u == t)) [
        | inl e ↦
            let here : t ≡ u = ground arith in
            subst (λ z. rem' z + length (sources (put v t a) z) ≡ c z) here
              (omega (arith, ap length sources_here, h.len t small, one))
        | inr e ↦ omega (arith, ap length (sources_other u k e), h.len u k, same u e)
      ];
    }

    pub occ-put :
        (x u : ℕ)
        → u < n
        → occ x (sources (put v t a) u)
          ≡ occ x (sources a u) + (if u == t then (if v == x then 1 else 0) else 0)
    occ-put x u k = elim (Bool-cases (u == t)) [
      | inl e ↦
          let here : t ≡ u = ground arith in
          subst
            (λ z.
              occ x (sources (put v t a) z)
              ≡ occ x (sources a z) + (if z == t then (if v == x then 1 else 0) else 0))
            here (ap (occ x) sources_here ∙ ground arith)
      | inr e ↦ ap (occ x) (sources_other u k e) ∙ ground (arith, e)
    ]
