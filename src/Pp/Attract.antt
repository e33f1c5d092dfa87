-- ===== src/Pp/Attract.antt =====
-- The loops of `attract` of oink/src/pp.cpp end, and keep the region.
use urss.Base.{
  ℕ, ◌≡◌, refl, ◌∙◌, arith, true, false, not, ◌&&◌, ◌||◌, set, List, [], ◌∷◌, none, some,
  Bool-cases, inl, inr,
}
use urss.Game.{owner_of, outs}
use urss.Oink.{same, is_odd, is_disabled}
use urss.Pp.{
  Pp, region_of, strategy_of, is_above, is_below, is_at, is_none, can_escape, attract_from,
  attract_to, take_vertex,
}
use urss.Pp.Below.{at_not_below, above_not_below, is_in-of, not_escape, below_of}
use urss.Pp.Drain.{IsDraining, mark_drain, skip_drain, escape_drain}
use urss.Pp.Enter.{enter_drain}
use urss.Pp.Grow.{queue_lem, IsGrowing, work, head_lem, skip_lem, mark_lem, take_lem, work_lem}

module _ (p : ℕ) (start : Pp) (cur x : ℕ) (rest : List ℕ) (s : Pp)
    (h : IsGrowing p start cur (x ∷ rest) s) (free : is_disabled s.oink x ≡ false)
    (low : is_below p (region_of s x) ≡ true) (d : IsDraining p cur (x ∷ rest) s) where
  abbrev Goes : Pp → Type 0
  Goes t = IsGrowing p start cur rest t × IsDraining p cur rest t × (work p t ≡ work p s)

  choice_lem : same (owner_of s.oink.game x) (is_odd p) ≡ true → Goes (take_vertex s p x (some cur))
  choice_lem mine =
      let (i, j, k) = head_lem p start cur x rest s h in
      (
        take_lem p start cur x rest s h (some cur) free low (λ m. (cur, refl, j, k))
            (λ m. absurd (ground (arith, m, mine))),
        enter_drain p cur x rest s h.region (some cur) i free low
            (queue_lem p start cur x rest s h (some cur) free low (λ m. (cur, refl, j, k))
              (λ m. absurd (ground (arith, m, mine))))
            d,
        work_lem p start cur x rest s h (some cur) free low (λ m. (cur, refl, j, k))
            (λ m. absurd (ground (arith, m, mine))),
      )

  force_lem :
      same (owner_of s.oink.game x) (is_odd p) ≡ false
      → can_escape s p (outs s.oink.game x) ≡ false
      → Goes (take_vertex s p x none)
  force_lem theirs shut = (
    take_lem p start cur x rest s h none free low (λ m. absurd (ground (arith, m, theirs)))
        (λ m to. not_escape s p (outs s.oink.game x) to shut),
    enter_drain p cur x rest s h.region none (head_lem p start cur x rest s h).0 free low
        (queue_lem p start cur x rest s h none free low (λ m. absurd (ground (arith, m, theirs)))
          (λ m to. not_escape s p (outs s.oink.game x) to shut))
        d,
    work_lem p start cur x rest s h none free low (λ m. absurd (ground (arith, m, theirs)))
        (λ m to. not_escape s p (outs s.oink.game x) to shut),
  )

above_busy :
    (s : Pp) (p x : ℕ)
    → (is_disabled s.oink x || is_above p (region_of s x)) ≡ true
    → (is_disabled s.oink x || not (is_below p (region_of s x))) ≡ true
above_busy s p x a = elim (Bool-cases (is_disabled s.oink x)) [
  | inl e ↦ ground (arith, e)
  | inr e ↦ ground (arith, above_not_below p (region_of s x) (ground (arith, a, e)))
]

at_busy :
    (s : Pp) (p x : ℕ)
    → is_at p (region_of s x) ≡ true
    → (is_disabled s.oink x || not (is_below p (region_of s x))) ≡ true
at_busy s p x a = ground (arith, at_not_below p (region_of s x) a)

-- One predecessor.
attract_from_lem :
    (p : ℕ) (start : Pp) (cur x : ℕ) (rest : List ℕ) (s : Pp)
    → IsGrowing p start cur (x ∷ rest) s
    → IsDraining p cur (x ∷ rest) s
    → IsGrowing p start cur rest (attract_from p cur s x)
      × IsDraining p cur rest (attract_from p cur s x)
      × (work p (attract_from p cur s x) ≡ work p s)
unfolding attract_from
attract_from_lem p start cur x rest s h d =
    elim (Bool-cases (is_disabled s.oink x || is_above p (region_of s x))) [
      | inl a ↦
          rw a (
            skip_lem p start cur x rest s h,
            skip_drain p cur x rest s d (above_busy s p x a),
            refl,
          )
      | inr a ↦ elim (Bool-cases (is_at p (region_of s x))) [
        | inl b ↦
            elim (Bool-cases
              (same (owner_of s.oink.game x) (is_odd p) && is_none (strategy_of s x))) [
                | inl c ↦
                    rw (a, b, c)
                      (
                        mark_lem p start cur x rest s h (is_in-of p s x b (ground (arith, a)))
                            (ground (arith, c)),
                        mark_drain p cur rest s (set s.strategy x (some cur))
                            (skip_drain p cur x rest s d (at_busy s p x b)),
                        refl,
                      )
                | inr c ↦
                    rw (a, b, c)
                      (
                        skip_lem p start cur x rest s h,
                        skip_drain p cur x rest s d (at_busy s p x b),
                        refl,
                      )
              ]
        | inr b ↦
            let free : is_disabled s.oink x ≡ false = ground (arith, a) in
            let low = below_of p (region_of s x) (ground (arith, a)) b in
            elim (Bool-cases (same (owner_of s.oink.game x) (is_odd p))) [
              | inl c ↦ rw (a, b, c) (choice_lem p start cur x rest s h free low d c)
              | inr c ↦ elim (Bool-cases (can_escape s p (outs s.oink.game x))) [
                | inl e ↦
                    rw (a, b, c, e)
                      (skip_lem p start cur x rest s h, escape_drain p cur x rest s d c e, refl)
                | inr e ↦ rw (a, b, c, e) (force_lem p start cur x rest s h free low d c e)
              ]
            ]
      ]
    ]

pub attract_to_lem :
    (p : ℕ) (start : Pp) (cur : ℕ) (rest : List ℕ) (s : Pp)
    → IsGrowing p start cur rest s
    → IsDraining p cur rest s
    → IsGrowing p start cur [] (attract_to p cur s rest)
      × IsDraining p cur [] (attract_to p cur s rest)
      × (work p (attract_to p cur s rest) ≡ work p s)
unfolding attract_to
attract_to_lem p start cur [] s h d = (h, d, refl)
attract_to_lem p start cur (x ∷ rest) s h d =
    let (a, b, e) = attract_from_lem p start cur x rest s h d in
    let (f, g, k) = attract_to_lem p start cur rest (attract_from p cur s x) a b in (f, g, k ∙ e)
