-- ===== src/Pp/Enter.antt =====
-- A vertex that `attract` of oink/src/pp.cpp takes waits in the queue.
use urss.Base.{
  ℕ, ◌<◌, ◌≡◌, ◌⊎◌, subst, arith, true, false, not, ◌&&◌, List, [], ◌∷◌, Option, if◌then◌else◌,
  ◌==◌, Bool-cases, inl, inr,
}
use urss.UintQueue
use urss.UintQueue.Stack.{contents}
use urss.Game.{outs, vertexcount}
use urss.Oink.{is_disabled}
use urss.Base.Tally.{occ}
use urss.Pp.{Pp, region_of, is_below, is_in, can_escape, take_vertex}
use urss.Pp.Region.{IsRegion, at_lem, below_lem}
use urss.Pp.Drain.{Waits, IsLower, IsDraining, still-Waits}

module _ (p cur x : ℕ) (rest : List ℕ) (s : Pp) (h : IsRegion p s) (str : Option ℕ)
    (small : x < vertexcount s.oink.game) (free : is_disabled s.oink x ≡ false)
    (low : is_below p (region_of s x) ≡ true)
    (pushed : contents (UintQueue.push s.q x) ≡ x ∷ contents s.q)
    (d : IsDraining p cur (x ∷ rest) s) where
  abbrev entered : Pp
  entered = take_vertex s p x str

  at_entered : (v : ℕ) → is_in p entered v ≡ (if v == x then true else is_in p s v)
  at_entered = at_lem p s h x str small free low

  below_entered :
      (v : ℕ)
      → is_below p (region_of entered v) ≡ (if v == x then false else is_below p (region_of s v))
  below_entered = below_lem p s h x str small free low

  escape_lem :
      (ts : List ℕ) → can_escape s p ts ≡ true → (can_escape entered p ts ≡ true) ⊎ (0 < occ x ts)
  unfolding can_escape take_vertex
  escape_lem [] c = absurd (ground (arith, c))
  escape_lem (t ∷ ts) c = elim (Bool-cases (t == x)) [
    | inl e ↦ inr (ground (arith, e))
    | inr e ↦ elim (Bool-cases (not (is_disabled s.oink t) && is_below p (region_of s t))) [
      | inl f ↦ inl (ground (arith, f, below_entered t, e))
      | inr f ↦ elim (escape_lem ts (ground (arith, c, f))) [
        | inl k ↦ inl (ground (arith, k))
        | inr k ↦ inr (omega (arith, k))
      ]
    ]
  ]

  x_waits : 0 < occ x (contents entered.q)
  unfolding take_vertex
  x_waits = rw pushed (ground arith)

  entered-Waits :
      (w v : ℕ) → (v == x) ≡ false → Waits cur (x ∷ rest) s w v → Waits cur rest entered w v
  unfolding take_vertex
  entered-Waits w v e a = elim (still-Waits cur x rest s w v e a) [
    | inl b ↦ inl (rw pushed (omega (arith, b)))
    | inr b ↦ inr b
  ]

  lower_lem : (v : ℕ) → IsLower p entered v → ((v == x) ≡ false) × IsLower p s v
  unfolding take_vertex
  lower_lem v l =
      let e : (v == x) ≡ false = ground (arith, l.low, below_entered v) in
      (
        e,
        record {
          small = l.small;
          enabled = l.enabled;
          low = ground (arith, l.low, below_entered v, e);
        },
      )

  pub enter_drain : IsDraining p cur rest entered
  unfolding take_vertex
  enter_drain = record {
    own = λ v u l m k a.
        let (e, f) = lower_lem v l in
        elim (Bool-cases (u == x)) [
          | inl i ↦
              let here : x ≡ u = ground arith in
              inl (subst (λ y. 0 < occ y (contents entered.q)) here x_waits)
          | inr i ↦ entered-Waits u v e (d.own v u f m k (ground (arith, a, at_entered u, i)))
        ];
    opponent = λ v u l m k a.
        let (e, f) = lower_lem v l in
        elim (Bool-cases (u == x)) [
          | inl i ↦
              let here : x ≡ u = ground arith in
              inr (u, k, inl (subst (λ y. 0 < occ y (contents entered.q)) here x_waits))
          | inr i ↦ elim (d.opponent v u f m k (ground (arith, a, at_entered u, i))) [
            | inr (w, b, c) ↦ inr (w, b, entered-Waits w v e c)
            | inl b ↦ elim (escape_lem (outs s.oink.game v) b) [
              | inl c ↦ inl c
              | inr c ↦ inr (x, c, inl x_waits)
            ]
          ]
        ];
  }
