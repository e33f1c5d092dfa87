-- ===== src/Pp/Region.antt =====
-- What a region of `PPSolver` is, and how it grows.
use urss.Base.{
  some_eq, ℕ, ◌+◌, ◌≤◌, ◌<◌, ◌≡◌, refl, sym, subst, ap, ◌∙◌, arith, true, false, [], ◌∷◌, ◌++◌,
  Option, none, some, if◌then◌else◌, ◌==◌, ltb, length, length-set, length-append, get_or-set,
  Bool-cases, inl, inr,
}
use urss.Game.{owner_of, priority_of, outs, vertexcount}
use urss.Oink.{same, is_odd, is_disabled}
use urss.Base.Tally.{occ, occ-append, Distinct, Distinct-append}
use urss.Pp.{Pp, region_of, strategy_of, members, is_below, is_at, is_in, is_none, take_vertex}
use urss.Pp.Below.{lower, lower-set, at_not_below, at_if, below_if, in_at, is_in-of}

-- The region `p`: its vertices are listed and not disabled. A vertex of the player of the parity moves
-- inside it, unless it has the priority and no move yet. The moves of the other vertices of another
-- priority lead to it or above.
pub record IsRegion (p : ℕ) (s : Pp) : Type 0 where
  pub region_size : length s.region ≡ vertexcount s.oink.game
  pub strategy_size : length s.strategy ≡ vertexcount s.oink.game
  pub few : p < length s.regions
  -- The vertices of the region and those that may enter it are vertices of the game.
  pub sized : length (members s p) + lower p s.region ≤ vertexcount s.oink.game
  pub distinct : Distinct (members s p)
  pub exact : (v : ℕ) → ltb 0 (occ v (members s p)) ≡ is_in p s v
  pub chosen :
      (v u : ℕ)
      → is_in p s v ≡ true
      → same (owner_of s.oink.game v) (is_odd p) ≡ true
      → strategy_of s v ≡ some u
      → (0 < occ u (outs s.oink.game v)) × (is_in p s u ≡ true)
  pub based :
      (v : ℕ)
      → is_in p s v ≡ true
      → same (owner_of s.oink.game v) (is_odd p) ≡ true
      → (priority_of s.oink.game v == p) ≡ false
      → is_none (strategy_of s v) ≡ false
  pub forced :
      (v to : ℕ)
      → is_in p s v ≡ true
      → same (owner_of s.oink.game v) (is_odd p) ≡ false
      → (priority_of s.oink.game v == p) ≡ false
      → 0 < occ to (outs s.oink.game v)
      → is_disabled s.oink to ≡ false
      → is_below p (region_of s to) ≡ false

module _ (p : ℕ) (s : Pp) (h : IsRegion p s) (x : ℕ) (str : Option ℕ)
    (small : x < vertexcount s.oink.game) (free : is_disabled s.oink x ≡ false)
    (low : is_below p (region_of s x) ≡ true) where
  abbrev pub taken : Pp
  taken = take_vertex s p x str

  region_lem : (v : ℕ) → region_of taken v ≡ (if v == x then some p else region_of s v)
  unfolding take_vertex
  region_lem v = get_or-set s.region x v (some p) none (omega (arith, h.region_size, small))

  at_region :
      (v : ℕ) → is_at p (region_of taken v) ≡ (if v == x then true else is_at p (region_of s v))
  at_region v = ap (is_at p) (region_lem v) ∙ at_if p (v == x) (region_of s v)

  disabled_lem : (v : ℕ) → is_disabled taken.oink v ≡ is_disabled s.oink v
  unfolding take_vertex
  disabled_lem v = refl

  pub at_lem : (v : ℕ) → is_in p taken v ≡ (if v == x then true else is_in p s v)
  at_lem v = elim (Bool-cases (v == x)) [
    | inl e ↦
        let here : x ≡ v = ground arith in
        let on : is_disabled s.oink v ≡ false =
          subst (λ k. is_disabled s.oink k ≡ false) here free in
        let a : is_at p (region_of taken v) ≡ true = at_region v ∙ rw e refl in
        is_in-of p taken v a (disabled_lem v ∙ on) ∙ rw e refl
    | inr e ↦
        let a : is_at p (region_of taken v) ≡ is_at p (region_of s v) = at_region v ∙ rw e refl in
        rw (a, disabled_lem v, e) refl
  ]

  pub below_lem :
      (v : ℕ)
      → is_below p (region_of taken v) ≡ (if v == x then false else is_below p (region_of s v))
  below_lem v = ap (is_below p) (region_lem v) ∙ below_if p (v == x) (region_of s v)

  strategy_lem : (v : ℕ) → strategy_of taken v ≡ (if v == x then str else strategy_of s v)
  unfolding take_vertex
  strategy_lem v = get_or-set s.strategy x v str none (omega (arith, h.strategy_size, small))

  members_lem : members taken p ≡ members s p ++ x ∷ []
  unfolding take_vertex
  members_lem =
      let here : (p == p) ≡ true = ground arith in
      get_or-set s.regions p p (members s p ++ x ∷ []) [] h.few ∙ rw here refl

  same_oink : taken.oink ≡ s.oink
  unfolding take_vertex
  same_oink = refl

  old : (v : ℕ) → (v == x) ≡ false → is_in p taken v ≡ true → is_in p s v ≡ true
  old v e a = ground (arith, at_lem v, a, e)

  strategy_other : (v : ℕ) → (v == x) ≡ false → strategy_of taken v ≡ strategy_of s v
  strategy_other v e = strategy_lem v ∙ rw e refl

  strategy_here : strategy_of taken x ≡ str
  strategy_here = let here : (x == x) ≡ true = ground arith in strategy_lem x ∙ rw here refl

  -- A vertex enters the region.
  module _
      (own : same (owner_of s.oink.game x) (is_odd p) ≡ true
        → (u : ℕ) × (str ≡ some u) × (0 < occ u (outs s.oink.game x)) × (is_in p s u ≡ true))
      (opponent : same (owner_of s.oink.game x) (is_odd p) ≡ false
        → (to : ℕ) → 0 < occ to (outs s.oink.game x)
        → is_disabled s.oink to ≡ false
        → is_below p (region_of s to) ≡ false) where
    chosen_here :
        (u : ℕ)
        → same (owner_of s.oink.game x) (is_odd p) ≡ true
        → str ≡ some u
        → (0 < occ u (outs s.oink.game x)) × (is_in p taken u ≡ true)
    chosen_here u m e =
        let (w, a, b, c) = own m in
        let here : w ≡ u = some_eq w u (sym a ∙ e) in
        subst (λ k. (0 < occ k (outs s.oink.game x)) × (is_in p taken k ≡ true)) here
          (b, ground (arith, at_lem w, c))

    forced_here :
        (to : ℕ)
        → same (owner_of s.oink.game x) (is_odd p) ≡ false
        → 0 < occ to (outs s.oink.game x)
        → is_disabled s.oink to ≡ false
        → is_below p (region_of taken to) ≡ false
    forced_here to m k d = ground (arith, below_lem to, opponent m to k d)

    pub take-IsRegion : IsRegion p taken
    unfolding take_vertex
    take-IsRegion = record {
      region_size = rw length-set h.region_size;
      strategy_size = rw length-set h.strategy_size;
      few = omega (arith, length-set s.regions p (members s p ++ x ∷ []), h.few);
      sized = omega (
        arith,
        h.sized,
        ap length members_lem,
        length-append (members s p) (x ∷ []),
        lower-set p s.region x (omega (arith, h.region_size, small)) low,
      );
      distinct = subst Distinct (sym members_lem) (
          Distinct-append (members s p) (x ∷ []) h.distinct (omega arith, tt)
            (λ v k. elim (Bool-cases (x == v)) [
              | inr e ↦ ground (arith, e)
              | inl e ↦
                  let here : v ≡ x = ground arith in
                  let in_p : is_in p s v ≡ true = sym (h.exact v) ∙ ground (arith, k) in
                  absurd (
                    ground (
                      arith,
                      low,
                      at_not_below p (region_of s x)
                          (in_at p s x (subst (λ y. is_in p s y ≡ true) here in_p)),
                    ))
            ]));
      exact = λ v.
          ap (λ l. ltb 0 (occ v l)) members_lem
          ∙ ground (arith, occ-append v (members s p) (x ∷ []), h.exact v)
          ∙ sym (at_lem v);
      chosen = λ v u a m e. elim (Bool-cases (v == x)) [
        | inl k ↦
            let here : x ≡ v = ground arith in
            subst
              (λ y.
                same (owner_of s.oink.game y) (is_odd p) ≡ true
                → strategy_of taken y ≡ some u
                → (0 < occ u (outs s.oink.game y)) × (is_in p taken u ≡ true))
              here (λ m e. chosen_here u m (sym strategy_here ∙ e)) m e
        | inr k ↦
            let (b, c) = h.chosen v u (old v k a) m (sym (strategy_other v k) ∙ e) in
            (b, ground (arith, at_lem u, c))
      ];
      based = λ v a m q. elim (Bool-cases (v == x)) [
        | inl k ↦
            let here : x ≡ v = ground arith in
            subst
              (λ y.
                same (owner_of s.oink.game y) (is_odd p) ≡ true
                → is_none (strategy_of taken y) ≡ false)
              here (λ m. ap is_none (strategy_here ∙ (own m).1)) m
        | inr k ↦ ap is_none (strategy_other v k) ∙ h.based v (old v k a) m q
      ];
      forced = λ v to a m q k d. elim (Bool-cases (v == x)) [
        | inl e ↦
            let here : x ≡ v = ground arith in
            subst
              (λ y.
                same (owner_of s.oink.game y) (is_odd p) ≡ false
                → 0 < occ to (outs s.oink.game y)
                → is_below p (region_of taken to) ≡ false)
              here (λ m k. forced_here to m k d) m k
        | inr e ↦ ground (arith, below_lem to, h.forced v to (old v e a) m q k d)
      ];
    }
