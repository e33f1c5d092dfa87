-- ===== src/Pp/Adding.antt =====
-- `setupRegion` of oink/src/pp.cpp: the region while its vertices are added.
use urss.Base.{
  ℕ, suc, ◌+◌, ◌<◌, ◌≤◌, ◌≡◌, refl, sym, subst, ap, ◌∙◌, arith, true, false, [], ◌∷◌, ◌++◌, none,
  ◌==◌, length, set, length-set, get_or-set, get_or-set_other, Bool-cases, inl, inr,
}
use urss.UintQueue
use urss.UintQueue.{UintQueue}
use urss.UintQueue.Stack.{capacity}
use urss.Game.{priority_of, vertexcount}
use urss.Oink.{Oink, is_disabled}
use urss.Oink.Attract.{IsGraph}
use urss.Oink.Start.{graph_of}
use urss.Base.Tally.{occ, occ-append, Distinct, Distinct-append}
use urss.Pp.{Pp, region_of, strategy_of, members, is_below, is_in}
use urss.Pp.Setup.{is_marked}
use urss.Pp.Below.{at_small, clear_in}

-- The vertex `i` of the priority `p` in a sorted game over a graph.
pub record IsHead (i p : ℕ) (o : Oink) : Type 0 where
  pub graph : IsGraph (graph_of o.game [])
  pub here : priority_of o.game i ≡ p
  pub small : i < vertexcount o.game
  pub sorted :
      (a b : ℕ) → a ≤ b → b < vertexcount o.game → priority_of o.game a ≤ priority_of o.game b

-- The vertices of the region from `n` on are listed, up to the vertex `i`; all have its priority.
pub record IsAdding (i p n : ℕ) (s : Pp) : Type 0 where
  pub head : IsHead i p s.oink
  pub region_size : length s.region ≡ vertexcount s.oink.game
  pub strategy_size : length s.strategy ≡ vertexcount s.oink.game
  pub few : p < length s.regions
  pub unmarked : (v : ℕ) → is_marked s v ≡ false
  pub distinct : Distinct (members s p)
  pub listed :
      (v : ℕ) → 0 < occ v (members s p) → (is_in p s v ≡ true) × (n ≤ v) × (strategy_of s v ≡ none)
  pub complete : (v : ℕ) → is_in p s v ≡ true → n ≤ v → 0 < occ v (members s p)
  pub heads : (v : ℕ) → is_in p s v ≡ true → priority_of s.oink.game v ≡ p
  pub up_to : (v : ℕ) → is_in p s v ≡ true → v ≤ i
  pub raised :
      (v : ℕ)
      → is_disabled s.oink v ≡ false
      → is_below p (region_of s v) ≡ true
      → v < vertexcount s.oink.game
      → (priority_of s.oink.game v == p) ≡ false
  pub empty : UintQueue.empty s.q ≡ true
  pub room : capacity s.q ≡ vertexcount s.oink.game

module _ (i p j : ℕ) (s : Pp) (h : IsAdding i p (suc j) s) where
  pub outside-IsAdding : is_in p s j ≡ false → IsAdding i p j s
  outside-IsAdding e = record {
    head = h.head;
    region_size = h.region_size;
    strategy_size = h.strategy_size;
    few = h.few;
    unmarked = h.unmarked;
    distinct = h.distinct;
    listed = λ v k. let (a, b, c) = h.listed v k in (a, omega (arith, b), c);
    complete = λ v a k. elim (Bool-cases (v == j)) [
      | inl f ↦
          let here : v ≡ j = ground (arith, f) in
          absurd (ground (arith, e, subst (λ x. is_in p s x ≡ true) here a))
      | inr f ↦ h.complete v a (ground (arith, k, f))
    ];
    heads = h.heads;
    up_to = h.up_to;
    raised = h.raised;
    empty = h.empty;
    room = h.room;
  }

  pub clear-IsAdding :
      is_disabled s.oink j ≡ true → IsAdding i p (suc j) (record s { region = set s.region j none })
  clear-IsAdding d = record {
    head = h.head;
    region_size = length-set s.region j none ∙ h.region_size;
    strategy_size = h.strategy_size;
    few = h.few;
    unmarked = h.unmarked;
    distinct = h.distinct;
    listed = λ v k. let (a, b, c) = h.listed v k in (clear_in p s j v d ∙ a, b, c);
    complete = λ v a k. h.complete v (sym (clear_in p s j v d) ∙ a) k;
    heads = λ v a. h.heads v (sym (clear_in p s j v d) ∙ a);
    up_to = λ v a. h.up_to v (sym (clear_in p s j v d) ∙ a);
    raised = λ v f b k. elim (Bool-cases (v == j)) [
      | inl e ↦
          let here : j ≡ v = ground (arith, e) in
          let g : is_disabled s.oink v ≡ true = subst (λ x. is_disabled s.oink x ≡ true) here d in
          absurd (ground (arith, f, g))
      | inr e ↦
          h.raised v f (ap (is_below p) (sym (get_or-set_other s.region j v none none e)) ∙ b) k
    ];
    empty = h.empty;
    room = h.room;
  }

  module _ (inside : is_in p s j ≡ true) where
    abbrev pub listing : Pp
    listing = record s {
      regions = set s.regions p (members s p ++ j ∷ []);
      strategy = set s.strategy j none;
    }

    members-listing : members listing p ≡ members s p ++ j ∷ []
    members-listing =
        let here : (p == p) ≡ true = ground arith in
        get_or-set s.regions p p (members s p ++ j ∷ []) [] h.few ∙ rw here refl

    occ_lem : (v : ℕ) → occ v (members listing p) ≡ occ v (members s p) + occ v (j ∷ [])
    occ_lem v = ap (occ v) members-listing ∙ occ-append v (members s p) (j ∷ [])

    none_at : (v : ℕ) → v ≡ j → strategy_of listing v ≡ none
    none_at v e =
        let small : j < length s.strategy =
          omega (arith, h.strategy_size, at_small p s j h.region_size inside) in
        let here : (v == j) ≡ true = ground (arith, e) in
        get_or-set s.strategy j v none none small ∙ rw here refl

    chosen_none : (v : ℕ) → strategy_of s v ≡ none → strategy_of listing v ≡ none
    chosen_none v e = elim (Bool-cases (v == j)) [
      | inl f ↦ none_at v (ground (arith, f))
      | inr f ↦ get_or-set_other s.strategy j v none none f ∙ e
    ]

    pub listing-IsAdding : IsAdding i p j listing
    listing-IsAdding = record {
      head = h.head;
      region_size = h.region_size;
      strategy_size = length-set s.strategy j none ∙ h.strategy_size;
      few = omega (arith, length-set s.regions p (members s p ++ j ∷ []), h.few);
      unmarked = h.unmarked;
      distinct = subst Distinct (sym members-listing) (
          Distinct-append (members s p) (j ∷ []) h.distinct (omega arith, tt)
            (λ v k. elim (Bool-cases (v == j)) [
              | inr e ↦ ground (arith, e)
              | inl e ↦ let (a, b, c) = h.listed v k in absurd (ground (arith, b, e))
            ]));
      listed = λ v k. elim (Bool-cases (v == j)) [
        | inl e ↦
            let here : j ≡ v = ground (arith, e) in
            (subst (λ x. is_in p s x ≡ true) here inside, omega (arith, here), none_at v (sym here))
        | inr e ↦
            let (a, b, c) = h.listed v (ground (arith, k, e, occ_lem v)) in
            (a, omega (arith, b), chosen_none v c)
      ];
      complete = λ v a k. elim (Bool-cases (v == j)) [
        | inl e ↦ ground (arith, occ_lem v, e)
        | inr e ↦ omega (arith, occ_lem v, h.complete v a (ground (arith, k, e)))
      ];
      heads = h.heads;
      up_to = h.up_to;
      raised = h.raised;
      empty = h.empty;
      room = h.room;
    }
