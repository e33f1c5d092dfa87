-- ===== src/Pp/Grow.antt =====
-- `attract` of oink/src/pp.cpp: its loops keep the region, and end.
use urss.Base.{
  some_eq, ℕ, ◌+◌, ◌≤◌, ◌<◌, ◌≡◌, refl, sym, subst, ap, ◌∙◌, arith, true, false, List, [], ◌∷◌,
  ◌++◌, Option, none, some, if◌then◌else◌, ◌==◌, length, set, length-set, get_or-set, Bool-cases,
  inl, inr,
}
use urss.UintQueue
use urss.UintQueue.{UintQueue}
use urss.UintQueue.Stack.{contents, contents-push, capacity}
use urss.Game.{owner_of, outs, vertexcount}
use urss.Oink.{same, is_odd, is_disabled}
use urss.Oink.Attract.{IsGraph}
use urss.Oink.Start.{graph_of}
use urss.Base.Tally.{occ}
use urss.Pp.{Pp, region_of, strategy_of, members, is_below, is_at, is_in, is_none, take_vertex}
use urss.Pp.Region.{IsRegion, at_lem, take-IsRegion}
use urss.Pp.Below.{lower, lower-set}

-- A vertex stays where it is, and keeps its strategy unless it is in the region `p`, or it was lower
-- and enters this region.
pub data Moved (p : ℕ) (start s : Pp) (v : ℕ) : Type 0 where
  stays :
      region_of s v ≡ region_of start v
      → (is_in p start v ≡ false → strategy_of s v ≡ strategy_of start v)
      → Moved p start s v
  enters :
      is_below p (region_of start v) ≡ true
      → is_disabled start.oink v ≡ false
      → is_in p s v ≡ true
      → Moved p start s v

-- `start` is the state before the loops, and the predecessors `rest` of the vertex `cur` are still to be
-- looked at.
pub record IsGrowing (p : ℕ) (start : Pp) (cur : ℕ) (rest : List ℕ) (s : Pp) : Type 0 where
  pub graph : IsGraph (graph_of s.oink.game [])
  pub region : IsRegion p s
  pub queued : (u : ℕ) → 0 < occ u (contents s.q) → is_in p s u ≡ true
  pub pending :
      (x : ℕ)
      → 0 < occ x rest
      → (x < vertexcount s.oink.game) × (0 < occ cur (outs s.oink.game x)) × (is_in p s cur ≡ true)
  pub room : s.q.pointer + lower p s.region ≤ capacity s.q
  pub same_capacity : capacity s.q ≡ capacity start.q
  pub same_count : length s.regions ≡ length start.regions
  pub same_inverse : s.inverse ≡ start.inverse
  pub same_marks : s.Z ≡ start.Z
  pub same_oink : s.oink ≡ start.oink
  pub others : (q : ℕ) → (q == p) ≡ false → members s q ≡ members start q
  pub moved : (v : ℕ) → Moved p start s v

abbrev pub work : ℕ → Pp → ℕ
work p s = s.q.pointer + lower p s.region

module _ (p : ℕ) (start : Pp) (cur : ℕ) (x : ℕ) (rest : List ℕ) (s : Pp)
    (h : IsGrowing p start cur (x ∷ rest) s) where
  pub head_lem :
      (x < vertexcount s.oink.game) × (0 < occ cur (outs s.oink.game x)) × (is_in p s cur ≡ true)
  head_lem = h.pending x (ground arith)

  pub skip_lem : IsGrowing p start cur rest s
  skip_lem = record {
    graph = h.graph;
    region = h.region;
    queued = h.queued;
    pending = λ y k. h.pending y (ground (arith, k));
    room = h.room;
    same_capacity = h.same_capacity;
    same_count = h.same_count;
    same_inverse = h.same_inverse;
    same_marks = h.same_marks;
    same_oink = h.same_oink;
    others = h.others;
    moved = h.moved;
  }

  -- A vertex of the region gets a strategy.
  module _ (inside : is_in p s x ≡ true)
      (mine : same (owner_of s.oink.game x) (is_odd p) ≡ true) where
    abbrev marked : Pp
    marked = record s { strategy = set s.strategy x (some cur) }

    marked_lem : (v : ℕ) → strategy_of marked v ≡ (if v == x then some cur else strategy_of s v)
    marked_lem v =
        get_or-set s.strategy x v (some cur) none
          (omega (arith, h.region.strategy_size, head_lem.0))

    marked_other : (v : ℕ) → (v == x) ≡ false → strategy_of marked v ≡ strategy_of s v
    marked_other v e = marked_lem v ∙ rw e refl

    marked_here : strategy_of marked x ≡ some cur
    marked_here = let here : (x == x) ≡ true = ground arith in marked_lem x ∙ rw here refl

    chosen_here :
        (u : ℕ)
        → strategy_of marked x ≡ some u
        → (0 < occ u (outs s.oink.game x)) × (is_in p s u ≡ true)
    chosen_here u e =
        let here : cur ≡ u = some_eq cur u (sym marked_here ∙ e) in
        subst (λ k. (0 < occ k (outs s.oink.game x)) × (is_in p s k ≡ true)) here
          (head_lem.1, head_lem.2)

    marked-IsRegion : IsRegion p marked
    marked-IsRegion = record {
      region_size = h.region.region_size;
      strategy_size = rw length-set h.region.strategy_size;
      few = h.region.few;
      sized = h.region.sized;
      distinct = h.region.distinct;
      exact = h.region.exact;
      chosen = λ v u a m e. elim (Bool-cases (v == x)) [
        | inl k ↦
            let here : x ≡ v = ground arith in
            subst
              (λ y.
                strategy_of marked y ≡ some u
                → (0 < occ u (outs s.oink.game y)) × (is_in p s u ≡ true))
              here (chosen_here u) e
        | inr k ↦ h.region.chosen v u a m (sym (marked_other v k) ∙ e)
      ];
      based = λ v a m q. elim (Bool-cases (v == x)) [
        | inl k ↦
            let here : x ≡ v = ground arith in
            subst (λ y. is_none (strategy_of marked y) ≡ false) here (ap is_none marked_here)
        | inr k ↦ ap is_none (marked_other v k) ∙ h.region.based v a m q
      ];
      forced = h.region.forced;
    }

    pub mark_lem : IsGrowing p start cur rest marked
    mark_lem = record {
      graph = h.graph;
      region = marked-IsRegion;
      queued = h.queued;
      pending = λ y k. h.pending y (ground (arith, k));
      room = h.room;
      same_capacity = h.same_capacity;
      same_count = h.same_count;
      same_inverse = h.same_inverse;
      same_marks = h.same_marks;
      same_oink = h.same_oink;
      others = h.others;
      moved = λ v. elim (h.moved v) [
        | enters a b c ↦ enters a b c
        | stays a b ↦ stays a (λ n. elim (Bool-cases (v == x)) [
          | inl e ↦
              let here : x ≡ v = ground arith in
              absurd
                (ground (arith, n, a, ap (is_at p) a, subst (λ y. is_in p s y ≡ true) here inside))
          | inr e ↦ marked_other v e ∙ b n
        ])
      ];
    }

  -- A lower vertex enters the region.
  module _ (str : Option ℕ) (free : is_disabled s.oink x ≡ false)
      (low : is_below p (region_of s x) ≡ true)
      (own : same (owner_of s.oink.game x) (is_odd p) ≡ true
        → (u : ℕ) × (str ≡ some u) × (0 < occ u (outs s.oink.game x)) × (is_in p s u ≡ true))
      (opponent : same (owner_of s.oink.game x) (is_odd p) ≡ false
        → (to : ℕ) → 0 < occ to (outs s.oink.game x)
        → is_disabled s.oink to ≡ false
        → is_below p (region_of s to) ≡ false) where
    abbrev entered : Pp
    entered = take_vertex s p x str

    pub stays_at : (v : ℕ) → is_in p s v ≡ true → is_in p entered v ≡ true
    stays_at v a = ground (arith, at_lem p s h.region x str head_lem.0 free low v, a)

    lower_lem : lower p (set s.region x (some p)) + 1 ≡ lower p s.region
    lower_lem = lower-set p s.region x (omega (arith, h.region.region_size, head_lem.0)) low

    pub queue_lem : contents (UintQueue.push s.q x) ≡ x ∷ contents s.q
    queue_lem = contents-push s.q x (omega (arith, h.room, lower_lem))

    at_here : is_in p entered x ≡ true
    at_here = ground (arith, at_lem p s h.region x str head_lem.0 free low x)

    pub region_other : (v : ℕ) → (v == x) ≡ false → region_of entered v ≡ region_of s v
    unfolding take_vertex
    region_other v e =
        get_or-set s.region x v (some p) none (omega (arith, h.region.region_size, head_lem.0))
        ∙ rw e refl

    strategy_other : (v : ℕ) → (v == x) ≡ false → strategy_of entered v ≡ strategy_of s v
    unfolding take_vertex
    strategy_other v e =
        get_or-set s.strategy x v str none (omega (arith, h.region.strategy_size, head_lem.0))
        ∙ rw e refl

    others_lem : (q : ℕ) → (q == p) ≡ false → members entered q ≡ members s q
    unfolding take_vertex
    others_lem q e = get_or-set s.regions p q (members s p ++ x ∷ []) [] h.region.few ∙ rw e refl

    moved_here : Moved p start entered x
    moved_here = elim (h.moved x) [
      | enters a b c ↦ enters a b at_here
      | stays a b ↦
          enters (ap (is_below p) (sym a) ∙ low)
            (ap (λ o. is_disabled o x) (sym h.same_oink) ∙ free) at_here
    ]

    pub take_lem : IsGrowing p start cur rest entered
    unfolding take_vertex UintQueue.push
    take_lem = record {
      graph = h.graph;
      region = take-IsRegion p s h.region x str head_lem.0 free low own opponent;
      queued = λ u k. elim (Bool-cases (u == x)) [
        | inl e ↦
            let here : x ≡ u = ground arith in subst (λ y. is_in p entered y ≡ true) here at_here
        | inr e ↦ stays_at u (h.queued u (ground (arith, k, e, ap (occ u) queue_lem)))
      ];
      pending = λ y k. let (a, b, c) = h.pending y (ground (arith, k)) in (a, b, stays_at cur c);
      room = omega (arith, h.room, lower_lem, length-set s.q.queue s.q.pointer x);
      same_capacity = length-set s.q.queue s.q.pointer x ∙ h.same_capacity;
      same_count = length-set s.regions p (members s p ++ x ∷ []) ∙ h.same_count;
      same_inverse = h.same_inverse;
      same_marks = h.same_marks;
      same_oink = h.same_oink;
      others = λ q e. others_lem q e ∙ h.others q e;
      moved = λ v. elim (Bool-cases (v == x)) [
        | inl e ↦
            let here : x ≡ v = ground arith in subst (λ y. Moved p start entered y) here moved_here
        | inr e ↦ elim (h.moved v) [
          | enters a b c ↦ enters a b (stays_at v c)
          | stays a b ↦ stays (region_other v e ∙ a) (λ n. strategy_other v e ∙ b n)
        ]
      ];
    }

    pub work_lem : work p entered ≡ work p s
    unfolding take_vertex UintQueue.push
    work_lem = omega (arith, lower_lem)
