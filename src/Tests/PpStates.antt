-- ===== src/Tests/PpStates.antt =====
-- The regions of `PPSolver` in a game of three vertices of the priorities 0, 0 and 2: 0 moves to 2, 1
-- to itself and to 2, and 2 to itself. Odd owns the vertex 1.
use urss.Base.{
  some_eq, subst, ℕ, zero, suc, ◌<◌, ◌≤◌, ◌≡◌, ◌⊎◌, refl, arith, inl, inr, true, false, [], ◌∷◌,
  none, some, ◌==◌, ltb,
}
use urss.UintQueue
use urss.Game.{Game, outs, owner_of, priority_of, vertexcount, until_end}
use urss.Game.Ins.{ins}
use urss.Oink.{make, same, is_odd, is_disabled}
use urss.Base.Tally.{occ, Distinct}
use urss.Oink.Attract.{IsGraph}
use urss.Oink.Start.{graph_of}
use urss.Pp.{Pp, region_of, strategy_of, members, is_in, is_below, is_none, can_escape}
use urss.Pp.Below.{lower}
use urss.Pp.Region.{IsRegion}
use urss.Pp.Maximal.{IsMaximal}
use urss.Pp.Gate.{Exit, Moves, IsTop}
use urss.Pp.Clean.{IsVisited}
use urss.Tests.OinkTests.{none_disabled}
use urss.Tests.ZlkTests.{to_two, to_two-IsGraph}

abbrev pub even_top : Game
even_top = record to_two { priority = 0 ∷ 0 ∷ 2 ∷ [] }

-- The region 2 holds the vertex 2 alone.
abbrev pub before : Pp
before = record {
  oink = make even_top none_disabled;
  regions = [] ∷ [] ∷ (2 ∷ []) ∷ [];
  region = some 0 ∷ some 0 ∷ some 2 ∷ [];
  strategy = none ∷ none ∷ none ∷ [];
  inverse = 0 ∷ 0 ∷ 2 ∷ [];
  Z = none_disabled;
  q = UintQueue.make 3;
  promotions = 0;
}

-- It has attracted the vertex 0, and the vertex 1 is the region 0.
abbrev pub after : Pp
after = record before {
  regions = (1 ∷ []) ∷ [] ∷ (2 ∷ 0 ∷ []) ∷ [];
  region = some 2 ∷ some 0 ∷ some 2 ∷ [];
  strategy = some 2 ∷ none ∷ some 2 ∷ [];
}

pub even_top-IsGraph : IsGraph (graph_of even_top [])
unfolding vertexcount ins outs
even_top-IsGraph = record { converse = to_two-IsGraph.converse; in_range = to_two-IsGraph.in_range }

pub before-IsRegion : IsRegion 2 before
unfolding make vertexcount outs until_end lower Distinct
before-IsRegion = record {
  region_size = refl;
  strategy_size = refl;
  few = omega arith;
  sized = omega arith;
  distinct = (omega arith, tt);
  exact = exact_before;
  chosen = λ v u a m e. absurd (never_chosen v u e);
  based = based_before;
  forced = forced_before;
}
  where
    exact_before : (v : ℕ) → ltb 0 (occ v (members before 2)) ≡ is_in 2 before v
    exact_before zero = refl
    exact_before (suc zero) = refl
    exact_before (suc (suc zero)) = refl
    exact_before (suc (suc (suc v))) = ground arith

    never_chosen : (v u : ℕ) → strategy_of before v ≡ some u → ⊥
    never_chosen zero u e = ground (arith, e)
    never_chosen (suc zero) u e = ground (arith, e)
    never_chosen (suc (suc zero)) u e = ground (arith, e)
    never_chosen (suc (suc (suc v))) u e = ground (arith, e)

    based_before :
        (v : ℕ)
        → is_in 2 before v ≡ true
        → same (owner_of even_top v) (is_odd 2) ≡ true
        → (priority_of even_top v == 2) ≡ false
        → is_none (strategy_of before v) ≡ false
    based_before zero a m q = absurd (ground (arith, a))
    based_before (suc zero) a m q = absurd (ground (arith, a))
    based_before (suc (suc zero)) a m q = absurd (ground (arith, q))
    based_before (suc (suc (suc v))) a m q = absurd (ground (arith, a))

    forced_before :
        (v to : ℕ)
        → is_in 2 before v ≡ true
        → same (owner_of even_top v) (is_odd 2) ≡ false
        → (priority_of even_top v == 2) ≡ false
        → 0 < occ to (outs even_top v)
        → is_disabled before.oink to ≡ false
        → is_below 2 (region_of before to) ≡ false
    forced_before zero to a m q = absurd (ground (arith, a))
    forced_before (suc zero) to a m q = absurd (ground (arith, a))
    forced_before (suc (suc zero)) to a m q = absurd (ground (arith, q))
    forced_before (suc (suc (suc v))) to a m q = absurd (ground (arith, a))

pub low_after-IsRegion : IsRegion 0 after
unfolding make vertexcount outs until_end lower Distinct
low_after-IsRegion = record {
  region_size = refl;
  strategy_size = refl;
  few = omega arith;
  sized = omega arith;
  distinct = (omega arith, tt);
  exact = exact_low;
  chosen = λ v u a m e. absurd (all_theirs v a m);
  based = λ v a m q. absurd (all_theirs v a m);
  forced = forced_low;
}
  where
    exact_low : (v : ℕ) → ltb 0 (occ v (members after 0)) ≡ is_in 0 after v
    exact_low zero = refl
    exact_low (suc zero) = refl
    exact_low (suc (suc zero)) = refl
    exact_low (suc (suc (suc v))) = ground arith

    all_theirs : (v : ℕ) → is_in 0 after v ≡ true → same (owner_of even_top v) (is_odd 0) ≡ true → ⊥
    all_theirs zero a m = ground (arith, a)
    all_theirs (suc zero) a m = ground (arith, m)
    all_theirs (suc (suc zero)) a m = ground (arith, a)
    all_theirs (suc (suc (suc v))) a m = ground (arith, a)

    forced_low :
        (v to : ℕ)
        → is_in 0 after v ≡ true
        → same (owner_of even_top v) (is_odd 0) ≡ false
        → (priority_of even_top v == 0) ≡ false
        → 0 < occ to (outs even_top v)
        → is_disabled after.oink to ≡ false
        → is_below 0 (region_of after to) ≡ false
    forced_low zero to a m q = absurd (ground (arith, q))
    forced_low (suc zero) to a m q = absurd (ground (arith, q))
    forced_low (suc (suc zero)) to a m q = absurd (ground (arith, a))
    forced_low (suc (suc (suc v))) to a m q = absurd (ground (arith, a))

pub high_after-IsRegion : IsRegion 2 after
unfolding make vertexcount outs until_end lower Distinct
high_after-IsRegion = record {
  region_size = refl;
  strategy_size = refl;
  few = omega arith;
  sized = omega arith;
  distinct = (omega arith, (omega arith, tt));
  exact = exact_high;
  chosen = chosen_high;
  based = based_high;
  forced = λ v to a m. absurd (all_mine v a m);
}
  where
    exact_high : (v : ℕ) → ltb 0 (occ v (members after 2)) ≡ is_in 2 after v
    exact_high zero = refl
    exact_high (suc zero) = refl
    exact_high (suc (suc zero)) = refl
    exact_high (suc (suc (suc v))) = ground arith

    all_mine : (v : ℕ) → is_in 2 after v ≡ true → same (owner_of even_top v) (is_odd 2) ≡ false → ⊥
    all_mine zero a m = ground (arith, m)
    all_mine (suc zero) a m = ground (arith, a)
    all_mine (suc (suc zero)) a m = ground (arith, m)
    all_mine (suc (suc (suc v))) a m = ground (arith, a)

    chosen_high :
        (v u : ℕ)
        → is_in 2 after v ≡ true
        → same (owner_of even_top v) (is_odd 2) ≡ true
        → strategy_of after v ≡ some u
        → (0 < occ u (outs even_top v)) × (is_in 2 after u ≡ true)
    chosen_high zero u a m e =
        subst (λ x. (0 < occ x (outs even_top 0)) × (is_in 2 after x ≡ true)) (some_eq 2 u e)
          (omega arith, refl)
    chosen_high (suc zero) u a m e = absurd (ground (arith, a))
    chosen_high (suc (suc zero)) u a m e =
        subst (λ x. (0 < occ x (outs even_top 2)) × (is_in 2 after x ≡ true)) (some_eq 2 u e)
          (omega arith, refl)
    chosen_high (suc (suc (suc v))) u a m e = absurd (ground (arith, a))

    based_high :
        (v : ℕ)
        → is_in 2 after v ≡ true
        → same (owner_of even_top v) (is_odd 2) ≡ true
        → (priority_of even_top v == 2) ≡ false
        → is_none (strategy_of after v) ≡ false
    based_high zero a m q = refl
    based_high (suc zero) a m q = absurd (ground (arith, a))
    based_high (suc (suc zero)) a m q = refl
    based_high (suc (suc (suc v))) a m q = absurd (ground (arith, a))

pub after-IsMaximal : IsMaximal 2 after
unfolding make vertexcount outs until_end can_escape
after-IsMaximal = record {
  own = λ v u l m. absurd (all_theirs v l.small l.low m);
  opponent = λ v u l m k a. stays_free v l.small l.low;
}
  where
    all_theirs :
        (v : ℕ)
        → v < 3
        → is_below 2 (region_of after v) ≡ true
        → same (owner_of even_top v) (is_odd 2) ≡ true
        → ⊥
    all_theirs zero s l m = ground (arith, l)
    all_theirs (suc zero) s l m = ground (arith, m)
    all_theirs (suc (suc zero)) s l m = ground (arith, l)
    all_theirs (suc (suc (suc v))) s l m = omega (arith, s)

    stays_free :
        (v : ℕ)
        → v < 3
        → is_below 2 (region_of after v) ≡ true
        → can_escape after 2 (outs even_top v) ≡ true
    stays_free zero s l = absurd (ground (arith, l))
    stays_free (suc zero) s l = refl
    stays_free (suc (suc zero)) s l = absurd (ground (arith, l))
    stays_free (suc (suc (suc v))) s l = absurd (omega (arith, s))

pub after-IsTop : IsTop 1 0 after
unfolding make vertexcount
after-IsTop = record {
  here = refl;
  small = omega arith;
  sorted = sorted_after;
  heads = heads_after;
  raised = λ v f b k. absurd (all_high v b k);
}
  where
    all_high : (v : ℕ) → is_below 0 (region_of after v) ≡ true → v < 3 → ⊥
    all_high zero b k = ground (arith, b)
    all_high (suc zero) b k = ground (arith, b)
    all_high (suc (suc zero)) b k = ground (arith, b)
    all_high (suc (suc (suc v))) b k = omega (arith, k)

    sorted_after : (a b : ℕ) → a ≤ b → b < 3 → priority_of even_top a ≤ priority_of even_top b
    sorted_after zero b h k = omega arith
    sorted_after (suc zero) b h k = omega arith
    sorted_after (suc (suc a)) zero h k = absurd (omega (arith, h))
    sorted_after (suc (suc a)) (suc zero) h k = absurd (omega (arith, h))
    sorted_after (suc (suc zero)) (suc (suc zero)) h k = omega arith
    sorted_after (suc (suc (suc a))) (suc (suc zero)) h k = absurd (omega (arith, h))
    sorted_after (suc (suc a)) (suc (suc (suc b))) h k = absurd (omega (arith, k))

    heads_after : (v : ℕ) → is_in 0 after v ≡ true → priority_of even_top v ≡ 0 → v ≤ 1
    heads_after zero a e = omega arith
    heads_after (suc zero) a e = omega arith
    heads_after (suc (suc zero)) a e = absurd (ground (arith, a))
    heads_after (suc (suc (suc v))) a e = absurd (ground (arith, a))

-- The region 2 is set up again.
pub after-IsVisited : IsVisited 2 2 after
unfolding make vertexcount UintQueue.empty UintQueue.make
after-IsVisited = record {
  head = record {
    graph = even_top-IsGraph;
    here = refl;
    small = omega arith;
    sorted = after-IsTop.sorted;
  };
  region_size = refl;
  strategy_size = refl;
  few = omega arith;
  listed = listed_after;
  passed = λ v k e. passed_after v k;
  raised = λ v f b k. raised_after v b k;
  empty = refl;
  room = refl;
}
  where
    listed_after :
        (v : ℕ)
        → is_in 2 after v ≡ true
        → (priority_of even_top v == 2) ≡ false
        → 0 < occ v (members after 2)
    listed_after zero a e = omega arith
    listed_after (suc zero) a e = absurd (ground (arith, a))
    listed_after (suc (suc zero)) a e = omega arith
    listed_after (suc (suc (suc v))) a e = absurd (ground (arith, a))

    passed_after : (v : ℕ) → 2 < v → is_in 2 after v ≡ false
    passed_after zero k = absurd (omega (arith, k))
    passed_after (suc zero) k = absurd (omega (arith, k))
    passed_after (suc (suc zero)) k = absurd (omega (arith, k))
    passed_after (suc (suc (suc v))) k = refl

    raised_after :
        (v : ℕ)
        → is_below 2 (region_of after v) ≡ true
        → v < 3
        → (priority_of even_top v == 2) ≡ false
    raised_after zero b k = refl
    raised_after (suc zero) b k = refl
    raised_after (suc (suc zero)) b k = absurd (ground (arith, b))
    raised_after (suc (suc (suc v))) b k = absurd (omega (arith, k))

pub nobody-Moves : Moves 0 after
unfolding make
nobody-Moves zero a m = absurd (ground (arith, a))
nobody-Moves (suc zero) a m = absurd (ground (arith, m))
nobody-Moves (suc (suc zero)) a m = absurd (ground (arith, a))
nobody-Moves (suc (suc (suc v))) a m = absurd (ground (arith, a))

pub closed_above :
    (v to : ℕ)
    → Exit 0 after v to
    → (is_in 0 after to ≡ true) ⊎ (is_below 2 (region_of after to) ≡ false)
unfolding make outs until_end
closed_above v zero x = inr refl
closed_above v (suc zero) x = inl refl
closed_above v (suc (suc zero)) x = inr refl
closed_above zero (suc (suc (suc to))) x = absurd (ground (arith, x.inside))
closed_above (suc zero) (suc (suc (suc to))) x = absurd (ground (arith, x.edge))
closed_above (suc (suc zero)) (suc (suc (suc to))) x = absurd (ground (arith, x.inside))
closed_above (suc (suc (suc v))) (suc (suc (suc to))) x = absurd (ground (arith, x.inside))

pub above_after : (r v : ℕ) → 0 < r → is_in r after v ≡ true → IsRegion r after × IsMaximal r after
unfolding make
above_after r zero k a =
    let here : 2 ≡ r = ground (arith, a) in
    subst (λ x. IsRegion x after × IsMaximal x after) here (high_after-IsRegion, after-IsMaximal)
above_after r (suc zero) k a = absurd (ground (arith, a, k))
above_after r (suc (suc zero)) k a =
    let here : 2 ≡ r = ground (arith, a) in
    subst (λ x. IsRegion x after × IsMaximal x after) here (high_after-IsRegion, after-IsMaximal)
above_after r (suc (suc (suc v))) k a = absurd (ground (arith, a))
