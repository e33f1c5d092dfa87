-- ===== src/Pp/Rounds.antt =====
-- The loop of `attract` of oink/src/pp.cpp over the queue.
use urss.Base.{
  ℕ, zero, suc, ◌+◌, ◌≤◌, ◌<◌, ◌≡◌, refl, sym, subst, ap, ◌∙◌, arith, true, false, [], ◌∷◌, some,
  ◌==◌, Bool-cases, inl, inr,
}
use urss.UintQueue
use urss.UintQueue.Stack.{contents, contents-pop}
use urss.Game.{outs, vertexcount}
use urss.Game.Ins.{ins}
use urss.Base.Tally.{occ}
use urss.Pp.{Pp, is_in, attract_round, attract_loop}
use urss.Pp.Below.{at_small}
use urss.Pp.Drain.{Waits, IsLower, IsDraining, can_escape_ext}
use urss.Pp.Grow.{IsGrowing, stays, enters, work}
use urss.Pp.Attract.{attract_to_lem}

module _ (p : ℕ) (start : Pp) (old : ℕ) (s : Pp) (h : IsGrowing p start old [] s)
    (drain : IsDraining p old [] s) (some_left : UintQueue.nonempty s.q ≡ true) where
  abbrev top : ℕ
  top = (UintQueue.pop s.q).0

  abbrev popped : Pp
  popped = record s { q = (UintQueue.pop s.q).1 }

  contents_lem : contents s.q ≡ top ∷ contents popped.q
  contents_lem = contents-pop s.q some_left

  top_inside : is_in p s top ≡ true
  top_inside = h.queued top (rw contents_lem (ground arith))

  top_small : top < vertexcount s.oink.game
  top_small = at_small p s top h.region.region_size top_inside

  work-popped : work p popped + 1 ≡ work p s
  unfolding UintQueue.pop UintQueue.nonempty
  work-popped = ground (arith, some_left)

  pop_lem : IsGrowing p start top (ins s.oink.game top) popped
  unfolding UintQueue.pop
  pop_lem = record {
    graph = h.graph;
    region = record {
      region_size = h.region.region_size;
      strategy_size = h.region.strategy_size;
      few = h.region.few;
      sized = h.region.sized;
      distinct = h.region.distinct;
      exact = h.region.exact;
      chosen = h.region.chosen;
      based = h.region.based;
      forced = h.region.forced;
    };
    queued = λ u k. h.queued u (rw contents_lem (omega (arith, k)));
    pending = λ x k.
        let small = h.graph.in_range x top top_small k in
        (small, omega (arith, h.graph.converse x top small top_small, k), top_inside);
    room = omega (arith, h.room);
    same_capacity = h.same_capacity;
    same_count = h.same_count;
    same_inverse = h.same_inverse;
    same_marks = h.same_marks;
    same_oink = h.same_oink;
    others = h.others;
    moved = λ v. elim (h.moved v) [ stays a b ↦ stays a b | enters a b c ↦ enters a b c ];
  }

  popped-Waits :
      (w v : ℕ)
      → v < vertexcount s.oink.game
      → 0 < occ w (outs s.oink.game v)
      → Waits old [] s w v
      → Waits top (ins s.oink.game top) popped w v
  popped-Waits w v small k (inl a) = elim (Bool-cases (top == w)) [
    | inl e ↦
        let here : top ≡ w = ground arith in
        inr (
          sym here,
          omega (
            arith,
            h.graph.converse v top small top_small,
            subst (λ y. 0 < occ y (outs s.oink.game v)) (sym here) k,
          ),
        )
    | inr e ↦ inl (ground (arith, a, e, ap (occ w) contents_lem))
  ]
  popped-Waits w v small k (inr (a, b)) = absurd (omega (arith, b))

  popped-IsLower : (v : ℕ) → IsLower p popped v → IsLower p s v
  popped-IsLower v l = record { small = l.small; enabled = l.enabled; low = l.low }

  pop_drain : IsDraining p top (ins s.oink.game top) popped
  unfolding UintQueue.pop
  pop_drain = record {
    own = λ v u l m k a. popped-Waits u v l.small k (drain.own v u (popped-IsLower v l) m k a);
    opponent = λ v u l m k a. elim (drain.opponent v u (popped-IsLower v l) m k a) [
      | inl b ↦ inl (can_escape_ext popped s p (outs s.oink.game v) (λ x. refl) (λ x. refl) ∙ b)
      | inr (w, b, c) ↦ inr (w, b, popped-Waits w v l.small b c)
    ];
  }

  round_lem :
      (u : ℕ) × IsGrowing p start u [] (attract_round p s)
      × IsDraining p u [] (attract_round p s)
      × (work p (attract_round p s) + 1 ≡ work p s)
  unfolding attract_round
  round_lem =
      let (a, b, c) = attract_to_lem p start top (ins s.oink.game top) popped pop_lem pop_drain in
      (top, a, b, omega (arith, c, work-popped))

pub attract_loop_lem :
    (p : ℕ) (start : Pp) (fuel old : ℕ) (s : Pp)
    → IsGrowing p start old [] s
    → IsDraining p old [] s
    → work p s ≤ fuel
    → (t : Pp) × (attract_loop fuel p s ≡ some t)
      × (UintQueue.nonempty t.q ≡ false)
      × ((u : ℕ) × IsGrowing p start u [] t × IsDraining p u [] t)
unfolding attract_loop UintQueue.nonempty
attract_loop_lem p start zero old s h d enough =
    let none_left : UintQueue.nonempty s.q ≡ false = ground (arith, enough) in
    (s, rw none_left refl, none_left, (old, h, d))
attract_loop_lem p start (suc fuel) old s h d enough = elim (Bool-cases (UintQueue.nonempty s.q)) [
  | inl e ↦
      let (u, a, b, c) = round_lem p start old s h d e in
      let (t, f, g, k) =
        attract_loop_lem p start fuel u (attract_round p s) a b (omega (arith, c, enough)) in
      (t, rw e f, g, k)
  | inr e ↦ (s, rw e refl, e, (old, h, d))
]
