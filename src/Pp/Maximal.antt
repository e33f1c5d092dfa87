-- ===== src/Pp/Maximal.antt =====
-- `attract` as a whole.
use urss.Base.{
  ℕ, ◌+◌, ◌≤◌, ◌<◌, ◌≡◌, refl, sym, ap, ◌∙◌, arith, true, false, List, [], ◌∷◌, some, length,
  length-set, Bool-cases, inl, inr,
}
use urss.UintQueue
use urss.UintQueue.{UintQueue}
use urss.UintQueue.Stack.{contents, entries, contents-push, capacity}
use urss.Game.{owner_of, outs, vertexcount}
use urss.Oink.{same, is_odd}
use urss.Oink.Attract.{IsGraph}
use urss.Oink.Start.{graph_of}
use urss.Base.Tally.{occ}
use urss.Pp.{Pp, members, is_in, can_escape, push_all, attract}
use urss.Pp.Region.{IsRegion}
use urss.Pp.Drain.{IsLower, IsDraining}
use urss.Pp.Grow.{IsGrowing, stays, work}
use urss.Pp.Rounds.{attract_loop_lem}

-- The queue after the vertices are pushed.
pub push_all_lem :
    (vs : List ℕ) (q : UintQueue)
    → q.pointer + length vs ≤ capacity q
    → ((u : ℕ) → occ u (contents (push_all q vs)) ≡ occ u vs + occ u (contents q))
      × ((push_all q vs).pointer ≡ q.pointer + length vs)
      × (capacity (push_all q vs) ≡ capacity q)
unfolding push_all UintQueue.push
push_all_lem [] q h = (λ u. omega arith, omega arith, refl)
push_all_lem (v ∷ vs) q h =
    let same_size = length-set q.queue q.pointer v in
    let (a, b, c) = push_all_lem vs (UintQueue.push q v) (omega (arith, h, same_size)) in
    let top = contents-push q v (omega (arith, h)) in
    (λ u. omega (arith, a u, ap (occ u) top), omega (arith, b), c ∙ same_size)

-- No lower vertex is left to attract to the region: one of the player has no edge into it, and one of
-- the opponent that has can also move to a lower vertex.
pub record IsMaximal (p : ℕ) (s : Pp) : Type 0 where
  pub own :
      (v u : ℕ)
      → IsLower p s v
      → same (owner_of s.oink.game v) (is_odd p) ≡ true
      → 0 < occ u (outs s.oink.game v)
      → is_in p s u ≡ false
  pub opponent :
      (v u : ℕ)
      → IsLower p s v
      → same (owner_of s.oink.game v) (is_odd p) ≡ false
      → 0 < occ u (outs s.oink.game v)
      → is_in p s u ≡ true
      → can_escape s p (outs s.oink.game v) ≡ true

pub none_waits : (q : UintQueue) → UintQueue.nonempty q ≡ false → (u : ℕ) → occ u (contents q) ≡ 0
unfolding UintQueue.nonempty
none_waits q e u =
    let none_left : q.pointer ≡ 0 = ground (arith, e) in
    ap (λ k. occ u (entries q.queue k)) none_left

pub drained-IsMaximal :
    (p cur : ℕ) (s : Pp) → IsDraining p cur [] s → UintQueue.nonempty s.q ≡ false → IsMaximal p s
drained-IsMaximal p cur s d e = record {
  own = λ v u l m k. elim (Bool-cases (is_in p s u)) [
    | inr a ↦ a
    | inl a ↦ elim (d.own v u l m k a) [
      | inl b ↦ absurd (omega (arith, b, none_waits s.q e u))
      | inr (b, c) ↦ absurd (omega (arith, c))
    ]
  ];
  opponent = λ v u l m k a. elim (d.opponent v u l m k a) [
    | inl b ↦ b
    | inr (w, b, c) ↦ elim c [
      | inl f ↦ absurd (omega (arith, f, none_waits s.q e w))
      | inr (f, i) ↦ absurd (omega (arith, i))
    ]
  ];
}

-- The queue is filled with the region.
module _ (p : ℕ) (s : Pp) (graph : IsGraph (graph_of s.oink.game [])) (h : IsRegion p s)
    (empty : UintQueue.empty s.q ≡ true) (room : capacity s.q ≡ vertexcount s.oink.game) where
  abbrev filled : Pp
  filled = record s { q = push_all s.q (members s p) }

  at_start : s.q.pointer ≡ 0
  unfolding UintQueue.empty
  at_start = ground (arith, empty)

  push_lem :
      ((u : ℕ) → occ u (contents filled.q) ≡ occ u (members s p) + occ u (contents s.q))
      × (filled.q.pointer ≡ s.q.pointer + length (members s p))
      × (capacity filled.q ≡ capacity s.q)
  push_lem = push_all_lem (members s p) s.q (omega (arith, at_start, h.sized, room))

  nothing_before : (u : ℕ) → occ u (contents s.q) ≡ 0
  nothing_before u = ap (λ k. occ u (entries s.q.queue k)) at_start

  filled-IsRegion : IsRegion p filled
  filled-IsRegion = record {
    region_size = h.region_size;
    strategy_size = h.strategy_size;
    few = h.few;
    sized = h.sized;
    distinct = h.distinct;
    exact = h.exact;
    chosen = h.chosen;
    based = h.based;
    forced = h.forced;
  }

  filled-IsGrowing : IsGrowing p s 0 [] filled
  filled-IsGrowing = record {
    graph = graph;
    region = filled-IsRegion;
    queued = λ u k. sym (h.exact u) ∙ ground (arith, k, push_lem.0 u, nothing_before u);
    pending = λ x k. absurd (omega (arith, k));
    room = omega (arith, push_lem.1, push_lem.2, at_start, h.sized, room);
    same_capacity = push_lem.2;
    same_count = refl;
    same_inverse = refl;
    same_marks = refl;
    same_oink = refl;
    others = λ q e. refl;
    moved = λ v. stays refl (λ e. refl);
  }

  filled_waits : (u : ℕ) → is_in p s u ≡ true → 0 < occ u (contents filled.q)
  filled_waits u a = ground (arith, push_lem.0 u, h.exact u, a)

  filled-IsDraining : IsDraining p 0 [] filled
  filled-IsDraining = record {
    own = λ v u l m k a. inl (filled_waits u a);
    opponent = λ v u l m k a. inr (u, k, inl (filled_waits u a));
  }

  work-filled : work p filled ≤ vertexcount s.oink.game
  work-filled = omega (arith, push_lem.1, at_start, h.sized)

pub attract-IsMaximal :
    (fuel p : ℕ) (s : Pp)
    → IsGraph (graph_of s.oink.game [])
    → IsRegion p s
    → UintQueue.empty s.q ≡ true
    → capacity s.q ≡ vertexcount s.oink.game
    → vertexcount s.oink.game ≤ fuel
    → (t : Pp) × (attract fuel p s ≡ some t)
      × (UintQueue.nonempty t.q ≡ false)
      × IsRegion p t
      × IsMaximal p t
      × ((u : ℕ) × IsGrowing p s u [] t)
unfolding attract
attract-IsMaximal fuel p s graph h empty room enough =
    let (t, a, b, (u, c, d)) =
      attract_loop_lem p s fuel 0 (filled p s graph h empty room)
        (filled-IsGrowing p s graph h empty room) (filled-IsDraining p s graph h empty room)
        (omega (arith, work-filled p s graph h empty room, enough)) in
    (t, rw empty a, b, c.region, drained-IsMaximal p u t d b, (u, c))
