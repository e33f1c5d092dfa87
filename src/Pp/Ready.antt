-- ===== src/Pp/Ready.antt =====
-- `setupRegion` of oink/src/pp.cpp with `mustReset`, as `run` calls it: the region it makes.
use urss.Base.{
  ◌==◌, ℕ, ◌+◌, ◌<◌, ◌≤◌, ◌≡◌, refl, sym, subst, ap, ◌∙◌, arith, true, false, not, ◌&&◌, List, [],
  ◌∷◌, ltb, length, get_or-replicate, Bool-cases, inl, inr,
}
use urss.UintQueue
use urss.UintQueue.{UintQueue}
use urss.Game.{priority_of, vertexcount}
use urss.Oink.{is_disabled}
use urss.Solver.{ok}
use urss.Base.Tally.{occ}
use urss.Pp.{is_below, Pp, region_of, members, is_at, is_in, is_none}
use urss.Pp.Setup.{unmark, is_empty, clean_region, add_escapes, setup_region}
use urss.Pp.Below.{in_at, at_small, at_not_below, length-lower}
use urss.Pp.Region.{IsRegion}
use urss.Pp.Grow.{IsGrowing, stays, enters}
use urss.Pp.Maximal.{IsMaximal, attract-IsMaximal}
use urss.Pp.Gate.{IsTop}
use urss.Pp.Adding.{IsHead, IsAdding}
use urss.Pp.Escapes.{add_escapes-IsAdding, add_escapes-oink}
use urss.Pp.Clean.{IsVisited, clean_region-IsAdding, clean_region-oink}

-- All vertices of the region have its priority.
added-IsRegion : (i p : ℕ) (s : Pp) → IsAdding i p 0 s → IsRegion p s
added-IsRegion i p s h = record {
  region_size = h.region_size;
  strategy_size = h.strategy_size;
  few = h.few;
  sized = omega (
    arith,
    h.region_size,
    length-lower p (members s p) s.region h.distinct (λ v k.
        let (a, b, c) = h.listed v k in
        (
          omega (arith, h.region_size, at_small p s v h.region_size a),
          at_not_below p (region_of s v) (in_at p s v a),
        )),
  );
  distinct = h.distinct;
  exact = λ v. elim (Bool-cases (is_in p s v)) [
    | inl e ↦ ground (arith, e, h.complete v e (omega arith))
    | inr e ↦ elim (Bool-cases (ltb 0 (occ v (members s p)))) [
      | inr f ↦ f ∙ sym e
      | inl f ↦ let (a, b, c) = h.listed v (ground (arith, f)) in absurd (ground (arith, a, e))
    ]
  ];
  chosen = λ v u a m e.
      let (b, c, d) = h.listed v (h.complete v a (omega arith)) in
      absurd (ground (arith, ap is_none d, ap is_none e));
  based = λ v a m e. absurd (ground (arith, e, h.heads v a));
  forced = λ v to a m e. absurd (ground (arith, e, h.heads v a));
}

-- What is in the region before attract is in it after.
kept_in :
    (p u : ℕ) (s t : Pp) → IsGrowing p s u [] t → (v : ℕ) → is_in p s v ≡ true → is_in p t v ≡ true
kept_in p u s t g v a = elim (g.moved v) [
  | stays e f ↦
      ap (λ o. is_at p (region_of t v) && not (is_disabled o v)) g.same_oink
      ∙ ap (λ o. is_at p o && not (is_disabled s.oink v)) e
      ∙ a
  | enters e f k ↦ k
]

is_empty-occ : (v : ℕ) (xs : List ℕ) → 0 < occ v xs → is_empty xs ≡ false
is_empty-occ v [] h = absurd (omega (arith, h))
is_empty-occ v (x ∷ xs) h = refl

occ_first : (xs : List ℕ) → is_empty xs ≡ false → (v : ℕ) × (0 < occ v xs)
occ_first [] e = absurd (ground (arith, e))
occ_first (x ∷ xs) e = (x, ground arith)

empty-IsMaximal : (p : ℕ) (s : Pp) → IsRegion p s → is_empty (members s p) ≡ true → IsMaximal p s
empty-IsMaximal p s h e = record {
  own = λ v u l m k. nobody u;
  opponent = λ v u l m k a. absurd (ground (arith, a, nobody u));
}
  where
    nobody : (u : ℕ) → is_in p s u ≡ false
    nobody u = elim (Bool-cases (is_in p s u)) [
      | inr a ↦ a
      | inl a ↦
          absurd (ground (arith, e, is_empty-occ u (members s p) (ground (arith, h.exact u, a))))
    ]

empty_lem : (s : Pp) → UintQueue.empty s.q ≡ true → UintQueue.nonempty s.q ≡ false
unfolding UintQueue.empty UintQueue.nonempty
empty_lem s e = ground (arith, e)

unmark-IsAdding : (i p n : ℕ) (s : Pp) → IsAdding i p n s → IsAdding i p n (unmark s)
unmark-IsAdding i p n s h = record {
  head = h.head;
  region_size = h.region_size;
  strategy_size = h.strategy_size;
  few = h.few;
  unmarked = get_or-replicate (length s.Z) false;
  distinct = h.distinct;
  listed = h.listed;
  complete = h.complete;
  heads = h.heads;
  up_to = h.up_to;
  raised = h.raised;
  empty = h.empty;
  room = h.room;
}

-- The vertex is the top of the region that attract makes.
grown-IsTop : (i p u : ℕ) (s t : Pp) → IsAdding i p 0 s → IsGrowing p s u [] t → IsTop i p t
grown-IsTop i p u s t h g = record {
  here = ap (λ o. priority_of o.game i) g.same_oink ∙ h.head.here;
  small = omega (arith, h.head.small, same_count);
  sorted = sorted_after.sorted;
  heads = λ v a e. elim (g.moved v) [
    | stays j f ↦ h.up_to v (
        ap (λ o. is_at p (region_of s v) && not (is_disabled o v)) (sym g.same_oink)
        ∙ ap (λ o. is_at p o && not (is_disabled t.oink v)) (sym j)
        ∙ a)
    | enters b f k ↦
        let small : v < vertexcount t.oink.game = at_small p t v g.region.region_size a in
        absurd (
          ground (
            arith,
            h.raised v f b (omega (arith, small, same_count)),
            sym (ap (λ o. priority_of o.game v) g.same_oink) ∙ e,
          ))
  ];
  raised = λ v f b k. ap (λ o. priority_of o.game v == p) g.same_oink ∙ (elim (g.moved v) [
    | stays e j ↦
        h.raised v (ap (λ o. is_disabled o v) (sym g.same_oink) ∙ f) (ap (is_below p) (sym e) ∙ b)
          (omega (arith, k, same_count))
    | enters c j a ↦ absurd (ground (arith, b, at_not_below p (region_of t v) (in_at p t v a)))
  ]);
}
  where
    same_count : vertexcount t.oink.game ≡ vertexcount s.oink.game
    same_count = ap (λ o. vertexcount o.game) g.same_oink

    sorted_after : IsHead i p t.oink
    sorted_after = subst (IsHead i p) (sym g.same_oink) h.head

added-IsTop : (i p : ℕ) (s : Pp) → IsAdding i p 0 s → IsTop i p s
added-IsTop i p s h = record {
  here = h.head.here;
  small = h.head.small;
  sorted = h.head.sorted;
  heads = λ v a e. h.up_to v a;
  raised = h.raised;
}

-- At a vertex where a region is set up, and with fuel for the vertices, setupRegion with mustReset
-- returns with an empty queue and says whether the region has a vertex. What it made is a region, which
-- is maximal, and the vertex is its top.
pub setup_region-IsMaximal :
    (fuel i p : ℕ) (s : Pp)
    → IsVisited i p s
    → vertexcount s.oink.game ≤ fuel
    → (t : Pp) × (setup_region fuel i p true s ≡ ok (not (is_empty (members t p)), t))
      × (UintQueue.nonempty t.q ≡ false)
      × (t.oink ≡ s.oink)
      × IsRegion p t
      × IsMaximal p t
      × IsTop i p t
unfolding setup_region
setup_region-IsMaximal fuel i p s h enough =
    let c = clean_region p true s in
    let u = unmark (add_escapes p (i + 1) c) in
    let same_oink : u.oink ≡ s.oink =
      add_escapes-oink p (i + 1) c ∙ clean_region-oink p s h.region_size in
    let added : IsAdding i p 0 u =
      unmark-IsAdding i p 0 (add_escapes p (i + 1) c)
        (add_escapes-IsAdding i p (i + 1) c (clean_region-IsAdding i p s h) (omega arith)) in
    let region = added-IsRegion i p u added in
    elim (Bool-cases (is_empty (members u p))) [
      | inl e ↦ (
        u,
        rw (setup_region, e) refl,
        empty_lem u added.empty,
        same_oink,
        region,
        empty-IsMaximal p u region e,
        added-IsTop i p u added,
      )
      | inr e ↦
          let (t, a, b, r, m, (w, g)) =
            attract-IsMaximal fuel p u added.head.graph region added.empty added.room
              (omega (arith, ap (λ o. vertexcount o.game) same_oink, enough)) in
          let (v, k) = occ_first (members u p) e in
          let inside : is_in p t v ≡ true =
            kept_in p w u t g v (sym (region.exact v) ∙ ground (arith, k)) in
          let full : is_empty (members t p) ≡ false =
            is_empty-occ v (members t p) (ground (arith, r.exact v, inside)) in
          (
            t,
            rw (setup_region, e, a, full) refl,
            b,
            g.same_oink ∙ same_oink,
            r,
            m,
            grown-IsTop i p w u t added g,
          )
    ]
