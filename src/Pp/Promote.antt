-- ===== src/Pp/Promote.antt =====
-- `promote` of oink/src/pp.cpp as a whole.
use urss.Base.{
  ℕ, ◌+◌, ◌≤◌, ◌<◌, ◌≡◌, ◌⊎◌, refl, sym, ap, ◌∙◌, arith, true, false, not, ◌&&◌, List, [], ◌∷◌,
  some, ◌==◌, length, length-append, Bool-cases, inl, inr,
}
use urss.UintQueue
use urss.UintQueue.{UintQueue}
use urss.UintQueue.Stack.{contents, entries, capacity}
use urss.Game.{outs, vertexcount}
use urss.Oink.{is_odd, is_disabled}
use urss.Oink.Attract.{IsGraph}
use urss.Oink.Start.{graph_of}
use urss.Base.Tally.{occ}
use urss.Pp.{
  Pp, region_of, members, is_below, is_in, can_escape, attract, promote, merge_regions,
  count_promotion,
}
use urss.Pp.Region.{IsRegion}
use urss.Pp.Below.{at_small}
use urss.Pp.Grow.{IsGrowing, stays, work}
use urss.Pp.Drain.{IsLower, IsDraining, can_escape_ext}
use urss.Pp.Rounds.{attract_loop_lem}
use urss.Pp.Maximal.{IsMaximal, push_all_lem, drained-IsMaximal}
use urss.Pp.Gate.{Moves, Exit}
use urss.Pp.Raise.{
  promote_all_lem, merged, at_merged, below_merged, part, merged-IsRegion, members-merged,
}
use urss.Pp.Parity.{parity_lem}

module _ (p r : ℕ) (s : Pp) (graph : IsGraph (graph_of s.oink.game [])) (low : IsRegion p s)
    (high : IsRegion r s) (maximal : IsMaximal r s) (less : p < r) (parity : is_odd p ≡ is_odd r)
    (moves : Moves p s)
    (exits : (v to : ℕ)
      → Exit p s v to
      → (is_in p s to ≡ true) ⊎ (is_below r (region_of s to) ≡ false))
    (empty : UintQueue.empty s.q ≡ true) (room : capacity s.q ≡ vertexcount s.oink.game) where
  abbrev t : Pp
  t = merged p r s low high less parity moves exits

  region_lem : IsRegion r t
  region_lem = merged-IsRegion p r s low high less parity moves exits

  at_start : s.q.pointer ≡ 0
  unfolding UintQueue.empty
  at_start = ground (arith, empty)

  push_lem :
      ((u : ℕ) → occ u (contents t.q) ≡ occ u (members s p) + occ u (contents s.q))
      × (t.q.pointer ≡ s.q.pointer + length (members s p))
      × (capacity t.q ≡ capacity s.q)
  push_lem = push_all_lem (members s p) s.q (omega (arith, at_start, low.sized, room))

  nothing_before : (u : ℕ) → occ u (contents s.q) ≡ 0
  nothing_before u = ap (λ k. occ u (entries s.q.queue k)) at_start

  promoted_waits : (u : ℕ) → is_in p s u ≡ true → 0 < occ u (contents t.q)
  promoted_waits u a = ground (arith, push_lem.0 u, low.exact u, a)

  waits_promoted : (u : ℕ) → 0 < occ u (contents t.q) → is_in p s u ≡ true
  waits_promoted u k = sym (low.exact u) ∙ ground (arith, k, push_lem.0 u, nothing_before u)

  size_lem : length (members t r) ≡ length (members s r) + length (members s p)
  size_lem =
      ap length (members-merged p r s low high less parity moves exits)
      ∙ length-append (members s r) (members s p)

  work_lem : work r t ≤ vertexcount s.oink.game
  work_lem = omega (arith, push_lem.1, at_start, region_lem.sized, size_lem)

  merged-IsGrowing : IsGrowing r t 0 [] t
  merged-IsGrowing = record {
    graph = graph;
    region = region_lem;
    queued = λ u k.
        ground (arith, at_merged p r s low high less parity moves exits u, waits_promoted u k);
    pending = λ x k. absurd (omega (arith, k));
    room = omega (arith, push_lem.1, push_lem.2, at_start, region_lem.sized, size_lem, room);
    same_capacity = refl;
    same_count = refl;
    same_inverse = refl;
    same_marks = refl;
    same_oink = refl;
    others = λ q e. refl;
    moved = λ v. stays refl (λ e. refl);
  }

  not_promoted : (v : ℕ) → IsLower r t v → (is_in p s v ≡ false) × IsLower r s v
  not_promoted v l =
      let e : is_in p s v ≡ false =
        ground (arith, l.low, below_merged p r s low high less parity moves exits v) in
      (
        e,
        record {
          small = l.small;
          enabled = l.enabled;
          low = ground (arith, l.low, e, below_merged p r s low high less parity moves exits v);
        },
      )

  escape_lem :
      (ts : List ℕ)
      → can_escape s r ts ≡ true
      → (can_escape t r ts ≡ true) ⊎ ((w : ℕ) × (0 < occ w ts) × (is_in p s w ≡ true))
  unfolding can_escape
  escape_lem [] c = absurd (ground (arith, c))
  escape_lem (x ∷ ts) c = elim (Bool-cases (is_in p s x)) [
    | inl e ↦ inr (x, ground arith, e)
    | inr e ↦ elim (Bool-cases (not (is_disabled s.oink x) && is_below r (region_of s x))) [
      | inl f ↦ inl (ground (arith, f, e, below_merged p r s low high less parity moves exits x))
      | inr f ↦ elim (escape_lem ts (ground (arith, c, f))) [
        | inl k ↦ inl (ground (arith, k))
        | inr (w, i, j) ↦ inr (w, omega (arith, i), j)
      ]
    ]
  ]

  merged-IsDraining : IsDraining r 0 [] t
  merged-IsDraining = record {
    own = λ v u l m k a.
        let (e, f) = not_promoted v l in
        elim (part p r s low high less parity moves exits u a) [
          | inl b ↦ inl (promoted_waits u b)
          | inr b ↦ absurd (ground (arith, b, maximal.own v u f m k))
        ];
    opponent = λ v u l m k a.
        let (e, f) = not_promoted v l in
        elim (part p r s low high less parity moves exits u a) [
          | inl b ↦ inr (u, k, inl (promoted_waits u b))
          | inr b ↦ elim (escape_lem (outs s.oink.game v) (maximal.opponent v u f m k b)) [
            | inl c ↦ inl c
            | inr (w, c, d) ↦ inr (w, c, inl (promoted_waits w d))
          ]
        ];
  }

abbrev pub bump : Pp → Pp
bump s = record s { promotions = s.promotions + 1 }

pub bump-IsRegion : (p : ℕ) (s : Pp) → IsRegion p s → IsRegion p (bump s)
bump-IsRegion p s h = record {
  region_size = h.region_size;
  strategy_size = h.strategy_size;
  few = h.few;
  sized = h.sized;
  distinct = h.distinct;
  exact = h.exact;
  chosen = h.chosen;
  based = h.based;
  forced = h.forced;
}

pub bump-IsMaximal : (p : ℕ) (s : Pp) → IsMaximal p s → IsMaximal p (bump s)
bump-IsMaximal p s h = record {
  own = λ v u l m k. h.own v u (record { small = l.small; enabled = l.enabled; low = l.low }) m k;
  opponent = λ v u l m k a.
      can_escape_ext (bump s) s p (outs s.oink.game v) (λ x. refl) (λ x. refl)
      ∙ h.opponent v u (record { small = l.small; enabled = l.enabled; low = l.low }) m k a;
}

occ-length : (v : ℕ) (xs : List ℕ) → 0 < occ v xs → 0 < length xs
occ-length v [] h = absurd (omega (arith, h))
occ-length v (x ∷ xs) h = omega arith

-- Let a region be closed to a higher one: its player moves inside it, and the opponent, who has an edge
-- to the higher region, can leave it only to this region or above. With the higher region maximal, an
-- empty queue with room for the vertices, and fuel for the vertices, promote returns with an empty
-- queue, and the higher region is a maximal region with the parity of the lower one.
pub promote-IsMaximal :
    (fuel p r : ℕ) (s : Pp) (v to : ℕ)
    → IsGraph (graph_of s.oink.game [])
    → IsRegion p s
    → IsRegion r s
    → IsMaximal r s
    → p < r
    → Moves p s
    → ((v to : ℕ) → Exit p s v to → (is_in p s to ≡ true) ⊎ (is_below r (region_of s to) ≡ false))
    → Exit p s v to
    → is_in r s to ≡ true
    → UintQueue.empty s.q ≡ true
    → capacity s.q ≡ vertexcount s.oink.game
    → vertexcount s.oink.game ≤ fuel
    → (t : Pp) × (promote fuel p r s ≡ some t)
      × (UintQueue.nonempty t.q ≡ false)
      × (is_odd p ≡ is_odd r)
      × IsRegion r t
      × IsMaximal r t
unfolding promote merge_regions count_promotion attract UintQueue.empty
promote-IsMaximal fuel p r s v to graph low high maximal less moves exits x a empty room enough =
    let parity =
      parity_lem p r s v to low maximal less (at_small p s v low.region_size x.inside) x a in
    let m = merged p r s low high less parity moves exits in
    let growing =
      merged-IsGrowing p r s graph low high maximal less parity moves exits empty room in
    let (t, b, c, (u, d, e)) =
      attract_loop_lem r m fuel 0 m growing
        (merged-IsDraining p r s graph low high maximal less parity moves exits empty room)
        (omega (
          arith,
          work_lem p r s graph low high maximal less parity moves exits empty room,
          enough,
        )) in
    let pushed = push_lem p r s graph low high maximal less parity moves exits empty room in
    let filled : (m.q.pointer == 0) ≡ false =
      ground
        (arith, pushed.1, occ-length v (members s p) (ground (arith, low.exact v, x.inside))) in
    let attracted : attract fuel r m ≡ some t = rw (attract, filled, b) refl in
    (
      bump t,
      ap (λ z. count_promotion (attract fuel r (merge_regions p r z)))
            (promote_all_lem r (members s p) s)
          ∙ ap count_promotion attracted,
      c,
      parity,
      bump-IsRegion r t d.region,
      bump-IsMaximal r t (drained-IsMaximal r u t e c),
    )
