-- ===== src/Pp/Status.antt =====
-- `getRegionStatus` of oink/src/pp.cpp: what it says of a region is so.
use urss.Base.{
  some_eq, ℕ, zero, suc, ◌+◌, ◌≤◌, ◌<◌, ◌≡◌, refl, sym, subst, ap, ◌∙◌, arith, true, false, Option,
  none, some, ◌==◌, Bool-cases, inl, inr,
}
use urss.Game.{owner_of, priority_of, outs}
use urss.Oink.{same, is_odd}
use urss.Solver.{ok}
use urss.Base.Tally.{occ}
use urss.Pp.{Pp, region_of, strategy_of, members, is_above, is_below, is_at, is_in, is_none}
use urss.Pp.Setup.{Status, opened, is_opening, any_opening, get_region_status, status_of}
use urss.Pp.Region.{IsRegion}
use urss.Pp.Below.{not_escape, in_at, in_free, is_in-of}
use urss.Pp.Escape.{Leaves, LowestEscape, lowest_escape_lem}
use urss.Pp.Gate.{
  inside_lem, IsTop, Moves, Exit, Says, says_opened, says_dominion, says_closed, opening_of,
  opening-IsGate,
}

at_not_above : (p : ℕ) (r : Option ℕ) → is_at p r ≡ true → is_above p r ≡ false
at_not_above p none a = refl
at_not_above p (some r) a = ground (arith, a)

opening_lem :
    (p n : ℕ) (s : Pp) (v : ℕ)
    → any_opening p n s ≡ false
    → v < n
    → ((w : ℕ) → v ≤ w → w < n → priority_of s.oink.game w ≡ p)
    → is_opening p s v ≡ false
unfolding any_opening
opening_lem p zero s v h k f = absurd (omega arith)
opening_lem p (suc n) s v h k f =
    let head : (priority_of s.oink.game n == p) ≡ true =
      ground (arith, f n (omega (arith, k)) (omega arith)) in
    elim (Bool-cases (is_opening p s n)) [
      | inl a ↦ absurd (ground (arith, h, head, a))
      | inr a ↦ elim (Bool-cases (v == n)) [
        | inl b ↦ let here : n ≡ v = ground arith in subst (λ w. is_opening p s w ≡ false) here a
        | inr b ↦
            opening_lem p n s v (ground (arith, h, head, a)) (ground (arith, k, b))
              (λ w i j. f w i (omega (arith, j)))
      ]
    ]

module _ (i p : ℕ) (s : Pp) (h : IsRegion p s) (top : IsTop i p s)
    (shut : any_opening p (suc i) s ≡ false) where
  head_shut :
      (v : ℕ) → is_in p s v ≡ true → priority_of s.oink.game v ≡ p → is_opening p s v ≡ false
  head_shut v a e = opening_lem p (suc i) s v shut (omega (arith, top.heads v a e)) (λ w k l.
      omega (
        arith,
        top.sorted v w k (omega (arith, top.small, l)),
        top.sorted w i (omega (arith, l)) top.small,
        top.here,
        e,
      ))

  not_above : (v : ℕ) → is_in p s v ≡ true → is_above p (region_of s v) ≡ false
  not_above v a = at_not_above p (region_of s v) (in_at p s v a)

  based_all :
      (v : ℕ)
      → is_in p s v ≡ true
      → same (owner_of s.oink.game v) (is_odd p) ≡ true
      → is_none (strategy_of s v) ≡ false
  unfolding is_opening
  based_all v a m = elim (Bool-cases (priority_of s.oink.game v == p)) [
    | inr e ↦ h.based v a m e
    | inl e ↦ ground (arith, head_shut v a (ground (arith, e)), in_free p s v a, not_above v a, m)
  ]

  moves_lem : Moves p s
  moves_lem v a m = some_lem (strategy_of s v) refl
    where
      some_lem :
          (o : Option ℕ)
          → strategy_of s v ≡ o
          → (u : ℕ) × (strategy_of s v ≡ some u)
            × (0 < occ u (outs s.oink.game v))
            × (is_in p s u ≡ true)
      some_lem none e = absurd (ground (arith, based_all v a m, ap is_none e))
      some_lem (some u) e = let (b, c) = h.chosen v u a m e in (u, e, b, c)

  forced_all : (v to : ℕ) → Exit p s v to → is_below p (region_of s to) ≡ false
  unfolding is_opening
  forced_all v to x = elim (Bool-cases (priority_of s.oink.game v == p)) [
    | inr e ↦ h.forced v to x.inside x.theirs e x.edge x.free
    | inl e ↦
        not_escape s p (outs s.oink.game v) to
          (ground (
            arith,
            head_shut v x.inside (ground (arith, e)),
            in_free p s v x.inside,
            not_above v x.inside,
            x.theirs,
          ))
          x.edge x.free
  ]

  listed-Exit : (v to : ℕ) → Leaves p s (members s p) v to → Exit p s v to
  listed-Exit v to a = record {
    inside = sym (h.exact v) ∙ ground (arith, a.listed);
    theirs = a.theirs;
    edge = a.edge;
    free = a.free;
  }

  Exit-Leaves : (v to : ℕ) → Exit p s v to → Leaves p s (members s p) v to
  Exit-Leaves v to x = record {
    listed = ground (arith, h.exact v, x.inside);
    theirs = x.theirs;
    edge = x.edge;
    free = x.free;
  }

  says_lem : (m : Option ℕ) → LowestEscape p s (members s p) none m → Says p s (status_of m)
  says_lem none low = says_dominion moves_lem (λ v to x.
      elim (Bool-cases (is_above p (region_of s to))) [
        | inl a ↦
            let (j, e, b) = low.covers v to (Exit-Leaves v to x) a in absurd (ground (arith, e))
        | inr a ↦ is_in-of p s to (inside_lem p (region_of s to) (forced_all v to x) a) x.free
      ])
  says_lem (some r) low = elim low.source [
    | inl e ↦ absurd (ground (arith, e))
    | inr (v, to, k, a, b, c, d) ↦
        let same_r : k ≡ r = sym (some_eq r k b) in
        says_closed r v to (omega (arith, d, same_r)) moves_lem
          (λ w t x. elim (Bool-cases (is_above p (region_of s t))) [
            | inr e ↦
                inl (is_in-of p s t (inside_lem p (region_of s t) (forced_all w t x) e) x.free)
            | inl e ↦
                let (j, f, g) = low.covers w t (Exit-Leaves w t x) e in
                let same_j : j ≡ r = sym (some_eq r j f) in
                inr (subst (λ q. is_below q (region_of s t) ≡ false) same_j g)
          ])
          (listed-Exit v to a) (c ∙ ap some same_r)
  ]

-- With the region `p` and its top vertex `i`, getRegionStatus does not raise LOGIC_ERROR, and the status
-- that it returns is so. An open region has a vertex of its priority for which the player has no move, or
-- from which the opponent has an edge to a lower vertex that is not disabled. In a dominion the player
-- moves inside the region and the opponent cannot leave it. In a region that is closed to a higher one
-- the player moves inside it, and the opponent can leave it only to that one, and does so somewhere, or to
-- regions above that one.
pub get_region_status_lem :
    (i p : ℕ) (s : Pp)
    → IsRegion p s
    → IsTop i p s
    → (st : Status) × (get_region_status i p s ≡ ok st) × Says p s st
unfolding get_region_status
get_region_status_lem i p s h top =
    let e : i + 1 ≡ suc i = omega arith in
    elim (Bool-cases (any_opening p (i + 1) s)) [
      | inl a ↦
          let (v, b, c, d) = opening_of p (i + 1) s a in
          (
            opened,
            rw (get_region_status, a) refl,
            says_opened v (opening-IsGate i p s v top (omega (arith, b)) c d),
          )
      | inr a ↦
          let shut : any_opening p (suc i) s ≡ false = ap (λ k. any_opening p k s) (sym e) ∙ a in
          let (m, b, c) =
            lowest_escape_lem p s (members s p) none
              (λ v to l. forced_all i p s h top shut v to (listed-Exit i p s h top shut v to l)) in
          (status_of m, rw (get_region_status, a, b) refl, says_lem i p s h top shut m c)
    ]
