-- ===== src/Pp/Clean.antt =====
-- `setupRegion` of oink/src/pp.cpp with `mustReset`: the region before its vertices are added.
use urss.Base.{
  ℕ, ◌+◌, ◌<◌, ◌≤◌, ◌≡◌, refl, sym, subst, ap, ◌∙◌, arith, true, false, List, [], ◌∷◌, ◌==◌, ltb,
  length, get_or, set, length-set, get_or-set, get_or-replicate, Bool-cases, inl, inr,
}
use urss.UintQueue
use urss.UintQueue.{UintQueue}
use urss.UintQueue.Stack.{capacity}
use urss.Game.{priority_of, vertexcount}
use urss.Oink.{is_disabled}
use urss.Base.Tally.{occ, Distinct}
use urss.Pp.{Pp, region_of, members, is_below, is_in, reset_all, reset_region}
use urss.Pp.Setup.{unmark, is_empty, clean_region}
use urss.Pp.Reset.{IsReset, reset_all-IsReset}
use urss.Pp.Adding.{IsHead, IsAdding}

-- The state at a vertex `i` of the priority `p`, where the region is set up: the vertices of another
-- priority that are in it are listed, the vertices of the priority above `i` are not in it, and no vertex
-- of the priority is below it.
pub record IsVisited (i p : ℕ) (s : Pp) : Type 0 where
  pub head : IsHead i p s.oink
  pub region_size : length s.region ≡ vertexcount s.oink.game
  pub strategy_size : length s.strategy ≡ vertexcount s.oink.game
  pub few : p < length s.regions
  pub listed :
      (v : ℕ)
      → is_in p s v ≡ true
      → (priority_of s.oink.game v == p) ≡ false
      → 0 < occ v (members s p)
  pub passed : (v : ℕ) → i < v → priority_of s.oink.game v ≡ p → is_in p s v ≡ false
  pub raised :
      (v : ℕ)
      → is_disabled s.oink v ≡ false
      → is_below p (region_of s v) ≡ true
      → v < vertexcount s.oink.game
      → (priority_of s.oink.game v == p) ≡ false
  pub empty : UintQueue.empty s.q ≡ true
  pub room : capacity s.q ≡ vertexcount s.oink.game

module _ (i p : ℕ) (s : Pp) (h : IsVisited i p s) where
  up_to : (v : ℕ) → is_in p s v ≡ true → priority_of s.oink.game v ≡ p → v ≤ i
  up_to v a e = elim (Bool-cases (ltb i v)) [
    | inl k ↦ absurd (ground (arith, a, h.passed v (ground (arith, k)) e))
    | inr k ↦ ground (arith, k)
  ]

  -- Nothing to reset.
  unlisted-IsAdding : members s p ≡ [] → IsAdding i p (i + 1) (unmark s)
  unlisted-IsAdding none_listed = record {
    head = h.head;
    region_size = h.region_size;
    strategy_size = h.strategy_size;
    few = h.few;
    unmarked = get_or-replicate (length s.Z) false;
    distinct = subst Distinct (sym none_listed) tt;
    listed = λ v k. absurd (omega (arith, k, ap (occ v) none_listed));
    complete = λ v a k. absurd (omega (arith, k, up_to v a (heads v a)));
    heads = heads;
    up_to = λ v a. up_to v a (heads v a);
    raised = h.raised;
    empty = h.empty;
    room = h.room;
  }
    where
      heads : (v : ℕ) → is_in p s v ≡ true → priority_of s.oink.game v ≡ p
      heads v a = elim (Bool-cases (priority_of s.oink.game v == p)) [
        | inl e ↦ ground (arith, e)
        | inr e ↦ absurd (omega (arith, h.listed v a e, ap (occ v) none_listed))
      ]

  abbrev cleaning : Pp
  cleaning = reset_all p s (members s p)

  reset-IsAdding : IsAdding i p (i + 1) (unmark (reset_region p s))
  unfolding reset_region
  reset-IsAdding = record {
    head = subst (IsHead i p) (sym r.same_oink) h.head;
    region_size = r.region_size ∙ h.region_size ∙ same_count;
    strategy_size = r.strategy_size ∙ h.strategy_size ∙ same_count;
    few = omega (arith, length-set cleaning.regions p [], ap length r.same_regions, h.few);
    unmarked = get_or-replicate (length cleaning.Z) false;
    distinct = subst Distinct (sym cleared) tt;
    listed = λ v k. absurd (omega (arith, k, ap (occ v) cleared));
    complete = λ v a k. absurd (omega (arith, k, below_top v a));
    heads = λ v a. ap (λ o. priority_of o.game v) r.same_oink ∙ heads v a;
    up_to = below_top;
    raised = λ v f b k.
        let free = ap (λ o. is_disabled o v) (sym r.same_oink) ∙ f in
        ap (λ o. priority_of o.game v == p) r.same_oink ∙ (elim (r.lowered v free b) [
          | inl e ↦ h.raised v free e (omega (arith, k, same_count))
          | inr e ↦ e
        ]);
    empty = ap UintQueue.empty r.same_q ∙ h.empty;
    room = ap capacity r.same_q ∙ h.room ∙ same_count;
  }
    where
      r : IsReset p (members s p) s cleaning
      r = reset_all-IsReset p (members s p) s h.region_size

      same_count : vertexcount s.oink.game ≡ vertexcount cleaning.oink.game
      same_count = ap (λ o. vertexcount o.game) (sym r.same_oink)

      cleared : get_or (set cleaning.regions p []) p [] ≡ []
      cleared =
          let here : (p == p) ≡ true = ground arith in
          get_or-set cleaning.regions p p [] [] (omega (arith, ap length r.same_regions, h.few))
          ∙ rw here refl

      heads : (v : ℕ) → is_in p cleaning v ≡ true → priority_of s.oink.game v ≡ p
      heads v a = elim (Bool-cases (priority_of s.oink.game v == p)) [
        | inl e ↦ ground (arith, e)
        | inr e ↦ absurd (ground (arith, e, r.settled v (h.listed v (r.narrower v a) e) a))
      ]

      below_top : (v : ℕ) → is_in p cleaning v ≡ true → v ≤ i
      below_top v a = up_to v (r.narrower v a) (heads v a)

  pub clean_region-IsAdding : IsAdding i p (i + 1) (clean_region p true s)
  unfolding clean_region
  clean_region-IsAdding = go (members s p) refl
    where
      go : (xs : List ℕ) → members s p ≡ xs → IsAdding i p (i + 1) (clean_region p true s)
      go [] e =
          let none_listed : is_empty (members s p) ≡ true = ap is_empty e in
          rw none_listed (unlisted-IsAdding e)
      go (x ∷ xs) e =
          let some_listed : is_empty (members s p) ≡ false = ap is_empty e in
          rw some_listed reset-IsAdding

pub clean_region-oink :
    (p : ℕ) (s : Pp)
    → length s.region ≡ vertexcount s.oink.game
    → (clean_region p true s).oink ≡ s.oink
unfolding clean_region reset_region
clean_region-oink p s size = elim (Bool-cases (is_empty (members s p))) [
  | inl e ↦ rw e refl
  | inr e ↦ let r = reset_all-IsReset p (members s p) s size in rw e r.same_oink
]
