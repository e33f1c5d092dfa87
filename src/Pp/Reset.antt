-- ===== src/Pp/Reset.antt =====
-- `resetRegion` of oink/src/pp.cpp: only vertices of its priority stay in the region.
use urss.Base.{
  ℕ, ◌<◌, ◌≡◌, ◌⊎◌, refl, sym, subst, ap, ◌∙◌, arith, true, false, not, ◌&&◌, List, [], ◌∷◌, Option,
  none, some, ◌==◌, length, get_or, set, length-set, get_or-set, get_or-set_other, Bool-cases, inl,
  inr,
}
use urss.Game.{priority_of, vertexcount}
use urss.Oink.{is_disabled}
use urss.Base.Tally.{occ}
use urss.Pp.{Pp, region_of, is_at, is_below, is_in, reset_vertex, reset_all}
use urss.Pp.Below.{in_at, in_free, is_in-of, at_small}

-- From `s` to `t` vertices have left the region `p`, and of the vertices `js` only those of its priority
-- are still in it.
pub record IsReset (p : ℕ) (js : List ℕ) (s t : Pp) : Type 0 where
  pub same_oink : t.oink ≡ s.oink
  pub same_regions : t.regions ≡ s.regions
  pub same_q : t.q ≡ s.q
  pub region_size : length t.region ≡ length s.region
  pub strategy_size : length t.strategy ≡ length s.strategy
  pub narrower : (v : ℕ) → is_in p t v ≡ true → is_in p s v ≡ true
  pub settled :
      (v : ℕ) → 0 < occ v js → is_in p t v ≡ true → (priority_of s.oink.game v == p) ≡ true
  -- A vertex that has come below the region has another priority.
  pub lowered :
      (v : ℕ)
      → is_disabled s.oink v ≡ false
      → is_below p (region_of t v) ≡ true
      → (is_below p (region_of s v) ≡ true) ⊎ ((priority_of s.oink.game v == p) ≡ false)

at_same :
    (p : ℕ) (s : Pp) (rs : List (Option ℕ)) (v : ℕ)
    → get_or rs v none ≡ region_of s v
    → is_in p (record s { region = rs }) v ≡ true
    → is_in p s v ≡ true
at_same p s rs v e a = ap (λ o. is_at p o && not (is_disabled s.oink v)) (sym e) ∙ a

at_here : (p r : ℕ) → is_at p (some r) ≡ true → (r == p) ≡ true
at_here p r a = a

below_other : (p r : ℕ) → is_below p (some r) ≡ true → (r == p) ≡ false
below_other p r a = ground (arith, a)

reset_vertex-IsReset :
    (p : ℕ) (s : Pp) (j : ℕ)
    → length s.region ≡ vertexcount s.oink.game
    → IsReset p (j ∷ []) s (reset_vertex p s j)
unfolding reset_vertex
reset_vertex-IsReset p s j size = elim (Bool-cases (is_disabled s.oink j)) [
  | inl d ↦ rw d (record {
    same_oink = refl;
    same_regions = refl;
    same_q = refl;
    region_size = length-set s.region j none;
    strategy_size = refl;
    narrower = λ v a. elim (Bool-cases (v == j)) [
      | inl e ↦ absurd (gone d v e (in_free p (record s { region = set s.region j none }) v a))
      | inr e ↦ at_same p s (set s.region j none) v (get_or-set_other s.region j v none none e) a
    ];
    settled = λ v k a.
        absurd (
          gone d v (ground (arith, k)) (in_free p (record s { region = set s.region j none }) v a));
    lowered = λ v f a. elim (Bool-cases (v == j)) [
      | inl e ↦ absurd (gone d v e f)
      | inr e ↦ inl (ap (is_below p) (sym (get_or-set_other s.region j v none none e)) ∙ a)
    ];
  })
  | inr d ↦ elim (Bool-cases (is_at p (region_of s j))) [
    | inl b ↦
        let here : is_in p s j ≡ true = is_in-of p s j b d in
        let small : j < length s.region = omega (arith, size, at_small p s j size here) in
        rw (d, b)
          (record {
            same_oink = refl;
            same_regions = refl;
            same_q = refl;
            region_size = length-set s.region j (some (priority_of s.oink.game j));
            strategy_size = length-set s.strategy j none;
            narrower = λ v a. elim (Bool-cases (v == j)) [
              | inl e ↦
                  let same_v : j ≡ v = ground arith in subst (λ x. is_in p s x ≡ true) same_v here
              | inr e ↦
                  at_same p s (set s.region j (some (priority_of s.oink.game j))) v
                    (get_or-set_other s.region j v (some (priority_of s.oink.game j)) none e) a
            ];
            settled = λ v k a. to_own small v (ground (arith, k)) a;
            lowered = λ v f a. elim (Bool-cases (v == j)) [
              | inl e ↦ inr (to_lower small v (ground (arith, e)) a)
              | inr e ↦ inl (
                  ap (is_below p)
                    (sym (get_or-set_other s.region j v (some (priority_of s.oink.game j)) none e))
                  ∙ a)
            ];
          })
    | inr b ↦
        rw (d, b)
          (record {
            same_oink = refl;
            same_regions = refl;
            same_q = refl;
            region_size = refl;
            strategy_size = refl;
            narrower = λ v a. a;
            settled = λ v k a.
                let same_v : v ≡ j = ground (arith, k) in
                absurd (ground (arith, b, in_at p s j (subst (λ x. is_in p s x ≡ true) same_v a)));
            lowered = λ v f a. inl a;
          })
  ]
]
  where
    gone :
        is_disabled s.oink j ≡ true → (v : ℕ) → (v == j) ≡ true → is_disabled s.oink v ≡ false → ⊥
    gone d v e f =
        let same_v : v ≡ j = ground (arith, e) in
        let g = subst (λ x. is_disabled s.oink x ≡ false) same_v f in ground (arith, d, g)

    to_own :
        j < length s.region
        → (v : ℕ) → v ≡ j
        → is_in p (record s { region = set s.region j (some (priority_of s.oink.game j)) }) v ≡ true
        → (priority_of s.oink.game v == p) ≡ true
    to_own small v e a =
        let w = some (priority_of s.oink.game j) in
        let t = record s { region = set s.region j w } in
        let b : is_at p (region_of t j) ≡ true =
          subst (λ x. is_at p (region_of t x) ≡ true) e (in_at p t v a) in
        let here : (j == j) ≡ true = ground arith in
        let c : region_of t j ≡ w = get_or-set s.region j j w none small ∙ rw here refl in
        subst (λ x. (priority_of s.oink.game x == p) ≡ true) (sym e)
          (at_here p (priority_of s.oink.game j) (ap (is_at p) (sym c) ∙ b))

    to_lower :
        j < length s.region
        → (v : ℕ) → v ≡ j
        → is_below p (get_or (set s.region j (some (priority_of s.oink.game j))) v none) ≡ true
        → (priority_of s.oink.game v == p) ≡ false
    to_lower small v e a =
        let w = some (priority_of s.oink.game j) in
        let here : (v == j) ≡ true = ground (arith, e) in
        let c : get_or (set s.region j w) v none ≡ w =
          get_or-set s.region j v w none small ∙ rw here refl in
        subst (λ x. (priority_of s.oink.game x == p) ≡ false) (sym e)
          (below_other p (priority_of s.oink.game j) (ap (is_below p) (sym c) ∙ a))

pub reset_all-IsReset :
    (p : ℕ) (js : List ℕ) (s : Pp)
    → length s.region ≡ vertexcount s.oink.game
    → IsReset p js s (reset_all p s js)
unfolding reset_all
reset_all-IsReset p [] s size = record {
  same_oink = refl;
  same_regions = refl;
  same_q = refl;
  region_size = refl;
  strategy_size = refl;
  narrower = λ v a. a;
  settled = λ v k a. absurd (omega (arith, k));
  lowered = λ v f a. inl a;
}
reset_all-IsReset p (j ∷ js) s size =
    let a = reset_vertex-IsReset p s j size in
    let t = reset_vertex p s j in
    let b =
      reset_all-IsReset p js t
        (a.region_size ∙ size ∙ ap (λ o. vertexcount o.game) (sym a.same_oink)) in
    record {
      same_oink = b.same_oink ∙ a.same_oink;
      same_regions = b.same_regions ∙ a.same_regions;
      same_q = b.same_q ∙ a.same_q;
      region_size = b.region_size ∙ a.region_size;
      strategy_size = b.strategy_size ∙ a.strategy_size;
      narrower = λ v k. a.narrower v (b.narrower v k);
      settled = λ v k c. elim (Bool-cases (v == j)) [
        | inl e ↦ a.settled v (ground (arith, e)) (b.narrower v c)
        | inr e ↦
            ap (λ o. priority_of o.game v == p) (sym a.same_oink)
            ∙ b.settled v (ground (arith, k, e)) c
      ];
      lowered = λ v f c. elim (b.lowered v (ap (λ o. is_disabled o v) a.same_oink ∙ f) c) [
        | inl e ↦ a.lowered v f e
        | inr e ↦ inr (ap (λ o. priority_of o.game v == p) (sym a.same_oink) ∙ e)
      ];
    }
