-- ===== src/Pp/Raise.antt =====
-- `promote` of oink/src/pp.cpp: a region is added to a higher one.
use urss.Base.{
  ℕ, ◌+◌, ◌<◌, ◌≡◌, ◌⊎◌, refl, sym, subst, ap, ◌∙◌, arith, Bool, true, false, not, ◌&&◌, List, [],
  ◌∷◌, ◌++◌, Option, none, some, if◌then◌else◌, ◌==◌, ltb, length, get_or, set, length-set,
  length-append, get_or-set, Bool-cases, inl, inr,
}
use urss.UintQueue
use urss.UintQueue.{UintQueue}
use urss.Game.{owner_of}
use urss.Oink.{same, is_odd, is_disabled}
use urss.Base.Tally.{occ, occ-append, Distinct, Distinct-append}
use urss.Pp.{Pp, region_of, members, is_below, is_at, is_in, is_none, push_all, promote_all}
use urss.Pp.Region.{IsRegion}
use urss.Pp.Below.{
  in_at, in_free, is_in-of, lower, lower-set, at_small, at_not_below, at_if, below_if,
}
use urss.Pp.Gate.{Moves, Exit}

-- region[v] = r for the vertices of a list
pub raise_all : List (Option ℕ) → List ℕ → ℕ → List (Option ℕ)
raise_all rs [] r = rs
raise_all rs (v ∷ vs) r = raise_all (set rs v (some r)) vs r

pub promote_all_lem :
    (r : ℕ) (vs : List ℕ) (s : Pp)
    → promote_all r s vs ≡ record s { region = raise_all s.region vs r; q = push_all s.q vs }
unfolding promote_all raise_all push_all
promote_all_lem r [] s = refl
promote_all_lem r (v ∷ vs) s =
    promote_all_lem r vs (record s { region = set s.region v (some r); q = UintQueue.push s.q v })

pub length-raise_all :
    (rs : List (Option ℕ)) (vs : List ℕ) (r : ℕ) → length (raise_all rs vs r) ≡ length rs
unfolding raise_all
length-raise_all rs [] r = refl
length-raise_all rs (v ∷ vs) r =
    length-raise_all (set rs v (some r)) vs r ∙ length-set rs v (some r)

pub get_or-raise_all :
    (rs : List (Option ℕ)) (vs : List ℕ) (r u : ℕ)
    → ((v : ℕ) → 0 < occ v vs → v < length rs)
    → get_or (raise_all rs vs r) u none ≡ (if ltb 0 (occ u vs) then some r else get_or rs u none)
unfolding raise_all
get_or-raise_all rs [] r u h = ground arith
get_or-raise_all rs (v ∷ vs) r u h =
    get_or-raise_all (set rs v (some r)) vs r u
      (λ w k. omega (arith, length-set rs v (some r), h w (omega (arith, k))))
    ∙ ground (arith, get_or-set rs v u (some r) none (h v (ground arith)))

pub lower-raise_all :
    (rs : List (Option ℕ)) (vs : List ℕ) (r : ℕ)
    → Distinct vs
    → ((v : ℕ) → 0 < occ v vs → (v < length rs) × (is_below r (get_or rs v none) ≡ true))
    → lower r (raise_all rs vs r) + length vs ≡ lower r rs
unfolding raise_all
lower-raise_all rs [] r d h = omega arith
lower-raise_all rs (v ∷ vs) r (a, d) h =
    let (b, c) = h v (ground arith) in
    omega (
      arith,
      lower-set r rs v b c,
      lower-raise_all (set rs v (some r)) vs r d (λ w k.
          let e : (w == v) ≡ false = ground (arith, k, a, ap (λ y. occ y vs) {x = w} {y = v}) in
          let (f, g) = h w (omega (arith, k)) in
          (
            omega (arith, length-set rs v (some r), f),
            ap (is_below r) (get_or-set rs v w (some r) none b ∙ rw e refl) ∙ g,
          )),
    )

pub at_below : (p r : ℕ) (o : Option ℕ) → p < r → is_at p o ≡ true → is_below r o ≡ true
at_below p r none l a = refl
at_below p r (some k) l a = ground (arith, l, a)

-- A region that is closed to a higher one.
module _ (p r : ℕ) (s : Pp) (low : IsRegion p s) (high : IsRegion r s) (less : p < r)
    (parity : is_odd p ≡ is_odd r) (moves : Moves p s)
    (exits : (v to : ℕ)
      → Exit p s v to
      → (is_in p s to ≡ true) ⊎ (is_below r (region_of s to) ≡ false)) where
  abbrev pub merged : Pp
  merged = record s {
    region = raise_all s.region (members s p) r;
    q = push_all s.q (members s p);
    regions = set (set s.regions r (members s r ++ members s p)) p [];
  }

  pub in_low : (v : ℕ) → 0 < occ v (members s p) → is_in p s v ≡ true
  in_low v k = sym (low.exact v) ∙ ground (arith, k)

  small_low : (v : ℕ) → 0 < occ v (members s p) → v < length s.region
  small_low v k = omega (arith, low.region_size, at_small p s v low.region_size (in_low v k))

  pub region_merged : (v : ℕ) → region_of merged v ≡ (if is_in p s v then some r else region_of s v)
  region_merged v =
      get_or-raise_all s.region (members s p) r v small_low
      ∙ ap (λ (b : Bool). if b then some r else region_of s v) (low.exact v)

  pub at_merged : (v : ℕ) → is_in r merged v ≡ (if is_in p s v then true else is_in r s v)
  at_merged v =
      let a = ap (is_at r) (region_merged v) ∙ at_if r (is_in p s v) (region_of s v) in
      elim (Bool-cases (is_in p s v)) [
        | inl e ↦ is_in-of r merged v (a ∙ rw e refl) (in_free p s v e) ∙ rw e refl
        | inr e ↦
            let b : is_at r (region_of merged v) ≡ is_at r (region_of s v) = a ∙ rw e refl in
            ap (λ x. x && not (is_disabled s.oink v)) b ∙ rw e refl
      ]

  pub below_merged :
      (v : ℕ)
      → is_below r (region_of merged v)
        ≡ (if is_in p s v then false else is_below r (region_of s v))
  below_merged v = ap (is_below r) (region_merged v) ∙ below_if r (is_in p s v) (region_of s v)

  pub members-merged : members merged r ≡ members s r ++ members s p
  members-merged =
      let other : (r == p) ≡ false = ground (arith, less) in
      let here : (r == r) ≡ true = ground arith in
      get_or-set (set s.regions r (members s r ++ members s p)) p r [] []
        (omega (arith, length-set s.regions r (members s r ++ members s p), low.few))
      ∙ rw other refl
      ∙ get_or-set s.regions r r (members s r ++ members s p) [] high.few
      ∙ rw here refl

  pub low_below : (v : ℕ) → is_in p s v ≡ true → is_below r (region_of s v) ≡ true
  low_below v a = at_below p r (region_of s v) less (in_at p s v a)

  pub apart : (v : ℕ) → is_in r s v ≡ true → is_in p s v ≡ false
  apart v a = elim (Bool-cases (is_in p s v)) [
    | inr e ↦ e
    | inl e ↦ absurd (ground (arith, low_below v e, at_not_below r (region_of s v) (in_at r s v a)))
  ]

  mine_low :
      (v : ℕ) (b : Bool)
      → same (owner_of s.oink.game v) (is_odd r) ≡ b
      → same (owner_of s.oink.game v) (is_odd p) ≡ b
  mine_low v b e = ap (same (owner_of s.oink.game v)) parity ∙ e

  -- A vertex of the merged region was in one of the two.
  pub part : (v : ℕ) → is_in r merged v ≡ true → (is_in p s v ≡ true) ⊎ (is_in r s v ≡ true)
  part v a = elim (Bool-cases (is_in p s v)) [
    | inl e ↦ inl e
    | inr e ↦ inr (ground (arith, a, e, at_merged v))
  ]

  pub merged-IsRegion : IsRegion r merged
  merged-IsRegion = record {
    region_size = length-raise_all s.region (members s p) r ∙ low.region_size;
    strategy_size = low.strategy_size;
    few = omega (
      arith,
      high.few,
      length-set s.regions r (members s r ++ members s p),
      length-set (set s.regions r (members s r ++ members s p)) p [],
    );
    sized = omega (
      arith,
      high.sized,
      ap length members-merged,
      length-append (members s r) (members s p),
      lower-raise_all s.region (members s p) r low.distinct
          (λ v k. (small_low v k, low_below v (in_low v k))),
    );
    distinct = subst Distinct (sym members-merged) (
        Distinct-append (members s r) (members s p) high.distinct low.distinct (λ v k.
          let a : is_in r s v ≡ true = sym (high.exact v) ∙ ground (arith, k) in
          ground (arith, low.exact v, apart v a)));
    exact = λ v.
        ap (λ l. ltb 0 (occ v l)) members-merged
        ∙ ground (arith, occ-append v (members s r) (members s p), low.exact v, high.exact v)
        ∙ sym (at_merged v);
    chosen = λ v u a m e. elim (part v a) [
      | inl k ↦
          let (b, c) = low.chosen v u k (mine_low v true m) e in (b, ground (arith, at_merged u, c))
      | inr k ↦ let (b, c) = high.chosen v u k m e in (b, ground (arith, at_merged u, c))
    ];
    based = λ v a m e. elim (part v a) [
      | inl k ↦ let (u, b, c, d) = moves v k (mine_low v true m) in ap is_none b
      | inr k ↦ high.based v k m e
    ];
    forced = λ v to a m e k d. elim (part v a) [
      | inr i ↦ ground (arith, below_merged to, high.forced v to i m e k d)
      | inl i ↦
          elim (exits v to
            (record { inside = i; theirs = mine_low v false m; edge = k; free = d })) [
              | inl j ↦ ground (arith, below_merged to, j)
              | inr j ↦ ground (arith, below_merged to, j)
            ]
    ];
  }
