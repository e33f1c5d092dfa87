-- ===== src/Pp/Escape.antt =====
-- The escapes that the second loop of `getRegionStatus` of oink/src/pp.cpp finds.
use urss.Base.{
  ℕ, ◌<◌, ◌≡◌, ◌⊎◌, refl, subst, ◌∙◌, arith, true, false, List, [], ◌∷◌, Option, some, ◌==◌,
  Bool-cases, inl, inr,
}
use urss.Game.{owner_of, outs}
use urss.Oink.{same, is_odd, is_disabled}
use urss.Solver.{ok}
use urss.Base.Tally.{occ}
use urss.Pp.{Pp, region_of, is_above, is_below}
use urss.Pp.Setup.{lowest_escape}
use urss.Pp.Lowest.{AtMost, Covers, lowest_successor_lem, AtMost-through, Covers-more}

-- The same for the successors of the opponent's vertices among `js`.
pub record Leaves (p : ℕ) (s : Pp) (js : List ℕ) (j to : ℕ) : Type 0 where
  pub listed : 0 < occ j js
  pub theirs : same (owner_of s.oink.game j) (is_odd p) ≡ false
  pub edge : 0 < occ to (outs s.oink.game j)
  pub free : is_disabled s.oink to ≡ false

pub record LowestEscape (p : ℕ) (s : Pp) (js : List ℕ) (l m : Option ℕ) : Type 0 where
  pub at_most : AtMost m l
  pub covers : (j to : ℕ) → Leaves p s js j to → is_above p (region_of s to) ≡ true → Covers s m to
  pub source :
      (m ≡ l)
      ⊎ ((j to k : ℕ) × Leaves p s js j to × (m ≡ some k) × (region_of s to ≡ some k) × (p < k))

weaken :
    (p : ℕ) (s : Pp) (x : ℕ) (js : List ℕ) (j to : ℕ)
    → Leaves p s js j to
    → Leaves p s (x ∷ js) j to
weaken p s x js j to a = record {
  listed = omega (arith, a.listed);
  theirs = a.theirs;
  edge = a.edge;
  free = a.free;
}

strengthen :
    (p : ℕ) (s : Pp) (x : ℕ) (js : List ℕ) (j to : ℕ)
    → (x == j) ≡ false
    → Leaves p s (x ∷ js) j to
    → Leaves p s js j to
strengthen p s x js j to e a = record {
  listed = ground (arith, a.listed, e);
  theirs = a.theirs;
  edge = a.edge;
  free = a.free;
}

pub lowest_escape_lem :
    (p : ℕ) (s : Pp) (js : List ℕ) (l : Option ℕ)
    → ((j to : ℕ) → Leaves p s js j to → is_below p (region_of s to) ≡ false)
    → (m : Option ℕ) × (lowest_escape p s js l ≡ ok m) × LowestEscape p s js l m
unfolding lowest_escape
lowest_escape_lem p s [] l h = (
  l,
  refl,
  record {
    at_most = λ k e. (k, e, omega arith);
    covers = λ j to a g. absurd (omega (arith, a.listed));
    source = inl refl;
  },
)
lowest_escape_lem p s (x ∷ js) l h = elim (Bool-cases (same (owner_of s.oink.game x) (is_odd p))) [
  | inl d ↦
      let (m, a, b) = lowest_escape_lem p s js l (λ j to e. h j to (weaken p s x js j to e)) in
      (
        m,
        rw (lowest_escape, d) a,
        record {
          at_most = b.at_most;
          covers = λ j to e g. elim (Bool-cases (x == j)) [
            | inl f ↦
                let here : j ≡ x = ground arith in
                let i =
                  subst (λ y. same (owner_of s.oink.game y) (is_odd p) ≡ false) here e.theirs in
                absurd (ground (arith, i, d))
            | inr f ↦ b.covers j to (strengthen p s x js j to f e) g
          ];
          source = elim b.source [
            | inl c ↦ inl c
            | inr (j, to, k, e, f, g, i) ↦ inr (j, to, k, weaken p s x js j to e, f, g, i)
          ];
        },
      )
  | inr d ↦
      let (k, a, b) =
        lowest_successor_lem p s (outs s.oink.game x) l
          (λ to e f. h x to (record { listed = ground arith; theirs = d; edge = e; free = f })) in
      let (m, c, e) = lowest_escape_lem p s js k (λ j to e. h j to (weaken p s x js j to e)) in
      (
        m,
        rw (lowest_escape, d, a) c,
        record {
          at_most = AtMost-through m k l e.at_most b.at_most;
          covers = λ j to f g. elim (Bool-cases (x == j)) [
            | inr i ↦ e.covers j to (strengthen p s x js j to i f) g
            | inl i ↦
                let here : j ≡ x = ground arith in
                Covers-more s m k to e.at_most
                  (b.covers to (subst (λ y. 0 < occ to (outs s.oink.game y)) here f.edge) f.free g)
          ];
          source = elim e.source [
            | inr (j, to, r, f, g, i, n) ↦ inr (j, to, r, weaken p s x js j to f, g, i, n)
            | inl f ↦ elim b.source [
              | inl g ↦ inl (f ∙ g)
              | inr (to, r, g, i, n, q, t) ↦ inr (
                x,
                to,
                r,
                record { listed = ground arith; theirs = d; edge = g; free = i },
                f ∙ n,
                q,
                t,
              )
            ]
          ];
        },
      )
]
