-- ===== src/Pp/Drain.antt =====
-- `attract` of oink/src/pp.cpp leaves no vertex that it should take.
use urss.Base.{
  ℕ, ◌<◌, ◌≡◌, ◌⊎◌, refl, subst, ◌∙◌, arith, true, false, not, ◌||◌, List, [], ◌∷◌, Option, ◌==◌,
  Bool-cases, inl, inr,
}
use urss.UintQueue.Stack.{contents}
use urss.Game.{owner_of, outs, vertexcount}
use urss.Oink.{same, is_odd, is_disabled}
use urss.Base.Tally.{occ}
use urss.Pp.{Pp, region_of, is_below, is_in, can_escape}

-- The vertex `w` waits in the queue, or `v` is still to be looked at as a predecessor of it.
abbrev pub Waits : ℕ → List ℕ → Pp → ℕ → ℕ → Type 0
Waits cur rest s w v = (0 < occ w (contents s.q)) ⊎ ((w ≡ cur) × (0 < occ v rest))

-- A lower vertex that is not disabled.
pub record IsLower (p : ℕ) (s : Pp) (v : ℕ) : Type 0 where
  pub small : v < vertexcount s.oink.game
  pub enabled : is_disabled s.oink v ≡ false
  pub low : is_below p (region_of s v) ≡ true

-- A lower vertex with an edge into the region can stay outside only while the region waits, or when it
-- is the opponent's and has an edge to a lower vertex.
pub record IsDraining (p cur : ℕ) (rest : List ℕ) (s : Pp) : Type 0 where
  pub own :
      (v u : ℕ)
      → IsLower p s v
      → same (owner_of s.oink.game v) (is_odd p) ≡ true
      → 0 < occ u (outs s.oink.game v)
      → is_in p s u ≡ true
      → Waits cur rest s u v
  pub opponent :
      (v u : ℕ)
      → IsLower p s v
      → same (owner_of s.oink.game v) (is_odd p) ≡ false
      → 0 < occ u (outs s.oink.game v)
      → is_in p s u ≡ true
      → (can_escape s p (outs s.oink.game v) ≡ true)
        ⊎ ((w : ℕ) × (0 < occ w (outs s.oink.game v)) × Waits cur rest s w v)

pub can_escape_ext :
    (s t : Pp) (p : ℕ) (ts : List ℕ)
    → ((v : ℕ) → is_disabled s.oink v ≡ is_disabled t.oink v)
    → ((v : ℕ) → is_below p (region_of s v) ≡ is_below p (region_of t v))
    → can_escape s p ts ≡ can_escape t p ts
unfolding can_escape
can_escape_ext s t p [] a b = refl
can_escape_ext s t p (x ∷ ts) a b = rw (a x, b x, can_escape_ext s t p ts a b) refl

-- The strategy does not matter.
pub mark_drain :
    (p cur : ℕ) (rest : List ℕ) (s : Pp) (l : List (Option ℕ))
    → IsDraining p cur rest s
    → IsDraining p cur rest (record s { strategy = l })
mark_drain p cur rest s l d = record {
  own =
      λ v u b m k a. d.own v u (record { small = b.small; enabled = b.enabled; low = b.low }) m k a;
  opponent = λ v u b m k a.
      elim (d.opponent v u (record { small = b.small; enabled = b.enabled; low = b.low }) m k a) [
        | inl c ↦ inl (
            can_escape_ext (record s { strategy = l }) s p (outs s.oink.game v) (λ x. refl)
              (λ x. refl)
            ∙ c)
        | inr c ↦ inr c
      ];
}

-- The predecessor at the head is dealt with, when it is not the vertex in question.
pub still-Waits :
    (cur x : ℕ) (rest : List ℕ) (s : Pp) (w v : ℕ)
    → (v == x) ≡ false
    → Waits cur (x ∷ rest) s w v
    → Waits cur rest s w v
still-Waits cur x rest s w v e (inl a) = inl a
still-Waits cur x rest s w v e (inr (a, b)) = inr (a, ground (arith, b, e))

-- Nothing changes for a predecessor that is not lower, or that can escape.
module _ (p cur x : ℕ) (rest : List ℕ) (s : Pp) (d : IsDraining p cur (x ∷ rest) s) where
  other_own :
      (v u : ℕ)
      → (v == x) ≡ false
      → IsLower p s v
      → same (owner_of s.oink.game v) (is_odd p) ≡ true
      → 0 < occ u (outs s.oink.game v)
      → is_in p s u ≡ true
      → Waits cur rest s u v
  other_own v u e l m k a = still-Waits cur x rest s u v e (d.own v u l m k a)

  other_opponent :
      (v u : ℕ)
      → (v == x) ≡ false
      → IsLower p s v
      → same (owner_of s.oink.game v) (is_odd p) ≡ false
      → 0 < occ u (outs s.oink.game v)
      → is_in p s u ≡ true
      → (can_escape s p (outs s.oink.game v) ≡ true)
        ⊎ ((w : ℕ) × (0 < occ w (outs s.oink.game v)) × Waits cur rest s w v)
  other_opponent v u e l m k a = elim (d.opponent v u l m k a) [
    | inl b ↦ inl b
    | inr (w, b, c) ↦ inr (w, b, still-Waits cur x rest s w v e c)
  ]

  pub skip_drain :
      (is_disabled s.oink x || not (is_below p (region_of s x))) ≡ true → IsDraining p cur rest s
  skip_drain busy = record {
    own = λ v u l m k a. elim (Bool-cases (v == x)) [
      | inl e ↦ absurd (clash v e l)
      | inr e ↦ other_own v u e l m k a
    ];
    opponent = λ v u l m k a. elim (Bool-cases (v == x)) [
      | inl e ↦ absurd (clash v e l)
      | inr e ↦ other_opponent v u e l m k a
    ];
  }
    where
      clash : (v : ℕ) → (v == x) ≡ true → IsLower p s v → ⊥
      clash v e l =
          let here : v ≡ x = ground arith in
          let i = subst (λ y. is_disabled s.oink y ≡ false) here l.enabled in
          let j = subst (λ y. is_below p (region_of s y) ≡ true) here l.low in
          ground (arith, busy, i, j)

  pub escape_drain :
      same (owner_of s.oink.game x) (is_odd p) ≡ false
      → can_escape s p (outs s.oink.game x) ≡ true
      → IsDraining p cur rest s
  escape_drain theirs free = record {
    own = λ v u l m k a. elim (Bool-cases (v == x)) [
      | inl e ↦
          let here : v ≡ x = ground arith in
          let i = subst (λ y. same (owner_of s.oink.game y) (is_odd p) ≡ true) here m in
          absurd (ground (arith, i, theirs))
      | inr e ↦ other_own v u e l m k a
    ];
    opponent = λ v u l m k a. elim (Bool-cases (v == x)) [
      | inl e ↦
          let here : x ≡ v = ground arith in
          inl (subst (λ y. can_escape s p (outs s.oink.game y) ≡ true) here free)
      | inr e ↦ other_opponent v u e l m k a
    ];
  }
