-- ===== src/Rr/Keeps.antt =====
-- The loop of `checkRegion` of oink/src/rr.cpp: which vertices it passes over.
use urss.Base.{
  ℕ, ◌<◌, ◌≡◌, refl, sym, subst, ap, ◌∙◌, arith, true, false, not, ◌&&◌, List, [], ◌∷◌, Option,
  none, some, ◌==◌, get_or, set, get_or-set_other, Bool-cases, inl, inr,
}
use urss.Game.{owner_of, priority_of, outs}
use urss.Oink.{same, is_odd, is_disabled}
use urss.Base.Tally.{occ}
use urss.Pp.{Pp, region_of, strategy_of, is_below, is_at, is_none}
use urss.Rr.{falls, stays_at, check_vertex}

-- The vertex is not disabled, and if it has another priority it is held: its player moves into the
-- region, or the opponent has no edge to a lower one.
pub record Keeps (p : ℕ) (s : Pp) (j : ℕ) : Type 0 where
  pub enabled : is_disabled s.oink j ≡ false
  pub moves :
      (priority_of s.oink.game j == p) ≡ false
      → same (owner_of s.oink.game j) (is_odd p) ≡ true
      → (u : ℕ) × (strategy_of s j ≡ some u) × (is_at p (region_of s u) ≡ true)
  pub shut :
      (priority_of s.oink.game j == p) ≡ false
      → same (owner_of s.oink.game j) (is_odd p) ≡ false
      → (to : ℕ) → 0 < occ to (outs s.oink.game j)
      → is_none (region_of s to) ≡ false
      → is_below p (region_of s to) ≡ false

falls_none :
    (p : ℕ) (s : Pp) (ts : List ℕ)
    → falls p s ts ≡ false
    → (to : ℕ) → 0 < occ to ts
    → is_none (region_of s to) ≡ false
    → is_below p (region_of s to) ≡ false
unfolding falls
falls_none p s [] f to k n = absurd (omega (arith, k))
falls_none p s (t ∷ ts) f to k n = elim (Bool-cases (t == to)) [
  | inl e ↦
      let here : t ≡ to = ground (arith, e) in
      subst (λ x. is_none (region_of s x) ≡ false → is_below p (region_of s x) ≡ false) here
        (λ m. ground (arith, f, m)) n
  | inr e ↦ falls_none p s ts (ground (arith, f)) to (ground (arith, k, e)) n
]

none_falls :
    (p : ℕ) (s : Pp) (ts : List ℕ)
    → ((to : ℕ)
        → 0 < occ to ts
        → is_none (region_of s to) ≡ false
        → is_below p (region_of s to) ≡ false)
    → falls p s ts ≡ false
unfolding falls
none_falls p s [] h = refl
none_falls p s (t ∷ ts) h =
    let rest = none_falls p s ts (λ to k. h to (omega (arith, k))) in
    elim (Bool-cases (is_none (region_of s t))) [
      | inl e ↦ ground (arith, e, rest)
      | inr e ↦ ground (arith, rest, h t (ground arith) e)
    ]

stays_of :
    (p : ℕ) (s : Pp) (o : Option ℕ)
    → stays_at p s o ≡ true
    → (u : ℕ) × (o ≡ some u) × (is_at p (region_of s u) ≡ true)
stays_of p s none e = absurd (ground (arith, e))
stays_of p s (some u) e = (u, refl, e)

pub check_vertex_sound : (p : ℕ) (s : Pp) (j : ℕ) → (check_vertex p s j).1 ≡ true → Keeps p s j
unfolding check_vertex
check_vertex_sound p s j = elim (Bool-cases (is_disabled s.oink j)) [
  | inl d ↦ rw d (λ h. absurd (ground (arith, h)))
  | inr d ↦ elim (Bool-cases (priority_of s.oink.game j == p)) [
    | inl e ↦ λ h. record {
      enabled = d;
      moves = λ f. absurd (ground (arith, e, f));
      shut = λ f. absurd (ground (arith, e, f));
    }
    | inr e ↦ elim (Bool-cases (same (owner_of s.oink.game j) (is_odd p))) [
      | inl m ↦
          rw (d, e, m)
            (λ h. record {
              enabled = d;
              moves = λ f n. stays_of p s (strategy_of s j) h;
              shut = λ f n. absurd (ground (arith, m, n));
            })
      | inr m ↦
          rw (d, e, m)
            (λ h. record {
              enabled = d;
              moves = λ f n. absurd (ground (arith, m, n));
              shut = λ f n. falls_none p s (outs s.oink.game j) (ground (arith, h));
            })
    ]
  ]
]

pub check_vertex_complete : (p : ℕ) (s : Pp) (j : ℕ) → Keeps p s j → (check_vertex p s j).1 ≡ true
unfolding check_vertex
check_vertex_complete p s j k =
    let d = k.enabled in
    elim (Bool-cases (priority_of s.oink.game j == p)) [
      | inl e ↦
          elim (Bool-cases
            (not (is_none (strategy_of s j)) && not (stays_at p s (strategy_of s j)))) [
              | inl f ↦ rw (d, e, f) refl
              | inr f ↦ rw (d, e, f) refl
            ]
      | inr e ↦ elim (Bool-cases (same (owner_of s.oink.game j) (is_odd p))) [
        | inl m ↦ let (u, a, b) = k.moves e m in rw (d, e, m) (ap (stays_at p s) a ∙ b)
        | inr m ↦ let f = none_falls p s (outs s.oink.game j) (k.shut e m) in rw (d, e, m, f) refl
      ]
    ]

-- Only strategies of vertices of the priority have changed.
pub data Eased (p : ℕ) (s : Pp) : Pp → Type 0 where
  eased :
      (str : List (Option ℕ))
      → ((k : ℕ) → (priority_of s.oink.game k == p) ≡ false → get_or str k none ≡ strategy_of s k)
      → Eased p s (record s { strategy = str })

pub check_vertex-Eased : (p : ℕ) (s : Pp) (j : ℕ) → Eased p s (check_vertex p s j).0
unfolding check_vertex
check_vertex-Eased p s j = elim (Bool-cases (is_disabled s.oink j)) [
  | inl d ↦ rw d (eased s.strategy (λ k f. refl))
  | inr d ↦ elim (Bool-cases (priority_of s.oink.game j == p)) [
    | inl e ↦
        elim (Bool-cases
          (not (is_none (strategy_of s j)) && not (stays_at p s (strategy_of s j)))) [
            | inl f ↦
                rw (d, e, f)
                  (eased (set s.strategy j none)
                    (λ k g. get_or-set_other s.strategy j k none none (other e k g)))
            | inr f ↦ rw (d, e, f) (eased s.strategy (λ k g. refl))
          ]
    | inr e ↦ elim (Bool-cases (same (owner_of s.oink.game j) (is_odd p))) [
      | inl m ↦ rw (d, e, m) (eased s.strategy (λ k f. refl))
      | inr m ↦ rw (d, e, m) (eased s.strategy (λ k f. refl))
    ]
  ]
]
  where
    other :
        (priority_of s.oink.game j == p) ≡ true
        → (k : ℕ) → (priority_of s.oink.game k == p) ≡ false
        → (k == j) ≡ false
    other e k g = elim (Bool-cases (k == j)) [
      | inr f ↦ f
      | inl f ↦
          let here : j ≡ k = ground (arith, f) in
          let a = subst (λ x. (priority_of s.oink.game x == p) ≡ true) here e in
          absurd (ground (arith, a, g))
    ]

pub Keeps-Eased : (p : ℕ) (s t : Pp) (k : ℕ) → Eased p s t → Keeps p s k → Keeps p t k
Keeps-Eased p s t k (eased str same_at) h = record {
  enabled = h.enabled;
  moves = λ e m. let (u, a, b) = h.moves e m in (u, same_at k e ∙ a, b);
  shut = h.shut;
}

pub Eased-Keeps : (p : ℕ) (s t : Pp) (k : ℕ) → Eased p s t → Keeps p t k → Keeps p s k
Eased-Keeps p s t k (eased str same_at) h = record {
  enabled = h.enabled;
  moves = λ e m. let (u, a, b) = h.moves e m in (u, sym (same_at k e) ∙ a, b);
  shut = h.shut;
}
