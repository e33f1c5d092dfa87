-- ===== src/Oink/Sweep.antt =====
-- The loop of `Oink::solveSingleParity` of oink/src/oink.cpp that solves: which vertices it leaves.
use urss.Base.{
  ℕ, zero, suc, ◌+◌, ◌≤◌, ◌<◌, ◌≡◌, ◌⊎◌, ◌==◌, refl, sym, subst, ap, ◌∙◌, arith, Bool, true, false,
  List, [], ◌∷◌, Option, none, some, get_or, Bool-cases, inl, inr,
}
use urss.Base.Tally.{occ}
use urss.Game.{outs, owner_of}
use urss.Oink.{
  Oink, solve, is_disabled, is_solved, winner_of, same, single_one, single_from, first_enabled,
}
use urss.Oink.Attract.{
  Graph, solved-solve, disabled-solve, winner-here, solved-here, solved-kept, winner-kept,
}
use urss.Oink.Selfloops.{IsClosed}
use urss.Oink.SingleParity.{single_one-IsClosed}

-- An enabled vertex is a winning one for the player `p` if the opponent owns it, or if the player does
-- and it has an edge to a vertex that is not disabled.
pub data IsWon (n : ℕ) (o : Oink) (p : Bool) (v : ℕ) : Type 0 where
  by_owner : same (owner_of o.game v) p ≡ false → IsWon n o p v
  by_move :
      (to : ℕ)
      → same (owner_of o.game v) p ≡ true
      → to < n
      → 0 < occ to (outs o.game v)
      → is_disabled o to ≡ false
      → IsWon n o p v

-- A vertex of the player with an edge to a vertex that has been solved since.
pub record IsNear (n : ℕ) (a b : Oink) (p : Bool) (v : ℕ) : Type 0 where
  pub to : ℕ
  pub own : same (owner_of a.game v) p ≡ true
  pub small : to < n
  pub edge : 0 < occ to (outs a.game v)
  pub on : is_disabled a to ≡ false
  pub solved : is_solved b to ≡ true

-- From the state `a` to `b`, only vertices that the player `p` wins are solved.
pub record IsSwept (a b : Oink) (p : Bool) : Type 0 where
  pub kept :
      (u : ℕ) → is_solved a u ≡ true → (is_solved b u ≡ true) × (winner_of b u ≡ winner_of a u)
  pub only : (u : ℕ) → is_solved b u ≡ true → (is_solved a u ≡ true) ⊎ (winner_of b u ≡ p)
  pub gone : (u : ℕ) → is_disabled b u ≡ true → is_disabled a u ≡ false → is_solved b u ≡ true
  pub stays : (u : ℕ) → is_disabled a u ≡ true → is_disabled b u ≡ true
  pub same_owner : (u : ℕ) → owner_of b.game u ≡ owner_of a.game u
  pub same_outs : (u : ℕ) → outs b.game u ≡ outs a.game u

refl-IsSwept : (a : Oink) (p : Bool) → IsSwept a a p
refl-IsSwept a p = record {
  kept = λ u d. (d, refl);
  only = λ u d. inl d;
  gone = λ u d e. absurd (ground (arith, d, e));
  stays = λ u d. d;
  same_owner = λ u. refl;
  same_outs = λ u. refl;
}

trans-IsSwept : (a b c : Oink) (p : Bool) → IsSwept a b p → IsSwept b c p → IsSwept a c p
trans-IsSwept a b c p h k = record {
  kept = λ u d. let (e, f) = h.kept u d in let (i, j) = k.kept u e in (i, j ∙ f);
  only = λ u d. elim (k.only u d) [
    | inr e ↦ inr e
    | inl e ↦ elim (h.only u e) [ inl f ↦ inl f | inr f ↦ inr ((k.kept u e).1 ∙ f) ]
  ];
  gone = λ u d e. elim (Bool-cases (is_disabled b u)) [
    | inl f ↦ (k.kept u (h.gone u f e)).0
    | inr f ↦ k.gone u d f
  ];
  stays = λ u d. k.stays u (h.stays u d);
  same_owner = λ u. k.same_owner u ∙ h.same_owner u;
  same_outs = λ u. k.same_outs u ∙ h.same_outs u;
}

solve-IsSwept :
    (G : Graph) (o : Oink) (v : ℕ) (p : Bool) (s : Option ℕ)
    → IsClosed G o
    → v < G.n
    → is_disabled o v ≡ false
    → IsSwept o (solve o v p s) p × (is_solved (solve o v p s) v ≡ true)
unfolding solve outs
solve-IsSwept G o v p s c small on =
    let fresh : is_solved o v ≡ false = ground (arith, c.1 v, on) in
    let here : winner_of (solve o v p s) v ≡ p = winner-here G o v p s c.0.over small fresh in
    (
      record {
        kept = λ u d. (
          solved-kept G o v p s c.0.over small fresh u d,
          winner-kept G o v p s c.0.over small fresh u d,
        );
        only = λ u d. elim (Bool-cases (u == v)) [
          | inl e ↦
              let moved : v ≡ u = ground (arith, e) in
              inr (subst (λ z. winner_of (solve o v p s) z ≡ p) moved here)
          | inr e ↦ inl (ground (arith, d, e, solved-solve G o v p s c.0.over small fresh u))
        ];
        gone = λ u d e. ground (
          arith,
          d,
          e,
          disabled-solve G o v p s c.0.over small fresh u,
          solved-solve G o v p s c.0.over small fresh u,
        );
        stays = λ u d. ground (arith, d, disabled-solve G o v p s c.0.over small fresh u);
        same_owner = λ u. refl;
        same_outs = λ u. refl;
      },
      solved-here G o v p s c.0.over small fresh,
    )

first_enabled_lem :
    (disabled : List Bool) (ts : List ℕ) (to : ℕ)
    → 0 < occ to ts
    → get_or disabled to false ≡ false
    → first_enabled disabled ts ≡ none
    → ⊥
unfolding first_enabled
first_enabled_lem disabled [] to h on e = omega (arith, h)
first_enabled_lem disabled (t ∷ ts) to h on e = elim (Bool-cases (get_or disabled t false)) [
  | inr a ↦ ground (arith, a, e)
  | inl a ↦
      first_enabled_lem disabled ts to
        (ground (arith, h, on, a, ap (λ z. get_or disabled z false) {x = t} {y = to})) on
        (ground (arith, a, e))
]

-- A round solves its vertex if it is won at that time.
one_lem :
    (G : Graph) (o : Oink) (p : Bool) (v : ℕ)
    → IsClosed G o
    → v < G.n
    → IsSwept o (single_one o p v) p
      × (is_disabled o v ≡ false → IsWon G.n o p v → is_solved (single_one o p v) v ≡ true)
unfolding single_one
one_lem G o p v c small = elim (Bool-cases (is_disabled o v)) [
  | inl e ↦ rw e (refl-IsSwept o p, λ on w. absurd (ground (arith, on, e)))
  | inr e ↦ elim (Bool-cases (same (owner_of o.game v) p)) [
    | inr a ↦ let (b, d) = solve-IsSwept G o v p none c small e in rw (e, a) (b, λ on w. d)
    | inl a ↦
        let (b, d) = choice_lem (first_enabled o.disabled (outs o.game v)) refl e a in
        rw (e, a) (b, λ on w. d w)
  ]
]
  where
    choice_lem :
        (choice : Option ℕ)
        → first_enabled o.disabled (outs o.game v) ≡ choice
        → is_disabled o v ≡ false
        → same (owner_of o.game v) p ≡ true
        → IsSwept o (elim choice [ none ↦ o | some to ↦ solve o v p (some to) ]) p
          × (IsWon G.n o p v
              → is_solved (elim choice [ none ↦ o | some to ↦ solve o v p (some to) ]) v ≡ true)
    choice_lem none e on own = (
      refl-IsSwept o p,
      λ w. elim w [
        | by_owner i ↦ absurd (ground (arith, i, own))
        | by_move to i j l m ↦ absurd (first_enabled_lem o.disabled (outs o.game v) to l m e)
      ],
    )
    choice_lem (some to) e on own =
        let (b, d) = solve-IsSwept G o v p (some to) c small on in (b, λ w. d)

-- After the loop each vertex that is won is solved, or near to one that is.
pub record IsSweep (n : ℕ) (a b : Oink) (p : Bool) (rounds v : ℕ) : Type 0 where
  pub swept : IsSwept a b p
  pub done :
      (u : ℕ)
      → v ≤ u
      → u < rounds + v
      → is_disabled a u ≡ false
      → IsWon n a p u
      → (is_solved b u ≡ true) ⊎ IsNear n a b p u

later_lem :
    (n : ℕ) (a m b : Oink) (p : Bool) (rounds v u : ℕ)
    → IsSwept a m p
    → IsSweep n m b p rounds v
    → v ≤ u
    → u < rounds + v
    → is_disabled a u ≡ false
    → IsWon n a p u
    → (is_solved b u ≡ true) ⊎ IsNear n a b p u
later_lem n a m b p rounds v u h k low high on w = elim (Bool-cases (is_disabled m u)) [
  | inl e ↦ inl (k.swept.kept u (h.gone u e on)).0
  | inr e ↦ elim w [
    | by_owner i ↦ near (k.done u low high e (by_owner (ap (λ z. same z p) (h.same_owner u) ∙ i)))
    | by_move to i small edge j ↦ elim (Bool-cases (is_disabled m to)) [
      | inl f ↦ inr (record {
        to = to;
        own = i;
        small = small;
        edge = edge;
        on = j;
        solved = (k.swept.kept to (h.gone to f j)).0;
      })
      | inr f ↦ near (
          k.done u low high e (
            by_move to (ap (λ z. same z p) (h.same_owner u) ∙ i) small
              (subst (λ z. 0 < occ to z) (sym (h.same_outs u)) edge) f))
    ]
  ]
]
  where
    near : (is_solved b u ≡ true) ⊎ IsNear n m b p u → (is_solved b u ≡ true) ⊎ IsNear n a b p u
    near (inl d) = inl d
    near (inr d) = inr (record {
      to = d.to;
      own = ap (λ z. same z p) (sym (h.same_owner u)) ∙ d.own;
      small = d.small;
      edge = subst (λ z. 0 < occ d.to z) (h.same_outs u) d.edge;
      on = ground (arith, d.on, h.stays d.to);
      solved = d.solved;
    })

pub single_from-IsSweep :
    (G : Graph) (rounds v : ℕ) (p : Bool) (o : Oink)
    → IsClosed G o
    → rounds + v ≤ G.n
    → IsSweep G.n o (single_from rounds v p o) p rounds v
unfolding single_from
single_from-IsSweep G zero v p o c small = record {
  swept = refl-IsSwept o p;
  done = λ u low high. absurd (omega (arith, low, high));
}
single_from-IsSweep G (suc rounds) v p o c small =
    let m = single_one o p v in
    let (a, b) = one_lem G o p v c (omega (arith, small)) in
    let k =
      single_from-IsSweep G rounds (suc v) p m
        (single_one-IsClosed G o p v c (omega (arith, small))).0 (omega (arith, small)) in
    record {
      swept = trans-IsSwept o m (single_from rounds (suc v) p m) p a k.swept;
      done = λ u low high on w. elim (Bool-cases (u == v)) [
        | inl e ↦
            let here : v ≡ u = ground (arith, e) in
            let back : u ≡ v = sym here in
            inl
              (k.swept.kept u (
                subst (λ z. is_solved m z ≡ true) here
                  (b (subst (λ z. is_disabled o z ≡ false) back on)
                    (subst (IsWon G.n o p) back w)))).0
        | inr e ↦
            later_lem G.n o m (single_from rounds (suc v) p m) p rounds (suc v) u a k
              (ground (arith, low, e)) (omega (arith, high)) on w
      ];
    }
