-- ===== src/Oink/Loops.antt =====
-- A round of `Oink::solveSelfloops` of oink/src/oink.cpp: which vertices a self-loop decides.
use urss.Base.{
  ℕ, zero, suc, ◌+◌, ◌≤◌, ◌<◌, ◌≡◌, ◌⊎◌, ◌==◌, refl, sym, subst, ap, ◌∙◌, arith, Bool, true, false,
  not, ◌&&◌, ◌||◌, Option, none, some, if◌then◌else◌, get_or, Bool-cases, inl, inr,
}
use urss.Game.{owner_of, priority_of, has_edge, find_edge}
use urss.Oink.{Oink, solve, is_solved, is_disabled, winner_of, is_odd, same, selfloop_one}
use urss.Oink.Attract.{
  Graph, strategy_of, solved-solve, disabled-solve, winner-here, strategy-here, solved-here,
  solved-kept, winner-kept, strategy-kept,
}
use urss.Oink.Steps.{Kept}
use urss.Oink.Round.{same_refl}
use urss.Oink.Selfloops.{IsClosed}

-- A self-loop decides a vertex that is not disabled: its owner has the parity of its priority and stays,
-- or has the other one and has no other move.
pub data LoopWon (o : Oink) (v : ℕ) (w : Bool) (s : Option ℕ) : Type 0 where
  by_staying :
      is_disabled o v ≡ false
      → has_edge o.game v v ≡ true
      → same (owner_of o.game v) (is_odd (priority_of o.game v)) ≡ true
      → w ≡ owner_of o.game v
      → s ≡ some v
      → LoopWon o v w s
  by_trap :
      is_disabled o v ≡ false
      → has_edge o.game v v ≡ true
      → same (owner_of o.game v) (is_odd (priority_of o.game v)) ≡ false
      → get_or o.game.outcount v 0 ≡ 1
      → w ≡ not (owner_of o.game v)
      → s ≡ none
      → LoopWon o v w s

abbrev pub is_decided : Oink → ℕ → Bool
is_decided o v =
    not (is_disabled o v)
    && (has_edge o.game v v
        && (same (owner_of o.game v) (is_odd (priority_of o.game v))
            || get_or o.game.outcount v 0 == 1))

-- How many of the vertices v, v + 1, ..., n of them, a self-loop decides.
unfoldable pub decided : Oink → ℕ → ℕ → ℕ
decided o zero v = 0
decided o (suc n) v = (if is_decided o v then 1 else 0) + decided o n (suc v)

pub decided_ext :
    (a b : Oink) (n v : ℕ)
    → ((u : ℕ) → v ≤ u → is_decided a u ≡ is_decided b u)
    → decided a n v ≡ decided b n v
unfolding decided
decided_ext a b zero v h = refl
decided_ext a b (suc n) v h =
    ground (arith, h v (omega arith), decided_ext a b n (suc v) (λ u k. h u (omega (arith, k))))

LoopWon-is_decided :
    (o : Oink) (v : ℕ) (w : Bool) (s : Option ℕ) → LoopWon o v w s → is_decided o v ≡ true
LoopWon-is_decided o v w s (by_staying a b c d e) = rw (a, b, c) refl
LoopWon-is_decided o v w s (by_trap a b c d e f) =
    let g : (get_or o.game.outcount v 0 == 1) ≡ true = ground (arith, d) in rw (a, b, c, g) refl

-- What a round does at the vertex `v`.
pub record IsStep (a : Oink) (v : ℕ) (b : Oink) (one : ℕ) : Type 0 where
  pub ahead : (u : ℕ) (w : Bool) (s : Option ℕ) → v < u → LoopWon a u w s → LoopWon b u w s
  pub back : (u : ℕ) (w : Bool) (s : Option ℕ) → LoopWon b u w s → LoopWon a u w s
  pub same_later : (u : ℕ) → v < u → is_decided b u ≡ is_decided a u
  pub counts : one ≡ (if is_decided a v then 1 else 0)
  pub won :
      (w : Bool) (s : Option ℕ)
      → LoopWon a v w s
      → (is_solved b v ≡ true) × (winner_of b v ≡ w) × (strategy_of b v ≡ s)
  pub only :
      (u : ℕ)
      → is_solved b u ≡ true
      → (is_solved a u ≡ true) ⊎ LoopWon a u (winner_of b u) (strategy_of b u)
  pub kept : (u : ℕ) → is_solved a u ≡ true → Kept a b u

skip-IsStep : (a : Oink) (v : ℕ) → is_decided a v ≡ false → IsStep a v a 0
skip-IsStep a v idle = record {
  ahead = λ u w s k h. h;
  back = λ u w s h. h;
  same_later = λ u k. refl;
  counts = rw idle refl;
  won = λ w s h. absurd (ground (arith, idle, LoopWon-is_decided a v w s h));
  only = λ u d. inl d;
  kept = λ u d. (d, refl, refl);
}

LoopWon-unique :
    (o : Oink) (v : ℕ) (w x : Bool) (s t : Option ℕ)
    → LoopWon o v w s
    → LoopWon o v x t
    → (w ≡ x) × (s ≡ t)
LoopWon-unique o v w x s t (by_staying a b c d e) (by_staying f g h i j) = (d ∙ sym i, e ∙ sym j)
LoopWon-unique o v w x s t (by_staying a b c d e) (by_trap f g h i j k) =
    absurd (ground (arith, c, h))
LoopWon-unique o v w x s t (by_trap a b c d e k) (by_staying f g h i j) =
    absurd (ground (arith, c, h))
LoopWon-unique o v w x s t (by_trap a b c d e f) (by_trap g h i j k l) = (e ∙ sym k, f ∙ sym l)

LoopWon-keeps :
    (o : Oink) (v : ℕ) (w : Bool) (s : Option ℕ)
    → LoopWon o v w s
    → (if same w (owner_of o.game v) then s else none) ≡ s
LoopWon-keeps o v w s (by_staying a b c d e) =
    let m : same w (owner_of o.game v) ≡ true =
      ap (λ z. same z (owner_of o.game v)) d ∙ same_refl (owner_of o.game v) in
    rw m refl
LoopWon-keeps o v w s (by_trap a b c d e f) = elim (Bool-cases (same w (owner_of o.game v))) [
  | inl m ↦ rw m refl
  | inr m ↦ rw m (sym f)
]

LoopWon-free :
    (o : Oink) (v : ℕ) (w : Bool) (s : Option ℕ) → LoopWon o v w s → is_disabled o v ≡ false
LoopWon-free o v w s (by_staying a b c d e) = a
LoopWon-free o v w s (by_trap a b c d e f) = a

module _ (G : Graph) (a : Oink) (v : ℕ) (w : Bool) (s : Option ℕ) (closed : IsClosed G a)
    (small : v < G.n) (why : LoopWon a v w s) where
  fresh : is_solved a v ≡ false
  fresh = ground (arith, closed.1 v, LoopWon-free a v w s why)

  abbrev b : Oink
  b = solve a v w s

  move :
      (u : ℕ) (x : Bool) (t : Option ℕ)
      → is_disabled b u ≡ false
      → LoopWon a u x t
      → LoopWon b u x t
  unfolding solve has_edge find_edge
  move u x t k (by_staying c d e f g) = by_staying k d e f g
  move u x t k (by_trap c d e f g h) = by_trap k d e f g h

  disabled_lem : (u : ℕ) → is_disabled b u ≡ (if u == v then true else is_disabled a u)
  disabled_lem = disabled-solve G a v w s closed.0.over small fresh

  move_back : (u : ℕ) (x : Bool) (t : Option ℕ) → LoopWon b u x t → LoopWon a u x t
  unfolding solve has_edge find_edge
  move_back u x t (by_staying c d e f g) = by_staying (ground (arith, disabled_lem u, c)) d e f g
  move_back u x t (by_trap c d e f g h) = by_trap (ground (arith, disabled_lem u, c)) d e f g h

  later_lem : (u : ℕ) → v < u → is_decided b u ≡ is_decided a u
  unfolding solve has_edge find_edge
  later_lem u k =
      let other : (u == v) ≡ false = ground (arith, k) in
      let same_disabled : is_disabled b u ≡ is_disabled a u = disabled_lem u ∙ rw other refl in
      rw same_disabled refl

  won_here : (winner_of b v ≡ w) × (strategy_of b v ≡ s)
  won_here = (
    winner-here G a v w s closed.0.over small fresh,
    strategy-here G a v w s closed.0.over small fresh
        ∙ ap (λ z. if same w z then s else none) (sym (closed.0.over.owners v))
        ∙ LoopWon-keeps a v w s why,
  )

  solve-IsStep : IsStep a v b 1
  solve-IsStep = record {
    ahead = λ u x t k h. move u x t (ground (arith, disabled_lem u, LoopWon-free a u x t h, k)) h;
    back = move_back;
    same_later = later_lem;
    counts = let d = LoopWon-is_decided a v w s why in rw d refl;
    won = λ x t h.
        let (e, f) = LoopWon-unique a v w x s t why h in
        (solved-here G a v w s closed.0.over small fresh, won_here.0 ∙ e, won_here.1 ∙ f);
    only = λ u d. elim (Bool-cases (u == v)) [
      | inl e ↦
          let here : v ≡ u = ground (arith, e) in
          inr (
            subst (λ z. LoopWon a z (winner_of b z) (strategy_of b z)) here
              (subst (λ z. LoopWon a v z (strategy_of b v)) (sym won_here.0)
                (subst (λ z. LoopWon a v w z) (sym won_here.1) why)))
      | inr e ↦ inl (ground (arith, d, e, solved-solve G a v w s closed.0.over small fresh u))
    ];
    kept = λ u d. (
      solved-kept G a v w s closed.0.over small fresh u d,
      winner-kept G a v w s closed.0.over small fresh u d,
      strategy-kept G a v w s closed.0.over small fresh u d,
    );
  }

pub selfloop_one-IsStep :
    (G : Graph) (o : Oink) (v : ℕ)
    → IsClosed G o
    → v < G.n
    → IsStep o v (selfloop_one o v).0 (selfloop_one o v).1
unfolding selfloop_one
selfloop_one-IsStep G o v c small = elim (Bool-cases (is_disabled o v)) [
  | inl e ↦ rw e (skip-IsStep o v (ground (arith, e)))
  | inr e ↦ elim (Bool-cases (has_edge o.game v v)) [
    | inr a ↦ rw (e, a) (skip-IsStep o v (rw (e, a) refl))
    | inl a ↦ elim (Bool-cases (same (owner_of o.game v) (is_odd (priority_of o.game v)))) [
      | inl b ↦
          rw (e, a, b)
            (solve-IsStep G o v (owner_of o.game v) (some v) c small (by_staying e a b refl refl))
      | inr b ↦ elim (Bool-cases (get_or o.game.outcount v 0 == 1)) [
        | inl d ↦
            rw (e, a, b, d)
              (solve-IsStep G o v (not (owner_of o.game v)) none c small
                (by_trap e a b (ground (arith, d)) refl refl))
        | inr d ↦ rw (e, a, b, d) (skip-IsStep o v (rw (e, a, b, d) refl))
      ]
    ]
  ]
]
