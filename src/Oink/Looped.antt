-- ===== src/Oink/Looped.antt =====
-- What `Oink::solveSelfloops` of oink/src/oink.cpp solves.
use urss.Base.{
  ℕ, zero, suc, ◌+◌, ◌≤◌, ◌<◌, ◌≡◌, ◌⊎◌, ◌==◌, refl, sym, subst, ◌∙◌, arith, Bool, true, false, [],
  Option, some, Bool-cases, inl, inr,
}
use urss.Game.{vertexcount}
use urss.Oink.{Oink, is_solved, winner_of, selfloop_one, selfloops_from, solve_selfloops}
use urss.Oink.Attract.{Graph, IsGraph, Attracted, strategy_of}
use urss.Oink.Steps.{Kept, IsFlushing}
use urss.Oink.Round.{work}
use urss.Oink.Flush.{flush_lem}
use urss.Oink.Ready.{IsReady, start-IsFlushing, counted-IsReady}
use urss.Oink.Selfloops.{IsClosed, selfloop_one-IsClosed, selfloops_from-IsClosed}
use urss.Oink.Loops.{LoopWon, decided, decided_ext, IsStep, selfloop_one-IsStep}

-- What the loop does at the vertices v, v + 1, ..., n of them, when it counts from `before` to `after`.
record IsLooped (a : Oink) (n v : ℕ) (b : Oink) (before after : ℕ) : Type 0 where
  counts : after ≡ before + decided a n v
  won :
      (u : ℕ) (w : Bool) (s : Option ℕ)
      → v ≤ u
      → u < n + v
      → LoopWon a u w s
      → (is_solved b u ≡ true) × (winner_of b u ≡ w) × (strategy_of b u ≡ s)
  only :
      (u : ℕ)
      → is_solved b u ≡ true
      → (is_solved a u ≡ true) ⊎ LoopWon a u (winner_of b u) (strategy_of b u)
  kept : (u : ℕ) → is_solved a u ≡ true → Kept a b u

step-IsLooped :
    (a m b : Oink) (n v one before after : ℕ)
    → IsStep a v m one
    → IsLooped m n (suc v) b (before + one) after
    → IsLooped a (suc n) v b before after
unfolding decided
step-IsLooped a m b n v one before after p q = record {
  counts = omega (
    arith,
    q.counts,
    p.counts,
    decided_ext m a n (suc v) (λ u k. p.same_later u (omega (arith, k))),
  );
  won = λ u w s low high h. elim (Bool-cases (u == v)) [
    | inl e ↦
        let here : v ≡ u = ground (arith, e) in
        let h_v : LoopWon a v w s = subst (λ z. LoopWon a z w s) (sym here) h in
        let (d, x, y) = p.won w s h_v in
        let (f, g, i) = q.kept v d in
        subst (λ z. (is_solved b z ≡ true) × (winner_of b z ≡ w) × (strategy_of b z ≡ s)) here
          (f, g ∙ x, i ∙ y)
    | inr e ↦
        q.won u w s (ground (arith, low, e)) (omega (arith, high))
          (p.ahead u w s (ground (arith, low, e)) h)
  ];
  only = λ u d. elim (q.only u d) [
    | inr h ↦ inr (p.back u (winner_of b u) (strategy_of b u) h)
    | inl f ↦ elim (p.only u f) [
      | inl g ↦ inl g
      | inr g ↦
          let (x, y, z) = q.kept u f in
          inr (
            subst (λ k. LoopWon a u k (strategy_of b u)) (sym y)
              (subst (λ k. LoopWon a u (winner_of m u) k) (sym z) g))
    ]
  ];
  kept = λ u d. let (x, y, z) = p.kept u d in let (f, g, i) = q.kept u x in (f, g ∙ y, i ∙ z);
}

selfloops_from-IsLooped :
    (G : Graph) (n v : ℕ) (o : Oink) (res : ℕ)
    → IsClosed G o
    → n + v ≤ G.n
    → IsLooped o n v (selfloops_from n v o res).0 res (selfloops_from n v o res).1
unfolding selfloops_from decided
selfloops_from-IsLooped G zero v o res c small = record {
  counts = omega arith;
  won = λ u w s low high. absurd (omega (arith, low, high));
  only = λ u d. inl d;
  kept = λ u d. (d, refl, refl);
}
selfloops_from-IsLooped G (suc n) v o res c small =
    let m = (selfloop_one o v).0 in
    let one = (selfloop_one o v).1 in
    let (after, e) = selfloop_one-IsClosed G o v c (omega arith) in
    step-IsLooped o m (selfloops_from n (suc v) m (res + one)).0 n v one res
      (selfloops_from n (suc v) m (res + one)).1 (selfloop_one-IsStep G o v c (omega arith))
      (selfloops_from-IsLooped G n (suc v) m (res + one) after (omega arith))

-- What solveSelfloops returns.
pub record Looped (G : Graph) (o p : Oink) (res : ℕ) : Type 0 where
  pub ready : IsReady G p
  pub counts : res ≡ decided o G.n 0
  pub won :
      (u : ℕ) (w : Bool) (s : Option ℕ)
      → u < G.n
      → LoopWon o u w s
      → (is_solved p u ≡ true) × (winner_of p u ≡ w) × (strategy_of p u ≡ s)
  pub only :
      (u : ℕ)
      → is_solved p u ≡ true
      → is_solved o u ≡ false
      → LoopWon o u (winner_of p u) (strategy_of p u) ⊎ Attracted G p u
  pub kept : (u : ℕ) → is_solved o u ≡ true → Kept o p u

-- The state `q` after the loop, and `p` after flush.
flushed-Looped :
    (G : Graph) (o q p : Oink) (res last : ℕ)
    → IsLooped o G.n 0 q 0 res
    → IsFlushing G q last [] p
    → Looped G o p res
flushed-Looped G o q p res last l f = record {
  ready = counted-IsReady G last p f.state;
  counts = omega (arith, l.counts);
  won = λ u w s k h.
      let (a, b, c) = l.won u w s (omega arith) (omega (arith, k)) h in
      let (d, e, g) = f.kept u a in (d, e ∙ b, g ∙ c);
  only = λ u d n. elim (Bool-cases (is_solved q u)) [
    | inr e ↦ inr (f.settled u d e)
    | inl e ↦
        let (x, y, z) = f.kept u e in
        elim (l.only u e) [
          | inl g ↦ absurd (ground (arith, g, n))
          | inr g ↦ inl (
              subst (λ k. LoopWon o u k (strategy_of p u)) (sym y)
                (subst (λ k. LoopWon o u (winner_of q u) k) (sym z) g))
        ]
  ];
  kept = λ u d. let (a, b, c) = l.kept u d in let (e, g, h) = f.kept u a in (e, g ∙ b, h ∙ c);
}

-- For a ready state over the graph of all its vertices, in which what is solved is disabled, and fuel for
-- the entries of the queue and the unsolved vertices, solveSelfloops returns a ready state and the number
-- of vertices that a self-loop decides: vertices that are not disabled and have a self-loop, and an owner
-- of the parity of their priority, or an owner of the other parity and no other move. Such a vertex is won
-- by its owner, who stays, or in the other case by the other player. Every other vertex that is newly
-- solved is attracted, and what was solved keeps its winner and strategy.
pub solve_selfloops-Looped :
    (G : Graph) (fuel : ℕ) (o : Oink)
    → IsGraph G
    → IsClosed G o
    → vertexcount o.game ≡ G.n
    → work o ≤ fuel
    → (p : Oink) × (res : ℕ) × (solve_selfloops fuel o ≡ some (p, res)) × Looped G o p res
unfolding solve_selfloops
solve_selfloops-Looped G fuel o graph c all enough =
    let n = vertexcount o.game in
    let q : Oink = (selfloops_from n 0 o 0).0 in
    let found : ℕ = (selfloops_from n 0 o 0).1 in
    let (c_after, same_work) = selfloops_from-IsClosed G n 0 o 0 c (omega (arith, all)) in
    let looped : IsLooped o G.n 0 q 0 found =
      subst (λ k. IsLooped o k 0 q 0 found) all
        (selfloops_from-IsLooped G n 0 o 0 c (omega (arith, all))) in
    let start = start-IsFlushing G q c_after.0 in
    elim (Bool-cases (found == 0)) [
      | inl e ↦ (q, found, rw e refl, flushed-Looped G o q q found 0 looped start)
      | inr e ↦
          let (p, returned, idle, (last, h), live) =
            flush_lem G q fuel 0 q graph start (omega (arith, same_work, enough)) in
          (p, found, rw (e, returned) refl, flushed-Looped G o q p found last looped h)
    ]
