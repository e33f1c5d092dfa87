-- ===== src/Oink/Swept.antt =====
-- What `Oink::solveSingleParity` of oink/src/oink.cpp returns.
use urss.Base.{
  ℕ, zero, suc, ◌+◌, ◌≤◌, ◌<◌, ◌≡◌, ◌⊎◌, refl, sym, subst, ap, ◌∙◌, arith, Bool, true, false, not,
  [], Option, some, Bool-cases, inl, inr,
}
use urss.Base.Tally.{occ}
use urss.UintQueue
use urss.Game.{outs, owner_of, priority_of, vertexcount}
use urss.Oink.{
  Oink, is_disabled, is_solved, winner_of, is_odd, same, single_from, Parities, unknown, single,
  mixed, parities_from, solve_single_parity,
}
use urss.Oink.Attract.{Graph, IsGraph, Attracted, by_choice, by_force}
use urss.Oink.Steps.{IsFlushing}
use urss.Oink.Round.{work}
use urss.Oink.Flush.{flush_lem}
use urss.Oink.Ready.{IsReady, start-IsFlushing, counted-IsReady, not_waiting}
use urss.Oink.Selfloops.{IsClosed}
use urss.Oink.SingleParity.{
  AllOf, same_parity, true_not_false, parities_unknown, is_single, single_from-IsClosed,
}
use urss.Oink.Sweep.{IsWon, IsNear, IsSweep, single_from-IsSweep}

-- No vertex from `v` on is enabled, n of them.
abbrev NoneOn : Oink → ℕ → ℕ → Type 0
NoneOn o v n = (k : ℕ) → k < n → is_disabled o (v + k) ≡ true

first_of :
    (o : Oink) (p : Bool) (v n : ℕ)
    → AllOf o p v (suc n)
    → is_disabled o v ≡ false
    → is_odd (priority_of o.game v) ≡ p
first_of o p v n a =
    subst (λ j. is_disabled o j ≡ false → is_odd (priority_of o.game j) ≡ p) {x = v + 0} {y = v}
      (omega arith) (a 0 (omega arith))

rest_of : (o : Oink) (p : Bool) (v n : ℕ) → AllOf o p v (suc n) → AllOf o p (suc v) n
rest_of o p v n a k h =
    subst (λ j. is_disabled o j ≡ false → is_odd (priority_of o.game j) ≡ p) {x = v + suc k}
      {y = suc v + k} (omega arith) (a (suc k) (omega (arith, h)))

-- With one parity the test does not find two.
single_kept :
    (o : Oink) (n v : ℕ) (p : Bool) → AllOf o p v n → parities_from o n v (single p) ≡ single p
unfolding parities_from
single_kept o zero v p a = refl
single_kept o (suc n) v p a = elim (Bool-cases (is_disabled o v)) [
  | inl e ↦ rw e (single_kept o n (suc v) p (rest_of o p v n a))
  | inr e ↦
      let odd = first_of o p v n a e in
      let fits : same p (is_odd (priority_of o.game v)) ≡ true = ground (arith, odd) in
      rw (e, fits) (single_kept o n (suc v) p (rest_of o p v n a))
]

-- With one parity the test finds it, or no vertex is enabled.
unknown_or_single :
    (o : Oink) (n v : ℕ) (p : Bool)
    → AllOf o p v n
    → NoneOn o v n ⊎ (parities_from o n v unknown ≡ single p)
unfolding parities_from
unknown_or_single o zero v p a = inl (λ k h. absurd (omega arith))
unknown_or_single o (suc n) v p a = elim (Bool-cases (is_disabled o v)) [
  | inl e ↦ elim (unknown_or_single o n (suc v) p (rest_of o p v n a)) [
    | inr b ↦ inr (rw e b)
    | inl b ↦ inl (λ k h.
        elim k as (λ k. k < suc n → is_disabled o (v + k) ≡ true) [
          | zero ↦ λ i. subst (λ j. is_disabled o j ≡ true) {x = v} {y = v + 0} (omega arith) e
          | suc k ↦ λ i.
              subst (λ j. is_disabled o j ≡ true) {x = suc v + k} {y = v + suc k} (omega arith)
                (b k (omega (arith, i)))
        ]
          h)
  ]
  | inr e ↦ inr (
      rw e (
        subst (λ q. parities_from o n (suc v) (single q) ≡ single p) (sym (first_of o p v n a e))
          (single_kept o n (suc v) p (rest_of o p v n a))))
]

-- What is left after the loop is won by flush.
module _ (G : Graph) (o m q : Oink) (p : Bool) (last : ℕ) (c : IsClosed G o)
    (all_edges : (v : ℕ) → G.succ v ≡ outs o.game v) (k : IsSweep G.n o m p G.n 0)
    (f : IsFlushing G m last [] q) (idle : UintQueue.nonempty q.todo ≡ false) where
  by_player :
      (u : ℕ)
      → is_disabled o u ≡ false
      → is_solved m u ≡ true
      → (is_solved q u ≡ true) × (winner_of q u ≡ p)
  by_player u on d =
      let (a, b, e) = f.kept u d in
      elim (k.swept.only u d) [ inl i ↦ absurd (ground (arith, on, c.1 u i)) | inr i ↦ (a, b ∙ i) ]

  near_lem :
      (v : ℕ)
      → v < G.n
      → is_disabled o v ≡ false
      → is_solved m v ≡ false
      → IsNear G.n o m p v
      → (is_solved q v ≡ true) × (winner_of q v ≡ p)
  near_lem v small on left d =
      let (solved_to, won_to) = by_player d.to d.on d.solved in
      let owned : G.owner v ≡ p =
        sym (c.0.over.owners v) ∙ same_parity (owner_of o.game v) p d.own in
      let edge : 0 < occ d.to (G.succ v) = subst (λ z. 0 < occ d.to z) (sym (all_edges v)) d.edge in
      let counted = c.0.enabled d.to d.small d.on in
      elim (Bool-cases (is_solved q v)) [
        | inl e ↦ (e, attracted_lem owned edge counted won_to (f.settled v e left))
        | inr e ↦
            let enabled : is_disabled q v ≡ false =
              ground (arith, e, left, f.gone v, k.swept.gone v, on) in
            let other : winner_of q d.to ≡ not (G.owner v) =
              (counted-IsReady G last q f.state).opposed v d.to small (ground (arith, e, enabled))
                edge counted (ground (arith, not_waiting q idle d.to, solved_to)) in
            absurd (ground (arith, won_to, other, owned))
      ]
    where
      attracted_lem :
          G.owner v ≡ p
          → 0 < occ d.to (G.succ v)
          → G.counted d.to ≡ true
          → winner_of q d.to ≡ p
          → Attracted G q v
          → winner_of q v ≡ p
      attracted_lem owned edge counted won_to (by_choice t a b e g h) = a ∙ owned
      attracted_lem owned edge counted won_to (by_force a b h) =
          sym (h d.to edge counted).1 ∙ won_to

  won_lem :
      (v : ℕ)
      → v < G.n
      → is_disabled o v ≡ false
      → IsWon G.n o p v
      → (is_solved q v ≡ true) × (winner_of q v ≡ p)
  won_lem v small on w = elim (Bool-cases (is_solved m v)) [
    | inl e ↦ by_player v on e
    | inr e ↦ elim (k.done v (omega arith) (omega (arith, small)) on w) [
      | inl d ↦ by_player v on d
      | inr d ↦ near_lem v small on e d
    ]
  ]

  kept_lem :
      (v : ℕ) → is_solved o v ≡ true → (is_solved q v ≡ true) × (winner_of q v ≡ winner_of o v)
  kept_lem v d = let (a, b) = k.swept.kept v d in let (e, g, h) = f.kept v a in (e, g ∙ b)

-- What `solveSingleParity` may return.
pub data SingleOutcome (G : Graph) (o : Oink) : Option (Oink × Bool) → Type 0 where
  two_parities :
      ((p : Bool) → AllOf o p 0 G.n → (v : ℕ) → v < G.n → is_disabled o v ≡ true)
      → SingleOutcome G o (some (o, false))
  one_parity :
      (q : Oink) (p : Bool)
      → IsReady G q
      → AllOf o p 0 G.n
      → ((v : ℕ)
          → v < G.n
          → is_disabled o v ≡ false
          → IsWon G.n o p v
          → (is_solved q v ≡ true) × (winner_of q v ≡ p))
      → ((v : ℕ) → is_solved o v ≡ true → (is_solved q v ≡ true) × (winner_of q v ≡ winner_of o v))
      → SingleOutcome G o (some (q, true))

not_single :
    (G : Graph) (o : Oink) (seen : Parities)
    → parities_from o G.n 0 unknown ≡ seen
    → ((p : Bool) → seen ≡ single p → ⊥)
    → (p : Bool) → AllOf o p 0 G.n
    → (v : ℕ) → v < G.n
    → is_disabled o v ≡ true
not_single G o seen e never p a v small = elim (unknown_or_single o G.n 0 p a) [
  | inl b ↦ subst (λ j. is_disabled o j ≡ true) {x = 0 + v} {y = v} (omega arith) (b v small)
  | inr b ↦ absurd (never p (sym e ∙ b))
]

module _ (G : Graph) (fuel : ℕ) (o : Oink) (graph : IsGraph G) (c : IsClosed G o)
    (all : vertexcount o.game ≡ G.n) (all_edges : (v : ℕ) → G.succ v ≡ outs o.game v)
    (enough : work o ≤ fuel) where
  single_lem :
      (seen : Parities)
      → parities_from o (vertexcount o.game) 0 unknown ≡ seen
      → SingleOutcome G o (solve_single_parity fuel o)
  unfolding solve_single_parity
  single_lem unknown e =
      let e_n = subst (λ n. parities_from o n 0 unknown ≡ unknown) all e in
      rw (solve_single_parity, e)
        (two_parities (not_single G o unknown e_n (λ p i. true_not_false (sym (ap is_single i)))))
  single_lem mixed e =
      let e_n = subst (λ n. parities_from o n 0 unknown ≡ mixed) all e in
      rw (solve_single_parity, e)
        (two_parities (not_single G o mixed e_n (λ p i. true_not_false (sym (ap is_single i)))))
  single_lem (single p) e =
      let n = vertexcount o.game in
      let m = single_from n 0 p o in
      let (c_after, same_work) = single_from-IsClosed G n 0 p o c (omega (arith, all)) in
      let (q, returned, idle, (last, h), live) =
        flush_lem G m fuel 0 m graph (start-IsFlushing G m c_after.0)
          (omega (arith, same_work, enough)) in
      let k : IsSweep G.n o m p G.n 0 =
        subst (λ j. IsSweep G.n o m p j 0) all
          (single_from-IsSweep G n 0 p o c (omega (arith, all))) in
      rw (solve_single_parity, e, returned)
        (one_parity q p (counted-IsReady G last q h.state)
          (subst (AllOf o p 0) all (parities_unknown o n 0 p e))
          (won_lem G o m q p last c all_edges k h idle)
          (kept_lem G o m q p last c all_edges k h idle))

-- For a ready state over the graph of all its vertices and edges, in which what is solved is disabled,
-- and fuel for the entries of the queue and the unsolved vertices, solveSingleParity returns. If it
-- returns false, the state is as it was, and the vertices that are not disabled have not all one parity,
-- unless all are disabled. If it returns true, the state is ready, those vertices have one parity, and
-- its player wins each of them that the opponent owns, or that has an edge to a vertex that was not
-- disabled; what was solved keeps its winner.
pub solve_single_parity-SingleOutcome :
    (G : Graph) (fuel : ℕ) (o : Oink)
    → IsGraph G
    → IsClosed G o
    → vertexcount o.game ≡ G.n
    → ((v : ℕ) → G.succ v ≡ outs o.game v)
    → work o ≤ fuel
    → SingleOutcome G o (solve_single_parity fuel o)
solve_single_parity-SingleOutcome G fuel o graph c all all_edges enough =
    single_lem G fuel o graph c all all_edges enough
      (parities_from o (vertexcount o.game) 0 unknown) refl
