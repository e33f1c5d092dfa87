-- ===== src/Oink/Ready.antt =====
-- The states that `Oink::flush` is called on: the queue and the counts agree with the solution.
use urss.Base.{
  Option, ℕ, ◌≤◌, ◌<◌, ◌≡◌, refl, ap, ◌∙◌, arith, Bool, true, false, not, ◌&&◌, [], some, ltb, inl,
  inr,
}
use urss.UintQueue
use urss.UintQueue.{UintQueue}
use urss.UintQueue.Stack.{contents, entries}
use urss.Oink.{Oink, solve, is_solved, is_disabled, winner_of, int_mod, flush}
use urss.Base.Tally.{tally, occ, Distinct, tally_ext}
use urss.Oink.Attract.{Graph, IsGraph, IsOver, Attracted, is_open, is_free, in_todo}
use urss.Oink.Counted.{IsCounted, solve_state, count_of}
use urss.Oink.Steps.{IsFlushing, Kept}
use urss.Oink.Round.{work}
use urss.Oink.Flush.{flush_lem}

-- The queue and the counts agree with the solution: the count of a free vertex is the number of its
-- open successors, and a counted successor that was dealt with is won by the other player.
pub record IsReady (G : Graph) (o : Oink) : Type 0 where
  pub over : IsOver G o
  pub ints : (x : ℕ) → count_of o x < int_mod
  pub enabled : (x : ℕ) → x < G.n → is_disabled o x ≡ false → G.counted x ≡ true
  pub count : (x : ℕ) → x < G.n → is_free o x ≡ true → count_of o x ≡ tally (is_open G o) (G.succ x)
  pub opposed :
      (x u : ℕ)
      → x < G.n
      → is_free o x ≡ true
      → 0 < occ u (G.succ x)
      → G.counted u ≡ true
      → is_open G o u ≡ false
      → winner_of o u ≡ not (G.owner x)
  pub queued :
      (u : ℕ) → in_todo o u ≡ true → (u < G.n) × (is_solved o u ≡ true) × (G.counted u ≡ true)
  pub distinct : Distinct (contents o.todo)

ready-IsCounted : (G : Graph) (o : Oink) → IsReady G o → IsCounted G 0 [] o
ready-IsCounted G o r = record {
  over = r.over;
  ints = r.ints;
  enabled = r.enabled;
  near = λ x k. absurd (omega (arith, k));
  count = λ x b f. omega (arith, r.count x b f);
  opposed = λ x u b f k c e. inl (r.opposed x u b f k c e);
  queued = r.queued;
  distinct = r.distinct;
}

pub counted-IsReady : (G : Graph) (v : ℕ) (o : Oink) → IsCounted G v [] o → IsReady G o
counted-IsReady G v o r = record {
  over = r.over;
  ints = r.ints;
  enabled = r.enabled;
  count = λ x b f. omega (arith, r.count x b f);
  opposed = λ x u b f k c e. elim (r.opposed x u b f k c e) [
    | inl a ↦ a
    | inr (a, j) ↦ absurd (omega (arith, j))
  ];
  queued = r.queued;
  distinct = r.distinct;
}

-- solve keeps a state ready when the vertex is one of the graph that is neither solved nor disabled,
-- whoever wins it.
pub solve-IsReady :
    (G : Graph) (o : Oink) (x : ℕ) (w : Bool) (s : Option ℕ)
    → IsReady G o
    → x < G.n
    → is_free o x ≡ true
    → IsReady G (solve o x w s)
solve-IsReady G o x w s r small free =
    counted-IsReady G 0 (solve o x w s)
      (solve_state G 0 o [] x w s (ready-IsCounted G o r) small free)

pub start-IsFlushing : (G : Graph) (o : Oink) → IsReady G o → IsFlushing G o 0 [] o
start-IsFlushing G o r = record {
  state = ready-IsCounted G o r;
  kept = λ x d. (d, refl, refl);
  settled = λ x d n. ground (arith, d, n);
  gone = λ x d n. ground (arith, d, n);
}

-- A counted vertex that is not solved.
abbrev pub is_unsolved : Graph → Oink → ℕ → Bool
is_unsolved G o u = G.counted u && not (is_solved o u)

pub not_waiting : (o : Oink) → UintQueue.nonempty o.todo ≡ false → (u : ℕ) → in_todo o u ≡ false
unfolding UintQueue.nonempty
not_waiting o e u =
    let none_left : o.todo.pointer ≡ 0 = ground (arith, e) in
    ap (λ k. ltb 0 (occ u (entries o.todo.queue k))) none_left

-- For a ready state over a graph, and fuel for the entries of the queue and the unsolved vertices,
-- flush returns a state with an empty queue; what was solved keeps its winner and strategy, and every
-- vertex that flush solves is attracted: its owner moves, by its strategy, to a solved vertex with the
-- same winner, who is the owner, or all its counted successors are solved and won by the other player.
pub flush_attracts :
    (G : Graph) (fuel : ℕ) (o : Oink)
    → IsGraph G
    → IsReady G o
    → work o ≤ fuel
    → (p : Oink) × (flush fuel o ≡ some p)
      × (UintQueue.nonempty p.todo ≡ false)
      × ((x : ℕ) → is_solved o x ≡ true → Kept o p x)
      × ((x : ℕ) → is_solved p x ≡ true → is_solved o x ≡ false → Attracted G p x)
flush_attracts G fuel o graph r enough =
    let (p, a, b, (u, h), live) = flush_lem G o fuel 0 o graph (start-IsFlushing G o r) enough in
    (p, a, b, h.kept, h.settled)

-- For a ready state over a graph, and fuel for the entries of the queue and the unsolved vertices,
-- flush returns a state in which nothing is left to attract to what is solved: for each vertex that is
-- neither solved nor disabled, outcount is the number of its counted successors that are not solved, and
-- is not 0 unless it was 0 before; and every solved one is won by the player who does not own the
-- vertex.
pub flush_complete :
    (G : Graph) (fuel : ℕ) (o : Oink)
    → IsGraph G
    → IsReady G o
    → work o ≤ fuel
    → (p : Oink) × (flush fuel o ≡ some p)
      × ((x : ℕ)
          → x < G.n
          → is_free p x ≡ true
          → (count_of p x ≡ tally (is_unsolved G p) (G.succ x))
            × (0 < count_of o x → 0 < count_of p x)
            × ((u : ℕ)
                → 0 < occ u (G.succ x)
                → G.counted u ≡ true
                → is_solved p u ≡ true
                → winner_of p u ≡ not (G.owner x)))
flush_complete G fuel o graph r enough =
    let (p, a, b, (v, h), live) = flush_lem G o fuel 0 o graph (start-IsFlushing G o r) enough in
    let idle = not_waiting p b in
    (
      p,
      a,
      λ x s f. (
        (h.state.count x s f)
            ∙ omega (
              arith,
              tally_ext (is_open G p) (is_unsolved G p) (G.succ x) (λ u. ground (arith, idle u)),
            ),
        live (λ y c d k. k) x s f,
        λ u i c d. elim (h.state.opposed x u s f i c (ground (arith, idle u, d))) [
          | inl e ↦ e
          | inr (e, j) ↦ absurd (omega (arith, j))
        ],
      ),
    )

-- For a ready state over a graph, and fuel for the entries of the queue and the unsolved vertices,
-- flush returns a ready state.
pub flush-IsReady :
    (G : Graph) (fuel : ℕ) (o : Oink)
    → IsGraph G
    → IsReady G o
    → work o ≤ fuel
    → (p : Oink) × (flush fuel o ≡ some p) × IsReady G p
flush-IsReady G fuel o graph r enough =
    let (p, a, b, (v, h), live) = flush_lem G o fuel 0 o graph (start-IsFlushing G o r) enough in
    (p, a, counted-IsReady G v p h.state)
