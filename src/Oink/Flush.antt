-- ===== src/Oink/Flush.antt =====
-- The loop of `Oink::flush` over the queue.
use urss.Base.{
  ℕ, zero, suc, ◌+◌, ◌≤◌, ◌<◌, ◌≡◌, ◌≢◌, refl, ap, ◌∙◌, arith, true, false, [], ◌∷◌, some, ◌==◌,
  Bool-cases, inl, inr, subst,
}
use urss.UintQueue
use urss.UintQueue.{UintQueue}
use urss.UintQueue.Stack.{contents, contents-pop, capacity}
use urss.Oink.{Oink, is_solved, winner_of, flush_round, flush}
use urss.Base.Tally.{occ, Distinct, tally_drop}
use urss.Oink.Attract.{Graph, IsGraph, by_choice, by_force, is_open, in_todo}
use urss.Oink.Steps.{IsFlushing}
use urss.Oink.Round.{work, Live, attract_all_lem}

-- A vertex is taken from the queue.
module _ (G : Graph) (graph : IsGraph G) (start : Oink) (v : ℕ) (o : Oink)
    (h : IsFlushing G start v [] o) (some_left : UintQueue.nonempty o.todo ≡ true) where
  abbrev pub top : ℕ
  top = (UintQueue.pop o.todo).0

  abbrev pub popped : Oink
  popped = record o { todo = (UintQueue.pop o.todo).1 }

  pub contents_lem : contents o.todo ≡ top ∷ contents popped.todo
  contents_lem = contents-pop o.todo some_left

  pub top_waits : in_todo o top ≡ true
  top_waits = rw contents_lem (ground arith)

  pub top_lem : (top < G.n) × (is_solved o top ≡ true) × (G.counted top ≡ true)
  top_lem = h.state.queued top top_waits

  distinct_lem : Distinct (top ∷ contents popped.todo)
  distinct_lem = subst Distinct contents_lem h.state.distinct

  in_todo_other : (u : ℕ) → u ≢ top → in_todo o u ≡ in_todo popped u
  in_todo_other u e = rw contents_lem (ground (arith, e))

  open_top : (is_open G o top ≡ true) × (is_open G popped top ≡ false)
  open_top = (ground (arith, top_lem.2, top_waits), ground (arith, top_lem.1, distinct_lem.0))

  open_other : (u : ℕ) → u ≢ top → is_open G o u ≡ is_open G popped u
  open_other u e = ground (arith, in_todo_other u e)

  work-popped : work popped + 1 ≡ work o
  unfolding UintQueue.pop UintQueue.nonempty
  work-popped = ground (arith, some_left)

  room-popped : work popped ≤ capacity popped.todo
  unfolding UintQueue.pop
  room-popped = omega (arith, h.state.over.room)

  pub pop_step : IsFlushing G start top (G.pred top) popped
  pop_step = record {
    state = record {
      over = record {
        owners = h.state.over.owners;
        preds = h.state.over.preds;
        solved_size = h.state.over.solved_size;
        winner_size = h.state.over.winner_size;
        strategy_size = h.state.over.strategy_size;
        disabled_size = h.state.over.disabled_size;
        outcount_size = h.state.over.outcount_size;
        room = room-popped;
      };
      ints = h.state.ints;
      enabled = h.state.enabled;
      near = λ x k.
          let b = graph.in_range x top top_lem.0 k in
          (b, omega (arith, graph.converse x top b top_lem.0, k));
      count = λ x b f. omega (
        arith,
        h.state.count x b f,
        graph.converse x top b top_lem.0,
        tally_drop (is_open G o) (is_open G popped) top (G.succ x) open_top.0 open_top.1 open_other,
      );
      opposed = λ x u b f k c e. elim (Bool-cases (u == top)) [
        | inl i ↦
            let here : u ≡ top = ground arith in
            inr (
              here,
              omega (arith, graph.converse x top b top_lem.0, k, ap (λ z. occ z (G.succ x)) here),
            )
        | inr i ↦ elim (h.state.opposed x u b f k c (open_other u (ground arith) ∙ e)) [
          | inl a ↦ inl a
          | inr (here, j) ↦ absurd (omega (arith, j))
        ]
      ];
      queued = λ u q. h.state.queued u (rw contents_lem (ground (arith, q)));
      distinct = distinct_lem.1;
    };
    kept = h.kept;
    gone = h.gone;
    settled = λ y d n. elim (h.settled y d n) [
      | by_choice t a b c e g ↦ by_choice t a b c e g
      | by_force a b p ↦ by_force a b p
    ];
  }

  pub round_lem :
      (u : ℕ) × IsFlushing G start u [] (flush_round o)
      × (work (flush_round o) + 1 ≡ work o)
      × (Live G start o → Live G start (flush_round o))
  unfolding flush_round
  round_lem =
      let (a, b, c, d, e) =
        attract_all_lem G start top (winner_of o top) (G.pred top) popped pop_step top_lem.1 refl in
      rw (h.state.over.preds top top_lem.0) (top, a, omega (arith, d, work-popped), e)

-- With fuel for the entries of the queue and the unsolved vertices, the loop ends, with an empty
-- queue, and keeps the invariant.
pub flush_lem :
    (G : Graph) (start : Oink) (fuel : ℕ) (v : ℕ) (o : Oink)
    → IsGraph G
    → IsFlushing G start v [] o
    → work o ≤ fuel
    → (p : Oink) × (flush fuel o ≡ some p)
      × (UintQueue.nonempty p.todo ≡ false)
      × ((u : ℕ) × IsFlushing G start u [] p)
      × (Live G start o → Live G start p)
unfolding flush UintQueue.nonempty
flush_lem G start zero v o graph h enough =
    let none_left : UintQueue.nonempty o.todo ≡ false = ground (arith, enough) in
    (o, rw none_left refl, none_left, (v, h), λ live. live)
flush_lem G start (suc fuel) v o graph h enough = elim (Bool-cases (UintQueue.nonempty o.todo)) [
  | inl e ↦
      let (u, a, b, l) = round_lem G graph start v o h e in
      let (p, c, d, k, m) =
        flush_lem G start fuel u (flush_round o) graph a (omega (arith, b, enough)) in
      (p, rw e c, d, k, λ live. m (l live))
  | inr e ↦ (o, rw e refl, e, (v, h), λ live. live)
]
