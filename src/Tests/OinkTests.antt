-- ===== src/Tests/OinkTests.antt =====
-- A game of three vertices: 0 moves to itself, 1 to 0, and 2 to 0 and 1. The vertex 0 is won by Even,
-- who owns 0 and 1, and waits in the queue.
use urss.Base.{
  inl, Bool, List, length, ℕ, zero, suc, ◌<◌, ◌≡◌, refl, sym, subst, arith, true, false, not, [],
  ◌∷◌, none, some, get_or,
}
use urss.UintQueue
use urss.Game.{Game, outs, vertexcount, no_game, until_end}
use urss.Game.Ins.{ins, build_in_array}
use urss.Game.Ins.Count.{Below}
use urss.Game.Ins.Converse.{IsWired, ins-build_in_array}
use urss.Oink.{Oink, make, solve, solve_selfloops, solve_single_parity, is_solved, winner_of, flush}
use urss.Base.Tally.{tally, occ}
use urss.Oink.Attract.{Graph, IsGraph, Attracted, is_free, is_open, in_todo}
use urss.Oink.Counted.{count_of}
use urss.Oink.Steps.{Kept}
use urss.Oink.Ready.{
  IsReady, is_unsolved, flush_attracts, flush_complete, solve-IsReady, flush-IsReady,
}
use urss.Oink.Start.{graph_of, IsUnsolved, make-IsReady}
use urss.Oink.Selfloops.{IsClosed}
use urss.Oink.Swept.{SingleOutcome, solve_single_parity-SingleOutcome}
use urss.Oink.Looped.{Looped, solve_selfloops-Looped}

abbrev three : Game
three = record no_game {
  n_vertices = 3;
  n_edges = 4;
  priority = 0 ∷ 1 ∷ 2 ∷ [];
  owner = false ∷ false ∷ true ∷ [];
  outedges = some 0 ∷ none ∷ some 0 ∷ none ∷ some 0 ∷ some 1 ∷ none ∷ [];
  firstouts = 0 ∷ 2 ∷ 4 ∷ [];
  outcount = 1 ∷ 1 ∷ 2 ∷ [];
  inedges = some (record {
    edges = some 0 ∷ some 1 ∷ some 2 ∷ none ∷ some 2 ∷ none ∷ none ∷ [];
    firstins = 0 ∷ 4 ∷ 6 ∷ [];
    incount = 3 ∷ 1 ∷ 0 ∷ [];
  });
  e_size = 7;
  solved = true ∷ false ∷ false ∷ [];
  winner = false ∷ false ∷ false ∷ [];
  strategy = some 0 ∷ none ∷ none ∷ [];
}

abbrev waiting : Oink
waiting = record {
  game = three;
  todo = record { queue = 0 ∷ 0 ∷ 0 ∷ []; pointer = 1 };
  outcount = 1 ∷ 1 ∷ 2 ∷ [];
  disabled = true ∷ false ∷ false ∷ [];
}

abbrev three_graph : Graph
three_graph = record {
  n = 3;
  owner = λ v. get_or (false ∷ false ∷ true ∷ []) v false;
  succ = λ v. get_or ((0 ∷ []) ∷ (0 ∷ []) ∷ (0 ∷ 1 ∷ []) ∷ []) v [];
  pred = λ v. get_or ((0 ∷ 1 ∷ 2 ∷ []) ∷ (2 ∷ []) ∷ [] ∷ []) v [];
  counted = λ v. true;
}

pub below_three : (P : ℕ → Type 0) → P 0 → P 1 → P 2 → (x : ℕ) → x < 3 → P x
below_three P a b c zero h = a
below_three P a b c (suc zero) h = b
below_three P a b c (suc (suc zero)) h = c
below_three P a b c (suc (suc (suc x))) h = absurd (omega arith)

abbrev Converse : ℕ → ℕ → Type 0
Converse x v = occ x (three_graph.pred v) ≡ occ v (three_graph.succ x)

in_range_three : (x v : ℕ) → v < 3 → 0 < occ x (three_graph.pred v) → x < 3
in_range_three x v h =
    below_three (λ v. 0 < occ x (three_graph.pred v) → x < 3) (λ k. ground (arith, k))
      (λ k. ground (arith, k)) (λ k. ground (arith, k)) v h

three_graph-IsGraph : IsGraph three_graph
three_graph-IsGraph = record {
  converse = λ x v h k.
      below_three (Converse x) (below_three (λ y. Converse y 0) refl refl refl x h)
        (below_three (λ y. Converse y 1) refl refl refl x h)
        (below_three (λ y. Converse y 2) refl refl refl x h) v k;
  in_range = in_range_three;
}

ints_three : (x : ℕ) → count_of waiting x < 4294967296
ints_three zero = omega arith
ints_three (suc zero) = omega arith
ints_three (suc (suc zero)) = omega arith
ints_three (suc (suc (suc x))) = omega arith

is_zero_of : (u : ℕ) → in_todo waiting u ≡ true → u ≡ 0
is_zero_of zero q = refl
is_zero_of (suc u) q = ground (arith, q)

open_three : (u : ℕ) → is_open three_graph waiting u ≡ true
open_three zero = refl
open_three (suc zero) = refl
open_three (suc (suc zero)) = refl
open_three (suc (suc (suc u))) = refl

waiting-IsReady : IsReady three_graph waiting
unfolding ins until_end
waiting-IsReady = record {
  over = record {
    owners = λ v. refl;
    preds = below_three (λ v. ins three v ≡ three_graph.pred v) refl refl refl;
    solved_size = refl;
    winner_size = refl;
    strategy_size = refl;
    disabled_size = refl;
    outcount_size = refl;
    room = omega arith;
  };
  ints = ints_three;
  enabled = λ x h e. refl;
  count =
      below_three
        (λ x.
          is_free waiting x ≡ true
          → count_of waiting x ≡ tally (is_open three_graph waiting) (three_graph.succ x))
        (λ f. ground (arith, f)) (λ f. refl) (λ f. refl);
  opposed = λ x u h f k c e. ground (arith, e, open_three u);
  queued = λ u q.
      subst (λ z. (z < 3) × (is_solved waiting z ≡ true) × (three_graph.counted z ≡ true))
        (sym (is_zero_of u q)) (omega arith, refl, refl);
  distinct = (refl, record {});
}

flush_attracts_example :
    (p : Oink) × (flush 3 waiting ≡ some p)
    × (UintQueue.nonempty p.todo ≡ false)
    × ((x : ℕ) → is_solved waiting x ≡ true → Kept waiting p x)
    × ((x : ℕ) → is_solved p x ≡ true → is_solved waiting x ≡ false → Attracted three_graph p x)
flush_attracts_example =
    flush_attracts three_graph 3 waiting three_graph-IsGraph waiting-IsReady (omega arith)

flush_complete_example :
    (p : Oink) × (flush 3 waiting ≡ some p)
    × ((x : ℕ)
        → x < 3
        → is_free p x ≡ true
        → (count_of p x ≡ tally (is_unsolved three_graph p) (three_graph.succ x))
          × (0 < count_of waiting x → 0 < count_of p x)
          × ((u : ℕ)
              → 0 < occ u (three_graph.succ x)
              → three_graph.counted u ≡ true
              → is_solved p u ≡ true
              → winner_of p u ≡ not (three_graph.owner x)))
flush_complete_example =
    flush_complete three_graph 3 waiting three_graph-IsGraph waiting-IsReady (omega arith)

solve-IsReady_example : IsReady three_graph (solve waiting 1 true none)
solve-IsReady_example =
    solve-IsReady three_graph waiting 1 true none waiting-IsReady (omega arith) refl

flush-IsReady_example : (p : Oink) × (flush 3 waiting ≡ some p) × IsReady three_graph p
flush-IsReady_example =
    flush-IsReady three_graph 3 waiting three_graph-IsGraph waiting-IsReady (omega arith)

-- The same game before anything is solved, with even priorities.
abbrev unsolved_three : Game
unsolved_three = record three {
  priority = 0 ∷ 2 ∷ 2 ∷ [];
  solved = false ∷ false ∷ false ∷ [];
  strategy = none ∷ none ∷ none ∷ [];
}

abbrev pub none_disabled : List Bool
none_disabled = false ∷ false ∷ false ∷ []

pub never_solved : (v : ℕ) → get_or none_disabled v false ≡ false
never_solved zero = refl
never_solved (suc zero) = refl
never_solved (suc (suc zero)) = refl
never_solved (suc (suc (suc v))) = refl

few_outs : (v : ℕ) → length (outs unsolved_three v) < 4294967296
unfolding outs until_end
few_outs zero = omega arith
few_outs (suc zero) = omega arith
few_outs (suc (suc zero)) = omega arith
few_outs (suc (suc (suc v))) = omega arith

unsolved_three-IsUnsolved : IsUnsolved unsolved_three none_disabled
unfolding vertexcount
unsolved_three-IsUnsolved = record {
  unsolved = never_solved;
  solved_size = refl;
  winner_size = refl;
  strategy_size = refl;
  disabled_size = refl;
  small = few_outs;
}

make-IsReady_example :
    IsReady (graph_of unsolved_three none_disabled) (make unsolved_three none_disabled)
make-IsReady_example = make-IsReady unsolved_three none_disabled unsolved_three-IsUnsolved

made-IsClosed : IsClosed (graph_of unsolved_three none_disabled) (make unsolved_three none_disabled)
unfolding make
made-IsClosed = (
  make-IsReady unsolved_three none_disabled unsolved_three-IsUnsolved,
  λ v d. ground (arith, d, never_solved v),
)

abbrev Agree : ℕ → ℕ → Type 0
Agree x v = occ x (ins unsolved_three v) ≡ occ v (outs unsolved_three x)

unsolved_three-IsGraph : IsGraph (graph_of unsolved_three none_disabled)
unfolding outs ins until_end vertexcount
unsolved_three-IsGraph = record {
  converse = λ x v h k.
      below_three (Agree x) (below_three (λ y. Agree y 0) refl refl refl x h)
        (below_three (λ y. Agree y 1) refl refl refl x h)
        (below_three (λ y. Agree y 2) refl refl refl x h) v k;
  in_range = λ x v h.
      below_three (λ u. 0 < occ x (ins unsolved_three u) → x < 3) (λ k. ground (arith, k))
        (λ k. ground (arith, k)) (λ k. ground (arith, k)) v h;
}

-- The game without the array of ingoing edges.
abbrev unbuilt : Game
unbuilt = record unsolved_three { inedges = none }

unbuilt-IsWired : IsWired unbuilt
unfolding outs until_end
unbuilt-IsWired = record {
  in_range =
      below_three (λ v. Below 3 (outs unbuilt v)) (omega arith, tt) (omega arith, tt)
        (omega arith, (omega arith, tt));
  room = omega arith;
}

ins-build_in_array_example : occ 2 (ins (build_in_array unbuilt false) 1) ≡ occ 1 (outs unbuilt 2)
ins-build_in_array_example =
    ins-build_in_array unbuilt false 2 1 unbuilt-IsWired (inl refl) (omega arith)

solve_selfloops-Looped_example :
    (p : Oink) × (res : ℕ) × (solve_selfloops 3 (make unsolved_three none_disabled) ≡ some (p, res))
    × Looped (graph_of unsolved_three none_disabled) (make unsolved_three none_disabled) p res
unfolding make UintQueue.make
solve_selfloops-Looped_example =
    solve_selfloops-Looped (graph_of unsolved_three none_disabled) 3
      (make unsolved_three none_disabled) unsolved_three-IsGraph made-IsClosed refl (omega arith)

solve_single_parity-SingleOutcome_example :
    SingleOutcome
      (graph_of unsolved_three none_disabled)
      (make unsolved_three none_disabled)
      (solve_single_parity 3 (make unsolved_three none_disabled))
unfolding make UintQueue.make
solve_single_parity-SingleOutcome_example =
    solve_single_parity-SingleOutcome (graph_of unsolved_three none_disabled) 3
      (make unsolved_three none_disabled) unsolved_three-IsGraph made-IsClosed refl (λ v. refl)
      (omega arith)
