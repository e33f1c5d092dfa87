-- ===== src/Tests/ZlkTests.antt =====
-- A game of three vertices of the priorities 0, 1 and 2: 0 moves to 2, 1 to itself and to 2, and 2 to
-- itself. Odd owns the vertex 1, which is left with a count when Even attracts to 2.
use urss.Base.{
  ℕ, zero, suc, ◌+◌, ◌<◌, ◌≤◌, ◌≡◌, refl, arith, true, false, List, [], ◌∷◌, none, some, length,
  get_or,
}
use urss.UintQueue
use urss.Game.{Game, outs, owner_of, vertexcount, no_game, until_end}
use urss.Game.Ins.{ins}
use urss.Oink.{Oink, make, solve, flush}
use urss.Base.Tally.{tally, occ}
use urss.Oink.Attract.{IsGraph}
use urss.Oink.Start.{graph_of, IsUnsolved}
use urss.Zlk.{
  Zlk, Attracted, waiting, region_of, winning_of, is_taken, is_within, take_vertex, attract_queue,
  attract_ext,
}
use urss.Zlk.Matches.{Matches}
use urss.Zlk.Queue.{attract_queue-flush}
use urss.Zlk.Reached.{Reached, is_left}
use urss.Zlk.Heads.{won-Matches, won-IsReady}
use urss.Zlk.Ext.{bound, StopsAt, start-IsBetween, attract_ext-start_arrays}
use urss.Zlk.Run.{top_vertex, initial_regions, start_arrays}
use urss.Tests.OinkTests.{below_three, none_disabled, never_solved}

abbrev pub to_two : Game
to_two = record no_game {
  n_vertices = 3;
  n_edges = 4;
  priority = 0 ∷ 1 ∷ 2 ∷ [];
  owner = false ∷ true ∷ false ∷ [];
  outedges = some 2 ∷ none ∷ some 1 ∷ some 2 ∷ none ∷ some 2 ∷ none ∷ [];
  firstouts = 0 ∷ 2 ∷ 5 ∷ [];
  outcount = 1 ∷ 2 ∷ 1 ∷ [];
  inedges = some (record {
    edges = none ∷ some 1 ∷ none ∷ some 0 ∷ some 1 ∷ some 2 ∷ none ∷ [];
    firstins = 0 ∷ 1 ∷ 3 ∷ [];
    incount = 0 ∷ 1 ∷ 3 ∷ [];
  });
  e_size = 7;
  solved = none_disabled;
  winner = none_disabled;
  strategy = none ∷ none ∷ none ∷ [];
}

few_moves : (v : ℕ) → length (outs to_two v) < 4294967296
unfolding outs until_end
few_moves zero = omega arith
few_moves (suc zero) = omega arith
few_moves (suc (suc zero)) = omega arith
few_moves (suc (suc (suc v))) = omega arith

to_two-IsUnsolved : IsUnsolved to_two none_disabled
unfolding vertexcount
to_two-IsUnsolved = record {
  unsolved = never_solved;
  solved_size = refl;
  winner_size = refl;
  strategy_size = refl;
  disabled_size = refl;
  small = few_moves;
}

abbrev Agree : ℕ → ℕ → Type 0
Agree x v = occ x (ins to_two v) ≡ occ v (outs to_two x)

pub to_two-IsGraph : IsGraph (graph_of to_two none_disabled)
unfolding outs ins until_end vertexcount
to_two-IsGraph = record {
  converse = λ x v h k.
      below_three (Agree x) (below_three (λ y. Agree y 0) refl refl refl x h)
        (below_three (λ y. Agree y 1) refl refl refl x h)
        (below_three (λ y. Agree y 2) refl refl refl x h) v k;
  in_range = λ x v h.
      below_three (λ u. 0 < occ x (ins to_two u) → x < 3) (λ k. ground (arith, k))
        (λ k. ground (arith, k)) (λ k. ground (arith, k)) v h;
}

targets_in_range :
    (x v : ℕ) → x < vertexcount to_two → 0 < occ v (outs to_two x) → v < vertexcount to_two
unfolding outs until_end vertexcount
targets_in_range x v h =
    below_three (λ u. 0 < occ v (outs to_two u) → v < 3) (λ k. ground (arith, k))
      (λ k. ground (arith, k)) (λ k. ground (arith, k)) x h

top_is_two : top_vertex none_disabled (vertexcount to_two) ≡ some 2
unfolding top_vertex vertexcount
top_is_two = refl

attract_queue-flush_example :
    (y : Zlk) × (p : Oink) × (B : List ℕ) × (attract_queue to_two 3 2 0 false
        (take_vertex (start_arrays to_two none_disabled) 2 0 false none)
        []
      ≡ some (y, B))
    × (flush 3 (solve (make to_two none_disabled) 2 false none) ≡ some p)
    × (UintQueue.nonempty y.q ≡ false)
    × Matches to_two 3 2 0 false y p
unfolding vertexcount make UintQueue.make solve UintQueue.push start_arrays initial_regions
attract_queue-flush_example =
    attract_queue-flush (graph_of to_two none_disabled) to_two 2 0 false 3
      (take_vertex (start_arrays to_two none_disabled) 2 0 false none)
      (solve (make to_two none_disabled) 2 false none) [] to_two-IsGraph
      (won-IsReady to_two none_disabled 2 false (start_arrays to_two none_disabled)
        (make to_two none_disabled)
        (start-IsBetween to_two none_disabled 2 false to_two-IsUnsolved top_is_two targets_in_range)
        (omega arith) refl)
      (won-Matches to_two none_disabled 2 false (start_arrays to_two none_disabled)
        (make to_two none_disabled)
        (start-IsBetween to_two none_disabled 2 false to_two-IsUnsolved top_is_two targets_in_range)
        (omega arith) refl)
      (omega arith)

attract_ext-start_arrays_example :
    (R : Attracted) × (attract_ext to_two true 3 2 0 (start_arrays to_two none_disabled) []
      ≡ some R)
    × (UintQueue.nonempty R.arrays.q ≡ false)
    × ((v : ℕ)
        → is_within 0 (region_of R.arrays v) ≡ true
        → (winning_of R.arrays v ≡ some false) × Reached to_two none_disabled false R.arrays v)
    × ((v : ℕ)
        → bound R.next ≤ v
        → v < 3
        → get_or none_disabled v false ≡ false
        → is_within 0 (region_of R.arrays v) ≡ true)
    × ((k : ℕ) → R.next ≡ some k → StopsAt to_two true 2 R.arrays k)
    × ((v to : ℕ)
        → v < bound R.next
        → is_taken (region_of R.arrays v) ≡ false
        → owner_of to_two v ≡ false
        → 0 < occ to (outs to_two v)
        → get_or none_disabled to false ≡ false
        → is_within 0 (region_of R.arrays to) ≡ false)
    × ((v k : ℕ)
        → v < bound R.next
        → region_of R.arrays v ≡ waiting k
        → tally (is_left none_disabled R.arrays) (outs to_two v) ≡ k + 1)
unfolding vertexcount
attract_ext-start_arrays_example =
    attract_ext-start_arrays to_two none_disabled true 2 3 to_two-IsUnsolved to_two-IsGraph
      top_is_two targets_in_range (omega arith)
