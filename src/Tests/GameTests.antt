-- ===== src/Tests/GameTests.antt =====
-- A game of three vertices, built from vectors, and the priorities 0, 2, 2, 5.
use urss.Base.{
  true, false, get_or, not, ◌-◌, ◌&&◌, ◌||◌, ◌==◌, ℕ, ◌+◌, ◌%◌, ◌<◌, ◌≤◌, ◌≡◌, ◌↔◌, refl, arith,
  List, [], ◌∷◌, some,
}
use urss.Game.Lookup.{has_edge_lem, vec_add_edge_lem, vec_remove_edge_lem}
use urss.Game.{
  Game, has_edge, contains, vec_add_edge, vec_has_edge, vec_remove_edge, make, outs, vec_finish,
  outvec_of,
}
use urss.Game.Edges.{IsSized}
use urss.Game.VecFinish.{outs-vec_finish}
use urss.Game.Relabel.{inflate, compress, renumber, evenodd, minmax, relabel, compress_step}
use urss.Game.Relabel.Order.{priority, IsSorted}
use urss.Game.Relabel.Parity.{max_at, min_at, relabel_keeps_winner, evenodd_flips_winner}
use urss.Game.Relabel.Count.{
  renumber_distinguishes, inflate_unique, compress_no_gap, relabel_returns_distinct, distinct,
}
use urss.Game.Relabel.Minmax.{minmax_keeps_winner}

abbrev edge_lists : List (List ℕ)
edge_lists = (1 ∷ 2 ∷ []) ∷ (0 ∷ []) ∷ (2 ∷ 0 ∷ 1 ∷ []) ∷ []

abbrev small : Game
small = record (make 3 (some 1)) { outvec = some edge_lists }

small-IsSized : IsSized (record small { e_size = 0 })
unfolding make
small-IsSized = record { vertices = refl; edges = refl; room = omega arith; grows = omega arith }

outs-vec_finish_example : outs (vec_finish small) 2 ≡ outvec_of small 2
unfolding make
outs-vec_finish_example = outs-vec_finish small 2 small-IsSized refl (omega arith)

abbrev levels : List ℕ
levels = 0 ∷ 2 ∷ 2 ∷ 5 ∷ []

levels-IsSorted : IsSorted levels
levels-IsSorted i j h k = grind arith

compress_runs : compress levels ≡ (0 ∷ 0 ∷ 0 ∷ 1 ∷ [], 2)
unfolding compress relabel compress_step
compress_runs = refl

relabel_keeps_winner_example :
    (max_at (inflate levels).0 (1 ∷ 3 ∷ []) % 2 ≡ max_at levels (1 ∷ 3 ∷ []) % 2)
    × (max_at (compress levels).0 (1 ∷ 3 ∷ []) % 2 ≡ max_at levels (1 ∷ 3 ∷ []) % 2)
    × (max_at (renumber levels).0 (1 ∷ 3 ∷ []) % 2 ≡ max_at levels (1 ∷ 3 ∷ []) % 2)
relabel_keeps_winner_example = relabel_keeps_winner levels levels-IsSorted 1 (3 ∷ []) (omega arith)

evenodd_flips_winner_example :
    (max_at (evenodd levels (true ∷ false ∷ [])).0 (1 ∷ 3 ∷ []) % 2
      ≡ (max_at levels (1 ∷ 3 ∷ []) + 1) % 2)
    × (get_or (evenodd levels (true ∷ false ∷ [])).1 0 false
        ≡ not (get_or (true ∷ false ∷ []) 0 false))
evenodd_flips_winner_example =
    evenodd_flips_winner levels (true ∷ false ∷ []) levels-IsSorted 1 (3 ∷ []) (omega arith) 0
      (omega arith)

minmax_keeps_winner_example : min_at (minmax levels) 1 (3 ∷ []) % 2 ≡ max_at levels (1 ∷ 3 ∷ []) % 2
minmax_keeps_winner_example = minmax_keeps_winner levels levels-IsSorted 1 (3 ∷ []) (omega arith)

renumber_distinguishes_example :
    (priority (renumber levels).0 1 ≡ priority (renumber levels).0 2)
    ↔ (priority levels 1 ≡ priority levels 2)
renumber_distinguishes_example =
    renumber_distinguishes levels levels-IsSorted 1 2 (omega arith) (omega arith)

inflate_unique_example : priority (inflate levels).0 1 < priority (inflate levels).0 2
inflate_unique_example = inflate_unique levels 1 2 (omega arith) (omega arith)

compress_no_gap_example :
    (priority (compress levels).0 3 % 2 ≡ priority levels 3 % 2)
    × (priority (compress levels).0 0 ≤ 1)
    × (priority (compress levels).0 (3 - 1) ≤ priority (compress levels).0 3)
    × (priority (compress levels).0 3 ≤ priority (compress levels).0 (3 - 1) + 1)
compress_no_gap_example = compress_no_gap levels 3 (omega arith)

relabel_returns_distinct_example :
    ((inflate levels).1 ≡ distinct (inflate levels).0)
    × ((compress levels).1 ≡ distinct (compress levels).0)
    × ((renumber levels).1 ≡ distinct (renumber levels).0)
relabel_returns_distinct_example = relabel_returns_distinct levels

has_edge_lem_example : has_edge small 2 1 ≡ contains 1 (outs small 2)
has_edge_lem_example = has_edge_lem small 2 1

vec_add_edge_lem_example :
    ((vec_add_edge small 1 2).1 ≡ not (vec_has_edge small 1 2))
    × (vec_has_edge (vec_add_edge small 1 2).0 1 2 ≡ (vec_has_edge small 1 2 || (1 == 1 && 2 == 2)))
vec_add_edge_lem_example = vec_add_edge_lem small 1 2 1 2 (omega arith)

vec_remove_edge_lem_example :
    ((vec_remove_edge small 2 0).1 ≡ vec_has_edge small 2 0)
    × (vec_has_edge (vec_remove_edge small 2 0).0 2 0
        ≡ (vec_has_edge small 2 0 && not (2 == 2 && 0 == 0)))
vec_remove_edge_lem_example = vec_remove_edge_lem small 2 0 2 0 (omega arith)
