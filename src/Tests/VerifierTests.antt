-- ===== src/Tests/VerifierTests.antt =====
-- A full solution of a game of two vertices: Even moves from 0 to 1, and Odd has only the edge back.
use urss.Base.{◌≡◌, refl, arith, [], ◌∷◌, none, some, Bool, true, false}
use urss.Game.{Game, no_game, outs, has_edge, find_edge, find_target, until_end}
use urss.Verifier.{
  ok, solved_at, winner_at, looked_at, check_winning, check_losing, check_vertex, check_vertices,
  all_stay,
}
use urss.Verifier.Dominion.{Keeps, check_vertices_sound}

abbrev solved_pair : Game
solved_pair = record no_game {
  n_vertices = 2;
  n_edges = 2;
  priority = 0 ∷ 2 ∷ [];
  owner = false ∷ true ∷ [];
  outedges = some 1 ∷ none ∷ some 0 ∷ none ∷ [];
  firstouts = 0 ∷ 2 ∷ [];
  outcount = 1 ∷ 1 ∷ [];
  e_size = 4;
  e_allocated = 4;
  solved = true ∷ true ∷ [];
  winner = false ∷ false ∷ [];
  strategy = some 1 ∷ none ∷ [];
}

passes : check_vertices solved_pair true true true 2 0 0 ≡ ok 1
unfolding check_vertices check_vertex check_winning check_losing all_stay has_edge find_edge
    find_target outs until_end
passes = refl

check_vertices_sound_example :
    (solved_at solved_pair 1 ≡ true
      → looked_at true true (winner_at solved_pair 1) ≡ true
      → Keeps solved_pair 1)
    × (◌≡◌ {A = Bool} true true → solved_at solved_pair 1 ≡ true)
check_vertices_sound_example =
    check_vertices_sound solved_pair true true true 2 1 passes 1 (omega arith)
