-- ===== src/Verifier.antt =====
-- oink/src/verifier.cpp: the check of a (partial) solution. The log messages are left out.
pub mod Search
pub mod Dominion
use urss.Base.{
  ℕ, zero, suc, ◌+◌, Bool, true, false, not, ◌&&◌, ◌||◌, List, [], ◌∷◌, Option, none, some,
  if◌then◌else◌, ◌==◌, get_or,
}
use urss.Game.{Game, vertexcount, owner_of, outs, has_edge}
use urss.Oink.{same}

-- What `verify` throws.
pub data Complaint : Type 0 where
  not_every_vertex_is_won : Complaint
  winning_vertex_has_no_strategy : Complaint
  strategy_is_not_a_valid_move : Complaint
  strategy_leaves_dominion : Complaint
  loser_can_escape : Complaint
  losing_vertex_has_strategy : Complaint
  loser_can_win : Complaint

pub data Result (A : Type 0) : Type 0 where
  ok : A → Result A
  throws : Complaint → Result A

abbrev pub solved_at : Game → ℕ → Bool
solved_at g v = get_or g.solved v false

abbrev pub winner_at : Game → ℕ → Bool
winner_at g v = get_or g.winner v false

abbrev pub strategy_at : Game → ℕ → Option ℕ
strategy_at g v = get_or g.strategy v none

-- game->solved[to] and game->winner[to] == winner
abbrev pub stays : Game → Bool → ℕ → Bool
stays g winner to = solved_at g to && same (winner_at g to) winner

-- The loop over the edges of a vertex of the loser.
unfoldable pub all_stay : Game → Bool → List ℕ → Bool
all_stay g winner [] = true
all_stay g winner (to ∷ ts) = stays g winner to && all_stay g winner ts

-- The checks of a vertex that is solved and looked at; the result is what is added to
-- `n_strategies`.
unfoldable pub check_winning : Game → ℕ → Bool → Result ℕ
check_winning g i winner = elim (strategy_at g i) [
  | none ↦ throws winning_vertex_has_no_strategy
  | some str ↦
      if not (has_edge g i str)
      then throws strategy_is_not_a_valid_move
      else if not (stays g winner str)
      then throws strategy_leaves_dominion
      else ok 1
]

unfoldable pub check_losing : Game → ℕ → Bool → Result ℕ
check_losing g i winner =
    if not (all_stay g winner (outs g i))
    then throws loser_can_escape
    else elim (strategy_at g i) [ none ↦ ok 0 | some str ↦ throws losing_vertex_has_strategy ]

-- `if (winner == 0 and !even) continue; if (winner == 1 and !odd) continue;`
abbrev pub looked_at : Bool → Bool → Bool → Bool
looked_at even odd winner = if winner then odd else even

unfoldable pub check_vertex : Game → Bool → Bool → Bool → ℕ → Result ℕ
check_vertex g fullgame even odd i =
    let winner = winner_at g i in
    if not (solved_at g i)
    then if fullgame then throws not_every_vertex_is_won else ok 0
    else if not (looked_at even odd winner)
    then ok 0
    else if same winner (owner_of g i)
    then check_winning g i winner
    else check_losing g i winner

-- The first loop, for the vertices i, i + 1, ..., n of them, with `n_strategies`.
unfoldable pub check_vertices : Game → Bool → Bool → Bool → ℕ → ℕ → ℕ → Result ℕ
check_vertices g fullgame even odd zero i n_strategies = ok n_strategies
check_vertices g fullgame even odd (suc n) i n_strategies =
    elim (check_vertex g fullgame even odd i) [
      | throws e ↦ throws e
      | ok more ↦ check_vertices g fullgame even odd n (suc i) (n_strategies + more)
    ]
