-- ===== src/Oink/Loop.antt =====
-- Oink::solveLoop in oink/src/oink.cpp.
use urss.Base.{
  ℕ, zero, suc, Bool, true, false, List, [], ◌∷◌, Option, none, some, if◌then◌else◌, ◌==◌, set,
  replicate, length,
}
use urss.UintQueue
use urss.Game.{game_solved, count_unsolved}
use urss.Oink.{Oink, flush}
use urss.Oink.Scc.{bottom_scc}

-- for (int i : sel) disabled[i] = false
pub enable_all : List ℕ → List Bool → List Bool
enable_all [] disabled = disabled
enable_all (i ∷ sel) disabled = enable_all sel (set disabled i false)

-- The chosen solver is a parameter: its run changes the shared fields. `fuel` bounds the loops of
-- each round; `none` means that it ran out.
module _ (run_solver : Oink → Oink) (full_solver : Bool) (fuel : ℕ) where
  -- disabled = game->solved, getBottomSCC(sel), and the vertices of `sel` enabled
  unfoldable pub select_bottom : Oink → Option Oink
  select_bottom o = elim (bottom_scc fuel o.game o.game.solved false) [
    | none ↦ none
    | some sel ↦
        some (record o { disabled = enable_all sel (replicate (length o.game.solved) true) })
  ]

  unfoldable pub bottom_round : Oink → Option Oink
  bottom_round o = elim (select_bottom o) [ none ↦ none | some p ↦ flush fuel (run_solver p) ]

  -- The loop with `bottomSCC`.
  pub bottom_loop : ℕ → Oink → Option Oink
  bottom_loop zero o = none
  bottom_loop (suc rounds) o = elim (bottom_round o) [
    | none ↦ none
    | some p ↦ elim (game_solved p.game) [ true ↦ some p | false ↦ bottom_loop rounds p ]
  ]

  -- The loop without it.
  pub plain_loop : ℕ → Oink → Option Oink
  plain_loop zero o = none
  plain_loop (suc rounds) o =
      let p = run_solver (record o { disabled = o.game.solved }) in
      elim full_solver [
        | true ↦ some (record p { todo = UintQueue.clear p.todo })
        | false ↦ elim (flush fuel p) [
          | none ↦ none
          | some q ↦ elim (count_unsolved q.game == 0) [
            | true ↦ some q
            | false ↦ plain_loop rounds q
          ]
        ]
      ]

  unfoldable pub solve_loop : Bool → ℕ → Oink → Option Oink
  solve_loop bottom_only rounds o =
      if bottom_only then bottom_loop rounds o else plain_loop rounds o
