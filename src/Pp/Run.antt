-- ===== src/Pp/Run.antt =====
-- The loops of `PPSolver::run`: oink/src/pp.cpp. What it logs is left out.
use urss.Base.{
  ℕ, zero, suc, ◌+◌, ◌-◌, Bool, true, false, ◌&&◌, ◌||◌, List, [], ◌∷◌, Option, none, some,
  if◌then◌else◌, ◌==◌, get_or, set, replicate,
}
use urss.UintQueue
use urss.Game.{owner_of, priority_of, vertexcount}
use urss.Oink.{Oink, solve, flush, same, is_odd, is_disabled}
use urss.Solver.{Result, ok, out_of_fuel, of_option, ◌>>=◌}
use urss.Pp.{Pp, region_of, strategy_of, members, is_above, promote}
use urss.Pp.Setup.{opened, dominion, closed_to, reset_if_any, setup_region, get_region_status}

-- The loop of `setDominion`.
pub solve_members : Bool → Pp → List ℕ → Oink → Oink
solve_members pl s [] o = o
solve_members pl s (i ∷ is) o =
    solve_members pl s is
      (solve o i pl (if same (owner_of o.game i) pl then strategy_of s i else none))

-- setDominion(p)
unfoldable pub set_dominion : ℕ → ℕ → Pp → Option Pp
set_dominion fuel p s = elim (flush fuel (solve_members (is_odd p) s (members s p) s.oink)) [
  | none ↦ none
  | some o ↦ some (record s { oink = o })
]

-- while (i >= 0 and priority(i) == p and (disabled[i] or region[i] > p)) i--, with n = i + 1
pub skip_taken : ℕ → ℕ → Pp → ℕ
skip_taken p zero s = 0
skip_taken p (suc i) s =
    elim (priority_of s.oink.game i == p && (is_disabled s.oink i || is_above p (region_of s i))) [
      | true ↦ skip_taken p i s
      | false ↦ suc i
    ]

-- while (i >= 0 and priority(i) == p) i--
pub skip_priority : ℕ → ℕ → Pp → ℕ
skip_priority p zero s = 0
skip_priority p (suc i) s = elim (priority_of s.oink.game i == p) [
  | true ↦ skip_priority p i s
  | false ↦ suc i
]

module _ (fuel : ℕ) where
  -- The inner loop, with fuel for its rounds: where the outer loop goes on, and the state.
  pub promote_chain : ℕ → ℕ → ℕ → Pp → Result (ℕ × Pp)
  promote_chain zero i p s = out_of_fuel
  promote_chain (suc rounds) i p s = get_region_status i p s >>= λ status. elim status [
    | opened ↦ ok (skip_priority p (i + 1) s, s)
    | dominion ↦ of_option (set_dominion fuel p s) >>= λ t. ok (vertexcount t.oink.game, t)
    | closed_to r ↦
        of_option (promote fuel p r s) >>= λ t. promote_chain rounds (get_or t.inverse r 0) r t
  ]

  -- A round of the outer loop at the vertex `i` of the priority `p`.
  unfoldable pub visit : ℕ → ℕ → ℕ → Pp → Result (ℕ × Pp)
  visit rounds i p s =
      setup_region fuel i p true (record s { inverse = set s.inverse p i }) >>= λ found.
      elim found.0 [
        | true ↦ promote_chain rounds i p found.1
        | false ↦ ok (skip_priority p (i + 1) found.1, found.1)
      ]

  -- The outer loop, with n = i + 1 and fuel for its rounds.
  pub run_loop : ℕ → ℕ → Pp → Result Pp
  run_loop zero n s = out_of_fuel
  run_loop (suc rounds) zero s = ok s
  run_loop (suc rounds) (suc k) s =
      let p = priority_of s.oink.game k in
      elim (skip_taken p (suc k) s) [
        | zero ↦ ok s
        | suc i ↦ elim (priority_of s.oink.game i == p) [
          | false ↦ run_loop rounds (suc i) (reset_if_any p s)
          | true ↦ visit rounds i p s >>= λ t. run_loop rounds t.0 t.1
        ]
      ]

-- region[i] = disabled[i] ? -2 : priority(i), for the vertices i, i + 1, ..., n of them
pub initial_regions : Oink → ℕ → ℕ → List (Option ℕ)
initial_regions o zero i = []
initial_regions o (suc n) i =
    (if is_disabled o i then none else some (priority_of o.game i)) ∷ initial_regions o n (suc i)

unfoldable pub start : Oink → Pp
start o =
    let n = vertexcount o.game in
    let size = priority_of o.game (n - 1) + 1 in
    record {
      oink = o;
      regions = replicate size [];
      region = initial_regions o n 0;
      strategy = replicate n none;
      inverse = replicate size 0;
      Z = replicate n false;
      q = UintQueue.make n;
      promotions = 0;
    }

-- run(), with fuel for the loops
unfoldable pub run : ℕ → Oink → Result Pp
run fuel o = run_loop fuel fuel (vertexcount o.game) (start o)
