-- ===== src/Rr.antt =====
-- oink/src/rr.cpp: the solver `RRSolver`, priority promotion that resets a region only if it must.
pub mod Keeps
pub mod Check
use urss.Base.{
  ℕ, zero, suc, ◌+◌, ◌-◌, Bool, true, false, not, ◌&&◌, ◌||◌, List, [], ◌∷◌, Option, none, some,
  if◌then◌else◌, ◌==◌, ltb, get_or, set,
}
use urss.Game.{owner_of, priority_of, outs, vertexcount}
use urss.Oink.{Oink, same, is_odd, is_disabled}
use urss.Solver.{Result, ok, out_of_fuel, ◌>>=◌}
use urss.Pp.{Pp, region_of, strategy_of, members, is_above, is_below, is_at, is_none}
use urss.Pp.Setup.{is_empty, reset_if_any, setup_region}
use urss.Pp.Run.{promote_chain, skip_taken, skip_priority, start}

-- std::remove_if, of the vertices in a higher region
unfoldable pub not_above : ℕ → Pp → List ℕ → List ℕ
not_above p s [] = []
not_above p s (x ∷ xs) =
    let rest = not_above p s xs in if is_above p (region_of s x) then rest else x ∷ rest

-- region[to] != -2 && region[to] < p, for some successor
unfoldable pub falls : ℕ → Pp → List ℕ → Bool
falls p s [] = false
falls p s (to ∷ ts) =
    (not (is_none (region_of s to)) && is_below p (region_of s to)) || falls p s ts

-- strategy[j] != -1 && region[strategy[j]] == p
abbrev pub stays_at : ℕ → Pp → Option ℕ → Bool
stays_at p s none = false
stays_at p s (some to) = is_at p (region_of s to)

-- The body of the loop of `checkRegion`: the state, and whether the loop goes on.
unfoldable pub check_vertex : ℕ → Pp → ℕ → Pp × Bool
check_vertex p s j =
    let g = s.oink.game in
    if is_disabled s.oink j
    then (s, false)
    else if priority_of g j == p
    then (if not (is_none (strategy_of s j)) && not (stays_at p s (strategy_of s j))
        then (record s { strategy = set s.strategy j none }, true)
        else (s, true))
    else if same (owner_of g j) (is_odd p)
    then (s, stays_at p s (strategy_of s j))
    else (s, not (falls p s (outs g j)))

unfoldable pub check_all : ℕ → Pp → List ℕ → Pp × Bool
check_all p s [] = (s, true)
check_all p s (j ∷ js) =
    let (t, good) = check_vertex p s j in elim good [ true ↦ check_all p t js | false ↦ (t, false) ]

-- checkRegion(p)
unfoldable pub check_region : ℕ → Pp → Pp × Bool
check_region p s =
    let kept = not_above p s (members s p) in
    if is_empty (members s p)
    then (s, true)
    else check_all p (record s { regions = set s.regions p kept }) kept

module _ (fuel : ℕ) where
  -- A round of the outer loop at the vertex `i` of the priority `p`.
  unfoldable pub visit : ℕ → ℕ → ℕ → Pp → Result (ℕ × Pp)
  visit rounds i p s =
      let (t, good) = check_region p (record s { inverse = set s.inverse p i }) in
      setup_region fuel i p (not good) t >>= λ found. elim found.0 [
        | true ↦ promote_chain fuel rounds i p found.1
        | false ↦ ok (skip_priority p (i + 1) found.1, found.1)
      ]

  -- The outer loop, with n = i + 1 and fuel for its rounds.
  pub run_loop : ℕ → ℕ → Pp → Result Pp
  run_loop zero n s = out_of_fuel
  run_loop (suc rounds) zero s = ok s
  run_loop (suc rounds) (suc k) s =
      let p = priority_of s.oink.game k in
      elim (skip_taken p (suc k) s) [
        | zero ↦ ok s
        | suc i ↦ elim (priority_of s.oink.game i == p) [
          | false ↦ run_loop rounds (suc i) (reset_if_any p s)
          | true ↦ visit rounds i p s >>= λ t. run_loop rounds t.0 t.1
        ]
      ]

-- run(), with fuel for the loops
unfoldable pub run : ℕ → Oink → Result Pp
run fuel o = run_loop fuel fuel (vertexcount o.game) (start o)
