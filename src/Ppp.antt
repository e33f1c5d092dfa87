-- ===== src/Ppp.antt =====
-- oink/src/ppp.cpp: the solver `PPPSolver`, priority promotion that resets the lower regions of the
-- other parity after a promotion.
pub mod Due
use urss.Base.{
  ℕ, zero, suc, ◌+◌, ◌-◌, Bool, true, false, not, ◌&&◌, ◌||◌, List, [], ◌∷◌, Option, none, some,
  if◌then◌else◌, ◌==◌, ltb, leb, get_or, set,
}
use urss.Game.{priority_of, vertexcount}
use urss.Oink.{Oink, is_odd}
use urss.Solver.{Result, ok, out_of_fuel, of_option, ◌>>=◌}
use urss.Pp.{Pp, members, promote}
use urss.Pp.Setup.{
  Status, opened, dominion, closed_to, is_empty, reset_if_any, setup_region, get_region_status,
}
use urss.Pp.Run.{set_dominion, skip_taken, skip_priority, start}

-- The fields `reset0` and `reset1` may be negative, down to -2: each is kept as its value plus 2.
pub record Ppp : Type 0 where
  pub pp : Pp
  pub reset0 : ℕ
  pub reset1 : ℕ

-- p <= reset0 or p <= reset1, by the parity of p
abbrev pub is_due : Ppp → ℕ → Bool
is_due s p = leb (p + 2) (if is_odd p then s.reset1 else s.reset0)

-- reset0 = p-2 or reset1 = p-2
abbrev pub lower_reset : Ppp → ℕ → Ppp
lower_reset s p = if is_odd p then record s { reset1 = p } else record s { reset0 = p }

-- The region is reset if it is lower than the value: whether it is.
unfoldable pub take_reset : Ppp → ℕ → Ppp × Bool
take_reset s p = if is_due s p then (lower_reset s p, true) else (s, false)

-- After a promotion to `res`.
unfoldable pub raise_reset : Ppp → ℕ → Ppp
raise_reset s res =
    if is_odd res
    then (if ltb s.reset0 (res + 2) then record s { reset0 = res + 1 } else s)
    else (if ltb s.reset1 (res + 2) then record s { reset1 = res + 1 } else s)

-- After a dominion, with the highest priority.
unfoldable pub reset_below : Ppp → ℕ → Ppp
reset_below s top =
    if is_odd top
    then record s { reset0 = top + 1; reset1 = top + 2 }
    else record s { reset0 = top + 2; reset1 = top + 1 }

-- The branch where the vertices of the priority are all taken.
unfoldable pub leave_priority : Ppp → ℕ → Ppp
leave_priority s p =
    if is_empty (members s.pp p) then s else lower_reset (record s { pp = reset_if_any p s.pp }) p

-- while (i >= 0 and priority(i) >= p) i--, with n = i + 1
pub skip_from : ℕ → ℕ → Pp → ℕ
skip_from p zero s = 0
skip_from p (suc i) s = elim (leb p (priority_of s.oink.game i)) [
  | true ↦ skip_from p i s
  | false ↦ suc i
]

module _ (fuel : ℕ) where
  -- The inner loop, with fuel for its rounds: where the outer loop goes on, and the state.
  pub promote_chain : ℕ → ℕ → ℕ → Ppp → Result (ℕ × Ppp)
  promote_chain zero i p s = out_of_fuel
  promote_chain (suc rounds) i p s = get_region_status i p s.pp >>= λ status. elim status [
    | opened ↦ ok (skip_from p (i + 1) s.pp, s)
    | dominion ↦ of_option (set_dominion fuel p s.pp) >>= λ t.
        let n = vertexcount t.oink.game in
        ok (n, reset_below (record s { pp = t }) (priority_of t.oink.game (n - 1)))
    | closed_to r ↦ of_option (promote fuel p r s.pp) >>= λ t.
        promote_chain rounds (get_or t.inverse r 0) r (raise_reset (record s { pp = t }) r)
  ]

  -- A round of the outer loop at the vertex `i` of the priority `p`.
  unfoldable pub visit : ℕ → ℕ → ℕ → Ppp → Result (ℕ × Ppp)
  visit rounds i p s =
      let here = record s { pp = record s.pp { inverse = set s.pp.inverse p i } } in
      let (t, reset) = take_reset here p in
      setup_region fuel i p reset t.pp >>= λ found. elim found.0 [
        | true ↦ promote_chain rounds i p (record t { pp = found.1 })
        | false ↦ ok (skip_priority p (i + 1) found.1, record t { pp = found.1 })
      ]

  -- The outer loop, with n = i + 1 and fuel for its rounds.
  pub run_loop : ℕ → ℕ → Ppp → Result Ppp
  run_loop zero n s = out_of_fuel
  run_loop (suc rounds) zero s = ok s
  run_loop (suc rounds) (suc k) s =
      let p = priority_of s.pp.oink.game k in
      elim (skip_taken p (suc k) s.pp) [
        | zero ↦ ok s
        | suc i ↦ elim (priority_of s.pp.oink.game i == p) [
          | false ↦ run_loop rounds (suc i) (leave_priority s p)
          | true ↦ visit rounds i p s >>= λ t. run_loop rounds t.0 t.1
        ]
      ]

-- run(), with fuel for the loops
unfoldable pub run : ℕ → Oink → Result Ppp
run fuel o =
    run_loop fuel fuel (vertexcount o.game) (record { pp = start o; reset0 = 1; reset1 = 1 })
