-- ===== src/Zlk/Run.antt =====
-- `ZLKSolver::run` of oink/src/zlk.cpp. What it prints, and the character that it waits for in each
-- round, are left out, and so are the checks of a build for debugging.
use urss.Base.{
  ℕ, zero, suc, ◌+◌, Bool, true, false, not, ◌&&◌, ◌||◌, List, [], ◌∷◌, ◌++◌, Option, none, some,
  if◌then◌else◌, ◌==◌, ltb, get_or, set, replicate,
}
use urss.UintQueue
use urss.Game.{Game, owner_of, priority_of, outs, vertexcount}
use urss.Oink.{Oink, solve, same, is_odd}
use urss.Zlk.{Zlk, Region, dis, bot, region_of, winning_of, strategy_of, attract_ext}
use urss.Zlk.Losing.{won_by, find_successor, attract_losing}

pub data Phase : Type 0 where
  first second third : Phase

-- A frame of `history` with its level.
pub record Frame : Type 0 where
  pub vertex : ℕ
  pub depth : ℕ
  pub phase : Phase
  pub region : List ℕ

-- `stack` is `history` and `levels`, with the top first.
pub record Run : Type 0 where
  pub arrays : Zlk
  pub even_won : List ℕ
  pub odd_won : List ℕ
  pub stack : List Frame
  pub next_r : ℕ
  pub iterations : ℕ

-- The end of the loop, an error that is thrown, or the fuel has run out.
pub data Result {ℓ} (A : Type ℓ) : Type ℓ where
  ok : A → Result A
  logic_error : Result A
  out_of_fuel : Result A

-- W0 or W1
abbrev pub won_list : Run → Bool → List ℕ
won_list s pl = if pl then s.odd_won else s.even_won

abbrev pub set_won : Run → Bool → List ℕ → Run
set_won s pl W = record s {
  even_won = if pl then s.even_won else W;
  odd_won = if pl then W else s.odd_won;
}

abbrev pub is_empty : List ℕ → Bool
is_empty [] = true
is_empty (v ∷ vs) = false

-- A strategy that leads to a vertex won by `pl`.
abbrev pub is_good : Zlk → Bool → Option ℕ → Bool
is_good z pl none = false
is_good z pl (some to) = won_by pl (winning_of z to)

-- The new successors for the vertices of `A` whose strategy does not lead to a won vertex.
pub fix_strategies : Game → ℕ → Bool → Zlk → List ℕ → Result Zlk
fix_strategies g r pl z [] = ok z
fix_strategies g r pl z (v ∷ vs) =
    elim (not (same (owner_of g v) pl) || is_good z pl (strategy_of z v)) [
      | true ↦ fix_strategies g r pl z vs
      | false ↦ elim (find_successor z r pl true (outs g v)) [
        | none ↦ logic_error
        | some to ↦ fix_strategies g r pl (record z { strategy = set z.strategy v (some to) }) vs
      ]
    ]

-- The vertices that `pl` wins are reset; the largest of them and `new_i` is kept.
pub reset_won : Bool → Zlk → Option ℕ → List ℕ → Zlk × Option ℕ
reset_won pl z new_i [] = (z, new_i)
reset_won pl z new_i (v ∷ vs) =
    let larger : Option ℕ = elim new_i [
      | none ↦ some v
      | some i ↦ if ltb i v then some v else some i
    ] in
    elim (won_by pl (winning_of z v)) [
      | true ↦ reset_won pl (record z { region = set z.region v bot }) larger vs
      | false ↦ reset_won pl z new_i vs
    ]

module _ (g : Game) (to_inversion only_recompute_when_attracted : Bool) (fuel : ℕ) where
  -- Phase 0: attract, and go down when something is left.
  unfoldable pub first_phase : Run → Frame → List Frame → Result Run
  first_phase s f below =
      elim (attract_ext g to_inversion fuel f.vertex f.depth s.arrays f.region) [
        | none ↦ out_of_fuel
        | some a ↦
            let top = record f { phase = second; region = a.region } in
            let counted = record s { arrays = a.arrays; iterations = s.iterations + 1 } in
            elim a.next [
              | none ↦ ok (record counted { stack = top ∷ below })
              | some j ↦ ok (record counted {
                stack =
                    record { vertex = j; depth = s.next_r; phase = first; region = [] }
                    ∷ (top ∷ below);
                next_r = s.next_r + 1;
              })
            ]
      ]

  -- Nothing is attracted to the opponent: the region is won by `pl`.
  unfoldable pub keep_region : Run → Frame → List Frame → Bool → Result Run
  keep_region s f below pl = elim (fix_strategies g f.depth pl s.arrays f.region) [
    | ok z ↦ ok (set_won (record s { arrays = z; stack = below }) pl (won_list s pl ++ f.region))
    | logic_error ↦ logic_error
    | out_of_fuel ↦ out_of_fuel
  ]

  -- Something is attracted to the opponent: what `pl` has won is reset and solved again.
  unfoldable pub retry_region : Run → Frame → List Frame → Bool → Run
  retry_region s f below pl =
      let (y, some_i) = reset_won pl s.arrays none f.region in
      let (z, new_i) = reset_won pl y some_i (won_list s pl) in
      elim new_i [
        | none ↦ set_won (record s { arrays = z; stack = below }) pl []
        | some i ↦ record s {
          arrays = z;
          even_won = [];
          odd_won = [];
          stack =
              record { vertex = i; depth = s.next_r; phase = first; region = [] }
              ∷ (record f { phase = third; region = won_list s (not pl) } ∷ below);
          next_r = s.next_r + 1;
        }
      ]

  -- Phase 1: attract what the opponent can take back.
  unfoldable pub second_phase : Run → Frame → List Frame → Result Run
  second_phase s f below =
      let pl = is_odd (priority_of g f.vertex) in
      let theirs = won_list s (not pl) in
      elim (is_empty theirs) [
        | true ↦ keep_region s f below pl
        | false ↦ elim (attract_losing g f.depth pl fuel s.arrays f.region theirs) [
          | none ↦ out_of_fuel
          | some (z, (R, count)) ↦
              let attracted = set_won (record s { arrays = z }) (not pl) R in
              elim (only_recompute_when_attracted && count == 0) [
                | true ↦ keep_region attracted f below pl
                | false ↦ ok (retry_region attracted f below pl)
              ]
        ]
      ]

  -- Phase 2: the region is won by the opponent.
  unfoldable pub third_phase : Run → Frame → List Frame → Run
  third_phase s f below =
      let pl = is_odd (priority_of g f.vertex) in
      set_won (record s { stack = below }) (not pl) (won_list s (not pl) ++ f.region)

  unfoldable pub run_phase : Run → Frame → List Frame → Phase → Result Run
  run_phase s f below first = first_phase s f below
  run_phase s f below second = second_phase s f below
  run_phase s f below third = ok (third_phase s f below)

  -- The loop over the stack, with fuel for its rounds.
  pub run_loop : ℕ → Run → Result Run
  run_loop zero s = out_of_fuel
  run_loop (suc rounds) s = elim s.stack [
    | [] ↦ ok s
    | f ∷ below ↦ elim (run_phase s f below f.phase) [
      | ok t ↦ run_loop rounds t
      | logic_error ↦ logic_error
      | out_of_fuel ↦ out_of_fuel
    ]
  ]

-- The highest vertex below `n` that is not disabled: `inverse[max_prio]`.
unfoldable pub top_vertex : List Bool → ℕ → Option ℕ
top_vertex disabled zero = none
top_vertex disabled (suc n) =
    let below = top_vertex disabled n in if get_or disabled n false then below else some n

unfoldable pub initial_regions : List Bool → List Region
initial_regions [] = []
initial_regions (d ∷ ds) = (if d then dis else bot) ∷ initial_regions ds

unfoldable pub start_arrays : Game → List Bool → Zlk
start_arrays g disabled = record {
  region = initial_regions disabled;
  winning = replicate (vertexcount g) none;
  strategy = replicate (vertexcount g) none;
  q = UintQueue.make (vertexcount g);
}

-- oink->solve(i, winning[i], strategy[i]) for the vertices i, i + 1, ..., n of them
pub solve_vertices : Zlk → ℕ → ℕ → Oink → Oink
solve_vertices z zero i o = o
solve_vertices z (suc n) i o =
    let solved : Oink = elim (winning_of z i) [
      | none ↦ solve o i true none
      | some w ↦ solve o i w (strategy_of z i)
    ] in
    let next : Oink = elim (region_of z i) [ dis ↦ o | _ ↦ solved ] in
    solve_vertices z n (suc i) next

-- run(), with the settings of the solver and fuel for the loops
unfoldable pub run : Bool → Bool → ℕ → Oink → Result Oink
run to_inversion only_recompute_when_attracted fuel o =
    elim (top_vertex o.disabled (vertexcount o.game)) [
      | none ↦ logic_error
      | some i ↦
          elim (run_loop o.game to_inversion only_recompute_when_attracted fuel fuel (record {
            arrays = start_arrays o.game o.disabled;
            even_won = [];
            odd_won = [];
            stack = record { vertex = i; depth = 0; phase = first; region = [] } ∷ [];
            next_r = 1;
            iterations = 0;
          })) [
            | ok s ↦ ok (solve_vertices s.arrays (vertexcount o.game) 0 o)
            | logic_error ↦ logic_error
            | out_of_fuel ↦ out_of_fuel
          ]
    ]
