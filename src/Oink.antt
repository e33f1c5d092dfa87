-- ===== src/Oink.antt =====
-- The class `Oink`: oink/src/oink.hpp, oink/src/oink.cpp and oink/src/scc.cpp.
pub mod Scc
pub mod Attract
pub mod Counted
pub mod Steps
pub mod Round
pub mod Flush
pub mod Ready
pub mod Start
pub mod Selfloops
pub mod Loops
pub mod Looped
pub mod Sweep
pub mod Swept
pub mod SingleParity
pub mod Loop
use urss.Base.{
  ℕ, zero, suc, ◌+◌, ◌-◌, ◌*◌, ◌%◌, ◌^◌, Bool, true, false, not, ◌&&◌, ◌||◌, List, [], ◌∷◌, Option,
  none, some, if◌then◌else◌, ◌==◌, get_or, set, replicate, length,
}
use urss.UintQueue
use urss.UintQueue.{UintQueue}
use urss.Game.{
  Game, vertexcount, owner_of, priority_of, outs, has_edge, game_solved, count_unsolved,
}
use urss.Game
use urss.Game.Ins.{ins}

-- The fields that the preprocessing and the solvers share. `outcount` is an array of `int`, by
-- their 32-bit patterns.
pub record Oink : Type 0 where
  pub game : Game
  pub todo : UintQueue
  pub outcount : List ℕ
  pub disabled : List Bool

abbrev pub is_disabled : Oink → ℕ → Bool
is_disabled o v = get_or o.disabled v false

abbrev pub is_solved : Oink → ℕ → Bool
is_solved o v = get_or o.game.solved v false

abbrev pub winner_of : Oink → ℕ → Bool
winner_of o v = get_or o.game.winner v false

-- A Boolean test of two `bool`s.
abbrev pub same : Bool → Bool → Bool
same true b = b
same false b = not b

abbrev pub int_mod : ℕ
int_mod = 2 ^ 32

-- void Oink::solve(int node, int win, int strategy)
unfoldable pub solve : Oink → ℕ → Bool → Option ℕ → Oink
solve o node win strategy =
    let g = o.game in
    record o {
      game = record g {
        solved = set g.solved node true;
        winner = set g.winner node win;
        strategy = set g.strategy node (if same win (owner_of g node) then strategy else none);
      };
      disabled = set o.disabled node true;
      todo = UintQueue.push o.todo node;
    }

-- The body of the inner loop of `flush`, for one predecessor of a vertex `v` won by `winner`.
unfoldable pub attract_one : Oink → ℕ → Bool → ℕ → Oink
attract_one o v winner from =
    let count = (get_or o.outcount from 0 + int_mod - 1) % int_mod in
    let counted = record o { outcount = set o.outcount from count } in
    if is_solved o from || is_disabled o from
    then o
    else if same (owner_of o.game from) winner
    then solve o from winner (some v)
    else if count == 0
    then solve counted from winner none
    else counted

unfoldable pub attract_all : Oink → ℕ → Bool → List ℕ → Oink
attract_all o v winner [] = o
attract_all o v winner (from ∷ rest) = attract_all (attract_one o v winner from) v winner rest

-- One round of the loop of `flush`, after the test.
unfoldable pub flush_round : Oink → Oink
flush_round o =
    let (v, rest) = UintQueue.pop o.todo in
    attract_all (record o { todo = rest }) v (winner_of o v) (ins o.game v)

-- void Oink::flush(), with fuel; `none` means that the fuel ran out.
unfoldable pub flush : ℕ → Oink → Option Oink
flush zero o = if UintQueue.nonempty o.todo then none else some o
flush (suc fuel) o =
    let rest = flush fuel (flush_round o) in if UintQueue.nonempty o.todo then rest else some o

-- The number of successors that are not disabled.
unfoldable pub enabled_count : List Bool → List ℕ → ℕ
enabled_count disabled [] = 0
enabled_count disabled (to ∷ ts) =
    (if get_or disabled to false then 0 else 1) + enabled_count disabled ts

unfoldable pub enabled_counts : Game → List Bool → ℕ → ℕ → List ℕ
enabled_counts g disabled zero i = []
enabled_counts g disabled (suc n) i =
    enabled_count disabled (outs g i) ∷ enabled_counts g disabled n (suc i)

-- Oink(Game &game, std::ostream &out), for a game that `ensure_sorted` and `build_in_array` have
-- been called on; `disabled` was copied from `game.solved` before them.
unfoldable pub make : Game → List Bool → Oink
make g disabled = record {
  game = g;
  todo = UintQueue.make (vertexcount g);
  outcount = enabled_counts g disabled (vertexcount g) 0;
  disabled = disabled;
}

-- int & 1 == 1
abbrev pub is_odd : ℕ → Bool
is_odd p = p % 2 == 1

-- The loop of `solveSelfloops` over the vertices v, v + 1, ..., n of them, with the count `res`.
unfoldable pub selfloop_one : Oink → ℕ → Oink × ℕ
selfloop_one o v =
    let g = o.game in
    if is_disabled o v
    then (o, 0)
    else if not (has_edge g v v)
    then (o, 0)
    else if same (owner_of g v) (is_odd (priority_of g v))
    then (solve o v (owner_of g v) (some v), 1)
    else if get_or g.outcount v 0 == 1
    then (solve o v (not (owner_of g v)) none, 1)
    else (o, 0)

pub selfloops_from : ℕ → ℕ → Oink → ℕ → Oink × ℕ
selfloops_from zero v o res = (o, res)
selfloops_from (suc n) v o res =
    let (p, more) = selfloop_one o v in selfloops_from n (suc v) p (res + more)

unfoldable pub solve_selfloops : ℕ → Oink → Option (Oink × ℕ)
solve_selfloops fuel o =
    let (p, res) = selfloops_from (vertexcount o.game) 0 o 0 in
    if res == 0 then some (p, res) else elim (flush fuel p) [ none ↦ none | some q ↦ some (q, res) ]

-- What the first loop of `solveSingleParity` finds: nothing yet (-1), one parity, or both.
pub data Parities : Type 0 where
  unknown : Parities
  single : Bool → Parities
  mixed : Parities

unfoldable pub parities_from : Oink → ℕ → ℕ → Parities → Parities
parities_from o zero v seen = seen
parities_from o (suc n) v mixed = mixed
parities_from o (suc n) v unknown =
    parities_from o n (suc v)
      (if is_disabled o v then unknown else single (is_odd (priority_of o.game v)))
parities_from o (suc n) v (single p) = parities_from o n (suc v) (
    if is_disabled o v
    then single p
    else if same p (is_odd (priority_of o.game v))
    then single p
    else mixed)

-- The first successor that is not disabled.
pub first_enabled : List Bool → List ℕ → Option ℕ
first_enabled disabled [] = none
first_enabled disabled (to ∷ ts) =
    if get_or disabled to false then first_enabled disabled ts else some to

unfoldable pub single_one : Oink → Bool → ℕ → Oink
single_one o parity v =
    let choice = first_enabled o.disabled (outs o.game v) in
    if is_disabled o v
    then o
    else if same (owner_of o.game v) parity
    then elim choice [ none ↦ o | some to ↦ solve o v parity (some to) ]
    else solve o v parity none

pub single_from : ℕ → ℕ → Bool → Oink → Oink
single_from zero v parity o = o
single_from (suc n) v parity o = single_from n (suc v) parity (single_one o parity v)

unfoldable pub solve_single_parity : ℕ → Oink → Option (Oink × Bool)
solve_single_parity fuel o = elim (parities_from o (vertexcount o.game) 0 unknown) [
  | single parity ↦ elim (flush fuel (single_from (vertexcount o.game) 0 parity o)) [
    | none ↦ none
    | some q ↦ some (q, true)
  ]
  | _ ↦ some (o, false)
]

-- for (int v=0; ...; v++) todo.push(v), for the vertices v, v + 1, ..., n of them
pub push_all : ℕ → ℕ → UintQueue → UintQueue
push_all zero v q = q
push_all (suc n) v q = push_all n (suc v) (UintQueue.push q v)

unfoldable pub any_true : List Bool → Bool
any_true [] = false
any_true (b ∷ bs) = b || any_true bs

-- How `run` deals with partial solutions.
unfoldable pub flush_partial : ℕ → Oink → Option Oink
flush_partial fuel o =
    if any_true o.game.solved
    then flush fuel (record o { todo = push_all (vertexcount o.game) 0 o.todo })
    else some o
