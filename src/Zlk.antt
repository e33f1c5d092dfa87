-- ===== src/Zlk.antt =====
-- oink/src/zlk.cpp: the solver `ZLKSolver`, run sequentially.
pub mod Ext
pub mod First
pub mod Heads
pub mod Losing
pub mod Reached
pub mod Matches
pub mod Moved
pub mod Queue
pub mod Step
pub mod Between
pub mod Count
pub mod Take
pub mod Run
use urss.Base.{
  ℕ, zero, suc, ◌+◌, ◌%◌, Bool, true, false, not, ◌&&◌, ◌||◌, List, [], ◌∷◌, ◌++◌, Option, none,
  some, if◌then◌else◌, ◌==◌, ltb, leb, get_or, set,
}
use urss.UintQueue
use urss.UintQueue.{UintQueue}
use urss.Game.{Game, owner_of, priority_of, outs}
use urss.Game.Ins.{ins}
use urss.Oink.{same, is_odd}

-- The values of `region`: DIS, BOT, the level of the recursion that took the vertex, and for a vertex
-- of the loser the number of moves that it has left, less one: `waiting k` is the number -(k + 1).
pub data Region : Type 0 where
  dis bot : Region
  level : ℕ → Region
  waiting : ℕ → Region

-- The arrays of the solver. An entry of `winning` is `none` for -1.
pub record Zlk : Type 0 where
  pub region : List Region
  pub winning : List (Option Bool)
  pub strategy : List (Option ℕ)
  pub q : UintQueue

abbrev pub region_of : Zlk → ℕ → Region
region_of z v = get_or z.region v dis

abbrev pub winning_of : Zlk → ℕ → Option Bool
winning_of z v = get_or z.winning v none

abbrev pub strategy_of : Zlk → ℕ → Option ℕ
strategy_of z v = get_or z.strategy v none

-- region[v] == DIS or region[v] >= 0
abbrev pub is_taken : Region → Bool
is_taken dis = true
is_taken bot = false
is_taken (level k) = true
is_taken (waiting k) = false

-- region[v] >= r
abbrev pub is_within : ℕ → Region → Bool
is_within r dis = false
is_within r bot = false
is_within r (level k) = leb r k
is_within r (waiting k) = false

-- A successor that counts: it is not disabled, nor in a region below `r`.
abbrev pub counts : ℕ → Region → Bool
counts r dis = false
counts r bot = true
counts r (level k) = leb r k
counts r (waiting k) = true

-- region[v] = r; winning[v] = pl; strategy[v] = str; Q.push(v)
unfoldable pub take_vertex : Zlk → ℕ → ℕ → Bool → Option ℕ → Zlk
take_vertex z v r pl str = record {
  region = set z.region v (level r);
  winning = set z.winning v (some pl);
  strategy = set z.strategy v str;
  q = UintQueue.push z.q v;
}

pub count_open : Zlk → ℕ → List ℕ → ℕ
count_open z r [] = 0
count_open z r (to ∷ ts) = (if counts r (region_of z to) then 1 else 0) + count_open z r ts

-- The number `1 - open`, as a value of `region`.
abbrev pub one_less : ℕ → Region
one_less zero = level 1
one_less (suc zero) = level 0
one_less (suc (suc k)) = waiting k

-- The new `count` of a vertex of the loser.
abbrev pub next_count : Region → ℕ → Region
next_count (waiting zero) fresh = level 0
next_count (waiting (suc k)) fresh = waiting k
next_count other fresh = one_less fresh

-- count == 0
abbrev pub is_zero : Region → Bool
is_zero (level zero) = true
is_zero other = false

-- What `attractExt` returns: the first vertex that is not a target, or `none` for -1.
pub record Attracted : Type 0 where
  pub next : Option ℕ
  pub arrays : Zlk
  pub region : List ℕ

module _ (g : Game) where
  -- The loop over the predecessors of `cur` in `attractExt`.
  unfoldable pub attract_from : ℕ → ℕ → Bool → ℕ → Zlk → ℕ → Zlk
  attract_from i r pl cur z from =
      let count = next_count (region_of z from) (count_open z r (outs g from)) in
      if leb i from || is_taken (region_of z from)
      then z
      else if same (owner_of g from) pl
      then take_vertex z from r pl (some cur)
      else if is_zero count
      then take_vertex z from r pl none
      else record z { region = set z.region from count }

  pub attract_to : ℕ → ℕ → Bool → ℕ → Zlk → List ℕ → Zlk
  attract_to i r pl cur z [] = z
  attract_to i r pl cur z (from ∷ rest) =
      attract_to i r pl cur (attract_from i r pl cur z from) rest

  -- A round of `while (!Q.empty())`.
  unfoldable pub attract_round : ℕ → ℕ → Bool → Zlk → ℕ × Zlk
  attract_round i r pl z =
      let (cur, rest) = UintQueue.pop z.q in
      (cur, attract_to i r pl cur (record z { q = rest }) (ins g cur))

  -- The loop, with fuel; it appends to `A`.
  unfoldable pub attract_queue : ℕ → ℕ → ℕ → Bool → Zlk → List ℕ → Option (Zlk × List ℕ)
  attract_queue zero i r pl z A = if UintQueue.nonempty z.q then none else some (z, A)
  attract_queue (suc fuel) i r pl z A =
      let (cur, next) = attract_round i r pl z in
      let rest = attract_queue fuel i r pl next (A ++ cur ∷ []) in
      if UintQueue.nonempty z.q then rest else some (z, A)

  -- attractExt(i, r, A) with n = i + 1, where `pr` is the priority of the first vertex
  unfoldable pub attract_heads : Bool → ℕ → ℕ → ℕ → ℕ → Zlk → List ℕ → Option Attracted
  attract_heads to_inversion fuel pr r zero z A =
      some (record { next = none; arrays = z; region = A })
  attract_heads to_inversion fuel pr r (suc i) z A = elim (is_taken (region_of z i)) [
    | true ↦ attract_heads to_inversion fuel pr r i z A
    | false ↦
        elim ((not to_inversion && not (priority_of g i == pr))
          || not (same (is_odd (priority_of g i)) (is_odd pr))) [
            | true ↦ some (record { next = some i; arrays = z; region = A })
            | false ↦
                elim (attract_queue fuel i r (is_odd pr) (take_vertex z i r (is_odd pr) none) A) [
                  | none ↦ none
                  | some (y, B) ↦ attract_heads to_inversion fuel pr r i y B
                ]
          ]
  ]

  unfoldable pub attract_ext : Bool → ℕ → ℕ → ℕ → Zlk → List ℕ → Option Attracted
  attract_ext to_inversion fuel i r z A =
      attract_heads to_inversion fuel (priority_of g i) r (i + 1) z A
