-- ===== src/Pp.antt =====
-- oink/src/pp.cpp: the solver `PPSolver`, priority promotion: its regions, and how they grow.
pub mod Below
pub mod Region
pub mod Grow
pub mod Attract
pub mod Rounds
pub mod Drain
pub mod Enter
pub mod Maximal
pub mod Lowest
pub mod Escape
pub mod Raise
pub mod Parity
pub mod Promote
pub mod Setup
pub mod Reset
pub mod Adding
pub mod Escapes
pub mod Clean
pub mod Ready
pub mod Gate
pub mod Status
pub mod Step
pub mod Run
use urss.Base.{
  ℕ, zero, suc, ◌+◌, ◌-◌, ◌%◌, Bool, true, false, not, ◌&&◌, ◌||◌, List, [], ◌∷◌, ◌++◌, Option,
  none, some, if◌then◌else◌, ◌==◌, ltb, leb, get_or, set, length, replicate,
}
use urss.UintQueue
use urss.UintQueue.{UintQueue}
use urss.Game.{Game, owner_of, priority_of, outs, vertexcount}
use urss.Game.Ins.{ins}
use urss.Oink.{Oink, same, is_odd, is_disabled}

-- The state of the solver. An entry of `region` is `none` for -2, and one of `strategy` for -1; the
-- bitset `Z` is the list of its bits.
pub record Pp : Type 0 where
  pub oink : Oink
  pub regions : List (List ℕ)
  pub region : List (Option ℕ)
  pub strategy : List (Option ℕ)
  pub inverse : List ℕ
  pub Z : List Bool
  pub q : UintQueue
  pub promotions : ℕ

abbrev pub region_of : Pp → ℕ → Option ℕ
region_of s v = get_or s.region v none

abbrev pub strategy_of : Pp → ℕ → Option ℕ
strategy_of s v = get_or s.strategy v none

abbrev pub members : Pp → ℕ → List ℕ
members s p = get_or s.regions p []

-- region[v] > p
abbrev pub is_above : ℕ → Option ℕ → Bool
is_above p none = false
is_above p (some r) = ltb p r

-- region[v] < p
abbrev pub is_below : ℕ → Option ℕ → Bool
is_below p none = true
is_below p (some r) = ltb r p

-- region[v] == p
abbrev pub is_at : ℕ → Option ℕ → Bool
is_at p none = false
is_at p (some r) = r == p

-- A vertex of the region that is not disabled.
abbrev pub is_in : ℕ → Pp → ℕ → Bool
is_in p s v = is_at p (region_of s v) && not (is_disabled s.oink v)

abbrev pub is_none : Option ℕ → Bool
is_none none = true
is_none (some k) = false

unfoldable pub push_all : UintQueue → List ℕ → UintQueue
push_all q [] = q
push_all q (v ∷ vs) = push_all (UintQueue.push q v) vs

-- The loop over the successors that looks for one in a lower region.
unfoldable pub can_escape : Pp → ℕ → List ℕ → Bool
can_escape s prio [] = false
can_escape s prio (to ∷ ts) =
    (not (is_disabled s.oink to) && is_below prio (region_of s to)) || can_escape s prio ts

-- rv.push_back(v); region[v] = prio; strategy[v] = str; Q.push(v)
unfoldable pub take_vertex : Pp → ℕ → ℕ → Option ℕ → Pp
take_vertex s prio v str = record s {
  regions = set s.regions prio (members s prio ++ v ∷ []);
  region = set s.region v (some prio);
  strategy = set s.strategy v str;
  q = UintQueue.push s.q v;
}

-- The body of the loop of `attract` over the predecessors of `cur`.
unfoldable pub attract_from : ℕ → ℕ → Pp → ℕ → Pp
attract_from prio cur s from =
    let g = s.oink.game in
    let mine = same (owner_of g from) (is_odd prio) in
    if is_disabled s.oink from || is_above prio (region_of s from)
    then s
    else if is_at prio (region_of s from)
    then (if mine && is_none (strategy_of s from)
        then record s { strategy = set s.strategy from (some cur) }
        else s)
    else if mine
    then take_vertex s prio from (some cur)
    else if can_escape s prio (outs g from)
    then s
    else take_vertex s prio from none

unfoldable pub attract_to : ℕ → ℕ → Pp → List ℕ → Pp
attract_to prio cur s [] = s
attract_to prio cur s (from ∷ rest) = attract_to prio cur (attract_from prio cur s from) rest

-- A round of while (Q.nonempty())
unfoldable pub attract_round : ℕ → Pp → Pp
attract_round prio s =
    let (cur, rest) = UintQueue.pop s.q in
    attract_to prio cur (record s { q = rest }) (ins s.oink.game cur)

-- The loop, with fuel.
unfoldable pub attract_loop : ℕ → ℕ → Pp → Option Pp
attract_loop zero prio s = if UintQueue.nonempty s.q then none else some s
attract_loop (suc fuel) prio s =
    let rest = attract_loop fuel prio (attract_round prio s) in
    if UintQueue.nonempty s.q then rest else some s

-- attract(prio)
unfoldable pub attract : ℕ → ℕ → Pp → Option Pp
attract fuel prio s =
    let filled = record s { q = push_all s.q (members s prio) } in
    attract_loop fuel prio (if UintQueue.empty s.q then filled else s)

-- The loop of `promote` over the vertices of the lower region.
unfoldable pub promote_all : ℕ → Pp → List ℕ → Pp
promote_all to s [] = s
promote_all to s (i ∷ is) =
    promote_all to (record s { region = set s.region i (some to); q = UintQueue.push s.q i }) is

-- regions[to].insert(...); regions[from].clear()
unfoldable pub merge_regions : ℕ → ℕ → Pp → Pp
merge_regions from to s = record s {
  regions = set (set s.regions to (members s to ++ members s from)) from [];
}

-- promotions++
unfoldable pub count_promotion : Option Pp → Option Pp
count_promotion none = none
count_promotion (some t) = some (record t { promotions = t.promotions + 1 })

-- promote(from, to)
unfoldable pub promote : ℕ → ℕ → ℕ → Pp → Option Pp
promote fuel from to s =
    count_promotion (attract fuel to (merge_regions from to (promote_all to s (members s from))))

-- The loop of `resetRegion` over the vertices of the region.
unfoldable pub reset_vertex : ℕ → Pp → ℕ → Pp
reset_vertex p s j =
    if is_disabled s.oink j
    then record s { region = set s.region j none }
    else if is_at p (region_of s j)
    then record s {
      region = set s.region j (some (priority_of s.oink.game j));
      strategy = set s.strategy j none;
    }
    else s

unfoldable pub reset_all : ℕ → Pp → List ℕ → Pp
reset_all p s [] = s
reset_all p s (j ∷ js) = reset_all p (reset_vertex p s j) js

-- resetRegion(p)
unfoldable pub reset_region : ℕ → Pp → Pp
reset_region p s = let t = reset_all p s (members s p) in record t { regions = set t.regions p [] }
