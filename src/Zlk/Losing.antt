-- ===== src/Zlk/Losing.antt =====
-- `attractLosing` of oink/src/zlk.cpp.
use urss.Base.{
  ℕ, zero, suc, ◌+◌, Bool, true, false, not, ◌&&◌, ◌||◌, List, [], ◌∷◌, ◌++◌, Option, none, some,
  if◌then◌else◌, set,
}
use urss.UintQueue
use urss.UintQueue.{UintQueue}
use urss.Game.{Game, owner_of, outs}
use urss.Game.Ins.{ins}
use urss.Oink.{same}
use urss.Zlk.{Zlk, level, is_within, region_of, winning_of, take_vertex}

-- winning[v] == pl
abbrev pub won_by : Bool → Option Bool → Bool
won_by pl none = false
won_by pl (some w) = same w pl

-- The first successor in the subgame that is won by `pl`, or that is not.
pub find_successor : Zlk → ℕ → Bool → Bool → List ℕ → Option ℕ
find_successor z r pl wanted [] = none
find_successor z r pl wanted (to ∷ ts) =
    let rest = find_successor z r pl wanted ts in
    if is_within r (region_of z to) && same (won_by pl (winning_of z to)) wanted
    then some to
    else rest

module _ (g : Game) (r : ℕ) (pl : Bool) where
  -- The first loop: a vertex of the region that is attracted to the other player is pushed.
  unfoldable pub push_attracted : Zlk → ℕ → Zlk
  push_attracted z v =
      if same (owner_of g v) pl
      then elim (find_successor z r pl true (outs g v)) [
        | some to ↦ z
        | none ↦ record z { strategy = set z.strategy v none; q = UintQueue.push z.q v }
      ]
      else elim (find_successor z r pl false (outs g v)) [
        | some to ↦ record z { strategy = set z.strategy v (some to); q = UintQueue.push z.q v }
        | none ↦ z
      ]

  pub push_all_attracted : Zlk → List ℕ → Zlk
  push_all_attracted z [] = z
  push_all_attracted z (v ∷ vs) = push_all_attracted (push_attracted z v) vs

  -- The loop over the predecessors of `cur`.
  unfoldable pub lose_from : ℕ → Zlk → ℕ → Zlk
  lose_from cur z from =
      if not (is_within r (region_of z from)) || not (won_by pl (winning_of z from))
      then z
      else if not (same (owner_of g from) pl)
      then take_vertex z from r (not pl) (some cur)
      else elim (find_successor z r pl true (outs g from)) [
        | some to ↦ z
        | none ↦ take_vertex z from r (not pl) none
      ]

  pub lose_to : ℕ → Zlk → List ℕ → Zlk
  lose_to cur z [] = z
  lose_to cur z (from ∷ rest) = lose_to cur (lose_from cur z from) rest

  -- while (!Q.empty()), with fuel; it appends to `R` and counts.
  pub lose_queue : ℕ → Zlk → List ℕ → ℕ → Option (Zlk × (List ℕ × ℕ))
  lose_queue zero z R count = if UintQueue.nonempty z.q then none else some (z, (R, count))
  lose_queue (suc fuel) z R count =
      let (cur, left) = UintQueue.pop z.q in
      let marked = record z {
        q = left;
        region = set z.region cur (level r);
        winning = set z.winning cur (some (not pl));
      } in
      let rest = lose_queue fuel (lose_to cur marked (ins g cur)) (R ++ cur ∷ []) (count + 1) in
      if UintQueue.nonempty z.q then rest else some (z, (R, count))

  -- attractLosing(i, r, S, R), for the parity `pl` of the priority of i
  unfoldable pub attract_losing : ℕ → Zlk → List ℕ → List ℕ → Option (Zlk × (List ℕ × ℕ))
  attract_losing fuel z S R = lose_queue fuel (push_all_attracted z S) R 0
