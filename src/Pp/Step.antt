-- ===== src/Pp/Step.antt =====
-- A round of the inner loop of `PPSolver::run`: oink/src/pp.cpp.
use urss.Base.{ℕ, ◌<◌, ◌≤◌, ◌≡◌, ap, ◌∙◌, arith, true, false, some, []}
use urss.UintQueue
use urss.UintQueue.Stack.{capacity}
use urss.Game.{vertexcount}
use urss.Oink.{is_odd}
use urss.Oink.Attract.{IsGraph}
use urss.Oink.Start.{graph_of}
use urss.Solver.{ok}
use urss.Pp.{Pp, region_of, is_at, is_in, promote}
use urss.Pp.Below.{is_in-of}
use urss.Pp.Setup.{Status, opened, dominion, closed_to, get_region_status}
use urss.Pp.Region.{IsRegion}
use urss.Pp.Maximal.{IsMaximal}
use urss.Pp.Gate.{IsGate, Says, says_opened, says_dominion, says_closed, Moves, Exit, IsTop}
use urss.Pp.Status.{get_region_status_lem}
use urss.Pp.Promote.{promote-IsMaximal}

-- What the round finds: an open region, a dominion, or a promotion that returns, which makes the higher
-- region, of the same parity, a maximal region.
pub data Round (fuel p : ℕ) (s : Pp) : Status → Type 0 where
  stays_open : (v : ℕ) → IsGate p s v → Round fuel p s opened
  wins : Moves p s → ((v to : ℕ) → Exit p s v to → is_in p s to ≡ true) → Round fuel p s dominion
  promotes :
      (r : ℕ) (t : Pp)
      → p < r
      → promote fuel p r s ≡ some t
      → UintQueue.nonempty t.q ≡ false
      → is_odd p ≡ is_odd r
      → IsRegion r t
      → IsMaximal r t
      → Round fuel p s (closed_to r)

-- Let the regions above `p` that have a vertex be maximal regions, and `p` a region with the top vertex
-- `i`, with an empty queue that has room for the vertices, and fuel for them. Then getRegionStatus returns
-- without LOGIC_ERROR. The region is open, with a vertex of its priority for which the player has no move
-- or from which the opponent has an edge to a lower vertex that is not disabled; or it is a dominion, in
-- which the player moves inside and which the opponent cannot leave; or promote returns for the region
-- to promote to, which is higher, has the same parity and becomes a maximal region.
pub get_region_status-promote :
    (fuel i p : ℕ) (s : Pp)
    → IsGraph (graph_of s.oink.game [])
    → IsRegion p s
    → IsTop i p s
    → ((r v : ℕ) → p < r → is_in r s v ≡ true → IsRegion r s × IsMaximal r s)
    → UintQueue.empty s.q ≡ true
    → capacity s.q ≡ vertexcount s.oink.game
    → vertexcount s.oink.game ≤ fuel
    → (st : Status) × (get_region_status i p s ≡ ok st) × Round fuel p s st
get_region_status-promote fuel i p s graph low top above empty room enough =
    let (st, a, b) = get_region_status_lem i p s low top in (st, a, round st b)
  where
    round : (st : Status) → Says p s st → Round fuel p s st
    round opened (says_opened v gate) = stays_open v gate
    round dominion (says_dominion moves closed) = wins moves closed
    round (closed_to k) (says_closed r v to less moves exits x e) =
        let here : is_at r (region_of s to) ≡ true = ap (is_at r) e ∙ ground arith in
        let inside : is_in r s to ≡ true = is_in-of r s to here x.free in
        let (high, maximal) = above r to less inside in
        let (t, b, c, d, f, g) =
          promote-IsMaximal fuel p r s v to graph low high maximal less moves exits x inside empty
            room enough in
        promotes r t less b c d f g
