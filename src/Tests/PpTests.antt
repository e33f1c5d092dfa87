-- ===== src/Tests/PpTests.antt =====
-- The theorems about `PPSolver` at the regions of PpStates.
use urss.Base.{not, ◌≡◌, refl, arith, true, false, some}
use urss.UintQueue
use urss.Game.{outs, vertexcount, until_end}
use urss.Oink.{make, is_odd}
use urss.Solver.{ok}
use urss.Pp.{Pp, members, can_escape, promote}
use urss.Pp.Region.{IsRegion}
use urss.Pp.Maximal.{IsMaximal}
use urss.Pp.Setup.{
  Status, get_region_status, closed_to, any_opening, is_opening, lowest_escape, lowest_successor,
  lower_escape,
}
use urss.Pp.Gate.{Says, IsTop}
use urss.Pp.Status.{get_region_status_lem}
use urss.Pp.Promote.{promote-IsMaximal}
use urss.Pp.Setup.{setup_region, is_empty}
use urss.Pp.Ready.{setup_region-IsMaximal}
use urss.Pp.Step.{Round, get_region_status-promote}
use urss.Tests.PpStates.{
  after, even_top-IsGraph, low_after-IsRegion, high_after-IsRegion, after-IsMaximal, after-IsTop,
  after-IsVisited, nobody-Moves, closed_above, above_after,
}

setup_region-IsMaximal_example :
    (t : Pp) × (setup_region 3 2 2 true after ≡ ok (not (is_empty (members t 2)), t))
    × (UintQueue.nonempty t.q ≡ false)
    × (t.oink ≡ after.oink)
    × IsRegion 2 t
    × IsMaximal 2 t
    × IsTop 2 2 t
unfolding vertexcount make
setup_region-IsMaximal_example = setup_region-IsMaximal 3 2 2 after after-IsVisited (omega arith)

get_region_status_lem_example :
    (st : Status) × (get_region_status 1 0 after ≡ ok st) × Says 0 after st
get_region_status_lem_example = get_region_status_lem 1 0 after low_after-IsRegion after-IsTop

after_status : get_region_status 1 0 after ≡ ok (closed_to 2)
unfolding make get_region_status any_opening is_opening can_escape outs until_end lowest_escape
    lowest_successor lower_escape
after_status = refl

promote-IsMaximal_example :
    (t : Pp) × (promote 3 0 2 after ≡ some t)
    × (UintQueue.nonempty t.q ≡ false)
    × (is_odd 0 ≡ is_odd 2)
    × IsRegion 2 t
    × IsMaximal 2 t
unfolding make vertexcount UintQueue.empty UintQueue.make outs until_end
promote-IsMaximal_example =
    promote-IsMaximal 3 0 2 after 1 2 even_top-IsGraph low_after-IsRegion high_after-IsRegion
      after-IsMaximal (omega arith) nobody-Moves closed_above
      (record { inside = refl; theirs = refl; edge = omega arith; free = refl }) refl refl refl
      (omega arith)

get_region_status-promote_example :
    (st : Status) × (get_region_status 1 0 after ≡ ok st) × Round 3 0 after st
unfolding make vertexcount UintQueue.empty UintQueue.make
get_region_status-promote_example =
    get_region_status-promote 3 1 0 after even_top-IsGraph low_after-IsRegion after-IsTop
      above_after refl refl (omega arith)
