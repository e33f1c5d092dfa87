-- ===== src/Tests/RrTests.antt =====
-- `RRSolver` and `PPPSolver` at the regions of the game of PpStates.
use urss.Base.{ℕ, ◌<◌, ◌≡◌, ◌↔◌, refl, true, false, not, ◌&&◌, ◌||◌, ltb}
use urss.Oink.{make, is_odd, same}
use urss.Base.Tally.{occ}
use urss.Pp.{region_of, members, is_above}
use urss.Rr.{check_region, not_above, check_all, check_vertex}
use urss.Rr.Keeps.{Keeps}
use urss.Rr.Check.{check_region_lem}
use urss.Ppp.{Ppp, is_due, raise_reset}
use urss.Ppp.Due.{raise_reset-is_due}
use urss.Tests.PpStates.{after}

check_region_lem_example : ((check_region 2 after).1 ≡ true) ↔ (
    (j : ℕ)
    → 0 < occ j (members after 2)
    → is_above 2 (region_of after j) ≡ false
    → Keeps 2 after j)
check_region_lem_example = check_region_lem 2 after

after_kept : (check_region 2 after).1 ≡ true
unfolding make check_region check_all check_vertex not_above
after_kept = refl

abbrev fresh : Ppp
fresh = record { pp = after; reset0 = 1; reset1 = 1 }

raise_reset-is_due_example :
    is_due (raise_reset fresh 2) 1
    ≡ (is_due fresh 1 || (not (same (is_odd 1) (is_odd 2)) && ltb 1 2))
raise_reset-is_due_example = raise_reset-is_due fresh 2 1
