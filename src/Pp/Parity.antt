-- ===== src/Pp/Parity.antt =====
-- A region of `PPSolver` that is closed to a higher one has its parity.
use urss.Base.{ℕ, ◌<◌, ◌≡◌, refl, sym, ◌∙◌, arith, Bool, true, false, Bool-cases, inl, inr}
use urss.Game.{owner_of, vertexcount}
use urss.Oink.{same, is_odd}
use urss.Pp.{Pp, region_of, is_in}
use urss.Pp.Region.{IsRegion}
use urss.Pp.Below.{in_free, in_at}
use urss.Pp.Maximal.{IsMaximal}
use urss.Pp.Gate.{Exit}
use urss.Pp.Raise.{at_below}

same_lem : (a b c : Bool) → same a b ≡ false → same a c ≡ false → b ≡ c
same_lem true b c e f = e ∙ sym f
same_lem false true true e f = refl
same_lem false false c e f = absurd (ground (arith, e))
same_lem false true false e f = absurd (ground (arith, f))

-- The regions have the same parity: the opponent of the lower one moves to the higher one, and would
-- else have been attracted to it.
pub parity_lem :
    (p r : ℕ) (s : Pp) (v to : ℕ)
    → IsRegion p s
    → IsMaximal r s
    → p < r
    → v < vertexcount s.oink.game
    → Exit p s v to
    → is_in r s to ≡ true
    → is_odd p ≡ is_odd r
parity_lem p r s v to low maximal less small x a =
    elim (Bool-cases (same (owner_of s.oink.game v) (is_odd r))) [
      | inl m ↦ absurd (
          ground (
            arith,
            a,
            maximal.own v to
                (record {
                  small = small;
                  enabled = in_free p s v x.inside;
                  low = at_below p r (region_of s v) less (in_at p s v x.inside);
                })
                m x.edge,
          ))
      | inr m ↦ same_lem (owner_of s.oink.game v) (is_odd p) (is_odd r) x.theirs m
    ]
