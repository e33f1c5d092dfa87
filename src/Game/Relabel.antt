-- ===== src/Game/Relabel.antt =====
-- The loops of `inflate`, `compress`, `renumber`, `evenodd` and `minmax` in oink/src/game.cpp, over
-- the priorities of the vertices in order. A priority is never negative, so `p & 1` is `p % 2`.
pub mod Order
pub mod Parity
pub mod Count
pub mod Minmax
use mathlib.Core.List.{reverse}
use urss.Base.{
  ℕ, zero, suc, ◌+◌, ◌%◌, Bool, not, List, [], ◌∷◌, Option, none, some, if◌then◌else◌, ◌==◌, map,
}

-- What a round adds to `prio` and to `d`, from `last`, `prio` and the priority that it reads.
abbrev pub Step : Type 0
Step = ℕ → ℕ → ℕ → ℕ × ℕ

unfoldable pub inflate_step : Step
inflate_step last prio p = if not (p % 2 == prio % 2) then (1, 1) else (2, 1)

unfoldable pub compress_step : Step
compress_step last prio p = if not (p % 2 == prio % 2) then (1, 1) else (0, 0)

unfoldable pub renumber_step : Step
renumber_step last prio p =
    if not (p % 2 == prio % 2) then (1, 1) else if not (last == p) then (2, 1) else (0, 0)

-- `prev` holds `prio` and `last`, and is `none` while they are -1. The result is the new
-- priorities, and `d`.
unfoldable pub relabel : Step → Option (ℕ × ℕ) → ℕ → List ℕ → List ℕ × ℕ
relabel step prev d [] = ([], d)
relabel step none d (p ∷ ps) =
    let (qs, e) = relabel step (some (p % 2, p)) d ps in ((p % 2) ∷ qs, e)
relabel step (some (prio, last)) d (p ∷ ps) =
    let (up, one) = step last prio p in
    let (qs, e) = relabel step (some (prio + up, p)) (d + one) ps in ((prio + up) ∷ qs, e)

unfoldable pub inflate : List ℕ → List ℕ × ℕ
inflate [] = ([], 0)
inflate (p ∷ ps) = relabel inflate_step none 1 (p ∷ ps)

unfoldable pub compress : List ℕ → List ℕ × ℕ
compress [] = ([], 0)
compress (p ∷ ps) = relabel compress_step none 1 (p ∷ ps)

unfoldable pub renumber : List ℕ → List ℕ × ℕ
renumber [] = ([], 0)
renumber (p ∷ ps) = relabel renumber_step none 1 (p ∷ ps)

-- The priorities and the owners after `evenodd`; a round tests and remembers the priority plus one, and
-- the owner becomes 1 minus the owner.
unfoldable pub evenodd : List ℕ → List Bool → List ℕ × List Bool
evenodd ps owner = ((relabel renumber_step none 1 (map (λ p. p + 1) ps)).0, map not owner)

-- The loop of `minmax` goes from the last vertex to the first.
unfoldable pub minmax : List ℕ → List ℕ
minmax ps = reverse (relabel renumber_step none 1 (reverse ps)).0
