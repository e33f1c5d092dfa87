-- ===== src/Game/Ins.antt =====
-- `build_in_array` of oink/src/game.cpp: the ingoing edges of each vertex.
pub mod Segment
pub mod Count
pub mod Place
pub mod Total
pub mod Put
pub mod Fill
pub mod Converse
use urss.Base.{
  ℕ, zero, suc, ◌+◌, ◌-◌, Bool, List, [], ◌∷◌, none, some, if◌then◌else◌, get_or, set, drop,
  replicate,
}
use urss.Game.{Game, InArray, outs, until_end}

-- for (to of outs(v)) _incount[to]++
pub count_targets : List ℕ → List ℕ → List ℕ
count_targets [] counts = counts
count_targets (to ∷ ts) counts = count_targets ts (set counts to (get_or counts to 0 + 1))

-- The first loop over the vertices: v, v + 1, ..., n of them.
pub count_ins : Game → ℕ → ℕ → List ℕ → List ℕ
count_ins g zero v counts = counts
count_ins g (suc n) v counts = count_ins g n (suc v) (count_targets (outs g v) counts)

-- The second: each vertex gets a block with an end mark, and starts at its end.
pub place_blocks : ℕ → ℕ → ℕ → InArray → InArray
place_blocks zero v pos a = a
place_blocks (suc n) v pos a =
    let c = get_or a.incount v 0 in
    place_blocks n (suc v) (pos + (c + 1))
      (record a { firstins = set a.firstins v (pos + c); edges = set a.edges (pos + c) none })

-- for (to of outs(v)) _inedges[--_firstins[to]] = v
pub put_sources : ℕ → List ℕ → InArray → InArray
put_sources v [] a = a
put_sources v (to ∷ ts) a =
    let at_index = get_or a.firstins to 0 - 1 in
    put_sources v ts
      (record a { firstins = set a.firstins to at_index; edges = set a.edges at_index (some v) })

-- The third loop over the vertices.
pub fill_ins : Game → ℕ → ℕ → InArray → InArray
fill_ins g zero v a = a
fill_ins g (suc n) v a = fill_ins g n (suc v) (put_sources v (outs g v) a)

-- The arrays that are built when there are none, or when they are built again.
unfoldable pub built : Game → InArray
built g =
    let n = g.n_vertices in
    let counts = count_ins g n 0 (replicate n 0) in
    fill_ins g n 0 (
      place_blocks n 0 0
        (record { edges = replicate g.e_size none; firstins = replicate n 0; incount = counts }))

unfoldable pub build_in_array : Game → Bool → Game
build_in_array g rebuild = elim g.inedges [
  | some a ↦ if rebuild then record g { inedges = some (built g) } else g
  | none ↦ record g { inedges = some (built g) }
]

-- The entries that a loop over `ins(v)` visits.
unfoldable pub ins : Game → ℕ → List ℕ
ins g v = elim g.inedges [ some a ↦ until_end (drop (get_or a.firstins v 0) a.edges) | none ↦ [] ]
