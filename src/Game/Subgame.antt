-- ===== src/Game/Subgame.antt =====
-- `extract_subgame` of oink/src/game.cpp.
use mathlib.Core.Option
use urss.Base.{
  ℕ, zero, suc, ◌+◌, Bool, true, false, List, [], ◌∷◌, Option, none, some, if◌then◌else◌, get_or,
  set, replicate, length,
}
use urss.Game.{
  Game, make, outs, owner_of, priority_of, count_true, init_vertex, e_start, e_add, e_finish,
}

-- The successors that are in the subgame.
pub inside : List Bool → List ℕ → List ℕ
inside mask [] = []
inside mask (t ∷ ts) = let rest = inside mask ts in if get_or mask t false then t ∷ rest else rest

-- The first loop, for vertices v, v + 1, ..., n of them: the number of edges, and `none` (`abort()`)
-- if a vertex of the subgame has no successor there.
pub count_inside : Game → List Bool → ℕ → ℕ → ℕ → Option ℕ
count_inside g mask zero v ne = some ne
count_inside g mask (suc n) v ne = elim (get_or mask v false) [
  | false ↦ count_inside g mask n (suc v) ne
  | true ↦ elim (inside mask (outs g v)) [
    | [] ↦ none
    | t ∷ ts ↦ count_inside g mask n (suc v) (ne + suc (length ts))
  ]
]

-- `mapping` and `invmap`, and the vertices of the new game.
pub record Extraction : Type 0 where
  pub game : Game
  pub mapping : List ℕ
  pub invmap : List ℕ
  pub vertices : ℕ

-- The second loop. `init_vertex` finds room for every vertex, so it needs no fuel.
pub copy_vertices : Game → List Bool → ℕ → ℕ → Extraction → Option Extraction
copy_vertices g mask zero v x = some x
copy_vertices g mask (suc n) v x = elim (get_or mask v false) [
  | false ↦ copy_vertices g mask n (suc v) x
  | true ↦
      let w = x.vertices in
      let o = if owner_of g v then 1 else 0 in
      elim (init_vertex 0 x.game w (priority_of g v) o (Option.get_or (get_or g.label v none) [])) [
        | none ↦ none
        | some h ↦ copy_vertices g mask n (suc v) (record {
          game = h;
          mapping = set x.mapping v w;
          invmap = set x.invmap w v;
          vertices = w + 1;
        })
      ]
]

pub add_mapped : List Bool → List ℕ → Game → ℕ → List ℕ → Game
add_mapped mask mapping h w [] = h
add_mapped mask mapping h w (t ∷ ts) =
    add_mapped mask mapping (if get_or mask t false then e_add h w (get_or mapping t 0) else h) w ts

-- The third loop, for vertices w, w + 1, ..., n of them of the new game.
pub copy_edges : Game → List Bool → List ℕ → List ℕ → ℕ → ℕ → Game → Game
copy_edges g mask mapping invmap zero w h = h
copy_edges g mask mapping invmap (suc n) w h =
    copy_edges g mask mapping invmap n (suc w)
      (e_finish (add_mapped mask mapping (e_start h w) w (outs g (get_or invmap w 0))))

unfoldable pub extract_subgame : Game → List Bool → Option Game
extract_subgame g mask =
    let nv = count_true mask in
    elim (count_inside g mask g.n_vertices 0 0) [
      | none ↦ none
      | some ne ↦
          Option.map {A = Extraction} (λ x. copy_edges g mask x.mapping x.invmap nv 0 x.game)
            (copy_vertices g mask g.n_vertices 0 (record {
              game = make nv (some ne);
              mapping = replicate g.n_vertices 0;
              invmap = replicate nv 0;
              vertices = 0;
            }))
    ]

-- The version for a list of vertices.
pub mask_of : List ℕ → List Bool → List Bool
mask_of [] sel = sel
mask_of (i ∷ is) sel = mask_of is (set sel i true)

unfoldable pub extract_selection : Game → List ℕ → Option Game
extract_selection g selection = extract_subgame g (mask_of selection (replicate g.n_vertices false))
