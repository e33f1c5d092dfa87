-- ===== src/Oink/Scc.antt =====
-- oink/src/scc.cpp: Tarjan's search for a bottom strongly connected component.
use urss.Base.{
  ℕ, zero, suc, ◌+◌, Bool, true, false, not, ◌&&◌, List, [], ◌∷◌, ◌++◌, Option, none, some,
  if◌then◌else◌, ◌==◌, ltb, get_or, set, replicate,
}
use urss.Game.{Game, vertexcount, outs, has_edge}

-- `res` holds the vertices in the order of `push_back`; the top of the search stack comes first.
pub record Tarjan : Type 0 where
  pub low : List ℕ
  pub pre : ℕ
  pub res : List ℕ
  pub st : List ℕ

-- The loop over the edges: a vertex to push, or the new `min`.
pub data EdgeScan : Type 0 where
  push_next : ℕ → EdgeScan
  reached : ℕ → EdgeScan

pub scan_edges : List Bool → List ℕ → ℕ → List ℕ → EdgeScan
scan_edges disabled low least [] = reached least
scan_edges disabled low least (to ∷ ts) =
    let l = get_or low to 0 in
    elim (get_or disabled to false) [
      | true ↦ scan_edges disabled low least ts
      | false ↦ elim (l == 0) [
        | true ↦ push_next to
        | false ↦ scan_edges disabled low (if ltb l least then l else least) ts
      ]
    ]

-- res.back() and res.pop_back()
pub last_or : ℕ → List ℕ → ℕ
last_or d [] = d
last_or d (x ∷ xs) = last_or x xs

pub drop_last : List ℕ → List ℕ
drop_last [] = []
drop_last (x ∷ []) = []
drop_last (x ∷ (y ∷ ys)) = x ∷ drop_last (y ∷ ys)

-- res.erase(res.begin(), std::find(res.begin(), res.end(), idx))
pub erase_before : ℕ → List ℕ → List ℕ
erase_before idx [] = []
erase_before idx (x ∷ xs) = if x == idx then x ∷ xs else erase_before idx xs

-- What a round of the search does next.
pub data Round : Type 0 where
  again : Tarjan → Round
  stop : List ℕ → Round

-- One round, with `idx` at the top of the stack and `below` under it.
unfoldable pub round : Game → List Bool → Bool → Tarjan → ℕ → List ℕ → Round
round g disabled nonempty s idx below =
    let fresh = get_or s.low idx 0 == 0 in
    let pre = if fresh then s.pre + 1 else s.pre in
    let low = if fresh then set s.low idx pre else s.low in
    let res = if fresh then s.res ++ idx ∷ [] else s.res in
    let here = get_or low idx 0 in
    elim (scan_edges disabled low here (outs g idx)) [
      | push_next to ↦ again (record { low = low; pre = pre; res = res; st = to ∷ (idx ∷ below) })
      | reached least ↦
          if ltb least here
          then again (record { low = set low idx least; pre = pre; res = res; st = below })
          else if nonempty && last_or 0 res == idx && not (has_edge g idx idx)
          then again (record { low = low; pre = pre; res = drop_last res; st = below })
          else stop (erase_before idx res)
    ]

-- while (!st.empty()), with fuel; the result is what `res` holds at the end.
pub search_loop : ℕ → Game → List Bool → Bool → Tarjan → Option (List ℕ)
search_loop zero g disabled nonempty s = none
search_loop (suc fuel) g disabled nonempty s = elim s.st [
  | [] ↦ some s.res
  | idx ∷ below ↦ elim (round g disabled nonempty s idx below) [
    | again t ↦ search_loop fuel g disabled nonempty t
    | stop found ↦ some found
  ]
]

-- tarjan(n, res, nonempty)
unfoldable pub tarjan : ℕ → Game → List Bool → Bool → ℕ → List ℕ → Option (List ℕ)
tarjan fuel g disabled nonempty n res =
    search_loop fuel g disabled nonempty
      (record { low = replicate (vertexcount g) 0; pre = 0; res = res; st = n ∷ [] })

-- getBottomSCC(start, scc, nonempty)
unfoldable pub bottom_scc_from : ℕ → Game → List Bool → Bool → ℕ → Option (List ℕ)
bottom_scc_from fuel g disabled nonempty start = tarjan fuel g disabled nonempty start []

-- getBottomSCC(scc, nonempty), for the vertices i, i + 1, ..., n of them
pub bottom_scc_search : ℕ → Game → List Bool → Bool → ℕ → ℕ → Option (List ℕ)
bottom_scc_search fuel g disabled nonempty zero i = some []
bottom_scc_search fuel g disabled nonempty (suc n) i = elim (get_or disabled i false) [
  | true ↦ bottom_scc_search fuel g disabled nonempty n (suc i)
  | false ↦ tarjan fuel g disabled nonempty i []
]

unfoldable pub bottom_scc : ℕ → Game → List Bool → Bool → Option (List ℕ)
bottom_scc fuel g disabled nonempty = bottom_scc_search fuel g disabled nonempty (vertexcount g) 0
