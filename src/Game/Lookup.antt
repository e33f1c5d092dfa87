-- ===== src/Game/Lookup.antt =====
-- The search for an edge, in the edge array and in the edge vectors.
use urss.Base.{
  ℕ, suc, ◌<◌, ◌≡◌, ◌==◌, refl, ap, ◌∙◌, arith, Bool, true, false, not, ◌&&◌, ◌||◌, List, [], ◌∷◌,
  ◌++◌, Option, none, some, if◌then◌else◌, length, get_or, set, get_or-set, drop, Bool-cases, inl,
  inr,
}
use urss.Game.{
  Game, until_end, outs, find_target, find_edge, has_edge, contains, remove, outvec_of, vectors,
  vec_has_edge, vec_add_edge, vec_remove_edge,
}

-- A result of `find_edge` that is an index.
abbrev pub is_found : Option ℕ → Bool
is_found r = elim r [ none ↦ false | some idx ↦ true ]

find_target_lem :
    (to idx : ℕ) (es : List (Option ℕ))
    → is_found (find_target to idx es) ≡ contains to (until_end es)
unfolding find_target until_end contains
find_target_lem to idx [] = refl
find_target_lem to idx (none ∷ es) = refl
find_target_lem to idx (some t ∷ es) = elim (Bool-cases (t == to)) [
  | inl e ↦ rw e refl
  | inr e ↦ rw e (find_target_lem to (suc idx) es)
]

-- has_edge is true exactly when the successor stands among the outgoing edges of the vertex.
pub has_edge_lem : (g : Game) (from to : ℕ) → has_edge g from to ≡ contains to (outs g from)
unfolding has_edge find_edge outs
has_edge_lem g from to =
    find_target_lem to (get_or g.firstouts from 0) (drop (get_or g.firstouts from 0) g.outedges)

contains-append_last :
    (to u : ℕ) (ts : List ℕ) → contains u (ts ++ to ∷ []) ≡ (contains u ts || to == u)
unfolding contains
contains-append_last to u [] = ground arith
contains-append_last to u (t ∷ ts) = ground (arith, contains-append_last to u ts)

contains-remove :
    (to u : ℕ) (ts : List ℕ) → contains u (remove to ts) ≡ (contains u ts && not (u == to))
unfolding contains remove
contains-remove to u [] = refl
contains-remove to u (t ∷ ts) =
    let ih = contains-remove to u ts in
    elim (Bool-cases (t == to)) [
      | inl e ↦ rw e (ground (arith, e, ih))
      | inr e ↦ rw e (ground (arith, e, ih))
    ]

-- The vector of one vertex is replaced.
has-set :
    (g : Game) (from v u : ℕ) (ts : List ℕ)
    → from < length (vectors g)
    → contains u (get_or (set (vectors g) from ts) v [])
      ≡ (if v == from then contains u ts else contains u (outvec_of g v))
has-set g from v u ts h = elim (Bool-cases (v == from)) [
  | inl e ↦ rw (get_or-set (vectors g) from v ts [] h, e) refl
  | inr e ↦ rw (get_or-set (vectors g) from v ts [] h, e) refl
]

-- For a vertex with a vector, vec_add_edge says whether the edge is new, and afterwards the vector has
-- what it had and the edge.
pub vec_add_edge_lem :
    (g : Game) (from to v u : ℕ)
    → from < length (vectors g)
    → ((vec_add_edge g from to).1 ≡ not (vec_has_edge g from to))
      × (vec_has_edge (vec_add_edge g from to).0 v u
          ≡ (vec_has_edge g v u || (v == from && u == to)))
unfolding vec_add_edge vec_has_edge
vec_add_edge_lem g from to v u h =
    let row = ap (λ k. contains u (outvec_of g k)) {x = v} {y = from} in
    let entry = ap (λ k. contains k (outvec_of g from)) {x = u} {y = to} in
    elim (Bool-cases (contains to (outvec_of g from))) [
      | inl e ↦ rw e (refl, ground (arith, e, row, entry))
      | inr e ↦ rw e (
        refl,
        has-set g from v u (outvec_of g from ++ to ∷ []) h
            ∙ ground (arith, contains-append_last to u (outvec_of g from), row, entry),
      )
    ]

-- For a vertex with a vector, vec_remove_edge says whether the edge was there, and afterwards the vector
-- has what it had but the edge.
pub vec_remove_edge_lem :
    (g : Game) (from to v u : ℕ)
    → from < length (vectors g)
    → ((vec_remove_edge g from to).1 ≡ vec_has_edge g from to)
      × (vec_has_edge (vec_remove_edge g from to).0 v u
          ≡ (vec_has_edge g v u && not (v == from && u == to)))
unfolding vec_remove_edge vec_has_edge
vec_remove_edge_lem g from to v u h =
    let row = ap (λ k. contains u (outvec_of g k)) {x = v} {y = from} in
    let entry = ap (λ k. contains k (outvec_of g from)) {x = u} {y = to} in
    elim (Bool-cases (contains to (outvec_of g from))) [
      | inl e ↦ rw e (
        refl,
        has-set g from v u (remove to (outvec_of g from)) h
            ∙ ground (arith, contains-remove to u (outvec_of g from), row, entry),
      )
      | inr e ↦ rw e (refl, ground (arith, e, row, entry))
    ]
