-- ===== src/Text/Frame.antt =====
-- Building the edge array leaves the vertices: their number, priorities, owners and labels.
use urss.Base.{ℕ, ◌≡◌, refl, ◌∙◌, List, [], ◌∷◌, ◌==◌, Bool-cases, inl, inr}
use urss.Game.{Game, e_start, ensure_edge, e_sizeup, e_add, e_finish, add_edges}

pub record KeepsVertices (g h : Game) : Type 0 where
  pub same_vertices : h.n_vertices ≡ g.n_vertices
  pub same_allocated : h.v_allocated ≡ g.v_allocated
  pub same_priority : h.priority ≡ g.priority
  pub same_owner : h.owner ≡ g.owner
  pub same_label : h.label ≡ g.label
  pub same_solved : h.solved ≡ g.solved

refl-KeepsVertices : (g : Game) → KeepsVertices g g
refl-KeepsVertices g = record {
  same_vertices = refl;
  same_allocated = refl;
  same_priority = refl;
  same_owner = refl;
  same_label = refl;
  same_solved = refl;
}

pub trans-KeepsVertices : {g h k : Game} → KeepsVertices g h → KeepsVertices h k → KeepsVertices g k
trans-KeepsVertices a b = record {
  same_vertices = b.same_vertices ∙ a.same_vertices;
  same_allocated = b.same_allocated ∙ a.same_allocated;
  same_priority = b.same_priority ∙ a.same_priority;
  same_owner = b.same_owner ∙ a.same_owner;
  same_label = b.same_label ∙ a.same_label;
  same_solved = b.same_solved ∙ a.same_solved;
}

ensure_edge-KeepsVertices : (g : Game) → KeepsVertices g (ensure_edge g)
unfolding ensure_edge e_sizeup
ensure_edge-KeepsVertices g = elim (Bool-cases (g.e_size == g.e_allocated)) [
  | inl e ↦ rw e (record {
    same_vertices = refl;
    same_allocated = refl;
    same_priority = refl;
    same_owner = refl;
    same_label = refl;
    same_solved = refl;
  })
  | inr e ↦ rw e (refl-KeepsVertices g)
]

-- The fields that are read are those of `ensure_edge g`.
of_ensured : (g h : Game) → KeepsVertices (ensure_edge g) h → KeepsVertices g h
of_ensured g h k = trans-KeepsVertices (ensure_edge-KeepsVertices g) k

pub e_add-KeepsVertices : (g : Game) (v t : ℕ) → KeepsVertices g (e_add g v t)
unfolding e_add
e_add-KeepsVertices g v t = of_ensured g (e_add g v t) (record {
  same_vertices = refl;
  same_allocated = refl;
  same_priority = refl;
  same_owner = refl;
  same_label = refl;
  same_solved = refl;
})

e_finish-KeepsVertices : (g : Game) → KeepsVertices g (e_finish g)
unfolding e_finish
e_finish-KeepsVertices g = of_ensured g (e_finish g) (record {
  same_vertices = refl;
  same_allocated = refl;
  same_priority = refl;
  same_owner = refl;
  same_label = refl;
  same_solved = refl;
})

pub e_start-KeepsVertices : (g : Game) (v : ℕ) → KeepsVertices g (e_start g v)
unfolding e_start
e_start-KeepsVertices g v = record {
  same_vertices = refl;
  same_allocated = refl;
  same_priority = refl;
  same_owner = refl;
  same_label = refl;
  same_solved = refl;
}

add_edges-KeepsVertices : (g : Game) (v : ℕ) (ts : List ℕ) → KeepsVertices g (add_edges g v ts)
unfolding add_edges
add_edges-KeepsVertices g v [] = refl-KeepsVertices g
add_edges-KeepsVertices g v (t ∷ ts) =
    trans-KeepsVertices (e_add-KeepsVertices g v t) (add_edges-KeepsVertices (e_add g v t) v ts)

-- The edges of one vertex, from `e_start` to `e_finish`.
pub one_vertex-KeepsVertices :
    (g : Game) (v : ℕ) (ts : List ℕ) → KeepsVertices g (e_finish (add_edges (e_start g v) v ts))
one_vertex-KeepsVertices g v ts = trans-KeepsVertices (e_start-KeepsVertices g v) (
    trans-KeepsVertices (add_edges-KeepsVertices (e_start g v) v ts)
      (e_finish-KeepsVertices (add_edges (e_start g v) v ts)))
