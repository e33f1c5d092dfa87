-- ===== src/Game/VecFinish.antt =====
-- `vec_finish` moves the edge vectors to the edge array.
use mathlib.Core.List.{append_assoc}
use urss.Base.{
  ℕ, zero, suc, ◌+◌, ◌≤◌, ◌<◌, ◌≡◌, ◌≢◌, ◌∙◌, ap, arith, List, [], ◌∷◌, ◌++◌, none, some, length,
  get_or, set, length-set, get_or-set, length-take, map,
}
use urss.Game.{
  Game, e_start, e_finish, outs, add_edges, finish_from, vec_finish, vectors, outvec_of,
}
use urss.Game.Edges.{IsSized, written, Stored, e_finish-Appends, add_edges-Extends, outs-Stored}

e_start-IsSized : {g : Game} (v : ℕ) → IsSized g → IsSized (e_start g v)
unfolding e_start
e_start-IsSized v s = record {
  vertices = rw length-set s.vertices;
  edges = s.edges;
  room = s.room;
  grows = s.grows;
}

-- One vertex: from `e_start` to `e_finish`.
abbrev pub one_vertex : Game → ℕ → List ℕ → Game
one_vertex g v ts = e_finish (add_edges (e_start g v) v ts)

pub record Writes (g h : Game) (v : ℕ) (ts : List ℕ) : Type 0 where
  pub sized : IsSized h
  pub vertices : h.n_vertices ≡ g.n_vertices
  pub extended : written h ≡ written g ++ (map some ts ++ none ∷ [])
  pub first : h.firstouts ≡ set g.firstouts v g.e_size

pub one_vertex-Writes :
    (g : Game) (v : ℕ) (ts : List ℕ) → IsSized g → Writes g (one_vertex g v ts) v ts
unfolding e_start
one_vertex-Writes g v ts s =
    let adds = add_edges-Extends (e_start g v) v ts (e_start-IsSized v s) in
    let ends = e_finish-Appends (add_edges (e_start g v) v ts) adds.sized in
    record {
      sized = ends.sized;
      vertices = ends.same_vertices ∙ adds.same_vertices;
      extended =
          ends.appended
          ∙ ap (λ w. w ++ none ∷ []) adds.extended
          ∙ append_assoc (written g) (map some ts) (none ∷ []);
      first = ends.same_firstouts ∙ adds.same_firstouts;
    }

pub length-written : {g : Game} → IsSized g → length (written g) ≡ g.e_size
length-written {g} s = omega (arith, length-take g.e_size g.outedges, s.room, s.edges)

pub Writes-Stored :
    {g h : Game} {v : ℕ} {ts : List ℕ}
    → IsSized g
    → v < g.n_vertices
    → Writes g h v ts
    → Stored h v ts
Writes-Stored {g} {h} {v} {ts} s k w = record {
  before = written g;
  after = [];
  split = w.extended;
  start =
      ap (λ xs. get_or xs v 0) w.first
      ∙ ground (arith, get_or-set g.firstouts v v g.e_size 0, s.vertices, length-written s);
}

pub Stored-Writes :
    {g h : Game} {u v : ℕ} {xs ts : List ℕ}
    → IsSized g
    → v < g.n_vertices
    → u ≢ v
    → Writes g h v ts
    → Stored g u xs
    → Stored h u xs
Stored-Writes {g} {h} {u} {v} {xs} {ts} s k ne w st = record {
  before = st.before;
  after = st.after ++ (map some ts ++ none ∷ []);
  split =
      w.extended
      ∙ ap (λ t. t ++ (map some ts ++ none ∷ [])) st.split
      ∙ append_assoc st.before (map some xs ++ none ∷ st.after) (map some ts ++ none ∷ [])
      ∙ ap (λ t. st.before ++ t)
          (append_assoc (map some xs) (none ∷ st.after) (map some ts ++ none ∷ []));
  start =
      ap (λ t. get_or t u 0) w.first
      ∙ ground (arith, get_or-set g.firstouts v u g.e_size 0, s.vertices)
      ∙ st.start;
}

-- The loop stores the vectors, and leaves the edges of the vertices before in place.
record Finishes (g h : Game) (v : ℕ) (rest : List (List ℕ)) : Type 0 where
  keeps : (u : ℕ) (xs : List ℕ) → u < v → Stored g u xs → Stored h u xs
  stores : (i : ℕ) → i < length rest → Stored h (v + i) (get_or rest i [])

finish_from-Finishes :
    (g : Game) (v : ℕ) (rest : List (List ℕ))
    → IsSized g
    → v + length rest ≤ g.n_vertices
    → Finishes g (finish_from g v rest) v rest
unfolding finish_from
finish_from-Finishes g v [] s k = record {
  keeps = λ u xs p st. st;
  stores = λ i p. absurd (omega arith);
}
finish_from-Finishes g v (ts ∷ rest) s k =
    let w = one_vertex-Writes g v ts s in
    let in_range : v < g.n_vertices = omega arith in
    let more =
      finish_from-Finishes (one_vertex g v ts) (suc v) rest w.sized (omega (arith, w.vertices)) in
    record {
      keeps =
          λ u xs p st. more.keeps u xs (omega arith) (Stored-Writes s in_range (omega arith) w st);
      stores = elim [
        | zero ↦ λ p.
            let e : v + 0 ≡ v = omega arith in
            rw e (more.keeps v ts (omega arith) (Writes-Stored s in_range w))
        | suc i ↦
            λ p. let e : v + suc i ≡ suc v + i = omega arith in rw e (more.stores i (omega arith))
      ];
    }

-- After `vec_finish` the edge array gives each vertex the edges of its vector, in their order.
pub outs-vec_finish :
    (g : Game) (v : ℕ)
    → IsSized (record g { e_size = 0 })
    → length (vectors g) ≡ g.n_vertices
    → v < g.n_vertices
    → outs (vec_finish g) v ≡ outvec_of g v
unfolding vec_finish outs
outs-vec_finish g v s n k =
    let start = record g { e_size = 0; n_edges = 0 } in
    let sized : IsSized start = record {
      vertices = s.vertices;
      edges = s.edges;
      room = s.room;
      grows = s.grows;
    } in
    let f = finish_from-Finishes start 0 (vectors g) sized (omega (arith, n)) in
    let e : 0 + v ≡ v = omega arith in outs-Stored (rw e at (f.stores v (omega (arith, n))))
