-- ===== src/Text/Progress.antt =====
-- Which vertices the parser has read.
use urss.Base.{
  ℕ, suc, ◌+◌, ◌≤◌, ◌<◌, ◌≡◌, subst, ap, ◌∙◌, arith, true, false, List, [], ◌∷◌, none,
  if◌then◌else◌, ◌==◌, length, get_or, length-set, get_or-set, Bool-cases, inl, inr,
}
use urss.Game.{Game, outs, owner_of, priority_of}
use urss.Game.Edges.{IsSized, Stored}
use urss.Game.Ins.Count.{Below}
use urss.Game.VecFinish.{one_vertex, one_vertex-Writes, Writes-Stored, Stored-Writes}
use urss.Text.Parse.{int_max}
use urss.Text.Frame.{one_vertex-KeepsVertices}
use urss.Text.Vertex.{prepared}

-- A game that the format can hold as it is written: with a vertex, no dead ends and no labels, and
-- numbers that the parser accepts.
pub record IsPrintable (g : Game) : Type 0 where
  pub some_vertex : 0 < g.n_vertices
  pub fits : g.n_vertices < int_max
  pub moves : (v : ℕ) → v < g.n_vertices → (t : ℕ) × (ts : List ℕ) × (outs g v ≡ t ∷ ts)
  pub below : (v : ℕ) → v < g.n_vertices → Below g.n_vertices (outs g v)
  pub low : (v : ℕ) → v < g.n_vertices → priority_of g v ≤ int_max
  pub plain : (v : ℕ) → v < g.n_vertices → get_or g.label v none ≡ none

-- In `h` the vertices of `g` below `i` are read.
pub record IsRead (g h : Game) (i : ℕ) : Type 0 where
  pub sized : IsSized h
  pub vertices : h.n_vertices ≡ g.n_vertices + 1
  pub allocated : h.v_allocated ≡ g.n_vertices + 1
  pub solved_size : length h.solved ≡ g.n_vertices + 1
  pub priority_size : length h.priority ≡ g.n_vertices + 1
  pub owner_size : length h.owner ≡ g.n_vertices + 1
  pub label_size : length h.label ≡ g.n_vertices + 1
  pub old : (v : ℕ) → v < i → get_or h.solved v false ≡ false
  pub new : (v : ℕ) → i ≤ v → v ≤ g.n_vertices → get_or h.solved v false ≡ true
  pub even : (v : ℕ) → i ≤ v → owner_of h v ≡ false
  pub priority : (v : ℕ) → v < i → priority_of h v ≡ priority_of g v
  pub owner : (v : ℕ) → v < i → owner_of h v ≡ owner_of g v
  pub label : (v : ℕ) → v < i → get_or h.label v none ≡ none
  pub edges : (v : ℕ) → v < i → Stored h v (outs g v)

pub Below-more : (n m : ℕ) (ts : List ℕ) → n ≤ m → Below n ts → Below m ts
Below-more n m [] h b = b
Below-more n m (t ∷ ts) h (a, b) = (omega (arith, a, h), Below-more n m ts h b)

module _ (g h : Game) (i : ℕ) (r : IsRead g h i) (small : i < g.n_vertices) where
  abbrev marked : Game
  marked = prepared h i (priority_of g i) (owner_of g i)

  abbrev pub next : Game
  next = one_vertex marked i (outs g i)

  marked-IsSized : IsSized marked
  marked-IsSized = record {
    vertices = r.sized.vertices;
    edges = r.sized.edges;
    room = r.sized.room;
    grows = r.sized.grows;
  }

  owner_marked : (v : ℕ) → owner_of marked v ≡ (if v == i then owner_of g i else owner_of h v)
  owner_marked v = elim (Bool-cases (owner_of g i)) [
    | inl e ↦ rw e (get_or-set h.owner i v true false (omega (arith, r.owner_size, small)))
    | inr e ↦ rw e (ground (arith, r.even v))
  ]

  length-owner_marked : length marked.owner ≡ g.n_vertices + 1
  length-owner_marked = elim (Bool-cases (owner_of g i)) [
    | inl e ↦ rw e (length-set h.owner i true ∙ r.owner_size)
    | inr e ↦ rw e r.owner_size
  ]

  pub next-IsRead : IsRead g next (suc i)
  next-IsRead =
      let k = one_vertex-KeepsVertices marked i (outs g i) in
      let w = one_vertex-Writes marked i (outs g i) marked-IsSized in
      let room : i < marked.n_vertices = omega (arith, r.vertices, small) in
      record {
        sized = w.sized;
        vertices = k.same_vertices ∙ r.vertices;
        allocated = k.same_allocated ∙ r.allocated;
        solved_size = ap length k.same_solved ∙ length-set h.solved i false ∙ r.solved_size;
        priority_size =
            ap length k.same_priority ∙ length-set h.priority i (priority_of g i) ∙ r.priority_size;
        owner_size = ap length k.same_owner ∙ length-owner_marked;
        label_size = ap length k.same_label ∙ length-set h.label i none ∙ r.label_size;
        old = λ v l.
            ap (λ xs. get_or xs v false) k.same_solved
            ∙ get_or-set h.solved i v false false (omega (arith, r.solved_size, small))
            ∙ ground (arith, l, r.old v);
        new = λ v l m.
            ap (λ xs. get_or xs v false) k.same_solved
            ∙ get_or-set h.solved i v false false (omega (arith, r.solved_size, small))
            ∙ ground (arith, l, r.new v (omega (arith, l)) m);
        even = λ v l.
            ap (λ xs. get_or xs v false) k.same_owner
            ∙ owner_marked v
            ∙ ground (arith, l, r.even v (omega (arith, l)));
        priority = λ v l.
            ap (λ xs. get_or xs v 0) k.same_priority
            ∙ get_or-set h.priority i v (priority_of g i) 0 (omega (arith, r.priority_size, small))
            ∙ ground (arith, l, r.priority v, ap (priority_of g) {x = i} {y = v});
        owner = λ v l.
            ap (λ xs. get_or xs v false) k.same_owner
            ∙ owner_marked v
            ∙ ground (arith, l, r.owner v, ap (owner_of g) {x = i} {y = v});
        label = λ v l.
            ap (λ xs. get_or xs v none) k.same_label
            ∙ get_or-set h.label i v none none (omega (arith, r.label_size, small))
            ∙ ground (arith, l, r.label v);
        edges = λ v l. elim (Bool-cases (v == i)) [
          | inl e ↦
              let here : i ≡ v = ground arith in
              subst (λ z. Stored next z (outs g z)) here (Writes-Stored marked-IsSized room w)
          | inr e ↦ Stored-Writes marked-IsSized room (ground arith) w (record {
            before = (r.edges v (ground (arith, l, e))).before;
            after = (r.edges v (ground (arith, l, e))).after;
            split = (r.edges v (ground (arith, l, e))).split;
            start = (r.edges v (ground (arith, l, e))).start;
          })
        ];
      }
