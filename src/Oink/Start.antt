-- ===== src/Oink/Start.antt =====
-- The state that the constructor of `Oink` makes.
use urss.Base.{
  if◌then◌else◌, ℕ, zero, suc, ◌+◌, ◌≤◌, ◌<◌, ◌≡◌, refl, sym, subst, ap, ◌∙◌, arith, Bool, true,
  false, ltb, some, not, List, [], ◌∷◌, length, get_or, length-replicate,
}
use urss.UintQueue
use urss.Game.{Game, outs, owner_of, vertexcount}
use urss.Game.Ins.{ins, built, build_in_array}
use urss.Game.Ins.Converse.{IsWired, IsBuilding, build_in_array_lem, ins-build_in_array}
use urss.Oink.{enabled_count, enabled_counts, make, int_mod}
use urss.Base.Tally.{tally, occ, unset}
use urss.Oink.Attract.{Graph, IsGraph, is_open}
use urss.Oink.Ready.{IsReady}

-- The graph of a game, in which the vertices that are not disabled are counted.
abbrev pub graph_of : Game → List Bool → Graph
graph_of g disabled = record {
  n = vertexcount g;
  owner = owner_of g;
  succ = outs g;
  pred = ins g;
  counted = λ v. not (get_or disabled v false);
}

-- A game without a solution, whose arrays have an entry for each vertex.
pub record IsUnsolved (g : Game) (disabled : List Bool) : Type 0 where
  pub unsolved : (v : ℕ) → get_or g.solved v false ≡ false
  pub solved_size : length g.solved ≡ vertexcount g
  pub winner_size : length g.winner ≡ vertexcount g
  pub strategy_size : length g.strategy ≡ vertexcount g
  pub disabled_size : length disabled ≡ vertexcount g
  pub small : (v : ℕ) → length (outs g v) < int_mod

pub unset-le : (bs : List Bool) → unset bs ≤ length bs
unset-le [] = omega arith
unset-le (true ∷ bs) = omega (arith, unset-le bs)
unset-le (false ∷ bs) = omega (arith, unset-le bs)

enabled_count-le : (disabled : List Bool) (ts : List ℕ) → enabled_count disabled ts ≤ length ts
unfolding enabled_count
enabled_count-le disabled [] = omega arith
enabled_count-le disabled (t ∷ ts) = ground (arith, enabled_count-le disabled ts)

length-enabled_counts :
    (g : Game) (disabled : List Bool) (n i : ℕ) → length (enabled_counts g disabled n i) ≡ n
unfolding enabled_counts
length-enabled_counts g disabled zero i = refl
length-enabled_counts g disabled (suc n) i =
    omega (arith, length-enabled_counts g disabled n (suc i))

pub get_or-enabled_counts :
    (g : Game) (disabled : List Bool) (n i x : ℕ)
    → x < n
    → get_or (enabled_counts g disabled n i) x 0 ≡ enabled_count disabled (outs g (i + x))
unfolding enabled_counts
get_or-enabled_counts g disabled zero i x h = absurd (omega arith)
get_or-enabled_counts g disabled (suc n) i zero h =
    ap (λ k. enabled_count disabled (outs g k)) (omega arith)
get_or-enabled_counts g disabled (suc n) i (suc x) h =
    get_or-enabled_counts g disabled n (suc i) x (omega arith)
    ∙ ap (λ k. enabled_count disabled (outs g k)) (omega arith)

ints_of_counts :
    (g : Game) (disabled : List Bool)
    → ((v : ℕ) → length (outs g v) < int_mod)
    → (n i x : ℕ) → get_or (enabled_counts g disabled n i) x 0 < int_mod
unfolding enabled_counts
ints_of_counts g disabled small zero i x = omega arith
ints_of_counts g disabled small (suc n) i zero =
    omega (arith, small i, enabled_count-le disabled (outs g i))
ints_of_counts g disabled small (suc n) i (suc x) = ints_of_counts g disabled small n (suc i) x

enabled_count-tally :
    (disabled : List Bool) (p : ℕ → Bool)
    → ((u : ℕ) → p u ≡ not (get_or disabled u false))
    → (ts : List ℕ) → enabled_count disabled ts ≡ tally p ts
unfolding enabled_count
enabled_count-tally disabled p h [] = refl
enabled_count-tally disabled p h (t ∷ ts) = ground (arith, h t, enabled_count-tally disabled p h ts)

-- For a game without a solution, with an entry for each vertex in the arrays of the solution and in
-- disabled, and less than 2 ^ 32 edges at a vertex, the constructor makes a state that is ready over
-- the graph of the game, in which the vertices that are not disabled are counted.
pub make-IsReady :
    (g : Game) (disabled : List Bool)
    → IsUnsolved g disabled
    → IsReady (graph_of g disabled) (make g disabled)
unfolding make UintQueue.make
make-IsReady g disabled u = record {
  over = record {
    owners = λ v. refl;
    preds = λ v h. refl;
    solved_size = u.solved_size;
    winner_size = u.winner_size;
    strategy_size = u.strategy_size;
    disabled_size = u.disabled_size;
    outcount_size = length-enabled_counts g disabled (vertexcount g) 0;
    room =
        omega (arith, unset-le g.solved, u.solved_size, length-replicate {A = ℕ} (vertexcount g) 0);
  };
  ints = ints_of_counts g disabled u.small (vertexcount g) 0;
  enabled = λ x h e. ap not e;
  count = λ x b f.
      get_or-enabled_counts g disabled (vertexcount g) 0 x b
      ∙ ap (λ k. enabled_count disabled (outs g k)) {x = 0 + x} {y = x} (omega arith)
      ∙ enabled_count-tally disabled (is_open (graph_of g disabled) (make g disabled))
          (λ v. ground (arith, u.unsolved v)) (outs g x);
  opposed = λ x v b f k c e. ground (arith, c, e, u.unsolved v);
  queued = λ v q. ground (arith, q);
  distinct = record {};
}

-- When all edges of a game lead to its vertices, its edge array has room for them and an end mark for
-- each vertex, and build_in_array builds the array of ingoing edges, the game has a graph: the
-- predecessors that flush walks over are the converse of the successors that the constructor counts.
pub build_in_array-IsGraph :
    (g : Game) (rebuild : Bool) (disabled : List Bool)
    → IsWired g
    → IsBuilding g rebuild
    → IsGraph (graph_of (build_in_array g rebuild) disabled)
unfolding outs vertexcount
build_in_array-IsGraph g rebuild disabled h make =
    subst (λ z. IsGraph (graph_of z disabled)) (sym (build_in_array_lem g rebuild make))
      (record {
        converse = λ x v k l. built_ins x v l ∙ ground (arith, k);
        in_range = λ x v l i. ground (arith, built_ins x v l, i);
      })
  where
    built_ins :
        (x v : ℕ)
        → v < g.n_vertices
        → occ x (ins (record g { inedges = some (built g) }) v)
          ≡ (if ltb x g.n_vertices then occ v (outs g x) else 0)
    built_ins x v l =
        ap (λ z. occ x (ins z v)) (sym (build_in_array_lem g rebuild make))
        ∙ ins-build_in_array g rebuild x v h make l
