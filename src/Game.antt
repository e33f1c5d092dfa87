-- ===== src/Game.antt =====
-- Parity games: the class `Game` of oink/src/game.hpp and oink/src/game.cpp.
-- An `int` that may be -1 is an `Option ℕ`, with `none` for -1; a `bitset` is the list of its bits,
-- which is how `Bitset` shows that it behaves. A read outside an array gives a default, a write
-- outside changes nothing, and an entry that is not initialised is 0, `none` or `false`.
pub mod Relabel
pub mod Edges
pub mod VecFinish
pub mod Ins
pub mod Permute
pub mod Subgame
pub mod Copy
pub mod Lookup
use mathlib.Core.Option
use urss.Base.{
  ℕ, zero, suc, ◌+◌, ◌-◌, ◌*◌, ◌/◌, Bool, true, false, not, ◌&&◌, List, [], ◌∷◌, ◌++◌, Option, none,
  some, if◌then◌else◌, ◌==◌, ltb, leb, length, get_or, set, take, drop, replicate,
}

-- The arrays that `build_in_array` makes.
pub record InArray : Type 0 where
  pub edges : List (Option ℕ)
  pub firstins : List ℕ
  pub incount : List ℕ

-- A label is a text as the list of its characters; `none` is the NULL pointer.
pub record Game : Type 0 where
  pub n_vertices : ℕ
  pub n_edges : ℕ
  pub priority : List ℕ
  pub owner : List Bool
  pub label : List (Option (List ℕ))
  pub outedges : List (Option ℕ)
  pub firstouts : List ℕ
  pub outcount : List ℕ
  pub inedges : Option InArray
  pub outvec : Option (List (List ℕ))
  pub is_ordered : Bool
  pub v_allocated : ℕ
  pub e_allocated : ℕ
  pub e_size : ℕ
  pub solved : List Bool
  pub winner : List Bool
  pub strategy : List (Option ℕ)

-- Game(). The seed of the random generator is not part of the model.
abbrev pub no_game : Game
no_game = record {
  n_vertices = 0;
  n_edges = 0;
  priority = [];
  owner = [];
  label = [];
  outedges = [];
  firstouts = [];
  outcount = [];
  inedges = none;
  outvec = none;
  is_ordered = true;
  v_allocated = 0;
  e_allocated = 0;
  e_size = 0;
  solved = [];
  winner = [];
  strategy = [];
}

-- Game(int vcount, int ecount); `ecount` is `none` for -1.
unfoldable pub make : ℕ → Option ℕ → Game
make vcount ecount =
    let edges = Option.get_or ecount (4 * vcount) in
    record {
      n_vertices = vcount;
      n_edges = 0;
      priority = replicate vcount 0;
      owner = replicate vcount false;
      label = replicate vcount none;
      outedges = replicate (vcount + edges + 1) none;
      firstouts = replicate vcount 0;
      outcount = replicate vcount 0;
      inedges = none;
      outvec = none;
      is_ordered = true;
      v_allocated = vcount;
      e_allocated = vcount + edges + 1;
      e_size = 1;
      solved = replicate vcount false;
      winner = replicate vcount false;
      strategy = replicate vcount none;
    }

unfoldable pub init_game : Game → ℕ → Game
init_game g count = make count none

unfoldable pub vertexcount : Game → ℕ
vertexcount g = g.n_vertices

abbrev pub priority_of : Game → ℕ → ℕ
priority_of g v = get_or g.priority v 0

abbrev pub owner_of : Game → ℕ → Bool
owner_of g v = get_or g.owner v false

-- set_priority: the flag is only ever cleared here, and only the vertex before is looked at.
unfoldable pub set_priority : Game → ℕ → ℕ → Game
set_priority g node p =
    let ps = set g.priority node p in
    record g {
      priority = ps;
      is_ordered =
          if g.is_ordered
          then not (ltb 0 node && ltb (get_or ps node 0) (get_or ps (node - 1) 0))
          else false;
    }

-- `owner` is an `int`: zero is Even and all else is Odd.
unfoldable pub set_owner : Game → ℕ → ℕ → Game
set_owner g node o = record g { owner = set g.owner node (not (o == 0)) }

-- `label != ""`
unfoldable pub set_label : Game → ℕ → List ℕ → Game
set_label g node [] = record g { label = set g.label node none }
set_label g node (c ∷ cs) = record g { label = set g.label node (some (c ∷ cs)) }

-- realloc: an array is cut or extended to a size.
abbrev pub realloc {ℓ} : {A : Type ℓ} → A → ℕ → List A → List A
realloc d n xs = take n (xs ++ replicate n d)

unfoldable pub e_sizeup : Game → Game
e_sizeup g =
    let size = g.e_allocated + g.e_allocated / 2 in
    record g { e_allocated = size; outedges = realloc none size g.outedges }

unfoldable pub v_sizeup : Game → Game
v_sizeup g =
    let size = g.v_allocated + g.v_allocated / 2 in
    record g {
      v_allocated = size;
      n_vertices = size;
      priority = realloc 0 size g.priority;
      strategy = realloc none size g.strategy;
      firstouts = realloc 0 size g.firstouts;
      outcount = realloc 0 size g.outcount;
      label = realloc none size g.label;
      owner = realloc false size g.owner;
      solved = realloc false size g.solved;
      winner = realloc false size g.winner;
    }

-- while (limit(g) <= n) v_sizeup(), with fuel; `none` means that the fuel ran out.
unfoldable pub grow_until : ℕ → (Game → ℕ) → ℕ → Game → Option Game
grow_until zero limit n g = if leb n (limit g) then some g else none
grow_until (suc fuel) limit n g =
    let rest = grow_until fuel limit n (v_sizeup g) in if leb n (limit g) then some g else rest

unfoldable pub init_vertex : ℕ → Game → ℕ → ℕ → ℕ → List ℕ → Option Game
init_vertex fuel g v p o text =
    Option.map
      (λ h.
        let named = set_owner (set_priority h v p) v o in
        set_label (record named { label = set named.label v none }) v text)
      (grow_until fuel (λ h. h.n_vertices) (v + 1) g)

unfoldable pub v_resize : ℕ → Game → ℕ → Option Game
v_resize fuel g newsize =
    Option.map {A = Game}
      (λ h. record h {
        n_vertices = newsize;
        owner = realloc false newsize h.owner;
        solved = realloc false newsize h.solved;
        winner = realloc false newsize h.winner;
      })
      (grow_until fuel (λ h. h.v_allocated) newsize g)

unfoldable pub e_start : Game → ℕ → Game
e_start g source = record g {
  firstouts = set g.firstouts source g.e_size;
  outcount = set g.outcount source 0;
}

-- The room for one more entry of the edge array.
unfoldable pub ensure_edge : Game → Game
ensure_edge g = if g.e_size == g.e_allocated then e_sizeup g else g

unfoldable pub e_add : Game → ℕ → ℕ → Game
e_add g source target =
    let h = ensure_edge g in
    record h {
      outedges = set h.outedges h.e_size (some target);
      e_size = h.e_size + 1;
      outcount = set h.outcount source (get_or h.outcount source 0 + 1);
      n_edges = h.n_edges + 1;
    }

unfoldable pub e_finish : Game → Game
e_finish g =
    let h = ensure_edge g in
    record h { outedges = set h.outedges h.e_size none; e_size = h.e_size + 1 }

-- The entries that a loop `for (curedge = ...; *curedge != -1; curedge++)` visits.
unfoldable pub until_end : List (Option ℕ) → List ℕ
until_end [] = []
until_end (none ∷ es) = []
until_end (some to ∷ es) = to ∷ until_end es

unfoldable pub outs : Game → ℕ → List ℕ
outs g v = until_end (drop (get_or g.firstouts v 0) g.outedges)

-- The loop of `find_edge` from index `idx` on.
unfoldable pub find_target : ℕ → ℕ → List (Option ℕ) → Option ℕ
find_target to idx [] = none
find_target to idx (none ∷ es) = none
find_target to idx (some t ∷ es) = if t == to then some idx else find_target to (suc idx) es

unfoldable pub find_edge : Game → ℕ → ℕ → Option ℕ
find_edge g from to =
    let first = get_or g.firstouts from 0 in find_target to first (drop first g.outedges)

unfoldable pub has_edge : Game → ℕ → ℕ → Bool
has_edge g from to = elim (find_edge g from to) [ none ↦ false | some idx ↦ true ]

-- std::find
pub contains : ℕ → List ℕ → Bool
contains to [] = false
contains to (t ∷ ts) = if t == to then true else contains to ts

-- std::remove, with the erasure of the tail
pub remove : ℕ → List ℕ → List ℕ
remove to [] = []
remove to (t ∷ ts) = let rest = remove to ts in if t == to then rest else t ∷ rest

-- The vectors for vertices i, i + 1, ..., n of them.
pub edge_vectors : Game → ℕ → ℕ → List (List ℕ)
edge_vectors g zero i = []
edge_vectors g (suc n) i = outs g i ∷ edge_vectors g n (suc i)

unfoldable pub vec_init : Game → Game
vec_init g = record g { outvec = some (edge_vectors g g.n_vertices 0) }

abbrev pub vectors : Game → List (List ℕ)
vectors g = Option.get_or g.outvec []

abbrev pub outvec_of : Game → ℕ → List ℕ
outvec_of g v = get_or (vectors g) v []

unfoldable pub vec_has_edge : Game → ℕ → ℕ → Bool
vec_has_edge g from to = contains to (outvec_of g from)

unfoldable pub vec_add_edge : Game → ℕ → ℕ → Game × Bool
vec_add_edge g from to =
    if not (vec_has_edge g from to)
    then (record g { outvec = some (set (vectors g) from (outvec_of g from ++ to ∷ [])) }, true)
    else (g, false)

unfoldable pub vec_remove_edge : Game → ℕ → ℕ → Game × Bool
vec_remove_edge g from to =
    if vec_has_edge g from to
    then (record g { outvec = some (set (vectors g) from (remove to (outvec_of g from))) }, true)
    else (g, false)

-- for (int to : _outvec[v]) e_add(v, to)
unfoldable pub add_edges : Game → ℕ → List ℕ → Game
add_edges g v [] = g
add_edges g v (to ∷ ts) = add_edges (e_add g v to) v ts

pub finish_from : Game → ℕ → List (List ℕ) → Game
finish_from g v [] = g
finish_from g v (ts ∷ rest) = finish_from (e_finish (add_edges (e_start g v) v ts)) (suc v) rest

unfoldable pub vec_finish : Game → Game
vec_finish g =
    let h = finish_from (record g { e_size = 0; n_edges = 0 }) 0 (vectors g) in
    record h { outvec = none }

unfoldable pub reset_solution : Game → Game
reset_solution g = record g {
  solved = replicate (length g.solved) false;
  winner = replicate (length g.winner) false;
  strategy = replicate (length g.strategy) none;
}

unfoldable pub copy_solution : Game → Game → Game
copy_solution g other = record g {
  solved = other.solved;
  winner = other.winner;
  strategy = other.strategy;
}

-- count() of a bitset
pub count_true : List Bool → ℕ
count_true [] = 0
count_true (b ∷ bs) = (if b then 1 else 0) + count_true bs

unfoldable pub game_solved : Game → Bool
game_solved g = g.n_vertices == count_true g.solved

unfoldable pub count_unsolved : Game → ℕ
count_unsolved g = g.n_vertices - count_true g.solved
