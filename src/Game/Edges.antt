-- ===== src/Game/Edges.antt =====
-- Building the edge array: `e_start`, `e_add`, `e_finish`, and `vec_finish`, which uses them.
use urss.Base.{
  ℕ, zero, suc, ◌+◌, ◌/◌, ◌≤◌, ◌<◌, ◌≡◌, ◌∙◌, refl, sym, ap, ap₂, arith, List, [], ◌∷◌, ◌++◌,
  Option, none, some, ◌==◌, length, get_or, set, take, drop, replicate, length-append, length-set,
  take-append-drop, length-take, length-replicate, map, Bool-cases, inl, inr,
}
use mathlib.Core.List.{append_assoc, append-nil}
use urss.Game.{Game, realloc, e_sizeup, ensure_edge, e_add, e_finish, until_end, outs, add_edges}

-- The arrays have the sizes that the counters say, and the edge array can grow.
pub record IsSized (g : Game) : Type 0 where
  pub vertices : length g.firstouts ≡ g.n_vertices
  pub edges : length g.outedges ≡ g.e_allocated
  pub room : g.e_size ≤ g.e_allocated
  pub grows : 2 ≤ g.e_allocated

-- The entries in use.
abbrev pub written : Game → List (Option ℕ)
written g = take g.e_size g.outedges

take-append : {A : Type 0} (n : ℕ) (xs ys : List A) → n ≤ length xs → take n (xs ++ ys) ≡ take n xs
take-append zero xs ys h = refl
take-append (suc n) [] ys h = absurd (omega arith)
take-append (suc n) (x ∷ xs) ys h = ap (x ∷◌) (take-append n xs ys (omega arith))

take-take : {A : Type 0} (n m : ℕ) (xs : List A) → n ≤ m → take n (take m xs) ≡ take n xs
take-take zero m xs h = refl
take-take (suc n) zero xs h = absurd (omega arith)
take-take (suc n) (suc m) [] h = refl
take-take (suc n) (suc m) (x ∷ xs) h = ap (x ∷◌) (take-take n m xs (omega arith))

-- Writing just past a prefix extends it.
take-set :
    {A : Type 0} (n : ℕ) (xs : List A) (a : A)
    → n < length xs
    → take (suc n) (set xs n a) ≡ take n xs ++ a ∷ []
take-set n [] a h = absurd (omega arith)
take-set zero (x ∷ xs) a h = refl
take-set (suc n) (x ∷ xs) a h = ap (x ∷◌) (take-set n xs a (omega arith))

length-realloc : {A : Type 0} (d : A) (n : ℕ) (xs : List A) → length (realloc d n xs) ≡ n
length-realloc d n xs = omega (
  arith,
  length-take n (xs ++ replicate n d),
  length-append xs (replicate n d),
  length-replicate n d,
)

-- What `ensure_edge` gives: room for an entry, and the same entries in use.
record Ensures (g h : Game) : Type 0 where
  pub sized : IsSized h
  free : h.e_size < h.e_allocated
  same_size : h.e_size ≡ g.e_size
  same_written : written h ≡ written g
  pub same_firstouts : h.firstouts ≡ g.firstouts
  same_outcount : h.outcount ≡ g.outcount
  same_edges : h.n_edges ≡ g.n_edges
  pub same_vertices : h.n_vertices ≡ g.n_vertices

ensure_edge_lem : {g : Game} → IsSized g → Ensures g (ensure_edge g)
unfolding ensure_edge e_sizeup
ensure_edge_lem {g} s = elim (Bool-cases (g.e_size == g.e_allocated)) [
  | inl full ↦
      let size = g.e_allocated + g.e_allocated / 2 in
      let more = length-realloc none size g.outedges in
      let same =
        take-take g.e_size size (g.outedges ++ replicate size none) (omega (arith, s.room))
        ∙ take-append g.e_size g.outedges (replicate size none) (omega (arith, s.room, s.edges)) in
      rw full (record {
        sized = record {
          vertices = s.vertices;
          edges = more;
          room = omega (arith, s.room);
          grows = omega (arith, s.grows);
        };
        free = ground (arith, s.grows);
        same_size = refl;
        same_written = same;
        same_firstouts = refl;
        same_outcount = refl;
        same_edges = refl;
        same_vertices = refl;
      })
  | inr free ↦ rw free (record {
    sized = s;
    free = ground (arith, s.room);
    same_size = refl;
    same_written = refl;
    same_firstouts = refl;
    same_outcount = refl;
    same_edges = refl;
    same_vertices = refl;
  })
]

-- What it is to append one entry.
pub record Appends (g h : Game) (entry : Option ℕ) : Type 0 where
  pub sized : IsSized h
  pub appended : written h ≡ written g ++ entry ∷ []
  pub same_firstouts : h.firstouts ≡ g.firstouts
  pub same_vertices : h.n_vertices ≡ g.n_vertices

-- The entry is put in the first free place.
module _ (h : Game) (entry : Option ℕ) (s : IsSized h) (free : h.e_size < h.e_allocated) where
  put_written : take (h.e_size + 1) (set h.outedges h.e_size entry) ≡ written h ++ entry ∷ []
  put_written =
      ap (λ n. take n (set h.outedges h.e_size entry)) {y = suc h.e_size} (omega arith)
      ∙ take-set h.e_size h.outedges entry (omega (arith, s.edges))

  put_length : length (set h.outedges h.e_size entry) ≡ h.e_allocated
  put_length = length-set h.outedges h.e_size entry ∙ s.edges

e_add-Appends :
    (g : Game) (source target : ℕ) → IsSized g → Appends g (e_add g source target) (some target)
unfolding e_add
e_add-Appends g source target s =
    let e = ensure_edge_lem s in
    let h = ensure_edge g in
    record {
      sized = record {
        vertices = e.sized.vertices;
        edges = put_length h (some target) e.sized e.free;
        room = omega (arith, e.free);
        grows = e.sized.grows;
      };
      appended =
          put_written h (some target) e.sized e.free
          ∙ ap (λ w. w ++ some target ∷ []) e.same_written;
      same_firstouts = e.same_firstouts;
      same_vertices = e.same_vertices;
    }

pub e_finish-Appends : (g : Game) → IsSized g → Appends g (e_finish g) none
unfolding e_finish
e_finish-Appends g s =
    let e = ensure_edge_lem s in
    let h = ensure_edge g in
    record {
      sized = record {
        vertices = e.sized.vertices;
        edges = put_length h none e.sized e.free;
        room = omega (arith, e.free);
        grows = e.sized.grows;
      };
      appended = put_written h none e.sized e.free ∙ ap (λ w. w ++ none ∷ []) e.same_written;
      same_firstouts = e.same_firstouts;
      same_vertices = e.same_vertices;
    }

-- The edges of a vertex are appended in order, with the end mark.
pub record Extends (g h : Game) (entries : List (Option ℕ)) : Type 0 where
  pub sized : IsSized h
  pub extended : written h ≡ written g ++ entries
  pub same_firstouts : h.firstouts ≡ g.firstouts
  pub same_vertices : h.n_vertices ≡ g.n_vertices

pub add_edges-Extends :
    (g : Game) (v : ℕ) (ts : List ℕ) → IsSized g → Extends g (add_edges g v ts) (map some ts)
unfolding add_edges
add_edges-Extends g v [] s = record {
  sized = s;
  extended = sym (append-nil (written g));
  same_firstouts = refl;
  same_vertices = refl;
}
add_edges-Extends g v (to ∷ ts) s =
    let one = e_add-Appends g v to s in
    let rest = add_edges-Extends (e_add g v to) v ts one.sized in
    record {
      sized = rest.sized;
      extended =
          rest.extended
          ∙ ap (λ w. w ++ map some ts) one.appended
          ∙ append_assoc (written g) (some to ∷ []) (map some ts);
      same_firstouts = rest.same_firstouts ∙ one.same_firstouts;
      same_vertices = rest.same_vertices ∙ one.same_vertices;
    }

-- The edges of `u` lie in the array, from the index that is recorded for it.
pub record Stored (g : Game) (u : ℕ) (ts : List ℕ) : Type 0 where
  pub before : List (Option ℕ)
  pub after : List (Option ℕ)
  pub split : written g ≡ before ++ (map some ts ++ none ∷ after)
  pub start : get_or g.firstouts u 0 ≡ length before

until_end-map : (ts : List ℕ) (es : List (Option ℕ)) → until_end (map some ts ++ none ∷ es) ≡ ts
unfolding until_end
until_end-map [] es = refl
until_end-map (t ∷ ts) es = ap (t ∷◌) (until_end-map ts es)

drop-append : {A : Type 0} (xs ys : List A) → drop (length xs) (xs ++ ys) ≡ ys
drop-append [] ys = refl
drop-append (x ∷ xs) ys = drop-append xs ys

pub outs-Stored : {g : Game} {u : ℕ} {ts : List ℕ} → Stored g u ts → outs g u ≡ ts
unfolding outs
outs-Stored {g} {u} {ts} s =
    let rest = drop g.e_size g.outedges in
    let whole : g.outedges ≡ s.before ++ (map some ts ++ none ∷ (s.after ++ rest)) =
      sym (take-append-drop g.e_size g.outedges)
      ∙ ap (λ w. w ++ rest) s.split
      ∙ append_assoc s.before (map some ts ++ none ∷ s.after) rest
      ∙ ap (λ w. s.before ++ w) (append_assoc (map some ts) (none ∷ s.after) rest) in
    ap₂ (λ k w. until_end (drop k w)) s.start whole
    ∙ ap until_end (drop-append s.before (map some ts ++ none ∷ (s.after ++ rest)))
    ∙ until_end-map ts (s.after ++ rest)
