-- ===== src/Text/RoundTrip.antt =====
-- `parse_pgsolver` on what `write_pgsolver` writes.
use urss.Base.{
  ℕ, zero, suc, ◌+◌, ◌-◌, ◌≤◌, ◌<◌, ◌≡◌, refl, subst, ◌∙◌, arith, Bool, true, false, List, [], ◌∷◌,
  ◌++◌, none, if◌then◌else◌, ltb, length, get_or, drop, replicate, length-replicate,
  get_or-replicate, get_or-take, Bool-cases, inl, inr,
}
use urss.Game.{Game, make, outs, owner_of, priority_of, realloc}
use urss.Game.Edges.{outs-Stored}
use urss.Game.Permute.{ordered_from}
use urss.Oink.{any_true}
use urss.Text.{decimal, digits, skip_whitespace, skip_from, sbumpc, sungetc}
use urss.Text.Write.{write_vertex, write_vertices, write_pgsolver, codes, endl}
use urss.Text.Parse.{
  done, parse_header, read_parity, skip_start, skip_to_semicolon, missing_number_of_nodes, unread,
  parse_pgsolver, int_max,
}
use urss.Text.Successors.{stream, number_or-space}
use urss.Text.Progress.{IsPrintable, IsRead}
use urss.Text.Vertices.{cut, parse_vertices_lem}

get_or-append :
    {A : Type 0} (xs ys : List A) (i : ℕ) (d : A)
    → i < length xs
    → get_or (xs ++ ys) i d ≡ get_or xs i d
get_or-append [] ys i d h = absurd (omega (arith, h))
get_or-append (x ∷ xs) ys zero d h = refl
get_or-append (x ∷ xs) ys (suc i) d h = get_or-append xs ys i d (omega (arith, h))

get_or-replicate_in : {A : Type 0} (n i : ℕ) (a d : A) → i < n → get_or (replicate n a) i d ≡ a
get_or-replicate_in zero i a d h = absurd (omega (arith, h))
get_or-replicate_in (suc n) zero a d h = refl
get_or-replicate_in (suc n) (suc i) a d h = get_or-replicate_in n i a d (omega (arith, h))

-- A shorter array keeps its entries.
get_or-realloc :
    {A : Type 0} (d : A) (n : ℕ) (xs : List A) (i : ℕ)
    → n ≤ length xs
    → get_or (realloc d n xs) i d ≡ (if ltb i n then get_or xs i d else d)
get_or-realloc d n xs i h = get_or-take n (xs ++ replicate n d) i d ∙ elim (Bool-cases (ltb i n)) [
  | inl e ↦ rw e (get_or-append xs (replicate n d) i d (ground (arith, e, h)))
  | inr e ↦ rw e refl
]

none_true : (xs : List Bool) → ((v : ℕ) → get_or xs v false ≡ false) → any_true xs ≡ false
unfolding any_true
none_true [] h = refl
none_true (x ∷ xs) h = rw (h 0) (none_true xs (λ v. h (suc v)))

-- The header, before the lines of at least one vertex.
header_before :
    (g : Game) (n k : ℕ)
    → n < int_max
    → (p : List ℕ) × (parse_header
          (codes "parity " ++ (decimal n ++ (codes ";" ++ (endl ++ write_vertices g (suc k) 0))))
        ≡ done (n, stream p (write_vertices g (suc k) 0)))
unfolding parse_header read_parity skip_start skip_to_semicolon skip_whitespace skip_from sbumpc
    sungetc write_vertices write_vertex decimal digits
header_before g n k small =
    let (p, r) =
      number_or-space missing_number_of_nodes (b'y' ∷ b't' ∷ b'i' ∷ b'r' ∷ b'a' ∷ b'p' ∷ [])
        (b'\n' ∷ write_vertices g (suc k) 0) n b';' (omega (arith, small)) refl in
    (b'\n' ∷ b';' ∷ p, rw r refl)

header_lem :
    (g : Game)
    → IsPrintable g
    → (p : List ℕ) × (parse_header (write_pgsolver g)
        ≡ done (g.n_vertices, stream p (write_vertices g g.n_vertices 0)))
unfolding write_pgsolver
header_lem g h =
    let e : suc (g.n_vertices - 1) ≡ g.n_vertices = omega (arith, h.some_vertex) in
    subst
      (λ m.
        (p : List ℕ) × (parse_header (
            codes "parity "
            ++ (decimal g.n_vertices ++ (codes ";" ++ (endl ++ write_vertices g m 0))))
          ≡ done (g.n_vertices, stream p (write_vertices g m 0))))
      e (header_before g g.n_vertices (g.n_vertices - 1) h.fits)

unread-IsRead : (g : Game) → IsRead g (unread g.n_vertices) 0
unfolding unread make
unread-IsRead g =
    let n = g.n_vertices + 1 in
    record {
      sized = record {
        vertices = length-replicate n 0;
        edges = length-replicate (n + 1 + 1) none;
        room = omega arith;
        grows = omega arith;
      };
      vertices = refl;
      allocated = refl;
      solved_size = length-replicate n true;
      priority_size = length-replicate n 0;
      owner_size = length-replicate n false;
      label_size = length-replicate n none;
      old = λ v l. absurd (omega (arith, l));
      new = λ v l m. get_or-replicate_in n v true false (omega (arith, m));
      even = λ v l. get_or-replicate n false v;
      priority = λ v l. absurd (omega (arith, l));
      owner = λ v l. absurd (omega (arith, l));
      label = λ v l. absurd (omega (arith, l));
      edges = λ v l. absurd (omega (arith, l));
    }

-- The parser, without bad loops removed, reads back what write_pgsolver writes for a game with at least
-- one vertex and fewer than 2 ^ 31 - 1, with an edge from each vertex and edges only to its vertices,
-- with priorities of at most 2 ^ 31 - 1 and without labels: it returns a game with the same vertices,
-- priorities, owners, outgoing edges in their order, and no labels.
pub parse_pgsolver-write_pgsolver :
    (g : Game)
    → IsPrintable g
    → (h : Game) × (parse_pgsolver false (write_pgsolver g) ≡ done h)
      × (h.n_vertices ≡ g.n_vertices)
      × ((v : ℕ)
          → v < g.n_vertices
          → (priority_of h v ≡ priority_of g v)
            × (owner_of h v ≡ owner_of g v)
            × (outs h v ≡ outs g v)
            × (get_or h.label v none ≡ none))
unfolding parse_pgsolver outs
parse_pgsolver-write_pgsolver g p =
    let n = g.n_vertices in
    let (past, header) = header_lem g p in
    let size : n + 1 ≡ suc n = omega arith in
    let (f, lines, r) =
      parse_vertices_lem g (unread n) n 0 past p (unread-IsRead g) (omega arith) in
    let all_read : any_true (realloc false n f.solved) ≡ false =
      none_true (realloc false n f.solved) (λ v.
        get_or-realloc false n f.solved v (omega (arith, r.solved_size))
        ∙ ground (arith, r.old v)) in
    (
      record (cut f n) {
        is_ordered = ordered_from f.priority (n - 1) 1;
        strategy = replicate n none ++ drop n f.strategy;
      },
      rw (header, size, lines, all_read) refl,
      refl,
      λ v small.
          let inside : ltb v n ≡ true = ground (arith, small) in
          (
            r.priority v small,
            get_or-realloc false n f.owner v (omega (arith, r.owner_size))
                ∙ rw inside (r.owner v small),
            outs-Stored (r.edges v small),
            r.label v small,
          ),
    )
