-- ===== src/Text/Vertices.antt =====
-- The lines of `write_pgsolver`, read by the loop of the parser.
use urss.Base.{
  ℕ, zero, suc, ◌+◌, ◌-◌, ◌≤◌, ◌<◌, ◌≡◌, refl, sym, subst, ap, ◌∙◌, arith, true, false, List, [],
  ◌∷◌, ◌++◌, some, ◌==◌, leb,
}
use urss.Game.{Game, outs, owner_of, priority_of, v_resize, grow_until, realloc}
use urss.Game.Ins.Count.{Below}
use urss.Game.VecFinish.{one_vertex}
use urss.Text.{decimal, skip_whitespace, skip_from, read_uint64}
use urss.Text.Write.{write_vertex, write_vertices}
use urss.Text.Parse.{done, parse_vertex, vertex_or_end, parse_vertices}
use urss.Text.Numbers.{read_uint64-decimal}
use urss.Text.Successors.{stream}
use urss.Text.Vertex.{prepared, bit, tail_text, write_vertex_lem, parse_vertex_lem}
use urss.Text.Progress.{IsPrintable, IsRead, Below-more, next, next-IsRead}

-- A line is read.
read_line :
    (g h : Game) (i : ℕ) (past rest : List ℕ)
    → IsPrintable g
    → IsRead g h i
    → i < g.n_vertices
    → (q r : List ℕ) × (read_uint64 (skip_whitespace (stream past (write_vertex g i ++ rest)))
        ≡ (some i, stream q r))
      × ((q' : List ℕ) × (parse_vertex false h i (stream q r)
            ≡ done (
              one_vertex (prepared h i (priority_of g i) (owner_of g i)) i (outs g i),
              stream q' (b'\n' ∷ rest),
            )))
read_line g h i past rest p r small =
    let (t, ts, e) = p.moves i small in
    let behind : List ℕ =
      decimal (priority_of g i)
      ++ b' ' ∷ (decimal (bit (owner_of g i)) ++ b' ' ∷ tail_text t ts rest) in
    let (q, number) = read_uint64-decimal past behind i b' ' (omega (arith, small, p.fits)) refl in
    let (q', line) =
      parse_vertex_lem h i (priority_of g i) (owner_of g i) t ts q rest
        (omega (arith, small, r.vertices)) (omega (arith, r.vertices, p.fits))
        (r.new i (omega arith) (omega (arith, small))) (p.low i small)
        (Below-more g.n_vertices h.n_vertices (t ∷ ts) (omega (arith, r.vertices))
          (subst (Below g.n_vertices) e (p.below i small))) in
    (
      q,
      b' ' ∷ behind,
      rw (write_vertex_lem g i t ts rest e (p.plain i small)) number,
      (
        q',
        subst
            (λ xs.
              parse_vertex false h i (stream q (b' ' ∷ behind))
              ≡ done (
                one_vertex (prepared h i (priority_of g i) (owner_of g i)) i xs,
                stream q' (b'\n' ∷ rest),
              ))
            (sym e) line,
      ),
    )

-- The blank before a line is passed over.
parse_vertices_newline :
    (missing node_count : ℕ) (h : Game) (past ahead : List ℕ)
    → parse_vertices false (suc missing) node_count h (stream past (b'\n' ∷ ahead))
      ≡ parse_vertices false (suc missing) node_count h (stream (b'\n' ∷ past) ahead)
unfolding parse_vertices skip_whitespace skip_from
parse_vertices_newline missing node_count h past ahead = refl

-- The game without the vertex that was not read.
abbrev pub cut : Game → ℕ → Game
cut h n = record h {
  n_vertices = n;
  owner = realloc false n h.owner;
  solved = realloc false n h.solved;
  winner = realloc false n h.winner;
}

v_resize_lem : (h : Game) (n : ℕ) → n ≤ h.v_allocated → v_resize 0 h n ≡ some (cut h n)
unfolding v_resize grow_until
v_resize_lem h n fits = let wide : leb n h.v_allocated ≡ true = ground (arith, fits) in rw wide refl

-- At the end of the text the last vertex is missing.
read_end :
    (h : Game) (i : ℕ) (past : List ℕ)
    → i ≡ h.n_vertices - 1
    → i ≤ h.v_allocated
    → parse_vertices false 1 i h (stream past []) ≡ done (cut h i)
unfolding parse_vertices read_uint64 skip_whitespace skip_from vertex_or_end
read_end h i past e fits =
    let last : (i == h.n_vertices - 1) ≡ true = ground (arith, e) in
    rw (vertex_or_end, last, v_resize_lem h i fits) refl

-- The loop goes on behind a line that was read.
read_on :
    (missing i : ℕ) (h f : Game) (past text q r q' rest : List ℕ)
    → read_uint64 (skip_whitespace (stream past text)) ≡ (some i, stream q r)
    → parse_vertex false h i (stream q r) ≡ done (f, stream q' rest)
    → parse_vertices false (suc missing) i h (stream past text)
      ≡ parse_vertices false missing (i + 1) f (stream q' rest)
unfolding parse_vertices vertex_or_end
read_on missing i h f past text q r q' rest number line =
    ap (vertex_or_end (parse_vertices false missing) false i h) number ∙ rw line refl

pub parse_vertices_lem :
    (g h : Game) (k i : ℕ) (past : List ℕ)
    → IsPrintable g
    → IsRead g h i
    → k + i ≡ g.n_vertices
    → (f : Game) × (parse_vertices false (suc k) i h (stream past (write_vertices g k i))
        ≡ done (cut f g.n_vertices))
      × IsRead g f g.n_vertices
unfolding parse_vertices write_vertices
parse_vertices_lem g h zero i past p r e =
    let here : i ≡ g.n_vertices = omega (arith, e) in
    (
      h,
      subst (λ n. parse_vertices false 1 i h (stream past []) ≡ done (cut h n)) here
          (read_end h i past (omega (arith, here, r.vertices)) (omega (arith, here, r.allocated))),
      subst (IsRead g h) here r,
    )
parse_vertices_lem g h (suc k) i past p r e =
    let small : i < g.n_vertices = omega (arith, e) in
    let text = write_vertices g k (suc i) in
    let (q, ahead, number, (q', line)) = read_line g h i past text p r small in
    let f = next g h i r small in
    let (last, rest, done_last) =
      parse_vertices_lem g f k (suc i) (b'\n' ∷ q') p (next-IsRead g h i r small)
        (omega (arith, e)) in
    let count : i + 1 ≡ suc i = omega arith in
    (
      last,
      read_on (suc k) i h f past (write_vertex g i ++ text) q ahead q' (b'\n' ∷ text) number line
          ∙ rw count (parse_vertices_newline k (suc i) f q' text ∙ rest),
      done_last,
    )
