-- ===== src/Text/Vertex.antt =====
-- One line of `write_pgsolver`, read by `parse_vertex`.
use mathlib.Core.List.{append_assoc}
use urss.Base.{
  ℕ, suc, ◌+◌, ◌≤◌, ◌<◌, ◌≡◌, refl, sym, subst, ◌∙◌, arith, Bool, true, false, List, [], ◌∷◌, ◌++◌,
  none, if◌then◌else◌, ltb, leb, length, length-append, get_or, set,
}
use urss.Game.{Game, e_start, add_edges, outs, owner_of, priority_of}
use urss.Game.Ins.Count.{Below}
use urss.Game.VecFinish.{one_vertex}
use urss.Text.{decimal, digits, uint64_mod, skip_whitespace, skip_from}
use urss.Text.Write.{bit_text, write_edges, write_label, write_vertex}
use urss.Text.Parse.{
  done, number_or, parse_successors, parse_vertex, parse_owner, int_max, missing_priority,
  missing_owner,
}
use urss.Text.Frame.{e_start-KeepsVertices}
use urss.Text.Successors.{stream, number_or-space, parse_successors_lem}

abbrev pub bit : Bool → ℕ
bit b = if b then 1 else 0

bit_text_lem : (b : Bool) → bit_text b ≡ decimal (bit b)
unfolding decimal digits
bit_text_lem true = refl
bit_text_lem false = refl

-- The successors and the end of a line.
abbrev pub tail_text : ℕ → List ℕ → List ℕ → List ℕ
tail_text t ts rest = decimal t ++ (write_edges false ts ++ b';' ∷ (b'\n' ∷ rest))

-- A line behind the number of its vertex.
abbrev pub line_text : ℕ → Bool → ℕ → List ℕ → List ℕ → List ℕ
line_text p o t ts rest =
    b' ' ∷ (decimal p ++ b' ' ∷ (decimal (bit o) ++ b' ' ∷ tail_text t ts rest))

pub write_vertex_lem :
    (g : Game) (i t : ℕ) (ts rest : List ℕ)
    → outs g i ≡ t ∷ ts
    → get_or g.label i none ≡ none
    → write_vertex g i ++ rest ≡ decimal i ++ line_text (priority_of g i) (owner_of g i) t ts rest
unfolding write_vertex write_edges write_label
write_vertex_lem g i t ts rest e l = rw (e, l, bit_text_lem (owner_of g i)) (simp append_assoc)

length-write_edges : (ts : List ℕ) → length ts ≤ length (write_edges false ts)
unfolding write_edges
length-write_edges [] = omega arith
length-write_edges (t ∷ ts) =
    omega (arith, length-append (decimal t) (write_edges false ts), length-write_edges ts)

-- A blank before the first successor is passed over.
parse_successors_space :
    (fuel id : ℕ) (past ahead : List ℕ) (g : Game) (has_self : Bool) (count : ℕ)
    → parse_successors (suc fuel) false id (record {
      game = g;
      stream = stream past (b' ' ∷ ahead);
      has_self = has_self;
      count = count;
    })
      ≡ parse_successors (suc fuel) false id (record {
        game = g;
        stream = stream (b' ' ∷ past) ahead;
        has_self = has_self;
        count = count;
      })
unfolding parse_successors number_or skip_whitespace skip_from
parse_successors_space fuel id past ahead g has_self count = refl

-- The vertex is marked as read, with its priority and owner and without a label.
abbrev pub prepared : Game → ℕ → ℕ → Bool → Game
prepared g id p o = record g {
  solved = set g.solved id false;
  priority = set g.priority id p;
  owner = if o then set g.owner id true else g.owner;
  label = set g.label id none;
}

parse_owner_lem :
    (g : Game) (id : ℕ) (o : Bool)
    → parse_owner g id (bit o)
      ≡ done (record g { owner = if o then set g.owner id true else g.owner })
unfolding parse_owner
parse_owner_lem g id true = refl
parse_owner_lem g id false = refl

pub parse_vertex_lem :
    (g : Game) (id p : ℕ) (o : Bool) (t : ℕ) (ts past rest : List ℕ)
    → id < g.n_vertices
    → g.n_vertices ≤ uint64_mod
    → get_or g.solved id false ≡ true
    → p ≤ int_max
    → Below g.n_vertices (t ∷ ts)
    → (q : List ℕ) × (parse_vertex false g id (stream past (line_text p o t ts rest))
        ≡ done (one_vertex (prepared g id p o) id (t ∷ ts), stream q (b'\n' ∷ rest)))
unfolding parse_vertex
parse_vertex_lem g id p o t ts past rest small fits new low below =
    let in_range : ltb id g.n_vertices ≡ true = ground (arith, small) in
    let low_enough : leb p int_max ≡ true = ground (arith, low) in
    let (q1, r1) =
      number_or-space missing_priority past (decimal (bit o) ++ b' ' ∷ tail_text t ts rest) p b' '
        (omega (arith, low)) refl in
    let bit_small : bit o < uint64_mod = ground arith in
    let (q2, r2) =
      number_or-space missing_owner q1 (tail_text t ts rest) (bit o) b' ' bit_small refl in
    let start = e_start (prepared g id p o) id in
    let same = (e_start-KeepsVertices (prepared g id p o) id).same_vertices in
    let tail = tail_text t ts rest in
    let fuel : ℕ = length (b' ' ∷ tail) in
    let more : fuel + 1 ≡ suc fuel = omega arith in
    let enough : length ts < suc fuel = omega (
      arith,
      length-write_edges ts,
      length-append (decimal t) (write_edges false ts ++ b';' ∷ (b'\n' ∷ rest)),
      length-append (write_edges false ts) (b';' ∷ (b'\n' ∷ rest)),
    ) in
    let (q3, k, r3) =
      parse_successors_lem (suc fuel) id t ts (b' ' ∷ q2) (b'\n' ∷ rest) start false 0 enough
        (omega (arith, same, fits)) (subst (λ n. Below n (t ∷ ts)) (sym same) below) in
    let r4 : parse_successors (fuel + 1) false id
          (record { game = start; stream = stream q2 (b' ' ∷ tail); has_self = false; count = 0 })
        ≡ done (record {
          game = add_edges start id (t ∷ ts);
          stream = stream q3 (b'\n' ∷ rest);
          has_self = false;
          count = k;
        }) =
      rw more (parse_successors_space fuel id q2 tail start false 0 ∙ r3) in
    (
      q3,
      rw
          (
            in_range,
            new,
            r1,
            low_enough,
            r2,
            parse_owner_lem
                (record g { solved = set g.solved id false; priority = set g.priority id p }) id o,
            r4,
          )
          refl,
    )
