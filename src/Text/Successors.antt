-- ===== src/Text/Successors.antt =====
-- The successors that `write_pgsolver` writes are read by the loop of the parser.
use mathlib.Core.List.{append_assoc}
use urss.Base.{
  ℕ, zero, suc, ◌+◌, ◌≤◌, ◌<◌, ◌≡◌, refl, sym, subst, ap, ◌∙◌, arith, Bool, true, false, List, [],
  ◌∷◌, ◌++◌, Option, none, some, ltb, length,
}
use urss.Game.{Game, e_add, add_edges}
use urss.Game.Ins.Count.{Below}
use urss.Text.{
  Stream, skip_whitespace, skip_from, get_char, take_char, is_white, is_space, is_digit, decimal,
  uint64_mod,
}
use urss.Text.Write.{write_edges}
use urss.Text.Parse.{
  after_successor, Error, Parsed, done, throws, Line, number_or, char_or, is_bad_loop,
  add_successor, parse_successors, missing_successor, missing_end_of_line,
}
use urss.Text.Numbers.{read_uint64-decimal}
use urss.Text.Frame.{e_add-KeepsVertices}

-- A stream that has not failed.
abbrev pub stream : List ℕ → List ℕ → Stream
stream past ahead = record { past = past; ahead = ahead; failed = false }

pub number_or-decimal :
    (e : Error) (past rest : List ℕ) (n c : ℕ)
    → n < uint64_mod
    → is_digit c ≡ false
    → (p : List ℕ) × (number_or e (stream past (decimal n ++ c ∷ rest))
        ≡ done (n, stream p (c ∷ rest)))
unfolding number_or
number_or-decimal e past rest n c small stop =
    let (p, r) = read_uint64-decimal past rest n c small stop in
    (p, ap (λ a. elim a.0 [ none ↦ throws e | some k ↦ done (k, a.1) ]) r)

pub number_or-space :
    (e : Error) (past rest : List ℕ) (n c : ℕ)
    → n < uint64_mod
    → is_digit c ≡ false
    → (p : List ℕ) × (number_or e (stream past (b' ' ∷ (decimal n ++ c ∷ rest)))
        ≡ done (n, stream p (c ∷ rest)))
unfolding number_or skip_whitespace skip_from
number_or-space e past rest n c small stop =
    let (p, r) = read_uint64-decimal (b' ' ∷ past) rest n c small stop in
    (p, ap (λ a. elim a.0 [ none ↦ throws e | some k ↦ done (k, a.1) ]) r)

skip_dark :
    (past rest : List ℕ) (c : ℕ) → is_white c ≡ false → skip_from past (c ∷ rest) ≡ (past, c ∷ rest)
unfolding skip_from
skip_dark past rest c dark = rw dark refl

take_solid :
    (past rest : List ℕ) (c : ℕ)
    → is_space c ≡ false
    → take_char past (c ∷ rest) ≡ (some c, (c ∷ past, rest))
unfolding take_char
take_solid past rest c solid = rw solid refl

got :
    (past rest : List ℕ) (c : ℕ)
    → is_white c ≡ false
    → is_space c ≡ false
    → get_char (skip_whitespace (stream past (c ∷ rest))) ≡ (some c, stream (c ∷ past) rest)
unfolding skip_whitespace get_char
got past rest c dark solid =
    ap (λ a. get_char (stream a.0 a.1)) (skip_dark past rest c dark)
    ∙ ap
        (λ a. elim a.0 as (λ x. Option ℕ × Stream) [
          | none ↦ (none, record { past = a.1.0; ahead = a.1.1; failed = true })
          | some k ↦ (some k, stream a.1.0 a.1.1)
        ])
        (take_solid past rest c solid)

pub char_or_lem :
    (past rest : List ℕ) (c : ℕ)
    → is_white c ≡ false
    → is_space c ≡ false
    → char_or (stream past (c ∷ rest)) ≡ done (c, stream (c ∷ past) rest)
unfolding char_or
char_or_lem past rest c dark solid =
    ap (λ a. elim a.0 [ none ↦ throws missing_end_of_line | some k ↦ done (k, a.1) ])
      (got past rest c dark solid)

add_successor_lem :
    (id : ℕ) (l : Line) (n : ℕ)
    → add_successor false id l n ≡ record l { game = e_add l.game id n; count = l.count + 1 }
unfolding add_successor
add_successor_lem id l n =
    let good : is_bad_loop false l.game id n ≡ false = ground arith in rw good refl

-- Behind a successor a `;` ends the line, and a `,` goes on.
after_end :
    (again : Line → Parsed Line) (id : ℕ) (m : Line) (past rest : List ℕ)
    → m.stream ≡ stream past (b';' ∷ rest)
    → after_successor again id m ≡ done (record m { stream = stream (b';' ∷ past) rest })
unfolding after_successor
after_end again id m past rest e = rw (e, char_or_lem past rest b';' refl refl) refl

after_comma :
    (again : Line → Parsed Line) (id : ℕ) (m : Line) (past rest : List ℕ)
    → m.stream ≡ stream past (b',' ∷ rest)
    → after_successor again id m ≡ again (record m { stream = stream (b',' ∷ past) rest })
unfolding after_successor
after_comma again id m past rest e = rw (e, char_or_lem past rest b',' refl refl) refl

-- A successor is read and added.
one_successor :
    (fuel id t : ℕ) (past rest : List ℕ) (c : ℕ) (g : Game) (has_self : Bool) (count : ℕ)
    → g.n_vertices ≤ uint64_mod
    → t < g.n_vertices
    → is_digit c ≡ false
    → (p : List ℕ) × (parse_successors (suc fuel) false id (record {
      game = g;
      stream = stream past (decimal t ++ c ∷ rest);
      has_self = has_self;
      count = count;
    })
        ≡ after_successor (parse_successors fuel false id) id (record {
          game = e_add g id t;
          stream = stream p (c ∷ rest);
          has_self = has_self;
          count = count + 1;
        }))
unfolding parse_successors
one_successor fuel id t past rest c g has_self count fits small stop =
    let (p, r) =
      number_or-decimal missing_successor past rest t c (omega (arith, small, fits)) stop in
    let ok : ltb t g.n_vertices ≡ true = ground (arith, small) in
    let l : Line = record {
      game = g;
      stream = stream p (c ∷ rest);
      has_self = has_self;
      count = count;
    } in
    (
      p,
      rw (r, ok)
          (ap (after_successor (parse_successors fuel false id) id) (add_successor_lem id l t)),
    )

-- A line with the edges to `t` and `ts` before its `;`.
pub parse_successors_lem :
    (fuel id t : ℕ) (ts past rest : List ℕ) (g : Game) (has_self : Bool) (count : ℕ)
    → length ts < fuel
    → g.n_vertices ≤ uint64_mod
    → Below g.n_vertices (t ∷ ts)
    → (p : List ℕ) × (k : ℕ) × (parse_successors fuel false id (record {
      game = g;
      stream = stream past (decimal t ++ (write_edges false ts ++ b';' ∷ rest));
      has_self = has_self;
      count = count;
    })
        ≡ done (record {
          game = add_edges g id (t ∷ ts);
          stream = stream p rest;
          has_self = has_self;
          count = k;
        }))
unfolding write_edges add_edges
parse_successors_lem zero id t ts past rest g has_self count enough fits below =
    absurd (omega (arith, enough))
parse_successors_lem (suc fuel) id t [] past rest g has_self count enough fits (small, below) =
    let (p, r) = one_successor fuel id t past rest b';' g has_self count fits small refl in
    (b';' ∷ p, count + 1, r ∙ after_end (parse_successors fuel false id) id _ p rest refl)
parse_successors_lem (suc fuel) id t (u ∷ ts) past rest g has_self count enough fits
      (small, below) =
    let next = decimal u ++ (write_edges false ts ++ b';' ∷ rest) in
    let (p, r) = one_successor fuel id t past next b',' g has_self count fits small refl in
    let same = (e_add-KeepsVertices g id t).same_vertices in
    let (q, k, ih) =
      parse_successors_lem fuel id u ts (b',' ∷ p) rest (e_add g id t) has_self (count + 1)
        (omega (arith, enough)) (omega (arith, same, fits))
        (subst (λ n. Below n (u ∷ ts)) (sym same) below) in
    (
      q,
      k,
      rw (append_assoc (decimal u) (write_edges false ts) (b';' ∷ rest))
          (r ∙ after_comma (parse_successors fuel false id) id _ p next refl ∙ ih),
    )
