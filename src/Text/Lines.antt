-- ===== src/Text/Lines.antt =====
-- What `parse_solution` of oink/src/game.cpp does with the lines of a text.
use urss.Base.{
  ℕ, ◌<◌, ◌≡◌, refl, subst, arith, true, false, not, ◌||◌, List, [], ◌∷◌, Option, none, some,
  if◌then◌else◌, ◌==◌, leb, Bool-cases, inl, inr,
}
use urss.Game.{Game}
use urss.Text.Solution.{
  Solution, Number, done, throws, is_paritysol, number_from, get_int, is_int, is_minus, skip_spaces,
  split_word, go_on, parse_winner, parse_ident, parse_line, parse_lines, lines_from, parse_solution,
}
use urss.Text.Solution.{add_below}
use urss.Text.Extends.{
  IsSized, solved_at, Extends, Reads, OnSome, Handled, is_blank, is_header, AllHandled,
  refl-Extends, trans-Extends, extended-Handled,
}
use urss.Text.Entry.{LineResult, set_solution_lem}

bit_lem : (k : ℕ) → leb k 1 ≡ true → k ≡ (if k == 1 then 1 else 0)
bit_lem k h = ground (arith, h)

module _ (g : Game) (line token text : List ℕ) (sized : IsSized g)
    (words : split_word (skip_spaces line) ≡ (token, text)) where
  parse_winner_lem :
      (node : Number) (after_node : List ℕ) (o : Option (Number × List ℕ))
      → number_from token ≡ some (node, after_node)
      → is_minus node ≡ false
      → get_int text ≡ o
      → node.magnitude < g.n_vertices
      → solved_at g node.magnitude ≡ false
      → LineResult g line (parse_winner g node.magnitude o)
  unfolding parse_winner
  parse_winner_lem node after_node none first sign e small free = tt
  parse_winner_lem node after_node (some (k, left)) first sign e small free =
      elim (Bool-cases (is_minus k || not (leb k.magnitude 1))) [
        | inl a ↦ rw a tt
        | inr a ↦ rw a (
            set_solution_lem g line node.magnitude (k.magnitude == 1) left sized small free
              (record {
                token = token;
                behind = text;
                words = words;
                node = node;
                after_node = after_node;
                first = first;
                is_node = (sign, refl);
                winner = k;
                second = e;
                is_winner = (ground (arith, a), bit_lem k.magnitude (ground (arith, a)));
              }))
      ]

  parse_ident_lem :
      (o : Option (Number × List ℕ))
      → number_from token ≡ o
      → LineResult g line (parse_ident g text o)
  unfolding parse_ident
  parse_ident_lem none first = tt
  parse_ident_lem (some (ident, left)) first = elim (Bool-cases (is_int ident)) [
    | inr a ↦ rw a tt
    | inl a ↦ elim (Bool-cases (is_minus ident || leb g.n_vertices ident.magnitude)) [
      | inl b ↦ rw (a, b) tt
      | inr b ↦ elim (Bool-cases (solved_at g ident.magnitude)) [
        | inl c ↦ rw (a, b, c) tt
        | inr c ↦
            rw (a, b, c)
              (parse_winner_lem ident left (get_int text) first (ground (arith, b)) refl
                (ground (arith, b)) c)
      ]
    ]
  ]

parse_line_lem :
    (g : Game) (line token text : List ℕ)
    → IsSized g
    → split_word (skip_spaces line) ≡ (token, text)
    → LineResult g line (parse_line g (token, text))
unfolding parse_line
parse_line_lem g line [] text sized words = (refl-Extends (Reads line) g sized, is_blank text words)
parse_line_lem g line (c ∷ token) text sized words = elim (Bool-cases (is_paritysol (c ∷ token))) [
  | inl a ↦ rw a (refl-Extends (Reads line) g sized, is_header (c ∷ token) text words a)
  | inr a ↦
      rw a (parse_ident_lem g line (c ∷ token) text sized words (number_from (c ∷ token)) refl)
]

abbrev LinesResult : Game → List (List ℕ) → Solution → Type 0
LinesResult g lines (done h low) = Extends (OnSome lines) g h × AllHandled h lines
LinesResult g lines (throws e) = Unit

add_below_lem :
    (g : Game) (lines : List (List ℕ)) (low : List (ℕ × ℕ)) (s : Solution)
    → LinesResult g lines s
    → LinesResult g lines (add_below low s)
unfolding add_below
add_below_lem g lines low (done h more) r = r
add_below_lem g lines low (throws e) r = r

first_and_rest :
    (g h : Game) (line : List ℕ) (lines : List (List ℕ)) (s : Solution)
    → Extends (Reads line) g h
    → Handled h line
    → LinesResult h lines s
    → LinesResult g (line ∷ lines) s
unfolding OnSome
first_and_rest g h line lines (done k low) a b (c, d) = (
  trans-Extends (Reads line) (OnSome lines) (OnSome (line ∷ lines)) g h k (λ v w m s r. inl r)
      (λ v w m s r. inr r) a c,
  (extended-Handled (OnSome lines) h k line c b, d),
)
first_and_rest g h line lines (throws e) a b c = tt

go_on_lem :
    (g : Game) (line : List ℕ) (lines : List (List ℕ)) (again : Game → Solution) (s : Solution)
    → LineResult g line s
    → ((h : Game) → IsSized h → LinesResult h lines (again h))
    → LinesResult g (line ∷ lines) (go_on again s)
unfolding go_on
go_on_lem g line lines again (done h low) (a, b) f =
    add_below_lem g (line ∷ lines) low (again h)
      (first_and_rest g h line lines (again h) a b (f h a.sized))
go_on_lem g line lines again (throws e) a f = tt

parse_lines_lem :
    (lines : List (List ℕ)) (g : Game) → IsSized g → LinesResult g lines (parse_lines lines g)
unfolding parse_lines
parse_lines_lem [] g sized = (refl-Extends (OnSome []) g sized, tt)
parse_lines_lem (line ∷ lines) g sized =
    let (token, text) = split_word (skip_spaces line) in
    go_on_lem g line lines (parse_lines lines) (parse_line g (token, text))
      (parse_line_lem g line token text sized refl) (parse_lines_lem lines)

-- When the arrays of the solution have an entry for each vertex, and parse_solution returns, what was
-- solved keeps its winner and strategy, and the owners and the sizes stay. A vertex that is newly solved
-- is one of the game, and some line gives it with its winner and, if the owner wins, its strategy; else
-- it has none. Each line is blank, or the header, or the game has what it gives. A strategy below 0 is
-- none in the game.
pub parse_solution-Extends :
    (g h : Game) (low : List (ℕ × ℕ)) (text : List ℕ)
    → IsSized g
    → parse_solution g text ≡ done h low
    → Extends (OnSome (lines_from [] text)) g h × AllHandled h (lines_from [] text)
unfolding parse_solution
parse_solution-Extends g h low text sized e =
    subst (LinesResult g (lines_from [] text)) e (parse_lines_lem (lines_from [] text) g sized)
