-- ===== src/Tests/TextTests.antt =====
-- A game of two vertices, written and read back.
use urss.Base.{
  ℕ, zero, suc, ◌<◌, ◌≤◌, ◌≡◌, refl, arith, true, false, List, [], ◌∷◌, none, some, get_or,
}
use urss.Game.{Game, no_game, until_end, outs, owner_of, priority_of}
use urss.Text.Write.{write_pgsolver}
use urss.Text.Parse.{done, parse_pgsolver}
use urss.Text.Progress.{IsPrintable}
use urss.Game.Ins.Count.{Below}
use urss.Text.Solution.{
  lines_from, skip_spaces, split_word, more_digits, unsigned_from, number_from, get_int,
  set_strategy, set_solution, parse_winner, parse_ident, parse_line, add_below, go_on, parse_lines,
  parse_solution,
}
use urss.Text.Extends.{Extends, OnSome, AllHandled}
use urss.Text.Lines.{parse_solution-Extends}
use urss.Text.RoundTrip.{parse_pgsolver-write_pgsolver}

abbrev two : Game
two = record no_game {
  n_vertices = 2;
  n_edges = 3;
  priority = 3 ∷ 12 ∷ [];
  owner = false ∷ true ∷ [];
  label = none ∷ none ∷ [];
  outedges = some 1 ∷ some 0 ∷ none ∷ some 0 ∷ none ∷ [];
  firstouts = 0 ∷ 3 ∷ [];
  outcount = 2 ∷ 1 ∷ [];
  e_size = 5;
}

below_two : (P : ℕ → Type 0) → P 0 → P 1 → (x : ℕ) → x < 2 → P x
below_two P a b zero h = a
below_two P a b (suc zero) h = b
below_two P a b (suc (suc x)) h = absurd (omega arith)

two-IsPrintable : IsPrintable two
unfolding outs until_end
two-IsPrintable = record {
  some_vertex = omega arith;
  fits = omega arith;
  moves =
      below_two (λ v. (t : ℕ) × (ts : List ℕ) × (outs two v ≡ t ∷ ts)) (1, 0 ∷ [], refl)
        (0, [], refl);
  below = below_two (λ v. Below 2 (outs two v)) (omega arith, (omega arith, tt)) (omega arith, tt);
  low = below_two (λ v. priority_of two v ≤ 2147483647) (omega arith) (omega arith);
  plain = below_two (λ v. get_or two.label v none ≡ none) refl refl;
}

parse_pgsolver-write_pgsolver_example :
    (h : Game) × (parse_pgsolver false (write_pgsolver two) ≡ done h)
    × (h.n_vertices ≡ 2)
    × ((v : ℕ)
        → v < 2
        → (priority_of h v ≡ priority_of two v)
          × (owner_of h v ≡ owner_of two v)
          × (outs h v ≡ outs two v)
          × (get_or h.label v none ≡ none))
parse_pgsolver-write_pgsolver_example = parse_pgsolver-write_pgsolver two two-IsPrintable

-- The vertex 0 is won by Even, who moves to 1.
abbrev half_solved : Game
half_solved = record two {
  solved = true ∷ false ∷ [];
  winner = false ∷ false ∷ [];
  strategy = some 1 ∷ none ∷ [];
}

-- A head, an empty line, and the vertex 1 won by Odd with a move to 0.
abbrev odd_line : List ℕ
odd_line =
    b'p' ∷ b'a' ∷ b'r' ∷ b'i' ∷ b't' ∷ b'y' ∷ b's' ∷ b'o' ∷ b'l' ∷ b' ' ∷ b'1' ∷ b';' ∷ b'\n'
    ∷ b'\n' ∷ b'1' ∷ b' ' ∷ b'1' ∷ b' ' ∷ b'0' ∷ b';' ∷ []

abbrev all_solved : Game
all_solved = record half_solved {
  solved = true ∷ true ∷ [];
  winner = false ∷ true ∷ [];
  strategy = some 1 ∷ some 0 ∷ [];
}

parse_solution-Extends_example :
    Extends (OnSome (lines_from [] odd_line)) half_solved all_solved
    × AllHandled all_solved (lines_from [] odd_line)
unfolding lines_from skip_spaces split_word more_digits unsigned_from number_from get_int
    set_strategy set_solution parse_winner parse_ident parse_line add_below go_on parse_lines
    parse_solution
parse_solution-Extends_example =
    parse_solution-Extends half_solved all_solved [] odd_line
      (record { solved_size = refl; winner_size = refl; strategy_size = refl }) refl
