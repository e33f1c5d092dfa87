-- ===== src/Text/Solution.antt =====
-- `parse_solution` of oink/src/game.cpp. An exception is a value; what the game holds when one is thrown
-- is left out.
use urss.Base.{
  ℕ, ◌+◌, ◌-◌, ◌*◌, ◌^◌, Bool, true, false, not, ◌&&◌, ◌||◌, List, [], ◌∷◌, ◌++◌, Option, none,
  some, if◌then◌else◌, ◌==◌, leb, get_or, set,
}
use urss.Game.{Game, owner_of}
use urss.Oink.{same}
use urss.Text.{is_space, is_digit}

-- The exceptions: those of the code, and those of stoi.
pub data SolutionError : Type 0 where
  invalid_argument out_of_range index_out_of_bounds already_solved : SolutionError
  missing_winner invalid_winner missing_strategy : SolutionError

-- The code stores any int as a strategy. One below -1 is none in `Game`: it stands beside the game, in a
-- list of such vertices with the absolute value.
pub data Solution : Type 0 where
  done : Game → List (ℕ × ℕ) → Solution
  throws : SolutionError → Solution

-- The lines that `getline` returns; `line` is what has been read of the first.
unfoldable pub lines_from : List ℕ → List ℕ → List (List ℕ)
lines_from [] [] = []
lines_from (c ∷ cs) [] = (c ∷ cs) ∷ []
lines_from line (ch ∷ rest) = elim (ch == b'\n') [
  | true ↦ line ∷ lines_from [] rest
  | false ↦ lines_from (line ++ ch ∷ []) rest
]

unfoldable pub skip_spaces : List ℕ → List ℕ
skip_spaces [] = []
skip_spaces (ch ∷ rest) = let more = skip_spaces rest in if is_space ch then more else ch ∷ rest

-- The characters up to the next blank, and what follows.
unfoldable pub split_word : List ℕ → List ℕ × List ℕ
split_word [] = ([], [])
split_word (ch ∷ rest) =
    let (word, left) = split_word rest in if is_space ch then ([], ch ∷ rest) else (ch ∷ word, left)

-- An int that was read: its sign and its absolute value.
pub record Number : Type 0 where
  pub negative : Bool
  pub magnitude : ℕ

-- The digits behind the number `r`.
unfoldable pub more_digits : ℕ → List ℕ → ℕ × List ℕ
more_digits r [] = (r, [])
more_digits r (ch ∷ rest) =
    let more = more_digits (10 * r + (ch - b'0')) rest in
    if is_digit ch then more else (r, ch ∷ rest)

-- The digits of a number, at least one.
unfoldable pub unsigned_from : Bool → List ℕ → Option (Number × List ℕ)
unsigned_from negative [] = none
unsigned_from negative (ch ∷ rest) =
    let (n, left) = more_digits 0 (ch ∷ rest) in
    if is_digit ch then some (record { negative = negative; magnitude = n }, left) else none

-- An optional sign and digits.
unfoldable pub number_from : List ℕ → Option (Number × List ℕ)
number_from [] = none
number_from (ch ∷ rest) =
    if ch == b'-'
    then unsigned_from true rest
    else if ch == b'+'
    then unsigned_from false rest
    else unsigned_from false (ch ∷ rest)

abbrev pub is_int : Number → Bool
is_int n = leb n.magnitude (if n.negative then 2 ^ 31 else 2 ^ 31 - 1)

abbrev pub is_minus : Number → Bool
is_minus n = n.negative && not (n.magnitude == 0)

-- ss >> n, for an int; `none` when it fails
unfoldable pub get_int : List ℕ → Option (Number × List ℕ)
get_int text = elim (number_from (skip_spaces text)) [
  | none ↦ none
  | some (n, left) ↦ if is_int n then some (n, left) else none
]

abbrev pub is_paritysol : List ℕ → Bool
is_paritysol (a ∷ b ∷ c ∷ d ∷ e ∷ f ∷ g ∷ h ∷ i ∷ []) =
    a == b'p'
    && (b == b'a'
        && (c == b'r'
            && (d == b'i'
                && (e == b't' && (f == b'y' && (g == b's' && (h == b'o' && i == b'l')))))))
is_paritysol _ = false

abbrev pub with_solution : Game → ℕ → Bool → Option ℕ → Game
with_solution g ident w str = record g {
  solved = set g.solved ident true;
  winner = set g.winner ident w;
  strategy = set g.strategy ident str;
}

-- The vertex is won by its owner `w`, with the strategy that was read.
unfoldable pub set_strategy : Game → ℕ → Bool → Option (Number × List ℕ) → Solution
set_strategy g ident w none = throws missing_strategy
set_strategy g ident w (some (str, left)) =
    if not (is_minus str)
    then done (with_solution g ident w (some str.magnitude)) []
    else if str.magnitude == 1
    then done (with_solution g ident w none) []
    else done (with_solution g ident w none) ((ident, str.magnitude) ∷ [])

-- The vertex is won by `w`; its strategy is read when its owner is.
unfoldable pub set_solution : Game → ℕ → Bool → List ℕ → Solution
set_solution g ident w text =
    if same w (owner_of g ident)
    then set_strategy g ident w (get_int text)
    else done (with_solution g ident w none) []

-- The winner that was read.
unfoldable pub parse_winner : Game → ℕ → Option (Number × List ℕ) → Solution
parse_winner g ident none = throws missing_winner
parse_winner g ident (some (w, left)) =
    if is_minus w || not (leb w.magnitude 1)
    then throws invalid_winner
    else set_solution g ident (w.magnitude == 1) left

-- The vertex that stoi read, and the rest of the line.
unfoldable pub parse_ident : Game → List ℕ → Option (Number × List ℕ) → Solution
parse_ident g text none = throws invalid_argument
parse_ident g text (some (ident, left)) =
    if not (is_int ident)
    then throws out_of_range
    else if is_minus ident || leb g.n_vertices ident.magnitude
    then throws index_out_of_bounds
    else if get_or g.solved ident.magnitude false
    then throws already_solved
    else parse_winner g ident.magnitude (get_int text)

-- A line, with its token and what follows it.
unfoldable pub parse_line : Game → List ℕ × List ℕ → Solution
parse_line g ([], text) = done g []
parse_line g (c ∷ token, text) =
    if is_paritysol (c ∷ token) then done g [] else parse_ident g text (number_from (c ∷ token))

-- The lines after one that was read.
unfoldable pub add_below : List (ℕ × ℕ) → Solution → Solution
add_below low (done h more) = done h (low ++ more)
add_below low (throws e) = throws e

unfoldable pub go_on : (Game → Solution) → Solution → Solution
go_on again (done h low) = add_below low (again h)
go_on again (throws e) = throws e

-- while (getline(in, line))
unfoldable pub parse_lines : List (List ℕ) → Game → Solution
parse_lines [] g = done g []
parse_lines (line ∷ lines) g =
    go_on (parse_lines lines) (parse_line g (split_word (skip_spaces line)))

unfoldable pub parse_solution : Game → List ℕ → Solution
parse_solution g text = parse_lines (lines_from [] text) g
