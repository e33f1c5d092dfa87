-- ===== src/Text/Parse.antt =====
-- `parse_pgsolver` of oink/src/game.cpp. The game under construction is passed on; a `throw` is a value,
-- and so is a loop that does not end.
use urss.Base.{
  ℕ, zero, suc, ◌+◌, ◌-◌, ◌^◌, Bool, true, false, not, ◌&&◌, List, [], ◌∷◌, ◌++◌, Option, none,
  some, if◌then◌else◌, ◌==◌, ltb, leb, length, get_or, set, drop, replicate,
}
use urss.Game.{Game, make, owner_of, priority_of, e_start, e_add, e_finish, v_resize}
use urss.Game.Permute.{ordered_from}
use urss.Oink.{any_true, is_odd, same}
use urss.Text.{Stream, sbumpc, sungetc, skip_whitespace, skip_line, read_uint64, get_char, is_space}

pub data Error : Type 0 where
  expecting_specification missing_number_of_nodes missing_semicolon unable_to_read_id : Error
  invalid_id duplicate_id missing_priority priority_too_high missing_owner invalid_owner : Error
  missing_successor invalid_successor missing_end_of_line missing_nodes : Error

pub data Parsed {ℓ} (A : Type ℓ) : Type ℓ where
  done : A → Parsed A
  throws : Error → Parsed A
  loops : Parsed A

infixl 5 ◌>>=◌
abbrev pub ◌>>=◌ {ℓ κ} : {A : Type ℓ} {B : Type κ} → Parsed A → (A → Parsed B) → Parsed B
done a >>= f = f a
throws e >>= f = throws e
loops >>= f = loops

-- if (!b) throw e
abbrev pub unless : Bool → Error → Parsed (Unit {0})
unless true e = done tt
unless false e = throws e

-- skip_whitespace(rd); if (!read_uint64(rd, &n)) throw e
unfoldable pub number_or : Error → Stream → Parsed (ℕ × Stream)
number_or e s =
    let (n, t) = read_uint64 (skip_whitespace s) in
    elim n [ none ↦ throws e | some k ↦ done (k, t) ]

-- skip_whitespace(rd); if (!(inp >> ch)) throw "missing ; to end line"
unfoldable pub char_or : Stream → Parsed (ℕ × Stream)
char_or s =
    let (ch, t) = get_char (skip_whitespace s) in
    elim ch [ none ↦ throws missing_end_of_line | some c ↦ done (c, t) ]

-- The loop that reads a label behind its quote; `text` is what it has read. At the end of the input
-- `ch` keeps its value, which ends the loop only when it is still the first quote.
pub label_from : List ℕ → List ℕ → List ℕ → Parsed (List ℕ × Stream)
label_from text past [] = elim text [
  | [] ↦ done ([], record { past = past; ahead = []; failed = true })
  | c ∷ cs ↦ loops
]
label_from text past (ch ∷ rest) = elim (is_space ch) [
  | true ↦ label_from text (ch ∷ past) rest
  | false ↦ elim (ch == b'"') [
    | true ↦ done (text, record { past = ch ∷ past; ahead = rest; failed = false })
    | false ↦ label_from (text ++ ch ∷ []) (ch ∷ past) rest
  ]
]

-- A label, and the `;` behind it.
unfoldable pub parse_label : Game → ℕ → Stream → Parsed (Game × Stream)
parse_label g id s = do
  (text, t) ← label_from [] s.past s.ahead
  (ch, u) ← char_or t
  unless (ch == b';') missing_end_of_line >>= λ ok.
      done (record g { label = set g.label id (some text) }, u)

-- A self-loop that its owner does not want.
abbrev pub is_bad_loop : Bool → Game → ℕ → ℕ → Bool
is_bad_loop removeBadLoops g id n =
    id == n && (removeBadLoops && not (same (owner_of g id) (is_odd (priority_of g id))))

-- What the loop over the successors leaves: the game, the stream, `has_self` and `count`.
pub record Line : Type 0 where
  pub game : Game
  pub stream : Stream
  pub has_self : Bool
  pub count : ℕ

-- The edge to `n` is added, or the bad loop is remembered.
unfoldable pub add_successor : Bool → ℕ → Line → ℕ → Line
add_successor removeBadLoops id l n =
    if is_bad_loop removeBadLoops l.game id n
    then record l { has_self = true }
    else record l { game = e_add l.game id n; count = l.count + 1 }

-- What follows a successor: the next one, the end of the line, or a label. `again` is the loop.
unfoldable pub after_successor : (Line → Parsed Line) → ℕ → Line → Parsed Line
after_successor again id m = do
  (ch, t) ← char_or m.stream
  elim (ch == b',') [
    | true ↦ again (record m { stream = t })
    | false ↦ elim (ch == b'"') [
      | true ↦ do (h, u) ← parse_label m.game id t; done (record m { game = h; stream = u })
      | false ↦ done (record m { stream = t })
    ]
  ]

-- for (;;) over the successors and the optional label, with fuel
unfoldable pub parse_successors : ℕ → Bool → ℕ → Line → Parsed Line
parse_successors zero removeBadLoops id l = loops
parse_successors (suc fuel) removeBadLoops id l = do
  (n, s) ← number_or missing_successor l.stream
  unless (ltb n l.game.n_vertices) invalid_successor >>= λ in_range.
      after_successor (parse_successors fuel removeBadLoops id) id
        (add_successor removeBadLoops id (record l { stream = s }) n)

-- The owner is 0 or 1.
unfoldable pub parse_owner : Game → ℕ → ℕ → Parsed Game
parse_owner g id n =
    if n == 0
    then done g
    else if n == 1
    then done (record g { owner = set g.owner id true })
    else throws invalid_owner

abbrev pub int_max : ℕ
int_max = 2 ^ 31 - 1

-- A line of the file behind its id.
unfoldable pub parse_vertex : Bool → Game → ℕ → Stream → Parsed (Game × Stream)
parse_vertex removeBadLoops g id s = unless (ltb id g.n_vertices) invalid_id >>= λ in_range.
    unless (get_or g.solved id false) duplicate_id >>= λ new. do
      (p, t) ← number_or missing_priority s
      unless (leb p int_max) priority_too_high >>= λ low. do
        (o, u) ← number_or missing_owner t
        h ←
            parse_owner
              (record g { solved = set g.solved id false; priority = set g.priority id p }) id o
        l ← parse_successors (length u.ahead + 1) removeBadLoops id (record {
          game = e_start (record h { label = set h.label id none }) id;
          stream = u;
          has_self = false;
          count = 0;
        })
        done
            (e_finish (if l.has_self && l.count == 0 then e_add l.game id id else l.game), l.stream)

-- A round of the loop over the lines: there is an id, or it is the end of the text, which may lack the
-- last vertex. `again` is the loop.
unfoldable pub vertex_or_end :
    (ℕ → Game → Stream → Parsed Game) → Bool → ℕ → Game → Option ℕ × Stream → Parsed Game
vertex_or_end again removeBadLoops node_count g (none, t) = elim (node_count == g.n_vertices - 1) [
  | true ↦ elim (v_resize 0 g node_count) [ none ↦ loops | some h ↦ done h ]
  | false ↦ throws unable_to_read_id
]
vertex_or_end again removeBadLoops node_count g (some i, t) = do
  (h, u) ← parse_vertex removeBadLoops g i t
  again (node_count + 1) h u

-- while (node_count < n_vertices), with the number of vertices that are not yet read
unfoldable pub parse_vertices : Bool → ℕ → ℕ → Game → Stream → Parsed Game
parse_vertices removeBadLoops zero node_count g s = done g
parse_vertices removeBadLoops (suc missing) node_count g s =
    vertex_or_end (parse_vertices removeBadLoops missing) removeBadLoops node_count g
      (read_uint64 (skip_whitespace s))

-- The header: "parity", the number of nodes, and all up to a ';'.
unfoldable pub skip_to_semicolon : List ℕ → List ℕ → Parsed (List ℕ × List ℕ)
skip_to_semicolon past [] = throws missing_semicolon
skip_to_semicolon past (ch ∷ rest) = elim (ch == b';') [
  | true ↦ done (ch ∷ past, rest)
  | false ↦ skip_to_semicolon (ch ∷ past) rest
]

-- inp.read(buf, 6) and strncmp(buf, "parity", 6)
unfoldable pub read_parity : List ℕ → Parsed Stream
read_parity (a ∷ b ∷ c ∷ d ∷ e ∷ f ∷ rest) =
    if a == b'p' && (b == b'a' && (c == b'r' && (d == b'i' && (e == b't' && f == b'y'))))
    then done (record { past = f ∷ e ∷ d ∷ c ∷ b ∷ a ∷ []; ahead = rest; failed = false })
    else throws expecting_specification
read_parity _ = throws expecting_specification

-- An optional line that starts with 's'.
unfoldable pub skip_start : Stream → Stream
skip_start s =
    let (ch, t) = sbumpc (skip_whitespace s) in
    elim ch [ none ↦ sungetc t | some c ↦ if c == b's' then skip_line t else sungetc t ]

unfoldable pub parse_header : List ℕ → Parsed (ℕ × Stream)
parse_header text = do
  s ← read_parity text
  (n, t) ← number_or missing_number_of_nodes s
  let u = skip_whitespace t
  (past, ahead) ← skip_to_semicolon u.past u.ahead
  done (n, skip_start (record u { past = past; ahead = ahead }))

-- Game res(n + 1, true), with every vertex marked as not read
unfoldable pub unread : ℕ → Game
unread n = record (make (n + 1) (some 1)) { solved = replicate (n + 1) true }

-- parse_pgsolver(inp, removeBadLoops)
unfoldable pub parse_pgsolver : Bool → List ℕ → Parsed Game
parse_pgsolver removeBadLoops text = do
  (n, s) ← parse_header text
  g ← parse_vertices removeBadLoops (n + 1) 0 (unread n) s
  unless (not (any_true g.solved)) missing_nodes >>= λ all_read. done (record g {
    is_ordered = ordered_from g.priority (g.n_vertices - 1) 1;
    strategy = replicate g.n_vertices none ++ drop g.n_vertices g.strategy;
  })
