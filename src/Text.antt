-- ===== src/Text.antt =====
-- Reading and writing text, in oink/src/game.cpp: the stream buffer with the helpers of the parser,
-- and decimal numbers. A character is its code.
pub mod Write
pub mod Parse
pub mod Numbers
pub mod Frame
pub mod Successors
pub mod Vertex
pub mod Progress
pub mod Vertices
pub mod RoundTrip
pub mod Solution
pub mod Extends
pub mod Entry
pub mod Lines
use urss.Base.{
  ℕ, zero, suc, ◌+◌, ◌-◌, ◌*◌, ◌/◌, ◌%◌, ◌^◌, Bool, true, false, not, ◌&&◌, ◌||◌, List, [], ◌∷◌,
  ◌++◌, Option, none, some, if◌then◌else◌, ◌==◌, ltb, leb,
}

-- The characters read, the last first, those to come, and the failure bit of the stream.
pub record Stream : Type 0 where
  pub past : List ℕ
  pub ahead : List ℕ
  pub failed : Bool

abbrev pub open_text : List ℕ → Stream
open_text text = record { past = []; ahead = text; failed = false }

-- rd->sbumpc(), with `none` for EOF
unfoldable pub sbumpc : Stream → Option ℕ × Stream
sbumpc s = elim s.ahead [
  | [] ↦ (none, s)
  | ch ∷ rest ↦ (some ch, record s { past = ch ∷ s.past; ahead = rest })
]

-- rd->sungetc()
unfoldable pub sungetc : Stream → Stream
sungetc s = elim s.past [ [] ↦ s | ch ∷ before ↦ record s { past = before; ahead = ch ∷ s.ahead } ]

abbrev pub is_white : ℕ → Bool
is_white ch = ch == b' ' || (ch == b'\n' || (ch == b'\t' || ch == b'\r'))

-- The loop of `skip_whitespace`: the characters that are white are passed over.
unfoldable pub skip_from : List ℕ → List ℕ → List ℕ × List ℕ
skip_from past [] = (past, [])
skip_from past (ch ∷ rest) =
    let more = skip_from (ch ∷ past) rest in if is_white ch then more else (past, ch ∷ rest)

unfoldable pub skip_whitespace : Stream → Stream
skip_whitespace s =
    let (past, ahead) = skip_from s.past s.ahead in record s { past = past; ahead = ahead }

pub skip_line_from : List ℕ → List ℕ → List ℕ × List ℕ
skip_line_from past [] = (past, [])
skip_line_from past (ch ∷ rest) =
    let more = skip_line_from (ch ∷ past) rest in
    if ch == b'\n' || ch == b'\r' then (ch ∷ past, rest) else more

unfoldable pub skip_line : Stream → Stream
skip_line s =
    let (past, ahead) = skip_line_from s.past s.ahead in record s { past = past; ahead = ahead }

abbrev pub is_digit : ℕ → Bool
is_digit ch = leb b'0' ch && leb ch b'9'

abbrev pub uint64_mod : ℕ
uint64_mod = 2 ^ 64

-- The loop of `read_uint64` behind a digit: the number so far is `r`.
pub read_digits : ℕ → List ℕ → List ℕ → ℕ × (List ℕ × List ℕ)
read_digits r past [] = (r, (past, []))
read_digits r past (ch ∷ rest) =
    let more = read_digits ((10 * r + (ch - b'0')) % uint64_mod) (ch ∷ past) rest in
    if is_digit ch then more else (r, (past, ch ∷ rest))

unfoldable pub read_uint64 : Stream → Option ℕ × Stream
read_uint64 s = elim s.ahead [
  | [] ↦ (none, s)
  | ch ∷ rest ↦
      let (r, (past, ahead)) = read_digits 0 s.past (ch ∷ rest) in
      if is_digit ch then (some r, record s { past = past; ahead = ahead }) else (none, s)
]

-- Locale whitespace, which `inp >> ch` skips.
abbrev pub is_space : ℕ → Bool
is_space ch = ch == b' ' || (leb 9 ch && leb ch 13)

pub take_char : List ℕ → List ℕ → Option ℕ × (List ℕ × List ℕ)
take_char past [] = (none, (past, []))
take_char past (ch ∷ rest) =
    let more = take_char (ch ∷ past) rest in
    if is_space ch then more else (some ch, (ch ∷ past, rest))

-- inp >> ch
unfoldable pub get_char : Stream → Option ℕ × Stream
get_char s =
    let (ch, (past, ahead)) = take_char s.past s.ahead in
    if s.failed then (none, s) else elim ch [
      | none ↦ (none, record s { past = past; ahead = ahead; failed = true })
      | some c ↦ (some c, record s { past = past; ahead = ahead })
    ]

-- The decimal digits of a number before `acc`, with fuel for the digits.
unfoldable pub digits : ℕ → ℕ → List ℕ → List ℕ
digits zero n acc = acc
digits (suc fuel) n acc =
    let d = b'0' + n % 10 in
    let rest = digits fuel (n / 10) (d ∷ acc) in if ltb n 10 then d ∷ acc else rest

-- out << n, for a number that is not negative
unfoldable pub decimal : ℕ → List ℕ
decimal n = digits (n + 1) n []
