-- ===== src/Pp/Setup.antt =====
-- `setupRegion` and `getRegionStatus` of oink/src/pp.cpp.
use urss.Base.{
  ℕ, zero, suc, ◌+◌, Bool, true, false, not, ◌&&◌, ◌||◌, List, [], ◌∷◌, ◌++◌, Option, none, some,
  if◌then◌else◌, ◌==◌, ltb, get_or, set, length, replicate,
}
use urss.Game.{owner_of, priority_of, outs}
use urss.Oink.{same, is_odd, is_disabled}
use urss.Solver.{Result, ok, logic_error, of_option, ◌>>=◌}
use urss.Pp.{
  Pp, region_of, strategy_of, members, is_above, is_below, is_at, is_none, can_escape, attract,
  reset_region,
}

-- region[v] > p and (region[v]&1) != (p&1)
abbrev pub is_hostile : ℕ → Option ℕ → Bool
is_hostile p none = false
is_hostile p (some r) = ltb p r && not (same (is_odd r) (is_odd p))

abbrev pub is_marked : Pp → ℕ → Bool
is_marked s v = get_or s.Z v false

-- The loop over the region that marks its vertices in `Z`, and stops at one for which the region must
-- be reset.
unfoldable pub must_reset : ℕ → Pp → List ℕ → Pp × Bool
must_reset p s [] = (s, false)
must_reset p s (i ∷ is) = elim (is_at p (region_of s i)) [
  | true ↦ must_reset p (record s { Z = set s.Z i true }) is
  | false ↦
      elim (is_disabled s.oink i || (is_below p (region_of s i) || is_hostile p (region_of s i))) [
        | true ↦ (s, true)
        | false ↦ must_reset p s is
      ]
]

-- std::remove_if, of the vertices that are not marked
pub only_marked : Pp → List ℕ → List ℕ
only_marked s [] = []
only_marked s (x ∷ xs) = let rest = only_marked s xs in if is_marked s x then x ∷ rest else rest

-- Z.reset()
abbrev pub unmark : Pp → Pp
unmark s = record s { Z = replicate (length s.Z) false }

abbrev pub is_empty : List ℕ → Bool
is_empty [] = true
is_empty (v ∷ vs) = false

abbrev pub reset_if_any : ℕ → Pp → Pp
reset_if_any p s = if is_empty (members s p) then s else reset_region p s

-- The region before its escapes are added.
unfoldable pub clean_region : ℕ → Bool → Pp → Pp
clean_region p reset s =
    let (t, tainted) = must_reset p s (members s p) in
    if reset
    then unmark (reset_if_any p s)
    else if tainted
    then unmark (reset_if_any p t)
    else record t { regions = set t.regions p (only_marked t (members t p)) }

-- strategy[j] != -1 and !Z[strategy[j]]
abbrev pub leaves_marked : Pp → Option ℕ → Bool
leaves_marked s none = false
leaves_marked s (some to) = not (is_marked s to)

-- The body of the loop that adds the vertices of the priority.
unfoldable pub add_escape : ℕ → Pp → ℕ → Pp
add_escape p s j =
    if is_none (region_of s j)
    then s
    else if is_disabled s.oink j
    then record s { region = set s.region j none }
    else if not (is_at p (region_of s j))
    then s
    else if is_marked s j
    then (if leaves_marked s (strategy_of s j)
        then record s { strategy = set s.strategy j none }
        else s)
    else record s {
      regions = set s.regions p (members s p ++ j ∷ []);
      strategy = set s.strategy j none;
    }

-- for (int j=i; j>=0 && priority(j) == p; j--), with n = j + 1
unfoldable pub add_escapes : ℕ → ℕ → Pp → Pp
add_escapes p zero s = s
add_escapes p (suc j) s = elim (priority_of s.oink.game j == p) [
  | true ↦ add_escapes p j (add_escape p s j)
  | false ↦ s
]

-- setupRegion(i, p, mustReset)
unfoldable pub setup_region : ℕ → ℕ → ℕ → Bool → Pp → Result (Bool × Pp)
setup_region fuel i p reset s =
    let t = unmark (add_escapes p (i + 1) (clean_region p reset s)) in
    elim (is_empty (members t p)) [
      | true ↦ ok (false, t)
      | false ↦ of_option (attract fuel p t) >>= λ u. ok (true, u)
    ]

-- What getRegionStatus returns: -2, -1, or the region to promote to.
pub data Status : Type 0 where
  opened dominion : Status
  closed_to : ℕ → Status

-- A vertex of the priority that makes the region open.
unfoldable pub is_opening : ℕ → Pp → ℕ → Bool
is_opening p s j =
    let g = s.oink.game in
    if is_disabled s.oink j || is_above p (region_of s j)
    then false
    else if same (owner_of g j) (is_odd p)
    then is_none (strategy_of s j)
    else can_escape s p (outs g j)

-- The first loop of getRegionStatus.
unfoldable pub any_opening : ℕ → ℕ → Pp → Bool
any_opening p zero s = false
any_opening p (suc j) s = elim (priority_of s.oink.game j == p) [
  | true ↦ elim (is_opening p s j) [ true ↦ true | false ↦ any_opening p j s ]
  | false ↦ false
]

-- lowest = r, if it is lower
abbrev pub lower_of : ℕ → Option ℕ → Option ℕ
lower_of r none = some r
lower_of r (some lowest) = if ltb r lowest then some r else some lowest

-- The region of a successor; -2 is below `p`, and so a LOGIC_ERROR.
unfoldable pub lower_escape : ℕ → Option ℕ → Option ℕ → Result (Option ℕ)
lower_escape p none lowest = logic_error
lower_escape p (some r) lowest =
    if ltb p r then ok (lower_of r lowest) else if ltb r p then logic_error else ok lowest

unfoldable pub lowest_successor : ℕ → Pp → List ℕ → Option ℕ → Result (Option ℕ)
lowest_successor p s [] lowest = ok lowest
lowest_successor p s (to ∷ ts) lowest = elim (is_disabled s.oink to) [
  | true ↦ lowest_successor p s ts lowest
  | false ↦ lower_escape p (region_of s to) lowest >>= lowest_successor p s ts
]

-- The second loop: the lowest region above that the opponent can move to.
unfoldable pub lowest_escape : ℕ → Pp → List ℕ → Option ℕ → Result (Option ℕ)
lowest_escape p s [] lowest = ok lowest
lowest_escape p s (j ∷ js) lowest = elim (same (owner_of s.oink.game j) (is_odd p)) [
  | true ↦ lowest_escape p s js lowest
  | false ↦ lowest_successor p s (outs s.oink.game j) lowest >>= lowest_escape p s js
]

abbrev pub status_of : Option ℕ → Status
status_of none = dominion
status_of (some r) = closed_to r

-- getRegionStatus(i, p)
unfoldable pub get_region_status : ℕ → ℕ → Pp → Result Status
get_region_status i p s = elim (any_opening p (i + 1) s) [
  | true ↦ ok opened
  | false ↦ lowest_escape p s (members s p) none >>= λ lowest. ok (status_of lowest)
]
