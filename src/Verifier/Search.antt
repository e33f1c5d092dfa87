-- ===== src/Verifier/Search.antt =====
-- The second loop of `verify`: Tarjan's search for a component in which the loser wins.
use urss.Base.{
  ℕ, zero, suc, ◌+◌, ◌%◌, Bool, true, false, not, ◌&&◌, ◌||◌, List, [], ◌∷◌, Option, none, some,
  if◌then◌else◌, ◌==◌, ltb, leb, get_or, set, replicate,
}
use urss.Game.{Game, vertexcount, priority_of, outs, has_edge}
use urss.Oink.{same, is_odd}
use urss.Verifier.{
  loser_can_win, Result, ok, throws, solved_at, winner_at, strategy_at, looked_at, check_vertices,
}

-- `done` holds `none` for -1. The last of `res`, and the top of `st`, come first.
pub record State : Type 0 where
  pub done : List (Option ℕ)
  pub low : List ℕ
  pub pre : ℕ
  pub res : List ℕ
  pub st : List ℕ

-- The edges that the search may take from a vertex: its strategy, or all.
abbrev pub moves : Game → ℕ → List ℕ
moves g v = elim (strategy_at g v) [ none ↦ outs g v | some to ↦ to ∷ [] ]

-- done[to] == prio
abbrev pub is_done : List (Option ℕ) → ℕ → ℕ → Bool
is_done done prio to = elim (get_or done to none) [ none ↦ false | some p ↦ p == prio ]

-- The loop over the edges: the vertex to push, or the new `min`.
pub data Scan : Type 0 where
  push_next : ℕ → Scan
  reached : ℕ → Scan

-- A search at the vertex `i`, whose numbers are above `bot`.
module _ (g : Game) (i prio bot : ℕ) where
  pub scan_moves : State → ℕ → List ℕ → Scan
  scan_moves s least [] = reached least
  scan_moves s least (to ∷ ts) =
      let l = get_or s.low to 0 in
      elim (ltb i to || is_done s.done prio to) [
        | true ↦ scan_moves s least ts
        | false ↦ elim (leb l bot) [
          | true ↦ push_next to
          | false ↦ scan_moves s (if ltb l least then l else least) ts
        ]
      ]

  -- The loop over `res` from its end down to `v`: the highest priority, the size, and `done`.
  pub close_component : ℕ → List ℕ → Option ℕ → ℕ → List (Option ℕ) → Option ℕ × ℕ × List (Option ℕ)
  close_component v [] top size done = (top, size, done)
  close_component v (n ∷ ns) top size done =
      let p = priority_of g n in
      let top' : Option ℕ = elim top [ none ↦ some p | some q ↦ some (if ltb q p then p else q) ] in
      let done' = set done n (some prio) in
      let rest = close_component v ns top' (size + 1) done' in
      if n == v then (top', size + 1, done') else rest

  -- Vertices are taken off `res` until `v` is.
  pub pop_until : ℕ → List ℕ → List ℕ
  pop_until v [] = []
  pop_until v (n ∷ ns) = if n == v then ns else pop_until v ns

  -- Is there a cycle in the component, and does the loser win it?
  pub loser_wins : ℕ → Option ℕ → ℕ → Bool
  loser_wins v top size =
      let loops : Bool = elim (strategy_at g v) [ none ↦ has_edge g v v | some to ↦ to == v ] in
      let cycles = ltb 1 size || loops in
      elim top [ none ↦ false | some p ↦ cycles && p % 2 == prio % 2 ]

  -- One round, with `v` at the top of the stack and `below` under it.
  pub search_round : State → ℕ → List ℕ → Result State
  search_round s v below =
      let fresh = leb (get_or s.low v 0) bot in
      let pre = if fresh then s.pre + 1 else s.pre in
      let low = if fresh then set s.low v pre else s.low in
      let res = if fresh then v ∷ s.res else s.res in
      let t = record s { low = low; pre = pre; res = res } in
      let here = get_or low v 0 in
      elim (scan_moves t here (moves g v)) [
        | push_next to ↦ ok (record t { st = to ∷ (v ∷ below) })
        | reached least ↦
            if ltb least here
            then ok (record t { low = set low v least; st = below })
            else (let (top, size, done) = close_component v res none 0 s.done in
                if loser_wins v top size
                then throws loser_can_win
                else ok (record t { done = done; res = pop_until v res; st = below }))
      ]

  -- while (!st.empty()), with fuel; `none` means that the fuel ran out.
  pub search : ℕ → State → Option (Result State)
  search zero s = elim s.st [ [] ↦ some (ok s) | v ∷ below ↦ none ]
  search (suc fuel) s = elim s.st [
    | [] ↦ some (ok s)
    | v ∷ below ↦ elim (search_round s v below) [
      | ok t ↦ search fuel t
      | throws e ↦ some (throws e)
    ]
  ]

-- Is a search started at vertex `i`?
unfoldable pub starts : Game → Bool → Bool → State → ℕ → Bool
starts g even odd s i =
    solved_at g i
    && (looked_at even odd (winner_at g i)
        && (not (same (winner_at g i) (is_odd (priority_of g i)))
            && not (is_done s.done (priority_of g i) i)))

-- The loop over the vertices, from n - 1 down to 0.
pub search_all : ℕ → Game → Bool → Bool → ℕ → State → Option (Result State)
search_all fuel g even odd zero s = some (ok s)
search_all fuel g even odd (suc i) s = elim (starts g even odd s i) [
  | false ↦ search_all fuel g even odd i s
  | true ↦ elim (search g i (priority_of g i) s.pre fuel (record s { st = i ∷ s.st })) [
    | none ↦ none
    | some (throws e) ↦ some (throws e)
    | some (ok t) ↦ search_all fuel g even odd i t
  ]
]

-- verify(fullgame, even, odd), for a game that is sorted and has its arrays built. The result is
-- the number of strategies that were checked.
unfoldable pub verify : ℕ → Game → Bool → Bool → Bool → Option (Result ℕ)
verify fuel g fullgame even odd =
    let n = vertexcount g in
    elim (check_vertices g fullgame even odd n 0 0) [
      | throws e ↦ some (throws e)
      | ok n_strategies ↦
          elim (search_all fuel g even odd n
            (record { done = replicate n none; low = replicate n 0; pre = 0; res = []; st = [] })) [
              | none ↦ none
              | some (throws e) ↦ some (throws e)
              | some (ok t) ↦ some (ok n_strategies)
            ]
    ]
