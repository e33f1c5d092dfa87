-- ===== src/Game/Permute.antt =====
-- `sort`, `permute` and `unsafe_permute` of oink/src/game.cpp.
use mathlib.Core.Option
use urss.Base.{
  ℕ, zero, suc, ◌+◌, ◌-◌, Bool, true, false, not, ◌&&◌, List, [], ◌∷◌, Option, none, some,
  if◌then◌else◌, ◌==◌, ltb, get_or, set, replicate,
}
use urss.Game.{Game, InArray, priority_of}

-- if (e != -1) e = mapping[e]
pub relink : List ℕ → Option ℕ → Option ℕ
relink mapping none = none
relink mapping (some t) = some (get_or mapping t 0)

-- The first n entries.
pub relink_first : List ℕ → ℕ → List (Option ℕ) → List (Option ℕ)
relink_first mapping zero es = es
relink_first mapping (suc n) [] = []
relink_first mapping (suc n) (e ∷ es) = relink mapping e ∷ relink_first mapping n es

-- std::swap(xs[i], xs[k])
pub swap_entries {ℓ} : {A : Type ℓ} → A → ℕ → ℕ → List A → List A
swap_entries d i k xs = let a = get_or xs i d in set (set xs i (get_or xs k d)) k a

unfoldable pub swap_ins : ℕ → ℕ → InArray → InArray
swap_ins i k a = record a {
  firstins = swap_entries 0 i k a.firstins;
  incount = swap_entries 0 i k a.incount;
}

unfoldable pub swap_vertices : ℕ → ℕ → Game → Game
swap_vertices i k g = record g {
  priority = swap_entries 0 i k g.priority;
  owner = swap_entries false i k g.owner;
  label = swap_entries none i k g.label;
  firstouts = swap_entries 0 i k g.firstouts;
  outcount = swap_entries 0 i k g.outcount;
  inedges = Option.map (swap_ins i k) g.inedges;
  solved = swap_entries false i k g.solved;
  winner = swap_entries false i k g.winner;
  strategy = swap_entries none i k g.strategy;
}

-- while (mapping[i] != i), with fuel; `none` means that the fuel ran out.
pub settle : ℕ → ℕ → List ℕ → Game → Option (List ℕ × Game)
settle zero i mapping g = if get_or mapping i 0 == i then some (mapping, g) else none
settle (suc fuel) i mapping g =
    let k = get_or mapping i 0 in
    let rest = settle fuel i (set (set mapping i (get_or mapping k 0)) k k) (swap_vertices i k g) in
    if k == i then some (mapping, g) else rest

-- The loop over the vertices i, i + 1, ..., n of them; every inner loop has the same fuel.
pub settle_all : ℕ → ℕ → ℕ → List ℕ → Game → Option (List ℕ × Game)
settle_all fuel zero i mapping g = some (mapping, g)
settle_all fuel (suc n) i mapping g = elim (settle fuel i mapping g) [
  | none ↦ none
  | some (m, h) ↦ settle_all fuel n (suc i) m h
]

unfoldable pub relink_all : List ℕ → Game → Game
relink_all mapping g =
    let len = g.n_vertices + g.n_edges in
    record g {
      strategy = relink_first mapping g.n_vertices g.strategy;
      outedges = relink_first mapping len g.outedges;
      inedges =
          Option.map {A = InArray} (λ a. record a { edges = relink_first mapping len a.edges })
            g.inedges;
    }

-- A cycle of the permutation has no more than n vertices.
unfoldable pub unsafe_permute : List ℕ → Game → Option Game
unsafe_permute mapping g =
    Option.map (λ r. r.1) (settle_all g.n_vertices g.n_vertices 0 mapping (relink_all mapping g))

-- The loop that decides `is_ordered`, for the indices i, i + 1, ..., n of them.
pub ordered_from : List ℕ → ℕ → ℕ → Bool
ordered_from ps zero i = true
ordered_from ps (suc n) i =
    not (ltb (get_or ps i 0) (get_or ps (i - 1) 0)) && ordered_from ps n (suc i)

unfoldable pub permute : List ℕ → Game → Option Game
permute mapping g =
    Option.map {A = Game}
      (λ h. record h { is_ordered = ordered_from h.priority (h.n_vertices - 1) 1 })
      (unsafe_permute mapping g)

-- mapping[i] = i for i, i + 1, ..., n of them
pub identity_from : ℕ → ℕ → List ℕ
identity_from zero i = []
identity_from (suc n) i = i ∷ identity_from n (suc i)

-- inverse[mapping[i]] = i
pub invert_from : List ℕ → ℕ → List ℕ → List ℕ
invert_from [] i inverse = inverse
invert_from (m ∷ ms) i inverse = invert_from ms (suc i) (set inverse m i)

-- std::sort is a parameter: it is given the comparison and the range. The result is the game and
-- the mapping; a caller without a mapping drops the second.
unfoldable pub sort : ((ℕ → ℕ → Bool) → List ℕ → List ℕ) → Game → Option (Game × List ℕ)
sort std_sort g =
    let n = g.n_vertices in
    let start = identity_from n 0 in
    let mapping = std_sort (λ a b. ltb (priority_of g a) (priority_of g b)) start in
    if g.is_ordered
    then some (g, start)
    else Option.map {A = Game} (λ h. (record h { is_ordered = true }, mapping))
        (unsafe_permute (invert_from mapping 0 (replicate n 0)) g)
