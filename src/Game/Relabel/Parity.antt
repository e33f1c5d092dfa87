-- ===== src/Game/Relabel/Parity.antt =====
-- Who wins a cycle is decided by the parity of its highest priority (the lowest, in a min game):
-- what the renumberings and `evenodd` do to it.
use urss.Base.{
  ℕ, zero, suc, ◌+◌, ◌%◌, ◌≤◌, ◌<◌, ◌≡◌, inl, inr, refl, ◌∙◌, arith, max, min, List, [], ◌∷◌, none,
  leb, length, map, get_or, Bool, false, not, length-map, Bool-cases,
}
use urss.Game.Relabel.{
  Step, relabel, inflate_step, compress_step, renumber_step, inflate, compress, renumber, evenodd,
}
use urss.Game.Relabel.Order.{priority, IsSorted, length-relabel, relabel-IsSorted, relabel_parity}

-- The highest priority of some vertices.
abbrev pub max_at : List ℕ → List ℕ → ℕ
max_at ps [] = 0
max_at ps (v ∷ vs) = max (priority ps v) (max_at ps vs)

-- The lowest priority of a vertex and some others.
abbrev pub min_at : List ℕ → ℕ → List ℕ → ℕ
min_at ps v [] = priority ps v
min_at ps v (w ∷ vs) = min (priority ps v) (min_at ps w vs)

-- All are vertices of a game of n vertices.
abbrev pub Within : ℕ → List ℕ → Type 0
Within n [] = Unit
Within n (v ∷ vs) = (v < n) × Within n vs

-- The vertex of highest number has the highest priority in every sorted numbering.
record Top (ps qs vs : List ℕ) : Type 0 where
  vertex : ℕ
  in_range : vertex < length ps
  first_max : max_at ps vs ≡ priority ps vertex
  second_max : max_at qs vs ≡ priority qs vertex

top :
    (ps qs : List ℕ)
    → IsSorted ps
    → IsSorted qs
    → length qs ≡ length ps
    → (v : ℕ) (vs : List ℕ) → Within (length ps) (v ∷ vs)
    → Top ps qs (v ∷ vs)
top ps qs s t e v [] w = record {
  vertex = v;
  in_range = w.0;
  first_max = omega arith;
  second_max = omega arith;
}
top ps qs s t e v (u ∷ vs) w =
    let r = top ps qs s t e u vs w.1 in
    elim (Bool-cases (leb v r.vertex)) [
      | inl below ↦
          let le : v ≤ r.vertex = ground arith in
          record {
            vertex = r.vertex;
            in_range = r.in_range;
            first_max = omega (arith, r.first_max, s v r.vertex le r.in_range);
            second_max =
                omega (arith, r.second_max, t v r.vertex le (omega (arith, e, r.in_range)));
          }
      | inr above ↦
          let le : r.vertex ≤ v = ground arith in
          record {
            vertex = v;
            in_range = w.0;
            first_max = omega (arith, r.first_max, s r.vertex v le w.0);
            second_max = omega (arith, r.second_max, t r.vertex v le (omega (arith, e, w.0)));
          }
    ]

inflate-keeps : (last prio p : ℕ) → (prio + (inflate_step last prio p).0) % 2 ≡ p % 2
unfolding inflate_step
inflate-keeps last prio p = ground arith

pub compress-keeps : (last prio p : ℕ) → (prio + (compress_step last prio p).0) % 2 ≡ p % 2
unfolding compress_step
compress-keeps last prio p = ground arith

pub renumber-keeps : (last prio p : ℕ) → (prio + (renumber_step last prio p).0) % 2 ≡ p % 2
unfolding renumber_step
renumber-keeps last prio p = ground arith

relabel_winner :
    (step : Step)
    → ((last prio p : ℕ) → (prio + (step last prio p).0) % 2 ≡ p % 2)
    → (ps : List ℕ) → IsSorted ps
    → (v : ℕ) (vs : List ℕ) → Within (length ps) (v ∷ vs)
    → max_at (relabel step none 1 ps).0 (v ∷ vs) % 2 ≡ max_at ps (v ∷ vs) % 2
relabel_winner step keeps ps s v vs w =
    let r =
      top ps (relabel step none 1 ps).0 s (relabel-IsSorted step none 1 ps)
        (length-relabel step none 1 ps) v vs w in
    omega
      (arith, r.first_max, r.second_max, relabel_parity step keeps none 1 ps r.vertex r.in_range)

-- `inflate`, `compress` and `renumber` keep the winner of every cycle: for any vertices of a sorted
-- game, the highest priority among them has the same parity before and after.
pub relabel_keeps_winner :
    (ps : List ℕ)
    → IsSorted ps
    → (v : ℕ) (vs : List ℕ) → Within (length ps) (v ∷ vs)
    → (max_at (inflate ps).0 (v ∷ vs) % 2 ≡ max_at ps (v ∷ vs) % 2)
      × (max_at (compress ps).0 (v ∷ vs) % 2 ≡ max_at ps (v ∷ vs) % 2)
      × (max_at (renumber ps).0 (v ∷ vs) % 2 ≡ max_at ps (v ∷ vs) % 2)
unfolding inflate compress renumber
relabel_keeps_winner [] s v vs w = absurd (omega (arith, w.0))
relabel_keeps_winner (p ∷ ps) s v vs w = (
  relabel_winner inflate_step inflate-keeps (p ∷ ps) s v vs w,
  relabel_winner compress_step compress-keeps (p ∷ ps) s v vs w,
  relabel_winner renumber_step renumber-keeps (p ∷ ps) s v vs w,
)

priority-map_suc :
    (ps : List ℕ) (i : ℕ) → i < length ps → priority (map (λ p. p + 1) ps) i ≡ priority ps i + 1
priority-map_suc [] i h = absurd (omega arith)
priority-map_suc (p ∷ ps) zero h = refl
priority-map_suc (p ∷ ps) (suc i) h = priority-map_suc ps i (omega arith)

get_or-map-not :
    (bs : List Bool) (u : ℕ) → u < length bs → get_or (map not bs) u false ≡ not (get_or bs u false)
get_or-map-not [] u h = absurd (omega arith)
get_or-map-not (b ∷ bs) zero h = refl
get_or-map-not (b ∷ bs) (suc u) h = get_or-map-not bs u (omega arith)

-- evenodd swaps the players of a sorted game: the highest priority among any vertices changes its
-- parity, and each vertex changes its owner.
pub evenodd_flips_winner :
    (ps : List ℕ) (owner : List Bool)
    → IsSorted ps
    → (v : ℕ) (vs : List ℕ) → Within (length ps) (v ∷ vs)
    → (u : ℕ) → u < length owner
    → (max_at (evenodd ps owner).0 (v ∷ vs) % 2 ≡ (max_at ps (v ∷ vs) + 1) % 2)
      × (get_or (evenodd ps owner).1 u false ≡ not (get_or owner u false))
unfolding evenodd
evenodd_flips_winner ps owner s v vs w u k =
    let up = map (λ p. p + 1) ps in
    let n = length-map ps (λ p. p + 1) in
    let r =
      top ps (relabel renumber_step none 1 up).0 s (relabel-IsSorted renumber_step none 1 up)
        (length-relabel renumber_step none 1 up ∙ n) v vs w in
    (
      omega (
        arith,
        r.first_max,
        r.second_max,
        priority-map_suc ps r.vertex r.in_range,
        relabel_parity renumber_step renumber-keeps none 1 up r.vertex
            (omega (arith, n, r.in_range)),
      ),
      get_or-map-not owner u k,
    )
