-- ===== src/Game/Relabel/Minmax.antt =====
-- `minmax` numbers the vertices from the last to the first.
use mathlib.Core.List.{reverse, reverse_aux}
use urss.Base.{
  ℕ, suc, ◌+◌, ◌-◌, ◌%◌, ◌≤◌, ◌<◌, ◌≡◌, refl, ap, ◌∙◌, arith, List, [], ◌∷◌, none, if◌then◌else◌,
  ltb, leb, length, get_or, Bool-cases, inl, inr,
}
use urss.Game.Relabel.{relabel, renumber_step, minmax}
use urss.Game.Relabel.Order.{priority, IsSorted, length-relabel, relabel-IsSorted, relabel_parity}
use urss.Game.Relabel.Parity.{max_at, min_at, Within, renumber-keeps}

length-reverse_aux : (xs ys : List ℕ) → length (reverse_aux xs ys) ≡ length xs + length ys
length-reverse_aux [] ys = omega arith
length-reverse_aux (x ∷ xs) ys = omega (arith, length-reverse_aux xs (x ∷ ys))

length-reverse : (xs : List ℕ) → length (reverse xs) ≡ length xs
length-reverse xs = omega (arith, length-reverse_aux xs [])

cons_suc : (x : ℕ) (xs : List ℕ) (j k : ℕ) → j ≡ suc k → priority (x ∷ xs) j ≡ priority xs k
cons_suc x xs j k e = ap (priority (x ∷ xs)) e

cons_zero : (x : ℕ) (xs : List ℕ) (j : ℕ) → j ≡ 0 → priority (x ∷ xs) j ≡ x
cons_zero x xs j e = ap (priority (x ∷ xs)) e

get_or-reverse_aux :
    (xs ys : List ℕ) (i : ℕ)
    → get_or (reverse_aux xs ys) i 0
      ≡ (if ltb i (length xs) then get_or xs (length xs - 1 - i) 0 else get_or ys (i - length xs) 0)
get_or-reverse_aux [] ys i = ap (λ t. get_or ys t 0) {y = i - 0} (omega arith) ∙ ground arith
get_or-reverse_aux (x ∷ xs) ys i =
    let n = length xs in
    ground (
      arith,
      get_or-reverse_aux xs (x ∷ ys) i,
      cons_suc x xs (suc n - 1 - i) (n - 1 - i),
      cons_zero x xs (suc n - 1 - i),
      cons_suc x ys (i - n) (i - suc n),
      cons_zero x ys (i - n),
    )

priority-reverse :
    (xs : List ℕ) (i : ℕ)
    → i < length xs
    → priority (reverse xs) i ≡ priority xs (length xs - 1 - i)
priority-reverse xs i h = get_or-reverse_aux xs [] i ∙ ground arith

length-minmax : (ps : List ℕ) → length (minmax ps) ≡ length ps
unfolding minmax
length-minmax ps =
    length-reverse (relabel renumber_step none 1 (reverse ps)).0
    ∙ length-relabel renumber_step none 1 (reverse ps)
    ∙ length-reverse ps

-- After `minmax` the priorities never rise from one vertex to the next.
pub minmax_falls :
    (ps : List ℕ) (i j : ℕ)
    → i ≤ j
    → j < length ps
    → priority (minmax ps) j ≤ priority (minmax ps) i
unfolding minmax
minmax_falls ps i j h k =
    let qs = (relabel renumber_step none 1 (reverse ps)).0 in
    let n : length qs ≡ length ps =
      length-relabel renumber_step none 1 (reverse ps) ∙ length-reverse ps in
    omega (
      arith,
      n,
      priority-reverse qs i (omega (arith, n)),
      priority-reverse qs j (omega (arith, n)),
      relabel-IsSorted renumber_step none 1 (reverse ps) (length qs - 1 - j) (length qs - 1 - i)
          (omega (arith, n)) (omega (arith, n)),
    )

minmax_parity :
    (ps : List ℕ) (i : ℕ) → i < length ps → priority (minmax ps) i % 2 ≡ priority ps i % 2
unfolding minmax
minmax_parity ps i h =
    let qs = (relabel renumber_step none 1 (reverse ps)).0 in
    let m = length-reverse ps in
    let n : length qs ≡ length ps = length-relabel renumber_step none 1 (reverse ps) ∙ m in
    let k : length ps - 1 - (length qs - 1 - i) ≡ i = omega (arith, n) in
    omega (
      arith,
      priority-reverse qs i (omega (arith, n)),
      relabel_parity renumber_step renumber-keeps none 1 (reverse ps) (length qs - 1 - i)
          (omega (arith, n, m)),
      priority-reverse ps (length qs - 1 - i) (omega (arith, n)),
      ap (priority ps) k,
    )

record Extreme (ps qs : List ℕ) (v : ℕ) (vs : List ℕ) : Type 0 where
  vertex : ℕ
  in_range : vertex < length ps
  highest : max_at ps (v ∷ vs) ≡ priority ps vertex
  lowest : min_at qs v vs ≡ priority qs vertex

extreme :
    (ps : List ℕ)
    → IsSorted ps
    → (v : ℕ) (vs : List ℕ) → Within (length ps) (v ∷ vs)
    → Extreme ps (minmax ps) v vs
extreme ps s v [] w = record { vertex = v; in_range = w.0; highest = omega arith; lowest = refl }
extreme ps s v (u ∷ vs) w =
    let r = extreme ps s u vs w.1 in
    elim (Bool-cases (leb v r.vertex)) [
      | inl below ↦
          let le : v ≤ r.vertex = ground arith in
          record {
            vertex = r.vertex;
            in_range = r.in_range;
            highest = omega (arith, r.highest, s v r.vertex le r.in_range);
            lowest = omega (arith, r.lowest, minmax_falls ps v r.vertex le r.in_range);
          }
      | inr above ↦
          let le : r.vertex ≤ v = ground arith in
          record {
            vertex = v;
            in_range = w.0;
            highest = omega (arith, r.highest, s r.vertex v le w.0);
            lowest = omega (arith, r.lowest, minmax_falls ps r.vertex v le w.0);
          }
    ]

-- `minmax` turns a max game into a min game: for any vertices of a sorted game, the lowest priority
-- after it has the parity of the highest before.
pub minmax_keeps_winner :
    (ps : List ℕ)
    → IsSorted ps
    → (v : ℕ) (vs : List ℕ) → Within (length ps) (v ∷ vs)
    → min_at (minmax ps) v vs % 2 ≡ max_at ps (v ∷ vs) % 2
minmax_keeps_winner ps s v vs w =
    let r = extreme ps s v vs w in
    omega (arith, r.highest, r.lowest, minmax_parity ps r.vertex r.in_range)
