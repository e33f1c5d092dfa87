-- ===== src/Game/Ins/Count.antt =====
-- The first loop of `build_in_array`: how often each vertex is a target.
use urss.Base.{
  ℕ, zero, suc, ◌+◌, ◌<◌, ◌≡◌, refl, sym, subst, ap, ◌∙◌, arith, List, [], ◌∷◌, length, get_or, set,
  length-set, get_or-set,
}
use urss.Base.Tally.{occ}
use urss.Game.{Game, outs}
use urss.Game.Ins.{count_targets, count_ins}

-- All members of a list are below a bound.
abbrev pub Below : ℕ → List ℕ → Type 0
Below n [] = Unit
Below n (t ∷ ts) = (t < n) × Below n ts

-- How many edges lead to `u` from the vertices i, i + 1, ..., n of them.
abbrev pub edges_to : Game → ℕ → ℕ → ℕ → ℕ
edges_to g u zero i = 0
edges_to g u (suc n) i = occ u (outs g i) + edges_to g u n (suc i)

length-count_targets : (ts counts : List ℕ) → length (count_targets ts counts) ≡ length counts
unfolding count_targets
length-count_targets [] counts = refl
length-count_targets (t ∷ ts) counts =
    length-count_targets ts (set counts t (get_or counts t 0 + 1))
    ∙ length-set counts t (get_or counts t 0 + 1)

count_targets_lem :
    (ts counts : List ℕ) (u : ℕ)
    → Below (length counts) ts
    → get_or (count_targets ts counts) u 0 ≡ get_or counts u 0 + occ u ts
unfolding count_targets
count_targets_lem [] counts u b = omega arith
count_targets_lem (t ∷ ts) counts u (small, b) =
    let counts' = set counts t (get_or counts t 0 + 1) in
    let same : length counts' ≡ length counts = length-set counts t (get_or counts t 0 + 1) in
    let ih = count_targets_lem ts counts' u (subst (λ n. Below n ts) (sym same) b) in
    ih
    ∙ ground (
      arith,
      get_or-set counts t u (get_or counts t 0 + 1) 0 small,
      ap (λ k. get_or counts k 0) {x = u} {y = t},
    )

pub length-count_ins :
    (g : Game) (n i : ℕ) (counts : List ℕ) → length (count_ins g n i counts) ≡ length counts
unfolding count_ins
length-count_ins g zero i counts = refl
length-count_ins g (suc n) i counts =
    length-count_ins g n (suc i) (count_targets (outs g i) counts)
    ∙ length-count_targets (outs g i) counts

pub count_ins_lem :
    (g : Game) (n i : ℕ) (counts : List ℕ) (u : ℕ)
    → ((v : ℕ) → v < i + n → Below (length counts) (outs g v))
    → get_or (count_ins g n i counts) u 0 ≡ get_or counts u 0 + edges_to g u n i
unfolding count_ins
count_ins_lem g zero i counts u b = omega arith
count_ins_lem g (suc n) i counts u b =
    let counts' = count_targets (outs g i) counts in
    let same : length counts' ≡ length counts = length-count_targets (outs g i) counts in
    omega (
      arith,
      count_ins_lem g n (suc i) counts' u
          (λ v h. subst (λ k. Below k (outs g v)) (sym same) (b v (omega arith))),
      count_targets_lem (outs g i) counts u (b i (omega arith)),
    )
