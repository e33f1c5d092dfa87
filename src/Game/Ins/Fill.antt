-- ===== src/Game/Ins/Fill.antt =====
-- The third loop of `build_in_array`: the sources are put before the end marks.
use urss.Base.{
  ℕ, zero, suc, ◌+◌, ◌≤◌, ◌<◌, ◌≡◌, refl, ap, arith, List, [], ◌∷◌, false, if◌then◌else◌, ◌==◌,
  Bool-cases, inl, inr,
}
use urss.Base.Tally.{occ}
use urss.Game.{Game, InArray, outs}
use urss.Game.Ins.{put_sources, fill_ins}
use urss.Game.Ins.Count.{Below, edges_to}
use urss.Game.Ins.Put.{sources, put, IsFilling, put-IsFilling, occ-put}

-- The edges that `x` gives to `u` when the vertices v, v + 1, ..., n of them are gone over.
abbrev pub from_range : Game → ℕ → ℕ → ℕ → ℕ → ℕ
from_range g u x zero v = 0
from_range g u x (suc n) v = (if v == x then occ u (outs g v) else 0) + from_range g u x n (suc v)

pub from_range_out : (g : Game) (u x n v : ℕ) → x < v → from_range g u x n v ≡ 0
from_range_out g u x zero v h = refl
from_range_out g u x (suc n) v h = ground (arith, h, from_range_out g u x n (suc v) (omega arith))

pub from_range_above : (g : Game) (u x n v : ℕ) → n + v ≤ x → from_range g u x n v ≡ 0
from_range_above g u x zero v h = refl
from_range_above g u x (suc n) v h =
    ground (arith, h, from_range_above g u x n (suc v) (omega (arith, h)))

pub from_range_lem :
    (g : Game) (u x n v : ℕ) → v ≤ x → x < n + v → from_range g u x n v ≡ occ u (outs g x)
from_range_lem g u x zero v h k = absurd (omega arith)
from_range_lem g u x (suc n) v h k = elim (Bool-cases (v == x)) [
  | inl e ↦
      let here : v ≡ x = ground arith in
      ground
        (arith, e, from_range_out g u x n (suc v) (omega arith), ap (λ z. occ u (outs g z)) here)
  | inr e ↦ ground (arith, e, from_range_lem g u x n (suc v) (ground arith) (omega arith))
]

module _ (n : ℕ) (start c : ℕ → ℕ) (apart : (u w : ℕ) → u < w → start u + c u < start w) where
  pub put_sources_lem :
      (v : ℕ) (ts : List ℕ) (later : ℕ → ℕ) (a : InArray)
      → IsFilling n start c apart (λ u. occ u ts + later u) a
      → Below n ts
      → IsFilling n start c apart later (put_sources v ts a)
        × ((x u : ℕ)
            → u < n
            → occ x (sources (put_sources v ts a) u)
              ≡ occ x (sources a u) + (if v == x then occ u ts else 0))
  unfolding put_sources
  put_sources_lem v [] later a h b = (
    record {
      size = h.size;
      fits = h.fits;
      pos = λ u k. omega (arith, h.pos u k);
      holds = h.holds;
      len = λ u k. omega (arith, h.len u k);
    },
    λ x u k. ground arith,
  )
  put_sources_lem v (t ∷ ts) later a h (small, b) =
      let rem : ℕ → ℕ = λ u. occ u (t ∷ ts) + later u in
      let rem' : ℕ → ℕ = λ u. occ u ts + later u in
      let same : (u : ℕ) → (u == t) ≡ false → rem u ≡ rem' u = λ u e. ground (arith, e) in
      let one : rem t ≡ rem' t + 1 = ground arith in
      let (f, g) =
        put_sources_lem v ts later (put v t a)
          (put-IsFilling n start c apart rem rem' v t a h small one same) b in
      (
        f,
        λ x u k.
            ground (arith, g x u k, occ-put n start c apart rem rem' v t a h small one same x u k),
      )

  pub fill_ins_lem :
      (g : Game) (k v : ℕ) (a : InArray)
      → IsFilling n start c apart (λ u. edges_to g u k v) a
      → ((w : ℕ) → w < k + v → Below n (outs g w))
      → IsFilling n start c apart (λ u. 0) (fill_ins g k v a)
        × ((x u : ℕ)
            → u < n
            → occ x (sources (fill_ins g k v a) u) ≡ occ x (sources a u) + from_range g u x k v)
  unfolding fill_ins
  fill_ins_lem g zero v a h b = (h, λ x u i. omega arith)
  fill_ins_lem g (suc k) v a h b =
      let (f, p) =
        put_sources_lem v (outs g v) (λ u. edges_to g u k (suc v)) a h (b v (omega arith)) in
      let (e, q) =
        fill_ins_lem g k (suc v) (put_sources v (outs g v) a) f (λ w i. b w (omega arith)) in
      (e, λ x u i. omega (arith, q x u i, p x u i))
