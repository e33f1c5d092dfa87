-- ===== src/Game/Ins/Total.antt =====
-- The blocks of ingoing edges take the room of all edges and the end marks.
use urss.Base.{
  ℕ, zero, suc, ◌+◌, ◌≤◌, ◌<◌, ◌≡◌, refl, arith, List, [], ◌∷◌, if◌then◌else◌, ◌==◌, length, get_or,
}
use urss.Base.Tally.{occ}
use urss.Game.{Game, outs}
use urss.Game.Ins.Count.{Below, edges_to}
use urss.Game.Ins.Place.{offset}

-- The number of edges from the vertices v, v + 1, ..., n of them.
abbrev pub edges_from : Game → ℕ → ℕ → ℕ
edges_from g zero v = 0
edges_from g (suc n) v = length (outs g v) + edges_from g n (suc v)

-- f 0 + ... + f (w - 1)
abbrev pub sum_to : ℕ → (ℕ → ℕ) → ℕ
sum_to zero f = 0
sum_to (suc w) f = sum_to w f + f w

sum_to_add : (w : ℕ) (f g : ℕ → ℕ) → sum_to w (λ u. f u + g u) ≡ sum_to w f + sum_to w g
sum_to_add zero f g = omega arith
sum_to_add (suc w) f g = omega (arith, sum_to_add w f g)

sum_to_zero : (w : ℕ) → sum_to w (λ u. 0) ≡ 0
sum_to_zero zero = refl
sum_to_zero (suc w) = omega (arith, sum_to_zero w)

pub sum_to_ext : (w : ℕ) (f g : ℕ → ℕ) → ((u : ℕ) → f u ≡ g u) → sum_to w f ≡ sum_to w g
sum_to_ext zero f g h = refl
sum_to_ext (suc w) f g h = omega (arith, sum_to_ext w f g h, h w)

sum_to_out : (t w : ℕ) → w ≤ t → sum_to w (λ u. if t == u then 1 else 0) ≡ 0
sum_to_out t zero h = refl
sum_to_out t (suc w) h = ground (arith, h, sum_to_out t w (omega (arith, h)))

sum_to_one : (t w : ℕ) → t < w → sum_to w (λ u. if t == u then 1 else 0) ≡ 1
sum_to_one t zero h = absurd (omega (arith, h))
sum_to_one t (suc w) h = ground (arith, h, sum_to_out t w, sum_to_one t w)

sum_occ : (w : ℕ) (ts : List ℕ) → Below w ts → sum_to w (λ u. occ u ts) ≡ length ts
sum_occ w [] b = sum_to_zero w
sum_occ w (t ∷ ts) (small, b) = omega (
  arith,
  sum_to_add w (λ u. if t == u then 1 else 0) (λ u. occ u ts),
  sum_to_one t w small,
  sum_occ w ts b,
)

sum_edges :
    (g : Game) (w n i : ℕ)
    → ((v : ℕ) → v < n + i → Below w (outs g v))
    → sum_to w (λ u. edges_to g u n i) ≡ edges_from g n i
sum_edges g w zero i b = sum_to_zero w
sum_edges g w (suc n) i b = omega (
  arith,
  sum_to_add w (λ u. occ u (outs g i)) (λ u. edges_to g u n (suc i)),
  sum_occ w (outs g i) (b i (omega arith)),
  sum_edges g w n (suc i) (λ v k. b v (omega (arith, k))),
)

offset_sum : (counts : List ℕ) (w : ℕ) → offset counts w ≡ sum_to w (λ u. get_or counts u 0) + w
offset_sum counts zero = omega arith
offset_sum counts (suc w) = omega (arith, offset_sum counts w)

pub offset_total :
    (g : Game) (counts : List ℕ) (w n : ℕ)
    → ((u : ℕ) → get_or counts u 0 ≡ edges_to g u n 0)
    → ((v : ℕ) → v < n + 0 → Below w (outs g v))
    → offset counts w ≡ edges_from g n 0 + w
offset_total g counts w n h b = omega (
  arith,
  offset_sum counts w,
  sum_to_ext w (λ u. get_or counts u 0) (λ u. edges_to g u n 0) h,
  sum_edges g w n 0 b,
)
