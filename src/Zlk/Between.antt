-- ===== src/Zlk/Between.antt =====
-- The state of `attractExt` between two heads.
use urss.Base.{
  ℕ, suc, ◌≤◌, ◌<◌, ◌≡◌, subst, arith, Bool, true, false, List, ◌==◌, get_or, Bool-cases, inl, inr,
}
use urss.UintQueue
use urss.UintQueue.{UintQueue}
use urss.Game.{Game, vertexcount}
use urss.Oink.{Oink}
use urss.Oink.Ready.{IsReady}
use urss.Oink.Start.{graph_of}
use urss.Zlk.{Zlk, region_of, is_taken, is_within}
use urss.Zlk.Matches.{Matches}
use urss.Zlk.Take.{lower-Matches}
use urss.Zlk.Reached.{Reached}

-- Between two heads: the vertices from `i` on are dealt with, and the queue is empty.
pub record IsBetween (g : Game) (disabled : List Bool) (i : ℕ) (pl : Bool) (y : Zlk) (p : Oink)
    : Type 0 where
  pub matches : Matches g (vertexcount g) i 0 pl y p
  pub ready : IsReady (graph_of g disabled) p
  pub idle : UintQueue.nonempty p.todo ≡ false
  pub reached : (v : ℕ) → is_within 0 (region_of y v) ≡ true → Reached g disabled pl y v
  pub dealt : (v : ℕ) → i ≤ v → v < vertexcount g → is_taken (region_of y v) ≡ true
  pub off :
      (v : ℕ)
      → v < vertexcount g
      → is_taken (region_of y v) ≡ true
      → is_within 0 (region_of y v) ≡ false
      → get_or disabled v false ≡ true

-- A vertex that is dealt with and not disabled is taken for the region.
pub between_within :
    (g : Game) (disabled : List Bool) (i : ℕ) (pl : Bool) (y : Zlk) (p : Oink)
    → IsBetween g disabled i pl y p
    → (v : ℕ) → i ≤ v
    → v < vertexcount g
    → get_or disabled v false ≡ false
    → is_within 0 (region_of y v) ≡ true
between_within g disabled i pl y p s v k l e = elim (Bool-cases (is_within 0 (region_of y v))) [
  | inl w ↦ w
  | inr w ↦ absurd (ground (arith, s.off v l (s.dealt v k l) w, e))
]

pub lower-IsBetween :
    (g : Game) (disabled : List Bool) (i : ℕ) (pl : Bool) (y : Zlk) (p : Oink)
    → IsBetween g disabled (suc i) pl y p
    → is_taken (region_of y i) ≡ true
    → IsBetween g disabled i pl y p
lower-IsBetween g disabled i pl y p s t = record {
  matches = lower-Matches g (vertexcount g) i 0 pl y p s.matches t;
  ready = s.ready;
  idle = s.idle;
  reached = s.reached;
  dealt = λ v k l. elim (Bool-cases (v == i)) [
    | inl e ↦ let here : i ≡ v = ground arith in subst (λ x. is_taken (region_of y x) ≡ true) here t
    | inr e ↦ s.dealt v (ground arith) l
  ];
  off = s.off;
}
