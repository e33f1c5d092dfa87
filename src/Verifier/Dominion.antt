-- ===== src/Verifier/Dominion.antt =====
-- What the first loop of `verify` guarantees: the solved vertices form closed dominions.
use urss.Base.{
  ℕ, zero, suc, ◌+◌, ◌≤◌, ◌<◌, ◌≡◌, ◌⊎◌, inl, inr, refl, sym, ap, ◌∙◌, arith, Bool, true, false,
  not, List, [], ◌∷◌, none, some, ◌==◌, Bool-cases, Option-cases,
}
use mathlib.Core.List.{Memᴰ}
use mathlib.Core.List.Memᴰ
use urss.Game.{Game, owner_of, outs, has_edge}
use urss.Oink.{same}
use urss.Verifier.{
  Complaint, Result, ok, throws, solved_at, winner_at, strategy_at, stays, all_stay, check_winning,
  check_losing, looked_at, check_vertex, check_vertices,
}

-- A vertex keeps its dominion: its owner, if the winner, has a strategy that is an edge into the
-- dominion; if the loser, no edge leaves it and no strategy is set.
pub data Keeps (g : Game) (v : ℕ) : Type 0 where
  by_strategy :
      (to : ℕ)
      → owner_of g v ≡ winner_at g v
      → strategy_at g v ≡ some to
      → has_edge g v to ≡ true
      → solved_at g to ≡ true
      → winner_at g to ≡ winner_at g v
      → Keeps g v
  by_force :
      owner_of g v ≡ not (winner_at g v)
      → strategy_at g v ≡ none
      → ((to : ℕ) → Memᴰ to (outs g v) → (solved_at g to ≡ true) × (winner_at g to ≡ winner_at g v))
      → Keeps g v

same-eq : (a b : Bool) → same a b ≡ true → a ≡ b
same-eq true true h = refl
same-eq true false h = cc
same-eq false true h = cc
same-eq false false h = refl

same-not : (a b : Bool) → same a b ≡ false → b ≡ not a
same-not true true h = cc
same-not true false h = refl
same-not false true h = refl
same-not false false h = cc

stays-eq :
    (g : Game) (w : Bool) (to : ℕ)
    → stays g w to ≡ true
    → (solved_at g to ≡ true) × (winner_at g to ≡ w)
stays-eq g w to h = elim (Bool-cases (solved_at g to)) [
  | inl e ↦ (e, same-eq (winner_at g to) w (ground arith))
  | inr e ↦ absurd (ground arith)
]

all_stay-mem :
    (g : Game) (w : Bool) (ts : List ℕ) (to : ℕ)
    → all_stay g w ts ≡ true
    → Memᴰ to ts
    → (solved_at g to ≡ true) × (winner_at g to ≡ w)
unfolding all_stay
all_stay-mem g w [] to h m = absurd (Memᴰ.not-nil m)
all_stay-mem g w (t ∷ ts) to h m = elim (Memᴰ.cases_cons m) [
  | inl e ↦ rw e (stays-eq g w t (ground arith))
  | inr rest ↦ all_stay-mem g w ts to (ground arith) rest
]

check_winning-Keeps :
    (g : Game) (v : ℕ) (k : ℕ)
    → owner_of g v ≡ winner_at g v
    → check_winning g v (winner_at g v) ≡ ok k
    → Keeps g v
unfolding check_winning
check_winning-Keeps g v k own h = elim (Option-cases (strategy_at g v)) [
  | inl e ↦ absurd (ground arith)
  | inr (to, e) ↦
      let (in_dominion, same_winner) = stays-eq g (winner_at g v) to (ground arith) in
      by_strategy to own e (ground arith) in_dominion same_winner
]

check_losing-Keeps :
    (g : Game) (v : ℕ) (k : ℕ)
    → owner_of g v ≡ not (winner_at g v)
    → check_losing g v (winner_at g v) ≡ ok k
    → Keeps g v
unfolding check_losing
check_losing-Keeps g v k own h =
    by_force own (ground arith)
      (λ to m. all_stay-mem g (winner_at g v) (outs g v) to (ground arith) m)

check_vertex-Keeps :
    (g : Game) (full even odd : Bool) (v k : ℕ)
    → check_vertex g full even odd v ≡ ok k
    → solved_at g v ≡ true
    → looked_at even odd (winner_at g v) ≡ true
    → Keeps g v
unfolding check_vertex
check_vertex-Keeps g full even odd v k h s l =
    elim (Bool-cases (same (winner_at g v) (owner_of g v))) [
      | inl e ↦
          check_winning-Keeps g v k (sym (same-eq (winner_at g v) (owner_of g v) e)) (ground arith)
      | inr e ↦ check_losing-Keeps g v k (same-not (winner_at g v) (owner_of g v) e) (ground arith)
    ]

check_vertex-solved :
    (g : Game) (even odd : Bool) (v k : ℕ)
    → check_vertex g true even odd v ≡ ok k
    → solved_at g v ≡ true
unfolding check_vertex
check_vertex-solved g even odd v k h = ground arith

Result-cases :
    {A : Type 0} (r : Result A) → ((a : A) × (r ≡ ok a)) ⊎ ((e : Complaint) × (r ≡ throws e))
Result-cases (ok a) = inl (a, refl)
Result-cases (throws e) = inr (e, refl)

-- A loop that does not throw has passed the check of each of its vertices.
passed :
    (g : Game) (full even odd : Bool) (n i m k : ℕ)
    → check_vertices g full even odd n i m ≡ ok k
    → (v : ℕ) → i ≤ v
    → v < i + n
    → (c : ℕ) × (check_vertex g full even odd v ≡ ok c)
unfolding check_vertices
passed g full even odd zero i m k h v p q = absurd (omega arith)
passed g full even odd (suc n) i m k h v p q =
    elim (Result-cases (check_vertex g full even odd i)) [
      | inr (c, e) ↦ absurd (ground arith)
      | inl (c, e) ↦ elim (Bool-cases (v == i)) [
        | inl here ↦
            let same_v : v ≡ i = ground arith in (c, ap (check_vertex g full even odd) same_v ∙ e)
        | inr later ↦
            passed g full even odd n (suc i) (m + c) k (ground arith) v (ground arith) (omega arith)
      ]
    ]

-- A solution that passes the first loop of `verify` is closed: every solved vertex whose winner is
-- looked at keeps its dominion, and every vertex is solved if the solution is to be full.
pub check_vertices_sound :
    (g : Game) (full even odd : Bool) (n k : ℕ)
    → check_vertices g full even odd n 0 0 ≡ ok k
    → (v : ℕ) → v < n
    → (solved_at g v ≡ true → looked_at even odd (winner_at g v) ≡ true → Keeps g v)
      × (full ≡ true → solved_at g v ≡ true)
check_vertices_sound g full even odd n k h v p =
    let (c, e) = passed g full even odd n 0 0 k h v (omega arith) (omega arith) in
    (
      check_vertex-Keeps g full even odd v c e,
      λ all. check_vertex-solved g even odd v c (rw all at e),
    )
