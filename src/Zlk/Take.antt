-- ===== src/Zlk/Take.antt =====
-- `attractExt` takes a vertex where `flush` solves one.
use urss.Base.{
  ℕ, suc, ◌<◌, ◌≡◌, refl, sym, subst, ap, ◌∙◌, arith, Bool, true, false, ◌||◌, Option, none, some,
  if◌then◌else◌, ◌==◌, leb, get_or, length-set, get_or-set, Bool-cases, inl, inr,
}
use urss.UintQueue
use urss.Game.{Game, outs}
use urss.Game.Ins.{ins}
use urss.Oink.{Oink, solve, same, is_solved, winner_of}
use urss.Base.Tally.{occ}
use urss.Oink.Attract.{
  Graph, IsOver, in_todo, solved-solve, winner-solve, strategy-solve, disabled-solve, todo-solve,
  outcount-solve,
}
use urss.Oink.Attract
use urss.Oink.Counted.{count_of}
use urss.Zlk.{
  Region, level, Zlk, region_of, winning_of, strategy_of, is_taken, is_within, counts, count_open,
  take_vertex,
}
use urss.Zlk.Matches.{
  Agrees, Left, Matches, not_within, need, count_open_ext, region-set, counts-set,
}

pub if_then {ℓ} : {A : Type ℓ} (b : Bool) (p q : A) → b ≡ true → (if b then p else q) ≡ p
if_then true p q e = refl
if_then false p q e = absurd (ground (arith, e))

pub if_else {ℓ} : {A : Type ℓ} (b : Bool) (p q : A) → b ≡ false → (if b then p else q) ≡ q
if_else true p q e = absurd (ground (arith, e))
if_else false p q e = refl

within_if :
    (b : Bool) (r : ℕ) (e : Region)
    → is_within 0 (if b then level r else e) ≡ (if b then true else is_within 0 e)
within_if true r e = ground arith
within_if false r e = refl

is_taken_if :
    (b : Bool) (r : ℕ) (e : Region)
    → is_taken (if b then level r else e) ≡ (if b then true else is_taken e)
is_taken_if true r e = refl
is_taken_if false r e = refl

module _ (G : Graph) (g : Game) (i r : ℕ) (pl : Bool) (z : Zlk) (o : Oink)
    (a : Agrees g G.n i r pl z o) (over : IsOver G o) (x : ℕ) (s t : Option ℕ) (small : x < G.n)
    (free : is_taken (region_of z x) ≡ false)
    (move : s ≡ (if same pl (G.owner x) then t else none)) where
  fresh : is_solved o x ≡ false
  fresh = a.taken x ∙ not_within 0 (region_of z x) free

  region-take :
      (v : ℕ) → region_of (take_vertex z x r pl s) v ≡ (if v == x then level r else region_of z v)
  unfolding take_vertex
  region-take v = region-set g G.n i r pl z o a x small free (level r) v

  within-take :
      (v : ℕ)
      → is_within 0 (region_of (take_vertex z x r pl s) v)
        ≡ (if v == x then true else is_within 0 (region_of z v))
  within-take v = ap (is_within 0) (region-take v) ∙ within_if (v == x) r (region_of z v)

  winning-take :
      (v : ℕ) → winning_of (take_vertex z x r pl s) v ≡ (if v == x then some pl else winning_of z v)
  unfolding take_vertex
  winning-take v = get_or-set z.winning x v (some pl) none (omega (arith, a.winning_size, small))

  strategy-take :
      (v : ℕ) → strategy_of (take_vertex z x r pl s) v ≡ (if v == x then s else strategy_of z v)
  unfolding take_vertex
  strategy-take v = get_or-set z.strategy x v s none (omega (arith, a.strategy_size, small))

  pub taken-take :
      (v : ℕ)
      → is_taken (region_of (take_vertex z x r pl s) v)
        ≡ (if v == x then true else is_taken (region_of z v))
  taken-take v = ap is_taken (region-take v) ∙ is_taken_if (v == x) r (region_of z v)

  abbrev kept : Option ℕ
  kept = if same pl (G.owner x) then t else none

  winner-now : (v : ℕ) → winner_of (solve o x pl t) v ≡ (if v == x then pl else winner_of o v)
  winner-now = winner-solve G o x pl t over small fresh

  strategy-now :
      (v : ℕ)
      → Attract.strategy_of (solve o x pl t) v ≡ (if v == x then kept else Attract.strategy_of o v)
  strategy-now = strategy-solve G o x pl t over small fresh

  region-other : (v : ℕ) → (v == x) ≡ false → region_of (take_vertex z x r pl s) v ≡ region_of z v
  region-other v e = region-take v ∙ if_else (v == x) (level r) (region_of z v) e

  within-before :
      (v : ℕ)
      → (v == x) ≡ false
      → is_within r (region_of (take_vertex z x r pl s) v) ≡ true
      → is_within r (region_of z v) ≡ true
  within-before v e w = sym (ap (is_within r) (region-other v e)) ∙ w

  pub take-Agrees : Agrees g G.n i r pl (take_vertex z x r pl s) (solve o x pl t)
  unfolding take_vertex solve ins
  take-Agrees = record {
    same_owner = a.same_owner;
    same_ins = a.same_ins;
    region_size = rw length-set a.region_size;
    winning_size = rw length-set a.winning_size;
    strategy_size = rw length-set a.strategy_size;
    taken =
        λ v. ground (arith, solved-solve G o x pl t over small fresh v, within-take v, a.taken v);
    barred = λ v b. ground (
      arith,
      solved-solve G o x pl t over small fresh v,
      disabled-solve G o x pl t over small fresh v,
      taken-take v,
      a.barred v b,
    );
    won = λ v w. elim (Bool-cases (v == x)) [
      | inl e ↦
          winning-take v
          ∙ if_then (v == x) (some pl) (winning_of z v) e
          ∙ ap some (sym (winner-now v ∙ if_then (v == x) pl (winner_of o v) e))
      | inr e ↦
          winning-take v
          ∙ if_else (v == x) (some pl) (winning_of z v) e
          ∙ a.won v (within-before v e w)
          ∙ ap some (sym (winner-now v ∙ if_else (v == x) pl (winner_of o v) e))
    ];
    moves = λ v w. elim (Bool-cases (v == x)) [
      | inl e ↦
          strategy-take v
          ∙ if_then (v == x) s (strategy_of z v) e
          ∙ move
          ∙ sym (strategy-now v ∙ if_then (v == x) kept (Attract.strategy_of o v) e)
      | inr e ↦
          strategy-take v
          ∙ if_else (v == x) s (strategy_of z v) e
          ∙ a.moves v (within-before v e w)
          ∙ sym (strategy-now v ∙ if_else (v == x) kept (Attract.strategy_of o v) e)
    ];
    mine = λ v w. elim (Bool-cases (v == x)) [
      | inl e ↦ winner-now v ∙ if_then (v == x) pl (winner_of o v) e
      | inr e ↦
          winner-now v ∙ if_else (v == x) pl (winner_of o v) e ∙ a.mine v (within-before v e w)
    ];
    queue = ap (λ q. UintQueue.push q x) a.queue;
    queue_won = λ u q. ground (
      arith,
      q,
      ap (occ u) (todo-solve G o x pl t over small fresh),
      winner-solve G o x pl t over small fresh u,
      a.queue_won u,
    );
  }

  counts-take : (v : ℕ) → counts r (region_of (take_vertex z x r pl s) v) ≡ counts r (region_of z v)
  unfolding take_vertex
  counts-take v = counts-set g G.n i r pl z o a x small free (level r) v (ground arith)

  pub take-Left :
      ((y : ℕ)
        → y < i
        → (y == x) ≡ false
        → is_taken (region_of z y) ≡ false
        → count_of o y ≡ need (region_of z y) (count_open z r (outs g y)))
      → Left g i r (take_vertex z x r pl s) (solve o x pl t)
  take-Left left y b f = elim (Bool-cases (y == x)) [
    | inl e ↦ absurd (ground (arith, f, taken-take y, e))
    | inr e ↦
        ap (λ l. get_or l y 0) (outcount-solve G o x pl t over small fresh)
        ∙ left y b e (sym (ap is_taken (region-other y e)) ∙ f)
        ∙ ap (need (region_of z y))
            (sym (count_open_ext (take_vertex z x r pl s) z r (outs g y) counts-take))
        ∙ ap (λ k. need k (count_open (take_vertex z x r pl s) r (outs g y)))
            (sym (region-other y e))
  ]

-- The bound is lowered to a vertex that is taken.
pub lower-Matches :
    (g : Game) (n i r : ℕ) (pl : Bool) (z : Zlk) (o : Oink)
    → Matches g n (suc i) r pl z o
    → is_taken (region_of z i) ≡ true
    → Matches g n i r pl z o
lower-Matches g n i r pl z o m t = (
  record {
    same_owner = m.0.same_owner;
    same_ins = m.0.same_ins;
    region_size = m.0.region_size;
    winning_size = m.0.winning_size;
    strategy_size = m.0.strategy_size;
    taken = m.0.taken;
    barred = λ v h. elim (Bool-cases (v == i)) [
      | inl e ↦
          let here : i ≡ v = ground arith in
          let k : is_taken (region_of z v) ≡ true =
            subst (λ k. is_taken (region_of z k) ≡ true) here t in
          ground (arith, m.0.barred v h, k)
      | inr e ↦
          m.0.barred v h
          ∙ ap (λ b. b || is_taken (region_of z v)) {x = leb (suc i) v} {y = leb i v} (ground arith)
    ];
    won = m.0.won;
    moves = m.0.moves;
    mine = m.0.mine;
    queue = m.0.queue;
    queue_won = m.0.queue_won;
  },
  λ x h f. m.1 x (omega (arith, h)) f,
)
