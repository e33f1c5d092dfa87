-- ===== src/Oink/Attract.antt =====
-- The invariant of `flush`, and what `solve` does to it.
use urss.Base.{
  ℕ, ◌+◌, ◌≤◌, ◌<◌, ◌≡◌, refl, sym, ap, ◌∙◌, arith, Bool, true, false, not, ◌&&◌, ◌||◌, List, ◌∷◌,
  Option, none, some, if◌then◌else◌, ◌==◌, ltb, length, get_or, length-set, get_or-set,
}
use urss.UintQueue
use urss.UintQueue.{UintQueue}
use urss.UintQueue.Stack.{contents, contents-push, capacity}
use urss.Game.{owner_of}
use urss.Game.Ins.{ins}
use urss.Oink.{Oink, solve, same, is_solved, is_disabled, winner_of}
use urss.Base.Tally.{occ, unset, unset-set}

abbrev pub strategy_of : Oink → ℕ → Option ℕ
strategy_of o v = get_or o.game.strategy v none

abbrev pub in_todo : Oink → ℕ → Bool
in_todo o u = ltb 0 (occ u (contents o.todo))

-- The graph that is attracted in: `counted` says which vertices `outcount` was made for.
pub record Graph : Type 0 where
  pub n : ℕ
  pub owner : ℕ → Bool
  pub succ : ℕ → List ℕ
  pub pred : ℕ → List ℕ
  pub counted : ℕ → Bool

pub record IsGraph (G : Graph) : Type 0 where
  pub converse : (x v : ℕ) → x < G.n → v < G.n → occ x (G.pred v) ≡ occ v (G.succ x)
  pub in_range : (x v : ℕ) → v < G.n → 0 < occ x (G.pred v) → x < G.n

-- The state of `o` lies over the graph, and its arrays have its size.
pub record IsOver (G : Graph) (o : Oink) : Type 0 where
  pub owners : (v : ℕ) → owner_of o.game v ≡ G.owner v
  pub preds : (v : ℕ) → v < G.n → ins o.game v ≡ G.pred v
  pub solved_size : length o.game.solved ≡ G.n
  pub winner_size : length o.game.winner ≡ G.n
  pub strategy_size : length o.game.strategy ≡ G.n
  pub disabled_size : length o.disabled ≡ G.n
  pub outcount_size : length o.outcount ≡ G.n
  pub room : o.todo.pointer + unset o.game.solved ≤ capacity o.todo

-- A counted vertex whose predecessors still have to be looked at: it is not solved, or waits.
abbrev pub is_open : Graph → Oink → ℕ → Bool
is_open G o u = G.counted u && (not (is_solved o u) || in_todo o u)

-- Vertices that `flush` may still solve.
abbrev pub is_free : Oink → ℕ → Bool
is_free o x = not (is_solved o x) && not (is_disabled o x)

-- Why a vertex is won: its owner moves to a vertex won by the owner, or all its counted successors
-- are won by the other player.
pub data Attracted (G : Graph) (o : Oink) (x : ℕ) : Type 0 where
  by_choice :
      (u : ℕ)
      → winner_of o x ≡ G.owner x
      → strategy_of o x ≡ some u
      → 0 < occ u (G.succ x)
      → is_solved o u ≡ true
      → winner_of o u ≡ winner_of o x
      → Attracted G o x
  by_force :
      winner_of o x ≡ not (G.owner x)
      → strategy_of o x ≡ none
      → ((u : ℕ)
          → 0 < occ u (G.succ x)
          → G.counted u ≡ true
          → (is_solved o u ≡ true) × (winner_of o u ≡ winner_of o x))
      → Attracted G o x

-- The effect of `solve` on the vertex `x`.
module _ (G : Graph) (o : Oink) (x : ℕ) (w : Bool) (s : Option ℕ) (over : IsOver G o)
    (in_range : x < G.n) (fresh : is_solved o x ≡ false) where
  pub solved-solve :
      (u : ℕ) → is_solved (solve o x w s) u ≡ (if u == x then true else is_solved o u)
  unfolding solve
  solved-solve u = get_or-set o.game.solved x u true false (omega (arith, over.solved_size))

  pub winner-solve : (u : ℕ) → winner_of (solve o x w s) u ≡ (if u == x then w else winner_of o u)
  unfolding solve
  winner-solve u = get_or-set o.game.winner x u w false (omega (arith, over.winner_size))

  pub strategy-solve :
      (u : ℕ)
      → strategy_of (solve o x w s) u
        ≡ (if u == x then (if same w (G.owner x) then s else none) else strategy_of o u)
  unfolding solve
  strategy-solve u =
      get_or-set o.game.strategy x u (if same w (owner_of o.game x) then s else none) none
        (omega (arith, over.strategy_size))
      ∙ ap (λ b. if u == x then (if same w b then s else none) else strategy_of o u) (over.owners x)

  pub disabled-solve :
      (u : ℕ) → is_disabled (solve o x w s) u ≡ (if u == x then true else is_disabled o u)
  unfolding solve
  disabled-solve u = get_or-set o.disabled x u true false (omega (arith, over.disabled_size))

  pub todo-solve : contents (solve o x w s).todo ≡ x ∷ contents o.todo
  unfolding solve
  todo-solve =
      contents-push o.todo x (
        omega (arith, over.room, unset-set o.game.solved x (omega (arith, over.solved_size)) fresh))

  pub outcount-solve : (solve o x w s).outcount ≡ o.outcount
  unfolding solve
  outcount-solve = refl

  pub work-solve :
      (solve o x w s).todo.pointer + unset (solve o x w s).game.solved
      ≡ o.todo.pointer + unset o.game.solved
  unfolding solve UintQueue.push
  work-solve = omega (arith, unset-set o.game.solved x (omega (arith, over.solved_size)) fresh)

  pub solve-IsOver : IsOver G (solve o x w s)
  unfolding solve UintQueue.push ins
  solve-IsOver = record {
    owners = over.owners;
    preds = over.preds;
    solved_size = rw length-set over.solved_size;
    winner_size = rw length-set over.winner_size;
    strategy_size = rw length-set over.strategy_size;
    disabled_size = rw length-set over.disabled_size;
    outcount_size = over.outcount_size;
    room = omega (
      arith,
      over.room,
      length-set o.todo.queue o.todo.pointer x,
      unset-set o.game.solved x (omega (arith, over.solved_size)) fresh,
    );
  }

  -- A vertex that is solved waits, and so stays open if it was.
  pub open-solve : (u : ℕ) → is_open G (solve o x w s) u ≡ is_open G o u
  open-solve u =
      ground (arith, solved-solve u, ap (occ u) todo-solve, ap (is_solved o) {x = u} {y = x}, fresh)

  solved_is_other : (u : ℕ) → is_solved o u ≡ true → (u == x) ≡ false
  solved_is_other u done = ground (arith, ap (is_solved o) {x = u} {y = x}, fresh)

  pub solved-kept : (u : ℕ) → is_solved o u ≡ true → is_solved (solve o x w s) u ≡ true
  solved-kept u done = ground (arith, solved-solve u)

  pub winner-kept : (u : ℕ) → is_solved o u ≡ true → winner_of (solve o x w s) u ≡ winner_of o u
  winner-kept u done = rw (winner-solve u, solved_is_other u done) refl

  pub strategy-kept :
      (u : ℕ) → is_solved o u ≡ true → strategy_of (solve o x w s) u ≡ strategy_of o u
  strategy-kept u done = rw (strategy-solve u, solved_is_other u done) refl

  self_eq : (x == x) ≡ true
  self_eq = ground arith

  pub solved-here : is_solved (solve o x w s) x ≡ true
  solved-here = rw (solved-solve x, self_eq) refl

  pub winner-here : winner_of (solve o x w s) x ≡ w
  winner-here = rw (winner-solve x, self_eq) refl

  pub strategy-here : strategy_of (solve o x w s) x ≡ (if same w (G.owner x) then s else none)
  strategy-here = rw (strategy-solve x, self_eq) refl

  -- What is won stays won.
  pub Attracted-solve :
      (u : ℕ) → is_solved o u ≡ true → Attracted G o u → Attracted G (solve o x w s) u
  Attracted-solve u done (by_choice t a b c d e) =
      by_choice t (winner-kept u done ∙ a) (strategy-kept u done ∙ b) c (solved-kept t d)
        (winner-kept t d ∙ e ∙ sym (winner-kept u done))
  Attracted-solve u done (by_force a b f) =
      by_force (winner-kept u done ∙ a) (strategy-kept u done ∙ b) (λ t p q.
        let (d, e) = f t p q in (solved-kept t d, winner-kept t d ∙ e ∙ sym (winner-kept u done)))
