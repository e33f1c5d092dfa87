-- ===== src/Oink/Counted.antt =====
-- The queue, `outcount` and the solution agree.
use urss.Base.{
  ℕ, ◌+◌, ◌-◌, ◌%◌, ◌<◌, ◌≡◌, ◌⊎◌, sym, ap, ◌∙◌, subst, arith, Bool, true, false, not, List, Option,
  ◌==◌, get_or, set, Bool-cases, inl, inr,
}
use urss.UintQueue.Stack.{contents}
use urss.Oink.{Oink, solve, is_solved, is_disabled, winner_of, int_mod}
use urss.Base.Tally.{tally, occ, Distinct, tally_ext}
use urss.Oink.Attract.{
  Graph, IsOver, is_open, is_free, in_todo, solved-solve, disabled-solve, todo-solve,
  outcount-solve, solve-IsOver, open-solve, winner-kept, solved-kept,
}

abbrev pub count_of : Oink → ℕ → ℕ
count_of o x = get_or o.outcount x 0

-- --outcount[x]
abbrev pub count_down : Oink → ℕ → Oink
count_down o x = record o {
  outcount = set o.outcount x ((get_or o.outcount x 0 + int_mod - 1) % int_mod);
}

-- The predecessors `rest` of the vertex `v`, just taken from the queue, are still to be looked at.
pub record IsCounted (G : Graph) (v : ℕ) (rest : List ℕ) (o : Oink) : Type 0 where
  pub over : IsOver G o
  pub ints : (x : ℕ) → count_of o x < int_mod
  pub enabled : (x : ℕ) → x < G.n → is_disabled o x ≡ false → G.counted x ≡ true
  pub near : (x : ℕ) → 0 < occ x rest → (x < G.n) × (0 < occ v (G.succ x))
  -- `outcount` counts the open successors, and the moves to `v` that are not looked at.
  pub count :
      (x : ℕ)
      → x < G.n
      → is_free o x ≡ true
      → count_of o x ≡ tally (is_open G o) (G.succ x) + occ x rest
  -- A successor that is dealt with is won by the other player.
  pub opposed :
      (x u : ℕ)
      → x < G.n
      → is_free o x ≡ true
      → 0 < occ u (G.succ x)
      → G.counted u ≡ true
      → is_open G o u ≡ false
      → (winner_of o u ≡ not (G.owner x)) ⊎ ((u ≡ v) × (0 < occ x rest))
  pub queued :
      (u : ℕ) → in_todo o u ≡ true → (u < G.n) × (is_solved o u ≡ true) × (G.counted u ≡ true)
  pub distinct : Distinct (contents o.todo)

module _ (G : Graph) (v : ℕ) (o : Oink) where
  -- A free vertex is solved.
  module _ (rest : List ℕ) (x : ℕ) (w : Bool) (s : Option ℕ) (h : IsCounted G v rest o)
      (small : x < G.n) (free : is_free o x ≡ true) where
    pub fresh : is_solved o x ≡ false
    fresh = ground (arith, free)

    other_of_free : (y : ℕ) → is_free (solve o x w s) y ≡ true → (y == x) ≡ false
    other_of_free y f = ground (arith, f, solved-solve G o x w s h.over small fresh y)

    free_before : (y : ℕ) → is_free (solve o x w s) y ≡ true → is_free o y ≡ true
    free_before y f = ground (
      arith,
      f,
      solved-solve G o x w s h.over small fresh y,
      disabled-solve G o x w s h.over small fresh y,
    )

    absent : occ x (contents o.todo) ≡ 0
    absent = elim (Bool-cases (in_todo o x)) [
      | inl q ↦ let (a, b, c) = h.queued x q in ground (arith, b, fresh)
      | inr q ↦ ground (arith, q)
    ]

    queued-solve :
        (u : ℕ)
        → in_todo (solve o x w s) u ≡ true
        → (u < G.n) × (is_solved (solve o x w s) u ≡ true) × (G.counted u ≡ true)
    queued-solve u q = elim (Bool-cases (x == u)) [
      | inl e ↦
          let here : x ≡ u = ground arith in
          subst (λ y. (y < G.n) × (is_solved (solve o x w s) y ≡ true) × (G.counted y ≡ true)) here
            (
              small,
              ground (arith, solved-solve G o x w s h.over small fresh x),
              h.enabled x small (ground (arith, free)),
            )
      | inr e ↦
          let before : in_todo o u ≡ true =
            ground (arith, q, ap (occ u) (todo-solve G o x w s h.over small fresh)) in
          let (a, b, c) = h.queued u before in (a, solved-kept G o x w s h.over small fresh u b, c)
    ]

    pub solve_state : IsCounted G v rest (solve o x w s)
    solve_state = record {
      over = solve-IsOver G o x w s h.over small fresh;
      ints = λ y. rw (outcount-solve G o x w s h.over small fresh) (h.ints y);
      enabled =
          λ y b d. h.enabled y b (ground (arith, d, disabled-solve G o x w s h.over small fresh y));
      near = h.near;
      count = λ y b f.
          rw
            (
              outcount-solve G o x w s h.over small fresh,
              tally_ext (is_open G (solve o x w s)) (is_open G o) (G.succ y)
                  (open-solve G o x w s h.over small fresh),
            )
            (h.count y b (free_before y f));
      opposed = λ y u b f k c e.
          let before : is_open G o u ≡ false =
            sym (open-solve G o x w s h.over small fresh u) ∙ e in
          let done : is_solved o u ≡ true = ground (arith, before, c) in
          elim (h.opposed y u b (free_before y f) k c before) [
            | inl a ↦ inl (winner-kept G o x w s h.over small fresh u done ∙ a)
            | inr a ↦ inr a
          ];
      queued = queued-solve;
      distinct = rw (todo-solve G o x w s h.over small fresh) (absent, h.distinct);
    }
