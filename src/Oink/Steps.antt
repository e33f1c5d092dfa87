-- ===== src/Oink/Steps.antt =====
-- The invariant of the two loops of `Oink::flush`, and the steps of the inner one.
use urss.Base.{
  ℕ, ◌+◌, ◌-◌, ◌%◌, ◌<◌, ◌≡◌, refl, ap, ◌∙◌, subst, arith, Bool, true, false, not, List, ◌∷◌,
  Option, if◌then◌else◌, ◌==◌, length-set, get_or-set, Bool-cases, inl, inr,
}
use urss.Oink.{Oink, is_disabled, solve, is_solved, winner_of, int_mod}
use urss.Base.Tally.{tally, occ}
use urss.Oink.Attract.{
  Graph, Attracted, by_choice, by_force, is_open, is_free, strategy_of, solved-solve,
  disabled-solve, Attracted-solve, winner-kept, strategy-kept, strategy_of, solved-kept,
}
use urss.Oink.Counted.{IsCounted, count_of, count_down, fresh, solve_state}

-- What was solved is solved in the same way.
abbrev pub Kept : Oink → Oink → ℕ → Type 0
Kept start o x =
    (is_solved o x ≡ true)
    × (winner_of o x ≡ winner_of start x)
    × (strategy_of o x ≡ strategy_of start x)

-- `start` is the state before the loop.
pub record IsFlushing (G : Graph) (start : Oink) (v : ℕ) (rest : List ℕ) (o : Oink) : Type 0 where
  pub state : IsCounted G v rest o
  pub kept : (x : ℕ) → is_solved start x ≡ true → Kept start o x
  pub settled : (x : ℕ) → is_solved o x ≡ true → is_solved start x ≡ false → Attracted G o x
  -- What was disabled since is solved.
  pub gone : (x : ℕ) → is_disabled o x ≡ true → is_disabled start x ≡ false → is_solved o x ≡ true

module _ (G : Graph) (start : Oink) (v : ℕ) (o : Oink) where
  -- A predecessor that is solved or disabled is passed over.
  pub skip_step :
      (x : ℕ) (rest : List ℕ)
      → is_free o x ≡ false
      → IsFlushing G start v (x ∷ rest) o
      → IsFlushing G start v rest o
  skip_step x rest busy h = record {
    state = record {
      over = h.state.over;
      ints = h.state.ints;
      enabled = h.state.enabled;
      near = λ y k. h.state.near y (omega (arith, k));
      count = λ y b f. ground (arith, h.state.count y b f, ap (is_free o) {x = x} {y = y});
      opposed = λ y u b f k c e. elim (h.state.opposed y u b f k c e) [
        | inl w ↦ inl w
        | inr (here, j) ↦ inr (here, ground (arith, ap (is_free o) {x = x} {y = y}))
      ];
      queued = h.state.queued;
      distinct = h.state.distinct;
    };
    kept = h.kept;
    settled = h.settled;
    gone = h.gone;
  }

  -- A free vertex that is attracted is solved.
  pub solve_step :
      (rest : List ℕ) (x : ℕ) (w : Bool) (s : Option ℕ) (h : IsFlushing G start v rest o)
      → x < G.n
      → is_free o x ≡ true
      → Attracted G (solve o x w s) x
      → IsFlushing G start v rest (solve o x w s)
  solve_step rest x w s h small free won =
      let solved_now = fresh G v o rest x w s h.state small free in
      record {
        state = solve_state G v o rest x w s h.state small free;
        kept = λ y d.
            let (a, b, c) = h.kept y d in
            (
              solved-kept G o x w s h.state.over small solved_now y a,
              winner-kept G o x w s h.state.over small solved_now y a ∙ b,
              strategy-kept G o x w s h.state.over small solved_now y a ∙ c,
            );
        settled = λ y d n. elim (Bool-cases (y == x)) [
          | inl e ↦ let here : x ≡ y = ground arith in subst (Attracted G (solve o x w s)) here won
          | inr e ↦
              let done : is_solved o y ≡ true =
                ground (arith, d, solved-solve G o x w s h.state.over small solved_now y) in
              Attracted-solve G o x w s h.state.over small solved_now y done (h.settled y done n)
        ];
        gone = λ y d n. ground (
          arith,
          d,
          h.gone y,
          n,
          disabled-solve G o x w s h.state.over small solved_now y,
          solved-solve G o x w s h.state.over small solved_now y,
        );
      }

  -- One move of the loser to `v` is taken off.
  module _ (rest : List ℕ) (x : ℕ) (h : IsFlushing G start v (x ∷ rest) o)
      (free : is_free o x ≡ true) (lost : winner_of o v ≡ not (G.owner x)) where
    small_head : x < G.n
    small_head = (h.state.near x (ground arith)).0

    count_down_lem :
        (y : ℕ)
        → count_of (count_down o x) y
          ≡ (if y == x then (count_of o x + int_mod - 1) % int_mod else count_of o y)
    count_down_lem y =
        get_or-set o.outcount x y ((count_of o x + int_mod - 1) % int_mod) 0
          (omega (arith, h.state.over.outcount_size, small_head))

    pub count_of-count_down : count_of (count_down o x) x ≡ (count_of o x + int_mod - 1) % int_mod
    count_of-count_down =
        let here : (x == x) ≡ true = ground arith in rw (count_down_lem x, here) refl

    occ_head : occ x (x ∷ rest) ≡ 1 + occ x rest
    occ_head = ground arith

    count_head : count_of (count_down o x) x + 1 ≡ count_of o x
    count_head =
        let same_here : (x == x) ≡ true = ground arith in
        rw (count_down_lem x, same_here)
          (omega (arith, h.state.count x small_head free, occ_head, h.state.ints x))

    pub count_other : (y : ℕ) → (y == x) ≡ false → count_of (count_down o x) y ≡ count_of o y
    count_other y e = rw (count_down_lem y, e) refl

    pub count_step : IsFlushing G start v rest (count_down o x)
    count_step = record {
      state = record {
        over = record {
          owners = h.state.over.owners;
          preds = h.state.over.preds;
          solved_size = h.state.over.solved_size;
          winner_size = h.state.over.winner_size;
          strategy_size = h.state.over.strategy_size;
          disabled_size = h.state.over.disabled_size;
          outcount_size = rw length-set h.state.over.outcount_size;
          room = h.state.over.room;
        };
        ints = λ y. elim (Bool-cases (y == x)) [
          | inl e ↦
              let here : x ≡ y = ground arith in
              ground (arith, h.state.ints x, count_head, ap (count_of (count_down o x)) here)
          | inr e ↦ rw (count_other y e) (h.state.ints y)
        ];
        enabled = h.state.enabled;
        near = λ y k. h.state.near y (omega (arith, k));
        count = λ y b f. elim (Bool-cases (y == x)) [
          | inl e ↦
              let here : x ≡ y = ground arith in
              subst
                (λ z.
                  count_of (count_down o x) z
                  ≡ tally (is_open G (count_down o x)) (G.succ z) + occ z rest)
                here (omega (arith, h.state.count x small_head free, occ_head, count_head))
          | inr e ↦ ground (arith, h.state.count y b f, count_other y e)
        ];
        opposed = λ y u b f k c e. elim (h.state.opposed y u b f k c e) [
          | inl a ↦ inl a
          | inr (here, j) ↦ elim (Bool-cases (y == x)) [
            | inl i ↦
                let moved : x ≡ y = ground arith in
                inl (ap (winner_of o) here ∙ lost ∙ ap (λ z. not (G.owner z)) moved)
            | inr i ↦ inr (here, ground arith)
          ]
        ];
        queued = h.state.queued;
        distinct = h.state.distinct;
      };
      kept = h.kept;
      gone = h.gone;
      settled = λ y d n. elim (h.settled y d n) [
        | by_choice t a b c e g ↦ by_choice t a b c e g
        | by_force a b p ↦ by_force a b p
      ];
    }
