-- ===== src/Oink/Round.antt =====
-- The loop of `Oink::flush` over the predecessors of one vertex.
use urss.Base.{
  ℕ, ◌+◌, ◌-◌, ◌%◌, ◌<◌, ◌≡◌, refl, sym, ap, ◌∙◌, arith, Bool, true, false, not, ◌||◌, List, [],
  ◌∷◌, Option, none, some, if◌then◌else◌, ◌==◌, Bool-cases, inl, inr, subst, get_or,
}
use urss.Game.{owner_of}
use urss.Oink.{
  Oink, solve, same, is_solved, is_disabled, winner_of, int_mod, attract_one, attract_all,
}
use urss.Base.Tally.{occ, unset, false_of_tally}
use urss.Oink.Attract.{
  Graph, Attracted, by_choice, by_force, is_open, is_free, IsOver, outcount-solve, solved-solve,
  disabled-solve, work-solve, winner-kept, solved-kept, winner-here, strategy-here, solved-here,
}
use urss.Oink.Counted.{count_of, count_down}
use urss.Oink.Steps.{
  IsFlushing, skip_step, solve_step, count_of-count_down, count_other, count_step,
}

-- The entries of the queue, and the vertices that may still enter it.
abbrev pub work : Oink → ℕ
work o = o.todo.pointer + unset o.game.solved

-- A free vertex whose count was above 0 still has one above 0.
abbrev pub Live : Graph → Oink → Oink → Type 0
Live G start o = (y : ℕ) → y < G.n → is_free o y ≡ true → 0 < count_of start y → 0 < count_of o y

-- What the loop over the predecessors of `v`, won by `w`, keeps.
abbrev pub Keeps : Graph → Oink → ℕ → Bool → List ℕ → Oink → Oink → Type 0
Keeps G start v w rest o p =
    IsFlushing G start v rest p
    × (is_solved p v ≡ true)
    × (winner_of p v ≡ w)
    × (work p ≡ work o)
    × (Live G start o → Live G start p)

pub differs_lem : (a b : Bool) → same a b ≡ false → b ≡ not a
differs_lem true b e = e
differs_lem false true e = refl
differs_lem false false e = sym e

pub same_eq : (a b : Bool) → same a b ≡ true → b ≡ a
same_eq true b e = e
same_eq false true e = sym e
same_eq false false e = refl

pub same_refl : (b : Bool) → same b b ≡ true
same_refl true = refl
same_refl false = refl

pub if_none : (b : Bool) → Path (Option ℕ) (if b then none else none) none
if_none true = refl
if_none false = refl

module _ (G : Graph) (start : Oink) (v : ℕ) (w : Bool) (o : Oink) (x : ℕ) (rest : List ℕ)
    (h : IsFlushing G start v (x ∷ rest) o) (done : is_solved o v ≡ true)
    (won : winner_of o v ≡ w) where
  small : x < G.n
  small = (h.state.near x (ground arith)).0

  -- Solving the vertex, after its count may have been lowered.
  live_lem :
      (p : Oink) (s : Option ℕ)
      → IsOver G p
      → is_solved p x ≡ false
      → ((y : ℕ) → is_free p y ≡ is_free o y)
      → ((y : ℕ) → (y == x) ≡ false → count_of p y ≡ count_of o y)
      → Live G start o
      → Live G start (solve p x w s)
  live_lem p s over fresh same_free same_count live y b f k =
      let solved_now = solved-solve G p x w s over small fresh y in
      let other : (y == x) ≡ false = ground (arith, f, solved_now) in
      let before : is_free p y ≡ true =
        ground (arith, f, solved_now, disabled-solve G p x w s over small fresh y) in
      omega (
        arith,
        ap (λ c. get_or c y 0) (outcount-solve G p x w s over small fresh),
        same_count y other,
        live y b (sym (same_free y) ∙ before) k,
      )

  -- The owner moves to `v`.
  choice_step :
      is_free o x ≡ true
      → same (G.owner x) w ≡ true
      → Keeps G start v w rest o (solve o x w (some v))
  choice_step free mine =
      let fresh : is_solved o x ≡ false = ground (arith, free) in
      let why : Attracted G (solve o x w (some v)) x =
        by_choice v
          (winner-here G o x w (some v) h.state.over small fresh ∙ same_eq (G.owner x) w mine)
          (strategy-here G o x w (some v) h.state.over small fresh
            ∙ ap (λ b. if same w b then some v else none) (sym (same_eq (G.owner x) w mine))
            ∙ ap (λ b. if b then some v else none) (same_refl w))
          (h.state.near x (ground arith)).1
          (solved-kept G o x w (some v) h.state.over small fresh v done)
          (winner-kept G o x w (some v) h.state.over small fresh v done
            ∙ won
            ∙ sym (winner-here G o x w (some v) h.state.over small fresh)) in
      let busy : is_free (solve o x w (some v)) x ≡ false =
        ground (arith, solved-here G o x w (some v) h.state.over small fresh) in
      let p = solve_step G start v o (x ∷ rest) x w (some v) h small free why in
      (
        skip_step G start v (solve o x w (some v)) x rest busy p,
        solved-kept G o x w (some v) h.state.over small fresh v done,
        winner-kept G o x w (some v) h.state.over small fresh v done ∙ won,
        work-solve G o x w (some v) h.state.over small fresh,
        live_lem o (some v) h.state.over fresh (λ y. refl) (λ y e. refl),
      )

  -- When no move is left, every counted successor is won by the winner.
  forced :
      is_free o x ≡ true
      → w ≡ not (G.owner x)
      → count_of (count_down o x) x ≡ 0
      → (u : ℕ) → 0 < occ u (G.succ x)
      → G.counted u ≡ true
      → (is_solved o u ≡ true) × (winner_of o u ≡ w)
  forced free lost zeroed u i c =
      let k = count_step G start v o rest x h free (won ∙ lost) in
      let shut : is_open G o u ≡ false =
        false_of_tally (is_open G o) (G.succ x) u
          (omega (arith, k.state.count x small free, zeroed)) i in
      (
        ground (arith, shut, c),
        elim (k.state.opposed x u small free i c shut) [
          | inl a ↦ a ∙ sym lost
          | inr (a, j) ↦ absurd (omega (arith, k.state.count x small free, zeroed, j))
        ],
      )

  -- The last move of the loser is taken off.
  force_step :
      is_free o x ≡ true
      → w ≡ not (G.owner x)
      → count_of (count_down o x) x ≡ 0
      → Keeps G start v w rest o (solve (count_down o x) x w none)
  force_step free lost zeroed =
      let fresh : is_solved o x ≡ false = ground (arith, free) in
      let k = count_step G start v o rest x h free (won ∙ lost) in
      let why : Attracted G (solve (count_down o x) x w none) x =
        by_force (winner-here G (count_down o x) x w none k.state.over small fresh ∙ lost)
          (strategy-here G (count_down o x) x w none k.state.over small fresh
            ∙ if_none (same w (G.owner x)))
          (λ u i c.
            let (d, e) = forced free lost zeroed u i c in
            (
              solved-kept G (count_down o x) x w none k.state.over small fresh u d,
              winner-kept G (count_down o x) x w none k.state.over small fresh u d
                  ∙ e
                  ∙ sym (winner-here G (count_down o x) x w none k.state.over small fresh),
            )) in
      (
        solve_step G start v (count_down o x) rest x w none k small free why,
        solved-kept G (count_down o x) x w none k.state.over small fresh v done,
        winner-kept G (count_down o x) x w none k.state.over small fresh v done ∙ won,
        work-solve G (count_down o x) x w none k.state.over small fresh,
        live_lem (count_down o x) none k.state.over fresh (λ y. refl)
            (count_other G start v o rest x h free (won ∙ lost)),
      )

  zeroed_of :
      is_free o x ≡ true
      → w ≡ not (G.owner x)
      → (count_of o x + int_mod - 1) % int_mod ≡ 0
      → count_of (count_down o x) x ≡ 0
  zeroed_of free lost z = count_of-count_down G start v o rest x h free (won ∙ lost) ∙ z

  -- A count that does not come to 0.
  counted-Live :
      is_free o x ≡ true
      → w ≡ not (G.owner x)
      → ((count_of o x + int_mod - 1) % int_mod == 0) ≡ false
      → Live G start o
      → Live G start (count_down o x)
  counted-Live free lost z live y b f k = elim (Bool-cases (y == x)) [
    | inl e ↦
        let here : x ≡ y = ground (arith, e) in
        subst (λ u. 0 < count_of (count_down o x) u) here
          (ground (arith, z, count_of-count_down G start v o rest x h free (won ∙ lost)))
    | inr e ↦ omega (arith, count_other G start v o rest x h free (won ∙ lost) y e, live y b f k)
  ]

  pub attract_one_lem : Keeps G start v w rest o (attract_one o v w x)
  unfolding attract_one
  attract_one_lem = elim (Bool-cases (is_solved o x || is_disabled o x)) [
    | inl e ↦
        rw e (skip_step G start v o x rest (ground (arith, e)) h, done, won, refl, λ live. live)
    | inr e ↦ elim (Bool-cases (same (owner_of o.game x) w)) [
      | inl m ↦
          rw (e, m)
            (choice_step (ground (arith, e)) (ap (λ b. same b w) (sym (h.state.over.owners x)) ∙ m))
      | inr m ↦
          let lost : w ≡ not (G.owner x) =
            differs_lem (G.owner x) w (ap (λ b. same b w) (sym (h.state.over.owners x)) ∙ m) in
          elim (Bool-cases ((count_of o x + int_mod - 1) % int_mod == 0)) [
            | inl z ↦
                rw (e, m, z)
                  (force_step (ground (arith, e)) lost
                    (zeroed_of (ground (arith, e)) lost (ground (arith, z))))
            | inr z ↦
                rw (e, m, z)
                  (
                    count_step G start v o rest x h (ground (arith, e)) (won ∙ lost),
                    done,
                    won,
                    refl,
                    counted-Live (ground (arith, e)) lost (ground (arith, z)),
                  )
          ]
    ]
  ]

pub attract_all_lem :
    (G : Graph) (start : Oink) (v : ℕ) (w : Bool) (rest : List ℕ) (o : Oink)
    → IsFlushing G start v rest o
    → is_solved o v ≡ true
    → winner_of o v ≡ w
    → Keeps G start v w [] o (attract_all o v w rest)
unfolding attract_all
attract_all_lem G start v w [] o h done won = (h, done, won, refl, λ live. live)
attract_all_lem G start v w (x ∷ rest) o h done won =
    let (a, b, c, d, j) = attract_one_lem G start v w o x rest h done won in
    let (e, f, g, i, k) = attract_all_lem G start v w rest (attract_one o v w x) a b c in
    (e, f, g, i ∙ d, λ live. k (j live))
