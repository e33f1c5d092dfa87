-- ===== src/Zlk/Step.antt =====
-- The loop of `attractExt` over the predecessors of a vertex, beside that of `flush`.
use urss.Base.{
  ℕ, ◌+◌, ◌-◌, ◌%◌, ◌<◌, ◌≡◌, ◌≢◌, refl, sym, ap, ◌∙◌, arith, Bool, true, false, not, ◌||◌, List,
  ◌∷◌, none, some, if◌then◌else◌, ◌==◌, leb, set, Bool-cases, inl, inr,
}
use urss.Game.{Game, owner_of, outs}
use urss.Oink.{Oink, solve, same, is_solved, is_disabled, winner_of, int_mod, attract_one}
use urss.Base.Tally.{occ}
use urss.Oink.Attract.{Graph, is_free}
use urss.Oink.Counted.{count_of, count_down}
use urss.Oink.Steps.{IsFlushing, count_of-count_down, count_step}
use urss.Oink.Round.{differs_lem, same_eq, same_refl, if_none}
use urss.Zlk.{
  bot, Zlk, region_of, is_taken, count_open, take_vertex, next_count, is_zero, attract_from,
}
use urss.Zlk.Matches.{Agrees, Matches, need, next_need, last_need}
use urss.Zlk.Take.{take-Agrees, take-Left}
use urss.Zlk.Count.{counted-Agrees, counted-Left, other-Left}

module _ (G : Graph) (start : Oink) (g : Game) (i r : ℕ) (pl : Bool) (cur : ℕ) (z : Zlk) (o : Oink)
    (x : ℕ) (rest : List ℕ) (m : Matches g G.n i r pl z o) (h : IsFlushing G start cur (x ∷ rest) o)
    (won : winner_of o cur ≡ pl) (near : (leb i x || is_taken (region_of z x)) ≡ false) where
  small : x < G.n
  small = (h.state.near x (ground arith)).0

  low : x < i
  low = ground (arith, near)

  free : is_taken (region_of z x) ≡ false
  free = ground (arith, near)

  allowed : is_free o x ≡ true
  allowed = ground (arith, m.0.barred x small, near)

  abbrev all : ℕ
  all = count_open z r (outs g x)

  owners : owner_of g x ≡ G.owner x
  owners = sym (m.0.same_owner x) ∙ h.state.over.owners x

  choice-Matches :
      same (owner_of g x) pl ≡ true
      → Matches g G.n i r pl (take_vertex z x r pl (some cur)) (solve o x pl (some cur))
  choice-Matches mine =
      let move : some cur ≡ (if same pl (G.owner x) then some cur else none) = sym (
        ap (λ b. if same pl b then some cur else none)
          (sym (same_eq (G.owner x) pl (ap (λ b. same b pl) (sym owners) ∙ mine)))
        ∙ ap (λ b. if b then some cur else none) (same_refl pl)) in
      (
        take-Agrees G g i r pl z o m.0 h.state.over x (some cur) (some cur) small free move,
        take-Left G g i r pl z o m.0 h.state.over x (some cur) (some cur) small free move
            (λ y b e f. m.1 y b f),
      )

  at_least : 0 < count_of o x
  at_least =
      let here : occ x (x ∷ rest) ≡ 1 + occ x rest = ground arith in
      omega (arith, h.state.count x small allowed, here)

  counted_lem : pl ≡ not (G.owner x) → count_of (count_down o x) x + 1 ≡ count_of o x
  counted_lem lost = omega (
    arith,
    count_of-count_down G start cur o rest x h allowed (won ∙ lost),
    at_least,
    h.state.ints x,
  )

  left_here : count_of o x ≡ need (region_of z x) all
  left_here = m.1 x low free

  force-Matches :
      pl ≡ not (G.owner x)
      → Matches g G.n i r pl (take_vertex z x r pl none) (solve (count_down o x) x pl none)
  force-Matches lost =
      let k = count_step G start cur o rest x h allowed (won ∙ lost) in
      let a : Agrees g G.n i r pl z (count_down o x) = record {
        same_owner = m.0.same_owner;
        same_ins = m.0.same_ins;
        region_size = m.0.region_size;
        winning_size = m.0.winning_size;
        strategy_size = m.0.strategy_size;
        taken = m.0.taken;
        barred = m.0.barred;
        won = m.0.won;
        moves = m.0.moves;
        mine = m.0.mine;
        queue = m.0.queue;
        queue_won = m.0.queue_won;
      } in
      (
        take-Agrees G g i r pl z (count_down o x) a k.state.over x none none small free
            (sym (if_none (same pl (G.owner x)))),
        take-Left G g i r pl z (count_down o x) a k.state.over x none none small free
            (sym (if_none (same pl (G.owner x))))
            (other-Left G g i r pl z o m.0 h.state.over x small free bot refl m.1),
      )

  count-Matches :
      pl ≡ not (G.owner x)
      → 1 < count_of o x
      → Matches g G.n i r pl
          (record z { region = set z.region x (next_count (region_of z x) all) })
          (count_down o x)
  count-Matches lost more =
      let (a, b, c) = next_need (region_of z x) all free (omega (arith, left_here, more)) in
      (
        counted-Agrees G g i r pl z o m.0 h.state.over x small free (next_count (region_of z x) all)
            b,
        counted-Left G g i r pl z o m.0 h.state.over x small free (next_count (region_of z x) all) b
            m.1 (omega (arith, counted_lem lost, left_here, c)),
      )

  count_eq : (count_of o x + int_mod - 1) % int_mod + 1 ≡ count_of o x
  count_eq = omega (arith, at_least, h.state.ints x)

  last_lem :
      (count_of o x + int_mod - 1) % int_mod ≡ 0 → is_zero (next_count (region_of z x) all) ≡ true
  last_lem k = last_need (region_of z x) all free (omega (arith, count_eq, left_here, k))

  more_lem : (count_of o x + int_mod - 1) % int_mod ≢ 0 → 1 < count_of o x
  more_lem k = omega (arith, count_eq, k)

  next_lem : 1 < count_of o x → is_zero (next_count (region_of z x) all) ≡ false
  next_lem more = (next_need (region_of z x) all free (omega (arith, left_here, more))).0

pub attract_from-Matches :
    (G : Graph) (start : Oink) (g : Game) (i r : ℕ) (pl : Bool) (cur : ℕ) (z : Zlk) (o : Oink)
    (x : ℕ) (rest : List ℕ)
    → Matches g G.n i r pl z o
    → IsFlushing G start cur (x ∷ rest) o
    → winner_of o cur ≡ pl
    → Matches g G.n i r pl (attract_from g i r pl cur z x) (attract_one o cur pl x)
unfolding attract_from attract_one
attract_from-Matches G start g i r pl cur z o x rest m h won =
    elim (Bool-cases (leb i x || is_taken (region_of z x))) [
      | inl e ↦
          let b : (is_solved o x || is_disabled o x) ≡ true =
            m.0.barred x (h.state.near x (ground arith)).0 ∙ e in
          rw (e, b) m
      | inr e ↦
          let b : (is_solved o x || is_disabled o x) ≡ false =
            m.0.barred x (h.state.near x (ground arith)).0 ∙ e in
          elim (Bool-cases (same (owner_of g x) pl)) [
            | inl c ↦
                let d : same (owner_of o.game x) pl ≡ true =
                  ap (λ k. same k pl) (m.0.same_owner x) ∙ c in
                rw (e, b, c, d) (choice-Matches G start g i r pl cur z o x rest m h won e c)
            | inr c ↦
                let d : same (owner_of o.game x) pl ≡ false =
                  ap (λ k. same k pl) (m.0.same_owner x) ∙ c in
                let lost : pl ≡ not (G.owner x) =
                  differs_lem (G.owner x) pl
                    (ap (λ k. same k pl) (sym (h.state.over.owners x)) ∙ d) in
                elim (Bool-cases ((count_of o x + int_mod - 1) % int_mod == 0)) [
                  | inl k ↦
                      let y =
                        last_lem G start g i r pl cur z o x rest m h won e (ground (arith, k)) in
                      rw (e, b, c, d, k, y)
                        (force-Matches G start g i r pl cur z o x rest m h won e lost)
                  | inr k ↦
                      let f =
                        more_lem G start g i r pl cur z o x rest m h won e (ground (arith, k)) in
                      let y = next_lem G start g i r pl cur z o x rest m h won e f in
                      rw (e, b, c, d, k, y)
                        (count-Matches G start g i r pl cur z o x rest m h won e lost f)
                ]
          ]
    ]
