-- ===== src/Zlk/Count.antt =====
-- `attractExt` counts a move where `flush` does.
use urss.Base.{
  ℕ, ◌+◌, ◌-◌, ◌%◌, ◌<◌, ◌≡◌, refl, sym, subst, ap, ◌∙◌, arith, Bool, true, false, ◌||◌,
  if◌then◌else◌, ◌==◌, leb, set, length-set, get_or-set, Bool-cases, inl, inr,
}
use urss.Game.{Game, outs}
use urss.Oink.{Oink, int_mod}
use urss.Oink.Attract.{Graph, IsOver}
use urss.Oink.Counted.{count_of, count_down}
use urss.Zlk.{Region, Zlk, region_of, is_taken, is_within, counts, count_open}
use urss.Zlk.Matches.{
  Agrees, Left, not_within, need, count_open_ext, counts_free, region-set, counts-set,
}

module _ (G : Graph) (g : Game) (i r : ℕ) (pl : Bool) (z : Zlk) (o : Oink)
    (a : Agrees g G.n i r pl z o) (over : IsOver G o) (x : ℕ) (small : x < G.n)
    (free : is_taken (region_of z x) ≡ false) (e : Region) (low : is_taken e ≡ false) where
  abbrev counted : Zlk
  counted = record z { region = set z.region x e }

  region_lem : (v : ℕ) → region_of counted v ≡ (if v == x then e else region_of z v)
  region_lem v = region-set g G.n i r pl z o a x small free e v

  region_other : (v : ℕ) → (v == x) ≡ false → region_of counted v ≡ region_of z v
  region_other v b = region_lem v ∙ rw b refl

  region_here : (v : ℕ) → (v == x) ≡ true → region_of counted v ≡ e
  region_here v b = region_lem v ∙ rw b refl

  taken_lem : (v : ℕ) → is_taken (region_of counted v) ≡ is_taken (region_of z v)
  taken_lem v = elim (Bool-cases (v == x)) [
    | inl b ↦
        let here : x ≡ v = ground arith in
        ap is_taken (region_here v b)
        ∙ low
        ∙ sym (subst (λ k. is_taken (region_of z k) ≡ false) here free)
    | inr b ↦ ap is_taken (region_other v b)
  ]

  within_lem : (v : ℕ) → is_within 0 (region_of counted v) ≡ is_within 0 (region_of z v)
  within_lem v = elim (Bool-cases (v == x)) [
    | inl b ↦
        let here : x ≡ v = ground arith in
        ap (is_within 0) (region_here v b)
        ∙ not_within 0 e low
        ∙ sym (
            subst (λ k. is_within 0 (region_of z k) ≡ false) here
              (not_within 0 (region_of z x) free))
    | inr b ↦ ap (is_within 0) (region_other v b)
  ]

  other_within : (v : ℕ) → is_within r (region_of counted v) ≡ true → (v == x) ≡ false
  other_within v w = elim (Bool-cases (v == x)) [
    | inl b ↦ absurd (ground (arith, w, ap (is_within r) (region_here v b), not_within r e low))
    | inr b ↦ b
  ]

  within_before :
      (v : ℕ) → is_within r (region_of counted v) ≡ true → is_within r (region_of z v) ≡ true
  within_before v w = sym (ap (is_within r) (region_other v (other_within v w))) ∙ w

  pub counted-Agrees : Agrees g G.n i r pl counted (count_down o x)
  counted-Agrees = record {
    same_owner = a.same_owner;
    same_ins = a.same_ins;
    region_size = rw length-set a.region_size;
    winning_size = a.winning_size;
    strategy_size = a.strategy_size;
    taken = λ v. a.taken v ∙ sym (within_lem v);
    barred = λ v b. a.barred v b ∙ ap (λ b. leb i v || b) (sym (taken_lem v));
    won = λ v w. a.won v (within_before v w);
    moves = λ v w. a.moves v (within_before v w);
    mine = λ v w. a.mine v (within_before v w);
    queue = a.queue;
    queue_won = a.queue_won;
  }

  counts_lem : (v : ℕ) → counts r (region_of counted v) ≡ counts r (region_of z v)
  counts_lem v = counts-set g G.n i r pl z o a x small free e v (counts_free r e low)

  count_other : (y : ℕ) → (y == x) ≡ false → count_of (count_down o x) y ≡ count_of o y
  count_other y b =
      get_or-set o.outcount x y ((count_of o x + int_mod - 1) % int_mod) 0
        (omega (arith, over.outcount_size, small))
      ∙ rw b refl

  pub counted-Left :
      Left g i r z o
      → count_of (count_down o x) x ≡ need e (count_open z r (outs g x))
      → Left g i r counted (count_down o x)
  counted-Left left now y b f = elim (Bool-cases (y == x)) [
    | inl c ↦
        let here : x ≡ y = ground arith in
        subst (λ k. count_of (count_down o x) k ≡ need e (count_open z r (outs g k))) here now
        ∙ ap (need e) (sym (count_open_ext counted z r (outs g y) counts_lem))
        ∙ ap (λ k. need k (count_open counted r (outs g y))) (sym (region_here y c))
    | inr c ↦
        count_other y c
        ∙ left y b (sym (taken_lem y) ∙ f)
        ∙ ap (need (region_of z y)) (sym (count_open_ext counted z r (outs g y) counts_lem))
        ∙ ap (λ k. need k (count_open counted r (outs g y))) (sym (region_other y c))
  ]

  -- The other counts are as before.
  pub other-Left :
      Left g i r z o
      → (y : ℕ) → y < i
      → (y == x) ≡ false
      → is_taken (region_of z y) ≡ false
      → count_of (count_down o x) y ≡ need (region_of z y) (count_open z r (outs g y))
  other-Left left y b c f = count_other y c ∙ left y b f
