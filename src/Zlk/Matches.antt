-- ===== src/Zlk/Matches.antt =====
-- The arrays of the solver, seen as the state of `Oink` in which `flush` attracts.
use urss.Base.{
  ℕ, zero, suc, ◌+◌, ◌<◌, ◌≡◌, refl, sym, subst, ap, ◌∙◌, arith, Bool, true, false, ◌||◌, List, [],
  ◌∷◌, some, if◌then◌else◌, ◌==◌, leb, length, get_or, set, get_or-set, Bool-cases, inl, inr,
}
use urss.Game.{Game, owner_of, outs}
use urss.Game.Ins.{ins}
use urss.Oink.{Oink, is_solved, is_disabled, winner_of}
use urss.Oink.Attract.{in_todo}
use urss.Oink.Attract
use urss.Oink.Counted.{count_of}
use urss.Zlk.{
  Region, dis, bot, level, waiting, Zlk, region_of, winning_of, strategy_of, is_taken, is_within,
  counts, count_open, next_count, is_zero,
}

-- The moves that a vertex has left.
abbrev pub need : Region → ℕ → ℕ
need (waiting k) all = k + 1
need dis all = all
need bot all = all
need (level k) all = all

-- The state of `Oink` agrees with the arrays, for the vertices that are or may be taken.
pub record Agrees (g : Game) (n i r : ℕ) (pl : Bool) (z : Zlk) (o : Oink) : Type 0 where
  pub same_owner : (v : ℕ) → owner_of o.game v ≡ owner_of g v
  pub same_ins : (v : ℕ) → ins o.game v ≡ ins g v
  pub region_size : length z.region ≡ n
  pub winning_size : length z.winning ≡ n
  pub strategy_size : length z.strategy ≡ n
  pub taken : (v : ℕ) → is_solved o v ≡ is_within 0 (region_of z v)
  pub barred :
      (v : ℕ) → v < n → (is_solved o v || is_disabled o v) ≡ (leb i v || is_taken (region_of z v))
  pub won : (v : ℕ) → is_within r (region_of z v) ≡ true → winning_of z v ≡ some (winner_of o v)
  pub moves :
      (v : ℕ) → is_within r (region_of z v) ≡ true → strategy_of z v ≡ Attract.strategy_of o v
  pub mine : (v : ℕ) → is_within r (region_of z v) ≡ true → winner_of o v ≡ pl
  pub queue : z.q ≡ o.todo
  pub queue_won : (u : ℕ) → in_todo o u ≡ true → winner_of o u ≡ pl

-- `outcount` is the number of moves that are left.
abbrev pub Left : Game → ℕ → ℕ → Zlk → Oink → Type 0
Left g i r z o =
    (x : ℕ)
    → x < i
    → is_taken (region_of z x) ≡ false
    → count_of o x ≡ need (region_of z x) (count_open z r (outs g x))

abbrev pub Matches : Game → ℕ → ℕ → ℕ → Bool → Zlk → Oink → Type 0
Matches g n i r pl z o = Agrees g n i r pl z o × Left g i r z o

pub count_open_ext :
    (y z : Zlk) (r : ℕ) (ts : List ℕ)
    → ((v : ℕ) → counts r (region_of y v) ≡ counts r (region_of z v))
    → count_open y r ts ≡ count_open z r ts
unfolding count_open
count_open_ext y z r [] h = refl
count_open_ext y z r (t ∷ ts) h = rw (h t, count_open_ext y z r ts h) refl

-- A vertex that is not taken counts.
pub counts_free : (r : ℕ) (e : Region) → is_taken e ≡ false → counts r e ≡ true
counts_free r dis h = sym h
counts_free r bot h = refl
counts_free r (level k) h = ground (arith, h)
counts_free r (waiting k) h = refl

-- A region that is not taken is not within.
pub not_within : (r : ℕ) (e : Region) → is_taken e ≡ false → is_within r e ≡ false
not_within r dis h = refl
not_within r bot h = refl
not_within r (level k) h = absurd (ground (arith, h))
not_within r (waiting k) h = refl

-- What a visit makes of the moves that are left.
pub next_need :
    (e : Region) (all : ℕ)
    → is_taken e ≡ false
    → 1 < need e all
    → (is_zero (next_count e all) ≡ false)
      × (is_taken (next_count e all) ≡ false)
      × (need (next_count e all) all + 1 ≡ need e all)
next_need dis all h k = absurd (ground (arith, h))
next_need (level j) all h k = absurd (ground (arith, h))
next_need bot zero h k = absurd (omega (arith, k))
next_need bot (suc zero) h k = absurd (omega (arith, k))
next_need bot (suc (suc j)) h k = (refl, refl, omega arith)
next_need (waiting zero) all h k = absurd (omega (arith, k))
next_need (waiting (suc j)) all h k = (refl, refl, omega arith)

pub last_need :
    (e : Region) (all : ℕ) → is_taken e ≡ false → need e all ≡ 1 → is_zero (next_count e all) ≡ true
last_need dis all h k = absurd (ground (arith, h))
last_need (level j) all h k = absurd (ground (arith, h))
last_need bot zero h k = absurd (omega (arith, k))
last_need bot (suc zero) h k = refl
last_need bot (suc (suc j)) h k = absurd (omega (arith, k))
last_need (waiting zero) all h k = refl
last_need (waiting (suc j)) all h k = absurd (omega (arith, k))

-- The entry of `x`, that was not taken, is changed.
module _ (g : Game) (n i r : ℕ) (pl : Bool) (z : Zlk) (o : Oink) (a : Agrees g n i r pl z o) (x : ℕ)
    (small : x < n) (free : is_taken (region_of z x) ≡ false) where
  pub region-set :
      (e : Region) (v : ℕ) → get_or (set z.region x e) v dis ≡ (if v == x then e else region_of z v)
  region-set e v = get_or-set z.region x v e dis (omega (arith, a.region_size, small))

  pub counts-set :
      (e : Region) (v : ℕ)
      → counts r e ≡ true
      → counts r (get_or (set z.region x e) v dis) ≡ counts r (region_of z v)
  counts-set e v c = elim (Bool-cases (v == x)) [
    | inl b ↦
        let here : x ≡ v = ground arith in
        let now : get_or (set z.region x e) v dis ≡ e = region-set e v ∙ rw b refl in
        let reached : counts r (region_of z v) ≡ true =
          subst (λ k. counts r (region_of z k) ≡ true) here (counts_free r (region_of z x) free) in
        ap (counts r) now ∙ c ∙ sym reached
    | inr b ↦ ap (counts r) (region-set e v ∙ rw b refl)
  ]
