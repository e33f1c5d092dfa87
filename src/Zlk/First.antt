-- ===== src/Zlk/First.antt =====
-- The arrays that `ZLKSolver::run` starts with, beside the state that `Oink` starts with.
use urss.Base.{
  some_eq, ℕ, zero, suc, ◌+◌, ◌<◌, ◌≡◌, refl, sym, subst, ap, ◌∙◌, arith, Bool, true, false, List,
  [], ◌∷◌, none, some, if◌then◌else◌, ◌==◌, length, get_or, Bool-cases, inl, inr, length-replicate,
}
use urss.UintQueue
use urss.UintQueue.{UintQueue}
use urss.Game.{Game, outs, vertexcount}
use urss.Oink.{Oink, make, enabled_count, enabled_counts}
use urss.Base.Tally.{occ}
use urss.Oink.Start.{IsUnsolved, get_or-enabled_counts}
use urss.Zlk.{dis, bot, Zlk, region_of, is_taken, is_within, count_open}
use urss.Zlk.Matches.{Agrees, Left, need}
use urss.Zlk.Take.{if_then, if_else}
use urss.Zlk.Run.{top_vertex, initial_regions, start_arrays}

pub top_vertex_lem :
    (disabled : List Bool) (n i : ℕ)
    → top_vertex disabled n ≡ some i
    → (i < n)
      × (get_or disabled i false ≡ false)
      × ((v : ℕ) → i < v → v < n → get_or disabled v false ≡ true)
unfolding top_vertex
top_vertex_lem disabled zero i e = absurd (ground (arith, e))
top_vertex_lem disabled (suc n) i e = elim (Bool-cases (get_or disabled n false)) [
  | inl d ↦
      let (a, b, c) =
        top_vertex_lem disabled n i
          (sym (if_then (get_or disabled n false) (top_vertex disabled n) (some n) d) ∙ e) in
      (
        omega (arith, a),
        b,
        λ v k l. elim (Bool-cases (v == n)) [
          | inl h ↦
              let here : n ≡ v = ground arith in subst (λ k. get_or disabled k false ≡ true) here d
          | inr h ↦ c v k (ground (arith, h))
        ],
      )
  | inr d ↦
      let here : n ≡ i =
        some_eq n i
          (sym (if_else (get_or disabled n false) (top_vertex disabled n) (some n) d) ∙ e) in
      (
        omega (arith, here),
        subst (λ k. get_or disabled k false ≡ false) here d,
        λ v k l. absurd (omega (arith, here)),
      )
]

length-initial_regions : (ds : List Bool) → length (initial_regions ds) ≡ length ds
unfolding initial_regions
length-initial_regions [] = refl
length-initial_regions (d ∷ ds) = omega (arith, length-initial_regions ds)

initial_lem :
    (ds : List Bool) (v : ℕ)
    → v < length ds
    → get_or (initial_regions ds) v dis ≡ (if get_or ds v false then dis else bot)
unfolding initial_regions
initial_lem [] v h = absurd (omega (arith, h))
initial_lem (d ∷ ds) zero h = refl
initial_lem (d ∷ ds) (suc v) h = initial_lem ds v (omega (arith, h))

count_open-initial :
    (z : Zlk) (disabled : List Bool) (ts : List ℕ)
    → ((v : ℕ) → 0 < occ v ts → region_of z v ≡ (if get_or disabled v false then dis else bot))
    → count_open z 0 ts ≡ enabled_count disabled ts
unfolding count_open enabled_count
count_open-initial z disabled [] h = refl
count_open-initial z disabled (t ∷ ts) h =
    let rest = count_open-initial z disabled ts (λ v k. h v (omega (arith, k))) in
    elim (Bool-cases (get_or disabled t false)) [
      | inl d ↦
          let here : region_of z t ≡ dis =
            h t (ground arith) ∙ if_then (get_or disabled t false) dis bot d in
          rw (here, d) (ap (λ k. 0 + k) rest)
      | inr d ↦
          let here : region_of z t ≡ bot =
            h t (ground arith) ∙ if_else (get_or disabled t false) dis bot d in
          rw (here, d, rest) refl
    ]

within-initial : (ds : List Bool) (v : ℕ) → is_within 0 (get_or (initial_regions ds) v dis) ≡ false
unfolding initial_regions
within-initial [] v = refl
within-initial (true ∷ ds) zero = refl
within-initial (false ∷ ds) zero = refl
within-initial (d ∷ ds) (suc v) = within-initial ds v

taken_start : (b : Bool) → is_taken (if b then dis else bot) ≡ b
taken_start true = refl
taken_start false = refl

module _ (g : Game) (disabled : List Bool) (i : ℕ) (pl : Bool) (u : IsUnsolved g disabled)
    (first : top_vertex disabled (vertexcount g) ≡ some i)
    (targets : (x v : ℕ) → x < vertexcount g → 0 < occ v (outs g x) → v < vertexcount g) where
  abbrev z : Zlk
  z = start_arrays g disabled

  abbrev o : Oink
  o = make g disabled

  abbrev n : ℕ
  n = vertexcount g

  top_lem :
      (i < n)
      × (get_or disabled i false ≡ false)
      × ((v : ℕ) → i < v → v < n → get_or disabled v false ≡ true)
  top_lem = top_vertex_lem disabled n i first

  region_start : (v : ℕ) → v < n → region_of z v ≡ (if get_or disabled v false then dis else bot)
  unfolding start_arrays
  region_start v h = initial_lem disabled v (omega (arith, u.disabled_size, h))

  pub nothing_within : (v : ℕ) → is_within 0 (region_of z v) ≡ false
  unfolding start_arrays
  nothing_within v = within-initial disabled v

  pub taken_lem : (v : ℕ) → v < n → is_taken (region_of z v) ≡ get_or disabled v false
  taken_lem v h = ap is_taken (region_start v h) ∙ taken_start (get_or disabled v false)

  pub start-Agrees : Agrees g n (suc i) 0 pl z o
  unfolding start_arrays make UintQueue.make
  start-Agrees = record {
    same_owner = λ v. refl;
    same_ins = λ v. refl;
    region_size = length-initial_regions disabled ∙ u.disabled_size;
    winning_size = length-replicate n none;
    strategy_size = length-replicate n none;
    taken = λ v. u.unsolved v ∙ sym (nothing_within v);
    barred = λ v h. ground (arith, u.unsolved v, taken_lem v h, top_lem.2 v);
    won = λ v w. absurd (ground (arith, w, nothing_within v));
    moves = λ v w. absurd (ground (arith, w, nothing_within v));
    mine = λ v w. absurd (ground (arith, w, nothing_within v));
    queue = refl;
    queue_won = λ v q. ground (arith, q);
  }

  pub start-Left : Left g (suc i) 0 z o
  unfolding make enabled_counts
  start-Left x h f =
      let b : x < n = omega (arith, h, top_lem.0) in
      let bottom : region_of z x ≡ bot =
        region_start x b ∙ if_else (get_or disabled x false) dis bot (sym (taken_lem x b) ∙ f) in
      get_or-enabled_counts g disabled n 0 x b
      ∙ ap (λ k. enabled_count disabled (outs g k)) {x = 0 + x} {y = x} (omega arith)
      ∙ sym (count_open-initial z disabled (outs g x) (λ v k. region_start v (targets x v b k)))
      ∙ sym (ap (λ e. need e (count_open z 0 (outs g x))) bottom)
