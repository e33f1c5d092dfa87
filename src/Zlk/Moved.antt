-- ===== src/Zlk/Moved.antt =====
-- How an attraction changes `region`.
use urss.Base.{
  ℕ, zero, suc, ◌≡◌, ◌⊎◌, refl, sym, subst, ap, ◌∙◌, arith, Bool, true, false, ◌||◌, List, [], ◌∷◌,
  ◌++◌, Option, none, some, leb, get_or, set, Bool-cases, inl, inr,
}
use urss.UintQueue
use urss.Game.{Game, owner_of, outs}
use urss.Game.Ins.{ins}
use urss.Oink.{same}
use urss.Zlk.{
  Region, dis, bot, level, waiting, Zlk, region_of, is_taken, is_within, count_open, take_vertex,
  one_less, next_count, is_zero, attract_from, attract_to, attract_round, attract_queue,
}

-- The region of a vertex stays, or the vertex was not taken and is not disabled.
abbrev pub Moved : Zlk → Zlk → ℕ → Type 0
Moved y z v =
    (region_of z v ≡ region_of y v)
    ⊎ ((is_taken (region_of y v) ≡ false)
        × (is_taken (region_of z v) ≡ is_within 0 (region_of z v)))

pub trans-Moved : (x y z : Zlk) (v : ℕ) → Moved x y v → Moved y z v → Moved x z v
trans-Moved x y z v (inl a) (inl b) = inl (b ∙ a)
trans-Moved x y z v (inl a) (inr (b, c)) = inr (ap is_taken (sym a) ∙ b, c)
trans-Moved x y z v (inr (a, b)) (inl c) = inr (a, ap is_taken c ∙ b ∙ ap (is_within 0) (sym c))
trans-Moved x y z v (inr (a, b)) (inr (c, d)) = inr (a, d)

abbrev ResultMoved : Zlk → Option (Zlk × List ℕ) → ℕ → Type 0
ResultMoved y none v = Unit
ResultMoved y (some (z, B)) v = Moved y z v

result_trans :
    (x y : Zlk) (o : Option (Zlk × List ℕ)) (v : ℕ)
    → Moved x y v
    → ResultMoved y o v
    → ResultMoved x o v
result_trans x y none v a b = b
result_trans x y (some (z, B)) v a b = trans-Moved x y z v a b

set_cases :
    (l : List Region) (x v : ℕ) (e : Region)
    → ((v ≡ x) × (get_or (set l x e) v dis ≡ e)) ⊎ (get_or (set l x e) v dis ≡ get_or l v dis)
set_cases [] x v e = inr refl
set_cases (a ∷ l) zero zero e = inl (refl, refl)
set_cases (a ∷ l) zero (suc v) e = inr refl
set_cases (a ∷ l) (suc x) zero e = inr refl
set_cases (a ∷ l) (suc x) (suc v) e = elim (set_cases l x v e) [
  | inl (b, c) ↦ inl (ap suc b, c)
  | inr b ↦ inr b
]

-- The entry of a vertex that is not taken is set.
set-Moved :
    (y z : Zlk) (x : ℕ) (e : Region)
    → is_taken (region_of y x) ≡ false
    → is_taken e ≡ is_within 0 e
    → ((v : ℕ) → region_of z v ≡ get_or (set y.region x e) v dis)
    → (v : ℕ) → Moved y z v
set-Moved y z x e free fine h v = elim (set_cases y.region x v e) [
  | inr b ↦ inl (h v ∙ b)
  | inl (b, c) ↦ inr (
    ap (λ k. is_taken (region_of y k)) b ∙ free,
    ap is_taken (h v ∙ c) ∙ fine ∙ ap (is_within 0) (sym (h v ∙ c)),
  )
]

one_less_fine : (k : ℕ) → is_taken (one_less k) ≡ is_within 0 (one_less k)
one_less_fine zero = refl
one_less_fine (suc zero) = refl
one_less_fine (suc (suc k)) = refl

next_fine :
    (e : Region) (all : ℕ)
    → is_taken e ≡ false
    → is_taken (next_count e all) ≡ is_within 0 (next_count e all)
next_fine dis all f = one_less_fine all
next_fine bot all f = one_less_fine all
next_fine (level k) all f = one_less_fine all
next_fine (waiting zero) all f = refl
next_fine (waiting (suc k)) all f = refl

level_fine : (r : ℕ) → is_taken (level r) ≡ is_within 0 (level r)
level_fine r = ground arith

pub take-Moved :
    (y : Zlk) (x r : ℕ) (pl : Bool) (s : Option ℕ)
    → is_taken (region_of y x) ≡ false
    → (v : ℕ) → Moved y (take_vertex y x r pl s) v
unfolding take_vertex
take-Moved y x r pl s free =
    set-Moved y (take_vertex y x r pl s) x (level r) free (level_fine r) (λ v. refl)

module _ (g : Game) (i r : ℕ) (pl : Bool) where
  from-Moved : (cur : ℕ) (y : Zlk) (x v : ℕ) → Moved y (attract_from g i r pl cur y x) v
  unfolding attract_from
  from-Moved cur y x v = elim (Bool-cases (leb i x || is_taken (region_of y x))) [
    | inl e ↦ rw e (inl refl)
    | inr e ↦
        let free : is_taken (region_of y x) ≡ false = ground (arith, e) in
        let next = next_count (region_of y x) (count_open y r (outs g x)) in
        elim (Bool-cases (same (owner_of g x) pl)) [
          | inl a ↦ rw (e, a) (take-Moved y x r pl (some cur) free v)
          | inr a ↦ elim (Bool-cases (is_zero next)) [
            | inl b ↦ rw (e, a, b) (take-Moved y x r pl none free v)
            | inr b ↦
                rw (e, a, b)
                  (set-Moved y (record y { region = set y.region x next }) x next free
                    (next_fine (region_of y x) (count_open y r (outs g x)) free) (λ v. refl) v)
          ]
        ]
  ]

  to-Moved :
      (cur : ℕ) (y : Zlk) (rest : List ℕ) (v : ℕ) → Moved y (attract_to g i r pl cur y rest) v
  unfolding attract_to
  to-Moved cur y [] v = inl refl
  to-Moved cur y (x ∷ rest) v =
      trans-Moved y (attract_from g i r pl cur y x)
        (attract_to g i r pl cur (attract_from g i r pl cur y x) rest) v (from-Moved cur y x v)
        (to-Moved cur (attract_from g i r pl cur y x) rest v)

  round-Moved : (y : Zlk) (v : ℕ) → Moved y (attract_round g i r pl y).1 v
  unfolding attract_round
  round-Moved y v =
      to-Moved (UintQueue.pop y.q).0 (record y { q = (UintQueue.pop y.q).1 })
        (ins g (UintQueue.pop y.q).0) v

  result-Moved :
      (fuel : ℕ) (y : Zlk) (A : List ℕ) (v : ℕ) → ResultMoved y (attract_queue g fuel i r pl y A) v
  unfolding attract_queue
  result-Moved zero y A v = elim (Bool-cases (UintQueue.nonempty y.q)) [
    | inl a ↦ rw a (record {})
    | inr a ↦ rw a (inl refl)
  ]
  result-Moved (suc fuel) y A v = elim (Bool-cases (UintQueue.nonempty y.q)) [
    | inl a ↦
        let next = (attract_round g i r pl y).1 in
        let B = A ++ (attract_round g i r pl y).0 ∷ [] in
        rw a (
          result_trans y next (attract_queue g fuel i r pl next B) v (round-Moved y v)
            (result-Moved fuel next B v))
    | inr a ↦ rw a (inl refl)
  ]

  pub queue-Moved :
      (fuel : ℕ) (y : Zlk) (A : List ℕ) (z : Zlk) (B : List ℕ)
      → attract_queue g fuel i r pl y A ≡ some (z, B)
      → (v : ℕ) → Moved y z v
  queue-Moved fuel y A z B e v = subst (λ o. ResultMoved y o v) e (result-Moved fuel y A v)

pub taken-Moved :
    (y z : Zlk) (v : ℕ)
    → Moved y z v
    → is_taken (region_of y v) ≡ true
    → region_of z v ≡ region_of y v
taken-Moved y z v (inl a) t = a
taken-Moved y z v (inr (a, b)) t = absurd (ground (arith, a, t))

-- A vertex that is taken but in no region was so before.
pub off-Moved :
    (y z : Zlk) (v : ℕ)
    → Moved y z v
    → is_taken (region_of z v) ≡ true
    → is_within 0 (region_of z v) ≡ false
    → (is_taken (region_of y v) ≡ true) × (is_within 0 (region_of y v) ≡ false)
off-Moved y z v (inl a) t w = (ap is_taken (sym a) ∙ t, ap (is_within 0) (sym a) ∙ w)
off-Moved y z v (inr (a, b)) t w = absurd (ground (arith, b, t, w))
