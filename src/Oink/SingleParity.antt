-- ===== src/Oink/SingleParity.antt =====
-- The loops of `Oink::solveSingleParity`, from a ready state.
use urss.Base.{
  ℕ, zero, suc, ◌+◌, ◌≤◌, ◌<◌, ◌≡◌, refl, sym, subst, ap, ◌∙◌, arith, Bool, true, false, Option,
  none, some, if◌then◌else◌, Bool-cases, inl, inr,
}
use urss.Game.{outs, owner_of, priority_of}
use urss.Oink.{
  Oink, solve, is_disabled, is_odd, same, single_one, single_from, Parities, unknown, single, mixed,
  parities_from, first_enabled,
}
use urss.Oink.Attract.{Graph}
use urss.Oink.Round.{work}
use urss.Oink.Selfloops.{IsClosed, solve-IsClosed}

pub same_parity : (a b : Bool) → same a b ≡ true → a ≡ b
same_parity true true e = refl
same_parity true false e = sym e
same_parity false true e = e
same_parity false false e = refl

pub true_not_false : true ≡ false → ⊥
true_not_false e = ground (arith, e)

-- The vertices from `v` on that are not disabled have the parity `p`.
abbrev pub AllOf : Oink → Bool → ℕ → ℕ → Type 0
AllOf o p v n =
    (k : ℕ) → k < n → is_disabled o (v + k) ≡ false → is_odd (priority_of o.game (v + k)) ≡ p

AllOf-first :
    (o : Oink) (p : Bool) (v n : ℕ)
    → (is_disabled o v ≡ false → is_odd (priority_of o.game v) ≡ p)
    → AllOf o p (suc v) n
    → AllOf o p v (suc n)
AllOf-first o p v n a b zero h =
    subst (λ j. is_disabled o j ≡ false → is_odd (priority_of o.game j) ≡ p) {x = v} {y = v + 0}
      (omega arith) a
AllOf-first o p v n a b (suc k) h =
    subst (λ j. is_disabled o j ≡ false → is_odd (priority_of o.game j) ≡ p) {x = suc v + k}
      {y = v + suc k} (omega arith) (b k (omega (arith, h)))

abbrev parity_or : Bool → Parities → Bool
parity_or b unknown = b
parity_or b (single p) = p
parity_or b mixed = b

abbrev pub is_single : Parities → Bool
is_single unknown = false
is_single (single p) = true
is_single mixed = false

parities_mixed : (o : Oink) (n v : ℕ) → parities_from o n v mixed ≡ mixed
unfolding parities_from
parities_mixed o zero v = refl
parities_mixed o (suc n) v = refl

parities_single :
    (o : Oink) (n v : ℕ) (q p : Bool)
    → parities_from o n v (single q) ≡ single p
    → (q ≡ p) × AllOf o p v n
unfolding parities_from
parities_single o zero v q p e = (ap (parity_or p) e, λ k h. absurd (omega (arith, h)))
parities_single o (suc n) v q p e =
    let odd = is_odd (priority_of o.game v) in
    let next = parities_from o n (suc v) in
    elim (Bool-cases (is_disabled o v)) [
      | inl d ↦
          let rest : next (single q) ≡ single p =
            sym (ap (λ b. next (if b then single q else if same q odd then single q else mixed)) d)
            ∙ e in
          let (a, b) = parities_single o n (suc v) q p rest in
          (a, AllOf-first o p v n (λ on. ground (arith, on, d)) b)
      | inr d ↦
          let tested : next (if same q odd then single q else mixed) ≡ single p =
            sym (ap (λ b. next (if b then single q else if same q odd then single q else mixed)) d)
            ∙ e in
          elim (Bool-cases (same q odd)) [
            | inl i ↦
                let rest : next (single q) ≡ single p =
                  sym (ap (λ b. next (if b then single q else mixed)) i) ∙ tested in
                let (a, b) = parities_single o n (suc v) q p rest in
                (a, AllOf-first o p v n (λ on. sym (same_parity q odd i) ∙ a) b)
            | inr i ↦
                let rest : next mixed ≡ single p =
                  sym (ap (λ b. next (if b then single q else mixed)) i) ∙ tested in
                absurd (
                  true_not_false
                    (sym (ap is_single rest) ∙ ap is_single (parities_mixed o n (suc v))))
          ]
    ]

pub parities_unknown :
    (o : Oink) (n v : ℕ) (p : Bool) → parities_from o n v unknown ≡ single p → AllOf o p v n
unfolding parities_from
parities_unknown o zero v p e = absurd (true_not_false (sym (ap is_single e)))
parities_unknown o (suc n) v p e =
    let odd = is_odd (priority_of o.game v) in
    let next = parities_from o n (suc v) in
    elim (Bool-cases (is_disabled o v)) [
      | inl d ↦
          let rest : next unknown ≡ single p =
            sym (ap (λ b. next (if b then unknown else single odd)) d) ∙ e in
          AllOf-first o p v n (λ on. ground (arith, on, d)) (parities_unknown o n (suc v) p rest)
      | inr d ↦
          let rest : next (single odd) ≡ single p =
            sym (ap (λ b. next (if b then unknown else single odd)) d) ∙ e in
          let (a, b) = parities_single o n (suc v) odd p rest in AllOf-first o p v n (λ on. a) b
    ]

choice-IsClosed :
    (G : Graph) (o : Oink) (p : Bool) (v : ℕ) (choice : Option ℕ)
    → IsClosed G o
    → v < G.n
    → is_disabled o v ≡ false
    → IsClosed G (elim choice [ none ↦ o | some to ↦ solve o v p (some to) ])
      × (work (elim choice [ none ↦ o | some to ↦ solve o v p (some to) ]) ≡ work o)
choice-IsClosed G o p v none c small on = (c, refl)
choice-IsClosed G o p v (some to) c small on = solve-IsClosed G o v p (some to) c small on

pub single_one-IsClosed :
    (G : Graph) (o : Oink) (p : Bool) (v : ℕ)
    → IsClosed G o
    → v < G.n
    → IsClosed G (single_one o p v) × (work (single_one o p v) ≡ work o)
unfolding single_one
single_one-IsClosed G o p v c small = elim (Bool-cases (is_disabled o v)) [
  | inl e ↦ rw e (c, refl)
  | inr e ↦ elim (Bool-cases (same (owner_of o.game v) p)) [
    | inl a ↦
        rw (e, a) (choice-IsClosed G o p v (first_enabled o.disabled (outs o.game v)) c small e)
    | inr a ↦ rw (e, a) (solve-IsClosed G o v p none c small e)
  ]
]

pub single_from-IsClosed :
    (G : Graph) (n v : ℕ) (p : Bool) (o : Oink)
    → IsClosed G o
    → n + v ≤ G.n
    → IsClosed G (single_from n v p o) × (work (single_from n v p o) ≡ work o)
unfolding single_from
single_from-IsClosed G zero v p o c small = (c, refl)
single_from-IsClosed G (suc n) v p o c small =
    let (a, b) = single_one-IsClosed G o p v c (omega arith) in
    let (d, e) = single_from-IsClosed G n (suc v) p (single_one o p v) a (omega arith) in (d, e ∙ b)
