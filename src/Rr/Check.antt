-- ===== src/Rr/Check.antt =====
-- `checkRegion` of oink/src/rr.cpp: which regions it keeps.
use urss.Base.{
  ℕ, ◌<◌, ◌≡◌, ◌↔◌, refl, subst, ap, arith, true, false, not, ◌&&◌, List, [], ◌∷◌, ◌==◌, ltb, set,
  Bool-cases, inl, inr,
}
use urss.Base.Tally.{occ}
use urss.Pp.{Pp, region_of, members, is_above}
use urss.Pp.Setup.{is_empty}
use urss.Rr.{not_above, check_vertex, check_all, check_region}
use urss.Rr.Keeps.{
  Keeps, check_vertex_sound, check_vertex_complete, check_vertex-Eased, Keeps-Eased, Eased-Keeps,
}

check_all_sound :
    (p : ℕ) (js : List ℕ) (s : Pp)
    → (check_all p s js).1 ≡ true
    → (j : ℕ) → 0 < occ j js
    → Keeps p s j
unfolding check_all
check_all_sound p [] s = λ h j k. absurd (omega (arith, k))
check_all_sound p (x ∷ xs) s = elim (Bool-cases (check_vertex p s x).1) [
  | inr e ↦ rw (check_all, e) (λ h. absurd (ground (arith, h)))
  | inl e ↦
      rw (check_all, e)
        (λ h j k. elim (Bool-cases (x == j)) [
          | inl f ↦
              let here : x ≡ j = ground (arith, f) in
              subst (Keeps p s) here (check_vertex_sound p s x e)
          | inr f ↦
              Eased-Keeps p s (check_vertex p s x).0 j (check_vertex-Eased p s x)
                (check_all_sound p xs (check_vertex p s x).0 h j (ground (arith, k, f)))
        ])
]

check_all_complete :
    (p : ℕ) (js : List ℕ) (s : Pp)
    → ((j : ℕ) → 0 < occ j js → Keeps p s j)
    → (check_all p s js).1 ≡ true
unfolding check_all
check_all_complete p [] s h = refl
check_all_complete p (x ∷ xs) s h =
    let e = check_vertex_complete p s x (h x (ground arith)) in
    rw (check_all, e)
      (check_all_complete p xs (check_vertex p s x).0 (λ j k.
        Keeps-Eased p s (check_vertex p s x).0 j (check_vertex-Eased p s x)
          (h j (omega (arith, k)))))

occ-not_above :
    (p : ℕ) (s : Pp) (xs : List ℕ) (j : ℕ)
    → (ltb 0 (occ j (not_above p s xs))) ≡ (ltb 0 (occ j xs) && not (is_above p (region_of s j)))
unfolding not_above
occ-not_above p s [] j = ground arith
occ-not_above p s (x ∷ xs) j = elim (Bool-cases (x == j)) [
  | inl e ↦
      let here : x ≡ j = ground (arith, e) in
      let same_above : is_above p (region_of s x) ≡ is_above p (region_of s j) =
        ap (λ y. is_above p (region_of s y)) here in
      elim (Bool-cases (is_above p (region_of s x))) [
        | inl b ↦ rw b (ground (arith, e, b, same_above, occ-not_above p s xs j))
        | inr b ↦ rw b (ground (arith, e, b, same_above))
      ]
  | inr e ↦ elim (Bool-cases (is_above p (region_of s x))) [
    | inl b ↦ rw b (ground (arith, e, occ-not_above p s xs j))
    | inr b ↦ rw b (ground (arith, e, occ-not_above p s xs j))
  ]
]

Keeps-region :
    (p : ℕ) (s : Pp) (rs : List (List ℕ)) (j : ℕ)
    → Keeps p s j
    → Keeps p (record s { regions = rs }) j
Keeps-region p s rs j h = record { enabled = h.enabled; moves = h.moves; shut = h.shut }

region-Keeps :
    (p : ℕ) (s : Pp) (rs : List (List ℕ)) (j : ℕ)
    → Keeps p (record s { regions = rs }) j
    → Keeps p s j
region-Keeps p s rs j h = record { enabled = h.enabled; moves = h.moves; shut = h.shut }

is_empty_all : (xs : List ℕ) → is_empty xs ≡ true → (j : ℕ) → occ j xs ≡ 0
is_empty_all [] e j = refl
is_empty_all (x ∷ xs) e j = absurd (ground (arith, e))

-- checkRegion keeps a region exactly when each of its vertices that is not in a higher region is not
-- disabled and, if it has another priority, is held: its player moves into the region, or the opponent
-- has no edge to a lower one.
pub check_region_lem :
    (p : ℕ) (s : Pp)
    → ((check_region p s).1 ≡ true)
      ↔ ((j : ℕ) → 0 < occ j (members s p) → is_above p (region_of s j) ≡ false → Keeps p s j)
unfolding check_region
check_region_lem p s = elim (Bool-cases (is_empty (members s p))) [
  | inl e ↦ rw e (λ h j k b. absurd (omega (arith, k, is_empty_all (members s p) e j)), λ h. refl)
  | inr e ↦
      let kept = not_above p s (members s p) in
      let rs = set s.regions p kept in
      rw e (
        λ h j k b. region-Keeps p s rs j (
            check_all_sound p kept (record s { regions = rs }) h j
              (ground (arith, occ-not_above p s (members s p) j, k, b))),
        λ h.
            check_all_complete p kept (record s { regions = rs })
              (λ j k. Keeps-region p s rs j (
                h j (ground (arith, occ-not_above p s (members s p) j, k))
                  (ground (arith, occ-not_above p s (members s p) j, k)))),
      )
]
