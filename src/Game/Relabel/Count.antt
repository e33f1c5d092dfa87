-- ===== src/Game/Relabel/Count.antt =====
-- What distinguishes the three renumberings: which priorities stay equal, which gaps are left, and
-- the number that is returned.
use native.Mathlib.Nat.{add-zero}
use urss.Base.{
  ℕ, zero, suc, ◌+◌, ◌-◌, ◌%◌, ◌≤◌, ◌<◌, ◌≡◌, ◌↔◌, refl, sym, subst, arith, List, [], ◌∷◌, some,
  if◌then◌else◌, ◌==◌, length,
}
use urss.Game.Relabel.{
  Step, relabel, inflate_step, compress_step, renumber_step, inflate, compress, renumber,
}
use urss.Game.Relabel.Parity.{renumber-keeps, compress-keeps}
use urss.Game.Relabel.Order.{
  priority, IsSorted, le-relabel, length-relabel, relabel-IsSorted, relabel_parity,
}

-- The number of times that a list changes its value, and so, if it is sorted, of distinct values.
abbrev changes : ℕ → List ℕ → ℕ
changes q [] = 0
changes q (p ∷ ps) = (if q == p then 0 else 1) + changes p ps

abbrev pub distinct : List ℕ → ℕ
distinct [] = 0
distinct (p ∷ ps) = 1 + changes p ps

-- `d` grows by one whenever `prio` grows.
module _ (step : Step)
    (counts : (last prio p : ℕ)
      → (step last prio p).1 ≡ (if (step last prio p).0 == 0 then 0 else 1)) where
  relabel_count :
      (prio last d : ℕ) (ps : List ℕ)
      → let (qs, e) = relabel step (some (prio, last)) d ps in e ≡ d + changes prio qs
  unfolding relabel
  relabel_count prio last d [] = omega arith
  relabel_count prio last d (p ∷ ps) =
      let up = step last prio p in
      ground (arith, relabel_count (prio + up.0) p (d + up.1) ps, counts last prio p)

inflate-counts :
    (last prio p : ℕ)
    → (inflate_step last prio p).1 ≡ (if (inflate_step last prio p).0 == 0 then 0 else 1)
unfolding inflate_step
inflate-counts last prio p = ground arith

compress-counts :
    (last prio p : ℕ)
    → (compress_step last prio p).1 ≡ (if (compress_step last prio p).0 == 0 then 0 else 1)
unfolding compress_step
compress-counts last prio p = ground arith

renumber-counts :
    (last prio p : ℕ)
    → (renumber_step last prio p).1 ≡ (if (renumber_step last prio p).0 == 0 then 0 else 1)
unfolding renumber_step
renumber-counts last prio p = ground arith

-- The number that `inflate`, `compress` and `renumber` return is the number of distinct priorities
-- that they leave.
pub relabel_returns_distinct :
    (ps : List ℕ)
    → ((inflate ps).1 ≡ distinct (inflate ps).0)
      × ((compress ps).1 ≡ distinct (compress ps).0)
      × ((renumber ps).1 ≡ distinct (renumber ps).0)
unfolding inflate compress renumber relabel
relabel_returns_distinct [] = (refl, refl, refl)
relabel_returns_distinct (p ∷ ps) = (
  relabel_count inflate_step inflate-counts (p % 2) p 1 ps,
  relabel_count compress_step compress-counts (p % 2) p 1 ps,
  relabel_count renumber_step renumber-counts (p % 2) p 1 ps,
)

-- In `renumber` the new priority stays as long as the old one does.
renumber_stays :
    (prio last d : ℕ) (ps : List ℕ)
    → prio % 2 ≡ last % 2
    → IsSorted (last ∷ ps)
    → (i : ℕ) → i < length ps
    → (priority (relabel renumber_step (some (prio, last)) d ps).0 i ≡ prio)
      ↔ (priority ps i ≡ last)
unfolding relabel renumber_step
renumber_stays prio last d [] e s i h = absurd (omega arith)
renumber_stays prio last d (p ∷ ps) e s zero h = ground (arith, s 0 1 (omega arith) (omega arith))
renumber_stays prio last d (p ∷ ps) e s (suc i) h =
    let up = renumber_step last prio p in
    let rest = λ (a b : ℕ) (m : a ≤ b) (k : b < length (p ∷ ps)).
      s (suc a) (suc b) (omega arith) (omega arith) in
    ground (
      arith,
      renumber_stays (prio + up.0) p (d + up.1) ps (renumber-keeps last prio p) rest i
          (omega arith),
      le-relabel renumber_step (prio + up.0) p (d + up.1) ps i (omega arith),
      s 0 1 (omega arith) (omega arith),
      s 1 (suc (suc i)) (omega arith) (omega arith),
    )

renumber_from_distinguishes :
    (prio last d : ℕ) (ps : List ℕ)
    → IsSorted ps
    → (i j : ℕ) → i < length ps
    → j < length ps
    → let (qs, _) = relabel renumber_step (some (prio, last)) d ps in
      (priority qs i ≡ priority qs j) ↔ (priority ps i ≡ priority ps j)
unfolding relabel
renumber_from_distinguishes prio last d [] s i j h k = absurd (omega arith)
renumber_from_distinguishes prio last d (p ∷ ps) s zero zero h k = (λ _. refl, λ _. refl)
renumber_from_distinguishes prio last d (p ∷ ps) s zero (suc j) h k =
    let up = renumber_step last prio p in
    let stays =
      renumber_stays (prio + up.0) p (d + up.1) ps (renumber-keeps last prio p) s j (omega arith) in
    (λ t. sym (stays.0 (sym t)), λ t. sym (stays.1 (sym t)))
renumber_from_distinguishes prio last d (p ∷ ps) s (suc i) zero h k =
    let up = renumber_step last prio p in
    renumber_stays (prio + up.0) p (d + up.1) ps (renumber-keeps last prio p) s i (omega arith)
renumber_from_distinguishes prio last d (p ∷ ps) s (suc i) (suc j) h k =
    let up = renumber_step last prio p in
    renumber_from_distinguishes (prio + up.0) p (d + up.1) ps
      (λ a b m l. s (suc a) (suc b) (omega arith) (omega arith)) i j (omega arith) (omega arith)

renumber-eq-from :
    (p : ℕ) (ps : List ℕ)
    → (renumber (p ∷ ps)).0 ≡ (relabel renumber_step (some (p % 2, p)) 1 (p ∷ ps)).0
unfolding renumber relabel renumber_step
renumber-eq-from p ps =
    let e : renumber_step p (p % 2) p ≡ (0, 0) = ground arith in rw (e, add-zero)

-- `renumber` gives two vertices of a sorted game the same priority exactly when they had the same.
pub renumber_distinguishes :
    (ps : List ℕ)
    → IsSorted ps
    → (i j : ℕ) → i < length ps
    → j < length ps
    → (priority (renumber ps).0 i ≡ priority (renumber ps).0 j) ↔ (priority ps i ≡ priority ps j)
renumber_distinguishes [] s i j h k = absurd (omega arith)
renumber_distinguishes (p ∷ ps) s i j h k =
    rw (renumber-eq-from p ps) (renumber_from_distinguishes (p % 2) p 1 (p ∷ ps) s i j h k)

inflate_rises :
    (prio last d : ℕ) (ps : List ℕ) (i : ℕ)
    → i < length ps
    → prio < priority (relabel inflate_step (some (prio, last)) d ps).0 i
unfolding relabel inflate_step
inflate_rises prio last d [] i h = absurd (omega arith)
inflate_rises prio last d (p ∷ ps) zero h = ground arith
inflate_rises prio last d (p ∷ ps) (suc i) h =
    let up = inflate_step last prio p in
    omega (arith, inflate_rises (prio + up.0) p (d + up.1) ps i (omega arith))

inflate_from_unique :
    (prio last d : ℕ) (ps : List ℕ) (i j : ℕ)
    → i < j
    → j < length ps
    → let (qs, _) = relabel inflate_step (some (prio, last)) d ps in priority qs i < priority qs j
unfolding relabel
inflate_from_unique prio last d [] i j h k = absurd (omega arith)
inflate_from_unique prio last d (p ∷ ps) i zero h k = absurd (omega arith)
inflate_from_unique prio last d (p ∷ ps) zero (suc j) h k =
    let up = inflate_step last prio p in inflate_rises (prio + up.0) p (d + up.1) ps j (omega arith)
inflate_from_unique prio last d (p ∷ ps) (suc i) (suc j) h k =
    let up = inflate_step last prio p in
    inflate_from_unique (prio + up.0) p (d + up.1) ps i j (omega arith) (omega arith)

-- `inflate` gives every vertex a priority of its own, in the order of the vertices.
pub inflate_unique :
    (ps : List ℕ) (i j : ℕ)
    → i < j
    → j < length ps
    → priority (inflate ps).0 i < priority (inflate ps).0 j
unfolding inflate relabel
inflate_unique [] i j h k = absurd (omega arith)
inflate_unique (p ∷ ps) i zero h k = absurd (omega arith)
inflate_unique (p ∷ ps) zero (suc j) h k = inflate_rises (p % 2) p 1 ps j (omega arith)
inflate_unique (p ∷ ps) (suc i) (suc j) h k =
    inflate_from_unique (p % 2) p 1 ps i j (omega arith) (omega arith)

compress_from_no_gap :
    (prio last d : ℕ) (ps : List ℕ)
    → let (qs, _) = relabel compress_step (some (prio, last)) d ps in
      (0 < length ps → priority qs 0 ≤ prio + 1)
      × ((i : ℕ) → suc i < length ps → priority qs (suc i) ≤ priority qs i + 1)
unfolding relabel compress_step
compress_from_no_gap prio last d [] = (λ h. omega arith, λ i h. omega arith)
compress_from_no_gap prio last d (p ∷ ps) =
    let up = compress_step last prio p in
    let ih = compress_from_no_gap (prio + up.0) p (d + up.1) ps in
    (λ h. ground arith, elim [ zero ↦ λ h. ih.0 (omega arith) | suc i ↦ λ h. ih.1 i (omega arith) ])

-- After compress each vertex keeps the parity of its priority, the first priority is at most 1, and
-- each other is the one before or one above it.
pub compress_no_gap :
    (ps : List ℕ) (i : ℕ)
    → i < length ps
    → (priority (compress ps).0 i % 2 ≡ priority ps i % 2)
      × (priority (compress ps).0 0 ≤ 1)
      × (priority (compress ps).0 (i - 1) ≤ priority (compress ps).0 i)
      × (priority (compress ps).0 i ≤ priority (compress ps).0 (i - 1) + 1)
unfolding compress relabel
compress_no_gap [] i h = absurd (omega arith)
compress_no_gap (p ∷ ps) zero h = (omega arith, omega arith, omega arith, omega arith)
compress_no_gap (p ∷ ps) (suc zero) h = (
  relabel_parity compress_step compress-keeps (some (p % 2, p)) 1 ps 0 (omega arith),
  omega arith,
  le-relabel compress_step (p % 2) p 1 ps 0 (omega arith),
  (compress_from_no_gap (p % 2) p 1 ps).0 (omega arith),
)
compress_no_gap (p ∷ ps) (suc (suc i)) h =
    let before : suc (suc i) - 1 ≡ suc i = omega arith in
    let qs = (relabel compress_step (some (p % 2, p)) 1 ps).0 in
    (
      relabel_parity compress_step compress-keeps (some (p % 2, p)) 1 ps (suc i) (omega arith),
      omega arith,
      subst (λ k. priority ((p % 2) ∷ qs) k ≤ priority qs (suc i)) (sym before)
          (relabel-IsSorted compress_step (some (p % 2, p)) 1 ps i (suc i) (omega arith)
            (omega (arith, length-relabel compress_step (some (p % 2, p)) 1 ps))),
      subst (λ k. priority qs (suc i) ≤ priority ((p % 2) ∷ qs) k + 1) (sym before)
          ((compress_from_no_gap (p % 2) p 1 ps).1 i (omega arith)),
    )
