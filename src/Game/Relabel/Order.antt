-- ===== src/Game/Relabel/Order.antt =====
-- The new priorities never fall from one vertex to the next.
use urss.Base.{
  ℕ, zero, suc, ◌+◌, ◌%◌, ◌≤◌, ◌<◌, ◌≡◌, refl, ap, arith, List, [], ◌∷◌, Option, none, some, length,
  get_or,
}
use urss.Game.Relabel.{Step, relabel}

abbrev pub priority : List ℕ → ℕ → ℕ
priority ps i = get_or ps i 0

-- The vertices are in the order of their priorities.
abbrev pub IsSorted : List ℕ → Type 0
IsSorted ps = (i j : ℕ) → i ≤ j → j < length ps → priority ps i ≤ priority ps j

module _ (step : Step) where
  pub length-relabel :
      (prev : Option (ℕ × ℕ)) (d : ℕ) (ps : List ℕ) → length (relabel step prev d ps).0 ≡ length ps
  unfolding relabel
  length-relabel prev d [] = refl
  length-relabel none d (p ∷ ps) = ap suc (length-relabel (some (p % 2, p)) d ps)
  length-relabel (some (prio, last)) d (p ∷ ps) =
      let up = step last prio p in ap suc (length-relabel (some (prio + up.0, p)) (d + up.1) ps)

  pub le-relabel :
      (prio last d : ℕ) (ps : List ℕ) (i : ℕ)
      → i < length ps
      → prio ≤ priority (relabel step (some (prio, last)) d ps).0 i
  unfolding relabel
  le-relabel prio last d [] i h = absurd (omega arith)
  le-relabel prio last d (p ∷ ps) zero h = omega arith
  le-relabel prio last d (p ∷ ps) (suc i) h =
      let up = step last prio p in
      omega (arith, le-relabel (prio + up.0) p (d + up.1) ps i (omega arith))

  pub relabel-IsSorted :
      (prev : Option (ℕ × ℕ)) (d : ℕ) (ps : List ℕ) → IsSorted (relabel step prev d ps).0
  unfolding relabel
  relabel-IsSorted prev d [] i j h k = absurd (omega arith)
  relabel-IsSorted none d (p ∷ ps) zero zero h k = omega arith
  relabel-IsSorted none d (p ∷ ps) zero (suc j) h k =
      le-relabel (p % 2) p d ps j (omega (arith, length-relabel (some (p % 2, p)) d ps))
  relabel-IsSorted none d (p ∷ ps) (suc i) zero h k = absurd (omega arith)
  relabel-IsSorted none d (p ∷ ps) (suc i) (suc j) h k =
      relabel-IsSorted (some (p % 2, p)) d ps i j (omega arith) (omega arith)
  relabel-IsSorted (some (prio, last)) d (p ∷ ps) zero zero h k = omega arith
  relabel-IsSorted (some (prio, last)) d (p ∷ ps) zero (suc j) h k =
      let up = step last prio p in
      le-relabel (prio + up.0) p (d + up.1) ps j
        (omega (arith, length-relabel (some (prio + up.0, p)) (d + up.1) ps))
  relabel-IsSorted (some (prio, last)) d (p ∷ ps) (suc i) zero h k = absurd (omega arith)
  relabel-IsSorted (some (prio, last)) d (p ∷ ps) (suc i) (suc j) h k =
      let up = step last prio p in
      relabel-IsSorted (some (prio + up.0, p)) (d + up.1) ps i j (omega arith) (omega arith)

  -- A step that reaches the parity of what it reads keeps all parities.
  module _ (keeps : (last prio p : ℕ) → (prio + (step last prio p).0) % 2 ≡ p % 2) where
    pub relabel_parity :
        (prev : Option (ℕ × ℕ)) (d : ℕ) (ps : List ℕ) (i : ℕ)
        → i < length ps
        → priority (relabel step prev d ps).0 i % 2 ≡ priority ps i % 2
    unfolding relabel
    relabel_parity prev d [] i h = absurd (omega arith)
    relabel_parity none d (p ∷ ps) zero h = omega arith
    relabel_parity none d (p ∷ ps) (suc i) h = relabel_parity (some (p % 2, p)) d ps i (omega arith)
    relabel_parity (some (prio, last)) d (p ∷ ps) zero h = keeps last prio p
    relabel_parity (some (prio, last)) d (p ∷ ps) (suc i) h =
        let up = step last prio p in
        relabel_parity (some (prio + up.0, p)) (d + up.1) ps i (omega arith)
