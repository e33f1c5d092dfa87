-- ===== src/Ppp/Due.antt =====
-- The values `reset0` and `reset1` of oink/src/ppp.cpp: which regions are to be reset.
use urss.Base.{ℕ, ◌+◌, ◌≡◌, arith, not, ◌&&◌, ◌||◌, ltb, Bool-cases, inl, inr}
use urss.Oink.{is_odd, same}
use urss.Ppp.{Ppp, is_due, raise_reset}

-- After a promotion exactly those regions are to be reset that were, or that are lower and of the other
-- parity.
pub raise_reset-is_due :
    (s : Ppp) (res p : ℕ)
    → is_due (raise_reset s res) p
      ≡ (is_due s p || (not (same (is_odd p) (is_odd res)) && ltb p res))
unfolding raise_reset
raise_reset-is_due s res p = elim (Bool-cases (is_odd res)) [
  | inl a ↦ elim (Bool-cases (ltb s.reset0 (res + 2))) [
    | inl c ↦ elim (Bool-cases (is_odd p)) [
      | inl b ↦ rw (a, b, c) (ground arith)
      | inr b ↦ rw (a, b, c) (ground (arith, c))
    ]
    | inr c ↦ elim (Bool-cases (is_odd p)) [
      | inl b ↦ rw (a, b, c) (ground arith)
      | inr b ↦ rw (a, b, c) (ground (arith, c))
    ]
  ]
  | inr a ↦ elim (Bool-cases (ltb s.reset1 (res + 2))) [
    | inl c ↦ elim (Bool-cases (is_odd p)) [
      | inl b ↦ rw (a, b, c) (ground (arith, c))
      | inr b ↦ rw (a, b, c) (ground arith)
    ]
    | inr c ↦ elim (Bool-cases (is_odd p)) [
      | inl b ↦ rw (a, b, c) (ground (arith, c))
      | inr b ↦ rw (a, b, c) (ground arith)
    ]
  ]
]
