-- ===== src/Pp/Escapes.antt =====
-- The loop of `setupRegion` of oink/src/pp.cpp that adds the vertices of the priority.
use urss.Base.{
  ℕ, zero, suc, ◌+◌, ◌≤◌, ◌≡◌, refl, ◌∙◌, arith, true, false, Option, none, some, ◌==◌, ltb, set,
  Bool-cases, inl, inr,
}
use urss.Game.{priority_of}
use urss.Oink.{is_disabled}
use urss.Pp.{Pp, region_of, strategy_of, is_at, is_none}
use urss.Pp.Setup.{is_marked, leaves_marked, add_escape, add_escapes}
use urss.Pp.Below.{is_in-of, clear_in}
use urss.Pp.Adding.{IsAdding, outside-IsAdding, clear-IsAdding, listing-IsAdding}

none_not_at : (p : ℕ) (o : Option ℕ) → is_none o ≡ true → is_at p o ≡ false
none_not_at p none a = refl
none_not_at p (some r) a = absurd (ground (arith, a))

add_escape-IsAdding :
    (i p j : ℕ) (s : Pp) → IsAdding i p (suc j) s → IsAdding i p j (add_escape p s j)
unfolding add_escape
add_escape-IsAdding i p j s h = elim (Bool-cases (is_none (region_of s j))) [
  | inl a ↦ rw a (outside-IsAdding i p j s h (ground (arith, none_not_at p (region_of s j) a)))
  | inr a ↦ elim (Bool-cases (is_disabled s.oink j)) [
    | inl d ↦
        rw (a, d)
          (outside-IsAdding i p j (record s { region = set s.region j none })
            (clear-IsAdding i p j s h d) (clear_in p s j j d ∙ ground (arith, d)))
    | inr d ↦ elim (Bool-cases (is_at p (region_of s j))) [
      | inr b ↦ rw (a, d, b) (outside-IsAdding i p j s h (ground (arith, b)))
      | inl b ↦ rw (a, d, b, h.unmarked j) (listing-IsAdding i p j s h (is_in-of p s j b d))
    ]
  ]
]

-- The loop has met all vertices of the priority.
stop-IsAdding :
    (i p j : ℕ) (s : Pp)
    → IsAdding i p (suc j) s
    → (priority_of s.oink.game j == p) ≡ false
    → j ≤ i
    → IsAdding i p 0 s
stop-IsAdding i p j s h other low = record {
  head = h.head;
  region_size = h.region_size;
  strategy_size = h.strategy_size;
  few = h.few;
  unmarked = h.unmarked;
  distinct = h.distinct;
  listed = λ v k. let (a, b, c) = h.listed v k in (a, omega arith, c);
  complete = λ v a k. elim (Bool-cases (ltb j v)) [
    | inl e ↦ h.complete v a (ground (arith, e))
    | inr e ↦ absurd (
        ground (
          arith,
          other,
          h.heads v a,
          h.head.here,
          h.head.sorted v j (ground (arith, e)) (omega (arith, low, h.head.small)),
          h.head.sorted j i low h.head.small,
        ))
  ];
  heads = h.heads;
  up_to = h.up_to;
  raised = h.raised;
  empty = h.empty;
  room = h.room;
}

pub add_escapes-IsAdding :
    (i p n : ℕ) (s : Pp) → IsAdding i p n s → n ≤ i + 1 → IsAdding i p 0 (add_escapes p n s)
unfolding add_escapes
add_escapes-IsAdding i p zero s h k = h
add_escapes-IsAdding i p (suc j) s h k = elim (Bool-cases (priority_of s.oink.game j == p)) [
  | inl e ↦
      rw (add_escapes, e)
        (add_escapes-IsAdding i p j (add_escape p s j) (add_escape-IsAdding i p j s h)
          (omega (arith, k)))
  | inr e ↦ rw (add_escapes, e) (stop-IsAdding i p j s h e (omega (arith, k)))
]

add_escape-oink : (p j : ℕ) (s : Pp) → (add_escape p s j).oink ≡ s.oink
unfolding add_escape
add_escape-oink p j s = elim (Bool-cases (is_none (region_of s j))) [
  | inl a ↦ rw a refl
  | inr a ↦ elim (Bool-cases (is_disabled s.oink j)) [
    | inl d ↦ rw (a, d) refl
    | inr d ↦ elim (Bool-cases (is_at p (region_of s j))) [
      | inr b ↦ rw (a, d, b) refl
      | inl b ↦ elim (Bool-cases (is_marked s j)) [
        | inr c ↦ rw (a, d, b, c) refl
        | inl c ↦ elim (Bool-cases (leaves_marked s (strategy_of s j))) [
          | inl e ↦ rw (a, d, b, c, e) refl
          | inr e ↦ rw (a, d, b, c, e) refl
        ]
      ]
    ]
  ]
]

pub add_escapes-oink : (p n : ℕ) (s : Pp) → (add_escapes p n s).oink ≡ s.oink
unfolding add_escapes
add_escapes-oink p zero s = refl
add_escapes-oink p (suc j) s = elim (Bool-cases (priority_of s.oink.game j == p)) [
  | inl e ↦ rw (add_escapes, e) (add_escapes-oink p j (add_escape p s j) ∙ add_escape-oink p j s)
  | inr e ↦ rw (add_escapes, e) refl
]
