-- ===== src/Pp/Gate.antt =====
-- What `getRegionStatus` of oink/src/pp.cpp says of a region, and when it is open.
use urss.Base.{
  List, [], ◌∷◌, ◌&&◌, not, ◌||◌, ℕ, zero, suc, ◌≤◌, ◌<◌, ◌≡◌, ◌⊎◌, refl, arith, true, false,
  Option, none, some, ◌==◌, Bool-cases, inl, inr,
}
use urss.Game.{owner_of, priority_of, outs, vertexcount}
use urss.Oink.{same, is_odd, is_disabled}
use urss.Base.Tally.{occ}
use urss.Pp.{can_escape, Pp, region_of, strategy_of, is_above, is_below, is_at, is_in, is_none}
use urss.Pp.Setup.{Status, opened, dominion, closed_to, is_opening, any_opening}
use urss.Pp.Below.{is_in-of}

-- The vertices of the priority `p` that are in the region stand up to the vertex `i`, in a sorted game.
pub record IsTop (i p : ℕ) (s : Pp) : Type 0 where
  pub here : priority_of s.oink.game i ≡ p
  pub small : i < vertexcount s.oink.game
  pub sorted :
      (a b : ℕ)
      → a ≤ b
      → b < vertexcount s.oink.game
      → priority_of s.oink.game a ≤ priority_of s.oink.game b
  pub heads : (v : ℕ) → is_in p s v ≡ true → priority_of s.oink.game v ≡ p → v ≤ i
  -- No vertex of the priority is below the region.
  pub raised :
      (v : ℕ)
      → is_disabled s.oink v ≡ false
      → is_below p (region_of s v) ≡ true
      → v < vertexcount s.oink.game
      → (priority_of s.oink.game v == p) ≡ false

-- A vertex of the player moves inside the region.
abbrev pub Moves : ℕ → Pp → Type 0
Moves p s =
    (v : ℕ)
    → is_in p s v ≡ true
    → same (owner_of s.oink.game v) (is_odd p) ≡ true
    → (u : ℕ) × (strategy_of s v ≡ some u) × (0 < occ u (outs s.oink.game v)) × (is_in p s u ≡ true)

-- An edge of the opponent from the region to a vertex that is not disabled.
pub record Exit (p : ℕ) (s : Pp) (v to : ℕ) : Type 0 where
  pub inside : is_in p s v ≡ true
  pub theirs : same (owner_of s.oink.game v) (is_odd p) ≡ false
  pub edge : 0 < occ to (outs s.oink.game v)
  pub free : is_disabled s.oink to ≡ false

-- A vertex of the region, of its priority, for which the region is open: the player has no move for it, or
-- the opponent has an edge from it to a lower vertex that is not disabled.
pub record IsGate (p : ℕ) (s : Pp) (v : ℕ) : Type 0 where
  pub inside : is_in p s v ≡ true
  pub head : priority_of s.oink.game v ≡ p
  pub leaves :
      ((same (owner_of s.oink.game v) (is_odd p) ≡ true) × (strategy_of s v ≡ none))
      ⊎ ((to : ℕ) × (same (owner_of s.oink.game v) (is_odd p) ≡ false)
          × (0 < occ to (outs s.oink.game v))
          × (is_disabled s.oink to ≡ false)
          × (is_below p (region_of s to) ≡ true))

-- What each status says: in an open region there is a vertex for which it is open; in a dominion the player
-- moves inside the region and the opponent cannot leave it; in a region that is closed to `r` the opponent
-- can leave it only to `r`, and does so somewhere, or to regions above.
pub data Says (p : ℕ) (s : Pp) : Status → Type 0 where
  says_opened : (v : ℕ) → IsGate p s v → Says p s opened
  says_dominion : Moves p s → ((v to : ℕ) → Exit p s v to → is_in p s to ≡ true) → Says p s dominion
  says_closed :
      (r v to : ℕ)
      → p < r
      → Moves p s
      → ((v to : ℕ) → Exit p s v to → (is_in p s to ≡ true) ⊎ (is_below r (region_of s to) ≡ false))
      → Exit p s v to
      → region_of s to ≡ some r
      → Says p s (closed_to r)

pub inside_lem :
    (p : ℕ) (r : Option ℕ) → is_below p r ≡ false → is_above p r ≡ false → is_at p r ≡ true
inside_lem p none a b = absurd (ground (arith, a))
inside_lem p (some r) a b = ground (arith, a, b)

pub escape_of :
    (s : Pp) (p : ℕ) (ts : List ℕ)
    → can_escape s p ts ≡ true
    → (to : ℕ) × (0 < occ to ts)
      × (is_disabled s.oink to ≡ false)
      × (is_below p (region_of s to) ≡ true)
unfolding can_escape
escape_of s p [] h = absurd (ground (arith, h))
escape_of s p (t ∷ ts) h =
    elim (Bool-cases (not (is_disabled s.oink t) && is_below p (region_of s t))) [
      | inl e ↦ (t, ground arith, ground (arith, e), ground (arith, e))
      | inr e ↦
          let (to, a, b, c) = escape_of s p ts (ground (arith, h, e)) in
          (to, omega (arith, a), b, c)
    ]

pub opening_of :
    (p n : ℕ) (s : Pp)
    → any_opening p n s ≡ true
    → (v : ℕ) × (v < n) × (priority_of s.oink.game v ≡ p) × (is_opening p s v ≡ true)
unfolding any_opening
opening_of p zero s h = absurd (ground (arith, h))
opening_of p (suc n) s h = elim (Bool-cases (priority_of s.oink.game n == p)) [
  | inr e ↦ absurd (ground (arith, h, e))
  | inl e ↦ elim (Bool-cases (is_opening p s n)) [
    | inl a ↦ (n, omega arith, ground (arith, e), a)
    | inr a ↦
        let (v, b, c, d) = opening_of p n s (ground (arith, h, e, a)) in (v, omega (arith, b), c, d)
  ]
]

pub none_of : (o : Option ℕ) → is_none o ≡ true → o ≡ none
none_of none e = refl
none_of (some k) e = absurd (ground (arith, e))

pub opening-IsGate :
    (i p : ℕ) (s : Pp) (v : ℕ)
    → IsTop i p s
    → v ≤ i
    → priority_of s.oink.game v ≡ p
    → is_opening p s v ≡ true
    → IsGate p s v
unfolding is_opening
opening-IsGate i p s v top k e h =
    let here : (priority_of s.oink.game v == p) ≡ true = ground (arith, e) in
    elim (Bool-cases (is_disabled s.oink v || is_above p (region_of s v))) [
      | inl a ↦ absurd (ground (arith, h, a))
      | inr a ↦
          let free : is_disabled s.oink v ≡ false = ground (arith, a) in
          let high : is_below p (region_of s v) ≡ false =
            elim (Bool-cases (is_below p (region_of s v))) [
              | inr b ↦ b
              | inl b ↦
                  absurd (ground (arith, here, top.raised v free b (omega (arith, k, top.small))))
            ] in
          record {
            inside = is_in-of p s v (inside_lem p (region_of s v) high (ground (arith, a))) free;
            head = e;
            leaves = elim (Bool-cases (same (owner_of s.oink.game v) (is_odd p))) [
              | inl m ↦ inl (m, none_of (strategy_of s v) (ground (arith, h, a, m)))
              | inr m ↦
                  let (to, b, c, d) =
                    escape_of s p (outs s.oink.game v) (ground (arith, h, a, m)) in
                  inr (to, m, b, c, d)
            ];
          }
    ]
