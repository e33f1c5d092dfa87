-- ===== src/Zlk/Reached.antt =====
-- Why `attractExt` takes a vertex, and what it leaves.
use urss.Base.{
  ℕ, ◌≤◌, ◌<◌, ◌≡◌, ◌≢◌, sym, ap, ◌∙◌, arith, Bool, true, false, not, ◌&&◌, List, [], none, some,
  get_or, Bool-cases, inl, inr,
}
use urss.Game.{Game, owner_of, priority_of, outs, vertexcount}
use urss.Oink.{Oink, is_odd, is_solved}
use urss.Base.Tally.{occ, tally, tally_ext}
use urss.Oink.Attract.{by_choice, by_force, is_open, is_free, in_todo}
use urss.Oink.Steps.{IsFlushing}
use urss.Oink.Start.{graph_of}
use urss.Zlk.{Zlk, region_of, strategy_of, is_taken, is_within, count_open}
use urss.Zlk.Matches.{Matches, need}

-- Why a vertex is taken: it is a head of the parity of the player, its owner moves to a taken vertex, or all its successors that
-- are not disabled are taken.
pub data Reached (g : Game) (disabled : List Bool) (pl : Bool) (y : Zlk) (v : ℕ) : Type 0 where
  head : is_odd (priority_of g v) ≡ pl → strategy_of y v ≡ none → Reached g disabled pl y v
  chosen :
      (to : ℕ)
      → owner_of g v ≡ pl
      → strategy_of y v ≡ some to
      → 0 < occ to (outs g v)
      → is_within 0 (region_of y to) ≡ true
      → Reached g disabled pl y v
  forced :
      owner_of g v ≡ not pl
      → strategy_of y v ≡ none
      → ((to : ℕ)
          → 0 < occ to (outs g v)
          → get_or disabled to false ≡ false
          → is_within 0 (region_of y to) ≡ true)
      → Reached g disabled pl y v

-- A successor that is neither disabled nor taken.
abbrev pub is_left : List Bool → Zlk → ℕ → Bool
is_left disabled y to = not (get_or disabled to false) && not (is_within 0 (region_of y to))

not_of : (a b : Bool) → not a ≡ b → a ≡ not b
not_of true b e = ap not e
not_of false b e = ap not e

not_self : (a : Bool) → a ≢ not a
not_self true = ground arith
not_self false = ground arith

module _ (g : Game) (disabled : List Bool) (i : ℕ) (pl : Bool) (y : Zlk) (start p : Oink) (u : ℕ)
    (m : Matches g (vertexcount g) i 0 pl y p) (h : IsFlushing (graph_of g disabled) start u [] p)
    (idle : (v : ℕ) → in_todo p v ≡ false) where
  pub later-Reached :
      (v : ℕ)
      → is_within 0 (region_of y v) ≡ true
      → is_solved start v ≡ false
      → Reached g disabled pl y v
  later-Reached v w d = elim (h.settled v (m.0.taken v ∙ w) d) [
    | by_choice to a b c e f ↦
        chosen to (sym a ∙ m.0.mine v w) (m.0.moves v w ∙ b) c (sym (m.0.taken to) ∙ e)
    | by_force a b f ↦
        forced (not_of (owner_of g v) pl (sym a ∙ m.0.mine v w)) (m.0.moves v w ∙ b)
          (λ to k e. sym (m.0.taken to) ∙ (f to k (ap not e)).0)
  ]

  left_free :
      (v : ℕ) → v < i → i ≤ vertexcount g → is_taken (region_of y v) ≡ false → is_free p v ≡ true
  left_free v k l f = ground (arith, m.0.barred v (omega (arith, k, l)), f)

  open_lem : (to : ℕ) → is_open (graph_of g disabled) p to ≡ is_left disabled y to
  open_lem to = ground (arith, idle to, m.0.taken to)

  pub not_reached :
      (v : ℕ)
      → v < i
      → i ≤ vertexcount g
      → is_taken (region_of y v) ≡ false
      → owner_of g v ≡ pl
      → (to : ℕ) → 0 < occ to (outs g v)
      → get_or disabled to false ≡ false
      → is_within 0 (region_of y to) ≡ false
  not_reached v k l f mine to j e = elim (Bool-cases (is_within 0 (region_of y to))) [
    | inr w ↦ w
    | inl w ↦
        let closed : is_open (graph_of g disabled) p to ≡ false = open_lem to ∙ ground (arith, w) in
        elim (h.state.opposed v to (omega (arith, k, l)) (left_free v k l f) j (ap not e) closed) [
          | inl a ↦ absurd (not_self pl (sym (m.0.mine to w) ∙ a ∙ ap not mine))
          | inr (a, b) ↦ absurd (omega (arith, b))
        ]
  ]

  pub counted_left :
      (v : ℕ)
      → v < i
      → i ≤ vertexcount g
      → is_taken (region_of y v) ≡ false
      → tally (is_left disabled y) (outs g v) ≡ need (region_of y v) (count_open y 0 (outs g v))
  counted_left v k l f = omega (
    arith,
    m.1 v k f,
    h.state.count v (omega (arith, k, l)) (left_free v k l f),
    tally_ext (is_open (graph_of g disabled) p) (is_left disabled y) (outs g v) open_lem,
  )

-- A reason stays a reason when more is taken and the strategy of the vertex is kept.
pub kept-Reached :
    (g : Game) (disabled : List Bool) (pl : Bool) (y z : Zlk) (v : ℕ)
    → ((x : ℕ) → is_within 0 (region_of y x) ≡ true → is_within 0 (region_of z x) ≡ true)
    → strategy_of z v ≡ strategy_of y v
    → Reached g disabled pl y v
    → Reached g disabled pl z v
kept-Reached g disabled pl y z v more same_move (head a b) = head a (same_move ∙ b)
kept-Reached g disabled pl y z v more same_move (chosen to a b c d) =
    chosen to a (same_move ∙ b) c (more to d)
kept-Reached g disabled pl y z v more same_move (forced a b c) =
    forced a (same_move ∙ b) (λ to k e. more to (c to k e))
