-- ===== src/Zlk/Ext.antt =====
-- `attractExt` on the whole game, as `ZLKSolver::run` first calls it.
use urss.Base.{
  some_eq, ℕ, zero, suc, ◌+◌, ◌≤◌, ◌<◌, ◌≡◌, refl, sym, subst, ap, ◌∙◌, arith, Bool, true, false,
  not, ◌&&◌, ◌||◌, List, [], Option, none, some, ◌==◌, get_or, Bool-cases, inl, inr,
}
use urss.UintQueue
use urss.UintQueue.{UintQueue}
use urss.Game.{Game, owner_of, priority_of, outs, vertexcount}
use urss.Oink.{Oink, make, is_odd, same}
use urss.Base.Tally.{occ, tally}
use urss.Oink.Attract.{IsGraph}
use urss.Oink.Round.{same_eq}
use urss.Oink.Ready.{not_waiting, start-IsFlushing}
use urss.Oink.Start.{graph_of, IsUnsolved, make-IsReady}
use urss.Zlk.{
  Zlk, waiting, region_of, winning_of, is_taken, is_within, count_open, Attracted, attract_heads,
  attract_ext,
}
use urss.Zlk.Matches.{need}
use urss.Zlk.First.{top_vertex_lem, start-Agrees, start-Left, nothing_within, taken_lem}
use urss.Zlk.Reached.{Reached, is_left, not_reached, counted_left}
use urss.Zlk.Between.{IsBetween, lower-IsBetween, between_within}
use urss.Zlk.Heads.{head_step}
use urss.Zlk.Run.{top_vertex, start_arrays}

-- The vertices below it are not dealt with.
abbrev pub bound : Option ℕ → ℕ
bound none = 0
bound (some k) = suc k

-- The test at which the loop stops: another priority, or another parity.
abbrev pub is_stop : Bool → Game → ℕ → ℕ → Bool
is_stop to_inversion g pr k =
    (not to_inversion && not (priority_of g k == pr))
    || not (same (is_odd (priority_of g k)) (is_odd pr))

-- Where the loop stops.
abbrev pub StopsAt : Game → Bool → ℕ → Zlk → ℕ → Type 0
StopsAt g to_inversion pr y k =
    (is_taken (region_of y k) ≡ false) × (is_stop to_inversion g pr k ≡ true)

module _ (g : Game) (disabled : List Bool) (to_inversion : Bool) (fuel pr : ℕ)
    (graph : IsGraph (graph_of g disabled)) (enough : vertexcount g ≤ fuel) where
  pub heads_lem :
      (i : ℕ) (y : Zlk) (p : Oink) (A : List ℕ)
      → IsBetween g disabled i (is_odd pr) y p
      → i ≤ vertexcount g
      → (R : Attracted) × (q : Oink) × (attract_heads g to_inversion fuel pr 0 i y A ≡ some R)
        × (bound R.next ≤ i)
        × IsBetween g disabled (bound R.next) (is_odd pr) R.arrays q
        × ((k : ℕ) → R.next ≡ some k → StopsAt g to_inversion pr R.arrays k)
  unfolding attract_heads
  heads_lem zero y p A s small = (
    record { next = none; arrays = y; region = A },
    p,
    refl,
    omega arith,
    s,
    λ k e. absurd (ground (arith, e)),
  )
  heads_lem (suc i) y p A s small = elim (Bool-cases (is_taken (region_of y i))) [
    | inl e ↦
        let (R, q, a, b, c, d) =
          heads_lem i y p A (lower-IsBetween g disabled i (is_odd pr) y p s e)
            (omega (arith, small)) in
        (R, q, rw (attract_heads, e) a, omega (arith, b), c, d)
    | inr e ↦ elim (Bool-cases (is_stop to_inversion g pr i)) [
      | inl f ↦ (
        record { next = some i; arrays = y; region = A },
        p,
        rw (attract_heads, e, f) refl,
        omega arith,
        s,
        λ k h. subst (λ x. StopsAt g to_inversion pr y x) (some_eq i k h) (e, f),
      )
      | inr f ↦
          let (z, q, B, a, b) =
            head_step g disabled i (is_odd pr) y p s (omega (arith, small)) e fuel A graph
              (sym (same_eq (is_odd (priority_of g i)) (is_odd pr) (ground (arith, f)))) enough in
          let (R, t, c, d, k, l) = heads_lem i z q B b (omega (arith, small)) in
          (R, t, rw (attract_heads, e, f, a) c, omega (arith, d), k, l)
    ]
  ]

module _ (g : Game) (disabled : List Bool) (i : ℕ) (pl : Bool) (u : IsUnsolved g disabled)
    (first : top_vertex disabled (vertexcount g) ≡ some i)
    (targets : (x v : ℕ) → x < vertexcount g → 0 < occ v (outs g x) → v < vertexcount g) where
  pub start-IsBetween : IsBetween g disabled (suc i) pl (start_arrays g disabled) (make g disabled)
  unfolding make UintQueue.make UintQueue.nonempty
  start-IsBetween = record {
    matches =
        (start-Agrees g disabled i pl u first targets, start-Left g disabled i pl u first targets);
    ready = make-IsReady g disabled u;
    idle = refl;
    reached = λ v w. absurd (ground (arith, w, nothing_within g disabled i pl u first targets v));
    dealt = λ v k l.
        taken_lem g disabled i pl u first targets v l
        ∙ (top_vertex_lem disabled (vertexcount g) i first).2 v (omega (arith, k)) l;
    off = λ v l t w. sym (taken_lem g disabled i pl u first targets v l) ∙ t;
  }

-- Let the game have no solution and arrays of its size, its edges lead to its vertices, its ingoing
-- edges be the converse of its outgoing ones, and i be the highest vertex that is not disabled. With
-- fuel for the vertices, attractExt called for i on the arrays that run makes returns, with an empty
-- queue. Then, for the player of the parity of i:
-- each vertex that is taken is won by the player, and is a head of this parity, or its owner is the
-- player and moves to a taken successor, or it is the opponent's and all its successors that are not
-- disabled are taken;
-- all vertices above the returned one that are not disabled are taken, and the returned one is not, and
-- has another parity, or another priority where the solver stops at that;
-- a vertex of the player, up to the returned one, that is not taken has no taken successor that is not
-- disabled, and one that waits with the count -(k + 1) has k + 1 edges to successors that are neither
-- disabled nor taken.
pub attract_ext-start_arrays :
    (g : Game) (disabled : List Bool) (to_inversion : Bool) (i fuel : ℕ)
    → IsUnsolved g disabled
    → IsGraph (graph_of g disabled)
    → top_vertex disabled (vertexcount g) ≡ some i
    → ((x v : ℕ) → x < vertexcount g → 0 < occ v (outs g x) → v < vertexcount g)
    → vertexcount g ≤ fuel
    → (R : Attracted) × (attract_ext g to_inversion fuel i 0 (start_arrays g disabled) [] ≡ some R)
      × (UintQueue.nonempty R.arrays.q ≡ false)
      × ((v : ℕ)
          → is_within 0 (region_of R.arrays v) ≡ true
          → (winning_of R.arrays v ≡ some (is_odd (priority_of g i)))
            × Reached g disabled (is_odd (priority_of g i)) R.arrays v)
      × ((v : ℕ)
          → bound R.next ≤ v
          → v < vertexcount g
          → get_or disabled v false ≡ false
          → is_within 0 (region_of R.arrays v) ≡ true)
      × ((k : ℕ) → R.next ≡ some k → StopsAt g to_inversion (priority_of g i) R.arrays k)
      × ((v to : ℕ)
          → v < bound R.next
          → is_taken (region_of R.arrays v) ≡ false
          → owner_of g v ≡ is_odd (priority_of g i)
          → 0 < occ to (outs g v)
          → get_or disabled to false ≡ false
          → is_within 0 (region_of R.arrays to) ≡ false)
      × ((v k : ℕ)
          → v < bound R.next
          → region_of R.arrays v ≡ waiting k
          → tally (is_left disabled R.arrays) (outs g v) ≡ k + 1)
unfolding attract_ext
attract_ext-start_arrays g disabled to_inversion i fuel u graph first targets enough =
    let pl = is_odd (priority_of g i) in
    let small : i < vertexcount g = (top_vertex_lem disabled (vertexcount g) i first).0 in
    let (R, p, a, b, s, stop) =
      heads_lem g disabled to_inversion fuel (priority_of g i) graph enough (suc i)
        (start_arrays g disabled) (make g disabled) []
        (start-IsBetween g disabled i pl u first targets) (omega (arith, small)) in
    let idle = not_waiting p s.idle in
    let h = start-IsFlushing (graph_of g disabled) p s.ready in
    let below : bound R.next ≤ vertexcount g = omega (arith, b, small) in
    let more : i + 1 ≡ suc i = omega arith in
    (
      R,
      ap (λ k. attract_heads g to_inversion fuel (priority_of g i) 0 k (start_arrays g disabled) [])
            more
          ∙ a,
      ap UintQueue.nonempty s.matches.0.queue ∙ s.idle,
      λ v w. (s.matches.0.won v w ∙ ap some (s.matches.0.mine v w), s.reached v w),
      between_within g disabled (bound R.next) pl R.arrays p s,
      stop,
      λ v to l f mine j e.
          not_reached g disabled (bound R.next) pl R.arrays p p 0 s.matches h idle v l below f mine
            to j e,
      λ v n l e.
          counted_left g disabled (bound R.next) pl R.arrays p p 0 s.matches h idle v l below
            (ap is_taken e)
          ∙ ap (λ r. need r (count_open R.arrays 0 (outs g v))) e,
    )
