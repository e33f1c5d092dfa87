-- ===== src/Zlk/Heads.antt =====
-- The loop of `attractExt` over the heads.
use urss.Base.{
  ℕ, suc, ◌≤◌, ◌<◌, ◌≡◌, sym, subst, ap, ◌∙◌, arith, Bool, true, false, List, [], Option, none,
  some, if◌then◌else◌, ◌==◌, Bool-cases, inl, inr,
}
use urss.UintQueue
use urss.UintQueue.{UintQueue}
use urss.Game.{Game, owner_of, priority_of, vertexcount}
use urss.Oink.{Oink, is_odd, solve, same, is_solved}
use urss.Oink.Attract.{
  IsGraph, is_free, in_todo, solved-solve, strategy-here, solved-kept, strategy-kept, work-solve,
}
use urss.Oink.Steps.{IsFlushing}
use urss.Oink.Round.{if_none, work}
use urss.Oink.Ready.{IsReady, start-IsFlushing, counted-IsReady, solve-IsReady, not_waiting}
use urss.Oink.Start.{graph_of, unset-le}
use urss.Zlk.{Zlk, region_of, is_taken, is_within, take_vertex, attract_queue}
use urss.Zlk.Matches.{Matches}
use urss.Zlk.Moved.{Moved, trans-Moved, take-Moved, queue-Moved, taken-Moved, off-Moved}
use urss.Zlk.Take.{taken-take, take-Agrees, take-Left, lower-Matches}
use urss.Zlk.Queue.{attract_queue_lem}
use urss.Zlk.Reached.{Reached, head, later-Reached, kept-Reached}
use urss.Zlk.Between.{IsBetween}

module _ (g : Game) (disabled : List Bool) (i : ℕ) (pl : Bool) (y : Zlk) (p : Oink)
    (s : IsBetween g disabled (suc i) pl y p) (small : i < vertexcount g)
    (free : is_taken (region_of y i) ≡ false) where
  allowed : is_free p i ≡ true
  allowed = ground (arith, s.matches.0.barred i small, free)

  fresh : is_solved p i ≡ false
  fresh = ground (arith, allowed)

  abbrev won : Oink
  won = solve p i pl none

  move : Path (Option ℕ) none (if same pl (owner_of g i) then none else none)
  move = sym (if_none (same pl (owner_of g i)))

  pub won-Matches : Matches g (vertexcount g) i 0 pl (take_vertex y i 0 pl none) won
  won-Matches =
      lower-Matches g (vertexcount g) i 0 pl (take_vertex y i 0 pl none) won
        (
          take-Agrees (graph_of g disabled) g (suc i) 0 pl y p s.matches.0 s.ready.over i none none
              small free move,
          take-Left (graph_of g disabled) g (suc i) 0 pl y p s.matches.0 s.ready.over i none none
              small free move (λ x h e f. s.matches.1 x h f),
        )
        (ground (
          arith,
          taken-take (graph_of g disabled) g (suc i) 0 pl y p s.matches.0 s.ready.over i none none
              small free move i,
        ))

  pub won-IsReady : IsReady (graph_of g disabled) won
  won-IsReady = solve-IsReady (graph_of g disabled) p i pl none s.ready small allowed

  won_work : work won ≤ vertexcount g
  unfolding UintQueue.nonempty
  won_work =
      let empty : p.todo.pointer ≡ 0 = ground (arith, s.idle) in
      omega (
        arith,
        empty,
        unset-le p.game.solved,
        s.ready.over.solved_size,
        work-solve (graph_of g disabled) p i pl none s.ready.over small fresh,
      )

  module _ (z : Zlk) (q : Oink) (t : ℕ) (m : Matches g (vertexcount g) i 0 pl z q)
      (h : IsFlushing (graph_of g disabled) won t [] q) (idle : (v : ℕ) → in_todo q v ≡ false)
      (even : is_odd (priority_of g i) ≡ pl) where
    solved_still : (v : ℕ) → is_solved p v ≡ true → is_solved q v ≡ true
    solved_still v d =
        (h.kept v (solved-kept (graph_of g disabled) p i pl none s.ready.over small fresh v d)).0

    within_still : (v : ℕ) → is_within 0 (region_of y v) ≡ true → is_within 0 (region_of z v) ≡ true
    within_still v w = sym (m.0.taken v) ∙ solved_still v (s.matches.0.taken v ∙ w)

    old_lem :
        (v : ℕ)
        → is_within 0 (region_of z v) ≡ true
        → is_solved p v ≡ true
        → Reached g disabled pl z v
    old_lem v w d =
        let old : is_within 0 (region_of y v) ≡ true = sym (s.matches.0.taken v) ∙ d in
        kept-Reached g disabled pl y z v within_still
          (m.0.moves v w
            ∙ (h.kept v
                (solved-kept (graph_of g disabled) p i pl none s.ready.over small fresh v d)).2
            ∙ strategy-kept (graph_of g disabled) p i pl none s.ready.over small fresh v d
            ∙ sym (s.matches.0.moves v old))
          (s.reached v old)

    head_lem :
        is_within 0 (region_of z i) ≡ true → is_solved won i ≡ true → Reached g disabled pl z i
    head_lem w d = head even (
        m.0.moves i w
        ∙ (h.kept i d).2
        ∙ strategy-here (graph_of g disabled) p i pl none s.ready.over small fresh
        ∙ if_none (same pl (owner_of g i)))

    reached_lem : (v : ℕ) → is_within 0 (region_of z v) ≡ true → Reached g disabled pl z v
    reached_lem v w = elim (Bool-cases (is_solved p v)) [
      | inl d ↦ old_lem v w d
      | inr d ↦ elim (Bool-cases (is_solved won v)) [
        | inr e ↦ later-Reached g disabled i pl z won q t m h idle v w e
        | inl e ↦ elim (Bool-cases (v == i)) [
          | inl k ↦
              let here : i ≡ v = ground arith in
              subst
                (λ x.
                  is_within 0 (region_of z x) ≡ true
                  → is_solved won x ≡ true
                  → Reached g disabled pl z x)
                here head_lem w e
          | inr k ↦ absurd (
              ground (
                arith,
                d,
                e,
                k,
                solved-solve (graph_of g disabled) p i pl none s.ready.over small fresh v,
              ))
        ]
      ]
    ]

  taken_head : is_taken (region_of (take_vertex y i 0 pl none) i) ≡ true
  taken_head = ground (
    arith,
    taken-take (graph_of g disabled) g (suc i) 0 pl y p s.matches.0 s.ready.over i none none small
        free move i,
  )

  dealt_lem :
      (z : Zlk)
      → ((v : ℕ) → Moved (take_vertex y i 0 pl none) z v)
      → (v : ℕ) → i ≤ v
      → v < vertexcount g
      → is_taken (region_of z v) ≡ true
  dealt_lem z moved v k l =
      let t : is_taken (region_of (take_vertex y i 0 pl none) v) ≡ true =
        elim (Bool-cases (v == i)) [
          | inl e ↦
              let here : i ≡ v = ground arith in
              subst (λ x. is_taken (region_of (take_vertex y i 0 pl none) x) ≡ true) here taken_head
          | inr e ↦
              let old = s.dealt v (ground arith) l in
              ap is_taken
                (taken-Moved y (take_vertex y i 0 pl none) v (take-Moved y i 0 pl none free v) old)
              ∙ old
        ] in
      ap is_taken (taken-Moved (take_vertex y i 0 pl none) z v (moved v) t) ∙ t

  pub head_step :
      (fuel : ℕ) (A : List ℕ)
      → IsGraph (graph_of g disabled)
      → is_odd (priority_of g i) ≡ pl
      → vertexcount g ≤ fuel
      → (z : Zlk) × (q : Oink) × (B : List ℕ) × (attract_queue g fuel i 0 pl
            (take_vertex y i 0 pl none)
            A
          ≡ some (z, B))
        × IsBetween g disabled i pl z q
  head_step fuel A graph even enough =
      let (z, q, B, a, b, c, m, (t, h)) =
        attract_queue_lem (graph_of g disabled) won g i 0 pl fuel 0 (take_vertex y i 0 pl none) won
          A graph won-Matches (start-IsFlushing (graph_of g disabled) won won-IsReady)
          (omega (arith, won_work, enough)) in
      let empty : UintQueue.nonempty q.todo ≡ false = ap UintQueue.nonempty (sym m.0.queue) ∙ c in
      (
        z,
        q,
        B,
        a,
        record {
          matches = m;
          ready = counted-IsReady (graph_of g disabled) t q h.state;
          idle = empty;
          reached = reached_lem z q t m h (not_waiting q empty) even;
          dealt = λ v k l.
              dealt_lem z (queue-Moved g i 0 pl fuel (take_vertex y i 0 pl none) A z B a) v k l;
          off = λ v k t w.
              let (d, e) =
                off-Moved y z v
                  (trans-Moved y (take_vertex y i 0 pl none) z v (take-Moved y i 0 pl none free v)
                    (queue-Moved g i 0 pl fuel (take_vertex y i 0 pl none) A z B a v))
                  t w in
              s.off v k d e;
        },
      )
