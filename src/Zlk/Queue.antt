-- ===== src/Zlk/Queue.antt =====
-- The loop of `attractExt` over the queue, beside that of `flush`.
use urss.Base.{
  ℕ, zero, suc, ◌≤◌, ◌≡◌, refl, sym, subst, ap, ◌∙◌, arith, Bool, true, false, List, [], ◌∷◌, ◌++◌,
  some, Bool-cases, inl, inr,
}
use urss.UintQueue
use urss.UintQueue.{UintQueue}
use urss.Game.{Game}
use urss.Game.Ins.{ins}
use urss.Oink.{Oink, is_solved, winner_of, attract_one, attract_all, flush_round, flush}
use urss.Oink.Attract.{Graph, IsGraph}
use urss.Oink.Steps.{IsFlushing}
use urss.Oink.Round.{attract_one_lem, work}
use urss.Oink.Ready.{IsReady, start-IsFlushing}
use urss.Oink.Flush.{top, popped, contents_lem, top_waits, top_lem, pop_step, round_lem}
use urss.Zlk.{Zlk, count_open, attract_from, attract_to, attract_round, attract_queue}
use urss.Zlk.Matches.{Matches}
use urss.Zlk.Step.{attract_from-Matches}

attract_to-Matches :
    (G : Graph) (start : Oink) (g : Game) (i r : ℕ) (pl : Bool) (cur : ℕ) (z : Zlk) (o : Oink)
    (rest : List ℕ)
    → Matches g G.n i r pl z o
    → IsFlushing G start cur rest o
    → is_solved o cur ≡ true
    → winner_of o cur ≡ pl
    → Matches g G.n i r pl (attract_to g i r pl cur z rest) (attract_all o cur pl rest)
unfolding attract_to attract_all
attract_to-Matches G start g i r pl cur z o [] m h done won = m
attract_to-Matches G start g i r pl cur z o (x ∷ rest) m h done won =
    let (a, b, c, d, live) = attract_one_lem G start cur pl o x rest h done won in
    attract_to-Matches G start g i r pl cur (attract_from g i r pl cur z x) (attract_one o cur pl x)
      rest (attract_from-Matches G start g i r pl cur z o x rest m h won) a b c

module _ (G : Graph) (graph : IsGraph G) (start : Oink) (g : Game) (i r : ℕ) (pl : Bool) (v : ℕ)
    (z : Zlk) (o : Oink) (m : Matches g G.n i r pl z o) (h : IsFlushing G start v [] o)
    (some_left : UintQueue.nonempty o.todo ≡ true) where
  abbrev cur : ℕ
  cur = top G graph start v o h some_left

  popped_agrees :
      Matches g G.n i r pl
        (record z { q = (UintQueue.pop o.todo).1 })
        (popped G graph start v o h some_left)
  unfolding count_open
  popped_agrees = (
    record {
      same_owner = m.0.same_owner;
      same_ins = m.0.same_ins;
      region_size = m.0.region_size;
      winning_size = m.0.winning_size;
      strategy_size = m.0.strategy_size;
      taken = m.0.taken;
      barred = m.0.barred;
      won = m.0.won;
      moves = m.0.moves;
      mine = m.0.mine;
      queue = refl;
      queue_won = λ u q.
          m.0.queue_won u (rw (contents_lem G graph start v o h some_left) (ground (arith, q)));
    },
    m.1,
  )

  cur_won : winner_of o cur ≡ pl
  cur_won = m.0.queue_won cur (top_waits G graph start v o h some_left)

  preds : ins o.game cur ≡ G.pred cur
  preds = h.state.over.preds cur (top_lem G graph start v o h some_left).0

  preds_here : ins g cur ≡ G.pred cur
  preds_here = sym (m.0.same_ins cur) ∙ preds

  round-Matches : Matches g G.n i r pl (attract_round g i r pl z).1 (flush_round o)
  unfolding attract_round flush_round
  round-Matches =
      let base =
        attract_to-Matches G start g i r pl cur (record z { q = (UintQueue.pop o.todo).1 })
          (popped G graph start v o h some_left) (G.pred cur) popped_agrees
          (pop_step G graph start v o h some_left) (top_lem G graph start v o h some_left).1
          cur_won in
      let ours =
        subst
          (λ q.
            Matches g G.n i r pl
              (attract_to g i r pl (UintQueue.pop q).0 (record z { q = (UintQueue.pop q).1 })
                (ins g (UintQueue.pop q).0))
              (attract_all (popped G graph start v o h some_left) cur pl (G.pred cur)))
          (sym m.0.queue)
          (subst
            (λ l.
              Matches g G.n i r pl
                (attract_to g i r pl cur (record z { q = (UintQueue.pop o.todo).1 }) l)
                (attract_all (popped G graph start v o h some_left) cur pl (G.pred cur)))
            (sym preds_here) base) in
      rw (cur_won, preds) ours

-- With fuel for the entries of the queue and the vertices that are left, both loops end, and agree.
pub attract_queue_lem :
    (G : Graph) (start : Oink) (g : Game) (i r : ℕ) (pl : Bool) (fuel v : ℕ) (z : Zlk) (o : Oink)
    (A : List ℕ)
    → IsGraph G
    → Matches g G.n i r pl z o
    → IsFlushing G start v [] o
    → work o ≤ fuel
    → (y : Zlk) × (p : Oink) × (B : List ℕ) × (attract_queue g fuel i r pl z A ≡ some (y, B))
      × (flush fuel o ≡ some p)
      × (UintQueue.nonempty y.q ≡ false)
      × Matches g G.n i r pl y p
      × ((u : ℕ) × IsFlushing G start u [] p)
unfolding attract_queue flush UintQueue.nonempty
attract_queue_lem G start g i r pl zero v z o A graph m h enough =
    let none_left : UintQueue.nonempty o.todo ≡ false = ground (arith, enough) in
    let ours : UintQueue.nonempty z.q ≡ false = ap UintQueue.nonempty m.0.queue ∙ none_left in
    (z, o, A, rw ours refl, rw none_left refl, ours, m, (v, h))
attract_queue_lem G start g i r pl (suc fuel) v z o A graph m h enough =
    elim (Bool-cases (UintQueue.nonempty o.todo)) [
      | inl e ↦
          let (u, a, b, live) = round_lem G graph start v o h e in
          let (y, p, B, c, d, k, l, j) =
            attract_queue_lem G start g i r pl fuel u (attract_round g i r pl z).1 (flush_round o)
              (A ++ (attract_round g i r pl z).0 ∷ []) graph
              (round-Matches G graph start g i r pl v z o m h e) a (omega (arith, b, enough)) in
          let ours : UintQueue.nonempty z.q ≡ true = ap UintQueue.nonempty m.0.queue ∙ e in
          (y, p, B, rw ours c, rw e d, k, l, j)
      | inr e ↦
          let ours : UintQueue.nonempty z.q ≡ false = ap UintQueue.nonempty m.0.queue ∙ e in
          (z, o, A, rw ours refl, rw e refl, ours, m, (v, h))
    ]

-- When the state of Oink is ready over a graph, the arrays of the solver agree with it, and the fuel
-- is the number of entries of the queue and unsolved vertices, the loop of attractExt over its queue
-- and flush both end, the queue of the solver is empty, and the arrays agree with the state again: the
-- same vertices are taken, with the same winners and strategies, and the counts are the same.
pub attract_queue-flush :
    (G : Graph) (g : Game) (i r : ℕ) (pl : Bool) (fuel : ℕ) (z : Zlk) (o : Oink) (A : List ℕ)
    → IsGraph G
    → IsReady G o
    → Matches g G.n i r pl z o
    → work o ≤ fuel
    → (y : Zlk) × (p : Oink) × (B : List ℕ) × (attract_queue g fuel i r pl z A ≡ some (y, B))
      × (flush fuel o ≡ some p)
      × (UintQueue.nonempty y.q ≡ false)
      × Matches g G.n i r pl y p
attract_queue-flush G g i r pl fuel z o A graph ready m enough =
    let (y, p, B, c, d, e, k, j) =
      attract_queue_lem G o g i r pl fuel 0 z o A graph m (start-IsFlushing G o ready) enough in
    (y, p, B, c, d, e, k)
