-- ===== src/Game/Ins/Converse.antt =====
-- What `build_in_array` leaves in the array of ingoing edges.
use urss.Base.{
  ℕ, ◌+◌, ◌≤◌, ◌<◌, ◌≡◌, refl, sym, subst, ap, ◌∙◌, arith, List, [], Option, none, some, Bool, ◌⊎◌,
  true, ltb, Bool-cases, inl, inr, if◌then◌else◌, length, get_or, replicate, get_or-replicate,
  length-replicate,
}
use urss.Base.Tally.{occ}
use urss.Game.{Game, InArray, outs}
use urss.Game.Ins.{count_ins, place_blocks, built, build_in_array, ins}
use urss.Game.Ins.Segment.{Holds, until_end-Holds}
use urss.Game.Ins.Count.{Below, edges_to, count_ins_lem}
use urss.Game.Ins.Place.{offset, offset-lt, IsPlaced, place_blocks-IsPlaced}
use urss.Game.Ins.Total.{edges_from, offset_total}
use urss.Game.Ins.Put.{sources, IsFilling}
use urss.Game.Ins.Fill.{fill_ins_lem, from_range, from_range_lem, from_range_above}

-- All edges lead to vertices of the game, and the edge array has room for them and the end marks.
pub record IsWired (g : Game) : Type 0 where
  pub in_range : (v : ℕ) → v < g.n_vertices → Below g.n_vertices (outs g v)
  pub room : edges_from g g.n_vertices 0 + g.n_vertices ≤ g.e_size

module _ (g : Game) (h : IsWired g) where
  abbrev counts : List ℕ
  counts = count_ins g g.n_vertices 0 (replicate g.n_vertices 0)

  abbrev empty_blocks : InArray
  empty_blocks = record {
    edges = replicate g.e_size none;
    firstins = replicate g.n_vertices 0;
    incount = counts;
  }

  abbrev blocks : InArray
  blocks = place_blocks g.n_vertices 0 0 empty_blocks

  counts_lem : (u : ℕ) → get_or counts u 0 ≡ edges_to g u g.n_vertices 0
  counts_lem u =
      count_ins_lem g g.n_vertices 0 (replicate g.n_vertices 0) u (λ v k.
        subst (λ z. Below z (outs g v)) (sym (length-replicate g.n_vertices 0))
          (h.in_range v (omega (arith, k))))
      ∙ omega (arith, get_or-replicate {A = ℕ} g.n_vertices 0 u)

  total_lem : offset counts g.n_vertices ≡ edges_from g g.n_vertices 0 + g.n_vertices
  total_lem =
      offset_total g counts g.n_vertices g.n_vertices counts_lem
        (λ v k. h.in_range v (omega (arith, k)))

  placed : IsPlaced empty_blocks blocks 0 g.n_vertices
  placed =
      place_blocks-IsPlaced g.n_vertices 0 empty_blocks
        (omega (arith, length-replicate {A = ℕ} g.n_vertices 0))
        (let e : g.n_vertices + 0 ≡ g.n_vertices = omega arith in
          omega (
            arith,
            ap (offset counts) e,
            total_lem,
            h.room,
            length-replicate {A = Option ℕ} g.e_size none,
          ))

  marked : (u : ℕ) → u < g.n_vertices → Holds blocks.edges (get_or blocks.firstins u 0) []
  marked u k =
      subst (λ p. get_or blocks.edges p none ≡ none)
        (sym (placed.placed u (omega arith) (omega (arith, k))))
        (placed.marked u (omega arith) (omega (arith, k)))

  sources_empty : (u : ℕ) → u < g.n_vertices → sources blocks u ≡ []
  sources_empty u k = until_end-Holds blocks.edges (get_or blocks.firstins u 0) [] (marked u k)

  blocks-IsFilling :
      IsFilling g.n_vertices
        (offset counts)
        (λ u. get_or counts u 0)
        (offset-lt counts)
        (λ u. edges_to g u g.n_vertices 0)
        blocks
  blocks-IsFilling = record {
    size = placed.firstins_size ∙ length-replicate g.n_vertices 0;
    fits = λ u k. omega (
      arith,
      placed.edges_size,
      length-replicate {A = Option ℕ} g.e_size none,
      total_lem,
      h.room,
      offset-lt counts u g.n_vertices k,
    );
    pos = λ u k. omega (arith, placed.placed u (omega arith) (omega (arith, k)), counts_lem u);
    holds = λ u k.
        subst (Holds blocks.edges (get_or blocks.firstins u 0)) (sym (sources_empty u k))
          (marked u k);
    len = λ u k. omega (arith, ap length (sources_empty u k), counts_lem u);
  }

  built_lem :
      (x u : ℕ) → u < g.n_vertices → occ x (sources (built g) u) ≡ from_range g u x g.n_vertices 0
  unfolding built
  built_lem x u k =
      let (f, p) =
        fill_ins_lem g.n_vertices (offset counts) (λ z. get_or counts z 0) (offset-lt counts) g
          g.n_vertices 0 blocks blocks-IsFilling (λ w i. h.in_range w (omega (arith, i))) in
      p x u k ∙ ground (arith, ap (occ x) (sources_empty u k))

rebuilt :
    (g : Game) (r : Option InArray)
    → Path Game
        (elim r [
          | some a ↦ if true then record g { inedges = some (built g) } else g
          | none ↦ record g { inedges = some (built g) }
        ])
        (record g { inedges = some (built g) })
rebuilt g none = refl
rebuilt g (some a) = refl

-- There is no array yet, or it is to be built again.
abbrev pub IsBuilding : Game → Bool → Type 0
IsBuilding g rebuild = (g.inedges ≡ none) ⊎ (rebuild ≡ true)

-- The game with its array of ingoing edges.
pub build_in_array_lem :
    (g : Game) (rebuild : Bool)
    → IsBuilding g rebuild
    → build_in_array g rebuild ≡ record g { inedges = some (built g) }
unfolding build_in_array
build_in_array_lem g rebuild (inl e) = rw e refl
build_in_array_lem g rebuild (inr e) = rw e (rebuilt g g.inedges)

-- When all edges of a game lead to its vertices, its edge array has room for them and an end mark for
-- each vertex, and there is no array of ingoing edges yet or it is to be built again, build_in_array
-- gives each vertex its predecessors: each number
-- stands among ins(u) as often as u among the outgoing edges of that vertex, and no number that is not
-- a vertex stands there.
pub ins-build_in_array :
    (g : Game) (rebuild : Bool) (x u : ℕ)
    → IsWired g
    → IsBuilding g rebuild
    → u < g.n_vertices
    → occ x (ins (build_in_array g rebuild) u)
      ≡ (if ltb x g.n_vertices then occ u (outs g x) else 0)
unfolding ins
ins-build_in_array g rebuild x u h make k =
    ap (λ z. occ x (ins z u)) (build_in_array_lem g rebuild make)
    ∙ built_lem g h x u k
    ∙ elim (Bool-cases (ltb x g.n_vertices)) [
      | inl e ↦ rw e (from_range_lem g u x g.n_vertices 0 (omega arith) (ground (arith, e)))
      | inr e ↦ rw e (from_range_above g u x g.n_vertices 0 (ground (arith, e)))
    ]
