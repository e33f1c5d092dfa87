-- ===== src/Game/Ins/Place.antt =====
-- The second loop of `build_in_array`: a block with an end mark for each vertex.
use urss.Base.{
  ℕ, zero, suc, ◌+◌, ◌-◌, ◌≤◌, ◌<◌, ◌≡◌, refl, subst, ap, ◌∙◌, arith, List, none, ◌==◌, length,
  get_or, set, length-set, get_or-set, Bool-cases, inl, inr,
}
use urss.Game.{InArray}
use urss.Game.Ins.{place_blocks}

-- Where the block of a vertex starts.
abbrev pub offset : List ℕ → ℕ → ℕ
offset counts zero = 0
offset counts (suc v) = offset counts v + (get_or counts v 0 + 1)

offset_add : (counts : List ℕ) (v k : ℕ) → offset counts v ≤ offset counts (k + v)
offset_add counts v zero = let e : 0 + v ≡ v = omega arith in omega (arith, ap (offset counts) e)
offset_add counts v (suc k) =
    let e : suc k + v ≡ suc (k + v) = omega arith in
    omega (arith, offset_add counts v k, ap (offset counts) e)

-- The blocks of two vertices do not meet.
pub offset-lt :
    (counts : List ℕ) (u w : ℕ) → u < w → offset counts u + get_or counts u 0 < offset counts w
offset-lt counts u w h =
    let e : (w - suc u) + suc u ≡ w = omega arith in
    subst (λ k. offset counts u + get_or counts u 0 < offset counts k) e
      (omega (arith, offset_add counts (suc u) (w - suc u)))

-- What the loop does for the vertices v, v + 1, ..., n of them.
pub record IsPlaced (a b : InArray) (v n : ℕ) : Type 0 where
  pub same_incount : b.incount ≡ a.incount
  pub edges_size : length b.edges ≡ length a.edges
  pub firstins_size : length b.firstins ≡ length a.firstins
  pub before : (u : ℕ) → u < v → get_or b.firstins u 0 ≡ get_or a.firstins u 0
  pub below : (i : ℕ) → i < offset a.incount v → get_or b.edges i none ≡ get_or a.edges i none
  pub placed :
      (u : ℕ)
      → v ≤ u
      → u < n + v
      → get_or b.firstins u 0 ≡ offset a.incount u + get_or a.incount u 0
  pub marked :
      (u : ℕ)
      → v ≤ u
      → u < n + v
      → get_or b.edges (offset a.incount u + get_or a.incount u 0) none ≡ none

pub place_blocks-IsPlaced :
    (n v : ℕ) (a : InArray)
    → length a.firstins ≡ n + v
    → offset a.incount (n + v) ≤ length a.edges
    → IsPlaced a (place_blocks n v (offset a.incount v) a) v n
unfolding place_blocks
place_blocks-IsPlaced zero v a h room = record {
  same_incount = refl;
  edges_size = refl;
  firstins_size = refl;
  before = λ u k. refl;
  below = λ i k. refl;
  placed = λ u k l. absurd (omega (arith, k, l));
  marked = λ u k l. absurd (omega (arith, k, l));
}
place_blocks-IsPlaced (suc n) v a h room =
    let c = get_or a.incount v 0 in
    let end = offset a.incount v + c in
    let a' : InArray = record a { firstins = set a.firstins v end; edges = set a.edges end none } in
    let fits : end < length a.edges =
      omega (arith, offset-lt a.incount v (suc n + v) (omega arith), room) in
    let e : n + suc v ≡ suc n + v = omega arith in
    let ih =
      place_blocks-IsPlaced n (suc v) a' (omega (arith, length-set a.firstins v end, h))
        (omega (arith, length-set a.edges end none, room, ap (offset a.incount) e)) in
    record {
      same_incount = ih.same_incount;
      edges_size = ih.edges_size ∙ length-set a.edges end none;
      firstins_size = ih.firstins_size ∙ length-set a.firstins v end;
      before = λ u k.
          ih.before u (omega (arith, k))
          ∙ ground (arith, k, get_or-set a.firstins v u end 0 (omega (arith, h)));
      below = λ i k.
          ih.below i (omega (arith, k))
          ∙ ground (arith, k, get_or-set a.edges end i none none fits);
      placed = λ u k l. elim (Bool-cases (u == v)) [
        | inl i ↦
            let here : v ≡ u = ground arith in
            subst
              (λ z.
                get_or (place_blocks (suc n) v (offset a.incount v) a).firstins z 0
                ≡ offset a.incount z + get_or a.incount z 0)
              here
              (ih.before v (omega arith)
                ∙ ground (arith, get_or-set a.firstins v v end 0 (omega (arith, h))))
        | inr i ↦ ih.placed u (ground arith) (omega (arith, l))
      ];
      marked = λ u k l. elim (Bool-cases (u == v)) [
        | inl i ↦
            let here : v ≡ u = ground arith in
            subst
              (λ z.
                get_or (place_blocks (suc n) v (offset a.incount v) a).edges
                  (offset a.incount z + get_or a.incount z 0) none
                ≡ none)
              here
              (ih.below end (omega arith)
                ∙ ground (arith, get_or-set a.edges end end none none fits))
        | inr i ↦ ih.marked u (ground arith) (omega (arith, l))
      ];
    }
