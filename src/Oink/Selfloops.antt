-- ===== src/Oink/Selfloops.antt =====
-- The loop of `Oink::solveSelfloops`, from a ready state.
use urss.Base.{
  ℕ, zero, suc, ◌+◌, ◌≤◌, ◌<◌, ◌≡◌, ◌==◌, refl, ◌∙◌, arith, Bool, true, false, not, Option, none,
  some, get_or, Bool-cases, inl, inr,
}
use urss.Game.{owner_of, priority_of, has_edge}
use urss.Oink.{Oink, solve, is_solved, is_disabled, is_odd, same, selfloop_one, selfloops_from}
use urss.Oink.Attract.{Graph, work-solve, solved-solve, disabled-solve}
use urss.Oink.Round.{work}
use urss.Oink.Ready.{IsReady, solve-IsReady}

-- A ready state, in which what is solved is disabled.
abbrev pub IsClosed : Graph → Oink → Type 0
IsClosed G o = IsReady G o × ((v : ℕ) → is_solved o v ≡ true → is_disabled o v ≡ true)

-- Solving a vertex that is not disabled.
pub solve-IsClosed :
    (G : Graph) (o : Oink) (x : ℕ) (w : Bool) (s : Option ℕ)
    → IsClosed G o
    → x < G.n
    → is_disabled o x ≡ false
    → IsClosed G (solve o x w s) × (work (solve o x w s) ≡ work o)
solve-IsClosed G o x w s (r, c) small on =
    let fresh : is_solved o x ≡ false = ground (arith, c x, on) in
    (
      (
        solve-IsReady G o x w s r small (ground (arith, fresh, on)),
        λ v d. ground (
          arith,
          d,
          c v,
          solved-solve G o x w s r.over small fresh v,
          disabled-solve G o x w s r.over small fresh v,
        ),
      ),
      work-solve G o x w s r.over small fresh,
    )

pub selfloop_one-IsClosed :
    (G : Graph) (o : Oink) (v : ℕ)
    → IsClosed G o
    → v < G.n
    → IsClosed G (selfloop_one o v).0 × (work (selfloop_one o v).0 ≡ work o)
unfolding selfloop_one
selfloop_one-IsClosed G o v c small = elim (Bool-cases (is_disabled o v)) [
  | inl e ↦ rw e (c, refl)
  | inr e ↦ elim (Bool-cases (not (has_edge o.game v v))) [
    | inl a ↦ rw (e, a) (c, refl)
    | inr a ↦ elim (Bool-cases (same (owner_of o.game v) (is_odd (priority_of o.game v)))) [
      | inl b ↦ rw (e, a, b) (solve-IsClosed G o v (owner_of o.game v) (some v) c small e)
      | inr b ↦ elim (Bool-cases (get_or o.game.outcount v 0 == 1)) [
        | inl d ↦ rw (e, a, b, d) (solve-IsClosed G o v (not (owner_of o.game v)) none c small e)
        | inr d ↦ rw (e, a, b, d) (c, refl)
      ]
    ]
  ]
]

pub selfloops_from-IsClosed :
    (G : Graph) (n v : ℕ) (o : Oink) (res : ℕ)
    → IsClosed G o
    → n + v ≤ G.n
    → IsClosed G (selfloops_from n v o res).0 × (work (selfloops_from n v o res).0 ≡ work o)
unfolding selfloops_from
selfloops_from-IsClosed G zero v o res c small = (c, refl)
selfloops_from-IsClosed G (suc n) v o res c small =
    let (a, b) = selfloop_one-IsClosed G o v c (omega arith) in
    let (d, e) =
      selfloops_from-IsClosed G n (suc v) (selfloop_one o v).0 (res + (selfloop_one o v).1) a
        (omega arith) in
    (d, e ∙ b)
