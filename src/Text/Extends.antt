-- ===== src/Text/Extends.antt =====
-- What `parse_solution` of oink/src/game.cpp reads on a line, and how it extends a partial solution.
use urss.Base.{
  ℕ, ◌<◌, ◌≡◌, ◌⊎◌, refl, sym, subst, ap, ◌∙◌, arith, Bool, true, false, List, [], ◌∷◌, Option,
  none, some, if◌then◌else◌, length, get_or, Bool-cases, inl, inr,
}
use urss.Game.{Game, owner_of}
use urss.Oink.{same}
use urss.Text.Solution.{
  Number, is_paritysol, number_from, get_int, is_minus, skip_spaces, split_word,
}

-- The arrays of the solution have an entry for each vertex.
pub record IsSized (g : Game) : Type 0 where
  pub solved_size : length g.solved ≡ g.n_vertices
  pub winner_size : length g.winner ≡ g.n_vertices
  pub strategy_size : length g.strategy ≡ g.n_vertices

abbrev pub solved_at : Game → ℕ → Bool
solved_at g v = get_or g.solved v false

abbrev pub winner_at : Game → ℕ → Bool
winner_at g v = get_or g.winner v false

abbrev pub strategy_at : Game → ℕ → Option ℕ
strategy_at g v = get_or g.strategy v none

-- What a text says of a solved vertex: its winner, whether that is its owner, and its strategy.
abbrev pub Source : Type 1
Source = ℕ → Bool → Bool → Option ℕ → Type 0

abbrev pub Told : Source → Game → Game → ℕ → Type 0
Told from g h v = from v (winner_at h v) (same (winner_at h v) (owner_of g v)) (strategy_at h v)

-- What is solved stays as it is, and what the text says of a vertex that is newly solved is so.
pub record Extends (from : Source) (g h : Game) : Type 0 where
  pub sized : IsSized h
  pub same_n : h.n_vertices ≡ g.n_vertices
  pub same_owner : (v : ℕ) → owner_of h v ≡ owner_of g v
  pub kept :
      (v : ℕ)
      → solved_at g v ≡ true
      → (solved_at h v ≡ true)
        × (winner_at h v ≡ winner_at g v)
        × (strategy_at h v ≡ strategy_at g v)
  pub fresh :
      (v : ℕ) → solved_at g v ≡ false → solved_at h v ≡ true → (v < g.n_vertices) × Told from g h v

-- A strategy that was read, in the game.
abbrev pub as_strategy : Number → Option ℕ
as_strategy str = if is_minus str then none else some str.magnitude

-- A line says that the vertex is won by `w`, with the strategy `s`, which it gives if `w` is the owner.
pub record Reads (line : List ℕ) (v : ℕ) (w mine : Bool) (s : Option ℕ) : Type 0 where
  pub token : List ℕ
  pub behind : List ℕ
  pub words : split_word (skip_spaces line) ≡ (token, behind)
  pub node : Number
  pub after_node : List ℕ
  pub first : number_from token ≡ some (node, after_node)
  pub is_node : (is_minus node ≡ false) × (node.magnitude ≡ v)
  pub winner : Number
  pub after_winner : List ℕ
  pub second : get_int behind ≡ some (winner, after_winner)
  pub is_winner : (is_minus winner ≡ false) × (winner.magnitude ≡ (if w then 1 else 0))
  pub lost : mine ≡ false → s ≡ none
  pub won :
      mine ≡ true
      → (str : Number) × (left : List ℕ) × (get_int after_winner ≡ some (str, left))
        × (s ≡ as_strategy str)

-- Some line says it.
unfoldable pub OnSome : List (List ℕ) → Source
OnSome [] v w mine s = ⊥
OnSome (line ∷ lines) v w mine s = Reads line v w mine s ⊎ OnSome lines v w mine s

-- The line is blank, or the header, or it gives the solution of a vertex, as it is in the game.
pub data Handled (h : Game) (line : List ℕ) : Type 0 where
  is_blank : (rest : List ℕ) → split_word (skip_spaces line) ≡ ([], rest) → Handled h line
  is_header :
      (token rest : List ℕ)
      → split_word (skip_spaces line) ≡ (token, rest)
      → is_paritysol token ≡ true
      → Handled h line
  is_entry :
      (v : ℕ)
      → solved_at h v ≡ true
      → Reads line v (winner_at h v) (same (winner_at h v) (owner_of h v)) (strategy_at h v)
      → Handled h line

abbrev pub AllHandled : Game → List (List ℕ) → Type 0
AllHandled h [] = Unit
AllHandled h (line ∷ lines) = Handled h line × AllHandled h lines

pub refl-Extends : (from : Source) (g : Game) → IsSized g → Extends from g g
refl-Extends from g s = record {
  sized = s;
  same_n = refl;
  same_owner = λ v. refl;
  kept = λ v d. (d, refl, refl);
  fresh = λ v d e. absurd (ground (arith, d, e));
}

pub transport_from :
    (from : Source) (v : ℕ) (w x mine yours : Bool) (s t : Option ℕ)
    → w ≡ x
    → mine ≡ yours
    → s ≡ t
    → from v w mine s
    → from v x yours t
transport_from from v w x mine yours s t a b c k =
    subst (λ z. from v x yours z) c (subst (λ z. from v x z s) b (subst (λ z. from v z mine s) a k))

pub same_both : (w x a b : Bool) → w ≡ x → a ≡ b → same w a ≡ same x b
same_both w x a b e f = ap (λ z. same z a) e ∙ ap (same x) f

pub trans-Extends :
    (first second from : Source) (g h k : Game)
    → ((v : ℕ) (w mine : Bool) (s : Option ℕ) → first v w mine s → from v w mine s)
    → ((v : ℕ) (w mine : Bool) (s : Option ℕ) → second v w mine s → from v w mine s)
    → Extends first g h
    → Extends second h k
    → Extends from g k
trans-Extends first second from g h k i j a b = record {
  sized = b.sized;
  same_n = b.same_n ∙ a.same_n;
  same_owner = λ v. b.same_owner v ∙ a.same_owner v;
  kept = λ v d. let (x, y, z) = a.kept v d in let (p, q, r) = b.kept v x in (p, q ∙ y, r ∙ z);
  fresh = λ v d e. elim (Bool-cases (solved_at h v)) [
    | inl f ↦
        let (x, y) = a.fresh v d f in
        let (p, q, r) = b.kept v f in
        (
          x,
          transport_from from v (winner_at h v) (winner_at k v)
              (same (winner_at h v) (owner_of g v)) (same (winner_at k v) (owner_of g v))
              (strategy_at h v) (strategy_at k v) (sym q)
              (same_both (winner_at h v) (winner_at k v) (owner_of g v) (owner_of g v) (sym q) refl)
              (sym r)
              (i v (winner_at h v) (same (winner_at h v) (owner_of g v)) (strategy_at h v) y),
        )
    | inr f ↦
        let (x, y) = b.fresh v f e in
        (
          ground (arith, x, a.same_n),
          transport_from from v (winner_at k v) (winner_at k v)
              (same (winner_at k v) (owner_of h v)) (same (winner_at k v) (owner_of g v))
              (strategy_at k v) (strategy_at k v) refl
              (same_both (winner_at k v) (winner_at k v) (owner_of h v) (owner_of g v) refl
                (a.same_owner v))
              refl (j v (winner_at k v) (same (winner_at k v) (owner_of h v)) (strategy_at k v) y),
        )
  ];
}

-- What is handled stays handled.
pub extended-Handled :
    (from : Source) (g h : Game) (line : List ℕ)
    → Extends from g h
    → Handled g line
    → Handled h line
extended-Handled from g h line a (is_blank rest e) = is_blank rest e
extended-Handled from g h line a (is_header token rest e f) = is_header token rest e f
extended-Handled from g h line a (is_entry v d r) =
    let (x, y, z) = a.kept v d in
    is_entry v x (
      transport_from (Reads line) v (winner_at g v) (winner_at h v)
        (same (winner_at g v) (owner_of g v)) (same (winner_at h v) (owner_of h v))
        (strategy_at g v) (strategy_at h v) (sym y)
        (same_both (winner_at g v) (winner_at h v) (owner_of g v) (owner_of h v) (sym y)
          (sym (a.same_owner v)))
        (sym z) r)
