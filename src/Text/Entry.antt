-- ===== src/Text/Entry.antt =====
-- The solution that a line of `parse_solution` of oink/src/game.cpp sets.
use urss.Base.{
  ℕ, ◌<◌, ◌≡◌, refl, sym, subst, ap, ◌∙◌, arith, Bool, true, false, List, Option, none, some,
  if◌then◌else◌, ◌==◌, length-set, get_or-set, Bool-cases, inl, inr,
}
use urss.Game.{Game, owner_of}
use urss.Oink.{same}
use urss.Text.Solution.{
  Solution, Number, done, throws, number_from, get_int, is_minus, skip_spaces, split_word,
  with_solution, set_strategy, set_solution,
}
use urss.Text.Extends.{
  IsSized, solved_at, winner_at, strategy_at, Told, Extends, as_strategy, Reads, Handled, is_entry,
  transport_from, same_both,
}

abbrev pub LineResult : Game → List ℕ → Solution → Type 0
LineResult g line (done h low) = Extends (Reads line) g h × Handled h line
LineResult g line (throws e) = Unit

-- An unsolved vertex is solved.
module _ (g : Game) (line : List ℕ) (ident : ℕ) (w : Bool) (s : Option ℕ) (sized : IsSized g)
    (small : ident < g.n_vertices) (free : solved_at g ident ≡ false)
    (told : Reads line ident w (same w (owner_of g ident)) s) where
  abbrev set_all : Game
  set_all = with_solution g ident w s

  solved_lem : (v : ℕ) → solved_at set_all v ≡ (if v == ident then true else solved_at g v)
  solved_lem v = get_or-set g.solved ident v true false (omega (arith, sized.solved_size, small))

  winner_lem : (v : ℕ) → winner_at set_all v ≡ (if v == ident then w else winner_at g v)
  winner_lem v = get_or-set g.winner ident v w false (omega (arith, sized.winner_size, small))

  strategy_lem : (v : ℕ) → strategy_at set_all v ≡ (if v == ident then s else strategy_at g v)
  strategy_lem v = get_or-set g.strategy ident v s none (omega (arith, sized.strategy_size, small))

  other : (v : ℕ) → solved_at g v ≡ true → (v == ident) ≡ false
  other v d = ground (arith, d, free, ap (solved_at g) {x = v} {y = ident})

  itself : (ident == ident) ≡ true
  itself = ground arith

  told_here : Told (Reads line) g set_all ident
  told_here =
      let won_by : winner_at set_all ident ≡ w = winner_lem ident ∙ rw itself refl in
      let with_it : strategy_at set_all ident ≡ s = strategy_lem ident ∙ rw itself refl in
      transport_from (Reads line) ident w (winner_at set_all ident) (same w (owner_of g ident))
        (same (winner_at set_all ident) (owner_of g ident)) s (strategy_at set_all ident)
        (sym won_by)
        (same_both w (winner_at set_all ident) (owner_of g ident) (owner_of g ident) (sym won_by)
          refl)
        (sym with_it) told

  set_lem : Extends (Reads line) g set_all × Handled set_all line
  set_lem = (
    record {
      sized = record {
        solved_size = rw length-set sized.solved_size;
        winner_size = rw length-set sized.winner_size;
        strategy_size = rw length-set sized.strategy_size;
      };
      same_n = refl;
      same_owner = λ v. refl;
      kept = λ v d. (
        ground (arith, solved_lem v, d),
        winner_lem v ∙ rw (other v d) refl,
        strategy_lem v ∙ rw (other v d) refl,
      );
      fresh = λ v d e. elim (Bool-cases (v == ident)) [
        | inl k ↦
            let moved : ident ≡ v = ground arith in
            (omega (arith, moved, small), subst (Told (Reads line) g set_all) moved told_here)
        | inr k ↦ absurd (ground (arith, solved_lem v, d, e, k))
      ];
    },
    is_entry ident (solved_lem ident ∙ rw itself refl) told_here,
  )

-- What has been read of a line when its winner is known.
pub record IsRead (line : List ℕ) (ident : ℕ) (w : Bool) (left : List ℕ) : Type 0 where
  pub token : List ℕ
  pub behind : List ℕ
  pub words : split_word (skip_spaces line) ≡ (token, behind)
  pub node : Number
  pub after_node : List ℕ
  pub first : number_from token ≡ some (node, after_node)
  pub is_node : (is_minus node ≡ false) × (node.magnitude ≡ ident)
  pub winner : Number
  pub second : get_int behind ≡ some (winner, left)
  pub is_winner : (is_minus winner ≡ false) × (winner.magnitude ≡ (if w then 1 else 0))

with_strategy :
    (line : List ℕ) (ident : ℕ) (w mine : Bool) (s : Option ℕ) (left : List ℕ)
    → IsRead line ident w left
    → (mine ≡ false → s ≡ none)
    → (mine ≡ true
        → (str : Number) × (more : List ℕ) × (get_int left ≡ some (str, more))
          × (s ≡ as_strategy str))
    → Reads line ident w mine s
with_strategy line ident w mine s left r lost won = record {
  token = r.token;
  behind = r.behind;
  words = r.words;
  node = r.node;
  after_node = r.after_node;
  first = r.first;
  is_node = r.is_node;
  winner = r.winner;
  after_winner = left;
  second = r.second;
  is_winner = r.is_winner;
  lost = lost;
  won = won;
}

module _ (g : Game) (line : List ℕ) (ident : ℕ) (w : Bool) (left : List ℕ) (sized : IsSized g)
    (small : ident < g.n_vertices) (free : solved_at g ident ≡ false)
    (read : IsRead line ident w left) where
  set_strategy_lem :
      (str : Option (Number × List ℕ))
      → get_int left ≡ str
      → same w (owner_of g ident) ≡ true
      → LineResult g line (set_strategy g ident w str)
  unfolding set_strategy
  set_strategy_lem none e own = tt
  set_strategy_lem (some (str, more)) e own =
      let told : (s : Option ℕ)
          → s ≡ as_strategy str
          → Reads line ident w (same w (owner_of g ident)) s =
        λ s f.
          with_strategy line ident w (same w (owner_of g ident)) s left read
            (λ l. absurd (ground (arith, l, own))) (λ l. (str, more, e, f)) in
      elim (Bool-cases (is_minus str)) [
        | inr a ↦ rw a (
            set_lem g line ident w (some str.magnitude) sized small free
              (told (some str.magnitude) (rw a refl)))
        | inl a ↦
            let gone = set_lem g line ident w none sized small free (told none (rw a refl)) in
            elim (Bool-cases (str.magnitude == 1)) [
              | inl b ↦ rw (a, b) gone
              | inr b ↦ rw (a, b) gone
            ]
      ]

  pub set_solution_lem : LineResult g line (set_solution g ident w left)
  unfolding set_solution
  set_solution_lem = elim (Bool-cases (same w (owner_of g ident))) [
    | inl a ↦ rw a (set_strategy_lem (get_int left) refl a)
    | inr a ↦ rw a (
        set_lem g line ident w none sized small free (
          with_strategy line ident w (same w (owner_of g ident)) none left read (λ l. refl)
            (λ l. absurd (ground (arith, l, a)))))
  ]
