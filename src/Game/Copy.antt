-- ===== src/Game/Copy.antt =====
-- The copy constructor of `Game`, in oink/src/game.cpp.
use urss.Base.{◌+◌, ◌++◌, ℕ, List, none, some, take, drop}
use urss.Game.{Game, InArray, make}

-- memcpy of the first `count` entries of `from` over those of `to`.
abbrev pub memcpy {ℓ} : {A : Type ℓ} → List A → List A → ℕ → List A
memcpy to from count = take count from ++ drop count to

unfoldable pub copy_ins : Game → InArray → InArray
copy_ins other a = record {
  edges = take (other.n_vertices + other.n_edges) a.edges;
  firstins = take other.n_vertices a.firstins;
  incount = take other.n_vertices a.incount;
}

-- Game(const Game &other). The vectors are not cloned, and the random seed is left out.
unfoldable pub clone : Game → Game
clone other =
    let n = other.n_vertices in
    let g = make n (some other.e_size) in
    record g {
      n_edges = other.n_edges;
      priority = memcpy g.priority other.priority n;
      owner = other.owner;
      label = memcpy g.label other.label n;
      e_size = other.e_size;
      outedges = memcpy g.outedges other.outedges other.e_size;
      firstouts = memcpy g.firstouts other.firstouts n;
      outcount = memcpy g.outcount other.outcount n;
      inedges = elim other.inedges [ none ↦ none | some a ↦ some (copy_ins other a) ];
      is_ordered = other.is_ordered;
      solved = other.solved;
      winner = other.winner;
      strategy = memcpy g.strategy other.strategy n;
    }
