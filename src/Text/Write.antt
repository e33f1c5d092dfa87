-- ===== src/Text/Write.antt =====
-- `write_pgsolver`, `write_dot` and `write_sol` of oink/src/game.cpp, as the text that they write.
use urss.Base.{
  ℕ, zero, suc, Bool, true, false, List, [], ◌∷◌, ◌++◌, Option, none, some, if◌then◌else◌, get_or,
}
use Prim.Native.Char.{code}
use Prim.Native.String.{String}
use urss.Game.{Game, owner_of, priority_of, outs, count_true}
use urss.Text.{decimal}

-- The characters of a literal.
abbrev pub codes : String → List ℕ
codes String.[] = []
codes (String.◌∷◌ c s) = code c ∷ codes s

abbrev pub endl : List ℕ
endl = b'\n' ∷ []

-- owner(i), a bool
abbrev pub bit_text : Bool → List ℕ
bit_text b = if b then codes "1" else codes "0"

-- The loop over the successors, of which `first` is the flag.
unfoldable pub write_edges : Bool → List ℕ → List ℕ
write_edges first [] = []
write_edges first (to ∷ ts) =
    (if first then [] else codes ",") ++ (decimal to ++ write_edges false ts)

unfoldable pub write_label : Option (List ℕ) → List ℕ
write_label none = []
write_label (some []) = []
write_label (some (c ∷ cs)) = codes " \"" ++ ((c ∷ cs) ++ codes "\"")

unfoldable pub write_vertex : Game → ℕ → List ℕ
write_vertex g i =
    decimal i
    ++ (codes " "
        ++ (decimal (priority_of g i)
            ++ (codes " "
                ++ (bit_text (owner_of g i)
                    ++ (codes " "
                        ++ (write_edges true (outs g i)
                            ++ (write_label (get_or g.label i none) ++ (codes ";" ++ endl))))))))

-- The vertices i, i + 1, ..., n of them.
unfoldable pub write_vertices : Game → ℕ → ℕ → List ℕ
write_vertices g zero i = []
write_vertices g (suc n) i = write_vertex g i ++ write_vertices g n (suc i)

unfoldable pub write_pgsolver : Game → List ℕ
write_pgsolver g =
    codes "parity "
    ++ (decimal g.n_vertices ++ (codes ";" ++ (endl ++ write_vertices g g.n_vertices 0)))

pub write_arrows : ℕ → List ℕ → List ℕ
write_arrows i [] = []
write_arrows i (to ∷ ts) =
    decimal i ++ (codes " -> " ++ (decimal to ++ (codes ";" ++ (endl ++ write_arrows i ts))))

pub write_dots : Game → ℕ → ℕ → List ℕ
write_dots g zero i = []
write_dots g (suc n) i =
    decimal i
    ++ (codes " [ shape=\""
        ++ ((if owner_of g i then codes "box" else codes "diamond")
            ++ (codes "\", label=\""
                ++ (decimal (priority_of g i)
                    ++ (codes "\"];"
                        ++ (endl ++ (write_arrows i (outs g i) ++ write_dots g n (suc i))))))))

unfoldable pub write_dot : Game → List ℕ
write_dot g = codes "digraph G {" ++ (endl ++ (write_dots g g.n_vertices 0 ++ (codes "}" ++ endl)))

abbrev pub same_bit : Bool → Bool → Bool
same_bit true b = b
same_bit false b = if b then false else true

abbrev pub write_strategy : Bool → Option ℕ → List ℕ
write_strategy own none = []
write_strategy own (some to) = if own then codes " " ++ decimal to else []

pub write_solved : Game → ℕ → ℕ → List ℕ
write_solved g zero i = []
write_solved g (suc n) i =
    let rest = write_solved g n (suc i) in
    let win = get_or g.winner i false in
    let line =
      decimal i
      ++ (codes " "
          ++ (bit_text win
              ++ (write_strategy (same_bit win (owner_of g i)) (get_or g.strategy i none)
                  ++ (codes ";" ++ endl)))) in
    if get_or g.solved i false then line ++ rest else rest

unfoldable pub write_sol : Game → List ℕ
write_sol g =
    codes "paritysol "
    ++ (decimal (count_true g.solved) ++ (codes ";" ++ (endl ++ write_solved g g.n_vertices 0)))
