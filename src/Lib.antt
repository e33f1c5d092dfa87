-- ===== src/Lib.antt =====
-- Verification of Oink, the parity game solver under oink/.
--
-- A parity game is a graph whose vertices have an owner (Even or Odd) and a priority. The class `Game`
-- (oink/src/game.hpp, oink/src/game.cpp) holds it in arrays with the solution found so far; `Oink`
-- (oink/src/oink.cpp, oink/src/scc.cpp) preprocesses it, attracts to what a solver has won, and runs a
-- solver; `Verifier` (oink/src/verifier.cpp) checks a solution. They share `bitset`
-- (oink/src/bitset.hpp) and `uintqueue` (oink/src/uintqueue.hpp).
--
-- Files and what they model:
-- - Base: names of the libraries, Boolean tests, lists under native indices.
-- - Word: 64-bit words, __builtin_ffsll, __builtin_clzll and bsr; Word/* are laws of their bits.
-- - Bitset: the class bitset, with its blocks as words; Bitset/* are its laws.
-- - UintQueue: the class uintqueue; UintQueue/Stack its abstract stack.
-- - Game: the class Game: constructors, growing arrays, the edge vectors (vec_*) and the edge array
--   (e_*, outs, find_edge), the solution. Game/Relabel: inflate, compress, renumber, evenodd, minmax.
--   Game/Ins: build_in_array, whose loops are the subject of Game/Ins/*. Game/Permute: sort,
--   permute. Game/Subgame: extract_subgame.
--   Game/Copy: the copy constructor. Game/Edges and VecFinish are about vec_finish,
--   Game/Lookup about the search for an edge.
-- - Text: the stream buffer, skip_whitespace and read_uint64; Text/Write: write_pgsolver, write_dot and
--   write_sol; Text/Parse: parse_pgsolver; Text/Solution: parse_solution, which Text/Extends,
--   Entry and Lines are about: a strategy below -1 that it reads stands beside the game, in a list of
--   its result. The other files of Text are about reading what was written.
-- - Oink: solve, flush, solveSelfloops, solveSingleParity and the partial solutions of run.
--   Oink/Attract, Counted, Steps, Round, Flush, Ready are about flush,
--   Oink/Start about the constructor, Oink/Selfloops, Loops and Looped about solveSelfloops,
--   and Oink/SingleParity, Sweep and Swept about solveSingleParity. Oink/Loop: solveLoop.
--   Oink/Scc: tarjan and getBottomSCC.
-- - Zlk: the solver ZLKSolver (oink/src/zlk.cpp, oink/src/zlk.hpp), run sequentially: attractExt;
--   Zlk/Losing: attractLosing; Zlk/Run: run. Zlk/Matches, Take, Count, Step and Queue are about the loop
--   of attractExt over the queue beside flush, Zlk/Moved, Reached, Between, Heads, First and Ext about
--   the loop over the heads. A count in `region` is the data Region, with waiting k for -(k + 1).
-- - Solver: what a solver returns, with LOGIC_ERROR (oink/src/error.hpp).
-- - Pp: the solver PPSolver (oink/src/pp.cpp, oink/src/pp.hpp): attract, promote and resetRegion;
--   Pp/Setup: setupRegion and getRegionStatus; Pp/Run: setDominion and run. Pp/Below, Region, Grow,
--   Drain, Enter, Attract, Rounds and Maximal are about attract, Pp/Lowest, Escape, Gate and Status about
--   getRegionStatus, Pp/Raise, Parity and Promote about promote, Pp/Reset, Adding, Escapes, Clean and
--   Ready about setupRegion, Pp/Step about a round of the inner loop of run. A region -2 is none.
-- - Rr: the solver RRSolver (oink/src/rr.cpp) over Pp; Rr/Keeps and Check are about checkRegion.
-- - Ppp: the solver PPPSolver (oink/src/ppp.cpp, oink/src/ppp.hpp) over Pp; Ppp/Due is about the values
--   reset0 and reset1, which are kept as their value plus 2.
-- - Verifier: the first loop of verify; Verifier/Search: the second loop and verify itself.
-- - Tests: the theorems at concrete inputs.
--
-- Numbers are natural numbers. An `int` that may be -1 is an option, with none for -1. Words wrap at
-- 2 ^ 64, and the counters of `flush` at 2 ^ 32; priorities and indices are taken to be in the range
-- of their types. Arrays are lists: a read outside gives a default and a write outside changes
-- nothing, and an entry that is not initialised is 0, none or false. In `Game` a bitset is the list
-- of its bits.
--
-- Loops over a range recur on the number of rounds left. The other loops take fuel, and their result
-- is none where the fuel runs out: flush and attractExt (a vertex enters the queue once, so the number
-- of vertices is enough), attractLosing and run of zlk, settle (a cycle of a permutation has at most as
-- many vertices as the game), attract of pp (a vertex enters the queue once) and the rounds of run in
-- pp, rr and ppp, the growing of arrays, and the searches of tarjan and verify.
--
-- Not modelled: the other solvers, the parallel attractor of zlk, logging and timing, the seeds of the
-- random generator, and the command line tools. popcnt
-- (oink/src/libpopcnt.h) and std::sort are parameters, and so is the solver that solveLoop runs.
pub mod Base
pub mod Word
pub mod Bitset
pub mod UintQueue
pub mod Game
pub mod Oink
pub mod Text
pub mod Solver
pub mod Pp
pub mod Rr
pub mod Ppp
pub mod Zlk
pub mod Verifier
pub mod Tests
