-- ===== src/UintQueue/Stack.antt =====
-- The queue is a stack: what it holds is the list of its entries in use, the last one first.
use urss.Base.{
  ℕ, zero, suc, ◌+◌, ◌-◌, ◌≤◌, ◌<◌, ◌≡◌, refl, ap, ap₂, arith, true, List, [], ◌∷◌, length, get_or,
  set, get_or-set,
}
use urss.UintQueue.{UintQueue, nonempty, pop, push}

-- The entries below `n`, the last first.
abbrev pub entries : List ℕ → ℕ → List ℕ
entries xs zero = []
entries xs (suc n) = get_or xs n 0 ∷ entries xs n

abbrev pub contents : UintQueue → List ℕ
contents q = entries q.queue q.pointer

abbrev pub capacity : UintQueue → ℕ
capacity q = length q.queue

entries-set_above :
    (xs : List ℕ) (n i v : ℕ) → n ≤ i → i < length xs → entries (set xs i v) n ≡ entries xs n
entries-set_above xs zero i v h k = refl
entries-set_above xs (suc n) i v h k =
    ap₂ ◌∷◌ (ground (arith, get_or-set xs i n v 0)) (entries-set_above xs n i v (omega arith) k)

-- Below its capacity a push puts the element on top of what the queue holds.
pub contents-push :
    (q : UintQueue) (x : ℕ) → q.pointer < capacity q → contents (push q x) ≡ x ∷ contents q
unfolding push
contents-push q x h =
    let e : q.pointer + 1 ≡ suc q.pointer = omega arith in
    rw e (
      ap₂ ◌∷◌ (ground (arith, get_or-set q.queue q.pointer q.pointer x 0))
        (entries-set_above q.queue q.pointer q.pointer x (omega arith) h))

-- A queue that is not empty pops its top, and holds the rest.
pub contents-pop : (q : UintQueue) → nonempty q ≡ true → contents q ≡ (pop q).0 ∷ contents (pop q).1
unfolding pop nonempty
contents-pop q h = let e : q.pointer ≡ suc (q.pointer - 1) = ground arith in entries_of e
  where
    entries_of :
        {n : ℕ}
        → q.pointer ≡ suc n
        → entries q.queue q.pointer ≡ get_or q.queue n 0 ∷ entries q.queue n
    entries_of e = ap (entries q.queue) e
