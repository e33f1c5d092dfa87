-- ===== src/UintQueue.antt =====
-- oink/src/uintqueue.hpp: the class `uintqueue`, a stack of numbers in an array of fixed size.
-- `queue` is the array and `pointer` the number of entries in use. A write outside the array
-- changes nothing and a read outside gives 0; the invariant of the children rules both out.
pub mod Stack
use urss.Base.{ℕ, zero, suc, ◌+◌, ◌-◌, Bool, not, List, [], ◌==◌, get_or, set, replicate}

pub record UintQueue : Type 0 where
  pub queue : List ℕ
  pub pointer : ℕ

-- uintqueue(uint capacity). The entries of the new array are not initialised: here they are 0.
unfoldable pub make : ℕ → UintQueue
make capacity = record { queue = replicate capacity 0; pointer = 0 }

unfoldable pub nonempty : UintQueue → Bool
nonempty q = not (q.pointer == 0)

unfoldable pub empty : UintQueue → Bool
empty q = q.pointer == 0

-- `--pointer` first; the caller has tested that the queue is not empty.
unfoldable pub pop : UintQueue → ℕ × UintQueue
pop q = (get_or q.queue (q.pointer - 1) 0, record q { pointer = q.pointer - 1 })

unfoldable pub pop2 : UintQueue → UintQueue
pop2 q = record q { pointer = q.pointer - 2 }

unfoldable pub push : UintQueue → ℕ → UintQueue
push q element = record { queue = set q.queue q.pointer element; pointer = q.pointer + 1 }

unfoldable pub back : UintQueue → ℕ
back q = get_or q.queue (q.pointer - 1) 0

unfoldable pub back2 : UintQueue → ℕ
back2 q = get_or q.queue (q.pointer - 2) 0

unfoldable pub clear : UintQueue → UintQueue
clear q = record q { pointer = 0 }

-- operator[]
unfoldable pub at : UintQueue → ℕ → ℕ
at q idx = get_or q.queue idx 0

unfoldable pub size : UintQueue → ℕ
size q = q.pointer

unfoldable pub resize : UintQueue → ℕ → UintQueue
resize q capacity = make capacity

unfoldable pub swap_elements : UintQueue → ℕ → ℕ → UintQueue
swap_elements q idx1 idx2 =
    let a = get_or q.queue idx1 0 in
    let b = get_or q.queue idx2 0 in record q { queue = set (set q.queue idx1 b) idx2 a }
