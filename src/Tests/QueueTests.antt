-- ===== src/Tests/QueueTests.antt =====
-- A queue of two places with one element.
use urss.Base.{◌≡◌, refl, arith, [], ◌∷◌}
use urss.UintQueue.{UintQueue, push, pop, nonempty}
use urss.UintQueue.Stack.{contents, contents-push, contents-pop}

abbrev one_entry : UintQueue
one_entry = record { queue = 7 ∷ 0 ∷ []; pointer = 1 }

contents-push_example : contents (push one_entry 5) ≡ 5 ∷ contents one_entry
contents-push_example = contents-push one_entry 5 (omega arith)

contents-pop_example : contents one_entry ≡ (pop one_entry).0 ∷ contents (pop one_entry).1
unfolding nonempty
contents-pop_example = contents-pop one_entry refl
