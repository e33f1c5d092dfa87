-- ===== src/Tests/BitsetTests.antt =====
-- A bitset of 70 bits, with bits 3 and 66 set.
use urss.Base.{ℕ, ◌<◌, ◌≤◌, ◌≡◌, ◌↔◌, refl, arith, false, ◌&&◌}
use urss.Bitset.{
  Bitset, make, test, set_bit, resize, any, intersects, find_first, find_next, find_prev,
}
use urss.Bitset.Valid.{IsValid}
use urss.Bitset.Points.{set_bit-IsValid}
use urss.Bitset.Whole.{any_iff, intersects_iff}
use urss.Bitset.Resize.{make-IsValid, resize-IsValid}
use urss.Bitset.Search.{IsFirst, find_first_lem, find_next_lem}
use urss.Bitset.SearchDown.{IsLast, find_prev_lem}

abbrev blank : Bitset
blank = make 70

abbrev sample : Bitset
sample = set_bit (set_bit blank 3) 66

size-blank : blank.size ≡ 70
unfolding make
size-blank = refl

blank-IsValid : IsValid blank
blank-IsValid = make-IsValid 70 (omega arith)

size-one : (set_bit blank 3).size ≡ 70
unfolding make set_bit
size-one = refl

size-sample : sample.size ≡ 70
unfolding make set_bit
size-sample = refl

sample-IsValid : IsValid sample
sample-IsValid =
    set_bit-IsValid (set_bit blank 3) 66
      (set_bit-IsValid blank 3 blank-IsValid (omega (arith, size-blank))) (omega (arith, size-one))

resize-IsValid_example : IsValid (resize sample 200)
resize-IsValid_example = resize-IsValid sample 200 sample-IsValid (omega arith)

size-both : sample.size ≤ blank.size
unfolding make set_bit
size-both = omega arith

any_iff_example : (any sample ≡ false) ↔ ((i : ℕ) → i < sample.size → test sample i ≡ false)
any_iff_example = any_iff sample sample-IsValid

intersects_iff_example :
    (intersects sample blank ≡ false)
    ↔ ((i : ℕ) → i < sample.size → (test sample i && test blank i) ≡ false)
intersects_iff_example = intersects_iff sample blank sample-IsValid blank-IsValid size-both

find_first_lem_example : IsFirst sample 0 (find_first sample)
find_first_lem_example = find_first_lem sample sample-IsValid

find_next_lem_example : IsFirst sample 4 (find_next sample 3)
find_next_lem_example = find_next_lem sample 3 sample-IsValid (omega (arith, size-sample))

find_prev_lem_example : IsLast sample 66 (find_prev sample 66)
find_prev_lem_example = find_prev_lem sample 66 sample-IsValid (omega (arith, size-sample))
