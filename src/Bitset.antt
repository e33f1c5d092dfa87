-- ===== src/Bitset.antt =====
-- oink/src/bitset.hpp: the class `bitset`. `bits` is the allocated array `_bits` (`[]` for the NULL
-- pointer), `bitssize` the number of blocks in use. A read outside the array gives 0 and a write
-- outside changes nothing. The operations on two bitsets read as many blocks of the second as the first
-- has: the code reads outside its array when the second has fewer, where the model reads 0.
pub mod Blocks
pub mod Valid
pub mod Points
pub mod Pointwise
pub mod Pairs
pub mod Search
pub mod SearchDown
pub mod Resize
pub mod Whole
use Prim.Native.Nat.{bit_and, bit_or, bit_xor}
use urss.Base.{
  ℕ, zero, suc, ◌+◌, ◌-◌, ◌*◌, ◌/◌, ◌%◌, Bool, true, false, not, ◌&&◌, ◌||◌, List, [], ◌∷◌,
  if◌then◌else◌, ◌==◌, leb, length, get_or, set, take, replicate,
}
use urss.Word.{word_mod, complement, shift_left, ffsll, bsr}

pub record Bitset : Type 0 where
  pub bits : List ℕ
  pub size : ℕ
  pub bitssize : ℕ
  pub allocsize : ℕ

-- static_cast<size_t>(-1)
abbrev pub npos : ℕ
npos = word_mod - 1

-- (n+63)/64, computed in `size_t`
abbrev pub blocks_for : ℕ → ℕ
blocks_for n = ((n + 63) % word_mod) / 64

-- static_cast<uint64_t>(~0)
abbrev pub all_ones : ℕ
all_ones = word_mod - 1

abbrev pub block_index : ℕ → ℕ
block_index pos = pos / 64

abbrev pub bit_index : ℕ → ℕ
bit_index pos = pos % 64

unfoldable pub bit_mask : ℕ → ℕ
bit_mask pos = shift_left 1 (bit_index pos)

abbrev pub count_extra_bits : Bitset → ℕ
count_extra_bits b = b.size % 64

abbrev pub block : Bitset → ℕ → ℕ
block b i = get_or b.bits i 0

-- bitset(size_t newsize)
unfoldable pub make : ℕ → Bitset
make newsize = record {
  bits = replicate (blocks_for newsize) 0;
  size = newsize;
  bitssize = blocks_for newsize;
  allocsize = blocks_for newsize * 8;
}

-- bitset()
abbrev pub make_empty : Bitset
make_empty = record { bits = []; size = 0; bitssize = 0; allocsize = 0 }

-- bitset(const bitset &other), and operator=
unfoldable pub copy : Bitset → Bitset
copy other = record {
  bits = take other.bitssize other.bits;
  size = other.size;
  bitssize = other.bitssize;
  allocsize = other.bitssize * 8;
}

unfoldable pub zero_unused_bits : Bitset → Bitset
zero_unused_bits b =
    let extra = count_extra_bits b in
    let last = b.bitssize - 1 in
    if extra == 0
    then b
    else record b { bits = set b.bits last (bit_and (block b last) (shift_left 1 extra - 1)) }

-- for i below n: bits[i] = f(bits[i])
pub map_blocks : ℕ → (ℕ → ℕ) → List ℕ → List ℕ
map_blocks zero f xs = xs
map_blocks (suc n) f [] = []
map_blocks (suc n) f (x ∷ xs) = f x ∷ map_blocks n f xs

-- for i below n: bits[i] = f(bits[i], other[i])
pub zip_blocks : ℕ → (ℕ → ℕ → ℕ) → List ℕ → List ℕ → List ℕ
zip_blocks zero f xs ys = xs
zip_blocks (suc n) f [] ys = []
zip_blocks (suc n) f (x ∷ xs) [] = f x 0 ∷ zip_blocks n f xs []
zip_blocks (suc n) f (x ∷ xs) (y ∷ ys) = f x y ∷ zip_blocks n f xs ys

-- The third branch copies the blocks in use to a fresh array.
unfoldable pub resize : Bitset → ℕ → Bitset
resize b newsize =
    if b.allocsize == 0
    then make newsize
    else if leb newsize (b.allocsize * 8)
    then zero_unused_bits (record b { size = newsize; bitssize = blocks_for newsize })
    else (let fresh = make newsize in
        record fresh { bits = zip_blocks b.bitssize (λ _ y. y) fresh.bits b.bits })

unfoldable pub reset_all : Bitset → Bitset
reset_all b = record b { bits = map_blocks b.bitssize (λ _. 0) b.bits }

unfoldable pub set_all : Bitset → Bitset
set_all b = zero_unused_bits (record b { bits = map_blocks b.bitssize (λ _. all_ones) b.bits })

unfoldable pub flip_all : Bitset → Bitset
flip_all b = zero_unused_bits (record b { bits = map_blocks b.bitssize complement b.bits })

-- while (len-- != 0) if (!good(*p++)) return false; return true;
pub every_block : ℕ → (ℕ → Bool) → List ℕ → Bool
every_block zero good xs = true
every_block (suc n) good [] = good 0 && every_block n good []
every_block (suc n) good (x ∷ xs) = good x && every_block n good xs

-- The same with a second pointer.
pub every_pair : ℕ → (ℕ → ℕ → Bool) → List ℕ → List ℕ → Bool
every_pair zero good xs ys = true
every_pair (suc n) good [] [] = good 0 0 && every_pair n good [] []
every_pair (suc n) good [] (y ∷ ys) = good 0 y && every_pair n good [] ys
every_pair (suc n) good (x ∷ xs) [] = good x 0 && every_pair n good xs []
every_pair (suc n) good (x ∷ xs) (y ∷ ys) = good x y && every_pair n good xs ys

unfoldable pub any : Bitset → Bool
any b = not (every_block b.bitssize (λ w. w == 0) b.bits)

unfoldable pub none_set : Bitset → Bool
none_set b = not (any b)

unfoldable pub all : Bitset → Bool
all b =
    let extra = count_extra_bits b in
    let last = b.bitssize - 1 in
    if b.size == 0
    then true
    else if extra == 0
    then every_block b.bitssize (λ w. w == all_ones) b.bits
    else every_block last (λ w. w == all_ones) b.bits && block b last == shift_left 1 extra - 1

unfoldable pub test : Bitset → ℕ → Bool
test b pos = not (bit_and (block b (block_index pos)) (bit_mask pos) == 0)

unfoldable pub set_bit : Bitset → ℕ → Bitset
set_bit b pos =
    let i = block_index pos in record b { bits = set b.bits i (bit_or (block b i) (bit_mask pos)) }

unfoldable pub reset_bit : Bitset → ℕ → Bitset
reset_bit b pos =
    let i = block_index pos in
    record b { bits = set b.bits i (bit_and (block b i) (complement (bit_mask pos))) }

-- The operators of `reference`, for the bit that it refers to.
unfoldable pub flip_bit : Bitset → ℕ → Bitset
flip_bit b pos =
    let i = block_index pos in record b { bits = set b.bits i (bit_xor (block b i) (bit_mask pos)) }

unfoldable pub assign_bit : Bitset → ℕ → Bool → Bitset
assign_bit b pos x = if x then set_bit b pos else reset_bit b pos

unfoldable pub or_bit : Bitset → ℕ → Bool → Bitset
or_bit b pos x = if x then set_bit b pos else b

unfoldable pub and_bit : Bitset → ℕ → Bool → Bitset
and_bit b pos x = if x then b else reset_bit b pos

unfoldable pub xor_bit : Bitset → ℕ → Bool → Bitset
xor_bit b pos x = if x then flip_bit b pos else b

unfoldable pub minus_bit : Bitset → ℕ → Bool → Bitset
minus_bit b pos x = if x then reset_bit b pos else b

-- operator-=, operator&=, operator|= and operator^=
unfoldable pub minus : Bitset → Bitset → Bitset
minus b other = record b {
  bits = zip_blocks b.bitssize (λ x y. bit_and x (complement y)) b.bits other.bits;
}

unfoldable pub intersection : Bitset → Bitset → Bitset
intersection b other = record b { bits = zip_blocks b.bitssize bit_and b.bits other.bits }

unfoldable pub union : Bitset → Bitset → Bitset
union b other = record b { bits = zip_blocks b.bitssize bit_or b.bits other.bits }

unfoldable pub difference : Bitset → Bitset → Bitset
difference b other = record b { bits = zip_blocks b.bitssize bit_xor b.bits other.bits }

unfoldable pub equals : Bitset → Bitset → Bool
equals b other = every_pair b.bitssize (λ x y. x == y) b.bits other.bits

unfoldable pub intersects : Bitset → Bitset → Bool
intersects b other = not (every_pair b.bitssize (λ x y. bit_and x y == 0) b.bits other.bits)

-- while (i < num_blocks() and _bits[i] == 0) i++, with n rounds left
pub skip_zero : ℕ → List ℕ → ℕ → ℕ
skip_zero zero xs i = i
skip_zero (suc n) xs i = if get_or xs i 0 == 0 then skip_zero n xs (suc i) else i

-- The scan shared by `find_first` and `find_next`, from block i on.
pub find_from : Bitset → ℕ → ℕ
find_from b i =
    let j = skip_zero (b.bitssize - i) b.bits i in
    if j == b.bitssize then npos else j * 64 + ffsll (block b j) - 1

unfoldable pub find_first : Bitset → ℕ
find_first b = find_from b 0

-- The scan shared by `find_last` and `find_prev`, from block i down.
pub find_down : List ℕ → ℕ → ℕ
find_down xs zero = if get_or xs 0 0 == 0 then npos else 0 * 64 + bsr (get_or xs 0 0)
find_down xs (suc i) =
    if get_or xs (suc i) 0 == 0 then find_down xs i else suc i * 64 + bsr (get_or xs (suc i) 0)

unfoldable pub find_last : Bitset → ℕ
find_last b = if b.bitssize == 0 then npos else find_down b.bits (b.bitssize - 1)

unfoldable pub find_next : Bitset → ℕ → ℕ
find_next b pos =
    if pos == npos || leb b.size (pos + 1)
    then npos
    else (let i = block_index (pos + 1) in
        let m = bit_and (block b i) (shift_left all_ones (bit_index (pos + 1))) in
        if m == 0 then find_from b (i + 1) else i * 64 + ffsll m - 1)

unfoldable pub find_prev : Bitset → ℕ → ℕ
find_prev b pos =
    if pos == 0 || pos == npos
    then npos
    else (let i = block_index pos in
        let m = bit_and (block b i) (complement (shift_left all_ones (bit_index pos))) in
        if m == 0 then (if i == 0 then npos else find_down b.bits (i - 1)) else i * 64 + bsr m)

-- `popcnt` of libpopcnt.h, given the array and a number of bytes.
unfoldable pub count : (List ℕ → ℕ → ℕ) → Bitset → ℕ
count popcnt b = popcnt b.bits (b.bitssize * 8)
