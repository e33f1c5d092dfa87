-- ===== src/Bitset/Pairs.antt =====
-- Operations on two bitsets of one size, block by block.
use Prim.Native.Nat.{bit_and, bit_or, bit_xor}
use urss.Base.{
  ℕ, ◌*◌, ◌/◌, ◌%◌, ◌<◌, ◌≡◌, ◌∙◌, refl, sym, arith, ap, ap₂, Bool, false, not, ◌&&◌, ◌||◌, xor,
  get_or,
}
use urss.Word.{word_mod, complement, bit}
use urss.Word.Bits.{bit-bit_and, bit-bit_or, bit-bit_xor, bit_and-lt, bit_or-lt, bit_xor-lt}
use urss.Bitset.{Bitset, block, zip_blocks, test, minus, intersection, union, difference}
use urss.Bitset.Blocks.{length-zip_blocks, get_or-zip_blocks}
use urss.Bitset.Valid.{IsValid, shape, bit_in, bit_index-lt, bit-complement}
use urss.Bitset.Points.{test-eq}
use urss.Bitset.Pointwise.{used}

-- One operation on each pair of blocks of two bitsets of one size.
module _ (f : ℕ → ℕ → ℕ) (F : Bool → Bool → Bool)
    (fits : (x y : ℕ) → x < word_mod → y < word_mod → f x y < word_mod)
    (law : (x y t : ℕ)
      → x < word_mod
      → y < word_mod
      → t < 64
      → bit (f x y) t ≡ F (bit x t) (bit y t)) where
  zipped : Bitset → Bitset → Bitset
  zipped b c = record b { bits = zip_blocks b.bitssize f b.bits c.bits }

  bit_in-zipped :
      {b c : Bitset} (k : ℕ)
      → IsValid b
      → IsValid c
      → k < b.bitssize * 64
      → bit_in (zipped b c).bits k ≡ F (bit_in b.bits k) (bit_in c.bits k)
  unfolding zipped
  bit_in-zipped {b} {c} k v u h =
      let e : get_or (zip_blocks b.bitssize f b.bits c.bits) (k / 64) 0
          ≡ f (block b (k / 64)) (block c (k / 64)) =
        ground (arith, get_or-zip_blocks b.bitssize f b.bits c.bits (k / 64), v.room) in
      rw e (
        law (block b (k / 64)) (block c (k / 64)) (k % 64) (v.words (k / 64)) (u.words (k / 64))
          (bit_index-lt k))

  test-zipped :
      {b c : Bitset} (k : ℕ)
      → IsValid b
      → IsValid c
      → k < b.size
      → test (zipped b c) k ≡ F (test b k) (test c k)
  test-zipped {b} {c} k v u h =
      test-eq (zipped b c) k
      ∙ bit_in-zipped k v u (used k (shape v) h)
      ∙ sym (ap₂ F (test-eq b k) (test-eq c k))

  zipped-IsValid :
      {b c : Bitset}
      → F false false ≡ false
      → b.size ≡ c.size
      → IsValid b
      → IsValid c
      → IsValid (zipped b c)
  unfolding zipped
  zipped-IsValid {b} {c} e same v u = record {
    fits = v.fits;
    blocks = v.blocks;
    room = rw length-zip_blocks v.room;
    alloc = rw length-zip_blocks v.alloc;
    words = λ i. ground (
      arith,
      get_or-zip_blocks b.bitssize f b.bits c.bits i,
      v.room,
      fits (block b i) (block c i),
      v.words i,
      u.words i,
    );
    unused = λ i p q.
        bit_in-zipped i v u q
        ∙ ap₂ F (v.unused i p q) (u.unused i (omega arith) (omega (arith, v.blocks, u.blocks)))
        ∙ e;
  }

bit_and-fits : (x y : ℕ) → x < word_mod → y < word_mod → bit_and x y < word_mod
bit_and-fits x y p q = bit_and-lt 64 x y p

bit_and-law :
    (x y t : ℕ) → x < word_mod → y < word_mod → t < 64 → bit (bit_and x y) t ≡ (bit x t && bit y t)
bit_and-law x y t p q h = bit-bit_and x y t

-- `b &= c` keeps the bits that both have.
pub test-intersection :
    (b c : Bitset) (k : ℕ)
    → IsValid b
    → IsValid c
    → k < b.size
    → test (intersection b c) k ≡ (test b k && test c k)
unfolding intersection zipped
test-intersection b c k v u h = test-zipped bit_and ◌&&◌ bit_and-fits bit_and-law k v u h

pub test-union :
    (b c : Bitset) (k : ℕ)
    → IsValid b
    → IsValid c
    → k < b.size
    → test (union b c) k ≡ (test b k || test c k)
unfolding union zipped
test-union b c k v u h =
    test-zipped bit_or ◌||◌ (bit_or-lt 64) (λ x y t p q r. bit-bit_or x y t) k v u h

pub test-difference :
    (b c : Bitset) (k : ℕ)
    → IsValid b
    → IsValid c
    → k < b.size
    → test (difference b c) k ≡ xor (test b k) (test c k)
unfolding difference zipped
test-difference b c k v u h =
    test-zipped bit_xor xor (bit_xor-lt 64) (λ x y t p q r. bit-bit_xor x y t) k v u h

minus-fits : (x y : ℕ) → x < word_mod → y < word_mod → bit_and x (complement y) < word_mod
minus-fits x y p q = bit_and-lt 64 x (complement y) p

minus-law :
    (x y t : ℕ)
    → x < word_mod
    → y < word_mod
    → t < 64
    → bit (bit_and x (complement y)) t ≡ (bit x t && not (bit y t))
minus-law x y t p q h =
    bit-bit_and x (complement y) t ∙ ap (λ e. bit x t && e) (bit-complement y t q h)

pub test-minus :
    (b c : Bitset) (k : ℕ)
    → IsValid b
    → IsValid c
    → k < b.size
    → test (minus b c) k ≡ (test b k && not (test c k))
unfolding minus zipped
test-minus b c k v u h =
    test-zipped (λ x y. bit_and x (complement y)) (λ p q. p && not q) minus-fits minus-law k v u h

-- The four operations keep the invariant, for bitsets of one size.
pub pairs-IsValid :
    (b c : Bitset)
    → b.size ≡ c.size
    → IsValid b
    → IsValid c
    → IsValid (intersection b c)
      × IsValid (union b c)
      × IsValid (difference b c)
      × IsValid (minus b c)
unfolding intersection union difference minus zipped xor
pairs-IsValid b c e v u = (
  zipped-IsValid bit_and ◌&&◌ bit_and-fits bit_and-law refl e v u,
  zipped-IsValid bit_or ◌||◌ (bit_or-lt 64) (λ x y t p q r. bit-bit_or x y t) refl e v u,
  zipped-IsValid bit_xor xor (bit_xor-lt 64) (λ x y t p q r. bit-bit_xor x y t) refl e v u,
  zipped-IsValid (λ x y. bit_and x (complement y)) (λ p q. p && not q) minus-fits minus-law refl e v
      u,
)
