-- ===== src/Bitset/Resize.antt =====
-- Constructors, copies and `resize`.
use urss.Base.{
  ℕ, ◌+◌, ◌*◌, ◌/◌, ◌%◌, ◌≤◌, ◌<◌, ◌≡◌, ◌∙◌, refl, arith, ap, false, if◌then◌else◌, ◌==◌, ltb, leb,
  get_or-take, length-take, replicate, get_or-replicate, length-replicate, Bool-cases, inl, inr,
}
use urss.Word.{word_mod, bit}
use urss.Word.Bits.{bit-zero}
use urss.Bitset.{Bitset, block, make, zero_unused_bits, zip_blocks, test, blocks_for, resize, copy}
use urss.Bitset.Blocks.{length-zip_blocks, get_or-zip_blocks}
use urss.Bitset.Valid.{IsValid, IsShaped, block_index-lt}
use urss.Bitset.Points.{test-eq}
use urss.Bitset.Search.{clear_of_zero}
use urss.Bitset.Pointwise.{used, zero_unused_bits-IsValid, bit_in-zero_unused_bits}

-- A fresh bitset is valid and has every bit clear.
pub make-IsValid : (n : ℕ) → n + 63 < word_mod → IsValid (make n)
unfolding make
make-IsValid n h = record {
  fits = h;
  blocks = refl;
  room = omega (arith, length-replicate {0} {A = ℕ} (blocks_for n) 0);
  alloc = omega (arith, length-replicate {0} {A = ℕ} (blocks_for n) 0);
  words = λ i. rw get_or-replicate (omega arith);
  unused = λ i p q.
      clear_of_zero (replicate (blocks_for n) 0) i (get_or-replicate (blocks_for n) 0 (i / 64));
}

pub test-make : (n i : ℕ) → test (make n) i ≡ false
unfolding make
test-make n i =
    test-eq (make n) i
    ∙ clear_of_zero (replicate (blocks_for n) 0) i (get_or-replicate (blocks_for n) 0 (i / 64))

-- A copy is valid and has the same bits.
pub copy-IsValid : (b : Bitset) → IsValid b → IsValid (copy b)
unfolding copy
copy-IsValid b v = record {
  fits = v.fits;
  blocks = v.blocks;
  room = omega (arith, length-take b.bitssize b.bits, v.room);
  alloc = omega (arith, length-take b.bitssize b.bits, v.room);
  words = λ i. ground (arith, get_or-take b.bitssize b.bits i 0, v.words i);
  unused = λ i p q.
      ground (
        arith,
        ap (λ w. bit w (i % 64)) (get_or-take b.bitssize b.bits (i / 64) 0),
        v.unused i p q,
      );
}

pub test-copy : (b : Bitset) (i : ℕ) → IsValid b → i < b.size → test (copy b) i ≡ test b i
unfolding copy
test-copy b i v h = ground (
  arith,
  test-eq (copy b) i,
  test-eq b i,
  ap (λ w. bit w (i % 64)) (get_or-take b.bitssize b.bits (i / 64) 0),
  block_index-lt i v h,
)

resize-IsShaped :
    (b : Bitset) (n : ℕ)
    → n ≤ b.allocsize * 8
    → n + 63 < word_mod
    → IsValid b
    → IsShaped (record b { size = n; bitssize = blocks_for n })
resize-IsShaped b n h k v = record {
  fits = k;
  blocks = refl;
  room = omega (arith, v.alloc);
  alloc = v.alloc;
  words = v.words;
}

-- The third branch: the old blocks, followed by zeros.
module _ (b : Bitset) (n : ℕ) (v : IsValid b) (h : n + 63 < word_mod)
    (more : b.allocsize * 8 < n) where
  grown : Bitset
  grown =
      let fresh = make n in
      record fresh { bits = zip_blocks b.bitssize (λ _ y. y) fresh.bits b.bits }

  block-grown : (i : ℕ) → block grown i ≡ (if ltb i b.bitssize then block b i else 0)
  unfolding grown make
  block-grown i = ground (
    arith,
    get_or-zip_blocks b.bitssize (λ _ y. y) (replicate (blocks_for n) 0) b.bits i,
    length-replicate {0} {A = ℕ} (blocks_for n) 0,
    get_or-replicate {A = ℕ} (blocks_for n) 0 i,
    v.room,
    v.alloc,
    v.blocks,
    v.fits,
  )

  grown-IsValid : IsValid grown
  unfolding grown make
  grown-IsValid = record {
    fits = h;
    blocks = refl;
    room = rw length-zip_blocks (omega (arith, length-replicate {0} {A = ℕ} (blocks_for n) 0));
    alloc = rw length-zip_blocks (omega (arith, length-replicate {0} {A = ℕ} (blocks_for n) 0));
    words = λ i. ground (arith, block-grown i, v.words i);
    unused = λ i p q. ground (
      arith,
      ap (λ w. bit w (i % 64)) (block-grown (i / 64)),
      bit-zero (i % 64),
      v.unused i,
      v.room,
      v.alloc,
    );
  }

  test-grown : (i : ℕ) → i < b.size → test grown i ≡ test b i
  test-grown i p = ground (
    arith,
    test-eq grown i,
    test-eq b i,
    ap (λ w. bit w (i % 64)) (block-grown (i / 64)),
    block_index-lt i v,
  )

-- `resize` keeps the invariant, on each of its three branches.
pub resize-IsValid : (b : Bitset) (n : ℕ) → IsValid b → n + 63 < word_mod → IsValid (resize b n)
unfolding resize grown
resize-IsValid b n v h = elim (Bool-cases (b.allocsize == 0)) [
  | inl null ↦ rw null (make-IsValid n h)
  | inr array ↦ elim (Bool-cases (leb n (b.allocsize * 8))) [
    | inl enough ↦
        rw (array, enough) (zero_unused_bits-IsValid (resize-IsShaped b n (ground arith) h v))
    | inr more ↦ rw (array, more) (grown-IsValid b n v h (ground arith))
  ]
]

-- `resize` keeps the bits below the old and the new size.
pub test-resize :
    (b : Bitset) (n i : ℕ)
    → IsValid b
    → n + 63 < word_mod
    → i < b.size
    → i < n
    → test (resize b n) i ≡ test b i
unfolding resize grown
test-resize b n i v h p q = elim (Bool-cases (b.allocsize == 0)) [
  | inl null ↦ absurd (ground (arith, v.alloc, v.room, v.blocks, v.fits))
  | inr array ↦ elim (Bool-cases (leb n (b.allocsize * 8))) [
    | inl enough ↦
        let s = resize-IsShaped b n (ground arith) h v in
        rw (array, enough)
          (ground (
            arith,
            test-eq b i,
            test-eq (zero_unused_bits (record b { size = n; bitssize = blocks_for n })) i,
            bit_in-zero_unused_bits i s,
            used i s q,
          ))
    | inr more ↦ rw (array, more) (test-grown b n v h (ground arith) i p)
  ]
]
