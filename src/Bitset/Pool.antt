-- ===== src/Bitset/Pool.antt =====
-- `PoolAllocator` (include/std/pool.h): a slot that is given back is free again.
use shipwreck.Base.{
  ℕ, zero, suc, ◌+◌, ◌-◌, ◌*◌, ◌/◌, ◌%◌, ◌^◌, ◌<◌, ◌≤◌, ◌≡◌, ◌∙◌, refl, ap, false, ◌&&◌, ◌||◌, ◌==◌,
  leb, arith, Bool-cases, inl, inr, ==_iff, Option, none, some,
}
use shipwreck.Base.Bits.{bit-or, bit-and, bit-complement, bit-pow, flip}
use shipwreck.Bitset.{BitAllocator, complement, unlock_bit, pool_alloc, pool_free}
use shipwreck.Bitset.Marks.{marked, below_word}
use shipwreck.Bitset.Search.{Sized, alone, first_clear, taken, lock_next_bit_lem}

-- What a search that ends below `b` has found.
abbrev Clear : BitAllocator → ℕ → Option ℕ → Type 0
Clear a b none = Unit
Clear a b (some y) = (marked a y ≡ false) × (y < b)

first_clear-Clear : (n x b : ℕ) (a : BitAllocator) → n ≤ b - x → Clear a b (first_clear n x a)
first_clear-Clear zero x b a h = tt
first_clear-Clear (suc n) x b a h = elim (Bool-cases (marked a x)) [
  | inl e ↦ rw e (first_clear-Clear n (x + 1) b a (omega arith))
  | inr e ↦ rw e (e, omega arith)
]

taken-marked : (y x : ℕ) (a : BitAllocator) → marked (taken (some y) a).1 x ≡ (marked a x || x == y)
taken-marked y x a =
    ground
      (arith, bit-or (x % 32) (a.bitset_blocks (y / 32)) (2 ^ (y % 32)), bit-pow (x % 32) (y % 32))

unlock_bit-marked :
    (y x : ℕ) (a : BitAllocator) → marked (unlock_bit y a) x ≡ (marked a x && flip (x == y))
unfolding unlock_bit
unlock_bit-marked y x a = ground (
  arith,
  bit-and (x % 32) (a.bitset_blocks (y / 32)) (complement (2 ^ (y % 32))),
  bit-complement 32 (x % 32) (2 ^ (y % 32)) (omega arith) (below_word (y % 32) (omega arith)),
  bit-pow (x % 32) (y % 32),
)

free-taken :
    (o : Option ℕ) (a : BitAllocator) (x : ℕ)
    → Clear a a.max_bits o
    → marked (pool_free (taken o a).0 (taken o a).1) x ≡ marked a x
unfolding pool_free
free-taken none a x c = refl
free-taken (some y) a x c =
    let e : leb a.max_bits y ≡ false = ground (arith, c.1) in
    let gone : (marked (taken (some y) a).1 x && flip (x == y)) ≡ marked a x =
      elim (Bool-cases (x == y)) [
        | inl f ↦ rw f (ground (arith, c.0, ap (marked a) ((==_iff x y).0 f)))
        | inr f ↦ ground (arith, taken-marked y x a, f)
      ] in
    rw e (unlock_bit-marked y x (taken (some y) a).1 ∙ gone)

-- With no other thread at work, in a pool whose words are 32 bits wide and hold its bits, `alloc`
-- and then `free` of its answer leave every bit as it was, be the answer a slot or nullptr.
pub pool_free-pool_alloc :
    (start : ℕ) (a : BitAllocator)
    → Sized a
    → (x : ℕ)
    → marked (pool_free (pool_alloc alone start a).0 (pool_alloc alone start a).1) x ≡ marked a x
unfolding pool_alloc
pool_free-pool_alloc start a s x =
    let first : ℕ = start % a.max_blocks in
    let o : Option ℕ = first_clear (a.max_bits - first * 32) (first * 32) a in
    ap (λ p. marked (pool_free p.0 p.1) x) (lock_next_bit_lem first a s)
    ∙ free-taken o a x
        (first_clear-Clear (a.max_bits - first * 32) (first * 32) a.max_bits a (omega arith))
