-- ===== src/Bitset/Marks.antt =====
-- The bits of `BitAllocator` (include/std/bitset.h) one by one.
use shipwreck.Base.{
  ℕ, zero, suc, ◌+◌, ◌-◌, ◌*◌, ◌/◌, ◌%◌, ◌^◌, ◌<◌, ◌≤◌, ◌≡◌, ◌∙◌, ap, Bool, ◌&&◌, ◌||◌, ◌==◌, ltb,
  leb, if◌then◌else◌, arith, Bool-cases, inl, inr, ==_iff,
}
use shipwreck.Base.Bits.{bit, bit-or, bit-and, bit-complement, bit-ones, bit-zero, flip}
use native.Mathlib.Nat.{pow-suc, one-le-pow, mod-eq_of_lt}
use Prim.Native.Nat.{bit_and}
use shipwreck.Bitset.{
  BitAllocator, all_set, shifted_one, high_ones, low_ones, lock_bitmask, lock_blocks,
  lock_bit_range,
}

-- Whether bit `x` of the set is set.
abbrev pub marked : BitAllocator → ℕ → Bool
marked a x = bit (x % 32) (a.bitset_blocks (x / 32))

lock_bitmask-marked :
    (i mask : ℕ) (a : BitAllocator) (x : ℕ)
    → marked (lock_bitmask i mask a).1 x
      ≡ (if x / 32 == i then marked a x || bit (x % 32) mask else marked a x)
unfolding lock_bitmask
lock_bitmask-marked i mask a x =
    ground
      (arith, bit-or (x % 32) (a.bitset_blocks i) mask, bit-ones (x % 32) 32, bit-zero (x % 32))

lock_blocks-marked :
    (left i : ℕ) (a : BitAllocator) (x : ℕ)
    → marked (lock_blocks left i a) x ≡ (marked a x || (leb i (x / 32) && ltb (x / 32) (i + left)))
unfolding lock_blocks
lock_blocks-marked zero i a x = ground arith
lock_blocks-marked (suc left) i a x =
    lock_blocks-marked left (i + 1) (lock_bitmask i all_set a).1 x
    ∙ ground (arith, lock_bitmask-marked i all_set a x, bit-ones (x % 32) 32)

pow-add : (a b : ℕ) → 2 ^ a * 2 ^ b ≡ 2 ^ (a + b)
pow-add zero b = ground arith
pow-add (suc a) b = grind (arith, pow-suc 2 a, pow-add a b, pow-suc 2 (a + b))

-- Powers below 2 ^ 32.
pow_rises : (d n : ℕ) → 2 ^ n < 2 ^ (n + suc d)
pow_rises zero n =
    let e : n + 1 ≡ suc n = omega arith in
    omega (arith, ap (λ t. 2 ^ t) e, pow-suc 2 n, one-le-pow n 2)
pow_rises (suc d) n =
    let e : n + suc (suc d) ≡ suc (n + suc d) = omega arith in
    omega (arith, ap (λ t. 2 ^ t) e, pow_rises d n, pow-suc 2 (n + suc d))

pub below_word : (n : ℕ) → n < 32 → 2 ^ n < 2 ^ 32
below_word n h =
    let e : n + suc (31 - n) ≡ 32 = omega arith in
    omega (arith, pow_rises (31 - n) n, ap (λ t. 2 ^ t) e)

shifted_one_lem : (n : ℕ) → n < 32 → shifted_one n ≡ 2 ^ n
shifted_one_lem n h =
    let e : n / 2 + (n - n / 2) ≡ n = omega arith in
    ap (λ t. t % 2 ^ 32) (pow-add (n / 2) (n - n / 2) ∙ ap (λ t. 2 ^ t) e)
    ∙ mod-eq_of_lt (below_word n h)

bit-high_ones : (k n : ℕ) → k < 32 → 0 < n → n ≤ 32 → bit k (high_ones n) ≡ leb (32 - n) k
unfolding high_ones
bit-high_ones k n h lo hi =
    let inv : ℕ = 32 - n in
    let small : 2 ^ inv < 2 ^ 32 = below_word inv (omega arith) in
    let e : (2 ^ 32 - 2 ^ inv) % 2 ^ 32 ≡ 2 ^ 32 - 1 - (2 ^ inv - 1) =
      omega (arith, small, one-le-pow inv 2) in
    ap (λ t. bit k ((2 ^ 32 - t) % 2 ^ 32)) (shifted_one_lem inv (omega arith))
    ∙ ap (bit k) e
    ∙ bit-complement 32 k (2 ^ inv - 1) h (omega (arith, small))
    ∙ ap flip (bit-ones k inv)
    ∙ ground arith

bit-low_ones : (k n : ℕ) → n < 32 → bit k (low_ones n) ≡ ltb k n
unfolding low_ones
bit-low_ones k n h =
    let e : (2 ^ n + 2 ^ 32 - 1) % 2 ^ 32 ≡ 2 ^ n - 1 =
      omega (arith, below_word n h, one-le-pow n 2) in
    ap (λ t. bit k ((t + 2 ^ 32 - 1) % 2 ^ 32)) (shifted_one_lem n h) ∙ ap (bit k) e ∙ bit-ones k n

-- `lock_bit_range(start, size)` with at least one bit sets bits `start` up to `start + size` and
-- leaves each other bit as it was.
pub lock_bit_range_lem :
    (start size : ℕ) (a : BitAllocator) (x : ℕ)
    → marked (lock_bit_range start size a) x ≡ (marked a x || (leb start x && ltb x (start + size)))
unfolding lock_bit_range
lock_bit_range_lem start size a x =
    let first : ℕ = start / 32 in
    let last : ℕ = (start + size) / 32 in
    let head_mask : ℕ = high_ones (32 - start % 32) in
    let tail_mask : ℕ = low_ones ((size + 32 - (32 - start % 32)) % 32) in
    let begun : BitAllocator = (lock_bitmask first head_mask a).1 in
    let middle : BitAllocator = lock_blocks (last - (first + 1)) (first + 1) begun in
    let k : ℕ = x % 32 in
    let high : bit k head_mask ≡ leb (start % 32) k =
      bit-high_ones k (32 - start % 32) (omega arith) (omega arith) (omega arith) ∙ ground arith in
    let low : bit k tail_mask ≡ ltb k ((start + size) % 32) =
      bit-low_ones k _ (omega arith) ∙ ground arith in
    elim (Bool-cases (first == last)) [
      | inl e ↦ rw e (
          lock_bitmask-marked first (bit_and head_mask tail_mask) a x
          ∙ ground (arith, bit-and k head_mask tail_mask, high, low, (==_iff first last).0 e))
      | inr e ↦ rw e (
          lock_bitmask-marked last tail_mask middle x
          ∙ ground (
            arith,
            lock_blocks-marked (last - (first + 1)) (first + 1) begun x,
            lock_bitmask-marked first head_mask a x,
            high,
            low,
          ))
    ]
