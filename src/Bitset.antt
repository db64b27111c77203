-- ===== src/Bitset.antt =====
-- src/include/std/bitset.h with bitops.h, atomic.h and pool.h: the allocator whose bits stand for
-- pages of memory or slots of a pool, 32 to a word. Words are numbers below 2 ^ 32. The program's
-- sets have at most 2 ^ 20 bits, so no sum of indices wraps. `others i j` is what other threads do
-- to the words before the compare-and-swap of round `j` in word `i`.
pub mod Marks
pub mod Search
pub mod Pool
use shipwreck.Base.{
  ℕ, zero, suc, ◌+◌, ◌-◌, ◌*◌, ◌/◌, ◌%◌, ◌^◌, min, Bool, true, false, Option, none, some, ◌==◌, ltb,
  leb, if◌then◌else◌, update,
}
use shipwreck.Base.Int.{ℤ, pos, negsuc, ltb_ℤ}
use Prim.Native.Nat.{bit_and, bit_or}

pub record BitAllocator : Type 0 where
  pub max_blocks : ℕ
  pub max_bits : ℕ
  pub bitset_blocks : ℕ → ℕ

-- The word -1.
abbrev pub all_set : ℕ
all_set = 2 ^ 32 - 1

-- `~x` on a uint.
abbrev pub complement : ℕ → ℕ
complement x = all_set - x

unfoldable pub new_allocator : ℕ → BitAllocator
new_allocator n = record { max_blocks = (n + 31) / 32; max_bits = n; bitset_blocks = λ i. 0 }

-- The number of the lowest set bit, for a word that has one.
unfoldable pub bitscan_from : ℕ → ℕ → ℕ
bitscan_from zero x = 0
bitscan_from (suc left) x =
    let rest = bitscan_from left (x / 2) in if x % 2 == 1 then 0 else suc rest

unfoldable pub bitscan_forward : ℕ → ℕ
unfolding bitscan_from
bitscan_forward x = bitscan_from 32 x

-- A mask is shifted in two halves, so that no shift is by 32.
abbrev pub shifted_one : ℕ → ℕ
shifted_one n = 2 ^ (n / 2) * 2 ^ (n - n / 2) % 2 ^ 32

unfoldable pub high_ones : ℕ → ℕ
high_ones num_bits = (2 ^ 32 - shifted_one (32 - num_bits)) % 2 ^ 32

unfoldable pub low_ones : ℕ → ℕ
low_ones num_bits = (shifted_one num_bits + 2 ^ 32 - 1) % 2 ^ 32

abbrev pub Others : Type 0
Others = ℕ → ℕ → BitAllocator → BitAllocator

abbrev pub write_block : BitAllocator → ℕ → ℕ → BitAllocator
write_block a i bits = record a { bitset_blocks = update a.bitset_blocks i bits }

-- `lock_block`: the old word, and the word set to -1.
unfoldable pub lock_block : ℕ → BitAllocator → ℕ × BitAllocator
lock_block i a = (a.bitset_blocks i, write_block a i all_set)

-- The loop of `lock_next_block`: the block's index and its bits. Nothing found is index 0 with -1,
-- or with the bits that `*locked_bits` had where no round is made.
unfoldable pub lock_next_from : ℕ → ℕ → ℕ → BitAllocator → (ℕ × ℕ) × BitAllocator
lock_next_from zero i bits a = ((0, bits), a)
lock_next_from (suc left) i bits a =
    let (old, a') = lock_block i a in
    let rest = lock_next_from left (i + 1) old a' in if old == all_set then rest else ((i, old), a')

unfoldable pub lock_next_block : ℕ → ℕ → BitAllocator → (ℕ × ℕ) × BitAllocator
unfolding lock_next_from
lock_next_block start bits a = lock_next_from (a.max_blocks - start) start bits a

-- The inner loop of `lock_next_bit` in round `i`; `none` goes on to the next word.
unfoldable pub try_bits : ℕ → ℕ → Others → ℕ → ℕ → BitAllocator → Option ℤ × BitAllocator
try_bits zero j others i bits a = (none, a)
try_bits (suc left) j others i bits a =
    let block_index = i % a.max_blocks in
    let bit_index = bitscan_forward (complement bits) in
    let now = others i j a in
    let rest = try_bits left (j + 1) others i (now.bitset_blocks block_index) now in
    if bits == all_set
    then (none, a)
    else if leb a.max_bits (bit_index + i * 32)
    then (some (negsuc 0), a)
    else if now.bitset_blocks block_index == bits
    then (
      some (pos (bit_index + block_index * 32)),
      write_block now block_index (bit_or bits (2 ^ bit_index)),
    )
    else rest

-- How a round of the outer loop ends: with an answer, or with the rest of the loop.
abbrev pub answer_or : Option ℤ → ℤ × BitAllocator → BitAllocator → ℤ × BitAllocator
answer_or none rest a = rest
answer_or (some r) rest a = (r, a)

unfoldable pub lock_from : ℕ → Others → ℕ → BitAllocator → ℤ × BitAllocator
lock_from zero others i a = (negsuc 0, a)
lock_from (suc left) others i a =
    let (found, a') = try_bits 32 0 others i (a.bitset_blocks (i % a.max_blocks)) a in
    answer_or found (lock_from left others (i + 1) a') a'

-- `lock_next_bit(start_block_index)`
unfoldable pub lock_next_bit : Others → ℕ → BitAllocator → ℤ × BitAllocator
unfolding lock_from
lock_next_bit others start a = lock_from a.max_blocks others start a

unfoldable pub unlock_bit : ℕ → BitAllocator → BitAllocator
unlock_bit i a =
    write_block a (i / 32) (bit_and (a.bitset_blocks (i / 32)) (complement (2 ^ (i % 32))))

unfoldable pub unlock_block : ℕ → ℕ → BitAllocator → BitAllocator
unlock_block new_bits i a = write_block a i new_bits

-- `lock_bitmask`: -1 for a word that is full or locked, which is left at -1.
unfoldable pub lock_bitmask : ℕ → ℕ → BitAllocator → ℕ × BitAllocator
lock_bitmask i mask a =
    let old = a.bitset_blocks i in
    if mask == 0
    then (0, a)
    else if old == all_set
    then (all_set, write_block a i all_set)
    else (bit_and (complement old) mask, write_block a i (bit_or old mask))

-- The body of `lock_bit_range`, `left` whole words from word `i` on.
unfoldable pub lock_blocks : ℕ → ℕ → BitAllocator → BitAllocator
lock_blocks zero i a = a
lock_blocks (suc left) i a = lock_blocks left (i + 1) (lock_bitmask i all_set a).1

unfoldable pub lock_bit_range : ℕ → ℕ → BitAllocator → BitAllocator
lock_bit_range start size a =
    let start_index = start / 32 in
    let end_index = (start + size) / 32 in
    let head_bits = 32 - start % 32 in
    let head_mask = high_ones head_bits in
    let tail_mask = low_ones ((size + 32 - head_bits) % 32) in
    if start_index == end_index
    then (lock_bitmask start_index (bit_and head_mask tail_mask) a).1
    else (lock_bitmask end_index tail_mask (
        lock_blocks (end_index - (start_index + 1)) (start_index + 1)
          (lock_bitmask start_index head_mask a).1)).1

-- `PoolAllocator::alloc` and `free`, by the index of the slot; -1 is nullptr.
unfoldable pub pool_alloc : Others → ℕ → BitAllocator → ℤ × BitAllocator
unfolding lock_next_bit
pool_alloc others start a = lock_next_bit others (start % a.max_blocks) a

unfoldable pub pool_free : ℤ → BitAllocator → BitAllocator
unfolding unlock_bit
pool_free (negsuc n) a = a
pool_free (pos i) a = if leb a.max_bits i then a else unlock_bit i a
