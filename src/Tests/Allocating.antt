-- ===== src/Tests/Allocating.antt =====
-- The sets of bits (Bitset.antt) with two words of which the first is full.
use shipwreck.Base.{◌+◌, ◌-◌, ◌*◌, ◌≡◌, ◌&&◌, ◌||◌, ltb, leb, arith, ◌==◌, if◌then◌else◌}
use shipwreck.Bitset.{
  BitAllocator, new_allocator, all_set, lock_bit_range, lock_next_bit, pool_alloc, pool_free,
}
use shipwreck.Bitset.Marks.{marked, lock_bit_range_lem}
use shipwreck.Bitset.Search.{Sized, alone, first_clear, taken, lock_next_bit_lem}
use shipwreck.Bitset.Pool.{pool_free-pool_alloc}

abbrev fresh_set : BitAllocator
unfolding new_allocator
fresh_set = new_allocator 64

-- Words 0 and 1 of a set of 64 bits; bits 32 and 33 of it are set.
abbrev half_full : BitAllocator
half_full = record {
  max_blocks = 2;
  max_bits = 64;
  bitset_blocks = λ i. if i == 0 then all_set else 3;
}

half_full-Sized : Sized half_full
half_full-Sized = record { words = λ i. ground arith; room = omega arith }

lock_bit_range_lem_example :
    marked (lock_bit_range 30 10 fresh_set) 35
    ≡ (marked fresh_set 35 || (leb 30 35 && ltb 35 (30 + 10)))
lock_bit_range_lem_example = lock_bit_range_lem 30 10 fresh_set 35

lock_next_bit_lem_example :
    lock_next_bit alone 0 half_full ≡ taken (first_clear (64 - 0 * 32) (0 * 32) half_full) half_full
lock_next_bit_lem_example = lock_next_bit_lem 0 half_full half_full-Sized

pool_free-pool_alloc_example :
    marked (pool_free (pool_alloc alone 5 half_full).0 (pool_alloc alone 5 half_full).1) 34
    ≡ marked half_full 34
pool_free-pool_alloc_example = pool_free-pool_alloc 5 half_full half_full-Sized 34
