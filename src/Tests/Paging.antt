-- ===== src/Tests/Paging.antt =====
-- Pages (Memory.antt) of the set of Allocating, whose word 0 is full.
use shipwreck.Base.{◌-◌, ◌*◌, arith, ◌==◌, if◌then◌else◌}
use shipwreck.Bitset.{BitAllocator, all_set}
use shipwreck.Bitset.Search.{first_clear}
use shipwreck.Memory.{lock_next_page}
use shipwreck.Memory.Pages.{Took, lock_next_page-Took}

-- Pages 32 and 33 are used too.
abbrev used_pages : BitAllocator
used_pages = record {
  max_blocks = 2;
  max_bits = 64;
  bitset_blocks = λ i. if i == 0 then all_set else 3;
}

lock_next_page-Took_example :
    Took used_pages (first_clear ((2 - 0) * 32) (0 * 32) used_pages) (lock_next_page 0 9 used_pages)
lock_next_page-Took_example = lock_next_page-Took 0 9 used_pages (λ i. ground arith) (omega arith)
