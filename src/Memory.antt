-- ===== src/Memory.antt =====
-- src/system/memory.cpp and include/std/atomic.h: pages of physical memory, which the bits of the
-- page allocator stand for, and their places in virtual memory. An address is a number below 2 ^
-- 32. The page directory and the page tables are functions of their index; that the tables are
-- themselves in memory is not modelled. `prand n` is the n-th number that `prand()` yields.
pub mod Pages
use shipwreck.Base.{
  ℕ, zero, suc, ◌+◌, ◌-◌, ◌*◌, ◌/◌, ◌%◌, ◌^◌, Bool, true, false, Option, none, some, ◌==◌, ltb, leb,
  if◌then◌else◌, update,
}
use shipwreck.Bitset.{
  BitAllocator, all_set, complement, bitscan_forward, lock_next_block, unlock_block,
}
use Prim.Native.Nat.{bit_or}

pub record PageMemory : Type 0 where
  pub page_allocator : BitAllocator
  pub page_dir : ℕ → ℕ
  pub page_tables : ℕ → ℕ
  pub num_prand : ℕ

abbrev pub page_size : ℕ
page_size = 4096

-- `atomic_add_limit` for a variable that has `val`; `others i` is what other threads make of it
-- before the compare-and-swap of round `i`. The result and what the variable has afterwards.
unfoldable pub add_limit_from : ℕ → ℕ → (ℕ → ℕ → ℕ) → ℕ → ℕ → ℕ → ℕ → ℕ × ℕ
add_limit_from zero i others diff limit myval val = (limit, val)
add_limit_from (suc left) i others diff limit myval val =
    let now = others i val in
    let rest = add_limit_from left (i + 1) others diff limit now now in
    if ltb ((limit + 2 ^ 32 - myval) % 2 ^ 32) diff
    then (limit, val)
    else if now == myval
    then (myval, (myval + diff) % 2 ^ 32)
    else rest

unfoldable pub atomic_add_limit : (ℕ → ℕ → ℕ) → ℕ → ℕ → ℕ → ℕ × ℕ
unfolding add_limit_from
atomic_add_limit others diff limit val = add_limit_from 10 0 others diff limit val val

-- `static_alloc_pages`: the address, 0 for nullptr, and the new `static_alloc_ptr`.
unfoldable pub static_alloc_pages : (ℕ → ℕ → ℕ) → ℕ → ℕ → ℕ → ℕ × ℕ
unfolding atomic_add_limit
static_alloc_pages others pages limit ptr =
    let (newval, ptr') = atomic_add_limit others (pages * page_size % 2 ^ 32) limit ptr in
    (if newval == limit then 0 else newval, ptr')

-- `next_virtual_pages`, on `virt_alloc_ptr`.
unfoldable pub next_virtual_pages : (ℕ → ℕ → ℕ) → ℕ → ℕ → ℕ × ℕ
unfolding atomic_add_limit
next_virtual_pages others pages ptr =
    let (newval, ptr') = atomic_add_limit others (pages * page_size % 2 ^ 32) all_set ptr in
    (if newval == all_set then 0 else newval, ptr')

-- The end of `lock_next_page`, once a word is locked.
unfoldable pub take_page : (ℕ × ℕ) × BitAllocator → ℕ × BitAllocator
take_page ((index, bits), a) =
    let bit_index = bitscan_forward (complement bits) in
    if bits == all_set
    then (0, a)
    else (index * 32 + bit_index, unlock_block (bit_or bits (2 ^ bit_index)) index a)

-- `lock_next_page` with its search from word `start` on: the number of the page, 0 on failure.
-- `junk` is what `locked_bits` holds before it is set.
unfoldable pub lock_next_page : ℕ → ℕ → BitAllocator → ℕ × BitAllocator
unfolding take_page
lock_next_page start junk a = take_page (lock_next_block start junk a)

abbrev pub get_pde_index : ℕ → ℕ
get_pde_index vaddr = vaddr / 2 ^ 22

abbrev pub get_pte_index : ℕ → ℕ
get_pte_index vaddr = vaddr / 2 ^ 12

module _ (prand : ℕ → ℕ) (junk : ℕ) where
  unfoldable pub phys_alloc_page : PageMemory → ℕ × PageMemory
  phys_alloc_page m =
      let (page, a) = lock_next_page (prand m.num_prand % 256) junk m.page_allocator in
      (page * page_size % 2 ^ 32, record m { page_allocator = a; num_prand = m.num_prand + 1 })

  -- `ensure_pte`: a page table is allocated where the directory has none.
  unfoldable pub ensure_pte : ℕ → ℕ → PageMemory → ℕ × PageMemory
  ensure_pte vaddr attributes m =
      let (page, m') = phys_alloc_page m in
      let pde = get_pde_index vaddr in
      if m.page_dir pde % 2 == 0
      then (
        get_pte_index vaddr,
        record m' { page_dir = update m'.page_dir pde (bit_or page attributes) },
      )
      else (get_pte_index vaddr, m)

  unfoldable pub map_to : ℕ → ℕ → ℕ → PageMemory → PageMemory
  map_to vaddr p_addr attributes m =
      let (pte, m') = ensure_pte vaddr attributes m in
      record m' { page_tables = update m'.page_tables pte (bit_or p_addr attributes) }

  -- The inner loop of `virt_alloc_pages`, over the bits of a locked word from `bit` on. What is
  -- left to map, the bits, and the next virtual address; it ends early when no page is left.
  unfoldable pub map_free_bits : ℕ → ℕ → ℕ → ℕ → ℕ → ℕ → ℕ → PageMemory → (ℕ × ℕ × ℕ) × PageMemory
  map_free_bits zero bit index attributes pages bits vaddr m = ((pages, bits, vaddr), m)
  map_free_bits (suc left) bit index attributes pages bits vaddr m =
      let p_addr = (index * 32 + bit) * page_size % 2 ^ 32 in
      let m' = map_to vaddr p_addr attributes m in
      let bits' = bit_or bits (2 ^ bit) in
      let pages' = (pages + 2 ^ 32 - 1) % 2 ^ 32 in
      let vaddr' = (vaddr + page_size) % 2 ^ 32 in
      let mapped = map_free_bits left (bit + 1) index attributes pages' bits' vaddr' m' in
      let skipped = map_free_bits left (bit + 1) index attributes pages bits vaddr m in
      if bits == all_set
      then ((pages, bits, vaddr), m)
      else if bits / 2 ^ bit % 2 == 0
      then (if pages' == 0 then ((0, bits', vaddr'), m') else mapped)
      else skipped

  -- The outer loop of `virt_alloc_pages`: whether all pages were mapped. `left` bounds the rounds:
  -- each locks a word that had a free bit.
  unfoldable pub map_pages_from : ℕ → ℕ → ℕ → ℕ → ℕ → PageMemory → Bool × PageMemory
  map_pages_from zero start attributes pages vaddr m = (false, m)
  map_pages_from (suc left) start attributes pages vaddr m =
      let ((index, bits), a) = lock_next_block start junk m.page_allocator in
      let locked = record m { page_allocator = a } in
      let ((pages', bits', vaddr'), m') =
        map_free_bits 32 0 index attributes pages bits vaddr locked in
      let rest = map_pages_from left index attributes pages' vaddr' m' in
      if index == 0
      then (false, locked)
      else if pages' == 0
      then (true, record m' { page_allocator = unlock_block bits' index m'.page_allocator })
      else rest

  -- `virt_alloc_pages(pages, address, attributes)`: the address, or 0 for nullptr.
  unfoldable pub virt_alloc_pages : ℕ → ℕ → ℕ → PageMemory → ℕ × PageMemory
  virt_alloc_pages pages address attributes m =
      let m₁ = record m { num_prand = m.num_prand + 1 } in
      let (done, m') =
        map_pages_from (suc (BitAllocator.max_blocks m.page_allocator)) (prand m.num_prand % 256)
          attributes pages address m₁ in
      (if done then address else 0, m')

-- `get_physical`; the entry's address is never nullptr.
unfoldable pub get_physical : ℕ → PageMemory → ℕ
get_physical vaddr m = let val = m.page_tables (get_pte_index vaddr) in val - val % page_size
