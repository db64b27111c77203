-- ===== src/CString/Copy.antt =====
-- What `memcpy` and `memset` of system/string.cpp leave in memory.
use shipwreck.Base.{
  ℕ, zero, suc, ◌+◌, ◌-◌, ◌*◌, ◌/◌, ◌%◌, ◌≤◌, ◌≡◌, ◌⊎◌, ◌∙◌, ◌&&◌, Bool, arith, if◌then◌else◌, ltb,
  leb, update,
}
use shipwreck.CString.{
  Memory, write_dword, copy_dwords, copy_chars, memcpy, fill_dwords, fill_chars, memset,
}

-- The addresses from `lo` up to `hi`.
abbrev pub ranges : ℕ → ℕ → ℕ → Bool
ranges lo hi q = leb lo q && ltb q hi

fill_chars_lem :
    (p c left i : ℕ) (mem : Memory) (q : ℕ)
    → fill_chars p c left i mem q ≡ (if ranges (p + i) (p + i + left) q then c else mem q)
unfolding fill_chars
fill_chars_lem p c zero i mem q = ground arith
fill_chars_lem p c (suc left) i mem q =
    fill_chars_lem p c left (i + 1) (update mem (p + i) c) q ∙ ground arith

fill_dwords_lem :
    (p c left i : ℕ) (mem : Memory) (q : ℕ)
    → fill_dwords p c left i mem q
      ≡ (if ranges (p + 4 * i) (p + 4 * i + 4 * left) q then c else mem q)
unfolding fill_dwords
fill_dwords_lem p c zero i mem q = ground arith
fill_dwords_lem p c (suc left) i mem q =
    fill_dwords_lem p c left (i + 1) (write_dword mem (p + 4 * i) c c c c) q ∙ ground arith

-- `memset` sets exactly the `num` bytes from `p` on to the low byte of the value.
pub memset_lem :
    (p value num : ℕ) (mem : Memory) (q : ℕ)
    → memset p value num mem q ≡ (if ranges p (p + num) q then value % 256 else mem q)
unfolding memset
memset_lem p value num mem q = ground (
  arith,
  fill_chars_lem p (value % 256) (num - 4 * (num / 4)) (4 * (num / 4))
      (fill_dwords p (value % 256) (num / 4) 0 mem) q,
  fill_dwords_lem p (value % 256) (num / 4) 0 mem q,
)

-- The two regions of `num` bytes do not overlap.
abbrev pub Separate : ℕ → ℕ → ℕ → Type 0
Separate dst src num = (src + num ≤ dst) ⊎ (dst + num ≤ src)

copy_chars_lem :
    (dst src num left i : ℕ) (mem : Memory) (q : ℕ)
    → Separate dst src num
    → i + left ≤ num
    → copy_chars dst src left i mem q
      ≡ (if ranges (dst + i) (dst + i + left) q then mem (src + (q - dst)) else mem q)
unfolding copy_chars
copy_chars_lem dst src num zero i mem q s h = ground arith
copy_chars_lem dst src num (suc left) i mem q s h =
    copy_chars_lem dst src num left (i + 1) (update mem (dst + i) (mem (src + i))) q s (omega arith)
    ∙ ground arith

copy_dwords_lem :
    (dst src num left i : ℕ) (mem : Memory) (q : ℕ)
    → Separate dst src num
    → 4 * i + 4 * left ≤ num
    → copy_dwords dst src left i mem q
      ≡ (if ranges (dst + 4 * i) (dst + 4 * i + 4 * left) q then mem (src + (q - dst)) else mem q)
unfolding copy_dwords
copy_dwords_lem dst src num zero i mem q s h = ground arith
copy_dwords_lem dst src num (suc left) i mem q s h =
    let a = src + 4 * i in
    copy_dwords_lem dst src num left (i + 1)
      (write_dword mem (dst + 4 * i) (mem a) (mem (a + 1)) (mem (a + 2)) (mem (a + 3))) q s
      (omega arith)
    ∙ ground arith

-- Between regions that do not overlap, `memcpy` copies exactly the `num` bytes.
pub memcpy_lem :
    (dst src num : ℕ) (mem : Memory) (q : ℕ)
    → Separate dst src num
    → memcpy dst src num mem q ≡ (if ranges dst (dst + num) q then mem (src + (q - dst)) else mem q)
unfolding memcpy
memcpy_lem dst src num mem q s = ground (
  arith,
  copy_chars_lem dst src num (num - 4 * (num / 4)) (4 * (num / 4))
      (copy_dwords dst src (num / 4) 0 mem) q s,
  copy_dwords_lem dst src num (num / 4) 0 mem q s,
  copy_dwords_lem dst src num (num / 4) 0 mem (src + (q - dst)) s,
)
