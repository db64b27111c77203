-- ===== src/CString.antt =====
-- src/system/string.cpp: the C string and memory routines. Memory is a function from addresses to
-- bytes; a pointer is an address, and an `int` or `uint` result is a number below 2 ^ 32.
pub mod Compare
pub mod Copy
use shipwreck.Base.{
  ℕ, zero, suc, ◌+◌, ◌-◌, ◌*◌, ◌/◌, ◌%◌, ◌^◌, Bool, true, false, Option, none, some, ◌==◌, ltb,
  if◌then◌else◌, update,
}

abbrev pub Memory : Type 0
Memory = ℕ → ℕ

-- The loop of `strnlen` from index `i`, with `left` rounds to go.
unfoldable pub strnlen_from : Memory → ℕ → ℕ → ℕ → ℕ
strnlen_from mem s zero i = i
strnlen_from mem s (suc left) i =
    let rest = strnlen_from mem s left (i + 1) in if mem (s + i) == 0 then i else rest

unfoldable pub strnlen : Memory → ℕ → ℕ → ℕ
unfolding strnlen_from
strnlen mem s len = strnlen_from mem s len 0

-- `((uint *) p)[i]`, little endian.
abbrev pub dword : Memory → ℕ → ℕ → ℕ
dword mem p i =
    mem (p + 4 * i)
    + 256 * mem (p + (4 * i + 1))
    + 65536 * mem (p + (4 * i + 2))
    + 16777216 * mem (p + (4 * i + 3))

abbrev pub sub32 : ℕ → ℕ → ℕ
sub32 a b = (a + 2 ^ 32 - b) % 2 ^ 32

-- A `char`, which has a sign, as an `int`.
abbrev pub char_to_int : ℕ → ℕ
char_to_int c = if ltb c 128 then c else c + (2 ^ 32 - 256)

-- The loop over 4 characters at a time: the first difference that is not 0.
unfoldable pub compare_dwords : Memory → ℕ → ℕ → ℕ → ℕ → ℕ
compare_dwords mem a b zero i = 0
compare_dwords mem a b (suc left) i =
    let diff = sub32 (dword mem a i) (dword mem b i) in
    let rest = compare_dwords mem a b left (i + 1) in if diff == 0 then rest else diff

-- The loop over the remaining characters.
unfoldable pub compare_chars : Memory → ℕ → ℕ → ℕ → ℕ → ℕ
compare_chars mem a b zero i = 0
compare_chars mem a b (suc left) i =
    let diff = sub32 (char_to_int (mem (a + i))) (char_to_int (mem (b + i))) in
    let rest = compare_chars mem a b left (i + 1) in
    if diff == 0 then (if mem (a + i) == 0 then 0 else rest) else diff

unfoldable pub strncmp : Memory → ℕ → ℕ → ℕ → ℕ
unfolding strnlen compare_dwords compare_chars
strncmp mem a b len =
    let dwords = strnlen mem a len / 4 in
    let diff = compare_dwords mem a b dwords 0 in
    if diff == 0 then compare_chars mem a b (len - 4 * dwords) (4 * dwords) else diff

-- `((uint *) dst)[i] = …`, the four bytes of a dword.
abbrev pub write_dword : Memory → ℕ → ℕ → ℕ → ℕ → ℕ → Memory
write_dword mem p b0 b1 b2 b3 =
    update (update (update (update mem p b0) (p + 1) b1) (p + 2) b2) (p + 3) b3

-- A whole dword is read before it is written.
unfoldable pub copy_dwords : ℕ → ℕ → ℕ → ℕ → Memory → Memory
copy_dwords dst src zero i mem = mem
copy_dwords dst src (suc left) i mem =
    let s = src + 4 * i in
    copy_dwords dst src left (i + 1)
      (write_dword mem (dst + 4 * i) (mem s) (mem (s + 1)) (mem (s + 2)) (mem (s + 3)))

unfoldable pub copy_chars : ℕ → ℕ → ℕ → ℕ → Memory → Memory
copy_chars dst src zero i mem = mem
copy_chars dst src (suc left) i mem =
    copy_chars dst src left (i + 1) (update mem (dst + i) (mem (src + i)))

unfoldable pub memcpy : ℕ → ℕ → ℕ → Memory → Memory
unfolding copy_dwords copy_chars
memcpy dst src num mem =
    let dwords = num / 4 in
    copy_chars dst src (num - 4 * dwords) (4 * dwords) (copy_dwords dst src dwords 0 mem)

unfoldable pub fill_dwords : ℕ → ℕ → ℕ → ℕ → Memory → Memory
fill_dwords p c zero i mem = mem
fill_dwords p c (suc left) i mem =
    fill_dwords p c left (i + 1) (write_dword mem (p + 4 * i) c c c c)

unfoldable pub fill_chars : ℕ → ℕ → ℕ → ℕ → Memory → Memory
fill_chars p c zero i mem = mem
fill_chars p c (suc left) i mem = fill_chars p c left (i + 1) (update mem (p + i) c)

-- The four bytes of `ch4` are `value & 0xFF`, and so is `(char) value`.
unfoldable pub memset : ℕ → ℕ → ℕ → Memory → Memory
unfolding fill_dwords fill_chars
memset p value num mem =
    let c = value % 256 in
    let dwords = num / 4 in
    fill_chars p c (num - 4 * dwords) (4 * dwords) (fill_dwords p c dwords 0 mem)
