-- ===== src/Printing.antt =====
-- src/include/std/string.h: the `sprint` functions, which print into the `len` bytes at `dst`.
pub mod Radix
pub mod Within
use shipwreck.Base.{
  ℕ, zero, suc, ◌+◌, ◌-◌, ◌/◌, ◌%◌, Bool, true, false, List, [], ◌∷◌, min, ◌==◌, if◌then◌else◌,
  length, get_or, update,
}
use shipwreck.Base.Int.{ℤ, pos, negsuc}
use shipwreck.CString.{Memory}

-- The references `dst` and `len`, and the memory. Nothing makes `len` negative, and a `len` that
-- is prints what 0 does.
pub record Output : Type 0 where
  pub mem : Memory
  pub dst : ℕ
  pub len : ℕ

-- What a `sprint` leaves, and the `int` that it returns.
pub record Printed : Type 0 where
  pub out : Output
  pub count : ℕ

abbrev pub printed : Output → ℕ → Printed
printed o n = record { out = o; count = n }

-- `n` bytes have been stored at `dst`.
abbrev pub advance : Output → Memory → ℕ → Printed
advance o mem n = printed (record { mem = mem; dst = o.dst + n; len = o.len - n }) n

unfoldable pub sprint_char : Output → ℕ → Printed
sprint_char o c = if o.len == 0 then printed o 0 else advance o (update o.mem o.dst c) 1

-- The loop of `sprint(dst, len, str)` from index `i`, and the index at which it stops.
unfoldable pub copy_string : ℕ → ℕ → ℕ → ℕ → Memory → Memory × ℕ
copy_string dst str zero i mem = (mem, i)
copy_string dst str (suc left) i mem =
    let rest = copy_string dst str left (i + 1) (update mem (dst + i) (mem (str + i))) in
    if mem (str + i) == 0 then (mem, i) else rest

unfoldable pub sprint_string : Output → ℕ → Printed
sprint_string o str = let r = copy_string o.dst str o.len 0 o.mem in advance o r.0 r.1

abbrev pub radix_digits : List ℕ
radix_digits =
    b'0' ∷ b'1' ∷ b'2' ∷ b'3' ∷ b'4' ∷ b'5' ∷ b'6' ∷ b'7' ∷ b'8' ∷ b'9' ∷ b'A' ∷ b'B' ∷ b'C' ∷ b'D'
    ∷ b'E' ∷ b'F' ∷ []

-- What the first loop of `_sprint_radix` puts in `tmp_str`, the lowest digit first; `left` is the
-- room that is left there.
unfoldable pub digits_of : ℕ → ℕ → ℕ → List ℕ
digits_of radix zero num = []
digits_of radix (suc left) num =
    let rest = digits_of radix left (num / radix) in
    get_or radix_digits (num % radix) 0 ∷ (if num / radix == 0 then [] else rest)

-- The second loop: `dst[i] = tmp_str[digits_printed - i - 1]`.
unfoldable pub put_digits : List ℕ → ℕ → ℕ → ℕ → ℕ → Memory → Memory
put_digits tmp_str digits_printed dst zero i mem = mem
put_digits tmp_str digits_printed dst (suc left) i mem =
    put_digits tmp_str digits_printed dst left (i + 1)
      (update mem (dst + i) (get_or tmp_str (digits_printed - i - 1) 0))

-- `_sprint_radix` from the digits in `tmp_str` on.
unfoldable pub print_digits : Output → List ℕ → Printed
print_digits o tmp_str =
    let digits_printed = min o.len (length tmp_str) in
    advance o (put_digits tmp_str digits_printed o.dst digits_printed 0 o.mem) digits_printed

unfoldable pub sprint_radix : Output → ℕ → ℕ → Printed
sprint_radix o num radix =
    if o.len == 0 then printed o 0 else print_digits o (digits_of radix 32 num)

abbrev pub sprint_dec : Output → ℕ → Printed
sprint_dec o num = sprint_radix o num 10

abbrev pub sprint_hex : Output → ℕ → Printed
sprint_hex o num = sprint_radix o num 16

-- A second part is printed behind a first one.
abbrev pub print_then : Printed → (Output → Printed) → Printed
print_then p next = let q = next p.out in printed q.out (p.count + q.count)

-- `-num` of an `int` is positive as a `uint`.
unfoldable pub sprint_int : Output → ℤ → Printed
sprint_int o (pos n) = sprint_dec o n
sprint_int o (negsuc n) = print_then (sprint_char o b'-') (λ p. sprint_dec p (n + 1))

-- The string "0x" is stored at the address `ox`.
unfoldable pub sprint_prefixed : ℕ → Output → ℕ → Printed
sprint_prefixed ox o num =
    if o.len == 0 then printed o 0 else print_then (sprint_string o ox) (λ p. sprint_hex p num)

-- The types that `sprint` is overloaded for; the short integers and `uchar` are converted to these.
pub data Arg : Type 0 where
  char : ℕ → Arg
  string : ℕ → Arg
  pointer : ℕ → Arg
  uint : ℕ → Arg
  int : ℤ → Arg
  hex : ℕ → Arg

unfoldable pub sprint_arg : ℕ → Output → Arg → Printed
sprint_arg ox o (char c) = sprint_char o c
sprint_arg ox o (string s) = sprint_string o s
sprint_arg ox o (pointer p) = sprint_hex o p
sprint_arg ox o (uint n) = sprint_dec o n
sprint_arg ox o (int n) = sprint_int o n
sprint_arg ox o (hex n) = sprint_prefixed ox o n

unfoldable pub sprint : ℕ → Output → List Arg → Printed
sprint ox o [] = printed o 0
sprint ox o (first ∷ rest) = print_then (sprint_arg ox o first) (λ p. sprint ox p rest)
