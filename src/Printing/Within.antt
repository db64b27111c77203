-- ===== src/Printing/Within.antt =====
-- No `sprint` of include/std/string.h leaves the bytes that it is given.
use shipwreck.Base.{
  ℕ, zero, suc, ◌+◌, ◌≤◌, ◌≡◌, refl, ◌∙◌, false, Bool-cases, inl, inr, List, [], ◌∷◌, ◌==◌, update,
  arith,
}
use shipwreck.Base.Int.{ℤ, pos, negsuc}
use shipwreck.CString.{Memory}
use shipwreck.CString.Copy.{ranges}
use shipwreck.Printing.{
  Output, Printed, Arg, char, string, pointer, uint, int, hex, printed, print_then, sprint_char,
  copy_string, sprint_string, digits_of, print_digits, sprint_radix, sprint_int, sprint_prefixed,
  sprint_arg, sprint,
}
use shipwreck.Printing.Radix.{print_digits-outside}

-- The count says how far `dst` has moved and how much of `len` has been used, and only the bytes that
-- it has moved over have changed.
abbrev pub Within : Output → Printed → Type 0
Within o r =
    (r.out.dst ≡ o.dst + r.count)
    × (r.out.len + r.count ≡ o.len)
    × ((q : ℕ) → ranges o.dst (o.dst + r.count) q ≡ false → r.out.mem q ≡ o.mem q)

nothing-Within : (o : Output) → Within o (printed o 0)
nothing-Within o = (omega arith, omega arith, λ q h. refl)

print_then-Within :
    (o : Output) (p : Printed) (next : Output → Printed)
    → Within o p
    → ((o' : Output) → Within o' (next o'))
    → Within o (print_then p next)
print_then-Within o p next w f =
    let v = f p.out in
    (omega arith, omega arith, λ q h. v.2 q (ground (arith, h)) ∙ w.2 q (ground (arith, h)))

sprint_char-Within : (o : Output) (c : ℕ) → Within o (sprint_char o c)
unfolding sprint_char
sprint_char-Within o c = elim (Bool-cases (o.len == 0)) [
  | inl z ↦ rw z (nothing-Within o)
  | inr z ↦ rw z (refl, ground (arith, z), λ q h. ground (arith, h))
]

copy_string-index :
    (dst str left i : ℕ) (mem : Memory)
    → let r = copy_string dst str left i mem in (i ≤ r.1) × (r.1 ≤ i + left)
unfolding copy_string
copy_string-index dst str zero i mem = ground arith
copy_string-index dst str (suc left) i mem =
    ground (arith, copy_string-index dst str left (i + 1) (update mem (dst + i) (mem (str + i))))

copy_string-outside :
    (dst str left i : ℕ) (mem : Memory) (q : ℕ)
    → let r = copy_string dst str left i mem in ranges dst (dst + r.1) q ≡ false → r.0 q ≡ mem q
unfolding copy_string
copy_string-outside dst str zero i mem q h = refl
copy_string-outside dst str (suc left) i mem q h = elim (Bool-cases (mem (str + i) == 0)) [
  | inl z ↦ rw z refl
  | inr z ↦
      let m = update mem (dst + i) (mem (str + i)) in
      let k = copy_string-index dst str left (i + 1) m in
      rw z (
        copy_string-outside dst str left (i + 1) m q (ground (arith, h, z))
        ∙ ground (arith, h, z, k))
]

sprint_string-Within : (o : Output) (str : ℕ) → Within o (sprint_string o str)
unfolding sprint_string
sprint_string-Within o str =
    let k = copy_string-index o.dst str o.len 0 o.mem in
    (refl, omega (arith, k.1), copy_string-outside o.dst str o.len 0 o.mem)

sprint_radix-Within : (o : Output) (num radix : ℕ) → Within o (sprint_radix o num radix)
unfolding sprint_radix print_digits
sprint_radix-Within o num radix = elim (Bool-cases (o.len == 0)) [
  | inl z ↦ rw z (nothing-Within o)
  | inr z ↦ rw z (refl, omega arith, print_digits-outside o (digits_of radix 32 num))
]

sprint_int-Within : (o : Output) (n : ℤ) → Within o (sprint_int o n)
unfolding sprint_int
sprint_int-Within o (pos n) = sprint_radix-Within o n 10
sprint_int-Within o (negsuc n) =
    print_then-Within o (sprint_char o b'-') _ (sprint_char-Within o b'-')
      (λ p. sprint_radix-Within p (n + 1) 10)

sprint_prefixed-Within : (ox : ℕ) (o : Output) (num : ℕ) → Within o (sprint_prefixed ox o num)
unfolding sprint_prefixed
sprint_prefixed-Within ox o num = elim (Bool-cases (o.len == 0)) [
  | inl z ↦ rw z (nothing-Within o)
  | inr z ↦ rw z (
      print_then-Within o (sprint_string o ox) _ (sprint_string-Within o ox)
        (λ p. sprint_radix-Within p num 16))
]

sprint_arg-Within : (ox : ℕ) (o : Output) (a : Arg) → Within o (sprint_arg ox o a)
unfolding sprint_arg
sprint_arg-Within ox o (char c) = sprint_char-Within o c
sprint_arg-Within ox o (string s) = sprint_string-Within o s
sprint_arg-Within ox o (pointer p) = sprint_radix-Within o p 16
sprint_arg-Within ox o (uint n) = sprint_radix-Within o n 10
sprint_arg-Within ox o (int n) = sprint_int-Within o n
sprint_arg-Within ox o (hex n) = sprint_prefixed-Within ox o n

-- Whatever arguments are printed, each of any type: all of it stays within the `len` bytes at `dst`.
-- The sum that `sprint` returns is how far `dst` has moved and what is gone from `len`, and the only
-- bytes that change are those that `dst` has moved over.
pub sprint-Within : (ox : ℕ) (o : Output) (args : List Arg) → Within o (sprint ox o args)
unfolding sprint
sprint-Within ox o [] = nothing-Within o
sprint-Within ox o (first ∷ rest) =
    print_then-Within o (sprint_arg ox o first) _ (sprint_arg-Within ox o first)
      (λ p. sprint-Within ox p rest)
