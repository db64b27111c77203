-- ===== src/Tests/Numbers.antt =====
-- Printing (Printing.antt): a hexadecimal number where there is room for it, and one that is cut.
use shipwreck.Base.{ℕ, ◌+◌, ◌^◌, ◌%◌, ◌<◌, ◌≡◌, refl, false, [], ◌∷◌, arith, if◌then◌else◌, ◌==◌}
use shipwreck.Base.Int.{negsuc}
use shipwreck.CString.{Memory}
use shipwreck.CString.Copy.{ranges}
use shipwreck.Printing.{
  Output, string, int, hex, sprint, sprint_radix, sprint_arg, sprint_char, sprint_int, print_digits,
  put_digits, digits_of,
}
use shipwreck.Printing.Radix.{read_number, sprint_radix-read}
use shipwreck.Printing.Within.{Within, sprint-Within}

-- The string "0x" at 100.
abbrev strings : Memory
strings p = if p == 100 then b'0' else if p == 101 then b'x' else 0

-- 8 bytes at 200.
abbrev room : Output
room = record { mem = strings; dst = 200; len = 8 }

-- -12 is printed as three characters.
sprint-twelve : (sprint 100 room (int (negsuc 11) ∷ [])).count ≡ 3
unfolding sprint sprint_arg sprint_int sprint_char sprint_radix print_digits digits_of
sprint-twelve = refl

-- Of 123456789 in 8 bytes the first digit is missing.
sprint_radix-cut : read_number 10 (sprint_radix room 123456789 10).out.mem 200 8 ≡ 23456789
unfolding sprint_radix print_digits digits_of put_digits read_number
sprint_radix-cut = refl

sprint_radix-read_example :
    let r = sprint_radix room 48879 16 in
    (read_number 16 r.out.mem room.dst r.count ≡ 48879 % 16 ^ room.len)
    × (48879 < 16 ^ room.len → read_number 16 r.out.mem room.dst r.count ≡ 48879)
    × (r.out.dst ≡ room.dst + r.count)
    × (r.out.len + r.count ≡ room.len)
    × ((q : ℕ) → ranges room.dst (room.dst + r.count) q ≡ false → r.out.mem q ≡ room.mem q)
sprint_radix-read_example =
    sprint_radix-read room 48879 16 (omega arith) (omega arith) (omega arith) (omega arith)

sprint-Within_example :
    Within room (sprint 100 room (string 100 ∷ int (negsuc 11) ∷ hex 48879 ∷ []))
sprint-Within_example = sprint-Within 100 room (string 100 ∷ int (negsuc 11) ∷ hex 48879 ∷ [])
