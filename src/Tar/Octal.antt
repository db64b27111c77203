-- ===== src/Tar/Octal.antt =====
-- `TarHeader::parse_octal` of devices/tar.h reads back what a tar header writes.
use native.Mathlib.Nat.{pow-suc}
use mathlib.Core.List.{append_assoc}
use shipwreck.Base.{
  ℕ, zero, suc, ◌+◌, ◌*◌, ◌/◌, ◌%◌, ◌^◌, ◌<◌, ◌≡◌, refl, ap, ◌∙◌, List, [], ◌∷◌, ◌++◌, arith, leb,
  ◌&&◌, true, false,
}
use shipwreck.Tar.{parse_octal_from, parse_octal}

-- The number in `k` octal digits, the highest first, as a header holds a size.
pub octal : ℕ → ℕ → List ℕ
octal zero n = []
octal (suc k) n = octal k (n / 8) ++ (b'0' + n % 8) ∷ []

-- What follows the digits: the end of the field, or a character that is no decimal digit.
abbrev pub Ends : List ℕ → Type 0
Ends [] = Unit
Ends (c ∷ cs) = (leb b'0' c && leb c b'9') ≡ false

digit_step :
    (acc d : ℕ) (rest : List ℕ) (n : ℕ)
    → d < 8
    → n ≡ acc * 8 + d
    → n < 2 ^ 32
    → parse_octal_from acc ((b'0' + d) ∷ rest) ≡ parse_octal_from n rest
unfolding parse_octal_from
digit_step acc d rest n h e lt = rw digit (ap (λ a. parse_octal_from a rest) (omega arith))
  where
    digit : (leb b'0' (b'0' + d) && leb (b'0' + d) b'9') ≡ true
    digit = ground arith

parse_octal_from-octal :
    (k n acc : ℕ) (rest : List ℕ)
    → n < 8 ^ k
    → acc * 8 ^ k + n < 2 ^ 32
    → parse_octal_from acc (octal k n ++ rest) ≡ parse_octal_from (acc * 8 ^ k + n) rest
unfolding octal
parse_octal_from-octal zero n acc rest h lt = ap (λ a. parse_octal_from a rest) (omega arith)
parse_octal_from-octal (suc k) n acc rest h lt =
    ap (parse_octal_from acc) (append_assoc (octal k (n / 8)) _ rest)
    ∙ parse_octal_from-octal k (n / 8) acc ((b'0' + n % 8) ∷ rest) (omega (arith, pow-suc 8 k))
        (omega (arith, scaled))
    ∙ digit_step (acc * 8 ^ k + n / 8) (n % 8) rest (acc * 8 ^ suc k + n) (omega arith)
        (omega (arith, scaled)) lt
  where
    scaled : acc * 8 ^ suc k ≡ acc * (8 ^ k * 8)
    scaled = ap (λ t. acc * t) (pow-suc 8 k)

-- A number below 2 ^ 32 in so many octal digits as it needs or more is read back, whatever stands
-- behind the character that ends them.
pub parse_octal-octal :
    (k n : ℕ) (rest : List ℕ)
    → n < 8 ^ k
    → n < 2 ^ 32
    → Ends rest
    → parse_octal (octal k n ++ rest) ≡ n
unfolding parse_octal parse_octal_from
parse_octal-octal k n rest h lt e =
    parse_octal_from-octal k n 0 rest h (omega arith) ∙ stop rest e ∙ omega arith
  where
    stop : (r : List ℕ) → Ends r → parse_octal_from (0 * 8 ^ k + n) r ≡ 0 * 8 ^ k + n
    stop [] e = refl
    stop (c ∷ cs) e = rw e
