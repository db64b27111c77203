-- ===== src/Base/Bits.antt =====
-- The binary digits of native numbers, one by one: what `&`, `|`, `~` and shifts do at each.
use Prim.Native.Nat.{
  ℕ, zero, suc, ◌+◌, ◌-◌, ◌*◌, ◌/◌, ◌%◌, ◌^◌, ◌≤◌, ◌<◌, min, max, digits, bit_and, bit_or,
  bit_and-bitwise, bit_or-bitwise,
}
use mathlib.Core.Path.{◌≡◌, refl, ap, ◌∙◌}
use mathlib.Core.Bool.{Bool, true, false, ◌&&◌, ◌||◌}
use native.Mathlib.Omega.{arith}
use native.Mathlib.Nat.{pow-suc, one-le-pow}
use shipwreck.Base.Tests.{◌==◌, ltb, if◌then◌else◌, ==_iff}

-- Digit `k`, the lowest being 0.
abbrev pub bit : ℕ → ℕ → Bool
bit zero a = a % 2 == 1
bit (suc k) a = bit k (a / 2)

-- The fuel of the native operations does not matter once it is enough.
enough_fuel :
    (z : ℕ → ℕ) (f : ℕ → ℕ → ℕ) (n m a b : ℕ) → a ≤ n → a ≤ m → digits z f n a b ≡ digits z f m a b
enough_fuel z f zero zero a b h k = refl
enough_fuel z f zero (suc m) zero b h k = refl
enough_fuel z f (suc n) zero zero b h k = refl
enough_fuel z f zero (suc m) (suc a) b h k = absurd (omega arith)
enough_fuel z f (suc n) zero (suc a) b h k = absurd (omega arith)
enough_fuel z f (suc n) (suc m) zero b h k = refl
enough_fuel z f (suc n) (suc m) (suc a) b h k =
    ap (λ t. t * 2 + f (suc a % 2) (b % 2))
      (enough_fuel z f n m (suc a / 2) (b / 2) (omega arith) (omega arith))

pub or_halves : (a b : ℕ) → bit_or a b ≡ bit_or (a / 2) (b / 2) * 2 + max (a % 2) (b % 2)
or_halves zero b = omega (arith, bit_or-bitwise 0 b, bit_or-bitwise 0 (b / 2))
or_halves (suc a) b = omega (
  arith,
  bit_or-bitwise (suc a) b,
  bit_or-bitwise (suc a / 2) (b / 2),
  enough_fuel (λ y. y) max a (suc a / 2) (suc a / 2) (b / 2) (omega arith) (omega arith),
)

pub and_halves : (a b : ℕ) → bit_and a b ≡ bit_and (a / 2) (b / 2) * 2 + min (a % 2) (b % 2)
and_halves zero b = omega (arith, bit_and-bitwise 0 b, bit_and-bitwise 0 (b / 2))
and_halves (suc a) b = omega (
  arith,
  bit_and-bitwise (suc a) b,
  bit_and-bitwise (suc a / 2) (b / 2),
  enough_fuel (λ y. 0) min a (suc a / 2) (suc a / 2) (b / 2) (omega arith) (omega arith),
)

pub bit-or : (k a b : ℕ) → bit k (bit_or a b) ≡ (bit k a || bit k b)
bit-or zero a b = ground (arith, or_halves a b)
bit-or (suc k) a b =
    ap (bit k) (let e : bit_or a b / 2 ≡ bit_or (a / 2) (b / 2) = omega (arith, or_halves a b) in e)
    ∙ bit-or k (a / 2) (b / 2)

pub bit-and : (k a b : ℕ) → bit k (bit_and a b) ≡ (bit k a && bit k b)
bit-and zero a b = ground (arith, and_halves a b)
bit-and (suc k) a b =
    ap (bit k)
      (let e : bit_and a b / 2 ≡ bit_and (a / 2) (b / 2) = omega (arith, and_halves a b) in e)
    ∙ bit-and k (a / 2) (b / 2)

abbrev pub flip : Bool → Bool
flip b = if b then false else true

pub bit-complement : (w k x : ℕ) → k < w → x < 2 ^ w → bit k (2 ^ w - 1 - x) ≡ flip (bit k x)
bit-complement zero k x h lt = absurd (omega arith)
bit-complement (suc w) zero x h lt = ground (arith, pow-suc 2 w)
bit-complement (suc w) (suc k) x h lt =
    ap (bit k)
      (let e : (2 ^ suc w - 1 - x) / 2 ≡ 2 ^ w - 1 - x / 2 = omega (arith, pow-suc 2 w) in e)
    ∙ bit-complement w k (x / 2) (omega arith) (omega (arith, pow-suc 2 w))

pub bit-zero : (k : ℕ) → bit k 0 ≡ false
bit-zero zero = refl
bit-zero (suc k) = bit-zero k

pub bit-pow : (k j : ℕ) → bit k (2 ^ j) ≡ (k == j)
bit-pow zero zero = refl
bit-pow zero (suc j) = ground (arith, pow-suc 2 j)
bit-pow (suc k) zero = bit-zero k ∙ ground arith
bit-pow (suc k) (suc j) =
    ap (bit k) (let e : 2 ^ suc j / 2 ≡ 2 ^ j = omega (arith, pow-suc 2 j) in e)
    ∙ bit-pow k j
    ∙ ground arith

pub bit-ones : (k n : ℕ) → bit k (2 ^ n - 1) ≡ ltb k n
bit-ones k zero = bit-zero k ∙ ground arith
bit-ones zero (suc n) = ground (arith, pow-suc 2 n, one-le-pow n 2)
bit-ones (suc k) (suc n) =
    ap (bit k) (let e : (2 ^ suc n - 1) / 2 ≡ 2 ^ n - 1 = omega (arith, pow-suc 2 n) in e)
    ∙ bit-ones k n
    ∙ ground arith

-- A number whose digits all are 1.
pub all_ones : (w x : ℕ) → x < 2 ^ w → ((k : ℕ) → k < w → bit k x ≡ true) → x ≡ 2 ^ w - 1
all_ones zero x lt h = omega arith
all_ones (suc w) x lt h =
    let low : x % 2 ≡ 1 = (==_iff (x % 2) 1).0 (h 0 (omega arith)) in
    let high : x / 2 ≡ 2 ^ w - 1 =
      all_ones w (x / 2) (omega (arith, pow-suc 2 w)) (λ k lt. h (suc k) (omega arith)) in
    omega (arith, low, high, pow-suc 2 w)
