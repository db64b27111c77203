-- ===== src/Bitset/Search.antt =====
-- The search of `lock_next_bit` (include/std/bitset.h) against a scan of the bits one by one.
use shipwreck.Base.{
  ℕ, zero, suc, ◌+◌, ◌-◌, ◌*◌, ◌/◌, ◌%◌, ◌^◌, ◌<◌, ◌≤◌, ◌≡◌, ◌∙◌, refl, sym, ap, ap₂, true, false,
  ◌==◌, leb, if◌then◌else◌, arith, Bool-cases, inl, inr, ==_iff, Option, none, some,
}
use shipwreck.Base.Int.{ℤ, pos, negsuc}
use shipwreck.Base.Bits.{bit, bit-complement, bit-ones, flip}
use native.Mathlib.Nat.{pow-suc, mod-eq_of_lt}
use native.Mathlib.Decide.{dec_le}
use Prim.Native.Nat.{bit_or}
use shipwreck.Bitset.{
  BitAllocator, Others, all_set, complement, bitscan_from, bitscan_forward, try_bits, answer_or,
  lock_from, lock_next_bit, write_block,
}
use shipwreck.Bitset.Marks.{marked}

-- No other thread touches the set.
abbrev pub alone : Others
alone i j a = a

-- The words are 32 bits wide and hold at least the bits of the set.
pub record Sized (a : BitAllocator) : Type 0 where
  pub words : (i : ℕ) → a.bitset_blocks i < 2 ^ 32
  pub room : a.max_bits ≤ a.max_blocks * 32

-- The first clear bit among the `n` bits from `x` on.
abbrev pub first_clear : ℕ → ℕ → BitAllocator → Option ℕ
first_clear zero x a = none
first_clear (suc n) x a = if marked a x then first_clear n (x + 1) a else some x

-- The answer for that bit, and the set with that bit set.
abbrev pub taken : Option ℕ → BitAllocator → ℤ × BitAllocator
taken none a = (negsuc 0, a)
taken (some x) a =
    (pos x, write_block a (x / 32) (bit_or (a.bitset_blocks (x / 32)) (2 ^ (x % 32))))

-- What holds of the digits above the lowest holds of all when the lowest is 0.
below :
    (x k n : ℕ)
    → k < suc n
    → (x % 2 == 1) ≡ false
    → ((j : ℕ) → j < n → bit j (x / 2) ≡ false)
    → bit k x ≡ false
below x zero n l e c = e
below x (suc k) n l e c = c k (omega arith)

bitscan_lem :
    (w x : ℕ)
    → x < 2 ^ w
    → 0 < x
    → (bitscan_from w x < w)
      × (bit (bitscan_from w x) x ≡ true)
      × ((k : ℕ) → k < bitscan_from w x → bit k x ≡ false)
unfolding bitscan_from
bitscan_lem zero x lt h = absurd (omega arith)
bitscan_lem (suc w) x lt h = elim (Bool-cases (x % 2 == 1)) [
  | inl e ↦ rw e (omega arith, e, λ k l. absurd (omega arith))
  | inr e ↦
      let (a, b, c) = bitscan_lem w (x / 2) (omega (arith, pow-suc 2 w)) (ground (arith, e)) in
      rw e (omega arith, b, λ k l. below x k (bitscan_from w (x / 2)) l e c)
]

pub first_clear-skip :
    (d : ℕ) {m x y : ℕ} (n : ℕ) (a : BitAllocator)
    → ((k : ℕ) → x ≤ k → k < x + d → marked a k ≡ true)
    → m ≡ d + n
    → y ≡ x + d
    → first_clear m x a ≡ first_clear n y a
first_clear-skip zero {m = m} {x = x} {y = y} n a h p q =
    let e : m ≡ n = omega arith in let f : x ≡ y = omega arith in ap₂ (λ s t. first_clear s t a) e f
first_clear-skip (suc d) {m = zero} n a h p q = absurd (omega arith)
first_clear-skip (suc d) {m = suc m} {x = x} n a h p q = rw (h x (omega arith) (omega arith)) (
    let next : (k : ℕ) → x + 1 ≤ k → k < x + 1 + d → marked a k ≡ true =
      λ k lo hi. h k (omega arith) (omega arith) in
    first_clear-skip d {m = m} {x = x + 1} n a next (omega arith) (omega arith))

pub first_clear-at :
    (d : ℕ) {m x y : ℕ} (a : BitAllocator)
    → ((k : ℕ) → x ≤ k → k < x + d → marked a k ≡ true)
    → marked a y ≡ false
    → d < m
    → y ≡ x + d
    → first_clear m x a ≡ some y
first_clear-at d {m = m} {y = y} a h c lt q =
    first_clear-skip d (suc (m - suc d)) a h (omega arith) q ∙ rw c

pub first_clear-full :
    (m : ℕ) {x : ℕ} (a : BitAllocator)
    → ((k : ℕ) → x ≤ k → k < x + m → marked a k ≡ true)
    → first_clear m x a ≡ none
first_clear-full m {x = x} a h = first_clear-skip m {y = x + m} 0 a h (omega arith) refl

==_refl : (n : ℕ) → (n == n) ≡ true
==_refl n = ground arith

-- The first round for a word settles it when no other thread interferes.
try_bits-alone :
    (left i : ℕ) (a : BitAllocator)
    → try_bits (suc left) 0 alone i (a.bitset_blocks (i % a.max_blocks)) a ≡ (
        let b = i % a.max_blocks in
        let bits = a.bitset_blocks b in
        let j = bitscan_forward (complement bits) in
        if bits == all_set
        then (none, a)
        else if leb a.max_bits (j + i * 32)
        then (some (negsuc 0), a)
        else (some (pos (j + b * 32)), write_block a b (bit_or bits (2 ^ j))))
unfolding try_bits
try_bits-alone left i a = rw (==_refl (a.bitset_blocks (i % a.max_blocks)))

-- What the bits of a word say of the bit that is looked at first.
pub free_bit :
    (bits : ℕ)
    → bits < 2 ^ 32
    → (bits == all_set) ≡ false
    → (let j = bitscan_forward (complement bits) in
        (j < 32) × (bit j bits ≡ false) × ((k : ℕ) → k < j → bit k bits ≡ true))
unfolding bitscan_forward
free_bit bits lt e =
    let (a, b, c) = bitscan_lem 32 (complement bits) (omega arith) (ground (arith, e)) in
    let unflip : (k : ℕ) → k < 32 → bit k (complement bits) ≡ flip (bit k bits) =
      λ k h. bit-complement 32 k bits h lt in
    (
      a,
      ground (arith, b, unflip (bitscan_from 32 (complement bits)) a),
      λ k h. ground (arith, c k h, unflip k (omega arith)),
    )

module _ (a : BitAllocator) (s : Sized a) where
  marked_word :
      (i k : ℕ)
      → i < a.max_blocks
      → k / 32 ≡ i
      → marked a k ≡ bit (k % 32) (a.bitset_blocks (i % a.max_blocks))
  marked_word i k lt e = ap (λ t. bit (k % 32) (a.bitset_blocks t)) (e ∙ sym (mod-eq_of_lt lt))

  -- A full word is passed over.
  next_word :
      (i : ℕ)
      → (a.bitset_blocks (i % a.max_blocks) == all_set) ≡ true
      → first_clear (a.max_bits - i * 32) (i * 32) a
        ≡ first_clear (a.max_bits - (i + 1) * 32) ((i + 1) * 32) a
  next_word i e =
      let all : (k : ℕ) → i * 32 ≤ k → k < i * 32 + 32 → k < a.max_bits → marked a k ≡ true =
        λ k lo hi lt.
          marked_word i k (omega (arith, s.room)) (omega arith)
          ∙ ap (bit (k % 32)) ((==_iff _ _).0 e)
          ∙ bit-ones (k % 32) 32
          ∙ ground arith in
      elim (dec_le a.max_bits (i * 32 + 32)) [
        | yes h ↦
            first_clear-full (a.max_bits - i * 32) a
              (λ k lo hi. all k lo (omega arith) (omega arith))
            ∙ sym (first_clear-full (a.max_bits - (i + 1) * 32) a (λ k lo hi. absurd (omega arith)))
        | no h ↦
            first_clear-skip 32 (a.max_bits - (i + 1) * 32) a (λ k lo hi. all k lo hi (omega arith))
              (omega arith) (omega arith)
      ]

  abbrev word : ℕ → ℕ
  word i = a.bitset_blocks (i % a.max_blocks)

  abbrev first_free : ℕ → ℕ
  first_free i = bitscan_forward (complement (word i))

  -- In a word with a free bit, the bits below the lowest free one.
  low_marked :
      (i : ℕ)
      → (word i == all_set) ≡ false
      → (k : ℕ) → i * 32 ≤ k
      → k < i * 32 + first_free i
      → k < a.max_bits
      → marked a k ≡ true
  low_marked i e k lo hi lt =
      let (small, free, low) = free_bit (word i) (s.words (i % a.max_blocks)) e in
      marked_word i k (omega (arith, s.room)) (omega arith) ∙ low (k % 32) (omega arith)

  none_left :
      (i : ℕ)
      → (word i == all_set) ≡ false
      → leb a.max_bits (first_free i + i * 32) ≡ true
      → first_clear (a.max_bits - i * 32) (i * 32) a ≡ none
  none_left i e f =
      let le : a.max_bits ≤ first_free i + i * 32 = ground (arith, f) in
      first_clear-full (a.max_bits - i * 32) a
        (λ k lo hi. low_marked i e k lo (omega arith) (omega arith))

  found_in_word :
      (i : ℕ)
      → (word i == all_set) ≡ false
      → leb a.max_bits (first_free i + i * 32) ≡ false
      → (
        pos (first_free i + i % a.max_blocks * 32),
        write_block a (i % a.max_blocks) (bit_or (word i) (2 ^ first_free i)),
      )
        ≡ taken (first_clear (a.max_bits - i * 32) (i * 32) a) a
  found_in_word i e f =
      let (small, free, low) = free_bit (word i) (s.words (i % a.max_blocks)) e in
      let j : ℕ = first_free i in
      let y : ℕ = i * 32 + j in
      let gt : j + i * 32 < a.max_bits = ground (arith, f) in
      let here : i < a.max_blocks = omega (arith, s.room) in
      let same : i % a.max_blocks ≡ y / 32 = mod-eq_of_lt here ∙ omega arith in
      let place : j ≡ y % 32 = omega arith in
      let clear : marked a y ≡ false =
        marked_word i y here (omega arith) ∙ ap (λ t. bit t (word i)) (sym place) ∙ free in
      let number : j + i % a.max_blocks * 32 ≡ y = omega (arith, mod-eq_of_lt here) in
      ap (λ n. (pos n, write_block a (i % a.max_blocks) (bit_or (word i) (2 ^ j)))) number
      ∙ ap₂ (λ p q. (pos y, write_block a p (bit_or (a.bitset_blocks p) (2 ^ q)))) same place
      ∙ ap (λ o. taken o a)
          (sym (
            first_clear-at j a (λ k lo hi. low_marked i e k lo hi (omega arith)) clear (omega arith)
              refl))

  lock_from-round :
      (left i : ℕ) (o : Option ℤ × BitAllocator)
      → try_bits 32 0 alone i (a.bitset_blocks (i % a.max_blocks)) a ≡ o
      → lock_from (suc left) alone i a ≡ answer_or o.0 (lock_from left alone (i + 1) o.1) o.1
  unfolding lock_from
  lock_from-round left i o e = ap (λ p. answer_or p.0 (lock_from left alone (i + 1) p.1) p.1) e

  lock_from_lem :
      (left i : ℕ)
      → a.max_blocks ≤ i + left
      → lock_from left alone i a ≡ taken (first_clear (a.max_bits - i * 32) (i * 32) a) a
  unfolding lock_from
  lock_from_lem zero i h = let e : a.max_bits - i * 32 ≡ 0 = omega (arith, s.room) in rw e
  lock_from_lem (suc left) i h =
      let bits : ℕ = a.bitset_blocks (i % a.max_blocks) in
      let j : ℕ = bitscan_forward (complement bits) in
      elim (Bool-cases (bits == all_set)) [
        | inl e ↦
            lock_from-round left i (none, a) (try_bits-alone 31 i a ∙ rw e)
            ∙ lock_from_lem left (i + 1) (omega arith)
            ∙ ap (λ o. taken o a) (sym (next_word i e))
        | inr e ↦ elim (Bool-cases (leb a.max_bits (j + i * 32))) [
          | inl f ↦
              lock_from-round left i (some (negsuc 0), a) (try_bits-alone 31 i a ∙ rw (e, f))
              ∙ ap (λ o. taken o a) (sym (none_left i e f))
          | inr f ↦
              lock_from-round left i
                (
                  some (pos (j + i % a.max_blocks * 32)),
                  write_block a (i % a.max_blocks) (bit_or bits (2 ^ j)),
                )
                (try_bits-alone 31 i a ∙ rw (e, f))
              ∙ found_in_word i e f
        ]
      ]

-- With no other thread at work, in a set whose words are 32 bits wide and hold its bits,
-- `lock_next_bit` from word `start` on answers the first clear bit from bit 32 * start on and sets
-- it, and answers -1 and changes nothing when those bits are all set: the words before `start` are
-- never used.
pub lock_next_bit_lem :
    (start : ℕ) (a : BitAllocator)
    → Sized a
    → lock_next_bit alone start a ≡ taken (first_clear (a.max_bits - start * 32) (start * 32) a) a
unfolding lock_next_bit
lock_next_bit_lem start a s = lock_from_lem a s a.max_blocks start (omega arith)
