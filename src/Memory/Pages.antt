-- ===== src/Memory/Pages.antt =====
-- `lock_next_page` (system/memory.cpp) takes the first free page from a word on.
use shipwreck.Base.{
  ℕ, zero, suc, ◌+◌, ◌-◌, ◌*◌, ◌/◌, ◌%◌, ◌^◌, ◌<◌, ◌≤◌, ◌≡◌, ◌∙◌, ◌⊎◌, inl, inr, refl, sym, ap, ap₂,
  true, false, ◌||◌, Option, none, some, ◌==◌, update, arith, Bool-cases, ==_iff, dec_lt,
  ℕ_discrete, update_ne, update_self,
}
use shipwreck.Base.Bits.{bit, bit-or, bit-pow, bit-ones}
use Prim.Native.Nat.{bit_or}
use shipwreck.Bitset.{
  BitAllocator, all_set, complement, bitscan_forward, lock_block, lock_next_from, lock_next_block,
  unlock_block, write_block,
}
use shipwreck.Bitset.Marks.{marked}
use shipwreck.Bitset.Search.{first_clear, first_clear-at, first_clear-full, free_bit}
use shipwreck.Memory.{take_page, lock_next_page}

-- What the search from word `i` on has found, and what it leaves.
abbrev Found : BitAllocator → ℕ → ℕ → (ℕ × ℕ) × BitAllocator → Type 0
Found a i left ((k, bits), a') =
    ((bits ≡ all_set)
      × ((m : ℕ) → (m < i) ⊎ (i + left ≤ m) ⊎ (a.bitset_blocks m ≡ all_set))
      × ((m : ℕ) → a'.bitset_blocks m ≡ a.bitset_blocks m))
    ⊎ ((i ≤ k)
        × (k < i + left)
        × (bits ≡ a.bitset_blocks k)
        × ((bits == all_set) ≡ false)
        × ((m : ℕ) → (m < i) ⊎ (k ≤ m) ⊎ (a.bitset_blocks m ≡ all_set))
        × ((m : ℕ) → (m ≡ k) ⊎ (a'.bitset_blocks m ≡ a.bitset_blocks m)))

-- Locking a full word changes nothing.
relock :
    (a : BitAllocator) (i m : ℕ)
    → (a.bitset_blocks i == all_set) ≡ true
    → (write_block a i all_set).bitset_blocks m ≡ a.bitset_blocks m
relock a i m e = elim (ℕ_discrete i m) [
  | yes same ↦
      ap (update a.bitset_blocks i all_set) (sym same)
      ∙ update_self a.bitset_blocks i all_set
      ∙ sym ((==_iff _ _).0 e)
      ∙ ap a.bitset_blocks same
  | no other ↦ update_ne a.bitset_blocks i all_set m other
]

-- A search that starts behind a full word.
widen :
    (a : BitAllocator) (i left : ℕ) (res : (ℕ × ℕ) × BitAllocator)
    → (a.bitset_blocks i == all_set) ≡ true
    → Found (write_block a i all_set) (i + 1) left res
    → Found a i (suc left) res
widen a i left ((k, bits), a') e (inl (full, run, same)) = inl (
  full,
  λ m. elim (run m) [
    | inl lt ↦ elim (ℕ_discrete m i) [
      | yes here ↦ inr (inr (ap a.bitset_blocks here ∙ (==_iff _ _).0 e))
      | no other ↦ inl (omega (arith, other))
    ]
    | inr (inl ge) ↦ inr (inl (omega arith))
    | inr (inr all) ↦ inr (inr (sym (relock a i m e) ∙ all))
  ],
  λ m. same m ∙ relock a i m e,
)
widen a i left ((k, bits), a') e (inr (lo, hi, read, free, run, same)) = inr (
  omega arith,
  omega arith,
  read ∙ relock a i k e,
  free,
  λ m. elim (run m) [
    | inl lt ↦ elim (ℕ_discrete m i) [
      | yes here ↦ inr (inr (ap a.bitset_blocks here ∙ (==_iff _ _).0 e))
      | no other ↦ inl (omega (arith, other))
    ]
    | inr (inl ge) ↦ inr (inl ge)
    | inr (inr all) ↦ inr (inr (sym (relock a i m e) ∙ all))
  ],
  λ m. elim (same m) [ inl here ↦ inl here | inr keeps ↦ inr (keeps ∙ relock a i m e) ],
)

lock_next_from-Found :
    (left i bits : ℕ) (a : BitAllocator)
    → (0 < left) ⊎ (bits ≡ all_set)
    → Found a i left (lock_next_from left i bits a)
unfolding lock_next_from lock_block
lock_next_from-Found zero i bits a h = inl (
  elim h [ inl lt ↦ absurd (omega arith) | inr e ↦ e ],
  λ m. elim (dec_lt m i) [ yes lt ↦ inl lt | no ge ↦ inr (inl (omega arith)) ],
  λ m. refl,
)
lock_next_from-Found (suc left) i bits a h = elim (Bool-cases (a.bitset_blocks i == all_set)) [
  | inl e ↦ rw e (
      widen a i left (lock_next_from left (i + 1) (a.bitset_blocks i) (write_block a i all_set)) e (
        lock_next_from-Found left (i + 1) (a.bitset_blocks i) (write_block a i all_set)
          (inr ((==_iff _ _).0 e))))
  | inr e ↦ rw e (
      inr (
        omega arith,
        omega arith,
        refl,
        e,
        λ m. elim (dec_lt m i) [ yes lt ↦ inl lt | no ge ↦ inr (inl (omega arith)) ],
        λ m. elim (ℕ_discrete i m) [
          | yes here ↦ inl (sym here)
          | no other ↦ inr (update_ne a.bitset_blocks i all_set m other)
        ],
      ))
]

-- What `lock_next_page` has done, for the first clear bit from word `start` on.
abbrev pub Took : BitAllocator → Option ℕ → ℕ × BitAllocator → Type 0
Took a none (page, a') = (page ≡ 0) × ((x : ℕ) → marked a' x ≡ marked a x)
Took a (some y) (page, a') = (page ≡ y) × ((x : ℕ) → marked a' x ≡ (marked a x || y == x))

full_word : (a : BitAllocator) (x : ℕ) → a.bitset_blocks (x / 32) ≡ all_set → marked a x ≡ true
full_word a x e = ap (bit (x % 32)) e ∙ bit-ones (x % 32) 32 ∙ ground arith

unlock_block-marked :
    (a a' : BitAllocator) (k j x : ℕ)
    → j < 32
    → ((m : ℕ) → (m ≡ k) ⊎ (a'.bitset_blocks m ≡ a.bitset_blocks m))
    → marked (unlock_block (bit_or (a.bitset_blocks k) (2 ^ j)) k a') x
      ≡ (marked a x || k * 32 + j == x)
unfolding unlock_block
unlock_block-marked a a' k j x lt same = elim (ℕ_discrete k (x / 32)) [
  | yes here ↦
      ap (bit (x % 32)) (
        ap (update a'.bitset_blocks k (bit_or (a.bitset_blocks k) (2 ^ j))) (sym here)
        ∙ update_self a'.bitset_blocks k (bit_or (a.bitset_blocks k) (2 ^ j)))
      ∙ bit-or (x % 32) (a.bitset_blocks k) (2 ^ j)
      ∙ ap₂ (λ w b. bit (x % 32) (a.bitset_blocks w) || b) here
          (bit-pow (x % 32) j ∙ ground (arith, here, lt))
  | no other ↦
      ap (bit (x % 32)) (
        update_ne a'.bitset_blocks k (bit_or (a.bitset_blocks k) (2 ^ j)) (x / 32) other
        ∙ (let kept : a'.bitset_blocks (x / 32) ≡ a.bitset_blocks (x / 32) = elim (same (x / 32)) [
          | inl e ↦ absurd (other (sym e))
          | inr e ↦ e
        ] in
            kept))
      ∙ (let f : (k * 32 + j == x) ≡ false = ground (arith, other) in ground (arith, f))
]

module _ (a : BitAllocator) (words : (i : ℕ) → a.bitset_blocks i < 2 ^ 32) (start : ℕ)
    (lt : start < a.max_blocks) where
  take_page-Took :
      (res : (ℕ × ℕ) × BitAllocator)
      → Found a start (a.max_blocks - start) res
      → Took a (first_clear ((a.max_blocks - start) * 32) (start * 32) a) (take_page res)
  unfolding take_page
  take_page-Took ((k, bits), a') (inl (full, run, same)) =
      let all : first_clear ((a.max_blocks - start) * 32) (start * 32) a ≡ none =
        first_clear-full ((a.max_blocks - start) * 32) a (λ x lo hi.
          full_word a x (elim (run (x / 32)) [
            | inl l ↦ absurd (omega arith)
            | inr (inl g) ↦ absurd (omega arith)
            | inr (inr e) ↦ e
          ])) in
      let e : (bits == all_set) ≡ true = (==_iff _ _).1 full in
      rw (all, e) (refl, λ x. ap (bit (x % 32)) (same (x / 32)))
  take_page-Took ((k, bits), a') (inr (lo, hi, read, free, run, same)) =
      let j : ℕ = bitscan_forward (complement bits) in
      let (small, clear, low) = free_bit bits (omega (arith, read, words k)) free in
      let y : ℕ = k * 32 + j in
      let before : (x : ℕ)
          → start * 32 ≤ x
          → x < start * 32 + ((k - start) * 32 + j)
          → marked a x ≡ true =
        λ x from to. elim (dec_lt (x / 32) k) [
          | yes earlier ↦ full_word a x (elim (run (x / 32)) [
            | inl l ↦ absurd (omega arith)
            | inr (inl g) ↦ absurd (omega arith)
            | inr (inr e) ↦ e
          ])
          | no later ↦
              let here : x / 32 ≡ k = omega arith in
              ap (λ m. bit (x % 32) (a.bitset_blocks m)) here
              ∙ ap (bit (x % 32)) (sym read)
              ∙ low (x % 32) (omega arith)
        ] in
      let digit : y % 32 ≡ j = omega arith in
      let word : y / 32 ≡ k = omega arith in
      let unset : marked a y ≡ false =
        ap₂ (λ p q. bit p (a.bitset_blocks q)) digit word ∙ ap (bit j) (sym read) ∙ clear in
      let at : first_clear ((a.max_blocks - start) * 32) (start * 32) a ≡ some y =
        first_clear-at ((k - start) * 32 + j) a before unset (omega arith) (omega arith) in
      rw (at, free)
        (
          refl,
          λ x.
              ap (λ b. marked (unlock_block (bit_or b (2 ^ j)) k a') x) read
              ∙ unlock_block-marked a a' k j x small same,
        )

-- In a set whose words are 32 bits wide, `lock_next_page` from word `start` of it on answers the
-- first clear bit of the words from there on and sets that bit alone, with no other thread at work;
-- where they have none it answers 0 and leaves every bit as it was.
pub lock_next_page-Took :
    (start junk : ℕ) (a : BitAllocator)
    → ((i : ℕ) → a.bitset_blocks i < 2 ^ 32)
    → start < a.max_blocks
    → Took a
        (first_clear ((a.max_blocks - start) * 32) (start * 32) a)
        (lock_next_page start junk a)
unfolding lock_next_page lock_next_block
lock_next_page-Took start junk a words lt =
    take_page-Took a words start lt (lock_next_from (a.max_blocks - start) start junk a)
      (lock_next_from-Found (a.max_blocks - start) start junk a (inl (omega arith)))
