-- ===== src/CString/Compare.antt =====
-- What `strnlen` and `strncmp` of system/string.cpp tell.
use shipwreck.Base.{
  ℕ, zero, suc, ◌+◌, ◌-◌, ◌*◌, ◌/◌, ◌≤◌, ◌<◌, ◌≡◌, ◌≢◌, ◌↔◌, ◌⊎◌, refl, true, false, arith,
  Bool-cases, inl, inr, ==_iff, ◌==◌, dec_lt, ℕ_discrete,
}
use shipwreck.CString.{
  Memory, strnlen_from, strnlen, dword, sub32, char_to_int, compare_dwords, compare_chars, strncmp,
}

-- The length of the text at `s`, if it ends within `len` bytes, and else `len`.
pub record Length (mem : Memory) (s len n : ℕ) : Type 0 where
  pub bound : n ≤ len
  pub full : (i : ℕ) → i < n → mem (s + i) ≢ 0
  pub ends : (n ≡ len) ⊎ (mem (s + n) ≡ 0)

strnlen_from-Length :
    (mem : Memory) (s left i len : ℕ)
    → i + left ≡ len
    → ((j : ℕ) → j < i → mem (s + j) ≢ 0)
    → Length mem s len (strnlen_from mem s left i)
unfolding strnlen_from
strnlen_from-Length mem s zero i len e h = record {
  bound = omega arith;
  full = h;
  ends = inl (omega arith);
}
strnlen_from-Length mem s (suc left) i len e h = elim (Bool-cases (mem (s + i) == 0)) [
  | inl z ↦ rw z (record { bound = omega arith; full = h; ends = inr ((==_iff _ _).0 z) })
  | inr nz ↦ rw nz (strnlen_from-Length mem s left (i + 1) len (omega arith) (more nz))
]
  where
    more : (mem (s + i) == 0) ≡ false → (j : ℕ) → j < i + 1 → mem (s + j) ≢ 0
    more nz j lt = elim (ℕ_discrete j i) [
      | yes same ↦ rw same (ground arith)
      | no other ↦ h j (omega arith)
    ]

-- `strnlen` returns at most `len`; no character before the result is the terminator, and the one
-- at the result is, unless the result is `len`.
pub strnlen_lem : (mem : Memory) (s len : ℕ) → Length mem s len (strnlen mem s len)
unfolding strnlen
strnlen_lem mem s len =
    strnlen_from-Length mem s len 0 len (omega arith) (λ j lt. absurd (omega arith))

abbrev pub Bytes : Memory → Type 0
Bytes mem = (p : ℕ) → mem p < 256

module _ (mem : Memory) (bytes : Bytes mem) (a b : ℕ) where
  -- The texts agree from index `i` up to `j`.
  abbrev Agree : ℕ → ℕ → Type 0
  Agree i j = (k : ℕ) → i ≤ k → k < j → mem (a + k) ≡ mem (b + k)

  -- A difference of 0 is one in no byte.
  dword-same :
      (i : ℕ)
      → (sub32 (dword mem a i) (dword mem b i) == 0) ≡ true
      → (mem (a + 4 * i) ≡ mem (b + 4 * i))
        × (mem (a + (4 * i + 1)) ≡ mem (b + (4 * i + 1)))
        × (mem (a + (4 * i + 2)) ≡ mem (b + (4 * i + 2)))
        × (mem (a + (4 * i + 3)) ≡ mem (b + (4 * i + 3)))
  dword-same i e = omega (
    arith,
    (==_iff _ _).0 e,
    bytes (a + 4 * i),
    bytes (a + (4 * i + 1)),
    bytes (a + (4 * i + 2)),
    bytes (a + (4 * i + 3)),
    bytes (b + 4 * i),
    bytes (b + (4 * i + 1)),
    bytes (b + (4 * i + 2)),
    bytes (b + (4 * i + 3)),
  )

  dword-Agree :
      (i : ℕ) → (sub32 (dword mem a i) (dword mem b i) == 0) ≡ true → Agree (4 * i) (4 * i + 4)
  dword-Agree i e k le lt =
      let (e0, e1, e2, e3) = dword-same i e in
      elim (ℕ_discrete k (4 * i)) [
        | yes k0 ↦ rw k0 e0
        | no n0 ↦ elim (ℕ_discrete k (4 * i + 1)) [
          | yes k1 ↦ rw k1 e1
          | no n1 ↦ elim (ℕ_discrete k (4 * i + 2)) [
            | yes k2 ↦ rw k2 e2
            | no n2 ↦ let k3 : k ≡ 4 * i + 3 = omega arith in rw k3 e3
          ]
        ]
      ]

  Agree-dword :
      (i : ℕ) → Agree (4 * i) (4 * i + 4) → (sub32 (dword mem a i) (dword mem b i) == 0) ≡ true
  Agree-dword i h =
      rw
        (
          h (4 * i) (omega arith) (omega arith),
          h (4 * i + 1) (omega arith) (omega arith),
          h (4 * i + 2) (omega arith) (omega arith),
          h (4 * i + 3) (omega arith) (omega arith),
        )
        ((==_iff _ _).1 (omega arith))

  compare_dwords-Agree :
      (left i : ℕ) → compare_dwords mem a b left i ≡ 0 → Agree (4 * i) (4 * (i + left))
  unfolding compare_dwords
  compare_dwords-Agree zero i e k le lt = absurd (omega arith)
  compare_dwords-Agree (suc left) i e k le lt =
      elim (Bool-cases (sub32 (dword mem a i) (dword mem b i) == 0)) [
        | inl z ↦ elim (dec_lt k (4 * i + 4)) [
          | yes near ↦ dword-Agree i z k le near
          | no far ↦
              compare_dwords-Agree left (i + 1) (ground (arith, e, z)) k (omega arith) (omega arith)
        ]
        | inr nz ↦ absurd (ground (arith, e, nz))
      ]

  Agree-compare_dwords :
      (left i : ℕ) → Agree (4 * i) (4 * (i + left)) → compare_dwords mem a b left i ≡ 0
  unfolding compare_dwords
  Agree-compare_dwords zero i h = refl
  Agree-compare_dwords (suc left) i h =
      rw (Agree-dword i (λ k le lt. h k le (omega arith)))
        (Agree-compare_dwords left (i + 1) (λ k le lt. h k (omega arith) (omega arith)))

  char_same :
      (x y : ℕ) → x < 256 → y < 256 → (sub32 (char_to_int x) (char_to_int y) == 0) ≡ true → x ≡ y
  char_same x y hx hy e = ground arith

  char_self : (x : ℕ) → x < 256 → (sub32 (char_to_int x) (char_to_int x) == 0) ≡ true
  char_self x h = ground arith

  compare_chars-Agree :
      (left i k : ℕ)
      → compare_chars mem a b left i ≡ 0
      → i ≤ k
      → k < i + left
      → ((m : ℕ) → i ≤ m → m < k → mem (a + m) ≢ 0)
      → mem (a + k) ≡ mem (b + k)
  unfolding compare_chars
  compare_chars-Agree zero i k e le lt f = absurd (omega arith)
  compare_chars-Agree (suc left) i k e le lt f =
      elim (Bool-cases (sub32 (char_to_int (mem (a + i))) (char_to_int (mem (b + i))) == 0)) [
        | inr nz ↦ absurd (ground (arith, e, nz))
        | inl z ↦ elim (ℕ_discrete i k) [
          | yes here ↦ rw (← here) (char_same _ _ (bytes _) (bytes _) z)
          | no past ↦
              compare_chars-Agree left (i + 1) k (rest z (f i (omega arith) (omega arith)))
                (omega arith) (omega arith) (λ m lo hi. f m (omega arith) hi)
        ]
      ]
    where
      rest :
          (sub32 (char_to_int (mem (a + i))) (char_to_int (mem (b + i))) == 0) ≡ true
          → mem (a + i) ≢ 0
          → compare_chars mem a b left (i + 1) ≡ 0
      rest z nz = ground (arith, e, z)

  Agree-compare_chars :
      (left i : ℕ)
      → ((k : ℕ)
          → i ≤ k
          → k < i + left
          → ((m : ℕ) → i ≤ m → m < k → mem (a + m) ≢ 0)
          → mem (a + k) ≡ mem (b + k))
      → compare_chars mem a b left i ≡ 0
  unfolding compare_chars
  Agree-compare_chars zero i h = refl
  Agree-compare_chars (suc left) i h =
      rw (← same, char_self (mem (a + i)) (bytes (a + i)))
        (elim (Bool-cases (mem (a + i) == 0)) [
          | inl z ↦ rw z
          | inr nz ↦ rw nz (
              Agree-compare_chars left (i + 1) (λ k lo hi f.
                h k (omega arith) (omega arith) (λ m l u. elim (ℕ_discrete m i) [
                  | yes e ↦ rw e (ground (arith, nz))
                  | no ne ↦ f m (omega arith) u
                ])))
        ])
    where
      same : mem (a + i) ≡ mem (b + i)
      same = h i (omega arith) (omega arith) (λ m l u. absurd (omega arith))

-- `strncmp` answers 0 exactly where the texts agree up to the end of the first, its terminator
-- included, or up to `len`, whichever comes first.
pub strncmp_iff :
    (mem : Memory)
    → Bytes mem
    → (a b len : ℕ)
    → (strncmp mem a b len ≡ 0)
      ↔ ((k : ℕ) → k < len → k ≤ strnlen mem a len → mem (a + k) ≡ mem (b + k))
unfolding strncmp
strncmp_iff mem bytes a b len = (there, back)
  where
    n : ℕ
    n = strnlen mem a len

    q : ℕ
    q = n / 4

    lem : Length mem a len n
    lem = strnlen_lem mem a len

    there : strncmp mem a b len ≡ 0 → (k : ℕ) → k < len → k ≤ n → mem (a + k) ≡ mem (b + k)
    there e k lt le = elim (dec_lt k (4 * q)) [
      | yes near ↦
          compare_dwords-Agree mem bytes a b q 0 (ground (arith, e)) k (omega arith) (omega arith)
      | no far ↦
          compare_chars-Agree mem bytes a b (len - 4 * q) (4 * q) k (ground (arith, e))
            (omega arith) (omega (arith, lem.bound)) (λ m lo hi. lem.full m (omega arith))
    ]

    back : ((k : ℕ) → k < len → k ≤ n → mem (a + k) ≡ mem (b + k)) → strncmp mem a b len ≡ 0
    back h =
        rw
          (Agree-compare_dwords mem bytes a b q 0
            (λ k le lt. h k (omega (arith, lem.bound)) (omega arith)))
          (Agree-compare_chars mem bytes a b (len - 4 * q) (4 * q) (λ k lo hi f.
            h k (omega (arith, lem.bound)) (within k lo f (omega (arith, lem.bound)))))
      where
        within :
            (k : ℕ) → 4 * q ≤ k → ((m : ℕ) → 4 * q ≤ m → m < k → mem (a + m) ≢ 0) → k < len → k ≤ n
        within k lo f lt = elim (dec_lt n k) [
          | no le ↦ omega arith
          | yes past ↦ elim lem.ends [
            | inl e ↦ omega arith
            | inr z ↦ absurd (f n (omega arith) past z)
          ]
        ]
