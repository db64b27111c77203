-- ===== src/Printing/Radix.antt =====
-- Numbers that `_sprint_radix` of include/std/string.h prints, read back from memory.
use native.Mathlib.Nat.{
  pow-suc, mod-add-div, mod-eq_of_lt, mod-lt, add-mul-mod_self_left, pow-le-pow_left,
  pow-le-pow_right, div-lt_iff_lt-mul, one-le-pow, mod-one, mul-le-mul_right, mul-add, mul_assoc,
  mul_comm, suc-mul, pow-zero,
}
use native.Mathlib.Decide.{dec_le}
use shipwreck.Base.{
  all_below_lem, ℕ, zero, suc, ◌+◌, ◌-◌, ◌*◌, ◌/◌, ◌%◌, ◌^◌, ◌<◌, ◌≤◌, ◌≡◌, refl, sym, ap, subst,
  ◌∙◌, false, Bool-cases, inl, inr, List, min, ◌==◌, ltb, if◌then◌else◌, length, get_or, update,
  arith, ==_iff,
}
use shipwreck.CString.{Memory}
use shipwreck.CString.Copy.{ranges}
use shipwreck.Printing.{Output, radix_digits, digits_of, put_digits, print_digits, sprint_radix}

-- The value of a digit, '0' to '9' and 'A' to 'F'.
abbrev pub digit_value : ℕ → ℕ
digit_value c = if ltb c b'A' then c - b'0' else c - b'A' + 10

-- The number in the `k` characters at `p`, the highest digit first.
unfoldable pub read_number : ℕ → Memory → ℕ → ℕ → ℕ
read_number radix mem p zero = 0
read_number radix mem p (suc k) = read_number radix mem p k * radix + digit_value (mem (p + k))

digit_value-digit : (d : ℕ) → d < 16 → digit_value (get_or radix_digits d 0) ≡ d
digit_value-digit d h =
    (==_iff (digit_value (get_or radix_digits d 0)) d).0
      (all_below_lem (λ i. digit_value (get_or radix_digits i 0) == i) 16 refl d h)

-- A number is split at its lowest digit.
mod-mul : (n r m : ℕ) → 0 < r → 0 < m → n % (r * m) ≡ n / r % m * r + n % r
mod-mul n r m hr hm =
    ap (λ t. t % (r * m)) split
    ∙ add-mul-mod_self_left (n / r % m * r + n % r) (r * m) (n / r / m)
    ∙ mod-eq_of_lt small
  where
    split : n ≡ n / r % m * r + n % r + r * m * (n / r / m)
    split =
        let q = n / r in
        let a : r * q ≡ r * (q % m) + r * (m * (q / m)) =
          ap (λ t. r * t) (sym (mod-add-div q m)) ∙ mul-add r (q % m) (m * (q / m)) in
        omega (arith, mod-add-div n r, a, mul_assoc r m (q / m), mul_comm (q % m) r)

    small : n / r % m * r + n % r < r * m
    small =
        let a : suc (n / r % m) * r ≤ m * r = mul-le-mul_right r (mod-lt (n / r) hm) in
        omega (arith, a, mod-lt n hr, suc-mul (n / r % m) r, mul_comm m r)

digits_below :
    (radix left num : ℕ)
    → 0 < radix
    → num < radix ^ left
    → num < radix ^ length (digits_of radix left num)
unfolding digits_of
digits_below radix zero num hr h = h
digits_below radix (suc left) num hr h = elim (Bool-cases (num / radix == 0)) [
  | inl e ↦ rw e (
      omega (
        arith,
        pow-suc radix 0,
        ap (λ t. t * radix) (pow-zero radix),
        mod-lt num hr,
        mod-add-div num radix,
        ap (λ t. radix * t) ((==_iff (num / radix) 0).0 e),
      ))
  | inr e ↦ rw e (
      omega (
        arith,
        pow-suc radix (length (digits_of radix left (num / radix))),
        (div-lt_iff_lt-mul hr).0 (
            digits_below radix left (num / radix) hr
              ((div-lt_iff_lt-mul hr).1 (omega (arith, pow-suc radix left)))),
      ))
]

-- The digits behind the lowest one.
longer :
    (radix left num k : ℕ)
    → suc k ≤ length (digits_of radix (suc left) num)
    → k ≤ length (digits_of radix left (num / radix))
unfolding digits_of
longer radix left num k h = ground arith

next_digit :
    (radix left num k i c : ℕ)
    → suc k ≤ length (digits_of radix (suc left) num)
    → i < k
    → c ≡ get_or (digits_of radix (suc left) num) (suc k - i - 1) 0
    → c ≡ get_or (digits_of radix left (num / radix)) (k - i - 1) 0
unfolding digits_of
next_digit radix left num k i c h lt e = elim (Bool-cases (num / radix == 0)) [
  | inl z ↦ ground (arith, h)
  | inr z ↦ e ∙ rw (z, at) refl
]
  where
    at : suc k - i - 1 ≡ suc (k - i - 1)
    at = omega arith

-- Where the characters at `p` are the first `k` that were taken off, the highest first, they read
-- as what is left of the number.
read_digits :
    (radix left num k p : ℕ) (mem : Memory)
    → 0 < radix
    → radix ≤ 16
    → k ≤ length (digits_of radix left num)
    → ((i : ℕ) → i < k → mem (p + i) ≡ get_or (digits_of radix left num) (k - i - 1) 0)
    → read_number radix mem p k ≡ num % radix ^ k
unfolding digits_of read_number
read_digits radix left num zero p mem hr h16 hk f =
    sym (ap (λ t. num % t) (pow-zero radix) ∙ mod-one num)
read_digits radix zero num (suc k) p mem hr h16 hk f = elim hk [ ]
read_digits radix (suc left) num (suc k) p mem hr h16 hk f =
    let high : read_number radix mem p k ≡ num / radix % radix ^ k =
      read_digits radix left (num / radix) k p mem hr h16 (longer radix left num k hk)
        (λ i lt. next_digit radix left num k i (mem (p + i)) hk lt (f i (omega arith))) in
    let low : digit_value (mem (p + k)) ≡ num % radix =
      ap digit_value (f k (omega arith) ∙ lowest)
      ∙ digit_value-digit (num % radix) (omega (arith, mod-lt num hr)) in
    omega (
      arith,
      ap (λ t. t * radix) high,
      low,
      mod-mul num radix (radix ^ k) hr (one-le-pow k radix hr),
      ap (λ t. num % t) (pow-suc radix k ∙ mul_comm (radix ^ k) radix),
    )
  where
    lowest :
        get_or (digits_of radix (suc left) num) (suc k - k - 1) 0
        ≡ get_or radix_digits (num % radix) 0
    lowest = let e : suc k - k - 1 ≡ 0 = omega arith in rw e refl

put_digits_lem :
    (tmp_str : List ℕ) (n dst left i : ℕ) (mem : Memory) (q : ℕ)
    → put_digits tmp_str n dst left i mem q ≡ (
        if ranges (dst + i) (dst + i + left) q then get_or tmp_str (n - (q - dst) - 1) 0 else mem q)
unfolding put_digits
put_digits_lem tmp_str n dst zero i mem q = ground arith
put_digits_lem tmp_str n dst (suc left) i mem q =
    put_digits_lem tmp_str n dst left (i + 1) (update mem (dst + i) (get_or tmp_str (n - i - 1) 0))
      q
    ∙ ground (arith, here)
  where
    here : dst + i ≡ q → get_or tmp_str (n - i - 1) 0 ≡ get_or tmp_str (n - (q - dst) - 1) 0
    here e = ap (λ t. get_or tmp_str (n - t - 1) 0) (omega arith)

-- The characters at `p` are as many of the digits as there is room for.
print_digits-read :
    (o : Output) (radix left num : ℕ)
    → 0 < radix
    → radix ≤ 16
    → num < radix ^ left
    → let r = print_digits o (digits_of radix left num) in
      read_number radix r.out.mem o.dst r.count ≡ num % radix ^ o.len
unfolding print_digits
print_digits-read o radix left num h h16 lt = read ∙ remainder
  where
    inside :
        (i : ℕ) (tmp_str : List ℕ)
        → let m = min o.len (length tmp_str) in
          i < m
          → (if ranges (o.dst + 0) (o.dst + 0 + m) (o.dst + i)
              then get_or tmp_str (m - (o.dst + i - o.dst) - 1) 0
              else o.mem (o.dst + i))
            ≡ get_or tmp_str (m - i - 1) 0
    inside i tmp_str lt =
        let e : o.dst + i - o.dst ≡ i = omega arith in
        let m = min o.len (length tmp_str) in
        ground (arith, ap (λ t. get_or tmp_str (m - t - 1) 0) e)

    n : ℕ
    n = min o.len (length (digits_of radix left num))

    read :
        read_number radix (put_digits (digits_of radix left num) n o.dst n 0 o.mem) o.dst n
        ≡ num % radix ^ n
    read =
        read_digits radix left num n o.dst (put_digits (digits_of radix left num) n o.dst n 0 o.mem)
          h h16 (omega arith)
          (λ i lt.
            put_digits_lem (digits_of radix left num) n o.dst n 0 o.mem (o.dst + i)
            ∙ inside i (digits_of radix left num) lt)

    remainder : num % radix ^ n ≡ num % radix ^ o.len
    remainder = elim (dec_le o.len (length (digits_of radix left num))) [
      | yes le ↦ ap (λ t. num % radix ^ t) (omega arith)
      | no gt ↦
          let below : num < radix ^ n =
            subst (λ t. num < radix ^ t) (omega arith) (digits_below radix left num h lt) in
          mod-eq_of_lt below
          ∙ sym (
              mod-eq_of_lt
                (omega (arith, below, pow-le-pow_right h {i = n} {j = o.len} (omega arith))))
    ]

pub print_digits-outside :
    (o : Output) (tmp_str : List ℕ) (q : ℕ)
    → let r = print_digits o tmp_str in
      ranges o.dst (o.dst + r.count) q ≡ false → r.out.mem q ≡ o.mem q
unfolding print_digits
print_digits-outside o tmp_str q h =
    put_digits_lem tmp_str (min o.len (length tmp_str)) o.dst (min o.len (length tmp_str)) 0 o.mem q
    ∙ ground (arith, h)

-- Where `_sprint_radix` has room for at least one byte it stores only bytes that fit, which are the
-- last digits of the number, the highest first: read back they are the number, if it has no more
-- digits than there is room, and its remainder by a power of the radix if it has more. Only these
-- bytes change, `dst` moves behind them, and `len` is what is left.
pub sprint_radix-read :
    (o : Output) (num radix : ℕ)
    → 2 ≤ radix
    → radix ≤ 16
    → num < 2 ^ 32
    → 0 < o.len
    → let r = sprint_radix o num radix in
      (read_number radix r.out.mem o.dst r.count ≡ num % radix ^ o.len)
      × (num < radix ^ o.len → read_number radix r.out.mem o.dst r.count ≡ num)
      × (r.out.dst ≡ o.dst + r.count)
      × (r.out.len + r.count ≡ o.len)
      × ((q : ℕ) → ranges o.dst (o.dst + r.count) q ≡ false → r.out.mem q ≡ o.mem q)
unfolding sprint_radix print_digits
sprint_radix-read o num radix h2 h16 h32 hl = elim (Bool-cases (o.len == 0)) [
  | inl z ↦ absurd (ground (arith, z))
  | inr z ↦
      let value =
        print_digits-read o radix 32 num (omega arith) h16 (omega (arith, pow-le-pow_left h2 32)) in
      rw z (
        value,
        (λ lt. value ∙ mod-eq_of_lt lt),
        refl,
        omega arith,
        print_digits-outside o (digits_of radix 32 num),
      )
]
