-- ===== src/Vga/Glyphs/Axis.antt =====
-- One direction of a character (devices/vga.cpp) that is cut by a clip on the screen.
use shipwreck.Base.{
  ℕ, ◌+◌, ◌-◌, ◌≤◌, ◌≡◌, ◌⊎◌, ◌∙◌, sym, ap, subst, Bool, true, false, inl, inr, ◌&&◌, ltb, leb,
  arith, leb→le, ltb→lt, Bool-cases,
}
use shipwreck.Base.Int.{
  ℤ, pos, pos_part, neg_part, ◌+ℤ◌, ◌-ℤ◌, ◌≤ℤ◌, ltb_ℤ, leb_ℤ, max_ℤ, min_ℤ, ◌<ℤ◌, max_ℤ-le_iff,
  lt-min_ℤ_iff, int_laws, +ℤ_parts, -ℤ_parts, eq_of_parts,
}

-- Whether `n` numbers from `from` on have `q` among them.
abbrev pub among : ℕ → ℕ → ℕ → Bool
among from n q = leb from q && ltb q (from + n)

-- One axis: `size` pixels from `x` on, cut by `lo` and `hi`, which are on the screen.
abbrev pub first_of : ℤ → ℤ → ℤ
first_of lo x = max_ℤ (lo -ℤ x) (pos 0)

abbrev pub end_of : ℤ → ℤ → ℕ → ℤ
end_of hi x size = min_ℤ (hi -ℤ x) (pos size)

abbrev pub in_axis : ℤ → ℤ → ℤ → ℕ → ℕ → Bool
in_axis lo hi x size q =
    leb_ℤ lo (pos q) && ltb_ℤ (pos q) hi && (leb_ℤ x (pos q) && ltb_ℤ (pos q) (x +ℤ pos size))

-- With d and e for the cuts as seen from `x`.
max-cases :
    (d : ℤ) → ((max_ℤ d (pos 0) ≡ d) × (pos 0 ≤ℤ d)) ⊎ ((max_ℤ d (pos 0) ≡ pos 0) × (d ≤ℤ pos 0))
unfolding max_ℤ
max-cases d = ground arith

min-cases :
    (d : ℤ) (n : ℕ)
    → ((min_ℤ d (pos n) ≡ d) × (d ≤ℤ pos n)) ⊎ ((min_ℤ d (pos n) ≡ pos n) × (pos n ≤ℤ d))
unfolding min_ℤ
min-cases d n = ground arith

pos_part-nonneg : (d : ℤ) → pos 0 ≤ℤ d → neg_part d ≡ 0
pos_part-nonneg d h = ground arith

plus-minus : (x d : ℤ) → x +ℤ (d -ℤ x) ≡ d
plus-minus x d = eq_of_parts (x +ℤ (d -ℤ x)) d (omega (arith, +ℤ_parts x (d -ℤ x), -ℤ_parts d x))

plus_zero : (x : ℤ) → x +ℤ pos 0 ≡ x
plus_zero x = eq_of_parts (x +ℤ pos 0) x (omega (arith, +ℤ_parts x (pos 0)))

low_end :
    (lo x : ℤ) (q : ℕ)
    → pos 0 ≤ℤ lo
    → leb (pos_part (x +ℤ first_of lo x)) q ≡ (leb_ℤ lo (pos q) && leb_ℤ x (pos q))
low_end lo x q on = elim (max-cases (lo -ℤ x)) [
  | inl c ↦
      let le : x ≤ℤ lo = omega (int_laws, c.1) in
      rw (ap (λ t. x +ℤ t) c.0 ∙ plus-minus x lo) (ground (arith, on, le))
  | inr c ↦
      let le : lo ≤ℤ x = omega (int_laws, c.1) in
      rw (ap (λ t. x +ℤ t) c.0 ∙ plus_zero x) (ground (arith, on, le))
]

start_nonneg : (lo x : ℤ) → pos 0 ≤ℤ lo → pos 0 ≤ℤ x +ℤ first_of lo x
start_nonneg lo x on = elim (max-cases (lo -ℤ x)) [
  | inl c ↦ rw (ap (λ t. x +ℤ t) c.0 ∙ plus-minus x lo) on
  | inr c ↦
      let le : lo ≤ℤ x = omega (int_laws, c.1) in
      rw (ap (λ t. x +ℤ t) c.0 ∙ plus_zero x) (omega (arith, le))
]

high_end :
    (hi x : ℤ) (size q k : ℕ)
    → x +ℤ end_of hi x size ≡ pos k
    → ltb q k ≡ (ltb_ℤ (pos q) hi && ltb_ℤ (pos q) (x +ℤ pos size))
high_end hi x size q k e = elim (min-cases (hi -ℤ x) size) [
  | inl c ↦
      let s : hi ≡ pos k = sym (ap (λ t. x +ℤ t) c.0 ∙ plus-minus x hi) ∙ e in
      let le : hi ≤ℤ x +ℤ pos size = omega (int_laws, c.1) in
      ground (arith, s, subst (λ t. t ≤ℤ x +ℤ pos size) s le)
  | inr c ↦
      let s : x +ℤ pos size ≡ pos k = sym (ap (λ t. x +ℤ t) c.0) ∙ e in
      let le : x +ℤ pos size ≤ℤ hi = omega (int_laws, c.1) in
      rw s (ground (arith, subst (λ t. t ≤ℤ hi) s le))
]

no_neg_part : (d : ℤ) → pos 0 ≤ℤ d → neg_part d ≡ 0
no_neg_part d h = ground arith

first_nonneg : (lo x : ℤ) → pos 0 ≤ℤ first_of lo x
first_nonneg lo x = elim (max-cases (lo -ℤ x)) [ inl c ↦ rw c.0 c.1 | inr c ↦ rw c.0 (omega arith) ]

end_of_le : (hi x : ℤ) (size : ℕ) → x +ℤ end_of hi x size ≤ℤ hi
end_of_le hi x size = elim (min-cases (hi -ℤ x) size) [
  | inl c ↦ rw (ap (λ t. x +ℤ t) c.0 ∙ plus-minus x hi) (omega arith)
  | inr c ↦ let le : x +ℤ pos size ≤ℤ hi = omega (int_laws, c.1) in rw c.0 le
]

end_of_size : (hi x : ℤ) (size : ℕ) → end_of hi x size ≤ℤ pos size
end_of_size hi x size = elim (min-cases (hi -ℤ x) size) [
  | inl c ↦ rw c.0 c.1
  | inr c ↦ rw c.0 (omega arith)
]

module _ (lo hi x : ℤ) (size q : ℕ) (on_screen : pos 0 ≤ℤ lo)
    (part : first_of lo x ≤ℤ end_of hi x size) where
  axis_end :
      x +ℤ end_of hi x size
      ≡ pos
          (pos_part (x +ℤ first_of lo x) + (pos_part (end_of hi x size) - pos_part (first_of lo x)))
  axis_end = eq_of_parts _ _ (
      omega (
        arith,
        part,
        no_neg_part (first_of lo x) (first_nonneg lo x),
        no_neg_part (end_of hi x size) (omega (arith, part, first_nonneg lo x)),
        no_neg_part (x +ℤ first_of lo x) (start_nonneg lo x on_screen),
        +ℤ_parts x (first_of lo x),
        +ℤ_parts x (end_of hi x size),
      ))

  pub axis_among :
      among
        (pos_part (x +ℤ first_of lo x))
        (pos_part (end_of hi x size) - pos_part (first_of lo x))
        q
      ≡ in_axis lo hi x size q
  axis_among = ground (arith, low_end lo x q on_screen, high_end hi x size q _ axis_end)

  pub axis_index :
      in_axis lo hi x size q ≡ true
      → first_of lo x +ℤ pos (q - pos_part (x +ℤ first_of lo x)) ≡ pos q -ℤ x
  axis_index e =
      let le : leb (pos_part (x +ℤ first_of lo x)) q ≡ true =
        low_end lo x q on_screen ∙ ground (arith, e) in
      eq_of_parts _ _ (
        omega (
          arith,
          leb→le (pos_part (x +ℤ first_of lo x)) q le,
          no_neg_part (x +ℤ first_of lo x) (start_nonneg lo x on_screen),
          +ℤ_parts x (first_of lo x),
          +ℤ_parts (first_of lo x) (pos (q - pos_part (x +ℤ first_of lo x))),
          -ℤ_parts (pos q) x,
        ))

  -- The part is on the screen and within the character.
  pub axis_fits :
      (w : ℕ)
      → hi ≤ℤ pos w
      → pos_part (x +ℤ first_of lo x) + (pos_part (end_of hi x size) - pos_part (first_of lo x)) ≤ w
  axis_fits w h =
      let le = subst (λ t. t ≤ℤ hi) axis_end (end_of_le hi x size) in omega (arith, le, h)

  pub axis_cell :
      pos_part (first_of lo x) + (pos_part (end_of hi x size) - pos_part (first_of lo x)) ≤ size
  axis_cell = omega (
    arith,
    part,
    end_of_size hi x size,
    no_neg_part (end_of hi x size) (omega (arith, part, first_nonneg lo x)),
    no_neg_part (first_of lo x) (first_nonneg lo x),
  )

  -- The column or the row of the character.
  pub axis_place :
      in_axis lo hi x size q ≡ true
      → pos_part (first_of lo x) + (q - pos_part (x +ℤ first_of lo x)) ≡ pos_part (pos q -ℤ x)
  axis_place e = omega (
    arith,
    ap pos_part (axis_index e),
    ap neg_part (axis_index e),
    no_neg_part (first_of lo x) (first_nonneg lo x),
    +ℤ_parts (first_of lo x) (pos (q - pos_part (x +ℤ first_of lo x))),
    no_neg_part (first_of lo x +ℤ pos (q - pos_part (x +ℤ first_of lo x))) (
        omega (
          arith,
          first_nonneg lo x,
          +ℤ_parts (first_of lo x) (pos (q - pos_part (x +ℤ first_of lo x))),
        )),
  )

in_axis-parts :
    (lo hi x : ℤ) (size q : ℕ)
    → in_axis lo hi x size q ≡ true
    → (lo ≤ℤ pos q) × (pos q <ℤ hi) × (x ≤ℤ pos q) × (pos q <ℤ x +ℤ pos size)
in_axis-parts lo hi x size q e = ground (arith, e)

-- Where nothing is left of the character.
pub out_axis :
    (lo hi x : ℤ) (size q : ℕ)
    → ltb_ℤ (end_of hi x size) (first_of lo x) ≡ true
    → in_axis lo hi x size q ≡ false
out_axis lo hi x size q e = elim (Bool-cases (in_axis lo hi x size q)) [
  | inl i ↦
      let h = in_axis-parts lo hi x size q i in
      let a : first_of lo x ≤ℤ pos q -ℤ x =
        (max_ℤ-le_iff (lo -ℤ x) (pos 0) (pos q -ℤ x)).1
          (omega (int_laws, h.0), omega (int_laws, h.2)) in
      let b : pos q -ℤ x <ℤ end_of hi x size =
        (lt-min_ℤ_iff (hi -ℤ x) (pos size) (pos q -ℤ x)).1
          (omega (int_laws, h.1), omega (int_laws, h.3)) in
      absurd (omega (arith, a, b, ltb→lt _ _ e))
  | inr i ↦ i
]
