-- ===== src/Gui/Redraw/Boxes/Parts.antt =====
-- The part of a text that a clip shows (system/gui.cpp), on each axis.
use shipwreck.Base.{ℕ, ◌+◌, ◌-◌, ◌*◌, ◌<◌, ◌≤◌, ◌≡◌, true, arith}
use shipwreck.Base.Int.{
  ℤ, pos, pos_part, ◌+ℤ◌, ◌-ℤ◌, ◌≤ℤ◌, ◌<ℤ◌, ltb_ℤ, max_ℤ, min_ℤ, +ℤ_parts, -ℤ_parts,
}
use shipwreck.Gui.Shapes.{Rect}
use shipwreck.Vga.Glyphs.Axis.{in_axis}
use shipwreck.Gui.Redraw.Boxes.{quotient}

quotient_low_x : (d : ℤ) (x : ℕ) → d <ℤ pos (x * 8 + 8) → quotient d 8 ≤ℤ pos x
unfolding ◌-ℤ◌
quotient_low_x d x h = ground (arith, h)

quotient_high_x : (d : ℤ) (x : ℕ) → pos (x * 8) <ℤ d → pos x ≤ℤ quotient d 8
unfolding ◌-ℤ◌
quotient_high_x d x h = ground (arith, h)

quotient_low_y : (d : ℤ) (y : ℕ) → d <ℤ pos (y * 20 + 16) → quotient d 20 ≤ℤ pos y
unfolding ◌-ℤ◌
quotient_low_y d y h = ground (arith, h)

quotient_high_y : (d : ℤ) (y : ℕ) → pos (y * 20) <ℤ d → pos y ≤ℤ quotient d 20
unfolding ◌-ℤ◌
quotient_high_y d y h = ground (arith, h)

-- A character that is drawn on a pixel between `lo` and `hi` is not cut off.
pub columns_kept :
    (lo hi v : ℤ) (x q : ℕ)
    → in_axis lo hi (v +ℤ pos (x * 8)) 8 q ≡ true
    → (quotient (lo -ℤ v) 8 ≤ℤ pos x) × (pos x ≤ℤ quotient (hi -ℤ v) 8)
columns_kept lo hi v x q e = (
  quotient_low_x (lo -ℤ v) x ground
      (arith, e, +ℤ_parts v (pos (x * 8)), -ℤ_parts lo v, +ℤ_parts (v +ℤ pos (x * 8)) (pos 8)),
  quotient_high_x (hi -ℤ v) x ground
      (arith, e, +ℤ_parts v (pos (x * 8)), -ℤ_parts hi v, +ℤ_parts (v +ℤ pos (x * 8)) (pos 8)),
)

pub rows_kept :
    (lo hi v : ℤ) (y q : ℕ)
    → in_axis lo hi (v +ℤ pos (y * 20)) 16 q ≡ true
    → (quotient (lo -ℤ v) 20 ≤ℤ pos y) × (pos y ≤ℤ quotient (hi -ℤ v) 20)
rows_kept lo hi v y q e = (
  quotient_low_y (lo -ℤ v) y ground
      (arith, e, +ℤ_parts v (pos (y * 20)), -ℤ_parts lo v, +ℤ_parts (v +ℤ pos (y * 20)) (pos 16)),
  quotient_high_y (hi -ℤ v) y ground
      (arith, e, +ℤ_parts v (pos (y * 20)), -ℤ_parts hi v, +ℤ_parts (v +ℤ pos (y * 20)) (pos 16)),
)

-- A part of the text, as the loops go through it.
abbrev pub InPart : Rect → ℕ → ℕ → Type 0
InPart p x y = (p.l ≤ℤ pos x) × (pos x ≤ℤ p.r) × (p.t ≤ℤ pos y) × (pos y ≤ℤ p.b)

abbrev pub both : Rect → Rect → Rect
both a b = record { l = max_ℤ a.l b.l; t = max_ℤ a.t b.t; r = min_ℤ a.r b.r; b = min_ℤ a.b b.b }

pub in_both : (a b : Rect) (x y : ℕ) → InPart a x y → InPart b x y → InPart (both a b) x y
unfolding max_ℤ min_ℤ
in_both a b x y h k = ground (arith, h, k)

-- A part with a character in it is not empty.
pub wide : (p : Rect) (x y : ℕ) → InPart p x y → ltb_ℤ p.r p.l ≡ true → ⊥
wide p x y h e = ground (arith, h, e)

pub tall : (p : Rect) (x y : ℕ) → InPart p x y → ltb_ℤ p.b p.t ≡ true → ⊥
tall p x y h e = ground (arith, h, e)

-- One axis of a part that is not empty: what its loop goes through is in the text, and it goes
-- through all of the part.
module _ (a c : ℤ) (n m : ℕ) where
  pub axis_kept :
      (x : ℕ)
      → max_ℤ a (pos n) ≤ℤ min_ℤ c (pos m)
      → pos_part (max_ℤ a (pos n)) ≤ x
      → x
        < pos_part (max_ℤ a (pos n)) + (pos_part (min_ℤ c (pos m)) - pos_part (max_ℤ a (pos n)) + 1)
      → (n ≤ x) × (x ≤ m)
  unfolding max_ℤ min_ℤ
  axis_kept x e l h = ground (arith, e, l, h)

  pub axis_inside :
      (x : ℕ)
      → max_ℤ a (pos n) ≤ℤ pos x
      → pos x ≤ℤ min_ℤ c (pos m)
      → (pos_part (max_ℤ a (pos n)) ≤ x)
        × (x
            < pos_part (max_ℤ a (pos n))
              + (pos_part (min_ℤ c (pos m)) - pos_part (max_ℤ a (pos n)) + 1))
  unfolding max_ℤ min_ℤ
  axis_inside x l h = ground (arith, l, h)
