-- ===== src/Gui/Redraw/Boxes/Letters.antt =====
-- Which pixels a text box (system/gui.cpp) gives the colour of its text.
use shipwreck.Base.{
  ℕ, zero, suc, ◌+◌, ◌*◌, ◌<◌, ◌≤◌, ◌≡◌, ◌⊎◌, ◌∙◌, inl, inr, refl, ap, ap₂, Bool, Bool-cases, true,
  false, if◌then◌else◌, arith, dec_lt,
}
use shipwreck.Base.Int.{ℤ, pos, ◌+ℤ◌, ◌≤ℤ◌}
use shipwreck.Gui.Shapes.{Rect}
use shipwreck.Text.{Buffer, char_spacing_x, char_spacing_y}
use shipwreck.Vga.{Frame, Screen, pixel_offset}
use shipwreck.Vga.Glyphs.{AsciiMap}
use shipwreck.Vga.Glyphs.Lit.{drawn, render_char_xy_clipped_lem}
use shipwreck.Gui.Redraw.Boxes.{green, virt_x, virt_y, char_at, draw_char, draw_columns, draw_rows}

-- The new colour of a pixel whose old one is `old`: green where one of the characters of `P` is drawn
-- there, else the old one.
pub data Written (P : ℕ → ℕ → Type 0) (d : ℕ → ℕ → Bool) (old new : ℕ) : Type 0 where
  by_char : (x y : ℕ) → P x y → d x y ≡ true → new ≡ green → Written P d old new
  untouched : ((x y : ℕ) → P x y → d x y ≡ false) → new ≡ old → Written P d old new

-- Characters one after the other.
glue :
    {P Q R : ℕ → ℕ → Type 0} {d : ℕ → ℕ → Bool} {old mid new : ℕ}
    → ((x y : ℕ) → P x y → R x y)
    → ((x y : ℕ) → Q x y → R x y)
    → ((x y : ℕ) → R x y → P x y ⊎ Q x y)
    → Written P d old mid
    → Written Q d mid new
    → Written R d old new
glue p q r w (by_char x y h e n) = by_char x y (q x y h) e n
glue p q r (by_char x y h e n) (untouched k m) = by_char x y (p x y h) e (m ∙ n)
glue p q r (untouched l n) (untouched k m) =
    untouched (λ x y h. elim (r x y h) [ inl u ↦ l x y u | inr v ↦ k x y v ]) (m ∙ n)

-- Columns from `x` up to `x'` of the rows from `y` up to `y'`.
abbrev pub Among : ℕ → ℕ → ℕ → ℕ → ℕ → ℕ → Type 0
Among x x' y y' cx cy = (x ≤ cx) × (cx < x') × (y ≤ cy) × (cy < y')

-- Whether character (x, y) of the text is drawn on a pixel.
abbrev pub lettered : AsciiMap → Rect → Buffer → Rect → ℕ → ℕ → ℕ → ℕ → Bool
lettered ascii rect buf clip qx qy x y =
    drawn ascii (char_at buf x y) (virt_x rect buf +ℤ pos (x * char_spacing_x))
      (virt_y rect buf +ℤ pos (y * char_spacing_y)) clip qx qy

module _ (s : Screen) (ascii : AsciiMap) (rect : Rect) (buf : Buffer) (clip : Rect) (qx qy : ℕ)
    (bytes : (i : ℤ) → ascii i < 256) (hl : pos 0 ≤ℤ clip.l) (ht : pos 0 ≤ℤ clip.t)
    (hr : clip.r ≤ℤ pos s.width) (h : qx < s.width) where
  abbrev here : ℕ → ℕ → Bool
  here = lettered ascii rect buf clip qx qy

  char-Written :
      (x y : ℕ) (f : Frame)
      → Written
          (Among x (x + 1) y (y + 1))
          here
          (f (pixel_offset s qx qy))
          (draw_char s ascii rect buf clip x y f (pixel_offset s qx qy))
  char-Written x y f = elim (Bool-cases (here x y)) [
    | inl e ↦
        by_char x y (omega arith, omega arith, omega arith, omega arith) e
          (once ∙ ap (λ b. if b then green else f (pixel_offset s qx qy)) e)
    | inr e ↦
        untouched (λ x' y' a. ap₂ here (omega (arith, a)) (omega (arith, a)) ∙ e)
          (once ∙ ap (λ b. if b then green else f (pixel_offset s qx qy)) e)
  ]
    where
      once :
          draw_char s ascii rect buf clip x y f (pixel_offset s qx qy)
          ≡ (if here x y then green else f (pixel_offset s qx qy))
      once =
          render_char_xy_clipped_lem s ascii (char_at buf x y)
            (virt_x rect buf +ℤ pos (x * char_spacing_x))
            (virt_y rect buf +ℤ pos (y * char_spacing_y)) green clip f qx qy bytes hl ht hr h

  columns-Written :
      (left x y : ℕ) (f : Frame)
      → Written
          (Among x (x + left) y (y + 1))
          here
          (f (pixel_offset s qx qy))
          (draw_columns s ascii rect buf clip left x y f (pixel_offset s qx qy))
  unfolding draw_columns
  columns-Written zero x y f = untouched (λ x' y' a. absurd (omega (arith, a))) refl
  columns-Written (suc left) x y f =
      glue (λ x' y' a. omega (arith, a)) (λ x' y' a. omega (arith, a)) split (char-Written x y f)
        (columns-Written left (x + 1) y (draw_char s ascii rect buf clip x y f))
    where
      split :
          (x' y' : ℕ)
          → Among x (x + suc left) y (y + 1) x' y'
          → Among x (x + 1) y (y + 1) x' y' ⊎ Among (x + 1) (x + 1 + left) y (y + 1) x' y'
      split x' y' a = elim (dec_lt x x') [
        | yes lt ↦ inr (omega (arith, a))
        | no ge ↦ inl (omega (arith, a))
      ]

  pub rows-Written :
      (left w x y : ℕ) (f : Frame)
      → Written
          (Among x (x + w) y (y + left))
          here
          (f (pixel_offset s qx qy))
          (draw_rows s ascii rect buf clip left w x y f (pixel_offset s qx qy))
  unfolding draw_rows
  rows-Written zero w x y f = untouched (λ x' y' a. absurd (omega (arith, a))) refl
  rows-Written (suc left) w x y f =
      glue (λ x' y' a. omega (arith, a)) (λ x' y' a. omega (arith, a)) split
        (columns-Written w x y f)
        (rows-Written left w x (y + 1) (draw_columns s ascii rect buf clip w x y f))
    where
      split :
          (x' y' : ℕ)
          → Among x (x + w) y (y + suc left) x' y'
          → Among x (x + w) y (y + 1) x' y' ⊎ Among x (x + w) (y + 1) (y + 1 + left) x' y'
      split x' y' a = elim (dec_lt y y') [
        | yes lt ↦ inr (omega (arith, a))
        | no ge ↦ inl (omega (arith, a))
      ]
