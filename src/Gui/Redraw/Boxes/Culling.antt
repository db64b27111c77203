-- ===== src/Gui/Redraw/Boxes/Culling.antt =====
-- A text box (system/gui.cpp) goes through all characters that its clip shows.
use shipwreck.Base.{
  ℕ, ◌+◌, ◌-◌, ◌/◌, ◌<◌, ◌≤◌, ◌≡◌, inl, inr, refl, subst, Bool, Bool-cases, true, ◌&&◌, some,
  if◌then◌else◌, arith,
}
use shipwreck.Base.Int.{ℤ, pos, pos_part, ◌≤ℤ◌, ltb_ℤ}
use shipwreck.Gui.Shapes.{Rect, rect_intersect}
use shipwreck.Text.{Buffer}
use shipwreck.Vga.{Frame, Screen, pixel_offset, painted, rect_fill}
use shipwreck.Vga.Fill.{inside, rect_fill_lem}
use shipwreck.Vga.Glyphs.{AsciiMap}
use shipwreck.Gui.Redraw.Boxes.{
  Box, Surface, box_color, virt_x, virt_y, draw_part, draw_text, draw_text_box, text_clip,
  text_rect,
}
use shipwreck.Gui.Redraw.Boxes.Letters.{Written, by_char, untouched, Among, lettered, rows-Written}
use shipwreck.Gui.Redraw.Boxes.Parts.{
  columns_kept, rows_kept, in_both, wide, tall, both, InPart, axis_kept, axis_inside,
}

-- The characters of the text that the buffer keeps, in columns up to `char_w` and rows up to that of
-- the tail, as the loops go.
abbrev pub Kept : Buffer → ℕ → ℕ → Type 0
Kept buf x y = (x ≤ buf.char_w) × (buf.head / buf.char_w ≤ y) × (y ≤ buf.tail / buf.char_w)

-- Characters that cannot be seen may be left out.
widen :
    {P Q : ℕ → ℕ → Type 0} {d : ℕ → ℕ → Bool} {old new : ℕ}
    → ((x y : ℕ) → P x y → Q x y)
    → ((x y : ℕ) → Q x y → d x y ≡ true → P x y)
    → Written P d old new
    → Written Q d old new
widen p q (by_char x y h e n) = by_char x y (p x y h) e n
widen {d = d} p q (untouched k n) =
    untouched (λ x y h. elim (Bool-cases (d x y)) [ inl e ↦ k x y (q x y h e) | inr e ↦ e ]) n

first_two : (a b c : Bool) → (a && (b && c)) ≡ true → (a ≡ true) × (b ≡ true)
first_two a b c e = ground (arith, e)

in_text : (buf : Buffer) (x y : ℕ) → Kept buf x y → InPart (text_rect buf) x y
in_text buf x y k = (omega arith, omega (arith, k), omega (arith, k), omega (arith, k))

-- What the clip shows is in the part that is drawn.
in_clip :
    (ascii : AsciiMap) (rect : Rect) (buf : Buffer) (clip : Rect) (qx qy x y : ℕ)
    → lettered ascii rect buf clip qx qy x y ≡ true
    → InPart (text_clip rect buf clip) x y
in_clip ascii rect buf clip qx qy x y e =
    let axes = first_two _ _ _ e in
    let xs = columns_kept clip.l clip.r (virt_x rect buf) x qx axes.1 in
    let ys = rows_kept clip.t clip.b (virt_y rect buf) y qy axes.0 in (xs.0, xs.1, ys.0, ys.1)

module _ (s : Screen) (ascii : AsciiMap) (rect : Rect) (buf : Buffer) (clip : Rect) (qx qy : ℕ)
    (bytes : (i : ℤ) → ascii i < 256) (hl : pos 0 ≤ℤ clip.l) (ht : pos 0 ≤ℤ clip.t)
    (hr : clip.r ≤ℤ pos s.width) (h : qx < s.width) where
  abbrev shown : ℕ → ℕ → Bool
  shown = lettered ascii rect buf clip qx qy

  abbrev part : Rect
  part = both (text_clip rect buf clip) (text_rect buf)

  in_part : (x y : ℕ) → Kept buf x y → shown x y ≡ true → InPart part x y
  in_part x y k e =
      in_both (text_clip rect buf clip) (text_rect buf) x y
        (in_clip ascii rect buf clip qx qy x y e) (in_text buf x y k)

  nothing :
      (f : Frame)
      → ((x y : ℕ) → InPart part x y → ⊥)
      → Written (Kept buf) shown (f (pixel_offset s qx qy)) (f (pixel_offset s qx qy))
  nothing f empty =
      untouched
        (λ x y k. elim (Bool-cases (shown x y)) [
          | inl e ↦ absurd (empty x y (in_part x y k e))
          | inr e ↦ e
        ])
        refl

  draw_part-Written :
      (f : Frame)
      → part.l ≤ℤ part.r
      → part.t ≤ℤ part.b
      → Written
          (Kept buf)
          shown
          (f (pixel_offset s qx qy))
          (draw_part s ascii rect buf clip (some part) f (pixel_offset s qx qy))
  draw_part-Written f across down =
      widen (λ x y a. kept x y a.0 a.1 a.2 a.3)
        (λ x y k e. let i = in_part x y k e in inside_part x y i.0 i.1 i.2 i.3)
        (rows-Written s ascii rect buf clip qx qy bytes hl ht hr h
          (pos_part part.b - pos_part part.t + 1) (pos_part part.r - pos_part part.l + 1)
          (pos_part part.l) (pos_part part.t) f)
    where
      inside_part :
          (x y : ℕ)
          → part.l ≤ℤ pos x
          → pos x ≤ℤ part.r
          → part.t ≤ℤ pos y
          → pos y ≤ℤ part.b
          → Among
              (pos_part part.l)
              (pos_part part.l + (pos_part part.r - pos_part part.l + 1))
              (pos_part part.t)
              (pos_part part.t + (pos_part part.b - pos_part part.t + 1))
              x
              y
      inside_part x y l r t b =
          let xs = axis_inside _ _ _ _ x l r in
          let ys = axis_inside _ _ _ _ y t b in (xs.0, xs.1, ys.0, ys.1)

      kept :
          (x y : ℕ)
          → pos_part part.l ≤ x
          → x < pos_part part.l + (pos_part part.r - pos_part part.l + 1)
          → pos_part part.t ≤ y
          → y < pos_part part.t + (pos_part part.b - pos_part part.t + 1)
          → Kept buf x y
      kept x y l r t b =
          let xs = axis_kept _ _ _ _ x across l r in
          let ys = axis_kept _ _ _ _ y down t b in (xs.1, ys.0, ys.1)

  text-Written :
      (f : Frame)
      → Written
          (Kept buf)
          shown
          (f (pixel_offset s qx qy))
          (draw_text s ascii rect buf clip f (pixel_offset s qx qy))
  unfolding draw_text rect_intersect
  text-Written f = elim (Bool-cases (ltb_ℤ part.r part.l)) [
    | inl e ↦ rw e (nothing f (λ x y i. wide part x y i e))
    | inr e ↦ rw e (elim (Bool-cases (ltb_ℤ part.b part.t)) [
      | inl e₁ ↦ rw e₁ (nothing f (λ x y i. tall part x y i e₁))
      | inr e₁ ↦ rw e₁ (draw_part-Written f (ground (arith, e)) (ground (arith, e₁)))
    ])
  ]

-- A text box with a text, on a clip that is on the screen, for bitmaps of bytes: a pixel gets the
-- green of the text if one of the characters that the buffer keeps (columns up to `char_w`, rows from
-- that of the head up to that of the tail) is drawn on it within the clip, though only those are gone
-- through that the clip is found to show. If none is, it has what stands behind the box, painted with
-- the box's colour in the clip and left alone outside.
pub draw_text_box-Written :
    (s : Screen) (ascii : AsciiMap) (behind : Rect → Surface → Surface) (box : Box) (buf : Buffer)
    (clip : Rect) (shown : Surface) (qx qy : ℕ)
    → box.buffer ≡ some buf
    → ((i : ℤ) → ascii i < 256)
    → pos 0 ≤ℤ clip.l
    → pos 0 ≤ℤ clip.t
    → clip.r ≤ℤ pos s.width
    → qx < s.width
    → qy < s.height
    → let q = pixel_offset s qx qy in
      let old = Surface.frame (behind clip shown) q in
      Written
        (Kept buf)
        (lettered ascii box.rect buf clip qx qy)
        (if inside qx qy clip then painted box_color old else old)
        (Surface.frame (draw_text_box s ascii behind box clip shown) q)
unfolding draw_text_box
draw_text_box-Written s ascii behind box buf clip shown qx qy e bytes hl ht hr h k =
    let filled : Frame = rect_fill s clip box_color (Surface.frame (behind clip shown)) in
    rw e (
      subst
        (λ old.
          Written (Kept buf) (lettered ascii box.rect buf clip qx qy) old
            (draw_text s ascii box.rect buf clip filled (pixel_offset s qx qy)))
        (rect_fill_lem s clip box_color (Surface.frame (behind clip shown)) qx qy h k)
        (text-Written s ascii box.rect buf clip qx qy bytes hl ht hr h filled))
