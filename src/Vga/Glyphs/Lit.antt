-- ===== src/Vga/Glyphs/Lit.antt =====
-- Which pixels a character (devices/vga.cpp) sets.
use shipwreck.Base.{
  ℕ, zero, suc, ◌+◌, ◌-◌, ◌*◌, ◌%◌, ◌^◌, ◌<◌, ◌≤◌, ◌≡◌, ◌∙◌, refl, sym, ap, ap₂, Bool, Bool-cases,
  true, false, inl, inr, ◌&&◌, some, ◌==◌, ltb, if◌then◌else◌, update, arith, dec_lt, all_below,
  all_below_lem,
}
use shipwreck.Base.Bits.{bit}
use shipwreck.Base.Int.{ℤ, pos, pos_part, ◌+ℤ◌, ◌-ℤ◌, ◌≤ℤ◌, ltb_ℤ, int_laws, +ℤ_assoc}
use shipwreck.Gui.Shapes.{Rect, rect_intersect}
use shipwreck.Vga.{Frame, Screen, pixel_offset}
use shipwreck.Vga.Fill.{row_step}
use shipwreck.Vga.Glyphs.Axis.{
  axis_place, among, first_of, end_of, in_axis, axis_among, axis_index, axis_fits, axis_cell,
  out_axis,
}
use shipwreck.Vga.Glyphs.{
  AsciiMap, char_width, char_height, map_index, char_row, char_rows, char_part,
  render_char_xy_clipped,
}
use Prim.Native.Nat.{bit_and}

-- Whether column `k` of a row is set, as the loop finds it.
abbrev lit : ℕ → ℕ → Bool
lit zero bits = if bit_and bits 128 == 0 then false else true
lit (suc k) bits = lit k (bits * 2 % 256)

abbrev same : Bool → Bool → Bool
same true c = c
same false c = if c then false else true

same-eq : (b c : Bool) → same b c ≡ true → b ≡ c
same-eq true true h = refl
same-eq true false h = sym h
same-eq false true h = h
same-eq false false h = refl

-- Column `l + k` of a row, the highest bit being column 0.
abbrev column_test : ℕ → ℕ → ℕ → Bool
column_test bits l k =
    if ltb (l + k) 8 then same (lit k (bits * 2 ^ l % 256)) (bit (7 - (l + k)) bits) else true

columns_test : all_below (λ bits. all_below (λ l. all_below (column_test bits l) 8) 8) 256 ≡ true
columns_test = refl

lit-bit :
    (bits l k : ℕ) → bits < 256 → l + k < 8 → lit k (bits * 2 ^ l % 256) ≡ bit (7 - (l + k)) bits
lit-bit bits l k h lt =
    let one =
      all_below_lem (column_test bits l) 8
        (all_below_lem (λ l. all_below (column_test bits l) 8) 8
          (all_below_lem (λ bits. all_below (λ l. all_below (column_test bits l) 8) 8) 256
            columns_test bits h)
          l (omega arith))
        k (omega arith) in
    let inside : ltb (l + k) 8 ≡ true = ground arith in
    same-eq (lit k (bits * 2 ^ l % 256)) (bit (7 - (l + k)) bits) (
      ap (λ b. if b then same (lit k (bits * 2 ^ l % 256)) (bit (7 - (l + k)) bits) else true)
        (sym inside)
      ∙ one)

-- Two pixels of the screen have the same offset only if they are the same.
same_offset :
    (s : Screen) (px py qx qy : ℕ)
    → px < s.width
    → qx < s.width
    → (pixel_offset s px py == pixel_offset s qx qy) ≡ (py == qy && px == qx)
same_offset s px py qx qy h k = elim (dec_lt py qy) [
  | yes lt ↦ ground (arith, row_step s.width py qy lt)
  | no ge ↦ elim (dec_lt qy py) [
    | yes gt ↦ ground (arith, row_step s.width qy py gt)
    | no le ↦ let e : py ≡ qy = omega arith in ground (arith, e, ap (λ t. t * s.width) e)
  ]
]

lit_next : (px qx bits : ℕ) → px < qx → lit (qx - px) bits ≡ lit (qx - (px + 1)) (bits * 2 % 256)
lit_next px qx bits h =
    let e : qx - px ≡ suc (qx - (px + 1)) = omega arith in ap (λ t. lit t bits) e

char_row_lem :
    (s : Screen) (left px py bits color : ℕ) (f : Frame) (qx qy : ℕ)
    → px + left ≤ s.width
    → qx < s.width
    → char_row s left px py bits color f (pixel_offset s qx qy) ≡ (
        if py == qy && (among px left qx && lit (qx - px) bits)
        then color
        else f (pixel_offset s qx qy))
unfolding char_row
char_row_lem s zero px py bits color f qx qy h k = ground arith
char_row_lem s (suc left) px py bits color f qx qy h k =
    char_row_lem s left (px + 1) py (bits * 2 % 256) color _ qx qy (omega arith) k
    ∙ ground (arith, first, lit_next px qx bits, now)
  where
    now : px ≡ qx → lit (qx - px) bits ≡ lit 0 bits
    now e = let z : qx - px ≡ 0 = omega arith in ap (λ t. lit t bits) z

    first :
        (if bit_and bits 128 == 0 then f else update f (pixel_offset s px py) color)
          (pixel_offset s qx qy)
        ≡ (if py == qy && (px == qx && lit 0 bits) then color else f (pixel_offset s qx qy))
    first = ground (arith, same_offset s px py qx qy (omega arith) k)

module _ (s : Screen) (ascii : AsciiMap) (bytes : (i : ℤ) → ascii i < 256) (l w px color qx qy : ℕ)
    (fits : px + w ≤ s.width) (h : qx < s.width) (cell : l + w ≤ 8) where
  char_rows_lem :
      (left py : ℕ) (index : ℤ) (f : Frame)
      → char_rows s ascii left l w px py index color f (pixel_offset s qx qy) ≡ (
          if among py left qy
            && (among px w qx && bit (7 - (l + (qx - px))) (ascii (index +ℤ pos (qy - py))))
          then color
          else f (pixel_offset s qx qy))
  unfolding char_rows
  char_rows_lem zero py index f = ground arith
  char_rows_lem (suc left) py index f =
      char_rows_lem left (py + 1) (index +ℤ pos 1)
        (char_row s w px py (ascii index * 2 ^ l % 256) color f)
      ∙ ground (
        arith,
        char_row_lem s w px py (ascii index * 2 ^ l % 256) color f qx qy fits h,
        column,
        later,
        now,
      )
    where
      column :
          among px w qx ≡ true
          → lit (qx - px) (ascii index * 2 ^ l % 256) ≡ bit (7 - (l + (qx - px))) (ascii index)
      column e = lit-bit (ascii index) l (qx - px) (bytes index) (ground (arith, e))

      later :
          py < qy → ascii (index +ℤ pos 1 +ℤ pos (qy - (py + 1))) ≡ ascii (index +ℤ pos (qy - py))
      later lt = ap ascii (omega int_laws)

      now : py ≡ qy → ascii (index +ℤ pos (qy - py)) ≡ ascii index
      now e = ap ascii (omega int_laws)

-- Whether column `gx` of row `gy` of the character's bitmap is set.
abbrev pub glyph : AsciiMap → ℕ → ℕ → ℤ → Bool
glyph ascii c gx gy = bit (7 - gx) (ascii (map_index c +ℤ gy))

-- Whether a pixel is in the clip, in the character's cell and set in its bitmap.
abbrev pub drawn : AsciiMap → ℕ → ℤ → ℤ → Rect → ℕ → ℕ → Bool
drawn ascii c x y clip qx qy =
    in_axis clip.t clip.b y char_height qy
    && (in_axis clip.l clip.r x char_width qx
        && glyph ascii c (pos_part (pos qx -ℤ x)) (pos qy -ℤ y))

module _ (s : Screen) (ascii : AsciiMap) (c : ℕ) (x y : ℤ) (color : ℕ) (clip : Rect) (f : Frame)
    (qx qy : ℕ) (bytes : (i : ℤ) → ascii i < 256) (hl : pos 0 ≤ℤ clip.l) (ht : pos 0 ≤ℤ clip.t)
    (hr : clip.r ≤ℤ pos s.width) (h : qx < s.width)
    (across : first_of clip.l x ≤ℤ end_of clip.r x char_width)
    (down : first_of clip.t y ≤ℤ end_of clip.b y char_height) where
  glyph_at :
      in_axis clip.l clip.r x char_width qx ≡ true
      → in_axis clip.t clip.b y char_height qy ≡ true
      → bit
          (7 - (pos_part (first_of clip.l x) + (qx - pos_part (x +ℤ first_of clip.l x))))
          (ascii (map_index c +ℤ first_of clip.t y +ℤ pos (qy - pos_part (y +ℤ first_of clip.t y))))
        ≡ glyph ascii c (pos_part (pos qx -ℤ x)) (pos qy -ℤ y)
  glyph_at e e' =
      ap₂ (λ g i. bit (7 - g) (ascii i)) (axis_place clip.l clip.r x char_width qx hl across e)
        (+ℤ_assoc (map_index c) (first_of clip.t y) _
          ∙ ap (λ i. map_index c +ℤ i) (axis_index clip.t clip.b y char_height qy ht down e'))

  char_part_lem :
      char_part s ascii c x y color
        (some (record {
          l = first_of clip.l x;
          t = first_of clip.t y;
          r = end_of clip.r x char_width;
          b = end_of clip.b y char_height;
        }))
        f
        (pixel_offset s qx qy)
      ≡ (if drawn ascii c x y clip qx qy then color % 2 ^ 16 else f (pixel_offset s qx qy))
  unfolding char_part
  char_part_lem =
      char_rows_lem s ascii bytes (pos_part (first_of clip.l x)) _ _ (color % 2 ^ 16) qx qy
        (axis_fits clip.l clip.r x char_width qx hl across s.width hr) h
        (axis_cell clip.l clip.r x char_width qx hl across)
        (pos_part (end_of clip.b y char_height) - pos_part (first_of clip.t y))
        (pos_part (y +ℤ first_of clip.t y)) (map_index c +ℤ first_of clip.t y) f
      ∙ ground (
        arith,
        axis_among clip.l clip.r x char_width qx hl across,
        axis_among clip.t clip.b y char_height qy ht down,
        glyph_at,
      )

-- For bitmaps of bytes, and a clip that is on the screen: of all pixels of the screen exactly those
-- get the colour that are in the clip and in the cell of 8 by 16 pixels at (x, y), and are set in the
-- bitmap of the character, wherever the clip cuts the cell.
pub render_char_xy_clipped_lem :
    (s : Screen) (ascii : AsciiMap) (c : ℕ) (x y : ℤ) (color : ℕ) (clip : Rect) (f : Frame)
    (qx qy : ℕ)
    → ((i : ℤ) → ascii i < 256)
    → pos 0 ≤ℤ clip.l
    → pos 0 ≤ℤ clip.t
    → clip.r ≤ℤ pos s.width
    → qx < s.width
    → render_char_xy_clipped s ascii c x y color clip f (pixel_offset s qx qy)
      ≡ (if drawn ascii c x y clip qx qy then color % 2 ^ 16 else f (pixel_offset s qx qy))
unfolding render_char_xy_clipped rect_intersect
render_char_xy_clipped_lem s ascii c x y color clip f qx qy bytes hl ht hr h =
    elim (Bool-cases (ltb_ℤ (end_of clip.r x char_width) (first_of clip.l x))) [
      | inl e ↦ rw (e, out_axis clip.l clip.r x char_width qx e) (ground arith)
      | inr e ↦ rw e (elim (Bool-cases (ltb_ℤ (end_of clip.b y char_height) (first_of clip.t y))) [
        | inl e₁ ↦ rw (e₁, out_axis clip.t clip.b y char_height qy e₁) (ground arith)
        | inr e₁ ↦ rw e₁ (
            char_part_lem s ascii c x y color clip f qx qy bytes hl ht hr h (ground (arith, e))
              (ground (arith, e₁)))
      ])
    ]
