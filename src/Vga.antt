-- ===== src/Vga.antt =====
-- src/system/devices/vga.cpp: drawing in the frame buffer. A pixel is a number below 2 ^ 16, and
-- the buffer is a function of the pixel's offset, row by row. Every coordinate that is drawn at has
-- been clamped to the screen, so it is a natural number.
pub mod Fill
pub mod Pixels
pub mod Glyphs
use shipwreck.Base.{ℕ, zero, suc, ◌+◌, ◌-◌, ◌*◌, ◌/◌, ◌%◌, ◌^◌, Bool, ◌==◌, if◌then◌else◌, update}
use shipwreck.Base.Int.{ℤ, pos, pos_part}
use shipwreck.Gui.Shapes.{Point, Rect, clamp_in_to_rect}
use Prim.Native.Nat.{bit_and}

abbrev pub Frame : Type 0
Frame = ℕ → ℕ

-- VGA_WIDTH and VGA_HEIGHT
pub record Screen : Type 0 where
  pub width : ℕ
  pub height : ℕ

abbrev pub screen_rect : Screen → Rect
screen_rect s = record { l = pos 0; t = pos 0; r = pos s.width; b = pos s.height }

unfoldable pub clip_to_screen : Screen → ℤ → ℤ → Point
clip_to_screen s x y = clamp_in_to_rect (record { x = x; y = y }) (screen_rect s)

-- VGA_PIXEL_OFFSET
abbrev pub pixel_offset : Screen → ℕ → ℕ → ℕ
pixel_offset s x y = y * s.width + x

unfoldable pub fast_blend_factor : ℕ → ℕ → ℕ → ℕ
fast_blend_factor a b factor =
    let maskbits = 2 ^ factor - 1 in
    let mask = 2 ^ 32 - 1 - (maskbits + maskbits * 32 + maskbits * 1024) in
    (bit_and a mask * maskbits + bit_and b mask) / 2 ^ factor % 2 ^ 16

-- GET_ALPHA
abbrev pub get_alpha : ℕ → ℕ
get_alpha col = bit_and col (7 * 2 ^ 16)

-- What a pixel becomes when it is drawn in `col`.
unfoldable pub painted : ℕ → ℕ → ℕ
unfolding fast_blend_factor
painted col old =
    if get_alpha col == 0
    then col % 2 ^ 16
    else fast_blend_factor old (col % 2 ^ 16) (get_alpha col / 2 ^ 16)

unfoldable pub pset : Screen → ℤ → ℤ → ℕ → Frame → Frame
unfolding clip_to_screen painted
pset s x y col f =
    let p = clip_to_screen s x y in
    let o = pixel_offset s (pos_part p.x) (pos_part p.y) in update f o (painted col (f o))

-- `left` pixels from offset `o` on, painted one after the other.
unfoldable pub paint_from : ℕ → ℕ → ℕ → Frame → Frame
paint_from zero o col f = f
paint_from (suc left) o col f = paint_from left (o + 1) col (update f o (painted col (f o)))

-- The outer loop of `rect_fill`, over `left` rows from row `y` on.
unfoldable pub fill_rows : Screen → ℕ → ℕ → ℕ → ℕ → ℕ → Frame → Frame
unfolding paint_from
fill_rows s zero y l r col f = f
fill_rows s (suc left) y l r col f =
    fill_rows s left (y + 1) l r col (paint_from (r - l) (pixel_offset s l y) col f)

unfoldable pub rect_fill : Screen → Rect → ℕ → Frame → Frame
unfolding fill_rows clip_to_screen
rect_fill s rect col f =
    let from = clip_to_screen s rect.l rect.t in
    let to = clip_to_screen s rect.r rect.b in
    fill_rows s (pos_part to.y - pos_part from.y) (pos_part from.y) (pos_part from.x)
      (pos_part to.x) col f

unfoldable pub row_from : Screen → ℕ → ℕ → ℕ → ℕ → Frame → Frame
row_from s zero y x col f = f
row_from s (suc left) y x col f =
    row_from s left y (x + 1) col (update f (pixel_offset s x y) (col % 2 ^ 16))

unfoldable pub row_line : Screen → ℕ → ℕ → ℕ → ℕ → Frame → Frame
unfolding row_from
row_line s y left right col f = row_from s (right - left) y left col f

unfoldable pub column_from : Screen → ℕ → ℕ → ℕ → ℕ → Frame → Frame
column_from s zero x y col f = f
column_from s (suc left) x y col f =
    column_from s left x (y + 1) col (update f (pixel_offset s x y) (col % 2 ^ 16))

unfoldable pub column_line : Screen → ℕ → ℕ → ℕ → ℕ → Frame → Frame
unfolding column_from
column_line s x top bottom col f = column_from s (bottom - top) x top col f

unfoldable pub rect_line : Screen → Rect → ℕ → Frame → Frame
unfolding row_line column_line clip_to_screen
rect_line s rect col f =
    let from = clip_to_screen s rect.l rect.t in
    let to = clip_to_screen s rect.r rect.b in
    let l = pos_part from.x in
    let t = pos_part from.y in
    let r = pos_part to.x in
    let b = pos_part to.y in
    column_line s r t b col
      (column_line s l t b col (row_line s b l r col (row_line s t l r col f)))

-- The inner loop of `get_pixels` and `put_pixels`: `left` rows of column `x` from row `y` on. A
-- bitmap is stored column by column.
unfoldable pub get_column : Screen → ℕ → ℕ → ℕ → ℕ → ℕ → ℕ → Frame → (ℕ → ℕ) → ℕ → ℕ
get_column s zero start_x start_y h x y f buf = buf
get_column s (suc left) start_x start_y h x y f buf =
    get_column s left start_x start_y h x (y + 1) f
      (update buf (x * h + y) (f (pixel_offset s (x + start_x) (y + start_y))))

unfoldable pub get_columns : Screen → ℕ → ℕ → ℕ → ℕ → ℕ → Frame → (ℕ → ℕ) → ℕ → ℕ
unfolding get_column
get_columns s zero start_x start_y h x f buf = buf
get_columns s (suc left) start_x start_y h x f buf =
    get_columns s left start_x start_y h (x + 1) f (get_column s h start_x start_y h x 0 f buf)

unfoldable pub get_pixels : Screen → ℕ → ℕ → ℕ → ℕ → Frame → (ℕ → ℕ) → ℕ → ℕ
unfolding get_columns
get_pixels s start_x start_y w h f buf = get_columns s w start_x start_y h 0 f buf

-- A pixel 1 of the bitmap is not drawn.
unfoldable pub put_column : Screen → ℕ → ℕ → ℕ → ℕ → ℕ → ℕ → (ℕ → ℕ) → Frame → Frame
put_column s zero start_x start_y h x y buf f = f
put_column s (suc left) start_x start_y h x y buf f =
    let o = pixel_offset s (x + start_x) (y + start_y) in
    put_column s left start_x start_y h x (y + 1) buf
      (if buf (x * h + y) == 1 then f else update f o (buf (x * h + y)))

unfoldable pub put_columns : Screen → ℕ → ℕ → ℕ → ℕ → ℕ → (ℕ → ℕ) → Frame → Frame
unfolding put_column
put_columns s zero start_x start_y h x buf f = f
put_columns s (suc left) start_x start_y h x buf f =
    put_columns s left start_x start_y h (x + 1) buf (put_column s h start_x start_y h x 0 buf f)

unfoldable pub put_pixels : Screen → ℕ → ℕ → ℕ → ℕ → (ℕ → ℕ) → Frame → Frame
unfolding put_columns
put_pixels s start_x start_y w h buf f = put_columns s w start_x start_y h 0 buf f
