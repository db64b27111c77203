-- ===== src/Vga/Glyphs.antt =====
-- src/system/devices/vga.cpp: the characters of text, from the bitmaps that the BIOS holds. The clip
-- of a character is on the screen, so what is drawn has coordinates that are natural numbers.
pub mod Axis
pub mod Lit
use shipwreck.Base.{
  ℕ, zero, suc, ◌+◌, ◌-◌, ◌*◌, ◌%◌, ◌^◌, Bool, Option, none, some, List, [], ◌∷◌, ◌==◌, ltb,
  if◌then◌else◌, update,
}
use shipwreck.Base.Int.{ℤ, pos, negsuc, pos_part, ◌+ℤ◌, ◌-ℤ◌, ◌*ℤ◌}
use shipwreck.Gui.Shapes.{Rect, rect_intersect}
use shipwreck.Vga.{Frame, Screen, screen_rect, pixel_offset}
use Prim.Native.Nat.{bit_and}

-- CHAR_WIDTH, CHAR_HEIGHT and CHAR_SPACING_X
abbrev pub char_width : ℕ
char_width = 8

abbrev pub char_height : ℕ
char_height = 16

abbrev pub char_spacing : ℕ
char_spacing = 8

-- ASCII_MAP, the bytes of the bitmaps.
abbrev pub AsciiMap : Type 0
AsciiMap = ℤ → ℕ

-- `(int) c * CHAR_HEIGHT` of a `char`, which has a sign.
abbrev pub map_index : ℕ → ℤ
map_index c = (if ltb c 128 then pos c else negsuc (255 - c)) *ℤ pos char_height

-- The inner loop, over `left` columns from pixel (px, py) on.
unfoldable pub char_row : Screen → ℕ → ℕ → ℕ → ℕ → ℕ → Frame → Frame
char_row s zero px py bits color f = f
char_row s (suc left) px py bits color f =
    char_row s left (px + 1) py (bits * 2 % 256) color
      (if bit_and bits 128 == 0 then f else update f (pixel_offset s px py) color)

-- The outer loop, over `left` rows of `w` columns; `l` columns of the character are cut off.
unfoldable pub char_rows : Screen → AsciiMap → ℕ → ℕ → ℕ → ℕ → ℕ → ℤ → ℕ → Frame → Frame
unfolding char_row
char_rows s ascii zero l w px py index color f = f
char_rows s ascii (suc left) l w px py index color f =
    char_rows s ascii left l w px (py + 1) (index +ℤ pos 1) color
      (char_row s w px py (ascii index * 2 ^ l % 256) color f)

-- A rectangle seen from (x, y).
abbrev pub seen_from : ℤ → ℤ → Rect → Rect
seen_from x y clip = record { l = clip.l -ℤ x; t = clip.t -ℤ y; r = clip.r -ℤ x; b = clip.b -ℤ y }

abbrev pub text_rect : Rect
text_rect = record { l = pos 0; t = pos 0; r = pos char_width; b = pos char_height }

-- The part `r` of the character is drawn.
unfoldable pub char_part : Screen → AsciiMap → ℕ → ℤ → ℤ → ℕ → Option Rect → Frame → Frame
unfolding char_rows
char_part s ascii c x y color none f = f
char_part s ascii c x y color (some r) f =
    char_rows s ascii (pos_part r.b - pos_part r.t) (pos_part r.l) (pos_part r.r - pos_part r.l)
      (pos_part (x +ℤ r.l)) (pos_part (y +ℤ r.t)) (map_index c +ℤ r.t) (color % 2 ^ 16) f

unfoldable pub render_char_xy_clipped : Screen → AsciiMap → ℕ → ℤ → ℤ → ℕ → Rect → Frame → Frame
unfolding char_part
render_char_xy_clipped s ascii c x y color clip f =
    char_part s ascii c x y color (rect_intersect (seen_from x y clip) text_rect) f

unfoldable pub render_char_xy : Screen → AsciiMap → ℕ → ℤ → ℤ → ℕ → Frame → Frame
unfolding render_char_xy_clipped
render_char_xy s ascii c x y color f = render_char_xy_clipped s ascii c x y color (screen_rect s) f

-- The characters of a text side by side.
unfoldable pub render_text_xy_clipped :
    Screen → AsciiMap → List ℕ → ℤ → ℤ → ℕ → Rect → Frame → Frame
unfolding render_char_xy_clipped
render_text_xy_clipped s ascii [] x y color clip f = f
render_text_xy_clipped s ascii (c ∷ cs) x y color clip f =
    render_text_xy_clipped s ascii cs (x +ℤ pos char_spacing) y color clip
      (render_char_xy_clipped s ascii c x y color clip f)

unfoldable pub render_text_xy : Screen → AsciiMap → List ℕ → ℤ → ℤ → ℕ → Frame → Frame
unfolding render_text_xy_clipped
render_text_xy s ascii cs x y color f =
    render_text_xy_clipped s ascii cs x y color (screen_rect s) f
