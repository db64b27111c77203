-- ===== src/Gui/Redraw/Boxes.antt =====
-- src/system/gui.cpp: what a text box draws. What stands behind it, which `gui_redraw_rect` draws
-- first, is a parameter.
pub mod Letters
pub mod Parts
pub mod Culling
use shipwreck.Base.{ℕ, zero, suc, ◌+◌, ◌-◌, ◌*◌, ◌/◌, ◌%◌, ◌^◌, Option, none, some}
use shipwreck.Base.Int.{ℤ, pos, negsuc, pos_part, ◌+ℤ◌, ◌-ℤ◌}
use shipwreck.Gui.Shapes.{Rect, rect_intersect}
use shipwreck.Gui.Redraw.Pick.{Picks, update_pick_buf}
use shipwreck.Text.{Buffer, char_spacing_x, char_spacing_y}
use shipwreck.Vga.{Frame, Screen, rect_fill}
use shipwreck.Vga.Glyphs.{AsciiMap, render_char_xy_clipped}
use Prim.Native.Nat.{bit_and}

-- What is on the screen, and the windows that its pixels belong to.
pub record Surface : Type 0 where
  pub frame : Frame
  pub picks : Picks

-- `/` on an `int`, which rounds towards 0.
abbrev pub quotient : ℤ → ℕ → ℤ
quotient (pos n) d = pos (n / d)
quotient (negsuc n) d = pos 0 -ℤ pos (suc n / d)

unfoldable pub fast_blend : ℕ → ℕ → ℕ
fast_blend a b = (bit_and a 31711 + bit_and b 31711) / 2 % 2 ^ 16

abbrev pub green : ℕ
green = 992

-- Black and green with alpha 1.
unfoldable pub box_color : ℕ
unfolding fast_blend
box_color = 2 ^ 16 + fast_blend 0 (fast_blend 0 green)

-- A text box on the screen.
pub record Box : Type 0 where
  pub gid : ℕ
  pub rect : Rect
  pub buffer : Option Buffer

-- Where character 0 of the text stands.
abbrev pub virt_x : Rect → Buffer → ℤ
virt_x rect buf = rect.l +ℤ buf.offset_x

abbrev pub virt_y : Rect → Buffer → ℤ
virt_y rect buf = rect.t +ℤ buf.offset_y

abbrev pub char_at : Buffer → ℕ → ℕ → ℕ
char_at buf x y = buf.text ((y * buf.char_w + x) % buf.max)

-- The clip in characters, and the part of the text that is kept in the buffer.
abbrev pub text_clip : Rect → Buffer → Rect → Rect
text_clip rect buf clip = record {
  l = quotient (clip.l -ℤ virt_x rect buf) char_spacing_x;
  t = quotient (clip.t -ℤ virt_y rect buf) char_spacing_y;
  r = quotient (clip.r -ℤ virt_x rect buf) char_spacing_x;
  b = quotient (clip.b -ℤ virt_y rect buf) char_spacing_y;
}

abbrev pub text_rect : Buffer → Rect
text_rect buf = record {
  l = pos 0;
  t = pos (buf.head / buf.char_w);
  r = pos buf.char_w;
  b = pos (buf.tail / buf.char_w);
}

module _ (s : Screen) (ascii : AsciiMap) (rect : Rect) (buf : Buffer) (clip : Rect) where
  abbrev pub draw_char : ℕ → ℕ → Frame → Frame
  draw_char x y f =
      render_char_xy_clipped s ascii (char_at buf x y) (virt_x rect buf +ℤ pos (x * char_spacing_x))
        (virt_y rect buf +ℤ pos (y * char_spacing_y)) green clip f

  -- The inner loop, over `left` characters from column `x` on.
  unfoldable pub draw_columns : ℕ → ℕ → ℕ → Frame → Frame
  draw_columns zero x y f = f
  draw_columns (suc left) x y f = draw_columns left (x + 1) y (draw_char x y f)

  -- The outer loop; each row has `w` characters from column `x` on.
  unfoldable pub draw_rows : ℕ → ℕ → ℕ → ℕ → Frame → Frame
  unfolding draw_columns
  draw_rows zero w x y f = f
  draw_rows (suc left) w x y f = draw_rows left w x (y + 1) (draw_columns w x y f)

  -- Both loops go on to the last row and column with them.
  abbrev pub draw_part : Option Rect → Frame → Frame
  draw_part none f = f
  draw_part (some p) f =
      draw_rows (pos_part p.b - pos_part p.t + 1) (pos_part p.r - pos_part p.l + 1) (pos_part p.l)
        (pos_part p.t) f

  unfoldable pub draw_text : Frame → Frame
  unfolding draw_rows
  draw_text f = draw_part (rect_intersect (text_clip rect buf clip) (text_rect buf)) f

abbrev pub draw_buffer : Screen → AsciiMap → Rect → Option Buffer → Rect → Frame → Frame
draw_buffer s ascii rect none clip f = f
draw_buffer s ascii rect (some buf) clip f = draw_text s ascii rect buf clip f

-- `GUITextBox::draw`
unfoldable pub draw_text_box :
    Screen → AsciiMap → (Rect → Surface → Surface) → Box → Rect → Surface → Surface
unfolding draw_text
draw_text_box s ascii behind box clip shown =
    let below = behind clip shown in
    let picks = update_pick_buf s.width clip box.gid below.picks in
    let filled = rect_fill s clip box_color below.frame in
    record { frame = draw_buffer s ascii box.rect box.buffer clip filled; picks = picks }
