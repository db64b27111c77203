-- ===== src/Text.antt =====
-- src/include/gui/objects.h, `TextBox`: a text in a ring of characters, row by row, with the cursor
-- behind its last character. `head` and `tail` count characters and stay within an `int`, so they
-- are natural numbers.
pub mod Cells
pub mod Page
pub mod Terminal
use shipwreck.Base.{
  ℕ, zero, suc, ◌+◌, ◌-◌, ◌*◌, ◌/◌, ◌%◌, Bool, true, false, List, [], ◌∷◌, ◌==◌, ltb, leb,
  if◌then◌else◌, length, drop, update,
}
use shipwreck.Base.Int.{ℤ, pos, ◌+ℤ◌, ◌-ℤ◌, ltb_ℤ, eqb_ℤ}
use shipwreck.Gui.Shapes.{Rect}

-- `TextBox::Buffer`
pub record Buffer : Type 0 where
  pub char_w : ℕ
  pub offset_x : ℤ
  pub offset_y : ℤ
  pub head : ℕ
  pub tail : ℕ
  pub max : ℕ
  pub text : ℕ → ℕ

pub record TextBox : Type 0 where
  pub rect : Rect
  pub redraw_rect : Rect
  pub needs_redraw : Bool
  pub buf : Buffer

-- CHAR_SPACING_X and CHAR_SPACING_Y
abbrev pub char_spacing_x : ℕ
char_spacing_x = 8

abbrev pub char_spacing_y : ℕ
char_spacing_y = 20

-- Where a character is drawn, from the corner of the window.
abbrev pub cursor_x : Buffer → ℕ → ℤ
cursor_x b i = pos (i % b.char_w * char_spacing_x) +ℤ b.offset_x

abbrev pub cursor_y : Buffer → ℕ → ℤ
cursor_y b i = pos (i / b.char_w * char_spacing_y) +ℤ b.offset_y

-- The whole window is drawn again, with the text moved down by `dy`.
abbrev pub scrolled : TextBox → ℤ → TextBox
scrolled box dy = record box {
  redraw_rect = record {
    l = pos 0;
    t = pos 0;
    r = box.rect.r -ℤ box.rect.l;
    b = box.rect.b -ℤ box.rect.t;
  };
  needs_redraw = true;
  buf = record box.buf { offset_y = box.buf.offset_y +ℤ dy };
}

-- The rectangle round two cursors: whole rows where they are in different ones.
unfoldable pub cursors_rect : TextBox → ℕ → ℕ → Rect
cursors_rect box old new =
    let old_x = cursor_x box.buf old in
    let old_y = cursor_y box.buf old in
    let new_x = cursor_x box.buf new in
    let new_y = cursor_y box.buf new in
    let same = eqb_ℤ old_y new_y in
    let left = if ltb_ℤ old_x new_x then old_x else new_x in
    let right = if ltb_ℤ old_x new_x then new_x else old_x in
    record {
      l = if same then left else pos 0;
      t = if ltb_ℤ old_y new_y then old_y else new_y;
      r = if same then right +ℤ pos char_spacing_x else box.rect.r -ℤ box.rect.l;
      b = (if ltb_ℤ old_y new_y then new_y else old_y) +ℤ pos char_spacing_y;
    }

unfoldable pub set_redraw_rect : ℕ → ℕ → TextBox → TextBox
unfolding cursors_rect
set_redraw_rect old new box =
    let new_y = cursor_y box.buf new in
    let bottom = new_y +ℤ pos char_spacing_y in
    let rect_h = box.rect.b -ℤ box.rect.t in
    if old == new
    then box
    else if ltb_ℤ new_y (pos 0)
    then scrolled box (pos 0 -ℤ new_y)
    else if ltb_ℤ rect_h bottom
    then scrolled box (rect_h -ℤ bottom)
    else record box { redraw_rect = cursors_rect box old new; needs_redraw = true }

-- `buf->text[i % buf->max] = c`
abbrev pub store : ℕ → ℕ → Buffer → Buffer
store i c b = record b { text = update b.text (i % b.max) c }

-- `buf->text[buf->tail % buf->max] = c; buf->tail++`
abbrev pub put : ℕ → Buffer → Buffer
put c b = record b { text = update b.text (b.tail % b.max) c; tail = b.tail + 1 }

unfoldable pub put_spaces : ℕ → Buffer → Buffer
put_spaces zero b = b
put_spaces (suc left) b = put_spaces left (put b' ' b)

-- One character of `print`: a line feed fills the row with spaces.
unfoldable pub print_char : ℕ → Buffer → Buffer
unfolding put_spaces
print_char c b = if c == 10 then put_spaces (b.char_w - b.tail % b.char_w) b else put c b

unfoldable pub print_chars : List ℕ → Buffer → Buffer
unfolding print_char
print_chars [] b = b
print_chars (c ∷ cs) b = print_chars cs (print_char c b)

-- The loop that blanks the row from `tail` on, and the characters that it leaves.
unfoldable pub blank_row : ℕ → ℕ → Buffer → ℕ → ℕ
blank_row zero i b = b.text
blank_row (suc left) i b = blank_row left (i + 1) (store (b.tail + i) b' ' b)

-- A new row is blank, and the cursor is drawn.
unfoldable pub with_cursor : Buffer → Buffer
unfolding blank_row
with_cursor b =
    let text = if b.tail % b.char_w == 0 then blank_row b.char_w 0 b else b.text in
    store b.tail b'_' (record b { text = text })

-- `print` on the characters that it keeps, up to the call of `set_redraw_rect`.
unfoldable pub print_text : List ℕ → Buffer → Buffer
unfolding print_chars with_cursor
print_text cs b =
    let b' = print_chars cs b in
    let lines = if leb b'.max (b'.tail - b'.head) then b'.char_w else 0 in
    with_cursor (record b' { head = b'.head + lines })

-- The last `max` characters.
abbrev pub last_chars : ℕ → List ℕ → List ℕ
last_chars max cs = if ltb max (length cs) then drop (length cs - max) cs else cs

-- `TextBox::print`
unfoldable pub print : List ℕ → TextBox → TextBox
unfolding print_text set_redraw_rect
print cs box =
    let b = print_text (last_chars box.buf.max cs) box.buf in
    set_redraw_rect box.buf.tail b.tail (record box { buf = b })

-- `TextBox::backspace` up to the call of `set_redraw_rect`.
abbrev pub erase : Buffer → Buffer
erase b = let b₁ = record (store b.tail b' ' b) { tail = b.tail - 1 } in store b₁.tail b'_' b₁

-- `TextBox::backspace`
unfoldable pub backspace : TextBox → TextBox
unfolding set_redraw_rect
backspace box =
    if leb box.buf.tail box.buf.head
    then box
    else set_redraw_rect box.buf.tail (box.buf.tail - 1) (record box { buf = erase box.buf })
