-- ===== src/Tests/Texts.antt =====
-- Texts (Text.antt): a box of two rows of four characters, and keys that are read as a line.
use shipwreck.Base.{ℕ, ◌≡◌, refl, false, List, [], ◌∷◌, some, arith, if◌then◌else◌, ◌==◌}
use shipwreck.Base.Int.{pos, ◌+ℤ◌, ◌-ℤ◌}
use shipwreck.Gui.Shapes.{Rect}
use shipwreck.Text.{
  TextBox, print, print_text, print_chars, print_char, with_cursor, set_redraw_rect, last_chars,
}
use shipwreck.Text.Cells.{Page, Shows, write}
use shipwreck.Text.Page.{Displays, print-Displays}
use shipwreck.Text.Terminal.{KeyRing, Reading, read_line, getchar}
use shipwreck.Text.Terminal.Ring.{Holds}
use shipwreck.Text.Terminal.Line.{Is, edit, line_limit, read_line-edit}

abbrev window : Rect
window = record { l = pos 0; t = pos 0; r = pos 32; b = pos 40 }

abbrev empty_box : TextBox
empty_box = record {
  rect = window;
  redraw_rect = window;
  needs_redraw = false;
  buf = record {
    char_w = 4;
    offset_x = pos 0;
    offset_y = pos 0;
    head = 0;
    tail = 0;
    max = 8;
    text = λ i. 0;
  };
}

-- One character has been printed.
abbrev started_box : TextBox
started_box = record empty_box {
  buf = record empty_box.buf { tail = 1; text = λ i. if i == 0 then b'>' else 0 };
}

abbrev empty_page : Page
empty_page = record { cells = λ i. b' '; cursor = 0 }

abbrev started_page : Page
started_page = record { cells = λ i. if 0 == i then b'>' else b' '; cursor = 1 }

empty-Shows : Shows 0 empty_box.buf empty_page
empty-Shows = record { tail = refl; cells = λ i h1 h2 h3. elim h2 [ ]; blank = λ i h. refl }

started-Shows : Shows 0 started_box.buf started_page
started-Shows = record {
  tail = refl;
  cells = λ i h1 h2 h3. ground arith;
  blank = λ i h. ground arith;
}

-- The second row was filled before a print that ends in it: what is behind the cursor stays.
abbrev full_box : TextBox
full_box = record empty_box { buf = record empty_box.buf { tail = 7; text = λ i. b'x' } }

-- Behind "ab" in the row that it starts there is an old character.
print-stale : (print (b'.' ∷ b'a' ∷ b'b' ∷ []) full_box).buf.text 3 ≡ b'x'
unfolding print print_text print_chars print_char with_cursor set_redraw_rect ◌+ℤ◌ ◌-ℤ◌
print-stale = refl

print-Displays_example :
    Displays 0
      (print (b'a' ∷ 10 ∷ b'b' ∷ []) empty_box).buf
      (write 4 (last_chars 8 (b'a' ∷ 10 ∷ b'b' ∷ [])) empty_page)
print-Displays_example =
    print-Displays (b'a' ∷ 10 ∷ b'b' ∷ []) 0 empty_box empty_page empty-Shows (omega arith)
      (omega arith)

abbrev no_keys : KeyRing
no_keys = record { input_buf = λ i. 0; head = 0; tail = 0; signal = 0 }

no_keys-Holds : Holds no_keys []
no_keys-Holds = record { tail = refl; signal = refl; fits = omega arith; keys = λ i h. elim h [ ] }

-- After 64 keys `getchar` does not find the key that was sent last.
getchar-past_end :
    getchar
      (record { input_buf = λ i. if i == 0 then b'k' else 0; head = 64; tail = 65; signal = 1 })
    ≡ some (
      0,
      record { input_buf = λ i. if i == 0 then b'k' else 0; head = 65; tail = 65; signal = 0 },
    )
unfolding getchar
getchar-past_end = refl

-- "ab", a backspace and "c" come at once, then the line feed and another key.
abbrev sent : ℕ → List ℕ
sent n = if n == 0 then b'a' ∷ b'b' ∷ 8 ∷ b'c' ∷ [] else if n == 4 then 10 ∷ b'd' ∷ [] else []

read_line-edit_example :
    (k' : KeyRing) × ((s : Reading) × (read_line 5 sent 20 no_keys empty_box (λ i. 0)
        ≡ some (k', s))
      × Is (10 ∷ edit (line_limit 20) (b'a' ∷ b'b' ∷ 8 ∷ b'c' ∷ []) []) s
      × Holds k' (b'd' ∷ []))
read_line-edit_example =
    read_line-edit (b'a' ∷ b'b' ∷ 8 ∷ b'c' ∷ []) sent 20 [] (b'd' ∷ []) no_keys empty_box (λ i. 0)
      (omega arith) (ground arith, (ground arith, (ground arith, (ground arith, tt))))
      (
        omega arith,
        (
          b'b' ∷ 8 ∷ b'c' ∷ [],
          refl,
          (
            omega arith,
            (
              8 ∷ b'c' ∷ [],
              refl,
              (
                omega arith,
                (
                  b'c' ∷ [],
                  refl,
                  (omega arith, ([], refl, (omega arith, (b'd' ∷ [], refl, refl)))),
                ),
              ),
            ),
          ),
        ),
      )
      no_keys-Holds
