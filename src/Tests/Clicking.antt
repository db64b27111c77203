-- ===== src/Tests/Clicking.antt =====
-- A click on a redrawn screen (Events/Click.antt), a character that is cut (Vga/Glyphs.antt),
-- and a text box (Gui/Redraw/Boxes.antt).
use shipwreck.Base.{ℕ, ◌≡◌, refl, List, [], ◌∷◌, arith, if◌then◌else◌, ◌==◌, none, some}
use shipwreck.Base.Int.{pos, negsuc}
use shipwreck.Gui.Shapes.{Rect}
use shipwreck.Gui.Redraw.{Win, gui_redraw_rect}
use shipwreck.Gui.Redraw.Pick.{Frames, pick_draws}
use shipwreck.Gui.Redraw.Named.{Narrow, plain, within_frame}
use shipwreck.Gui.Redraw.Partition.{within, between}
use shipwreck.Gui.Redraw.Topmost.{topmost}
use shipwreck.Gui.Stack.Windows.{Listed}
use shipwreck.Vga.{Screen, pixel_offset, painted}
use shipwreck.Text.{Buffer}
use shipwreck.Gui.Redraw.Boxes.{Surface, Box, box_color, draw_text_box}
use shipwreck.Gui.Redraw.Boxes.Letters.{Written, lettered}
use shipwreck.Gui.Redraw.Boxes.Culling.{Kept, draw_text_box-Written}
use shipwreck.Vga.Glyphs.{AsciiMap, render_char_xy_clipped}
use shipwreck.Vga.Glyphs.Lit.{drawn, render_char_xy_clipped_lem}
use shipwreck.Events.{Desk, winstack, mouse_left_down}
use shipwreck.Events.Raise.{Raised}
use shipwreck.Events.Click.{click_redrawn-Raised}
use shipwreck.Tests.Dragging.{plain_desk}

abbrev screen_clip : Rect
screen_clip = record { l = pos 0; t = pos 0; r = pos 640; b = pos 480 }

abbrev upper : Rect
upper = record { l = pos 10; t = pos 10; r = pos 20; b = pos 20 }

-- Window 1 covers a part of window 2, which is a frame with window 3 in it.
abbrev shown_windows : List Win
shown_windows = record { id = 1; rect = upper } ∷ record { id = 2; rect = screen_clip } ∷ []

abbrev numbers : ℕ → ℕ
numbers id = id

abbrev inner : Win
inner = record { id = 3; rect = screen_clip }

abbrev one_frame : Frames
one_frame id = if id == 2 then some (inner ∷ []) else none

one_frame-Narrow : Narrow one_frame
one_frame-Narrow id cs e = ground (arith, e)

abbrev redrawn_desk : Desk
redrawn_desk = record plain_desk {
  pick_buffer =
      pick_draws 1 640 numbers one_frame (gui_redraw_rect screen_clip shown_windows) (λ i. 0);
}

redrawn-Listed : Listed (winstack redrawn_desk) (1 ∷ 2 ∷ [])
redrawn-Listed = record {
  top = refl;
  linked = (refl, refl, (refl, refl, tt));
  distinct = ((ground arith, tt), (tt, tt));
}

click_redrawn-Raised_example :
    Raised (1 ∷ []) 2 [] redrawn_desk (mouse_left_down 640 (pos 30) (pos 12) redrawn_desk)
unfolding within between topmost
click_redrawn-Raised_example =
    click_redrawn-Raised 1 640 numbers one_frame screen_clip shown_windows (λ i. 0) 30 12
      (record { id = 2; rect = screen_clip }) inner (1 ∷ []) 2 [] redrawn_desk (omega arith)
      one_frame-Narrow (omega arith) (omega arith) (omega arith) (omega arith) refl refl
      (within_frame 0 (record { id = 2; rect = screen_clip }) inner (inner ∷ []) refl refl
        (plain 0 refl))
      (ground arith) refl refl redrawn-Listed

-- A bitmap in which every row is 11000000.
abbrev stripes : AsciiMap
stripes i = 192

abbrev wide_screen : Screen
wide_screen = record { width = 640; height = 480 }

render_char_xy_clipped_lem_example :
    render_char_xy_clipped wide_screen stripes b'|'
      (pos 9)
      (pos 5)
      992
      upper
      (λ o. 0)
      (pixel_offset wide_screen 10 12)
    ≡ (if drawn stripes b'|' (pos 9) (pos 5) upper 10 12 then 992 else 0)
render_char_xy_clipped_lem_example =
    render_char_xy_clipped_lem wide_screen stripes b'|' (pos 9) (pos 5) 992 upper (λ o. 0) 10 12
      (λ i. omega arith) (omega arith) (omega arith) (omega arith) (omega arith)

abbrev two_letters : Buffer
two_letters = record {
  char_w = 4;
  offset_x = pos 0;
  offset_y = negsuc 3;
  head = 0;
  tail = 6;
  max = 16;
  text = λ i. b'|';
}

abbrev letters : Box
letters = record { gid = 3; rect = upper; buffer = some two_letters }

abbrev blank : Surface
blank = record { frame = λ o. 0; picks = λ o. 0 }

draw_text_box-Written_example :
    Written
      (Kept two_letters)
      (lettered stripes upper two_letters upper 12 14)
      (painted box_color 0)
      (Surface.frame
        (draw_text_box wide_screen stripes (λ r d. d) letters upper blank)
        (pixel_offset wide_screen 12 14))
draw_text_box-Written_example =
    draw_text_box-Written wide_screen stripes (λ r d. d) letters two_letters upper blank 12 14 refl
      (λ i. omega arith) (omega arith) (omega arith) (omega arith) (omega arith) (omega arith)
