-- ===== src/Tests/Painting.antt =====
-- Painting (Vga.antt, Gui/Redraw/Paint.antt) on a screen of 640 by 480.
use shipwreck.Base.{ℕ, zero, suc, ◌≡◌, refl, List, [], ◌∷◌, true, arith, ◌==◌, if◌then◌else◌}
use shipwreck.Base.Int.{pos, negsuc}
use shipwreck.Gui.Shapes.{Rect}
use shipwreck.Gui.Redraw.{Win, gui_redraw_rect}
use shipwreck.Gui.Redraw.Partition.{within}
use shipwreck.Gui.Redraw.Topmost.{topmost}
use shipwreck.Gui.Redraw.Paint.{Below, shows, pixel, draw_windows, draw_windows-shows}
use shipwreck.Vga.{Frame, Screen, pixel_offset, get_alpha, get_pixels, put_pixels}
use shipwreck.Vga.Pixels.{put_pixels-get_pixels}

abbrev vga_screen : Screen
vga_screen = record { width = 640; height = 480 }

abbrev past_left : Rect
past_left = record { l = negsuc 4; t = pos 5; r = pos 20; b = pos 20 }

abbrev all_screen : Rect
all_screen = record { l = pos 0; t = pos 0; r = pos 640; b = pos 480 }

abbrev painted_windows : List Win
painted_windows = record { id = 1; rect = past_left } ∷ record { id = 2; rect = all_screen } ∷ []

abbrev black : Frame
black o = 0

abbrev plain : ℕ → ℕ
plain id = if id == 1 then 992 else 31

abbrev nothing_below : Below
nothing_below w r f = f

plain-opaque : (id : ℕ) → (get_alpha (plain id) == 0) ≡ true
plain-opaque zero = refl
plain-opaque (suc zero) = refl
plain-opaque (suc (suc n)) = ground arith

draw_windows-shows_example :
    draw_windows vga_screen nothing_below plain
      (gui_redraw_rect all_screen painted_windows)
      black
      (pixel_offset vga_screen 7 9)
    ≡ shows plain
        (if within (pixel 7 9) all_screen then topmost (pixel 7 9) painted_windows else [])
        0
draw_windows-shows_example =
    draw_windows-shows vga_screen nothing_below plain all_screen painted_windows black 7 9
      plain-opaque (omega arith) (omega arith) (omega arith)

put_pixels-get_pixels_example :
    put_pixels vga_screen 638 5 4 4
      (get_pixels vga_screen 638 5 4 4 black black)
      (put_pixels vga_screen 638 5 4 4 plain black)
      3838
    ≡ 0
put_pixels-get_pixels_example =
    put_pixels-get_pixels vga_screen 638 5 4 4 plain black black (λ x y h k. refl) 3838
