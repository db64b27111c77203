-- ===== src/Tests/Windows.antt =====
-- Rectangles and window redraw (Gui/) on two windows.
use shipwreck.Base.{◌≡◌, List, [], ◌∷◌, arith, if◌then◌else◌}
use shipwreck.Base.Int.{pos}
use shipwreck.Gui.Shapes.{Point, Rect}
use shipwreck.Gui.Redraw.{Win, gui_redraw_rect}
use shipwreck.Gui.Redraw.Partition.{within}
use shipwreck.Gui.Redraw.Topmost.{hits, topmost, gui_redraw_rect_lem}

abbrev spot : Point
spot = record { x = pos 15; y = pos 12 }

abbrev left_rect : Rect
left_rect = record { l = pos 0; t = pos 0; r = pos 20; b = pos 20 }

abbrev right_rect : Rect
right_rect = record { l = pos 10; t = pos 10; r = pos 40; b = pos 30 }

abbrev screen : Rect
screen = record { l = pos 0; t = pos 0; r = pos 100; b = pos 100 }

abbrev two_windows : List Win
two_windows = record { id = 1; rect = left_rect } ∷ record { id = 2; rect = right_rect } ∷ []

gui_redraw_rect_lem_example :
    hits spot (gui_redraw_rect screen two_windows)
    ≡ (if within spot screen then topmost spot two_windows else [])
gui_redraw_rect_lem_example = gui_redraw_rect_lem spot screen two_windows (omega arith)
