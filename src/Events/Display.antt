-- ===== src/Events/Display.antt =====
-- src/system/events.cpp: what the messages of the display worker make it draw.
use shipwreck.Base.{ℕ, zero, suc, Option, none, some, List, [], ◌∷◌, ◌++◌}
use shipwreck.Gui.Shapes.{Rect, rect_intersect}
use shipwreck.Gui.Redraw.{Win, Draw, gui_redraw_rect}
use shipwreck.Gui.Frames.{Links, Windows}
use shipwreck.Events.{Desk, DisplayMsg, redraw_screen, redraw_mouse, redraw_window, redraw_rect}

-- The windows from `o` down, as `gui_redraw_rect` goes through them.
unfoldable pub windows_below : ℕ → Links → Windows → Option ℕ → List Win
windows_below zero l ws o = []
windows_below (suc left) l ws none = []
windows_below (suc left) l ws (some w) =
    record { id = w; rect = ws.rect w } ∷ windows_below left l ws (l.at w).next

abbrev pub draws_from : Desk → Option ℕ → Rect → List Draw
draws_from d o clip = gui_redraw_rect clip (windows_below 256 d.links d.windows o)

abbrev pub draws_in : Desk → Option ℕ → Option Rect → List Draw
draws_in d o none = []
draws_in d o (some clip) = draws_from d o clip

-- What is drawn of `area` on the screen, from window `o` down.
abbrev pub draws_clipped : Desk → Option ℕ → Rect → List Draw
draws_clipped d o area = draws_in d o (rect_intersect area (Windows.rect d.windows d.desktop))

-- The switch of `DisplayWorker::run`, for one message.
unfoldable pub display_message : Desk → DisplayMsg → List Draw
unfolding windows_below
display_message d redraw_screen = draws_from d d.top (Windows.rect d.windows d.desktop)
display_message d redraw_mouse = []
display_message d (redraw_window none) = []
display_message d (redraw_window (some w)) = draws_clipped d (some w) (Windows.rect d.windows w)
display_message d (redraw_rect r) = draws_clipped d d.top r

-- The loop of `DisplayWorker::run`.
unfoldable pub display_messages : Desk → List DisplayMsg → List Draw
unfolding display_message
display_messages d [] = []
display_messages d (msg ∷ msgs) = display_message d msg ++ display_messages d msgs
