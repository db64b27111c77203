-- ===== src/Tests/Updating.antt =====
-- A process that describes a frame and a window in it (Gui/Update.antt).
use shipwreck.Base.{refl, true, false, none, some, inl, [], arith, ◌==◌, if◌then◌else◌}
use shipwreck.Base.Int.{pos}
use shipwreck.Gui.Shapes.{Rect}
use shipwreck.Gui.Update.{UserWindow, Manager, window, window_frame, no_class, update_window}
use shipwreck.Gui.Stack.Order.{placed}
use shipwreck.Gui.Update.Hung.{Children, keyed}
use shipwreck.Gui.Update.Place.{Placed, is_new, hung_at, update_window-Placed}

abbrev frame_rect : Rect
frame_rect = record { l = pos 100; t = pos 50; r = pos 300; b = pos 200 }

abbrev small_rect : Rect
small_rect = record { l = pos 5; t = pos 5; r = pos 20; b = pos 20 }

-- Process 1 has its window 0, which is 16 to the manager, as a frame.
abbrev manager : Manager
manager = record {
  links = record {
    at = λ w. record { zindex = pos 0; next = none; prev = none };
    is_frame = λ w. w == 16;
    children = λ w. none;
  };
  windows = record {
    rect = λ w. frame_rect;
    needs_update = λ w. false;
    parent = λ w. none;
    wm_root = λ w. none;
    pid = λ w. 1;
  };
  winclass = λ w. if w == 16 then window_frame else no_class;
  top = none;
}

abbrev button : UserWindow
button = record {
  winclass = window;
  rect = small_rect;
  redraw_rect = small_rect;
  display_data = none;
  zindex = pos 0;
  parent_id = some 0;
  needs_update = true;
  needs_redraw = true;
}

manager-Children : Children manager 16 []
manager-Children = record { top = refl; linked = tt; distinct = tt }

update_window-Placed_example :
    Placed
      (if is_new button manager 17 then hung_at frame_rect small_rect else small_rect)
      (placed (keyed 17 button manager.links.at) 17 [])
      16
      17
      (update_window 1 17 button manager).1
update_window-Placed_example =
    update_window-Placed 1 17 0 button manager [] [] refl (ground arith) refl refl refl
      (omega arith) (inl (refl, manager-Children, tt))
