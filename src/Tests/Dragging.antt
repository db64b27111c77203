-- ===== src/Tests/Dragging.antt =====
-- The desk (Events.antt) with windows 1 and 2, where 2 is a frame that holds window 3.
use shipwreck.Events.Show.{mouse_left_down-shows}
use shipwreck.Gui.Redraw.Partition.{within}
use shipwreck.Gui.Redraw.Paint.{pixel, draw_windows}
use shipwreck.Vga.{Screen, pixel_offset}
use shipwreck.Events.Display.{display_messages}
use shipwreck.Base.{
  ℕ, ◌&&◌, ◌≡◌, ◌↔◌, ◌⊎◌, inl, inr, refl, true, false, none, some, [], ◌∷◌, ◌==◌, arith,
  if◌then◌else◌,
}
use shipwreck.Base.Int.{pos, negsuc, ◌-ℤ◌}
use shipwreck.Gui.Shapes.{Rect}
use shipwreck.Gui.Shapes.Cover.{In}
use shipwreck.Gui.Stack.Windows.{Listed}
use shipwreck.Gui.Frames.{Links, Windows, shifted_rect, move, update_root}
use shipwreck.Gui.Frames.Tree.{Forest, empty, more, member, ids, move-update_root}
use shipwreck.Ps2.Mouse.{MouseState}
use shipwreck.Queue.{Message}
use shipwreck.Bitset.{new_allocator, pool_alloc}
use shipwreck.Bitset.Search.{alone}
use shipwreck.Events.{Desk, Subscriptions, winstack, mouse_left_down, mouse_move, sub_proc_event}
use shipwreck.Events.Drag.{Shown, mouse_move-Shown}
use shipwreck.Events.Subscribers.{Told, sub_proc_event-Told}

abbrev framed_links : Links
framed_links = record {
  at = λ u.
      if u == 1
      then record { zindex = pos 0; next = some 2; prev = none }
      else if u == 2
      then record { zindex = pos 0; next = none; prev = some 1 }
      else record { zindex = pos 0; next = none; prev = none };
  is_frame = λ u. u == 2;
  children = λ u. if u == 2 then some 3 else none;
}

abbrev square : Rect
square = record { l = pos 10; t = pos 10; r = pos 20; b = pos 20 }

abbrev framed_windows : Windows
framed_windows = record {
  rect = λ u. square;
  needs_update = λ u. false;
  parent = λ u. if u == 3 then some 2 else none;
  wm_root = λ u. if u == 3 then some 2 else some u;
  pid = λ u. 4;
}

-- Window 3 is under each pixel, and window 2 is dragged.
abbrev crowded : Desk
crowded = record {
  links = framed_links;
  windows = framed_windows;
  top = some 1;
  desktop = 0;
  drag_window = some 2;
  pick_buffer = λ i. 3;
}

abbrev child_three : Forest
child_three = more 3 empty empty

move-update_root_example :
    ((move framed_links (pos 2) (negsuc 0) 2 framed_windows).rect 3 ≡ (
      if member 3 (2 ∷ ids child_three)
      then shifted_rect (pos 2) (negsuc 0) (framed_windows.rect 3)
      else framed_windows.rect 3))
    × ((update_root framed_links (some 7) 2 framed_windows).wm_root 3
        ≡ (if member 3 (2 ∷ ids child_three) then some 7 else framed_windows.wm_root 3))
move-update_root_example =
    move-update_root framed_links 2 child_three framed_windows (pos 2) (negsuc 0) (some 7)
      (inl (refl, (refl, inr (refl, refl), tt))) ((ground arith, tt), (tt, tt))
      (omega arith, (omega arith, tt, tt), tt) (omega arith) 3

crowded-Listed : Listed (winstack crowded) (1 ∷ 2 ∷ [])
crowded-Listed = record {
  top = refl;
  linked = (refl, refl, (refl, refl, tt));
  distinct = ((ground arith, tt), (tt, tt));
}

abbrev dragging : MouseState
dragging = record {
  x = pos 14;
  y = pos 11;
  old_x = pos 12;
  old_y = pos 12;
  lclick_x = pos 12;
  lclick_y = pos 12;
  lbutton = true;
  ldrag = true;
}

moved_by : (dragging.x -ℤ dragging.old_x ≡ pos 2) × (dragging.y -ℤ dragging.old_y ≡ negsuc 0)
unfolding ◌-ℤ◌
moved_by = (refl, refl)

mouse_move-Shown_example :
    (let (m', d', sent) = mouse_move square dragging crowded in
      let new = shifted_rect (pos 14 -ℤ pos 12) (pos 11 -ℤ pos 12) square in
      (Windows.rect d'.windows 2 ≡ new)
      × (Shown (record { x = pos 12; y = pos 9 }) sent ↔ (
          In (record { x = pos 12; y = pos 9 }) square ⊎ In (record { x = pos 12; y = pos 9 }) new))
      × (m'.old_x ≡ pos 14)
      × (m'.old_y ≡ pos 11))
mouse_move-Shown_example =
    mouse_move-Shown square dragging crowded 2 child_three (record { x = pos 12; y = pos 9 }) refl
      refl (ground arith) (rw moved_by.0 refl) (inl (refl, (refl, inr (refl, refl), tt)))
      ((ground arith, tt), (tt, tt)) (omega arith, (omega arith, tt, tt), tt) (omega arith)

abbrev mouse_down : Message
mouse_down = record { msg_id = 4; body = 0 }

abbrev one_list : Subscriptions
unfolding new_allocator
one_list = record { event_subs = λ e. 9 ∷ []; sub_pool = new_allocator 64 }

sub_proc_event-Told_example :
    Told
      (pool_alloc alone 0 one_list.sub_pool)
      4
      mouse_down
      one_list
      crowded
      4
      (sub_proc_event alone 0 4 4 one_list)
sub_proc_event-Told_example =
    sub_proc_event-Told alone 0 4 mouse_down one_list crowded 1 refl (ground arith) (omega arith)

-- The same desk with no frames.
abbrev pub plain_desk : Desk
plain_desk = record crowded {
  links = record framed_links { is_frame = λ u. false; children = λ u. none };
  pick_buffer = λ i. 2;
}

plain_desk-Listed : Listed (winstack plain_desk) (1 ∷ 2 ∷ [])
plain_desk-Listed = record {
  top = refl;
  linked = (refl, refl, (refl, refl, tt));
  distinct = ((ground arith, tt), (tt, tt));
}

abbrev small_screen : Screen
small_screen = record { width = 640; height = 480 }

abbrev greenish : ℕ → ℕ
greenish id = 992

mouse_left_down-shows_example :
    (let (d', sent) = mouse_left_down 640 (pos 12) (pos 12) plain_desk in
      draw_windows small_screen
        (λ w r g. g)
        greenish
        (display_messages d' sent)
        (λ o. 0)
        (pixel_offset small_screen 11 12)
      ≡ (if within (pixel 11 12) square && within (pixel 11 12) square then 992 else 0))
mouse_left_down-shows_example =
    mouse_left_down-shows small_screen (λ w r g. g) greenish (λ o. 0) 11 12 (pos 12) (pos 12) 1 [] 2
      [] plain_desk (λ id. refl) (omega arith) (omega arith) (ground arith) refl plain_desk-Listed
