-- ===== src/Gui/Redraw/Paint.antt =====
-- What the draws of `gui_redraw_rect` paint (system/gui.cpp with devices/vga.cpp):
-- `GUIWindow::draw`.
use shipwreck.Base.{
  ℕ, ◌<◌, ◌≤◌, ◌≡◌, ◌∙◌, ◌^◌, ◌%◌, refl, ap, ap₂, true, ◌==◌, List, [], ◌∷◌, if◌then◌else◌, arith,
  Bool-cases, inl, inr, length,
}
use shipwreck.Base.Int.{pos}
use shipwreck.Gui.Shapes.{Point, Rect}
use shipwreck.Gui.Redraw.{Win, Draw, max_window_levels, gui_redraw_rect}
use shipwreck.Gui.Redraw.Partition.{within, between}
use shipwreck.Gui.Redraw.Topmost.{hits, topmost, gui_redraw_rect_lem}
use shipwreck.Vga.{Frame, Screen, pixel_offset, get_alpha, painted, rect_fill}
use shipwreck.Vga.Fill.{inside, rect_fill_lem}

-- What is drawn of an area below the container of a window.
abbrev pub Below : Type 0
Below = Win → Rect → Frame → Frame

-- `GUIWindow::draw` on the screen. A transparent window has what is below its container drawn
-- first.
unfoldable pub draw_window : Screen → Below → (ℕ → ℕ) → Draw → Frame → Frame
draw_window s below color d f =
    let under = if get_alpha (color d.win.id) == 0 then f else below d.win d.area f in
    rect_fill s d.area (color d.win.id) under

unfoldable pub draw_windows : Screen → Below → (ℕ → ℕ) → List Draw → Frame → Frame
unfolding draw_window
draw_windows s below color [] f = f
draw_windows s below color (d ∷ ds) f =
    draw_windows s below color ds (draw_window s below color d f)

-- The colour that a pixel has after opaque windows have been drawn at it, in this order.
abbrev pub shows : (ℕ → ℕ) → List Win → ℕ → ℕ
shows color [] old = old
shows color (w ∷ ws) old = shows color ws (color w.id % 2 ^ 16)

abbrev pub pixel : ℕ → ℕ → Point
pixel px py = record { x = pos px; y = pos py }

inside-within : (px py : ℕ) (r : Rect) → inside px py r ≡ within (pixel px py) r
unfolding within between
inside-within px py r = ground arith

painted_opaque : (col old : ℕ) → (get_alpha col == 0) ≡ true → painted col old ≡ col % 2 ^ 16
unfolding painted
painted_opaque col old e = rw e refl

module _ (s : Screen) (below : Below) (color : ℕ → ℕ)
    (opaque : (id : ℕ) → (get_alpha (color id) == 0) ≡ true) (px py : ℕ) (h : px < s.width)
    (k : py < s.height) where
  draw_window_lem :
      (d : Draw) (f : Frame)
      → draw_window s below color d f (pixel_offset s px py) ≡ (
          if within (pixel px py) d.area then color d.win.id % 2 ^ 16 else f (pixel_offset s px py))
  unfolding draw_window painted
  draw_window_lem d f =
      rw (opaque d.win.id, draw_window)
        (rect_fill_lem s d.area (color d.win.id) f px py h k
          ∙ ap₂ (λ b v. if b then v else f (pixel_offset s px py)) (inside-within px py d.area)
              (painted_opaque (color d.win.id) _ (opaque d.win.id)))

  draw_windows_lem :
      (ds : List Draw) (f : Frame)
      → draw_windows s below color ds f (pixel_offset s px py)
        ≡ shows color (hits (pixel px py) ds) (f (pixel_offset s px py))
  unfolding draw_windows hits
  draw_windows_lem [] f = refl
  draw_windows_lem (d ∷ ds) f =
      draw_windows_lem ds (draw_window s below color d f)
      ∙ ap (shows color (hits (pixel px py) ds)) (draw_window_lem d f)
      ∙ elim (Bool-cases (within (pixel px py) d.area)) [ inl e ↦ rw e refl | inr e ↦ rw e refl ]

-- For at most 256 windows, all of them opaque and without children: once what `gui_redraw_rect`
-- draws over `clip` is painted, each pixel of the screen in the clip has the colour of the topmost
-- window that has the point, and keeps its colour if none has it; the pixels outside the clip keep
-- theirs.
pub draw_windows-shows :
    (s : Screen) (below : Below) (color : ℕ → ℕ) (clip : Rect) (ws : List Win) (f : Frame)
    (px py : ℕ)
    → ((id : ℕ) → (get_alpha (color id) == 0) ≡ true)
    → length ws ≤ max_window_levels
    → px < s.width
    → py < s.height
    → draw_windows s below color (gui_redraw_rect clip ws) f (pixel_offset s px py)
      ≡ shows color
          (if within (pixel px py) clip then topmost (pixel px py) ws else [])
          (f (pixel_offset s px py))
draw_windows-shows s below color clip ws f px py opaque n h k =
    draw_windows_lem s below color opaque px py h k (gui_redraw_rect clip ws) f
    ∙ ap (λ l. shows color l (f (pixel_offset s px py)))
        (gui_redraw_rect_lem (pixel px py) clip ws n)
