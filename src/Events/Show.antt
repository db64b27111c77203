-- ===== src/Events/Show.antt =====
-- What a click shows: the raised window (system/events.cpp) drawn by the display worker over the
-- windows below it (system/gui.cpp, devices/vga.cpp).
use shipwreck.Base.{
  ℕ, zero, suc, ◌<◌, ◌≤◌, ◌≡◌, ◌≢◌, ◌∙◌, ◌^◌, ◌%◌, refl, ap, ap₂, Bool, true, false, ◌&&◌, Option,
  none, some, List, [], ◌∷◌, ◌++◌, ◌==◌, if◌then◌else◌, arith, length, Bool-cases, inl, inr,
}
use mathlib.Core.List.{append-nil}
use shipwreck.Base.Int.{ℤ, pos, ◌+ℤ◌, ◌*ℤ◌}
use shipwreck.Gui.Shapes.{Rect, rect_intersect}
use shipwreck.Gui.Redraw.{Win}
use shipwreck.Gui.Redraw.Partition.{within, within-intersect, within-apart}
use shipwreck.Gui.Redraw.Topmost.{topmost}
use shipwreck.Gui.Redraw.Paint.{Below, shows, pixel, draw_windows, draw_windows-shows}
use shipwreck.Gui.Frames.{Links, Windows}
use shipwreck.Gui.Stack.Windows.{Listed}
use shipwreck.Vga.{Frame, Screen, pixel_offset, get_alpha}
use shipwreck.Events.{Desk, winstack, mouse_left_down}
use shipwreck.Events.Display.{
  draws_in, draws_clipped, windows_below, display_message, display_messages,
}
use shipwreck.Events.Raise.{Raised, mouse_left_down-Raised}

length-windows_below :
    (left : ℕ) (l : Links) (ws : Windows) (o : Option ℕ) → length (windows_below left l ws o) ≤ left
unfolding windows_below
length-windows_below zero l ws o = omega arith
length-windows_below (suc left) l ws none = omega arith
length-windows_below (suc left) l ws (some w) =
    omega (arith, length-windows_below left l ws (l.at w).next)

-- A window is the topmost of those from it down, wherever it is.
topmost-windows_below :
    (l : Links) (ws : Windows) (w px py : ℕ)
    → within (pixel px py) (ws.rect w) ≡ true
    → topmost (pixel px py) (windows_below 256 l ws (some w))
      ≡ record { id = w; rect = ws.rect w } ∷ []
unfolding windows_below topmost
topmost-windows_below l ws w px py e = rw e refl

module _ (s : Screen) (below : Below) (color : ℕ → ℕ)
    (opaque : (id : ℕ) → (get_alpha (color id) == 0) ≡ true) (f : Frame) (px py : ℕ)
    (h : px < s.width) (k : py < s.height) where
  abbrev at : Bool → ℕ → ℕ
  at b w = if b then color w % 2 ^ 16 else f (pixel_offset s px py)

  shows_if :
      (b : Bool) (w : ℕ) (r : Rect)
      → shows color (if b then record { id = w; rect = r } ∷ [] else []) (f (pixel_offset s px py))
        ≡ at b w
  shows_if true w r = refl
  shows_if false w r = refl

  draws_in_lem :
      (d : Desk) (w : ℕ) (o : Option Rect)
      → rect_intersect (Windows.rect d.windows w) (Windows.rect d.windows d.desktop) ≡ o
      → draw_windows s below color (draws_in d (some w) o) f (pixel_offset s px py)
        ≡ at
            (within (pixel px py) (Windows.rect d.windows w)
              && within (pixel px py) (Windows.rect d.windows d.desktop))
            w
  unfolding draw_windows
  draws_in_lem d w none e =
      ap (λ b. at b w)
        (within-apart (pixel px py) (Windows.rect d.windows w) (Windows.rect d.windows d.desktop) e)
  draws_in_lem d w (some clip) e =
      let ws : List Win = windows_below 256 d.links d.windows (some w) in
      let both : within (pixel px py) clip ≡ (
          within (pixel px py) (Windows.rect d.windows w)
          && within (pixel px py) (Windows.rect d.windows d.desktop)) =
        within-intersect (pixel px py) (Windows.rect d.windows w) (Windows.rect d.windows d.desktop)
          e in
      draw_windows-shows s below color clip ws f px py opaque
        (length-windows_below 256 d.links d.windows (some w)) h k
      ∙ elim (Bool-cases (within (pixel px py) (Windows.rect d.windows w))) [
        | inl a ↦
            ap
              (λ l.
                shows color (if within (pixel px py) clip then l else [])
                  (f (pixel_offset s px py)))
              (topmost-windows_below d.links d.windows w px py a)
            ∙ shows_if (within (pixel px py) clip) w (Windows.rect d.windows w)
            ∙ ap (λ b. at b w) both
        | inr a ↦
            let out : within (pixel px py) clip ≡ false =
              both ∙ ap (λ b. b && within (pixel px py) (Windows.rect d.windows d.desktop)) a in
            rw (out, a) refl
      ]

-- MOUSE_LEFT_DOWN on a pixel of a window other than the desktop, whose root `r` is in the stack but
-- not on top, with opaque windows that have no children: once the display worker has painted what
-- the click sends, each pixel of the screen that is in `r` and in the desktop has the colour of
-- `r`, and all others keep theirs, whatever windows were above `r` before.
pub mouse_left_down-shows :
    (s : Screen) (below : Below) (color : ℕ → ℕ) (f : Frame) (px py : ℕ) (x y : ℤ) (u : ℕ)
    (us : List ℕ) (r : ℕ) (vs : List ℕ) (d : Desk)
    → ((id : ℕ) → (get_alpha (color id) == 0) ≡ true)
    → px < s.width
    → py < s.height
    → d.pick_buffer (y *ℤ pos s.width +ℤ x) ≢ 0
    → Windows.wm_root d.windows (d.pick_buffer (y *ℤ pos s.width +ℤ x)) ≡ some r
    → Listed (winstack d) (u ∷ us ++ r ∷ vs)
    → (let (d', sent) = mouse_left_down s.width x y d in
        draw_windows s below color (display_messages d' sent) f (pixel_offset s px py) ≡ (
          if within (pixel px py) (Windows.rect d.windows r)
            && within (pixel px py) (Windows.rect d.windows d.desktop)
          then color r % 2 ^ 16
          else f (pixel_offset s px py)))
unfolding display_messages display_message
mouse_left_down-shows s below color f px py x y u us r vs d opaque h k n root l =
    let res = mouse_left_down-Raised s.width x y (u ∷ us) r vs d n root l in
    let d' : Desk = (mouse_left_down s.width x y d).0 in
    ap (λ msgs. draw_windows s below color (display_messages d' msgs) f (pixel_offset s px py))
      (Raised.drawn res)
    ∙ ap (λ ds. draw_windows s below color ds f (pixel_offset s px py))
        (append-nil (draws_clipped d' (some r) (Windows.rect d'.windows r)))
    ∙ draws_in_lem s below color opaque f px py h k d' r _ refl
    ∙ ap₂
        (λ ws b.
          if within (pixel px py) (Windows.rect ws r) && within (pixel px py) (Windows.rect ws b)
          then color r % 2 ^ 16
          else f (pixel_offset s px py))
        (Raised.kept res) (Raised.base res)
