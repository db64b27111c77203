-- ===== src/Gui/Redraw.antt =====
-- src/system/gui.cpp, `gui_redraw_rect`: the windows are the list that `next` links, topmost
-- first. The result is the sequence of `draw` calls that the function makes.
pub mod Partition
pub mod Topmost
pub mod Paint
pub mod Pick
pub mod Named
pub mod Boxes
use shipwreck.Base.{ℕ, zero, suc, ◌≡◌, Bool, true, false, Option, none, some, List, [], ◌∷◌, ◌++◌}
use shipwreck.Base.Int.{ltb_ℤ}
use shipwreck.Gui.Shapes.{Rect, rect_intersect}

-- What `gui_redraw_rect` reads of a window: its rectangle, and which window it is.
pub record Win : Type 0 where
  pub id : ℕ
  pub rect : Rect

abbrev pub max_window_levels : ℕ
max_window_levels = 256

-- `win_node->draw(&sub_rect)`
pub record Draw : Type 0 where
  pub win : Win
  pub area : Rect

-- The four parts of `clip` round `sub`.
pub strip_above : Rect → Rect → Rect
strip_above clip sub = record { l = clip.l; t = clip.t; r = clip.r; b = sub.t }

pub strip_left : Rect → Rect → Rect
strip_left clip sub = record { l = clip.l; t = sub.t; r = sub.l; b = sub.b }

pub strip_right : Rect → Rect → Rect
strip_right clip sub = record { l = sub.r; t = sub.t; r = clip.r; b = sub.b }

pub strip_below : Rect → Rect → Rect
strip_below clip sub = record { l = clip.l; t = sub.b; r = clip.r; b = clip.b }

-- `left` counts the rounds that the search for a window may still make. Where it runs out at a
-- window, that window is drawn over the whole clip, as the code does.
unfoldable pub redraw_from : ℕ → List Win → Rect → List Draw
redraw_from left [] clip = []
redraw_from zero (w ∷ ws) clip = record { win = w; area = clip } ∷ []
redraw_from (suc left) (w ∷ ws) clip = elim (rect_intersect w.rect clip) [
  | none ↦ redraw_from left ws clip
  | some sub ↦
      let above : List Draw = elim (ltb_ℤ clip.t sub.t) [
        | true ↦ redraw_from max_window_levels ws (strip_above clip sub)
        | false ↦ []
      ] in
      let left_of : List Draw = elim (ltb_ℤ clip.l sub.l) [
        | true ↦ redraw_from max_window_levels ws (strip_left clip sub)
        | false ↦ []
      ] in
      let right_of : List Draw = elim (ltb_ℤ sub.r clip.r) [
        | true ↦ redraw_from max_window_levels ws (strip_right clip sub)
        | false ↦ []
      ] in
      let below : List Draw = elim (ltb_ℤ sub.b clip.b) [
        | true ↦ redraw_from max_window_levels ws (strip_below clip sub)
        | false ↦ []
      ] in
      above ++ (left_of ++ (record { win = w; area = sub } ∷ (right_of ++ below)))
]

unfoldable pub gui_redraw_rect : Rect → List Win → List Draw
unfolding redraw_from
gui_redraw_rect clip ws = redraw_from max_window_levels ws clip
