-- ===== src/Events/Click.antt =====
-- A click (system/events.cpp) on a screen whose pick buffer a redraw (system/gui.cpp) has stored.
use shipwreck.Base.{
  ℕ, ◌+◌, ◌*◌, ◌<◌, ◌≤◌, ◌≡◌, ◌≢◌, ◌∙◌, sym, ap, subst, true, some, List, [], ◌∷◌, ◌++◌, length,
}
use shipwreck.Base.Int.{pos, ◌+ℤ◌, ◌*ℤ◌, ◌≤ℤ◌}
use shipwreck.Gui.Shapes.{Rect}
use shipwreck.Gui.Redraw.{Win, max_window_levels, gui_redraw_rect}
use shipwreck.Gui.Redraw.Partition.{within}
use shipwreck.Gui.Redraw.Topmost.{topmost}
use shipwreck.Gui.Redraw.Paint.{pixel}
use shipwreck.Gui.Redraw.Pick.{Picks, Frames, pick_draws, pos_add, pos_mul}
use shipwreck.Gui.Redraw.Named.{Narrow, Points, pick_draws-topmost, named-Points}
use shipwreck.Gui.Frames.{Windows}
use shipwreck.Gui.Stack.Windows.{Listed}
use shipwreck.Events.{Desk, winstack, mouse_left_down}
use shipwreck.Events.Raise.{Raised, mouse_left_down-Raised}

-- For at most 256 windows, and as many in each frame, and a clip that is on the screen: after a redraw
-- of the clip has stored the pick buffer, MOUSE_LEFT_DOWN on a pixel of the clip acts on the window `v`
-- that the topmost window there shows (itself, or if it is a frame the topmost of its children there, and
-- so on), where there is one and it is not the desktop: if the root of its number is `r` and in the stack,
-- `r` comes to the top, the others stay in their order, `r` may be dragged, and it alone is drawn again
-- unless it was on top.
pub click_redrawn-Raised :
    (levels width : ℕ) (gids : ℕ → ℕ) (frames : Frames) (clip : Rect) (ws : List Win)
    (picks : Picks) (px py : ℕ) (w v : Win) (us : List ℕ) (r : ℕ) (vs : List ℕ) (d : Desk)
    → length ws ≤ max_window_levels
    → Narrow frames
    → pos 0 ≤ℤ clip.l
    → pos 0 ≤ℤ clip.t
    → clip.r ≤ℤ pos width
    → px < width
    → within (pixel px py) clip ≡ true
    → topmost (pixel px py) ws ≡ w ∷ []
    → Points frames (pixel px py) v levels w
    → gids v.id ≢ 0
    → d.pick_buffer ≡ pick_draws levels width gids frames (gui_redraw_rect clip ws) picks
    → Windows.wm_root d.windows (gids v.id) ≡ some r
    → Listed (winstack d) (us ++ r ∷ vs)
    → Raised us r vs d (mouse_left_down width (pos px) (pos py) d)
click_redrawn-Raised levels width gids frames clip ws picks px py w v us r vs d n nar hl ht hr h
      inside top shows ne stored root listed =
    mouse_left_down-Raised width (pos px) (pos py) us r vs d (subst (λ g. g ≢ 0) (sym picked) ne)
      (ap (Windows.wm_root d.windows) picked ∙ root) listed
  where
    picked : d.pick_buffer (pos py *ℤ pos width +ℤ pos px) ≡ gids v.id
    picked =
        ap d.pick_buffer (ap (λ t. t +ℤ pos px) (pos_mul py width) ∙ pos_add (py * width) px)
        ∙ ap (λ f. f (pos (py * width + px))) stored
        ∙ pick_draws-topmost levels width gids frames clip ws picks px py n nar hl ht hr h
        ∙ rw (inside, top)
            (named-Points frames (pixel px py) v gids levels w (picks (pos (py * width + px)))
              shows)
