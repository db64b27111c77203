-- ===== src/Gui/Frames.antt =====
-- src/system/gui.cpp and include/gui.h: windows within windows. A frame has a stack of children,
-- which share their links with all other windows. A window is its number in `win_index`, which
-- stands for its address.
pub mod Tree
use shipwreck.Base.{
  ℕ, zero, suc, Bool, true, false, Option, none, some, ◌==◌, if◌then◌else◌, update,
}
use shipwreck.Base.Int.{ℤ, pos, ◌+ℤ◌, ◌-ℤ◌}
use shipwreck.Gui.Shapes.{Rect}
use shipwreck.Gui.Stack.{Node, Stack, insert, detach}
use shipwreck.Gui.Redraw.{max_window_levels}

-- How the windows hang together: the links of the stacks, which windows are frames, and the top of
-- each frame's stack of children.
pub record Links : Type 0 where
  pub at : ℕ → Node
  pub is_frame : ℕ → Bool
  pub children : ℕ → Option ℕ

-- What each window has besides.
pub record Windows : Type 0 where
  pub rect : ℕ → Rect
  pub needs_update : ℕ → Bool
  pub parent : ℕ → Option ℕ
  pub wm_root : ℕ → Option ℕ
  pub pid : ℕ → ℕ

abbrev pub shifted_rect : ℤ → ℤ → Rect → Rect
shifted_rect dx dy r = record { l = r.l +ℤ dx; t = r.t +ℤ dy; r = r.r +ℤ dx; b = r.b +ℤ dy }

-- `Window::move`
abbrev pub move_data : ℤ → ℤ → ℕ → Windows → Windows
move_data dx dy w ws = record ws {
  rect = update ws.rect w (shifted_rect dx dy (ws.rect w));
  needs_update = update ws.needs_update w true;
}

-- `GUIWindow::update_root`
abbrev pub set_root : Option ℕ → ℕ → Windows → Windows
set_root root w ws = record ws { wm_root = update ws.wm_root w root }

-- A walk over siblings from window `o` on.
unfoldable pub walk : Links → ℕ → (ℕ → Windows → Windows) → Option ℕ → Windows → Windows
walk l zero f o ws = ws
walk l (suc left) f none ws = ws
walk l (suc left) f (some p) ws = walk l left f (l.at p).next (f p ws)

-- What `move` and `update_root` share: a frame does to itself what a window does, and calls its
-- children. The number is how deep frames may be nested.
unfoldable pub visit : ℕ → Links → (ℕ → Windows → Windows) → ℕ → Windows → Windows
visit zero l act w ws = ws
visit (suc d) l act w ws = elim (l.is_frame w) [
  | true ↦ walk l max_window_levels (visit d l act) (l.children w) (act w ws)
  | false ↦ act w ws
]

-- MAX_WINDOWS; no chain of windows is longer.
abbrev pub max_windows : ℕ
max_windows = 256

unfoldable pub move : Links → ℤ → ℤ → ℕ → Windows → Windows
unfolding visit
move l dx dy w ws = visit max_windows l (move_data dx dy) w ws

unfoldable pub update_root : Links → Option ℕ → ℕ → Windows → Windows
unfolding visit
update_root l root w ws = visit max_windows l (set_root root) w ws

-- The children of frame `f` as a stack, and a changed stack put back.
abbrev pub child_stack : Links → ℕ → Stack
child_stack l f = record { top = l.children f; at = l.at }

abbrev pub with_children : Links → ℕ → Stack → Links
with_children l f s = record l { at = s.at; children = update l.children f s.top }

-- `GUIWindowFrame::addChild`
unfoldable pub add_child : ℕ → Option ℕ → Links → Windows → Links × Windows
unfolding move
add_child f none l ws = (l, ws)
add_child f (some c) l ws =
    let l' = with_children l f (insert (some c) (child_stack l f)).1 in
    let ws' = record ws { parent = update ws.parent c (some f) } in
    if c == f then (l, ws) else (l', move l' (ws'.rect f).l (ws'.rect f).t c ws')

abbrev pub is_parent : Option ℕ → ℕ → Bool
is_parent none f = false
is_parent (some g) f = g == f

abbrev pub minus : ℤ → ℤ
minus n = pos 0 -ℤ n

-- `GUIWindowFrame::removeChild`
unfoldable pub remove_child : ℕ → Option ℕ → Links → Windows → Links × Windows
unfolding move
remove_child f none l ws = (l, ws)
remove_child f (some c) l ws =
    let l' = with_children l f (detach (some c) (child_stack l f)).1 in
    let ws' = record ws { parent = update ws.parent c none } in
    if is_parent (ws.parent c) f
    then (l', move l' (minus (ws'.rect f).l) (minus (ws'.rect f).t) c ws')
    else (l, ws)
