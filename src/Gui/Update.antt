-- ===== src/Gui/Update.antt =====
-- src/system/gui.cpp, `gui_update_proc` and `gui_redraw_proc`: what a process says of its windows
-- (include/gui/objects.h, `Window`) is taken over by the window manager. `parent_id` is that of a
-- window of the same process, or none, which stands for -1. The pointer to a text box's characters,
-- which is only adjusted to the kernel's addresses, is left out.
pub mod Hung
pub mod Place
pub mod Redrawn
use shipwreck.Base.{
  ℕ, zero, suc, ◌+◌, ◌*◌, Bool, true, false, ◌&&◌, Option, none, some, List, [], ◌∷◌, ◌++◌, ◌==◌,
  if◌then◌else◌, update,
}
use shipwreck.Base.Int.{ℤ, pos, ◌+ℤ◌, eqb_ℤ}
use shipwreck.Gui.Shapes.{Rect}
use shipwreck.Gui.Stack.{Node, Stack, push}
use shipwreck.Gui.Frames.{Links, Windows, add_child, remove_child, update_root}

-- `WindowClass`; `max` stands for MAX and any larger number.
pub data WindowClass : Type 0 where
  no_class window window_frame text_box max : WindowClass

abbrev pub same_class : WindowClass → WindowClass → Bool
same_class no_class no_class = true
same_class window window = true
same_class window_frame window_frame = true
same_class text_box text_box = true
same_class max max = true
same_class _ _ = false

-- A window as its process describes it. `display_data` is the pointer in the union.
pub record UserWindow : Type 0 where
  pub winclass : WindowClass
  pub rect : Rect
  pub redraw_rect : Rect
  pub display_data : Option ℕ
  pub zindex : ℤ
  pub parent_id : Option ℕ
  pub needs_update : Bool
  pub needs_redraw : Bool

-- The window manager's windows: `winclass` is that of `windata`, and `top` that of the window stack.
pub record Manager : Type 0 where
  pub links : Links
  pub windows : Windows
  pub winclass : ℕ → WindowClass
  pub top : Option ℕ

-- MAX_PROC_WINDOWS
abbrev pub max_proc_windows : ℕ
max_proc_windows = 16

-- `i + (pid << 4)`
abbrev pub window_gid : ℕ → ℕ → ℕ
window_gid pid i = i + pid * 16

abbrev pub is_frame_class : WindowClass → Bool
is_frame_class window_frame = true
is_frame_class _ = false

-- `new (gw) …`, and the owner: the window is in no stack, has no parent and no root.
unfoldable pub construct : ℕ → ℕ → WindowClass → Manager → Manager
construct pid gw c m = record m {
  links = record (m.links) {
    at = update (Links.at m.links) gw (record { zindex = pos 0; next = none; prev = none });
    is_frame = update (Links.is_frame m.links) gw (is_frame_class c);
  };
  windows = record (m.windows) {
    parent = update (Windows.parent m.windows) gw none;
    wm_root = update (Windows.wm_root m.windows) gw none;
    pid = update (Windows.pid m.windows) gw pid;
  };
}

-- `gw->windata = *user_win`. The top of a frame's children is in the same union as `display_data`.
unfoldable pub copy_windata : ℕ → UserWindow → Manager → Manager
copy_windata gw u m = record m {
  links = record (m.links) {
    at = update (Links.at m.links) gw (record (Links.at m.links gw) { zindex = u.zindex });
    children = update (Links.children m.links) gw u.display_data;
  };
  windows = record (m.windows) {
    rect = update (Windows.rect m.windows) gw u.rect;
    needs_update = update (Windows.needs_update m.windows) gw false;
  };
  winclass = update m.winclass gw u.winclass;
}

-- `f->removeChild(gw)` and `f->addChild(gw)`
abbrev pub leave : ℕ → ℕ → Manager → Manager
leave f gw m =
    let r = remove_child f (some gw) m.links m.windows in record m { links = r.0; windows = r.1 }

abbrev pub join : ℕ → ℕ → Manager → Manager
join f gw m =
    let r = add_child f (some gw) m.links m.windows in record m { links = r.0; windows = r.1 }

-- A window that has a parent is detached from it.
unfoldable pub detach_parent : ℕ → Manager → Manager
detach_parent gw m = elim (Windows.parent m.windows gw) [ none ↦ m | some f ↦ leave f gw m ]

-- Where the zindex differs and there is a parent, the window is put in its place anew.
unfoldable pub reinsert : ℕ → UserWindow → Manager → Manager
reinsert gw u m = elim (Windows.parent m.windows gw) [
  | none ↦ m
  | some f ↦
      let m' = join f gw (leave f gw m) in
      if eqb_ℤ (Node.zindex (Links.at m.links gw)) u.zindex then m else m'
]

-- What a step leaves, and whether the function goes on: it returns at a parent that is no frame.
pub record Step : Type 0 where
  pub goes_on : Bool
  pub manager : Manager

abbrev pub on_with : Manager → Step
on_with m = record { goes_on = true; manager = m }

-- The rest of the update of one window.
unfoldable pub attach_parent : ℕ → ℕ → UserWindow → Manager → Step
attach_parent pid gw u m = elim u.parent_id [
  | none ↦ on_with (reinsert gw u m)
  | some i ↦
      let f = window_gid pid i in
      if is_frame_class (m.winclass f)
      then on_with (join f gw m)
      else record { goes_on = false; manager = m }
]

abbrev pub constructible : WindowClass → Bool
constructible window = true
constructible window_frame = true
constructible text_box = true
constructible _ = false

-- What comes once the class is right.
unfoldable pub take_over : ℕ → ℕ → UserWindow → Manager → Step
take_over pid gw u m = attach_parent pid gw u (detach_parent gw (copy_windata gw u m))

-- One round of the first loop, for a window that needs an update, and the window as its process
-- finds it afterwards.
unfoldable pub update_window : ℕ → ℕ → UserWindow → Manager → UserWindow × Step
update_window pid gw u m =
    let done = record u { needs_update = false } in
    if same_class u.winclass (m.winclass gw)
    then (done, take_over pid gw done m)
    else if constructible u.winclass
    then (done, take_over pid gw done (construct pid gw u.winclass m))
    else (record done { winclass = no_class }, on_with m)

abbrev pub wants_update : UserWindow → Bool
wants_update u = if same_class u.winclass no_class then false else u.needs_update

-- The first loop, over the process's windows from number `i` on.
unfoldable pub update_windows : ℕ → ℕ → List UserWindow → Manager → List UserWindow × Step
update_windows pid i [] m = ([], on_with m)
update_windows pid i (u ∷ us) m =
    let one = update_window pid (window_gid pid i) u m in
    let r = if wants_update u then one else (u, on_with m) in
    let rest = update_windows pid (i + 1) us r.1.manager in
    if r.1.goes_on then (r.0 ∷ rest.0, rest.1) else (r.0 ∷ us, r.1)

abbrev pub is_none : Option ℕ → Bool
is_none none = true
is_none (some w) = false

-- One round of the second loop: a window without a parent is the root of its tree, and goes on the
-- window stack if it is not linked there.
unfoldable pub update_hierarchy : ℕ → Manager → Manager
update_hierarchy gw m =
    let m₁ = record m { windows = update_root m.links (some gw) gw m.windows } in
    let s =
      (push (Windows.wm_root m₁.windows gw) (record { top = m.top; at = Links.at m.links })).1 in
    let m₂ = record m₁ { links = record (m.links) { at = s.at }; top = s.top } in
    let unlinked = if gw == 0 then false else is_none (Node.next (Links.at m.links gw)) in
    if same_class (m.winclass gw) no_class
    then m
    else if is_none (Windows.parent m.windows gw)
    then (if unlinked then m₂ else m₁)
    else m

unfoldable pub update_hierarchies : ℕ → ℕ → ℕ → Manager → Manager
update_hierarchies pid zero i m = m
update_hierarchies pid (suc left) i m =
    update_hierarchies pid left (i + 1) (update_hierarchy (window_gid pid i) m)

-- `gui_update_proc`, on all windows of the process.
unfoldable pub gui_update_proc : ℕ → List UserWindow → Manager → List UserWindow × Manager
gui_update_proc pid us m =
    let r = update_windows pid 0 us m in
    if r.1.goes_on
    then (r.0, update_hierarchies pid max_proc_windows 0 r.1.manager)
    else (r.0, r.1.manager)

-- `gui_redraw_proc`: the rectangles that are sent to be drawn again, in order.
abbrev pub shown_rect : Rect → Rect → Rect
shown_rect at r = record { l = r.l +ℤ at.l; t = r.t +ℤ at.t; r = r.r +ℤ at.l; b = r.b +ℤ at.t }

abbrev pub wants_redraw : UserWindow → Bool
wants_redraw u = if same_class u.winclass no_class then false else u.needs_redraw

unfoldable pub redraw_windows : ℕ → ℕ → List UserWindow → Manager → List UserWindow × List Rect
redraw_windows pid i [] m = ([], [])
redraw_windows pid i (u ∷ us) m =
    let rest = redraw_windows pid (i + 1) us m in
    let sent = shown_rect (Windows.rect m.windows (window_gid pid i)) u.redraw_rect in
    if wants_redraw u
    then (record u { needs_redraw = false } ∷ rest.0, sent ∷ rest.1)
    else (u ∷ rest.0, rest.1)

unfoldable pub gui_redraw_proc : ℕ → List UserWindow → Manager → List UserWindow × List Rect
gui_redraw_proc pid us m = redraw_windows pid 0 us m
