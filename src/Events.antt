-- ===== src/Events.antt =====
-- src/system/events.cpp: the kernel's workers for user events and for the display, and the lists of
-- subscribers. The part of a run that is the same in all workers is `run_worker` of Queue. What a
-- worker sends is a list, in the order of the calls.
pub mod Raise
pub mod Click
pub mod Display
pub mod Show
pub mod Drag
pub mod Subscribers
use shipwreck.Base.{
  ℕ, zero, suc, ◌+◌, ◌*◌, ◌/◌, ◌%◌, ◌^◌, Bool, true, false, ◌&&◌, ◌||◌, Option, none, some, List,
  [], ◌∷◌, ◌++◌, ◌==◌, ltb, leb, if◌then◌else◌, update, length,
}
use shipwreck.Base.Int.{ℤ, pos, negsuc, ◌+ℤ◌, ◌-ℤ◌, ◌*ℤ◌, eqb_ℤ}
use shipwreck.Gui.Shapes.{Rect, Parts, rect_union, rect_intersect}
use shipwreck.Gui.Stack.{Node, Stack, push, detach}
use shipwreck.Gui.Redraw.{Win, Draw, gui_redraw_rect}
use shipwreck.Gui.Frames.{Links, Windows, move}
use shipwreck.Queue.{Message, SharedQueue, Others, enqueue, run_worker}
use shipwreck.Ps2.Mouse.{MouseState, int12}
use shipwreck.Bitset
use shipwreck.Bitset.{BitAllocator, pool_alloc}

-- The window manager with all windows; `pick_buffer` has the window of each pixel.
pub record Desk : Type 0 where
  pub links : Links
  pub windows : Windows
  pub top : Option ℕ
  pub desktop : ℕ
  pub drag_window : Option ℕ
  pub pick_buffer : ℤ → ℕ

pub data DisplayMsg : Type 0 where
  redraw_screen redraw_mouse : DisplayMsg
  redraw_window : Option ℕ → DisplayMsg
  redraw_rect : Rect → DisplayMsg

abbrev pub winstack : Desk → Stack
winstack d = record { top = d.top; at = Links.at d.links }

abbrev pub with_winstack : Desk → Stack → Desk
with_winstack d s = record d { top = s.top; links = record (d.links) { at = s.at } }

abbrev pub is_flat : Rect → Bool
is_flat r = eqb_ℤ r.l r.r || eqb_ℤ r.t r.b

-- A part that has points is redrawn.
abbrev pub redraw_part : Rect → List DisplayMsg
redraw_part r = if is_flat r then [] else redraw_rect r ∷ []

abbrev pub redraw_parts : Parts → List DisplayMsg
redraw_parts p =
    redraw_part p.first
    ++ (redraw_part p.second ++ (if p.count == 3 then redraw_part p.third else []))

-- What a move of the mouse does to a window that is dragged. `rest` is what `redraw_rects[2]` held.
unfoldable pub drag_by : ℤ → ℤ → Rect → ℕ → Desk → Desk × List DisplayMsg
drag_by dx dy rest w d =
    let ws = move d.links dx dy w d.windows in
    (
      record d { windows = ws },
      redraw_parts (rect_union (Windows.rect d.windows w) (ws.rect w) rest),
    )

unfoldable pub drag : ℤ → ℤ → Rect → Option ℕ → Desk → Desk × List DisplayMsg
unfolding drag_by
drag dx dy rest none d = (d, [])
drag dx dy rest (some w) d = if w == d.desktop then (d, []) else drag_by dx dy rest w d

abbrev pub Handled : Type 0
Handled = MouseState × Desk × List DisplayMsg

-- MOUSE_MOVE
unfoldable pub mouse_move : Rect → MouseState → Desk → Handled
unfolding drag
mouse_move rest m d =
    let dx = m.x -ℤ m.old_x in
    let dy = m.y -ℤ m.old_y in
    let m' = record m { old_x = m.x; old_y = m.y } in
    let (d', sent) = if m.ldrag then drag dx dy rest d.drag_window d else (d, []) in
    if eqb_ℤ dx (pos 0) && eqb_ℤ dy (pos 0)
    then (m', d, [])
    else (m', d', sent ++ redraw_mouse ∷ [])

abbrev pub same_window : Option ℕ → Option ℕ → Bool
same_window none none = true
same_window none (some w) = false
same_window (some v) none = false
same_window (some v) (some w) = v == w

-- A click in a window whose root is `root`: the root is brought to the top and may be dragged.
unfoldable pub click_root : Option ℕ → Desk → Desk × List DisplayMsg
click_root root d =
    let s₁ = (detach root (winstack d)).1 in
    let s₂ = (push root s₁).1 in
    let d' = record d { drag_window = root } in
    if same_window root d.top then (d', []) else (with_winstack d' s₂, redraw_window root ∷ [])

-- MOUSE_LEFT_DOWN at (x, y) on a screen of this width. A window number is a byte, so it always
-- names a window; 0 is the desktop.
unfoldable pub mouse_left_down : ℕ → ℤ → ℤ → Desk → Desk × List DisplayMsg
unfolding click_root
mouse_left_down width x y d =
    let win_id = d.pick_buffer (y *ℤ pos width +ℤ x) in
    if win_id == 0
    then (record d { drag_window = none }, [])
    else click_root (Windows.wm_root d.windows win_id) d

-- The numbers of `UserEvents` that the worker looks at, and MAX.
abbrev pub ev_mouse_move : ℕ
ev_mouse_move = 3

abbrev pub ev_mouse_left_down : ℕ
ev_mouse_left_down = 4

abbrev pub ev_mouse_left_up : ℕ
ev_mouse_left_up = 5

abbrev pub ev_max : ℕ
ev_max = 14

-- The switch of `UserEventWorker::run`, for one message; (x, y) is what its data word holds.
unfoldable pub handle_event : ℕ → Rect → Message → MouseState → Desk → Handled
unfolding mouse_move mouse_left_down
handle_event width rest msg m d =
    let x = int12 (pos (msg.body % 4096)) in
    let y = int12 (pos (msg.body / 4096 % 4096)) in
    let (d', sent) = mouse_left_down width x y d in
    if msg.msg_id == ev_mouse_move
    then mouse_move rest m d
    else if msg.msg_id == ev_mouse_left_down
    then (m, d', sent)
    else if msg.msg_id == ev_mouse_left_up
    then (m, record d { drag_window = none }, [])
    else (m, d, [])

abbrev pub max_procs : ℕ
max_procs = 16

-- The loop of `SubscriberList::notify` for one process: the message is sent at its first node, if
-- that is among the first 16.
unfoldable pub notify_from : ℕ → ℕ → List ℕ → Bool
notify_from zero target subs = false
notify_from (suc left) target [] = false
notify_from (suc left) target (proc ∷ subs) =
    let rest = notify_from left target subs in if target == proc then true else rest

-- The processes that get the message, in order.
unfoldable pub notify_target : ℕ → Message → List ℕ → List (ℕ × Message)
unfolding notify_from
notify_target target msg subs =
    if leb ev_max msg.msg_id
    then []
    else if notify_from max_procs target subs
    then (target, msg) ∷ []
    else []

-- `SubscriberList::notify` of all.
unfoldable pub notify_all_from : ℕ → Message → List ℕ → List (ℕ × Message)
notify_all_from zero msg subs = []
notify_all_from (suc left) msg [] = []
notify_all_from (suc left) msg (proc ∷ subs) = (proc, msg) ∷ notify_all_from left msg subs

unfoldable pub notify_all : Message → List ℕ → List (ℕ × Message)
unfolding notify_all_from
notify_all msg subs = if leb ev_max msg.msg_id then [] else notify_all_from max_procs msg subs

-- The lists of subscribers by event, each with its head first, and the pool of their nodes.
pub record Subscriptions : Type 0 where
  pub event_subs : ℕ → List ℕ
  pub sub_pool : BitAllocator

abbrev pub push_head : ℕ → ℕ → (ℕ → List ℕ) → ℕ → List ℕ
push_head proc event subs = update subs event (proc ∷ subs event)

-- What follows the allocation of a node: 0, or -1 where the pool has none.
unfoldable pub with_node : ℤ → BitAllocator → ℕ → ℕ → Subscriptions → ℤ × Subscriptions
with_node (negsuc _) pool proc event s = (negsuc 0, record s { sub_pool = pool })
with_node (pos _) pool proc event s =
    (pos 0, record { event_subs = push_head proc event s.event_subs; sub_pool = pool })

unfoldable pub sub_proc_event :
    shipwreck.Bitset.Others → ℕ → ℕ → ℕ → Subscriptions → ℤ × Subscriptions
unfolding with_node
sub_proc_event others start proc event s =
    let (node, pool) = pool_alloc others start s.sub_pool in with_node node pool proc event s

-- Who hears of a message once it is handled: the process of the top window, unless that is the
-- kernel.
unfoldable pub top_hears : Message → (ℕ → List ℕ) → Desk → List (ℕ × Message)
unfolding notify_target
top_hears msg subs d = elim d.top [
  | none ↦ []
  | some w ↦
      let pid = Windows.pid d.windows w in
      if pid == 0 then [] else notify_target pid msg (subs msg.msg_id)
]

-- The mouse, the windows, and what has been sent to the display and to processes so far.
pub record Session : Type 0 where
  pub mouse : MouseState
  pub desk : Desk
  pub displayed : List DisplayMsg
  pub heard : List (ℕ × Message)

-- The loop of `UserEventWorker::run`.
unfoldable pub serve_events : ℕ → Rect → (ℕ → List ℕ) → List Message → Session → Session
unfolding handle_event top_hears
serve_events width rest subs [] s = s
serve_events width rest subs (msg ∷ msgs) s =
    let (m, d, sent) = handle_event width rest msg s.mouse s.desk in
    serve_events width rest subs msgs (record {
      mouse = m;
      desk = d;
      displayed = s.displayed ++ sent;
      heard = s.heard ++ top_hears msg subs d;
    })

-- `UserEventWorker::run`: the session, the signal and the queue afterwards. Each display message
-- has added 1 to the signal.
unfoldable pub run_user_events :
    ℕ → Rect → (ℕ → List ℕ) → ℤ → SharedQueue → Session → Session × (ℤ × SharedQueue)
unfolding serve_events
run_user_events width rest subs signal q s =
    let (msgs, (signal', q')) = run_worker signal q in
    let s' = serve_events width rest subs msgs (record s { displayed = [] }) in
    (s', (signal' +ℤ pos (length s'.displayed), q'))

-- `new_user_event`, `new_callback_event` and `new_display_msg`, which differ in their queue.
unfoldable pub new_event : Others → Message → ℤ → SharedQueue → ℤ × SharedQueue
new_event others msg signal q = (signal +ℤ pos 1, (enqueue others msg q).1)
