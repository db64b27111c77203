-- ===== src/Ps2/Mouse.antt =====
-- src/system/devices/ps2.cpp, `mouse_packet`: bytes from the mouse are put together in packets of
-- three, which move the pointer and send events. A byte is a number below 256; the screen's size
-- and the time stamp counter are parameters. The two squares that show the buttons are left out.
pub mod Framing
pub mod Buttons
pub mod Screen
use shipwreck.Base.{
  ℕ, ◌+◌, ◌-◌, ◌*◌, ◌/◌, ◌%◌, ◌^◌, Bool, true, false, ◌&&◌, ◌||◌, ◌==◌, ltb, leb, if◌then◌else◌,
  List, [], ◌∷◌, ◌++◌, update,
}
use shipwreck.Base.Int.{ℤ, pos, negsuc, ◌+ℤ◌, ◌-ℤ◌, ltb_ℤ, leb_ℤ, eqb_ℤ}

-- The events that `mouse_packet` sends, of `UserEvents`.
pub data UserEvents : Type 0 where
  mouse_move mouse_left_down mouse_left_up mouse_left_click : UserEvents
  mouse_left_drag_start mouse_left_drag_end : UserEvents

-- `x` and `y` are stored in 12 bits with a sign.
pub record MouseEvent : Type 0 where
  pub x : ℤ
  pub y : ℤ
  pub lbutton : Bool
  pub rbutton : Bool

-- A call of `new_user_event`.
pub record Sent : Type 0 where
  pub event : UserEvents
  pub data_word : MouseEvent

pub record MouseState : Type 0 where
  pub x : ℤ
  pub y : ℤ
  pub old_x : ℤ
  pub old_y : ℤ
  pub lclick_x : ℤ
  pub lclick_y : ℤ
  pub lbutton : Bool
  pub ldrag : Bool

pub record Mouse : Type 0 where
  pub buffer : ℕ → ℕ
  pub index : ℕ
  pub num_packets : ℕ
  pub mouse : MouseState
  pub old_tsc : ℕ

unfoldable pub int12 : ℤ → ℤ
int12 (pos n) = let m = n % 4096 in if ltb m 2048 then pos m else negsuc (4095 - m)
int12 (negsuc n) = let m = 4095 - n % 4096 in if ltb m 2048 then pos m else negsuc (4095 - m)

abbrev pub click_box : ℕ
click_box = 4

-- `b0 & 0xC0` or not `b0 & 0x08`
abbrev pub misaligned : ℕ → Bool
misaligned b0 = ltb 0 (b0 / 64 % 4) || (b0 / 8 % 2 == 0)

abbrev pub has_bit : ℕ → ℕ → Bool
has_bit b k = b / 2 ^ k % 2 == 1

-- A coordinate kept inside the screen.
abbrev pub kept : ℕ → ℤ → ℤ
kept size v =
    let v' : ℤ = if leb_ℤ (pos size) v then pos size -ℤ pos 1 else v in
    if ltb_ℤ v' (pos 0) then pos 0 else v'

-- The pointer after the two deltas.
unfoldable pub moved : ℕ → ℕ → ℕ → ℕ → ℕ → MouseState → MouseState
moved width height b0 b1 b2 m = record m {
  x = kept width (m.x +ℤ (pos b1 -ℤ pos (b0 / 16 % 2 * 256)));
  y = kept height (m.y +ℤ (pos (b0 / 32 % 2 * 256) -ℤ pos b2));
}

-- `(uint) (v - click + CLICK_BOX) < CLICK_BOX * 2`
abbrev pub near : ℤ → ℤ → Bool
near v click =
    let d : ℤ = v -ℤ click +ℤ pos click_box in leb_ℤ (pos 0) d && ltb_ℤ d (pos (click_box * 2))

abbrev pub near_click : MouseState → Bool
near_click m = near m.x m.lclick_x && near m.y m.lclick_y

pub record Handled : Type 0 where
  pub sent : List Sent
  pub m_event : MouseEvent
  pub mouse : MouseState

-- The branch where the left button is down.
unfoldable pub left_pressed : MouseEvent → MouseState → Handled
left_pressed e m =
    let e' : MouseEvent = record e { lbutton = true } in
    if m.lbutton then record { sent = []; m_event = e'; mouse = m } else record {
      sent = record { event = mouse_left_down; data_word = e' } ∷ [];
      m_event = e';
      mouse = record m { lbutton = true; lclick_x = m.x; lclick_y = m.y };
    }

-- The release of a button that was down, a click where the pointer has stayed near.
unfoldable pub left_up : MouseEvent → MouseState → Handled
left_up e m =
    let click : MouseEvent = record e { x = int12 m.lclick_x; y = int12 m.lclick_y } in
    let up : Sent = record { event = mouse_left_up; data_word = e } in
    if near_click m
    then record {
      sent = up ∷ record { event = mouse_left_click; data_word = click } ∷ [];
      m_event = click;
      mouse = record m { lbutton = false };
    }
    else record { sent = up ∷ []; m_event = e; mouse = record m { lbutton = false } }

unfoldable pub left_released : MouseEvent → MouseState → Handled
unfolding left_up
left_released e m =
    let m' : MouseState = record m { ldrag = false } in
    let drag_end : List Sent =
      if m.ldrag then record { event = mouse_left_drag_end; data_word = e } ∷ [] else [] in
    if m.lbutton
    then (let h = left_up e m' in record h { sent = drag_end ++ h.sent })
    else record { sent = drag_end; m_event = e; mouse = m' }

-- The events of a move, which are sent where the throttle lets them pass.
unfoldable pub move_events : MouseEvent → MouseState → Handled
move_events e m =
    let move : Sent = record { event = mouse_move; data_word = e } in
    if eqb_ℤ m.old_x m.x && eqb_ℤ m.old_y m.y
    then record { sent = []; m_event = e; mouse = m }
    else if m.lbutton && (if m.ldrag then false else true)
    then record {
      sent =
          move
          ∷ (if near_click m
              then []
              else record { event = mouse_left_drag_start; data_word = e } ∷ []);
      m_event = e;
      mouse = record m { ldrag = true };
    }
    else record { sent = move ∷ []; m_event = e; mouse = m }

-- The buttons of a packet, after the move.
unfoldable pub buttons : ℕ → MouseState → Handled
unfolding left_pressed left_released
buttons b0 m =
    let e : MouseEvent = record {
      x = int12 m.x;
      y = int12 m.y;
      lbutton = false;
      rbutton = false;
    } in
    let h : Handled = if has_bit b0 0 then left_pressed e m else left_released e m in
    if has_bit b0 1 then record h { m_event = record (h.m_event) { rbutton = true } } else h

-- What is sent for a whole packet, the state of the mouse after it, and the new `old_tsc`.
unfoldable pub packet : ℕ → ℕ → ℕ → ℕ → ℕ → ℕ → ℕ → MouseState → List Sent × (MouseState × ℕ)
unfolding buttons moved move_events
packet width height tsc old_tsc b0 b1 b2 m =
    let h : Handled = buttons b0 (moved width height b0 b1 b2 m) in
    let g : Handled = move_events h.m_event h.mouse in
    if ltb 0x04000000 ((tsc + 2 ^ 64 - old_tsc) % 2 ^ 64)
    then (h.sent ++ g.sent, (g.mouse, tsc))
    else (h.sent, (h.mouse, old_tsc))

-- `mouse_packet`
unfoldable pub mouse_packet : ℕ → ℕ → ℕ → ℕ → Mouse → List Sent × Mouse
mouse_packet width height tsc byte s =
    let buffer : ℕ → ℕ = update s.buffer s.index byte in
    let index = (s.index + 1) % 3 in
    let b0 = buffer index in
    let out = packet width height tsc s.old_tsc b0 (buffer ((index + 1) % 3)) byte s.mouse in
    if leb 3 (s.num_packets + 1)
    then (if misaligned b0
        then ([], record s { buffer = buffer; index = index; num_packets = 2 })
        else (
          out.0,
          record {
            buffer = buffer;
            index = 0;
            num_packets = 0;
            mouse = out.1.0;
            old_tsc = out.1.1;
          },
        ))
    else ([], record s { buffer = buffer; index = index; num_packets = s.num_packets + 1 })
