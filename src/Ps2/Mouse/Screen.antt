-- ===== src/Ps2/Mouse/Screen.antt =====
-- The pointer of `mouse_packet` (system/devices/ps2.cpp) and the edges of the screen.
use shipwreck.Base.{
  ℕ, ◌+◌, ◌-◌, ◌%◌, ◌^◌, ◌<◌, ◌≡◌, List, [], ◌∷◌, arith, Bool-cases, inl, inr, ltb, leb, update,
}
use shipwreck.Base.Int.{ℤ, pos, ◌≤ℤ◌, ◌<ℤ◌, ◌-ℤ◌}
use shipwreck.Ps2.Mouse.{
  MouseEvent, MouseState, Mouse, Handled, kept, misaligned, left_pressed, left_up, left_released,
  move_events, buttons, moved, packet, mouse_packet,
}
use shipwreck.Ps2.Mouse.Buttons.{mouse_bytes}

pub record OnScreen (width height : ℕ) (m : MouseState) : Type 0 where
  pub across : (pos 0 ≤ℤ m.x) × (m.x <ℤ pos width)
  pub down : (pos 0 ≤ℤ m.y) × (m.y <ℤ pos height)

kept-within : (size : ℕ) (v : ℤ) → 0 < size → (pos 0 ≤ℤ kept size v) × (kept size v <ℤ pos size)
unfolding ◌-ℤ◌
kept-within size v h = ground arith

moved-OnScreen :
    (width height b0 b1 b2 : ℕ) (m : MouseState)
    → 0 < width
    → 0 < height
    → OnScreen width height (moved width height b0 b1 b2 m)
unfolding moved
moved-OnScreen width height b0 b1 b2 m w h = record {
  across = kept-within width _ w;
  down = kept-within height _ h;
}

-- The buttons leave the pointer where it is.
SamePlace : MouseState → MouseState → Type 0
SamePlace m m' = (m'.x ≡ m.x) × (m'.y ≡ m.y)

buttons-SamePlace : (b0 : ℕ) (m : MouseState) → SamePlace m (buttons b0 m).mouse
unfolding SamePlace buttons left_pressed left_released left_up
buttons-SamePlace b0 m = ground arith

move_events-SamePlace : (e : MouseEvent) (m : MouseState) → SamePlace m (move_events e m).mouse
unfolding SamePlace move_events
move_events-SamePlace e m = ground arith

OnScreen-SamePlace :
    (width height : ℕ) (m m' : MouseState)
    → SamePlace m m'
    → OnScreen width height m
    → OnScreen width height m'
unfolding SamePlace
OnScreen-SamePlace width height m m' e o = record { across = rw e.0 o.across; down = rw e.1 o.down }

packet-OnScreen :
    (width height tsc old_tsc b0 b1 b2 : ℕ) (m : MouseState)
    → 0 < width
    → 0 < height
    → OnScreen width height (packet width height tsc old_tsc b0 b1 b2 m).1.0
unfolding packet
packet-OnScreen width height tsc old_tsc b0 b1 b2 m w h =
    let m' : MouseState = moved width height b0 b1 b2 m in
    let k : Handled = buttons b0 m' in
    let here =
      OnScreen-SamePlace width height m' k.mouse (buttons-SamePlace b0 m')
        (moved-OnScreen width height b0 b1 b2 m w h) in
    elim (Bool-cases (ltb 0x04000000 ((tsc + 2 ^ 64 - old_tsc) % 2 ^ 64))) [
      | inl e ↦
          rw e (
            OnScreen-SamePlace width height k.mouse _ (move_events-SamePlace k.m_event k.mouse)
              here)
      | inr e ↦ rw e here
    ]

mouse_packet-OnScreen :
    (width height tsc byte : ℕ) (s : Mouse)
    → 0 < width
    → 0 < height
    → OnScreen width height s.mouse
    → OnScreen width height (mouse_packet width height tsc byte s).1.mouse
unfolding mouse_packet
mouse_packet-OnScreen width height tsc byte s w h o =
    let buffer : ℕ → ℕ = update s.buffer s.index byte in
    let index = (s.index + 1) % 3 in
    elim (Bool-cases (leb 3 (s.num_packets + 1))) [
      | inl e ↦ elim (Bool-cases (misaligned (buffer index))) [
        | inl f ↦ rw (e, f) o
        | inr f ↦
            rw (e, f)
              (packet-OnScreen width height tsc s.old_tsc (buffer index) (buffer ((index + 1) % 3))
                byte s.mouse w h)
      ]
      | inr e ↦ rw e o
    ]

-- On a screen that is not empty, a pointer that is on the screen stays on it, whatever bytes come.
pub mouse_bytes-OnScreen :
    (width height : ℕ) (bytes : List (ℕ × ℕ)) (s : Mouse)
    → 0 < width
    → 0 < height
    → OnScreen width height s.mouse
    → OnScreen width height (mouse_bytes width height bytes s).1.mouse
unfolding mouse_bytes
mouse_bytes-OnScreen width height [] s w h o = o
mouse_bytes-OnScreen width height ((tsc, byte) ∷ rest) s w h o =
    mouse_bytes-OnScreen width height rest (mouse_packet width height tsc byte s).1 w h
      (mouse_packet-OnScreen width height tsc byte s w h o)
