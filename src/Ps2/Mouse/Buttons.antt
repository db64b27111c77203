-- ===== src/Ps2/Mouse/Buttons.antt =====
-- The left button in the events of `mouse_packet` (system/devices/ps2.cpp).
use shipwreck.Base.{
  ℕ, ltb, leb, ◌%◌, ◌-◌, ◌^◌, update, ◌+◌, ◌≡◌, ◌∙◌, refl, Bool, true, false, Option, none, some,
  List, [], ◌∷◌, ◌++◌, arith, Bool-cases, Option-cases, inl, inr, if◌then◌else◌,
}
use shipwreck.Ps2.Mouse.{
  UserEvents, MouseEvent, Sent, MouseState, Mouse, Handled, mouse_move, mouse_left_down,
  mouse_left_up, mouse_left_click, mouse_left_drag_start, mouse_left_drag_end, left_pressed,
  left_up, left_released, move_events, buttons, moved, packet, mouse_packet, misaligned,
}

-- Whether the button is down after an event, for a reader of the events; `none` where the event
-- cannot come.
unfoldable pub after : Bool → UserEvents → Option Bool
after down mouse_move = some down
after down mouse_left_down = if down then none else some true
after down mouse_left_up = if down then some false else none
after down mouse_left_click = if down then none else some false
after down mouse_left_drag_start = if down then some true else none
after down mouse_left_drag_end = if down then some true else none

unfoldable pub follow : Bool → List Sent → Option Bool
unfolding after
follow down [] = some down
follow down (s ∷ ss) = elim (after down s.event) [ none ↦ none | some d ↦ follow d ss ]

cast_base :
    (b c : Bool) (ys : List Sent)
    → ◌≡◌ {A = Option Bool} (some b) (some c)
    → follow b ys ≡ follow c ys
cast_base b c ys e = ground (arith, e)

follow-append :
    (b c : Bool) (xs ys : List Sent) → follow b xs ≡ some c → follow b (xs ++ ys) ≡ follow c ys
unfolding follow
follow-append b c [] ys e = cast_base b c ys e
follow-append b c (x ∷ xs) ys e = elim (Option-cases (after b x.event)) [
  | inl n ↦ ground (arith, rw (n, follow) at e)
  | inr (d, f) ↦ rw (f, follow) (follow-append d c xs ys (rw (f, follow) at e))
]

-- A drag needs the button.
abbrev pub Dragging : MouseState → Type 0
Dragging m = m.ldrag ≡ true → m.lbutton ≡ true

abbrev Follows : Bool → Handled → Type 0
Follows b h = (follow b h.sent ≡ some h.mouse.lbutton) × Dragging h.mouse

buttons-Follows : (b0 : ℕ) (m : MouseState) → Dragging m → Follows m.lbutton (buttons b0 m)
unfolding buttons left_pressed left_released left_up follow after
buttons-Follows b0 m h = ground (arith, h)

move_events-Follows :
    (e : MouseEvent) (m : MouseState) → Dragging m → Follows m.lbutton (move_events e m)
unfolding move_events follow after
move_events-Follows e m h = ground (arith, h)

abbrev Told : Bool → List Sent → MouseState → Type 0
Told b sent m = (follow b sent ≡ some m.lbutton) × Dragging m

packet-Told :
    (width height tsc old_tsc b0 b1 b2 : ℕ) (m : MouseState)
    → Dragging m
    → Told m.lbutton
        (packet width height tsc old_tsc b0 b1 b2 m).0
        (packet width height tsc old_tsc b0 b1 b2 m).1.0
unfolding packet moved
packet-Told width height tsc old_tsc b0 b1 b2 m drag =
    let m' : MouseState = moved width height b0 b1 b2 m in
    let h : Handled = buttons b0 m' in
    let (a, b) = buttons-Follows b0 m' drag in
    let (c, d) = move_events-Follows h.m_event h.mouse b in
    elim (Bool-cases (ltb 0x04000000 ((tsc + 2 ^ 64 - old_tsc) % 2 ^ 64))) [
      | inl e ↦ rw e (follow-append m.lbutton h.mouse.lbutton h.sent _ a ∙ c, d)
      | inr e ↦ rw e (a, b)
    ]

mouse_packet-Told :
    (width height tsc byte : ℕ) (s : Mouse)
    → Dragging s.mouse
    → Told s.mouse.lbutton
        (mouse_packet width height tsc byte s).0
        (mouse_packet width height tsc byte s).1.mouse
unfolding mouse_packet follow
mouse_packet-Told width height tsc byte s drag =
    let buffer : ℕ → ℕ = update s.buffer s.index byte in
    let index = (s.index + 1) % 3 in
    elim (Bool-cases (leb 3 (s.num_packets + 1))) [
      | inl e ↦ elim (Bool-cases (misaligned (buffer index))) [
        | inl f ↦ rw (e, f) (refl, drag)
        | inr f ↦
            rw (e, f)
              (packet-Told width height tsc s.old_tsc (buffer index) (buffer ((index + 1) % 3)) byte
                s.mouse drag)
      ]
      | inr e ↦ rw e (refl, drag)
    ]

-- Bytes with the times at which they come.
unfoldable pub mouse_bytes : ℕ → ℕ → List (ℕ × ℕ) → Mouse → List Sent × Mouse
mouse_bytes width height [] s = ([], s)
mouse_bytes width height ((tsc, byte) ∷ rest) s =
    let (sent, s') = mouse_packet width height tsc byte s in
    let (more, s'') = mouse_bytes width height rest s' in (sent ++ more, s'')

-- From a state in which a drag has the button down, whatever bytes come, and however they are
-- framed, the events tell the state of the left button: a press or a click comes only where it is
-- up, a release or the start or end of a drag only where it is down, and after all events the
-- button is as the driver has it. A drag then still has the button down.
pub mouse_bytes-follow :
    (width height : ℕ) (bytes : List (ℕ × ℕ)) (s : Mouse)
    → Dragging s.mouse
    → (follow s.mouse.lbutton (mouse_bytes width height bytes s).0
        ≡ some (mouse_bytes width height bytes s).1.mouse.lbutton)
      × Dragging (mouse_bytes width height bytes s).1.mouse
unfolding mouse_bytes follow
mouse_bytes-follow width height [] s drag = (refl, drag)
mouse_bytes-follow width height ((tsc, byte) ∷ rest) s drag =
    let o : List Sent × Mouse = mouse_packet width height tsc byte s in
    let (a, b) = mouse_packet-Told width height tsc byte s drag in
    let (c, d) = mouse_bytes-follow width height rest o.1 b in
    (follow-append s.mouse.lbutton o.1.mouse.lbutton o.0 _ a ∙ c, d)
