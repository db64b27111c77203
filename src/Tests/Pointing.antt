-- ===== src/Tests/Pointing.antt =====
-- The mouse (Ps2/Mouse.antt): a byte out of step, then a packet with the left button down.
use shipwreck.Base.{ℕ, ◌≡◌, refl, some, List, [], ◌∷◌, false, arith}
use shipwreck.Base.Int.{pos}
use shipwreck.Ps2.Mouse.{Mouse}
use shipwreck.Ps2.Mouse.Buttons.{mouse_bytes, follow, Dragging, mouse_bytes-follow}
use shipwreck.Ps2.Mouse.Framing.{frames, Framed, mouse_bytes-frames}
use shipwreck.Ps2.Mouse.Screen.{OnScreen, mouse_bytes-OnScreen}

abbrev at_rest : Mouse
at_rest = record {
  buffer = λ i. 0;
  index = 0;
  num_packets = 0;
  mouse = record {
    x = pos 5;
    y = pos 5;
    old_x = pos 5;
    old_y = pos 5;
    lclick_x = pos 0;
    lclick_y = pos 0;
    lbutton = false;
    ldrag = false;
  };
  old_tsc = 0;
}

abbrev stream : List (ℕ × ℕ)
stream = (0, 255) ∷ (0, 9) ∷ (0, 10) ∷ (0, 0) ∷ []

frames-stream : frames [] stream ≡ record { b0 = 9; b1 = 10; b2 = 0; tsc = 0 } ∷ []
unfolding frames
frames-stream = refl

mouse_bytes-frames_example :
    Framed 800 600 (frames [] stream) at_rest (mouse_bytes 800 600 stream at_rest)
mouse_bytes-frames_example = mouse_bytes-frames 800 600 stream [] at_rest (refl, refl)

mouse_bytes-follow_example :
    (follow false (mouse_bytes 800 600 stream at_rest).0
      ≡ some (mouse_bytes 800 600 stream at_rest).1.mouse.lbutton)
    × Dragging (mouse_bytes 800 600 stream at_rest).1.mouse
mouse_bytes-follow_example = mouse_bytes-follow 800 600 stream at_rest (λ e. ground (arith, e))

mouse_bytes-OnScreen_example : OnScreen 800 600 (mouse_bytes 800 600 stream at_rest).1.mouse
mouse_bytes-OnScreen_example =
    mouse_bytes-OnScreen 800 600 stream at_rest (omega arith) (omega arith)
      (record { across = (omega arith, omega arith); down = (omega arith, omega arith) })
