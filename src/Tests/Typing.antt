-- ===== src/Tests/Typing.antt =====
-- The keyboard (Ps2/Keyboard.antt): "aA" typed with the left shift key, and an arrow key.
use shipwreck.Base.{ℕ, ◌≡◌, refl, false, List, [], ◌∷◌, arith}
use shipwreck.Base.Int.{pos}
use shipwreck.Ps2.Keyboard.{key_char_down, keyboard_packet, scan_to_ascii, shifted, unshifted}
use shipwreck.Ps2.Keyboard.History.{
  keyboard_bytes, AllDown, shift_after, plain, keyboard_bytes-plain,
}

-- a, shift down, A, A released, shift released.
abbrev typed : List ℕ
typed = 0x1E ∷ 0x2A ∷ 0x1E ∷ 0x9E ∷ 0xAA ∷ []

keyboard_bytes-typed :
    keyboard_bytes typed (plain false)
    ≡ (key_char_down (pos b'a') ∷ key_char_down (pos b'A') ∷ [], plain false)
unfolding keyboard_bytes keyboard_packet scan_to_ascii shifted unshifted
keyboard_bytes-typed = refl

keyboard_bytes-plain_example :
    AllDown (keyboard_bytes typed (plain false)).0
    × ((keyboard_bytes typed (plain false)).1 ≡ plain (shift_after false typed))
keyboard_bytes-plain_example =
    keyboard_bytes-plain typed false
      (ground arith, (ground arith, (ground arith, (ground arith, (ground arith, tt)))))
