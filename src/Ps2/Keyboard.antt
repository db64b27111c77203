-- ===== src/Ps2/Keyboard.antt =====
-- src/system/include/devices/ps2.h, `scan_to_ascii`, and `keyboard_packet` of
-- src/system/devices/ps2.cpp. A scan code is a number below 256. The function's static variables
-- are a state.
pub mod History
use shipwreck.Base.{
  ℕ, ◌+◌, ◌-◌, Bool, true, false, ◌&&◌, ◌||◌, ◌==◌, ltb, leb, if◌then◌else◌, List, [], ◌∷◌, get_or,
}
use shipwreck.Base.Int.{ℤ, pos, negsuc}

pub record Keys : Type 0 where
  pub extended : Bool
  pub shift : Bool

abbrev pub keymap : List ℕ
keymap =
    0 ∷ 0x1b ∷ b'1' ∷ b'2' ∷ b'3' ∷ b'4' ∷ b'5' ∷ b'6' ∷ b'7' ∷ b'8' ∷ b'9' ∷ b'0' ∷ b'-' ∷ b'=' ∷ 8
    ∷ 9 ∷ b'q' ∷ b'w' ∷ b'e' ∷ b'r' ∷ b't' ∷ b'y' ∷ b'u' ∷ b'i' ∷ b'o' ∷ b'p' ∷ b'[' ∷ b']' ∷ 10 ∷ 0
    ∷ b'a' ∷ b's' ∷ b'd' ∷ b'f' ∷ b'g' ∷ b'h' ∷ b'j' ∷ b'k' ∷ b'l' ∷ b';' ∷ 39 ∷ 96 ∷ 0 ∷ 92 ∷ b'z'
    ∷ b'x' ∷ b'c' ∷ b'v' ∷ b'b' ∷ b'n' ∷ b'm' ∷ b',' ∷ b'.' ∷ b'/' ∷ 0 ∷ b'*' ∷ 0 ∷ b' ' ∷ 0 ∷ 0 ∷ 0
    ∷ 0 ∷ 0 ∷ 0 ∷ 0 ∷ 0 ∷ 0 ∷ 0 ∷ 0 ∷ 0 ∷ 0 ∷ 0 ∷ 0 ∷ 0 ∷ b'-' ∷ 0 ∷ 0 ∷ 0 ∷ b'+' ∷ []

-- `sizeof(keymap)`
abbrev pub keymap_size : ℕ
keymap_size = 79

abbrev pub shift_num_row : List ℕ
shift_num_row =
    b'~' ∷ b'!' ∷ b'@' ∷ b'#' ∷ b'$' ∷ b'%' ∷ b'^' ∷ b'&' ∷ b'*' ∷ b'(' ∷ b')' ∷ b'_' ∷ b'+' ∷ []

-- The shift keys, pressed or released, and caps lock.
abbrev pub is_shift : ℕ → Bool
is_shift code = code == 0x2A || code == 0x36 || code == 0xAA || code == 0xB6 || code == 0x3A

abbrev pub toggled : Bool → Bool
toggled b = if b then false else true

unfoldable pub shifted : ℕ → ℕ → ℕ
shifted code ascii =
    if leb b'a' ascii && leb ascii b'z'
    then ascii - b'a' + b'A'
    else if leb 96 code && leb code b'='
    then get_or shift_num_row (code - 96) 0
    else ascii

-- The character of the key without shift, 0 past the end of the table.
unfoldable pub unshifted : ℕ → ℕ
unshifted code = if ltb code keymap_size then get_or keymap code 0 else 0

unfoldable pub scan_to_ascii : ℕ → Keys → ℕ × Keys
scan_to_ascii code s =
    let shift : Bool = if is_shift code then toggled s.shift else s.shift in
    if code == 0xE0 then (0, record s { extended = true }) else if s.extended then (code, s) else (
      if shift then shifted code (unshifted code) else unshifted code,
      record s { shift = shift },
    )

-- The events that `keyboard_packet` sends, with their data.
pub data KeyEvent : Type 0 where
  key_char_down key_char_up : ℤ → KeyEvent

-- A `char` as an `int`.
abbrev pub char_value : ℕ → ℤ
char_value c = if ltb c 128 then pos c else negsuc (255 - c)

unfoldable pub keyboard_packet : ℕ → Keys → List KeyEvent × Keys
keyboard_packet code s =
    let (ascii, s') = scan_to_ascii code s in
    if ascii == 0
    then ([], s')
    else if leb 128 code
    then (key_char_up (char_value ascii) ∷ [], s')
    else (key_char_down (char_value ascii) ∷ [], s')
