-- ===== src/Text/Terminal.antt =====
-- src/include/gui/terminal.h: the keys that a `GUITerminal` has been sent, in a ring, and the line
-- that `read` makes of them. `signal` is that of INPUT_MONITOR. `max` is at least 2 for `read`,
-- which for less would store in front of the buffer; the line's buffer is a function of the index.
pub mod Ring
pub mod Line
use shipwreck.Base.{
  ℕ, zero, suc, ◌+◌, ◌-◌, ◌%◌, Bool, true, false, Option, none, some, List, [], ◌∷◌, ◌==◌, ltb, leb,
  if◌then◌else◌, update,
}
use shipwreck.Text.{TextBox, print, backspace}

-- MAX_INPUT_BUFFER
abbrev pub max_input_buffer : ℕ
max_input_buffer = 64

pub record KeyRing : Type 0 where
  pub input_buf : ℕ → ℕ
  pub head : ℕ
  pub tail : ℕ
  pub signal : ℕ

-- A key that finds the ring full is lost.
unfoldable pub key_handler : ℕ → KeyRing → KeyRing
key_handler key k = if leb max_input_buffer (k.tail - k.head) then k else record {
  input_buf = update k.input_buf (k.tail % max_input_buffer) key;
  head = k.head;
  tail = k.tail + 1;
  signal = k.signal + 1;
}

-- The key at an index is taken once `monitor` returns; `none` is a thread that goes on waiting.
abbrev pub take_at : ℕ → KeyRing → Option (ℕ × KeyRing)
take_at i k = elim k.signal [
  | zero ↦ none
  | suc n ↦ some (k.input_buf i, record k { head = k.head + 1; signal = n })
]

-- `getchar` has no `% MAX_INPUT_BUFFER`.
unfoldable pub getchar : KeyRing → Option (ℕ × KeyRing)
getchar k = take_at k.head k

unfoldable pub next_key : KeyRing → Option (ℕ × KeyRing)
next_key k = take_at (k.head % max_input_buffer) k

-- The keys that are sent while `read` waits.
unfoldable pub key_handlers : List ℕ → KeyRing → KeyRing
unfolding key_handler
key_handlers [] k = k
key_handlers (key ∷ keys) k = key_handlers keys (key_handler key k)

-- What `read` works on.
pub record Reading : Type 0 where
  pub box : TextBox
  pub buffer : ℕ → ℕ
  pub len : ℕ

-- The last character goes: `textbox->backspace(); buffer[--len] = ' '`
abbrev pub delete_at : ℕ → Reading → Reading
delete_at len s = record {
  box = backspace s.box;
  buffer = update s.buffer (len - 1) b' ';
  len = len - 1;
}

-- Where the line is full its last character makes room.
unfoldable pub make_room : ℕ → Reading → Reading
make_room limit s = if leb limit s.len then delete_at limit s else s

-- `buffer[len] = nextchar; write(&buffer[len], 1); len++`
abbrev pub append_key : ℕ → Reading → Reading
append_key c s = record {
  box = print (c ∷ []) s.box;
  buffer = update s.buffer s.len c;
  len = s.len + 1;
}

-- What `read` does with one key.
unfoldable pub read_key : ℕ → ℕ → Reading → Reading
unfolding make_room
read_key max c s =
    let s' = make_room (max_input_buffer - 1) (make_room (max - 1) s) in
    if c == 8
    then (if ltb 0 s.len then delete_at s.len s else s)
    else if c == 10
    then append_key c s
    else append_key c s'

-- The loop of `read`; `arrivals n` are the keys that are sent before its round `n` has one. `none`
-- is a read that goes on waiting, or has not ended after the rounds that are left.
unfoldable pub read_from : ℕ → (ℕ → List ℕ) → ℕ → ℕ → KeyRing → Reading → Option (KeyRing × Reading)
read_from zero arrivals round max k s = none
read_from (suc left) arrivals round max k s = elim (next_key (key_handlers (arrivals round) k)) [
  | none ↦ none
  | some (c, k') ↦
      let s' = read_key max c s in
      let rest = read_from left arrivals (round + 1) max k' s' in
      if c == 10 then some (k', s') else rest
]

unfoldable pub read_line :
    ℕ → (ℕ → List ℕ) → ℕ → KeyRing → TextBox → (ℕ → ℕ) → Option (KeyRing × Reading)
unfolding read_from
read_line rounds arrivals max k box buffer =
    read_from rounds arrivals 0 max k (record { box = box; buffer = buffer; len = 0 })
