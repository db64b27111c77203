-- ===== src/Text/Page.antt =====
-- `TextBox` (include/gui/objects.h): printing and taking back, and the page without end.
use Prim.Native.Nat.{max}
use shipwreck.Base.{
  ℕ, zero, suc, ◌+◌, ◌-◌, ◌%◌, ◌≤◌, ◌<◌, ◌≡◌, refl, sym, ap, ◌∙◌, Bool-cases, false, inl, inr, List,
  ◌==◌, leb, if◌then◌else◌, update, arith, mod-ne, ==_iff, ℕ_discrete, update_self, update_ne,
}
use shipwreck.Base.Int.{ℤ, pos, ◌+ℤ◌, ◌-ℤ◌, ltb_ℤ}
use shipwreck.Text.{
  Buffer, TextBox, print_chars, blank_row, with_cursor, store, last_chars, set_redraw_rect,
  cursor_y, char_spacing_y, print_text, print, erase, backspace,
}
use shipwreck.Text.Cells.{Page, write, Shows, print_chars-Alike, print_chars-Shows}

-- A store at `tail` or in the row behind it hits no cell that is far enough from them.
store_apart :
    (b : Buffer) (j c i : ℕ)
    → i < j
    → j < i + b.max
    → (store j c b).text (i % b.max) ≡ b.text (i % b.max)
store_apart b j c i h1 h2 =
    let e : i + (j - i) ≡ j = omega arith in
    let apart = mod-ne b.max i (j - i) (omega arith) (omega arith) in
    update_ne b.text (j % b.max) c (i % b.max) (λ q. apart (sym q ∙ ap (λ t. t % b.max) (sym e)))

blank_row-outside :
    (left k : ℕ) (b : Buffer) (i : ℕ)
    → i < b.tail + k
    → b.tail + k + left ≤ i + b.max
    → blank_row left k b (i % b.max) ≡ b.text (i % b.max)
unfolding blank_row
blank_row-outside zero k b i h1 h2 = refl
blank_row-outside (suc left) k b i h1 h2 =
    blank_row-outside left (k + 1) (store (b.tail + k) b' ' b) i (omega arith) (omega arith)
    ∙ store_apart b (b.tail + k) b' ' i h1 (omega arith)

blank_row-inside :
    (left k : ℕ) (b : Buffer) (j : ℕ)
    → k ≤ j
    → j < k + left
    → left ≤ b.max
    → blank_row left k b ((b.tail + j) % b.max) ≡ b' '
unfolding blank_row
blank_row-inside zero k b j h1 h2 h3 = absurd (omega arith)
blank_row-inside (suc left) k b j h1 h2 h3 = elim (ℕ_discrete j k) [
  | yes e ↦ rw e (
      blank_row-outside left (k + 1) (store (b.tail + k) b' ' b) (b.tail + k) (omega arith)
        (omega arith)
      ∙ update_self b.text ((b.tail + k) % b.max) b' ')
  | no ne ↦
      blank_row-inside left (k + 1) (store (b.tail + k) b' ' b) j (omega arith) (omega arith)
        (omega arith)
]

-- The cells from the cursor on that the cursor takes, a whole row where it is at the start of one.
abbrev pub taken : Buffer → ℕ
taken b = if b.tail % b.char_w == 0 then b.char_w else 1

-- What the ring holds after a print, for the characters that it keeps.
abbrev pub Displays : ℕ → Buffer → Page → Type 0
Displays lo b p =
    Shows (max lo (b.tail + taken b - b.max)) b p
    × (b.text (b.tail % b.max) ≡ b'_')
    × (b.tail % b.char_w ≡ 0
        → (j : ℕ) → 0 < j
        → j < b.char_w
        → b.text ((b.tail + j) % b.max) ≡ b' ')

-- The text before the cursor is drawn.
cleared : Buffer → ℕ → ℕ
cleared b = if b.tail % b.char_w == 0 then blank_row b.char_w 0 b else b.text

cleared-outside :
    (b : Buffer) (i : ℕ)
    → i < b.tail
    → b.tail + taken b ≤ i + b.max
    → cleared b (i % b.max) ≡ b.text (i % b.max)
unfolding cleared
cleared-outside b i h1 h2 = elim (Bool-cases (b.tail % b.char_w == 0)) [
  | inl e ↦ rw e (blank_row-outside b.char_w 0 b i (omega arith) (ground (arith, h2)))
  | inr e ↦ rw e refl
]

cleared-inside :
    (b : Buffer) (j : ℕ)
    → b.tail % b.char_w ≡ 0
    → j < b.char_w
    → b.char_w ≤ b.max
    → cleared b ((b.tail + j) % b.max) ≡ b' '
unfolding cleared
cleared-inside b j e h hm =
    rw ((==_iff (b.tail % b.char_w) 0).1 e)
      (blank_row-inside b.char_w 0 b j (omega arith) (omega arith) hm)

with_cursor-Displays :
    (lo : ℕ) (b : Buffer) (p : Page)
    → Shows lo b p
    → 0 < b.char_w
    → b.char_w ≤ b.max
    → Displays lo (with_cursor b) p
unfolding with_cursor cleared
with_cursor-Displays lo b p s hw hm = (
  record {
    tail = s.tail;
    cells = λ i h1 h2 h3.
        let far : b.tail + taken b ≤ i + b.max = omega arith in
        store_apart (record b { text = cleared b }) b.tail b'_' i h2 (ground (arith, hw, far))
        ∙ cleared-outside b i h2 far
        ∙ s.cells i (omega arith) h2 (omega arith);
    blank = s.blank;
  },
  update_self (cleared b) (b.tail % b.max) b'_',
  λ z j h1 h2.
      let apart = mod-ne b.max b.tail j h1 (omega arith) in
      update_ne (cleared b) (b.tail % b.max) b'_' ((b.tail + j) % b.max) apart
      ∙ cleared-inside b j z h2 hm,
)

-- `set_redraw_rect` may scroll the text, and leaves all else of the buffer.
pub set_redraw_rect-keeps {ℓ} :
    (old new : ℕ) (box : TextBox) (P : Buffer → Type ℓ)
    → ((dy : ℤ) → P (record box.buf { offset_y = dy }))
    → P (set_redraw_rect old new box).buf
unfolding set_redraw_rect
set_redraw_rect-keeps old new box P h =
    let new_y = cursor_y box.buf new in
    elim (Bool-cases (old == new)) [
      | inl e ↦ rw e (h box.buf.offset_y)
      | inr e ↦ rw e (elim (Bool-cases (ltb_ℤ new_y (pos 0))) [
        | inl e₁ ↦ rw e₁ (h (box.buf.offset_y +ℤ (pos 0 -ℤ new_y)))
        | inr e₁ ↦
            rw e₁
              (elim (Bool-cases (ltb_ℤ (box.rect.b -ℤ box.rect.t) (new_y +ℤ pos char_spacing_y))) [
                | inl e₂ ↦ rw e₂ (h _)
                | inr e₂ ↦ rw e₂ (h box.buf.offset_y)
              ])
      ])
    ]

-- Where the ring shows what is on the page from cell `lo` on, `print` leaves it showing the page on
-- which the characters that it keeps have been written, the last `max` of them, as far back as the
-- ring reaches: from the cursor, or from the end of its row where it starts one, less than `max`
-- cells. The cursor stands behind the text, and a row that it starts is otherwise blank.
pub print-Displays :
    (cs : List ℕ) (lo : ℕ) (box : TextBox) (p : Page)
    → Shows lo box.buf p
    → 0 < box.buf.char_w
    → box.buf.char_w ≤ box.buf.max
    → Displays lo (print cs box).buf (write box.buf.char_w (last_chars box.buf.max cs) p)
unfolding print print_text
print-Displays cs lo box p s hw hm =
    let b = print_chars (last_chars box.buf.max cs) box.buf in
    let a = print_chars-Alike (last_chars box.buf.max cs) box.buf in
    let p' = write box.buf.char_w (last_chars box.buf.max cs) p in
    let lines = if leb b.max (b.tail - b.head) then b.char_w else 0 in
    let s' = print_chars-Shows (last_chars box.buf.max cs) lo box.buf p s (omega arith) hw in
    let t =
      with_cursor-Displays lo (record b { head = b.head + lines }) p'
        (record { tail = s'.tail; cells = s'.cells; blank = s'.blank }) (omega (arith, a.1))
        (omega (arith, a.0, a.1)) in
    set_redraw_rect-keeps box.buf.tail _ _ (λ b. Displays lo b p')
      (λ dy. (record { tail = t.0.tail; cells = t.0.cells; blank = t.0.blank }, t.1, t.2))

-- The last character is taken back.
abbrev pub rub_out : Page → Page
rub_out p = record { cells = update p.cells (p.cursor - 1) b' '; cursor = p.cursor - 1 }

erase-Shows :
    (lo : ℕ) (b : Buffer) (p : Page)
    → Shows lo b p
    → 0 < b.tail
    → b.tail < lo + b.max
    → Shows lo (erase b) (rub_out p)
erase-Shows lo b p s h hl = record {
  tail = omega (arith, s.tail);
  cells = λ i h1 h2 h3.
      store_apart (store b.tail b' ' b) (b.tail - 1) b'_' i h2 (omega arith)
      ∙ store_apart b b.tail b' ' i (omega arith) (omega arith)
      ∙ s.cells i h1 (omega arith) (omega arith)
      ∙ sym (update_ne p.cells (p.cursor - 1) b' ' i (omega (arith, s.tail)));
  blank = λ i h. elim (ℕ_discrete i (p.cursor - 1)) [
    | yes e ↦ rw e (update_self p.cells (p.cursor - 1) b' ')
    | no ne ↦ update_ne p.cells (p.cursor - 1) b' ' i (λ e. ne (sym e)) ∙ s.blank i (omega arith)
  ];
}

-- Behind the first character, and where the cursor's cell is not also a cell in front of it,
-- `backspace` takes the last character back on the page, and the cursor stands in its place.
pub backspace-Shows :
    (lo : ℕ) (box : TextBox) (p : Page)
    → Shows lo box.buf p
    → box.buf.head < box.buf.tail
    → box.buf.tail < lo + box.buf.max
    → let b = (backspace box).buf in Shows lo b (rub_out p) × (b.text (b.tail % b.max) ≡ b'_')
unfolding backspace
backspace-Shows lo box p s hh hl =
    let b = box.buf in
    let p' = rub_out p in
    let front : leb b.tail b.head ≡ false = ground arith in
    let e = erase-Shows lo b p s (omega arith) hl in
    rw front (
      set_redraw_rect-keeps b.tail (b.tail - 1) (record box { buf = erase b })
        (λ b. Shows lo b p' × (b.text (b.tail % b.max) ≡ b'_'))
        (λ dy. (
          record { tail = e.tail; cells = e.cells; blank = e.blank },
          update_self (store b.tail b' ' b).text ((b.tail - 1) % b.max) b'_',
        )))
