-- ===== src/Text/Cells.antt =====
-- What a `TextBox` (include/gui/objects.h) shows of a page without end.
use native.Mathlib.Nat.{div-add-mod', mod-lt, add-mul}
use shipwreck.Base.{
  ℕ, zero, suc, ◌+◌, ◌-◌, ◌*◌, ◌/◌, ◌%◌, ◌≤◌, ◌<◌, ◌≡◌, refl, sym, ap, ◌∙◌, Bool-cases, inl, inr,
  List, [], ◌∷◌, ◌==◌, if◌then◌else◌, update, arith, mod-ne, subst, ℕ_discrete, update_self,
  update_ne,
}
use shipwreck.Text.{Buffer, put, put_spaces, print_char, print_chars}

-- What has been written row by row on an endless page: cell `i` is in row `i / w`.
pub record Page : Type 0 where
  pub cells : ℕ → ℕ
  pub cursor : ℕ

-- A line feed moves to the next row.
abbrev pub write_char : ℕ → ℕ → Page → Page
write_char w c p =
    if c == 10
    then record p { cursor = (p.cursor / w + 1) * w }
    else record { cells = update p.cells p.cursor c; cursor = p.cursor + 1 }

unfoldable pub write : ℕ → List ℕ → Page → Page
write w [] p = p
write w (c ∷ cs) p = write w cs (write_char w c p)

-- The ring holds the cells from `lo` on that are in front of the cursor, as many as it has room
-- for, and nothing is written behind the cursor.
pub record Shows (lo : ℕ) (b : Buffer) (p : Page) : Type 0 where
  pub tail : b.tail ≡ p.cursor
  pub cells : (i : ℕ) → lo ≤ i → i < b.tail → b.tail ≤ i + b.max → b.text (i % b.max) ≡ p.cells i
  pub blank : (i : ℕ) → p.cursor ≤ i → p.cells i ≡ b' '

-- `put` writes where no visible cell is.
put-Shows :
    (c lo : ℕ) (b : Buffer) (p p' : Page)
    → Shows lo b p
    → 0 < b.max
    → p'.cursor ≡ p.cursor + 1
    → p'.cells p.cursor ≡ c
    → ((i : ℕ) → ¬ (i ≡ p.cursor) → p'.cells i ≡ p.cells i)
    → Shows lo (put c b) p'
put-Shows c lo b p p' s hm hc hn ho = record {
  tail = omega (arith, hc, s.tail);
  cells = λ i h1 h2 h3. elim (ℕ_discrete i b.tail) [
    | yes e ↦ rw e (update_self b.text (b.tail % b.max) c ∙ sym hn ∙ ap p'.cells (sym s.tail))
    | no ne ↦
        let e : i + (b.tail - i) ≡ b.tail = omega arith in
        let apart = mod-ne b.max i (b.tail - i) (omega arith) (omega arith) in
        update_ne b.text (b.tail % b.max) c (i % b.max)
          (λ q. apart (sym q ∙ ap (λ t. t % b.max) (sym e)))
        ∙ s.cells i h1 (omega arith) (omega arith)
        ∙ sym (ho i (λ q. ne (q ∙ sym s.tail)))
  ];
  blank = λ i h. ho i (omega (arith, hc)) ∙ s.blank i (omega (arith, hc));
}

-- The cursor moves over `n` blank cells.
abbrev skip : ℕ → Page → Page
skip n p = record p { cursor = p.cursor + n }

put_spaces-Shows :
    (n lo : ℕ) (b : Buffer) (p : Page)
    → Shows lo b p
    → 0 < b.max
    → Shows lo (put_spaces n b) (skip n p)
unfolding put_spaces
put_spaces-Shows zero lo b p s hm = record {
  tail = omega (arith, s.tail);
  cells = s.cells;
  blank = λ i h. s.blank i (omega arith);
}
put_spaces-Shows (suc n) lo b p s hm =
    subst (λ t. Shows lo (put_spaces n (put b' ' b)) (record { cells = p.cells; cursor = t }))
      (omega arith)
      (put_spaces-Shows n lo (put b' ' b) (skip 1 p)
        (put-Shows b' ' lo b p (skip 1 p) s hm refl (s.blank p.cursor (omega arith)) (λ i h. refl))
        hm)

-- The end of a row.
row_end : (w t : ℕ) → 0 < w → t + (w - t % w) ≡ (t / w + 1) * w
row_end w t h = omega (arith, div-add-mod' t w, mod-lt t h, add-mul (t / w) 1 w)

print_char-Shows :
    (c lo : ℕ) (b : Buffer) (p : Page)
    → Shows lo b p
    → 0 < b.max
    → 0 < b.char_w
    → Shows lo (print_char c b) (write_char b.char_w c p)
unfolding print_char
print_char-Shows c lo b p s hm hw = elim (Bool-cases (c == 10)) [
  | inl e ↦ rw e (
      subst
        (λ t.
          Shows lo (put_spaces (b.char_w - b.tail % b.char_w) b)
            (record { cells = p.cells; cursor = t }))
        (ap (λ t. t + (b.char_w - b.tail % b.char_w)) (sym s.tail)
          ∙ row_end b.char_w b.tail hw
          ∙ ap (λ t. (t / b.char_w + 1) * b.char_w) s.tail)
        (put_spaces-Shows (b.char_w - b.tail % b.char_w) lo b p s hm))
  | inr e ↦ rw e (
      put-Shows c lo b p _ s hm refl (update_self p.cells p.cursor c)
        (λ i ne. update_ne p.cells p.cursor c i (λ q. ne (sym q))))
]

-- Printing leaves all but the characters and `tail`.
abbrev Alike : Buffer → Buffer → Type 0
Alike b b' = (b'.max ≡ b.max) × (b'.char_w ≡ b.char_w) × (b'.head ≡ b.head)

put_spaces-Alike : (n : ℕ) (b : Buffer) → Alike b (put_spaces n b)
unfolding put_spaces
put_spaces-Alike zero b = (refl, refl, refl)
put_spaces-Alike (suc n) b = put_spaces-Alike n (put b' ' b)

print_char-Alike : (c : ℕ) (b : Buffer) → Alike b (print_char c b)
unfolding print_char
print_char-Alike c b = elim (Bool-cases (c == 10)) [
  | inl e ↦ rw e (put_spaces-Alike (b.char_w - b.tail % b.char_w) b)
  | inr e ↦ rw e (refl, refl, refl)
]

pub print_chars-Alike : (cs : List ℕ) (b : Buffer) → Alike b (print_chars cs b)
unfolding print_chars
print_chars-Alike [] b = (refl, refl, refl)
print_chars-Alike (c ∷ cs) b =
    let x = print_char-Alike c b in
    let y = print_chars-Alike cs (print_char c b) in (y.0 ∙ x.0, y.1 ∙ x.1, y.2 ∙ x.2)

pub print_chars-Shows :
    (cs : List ℕ) (lo : ℕ) (b : Buffer) (p : Page)
    → Shows lo b p
    → 0 < b.max
    → 0 < b.char_w
    → Shows lo (print_chars cs b) (write b.char_w cs p)
unfolding print_chars write
print_chars-Shows [] lo b p s hm hw = s
print_chars-Shows (c ∷ cs) lo b p s hm hw =
    let a = print_char-Alike c b in
    subst (λ w. Shows lo (print_chars cs (print_char c b)) (write w cs (write_char b.char_w c p)))
      a.1
      (print_chars-Shows cs lo (print_char c b) (write_char b.char_w c p)
        (print_char-Shows c lo b p s hm hw) (omega (arith, a.0)) (omega (arith, a.1)))
