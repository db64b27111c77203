-- ===== src/Gui/Redraw/Pick.antt =====
-- src/system/gui.cpp, `update_pick_buf`: which window each pixel of the screen belongs to.
use Prim.Native.Nat.{bit_and, bit_or}
use shipwreck.Base.{
  ℕ, zero, suc, ◌+◌, ◌-◌, ◌*◌, ◌<◌, ◌≤◌, ◌≡◌, ◌∙◌, refl, ap, Bool, true, false, ◌==◌, ◌&&◌, ltb,
  leb, Option, none, some, List, [], ◌∷◌, if◌then◌else◌, arith, inl, inr, ◌⊎◌, all_below,
  all_below_lem, ==_iff,
}
use shipwreck.Base.Int.{
  ℤ, pos, negsuc, pos_part, ◌+ℤ◌, ◌-ℤ◌, ◌*ℤ◌, ◌≤ℤ◌, ◌<ℤ◌, eqb_ℤ, eq_of_parts, +ℤ_parts, int_laws,
}
use shipwreck.Gui.Shapes.{Point, Rect}
use shipwreck.Gui.Redraw.{Win, Draw, gui_redraw_rect}
use shipwreck.Gui.Redraw.Partition.{within, between}
use shipwreck.Gui.Redraw.Paint.{pixel}
use shipwreck.Vga.Fill.{in_row}
use shipwreck.Vga.Fill

-- The pick buffer, by the offset of a pixel.
abbrev pub Picks : Type 0
Picks = ℤ → ℕ

-- The number of a window, from its process and its number there.
unfoldable pub pick_gid : ℕ → ℕ → ℕ
pick_gid pid id = bit_or (bit_and pid 15 * 16) (bit_and id 15)

abbrev pub pick_at : ℤ → ℕ → Picks → Picks
pick_at i gid picks j = if eqb_ℤ i j then gid else picks j

-- The inner loop, over `left` pixels of a row from column `x` on.
unfoldable pub pick_row : ℕ → ℕ → ℤ → ℤ → ℕ → Picks → Picks
pick_row width zero x y gid picks = picks
pick_row width (suc left) x y gid picks =
    pick_row width left (x +ℤ pos 1) y gid (pick_at (y *ℤ pos width +ℤ x) gid picks)

unfoldable pub pick_rows : ℕ → ℕ → ℤ → Rect → ℕ → Picks → Picks
unfolding pick_row
pick_rows width zero y clip gid picks = picks
pick_rows width (suc left) y clip gid picks =
    pick_rows width left (y +ℤ pos 1) clip gid
      (pick_row width (pos_part (clip.r -ℤ clip.l)) clip.l y gid picks)

unfoldable pub update_pick_buf : ℕ → Rect → ℕ → Picks → Picks
unfolding pick_rows
update_pick_buf width clip gid picks =
    pick_rows width (pos_part (clip.b -ℤ clip.t)) clip.t clip gid picks

-- The children of each frame, the topmost first; `none` for a window that is no frame.
abbrev pub Frames : Type 0
Frames = ℕ → Option (List Win)

-- Draws one after the other.
unfoldable pub each_draw : (Draw → Picks → Picks) → List Draw → Picks → Picks
each_draw f [] picks = picks
each_draw f (d ∷ ds) picks = each_draw f ds (f d picks)

-- What the `draw` of a window stores, with the number `gids` has for it. A frame's own pixels are not
-- stored: it redraws its children in the area, and so down to `levels` frames within each other. What a
-- transparent window or a text box draws first, from behind it, is left out: it stays within the area,
-- where the window's own number is then stored over it.
unfoldable pub pick_draw : ℕ → ℕ → (ℕ → ℕ) → Frames → Draw → Picks → Picks
unfolding update_pick_buf each_draw
pick_draw zero width gids frames d picks = elim (frames d.win.id) [
  | none ↦ update_pick_buf width d.area (gids d.win.id) picks
  | some cs ↦ picks
]
pick_draw (suc levels) width gids frames d picks = elim (frames d.win.id) [
  | none ↦ update_pick_buf width d.area (gids d.win.id) picks
  | some cs ↦ each_draw (pick_draw levels width gids frames) (gui_redraw_rect d.area cs) picks
]

-- What the draws of a redraw store.
unfoldable pub pick_draws : ℕ → ℕ → (ℕ → ℕ) → Frames → List Draw → Picks → Picks
unfolding pick_draw
pick_draws levels width gids frames ds picks =
    each_draw (pick_draw levels width gids frames) ds picks

pub pos_add : (a b : ℕ) → pos a +ℤ pos b ≡ pos (a + b)
pos_add a b = eq_of_parts (pos a +ℤ pos b) (pos (a + b)) (omega (arith, +ℤ_parts (pos a) (pos b)))

pub pos_mul : (a b : ℕ) → pos a *ℤ pos b ≡ pos (a * b)
unfolding ◌*ℤ◌
pos_mul a b = ground arith

pick_row_lem :
    (width left x y gid : ℕ) (picks : Picks) (q : ℕ)
    → pick_row width left (pos x) (pos y) gid picks (pos q)
      ≡ (if Fill.within (y * width + x) left q then gid else picks (pos q))
unfolding pick_row
pick_row_lem width zero x y gid picks q = ground arith
pick_row_lem width (suc left) x y gid picks q =
    rw (pos_add x 1, ap (λ t. t +ℤ pos x) (pos_mul y width) ∙ pos_add (y * width) x)
      (pick_row_lem width left (x + 1) y gid (pick_at (pos (y * width + x)) gid picks) q
        ∙ ground arith)

width_of : (r l : ℕ) → pos_part (pos r -ℤ pos l) ≡ r - l
unfolding ◌-ℤ◌
width_of r l = ground arith

pick_rows_lem :
    (width left y l r : ℕ) (t b : ℤ) (gid : ℕ) (picks : Picks) (px py : ℕ)
    → px < width
    → r ≤ width
    → pick_rows width left
        (pos y)
        (record { l = pos l; t = t; r = pos r; b = b })
        gid
        picks
        (pos (py * width + px))
      ≡ (if Fill.within y left py && (leb l px && ltb px r)
          then gid
          else picks (pos (py * width + px)))
unfolding pick_rows
pick_rows_lem width zero y l r t b gid picks px py h k = ground arith
pick_rows_lem width (suc left) y l r t b gid picks px py h k =
    let row = pick_row width (pos_part (pos r -ℤ pos l)) (pos l) (pos y) gid picks in
    rw (pos_add y 1)
      (pick_rows_lem width left (y + 1) l r t b gid row px py h k ∙ ground (arith, one))
  where
    one :
        pick_row width (pos_part (pos r -ℤ pos l)) (pos l) (pos y) gid picks (pos (py * width + px))
        ≡ (if py == y && (leb l px && ltb px r) then gid else picks (pos (py * width + px)))
    one =
        ap (λ n. pick_row width n (pos l) (pos y) gid picks (pos (py * width + px))) (width_of r l)
        ∙ pick_row_lem width (r - l) l y gid picks (py * width + px)
        ∙ ap (λ b. if b then gid else picks (pos (py * width + px))) (in_row width px py y l r h k)

-- An area without points is not stored.
no_columns :
    (width left : ℕ) (y : ℤ) (area : Rect) (gid : ℕ) (picks : Picks)
    → pos_part (area.r -ℤ area.l) ≡ 0
    → pick_rows width left y area gid picks ≡ picks
unfolding pick_rows pick_row
no_columns width zero y area gid picks e = refl
no_columns width (suc left) y area gid picks e =
    rw e (no_columns width left (y +ℤ pos 1) area gid picks e)

none_left : (a b : ℤ) → a ≤ℤ b → pos_part (a -ℤ b) ≡ 0
unfolding ◌-ℤ◌
none_left a b h = ground arith

no_pixels :
    (width : ℕ) (area : Rect) (gid : ℕ) (picks : Picks)
    → (area.r ≤ℤ area.l) ⊎ (area.b ≤ℤ area.t)
    → update_pick_buf width area gid picks ≡ picks
unfolding update_pick_buf
no_pixels width area gid picks (inl h) =
    no_columns width (pos_part (area.b -ℤ area.t)) area.t area gid picks (none_left area.r area.l h)
no_pixels width area gid picks (inr h) = rw (none_left area.b area.t h) refl

pub within_bounds :
    (p : Point) (area : Rect)
    → within p area ≡ true
    → (area.l ≤ℤ p.x) × (p.x <ℤ area.r) × (area.t ≤ℤ p.y)
unfolding within between
within_bounds p area e = ground (arith, e)

outside_empty :
    (p : Point) (area : Rect) → (area.r ≤ℤ area.l) ⊎ (area.b ≤ℤ area.t) → within p area ≡ false
unfolding within between
outside_empty p area (inl h) = ground (arith, h)
outside_empty p area (inr h) = ground (arith, h)

rows_within :
    (l t r px py : ℕ) (b : ℤ)
    → (Fill.within t (pos_part (b -ℤ pos t)) py && (leb l px && ltb px r))
      ≡ within (pixel px py) (record { l = pos l; t = pos t; r = pos r; b = b })
unfolding within between ◌-ℤ◌
rows_within l t r px py b = ground arith

on_screen_lem :
    (width : ℕ) (l t r b : ℤ) (gid : ℕ) (picks : Picks) (px py : ℕ)
    → px < width
    → pos 0 ≤ℤ l
    → pos 0 ≤ℤ t
    → pos 0 ≤ℤ r
    → r ≤ℤ pos width
    → let area : Rect = record { l = l; t = t; r = r; b = b } in
      update_pick_buf width area gid picks (pos (py * width + px))
      ≡ (if within (pixel px py) area then gid else picks (pos (py * width + px)))
unfolding update_pick_buf
on_screen_lem width (negsuc n) t r b gid picks px py h hl ht hr hw = absurd (omega arith)
on_screen_lem width (pos l) (negsuc n) r b gid picks px py h hl ht hr hw = absurd (omega arith)
on_screen_lem width (pos l) (pos t) (negsuc n) b gid picks px py h hl ht hr hw =
    absurd (omega arith)
on_screen_lem width (pos l) (pos t) (pos r) b gid picks px py h hl ht hr hw =
    pick_rows_lem width (pos_part (b -ℤ pos t)) t l r (pos t) b gid picks px py h (omega arith)
    ∙ ap (λ c. if c then gid else picks (pos (py * width + px))) (rows_within l t r px py b)

-- All points of an area are on the screen.
abbrev pub OnScreen : ℕ → Rect → Type 0
OnScreen width area =
    (p : Point) → within p area ≡ true → (pos 0 ≤ℤ p.x) × (pos 0 ≤ℤ p.y) × (p.x <ℤ pos width)

corner :
    (area : Rect) (x : ℤ)
    → area.l ≤ℤ x
    → x <ℤ area.r
    → area.t <ℤ area.b
    → within (record { x = x; y = area.t }) area ≡ true
unfolding within between
corner area x h k e = ground (arith, h, k, e)

pub area_lem :
    (width : ℕ) (area : Rect) (gid : ℕ) (picks : Picks) (px py : ℕ)
    → px < width
    → OnScreen width area
    → update_pick_buf width area gid picks (pos (py * width + px))
      ≡ (if within (pixel px py) area then gid else picks (pos (py * width + px)))
area_lem width area gid picks px py h on = elim (empty_or area) [
  | inl e ↦ rw (no_pixels width area gid picks e, outside_empty (pixel px py) area e) refl
  | inr f ↦
      let first = on _ (corner area area.l (omega arith) f.0 f.1) in
      let last =
        on _ (corner area (area.r -ℤ pos 1) (omega (int_laws, f.0)) (omega int_laws) f.1) in
      on_screen_lem width area.l area.t area.r area.b gid picks px py h first.0 first.1
        (omega (arith, first.0, f.0)) (omega (int_laws, last.2))
]
  where
    empty_or :
        (area : Rect)
        → ((area.r ≤ℤ area.l) ⊎ (area.b ≤ℤ area.t)) ⊎ ((area.l <ℤ area.r) × (area.t <ℤ area.b))
    empty_or area = ground arith

-- Whether the number of window `id` of process `pid` is its index in `win_index`.
abbrev numbered : ℕ → ℕ → Bool
numbered pid id = pick_gid pid id == pid * 16 + id

numbered_all : all_below (λ pid. all_below (numbered pid) 16) 16 ≡ true
unfolding pick_gid
numbered_all = refl

-- The number that is stored for a window is its index in the table of all windows.
pub pick_gid_lem : (pid id : ℕ) → pid < 16 → id < 16 → pick_gid pid id ≡ pid * 16 + id
pick_gid_lem pid id h k = (==_iff (pick_gid pid id) (pid * 16 + id)).0 (
    all_below_lem (numbered pid) 16
      (all_below_lem (λ pid. all_below (numbered pid) 16) 16 numbered_all pid h) id k)
