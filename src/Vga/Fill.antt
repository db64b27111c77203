-- ===== src/Vga/Fill.antt =====
-- `rect_fill` (devices/vga.cpp) paints the points of a rectangle that are on the screen.
use shipwreck.Base.{
  ℕ, zero, suc, ◌+◌, ◌-◌, ◌*◌, ◌<◌, ◌≤◌, ◌≡◌, ◌∙◌, ap, Bool, ◌&&◌, ◌==◌, ltb, leb, if◌then◌else◌,
  update, arith, dec_lt,
}
use native.Mathlib.Nat.{mul-le-mul_right}
use shipwreck.Base.Int.{ℤ, pos, pos_part, ltb_ℤ, leb_ℤ}
use shipwreck.Gui.Shapes.{Rect, clamp_in_to_rect}
use shipwreck.Vga.{
  Frame, Screen, clip_to_screen, pixel_offset, painted, paint_from, fill_rows, rect_fill,
}

abbrev pub within : ℕ → ℕ → ℕ → Bool
within from left o = leb from o && ltb o (from + left)

paint_from_lem :
    (left o col : ℕ) (f : Frame) (q : ℕ)
    → paint_from left o col f q ≡ (if within o left q then painted col (f q) else f q)
unfolding paint_from
paint_from_lem zero o col f q = ground arith
paint_from_lem (suc left) o col f q =
    paint_from_lem left (o + 1) col (update f o (painted col (f o))) q ∙ ground arith

-- A row that comes earlier ends before a later one begins.
pub row_step : (w y z : ℕ) → y < z → y * w + w ≤ z * w
row_step w y z h = grind (arith, mul-le-mul_right {m = suc y} {n = z} w h)

-- Whether offset (x, y) is in the part of row `z` from column `l` up to `r`.
pub in_row :
    (w x y z l r : ℕ)
    → x < w
    → r ≤ w
    → within (z * w + l) (r - l) (y * w + x) ≡ (y == z && (leb l x && ltb x r))
in_row w x y z l r h k = elim (dec_lt y z) [
  | yes lt ↦ ground (arith, row_step w y z lt)
  | no ge ↦ elim (dec_lt z y) [
    | yes gt ↦ ground (arith, row_step w z y gt)
    | no le ↦ let e : y ≡ z = omega arith in ground (arith, e, ap (λ t. t * w) e)
  ]
]

fill_rows_lem :
    (s : Screen) (left y l r col : ℕ) (f : Frame) (px py : ℕ)
    → px < s.width
    → r ≤ s.width
    → fill_rows s left y l r col f (pixel_offset s px py) ≡ (
        if within y left py && (leb l px && ltb px r)
        then painted col (f (pixel_offset s px py))
        else f (pixel_offset s px py))
unfolding fill_rows
fill_rows_lem s zero y l r col f px py h k = ground arith
fill_rows_lem s (suc left) y l r col f px py h k =
    let o : ℕ = pixel_offset s px py in
    let f' : Frame = paint_from (r - l) (pixel_offset s l y) col f in
    let row : f' o ≡ (if py == y && (leb l px && ltb px r) then painted col (f o) else f o) =
      paint_from_lem (r - l) (pixel_offset s l y) col f o
      ∙ ap (λ b. if b then painted col (f o) else f o) (in_row s.width px py y l r h k) in
    fill_rows_lem s left (y + 1) l r col f' px py h k ∙ ground (arith, row)

-- The tests of the loops on clamped bounds, and those of the rectangle itself.
abbrev pub inside : ℕ → ℕ → Rect → Bool
inside px py r =
    leb_ℤ r.l (pos px) && ltb_ℤ (pos px) r.r && (leb_ℤ r.t (pos py) && ltb_ℤ (pos py) r.b)

-- A coordinate clamped to 0 … w.
abbrev clamped : ℕ → ℤ → ℤ
clamped w v = if ltb_ℤ v (pos 0) then pos 0 else if leb_ℤ (pos w) v then pos w else v

clamped-bound : (w : ℕ) (v : ℤ) → pos_part (clamped w v) ≤ w
clamped-bound w v = ground arith

clamped-low : (w n : ℕ) (v : ℤ) → n < w → leb (pos_part (clamped w v)) n ≡ leb_ℤ v (pos n)
clamped-low w n v h = ground arith

clamped-high : (w n : ℕ) (v : ℤ) → n < w → ltb n (pos_part (clamped w v)) ≡ ltb_ℤ (pos n) v
clamped-high w n v h = ground arith

-- A pixel of the screen is painted once if its point is in the rectangle, and else keeps its
-- colour; the rectangle may reach past the screen or be empty.
pub rect_fill_lem :
    (s : Screen) (rect : Rect) (col : ℕ) (f : Frame) (px py : ℕ)
    → px < s.width
    → py < s.height
    → rect_fill s rect col f (pixel_offset s px py) ≡ (
        if inside px py rect
        then painted col (f (pixel_offset s px py))
        else f (pixel_offset s px py))
unfolding rect_fill clip_to_screen clamp_in_to_rect
rect_fill_lem s rect col f px py h k =
    let o : ℕ = pixel_offset s px py in
    let l : ℕ = pos_part (clamped s.width rect.l) in
    let r : ℕ = pos_part (clamped s.width rect.r) in
    let t : ℕ = pos_part (clamped s.height rect.t) in
    let b : ℕ = pos_part (clamped s.height rect.b) in
    let rows : within t (b - t) py ≡ (leb t py && ltb py b) = ground arith in
    let same : (within t (b - t) py && (leb l px && ltb px r)) ≡ inside px py rect = ground (
      arith,
      rows,
      clamped-low s.width px rect.l h,
      clamped-high s.width px rect.r h,
      clamped-low s.height py rect.t k,
      clamped-high s.height py rect.b k,
    ) in
    fill_rows_lem s (b - t) t l r col f px py h (clamped-bound s.width rect.r)
    ∙ ap (λ c. if c then painted col (f o) else f o) same
