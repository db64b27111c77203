-- ===== src/Gui/Shapes.antt =====
-- src/include/gui/shapes.h: points are half open in a rectangle, `l ≤ x < r` and `t ≤ y < b`, as
-- the drawing loops read them. Only comparisons occur, so an `int` is an integer.
pub mod Cover
pub mod Union
use shipwreck.Base.{
  ℕ, ◌≡◌, ◌↔◌, ◌⊎◌, inl, inr, Bool, true, false, Option, none, some, arith, if◌then◌else◌,
}
use shipwreck.Base.Int.{ℤ, ◌≤ℤ◌, ◌<ℤ◌, ltb_ℤ, leb_ℤ, max_ℤ, min_ℤ}

pub record Point : Type 0 where
  pub x : ℤ
  pub y : ℤ

pub record Rect : Type 0 where
  pub l : ℤ
  pub t : ℤ
  pub r : ℤ
  pub b : ℤ

-- `x` and `y` go in and out by reference.
unfoldable pub clamp_in_to_rect : Point → Rect → Point
clamp_in_to_rect p rect = record {
  x = if ltb_ℤ p.x rect.l then rect.l else if leb_ℤ rect.r p.x then rect.r else p.x;
  y = if ltb_ℤ p.y rect.t then rect.t else if leb_ℤ rect.b p.y then rect.b else p.y;
}

-- `none` is a return of false, which leaves `*dst` as it was; `some` is the new `*dst`.
unfoldable pub rect_intersect : Rect → Rect → Option Rect
rect_intersect src dst =
    let l = max_ℤ src.l dst.l in
    let r = min_ℤ src.r dst.r in
    let t = max_ℤ src.t dst.t in
    let b = min_ℤ src.b dst.b in
    if ltb_ℤ r l
    then none
    else if ltb_ℤ b t
    then none
    else some (record { l = l; t = t; r = r; b = b })

-- The array `dst` of three rectangles, and the number that the function returns.
pub record Parts : Type 0 where
  pub count : ℕ
  pub first : Rect
  pub second : Rect
  pub third : Rect

-- The rectangles of the two that start higher and lower, then end higher and lower.
higher_top : Rect → Rect → Rect
higher_top a b = if ltb_ℤ a.t b.t then a else b

lower_top : Rect → Rect → Rect
lower_top a b = if ltb_ℤ a.t b.t then b else a

higher_bottom : Rect → Rect → Rect
higher_bottom a b = if ltb_ℤ a.b b.b then a else b

lower_bottom : Rect → Rect → Rect
lower_bottom a b = if ltb_ℤ a.b b.b then b else a

pub overlapping : Rect → Rect → Parts
unfolding higher_top lower_top higher_bottom lower_bottom
overlapping a b =
    let hi = higher_top a b in
    let lo = lower_top a b in
    let hi' = higher_bottom a b in
    let lo' = lower_bottom a b in
    record {
      count = 3;
      first = record { l = hi.l; t = hi.t; r = hi.r; b = lo.t };
      second = record {
        l = if ltb_ℤ a.l b.l then a.l else b.l;
        t = lo.t;
        r = if ltb_ℤ b.r a.r then a.r else b.r;
        b = hi'.b;
      };
      third = record { l = lo'.l; t = hi'.b; r = lo'.r; b = lo'.b };
    }

-- `rest` is what the third place of `dst` held before.
unfoldable pub rect_union : Rect → Rect → Rect → Parts
unfolding overlapping
rect_union a b rest = elim (rect_intersect a b) [
  | none ↦ record { count = 2; first = a; second = b; third = rest }
  | some _ ↦ overlapping a b
]
