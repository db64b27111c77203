-- ===== src/Gui/Shapes/Cover.antt =====
-- What the rectangle functions of include/gui/shapes.h do to the set of points covered.
use shipwreck.Base.{◌≡◌, ◌↔◌, inl, inr, Option, none, some, arith, Bool-cases, true}
use shipwreck.Base.Int.{ℤ, ◌≤ℤ◌, ◌<ℤ◌, ltb_ℤ, max_ℤ, min_ℤ}
use shipwreck.Gui.Shapes.{Point, Rect, rect_intersect}

abbrev pub In : Point → Rect → Type 0
In p rect = (rect.l ≤ℤ p.x) × (p.x <ℤ rect.r) × (rect.t ≤ℤ p.y) × (p.y <ℤ rect.b)

-- A point in the result is in both.
abbrev pub Meets : Point → Rect → Rect → Option Rect → Type 0
Meets p src dst none = In p src → In p dst → ⊥
Meets p src dst (some res) = In p res ↔ (In p src × In p dst)

module _ (x a b c d : ℤ) where
  between_both : ((max_ℤ a c ≤ℤ x) × (x <ℤ min_ℤ b d)) ↔ ((a ≤ℤ x) × (x <ℤ b) × (c ≤ℤ x) × (x <ℤ d))
  unfolding max_ℤ min_ℤ
  between_both = ground arith

  no_room : ltb_ℤ (min_ℤ b d) (max_ℤ a c) ≡ true → a ≤ℤ x → x <ℤ b → c ≤ℤ x → x <ℤ d → ⊥
  unfolding max_ℤ min_ℤ
  no_room e = ground arith

-- Where the rectangles meet, the points of the result are those in both; else no point is in both.
pub rect_intersect_lem : (p : Point) (src dst : Rect) → Meets p src dst (rect_intersect src dst)
unfolding rect_intersect
rect_intersect_lem p src dst = elim (Bool-cases (ltb_ℤ (min_ℤ src.r dst.r) (max_ℤ src.l dst.l))) [
  | inl e ↦ rw e (λ h k. no_room p.x src.l src.r dst.l dst.r e h.0 h.1 k.0 k.1)
  | inr e ↦ rw e (elim (Bool-cases (ltb_ℤ (min_ℤ src.b dst.b) (max_ℤ src.t dst.t))) [
    | inl f ↦ rw f (λ h k. no_room p.y src.t src.b dst.t dst.b f h.2 h.3 k.2 k.3)
    | inr f ↦ rw f (
        ground (
          arith,
          between_both p.x src.l src.r dst.l dst.r,
          between_both p.y src.t src.b dst.t dst.b,
        ))
  ])
]
