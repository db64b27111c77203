-- ===== src/Gui/Shapes/Union.antt =====
-- `rect_union` of include/gui/shapes.h covers exactly the two rectangles, without overlap.
use shipwreck.Base.{◌≡◌, ◌↔◌, ◌⊎◌, inl, inr, none, some, arith, Option-cases, false, if◌then◌else◌}
use shipwreck.Base.Int.{ℤ, ◌≤ℤ◌, ◌<ℤ◌, ltb_ℤ, max_ℤ, min_ℤ}
use shipwreck.Gui.Shapes.{Point, Rect, rect_intersect, Parts, rect_union, overlapping}
use shipwreck.Gui.Shapes.Cover.{In, rect_intersect_lem}

-- The rectangles that the returned count speaks of.
abbrev pub InParts : Point → Parts → Type 0
InParts p parts = In p parts.first ⊎ In p parts.second ⊎ ((parts.count ≡ 3) × In p parts.third)

-- No point is in two of them.
abbrev pub Apart : Point → Parts → Type 0
Apart p parts =
    ¬ (In p parts.first × In p parts.second)
    × (parts.count ≡ 3 → ¬ (In p parts.third × (In p parts.first ⊎ In p parts.second)))

-- Rectangles that `rect_intersect` accepts may touch in a line of no points, and have no side
-- reversed.
record Touch (a b : Rect) : Type 0 where
  wide : (a.l ≤ℤ a.r) × (a.l ≤ℤ b.r) × (b.l ≤ℤ a.r) × (b.l ≤ℤ b.r)
  high : (a.t ≤ℤ a.b) × (a.t ≤ℤ b.b) × (b.t ≤ℤ a.b) × (b.t ≤ℤ b.b)

room :
    (a b c d : ℤ)
    → ltb_ℤ (min_ℤ b d) (max_ℤ a c) ≡ false
    → (a ≤ℤ b) × (a ≤ℤ d) × (c ≤ℤ b) × (c ≤ℤ d)
unfolding max_ℤ min_ℤ
room a b c d e = ground arith

touch : (a b : Rect) {res : Rect} → rect_intersect a b ≡ some res → Touch a b
unfolding rect_intersect
touch a b h = record {
  wide = room a.l a.r b.l b.r (ground arith);
  high = room a.t a.b b.t b.b (ground arith);
}

-- Two intervals that meet cover their span.
span :
    (x a b c d : ℤ)
    → (a ≤ℤ b) × (a ≤ℤ d) × (c ≤ℤ b) × (c ≤ℤ d)
    → (if ltb_ℤ a c then a else c) ≤ℤ x
    → x <ℤ (if ltb_ℤ d b then b else d)
    → ((a ≤ℤ x) × (x <ℤ b)) ⊎ ((c ≤ℤ x) × (x <ℤ d))
span x a b c d h = ground arith

module _ (y : ℤ) where
  below : (a : Rect) (b : Rect) → (if ltb_ℤ a.t b.t then b else a).t ≤ℤ y → (a.t ≤ℤ y) × (b.t ≤ℤ y)
  below a b = ground arith

  above : (a : Rect) (b : Rect) → y <ℤ (if ltb_ℤ a.b b.b then a else b).b → (y <ℤ a.b) × (y <ℤ b.b)
  above a b = ground arith

module _ (p : Point) (a b : Rect) (s : Touch a b) where
  overlapping_within : InParts p (overlapping a b) → In p a ⊎ In p b
  unfolding overlapping
  overlapping_within (inl h) = ground arith
  overlapping_within (inr (inl h)) = elim (span p.x a.l a.r b.l b.r s.wide h.0 h.1) [
    | inl e ↦ inl (e.0, e.1, (below p.y a b h.2).0, (above p.y a b h.3).0)
    | inr e ↦ inr (e.0, e.1, (below p.y a b h.2).1, (above p.y a b h.3).1)
  ]
  overlapping_within (inr (inr h)) = ground arith

  overlapping_covers : In p a ⊎ In p b → InParts p (overlapping a b)
  unfolding overlapping
  overlapping_covers h = ground arith

  overlapping-Apart : Apart p (overlapping a b)
  unfolding overlapping
  overlapping-Apart = ground arith

-- For any two rectangles and any old contents of `dst`, the rectangles counted cover exactly the
-- points of the two, and no point is in two of the rectangles counted.
pub rect_union_exact :
    (p : Point) (a b rest : Rect)
    → (InParts p (rect_union a b rest) ↔ (In p a ⊎ In p b)) × Apart p (rect_union a b rest)
unfolding rect_union
rect_union_exact p a b rest = elim (Option-cases (rect_intersect a b)) [
  | inl e ↦ rw (e, rect_union) (ground (arith, apart e))
  | inr (res, e) ↦
      rw (e, rect_union)
        (
          (overlapping_within p a b (touch a b e), overlapping_covers p a b (touch a b e)),
          overlapping-Apart p a b (touch a b e),
        )
]
  where
    apart : rect_intersect a b ≡ none → In p a → In p b → ⊥
    apart e = rw e at (rect_intersect_lem p a b)
