-- ===== src/Gui/Redraw/Partition.antt =====
-- The pieces that `gui_redraw_rect` of system/gui.cpp cuts a clip rectangle into: each point of
-- the clip lies in one of them, and no other point lies in any.
use shipwreck.Base.{
  ◌≡◌, ◌↔◌, refl, inl, inr, Bool, true, false, ◌&&◌, some, none, arith, Bool-cases,
}
use shipwreck.Base.Int.{ℤ, ◌≤ℤ◌, ltb_ℤ, leb_ℤ, max_ℤ, min_ℤ}
use shipwreck.Gui.Shapes.{Point, Rect, rect_intersect}
use shipwreck.Gui.Shapes.Cover.{In, rect_intersect_lem}
use shipwreck.Gui.Redraw.{strip_above, strip_left, strip_right, strip_below}

unfoldable pub between : ℤ → ℤ → ℤ → Bool
between lo x hi = leb_ℤ lo x && ltb_ℤ x hi

unfoldable pub within : Point → Rect → Bool
within p rect = between rect.l p.x rect.r && between rect.t p.y rect.b

-- Where a coordinate stands in an interval that is cut twice.
pub data Place : Type 0 where
  out low mid high : Place

abbrev pub is_in : Place → Bool
is_in out = false
is_in _ = true

abbrev pub is_low : Place → Bool
is_low low = true
is_low _ = false

abbrev pub is_mid : Place → Bool
is_mid mid = true
is_mid _ = false

abbrev pub is_high : Place → Bool
is_high high = true
is_high _ = false

pub record Placed (lo a b hi x : ℤ) (w : Place) : Type 0 where
  pub whole : between lo x hi ≡ is_in w
  pub at_low : between lo x a ≡ is_low w
  pub at_mid : between a x b ≡ is_mid w
  pub at_high : between b x hi ≡ is_high w

pub place : (lo a b hi x : ℤ) → lo ≤ℤ a → a ≤ℤ b → b ≤ℤ hi → (w : Place) × Placed lo a b hi x w
unfolding between
place lo a b hi x p q r = elim (Bool-cases (leb_ℤ lo x && ltb_ℤ x hi)) [
  | inr e ↦ (out, ground arith)
  | inl e ↦ elim (Bool-cases (ltb_ℤ x a)) [
    | inl f ↦ (low, ground arith)
    | inr f ↦ elim (Bool-cases (ltb_ℤ x b)) [
      | inl g ↦ (mid, ground arith)
      | inr g ↦ (high, ground arith)
    ]
  ]
]

-- Which pieces hold the point: above, left, the middle, right, below.
pub record Pieces : Type 0 where
  pub whole : Bool
  pub above : Bool
  pub left : Bool
  pub middle : Bool
  pub right : Bool
  pub below : Bool

abbrev pub pieces : Point → Rect → Rect → Pieces
pieces p clip sub = record {
  whole = within p clip;
  above = within p (strip_above clip sub);
  left = within p (strip_left clip sub);
  middle = within p sub;
  right = within p (strip_right clip sub);
  below = within p (strip_below clip sub);
}

abbrev pub pieces_of : Place → Place → Pieces
pieces_of h v = record {
  whole = is_in h && is_in v;
  above = is_in h && is_low v;
  left = is_low h && is_mid v;
  middle = is_mid h && is_mid v;
  right = is_high h && is_mid v;
  below = is_in h && is_high v;
}

pub record Inside (sub clip : Rect) : Type 0 where
  pub left : clip.l ≤ℤ sub.l
  pub top : clip.t ≤ℤ sub.t
  pub right : sub.r ≤ℤ clip.r
  pub bottom : sub.b ≤ℤ clip.b
  pub wide : sub.l ≤ℤ sub.r
  pub high : sub.t ≤ℤ sub.b

pub rect_intersect-Inside :
    (src dst : Rect) {res : Rect} → rect_intersect src dst ≡ some res → Inside res dst
unfolding rect_intersect max_ℤ min_ℤ
rect_intersect-Inside src dst h = ground arith

-- Each point has a place across and a place down, which tell the pieces that hold it.
pub pieces_placed :
    (p : Point) (clip sub : Rect)
    → Inside sub clip
    → (h : Place) × (v : Place) × (pieces p clip sub ≡ pieces_of h v)
unfolding within strip_above strip_left strip_right strip_below
pieces_placed p clip sub i =
    let (h, hp) = place clip.l sub.l sub.r clip.r p.x i.left i.wide i.right in
    let (v, vp) = place clip.t sub.t sub.b clip.b p.y i.top i.high i.bottom in
    (
      h,
      v,
      rw (hp.whole, hp.at_low, hp.at_mid, hp.at_high, vp.whole, vp.at_low, vp.at_mid, vp.at_high),
    )

module _ (p : Point) (clip sub : Rect) where
  pub skip_above : ltb_ℤ clip.t sub.t ≡ false → within p (strip_above clip sub) ≡ false
  unfolding strip_above within between
  skip_above e = ground arith

  pub skip_left : ltb_ℤ clip.l sub.l ≡ false → within p (strip_left clip sub) ≡ false
  unfolding strip_left within between
  skip_left e = ground arith

  pub skip_right : ltb_ℤ sub.r clip.r ≡ false → within p (strip_right clip sub) ≡ false
  unfolding strip_right within between
  skip_right e = ground arith

  pub skip_below : ltb_ℤ sub.b clip.b ≡ false → within p (strip_below clip sub) ≡ false
  unfolding strip_below within between
  skip_below e = ground arith

pub within→In : (p : Point) (rect : Rect) → within p rect ≡ true → In p rect
unfolding within between
within→In p rect e = ground arith

pub In→within : (p : Point) (rect : Rect) → In p rect → within p rect ≡ true
unfolding within between
In→within p rect h = ground arith

-- The two rectangle tests agree with the test on the part that they share.
both :
    (a b c : Bool)
    → (c ≡ true → (a ≡ true) × (b ≡ true))
    → (a ≡ true → b ≡ true → c ≡ true)
    → c ≡ (a && b)
both true true c f g = g refl refl
both true false true f g = cc (f refl).1
both true false false f g = refl
both false b true f g = cc (f refl).0
both false b false f g = refl

pub within-intersect :
    (p : Point) (src dst : Rect) {sub : Rect}
    → rect_intersect src dst ≡ some sub
    → within p sub ≡ (within p src && within p dst)
within-intersect p src dst {sub} e =
    both _ _ _
      (λ c. let m = meets.0 (within→In p sub c) in (In→within p src m.0, In→within p dst m.1))
      (λ a b. In→within p sub (meets.1 (within→In p src a, within→In p dst b)))
  where
    meets : In p sub ↔ (In p src × In p dst)
    meets = rw e at (rect_intersect_lem p src dst)

pub within-apart :
    (p : Point) (src dst : Rect)
    → rect_intersect src dst ≡ none
    → false ≡ (within p src && within p dst)
within-apart p src dst e =
    both _ _ _ (λ c. cc) (λ a b. absurd (apart (within→In p src a) (within→In p dst b)))
  where
    apart : In p src → In p dst → ⊥
    apart = rw e at (rect_intersect_lem p src dst)
