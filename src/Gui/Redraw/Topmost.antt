-- ===== src/Gui/Redraw/Topmost.antt =====
-- What `gui_redraw_rect` of system/gui.cpp puts on each pixel.
use mathlib.Core.List.{append-nil}
use shipwreck.Base.{
  ℕ, zero, suc, ◌≤◌, ◌≡◌, refl, inl, inr, Bool, true, false, some, arith, List, [], ◌∷◌, ◌++◌,
  Option-cases, if◌then◌else◌, length, ◌∙◌, ap,
}
use shipwreck.Gui.Shapes.{Point, Rect, rect_intersect}
use shipwreck.Gui.Redraw.{
  Win, Draw, max_window_levels, strip_above, strip_left, strip_right, strip_below, redraw_from,
  gui_redraw_rect,
}
use shipwreck.Gui.Redraw.Partition.{
  within, rect_intersect-Inside, Pieces, pieces, pieces_of, pieces_placed, Place, out, low, mid,
  high, skip_above, skip_left, skip_right, skip_below, within-intersect, within-apart,
}

-- The windows drawn at the point, in order.
unfoldable pub hits : Point → List Draw → List Win
hits p [] = []
hits p (d ∷ ds) = if within p d.area then d.win ∷ hits p ds else hits p ds

-- The first window that has the point, if any.
unfoldable pub topmost : Point → List Win → List Win
topmost p [] = []
topmost p (w ∷ ws) = if within p w.rect then w ∷ [] else topmost p ws

hits-append : (p : Point) (ds es : List Draw) → hits p (ds ++ es) ≡ hits p ds ++ hits p es
unfolding hits
hits-append p [] es = refl
hits-append p (d ∷ ds) es = ground (arith, hits-append p ds es)

abbrev only_if : Bool → List Win → List Win
only_if b ws = if b then ws else []

-- A strip that is not drawn has no points.
hits_strip :
    (p : Point) (area : Rect) (drawn : Bool) (ds : List Draw) (ws : List Win)
    → (drawn ≡ false → within p area ≡ false)
    → hits p ds ≡ only_if (within p area) ws
    → hits p (elim drawn [ true ↦ ds | false ↦ [] ]) ≡ only_if (within p area) ws
unfolding hits
hits_strip p area true ds ws skip h = h
hits_strip p area false ds ws skip h = rw (skip refl)

-- What the five pieces show, once each is known.
abbrev shown : Pieces → List Win → Win → List Win
shown s ts w =
    only_if s.above ts
    ++ (only_if s.left ts
        ++ (if s.middle
            then w ∷ (only_if s.right ts ++ only_if s.below ts)
            else (only_if s.right ts ++ only_if s.below ts)))

-- The pieces show the topmost window that has the point, once.
shown_of :
    (h v : Place) (ts : List Win) (w : Win)
    → shown (pieces_of h v) ts w
      ≡ only_if (pieces_of h v).whole (if (pieces_of h v).middle then w ∷ [] else ts)
shown_of out out ts w = refl
shown_of out low ts w = refl
shown_of out mid ts w = refl
shown_of out high ts w = refl
shown_of low out ts w = refl
shown_of low low ts w = append-nil ts
shown_of low mid ts w = append-nil ts
shown_of low high ts w = refl
shown_of mid out ts w = refl
shown_of mid low ts w = append-nil ts
shown_of mid mid ts w = refl
shown_of mid high ts w = refl
shown_of high out ts w = refl
shown_of high low ts w = append-nil ts
shown_of high mid ts w = append-nil ts
shown_of high high ts w = refl

shown-eq :
    (p : Point) (clip sub : Rect) (w : Win) (ws : List Win)
    → rect_intersect w.rect clip ≡ some sub
    → shown (pieces p clip sub) (topmost p ws) w ≡ only_if (within p clip) (topmost p (w ∷ ws))
unfolding topmost
shown-eq p clip sub w ws e =
    let (h, v, eq) = pieces_placed p clip sub (rect_intersect-Inside w.rect clip e) in
    ap (λ s. shown s (topmost p ws) w) eq
    ∙ shown_of h v (topmost p ws) w
    ∙ ground (arith, ap (λ s. s.whole) eq, ap (λ s. s.middle) eq, within-intersect p w.rect clip e)

module _ (p : Point) (clip sub : Rect) (w : Win) (ts : List Win) where
  joined :
      (above left right below : List Draw)
      → hits p above ≡ only_if (within p (strip_above clip sub)) ts
      → hits p left ≡ only_if (within p (strip_left clip sub)) ts
      → hits p right ≡ only_if (within p (strip_right clip sub)) ts
      → hits p below ≡ only_if (within p (strip_below clip sub)) ts
      → hits p (above ++ (left ++ (record { win = w; area = sub } ∷ (right ++ below))))
        ≡ shown (pieces p clip sub) ts w
  unfolding hits
  joined above left right below a l r b =
      rw (hits-append p above, hits-append p left, a, l, hits-append p right, r, b)

-- With rounds for every window, each point of the clip is drawn once, by the topmost window that
-- has it, and no other point is drawn.
redraw_from_lem :
    (p : Point) (left : ℕ) (ws : List Win) (clip : Rect)
    → length ws ≤ left
    → length ws ≤ max_window_levels
    → hits p (redraw_from left ws clip) ≡ only_if (within p clip) (topmost p ws)
unfolding redraw_from topmost hits
redraw_from_lem p left [] clip h m = ground arith
redraw_from_lem p zero (w ∷ ws) clip h m = absurd (omega arith)
redraw_from_lem p (suc left) (w ∷ ws) clip h m = elim (Option-cases (rect_intersect w.rect clip)) [
  | inl e ↦
      rw (e, redraw_from)
        (ground (
          arith,
          redraw_from_lem p left ws clip (omega arith) (omega arith),
          within-apart p w.rect clip e,
        ))
  | inr (sub, e) ↦
      let ts = topmost p ws in
      let strip =
        λ (area : Rect). redraw_from_lem p max_window_levels ws area (omega arith) (omega arith) in
      rw (e, redraw_from)
        (joined p clip sub w ts _ _ _ _
            (hits_strip p _ _ _ ts (skip_above p clip sub) (strip (strip_above clip sub)))
            (hits_strip p _ _ _ ts (skip_left p clip sub) (strip (strip_left clip sub)))
            (hits_strip p _ _ _ ts (skip_right p clip sub) (strip (strip_right clip sub)))
            (hits_strip p _ _ _ ts (skip_below p clip sub) (strip (strip_below clip sub)))
          ∙ shown-eq p clip sub w ws e)
]

-- For at most 256 windows, a redraw draws each point of the clip exactly once, by the topmost
-- window that has the point (not at all where no window has it), and draws no other point.
pub gui_redraw_rect_lem :
    (p : Point) (clip : Rect) (ws : List Win)
    → length ws ≤ max_window_levels
    → hits p (gui_redraw_rect clip ws) ≡ (if within p clip then topmost p ws else [])
unfolding gui_redraw_rect
gui_redraw_rect_lem p clip ws h = redraw_from_lem p max_window_levels ws clip h h
