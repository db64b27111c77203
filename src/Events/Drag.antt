-- ===== src/Events/Drag.antt =====
-- A window that is dragged (system/events.cpp): what is drawn again.
use shipwreck.Base.{
  ℕ, ◌≡◌, ◌≢◌, ◌<◌, ◌↔◌, ◌∙◌, ◌⊎◌, inl, inr, refl, subst, true, false, ◌&&◌, none, some, List, [],
  ◌∷◌, ◌++◌, ◌==◌, if◌then◌else◌, arith, Bool-cases, Distinct,
}
use shipwreck.Base.Int.{ℤ, pos, ◌-ℤ◌, eqb_ℤ}
use shipwreck.Gui.Shapes.{Point, Rect, Parts, rect_union}
use shipwreck.Gui.Shapes.Cover.{In}
use shipwreck.Gui.Shapes.Union.{InParts, rect_union_exact}
use shipwreck.Gui.Frames.{Windows, move, shifted_rect, max_windows}
use shipwreck.Gui.Frames.Tree.{Forest, empty, more, ids, height, Narrow, Rooted, move-update_root}
use shipwreck.Ps2.Mouse.{MouseState}
use shipwreck.Events.{
  Desk, DisplayMsg, redraw_screen, redraw_mouse, redraw_window, redraw_rect, is_flat, redraw_part,
  redraw_parts, drag_by, drag, mouse_move,
}

-- Point `p` is in a rectangle that is to be drawn again.
abbrev pub Shown : Point → List DisplayMsg → Type 0
Shown p [] = ⊥
Shown p (redraw_screen ∷ msgs) = Shown p msgs
Shown p (redraw_mouse ∷ msgs) = Shown p msgs
Shown p (redraw_window w ∷ msgs) = Shown p msgs
Shown p (redraw_rect r ∷ msgs) = In p r ⊎ Shown p msgs

Shown-append :
    (p : Point) (xs ys : List DisplayMsg) → Shown p (xs ++ ys) ↔ (Shown p xs ⊎ Shown p ys)
Shown-append p [] ys = ground arith
Shown-append p (redraw_screen ∷ xs) ys = Shown-append p xs ys
Shown-append p (redraw_mouse ∷ xs) ys = Shown-append p xs ys
Shown-append p (redraw_window w ∷ xs) ys = Shown-append p xs ys
Shown-append p (redraw_rect r ∷ xs) ys = ground (arith, Shown-append p xs ys)

-- A flat rectangle has no points, so nothing is lost where it is left out.
redraw_part_lem : (p : Point) (r : Rect) → Shown p (redraw_part r) ↔ In p r
redraw_part_lem p r = elim (Bool-cases (is_flat r)) [
  | inl e ↦ rw e (ground (arith, e))
  | inr e ↦ rw e (ground arith)
]

third_part :
    (p : Point) (ps : Parts)
    → Shown p (if ps.count == 3 then redraw_part ps.third else [])
      ↔ ((ps.count ≡ 3) × In p ps.third)
third_part p ps = elim (Bool-cases (ps.count == 3)) [
  | inl e ↦ rw e (ground (arith, e, redraw_part_lem p ps.third))
  | inr e ↦ rw e (ground (arith, e))
]

redraw_parts_lem : (p : Point) (ps : Parts) → Shown p (redraw_parts ps) ↔ InParts p ps
redraw_parts_lem p ps =
    let last : List DisplayMsg = if ps.count == 3 then redraw_part ps.third else [] in
    let a : Shown p (redraw_parts ps)
        ↔ (Shown p (redraw_part ps.first) ⊎ Shown p (redraw_part ps.second ++ last)) =
      Shown-append p (redraw_part ps.first) (redraw_part ps.second ++ last) in
    let b : Shown p (redraw_part ps.second ++ last)
        ↔ (Shown p (redraw_part ps.second) ⊎ Shown p last) =
      Shown-append p (redraw_part ps.second) last in
    ground (arith, a, b, redraw_part_lem p ps.first, redraw_part_lem p ps.second, third_part p ps)

drag_by-Shown :
    (dx dy : ℤ) (rest : Rect) (w : ℕ) (d : Desk) (p : Point)
    → Shown p (drag_by dx dy rest w d).1 ↔ (
        In p (Windows.rect d.windows w)
        ⊎ In p (Windows.rect (Desk.windows (drag_by dx dy rest w d).0) w))
unfolding drag_by
drag_by-Shown dx dy rest w d p =
    let old : Rect = Windows.rect d.windows w in
    let new : Rect = Windows.rect (move d.links dx dy w d.windows) w in
    let a : Shown p (redraw_parts (rect_union old new rest)) ↔ InParts p (rect_union old new rest) =
      redraw_parts_lem p (rect_union old new rest) in
    let b : InParts p (rect_union old new rest) ↔ (In p old ⊎ In p new) =
      (rect_union_exact p old new rest).0 in
    ((λ s. b.0 (a.0 s)), (λ i. a.1 (b.1 i)))

drag_by-rect :
    (dx dy : ℤ) (rest : Rect) (w : ℕ) (kids : Forest) (d : Desk)
    → Rooted d.links w kids
    → Distinct (w ∷ ids kids)
    → Narrow (more w kids empty)
    → height kids < max_windows
    → Windows.rect (Desk.windows (drag_by dx dy rest w d).0) w
      ≡ shifted_rect dx dy (Windows.rect d.windows w)
unfolding drag_by
drag_by-rect dx dy rest w kids d s u n h =
    (move-update_root d.links w kids d.windows dx dy none s u n h w).0
    ∙ (let e : (w == w) ≡ true = ground arith in rw e refl)

-- MOUSE_MOVE by (dx, dy), not both 0, while the left button drags window `w`, which is not the
-- desktop and is the root of a tree in which no window stands twice, no frame has more than 256
-- children and frames are nested less than 256 deep: `w` is shifted by (dx, dy), the rectangles
-- that are sent to be drawn again cover exactly the points of its old and its new place, and the
-- position is remembered.
pub mouse_move-Shown :
    (rest : Rect) (m : MouseState) (d : Desk) (w : ℕ) (kids : Forest) (p : Point)
    → m.ldrag ≡ true
    → d.drag_window ≡ some w
    → w ≢ d.desktop
    → (eqb_ℤ (m.x -ℤ m.old_x) (pos 0) && eqb_ℤ (m.y -ℤ m.old_y) (pos 0)) ≡ false
    → Rooted d.links w kids
    → Distinct (w ∷ ids kids)
    → Narrow (more w kids empty)
    → height kids < max_windows
    → (let (m', d', sent) = mouse_move rest m d in
        let old = Windows.rect d.windows w in
        let new = shifted_rect (m.x -ℤ m.old_x) (m.y -ℤ m.old_y) old in
        (Windows.rect d'.windows w ≡ new)
        × (Shown p sent ↔ (In p old ⊎ In p new))
        × (m'.old_x ≡ m.x)
        × (m'.old_y ≡ m.y))
unfolding mouse_move drag
mouse_move-Shown rest m d w kids p l e n moved s u na h =
    let dx : ℤ = m.x -ℤ m.old_x in
    let dy : ℤ = m.y -ℤ m.old_y in
    let f : (w == d.desktop) ≡ false = ground (arith, n) in
    let place : Windows.rect (Desk.windows (drag_by dx dy rest w d).0) w
        ≡ shifted_rect dx dy (Windows.rect d.windows w) =
      drag_by-rect dx dy rest w kids d s u na h in
    let shown : Shown p (drag_by dx dy rest w d).1
        ↔ (In p (Windows.rect d.windows w) ⊎ In p (shifted_rect dx dy (Windows.rect d.windows w))) =
      subst (λ r. Shown p (drag_by dx dy rest w d).1 ↔ (In p (Windows.rect d.windows w) ⊎ In p r))
        place (drag_by-Shown dx dy rest w d p) in
    let all : Shown p ((drag_by dx dy rest w d).1 ++ redraw_mouse ∷ [])
        ↔ (Shown p (drag_by dx dy rest w d).1 ⊎ ⊥) =
      Shown-append p (drag_by dx dy rest w d).1 (redraw_mouse ∷ []) in
    rw (moved, l, e, f, mouse_move, drag)
      (
        place,
        (
          (λ q. elim (all.0 q) [ inl a ↦ shown.0 a | inr x ↦ absurd x ]),
          λ i. all.1 (inl (shown.1 i)),
        ),
        refl,
        refl,
      )
