-- ===== src/Events/Raise.antt =====
-- A click (system/events.cpp) on the stack of windows (system/gui.cpp).
use shipwreck.Base.{
  ℕ, ◌≡◌, ◌≢◌, refl, Bool, true, false, some, List, [], ◌∷◌, ◌++◌, ◌==◌, if◌then◌else◌, arith,
  NotIn, NotIn-join, Distinct-split, Outside-head,
}
use shipwreck.Base.Int.{ℤ, pos, ◌+ℤ◌, ◌*ℤ◌}
use shipwreck.Gui.Stack.{Stack, detach}
use shipwreck.Gui.Stack.Windows.{Listed, push_lem, detach_lem}
use shipwreck.Gui.Frames.{Windows}
use shipwreck.Events.{
  Desk, DisplayMsg, redraw_window, winstack, same_window, click_root, mouse_left_down,
}

abbrev pub is_empty : List ℕ → Bool
is_empty [] = true
is_empty (x ∷ xs) = false

-- What a click has made of the desk: window `r` is on top of the others and may be dragged; it is
-- drawn again unless it was on top before.
pub record Raised (us : List ℕ) (r : ℕ) (vs : List ℕ) (d : Desk) (res : Desk × List DisplayMsg)
    : Type 0 where
  pub order : Listed (winstack res.0) (r ∷ us ++ vs)
  pub dragged : Desk.drag_window res.0 ≡ some r
  pub drawn : res.1 ≡ (if is_empty us then [] else redraw_window (some r) ∷ [])
  pub kept : Desk.windows res.0 ≡ Desk.windows d
  pub base : Desk.desktop res.0 ≡ Desk.desktop d

click_root-Raised :
    (us : List ℕ) (r : ℕ) (vs : List ℕ) (d : Desk)
    → Listed (winstack d) (us ++ r ∷ vs)
    → Raised us r vs d (click_root (some r) d)
unfolding click_root
click_root-Raised [] r vs d h =
    let e : same_window (some r) d.top ≡ true = rw h.top (ground arith) in
    rw (e, click_root)
      (record { order = h; dragged = refl; drawn = refl; kept = refl; base = refl })
click_root-Raised (u ∷ us) r vs d h =
    let (a, b, c) = Distinct-split (u ∷ us) (r ∷ vs) h.distinct in
    let new : NotIn r (u ∷ us ++ vs) =
      NotIn-join r (u ∷ us) vs (Outside-head (u ∷ us) r vs c) b.0 in
    let e : same_window (some r) d.top ≡ false = rw h.top (ground (arith, new.0)) in
    let s₁ : Stack = (detach (some r) (winstack d)).1 in
    let out : Listed s₁ (u ∷ us ++ vs) = (detach_lem (winstack d) (u ∷ us) r vs h).1 in
    rw (e, click_root)
      (record {
        order = (push_lem r s₁ (u ∷ us ++ vs) out new).1;
        dragged = refl;
        drawn = refl;
        kept = refl;
        base = refl;
      })

-- MOUSE_LEFT_DOWN on a pixel of a window other than the desktop, whose root `r` is in the stack:
-- `r` comes to the top, the other windows stay in their order, `r` may be dragged, and it alone is
-- drawn again unless it was on top already.
pub mouse_left_down-Raised :
    (width : ℕ) (x y : ℤ) (us : List ℕ) (r : ℕ) (vs : List ℕ) (d : Desk)
    → d.pick_buffer (y *ℤ pos width +ℤ x) ≢ 0
    → Windows.wm_root d.windows (d.pick_buffer (y *ℤ pos width +ℤ x)) ≡ some r
    → Listed (winstack d) (us ++ r ∷ vs)
    → Raised us r vs d (mouse_left_down width x y d)
unfolding mouse_left_down
mouse_left_down-Raised width x y us r vs d n root h =
    let e : (d.pick_buffer (y *ℤ pos width +ℤ x) == 0) ≡ false = ground (arith, n) in
    rw (e, root, mouse_left_down) (click_root-Raised us r vs d h)
