-- ===== src/Gui/Update/Place.antt =====
-- Where `gui_update_proc` (system/gui.cpp) places a window of a frame.
use shipwreck.Base.{
  ℕ, ◌+◌, ◌≤◌, ◌≡◌, ◌≢◌, List, ◌∷◌, ◌++◌, length, NotIn, ◌∙◌, refl, sym, ap, ap₂, subst, Bool, true,
  false, inl, inr, ◌⊎◌, none, some, ◌==◌, if◌then◌else◌, arith, update, update_self, update_ne,
}
use shipwreck.Base.Int.{ℤ, pos, ◌+ℤ◌, eq_of_parts, +ℤ_parts, -ℤ_parts}
use shipwreck.Gui.Shapes.{Rect}
use shipwreck.Gui.Stack.{insert, detach, max_insert_levels}
use shipwreck.Gui.Frames.{
  Links, Windows, shifted_rect, move_data, visit, move, minus, is_parent, with_children,
  child_stack, add_child, remove_child,
}
use shipwreck.Gui.Update.{
  UserWindow, Manager, Step, same_class, constructible, is_frame_class, on_with, window_gid, leave,
  join, construct, copy_windata, detach_parent, attach_parent, take_over, update_window,
}
use shipwreck.Gui.Update.Hung.{Children, keyed, new-Children, again-Children}
use shipwreck.Gui.Stack.Order.{placed}

-- A window that is no frame is moved alone.
move_leaf :
    (l : Links) (dx dy : ℤ) (w : ℕ) (ws : Windows)
    → Links.is_frame l w ≡ false
    → move l dx dy w ws ≡ move_data dx dy w ws
unfolding move visit
move_leaf l dx dy w ws e = rw e refl

-- A leaf that joins a frame is shifted by the frame's corner, and has the frame as its parent.
join_leaf :
    (f w : ℕ) (m : Manager)
    → w ≢ f
    → Links.is_frame m.links w ≡ false
    → let f_rect = Windows.rect m.windows f in
      (Windows.rect (join f w m).windows w
        ≡ shifted_rect f_rect.l f_rect.t (Windows.rect m.windows w))
      × (Windows.parent (join f w m).windows w ≡ some f)
unfolding add_child
join_leaf f w m ne leaf =
    let other : (w == f) ≡ false = ground (arith, ne) in
    let l' = with_children m.links f (insert (some w) (child_stack m.links f)).1 in
    rw
      (
        other,
        move_leaf l' (Windows.rect m.windows f).l (Windows.rect m.windows f).t w
            (record (m.windows) { parent = update (Windows.parent m.windows) w (some f) }) leaf,
      )
      (update_self (Windows.rect m.windows) w _, update_self (Windows.parent m.windows) w (some f))

-- A leaf that leaves a frame is shifted back by the frame's corner, and the frame stays.
leave_leaf :
    (f w : ℕ) (m : Manager)
    → w ≢ f
    → Links.is_frame m.links w ≡ false
    → Windows.parent m.windows w ≡ some f
    → let f_rect = Windows.rect m.windows f in
      (Windows.rect (leave f w m).windows w
        ≡ shifted_rect (minus f_rect.l) (minus f_rect.t) (Windows.rect m.windows w))
      × (Windows.rect (leave f w m).windows f ≡ Windows.rect m.windows f)
      × (Links.is_frame (leave f w m).links w ≡ false)
unfolding remove_child
leave_leaf f w m ne leaf p =
    let parent : is_parent (Windows.parent m.windows w) f ≡ true = rw p (ground arith) in
    let l' = with_children m.links f (detach (some w) (child_stack m.links f)).1 in
    rw
      (
        parent,
        move_leaf l' (minus (Windows.rect m.windows f).l) (minus (Windows.rect m.windows f).t) w
            (record (m.windows) { parent = update (Windows.parent m.windows) w none }) leaf,
      )
      (update_self (Windows.rect m.windows) w _, update_ne (Windows.rect m.windows) w _ f ne, leaf)

-- Back and forth is where it was.
there_and_back : (a b : ℤ) → a +ℤ minus b +ℤ b ≡ a
there_and_back a b =
    eq_of_parts (a +ℤ minus b +ℤ b) a
      (omega (arith, +ℤ_parts (a +ℤ minus b) b, +ℤ_parts a (minus b), -ℤ_parts (pos 0) b))

shifted_back : (f r : Rect) → shifted_rect f.l f.t (shifted_rect (minus f.l) (minus f.t) r) ≡ r
shifted_back f r i = record {
  l = there_and_back r.l f.l i;
  t = there_and_back r.t f.t i;
  r = there_and_back r.r f.l i;
  b = there_and_back r.b f.t i;
}

attach_leaf :
    (pid gw i : ℕ) (u : UserWindow) (m : Manager)
    → u.parent_id ≡ some i
    → is_frame_class (m.winclass (window_gid pid i)) ≡ true
    → attach_parent pid gw u m ≡ on_with (join (window_gid pid i) gw m)
unfolding attach_parent
attach_leaf pid gw i u m e c = rw (e, attach_parent, c) refl

detach-none : (gw : ℕ) (m : Manager) → Windows.parent m.windows gw ≡ none → detach_parent gw m ≡ m
unfolding detach_parent
detach-none gw m e = rw (e, detach_parent) refl

detach-some :
    (gw f : ℕ) (m : Manager)
    → Windows.parent m.windows gw ≡ some f
    → detach_parent gw m ≡ leave f gw m
unfolding detach_parent
detach-some gw f m e = rw (e, detach_parent) refl

-- Where a window that hangs in frame `f` is, the frame's children `zs` from the top down, and that the
-- function goes on.
pub record Placed (at : Rect) (zs : List ℕ) (f gw : ℕ) (s : Step) : Type 0 where
  pub goes_on : s.goes_on ≡ true
  pub parent : Windows.parent (s.manager.windows) gw ≡ some f
  pub rect : Windows.rect (s.manager.windows) gw ≡ at
  pub children : Children s.manager f zs

Placed-eq :
    {r r' : Rect} (zs : List ℕ) (f gw : ℕ) {s s' : Step}
    → r ≡ r'
    → s ≡ s'
    → Placed r zs f gw s
    → Placed r' zs f gw s'
Placed-eq {r' = r'} zs f gw {s = s} e e' p =
    subst (λ t. Placed r' zs f gw t) e' (subst (λ q. Placed q zs f gw s) e p)

-- A rectangle put at the corner of another.
abbrev pub hung_at : Rect → Rect → Rect
hung_at f r = shifted_rect f.l f.t r

module _ (pid gw i : ℕ) (u : UserWindow) (hangs : u.parent_id ≡ some i)
    (ne : gw ≢ window_gid pid i) where
  attach-Placed :
      (m : Manager) (zs : List ℕ)
      → Children (join (window_gid pid i) gw m) (window_gid pid i) zs
      → is_frame_class (m.winclass (window_gid pid i)) ≡ true
      → Links.is_frame m.links gw ≡ false
      → let r = Windows.rect m.windows (window_gid pid i) in
        Placed
          (shifted_rect r.l r.t (Windows.rect m.windows gw))
          zs
          (window_gid pid i)
          gw
          (attach_parent pid gw u m)
  attach-Placed m zs c frame leaf =
      let j = join_leaf (window_gid pid i) gw m ne leaf in
      rw (attach_leaf pid gw i u m hangs frame)
        (record { goes_on = refl; parent = j.1; rect = j.0; children = c })

  copied :
      (m : Manager)
      → (Windows.rect (copy_windata gw u m).windows gw ≡ u.rect)
        × (Windows.rect (copy_windata gw u m).windows (window_gid pid i)
            ≡ Windows.rect m.windows (window_gid pid i))
        × ((copy_windata gw u m).winclass (window_gid pid i) ≡ m.winclass (window_gid pid i))
  unfolding copy_windata
  copied m = (
    update_self (Windows.rect m.windows) gw u.rect,
    update_ne (Windows.rect m.windows) gw u.rect (window_gid pid i) ne,
    update_ne m.winclass gw u.winclass (window_gid pid i) ne,
  )

  take_over-fresh :
      (m : Manager) (zs : List ℕ)
      → Children (join (window_gid pid i) gw (copy_windata gw u m)) (window_gid pid i) zs
      → is_frame_class (m.winclass (window_gid pid i)) ≡ true
      → Links.is_frame m.links gw ≡ false
      → Windows.parent m.windows gw ≡ none
      → let r = Windows.rect m.windows (window_gid pid i) in
        Placed (shifted_rect r.l r.t u.rect) zs (window_gid pid i) gw (take_over pid gw u m)
  unfolding take_over copy_windata
  take_over-fresh m zs k frame leaf alone =
      let c = copied m in
      let m' = copy_windata gw u m in
      let p = attach-Placed m' zs k (ap is_frame_class c.2 ∙ frame) leaf in
      Placed-eq zs (window_gid pid i) gw (ap₂ hung_at c.1 c.0)
        (ap (attach_parent pid gw u) (sym (detach-none gw m' alone))) p

  take_over-again :
      (m : Manager) (zs : List ℕ)
      → (let f = window_gid pid i in Children (join f gw (leave f gw (copy_windata gw u m))) f zs)
      → is_frame_class (m.winclass (window_gid pid i)) ≡ true
      → Links.is_frame m.links gw ≡ false
      → Windows.parent m.windows gw ≡ some (window_gid pid i)
      → Placed u.rect zs (window_gid pid i) gw (take_over pid gw u m)
  unfolding take_over copy_windata
  take_over-again m zs k frame leaf hung =
      let c = copied m in
      let m' = copy_windata gw u m in
      let f = window_gid pid i in
      let v = leave_leaf f gw m' ne leaf hung in
      let p = attach-Placed (leave f gw m') zs k (ap is_frame_class c.2 ∙ frame) v.2 in
      Placed-eq zs f gw
        (ap₂ hung_at v.1 v.0
          ∙ shifted_back (Windows.rect m'.windows f) (Windows.rect m'.windows gw)
          ∙ c.0)
        (ap (attach_parent pid gw u) (sym (detach-some gw f m' hung))) p

-- Whether the window manager has the window as one of another class, so that it is made anew.
abbrev pub is_new : UserWindow → Manager → ℕ → Bool
is_new u m gw = if same_class u.winclass (m.winclass gw) then false else true

-- The window is new to the manager and not among the children of frame `f`, which are `xs` and `ys`.
abbrev pub IsOutside : ℕ → ℕ → List ℕ → List ℕ → UserWindow → Manager → Type 0
IsOutside f gw xs ys u m = (is_new u m gw ≡ true) × Children m f (xs ++ ys) × NotIn gw (xs ++ ys)

-- The manager has the window, which is no frame, in frame `f` between the children `xs` and `ys`.
abbrev pub HangsIn : ℕ → ℕ → List ℕ → List ℕ → UserWindow → Manager → Type 0
HangsIn f gw xs ys u m =
    (is_new u m gw ≡ false)
    × Children m f (xs ++ gw ∷ ys)
    × (Windows.parent m.windows gw ≡ some f)
    × (Links.is_frame m.links gw ≡ false)

-- An update of a window that is no frame and names a frame of its process, not itself, as its parent,
-- where that has up to 257 other children: if the window is new to the manager and not among the
-- frame's children, or is one of them already, then afterwards it has the frame as its parent and stands
-- among the frame's children, the others in their order, in front of the first one with a lower zindex
-- than the process gave. A new window's rectangle is what the process gave, put at the frame's corner;
-- one that hung there has just what the process gave, not put at the corner.
pub update_window-Placed :
    (pid gw i : ℕ) (u : UserWindow) (m : Manager) (xs ys : List ℕ)
    → u.parent_id ≡ some i
    → gw ≢ window_gid pid i
    → is_frame_class (m.winclass (window_gid pid i)) ≡ true
    → constructible u.winclass ≡ true
    → is_frame_class u.winclass ≡ false
    → length (xs ++ ys) ≤ max_insert_levels + 1
    → IsOutside (window_gid pid i) gw xs ys u m ⊎ HangsIn (window_gid pid i) gw xs ys u m
    → Placed
        (if is_new u m gw
          then hung_at (Windows.rect m.windows (window_gid pid i)) u.rect
          else u.rect)
        (placed (keyed gw u (Links.at m.links)) gw (xs ++ ys))
        (window_gid pid i)
        gw
        (update_window pid gw u m).1
unfolding update_window construct
update_window-Placed pid gw i u m xs ys hangs ne frame made leaf fits (inl (new, c, n)) =
    let u' = record u { needs_update = false } in
    let other : same_class u.winclass (m.winclass gw) ≡ false = ground (arith, new) in
    rw (other, made)
      (take_over-fresh pid gw i u' hangs ne (construct pid gw u.winclass m) _
        (new-Children pid (window_gid pid i) gw u' m (xs ++ ys) ne c n fits) frame
        (update_self (Links.is_frame m.links) gw (is_frame_class u.winclass) ∙ leaf)
        (update_self (Windows.parent m.windows) gw none))
update_window-Placed pid gw i u m xs ys hangs ne frame made leaf fits (inr (old, c, hung, plain)) =
    let u' = record u { needs_update = false } in
    let same : same_class u.winclass (m.winclass gw) ≡ true = ground (arith, old) in
    rw same (
      take_over-again pid gw i u' hangs ne m _
        (again-Children (window_gid pid i) gw u' m xs ys ne hung c fits) frame plain hung)
