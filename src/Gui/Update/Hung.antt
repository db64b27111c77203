-- ===== src/Gui/Update/Hung.antt =====
-- The children of a frame (system/gui.cpp) when a window leaves it or joins it.
use shipwreck.Base.{
  ℕ, ◌+◌, ◌≤◌, ◌≡◌, ◌≢◌, ◌∙◌, refl, subst, true, false, Option, none, some, List, [], ◌∷◌, ◌++◌,
  length, ◌==◌, arith, update, update_self, update_ne, NotIn, Distinct-split, NotIn-join,
  Outside-head,
}
use shipwreck.Gui.Stack.{
  Node, Stack, set_next, set_prev, set_links, insert, detach, max_insert_levels,
}
use shipwreck.Gui.Stack.Links.{Linked, Linked-update}
use shipwreck.Gui.Stack.Windows.{Listed, detach_lem}
use shipwreck.Gui.Stack.Order.{placed, insert_lem}
use shipwreck.Gui.Frames.{Links, Windows, child_stack, add_child, remove_child, is_parent}
use shipwreck.Gui.Update.{UserWindow, Manager, construct, copy_windata, leave, join}

-- The same order of windows.
abbrev pub SameKeys : (ℕ → Node) → (ℕ → Node) → Type 0
SameKeys at at' = (v : ℕ) → (at' v).zindex ≡ (at v).zindex

placed-SameKeys :
    (at at' : ℕ → Node) (w : ℕ) (us : List ℕ) → SameKeys at at' → placed at' w us ≡ placed at w us
unfolding placed
placed-SameKeys at at' w [] e = refl
placed-SameKeys at at' w (u ∷ us) e = rw (e u, e w, placed-SameKeys at at' w us e) refl

set_next-SameKeys : (at : ℕ → Node) (o v : Option ℕ) → SameKeys at (set_next at o v)
set_next-SameKeys at none v u = refl
set_next-SameKeys at (some p) v u = ground arith

set_prev-SameKeys : (at : ℕ → Node) (o v : Option ℕ) → SameKeys at (set_prev at o v)
set_prev-SameKeys at none v u = refl
set_prev-SameKeys at (some p) v u = ground arith

set_links-SameKeys : (at : ℕ → Node) (w : ℕ) (n p : Option ℕ) → SameKeys at (set_links at w n p)
set_links-SameKeys at w n p u = ground arith

detach-SameKeys : (w : ℕ) (s : Stack) → SameKeys s.at (detach (some w) s).1.at
unfolding detach
detach-SameKeys w s u =
    let at₁ : ℕ → Node = set_prev s.at (s.at w).next (s.at w).prev in
    set_links-SameKeys (set_next at₁ (at₁ w).prev (at₁ w).next) w none none u
    ∙ set_next-SameKeys at₁ (at₁ w).prev (at₁ w).next u
    ∙ set_prev-SameKeys s.at (s.at w).next (s.at w).prev u

-- The links of a list are all that counts.
Linked-same :
    (at at' : ℕ → Node) (pr : Option ℕ) (xs : List ℕ) (nx : Option ℕ)
    → ((v : ℕ) → ((at' v).next ≡ (at v).next) × ((at' v).prev ≡ (at v).prev))
    → Linked at pr xs nx
    → Linked at' pr xs nx
Linked-same at at' pr [] nx e l = tt
Linked-same at at' pr (x ∷ xs) nx e l =
    ((e x).1 ∙ l.0, (e x).0 ∙ l.1, Linked-same at at' (some x) xs nx e l.2)

-- The children of a frame, from the top down.
abbrev pub Children : Manager → ℕ → List ℕ → Type 0
Children m f ws = Listed (child_stack m.links f) ws

-- The zindex that a window has once its data are copied.
abbrev pub keyed : ℕ → UserWindow → (ℕ → Node) → ℕ → Node
keyed gw u at = update at gw (record (at gw) { zindex = u.zindex })

join-Children :
    (f w : ℕ) (m : Manager) (ws : List ℕ)
    → w ≢ f
    → Children m f ws
    → NotIn w ws
    → length ws ≤ max_insert_levels + 1
    → Children (join f w m) f (placed (Links.at m.links) w ws)
unfolding add_child
join-Children f w m ws ne c n fits =
    let other : (w == f) ≡ false = ground (arith, ne) in
    let s = (insert (some w) (child_stack m.links f)).1 in
    let l = (insert_lem w (child_stack m.links f) ws c n fits).1 in
    rw other (record {
      top = update_self (Links.children m.links) f s.top ∙ l.top;
      linked = l.linked;
      distinct = l.distinct;
    })

leave-Children :
    (f w : ℕ) (m : Manager) (xs ys : List ℕ)
    → Windows.parent m.windows w ≡ some f
    → Children m f (xs ++ w ∷ ys)
    → Children (leave f w m) f (xs ++ ys)
      × SameKeys (Links.at m.links) (Links.at (Manager.links (leave f w m)))
unfolding remove_child
leave-Children f w m xs ys p c =
    let parent : is_parent (Windows.parent m.windows w) f ≡ true = rw p (ground arith) in
    let s = (detach (some w) (child_stack m.links f)).1 in
    let l = (detach_lem (child_stack m.links f) xs w ys c).1 in
    rw parent (
      record {
        top = update_self (Links.children m.links) f s.top ∙ l.top;
        linked = l.linked;
        distinct = l.distinct;
      },
      detach-SameKeys w (child_stack m.links f),
    )

copy-Children :
    (f gw : ℕ) (u : UserWindow) (m : Manager) (ws : List ℕ)
    → gw ≢ f
    → Children m f ws
    → Children (copy_windata gw u m) f ws
unfolding copy_windata
copy-Children f gw u m ws ne c = record {
  top = update_ne (Links.children m.links) gw u.display_data f ne ∙ c.top;
  linked =
      Linked-same (Links.at m.links) (keyed gw u (Links.at m.links)) none ws none
        (λ v. (ground arith, ground arith)) c.linked;
  distinct = c.distinct;
}

construct-Children :
    (pid f gw : ℕ) (u : UserWindow) (m : Manager) (ws : List ℕ)
    → Children m f ws
    → NotIn gw ws
    → Children (construct pid gw u.winclass m) f ws
unfolding construct
construct-Children pid f gw u m ws c n = record {
  top = c.top;
  linked = Linked-update (Links.at m.links) none ws none gw _ n c.linked;
  distinct = c.distinct;
}

-- A window that is made anew and joins the frame.
pub new-Children :
    (pid f gw : ℕ) (u : UserWindow) (m : Manager) (ws : List ℕ)
    → gw ≢ f
    → Children m f ws
    → NotIn gw ws
    → length ws ≤ max_insert_levels + 1
    → Children
        (join f gw (copy_windata gw u (construct pid gw u.winclass m)))
        f
        (placed (keyed gw u (Links.at m.links)) gw ws)
unfolding construct copy_windata
new-Children pid f gw u m ws ne c n fits =
    let m' = construct pid gw u.winclass m in
    let k = copy-Children f gw u m' ws ne (construct-Children pid f gw u m ws c n) in
    subst (Children (join f gw (copy_windata gw u m')) f)
      (placed-SameKeys (keyed gw u (Links.at m.links))
        (Links.at (Manager.links (copy_windata gw u m'))) gw ws (λ v. ground arith))
      (join-Children f gw (copy_windata gw u m') ws ne k n fits)

-- A window that hangs in the frame, leaves it and joins it again.
pub again-Children :
    (f gw : ℕ) (u : UserWindow) (m : Manager) (xs ys : List ℕ)
    → gw ≢ f
    → Windows.parent m.windows gw ≡ some f
    → Children m f (xs ++ gw ∷ ys)
    → length (xs ++ ys) ≤ max_insert_levels + 1
    → Children
        (join f gw (leave f gw (copy_windata gw u m)))
        f
        (placed (keyed gw u (Links.at m.links)) gw (xs ++ ys))
unfolding copy_windata
again-Children f gw u m xs ys ne p c fits =
    let m' = copy_windata gw u m in
    let k = copy-Children f gw u m (xs ++ gw ∷ ys) ne c in
    let d = Distinct-split xs (gw ∷ ys) c.distinct in
    let v = leave-Children f gw m' xs ys p k in
    subst (Children (join f gw (leave f gw m')) f)
      (placed-SameKeys (keyed gw u (Links.at m.links)) (Links.at (Manager.links (leave f gw m'))) gw
        (xs ++ ys) v.1)
      (join-Children f gw (leave f gw m') (xs ++ ys) ne v.0
        (NotIn-join gw xs ys (Outside-head xs gw ys d.2) d.1.0) fits)
