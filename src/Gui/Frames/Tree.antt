-- ===== src/Gui/Frames/Tree.antt =====
-- `move` and `update_root` (system/gui.cpp) on a tree of windows: they reach each window of the
-- tree once, and no other.
use shipwreck.Base.{
  ℕ, zero, suc, ◌≤◌, ◌<◌, ◌≡◌, ◌∙◌, refl, sym, ap, Bool, true, false, ◌||◌, Option, none, some,
  ◌==◌, if◌then◌else◌, List, [], ◌∷◌, ◌++◌, arith, Bool-cases, ==_iff, ◌⊎◌, inl, inr, Distinct,
  NotIn,
}
use Prim.Native.Nat.{max}
use shipwreck.Base.Int.{ℤ}
use shipwreck.Gui.Redraw.{max_window_levels}
use shipwreck.Gui.Frames.{
  Links, Windows, shifted_rect, move_data, set_root, walk, visit, move, update_root, max_windows,
}

-- Sibling windows, the top one first, each with its own children.
pub data Forest : Type 0 where
  empty : Forest
  more : ℕ → Forest → Forest → Forest

-- The windows in the order in which they are reached.
abbrev pub ids : Forest → List ℕ
ids empty = []
ids (more w kids rest) = w ∷ (ids kids ++ ids rest)

abbrev pub size : Forest → ℕ
size empty = 0
size (more w kids rest) = suc (size rest)

abbrev pub height : Forest → ℕ
height empty = 0
height (more w kids rest) = max (suc (height kids)) (height rest)

-- No frame of the forest has more children than a loop reaches.
abbrev pub Narrow : Forest → Type 0
Narrow empty = Unit
Narrow (more w kids rest) = (size kids ≤ max_window_levels) × Narrow kids × Narrow rest

-- The links make this forest from window `o` on: a frame has these children, any other window none.
abbrev pub Siblings : Links → Option ℕ → Forest → Type 0
Siblings l none empty = Unit
Siblings l none (more v kids rest) = ⊥
Siblings l (some w) empty = ⊥
Siblings l (some w) (more v kids rest) =
    (w ≡ v)
    × (((l.is_frame v ≡ true) × Siblings l (l.children v) kids)
        ⊎ ((l.is_frame v ≡ false) × (kids ≡ empty)))
    × Siblings l (l.at v).next rest

-- Window `v` has these children, if it is a frame, and none if it is not.
abbrev pub Rooted : Links → ℕ → Forest → Type 0
Rooted l v kids =
    ((l.is_frame v ≡ true) × Siblings l (l.children v) kids)
    ⊎ ((l.is_frame v ≡ false) × (kids ≡ empty))

abbrev in_turn : (ℕ → Windows → Windows) → List ℕ → Windows → Windows
in_turn act [] ws = ws
in_turn act (x ∷ xs) ws = in_turn act xs (act x ws)

in_turn-append :
    (act : ℕ → Windows → Windows) (xs ys : List ℕ) (ws : Windows)
    → in_turn act (xs ++ ys) ws ≡ in_turn act ys (in_turn act xs ws)
in_turn-append act [] ys ws = refl
in_turn-append act (x ∷ xs) ys ws = in_turn-append act xs ys (act x ws)

module _ (l : Links) (act : ℕ → Windows → Windows) where
  visit_one :
      (v : ℕ) (kids : Forest) (d : ℕ) (ws : Windows)
      → Rooted l v kids
      → (Siblings l (l.children v) kids
          → walk l max_window_levels (visit d l act) (l.children v) (act v ws)
            ≡ in_turn act (ids kids) (act v ws))
      → visit (suc d) l act v ws ≡ in_turn act (v ∷ ids kids) ws
  unfolding visit
  visit_one v kids d ws (inl h) inner = rw (h.0, visit) (inner h.1)
  visit_one v kids d ws (inr h) inner =
      rw (h.0, visit) (ap (λ ks. in_turn act (ids ks) (act v ws)) (sym h.1))

  walk_lem :
      (ts : Forest) (left d : ℕ) (o : Option ℕ) (ws : Windows)
      → Siblings l o ts
      → size ts ≤ left
      → height ts ≤ d
      → Narrow ts
      → walk l left (visit d l act) o ws ≡ in_turn act (ids ts) ws
  unfolding walk
  walk_lem empty zero d o ws s h k n = refl
  walk_lem empty (suc left) d none ws s h k n = refl
  walk_lem empty (suc left) d (some w) ws s h k n = absurd s
  walk_lem (more v kids rest) left d none ws s h k n = absurd s
  walk_lem (more v kids rest) zero d (some w) ws s h k n = absurd (omega arith)
  walk_lem (more v kids rest) (suc left) zero (some w) ws s h k n = absurd (omega arith)
  walk_lem (more v kids rest) (suc left) (suc d) (some w) ws s h k n =
      let one : visit (suc d) l act v ws ≡ in_turn act (v ∷ ids kids) ws =
        visit_one v kids d ws s.1 (λ held.
          walk_lem kids max_window_levels d (l.children v) (act v ws) held n.0 (omega arith) n.1) in
      rw s.0 (
        ap (walk l left (visit (suc d) l act) (l.at v).next) one
        ∙ walk_lem rest left (suc d) (l.at v).next (in_turn act (v ∷ ids kids) ws) s.2 (omega arith)
            (omega arith) n.2
        ∙ sym (in_turn-append act (ids kids) (ids rest) (act v ws)))

abbrev pub member : ℕ → List ℕ → Bool
member x [] = false
member x (y ∷ ys) = y == x || member x ys

NotIn-member : (x : ℕ) (ys : List ℕ) → NotIn x ys → member x ys ≡ false
NotIn-member x [] n = refl
NotIn-member x (y ∷ ys) n = ground (arith, n.0, NotIn-member x ys n.1)

-- A window moved once keeps that rectangle when it is not moved again.
in_turn-rect :
    (dx dy : ℤ) (xs : List ℕ) (ws : Windows) (x : ℕ)
    → Distinct xs
    → (in_turn (move_data dx dy) xs ws).rect x
      ≡ (if member x xs then shifted_rect dx dy (ws.rect x) else ws.rect x)
in_turn-rect dx dy [] ws x d = refl
in_turn-rect dx dy (y ∷ ys) ws x d =
    in_turn-rect dx dy ys (move_data dx dy y ws) x d.1 ∙ elim (Bool-cases (y == x)) [
      | inl e ↦
          let same : y ≡ x = (==_iff y x).0 e in
          let once : member x ys ≡ false =
            ap (λ t. member t ys) (sym same) ∙ NotIn-member y ys d.0 in
          rw (e, once) (ap (λ t. shifted_rect dx dy (ws.rect t)) same)
      | inr e ↦ rw e refl
    ]

in_turn-wm_root :
    (root : Option ℕ) (xs : List ℕ) (ws : Windows) (x : ℕ)
    → (in_turn (set_root root) xs ws).wm_root x ≡ (if member x xs then root else ws.wm_root x)
in_turn-wm_root root [] ws x = refl
in_turn-wm_root root (y ∷ ys) ws x =
    in_turn-wm_root root ys (set_root root y ws) x
    ∙ elim (Bool-cases (y == x)) [ inl e ↦ rw e (ground arith) | inr e ↦ rw e refl ]

-- For a window `v` that is the root of a tree in which no window stands twice, no frame has more
-- than 256 children and frames are nested less than 256 deep, as the links have it: `move` shifts
-- the rectangle of each window of the tree by (dx, dy), once, and `update_root` gives each its new
-- root; no other window's rectangle or root changes.
pub move-update_root :
    (l : Links) (v : ℕ) (kids : Forest) (ws : Windows) (dx dy : ℤ) (root : Option ℕ)
    → Rooted l v kids
    → Distinct (v ∷ ids kids)
    → Narrow (more v kids empty)
    → height kids < max_windows
    → (x : ℕ)
    → ((move l dx dy v ws).rect x
        ≡ (if member x (v ∷ ids kids) then shifted_rect dx dy (ws.rect x) else ws.rect x))
      × ((update_root l root v ws).wm_root x
          ≡ (if member x (v ∷ ids kids) then root else ws.wm_root x))
unfolding move update_root
move-update_root l v kids ws dx dy root s d n h x = (
  ap (λ u. Windows.rect u x) (reach (move_data dx dy)) ∙ in_turn-rect dx dy (v ∷ ids kids) ws x d,
  ap (λ u. Windows.wm_root u x) (reach (set_root root)) ∙ in_turn-wm_root root (v ∷ ids kids) ws x,
)
  where
    reach :
        (act : ℕ → Windows → Windows) → visit max_windows l act v ws ≡ in_turn act (v ∷ ids kids) ws
    reach act = visit_one l act v kids 255 ws s (λ held.
        walk_lem l act kids max_window_levels 255 (l.children v) (act v ws) held n.0 (omega arith)
          n.1)
