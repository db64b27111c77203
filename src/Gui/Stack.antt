-- ===== src/Gui/Stack.antt =====
-- src/system/gui.cpp, `GUIWindowStack`: the windows of a container as a doubly linked list, the top
-- one first. A window is a number, which stands for its address; `none` is nullptr. The windows'
-- links are a store that all stacks share.
pub mod Links
pub mod Windows
pub mod Order
use shipwreck.Base.{
  ℕ, zero, suc, Bool, true, false, Option, none, some, ◌==◌, if◌then◌else◌, update,
}
use shipwreck.Base.Int.{ℤ, ltb_ℤ}

-- The part of a `GUIWindow` that the stacks read and write.
pub record Node : Type 0 where
  pub zindex : ℤ
  pub next : Option ℕ
  pub prev : Option ℕ

pub record Stack : Type 0 where
  pub top : Option ℕ
  pub at : ℕ → Node

-- `if (o) o->next = v`
abbrev pub set_next : (ℕ → Node) → Option ℕ → Option ℕ → ℕ → Node
set_next at none v = at
set_next at (some p) v = update at p (record (at p) { next = v })

abbrev pub set_prev : (ℕ → Node) → Option ℕ → Option ℕ → ℕ → Node
set_prev at none v = at
set_prev at (some p) v = update at p (record (at p) { prev = v })

abbrev pub set_links : (ℕ → Node) → ℕ → Option ℕ → Option ℕ → ℕ → Node
set_links at w next prev = update at w (record (at w) { next = next; prev = prev })

-- `GUIWindowStack::push`; both branches store the same links where the stack is empty.
unfoldable pub push : Option ℕ → Stack → Option ℕ × Stack
push none s = (none, s)
push (some w) s = elim s.top [
  | none ↦ (some w, record { top = some w; at = set_links s.at w none none })
  | some t ↦ (
    some w,
    record { top = some w; at = set_prev (set_links s.at w (some t) none) (some t) (some w) },
  )
]

-- `win == top`
abbrev pub is_top : Option ℕ → ℕ → Bool
is_top none w = false
is_top (some t) w = t == w

-- `GUIWindowStack::detach`
unfoldable pub detach : Option ℕ → Stack → Option ℕ × Stack
detach none s = (none, s)
detach (some w) s =
    let at₁ = set_prev s.at (s.at w).next (s.at w).prev in
    let at₂ = set_next at₁ (at₁ w).prev (at₁ w).next in
    (
      some w,
      record {
        top = if is_top s.top w then (s.at w).next else s.top;
        at = set_links at₂ w none none;
      },
    )

abbrev pub max_insert_levels : ℕ
max_insert_levels = 256

-- The walk of `insert` from window `p` down to the last one that stays above.
unfoldable pub window_above : ℕ → (ℕ → Node) → ℤ → ℕ → ℕ
window_above zero at z p = p
window_above (suc left) at z p = elim (at p).next [
  | none ↦ p
  | some n ↦
      let rest = window_above left at z n in
      elim (ltb_ℤ (at n).zindex z) [ true ↦ p | false ↦ rest ]
]

-- What `insert` stores once it has found the window above.
unfoldable pub link_below : (ℕ → Node) → ℕ → ℕ → ℕ → Node
link_below at p w =
    let at₁ = set_prev at (at p).next (some w) in
    let at₂ = set_links at₁ w (at₁ p).next (some p) in set_next at₂ (some p) (some w)

unfoldable pub insert_top : ℕ → Stack → Stack
insert_top w s = record { top = some w; at = set_links (set_prev s.at s.top (some w)) w s.top none }

-- `GUIWindowStack::insert`
unfoldable pub insert : Option ℕ → Stack → Option ℕ × Stack
unfolding window_above link_below insert_top
insert none s = (none, s)
insert (some w) s = elim s.top [
  | none ↦ (some w, insert_top w s)
  | some t ↦ if ltb_ℤ (s.at t).zindex (s.at w).zindex then (some w, insert_top w s) else (
    some w,
    record s { at = link_below s.at (window_above max_insert_levels s.at (s.at w).zindex t) w },
  )
]
