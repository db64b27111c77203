-- ===== src/Gui/Update/Redrawn.antt =====
-- What `gui_update_proc` and `gui_redraw_proc` (system/gui.cpp) leave of a process's requests.
use shipwreck.Base.{
  ℕ, ◌+◌, ◌≡◌, refl, ap, ap₂, Bool, Bool-cases, true, false, inl, inr, List, [], ◌∷◌, if◌then◌else◌,
  arith,
}
use shipwreck.Gui.Shapes.{Rect}
use shipwreck.Gui.Frames.{Windows}
use shipwreck.Gui.Update.{
  UserWindow, Manager, Step, same_class, constructible, on_with, wants_update, wants_redraw,
  shown_rect, window_gid, update_window, update_windows, redraw_windows, gui_redraw_proc,
  gui_update_proc,
}

-- No window asks for anything of this kind.
abbrev pub None : (UserWindow → Bool) → List UserWindow → Type 0
None wants [] = Unit
None wants (u ∷ us) = (wants u ≡ false) × None wants us

-- The rectangles of the windows that ask, in their order.
abbrev pub asked : ℕ → ℕ → List UserWindow → Manager → List Rect
asked pid i [] m = []
asked pid i (u ∷ us) m =
    if wants_redraw u
    then shown_rect (Windows.rect m.windows (window_gid pid i)) u.redraw_rect
      ∷ asked pid (i + 1) us m
    else asked pid (i + 1) us m

redraw_windows_lem :
    (pid i : ℕ) (us : List UserWindow) (m : Manager)
    → ((redraw_windows pid i us m).1 ≡ asked pid i us m)
      × None wants_redraw (redraw_windows pid i us m).0
unfolding redraw_windows
redraw_windows_lem pid i [] m = (refl, tt)
redraw_windows_lem pid i (u ∷ us) m =
    let rest = redraw_windows_lem pid (i + 1) us m in
    elim (Bool-cases (wants_redraw u)) [
      | inl e ↦ rw e (
        ap (λ l. shown_rect (Windows.rect m.windows (window_gid pid i)) u.redraw_rect ∷ l) rest.0,
        (ground arith, rest.1),
      )
      | inr e ↦ rw e (rest.0, (e, rest.1))
    ]

redraw_windows-None :
    (pid i : ℕ) (us : List UserWindow) (m : Manager)
    → None wants_redraw us
    → redraw_windows pid i us m ≡ (us, [])
unfolding redraw_windows
redraw_windows-None pid i [] m n = refl
redraw_windows-None pid i (u ∷ us) m n = rw n.0 (
    ap₂ (λ a b. (u ∷ a, b)) (ap (λ r. r.0) (redraw_windows-None pid (i + 1) us m n.1))
      (ap (λ r. r.1) (redraw_windows-None pid (i + 1) us m n.1)))

-- `gui_redraw_proc` sends, for each window of the process that asks to be drawn again, the rectangle
-- that it names, at the window's place, in the order of the windows. After that no window asks, and
-- another call sends nothing and changes nothing.
pub gui_redraw_proc-asked :
    (pid : ℕ) (us : List UserWindow) (m : Manager)
    → let r = gui_redraw_proc pid us m in
      (r.1 ≡ asked pid 0 us m) × (gui_redraw_proc pid r.0 m ≡ (r.0, []))
unfolding gui_redraw_proc
gui_redraw_proc-asked pid us m =
    let r = redraw_windows_lem pid 0 us m in
    (r.0, redraw_windows-None pid 0 (redraw_windows pid 0 us m).0 m r.1)

update_window-asks :
    (pid gw : ℕ) (u : UserWindow) (m : Manager) → wants_update (update_window pid gw u m).0 ≡ false
unfolding update_window
update_window-asks pid gw u m = elim (Bool-cases (same_class u.winclass (m.winclass gw))) [
  | inl e ↦ rw e (ground arith)
  | inr e ↦ rw e (elim (Bool-cases (constructible u.winclass)) [
    | inl c ↦ rw c (ground arith)
    | inr c ↦ rw c refl
  ])
]

-- A round of the first loop.
abbrev round : ℕ → ℕ → UserWindow → Manager → UserWindow × Step
round pid gw u m = if wants_update u then update_window pid gw u m else (u, on_with m)

round-asks : (pid gw : ℕ) (u : UserWindow) (m : Manager) → wants_update (round pid gw u m).0 ≡ false
round-asks pid gw u m = elim (Bool-cases (wants_update u)) [
  | inl e ↦ rw e (update_window-asks pid gw u m)
  | inr e ↦ ground (arith, e)
]

-- What holds in both branches, each under its condition.
if-elim {ℓ κ} :
    {A : Type ℓ} (P : A → Type κ) (b : Bool) (x y : A)
    → (b ≡ true → P x)
    → (b ≡ false → P y)
    → P (if b then x else y)
if-elim P true x y f g = f refl
if-elim P false x y f g = g refl

-- A loop that has gone through all windows leaves none that asks.
abbrev Settled : List UserWindow × Step → Type 0
Settled r = r.1.goes_on ≡ true → None wants_update r.0

update_windows-Settled :
    (pid i : ℕ) (us : List UserWindow) (m : Manager) → Settled (update_windows pid i us m)
unfolding update_windows
update_windows-Settled pid i [] m = λ h. tt
update_windows-Settled pid i (u ∷ us) m =
    let r = round pid (window_gid pid i) u m in
    let rest = update_windows pid (i + 1) us r.1.manager in
    if-elim Settled r.1.goes_on (r.0 ∷ rest.0, rest.1) (r.0 ∷ us, r.1)
      (λ e h. (
        round-asks pid (window_gid pid i) u m,
        update_windows-Settled pid (i + 1) us r.1.manager h,
      ))
      (λ e h. absurd (ground (arith, e, h)))

update_windows-None :
    (pid i : ℕ) (us : List UserWindow) (m : Manager)
    → None wants_update us
    → update_windows pid i us m ≡ (us, on_with m)
unfolding update_windows
update_windows-None pid i [] m n = refl
update_windows-None pid i (u ∷ us) m n = rw (n.0, update_windows-None pid (i + 1) us m n.1) refl

-- Where the first loop of `gui_update_proc` has gone through all windows of the process, no window
-- asks for an update any more: run again on what the call leaves, the loop changes nothing.
pub gui_update_proc-settles :
    (pid : ℕ) (us : List UserWindow) (m : Manager)
    → (update_windows pid 0 us m).1.goes_on ≡ true
    → let r = gui_update_proc pid us m in update_windows pid 0 r.0 r.1 ≡ (r.0, on_with r.1)
unfolding gui_update_proc
gui_update_proc-settles pid us m h = rw h (
    update_windows-None pid 0 (update_windows pid 0 us m).0 _ (update_windows-Settled pid 0 us m h))
