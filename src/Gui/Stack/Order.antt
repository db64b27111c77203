-- ===== src/Gui/Stack/Order.antt =====
-- `GUIWindowStack::insert` (system/gui.cpp): a window goes behind those of the same or a higher
-- zindex.
use shipwreck.Base.{
  ℕ, zero, suc, ◌≡◌, ◌≤◌, ◌+◌, ◌∙◌, refl, sym, ap, Option, none, some, List, [], ◌∷◌, ◌++◌, arith,
  NotIn, Distinct, Outside, NotIn-split, Distinct-split, Distinct-join, Outside-head, Outside-tail,
  Outside-cons, inl, inr, Bool-cases, if◌then◌else◌, length, subst,
}
use shipwreck.Base.Int.{ltb_ℤ, ◌≤ℤ◌}
use shipwreck.Gui.Stack.{
  Node, Stack, set_next, set_prev, set_links, insert, insert_top, link_below, window_above,
  max_insert_levels,
}
use shipwreck.Gui.Stack.Links.{
  first, final, Linked, Linked-update, Linked-set_links, Linked-set_prev, Linked-join, Linked-split,
  relink_start,
}
use shipwreck.Gui.Stack.Windows.{Listed, insert_top-Listed, set_prev-first, Without-first}

-- The list with the window in front of the first one that has a lower zindex.
unfoldable pub placed : (ℕ → Node) → ℕ → List ℕ → List ℕ
placed at w [] = w ∷ []
placed at w (u ∷ us) = if ltb_ℤ (at u).zindex (at w).zindex then w ∷ u ∷ us else u ∷ placed at w us

-- The walk stops at the window behind which the new one belongs.
abbrev Splits : (ℕ → Node) → ℕ → ℕ → List ℕ → ℕ → Type 0
Splits at w q rest p =
    (us : List ℕ) × (vs : List ℕ) × (q ∷ rest ≡ us ++ p ∷ vs)
    × (q ∷ placed at w rest ≡ us ++ p ∷ w ∷ vs)

window_above-Splits :
    (left : ℕ) (at : ℕ → Node) (w : ℕ) (pr : Option ℕ) (q : ℕ) (rest : List ℕ)
    → Linked at pr (q ∷ rest) none
    → length rest ≤ left
    → Splits at w q rest (window_above left at (at w).zindex q)
unfolding window_above placed
window_above-Splits zero at w pr q [] l h = ([], [], refl, refl)
window_above-Splits zero at w pr q (n ∷ rest) l h = absurd (omega arith)
window_above-Splits (suc left) at w pr q [] l h = rw (l.1, window_above) ([], [], refl, refl)
window_above-Splits (suc left) at w pr q (n ∷ rest) l h =
    rw (l.1, window_above)
      (elim (Bool-cases (ltb_ℤ (at n).zindex (at w).zindex)) [
        | inl e ↦ rw e ([], n ∷ rest, refl, refl)
        | inr e ↦ rw e (
            let (us, vs, a, b) = window_above-Splits left at w (some q) n rest l.2 (omega arith) in
            (q ∷ us, vs, ap (λ r. q ∷ r) a, ap (λ r. q ∷ r) b))
      ])

Outside-insert :
    (us : List ℕ) (p w : ℕ) (vs : List ℕ)
    → NotIn w us
    → Outside us (p ∷ vs)
    → Outside us (p ∷ w ∷ vs)
Outside-insert us p w vs n o =
    Outside-cons us p (w ∷ vs) (Outside-head us p vs o)
      (Outside-cons us w vs n (Outside-tail us p vs o))

module _ (at : ℕ → Node) (us : List ℕ) (p : ℕ) (vs : List ℕ) (w : ℕ) (d : Distinct (us ++ p ∷ vs))
    (n : NotIn w (us ++ p ∷ vs)) (l : Linked at none (us ++ p ∷ vs) none) where
  opened : ℕ → Node
  opened = set_prev at (first vs none) (some w)

  parts : Distinct us × Distinct (p ∷ vs) × Outside us (p ∷ vs)
  parts = Distinct-split us (p ∷ vs) d

  stretches : Linked at none us (some p) × Linked at (final none us) (p ∷ vs) none
  stretches = Linked-split at none us (p ∷ vs) none l

  new_out : NotIn w us × NotIn w (p ∷ vs)
  new_out = NotIn-split w us (p ∷ vs) n

  opened-same : opened p ≡ at p
  unfolding opened
  opened-same = set_prev-first at vs (some w) p parts.1.0

  joined : ℕ → Node
  joined = set_next (set_links opened w (first vs none) (some p)) (some p) (some w)

  link_below-joined : link_below at p w ≡ joined
  unfolding link_below joined opened
  link_below-joined =
      ap (λ (k : ℕ → Node). set_next (set_links k w (k p).next (some p)) (some p) (some w))
        (ap (λ o. set_prev at o (some w)) stretches.1.1)
      ∙ ap (λ o. set_next (set_links opened w o (some p)) (some p) (some w))
          (ap (λ (r : Node). r.next) opened-same ∙ stretches.1.1)

  joined-Linked : Linked joined none (us ++ p ∷ w ∷ vs) none
  unfolding joined opened
  joined-Linked =
      Linked-join joined none us (p ∷ w ∷ vs) none
        (Linked-update (set_links opened w (first vs none) (some p)) none us (some p) p _
          (Outside-head us p vs parts.2)
          (Linked-set_links opened none us (some p) w (first vs none) (some p) new_out.0 (
            Linked-set_prev at none us (some p) (first vs none) (some w)
              (Without-first us vs (Outside-tail us p vs parts.2)) stretches.0)))
        (
          ground (arith, prev_p, new_out.1.0),
          ground arith,
          (
            ground (arith, new_out.1.0),
            ground (arith, new_out.1.0),
            Linked-update (set_links opened w (first vs none) (some p)) (some w) vs none p _
                parts.1.0
                (Linked-set_links opened (some w) vs none w (first vs none) (some p) new_out.1.1
                  (relink_start at (some p) vs (some w) parts.1.1 stretches.1.2)),
          ),
        )
    where
      prev_p : (opened p).prev ≡ final none us
      prev_p = ap (λ (r : Node). r.prev) opened-same ∙ stretches.1.0

  link_below-Listed :
      Listed
        (record { top = first (us ++ p ∷ w ∷ vs) none; at = link_below at p w })
        (us ++ p ∷ w ∷ vs)
  link_below-Listed = record {
    top = refl;
    linked = rw link_below-joined joined-Linked;
    distinct =
        Distinct-join us (p ∷ w ∷ vs) parts.0
          (((λ e. new_out.1.0 (sym e)), parts.1.0), (new_out.1.1, parts.1.1))
          (Outside-insert us p w vs new_out.0 parts.2);
  }

-- From the top down no zindex is above the one before.
abbrev pub Capped : (ℕ → Node) → ℕ → List ℕ → Type 0
Capped at x [] = Unit
Capped at x (y ∷ ys) = (at y).zindex ≤ℤ (at x).zindex

abbrev pub Falling : (ℕ → Node) → List ℕ → Type 0
Falling at [] = Unit
Falling at (x ∷ xs) = Capped at x xs × Falling at xs

placed-Capped :
    (at : ℕ → Node) (w u : ℕ) (us : List ℕ)
    → (at w).zindex ≤ℤ (at u).zindex
    → Capped at u us
    → Capped at u (placed at w us)
unfolding placed
placed-Capped at w u [] h c = h
placed-Capped at w u (v ∷ us) h c = elim (Bool-cases (ltb_ℤ (at v).zindex (at w).zindex)) [
  | inl e ↦ rw e h
  | inr e ↦ rw e c
]

placed-Falling : (at : ℕ → Node) (w : ℕ) (us : List ℕ) → Falling at us → Falling at (placed at w us)
unfolding placed
placed-Falling at w [] f = (tt, tt)
placed-Falling at w (u ∷ us) f = elim (Bool-cases (ltb_ℤ (at u).zindex (at w).zindex)) [
  | inl e ↦ rw e (ground (arith, e), f)
  | inr e ↦ rw e (placed-Capped at w u us (ground (arith, e)) f.0, placed-Falling at w us f.1)
]

insert_below :
    (w : ℕ) (s : Stack) (t : ℕ) (ts : List ℕ) (p : ℕ)
    → Listed s (t ∷ ts)
    → NotIn w (t ∷ ts)
    → Splits s.at w t ts p
    → Listed (record s { at = link_below s.at p w }) (t ∷ placed s.at w ts)
insert_below w s t ts p h n (us, vs, a, b) =
    let d : Distinct (us ++ p ∷ vs) = subst Distinct a h.distinct in
    let m : NotIn w (us ++ p ∷ vs) = subst (NotIn w) a n in
    let l : Linked s.at none (us ++ p ∷ vs) none =
      subst (λ xs. Linked s.at none xs none) a h.linked in
    let now = link_below-Listed s.at us p vs w d m l in
    record {
      top = h.top;
      linked = subst (λ xs. Linked (link_below s.at p w) none xs none) (sym b) now.linked;
      distinct = subst Distinct (sym b) now.distinct;
    }

-- The links alone change.
SameOrder : (ℕ → Node) → (ℕ → Node) → Type 0
SameOrder at at' = (u : ℕ) → (at' u).zindex ≡ (at u).zindex

set_prev-SameOrder : (at : ℕ → Node) (o v : Option ℕ) → SameOrder at (set_prev at o v)
unfolding SameOrder
set_prev-SameOrder at none v u = refl
set_prev-SameOrder at (some p) v u = ground arith

insert_top-SameOrder : (w : ℕ) (s : Stack) → SameOrder s.at (insert_top w s).at
unfolding SameOrder insert_top
insert_top-SameOrder w s u =
    (let e : (set_links (set_prev s.at s.top (some w)) w s.top none u).zindex
          ≡ (set_prev s.at s.top (some w) u).zindex =
        ground arith in
      e)
    ∙ set_prev-SameOrder s.at s.top (some w) u

link_below-SameOrder : (at : ℕ → Node) (p w : ℕ) → SameOrder at (link_below at p w)
unfolding SameOrder link_below
link_below-SameOrder at p w u =
    (let e : (link_below at p w u).zindex ≡ (set_prev at (at p).next (some w) u).zindex =
        ground arith in
      e)
    ∙ set_prev-SameOrder at (at p).next (some w) u

Falling-SameOrder :
    (at at' : ℕ → Node) (ws : List ℕ) → SameOrder at at' → Falling at ws → Falling at' ws
unfolding SameOrder
Falling-SameOrder at at' [] e f = tt
Falling-SameOrder at at' (w ∷ []) e f = f
Falling-SameOrder at at' (w ∷ u ∷ us) e f =
    (rw (e w, e u) f.0, Falling-SameOrder at at' (u ∷ us) e f.1)

abbrev Inserted : ℕ → Stack → List ℕ → Option ℕ × Stack → Type 0
Inserted w s ws o = (o.0 ≡ some w) × Listed o.1 (placed s.at w ws) × SameOrder s.at o.1.at

insert-Inserted :
    (w : ℕ) (s : Stack) (ws : List ℕ)
    → Listed s ws
    → NotIn w ws
    → length ws ≤ max_insert_levels + 1
    → Inserted w s ws (insert (some w) s)
unfolding insert placed
insert-Inserted w s [] h n fits =
    rw (h.top, insert) (refl, insert_top-Listed w s [] h n, insert_top-SameOrder w s)
insert-Inserted w s (t ∷ ts) h n fits =
    rw (h.top, insert)
      (elim (Bool-cases (ltb_ℤ (s.at t).zindex (s.at w).zindex)) [
        | inl e ↦ rw e (refl, insert_top-Listed w s (t ∷ ts) h n, insert_top-SameOrder w s)
        | inr e ↦ rw e (
          refl,
          insert_below w s t ts _ h n
              (window_above-Splits max_insert_levels s.at w none t ts h.linked (omega arith)),
          link_below-SameOrder s.at _ w,
        )
      ])

-- Up to 257 windows, a window that the stack does not have is inserted in front of the first one
-- with a lower zindex; a stack in falling order of zindex stays so.
pub insert_lem :
    (w : ℕ) (s : Stack) (ws : List ℕ)
    → Listed s ws
    → NotIn w ws
    → length ws ≤ max_insert_levels + 1
    → ((insert (some w) s).0 ≡ some w)
      × Listed (insert (some w) s).1 (placed s.at w ws)
      × (Falling s.at ws → Falling (insert (some w) s).1.at (placed s.at w ws))
insert_lem w s ws h n fits =
    let (returns, listed, same) = insert-Inserted w s ws h n fits in
    (
      returns,
      listed,
      λ f. Falling-SameOrder s.at _ (placed s.at w ws) same (placed-Falling s.at w ws f),
    )
