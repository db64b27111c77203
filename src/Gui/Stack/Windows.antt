-- ===== src/Gui/Stack/Windows.antt =====
-- `GUIWindowStack` (system/gui.cpp) as a list of windows.
use shipwreck.Base.{
  ℕ, ◌≡◌, ◌∙◌, refl, sym, ap, ap₂, Option, none, some, List, [], ◌∷◌, ◌++◌, arith, update_ne, NotIn,
  Distinct, Outside, NotIn-split, Distinct-split, Distinct-join, Outside-head, Outside-tail,
  if◌then◌else◌,
}
use shipwreck.Gui.Stack.{
  Node, Stack, set_next, set_prev, set_links, is_top, push, detach, insert_top,
}
use shipwreck.Gui.Stack.Links.{
  first, final, Linked, Without, Linked-update, Linked-set_links, Linked-set_next, Linked-set_prev,
  Linked-join, Linked-split, relink_end, relink_start, Without-final,
}

-- The stack has these windows, from the top down, linked both ways.
pub record Listed (s : Stack) (ws : List ℕ) : Type 0 where
  pub top : s.top ≡ first ws none
  pub linked : Linked s.at none ws none
  pub distinct : Distinct ws

pub insert_top-Listed :
    (w : ℕ) (s : Stack) (ws : List ℕ) → Listed s ws → NotIn w ws → Listed (insert_top w s) (w ∷ ws)
unfolding insert_top
insert_top-Listed w s ws h n = record {
  top = refl;
  linked = (
    ground arith,
    ground (arith, h.top),
    Linked-update _ (some w) ws none w _ n
        (rw h.top (relink_start s.at none ws (some w) h.distinct h.linked)),
  );
  distinct = (n, h.distinct);
}

-- A window that the stack does not have is pushed on its top.
pub push_lem :
    (w : ℕ) (s : Stack) (ws : List ℕ)
    → Listed s ws
    → NotIn w ws
    → ((push (some w) s).0 ≡ some w) × Listed (push (some w) s).1 (w ∷ ws)
unfolding push
push_lem w s [] h n =
    rw (h.top, push)
      (refl, record { top = refl; linked = (ground arith, ground arith, tt); distinct = (tt, tt) })
push_lem w s (t ∷ ts) h n =
    rw (h.top, push)
      (
        refl,
        record {
          top = refl;
          linked = (
            ground (arith, n.0),
            ground (arith, n.0),
            relink_start (set_links s.at w (some t) none) none (t ∷ ts) (some w) h.distinct
                (Linked-update s.at none (t ∷ ts) none w _ n h.linked),
          );
          distinct = (n, h.distinct);
        },
      )

pub set_prev-first :
    (at : ℕ → Node) (ys : List ℕ) (v : Option ℕ) (w : ℕ)
    → NotIn w ys
    → set_prev at (first ys none) v w ≡ at w
set_prev-first at [] v w n = refl
set_prev-first at (y ∷ ys) v w n = update_ne at y _ w (λ e. n.0 (sym e))

pub Without-first : (xs ys : List ℕ) → Outside xs ys → Without (first ys none) xs
Without-first xs [] o = tt
Without-first xs (y ∷ ys) o = Outside-head xs y ys o

module _ (at : ℕ → Node) (xs : List ℕ) (w : ℕ) (ys : List ℕ) (d : Distinct (xs ++ w ∷ ys))
    (l : Linked at none (xs ++ w ∷ ys) none) where
  cut_out : ℕ → Node
  cut_out =
      let at₁ = set_prev at (at w).next (at w).prev in
      set_links (set_next at₁ (at₁ w).prev (at₁ w).next) w none none

  parts : Distinct xs × Distinct (w ∷ ys) × Outside xs (w ∷ ys)
  parts = Distinct-split xs (w ∷ ys) d

  stretches : Linked at none xs (some w) × Linked at (final none xs) (w ∷ ys) none
  stretches = Linked-split at none xs (w ∷ ys) none l

  closed : ℕ → Node
  closed = set_prev at (first ys none) (final none xs)

  closed-same : closed w ≡ at w
  unfolding closed
  closed-same = set_prev-first at ys (final none xs) w parts.1.0

  cut_out-closed : cut_out ≡ set_links (set_next closed (final none xs) (first ys none)) w none none
  unfolding cut_out closed
  cut_out-closed =
      ap (λ (k : ℕ → Node). set_links (set_next k (k w).prev (k w).next) w none none)
        (ap₂ (set_prev at) stretches.1.1 stretches.1.0)
      ∙ ap₂ (λ (p n : Option ℕ). set_links (set_next closed p n) w none none)
          (ap (λ (r : Node). r.prev) closed-same ∙ stretches.1.0)
          (ap (λ (r : Node). r.next) closed-same ∙ stretches.1.1)

  bridged : ℕ → Node
  bridged = set_next closed (final none xs) (first ys none)

  cut_out-Linked : Linked cut_out none (xs ++ ys) none
  unfolding closed bridged
  cut_out-Linked = rw cut_out-closed (
      Linked-join (set_links bridged w none none) none xs ys none
        (Linked-set_links bridged none xs _ w none none (Outside-head xs w ys parts.2) (
          relink_end closed none xs (some w) (first ys none) parts.0 (
            Linked-set_prev at none xs (some w) (first ys none) (final none xs) first_out
              stretches.0)))
        (Linked-set_links bridged (final none xs) ys none w none none parts.1.0 (
          Linked-set_next closed (final none xs) ys none (final none xs) (first ys none)
            (Without-final xs ys (Outside-tail xs w ys parts.2))
            (relink_start at (some w) ys (final none xs) parts.1.1 stretches.1.2))))
    where
      first_out : Without (first ys none) xs
      first_out = Without-first xs ys (Outside-tail xs w ys parts.2)

top_after :
    (s : Stack) (xs : List ℕ) (w : ℕ) (ys : List ℕ)
    → Listed s (xs ++ w ∷ ys)
    → (if is_top s.top w then (s.at w).next else s.top) ≡ first (xs ++ ys) none
top_after s [] w ys h = rw h.top (ground (arith, h.linked.1))
top_after s (x ∷ xs) w ys h =
    rw h.top (ground (arith, (NotIn-split x xs (w ∷ ys) h.distinct.0).1.0))

-- A window of the stack, wherever it stands, is detached: the others stay in their order, and the
-- window keeps no links.
pub detach_lem :
    (s : Stack) (xs : List ℕ) (w : ℕ) (ys : List ℕ)
    → Listed s (xs ++ w ∷ ys)
    → ((detach (some w) s).0 ≡ some w)
      × Listed (detach (some w) s).1 (xs ++ ys)
      × (((detach (some w) s).1.at w).next ≡ none)
      × (((detach (some w) s).1.at w).prev ≡ none)
unfolding detach cut_out
detach_lem s xs w ys h =
    let (a, b, c) = Distinct-split xs (w ∷ ys) h.distinct in
    (
      refl,
      record {
        top = top_after s xs w ys h;
        linked = cut_out-Linked s.at xs w ys h.distinct h.linked;
        distinct = Distinct-join xs ys a b.1 (Outside-tail xs w ys c);
      },
      ground arith,
      ground arith,
    )
