-- ===== src/Gui/Stack/Links.antt =====
-- Stretches of a doubly linked list (system/gui.cpp), and how they are cut and joined.
use shipwreck.Base.{
  ℕ, ◌≡◌, refl, sym, Option, none, some, List, [], ◌∷◌, ◌++◌, arith, update, update_ne, NotIn,
  Distinct, Outside, ◌∙◌,
}
use shipwreck.Gui.Stack.{Node, set_next, set_prev, set_links}

abbrev pub first : List ℕ → Option ℕ → Option ℕ
first [] nx = nx
first (x ∷ xs) nx = some x

abbrev pub final : Option ℕ → List ℕ → Option ℕ
final pr [] = pr
final pr (x ∷ xs) = final (some x) xs

-- The windows are linked both ways, in this order, after `pr` and before `nx`.
abbrev pub Linked : (ℕ → Node) → Option ℕ → List ℕ → Option ℕ → Type 0
Linked at pr [] nx = Unit
Linked at pr (x ∷ xs) nx =
    ((at x).prev ≡ pr) × ((at x).next ≡ first xs nx) × Linked at (some x) xs nx

abbrev pub Without : Option ℕ → List ℕ → Type 0
Without none xs = Unit
Without (some u) xs = NotIn u xs

pub Linked-update :
    (at : ℕ → Node) (pr : Option ℕ) (xs : List ℕ) (nx : Option ℕ) (u : ℕ) (v : Node)
    → NotIn u xs
    → Linked at pr xs nx
    → Linked (update at u v) pr xs nx
Linked-update at pr [] nx u v n l = tt
Linked-update at pr (x ∷ xs) nx u v n l = (
  rw (update_ne at u v x n.0) l.0,
  rw (update_ne at u v x n.0) l.1,
  Linked-update at (some x) xs nx u v n.1 l.2,
)

pub Linked-set_links :
    (at : ℕ → Node) (pr : Option ℕ) (xs : List ℕ) (nx : Option ℕ) (u : ℕ) (next prev : Option ℕ)
    → NotIn u xs
    → Linked at pr xs nx
    → Linked (set_links at u next prev) pr xs nx
Linked-set_links at pr xs nx u next prev n l = Linked-update at pr xs nx u _ n l

pub Linked-set_next :
    (at : ℕ → Node) (pr : Option ℕ) (xs : List ℕ) (nx o v : Option ℕ)
    → Without o xs
    → Linked at pr xs nx
    → Linked (set_next at o v) pr xs nx
Linked-set_next at pr xs nx none v n l = l
Linked-set_next at pr xs nx (some u) v n l = Linked-update at pr xs nx u _ n l

pub Linked-set_prev :
    (at : ℕ → Node) (pr : Option ℕ) (xs : List ℕ) (nx o v : Option ℕ)
    → Without o xs
    → Linked at pr xs nx
    → Linked (set_prev at o v) pr xs nx
Linked-set_prev at pr xs nx none v n l = l
Linked-set_prev at pr xs nx (some u) v n l = Linked-update at pr xs nx u _ n l

pub first-append : (xs ys : List ℕ) (nx : Option ℕ) → first xs (first ys nx) ≡ first (xs ++ ys) nx
first-append [] ys nx = refl
first-append (x ∷ xs) ys nx = refl

pub Linked-join :
    (at : ℕ → Node) (pr : Option ℕ) (xs ys : List ℕ) (nx : Option ℕ)
    → Linked at pr xs (first ys nx)
    → Linked at (final pr xs) ys nx
    → Linked at pr (xs ++ ys) nx
Linked-join at pr [] ys nx l m = m
Linked-join at pr (x ∷ xs) ys nx l m =
    (l.0, l.1 ∙ first-append xs ys nx, Linked-join at (some x) xs ys nx l.2 m)

pub Linked-split :
    (at : ℕ → Node) (pr : Option ℕ) (xs ys : List ℕ) (nx : Option ℕ)
    → Linked at pr (xs ++ ys) nx
    → Linked at pr xs (first ys nx) × Linked at (final pr xs) ys nx
Linked-split at pr [] ys nx l = (tt, l)
Linked-split at pr (x ∷ xs) ys nx l =
    let (a, b) = Linked-split at (some x) xs ys nx l.2 in
    ((l.0, l.1 ∙ sym (first-append xs ys nx), a), b)

-- The last window of a stretch is not one outside it.
pub set_next-final :
    (at : ℕ → Node) (x : ℕ) (pr : Option ℕ) (y : ℕ) (ys : List ℕ) (v : Option ℕ)
    → NotIn x (y ∷ ys)
    → set_next at (final pr (y ∷ ys)) v x ≡ at x
set_next-final at x pr y [] v n = update_ne at y _ x (λ e. n.0 (sym e))
set_next-final at x pr y (z ∷ zs) v n = set_next-final at x (some y) z zs v n.1

-- What stands after a stretch, or before it, is changed at its end.
pub relink_end :
    (at : ℕ → Node) (pr : Option ℕ) (xs : List ℕ) (nx v : Option ℕ)
    → Distinct xs
    → Linked at pr xs nx
    → Linked (set_next at (final pr xs) v) pr xs v
relink_end at pr [] nx v d l = tt
relink_end at pr (x ∷ []) nx v d l = (ground (arith, l.0), ground arith, tt)
relink_end at pr (x ∷ y ∷ ys) nx v d l =
    let e : set_next at (final (some x) (y ∷ ys)) v x ≡ at x =
      set_next-final at x (some x) y ys v d.0 in
    (rw e l.0, rw e l.1, relink_end at (some x) (y ∷ ys) nx v d.1 l.2)

pub relink_start :
    (at : ℕ → Node) (pr : Option ℕ) (xs : List ℕ) (v : Option ℕ)
    → Distinct xs
    → Linked at pr xs none
    → Linked (set_prev at (first xs none) v) v xs none
relink_start at pr [] v d l = tt
relink_start at pr (x ∷ xs) v d l =
    (ground arith, ground (arith, l.1), Linked-update at (some x) xs none x _ d.0 l.2)

pub Without-final : (xs ys : List ℕ) → Outside xs ys → Without (final none xs) ys
Without-final [] ys o = tt
Without-final (x ∷ []) ys o = o.0
Without-final (x ∷ y ∷ xs) ys o = Without-final (y ∷ xs) ys o.1
