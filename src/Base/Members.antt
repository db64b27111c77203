-- ===== src/Base/Members.antt =====
-- Lists of distinct numbers.
use Prim.Native.Nat.{ℕ}
use mathlib.Core.Logic.{◌≢◌}
use mathlib.Core.Path.{sym}
use mathlib.Core.List.{List, [], ◌∷◌, ◌++◌}

abbrev pub NotIn : ℕ → List ℕ → Type 0
NotIn t [] = Unit
NotIn t (u ∷ us) = (t ≢ u) × NotIn t us

abbrev pub Distinct : List ℕ → Type 0
Distinct [] = Unit
Distinct (t ∷ ts) = NotIn t ts × Distinct ts

pub NotIn-append : (t : ℕ) (ts : List ℕ) (u : ℕ) → NotIn t ts → t ≢ u → NotIn t (ts ++ u ∷ [])
NotIn-append t [] u n h = (h, tt)
NotIn-append t (v ∷ ts) u n h = (n.0, NotIn-append t ts u n.1 h)

pub Distinct-append : (ts : List ℕ) (u : ℕ) → Distinct ts → NotIn u ts → Distinct (ts ++ u ∷ [])
Distinct-append [] u d n = (tt, tt)
Distinct-append (t ∷ ts) u d n =
    (NotIn-append t ts u d.0 (λ e. n.0 (sym e)), Distinct-append ts u d.1 n.1)

-- No member of the first list is in the second.
abbrev pub Outside : List ℕ → List ℕ → Type 0
Outside [] ys = Unit
Outside (x ∷ xs) ys = NotIn x ys × Outside xs ys

pub NotIn-split : (t : ℕ) (xs ys : List ℕ) → NotIn t (xs ++ ys) → NotIn t xs × NotIn t ys
NotIn-split t [] ys n = (tt, n)
NotIn-split t (x ∷ xs) ys n = let (a, b) = NotIn-split t xs ys n.1 in ((n.0, a), b)

pub NotIn-join : (t : ℕ) (xs ys : List ℕ) → NotIn t xs → NotIn t ys → NotIn t (xs ++ ys)
NotIn-join t [] ys n m = m
NotIn-join t (x ∷ xs) ys n m = (n.0, NotIn-join t xs ys n.1 m)

pub Distinct-split :
    (xs ys : List ℕ) → Distinct (xs ++ ys) → Distinct xs × Distinct ys × Outside xs ys
Distinct-split [] ys d = (tt, d, tt)
Distinct-split (x ∷ xs) ys d =
    let (a, b, c) = Distinct-split xs ys d.1 in
    let (n, m) = NotIn-split x xs ys d.0 in ((n, a), b, (m, c))

pub Distinct-join :
    (xs ys : List ℕ) → Distinct xs → Distinct ys → Outside xs ys → Distinct (xs ++ ys)
Distinct-join [] ys d e o = e
Distinct-join (x ∷ xs) ys d e o = (NotIn-join x xs ys d.0 o.0, Distinct-join xs ys d.1 e o.1)

pub Outside-head : (xs : List ℕ) (y : ℕ) (ys : List ℕ) → Outside xs (y ∷ ys) → NotIn y xs
Outside-head [] y ys o = tt
Outside-head (x ∷ xs) y ys o = ((λ e. o.0.0 (sym e)), Outside-head xs y ys o.1)

pub Outside-tail : (xs : List ℕ) (y : ℕ) (ys : List ℕ) → Outside xs (y ∷ ys) → Outside xs ys
Outside-tail [] y ys o = tt
Outside-tail (x ∷ xs) y ys o = (o.0.1, Outside-tail xs y ys o.1)

pub Outside-cons :
    (xs : List ℕ) (y : ℕ) (ys : List ℕ) → NotIn y xs → Outside xs ys → Outside xs (y ∷ ys)
Outside-cons [] y ys n o = tt
Outside-cons (x ∷ xs) y ys n o = (((λ e. n.0 (sym e)), o.0), Outside-cons xs y ys n.1 o.1)
