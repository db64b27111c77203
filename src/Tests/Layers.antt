-- ===== src/Tests/Layers.antt =====
-- The stack of windows (Gui/Stack.antt) with windows 1 and 2 in it.
use shipwreck.Base.{◌≡◌, refl, none, some, [], ◌∷◌, ◌==◌, arith, if◌then◌else◌}
use shipwreck.Base.Int.{pos}
use shipwreck.Gui.Stack.{Stack, insert}
use shipwreck.Gui.Stack.Windows.{Listed}
use shipwreck.Gui.Stack.Order.{placed, Falling, insert_lem}

abbrev two_layers : Stack
two_layers = record {
  top = some 1;
  at = λ u.
      if u == 1
      then record { zindex = pos 5; next = some 2; prev = none }
      else if u == 2
      then record { zindex = pos 3; next = none; prev = some 1 }
      else record { zindex = pos 4; next = none; prev = none };
}

two_layers-Listed : Listed two_layers (1 ∷ 2 ∷ [])
two_layers-Listed = record {
  top = refl;
  linked = (refl, refl, (refl, refl, tt));
  distinct = ((ground arith, tt), (tt, tt));
}

placed-two_layers : placed two_layers.at 7 (1 ∷ 2 ∷ []) ≡ 1 ∷ 7 ∷ 2 ∷ []
unfolding placed
placed-two_layers = refl

insert_lem_example :
    ((insert (some 7) two_layers).0 ≡ some 7)
    × Listed (insert (some 7) two_layers).1 (placed two_layers.at 7 (1 ∷ 2 ∷ []))
    × (Falling two_layers.at (1 ∷ 2 ∷ [])
        → Falling (insert (some 7) two_layers).1.at (placed two_layers.at 7 (1 ∷ 2 ∷ [])))
insert_lem_example =
    insert_lem 7 two_layers (1 ∷ 2 ∷ []) two_layers-Listed (ground arith, (ground arith, tt))
      (omega arith)
