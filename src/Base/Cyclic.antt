-- ===== src/Base/Cyclic.antt =====
-- Counting round a circle of `n` places.
use Prim.Native.Nat.{ℕ, ◌+◌, ◌-◌, ◌%◌, ◌<◌}
use mathlib.Core.Path.{sym, ◌∙◌}
use mathlib.Core.Logic.{◌≢◌}
use native.Mathlib.Nat.{mod-eq_of_lt, mod-eq-sub-mod, mod-add-mod}
use native.Mathlib.Decide.{dec_lt}
use native.Mathlib.Omega.{arith}

-- Fewer than `n` steps round `n` places do not come back.
pub add-mod-ne : (p i n : ℕ) → p < n → 0 < i → i < n → (p + i) % n ≢ p
add-mod-ne p i n hp hi hn = elim (dec_lt (p + i) n) [
  | yes lt ↦ omega (arith, mod-eq_of_lt lt)
  | no ge ↦ omega (
    arith,
    mod-eq-sub-mod {n = p + i} {m = n} (omega arith),
    mod-eq_of_lt {n = p + i - n} {m = n} (omega arith),
  )
]

-- Two indices fewer than `n` apart have different places.
pub mod-ne : (n i d : ℕ) → 0 < d → d < n → i % n ≢ (i + d) % n
mod-ne n i d hd hn e = add-mod-ne (i % n) d n (omega arith) hd hn (mod-add-mod i n d ∙ sym e)
