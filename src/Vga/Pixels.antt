-- ===== src/Vga/Pixels.antt =====
-- The image under the mouse pointer (devices/vga.cpp): pixels that are saved, drawn over and put
-- back.
use shipwreck.Base.{
  ℕ, zero, suc, ◌+◌, ◌*◌, ◌<◌, ◌≤◌, ◌≡◌, ◌≢◌, ◌∙◌, ◌⊎◌, inl, inr, refl, sym, ap, ap₂, Bool, true,
  false, ◌==◌, if◌then◌else◌, update, arith, dec_lt, ℕ_discrete, update_ne, update_self,
}
use shipwreck.Vga.{
  Frame, Screen, pixel_offset, get_column, get_columns, get_pixels, put_column, put_columns,
  put_pixels,
}
use shipwreck.Vga.Fill.{row_step}

write_right : (g f : Frame) (n o : ℕ) → (g o ≡ f o) ⊎ (o ≡ n) → update g n (f n) o ≡ f o
write_right g f n o q = elim (ℕ_discrete n o) [
  | yes same ↦ ap (update g n (f n)) (sym same) ∙ update_self g n (f n) ∙ ap f same
  | no other ↦ update_ne g n (f n) o other ∙ elim q [ inl e ↦ e | inr e ↦ absurd (other (sym e)) ]
]

if_away : (b : Bool) (g : Frame) (n o v : ℕ) → n ≢ o → (if b then g else update g n v) o ≡ g o
if_away true g n o v ne = refl
if_away false g n o v ne = update_ne g n v o ne

module _ (s : Screen) (sx sy h : ℕ) where
  abbrev off : ℕ → ℕ → ℕ
  off x y = pixel_offset s (x + sx) (y + sy)

  -- The bitmap has what the screen shows from (sx, sy) on, `w` by `h`.
  abbrev Saved : ℕ → Frame → (ℕ → ℕ) → Type 0
  Saved w f buf = (x y : ℕ) → x < w → y < h → buf (x * h + y) ≡ f (off x y)

  -- The slots before (x, y), column by column, have their pixels.
  abbrev Done : Frame → ℕ → ℕ → (ℕ → ℕ) → Type 0
  Done f x y buf = (z v : ℕ) → v < h → (z < x) ⊎ ((z ≡ x) × (v < y)) → buf (z * h + v) ≡ f (off z v)

  slot_later : (x y z v : ℕ) → v < h → (z < x) ⊎ ((z ≡ x) × (v < y)) → x * h + y ≢ z * h + v
  slot_later x y z v k (inl lt) e = omega (arith, row_step h z x lt, e)
  slot_later x y z v k (inr q) e = omega (arith, q.1, ap (λ t. t * h) q.0, e)

  -- The slot written is the one after them.
  Done-update :
      (f : Frame) (x y : ℕ) (buf : ℕ → ℕ)
      → Done f x y buf
      → Done f x (y + 1) (update buf (x * h + y) (f (off x y)))
  Done-update f x y buf d z v k (inl lt) =
      update_ne buf _ _ _ (slot_later x y z v k (inl lt)) ∙ d z v k (inl lt)
  Done-update f x y buf d z v k (inr (e, lt)) = elim (dec_lt v y) [
    | yes less ↦
        update_ne buf _ _ _ (slot_later x y z v k (inr (e, less))) ∙ d z v k (inr (e, less))
    | no ge ↦
        let last : y ≡ v = omega arith in
        let same : z * h + v ≡ x * h + y = omega (arith, last, ap (λ t. t * h) e) in
        ap (update buf (x * h + y) (f (off x y))) same
        ∙ update_self buf (x * h + y) (f (off x y))
        ∙ ap₂ (λ a b. f (off a b)) (sym e) last
  ]

  get_column_lem :
      (left x y : ℕ) (f : Frame) (buf : ℕ → ℕ)
      → y + left ≡ h
      → Done f x y buf
      → Done f (x + 1) 0 (get_column s left sx sy h x y f buf)
  unfolding get_column
  get_column_lem zero x y f buf e d z v k before =
      d z v k (elim (dec_lt z x) [ yes lt ↦ inl lt | no ge ↦ inr (omega arith, omega arith) ])
  get_column_lem (suc left) x y f buf e d z v k before =
      get_column_lem left x (y + 1) f (update buf (x * h + y) (f (off x y))) (omega arith)
        (Done-update f x y buf d) z v k before

  get_columns_lem :
      (left x : ℕ) (f : Frame) (buf : ℕ → ℕ)
      → Done f x 0 buf
      → Done f (x + left) 0 (get_columns s left sx sy h x f buf)
  unfolding get_columns
  get_columns_lem zero x f buf d z v k before = d z v k (inl (omega arith))
  get_columns_lem (suc left) x f buf d z v k before =
      get_columns_lem left (x + 1) f (get_column s h sx sy h x 0 f buf)
        (get_column_lem h x 0 f buf (omega arith) d) z v k (inl (omega arith))

  -- What is put back where the bitmap has the frame's own pixels, none of them 1.
  module _ (w : ℕ) (f : Frame) (buf : ℕ → ℕ) (saved : Saved w f buf)
      (shown : (x y : ℕ) → x < w → y < h → (f (off x y) == 1) ≡ false) where
    put_one :
        (x y : ℕ) (g : Frame)
        → x < w
        → y < h
        → (if buf (x * h + y) == 1 then g else update g (off x y) (buf (x * h + y)))
          ≡ update g (off x y) (f (off x y))
    put_one x y g lt k = rw (saved x y lt k, shown x y lt k) refl

    -- A pixel that is right, or is written in the column, is right afterwards.
    put_column_lem :
        (left x y : ℕ) (g : Frame) (o : ℕ)
        → x < w
        → y + left ≤ h
        → (g o ≡ f o) ⊎ ((v : ℕ) × (y ≤ v) × (v < y + left) × (o ≡ off x v))
        → put_column s left sx sy h x y buf g o ≡ f o
    unfolding put_column
    put_column_lem zero x y g o lt le (inl e) = e
    put_column_lem zero x y g o lt le (inr q) = absurd (omega arith)
    put_column_lem (suc left) x y g o lt le q =
        ap (λ g'. put_column s left sx sy h x (y + 1) buf g' o) (put_one x y g lt (omega arith))
        ∙ put_column_lem left x (y + 1) (update g (off x y) (f (off x y))) o lt (omega arith)
            (elim q [
              | inl e ↦ inl (write_right g f (off x y) o (inl e))
              | inr (v, lo, hi, e) ↦ elim (ℕ_discrete v y) [
                | yes same ↦ inl (write_right g f (off x y) o (inr (e ∙ ap (off x) same)))
                | no other ↦ inr (v, omega (arith, other), omega arith, e)
              ]
            ])

    put_columns_lem :
        (left x : ℕ) (g : Frame) (o : ℕ)
        → x + left ≤ w
        → (g o ≡ f o) ⊎ ((z v : ℕ) × (x ≤ z) × (z < x + left) × (v < h) × (o ≡ off z v))
        → put_columns s left sx sy h x buf g o ≡ f o
    unfolding put_columns
    put_columns_lem zero x g o le (inl e) = e
    put_columns_lem zero x g o le (inr q) = absurd (omega arith)
    put_columns_lem (suc left) x g o le q =
        put_columns_lem left (x + 1) (put_column s h sx sy h x 0 buf g) o (omega arith) (elim q [
          | inl e ↦ inl (put_column_lem h x 0 g o (omega arith) (omega arith) (inl e))
          | inr (z, v, lo, hi, k, e) ↦ elim (ℕ_discrete z x) [
            | yes same ↦ inl (
                put_column_lem h x 0 g o (omega arith) (omega arith)
                  (inr (v, omega arith, omega arith, e ∙ ap (λ a. off a v) same)))
            | no other ↦ inr (z, v, omega (arith, other), omega arith, k, e)
          ]
        ])

  -- Where a pixel has changed, a bitmap was put over it.
  put_column_frame :
      (left x y : ℕ) (buf : ℕ → ℕ) (g : Frame) (o : ℕ)
      → y + left ≤ h
      → (put_column s left sx sy h x y buf g o ≡ g o) ⊎ ((v : ℕ) × (v < h) × (o ≡ off x v))
  unfolding put_column
  put_column_frame zero x y buf g o le = inl refl
  put_column_frame (suc left) x y buf g o le =
      let g' : Frame = if buf (x * h + y) == 1 then g else update g (off x y) (buf (x * h + y)) in
      elim (put_column_frame left x (y + 1) buf g' o (omega arith)) [
        | inr q ↦ inr q
        | inl e ↦ elim (ℕ_discrete (off x y) o) [
          | yes here ↦ inr (y, omega arith, sym here)
          | no away ↦ inl (e ∙ if_away (buf (x * h + y) == 1) g (off x y) o (buf (x * h + y)) away)
        ]
      ]

  put_columns_frame :
      (left x w : ℕ) (buf : ℕ → ℕ) (g : Frame) (o : ℕ)
      → x + left ≤ w
      → (put_columns s left sx sy h x buf g o ≡ g o)
        ⊎ ((z v : ℕ) × (z < w) × (v < h) × (o ≡ off z v))
  unfolding put_columns
  put_columns_frame zero x w buf g o le = inl refl
  put_columns_frame (suc left) x w buf g o le =
      elim (put_columns_frame left (x + 1) w buf (put_column s h sx sy h x 0 buf g) o
        (omega arith)) [
          | inr q ↦ inr q
          | inl e ↦ elim (put_column_frame h x 0 buf g o (omega arith)) [
            | inr (v, k, at) ↦ inr (x, v, omega arith, k, at)
            | inl e' ↦ inl (e ∙ e')
          ]
        ]

-- Where no pixel of the area has the value 1: after `get_pixels` has saved the area and
-- `put_pixels` has drawn any image over it, `put_pixels` of what was saved restores every pixel of
-- the screen, also where the area reaches past the end of a row.
pub put_pixels-get_pixels :
    (s : Screen) (sx sy w h : ℕ) (image buf : ℕ → ℕ) (f : Frame)
    → ((x y : ℕ) → x < w → y < h → (f (pixel_offset s (x + sx) (y + sy)) == 1) ≡ false)
    → (o : ℕ)
    → put_pixels s sx sy w h (get_pixels s sx sy w h f buf) (put_pixels s sx sy w h image f) o ≡ f o
unfolding put_pixels get_pixels
put_pixels-get_pixels s sx sy w h image buf f shown o =
    let saved : (x y : ℕ)
        → x < w
        → y < h
        → get_columns s w sx sy h 0 f buf (x * h + y) ≡ f (pixel_offset s (x + sx) (y + sy)) =
      λ x y lt k.
        get_columns_lem s sx sy h w 0 f buf (λ z v k' q. absurd (omega arith)) x y k
          (inl (omega arith)) in
    put_columns_lem s sx sy h w f (get_columns s w sx sy h 0 f buf) saved shown w 0
      (put_columns s w sx sy h 0 image f) o (omega arith)
      (elim (put_columns_frame s sx sy h w 0 w image f o (omega arith)) [
        | inl e ↦ inl e
        | inr (z, v, lt, k, e) ↦ inr (z, v, omega arith, omega arith, k, e)
      ])
