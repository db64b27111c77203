-- ===== src/Ps2/Mouse/Framing.antt =====
-- How `mouse_packet` (system/devices/ps2.cpp) finds the packets in a stream of bytes.
use shipwreck.Base.{
  ℕ, ◌+◌, ◌%◌, ◌<◌, ◌≡◌, ◌≢◌, ◌∙◌, refl, ap, ap₂, true, false, List, [], ◌∷◌, ◌++◌, arith,
  Bool-cases, inl, inr, leb, update, update_self, update_ne, if◌then◌else◌,
}
use shipwreck.Ps2.Mouse.{Sent, MouseState, Mouse, misaligned, packet, mouse_packet}
use shipwreck.Ps2.Mouse.Buttons.{mouse_bytes}

pub record Packet : Type 0 where
  pub b0 : ℕ
  pub b1 : ℕ
  pub b2 : ℕ
  pub tsc : ℕ

-- The packets of a stream behind the bytes held: three bytes make one if the first can start it,
-- else the first is dropped.
unfoldable pub frames : List ℕ → List (ℕ × ℕ) → List Packet
frames held [] = []
frames [] ((tsc, b) ∷ rest) = frames (b ∷ []) rest
frames (x ∷ []) ((tsc, b) ∷ rest) = frames (x ∷ b ∷ []) rest
frames (x ∷ y ∷ _) ((tsc, b) ∷ rest) =
    let skipped = frames (y ∷ b ∷ []) rest in
    let next = frames [] rest in
    if misaligned x then skipped else record { b0 = x; b1 = y; b2 = b; tsc = tsc } ∷ next

-- What the packets send, one after the other, and the state after them.
unfoldable pub handle : ℕ → ℕ → List Packet → MouseState → ℕ → List Sent × (MouseState × ℕ)
handle width height [] m old_tsc = ([], (m, old_tsc))
handle width height (p ∷ ps) m old_tsc =
    let (sent, (m', old_tsc')) = packet width height p.tsc old_tsc p.b0 p.b1 p.b2 m in
    let (more, last) = handle width height ps m' old_tsc' in (sent ++ more, last)

-- The driver's buffer holds these bytes, the oldest first.
abbrev pub Held : Mouse → List ℕ → Type 0
Held s [] = (s.index ≡ 0) × (s.num_packets ≡ 0)
Held s (x ∷ []) = (s.index ≡ 1) × (s.num_packets ≡ 1) × (s.buffer 0 ≡ x)
Held s (x ∷ y ∷ []) =
    (s.index < 3)
    × (s.num_packets ≡ 2)
    × (s.buffer ((s.index + 1) % 3) ≡ x)
    × (s.buffer ((s.index + 2) % 3) ≡ y)
Held s (x ∷ y ∷ z ∷ _) = ⊥

read_new : (f : ℕ → ℕ) (i b j : ℕ) → j ≡ i → update f i b j ≡ b
read_new f i b j e = ap (update f i b) e ∙ update_self f i b

read_old : (f : ℕ → ℕ) (i b j k : ℕ) → j ≡ k → i ≢ k → update f i b j ≡ f k
read_old f i b j k e n = ap (update f i b) e ∙ update_ne f i b k n

-- The driver takes a byte in, and does nothing else.
abbrev TakesIn : Mouse → List ℕ → List Sent × Mouse → Type 0
TakesIn s held o = (o.0 ≡ []) × Held o.1 held × (o.1.mouse ≡ s.mouse) × (o.1.old_tsc ≡ s.old_tsc)

oldest :
    (b : ℕ) (s : Mouse)
    → s.index < 3
    → update s.buffer s.index b ((s.index + 1) % 3) ≡ s.buffer ((s.index + 1) % 3)
oldest b s h = read_old s.buffer s.index b _ ((s.index + 1) % 3) refl (omega arith)

second :
    (b : ℕ) (s : Mouse)
    → s.index < 3
    → update s.buffer s.index b (((s.index + 1) % 3 + 1) % 3) ≡ s.buffer ((s.index + 2) % 3)
second b s h = read_old s.buffer s.index b _ ((s.index + 2) % 3) (omega arith) (omega arith)

mouse_packet-first :
    (width height tsc b : ℕ) (s : Mouse)
    → Held s []
    → TakesIn s (b ∷ []) (mouse_packet width height tsc b s)
unfolding mouse_packet
mouse_packet-first width height tsc b s h =
    let e : leb 3 (s.num_packets + 1) ≡ false = ground (arith, h.1) in
    rw e (refl, (ground (arith, h.0), ground (arith, h.1), ground (arith, h.0)), refl, refl)

mouse_packet-second :
    (width height tsc x b : ℕ) (s : Mouse)
    → Held s (x ∷ [])
    → TakesIn s (x ∷ b ∷ []) (mouse_packet width height tsc b s)
unfolding mouse_packet
mouse_packet-second width height tsc x b s h =
    let e : leb 3 (s.num_packets + 1) ≡ false = ground (arith, h.1) in
    rw e (
      refl,
      (
        ground (arith, h.0),
        ground (arith, h.1),
        read_old s.buffer s.index b _ 0 (omega (arith, h.0)) (omega (arith, h.0)) ∙ h.2,
        read_new s.buffer s.index b _ (omega (arith, h.0)),
      ),
      refl,
      refl,
    )

mouse_packet-skip :
    (width height tsc x y b : ℕ) (s : Mouse)
    → Held s (x ∷ y ∷ [])
    → misaligned x ≡ true
    → TakesIn s (y ∷ b ∷ []) (mouse_packet width height tsc b s)
unfolding mouse_packet
mouse_packet-skip width height tsc x y b s h m =
    let e : leb 3 (s.num_packets + 1) ≡ true = ground (arith, h.1) in
    let f : misaligned (update s.buffer s.index b ((s.index + 1) % 3)) ≡ true =
      ap misaligned (oldest b s h.0 ∙ h.2) ∙ m in
    rw (e, f)
      (
        refl,
        (
          omega arith,
          refl,
          second b s h.0 ∙ h.3,
          read_new s.buffer s.index b _ (omega (arith, h.0)),
        ),
        refl,
        refl,
      )

-- A whole packet is handled, and the buffer is empty.
mouse_packet-whole :
    (width height tsc x y b : ℕ) (s : Mouse)
    → Held s (x ∷ y ∷ [])
    → misaligned x ≡ false
    → let out = packet width height tsc s.old_tsc x y b s.mouse in
      ((mouse_packet width height tsc b s).0 ≡ out.0)
      × Held (mouse_packet width height tsc b s).1 []
      × ((mouse_packet width height tsc b s).1.mouse ≡ out.1.0)
      × ((mouse_packet width height tsc b s).1.old_tsc ≡ out.1.1)
unfolding mouse_packet
mouse_packet-whole width height tsc x y b s h m =
    let e : leb 3 (s.num_packets + 1) ≡ true = ground (arith, h.1) in
    let c₀ : update s.buffer s.index b ((s.index + 1) % 3) ≡ x = oldest b s h.0 ∙ h.2 in
    let c₁ : update s.buffer s.index b (((s.index + 1) % 3 + 1) % 3) ≡ y = second b s h.0 ∙ h.3 in
    rw (e, c₀, c₁, m) (refl, (refl, refl), refl, refl)

-- What `mouse_bytes` does is what `handle` does with the packets.
abbrev pub Framed : ℕ → ℕ → List Packet → Mouse → List Sent × Mouse → Type 0
Framed width height ps s o =
    (o.0 ≡ (handle width height ps s.mouse s.old_tsc).0)
    × (o.1.mouse ≡ (handle width height ps s.mouse s.old_tsc).1.0)

module _ (width height tsc b : ℕ) (rest : List (ℕ × ℕ)) (ps : List Packet) (s : Mouse)
    (ih : Framed width height ps
      (mouse_packet width height tsc b s).1
      (mouse_bytes width height rest (mouse_packet width height tsc b s).1)) where
  abbrev after_byte : List Sent × Mouse
  after_byte = mouse_packet width height tsc b s

  abbrev more : List Sent × Mouse
  more = mouse_bytes width height rest after_byte.1

  byte-Framed :
      (held : List ℕ)
      → TakesIn s held after_byte
      → Framed width height ps s (mouse_bytes width height ((tsc, b) ∷ rest) s)
  unfolding mouse_bytes
  byte-Framed held t = (
    ap (λ (l : List Sent). l ++ more.0) t.0
        ∙ ih.0
        ∙ ap₂ (λ (m : MouseState) (old : ℕ). (handle width height ps m old).0) t.2 t.3,
    ih.1 ∙ ap₂ (λ (m : MouseState) (old : ℕ). (handle width height ps m old).1.0) t.2 t.3,
  )

  whole-Framed :
      (x y : ℕ)
      → let out = packet width height tsc s.old_tsc x y b s.mouse in
        (after_byte.0 ≡ out.0)
          × Held after_byte.1 []
          × (after_byte.1.mouse ≡ out.1.0)
          × (after_byte.1.old_tsc ≡ out.1.1)
        → Framed width height
            (record { b0 = x; b1 = y; b2 = b; tsc = tsc } ∷ ps)
            s
            (mouse_bytes width height ((tsc, b) ∷ rest) s)
  unfolding mouse_bytes handle
  whole-Framed x y t = (
    ap₂ (λ (l k : List Sent). l ++ k) t.0
        (ih.0 ∙ ap₂ (λ (m : MouseState) (old : ℕ). (handle width height ps m old).0) t.2 t.3),
    ih.1 ∙ ap₂ (λ (m : MouseState) (old : ℕ). (handle width height ps m old).1.0) t.2 t.3,
  )

-- Where the driver's ring holds up to two bytes in step, it does with whatever bytes come next
-- what a reader of the whole stream would do: it handles the packets of `frames`, one after the
-- other, with just their events in their order, and ends with the mouse where the last of them
-- leaves it.
pub mouse_bytes-frames :
    (width height : ℕ) (bytes : List (ℕ × ℕ)) (held : List ℕ) (s : Mouse)
    → Held s held
    → Framed width height (frames held bytes) s (mouse_bytes width height bytes s)
unfolding frames mouse_bytes handle
mouse_bytes-frames width height [] held s h = (refl, refl)
mouse_bytes-frames width height ((tsc, b) ∷ rest) [] s h =
    let t = mouse_packet-first width height tsc b s h in
    byte-Framed width height tsc b rest _ s (mouse_bytes-frames width height rest (b ∷ []) _ t.1)
      (b ∷ []) t
mouse_bytes-frames width height ((tsc, b) ∷ rest) (x ∷ []) s h =
    let t = mouse_packet-second width height tsc x b s h in
    byte-Framed width height tsc b rest _ s
      (mouse_bytes-frames width height rest (x ∷ b ∷ []) _ t.1) (x ∷ b ∷ []) t
mouse_bytes-frames width height ((tsc, b) ∷ rest) (x ∷ y ∷ []) s h =
    elim (Bool-cases (misaligned x)) [
      | inl m ↦
          let t = mouse_packet-skip width height tsc x y b s h m in
          rw m (
            byte-Framed width height tsc b rest _ s
              (mouse_bytes-frames width height rest (y ∷ b ∷ []) _ t.1) (y ∷ b ∷ []) t)
      | inr m ↦
          let t = mouse_packet-whole width height tsc x y b s h m in
          rw m (
            whole-Framed width height tsc b rest _ s (mouse_bytes-frames width height rest [] _ t.1)
              x y t)
    ]
mouse_bytes-frames width height ((tsc, b) ∷ rest) (x ∷ y ∷ z ∷ _) s h = absurd h
