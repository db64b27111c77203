-- ===== src/Ps2/Keyboard/History.antt =====
-- `keyboard_packet` (system/devices/ps2.cpp) over a history of scan codes.
use shipwreck.Base.{
  ℕ, ◌≡◌, ◌≢◌, ◌∙◌, refl, ap, Bool, true, false, ◌||◌, ltb, ◌==◌, leb, if◌then◌else◌, List, [], ◌∷◌,
  ◌++◌, arith, Bool-cases, inl, inr,
}
use shipwreck.Ps2.Keyboard.{
  Keys, KeyEvent, key_char_down, key_char_up, scan_to_ascii, keyboard_packet, char_value, is_shift,
  toggled, shifted, unshifted,
}

unfoldable pub keyboard_bytes : List ℕ → Keys → List KeyEvent × Keys
keyboard_bytes [] s = ([], s)
keyboard_bytes (c ∷ cs) s =
    let (sent, s') = keyboard_packet c s in
    let (more, last) = keyboard_bytes cs s' in (sent ++ more, last)

-- Every code but 0xE0 and 0 as an event that carries the code.
unfoldable pub raw : List ℕ → List KeyEvent
raw [] = []
raw (c ∷ cs) =
    if c == 0xE0 || c == 0
    then raw cs
    else (if leb 128 c then key_char_up (char_value c) else key_char_down (char_value c)) ∷ raw cs

abbrev pub after_extended : Bool → Keys
after_extended shift = record { extended = true; shift = shift }

keyboard_packet-raw :
    (c : ℕ) (shift : Bool)
    → keyboard_packet c (after_extended shift) ≡ (raw (c ∷ []), after_extended shift)
unfolding keyboard_packet raw scan_to_ascii
keyboard_packet-raw c shift = elim (Bool-cases (c == 0xE0)) [
  | inl e ↦ rw e refl
  | inr e ↦ elim (Bool-cases (c == 0)) [
    | inl z ↦ rw (e, z) refl
    | inr z ↦ elim (Bool-cases (leb 128 c)) [
      | inl u ↦ rw (e, z, u) refl
      | inr u ↦ rw (e, z, u) refl
    ]
  ]
]

-- Down events, and no others.
unfoldable pub AllDown : List KeyEvent → Type 0
AllDown [] = Unit
AllDown (key_char_down c ∷ es) = AllDown es
AllDown (key_char_up c ∷ es) = ⊥

-- The state of shift after a history.
unfoldable pub shift_after : Bool → List ℕ → Bool
shift_after b [] = b
shift_after b (c ∷ cs) = shift_after (if is_shift c then toggled b else b) cs

abbrev pub Plain : List ℕ → Type 0
Plain [] = Unit
Plain (c ∷ cs) = (c ≢ 0xE0) × Plain cs

abbrev pub plain : Bool → Keys
plain shift = record { extended = false; shift = shift }

unshifted-past : (c : ℕ) → leb 128 c ≡ true → unshifted c ≡ 0
unfolding unshifted
unshifted-past c u = let e : ltb c 79 ≡ false = ground (arith, u) in rw e

shifted-past : (c : ℕ) → leb 128 c ≡ true → shifted c 0 ≡ 0
unfolding shifted
shifted-past c u = let e : leb c 61 ≡ false = ground (arith, u) in ground (arith, e, u)

keyboard_packet-plain :
    (c : ℕ) (shift : Bool)
    → c ≢ 0xE0
    → let now : Bool = if is_shift c then toggled shift else shift in
      AllDown (keyboard_packet c (plain shift)).0
      × ((keyboard_packet c (plain shift)).1 ≡ plain now)
unfolding keyboard_packet scan_to_ascii AllDown
keyboard_packet-plain c shift n =
    let now : Bool = if is_shift c then toggled shift else shift in
    let e : (c == 0xE0) ≡ false = ground (arith, n) in
    elim (Bool-cases (leb 128 c)) [
      | inl u ↦
          let p : (if now then shifted c (unshifted c) else unshifted c) ≡ 0 = past c now u in
          rw (e, p) (tt, refl)
      | inr u ↦
          let a = if now then shifted c (unshifted c) else unshifted c in
          elim (Bool-cases (a == 0)) [
            | inl z ↦ rw (e, z) (tt, refl)
            | inr z ↦ rw (e, z, u) (tt, refl)
          ]
    ]
  where
    past :
        (c : ℕ) (now : Bool)
        → leb 128 c ≡ true
        → (if now then shifted c (unshifted c) else unshifted c) ≡ 0
    past c true u = ap (shifted c) (unshifted-past c u) ∙ shifted-past c u
    past c false u = unshifted-past c u

raw-cons : (c : ℕ) (cs : List ℕ) → raw (c ∷ []) ++ raw cs ≡ raw (c ∷ cs)
unfolding raw
raw-cons c cs = elim (Bool-cases (c == 0xE0 || c == 0)) [ inl e ↦ rw e refl | inr e ↦ rw e refl ]

after_extended-raw :
    (cs : List ℕ) (shift : Bool)
    → keyboard_bytes cs (after_extended shift) ≡ (raw cs, after_extended shift)
unfolding keyboard_bytes raw
after_extended-raw [] shift = refl
after_extended-raw (c ∷ cs) shift =
    ap (λ (o : List KeyEvent × Keys). (o.0 ++ (keyboard_bytes cs o.1).0, (keyboard_bytes cs o.1).1))
      (keyboard_packet-raw c shift)
    ∙ ap (λ (o : List KeyEvent × Keys). (raw (c ∷ []) ++ o.0, o.1)) (after_extended-raw cs shift)
    ∙ ap (λ (l : List KeyEvent). (l, after_extended shift)) (raw-cons c cs)

keyboard_packet-extended :
    (shift : Bool) → keyboard_packet 0xE0 (plain shift) ≡ ([], after_extended shift)
unfolding keyboard_packet scan_to_ascii
keyboard_packet-extended shift = refl

AllDown-append : (es fs : List KeyEvent) → AllDown es → AllDown fs → AllDown (es ++ fs)
unfolding AllDown
AllDown-append [] fs a b = b
AllDown-append (key_char_down c ∷ es) fs a b = AllDown-append es fs a b
AllDown-append (key_char_up c ∷ es) fs a b = absurd a

-- Once an extended code has come, every later code is sent as it is, whatever keys the codes stand
-- for, and the driver never leaves that state.
pub keyboard_bytes-raw :
    (cs : List ℕ) (shift : Bool)
    → keyboard_bytes (0xE0 ∷ cs) (plain shift) ≡ (raw cs, after_extended shift)
unfolding keyboard_bytes raw
keyboard_bytes-raw cs shift =
    ap (λ (o : List KeyEvent × Keys). (o.0 ++ (keyboard_bytes cs o.1).0, (keyboard_bytes cs o.1).1))
      (keyboard_packet-extended shift)
    ∙ after_extended-raw cs shift

-- Until an extended code comes, no key sends a release event, and shift changes at just the codes
-- of the shift keys and caps lock, once for each.
pub keyboard_bytes-plain :
    (cs : List ℕ) (shift : Bool)
    → Plain cs
    → AllDown (keyboard_bytes cs (plain shift)).0
      × ((keyboard_bytes cs (plain shift)).1 ≡ plain (shift_after shift cs))
unfolding keyboard_bytes shift_after AllDown
keyboard_bytes-plain [] shift p = (tt, refl)
keyboard_bytes-plain (c ∷ cs) shift p =
    let now : Bool = if is_shift c then toggled shift else shift in
    let (a, b) = keyboard_packet-plain c shift p.0 in
    rw b (
      let (d, e) = keyboard_bytes-plain cs now p.1 in
      (AllDown-append (keyboard_packet c (plain shift)).0 (keyboard_bytes cs (plain now)).0 a d, e))
