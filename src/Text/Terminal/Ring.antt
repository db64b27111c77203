-- ===== src/Text/Terminal/Ring.antt =====
-- The ring of keys of include/gui/terminal.h as a queue.
use shipwreck.Base.{
  ℕ, zero, suc, ◌+◌, ◌-◌, ◌%◌, ◌≤◌, ◌<◌, ◌≡◌, refl, sym, ap, ◌∙◌, false, some, List, [], ◌∷◌, ◌++◌,
  leb, length, length-append, get_or, update, update_self, update_ne, arith, mod-ne, ℕ_discrete,
  subst,
}
use mathlib.Core.List.{append_assoc, append-nil}
use shipwreck.Text.Terminal.{KeyRing, max_input_buffer, key_handler, key_handlers, next_key}

-- The keys `ks` are waiting, the first one at `head`.
pub record Holds (k : KeyRing) (ks : List ℕ) : Type 0 where
  pub tail : k.tail ≡ k.head + length ks
  pub signal : k.signal ≡ length ks
  pub fits : length ks ≤ max_input_buffer
  pub keys : (i : ℕ) → i < length ks → k.input_buf ((k.head + i) % max_input_buffer) ≡ get_or ks i 0

get_or-append : (xs ys : List ℕ) (i : ℕ) → i < length xs → get_or (xs ++ ys) i 0 ≡ get_or xs i 0
get_or-append [] ys i h = absurd (omega arith)
get_or-append (x ∷ xs) ys zero h = refl
get_or-append (x ∷ xs) ys (suc i) h = get_or-append xs ys i (omega arith)

get_or_last : (xs : List ℕ) (y : ℕ) → get_or (xs ++ y ∷ []) (length xs) 0 ≡ y
get_or_last [] y = refl
get_or_last (x ∷ xs) y = get_or_last xs y

pub key_handler-Holds :
    (key : ℕ) (k : KeyRing) (ks : List ℕ)
    → Holds k ks
    → length ks < max_input_buffer
    → Holds (key_handler key k) (ks ++ key ∷ [])
unfolding key_handler
key_handler-Holds key k ks h lt =
    let room : leb max_input_buffer (k.tail - k.head) ≡ false = ground (arith, h.tail) in
    let more = length-append ks (key ∷ []) in
    rw room record {
      tail = omega (arith, h.tail, more);
      signal = omega (arith, h.signal, more);
      fits = omega (arith, more);
      keys = λ i hi. elim (ℕ_discrete i (length ks)) [
        | yes e ↦
            rw (e, get_or_last ks key)
              (ap (λ t. update k.input_buf (k.tail % 64) key (t % 64)) (sym h.tail)
                ∙ update_self k.input_buf (k.tail % 64) key)
        | no ne ↦
            let apart =
              mod-ne 64 (k.head + i) (length ks - i) (omega (arith, more)) (omega (arith, more)) in
            let e : k.head + i + (length ks - i) ≡ k.tail = omega (arith, h.tail, more) in
            update_ne k.input_buf (k.tail % 64) key ((k.head + i) % 64)
              (λ q. apart (sym q ∙ ap (λ t. t % 64) (sym e)))
            ∙ h.keys i (omega (arith, more))
            ∙ sym (get_or-append ks (key ∷ []) i (omega (arith, more)))
      ];
    }

pub key_handlers-Holds :
    (keys : List ℕ) (k : KeyRing) (ks : List ℕ)
    → Holds k ks
    → length (ks ++ keys) ≤ max_input_buffer
    → Holds (key_handlers keys k) (ks ++ keys)
unfolding key_handlers
key_handlers-Holds [] k ks h fits = subst (Holds k) (sym (append-nil ks)) h
key_handlers-Holds (key ∷ keys) k ks h fits =
    let e : (ks ++ key ∷ []) ++ keys ≡ ks ++ key ∷ keys = append_assoc ks (key ∷ []) keys in
    let more = length-append ks (key ∷ keys) in
    subst (Holds (key_handlers keys (key_handler key k))) e (
      key_handlers-Holds keys (key_handler key k) (ks ++ key ∷ [])
        (key_handler-Holds key k ks h (omega (arith, more)))
        (subst (λ xs. length xs ≤ max_input_buffer) (sym e) fits))

pub next_key-Holds :
    (k : KeyRing) (c : ℕ) (ks : List ℕ)
    → Holds k (c ∷ ks)
    → (k' : KeyRing) × (next_key k ≡ some (c, k')) × Holds k' ks
unfolding next_key
next_key-Holds k c ks h = (
  record k { head = k.head + 1; signal = length ks },
  rw h.signal (ap (λ v. some (v, record k { head = k.head + 1; signal = length ks })) first),
  record {
    tail = omega (arith, h.tail);
    signal = refl;
    fits = omega (arith, h.fits);
    keys = λ i hi. ap (λ t. k.input_buf (t % 64)) (omega arith) ∙ h.keys (suc i) (omega arith);
  },
)
  where
    first : k.input_buf (k.head % 64) ≡ c
    first =
        let e : k.head ≡ k.head + 0 = omega arith in
        ap (λ t. k.input_buf (t % 64)) e ∙ h.keys 0 (omega arith)
