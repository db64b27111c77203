-- ===== src/Queue/Window.antt =====
-- The messages that a range of indices holds in the slots of std/queue.h, without wrap.
use shipwreck.Base.{
  ℕ, zero, suc, ◌+◌, ◌-◌, ◌%◌, ◌≤◌, ◌<◌, ◌≡◌, ◌≢◌, refl, ap, ap₂, ◌∙◌, List, [], ◌∷◌, ◌++◌, arith,
  take, drop, update, update_ne, mod-ne, ℕ_discrete, ◌==◌, false,
}
use shipwreck.Queue.{
  Message, SharedQueue, messages, get, ushort_mod, gather_from, release_from, collect_from,
}

abbrev pub window : (ℕ → Message) → ℕ → ℕ → ℕ → List Message
window slots max i zero = []
window slots max i (suc n) = slots (i % max) ∷ window slots max (i + 1) n

pub window-update :
    (slots : ℕ → Message) (max i n j : ℕ) (m : Message)
    → ((k : ℕ) → k < n → j % max ≢ (i + k) % max)
    → window (update slots (j % max) m) max i n ≡ window slots max i n
window-update slots max i zero j m h = refl
window-update slots max i (suc n) j m h =
    ap₂ ◌∷◌
      (update_ne slots (j % max) m (i % max)
        (λ e. h 0 (omega arith) (e ∙ ap (λ t. t % max) (omega arith))))
      (window-update slots max (i + 1) n j m
        (λ k lt e. h (suc k) (omega arith) (e ∙ ap (λ t. t % max) (omega arith))))

pub window-snoc :
    (slots : ℕ → Message) (max i n : ℕ)
    → window slots max i (suc n) ≡ window slots max i n ++ slots ((i + n) % max) ∷ []
window-snoc slots max i zero = ap (λ t. slots (t % max) ∷ []) (omega arith)
window-snoc slots max i (suc n) =
    ap (λ r. slots (i % max) ∷ r)
      (window-snoc slots max (i + 1) n
        ∙ ap (λ t. window slots max (i + 1) n ++ slots (t % max) ∷ []) (omega arith))

-- Where the loops of the queue stop, on a stretch of slots that all are filled.
abbrev pub Filled : List Message → Type 0
Filled [] = Unit
Filled (m ∷ ms) = (m.msg_id ≢ 0) × Filled ms

pub gather_from-Filled :
    (slots : ℕ → Message) (max n i : ℕ)
    → Filled (window slots max i n)
    → i + n < ushort_mod
    → gather_from max n slots i ≡ i + n
unfolding gather_from
gather_from-Filled slots max zero i f h = omega arith
gather_from-Filled slots max (suc n) i f h =
    rw (full f.0, gather_from)
      (ap (gather_from max n slots) next
        ∙ gather_from-Filled slots max n (i + 1) f.1 (omega arith)
        ∙ omega arith)
  where
    full : (slots (i % max)).msg_id ≢ 0 → ((slots (i % max)).msg_id == 0) ≡ false
    full ne = ground arith

    next : (i + 1) % ushort_mod ≡ i + 1
    next = omega arith

abbrev freed : (ℕ → Message) → ℕ → ℕ → ℕ → Message
freed slots max i = update slots (i % max) (record (slots (i % max)) { msg_id = 0 })

-- What `release` does to the slots of a range, and to no others.
pub release_from-window :
    (slots : ℕ → Message) (max n i k m : ℕ)
    → i + n ≤ k
    → k + m ≤ i + max
    → window (release_from max n i slots) max k m ≡ window slots max k m
unfolding release_from
release_from-window slots max zero i k m h h' = refl
release_from-window slots max (suc n) i k m h h' =
    release_from-window (freed slots max i) max n (i + 1) k m (omega arith) (omega arith)
    ∙ window-update slots max k m i _ (λ t lt e.
      mod-ne max i (k + t - i) (omega arith) (omega arith) (e ∙ ap (λ x. x % max) (omega arith)))

pub release_from-before :
    (slots : ℕ → Message) (max n i j : ℕ)
    → (slots (j % max)).msg_id ≡ 0
    → (release_from max n i slots (j % max)).msg_id ≡ 0
unfolding release_from
release_from-before slots max zero i j e = e
release_from-before slots max (suc n) i j e =
    release_from-before (freed slots max i) max n (i + 1) j (ground arith)

pub release_from-free :
    (slots : ℕ → Message) (max n i k : ℕ)
    → i ≤ k
    → k < i + n
    → (release_from max n i slots (k % max)).msg_id ≡ 0
unfolding release_from
release_from-free slots max zero i k h h' = absurd (omega arith)
release_from-free slots max (suc n) i k h h' = elim (ℕ_discrete i k) [
  | yes e ↦ release_from-before (freed slots max i) max n (i + 1) k (rw e (ground arith))
  | no ne ↦ release_from-free (freed slots max i) max n (i + 1) k (omega arith) (omega arith)
]

-- The collector passes over free slots.
pub collect_from-free :
    (slots : ℕ → Message) (max n i : ℕ)
    → ((k : ℕ) → i ≤ k → k < i + n → (slots (k % max)).msg_id ≡ 0)
    → i + n < ushort_mod
    → collect_from max n slots i ≡ i + n
unfolding collect_from
collect_from-free slots max zero i f h = omega arith
collect_from-free slots max (suc n) i f h =
    rw (ap (λ x. x == 0) (f i (omega arith) (omega arith)), collect_from)
      (ap (collect_from max n slots) next
        ∙ collect_from-free slots max n (i + 1) (λ k lo hi. f k (omega arith) (omega arith))
            (omega arith)
        ∙ omega arith)
  where
    next : (i + 1) % ushort_mod ≡ i + 1
    next = omega arith

pub take-window :
    (slots : ℕ → Message) (max i k n : ℕ)
    → k ≤ n
    → take k (window slots max i n) ≡ window slots max i k
take-window slots max i zero n h = refl
take-window slots max i (suc k) zero h = absurd (omega arith)
take-window slots max i (suc k) (suc n) h =
    ap (λ r. slots (i % max) ∷ r) (take-window slots max (i + 1) k n (omega arith))

pub drop-window :
    (slots : ℕ → Message) (max i k n : ℕ)
    → k ≤ n
    → drop k (window slots max i n) ≡ window slots max (i + k) (n - k)
drop-window slots max i zero n h =
    ap₂ (window slots max) (let e : i ≡ i + 0 = omega arith in e) (omega arith)
drop-window slots max i (suc k) zero h = absurd (omega arith)
drop-window slots max i (suc k) (suc n) h =
    drop-window slots max (i + 1) k n (omega arith)
    ∙ ap₂ (window slots max) (let e : i + 1 + k ≡ i + suc k = omega arith in e) (omega arith)

pub Filled-drop : (k : ℕ) (ms : List Message) → Filled ms → Filled (drop k ms)
Filled-drop zero ms f = f
Filled-drop (suc k) [] f = tt
Filled-drop (suc k) (m ∷ ms) f = Filled-drop k ms f.1

pub Filled-append :
    (ms : List Message) (m : Message) → Filled ms → m.msg_id ≢ 0 → Filled (ms ++ m ∷ [])
Filled-append [] m f h = (h, tt)
Filled-append (x ∷ ms) m f h = (f.0, Filled-append ms m f.1 h)

pub messages-window : (q : SharedQueue) (i n : ℕ) → messages i n q ≡ window q.slots q.max_size i n
unfolding messages get
messages-window q i zero = refl
messages-window q i (suc n) = ap (λ r. q.slots (i % q.max_size) ∷ r) (messages-window q (i + 1) n)
