-- ===== src/Process/Chain.antt =====
-- The queue of waiters that the threads' `lock_next` links hold (system/process.cpp).
use shipwreck.Base.{
  NotIn, Distinct, ℕ, zero, suc, ◌<◌, ◌≡◌, ◌≢◌, Option, none, some, List, [], ◌∷◌, ◌++◌, arith,
  length, sym, update, update_ne,
}
use shipwreck.Process.{Thread, RunState, last_waiter, set_lock_next}

-- From `head` on, the links lead through just the threads listed.
abbrev pub Chain : (ℕ → Thread) → Option ℕ → List ℕ → Type 0
Chain at head [] = head ≡ none
Chain at head (t ∷ ts) = (head ≡ some t) × Chain at (at t).lock_next ts

-- A change at a thread outside the queue leaves the queue as it is.
pub Chain-update :
    (at : ℕ → Thread) (head : Option ℕ) (ts : List ℕ) (u : ℕ) (v : Thread)
    → NotIn u ts
    → Chain at head ts
    → Chain (update at u v) head ts
Chain-update at head [] u v n c = c
Chain-update at head (t ∷ ts) u v n c =
    (c.0, rw (update_ne at u v t n.0) (Chain-update at (at t).lock_next ts u v n.1 c.1))

-- A change that keeps the link does so too.
pub Chain-update_link :
    (at : ℕ → Thread) (head : Option ℕ) (ts : List ℕ) (u : ℕ) (v : Thread)
    → v.lock_next ≡ (at u).lock_next
    → Chain at head ts
    → Chain (update at u v) head ts
Chain-update_link at head [] u v e c = c
Chain-update_link at head (t ∷ ts) u v e c =
    (c.0, rw same (Chain-update_link at (at t).lock_next ts u v e c.1))
  where
    same : (update at u v t).lock_next ≡ (at t).lock_next
    same = ground arith

-- The walk ends at the last thread of the queue.
abbrev pub last_of : ℕ → List ℕ → ℕ
last_of t [] = t
last_of t (u ∷ us) = last_of u us

pub last_waiter-Chain :
    (f : ℕ) (at : ℕ → Thread) (t : ℕ) (ts : List ℕ)
    → length ts < f
    → Chain at (at t).lock_next ts
    → last_waiter f at t ≡ some (last_of t ts)
unfolding last_waiter
last_waiter-Chain zero at t ts h c = absurd (omega arith)
last_waiter-Chain (suc f) at t [] h c = rw (c, last_waiter)
last_waiter-Chain (suc f) at t (u ∷ us) h c =
    rw (c.0, last_waiter) (last_waiter-Chain f at u us (omega arith) c.1)

last_of-ne : (t u : ℕ) (us : List ℕ) → NotIn t (u ∷ us) → t ≢ last_of u us
last_of-ne t u [] n = n.0
last_of-ne t u (v ∷ vs) n = last_of-ne t v vs n.1

-- Linking a new thread behind the last one appends it.
pub Chain-append :
    (at : ℕ → Thread) (t : ℕ) (ts : List ℕ) (this : ℕ)
    → NotIn t ts
    → Distinct ts
    → t ≢ this
    → NotIn this ts
    → (at this).lock_next ≡ none
    → Chain at (at t).lock_next ts
    → let at' = set_lock_next at (last_of t ts) (some this) in
      Chain at' (at' t).lock_next (ts ++ this ∷ [])
Chain-append at t [] this n d ne ni e c = (ground arith, ground arith)
Chain-append at t (u ∷ us) this n d ne ni e c = (
  rw
      (update_ne at (last_of u us) (record (at (last_of u us)) { lock_next = some this }) t
        (λ k. last_of-ne t u us n (sym k)))
      c.0,
  Chain-append at u us this d.0 d.1 (λ k. ni.0 (sym k)) ni.1 e c.1,
)

-- Every thread of the queue is suspended.
abbrev pub Asleep : (ℕ → Thread) → List ℕ → Type 0
Asleep at [] = Unit
Asleep at (t ∷ ts) = ((at t).run_state ≡ RunState.waiting) × Asleep at ts

pub Asleep-update :
    (at : ℕ → Thread) (ts : List ℕ) (u : ℕ) (v : Thread)
    → NotIn u ts
    → Asleep at ts
    → Asleep (update at u v) ts
Asleep-update at [] u v n c = tt
Asleep-update at (t ∷ ts) u v n c =
    (rw (update_ne at u v t n.0) c.0, Asleep-update at ts u v n.1 c.1)

pub Asleep-update_same :
    (at : ℕ → Thread) (ts : List ℕ) (u : ℕ) (v : Thread)
    → v.run_state ≡ (at u).run_state
    → Asleep at ts
    → Asleep (update at u v) ts
Asleep-update_same at [] u v e c = tt
Asleep-update_same at (t ∷ ts) u v e c = (ground arith, Asleep-update_same at ts u v e c.1)

pub Asleep-append :
    (at : ℕ → Thread) (ts : List ℕ) (u : ℕ)
    → Asleep at ts
    → (at u).run_state ≡ RunState.waiting
    → Asleep at (ts ++ u ∷ [])
Asleep-append at [] u c e = (e, tt)
Asleep-append at (t ∷ ts) u c e = (c.0, Asleep-append at ts u c.1 e)
