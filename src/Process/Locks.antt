-- ===== src/Process/Locks.antt =====
-- `Process::lock` and `Process::unlock` of system/process.cpp against a queue of threads.
use shipwreck.Base.{
  NotIn, Distinct, NotIn-append, Distinct-append, ℕ, ◌≤◌, ◌<◌, ◌≡◌, ◌≢◌, refl, sym, ap, ◌∙◌, Bool,
  true, false, ◌||◌, Option, none, some, List, [], ◌∷◌, ◌++◌, arith, length, if◌then◌else◌,
  Bool-cases, ◌==◌, inl, inr,
}
use shipwreck.Process.{
  Thread, running, waiting, Lock, Threads, Locked, max_threads, is_thread, is_null, set_lock_next,
  set_run_state, lock, handed, unlock, wait_for, queue_up, suspended,
}
use shipwreck.Process.Chain.{
  Chain, Asleep, Chain-update, Chain-update_link, last_waiter-Chain, Chain-append, Asleep-update,
  Asleep-update_same, Asleep-append, last_of,
}

-- A lock as its users see it: who has it, and who waits, in the order of arrival.
pub record Turns : Type 0 where
  pub holder : Option ℕ
  pub queue : List ℕ

unfoldable pub grants : ℕ → Turns → Bool
grants this s = is_thread s.holder this || is_null s.holder

unfoldable pub request : ℕ → Turns → Turns
unfolding grants
request this s =
    if grants this s
    then record s { holder = some this }
    else record s { queue = s.queue ++ this ∷ [] }

unfoldable pub hand_on : List ℕ → Turns
hand_on [] = record { holder = none; queue = [] }
hand_on (t ∷ ts) = record { holder = some t; queue = ts }

abbrev pub Apart : Option ℕ → List ℕ → Type 0
Apart none ts = ts ≡ []
Apart (some o) ts = NotIn o ts

-- The lock and the threads' links hold that queue, whose threads sleep. The holder is not in it,
-- and a free lock has none.
pub record Holds (l : Lock) (at : ℕ → Thread) (s : Turns) : Type 0 where
  pub owner : l.owner ≡ s.holder
  pub chain : Chain at l.next s.queue
  pub distinct : Distinct s.queue
  pub apart : Apart s.holder s.queue
  pub asleep : Asleep at s.queue

module _ (this : ℕ) (ts : Threads) where
  abbrev cut : ℕ → Thread
  cut = set_lock_next ts.at this none

  wait_for-Holds_first :
      (l : Lock) (o : ℕ)
      → Holds l ts.at (record { holder = some o; queue = [] })
      → o ≢ this
      → (r : Locked) × (wait_for this l ts ≡ some r)
        × (r.yields ≡ true)
        × Holds r.lock r.threads.at (record { holder = some o; queue = this ∷ [] })
  unfolding wait_for suspended
  wait_for-Holds_first l o h ne = (
    suspended this (record l { next = some this }) cut ts.num_running,
    ap (queue_up this l cut ts.num_running) h.chain,
    refl,
    record {
      owner = h.owner;
      chain = (refl, ground arith);
      distinct = (tt, tt);
      apart = (ne, tt);
      asleep = (ground arith, tt);
    },
  )

  wait_for-Holds :
      (l : Lock) (o t : ℕ) (q : List ℕ)
      → Holds l ts.at (record { holder = some o; queue = t ∷ q })
      → o ≢ this
      → NotIn this (t ∷ q)
      → length q < max_threads
      → (r : Locked) × (wait_for this l ts ≡ some r)
        × (r.yields ≡ true)
        × Holds r.lock r.threads.at (record { holder = some o; queue = (t ∷ q) ++ this ∷ [] })
  unfolding wait_for suspended
  wait_for-Holds l o t q h ne ni fits =
      let c =
        Chain-update ts.at l.next (t ∷ q) this (record (ts.at this) { lock_next = none }) ni
          h.chain in
      let linked = set_lock_next cut (last_of t q) (some this) in
      let grown =
        Chain-append cut t q this h.distinct.0 h.distinct.1 (λ e. ni.0 (sym e)) ni.1 (ground arith)
          c.1 in
      let tail =
        Chain-update_link linked (some t) (t ∷ (q ++ this ∷ [])) this
          (record (linked this) { run_state = waiting }) refl (refl, grown) in
      (
        suspended this l linked ts.num_running,
        ap (queue_up this l cut ts.num_running) c.0
            ∙ rw (last_waiter-Chain max_threads cut t q fits c.1, queue_up),
        refl,
        record {
          owner = h.owner;
          chain = (c.0, tail.1);
          distinct = Distinct-append (t ∷ q) this h.distinct ni;
          apart = NotIn-append o (t ∷ q) this h.apart ne;
          asleep =
              Asleep-append (set_run_state linked this waiting) (t ∷ q) this
                (Asleep-update linked (t ∷ q) this _ ni (
                  Asleep-update_same cut (t ∷ q) (last_of t q) _ refl
                    (Asleep-update_same ts.at (t ∷ q) this _ refl h.asleep)))
                (ground arith);
        },
      )

module _ (this : ℕ) (l : Lock) (ts : Threads) where
  pub lock-taken :
      (is_thread l.owner this || is_null l.owner) ≡ true
      → lock this l ts
        ≡ some (record { yields = false; lock = record l { owner = some this }; threads = ts })
  unfolding lock
  lock-taken e = rw e

  pub lock-waits :
      (is_thread l.owner this || is_null l.owner) ≡ false → lock this l ts ≡ wait_for this l ts
  unfolding lock
  lock-waits e = rw e

-- What `lock` is to do: it returns, yields just where the lock was not granted, and holds the
-- queue of `request`.
abbrev pub Requested : ℕ → Lock → Threads → Turns → Type 0
Requested this l ts s =
    (r : Locked) × (lock this l ts ≡ some r)
    × (r.yields ≡ (if grants this s then false else true))
    × Holds r.lock r.threads.at (request this s)

lock-Requested :
    (this : ℕ) (l : Lock) (ts : Threads) (holder : Option ℕ) (q : List ℕ)
    → Holds l ts.at (record { holder = holder; queue = q })
    → NotIn this q
    → length q ≤ max_threads
    → Requested this l ts (record { holder = holder; queue = q })
unfolding request grants
lock-Requested this l ts none q h ni fits = (
  record { yields = false; lock = record l { owner = some this }; threads = ts },
  lock-taken this l ts (rw h.owner),
  refl,
  record { owner = refl; chain = h.chain; distinct = h.distinct; apart = ni; asleep = h.asleep },
)
lock-Requested this l ts (some o) q h ni fits = elim (Bool-cases (o == this)) [
  | inl e ↦ (
    record { yields = false; lock = record l { owner = some this }; threads = ts },
    lock-taken this l ts (rw (h.owner, e)),
    rw e,
    rw e (record {
      owner = refl;
      chain = h.chain;
      distinct = h.distinct;
      apart = ni;
      asleep = h.asleep;
    }),
  )
  | inr e ↦
      let (r, runs, yields, held) = waits q h ni fits (ground (arith, e)) in
      (r, lock-waits this l ts (rw (h.owner, e)) ∙ runs, yields ∙ rw e, rw e held)
]
  where
    waits :
        (q : List ℕ)
        → Holds l ts.at (record { holder = some o; queue = q })
        → NotIn this q
        → length q ≤ max_threads
        → o ≢ this
        → (r : Locked) × (wait_for this l ts ≡ some r)
          × (r.yields ≡ true)
          × Holds r.lock r.threads.at (record { holder = some o; queue = q ++ this ∷ [] })
    waits [] h ni fits ne = wait_for-Holds_first this ts l o h ne
    waits (t ∷ q) h ni fits ne = wait_for-Holds this ts l o t q h ne ni fits

-- A thread outside the queue asks for a lock that holds a queue of at most 256 threads: the call
-- comes back, it yields exactly when the lock is another thread's, and the lock then holds the
-- queue with the thread granted the lock, or behind all that wait.
pub lock_refines :
    (this : ℕ) (l : Lock) (ts : Threads) (s : Turns)
    → Holds l ts.at s
    → NotIn this s.queue
    → length s.queue ≤ max_threads
    → Requested this l ts s
lock_refines this l ts s h ni fits = lock-Requested this l ts s.holder s.queue h ni fits

unlock_free :
    (l : Lock) (ts : Threads) → l.next ≡ none → unlock l ts ≡ (record l { owner = none }, ts)
unfolding unlock
unlock_free l ts e = ap (handed l ts) e

unlock_next :
    (l : Lock) (ts : Threads) (t : ℕ)
    → l.next ≡ some t
    → unlock l ts ≡ (
      record { owner = some t; next = (ts.at t).lock_next },
      record ts { at = set_lock_next (set_run_state ts.at t running) t none },
    )
unfolding unlock
unlock_next l ts t e = ap (handed l ts) e

unlock-Holds :
    (l : Lock) (ts : Threads) (holder : Option ℕ) (q : List ℕ)
    → Holds l ts.at (record { holder = holder; queue = q })
    → Holds (unlock l ts).0 (unlock l ts).1.at (hand_on q)
unfolding hand_on
unlock-Holds l ts holder [] h =
    rw (unlock_free l ts h.chain)
      (record { owner = refl; chain = h.chain; distinct = tt; apart = refl; asleep = tt })
unlock-Holds l ts holder (t ∷ q) h = rw (unlock_next l ts t h.chain.0) (record {
  owner = refl;
  chain =
      Chain-update (set_run_state ts.at t running) (ts.at t).lock_next q t _ h.distinct.0
        (Chain-update ts.at (ts.at t).lock_next q t _ h.distinct.0 h.chain.1);
  distinct = h.distinct.1;
  apart = h.distinct.0;
  asleep =
      Asleep-update (set_run_state ts.at t running) q t _ h.distinct.0
        (Asleep-update ts.at q t _ h.distinct.0 h.asleep.1);
})

-- Giving the lock up hands it to the thread that has waited longest, which runs again, has left
-- the queue and keeps no link; with no one waiting the lock is free. No other thread changes.
pub unlock_refines :
    (l : Lock) (ts : Threads) (s : Turns)
    → Holds l ts.at s
    → Holds (unlock l ts).0 (unlock l ts).1.at (hand_on s.queue)
      × ((u : ℕ)
          → (unlock l ts).1.at u ≡ (
              if is_thread (hand_on s.queue).holder u
              then record (ts.at u) { run_state = running; lock_next = none }
              else ts.at u))
unfolding hand_on
unlock_refines l ts s h = (unlock-Holds l ts s.holder s.queue h, others s.holder s.queue h)
  where
    others :
        (holder : Option ℕ) (q : List ℕ)
        → Holds l ts.at (record { holder = holder; queue = q })
        → (u : ℕ)
        → (unlock l ts).1.at u ≡ (
            if is_thread (hand_on q).holder u
            then record (ts.at u) { run_state = running; lock_next = none }
            else ts.at u)
    others holder [] h u = rw (unlock_free l ts h.chain)
    others holder (t ∷ q) h u = rw (unlock_next l ts t h.chain.0) (ground arith)
