-- ===== src/Process/Turns.antt =====
-- Whole histories of calls of `Process::lock` and `Process::unlock` on one lock, and what the
-- count of running threads does in them (system/process.cpp).
use shipwreck.Base.{
  NotIn, ℕ, ◌≤◌, ◌≡◌, ◌≢◌, refl, ap, Option, none, some, List, [], ◌∷◌, arith, length,
}
use shipwreck.Process.{
  running, Lock, Threads, Locked, max_threads, dec32, lock, unlock, handed, suspended,
  set_lock_next, wait_for, queue_up,
}
use shipwreck.Process.Locks.{
  Turns, request, hand_on, Holds, lock_refines, unlock_refines, lock-waits,
}

pub data Call : Type 0 where
  locks : ℕ → Call
  unlocks : Call

-- The calls in order; `none` where one does not return.
unfoldable pub run : List Call → Lock → Threads → Option (Lock × Threads)
run [] l ts = some (l, ts)
run (locks this ∷ cs) l ts = elim (lock this l ts) [
  | none ↦ none
  | some r ↦ run cs r.lock r.threads
]
run (unlocks ∷ cs) l ts = let (l', ts') = unlock l ts in run cs l' ts'

abbrev pub spec : Call → Turns → Turns
spec (locks this) s = request this s
spec unlocks s = hand_on s.queue

unfoldable pub run_spec : List Call → Turns → Turns
run_spec [] s = s
run_spec (c ∷ cs) s = run_spec cs (spec c s)

-- A thread that waits makes no call, and no more than 256 threads wait.
abbrev pub Allowed : List Call → Turns → Type 0
Allowed [] s = Unit
Allowed (locks this ∷ cs) s =
    NotIn this s.queue × (length s.queue ≤ max_threads) × Allowed cs (request this s)
Allowed (unlocks ∷ cs) s = Allowed cs (hand_on s.queue)

-- From a lock that holds a queue of waiters, in every history of calls by threads that are not
-- waiting, with at most 256 waiting at each call of `lock`, all calls return, and the lock and
-- the threads' links end up holding the queue in which each thread is served in its order of
-- arrival.
pub run_refines :
    (cs : List Call) (l : Lock) (ts : Threads) (s : Turns)
    → Holds l ts.at s
    → Allowed cs s
    → (out : Lock × Threads) × (run cs l ts ≡ some out) × Holds out.0 out.1.at (run_spec cs s)
unfolding run run_spec
run_refines [] l ts s h a = ((l, ts), refl, h)
run_refines (locks this ∷ cs) l ts s h a =
    let (r, runs, _, held) = lock_refines this l ts s h a.0 a.1 in
    let (out, rest, end) = run_refines cs r.lock r.threads (request this s) held a.2 in
    (out, rw (runs, run) rest, end)
run_refines (unlocks ∷ cs) l ts s h a =
    run_refines cs (unlock l ts).0 (unlock l ts).1 (hand_on s.queue) (unlock_refines l ts s h).0 a

-- The count drifts: a running thread that waits for another thread's lock, and is handed the lock
-- when that thread gives it up, is as before (and so is every thread), but
-- `num_running_threads` has gone down by one.
pub num_running_drift :
    (this o : ℕ) (l : Lock) (ts : Threads)
    → l.owner ≡ some o
    → o ≢ this
    → l.next ≡ none
    → (ts.at this).run_state ≡ running
    → (ts.at this).lock_next ≡ none
    → (out : Lock × Threads) × (run (locks this ∷ unlocks ∷ []) l ts ≡ some out)
      × (out.0 ≡ record { owner = some this; next = none })
      × ((u : ℕ) → out.1.at u ≡ ts.at u)
      × (out.1.num_running ≡ dec32 ts.num_running)
unfolding run unlock handed suspended wait_for queue_up
num_running_drift this o l ts e ne free go link = (
  unlock r.lock r.threads,
  rw (lock-waits this l ts (ground (arith, e, ne)), waits, run),
  ground arith,
  (λ u. ground arith),
  refl,
)
  where
    r : Locked
    r =
        suspended this (record l { next = some this }) (set_lock_next ts.at this none)
          ts.num_running

    waits : wait_for this l ts ≡ some r
    waits = ap (queue_up this l (set_lock_next ts.at this none) ts.num_running) free
