-- ===== src/Tests/Locking.antt =====
-- Locks and monitors (Process.antt) on a few threads.
use shipwreck.Base.{ℕ, ◌≡◌, refl, none, some, List, [], ◌∷◌, arith, ◌==◌, if◌then◌else◌}
use shipwreck.Base.Int.{pos, ◌+ℤ◌}
use shipwreck.Process.{Threads, Lock, Monitor, Monitored, tested, running, waiting, dec32, monitor}
use shipwreck.Process.Locks.{Turns, Holds, hand_on, request, grants}
use shipwreck.Process.Turns.{
  Call, Allowed, run, run_spec, locks, unlocks, run_refines, num_running_drift,
}
use shipwreck.Process.Monitors.{monitor-notify, notified_at, Outcome}

abbrev all_running : Threads
all_running = record {
  at = λ t. record { run_state = running; lock_next = none; signal_wait = none };
  num_running = 4;
}

abbrev free_lock : Lock
free_lock = record { owner = none; next = none }

abbrev no_turns : Turns
no_turns = record { holder = none; queue = [] }

free_lock-Holds : Holds free_lock all_running.at no_turns
free_lock-Holds = record { owner = refl; chain = refl; distinct = tt; apart = refl; asleep = tt }

-- Threads 1, 2 and 3 ask for the lock, which is given up twice.
abbrev history : List Call
history = locks 1 ∷ locks 2 ∷ locks 3 ∷ unlocks ∷ unlocks ∷ []

run_spec-history : run_spec history no_turns ≡ record { holder = some 3; queue = [] }
unfolding run_spec request hand_on grants
run_spec-history = refl

history-Allowed : Allowed history no_turns
unfolding request hand_on grants
history-Allowed = (tt, omega arith, (tt, omega arith, ((ground arith, tt), omega arith, tt)))

run_refines_example :
    (out : Lock × Threads) × (run history free_lock all_running ≡ some out)
    × Holds out.0 out.1.at (run_spec history no_turns)
run_refines_example =
    run_refines history free_lock all_running no_turns free_lock-Holds history-Allowed

-- Thread 1 has the lock and thread 2 waits.
abbrev two_threads : Threads
two_threads = record all_running {
  at = λ t. record {
    run_state = if t == 2 then waiting else running;
    lock_next = none;
    signal_wait = none;
  };
}

abbrev taken_lock : Lock
taken_lock = record { owner = some 1; next = some 2 }

abbrev two_turns : Turns
two_turns = record { holder = some 1; queue = 2 ∷ [] }

taken_lock-Holds : Holds taken_lock two_threads.at two_turns
taken_lock-Holds = record {
  owner = refl;
  chain = (refl, refl);
  distinct = (tt, tt);
  apart = (ground arith, tt);
  asleep = (refl, tt);
}

num_running_drift_example :
    (out : Lock × Threads) × (run
        (locks 2 ∷ unlocks ∷ [])
        (record { owner = some 1; next = none })
        all_running
      ≡ some out)
    × (out.0 ≡ record { owner = some 2; next = none })
    × ((u : ℕ) → out.1.at u ≡ all_running.at u)
    × (out.1.num_running ≡ dec32 all_running.num_running)
num_running_drift_example =
    num_running_drift 2 1 (record { owner = some 1; next = none }) all_running refl (ground arith)
      refl refl refl

abbrev quiet : Monitor
quiet = record { lock = free_lock; signal = pos 0 }

monitor-notify_example :
    (r : Monitored) × (monitor 1 0 (pos 1) (notified_at tested 0 (pos 3)) quiet all_running
      ≡ some r)
    × Outcome tested 1 0 (pos 1) (pos 3) quiet all_running r
unfolding ◌+ℤ◌
monitor-notify_example =
    monitor-notify tested 1 0 (pos 1) (pos 3) quiet all_running refl (omega arith) (omega arith)
      (omega arith) refl
