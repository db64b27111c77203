-- ===== src/Tests/Scheduling.antt =====
-- The scheduler (Scheduler.antt) on two processes, of which the first has a thread that waits.
use shipwreck.Base.{ℕ, ◌≡◌, ◌≤◌, refl, none, ◌==◌, arith, if◌then◌else◌}
use shipwreck.Base.Int.{pos}
use shipwreck.Process.{running, waiting}
use shipwreck.Scheduler.{Sched, max_proc_threads, thread_address, get_next_proc}
use shipwreck.Scheduler.RoundRobin.{switches, switches_serve}
use shipwreck.Scheduler.NextProcess.{Chosen, get_next_proc-Chosen}

abbrev sched : Sched
sched = record {
  at = λ t. record {
    run_state = if t == 3 then waiting else running;
    lock_next = none;
    signal_wait = none;
  };
  procs = λ p. record {
    thread_index = 2;
    num_running = p;
    msg = record { lock = record { owner = none; next = none }; signal = pos 0 };
  };
  num_procs = 2;
  proc_id = 0;
  this_thread = 2;
}

switches_serve_example :
    (n : ℕ) × (n ≤ max_proc_threads) × ((switches n sched).this_thread ≡ thread_address 0 1)
switches_serve_example = switches_serve sched 1 (omega arith) (omega arith) refl

get_next_proc-Chosen_example : Chosen 0 2 (get_next_proc sched)
get_next_proc-Chosen_example = get_next_proc-Chosen sched (omega arith)
