-- ===== src/Syscall/Sync.antt =====
-- src/system/syscall.cpp and threads.cpp: the system calls on locks, monitors and threads, with
-- get_lock and get_monitor of include/process.h. Handles are not negative: C's remainder of a negative
-- one is negative, and names memory in front of the table. The calls that may wait answer how far they
-- have come, as in Process.
pub mod NewThread
use shipwreck.Base.{
  ℕ, zero, suc, ◌+◌, ◌*◌, ◌%◌, ◌^◌, Bool, true, false, Option, none, some, ◌==◌, if◌then◌else◌,
  update,
}
use shipwreck.Base.Int.{ℤ}
use shipwreck.Process.{
  RunState, null, running, Thread, Lock, Monitor, Threads, Locked, Monitored, Others, lock, unlock,
  monitor, unmonitor, notify, inc32,
}
use shipwreck.Scheduler.{max_proc_threads}

-- The process that makes the call: its locks, monitors and threads, of which `this` is the current one.
pub record Caller : Type 0 where
  pub this : ℕ
  pub locks : ℕ → Lock
  pub monitors : ℕ → Monitor
  pub threads : Threads

-- MAX_PROC_LOCKS and MAX_PROC_MONITORS
abbrev pub max_proc_locks : ℕ
max_proc_locks = 64

abbrev pub max_proc_monitors : ℕ
max_proc_monitors = 64

abbrev pub get_lock : ℕ → Caller → Lock
get_lock h c = c.locks (h % max_proc_locks)

abbrev pub get_monitor : ℕ → Caller → Monitor
get_monitor h c = c.monitors (h % max_proc_monitors)

abbrev pub with_lock : ℕ → Lock → Threads → Caller → Caller
with_lock h l ts c = record c { locks = update c.locks (h % max_proc_locks) l; threads = ts }

abbrev pub with_monitor : ℕ → Monitor → Threads → Caller → Caller
with_monitor h m ts c = record c {
  monitors = update c.monitors (h % max_proc_monitors) m;
  threads = ts;
}

-- `syscall_lock`: whether the thread yields, and the process.
unfoldable pub syscall_lock : ℕ → Caller → Option (Bool × Caller)
syscall_lock h c = elim (lock c.this (get_lock h c) c.threads) [
  | none ↦ none
  | some r ↦ some (r.yields, with_lock h r.lock r.threads c)
]

unfoldable pub syscall_unlock : ℕ → Caller → Caller
syscall_unlock h c = let r = unlock (get_lock h c) c.threads in with_lock h r.0 r.1 c

-- What `monitor` leaves is put back; the signal waited for is that under the handle, and `others` is
-- what happens while it runs with interrupts on.
unfoldable pub syscall_monitor : ℕ → ℤ → Others → Caller → Option (Monitored × Caller)
syscall_monitor h diff others c =
    elim (monitor c.this (h % max_proc_monitors) diff others (get_monitor h c) c.threads) [
      | none ↦ none
      | some r ↦ some (r, with_monitor h r.mon r.threads c)
    ]

unfoldable pub syscall_unmonitor : ℕ → Caller → Caller
syscall_unmonitor h c = let r = unmonitor (get_monitor h c) c.threads in with_monitor h r.0 r.1 c

unfoldable pub syscall_notify : ℕ → ℤ → Caller → Caller
syscall_notify h diff c =
    let r = notify (h % max_proc_monitors) diff (get_monitor h c) c.threads in
    with_monitor h r.0 r.1 c

abbrev pub is_free : RunState → Bool
is_free null = true
is_free _ = false

-- The loop of `new_user_thread` over the process's threads, the first of which is `base`; its stacks
-- and its registers are left out.
unfoldable pub new_thread_from : ℕ → ℕ → ℕ → Threads → Option ℕ × Threads
new_thread_from zero base i ts = (none, ts)
new_thread_from (suc left) base i ts =
    let t = base + i in
    let rest = new_thread_from left base (i + 1) ts in
    let started = record ts {
      at = update ts.at t (record { run_state = running; lock_next = none; signal_wait = none });
      num_running = inc32 ts.num_running;
    } in
    if is_free (Thread.run_state (ts.at t)) then (some t, started) else rest

unfoldable pub new_user_thread : ℕ → Threads → Option ℕ × Threads
new_user_thread base ts = new_thread_from max_proc_threads base 0 ts

-- `syscall_new_thread` returns whether there is a thread.
unfoldable pub syscall_new_thread : ℕ → Caller → ℕ × Caller
syscall_new_thread base c =
    let r = new_user_thread base c.threads in
    ((elim r.0 [ none ↦ 0 | some t ↦ 1 ]), record c { threads = r.1 })
