-- ===== src/Scheduler.antt =====
-- src/system/scheduler.cpp: the timer interrupt chooses a process and one of its threads. The
-- addresses of the threads of process `p` are `p * 16 + t`; the message monitor of process `p` has
-- the number `p`. The hardware side (`cr3`, `esp0`, the end of interrupt) and the tag on the
-- screen are left out.
pub mod RoundRobin
pub mod NextProcess
use shipwreck.Base.{
  ℕ, zero, suc, ◌+◌, ◌-◌, ◌*◌, ◌%◌, Bool, true, false, Option, none, some, ◌==◌, ltb, if◌then◌else◌,
  update,
}
use shipwreck.Base.Int.{pos}
use shipwreck.Process.{Thread, RunState, running, Monitor, Threads, notify}

pub record Proc : Type 0 where
  pub thread_index : ℕ
  pub num_running : ℕ
  pub msg : Monitor

pub record Sched : Type 0 where
  pub at : ℕ → Thread
  pub procs : ℕ → Proc
  pub num_procs : ℕ
  pub proc_id : ℕ
  pub this_thread : ℕ

abbrev pub max_proc_threads : ℕ
max_proc_threads = 16

abbrev pub thread_address : ℕ → ℕ → ℕ
thread_address p t = p * max_proc_threads + t

abbrev pub is_running : RunState → Bool
is_running RunState.running = true
is_running _ = false

-- `procs[p].notify(MSG_MONITOR, 0)`
unfoldable pub notify_proc : ℕ → Sched → Sched
notify_proc p s =
    let q = s.procs p in
    let (msg, ts) = notify p (pos 0) q.msg (record { at = s.at; num_running = q.num_running }) in
    record s {
      at = ts.at;
      procs = update s.procs p (record q { num_running = ts.num_running; msg = msg });
    }

-- The loop of `get_next_proc`, from round `i` with `left` rounds to go.
unfoldable pub scan_procs : ℕ → ℕ → Sched → ℕ × Sched
scan_procs zero i s = (0, s)
scan_procs (suc left) i s =
    let p = (s.proc_id + i) % s.num_procs in
    let s' = notify_proc p s in
    elim (ltb 0 (s'.procs p).num_running) [ true ↦ (p, s') | false ↦ scan_procs left (i + 1) s' ]

unfoldable pub get_next_proc : Sched → ℕ × Sched
unfolding scan_procs notify_proc
get_next_proc s = scan_procs (s.num_procs - 1) 1 (notify_proc 0 s)

unfoldable pub set_proc : ℕ → Sched → Sched
set_proc p s = record s { proc_id = p }

-- The loop of `get_next_thread` over the states of the process's threads.
unfoldable pub scan_threads : (ℕ → Bool) → ℕ → ℕ → Option ℕ
scan_threads up zero i = none
scan_threads up (suc left) i =
    let rest = scan_threads up left (i + 1) in
    if up (i % max_proc_threads) then some (i % max_proc_threads) else rest

abbrev pub runnable : Sched → ℕ → Bool
runnable s t = is_running (s.at (thread_address s.proc_id t)).run_state

unfoldable pub get_next_thread : Sched → ℕ × Sched
unfolding scan_threads
get_next_thread s =
    let q = s.procs s.proc_id in
    elim (scan_threads (runnable s) max_proc_threads (1 + q.thread_index)) [
      | some t ↦ (t, s)
      | none ↦ (
        if s.proc_id == 0 then 0 else q.thread_index,
        record s { procs = update s.procs s.proc_id (record q { num_running = 0 }) },
      )
    ]

unfoldable pub set_thread : ℕ → Sched → Sched
set_thread t s = record s {
  procs = update s.procs s.proc_id (record (s.procs s.proc_id) { thread_index = t });
  this_thread = thread_address s.proc_id t;
}

unfoldable pub timer_interrupt : Sched → Sched
unfolding get_next_proc set_proc get_next_thread set_thread
timer_interrupt s =
    let (p, s₁) = get_next_proc s in
    let (t, s₂) = get_next_thread (set_proc p s₁) in set_thread t s₂
