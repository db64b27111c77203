-- ===== src/Process.antt =====
-- src/system/process.cpp with process.h, locks.h and threads.h: locks, whose waiters queue through
-- the threads' `lock_next`, and monitors. A thread is the number that stands for its address,
-- `none` is nullptr. `lock`, `unlock`, `unmonitor` and `notify` run with interrupts off, so each is one
-- step. `monitor` does not: its call of `lock` ends in `sti`, and what others do between its statements
-- is a parameter. Where a method ends in `yield`, the result says so, and what follows the yield is a
-- function of its own.
pub mod Chain
pub mod Locks
pub mod Turns
pub mod Monitors
use shipwreck.Base.{
  ℕ, zero, suc, ◌+◌, ◌-◌, ◌%◌, ◌^◌, Bool, true, false, ◌||◌, Option, none, some, ◌==◌,
  if◌then◌else◌, update,
}
use shipwreck.Base.Int.{ℤ, pos, negsuc, ◌+ℤ◌, ◌-ℤ◌, ltb_ℤ, leb_ℤ}

pub data RunState : Type 0 where
  null running waiting done : RunState

-- `signal_wait` is the number of the monitor whose signal is waited for.
pub record Thread : Type 0 where
  pub run_state : RunState
  pub lock_next : Option ℕ
  pub signal_wait : Option ℕ

pub record Lock : Type 0 where
  pub owner : Option ℕ
  pub next : Option ℕ

pub record Monitor : Type 0 where
  pub lock : Lock
  pub signal : ℤ

-- All threads, and `num_running_threads` of the process that a method is called on.
pub record Threads : Type 0 where
  pub at : ℕ → Thread
  pub num_running : ℕ

-- The threads of all processes: MAX_PROCS * MAX_PROC_THREADS.
abbrev pub max_threads : ℕ
max_threads = 256

-- `num_running_threads--` on a 32-bit uint.
abbrev pub dec32 : ℕ → ℕ
dec32 n = (n + 2 ^ 32 - 1) % 2 ^ 32

abbrev pub inc32 : ℕ → ℕ
inc32 n = (n + 1) % 2 ^ 32

-- `lock->owner == thisThread`
abbrev pub is_thread : Option ℕ → ℕ → Bool
is_thread none t = false
is_thread (some u) t = u == t

abbrev pub is_null : Option ℕ → Bool
is_null none = true
is_null (some u) = false

-- The walk to the last waiter; `none` where the links run on for longer than the fuel.
unfoldable pub last_waiter : ℕ → (ℕ → Thread) → ℕ → Option ℕ
last_waiter zero at t = none
last_waiter (suc f) at t = elim (at t).lock_next [ none ↦ some t | some u ↦ last_waiter f at u ]

abbrev pub set_lock_next : (ℕ → Thread) → ℕ → Option ℕ → ℕ → Thread
set_lock_next at t n = update at t (record (at t) { lock_next = n })

abbrev pub set_run_state : (ℕ → Thread) → ℕ → RunState → ℕ → Thread
set_run_state at t s = update at t (record (at t) { run_state = s })

abbrev pub set_signal_wait : (ℕ → Thread) → ℕ → Option ℕ → ℕ → Thread
set_signal_wait at t w = update at t (record (at t) { signal_wait = w })

-- What a method leaves: whether it went on to `yield`, the lock and the threads.
pub record Locked : Type 0 where
  pub yields : Bool
  pub lock : Lock
  pub threads : Threads

-- The thread stops, and the method yields.
pub suspended : ℕ → Lock → (ℕ → Thread) → ℕ → Locked
suspended this l at num = record {
  yields = true;
  lock = l;
  threads = record { at = set_run_state at this waiting; num_running = dec32 num };
}

-- The thread starts the queue or goes to its end.
unfoldable pub queue_up : ℕ → Lock → (ℕ → Thread) → ℕ → Option ℕ → Option Locked
unfolding suspended
queue_up this l at num none = some (suspended this (record l { next = some this }) at num)
queue_up this l at num (some first) = elim (last_waiter max_threads at first) [
  | none ↦ none
  | some last ↦ some (suspended this l (set_lock_next at last (some this)) num)
]

-- The waiting part of `Process::lock`.
unfoldable pub wait_for : ℕ → Lock → Threads → Option Locked
unfolding queue_up
wait_for this l ts = queue_up this l (set_lock_next ts.at this none) ts.num_running l.next

-- `Process::lock`: taken at once if the thread has it or it is free, else the thread waits.
unfoldable pub lock : ℕ → Lock → Threads → Option Locked
unfolding wait_for last_waiter
lock this l ts =
    if is_thread l.owner this || is_null l.owner
    then some (record { yields = false; lock = record l { owner = some this }; threads = ts })
    else wait_for this l ts

-- `lock->owner = lock->next`, and what follows if that is a thread.
pub handed : Lock → Threads → Option ℕ → Lock × Threads
handed l ts none = (record l { owner = none }, ts)
handed l ts (some t) = (
  record { owner = some t; next = (ts.at t).lock_next },
  record ts { at = set_lock_next (set_run_state ts.at t running) t none },
)

-- `Process::unlock`: the first waiter gets the lock and runs. There is no check of the owner.
unfoldable pub unlock : Lock → Threads → Lock × Threads
unfolding handed
unlock l ts = handed l ts l.next

-- Where a call of `Process::monitor` stands: waiting for the lock, for the signal, or returned.
pub data Progress : Type 0 where
  at_lock at_signal returned : Progress

pub record Monitored : Type 0 where
  pub progress : Progress
  pub mon : Monitor
  pub threads : Threads

-- The signal with `diff` taken off, and cut at 0.
abbrev pub less_signal : ℤ → Monitor → Monitor
less_signal diff mon = record mon { signal = mon.signal -ℤ diff }

abbrev pub clamp_signal : Monitor → Monitor
clamp_signal mon = record mon { signal = if ltb_ℤ mon.signal (pos 0) then pos 0 else mon.signal }

-- What follows the wait for the signal in `Process::monitor`, with interrupts off.
unfoldable pub take_signal : ℤ → Monitor → Threads → Monitored
take_signal diff mon ts = record {
  progress = returned;
  mon = clamp_signal (less_signal diff mon);
  threads = ts;
}

-- The points of `Process::monitor` at which interrupts are on: before the tests of the owner and of the
-- signal, after the latter, after the first assignment that follows, and after `runState` is set. The
-- last is no point of it.
pub data MonitorPoint : Type 0 where
  before_owner before_signal tested stored stopped over : MonitorPoint

-- What the rest of the system does at these points.
abbrev pub Others : Type 0
Others = MonitorPoint → Monitor × Threads → Monitor × Threads

-- A positive signal is taken at once, statement by statement.
unfoldable pub take_now : ℤ → Others → Monitor × Threads → Monitored
take_now diff others (mon, ts) =
    let s = others stored (less_signal diff mon, ts) in
    record { progress = returned; mon = clamp_signal s.0; threads = s.1 }

-- The thread goes to wait for the signal, up to its `yield`.
unfoldable pub wait_signal : ℕ → ℕ → Others → Monitor × Threads → Monitored
wait_signal this m others (mon, ts) =
    let s = others stored (mon, record ts { at = set_signal_wait ts.at this (some m) }) in
    let asleep : Threads = record (s.1) { at = set_run_state (Threads.at s.1) this waiting } in
    let s' = others stopped (s.0, asleep) in
    record {
      progress = at_signal;
      mon = s'.0;
      threads = record (s'.1) { num_running = dec32 (Threads.num_running s'.1) };
    }

unfoldable pub test_signal : ℕ → ℕ → ℤ → Others → Monitor × Threads → Monitored
unfolding take_now wait_signal
test_signal this m diff others (mon, ts) =
    let s = others tested (mon, ts) in
    if leb_ℤ mon.signal (pos 0) then wait_signal this m others s else take_now diff others s

-- `Process::monitor` from the return of `lock` on, at once or after the wait in it.
unfoldable pub monitor_locked : ℕ → ℕ → ℤ → Others → Monitor → Threads → Monitored
unfolding test_signal
monitor_locked this m diff others mon ts =
    let s = others before_owner (mon, ts) in
    if is_thread (Lock.owner (Monitor.lock s.0)) this
    then test_signal this m diff others (others before_signal s)
    else record { progress = returned; mon = s.0; threads = s.1 }

-- `Process::monitor` up to its first `yield`.
unfoldable pub monitor : ℕ → ℕ → ℤ → Others → Monitor → Threads → Option Monitored
unfolding monitor_locked lock
monitor this m diff others mon ts = elim (lock this mon.lock ts) [
  | none ↦ none
  | some r ↦
      let mon' = record mon { lock = r.lock } in
      if r.yields
      then some (record { progress = at_lock; mon = mon'; threads = r.threads })
      else some (monitor_locked this m diff others mon' r.threads)
]

-- `Process::unmonitor`, on the monitor that the current process has under the handle.
unfoldable pub unmonitor : Monitor → Threads → Monitor × Threads
unfolding unlock
unmonitor mon ts = let (l, ts') = unlock mon.lock ts in (record mon { lock = l }, ts')

-- The thread that `Process::notify` wakes: the owner, if it waits for this signal.
unfoldable pub wakes : ℕ → Monitor → (ℕ → Thread) → Option ℕ
wakes m mon at =
    if ltb_ℤ (pos 0) mon.signal
    then elim mon.lock.owner [
      | none ↦ none
      | some o ↦ if is_thread (at o).signal_wait m then some o else none
    ]
    else none

unfoldable pub notify : ℕ → ℤ → Monitor → Threads → Monitor × Threads
unfolding wakes
notify m diff mon ts =
    let mon' = record mon { signal = mon.signal +ℤ diff } in
    (
      mon',
      elim (wakes m mon' ts.at) [
        | none ↦ ts
        | some o ↦ record {
          at = set_run_state (set_signal_wait ts.at o none) o running;
          num_running = inc32 ts.num_running;
        }
      ],
    )
