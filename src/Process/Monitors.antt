-- ===== src/Process/Monitors.antt =====
-- `Process::monitor` and `Process::notify` of system/process.cpp: a signal that comes while a thread is
-- about to wait for it.
use shipwreck.Base.{
  ℕ, ◌<◌, ◌^◌, ◌≡◌, refl, true, ◌||◌, Option, none, some, arith, ◌==◌, if◌then◌else◌,
}
use shipwreck.Base.Int.{ℤ, pos, ◌≤ℤ◌, ◌<ℤ◌, ◌+ℤ◌, ◌-ℤ◌, ltb_ℤ}
use shipwreck.Process.{
  RunState, running, waiting, Thread, Monitor, Threads, at_signal, returned, Monitored, Others,
  MonitorPoint, before_owner, before_signal, tested, stored, stopped, over, is_thread, is_null,
  monitor, monitor_locked, test_signal, wait_signal, take_now, take_signal, notify, wakes,
}
use shipwreck.Process.Locks.{lock-taken}

-- What is left of a signal when up to `diff` is taken off.
abbrev pub left_of : ℤ → ℤ → ℤ
left_of signal diff = if ltb_ℤ (signal -ℤ diff) (pos 0) then pos 0 else signal -ℤ diff

abbrev number : MonitorPoint → ℕ
number before_owner = 0
number before_signal = 1
number tested = 2
number stored = 3
number stopped = 4
number over = 5

-- One `notify` at point `p`, and nothing at the others.
abbrev pub notified_at : MonitorPoint → ℕ → ℤ → Others
notified_at p m more q s = if number p == number q then notify m more s.0 s.1 else s

abbrev pub state_of : ℕ → Threads → RunState
state_of this ts = Thread.run_state (ts.at this)

-- The call did not wait: it has taken `diff` off the sum of the signals, down to 0.
pub record Taken (this : ℕ) (diff more : ℤ) (mon : Monitor) (ts : Threads) (r : Monitored)
    : Type 0 where
  pub progress : r.progress ≡ returned
  pub signal : r.mon.signal ≡ left_of (mon.signal +ℤ more) diff
  pub threads : r.threads ≡ ts

-- The thread sleeps with the signal raised; it is `waits_for` that the next `notify` looks at.
pub record Missed (this : ℕ) (more : ℤ) (mon : Monitor) (waits_for : Option ℕ) (r : Monitored)
    : Type 0 where
  pub progress : r.progress ≡ at_signal
  pub asleep : state_of this r.threads ≡ waiting
  pub signal : r.mon.signal ≡ mon.signal +ℤ more
  pub signal_wait : Thread.signal_wait (r.threads.at this) ≡ waits_for

-- The thread went to wait and is woken: it runs, as many threads run as before, and what is left of its
-- call takes `diff` off the sum of the signals, down to 0.
pub record Woken (this : ℕ) (diff more : ℤ) (mon : Monitor) (ts : Threads) (r : Monitored)
    (n : Monitor × Threads) : Type 0 where
  pub progress : r.progress ≡ at_signal
  pub awake : state_of this n.1 ≡ running
  pub signal_wait : Thread.signal_wait (Threads.at n.1 this) ≡ none
  pub count : Threads.num_running n.1 ≡ ts.num_running
  pub signal :
      Monitor.signal (Monitored.mon (take_signal diff n.0 n.1)) ≡ left_of (mon.signal +ℤ more) diff

abbrev pub Outcome : MonitorPoint → ℕ → ℕ → ℤ → ℤ → Monitor → Threads → Monitored → Type 0
Outcome before_owner this m diff more mon ts r = Taken this diff more mon ts r
Outcome before_signal this m diff more mon ts r = Taken this diff more mon ts r
Outcome tested this m diff more mon ts r = Missed this more mon (some m) r
Outcome stored this m diff more mon ts r = Missed this more mon none r
Outcome stopped this m diff more mon ts r = Woken this diff more mon ts r (r.mon, r.threads)
Outcome over this m diff more mon ts r =
    Woken this diff more mon ts r (notify m more r.mon r.threads)

module _ (this m : ℕ) (diff more : ℤ) (mon : Monitor) (ts : Threads) (low : mon.signal ≤ℤ pos 0)
    (up : pos 0 <ℤ mon.signal +ℤ more) (fits : ts.num_running < 2 ^ 32)
    (idle : Thread.signal_wait (ts.at this) ≡ none) where
  abbrev held : Monitor
  held = record mon { lock = record (mon.lock) { owner = some this } }

  locked-Outcome :
      (p : MonitorPoint)
      → Outcome p this m diff more mon ts
          (monitor_locked this m diff (notified_at p m more) held ts)
  unfolding monitor_locked test_signal wait_signal take_now notify wakes take_signal
  locked-Outcome before_owner = record {
    progress = ground arith;
    signal = ground arith;
    threads = ground arith;
  }
  locked-Outcome before_signal = record {
    progress = ground arith;
    signal = ground arith;
    threads = ground arith;
  }
  locked-Outcome tested = record {
    progress = ground arith;
    asleep = ground arith;
    signal = ground arith;
    signal_wait = ground arith;
  }
  locked-Outcome stored = record {
    progress = ground arith;
    asleep = ground arith;
    signal = ground arith;
    signal_wait = ground arith;
  }
  locked-Outcome stopped = record {
    progress = ground arith;
    awake = ground arith;
    signal_wait = ground arith;
    count = ground arith;
    signal = ground arith;
  }
  locked-Outcome over = record {
    progress = ground arith;
    awake = ground arith;
    signal_wait = ground arith;
    count = ground arith;
    signal = ground arith;
  }

-- A thread monitors a signal of at most 0, with the lock free or its own, and not marked as waiting;
-- meanwhile one `notify` makes the signal positive. If it comes before the test of the signal, the call
-- returns at once with `diff` taken off. If it comes between that test and the store of `runState`, it is
-- missed: the thread goes to sleep with the signal raised, and where it came after `signal_wait` was set
-- that mark is gone, so that no later `notify` wakes the thread. If it comes after that store or after
-- the thread has gone to wait, the thread runs again, the count of running threads is as it was before,
-- and its call returns with `diff` taken off.
pub monitor-notify :
    (p : MonitorPoint) (this m : ℕ) (diff more : ℤ) (mon : Monitor) (ts : Threads)
    → (is_thread mon.lock.owner this || is_null mon.lock.owner) ≡ true
    → mon.signal ≤ℤ pos 0
    → pos 0 <ℤ mon.signal +ℤ more
    → ts.num_running < 2 ^ 32
    → Thread.signal_wait (ts.at this) ≡ none
    → (r : Monitored) × (monitor this m diff (notified_at p m more) mon ts ≡ some r)
      × Outcome p this m diff more mon ts r
unfolding monitor
monitor-notify p this m diff more mon ts own low up fits idle = (
  monitor_locked this m diff (notified_at p m more)
      (record mon { lock = record (mon.lock) { owner = some this } }) ts,
  rw (lock-taken this mon.lock ts own, monitor) refl,
  locked-Outcome this m diff more mon ts low up fits idle p,
)
