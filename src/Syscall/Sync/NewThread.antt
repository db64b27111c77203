-- ===== src/Syscall/Sync/NewThread.antt =====
-- What `new_user_thread` (system/threads.cpp) starts.
use shipwreck.Base.{
  ℕ, zero, suc, ◌+◌, ◌≤◌, ◌<◌, ◌≡◌, ◌∙◌, refl, ap, subst, Bool, Bool-cases, true, false, inl, inr,
  Option, none, some, arith, update,
}
use native.Mathlib.Decide.{ℕ_discrete}
use shipwreck.Process.{Thread, Threads, running, inc32}
use shipwreck.Scheduler.{max_proc_threads}
use shipwreck.Syscall.Sync.{is_free, new_thread_from, new_user_thread}

-- Whether thread `t` has not been started.
abbrev pub unused : Threads → ℕ → Bool
unused ts t = is_free (Thread.run_state (ts.at t))

abbrev pub fresh_thread : Thread
fresh_thread = record { run_state = running; lock_next = none; signal_wait = none }

-- No thread from `lo` up to `hi` is unused.
abbrev pub AllUsed : Threads → ℕ → ℕ → Type 0
AllUsed ts lo hi = (t : ℕ) → lo ≤ t → t < hi → unused ts t ≡ false

-- The first unused thread is started, and nothing else happens but that it is counted; or all are
-- in use and nothing happens.
abbrev pub Started : Threads → ℕ → ℕ → Option ℕ × Threads → Type 0
Started ts lo hi (none, ts') = AllUsed ts lo hi × (ts' ≡ ts)
Started ts lo hi (some t, ts') =
    (lo ≤ t)
    × (t < hi)
    × (unused ts t ≡ true)
    × AllUsed ts lo t
    × (ts' ≡ record { at = update ts.at t fresh_thread; num_running = inc32 ts.num_running })

-- One more thread in front that is in use.
one_more :
    (ts : Threads) (lo hi : ℕ) (r : Option ℕ × Threads)
    → unused ts lo ≡ false
    → Started ts (lo + 1) hi r
    → Started ts lo hi r
one_more ts lo hi (none, ts') u s = (below, s.1)
  where
    below : AllUsed ts lo hi
    below t h k = elim (ℕ_discrete t lo) [
      | yes e ↦ ap (unused ts) e ∙ u
      | no ne ↦ s.0 t (omega arith) k
    ]
one_more ts lo hi (some v, ts') u s = (omega (arith, s.0), s.1, s.2, below, s.4)
  where
    below : AllUsed ts lo v
    below t h k = elim (ℕ_discrete t lo) [
      | yes e ↦ ap (unused ts) e ∙ u
      | no ne ↦ s.3 t (omega arith) k
    ]

new_thread_from-Started :
    (left base i : ℕ) (ts : Threads)
    → Started ts (base + i) (base + i + left) (new_thread_from left base i ts)
unfolding new_thread_from
new_thread_from-Started zero base i ts = ((λ t h k. absurd (omega arith)), refl)
new_thread_from-Started (suc left) base i ts = elim (Bool-cases (unused ts (base + i))) [
  | inl e ↦ rw e (omega arith, omega arith, e, (λ t h k. absurd (omega arith)), refl)
  | inr e ↦ rw e (
      one_more ts (base + i) (base + i + suc left) _ e (
        subst (λ h. Started ts h (base + i + suc left) (new_thread_from left base (i + 1) ts))
          (omega arith)
          (subst (λ h. Started ts (base + (i + 1)) h (new_thread_from left base (i + 1) ts))
            (omega arith) (new_thread_from-Started left base (i + 1) ts))))
]

-- `new_user_thread` in a process whose 16 threads stand at `base`: it starts the first one that is
-- unused, with no links, and counts it as running, and every other thread stays as it was; where all
-- are in use it answers nullptr and changes nothing.
pub new_user_thread-Started :
    (base : ℕ) (ts : Threads) → Started ts base (base + max_proc_threads) (new_user_thread base ts)
unfolding new_user_thread
new_user_thread-Started base ts =
    subst (λ b. Started ts b (b + max_proc_threads) (new_thread_from max_proc_threads base 0 ts))
      (omega arith) (new_thread_from-Started max_proc_threads base 0 ts)
