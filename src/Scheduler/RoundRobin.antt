-- ===== src/Scheduler/RoundRobin.antt =====
-- `get_next_thread` of system/scheduler.cpp serves the running threads of a process in turn.
use shipwreck.Base.{
  ℕ, zero, suc, ◌+◌, ◌-◌, ◌%◌, ◌≤◌, ◌<◌, ◌≡◌, ◌≢◌, refl, ap, ◌∙◌, sym, ◌⊎◌, ◌==◌, update,
  update_self, ℕ_discrete, inl, inr, Bool, true, false, Option, none, some, arith, Bool-cases,
  if◌then◌else◌, dec_lt,
}
use shipwreck.Scheduler.{
  Sched, max_proc_threads, runnable, scan_threads, get_next_thread, set_thread, thread_address,
}

abbrev pub Passed : (ℕ → Bool) → ℕ → ℕ → Type 0
Passed up i k = (m : ℕ) → m < k → up ((i + m) % max_proc_threads) ≡ false

-- The loop stops at the first thread that runs.
pub data Scanned (up : ℕ → Bool) (left i : ℕ) (r : Option ℕ) : Type 0 where
  nothing : r ≡ none → Passed up i left → Scanned up left i r
  first :
      (k : ℕ)
      → k < left
      → r ≡ some ((i + k) % max_proc_threads)
      → up ((i + k) % max_proc_threads) ≡ true
      → Passed up i k
      → Scanned up left i r

Passed-suc :
    (up : ℕ → Bool) (i k : ℕ)
    → up (i % max_proc_threads) ≡ false
    → Passed up (i + 1) k
    → Passed up i (suc k)
Passed-suc up i k e h zero lt = ap (λ j. up (j % max_proc_threads)) (omega arith) ∙ e
Passed-suc up i k e h (suc m) lt =
    ap (λ j. up (j % max_proc_threads)) (omega arith) ∙ h m (omega arith)

pub scan_threads-Scanned : (up : ℕ → Bool) (left i : ℕ) → Scanned up left i (scan_threads up left i)
unfolding scan_threads
scan_threads-Scanned up zero i = nothing refl (λ m lt. absurd (omega arith))
scan_threads-Scanned up (suc left) i = elim (Bool-cases (up (i % max_proc_threads))) [
  | inl e ↦
      first 0 (omega arith) (rw e (ap (λ j. some (j % max_proc_threads)) (omega arith)))
        (ap (λ j. up (j % max_proc_threads)) (omega arith) ∙ e) (λ m lt. absurd (omega arith))
  | inr e ↦ rw e (later e (scan_threads-Scanned up left (i + 1)))
]
  where
    later :
        up (i % max_proc_threads) ≡ false
        → Scanned up left (i + 1) (scan_threads up left (i + 1))
        → Scanned up (suc left) i (scan_threads up left (i + 1))
    later e (nothing n p) = nothing n (Passed-suc up i left e p)
    later e (first k lt r u p) =
        first (suc k) (omega arith) (r ∙ ap (λ j. some (j % max_proc_threads)) (omega arith))
          (ap (λ j. up (j % max_proc_threads)) (omega arith) ∙ u) (Passed-suc up i k e p)

-- How many threads stand before `t` in the turn after thread `from`.
abbrev pub ahead : ℕ → ℕ → ℕ
ahead from t = (t + 15 - from) % max_proc_threads

module _ (up : ℕ → Bool) (from t r : ℕ) (here : from < max_proc_threads)
    (there : t < max_proc_threads) (on : up t ≡ true) where
  at_ahead : up ((1 + from + ahead from t) % max_proc_threads) ≡ true
  at_ahead = ap up (omega arith) ∙ on

  closer :
      (k : ℕ)
      → k < max_proc_threads
      → Passed up (1 + from) k
      → r ≡ (1 + from + k) % max_proc_threads
      → t ≢ r
      → ahead r t < ahead from t
  closer k lt p e ne = elim (dec_lt (ahead from t) k) [
    | yes before ↦ cc (sym at_ahead ∙ p (ahead from t) before)
    | no after ↦ omega arith
  ]

-- The two outcomes of `get_next_thread`: the nearest running thread of the turn, or none runs.
pub data Choice (s : Sched) (from : ℕ) : ℕ × Sched → Type 0 where
  nearest :
      (r : ℕ)
      → r < max_proc_threads
      → runnable s r ≡ true
      → ((t : ℕ) → t < max_proc_threads → runnable s t ≡ true → ahead from r ≤ ahead from t)
      → Choice s from (r, s)
  idle :
      ((t : ℕ) → t < max_proc_threads → runnable s t ≡ false)
      → Choice s from (
        if s.proc_id == 0 then 0 else from,
        record s {
          procs = update s.procs s.proc_id (record (s.procs s.proc_id) { num_running = 0 });
        },
      )

choice :
    (s : Sched) (o : Option ℕ)
    → (s.procs s.proc_id).thread_index < max_proc_threads
    → scan_threads (runnable s) max_proc_threads (1 + (s.procs s.proc_id).thread_index) ≡ o
    → Scanned (runnable s) max_proc_threads (1 + (s.procs s.proc_id).thread_index) o
    → Choice s (s.procs s.proc_id).thread_index (get_next_thread s)
unfolding get_next_thread
choice s o here e (nothing n p) =
    rw (e ∙ n, get_next_thread)
      (idle (λ t lt.
        ap (runnable s) (omega arith) ∙ p (ahead (s.procs s.proc_id).thread_index t) (omega arith)))
choice s o here e (first k lt r u p) =
    rw (e ∙ r, get_next_thread)
      (nearest _ (omega arith) u (λ t lt' on.
        elim (dec_lt (ahead (s.procs s.proc_id).thread_index t) k) [
          | yes before ↦ cc (
              sym (at_ahead (runnable s) (s.procs s.proc_id).thread_index t 0 here lt' on)
              ∙ p _ before)
          | no after ↦ omega arith
        ]))

-- In a process whose current thread has an index below 16, `get_next_thread` changes nothing and
-- returns the running thread that comes first in the turn after the current one; where no thread
-- runs it clears the count of running threads, and returns the idle thread 0 in the kernel process
-- and the current thread in any other.
pub get_next_thread_lem :
    (s : Sched)
    → (s.procs s.proc_id).thread_index < max_proc_threads
    → Choice s (s.procs s.proc_id).thread_index (get_next_thread s)
get_next_thread_lem s here = choice s _ here refl (scan_threads-Scanned _ _ _)

-- One switch of threads within a process, and so many in a row.
pub switch_thread : Sched → Sched
switch_thread s = let (t, s') = get_next_thread s in set_thread t s'

pub switches : ℕ → Sched → Sched
switches zero s = s
switches (suc n) s = switches n (switch_thread s)

-- A switch in a process where thread `t` runs: it takes a turn, and `t` comes nearer.
record Turn (s : Sched) (t : ℕ) (s' : Sched) : Type 0 where
  at : s'.at ≡ s.at
  proc_id : s'.proc_id ≡ s.proc_id
  small : (s'.procs s.proc_id).thread_index < max_proc_threads
  current : s'.this_thread ≡ thread_address s.proc_id (s'.procs s.proc_id).thread_index
  nearer :
      ((s'.procs s.proc_id).thread_index ≡ t)
      ⊎ (ahead (s'.procs s.proc_id).thread_index t < ahead (s.procs s.proc_id).thread_index t)

module _ (s : Sched) (t : ℕ) (there : t < max_proc_threads) (on : runnable s t ≡ true) where
  one_switch :
      (o : ℕ × Sched)
      → (s.procs s.proc_id).thread_index < max_proc_threads
      → Choice s (s.procs s.proc_id).thread_index o
      → Turn s t (set_thread o.0 o.1)
  unfolding set_thread
  one_switch o here (nearest r lt u best) = record {
    at = refl;
    proc_id = refl;
    small = rw (update_self s.procs s.proc_id (record (s.procs s.proc_id) { thread_index = r })) lt;
    current = rw (update_self s.procs s.proc_id (record (s.procs s.proc_id) { thread_index = r }));
    nearer =
        rw (update_self s.procs s.proc_id (record (s.procs s.proc_id) { thread_index = r }))
          (near r lt (best t there on));
  }
    where
      near :
          (r : ℕ)
          → r < max_proc_threads
          → ahead (s.procs s.proc_id).thread_index r ≤ ahead (s.procs s.proc_id).thread_index t
          → (r ≡ t) ⊎ (ahead r t < ahead (s.procs s.proc_id).thread_index t)
      near r lt le = elim (ℕ_discrete r t) [ yes e ↦ inl e | no ne ↦ inr (omega arith) ]
  one_switch o here (idle none_run) = cc (sym on ∙ none_run t there)

serve :
    (f : ℕ) (s : Sched) (t : ℕ)
    → (s.procs s.proc_id).thread_index < max_proc_threads
    → t < max_proc_threads
    → runnable s t ≡ true
    → ahead (s.procs s.proc_id).thread_index t < f
    → (n : ℕ) × (n ≤ f) × ((switches n s).this_thread ≡ thread_address s.proc_id t)
unfolding switches switch_thread
serve zero s t here there on h = absurd (omega arith)
serve (suc f) s t here there on h = elim turn.nearer [
  | inl e ↦ (1, omega arith, turn.current ∙ ap (thread_address s.proc_id) e)
  | inr lt ↦
      let (n, le, done) =
        serve f s' t (rw turn.proc_id turn.small) there (rw (turn.at, turn.proc_id) on)
          (rw turn.proc_id (omega arith)) in
      (suc n, omega arith, done ∙ ap (λ p. thread_address p t) turn.proc_id)
]
  where
    s' : Sched
    s' = switch_thread s

    turn : Turn s t s'
    turn = one_switch s t there on (get_next_thread s) here (get_next_thread_lem s here)

-- No thread of a process starves: while the states stay as they are, and the current thread has
-- an index below 16, a running thread with an index below 16 is the current one after some number
-- of switches, which is at most 16.
pub switches_serve :
    (s : Sched) (t : ℕ)
    → (s.procs s.proc_id).thread_index < max_proc_threads
    → t < max_proc_threads
    → runnable s t ≡ true
    → (n : ℕ) × (n ≤ max_proc_threads) × ((switches n s).this_thread ≡ thread_address s.proc_id t)
switches_serve s t here there on = serve max_proc_threads s t here there on (omega arith)
