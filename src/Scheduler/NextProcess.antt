-- ===== src/Scheduler/NextProcess.antt =====
-- Which process `get_next_proc` of system/scheduler.cpp returns.
use shipwreck.Base.{
  ℕ, zero, suc, ◌+◌, ◌-◌, ◌%◌, ◌≤◌, ◌<◌, ◌≢◌, refl, arith, Bool-cases, inl, inr, ltb, ltb→lt,
  add-mod-ne,
}
use shipwreck.Scheduler.{Sched, notify_proc, scan_procs, get_next_proc}

-- What is known of the process returned by a search for a successor of process `p`.
pub record Chosen (p n : ℕ) (o : ℕ × Sched) : Type 0 where
  pub exists : o.0 < n
  pub ready : o.0 ≢ 0 → 0 < (o.1.procs o.0).num_running
  pub other : o.0 ≢ 0 → o.0 ≢ p

scan_procs-Chosen :
    (left i : ℕ) (s : Sched)
    → s.proc_id < s.num_procs
    → 0 < i
    → i + left ≤ s.num_procs
    → Chosen s.proc_id s.num_procs (scan_procs left i s)
unfolding scan_procs notify_proc
scan_procs-Chosen zero i s h hi hl = record {
  exists = omega arith;
  ready = λ ne. absurd (ne refl);
  other = λ ne. absurd (ne refl);
}
scan_procs-Chosen (suc left) i s h hi hl =
    elim (Bool-cases (
      ltb 0
        ((notify_proc ((s.proc_id + i) % s.num_procs) s).procs
          ((s.proc_id + i) % s.num_procs)).num_running)) [
            | inl e ↦
                rw (e, scan_procs)
                  (record {
                    exists = omega arith;
                    ready = λ ne. ltb→lt _ _ e;
                    other = λ ne. add-mod-ne s.proc_id i s.num_procs h hi (omega arith);
                  })
            | inr e ↦
                rw (e, scan_procs)
                  (scan_procs-Chosen left (i + 1) (notify_proc ((s.proc_id + i) % s.num_procs) s) h
                    (omega arith) (let le : i + 1 + left ≤ s.num_procs = omega arith in le))
          ]

-- With the current process in the table, `get_next_proc` returns a process of the table; any but
-- the kernel's has a positive count of running threads, and is never the current one: when the
-- current process is the only one that can run, the kernel process is chosen.
pub get_next_proc-Chosen :
    (s : Sched) → s.proc_id < s.num_procs → Chosen s.proc_id s.num_procs (get_next_proc s)
unfolding get_next_proc notify_proc
get_next_proc-Chosen s h =
    scan_procs-Chosen (s.num_procs - 1) 1 (notify_proc 0 s) h (omega arith) (omega arith)
