-- ===== src/Tests/Calling.antt =====
-- System calls (Syscall/Dispatch.antt, Syscall/Sync.antt) with a kernel that keeps a record of them.
use shipwreck.Base.{ℕ, ◌+◌, ◌≡◌, none, some, List, [], ◌∷◌, ltb, if◌then◌else◌}
use shipwreck.Process.{Threads, null, waiting}
use shipwreck.Scheduler.{max_proc_threads}
use shipwreck.Syscall.Dispatch.{
  Kernel, SyscallTable, read_file, code_number, wrap, init_syscall, do_syscall,
}
use shipwreck.Syscall.Dispatch.Agree.{perform, do_syscall-wrap}
use shipwreck.Syscall.Sync.{new_user_thread}
use shipwreck.Syscall.Sync.NewThread.{Started, new_user_thread-Started}

-- Each call adds its code and its arguments, and returns the code.
abbrev logs : ℕ → List ℕ → List (List ℕ) → ℕ × List (List ℕ)
logs code args s = (code, (code ∷ args) ∷ s)

abbrev keeper : Kernel (List (List ℕ))
keeper = record {
  do_null = λ a. logs 0 (a ∷ []);
  do_alloc = λ a. logs 1 (a ∷ []);
  do_alloc_at = λ a b. logs 2 (a ∷ b ∷ []);
  do_open = λ a. logs 3 (a ∷ []);
  do_seek = λ a b. logs 4 (a ∷ b ∷ []);
  do_read = λ a b c. logs 5 (a ∷ b ∷ c ∷ []);
  do_write = λ a b c. logs 6 (a ∷ b ∷ c ∷ []);
  do_new_thread = λ a. logs 7 (a ∷ []);
  do_yield = logs 8 [];
  do_get_env = logs 9 [];
  do_subscribe = λ a. logs 10 (a ∷ []);
  do_lock = λ a. logs 11 (a ∷ []);
  do_unlock = λ a. logs 12 (a ∷ []);
  do_monitor = λ a b. logs 13 (a ∷ b ∷ []);
  do_unmonitor = λ a. logs 14 (a ∷ []);
  do_notify = λ a b. logs 15 (a ∷ b ∷ []);
  do_update_gui = logs 16 [];
  do_redraw_gui = logs 17 [];
}

abbrev empty_table : SyscallTable (List (List ℕ))
empty_table n = none

-- A read of 100 bytes from file 2 into address 4096, with the parameters at address 8192.
do_syscall-wrap_example :
    do_syscall
      (init_syscall keeper empty_table)
      (code_number (wrap 8192 (read_file 2 4096 100)).0)
      (wrap 8192 (read_file 2 4096 100)).1
      []
    ≡ some (perform keeper (read_file 2 4096 100) [])
do_syscall-wrap_example = do_syscall-wrap keeper empty_table 8192 (read_file 2 4096 100) []

-- Threads 16 and 17 of process 1 are in use.
abbrev two_threads : Threads
two_threads = record {
  at = λ t. record {
    run_state = if ltb t 18 then waiting else null;
    lock_next = none;
    signal_wait = none;
  };
  num_running = 1;
}

new_user_thread-Started_example :
    Started two_threads 16 (16 + max_proc_threads) (new_user_thread 16 two_threads)
new_user_thread-Started_example = new_user_thread-Started 16 two_threads
