-- ===== src/Syscall/Dispatch/Agree.antt =====
-- The user library and the kernel agree on system calls (system/syscall.cpp, include/system.h).
use shipwreck.Base.{ℕ, ◌≡◌, refl, some}
use shipwreck.Syscall.Dispatch.{
  Request, alloc, alloc_at, open_name, seek_to, read_file, write_file, new_thread, yield,
  get_environment, subscribe, lock_h, unlock_h, monitor_h, unmonitor_h, notify_h, update_gui,
  redraw_gui, Kernel, SyscallTable, code_number, wrap, init_syscall, do_syscall,
}

module _ {ℓ} {S : Type ℓ} where
  -- What is meant by a request.
  abbrev pub perform : Kernel S → Request → S → ℕ × S
  perform k (alloc pages) = k.do_alloc pages
  perform k (alloc_at pages vaddr) = k.do_alloc_at pages vaddr
  perform k (open_name name) = k.do_open name
  perform k (seek_to fh offset) = k.do_seek fh offset
  perform k (read_file fh buf len) = k.do_read fh buf len
  perform k (write_file fh buf len) = k.do_write fh buf len
  perform k (new_thread function) = k.do_new_thread function
  perform k yield = k.do_yield
  perform k get_environment = k.do_get_env
  perform k (subscribe event) = k.do_subscribe event
  perform k (lock_h h) = k.do_lock h
  perform k (unlock_h h) = k.do_unlock h
  perform k (monitor_h h diff) = k.do_monitor h diff
  perform k (unmonitor_h h) = k.do_unmonitor h
  perform k (notify_h h diff) = k.do_notify h diff
  perform k update_gui = k.do_update_gui
  perform k redraw_gui = k.do_redraw_gui

-- With the table that `init_syscall` fills in, whatever was there before: each request that the user
-- library makes reaches the function that is meant, with the arguments in their places, and returns
-- what that returns.
pub do_syscall-wrap {ℓ} :
    {S : Type ℓ} (k : Kernel S) (t : SyscallTable S) (p : ℕ) (r : Request) (s : S)
    → do_syscall (init_syscall k t) (code_number (wrap p r).0) (wrap p r).1 s ≡ some (perform k r s)
unfolding do_syscall init_syscall wrap
do_syscall-wrap k t p (alloc pages) s = refl
do_syscall-wrap k t p (alloc_at pages vaddr) s = refl
do_syscall-wrap k t p (open_name name) s = refl
do_syscall-wrap k t p (seek_to fh offset) s = refl
do_syscall-wrap k t p (read_file fh buf len) s = refl
do_syscall-wrap k t p (write_file fh buf len) s = refl
do_syscall-wrap k t p (new_thread function) s = refl
do_syscall-wrap k t p yield s = refl
do_syscall-wrap k t p get_environment s = refl
do_syscall-wrap k t p (subscribe event) s = refl
do_syscall-wrap k t p (lock_h h) s = refl
do_syscall-wrap k t p (unlock_h h) s = refl
do_syscall-wrap k t p (monitor_h h diff) s = refl
do_syscall-wrap k t p (unmonitor_h h) s = refl
do_syscall-wrap k t p (notify_h h diff) s = refl
do_syscall-wrap k t p update_gui s = refl
do_syscall-wrap k t p redraw_gui s = refl
