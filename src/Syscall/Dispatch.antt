-- ===== src/Syscall/Dispatch.antt =====
-- The way of a system call: src/include/system.h and src/system/api/system.cpp make the request,
-- src/system/syscall.cpp finds the function and hands it its arguments. What the functions do to the
-- kernel is the parameter `Kernel`; words have 32 bits.
pub mod Agree
use shipwreck.Base.{
  ℕ, zero, suc, ◌+◌, ◌-◌, ◌%◌, ◌^◌, Option, none, some, Bool, true, false, List, [], ◌∷◌, ◌==◌, leb,
  if◌then◌else◌, update, get_or,
}

-- `SyscallCode`, in its order; MAX is 18.
pub data SyscallCode : Type 0 where
  c_null c_alloc c_alloc_at c_open c_seek c_read c_write c_new_thread c_yield : SyscallCode
  c_get_env c_subscribe c_lock c_unlock c_monitor c_unmonitor c_notify c_update_gui : SyscallCode
  c_redraw_gui : SyscallCode

abbrev pub code_number : SyscallCode → ℕ
code_number c_null = 0
code_number c_alloc = 1
code_number c_alloc_at = 2
code_number c_open = 3
code_number c_seek = 4
code_number c_read = 5
code_number c_write = 6
code_number c_new_thread = 7
code_number c_yield = 8
code_number c_get_env = 9
code_number c_subscribe = 10
code_number c_lock = 11
code_number c_unlock = 12
code_number c_monitor = 13
code_number c_unmonitor = 14
code_number c_notify = 15
code_number c_update_gui = 16
code_number c_redraw_gui = 17

abbrev pub syscall_max : ℕ
syscall_max = 18

-- The argument word of a call, and the words of the structure that it points to, if it does.
pub record Args : Type 0 where
  pub word : ℕ
  pub field : ℕ → ℕ

-- What the kernel's functions do, by their arguments, and the word that they return.
pub record Kernel {ℓ} (S : Type ℓ) : Type ℓ where
  pub do_null : ℕ → S → ℕ × S
  pub do_alloc : ℕ → S → ℕ × S
  pub do_alloc_at : ℕ → ℕ → S → ℕ × S
  pub do_open : ℕ → S → ℕ × S
  pub do_seek : ℕ → ℕ → S → ℕ × S
  pub do_read : ℕ → ℕ → ℕ → S → ℕ × S
  pub do_write : ℕ → ℕ → ℕ → S → ℕ × S
  pub do_new_thread : ℕ → S → ℕ × S
  pub do_yield : S → ℕ × S
  pub do_get_env : S → ℕ × S
  pub do_subscribe : ℕ → S → ℕ × S
  pub do_lock : ℕ → S → ℕ × S
  pub do_unlock : ℕ → S → ℕ × S
  pub do_monitor : ℕ → ℕ → S → ℕ × S
  pub do_unmonitor : ℕ → S → ℕ × S
  pub do_notify : ℕ → ℕ → S → ℕ × S
  pub do_update_gui : S → ℕ × S
  pub do_redraw_gui : S → ℕ × S

-- What the user library is asked for.
pub data Request : Type 0 where
  alloc : ℕ → Request
  alloc_at : ℕ → ℕ → Request
  open_name : ℕ → Request
  seek_to : ℕ → ℕ → Request
  read_file write_file : ℕ → ℕ → ℕ → Request
  new_thread : ℕ → Request
  yield get_environment : Request
  subscribe lock_h unlock_h : ℕ → Request
  monitor_h : ℕ → ℕ → Request
  unmonitor_h : ℕ → Request
  notify_h : ℕ → ℕ → Request
  update_gui redraw_gui : Request

abbrev pub word_arg : ℕ → Args
word_arg n = record { word = n; field = λ i. 0 }

-- A structure of parameters at address `p`, its fields in the order of their declaration.
abbrev pub params : ℕ → List ℕ → Args
params p fields = record { word = p; field = λ i. get_or fields i 0 }

-- The library's wrappers: the code and the argument of the `syscall` that each makes.
unfoldable pub wrap : ℕ → Request → SyscallCode × Args
wrap p (alloc pages) = (c_alloc, word_arg pages)
wrap p (alloc_at pages vaddr) = (c_alloc_at, params p (pages ∷ vaddr ∷ []))
wrap p (open_name name) = (c_open, word_arg name)
wrap p (seek_to fh offset) = (c_seek, params p (fh ∷ offset ∷ []))
wrap p (read_file fh buf len) = (c_read, params p (fh ∷ buf ∷ len ∷ []))
wrap p (write_file fh buf len) = (c_write, params p (fh ∷ buf ∷ len ∷ []))
wrap p (new_thread function) = (c_new_thread, params p (function ∷ []))
wrap p yield = (c_yield, word_arg 0)
wrap p get_environment = (c_get_env, word_arg 0)
wrap p (subscribe event) = (c_subscribe, word_arg event)
wrap p (lock_h h) = (c_lock, word_arg h)
wrap p (unlock_h h) = (c_unlock, word_arg h)
wrap p (monitor_h h diff) = (c_monitor, params p (h ∷ diff ∷ []))
wrap p (unmonitor_h h) = (c_unmonitor, word_arg h)
wrap p (notify_h h diff) = (c_notify, params p (h ∷ diff ∷ []))
wrap p update_gui = (c_update_gui, word_arg 0)
wrap p redraw_gui = (c_redraw_gui, word_arg 0)

-- `sysapi::read` and `sysapi::write` first look whether the process has a driver of its own.
pub data Route : Type 0 where
  own_driver : ℕ → Route
  to_kernel : Request → Route

abbrev pub route : (ℕ → Option ℕ) → ℕ → Request → Route
route user_filetable fh r = elim (user_filetable (fh % 16)) [
  | none ↦ to_kernel r
  | some driver ↦ own_driver driver
]

unfoldable pub api_read : (ℕ → Option ℕ) → ℕ → ℕ → ℕ → Route
api_read user_filetable fh buf len = route user_filetable fh (read_file fh buf len)

unfoldable pub api_write : (ℕ → Option ℕ) → ℕ → ℕ → ℕ → Route
api_write user_filetable fh buf len = route user_filetable fh (write_file fh buf len)

abbrev pub SyscallFn {ℓ} : Type ℓ → Type ℓ
SyscallFn S = Args → S → ℕ × S

abbrev pub SyscallTable {ℓ} : Type ℓ → Type ℓ
SyscallTable S = ℕ → Option (SyscallFn S)

module _ {ℓ} {S : Type ℓ} where
  abbrev pub assign : SyscallCode → SyscallFn S → SyscallTable S → SyscallTable S
  assign c f t = update t (code_number c) (some f)

  -- The table that `init_syscall` fills in, in its order; the functions take their arguments apart.
  unfoldable pub init_syscall : Kernel S → SyscallTable S → SyscallTable S
  init_syscall k t =
      let t₁ = assign c_null (λ a. k.do_null a.word) t in
      let t₂ = assign c_alloc (λ a. k.do_alloc a.word) t₁ in
      let t₃ = assign c_alloc_at (λ a. k.do_alloc_at (a.field 0) (a.field 1)) t₂ in
      let t₄ = assign c_open (λ a. k.do_open a.word) t₃ in
      let t₅ = assign c_seek (λ a. k.do_seek (a.field 0) (a.field 1)) t₄ in
      let t₆ = assign c_read (λ a. k.do_read (a.field 0) (a.field 1) (a.field 2)) t₅ in
      let t₇ = assign c_write (λ a. k.do_write (a.field 0) (a.field 1) (a.field 2)) t₆ in
      let t₈ = assign c_new_thread (λ a. k.do_new_thread (a.field 0)) t₇ in
      let t₉ = assign c_yield (λ a. k.do_yield) t₈ in
      let u₁ = assign c_subscribe (λ a. k.do_subscribe a.word) t₉ in
      let u₂ = assign c_get_env (λ a. k.do_get_env) u₁ in
      let u₃ = assign c_lock (λ a. k.do_lock a.word) u₂ in
      let u₄ = assign c_unlock (λ a. k.do_unlock a.word) u₃ in
      let u₅ = assign c_monitor (λ a. k.do_monitor (a.field 0) (a.field 1)) u₄ in
      let u₆ = assign c_unmonitor (λ a. k.do_unmonitor a.word) u₅ in
      let u₇ = assign c_notify (λ a. k.do_notify (a.field 0) (a.field 1)) u₆ in
      let u₈ = assign c_update_gui (λ a. k.do_update_gui) u₇ in
      assign c_redraw_gui (λ a. k.do_redraw_gui) u₈

  abbrev pub called : Option (SyscallFn S) → Args → S → Option (ℕ × S)
  called none a s = none
  called (some f) a s = some (f a s)

  -- `do_syscall`; `none` is a jump to an entry that has not been set.
  unfoldable pub do_syscall : SyscallTable S → ℕ → Args → S → Option (ℕ × S)
  do_syscall t fn_code a s =
      if leb syscall_max fn_code then some (2 ^ 32 - 1, s) else called (t fn_code) a s
