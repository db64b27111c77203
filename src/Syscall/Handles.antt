-- ===== src/Syscall/Handles.antt =====
-- Opening a file and using its handle (system/syscall.cpp).
use shipwreck.Base.{
  ℕ, zero, suc, ◌+◌, ◌<◌, ◌≡◌, ◌≢◌, ◌∙◌, refl, sym, ap, leb, false, ℕ_discrete, Option, none, some,
  arith, Option-cases, inl, inr, update, update_self, update_ne,
}
use shipwreck.Base.Int.{ℤ, pos, negsuc}
use shipwreck.Syscall.{
  Files, max_proc_files, alloc_from, alloc_proc_filehandle, get_file_by_handle, syscall_open,
  with_file,
}

-- The two outcomes of an allocation: the first free entry takes the file, or no entry is free.
pub data Allocated (file : Option ℕ) (files : Files) : ℤ × Files → Type 0 where
  entry :
      (f : ℕ)
      → f < max_proc_files
      → files f ≡ none
      → ((g : ℕ) → g < f → files g ≢ none)
      → Allocated file files (pos f, update files f file)
  full : ((g : ℕ) → g < max_proc_files → files g ≢ none) → Allocated file files (negsuc 0, files)

alloc_from-Allocated :
    (left f : ℕ) (file : Option ℕ) (files : Files)
    → f + left ≡ max_proc_files
    → ((g : ℕ) → g < f → files g ≢ none)
    → Allocated file files (alloc_from left f file files)
unfolding alloc_from
alloc_from-Allocated zero f file files e h = full (λ g lt. h g (omega arith))
alloc_from-Allocated (suc left) f file files e h = elim (Option-cases (files f)) [
  | inl n ↦ rw (n, alloc_from) (entry f (omega arith) n h)
  | inr (x, s) ↦
      rw (s, alloc_from) (alloc_from-Allocated left (f + 1) file files (omega arith) (up_to x s))
]
  where
    up_to : (x : ℕ) → files f ≡ some x → (g : ℕ) → g < f + 1 → files g ≢ none
    up_to x s g lt = elim (ℕ_discrete g f) [
      | yes e ↦ λ n. ground (arith, sym n ∙ ap files e ∙ s)
      | no ne ↦ h g (omega arith)
    ]

-- Opening takes the first free entry of the table for the file, or returns -1 and leaves the table,
-- which is then full.
pub syscall_open-Allocated :
    (file : Option ℕ) (files : Files) → Allocated file files (syscall_open file files)
unfolding syscall_open alloc_proc_filehandle
syscall_open-Allocated file files =
    alloc_from-Allocated max_proc_files 0 file files (omega arith) (λ g lt. absurd (omega arith))

-- What the calls by a handle do with the file that `open` gave: -1 for a null pointer.
abbrev pub on_file : Option ℕ → (ℕ → ℤ) → ℤ
on_file none call = negsuc 0
on_file (some file) call = call file

call_entry :
    (file : Option ℕ) (files : Files) (f : ℕ) (call : ℕ → ℤ)
    → f < max_proc_files
    → with_file (pos f) call (update files f file) ≡ on_file file call
unfolding with_file get_file_by_handle
call_entry none files f call lt =
    let e : leb max_proc_files f ≡ false = ground arith in
    rw (e, update_self files f none, with_file, get_file_by_handle) refl
call_entry (some x) files f call lt =
    let e : leb max_proc_files f ≡ false = ground arith in
    rw (e, update_self files f (some x), with_file, get_file_by_handle) refl

call_other :
    (file : Option ℕ) (files : Files) (f : ℕ) (handle : ℤ) (call : ℕ → ℤ)
    → handle ≢ pos f
    → with_file handle call (update files f file) ≡ with_file handle call files
unfolding with_file get_file_by_handle
call_other file files f (negsuc n) call ne = refl
call_other file files f (pos n) call ne =
    rw (update_ne files f file n (λ e. ne (ap pos (sym e))), with_file, get_file_by_handle) refl

-- The two outcomes of `syscall_open`. Either the handle `f` is the first that was free: calls by it go
-- to the file, and calls by any other handle are as before. Or no handle was free, the answer is -1,
-- and calls by any handle are as before.
pub data Opens (file : Option ℕ) (files : Files) (call : ℕ → ℤ) : ℤ × Files → Type 0 where
  handle :
      (f : ℕ) (files' : Files)
      → f < max_proc_files
      → files f ≡ none
      → ((g : ℕ) → g < f → files g ≢ none)
      → with_file (pos f) call files' ≡ on_file file call
      → ((h : ℤ) → h ≢ pos f → with_file h call files' ≡ with_file h call files)
      → Opens file files call (pos f, files')
  no_handle :
      (files' : Files)
      → ((g : ℕ) → g < max_proc_files → files g ≢ none)
      → ((h : ℤ) → with_file h call files' ≡ with_file h call files)
      → Opens file files call (negsuc 0, files')

Allocated-Opens :
    (file : Option ℕ) (files : Files) (call : ℕ → ℤ) (o : ℤ × Files)
    → Allocated file files o
    → Opens file files call o
Allocated-Opens file files call _ (entry f lt free least) =
    handle f (update files f file) lt free least (call_entry file files f call lt)
      (λ h ne. call_other file files f h call ne)
Allocated-Opens file files call _ (full none_free) = no_handle files none_free (λ h. refl)

-- Whatever the table and the file that the file system gave: opening returns the first handle that
-- was free, below 16; calls by it go to that file, or return -1 if the file system gave none, and
-- calls by any other handle are as before. Where no handle was free it returns -1, and calls by all
-- handles are as before.
pub syscall_open-Opens :
    (file : Option ℕ) (files : Files) (call : ℕ → ℤ)
    → Opens file files call (syscall_open file files)
syscall_open-Opens file files call =
    Allocated-Opens file files call _ (syscall_open-Allocated file files)
