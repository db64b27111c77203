-- ===== src/Syscall.antt =====
-- src/system/syscall.cpp: the file handles of a process. A file is a number, which stands for its
-- address; `none` is nullptr. The file system's own `open` is a parameter.
pub mod Handles
pub mod Dispatch
pub mod Sync
use shipwreck.Base.{
  ℕ, zero, suc, ◌+◌, Bool, true, false, ◌||◌, Option, none, some, if◌then◌else◌, update, leb,
}
use shipwreck.Base.Int.{ℤ, pos, negsuc, ltb_ℤ, leb_ℤ}

abbrev pub max_proc_files : ℕ
max_proc_files = 16

-- `thisProc->files`
abbrev pub Files : Type 0
Files = ℕ → Option ℕ

-- The loop of `alloc_proc_filehandle` from entry `f`, with `left` rounds to go.
unfoldable pub alloc_from : ℕ → ℕ → Option ℕ → Files → ℤ × Files
alloc_from zero f file files = (negsuc 0, files)
alloc_from (suc left) f file files = elim (files f) [
  | none ↦ (pos f, update files f file)
  | some _ ↦ alloc_from left (f + 1) file files
]

unfoldable pub alloc_proc_filehandle : Option ℕ → Files → ℤ × Files
unfolding alloc_from
alloc_proc_filehandle file files = alloc_from max_proc_files 0 file files

unfoldable pub get_file_by_handle : ℤ → Files → Option ℕ
get_file_by_handle (negsuc n) files = none
get_file_by_handle (pos n) files = if leb max_proc_files n then none else files n

-- `syscall_open`; `opened` is what `filesystem->open` returns for the name.
unfoldable pub syscall_open : Option ℕ → Files → ℤ × Files
unfolding alloc_proc_filehandle
syscall_open opened files = alloc_proc_filehandle opened files

-- `syscall_seek`, `syscall_read` and `syscall_write` up to the file's own method, which is `call`.
unfoldable pub with_file : ℤ → (ℕ → ℤ) → Files → ℤ
unfolding get_file_by_handle
with_file handle call files = elim (get_file_by_handle handle files) [
  | none ↦ negsuc 0
  | some file ↦ call file
]
