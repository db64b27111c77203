-- ===== src/Tests/Handles.antt =====
-- File handles (Syscall.antt): a table with one open file, and one without a free entry.
use shipwreck.Base.{◌≡◌, refl, none, some, ◌==◌, ltb, if◌then◌else◌}
use shipwreck.Base.Int.{pos, negsuc}
use shipwreck.Syscall.{Files, syscall_open, alloc_proc_filehandle, alloc_from}
use shipwreck.Syscall.Handles.{Opens, syscall_open-Opens}

abbrev one_open : Files
one_open f = if f == 0 then some 100 else none

abbrev all_open : Files
all_open f = if ltb f 16 then some 100 else none

syscall_open-full : syscall_open (some 200) all_open ≡ (negsuc 0, all_open)
unfolding syscall_open alloc_proc_filehandle alloc_from
syscall_open-full = refl

syscall_open-Opens_example :
    Opens (some 200) one_open (λ file. pos file) (syscall_open (some 200) one_open)
syscall_open-Opens_example = syscall_open-Opens (some 200) one_open (λ file. pos file)
