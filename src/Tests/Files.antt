-- ===== src/Tests/Files.antt =====
-- The tar image (Tar/) on a disk with one file of 600 bytes.
use shipwreck.Base.{ℕ, ◌≡◌, ◌%◌, refl, [], ◌∷◌, ◌++◌, ◌==◌, arith, if◌then◌else◌}
use shipwreck.CString.{Memory}
use shipwreck.Tar.{Disk, TarFile, read, parse_octal}
use shipwreck.Tar.Octal.{octal, parse_octal-octal}
use shipwreck.Tar.Read.{Good, read_lem}

-- A header for the file "a" in sector 1, whose data are the numbers of the bytes.
abbrev disk : Disk
disk s k = if s == 1 then (if k == 0 then b'a' else 0) else if s == 2 then k % 256 else 0

abbrev file : TarFile
file = record { header_sector = 1; current_sector = 2; cursor = 500; size = 600 }

read_lem_example : Good disk 50 file (read disk 50 file)
read_lem_example = read_lem disk 50 file (omega arith) (omega arith) (omega arith)

parse_octal-octal_example : parse_octal (octal 11 600 ++ 0 ∷ []) ≡ 600
parse_octal-octal_example = parse_octal-octal 11 600 (0 ∷ []) (omega arith) (omega arith) refl

-- The name "a" at address 1024.
abbrev mem : Memory
mem p = if p == 1024 then b'a' else 0

-- The same with the size "7" in the header.
abbrev small_disk : Disk
small_disk s k =
    if s == 1
    then (if k == 0 then b'a' else if k == 124 then b'7' else 0)
    else if s == 2
    then k % 256
    else 0

no_files : ℕ → TarFile
no_files i = record { header_sector = 0; current_sector = 0; cursor = 0; size = 0 }
