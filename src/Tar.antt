-- ===== src/Tar.antt =====
-- src/system/include/devices/tar.h: files of a tar image, read by whole sectors. The disk is a
-- parameter, `disk sector offset`; a read returns the bytes that it stores, first to last, in
-- place of the buffer. `int len` and `int end` of a read may turn negative: those reads are set apart.
pub mod Octal
pub mod Read
pub mod Find
pub mod Open
use shipwreck.Base.{
  ℕ, zero, suc, ◌+◌, ◌-◌, ◌*◌, ◌/◌, ◌%◌, ◌^◌, Bool, true, false, ◌&&◌, Option, none, some, List, [],
  ◌∷◌, ◌++◌, ◌==◌, ltb, leb, if◌then◌else◌, update,
}
use shipwreck.Base.Int.{ℤ, pos, negsuc}
use shipwreck.CString.{Memory, strnlen, strncmp}

abbrev pub bytes_per_sector : ℕ
bytes_per_sector = 512

abbrev pub Disk : Type 0
Disk = ℕ → ℕ → ℕ

-- `TarHeader::parse_octal`, the loop over the characters left.
unfoldable pub parse_octal_from : ℕ → List ℕ → ℕ
parse_octal_from acc [] = acc
parse_octal_from acc (c ∷ cs) =
    let rest = parse_octal_from ((acc * 8 % 2 ^ 32 + (c - b'0')) % 2 ^ 32) cs in
    if leb b'0' c && leb c b'9' then rest else acc

unfoldable pub parse_octal : List ℕ → ℕ
unfolding parse_octal_from
parse_octal cs = parse_octal_from 0 cs

-- The bytes `from` up to `from + count` of a sector or of any other sequence.
unfoldable pub slice : (ℕ → ℕ) → ℕ → ℕ → List ℕ
slice g from zero = []
slice g from (suc count) = g from ∷ slice g (from + 1) count

-- `TarHeader::get_size`: the field `size` is the 12 bytes from 124 on.
unfoldable pub get_size : (ℕ → ℕ) → ℕ
unfolding parse_octal slice
get_size header = parse_octal (slice header 124 12)

pub record TarFile : Type 0 where
  pub header_sector : ℕ
  pub current_sector : ℕ
  pub cursor : ℕ
  pub size : ℕ

unfoldable pub seek : ℤ → TarFile → ℕ × TarFile
seek (negsuc n) f = (0, f)
seek (pos offset) f = if leb f.size offset then (0, f) else (
  1,
  record f { cursor = offset; current_sector = f.header_sector + 1 + offset / bytes_per_sector },
)

-- `readsector` into the buffer, sector after sector.
unfoldable pub read_sectors : Disk → ℕ → ℕ → List ℕ
unfolding slice
read_sectors disk sector zero = []
read_sectors disk sector (suc count) =
    slice (disk sector) 0 bytes_per_sector ++ read_sectors disk (sector + 1) count

-- The bytes of the first sector that a read takes: `bytes_to_read`, where the cursor is not at the
-- start of a sector.
unfoldable pub head_bytes : ℕ → ℕ → ℕ
head_bytes start len =
    let end = start + len in (if ltb bytes_per_sector end then bytes_per_sector else end) - start

pub record Reply : Type 0 where
  pub result : ℕ
  pub stored : List ℕ
  pub file : TarFile

-- From the whole sectors on, with `len` bytes to go.
unfoldable pub read_rest : Disk → ℕ → ℕ → List ℕ × ℕ
unfolding read_sectors
read_rest disk sector len =
    let whole = len / bytes_per_sector in
    (
      read_sectors disk sector whole ++ slice (disk (sector + whole)) 0 (len % bytes_per_sector),
      sector + whole,
    )

-- `TarFile::read`, for a length below 2 ^ 32. `none` stands for the reads that pass the test against the
-- size though `len`, or `end` behind it, is a negative `int`, by which the code then copies and counts
-- sectors past all memory.
unfoldable pub read : Disk → ℕ → TarFile → Option Reply
unfolding head_bytes read_rest
read disk length f =
    let start = f.cursor % bytes_per_sector in
    let taken = head_bytes start length in
    if ltb f.size ((f.cursor + length) % 2 ^ 32)
    then some (record { result = 0; stored = []; file = f })
    else if leb (2 ^ 31) (start + length)
    then none
    else if start == 0
    then (let (stored, sector) = read_rest disk f.current_sector length in
        some (record {
          result = length;
          stored = stored;
          file = record f { cursor = f.cursor + length; current_sector = sector };
        }))
    else (let (stored, sector) = read_rest disk (f.current_sector + 1) (length - taken) in
        some (record {
          result = length;
          stored = slice (disk f.current_sector) start taken ++ stored;
          file = record f { cursor = f.cursor + length; current_sector = sector };
        }))

-- The memory after `readsector` has filled the header buffer at `hdr`.
unfoldable pub with_header : Disk → ℕ → ℕ → Memory → Memory
with_header disk hdr sector mem p =
    if leb hdr p && ltb p (hdr + bytes_per_sector) then disk sector (p - hdr) else mem p

-- The sector after a file's data.
unfoldable pub next_header : (ℕ → ℕ) → ℕ → ℕ
unfolding get_size
next_header header sector =
    (sector + 1 + (get_size header + bytes_per_sector - 1) % 2 ^ 32 / bytes_per_sector) % 2 ^ 32

-- The loop of `TarFS::find_file_sector`; `none` where the headers go on for longer than the fuel.
-- `name` is the address of the name, `len` its length as `strnlen` gave it.
unfoldable pub find_from : ℕ → Disk → Memory → ℕ → ℕ → ℕ → ℕ → Option ℕ
unfolding strncmp with_header next_header
find_from zero disk mem hdr name len sector = none
find_from (suc fuel) disk mem hdr name len sector =
    let mem' = with_header disk hdr sector mem in
    let rest = find_from fuel disk mem hdr name len (next_header (disk sector) sector) in
    if mem' hdr == 0 then some 0 else if strncmp mem' hdr name len == 0 then some sector else rest

-- `root_sector`: sector 0 is the boot sector.
abbrev pub root_sector : ℕ
root_sector = 1

unfoldable pub find_file_sector : ℕ → Disk → Memory → ℕ → ℕ → Option ℕ
unfolding find_from strnlen
find_file_sector fuel disk mem hdr name =
    find_from fuel disk mem hdr name (strnlen mem name 0x100) root_sector

-- MAX files of the file system, and its slots. A slot of size 0 is free; `sd` is the disk.
abbrev pub max_files : ℕ
max_files = 16

-- The loop of `TarFS::alloc_file` from slot `i`.
unfoldable pub alloc_file_from : ℕ → ℕ → (ℕ → TarFile) → Option ℕ
alloc_file_from zero i files = none
alloc_file_from (suc left) i files =
    let rest = alloc_file_from left (i + 1) files in
    if TarFile.size (files i) == 0 then some i else rest

unfoldable pub alloc_file : (ℕ → TarFile) → Option ℕ
alloc_file files = alloc_file_from max_files 0 files

-- `file->init(sd)` sets the disk only.
abbrev pub free_file : TarFile → TarFile
free_file f = f

-- What `TarFS::open` stores in a slot for the sector that was found, and whether it is a file.
unfoldable pub set_up : Disk → ℕ → TarFile → Bool × TarFile
set_up disk sector f =
    let f' = record f { header_sector = sector } in
    let found = record f' { size = get_size (disk sector) } in
    if sector == 0 then (false, free_file f') else (true, (seek (pos 0) found).1)

-- `TarFS::open`: the slot, or `none` for nullptr, and all slots; `none` for the whole where the
-- search takes longer than the fuel.
unfoldable pub open_file :
    ℕ → Disk → Memory → ℕ → ℕ → (ℕ → TarFile) → Option (Option ℕ × (ℕ → TarFile))
open_file fuel disk mem hdr name files = elim (alloc_file files) [
  | none ↦ some (none, files)
  | some i ↦ elim (find_file_sector fuel disk mem hdr name) [
    | none ↦ none
    | some sector ↦
        let r = set_up disk sector (files i) in
        some ((if r.0 then some i else none), update files i r.1)
  ]
]
