-- ===== src/Tar/Find.antt =====
-- Which file `TarFS::find_file_sector` of devices/tar.h finds.
use shipwreck.Base.{ℕ, suc, ◌+◌, ◌≤◌, ◌<◌, ◌≡◌, ◌≢◌, ◌⊎◌}
use shipwreck.CString.{Memory, strnlen}
use shipwreck.CString.Compare.{Bytes}
use shipwreck.Tar.{Disk, bytes_per_sector, next_header}

-- The name wanted stands in memory: it lies outside the header buffer and has no more than the 100
-- characters of the header's field, and all of memory and of the disk are bytes.
pub record Wanted (disk : Disk) (mem : Memory) (hdr name len : ℕ) : Type 0 where
  pub disk_bytes : (s k : ℕ) → disk s k < 256
  pub mem_bytes : Bytes mem
  pub length_is : len ≡ strnlen mem name 0x100
  pub short : len ≤ 100
  pub apart : (hdr + bytes_per_sector ≤ name) ⊎ (name + 0x100 ≤ hdr)

-- The header's name begins with the name wanted.
abbrev pub Begins : Disk → Memory → ℕ → ℕ → ℕ → Type 0
Begins disk mem name len sector = (k : ℕ) → k < len → disk sector k ≡ mem (name + k)

-- What the search along the headers is to find, from a sector on, and in how many headers.
pub data Finds (disk : Disk) (mem : Memory) (name len : ℕ) : ℕ → ℕ → ℕ → Type 0 where
  ends : (s : ℕ) → disk s 0 ≡ 0 → Finds disk mem name len s 0 0
  found : (s : ℕ) → disk s 0 ≢ 0 → Begins disk mem name len s → Finds disk mem name len s s 0
  passes :
      (s r n : ℕ)
      → disk s 0 ≢ 0
      → ¬ Begins disk mem name len s
      → Finds disk mem name len (next_header (disk s) s) r n
      → Finds disk mem name len s r (suc n)
