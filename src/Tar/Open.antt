-- ===== src/Tar/Open.antt =====
-- `TarFS::open` (devices/tar.h), and the file that it opens.
use shipwreck.Base.{ℕ, ◌≡◌, Option, some, ◌==◌, if◌then◌else◌}
use shipwreck.Tar.{Disk, TarFile, Reply, slice, get_size, read}
use shipwreck.Tar.Read.{IsPlaced, byte_at}

-- What a call of `open` leaves: the file in slot `i`, at the start of the data behind header `sector`.
pub record Opened (disk : Disk) (sector i length : ℕ) (files : ℕ → TarFile)
    (r : Option (Option ℕ × (ℕ → TarFile))) : Type 0 where
  pub files' : ℕ → TarFile
  pub returned : r ≡ some (some i, files')
  pub file :
      IsPlaced (files' i)
      × ((files' i).header_sector ≡ sector)
      × ((files' i).size ≡ get_size (disk sector))
      × ((files' i).cursor ≡ 0)
  pub others : (j : ℕ) → files' j ≡ (if i == j then files' i else files j)
  pub reply : Reply
  pub reads :
      (read disk length (files' i) ≡ some reply)
      × (reply.result ≡ length)
      × (reply.stored ≡ slice (byte_at disk sector) 0 length)
