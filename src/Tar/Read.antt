-- ===== src/Tar/Read.antt =====
-- `TarFile::seek` and `TarFile::read` of devices/tar.h against the bytes of the file.
use shipwreck.Base.{
  ℕ, zero, suc, ◌+◌, ◌-◌, ◌*◌, ◌/◌, ◌%◌, ◌^◌, ◌≤◌, ◌<◌, ◌≡◌, ◌≢◌, ◌⊎◌, refl, ap, ap₂, ◌∙◌, Bool,
  false, ◌∷◌, ◌++◌, arith, ◌==◌, ==_iff, ltb, leb, Option, some, if◌then◌else◌, Bool-cases, inl,
  inr,
}
use shipwreck.Base.Int.{ℤ, pos, negsuc}
use shipwreck.Tar.{
  Disk, bytes_per_sector, slice, TarFile, seek, read_sectors, head_bytes, read_rest, Reply, read,
}

-- Byte `k` of a file whose header stands in sector `header`.
abbrev pub byte_at : Disk → ℕ → ℕ → ℕ
byte_at disk header k = disk (header + 1 + k / bytes_per_sector) (k % bytes_per_sector)

-- The sector is the one in which the cursor stands.
abbrev pub IsPlaced : TarFile → Type 0
IsPlaced f = f.current_sector ≡ f.header_sector + 1 + f.cursor / bytes_per_sector

slice-append :
    (g : ℕ → ℕ) (from a b n m : ℕ)
    → n ≡ a + b
    → m ≡ from + a
    → slice g from a ++ slice g m b ≡ slice g from n
unfolding slice
slice-append g from zero b n m e f =
    ap₂ (slice g) (let h : m ≡ from = omega arith in h) (omega arith)
slice-append g from (suc a) b zero m e f = absurd (omega arith)
slice-append g from (suc a) b (suc n) m e f =
    ap (λ r. g from ∷ r) (slice-append g (from + 1) a b n m (omega arith) (omega arith))

-- Equal bytes make equal slices.
slice_cong :
    (g h : ℕ → ℕ) (i j n : ℕ)
    → ((k : ℕ) → k < n → g (i + k) ≡ h (j + k))
    → slice g i n ≡ slice h j n
unfolding slice
slice_cong g h i j zero e = refl
slice_cong g h i j (suc n) e =
    ap₂ ◌∷◌ (ap g (omega arith) ∙ e 0 (omega arith) ∙ ap h (omega arith)) (
      slice_cong g h (i + 1) (j + 1) n
        (λ k lt. ap g (omega arith) ∙ e (suc k) (omega arith) ∙ ap h (omega arith)))

module _ (disk : Disk) (header : ℕ) where
  abbrev content : ℕ → ℕ
  content = byte_at disk header

  -- Within one sector the file's bytes are the sector's.
  slice-sector :
      (j start n : ℕ)
      → start + n ≤ bytes_per_sector
      → slice (disk (header + 1 + j)) start n ≡ slice content (bytes_per_sector * j + start) n
  slice-sector j start n h =
      slice_cong _ _ start (bytes_per_sector * j + start) n
        (λ k lt. ap₂ disk (omega arith) (omega arith))

  read_sectors-slice :
      (count j : ℕ)
      → read_sectors disk (header + 1 + j) count
        ≡ slice content (bytes_per_sector * j) (bytes_per_sector * count)
  unfolding read_sectors slice
  read_sectors-slice zero j = refl
  read_sectors-slice (suc count) j =
      ap₂ ◌++◌
        (slice-sector j 0 bytes_per_sector (omega arith)
          ∙ ap (λ i. slice content i bytes_per_sector) (omega arith))
        (ap (λ s. read_sectors disk s count) (omega arith) ∙ read_sectors-slice count (j + 1))
      ∙ slice-append content (bytes_per_sector * j) bytes_per_sector (bytes_per_sector * count) _ _
          (omega arith) (omega arith)

  read_rest-slice :
      (j len : ℕ)
      → (read_rest disk (header + 1 + j) len).0 ≡ slice content (bytes_per_sector * j) len
  unfolding read_rest
  read_rest-slice j len =
      ap₂ ◌++◌ (read_sectors-slice (len / bytes_per_sector) j) (
        ap (λ s. slice (disk s) 0 (len % bytes_per_sector)) (omega arith)
        ∙ slice-sector (j + len / bytes_per_sector) 0 (len % bytes_per_sector) (omega arith))
      ∙ slice-append content (bytes_per_sector * j) _ (len % bytes_per_sector) len _ (omega arith)
          (omega arith)

-- A read that stays within one sector without starting it.
abbrev pub stays : ℕ → ℕ → Bool
stays cursor length =
    if cursor % bytes_per_sector == 0
    then false
    else ltb (cursor % bytes_per_sector + length) bytes_per_sector

-- What a read within the file stores, and where it leaves the file.
pub record Good (disk : Disk) (length : ℕ) (f : TarFile) (o : Option Reply) : Type 0 where
  pub r : Reply
  pub replies : o ≡ some r
  pub result : r.result ≡ length
  pub stored : r.stored ≡ slice (byte_at disk f.header_sector) f.cursor length
  pub cursor : r.file.cursor ≡ f.cursor + length
  pub same : (r.file.size ≡ f.size) × (r.file.header_sector ≡ f.header_sector)
  pub sector :
      r.file.current_sector
      ≡ f.header_sector
        + 1
        + (f.cursor + length) / bytes_per_sector
        + (if stays f.cursor length then 1 else 0)

head_bytes_lem :
    (start len : ℕ)
    → start < bytes_per_sector
    → (start + head_bytes start len ≤ bytes_per_sector)
      × (head_bytes start len ≤ len)
      × ((start + head_bytes start len ≡ bytes_per_sector) ⊎ (head_bytes start len ≡ len))
unfolding head_bytes
head_bytes_lem start len h = ground arith

read_rest_zero : (disk : Disk) (s : ℕ) (g : ℕ → ℕ) (k : ℕ) → (read_rest disk s 0).0 ≡ slice g k 0
unfolding read_rest read_sectors slice
read_rest_zero disk s g k = refl

module _ (disk : Disk) (length : ℕ) (f : TarFile) (placed : IsPlaced f) where
  abbrev j : ℕ
  j = f.cursor / bytes_per_sector

  abbrev start : ℕ
  start = f.cursor % bytes_per_sector

  read_aligned :
      start ≡ 0
      → (read_rest disk f.current_sector length).0
        ≡ slice (byte_at disk f.header_sector) f.cursor length
  read_aligned e =
      ap (λ s. (read_rest disk s length).0) placed
      ∙ read_rest-slice disk f.header_sector j length
      ∙ ap (λ k. slice (byte_at disk f.header_sector) k length) (omega arith)

  read_unaligned :
      slice (disk f.current_sector) start (head_bytes start length)
        ++ (read_rest disk (f.current_sector + 1) (length - head_bytes start length)).0
      ≡ slice (byte_at disk f.header_sector) f.cursor length
  read_unaligned =
      ap₂ ◌++◌
        (ap (λ s. slice (disk s) start (head_bytes start length)) placed
          ∙ slice-sector disk f.header_sector j start (head_bytes start length) short
          ∙ ap (λ k. slice (byte_at disk f.header_sector) k (head_bytes start length))
              (omega arith))
        rest
      ∙ slice-append (byte_at disk f.header_sector) f.cursor (head_bytes start length)
          (length - head_bytes start length) length _ le refl
    where
      taken : ℕ
      taken = head_bytes start length

      fact :
          (start + taken ≤ bytes_per_sector)
          × (taken ≤ length)
          × ((start + taken ≡ bytes_per_sector) ⊎ (taken ≡ length))
      fact = head_bytes_lem start length (omega arith)

      short : start + taken ≤ bytes_per_sector
      short = fact.0

      le : length ≡ taken + (length - taken)
      le = omega (arith, fact.1)

      rest :
          (read_rest disk (f.current_sector + 1) (length - taken)).0
          ≡ slice (byte_at disk f.header_sector) (f.cursor + taken) (length - taken)
      rest = elim fact.2 [
        | inl e ↦
            ap (λ s. (read_rest disk s (length - taken)).0) (omega arith)
            ∙ read_rest-slice disk f.header_sector (j + 1) (length - taken)
            ∙ ap (λ k. slice (byte_at disk f.header_sector) k (length - taken)) (omega arith)
        | inr e ↦
            let none_left : length - taken ≡ 0 = omega arith in
            rw none_left (read_rest_zero disk (f.current_sector + 1) _ _)
      ]

-- A read within a file of less than 2 ^ 31 bytes, so that no `int` turns negative, whose current sector is that of its cursor
-- returns the length and stores exactly the file's bytes from the cursor on, which moves by the
-- length. The current sector is then again that of the cursor, except after a read that starts
-- inside a sector and does not reach its end: then it is one too far.
pub read_lem :
    (disk : Disk) (length : ℕ) (f : TarFile)
    → IsPlaced f
    → f.cursor + length ≤ f.size
    → f.size < 2 ^ 31
    → Good disk length f (read disk length f)
unfolding read
read_lem disk length f placed fits small =
    rw (in_file, positive, read)
      (elim (Bool-cases (f.cursor % bytes_per_sector == 0)) [
        | inl e ↦
            rw (e, read)
              (record {
                r = aligned;
                replies = refl;
                result = refl;
                stored = read_aligned disk length f placed ((==_iff _ _).0 e);
                cursor = refl;
                same = (refl, refl);
                sector = rw e (omega (arith, (==_iff _ _).0 e));
              })
        | inr e ↦
            rw (e, read)
              (record {
                r = unaligned;
                replies = refl;
                result = refl;
                stored = read_unaligned disk length f placed;
                cursor = refl;
                same = (refl, refl);
                sector = ground (arith, head_bytes_lem (f.cursor % bytes_per_sector) length, e);
              })
      ])
  where
    in_file : ltb f.size ((f.cursor + length) % 2 ^ 32) ≡ false
    in_file = ground arith

    positive : leb (2 ^ 31) (f.cursor % bytes_per_sector + length) ≡ false
    positive = ground arith

    after : ℕ → TarFile
    after sector = record f { cursor = f.cursor + length; current_sector = sector }

    aligned : Reply
    aligned =
        let rest = read_rest disk f.current_sector length in
        record { result = length; stored = rest.0; file = after rest.1 }

    unaligned : Reply
    unaligned =
        let start = f.cursor % bytes_per_sector in
        let taken = head_bytes start length in
        let rest = read_rest disk (f.current_sector + 1) (length - taken) in
        record {
          result = length;
          stored = slice (disk f.current_sector) start taken ++ rest.0;
          file = after rest.1;
        }

-- A seek to an offset inside the file puts the cursor there and the current sector under it,
-- whatever they were; any other seek returns 0 and changes nothing.
pub seek_lem :
    (offset : ℤ) (f : TarFile)
    → ((seek offset f).0 ≡ 1
        → IsPlaced (seek offset f).1
          × (pos (seek offset f).1.cursor ≡ offset)
          × ((seek offset f).1.cursor < f.size)
          × ((seek offset f).1.size ≡ f.size))
      × ((seek offset f).0 ≢ 1 → seek offset f ≡ (0, f))
unfolding seek
seek_lem (pos n) f = ground arith
seek_lem (negsuc n) f = ground arith
