-- ===== src/Elf/Load.antt =====
-- src/system/include/elfparser.h: a file's segments are mapped, its dynamic section is read, and
-- the libraries that it needs are loaded. The system calls are `Api`, on a state that holds memory.
-- A freeze (SPINJMP) is `none`.
use shipwreck.Base.{
  ℕ, zero, suc, ◌+◌, ◌-◌, ◌*◌, ◌/◌, ◌%◌, ◌^◌, Bool, true, false, Option, none, some, ◌==◌, ltb,
  if◌then◌else◌, update,
}
use shipwreck.CString.{Memory, dword, memset}
use shipwreck.Elf.{Abi, ElfModule, at_offset, write_uint, adjust_relocations}

pub record Api (S : Type 0) : Type 0 where
  pub memory : S → Memory
  pub store : Memory → S → S
  pub open_file : ℕ → S → ℕ × S
  pub seek : ℕ → ℕ → S → Bool × S
  pub read : ℕ → ℕ → ℕ → S → S
  pub alloc : ℕ → S → ℕ × S
  pub alloc_at : ℕ → ℕ → S → S

-- `sharedLibs` and `numSharedLibs`
pub record Libs : Type 0 where
  pub shared_libs : ℕ → ElfModule
  pub num_shared_libs : ℕ

abbrev pub bytes_per_page : ℕ
bytes_per_page = 4096

abbrev pub uint_max : ℕ
uint_max = 2 ^ 32 - 1

infixl 5 ◌>>=◌
abbrev pub ◌>>=◌ {ℓ κ} : {A : Type ℓ} {B : Type κ} → Option A → (A → Option B) → Option B
none >>= f = none
some a >>= f = f a

module _ (abi : Abi) where
  -- The first loop of `mapLoadableSegments`: `min_address` and `max_address`.
  unfoldable pub extent_from : ℕ → ℕ → Memory → ℕ × ℕ → ℕ × ℕ
  extent_from zero phdr mem bounds = bounds
  extent_from (suc left) phdr mem (low, high) =
      let v_base = abi.p_vaddr mem phdr in
      let v_end = (v_base + abi.p_memsz mem phdr) % 2 ^ 32 in
      extent_from left (phdr + abi.sizeof_phdr) mem (
        if ltb v_base low
        then (v_base, high)
        else if ltb high v_end
        then (low, v_end)
        else (low, high))

  -- The search of `findDynamicSection`: the address of the first dynamic program header.
  unfoldable pub dynamic_header : ℕ → ℕ → Memory → Option ℕ
  dynamic_header zero phdr mem = none
  dynamic_header (suc left) phdr mem =
      let rest = dynamic_header left (phdr + abi.sizeof_phdr) mem in
      if abi.p_type mem phdr == abi.pt_dynamic then some phdr else rest

  unfoldable pub find_dynamic_section : Memory → ElfModule → Option ElfModule
  find_dynamic_section mem m = do
    phdr ← dynamic_header (abi.e_phnum mem m.header) m.phdrs mem
    let dynamic = at_offset m.module_base_vaddr (abi.p_vaddr mem phdr)
    if dynamic == 0
        then none
        else some
            (record m { dynamic = dynamic; num_dynamic = abi.p_memsz mem phdr / abi.sizeof_dyn })

  abbrev pub with_hash_table : Memory → ℕ → ElfModule → ElfModule
  with_hash_table mem table m = record m {
    num_buckets = dword mem table 0;
    num_chains = dword mem table 1;
    buckets = table + 8;
    chains = table + 4 * (dword mem table 0 + 2);
  }

  -- The switch of `parseDynamicSegment`, for a tag and its value.
  unfoldable pub parse_entry : Memory → ℕ → ℕ → ElfModule → ElfModule
  parse_entry mem tag val m =
      let there = at_offset m.module_base_vaddr val in
      if tag == abi.dt_rel
      then record m { relocs = there }
      else if tag == abi.dt_relsz
      then record m { num_relocs = val / abi.sizeof_rel }
      else if tag == abi.dt_jmprel
      then record m { jmp_relocs = there }
      else if tag == abi.dt_pltrelsz
      then record m { num_jmp_relocs = val / abi.sizeof_rel }
      else if tag == abi.dt_symtab
      then record m { dynsym = there }
      else if tag == abi.dt_syment
      then record m { sym_size = val }
      else if tag == abi.dt_strtab
      then record m { strtab = there }
      else if tag == abi.dt_hash
      then with_hash_table mem there m
      else if tag == abi.dt_pltgot
      then record m { pltgot = there }
      else m

  unfoldable pub parse_from : ℕ → ℕ → Memory → ElfModule → ElfModule
  parse_from zero entry mem m = m
  parse_from (suc left) entry mem m =
      parse_from left (entry + abi.sizeof_dyn) mem
        (parse_entry mem (abi.d_tag mem entry) (abi.d_val mem entry) m)

  unfoldable pub parse_dynamic_segment : Memory → ElfModule → Option ElfModule
  parse_dynamic_segment mem m =
      let parsed = parse_from m.num_dynamic m.dynamic mem (record m { dynsym = 0 }) in
      if m.dynsym == 0
      then (if m.dynamic == 0 then some m else if parsed.dynsym == 0 then none else some parsed)
      else some m

module _ {S : Type 0} (abi : Abi) (api : Api S) where
  -- `initialize`: all of the object is zeroed, the headers within it too.
  unfoldable pub initialize : ElfModule → S → ElfModule × S
  initialize m s = (
    record {
      module_base_vaddr = 0;
      module_size = 0;
      header = m.header;
      phdrs = m.phdrs;
      dynamic = 0;
      num_dynamic = 0;
      relocs = 0;
      num_relocs = 0;
      jmp_relocs = 0;
      num_jmp_relocs = 0;
      dynsym = 0;
      sym_size = 0;
      num_buckets = 0;
      num_chains = 0;
      buckets = 0;
      chains = 0;
      strtab = 0;
      pltgot = 0;
    },
    api.store
        (memset m.phdrs 0 (32 * abi.sizeof_phdr) (memset m.header 0 abi.sizeof_ehdr (api.memory s)))
        s,
  )

  unfoldable pub read_elf_header : ℕ → ElfModule → S → S
  read_elf_header fh m s = api.read fh m.header abi.sizeof_ehdr s

  -- The program headers are read from the file.
  unfoldable pub read_phdrs : ℕ → ElfModule → S → Option S
  read_phdrs fh m s =
      let (found, s₁) = api.seek fh (abi.e_phoff (api.memory s) m.header) s in
      let total = abi.sizeof_phdr * abi.e_phnum (api.memory s₁) m.header in
      if found then some (api.read fh m.phdrs total s₁) else none

  -- The second loop of `mapLoadableSegments`.
  unfoldable pub load_from : ℕ → ℕ → ℕ → ℕ → S → S
  load_from zero fh base phdr s = s
  load_from (suc left) fh base phdr s =
      let mem = api.memory s in
      let s₁ = (api.seek fh (abi.p_offset mem phdr) s).1 in
      let s₂ = api.read fh (at_offset base (abi.p_vaddr mem phdr)) (abi.p_filesz mem phdr) s₁ in
      load_from left fh base (phdr + abi.sizeof_phdr)
        (if abi.p_type mem phdr == abi.pt_load then s₂ else s)

  unfoldable pub map_loadable_segments : ℕ → ElfModule → S → ElfModule × S
  map_loadable_segments fh m s =
      let num = abi.e_phnum (api.memory s) m.header in
      let (low, high) = extent_from abi num m.phdrs (api.memory s) (uint_max, 0) in
      let size = (high + 2 ^ 32 - low) % 2 ^ 32 in
      let pages = (size + bytes_per_page - 1) % 2 ^ 32 / bytes_per_page + 1 in
      let (base, s₁) = api.alloc pages s in
      (record m { module_size = size; module_base_vaddr = base }, load_from num fh base m.phdrs s₁)

  unfoldable pub parse_segments : ℕ → ElfModule → S → Option (ElfModule × S)
  parse_segments fh m s = do
    s₁ ← read_phdrs fh m s
    let (m₂, s₂) = map_loadable_segments fh m s₁
    m₃ ← find_dynamic_section abi (api.memory s₂) m₂
    some (m₃, s₂)

  unfoldable pub load_module : ℕ → ElfModule → S → Option (ElfModule × S)
  load_module fh elfimg s = do
    let (m₁, s₁) = initialize elfimg s
    (m₂, s₂) ← parse_segments fh m₁ (read_elf_header fh m₁ s₁)
    m ← parse_dynamic_segment abi (api.memory s₂) m₂
    let base = m.module_base_vaddr
    let mem₁ = adjust_relocations abi m.relocs m.num_relocs base (api.memory s₂)
    some (m, api.store (adjust_relocations abi m.jmp_relocs m.num_jmp_relocs base mem₁) s₂)

  -- The loop of `loadNeededLibs` from a dynamic entry on.
  unfoldable pub needed_from : ℕ → ℕ → ℕ → Libs → S → Option (Libs × S)
  needed_from zero strtab entry libs s = some (libs, s)
  needed_from (suc left) strtab entry libs s =
      let mem = api.memory s in
      let next = entry + abi.sizeof_dyn in
      let n = libs.num_shared_libs in
      elim (abi.d_tag mem entry == abi.dt_needed) [
        | false ↦ needed_from left strtab next libs s
        | true ↦ do
          let (fh, s₁) = api.open_file (at_offset strtab (abi.d_val mem entry)) s
          (m, s₂) ← load_module fh (libs.shared_libs n) s₁
          needed_from left strtab next
              (record { shared_libs = update libs.shared_libs n m; num_shared_libs = n + 1 }) s₂
      ]

  unfoldable pub load_needed_libs : ElfModule → Libs → S → Option (Libs × S)
  load_needed_libs m libs s = needed_from m.num_dynamic m.strtab m.dynamic libs s

  -- The loop of `elf_exec` over the segments, which stand at their own addresses.
  unfoldable pub exec_segments : ℕ → ℕ → ℕ → S → S
  exec_segments zero fh phdr s = s
  exec_segments (suc left) fh phdr s =
      let mem = api.memory s in
      let voffset = abi.p_vaddr mem phdr in
      let size = abi.p_filesz mem phdr in
      let pages = (voffset % 4096 + size + bytes_per_page - 1) % 2 ^ 32 / bytes_per_page in
      let s₁ = api.alloc_at pages (voffset - voffset % 4096) s in
      let s₂ = (api.seek fh (abi.p_offset mem phdr) s₁).1 in
      exec_segments left fh (phdr + abi.sizeof_phdr)
        (if abi.p_type mem phdr == abi.pt_load then api.read fh voffset size s₂ else s)

  -- `elf_exec` up to the jump: the entry point that it calls. `image` is `&executable`, and
  -- `lookup` is the address of `lookup_symbol_args`.
  unfoldable pub elf_exec : ℕ → ℕ → ℕ → ElfModule → Libs → S → Option (ℕ × Libs × S)
  elf_exec name image lookup executable libs s = do
    let (fh, s₁) = api.open_file name s
    let (m₁, s₂) = initialize executable s₁
    s₃ ← read_phdrs fh m₁ (read_elf_header fh m₁ s₂)
    let s₄ = exec_segments (abi.e_phnum (api.memory s₃) m₁.header) fh m₁.phdrs s₃
    m₂ ← find_dynamic_section abi (api.memory s₄) m₁
    m₃ ← parse_dynamic_segment abi (api.memory s₄) m₂
    (libs', s₅) ← load_needed_libs m₃ libs s₄
    let mem₁ = write_uint (api.memory s₅) (m₃.pltgot + 4) image
    let mem₂ = write_uint mem₁ (m₃.pltgot + 8) lookup
    some (abi.e_entry mem₂ m₃.header, libs', api.store mem₂ s₅)
