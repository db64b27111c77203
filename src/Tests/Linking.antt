-- ===== src/Tests/Linking.antt =====
-- The lookup of a symbol (Elf.antt) in a library with two symbols on one chain. The layout of the
-- structs is that of ELF32.
use shipwreck.Base.{
  ◌+◌, ◌/◌, ◌%◌, ◌^◌, ◌<◌, ◌≤◌, ◌≡◌, ◌⊎◌, refl, ℕ, some, [], ◌∷◌, arith, ◌==◌, if◌then◌else◌,
}
use shipwreck.CString.{Memory, dword}
use shipwreck.Elf.{Abi, ElfModule, write_uint, lookup_symbol_args, elf_Hash, hash_from, hash_step}
use shipwreck.Elf.Symbols.{Chain, chain_head, relocation, wanted, resolved, lookup_symbol_args_lem}

abbrev elf32 : Abi
elf32 = record {
  sizeof_ehdr = 52;
  sizeof_phdr = 32;
  sizeof_dyn = 8;
  sizeof_rel = 8;
  sizeof_sym = 16;
  e_phoff = λ m p. dword m p 7;
  e_phnum = λ m p. dword m p 11 % 65536;
  e_entry = λ m p. dword m p 6;
  p_type = λ m p. dword m p 0;
  p_vaddr = λ m p. dword m p 2;
  p_offset = λ m p. dword m p 1;
  p_filesz = λ m p. dword m p 4;
  p_memsz = λ m p. dword m p 5;
  d_tag = λ m p. dword m p 0;
  d_val = λ m p. dword m p 1;
  st_name = λ m p. dword m p 0;
  st_value = λ m p. dword m p 1;
  r_offset = λ m p. dword m p 0;
  set_r_offset = λ m p v. write_uint m p v;
  r_info = λ m p. dword m p 1;
  r_sym = λ i. i / 256;
  pt_load = 1;
  pt_dynamic = 2;
  dt_rel = 17;
  dt_relsz = 18;
  dt_jmprel = 23;
  dt_pltrelsz = 2;
  dt_symtab = 6;
  dt_syment = 11;
  dt_strtab = 5;
  dt_hash = 4;
  dt_pltgot = 3;
  dt_needed = 1;
}

abbrev module_at : ℕ → ElfModule
module_at base = record {
  module_base_vaddr = base;
  module_size = 4096;
  header = 0;
  phdrs = 0;
  dynamic = 0;
  num_dynamic = 0;
  relocs = 0;
  num_relocs = 0;
  jmp_relocs = 600;
  num_jmp_relocs = 1;
  dynsym = 500;
  sym_size = 16;
  num_buckets = 1;
  num_chains = 3;
  buckets = 100;
  chains = 200;
  strtab = 300;
  pltgot = 0;
}

-- Bucket 0 starts at symbol 1, named "g", which is followed by symbol 2, named "f", of value 64.
-- The relocation at 600 is for symbol 2 and slot 700.
abbrev two_symbols : Memory
two_symbols p =
    if p == 100
    then 1
    else if p == 204
    then 2
    else if p == 300
    then 103
    else if p == 302
    then 102
    else if p == 532
    then 2
    else if p == 536
    then 64
    else if p == 600
    then 188
    else if p == 601
    then 2
    else if p == 605
    then 2
    else 0

two_symbols-Chain :
    Chain two_symbols
      (module_at 4096)
      (chain_head two_symbols (module_at 4096) (wanted elf32 two_symbols (module_at 4096) 0))
      (2 ∷ [])
unfolding elf_Hash hash_from hash_step
two_symbols-Chain = (refl, ground arith, refl)

lookup_symbol_args_lem_example :
    (let library = module_at 4096 in
      let function =
        resolved elf32 two_symbols library (wanted elf32 two_symbols library 0) (2 ∷ []) in
      let slot = elf32.r_offset two_symbols (relocation elf32 library 0) in
      let mem' = write_uint two_symbols slot function in
      (lookup_symbol_args elf32 library library 0 two_symbols ≡ some (function, mem'))
      × (dword mem' slot 0 ≡ function % 2 ^ 32)
      × ((p : ℕ) → (mem' p ≡ two_symbols p) ⊎ ((slot ≤ p) × (p < slot + 4))))
lookup_symbol_args_lem_example =
    lookup_symbol_args_lem elf32 (module_at 4096) (module_at 4096) 0 two_symbols (2 ∷ [])
      (omega arith) two_symbols-Chain (omega arith)
