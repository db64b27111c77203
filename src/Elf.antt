-- ===== src/Elf.antt =====
-- src/system/include/elfparser.h: a shared object as it stands in memory, its symbols and its
-- relocations. elf.h is not part of the repository: `Abi` has what the code takes from it, a
-- struct's field being read at the struct's address. An address is a number below 2 ^ 32, and 0 is
-- nullptr.
pub mod Load
pub mod Symbols
use shipwreck.Base.{
  ℕ, zero, suc, ◌+◌, ◌-◌, ◌*◌, ◌/◌, ◌%◌, ◌^◌, Bool, true, false, ◌||◌, Option, none, some, ◌==◌,
  ltb, if◌then◌else◌,
}
use shipwreck.Base.Int.{ℤ, pos, negsuc}
use shipwreck.CString.{Memory, dword, write_dword, strncmp}
use Prim.Native.Nat.{bit_and, bit_xor}

pub record Abi : Type 0 where
  pub sizeof_ehdr : ℕ
  pub sizeof_phdr : ℕ
  pub sizeof_dyn : ℕ
  pub sizeof_rel : ℕ
  pub sizeof_sym : ℕ
  pub e_phoff : Memory → ℕ → ℕ
  pub e_phnum : Memory → ℕ → ℕ
  pub e_entry : Memory → ℕ → ℕ
  pub p_type : Memory → ℕ → ℕ
  pub p_vaddr : Memory → ℕ → ℕ
  pub p_offset : Memory → ℕ → ℕ
  pub p_filesz : Memory → ℕ → ℕ
  pub p_memsz : Memory → ℕ → ℕ
  pub d_tag : Memory → ℕ → ℕ
  pub d_val : Memory → ℕ → ℕ
  pub st_name : Memory → ℕ → ℕ
  pub st_value : Memory → ℕ → ℕ
  pub r_offset : Memory → ℕ → ℕ
  pub set_r_offset : Memory → ℕ → ℕ → Memory
  pub r_info : Memory → ℕ → ℕ
  pub r_sym : ℕ → ℕ
  pub pt_load : ℕ
  pub pt_dynamic : ℕ
  pub dt_rel : ℕ
  pub dt_relsz : ℕ
  pub dt_jmprel : ℕ
  pub dt_pltrelsz : ℕ
  pub dt_symtab : ℕ
  pub dt_syment : ℕ
  pub dt_strtab : ℕ
  pub dt_hash : ℕ
  pub dt_pltgot : ℕ
  pub dt_needed : ℕ

-- The header and the program headers are read from the file to `header` and `phdrs`.
pub record ElfModule : Type 0 where
  pub module_base_vaddr : ℕ
  pub module_size : ℕ
  pub header : ℕ
  pub phdrs : ℕ
  pub dynamic : ℕ
  pub num_dynamic : ℕ
  pub relocs : ℕ
  pub num_relocs : ℕ
  pub jmp_relocs : ℕ
  pub num_jmp_relocs : ℕ
  pub dynsym : ℕ
  pub sym_size : ℕ
  pub num_buckets : ℕ
  pub num_chains : ℕ
  pub buckets : ℕ
  pub chains : ℕ
  pub strtab : ℕ
  pub pltgot : ℕ

-- `&base[offset]` of chars
abbrev pub at_offset : ℕ → ℕ → ℕ
at_offset base offset = (base + offset) % 2 ^ 32

abbrev pub write_uint : Memory → ℕ → ℕ → Memory
write_uint mem p v =
    write_dword mem p (v % 256) (v / 256 % 256) (v / 65536 % 256) (v / 16777216 % 256)

-- One round of `elf_Hash`. The top four bits are folded back and cleared.
unfoldable pub hash_step : ℕ → ℕ → ℕ
hash_step h c =
    let sum = (h * 16 + c) % 2 ^ 32 in
    let g = bit_and sum (15 * 2 ^ 28) in
    let folded = if g == 0 then sum else bit_xor sum (g / 2 ^ 24) in bit_and folded (2 ^ 32 - 1 - g)

unfoldable pub hash_from : ℕ → Memory → ℕ → ℕ → ℕ
hash_from zero mem name h = h
hash_from (suc left) mem name h = elim (mem name == 0) [
  | true ↦ h
  | false ↦ hash_from left mem (name + 1) (hash_step h (mem name))
]

-- A name that does not end in the 2 ^ 32 bytes of memory has no hash.
unfoldable pub elf_Hash : Memory → ℕ → ℕ
elf_Hash mem name = hash_from (2 ^ 32) mem name 0

-- The `int` of a word.
abbrev pub as_int : ℕ → ℤ
as_int i = if ltb i (2 ^ 31) then pos i else negsuc (2 ^ 32 - 1 - i)

-- `chains[sym_index]`
abbrev pub next_symbol : Memory → ElfModule → ℕ → ℕ
next_symbol mem m i = dword mem (at_offset m.chains (4 * i)) 0

module _ (abi : Abi) where
  -- `&dynsym[i]`, for the word `i` of a `uint` or of an `int`, which is the same number modulo 2 ^ 32.
  abbrev pub symbol_at : ElfModule → ℕ → ℕ
  symbol_at m i = at_offset m.dynsym (i * abi.sizeof_sym)

  abbrev pub has_name : Memory → ElfModule → ℕ → ℕ → Bool
  has_name mem m name i =
      strncmp mem (at_offset m.strtab (abi.st_name mem (symbol_at m i))) name 64 == 0

  -- The loop of `getSymbolIndex` from symbol `i` on, the word of `sym_index`; `none` is a chain that
  -- goes on after `left` rounds. The index that is returned is an `int`.
  unfoldable pub chain_from : ℕ → Memory → ElfModule → ℕ → ℕ → Option ℤ
  chain_from zero mem m name i = none
  chain_from (suc left) mem m name i =
      let next = next_symbol mem m i in
      let rest = chain_from left mem m name next in
      if has_name mem m name i then some (as_int i) else if next == 0 then some (negsuc 0) else rest

  -- `getSymbolIndex`, whose walk may be as long as there are chain entries, and one more.
  unfoldable pub get_symbol_index : Memory → ElfModule → ℕ → Option ℤ
  get_symbol_index mem m name =
      chain_from (suc m.num_chains) mem m name
        (dword mem (at_offset m.buckets (4 * (elf_Hash mem name % m.num_buckets))) 0)

  abbrev pub symbol_of : ElfModule → ℤ → ℕ
  symbol_of m (pos i) = symbol_at m i
  symbol_of m (negsuc _) = 0

  -- `getSymbol`
  unfoldable pub get_symbol : Memory → ElfModule → ℕ → Option ℕ
  get_symbol mem m name = elim (get_symbol_index mem m name) [
    | none ↦ none
    | some found ↦ some (symbol_of m found)
  ]

  -- `getFunctionPtr`
  unfoldable pub get_function_ptr : Memory → ElfModule → ℕ → Option ℕ
  get_function_ptr mem m name = elim (get_symbol mem m name) [
    | none ↦ none
    | some sym ↦ some (if sym == 0 then 0 else at_offset m.module_base_vaddr (abi.st_value mem sym))
  ]

  -- The loop of `adjustRelocations` from entry `i` on.
  unfoldable pub adjust_from : ℕ → ℕ → ℕ → ℕ → Memory → Memory
  adjust_from zero i relocs base mem = mem
  adjust_from (suc left) i relocs base mem =
      let entry = relocs + i * abi.sizeof_rel in
      let target = (abi.r_offset mem entry + base) % 2 ^ 32 in
      let mem₁ = abi.set_r_offset mem entry target in
      adjust_from left (i + 1) relocs base
        (write_uint mem₁ target ((dword mem₁ target 0 + base) % 2 ^ 32))

  unfoldable pub adjust_relocations : ℕ → ℕ → ℕ → Memory → Memory
  adjust_relocations relocs num_relocs base mem =
      if base == 0 || relocs == 0 then mem else adjust_from num_relocs 0 relocs base mem

  -- `lookup_symbol_args`, for the module `elfimg` and the byte offset `arg` of a relocation;
  -- `library` is `sharedLibs[0]`. The result is the function's address, which it returns to. `none`
  -- is the freeze on an index past the relocations, or a chain that does not end.
  unfoldable pub lookup_symbol_args : ElfModule → ElfModule → ℕ → Memory → Option (ℕ × Memory)
  lookup_symbol_args library elfimg arg mem =
      let index = arg / abi.sizeof_rel in
      let reloc = at_offset elfimg.jmp_relocs (index * abi.sizeof_rel) in
      let symbol = symbol_at elfimg (abi.r_sym (abi.r_info mem reloc)) in
      let name = at_offset elfimg.strtab (abi.st_name mem symbol) in
      if ltb index elfimg.num_jmp_relocs
      then elim (get_function_ptr mem library name) [
        | none ↦ none
        | some function ↦ some (function, write_uint mem (abi.r_offset mem reloc) function)
      ]
      else none
