-- ===== src/Elf/Symbols.antt =====
-- The lookup of a function by its name (include/elfparser.h) on a hash chain that ends.
use shipwreck.Base.{
  ℕ, zero, suc, ◌+◌, ◌*◌, ◌/◌, ◌%◌, ◌^◌, ◌≤◌, ◌<◌, ◌≡◌, ◌≢◌, ◌∙◌, refl, sym, ap, Bool, true, false,
  Option, none, some, ◌==◌, ltb, leb, if◌then◌else◌, List, [], ◌∷◌, length, arith, Bool-cases, inl,
  inr, lt→ltb, ◌⊎◌, dec_lt,
}
use shipwreck.Base.Int.{ℤ, negsuc}
use shipwreck.CString.{Memory, dword}
use shipwreck.Elf.{
  Abi, ElfModule, at_offset, as_int, next_symbol, write_uint, elf_Hash, symbol_at, has_name,
  symbol_of, chain_from, get_symbol_index, get_symbol, get_function_ptr, lookup_symbol_args,
}

-- The symbols that follow symbol `i` on its chain, which ends.
abbrev pub Chain : Memory → ElfModule → ℕ → List ℕ → Type 0
Chain mem m i [] = next_symbol mem m i ≡ 0
Chain mem m i (j ∷ js) = (next_symbol mem m i ≡ j) × (j ≢ 0) × Chain mem m j js

-- The symbol that the chain of a name starts with.
abbrev pub chain_head : Memory → ElfModule → ℕ → ℕ
chain_head mem m name = dword mem (at_offset m.buckets (4 * (elf_Hash mem name % m.num_buckets))) 0

abbrev pub first_named : (ℕ → Bool) → List ℕ → Option ℕ
first_named named [] = none
first_named named (i ∷ is) = if named i then some i else first_named named is

-- What `getSymbolIndex` returns of it.
abbrev index_of : Option ℕ → ℤ
index_of none = negsuc 0
index_of (some i) = as_int i

dword-write_uint : (mem : Memory) (p v : ℕ) → dword (write_uint mem p v) p 0 ≡ v % 2 ^ 32
dword-write_uint mem p v = ground arith

write_uint_frame :
    (mem : Memory) (p v q : ℕ) → (write_uint mem p v q ≡ mem q) ⊎ ((p ≤ q) × (q < p + 4))
write_uint_frame mem p v q = elim (dec_lt q p) [
  | yes lt ↦ inl (ground arith)
  | no ge ↦ elim (dec_lt q (p + 4)) [ yes lt ↦ inr (omega arith, lt) | no far ↦ inl (ground arith) ]
]

zero_test : (n k : ℕ) → n ≡ k → k ≢ 0 → (n == 0) ≡ false
zero_test n k e h = ground arith

module _ (abi : Abi) where
  chain_from_lem :
      (left : ℕ) (mem : Memory) (m : ElfModule) (name i : ℕ) (js : List ℕ)
      → Chain mem m i js
      → length js ≤ left
      → chain_from abi (suc left) mem m name i
        ≡ some (index_of (first_named (has_name abi mem m name) (i ∷ js)))
  unfolding chain_from
  chain_from_lem left mem m name i [] c h = elim (Bool-cases (has_name abi mem m name i)) [
    | inl e ↦ rw e refl
    | inr e ↦ let z : (next_symbol mem m i == 0) ≡ true = ground (arith, c) in rw (e, z) refl
  ]
  chain_from_lem zero mem m name i (j ∷ js) c h = absurd (omega arith)
  chain_from_lem (suc left) mem m name i (j ∷ js) c h =
      elim (Bool-cases (has_name abi mem m name i)) [
        | inl e ↦ rw e refl
        | inr e ↦
            rw (e, zero_test (next_symbol mem m i) j c.0 c.1)
              (ap (chain_from abi (suc left) mem m name) c.0
                ∙ chain_from_lem left mem m name j js c.2 (omega arith))
      ]

  -- The address of the function of the symbol that a search has found. A symbol whose index is negative
  -- as an `int`, or that stands at nullptr, counts as none, and its function has address 0.
  abbrev address_of : Memory → ElfModule → Option ℕ → ℕ
  address_of mem m none = 0
  address_of mem m (some i) =
      if leb (2 ^ 31) i
      then 0
      else if symbol_at abi m i == 0
      then 0
      else at_offset m.module_base_vaddr (abi.st_value mem (symbol_at abi m i))

  function_of-symbol_of :
      (mem : Memory) (m : ElfModule) (found : Option ℕ)
      → (if symbol_of abi m (index_of found) == 0
          then 0
          else at_offset m.module_base_vaddr (abi.st_value mem (symbol_of abi m (index_of found))))
        ≡ address_of mem m found
  function_of-symbol_of mem m none = refl
  function_of-symbol_of mem m (some i) = elim (dec_lt i (2 ^ 31)) [
    | yes lt ↦
        let e : ltb i (2 ^ 31) ≡ true = ground arith in
        let e' : leb (2 ^ 31) i ≡ false = ground arith in rw (e, e') refl
    | no ge ↦
        let e : ltb i (2 ^ 31) ≡ false = ground arith in
        let e' : leb (2 ^ 31) i ≡ true = ground arith in rw (e, e') refl
  ]

  get_function_ptr_lem :
      (mem : Memory) (m : ElfModule) (name : ℕ) (js : List ℕ)
      → Chain mem m (chain_head mem m name) js
      → length js ≤ m.num_chains
      → get_function_ptr abi mem m name
        ≡ some
            (address_of mem m (first_named (has_name abi mem m name) (chain_head mem m name ∷ js)))
  unfolding get_function_ptr get_symbol get_symbol_index
  get_function_ptr_lem mem m name js c h =
      let found : Option ℕ = first_named (has_name abi mem m name) (chain_head mem m name ∷ js) in
      ap
        (λ o.
          elim (elim o as (λ _. Option ℕ) [ none ↦ none | some f ↦ some (symbol_of abi m f) ])
            as (λ _. Option ℕ) [
              | none ↦ none
              | some sym ↦
                  some
                    (if sym == 0 then 0 else at_offset m.module_base_vaddr (abi.st_value mem sym))
            ])
        (chain_from_lem m.num_chains mem m name (chain_head mem m name) js c h)
      ∙ ap some (function_of-symbol_of mem m found)

  -- The relocation that the byte offset `arg` names, and the name of its symbol.
  abbrev pub relocation : ElfModule → ℕ → ℕ
  relocation m arg = at_offset m.jmp_relocs (arg / abi.sizeof_rel * abi.sizeof_rel)

  abbrev pub wanted : Memory → ElfModule → ℕ → ℕ
  wanted mem m arg =
      at_offset m.strtab
        (abi.st_name mem (symbol_at abi m (abi.r_sym (abi.r_info mem (relocation m arg)))))

  abbrev pub resolved : Memory → ElfModule → ℕ → List ℕ → ℕ
  resolved mem library name js =
      address_of mem library
        (first_named (has_name abi mem library name) (chain_head mem library name ∷ js))

-- For a relocation that exists, and a library whose hash chain for the symbol's name goes on after
-- its head with the symbols `js`, no more than there are chain entries, `lookup_symbol_args` ends.
-- It returns the address of the first symbol on the chain that has the name, or 0 where none has it,
-- or where that symbol's index is negative as an `int` or its entry is at nullptr. It stores that
-- address in the four bytes of the relocation's slot and nowhere else.
pub lookup_symbol_args_lem :
    (abi : Abi) (library elfimg : ElfModule) (arg : ℕ) (mem : Memory) (js : List ℕ)
    → arg / abi.sizeof_rel < elfimg.num_jmp_relocs
    → Chain mem library (chain_head mem library (wanted abi mem elfimg arg)) js
    → length js ≤ library.num_chains
    → (let function = resolved abi mem library (wanted abi mem elfimg arg) js in
        let slot = abi.r_offset mem (relocation abi elfimg arg) in
        let mem' = write_uint mem slot function in
        (lookup_symbol_args abi library elfimg arg mem ≡ some (function, mem'))
        × (dword mem' slot 0 ≡ function % 2 ^ 32)
        × ((p : ℕ) → (mem' p ≡ mem p) ⊎ ((slot ≤ p) × (p < slot + 4))))
unfolding lookup_symbol_args
lookup_symbol_args_lem abi library elfimg arg mem js lt c h =
    let name : ℕ = wanted abi mem elfimg arg in
    let slot : ℕ = abi.r_offset mem (relocation abi elfimg arg) in
    (
      rw (lt→ltb _ _ lt) (
          ap
            (λ o. elim o as (λ _. Option (ℕ × Memory)) [
              | none ↦ none
              | some f ↦ some (f, write_uint mem slot f)
            ])
            (get_function_ptr_lem abi mem library name js c h)),
      dword-write_uint mem slot (resolved abi mem library name js),
      λ p. write_uint_frame mem slot (resolved abi mem library name js) p,
    )
