-- ===== src/Mmu/Fence.antt =====
-- `clear_tlb` and `fence_vma` of src/rv64core/mmu/cpu_mmu.rs. `none` is a panic.
use riscv64_emu_rust.Base.{
  Bool, false, not, ◌&&◌, List, [], ◌∷◌, Option, none, some, ◌>>=◌, if◌then◌else◌, ℕ, ◌==◌, bit_and,
}
use riscv64_emu_rust.Mmu.Pte
use riscv64_emu_rust.Mmu.{get_mask, TlbEntry, TlbKey, Tlb, Mmu}

-- Whether the key is that of the address for the size of its entry.
abbrev covers : ℕ → TlbKey × TlbEntry → Option Bool
covers va (key, entry) = get_mask entry.page_size >>= λ mask. some (key.va == bit_and mask va)

-- The test of the last case; `&&` asks for the mask only where the key has the address space.
abbrev covers_local : ℕ → ℕ → TlbKey × TlbEntry → Option Bool
covers_local va asid (key, entry) =
    if key.asid == asid
    then (covers va (key, entry) >>= λ same. some (same && not (Pte.g entry.pte)))
    else some false

-- The key of the first entry that passes the test.
unfoldable pub find_key :
    (TlbKey × TlbEntry → Option Bool) → List (TlbKey × TlbEntry) → Option (Option TlbKey)
find_key test [] = some none
find_key test (item ∷ items) =
    let rest = find_key test items in
    test item >>= λ found. if found then some (some item.0) else rest

-- The keys of the entries of an address space that are not global.
unfoldable pub key_list : ℕ → List (TlbKey × TlbEntry) → List TlbKey
key_list asid [] = []
key_list asid ((key, entry) ∷ items) =
    let rest = key_list asid items in
    if (entry.asid == asid) && not (Pte.g entry.pte) then key ∷ rest else rest

module _ {T : Type 0} (tlb : Tlb T) where
  unfoldable pub clear_tlb : Mmu T → Mmu T
  clear_tlb mmu = record mmu { tlb = tlb.clear mmu.tlb }

  unfoldable pub remove_all : List TlbKey → Mmu T → Mmu T
  remove_all [] mmu = mmu
  remove_all (key ∷ keys) mmu = remove_all keys (record mmu { tlb = tlb.remove key mmu.tlb })

  abbrev pub remove_found : Mmu T → Option TlbKey → Mmu T
  remove_found mmu none = mmu
  remove_found mmu (some key) = record mmu { tlb = tlb.remove key mmu.tlb }

  unfoldable pub fence_vma : ℕ → ℕ → Mmu T → Option (Mmu T)
  unfolding clear_tlb remove_all key_list find_key get_mask
  fence_vma va asid mmu =
      if va == 0
      then (if asid == 0
          then some (clear_tlb mmu)
          else some (remove_all (key_list asid (tlb.iter mmu.tlb)) mmu))
      else if asid == 0
      then (find_key (covers va) (tlb.iter mmu.tlb) >>= λ key. some (remove_found mmu key))
      else (find_key (covers_local va asid) (tlb.iter mmu.tlb) >>= λ key.
          some (remove_found mmu key))
