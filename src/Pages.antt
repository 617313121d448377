-- ===== src/Pages.antt =====
-- kern/arch/x86_64/obj/page.c, with the walk of kern/arch/x86_64/mmu.c: page tables of four levels.
-- Entries stand in a store by address; bit 0 is PTE_PRESENT, bit 1 PTE_WRITE and bit 2 PTE_USER.
pub mod Map
mod Tests
use Prim.Native.Nat.{bit_or}
use untitled_bare_metal.Base.{
  ℕ, zero, suc, ◌+◌, ◌*◌, ◌/◌, ◌%◌, ◌^◌, Bool, ◌==◌, if◌then◌else◌, sub64, update,
}
use untitled_bare_metal.Tag.{MessageTag, msg_ok, msg_delete_first}
use untitled_bare_metal.Cap.{cap_ptr}
use untitled_bare_metal.Kernel.{K, pure, ◌>>=◌, ◌>>◌, get, modify, msg_failed_lookup}
use untitled_bare_metal.Untyped.{direct_map_of}

abbrev pub pte_addr : ℕ → ℕ
pte_addr pte = pte / 2 ^ 12 % 2 ^ 40 * 2 ^ 12

-- &table[index] of the table that an entry names, which is read through the direct map
abbrev pub entry_in : (pte addr shift : ℕ) → K ℕ
entry_in pte addr shift = do
  table ← direct_map_of (pte_addr pte)
  pure ((table + 8 * (addr / 2 ^ shift % 2 ^ 9)) % 2 ^ 64)

unfoldable pub get_pml4e : (root addr : ℕ) → K ℕ
get_pml4e root addr = entry_in root addr 39

unfoldable pub get_pdpte : (root addr : ℕ) → K ℕ
unfolding get_pml4e
get_pdpte root addr = do e ← get_pml4e root addr; k ← get; entry_in (k.pte e) addr 30

unfoldable pub get_pde : (root addr : ℕ) → K ℕ
unfolding get_pdpte
get_pde root addr = do e ← get_pdpte root addr; k ← get; entry_in (k.pte e) addr 21

unfoldable pub get_pte : (root addr : ℕ) → K ℕ
unfolding get_pde
get_pte root addr = do e ← get_pde root addr; k ← get; entry_in (k.pte e) addr 12

-- physical_of
abbrev pub physical_of : ℕ → K ℕ
physical_of addr = do base ← direct_map_of 0; pure (sub64 addr base)

abbrev pub is_present : ℕ → Bool
is_present pte = pte % 2 == 1

abbrev pub set_pte : (at value : ℕ) → K (Unit {0})
set_pte at value = modify λ k. record k { pte = update k.pte at value }

-- pml4e[i] = current_pml4[i], for `left` entries from `i`
unfoldable pub copy_entries : (left i to from : ℕ) → (ℕ → ℕ) → ℕ → ℕ
copy_entries zero i to from pte = pte
copy_entries (suc left) i to from pte =
    copy_entries left (i + 1) to from (update pte (to + 8 * i) (pte (from + 8 * i)))

-- if (*e & PTE_PRESENT) == 0, the table at a level is missing
abbrev pub need : (e level : ℕ) → K MessageTag → K MessageTag
need e level rest = do k ← get; if is_present (k.pte e) then rest else msg_failed_lookup level

-- if (*e & PTE_PRESENT) != 0, something is mapped already
abbrev pub put_new : (e value : ℕ) → K MessageTag
put_new e value = do
  k ← get
  if is_present (k.pte e) then pure msg_delete_first else (do set_pte e value; pure (msg_ok 0))

-- The address that a capability names, in physical memory.
abbrev pub object_phy : ℕ → K ℕ
object_phy cte = do k ← get; physical_of (cap_ptr (k.cte cte).cap)

abbrev pub root_of : ℕ → K ℕ
root_of vspace = do k ← get; pure (cap_ptr (k.cte vspace).cap)

-- PTE_PRESENT | PTE_WRITE | PTE_USER
abbrev pub table_entry : ℕ → ℕ
table_entry phy = bit_or phy 7

abbrev pub page_entry : (phy attr : ℕ) → ℕ
page_entry phy attr = bit_or (bit_or phy 5) attr

unfoldable pub pdpt_map : (cte vspace vaddr : ℕ) → K MessageTag
unfolding get_pml4e copy_entries
pdpt_map cte vspace vaddr = do
  root ← root_of vspace
  phy ← object_phy cte
  e ← get_pml4e root (vaddr / 2 ^ 39 * 2 ^ 39)
  k ← get
  current ← get_pml4e k.vm_root 0
  modify λ m. record m { pte = copy_entries 256 256 e current m.pte }
  put_new e (table_entry phy)

unfoldable pub pd_map : (cte vspace vaddr : ℕ) → K MessageTag
unfolding get_pml4e get_pdpte msg_failed_lookup
pd_map cte vspace vaddr = do
  let addr = vaddr / 2 ^ 30 * 2 ^ 30
  root ← root_of vspace
  phy ← object_phy cte
  e4 ← get_pml4e root addr
  need e4 3 (do e3 ← get_pdpte root addr; put_new e3 (table_entry phy))

unfoldable pub pt_map : (cte vspace vaddr : ℕ) → K MessageTag
unfolding get_pml4e get_pdpte get_pde msg_failed_lookup
pt_map cte vspace vaddr = do
  let addr = vaddr / 2 ^ 21 * 2 ^ 21
  root ← root_of vspace
  phy ← object_phy cte
  e4 ← get_pml4e root addr
  need e4 3 (do
    e3 ← get_pdpte root addr
    need e3 2 (do e2 ← get_pde root addr; put_new e2 (table_entry phy)))

unfoldable pub page_map : (cte vspace vaddr attr : ℕ) → K MessageTag
unfolding get_pml4e get_pdpte get_pde get_pte msg_failed_lookup
page_map cte vspace vaddr attr = do
  root ← root_of vspace
  phy ← object_phy cte
  e4 ← get_pml4e root vaddr
  need e4 3 (do
    e3 ← get_pdpte root vaddr
    need e3 2 (do
      e2 ← get_pde root vaddr
      need e2 1 (do e1 ← get_pte root vaddr; put_new e1 (page_entry phy attr))))

unfoldable pub huge_page_map : (cte vspace vaddr attr : ℕ) → K MessageTag
unfolding get_pml4e get_pdpte get_pde msg_failed_lookup
huge_page_map cte vspace vaddr attr = do
  root ← root_of vspace
  phy ← object_phy cte
  e4 ← get_pml4e root vaddr
  need e4 3 (do
    e3 ← get_pdpte root vaddr
    need e3 2 (do e2 ← get_pde root vaddr; put_new e2 (page_entry phy attr)))
