-- ===== src/Pages/Map.antt =====
-- Every answer of `page_map`.
use Prim.Native.Nat.{bit_or}
use untitled_bare_metal.Base.{
  ℕ, ◌+◌, ◌*◌, ◌/◌, ◌%◌, ◌^◌, ◌≡◌, ◌≢◌, ◌⊎◌, inl, inr, true, false, ◌==◌, arith, update, Bool-cases,
  sub64, ◌∙◌,
}
use untitled_bare_metal.Sys.{failed_lookup}
use untitled_bare_metal.Tag.{MessageTag, msg_ok, msg_err, msg_delete_first}
use untitled_bare_metal.Cap.{cap_ptr}
use untitled_bare_metal.Kernel.{Kernel, K, done, ◌>>=◌}
use untitled_bare_metal.Kernel.Registers.{Ready, put_mr, msg_failed_lookup-ok}
use untitled_bare_metal.Pages.{
  pte_addr, entry_in, get_pml4e, get_pdpte, get_pde, get_pte, object_phy, is_present, page_entry,
  page_map, need, put_new,
}

-- The address of an entry in the table that `pte` names.
abbrev pub entry_at : (pte addr shift : ℕ) → Kernel → ℕ
entry_at pte addr shift k = (bit_or (pte_addr pte) k.hhdm + 8 * (addr / 2 ^ shift % 2 ^ 9)) % 2 ^ 64

-- The four entries on the way to an address, from the root down.
module _ (root addr : ℕ) (k : Kernel) where
  abbrev pub pml4e : ℕ
  pml4e = entry_at root addr 39 k

  abbrev pub pdpte : ℕ
  pdpte = entry_at (k.pte pml4e) addr 30 k

  abbrev pub pde : ℕ
  pde = entry_at (k.pte pdpte) addr 21 k

  abbrev pub pte : ℕ
  pte = entry_at (k.pte pde) addr 12 k

-- Where an object lies in physical memory.
abbrev pub phy_of : ℕ → Kernel → ℕ
phy_of cte k = sub64 (cap_ptr (k.cte cte).cap) (bit_or 0 k.hhdm)

module _ (root addr : ℕ) (k : Kernel) (mapped : k.hhdm ≢ 0) where
  no_zero : (k.hhdm == 0) ≡ false
  no_zero = ground arith

  entry-ok : (e a shift : ℕ) → entry_in e a shift k ≡ done (entry_at e a shift k) k
  entry-ok e a shift = rw no_zero

  pml4e-ok : get_pml4e root addr k ≡ done (pml4e root addr k) k
  unfolding get_pml4e
  pml4e-ok = entry-ok root addr 39

  pdpte-ok : get_pdpte root addr k ≡ done (pdpte root addr k) k
  unfolding get_pdpte
  pdpte-ok = rw pml4e-ok (entry-ok (k.pte (pml4e root addr k)) addr 30)

  pde-ok : get_pde root addr k ≡ done (pde root addr k) k
  unfolding get_pde
  pde-ok = rw pdpte-ok (entry-ok (k.pte (pdpte root addr k)) addr 21)

  pte-ok : get_pte root addr k ≡ done (pte root addr k) k
  unfolding get_pte
  pte-ok = rw pde-ok (entry-ok (k.pte (pde root addr k)) addr 12)

phy-ok : (cte : ℕ) (k : Kernel) → k.hhdm ≢ 0 → object_phy cte k ≡ done (phy_of cte k) k
phy-ok cte k mapped = rw no_zero_
  where
    no_zero_ : (k.hhdm == 0) ≡ false
    no_zero_ = ground arith

-- The answers, each with its condition: a missing table of level 3, 2 or 1, an address in use, or a
-- new entry.
abbrev pub Answers : (cte vspace vaddr attr : ℕ) → Kernel → Type 0
Answers cte vspace vaddr attr k =
    let root = cap_ptr (k.cte vspace).cap in
    let there = λ (e : ℕ). is_present (k.pte e) ≡ true in
    let absent = λ (e : ℕ). is_present (k.pte e) ≡ false in
    let missing = λ (level : ℕ).
      page_map cte vspace vaddr attr k ≡ done (msg_err failed_lookup 1) (put_mr 0 level k) in
    (absent (pml4e root vaddr k) × missing 3)
    ⊎ (there (pml4e root vaddr k) × absent (pdpte root vaddr k) × missing 2)
    ⊎ (there (pml4e root vaddr k)
        × there (pdpte root vaddr k)
        × absent (pde root vaddr k)
        × missing 1)
    ⊎ (there (pml4e root vaddr k)
        × there (pdpte root vaddr k)
        × there (pde root vaddr k)
        × ((there (pte root vaddr k) × (page_map cte vspace vaddr attr k ≡ done msg_delete_first k))
            ⊎ (absent (pte root vaddr k)
                × (page_map cte vspace vaddr attr k
                    ≡ done (msg_ok 0) (record k {
                      pte = update k.pte (pte root vaddr k) (page_entry (phy_of cte k) attr);
                    })))))

module _ (cte vspace vaddr attr : ℕ) (k : Kernel) (mapped : k.hhdm ≢ 0) (r : Ready k) where
  abbrev root : ℕ
  root = cap_ptr (k.cte vspace).cap

  -- What is left to do behind each entry.
  abbrev behind_2 : K MessageTag
  behind_2 = get_pte root vaddr >>= λ e. put_new e (page_entry (phy_of cte k) attr)

  abbrev behind_3 : K MessageTag
  behind_3 = get_pde root vaddr >>= λ e. need e 1 behind_2

  abbrev behind_4 : K MessageTag
  behind_4 = get_pdpte root vaddr >>= λ e. need e 2 behind_3

  at_4 : page_map cte vspace vaddr attr k ≡ need (pml4e root vaddr k) 3 behind_4 k
  unfolding page_map
  at_4 = rw (phy-ok cte k mapped) (rw (pml4e-ok root vaddr k mapped))

  abbrev There : ℕ → Type 0
  There e = is_present (k.pte e) ≡ true

  at_3 :
      There (pml4e root vaddr k)
      → page_map cte vspace vaddr attr k ≡ need (pdpte root vaddr k) 2 behind_3 k
  at_3 yes4 = at_4 ∙ rw yes4 (rw (pdpte-ok root vaddr k mapped))

  at_2 :
      There (pml4e root vaddr k)
      → There (pdpte root vaddr k)
      → page_map cte vspace vaddr attr k ≡ need (pde root vaddr k) 1 behind_2 k
  at_2 yes4 yes3 = at_3 yes4 ∙ rw yes3 (rw (pde-ok root vaddr k mapped))

  at_1 :
      There (pml4e root vaddr k)
      → There (pdpte root vaddr k)
      → There (pde root vaddr k)
      → page_map cte vspace vaddr attr k
        ≡ put_new (pte root vaddr k) (page_entry (phy_of cte k) attr) k
  at_1 yes4 yes3 yes2 = at_2 yes4 yes3 ∙ rw yes2 (rw (pte-ok root vaddr k mapped))

  -- With the direct map set and a buffer for the calling thread, page_map has five answers, each
  -- under its own condition on the four entries of the walk: a failed lookup with the missing level
  -- 3, 2 or 1 in message register 0, delete first where the last entry is present, and success,
  -- where exactly that entry is written with the page and its attributes.
  pub page_map-Answers : Answers cte vspace vaddr attr k
  page_map-Answers = elim (Bool-cases (is_present (k.pte (pml4e root vaddr k)))) [
    | inr no4 ↦ inl (no4, at_4 ∙ rw (no4, msg_failed_lookup-ok k r 3))
    | inl yes4 ↦ elim (Bool-cases (is_present (k.pte (pdpte root vaddr k)))) [
      | inr no3 ↦ inr (inl (yes4, no3, at_3 yes4 ∙ rw (no3, msg_failed_lookup-ok k r 2)))
      | inl yes3 ↦ elim (Bool-cases (is_present (k.pte (pde root vaddr k)))) [
        | inr no2 ↦
            inr (inr (inl (yes4, yes3, no2, at_2 yes4 yes3 ∙ rw (no2, msg_failed_lookup-ok k r 1))))
        | inl yes2 ↦ inr (
            inr (
              inr (
                yes4,
                yes3,
                yes2,
                elim (Bool-cases (is_present (k.pte (pte root vaddr k)))) [
                  | inl used ↦ inl (used, at_1 yes4 yes3 yes2 ∙ rw used)
                  | inr free ↦ inr (free, at_1 yes4 yes3 yes2 ∙ rw free)
                ],
              )))
      ]
    ]
  ]
