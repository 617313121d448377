-- ===== src/Alloc/Handout.antt =====
-- The untyped capabilities that the first user program gets.
use mathlib.Core.Option
use untitled_bare_metal.Sys.{cap_untyped}
use untitled_bare_metal.Base.{
  ℕ, zero, suc, ◌+◌, ◌-◌, ◌/◌, ◌%◌, ◌^◌, ◌≤◌, ◌<◌, ◌≡◌, ◌≢◌, refl, sym, subst, ap, ◌∙◌, true, false,
  ==_iff, if◌then◌else◌, leb, sub64, List, [], ◌∷◌, some, ◌⊎◌, inl, inr, arith, Bool-cases, dec_lt,
  ℕ_discrete,
}
use untitled_bare_metal.Cap.{Capability, new_cap, new_untyped_cap, is_safe_cap_ptr, cap_set_ptr}
use untitled_bare_metal.Alloc.{
  max_regions, PowerOfTwoRegion, Memory, UntypedDesc, Untypeds, add_untyped, untyped_desc,
  give_to_user, init_untyped_from, create_init_untyped_caps,
}

-- The descriptions of the regions that the kernel does not use, of `left` regions from `i`.
abbrev pub handed : (left i : ℕ) → (ℕ → PowerOfTwoRegion) → List UntypedDesc
handed zero i rs = []
handed (suc left) i rs =
    if (rs i).in_kernel_use
    then handed left (i + 1) rs
    else untyped_desc (rs i) ∷ handed left (i + 1) rs

-- Each capability is to the memory of its description.
abbrev pub Names : List Capability → List UntypedDesc → Type 0
Names [] [] = Unit {0}
Names [] (d ∷ ds) = ⊥
Names (c ∷ cs) [] = ⊥
Names (c ∷ cs) (d ∷ ds) = (new_untyped_cap d.base d.size_bits ≡ some c) × Names cs ds

abbrev pub for_user : PowerOfTwoRegion → PowerOfTwoRegion
for_user r = if r.in_kernel_use then r else record r { in_user_use = true }

-- The regions from `i` to `n` that the kernel does not use are the user's, and nothing else changes.
pub record HandedOut (i n : ℕ) (m : Memory) (u : Untypeds) : Type 0 where
  pub descs : u.descs ≡ handed (n - i) i m.regions
  pub names : Names u.caps u.descs
  pub inside : (j : ℕ) → i ≤ j → j < n → u.memory.regions j ≡ for_user (m.regions j)
  pub outside : (j : ℕ) → (j < i) ⊎ (n ≤ j) → u.memory.regions j ≡ m.regions j
  pub count : u.memory.region_count ≡ n

handed_ext :
    (left i : ℕ) (rs ss : ℕ → PowerOfTwoRegion)
    → ((j : ℕ) → i ≤ j → ss j ≡ rs j)
    → handed left i ss ≡ handed left i rs
handed_ext zero i rs ss h = refl
handed_ext (suc left) i rs ss h =
    rw (h i (omega arith), handed_ext left (i + 1) rs ss (λ j lo. h j (omega arith))) refl

handed_step :
    (n i : ℕ) (rs : ℕ → PowerOfTwoRegion)
    → i < n
    → handed (n - i) i rs ≡ handed (suc (n - (i + 1))) i rs
handed_step n i rs lt = let e : n - i ≡ suc (n - (i + 1)) = omega arith in rw e refl

-- Every region that the kernel does not use can be the object of a capability.
abbrev pub CapsSafe : ℕ → Memory → Type 0
CapsSafe n m =
    (j : ℕ)
    → j < n
    → (m.regions j).in_kernel_use ≡ false
    → is_safe_cap_ptr (m.regions j).addr ≡ true

module _ (n i : ℕ) (m : Memory) (lt : i < n) where
  skipped-HandedOut :
      (u : Untypeds)
      → (m.regions i).in_kernel_use ≡ true
      → HandedOut (i + 1) n m u
      → HandedOut i n m u
  skipped-HandedOut u k h = record {
    descs = h.descs ∙ sym (handed_step n i m.regions lt ∙ (rw k refl));
    names = h.names;
    inside = λ j lo hi. elim (dec_lt i j) [
      | yes above ↦ h.inside j (omega arith) hi
      | no here ↦
          let same : j ≡ i = omega arith in rw (same, h.outside i (inl (omega arith))) (rw k refl)
    ];
    outside = λ j o. h.outside j (elim o [ inl b ↦ inl (omega arith) | inr a ↦ inr a ]);
    count = h.count;
  }

  -- Region `i` is given to the user, and then what follows is handed out.
  module _ (c : Capability) (free : (m.regions i).in_kernel_use ≡ false)
      (made : new_untyped_cap (m.regions i).addr ((m.regions i).size_bits + 12) ≡ some c) where
    given_here : (give_to_user i m).regions i ≡ for_user (m.regions i)
    given_here = rw (free, (==_iff i i).1 refl) refl

    given_other : (j : ℕ) → j ≢ i → (give_to_user i m).regions j ≡ m.regions j
    given_other j ne = ground arith

    given-HandedOut :
        (u : Untypeds)
        → HandedOut (i + 1) n (give_to_user i m) u
        → HandedOut i n m (add_untyped c (untyped_desc (m.regions i)) u)
    given-HandedOut u h =
        let same =
          handed_ext (n - (i + 1)) (i + 1) m.regions (give_to_user i m).regions
            (λ j lo. given_other j (λ e. omega (arith, e, lo))) in
        record {
          descs =
              ap (λ (ds : List UntypedDesc). untyped_desc (m.regions i) ∷ ds) (h.descs ∙ same)
              ∙ sym (handed_step n i m.regions lt ∙ (rw free refl));
          names = (made, h.names);
          inside = λ j lo hi. elim (dec_lt i j) [
            | yes above ↦
                h.inside j (omega arith) hi
                ∙ ap for_user (given_other j (λ e. omega (arith, e, above)))
            | no here ↦
                let same : j ≡ i = omega arith in
                rw same (h.outside i (inl (omega arith)) ∙ given_here)
          ];
          outside = λ j o.
              h.outside j (elim o [ inl b ↦ inl (omega arith) | inr a ↦ inr a ])
              ∙ given_other j
                  (λ e. elim o [ inl b ↦ omega (arith, e, b) | inr a ↦ omega (arith, e, a, lt) ]);
          count = h.count;
        }

nothing_left :
    (n : ℕ) (m : Memory)
    → m.region_count ≡ n
    → HandedOut n n m (record { caps = []; descs = []; memory = m })
nothing_left n m e = record {
  descs = (let z : n - n ≡ 0 = omega arith in rw z refl);
  names = tt;
  inside = λ j lo hi. absurd (omega arith);
  outside = λ j o. refl;
  count = e;
}

safe-made : (p k : ℕ) → is_safe_cap_ptr p ≡ true → (c : Capability) × (new_untyped_cap p k ≡ some c)
unfolding cap_set_ptr
safe-made p k h =
    (record (new_cap cap_untyped) { size_bits = k % 2 ^ 6; ptr = p / 2 ^ 4 % 2 ^ 44 }, rw h refl)

-- What one round does, for each outcome of its tests.
module _ (left i : ℕ) (m : Memory) where
  round-skipped :
      (m.regions i).in_kernel_use ≡ true
      → init_untyped_from (suc left) i m ≡ init_untyped_from left (i + 1) m
  unfolding init_untyped_from
  round-skipped k = rw k refl

  module _ (c : Capability) (free : (m.regions i).in_kernel_use ≡ false)
      (made : new_untyped_cap (m.regions i).addr ((m.regions i).size_bits + 12) ≡ some c) where
    round-last :
        leb (sub64 m.region_count 1) i ≡ true
        → init_untyped_from (suc left) i m
          ≡ some (
              add_untyped c
                (untyped_desc (m.regions i))
                (record { caps = []; descs = []; memory = give_to_user i m }))
    unfolding init_untyped_from Option.bind
    round-last l = rw (free, made, l) refl

    round-given :
        leb (sub64 m.region_count 1) i ≡ false
        → init_untyped_from (suc left) i m
          ≡ Option.map
              (add_untyped c (untyped_desc (m.regions i)))
              (init_untyped_from left (i + 1) (give_to_user i m))
    unfolding init_untyped_from Option.bind
    round-given l = rw (free, made, l) refl

given_same :
    (i j : ℕ) (m : Memory)
    → (((give_to_user i m).regions j).in_kernel_use ≡ (m.regions j).in_kernel_use)
      × (((give_to_user i m).regions j).addr ≡ (m.regions j).addr)
given_same i j m = elim (ℕ_discrete j i) [
  | yes e ↦ rw (e, (==_iff i i).1 refl) (refl, refl)
  | no ne ↦ (ground arith, ground arith)
]

-- What the loop relies on from some index on.
record Ready (n : ℕ) (m : Memory) : Type 0 where
  small : n ≤ max_regions
  count : m.region_count ≡ n
  last : (m.regions (n - 1)).in_kernel_use ≡ false
  safe : CapsSafe n m

given-Ready : (n i : ℕ) (m : Memory) → Ready n m → Ready n (give_to_user i m)
given-Ready n i m r = record {
  small = r.small;
  count = r.count;
  last = (given_same i (n - 1) m).0 ∙ r.last;
  safe = λ j lt k.
      ap is_safe_cap_ptr (given_same i j m).1 ∙ r.safe j lt (sym (given_same i j m).0 ∙ k);
}

-- i >= region_count - 1
not_last : (n i : ℕ) → n ≤ max_regions → i + 1 < n → leb (sub64 n 1) i ≡ false
not_last n i s lt = ground arith

is_last : (n i : ℕ) → n ≤ max_regions → i + 1 ≡ n → leb (sub64 n 1) i ≡ true
is_last n i s e = ground arith

init_untyped_from-HandedOut :
    (n left i : ℕ) (m : Memory)
    → i < n
    → n ≤ i + left
    → Ready n m
    → (u : Untypeds) × (init_untyped_from left i m ≡ some u) × HandedOut i n m u
init_untyped_from-HandedOut n zero i m lt le r = absurd (omega arith)
init_untyped_from-HandedOut n (suc left) i m lt le r =
    elim (Bool-cases (m.regions i).in_kernel_use) [
      | inl k ↦
          let more : i + 1 < n = elim (dec_lt (i + 1) n) [
            | yes h ↦ h
            | no h ↦
                let e : n - 1 ≡ i = omega arith in
                cc (k, subst (λ (x : ℕ). (m.regions x).in_kernel_use ≡ false) e r.last)
          ] in
          let (u, e, h) = init_untyped_from-HandedOut n left (i + 1) m more (omega arith) r in
          (u, round-skipped left i m k ∙ e, skipped-HandedOut n i m lt u k h)
      | inr free ↦
          let (c, made) =
            safe-made (m.regions i).addr ((m.regions i).size_bits + 12) (r.safe i lt free) in
          elim (dec_lt (i + 1) n) [
            | yes more ↦
                let (u, e, h) =
                  init_untyped_from-HandedOut n left (i + 1) (give_to_user i m) more (omega arith)
                    (given-Ready n i m r) in
                (
                  add_untyped c (untyped_desc (m.regions i)) u,
                  round-given left i m c free made (rw r.count (not_last n i r.small more))
                      ∙ ap (Option.map (add_untyped c (untyped_desc (m.regions i)))) e,
                  given-HandedOut n i m lt c free made u h,
                )
            | no end ↦
                let e : i + 1 ≡ n = omega arith in
                (
                  add_untyped c (untyped_desc (m.regions i))
                      (record { caps = []; descs = []; memory = give_to_user i m }),
                  round-last left i m c free made (rw r.count (is_last n i r.small e)),
                  given-HandedOut n i m lt c free made _ (
                      subst
                        (λ (x : ℕ).
                          HandedOut x n (give_to_user i m)
                            (record { caps = []; descs = []; memory = give_to_user i m }))
                        (sym e) (nothing_left n (give_to_user i m) r.count)),
                )
          ]
    ]

-- For 1 to 64 regions, the last one not in kernel use, with addresses that fit a capability, and
-- room for as many capabilities, create_init_untyped_caps returns. The descriptions are those of
-- the regions that the kernel does not use, in order, each capability is to the memory of its
-- description, and exactly these regions are marked as the user's, while nothing else changes.
pub create_init_untyped_caps-HandedOut :
    (n count : ℕ) (m : Memory)
    → m.region_count ≡ n
    → 0 < n
    → n ≤ count
    → n ≤ max_regions
    → (m.regions (n - 1)).in_kernel_use ≡ false
    → CapsSafe n m
    → (u : Untypeds) × (create_init_untyped_caps count m ≡ some u) × HandedOut 0 n m u
unfolding create_init_untyped_caps
create_init_untyped_caps-HandedOut n count m c p le small last safe =
    init_untyped_from-HandedOut n count 0 m p (omega arith)
      (record { small = small; count = c; last = last; safe = safe })
