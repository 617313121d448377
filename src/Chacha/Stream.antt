-- ===== src/Chacha/Stream.antt =====
-- The stream that the buffer is combined with.
use Prim.Native.Nat.{bit_xor}
use untitled_bare_metal.Base.{
  ℕ, zero, suc, ◌+◌, ◌-◌, ◌*◌, ◌/◌, ◌%◌, ◌^◌, ◌≤◌, ◌<◌, ◌≡◌, ◌≢◌, refl, sym, ap, ◌∙◌, subst, ◌⊎◌,
  true, ==_iff, if◌then◌else◌, ltb, lt→ltb, le→ltb, dec_lt, update, some, arith, inl, inr,
}
use untitled_bare_metal.Strings.{Bytes}
use untitled_bare_metal.Chacha.{
  Words, Chacha, do_chacha_block, initial_state, state_byte, xor_block, next_block, xor_from,
  xor_chacha,
}
use untitled_bare_metal.Chacha.Xor.{bit_xor_twice}

-- The bytes of the buffer that a block leaves.
abbrev Outside : (left at len a : ℕ) → Type 0
Outside left at len a = (a < at) ⊎ ((at + left ≤ a) ⊎ (len ≤ a))

Outside-suc : (left at len a : ℕ) → Outside (suc left) at len a → Outside left (at + 1) len a
Outside-suc left at len a (inl lt) = inl (omega arith)
Outside-suc left at len a (inr (inl le)) = inr (inl (omega arith))
Outside-suc left at len a (inr (inr le)) = inr (inr le)

Outside-ne : (left at len a : ℕ) → Outside (suc left) at len a → at < len → a ≢ at
Outside-ne left at len a (inl lt) h = omega arith
Outside-ne left at len a (inr (inl le)) h = omega arith
Outside-ne left at len a (inr (inr le)) h = omega arith

update-ne : (buf : Bytes) (at v a : ℕ) → a ≢ at → update buf at v a ≡ buf a
update-ne buf at v a ne = ground arith

update_self : (buf : Bytes) (at v : ℕ) → update buf at v at ≡ v
update_self buf at v = rw ((==_iff at at).1 refl) refl

module _ (count len a : ℕ) (state : Words) where
  xor_block_kept :
      (left i : ℕ) (buf : Bytes)
      → Outside left (count + i) len a
      → (xor_block left i count len state buf).0 a ≡ buf a
  unfolding xor_block
  xor_block_kept zero i buf h = refl
  xor_block_kept (suc left) i buf h = elim (dec_lt (count + i) len) [
    | no over ↦ rw (le→ltb (count + i) len (omega arith)) refl
    | yes more ↦
        let next : count + i + 1 ≡ count + (i + 1) = omega arith in
        rw (lt→ltb (count + i) len more) (
          xor_block_kept left (i + 1) _
            (subst (λ (n : ℕ). Outside left n len a) next (Outside-suc left (count + i) len a h))
          ∙ update-ne buf (count + i) _ a (Outside-ne left (count + i) len a h more))
  ]

  xor_block_changed :
      (left i : ℕ) (buf : Bytes)
      → count + i ≤ a
      → a < count + i + left
      → a < len
      → (xor_block left i count len state buf).0 a ≡ bit_xor (buf a) (state_byte state (a - count))
  unfolding xor_block
  xor_block_changed zero i buf lo hi lt = absurd (omega arith)
  xor_block_changed (suc left) i buf lo hi lt = elim (dec_lt (count + i) a) [
    | yes above ↦ rw (lt→ltb (count + i) len (omega arith)) (
        xor_block_changed left (i + 1) _ (omega arith) (omega arith) lt
        ∙ ap (λ (b : ℕ). bit_xor b (state_byte state (a - count)))
            (update-ne buf (count + i) _ a (omega arith)))
    | no here ↦
        let same : a ≡ count + i = omega arith in
        let byte : count + i - count ≡ i = omega arith in
        rw (lt→ltb (count + i) len (omega arith)) (
          xor_block_kept left (i + 1) _ (inl (omega arith))
          ∙ ap (update buf (count + i) (bit_xor (buf (count + i)) (state_byte state i))) same
          ∙ update_self buf (count + i) _
          ∙ rw (same, byte) refl)
  ]

xor_block-end :
    (count len : ℕ) (state : Words) (left i : ℕ) (buf : Bytes)
    → count + i ≤ len
    → count + (xor_block left i count len state buf).1
      ≡ (if ltb (count + i + left) len then count + i + left else len)
unfolding xor_block
xor_block-end count len state zero i buf h = ground arith
xor_block-end count len state (suc left) i buf h = elim (dec_lt (count + i) len) [
  | no over ↦ rw (le→ltb (count + i) len (omega arith)) (ground arith)
  | yes more ↦
      let next : count + (i + 1) + left ≡ count + i + suc left = omega arith in
      rw (lt→ltb (count + i) len more, ← next)
        (xor_block-end count len state left (i + 1) _ (omega arith))
]

abbrev pub at_block : ℕ → Chacha → Chacha
at_block m cc = record cc { counter = (cc.counter + m) % 2 ^ 32 }

abbrev pub block_words : (rounds : ℕ) → Chacha → Words
block_words rounds cc = do_chacha_block rounds true (initial_state cc)

-- Byte `j` of the stream: the blocks of successive counters behind one another.
pub stream : (rounds : ℕ) → Chacha → ℕ → ℕ
stream rounds cc j = state_byte (block_words rounds (at_block (j / 64) cc)) (j % 64)

-- How many blocks are used, one at least.
abbrev pub blocks : (count len : ℕ) → ℕ
blocks count len = if ltb count len then (len - count + 63) / 64 else 1

pub record Encrypted (rounds count len : ℕ) (cc : Chacha) (buf buf' : Bytes) : Type 0 where
  pub changed :
      (a : ℕ) → count ≤ a → a < len → buf' a ≡ bit_xor (buf a) (stream rounds cc (a - count))
  pub left : (a : ℕ) → (a < count) ⊎ (len ≤ a) → buf' a ≡ buf a

at_block-zero : (cc : Chacha) → cc.counter < 2 ^ 32 → at_block 0 cc ≡ cc
at_block-zero cc h =
    let same : (cc.counter + 0) % 2 ^ 32 ≡ cc.counter = omega arith in
    ap (λ (c : ℕ). record cc { counter = c }) same

at_block-next : (m : ℕ) (cc : Chacha) → at_block m (next_block cc) ≡ at_block (suc m) cc
at_block-next m cc =
    let same : ((cc.counter + 1) % 2 ^ 32 + m) % 2 ^ 32 ≡ (cc.counter + suc m) % 2 ^ 32 =
      omega arith in
    ap (λ (c : ℕ). record cc { counter = c }) same

stream-first :
    (rounds : ℕ) (cc : Chacha) (j : ℕ)
    → cc.counter < 2 ^ 32
    → j < 64
    → stream rounds cc j ≡ state_byte (block_words rounds cc) j
unfolding stream
stream-first rounds cc j c h =
    let block : j / 64 ≡ 0 = omega arith in
    let byte : j % 64 ≡ j = omega arith in
    rw (block, byte) (ap (λ (d : Chacha). state_byte (block_words rounds d) j) (at_block-zero cc c))

stream-next :
    (rounds : ℕ) (cc : Chacha) (j : ℕ)
    → 64 ≤ j
    → stream rounds (next_block cc) (j - 64) ≡ stream rounds cc j
unfolding stream
stream-next rounds cc j h =
    let block : j / 64 ≡ suc ((j - 64) / 64) = omega arith in
    let byte : j % 64 ≡ (j - 64) % 64 = omega arith in
    rw (block, byte)
      (ap (λ (d : Chacha). state_byte (block_words rounds d) ((j - 64) % 64))
        (at_block-next ((j - 64) / 64) cc))

-- One round of the loop.
module _ (rounds count len : ℕ) (cc : Chacha) (buf : Bytes) (c : cc.counter < 2 ^ 32)
    (h : count ≤ len) where
  abbrev block_buf : Bytes
  block_buf = (xor_block 64 0 count len (block_words rounds cc) buf).0

  abbrev state : Words
  state = block_words rounds cc

  abbrev block_end : ℕ
  block_end = count + (xor_block 64 0 count len state buf).1

  in_block :
      (a : ℕ)
      → count ≤ a
      → a < count + 64
      → a < len
      → block_buf a ≡ bit_xor (buf a) (stream rounds cc (a - count))
  in_block a lo hi lt =
      xor_block_changed count len a (block_words rounds cc) 64 0 buf (omega arith) (omega arith) lt
      ∙ ap (bit_xor (buf a)) (sym (stream-first rounds cc (a - count) c (omega arith)))

  off_block : (a : ℕ) → (a < count) ⊎ (len ≤ a) → block_buf a ≡ buf a
  off_block a (inl lt) = xor_block_kept count len a state 64 0 buf (inl (omega arith))
  off_block a (inr le) = xor_block_kept count len a state 64 0 buf (inr (inr le))

  off_end : (a : ℕ) → count + 64 ≤ a → block_buf a ≡ buf a
  off_end a le = xor_block_kept count len a state 64 0 buf (inr (inl (omega arith)))

  last_round :
      (fuel : ℕ)
      → len ≤ count + 64
      → xor_from (suc fuel) count len rounds cc buf
        ≡ some (at_block (blocks count len) cc, block_buf)
  unfolding xor_from
  last_round fuel le =
      let end : block_end ≡ len =
        ground (arith, xor_block-end count len state 64 0 buf (omega arith)) in
      let one : blocks count len ≡ 1 = ground arith in
      rw (end, one) (rw (le→ltb len len (omega arith)) refl)

  other_round :
      (fuel : ℕ)
      → count + 64 < len
      → xor_from (suc fuel) count len rounds cc buf
        ≡ xor_from fuel (count + 64) len rounds (next_block cc) block_buf
  unfolding xor_from
  other_round fuel lt =
      let end : block_end ≡ count + 64 =
        ground (arith, xor_block-end count len state 64 0 buf (omega arith)) in
      rw end (rw (lt→ltb (count + 64) len lt) refl)

  further :
      (buf' : Bytes)
      → count + 64 < len
      → Encrypted rounds (count + 64) len (next_block cc) block_buf buf'
      → Encrypted rounds count len cc buf buf'
  further buf' lt enc = record {
    changed = λ a lo hi. elim (dec_lt a (count + 64)) [
      | yes here ↦ enc.left a (inl here) ∙ in_block a lo here hi
      | no there ↦
          let byte : a - (count + 64) ≡ a - count - 64 = omega arith in
          enc.changed a (omega arith) hi
          ∙ ap (λ (b : ℕ). bit_xor b (stream rounds (next_block cc) (a - (count + 64))))
              (off_end a (omega arith))
          ∙ ap (λ (j : ℕ). bit_xor (buf a) (stream rounds (next_block cc) j)) byte
          ∙ ap (bit_xor (buf a)) (stream-next rounds cc (a - count) (omega arith))
    ];
    left = λ a o. enc.left a (sooner a o) ∙ off_block a o;
  }
    where
      sooner : (a : ℕ) → (a < count) ⊎ (len ≤ a) → (a < count + 64) ⊎ (len ≤ a)
      sooner a (inl lt') = inl (omega arith)
      sooner a (inr le) = inr le

pub xor_from-Encrypted :
    (fuel rounds count len : ℕ) (cc : Chacha) (buf : Bytes)
    → cc.counter < 2 ^ 32
    → count ≤ len
    → len < count + 64 * fuel
    → (buf' : Bytes) × (xor_from fuel count len rounds cc buf
        ≡ some (at_block (blocks count len) cc, buf'))
      × Encrypted rounds count len cc buf buf'
xor_from-Encrypted zero rounds count len cc buf c h f = absurd (omega arith)
xor_from-Encrypted (suc fuel) rounds count len cc buf c h f = elim (dec_lt (count + 64) len) [
  | no last ↦ (
    block_buf rounds count len cc buf c h,
    last_round rounds count len cc buf c h fuel (omega arith),
    record {
      changed = λ a lo lt. in_block rounds count len cc buf c h a lo (omega arith) lt;
      left = λ a. off_block rounds count len cc buf c h a;
    },
  )
  | yes more ↦
      let (buf', e, enc) =
        xor_from-Encrypted fuel rounds (count + 64) len (next_block cc)
          (block_buf rounds count len cc buf c h) (omega arith) (omega arith) (omega arith) in
      let used : blocks count len ≡ suc (blocks (count + 64) len) = ground arith in
      (
        buf',
        other_round rounds count len cc buf c h fuel more
            ∙ e
            ∙ ap (λ (d : Chacha). some (d, buf')) (at_block-next (blocks (count + 64) len) cc)
            ∙ ap (λ (m : ℕ). some (at_block m cc, buf')) (sym used),
        further rounds count len cc buf c h buf' more enc,
      )
]

-- For a 32-bit counter and fuel for more bytes than len, xor_chacha returns: the first len bytes
-- are combined with the blocks of successive counters, the others stay, and the counter advances by
-- the blocks used. Applied again from the same counter it gives the original bytes back.
pub xor_chacha-twice :
    (fuel rounds len : ℕ) (cc : Chacha) (buf : Bytes)
    → cc.counter < 2 ^ 32
    → len < 64 * fuel
    → (buf' buf'' : Bytes) × (xor_chacha fuel len rounds cc buf
        ≡ some (at_block (blocks 0 len) cc, buf'))
      × Encrypted rounds 0 len cc buf buf'
      × (xor_chacha fuel len rounds cc buf' ≡ some (at_block (blocks 0 len) cc, buf''))
      × ((a : ℕ) → buf'' a ≡ buf a)
xor_chacha-twice fuel rounds len cc buf c f =
    let (buf', e, enc) =
      xor_from-Encrypted fuel rounds 0 len cc buf c (omega arith) (omega arith) in
    let (buf'', e', enc') =
      xor_from-Encrypted fuel rounds 0 len cc buf' c (omega arith) (omega arith) in
    (
      buf',
      buf'',
      e,
      enc,
      e',
      λ a. elim (dec_lt a len) [
        | yes inside ↦
            enc'.changed a (omega arith) inside
            ∙ ap (λ (b : ℕ). bit_xor b (stream rounds cc (a - 0)))
                (enc.changed a (omega arith) inside)
            ∙ bit_xor_twice (buf a) (stream rounds cc (a - 0))
        | no outside ↦ enc'.left a (inr (omega arith)) ∙ enc.left a (inr (omega arith))
      ],
    )
