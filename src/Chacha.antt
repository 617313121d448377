-- ===== src/Chacha.antt =====
-- lib/chacha.c and lib/rng.c: the stream cipher, and random numbers from it. The state is a store of
-- 32-bit words by index; a byte of it is the byte of a word, the lowest first.
pub mod Xor
pub mod Stream
mod Tests
use Prim.Native.Nat.{bit_or, bit_xor}
use untitled_bare_metal.Base.{
  ℕ, zero, suc, ◌+◌, ◌-◌, ◌*◌, ◌/◌, ◌%◌, ◌^◌, Bool, true, false, ◌==◌, if◌then◌else◌, ltb, update,
  Option, none, some,
}
use untitled_bare_metal.Strings.{Bytes}

abbrev pub Words : Type 0
Words = ℕ → ℕ

-- struct chacha
pub record Chacha : Type 0 where
  pub counter : ℕ
  pub key : Bytes
  pub nonce : Bytes

unfoldable pub rol : (x n : ℕ) → ℕ
rol x n = bit_or (x * 2 ^ n % 2 ^ 32) (x / 2 ^ (32 - n))

-- state[a] += state[b]
abbrev pub add_word : (a b : ℕ) → Words → Words
add_word a b state = update state a ((state a + state b) % 2 ^ 32)

-- state[d] = rol (state[d] ^ state[a], n)
abbrev pub rotate_word : (d a n : ℕ) → Words → Words
rotate_word d a n state = update state d (rol (bit_xor (state d) (state a)) n)

-- QUARTER_ROUND (a, b, c, d)
unfoldable pub quarter_round : (a b c d : ℕ) → Words → Words
unfolding rol
quarter_round a b c d s0 =
    let s1 = add_word a b s0 in
    let s2 = rotate_word d a 16 s1 in
    let s3 = add_word c d s2 in
    let s4 = rotate_word b c 12 s3 in
    let s5 = add_word a b s4 in
    let s6 = rotate_word d a 8 s5 in let s7 = add_word c d s6 in rotate_word b c 7 s7

unfoldable pub double_round : Words → Words
unfolding quarter_round
double_round s0 =
    let s1 = quarter_round 0 4 8 12 s0 in
    let s2 = quarter_round 1 5 9 13 s1 in
    let s3 = quarter_round 2 6 10 14 s2 in
    let s4 = quarter_round 3 7 11 15 s3 in
    let s5 = quarter_round 0 5 10 15 s4 in
    let s6 = quarter_round 1 6 11 12 s5 in
    let s7 = quarter_round 2 7 8 13 s6 in quarter_round 3 4 9 14 s7

unfoldable pub double_rounds : (left : ℕ) → Words → Words
unfolding double_round
double_rounds zero state = state
double_rounds (suc left) state = double_rounds left (double_round state)

unfoldable pub do_chacha_block : (rounds : ℕ) → (re_add : Bool) → Words → Words
do_chacha_block rounds re_add state =
    let mixed = double_rounds (rounds / 2) state in
    if re_add then (λ i. (mixed i + state i) % 2 ^ 32) else mixed

-- The word at byte `i`, as memcpy gives it.
abbrev pub word_at : (i : ℕ) → Bytes → ℕ
word_at i bytes = bytes i + 2 ^ 8 * bytes (i + 1) + 2 ^ 16 * bytes (i + 2) + 2 ^ 24 * bytes (i + 3)

-- The constants, the key, the counter and the nonce.
unfoldable pub initial_state : Chacha → Words
initial_state cc i =
    if i == 0
    then 0x61707865
    else if i == 1
    then 0x3320646e
    else if i == 2
    then 0x79622d32
    else if i == 3
    then 0x6b206574
    else if ltb i 12
    then word_at (4 * (i - 4)) cc.key
    else if i == 12
    then cc.counter
    else word_at (4 * (i - 13)) cc.nonce

-- ((unsigned char *) state)[i]
abbrev pub state_byte : Words → ℕ → ℕ
state_byte state i = state (i / 4) / 2 ^ (8 * (i % 4)) % 2 ^ 8

-- for (i = 0; i < 64 && count + i < len; i++): the buffer, and `i` at the end.
unfoldable pub xor_block : (left i count len : ℕ) → Words → Bytes → Bytes × ℕ
xor_block zero i count len state buf = (buf, i)
xor_block (suc left) i count len state buf =
    let rest =
      xor_block left (i + 1) count len state
        (update buf (count + i) (bit_xor (buf (count + i)) (state_byte state i))) in
    if ltb (count + i) len then rest else (buf, i)

abbrev pub next_block : Chacha → Chacha
next_block cc = record cc { counter = (cc.counter + 1) % 2 ^ 32 }

-- do ... while (count < len)
unfoldable pub xor_from : (fuel count len rounds : ℕ) → Chacha → Bytes → Option (Chacha × Bytes)
xor_from zero count len rounds cc buf = none
xor_from (suc fuel) count len rounds cc buf =
    let state = do_chacha_block rounds true (initial_state cc) in
    let (buf', i) = xor_block 64 0 count len state buf in
    let rest = xor_from fuel (count + i) len rounds (next_block cc) buf' in
    if ltb (count + i) len then rest else some (next_block cc, buf')

abbrev pub xor_chacha : (fuel len rounds : ℕ) → Chacha → Bytes → Option (Chacha × Bytes)
xor_chacha fuel len rounds = xor_from fuel 0 len rounds

-- init_random: the low bytes of the key are the seed's.
unfoldable pub init_random : (seed : ℕ) → Chacha → Chacha
init_random seed cc = record cc {
  counter = 1;
  key = λ i. if ltb i 8 then seed / 2 ^ (8 * i) % 2 ^ 8 else cc.key i;
}

-- The eight bytes that lie where the result stands go into it; C leaves them open.
unfoldable pub random_u64 : (fuel : ℕ) → (stack : Bytes) → Chacha → Option (Chacha × ℕ)
unfolding xor_from
random_u64 fuel stack cc = elim (xor_chacha fuel 8 20 cc stack) [
  | none ↦ none
  | some (cc', r) ↦ some (cc', word_at 0 r + 2 ^ 32 * word_at 4 r)
]
