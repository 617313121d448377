-- ===== src/Chacha/Tests.antt =====
-- Runs of lib/chacha.c.
use untitled_bare_metal.Base.{ℕ, ◌≡◌, refl, ◌==◌, if◌then◌else◌, some, arith}
use untitled_bare_metal.Strings.{Bytes}
use untitled_bare_metal.Chacha.{Words, Chacha, xor_chacha, quarter_round}
use untitled_bare_metal.Chacha.Stream.{at_block, blocks, Encrypted, xor_chacha-twice}

-- The test vector of RFC 8439, section 2.1.1.
abbrev vector : Words
vector i =
    if i == 0
    then 0x11111111
    else if i == 1
    then 0x01020304
    else if i == 2
    then 0x9b8d6f43
    else 0x01234567

quarter_round_run : quarter_round 0 1 2 3 vector 0 ≡ 0xea2a92f4
unfolding quarter_round
quarter_round_run = refl

abbrev sample_chacha : Chacha
sample_chacha = record { counter = 1; key = λ i. i; nonce = λ i. 0 }

abbrev sample_buffer : Bytes
sample_buffer a = 7

xor_chacha-twice_example :
    (buf' buf'' : Bytes) × (xor_chacha 3 100 20 sample_chacha sample_buffer
      ≡ some (at_block (blocks 0 100) sample_chacha, buf'))
    × Encrypted 20 0 100 sample_chacha sample_buffer buf'
    × (xor_chacha 3 100 20 sample_chacha buf' ≡ some (at_block (blocks 0 100) sample_chacha, buf''))
    × ((a : ℕ) → buf'' a ≡ sample_buffer a)
xor_chacha-twice_example =
    xor_chacha-twice 3 20 100 sample_chacha sample_buffer (omega arith) (omega arith)
