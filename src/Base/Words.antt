-- ===== src/Base/Words.antt =====
-- `word_t`, the 64-bit machine word: its wrap-around, and `BIT`, `ALIGN_DOWN` and `ALIGN_UP` of
-- include/sys/cdefs.h.
use Prim.Native.Nat.{ℕ, ◌+◌, ◌-◌, ◌%◌, ◌^◌}
use mathlib.Core.Bool.{Bool, true, false}

abbrev pub word_mod : ℕ
word_mod = 2 ^ 64

abbrev pub u64 : ℕ → ℕ
u64 n = n % 2 ^ 64

-- a - b on 64-bit words
abbrev pub sub64 : ℕ → ℕ → ℕ
sub64 a b = (a + 2 ^ 64 - b) % 2 ^ 64

-- the value of a one-bit field
abbrev pub bit_value : Bool → ℕ
bit_value true = 1
bit_value false = 0
