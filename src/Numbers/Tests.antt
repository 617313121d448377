-- ===== src/Numbers/Tests.antt =====
-- Runs of lib/num.c.
use untitled_bare_metal.Base.{◌-◌, ◌^◌, ◌≡◌, refl, ◌==◌, if◌then◌else◌}
use untitled_bare_metal.Strings.{Bytes}
use untitled_bare_metal.Numbers.{
  reading, strtol, skip_space, base_prefix, read_sign, read_digits, digit_value,
}

-- " -0x1F" at 8
abbrev memory : Bytes
memory a =
    if a == 8
    then b' '
    else if a == 9
    then b'-'
    else if a == 10
    then b'0'
    else if a == 11
    then b'x'
    else if a == 12
    then b'1'
    else if a == 13
    then b'F'
    else 0

hex_run : strtol 4 8 0 memory ≡ reading (2 ^ 64 - 31) 14
unfolding strtol skip_space base_prefix read_sign read_digits digit_value
hex_run = refl
