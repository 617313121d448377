-- ===== src/Tag.antt =====
-- include/sys/ipc.h and the replies of include/kern/syscall.h: the message tag is a union of a word
-- and a struct of bit fields. The model keeps the fields.
pub mod Codec
use untitled_bare_metal.Base.{ℕ, ◌+◌, ◌-◌, ◌*◌, ◌/◌, ◌%◌, ◌^◌, ◌<◌, Bool, ◌==◌}
use untitled_bare_metal.Sys.{
  no_error, delete_first, revoke_first, illegal_operation, invalid_root, range_error,
  truncated_message, invalid_argument, not_enough_memory, failed_lookup,
}

pub record MessageTag : Type 0 where
  pub length : ℕ  -- 9 bits
  pub caps_unwrapped : ℕ  -- 3 bits
  pub extra_caps : ℕ  -- 2 bits
  pub label : ℕ  -- 50 bits

unfoldable pub message_info_to_word : MessageTag → ℕ
message_info_to_word t =
    t.length + 2 ^ 9 * t.caps_unwrapped + 2 ^ 12 * t.extra_caps + 2 ^ 14 * t.label

unfoldable pub message_info_from_word : ℕ → MessageTag
message_info_from_word w = record {
  length = w % 2 ^ 9;
  caps_unwrapped = w / 2 ^ 9 % 2 ^ 3;
  extra_caps = w / 2 ^ 12 % 2 ^ 2;
  label = w / 2 ^ 14 % 2 ^ 50;
}

-- A value that does not fit its field loses its high bits.
abbrev pub new_message_tag : (label caps_unwrapped extra_caps length : ℕ) → MessageTag
new_message_tag label caps_unwrapped extra_caps length = record {
  length = length % 2 ^ 9;
  caps_unwrapped = caps_unwrapped % 2 ^ 3;
  extra_caps = extra_caps % 2 ^ 2;
  label = label % 2 ^ 50;
}

abbrev pub msg_ok : ℕ → MessageTag
msg_ok registers = new_message_tag no_error 0 0 registers

-- The debug print that depends on the label is left out.
abbrev pub msg_err : ℕ → ℕ → MessageTag
msg_err label registers = new_message_tag label 0 0 registers

abbrev pub msg_delete_first : MessageTag
msg_delete_first = msg_err delete_first 0

abbrev pub msg_revoke_first : MessageTag
msg_revoke_first = msg_err revoke_first 0

abbrev pub msg_invalid_root : MessageTag
msg_invalid_root = msg_err invalid_root 0

abbrev pub msg_illegal_operation : MessageTag
msg_illegal_operation = msg_err illegal_operation 0

-- ~0UL
abbrev pub msg_noreturn : MessageTag
msg_noreturn = message_info_from_word (2 ^ 64 - 1)

unfoldable pub msg_is_noreturn : MessageTag → Bool
unfolding message_info_to_word
msg_is_noreturn t = message_info_to_word t == 2 ^ 64 - 1

-- ~1UL
abbrev pub msg_needswrite : MessageTag
msg_needswrite = message_info_from_word (2 ^ 64 - 2)

unfoldable pub msg_is_needswrite : MessageTag → Bool
unfolding message_info_to_word
msg_is_needswrite t = message_info_to_word t == 2 ^ 64 - 2
