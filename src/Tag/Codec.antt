-- ===== src/Tag/Codec.antt =====
-- The tag and its word, and the two internal replies.
use untitled_bare_metal.Base.{ℕ, ◌^◌, ◌<◌, ◌≡◌, false, arith}
use untitled_bare_metal.Tag.{
  message_info_to_word, message_info_from_word, msg_err, msg_is_noreturn, msg_is_needswrite,
}

-- Every 64-bit word survives the way to its message tag and back.
word_of_tag-of-word : (w : ℕ) → w < 2 ^ 64 → message_info_to_word (message_info_from_word w) ≡ w
unfolding message_info_to_word message_info_from_word
word_of_tag-of-word w h = omega arith

msg_err-returns :
    (label registers : ℕ)
    → (msg_is_noreturn (msg_err label registers) ≡ false)
      × (msg_is_needswrite (msg_err label registers) ≡ false)
unfolding msg_is_noreturn msg_is_needswrite message_info_to_word
msg_err-returns label registers = (ground arith, ground arith)
