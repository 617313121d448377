-- ===== src/Endpoints/Transfer.antt =====
-- What `transfer_message` moves from one thread to another, without a capability.
use untitled_bare_metal.Base.{
  inl, inr, Bool-cases, ℕ, ◌≤◌, ◌<◌, ◌≡◌, ◌≢◌, true, false, arith, ◌==◌, if◌then◌else◌, update,
}
use untitled_bare_metal.Tag.{MessageTag, message_info_to_word}
use untitled_bare_metal.Kernel.{IpcBuffer, Kernel, done, when, set_tcb}
use untitled_bare_metal.Threads.{set_ipc_result}
use untitled_bare_metal.Endpoints.{copy_words, message_max_length, transfer_cap, transfer_message}

-- The reply in the registers of a thread: those of the live system call, or the saved ones.
abbrev pub answered : ℕ → MessageTag → Kernel → Kernel
answered t tag k =
    let w = message_info_to_word tag in
    let f = (k.tcb t).current_user_frame in
    record k {
      frame =
          if t == k.current_tcb then update k.frame f (record (k.frame f) { rax = w }) else k.frame;
      tcb =
          if t == k.current_tcb
          then k.tcb
          else update k.tcb t
              (record (k.tcb t) { saved_state = record (k.tcb t).saved_state { rax = w } });
    }

-- The reply register of a thread.
abbrev pub result_of : ℕ → Kernel → ℕ
result_of t k =
    if t == k.current_tcb
    then (k.frame (k.tcb t).current_user_frame).rax
    else (k.tcb t).saved_state.rax

-- A reply can be written: a current thread has a live frame.
abbrev pub CanAnswer : ℕ → Kernel → Type 0
CanAnswer t k = (t ≢ 0) × (t ≡ k.current_tcb → (k.tcb t).current_user_frame ≢ 0)

pub set_ipc_result-ok :
    (t : ℕ) (tag : MessageTag) (k : Kernel)
    → CanAnswer t k
    → set_ipc_result t tag k ≡ done tt (answered t tag k)
unfolding set_ipc_result
set_ipc_result-ok t tag k (nz, live) = elim (Bool-cases (t == k.current_tcb)) [
  | inl same ↦ rw (thread, same, has_frame same)
  | inr other ↦ rw (thread, other)
]
  where
    thread : (t == 0) ≡ false
    thread = ground arith

    has_frame : (t == k.current_tcb) ≡ true → ((k.tcb t).current_user_frame == 0) ≡ false
    has_frame same = ground (arith, live)

-- The kernel with the message in the buffer of the receiver: first the words, then the badge.
abbrev with_buffer : ℕ → IpcBuffer → Kernel → Kernel
with_buffer b m k = record k { buffer = update k.buffer b m }

abbrev pub copied_buffer : (sender receiver badge : ℕ) → MessageTag → Kernel → Kernel
copied_buffer sender receiver badge tag k =
    let from = (k.tcb sender).ipc_buffer in
    let to = (k.tcb receiver).ipc_buffer in
    let m = with_buffer to (copy_words tag.length (k.buffer from) (k.buffer to)) k in
    with_buffer to (record (m.buffer to) { sender_badge = badge }) m

abbrev pub reply_noted : (sender receiver : ℕ) → Kernel → Kernel
reply_noted sender receiver k = record k {
  tcb =
      if (k.tcb sender).expects_reply
      then update k.tcb receiver (record (k.tcb receiver) { reply_to = sender })
      else k.tcb;
}

abbrev pub transferred : (sender receiver badge : ℕ) → MessageTag → Kernel → Kernel
transferred sender receiver badge tag k =
    answered receiver tag (reply_noted sender receiver (copied_buffer sender receiver badge tag k))

-- What has arrived: the words of the message, the badge, the tag, and whom to reply to.
pub record Transferred (sender receiver badge : ℕ) (tag : MessageTag) (k k' : Kernel) : Type 0 where
  pub words :
      (i : ℕ)
      → i < tag.length
      → i < message_max_length
      → (k'.buffer (k.tcb receiver).ipc_buffer).msg i ≡ (k.buffer (k.tcb sender).ipc_buffer).msg i
  pub rest :
      (i : ℕ)
      → tag.length ≤ i
      → (k'.buffer (k.tcb receiver).ipc_buffer).msg i ≡ (k.buffer (k.tcb receiver).ipc_buffer).msg i
  pub badge_ : (k'.buffer (k.tcb receiver).ipc_buffer).sender_badge ≡ badge
  pub tag_ : result_of receiver k' ≡ message_info_to_word tag
  pub reply : (k.tcb sender).expects_reply ≡ true → (k'.tcb receiver).reply_to ≡ sender
  pub others : (b : ℕ) → b ≢ (k.tcb receiver).ipc_buffer → k'.buffer b ≡ k.buffer b

transfer_cap-none :
    (sender receiver : ℕ) (tag : MessageTag) (k : Kernel)
    → tag.extra_caps ≡ 0
    → transfer_cap sender receiver tag k ≡ done tag k
unfolding transfer_cap
transfer_cap-none sender receiver tag k none_ = rw no_caps
  where
    no_caps : (tag.extra_caps == 0) ≡ true
    no_caps = ground arith

noted :
    (sender receiver badge : ℕ) (tag : MessageTag) (k : Kernel)
    → let m = copied_buffer sender receiver badge tag k in
      when (k.tcb sender).expects_reply (set_tcb receiver (λ r. record r { reply_to = sender })) m
      ≡ done tt (reply_noted sender receiver m)
noted sender receiver badge tag k = elim (Bool-cases (k.tcb sender).expects_reply) [
  | inl yes_ ↦ rw yes_
  | inr no_ ↦ rw no_
]

pub transfer_message-ok :
    (sender receiver badge : ℕ) (tag : MessageTag) (k : Kernel)
    → tag.extra_caps ≡ 0
    → CanAnswer receiver k
    → transfer_message sender receiver badge tag k
      ≡ done tag (transferred sender receiver badge tag k)
unfolding transfer_message
transfer_message-ok sender receiver badge tag k none_ can =
    rw
      (
        transfer_cap-none sender receiver tag (copied_buffer sender receiver badge tag k) none_,
        noted sender receiver badge tag k,
      )
      (rw (
        set_ipc_result-ok receiver tag
          (reply_noted sender receiver (copied_buffer sender receiver badge tag k)) still))
  where
    still :
        CanAnswer receiver (reply_noted sender receiver (copied_buffer sender receiver badge tag k))
    still = (can.0, λ e. ground (arith, can.1))

pub transferred-Transferred :
    (sender receiver badge : ℕ) (tag : MessageTag) (k : Kernel)
    → (k.tcb sender).ipc_buffer ≢ (k.tcb receiver).ipc_buffer
    → Transferred sender receiver badge tag k (transferred sender receiver badge tag k)
unfolding copy_words
transferred-Transferred sender receiver badge tag k apart = record {
  words = λ i lt top. ground arith;
  rest = λ i le. ground arith;
  badge_ = ground arith;
  tag_ = ground arith;
  reply = λ e. ground arith;
  others = λ b ne. ground arith;
}

pub transfer_message-Transferred :
    (sender receiver badge : ℕ) (tag : MessageTag) (k : Kernel)
    → tag.extra_caps ≡ 0
    → CanAnswer receiver k
    → (k.tcb sender).ipc_buffer ≢ (k.tcb receiver).ipc_buffer
    → (k' : Kernel) × (transfer_message sender receiver badge tag k ≡ done tag k')
      × Transferred sender receiver badge tag k k'
transfer_message-Transferred sender receiver badge tag k none_ can apart = (
  transferred sender receiver badge tag k,
  transfer_message-ok sender receiver badge tag k none_ can,
  transferred-Transferred sender receiver badge tag k apart,
)

-- A message of 511 words without a capability, to a thread whose reply can be written, is
-- transferred, and the receive slot of the receiver's buffer is then that of the sender's buffer.
transfer_message-overflow :
    (sender receiver badge : ℕ) (tag : MessageTag) (k : Kernel)
    → tag.length ≡ 511
    → tag.extra_caps ≡ 0
    → CanAnswer receiver k
    → (k' : Kernel) × (transfer_message sender receiver badge tag k ≡ done tag k')
      × (let to = k'.buffer (k.tcb receiver).ipc_buffer in
          let from = k.buffer (k.tcb sender).ipc_buffer in
          (to.receive_cnode ≡ from.receive_cnode)
          × (to.receive_index ≡ from.receive_index)
          × (to.receive_depth ≡ from.receive_depth))
unfolding copy_words
transfer_message-overflow sender receiver badge tag k long none_ can = (
  transferred sender receiver badge tag k,
  transfer_message-ok sender receiver badge tag k none_ can,
  (ground arith, ground arith, ground arith),
)
