-- ===== src/Kernel/Registers.antt =====
-- The message registers of the current thread.
use untitled_bare_metal.Base.{
  ℕ, ◌≡◌, ◌≢◌, refl, Bool, true, false, arith, ◌==◌, update, if◌then◌else◌,
}
use untitled_bare_metal.Sys.{
  range_error, truncated_message, not_enough_memory, failed_lookup, invalid_argument,
}
use untitled_bare_metal.Tag.{msg_err}
use untitled_bare_metal.Kernel.{
  K, assert, ◌>>◌, Kernel, done, this_buffer, get_mr, set_mr, msg_range_error,
  msg_truncated_message, msg_not_enough_memory, msg_failed_lookup, msg_invalid_argument,
}

-- There is a current thread, and it has a buffer.
pub record Ready (k : Kernel) : Type 0 where
  pub thread : k.current_tcb ≢ 0
  pub buffer : (k.tcb k.current_tcb).ipc_buffer ≢ 0

-- A message register written.
abbrev pub put_mr : ℕ → ℕ → Kernel → Kernel
put_mr i v k =
    let b = (k.tcb k.current_tcb).ipc_buffer in
    record k {
      buffer = update k.buffer b (record (k.buffer b) { msg = update (k.buffer b).msg i v });
    }

module _ (k : Kernel) (r : Ready k) where
  this_buffer-ok : this_buffer k ≡ done (k.tcb k.current_tcb).ipc_buffer k
  unfolding this_buffer
  this_buffer-ok = rw (thread, buffer)
    where
      thread : (k.current_tcb == 0) ≡ false
      thread = ground (arith, r.thread)

      buffer : ((k.tcb k.current_tcb).ipc_buffer == 0) ≡ false
      buffer = ground (arith, r.buffer)

  pub get_mr-ok : (i : ℕ) → get_mr i k ≡ done ((k.buffer (k.tcb k.current_tcb).ipc_buffer).msg i) k
  unfolding get_mr
  get_mr-ok i = rw this_buffer-ok

  pub set_mr-ok : (i v : ℕ) → set_mr i v k ≡ done tt (put_mr i v k)
  unfolding set_mr
  set_mr-ok i v = rw this_buffer-ok

  pub Ready-put_mr : (i v : ℕ) → Ready (put_mr i v k)
  Ready-put_mr i v = record { thread = r.thread; buffer = r.buffer }

module _ (k : Kernel) (r : Ready k) where
  pub msg_range_error-ok :
      (min max : ℕ)
      → msg_range_error min max k ≡ done (msg_err range_error 2) (put_mr 1 max (put_mr 0 min k))
  unfolding msg_range_error
  msg_range_error-ok min max =
      rw (set_mr-ok k r 0 min, set_mr-ok (put_mr 0 min k) (Ready-put_mr k r 0 min) 1 max)

  pub msg_truncated_message-ok :
      (a b : ℕ)
      → msg_truncated_message a b k ≡ done (msg_err truncated_message 2) (put_mr 1 b (put_mr 0 a k))
  unfolding msg_truncated_message
  msg_truncated_message-ok a b =
      rw (set_mr-ok k r 0 a, set_mr-ok (put_mr 0 a k) (Ready-put_mr k r 0 a) 1 b)

  pub msg_not_enough_memory-ok :
      (n : ℕ) → msg_not_enough_memory n k ≡ done (msg_err not_enough_memory 1) (put_mr 0 n k)
  unfolding msg_not_enough_memory
  msg_not_enough_memory-ok n = rw (set_mr-ok k r 0 n)

  pub msg_invalid_argument-ok :
      (n : ℕ) → msg_invalid_argument n k ≡ done (msg_err invalid_argument 1) (put_mr 0 n k)
  unfolding msg_invalid_argument
  msg_invalid_argument-ok n = rw (set_mr-ok k r 0 n)

  pub msg_failed_lookup-ok :
      (n : ℕ) → msg_failed_lookup n k ≡ done (msg_err failed_lookup 1) (put_mr 0 n k)
  unfolding msg_failed_lookup
  msg_failed_lookup-ok n = rw (set_mr-ok k r 0 n)

-- An assertion that holds is a step that does nothing.
pub assert_then :
    {B : Type 0} (b : Bool) (m : K B) (k : Kernel) → b ≡ true → (assert b >> m) k ≡ m k
assert_then true m k e = refl
assert_then false m k e = cc

-- A step chosen by a test.
pub either_step :
    (b : Bool) (m n : K (Unit {0})) (k k1 k2 : Kernel)
    → m k ≡ done tt k1
    → n k ≡ done tt k2
    → (if b then m else n) k ≡ done tt (if b then k1 else k2)
either_step true m n k k1 k2 e e' = e
either_step false m n k k1 k2 e e' = e'
