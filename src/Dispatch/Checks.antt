-- ===== src/Dispatch/Checks.antt =====
-- The checks before a method.
use untitled_bare_metal.Base.{ℕ, ◌≤◌, ◌<◌, ◌≡◌, ◌≢◌, ◌⊎◌, inl, inr, ltb, arith, ◌==◌, Bool-cases}
use untitled_bare_metal.Sys.{truncated_message}
use untitled_bare_metal.Tag.{MessageTag, msg_illegal_operation, msg_err}
use untitled_bare_metal.Kernel.{Kernel, K, done}
use untitled_bare_metal.Kernel.Registers.{Ready, put_mr, msg_truncated_message-ok}
use untitled_bare_metal.Dispatch.{checked}

-- The reply that says how much was provided (in register 0) and how much is needed (in register 1).
abbrev pub Truncated : (provided needed : ℕ) → K MessageTag → Kernel → Type 0
Truncated provided needed m k =
    m k ≡ done (msg_err truncated_message 2) (put_mr 1 needed (put_mr 0 provided k))

-- The answers of the checks, each with its condition.
abbrev pub Vetted : (type words caps slot : ℕ) → MessageTag → K MessageTag → Kernel → Type 0
Vetted type words caps slot info body k =
    let c = (k.cte slot).cap in
    let m = checked type words caps slot info body in
    (c.type ≢ type × (m k ≡ done msg_illegal_operation k))
    ⊎ (c.type ≡ type × info.length < words × Truncated info.length words m k)
    ⊎ (c.type ≡ type
        × words ≤ info.length
        × info.extra_caps < caps
        × Truncated info.extra_caps caps m k)
    ⊎ (c.type ≡ type × words ≤ info.length × caps ≤ info.extra_caps × (m k ≡ body k))

-- The checks before a method, for a thread with a buffer, have four outcomes, each under its own
-- condition: illegal operation for another type of capability; truncated message for too few words,
-- with the provided length in register 0 and the needed one in register 1; the same for too few
-- capabilities; else the method runs and nothing has changed before.
pub checked-Vetted :
    (type words caps slot : ℕ) (info : MessageTag) (body : K MessageTag) (k : Kernel)
    → Ready k
    → Vetted type words caps slot info body k
unfolding checked
checked-Vetted type words caps slot info body k r =
    elim (Bool-cases ((k.cte slot).cap.type == type)) [
      | inr other ↦ inl (ground arith, rw other)
      | inl same ↦ elim (Bool-cases (ltb info.length words)) [
        | inl short ↦ inr (
            inl (
              ground arith,
              ground arith,
              rw (same, short, msg_truncated_message-ok k r info.length words),
            ))
        | inr long ↦ elim (Bool-cases (ltb info.extra_caps caps)) [
          | inl few ↦ inr (
              inr (
                inl (
                  ground arith,
                  ground arith,
                  ground arith,
                  rw (same, long, few, msg_truncated_message-ok k r info.extra_caps caps),
                )))
          | inr enough ↦
              inr (inr (inr (ground arith, ground arith, ground arith, rw (same, long, enough))))
        ]
      ]
    ]
