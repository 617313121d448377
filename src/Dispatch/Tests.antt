-- ===== src/Dispatch/Tests.antt =====
-- Runs of include/kern/syscall_dispatch.c.
use untitled_bare_metal.Base.{arith}
use untitled_bare_metal.Sys.{cap_cnode}
use untitled_bare_metal.Tag.{MessageTag, msg_ok}
use untitled_bare_metal.Kernel.{pure}
use untitled_bare_metal.Dispatch.Checks.{Vetted, checked-Vetted}
use untitled_bare_metal.Samples.{sample_kernel}

abbrev short : MessageTag
short = record { length = 4; caps_unwrapped = 0; extra_caps = 1; label = 1 }

checked-Vetted_example : Vetted cap_cnode 5 1 32 short (pure (msg_ok 0)) sample_kernel
checked-Vetted_example =
    checked-Vetted cap_cnode 5 1 32 short (pure (msg_ok 0)) sample_kernel
      (record { thread = omega arith; buffer = omega arith })
