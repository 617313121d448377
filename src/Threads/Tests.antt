-- ===== src/Threads/Tests.antt =====
-- Runs of kern/obj/tcb.c.
use untitled_bare_metal.Base.{◌≡◌, refl, [], arith}
use untitled_bare_metal.Kernel.{TcbState, Kernel, done, ◌>>◌}
use untitled_bare_metal.Threads.{schedule, return_from_kernel_code}
use untitled_bare_metal.Threads.RunQueue.{CanSwitch, Yielded, yield-Yielded}
use untitled_bare_metal.Samples.{sample_kernel, with_one, with_thread}

-- Thread 0x2400 is runnable.
abbrev two_threads : Kernel
two_threads = with_one 0x5000 0x2408 (with_thread TcbState.runnable sample_kernel)

can_switch : CanSwitch 0x2400 two_threads
can_switch = record {
  thread = omega arith;
  apart = omega arith;
  runs = refl;
  has_frame = omega arith;
  mapped = omega arith;
}

yield-Yielded_example :
    (k' : Kernel) × ((schedule >> return_from_kernel_code) two_threads ≡ done tt k')
    × Yielded two_threads k' 0x2400 []
yield-Yielded_example =
    yield-Yielded two_threads 0x2400 [] can_switch (omega arith)
      (record { links = (refl, refl, (refl, refl)); out = refl; uniq = (refl, tt) }) refl
