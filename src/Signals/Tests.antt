-- ===== src/Signals/Tests.antt =====
-- Runs of kern/obj/notification.c.
use untitled_bare_metal.Base.{◌≡◌, refl, [], arith, update}
use untitled_bare_metal.Sys.{cap_notification}
use untitled_bare_metal.Cap.{new_cap}
use untitled_bare_metal.Kernel.{TcbState, Kernel, done}
use untitled_bare_metal.Signals.{notification_signal}
use untitled_bare_metal.Signals.Wake.{Woken, signalled_word, notification_signal-Woken}
use untitled_bare_metal.Samples.{sample_kernel, with_one, with_thread}

-- Thread 0x2400 waits for the notification 0x8000.
abbrev waiting : Kernel
waiting = with_one 0x8008 0x2418 (with_thread TcbState.receiving sample_kernel)

notification_signal-Woken_example :
    (k' : Kernel) × (notification_signal 0x8000 4 waiting ≡ done tt k')
    × Woken 0x8000 0x2400 (signalled_word 0x8000 4 waiting) [] waiting k'
notification_signal-Woken_example = notification_signal-Woken 0x8000 0x2400 4 [] waiting (record {
  queue = record { links = (refl, refl, (refl, refl)); out = refl; uniq = (refl, tt) };
  thread = omega arith;
  blocked = omega arith;
})

-- Slot 0x420 names a notification, and each notification has the word 6.
abbrev signalled : Kernel
signalled = record sample_kernel {
  cte =
      update sample_kernel.cte 0x420
        (record { cap = record (new_cap cap_notification) { ptr = 0x800 }; next = 0; prev = 0 });
  notification = λ a. record { word = 6; bound_tcb = 0 };
}
