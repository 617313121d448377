-- ===== src/Irq/Tests.antt =====
-- Runs of kern/obj/irq.c.
use untitled_bare_metal.Base.{◌≡◌, refl, false, arith, update}
use untitled_bare_metal.Tag.{msg_ok}
use untitled_bare_metal.Cap.{new_irq_handler_cap, cap_ptr, bits_pointer, cap_word_0}
use untitled_bare_metal.Kernel.{Kernel, done}
use untitled_bare_metal.Irq.{irq_handler_at, irq_handler_ack, handle_irq}
use untitled_bare_metal.Irq.Handlers.{Delivered, raised, handle_irq-once}
use untitled_bare_metal.Signals.Wake.{with_word}
use untitled_bare_metal.Samples.{sample_kernel, lone}

-- Interrupt 4 signals the notification 0x8000, and slot 0x420 has the capability to its handler.
abbrev armed : Kernel
armed = record sample_kernel {
  irq_handler_data = λ a. record { irq = 4; in_service = false; n = 0x8000; badge = 16 };
  cte = update sample_kernel.cte 0x420 (lone (record (new_irq_handler_cap 4) { ptr = 0x606 }));
}

-- The interrupt has come, and the word of the notification has been read.
abbrev read_since : Kernel
read_since = with_word 0x8000 0 (raised 4 armed)

handler_cap : cap_ptr (armed.cte 0x420).cap ≡ irq_handler_at armed.irq_handlers 4
unfolding cap_ptr bits_pointer cap_word_0
handler_cap = refl

handle_irq-once_example :
    (k1 : Kernel) × (k2 : Kernel) × (k3 : Kernel) × (handle_irq 4 armed ≡ done tt k1)
    × Delivered 4 armed k1
    × (handle_irq 4 read_since ≡ done tt read_since)
    × (irq_handler_ack 0x420 read_since ≡ done (msg_ok 0) k2)
    × (k2.irq_masked (armed.irq_handler_data (irq_handler_at armed.irq_handlers 4)).irq ≡ false)
    × (handle_irq 4 k2 ≡ done tt k3)
    × Delivered 4 k2 k3
handle_irq-once_example =
    handle_irq-once 4 0x420 armed read_since
      (record {
        has_notification = omega arith;
        idle = refl;
        queue = record { links = (refl, refl); out = refl; uniq = tt };
        unbound = refl;
      })
      (record {
        table = refl;
        handler = refl;
        queue = record { links = (refl, refl); out = refl; uniq = tt };
        unbound = refl;
        names = handler_cap;
      })
