-- ===== src/Endpoints/Tests.antt =====
-- Runs of kern/obj/endpoint.c.
use untitled_bare_metal.Base.{◌≢◌, update, ap, ℕ, ◌≡◌, refl, true, false, [], ◌∷◌, arith, has}
use untitled_bare_metal.Tag.{MessageTag, message_info_from_word}
use untitled_bare_metal.ListHead.{is_list_empty}
use untitled_bare_metal.ListHead.Ring.{Ring}
use untitled_bare_metal.Kernel.{TcbState, Kernel, done}
use untitled_bare_metal.Threads.{schedule}
use untitled_bare_metal.Endpoints.{transfer_cap, endpoint_send, endpoint_recv, send_will_block}
use untitled_bare_metal.Sys.{cap_null, cap_cnode, cap_endpoint, cap_rights_all}
use untitled_bare_metal.Cap.{new_cap, cap_ptr, cap_size, bits_pointer, cap_word_0}
use untitled_bare_metal.Cdt.Chain.{Chain}
use untitled_bare_metal.Cdt.Derive.{Copied, copy_original}
use untitled_bare_metal.Endpoints.Caps.{CanTransfer, sent_slot, receive_slot, transfer_cap-Copied}
use untitled_bare_metal.Endpoints.Deliver.{Delivered, endpoint_send-Delivered}
use untitled_bare_metal.Endpoints.Receive.{Received, pending_tag, endpoint_recv-Received}
use untitled_bare_metal.Endpoints.Blocked.{Queued, endpoint_send-Queued}
use untitled_bare_metal.Samples.{lone, sample_kernel, with_one, with_thread}

abbrev message : ℕ → MessageTag
message n = record { length = n; caps_unwrapped = 0; extra_caps = 0; label = 9 }

-- Thread 0x2400 waits at the endpoint 0x8000.
abbrev waiting : Kernel
waiting = with_one 0x8000 0x2418 (with_thread TcbState.receiving sample_kernel)

one_node : Ring waiting.node 0x8000 (0x2418 ∷ [])
one_node = record { links = (refl, refl, (refl, refl)); out = refl; uniq = (refl, tt) }

endpoint_send-Delivered_example :
    (k' : Kernel) × (endpoint_send 0x8000 7 (message 3) false waiting ≡ done tt k')
    × Delivered 0x8000 0x2400 7 (message 3) [] waiting k'
endpoint_send-Delivered_example =
    endpoint_send-Delivered 0x8000 0x2400 7 (message 3) false [] waiting
      (record {
        queue = one_node;
        receives = refl;
        thread = omega arith;
        blocked = omega arith;
        buffer = omega arith;
        own_buffer = omega arith;
        apart = omega arith;
      })
      refl

-- It is blocked on sending there.
abbrev sending : Kernel
sending = with_one 0x8000 0x2418 (with_thread TcbState.sending sample_kernel)

apart_lists : (a : ℕ) → has a (0x2408 ∷ 0x5000 ∷ []) ≡ true → has a (0x8000 ∷ 0x2418 ∷ []) ≡ false
apart_lists a i = ground arith

no_caps : (pending_tag 0x2400 sending).extra_caps ≡ 0
unfolding message_info_from_word
no_caps = refl

endpoint_recv-Received_example :
    (k' : Kernel) × (endpoint_recv 0x8000 sending ≡ done (pending_tag 0x2400 sending) k')
    × Received 0x8000 0x2400 [] [] sending k'
endpoint_recv-Received_example =
    endpoint_recv-Received 0x8000 0x2400 [] [] sending
      (record {
        queue = one_node;
        sends = refl;
        alive = refl;
        thread = omega arith;
        blocked = omega arith;
        receiver = omega arith;
        frame = omega arith;
        apart = omega arith;
      })
      (record { links = (refl, refl); out = refl; uniq = tt }) refl (λ a i. apart_lists a i) no_caps

blocks : send_will_block 0x8000 sending ≡ true
unfolding send_will_block is_list_empty
blocks = refl

other_lists : (a : ℕ) → has a (0x5000 ∷ []) ≡ true → has a (0x2018 ∷ 0x8000 ∷ 0x2418 ∷ []) ≡ false
other_lists a i = ground arith

endpoint_send-Queued_example :
    (k' : Kernel) × (endpoint_send 0x8000 7 (message_info_from_word 0) true sending ≡ schedule k')
    × Queued 0x8000 7 true (0x2418 ∷ []) [] sending k'
endpoint_send-Queued_example =
    endpoint_send-Queued 0x8000 7 (message_info_from_word 0) true (0x2418 ∷ []) [] sending blocks
      (record { thread = omega arith; frame = omega arith; tag_ = refl }) one_node
      (record { links = (refl, refl); out = refl; uniq = tt }) refl (λ a i. other_lists a i)

-- Both threads have the node at 0x400 for their root. The sender gives its slot 2, an endpoint; the
-- receiver asks for slot 1 of the node that slot 0 names.
abbrev with_caps : Kernel
with_caps = record waiting {
  cte =
      update
        (update
          (update waiting.cte 0x2050
            (lone (record (new_cap cap_cnode) { ptr = 0x40; size_bits = 4 })))
          0x2450 (lone (record (new_cap cap_cnode) { ptr = 0x40; size_bits = 4 })))
        0x440
        (lone (record (new_cap cap_endpoint) { ptr = 0x900; is_original = true; rights = 31 }));
  buffer = λ a. record {
    msg = λ _. 0;
    sender_badge = 0;
    caps_or_badges = λ _. 2;
    receive_cnode = 0;
    receive_index = 1;
    receive_depth = 64;
  };
}

abbrev one_cap : MessageTag
one_cap = record (message 0) { extra_caps = 1 }

can_transfer : CanTransfer 0x2000 0x2400 one_cap with_caps
unfolding cap_ptr bits_pointer cap_word_0 cap_size
can_transfer = record {
  carries = omega arith;
  sent = record { node = refl; in_range = omega arith };
  root = record { node = refl; in_range = omega arith };
  slot = record { node = refl; in_range = omega arith };
  depth = refl;
}

slots_are :
    (sent_slot 0x2000 0x2400 one_cap with_caps ≡ 0x440)
    × (receive_slot 0x2000 0x2400 one_cap with_caps ≡ 0x820)
unfolding cap_ptr bits_pointer cap_word_0
slots_are = (refl, refl)

sent_type : (with_caps.cte (sent_slot 0x2000 0x2400 one_cap with_caps)).cap.type ≡ cap_endpoint
sent_type = ap (λ (a : ℕ). (with_caps.cte a).cap.type) slots_are.0

transfer_facts :
    Chain with_caps.cte 0 (sent_slot 0x2000 0x2400 one_cap with_caps ∷ [])
    × (receive_slot 0x2000 0x2400 one_cap with_caps ≢ 0)
    × (has
          (receive_slot 0x2000 0x2400 one_cap with_caps)
          (sent_slot 0x2000 0x2400 one_cap with_caps ∷ [])
        ≡ false)
    × ((with_caps.cte (receive_slot 0x2000 0x2400 one_cap with_caps)).cap.type ≡ cap_null)
unfolding cap_ptr bits_pointer cap_word_0
transfer_facts =
    (((λ e. absurd (omega arith)), refl, refl, refl, tt), (λ e. absurd (omega arith)), refl, refl)

transfer_cap-Copied_example :
    (k' : Kernel) × (transfer_cap 0x2000 0x2400 one_cap with_caps ≡ done one_cap k')
    × Copied cap_rights_all
        (with_caps.cte (sent_slot 0x2000 0x2400 one_cap with_caps)).cap.badge
        (copy_original (with_caps.cte (sent_slot 0x2000 0x2400 one_cap with_caps)).cap)
        with_caps.cte
        k'.cte
        []
        (sent_slot 0x2000 0x2400 one_cap with_caps)
        (receive_slot 0x2000 0x2400 one_cap with_caps)
        []
transfer_cap-Copied_example =
    transfer_cap-Copied 0x2000 0x2400 one_cap with_caps [] [] can_transfer transfer_facts.0
      transfer_facts.1 transfer_facts.2 transfer_facts.3 (λ e. absurd (omega (arith, sent_type)))
