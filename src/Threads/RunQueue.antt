-- ===== src/Threads/RunQueue.antt =====
-- The run queue of kern/obj/tcb.c: who waits, and who is next.
use Prim.Native.Nat.{bit_or, bit_or-bitwise}
use untitled_bare_metal.Base.{
  ℕ, sub64, ◌+◌, ◌-◌, ◌≡◌, ◌≢◌, refl, ap, ◌∙◌, true, false, List, ◌∷◌, arith, has, ◌==◌, update,
}
use untitled_bare_metal.Cap.{cap_ptr}
use untitled_bare_metal.ListHead.{append_to_list, pop_from_list, is_list_empty}
use untitled_bare_metal.ListHead.Ring.{Ring, next-start, append_to_list-Ring}
use untitled_bare_metal.ListHead.Remove.{pop_from_list-Ring}
use untitled_bare_metal.Kernel.{TcbState, Kernel, done, ◌>>◌, ◌is◌}
use untitled_bare_metal.Threads.{
  run_node, schedule_tcb, pick_next_tcb, schedule, switch_tcb, switch_tcb_actual,
  return_from_kernel_code, save_tcb_state, tcb_vm_root, vspace_root,
}

abbrev with_state : ℕ → TcbState → Kernel → Kernel
with_state t s k = record k { tcb = update k.tcb t (record (k.tcb t) { state = s }) }

-- The kernel after `schedule_tcb`.
abbrev pub scheduled : ℕ → Kernel → Kernel
scheduled t k = record (with_state t TcbState.runnable k) {
  node = append_to_list (run_node t) k.runnable_tcbs k.node;
}

pub schedule_tcb-ok :
    (t : ℕ) (k : Kernel)
    → ((k.tcb t).state is TcbState.dead) ≡ false
    → schedule_tcb t k ≡ done tt (scheduled t k)
unfolding schedule_tcb
schedule_tcb-ok t k alive = rw alive

-- The queue is not empty.
picked :
    (k : Kernel) (a : ℕ) (rest : List ℕ)
    → Ring k.node k.runnable_tcbs (run_node a ∷ rest)
    → let h = (pop_from_list k.runnable_tcbs k.node).1 in
      (pick_next_tcb k ≡ done a (record k { node = h })) × Ring h k.runnable_tcbs rest
unfolding pick_next_tcb is_list_empty
picked k a rest r =
    let (head_is, left) = pop_from_list-Ring k.node k.runnable_tcbs (run_node a) rest r in
    (rw (busy, head_is, back), left)
  where
    busy : ((k.node k.runnable_tcbs).next == k.runnable_tcbs) ≡ false
    busy = ground (
      arith,
      r.out,
      next-start k.node k.runnable_tcbs (run_node a ∷ rest) k.runnable_tcbs r.links,
    )

    back : a + 8 - 8 ≡ a
    back = omega arith

pub pick-schedule_tcb :
    (t : ℕ) (k : Kernel) (xs : List ℕ)
    → ((k.tcb t).state is TcbState.dead) ≡ false
    → Ring k.node k.runnable_tcbs xs
    → has (run_node t) (k.runnable_tcbs ∷ xs) ≡ false
    → (k' : Kernel) × ((schedule_tcb t >> pick_next_tcb) k ≡ done t k')
      × Ring k'.node k'.runnable_tcbs xs
      × (((k'.tcb t).state is TcbState.runnable) ≡ true)
pick-schedule_tcb t k xs alive r new =
    let (e, left) =
      picked (scheduled t k) t xs
        (append_to_list-Ring k.node (run_node t) k.runnable_tcbs xs r new) in
    (
      record (scheduled t k) { node = (pop_from_list k.runnable_tcbs (scheduled t k).node).1 },
      rw (schedule_tcb-ok t k alive) e,
      left,
      ground arith,
    )

-- The kernel after `schedule` has chosen `a`.
abbrev turned : ℕ → Kernel → Kernel
turned a k = record (with_state a TcbState.runnable k) {
  node = (pop_from_list k.runnable_tcbs k.node).1;
  return_to_tcb = a;
}

schedule-picks :
    (k : Kernel) (a : ℕ) (rest : List ℕ)
    → Ring k.node k.runnable_tcbs (run_node a ∷ rest)
    → a ≢ 0
    → schedule k ≡ done tt (turned a k)
unfolding schedule switch_tcb
schedule-picks k a rest r nz = rw ((picked k a rest r).0, some_thread)
  where
    some_thread : (a == 0) ≡ false
    some_thread = ground arith

-- The kernel after the registers of `c` are saved.
abbrev saved : ℕ → Kernel → Kernel
saved c k = record k {
  tcb = update k.tcb c (record (k.tcb c) { saved_state = k.frame (k.tcb c).current_user_frame });
}

save-ok :
    (c : ℕ) (k : Kernel)
    → (k.tcb c).current_user_frame ≢ 0
    → save_tcb_state c k ≡ done tt (saved c k)
unfolding save_tcb_state
save-ok c k frame = rw has_frame
  where
    has_frame : ((k.tcb c).current_user_frame == 0) ≡ false
    has_frame = ground arith

-- The physical address of the page that the capability in the vspace slot of `a` names.
abbrev pub root_page : ℕ → Kernel → ℕ
root_page a k = sub64 (cap_ptr (k.cte (vspace_root a)).cap) k.hhdm

nothing_or : (n : ℕ) → bit_or 0 n ≡ n
nothing_or n = omega (arith, bit_or-bitwise 0 n)

tcb_vm_root-ok : (a : ℕ) (k : Kernel) → k.hhdm ≢ 0 → tcb_vm_root a k ≡ done (root_page a k) k
unfolding tcb_vm_root
tcb_vm_root-ok a k mapped = rw (has_map, nothing_or k.hhdm) refl
  where
    has_map : (k.hhdm == 0) ≡ false
    has_map = ground arith

-- The kernel after the current thread has made way for `a`.
abbrev handed : (a : ℕ) → Kernel → Kernel
handed a k =
    let m = scheduled k.current_tcb (saved k.current_tcb k) in
    with_state a TcbState.running
      (record m { current_tcb = a; vm_root = root_page a k; user_tls_base = (m.tcb a).tls_base })

-- The current thread runs on, and can make way for `a`.
pub record CanSwitch (a : ℕ) (k : Kernel) : Type 0 where
  pub thread : k.current_tcb ≢ 0
  pub apart : k.current_tcb ≢ a
  pub runs : ((k.tcb k.current_tcb).state is TcbState.running) ≡ true
  pub has_frame : (k.tcb k.current_tcb).current_user_frame ≢ 0
  pub mapped : k.hhdm ≢ 0

hand_over :
    (a : ℕ) (k : Kernel)
    → CanSwitch a k
    → ((k.tcb a).state is TcbState.runnable) ≡ true
    → switch_tcb_actual a k ≡ done tt (handed a k)
unfolding switch_tcb_actual
hand_over a k c ready =
    rw (apart, thread, alive, save-ok k.current_tcb k c.has_frame, c.runs)
      (rw (schedule_tcb-ok k.current_tcb (saved k.current_tcb k) alive', ready')
        (rw (tcb_vm_root-ok a moved c.mapped) refl))
  where
    moved : Kernel
    moved = record (scheduled k.current_tcb (saved k.current_tcb k)) { current_tcb = a }

    apart : (k.current_tcb == a) ≡ false
    apart = ground (arith, c.apart)

    thread : (k.current_tcb == 0) ≡ false
    thread = ground (arith, c.thread)

    alive : ((k.tcb k.current_tcb).state is TcbState.dead) ≡ false
    alive = ground (arith, c.runs)

    alive' : (((saved k.current_tcb k).tcb k.current_tcb).state is TcbState.dead) ≡ false
    alive' = ground (arith, c.runs)

    ready' :
        (((scheduled k.current_tcb (saved k.current_tcb k)).tcb a).state is TcbState.runnable)
        ≡ true
    ready' = ground (arith, c.apart)

return-hands_over :
    (a : ℕ) (k : Kernel)
    → k.return_to_tcb ≡ a
    → a ≢ 0
    → CanSwitch a k
    → ((k.tcb a).state is TcbState.runnable) ≡ true
    → return_from_kernel_code k ≡ done tt (handed a k)
unfolding return_from_kernel_code
return-hands_over a k target nz c ready =
    rw (elsewhere, somewhere) (ap (λ (t : ℕ). switch_tcb_actual t k) target ∙ hand_over a k c ready)
  where
    elsewhere : (k.return_to_tcb == k.current_tcb) ≡ false
    elsewhere = ground (arith, c.apart)

    somewhere : (k.return_to_tcb == 0) ≡ false
    somewhere = ground arith

-- Thread `a` runs now in its address space, and the thread that ran waits in front of `rest`.
pub record Yielded (k k' : Kernel) (a : ℕ) (rest : List ℕ) : Type 0 where
  pub current : k'.current_tcb ≡ a
  pub vm_root : k'.vm_root ≡ root_page a k
  pub tls : k'.user_tls_base ≡ (k.tcb a).tls_base
  pub running : ((k'.tcb a).state is TcbState.running) ≡ true
  pub waiting : ((k'.tcb k.current_tcb).state is TcbState.runnable) ≡ true
  pub kept : (k'.tcb k.current_tcb).saved_state ≡ k.frame (k.tcb k.current_tcb).current_user_frame
  pub queue : Ring k'.node k'.runnable_tcbs (run_node k.current_tcb ∷ rest)

-- If the current thread runs, has a live frame and is in no list, the direct map is set, and thread
-- a is first in the run queue in front of rest, then schedule followed by return_from_kernel_code
-- makes a the running thread, sets the page table register to the physical address of the page that
-- the capability in its vspace slot names, sets its thread-local base, saves the registers of the
-- thread that ran, and puts that one in front of rest.
pub yield-Yielded :
    (k : Kernel) (a : ℕ) (rest : List ℕ)
    → CanSwitch a k
    → a ≢ 0
    → Ring k.node k.runnable_tcbs (run_node a ∷ rest)
    → has (run_node k.current_tcb) (k.runnable_tcbs ∷ rest) ≡ false
    → (k' : Kernel) × ((schedule >> return_from_kernel_code) k ≡ done tt k') × Yielded k k' a rest
yield-Yielded k a rest c nz r new =
    let still : CanSwitch a (turned a k) = record {
      thread = c.thread;
      apart = c.apart;
      runs = ground (arith, c.apart, c.runs);
      has_frame = ground (arith, c.apart, c.has_frame);
      mapped = c.mapped;
    } in
    (
      handed a (turned a k),
      rw (schedule-picks k a rest r nz)
          (return-hands_over a (turned a k) refl nz still (ground arith)),
      record {
        current = refl;
        vm_root = refl;
        tls = ground (arith, c.apart);
        running = ground arith;
        waiting = ground (arith, c.apart);
        kept = ground (arith, c.apart);
        queue =
            append_to_list-Ring (turned a k).node (run_node k.current_tcb) k.runnable_tcbs rest
              (picked k a rest r).1 new;
      },
    )
