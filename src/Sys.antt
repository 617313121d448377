-- ===== src/Sys.antt =====
-- The numbers of include/sys/syscall.h and the rights of include/sys/types.h. The names leave out
-- `x86_64`.
use untitled_bare_metal.Base.{ℕ}

-- enum object_type
abbrev pub cap_null : ℕ
cap_null = 0

abbrev pub cap_endpoint : ℕ
cap_endpoint = 1

abbrev pub cap_reply : ℕ
cap_reply = 2

abbrev pub cap_notification : ℕ
cap_notification = 3

abbrev pub cap_cnode : ℕ
cap_cnode = 4

abbrev pub cap_tcb : ℕ
cap_tcb = 5

abbrev pub cap_untyped : ℕ
cap_untyped = 6

abbrev pub cap_io_port : ℕ
cap_io_port = 7

abbrev pub cap_io_port_control : ℕ
cap_io_port_control = 8

abbrev pub cap_pml4 : ℕ
cap_pml4 = 9

abbrev pub cap_pdpt : ℕ
cap_pdpt = 10

abbrev pub cap_pd : ℕ
cap_pd = 11

abbrev pub cap_pt : ℕ
cap_pt = 12

abbrev pub cap_page : ℕ
cap_page = 13

abbrev pub cap_huge_page : ℕ
cap_huge_page = 14

abbrev pub cap_irq_control : ℕ
cap_irq_control = 15

abbrev pub cap_irq_handler : ℕ
cap_irq_handler = 16

abbrev pub max_cap_type : ℕ
max_cap_type = 17

-- cap_rights_t
abbrev pub cap_rights_none : ℕ
cap_rights_none = 0

abbrev pub cap_rights_read : ℕ
cap_rights_read = 0x04

abbrev pub cap_rights_write : ℕ
cap_rights_write = 0x02

abbrev pub cap_rights_all : ℕ
cap_rights_all = 0x1f

-- enum error_code
abbrev pub no_error : ℕ
no_error = 0

abbrev pub alignment_error : ℕ
alignment_error = 1

abbrev pub delete_first : ℕ
delete_first = 2

abbrev pub failed_lookup : ℕ
failed_lookup = 3

abbrev pub illegal_operation : ℕ
illegal_operation = 4

abbrev pub invalid_argument : ℕ
invalid_argument = 5

abbrev pub invalid_capability : ℕ
invalid_capability = 6

abbrev pub invalid_syscall : ℕ
invalid_syscall = 7

abbrev pub invalid_root : ℕ
invalid_root = 8

abbrev pub not_enough_memory : ℕ
not_enough_memory = 9

abbrev pub range_error : ℕ
range_error = 10

abbrev pub revoke_first : ℕ
revoke_first = 11

abbrev pub truncated_message : ℕ
truncated_message = 12

abbrev pub unknown_message : ℕ
unknown_message = 13

abbrev pub would_block : ℕ
would_block = 14

abbrev pub max_error_code : ℕ
max_error_code = 15

-- enum syscall_number
abbrev pub sys_exit : ℕ
sys_exit = 0

abbrev pub sys_debug_write : ℕ
sys_debug_write = 1

abbrev pub sys_call : ℕ
sys_call = 2

abbrev pub sys_yield : ℕ
sys_yield = 3

abbrev pub sys_send : ℕ
sys_send = 4

abbrev pub sys_nbsend : ℕ
sys_nbsend = 5

abbrev pub sys_recv : ℕ
sys_recv = 6

abbrev pub sys_nbrecv : ℕ
sys_nbrecv = 7

abbrev pub sys_reply : ℕ
sys_reply = 8

abbrev pub sys_replyrecv : ℕ
sys_replyrecv = 9

-- enum method_id
abbrev pub method_invalid : ℕ
method_invalid = 0

abbrev pub method_cnode_copy : ℕ
method_cnode_copy = 1

abbrev pub method_cnode_delete : ℕ
method_cnode_delete = 2

abbrev pub method_cnode_mint : ℕ
method_cnode_mint = 3

abbrev pub method_cnode_revoke : ℕ
method_cnode_revoke = 4

abbrev pub method_cnode_debug_print : ℕ
method_cnode_debug_print = 5

abbrev pub method_cnode_debug_get : ℕ
method_cnode_debug_get = 6

abbrev pub method_tcb_configure : ℕ
method_tcb_configure = 7

abbrev pub method_tcb_read_registers : ℕ
method_tcb_read_registers = 8

abbrev pub method_tcb_resume : ℕ
method_tcb_resume = 9

abbrev pub method_tcb_bind_notification : ℕ
method_tcb_bind_notification = 10

abbrev pub method_tcb_set_tls_base : ℕ
method_tcb_set_tls_base = 11

abbrev pub method_tcb_suspend : ℕ
method_tcb_suspend = 12

abbrev pub method_tcb_write_registers : ℕ
method_tcb_write_registers = 13

abbrev pub method_tcb_set_debug : ℕ
method_tcb_set_debug = 14

abbrev pub method_tcb_set_name : ℕ
method_tcb_set_name = 15

abbrev pub method_untyped_retype : ℕ
method_untyped_retype = 16

abbrev pub method_io_port_in8 : ℕ
method_io_port_in8 = 17

abbrev pub method_io_port_in16 : ℕ
method_io_port_in16 = 18

abbrev pub method_io_port_in32 : ℕ
method_io_port_in32 = 19

abbrev pub method_io_port_out8 : ℕ
method_io_port_out8 = 20

abbrev pub method_io_port_out16 : ℕ
method_io_port_out16 = 21

abbrev pub method_io_port_out32 : ℕ
method_io_port_out32 = 22

abbrev pub method_io_port_control_issue : ℕ
method_io_port_control_issue = 23

abbrev pub method_pdpt_map : ℕ
method_pdpt_map = 24

abbrev pub method_pd_map : ℕ
method_pd_map = 25

abbrev pub method_pt_map : ℕ
method_pt_map = 26

abbrev pub method_page_map : ℕ
method_page_map = 27

abbrev pub method_huge_page_map : ℕ
method_huge_page_map = 28

abbrev pub method_irq_control_get : ℕ
method_irq_control_get = 29

abbrev pub method_irq_handler_ack : ℕ
method_irq_handler_ack = 30

abbrev pub method_irq_handler_clear : ℕ
method_irq_handler_clear = 31

abbrev pub method_irq_handler_set_notification : ℕ
method_irq_handler_set_notification = 32
