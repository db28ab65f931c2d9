-- ===== src/Apic/Lapic/Registers.antt =====
-- kernel/src/arch/x86_64/apic/lapic.rs: the registers of a local APIC and the values of their fields.
use funderberker.Common.{ℕ, ◌^◌, ◌<◌}

pub data WriteableRegs : Type 0 where
  id task_priority end_of_interrupt logical_destination destination_format : WriteableRegs
  spurious_interrupt_vector error_status lvt_cmci interrupt_command_0 : WriteableRegs
  interrupt_command_1 lvt_timer lvt_thermal lvt_performance lvt_lint_0 lvt_lint_1 : WriteableRegs
  lvt_error timer_initial_count timer_divide_config : WriteableRegs

-- `offset`
abbrev pub write_offset : WriteableRegs → ℕ
write_offset id = 32
write_offset task_priority = 128
write_offset end_of_interrupt = 176
write_offset logical_destination = 208
write_offset destination_format = 224
write_offset spurious_interrupt_vector = 240
write_offset error_status = 640
write_offset lvt_cmci = 752
write_offset interrupt_command_0 = 768
write_offset interrupt_command_1 = 784
write_offset lvt_timer = 800
write_offset lvt_thermal = 816
write_offset lvt_performance = 832
write_offset lvt_lint_0 = 848
write_offset lvt_lint_1 = 864
write_offset lvt_error = 880
write_offset timer_initial_count = 896
write_offset timer_divide_config = 992

pub data ReadableRegs : Type 0 where
  id version task_priority arbitration_priority processor_priority remote_read : ReadableRegs
  logical_destination destination_format spurious_interrupt_vector in_service_0 : ReadableRegs
  in_service_1 in_service_2 in_service_3 in_service_4 in_service_5 in_service_6 : ReadableRegs
  in_service_7 trigger_mode_0 trigger_mode_1 trigger_mode_2 trigger_mode_3 : ReadableRegs
  trigger_mode_4 trigger_mode_5 trigger_mode_6 trigger_mode_7 interrupt_request_0 : ReadableRegs
  interrupt_request_1 interrupt_request_2 interrupt_request_3 interrupt_request_4 : ReadableRegs
  interrupt_request_5 interrupt_request_6 interrupt_request_7 error_status : ReadableRegs
  lvt_cmci interrupt_command_0 interrupt_command_1 lvt_timer lvt_thermal : ReadableRegs
  lvt_performance lvt_lint_0 lvt_lint_1 lvt_error timer_initial_count : ReadableRegs
  timer_current_count timer_divide_config : ReadableRegs

-- `offset`
abbrev pub read_offset : ReadableRegs → ℕ
read_offset id = 32
read_offset version = 48
read_offset task_priority = 128
read_offset arbitration_priority = 144
read_offset processor_priority = 160
read_offset remote_read = 192
read_offset logical_destination = 208
read_offset destination_format = 224
read_offset spurious_interrupt_vector = 240
read_offset in_service_0 = 256
read_offset in_service_1 = 272
read_offset in_service_2 = 288
read_offset in_service_3 = 304
read_offset in_service_4 = 320
read_offset in_service_5 = 336
read_offset in_service_6 = 352
read_offset in_service_7 = 368
read_offset trigger_mode_0 = 384
read_offset trigger_mode_1 = 400
read_offset trigger_mode_2 = 416
read_offset trigger_mode_3 = 432
read_offset trigger_mode_4 = 448
read_offset trigger_mode_5 = 464
read_offset trigger_mode_6 = 480
read_offset trigger_mode_7 = 496
read_offset interrupt_request_0 = 512
read_offset interrupt_request_1 = 528
read_offset interrupt_request_2 = 544
read_offset interrupt_request_3 = 560
read_offset interrupt_request_4 = 576
read_offset interrupt_request_5 = 592
read_offset interrupt_request_6 = 608
read_offset interrupt_request_7 = 624
read_offset error_status = 640
read_offset lvt_cmci = 752
read_offset interrupt_command_0 = 768
read_offset interrupt_command_1 = 784
read_offset lvt_timer = 800
read_offset lvt_thermal = 816
read_offset lvt_performance = 832
read_offset lvt_lint_0 = 848
read_offset lvt_lint_1 = 864
read_offset lvt_error = 880
read_offset timer_initial_count = 896
read_offset timer_current_count = 912
read_offset timer_divide_config = 992

pub data TimerDivisor : Type 0 where
  div2 div4 div8 div16 div32 div64 div128 div1 : TimerDivisor

-- `divider as u32`
abbrev pub divisor_bits : TimerDivisor → ℕ
divisor_bits div2 = 0
divisor_bits div4 = 1
divisor_bits div8 = 2
divisor_bits div16 = 3
divisor_bits div32 = 4
divisor_bits div64 = 5
divisor_bits div128 = 6
divisor_bits div1 = 7

pub data TimerMode : Type 0 where
  one_shot periodic tsc reserved_mode : TimerMode

-- `timer_mode as u16`
abbrev pub mode_bits : TimerMode → ℕ
mode_bits one_shot = 0
mode_bits periodic = 1
mode_bits tsc = 2
mode_bits reserved_mode = 3

pub data DeliveryStatus : Type 0 where
  idle send_pending : DeliveryStatus

pub record LvtReg : Type 0 where
  pub vector : ℕ
  pub delivery_mode : ℕ
  pub reserved : ℕ
  pub delivery_status : ℕ
  pub pin_polarity : ℕ
  pub remote_irr : ℕ
  pub trigger_mode : ℕ
  pub mask : ℕ
  pub reserved2 : ℕ

-- The fields have the widths that the struct declares.
pub record LvtFits (e : LvtReg) : Type 0 where
  pub vector_lt : e.vector < 2 ^ 8
  pub delivery_mode_lt : e.delivery_mode < 2 ^ 3
  pub reserved_lt : e.reserved < 2 ^ 1
  pub delivery_status_lt : e.delivery_status < 2 ^ 1
  pub pin_polarity_lt : e.pin_polarity < 2 ^ 1
  pub remote_irr_lt : e.remote_irr < 2 ^ 1
  pub trigger_mode_lt : e.trigger_mode < 2 ^ 1
  pub mask_lt : e.mask < 2 ^ 1
  pub reserved2_lt : e.reserved2 < 2 ^ 15
