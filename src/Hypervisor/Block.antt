-- ===== src/Hypervisor/Block.antt =====
-- hypervisor/src/svm/mod.rs: the control block of a guest, without the bytes that it reserves.
use funderberker.Common.{ℕ}
use funderberker.Cpu.{
  Rflags, Cr0, Cr3, Cr4, AmdDr6, AmdDr7, new_rflags, new_cr0, zero_cr3, zero_cr4, zero_dr6,
  zero_dr7,
}
use funderberker.Gdt.{FullSegmentSelector, new_selector}
use funderberker.Hypervisor.Codes.{InterceptCode, cr0_read}
use funderberker.Hypervisor.Intercepts.{
  Intercepts, ExitIntInfo, SvmFlags, zero_intercepts, zero_flags,
}

pub record ControlArea : Type 0 where
  pub intercepts : Intercepts
  pub pause_filter_thershold : ℕ
  pub pause_filter_count : ℕ
  pub iopm_base_pa : ℕ
  pub msrpm_base_pa : ℕ
  pub tsc_offset : ℕ
  pub guest_asid : ℕ
  pub tlb_control : ℕ
  pub vintr : ℕ
  pub partially_reserved_7 : ℕ
  pub exitcode : InterceptCode
  pub exitinfo1 : ℕ
  pub exitinfo2 : ℕ
  pub exitintinfo : ExitIntInfo
  pub flags : SvmFlags
  pub avic_apic_bar_reserved : ℕ
  pub guest_phys_addr_ghcb : ℕ
  pub event_injection : ℕ
  pub n_cr3 : ℕ
  pub lbr_virtualization_enable : ℕ
  pub vmcb_clean_bits : ℕ
  pub reserved_11 : ℕ
  pub nrip : ℕ
  pub number_of_bytes_fetched : ℕ
  pub guest_instruction_bytes : ℕ
  pub avic_apic_backing_page_ptr : ℕ
  pub reserved_13 : ℕ
  pub avic_logical_table_ptr : ℕ
  pub avic_physical_table_ptr : ℕ
  pub reserved_14 : ℕ
  pub vmcb_state_save_ptr : ℕ

pub record StateSaveArea : Type 0 where
  pub es : FullSegmentSelector
  pub cs : FullSegmentSelector
  pub ss : FullSegmentSelector
  pub ds : FullSegmentSelector
  pub fs : FullSegmentSelector
  pub gs : FullSegmentSelector
  pub gdtr : FullSegmentSelector
  pub ldtr : FullSegmentSelector
  pub idtr : FullSegmentSelector
  pub tr : FullSegmentSelector
  pub cpl : ℕ
  pub reserved_2 : ℕ
  pub efer : ℕ
  pub perf_ctl0 : ℕ
  pub perf_ctr0 : ℕ
  pub perf_ctl1 : ℕ
  pub perf_ctr1 : ℕ
  pub perf_ctl2 : ℕ
  pub perf_ctr2 : ℕ
  pub perf_ctl3 : ℕ
  pub perf_ctr3 : ℕ
  pub perf_ctl4 : ℕ
  pub perf_ctr4 : ℕ
  pub perf_ctl5 : ℕ
  pub perf_ctr5 : ℕ
  pub forgot_reserved : ℕ
  pub cr4 : Cr4
  pub cr3 : Cr3
  pub cr0 : Cr0
  pub dr7 : AmdDr7
  pub dr6 : AmdDr6
  pub rflags : Rflags
  pub rip : ℕ
  pub instr_retired_ctr : ℕ
  pub perf_ctr_global_sts : ℕ
  pub perf_ctr_global_ctl : ℕ
  pub rsp : ℕ
  pub s_cet : ℕ
  pub ssp : ℕ
  pub isst_addr : ℕ
  pub rax : ℕ
  pub start : ℕ
  pub lstart : ℕ
  pub cstar : ℕ
  pub sf_mask : ℕ
  pub kernel_gs_base : ℕ
  pub sysenter_cs : ℕ
  pub sysenter_esp : ℕ
  pub sysenter_eip : ℕ
  pub cr2 : ℕ
  pub g_pat : ℕ
  pub dbg_ctl : ℕ
  pub br_from : ℕ
  pub br_to : ℕ
  pub last_exception_from : ℕ
  pub last_exception_to : ℕ
  pub dbg_extn_ctl : ℕ
  pub spec_ctrl : ℕ
  pub lbr_stack : ℕ
  pub lbr_select : ℕ
  pub ibs_fetch_ctl : ℕ
  pub ibs_fetch_linaddr : ℕ
  pub ibs_op_ctl : ℕ
  pub ibs_op_rip : ℕ
  pub ibs_op_data : ℕ
  pub ibs_op_data2 : ℕ
  pub ibs_op_data3 : ℕ
  pub ibs_dc_linaddr : ℕ
  pub bp_ibstgt_rip : ℕ
  pub ic_ibs_extd_ctl : ℕ

pub record Vmcb : Type 0 where
  pub control : ControlArea
  pub state_save : StateSaveArea

abbrev pub zero_selector : FullSegmentSelector
zero_selector = record { selector = new_selector; attributes = 0; limit = 0; base = 0 }

abbrev pub zero_control : ControlArea
zero_control = record {
  intercepts = zero_intercepts;
  pause_filter_thershold = 0;
  pause_filter_count = 0;
  iopm_base_pa = 0;
  msrpm_base_pa = 0;
  tsc_offset = 0;
  guest_asid = 0;
  tlb_control = 0;
  vintr = 0;
  partially_reserved_7 = 0;
  exitcode = cr0_read;
  exitinfo1 = 0;
  exitinfo2 = 0;
  exitintinfo = record { vector = 0; typ = 0; error_code_valid = 0; valid = 0; error_code = 0 };
  flags = zero_flags;
  avic_apic_bar_reserved = 0;
  guest_phys_addr_ghcb = 0;
  event_injection = 0;
  n_cr3 = 0;
  lbr_virtualization_enable = 0;
  vmcb_clean_bits = 0;
  reserved_11 = 0;
  nrip = 0;
  number_of_bytes_fetched = 0;
  guest_instruction_bytes = 0;
  avic_apic_backing_page_ptr = 0;
  reserved_13 = 0;
  avic_logical_table_ptr = 0;
  avic_physical_table_ptr = 0;
  reserved_14 = 0;
  vmcb_state_save_ptr = 0;
}

abbrev pub zero_state : StateSaveArea
zero_state = record {
  es = zero_selector;
  cs = zero_selector;
  ss = zero_selector;
  ds = zero_selector;
  fs = zero_selector;
  gs = zero_selector;
  gdtr = zero_selector;
  ldtr = zero_selector;
  idtr = zero_selector;
  tr = zero_selector;
  cpl = 0;
  reserved_2 = 0;
  efer = 0;
  perf_ctl0 = 0;
  perf_ctr0 = 0;
  perf_ctl1 = 0;
  perf_ctr1 = 0;
  perf_ctl2 = 0;
  perf_ctr2 = 0;
  perf_ctl3 = 0;
  perf_ctr3 = 0;
  perf_ctl4 = 0;
  perf_ctr4 = 0;
  perf_ctl5 = 0;
  perf_ctr5 = 0;
  forgot_reserved = 0;
  cr4 = zero_cr4;
  cr3 = zero_cr3;
  cr0 = new_cr0;
  dr7 = zero_dr7;
  dr6 = zero_dr6;
  rflags = new_rflags;
  rip = 0;
  instr_retired_ctr = 0;
  perf_ctr_global_sts = 0;
  perf_ctr_global_ctl = 0;
  rsp = 0;
  s_cet = 0;
  ssp = 0;
  isst_addr = 0;
  rax = 0;
  start = 0;
  lstart = 0;
  cstar = 0;
  sf_mask = 0;
  kernel_gs_base = 0;
  sysenter_cs = 0;
  sysenter_esp = 0;
  sysenter_eip = 0;
  cr2 = 0;
  g_pat = 0;
  dbg_ctl = 0;
  br_from = 0;
  br_to = 0;
  last_exception_from = 0;
  last_exception_to = 0;
  dbg_extn_ctl = 0;
  spec_ctrl = 0;
  lbr_stack = 0;
  lbr_select = 0;
  ibs_fetch_ctl = 0;
  ibs_fetch_linaddr = 0;
  ibs_op_ctl = 0;
  ibs_op_rip = 0;
  ibs_op_data = 0;
  ibs_op_data2 = 0;
  ibs_op_data3 = 0;
  ibs_dc_linaddr = 0;
  bp_ibstgt_rip = 0;
  ic_ibs_extd_ctl = 0;
}

-- `Vmcb::uninit`, all zero
abbrev pub uninit : Vmcb
uninit = record { control = zero_control; state_save = zero_state }
