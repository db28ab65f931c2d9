-- ===== src/Hypervisor/Intercepts.antt =====
-- hypervisor/src/svm/mod.rs: the bit fields of the control block of a guest.
use funderberker.Common.{ℕ}

-- What makes a guest exit
pub record Intercepts : Type 0 where
  pub cr_reads : ℕ
  pub cr_writes : ℕ
  pub dr_reads : ℕ
  pub dr_writes : ℕ
  pub exceptions : ℕ
  pub intr : ℕ
  pub nmi : ℕ
  pub smi : ℕ
  pub init : ℕ
  pub virtual_intr : ℕ
  pub cr0_sel_write : ℕ
  pub idtr_read : ℕ
  pub gdtr_read : ℕ
  pub ldtr_read : ℕ
  pub tr_read : ℕ
  pub idtr_write : ℕ
  pub gdtr_write : ℕ
  pub ldtr_write : ℕ
  pub tr_write : ℕ
  pub rdtsc : ℕ
  pub rdpmc : ℕ
  pub pushf : ℕ
  pub popf : ℕ
  pub cpuid : ℕ
  pub rsm : ℕ
  pub iret : ℕ
  pub intn : ℕ
  pub invd : ℕ
  pub pause : ℕ
  pub hlt : ℕ
  pub invlpg : ℕ
  pub invlpga : ℕ
  pub ioio_prot : ℕ
  pub msr_prot : ℕ
  pub task_switch : ℕ
  pub f_err_freeze : ℕ
  pub shutdown : ℕ
  pub vmrun : ℕ
  pub vmmcall : ℕ
  pub vmload : ℕ
  pub vmsave : ℕ
  pub stgi : ℕ
  pub clgi : ℕ
  pub skinit : ℕ
  pub rdtscp : ℕ
  pub icebp : ℕ
  pub wbinvd : ℕ
  pub monitor : ℕ
  pub mwait : ℕ
  pub mwait_conditional : ℕ
  pub xsetbv : ℕ
  pub rdpru : ℕ
  pub efer_write : ℕ
  pub cr_writes_foo : ℕ
  pub invlpgb_all : ℕ
  pub invlpgb_illegal : ℕ
  pub invpcid : ℕ
  pub mcommit : ℕ
  pub tlbsync : ℕ
  pub bus_lock : ℕ
  pub idle_hlt : ℕ

pub record ExitIntInfo : Type 0 where
  pub vector : ℕ
  pub typ : ℕ
  pub error_code_valid : ℕ
  pub valid : ℕ
  pub error_code : ℕ

pub record SvmFlags : Type 0 where
  pub np_enable : ℕ
  pub sev_enable : ℕ
  pub essev_enable : ℕ
  pub guest_mode_execute_trap : ℕ
  pub sss_check_fn : ℕ
  pub vte_enable : ℕ
  pub ro_guest_page_tables_enable : ℕ
  pub invlpgb_tlbsync_enable : ℕ
  pub reserved_mbz_0 : ℕ

abbrev pub zero_intercepts : Intercepts
zero_intercepts = record {
  cr_reads = 0;
  cr_writes = 0;
  dr_reads = 0;
  dr_writes = 0;
  exceptions = 0;
  intr = 0;
  nmi = 0;
  smi = 0;
  init = 0;
  virtual_intr = 0;
  cr0_sel_write = 0;
  idtr_read = 0;
  gdtr_read = 0;
  ldtr_read = 0;
  tr_read = 0;
  idtr_write = 0;
  gdtr_write = 0;
  ldtr_write = 0;
  tr_write = 0;
  rdtsc = 0;
  rdpmc = 0;
  pushf = 0;
  popf = 0;
  cpuid = 0;
  rsm = 0;
  iret = 0;
  intn = 0;
  invd = 0;
  pause = 0;
  hlt = 0;
  invlpg = 0;
  invlpga = 0;
  ioio_prot = 0;
  msr_prot = 0;
  task_switch = 0;
  f_err_freeze = 0;
  shutdown = 0;
  vmrun = 0;
  vmmcall = 0;
  vmload = 0;
  vmsave = 0;
  stgi = 0;
  clgi = 0;
  skinit = 0;
  rdtscp = 0;
  icebp = 0;
  wbinvd = 0;
  monitor = 0;
  mwait = 0;
  mwait_conditional = 0;
  xsetbv = 0;
  rdpru = 0;
  efer_write = 0;
  cr_writes_foo = 0;
  invlpgb_all = 0;
  invlpgb_illegal = 0;
  invpcid = 0;
  mcommit = 0;
  tlbsync = 0;
  bus_lock = 0;
  idle_hlt = 0;
}

abbrev pub zero_flags : SvmFlags
zero_flags = record {
  np_enable = 0;
  sev_enable = 0;
  essev_enable = 0;
  guest_mode_execute_trap = 0;
  sss_check_fn = 0;
  vte_enable = 0;
  ro_guest_page_tables_enable = 0;
  invlpgb_tlbsync_enable = 0;
  reserved_mbz_0 = 0;
}
