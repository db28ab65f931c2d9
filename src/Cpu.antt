-- ===== src/Cpu.antt =====
-- kernel/src/arch/x86_64/cpu/mod.rs and cpu/msr.rs: the control registers and flags as their fields, and the
-- digits of the register EFER.
use funderberker.Common.{ℕ, ◌^◌, bit_or}

pub record Rflags : Type 0 where
  pub cf : ℕ
  pub reserved_mbo : ℕ
  pub pf : ℕ
  pub reserved_mbz_0 : ℕ
  pub af : ℕ
  pub reserved_mbz_1 : ℕ
  pub zf : ℕ
  pub sf : ℕ
  pub tf : ℕ
  pub if_enable : ℕ
  pub df : ℕ
  pub of_flag : ℕ
  pub iopl : ℕ
  pub nt : ℕ
  pub reserved_mbz_2 : ℕ
  pub rf : ℕ
  pub vm : ℕ
  pub ac : ℕ
  pub vif : ℕ
  pub vip : ℕ
  pub id : ℕ
  pub reserved_mbz_3 : ℕ

pub record Cr0 : Type 0 where
  pub pe : ℕ
  pub mp : ℕ
  pub em : ℕ
  pub ts : ℕ
  pub et : ℕ
  pub ne : ℕ
  pub reserved_mbz_0 : ℕ
  pub wp : ℕ
  pub reserved_mbz_1 : ℕ
  pub am : ℕ
  pub reserved_mbz_2 : ℕ
  pub nw : ℕ
  pub cd : ℕ
  pub pg : ℕ
  pub reserved_mbz_3 : ℕ

pub record Cr3 : Type 0 where
  pub reserved_mbz_0 : ℕ
  pub pwt : ℕ
  pub pcd : ℕ
  pub reserved_mbz_1 : ℕ
  pub top_pml : ℕ

pub record Cr4 : Type 0 where
  pub vme : ℕ
  pub pvi : ℕ
  pub tsd : ℕ
  pub de : ℕ
  pub pse : ℕ
  pub pae : ℕ
  pub mce : ℕ
  pub pge : ℕ
  pub pce : ℕ
  pub osfxsr : ℕ
  pub osxmmexcpt : ℕ
  pub umip : ℕ
  pub la57 : ℕ
  pub vmxe : ℕ
  pub smxe : ℕ
  pub reserved_mbz_0 : ℕ
  pub fsgsbase : ℕ
  pub pcide : ℕ
  pub osxsave : ℕ
  pub reserved_mbz_1 : ℕ
  pub smep : ℕ
  pub smap : ℕ
  pub pke : ℕ
  pub cet : ℕ
  pub pks : ℕ
  pub reserved_mbz_2 : ℕ

pub record AmdDr6 : Type 0 where
  pub bd0 : ℕ
  pub bd1 : ℕ
  pub bd2 : ℕ
  pub bd3 : ℕ
  pub reserved_mbo_0 : ℕ
  pub bld : ℕ
  pub reserved_mbz_0 : ℕ
  pub bd : ℕ
  pub bs : ℕ
  pub bt : ℕ
  pub reserved_mbo_1 : ℕ
  pub reserved_mbz_1 : ℕ

pub record AmdDr7 : Type 0 where
  pub l0 : ℕ
  pub g0 : ℕ
  pub l1 : ℕ
  pub g1 : ℕ
  pub l2 : ℕ
  pub g2 : ℕ
  pub l3 : ℕ
  pub g3 : ℕ
  pub le : ℕ
  pub ge : ℕ
  pub reserved_mbo : ℕ
  pub reserved_mbz_0 : ℕ
  pub gd : ℕ
  pub reserved_mbz_1 : ℕ
  pub ttt_0 : ℕ
  pub lb_0 : ℕ
  pub ttt_1 : ℕ
  pub lb_1 : ℕ
  pub ttt_2 : ℕ
  pub lb_2 : ℕ
  pub ttt_3 : ℕ
  pub lb_3 : ℕ
  pub reserved_mbz_2 : ℕ

-- `Rflags::new`
abbrev pub new_rflags : Rflags
new_rflags = record {
  cf = 0;
  reserved_mbo = 0;
  pf = 0;
  reserved_mbz_0 = 0;
  af = 0;
  reserved_mbz_1 = 0;
  zf = 0;
  sf = 0;
  tf = 0;
  if_enable = 0;
  df = 0;
  of_flag = 0;
  iopl = 0;
  nt = 0;
  reserved_mbz_2 = 0;
  rf = 0;
  vm = 0;
  ac = 0;
  vif = 0;
  vip = 0;
  id = 0;
  reserved_mbz_3 = 0;
}

-- `Cr0::new`
abbrev pub new_cr0 : Cr0
new_cr0 = record {
  pe = 0;
  mp = 0;
  em = 0;
  ts = 0;
  et = 0;
  ne = 0;
  reserved_mbz_0 = 0;
  wp = 0;
  reserved_mbz_1 = 0;
  am = 0;
  reserved_mbz_2 = 0;
  nw = 0;
  cd = 0;
  pg = 0;
  reserved_mbz_3 = 0;
}

abbrev pub zero_cr3 : Cr3
zero_cr3 = record { reserved_mbz_0 = 0; pwt = 0; pcd = 0; reserved_mbz_1 = 0; top_pml = 0 }

abbrev pub zero_cr4 : Cr4
zero_cr4 = record {
  vme = 0;
  pvi = 0;
  tsd = 0;
  de = 0;
  pse = 0;
  pae = 0;
  mce = 0;
  pge = 0;
  pce = 0;
  osfxsr = 0;
  osxmmexcpt = 0;
  umip = 0;
  la57 = 0;
  vmxe = 0;
  smxe = 0;
  reserved_mbz_0 = 0;
  fsgsbase = 0;
  pcide = 0;
  osxsave = 0;
  reserved_mbz_1 = 0;
  smep = 0;
  smap = 0;
  pke = 0;
  cet = 0;
  pks = 0;
  reserved_mbz_2 = 0;
}

abbrev pub zero_dr6 : AmdDr6
zero_dr6 = record {
  bd0 = 0;
  bd1 = 0;
  bd2 = 0;
  bd3 = 0;
  reserved_mbo_0 = 0;
  bld = 0;
  reserved_mbz_0 = 0;
  bd = 0;
  bs = 0;
  bt = 0;
  reserved_mbo_1 = 0;
  reserved_mbz_1 = 0;
}

abbrev pub zero_dr7 : AmdDr7
zero_dr7 = record {
  l0 = 0;
  g0 = 0;
  l1 = 0;
  g1 = 0;
  l2 = 0;
  g2 = 0;
  l3 = 0;
  g3 = 0;
  le = 0;
  ge = 0;
  reserved_mbo = 0;
  reserved_mbz_0 = 0;
  gd = 0;
  reserved_mbz_1 = 0;
  ttt_0 = 0;
  lb_0 = 0;
  ttt_1 = 0;
  lb_1 = 0;
  ttt_2 = 0;
  lb_2 = 0;
  ttt_3 = 0;
  lb_3 = 0;
  reserved_mbz_2 = 0;
}

-- `Efer::SVM`
abbrev pub efer_svm : ℕ
efer_svm = 2 ^ 12

-- `Efer::LMA`
abbrev pub efer_lma : ℕ
efer_lma = 2 ^ 10

-- `Efer::ALL`
abbrev pub efer_all : ℕ
efer_all =
    bit_or
      (bit_or
        (bit_or
          (bit_or
            (bit_or
              (bit_or
                (bit_or
                  (bit_or (bit_or (bit_or (bit_or (2 ^ 0) (2 ^ 8)) (2 ^ 10)) (2 ^ 11)) (2 ^ 12))
                  (2 ^ 13))
                (2 ^ 14))
              (2 ^ 15))
            (2 ^ 16))
          (2 ^ 17))
        (2 ^ 18))
      (2 ^ 19)
