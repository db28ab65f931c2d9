-- ===== src/Hypervisor/Codes.antt =====
-- hypervisor/src/svm/mod.rs: `InterceptCode`, what made a guest exit, and its numbers.
use funderberker.Common.{ℕ, ◌-◌, ◌^◌}

pub data InterceptCode : Type 0 where
  cr0_read cr1_read cr2_read cr3_read cr4_read cr5_read cr6_read cr7_read cr8_read cr9_read
        cr10_read cr11_read cr12_read cr13_read cr14_read cr15_read cr0_write cr1_write cr2_write
        cr3_write cr4_write cr5_write cr6_write cr7_write cr8_write cr9_write cr10_write cr11_write
        cr12_write cr13_write cr14_write cr15_write dr0_read dr1_read dr2_read dr3_read dr4_read
        dr5_read dr6_read dr7_read dr8_read dr9_read dr10_read dr11_read dr12_read dr13_read
        dr14_read dr15_read dr0_write dr1_write dr2_write dr3_write dr4_write dr5_write dr6_write
        dr7_write dr8_write dr9_write dr10_write dr11_write dr12_write dr13_write dr14_write
        dr15_write exception0 exception1 exception2 exception3 exception4 exception5 exception6
        exception7 exception8 exception9 exception10 exception11 exception12 exception13 exception14
        exception15 exception16 exception17 exception18 exception19 exception20 exception21
        exception22 exception23 exception24 exception25 exception26 exception27 exception28
        exception29 exception30 exception31 intr nmi smi init virtual_intr cr0_sel_write idtr_read
        gdtr_read ldtr_read tr_read idtr_write gdtr_write ldtr_write tr_write rdtsc rdpmc pushf popf
        cpuid rsm iret swint invd pause hlt invlpg invlpga exit_ioio msr task_switch ferr_freeze
        shutdown vmrun vmmcall vmload vmsave stgi clgi skinit rdtscp icebp wbinvd monitor mwait
        mwait_conditional rdpru xsetbv efer_write_trap cr0_write_trap cr1_write_trap cr2_write_trap
        cr3_write_trap cr4_write_trap cr5_write_trap cr6_write_trap cr7_write_trap cr8_write_trap
        cr9_write_trap cr10_write_trap cr11_write_trap cr12_write_trap cr13_write_trap
        cr14_write_trap cr15_write_trap invlpgb invlpgb_illegal invpcid mcommit tlbsync bus_lock
        idle_hlt npf avic_incomplete_ipi avic_no_accel vmgexit unused invalid busy idle_required
        invalid_pmc qemu_invalid :
      InterceptCode

-- The numbers, as those of `repr(i64)` read without a sign
abbrev pub exit_number : InterceptCode → ℕ
exit_number cr0_read = 0
exit_number cr1_read = 1
exit_number cr2_read = 2
exit_number cr3_read = 3
exit_number cr4_read = 4
exit_number cr5_read = 5
exit_number cr6_read = 6
exit_number cr7_read = 7
exit_number cr8_read = 8
exit_number cr9_read = 9
exit_number cr10_read = 10
exit_number cr11_read = 11
exit_number cr12_read = 12
exit_number cr13_read = 13
exit_number cr14_read = 14
exit_number cr15_read = 15
exit_number cr0_write = 16
exit_number cr1_write = 17
exit_number cr2_write = 18
exit_number cr3_write = 19
exit_number cr4_write = 20
exit_number cr5_write = 21
exit_number cr6_write = 22
exit_number cr7_write = 23
exit_number cr8_write = 24
exit_number cr9_write = 25
exit_number cr10_write = 26
exit_number cr11_write = 27
exit_number cr12_write = 28
exit_number cr13_write = 29
exit_number cr14_write = 30
exit_number cr15_write = 31
exit_number dr0_read = 32
exit_number dr1_read = 33
exit_number dr2_read = 34
exit_number dr3_read = 35
exit_number dr4_read = 36
exit_number dr5_read = 37
exit_number dr6_read = 38
exit_number dr7_read = 39
exit_number dr8_read = 40
exit_number dr9_read = 41
exit_number dr10_read = 42
exit_number dr11_read = 43
exit_number dr12_read = 44
exit_number dr13_read = 45
exit_number dr14_read = 46
exit_number dr15_read = 47
exit_number dr0_write = 48
exit_number dr1_write = 49
exit_number dr2_write = 50
exit_number dr3_write = 51
exit_number dr4_write = 52
exit_number dr5_write = 53
exit_number dr6_write = 54
exit_number dr7_write = 55
exit_number dr8_write = 56
exit_number dr9_write = 57
exit_number dr10_write = 58
exit_number dr11_write = 59
exit_number dr12_write = 60
exit_number dr13_write = 61
exit_number dr14_write = 62
exit_number dr15_write = 63
exit_number exception0 = 64
exit_number exception1 = 65
exit_number exception2 = 66
exit_number exception3 = 67
exit_number exception4 = 68
exit_number exception5 = 69
exit_number exception6 = 70
exit_number exception7 = 71
exit_number exception8 = 72
exit_number exception9 = 73
exit_number exception10 = 74
exit_number exception11 = 75
exit_number exception12 = 76
exit_number exception13 = 77
exit_number exception14 = 78
exit_number exception15 = 79
exit_number exception16 = 80
exit_number exception17 = 81
exit_number exception18 = 82
exit_number exception19 = 83
exit_number exception20 = 84
exit_number exception21 = 85
exit_number exception22 = 86
exit_number exception23 = 87
exit_number exception24 = 88
exit_number exception25 = 89
exit_number exception26 = 90
exit_number exception27 = 91
exit_number exception28 = 92
exit_number exception29 = 93
exit_number exception30 = 94
exit_number exception31 = 95
exit_number intr = 96
exit_number nmi = 97
exit_number smi = 98
exit_number init = 99
exit_number virtual_intr = 100
exit_number cr0_sel_write = 101
exit_number idtr_read = 102
exit_number gdtr_read = 103
exit_number ldtr_read = 104
exit_number tr_read = 105
exit_number idtr_write = 106
exit_number gdtr_write = 107
exit_number ldtr_write = 108
exit_number tr_write = 109
exit_number rdtsc = 110
exit_number rdpmc = 111
exit_number pushf = 112
exit_number popf = 113
exit_number cpuid = 114
exit_number rsm = 115
exit_number iret = 116
exit_number swint = 117
exit_number invd = 118
exit_number pause = 119
exit_number hlt = 120
exit_number invlpg = 121
exit_number invlpga = 122
exit_number exit_ioio = 123
exit_number msr = 124
exit_number task_switch = 125
exit_number ferr_freeze = 126
exit_number shutdown = 127
exit_number vmrun = 128
exit_number vmmcall = 129
exit_number vmload = 130
exit_number vmsave = 131
exit_number stgi = 132
exit_number clgi = 133
exit_number skinit = 134
exit_number rdtscp = 135
exit_number icebp = 136
exit_number wbinvd = 137
exit_number monitor = 138
exit_number mwait = 139
exit_number mwait_conditional = 140
exit_number rdpru = 142
exit_number xsetbv = 141
exit_number efer_write_trap = 143
exit_number cr0_write_trap = 144
exit_number cr1_write_trap = 145
exit_number cr2_write_trap = 146
exit_number cr3_write_trap = 147
exit_number cr4_write_trap = 148
exit_number cr5_write_trap = 149
exit_number cr6_write_trap = 150
exit_number cr7_write_trap = 151
exit_number cr8_write_trap = 152
exit_number cr9_write_trap = 153
exit_number cr10_write_trap = 154
exit_number cr11_write_trap = 155
exit_number cr12_write_trap = 156
exit_number cr13_write_trap = 157
exit_number cr14_write_trap = 158
exit_number cr15_write_trap = 159
exit_number invlpgb = 160
exit_number invlpgb_illegal = 161
exit_number invpcid = 162
exit_number mcommit = 163
exit_number tlbsync = 164
exit_number bus_lock = 165
exit_number idle_hlt = 166
exit_number npf = 1024
exit_number avic_incomplete_ipi = 1025
exit_number avic_no_accel = 1026
exit_number vmgexit = 1027
exit_number unused = 251658240
exit_number invalid = 2 ^ 64 - 1
exit_number busy = 2 ^ 64 - 2
exit_number idle_required = 2 ^ 64 - 3
exit_number invalid_pmc = 2 ^ 64 - 4
exit_number qemu_invalid = 4294967295
