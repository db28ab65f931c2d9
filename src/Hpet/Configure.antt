-- ===== src/Hpet/Configure.antt =====
-- drivers/src/timer/hpet.rs: what `configure` writes.
use funderberker.Common.{
  ℕ, ◌+◌, ◌*◌, ◌^◌, ◌<◌, ◌≡◌, refl, sym, ◌∙◌, ap, arith, Bool, ◌&&◌, List, ◌∷◌, ◌==◌, ==_iff, ltb,
  if◌then◌else◌, reject, assert, ok, >>=-eq-ok,
}
use mathlib.Core.Path.{subst₂}
use funderberker.Bitfield.{Bitfield}
use funderberker.Apic.IoApic.{RedirectionEntry, Fits}
use funderberker.Interrupts.{register_irq}
use funderberker.Hpet.{
  Board, TimerError, unsupported_timer_mode, time_to_cycles, main_counter_value,
}
use funderberker.Hpet.Timer.{
  HpetTimer, TimerConfiguration, TimerFits, TimerMode, one_shot, periodic, TriggerMode,
  edge_triggered, level_triggered, trigger_bits, mode_bits, interrupt, config_reg_offset,
  comparator_reg_offset, route, config_delivery_mode, read_config, start, configure, is_periodic,
}

-- An interrupt is set up by the kernel, and the registers of the HPET stay.
record Routed (b : Board) (config : TimerConfiguration) (kind : TriggerMode)
    (config' : TimerConfiguration) (b' : Board) : Type 0 where
  same_registers : b'.registers ≡ b.registers
  same_writes : b'.writes ≡ b.writes
  changed : config' ≡ record config { fsb_int_enable = 0; int_type = trigger_bits kind }

module _ (R : Bitfield RedirectionEntry Fits) (cs : ℕ) where
  config_delivery_mode-Routed :
      (b : Board) (t : HpetTimer) (config : TimerConfiguration) (stub : ℕ) (kind : TriggerMode)
      {config' : TimerConfiguration} {b' : Board}
      → config_delivery_mode R cs b t config (interrupt stub kind) ≡ ok (config', b')
      → Routed b config kind config' b'
  unfolding config_delivery_mode
  config_delivery_mode-Routed b t config stub kind {config'} {b'} h =
      let ((irq, io), routed, next) = >>=-eq-ok (route b t config) _ h in
      let (platform, registered, last) =
        >>=-eq-ok (register_irq R (record b.platform { io = io }) irq stub cs) _ next in
      let same : record b { platform = platform } ≡ b' = cc in
      let same' : record config { fsb_int_enable = 0; int_type = trigger_bits kind } ≡ config' =
        cc in
      record {
        same_registers = ap (λ (x : Board). x.registers) (sym same);
        same_writes = ap (λ (x : Board). x.writes) (sym same);
        changed = sym same';
      }

-- The configuration that `start` writes
abbrev pub final_config : TimerConfiguration → TimerMode → Bool → TimerConfiguration
final_config config mode receive_interrupts = record config {
  timer_32bit_mode = 0;
  timer_type = mode_bits mode;
  int_enable = if receive_interrupts then 1 else 0;
  value_set = elim mode [ periodic ↦ 1 | one_shot ↦ config.value_set ];
}

-- The writes for a mode, the newest first
abbrev pub mode_writes : HpetTimer → TimerMode → ℕ → ℕ → ℕ → List (ℕ × ℕ) → List (ℕ × ℕ)
mode_writes t one_shot word target delta before =
    (comparator_reg_offset t, target) ∷ (config_reg_offset t, word) ∷ before
mode_writes t periodic word target delta before =
    (comparator_reg_offset t, delta)
    ∷ (comparator_reg_offset t, target)
    ∷ (config_reg_offset t, word)
    ∷ before

module _ (T : Bitfield TimerConfiguration TimerFits) (R : Bitfield RedirectionEntry Fits)
    (cs : ℕ) where
  start_lem :
      (b : Board) (t : HpetTimer) (config : TimerConfiguration) (mode : TimerMode) (on : Bool)
      (delta target : ℕ)
      → let b' = start T R cs b t config mode on delta target in
        let word = T.into (final_config config mode on) in
        (b'.registers (config_reg_offset t) ≡ word)
        × (b'.writes ≡ mode_writes t mode word target delta b.writes)
  unfolding start
  start_lem b t config one_shot on delta target =
      (ground (arith, ==_iff (256 + 32 * t.id) (264 + 32 * t.id)), refl)
  start_lem b t config periodic on delta target =
      (ground (arith, ==_iff (256 + 32 * t.id) (264 + 32 * t.id)), refl)

  mode_bits_lt : (mode : TimerMode) → mode_bits mode < 2
  mode_bits_lt one_shot = omega arith
  mode_bits_lt periodic = omega arith

  trigger_bits_lt : (kind : TriggerMode) → trigger_bits kind < 2
  trigger_bits_lt edge_triggered = omega arith
  trigger_bits_lt level_triggered = omega arith

  final_config-TimerFits :
      (c : TimerConfiguration) (kind : TriggerMode) (mode : TimerMode) (on : Bool)
      → TimerFits c
      → TimerFits
          (final_config (record c { fsb_int_enable = 0; int_type = trigger_bits kind }) mode on)
  final_config-TimerFits c kind mode on f = record {
    reserved0_lt = f.reserved0_lt;
    int_type_lt = trigger_bits_lt kind;
    int_enable_lt = ground arith;
    timer_type_lt = mode_bits_lt mode;
    periodic_int_capable_lt = f.periodic_int_capable_lt;
    size_capable_lt = f.size_capable_lt;
    value_set_lt = value_lt mode;
    reserved1_lt = f.reserved1_lt;
    timer_32bit_mode_lt = omega arith;
    int_route_lt = f.int_route_lt;
    fsb_int_enable_lt = omega arith;
    fsb_int_delivery_lt = f.fsb_int_delivery_lt;
    reserved2_lt = f.reserved2_lt;
    int_route_cap_lt = f.int_route_cap_lt;
  }
    where
      value_lt :
          (mode : TimerMode) → elim mode as (λ _. ℕ) [ periodic ↦ 1 | one_shot ↦ c.value_set ] < 2
      value_lt one_shot = f.value_set_lt
      value_lt periodic = omega arith

  -- A timer that was configured for interrupts: the configuration that is read back is the one that was
  -- there, with the mode and the kind and receipt of interrupts as asked, and the other changes
  -- that the mode needs. It was written before the comparator, which gets the counter plus
  -- the cycles, and for a periodic timer then the cycles.
  pub record Configured (b : Board) (t : HpetTimer) (mode : TimerMode) (on : Bool)
      (kind : TriggerMode) (cycles : ℕ) (b' : Board) : Type 0 where
    pub config :
        read_config T b' t
        ≡ final_config
            (record (read_config T b t) { fsb_int_enable = 0; int_type = trigger_bits kind })
            mode
            on
    pub route_kept : (read_config T b' t).int_route ≡ (read_config T b t).int_route
    pub ordered :
        b'.writes
        ≡ mode_writes t mode
            (b'.registers (config_reg_offset t))
            (b.registers main_counter_value + cycles)
            cycles
            b.writes

  start-Configured :
      (b b₁ : Board) (t : HpetTimer) (c' : TimerConfiguration) (mode : TimerMode) (on : Bool)
      (kind : TriggerMode) (delta : ℕ)
      → Routed b (read_config T b t) kind c' b₁
      → Configured b t mode on kind delta
          (start T R cs b₁ t c' mode on delta (b.registers main_counter_value + delta))
  start-Configured b b₁ t c' mode on kind delta r =
      let c = read_config T b t in
      let f =
        final_config (record c { fsb_int_enable = 0; int_type = trigger_bits kind }) mode on in
      let target = b.registers main_counter_value + delta in
      let (stored_, written) = start_lem b₁ t c' mode on delta target in
      let same : final_config c' mode on ≡ f =
        ap (λ (x : TimerConfiguration). final_config x mode on) r.changed in
      let fits : TimerFits f =
        final_config-TimerFits c kind mode on (T.from-Fits (b.registers (config_reg_offset t))) in
      let back : read_config T (start T R cs b₁ t c' mode on delta target) t ≡ f =
        ap T.from (stored_ ∙ ap T.into same) ∙ T.from-into f fits in
      record {
        config = back;
        route_kept = ap (λ (x : TimerConfiguration). x.int_route) back;
        ordered = written ∙ rw (stored_, r.same_writes) refl;
      }

  -- Configuring a timer for interrupts, if it succeeds, gives the cycles of the time, and writes the
  -- configuration and the comparator as asked. The route of the interrupt in the configuration is
  -- what it was, whatever line was allocated.
  pub configure-Configured :
      (b : Board) (t : HpetTimer) (nanos : ℕ) (mode : TimerMode) (on : Bool) (stub : ℕ)
      (kind : TriggerMode) (cycles : ℕ) (b' : Board)
      → configure T R cs b t nanos mode on (interrupt stub kind) ≡ ok (cycles, b')
      → (time_to_cycles {E = TimerError} b.hpet nanos ≡ ok cycles)
        × Configured b t mode on kind cycles b'
  unfolding configure
  configure-Configured b t nanos mode on stub kind cycles b' h =
      let c = read_config T b t in
      let (_, _, h₁) =
        >>=-eq-ok
          (reject (is_periodic mode && (c.periodic_int_capable == 0)) unsupported_timer_mode) _ h in
      let (delta, timed, h₂) = >>=-eq-ok (time_to_cycles b.hpet nanos) _ h₁ in
      let (_, _, h₃) =
        >>=-eq-ok (assert (ltb (b.registers main_counter_value + delta) (2 ^ 64))) _ h₂ in
      let ((c', b₁), routed, h₄) =
        >>=-eq-ok (config_delivery_mode R cs b t c (interrupt stub kind)) _ h₃ in
      let r = config_delivery_mode-Routed R cs b t c stub kind routed in
      let target = b.registers main_counter_value + delta in
      let e : delta ≡ cycles = cc in
      let e' : start T R cs b₁ t c' mode on delta target ≡ b' = cc in
      let made : Configured b t mode on kind delta (start T R cs b₁ t c' mode on delta target) =
        start-Configured b b₁ t c' mode on kind delta r in
      (rw e at timed, subst₂ (λ d x. Configured b t mode on kind d x) e e' made)
