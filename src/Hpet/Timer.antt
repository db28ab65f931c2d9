-- ===== src/Hpet/Timer.antt =====
-- drivers/src/timer/hpet.rs: `HpetTimer`.
use funderberker.Common.{
  ℕ, zero, suc, ◌+◌, ◌*◌, ◌^◌, ◌<◌, Bool, true, false, not, ◌&&◌, ◌==◌, ltb, if◌then◌else◌, bit_and,
  Outcome, ok, err, panic, ◌>>=◌, ◌>>◌, assert, reject, map_err, unwrap,
}
use funderberker.Bitfield.{Bitfield}
use funderberker.Id.Tracker
use funderberker.Apic.IoApic.{System, RedirectionEntry, Fits, allocate_irq_at, gsi_to_irq}
use funderberker.Interrupts.{register_irq}
use funderberker.Hpet.{
  TimerError, no_timer_available, unsupported_timer_mode, invalid_timer_flags, irq_error, normal,
  legacy, Board, general_interrupt_status, main_counter_value, write_register, time_to_cycles,
}

pub data TriggerMode : Type 0 where
  edge_triggered level_triggered : TriggerMode

abbrev pub trigger_bits : TriggerMode → ℕ
trigger_bits edge_triggered = 0
trigger_bits level_triggered = 1

pub data TimerMode : Type 0 where
  one_shot periodic : TimerMode

abbrev pub mode_bits : TimerMode → ℕ
mode_bits one_shot = 0
mode_bits periodic = 1

abbrev pub is_periodic : TimerMode → Bool
is_periodic periodic = true
is_periodic one_shot = false

-- An interrupt with the address of its stub, or a message, as its word
pub data DeliveryMode : Type 0 where
  interrupt : ℕ → TriggerMode → DeliveryMode
  fsb : ℕ → DeliveryMode

pub record TimerConfiguration : Type 0 where
  pub reserved0 : ℕ
  pub int_type : ℕ
  pub int_enable : ℕ
  pub timer_type : ℕ
  pub periodic_int_capable : ℕ
  pub size_capable : ℕ
  pub value_set : ℕ
  pub reserved1 : ℕ
  pub timer_32bit_mode : ℕ
  pub int_route : ℕ
  pub fsb_int_enable : ℕ
  pub fsb_int_delivery : ℕ
  pub reserved2 : ℕ
  pub int_route_cap : ℕ

-- The widths that the struct declares
pub record TimerFits (c : TimerConfiguration) : Type 0 where
  pub reserved0_lt : c.reserved0 < 2 ^ 1
  pub int_type_lt : c.int_type < 2 ^ 1
  pub int_enable_lt : c.int_enable < 2 ^ 1
  pub timer_type_lt : c.timer_type < 2 ^ 1
  pub periodic_int_capable_lt : c.periodic_int_capable < 2 ^ 1
  pub size_capable_lt : c.size_capable < 2 ^ 1
  pub value_set_lt : c.value_set < 2 ^ 1
  pub reserved1_lt : c.reserved1 < 2 ^ 1
  pub timer_32bit_mode_lt : c.timer_32bit_mode < 2 ^ 1
  pub int_route_lt : c.int_route < 2 ^ 5
  pub fsb_int_enable_lt : c.fsb_int_enable < 2 ^ 1
  pub fsb_int_delivery_lt : c.fsb_int_delivery < 2 ^ 1
  pub reserved2_lt : c.reserved2 < 2 ^ 16
  pub int_route_cap_lt : c.int_route_cap < 2 ^ 32

pub record HpetTimer : Type 0 where
  pub id : ℕ
  pub size_64_bits : Bool

-- An identifier of a timer is below 32, so the offsets do not overflow.
abbrev pub config_reg_offset : HpetTimer → ℕ
config_reg_offset t = 256 + 32 * t.id

abbrev pub comparator_reg_offset : HpetTimer → ℕ
comparator_reg_offset t = 264 + 32 * t.id

abbrev pub fsb_interrupt_route_reg_offset : HpetTimer → ℕ
fsb_interrupt_route_reg_offset t = 272 + 32 * t.id

abbrev pub pit_irq : ℕ
pit_irq = 0

abbrev pub rtc_irq : ℕ
rtc_irq = 8

-- `(0..32).find(..)`, `n` rounds before its end: the first legal line that can be allocated
unfoldable pub find_gsi : ℕ → ℕ → ℕ → System → Outcome TimerError (ℕ × System)
unfolding allocate_irq_at
find_gsi zero i gsi_bitmap s = err irq_error
find_gsi (suc n) i gsi_bitmap s =
    let rest = find_gsi n (i + 1) gsi_bitmap s in
    if bit_and gsi_bitmap (2 ^ i) == 0
    then rest
    else elim (allocate_irq_at s i) [ ok s' ↦ ok (i, s') | err _ ↦ rest | panic ↦ panic ]

-- The line of a timer, from the routing mode
unfoldable pub route : Board → HpetTimer → TimerConfiguration → Outcome TimerError (ℕ × System)
unfolding find_gsi allocate_irq_at gsi_to_irq
route b t config =
    let own = λ (irq : ℕ). map_err (λ _. irq_error) (allocate_irq_at b.platform.io irq) in
    let any = find_gsi 32 0 config.int_route_cap b.platform.io in
    elim b.hpet.int_routing_mode [
      | legacy ↦
          if t.id == 0
          then (do s ← own pit_irq; ok (pit_irq, s))
          else if t.id == 1
          then (do s ← own rtc_irq; ok (rtc_irq, s))
          else (do (gsi, s) ← any; ok (gsi_to_irq s gsi, s))
      | normal ↦ do (gsi, s) ← any; ok (gsi_to_irq s gsi, s)
    ]

module _ (R : Bitfield RedirectionEntry Fits) (cs : ℕ) where
  -- The `&mut config` is passed on.
  unfoldable pub config_delivery_mode :
      Board
      → HpetTimer
      → TimerConfiguration
      → DeliveryMode
      → Outcome TimerError (TimerConfiguration × Board)
  unfolding route register_irq
  config_delivery_mode b t config (fsb fsb_info) = do
    reject (not (config.fsb_int_delivery == 1)) invalid_timer_flags
    ok (
      record config { fsb_int_enable = 1; int_type = trigger_bits edge_triggered },
      write_register b (fsb_interrupt_route_reg_offset t) fsb_info,
    )
  config_delivery_mode b t config (interrupt isr_stub int_type) = do
    (irq, io) ← route b t config
    platform ← register_irq R (record b.platform { io = io }) irq isr_stub cs
    ok (
      record config { fsb_int_enable = 0; int_type = trigger_bits int_type },
      record b { platform = platform },
    )

module _ (T : Bitfield TimerConfiguration TimerFits) where
  abbrev pub read_config : Board → HpetTimer → TimerConfiguration
  read_config b t = T.from (b.registers (config_reg_offset t))

  -- `HpetTimer::new`
  unfoldable pub new_timer : Board → Outcome TimerError (HpetTimer × Board)
  unfolding Tracker.allocate
  new_timer b = do
    (id, timer_ids) ← map_err (λ _. no_timer_available) (Tracker.allocate b.hpet.timer_ids)
    let b' = record b { hpet = record b.hpet { timer_ids = timer_ids } }
    let t : HpetTimer = record { id = id; size_64_bits = false }
    ok (record t { size_64_bits = (read_config b' t).size_capable == 1 }, b')

  -- `HpetTimer::set_disabled`
  unfoldable pub set_disabled : Board → HpetTimer → Bool → Board
  set_disabled b t state =
      write_register b (config_reg_offset t)
        (T.into (record (read_config b t) { int_enable = if state then 0 else 1 }))

  -- `custom_unlock`, when the guard of a timer is dropped
  unfoldable pub custom_unlock : Board → HpetTimer → Outcome TimerError Board
  unfolding set_disabled Tracker.free
  custom_unlock b t = do
    let b' = set_disabled b t true
    timer_ids ← unwrap (Tracker.free b'.hpet.timer_ids t.id)
    ok (record b' { hpet = record b'.hpet { timer_ids = timer_ids } })

  module _ (R : Bitfield RedirectionEntry Fits) (cs : ℕ) where
    -- The writes of `configure` after the delivery mode
    unfoldable pub start : Board → HpetTimer → TimerConfiguration → TimerMode → Bool → ℕ → ℕ → Board
    start b t config mode receive_interrupts cycles_delta target_cycles =
        let config = record config {
          timer_32bit_mode = 0;
          timer_type = mode_bits mode;
          int_enable = if receive_interrupts then 1 else 0;
        } in
        elim mode [
          | periodic ↦
              let b₁ =
                write_register b (config_reg_offset t) (T.into (record config { value_set = 1 })) in
              let b₂ = write_register b₁ (comparator_reg_offset t) target_cycles in
              write_register b₂ (comparator_reg_offset t) cycles_delta
          | one_shot ↦
              let b₁ = write_register b (config_reg_offset t) (T.into config) in
              write_register b₁ (comparator_reg_offset t) target_cycles
        ]

    unfoldable pub configure :
        Board → HpetTimer → ℕ → TimerMode → Bool → DeliveryMode → Outcome TimerError (ℕ × Board)
    unfolding time_to_cycles config_delivery_mode start
    configure b t nanos mode receive_interrupts delivery_mode = do
      let config = read_config b t
      reject (is_periodic mode && (config.periodic_int_capable == 0)) unsupported_timer_mode
      cycles_delta ← time_to_cycles b.hpet nanos
      let target_cycles = b.registers main_counter_value + cycles_delta
      assert (ltb target_cycles (2 ^ 64))
      (config', b') ← config_delivery_mode R cs b t config delivery_mode
      ok (cycles_delta, start b' t config' mode receive_interrupts cycles_delta target_cycles)

-- The digit of a timer in the interrupt status; it is cleared by writing it.
unfoldable pub get_status : Board → HpetTimer → Bool × Board
get_status b t =
    let read = bit_and (b.registers general_interrupt_status) (2 ^ t.id) in
    if not (read == 0) then (true, write_register b general_interrupt_status read) else (false, b)
