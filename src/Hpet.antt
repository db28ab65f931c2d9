-- ===== src/Hpet.antt =====
-- drivers/src/timer/hpet.rs, with the constants and errors of drivers/src/timer/mod.rs: the HPET and its
-- timers. A register keeps what is written, except that a write to the interrupt status clears
-- the digits that it sets. The locks are taken for the time of one call, and are left out.
pub mod Timer
pub mod Cycles
pub mod Configure
use funderberker.Common.{
  ℕ, zero, suc, ◌+◌, ◌-◌, ◌*◌, ◌/◌, ◌%◌, ◌^◌, ◌<◌, Bool, true, false, not, ◌&&◌, Option, none, some,
  List, [], ◌∷◌, ◌==◌, ltb, leb, if◌then◌else◌, bit_and, Outcome, ok, err, panic, ◌>>=◌, ◌>>◌,
  assert, reject, map_err,
}
use funderberker.Bits.{bit_not}
use funderberker.Bitfield.{Bitfield}
use funderberker.Id.Tracker.{IdTracker}
use funderberker.Id.Tracker
use funderberker.Interrupts.{Platform}

pub data TimerError : Type 0 where
  invalid_time_period no_timer_available unsupported_timer_mode : TimerError
  invalid_timer_flags idt_error irq_error : TimerError

pub data InterruptRoutingMode : Type 0 where
  normal legacy : InterruptRoutingMode

-- `int_routing_mode as u8`
abbrev pub routing_bits : InterruptRoutingMode → ℕ
routing_bits normal = 0
routing_bits legacy = 1

pub record GeneralCapabilities : Type 0 where
  pub rev_id : ℕ
  pub num_tim_cap : ℕ
  pub count_size_cap : ℕ
  pub reserved : ℕ
  pub leg_route_cap : ℕ
  pub vendor_id : ℕ
  pub counter_clock_period : ℕ

-- The widths that the struct declares
pub record CapabilitiesFit (c : GeneralCapabilities) : Type 0 where
  pub rev_id_lt : c.rev_id < 2 ^ 8
  pub num_tim_cap_lt : c.num_tim_cap < 2 ^ 5
  pub count_size_cap_lt : c.count_size_cap < 2 ^ 1
  pub reserved_lt : c.reserved < 2 ^ 1
  pub leg_route_cap_lt : c.leg_route_cap < 2 ^ 1
  pub vendor_id_lt : c.vendor_id < 2 ^ 16
  pub counter_clock_period_lt : c.counter_clock_period < 2 ^ 32

pub record GeneralConfiguration : Type 0 where
  pub enable : ℕ
  pub legacy_route : ℕ
  pub reserved1 : ℕ

pub record ConfigurationFits (c : GeneralConfiguration) : Type 0 where
  pub enable_lt : c.enable < 2 ^ 1
  pub legacy_route_lt : c.legacy_route < 2 ^ 1
  pub reserved1_lt : c.reserved1 < 2 ^ 62

pub record Hpet : Type 0 where
  pub main_clock_period : ℕ
  pub minimum_tick : ℕ
  pub timer_ids : IdTracker
  pub int_routing_mode : InterruptRoutingMode
  pub size_64_bits : Bool

-- The registers with all writes to them, the newest first, the static `HPET`, and the interrupts.
pub record Board : Type 0 where
  pub registers : ℕ → ℕ
  pub writes : List (ℕ × ℕ)
  pub hpet : Hpet
  pub platform : Platform

abbrev pub general_capabilities : ℕ
general_capabilities = 0

abbrev pub general_configuration : ℕ
general_configuration = 16

abbrev pub general_interrupt_status : ℕ
general_interrupt_status = 32

abbrev pub main_counter_value : ℕ
main_counter_value = 240

abbrev pub stored : (ℕ → ℕ) → ℕ → ℕ → ℕ → ℕ
stored registers offset value o =
    if o == offset
    then if offset == general_interrupt_status
      then bit_and (registers offset) (bit_not 64 value)
      else value
    else registers o

-- `area.write`
abbrev pub write_register : Board → ℕ → ℕ → Board
write_register b offset value = record b {
  registers = stored b.registers offset value;
  writes = (offset, value) ∷ b.writes;
}

abbrev pub nano_to_femtosec : ℕ
nano_to_femtosec = 1000000

-- `u128` arithmetic with its overflow checks
abbrev checked_u128 : {E : Type 0} → ℕ → Outcome E ℕ
checked_u128 n = if ltb n (2 ^ 128) then ok n else panic

-- The division by a period of zero panics. The time is its number of nanoseconds.
unfoldable pub time_to_cycles : {E : Type 0} → Hpet → ℕ → Outcome E ℕ
time_to_cycles h nanos = do
  time_femtosec ← checked_u128 (nanos * nano_to_femtosec)
  assert (not (h.main_clock_period == 0))
  let remainder = time_femtosec % h.main_clock_period
  adjusted_time ←
      if not (remainder == 0)
      then checked_u128 (time_femtosec + (h.main_clock_period - remainder))
      else ok time_femtosec
  ok (adjusted_time / h.main_clock_period % 2 ^ 64)

module _ (C : Bitfield GeneralCapabilities CapabilitiesFit) where
  abbrev pub capabilities : Board → GeneralCapabilities
  capabilities b = C.from (b.registers general_capabilities)

  -- `Hpet::new`, into the static
  unfoldable pub new : Board → ℕ → InterruptRoutingMode → Outcome TimerError Board
  unfolding Tracker.new
  new b minimum_tick int_routing_mode = do
    let c = capabilities b
    assert (not (c.rev_id == 0))
    assert (ltb c.counter_clock_period 100000000)
    assert (ltb c.num_tim_cap 32)
    timer_ids ← map_err (λ _. no_timer_available) (Tracker.new 0 c.num_tim_cap)
    ok (record b {
      hpet = record {
        main_clock_period = c.counter_clock_period;
        minimum_tick = minimum_tick;
        timer_ids = timer_ids;
        int_routing_mode = int_routing_mode;
        size_64_bits = c.count_size_cap == 1;
      };
    })

module _ (G : Bitfield GeneralConfiguration ConfigurationFits) where
  abbrev pub configuration : Board → GeneralConfiguration
  configuration b = G.from (b.registers general_configuration)

  -- `Hpet::set_disabled`
  unfoldable pub set_disabled : Board → Bool → Board
  set_disabled b state =
      write_register b general_configuration
        (G.into (record (configuration b) { enable = if state then 0 else 1 }))

  module _ (C : Bitfield GeneralCapabilities CapabilitiesFit) where
    unfoldable pub set_interrupt_routing : Board → InterruptRoutingMode → Outcome TimerError Board
    set_interrupt_routing b mode = do
      elim mode [ legacy ↦ assert ((capabilities C b).leg_route_cap == 1) | normal ↦ ok tt ]
      ok (
          write_register b general_configuration
            (G.into (record (configuration b) { legacy_route = routing_bits mode })))

    unfoldable pub init : Board → ℕ → InterruptRoutingMode → Outcome TimerError Board
    unfolding new set_disabled set_interrupt_routing
    init b minimum_tick mode = do
      b₁ ← new C b minimum_tick mode
      b₂ ← set_interrupt_routing (set_disabled b₁ true) mode
      ok (set_disabled (write_register b₂ main_counter_value 0) false)
