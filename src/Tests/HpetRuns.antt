-- ===== src/Tests/HpetRuns.antt =====
-- Runs of the HPET: a timer of a board whose counter stands at 1000 and ticks every ten nanoseconds.
use funderberker.Common.{
  ℕ, ◌*◌, ◌%◌, ◌^◌, ◌≡◌, refl, arith, true, List, [], ◌∷◌, get_or, Outcome, ok, ◌==◌, if◌then◌else◌,
}
use funderberker.Bitfield.{Bitfield}
use funderberker.Bitmap
use funderberker.Id.Tracker.{uninit}
use funderberker.Interrupts.{default}
use funderberker.Hpet.{Hpet, Board, TimerError, legacy, time_to_cycles}
use funderberker.Hpet.Timer.{
  HpetTimer, TimerConfiguration, TimerFits, one_shot, edge_triggered, interrupt, configure,
  config_delivery_mode, route,
}
use funderberker.Hpet.Cycles.{IsCeiling, time_to_cycles-IsCeiling}
use funderberker.Hpet.Configure.{Configured, configure-Configured}
use funderberker.Tests.Packing.{pack, unpack, AllFit, unpack-pack, pack_lt, unpack_lt}
use funderberker.Tests.IoApicRuns.{packed, one_device}

abbrev timer_widths : List ℕ
timer_widths = 1 ∷ 1 ∷ 1 ∷ 1 ∷ 1 ∷ 1 ∷ 1 ∷ 1 ∷ 1 ∷ 5 ∷ 1 ∷ 1 ∷ 16 ∷ 32 ∷ []

abbrev timer_fields : TimerConfiguration → List ℕ
timer_fields c =
    c.reserved0 ∷ c.int_type ∷ c.int_enable ∷ c.timer_type ∷ c.periodic_int_capable ∷ c.size_capable
    ∷ c.value_set ∷ c.reserved1 ∷ c.timer_32bit_mode ∷ c.int_route ∷ c.fsb_int_enable
    ∷ c.fsb_int_delivery ∷ c.reserved2 ∷ c.int_route_cap ∷ []

abbrev timer_of : List ℕ → TimerConfiguration
timer_of vs = record {
  reserved0 = get_or vs 0 0;
  int_type = get_or vs 1 0;
  int_enable = get_or vs 2 0;
  timer_type = get_or vs 3 0;
  periodic_int_capable = get_or vs 4 0;
  size_capable = get_or vs 5 0;
  value_set = get_or vs 6 0;
  reserved1 = get_or vs 7 0;
  timer_32bit_mode = get_or vs 8 0;
  int_route = get_or vs 9 0;
  fsb_int_enable = get_or vs 10 0;
  fsb_int_delivery = get_or vs 11 0;
  reserved2 = get_or vs 12 0;
  int_route_cap = get_or vs 13 0;
}

timer_fields_fit : (c : TimerConfiguration) → TimerFits c → AllFit timer_widths (timer_fields c)
timer_fields_fit c f = (
  f.reserved0_lt,
  (
    f.int_type_lt,
    (
      f.int_enable_lt,
      (
        f.timer_type_lt,
        (
          f.periodic_int_capable_lt,
          (
            f.size_capable_lt,
            (
              f.value_set_lt,
              (
                f.reserved1_lt,
                (
                  f.timer_32bit_mode_lt,
                  (
                    f.int_route_lt,
                    (
                      f.fsb_int_enable_lt,
                      (f.fsb_int_delivery_lt, (f.reserved2_lt, (f.int_route_cap_lt, tt))),
                    ),
                  ),
                ),
              ),
            ),
          ),
        ),
      ),
    ),
  ),
)

timer_of-TimerFits : (word : ℕ) → TimerFits (timer_of (unpack timer_widths word))
timer_of-TimerFits word = record {
  reserved0_lt = unpack_lt timer_widths word 0;
  int_type_lt = unpack_lt timer_widths word 1;
  int_enable_lt = unpack_lt timer_widths word 2;
  timer_type_lt = unpack_lt timer_widths word 3;
  periodic_int_capable_lt = unpack_lt timer_widths word 4;
  size_capable_lt = unpack_lt timer_widths word 5;
  value_set_lt = unpack_lt timer_widths word 6;
  reserved1_lt = unpack_lt timer_widths word 7;
  timer_32bit_mode_lt = unpack_lt timer_widths word 8;
  int_route_lt = unpack_lt timer_widths word 9;
  fsb_int_enable_lt = unpack_lt timer_widths word 10;
  fsb_int_delivery_lt = unpack_lt timer_widths word 11;
  reserved2_lt = unpack_lt timer_widths word 12;
  int_route_cap_lt = unpack_lt timer_widths word 13;
}

abbrev timer_packed : Bitfield TimerConfiguration TimerFits
timer_packed = record {
  from = λ word. timer_of (unpack timer_widths word);
  into = λ c. pack timer_widths (timer_fields c);
  from-Fits = timer_of-TimerFits;
  into_lt = λ c f. pack_lt timer_widths (timer_fields c) (timer_fields_fit c f);
  from-into = λ c f. rw (unpack-pack timer_widths (timer_fields c) (timer_fields_fit c f)) refl;
}

abbrev clock : Hpet
clock = record {
  main_clock_period = 10000000;
  minimum_tick = 0;
  timer_ids = uninit;
  int_routing_mode = legacy;
  size_64_bits = true;
}

-- The timers 0 and 2 have fired.
abbrev board : Board
board = record {
  registers = λ o. if o == 240 then 1000 else if o == 32 then 5 else 0;
  writes = [];
  hpet = clock;
  platform = record {
    idt = default ∷ [];
    io = record one_device { irq_allocator = record { bitmap = Bitmap.new 24; min = 0 } };
  };
}

abbrev first_timer : HpetTimer
first_timer = record { id = 0; size_64_bits = true }

time_to_cycles-IsCeiling_example :
    (c : ℕ) × (time_to_cycles {E = TimerError} clock 105 ≡ ok (c % 2 ^ 64))
    × IsCeiling (105 * 1000000) 10000000 c
time_to_cycles-IsCeiling_example =
    time_to_cycles-IsCeiling clock 105 (omega arith) (omega arith) (omega arith)

abbrev run : Outcome TimerError (ℕ × Board)
run =
    configure timer_packed packed 8 board first_timer 105 one_shot true
      (interrupt 1048576 edge_triggered)

abbrev board_after : Outcome TimerError (ℕ × Board) → Board
board_after (ok (cycles, b)) = b
board_after _ = board

run_ends : run ≡ ok (11, board_after run)
unfolding configure config_delivery_mode route Bitmap.new Bitmap.is_set Bitmap.div_ceil Bitmap.set
run_ends = refl

configure-Configured_example :
    (time_to_cycles {E = TimerError} clock 105 ≡ ok 11)
    × Configured timer_packed packed 8 board first_timer one_shot true edge_triggered 11
        (board_after run)
configure-Configured_example =
    configure-Configured timer_packed packed 8 board first_timer 105 one_shot true 1048576
      edge_triggered 11 (board_after run) run_ends
