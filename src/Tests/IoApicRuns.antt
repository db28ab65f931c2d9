-- ===== src/Tests/IoApicRuns.antt =====
-- Runs of the IO APIC, on a device with 24 interrupts whose registers are all zero.
use funderberker.Common.{
  ◌+◌, ◌<◌, ◌≤◌, ◌-◌, ℕ, ◌≡◌, refl, arith, List, [], ◌∷◌, get_or, if◌then◌else◌, ◌==◌,
}
use funderberker.Bitfield.{Bitfield}
use funderberker.Tests.Packing.{pack, unpack, AllFit, unpack-pack, pack_lt, unpack_lt}
use funderberker.Id.Tracker.{uninit}
use funderberker.Apic.IoApic.{
  IoApic, System, RedirectionEntry, Fits, covers, write_redirection_entry, get_high,
}
use funderberker.Apic.IoApic.{new, red_tbl_to_index}
use funderberker.Apic.IoApic.Bounds.{new-bounds}
use funderberker.Apic.IoApic.Registers.{write_redirection_entry-clobbers}

abbrev widths : List ℕ
widths = 8 ∷ 3 ∷ 1 ∷ 1 ∷ 1 ∷ 1 ∷ 1 ∷ 1 ∷ 39 ∷ 8 ∷ []

abbrev to_fields : RedirectionEntry → List ℕ
to_fields e =
    e.vector ∷ e.delivery_mode ∷ e.destination_mode ∷ e.delivery_status ∷ e.pin_polarity
    ∷ e.remote_irr ∷ e.trigger_mode ∷ e.mask ∷ e.reserved ∷ e.destination ∷ []

abbrev of_fields : List ℕ → RedirectionEntry
of_fields vs = record {
  vector = get_or vs 0 0;
  delivery_mode = get_or vs 1 0;
  destination_mode = get_or vs 2 0;
  delivery_status = get_or vs 3 0;
  pin_polarity = get_or vs 4 0;
  remote_irr = get_or vs 5 0;
  trigger_mode = get_or vs 6 0;
  mask = get_or vs 7 0;
  reserved = get_or vs 8 0;
  destination = get_or vs 9 0;
}

pub fields_fit : (e : RedirectionEntry) → Fits e → AllFit widths (to_fields e)
fields_fit e f = (
  f.vector_lt,
  (
    f.delivery_mode_lt,
    (
      f.destination_mode_lt,
      (
        f.delivery_status_lt,
        (
          f.pin_polarity_lt,
          (
            f.remote_irr_lt,
            (f.trigger_mode_lt, (f.mask_lt, (f.reserved_lt, (f.destination_lt, tt)))),
          ),
        ),
      ),
    ),
  ),
)

pub from_fits : (word : ℕ) → Fits (of_fields (unpack widths word))
from_fits word = record {
  vector_lt = unpack_lt widths word 0;
  delivery_mode_lt = unpack_lt widths word 1;
  destination_mode_lt = unpack_lt widths word 2;
  delivery_status_lt = unpack_lt widths word 3;
  pin_polarity_lt = unpack_lt widths word 4;
  remote_irr_lt = unpack_lt widths word 5;
  trigger_mode_lt = unpack_lt widths word 6;
  mask_lt = unpack_lt widths word 7;
  reserved_lt = unpack_lt widths word 8;
  destination_lt = unpack_lt widths word 9;
}

abbrev pub packed : Bitfield RedirectionEntry Fits
packed = record {
  from = λ word. of_fields (unpack widths word);
  into = λ e. pack widths (to_fields e);
  from-Fits = from_fits;
  into_lt = λ e f. pack_lt widths (to_fields e) (fields_fit e f);
  from-into = λ e f. rw (unpack-pack widths (to_fields e) (fields_fit e f)) refl;
}

abbrev pub zeroed : IoApic
zeroed = record { io_sel = 0; registers = λ index. 0; gsi_base = 0; gsi_count = 24; apic_id = 0 }

-- The timer's line 0 is overridden to the GSI 2.
abbrev pub one_device : System
one_device = record {
  io_apics = zeroed ∷ [];
  irq_overrides = record { irq = 0; gsi = 2 } ∷ [];
  irq_allocator = uninit;
}

abbrev some_entry : RedirectionEntry
some_entry = record {
  vector = 48;
  delivery_mode = 1;
  destination_mode = 0;
  delivery_status = 0;
  pin_polarity = 1;
  remote_irr = 0;
  trigger_mode = 1;
  mask = 0;
  reserved = 0;
  destination = 3;
}

some_entry-Fits : Fits some_entry
some_entry-Fits = record {
  vector_lt = omega arith;
  delivery_mode_lt = omega arith;
  destination_mode_lt = omega arith;
  delivery_status_lt = omega arith;
  pin_polarity_lt = omega arith;
  remote_irr_lt = omega arith;
  trigger_mode_lt = omega arith;
  mask_lt = omega arith;
  reserved_lt = omega arith;
  destination_lt = omega arith;
}

write_redirection_entry-clobbers_example :
    ((write_redirection_entry packed zeroed 20 some_entry).registers 21 ≡ 0)
    × ((write_redirection_entry packed zeroed 20 some_entry).registers 38
        ≡ get_high packed some_entry)
write_redirection_entry-clobbers_example =
    write_redirection_entry-clobbers packed zeroed 2 some_entry

-- The version register tells that the last interrupt is 23.
abbrev versioned : ℕ → ℕ
versioned index = if index == 1 then 1507345 else 0

abbrev accepted : IoApic
accepted = record { io_sel = 1; registers = versioned; gsi_base = 24; gsi_count = 24; apic_id = 2 }

new-bounds_example :
    (2 ≤ accepted.gsi_count)
    × (accepted.gsi_count ≤ 256)
    × (accepted.gsi_base ≡ 24)
    × (30 - 24 < accepted.gsi_count)
    × (red_tbl_to_index (30 - 24) + red_tbl_to_index 1 ≤ 544)
unfolding new covers
new-bounds_example = new-bounds versioned 0 24 2 30 accepted refl refl
