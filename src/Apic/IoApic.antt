-- ===== src/Apic/IoApic.antt =====
-- kernel/src/arch/x86_64/apic/ioapic.rs, with `DeliveryMode` and `Destination::PHYSICAL_MODE` of
-- kernel/src/arch/x86_64/apic/mod.rs: the IO APICs of the system. The registers behind the window of a
-- device are a function of their index, and keep what is written. The spin locks around the
-- devices are taken for the time of one call, and are left out.
pub mod Registers
pub mod Routes
pub mod Mapping
pub mod Bounds
use funderberker.Common.{
  ℕ, zero, suc, ◌+◌, ◌-◌, ◌*◌, ◌/◌, ◌%◌, ◌^◌, ◌<◌, Bool, true, false, Option, none, some, List, [],
  ◌∷◌, ◌++◌, ◌==◌, ltb, leb, if◌then◌else◌, bit_and, bit_or, set, Outcome, ok, err, panic, ◌>>=◌,
  ◌>>◌, assert, ok_or, unwrap_option, add_usize, sub_usize, unwrap,
}
use funderberker.Bitfield.{Bitfield}
use funderberker.Id.Tracker.{IdTracker, IdTrackerError}
use funderberker.Id.Tracker

pub data IoApicError : Type 0 where
  invalid_gsi idt_error : IoApicError

pub record IrqOverride : Type 0 where
  pub irq : ℕ
  pub gsi : ℕ

pub data DeliveryMode : Type 0 where
  fixed lowest_priority smi nmi init start_up ext_int : DeliveryMode

-- `delivery_mode as u8`
abbrev pub delivery_bits : DeliveryMode → ℕ
delivery_bits fixed = 0
delivery_bits lowest_priority = 1
delivery_bits smi = 2
delivery_bits nmi = 4
delivery_bits init = 5
delivery_bits start_up = 6
delivery_bits ext_int = 7

abbrev pub physical_mode : ℕ
physical_mode = 0

pub record RedirectionEntry : Type 0 where
  pub vector : ℕ
  pub delivery_mode : ℕ
  pub destination_mode : ℕ
  pub delivery_status : ℕ
  pub pin_polarity : ℕ
  pub remote_irr : ℕ
  pub trigger_mode : ℕ
  pub mask : ℕ
  pub reserved : ℕ
  pub destination : ℕ

-- The fields have the widths that the struct declares.
pub record Fits (e : RedirectionEntry) : Type 0 where
  pub vector_lt : e.vector < 2 ^ 8
  pub delivery_mode_lt : e.delivery_mode < 2 ^ 3
  pub destination_mode_lt : e.destination_mode < 2 ^ 1
  pub delivery_status_lt : e.delivery_status < 2 ^ 1
  pub pin_polarity_lt : e.pin_polarity < 2 ^ 1
  pub remote_irr_lt : e.remote_irr < 2 ^ 1
  pub trigger_mode_lt : e.trigger_mode < 2 ^ 1
  pub mask_lt : e.mask < 2 ^ 1
  pub reserved_lt : e.reserved < 2 ^ 39
  pub destination_lt : e.destination < 2 ^ 8

-- The device, with the index in its select register, and what the kernel keeps of it.
pub record IoApic : Type 0 where
  pub io_sel : ℕ
  pub registers : ℕ → ℕ
  pub gsi_base : ℕ
  pub gsi_count : ℕ
  pub apic_id : ℕ

-- The statics `IO_APICS`, `IRQ_OVERRIDES` and `IRQ_ALLOCATOR`
pub record System : Type 0 where
  pub io_apics : List IoApic
  pub irq_overrides : List IrqOverride
  pub irq_allocator : IdTracker

abbrev pub apic_version : ℕ
apic_version = 1

abbrev pub apic_redirection_table_base : ℕ
apic_redirection_table_base = 16

-- An index is below 256 here, and the product and the sum are words of 32 bits.
abbrev pub red_tbl_to_index : ℕ → ℕ
red_tbl_to_index irq_index = irq_index * 2 + apic_redirection_table_base

-- `io_sel.write`
abbrev pub select : IoApic → ℕ → IoApic
select io index = record io { io_sel = index }

-- `io_win.read`
abbrev pub window : IoApic → ℕ
window io = io.registers io.io_sel

-- `io_win.write`
abbrev pub write_window : IoApic → ℕ → IoApic
write_window io value = record io {
  registers = λ index. if index == io.io_sel then value else io.registers index;
}

-- `IoApic::new` of a device that is mapped: the version register tells how many interrupts it has.
unfoldable pub new : (ℕ → ℕ) → ℕ → ℕ → ℕ → Outcome IoApicError IoApic
new registers io_sel gsi_base apic_id =
    let selected =
      select
        (record {
          io_sel = io_sel;
          registers = registers;
          gsi_base = gsi_base;
          gsi_count = 0;
          apic_id = apic_id;
        })
        apic_version in
    let max_gsi = bit_and (window selected / 2 ^ 16) 255 in
    do
      assert (ltb 0 max_gsi)
      assert (ltb max_gsi 256)
      ok (record selected { gsi_count = max_gsi + 1 })

-- `ioapics.push` in `add`, of the new device
unfoldable pub add : System → (ℕ → ℕ) → ℕ → ℕ → ℕ → Outcome IoApicError System
unfolding new
add s registers io_sel gsi_base apic_id = do
  io ← new registers io_sel gsi_base apic_id
  ok (record s { io_apics = s.io_apics ++ io ∷ [] })

-- Addition of `u32` with its overflow check
abbrev pub add_u32 : {E : Type 0} → ℕ → ℕ → Outcome E ℕ
add_u32 a b = if ltb (a + b) (2 ^ 32) then ok (a + b) else panic

-- The test of the searches for the IO APIC of a GSI. The sum is computed only behind the first half.
unfoldable pub covers : {E : Type 0} → ℕ → IoApic → Outcome E Bool
covers gsi io =
    if leb io.gsi_base gsi
    then (do end ← add_u32 io.gsi_base io.gsi_count; ok (ltb gsi end))
    else ok false

-- `.find(..)`, with the index of the device that is found
unfoldable pub find_from : {E : Type 0} → ℕ → ℕ → List IoApic → Outcome E (Option (ℕ × IoApic))
unfolding covers
find_from gsi i [] = ok none
find_from gsi i (io ∷ rest) = do
  hit ← covers gsi io
  elim hit [ true ↦ ok (some (i, io)) | false ↦ find_from gsi (i + 1) rest ]

unfoldable pub find_override : (IrqOverride → Bool) → List IrqOverride → Option IrqOverride
find_override test [] = none
find_override test (o ∷ rest) = if test o then some o else find_override test rest

abbrev pub map_or : {A B : Type 0} → Option A → B → (A → B) → B
map_or none default f = default
map_or (some a) default f = f a

-- The identity mapping gives `gsi as u8`.
unfoldable pub gsi_to_irq : System → ℕ → ℕ
unfolding find_override
gsi_to_irq s gsi =
    map_or (find_override (λ o. o.gsi == gsi) s.irq_overrides) (gsi % 2 ^ 8) (λ o. o.irq)

unfoldable pub irq_to_gsi : System → ℕ → ℕ
unfolding find_override
irq_to_gsi s irq = map_or (find_override (λ o. o.irq == irq) s.irq_overrides) irq (λ o. o.gsi)

abbrev pub sum_gsi_counts : List IoApic → ℕ
sum_gsi_counts [] = 0
sum_gsi_counts (io ∷ rest) = io.gsi_count + sum_gsi_counts rest

unfoldable pub init_irq_allocator : System → Outcome IdTrackerError System
unfolding Tracker.new
init_irq_allocator s = do
  last ← sub_usize (sum_gsi_counts s.io_apics) 1
  tracker ← Tracker.new 0 last
  ok (record s { irq_allocator = tracker })

unfoldable pub allocate_irq_at : System → ℕ → Outcome IdTrackerError System
unfolding Tracker.allocate_at
allocate_irq_at s irq = do
  tracker ← Tracker.allocate_at s.irq_allocator irq
  ok (record s { irq_allocator = tracker })

module _ (B : Bitfield RedirectionEntry Fits) where
  abbrev pub get_low : RedirectionEntry → ℕ
  get_low e = bit_and (B.into e) 4294967295

  abbrev pub get_high : RedirectionEntry → ℕ
  get_high e = bit_and (B.into e / 2 ^ 32) 4294967295

  -- The word is put together from the registers `offset` and `offset + red_tbl_to_index(1)`.
  unfoldable pub read_redirection_entry : IoApic → ℕ → RedirectionEntry × IoApic
  read_redirection_entry io offset =
      let at_low = select io offset in
      let low = window at_low in
      let at_high = select at_low (offset + red_tbl_to_index 1) in
      (B.from (bit_or low (window at_high * 2 ^ 32)), at_high)

  unfoldable pub write_redirection_entry : IoApic → ℕ → RedirectionEntry → IoApic
  write_redirection_entry io offset entry =
      let at_low = write_window (select io offset) (get_low entry) in
      write_window (select at_low (offset + red_tbl_to_index 1)) (get_high entry)

  -- The device of a GSI, with the entry of the GSI read, changed and written back
  unfoldable pub change_entry :
      System → ℕ → (IoApic → RedirectionEntry → RedirectionEntry) → Outcome IoApicError System
  unfolding find_from read_redirection_entry write_redirection_entry
  change_entry s gsi change = do
    found ← find_from gsi 0 s.io_apics
    (i, io) ← ok_or found invalid_gsi
    let offset = red_tbl_to_index (gsi - io.gsi_base)
    let (entry, io') = read_redirection_entry io offset
    ok (record s {
      io_apics = set s.io_apics i (write_redirection_entry io' offset (change io entry));
    })

  unfoldable pub map_irq_to_vector : System → ℕ → ℕ → Outcome IoApicError System
  unfolding change_entry irq_to_gsi
  map_irq_to_vector s vector irq =
      change_entry s (irq_to_gsi s irq) (λ io e. record e { vector = vector; mask = 1 })

  unfoldable pub set_disabled : System → ℕ → Bool → Outcome IoApicError System
  unfolding change_entry irq_to_gsi
  set_disabled s irq status =
      change_entry s (irq_to_gsi s irq) (λ io e. record e { mask = if status then 1 else 0 })

  -- The search's `expect` panics where no device has the GSI.
  unfoldable pub override_irq :
      System → ℕ → ℕ → ℕ → Option DeliveryMode → Outcome IoApicError System
  unfolding change_entry
  override_irq s irq gsi flags delivery_mode = do
    s' ← unwrap {F = IoApicError} (
        change_entry s gsi (λ io e. record e {
          pin_polarity = bit_and flags 2 / 2;
          trigger_mode = bit_and flags 8 / 8;
          destination_mode = physical_mode;
          destination = io.apic_id;
          delivery_mode = map_or delivery_mode e.delivery_mode delivery_bits;
        }))
    ok (record s' { irq_overrides = s'.irq_overrides ++ record { irq = irq; gsi = gsi } ∷ [] })
