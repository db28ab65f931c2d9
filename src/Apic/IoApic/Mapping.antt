-- ===== src/Apic/IoApic/Mapping.antt =====
-- kernel/src/arch/x86_64/apic/ioapic.rs: `map_irq_to_vector`, `set_disabled` and the entry of an
-- interrupt line.
use funderberker.Common.{
  ℕ, suc, ◌+◌, ◌-◌, ◌^◌, ◌<◌, ◌≡◌, ◌≢◌, refl, ◌∙◌, ap, arith, Bool, true, false, ◌==◌, ==_iff,
  Option, some, List, [], ◌∷◌, get_or, get_or-set, length, set, if◌then◌else◌, Outcome, ok,
  >>=-eq-ok,
}
use funderberker.Bitfield.{Bitfield}
use funderberker.Apic.IoApic.{
  IoApic, System, IoApicError, RedirectionEntry, Fits, covers, find_from, irq_to_gsi,
  red_tbl_to_index, read_redirection_entry, write_redirection_entry, change_entry,
  map_irq_to_vector, set_disabled,
}
use funderberker.Apic.IoApic.Registers.{read_redirection_entry-write}

-- Two devices with the same interrupts
record SameRange (io io' : IoApic) : Type 0 where
  base : io'.gsi_base ≡ io.gsi_base
  count : io'.gsi_count ≡ io.gsi_count

covers_same :
    {E : Type 0} (gsi : ℕ) (io io' : IoApic)
    → SameRange io io'
    → covers {E = E} gsi io' ≡ covers gsi io
unfolding covers
covers_same gsi io io' same = rw (same.base, same.count) refl

-- The device that is found can be replaced by another, which is then found in its place.
abbrev Replaced : Type 0 → ℕ → ℕ → List IoApic → ℕ → IoApic → Type 0
Replaced E gsi k ios i io' =
    (j : ℕ) × (i ≡ k + j)
    × (j < length ios)
    × (find_from {E = E} gsi k (set ios j io') ≡ ok (some (i, io')))

-- The rest of a search behind the test of its first device
abbrev search_on :
    {E : Type 0} → ℕ → ℕ → IoApic → List IoApic → Bool → Outcome E (Option (ℕ × IoApic))
search_on gsi k x rest hit = elim hit [
  | true ↦ ok (some (k, x))
  | false ↦ find_from gsi (k + 1) rest
]

find_from-set :
    {E : Type 0} (gsi k : ℕ) (ios : List IoApic) (i : ℕ) (io io' : IoApic)
    → find_from {E = E} gsi k ios ≡ ok (some (i, io))
    → SameRange io io'
    → Replaced E gsi k ios i io'
unfolding find_from
find_from-set gsi k [] i io io' found same = cc
find_from-set {E} gsi k (x ∷ rest) i io io' found same =
    let (hit, at, next) = >>=-eq-ok (covers gsi x) (search_on gsi k x rest) found in
    at_first hit at next (λ next. find_from-set {E = E} gsi (k + 1) rest i io io' next same)
  where
    at_first :
        (hit : Bool)
        → covers {E = E} gsi x ≡ ok hit
        → search_on {E = E} gsi k x rest hit ≡ ok (some (i, io))
        → (find_from {E = E} gsi (k + 1) rest ≡ ok (some (i, io))
            → Replaced E gsi (k + 1) rest i io')
        → Replaced E gsi k (x ∷ rest) i io'
    at_first true at next later =
        let e : k ≡ i = cc in
        let e' : x ≡ io = cc in
        let at' : covers {E = E} gsi io' ≡ ok true = covers_same gsi io io' same ∙ rw e' at at in
        (0, omega arith, omega arith, rw (find_from, at', e) refl)
    at_first false at next later =
        let (j, place, lt, found') = later next in
        (suc j, omega arith, omega arith, rw (find_from, at) found')

module _ (B : Bitfield RedirectionEntry Fits) where
  -- The entry of a GSI on a device, as the driver reads it
  abbrev pub entry_of : IoApic → ℕ → RedirectionEntry
  entry_of io gsi = (read_redirection_entry B io (red_tbl_to_index (gsi - io.gsi_base))).0

  -- `s'` is `s`, except that the device `i`, which has the GSI, has another entry for it.
  pub record Changes (s : System) (gsi i : ℕ) (e : RedirectionEntry) (s' : System) : Type 0 where
    pub device : IoApic
    pub found : find_from {E = IoApicError} gsi 0 s'.io_apics ≡ ok (some (i, device))
    pub entry : entry_of device gsi ≡ e
    pub others : (j : ℕ) (d : IoApic) → j ≢ i → get_or s'.io_apics j d ≡ get_or s.io_apics j d
    pub same_overrides : s'.irq_overrides ≡ s.irq_overrides

  change_entry-Changes :
      (s : System) (gsi i : ℕ) (io : IoApic) (change : IoApic → RedirectionEntry → RedirectionEntry)
      → find_from {E = IoApicError} gsi 0 s.io_apics ≡ ok (some (i, io))
      → Fits (change io (entry_of io gsi))
      → (s' : System) × (change_entry B s gsi change ≡ ok s')
        × Changes s gsi i (change io (entry_of io gsi)) s'
  unfolding change_entry read_redirection_entry write_redirection_entry
  change_entry-Changes s gsi i io change found fits =
      let offset = red_tbl_to_index (gsi - io.gsi_base) in
      let e = change io (entry_of io gsi) in
      let io₁ = (read_redirection_entry B io offset).1 in
      let io' = write_redirection_entry B io₁ offset e in
      let (j, at, lt, found') =
        find_from-set {E = IoApicError} gsi 0 s.io_apics i io io' found
          (record { base = refl; count = refl }) in
      let place : j ≡ i = omega arith in
      (
        record s { io_apics = set s.io_apics i io' },
        rw (change_entry, found) refl,
        record {
          device = io';
          found = rw place at found';
          entry = (read_redirection_entry-write B io₁ offset e fits 0).0;
          others = λ k d apart.
              let away : i == k ≡ false = ground (arith, apart, ==_iff i k) in
              get_or-set s.io_apics i k io' d (omega arith) ∙ rw away refl;
          same_overrides = refl;
        },
      )

  entry_of-Fits : (io : IoApic) (gsi : ℕ) → Fits (entry_of io gsi)
  unfolding read_redirection_entry
  entry_of-Fits io gsi = B.from-Fits _

  masked-Fits :
      (e : RedirectionEntry) (vector : ℕ) (status : Bool)
      → Fits e
      → vector < 2 ^ 8
      → Fits (record e { vector = vector; mask = if status then 1 else 0 })
  masked-Fits e vector status fits lt = record {
    vector_lt = lt;
    delivery_mode_lt = fits.delivery_mode_lt;
    destination_mode_lt = fits.destination_mode_lt;
    delivery_status_lt = fits.delivery_status_lt;
    pin_polarity_lt = fits.pin_polarity_lt;
    remote_irr_lt = fits.remote_irr_lt;
    trigger_mode_lt = fits.trigger_mode_lt;
    mask_lt = ground arith;
    reserved_lt = fits.reserved_lt;
    destination_lt = fits.destination_lt;
  }

  -- The mask of the entry is set as asked for.
  pub set_disabled-Changes :
      (s : System) (irq : ℕ) (status : Bool) (i : ℕ) (io : IoApic)
      → find_from {E = IoApicError} (irq_to_gsi s irq) 0 s.io_apics ≡ ok (some (i, io))
      → (s' : System) × (set_disabled B s irq status ≡ ok s')
        × Changes s
            (irq_to_gsi s irq)
            i
            (record (entry_of io (irq_to_gsi s irq)) { mask = if status then 1 else 0 })
            s'
  unfolding set_disabled
  set_disabled-Changes s irq status i io found =
      let e = entry_of io (irq_to_gsi s irq) in
      let fits = entry_of-Fits io (irq_to_gsi s irq) in
      change_entry-Changes s (irq_to_gsi s irq) i io
        (λ io e. record e { mask = if status then 1 else 0 }) found
        (masked-Fits e e.vector status fits fits.vector_lt)

  -- The overrides decide the GSI of a line.
  pub irq_to_gsi_same :
      (s s' : System) (irq : ℕ)
      → s'.irq_overrides ≡ s.irq_overrides
      → irq_to_gsi s' irq ≡ irq_to_gsi s irq
  unfolding irq_to_gsi
  irq_to_gsi_same s s' irq same = rw same refl

  -- The entry of an interrupt line that a device has, after `map_irq_to_vector` and then
  -- `set_disabled`: it has the vector, the mask as asked for, and its other fields as before. The
  -- entries of other devices and the overrides stay.
  pub map_irq_to_vector-set_disabled :
      (s : System) (irq vector : ℕ) (status : Bool) (i : ℕ) (io : IoApic)
      → vector < 2 ^ 8
      → find_from {E = IoApicError} (irq_to_gsi s irq) 0 s.io_apics ≡ ok (some (i, io))
      → (s₁ : System) × (map_irq_to_vector B s vector irq ≡ ok s₁)
        × (s₂ : System) × (set_disabled B s₁ irq status ≡ ok s₂)
        × Changes s
            (irq_to_gsi s irq)
            i
            (record (entry_of io (irq_to_gsi s irq)) {
              vector = vector;
              mask = if status then 1 else 0;
            })
            s₂
  unfolding map_irq_to_vector set_disabled irq_to_gsi
  map_irq_to_vector-set_disabled s irq vector status i io lt found =
      let gsi = irq_to_gsi s irq in
      let change₁ =
        λ (io : IoApic) (e : RedirectionEntry). record e { vector = vector; mask = 1 } in
      let change₂ =
        λ (io : IoApic) (e : RedirectionEntry). record e { mask = if status then 1 else 0 } in
      let (s₁, mapped, c) =
        change_entry-Changes s gsi i io change₁ found
          (masked-Fits (entry_of io gsi) vector true (entry_of-Fits io gsi) lt) in
      let old = entry_of c.device gsi in
      let (s₂, set_, d) = change_entry-Changes s₁ gsi i c.device change₂ c.found (
        masked-Fits old old.vector status (entry_of-Fits c.device gsi)
          (entry_of-Fits c.device gsi).vector_lt) in
      let same_gsi = irq_to_gsi_same s s₁ irq c.same_overrides in
      (
        s₁,
        mapped,
        s₂,
        rw (set_disabled, same_gsi) set_,
        record {
          device = d.device;
          found = d.found;
          entry = d.entry ∙ ap (change₂ c.device) c.entry;
          others = λ j x apart. d.others j x apart ∙ c.others j x apart;
          same_overrides = d.same_overrides ∙ c.same_overrides;
        },
      )
