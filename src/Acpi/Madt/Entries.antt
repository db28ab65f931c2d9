-- ===== src/Acpi/Madt/Entries.antt =====
-- boot/src/acpi/madt.rs: the entries by what they say, and their bytes.
use funderberker.Common.{
  ℕ, zero, suc, ◌+◌, ◌-◌, ◌/◌, ◌%◌, ◌^◌, ◌<◌, ◌≡◌, ◌≢◌, refl, arith, List, [], ◌∷◌, ◌++◌, length,
  some, none, Outcome, ok, err, panic, ◌>>=◌, true, false, leb, ◌==◌,
}
use funderberker.Bitfield.{Bitfield, BitfieldOf}
use funderberker.Apic.IoApic.{System, RedirectionEntry, Fits, nmi}
use funderberker.Apic.IoApic
use funderberker.Apic.Lapic.{Lapics}
use funderberker.Apic.Lapic
use funderberker.Apic.Lapic.Registers.{LvtReg, LvtFits}
use funderberker.Acpi.{u8_at, u16_at, u32_at, u64_at}
use funderberker.Acpi.Madt.{
  Controllers, Iter, Environment, next, handle, parse_loop, with_lapics, with_io, drop,
}

-- What an entry of the table says. The entries that `parse` skips have a type and further bytes.
pub data Entry : Type 0 where
  local_apic : (acpi_processor_id apic_id flags : ℕ) → Entry
  io_apic : (io_apic_id io_apic_addr gsi_base : ℕ) → Entry
  io_apic_iso : (bus_source irq_source gsi flags : ℕ) → Entry
  io_apic_nmi_iso : (nmi_source flags gsi : ℕ) → Entry
  local_apic_nmi : (acpi_processor_id flags lint : ℕ) → Entry
  local_apic_addr_override : (local_apic_phys_addr : ℕ) → Entry
  processor_local_x2apic : (x2apic_id flags processor_acpi_id : ℕ) → Entry
  unknown : (entry_type : ℕ) (bytes : List ℕ) → Entry

-- The fields have their widths, and a type that is skipped is none of the others.
abbrev pub IsWellFormed : Entry → Type 0
IsWellFormed (local_apic p a f) = (p < 2 ^ 8) × (a < 2 ^ 8) × (f < 2 ^ 32)
IsWellFormed (io_apic i a g) = (i < 2 ^ 8) × (a < 2 ^ 32) × (g < 2 ^ 32)
IsWellFormed (io_apic_iso b i g f) = (b < 2 ^ 8) × (i < 2 ^ 8) × (g < 2 ^ 32) × (f < 2 ^ 16)
IsWellFormed (io_apic_nmi_iso n f g) = (n < 2 ^ 8) × (f < 2 ^ 16) × (g < 2 ^ 32)
IsWellFormed (local_apic_nmi p f l) = (p < 2 ^ 8) × (f < 2 ^ 16) × (l < 2 ^ 8)
IsWellFormed (local_apic_addr_override a) = a < 2 ^ 64
IsWellFormed (processor_local_x2apic x f p) = (x < 2 ^ 32) × (f < 2 ^ 32) × (p < 2 ^ 32)
IsWellFormed (unknown t bytes) = (5 < t) × (t ≢ 9) × (length bytes + 2 < 2 ^ 8)

-- Words as bytes, the lowest one first
abbrev bytes_16 : ℕ → List ℕ → List ℕ
bytes_16 n rest = n % 256 ∷ n / 256 ∷ rest

abbrev bytes_32 : ℕ → List ℕ → List ℕ
bytes_32 n rest = bytes_16 (n % 65536) (bytes_16 (n / 65536) rest)

abbrev bytes_64 : ℕ → List ℕ → List ℕ
bytes_64 n rest = bytes_32 (n % 4294967296) (bytes_32 (n / 4294967296) rest)

-- The packed struct of an entry, before the bytes that follow
abbrev pub encode : Entry → List ℕ → List ℕ
encode (local_apic p a f) rest = 0 ∷ 8 ∷ p ∷ a ∷ bytes_32 f rest
encode (io_apic i a g) rest = 1 ∷ 12 ∷ i ∷ 0 ∷ bytes_32 a (bytes_32 g rest)
encode (io_apic_iso b i g f) rest = 2 ∷ 10 ∷ b ∷ i ∷ bytes_32 g (bytes_16 f rest)
encode (io_apic_nmi_iso n f g) rest = 3 ∷ 10 ∷ n ∷ 0 ∷ bytes_16 f (bytes_32 g rest)
encode (local_apic_nmi p f l) rest = 4 ∷ 6 ∷ p ∷ bytes_16 f (l ∷ rest)
encode (local_apic_addr_override a) rest = 5 ∷ 12 ∷ 0 ∷ 0 ∷ bytes_64 a rest
encode (processor_local_x2apic x f p) rest =
    9 ∷ 16 ∷ 0 ∷ 0 ∷ bytes_32 x (bytes_32 f (bytes_32 p rest))
encode (unknown t bytes) rest = t ∷ (length bytes + 2) ∷ (bytes ++ rest)

abbrev pub size : Entry → ℕ
size (local_apic p a f) = 8
size (io_apic i a g) = 12
size (io_apic_iso b i g f) = 10
size (io_apic_nmi_iso n f g) = 10
size (local_apic_nmi p f l) = 6
size (local_apic_addr_override a) = 12
size (processor_local_x2apic x f p) = 16
size (unknown t bytes) = length bytes + 2

module _ (B : Bitfield RedirectionEntry Fits) (L : BitfieldOf 32 LvtReg LvtFits) (env : Environment)
    (local_apic_addr : ℕ) where
  -- What an entry asks for
  abbrev pub perform : {E : Type 0} → Controllers → Entry → Outcome E Controllers
  perform c (local_apic p a f) =
      with_lapics B L env local_apic_addr c (Lapic.add env.features c.lapics local_apic_addr p a f)
  perform c (io_apic i a g) =
      with_io B L env local_apic_addr c
        (IoApic.add c.io (env.io_apic_at a).0 (env.io_apic_at a).1 g i)
  perform c (io_apic_iso b i g f) =
      with_io B L env local_apic_addr c (IoApic.override_irq B c.io i g f none)
  perform c (io_apic_nmi_iso n f g) =
      with_io B L env local_apic_addr c (IoApic.override_irq B c.io n g f (some nmi))
  perform c (local_apic_nmi p f l) =
      with_lapics B L env local_apic_addr c (Lapic.config_lints L c.lapics p l f)
  perform c (local_apic_addr_override a) = ok (record c { lapics = Lapic.override_base c.lapics a })
  perform c (processor_local_x2apic x f p) =
      with_lapics B L env local_apic_addr c (Lapic.add env.features c.lapics local_apic_addr p x f)
  perform c (unknown t bytes) = ok c

  -- An entry of another type is skipped.
  pub handle_skips :
      {E : Type 0} (c : Controllers) (entry : List ℕ)
      → 5 < u8_at entry 0
      → u8_at entry 0 ≢ 9
      → handle B L env local_apic_addr {E = E} c entry ≡ ok c
  unfolding handle
  handle_skips c entry big other =
      let e₀ : u8_at entry 0 == 0 ≡ false = ground arith in
      let e₁ : u8_at entry 0 == 1 ≡ false = ground arith in
      let e₂ : u8_at entry 0 == 2 ≡ false = ground arith in
      let e₃ : u8_at entry 0 == 3 ≡ false = ground arith in
      let e₄ : u8_at entry 0 == 4 ≡ false = ground arith in
      let e₅ : u8_at entry 0 == 5 ≡ false = ground arith in
      let e₉ : u8_at entry 0 == 9 ≡ false = ground arith in
      rw (handle, e₀, e₁, e₂, e₃, e₄, e₅, e₉) refl

  handle-encode :
      {E : Type 0} (c : Controllers) (e : Entry) (rest : List ℕ)
      → IsWellFormed e
      → handle B L env local_apic_addr {E = E} c (encode e rest) ≡ perform c e
  unfolding handle
  handle-encode c (local_apic p a f) rest w =
      let e : u32_at (encode (local_apic p a f) rest) 4 ≡ f = omega arith in rw e refl
  handle-encode c (io_apic i a g) rest w =
      let e : u32_at (encode (io_apic i a g) rest) 4 ≡ a = omega arith in
      let e' : u32_at (encode (io_apic i a g) rest) 8 ≡ g = omega arith in rw (e, e') refl
  handle-encode c (io_apic_iso b i g f) rest w =
      let e : u32_at (encode (io_apic_iso b i g f) rest) 4 ≡ g = omega arith in
      let e' : u16_at (encode (io_apic_iso b i g f) rest) 8 ≡ f = omega arith in rw (e, e') refl
  handle-encode c (io_apic_nmi_iso n f g) rest w =
      let e : u32_at (encode (io_apic_nmi_iso n f g) rest) 6 ≡ g = omega arith in
      let e' : u16_at (encode (io_apic_nmi_iso n f g) rest) 4 ≡ f = omega arith in rw (e, e') refl
  handle-encode c (local_apic_nmi p f l) rest w =
      let e : u16_at (encode (local_apic_nmi p f l) rest) 3 ≡ f = omega arith in rw e refl
  handle-encode c (local_apic_addr_override a) rest w =
      let e : u64_at (encode (local_apic_addr_override a) rest) 4 ≡ a = omega arith in rw e refl
  handle-encode c (processor_local_x2apic x f p) rest w =
      let e : u32_at (encode (processor_local_x2apic x f p) rest) 4 ≡ x = omega arith in
      let e' : u32_at (encode (processor_local_x2apic x f p) rest) 8 ≡ f = omega arith in
      let e'' : u32_at (encode (processor_local_x2apic x f p) rest) 12 ≡ p = omega arith in
      rw (e, e', e'') refl
  handle-encode c (unknown t bytes) rest w = handle_skips c (encode (unknown t bytes) rest) w.0 w.1

-- The length byte of an entry is its size, and behind it stand the other bytes.
encode_size : (e : Entry) (rest : List ℕ) → u8_at (encode e rest) 1 ≡ size e
encode_size (local_apic p a f) rest = refl
encode_size (io_apic i a g) rest = refl
encode_size (io_apic_iso b i g f) rest = refl
encode_size (io_apic_nmi_iso n f g) rest = refl
encode_size (local_apic_nmi p f l) rest = refl
encode_size (local_apic_addr_override a) rest = refl
encode_size (processor_local_x2apic x f p) rest = refl
encode_size (unknown t bytes) rest = refl

drop-append : (xs rest : List ℕ) → drop (length xs) (xs ++ rest) ≡ rest
drop-append [] rest = refl
drop-append (x ∷ xs) rest = drop-append xs rest

drop-encode : (e : Entry) (rest : List ℕ) → drop (size e) (encode e rest) ≡ rest
drop-encode (local_apic p a f) rest = refl
drop-encode (io_apic i a g) rest = refl
drop-encode (io_apic_iso b i g f) rest = refl
drop-encode (io_apic_nmi_iso n f g) rest = refl
drop-encode (local_apic_nmi p f l) rest = refl
drop-encode (local_apic_addr_override a) rest = refl
drop-encode (processor_local_x2apic x f p) rest = refl
drop-encode (unknown t bytes) rest =
    let e : length bytes + 2 ≡ suc (suc (length bytes)) = omega arith in
    rw e (drop-append bytes rest)

size-pos : (e : Entry) → 0 < size e
size-pos (local_apic p a f) = omega arith
size-pos (io_apic i a g) = omega arith
size-pos (io_apic_iso b i g f) = omega arith
size-pos (io_apic_nmi_iso n f g) = omega arith
size-pos (local_apic_nmi p f l) = omega arith
size-pos (local_apic_addr_override a) = omega arith
size-pos (processor_local_x2apic x f p) = omega arith
size-pos (unknown t bytes) = omega arith

abbrev pub AllWellFormed : List Entry → Type 0
AllWellFormed [] = Unit {0}
AllWellFormed (e ∷ entries) = IsWellFormed e × AllWellFormed entries

-- The bytes of entries one behind the other, and then others
abbrev pub encode_all : List Entry → List ℕ → List ℕ
encode_all [] rest = rest
encode_all (e ∷ entries) rest = encode e (encode_all entries rest)

abbrev pub total_size : List Entry → ℕ
total_size [] = 0
total_size (e ∷ entries) = size e + total_size entries

module _ (B : Bitfield RedirectionEntry Fits) (L : BitfieldOf 32 LvtReg LvtFits) (env : Environment)
    (local_apic_addr : ℕ) where
  -- The entries are performed in order, up to the first that fails.
  abbrev pub perform_all : {E : Type 0} → List Entry → Controllers → Outcome E Controllers
  perform_all [] c = ok c
  perform_all (e ∷ entries) c = perform B L env local_apic_addr c e >>= λ c'. perform_all entries c'

  next-encode :
      {E : Type 0} (e : Entry) (rest : List ℕ) (left : ℕ)
      → next {E = E} (record { ptr = encode e rest; len = size e + left })
        ≡ ok (some (encode e rest, record { ptr = rest; len = left }))
  unfolding next
  next-encode {E} e rest left =
      let some_left : size e + left == 0 ≡ false = ground (arith, size-pos e) in
      let fits : leb (size e) (size e + left) ≡ true = ground arith in
      let others : size e + left - size e ≡ left = omega arith in
      rw (next, some_left, encode_size e rest, fits, drop-encode e rest, others) refl

  -- Over the bytes of well-formed entries, with any bytes behind them and more fuel than entries, the
  -- loop of `parse` ends, and has performed what the entries say in their order up to the first failure.
  pub parse_loop-encode_all :
      {E : Type 0} (entries : List Entry) (rest : List ℕ) (fuel : ℕ) (c : Controllers)
      → AllWellFormed entries
      → length entries < fuel
      → parse_loop B L env local_apic_addr {E = E} fuel
          (record { ptr = encode_all entries rest; len = total_size entries })
          c
        ≡ some (perform_all entries c)
  unfolding parse_loop next
  parse_loop-encode_all [] rest zero c w lt = absurd (omega arith)
  parse_loop-encode_all [] rest (suc fuel) c w lt = refl
  parse_loop-encode_all (e ∷ entries) rest zero c w lt = absurd (omega arith)
  parse_loop-encode_all {E} (e ∷ entries) rest (suc fuel) c w lt =
      rw
        (
          parse_loop,
          next-encode {E = E} e (encode_all entries rest) (total_size entries),
          handle-encode B L env local_apic_addr {E = E} c e (encode_all entries rest) w.0,
        )
        (performed (λ c'. parse_loop-encode_all {E = E} entries rest fuel c' w.1 (omega arith))
          (perform B L env local_apic_addr c e))
    where
      performed :
          ((c' : Controllers)
            → parse_loop B L env local_apic_addr {E = E} fuel
                (record { ptr = encode_all entries rest; len = total_size entries })
                c'
              ≡ some (perform_all entries c'))
          → (o : Outcome E Controllers)
          → (elim o [
            | panic ↦ some panic
            | err why ↦ some (err why)
            | ok c' ↦
                parse_loop B L env local_apic_addr fuel
                  (record { ptr = encode_all entries rest; len = total_size entries })
                  c'
          ])
            ≡ some (o >>= λ c'. perform_all entries c')
      performed rest_done panic = refl
      performed rest_done (err why) = refl
      performed rest_done (ok c') = rest_done c'

  -- At an entry whose length byte is 0 and whose type is above 9, so that it is skipped, and with bytes
  -- left, the loop never ends.
  pub parse_loop-stuck :
      {E : Type 0} (it : Iter) (c : Controllers)
      → it.len ≢ 0
      → 9 < u8_at it.ptr 0
      → u8_at it.ptr 1 ≡ 0
      → (fuel : ℕ) → parse_loop B L env local_apic_addr {E = E} fuel it c ≡ none
  unfolding parse_loop next
  parse_loop-stuck {E} it c more skipped empty zero = refl
  parse_loop-stuck {E} it c more skipped empty (suc fuel) =
      let left : it.len == 0 ≡ false = ground arith in
      let none_off : leb 0 it.len ≡ true = ground arith in
      let same : it.len - 0 ≡ it.len = omega arith in
      let again = parse_loop-stuck {E = E} it c more skipped empty fuel in
      rw
        (
          parse_loop,
          next,
          left,
          empty,
          none_off,
          handle_skips B L env local_apic_addr {E = E} c it.ptr (omega arith) (omega arith),
          same,
        )
        again
