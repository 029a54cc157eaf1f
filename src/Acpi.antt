-- ===== src/Acpi.antt =====
-- drivers/acpi: the firmware's tables. An object is the list of its bytes, from its address to the
-- end of what may be read.
pub mod Checksum
pub mod Records
mod Tests
use umbral_os.Base.{
  ℕ, zero, suc, ◌+◌, ◌-◌, ◌*◌, ◌/◌, ◌%◌, bit_and, Bool, true, false, ◌&&◌, Option, none, some, List,
  [], ◌∷◌, ◌++◌, length, replicate, drop, ltb, ◌==◌, ◌!=◌, if◌then◌else◌,
}
use umbral_os.Base.Int.{ℤ, pos, negsuc}
use umbral_os.Base.Word.{u8, u32, sub64, ◌<<◌}
use umbral_os.Base.Panics.{
  Panic, invalid_sdt, invalid_rsdp, invalid_xsdp, unknown_madt_struct, unknown_legacy_feature,
}
use umbral_os.Base.Action.{
  Action, pure, panic, panic_if, fault, no_end, gets, modify, or_fault, within, ◌>>=◌, ◌>>◌,
}
use umbral_os.Base.Text.{text}
use umbral_os.Base.Fields.{before, width_of}
use umbral_os.Common.Str.{strncmp}
use umbral_os.Common.Print.Format.{Printer}
use umbral_os.Mm.Vmm.{with_pmm}
use umbral_os.Mm.Pmm.{phy_to_virt}
use umbral_os.Pic.{Pic, with_vmm, on_cpu}
use umbral_os.Pic.Legacy.{legacy_pic_init_and_disable}
use umbral_os.Pic.Ioapic.{init_register, init_source_override, init_nmisource}
use umbral_os.Pic.Lapic.{lapic_init_begin, lapic_init_nmi}

-- `has_i8042`, beside the interrupt controllers.
pub record Acpi : Type 0 where
  pub pic : Pic
  pub has_i8042 : Bool

abbrev pub with_pic : {A : Type 0} → Action Pic A → Action Acpi A
with_pic = within (λ s. s.pic) (λ p s. record s { pic = p })

-- A field of `width` bytes, the lowest first.
abbrev pub little_endian : ℕ → List ℕ → Option ℕ
little_endian zero bytes = some 0
little_endian (suc width) [] = none
little_endian (suc width) (b ∷ bytes) = elim (little_endian width bytes) [
  | none ↦ none
  | some high ↦ some (b + 256 * high)
]

abbrev pub field : ℕ → ℕ → List ℕ → Action Acpi ℕ
field offset width bytes = or_fault (little_endian width (drop offset bytes))

-- The members of `struct SDTHeader`, by their widths in bytes.
abbrev pub sdt_header : List ℕ
sdt_header = 4 ∷ 4 ∷ 1 ∷ 1 ∷ 6 ∷ 8 ∷ 4 ∷ 4 ∷ 4 ∷ []

abbrev pub struct_member : (layout : List ℕ) (k : ℕ) → List ℕ → Action Acpi ℕ
struct_member layout k bytes = field (before layout k) (width_of layout k) bytes

-- The loop of the three checks.
pub sum_from : ℕ → List ℕ → ℕ → Option ℕ
sum_from zero bytes checksum = some checksum
sum_from (suc rounds) [] checksum = none
sum_from (suc rounds) (b ∷ bytes) checksum = sum_from rounds bytes (u8 (checksum + b))

unfoldable pub validate : (ℕ → Panic) → ℕ → List ℕ → Action Acpi (Unit {0})
validate p size bytes = do
  checksum ← or_fault (sum_from size bytes 0)
  panic_if (checksum != 0) (p checksum)

pub validate_sdt : List ℕ → Action Acpi (Unit {0})
validate_sdt bytes = do size ← field 4 4 bytes; validate invalid_sdt size bytes

-- The sizes of `struct RSDP` and `struct XSDP`.
abbrev pub rsdp_size : ℕ
rsdp_size = 20

abbrev pub xsdp_size : ℕ
xsdp_size = 36

-- The one feature of `enum AcpiLegacyFeature`.
abbrev pub legacy_feature_i8042 : ℕ
legacy_feature_i8042 = 0

pub acpi_has_legacy_feature : ℕ → Action Acpi Bool
acpi_has_legacy_feature feature =
    if feature == legacy_feature_i8042
    then gets (λ s. s.has_i8042)
    else panic (unknown_legacy_feature feature)

-- The members of `struct FADT`, by their widths in bytes: the header, those up to
-- BootArchitectureFlags, and those from Reserved2 on.
abbrev pub generic_address : ℕ
generic_address = 1 + 1 + 1 + 1 + 8

abbrev pub fadt_blocks : List ℕ
fadt_blocks = 4 ∷ 4 ∷ 1 ∷ 1 ∷ 2 ∷ 4 ∷ 1 ∷ 1 ∷ 1 ∷ 1 ∷ 4 ∷ 4 ∷ 4 ∷ 4 ∷ 4 ∷ 4 ∷ 4 ∷ 4 ∷ []

abbrev pub fadt_lengths : List ℕ
fadt_lengths = 1 ∷ 1 ∷ 1 ∷ 1 ∷ 1 ∷ 1 ∷ 1 ∷ 1 ∷ 2 ∷ 2 ∷ 2 ∷ 2 ∷ 1 ∷ 1 ∷ 1 ∷ 1 ∷ 1 ∷ []

abbrev pub fadt_flags : List ℕ
fadt_flags = 2 ∷ 1 ∷ 4 ∷ generic_address ∷ 1 ∷ 3 ∷ 8 ∷ 8 ∷ replicate 8 generic_address

abbrev pub fadt : List ℕ
fadt = sdt_header ++ (fadt_blocks ++ (fadt_lengths ++ fadt_flags))

abbrev pub boot_architecture_flags : ℕ
boot_architecture_flags = length sdt_header + length fadt_blocks + length fadt_lengths

abbrev pub hw_reduced_acpi : ℕ
hw_reduced_acpi = 1 << 20

abbrev pub iapc_boot_arch_8042 : ℕ
iapc_boot_arch_8042 = 1 << 1

abbrev pub set_i8042 : Bool → Action Acpi (Unit {0})
set_i8042 b = modify (λ s. record s { has_i8042 = b })

pub acpi_parse_fadt : Printer → List ℕ → Action Acpi (Unit {0})
acpi_parse_fadt kprint bytes = do
  flags ← struct_member fadt (boot_architecture_flags + 2) bytes
  (if bit_and flags hw_reduced_acpi != 0
      then (with_pic (on_cpu (kprint (text "ACPI Legacy Hardware not present") []))
          >> set_i8042 false)
      else pure tt)
  boot_flags ← struct_member fadt boot_architecture_flags bytes
  (if bit_and boot_flags iapc_boot_arch_8042 != 0
      then (with_pic (on_cpu (kprint (text "ACPI reports i8042 present") [])) >> set_i8042 true)
      else pure tt)

-- The cases of the switch in `acpi_parse_madt`, for a record at `offset`.
pub parse_record : List ℕ → ℕ → ℕ → Action Acpi (Unit {0})
parse_record bytes offset type_ =
    if type_ == 0
    then pure tt
    else if type_ == 1
    then (do
      address ← field (offset + 4) 4 bytes
      base ← field (offset + 8) 4 bytes
      with_pic (init_register (record { address = address; global_system_interrupt_base = base })))
    else if type_ == 2
    then (do
      bus ← field (offset + 2) 1 bytes
      irq ← field (offset + 3) 1 bytes
      gsi ← field (offset + 4) 4 bytes
      flags ← field (offset + 8) 2 bytes
      with_pic (
          init_source_override (record {
            bus_source = bus;
            irq_source = irq;
            global_system_interrupt = gsi;
            flags = flags;
          })))
    else if type_ == 3
    then (do
      flags ← field (offset + 2) 2 bytes
      gsi ← field (offset + 4) 4 bytes
      with_pic (init_nmisource (record { flags = flags; global_system_interrupt = gsi })))
    else if type_ == 4
    then (do
      processor_id ← field (offset + 2) 1 bytes
      flags ← field (offset + 3) 2 bytes
      lint ← field (offset + 5) 1 bytes
      with_pic
          (lapic_init_nmi (record { processor_id = processor_id; flags = flags; lint = lint })))
    else panic (unknown_madt_struct type_)

-- offsetof(struct MADT, records)
abbrev pub records_offset : ℕ
records_offset = 44

-- The loop, with the rounds allowed.
pub records_from : ℕ → List ℕ → ℕ → ℕ → Action Acpi (Unit {0})
records_from zero bytes size i = fault no_end
records_from (suc rounds) bytes size i =
    let rest = λ (step : ℕ). records_from rounds bytes size (u32 (i + step)) in
    if ltb (i + records_offset) size
    then (do
      type_ ← field (records_offset + i) 1 bytes
      parse_record bytes (records_offset + i) type_
      step ← field (records_offset + i + 1) 1 bytes
      rest step)
    else pure tt

pub acpi_parse_madt : List ℕ → Action Acpi (Unit {0})
acpi_parse_madt bytes = do
  with_pic lapic_init_begin
  flags ← field 40 4 bytes
  (if bit_and flags 1 != 0
      then with_pic (on_cpu (legacy_pic_init_and_disable 0x20 0x28))
      else pure tt)
  size ← field 4 4 bytes
  records_from (suc size) bytes size 0

-- `!strncmp(...)`
abbrev pub is_zero : ℤ → Bool
is_zero (pos n) = n == 0
is_zero (negsuc n) = false

pub parse_sdt : Printer → List ℕ → Action Acpi (Unit {0})
parse_sdt kprint bytes = do
  validate_sdt bytes
  madt ← or_fault (strncmp bytes (b'A' ∷ b'P' ∷ b'I' ∷ b'C' ∷ 0 ∷ []) 4)
  if is_zero madt then acpi_parse_madt bytes else (do
    fadt ← or_fault (strncmp bytes (b'F' ∷ b'A' ∷ b'C' ∷ b'P' ∷ 0 ∷ []) 4)
    if is_zero fadt then acpi_parse_fadt kprint bytes else pure tt)

-- What may be read from an address on is the firmware's.
module _ (kprint : Printer) (memory : ℕ → List ℕ) where
  -- The two loops over the addresses of a root table.
  pub tables_from : ℕ → (width : ℕ) → List ℕ → ℕ → Action Acpi (Unit {0})
  tables_from zero width bytes i = pure tt
  tables_from (suc rounds) width bytes i = do
    address ← field (36 + width * i) width bytes
    virt ← with_pic (with_vmm (with_pmm (phy_to_virt address)))
    parse_sdt kprint (memory virt)
    tables_from rounds width bytes (i + 1)

  pub parse_root : (width : ℕ) → ℕ → Action Acpi (Unit {0})
  parse_root width address = do
    virt ← with_pic (with_vmm (with_pmm (phy_to_virt address)))
    let bytes = memory virt
    validate_sdt bytes
    size ← field 4 4 bytes
    tables_from (sub64 size 36 / width) width bytes 0

  pub acpi_parse_rsdp : List ℕ → Action Acpi (Unit {0})
  acpi_parse_rsdp bytes = do
    validate invalid_rsdp rsdp_size bytes
    revision ← field 15 1 bytes
    let xsdt = do
      validate invalid_xsdp xsdp_size bytes
      address ← field 24 8 bytes
      parse_root 8 address
    let rsdt = do address ← field 16 4 bytes; parse_root 4 address
    if ltb 0 revision then xsdt else rsdt
