-- ===== src/Acpi/Tests.antt =====
-- Small tables.
use umbral_os.Base.{
  false, ◌^◌, ℕ, ◌+◌, ◌%◌, ◌≤◌, ◌<◌, ◌≡◌, ◌≢◌, refl, arith, true, List, [], ◌∷◌, ◌++◌, replicate,
}
use umbral_os.Base.Action.{ok, panicked, faulted, no_end, out_of_bounds}
use umbral_os.Base.Panics.{invalid_rsdp}
use umbral_os.Base.Fields.{before, total}
use umbral_os.Acpi.{fadt, boot_architecture_flags, Acpi, validate, records_from}
use umbral_os.Acpi.Checksum.{validate_lem}
use umbral_os.Acpi.Records.{records_from-no_end}

abbrev kernel : Acpi
kernel = record {
  pic = record {
    vmm = record {
      pmm = record { hhdm = 2 ^ 47; num_pages = 16; bitmap_base = 2 ^ 47; bitmap = 0 ∷ 0 ∷ [] };
      mem = λ x. 0;
      pml4 = 2 ^ 47 + 0x1000;
      cpu = record { replies = []; trace = [] };
    };
    ioapic_base = 0;
    isa_redirection_entry = [];
    has_x2apic = false;
    lapic_base = 0;
  };
  has_i8042 = true;
}

validate_lem_example :
    ((3 ≤ 3) → (256 % 256 ≡ 0) → validate invalid_rsdp 3 (200 ∷ 55 ∷ 1 ∷ []) kernel ≡ ok tt kernel)
    × ((3 ≤ 3)
        → (256 % 256 ≢ 0)
        → validate invalid_rsdp 3 (200 ∷ 55 ∷ 1 ∷ []) kernel
          ≡ panicked (invalid_rsdp (256 % 256)) kernel)
    × ((3 < 3) → validate invalid_rsdp 3 (200 ∷ 55 ∷ 1 ∷ []) kernel ≡ faulted out_of_bounds kernel)
validate_lem_example = validate_lem invalid_rsdp 3 (200 ∷ 55 ∷ 1 ∷ []) kernel

-- A header and one record.
abbrev madt : (type_ len : ℕ) → List ℕ
madt type_ len = replicate 44 0 ++ (type_ ∷ len ∷ [])

records_from-no_end_example : records_from 1000 (madt 0 0) 46 0 kernel ≡ faulted no_end kernel
records_from-no_end_example =
    records_from-no_end 1000 46 0 (madt 0 0) kernel (omega arith) (omega arith) refl refl

-- A processor's record and that of an I/O APIC whose interrupts begin at 0.
abbrev two_records : List ℕ
two_records =
    replicate 44 0
    ++ (0 ∷ 8 ∷ 0 ∷ 0 ∷ 1 ∷ 0 ∷ 0 ∷ 0 ∷ [])
    ++ (1 ∷ 12 ∷ 2 ∷ 0 ∷ 0 ∷ 0 ∷ 0xC0 ∷ 0xFE ∷ 0 ∷ 0 ∷ 0 ∷ 0 ∷ [])

-- The offsets that the ACPI specification gives.
fadt_offsets :
    (before fadt boot_architecture_flags ≡ 109)
    × (before fadt (boot_architecture_flags + 2) ≡ 112)
    × (total fadt ≡ 244)
fadt_offsets = (refl, refl, refl)
