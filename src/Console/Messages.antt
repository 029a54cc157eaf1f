-- ===== src/Console/Messages.antt =====
-- The format and the arguments of each call of `panic`. A `uint8_t` is passed as an `int` that is not
-- negative, which may be read as a `uint32_t`.
use umbral_os.Base.{ℕ, List, [], ◌∷◌}
use umbral_os.Base.Text.{text}
use umbral_os.Base.Panics.{
  Panic, mnemonic_text, unknown_conversion, addr_not_aligned, page_out_of_range,
  range_base_not_aligned, range_len_not_aligned, no_contiguous_pages, no_bitmap_region,
  what_not_aligned, where_not_aligned, map_at_null, write_and_execute, unknown_caching,
  map_what_not_aligned, map_where_not_aligned, map_size_not_aligned, no_pat_support,
  lapic_read_out_of_range, lapic_write_out_of_range, multiple_ioapics, ioapic_remapped,
  too_few_pins, unknown_bus, invalid_sdt, invalid_rsdp, invalid_xsdp, unknown_madt_struct,
  unknown_legacy_feature, port1_faulty, port2_faulty, page_fault, unhandled_mnemonic,
  unhandled_exception, unhandled_interrupt, no_rsdp,
}
use umbral_os.Common.Print.Format.{Arg}

unfoldable pub format : Panic → List ℕ
format (unknown_conversion _) = text "Unknown character %c in print frormat"
format (addr_not_aligned _) = text "addr_to_bitmap_location: addr 0x%lx not aligned\n"
format (page_out_of_range _) = text "page_to_bitmap_location: page 0x%lx out of range\n"
format range_base_not_aligned = text "pmm_mark_range: base not aligned\n"
format range_len_not_aligned = text "pmm_mark_range: len not aligned\n"
format (no_contiguous_pages _) = text "pmm_alloc_pages: Could not find %lu contiguous pages"
format (no_bitmap_region _) =
    text "Unable to locate usable memory region suitable for PMM bitmap. Needed 0x%lx bytes\n"
format what_not_aligned = text "vmm_map_page: what not aligned\n"
format where_not_aligned = text "vmm_map_page: where not aligned\n"
format map_at_null = text "vmm_map_page: Mapping a page at NULL is forbidden"
format write_and_execute = text "vmm_map_page: W|X memory is forbidden"
format (unknown_caching _) = text "Unknown memory caching mode %x"
format map_what_not_aligned = text "vmm_map: what not aligned\n"
format map_where_not_aligned = text "vmm_map: where not aligned\n"
format map_size_not_aligned = text "vmm_map: size not aligned\n"
format no_pat_support = text "No PAT support"
format (lapic_read_out_of_range _) = text "lapic_read: LAPIC Register 0x%x out of range"
format (lapic_write_out_of_range _) = text "lapic_write: LAPIC Register 0x%x out of range"
format multiple_ioapics = text "Multiple I/O APICs not supported"
format ioapic_remapped = text "Remapping the entire I/O APIC is not supported"
format too_few_pins = text "I/O APIC has too few pins to cover all ISA IRQs"
format (unknown_bus _) = text "Unknown MADT Bus %u"
format (invalid_sdt _) = text "Invalid SDT. Expected 0, got %u\n"
format (invalid_rsdp _) = text "Invalid RSDP. Expected 0, got %u\n"
format (invalid_xsdp _) = text "Invalid XSDP. Expected 0, got %u\n"
format (unknown_madt_struct _) = text "Unknown MADT struct %u"
format (unknown_legacy_feature _) = text "Unknown AcpiLegacyFeatue '%u'"
format (port1_faulty _) = text "PS/2 port 1 (kb) faulty with code 0x%x\n"
format (port2_faulty _) = text "PS/2 port 2 (mouse) faulty with code 0x%x\n"
format (page_fault _) = text "Unhandled #PF at 0x%lx"
format (unhandled_mnemonic _) = text "Unhandled Exception %s"
format (unhandled_exception _) = text "Unhandled Exception 0x%x"
format (unhandled_interrupt _) = text "Unhandled Interrupt 0x%x"
format no_rsdp = text "No RSDP response from limine"

-- A value narrower than `int` goes as an `int` that is not negative, which `va_arg` may read as an
-- `unsigned`: both are the same argument here.
unfoldable pub arguments : Panic → List Arg
arguments (unknown_conversion c) = Arg.int c ∷ []
arguments (addr_not_aligned page) = Arg.uint64 page ∷ []
arguments (page_out_of_range page) = Arg.uint64 page ∷ []
arguments range_base_not_aligned = []
arguments range_len_not_aligned = []
arguments (no_contiguous_pages num_pages) = Arg.uint64 num_pages ∷ []
arguments (no_bitmap_region bitmap_size) = Arg.uint64 bitmap_size ∷ []
arguments what_not_aligned = []
arguments where_not_aligned = []
arguments map_at_null = []
arguments write_and_execute = []
arguments (unknown_caching mode) = Arg.uint32 mode ∷ []
arguments map_what_not_aligned = []
arguments map_where_not_aligned = []
arguments map_size_not_aligned = []
arguments no_pat_support = []
arguments (lapic_read_out_of_range reg) = Arg.uint32 reg ∷ []
arguments (lapic_write_out_of_range reg) = Arg.uint32 reg ∷ []
arguments multiple_ioapics = []
arguments ioapic_remapped = []
arguments too_few_pins = []
arguments (unknown_bus bus_source) = Arg.uint32 bus_source ∷ []
arguments (invalid_sdt checksum) = Arg.uint32 checksum ∷ []
arguments (invalid_rsdp checksum) = Arg.uint32 checksum ∷ []
arguments (invalid_xsdp checksum) = Arg.uint32 checksum ∷ []
arguments (unknown_madt_struct type_) = Arg.uint32 type_ ∷ []
arguments (unknown_legacy_feature feature) = Arg.uint32 feature ∷ []
arguments (port1_faulty result) = Arg.uint32 result ∷ []
arguments (port2_faulty result) = Arg.uint32 result ∷ []
arguments (page_fault cr2) = Arg.uint64 cr2 ∷ []
arguments (unhandled_mnemonic mnemonic) = Arg.text (mnemonic_text mnemonic) ∷ []
arguments (unhandled_exception vector) = Arg.uint32 vector ∷ []
arguments (unhandled_interrupt vector) = Arg.uint32 vector ∷ []
arguments no_rsdp = []
