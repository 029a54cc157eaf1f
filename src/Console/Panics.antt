-- ===== src/Console/Panics.antt =====
-- The texts of the panics as pieces, and what a panic does.
use umbral_os.Base.{ℕ, ◌≡◌, refl, ◌∙◌, true, false, List, [], ◌∷◌, ◌++◌, map, length}
use Prim.Native.String.{String}
use umbral_os.Base.Text.{codes}
use umbral_os.Base.Panics.{
  Panic, mnemonic_name, Mnemonic, unknown_conversion, addr_not_aligned, page_out_of_range,
  range_base_not_aligned, range_len_not_aligned, no_contiguous_pages, no_bitmap_region,
  what_not_aligned, where_not_aligned, map_at_null, write_and_execute, unknown_caching,
  map_what_not_aligned, map_where_not_aligned, map_size_not_aligned, no_pat_support,
  lapic_read_out_of_range, lapic_write_out_of_range, multiple_ioapics, ioapic_remapped,
  too_few_pins, unknown_bus, invalid_sdt, invalid_rsdp, invalid_xsdp, unknown_madt_struct,
  unknown_legacy_feature, port1_faulty, port2_faulty, page_fault, unhandled_mnemonic,
  unhandled_exception, unhandled_interrupt, no_rsdp, de, db, nmi, bp, of_, br, ud, nm, df, cso, ts,
  np, ss, gp, pf, mf, ac, mc, xm, ve, cp, hv, vc, sx,
}
use umbral_os.Base.Action.{faulted, halted}
use umbral_os.Intel.{Cpu, Event}
use umbral_os.Serial.Device.{Uart}
use umbral_os.Common.Print.Format.Pieces.{Piece, spell_all, args_all}
use umbral_os.Console.{Writer, die, cli, hlt, disable_interrupts, halt, halt_and_catch_fire}
use umbral_os.Console.Messages.{format, arguments}
use umbral_os.Console.Bytes.{all_plain}
use umbral_os.Console.Lines.{is_serial, say, lines, lines_plain, IsReady, Sent, say_lem}

abbrev pub words : String → List Piece
words s = map Piece.literal (codes s)

-- The text of a panic.
unfoldable pub pieces : Panic → List Piece
pieces (unknown_conversion v) =
    words "Unknown character " ++ (Piece.char v ∷ words " in print frormat")
pieces (addr_not_aligned v) =
    words "addr_to_bitmap_location: addr 0x" ++ (Piece.hex true v ∷ words " not aligned\n")
pieces (page_out_of_range v) =
    words "page_to_bitmap_location: page 0x" ++ (Piece.hex true v ∷ words " out of range\n")
pieces range_base_not_aligned = words "pmm_mark_range: base not aligned\n"
pieces range_len_not_aligned = words "pmm_mark_range: len not aligned\n"
pieces (no_contiguous_pages v) =
    words "pmm_alloc_pages: Could not find " ++ (Piece.decimal true v ∷ words " contiguous pages")
pieces (no_bitmap_region v) =
    words "Unable to locate usable memory region suitable for PMM bitmap. Needed 0x"
    ++ (Piece.hex true v ∷ words " bytes\n")
pieces what_not_aligned = words "vmm_map_page: what not aligned\n"
pieces where_not_aligned = words "vmm_map_page: where not aligned\n"
pieces map_at_null = words "vmm_map_page: Mapping a page at NULL is forbidden"
pieces write_and_execute = words "vmm_map_page: W|X memory is forbidden"
pieces (unknown_caching v) = words "Unknown memory caching mode " ++ (Piece.hex false v ∷ [])
pieces map_what_not_aligned = words "vmm_map: what not aligned\n"
pieces map_where_not_aligned = words "vmm_map: where not aligned\n"
pieces map_size_not_aligned = words "vmm_map: size not aligned\n"
pieces no_pat_support = words "No PAT support"
pieces (lapic_read_out_of_range v) =
    words "lapic_read: LAPIC Register 0x" ++ (Piece.hex false v ∷ words " out of range")
pieces (lapic_write_out_of_range v) =
    words "lapic_write: LAPIC Register 0x" ++ (Piece.hex false v ∷ words " out of range")
pieces multiple_ioapics = words "Multiple I/O APICs not supported"
pieces ioapic_remapped = words "Remapping the entire I/O APIC is not supported"
pieces too_few_pins = words "I/O APIC has too few pins to cover all ISA IRQs"
pieces (unknown_bus v) = words "Unknown MADT Bus " ++ (Piece.decimal false v ∷ [])
pieces (invalid_sdt v) =
    words "Invalid SDT. Expected 0, got " ++ (Piece.decimal false v ∷ words "\n")
pieces (invalid_rsdp v) =
    words "Invalid RSDP. Expected 0, got " ++ (Piece.decimal false v ∷ words "\n")
pieces (invalid_xsdp v) =
    words "Invalid XSDP. Expected 0, got " ++ (Piece.decimal false v ∷ words "\n")
pieces (unknown_madt_struct v) = words "Unknown MADT struct " ++ (Piece.decimal false v ∷ [])
pieces (unknown_legacy_feature v) =
    words "Unknown AcpiLegacyFeatue '" ++ (Piece.decimal false v ∷ words "'")
pieces (port1_faulty v) =
    words "PS/2 port 1 (kb) faulty with code 0x" ++ (Piece.hex false v ∷ words "\n")
pieces (port2_faulty v) =
    words "PS/2 port 2 (mouse) faulty with code 0x" ++ (Piece.hex false v ∷ words "\n")
pieces (page_fault v) = words "Unhandled #PF at 0x" ++ (Piece.hex true v ∷ [])
pieces (unhandled_mnemonic v) =
    words "Unhandled Exception " ++ (Piece.string (mnemonic_name v) ∷ [])
pieces (unhandled_exception v) = words "Unhandled Exception 0x" ++ (Piece.hex false v ∷ [])
pieces (unhandled_interrupt v) = words "Unhandled Interrupt 0x" ++ (Piece.hex false v ∷ [])
pieces no_rsdp = words "No RSDP response from limine"

mnemonic_fits : (m : Mnemonic) → all_plain (pieces (unhandled_mnemonic m)) ≡ true
unfolding pieces
mnemonic_fits de = refl
mnemonic_fits db = refl
mnemonic_fits nmi = refl
mnemonic_fits bp = refl
mnemonic_fits of_ = refl
mnemonic_fits br = refl
mnemonic_fits ud = refl
mnemonic_fits nm = refl
mnemonic_fits df = refl
mnemonic_fits cso = refl
mnemonic_fits ts = refl
mnemonic_fits np = refl
mnemonic_fits ss = refl
mnemonic_fits gp = refl
mnemonic_fits pf = refl
mnemonic_fits mf = refl
mnemonic_fits ac = refl
mnemonic_fits mc = refl
mnemonic_fits xm = refl
mnemonic_fits ve = refl
mnemonic_fits cp = refl
mnemonic_fits hv = refl
mnemonic_fits vc = refl
mnemonic_fits sx = refl

-- The format of every panic is spelled from pieces whose values are its arguments, each of the type
-- that its conversion takes, and no piece is a conversion by accident.
pub format_lem :
    (p : Panic)
    → (format p ≡ spell_all (pieces p) (0 ∷ []))
      × (arguments p ≡ args_all (pieces p) [])
      × (all_plain (pieces p) ≡ true)
unfolding pieces format arguments
format_lem (unknown_conversion v) = (refl, refl, refl)
format_lem (addr_not_aligned v) = (refl, refl, refl)
format_lem (page_out_of_range v) = (refl, refl, refl)
format_lem range_base_not_aligned = (refl, refl, refl)
format_lem range_len_not_aligned = (refl, refl, refl)
format_lem (no_contiguous_pages v) = (refl, refl, refl)
format_lem (no_bitmap_region v) = (refl, refl, refl)
format_lem what_not_aligned = (refl, refl, refl)
format_lem where_not_aligned = (refl, refl, refl)
format_lem map_at_null = (refl, refl, refl)
format_lem write_and_execute = (refl, refl, refl)
format_lem (unknown_caching v) = (refl, refl, refl)
format_lem map_what_not_aligned = (refl, refl, refl)
format_lem map_where_not_aligned = (refl, refl, refl)
format_lem map_size_not_aligned = (refl, refl, refl)
format_lem no_pat_support = (refl, refl, refl)
format_lem (lapic_read_out_of_range v) = (refl, refl, refl)
format_lem (lapic_write_out_of_range v) = (refl, refl, refl)
format_lem multiple_ioapics = (refl, refl, refl)
format_lem ioapic_remapped = (refl, refl, refl)
format_lem too_few_pins = (refl, refl, refl)
format_lem (unknown_bus v) = (refl, refl, refl)
format_lem (invalid_sdt v) = (refl, refl, refl)
format_lem (invalid_rsdp v) = (refl, refl, refl)
format_lem (invalid_xsdp v) = (refl, refl, refl)
format_lem (unknown_madt_struct v) = (refl, refl, refl)
format_lem (unknown_legacy_feature v) = (refl, refl, refl)
format_lem (port1_faulty v) = (refl, refl, refl)
format_lem (port2_faulty v) = (refl, refl, refl)
format_lem (page_fault v) = (refl, refl, refl)
format_lem (unhandled_mnemonic v) = (refl, refl, (mnemonic_fits v))
format_lem (unhandled_exception v) = (refl, refl, refl)
format_lem (unhandled_interrupt v) = (refl, refl, refl)
format_lem no_rsdp = (refl, refl, refl)

-- What a panic prints.
abbrev pub panic_lines : Panic → List (List Piece)
panic_lines p = words "PANIC: " ∷ pieces p ∷ words "\n" ∷ []

lines-panic_plain : (p : Panic) → lines_plain (panic_lines p) ≡ true
lines-panic_plain p = let (_, _, plain) = format_lem p in rw plain refl

-- What stands before the processor stops.
abbrev pub stopped : Cpu → Cpu
stopped s = record s {
  trace = (s.trace ++ (Event.instruction cli ∷ [])) ++ (Event.instruction hlt ∷ []);
}

die-say :
    (stack : List ℕ) (w : Writer) (p : Panic) (s : Cpu)
    → die stack w p s ≡ say stack w (panic_lines p) halt_and_catch_fire s
unfolding die
die-say stack w p s = let (f, a, _) = format_lem p in rw (f, a) refl

module _ (stack : List ℕ) (size : length stack ≡ 21) (w : Writer)
    (to_line : is_serial w ≡ true) where
  -- A panic prints `PANIC: `, its text with its values and a newline on the serial line, as long as
  -- the answers suffice; then it disables interrupts and stops the processor, and never panics
  -- itself.
  pub die_lem :
      (p : Panic) (rest : List ℕ) (s : Cpu) (d : Uart)
      → IsReady s d (lines (panic_lines p)) rest
      → (t : Cpu) × (die stack w p s ≡ faulted halted (stopped t))
        × Sent s d (lines (panic_lines p)) rest t
  unfolding halt_and_catch_fire disable_interrupts halt
  die_lem p rest s d ready =
      let (t, returns, sent) =
        say_lem stack size w to_line (panic_lines p) halt_and_catch_fire rest s d
          (lines-panic_plain p) ready in
      (t, die-say stack w p s ∙ returns, sent)
