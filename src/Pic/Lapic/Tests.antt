-- ===== src/Pic/Lapic/Tests.antt =====
-- The end of interrupt in xAPIC mode, and the start in x2APIC mode.
use umbral_os.Base.{
  ℕ, ◌+◌, ◌^◌, ◌≤◌, ◌<◌, ◌≡◌, refl, arith, true, false, some, List, [], ◌∷◌, ◌++◌, ◌==◌, ◌||◌,
  if◌then◌else◌,
}
use umbral_os.Base.Bits.{bit}
use umbral_os.Base.Action.{ok, panicked}
use umbral_os.Base.Panics.{lapic_write_out_of_range}
use umbral_os.Intel.{Event}
use umbral_os.Pic.{Pic}
use umbral_os.Pic.Lapic.{lapic_write, lapic_init_begin}
use umbral_os.Pic.Lapic.Device.{with_event, Apic, apic}
use umbral_os.Pic.Lapic.Init.{started, lapic_init_begin_lem}
use umbral_os.Pic.Lapic.Laws.{register_write, lapic_write_lem}

abbrev controllers : Pic
controllers = record {
  vmm = record {
    pmm = record { hhdm = 2 ^ 47; num_pages = 16; bitmap_base = 2 ^ 47; bitmap = 0 ∷ 0 ∷ [] };
    mem = λ x. 0;
    pml4 = 2 ^ 47 + 0x1000;
    cpu = record { replies = []; trace = [] };
  };
  ioapic_base = 0;
  isa_redirection_entry = [];
  has_x2apic = false;
  lapic_base = 2 ^ 47 + 0xfee0_0000;
}

lapic_write_lem_example :
    ((0x40 < 0x0B)
      → lapic_write 0x0B 0 controllers ≡ panicked (lapic_write_out_of_range 0x0B) controllers)
    × ((0x0B ≤ 0x40)
        → (e : Event) × (lapic_write 0x0B 0 controllers ≡ ok tt (with_event controllers e))
          × (register_write controllers e ≡ some (0x0B, 0)))
lapic_write_lem_example = lapic_write_lem 0x0B 0 controllers (omega arith) (omega arith)

-- An APIC that is off, on a processor with x2APIC.
abbrev off : Apic
off = record { base = 0xfee0_0100; registers = λ r. 7 }

abbrev with_x2apic : Pic
with_x2apic = record controllers {
  vmm = record controllers.vmm {
    cpu = record { replies = 1 ∷ 0 ∷ 0x20_0000 ∷ 0 ∷ 0xfee0_0100 ∷ []; trace = [] };
  };
}

lapic_init_begin_lem_example :
    (s' : Pic) × (lapic_init_begin with_x2apic ≡ ok tt s')
    × (s'.has_x2apic ≡ true)
    × ((k : ℕ)
        → bit (apic s' off).base k ≡ (if (k == 10) || (k == 11) then 1 else bit 0xfee0_0100 k))
    × ((r : ℕ) → (apic s' off).registers r ≡ started (λ x. 7) r)
    × (es : List Event) × (s'.vmm.cpu.trace
        ≡ (Event.run_cpuid 1 0 ∷ Event.read_msr 0x1B 0xfee0_0100 ∷ []) ++ es)
lapic_init_begin_lem_example =
    lapic_init_begin_lem 1 0 0x20_0000 0 [] with_x2apic off refl refl (omega arith)
