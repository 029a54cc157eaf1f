-- ===== src/Pic/Ioapic/Tests.antt =====
-- The I/O APIC with the initial table, and one interrupt moved to pin 2, active low.
use umbral_os.Base.{
  ℕ, ◌+◌, ◌^◌, ◌≤◌, ◌<◌, ◌≡◌, ◌≢◌, refl, arith, true, false, some, [], ◌∷◌, get_elem?,
}
use umbral_os.Base.Action.{ok, panicked, faulted, out_of_bounds}
use umbral_os.Pic.{Pic, RedirectionEntry}
use umbral_os.Pic.Ioapic.{isa_entries, init_source_override, MadtInterruptSourceOverride}
use umbral_os.Pic.Ioapic.Device.{Device, registers}
use umbral_os.Base.Panics.{too_few_pins}
use umbral_os.Pic.Ioapic.{mask_pins}
use umbral_os.Pic.Ioapic.Mask.{masked, with_version, mask_pins_lem}
use umbral_os.Pic.Ioapic.Laws.{init_source_override_lem}

abbrev controllers : Pic
controllers = record {
  vmm = record {
    pmm = record { hhdm = 2 ^ 47; num_pages = 16; bitmap_base = 2 ^ 47; bitmap = 0 ∷ 0 ∷ [] };
    mem = λ x. 0;
    pml4 = 2 ^ 47 + 0x1000;
    cpu = record { replies = []; trace = [] };
  };
  ioapic_base = 2 ^ 47 + 0xfec0_0000;
  isa_redirection_entry = isa_entries 16 0;
  has_x2apic = false;
  lapic_base = 2 ^ 47 + 0xfee0_0000;
}

abbrev versioned : Pic
versioned = record controllers {
  vmm = record controllers.vmm { cpu = record { replies = 0x17_0020 ∷ []; trace = [] } };
}

abbrev device : Device
device = record { select = 0; registers = λ r. 0 }

abbrev com1 : RedirectionEntry
com1 = record { destination = 4; is_level_triggered = false; is_active_low = false }

abbrev timer_override : MadtInterruptSourceOverride
timer_override = record { bus_source = 0; irq_source = 0; global_system_interrupt = 2; flags = 3 }

init_source_override_lem_example :
    ((16 ≤ 0) → init_source_override timer_override controllers ≡ faulted out_of_bounds controllers)
    × ((0 < 16)
        → (s' : Pic) × (init_source_override timer_override controllers ≡ ok tt s')
          × (get_elem? s'.isa_redirection_entry 0
              ≡ some (record { destination = 2; is_active_low = true; is_level_triggered = false }))
          × ((j : ℕ)
              → 0 ≢ j
              → get_elem? s'.isa_redirection_entry j ≡ get_elem? (isa_entries 16 0) j))
init_source_override_lem_example = init_source_override_lem timer_override controllers refl

-- 24 pins, of which the number in the version register is the last one's.
mask_pins_lem_example :
    ((23 < 16) → mask_pins versioned ≡ panicked too_few_pins (with_version versioned 0x17_0020 []))
    × ((16 ≤ 23)
        → (s' : Pic) × (mask_pins versioned ≡ ok tt s')
          × ((r : ℕ) → registers s' device r ≡ masked 0 23 (registers versioned device) r))
mask_pins_lem_example = mask_pins_lem 0x17_0020 [] versioned device refl (omega arith)
