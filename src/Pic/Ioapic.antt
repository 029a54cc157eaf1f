-- ===== src/Pic/Ioapic.antt =====
-- drivers/pic/ioapic.c: the I/O APIC behind its pair of index and data registers, and the table of
-- where each ISA interrupt goes.
pub mod Device
pub mod Laws
pub mod Mask
mod Tests
use umbral_os.Base.{
  ℕ, zero, suc, ◌+◌, ◌*◌, ◌/◌, ◌%◌, bit_and, bit_or, Bool, true, false, ◌==◌, ◌!=◌, ltb, List, [],
  ◌∷◌, get_elem?, set, length, if◌then◌else◌,
}
use umbral_os.Base.Word.{u8, u16, u32, u64, ◌<<◌, ◌>>>◌}
use umbral_os.Base.Panics.{multiple_ioapics, ioapic_remapped, too_few_pins, unknown_bus}
use umbral_os.Base.Action.{
  Action, pure, panic, panic_if, gets, modify, or_fault, fault, out_of_bounds, ◌>>=◌, ◌>>◌,
}
use umbral_os.Intel.{Cpu, load32, store32}
use umbral_os.Mm.Pmm.{phy_to_virt}
use umbral_os.Mm.Vmm.{with_pmm, map_unaligned, m_w, m_cache_uc}
use umbral_os.Pic.{Pic, RedirectionEntry, with_vmm, on_cpu}

abbrev pub ioapicver : ℕ
ioapicver = 0x01

abbrev pub redir_tbl_addr : ℕ → ℕ
redir_tbl_addr n = 0x10 + 2 * n

abbrev pub redir_tbl_polarity : ℕ
redir_tbl_polarity = 1 << 13

abbrev pub redir_tbl_trigger : ℕ
redir_tbl_trigger = 1 << 15

abbrev pub redir_tbl_masked : ℕ
redir_tbl_masked = 1 << 16

abbrev pub redir_tbl_delivery_nmi : ℕ
redir_tbl_delivery_nmi = 0b100 << 8

abbrev pub isa_base : ℕ
isa_base = 0x30

-- What the code reads of the MADT's records.
pub record MadtIoapic : Type 0 where
  pub address : ℕ
  pub global_system_interrupt_base : ℕ

pub record MadtInterruptSourceOverride : Type 0 where
  pub bus_source : ℕ
  pub irq_source : ℕ
  pub global_system_interrupt : ℕ
  pub flags : ℕ

pub record MadtNmiSource : Type 0 where
  pub flags : ℕ
  pub global_system_interrupt : ℕ

-- The initial ISA_REDIRECTION_ENTRY: each interrupt goes to the pin of its number.
abbrev pub isa_entries : ℕ → ℕ → List RedirectionEntry
isa_entries zero n = []
isa_entries (suc count) n =
    record { destination = n; is_level_triggered = false; is_active_low = false }
    ∷ isa_entries count (n + 1)

pub ioapic_read32 : ℕ → Action Pic ℕ
ioapic_read32 reg = do
  base ← gets (λ s. s.ioapic_base)
  on_cpu (store32 base reg)
  on_cpu (load32 (u64 (base + 0x10)))

pub ioapic_read64 : ℕ → Action Pic ℕ
ioapic_read64 reg = do
  loval ← ioapic_read32 reg
  hival ← ioapic_read32 (u8 (reg + 1))
  pure (bit_or (u64 (hival << 32)) loval)

pub ioapic_write32 : ℕ → ℕ → Action Pic (Unit {0})
ioapic_write32 reg value = do
  base ← gets (λ s. s.ioapic_base)
  on_cpu (store32 base reg)
  on_cpu (store32 (u64 (base + 0x10)) value)

pub ioapic_write64 : ℕ → ℕ → Action Pic (Unit {0})
ioapic_write64 reg value = do
  ioapic_write32 reg (bit_and value 0xFFFF_FFFF)
  ioapic_write32 (u8 (reg + 1)) (u32 (value >>> 32))

pub disable_interrupt : ℕ → Action Pic (Unit {0})
disable_interrupt vector = ioapic_write64 (u8 (redir_tbl_addr vector)) redir_tbl_masked

-- The word for an interrupt, with its polarity and trigger.
abbrev pub redirection_value : ℕ → Bool → Bool → ℕ
redirection_value value is_active_low is_level_triggered =
    let value = if is_active_low then bit_or value redir_tbl_polarity else value in
    if is_level_triggered then bit_or value redir_tbl_trigger else value

pub enable_isa_interrupt : ℕ → Action Pic (Unit {0})
enable_isa_interrupt irq = do
  let vector = u8 (irq + isa_base)
  table ← gets (λ s. s.isa_redirection_entry)
  e ← or_fault (get_elem? table irq)
  ioapic_write64 (u8 (redir_tbl_addr e.destination))
      (redirection_value vector e.is_active_low e.is_level_triggered)

-- The loop of `ioapic_init_register`.
pub disable_from : ℕ → ℕ → Action Pic (Unit {0})
disable_from zero i = pure tt
disable_from (suc rounds) i = do disable_interrupt i; disable_from rounds (i + 1)

-- What `ioapic_init_register` does once the registers are mapped.
unfoldable pub mask_pins : Action Pic (Unit {0})
mask_pins = do
  version ← ioapic_read32 ioapicver
  let num_ioapic_entries = bit_and (version >>> 16) 0xFF
  panic_if (ltb num_ioapic_entries 16) too_few_pins
  disable_from num_ioapic_entries 0

pub init_register : MadtIoapic → Action Pic (Unit {0})
init_register madt_ioapic = do
  old ← gets (λ s. s.ioapic_base)
  panic_if (old != 0) multiple_ioapics
  panic_if (madt_ioapic.global_system_interrupt_base != 0) ioapic_remapped
  base ← with_vmm (with_pmm (phy_to_virt madt_ioapic.address))
  modify (λ s. record s { ioapic_base = base })
  with_vmm (map_unaligned madt_ioapic.address base 0x20 (bit_or m_cache_uc m_w))
  mask_pins

-- The two-digit fields of a record's flags.
abbrev pub flags_polarity : ℕ → ℕ
flags_polarity flags = bit_and flags 0x3

abbrev pub flags_trigger : ℕ → ℕ
flags_trigger flags = bit_and (flags >>> 2) 0x3

pub init_nmisource : MadtNmiSource → Action Pic (Unit {0})
init_nmisource madt_nmisource =
    ioapic_write64 (u8 (redir_tbl_addr madt_nmisource.global_system_interrupt)) (
      redirection_value redir_tbl_delivery_nmi (flags_polarity madt_nmisource.flags != 0)
        (flags_trigger madt_nmisource.flags != 0))

-- An interrupt number past the table is a write outside it.
pub init_source_override : MadtInterruptSourceOverride → Action Pic (Unit {0})
init_source_override madt_override = do
  panic_if (madt_override.bus_source != 0) (unknown_bus madt_override.bus_source)
  table ← gets (λ s. s.isa_redirection_entry)
  e ← or_fault (get_elem? table madt_override.irq_source)
  modify (λ s. record s {
    isa_redirection_entry = set table madt_override.irq_source (record e {
      destination = u8 madt_override.global_system_interrupt;
      is_active_low = flags_polarity madt_override.flags == 0x3;
      is_level_triggered = flags_trigger madt_override.flags == 0x3;
    });
  })
