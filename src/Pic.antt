-- ===== src/Pic.antt =====
-- drivers/pic: the interrupt controllers. Their variables stand beside the virtual memory map, which
-- two of the functions extend.
pub mod Legacy
pub mod Ioapic
pub mod Lapic
use umbral_os.Base.{ℕ, Bool, List}
use umbral_os.Base.Action.{Action, within}
use umbral_os.Intel.{Cpu}
use umbral_os.Mm.Vmm.{Vmm, with_cpu}

-- An element of ISA_REDIRECTION_ENTRY.
pub record RedirectionEntry : Type 0 where
  pub destination : ℕ
  pub is_level_triggered : Bool
  pub is_active_low : Bool

-- IOAPIC_BASE, ISA_REDIRECTION_ENTRY, HAS_X2APIC and LAPIC_BASE.
pub record Pic : Type 0 where
  pub vmm : Vmm
  pub ioapic_base : ℕ
  pub isa_redirection_entry : List RedirectionEntry
  pub has_x2apic : Bool
  pub lapic_base : ℕ

abbrev pub with_vmm : {A : Type 0} → Action Vmm A → Action Pic A
with_vmm = within (λ s. s.vmm) (λ v s. record s { vmm = v })

abbrev pub on_cpu : {A : Type 0} → Action Cpu A → Action Pic A
on_cpu act = with_vmm (with_cpu act)
