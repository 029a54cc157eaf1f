-- ===== src/Pic/Lapic.antt =====
-- drivers/pic/lapic.c: the local APIC, through model specific registers in x2APIC mode and through
-- device memory otherwise.
pub mod Laws
pub mod Device
pub mod Init
mod Tests
use umbral_os.Base.{
  ℕ, ◌+◌, ◌*◌, ◌/◌, ◌%◌, bit_and, bit_or, Bool, true, false, ◌||◌, ◌==◌, ◌!=◌, ltb, if◌then◌else◌,
}
use umbral_os.Base.Word.{u8, u32, u64, ◌<<◌, ◌>>>◌}
use umbral_os.Base.Panics.{lapic_read_out_of_range, lapic_write_out_of_range}
use umbral_os.Base.Action.{Action, pure, panic_if, gets, modify, ◌>>=◌, ◌>>◌}
use umbral_os.Intel.{cpuid, rdmsr, wrmsr, load32, store32}
use umbral_os.Mm.Pmm.{phy_to_virt}
use umbral_os.Mm.Vmm.{with_pmm, map_unaligned, m_w}
use umbral_os.Pic.{Pic, with_vmm, on_cpu}

abbrev pub register_size : ℕ
register_size = 0x10

abbrev pub register_max : ℕ
register_max = 0x40

abbrev pub idx_eoi : ℕ
idx_eoi = 0x0B

abbrev pub idx_spiv : ℕ
idx_spiv = 0x0F

abbrev pub idx_lvt_timer : ℕ
idx_lvt_timer = 0x32

abbrev pub idx_lvt_therm : ℕ
idx_lvt_therm = 0x33

abbrev pub idx_lvt_perfc : ℕ
idx_lvt_perfc = 0x34

abbrev pub idx_lvt_lint0 : ℕ
idx_lvt_lint0 = 0x35

abbrev pub idx_lvt_lint1 : ℕ
idx_lvt_lint1 = 0x36

abbrev pub idx_lvt_error : ℕ
idx_lvt_error = 0x37

abbrev pub lvt_delivery_nmi : ℕ
lvt_delivery_nmi = 0b100 << 8

abbrev pub lvt_polarity : ℕ
lvt_polarity = 1 << 13

abbrev pub lvt_trigger : ℕ
lvt_trigger = 1 << 5

abbrev pub lvt_mask : ℕ
lvt_mask = 1 << 16

abbrev pub spiv_enable : ℕ
spiv_enable = 0x100

abbrev pub msr_x2apic_base : ℕ
msr_x2apic_base = 0x800

abbrev pub msr_apic_base : ℕ
msr_apic_base = 0x1B

abbrev pub apic_base_extd : ℕ
apic_base_extd = 1 << 10

abbrev pub apic_base_en : ℕ
apic_base_en = 1 << 11

abbrev pub apic_base_mask : ℕ
apic_base_mask = 0xF_FFFF_F000

abbrev pub get_register : ℕ → Action Pic ℕ
get_register reg = gets (λ s. u64 (s.lapic_base + reg * register_size))

pub lapic_read : ℕ → Action Pic ℕ
lapic_read reg = do
  panic_if (ltb register_max reg) (lapic_read_out_of_range reg)
  has_x2apic ← gets (λ s. s.has_x2apic)
  if has_x2apic
      then (do value ← on_cpu (rdmsr (msr_x2apic_base + reg)); pure (u32 value))
      else (do address ← get_register reg; on_cpu (load32 address))

unfoldable pub lapic_write : ℕ → ℕ → Action Pic (Unit {0})
lapic_write reg value = do
  panic_if (ltb register_max reg) (lapic_write_out_of_range reg)
  has_x2apic ← gets (λ s. s.has_x2apic)
  if has_x2apic
      then on_cpu (wrmsr (msr_x2apic_base + reg) value)
      else (do address ← get_register reg; on_cpu (store32 address value))

unfoldable pub lapic_eoi : Action Pic (Unit {0})
lapic_eoi = lapic_write idx_eoi 0

-- The branch of `lapic_init_begin` for a processor without x2APIC.
pub map_registers : ℕ → Action Pic (Unit {0})
map_registers lapic_base = do
  let lapic_base_phy = bit_and lapic_base apic_base_mask
  lapic_base_virt ← with_vmm (with_pmm (phy_to_virt lapic_base_phy))
  with_vmm (map_unaligned lapic_base_phy lapic_base_virt (register_max * register_size) m_w)
  modify (λ s. record s { lapic_base = lapic_base_virt })

-- The branch for a processor with it.
pub enter_x2apic : ℕ → Action Pic (Unit {0})
enter_x2apic lapic_base =
    if bit_and lapic_base apic_base_extd == 0
    then on_cpu (wrmsr msr_apic_base (bit_or lapic_base apic_base_extd))
    else pure tt

-- The writes at the end of `lapic_init_begin`.
pub mask_and_enable : Action Pic (Unit {0})
mask_and_enable = do
  lapic_write idx_lvt_timer lvt_mask
  lapic_write idx_lvt_therm lvt_mask
  lapic_write idx_lvt_perfc lvt_mask
  lapic_write idx_lvt_lint0 lvt_mask
  lapic_write idx_lvt_lint1 lvt_mask
  lapic_write idx_lvt_error lvt_mask
  lapic_write idx_spiv (bit_or spiv_enable 0xFF)

-- `lapic_init_begin` from the base register's value on.
unfoldable pub start : Bool → ℕ → Action Pic (Unit {0})
start has_x2apic initial = do
  let lapic_base =
      if bit_and initial apic_base_en == 0 then bit_or initial apic_base_en else initial
  (if bit_and initial apic_base_en == 0
      then on_cpu (wrmsr msr_apic_base (bit_or initial apic_base_en))
      else pure tt)
  (if has_x2apic then enter_x2apic lapic_base else map_registers lapic_base)
  mask_and_enable

pub lapic_init_begin : Action Pic (Unit {0})
lapic_init_begin = do
  cpuid_result ← on_cpu (cpuid 1 0)
  let has_x2apic = bit_and cpuid_result.ecx (1 << 21) != 0
  modify (λ s. record s { has_x2apic = has_x2apic })
  initial ← on_cpu (rdmsr msr_apic_base)
  start has_x2apic initial

pub record MadtLocalApicNmi : Type 0 where
  pub processor_id : ℕ
  pub flags : ℕ
  pub lint : ℕ

-- The entry for a nonmaskable interrupt with the record's flags.
abbrev pub nmi_lvt : ℕ → ℕ
nmi_lvt flags =
    let lvt = lvt_delivery_nmi in
    let lvt = if bit_and flags 0x3 == 0x3 then bit_or lvt lvt_polarity else lvt in
    if bit_and (flags >>> 2) 0x3 == 0x3 then bit_or lvt lvt_trigger else lvt

pub lapic_init_nmi : MadtLocalApicNmi → Action Pic (Unit {0})
lapic_init_nmi nmi =
    if (nmi.processor_id == 0) || (nmi.processor_id == 0xFF)
    then (if nmi.lint != 0
        then lapic_write idx_lvt_lint1 (nmi_lvt nmi.flags)
        else lapic_write idx_lvt_lint0 (nmi_lvt nmi.flags))
    else pure tt
