-- ===== src/Pic/Lapic/Laws.antt =====
-- A register of the local APIC is the same in both modes.
use umbral_os.Base.{
  ℕ, ◌+◌, ◌-◌, ◌*◌, ◌/◌, ◌%◌, ◌^◌, ◌≤◌, ◌<◌, ◌≡◌, refl, ◌∙◌, arith, true, false, ◌&&◌, Option, some,
  none, ltb, leb, if◌then◌else◌, Bool-cases, inl, inr,
}
use umbral_os.Base.Word.{u32, u64}
use umbral_os.Base.Bits.{bit_and-mask}
use umbral_os.Base.Action.{ok, panicked}
use umbral_os.Base.Panics.{lapic_write_out_of_range}
use umbral_os.Intel.{Event, wrmsr, store32}
use umbral_os.Pic.{Pic}
use umbral_os.Pic.Lapic.Device.{with_event}
use umbral_os.Pic.Lapic.{lapic_write, register_max, msr_x2apic_base}

-- The register that an access writes, with the value.
abbrev pub register_write : Pic → Event → Option (ℕ × ℕ)
register_write s (Event.write_msr msr high low) =
    if s.has_x2apic && leb msr_x2apic_base msr then some (msr - msr_x2apic_base, low) else none
register_write s (Event.stored32 address value) =
    if s.has_x2apic then none else some ((address - s.lapic_base) / 16, value)
register_write s _ = none

whole : (value : ℕ) → value < 2 ^ 32 → value % 2 ^ 32 ≡ value
whole value h = omega arith

-- `lapic_write` makes one access, which writes the value to the register of that number in the mode
-- in use, where the number is at most 0x40; a greater number makes it panic before any access.
pub lapic_write_lem :
    (reg value : ℕ) (s : Pic)
    → value < 2 ^ 32
    → s.lapic_base + 0x410 ≤ 2 ^ 64
    → ((0x40 < reg) → lapic_write reg value s ≡ panicked (lapic_write_out_of_range reg) s)
      × ((reg ≤ 0x40)
          → (e : Event) × (lapic_write reg value s ≡ ok tt (with_event s e))
            × (register_write s e ≡ some (reg, value)))
unfolding lapic_write wrmsr store32
lapic_write_lem reg value s small fits = (
  λ h. let over : ltb register_max reg ≡ true = ground arith in rw over refl,
  λ h.
      let inside : ltb register_max reg ≡ false = ground arith in
      let high : u32 (value / 2 ^ 32) ≡ 0 = omega arith in
      let low = bit_and-mask 32 value ∙ whole value small in
      let past : leb msr_x2apic_base (msr_x2apic_base + reg) ≡ true = ground arith in
      let number : msr_x2apic_base + reg - msr_x2apic_base ≡ reg = omega arith in
      let address : u64 (s.lapic_base + reg * 16) ≡ s.lapic_base + reg * 16 = omega arith in
      let offset : (s.lapic_base + reg * 16 - s.lapic_base) / 16 ≡ reg = omega arith in
      elim (Bool-cases s.has_x2apic) [
        | inl x2 ↦ (
          Event.write_msr (msr_x2apic_base + reg) 0 value,
          rw (inside, x2, high, low) refl,
          rw (x2, past, number) refl,
        )
        | inr xapic ↦ (
          Event.stored32 (s.lapic_base + reg * 16) value,
          rw (inside, xapic, address, whole value small) refl,
          rw (xapic, offset) refl,
        )
      ],
)
