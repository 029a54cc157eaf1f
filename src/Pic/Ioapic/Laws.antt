-- ===== src/Pic/Ioapic/Laws.antt =====
-- The interrupts that the I/O APIC is told about, and the table that says where they go.
use umbral_os.Base.{
  ℕ, ◌+◌, ◌/◌, ◌%◌, ◌^◌, ◌≤◌, ◌<◌, ◌≡◌, ◌≢◌, refl, ◌∙◌, arith, bit_or, Bool, true, false, some,
  ◌==◌, ◌!=◌, if◌then◌else◌, length, get_elem?, set, get_elem?-set_self, get_elem?-past,
  get_elem?-eq-get_or, get_elem?-set_ne,
}
use umbral_os.Base.Bits.{bit_or-pow, bit_and-mask}
use umbral_os.Base.Action.{ok, faulted, out_of_bounds}
use umbral_os.Pic.{Pic, RedirectionEntry}
use umbral_os.Pic.Ioapic.{redirection_value, init_source_override, MadtInterruptSourceOverride}
use umbral_os.Pic.Ioapic.Device.{Device}

-- A flag as the digit of weight `2 ^ k`.
abbrev pub flag : Bool → ℕ → ℕ
flag b k = if b then 2 ^ k else 0

pub redirection_value_lem :
    (value : ℕ) (low level : Bool)
    → value < 2 ^ 13
    → redirection_value value low level ≡ value + flag low 13 + flag level 15
redirection_value_lem value true true h =
    let first : bit_or value (2 ^ 13) ≡ value + 2 ^ 13 = bit_or-pow 13 value h in
    rw first (bit_or-pow 15 (value + 2 ^ 13) (omega arith))
redirection_value_lem value true false h = bit_or-pow 13 value h ∙ omega arith
redirection_value_lem value false true h = bit_or-pow 15 value (omega arith) ∙ omega arith
redirection_value_lem value false false h = omega arith

-- `ioapic_init_source_override` on the ISA bus sets the pin, polarity and trigger of that interrupt
-- and of no other. An interrupt number outside the table makes it write outside the table.
pub init_source_override_lem :
    (m : MadtInterruptSourceOverride) (s : Pic)
    → m.bus_source ≡ 0
    → ((length s.isa_redirection_entry ≤ m.irq_source)
        → init_source_override m s ≡ faulted out_of_bounds s)
      × ((m.irq_source < length s.isa_redirection_entry)
          → (s' : Pic) × (init_source_override m s ≡ ok tt s')
            × (get_elem? s'.isa_redirection_entry m.irq_source
                ≡ some (record {
                  destination = m.global_system_interrupt % 256;
                  is_active_low = m.flags % 4 == 3;
                  is_level_triggered = m.flags / 4 % 4 == 3;
                }))
            × ((j : ℕ)
                → m.irq_source ≢ j
                → get_elem? s'.isa_redirection_entry j ≡ get_elem? s.isa_redirection_entry j))
unfolding init_source_override
init_source_override_lem m s isa =
    let bus : (m.bus_source != 0) ≡ false = ground arith in
    let table = s.isa_redirection_entry in
    let any : RedirectionEntry = record {
      destination = 0;
      is_level_triggered = false;
      is_active_low = false;
    } in
    let entry : RedirectionEntry = record {
      destination = m.global_system_interrupt % 256;
      is_active_low = m.flags % 4 == 3;
      is_level_triggered = m.flags / 4 % 4 == 3;
    } in
    (
      λ h. rw (bus, get_elem?-past table m.irq_source h) refl,
      λ h. (
        record s { isa_redirection_entry = set table m.irq_source entry },
        rw
            (
              bus,
              get_elem?-eq-get_or table m.irq_source any h,
              bit_and-mask 2 m.flags,
              bit_and-mask 2 (m.flags / 4),
            )
            refl,
        get_elem?-set_self table m.irq_source entry h,
        λ j ne. get_elem?-set_ne table m.irq_source j entry ne,
      ),
    )
