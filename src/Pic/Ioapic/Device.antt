-- ===== src/Pic/Ioapic/Device.antt =====
-- The I/O APIC as its data sheet has it: one register selects, the other accesses what is selected.
use umbral_os.Base.{
  ℕ, ◌+◌, ◌/◌, ◌%◌, ◌^◌, ◌<◌, ◌≡◌, ◌≢◌, refl, ap, ◌∙◌, arith, bit_and, false, List, [], ◌∷◌, ◌++◌,
  ◌==◌, if◌then◌else◌, eq→==, ne→==,
}
use umbral_os.Base.Bits.{bit_and-mask}
use umbral_os.Base.Word.{u8, u32, u64, ◌>>>◌}
use umbral_os.Base.Action.{ok}
use umbral_os.Intel.Device.{after_trace, after_trace-snoc}
use umbral_os.Intel.{Event, store32}
use umbral_os.Pic.{Pic}
use umbral_os.Pic.Ioapic.{ioapic_write32, ioapic_write64}

pub record Device : Type 0 where
  pub select : ℕ
  pub registers : ℕ → ℕ

abbrev pub step : ℕ → Event → Device → Device
step base (Event.stored32 address value) d =
    if address == base
    then record d { select = value }
    else if address == u64 (base + 0x10)
    then record d { registers = λ r. if r == d.select then value else d.registers r }
    else d
step base _ d = d

abbrev pub run : ℕ → List Event → Device → Device
run base = after_trace (step base)

pub run-snoc :
    (base : ℕ) (es : List Event) (e : Event) (d : Device)
    → run base (es ++ (e ∷ [])) d ≡ step base e (run base es d)
run-snoc base = after_trace-snoc (step base)

-- One register written.
abbrev written : ℕ → ℕ → Device → Device
written reg value d = record {
  select = reg;
  registers = λ r. if r == reg then value else d.registers r;
}

abbrev accesses : (base reg value : ℕ) → List Event → List Event
accesses base reg value es =
    (es ++ (Event.stored32 base reg ∷ [])) ++ (Event.stored32 (u64 (base + 0x10)) value ∷ [])

run-write :
    (base reg value : ℕ) (es : List Event) (d : Device)
    → run base (accesses base reg value es) d ≡ written reg value (run base es d)
run-write base reg value es d =
    let other : (u64 (base + 0x10) == base) ≡ false =
      ne→== (u64 (base + 0x10)) base (λ e. absurd (omega arith)) in
    run-snoc base (es ++ (Event.stored32 base reg ∷ [])) (Event.stored32 (u64 (base + 0x10)) value)
      d
    ∙ ap (step base (Event.stored32 (u64 (base + 0x10)) value))
        (run-snoc base es (Event.stored32 base reg) d)
    ∙ rw (eq→== base base refl, other, eq→== (u64 (base + 0x10)) (u64 (base + 0x10)) refl) refl

-- The registers of the device after what the kernel did so far.
abbrev pub registers : Pic → Device → ℕ → ℕ
registers s d = (run s.ioapic_base s.vmm.cpu.trace d).registers

abbrev after_write64 : ℕ → ℕ → Pic → Pic
after_write64 reg value s = record s {
  vmm = record s.vmm {
    cpu = record s.vmm.cpu {
      trace =
          accesses s.ioapic_base (reg + 1) (value / 2 ^ 32)
            (accesses s.ioapic_base reg (value % 2 ^ 32) s.vmm.cpu.trace);
    };
  };
}

-- `ioapic_write64` writes the low half to the register and the high half to the next one, and to no
-- other register.
pub write64_lem :
    (reg value : ℕ) (s : Pic) (d : Device)
    → reg < 255
    → value < 2 ^ 64
    → (s' : Pic) × (ioapic_write64 reg value s ≡ ok tt s')
      × (s'.isa_redirection_entry ≡ s.isa_redirection_entry)
      × (registers s' d reg ≡ value % 2 ^ 32)
      × (registers s' d (reg + 1) ≡ value / 2 ^ 32)
      × ((r : ℕ) → r ≢ reg → r ≢ reg + 1 → registers s' d r ≡ registers s d r)
unfolding ioapic_write64 ioapic_write32 store32
write64_lem reg value s d a b =
    let low : u32 (bit_and value 0xFFFF_FFFF) ≡ value % 2 ^ 32 =
      ap u32 (bit_and-mask 32 value) ∙ omega arith in
    let high : u32 (u32 (value >>> 32)) ≡ value / 2 ^ 32 = omega arith in
    let first : u32 reg ≡ reg = omega arith in
    let second : u32 (u8 (reg + 1)) ≡ reg + 1 = omega arith in
    let t = s.vmm.cpu.trace in
    let base = s.ioapic_base in
    let both : (r : ℕ)
        → registers (after_write64 reg value s) d r
          ≡ (written (reg + 1) (value / 2 ^ 32)
                (written reg (value % 2 ^ 32) (run base t d))).registers
              r =
      λ r.
        ap (λ (x : Device). x.registers r)
          (run-write base (reg + 1) (value / 2 ^ 32) (accesses base reg (value % 2 ^ 32) t) d
            ∙ ap (written (reg + 1) (value / 2 ^ 32)) (run-write base reg (value % 2 ^ 32) t d)) in
    (
      after_write64 reg value s,
      rw (low, high, first, second) refl,
      refl,
      both reg ∙ rw (eq→== reg reg refl, ne→== reg (reg + 1) (λ e. absurd (omega arith))) refl,
      both (reg + 1) ∙ rw (eq→== (reg + 1) (reg + 1) refl) refl,
      λ r ne ne'. both r ∙ rw (ne→== r reg ne, ne→== r (reg + 1) ne') refl,
    )
