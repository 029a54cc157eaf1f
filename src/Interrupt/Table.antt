-- ===== src/Interrupt/Table.antt =====
-- The interrupt descriptor table, as one number of 128 binary digits for each entry, and
-- `load_idt`. The addresses of the stubs, which are assembler routines, and of the table are
-- arguments.
pub mod Laws
mod Tests
use umbral_os.Base.{
  ℕ, zero, suc, ◌+◌, ◌-◌, ◌*◌, bit_and, List, [], ◌∷◌, get_or, set, replicate, length,
}
use umbral_os.Base.Word.{u16, ◌>>>◌}
use umbral_os.Base.Fields.{FieldWrite, member, write_fields}
use umbral_os.Base.Action.{Action, gets, modify, within, ◌>>=◌, ◌>>◌}
use umbral_os.Intel.{Cpu, Event, record_event}
use umbral_os.Gdt.{make_descriptor, idx_code64, pl_kernel}

-- IDT, beside the processor.
pub record Idt : Type 0 where
  pub entries : List ℕ
  pub cpu : Cpu

abbrev pub on_cpu : {A : Type 0} → Action Cpu A → Action Idt A
on_cpu = within (λ s. s.cpu) (λ c s. record s { cpu = c })

abbrev pub idt_idx_max : ℕ
idt_idx_max = 0xFF

abbrev pub type_intr64 : ℕ
type_intr64 = 0xE

-- The numbers that FOR_EACH_INTERRUPT lists, in order.
abbrev pub count_up : (count first : ℕ) → List ℕ
count_up zero x = []
count_up (suc count) x = x ∷ count_up count (x + 1)

abbrev pub interrupts : List ℕ
interrupts = count_up 256 0

-- offset_low segment_selector ist reserved0 type reserved1 dpl p offset_high reserved2
abbrev pub idt_entry : List ℕ
idt_entry = 16 ∷ 16 ∷ 3 ∷ 5 ∷ 4 ∷ 1 ∷ 2 ∷ 1 ∷ 48 ∷ 32 ∷ []

-- The initialiser of an entry.
abbrev pub interrupt_gate : List FieldWrite
interrupt_gate =
    member idt_entry 1 (make_descriptor idx_code64 pl_kernel)
    ∷ member idt_entry 4 type_intr64
    ∷ member idt_entry 7 1
    ∷ []

-- The assignments of `load_idt` to an entry.
abbrev pub gate_offset : ℕ → List FieldWrite
gate_offset stub =
    member idt_entry 0 (bit_and (stub >>> 0) 0xFFFF)
    ∷ member idt_entry 8 (bit_and (stub >>> 16) 0xFFFF_FFFF_FFFF)
    ∷ []

-- An expansion of the macro: assignments to the entry of each number.
pub for_each : (ℕ → List FieldWrite) → List ℕ → List ℕ → List ℕ
for_each fields [] table = table
for_each fields (x ∷ xs) table =
    for_each fields xs (set table x (write_fields (fields x) (get_or table x 0)))

-- The table before `load_idt`.
unfoldable pub initial : List ℕ
initial = for_each (λ x. interrupt_gate) interrupts (replicate (idt_idx_max + 1) 0)

unfoldable pub load_idt : (idt_address : ℕ) (stubs : ℕ → ℕ) → Action Idt (Unit {0})
load_idt idt_address stubs = do
  modify (λ s. record s { entries = for_each (λ x. gate_offset (stubs x)) interrupts s.entries })
  size ← gets (λ s. 16 * length s.entries)
  on_cpu (record_event (Event.load_idtr (u16 (size - 1)) idt_address))
