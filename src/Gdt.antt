-- ===== src/Gdt.antt =====
-- gdt.c: the global descriptor table, as 64-bit words, and the descriptors' bit-fields of intel.h.
-- The addresses of the two objects are arguments. `flush_gdt` is an assembler routine: the call is
-- recorded.
pub mod Laws
mod Tests
use umbral_os.Base.{
  ℕ, zero, suc, ◌+◌, ◌-◌, ◌*◌, ◌/◌, ◌%◌, bit_and, bit_or, List, [], ◌∷◌, get_or, set, length,
}
use umbral_os.Base.Word.{u16, ◌<<◌, ◌>>>◌}
use umbral_os.Base.Fields.{FieldWrite, total, member, write_fields}
use umbral_os.Base.Action.{Action, Outcome, gets, modify, within, ◌>>=◌, ◌>>◌}
use umbral_os.Intel.{Cpu, Event, record_event}

pub record Gdt : Type 0 where
  pub entries : List ℕ
  pub cpu : Cpu

abbrev pub on_cpu : {A : Type 0} → Action Cpu A → Action Gdt A
on_cpu = within (λ s. s.cpu) (λ c s. record s { cpu = c })

abbrev pub make_descriptor : (idx pl : ℕ) → ℕ
make_descriptor idx pl = u16 (bit_or (idx << 3) pl)

abbrev pub pl_kernel : ℕ
pl_kernel = 0

abbrev pub idx_null : ℕ
idx_null = 0

abbrev pub idx_code64 : ℕ
idx_code64 = 1

abbrev pub idx_data64 : ℕ
idx_data64 = 2

abbrev pub idx_tss : ℕ
idx_tss = 3

abbrev pub type_tss64_avail : ℕ
type_tss64_avail = 0x9

-- limit_low base_low a rw dc e s dpl p limit_high avl l db g base_high
abbrev pub segment_descriptor : List ℕ
segment_descriptor = 16 ∷ 24 ∷ 1 ∷ 1 ∷ 1 ∷ 1 ∷ 1 ∷ 2 ∷ 1 ∷ 4 ∷ 1 ∷ 1 ∷ 1 ∷ 1 ∷ 8 ∷ []

-- limit_low base_low type s dpl p limit_high avl reserved g base_high
abbrev pub system_descriptor_low : List ℕ
system_descriptor_low = 16 ∷ 24 ∷ 4 ∷ 1 ∷ 2 ∷ 1 ∷ 4 ∷ 1 ∷ 2 ∷ 1 ∷ 8 ∷ []

-- base_veryhigh reserved
abbrev pub system_descriptor_high : List ℕ
system_descriptor_high = 32 ∷ 32 ∷ []

-- The members of `struct tss`, from reserved0 to iomap_base.
abbrev pub tss : List ℕ
tss = 32 ∷ 64 ∷ 64 ∷ 64 ∷ 64 ∷ 64 ∷ 64 ∷ 64 ∷ 64 ∷ 64 ∷ 64 ∷ 64 ∷ 64 ∷ 16 ∷ 16 ∷ []

abbrev pub sizeof : List ℕ → ℕ
sizeof layout = total layout / 8

-- The designated initialisers, in order; the other digits are 0.
abbrev pub code64 : List FieldWrite
code64 =
    member segment_descriptor 2 1
    ∷ member segment_descriptor 3 1
    ∷ member segment_descriptor 4 0
    ∷ member segment_descriptor 5 1
    ∷ member segment_descriptor 6 1
    ∷ member segment_descriptor 7 pl_kernel
    ∷ member segment_descriptor 8 1
    ∷ member segment_descriptor 11 1
    ∷ member segment_descriptor 12 0
    ∷ member segment_descriptor 13 1
    ∷ []

abbrev pub data64 : List FieldWrite
data64 =
    member segment_descriptor 2 1
    ∷ member segment_descriptor 3 1
    ∷ member segment_descriptor 4 0
    ∷ member segment_descriptor 5 0
    ∷ member segment_descriptor 6 1
    ∷ member segment_descriptor 7 pl_kernel
    ∷ member segment_descriptor 8 1
    ∷ member segment_descriptor 11 0
    ∷ member segment_descriptor 12 1
    ∷ member segment_descriptor 13 1
    ∷ []

abbrev pub tss_low : List FieldWrite
tss_low =
    member system_descriptor_low 0 (bit_and (sizeof tss - 1) 0xFFFF)
    ∷ member system_descriptor_low 2 type_tss64_avail
    ∷ member system_descriptor_low 3 0
    ∷ member system_descriptor_low 4 pl_kernel
    ∷ member system_descriptor_low 5 1
    ∷ member system_descriptor_low 6 (bit_and ((sizeof tss - 1) >>> 16) 0xF)
    ∷ []

-- The table before `load_gdt`.
unfoldable pub initial : List ℕ
initial = 0 ∷ write_fields code64 0 ∷ write_fields data64 0 ∷ write_fields tss_low 0 ∷ 0 ∷ []

-- The assignments to the two entries of the task state segment.
abbrev pub base_low_high : ℕ → List FieldWrite
base_low_high tss_address =
    member system_descriptor_low 1 (bit_and (tss_address >>> 0) 0xFF_FFFF)
    ∷ member system_descriptor_low 10 (bit_and (tss_address >>> 24) 0xFF)
    ∷ []

abbrev pub base_veryhigh : ℕ → List FieldWrite
base_veryhigh tss_address =
    member system_descriptor_high 0 (bit_and (tss_address >>> 32) 0xFFFF_FFFF) ∷ []

-- Assignments to fields of one entry.
abbrev pub assign : ℕ → List FieldWrite → Action Gdt (Unit {0})
assign i fields =
    modify
      (λ s. record s { entries = set s.entries i (write_fields fields (get_or s.entries i 0)) })

unfoldable pub load_gdt : (gdt_address tss_address : ℕ) → Action Gdt (Unit {0})
load_gdt gdt_address tss_address = do
  assign idx_tss (base_low_high tss_address)
  assign (idx_tss + 1) (base_veryhigh tss_address)
  size ← gets (λ s. 8 * length s.entries)
  on_cpu (record_event (Event.load_gdtr (u16 (size - 1)) gdt_address))
  on_cpu (record_event (Event.load_ldtr (make_descriptor idx_null pl_kernel)))
  on_cpu (record_event (Event.load_tr (make_descriptor idx_tss pl_kernel)))
  on_cpu (
      record_event (
        Event.flush_gdt (make_descriptor idx_code64 pl_kernel)
          (make_descriptor idx_null pl_kernel)))
