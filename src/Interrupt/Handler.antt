-- ===== src/Interrupt/Handler.antt =====
-- `interrupt_handler`, which the stubs call with the vector and the registers that they saved.
pub mod Silent
pub mod Eoi
pub mod Switch
pub mod Report
pub mod Named
pub mod Ends
mod Tests
use umbral_os.Base.{
  ℕ, ◌+◌, Bool, true, false, ◌&&◌, Option, none, some, List, [], ◌∷◌, ltb, leb, ◌==◌, if◌then◌else◌,
}
use umbral_os.Base.Text.{text}
use umbral_os.Base.Panics.{
  Panic, Mnemonic, page_fault, unhandled_mnemonic, unhandled_exception, unhandled_interrupt,
}
use umbral_os.Base.Action.{Action, gets, pure, panic, ◌>>=◌, ◌>>◌}
use umbral_os.Intel.{Cpu, reply}
use umbral_os.Common.Print.Format.{Arg, Printer}
use umbral_os.Security.{enforce_smap}
use umbral_os.Pic.Lapic.{lapic_eoi}
use umbral_os.Pic.Ioapic.{isa_base}
use umbral_os.Serial.{serial_handle_interrupt, irq_com1}
use umbral_os.Ps2.{irq_kb, irq_mouse, handle_port1_interrupt, handle_port2_interrupt}
use umbral_os.Console.{print}
use umbral_os.Kernel.{Kernel, on_cpu, on_pic, on_security}

pub record StackFrame : Type 0 where
  pub r11 : ℕ
  pub r10 : ℕ
  pub r9 : ℕ
  pub r8 : ℕ
  pub rsi : ℕ
  pub rdx : ℕ
  pub rcx : ℕ
  pub rax : ℕ
  pub rdi : ℕ
  pub reserved : ℕ
  pub error_code : ℕ
  pub rip : ℕ
  pub cs : ℕ
  pub rflags : ℕ
  pub rsp : ℕ
  pub ss : ℕ

abbrev pub exception_bp : ℕ
exception_bp = 0x03

abbrev pub exception_pf : ℕ
exception_pf = 0x0E

abbrev pub legacy_pic_master_base : ℕ
legacy_pic_master_base = 0x20

abbrev pub legacy_pic_slave_base : ℕ
legacy_pic_slave_base = 0x28

abbrev pub lapic_spurious : ℕ
lapic_spurious = 0xFF

-- The mnemonics by their vectors.
abbrev pub mnemonics : List (ℕ × Mnemonic)
mnemonics =
    (0, Mnemonic.de)
    ∷ (1, Mnemonic.db)
    ∷ (2, Mnemonic.nmi)
    ∷ (3, Mnemonic.bp)
    ∷ (4, Mnemonic.of_)
    ∷ (5, Mnemonic.br)
    ∷ (6, Mnemonic.ud)
    ∷ (7, Mnemonic.nm)
    ∷ (8, Mnemonic.df)
    ∷ (9, Mnemonic.cso)
    ∷ (10, Mnemonic.ts)
    ∷ (11, Mnemonic.np)
    ∷ (12, Mnemonic.ss)
    ∷ (13, Mnemonic.gp)
    ∷ (14, Mnemonic.pf)
    ∷ (16, Mnemonic.mf)
    ∷ (17, Mnemonic.ac)
    ∷ (18, Mnemonic.mc)
    ∷ (19, Mnemonic.xm)
    ∷ (20, Mnemonic.ve)
    ∷ (21, Mnemonic.cp)
    ∷ (28, Mnemonic.hv)
    ∷ (29, Mnemonic.vc)
    ∷ (30, Mnemonic.sx)
    ∷ []

abbrev pub find : ℕ → List (ℕ × Mnemonic) → Option Mnemonic
find vector [] = none
find vector ((v, m) ∷ rest) = if vector == v then some m else find vector rest

unfoldable pub vector_to_menemonic : ℕ → Option Mnemonic
vector_to_menemonic vector = find vector mnemonics

-- The formats of the sixteen calls, each with the value that it prints.
abbrev pub frame_lines : StackFrame → List (List ℕ × ℕ)
frame_lines f =
    (text "r11: 0x%lx\n", f.r11)
    ∷ (text "r10: 0x%lx\n", f.r10)
    ∷ (text "r9: 0x%lx\n", f.r9)
    ∷ (text "r8: 0x%lx\n", f.r8)
    ∷ (text "rsi: 0x%lx\n", f.rsi)
    ∷ (text "rdx: 0x%lx\n", f.rdx)
    ∷ (text "rcx: 0x%lx\n", f.rcx)
    ∷ (text "rax: 0x%lx\n", f.rax)
    ∷ (text "rdi: 0x%lx\n", f.rdi)
    ∷ (text "reserved: 0x%lx\n", f.reserved)
    ∷ (text "error_code: 0x%lx\n", f.error_code)
    ∷ (text "rip: 0x%lx\n", f.rip)
    ∷ (text "cs: 0x%lx\n", f.cs)
    ∷ (text "rflags: 0x%lx\n", f.rflags)
    ∷ (text "rsp: 0x%lx\n", f.rsp)
    ∷ (text "ss: 0x%lx\n", f.ss)
    ∷ []

abbrev pub print_values : Printer → List (List ℕ × ℕ) → Action Cpu (Unit {0})
print_values kprint [] = pure tt
print_values kprint ((fmt, value) ∷ rest) =
    kprint fmt (Arg.uint64 value ∷ []) >> print_values kprint rest

unfoldable pub dump_interrupt_frame : Printer → StackFrame → Action Cpu (Unit {0})
dump_interrupt_frame kprint f = print_values kprint (frame_lines f)

-- The panic of the last case.
abbrev pub unhandled : ℕ → Panic
unhandled vector = elim (vector_to_menemonic vector) [
  | some mnemonic ↦ unhandled_mnemonic mnemonic
  | none ↦ if ltb vector 32 then unhandled_exception vector else unhandled_interrupt vector
]

-- One of the eight vectors from `base` on.
abbrev pub is_one_of_eight : (base vector : ℕ) → Bool
is_one_of_eight base vector = leb base vector && ltb vector (base + 8)

module _ (kprint : Printer) where
  -- The switch, with the printer that is configured.
  unfoldable pub handle : ℕ → StackFrame → Action Kernel (Unit {0})
  handle vector frame =
      if vector == exception_bp
      then (do
        on_cpu (dump_interrupt_frame kprint frame)
        on_cpu (kprint (text "Continuing after #BP...\n") []))
      else if vector == exception_pf
      then (do
        cr2 ← on_cpu reply
        on_cpu (dump_interrupt_frame kprint frame)
        panic (page_fault cr2))
      else if is_one_of_eight legacy_pic_master_base vector
      then on_cpu
          (kprint (text "Spurious Interrupt 0x%x (Legacy PIC Master)") (Arg.uint32 vector ∷ []))
      else if is_one_of_eight legacy_pic_slave_base vector
      then on_cpu
          (kprint (text "Spurious Interrupt 0x%x (Legacy PIC Slave)") (Arg.uint32 vector ∷ []))
      else if vector == isa_base + irq_kb
      then (do
        driver ← gets (λ k. k.port1_driver)
        on_cpu (handle_port1_interrupt driver)
        on_pic lapic_eoi)
      else if vector == isa_base + irq_com1
      then (do on_cpu (serial_handle_interrupt kprint); on_pic lapic_eoi)
      else if vector == isa_base + irq_mouse
      then (do
        driver ← gets (λ k. k.port2_driver)
        on_cpu (handle_port2_interrupt driver)
        on_pic lapic_eoi)
      else if vector == lapic_spurious
      then on_cpu (kprint (text "Spurious Interrupt (LAPIC)") [])
      else (do on_cpu (dump_interrupt_frame kprint frame); panic (unhandled vector))

-- `stack` is what the number buffers hold before they are written.
module _ (stack : List ℕ) where
  unfoldable pub interrupt_handler : ℕ → StackFrame → Action Kernel (Unit {0})
  interrupt_handler vector frame = do
    on_security enforce_smap
    writer ← gets (λ k. k.writer)
    handle (print stack writer) vector frame
