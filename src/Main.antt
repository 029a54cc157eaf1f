-- ===== src/Main.antt =====
-- main.c: the order of the kernel's start. What the boot loader answers, the terminal of the frame
-- buffer, which is another project's library, and the addresses that the linker chooses are
-- arguments. An interrupt that arrives in between is not part of the run.
pub mod Fp
mod Tests
use umbral_os.Base.{
  ℕ, ◌+◌, ◌-◌, ◌^◌, bit_and, bit_or, Bool, true, false, Option, none, some, List, [], ◌∷◌,
  if◌then◌else◌,
}
use umbral_os.Base.Word.{◌<<◌}
use umbral_os.Base.Text.{text}
use umbral_os.Base.Panics.{no_rsdp}
use umbral_os.Base.Action.{Action, Outcome, gets, pure, panic, ◌>>=◌, ◌>>◌}
use umbral_os.Intel.{Cpu, Event, record_event, reply}
use umbral_os.Limine.{MemmapEntry, MemmapType}
use umbral_os.Common.Print.Format.{Arg, Printer}
use umbral_os.Mm.Pmm
use umbral_os.Mm.Pmm.{reclaim}
use umbral_os.Mm.Vmm.{pmm_zero}
use umbral_os.Mm.Vmm.Boot.{Executable, vmm_init}
use umbral_os.Serial.{serial_early_init, serial_init}
use umbral_os.Acpi.{acpi_parse_rsdp, acpi_has_legacy_feature, legacy_feature_i8042}
use umbral_os.Security.{security_init, cr4}
use umbral_os.Gdt.{load_gdt}
use umbral_os.Interrupt.Table.{load_idt}
use umbral_os.Interrupt.Handler.{StackFrame, interrupt_handler}
use umbral_os.Ps2.{ps2_init}
use umbral_os.Console.{Writer, print, halt}
use umbral_os.Kernel.{
  Kernel, on_pic, on_vmm, on_pmm, on_cpu, on_serial, on_acpi, on_security, on_gdt, on_idt,
  kprint_configure, kprint, kalloc, kfree, settle,
}

abbrev pub default_stack_size : ℕ
default_stack_size = 0x10000

abbrev pub cr0 : ℕ
cr0 = 0

abbrev pub cr0_ne : ℕ
cr0_ne = 1 << 5

abbrev pub cr0_ts : ℕ
cr0_ts = 1 << 3

abbrev pub cr0_em : ℕ
cr0_em = 1 << 2

abbrev pub cr0_mp : ℕ
cr0_mp = 1 << 1

abbrev pub cr4_osxmmexcpt : ℕ
cr4_osxmmexcpt = 1 << 10

abbrev pub cr4_osfxsr : ℕ
cr4_osfxsr = 1 << 9

-- `~` of an `int`, as a 64-bit number.
abbrev pub not64 : ℕ → ℕ
not64 x = 2 ^ 64 - 1 - x

unfoldable pub fp_init : Action Cpu (Unit {0})
fp_init = do
  initial ← reply
  let without_em = bit_and initial (not64 cr0_em)
  let value = bit_or without_em (bit_or (bit_or cr0_ne cr0_ts) cr0_mp)
  record_event (Event.load_register cr0 value)
  initial4 ← reply
  record_event (Event.load_register cr4 (bit_or initial4 (bit_or cr4_osxmmexcpt cr4_osfxsr)))

-- The opcodes of `sti` and of `int $3`.
abbrev pub sti : ℕ
sti = 0xfb

abbrev pub int3 : ℕ
int3 = 0xcc

unfoldable pub enable_interrupts : Action Cpu (Unit {0})
enable_interrupts = record_event (Event.instruction sti)

-- What `main` hands on of the frame buffer.
pub record Framebuffer : Type 0 where
  pub address : ℕ
  pub width : ℕ
  pub height : ℕ
  pub pitch : ℕ
  pub red_mask_size : ℕ
  pub red_mask_shift : ℕ
  pub green_mask_size : ℕ
  pub green_mask_shift : ℕ
  pub blue_mask_size : ℕ
  pub blue_mask_shift : ℕ

-- What the boot loader answers: the first frame buffer where there is one, and the address of the
-- RSDP where there is one.
pub record Responses : Type 0 where
  pub executable : Executable
  pub memmap : List MemmapEntry
  pub type_code : MemmapType → ℕ
  pub hhdm_offset : ℕ
  pub framebuffer : Option Framebuffer
  pub rsdp : Option ℕ

-- What is chosen outside the sources: the addresses of the tables and of the stubs, what may be read
-- from an address on, the registers at `int $3`, DEBUG_CHECKS, and `flanterm_fb_init`, which is given
-- `kalloc` and `kfree`.
pub record Machine : Type 0 where
  pub gdt_address : ℕ
  pub tss_address : ℕ
  pub idt_address : ℕ
  pub stubs : ℕ → ℕ
  pub memory : ℕ → List ℕ
  pub breakpoint_frame : StackFrame
  pub debug_checks : Bool
  pub flanterm_fb_init :
      (ℕ → Action Kernel ℕ)
      → (ℕ → ℕ → Action Kernel (Unit {0}))
      → Framebuffer
      → Action Kernel (Unit {0})

-- `stack` is what the number buffers hold before they are written.
module _ (stack : List ℕ) (m : Machine) (r : Responses) where
  -- `if (framebuffer_count > 0) { ... }`
  unfoldable pub start_terminal : Option Framebuffer → Action Kernel (Unit {0})
  start_terminal none = pure tt
  start_terminal (some fb) =
      m.flanterm_fb_init (kalloc stack) (kfree stack) fb
      >> kprint_configure Writer.serial_and_terminal

  unfoldable pub parse_acpi : Option ℕ → Action Kernel (Unit {0})
  parse_acpi none = panic no_rsdp
  parse_acpi (some address) = do
    writer ← gets (λ k. k.writer)
    on_acpi (acpi_parse_rsdp (print stack writer) m.memory (m.memory address))

  -- The statements of `main` up to the interrupts.
  unfoldable pub start_memory : Action Kernel (Unit {0})
  start_memory = do
    on_security security_init
    on_serial serial_early_init
    kprint_configure Writer.serial
    kprint stack (text "Kernel Base: 0x%lx\n") (Arg.uint64 r.executable.virtual_base ∷ [])
    on_gdt (load_gdt m.gdt_address m.tss_address)
    on_idt (load_idt m.idt_address m.stubs)
    on_pmm (Pmm.init r.memmap r.hhdm_offset)
    writer ← gets (λ k. k.writer)
    on_vmm (vmm_init (print stack writer) r.type_code r.memmap r.executable)
    start_terminal r.framebuffer
    parse_acpi r.rsdp

  -- The statements from there on, up to `halt`.
  unfoldable pub start_devices : ℕ → Action Kernel (Unit {0})
  start_devices stack_origin = do
    on_cpu enable_interrupts
    on_pmm (reclaim r.memmap stack_origin default_stack_size)
    (if m.debug_checks then on_vmm pmm_zero else pure tt)
    on_serial serial_init
    has_i8042 ← on_acpi (acpi_has_legacy_feature legacy_feature_i8042)
    writer ← gets (λ k. k.writer)
    (if has_i8042 then on_pic (ps2_init (print stack writer)) else pure tt)
    on_cpu fp_init
    on_cpu (record_event (Event.instruction int3))
    interrupt_handler stack 0x03 m.breakpoint_frame
    kprint stack (text "Boot Complete!\n") []

  -- A panic on the way prints its text and stops the processor.
  unfoldable pub main : ℕ → Action Kernel (Unit {0})
  main stack_origin = settle stack (start_memory >> start_devices stack_origin >> on_cpu halt)
