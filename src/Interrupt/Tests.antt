-- ===== src/Interrupt/Tests.antt =====
-- A key and a click.
use umbral_os.Base.{
  ℕ, ◌+◌, ◌^◌, ◌≡◌, refl, arith, false, true, none, List, [], ◌∷◌, ◌++◌, replicate,
}
use umbral_os.Intel.{Event, inb, store32}
use umbral_os.Security.{enforce_smap}
use umbral_os.Pic.Lapic.{lapic_write, lapic_eoi}
use umbral_os.Ps2.{handle_port1_interrupt, handle_port2_interrupt}
use umbral_os.Console.{Writer}
use umbral_os.Kernel.{Kernel}
use umbral_os.Interrupt.Handler.{StackFrame, handle, interrupt_handler}
use umbral_os.Interrupt.Handler.Silent.{eois}
use umbral_os.Interrupt.Sequence.{Handled, rest, next, isa_count, eois-Handled}

abbrev garbage : List ℕ
garbage = replicate 21 0xcc

abbrev frame : StackFrame
frame = record {
  r11 = 0;
  r10 = 16;
  r9 = 32;
  r8 = 48;
  rsi = 64;
  rdx = 80;
  rcx = 96;
  rax = 112;
  rdi = 128;
  reserved = 144;
  error_code = 160;
  rip = 176;
  cs = 192;
  rflags = 208;
  rsp = 224;
  ss = 240;
}

abbrev kernel : List ℕ → List Event → Kernel
kernel replies trace = record {
  pic = record {
    vmm = record {
      pmm = record { hhdm = 2 ^ 47; num_pages = 16; bitmap_base = 2 ^ 47; bitmap = 0 ∷ 0 ∷ [] };
      mem = λ x. 0;
      pml4 = 2 ^ 47 + 0x1000;
      cpu = record { replies = replies; trace = trace };
    };
    ioapic_base = 0;
    isa_redirection_entry = [];
    has_x2apic = false;
    lapic_base = 2 ^ 47 + 0xFEE0_0000;
  };
  writer = Writer.serial;
  early_init_complete = true;
  has_i8042 = true;
  has_smap = false;
  port1_driver = none;
  port2_driver = none;
  gdt = [];
  idt = [];
}

abbrev key : List Event
key = Event.in_port 0x60 0x1E ∷ Event.stored32 (2 ^ 47 + 0xFEE0_00B0) 0 ∷ []

abbrev click : List Event
click = Event.in_port 0x60 0x08 ∷ Event.stored32 (2 ^ 47 + 0xFEE0_00B0) 0 ∷ []

key_then_click :
    Handled garbage (kernel (0x1E ∷ 0x08 ∷ []) []) (0x31 ∷ 0x3C ∷ []) (kernel [] (key ++ click))
unfolding interrupt_handler handle enforce_smap lapic_eoi lapic_write store32 inb
    handle_port1_interrupt handle_port2_interrupt
key_then_click = next 0x31 frame refl (next 0x3C frame refl rest)

eois-Handled_example :
    eois (kernel [] (key ++ click))
    ≡ eois (kernel (0x1E ∷ 0x08 ∷ []) []) + isa_count (0x31 ∷ 0x3C ∷ [])
eois-Handled_example =
    eois-Handled garbage (0x31 ∷ 0x3C ∷ []) (kernel (0x1E ∷ 0x08 ∷ []) [])
      (kernel [] (key ++ click)) (omega arith) (λ x2 base. tt) (λ x2 base. tt) key_then_click
