-- ===== src/Interrupt/Handler/Tests.antt =====
-- A kernel whose serial port always answers that it is free.
use umbral_os.Base.{
  ℕ, zero, suc, ◌+◌, ◌^◌, ◌≡◌, refl, arith, false, true, none, some, List, [], ◌∷◌, replicate,
}
use umbral_os.Base.Panics.{unhandled_mnemonic, Mnemonic, page_fault}
use umbral_os.Intel.{Cpu}
use umbral_os.Serial.Device.{Uart}
use umbral_os.Serial.Write.{Polls, done, idle}
use umbral_os.Console.{Writer}
use umbral_os.Console.Lines.{Sent, lines}
use umbral_os.Kernel.{Kernel, settle}
use umbral_os.Interrupt.Handler.{StackFrame, interrupt_handler, unhandled, vector_to_menemonic}
use umbral_os.Interrupt.Handler.Eoi.{Acknowledged, entered_cpu}
use umbral_os.Interrupt.Handler.Switch.{interrupt_handler-Acknowledged}
use umbral_os.Interrupt.Handler.Named.{printed, finished}
use umbral_os.Interrupt.Handler.Ends.{interrupt_handler-Reported, page_fault-Reported}
use umbral_os.Interrupt.Handler.Report.{ended, with_panic, frame_text}
use umbral_os.Console.Panics.{pieces}
use umbral_os.Common.Print.Number.Text.{text_loop}

abbrev garbage : List ℕ
garbage = replicate 21 0xcc

abbrev frame : StackFrame
frame = record {
  r11 = 0;
  r10 = 16;
  r9 = 32;
  r8 = 48;
  rsi = 64;
  rdx = 80;
  rcx = 96;
  rax = 112;
  rdi = 128;
  reserved = 144;
  error_code = 160;
  rip = 176;
  cs = 192;
  rflags = 208;
  rsp = 224;
  ss = 240;
}

abbrev port : Uart
port = record {
  divisor_low = 1;
  divisor_high = 0;
  interrupts = 1;
  fifo_control = 0xC7;
  line_control = 0x03;
  modem_control = 0x0B;
  sent = [];
}

abbrev kernel : List ℕ → Kernel
kernel replies = record {
  pic = record {
    vmm = record {
      pmm = record { hhdm = 2 ^ 47; num_pages = 16; bitmap_base = 2 ^ 47; bitmap = 0 ∷ 0 ∷ [] };
      mem = λ x. 0;
      pml4 = 2 ^ 47 + 0x1000;
      cpu = record { replies = replies; trace = [] };
    };
    ioapic_base = 0;
    isa_redirection_entry = [];
    has_x2apic = false;
    lapic_base = 2 ^ 47 + 0xFEE0_0000;
  };
  writer = Writer.serial;
  early_init_complete = true;
  has_i8042 = true;
  has_smap = true;
  port1_driver = none;
  port2_driver = none;
  gdt = [];
  idt = [];
}

-- A general protection exception, and a vector without a mnemonic.
mnemonic_of_13 : unhandled 13 ≡ unhandled_mnemonic Mnemonic.gp
unfolding vector_to_menemonic
mnemonic_of_13 = refl

-- The keyboard, with one byte at its port.
interrupt_handler-Acknowledged_example :
    Acknowledged 0x31 0 (interrupt_handler garbage 0x31 frame (kernel (0x1E ∷ [])))
interrupt_handler-Acknowledged_example =
    interrupt_handler-Acknowledged garbage 0x31 frame (kernel (0x1E ∷ [])) (omega arith)
      (λ x2 base. tt) (λ x2 base. tt)

idle_polls : (n : ℕ) → Polls n (replicate n 0x60) []
idle_polls zero = done
idle_polls (suc n) = idle refl (idle_polls n)

-- The spurious interrupt of the local APIC, whose report has 26 characters.
interrupt_handler-Reported_example :
    (t : Cpu) × (settle garbage (interrupt_handler garbage 0xFF frame) (kernel (replicate 26 0x60))
      ≡ finished true (kernel (replicate 26 0x60)) t)
    × Sent (entered_cpu (kernel (replicate 26 0x60))) port (lines (printed frame 0xFF)) [] t
interrupt_handler-Reported_example =
    interrupt_handler-Reported garbage refl port frame (kernel (replicate 26 0x60)) refl 0xFF []
      refl (λ e. absurd (omega arith)) (record { polls = idle_polls 26; line = refl })

-- A page fault at 0x1000: the answer of CR2, and then a line that is free for each character.
abbrev faulting : Kernel
faulting = kernel (0x1000 ∷ replicate 235 0x60)

abbrev answered : Cpu
answered = record (entered_cpu faulting) { replies = replicate 235 0x60 }

page_fault-Reported_example :
    (t : Cpu) × (settle garbage (interrupt_handler garbage 0x0E frame) faulting
      ≡ ended (some (page_fault 0x1000)) faulting t)
    × Sent answered port (lines (with_panic (some (page_fault 0x1000)) (frame_text frame))) [] t
unfolding pieces text_loop
page_fault-Reported_example =
    page_fault-Reported garbage refl port frame faulting refl 0x1000 (replicate 235 0x60) [] refl
      (record { polls = idle_polls 235; line = refl })
