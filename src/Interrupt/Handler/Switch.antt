-- ===== src/Interrupt/Handler/Switch.antt =====
-- Which vectors the handler acknowledges, case by case.
use umbral_os.Base.{ℕ, ◌≡◌, refl, arith, Bool, true, false, List, [], ◌∷◌, ◌==◌, if◌then◌else◌}
use umbral_os.Base.Leaves.{Leaves, Leaves-bind, Leaves-then}
use umbral_os.Base.Action.{Action, gets, panic, ◌>>=◌, ◌>>◌}
use umbral_os.Base.Text.{text}
use umbral_os.Intel.{reply}
use umbral_os.Intel.Unseen.{reply-Unseen}
use umbral_os.Common.Print.Format.{Arg, Printer}
use umbral_os.Serial.{serial_handle_interrupt}
use umbral_os.Ps2.{handle_port1_interrupt, handle_port2_interrupt}
use umbral_os.Pic.Lapic.{lapic_eoi}
use umbral_os.Console.{Writer, print}
use umbral_os.Base.Panics.{Panic, page_fault}
use umbral_os.Kernel.{Kernel, on_cpu, on_pic}
use umbral_os.Interrupt.Handler.{
  StackFrame, dump_interrupt_frame, handle, interrupt_handler, is_one_of_eight, unhandled,
}
use mathlib.Core.Path.{subst}
use umbral_os.Interrupt.Handler.Silent.{
  SilentDriver, count, eois, printer-Silent, dump-Silent, serial-Silent, port1-Silent, port2-Silent,
}
use umbral_os.Interrupt.Handler.Eoi.{
  is_isa, Acknowledged, apic, IsPlaced, on_cpu-Leaves, not_isa-Acknowledged, isa-Acknowledged,
  entered, enforce_smap_lem, eois-entered,
}

if-Acknowledged :
    (vector n : ℕ) (b : Bool) (m m' : Action Kernel (Unit {0})) (k : Kernel)
    → (b ≡ true → Acknowledged vector n (m k))
    → (b ≡ false → Acknowledged vector n (m' k))
    → Acknowledged vector n ((if b then m else m') k)
if-Acknowledged vector n true m m' k h h' = h refl
if-Acknowledged vector n false m m' k h h' = h' refl

-- The cases of the switch.
module _ (stack : List ℕ) (w : Writer) (f : StackFrame) (k : Kernel) (placed : IsPlaced k)
    (driver1 : SilentDriver k.port1_driver) (driver2 : SilentDriver k.port2_driver) where
  abbrev printer : Printer
  printer = print stack w

  print-Leaves : (fmt : List ℕ) (va : List Arg) → Leaves apic (on_cpu (printer fmt va))
  print-Leaves fmt va =
      on_cpu-Leaves (printer fmt va) (λ x2 base. printer-Silent stack w x2 base fmt va)

  dump-Leaves : Leaves apic (on_cpu (dump_interrupt_frame printer f))
  dump-Leaves =
      on_cpu-Leaves (dump_interrupt_frame printer f)
        (λ x2 base. dump-Silent x2 base printer (printer-Silent stack w x2 base) f)

  dump_panic-Leaves :
      (p : Panic) → Leaves {A = Unit {0}} apic (on_cpu (dump_interrupt_frame printer f) >> panic p)
  dump_panic-Leaves p =
      Leaves-then apic (on_cpu (dump_interrupt_frame printer f)) (panic p) dump-Leaves (λ s. refl)

  abbrev bp_branch : Action Kernel (Unit {0})
  bp_branch =
      on_cpu (dump_interrupt_frame printer f)
      >> on_cpu (printer (text "Continuing after #BP...\n") [])

  abbrev pf_branch : Action Kernel (Unit {0})
  pf_branch = do cr2 ← on_cpu reply; on_cpu (dump_interrupt_frame printer f); panic (page_fault cr2)

  abbrev kb_branch : Action Kernel (Unit {0})
  kb_branch = do
    driver ← gets (λ k. k.port1_driver)
    on_cpu (handle_port1_interrupt driver)
    on_pic lapic_eoi

  abbrev com1_branch : Action Kernel (Unit {0})
  com1_branch = on_cpu (serial_handle_interrupt printer) >> on_pic lapic_eoi

  abbrev mouse_branch : Action Kernel (Unit {0})
  mouse_branch = do
    driver ← gets (λ k. k.port2_driver)
    on_cpu (handle_port2_interrupt driver)
    on_pic lapic_eoi

  other :
      (vector : ℕ) (m : Action Kernel (Unit {0}))
      → is_isa vector ≡ false
      → Leaves apic m
      → Acknowledged vector (eois k) (m k)
  other vector m not_isa h = not_isa-Acknowledged vector k (m k) not_isa (h k)

  isa :
      (vector : ℕ) (m : Action Kernel (Unit {0}))
      → is_isa vector ≡ true
      → Leaves apic m
      → Acknowledged vector (eois k) ((m >> on_pic lapic_eoi) k)
  isa vector m is_isa h = isa-Acknowledged vector k (m k) is_isa placed (h k)

  bp_case : (vector : ℕ) → is_isa vector ≡ false → Acknowledged vector (eois k) (bp_branch k)
  bp_case vector not_isa =
      other vector bp_branch not_isa (
        Leaves-then apic (on_cpu (dump_interrupt_frame printer f)) _ dump-Leaves (print-Leaves _ _))

  pf_case : (vector : ℕ) → is_isa vector ≡ false → Acknowledged vector (eois k) (pf_branch k)
  pf_case vector not_isa = other vector pf_branch not_isa (
      Leaves-bind apic (on_cpu reply)
        (λ cr2. on_cpu (dump_interrupt_frame printer f) >> panic (page_fault cr2))
        (on_cpu-Leaves reply (λ x2 base. reply-Unseen (count x2 base) 0))
        (λ cr2. dump_panic-Leaves (page_fault cr2)))

  kb_case : (vector : ℕ) → is_isa vector ≡ true → Acknowledged vector (eois k) (kb_branch k)
  kb_case vector is_isa = isa vector (on_cpu (handle_port1_interrupt k.port1_driver)) is_isa (
      on_cpu-Leaves (handle_port1_interrupt k.port1_driver)
        (λ x2 base. port1-Silent x2 base k.port1_driver (driver1 x2 base)))

  com1_case : (vector : ℕ) → is_isa vector ≡ true → Acknowledged vector (eois k) (com1_branch k)
  com1_case vector is_isa = isa vector (on_cpu (serial_handle_interrupt printer)) is_isa (
      on_cpu-Leaves (serial_handle_interrupt printer)
        (λ x2 base. serial-Silent x2 base printer (printer-Silent stack w x2 base)))

  mouse_case : (vector : ℕ) → is_isa vector ≡ true → Acknowledged vector (eois k) (mouse_branch k)
  mouse_case vector is_isa = isa vector (on_cpu (handle_port2_interrupt k.port2_driver)) is_isa (
      on_cpu-Leaves (handle_port2_interrupt k.port2_driver)
        (λ x2 base. port2-Silent x2 base k.port2_driver (driver2 x2 base)))

  said :
      (fmt : List ℕ) (va : List Arg) (vector : ℕ)
      → is_isa vector ≡ false
      → Acknowledged vector (eois k) (on_cpu (printer fmt va) k)
  said fmt va vector not_isa = other vector (on_cpu (printer fmt va)) not_isa (print-Leaves fmt va)

  unknown_case :
      (vector : ℕ)
      → is_isa vector ≡ false
      → Acknowledged vector
          (eois k)
          ((on_cpu (dump_interrupt_frame printer f) >> panic (unhandled vector)) k)
  unknown_case vector not_isa =
      other vector (on_cpu (dump_interrupt_frame printer f) >> panic (unhandled vector)) not_isa
        (dump_panic-Leaves (unhandled vector))

  case_of :
      (vector : ℕ) (b : Bool) (m m' : Action Kernel (Unit {0}))
      → (b ≡ true → Acknowledged vector (eois k) (m k))
      → (b ≡ false → Acknowledged vector (eois k) (m' k))
      → Acknowledged vector (eois k) ((if b then m else m') k)
  case_of vector b m m' = if-Acknowledged vector (eois k) b m m' k

  handle-Acknowledged : (vector : ℕ) → Acknowledged vector (eois k) (handle printer vector f k)
  unfolding handle
  handle-Acknowledged vector =
      case_of vector (vector == 0x03) bp_branch _ (λ h1. bp_case vector (ground arith))
        (λ g1.
          case_of vector (vector == 0x0E) pf_branch _ (λ h2. pf_case vector (ground arith))
            (λ g2.
              case_of vector (is_one_of_eight 0x20 vector) _ _
                (λ h3.
                  said (text "Spurious Interrupt 0x%x (Legacy PIC Master)") (Arg.uint32 vector ∷ [])
                    vector (ground arith))
                (λ g3.
                  case_of vector (is_one_of_eight 0x28 vector) _ _
                    (λ h4.
                      said (text "Spurious Interrupt 0x%x (Legacy PIC Slave)")
                        (Arg.uint32 vector ∷ []) vector (ground arith))
                    (λ g4.
                      case_of vector (vector == 0x31) kb_branch _
                        (λ h5. kb_case vector (ground arith))
                        (λ g5.
                          case_of vector (vector == 0x34) com1_branch _
                            (λ h6. com1_case vector (ground arith))
                            (λ g6.
                              case_of vector (vector == 0x3C) mouse_branch _
                                (λ h7. mouse_case vector (ground arith))
                                (λ g7.
                                  case_of vector (vector == 0xFF) _ _
                                    (λ h8.
                                      said (text "Spurious Interrupt (LAPIC)") [] vector
                                        (ground arith))
                                    (λ g8. unknown_case vector (ground arith)))))))))

-- An interrupt that comes through the I/O APIC, which is the keyboard's, the serial port's or the
-- mouse's, is acknowledged once if the handler returns. No other vector is ever acknowledged: not an
-- exception, nor a spurious interrupt of the legacy controllers or of the local APIC. Nor is there an
-- end of interrupt where the handler does not return. The drivers are those that leave the local
-- APIC alone.
pub interrupt_handler-Acknowledged :
    (stack : List ℕ) (vector : ℕ) (f : StackFrame) (k : Kernel)
    → IsPlaced k
    → SilentDriver k.port1_driver
    → SilentDriver k.port2_driver
    → Acknowledged vector (eois k) (interrupt_handler stack vector f k)
unfolding interrupt_handler
interrupt_handler-Acknowledged stack vector f k placed driver1 driver2 = rw (enforce_smap_lem k) (
    subst (λ n. Acknowledged vector n (handle (print stack k.writer) vector f (entered k)))
      (eois-entered k)
      (handle-Acknowledged stack k.writer f (entered k) placed driver1 driver2 vector))
