-- ===== src/Interrupt/Sequence.antt =====
-- Interrupts one after the other, as steps, and what they keep.
use umbral_os.Base.{
  ℕ, suc, ◌+◌, ◌^◌, ◌≤◌, ◌≡◌, refl, sym, ap, ◌∙◌, arith, Bool, true, false, Option, List, [], ◌∷◌,
  ◌==◌, if◌then◌else◌, Bool-cases, inl, inr,
}
use mathlib.Core.Path.{subst}
use umbral_os.Base.Text.{text}
use umbral_os.Base.Panics.{page_fault}
use umbral_os.Base.Leaves.{final, Leaves, Leaves-bind, Leaves-then}
use umbral_os.Base.Action.{Action, Outcome, ok, panicked, faulted, panic, ◌>>◌}
use umbral_os.Intel.{Cpu, reply, wrmsr, store32}
use umbral_os.Common.Print.Format.{Arg, Printer}
use umbral_os.Pic.Lapic.{lapic_write, lapic_eoi}
use umbral_os.Serial.{serial_handle_interrupt}
use umbral_os.Ps2.{Driver, handle_port1_interrupt, handle_port2_interrupt}
use umbral_os.Console.{print}
use umbral_os.Kernel.{Kernel, on_cpu, on_pic}
use umbral_os.Interrupt.Handler.{
  StackFrame, dump_interrupt_frame, handle, interrupt_handler, is_one_of_eight, unhandled,
}
use umbral_os.Interrupt.Handler.Silent.{SilentDriver, eois}
use umbral_os.Interrupt.Handler.Eoi.{is_isa, Acknowledged, IsPlaced, entered, enforce_smap_lem}
use umbral_os.Interrupt.Handler.Switch.{interrupt_handler-Acknowledged}

-- The local APIC's place and the drivers.
abbrev kept : Kernel → ℕ × (Option Driver × Option Driver)
kept k = (k.pic.lapic_base, (k.port1_driver, k.port2_driver))

on_cpu-kept : {A : Type 0} (act : Action Cpu A) → Leaves kept (on_cpu act)
on_cpu-kept act k = go k (act k.pic.vmm.cpu)
  where
    go : {A : Type 0} (k : Kernel) (r : Outcome Cpu A) → kept (final (on_cpu (λ c. r) k)) ≡ kept k
    go k (ok a c) = refl
    go k (panicked p c) = refl
    go k (faulted e c) = refl

eoi-kept : Leaves kept (on_pic lapic_eoi)
unfolding lapic_eoi lapic_write wrmsr store32
eoi-kept k = elim (Bool-cases k.pic.has_x2apic) [ inl x2 ↦ rw x2 refl | inr xapic ↦ rw xapic refl ]

then_eoi-kept : (act : Action Cpu (Unit {0})) → Leaves kept (on_cpu act >> on_pic lapic_eoi)
then_eoi-kept act = Leaves-then kept (on_cpu act) (on_pic lapic_eoi) (on_cpu-kept act) eoi-kept

then_panic-kept :
    (act : Action Cpu (Unit {0})) (p : _) → Leaves {A = Unit {0}} kept (on_cpu act >> panic p)
then_panic-kept act p = Leaves-then kept (on_cpu act) (panic p) (on_cpu-kept act) (λ s. refl)

if-kept :
    (k : Kernel) (b : Bool) (m m' : Action Kernel (Unit {0}))
    → kept (final (m k)) ≡ kept k
    → kept (final (m' k)) ≡ kept k
    → kept (final ((if b then m else m') k)) ≡ kept k
if-kept k true m m' h h' = h
if-kept k false m m' h h' = h'

module _ (kprint : Printer) (f : StackFrame) (k : Kernel) where
  abbrev dump : Action Cpu (Unit {0})
  dump = dump_interrupt_frame kprint f

  handle-kept : (vector : ℕ) → kept (final (handle kprint vector f k)) ≡ kept k
  unfolding handle
  handle-kept vector =
      if-kept k (vector == 0x03) _ _
        (Leaves-then kept (on_cpu dump) (on_cpu (kprint (text "Continuing after #BP...\n") []))
          (on_cpu-kept dump) (on_cpu-kept (kprint (text "Continuing after #BP...\n") [])) k)
        (if-kept k (vector == 0x0E) _ _
          (Leaves-bind kept (on_cpu reply) (λ cr2. on_cpu dump >> panic (page_fault cr2))
            (on_cpu-kept reply) (λ cr2. then_panic-kept dump (page_fault cr2)) k)
          (if-kept k (is_one_of_eight 0x20 vector) _ _
            (on_cpu-kept
              (kprint (text "Spurious Interrupt 0x%x (Legacy PIC Master)") (Arg.uint32 vector ∷ []))
              k)
            (if-kept k (is_one_of_eight 0x28 vector) _ _
              (on_cpu-kept
                (kprint (text "Spurious Interrupt 0x%x (Legacy PIC Slave)")
                  (Arg.uint32 vector ∷ []))
                k)
              (if-kept k (vector == 0x31) _ _
                (then_eoi-kept (handle_port1_interrupt k.port1_driver) k)
                (if-kept k (vector == 0x34) _ _ (then_eoi-kept (serial_handle_interrupt kprint) k) (
                  if-kept k (vector == 0x3C) _ _
                    (then_eoi-kept (handle_port2_interrupt k.port2_driver) k)
                    (if-kept k (vector == 0xFF) _ _
                      (on_cpu-kept (kprint (text "Spurious Interrupt (LAPIC)") []) k)
                      (then_panic-kept dump (unhandled vector) k))))))))

handler-kept :
    (stack : List ℕ) (vector : ℕ) (f : StackFrame) (k : Kernel)
    → kept (final (interrupt_handler stack vector f k)) ≡ kept k
unfolding interrupt_handler
handler-kept stack vector f k =
    rw (enforce_smap_lem k) (handle-kept (print stack k.writer) f (entered k) vector)

-- The interrupts that were handled, each to its end.
pub data Handled (stack : List ℕ) : Kernel → List ℕ → Kernel → Type 0 where
  rest : {k : Kernel} → Handled stack k [] k
  next :
      {k k' k'' : Kernel} {vectors : List ℕ} (vector : ℕ) (f : StackFrame)
      → interrupt_handler stack vector f k ≡ ok tt k'
      → Handled stack k' vectors k''
      → Handled stack k (vector ∷ vectors) k''

-- How many of the vectors are the I/O APIC's.
abbrev pub isa_count : List ℕ → ℕ
isa_count [] = 0
isa_count (v ∷ vectors) = if is_isa v then suc (isa_count vectors) else isa_count vectors

one_handled :
    (stack : List ℕ) (vector : ℕ) (f : StackFrame) (k k' : Kernel)
    → IsPlaced k
    → SilentDriver k.port1_driver
    → SilentDriver k.port2_driver
    → interrupt_handler stack vector f k ≡ ok tt k'
    → (eois k' ≡ (if is_isa vector then eois k + 1 else eois k)) × (kept k' ≡ kept k)
one_handled stack vector f k k' placed driver1 driver2 e = (
  subst (λ r. Acknowledged vector (eois k) r) e
      (interrupt_handler-Acknowledged stack vector f k placed driver1 driver2),
  sym (ap (λ r. kept (final r)) e) ∙ handler-kept stack vector f k,
)

-- However many interrupts are handled, and in whatever order, there are as many ends of interrupt as
-- interrupts that came through the I/O APIC: none is left unacknowledged, so that the next can come,
-- and none is acknowledged twice.
pub eois-Handled :
    (stack vectors : List ℕ) (k k' : Kernel)
    → IsPlaced k
    → SilentDriver k.port1_driver
    → SilentDriver k.port2_driver
    → Handled stack k vectors k'
    → eois k' ≡ eois k + isa_count vectors
eois-Handled stack _ k _ placed driver1 driver2 rest = omega arith
eois-Handled stack _ k k'' placed driver1 driver2 (next {k'} {vectors} vector f e handled) =
    let (counted, same) = one_handled stack vector f k k' placed driver1 driver2 e in
    let later =
      eois-Handled stack vectors k' k''
        (subst (λ b. b + 0x410 ≤ 2 ^ 64) (sym (ap (λ x. x.0) same)) placed)
        (subst SilentDriver (sym (ap (λ x. x.1.0) same)) driver1)
        (subst SilentDriver (sym (ap (λ x. x.1.1) same)) driver2) handled in
    let counted_isa = λ (isa : is_isa vector ≡ true).
      subst (λ b. eois k' ≡ (if b then eois k + 1 else eois k)) isa counted in
    let counted_other = λ (other : is_isa vector ≡ false).
      subst (λ b. eois k' ≡ (if b then eois k + 1 else eois k)) other counted in
    elim (Bool-cases (is_isa vector)) [
      | inl isa ↦ rw isa (omega (arith, later, counted_isa isa))
      | inr other ↦ rw other (omega (arith, later, counted_other other))
    ]
