-- ===== src/Interrupt/Handler/Ends.antt =====
-- The cases of the handler: what they print on the serial line, and how they end.
use umbral_os.Base.{
  ℕ, ◌≤◌, ◌<◌, ◌≡◌, ◌≢◌, refl, sym, ◌∙◌, arith, true, false, ◌&&◌, Option, none, some, List, ◌∷◌,
  ◌==◌, ne→==, ==→eq, ltb, leb, length, Bool-cases, inl, inr,
}
use native.Mathlib.Decide.{dec_le}
use umbral_os.Base.Action.{Action}
use umbral_os.Base.Panics.{Panic, page_fault}
use umbral_os.Intel.{Cpu}
use umbral_os.Common.Print.Format.Pieces.{Piece}
use umbral_os.Serial.Device.{Uart}
use umbral_os.Console.{print}
use umbral_os.Console.Lines.{is_serial, lines, IsReady, Sent}
use umbral_os.Console.Panics.{words}
use umbral_os.Kernel.{Kernel, at_cpu, settle}
use umbral_os.Interrupt.Handler.{
  StackFrame, dump_interrupt_frame, handle, interrupt_handler, unhandled,
}
use umbral_os.Interrupt.Handler.Eoi.{is_isa, enforce_smap_lem}
use umbral_os.Interrupt.Handler.Report.{
  frame_text, spurious, ended, panic_of, text_of, with_panic, text_then_panic, one_then_return,
  text_then_one,
}
use umbral_os.Interrupt.Handler.Eoi.{entered_cpu}
use umbral_os.Interrupt.Handler.Named.{
  goes_on, printed, finished, with_panic-printed, ended-finished,
}
use mathlib.Core.Path.{subst}

module _ (stack : List ℕ) (size : length stack ≡ 21) (d : Uart) (f : StackFrame) (k : Kernel)
    (to_line : is_serial k.writer ≡ true) where
  abbrev pub Reported :
      Action Kernel (Unit {0}) → List (List Piece) → Option Panic → Cpu → List ℕ → Type 0
  Reported m pss o s rest =
      IsReady s d (lines (with_panic o pss)) rest
      → (t : Cpu) × (settle stack m (at_cpu k s) ≡ ended o k t)
        × Sent s d (lines (with_panic o pss)) rest t

  bp-Reported :
      (s : Cpu) (rest : List ℕ)
      → Reported (handle (print stack k.writer) 0x03 f) (text_of f 0x03) none s rest
  unfolding handle dump_interrupt_frame
  bp-Reported s rest =
      text_then_one stack size d f k to_line (frame_text f) (words "Continuing after #BP...\n") rest
        s refl refl

  master-Reported :
      (vector : ℕ) (s : Cpu) (rest : List ℕ)
      → 0x20 ≤ vector
      → vector < 0x28
      → Reported
          (handle (print stack k.writer) vector f)
          (text_of f vector)
          (panic_of vector)
          s
          rest
  unfolding handle
  master-Reported vector s rest low high =
      let no_bp : (vector == 0x03) ≡ false = ground arith in
      let no_pf : (vector == 0x0E) ≡ false = ground arith in
      let master : (leb 0x20 vector && ltb vector 0x28) ≡ true = ground arith in
      let legacy : (leb 0x20 vector && ltb vector 0x30) ≡ true = ground arith in
      rw (no_bp, no_pf, master, legacy)
        (one_then_return stack size d f k to_line (spurious vector " (Legacy PIC Master)") rest s
          refl)

  slave-Reported :
      (vector : ℕ) (s : Cpu) (rest : List ℕ)
      → 0x28 ≤ vector
      → vector < 0x30
      → Reported
          (handle (print stack k.writer) vector f)
          (text_of f vector)
          (panic_of vector)
          s
          rest
  unfolding handle
  slave-Reported vector s rest low high =
      let no_bp : (vector == 0x03) ≡ false = ground arith in
      let no_pf : (vector == 0x0E) ≡ false = ground arith in
      let master : (leb 0x20 vector && ltb vector 0x28) ≡ false = ground arith in
      let slave : (leb 0x28 vector && ltb vector 0x30) ≡ true = ground arith in
      let legacy : (leb 0x20 vector && ltb vector 0x30) ≡ true = ground arith in
      rw (no_bp, no_pf, master, slave, legacy)
        (one_then_return stack size d f k to_line (spurious vector " (Legacy PIC Slave)") rest s
          refl)

  spurious-Reported :
      (s : Cpu) (rest : List ℕ)
      → Reported (handle (print stack k.writer) 0xFF f) (text_of f 0xFF) none s rest
  unfolding handle
  spurious-Reported s rest =
      one_then_return stack size d f k to_line (words "Spurious Interrupt (LAPIC)") rest s refl

  unknown-Reported :
      (vector : ℕ) (s : Cpu) (rest : List ℕ)
      → is_isa vector ≡ false
      → (vector == 0x0E) ≡ false
      → (vector == 0x03) ≡ false
      → (leb 0x20 vector && ltb vector 0x30) ≡ false
      → (vector == 0xFF) ≡ false
      → Reported
          (handle (print stack k.writer) vector f)
          (text_of f vector)
          (panic_of vector)
          s
          rest
  unfolding handle dump_interrupt_frame
  unknown-Reported vector s rest not_isa no_pf no_bp no_legacy no_spurious =
      let master : (leb 0x20 vector && ltb vector 0x28) ≡ false = ground arith in
      let slave : (leb 0x28 vector && ltb vector 0x30) ≡ false = ground arith in
      let kb : (vector == 0x31) ≡ false = ground arith in
      let com1 : (vector == 0x34) ≡ false = ground arith in
      let mouse : (vector == 0x3C) ≡ false = ground arith in
      rw (no_bp, no_pf, master, slave, kb, com1, mouse, no_spurious, no_legacy)
        (text_then_panic stack size d f k to_line (frame_text f) (unhandled vector) rest s refl)

  handle-Reported :
      (vector : ℕ) (s : Cpu) (rest : List ℕ)
      → is_isa vector ≡ false
      → vector ≢ 0x0E
      → Reported
          (handle (print stack k.writer) vector f)
          (text_of f vector)
          (panic_of vector)
          s
          rest
  handle-Reported vector s rest not_isa not_pf = elim (Bool-cases (vector == 0x03)) [
    | inl bp ↦ rw (==→eq vector 0x03 bp) (bp-Reported s rest)
    | inr not_bp ↦ elim (Bool-cases (vector == 0xFF)) [
      | inl spurious ↦ rw (==→eq vector 0xFF spurious) (spurious-Reported s rest)
      | inr not_spurious ↦ elim (Bool-cases (leb 0x20 vector && ltb vector 0x30)) [
        | inl legacy ↦ elim (dec_le vector 0x27) [
          | yes master ↦ master-Reported vector s rest (ground arith) (omega (arith, master))
          | no slave ↦ slave-Reported vector s rest (omega (arith, slave)) (ground arith)
        ]
        | inr no_legacy ↦
            unknown-Reported vector s rest not_isa (ne→== vector 0x0E not_pf) not_bp no_legacy
              not_spurious
      ]
    ]
  ]

  pf-Reported :
      (cr2 : ℕ) (s : Cpu) (rs rest : List ℕ)
      → s.replies ≡ cr2 ∷ rs
      → IsReady
          (record s { replies = rs })
          d
          (lines (with_panic (some (page_fault cr2)) (frame_text f)))
          rest
      → (t : Cpu) × (settle stack (handle (print stack k.writer) 0x0E f) (at_cpu k s)
          ≡ ended (some (page_fault cr2)) k t)
        × Sent
            (record s { replies = rs })
            d
            (lines (with_panic (some (page_fault cr2)) (frame_text f)))
            rest
            t
  unfolding handle dump_interrupt_frame settle
  pf-Reported cr2 s rs rest next ready =
      let (t, ends, sent) =
        text_then_panic stack size d f k to_line (frame_text f) (page_fault cr2) rest
          (record s { replies = rs }) refl ready in
      (t, rw next ends, sent)

  -- What the handler does with a vector that is neither of the I/O APIC nor the page fault's, on a
  -- line that answers. A breakpoint dumps the registers and returns. A spurious interrupt is reported
  -- and returns. Every other vector dumps the registers and panics, with the name that the manual gives
  -- the exception, or the number of the exception or the interrupt, and the processor stops.
  pub interrupt_handler-Reported :
      (vector : ℕ) (rest : List ℕ)
      → is_isa vector ≡ false
      → vector ≢ 0x0E
      → IsReady (entered_cpu k) d (lines (printed f vector)) rest
      → (t : Cpu) × (settle stack (interrupt_handler stack vector f) k
          ≡ finished (goes_on vector) k t)
        × Sent (entered_cpu k) d (lines (printed f vector)) rest t
  unfolding interrupt_handler settle
  interrupt_handler-Reported vector rest not_isa not_pf ready =
      let e = with_panic-printed f vector in
      let (t, ends, sent) =
        handle-Reported vector (entered_cpu k) rest not_isa not_pf
          (subst (λ x. IsReady (entered_cpu k) d (lines x) rest) (sym e) ready) in
      (
        t,
        rw (enforce_smap_lem k) (ends ∙ ended-finished vector k t),
        subst (λ x. Sent (entered_cpu k) d (lines x) rest t) e sent,
      )

  -- A page fault dumps the registers and panics with the address that faulted, which is the answer of
  -- CR2.
  pub page_fault-Reported :
      (cr2 : ℕ) (rs rest : List ℕ)
      → (entered_cpu k).replies ≡ cr2 ∷ rs
      → IsReady
          (record (entered_cpu k) { replies = rs })
          d
          (lines (with_panic (some (page_fault cr2)) (frame_text f)))
          rest
      → (t : Cpu) × (settle stack (interrupt_handler stack 0x0E f) k
          ≡ ended (some (page_fault cr2)) k t)
        × Sent
            (record (entered_cpu k) { replies = rs })
            d
            (lines (with_panic (some (page_fault cr2)) (frame_text f)))
            rest
            t
  unfolding interrupt_handler settle
  page_fault-Reported cr2 rs rest next ready =
      rw (enforce_smap_lem k) (pf-Reported cr2 (entered_cpu k) rs rest next ready)
