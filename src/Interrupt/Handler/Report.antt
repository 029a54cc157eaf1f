-- ===== src/Interrupt/Handler/Report.antt =====
-- What each vector prints on the serial line, and how it ends.
use Prim.Native.String.{String}
use umbral_os.Base.{
  ℕ, ◌≡◌, refl, sym, ◌∙◌, true, false, ◌&&◌, ◌||◌, Option, none, some, List, [], ◌∷◌, ◌++◌, ◌==◌,
  ltb, leb, if◌then◌else◌, length,
}
use mathlib.Core.Path.{subst}
use umbral_os.Base.Action.{
  Action, Outcome, ok, panicked, faulted, halted, pure, panic, bind_outcome, ◌>>◌,
}
use umbral_os.Base.Panics.{Panic}
use umbral_os.Intel.{Cpu}
use umbral_os.Common.Print.Format.{Printer}
use umbral_os.Common.Print.Format.Pieces.{Piece, spell_all, args_all}
use umbral_os.Serial.Device.{Uart}
use umbral_os.Console.{print}
use umbral_os.Console.Lines.{
  is_serial, say, say_lem, lines, lines-append, lines_plain, IsReady, IsReady-append, Sent,
  Sent-append,
}
use umbral_os.Console.Panics.{words, panic_lines, stopped, die_lem}
use umbral_os.Kernel.{Kernel, on_cpu, at_cpu, settle}
use umbral_os.Interrupt.Handler.{StackFrame, unhandled}

abbrev pub register_line : (name : String) → ℕ → List Piece
register_line name value = words name ++ (words ": 0x" ++ (Piece.hex true value ∷ words "\n"))

abbrev pub frame_text : StackFrame → List (List Piece)
frame_text f =
    register_line "r11" f.r11
    ∷ register_line "r10" f.r10
    ∷ register_line "r9" f.r9
    ∷ register_line "r8" f.r8
    ∷ register_line "rsi" f.rsi
    ∷ register_line "rdx" f.rdx
    ∷ register_line "rcx" f.rcx
    ∷ register_line "rax" f.rax
    ∷ register_line "rdi" f.rdi
    ∷ register_line "reserved" f.reserved
    ∷ register_line "error_code" f.error_code
    ∷ register_line "rip" f.rip
    ∷ register_line "cs" f.cs
    ∷ register_line "rflags" f.rflags
    ∷ register_line "rsp" f.rsp
    ∷ register_line "ss" f.ss
    ∷ []

abbrev pub spurious : ℕ → String → List Piece
spurious vector name = words "Spurious Interrupt 0x" ++ (Piece.hex false vector ∷ words name)

-- How a run ends, with the processor as it is after what was printed.
abbrev pub ended : Option Panic → Kernel → Cpu → Outcome Kernel (Unit {0})
ended none k t = ok tt (at_cpu k t)
ended (some p) k t = faulted halted (at_cpu k (stopped t))

-- The panic of a vector, where it has one, and what is printed before it.
abbrev pub panic_of : ℕ → Option Panic
panic_of vector =
    if (vector == 0x03) || ((leb 0x20 vector && ltb vector 0x30) || (vector == 0xFF))
    then none
    else some (unhandled vector)

abbrev pub text_of : StackFrame → ℕ → List (List Piece)
text_of f vector =
    if vector == 0x03
    then frame_text f ++ (words "Continuing after #BP...\n" ∷ [])
    else if leb 0x20 vector && ltb vector 0x28
    then spurious vector " (Legacy PIC Master)" ∷ []
    else if leb 0x28 vector && ltb vector 0x30
    then spurious vector " (Legacy PIC Slave)" ∷ []
    else if vector == 0xFF
    then words "Spurious Interrupt (LAPIC)" ∷ []
    else frame_text f

-- With what the panic prints.
abbrev pub with_panic : Option Panic → List (List Piece) → List (List Piece)
with_panic none pss = pss
with_panic (some p) pss = pss ++ panic_lines p

bind-pure : {S : Type 0} (r : Outcome S (Unit {0})) → bind_outcome r (λ _. pure tt) ≡ r
bind-pure (ok _ s) = refl
bind-pure (panicked p s) = refl
bind-pure (faulted e s) = refl

module _ (stack : List ℕ) (size : length stack ≡ 21) (d : Uart) (f : StackFrame) (k : Kernel)
    (to_line : is_serial k.writer ≡ true) where
  abbrev pub printer : Printer
  printer = print stack k.writer

  -- Lines, and then a panic.
  pub text_then_panic :
      (pss : List (List Piece)) (p : Panic) (rest : List ℕ) (s : Cpu)
      → lines_plain pss ≡ true
      → IsReady s d (lines (with_panic (some p) pss)) rest
      → (t : Cpu) × (settle stack
            (on_cpu (say stack k.writer pss (pure tt)) >> panic p)
            (at_cpu k s)
          ≡ faulted halted (at_cpu k (stopped t)))
        × Sent s d (lines (with_panic (some p) pss)) rest t
  unfolding settle
  text_then_panic pss p rest s plain ready =
      let whole = lines-append pss (panic_lines p) in
      let (mid, first, then_ready) =
        IsReady-append s d (lines pss) (lines (panic_lines p)) rest
          (subst (λ x. IsReady s d x rest) whole ready) in
      let (t, printed, sent) =
        say_lem stack size k.writer to_line pss (pure tt) mid s d plain first in
      let (t', dies, sent') = die_lem stack size k.writer to_line p rest t d (then_ready t sent) in
      (
        t',
        rw printed (rw dies refl),
        subst (λ x. Sent s d x rest t') (sym whole)
            (Sent-append s d (lines pss) (lines (panic_lines p)) mid rest t t' sent sent'),
      )

  -- One line.
  abbrev pub one : List Piece → Action Cpu (Unit {0})
  one ps = printer (spell_all ps (0 ∷ [])) (args_all ps [])

  one_lem :
      (ps : List Piece) (rest : List ℕ) (s : Cpu)
      → lines_plain (ps ∷ []) ≡ true
      → IsReady s d (lines (ps ∷ [])) rest
      → (t : Cpu) × (one ps s ≡ ok tt t) × Sent s d (lines (ps ∷ [])) rest t
  one_lem ps rest s plain ready =
      let (t, printed, sent) =
        say_lem stack size k.writer to_line (ps ∷ []) (pure tt) rest s d plain ready in
      (t, sym (bind-pure (one ps s)) ∙ printed, sent)

  pub one_then_return :
      (ps : List Piece) (rest : List ℕ) (s : Cpu)
      → lines_plain (ps ∷ []) ≡ true
      → IsReady s d (lines (ps ∷ [])) rest
      → (t : Cpu) × (settle stack (on_cpu (one ps)) (at_cpu k s) ≡ ok tt (at_cpu k t))
        × Sent s d (lines (ps ∷ [])) rest t
  unfolding settle
  one_then_return ps rest s plain ready =
      let (t, printed, sent) = one_lem ps rest s plain ready in (t, rw printed refl, sent)

  -- Lines, and then one more.
  pub text_then_one :
      (pss : List (List Piece)) (ps : List Piece) (rest : List ℕ) (s : Cpu)
      → lines_plain pss ≡ true
      → lines_plain (ps ∷ []) ≡ true
      → IsReady s d (lines (pss ++ (ps ∷ []))) rest
      → (t : Cpu) × (settle stack
            (on_cpu (say stack k.writer pss (pure tt)) >> on_cpu (one ps))
            (at_cpu k s)
          ≡ ok tt (at_cpu k t))
        × Sent s d (lines (pss ++ (ps ∷ []))) rest t
  unfolding settle
  text_then_one pss ps rest s plain plain' ready =
      let qss = ps ∷ [] in
      let whole = lines-append pss qss in
      let (mid, first, then_ready) =
        IsReady-append s d (lines pss) (lines qss) rest
          (subst (λ x. IsReady s d x rest) whole ready) in
      let (t, printed, sent) =
        say_lem stack size k.writer to_line pss (pure tt) mid s d plain first in
      let (t', printed', sent') = one_lem ps rest t plain' (then_ready t sent) in
      (
        t',
        rw printed (rw printed' refl),
        subst (λ x. Sent s d x rest t') (sym whole)
            (Sent-append s d (lines pss) (lines qss) mid rest t t' sent sent'),
      )
