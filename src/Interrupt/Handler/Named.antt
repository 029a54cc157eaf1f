-- ===== src/Interrupt/Handler/Named.antt =====
-- The exceptions of the processor's manual by their vectors, and what the last case of the handler
-- prints of a vector.
use Prim.Native.String.{String}
use native.Mathlib.Decide.{dec_le, ℕ_discrete}
use umbral_os.Base.{
  ℕ, zero, suc, ◌≤◌, ◌<◌, ◌≡◌, refl, sym, ap, ◌∙◌, arith, true, false, Bool, ◌&&◌, ◌||◌, Option,
  none, some, List, [], ◌∷◌, ◌++◌, ◌==◌, ltb, leb, if◌then◌else◌, get_elem?, get_elem?-past,
  Bool-cases, inl, inr,
}
use mathlib.Core.Path.{subst}
use umbral_os.Base.Text.{codes}
use umbral_os.Base.Action.{Outcome, ok, faulted, halted}
use umbral_os.Base.Panics.{
  Panic, Mnemonic, unhandled_mnemonic, unhandled_exception, unhandled_interrupt,
}
use umbral_os.Intel.{Cpu}
use umbral_os.Common.Print.Format.Pieces.{Piece}
use umbral_os.Console.Panics.{words, pieces, stopped}
use umbral_os.Kernel.{Kernel, at_cpu}
use umbral_os.Interrupt.Handler.{StackFrame, unhandled, vector_to_menemonic}
use umbral_os.Interrupt.Handler.Report.{ended, panic_of, text_of, with_panic}

-- By position; the vectors that the manual reserves have no name.
abbrev pub exception_names : List (Option String)
exception_names =
    some "#DE"
    ∷ some "#DB"
    ∷ some "#NMI"
    ∷ some "#BP"
    ∷ some "#OF"
    ∷ some "#BR"
    ∷ some "#UD"
    ∷ some "#NM"
    ∷ some "#DF"
    ∷ some "#CSO"
    ∷ some "#TS"
    ∷ some "#NP"
    ∷ some "#SS"
    ∷ some "#GP"
    ∷ some "#PF"
    ∷ none
    ∷ some "#MF"
    ∷ some "#AC"
    ∷ some "#MC"
    ∷ some "#XM/#XF"
    ∷ some "#VE"
    ∷ some "#CP"
    ∷ none
    ∷ none
    ∷ none
    ∷ none
    ∷ none
    ∷ none
    ∷ some "#HV"
    ∷ some "#VC"
    ∷ some "#SX"
    ∷ none
    ∷ []

abbrev report_from : ℕ → Option (Option String) → List Piece
report_from vector (some (some name)) =
    words "Unhandled Exception " ++ (Piece.string (codes name) ∷ [])
report_from vector (some none) = words "Unhandled Exception 0x" ++ (Piece.hex false vector ∷ [])
report_from vector none = words "Unhandled Interrupt 0x" ++ (Piece.hex false vector ∷ [])

-- The text for a vector: the exception's name, or the number of the exception or the interrupt.
abbrev pub report : ℕ → List Piece
report vector = report_from vector (get_elem? exception_names vector)

-- A predicate at the numbers below `n`.
abbrev Below : (ℕ → Type 0) → ℕ → Type 0
Below P zero = Unit
Below P (suc n) = Below P n × P n

below : (P : ℕ → Type 0) (n v : ℕ) → Below P n → v < n → P v
below P zero v all h = absurd (omega arith)
below P (suc n) v (all, last) h = elim (ℕ_discrete n v) [
  | yes e ↦ subst P e last
  | no ne ↦ below P n v all (omega (arith, ne))
]

abbrev Named : ℕ → Type 0
Named vector = pieces (unhandled vector) ≡ report vector

Named-Below : Below Named 32
unfolding vector_to_menemonic pieces
Named-Below = (
  (
    (
      (
        (
          (
            (
              (
                (
                  (
                    (
                      (
                        (
                          (
                            (
                              (
                                (
                                  (
                                    (
                                      (
                                        (
                                          (
                                            (
                                              (
                                                (
                                                  (
                                                    (
                                                      (((((tt, refl), refl), refl), refl), refl),
                                                      refl,
                                                    ),
                                                    refl,
                                                  ),
                                                  refl,
                                                ),
                                                refl,
                                              ),
                                              refl,
                                            ),
                                            refl,
                                          ),
                                          refl,
                                        ),
                                        refl,
                                      ),
                                      refl,
                                    ),
                                    refl,
                                  ),
                                  refl,
                                ),
                                refl,
                              ),
                              refl,
                            ),
                            refl,
                          ),
                          refl,
                        ),
                        refl,
                      ),
                      refl,
                    ),
                    refl,
                  ),
                  refl,
                ),
                refl,
              ),
              refl,
            ),
            refl,
          ),
          refl,
        ),
        refl,
      ),
      refl,
    ),
    refl,
  ),
  refl,
)

unnamed : (vector : ℕ) → 32 ≤ vector → vector_to_menemonic vector ≡ none
unfolding vector_to_menemonic
unnamed vector h = ground arith

-- The panic of a vector with a name, or without.
abbrev panic_from : ℕ → Option Mnemonic → Panic
panic_from vector (some mnemonic) = unhandled_mnemonic mnemonic
panic_from vector none =
    if ltb vector 32 then unhandled_exception vector else unhandled_interrupt vector

unhandled-panic_from :
    (vector : ℕ) (o : Option Mnemonic)
    → vector_to_menemonic vector ≡ o
    → unhandled vector ≡ panic_from vector o
unhandled-panic_from vector o e = by_name (vector_to_menemonic vector) ∙ ap (panic_from vector) e
  where
    by_name :
        (m : Option Mnemonic)
        → (elim m [
          | some mnemonic ↦ unhandled_mnemonic mnemonic
          | none ↦ if ltb vector 32 then unhandled_exception vector else unhandled_interrupt vector
        ])
          ≡ panic_from vector m
    by_name none = refl
    by_name (some m) = refl

unhandled_above : (vector : ℕ) → 32 ≤ vector → unhandled vector ≡ unhandled_interrupt vector
unhandled_above vector above =
    let past : ltb vector 32 ≡ false = ground (arith, above) in
    unhandled-panic_from vector none (unnamed vector above) ∙ rw past refl

report_lem : (vector : ℕ) → pieces (unhandled vector) ≡ report vector
unfolding pieces
report_lem vector = elim (dec_le 32 vector) [
  | yes above ↦
      ap pieces (unhandled_above vector above)
      ∙ ap (report_from vector) (sym (get_elem?-past exception_names vector above))
  | no below_32 ↦ below Named 32 vector Named-Below (omega (arith, below_32))
]

-- The vectors after which the interrupted code goes on: the breakpoint, the legacy controllers' and
-- the spurious one of the local APIC.
abbrev pub goes_on : ℕ → Bool
goes_on vector = (vector == 0x03) || ((leb 0x20 vector && ltb vector 0x30) || (vector == 0xFF))

-- All that is printed for a vector.
abbrev pub printed : StackFrame → ℕ → List (List Piece)
printed f vector =
    if goes_on vector
    then text_of f vector
    else text_of f vector ++ (words "PANIC: " ∷ report vector ∷ words "\n" ∷ [])

-- The handler returns, or interrupts are off and the processor stands.
abbrev pub finished : Bool → Kernel → Cpu → Outcome Kernel (Unit {0})
finished true k t = ok tt (at_cpu k t)
finished false k t = faulted halted (at_cpu k (stopped t))

pub with_panic-printed :
    (f : StackFrame) (vector : ℕ)
    → with_panic (panic_of vector) (text_of f vector) ≡ printed f vector
with_panic-printed f vector = elim (Bool-cases (goes_on vector)) [
  | inl on ↦ rw on refl
  | inr off ↦ rw (off, report_lem vector) refl
]

pub ended-finished :
    (vector : ℕ) (k : Kernel) (t : Cpu)
    → ended (panic_of vector) k t ≡ finished (goes_on vector) k t
ended-finished vector k t = elim (Bool-cases (goes_on vector)) [
  | inl on ↦ rw on refl
  | inr off ↦ rw off refl
]
