-- ===== src/Common/Print/Format.antt =====
-- `print_escape`, `kprintv` and `kprint`: one pass over the format, in one of two modes. A call of
-- `print_escape` is the mode in which the next character is a conversion.
pub mod Pieces
use umbral_os.Base.{ℕ, zero, suc, Bool, true, false, List, [], ◌∷◌, ◌++◌, ◌==◌, if◌then◌else◌}
use umbral_os.Base.Action.{
  Action, Outcome, ok, pure, panic, fault, out_of_bounds, bad_argument, ◌>>=◌, ◌>>◌,
}
use umbral_os.Base.Panics.{unknown_conversion}
use umbral_os.Intel.{Cpu}
use umbral_os.Common.Print.Number.{Out, print_char, print_string, print_unsigned}

-- The variadic arguments, each with the type that it is passed at; a text is the object behind a
-- `const char *`.
pub data Arg : Type 0 where
  int pointer uint32 uint64 : ℕ → Arg
  text : List ℕ → Arg

-- `va_arg(va, T)`
abbrev pub va_int : List Arg → Action Out (ℕ × List Arg)
va_int (Arg.int n ∷ va) = pure (n, va)
va_int _ = fault bad_argument

abbrev pub va_pointer : List Arg → Action Out (ℕ × List Arg)
va_pointer (Arg.pointer n ∷ va) = pure (n, va)
va_pointer _ = fault bad_argument

abbrev pub va_text : List Arg → Action Out (List ℕ × List Arg)
va_text (Arg.text s ∷ va) = pure (s, va)
va_text _ = fault bad_argument

-- `is_long ? va_arg(va, uint64_t) : va_arg(va, uint32_t)`
abbrev pub va_unsigned : Bool → List Arg → Action Out (ℕ × List Arg)
va_unsigned true (Arg.uint64 n ∷ va) = pure (n, va)
va_unsigned false (Arg.uint32 n ∷ va) = pure (n, va)
va_unsigned _ _ = fault bad_argument

pub data Mode : Type 0 where
  plain : Mode
  escape : (is_long : Bool) → Mode

-- `stack` is what the number buffers hold before they are written.
module _ (stack : List ℕ) where
  -- The cases of `print_escape` but for `l`.
  pub convert : ℕ → Bool → List Arg → Action Out (List Arg)
  convert c is_long va =
      if c == b'c'
      then (do (value, va') ← va_int va; print_char value; pure va')
      else if c == b'p'
      then (do
        (value, va') ← va_pointer va
        print_string (b'0' ∷ b'x' ∷ 0 ∷ [])
        print_unsigned stack value 16
        pure va')
      else if c == b's'
      then (do (str, va') ← va_text va; print_string str; pure va')
      else if c == b'u'
      then (do (value, va') ← va_unsigned is_long va; print_unsigned stack value 10; pure va')
      else if c == b'x'
      then (do (value, va') ← va_unsigned is_long va; print_unsigned stack value 16; pure va')
      else panic (unknown_conversion c)

  pub format_from : Mode → List ℕ → List Arg → Action Out (Unit {0})
  format_from mode [] va = fault out_of_bounds
  format_from Mode.plain (c ∷ p) va =
      let conversion = format_from (Mode.escape false) p va in
      let rest = format_from Mode.plain p va in
      if c == 0
      then pure tt
      else if c == b'%'
      then conversion
      else if c == 10
      then (print_char 13 >> (print_char 10 >> rest))
      else (print_char c >> rest)
  format_from (Mode.escape is_long) (c ∷ p) va =
      let long = format_from (Mode.escape true) p va in
      let rest = λ (va' : List Arg). format_from Mode.plain p va' in
      if c == b'l' then long else (convert c is_long va >>= rest)

  unfoldable pub kprintv : List ℕ → List Arg → Action Out (Unit {0})
  unfolding format_from
  kprintv format va = format_from Mode.plain format va

-- `kprint` hands its arguments on to `kprintv`.
abbrev pub kprint : List ℕ → List ℕ → List Arg → Action Out (Unit {0})
kprint = kprintv

-- A call of `kprint` by another component.
abbrev pub Printer : Type 0
Printer = List ℕ → List Arg → Action Cpu (Unit {0})
