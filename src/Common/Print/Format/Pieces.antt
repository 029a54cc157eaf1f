-- ===== src/Common/Print/Format/Pieces.antt =====
-- What a format with its arguments is meant to print: a list of pieces, each a character or a
-- conversion with its value.
use umbral_os.Base.{
  ℕ, ◌≡◌, ◌≢◌, refl, ap, ◌∙◌, arith, Bool, true, false, List, [], ◌∷◌, ◌++◌, ◌==◌, if◌then◌else◌,
  All, length, get_elem?-append, ne→==, Bool-cases, inl, inr,
}
use mathlib.Core.List.{append_assoc, append-nil}
use umbral_os.Base.Word.{u8}
use umbral_os.Base.Action.{ok, panicked}
use umbral_os.Base.Panics.{unknown_conversion}
use umbral_os.Common.Str.Laws.{c_string-append}
use umbral_os.Common.Print.Number.{Out, print_char}
use umbral_os.Common.Print.Number.Text.{text_loop, print_unsigned-text_loop, print_string_lem}
use umbral_os.Common.Print.Format.{Arg, Mode, convert, format_from, kprintv}

pub data Piece : Type 0 where
  literal char : ℕ → Piece
  string : (text : List ℕ) → Piece
  address : ℕ → Piece
  decimal hex : (is_long : Bool) → ℕ → Piece

-- The characters of the piece in the format.
abbrev pub spell : Piece → List ℕ
spell (Piece.literal c) = c ∷ []
spell (Piece.char c) = b'%' ∷ b'c' ∷ []
spell (Piece.string t) = b'%' ∷ b's' ∷ []
spell (Piece.address n) = b'%' ∷ b'p' ∷ []
spell (Piece.decimal true n) = b'%' ∷ b'l' ∷ b'u' ∷ []
spell (Piece.decimal false n) = b'%' ∷ b'u' ∷ []
spell (Piece.hex true n) = b'%' ∷ b'l' ∷ b'x' ∷ []
spell (Piece.hex false n) = b'%' ∷ b'x' ∷ []

abbrev pub unsigned_arg : Bool → ℕ → Arg
unsigned_arg true n = Arg.uint64 n
unsigned_arg false n = Arg.uint32 n

-- The arguments that go with it.
abbrev pub args : Piece → List Arg
args (Piece.literal c) = []
args (Piece.char c) = Arg.int c ∷ []
args (Piece.string t) = Arg.text (t ++ (0 ∷ [])) ∷ []
args (Piece.address n) = Arg.pointer n ∷ []
args (Piece.decimal is_long n) = unsigned_arg is_long n ∷ []
args (Piece.hex is_long n) = unsigned_arg is_long n ∷ []

-- The numeral of at most sixteen digits.
abbrev pub numeral : ℕ → ℕ → List ℕ
numeral base value = text_loop base 16 value [] (b'0' ∷ [])

-- What is written for it.
abbrev pub render : Piece → List ℕ
render (Piece.literal c) = if c == 10 then 13 ∷ 10 ∷ [] else u8 c ∷ []
render (Piece.char c) = u8 c ∷ []
render (Piece.string t) = t
render (Piece.address n) = b'0' ∷ b'x' ∷ numeral 16 n
render (Piece.decimal is_long n) = numeral 10 n
render (Piece.hex is_long n) = numeral 16 n

-- A literal is not one of the characters with a meaning, and a string holds no NUL.
abbrev pub IsPlain : Piece → Type 0
IsPlain (Piece.literal c) = (c ≢ 0) × (c ≢ b'%')
IsPlain (Piece.string t) = All (λ c. c ≢ 0) t
IsPlain _ = Unit

-- The format and the arguments of the pieces, with what follows them.
abbrev pub spell_all : List Piece → List ℕ → List ℕ
spell_all [] rest = rest
spell_all (p ∷ ps) rest = spell p ++ spell_all ps rest

abbrev pub args_all : List Piece → List Arg → List Arg
args_all [] va = va
args_all (p ∷ ps) va = args p ++ args_all ps va

abbrev pub render_all : List Piece → List ℕ
render_all [] = []
render_all (p ∷ ps) = render p ++ render_all ps

-- A character that is no conversion and no length.
pub record IsUnknown (c : ℕ) : Type 0 where
  pub not_c : c ≢ b'c'
  pub not_l : c ≢ b'l'
  pub not_p : c ≢ b'p'
  pub not_s : c ≢ b's'
  pub not_u : c ≢ b'u'
  pub not_x : c ≢ b'x'

end_of_format :
    (stack rest : List ℕ) (va : List Arg) (out : Out)
    → format_from stack Mode.plain (0 ∷ rest) va out ≡ ok tt out
unfolding format_from
end_of_format stack rest va out = refl

unknown_escape :
    (stack : List ℕ) (c : ℕ) (rest : List ℕ) (va : List Arg) (out : Out)
    → IsUnknown c
    → format_from stack Mode.plain (b'%' ∷ c ∷ rest) va out ≡ panicked (unknown_conversion c) out
unfolding format_from convert
unknown_escape stack c rest va out u =
    rw
      (
        ne→== c b'l' u.not_l,
        ne→== c b'c' u.not_c,
        ne→== c b'p' u.not_p,
        ne→== c b's' u.not_s,
        ne→== c b'u' u.not_u,
        ne→== c b'x' u.not_x,
      )
      refl

module _ (stack : List ℕ) (size : length stack ≡ 21) where
  -- One piece, with the format and the arguments that follow.
  format_piece :
      (p : Piece) (rest : List ℕ) (va : List Arg) (out : Out)
      → IsPlain p
      → format_from stack Mode.plain (spell p ++ rest) (args p ++ va) out
        ≡ format_from stack Mode.plain rest va (out ++ render p)
  unfolding format_from convert print_char
  format_piece (Piece.literal c) rest va out (ne_nul, ne_percent) =
      rw (ne→== c 0 ne_nul, ne→== c b'%' ne_percent)
        (elim (Bool-cases (c == 10)) [
          | inl newline ↦ rw (newline, append_assoc) refl
          | inr other ↦ rw other refl
        ])
  format_piece (Piece.char c) rest va out h = refl
  format_piece (Piece.string t) rest va out h =
      rw
        (
          print_string_lem (t ++ (0 ∷ [])) (length t) out (get_elem?-append t 0 []),
          c_string-append t [] h,
        )
        refl
  format_piece (Piece.address n) rest va out h =
      rw
        (
          print_string_lem (b'0' ∷ b'x' ∷ 0 ∷ []) 2 out refl,
          print_unsigned-text_loop stack n 16 (out ++ (b'0' ∷ b'x' ∷ [])) size (omega arith)
              (omega arith),
          append_assoc,
        )
        refl
  format_piece (Piece.decimal true n) rest va out h =
      rw (print_unsigned-text_loop stack n 10 out size (omega arith) (omega arith)) refl
  format_piece (Piece.decimal false n) rest va out h =
      rw (print_unsigned-text_loop stack n 10 out size (omega arith) (omega arith)) refl
  format_piece (Piece.hex true n) rest va out h =
      rw (print_unsigned-text_loop stack n 16 out size (omega arith) (omega arith)) refl
  format_piece (Piece.hex false n) rest va out h =
      rw (print_unsigned-text_loop stack n 16 out size (omega arith) (omega arith)) refl

  format_pieces :
      (ps : List Piece) (rest : List ℕ) (va : List Arg) (out : Out)
      → All IsPlain ps
      → format_from stack Mode.plain (spell_all ps rest) (args_all ps va) out
        ≡ format_from stack Mode.plain rest va (out ++ render_all ps)
  format_pieces [] rest va out h = rw append-nil refl
  format_pieces (p ∷ ps) rest va out (h, hs) =
      format_piece p (spell_all ps rest) (args_all ps va) out h
      ∙ format_pieces ps rest va (out ++ render p) hs
      ∙ ap (λ t. format_from stack Mode.plain rest va t)
          (append_assoc out (render p) (render_all ps))

  -- A format that is spelled from pieces, with their values as arguments, prints each piece in
  -- order: a newline as CR LF, a string as it is, and a number as its numeral of up to sixteen
  -- digits.
  pub kprintv_lem :
      (ps : List Piece) (out : Out)
      → All IsPlain ps
      → kprintv stack (spell_all ps (0 ∷ [])) (args_all ps []) out ≡ ok tt (out ++ render_all ps)
  unfolding kprintv
  kprintv_lem ps out h =
      format_pieces ps (0 ∷ []) [] out h ∙ end_of_format stack [] [] (out ++ render_all ps)

  -- A conversion that is none of `c l p s u x` panics, with what stands before it printed.
  pub kprintv_unknown :
      (ps : List Piece) (c : ℕ) (rest : List ℕ) (va : List Arg) (out : Out)
      → All IsPlain ps
      → IsUnknown c
      → kprintv stack (spell_all ps (b'%' ∷ c ∷ rest)) (args_all ps va) out
        ≡ panicked (unknown_conversion c) (out ++ render_all ps)
  unfolding kprintv
  kprintv_unknown ps c rest va out h u =
      format_pieces ps (b'%' ∷ c ∷ rest) va out h
      ∙ unknown_escape stack c rest va (out ++ render_all ps) u
