-- ===== src/Common/Print/Tests.antt =====
-- The formatted output on concrete values.
use umbral_os.Base.{
  ℕ, ◌+◌, ◌*◌, ◌%◌, ◌^◌, ◌<◌, ◌≡◌, refl, arith, true, List, [], ◌∷◌, ◌++◌, replicate,
}
use umbral_os.Base.Action.{ok, panicked}
use umbral_os.Base.Panics.{unknown_conversion}
use umbral_os.Common.Str.{strlen}
use umbral_os.Common.Print.Number.{print_string, print_unsigned}
use umbral_os.Common.Print.Number.Text.{text_loop}
use umbral_os.Common.Print.Number.Value.{
  read_from, IsNumeral, print_unsigned_lem, print_unsigned_exact, print_unsigned_truncates,
}
use umbral_os.Common.Print.Format.{Arg, kprintv}
use umbral_os.Common.Print.Format.Pieces.{
  Piece, spell_all, args_all, render_all, kprintv_lem, kprintv_unknown,
}

abbrev garbage : List ℕ
garbage = replicate 21 0xcc

print_hex :
    print_unsigned garbage 0xc0ffee 16 [] ≡ ok tt (b'C' ∷ b'0' ∷ b'F' ∷ b'F' ∷ b'E' ∷ b'E' ∷ [])
unfolding print_unsigned print_string strlen
print_hex = refl

print_truncated : print_unsigned garbage (10 ^ 16 + 7) 10 [] ≡ ok tt (b'7' ∷ [])
unfolding print_unsigned print_string strlen
print_truncated = refl

print_unsigned_lem_example :
    (text : List ℕ) × (print_unsigned garbage 1200 10 (b':' ∷ []) ≡ ok tt ((b':' ∷ []) ++ text))
    × IsNumeral 10 text
    × (read_from 10 0 text ≡ 1200 % 10 ^ 16)
print_unsigned_lem_example =
    print_unsigned_lem garbage 1200 10 (b':' ∷ []) refl (omega arith) (omega arith)

print_unsigned_exact_example :
    (1200 < 2 ^ 64
      → (text : List ℕ) × (print_unsigned garbage 1200 16 [] ≡ ok tt ([] ++ text))
        × IsNumeral 16 text
        × (read_from 16 0 text ≡ 1200))
    × (1200 < 10 ^ 16
        → (text : List ℕ) × (print_unsigned garbage 1200 10 [] ≡ ok tt ([] ++ text))
          × IsNumeral 10 text
          × (read_from 10 0 text ≡ 1200))
print_unsigned_exact_example = print_unsigned_exact garbage 1200 [] refl

print_unsigned_truncates_example :
    (text : List ℕ) × (print_unsigned garbage (3 * 10 ^ 16) 10 [] ≡ ok tt ([] ++ text))
    × IsNumeral 10 text
    × (read_from 10 0 text ≡ 0)
print_unsigned_truncates_example = print_unsigned_truncates garbage 3 [] refl

-- "r9: 0x%lx\n" with 0x2a
abbrev line : List Piece
line =
    Piece.literal b'r'
    ∷ Piece.literal b'9'
    ∷ Piece.literal b':'
    ∷ Piece.literal b' '
    ∷ Piece.literal b'0'
    ∷ Piece.literal b'x'
    ∷ Piece.hex true 0x2a
    ∷ Piece.literal 10
    ∷ []

line_runs :
    kprintv garbage (spell_all line (0 ∷ [])) (args_all line []) []
    ≡ ok tt (b'r' ∷ b'9' ∷ b':' ∷ b' ' ∷ b'0' ∷ b'x' ∷ b'2' ∷ b'A' ∷ 13 ∷ 10 ∷ [])
unfolding text_loop
line_runs = kprintv_lem garbage refl line [] (omega arith)

kprintv_lem_example :
    kprintv garbage (spell_all line (0 ∷ [])) (args_all line []) [] ≡ ok tt ([] ++ render_all line)
kprintv_lem_example = kprintv_lem garbage refl line [] (omega arith)

kprintv_unknown_example :
    kprintv garbage (spell_all line (b'%' ∷ b'd' ∷ 0 ∷ [])) (args_all line (Arg.int 5 ∷ [])) []
    ≡ panicked (unknown_conversion b'd') ([] ++ render_all line)
kprintv_unknown_example =
    kprintv_unknown garbage refl line b'd' (0 ∷ []) (Arg.int 5 ∷ []) [] (omega arith) (omega arith)
