-- ===== src/Console/Bytes.antt =====
-- Pieces that fit `kprintv`, as a Boolean test, and that all that is printed for them are bytes.
use umbral_os.Base.{
  ℕ, zero, suc, ◌/◌, ◌%◌, ◌<◌, ◌≡◌, ◌≢◌, arith, Bool, true, ◌&&◌, List, [], ◌∷◌, ◌++◌, ltb, ◌==◌,
  ◌!=◌, if◌then◌else◌, All, Bool-cases, inl, inr,
}
use umbral_os.Common.Print.Number.{digit_char}
use umbral_os.Common.Print.Number.Text.{text_loop}
use umbral_os.Common.Print.Format.Pieces.{Piece, IsPlain, render, render_all, numeral}

-- A text of bytes without a NUL.
abbrev pub is_text : List ℕ → Bool
is_text [] = true
is_text (c ∷ t) = (c != 0) && (ltb c 256 && is_text t)

abbrev pub is_plain : Piece → Bool
is_plain (Piece.literal c) = (c != 0) && (c != b'%')
is_plain (Piece.string t) = is_text t
is_plain _ = true

abbrev pub all_plain : List Piece → Bool
all_plain [] = true
all_plain (p ∷ ps) = is_plain p && all_plain ps

abbrev pub IsByte : ℕ → Type 0
IsByte c = c < 256

text-All : (t : List ℕ) → is_text t ≡ true → All (λ c. c ≢ 0) t × All IsByte t
text-All [] h = (tt, tt)
text-All (c ∷ t) h =
    let (nonzero, bytes) = text-All t (ground arith) in
    ((ground arith, nonzero), (ground arith, bytes))

is_plain-IsPlain : (p : Piece) → is_plain p ≡ true → IsPlain p
is_plain-IsPlain (Piece.literal c) h = (ground arith, ground arith)
is_plain-IsPlain (Piece.char c) h = tt
is_plain-IsPlain (Piece.string t) h = (text-All t h).0
is_plain-IsPlain (Piece.address n) h = tt
is_plain-IsPlain (Piece.decimal is_long n) h = tt
is_plain-IsPlain (Piece.hex is_long n) h = tt

pub all_plain-All : (ps : List Piece) → all_plain ps ≡ true → All IsPlain ps
all_plain-All [] h = tt
all_plain-All (p ∷ ps) h = (is_plain-IsPlain p (ground arith), all_plain-All ps (ground arith))

-- All that is printed are bytes.
digit_char-IsByte : (d : ℕ) → IsByte (digit_char d)
digit_char-IsByte d = ground arith

text_loop-bytes :
    (base rounds value : ℕ) (right best : List ℕ)
    → All IsByte right
    → All IsByte best
    → All IsByte (text_loop base rounds value right best)
unfolding text_loop
text_loop-bytes base zero value right best r b = b
text_loop-bytes base (suc rounds) value right best r b =
    let longer : All IsByte (digit_char (value % base) ∷ right) =
      (digit_char-IsByte (value % base), r) in
    let kept : All IsByte (if value % base != 0 then digit_char (value % base) ∷ right else best) =
      elim (Bool-cases (value % base != 0)) [
        | inl nonzero ↦ rw nonzero longer
        | inr is_zero ↦ rw is_zero b
      ] in
    elim (Bool-cases (value == 0)) [
      | inl end ↦ rw end b
      | inr more ↦ rw more (text_loop-bytes base rounds (value / base) _ _ longer kept)
    ]

numeral-bytes : (base value : ℕ) → All IsByte (numeral base value)
numeral-bytes base value = text_loop-bytes base 16 value [] (b'0' ∷ []) tt (omega arith, tt)

All-append : (xs ys : List ℕ) → All IsByte xs → All IsByte ys → All IsByte (xs ++ ys)
All-append [] ys h k = k
All-append (x ∷ xs) ys (h, hs) k = (h, All-append xs ys hs k)

render-bytes : (p : Piece) → is_plain p ≡ true → All IsByte (render p)
render-bytes (Piece.literal c) h = elim (Bool-cases (c == 10)) [
  | inl newline ↦ rw newline (omega arith, (omega arith, tt))
  | inr other ↦ rw other (omega arith, tt)
]
render-bytes (Piece.char c) h = (omega arith, tt)
render-bytes (Piece.string t) h = (text-All t h).1
render-bytes (Piece.address n) h = (omega arith, (omega arith, numeral-bytes 16 n))
render-bytes (Piece.decimal is_long n) h = numeral-bytes 10 n
render-bytes (Piece.hex is_long n) h = numeral-bytes 16 n

pub render_all-bytes : (ps : List Piece) → all_plain ps ≡ true → All IsByte (render_all ps)
render_all-bytes [] h = tt
render_all-bytes (p ∷ ps) h =
    All-append (render p) (render_all ps) (render-bytes p (ground arith))
      (render_all-bytes ps (ground arith))
