-- ===== src/Common/Print/Number/Value.antt =====
-- The text that `print_unsigned` writes is the numeral of the value, as far as sixteen digits go.
use native.Mathlib.Nat.{
  div-add-mod, pow-succ', pow-zero, zero-mod, mod-one, mul-mod_left, one-le-pow, mul-le-mul_left,
  mod-lt, mul-add-mod_self_left, mod-eq_of_lt,
}
use umbral_os.Base.{
  ℕ, zero, suc, ◌+◌, ◌-◌, ◌*◌, ◌/◌, ◌%◌, ◌^◌, ◌≤◌, ◌<◌, ◌≡◌, ◌≢◌, inl, inr, refl, ap, ◌∙◌, arith,
  List, [], ◌∷◌, ◌++◌, ltb, leb, ◌==◌, ◌!=◌, Bool, true, ◌&&◌, ◌||◌, All, if◌then◌else◌, length,
  Bool-cases, ==→eq,
}
use umbral_os.Base.Action.{ok}
use umbral_os.Common.Print.Number.{Out, digit_char, print_unsigned}
use umbral_os.Common.Print.Number.Text.{text_loop, print_unsigned-text_loop}

-- The digit that a character stands for.
abbrev pub digit_value : ℕ → ℕ
digit_value c = if ltb c b'A' then c - b'0' else c - b'A' + 10

-- The number that a text stands for, read from the left.
abbrev pub read_from : ℕ → ℕ → List ℕ → ℕ
read_from base acc [] = acc
read_from base acc (c ∷ text) = read_from base (acc * base + digit_value c) text

-- A decimal digit or a letter from A to F, for a digit of the base.
abbrev pub is_digit : ℕ → ℕ → Bool
is_digit base c = (leb b'0' c && leb c b'9' || leb b'A' c && leb c b'F') && ltb (digit_value c) base

-- No zero in front, and no text without a digit.
abbrev pub IsShort : List ℕ → Type 0
IsShort [] = ⊥
IsShort (c ∷ []) = Unit
IsShort (c ∷ d ∷ text) = c ≢ b'0'

-- Digits of the base only, and not more than it takes.
abbrev pub IsNumeral : ℕ → List ℕ → Type 0
IsNumeral base text = All (λ c. is_digit base c ≡ true) text × IsShort text

digit_value-digit_char : (d : ℕ) → d < 16 → digit_value (digit_char d) ≡ d
digit_value-digit_char d h = ground arith

-- A digit in front adds its weight.
read_from-acc :
    (base acc : ℕ) (text : List ℕ)
    → read_from base acc text ≡ acc * base ^ length text + read_from base 0 text
read_from-acc base acc [] = rw pow-zero (omega arith)
read_from-acc base acc (c ∷ text) = omega (
  arith,
  read_from-acc base (acc * base + digit_value c) text,
  read_from-acc base (0 * base + digit_value c) text,
  ap (λ (t : ℕ). acc * t) (pow-succ' base (length text)),
)

mod-mul_split : (v b p : ℕ) → 0 < b → 0 < p → v % (b * p) ≡ v % b + b * (v / b % p)
mod-mul_split v b p hb hp =
    let q = v / b / p in
    let r = v / b % p in
    let e : v ≡ b * p * q + (v % b + b * r) =
      omega (arith, div-add-mod v b, ap (λ (t : ℕ). b * t) (div-add-mod (v / b) p)) in
    let small : b * suc r ≤ b * p = mul-le-mul_left b (mod-lt (v / b) hp) in
    let fits : v % b + b * r < b * p = omega (arith, small, mod-lt v hb) in
    ap (λ (t : ℕ). t % (b * p)) e
    ∙ mul-add-mod_self_left (b * p) q (v % b + b * r)
    ∙ mod-eq_of_lt fits

front_digit :
    (base d : ℕ) (right : List ℕ)
    → d < 16
    → read_from base 0 (digit_char d ∷ right) ≡ d * base ^ length right + read_from base 0 right
front_digit base d right h =
    let e : 0 * base + digit_value (digit_char d) ≡ d = omega (arith, digit_value-digit_char d h) in
    rw e (read_from-acc base d right)

-- A digit 0 adds nothing, so the text from `start` on stands for the same number.
kept_start :
    (base d : ℕ) (right best : List ℕ)
    → d < 16
    → read_from base 0 best ≡ read_from base 0 right
    → read_from base 0 (if d != 0 then digit_char d ∷ right else best)
      ≡ read_from base 0 (digit_char d ∷ right)
kept_start base d right best h e = elim (Bool-cases (d != 0)) [
  | inl nonzero ↦ rw nonzero refl
  | inr is_zero ↦
      let z : d ≡ 0 = ground arith in
      let weight : d * base ^ length right ≡ 0 =
        ap (λ (t : ℕ). t * base ^ length right) z ∙ omega arith in
      rw is_zero (e ∙ omega (arith, front_digit base d right h, weight))
]

text_loop-value :
    (base rounds value : ℕ) (right best : List ℕ)
    → 0 < base
    → base ≤ 16
    → read_from base 0 best ≡ read_from base 0 right
    → read_from base 0 (text_loop base rounds value right best)
      ≡ read_from base 0 right + base ^ length right * (value % base ^ rounds)
unfolding text_loop
text_loop-value base zero value right best p q e = rw (pow-zero, mod-one) (omega (arith, e))
text_loop-value base (suc rounds) value right best p q e = elim (Bool-cases (value == 0)) [
  | inl done ↦
      let empty : value % base ^ suc rounds ≡ 0 =
        ap (λ (t : ℕ). t % base ^ suc rounds) (==→eq value 0 done) ∙ zero-mod (base ^ suc rounds) in
      rw (done, empty) (omega (arith, e))
  | inr more ↦
      let d = value % base in
      let w = base ^ length right in
      let next : read_from base 0 (digit_char d ∷ right) ≡ d * w + read_from base 0 right =
        front_digit base d right (omega arith) in
      let kept : read_from base 0 (if d != 0 then digit_char d ∷ right else best)
          ≡ read_from base 0 (digit_char d ∷ right) =
        kept_start base d right best (omega arith) e in
      let rest =
        text_loop-value base rounds (value / base) (digit_char d ∷ right)
          (if d != 0 then digit_char d ∷ right else best) p q kept in
      let split = mod-mul_split value base (base ^ rounds) p (one-le-pow rounds base p) in
      rw more (
        rest
        ∙ omega (
          arith,
          next,
          pow-succ' base (length right),
          ap (λ (t : ℕ). w * (value % t)) (pow-succ' base rounds),
          ap (λ (t : ℕ). w * t) split,
          ap (λ (t : ℕ). t * (value / base % base ^ rounds)) (pow-succ' base (length right)),
        ))
]

is_digit-digit_char : (base d : ℕ) → d < base → base ≤ 16 → is_digit base (digit_char d) ≡ true
is_digit-digit_char base d h p = ground arith

-- A digit of the base that is not 0 begins a short text.
IsShort-front : (d : ℕ) (right : List ℕ) → d < 16 → d ≢ 0 → IsShort (digit_char d ∷ right)
IsShort-front d [] h ne = tt
IsShort-front d (c ∷ right) h ne = ground arith

text_loop-IsNumeral :
    (base rounds value : ℕ) (right best : List ℕ)
    → 0 < base
    → base ≤ 16
    → All (λ c. is_digit base c ≡ true) right
    → IsNumeral base best
    → IsNumeral base (text_loop base rounds value right best)
unfolding text_loop
text_loop-IsNumeral base zero value right best p q ds n = n
text_loop-IsNumeral base (suc rounds) value right best p q ds n = elim (Bool-cases (value == 0)) [
  | inl done ↦ rw done n
  | inr more ↦
      let d = value % base in
      let small : d < base = mod-lt value p in
      let ds' : All (λ c. is_digit base c ≡ true) (digit_char d ∷ right) =
        (is_digit-digit_char base d small q, ds) in
      let kept : IsNumeral base (if d != 0 then digit_char d ∷ right else best) =
        elim (Bool-cases (d != 0)) [
          | inl nonzero ↦ rw nonzero (ds', IsShort-front d right (omega arith) (ground arith))
          | inr is_zero ↦ rw is_zero n
        ] in
      rw more (
        text_loop-IsNumeral base rounds (value / base) (digit_char d ∷ right)
          (if d != 0 then digit_char d ∷ right else best) p q ds' kept)
]

-- The text before the loop.
zero-IsNumeral : (base : ℕ) → 0 < base → IsNumeral base (b'0' ∷ [])
zero-IsNumeral base p = ((ground arith, tt), tt)

-- In a base from 1 to 16, `print_unsigned` appends a numeral of the base, in digits and the letters A
-- to F and without leading zeros, and that numeral stands for the value reduced to sixteen digits of the base.
pub print_unsigned_lem :
    (stack : List ℕ) (value base : ℕ) (out : Out)
    → length stack ≡ 21
    → 0 < base
    → base ≤ 16
    → (text : List ℕ) × (print_unsigned stack value base out ≡ ok tt (out ++ text))
      × IsNumeral base text
      × (read_from base 0 text ≡ value % base ^ 16)
print_unsigned_lem stack value base out size p q = (
  text_loop base 16 value [] (b'0' ∷ []),
  print_unsigned-text_loop stack value base out size p q,
  text_loop-IsNumeral base 16 value [] (b'0' ∷ []) p q tt (zero-IsNumeral base p),
  text_loop-value base 16 value [] (b'0' ∷ []) p q (omega arith) ∙ rw pow-zero (omega arith),
)

-- Every 64-bit value is printed in full as a numeral of base 16, and every value below 10 ^ 16 as one
-- of base 10.
pub print_unsigned_exact :
    (stack : List ℕ) (value : ℕ) (out : Out)
    → length stack ≡ 21
    → ((value < 2 ^ 64)
        → (text : List ℕ) × (print_unsigned stack value 16 out ≡ ok tt (out ++ text))
          × IsNumeral 16 text
          × (read_from 16 0 text ≡ value))
      × ((value < 10 ^ 16)
          → (text : List ℕ) × (print_unsigned stack value 10 out ≡ ok tt (out ++ text))
            × IsNumeral 10 text
            × (read_from 10 0 text ≡ value))
print_unsigned_exact stack value out size = (
  (λ h.
      let (text, prints, numeral, reads) =
        print_unsigned_lem stack value 16 out size (omega arith) (omega arith) in
      (text, prints, numeral, omega (arith, reads))),
  (λ h.
      let (text, prints, numeral, reads) =
        print_unsigned_lem stack value 10 out size (omega arith) (omega arith) in
      (text, prints, numeral, omega (arith, reads))),
)

-- A multiple of 10 ^ 16 is printed as the numeral of 0 in base 10.
pub print_unsigned_truncates :
    (stack : List ℕ) (k : ℕ) (out : Out)
    → length stack ≡ 21
    → (text : List ℕ) × (print_unsigned stack (k * 10 ^ 16) 10 out ≡ ok tt (out ++ text))
      × IsNumeral 10 text
      × (read_from 10 0 text ≡ 0)
print_unsigned_truncates stack k out size =
    let (text, prints, numeral, reads) =
      print_unsigned_lem stack (k * 10 ^ 16) 10 out size (omega arith) (omega arith) in
    (text, prints, numeral, reads ∙ mul-mod_left k (10 ^ 16))
