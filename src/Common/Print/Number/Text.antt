-- ===== src/Common/Print/Number/Text.antt =====
-- The digit loop without its buffer: the text to the right of the digits so far, and the text from
-- `start` on.
use umbral_os.Base.{
  ℕ, zero, suc, ◌+◌, ◌-◌, ◌/◌, ◌%◌, ◌≤◌, ◌<◌, ◌≡◌, ◌≢◌, ◌⊎◌, inl, inr, refl, ap, ◌∙◌, arith, some,
  List, [], ◌∷◌, ◌++◌, Bool-cases, ◌==◌, ◌!=◌, if◌then◌else◌, length, get_elem?, get_elem?-set_ne,
  get_elem?-set_self, get_elem?-drop, set, drop, length-set,
}
use umbral_os.Base.Word.{u8}
use umbral_os.Base.Action.{ok}
use umbral_os.Common.Str.Laws.{c_string, strlen-c_string}
use umbral_os.Common.Print.Number.{
  num_buf_len, Out, print_string, digit_char, digit_loop, print_unsigned,
}

unfoldable pub text_loop : ℕ → ℕ → ℕ → List ℕ → List ℕ → List ℕ
text_loop base zero value right best = best
text_loop base (suc rounds) value right best =
    let ch_idx = value % base in
    let right' = digit_char ch_idx ∷ right in
    let rest = text_loop base rounds (value / base) right' (if ch_idx != 0 then right' else best) in
    if value == 0 then best else rest

drop-set_below : (xs : List ℕ) (j k v : ℕ) → k < j → drop j (set xs k v) ≡ drop j xs
drop-set_below [] j k v h = refl
drop-set_below (x ∷ xs) zero k v h = absurd (omega arith)
drop-set_below (x ∷ xs) (suc j) zero v h = refl
drop-set_below (x ∷ xs) (suc j) (suc k) v h = drop-set_below xs j k v (omega arith)

drop-set_self : (xs : List ℕ) (k v : ℕ) → k < length xs → drop k (set xs k v) ≡ v ∷ drop (suc k) xs
drop-set_self [] k v h = absurd (omega arith)
drop-set_self (x ∷ xs) zero v h = refl
drop-set_self (x ∷ xs) (suc k) v h = drop-set_self xs k v (omega arith)

digit_char-ne_zero : (d : ℕ) → d < 16 → digit_char d ≢ 0
digit_char-ne_zero d h = ground arith

-- How the loop's buffer stands for the two texts after `i` rounds.
pub record Holds (i : ℕ) (buf : List ℕ) (start : ℕ) (right best : List ℕ) : Type 0 where
  pub size : length buf ≡ 21
  pub nul : get_elem? buf 20 ≡ some 0
  pub rounds : i ≤ 16
  pub shown : c_string (drop (num_buf_len - i) buf) ≡ right
  pub text : c_string (drop start buf) ≡ best
  pub placed :
      ((i ≡ 0) × (start ≡ 19) × (right ≡ []) × (best ≡ b'0' ∷ [])) ⊎ (num_buf_len ≤ start + i)
  pub in_buffer : start < num_buf_len

c_string-set :
    (xs : List ℕ) (p q v : ℕ)
    → p < length xs
    → v ≢ 0
    → suc p ≡ q
    → c_string (drop p (set xs p v)) ≡ v ∷ c_string (drop q xs)
c_string-set xs p q v h ne e = rw (drop-set_self xs p v h, ← e) (ground arith)

module _ (d i : ℕ) (buf : List ℕ) (start : ℕ) (right best : List ℕ) (digit : d < 16) (more : i < 16)
    (holds : Holds i buf start right best) where
  abbrev buf' : List ℕ
  buf' = set buf (19 - i) (digit_char d)

  abbrev start' : ℕ
  start' = if d != 0 then 19 - i else start

  shown_step : c_string (drop (19 - i) buf') ≡ digit_char d ∷ right
  shown_step =
      c_string-set buf (19 - i) (num_buf_len - i) (digit_char d) (omega (arith, holds.size))
        (digit_char-ne_zero d digit) (omega arith)
      ∙ ap (λ t. digit_char d ∷ t) holds.shown

  -- A digit 0 leaves the start where it is.
  text_zero : d ≡ 0 → c_string (drop start buf') ≡ best
  text_zero zero_digit = elim holds.placed [
    | inl (first, last, empty, alone) ↦
        let here : 19 - i ≡ start = omega arith in
        rw (← here) (shown_step ∙ ground (arith, empty, alone))
    | inr before ↦ rw (drop-set_below buf start (19 - i) (digit_char d) (omega arith)) holds.text
  ]

  text_step : c_string (drop start' buf') ≡ (if d != 0 then digit_char d ∷ right else best)
  text_step = elim (Bool-cases (d != 0)) [
    | inl nonzero ↦ rw nonzero shown_step
    | inr is_zero ↦ rw is_zero (text_zero (ground arith))
  ]

  Holds-set :
      Holds
        (i + 1)
        buf'
        start'
        (digit_char d ∷ right)
        (if d != 0 then digit_char d ∷ right else best)
  Holds-set = record {
    size = omega (arith, length-set buf (19 - i) (digit_char d), holds.size);
    nul = get_elem?-set_ne buf (19 - i) 20 (digit_char d) (omega arith) ∙ holds.nul;
    rounds = omega arith;
    shown = ap (λ j. c_string (drop j buf')) (omega arith) ∙ shown_step;
    text = text_step;
    placed = inr (ground (arith, holds.placed));
    in_buffer = ground (arith, holds.in_buffer);
  }

-- The loop leaves a buffer that holds, from `start` on, what the loop without a buffer returns.
digit_loop-text_loop :
    (base rounds i value : ℕ) (buf : List ℕ) (start : ℕ) (right best : List ℕ)
    → 0 < base
    → base ≤ 16
    → i + rounds ≤ 16
    → Holds i buf start right best
    → let (buf', start') = digit_loop base rounds i value buf start in
      (c_string (drop start' buf') ≡ text_loop base rounds value right best)
      × (get_elem? buf' 20 ≡ some 0)
      × (start' < num_buf_len)
unfolding digit_loop text_loop
digit_loop-text_loop base zero i value buf start right best p q h holds =
    (holds.text, holds.nul, holds.in_buffer)
digit_loop-text_loop base (suc rounds) i value buf start right best p q h holds =
    elim (Bool-cases (value == 0)) [
      | inl done ↦ rw done (holds.text, holds.nul, holds.in_buffer)
      | inr more ↦
          let at : u8 (num_buf_len - 1 - i) ≡ 19 - i = omega arith in
          let d = value % base in
          rw (more, at)
            (digit_loop-text_loop base rounds (i + 1) (value / base)
              (set buf (19 - i) (digit_char d)) (if d != 0 then 19 - i else start)
              (digit_char d ∷ right) (if d != 0 then digit_char d ∷ right else best) p q
              (omega arith) (Holds-set d i buf start right best (omega arith) (omega arith) holds))
    ]

pub print_string_lem :
    (str : List ℕ) (k : ℕ) (out : Out)
    → get_elem? str k ≡ some 0
    → print_string str out ≡ ok tt (out ++ c_string str)
unfolding print_string
print_string_lem str k out h =
    let (n, len, text) = strlen-c_string str k h in ground (arith, len, text)

drop_of_get_elem? :
    (xs : List ℕ) (k v : ℕ) → get_elem? xs k ≡ some v → drop k xs ≡ v ∷ drop (suc k) xs
drop_of_get_elem? [] k v h = cc
drop_of_get_elem? (x ∷ xs) zero v h = cc
drop_of_get_elem? (x ∷ xs) (suc k) v h = drop_of_get_elem? xs k v h

-- The buffer before the loop.
abbrev pub first_buf : List ℕ → List ℕ
first_buf stack = set (set stack (num_buf_len - 1) b'0') num_buf_len 0

module _ (stack : List ℕ) (size : length stack ≡ 21) where
  size' : length (set stack 19 b'0') ≡ 21
  size' = length-set stack 19 b'0' ∙ size

  nul_at : get_elem? (first_buf stack) 20 ≡ some 0
  nul_at = get_elem?-set_self (set stack 19 b'0') 20 0 (omega (arith, size'))

  zero_at : get_elem? (first_buf stack) 19 ≡ some b'0'
  zero_at =
      get_elem?-set_ne (set stack 19 b'0') 20 19 0 (omega arith)
      ∙ get_elem?-set_self stack 19 b'0' (omega arith)

  empty_at : c_string (drop 20 (first_buf stack)) ≡ []
  empty_at = ap c_string (drop_of_get_elem? (first_buf stack) 20 0 nul_at)

  first_Holds : Holds 0 (first_buf stack) 19 [] (b'0' ∷ [])
  first_Holds = record {
    size = length-set (set stack 19 b'0') 20 0 ∙ size';
    nul = nul_at;
    rounds = omega arith;
    shown = empty_at;
    text =
        ap c_string (drop_of_get_elem? (first_buf stack) 19 b'0' zero_at)
        ∙ ap (λ t. b'0' ∷ t) empty_at;
    placed = inl (refl, refl, refl, refl);
    in_buffer = omega arith;
  }

-- Whatever the stack held, the text written is that of the loop without a buffer.
pub print_unsigned-text_loop :
    (stack : List ℕ) (value base : ℕ) (out : Out)
    → length stack ≡ 21
    → 0 < base
    → base ≤ 16
    → print_unsigned stack value base out ≡ ok tt (out ++ text_loop base 16 value [] (b'0' ∷ []))
unfolding print_unsigned
print_unsigned-text_loop stack value base out size p q =
    let (buf, start) = digit_loop base 16 0 value (first_buf stack) 19 in
    let (text, nul, inside) =
      digit_loop-text_loop base 16 0 value (first_buf stack) 19 [] (b'0' ∷ []) p q (omega arith)
        (first_Holds stack size) in
    let last : start + (20 - start) ≡ 20 = omega (arith, inside) in
    print_string_lem (drop start buf) (20 - start) out
      (get_elem?-drop buf start (20 - start) ∙ ap (get_elem? buf) last ∙ nul)
    ∙ ap (λ t. ok tt (out ++ t)) text
