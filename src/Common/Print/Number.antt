-- ===== src/Common/Print/Number.antt =====
-- `print_unsigned`: the buffer, the loop over the digits, and the start of the text.
pub mod Text
pub mod Value
use umbral_os.Base.{
  ℕ, zero, suc, ◌+◌, ◌-◌, ◌*◌, ◌/◌, ◌%◌, ◌^◌, Bool, true, false, Option, none, some, List, [], ◌∷◌,
  ◌++◌, ltb, ◌==◌, ◌!=◌, if◌then◌else◌, length, set, take, drop,
}
use umbral_os.Base.Word.{u8}
use umbral_os.Base.Action.{Action, Outcome, ok, faulted, pure, fault, out_of_bounds, ◌>>=◌, ◌>>◌}
use umbral_os.Common.Str.{strlen}

abbrev pub num_buf_len : ℕ
num_buf_len = 20

-- The output so far.
abbrev pub Out : Type 0
Out = List ℕ

-- `g_writer(buf, size)`
abbrev pub write : List ℕ → Action Out (Unit {0})
write bytes out = ok tt (out ++ bytes)

unfoldable pub print_char : ℕ → Action Out (Unit {0})
print_char c = write (u8 c ∷ [])

-- The writer gets the `strlen` bytes from the pointer on.
unfoldable pub print_string : List ℕ → Action Out (Unit {0})
print_string str = elim (strlen str) [
  | none ↦ fault out_of_bounds
  | some size ↦ write (take size str)
]

-- The character of one digit.
abbrev pub digit_char : ℕ → ℕ
digit_char ch_idx = if ltb ch_idx 10 then u8 (ch_idx + b'0') else u8 (ch_idx - 10 + b'A')

-- The loop, with the rounds left, `i`, `value`, the buffer and `start`.
pub digit_loop : ℕ → ℕ → ℕ → ℕ → List ℕ → ℕ → List ℕ × ℕ
digit_loop base zero i value buf start = (buf, start)
digit_loop base (suc rounds) i value buf start =
    let ch_idx = value % base in
    let buf_idx = u8 (num_buf_len - 1 - i) in
    let rest =
      digit_loop base rounds (i + 1) (value / base) (set buf buf_idx (digit_char ch_idx))
        (if ch_idx != 0 then buf_idx else start) in
    if value == 0 then (buf, start) else rest

-- `stack` is what the buffer holds before anything is written to it.
unfoldable pub print_unsigned : List ℕ → ℕ → ℕ → Action Out (Unit {0})
unfolding digit_loop
print_unsigned stack value base =
    let buf = set (set stack (num_buf_len - 1) b'0') num_buf_len 0 in
    let (buf', start) = digit_loop base 16 0 value buf (num_buf_len - 1) in
    print_string (drop start buf')
