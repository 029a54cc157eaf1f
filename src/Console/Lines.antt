-- ===== src/Console/Lines.antt =====
-- A `kprint` whose format is spelled from pieces, through a writer that goes to the serial port: how
-- it ends, and what goes out on the line.
use umbral_os.Base.{
  ℕ, zero, suc, ◌+◌, ◌≡◌, refl, sym, ap, ◌∙◌, arith, Bool, true, false, ◌&&◌, List, [], ◌∷◌, ◌++◌,
  length-append, length, All,
}
use umbral_os.Base.Action.{Action, ok, ◌>>◌}
use umbral_os.Intel.{Cpu, Event}
use umbral_os.Intel.Device.{after_trace-snoc}
use umbral_os.Common.Print.Format.Pieces.{Piece, spell_all, args_all, render_all, kprintv_lem}
use umbral_os.Serial.Device.{Uart, uart, step, takes_divisor}
use umbral_os.Serial.Write.{Polls, done, busy, idle, polls_none, expand, serial_write_lem}
use mathlib.Core.List.{append_assoc, append-nil}
use mathlib.Core.Path.{subst}
use umbral_os.Console.Bytes.{IsByte, all_plain, all_plain-All, render_all-bytes}
use umbral_os.Console.{Writer, do_flanterm_write, write_to, flush, print}

-- What goes out on the line for the pieces.
abbrev pub on_line : List Piece → List ℕ
on_line ps = expand (render_all ps)

-- The line is not at the divisor, and it has the answers for so many bytes, with `rest` left.
pub record IsReady (s : Cpu) (d : Uart) (bytes rest : List ℕ) : Type 0 where
  pub polls : Polls (length bytes) s.replies rest
  pub line : takes_divisor (uart s d) ≡ false

-- After a call that sends these bytes.
pub record Sent (s : Cpu) (d : Uart) (bytes rest : List ℕ) (s' : Cpu) : Type 0 where
  pub left : s'.replies ≡ rest
  pub line : takes_divisor (uart s' d) ≡ false
  pub sent : (uart s' d).sent ≡ (uart s d).sent ++ bytes

-- The writer is one of the two that go to the serial port.
abbrev pub is_serial : Writer → Bool
is_serial Writer.unset = false
is_serial Writer.serial = true
is_serial Writer.serial_and_terminal = true

write_to_lem :
    (w : Writer) (bytes rest : List ℕ) (s : Cpu) (d : Uart)
    → is_serial w ≡ true
    → All IsByte bytes
    → IsReady s d (expand bytes) rest
    → (s' : Cpu) × (write_to w bytes s ≡ ok tt s') × Sent s d (expand bytes) rest s'
unfolding write_to do_flanterm_write
write_to_lem Writer.unset bytes rest s d h small ready = cc
write_to_lem Writer.serial bytes rest s d h small ready =
    let (s', returns, left, line, sent) =
      serial_write_lem bytes rest s d small ready.line ready.polls in
    (s', returns, record { left = left; line = line; sent = sent })
write_to_lem Writer.serial_and_terminal bytes rest s d h small ready =
    let (s', returns, left, line, sent) =
      serial_write_lem bytes rest s d small ready.line ready.polls in
    let same = after_trace-snoc step s'.trace (Event.terminal bytes) d in
    (
      record s' { trace = s'.trace ++ (Event.terminal bytes ∷ []) },
      rw returns refl,
      record { left = left; line = rw same line; sent = rw same sent },
    )

module _ (stack : List ℕ) (size : length stack ≡ 21) (w : Writer)
    (to_line : is_serial w ≡ true) where
  -- A `kprint` with enough answers returns, and the pieces have gone out.
  pub print_lem :
      (ps : List Piece) (rest : List ℕ) (s : Cpu) (d : Uart)
      → all_plain ps ≡ true
      → IsReady s d (on_line ps) rest
      → (s' : Cpu) × (print stack w (spell_all ps (0 ∷ [])) (args_all ps []) s ≡ ok tt s')
        × Sent s d (on_line ps) rest s'
  unfolding print flush
  print_lem ps rest s d plain ready =
      rw (kprintv_lem stack size ps [] (all_plain-All ps plain))
        (write_to_lem w (render_all ps) rest s d to_line (render_all-bytes ps plain) ready)

-- The answers for two runs of bytes are the answers for the first and then for the second.
Polls-split :
    (m n k : ℕ) (rs rest : List ℕ)
    → k ≡ m + n
    → Polls k rs rest
    → (mid : List ℕ) × Polls m rs mid × Polls n mid rest
Polls-split zero n k rs rest e p =
    let same : k ≡ n = omega arith in (rs, done, subst (λ i. Polls i rs rest) same p)
Polls-split (suc m) n _ rs _ e done = absurd (omega arith)
Polls-split (suc m) n (suc k) (a ∷ rs) rest e (busy b p) =
    let (mid, first, second) = Polls-split (suc m) n (suc k) rs rest e p in
    (mid, busy b first, second)
Polls-split (suc m) n (suc k) (a ∷ rs) rest e (idle b p) =
    let (mid, first, second) = Polls-split m n k rs rest (omega arith) p in
    (mid, idle b first, second)

-- Ready for two runs of bytes: ready for the first, and after it for the second.
pub IsReady-append :
    (s : Cpu) (d : Uart) (xs ys rest : List ℕ)
    → IsReady s d (xs ++ ys) rest
    → (mid : List ℕ) × IsReady s d xs mid × ((s' : Cpu) → Sent s d xs mid s' → IsReady s' d ys rest)
IsReady-append s d xs ys rest ready =
    let (mid, first, second) =
      Polls-split (length xs) (length ys) _ s.replies rest (length-append xs ys) ready.polls in
    (
      mid,
      record { polls = first; line = ready.line },
      λ s' sent. record { polls = rw sent.left second; line = sent.line },
    )

pub Sent-append :
    (s : Cpu) (d : Uart) (xs ys mid rest : List ℕ) (t s' : Cpu)
    → Sent s d xs mid t
    → Sent t d ys rest s'
    → Sent s d (xs ++ ys) rest s'
Sent-append s d xs ys mid rest t s' first second = record {
  left = second.left;
  line = second.line;
  sent = second.sent ∙ ap (λ (x : List ℕ). x ++ ys) first.sent ∙ append_assoc (uart s d).sent xs ys;
}

-- Several calls of `kprint`, one after the other, and what follows them.
abbrev pub say :
    {A : Type 0} → (stack : List ℕ) → Writer → List (List Piece) → Action Cpu A → Action Cpu A
say stack w [] k = k
say stack w (ps ∷ pss) k =
    print stack w (spell_all ps (0 ∷ [])) (args_all ps []) >> say stack w pss k

abbrev pub lines : List (List Piece) → List ℕ
lines [] = []
lines (ps ∷ pss) = on_line ps ++ lines pss

abbrev pub lines_plain : List (List Piece) → Bool
lines_plain [] = true
lines_plain (ps ∷ pss) = all_plain ps && lines_plain pss

pub lines-append : (pss qss : List (List Piece)) → lines (pss ++ qss) ≡ lines pss ++ lines qss
lines-append [] qss = refl
lines-append (ps ∷ pss) qss =
    ap (λ (x : List ℕ). on_line ps ++ x) (lines-append pss qss)
    ∙ sym (append_assoc (on_line ps) (lines pss) (lines qss))

module _ (stack : List ℕ) (size : length stack ≡ 21) (w : Writer)
    (to_line : is_serial w ≡ true) where
  -- With enough answers all lines go out, and the run goes on with what follows them.
  pub say_lem :
      {A : Type 0} (pss : List (List Piece)) (k : Action Cpu A) (rest : List ℕ) (s : Cpu) (d : Uart)
      → lines_plain pss ≡ true
      → IsReady s d (lines pss) rest
      → (s' : Cpu) × (say stack w pss k s ≡ k s') × Sent s d (lines pss) rest s'
  say_lem [] k rest s d plain ready = (
    s,
    refl,
    record {
      left = polls_none ready.polls;
      line = ready.line;
      sent = sym (append-nil (uart s d).sent);
    },
  )
  say_lem (ps ∷ pss) k rest s d plain ready =
      let (mid, ready_first, then_ready) = IsReady-append s d (on_line ps) (lines pss) rest ready in
      let (t, returns, first) =
        print_lem stack size w to_line ps mid s d (ground arith) ready_first in
      let (s', goes_on, second) = say_lem pss k rest t d (ground arith) (then_ready t first) in
      (s', rw returns goes_on, Sent-append s d (on_line ps) (lines pss) mid rest t s' first second)
