-- ===== src/Serial/Write.antt =====
-- `serial_write` on a port that keeps answering.
use umbral_os.Base.{
  ℕ, zero, suc, ◌+◌, ◌<◌, ◌≡◌, refl, sym, ap, ◌∙◌, arith, bit_and, Bool, true, false, List, [], ◌∷◌,
  ◌++◌, ◌==◌, if◌then◌else◌, length, All, Bool-cases, inl, inr,
}
use umbral_os.Base.Word.{u8}
use mathlib.Core.List.{append_assoc, append-nil}
use umbral_os.Base.Action.{Action, ok, pure, ◌>>◌}
use umbral_os.Intel.{Cpu, Event, inb, outb}
use umbral_os.Intel.Device.{after_trace, after_trace-snoc}
use umbral_os.Serial.{com1, serial_putc, serial_write, wait_from}
use umbral_os.Serial.Device.{Uart, uart, step, takes_divisor}

-- The transmit buffer is full by this answer.
abbrev pub is_busy : ℕ → Bool
is_busy status = bit_and (u8 status) 0x20 == 0

-- The answers suffice for `n` bytes, with `rest` left: each byte may wait through busy answers.
pub data Polls : ℕ → List ℕ → List ℕ → Type 0 where
  done : {rest : List ℕ} → Polls 0 rest rest
  busy :
      {n a : ℕ} {rs rest : List ℕ}
      → is_busy a ≡ true
      → Polls (suc n) rs rest
      → Polls (suc n) (a ∷ rs) rest
  idle :
      {n a : ℕ} {rs rest : List ℕ}
      → is_busy a ≡ false
      → Polls n rs rest
      → Polls (suc n) (a ∷ rs) rest

-- The bytes that go out for a buffer.
abbrev pub expand : List ℕ → List ℕ
expand [] = []
expand (c ∷ buf) = if c == 10 then 13 ∷ c ∷ expand buf else c ∷ expand buf

pub polls_none : {rs rest : List ℕ} → Polls 0 rs rest → rs ≡ rest
polls_none done = refl

wait_lem :
    {n : ℕ} {rs rest : List ℕ}
    → Polls (suc n) rs rest
    → (rounds : ℕ) (trace : List Event) (d : Uart) → length rs < rounds
    → (s' : Cpu) × (wait_from rounds (record { replies = rs; trace = trace }) ≡ ok tt s')
      × Polls n s'.replies rest
      × (uart s' d ≡ after_trace step trace d)
unfolding wait_from inb
wait_lem p zero trace d h = absurd (omega arith)
wait_lem (busy {a} {rs} b p) (suc rounds) trace d h =
    let (s', returns, polls, same) =
      wait_lem p rounds (trace ++ (Event.in_port (com1 + 5) (u8 a) ∷ [])) d (omega arith) in
    (
      s',
      rw b returns,
      polls,
      same ∙ after_trace-snoc step trace (Event.in_port (com1 + 5) (u8 a)) d,
    )
wait_lem (idle {a} {rs} b p) (suc rounds) trace d h = (
  record { replies = rs; trace = trace ++ (Event.in_port (com1 + 5) (u8 a) ∷ []) },
  rw b refl,
  p,
  after_trace-snoc step trace (Event.in_port (com1 + 5) (u8 a)) d,
)

putc_lem :
    {n : ℕ} {rest : List ℕ} (c : ℕ) (s : Cpu) (d : Uart)
    → c < 256
    → takes_divisor (uart s d) ≡ false
    → Polls (suc n) s.replies rest
    → (s' : Cpu) × (serial_putc c s ≡ ok tt s')
      × Polls n s'.replies rest
      × (takes_divisor (uart s' d) ≡ false)
      × ((uart s' d).sent ≡ (uart s d).sent ++ (c ∷ []))
unfolding serial_putc outb
putc_lem c s d small open_line p =
    let (t, returns, polls, same) = wait_lem p (suc (length s.replies)) s.trace d (omega arith) in
    let byte : u8 c ≡ c = omega arith in
    let after =
      after_trace-snoc step t.trace (Event.out_port com1 c) d
      ∙ ap (step (Event.out_port com1 c)) same in
    let sent : step (Event.out_port com1 c) (uart s d)
        ≡ record (uart s d) { sent = (uart s d).sent ++ (c ∷ []) } =
      rw open_line refl in
    (
      record t { trace = t.trace ++ (Event.out_port com1 c ∷ []) },
      rw (returns, byte) refl,
      polls,
      rw (after ∙ sent) open_line,
      rw (after ∙ sent) refl,
    )

-- The bytes one after the other.
abbrev send_all : List ℕ → Action Cpu (Unit {0})
send_all [] = pure tt
send_all (c ∷ cs) = serial_putc c >> send_all cs

serial_write-send_all : (buf : List ℕ) → serial_write buf ≡ send_all (expand buf)
unfolding serial_write
serial_write-send_all [] = refl
serial_write-send_all (c ∷ buf) = elim (Bool-cases (c == 10)) [
  | inl newline ↦ rw newline (
      ap (λ (rest : Action Cpu (Unit {0})). serial_putc 13 >> (serial_putc c >> rest))
        (serial_write-send_all buf))
  | inr other ↦
      rw other
        (ap (λ (rest : Action Cpu (Unit {0})). serial_putc c >> rest) (serial_write-send_all buf))
]

All-expand : (buf : List ℕ) → All (λ c. c < 256) buf → All (λ c. c < 256) (expand buf)
All-expand [] h = tt
All-expand (c ∷ buf) (small, smalls) = elim (Bool-cases (c == 10)) [
  | inl newline ↦ rw newline (omega arith, (small, All-expand buf smalls))
  | inr other ↦ rw other (small, All-expand buf smalls)
]

send_all_lem :
    (cs rest : List ℕ) (s : Cpu) (d : Uart)
    → All (λ c. c < 256) cs
    → takes_divisor (uart s d) ≡ false
    → Polls (length cs) s.replies rest
    → (s' : Cpu) × (send_all cs s ≡ ok tt s')
      × (s'.replies ≡ rest)
      × (takes_divisor (uart s' d) ≡ false)
      × ((uart s' d).sent ≡ (uart s d).sent ++ cs)
send_all_lem [] rest s d small line p =
    (s, refl, polls_none p, line, sym (append-nil (uart s d).sent))
send_all_lem (c ∷ cs) rest s d (small, smalls) line p =
    let (t, returns, polls, line', sent) = putc_lem c s d small line p in
    let (s', returns', left, line'', sent') = send_all_lem cs rest t d smalls line' polls in
    (
      s',
      rw returns returns',
      left,
      line'',
      sent' ∙ ap (λ (x : List ℕ). x ++ cs) sent ∙ append_assoc (uart s d).sent (c ∷ []) cs,
    )

-- As long as the port's answers suffice and its line is not at the divisor, `serial_write` returns,
-- and the bytes of the buffer have gone out in order, each newline after a carriage return.
pub serial_write_lem :
    (buf rest : List ℕ) (s : Cpu) (d : Uart)
    → All (λ c. c < 256) buf
    → takes_divisor (uart s d) ≡ false
    → Polls (length (expand buf)) s.replies rest
    → (s' : Cpu) × (serial_write buf s ≡ ok tt s')
      × (s'.replies ≡ rest)
      × (takes_divisor (uart s' d) ≡ false)
      × ((uart s' d).sent ≡ (uart s d).sent ++ expand buf)
serial_write_lem buf rest s d small line p =
    rw (serial_write-send_all buf)
      (send_all_lem (expand buf) rest s d (All-expand buf small) line p)
