-- ===== src/Ps2/Polls.antt =====
-- The two polling loops of ps2.c, on any sequence of answers.
use umbral_os.Base.{
  ℕ, zero, suc, ◌<◌, ◌≡◌, refl, ◌∙◌, arith, bit_and, Bool, true, false, Option, none, some, List,
  [], ◌∷◌, ◌++◌, ◌==◌, ◌!=◌, if◌then◌else◌, length, Bool-cases, inl, inr,
}
use umbral_os.Base.Word.{u8}
use umbral_os.Base.Text.{text}
use mathlib.Core.List.{append_assoc, append-nil}
use umbral_os.Base.Action.{Outcome, ok, faulted, no_reply, bind_outcome, pure, ◌>>=◌, ◌>>◌}
use umbral_os.Intel.{Cpu, Event, inb, outb}
use umbral_os.Common.Print.Format.{Arg, Printer}
use umbral_os.Ps2.{await_output, await_input, poll_reply, send_to_device, command_status_port}

-- The controller has a byte for the kernel, or takes one from it, by these answers.
abbrev pub has_byte : ℕ → Bool
has_byte status = if bit_and (u8 status) 1 == 0 then false else true

abbrev pub takes_byte : ℕ → Bool
takes_byte status = if bit_and (u8 status) 2 != 0 then false else true

-- The answers after the first that is ready, where there is one.
abbrev pub after_ready : (ℕ → Bool) → List ℕ → Option (List ℕ)
after_ready ready [] = none
after_ready ready (a ∷ rs) = let later = after_ready ready rs in if ready a then some rs else later

-- The reads of the status up to there.
abbrev pub status_reads : (ℕ → Bool) → List ℕ → List Event
status_reads ready [] = []
status_reads ready (a ∷ rs) =
    let later = status_reads ready rs in
    Event.in_port command_status_port (u8 a) ∷ (if ready a then [] else later)

abbrev polled : Option (List ℕ) → List Event → Outcome Cpu (Unit {0})
polled none trace = faulted no_reply (record { replies = []; trace = trace })
polled (some rest) trace = ok tt (record { replies = rest; trace = trace })

await_input_lem :
    (rounds : ℕ) (rs : List ℕ) (trace : List Event)
    → length rs < rounds
    → await_input rounds (record { replies = rs; trace = trace })
      ≡ polled (after_ready takes_byte rs) (trace ++ status_reads takes_byte rs)
unfolding await_input inb
await_input_lem zero rs trace h = absurd (omega arith)
await_input_lem (suc rounds) [] trace h = rw append-nil refl
await_input_lem (suc rounds) (a ∷ rs) trace h =
    let later =
      await_input_lem rounds rs (trace ++ (Event.in_port command_status_port (u8 a) ∷ []))
        (omega arith) in
    elim (Bool-cases (bit_and (u8 a) 2 != 0)) [
      | inl busy ↦ rw busy (later ∙ rw append_assoc refl)
      | inr free ↦ rw free refl
    ]

await_output_lem :
    (rounds : ℕ) (rs : List ℕ) (trace : List Event)
    → length rs < rounds
    → await_output rounds (record { replies = rs; trace = trace })
      ≡ polled (after_ready has_byte rs) (trace ++ status_reads has_byte rs)
unfolding await_output inb
await_output_lem zero rs trace h = absurd (omega arith)
await_output_lem (suc rounds) [] trace h = rw append-nil refl
await_output_lem (suc rounds) (a ∷ rs) trace h =
    let later =
      await_output_lem rounds rs (trace ++ (Event.in_port command_status_port (u8 a) ∷ []))
        (omega arith) in
    elim (Bool-cases (bit_and (u8 a) 1 == 0)) [
      | inl empty ↦ rw empty (later ∙ rw append_assoc refl)
      | inr full ↦ rw full refl
    ]

-- What `send_to_device` comes to, by the answers after the first that is ready.
abbrev pub sent_to_device : ℕ → Option (List ℕ) → List Event → Outcome Cpu (Unit {0})
sent_to_device value none trace = faulted no_reply (record { replies = []; trace = trace })
sent_to_device value (some rest) trace =
    ok tt (record { replies = rest; trace = trace ++ (Event.out_port 0x60 (u8 value) ∷ []) })

-- What `poll_reply` comes to.
abbrev pub reply_polled : Printer → Option (List ℕ) → List Event → Outcome Cpu ℕ
reply_polled kprint none trace = faulted no_reply (record { replies = []; trace = trace })
reply_polled kprint (some []) trace = faulted no_reply (record { replies = []; trace = trace })
reply_polled kprint (some (b ∷ rest)) trace =
    (kprint (text "0x%x\n") (Arg.uint32 (u8 b) ∷ []) >> pure (u8 b))
      (record { replies = rest; trace = trace ++ (Event.in_port 0x60 (u8 b) ∷ []) })

send_after :
    (value : ℕ) (r : Option (List ℕ)) (trace : List Event)
    → bind_outcome (polled r trace) (λ _. outb 0x60 value) ≡ sent_to_device value r trace
unfolding outb
send_after value none trace = refl
send_after value (some rest) trace = refl

reply_after :
    (kprint : Printer) (r : Option (List ℕ)) (trace : List Event)
    → bind_outcome
        (polled r trace)
        (λ _. do ret ← inb 0x60; kprint (text "0x%x\n") (Arg.uint32 ret ∷ []); pure ret)
      ≡ reply_polled kprint r trace
unfolding inb
reply_after kprint none trace = refl
reply_after kprint (some []) trace = refl
reply_after kprint (some (b ∷ rest)) trace = refl

-- Both loops end, whatever the answers are: at the first status that is ready, without a further
-- read, or with the answers, where none is. Then `send_to_device` has sent its byte once, after the
-- status reads, and `poll_reply` prints and returns the answer after the status; where no status is
-- ready nothing is sent and no byte is read.
pub polls_lem :
    (kprint : Printer) (value : ℕ) (rs : List ℕ) (trace : List Event)
    → (send_to_device value (record { replies = rs; trace = trace })
        ≡ sent_to_device value (after_ready takes_byte rs) (trace ++ status_reads takes_byte rs))
      × (poll_reply kprint (record { replies = rs; trace = trace })
          ≡ reply_polled kprint (after_ready has_byte rs) (trace ++ status_reads has_byte rs))
unfolding send_to_device poll_reply
polls_lem kprint value rs trace = (
  rw (await_input_lem (suc (length rs)) rs trace (omega arith))
      (send_after value (after_ready takes_byte rs) (trace ++ status_reads takes_byte rs)),
  rw (await_output_lem (suc (length rs)) rs trace (omega arith))
      (reply_after kprint (after_ready has_byte rs) (trace ++ status_reads has_byte rs)),
)
