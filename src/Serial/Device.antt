-- ===== src/Serial/Device.antt =====
-- The 16550 as its data sheet has it: the first two ports are the divisor's while bit 7 of the line
-- control register is set. `sent` are the bytes that went out on the line.
use umbral_os.Base.{
  ℕ, zero, suc, ◌/◌, ◌%◌, ◌≡◌, refl, Bool, List, [], ◌∷◌, ◌++◌, ◌==◌, if◌then◌else◌, Bool-cases,
  inl, inr,
}
use umbral_os.Base.Action.{ok}
use umbral_os.Intel.{Cpu, Event, outb}
use umbral_os.Intel.Device.{after_trace, after_trace-snoc}
use umbral_os.Serial.{com1, configure}

pub record Uart : Type 0 where
  pub divisor_low : ℕ
  pub divisor_high : ℕ
  pub interrupts : ℕ
  pub fifo_control : ℕ
  pub line_control : ℕ
  pub modem_control : ℕ
  pub sent : List ℕ

abbrev pub takes_divisor : Uart → Bool
takes_divisor d = d.line_control / 128 % 2 == 1

-- A write to the port at an offset.
abbrev port_write : ℕ → ℕ → Uart → Uart
port_write zero v d =
    if takes_divisor d then record d { divisor_low = v } else record d { sent = d.sent ++ (v ∷ []) }
port_write (suc zero) v d =
    if takes_divisor d then record d { divisor_high = v } else record d { interrupts = v }
port_write (suc (suc zero)) v d = record d { fifo_control = v }
port_write (suc (suc (suc zero))) v d = record d { line_control = v }
port_write (suc (suc (suc (suc zero)))) v d = record d { modem_control = v }
port_write (suc (suc (suc (suc (suc k))))) v d = d

abbrev pub step : Event → Uart → Uart
step (Event.out_port port value) d =
    if port / 8 == com1 / 8 then port_write (port % 8) value d else d
step _ d = d

-- The port after what the kernel did so far.
abbrev pub uart : Cpu → Uart → Uart
uart s d = after_trace step s.trace d

-- The writes of `serial_early_init` leave the port, whatever state it was in, at the highest speed
-- with 8 data bits, one stop bit and no parity, with its queues on and its interrupt for received
-- data on. Nothing is sent.
pub configure_lem :
    (s : Cpu) (d : Uart)
    → (s' : Cpu) × (configure s ≡ ok tt s')
      × (uart s' d ≡ record {
        divisor_low = 1;
        divisor_high = 0;
        interrupts = 1;
        fifo_control = 0xC7;
        line_control = 0x03;
        modem_control = 0x0B;
        sent = (uart s d).sent;
      })
unfolding configure outb
configure_lem s d = (
  _,
  refl,
  elim (Bool-cases (takes_divisor (uart s d))) [
    | inl h ↦ simp after_trace-snoc (rw h refl)
    | inr h ↦ simp after_trace-snoc (rw h refl)
  ],
)
