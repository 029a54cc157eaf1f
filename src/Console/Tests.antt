-- ===== src/Console/Tests.antt =====
-- A port that is busy once and then always free.
use umbral_os.Base.{ℕ, zero, suc, ◌≡◌, refl, List, [], ◌∷◌, replicate}
use umbral_os.Base.Panics.{lapic_read_out_of_range}
use umbral_os.Base.Action.{faulted, halted}
use umbral_os.Intel.{Cpu}
use umbral_os.Serial.Device.{Uart}
use umbral_os.Serial.Write.{Polls, done, busy, idle}
use umbral_os.Common.Print.Number.Text.{text_loop}
use umbral_os.Console.{Writer, die}
use umbral_os.Console.Lines.{lines, Sent}
use umbral_os.Console.Panics.{panic_lines, pieces, stopped, die_lem}
use umbral_os.Base.Text.{codes}

abbrev garbage : List ℕ
garbage = replicate 21 0xcc

abbrev port : Uart
port = record {
  divisor_low = 1;
  divisor_high = 0;
  interrupts = 1;
  fifo_control = 0xC7;
  line_control = 0x03;
  modem_control = 0x0B;
  sent = [];
}

idle_polls : (n : ℕ) → Polls n (replicate n 0x60) []
idle_polls zero = done
idle_polls (suc n) = idle refl (idle_polls n)

abbrev answering : Cpu
answering = record { replies = 0x00 ∷ replicate 54 0x60; trace = [] }

-- A newline goes out as two carriage returns and a line feed.
panic_text :
    lines (panic_lines (lapic_read_out_of_range 0x41))
    ≡ codes "PANIC: lapic_read: LAPIC Register 0x41 out of range\r\r\n"
unfolding pieces text_loop
panic_text = refl

die_lem_example :
    (t : Cpu) × (die garbage Writer.serial (lapic_read_out_of_range 0x41) answering
      ≡ faulted halted (stopped t))
    × Sent answering port (lines (panic_lines (lapic_read_out_of_range 0x41))) [] t
unfolding pieces text_loop
die_lem_example =
    die_lem garbage refl Writer.serial refl (lapic_read_out_of_range 0x41) [] answering port
      (record { polls = busy refl (idle_polls 54); line = refl })
